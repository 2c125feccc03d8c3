-- ===== src/Engine/Keeps.antt =====
-- What work of class `Engine` in typespec/ts/assets/skeleton.ts that is not the cursor's leaves as it was: the
-- slices' keys and the positions.
use phaselock.Txn.Reps.{then_some-some}
use mathlib.Core.Path.{subst}
use phaselock.Prelude.{
  ◌≡◌, refl, ℕ, List, [], ◌∷◌, Bool, true, false, Option, none, some, if◌then◌else◌, arith, if_elim,
  ◌&&◌, Option-cases, some_inj, inl, inr, ◌∙◌, ap,
}
use phaselock.Keys.{Key}
use phaselock.Layer.{Layer, has}
use phaselock.Engine.{MutationResult, Edit, Engine, round_trip, resolve, hold, forget, spawn}
use phaselock.Engine.Edits.{spawn_breaks, park, round_trips, hold_each}
use phaselock.Engine.Mutations.{
  Submission, to_outbox, online, Call, Calls, Outcome, answered, broken, submit_each, send, gather,
  on_submitted, settle_online, refresh, fail, answer, answer_each, outcome_each, rows_at, pending,
  mint, submit_each-some,
}

module _ {S : Type 0} where
  -- what the work on edits keeps
  pub record Keeps (s s' : Engine S) : Type 0 where
    pub base : s'.stored.base ≡ s.stored.base
    pub applied : s'.applied ≡ s.applied
    pub checkpoint : s'.checkpoint ≡ s.checkpoint

  pub kept :
      (s s' : Engine S)
      → s'.stored.base ≡ s.stored.base
      → s'.applied ≡ s.applied
      → s'.checkpoint ≡ s.checkpoint
      → Keeps s s'
  kept s s' b a c = record { base = b; applied = a; checkpoint = c }

  pub Keeps_trans : {s t u : Engine S} → Keeps s t → Keeps t u → Keeps s u
  Keeps_trans h k = kept _ _ (k.base ∙ h.base) (k.applied ∙ h.applied) (k.checkpoint ∙ h.checkpoint)

  pub Keeps-round_trips : (es : List Edit) (s : Engine S) → Keeps s (round_trips es s)
  unfolding round_trip
  Keeps-round_trips [] s = kept s s refl refl refl
  Keeps-round_trips (e ∷ es) s =
      ground (arith, Keeps-round_trips es (resolve e.slice (round_trip e.id s)))

  pub backfills-round_trips :
      (es : List Edit) (s : Engine S) → (round_trips es s).backfills ≡ s.backfills
  unfolding round_trip
  backfills-round_trips [] s = refl
  backfills-round_trips (e ∷ es) s =
      ground (arith, backfills-round_trips es (resolve e.slice (round_trip e.id s)))

  pub Keeps-hold_each : (seqs : Layer (Option ℕ)) (s : Engine S) → Keeps s (hold_each seqs s)
  Keeps-hold_each [] s = kept s s refl refl refl
  Keeps-hold_each ((slice, none) ∷ seqs) s =
      Keeps_trans (kept s (forget slice s) refl refl refl) (Keeps-hold_each seqs (forget slice s))
  Keeps-hold_each ((slice, some seq) ∷ seqs) s =
      Keeps_trans (kept s (hold slice seq s) refl refl refl)
        (Keeps-hold_each seqs (hold slice seq s))

  pub backfills-hold_each :
      (seqs : Layer (Option ℕ)) (s : Engine S) → (hold_each seqs s).backfills ≡ s.backfills
  backfills-hold_each [] s = refl
  backfills-hold_each ((slice, none) ∷ seqs) s = backfills-hold_each seqs (forget slice s)
  backfills-hold_each ((slice, some seq) ∷ seqs) s = backfills-hold_each seqs (hold slice seq s)

  pub Keeps-spawn_breaks : (es : List Edit) (s : Engine S) → Keeps s (spawn_breaks es s)
  Keeps-spawn_breaks [] s = kept s s refl refl refl
  Keeps-spawn_breaks (e ∷ es) s =
      ground
        (arith, Keeps-spawn_breaks es (if has e.slice s.backfills then s else spawn e.slice e.at s))

  pub Keeps-park : (es : List Edit) (s : Engine S) → Keeps s (park es s)
  Keeps-park [] s = kept s s refl refl refl
  Keeps-park (e ∷ es) s = Keeps_trans (kept s _ refl refl refl) (Keeps-park es _)

  Keeps-submit_each :
      {M : Type 0}
      → (convert : M → Option (List ℕ)) (xs : List (Submission M)) (s : Engine S) (c : Calls)
        (r : Engine S × Calls)
      → submit_each convert xs (s, c) ≡ some r
      → Keeps s r.0
  Keeps-submit_each convert [] s c r e =
      subst (λ (r : Engine S × Calls). Keeps s r.0) (some_inj e) (kept s s refl refl refl)
  Keeps-submit_each convert (online id given ∷ xs) s c r e =
      let (bytes, f) = submit_each-some convert (online id given) xs (s, c) r e in
      let t = mint (online id given) bytes (s, c) in
      Keeps_trans (kept s t.0 refl refl refl) (Keeps-submit_each convert xs t.0 t.1 r f)
  Keeps-submit_each convert (to_outbox id given ∷ xs) s c r e =
      let (bytes, f) = submit_each-some convert (to_outbox id given) xs (s, c) r e in
      let t = mint (to_outbox id given) bytes (s, c) in
      Keeps_trans (kept s t.0 refl refl refl) (Keeps-submit_each convert xs t.0 t.1 r f)

  Keeps-send : (calls : List Call) (s : Engine S) → Keeps s (send calls s)
  Keeps-send [] s = kept s s refl refl refl
  Keeps-send (([], o) ∷ calls) s = Keeps-send calls s
  Keeps-send (((m ∷ ms), true) ∷ calls) s =
      Keeps_trans (kept s _ refl refl refl) (Keeps-send calls _)
  Keeps-send (((m ∷ ms), false) ∷ calls) s =
      Keeps_trans (kept s _ refl refl refl) (Keeps-send calls _)

  pub Keeps-refresh : (s : Engine S) → Keeps s (refresh s)
  unfolding settle_online
  Keeps-refresh s = ground arith

  Keeps-fail : (ids : List Key) (s : Engine S) → Keeps s (fail ids s)
  Keeps-fail [] s = kept s s refl refl refl
  Keeps-fail (id ∷ ids) s =
      Keeps_trans
        (if_elim (Keeps s) (has id s.online) (λ e. kept s _ refl refl refl)
          (λ e. kept s _ refl refl refl))
        (Keeps-fail ids _)

  Keeps-answer :
      (id : Key) (r : MutationResult) (s : Engine S) (drop : List Key)
      → Keeps s (answer id r s drop).0
  unfolding answer
  Keeps-answer id r s drop = ground arith

  Keeps-answer_each :
      (ids : List Key) (rs : List MutationResult) (s : Engine S) (drop : List Key)
      → Keeps s (answer_each ids rs s drop).0
  Keeps-answer_each [] rs s drop = kept s s refl refl refl
  Keeps-answer_each (id ∷ ids) [] s drop = kept s s refl refl refl
  Keeps-answer_each (id ∷ ids) (r ∷ rs) s drop =
      Keeps_trans (Keeps-answer id r s drop)
        (Keeps-answer_each ids rs (answer id r s drop).0 (answer id r s drop).1)

  pub Keeps-outcome_each :
      (os : List Outcome) (s : Engine S) (drop : List Key) → Keeps s (outcome_each os s drop).0
  Keeps-outcome_each [] s drop = kept s s refl refl refl
  Keeps-outcome_each (answered ids rs ∷ os) s drop =
      Keeps_trans (Keeps-answer_each ids rs s drop) (Keeps-outcome_each os _ _)
  Keeps-outcome_each (broken ids now ∷ os) s drop = Keeps_trans (Keeps-fail ids s) (
      Keeps_trans
        (if_elim (Keeps (fail ids s)) now (λ e. kept (fail ids s) _ refl refl refl)
          (λ e. kept (fail ids s) _ refl refl refl))
        (Keeps-outcome_each os _ _))

  Keeps-gather :
      {M : Type 0}
      → (convert : M → Option (List ℕ)) (resend : Bool) (xs : List (Submission M)) (s s' : Engine S)
        (calls : List Call)
      → gather convert resend xs s ≡ some (s', calls)
      → Keeps s s'
  unfolding gather
  Keeps-gather convert resend xs s s' calls e =
      let (rows, _, f) =
        then_some-some
          (rows_at (if resend then pending s.box.sent s.box.acked s.box.outbox else []) s.box.rows)
          _ (s', calls) e in
      let c : Calls = record { closed = []; last = rows } in
      let (r, g, q) = then_some-some (submit_each convert xs (s, c)) _ (s', calls) f in
      subst (Keeps s) (ap (λ r. r.0) (some_inj q)) (Keeps-submit_each convert xs s c r g)

  pub Keeps-on_submitted :
      {M : Type 0}
      → (convert : M → Option (List ℕ)) (connected resend : Bool) (xs : List (Submission M))
        (s s' : Engine S) (calls : List Call)
      → on_submitted convert connected resend xs s ≡ some (s', calls)
      → Keeps s s'
  unfolding on_submitted
  Keeps-on_submitted convert connected resend xs s s' calls e =
      elim (Option-cases (gather convert (resend && connected) xs s)) [
        | inl n ↦ ground (arith, e, n)
        | inr ((t, ms), n) ↦
            let k =
              Keeps_trans (Keeps-gather convert (resend && connected) xs s t ms n)
                (Keeps-refresh t) in
            subst (λ (r : Engine S × List Call). Keeps s r.0) (some_inj (rw n at e))
              (if_elim (λ (r : Engine S × List Call). Keeps s r.0) connected
                (λ c. Keeps_trans k (Keeps-send ms (refresh t)))
                (λ c. Keeps_trans k (kept (refresh t) _ refl refl refl)))
      ]
