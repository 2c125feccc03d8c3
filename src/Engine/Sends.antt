-- ===== src/Engine/Sends.antt =====
-- Submissions and the answers to calls, of class `Engine` in typespec/ts/assets/skeleton.ts, keep what holds of
-- the Engine.
use phaselock.Txn.Reps.{then_some-some}
use mathlib.Core.Path.{subst}
use phaselock.Prelude.{
  ◌≡◌, ◌∙◌, refl, ap, List, [], ◌∷◌, ◌++◌, Bool, true, false, ◌&&◌, some, if◌then◌else◌, arith,
  if_elim, Option-cases, some_inj, inl, inr, Option, ℕ,
}
use phaselock.Keys.{Key, key_eq}
use phaselock.Layer.{Layer, get, has, put, delete}
use phaselock.Layer.Laws.{has-put}
use phaselock.Engine.{
  Mutation, MutationResult, accepted, refused, conflicting, Outbox, Settled, resolved, failed,
  Online, Engine, release_in,
}
use phaselock.Engine.Outboxes.{
  IsOutbox, IsOutbox-flags, IsOutbox-release_in, IsOutbox-enqueue, IsOutbox-answer,
}
use phaselock.Engine.Mutations.{
  Submission, to_outbox, online, Call, Calls, Outcome, answered, broken, submit_each, send, gather,
  on_submitted, settle_online, refresh, fail, answer_online, answer, answer_each, outcome_each,
  on_outcomes, answer_outbox, rows_at, pending, mint, submit_each-some,
}
use phaselock.Engine.Invariant.{IsEngine, IsEngine-same, IsEngine-box}

-- the ids generated are new
abbrev pub IsFresh : {M : Type 0} → List (Submission M) → (Key → Bool) → Type 0
IsFresh [] seen = Unit
IsFresh (online id given ∷ xs) seen = IsFresh xs seen
IsFresh (to_outbox id given ∷ xs) seen =
    (seen id ≡ false) × IsFresh xs (λ j. if key_eq id j then true else seen j)

module _ {S : Type 0} where
  IsEngine-settle : (s : Engine S) → IsEngine s → IsEngine (settle_online s)
  unfolding settle_online
  IsEngine-settle s h = ground (arith, h)

  IsEngine-refresh : (s : Engine S) → IsEngine s → IsEngine (refresh s)
  IsEngine-refresh s h =
      let b : Outbox = record s.box { changed = false } in
      IsEngine-settle (record s { box = b })
        (IsEngine-box b s (IsOutbox-flags s.box _ refl refl refl refl h.waiting) h)

  IsEngine-submit_each :
      {M : Type 0}
      → (convert : M → Option (List ℕ)) (xs : List (Submission M)) (s : Engine S) (c : Calls)
        (seen : Key → Bool) (r : Engine S × Calls)
      → ((j : Key) → has j s.box.outbox ≡ seen j)
      → IsFresh xs seen
      → IsEngine s
      → submit_each convert xs (s, c) ≡ some r
      → IsEngine r.0
  IsEngine-submit_each convert [] s c seen r o f h e =
      subst (λ (r : Engine S × Calls). IsEngine r.0) (some_inj e) h
  IsEngine-submit_each convert (online id given ∷ xs) s c seen r o f h e =
      let (bytes, g) = submit_each-some convert (online id given) xs (s, c) r e in
      let t = mint (online id given) bytes (s, c) in
      IsEngine-submit_each convert xs t.0 t.1 seen r o f
        (IsEngine-same s t.0 refl refl refl refl refl refl refl h.waiting h) g
  IsEngine-submit_each convert (to_outbox id given ∷ xs) s c seen r o f h e =
      let (bytes, g) = submit_each-some convert (to_outbox id given) xs (s, c) r e in
      let m : Mutation = record { id = id; n = s.next_n; bytes = bytes } in
      let t = mint (to_outbox id given) bytes (s, c) in
      IsEngine-submit_each convert xs t.0 t.1 (λ j. if key_eq id j then true else seen j) r
        (λ j. ground (arith, o j, has-put id j s.box.next_ordinal s.box.outbox)) f.1
        (IsEngine-same s t.0 refl refl refl refl refl refl refl
          (IsOutbox-enqueue s.applied m s.box (o id ∙ f.0) h.waiting) h)
        g

  IsEngine-send : (calls : List Call) (s : Engine S) → IsEngine s → IsEngine (send calls s)
  IsEngine-send [] s h = h
  IsEngine-send (([], o) ∷ calls) s h = IsEngine-send calls s h
  IsEngine-send (((m ∷ ms), true) ∷ calls) s h =
      IsEngine-send calls _ (IsEngine-same s _ refl refl refl refl refl refl refl h.waiting h)
  IsEngine-send (((m ∷ ms), false) ∷ calls) s h =
      IsEngine-send calls _
        (IsEngine-box _ s (IsOutbox-flags s.box _ refl refl refl refl h.waiting) h)

  IsEngine-gather :
      {M : Type 0}
      → (convert : M → Option (List ℕ)) (resend : Bool) (xs : List (Submission M)) (s s' : Engine S)
        (calls : List Call)
      → IsFresh xs (λ j. has j s.box.outbox)
      → IsEngine s
      → gather convert resend xs s ≡ some (s', calls)
      → IsEngine s'
  unfolding gather
  IsEngine-gather convert resend xs s s' calls f h e =
      let (rows, _, g) =
        then_some-some
          (rows_at (if resend then pending s.box.sent s.box.acked s.box.outbox else []) s.box.rows)
          _ (s', calls) e in
      let c : Calls = record { closed = []; last = rows } in
      let (r, k, q) = then_some-some (submit_each convert xs (s, c)) _ (s', calls) g in
      subst IsEngine (ap (λ r. r.0) (some_inj q))
        (IsEngine-submit_each convert xs s c (λ j. has j s.box.outbox) r (λ j. refl) f h k)

  pub IsEngine-on_submitted :
      {M : Type 0}
      → (convert : M → Option (List ℕ)) (connected resend : Bool) (xs : List (Submission M))
        (s s' : Engine S) (calls : List Call)
      → IsFresh xs (λ j. has j s.box.outbox)
      → IsEngine s
      → on_submitted convert connected resend xs s ≡ some (s', calls)
      → IsEngine s'
  unfolding on_submitted
  IsEngine-on_submitted convert connected resend xs s s' calls f h e =
      elim (Option-cases (gather convert (resend && connected) xs s)) [
        | inl n ↦ ground (arith, e, n)
        | inr ((t, ms), n) ↦
            let k =
              IsEngine-refresh t (IsEngine-gather convert (resend && connected) xs s t ms f h n) in
            subst (λ (r : Engine S × List Call). IsEngine r.0) (some_inj (rw n at e))
              (if_elim (λ (r : Engine S × List Call). IsEngine r.0) connected
                (λ c. IsEngine-send ms (refresh t) k)
                (λ c. IsEngine-same (refresh t) _ refl refl refl refl refl refl refl k.waiting k))
      ]

  -- the mutations to drop are yet to leave
  abbrev IsBusy : Engine S → List Key → Type 0
  IsBusy s drop = (b : Outbox) × IsEngine (record s { box = b }) × IsOutbox s.applied drop s.box

  IsBusy-online :
      (o : Layer Online) (l : List (Key × Settled)) (a : Bool) (s : Engine S) (drop : List Key)
      → IsBusy s drop
      → IsBusy (record s { online = o; settled = l; aborted = a }) drop
  IsBusy-online o l a s drop (b, k, w) =
      (b, IsEngine-same (record s { box = b }) _ refl refl refl refl refl refl refl k.waiting k, w)

  IsBusy-fail :
      (ids : List Key) (s : Engine S) (drop : List Key) → IsBusy s drop → IsBusy (fail ids s) drop
  IsBusy-fail [] s drop h = h
  IsBusy-fail (id ∷ ids) s drop h = IsBusy-fail ids _ drop (
      if_elim (λ t. IsBusy t drop) (has id s.online)
        (λ e.
          IsBusy-online (delete id s.online) (s.settled ++ (id, failed) ∷ []) s.aborted s drop h)
        (λ e. h))

  IsBusy-answer_online :
      (id : Key) (r : MutationResult) (o : Online) (s : Engine S) (drop : List Key)
      → IsBusy s drop
      → IsBusy (answer_online id r o s) drop
  IsBusy-answer_online id (accepted p) o s drop h =
      IsBusy-online (put id (record o { ack = some p }) s.online) s.settled s.aborted s drop h
  IsBusy-answer_online id refused o s drop h =
      IsBusy-online (delete id s.online) (s.settled ++ (id, resolved refused) ∷ []) s.aborted s drop
        h
  IsBusy-answer_online id conflicting o s drop h =
      IsBusy-online (delete id s.online) (s.settled ++ (id, resolved conflicting) ∷ []) s.aborted s
        drop h

  IsBusy-outbox :
      (id : Key) (r : MutationResult) (s : Engine S) (drop : List Key)
      → IsBusy s drop
      → let t : Engine S × List Key =
          if has id s.box.outbox
          then (
            record s { box = (answer_outbox s.applied id r (s.box, drop)).0 },
            (answer_outbox s.applied id r (s.box, drop)).1,
          )
          else (s, drop) in
        IsBusy t.0 t.1
  IsBusy-outbox id r s drop (b, k, w) =
      if_elim (λ (t : Engine S × List Key). IsBusy t.0 t.1) (has id s.box.outbox)
        (λ e. (b, k, IsOutbox-answer s.applied id r s.box drop e w)) (λ e. (b, k, w))

  IsBusy-answer :
      (id : Key) (r : MutationResult) (s : Engine S) (drop : List Key)
      → IsBusy s drop
      → IsBusy (answer id r s drop).0 (answer id r s drop).1
  unfolding answer
  IsBusy-answer id r s drop h = elim (Option-cases (get id s.online)) [
    | inl e ↦ rw (answer, e) (IsBusy-outbox id r s drop h)
    | inr (o, e) ↦ rw (answer, e) (IsBusy-answer_online id r o s drop h)
  ]

  IsBusy-answer_each :
      (ids : List Key) (rs : List MutationResult) (s : Engine S) (drop : List Key)
      → IsBusy s drop
      → IsBusy (answer_each ids rs s drop).0 (answer_each ids rs s drop).1
  IsBusy-answer_each [] rs s drop h = h
  IsBusy-answer_each (id ∷ ids) [] s drop h = h
  IsBusy-answer_each (id ∷ ids) (r ∷ rs) s drop h =
      IsBusy-answer_each ids rs (answer id r s drop).0 (answer id r s drop).1
        (IsBusy-answer id r s drop h)

  IsBusy-outcome_each :
      (os : List Outcome) (s : Engine S) (drop : List Key)
      → IsBusy s drop
      → IsBusy (outcome_each os s drop).0 (outcome_each os s drop).1
  IsBusy-outcome_each [] s drop h = h
  IsBusy-outcome_each (answered ids rs ∷ os) s drop h =
      IsBusy-outcome_each os (answer_each ids rs s drop).0 (answer_each ids rs s drop).1
        (IsBusy-answer_each ids rs s drop h)
  IsBusy-outcome_each (broken ids now ∷ os) s drop h =
      let k = IsBusy-fail ids s drop h in
      IsBusy-outcome_each os (if now then record (fail ids s) { aborted = true } else fail ids s)
        drop
        (if_elim (λ t. IsBusy t drop) now
          (λ e. IsBusy-online (fail ids s).online (fail ids s).settled true (fail ids s) drop k)
          (λ e. k))

  pub IsEngine-on_outcomes :
      (os : List Outcome) (s : Engine S) → IsEngine s → IsEngine (on_outcomes os s)
  unfolding on_outcomes
  IsEngine-on_outcomes os s h =
      let (b, k, w) = IsBusy-outcome_each os s [] (s.box, h, h.waiting) in
      let (t, drop) = outcome_each os s [] in
      IsEngine-refresh (record t { box = release_in drop t.box })
        (IsEngine-box (release_in drop t.box) (record t { box = b })
          (IsOutbox-release_in t.applied drop t.box w) k)
