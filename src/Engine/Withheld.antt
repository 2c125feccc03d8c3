-- ===== src/Engine/Withheld.antt =====
-- The steps of class `Engine` in typespec/ts/assets/skeleton.ts and what they take onward, frames of edits
-- among them.
use mathlib.Core.Path.{subst}
use phaselock.Prelude.{
  ◌≡◌, refl, ℕ, List, [], ◌∷◌, true, false, Option, some, arith, Option-cases, some_inj, inl, inr,
  ◌∙◌,
}
use phaselock.Keys.{Key}
use phaselock.Engine.{release_in, Edit, Engine, frozen, on_end}
use phaselock.Engine.Edits.{
  Chain, round_trips, hold_each, enter, apply_frame, on_edits, chain_edits, no_chain, last_at,
}
use phaselock.Engine.Mutations.{outcome_each, on_outcomes}
use phaselock.Engine.Invariant.{IsEngine}
use phaselock.Engine.Keeps.{
  Keeps, kept, Keeps_trans, Keeps-round_trips, backfills-round_trips, Keeps-hold_each,
  backfills-hold_each, Keeps-refresh, Keeps-outcome_each, Keeps-on_submitted,
}
use phaselock.Engine.Land.Plans.{Base}
use phaselock.Engine.Land.Tried.{try_land-Tried}
use phaselock.Engine.Frames.{on_edits-cases}
use phaselock.Engine.Steps.{
  on_open-eq, Step, edits, cursor, opened, ended, submitted, outcomes, landed, viewed,
}
use phaselock.Engine.Onward.{
  IsOnward, Keeps-IsOnward, IsOnward-on_cursor, IsOnward-advance, IsOnward-park_frame,
  IsOnward-Tried, IsOnward-on_view,
}

module _ {S : Type 0} (apply_edits : List Edit → S → Option (S × List Key)) where
  enter-Keeps :
      (es : List Edit) (s s' : Engine S)
      → enter apply_edits es s ≡ some s'
      → (s'.applied ≡ s.applied) × (s'.checkpoint ≡ s.checkpoint) × (s'.backfills ≡ s.backfills)
  enter-Keeps [] s s' e = ground (arith, e)
  enter-Keeps (x ∷ es) s s' e = elim (Option-cases (apply_edits (x ∷ es) s.stored.base)) [
    | inl n ↦ ground (arith, e, n)
    | inr (r, n) ↦ ground (arith, e, n)
  ]

  IsOnward-apply_frame :
      (c : Chain) (last : ℕ) (s s' : Engine S)
      → frozen s ≡ false
      → apply_frame apply_edits c last s ≡ some s'
      → IsOnward s s'
  unfolding apply_frame
  IsOnward-apply_frame c last s s' f e =
      let t = round_trips c.apply s in
      elim (Option-cases (enter apply_edits c.apply t)) [
        | inl n ↦ ground (arith, e, n)
        | inr (u, n) ↦
            let k = Keeps-round_trips c.apply s in
            let j = Keeps-hold_each c.seqs u in
            let (a, b, g) = enter-Keeps c.apply t u n in
            IsOnward-advance last true s (hold_each c.seqs u) s' (j.applied ∙ a ∙ k.applied)
              (j.checkpoint ∙ b ∙ k.checkpoint)
              (ground (arith, f, g, backfills-round_trips c.apply s, backfills-hold_each c.seqs u))
              (rw n at e)
      ]

module _ {S M : Type 0} (convert : M → Option (List ℕ))
    (apply_edits : List Edit → S → Option (S × List Key)) (base : Base S) where
  -- No frame of edits, view, cursor, opening, end of a connection, pass over submissions of fresh
  -- ids, pass over answers or attempt to land, of an Engine where its invariant holds, moves the
  -- applied position or the cursor back, and one that leaves a backfill in flight changes neither
  -- the keys of the slices nor the applied position.
  pub Step-IsOnward :
      {s s' : Engine S} → IsEngine s → Step convert apply_edits base s s' → IsOnward s s'
  unfolding on_edits on_outcomes
  Step-IsOnward {s} {s'} h (edits [] e) =
      subst (IsOnward s) (some_inj e) (Keeps-IsOnward s s (kept s s refl refl refl))
  Step-IsOnward {s} {s'} h (edits (x ∷ es) e) = elim (on_edits-cases apply_edits x es s s' e) [
    | inl (bs, p) ↦ IsOnward-park_frame bs (x ∷ es) (last_at x es) s s' p
    | inr (f, a) ↦
        IsOnward-apply_frame apply_edits (chain_edits s.slices (x ∷ es) no_chain) (last_at x es) s
          s' f a
  ]
  Step-IsOnward {s} {s'} h (cursor p e) = IsOnward-on_cursor p s s' e
  Step-IsOnward {s} {s'} h (opened epoch e) = Keeps-IsOnward s s' (
      subst (Keeps s) (on_open-eq epoch s s' e)
        (kept s (record s { epoch = some epoch }) refl refl refl))
  Step-IsOnward {s} {s'} h (ended e) =
      subst (IsOnward s) e (Keeps-IsOnward s (on_end s) (kept s (on_end s) refl refl refl))
  Step-IsOnward {s} {s'} h (submitted c r xs calls f e) =
      Keeps-IsOnward s s' (Keeps-on_submitted convert c r xs s s' calls e)
  Step-IsOnward {s} {s'} h (outcomes os e) =
      let t = (outcome_each os s []).0 in
      let u = record t { box = release_in (outcome_each os s []).1 t.box } in
      subst (IsOnward s) e (
        Keeps-IsOnward s (on_outcomes os s) (
          Keeps_trans (Keeps-outcome_each os s [])
            (Keeps_trans (kept t u refl refl refl) (Keeps-refresh u))))
  Step-IsOnward {s} {s'} h (landed e) = IsOnward-Tried base s s' h (try_land-Tried base s s' h e)
  Step-IsOnward {s} {s'} h (viewed v e) = IsOnward-on_view base v s s' h e
