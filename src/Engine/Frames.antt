-- ===== src/Engine/Frames.antt =====
-- A frame of edits, `#onEditsIn` of class `Engine` in typespec/ts/assets/skeleton.ts, applies whole or parks,
-- and keeps what holds of the Engine.
use mathlib.Core.Path.{subst}
use phaselock.Prelude.{
  ◌≡◌, ◌⊎◌, ℕ, List, [], ◌∷◌, false, true, Option, some, arith, Bool-cases, Option-cases, some_inj,
  inl, inr, refl,
}
use phaselock.Keys.{Key}
use phaselock.Engine.{Edit, Engine, frozen}
use phaselock.Engine.Edits.{
  Chain, spawn_breaks, park, round_trips, hold_each, enter, park_frame, apply_frame, on_edits,
  chain_edits, no_chain, last_at,
}
use phaselock.Engine.Invariant.{
  IsEngine, IsEngine-same, IsEngine-advance, IsEngine-round_trips, IsEngine-hold_each,
  IsEngine-spawn_breaks, IsEngine-park,
}

module _ {S : Type 0} (apply_edits : List Edit → S → Option (S × List Key)) where
  IsEngine-enter :
      (es : List Edit) (s s' : Engine S)
      → IsEngine s
      → enter apply_edits es s ≡ some s'
      → IsEngine s'
  IsEngine-enter [] s s' h e = subst IsEngine (some_inj e) h
  IsEngine-enter (x ∷ es) s s' h e = elim (Option-cases (apply_edits (x ∷ es) s.stored.base)) [
    | inl n ↦ ground (arith, e, n)
    | inr (r, n) ↦
        subst IsEngine (some_inj (rw n at e))
          (IsEngine-same s _ refl refl refl refl refl refl refl h.waiting h)
  ]

  -- a frame that does not apply whole parks
  branch :
      (es : List Edit) (last : ℕ) (s s' : Engine S) (c : Chain) (breaks : List Edit)
      → elim breaks [
        | [] ↦ apply_frame apply_edits c last s
        | b ∷ bs ↦ park_frame (b ∷ bs) es last s
      ]
        ≡ some s'
      → ((bs : List Edit) × (park_frame bs es last s ≡ some s'))
        ⊎ (apply_frame apply_edits c last s ≡ some s')
  branch es last s s' c [] e = inr e
  branch es last s s' c (b ∷ bs) e = inl (b ∷ bs, e)

  pub on_edits-cases :
      (e : Edit) (es : List Edit) (s s' : Engine S)
      → on_edits apply_edits (e ∷ es) s ≡ some s'
      → ((bs : List Edit) × (park_frame bs (e ∷ es) (last_at e es) s ≡ some s'))
        ⊎ ((frozen s ≡ false)
            × (apply_frame apply_edits (chain_edits s.slices (e ∷ es) no_chain) (last_at e es) s
                ≡ some s'))
  unfolding on_edits
  on_edits-cases e es s s' h =
      let c = chain_edits s.slices (e ∷ es) no_chain in
      elim (Bool-cases (frozen s)) [
        | inl f ↦ inl ([], rw f at h)
        | inr f ↦ elim (branch (e ∷ es) (last_at e es) s s' c c.breaks (rw f at h)) [
          | inl b ↦ inl b
          | inr a ↦ inr (f, a)
        ]
      ]

  IsEngine-apply_frame :
      (c : Chain) (last : ℕ) (s s' : Engine S)
      → IsEngine s
      → apply_frame apply_edits c last s ≡ some s'
      → IsEngine s'
  unfolding apply_frame
  IsEngine-apply_frame c last s s' h e =
      elim (Option-cases (enter apply_edits c.apply (round_trips c.apply s))) [
        | inl n ↦ ground (arith, e, n)
        | inr (t, n) ↦
            IsEngine-advance last true (hold_each c.seqs t) s'
              (IsEngine-hold_each c.seqs t (
                IsEngine-enter c.apply (round_trips c.apply s) t (IsEngine-round_trips c.apply s h)
                  n))
              (rw n at e)
      ]

  pub IsEngine-on_edits :
      (es : List Edit) (s s' : Engine S)
      → IsEngine s
      → on_edits apply_edits es s ≡ some s'
      → IsEngine s'
  unfolding on_edits park_frame
  IsEngine-on_edits [] s s' h e = subst IsEngine (some_inj e) h
  IsEngine-on_edits (x ∷ es) s s' h e = elim (on_edits-cases x es s s' e) [
    | inl (bs, p) ↦
        IsEngine-advance (last_at x es) false (park (x ∷ es) (spawn_breaks bs s)) s'
          (IsEngine-park (x ∷ es) (spawn_breaks bs s) (IsEngine-spawn_breaks bs s h)) p
    | inr (f, a) ↦
        IsEngine-apply_frame (chain_edits s.slices (x ∷ es) no_chain) (last_at x es) s s' h a
  ]
