-- ===== src/Engine/Onward.antt =====
-- When work of class `Engine` in typespec/ts/assets/skeleton.ts takes it onward, for the cursor, lands and
-- view frames.
use mathlib.Core.Path.{subst}
use phaselock.Prelude.{
  ◌≡◌, refl, ◌≤◌, ℕ, List, Bool, true, false, Option, none, some, if◌then◌else◌, arith, if_elim,
  Bool-cases, inl, inr, ◌∙◌, sym,
}
use phaselock.Keys.{Key}
use phaselock.Engine.{
  View, Checkpoint, Edit, Engine, frozen, release_through, move_cursor, advance_cursor, on_cursor,
}
use phaselock.Engine.Edits.{spawn_breaks, park, park_frame}
use phaselock.Engine.Invariant.{IsEngine, IsPlaced, moved}
use phaselock.Engine.Keeps.{Keeps, kept, Keeps_trans, Keeps-spawn_breaks, Keeps-park}
use phaselock.Engine.Land.Plans.{Base, position_of}
use phaselock.Engine.Land.Finish.{IsDone}
use phaselock.Engine.Land.Tried.{Tried}
use phaselock.Engine.Views.{on_view}
use phaselock.Engine.Views.Shown.{IsShown, Settled, on_view-Settled}
use phaselock.Engine.Steps.{}

-- The order of positions, `none` below all.
abbrev pub IsUpTo : Option ℕ → Option ℕ → Type 0
IsUpTo none b = Unit
IsUpTo (some a) none = ⊥
IsUpTo (some a) (some b) = a ≤ b

pub IsUpTo-refl : (a : Option ℕ) → IsUpTo a a
IsUpTo-refl none = tt
IsUpTo-refl (some a) = omega arith

IsUpTo-placed :
    (applied : Option ℕ) (c : Option Checkpoint)
    → IsPlaced applied c
    → IsUpTo applied (position_of c)
IsUpTo-placed none c h = tt
IsUpTo-placed (some a) none h = ground (arith, h)
IsUpTo-placed (some a) (some c) h = h.1

module _ {S : Type 0} where
  -- the cursor and the applied position have not moved back
  abbrev pub IsAhead : Engine S → Engine S → Type 0
  IsAhead s s' =
      IsUpTo s.applied s'.applied × IsUpTo (position_of s.checkpoint) (position_of s'.checkpoint)

  -- while a backfill is in flight, neither the slices' keys nor the applied position have changed
  abbrev pub IsWithheld : Engine S → Engine S → Type 0
  IsWithheld s s' = frozen s' ≡ true → (s'.stored.base ≡ s.stored.base) × (s'.applied ≡ s.applied)

  IsAhead-advance :
      (epoch : Key) (p : ℕ) (through : Bool) (s : Engine S)
      → IsAhead s (move_cursor epoch p (if through then release_through p s else s))
  unfolding move_cursor release_through
  IsAhead-advance epoch p through s =
      ground (arith, IsUpTo-refl s.applied, IsUpTo-refl (position_of s.checkpoint))

  -- the positions move forward, and a base withheld stays
  abbrev pub IsOnward : Engine S → Engine S → Type 0
  IsOnward s s' = IsAhead s s' × IsWithheld s s'

  pub Keeps-IsOnward : (s s' : Engine S) → Keeps s s' → IsOnward s s'
  Keeps-IsOnward s s' h = (
    (
      rw h.applied (IsUpTo-refl s.applied),
      rw h.checkpoint (IsUpTo-refl (position_of s.checkpoint)),
    ),
    λ f. (h.base, h.applied),
  )

  -- the moves of the cursor after work that keeps the positions
  pub IsAhead-after :
      (epoch : Key) (p : ℕ) (through : Bool) (s t : Engine S)
      → t.applied ≡ s.applied
      → t.checkpoint ≡ s.checkpoint
      → IsAhead s (move_cursor epoch p (if through then release_through p t else t))
  IsAhead-after epoch p through s t a c =
      let h = IsAhead-advance epoch p through t in
      let u = move_cursor epoch p (if through then release_through p t else t) in
      (
        subst (λ x. IsUpTo x u.applied) a h.0,
        subst (λ x. IsUpTo (position_of x) (position_of u.checkpoint)) c h.1,
      )

  base-move :
      (epoch : Key) (p : ℕ) (t : Engine S)
      → ((move_cursor epoch p t).stored.base ≡ t.stored.base)
        × ((move_cursor epoch p t).applied ≡ t.applied)
        × ((move_cursor epoch p t).backfills ≡ t.backfills)
  unfolding move_cursor
  base-move epoch p t = ground arith

  pub backfills-through : (p : ℕ) (t : Engine S) → (release_through p t).backfills ≡ t.backfills
  unfolding release_through
  backfills-through p t = ground arith

  pub IsOnward-hold_back :
      (p : ℕ) (s t s' : Engine S) → Keeps s t → advance_cursor p false t ≡ some s' → IsOnward s s'
  unfolding advance_cursor
  IsOnward-hold_back p s t s' k e =
      let (epoch, m) = moved p t s' t.epoch e in
      let (b, a, f) = base-move epoch p t in
      subst (IsOnward s) m
        (IsAhead-after epoch p false s t k.applied k.checkpoint, λ f. (b ∙ k.base, a ∙ k.applied))

  pub IsOnward-park_frame :
      (bs es : List Edit) (last : ℕ) (s s' : Engine S)
      → park_frame bs es last s ≡ some s'
      → IsOnward s s'
  unfolding park_frame
  IsOnward-park_frame bs es last s s' e =
      IsOnward-hold_back last s (park es (spawn_breaks bs s)) s'
        (Keeps_trans (Keeps-spawn_breaks bs s) (Keeps-park es (spawn_breaks bs s))) e

  pub IsOnward-advance :
      (p : ℕ) (through : Bool) (s t s' : Engine S)
      → t.applied ≡ s.applied
      → t.checkpoint ≡ s.checkpoint
      → frozen t ≡ false
      → advance_cursor p through t ≡ some s'
      → IsOnward s s'
  unfolding advance_cursor
  IsOnward-advance p through s t s' a c f e =
      let u = if through then release_through p t else t in
      let (epoch, m) = moved p u s' t.epoch e in
      let same : u.backfills ≡ t.backfills =
        if_elim (λ (u : Engine S). u.backfills ≡ t.backfills) through (λ e. backfills-through p t)
          (λ e. refl) in
      subst (IsOnward s) m (
        IsAhead-after epoch p through s t a c,
        λ g. ground (arith, g, f, (base-move epoch p u).2, same),
      )

  pub IsOnward-on_cursor : (p : ℕ) (s s' : Engine S) → on_cursor p s ≡ some s' → IsOnward s s'
  unfolding on_cursor
  IsOnward-on_cursor p s s' e = elim (Bool-cases (frozen s)) [
    | inl f ↦ IsOnward-hold_back p s s s' (kept s s refl refl refl) (rw f at e)
    | inr f ↦ IsOnward-advance p true s s s' refl refl f (rw f at e)
  ]

module _ {S : Type 0} (base : Base S) where
  pub IsOnward-done : (s s' : Engine S) → IsEngine s → IsDone s s' → IsOnward s s'
  IsOnward-done s s' h d = (
    (
      rw (d.landed.2 ∙ d.position) (IsUpTo-placed s.applied s.checkpoint h.placed),
      rw d.position (IsUpTo-refl (position_of s.checkpoint)),
    ),
    λ f. ground (arith, f, d.landed.0),
  )

  pub IsOnward-Tried : (s s' : Engine S) → IsEngine s → Tried base s s' → IsOnward s s'
  IsOnward-Tried s s' h (inl (w, e)) =
      subst (IsOnward s) (sym e) (Keeps-IsOnward s s (kept s s refl refl refl))
  IsOnward-Tried s s' h (inr (inl k)) = Keeps-IsOnward s s' k.1
  IsOnward-Tried s s' h (inr (inr d)) = IsOnward-done s s' h d

  -- work after what a view frame grants
  pub IsOnward-shown : (s u s' : Engine S) → IsShown s u → IsOnward u s' → IsOnward s s'
  IsOnward-shown s u s' k h = (
    (
      subst (λ x. IsUpTo x s'.applied) k.applied h.0.0,
      elim k.cursor [
        | inl c ↦ subst (λ x. IsUpTo (position_of x) (position_of s'.checkpoint)) c h.0.1
        | inr c ↦ rw c tt
      ],
    ),
    λ f. let (b, a) = h.1 f in (b ∙ k.base, a ∙ k.applied),
  )

  pub IsOnward-Settled : (u s' : Engine S) → IsEngine u → Settled base u s' → IsOnward u s'
  IsOnward-Settled u s' h (inl e) =
      subst (IsOnward u) (sym e) (Keeps-IsOnward u u (kept u u refl refl refl))
  IsOnward-Settled u s' h (inr (inl t)) = IsOnward-Tried u s' h t
  IsOnward-Settled u s' h (inr (inr (l, f))) = (
    (
      rw l.applied (IsUpTo-refl u.applied),
      rw l.checkpoint (IsUpTo-refl (position_of u.checkpoint)),
    ),
    λ g. ground (arith, f, g),
  )

  pub IsOnward-on_view :
      (v : View) (s s' : Engine S) → IsEngine s → on_view base v s ≡ some s' → IsOnward s s'
  IsOnward-on_view v s s' h e =
      let (u, k, c) = on_view-Settled base v s s' h e in
      IsOnward-shown s u s' k (IsOnward-Settled u s' k.engine c)
