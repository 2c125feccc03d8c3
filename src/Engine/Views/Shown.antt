-- ===== src/Engine/Views/Shown.antt =====
-- What a view frame, `#onViewIn` of class `Engine` in typespec/ts/assets/skeleton.ts, keeps: all that holds of
-- the Engine, and until it drops or lands something, the slices' keys and the applied position.
use phaselock.Txn.Reps.{then_some-some}
use mathlib.Core.Path.{subst}
use phaselock.Prelude.{
  ◌≡◌, ◌⊎◌, refl, ap, ◌∙◌, ℕ, List, [], ◌∷◌, Bool, false, Option, none, some, if◌then◌else◌, arith,
  any, if_elim, Bool-cases, some_inj, inl, inr, sym,
}
use phaselock.Keys.{Key}
use phaselock.Layer.{names}
use phaselock.Engine.{View, Checkpoint, Engine, frozen, move_cursor, advance_cursor}
use phaselock.Engine.Land.{selector_covers}
use phaselock.Engine.Land.Plans.{Base, covered}
use phaselock.Engine.Land.Writes.{drop_backfill, drop_slice, drop_unseen}
use phaselock.Engine.Invariant.{IsEngine, IsEngine-same, IsEngine-advance, moved}
use phaselock.Engine.Land.Steady.{IsLike, IsLike-place, IsLike-drop_backfill}
use phaselock.Engine.Land.Lift.{IsLike-drop_unseen}
use phaselock.Engine.Land.Tried.{Tried, IsEngine-Tried, Tried-land, itself}
use phaselock.Engine.Views.{
  broadest_first, selectors_of, cancel_each, is_held, grant, grant_each, put_view, regrant,
  start_cursor, settle, on_view,
}

module _ {S : Type 0} where
  IsLike-cancel_each :
      (s t : Engine S) (selectors ks : List Key)
      → IsLike s t
      → IsLike s (cancel_each selectors ks t)
  IsLike-cancel_each s t selectors [] h = h
  IsLike-cancel_each s t selectors (k ∷ ks) h =
      IsLike-cancel_each s (if covered selectors k then t else drop_backfill k t) selectors ks
        (if_elim (IsLike s) (covered selectors k) (λ e. h) (λ e. IsLike-drop_backfill s t k h))

  base-cancel_each :
      (t : Engine S) (selectors ks : List Key)
      → (cancel_each selectors ks t).stored.base ≡ t.stored.base
  base-cancel_each t selectors [] = refl
  base-cancel_each t selectors (k ∷ ks) =
      ground (
        arith,
        base-cancel_each (if covered selectors k then t else drop_backfill k t) selectors ks,
      )

  IsLike-grant :
      (s t : Engine S) (old at_start : List Key) (p : ℕ) (k : Key)
      → IsLike s t
      → IsLike s (grant old at_start p k t)
  IsLike-grant s t old at_start p k h =
      if_elim (IsLike s) (any (λ e. selector_covers e k) (names t.backfills)) (λ e. h)
        λ e. if_elim (IsLike s) (is_held old at_start k) (λ e. h) (λ e. IsLike-place s t k _ h)

  IsLike-grant_each :
      (s t : Engine S) (old at_start : List Key) (p : ℕ) (ks : List Key)
      → IsLike s t
      → IsLike s (grant_each old at_start p ks t)
  IsLike-grant_each s t old at_start p [] h = h
  IsLike-grant_each s t old at_start p (k ∷ ks) h =
      IsLike-grant_each s (grant old at_start p k t) old at_start p ks
        (IsLike-grant s t old at_start p k h)

  base-grant_each :
      (t : Engine S) (old at_start : List Key) (p : ℕ) (ks : List Key)
      → (grant_each old at_start p ks t).stored.base ≡ t.stored.base
  base-grant_each t old at_start p [] = refl
  base-grant_each t old at_start p (k ∷ ks) =
      ground (arith, base-grant_each (grant old at_start p k t) old at_start p ks)

  IsLike-regrant : (s : Engine S) (v : View) → IsEngine s → IsLike s (regrant v s)
  unfolding regrant
  IsLike-regrant s v h =
      let start = names s.backfills in
      let t = cancel_each v.selectors start s in
      let l =
        IsLike-grant_each s t (selectors_of s.view) start v.position (broadest_first v.selectors)
          (IsLike-cancel_each s s v.selectors start (itself s h)) in
      let u = grant_each (selectors_of s.view) start v.position (broadest_first v.selectors) t in
      record {
        engine =
            IsEngine-same u (put_view v u) refl refl refl refl refl refl refl l.engine.waiting
              l.engine;
        applied = l.applied;
        checkpoint = l.checkpoint;
      }

  base-regrant : (s : Engine S) (v : View) → (regrant v s).stored.base ≡ s.stored.base
  unfolding regrant
  base-regrant s v =
      let start = names s.backfills in
      let t = cancel_each v.selectors start s in
      base-grant_each t (selectors_of s.view) start v.position (broadest_first v.selectors)
      ∙ base-cancel_each s v.selectors start

  -- after the grants and the cursor of a bootstrap
  pub record IsShown (s u : Engine S) : Type 0 where
    pub engine : IsEngine u
    pub base : u.stored.base ≡ s.stored.base
    pub applied : u.applied ≡ s.applied
    pub cursor : (u.checkpoint ≡ s.checkpoint) ⊎ (s.checkpoint ≡ none)

  kept-move :
      (k : Key) (p : ℕ) (t : Engine S)
      → ((move_cursor k p t).stored.base ≡ t.stored.base)
        × ((move_cursor k p t).applied ≡ t.applied)
  unfolding move_cursor
  kept-move k p t = ground arith

  IsShown-cursor :
      (s t u : Engine S) (p : ℕ) (c : Option Checkpoint)
      → t.checkpoint ≡ c
      → IsLike s t
      → t.stored.base ≡ s.stored.base
      → elim c [ none ↦ advance_cursor p false t | some c ↦ some t ] ≡ some u
      → IsShown s u
  unfolding advance_cursor
  IsShown-cursor s t u p none c h b e =
      let (k, m) = moved p t u t.epoch e in
      let (f, a) = kept-move k p t in
      record {
        engine = IsEngine-advance p false t u h.engine e;
        base = ap (λ x. x.stored.base) (sym m) ∙ f ∙ b;
        applied = ap (λ x. x.applied) (sym m) ∙ a ∙ h.applied;
        cursor = inr (sym h.checkpoint ∙ c);
      }
  IsShown-cursor s t u p (some q) c h b e =
      subst (IsShown s) (some_inj e)
        (record { engine = h.engine; base = b; applied = h.applied; cursor = inl h.checkpoint })

  IsShown-regrant :
      (s u : Engine S) (v : View)
      → IsEngine s
      → start_cursor v.position (regrant v s) ≡ some u
      → IsShown s u
  unfolding start_cursor
  IsShown-regrant s u v h e =
      IsShown-cursor s (regrant v s) u v.position (regrant v s).checkpoint refl
        (IsLike-regrant s v h) (base-regrant s v) e

module _ {S : Type 0} (base : Base S) where
  backfills-drop_unseen :
      (t : Engine S) (seen : Key → Bool) (ks : List Key)
      → (drop_unseen base seen ks t).backfills ≡ t.backfills
  backfills-drop_unseen t seen [] = refl
  backfills-drop_unseen t seen (k ∷ ks) =
      ground (arith, backfills-drop_unseen (if seen k then t else drop_slice base k t) seen ks)

  -- it waits, it lands, or it drops the slices unseen
  abbrev pub Settled : Engine S → Engine S → Type 0
  Settled u s = (s ≡ u) ⊎ (Tried base u s ⊎ (IsLike u s × (frozen s ≡ false)))

  Settled-settle :
      (was : Bool) (v : View) (u s : Engine S)
      → IsEngine u
      → settle base was v u ≡ some s
      → Settled u s
  Settled-settle was v u s h e = elim (Bool-cases (frozen u)) [
    | inl f ↦ inl (sym (some_inj (rw f at e)))
    | inr f ↦ elim (Bool-cases was) [
      | inl w ↦ inr (inl (Tried-land base u s h (rw (f, w) at e)))
      | inr w ↦
          let m = some_inj (rw (f, w) at e) in
          inr (
            inr (
              subst (IsLike u) m
                  (IsLike-drop_unseen base u u (covered v.selectors) (names u.slices) (itself u h)),
              ap frozen (sym m)
                  ∙ ground
                      (arith, f, backfills-drop_unseen u (covered v.selectors) (names u.slices)),
            ))
    ]
  ]

  pub on_view-Settled :
      (v : View) (s s' : Engine S)
      → IsEngine s
      → on_view base v s ≡ some s'
      → (u : Engine S) × IsShown s u × Settled u s'
  unfolding on_view
  on_view-Settled v s s' h e =
      let (u, a, f) =
        then_some-some (start_cursor v.position (regrant v s)) (settle base (frozen s) v) s' e in
      let k = IsShown-regrant s u v h a in (u, k, Settled-settle (frozen s) v u s' k.engine f)

  pub IsEngine-on_view :
      (v : View) (s s' : Engine S) → IsEngine s → on_view base v s ≡ some s' → IsEngine s'
  IsEngine-on_view v s s' h e =
      let (u, k, c) = on_view-Settled v s s' h e in
      elim c [
        | inl m ↦ subst IsEngine (sym m) k.engine
        | inr (inl t) ↦ IsEngine-Tried base u s' k.engine t
        | inr (inr l) ↦ l.0.engine
      ]
