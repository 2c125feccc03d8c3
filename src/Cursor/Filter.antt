-- ===== src/Cursor/Filter.antt =====
-- A cursor that passes over hidden keys walks the others.
use phaselock.Prelude.{
  ℕ, zero, suc, ◌≤◌, ◌≡◌, ◌∙◌, refl, sym, ap, List, [], ◌∷◌, Bool, false, not, Option, length,
  arith, Bool-cases, inl, inr,
}
use phaselock.Keys.{Key}
use phaselock.Cursor.{KeyCursor, filter_cursor, skip, hidden}
use phaselock.Cursor.Walks.{
  Walks, filter, first, tail, onward, IsTarget, walked, walked-seek, length-filter-le,
}

abbrev pub shown : (Key → Bool) → Key → Bool
shown hide k = not (hide k)

filter-filter : (p q : Key → Bool) (ks : List Key) → filter p (filter q ks) ≡ filter q (filter p ks)
filter-filter p q [] = refl
filter-filter p q (k ∷ ks) = ground (arith, filter-filter p q ks)

module _ (inner : KeyCursor) (hide : Key → Bool) {reverse : Bool} {all : List Key}
    (w : Walks inner reverse all) where
  -- what is left after `skip`
  abbrev Shown : inner.State → List Key → Type 0
  Shown s ks =
      (left : List Key) × w.Rest s left
      × (length left ≤ length ks)
      × (filter (shown hide) left ≡ filter (shown hide) ks)
      × (hidden hide (first left) ≡ false)

  skip-Shown :
      (fuel : ℕ) (s : inner.State) (ks : List Key)
      → length ks ≤ fuel
      → w.Rest s ks
      → Shown (skip inner hide fuel s) ks
  unfolding skip
  skip-Shown zero s [] h r = ([], r, omega arith, refl, refl)
  skip-Shown zero s (k ∷ ks) h r = absurd (omega arith)
  skip-Shown (suc fuel) s [] h r = rw (w.key_rest s [] r) ([], r, omega arith, refl, refl)
  skip-Shown (suc fuel) s (k ∷ ks) h r = elim (Bool-cases (hide k)) [
    | inl e ↦
        let (left, r', l, f, n) =
          skip-Shown fuel (inner.step s) ks (omega arith) (w.step_rest s k ks r) in
        rw (w.key_rest s (k ∷ ks) r, e) (left, r', omega arith, f, n)
    | inr e ↦ rw (w.key_rest s (k ∷ ks) r, e) (k ∷ ks, r, omega arith, rw e refl, e)
  ]

  abbrev FilterRest : ℕ → inner.State → List Key → Type 0
  FilterRest fuel s ks =
      (left : List Key) × w.Rest s left
      × (length left ≤ fuel)
      × (ks ≡ filter (shown hide) left)
      × (hidden hide (first left) ≡ false)

  first-filter :
      (left : List Key)
      → hidden hide (first left) ≡ false
      → (first (filter (shown hide) left) ≡ first left)
        × (tail (filter (shown hide) left) ≡ filter (shown hide) (tail left))
  first-filter [] h = (refl, refl)
  first-filter (k ∷ ks) h = rw h (refl, refl)

  step_filtered :
      (fuel : ℕ) (s : inner.State) (k : Key) (ks left : List Key)
      → w.Rest s left
      → length left ≤ fuel
      → k ∷ ks ≡ filter (shown hide) left
      → hidden hide (first left) ≡ false
      → FilterRest fuel (skip inner hide fuel (inner.step s)) ks
  step_filtered fuel s k ks [] r l e n = absurd cc
  step_filtered fuel s k ks (x ∷ left) r l e n =
      let (left', r', l', f, n') =
        skip-Shown fuel (inner.step s) left (omega arith) (w.step_rest s x left r) in
      (left', r', omega arith, ap tail e ∙ (first-filter (x ∷ left) n).1 ∙ sym f, n')

  -- The filtered cursor walks the keys that are not hidden, in the same order, given as much fuel as
  -- the cursor inside has keys.
  pub filter_cursor-Walks :
      (fuel : ℕ)
      → length all ≤ fuel
      → Walks (filter_cursor inner hide fuel) reverse (filter (shown hide) all)
  filter_cursor-Walks fuel enough = record {
    Rest = FilterRest fuel;
    key_rest = λ s ks h.
        let (left, r, l, e, n) = h in rw e (w.key_rest s left r ∙ sym (first-filter left n).0);
    step_rest = λ s k ks h. let (left, r, l, e, n) = h in step_filtered fuel s k ks left r l e n;
    seek_rest = λ target strict s t.
        let on = filter (onward reverse target strict) all in
        let bound = length-filter-le (onward reverse target strict) all in
        let (left, r, l, f, n) =
          skip-Shown fuel (inner.seek target strict s) on (omega arith)
            (w.seek_rest target strict s t) in
        (
          left,
          r,
          omega arith,
          filter-filter (onward reverse target strict) (shown hide) all ∙ sym f,
          n,
        );
  }

  -- Over a cursor that walks a list of keys, after a seek to no target or to one of 16-bit units,
  -- the filtered cursor shows the keys of the list that are not hidden and that the seek leads to,
  -- in the same order, given as much fuel and as many steps as the list has keys.
  pub walked-filter_cursor :
      (fuel : ℕ) (target : Option Key) (strict : Bool) (s : inner.State)
      → length all ≤ fuel
      → IsTarget target
      → walked
          (filter_cursor inner hide fuel)
          fuel
          (skip inner hide fuel (inner.seek target strict s))
        ≡ filter (onward reverse target strict) (filter (shown hide) all)
  walked-filter_cursor fuel target strict s enough t =
      let bound = length-filter-le (shown hide) all in
      walked-seek (filter_cursor-Walks fuel enough) target strict s fuel t (omega arith)
