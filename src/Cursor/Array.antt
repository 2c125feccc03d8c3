-- ===== src/Cursor/Array.antt =====
-- The cursor over a sorted array walks its keys, forward or in reverse.
use mathlib.Core.List.{reverse, append-nil, reverse-append, reverse-cons}
use phaselock.Prelude.{
  ℕ, zero, suc, ◌≤◌, ◌<◌, ◌≡◌, refl, sym, List, [], ◌∷◌, ◌++◌, Bool, true, false, not, Option, none,
  some, length, length-append, take, drop, get_elem?, arith, Bool-cases, inl, inr, All, ℤ, pos,
  negsuc,
}
use phaselock.Keys.{Key}
use phaselock.Keys.Order.{IsKey}
use phaselock.Keys.Sorted.{IsSorted}
use phaselock.Bisect.{bisect}
use phaselock.KeyList.{holds}
use phaselock.KeyList.Partition.{Antitone, count, count-le-length, bisect_keys-eq-count}
use phaselock.KeyList.Seek.{precedes, precedes-order, Antitone-precedes}
use phaselock.Cursor.{array_cursor, array_seek, key_at, previous, next}
use phaselock.Cursor.Walks.{Walks, filter, first, tail, onward, IsTarget, walked, walked-seek}

pub filter-append :
    (p : Key → Bool) (xs ys : List Key) → filter p (xs ++ ys) ≡ filter p xs ++ filter p ys
filter-append p [] ys = refl
filter-append p (x ∷ xs) ys = ground (arith, filter-append p xs ys)

pub filter-reverse :
    (p : Key → Bool) (xs : List Key) → filter p (reverse xs) ≡ reverse (filter p xs)
filter-reverse p [] = refl
filter-reverse p (x ∷ xs) = elim (Bool-cases (p x)) [
  | inl e ↦
      rw
        (
          reverse-cons x xs,
          filter-append p (reverse xs) (x ∷ []),
          filter-reverse p xs,
          e,
          reverse-cons x (filter p xs),
        )
        refl
  | inr e ↦
      rw (reverse-cons x xs, filter-append p (reverse xs) (x ∷ []), filter-reverse p xs, e)
        (append-nil (reverse (filter p xs)))
]

pub filter-true : (xs : List Key) → filter (λ k. true) xs ≡ xs
filter-true [] = refl
filter-true (x ∷ xs) = rw (filter-true xs)

pub filter-none : (p : Key → Bool) (xs : List Key) → All (λ k. p k ≡ false) xs → filter p xs ≡ []
filter-none p [] h = refl
filter-none p (x ∷ xs) h = ground (arith, filter-none p xs h.1)

-- Where `p` holds of a first part only, that part is what it picks out.
take-count : (p : Key → Bool) (xs : List Key) → Antitone p xs → take (count p xs) xs ≡ filter p xs
take-count p [] h = refl
take-count p (x ∷ xs) h = ground (arith, h.0, filter-none p xs, take-count p xs h.1)

pub filter-rest :
    (p q : Key → Bool) (xs : List Key)
    → All (λ k. p k ≡ false) xs
    → All (λ k. q k ≡ not (p k)) xs
    → filter q xs ≡ xs
filter-rest p q [] h e = refl
filter-rest p q (x ∷ xs) h e = ground (arith, filter-rest p q xs h.1 e.1)

-- and `q`, which holds of the others, picks out the rest.
pub drop-count :
    (p q : Key → Bool) (xs : List Key)
    → Antitone p xs
    → All (λ k. q k ≡ not (p k)) xs
    → drop (count p xs) xs ≡ filter q xs
drop-count p q [] h e = refl
drop-count p q (x ∷ xs) h e = ground (arith, h.0, filter-rest p q xs, drop-count p q xs h.1)

pub filter_cong :
    (p q : Key → Bool) (xs : List Key) → All (λ k. p k ≡ q k) xs → filter p xs ≡ filter q xs
filter_cong p q [] h = refl
filter_cong p q (x ∷ xs) h = ground (arith, filter_cong p q xs h.1)

pub drop-suc : (n : ℕ) (xs : List Key) → drop (suc n) xs ≡ tail (drop n xs)
drop-suc zero [] = refl
drop-suc zero (x ∷ xs) = refl
drop-suc (suc n) [] = refl
drop-suc (suc n) (x ∷ xs) = drop-suc n xs

first-drop : (n : ℕ) (xs : List Key) → get_elem? xs n ≡ first (drop n xs)
first-drop zero [] = refl
first-drop zero (x ∷ xs) = refl
first-drop (suc n) [] = refl
first-drop (suc n) (x ∷ xs) = first-drop n xs

-- the keys up to an index, from it back
abbrev back_from : List Key → ℕ → List Key
back_from xs n = reverse (take n xs)

pub back_from-suc :
    (n : ℕ) (xs : List Key)
    → n < length xs
    → (x : Key) × (get_elem? xs n ≡ some x) × (take (suc n) xs ≡ take n xs ++ x ∷ [])
back_from-suc n [] h = absurd (omega arith)
back_from-suc zero (x ∷ xs) h = (x, refl, refl)
back_from-suc (suc n) (x ∷ xs) h =
    let (y, e, t) = back_from-suc n xs (omega arith) in (y, e, rw t refl)

-- `before` of a seek and the keys that the seek leads to
pub precedes-onward :
    (t : Key) (strict : Bool) (ht : IsKey t) (xs : List Key)
    → All IsKey xs
    → All (λ k. onward false (some t) strict k ≡ not (precedes t strict ht k)) xs
precedes-onward t strict ht [] h = tt
precedes-onward t strict ht (x ∷ xs) h =
    (ground (arith, precedes-order t strict ht x h.0), precedes-onward t strict ht xs h.1)

pub precedes-onward_back :
    (t : Key) (strict : Bool) (ht : IsKey t) (xs : List Key)
    → All IsKey xs
    → All (λ k. precedes t (not strict) ht k ≡ onward true (some t) strict k) xs
precedes-onward_back t strict ht [] h = tt
precedes-onward_back t strict ht (x ∷ xs) h = (
  ground (arith, precedes-order t (not strict) ht x h.0),
  precedes-onward_back t strict ht xs h.1,
)

pub length-reverse : (xs : List Key) → length (reverse xs) ≡ length xs
length-reverse [] = refl
length-reverse (x ∷ xs) =
    rw (reverse-cons x xs, length-append (reverse xs) (x ∷ []), length-reverse xs) (omega arith)

pub take-length : (xs : List Key) → take (length xs) xs ≡ xs
take-length [] = refl
take-length (x ∷ xs) = rw (take-length xs)

module _ (keys : List Key) (units : All IsKey keys) (sorted : IsSorted keys)
    (small : length keys ≤ 2147483648) where
  search :
      (t : Key) (strict : Bool) (ht : IsKey t)
      → bisect (length keys) (λ i. holds (precedes t strict ht) (get_elem? keys i))
        ≡ count (precedes t strict ht) keys
  search t strict ht =
      bisect_keys-eq-count (precedes t strict ht) keys
        (Antitone-precedes t strict ht keys units sorted) small

  abbrev ForwardRest : ℤ → List Key → Type 0
  ForwardRest (pos n) ks = ks ≡ drop n keys
  ForwardRest (negsuc n) ks = ⊥

  forward_seek :
      (target : Option Key) (strict : Bool)
      → IsTarget target
      → ForwardRest (array_seek keys false target strict) (filter (onward false target strict) keys)
  unfolding array_seek
  forward_seek none strict t = filter-true keys
  forward_seek (some target) strict t = rw (search target strict t) (
      sym (
        drop-count (precedes target strict t) (onward false (some target) strict) keys
          (Antitone-precedes target strict t keys units sorted)
          (precedes-onward target strict t keys units)))

  abbrev BackRest : ℤ → List Key → Type 0
  BackRest (pos n) ks = (n < length keys) × (ks ≡ reverse (take (suc n) keys))
  BackRest (negsuc n) ks = ks ≡ []

  BackRest-previous :
      (n : ℕ) → n ≤ length keys → BackRest (previous (pos n)) (reverse (take n keys))
  BackRest-previous zero h = refl
  BackRest-previous (suc n) h = (omega arith, refl)

  back_seek :
      (target : Option Key) (strict : Bool)
      → IsTarget target
      → BackRest
          (array_seek keys true target strict)
          (filter (onward true target strict) (reverse keys))
  unfolding array_seek
  back_seek none strict t =
      rw (filter-true (reverse keys))
        (rw (take-length keys) at (BackRest-previous (length keys) (omega arith)))
  back_seek (some target) strict t =
      let p = precedes target (not strict) t in
      let anti = Antitone-precedes target (not strict) t keys units sorted in
      rw
        (
          search target (not strict) t,
          filter-reverse (onward true (some target) strict) keys,
          ← filter_cong p (onward true (some target) strict) keys
              (precedes-onward_back target strict t keys units),
          ← take-count p keys anti,
        )
        (BackRest-previous (count p keys) (count-le-length p keys))

  back_first : (n : ℕ) → n < length keys → get_elem? keys n ≡ first (reverse (take (suc n) keys))
  back_first n h =
      let (x, e, t) = back_from-suc n keys h in
      rw (e, t, reverse-append (take n keys) (x ∷ [])) refl

  back_tail : (n : ℕ) → n < length keys → tail (reverse (take (suc n) keys)) ≡ reverse (take n keys)
  back_tail n h =
      let (x, e, t) = back_from-suc n keys h in rw (t, reverse-append (take n keys) (x ∷ [])) refl

  back_step : (j : ℤ) (ks : List Key) → BackRest j ks → BackRest (previous j) (tail ks)
  back_step (pos n) ks (h, e) = rw (e, back_tail n h) (BackRest-previous n (omega arith))
  back_step (negsuc n) ks e = rw e refl

  back_key : (j : ℤ) (ks : List Key) → BackRest j ks → key_at keys j ≡ first ks
  back_key (pos n) ks (h, e) = rw e (back_first n h)
  back_key (negsuc n) ks e = rw e refl

  forward_step : (j : ℤ) (ks : List Key) → ForwardRest j ks → ForwardRest (next j) (tail ks)
  forward_step (pos n) ks e = rw e (sym (drop-suc n keys))
  forward_step (negsuc n) ks e = absurd e

  forward_key : (j : ℤ) (ks : List Key) → ForwardRest j ks → key_at keys j ≡ first ks
  forward_key (pos n) ks e = rw e (first-drop n keys)
  forward_key (negsuc n) ks e = absurd e

  -- Over sorted keys of 16-bit units, at most 2^31 of them, the array's cursor walks them all,
  -- upwards or downwards.
  pub array_cursor-Walks :
      (Walks (array_cursor keys false) false keys)
      × (Walks (array_cursor keys true) true (reverse keys))
  array_cursor-Walks = (
    record {
      Rest = ForwardRest;
      key_rest = forward_key;
      step_rest = λ s k ks h. forward_step s (k ∷ ks) h;
      seek_rest = λ target strict s t. forward_seek target strict t;
    },
    record {
      Rest = BackRest;
      key_rest = back_key;
      step_rest = λ s k ks h. back_step s (k ∷ ks) h;
      seek_rest = λ target strict s t. back_seek target strict t;
    },
  )

  -- Over at most 2^31 sorted keys of 16-bit units, after a seek to no target or to one of 16-bit
  -- units, the cursor of an array shows the keys that the seek leads to, one after another,
  -- upwards or downwards, given as many steps as there are keys.
  pub walked-array_cursor :
      (target : Option Key) (strict : Bool) (fuel : ℕ)
      → length keys ≤ fuel
      → IsTarget target
      → (walked (array_cursor keys false) fuel (array_seek keys false target strict)
          ≡ filter (onward false target strict) keys)
        × (walked (array_cursor keys true) fuel (array_seek keys true target strict)
            ≡ filter (onward true target strict) (reverse keys))
  walked-array_cursor target strict fuel enough t = (
    walked-seek array_cursor-Walks.0 target strict (pos 0) fuel t enough,
    walked-seek array_cursor-Walks.1 target strict (pos 0) fuel t (rw (length-reverse keys) enough),
  )
