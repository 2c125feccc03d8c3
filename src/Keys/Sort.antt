-- ===== src/Keys/Sort.antt =====
-- `sortKeys` sorts distinct keys in the order of `compareKeys`.
use phaselock.Prelude.{
  suc, ◌≡◌, refl, ◌∙◌, sym, inl, inr, List, [], ◌∷◌, Bool, true, false, ◌||◌, arith, All, All-map,
  ℤ, sign, if◌then◌else◌, any, ap, length, Bool-cases,
}
use phaselock.Keys.{
  Key, key_eq, compare_keys, unit_compare, has_high_unit, sort, sort_insert, sort_keys,
}
use phaselock.Keys.Order.{IsKey, ◌≺◌, order, order-eq-lex, order-flip, order-eq}
use phaselock.Keys.Exact.{unit_compare-eq-lex, lex-rank_left}
use phaselock.Keys.Sorted.{IsSorted, member, key_eq_iff, key_eq_refl, All-≺_trans}

-- no key twice
abbrev pub IsDistinct : List Key → Type 0
IsDistinct [] = Unit
IsDistinct (x ∷ xs) = (member x xs ≡ false) × IsDistinct xs

module _ (cmp : Key → Key → ℤ) where
  All-sort_insert {ℓ} :
      (P : Key → Type ℓ) (x : Key) (ys : List Key) → P x → All P ys → All P (sort_insert cmp x ys)
  unfolding sort_insert
  All-sort_insert P x [] p h = (p, tt)
  All-sort_insert P x (y ∷ ys) p h = ground (arith, All-sort_insert P x ys p h.1)

  All-sort {ℓ} : (P : Key → Type ℓ) (xs : List Key) → All P xs → All P (sort cmp xs)
  unfolding sort
  All-sort P [] h = tt
  All-sort P (x ∷ xs) h = All-sort_insert P x (sort cmp xs) h.0 (All-sort P xs h.1)

  member-sort_insert :
      (k x : Key) (ys : List Key)
      → member k (sort_insert cmp x ys) ≡ (if key_eq x k then true else member k ys)
  unfolding sort_insert
  member-sort_insert k x [] = refl
  member-sort_insert k x (y ∷ ys) = ground (arith, member-sort_insert k x ys)

  member-sort : (k : Key) (xs : List Key) → member k (sort cmp xs) ≡ member k xs
  unfolding sort
  member-sort k [] = refl
  member-sort k (x ∷ xs) = rw (member-sort_insert k x (sort cmp xs), member-sort k xs)

  length-sort : (xs : List Key) → length (sort cmp xs) ≡ length xs
  unfolding sort
  length-sort [] = refl
  length-sort (x ∷ xs) = length-insert x (sort cmp xs) ∙ ap suc (length-sort xs)
    where
      length-insert : (y : Key) (ys : List Key) → length (sort_insert cmp y ys) ≡ suc (length ys)
      length-insert y [] = refl
      length-insert y (z ∷ zs) = ground (arith, length-insert y zs)

-- a comparison that agrees with the order of keys on keys with a property
module _ {P : Key → Type 0} (cmp : Key → Key → ℤ) (is_key : (k : Key) → P k → IsKey k)
    (agree : (a b : Key) → P a → P b → sign (cmp a b) ≡ order a b) where
  sort_insert-IsSorted :
      (x : Key) (ys : List Key)
      → P x
      → All P ys
      → IsSorted ys
      → member x ys ≡ false
      → IsSorted (sort_insert cmp x ys)
  unfolding sort_insert
  sort_insert-IsSorted x [] p h s m = (tt, tt)
  sort_insert-IsSorted x (y ∷ ys) p h s m =
      let units = All-map P IsKey is_key ys h.1 in
      ground (
        arith,
        agree x y p h.0,
        order-flip x y (is_key x p) (is_key y h.0),
        order-eq x y (is_key x p) (is_key y h.0),
        key_eq_refl x,
        All-≺_trans x y ys (is_key x p) (is_key y h.0) units,
        All-sort_insert cmp (λ k. y ≺ k) x ys,
        sort_insert-IsSorted x ys p h.1 s.1,
      )

  sort-IsSorted : (xs : List Key) → All P xs → IsDistinct xs → IsSorted (sort cmp xs)
  unfolding sort
  sort-IsSorted [] h d = tt
  sort-IsSorted (x ∷ xs) h d =
      sort_insert-IsSorted x (sort cmp xs) h.0 (All-sort cmp P xs h.1) (sort-IsSorted xs h.1 d.1)
        (member-sort cmp x xs ∙ d.0)

IsDistinct-sort_insert :
    (cmp : Key → Key → ℤ) (x : Key) (ys : List Key)
    → member x ys ≡ false
    → IsDistinct ys
    → IsDistinct (sort_insert cmp x ys)
unfolding sort_insert
IsDistinct-sort_insert cmp x [] m d = (refl, tt)
IsDistinct-sort_insert cmp x (y ∷ ys) m d = ground (
  arith,
  IsDistinct-sort_insert cmp x ys,
  member-sort_insert cmp y x ys,
  key_eq_iff x y,
  key_eq_refl x,
)

IsDistinct-sort : (cmp : Key → Key → ℤ) (xs : List Key) → IsDistinct xs → IsDistinct (sort cmp xs)
unfolding sort
IsDistinct-sort cmp [] d = tt
IsDistinct-sort cmp (x ∷ xs) d =
    IsDistinct-sort_insert cmp x (sort cmp xs) (member-sort cmp x xs ∙ d.0)
      (IsDistinct-sort cmp xs d.1)

-- a key on which the two orders agree
abbrev IsPlain : Key → Type 0
IsPlain k = IsKey k × (has_high_unit k ≡ false)

unit_compare-plain : (a b : Key) → IsPlain a → IsPlain b → sign (unit_compare a b) ≡ order a b
unit_compare-plain a b h k =
    unit_compare-eq-lex a b ∙ lex-rank_left a b h.1 ∙ sym (order-eq-lex a b h.0 k.0)

All-IsPlain : (xs : List Key) → All IsKey xs → any has_high_unit xs ≡ false → All IsPlain xs
All-IsPlain [] h e = tt
All-IsPlain (x ∷ xs) h e = ground (arith, All-IsPlain xs h.1)

any-sort_insert :
    (cmp : Key → Key → ℤ) (p : Key → Bool) (x : Key) (ys : List Key)
    → any p (sort_insert cmp x ys) ≡ (p x || any p ys)
unfolding sort_insert
any-sort_insert cmp p x [] = refl
any-sort_insert cmp p x (y ∷ ys) = ground (arith, any-sort_insert cmp p x ys)

any-sort : (cmp : Key → Key → ℤ) (p : Key → Bool) (xs : List Key) → any p (sort cmp xs) ≡ any p xs
unfolding sort
any-sort cmp p [] = refl
any-sort cmp p (x ∷ xs) = rw (any-sort_insert cmp p x (sort cmp xs), any-sort cmp p xs)

-- Distinct keys, of 16-bit units, come out strictly ascending.
pub sort_keys-IsSorted : (xs : List Key) → All IsKey xs → IsDistinct xs → IsSorted (sort_keys xs)
unfolding sort_keys
sort_keys-IsSorted xs h d = elim (Bool-cases (any has_high_unit (sort unit_compare xs))) [
  | inl e ↦ rw e (
      sort-IsSorted {P = IsKey} compare_keys (λ k u. u) (λ a b u v. refl) (sort unit_compare xs)
        (All-sort unit_compare IsKey xs h) (IsDistinct-sort unit_compare xs d))
  | inr e ↦ rw e (
      sort-IsSorted {P = IsPlain} unit_compare (λ k u. u.0) unit_compare-plain xs
        (All-IsPlain xs h (sym (any-sort unit_compare has_high_unit xs) ∙ e)) d)
]

pub All-sort_keys {ℓ} : (P : Key → Type ℓ) (xs : List Key) → All P xs → All P (sort_keys xs)
unfolding sort_keys
All-sort_keys P xs h = elim (Bool-cases (any has_high_unit (sort unit_compare xs))) [
  | inl e ↦ rw e (All-sort compare_keys P (sort unit_compare xs) (All-sort unit_compare P xs h))
  | inr e ↦ rw e (All-sort unit_compare P xs h)
]

pub member-sort_keys : (k : Key) (xs : List Key) → member k (sort_keys xs) ≡ member k xs
unfolding sort_keys
member-sort_keys k xs =
    ground (arith, member-sort compare_keys k (sort unit_compare xs), member-sort unit_compare k xs)

pub length-sort_keys : (xs : List Key) → length (sort_keys xs) ≡ length xs
unfolding sort_keys
length-sort_keys xs =
    ground (arith, length-sort compare_keys (sort unit_compare xs), length-sort unit_compare xs)

-- Distinct keys of 16-bit units are put in strictly ascending order by sort_keys, the same keys
-- and as many of them.
pub sort_keys_lem :
    (xs : List Key)
    → All IsKey xs
    → IsDistinct xs
    → IsSorted (sort_keys xs)
      × ((k : Key) → member k (sort_keys xs) ≡ member k xs)
      × (length (sort_keys xs) ≡ length xs)
sort_keys_lem xs h d = (sort_keys-IsSorted xs h d, λ k. member-sort_keys k xs, length-sort_keys xs)
