-- ===== src/Txn/Sorted.antt =====
-- Merged walks in order, and the stretch of a sorted walk that shares a prefix.
use phaselock.Prelude.{
  ℕ, ◌≤◌, ◌≡◌, ◌≢◌, ◌∙◌, refl, sym, ap, List, [], ◌∷◌, map, true, false, some, if◌then◌else◌, arith,
  Bool-cases, inl, inr, All, Ordering,
}
use phaselock.Keys.{Key, starts_with, key_eq}
use phaselock.Keys.Order.{IsKey, ◌≺◌, order-flip, order-eq, rank, rank_injective, lex, order-eq-lex}
use phaselock.Keys.Sorted.{IsSorted, key_eq_refl, All-≺_trans}
use phaselock.Cursor.{comes_first}
use phaselock.Cursor.Walks.{filter, onward}
use phaselock.Cursor.Array.{filter-none}
use phaselock.Cursor.Merge.{merge, Disjoint, Disjoint-tail}

All-merge_step {ℓ} :
    (P : Key → Type ℓ) (x y : Key) (left right : List Key)
    → P x
    → P y
    → All P left
    → All P right
    → All P (if comes_first false x y then x ∷ left else y ∷ right)
All-merge_step P x y left right h k l r = elim (Bool-cases (comes_first false x y)) [
  | inl e ↦ rw e (h, l)
  | inr e ↦ rw e (k, r)
]

pub All-merge {ℓ} :
    (P : Key → Type ℓ) (xs ys : List Key) → All P xs → All P ys → All P (merge false xs ys)
All-merge P [] ys h k = k
All-merge P (x ∷ xs) [] h k = h
All-merge P (x ∷ xs) (y ∷ ys) h k =
    All-merge_step P x y (merge false xs (y ∷ ys)) (merge false (x ∷ xs) ys) h.0 k.0
      (All-merge P xs (y ∷ ys) h.1 k) (All-merge P (x ∷ xs) ys h k.1)

lex-head-le : (m n : ℕ) (xs ys : List ℕ) → lex (m ∷ xs) (n ∷ ys) ≢ Ordering.gt → m ≤ n
lex-head-le m n xs ys h = ground arith

lex_same : (m : ℕ) (xs ys : List ℕ) → lex (m ∷ xs) (m ∷ ys) ≡ lex xs ys
lex_same m xs ys = ground arith

-- Between a prefix and a key that starts with it lie keys that start with it.
starts_with-between :
    (p x y : Key)
    → IsKey p
    → IsKey x
    → lex (map rank p) (map rank x) ≢ Ordering.gt
    → lex (map rank x) (map rank y) ≡ Ordering.lt
    → starts_with p y ≡ true
    → starts_with p x ≡ true
unfolding starts_with
starts_with-between [] x y hp hx h k e = refl
starts_with-between (c ∷ p) [] y hp hx h k e = absurd (h refl)
starts_with-between (c ∷ p) (a ∷ x) [] hp hx h k e = ground arith
starts_with-between (c ∷ p) (a ∷ x) (b ∷ y) hp hx h k e =
    let same : c ≡ b = ground arith in
    let low = lex-head-le (rank c) (rank a) (map rank p) (map rank x) h in
    let high = lex-head-le (rank a) (rank b) (map rank x) (map rank y) (λ g. cc) in
    let r : rank c ≡ rank b = ap (λ (u : ℕ). rank u) same in
    let q : c ≡ a = rank_injective c a hp.0 hx.0 (omega arith) in
    let h' : lex (map rank p) (map rank x) ≢ Ordering.gt =
      λ g. h (rw q (lex_same (rank a) (map rank p) (map rank x) ∙ g)) in
    let k' : lex (map rank x) (map rank y) ≡ Ordering.lt =
      sym (lex_same (rank a) (map rank x) (map rank y)) ∙ (rw (← same, q) at k) in
    let ih = starts_with-between p x y hp.1 hx.1 h' k' in ground arith

starts_with-ge : (p y : Key) → starts_with p y ≡ true → lex (map rank y) (map rank p) ≢ Ordering.lt
unfolding starts_with
starts_with-ge [] [] e g = cc
starts_with-ge [] (b ∷ y) e g = cc
starts_with-ge (c ∷ p) [] e g = cc
starts_with-ge (c ∷ p) (b ∷ y) e g =
    let same : c ≡ b = ground arith in
    let ih = starts_with-ge p y (ground arith) in
    ih (sym (lex_same (rank b) (map rank y) (map rank p)) ∙ (rw same at g))

abbrev pub take_under : Key → List Key → List Key
take_under p [] = []
take_under p (x ∷ xs) = if starts_with p x then x ∷ take_under p xs else []

none_later :
    (p x : Key) (ys : List Key)
    → IsKey p
    → IsKey x
    → All IsKey ys
    → onward false (some p) false x ≡ true
    → starts_with p x ≡ false
    → All (λ y. x ≺ y) ys
    → All (λ y. starts_with p y ≡ false) ys
none_later p x [] hp hx hy on miss h = tt
none_later p x (y ∷ ys) hp hx hy on miss h =
    let later = none_later p x ys hp hx hy.1 on miss h.1 in
    elim (Bool-cases (starts_with p y)) [
      | inl e ↦
          let low : lex (map rank p) (map rank x) ≢ Ordering.gt =
            ground (arith, order-eq-lex p x hp hx, order-flip p x hp hx) in
          let s = starts_with-between p x y hp hx low (rw (order-eq-lex x y hx hy.0) at h.0) e in
          absurd (cc)
      | inr e ↦ (e, later)
    ]

starts_with-below :
    (p x : Key)
    → IsKey p
    → IsKey x
    → onward false (some p) false x ≡ false
    → starts_with p x ≡ false
starts_with-below p x hp hx o = elim (Bool-cases (starts_with p x)) [
  | inl e ↦ let ge = starts_with-ge p x e in let l = order-eq-lex x p hx hp in ground arith
  | inr e ↦ e
]

-- From a prefix on, the keys that start with it come first.
pub take_under-filter :
    (p : Key) (xs : List Key)
    → IsKey p
    → All IsKey xs
    → IsSorted xs
    → take_under p (filter (onward false (some p) false) xs) ≡ filter (λ k. starts_with p k) xs
take_under-filter p [] hp h s = refl
take_under-filter p (x ∷ xs) hp h s =
    let on = onward false (some p) false in
    let ih = take_under-filter p xs hp h.1 s.1 in
    elim (Bool-cases (on x)) [
      | inl o ↦ elim (Bool-cases (starts_with p x)) [
        | inl e ↦ ground arith
        | inr e ↦
            let rest =
              filter-none (λ k. starts_with p k) xs (none_later p x xs hp h.0 h.1 o e s.0) in
            ground arith
      ]
      | inr o ↦ let e : starts_with p x ≡ false = starts_with-below p x hp h.0 o in ground arith
    ]

merge_step-IsSorted :
    (x y : Key) (left right : List Key)
    → IsKey x
    → IsKey y
    → key_eq x y ≡ false
    → (x ≺ y → All (λ z. x ≺ z) left × IsSorted left)
    → (y ≺ x → All (λ z. y ≺ z) right × IsSorted right)
    → IsSorted (if comes_first false x y then x ∷ left else y ∷ right)
unfolding comes_first
merge_step-IsSorted x y left right hx hy ne l r = elim (Bool-cases (comes_first false x y)) [
  | inl e ↦ rw e (l (ground arith))
  | inr e ↦
      let flip_ = order-flip x y hx hy in
      let eq_ = order-eq x y hx hy in let self = key_eq_refl y in rw e (r (ground arith))
]

pub merge-IsSorted :
    (xs ys : List Key)
    → All IsKey xs
    → All IsKey ys
    → IsSorted xs
    → IsSorted ys
    → Disjoint xs ys
    → IsSorted (merge false xs ys)
merge-IsSorted [] ys hx hy sx sy d = sy
merge-IsSorted (x ∷ xs) [] hx hy sx sy d = sx
merge-IsSorted (x ∷ xs) (y ∷ ys) hx hy sx sy d =
    merge_step-IsSorted x y (merge false xs (y ∷ ys)) (merge false (x ∷ xs) ys) hx.0 hy.0 d.0.0
      (λ l. (
        All-merge (λ z. x ≺ z) xs (y ∷ ys) sx.0 (l, All-≺_trans x y ys hx.0 hy.0 hy.1 l sy.0),
        merge-IsSorted xs (y ∷ ys) hx.1 hy sx.1 sy d.1,
      ))
      (λ r. (
        All-merge (λ z. y ≺ z) (x ∷ xs) ys (r, All-≺_trans y x xs hy.0 hx.0 hx.1 r sx.0) sy.0,
        merge-IsSorted (x ∷ xs) ys hx hy.1 sx sy.1 (Disjoint-tail (x ∷ xs) y ys d),
      ))
