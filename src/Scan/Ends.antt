-- ===== src/Scan/Ends.antt =====
-- A scan's approach to a target leaves the key it stood at behind.
use mathlib.Core.Path.{subst}
use phaselock.Prelude.{
  ℕ, zero, suc, ◌<◌, ◌≡◌, refl, sym, List, [], ◌∷◌, Bool, true, false, not, some, drop, arith,
  Bool-cases, inl, inr, All,
}
use phaselock.Keys.{Key}
use phaselock.Keys.Order.{IsKey, order-flip}
use phaselock.Keys.Exact.{exact_for-eq-order}
use phaselock.KeyList.Partition.{Antitone, count}
use phaselock.Cursor.{comes_first}
use phaselock.Cursor.Walks.{filter, onward}
use phaselock.Cursor.Array.{drop-count}
use phaselock.Cursor.Merge.{onward_later}
use phaselock.Scan.{is_past_target}

pub is_past_target-eq-onward :
    (reverse : Bool) (t : Key) (strict : Bool) (k : Key)
    → IsKey t
    → IsKey k
    → is_past_target reverse t strict k ≡ onward reverse (some t) strict k
unfolding is_past_target
is_past_target-eq-onward true t strict k ht hk =
    ground
      (arith, exact_for-eq-order (some t ∷ []) t k ht hk (inl (inl refl)), order-flip t k ht hk)
is_past_target-eq-onward false t strict k ht hk =
    ground (arith, exact_for-eq-order (some t ∷ []) k t hk ht (inr (inl refl)))

-- keys in walk order
abbrev pub InOrder : Bool → List Key → Type 0
InOrder reverse [] = Unit
InOrder reverse (x ∷ xs) = All (λ y. comes_first reverse x y ≡ true) xs × InOrder reverse xs

abbrev pub behind : Bool → Key → Bool → Key → Bool
behind reverse t strict k = not (onward reverse (some t) strict k)

All-behind :
    (reverse : Bool) (t : Key) (strict : Bool) (x : Key) (ys : List Key)
    → IsKey t
    → IsKey x
    → All IsKey ys
    → All (λ y. comes_first reverse x y ≡ true) ys
    → behind reverse t strict x ≡ false
    → All (λ y. behind reverse t strict y ≡ false) ys
All-behind reverse t strict x [] ht hx hy h e = tt
All-behind reverse t strict x (y ∷ ys) ht hx hy h e =
    let o : onward reverse (some t) strict x ≡ true = ground arith in
    let o' = onward_later reverse (some t) strict x y ht hx hy.0 h.0 o in
    (ground arith, All-behind reverse t strict x ys ht hx hy.1 h.1 e)

pub Antitone-behind :
    (reverse : Bool) (t : Key) (strict : Bool) (xs : List Key)
    → IsKey t
    → All IsKey xs
    → InOrder reverse xs
    → Antitone (behind reverse t strict) xs
Antitone-behind reverse t strict [] ht h o = tt
Antitone-behind reverse t strict (x ∷ xs) ht h o = (
  All-behind reverse t strict x xs ht h.0 h.1 o.0,
  Antitone-behind reverse t strict xs ht h.1 o.1,
)

All-not-not : (p : Key → Bool) (xs : List Key) → All (λ k. p k ≡ not (not (p k))) xs
All-not-not p [] = tt
All-not-not p (x ∷ xs) = (ground arith, All-not-not p xs)

pub filter-onward :
    (reverse : Bool) (t : Key) (strict : Bool) (xs : List Key)
    → IsKey t
    → All IsKey xs
    → InOrder reverse xs
    → filter (onward reverse (some t) strict) xs ≡ drop (count (behind reverse t strict) xs) xs
filter-onward reverse t strict xs ht h o = sym (
    drop-count (behind reverse t strict) (onward reverse (some t) strict) xs
      (Antitone-behind reverse t strict xs ht h o)
      (All-not-not (onward reverse (some t) strict) xs))

pub All-drop_first {ℓ} :
    (P : Key → Type ℓ) (m : ℕ) (xs : List Key) (k : Key) (ks : List Key)
    → All P xs
    → drop m xs ≡ k ∷ ks
    → P k
All-drop_first P zero [] k ks h e = absurd (cc)
All-drop_first P zero (x ∷ xs) k ks h e = let s : x ≡ k = cc in subst P s h.0
All-drop_first P (suc m) [] k ks h e = absurd (cc)
All-drop_first P (suc m) (x ∷ xs) k ks h e = All-drop_first P m xs k ks h.1 e

pub count-lt :
    (p : Key → Bool) (m : ℕ) (xs : List Key) (k : Key) (ks : List Key)
    → Antitone p xs
    → drop m xs ≡ k ∷ ks
    → p k ≡ true
    → m < count p xs
count-lt p zero [] k ks a e h = absurd (cc)
count-lt p zero (x ∷ xs) k ks a e h =
    let s : x ≡ k = cc in let h' : p x ≡ true = rw s h in rw h' (omega arith)
count-lt p (suc m) [] k ks a e h = absurd (cc)
count-lt p (suc m) (x ∷ xs) k ks a e h = elim (Bool-cases (p x)) [
  | inl q ↦ rw q (omega (arith, count-lt p m xs k ks a.1 e h))
  | inr q ↦ let f = All-drop_first (λ y. p y ≡ false) m xs k ks (a.0 q) e in absurd (cc)
]
