-- ===== src/Keys/Sorted.antt =====
-- Lists of keys in ascending order, and the insertion and removal that keep them so.
use phaselock.Prelude.{
  suc, ◌≤◌, ◌↔◌, length, ◌≡◌, refl, List, [], ◌∷◌, ◌++◌, Bool, true, false, arith, All,
  All-append_left, if◌then◌else◌, is_neg,
}
use phaselock.Keys.{Key, key_eq, compare_keys}
use phaselock.Keys.Order.{IsKey, ◌≺◌, ≺_trans, order_refl, order-flip, order-eq}

-- strictly ascending, so without repetition
abbrev pub IsSorted : List Key → Type 0
IsSorted [] = Unit
IsSorted (x ∷ xs) = All (λ y. x ≺ y) xs × IsSorted xs

pub IsSorted-append_left : (xs ys : List Key) → IsSorted (xs ++ ys) → IsSorted xs
IsSorted-append_left [] ys h = tt
IsSorted-append_left (x ∷ xs) ys h =
    (All-append_left (λ y. x ≺ y) xs ys h.0, IsSorted-append_left xs ys h.1)

pub IsSorted-append_right : (xs ys : List Key) → IsSorted (xs ++ ys) → IsSorted ys
IsSorted-append_right [] ys h = h
IsSorted-append_right (x ∷ xs) ys h = IsSorted-append_right xs ys h.1

pub key_eq_iff : (a b : Key) → key_eq a b ≡ true → a ≡ b
unfolding key_eq
key_eq_iff [] [] h = refl
key_eq_iff [] (y ∷ b) h = ground arith
key_eq_iff (x ∷ a) [] h = ground arith
key_eq_iff (x ∷ a) (y ∷ b) h = ground (arith, key_eq_iff a b)

pub key_eq_refl : (a : Key) → key_eq a a ≡ true
unfolding key_eq
key_eq_refl [] = refl
key_eq_refl (x ∷ a) = ground (arith, key_eq_refl a)

-- The list with a key put in its place.
abbrev pub insert : Key → List Key → List Key
insert key [] = key ∷ []
insert key (x ∷ xs) = if is_neg (compare_keys x key) then x ∷ insert key xs else key ∷ x ∷ xs

-- The list with the first occurrence of a key taken out.
abbrev pub erase : Key → List Key → List Key
erase key [] = []
erase key (x ∷ xs) = if key_eq x key then xs else x ∷ erase key xs

-- whether the list holds the key
abbrev pub member : Key → List Key → Bool
member key [] = false
member key (x ∷ xs) = if key_eq x key then true else member key xs

pub All-insert {ℓ} :
    (P : Key → Type ℓ) (key : Key) (xs : List Key) → P key → All P xs → All P (insert key xs)
All-insert P key [] p h = (p, tt)
All-insert P key (x ∷ xs) p h = ground (arith, All-insert P key xs p h.1)

pub All-erase {ℓ} : (P : Key → Type ℓ) (key : Key) (xs : List Key) → All P xs → All P (erase key xs)
All-erase P key [] h = tt
All-erase P key (x ∷ xs) h = ground (arith, All-erase P key xs h.1)

pub All-≺_trans :
    (x y : Key) (xs : List Key)
    → IsKey x
    → IsKey y
    → All IsKey xs
    → x ≺ y
    → All (λ z. y ≺ z) xs
    → All (λ z. x ≺ z) xs
All-≺_trans x y [] hx hy k p h = tt
All-≺_trans x y (z ∷ zs) hx hy k p h =
    (≺_trans x y z hx hy k.0 p h.0, All-≺_trans x y zs hx hy k.1 p h.1)

pub insert-IsSorted :
    (key : Key) (xs : List Key)
    → IsKey key
    → All IsKey xs
    → IsSorted xs
    → member key xs ≡ false
    → IsSorted (insert key xs)
insert-IsSorted key [] hk k h m = (tt, tt)
insert-IsSorted key (x ∷ xs) hk k h m = ground (
  arith,
  All-insert (λ y. x ≺ y) key xs,
  insert-IsSorted key xs hk k.1 h.1,
  All-≺_trans key x xs hk k.0 k.1,
  order-flip x key k.0 hk,
  order-eq x key k.0 hk,
  key_eq_refl key,
)

pub erase-IsSorted : (key : Key) (xs : List Key) → IsSorted xs → IsSorted (erase key xs)
erase-IsSorted key [] h = tt
erase-IsSorted key (x ∷ xs) h =
    ground (arith, All-erase (λ y. x ≺ y) key xs h.0, erase-IsSorted key xs h.1)

module _ (key : Key) (hk : IsKey key) where
  pub member-left_none : (xs : List Key) → All (λ k. k ≺ key) xs → member key xs ≡ false
  member-left_none [] h = refl
  member-left_none (x ∷ xs) h =
      ground (arith, member-left_none xs h.1, key_eq_iff x key, order_refl key)

  pub member-right_none : (xs : List Key) → All (λ k. key ≺ k) xs → member key xs ≡ false
  member-right_none [] h = refl
  member-right_none (x ∷ xs) h =
      ground (arith, member-right_none xs h.1, key_eq_iff x key, order_refl key)

  pub insert-append :
      (xs ys : List Key) → All (λ k. k ≺ key) xs → insert key (xs ++ ys) ≡ xs ++ insert key ys
  insert-append [] ys h = refl
  insert-append (x ∷ xs) ys h = ground (arith, insert-append xs ys h.1)

  pub erase-append :
      (xs ys : List Key) → All (λ k. k ≺ key) xs → erase key (xs ++ ys) ≡ xs ++ erase key ys
  erase-append [] ys h = refl
  erase-append (x ∷ xs) ys h =
      ground (arith, erase-append xs ys h.1, key_eq_iff x key, order_refl key)

  pub member-append :
      (xs ys : List Key) → All (λ k. k ≺ key) xs → member key (xs ++ ys) ≡ member key ys
  member-append [] ys h = refl
  member-append (x ∷ xs) ys h =
      ground (arith, member-append xs ys h.1, key_eq_iff x key, order_refl key)

  -- the first key of a list that is not before `key`
  pub insert-head :
      (xs : List Key) → All (λ k. is_neg (compare_keys k key) ≡ false) xs → insert key xs ≡ key ∷ xs
  insert-head [] h = refl
  insert-head (x ∷ xs) h = ground arith

  -- in a sorted list from `key` on, only the first can be `key`
  pub member-head :
      (x : Key) (xs : List Key)
      → IsKey x
      → is_neg (compare_keys x key) ≡ false
      → IsSorted (x ∷ xs)
      → All IsKey xs
      → member key (x ∷ xs) ≡ key_eq x key
  member-head x xs hx e h k = ground (
    arith,
    order-flip x key hx hk,
    order-eq x key hx hk,
    All-≺_trans key x xs hk hx k,
    member-right_none xs,
    key_eq_refl key,
  )

pub key_eq-eq : (a b : Key) → (key_eq a b ≡ true) ↔ (a ≡ b)
key_eq-eq a b = (key_eq_iff a b, λ e. rw e (key_eq_refl b))

pub member-insert :
    (k j : Key) (xs : List Key)
    → member j (insert k xs) ≡ (if key_eq k j then true else member j xs)
member-insert k j [] = refl
member-insert k j (x ∷ xs) = ground (arith, member-insert k j xs)

pub IsSorted-fresh : (x : Key) (xs : List Key) → IsKey x → IsSorted (x ∷ xs) → member x xs ≡ false
IsSorted-fresh x xs u h = member-right_none x u xs h.0

pub member-erase :
    (k j : Key) (xs : List Key)
    → All IsKey xs
    → IsSorted xs
    → member j (erase k xs) ≡ (if key_eq k j then false else member j xs)
member-erase k j [] u h = ground arith
member-erase k j (x ∷ xs) u h = ground (
  arith,
  member-erase k j xs u.1 h.1,
  IsSorted-fresh x xs u.0 h,
  key_eq-eq x k,
  key_eq-eq x j,
  key_eq-eq k j,
)

pub length-insert : (k : Key) (xs : List Key) → length (insert k xs) ≡ suc (length xs)
length-insert k [] = refl
length-insert k (x ∷ xs) = ground (arith, length-insert k xs)

pub length-erase : (k : Key) (xs : List Key) → length (erase k xs) ≤ length xs
length-erase k [] = omega arith
length-erase k (x ∷ xs) = ground (arith, length-erase k xs)
