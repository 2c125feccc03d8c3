-- ===== src/Cursor/Merge.antt =====
-- Two cursors that hold no key in common merge into one that walks the keys of both in order.
use phaselock.Prelude.{
  ℕ, ◌+◌, ◌≤◌, length, ◌≡◌, refl, sym, ap, ◌<◌, List, [], ◌∷◌, Bool, true, false, Option, none,
  some, if◌then◌else◌, arith, Bool-cases, inl, inr, All,
}
use phaselock.Keys.{Key, key_eq}
use phaselock.Keys.Order.{IsKey, order-flip, order-eq, ≺_trans}
use phaselock.Keys.Sorted.{key_eq_refl}
use phaselock.Cursor.{KeyCursor, merge_cursors, merged_key, comes_first, same_key}
use phaselock.Cursor.Walks.{Walks, filter, first, tail, onward, IsTarget, walked, walked-seek}

-- Two walks as one, the key that comes first taken at each step.
abbrev pub merge : Bool → List Key → List Key → List Key
merge reverse [] bs = bs
merge reverse (a ∷ as_) [] = a ∷ as_
merge reverse (a ∷ as_) (b ∷ bs) =
    let left = merge reverse as_ (b ∷ bs) in
    let right = merge reverse (a ∷ as_) bs in
    if comes_first reverse a b then a ∷ left else b ∷ right

-- no key in common
abbrev pub Disjoint : List Key → List Key → Type 0
Disjoint as_ bs = All (λ a. All (λ b. key_eq a b ≡ false) bs) as_

-- A seek leaves out the first keys of a walk.
pub onward_later :
    (reverse : Bool) (target : Option Key) (strict : Bool) (a b : Key)
    → IsTarget target
    → IsKey a
    → IsKey b
    → comes_first reverse a b ≡ true
    → onward reverse target strict a ≡ true
    → onward reverse target strict b ≡ true
unfolding comes_first
onward_later reverse none strict a b t ha hb c o = refl
onward_later true (some t) strict a b ht ha hb c o =
    ground (arith, order-flip a b ha hb, order-eq a t ha ht, ≺_trans b a t hb ha ht)
onward_later false (some t) strict a b ht ha hb c o = ground (
  arith,
  order-flip a t ha ht,
  order-flip b t hb ht,
  order-eq a t ha ht,
  order-eq b t hb ht,
  ≺_trans t a b ht ha hb,
)

onward_earlier :
    (reverse : Bool) (target : Option Key) (strict : Bool) (a b : Key)
    → IsTarget target
    → IsKey a
    → IsKey b
    → comes_first reverse a b ≡ false
    → onward reverse target strict b ≡ true
    → onward reverse target strict a ≡ true
unfolding comes_first
onward_earlier reverse none strict a b t ha hb c o = refl
onward_earlier true (some t) strict a b ht ha hb c o =
    ground (arith, order-eq a b ha hb, order-eq b t hb ht, ≺_trans a b t ha hb ht)
onward_earlier false (some t) strict a b ht ha hb c o = ground (
  arith,
  order-flip a b ha hb,
  order-flip b t hb ht,
  order-flip a t ha ht,
  order-eq a b ha hb,
  order-eq b t hb ht,
  ≺_trans t b a ht hb ha,
)

pub merge-nil : (reverse : Bool) (ks : List Key) → merge reverse ks [] ≡ ks
merge-nil reverse [] = refl
merge-nil reverse (k ∷ ks) = refl

pub All-filter {ℓ} :
    (P : Key → Type ℓ) (p : Key → Bool) (ks : List Key) → All P ks → All P (filter p ks)
All-filter P p [] h = tt
All-filter P p (k ∷ ks) h = ground (arith, All-filter P p ks h.1)

Disjoint-filter :
    (p : Key → Bool) (xs ys : List Key) → Disjoint xs ys → Disjoint (filter p xs) (filter p ys)
Disjoint-filter p [] ys h = tt
Disjoint-filter p (x ∷ xs) ys h =
    ground (arith, All-filter (λ y. key_eq x y ≡ false) p ys h.0, Disjoint-filter p xs ys h.1)

pub Disjoint-tail :
    (xs : List Key) (y : Key) (ys : List Key) → Disjoint xs (y ∷ ys) → Disjoint xs ys
Disjoint-tail [] y ys h = tt
Disjoint-tail (x ∷ xs) y ys h = (h.0.1, Disjoint-tail xs y ys h.1)

-- One step of a filtered merge.
filter-merge_step :
    (p : Key → Bool) (reverse : Bool) (x y : Key) (xs ys : List Key)
    → filter p (merge reverse xs (y ∷ ys)) ≡ merge reverse (filter p xs) (filter p (y ∷ ys))
    → filter p (merge reverse (x ∷ xs) ys) ≡ merge reverse (filter p (x ∷ xs)) (filter p ys)
    → (comes_first reverse x y ≡ true → p x ≡ true → p y ≡ true)
    → (comes_first reverse x y ≡ false → p y ≡ true → p x ≡ true)
    → filter p (merge reverse (x ∷ xs) (y ∷ ys))
      ≡ merge reverse (filter p (x ∷ xs)) (filter p (y ∷ ys))
filter-merge_step p reverse x y xs ys left right later earlier = ground arith

-- A seek of both is a seek of the merged walk.
filter-merge :
    (p : Key → Bool) (reverse : Bool)
    → ((x y : Key)
        → IsKey x
        → IsKey y
        → (comes_first reverse x y ≡ true → p x ≡ true → p y ≡ true)
          × (comes_first reverse x y ≡ false → p y ≡ true → p x ≡ true))
    → (xs ys : List Key) → All IsKey xs
    → All IsKey ys
    → filter p (merge reverse xs ys) ≡ merge reverse (filter p xs) (filter p ys)
filter-merge p reverse up [] ys h k = refl
filter-merge p reverse up (x ∷ xs) [] h k = sym (merge-nil reverse (filter p (x ∷ xs)))
filter-merge p reverse up (x ∷ xs) (y ∷ ys) h k =
    filter-merge_step p reverse x y xs ys (filter-merge p reverse up xs (y ∷ ys) h.1 k)
      (filter-merge p reverse up (x ∷ xs) ys h k.1) (up x y h.0 k.0).0 (up x y h.0 k.0).1

length-merge_step :
    (reverse : Bool) (x y : Key) (xs ys : List Key)
    → length (merge reverse xs (y ∷ ys)) ≡ length xs + length (y ∷ ys)
    → length (merge reverse (x ∷ xs) ys) ≡ length (x ∷ xs) + length ys
    → length (merge reverse (x ∷ xs) (y ∷ ys)) ≡ length (x ∷ xs) + length (y ∷ ys)
length-merge_step reverse x y xs ys left right = ground arith

pub length-merge :
    (reverse : Bool) (xs ys : List Key) → length (merge reverse xs ys) ≡ length xs + length ys
length-merge reverse [] ys = omega arith
length-merge reverse (x ∷ xs) [] = omega arith
length-merge reverse (x ∷ xs) (y ∷ ys) =
    length-merge_step reverse x y xs ys (length-merge reverse xs (y ∷ ys))
      (length-merge reverse (x ∷ xs) ys)

merged_key-first :
    (reverse : Bool) (xs ys : List Key)
    → merged_key reverse (first xs) (first ys) ≡ first (merge reverse xs ys)
unfolding merged_key
merged_key-first reverse [] ys = refl
merged_key-first reverse (x ∷ xs) [] = refl
merged_key-first reverse (x ∷ xs) (y ∷ ys) = ground arith

module _ (a b : KeyCursor) {reverse : Bool} {xs ys : List Key} (wa : Walks a reverse xs)
    (wb : Walks b reverse ys) (hx : All IsKey xs) (hy : All IsKey ys) (apart : Disjoint xs ys) where
  abbrev MergeRest : (a.State × b.State) → List Key → Type 0
  MergeRest s ks =
      (left : List Key) × (right : List Key) × wa.Rest s.0 left
      × wb.Rest s.1 right
      × (ks ≡ merge reverse left right)
      × Disjoint left right

  abbrev stepped : a.State × b.State → a.State × b.State
  stepped s =
      if same_key (a.key s.0) (merged_key reverse (a.key s.0) (b.key s.1))
      then (a.step s.0, s.1)
      else (s.0, b.step s.1)

  step_merged :
      (s : a.State × b.State) (left right : List Key)
      → wa.Rest s.0 left
      → wb.Rest s.1 right
      → Disjoint left right
      → 0 < length (merge reverse left right)
      → MergeRest (stepped s) (tail (merge reverse left right))
  unfolding merged_key
  step_merged s [] [] r q d n = absurd (omega arith)
  step_merged s [] (y ∷ right) r q d n =
      rw (wa.key_rest s.0 [] r, wb.key_rest s.1 (y ∷ right) q)
        ([], right, r, wb.step_rest s.1 y right q, refl, tt)
  step_merged s (x ∷ left) [] r q d n =
      rw (wa.key_rest s.0 (x ∷ left) r, wb.key_rest s.1 [] q, key_eq_refl x)
        (left, [], wa.step_rest s.0 x left r, q, sym (merge-nil reverse left), d.1)
  step_merged s (x ∷ left) (y ∷ right) r q d n = elim (Bool-cases (comes_first reverse x y)) [
    | inl e ↦
        rw (wa.key_rest s.0 (x ∷ left) r, wb.key_rest s.1 (y ∷ right) q, e, key_eq_refl x)
          (left, y ∷ right, wa.step_rest s.0 x left r, q, refl, d.1)
    | inr e ↦
        rw (wa.key_rest s.0 (x ∷ left) r, wb.key_rest s.1 (y ∷ right) q, e, d.0.0)
          (x ∷ left, right, r, wb.step_rest s.1 y right q, refl, Disjoint-tail (x ∷ left) y right d)
  ]

  -- Over two cursors that walk the same way, keys of 16-bit units, none in common, the merged cursor
  -- walks the keys of both, the one that comes first at each step.
  pub merge_cursors-Walks : Walks (merge_cursors a b reverse) reverse (merge reverse xs ys)
  merge_cursors-Walks = record {
    Rest = MergeRest;
    key_rest = λ s ks h.
        let (left, right, r, q, e, d) = h in
        rw (wa.key_rest s.0 left r, wb.key_rest s.1 right q, e)
          (merged_key-first reverse left right);
    step_rest = λ s k ks h.
        let (left, right, r, q, e, d) = h in
        let n : length (k ∷ ks) ≡ length (merge reverse left right) = ap length e in
        rw (ap tail e) (step_merged s left right r q d (omega arith));
    seek_rest = λ target strict s t. (
      filter (onward reverse target strict) xs,
      filter (onward reverse target strict) ys,
      wa.seek_rest target strict s.0 t,
      wb.seek_rest target strict s.1 t,
      filter-merge (onward reverse target strict) reverse
          (λ x y h k. (
            onward_later reverse target strict x y t h k,
            onward_earlier reverse target strict x y t h k,
          ))
          xs ys hx hy,
      Disjoint-filter (onward reverse target strict) xs ys apart,
    );
  }

  -- Over two cursors that walk lists of keys of 16-bit units the same way, with no key in common,
  -- after a seek of both to no target or to one of 16-bit units, the merged cursor shows the keys
  -- of both lists that the seek leads to, the one that comes first at each step, given as many
  -- steps as both have keys.
  pub walked-merge_cursors :
      (target : Option Key) (strict : Bool) (s : a.State × b.State) (fuel : ℕ)
      → IsTarget target
      → length xs + length ys ≤ fuel
      → walked (merge_cursors a b reverse) fuel (a.seek target strict s.0, b.seek target strict s.1)
        ≡ filter (onward reverse target strict) (merge reverse xs ys)
  walked-merge_cursors target strict s fuel t enough =
      walked-seek merge_cursors-Walks target strict s fuel t
        (rw (length-merge reverse xs ys) enough)
