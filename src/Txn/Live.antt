-- ===== src/Txn/Live.antt =====
-- What the lists behind a transaction's walk hold, and the loop of `#keysUnder` over a cursor.
use phaselock.Prelude.{
  ℕ, zero, suc, ◌+◌, ◌≤◌, ◌≡◌, refl, ap, List, [], ◌∷◌, ◌++◌, Bool, true, false, ◌&&◌, ◌||◌, Option,
  if◌then◌else◌, length, length-append, arith, Bool-cases, inl, inr, All,
}
use phaselock.Keys.{Key, key_eq}
use phaselock.Keys.Order.{IsKey}
use phaselock.Keys.Sorted.{member, key_eq_iff, key_eq_refl}
use phaselock.Keys.Sort.{length-sort_keys}
use phaselock.Layer.{Layer, layer_keys, collect_layer, collect_layers}
use phaselock.Cursor.{comes_first, KeyCursor}
use phaselock.Cursor.Walks.{Walks, filter}
use phaselock.Cursor.Filter.{shown}
use phaselock.Cursor.Merge.{merge, Disjoint}
use phaselock.Txn.{under_loop}
use phaselock.Txn.Sorted.{take_under}

-- The loop takes the keys from the cursor as long as they start with the prefix.
pub under_loop-take_under :
    (c : KeyCursor) {reverse : Bool} {all : List Key} (w : Walks c reverse all) (p : Key) (fuel : ℕ)
    (s : c.State) (ks : List Key)
    → length ks ≤ fuel
    → w.Rest s ks
    → under_loop c fuel p s ≡ take_under p ks
unfolding under_loop
under_loop-take_under c w p zero s [] h r = refl
under_loop-take_under c w p zero s (k ∷ ks) h r = absurd (omega arith)
under_loop-take_under c w p (suc fuel) s [] h r = rw (w.key_rest s [] r, under_loop) refl
under_loop-take_under c w p (suc fuel) s (k ∷ ks) h r =
    let later =
      under_loop-take_under c w p fuel (c.step s) ks (omega arith) (w.step_rest s k ks r) in
    rw (w.key_rest s (k ∷ ks) r, under_loop, later) refl

pub All-of_member :
    (q : Key → Bool) (xs : List Key)
    → ((k : Key) → member k xs ≡ true → q k ≡ true)
    → All (λ k. q k ≡ true) xs
All-of_member q [] h = tt
All-of_member q (x ∷ xs) h =
    let self = key_eq_refl x in (h x (ground arith), All-of_member q xs (λ k m. h k (ground arith)))

pub member-IsKey : (k : Key) (xs : List Key) → All IsKey xs → member k xs ≡ true → IsKey k
member-IsKey k [] h m = absurd (cc)
member-IsKey k (x ∷ xs) h m = elim (Bool-cases (key_eq x k)) [
  | inl e ↦ rw (← key_eq_iff x k e) h.0
  | inr e ↦ member-IsKey k xs h.1 (ground arith)
]

pub All-IsKey : (xs ys : List Key) → All IsKey ys → All (λ k. member k ys ≡ true) xs → All IsKey xs
All-IsKey [] ys h m = tt
All-IsKey (x ∷ xs) ys h m = (member-IsKey x ys h m.0, All-IsKey xs ys h m.1)

pub member-filter :
    (p : Key → Bool) (k : Key) (xs : List Key) → member k (filter p xs) ≡ (p k && member k xs)
member-filter p k [] = ground arith
member-filter p k (x ∷ xs) = elim (Bool-cases (key_eq x k)) [
  | inl e ↦
      let q = key_eq_iff x k e in
      let same : p x ≡ p k = ap p q in ground (arith, member-filter p k xs)
  | inr e ↦ ground (arith, member-filter p k xs)
]

member-merge_step :
    (k x y : Key) (b : Bool) (xs ys left right : List Key)
    → member k left ≡ (member k xs || member k (y ∷ ys))
    → member k right ≡ (member k (x ∷ xs) || member k ys)
    → member k (if b then x ∷ left else y ∷ right) ≡ (member k (x ∷ xs) || member k (y ∷ ys))
member-merge_step k x y b xs ys left right l r = ground arith

pub member-merge :
    (k : Key) (xs ys : List Key) → member k (merge false xs ys) ≡ (member k xs || member k ys)
member-merge k [] ys = refl
member-merge k (x ∷ xs) [] = ground arith
member-merge k (x ∷ xs) (y ∷ ys) =
    member-merge_step k x y (comes_first false x y) xs ys (merge false xs (y ∷ ys))
      (merge false (x ∷ xs) ys) (member-merge k xs (y ∷ ys)) (member-merge k (x ∷ xs) ys)

-- lists parted by a test have no key in common
apart_step :
    (q : Key → Bool) (x : Key) (ys : List Key)
    → q x ≡ false
    → All (λ k. q k ≡ true) ys
    → All (λ y. key_eq x y ≡ false) ys
apart_step q x [] e h = tt
apart_step q x (y ∷ ys) e h = (
  elim (Bool-cases (key_eq x y)) [
    | inl s ↦ let same : q x ≡ q y = ap q (key_eq_iff x y s) in absurd (cc)
    | inr s ↦ s
  ],
  apart_step q x ys e h.1,
)

pub apart :
    (q : Key → Bool) (xs ys : List Key)
    → All (λ k. q k ≡ true) ys
    → Disjoint (filter (shown q) xs) ys
apart q [] ys h = tt
apart q (x ∷ xs) ys h = elim (Bool-cases (q x)) [
  | inl e ↦ rw e (apart q xs ys h)
  | inr e ↦ rw e (apart_step q x ys e h, apart q xs ys h)
]

length-collect_layer {ℓ} :
    {V : Type ℓ} (keep : Key → Bool) (m : Layer (Option V)) (seen ks : List Key)
    → length (collect_layer keep m seen ks).1 ≤ length ks + length m
unfolding collect_layer
length-collect_layer keep [] seen ks = omega arith
length-collect_layer keep ((k, v) ∷ m) seen ks = ground (
  arith,
  length-collect_layer keep m seen ks,
  length-collect_layer keep m (k ∷ seen) ks,
  length-collect_layer keep m (k ∷ seen) (ks ++ k ∷ []),
  length-append ks (k ∷ []),
)

pub length-layer_keys {ℓ} :
    {V : Type ℓ} (keep : Key → Bool) (m : Layer (Option V))
    → length (layer_keys keep (m ∷ [])) ≤ length m
unfolding layer_keys collect_layers
length-layer_keys keep m =
    let bound = length-collect_layer keep m [] [] in
    rw (length-sort_keys (collect_layer keep m [] []).1) (omega arith)
