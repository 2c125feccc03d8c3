-- ===== src/KeyList/Even.antt =====
-- `KeyList.of` cuts a sorted list into blocks of even size.
use mathlib.Core.List.{flatten}
use native.Mathlib.Decide.{dec_lt}
use native.Mathlib.Nat.{div-add-mod, mod-lt}
use phaselock.Prelude.{
  ℕ, zero, suc, ◌+◌, ◌-◌, ◌*◌, ◌/◌, ◌≤◌, ◌<◌, ◌≡◌, ◌≢◌, refl, ap, ◌∙◌, List, [], ◌∷◌, false, arith,
  ◌==◌, length, drop, All, length-take, length-drop, take-append-drop,
}
use phaselock.Keys.{Key}
use phaselock.KeyList.{keys, slices, of, ceil_div}
use phaselock.KeyList.Sizes.{Fits, IsSized, IsSized-of_all, All-Fits}

flatten-slices :
    (fuel size : ℕ) (ks : List Key)
    → 0 < size
    → length ks ≤ fuel
    → flatten (slices fuel size ks) ≡ ks
unfolding slices flatten
flatten-slices zero size [] p l = refl
flatten-slices zero size (k ∷ ks) p l = absurd (omega arith)
flatten-slices (suc fuel) size [] p l = refl
flatten-slices (suc fuel) size (k ∷ ks) p l =
    rw
      (flatten-slices fuel size (drop size (k ∷ ks)) p
        (omega (arith, length-drop {0} size (k ∷ ks))))
      (take-append-drop size (k ∷ ks))

-- `Math.ceil(n / d)` times d lies at most d - 1 above n.
ceil_div_bounds : (n d : ℕ) → 0 < d → (d * ceil_div n d < n + d) × (n ≤ d * ceil_div n d)
ceil_div_bounds n d h = grind arith

size_of : ℕ → ℕ
size_of n = ceil_div n (ceil_div n 1024)

count_pos : (n : ℕ) → 0 < n → 0 < ceil_div n 1024
count_pos n h = omega arith

size_of_pos : (n : ℕ) → 0 < n → 0 < size_of n
unfolding size_of
size_of_pos n h = grind (arith, ceil_div_bounds n (ceil_div n 1024) (count_pos n h))

-- The blocks made of a list of keys hold that list.
pub keys-of : (ks : List Key) → keys (of ks) ≡ ks
unfolding of size_of
keys-of [] = unfold flatten in refl
keys-of (k ∷ ks) =
    let some_keys : (length (k ∷ ks) == 0) ≡ false = ground arith in
    rw some_keys (
      flatten-slices (length (k ∷ ks)) (size_of (length (k ∷ ks))) (k ∷ ks)
        (size_of_pos (length (k ∷ ks)) (omega arith)) (omega arith))

slices_nil : (fuel size : ℕ) (ks : List Key) → length ks ≡ 0 → All (Fits 256) (slices fuel size ks)
unfolding slices
slices_nil zero size ks e = tt
slices_nil (suc fuel) size [] e = tt
slices_nil (suc fuel) size (k ∷ ks) e = absurd (omega arith)

slices-Fits :
    (m fuel size r : ℕ) (ks : List Key)
    → length ks ≡ m * size + r
    → 256 ≤ r
    → r ≤ size
    → size ≤ 2048
    → All (Fits 256) (slices fuel size ks)
unfolding slices
slices-Fits m zero size r ks e l u s = tt
slices-Fits m (suc fuel) size r [] e l u s = tt
slices-Fits zero (suc fuel) size r (k ∷ ks) e l u s =
    let taken = length-take {0} size (k ∷ ks) in
    let left = length-drop {0} size (k ∷ ks) in
    (omega arith, slices_nil fuel size (drop size (k ∷ ks)) (omega arith))
slices-Fits (suc m) (suc fuel) size r (k ∷ ks) e l u s =
    let taken = length-take {0} size (k ∷ ks) in
    let left = length-drop {0} size (k ∷ ks) in
    (omega arith, slices-Fits m fuel size r (drop size (k ∷ ks)) (omega arith) l u s)

size_of_bounds : (n : ℕ) → 1024 < n → (512 ≤ size_of n) × (size_of n ≤ 1024)
unfolding size_of
size_of_bounds n l =
    let k = ceil_div n 1024 in
    let s = ceil_div n k in
    let b = ceil_div_bounds n k (omega arith) in
    let blocks : (1024 * k < n + 1024) × (n ≤ 1024 * k) = omega arith in bounds k s b blocks
  where
    bounds :
        (k s : ℕ)
        → (k * s < n + k) × (n ≤ k * s)
        → (1024 * k < n + 1024) × (n ≤ 1024 * k)
        → (512 ≤ s) × (s ≤ 1024)
    bounds k s b c = (grind arith, grind arith)

-- n keys in k blocks at most of s keys, m of them full: the last one has 256 keys or more.
last_bound :
    (n k s m : ℕ)
    → (1024 * k < n + 1024) × (n ≤ 1024 * k)
    → (k * s < n + k) × (n ≤ k * s)
    → m * s < n
    → (512 ≤ s) × (s ≤ 1024)
    → n ≤ 787710
    → 256 + m * s ≤ n
last_bound n k s m blocks size full bounds u =
    let less : m < k = grind arith in
    let all : m * s + s ≤ k * s = grind arith in
    elim (dec_lt s 1024) [
      | yes p ↦ let few : m * s ≤ m * 1023 = grind arith in omega arith
      | no p ↦ let e : s ≡ 1024 = omega arith in let rows = ap (λ t. k * t) e in omega arith
    ]

slices-eq-nil : (fuel size : ℕ) (ks : List Key) → length ks ≡ 0 → slices fuel size ks ≡ []
unfolding slices
slices-eq-nil zero size ks e = refl
slices-eq-nil (suc fuel) size [] e = refl
slices-eq-nil (suc fuel) size (k ∷ ks) e = absurd (omega arith)

blocks-of :
    (ks : List Key) → 0 < length ks → (of ks).blocks ≡ slices (length ks) (size_of (length ks)) ks
unfolding of size_of
blocks-of ks h = ground arith

size_of_single : (n : ℕ) → 0 < n → n ≤ 1024 → size_of n ≡ n
unfolding size_of
size_of_single n p u = let one : ceil_div n 1024 ≡ 1 = omega arith in rw one (omega arith)

-- Up to 1024 keys make one block.
of_single : (k : Key) (ks : List Key) → length (k ∷ ks) ≤ 1024 → IsSized (of (k ∷ ks)).blocks
of_single k ks u =
    let n = length (k ∷ ks) in
    let whole = size_of_single n (omega arith) u in
    let taken = length-take {0} n (k ∷ ks) in
    let left = length-drop {0} n (k ∷ ks) in
    rw (blocks-of (k ∷ ks) (omega arith), whole)
      (unfold slices in
        rw (slices-eq-nil (length ks) n (drop n (k ∷ ks)) (omega arith)) (omega arith))

module _ (ks : List Key) (many : 1024 < length ks) where
  size : ℕ
  size = size_of (length ks)

  full : ℕ
  full = (length ks - 1) / size

  cut : (full * size < length ks) × (length ks ≤ full * size + size)
  unfolding full size
  cut =
      let b = size_of_bounds (length ks) many in
      grind (
        arith,
        div-add-mod (length ks - 1) (size_of (length ks)),
        mod-lt (length ks - 1) {m = size_of (length ks)},
      )

  of_many : length ks ≤ 787710 → IsSized (of ks).blocks
  of_many u =
      let n = length ks in
      let k = ceil_div n 1024 in
      let bounds = size_of_bounds n many in
      let last =
        last_bound n k (size_of n) full (omega arith)
          (unfold size_of in ceil_div_bounds n k (omega arith)) (unfold size in cut.0) bounds u in
      IsSized-of_all (of ks).blocks (
        rw (blocks-of ks (omega arith)) (
          slices-Fits full n (size_of n) (n - full * size_of n) ks (omega arith) (omega arith)
            (unfold size in omega (arith, cut.1)) (omega arith)))

-- The blocks made of up to 787,710 keys keep to the lengths that the class promises.
pub of-IsSized : (ks : List Key) → length ks ≤ 787710 → IsSized (of ks).blocks
of-IsSized [] u = unfold of in tt
of-IsSized (k ∷ ks) u = elim (dec_lt 1024 (length (k ∷ ks))) [
  | yes p ↦ of_many (k ∷ ks) p u
  | no p ↦ of_single k ks (omega arith)
]

slices_some :
    (fuel size : ℕ) (ks : List Key)
    → 0 < length ks
    → length ks ≤ fuel
    → 0 < length (slices fuel size ks)
unfolding slices
slices_some zero size ks p f = omega arith
slices_some (suc fuel) size [] p f = omega arith
slices_some (suc fuel) size (k ∷ ks) p f = omega arith

short_size : (k : ℕ) → 770 ≤ k → k ≤ 1022 → size_of (1023 * k + 1) ≡ 1024
unfolding size_of
short_size k l u =
    let blocks : ceil_div (1023 * k + 1) 1024 ≡ k = omega arith in
    rw blocks (grind (arith, ceil_div_bounds (1023 * k + 1) k (omega arith)))

slices-Fits_one :
    (fuel size : ℕ) (ks : List Key) → 0 < size → size ≤ 2048 → All (Fits 1) (slices fuel size ks)
unfolding slices
slices-Fits_one zero size ks p u = tt
slices-Fits_one (suc fuel) size [] p u = tt
slices-Fits_one (suc fuel) size (k ∷ ks) p u = (
  omega (arith, length-take {0} size (k ∷ ks)),
  slices-Fits_one fuel size (drop size (k ∷ ks)) p u,
)

size_of_most : (n : ℕ) → 0 < n → size_of n ≤ 1024
size_of_most n p = elim (dec_lt 1024 n) [
  | yes h ↦ omega (arith, size_of_bounds n h)
  | no h ↦ omega (arith, size_of_single n p (omega arith))
]

-- `of` makes no block that is empty, and none that is too long.
pub of-Fits : (ks : List Key) → All (Fits 1) (of ks).blocks
of-Fits [] = unfold of in tt
of-Fits (k ∷ ks) =
    let n = length (k ∷ ks) in
    rw (blocks-of (k ∷ ks) (omega arith)) (
      slices-Fits_one n (size_of n) (k ∷ ks) (size_of_pos n (omega arith))
        (omega (arith, size_of_most n (omega arith))))

module _ (size r : ℕ) (short : r < 256) (some_keys : 0 < r) (fits : r ≤ size) where
  slices_short :
      (m fuel : ℕ) (ks : List Key)
      → length ks ≡ m * size + r
      → length ks ≤ fuel
      → ¬ All (Fits 256) (slices fuel size ks)
  unfolding slices
  slices_short m zero ks e f h = omega arith
  slices_short m (suc fuel) [] e f h = omega arith
  slices_short zero (suc fuel) (k ∷ ks) e f h = omega (arith, length-take {0} size (k ∷ ks), h.0)
  slices_short (suc m) (suc fuel) (k ∷ ks) e f h =
      slices_short m fuel (drop size (k ∷ ks)) (omega (arith, length-drop {0} size (k ∷ ks)))
        (omega (arith, length-drop {0} size (k ∷ ks))) h.1

  slices_several :
      (m fuel : ℕ) (ks : List Key)
      → length ks ≡ suc m * size + r
      → length ks ≤ fuel
      → length (slices fuel size ks) ≢ 1
  unfolding slices
  slices_several m zero ks e f one = omega arith
  slices_several m (suc fuel) [] e f one = omega arith
  slices_several m (suc fuel) (k ∷ ks) e f one =
      let left = length-drop {0} size (k ∷ ks) in
      omega (arith, slices_some fuel size (drop size (k ∷ ks)) (omega arith) (omega arith))

-- For every k from 770 to 1022, the blocks made of 1023 * k + 1 keys do not keep to the lengths
-- that the class promises.
pub of_short_block :
    (ks : List Key) (k : ℕ)
    → 770 ≤ k
    → k ≤ 1022
    → length ks ≡ 1023 * k + 1
    → ¬ IsSized (of ks).blocks
of_short_block ks k l u e h =
    let size : size_of (length ks) ≡ 1024 = rw e (short_size k l u) in
    let cut : length ks ≡ suc (k - 2) * 1024 + (1025 - k) = omega arith in
    let blocks = blocks-of ks (omega arith) ∙ ap (λ n. slices (length ks) n ks) size in
    let several =
      slices_several 1024 (1025 - k) (omega arith) (omega arith) (omega arith) (k - 2) (length ks)
        ks cut (omega arith) in
    slices_short 1024 (1025 - k) (omega arith) (omega arith) (omega arith) (suc (k - 2)) (length ks)
      ks cut (omega arith) (All-Fits (slices (length ks) 1024 ks) (rw blocks at h) several)
