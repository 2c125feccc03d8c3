-- ===== src/KeyList.antt =====
-- The in-memory store's sorted list of keys: class `KeyList` of typespec/ts/assets/skeleton.ts.
pub mod Partition
pub mod Seek
pub mod Flat
pub mod Laws
pub mod Sizes
pub mod Even
pub mod Invariant
use mathlib.Core.List.{flatten}
use phaselock.Prelude.{
  ℕ, zero, suc, ◌+◌, ◌-◌, ◌*◌, ◌/◌, List, [], ◌∷◌, ◌++◌, Bool, false, ◌&&◌, ◌||◌, Option, none,
  some, ltb, leb, ◌==◌, if◌then◌else◌, length, take, drop, splice, get_or, get_elem?, ℤ, is_neg,
  is_zero,
}
use phaselock.Keys.{Key, exact_for, key_eq}
use phaselock.Bisect.{bisect}

abbrev pub block_size : ℕ
block_size = 1024

-- `#blocks`
pub record KeyList : Type 0 where
  pub blocks : List (List Key)

abbrev pub empty : KeyList
empty = record { blocks = [] }

-- the keys, block after block
abbrev pub keys : KeyList → List Key
keys l = flatten l.blocks

-- the closure `before` of `#seek`
unfoldable pub before_key : (Key → Key → ℤ) → Key → Bool → Key → Bool
before_key cmp key strict k = let c = cmp k key in is_neg c || (strict && is_zero c)

-- No index below a length reads `none`.
abbrev pub holds : (Key → Bool) → Option Key → Bool
holds p none = false
holds p (some k) = p k

abbrev pub block_at : List (List Key) → ℕ → List Key
block_at blocks b = get_or blocks b []

abbrev pub last_key : List Key → Option Key
last_key block = get_elem? block (length block - 1)

unfoldable pub seek : List (List Key) → Key → Bool → (Key → Key → ℤ) → ℕ × ℕ
seek blocks key strict cmp =
    let before = before_key cmp key strict in
    let b = bisect (length blocks) (λ j. holds before (last_key (block_at blocks j))) in
    if b == length blocks then (b, 0) else (
      b,
      bisect (length (block_at blocks b)) (λ j. holds before (get_elem? (block_at blocks b) j)),
    )

-- `add` past the search: splice the key in, and split a block grown too long
unfoldable pub insert_at : List (List Key) → Key → ℕ → ℕ → List (List Key)
insert_at blocks key b i =
    let block = splice i 0 (key ∷ []) (block_at blocks b) in
    let half = length block / 2 in
    if ltb (2 * block_size) (length block)
    then splice b 1 (take half block ∷ drop half block ∷ []) blocks
    else splice b 1 (block ∷ []) blocks

-- a key above every block's last key goes at the end of the last block
unfoldable pub place : List (List Key) → ℕ × ℕ → ℕ × ℕ
place blocks (b, i) =
    if b == length blocks then (b - 1, length (block_at blocks (b - 1))) else (b, i)

unfoldable pub add : Key → KeyList → KeyList
add key l = record {
  blocks = elim l.blocks [
    | [] ↦ (key ∷ []) ∷ []
    | block ∷ rest ↦
        let blocks = block ∷ rest in
        let (b, i) = place blocks (seek blocks key false (exact_for (some key ∷ []))) in
        insert_at blocks key b i
  ];
}

-- a block grown too short joins a neighbour, splitting again if the pair is too long
unfoldable pub join_at : List (List Key) → ℕ → List (List Key)
join_at blocks x =
    let joined = block_at blocks x ++ block_at blocks (x + 1) in
    let half = length joined / 2 in
    if ltb (2 * block_size) (length joined)
    then splice x 2 (take half joined ∷ drop half joined ∷ []) blocks
    else splice x 2 (joined ∷ []) blocks

unfoldable pub remove_at : List (List Key) → ℕ → ℕ → List (List Key)
remove_at blocks b i =
    let block = splice i 1 [] (block_at blocks b) in
    let rest = splice b 1 (block ∷ []) blocks in
    if leb (block_size / 4) (length block)
    then rest
    else if length blocks == 1
    then (if length block == 0 then [] else rest)
    else join_at rest (if ltb (b + 1) (length blocks) then b else b - 1)

abbrev pub is_key : Key → Option Key → Bool
is_key key none = false
is_key key (some k) = key_eq k key

-- `none` is the error thrown for a key that the list does not hold.
unfoldable pub remove : Key → KeyList → Option KeyList
remove key l =
    let (b, i) = seek l.blocks key false (exact_for (some key ∷ [])) in
    if is_key key (get_elem? (block_at l.blocks b) i)
    then some (record { blocks = remove_at l.blocks b i })
    else none

-- `Math.ceil(n / d)`
abbrev pub ceil_div : ℕ → ℕ → ℕ
ceil_div n d = (n + d - 1) / d

-- slices of a size, by as many rounds as there are keys at most
unfoldable pub slices : ℕ → ℕ → List Key → List (List Key)
slices zero size ks = []
slices (suc fuel) size [] = []
slices (suc fuel) size (k ∷ ks) = take size (k ∷ ks) ∷ slices fuel size (drop size (k ∷ ks))

unfoldable pub of : List Key → KeyList
of sorted = if length sorted == 0 then empty else record {
  blocks =
      slices (length sorted) (ceil_div (length sorted) (ceil_div (length sorted) block_size))
        sorted;
}
