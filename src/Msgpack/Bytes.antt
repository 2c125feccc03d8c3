-- ===== src/Msgpack/Bytes.antt =====
-- Big-endian integers in bytes, as `be` of client/ts/src/msgpack.ts and a `DataView` read and write
-- them.
use phaselock.Prelude.{
  ℕ, ◌+◌, ◌-◌, ◌*◌, ◌/◌, ◌%◌, ◌<◌, ◌≡◌, List, [], ◌∷◌, arith, if◌then◌else◌, ltb, ℤ, pos, negsuc,
  take, drop,
}

abbrev pub IsByte : ℕ → Type 0
IsByte b = b < 256

-- the fold of a big-endian integer
abbrev pub be_from : ℕ → List ℕ → ℕ
be_from v [] = v
be_from v (b ∷ bs) = be_from (v * 256 + b) bs

-- big-endian unsigned integer of n bytes at pos
unfoldable pub be : List ℕ → ℕ → ℕ → ℕ
be buf at n = be_from 0 (take n (drop at buf))

-- `setUint16` and `setUint32`
abbrev pub u16 : ℕ → List ℕ
u16 v = (v / 256 % 256) ∷ (v % 256) ∷ []

abbrev pub u32 : ℕ → List ℕ
u32 v = (v / 16777216 % 256) ∷ (v / 65536 % 256) ∷ (v / 256 % 256) ∷ (v % 256) ∷ []

-- the bits that an integer keeps in a word of `size` values
abbrev pub word : ℕ → ℤ → ℕ
word size (pos n) = n % size
word size (negsuc n) = size - 1 - n % size

-- the integer that a word stands for, read with its sign
abbrev pub signed : ℕ → ℕ → ℤ
signed half w = if ltb w half then pos w else negsuc (half + half - 1 - w)

pub be_from-u16 : (v : ℕ) → v < 65536 → be_from 0 (u16 v) ≡ v
be_from-u16 v h = omega arith

pub be_from-u32 : (v : ℕ) → v < 4294967296 → be_from 0 (u32 v) ≡ v
be_from-u32 v h = omega arith
