-- ===== src/Wire/Hex.antt =====
-- Bytes as pairs of hexadecimal digits, as client/ts/src/uuid.ts and checksum.ts write and read them.
use phaselock.Prelude.{
  ℕ, ◌+◌, ◌-◌, ◌*◌, ◌/◌, ◌%◌, ◌<◌, ◌≡◌, List, [], ◌∷◌, Bool, true, ◌&&◌, ◌||◌, if◌then◌else◌, ltb,
  leb, arith,
}
use phaselock.Keys.{Key}

-- `HEX[n]`
abbrev pub hex_digit : ℕ → ℕ
hex_digit n = if ltb n 10 then 48 + n else 87 + n

abbrev pub is_hex : ℕ → Bool
is_hex c = (leb b'0' c && leb c b'9') || (leb b'a' c && leb c b'f') || (leb b'A' c && leb c b'F')

-- what `parseInt(c, 16)` reads, of a digit
abbrev pub hex_value : ℕ → ℕ
hex_value c = if leb c b'9' then c - 48 else if leb b'a' c then c - 87 else c - 55

abbrev pub hex_pair : ℕ → Key
hex_pair b = hex_digit (b / 16) ∷ hex_digit (b % 16) ∷ []

-- the bytes of digits taken two by two
abbrev pub hex_bytes : Key → List ℕ
hex_bytes [] = []
hex_bytes (x ∷ []) = []
hex_bytes (x ∷ y ∷ s) = (hex_value x * 16 + hex_value y) ∷ hex_bytes s

abbrev pub all_hex : Key → Bool
all_hex [] = true
all_hex (c ∷ s) = is_hex c && all_hex s

pub hex_value-digit : (n : ℕ) → n < 16 → hex_value (hex_digit n) ≡ n
hex_value-digit n h = ground arith

pub is_hex-digit : (n : ℕ) → n < 16 → is_hex (hex_digit n) ≡ true
is_hex-digit n h = ground arith
