-- ===== src/Wire/Uuid.antt =====
-- Mutation ids: `uuidBytes` and `uuidString` of client/ts/src/uuid.ts.
use phaselock.Prelude.{
  ℕ, ◌+◌, ◌*◌, ◌/◌, ◌%◌, ◌≡◌, refl, List, [], ◌∷◌, true, ◌&&◌, ◌||◌, if◌then◌else◌, ◌==◌, length,
  All, arith,
}
use phaselock.Keys.{Key}
use phaselock.Msgpack.{bad_uuid, Result, ok, ◌>>=◌, ◌>>◌, check}
use phaselock.Msgpack.Bytes.{IsByte}
use phaselock.Wire.Hex.{hex_digit, hex_bytes, all_hex}

-- `id.replaceAll('-', '')`
abbrev pub without_dashes : Key → Key
without_dashes [] = []
without_dashes (c ∷ s) = if c == b'-' then without_dashes s else c ∷ without_dashes s

unfoldable pub uuid_bytes : Key → Result (List ℕ)
uuid_bytes id = do
  let hex = without_dashes id
  check (length hex == 32 && all_hex hex) bad_uuid
  ok (hex_bytes hex)

-- The loop from byte i on.
unfoldable pub groups : ℕ → List ℕ → Key
groups i [] = []
groups i (b ∷ bs) =
    let rest = groups (i + 1) bs in
    let pair = hex_digit (b / 16) ∷ hex_digit (b % 16) ∷ rest in
    if i == 4 || i == 6 || i == 8 || i == 10 then b'-' ∷ pair else pair

unfoldable pub uuid_string : List ℕ → Result Key
unfolding groups
uuid_string b = do check (length b == 16) bad_uuid; ok (groups 0 b)

hexes : List ℕ → Key
hexes [] = []
hexes (b ∷ bs) = hex_digit (b / 16) ∷ hex_digit (b % 16) ∷ hexes bs

without_dashes-groups :
    (i : ℕ) (bs : List ℕ) → All IsByte bs → without_dashes (groups i bs) ≡ hexes bs
unfolding groups hexes
without_dashes-groups i [] h = refl
without_dashes-groups i (b ∷ bs) h = ground (arith, without_dashes-groups (i + 1) bs)

hex_bytes-hexes : (bs : List ℕ) → All IsByte bs → hex_bytes (hexes bs) ≡ bs
unfolding hexes
hex_bytes-hexes [] h = refl
hex_bytes-hexes (b ∷ bs) h = ground (arith, hex_bytes-hexes bs)

length-hexes : (bs : List ℕ) → length (hexes bs) ≡ length bs * 2
unfolding hexes
length-hexes [] = omega arith
length-hexes (b ∷ bs) = omega (arith, length-hexes bs)

all_hex-hexes : (bs : List ℕ) → All IsByte bs → all_hex (hexes bs) ≡ true
unfolding hexes
all_hex-hexes [] h = refl
all_hex-hexes (b ∷ bs) h = ground (arith, all_hex-hexes bs)

-- Any 16 bytes written as a uuid are read back from it.
pub uuid_bytes-uuid_string :
    (b : List ℕ) → All IsByte b → length b ≡ 16 → (uuid_string b >>= uuid_bytes) ≡ ok b
unfolding uuid_bytes uuid_string
uuid_bytes-uuid_string b h k =
    let long : length (hexes b) ≡ 32 = omega (arith, length-hexes b) in
    rw (k, without_dashes-groups 0 b h, long, all_hex-hexes b h, hex_bytes-hexes b h) refl

pub uuid_string-groups : (b : List ℕ) → length b ≡ 16 → uuid_string b ≡ ok (groups 0 b)
unfolding uuid_string
uuid_string-groups b h = rw h refl
