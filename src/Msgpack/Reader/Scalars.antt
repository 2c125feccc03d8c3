-- ===== src/Msgpack/Reader/Scalars.antt =====
-- The typed reads of `Reader` in client/ts/src/msgpack.ts: strings, bins, keys, numbers, booleans, nil
-- and timestamps. `undefined` and -1, the markers for a value of another type, are `none`.
use phaselock.Prelude.{
  ℕ, zero, suc, ◌+◌, ◌-◌, ◌*◌, ◌/◌, ◌%◌, List, [], ◌∷◌, Bool, true, false, ◌&&◌, ◌||◌, not,
  if◌then◌else◌, ltb, leb, ◌==◌, ℤ, pos, negsuc, Option, none, some, take, drop, length, get_elem?,
}
use phaselock.Keys.{Key}
use phaselock.Msgpack.{
  Kind, expected, not_timestamp, timestamp_size, malformed_timestamp, no_key, Result, ok, thrown,
  ◌>>=◌, ◌>>◌, check, Vendor, Num, whole, float, millis, Date, date_of,
}
use phaselock.Msgpack.Bytes.{be_from, signed}
use phaselock.Msgpack.Reader.{
  Reader, Read, advance, byte, bytes, need, read_length, try_str_header, str_header,
}

unfoldable pub bool : Reader → Read Bool
bool r = do
  need 1 r
  let b = byte r 0
  check (b == 0xc2 || b == 0xc3) (expected Kind.bool b)
  ok (b == 0xc3, advance 1 r)

unfoldable pub nil : Reader → Result Reader
nil r = do need 1 r; let b = byte r 0; check (b == 0xc0) (expected Kind.nil b); ok (advance 1 r)

unfoldable pub try_bool : Reader → Read (Option Bool)
try_bool r = do
  need 1 r
  let b = byte r 0
  if b == 0xc2 || b == 0xc3 then ok (some (b == 0xc3), advance 1 r) else ok (none, r)

unfoldable pub try_nil : Reader → Read Bool
try_nil r = do need 1 r; if byte r 0 == 0xc0 then ok (true, advance 1 r) else ok (false, r)

-- the bytes of the bin at the cursor
unfoldable pub bin_length : Reader → Read ℕ
unfolding read_length
bin_length r = do
  need 1 r
  let b = byte r 0
  if b == 0xc4
      then read_length 1 r
      else if b == 0xc5
      then read_length 2 r
      else if b == 0xc6
      then read_length 4 r
      else thrown (expected Kind.bin b)

unfoldable pub bin : Reader → Read (List ℕ)
unfolding bin_length
bin r = do (n, r') ← bin_length r; need n r'; ok (bytes r' 0 n, advance n r')

-- how many bytes two keys share at their start, for as long as the first one is
abbrev pub agree : List ℕ → List ℕ → ℕ
agree [] ys = 0
agree (x ∷ xs) [] = 0
agree (x ∷ xs) (y ∷ ys) = if x == y then suc (agree xs ys) else 0

-- The loop of `keyIndex` over its last `rounds` rounds; `key` is what stands in the buffer from the
-- key on, and the key has n bytes.
abbrev pub found_at : ℕ → List ℕ → ℕ → Result (Option ℕ) → Option (List ℕ) → Result (Option ℕ)
found_at i key n rest none = thrown no_key
found_at i key n rest (some k) =
    if not (length k == n) then rest else if agree k key == n then ok (some i) else rest

unfoldable pub key_loop : List (List ℕ) → List ℕ → ℕ → ℕ → ℕ → Result (Option ℕ)
key_loop keys key n hint zero = ok none
key_loop keys key n hint (suc rounds) =
    let count = length keys in
    let j = count - suc rounds in
    let i = if ltb (hint + j) count then hint + j else hint + j - count in
    let rest = key_loop keys key n hint rounds in found_at i key n rest (get_elem? keys i)

-- the answers of `keyIndex`: its index, -1 and -2
pub data KeyAt : Type 0 where
  index : ℕ → KeyAt
  no_index : KeyAt
  no_string : KeyAt

abbrev pub key_at : Option ℕ → KeyAt
key_at (some i) = index i
key_at none = no_index

abbrev pub key_of : List (List ℕ) → ℕ → Option ℕ × Reader → Read KeyAt
key_of keys hint (none, r) = ok (no_string, r)
key_of keys hint (some n, r) = do
  need n r
  let r' = record (advance n r) { last_key = r.at; last_key_len = n }
  o ← key_loop keys (drop r.at r.buf) n hint (length keys)
  ok (key_at o, r')

unfoldable pub key_index : List (List ℕ) → ℕ → Reader → Read KeyAt
unfolding try_str_header key_loop
key_index keys hint r = do o ← try_str_header r; key_of keys hint o

-- The integers of one width past the header byte b, which `read` reads
abbrev wide : ℕ → (List ℕ → ℤ) → Reader → Read ℤ
wide width read r = do need (1 + width) r; ok (read (bytes r 1 width), advance (1 + width) r)

abbrev unsigned : List ℕ → ℤ
unsigned xs = pos (be_from 0 xs)

abbrev signed_at : ℕ → List ℕ → ℤ
signed_at half xs = signed half (be_from 0 xs)

module _ (v : Vendor) where
  unfoldable pub wide_int : ℕ → Reader → Read ℤ
  wide_int b r =
      if b == 0xcc
      then wide 1 unsigned r
      else if b == 0xcd
      then wide 2 unsigned r
      else if b == 0xce
      then wide 4 unsigned r
      else if b == 0xcf
      then wide 8 (λ xs. pos (v.get_uint64 xs)) r
      else if b == 0xd0
      then wide 1 (signed_at 128) r
      else if b == 0xd1
      then wide 2 (signed_at 32768) r
      else if b == 0xd2
      then wide 4 (signed_at 2147483648) r
      else if b == 0xd3
      then wide 8 v.get_int64 r
      else thrown (expected Kind.int b)

  unfoldable pub int : Reader → Read ℤ
  unfolding wide_int
  int r = do
    need 1 r
    let b = byte r 0
    if leb b 0x7f
        then ok (pos b, advance 1 r)
        else if leb 0xe0 b
        then ok (negsuc (255 - b), advance 1 r)
        else wide_int b r

  unfoldable pub float_at : Reader → Read Num
  float_at r = do
    need 1 r
    let b = byte r 0
    if b == 0xca
        then (do need 5 r; ok (v.get_float32 (bytes r 1 4), advance 5 r))
        else if b == 0xcb
        then (do need 9 r; ok (v.get_float64 (bytes r 1 8), advance 9 r))
        else thrown (expected Kind.float b)

  abbrev whole_of : ℤ × Reader → Read Num
  whole_of (z, r) = ok (whole z, r)

  -- NaN, by its pattern
  abbrev not_a_number : Num
  not_a_number = float (0x7f ∷ 0xf8 ∷ 0 ∷ 0 ∷ 0 ∷ 0 ∷ 0 ∷ 0 ∷ [])

  unfoldable pub try_number : Reader → Read Num
  unfolding int float_at
  try_number r = do
    need 1 r
    let b = byte r 0
    if leb b 0x7f
        then ok (whole (pos b), advance 1 r)
        else if leb 0xe0 b
        then ok (whole (negsuc (255 - b)), advance 1 r)
        else if leb 0xcc b && leb b 0xd3
        then (do z ← int r; whole_of z)
        else if b == 0xca || b == 0xcb
        then float_at r
        else ok (not_a_number, r)

  unfoldable pub str : Reader → Read Key
  unfolding str_header
  str r = do (n, r') ← str_header r; need n r'; ok (v.utf8_decode (bytes r' 0 n), advance n r')

  abbrev try_text : Option ℕ × Reader → Read (Option Key)
  try_text (none, r) = ok (none, r)
  try_text (some n, r) = do need n r; ok (some (v.utf8_decode (bytes r 0 n)), advance n r)

  unfoldable pub try_str : Reader → Read (Option Key)
  unfolding try_str_header
  try_str r = do o ← try_str_header r; try_text o

  unfoldable pub last_key : Reader → Key
  last_key r = v.utf8_decode (take r.last_key_len (drop r.last_key r.buf))

  -- the seconds and nanoseconds of a form of `size` bytes, which stand i places past the cursor
  unfoldable pub read_spec : ℕ → ℕ → Reader → Result (ℤ × ℕ)
  read_spec size i r =
      let hi = be_from 0 (bytes r i 4) in
      if size == 4
      then ok (pos hi, 0)
      else if size == 8
      then ok (pos (hi % 4 * 4294967296 + be_from 0 (bytes r (i + 4) 4)), hi / 4)
      else if size == 12
      then ok (v.get_int64 (bytes r (i + 4) 8), hi)
      else thrown (timestamp_size size)

  -- the header's length and the size of the form
  unfoldable pub spec_size : Reader → Result (ℕ × ℕ)
  spec_size r = do
    need 1 r
    let b = byte r 0
    if b == 0xd6
        then ok (1, 4)
        else if b == 0xd7
        then ok (1, 8)
        else if b == 0xc7
        then (do need 2 r; ok (2, byte r 1))
        else thrown (expected Kind.ext b)

  -- `EXT_TIMESTAMP` is -1, the byte 255.
  unfoldable pub timestamp : Reader → Read Date
  unfolding read_spec spec_size
  timestamp r = do
    (header, size) ← spec_size r
    need (header + 1 + size) r
    check (byte r header == 255) (not_timestamp (byte r header))
    (sec, nsec) ← read_spec size (header + 1) r
    check (leb nsec 999999999) malformed_timestamp
    ok (date_of (millis sec nsec), advance (header + 1 + size) r)

  abbrev some_date : Date × Reader → Read (Option Date)
  some_date (d, r) = ok (some d, r)

  unfoldable pub try_timestamp : Reader → Read (Option Date)
  unfolding timestamp
  try_timestamp r = do
    need 1 r
    let b = byte r 0
    if b == 0xd6 || b == 0xd7 || b == 0xc7 then (do d ← timestamp r; some_date d) else ok (none, r)
