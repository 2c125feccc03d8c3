-- ===== src/Msgpack.antt =====
-- The MessagePack codec of client/ts/src/msgpack.ts: what its reader and its writer share. Bytes are
-- numbers below 256, and a string is the list of its UTF-16 code units.
--
-- UTF-8, 64-bit integers and the split of a date into seconds and nanoseconds are msgpack-javascript's,
-- a vendored copy, and floats are the language's: they are the parameters `Vendor`, and `VendorLaws`
-- says what the codec relies on.
pub mod Value
pub mod Bytes
pub mod Reader
pub mod Any
pub mod Forms
pub mod Encode
pub mod Writer
pub mod RoundTrip
pub mod Measure
use phaselock.Prelude.{
  zero, suc, sub_ℕ, ℕ, ◌+◌, ◌*◌, ◌/◌, ◌%◌, ◌≤◌, ◌<◌, ◌≡◌, List, [], ◌∷◌, Bool, true, false,
  if◌then◌else◌, ℤ, pos, negsuc, leb, ltb, ◌==◌, All, length, ◌&&◌, ◌||◌, not,
}
use phaselock.Keys.{Key}
use phaselock.Keys.Order.{IsKey}

-- the kinds of msgpack value a cursor can be on
pub data Kind : Type 0 where
  nil bool int float str bin array map ext : Kind

-- a number: a safe integer, or any other by the 8 bytes of its double
pub data Num : Type 0 where
  whole : ℤ → Num
  float : List ℕ → Num

-- the errors thrown
pub data Error : Type 0 where
  truncated : Error
  -- another kind was expected than the value that begins with this byte
  expected : Kind → ℕ → Error
  -- a byte that begins no value, and where it stands
  invalid_byte : ℕ → ℕ → Error
  not_timestamp : ℕ → Error
  timestamp_size : ℕ → Error
  malformed_timestamp : Error
  too_deep key_not_string bin_value trailing : Error
  -- `keys[i]` past the end is undefined, and has no length
  no_key : Error
  -- a value with no msgpack form
  no_form : Error
  -- what edits.ts, frames.ts and uuid.ts throw
  no_envelope short_envelope inside_operation empty_frame short_frame bad_uuid : Error
  unknown_lifecycle unknown_opcode : ℤ → Error
  unknown_frame : Key → Error

-- what a call throws, or else returns
pub data Result {ℓ} (A : Type ℓ) : Type ℓ where
  thrown : Error → Result A
  ok : A → Result A

-- A statement, and those after it.
abbrev pub ◌>>=◌ {ℓ κ} : {A : Type ℓ} {B : Type κ} → Result A → (A → Result B) → Result B
thrown problem >>= next = thrown problem
ok value >>= next = next value

-- `if (!test) throw problem`
abbrev pub check : Bool → Error → Result (Unit {0})
check test problem = if test then ok tt else thrown problem

abbrev pub ◌>>◌ {ℓ} : {B : Type ℓ} → Result (Unit {0}) → Result B → Result B
test >> next = test >>= λ done. next

infixl 5 ◌>>=◌ ◌>>◌
-- `setUint64` and `setInt64` give 8 bytes that `getUint64` and `getInt64` read; a date's milliseconds
-- are split into seconds and nanoseconds.
pub record Vendor : Type 0 where
  pub put_uint64 : ℕ → List ℕ
  pub get_uint64 : List ℕ → ℕ
  pub put_int64 : ℤ → List ℕ
  pub get_int64 : List ℕ → ℤ
  pub utf8_count : Key → ℕ
  pub utf8_encode : Key → List ℕ
  pub utf8_decode : List ℕ → Key
  -- `encodeDateToTimeSpec`, from a date's milliseconds
  pub time_spec : ℤ → ℤ × ℕ
  -- a `DataView`'s `getFloat32` and `getFloat64`
  pub get_float32 : List ℕ → Num
  pub get_float64 : List ℕ → Num

-- `Number.isSafeInteger`, as a bound: the magnitude is below 2^53
abbrev pub IsSafe : ℤ → Type 0
IsSafe (pos n) = n < 9007199254740992
IsSafe (negsuc n) = suc n < 9007199254740992

-- `sec * 1e3 + Math.floor(nsec / 1e6)`
unfoldable pub millis : ℤ → ℕ → ℤ
millis (pos s) nsec = pos (s * 1000 + nsec / 1000000)
millis (negsuc s) nsec = sub_ℕ (nsec / 1000000) (suc s * 1000)

-- A Date's time value: the milliseconds since 1970, or none for an Invalid Date.
pub data Date : Type 0 where
  time : ℤ → Date
  invalid : Date

-- at most 8.64e15 milliseconds before or after 1970
abbrev pub in_range : ℤ → Bool
in_range (pos n) = leb n 8640000000000000
in_range (negsuc n) = leb (suc n) 8640000000000000

-- `new Date(ms)`
abbrev pub date_of : ℤ → Date
date_of ms = if in_range ms then time ms else invalid

-- the bounds of the halves of a surrogate pair
abbrev pub is_high : ℕ → Bool
is_high u = leb 0xd800 u && ltb u 0xdc00

abbrev pub is_low : ℕ → Bool
is_low u = leb 0xdc00 u && ltb u 0xe000

-- `isWellFormed`: no surrogate stands alone
abbrev pub is_well_formed : Key → Bool
is_well_formed [] = true
is_well_formed (c ∷ []) = not (is_high c || is_low c)
is_well_formed (c ∷ d ∷ s) =
    let after = is_well_formed s in
    let next = is_well_formed (d ∷ s) in
    if is_high c then is_low d && after else not (is_low c) && next

-- U+FEFF in front, which a decoder takes for a byte order mark
abbrev pub is_marked : Key → Bool
is_marked [] = false
is_marked (c ∷ s) = c == 0xfeff

-- The strings that UTF-8 keeps: msgpack-javascript encodes up to 50 units itself, and more by a
-- TextEncoder, which replaces a lone surrogate; past 200 bytes a TextDecoder drops a mark.
abbrev pub IsString : Key → Type 0
IsString s = IsKey s × ((leb (length s) 50 || (is_well_formed s && not (is_marked s))) ≡ true)

pub record VendorLaws (v : Vendor) : Type 0 where
  pub length-uint64 : (n : ℕ) → length (v.put_uint64 n) ≡ 8
  pub get-put_uint64 : (n : ℕ) → n < 9007199254740992 → v.get_uint64 (v.put_uint64 n) ≡ n
  pub length-int64 : (z : ℤ) → length (v.put_int64 z) ≡ 8
  pub get-put_int64 : (z : ℤ) → IsSafe z → v.get_int64 (v.put_int64 z) ≡ z
  pub length-utf8 : (s : Key) → length (v.utf8_encode s) ≡ v.utf8_count s
  pub decode-utf8 : (s : Key) → IsString s → v.utf8_decode (v.utf8_encode s) ≡ s
  pub spec_nanos : (ms : ℤ) → in_range ms ≡ true → (v.time_spec ms).1 < 1000000000
  pub spec_safe : (ms : ℤ) → in_range ms ≡ true → IsSafe (v.time_spec ms).0
  pub spec_millis :
      (ms : ℤ) → in_range ms ≡ true → millis (v.time_spec ms).0 (v.time_spec ms).1 ≡ ms
