-- ===== src/Wire/Checksum.antt =====
-- The checksums of a snapshot's blob: client/ts/src/checksum.ts.
use Prim.Native.Nat.{bit_xor}
use phaselock.Prelude.{
  ℕ, zero, suc, ◌+◌, ◌-◌, ◌*◌, ◌/◌, ◌%◌, ◌<◌, ◌≡◌, refl, List, [], ◌∷◌, ◌++◌, Bool, true, false,
  ◌&&◌, if◌then◌else◌, leb, ◌==◌, arith, drop, length, get_or, Option, none, some,
}
use phaselock.Keys.{Key}
use phaselock.Wire.Hex.{hex_digit, hex_pair, hex_value, hex_value-digit}

-- eight steps of an entry of the table
unfoldable pub crc_bits : ℕ → ℕ → ℕ
crc_bits zero c = c
crc_bits (suc k) c = crc_bits k (if c % 2 == 1 then bit_xor 0x82f63b78 (c / 2) else c / 2)

-- the entries from i on
unfoldable pub crc_entries : ℕ → ℕ → List ℕ
unfolding crc_bits
crc_entries zero i = []
crc_entries (suc n) i = crc_bits 8 i ∷ crc_entries n (i + 1)

unfoldable pub crc_table : List ℕ
unfolding crc_entries
crc_table = crc_entries 256 0

-- `~c >>> 0`
abbrev pub complement : ℕ → ℕ
complement c = 0xffffffff - c

unfoldable pub crc_loop : List ℕ → List ℕ → ℕ → ℕ
crc_loop table [] c = c
crc_loop table (b ∷ bytes) c =
    crc_loop table bytes (bit_xor (get_or table (bit_xor c b % 256) 0) (c / 256))

unfoldable pub crc32c : List ℕ → ℕ → ℕ
unfolding crc_table crc_loop
crc32c bytes crc = complement (crc_loop crc_table bytes (complement crc))

-- the four limbs of 16 bits, the low one first
pub record Fnv64 : Type 0 where
  pub h0 : ℕ
  pub h1 : ℕ
  pub h2 : ℕ
  pub h3 : ℕ

abbrev pub new_fnv : Fnv64
new_fnv = record { h0 = 0x2325; h1 = 0x8422; h2 = 0x9ce4; h3 = 0xcbf2 }

-- the multiplication by 0x1b3 + 2^40: shifts are by 8 bits, and `|` joins bits that do not meet
unfoldable pub multiply : Fnv64 → Fnv64
multiply f =
    let t0 = f.h0 * 0x1b3 in
    let t1 = f.h1 * 0x1b3 + t0 / 65536 in
    let t2 = f.h2 * 0x1b3 + f.h0 * 256 % 65536 + t1 / 65536 in
    let t3 = f.h3 * 0x1b3 + (f.h0 / 256 + f.h1 * 256) % 65536 + t2 / 65536 in
    record { h0 = t0 % 65536; h1 = t1 % 65536; h2 = t2 % 65536; h3 = t3 % 65536 }

unfoldable pub update : List ℕ → Fnv64 → Fnv64
unfolding multiply
update [] f = f
update (b ∷ bytes) f = update bytes (multiply (record f { h0 = bit_xor f.h0 b }))

abbrev bytes_of : ℕ → List ℕ
bytes_of h = (h / 256) ∷ (h % 256) ∷ []

unfoldable pub digest : Fnv64 → List ℕ
digest f = bytes_of f.h3 ++ (bytes_of f.h2 ++ (bytes_of f.h1 ++ bytes_of f.h0))

abbrev hex_text : List ℕ → Key
hex_text [] = []
hex_text (b ∷ bs) = hex_pair b ++ hex_text bs

unfoldable pub state : Fnv64 → Key
unfolding digest
state f = hex_text (digest f)

-- a digit of `[0-9a-f]`
abbrev is_lower_hex : ℕ → Bool
is_lower_hex c = if leb c b'9' then leb b'0' c else leb b'a' c && leb c b'f'

abbrev all_lower_hex : Key → Bool
all_lower_hex [] = true
all_lower_hex (c ∷ s) = is_lower_hex c && all_lower_hex s

-- `parseInt(s, 16)` of four digits
abbrev limb : Key → ℕ
limb s = let d = λ (i : ℕ). hex_value (get_or s i 0) in ((d 0 * 16 + d 1) * 16 + d 2) * 16 + d 3

-- `none` is the error "bad FNV-1a 64 state"
unfoldable pub resume : Key → Option Fnv64
resume s =
    if length s == 16 && all_lower_hex s
    then some
        (record { h0 = limb (drop 12 s); h1 = limb (drop 8 s); h2 = limb (drop 4 s); h3 = limb s })
    else none

unfoldable pub same_bytes : List ℕ → List ℕ → Bool
same_bytes [] [] = true
same_bytes [] (y ∷ b) = false
same_bytes (x ∷ a) [] = false
same_bytes (x ∷ a) (y ∷ b) = x == y && same_bytes a b

-- the number that four limbs stand for
abbrev pub value : Fnv64 → ℕ
value f = f.h0 + f.h1 * 65536 + f.h2 * 4294967296 + f.h3 * 281474976710656

-- A step of Fnv64 on four limbs of 16 bits multiplies the number that they stand for by
-- 0x100000001b3, modulo 2^64.
pub value-multiply :
    (f : Fnv64)
    → f.h0 < 65536
    → f.h1 < 65536
    → f.h2 < 65536
    → f.h3 < 65536
    → value (multiply f) ≡ value f * 0x100000001b3 % 18446744073709551616
unfolding multiply
value-multiply f a b c d = omega arith

is_lower_hex-digit : (n : ℕ) → n < 16 → is_lower_hex (hex_digit n) ≡ true
is_lower_hex-digit n h = ground arith

-- the digits of one limb
abbrev limb_text : ℕ → Key
limb_text h = hex_text (bytes_of h)

limb-text : (h : ℕ) (s : Key) → h < 65536 → limb (limb_text h ++ s) ≡ h
limb-text h s k =
    let a = hex_value-digit (h / 256 / 16) (omega arith) in
    let b = hex_value-digit (h / 256 % 16) (omega arith) in
    let c = hex_value-digit (h % 256 / 16) (omega arith) in
    let d = hex_value-digit (h % 256 % 16) (omega arith) in rw (a, b, c, d) (omega arith)

lower-text :
    (h : ℕ) (s : Key) → h < 65536 → all_lower_hex s ≡ true → all_lower_hex (limb_text h ++ s) ≡ true
lower-text h s k e =
    let a = is_lower_hex-digit (h / 256 / 16) (omega arith) in
    let b = is_lower_hex-digit (h / 256 % 16) (omega arith) in
    let c = is_lower_hex-digit (h % 256 / 16) (omega arith) in
    let d = is_lower_hex-digit (h % 256 % 16) (omega arith) in rw (a, b, c, d) e

-- A state of 16-bit limbs written as hexadecimal digits is resumed from them.
pub resume-state :
    (f : Fnv64)
    → f.h0 < 65536
    → f.h1 < 65536
    → f.h2 < 65536
    → f.h3 < 65536
    → resume (state f) ≡ some f
unfolding resume state digest
resume-state f a b c d =
    let t0 = limb_text f.h0 in
    let t1 = limb_text f.h1 ++ t0 in
    let t2 = limb_text f.h2 ++ t1 in
    let low = lower-text f.h0 [] a refl in
    let all = lower-text f.h3 t2 d (lower-text f.h2 t1 c (lower-text f.h1 t0 b low)) in
    rw (all, limb-text f.h3 t2 d, limb-text f.h2 t1 c, limb-text f.h1 t0 b, limb-text f.h0 [] a)
      refl
