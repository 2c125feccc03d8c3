-- ===== src/Msgpack/Forms.antt =====
-- The bytes that each operation of `Writer` in client/ts/src/msgpack.ts puts at its cursor. `fix | n`
-- is `fix + n`, since the bits of n are clear in fix.
use phaselock.Prelude.{
  ℕ, ◌+◌, ◌*◌, ◌/◌, ◌%◌, List, [], ◌∷◌, ◌++◌, Bool, ◌&&◌, if◌then◌else◌, ltb, leb, ◌==◌, ℤ, pos,
  negsuc, length,
}
use phaselock.Keys.{Key}
use phaselock.Msgpack.{Vendor, Date, time, invalid}
use phaselock.Msgpack.Bytes.{u16, u32, word}

unfoldable pub header : ℕ → ℕ → ℕ → List ℕ
header n fix wide =
    if ltb n 16 then (fix + n) ∷ [] else if ltb n 0x10000 then wide ∷ u16 n else (wide + 1) ∷ u32 n

unfoldable pub array_header : ℕ → List ℕ
unfolding header
array_header n = header n 0x90 0xdc

unfoldable pub map_header : ℕ → List ℕ
unfolding header
map_header n = header n 0x80 0xde

unfoldable pub bool : Bool → List ℕ
bool b = (if b then 0xc3 else 0xc2) ∷ []

abbrev pub nil : List ℕ
nil = 0xc0 ∷ []

-- `setFloat64` of the number with these bytes
abbrev pub float64 : List ℕ → List ℕ
float64 bs = 0xcb ∷ bs

unfoldable pub bin : List ℕ → List ℕ
bin b =
    let n = length b in
    let head =
      if ltb n 0x100 then 0xc4 ∷ n ∷ [] else if ltb n 0x10000 then 0xc5 ∷ u16 n else 0xc6 ∷ u32 n in
    head ++ b

unfoldable pub str_header : ℕ → List ℕ
str_header n =
    if ltb n 32
    then (0xa0 + n) ∷ []
    else if ltb n 0x100
    then 0xd9 ∷ n ∷ []
    else if ltb n 0x10000
    then 0xda ∷ u16 n
    else 0xdb ∷ u32 n

module _ (v : Vendor) where
  unfoldable pub str : Key → List ℕ
  unfolding str_header
  str s = str_header (v.utf8_count s) ++ v.utf8_encode s

  -- from 0 up, and below 0: `negsuc n` is -n - 1
  unfoldable pub int : ℤ → List ℕ
  int (pos n) =
      if ltb n 0x80
      then n ∷ []
      else if ltb n 0x100
      then 0xcc ∷ n ∷ []
      else if ltb n 0x10000
      then 0xcd ∷ u16 n
      else if ltb n 0x100000000
      then 0xce ∷ u32 n
      else 0xcf ∷ v.put_uint64 n
  int (negsuc n) =
      if ltb n 0x20
      then word 0x100 (negsuc n) ∷ []
      else if ltb n 0x80
      then 0xd0 ∷ word 0x100 (negsuc n) ∷ []
      else if ltb n 0x8000
      then 0xd1 ∷ u16 (word 0x10000 (negsuc n))
      else if ltb n 0x80000000
      then 0xd2 ∷ u32 (word 0x100000000 (negsuc n))
      else 0xd3 ∷ v.put_int64 (negsuc n)

  -- the form of 12 bytes, for seconds below 0 or past 34 bits
  abbrev pub long_spec : ℤ → ℕ → List ℕ
  long_spec sec nsec = 0xc7 ∷ 12 ∷ 255 ∷ (u32 nsec ++ v.put_int64 sec)

  -- `(nsec << 2) | (sec / 0x100000000)`: the seconds have two bits past 32
  unfoldable pub spec : ℤ → ℕ → List ℕ
  spec (negsuc s) nsec = long_spec (negsuc s) nsec
  spec (pos sec) nsec =
      if leb sec 0x3ffffffff
      then (if nsec == 0 && leb sec 0xffffffff
          then 0xd6 ∷ 255 ∷ u32 sec
          else 0xd7 ∷ 255 ∷ (u32 (nsec * 4 + sec / 0x100000000) ++ u32 (sec % 0x100000000)))
      else long_spec (pos sec) nsec

  unfoldable pub timestamp : ℤ → List ℕ
  unfolding spec
  timestamp ms = let (sec, nsec) = v.time_spec ms in spec sec nsec

  -- of an Invalid Date both parts are NaN, which is stored as 0
  abbrev pub date : Date → List ℕ
  date (time ms) = timestamp ms
  date invalid = 0xc7 ∷ 12 ∷ 255 ∷ (u32 0 ++ (u32 0 ++ u32 0))
