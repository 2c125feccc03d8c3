-- ===== src/Msgpack/Reader.antt =====
-- The cursor of client/ts/src/msgpack.ts: `Reader`, its state and its reads of headers. A read returns
-- what it read with the reader that it leaves; one that throws leaves no reader.
pub mod Laws
pub mod Scalars
pub mod Ints
pub mod Headers
pub mod Texts
pub mod Times
pub mod Kinds
pub mod KeyIndex
use phaselock.Prelude.{
  ℕ, zero, suc, ◌+◌, ◌-◌, ◌*◌, ◌/◌, ◌%◌, ◌≤◌, ◌<◌, ◌≡◌, List, [], ◌∷◌, ◌++◌, Bool, true, false,
  ◌&&◌, ◌||◌, not, if◌then◌else◌, ltb, leb, ◌==◌, ℤ, pos, negsuc, Option, none, some, take, drop,
  length, get_or, get_elem?,
}
use phaselock.Msgpack.{
  Kind, Error, expected, truncated, invalid_byte, no_key, Result, ok, thrown, ◌>>=◌, ◌>>◌, check,
}
use phaselock.Msgpack.Bytes.{be_from}

-- The cursor is `at`, and `end` stands past the last byte of what is read.
pub record Reader : Type 0 where
  pub buf : List ℕ
  pub at : ℕ
  pub end : ℕ
  pub last_key : ℕ
  pub last_key_len : ℕ

abbrev pub Read : Type 0 → Type 0
Read A = Result (A × Reader)

-- `new Reader(buf, pos, end)`
unfoldable pub new_reader : List ℕ → ℕ → ℕ → Reader
new_reader buf at end = record { buf = buf; at = at; end = end; last_key = 0; last_key_len = 0 }

unfoldable pub reset : List ℕ → ℕ → ℕ → Reader → Reader
reset buf at end r = record r { buf = buf; at = at; end = end }

abbrev pub done : Reader → Bool
done r = leb r.end r.at

-- `set pos`
unfoldable pub seek : ℕ → Reader → Reader
seek p r = record r { at = p }

-- `this.#pos += n`
abbrev pub advance : ℕ → Reader → Reader
advance n r = record r { at = r.at + n }

-- the byte i places past the cursor
abbrev pub byte : Reader → ℕ → ℕ
byte r i = get_or (drop r.at r.buf) i 0

-- n bytes from i places past the cursor
abbrev pub bytes : Reader → ℕ → ℕ → List ℕ
bytes r i n = take n (drop i (drop r.at r.buf))

abbrev pub need : ℕ → Reader → Result (Unit {0})
need n r = check (leb (r.at + n) r.end) truncated

-- from 0xc0 to 0xdf
unfoldable pub kind_of_byte : ℕ → Option Kind
kind_of_byte b =
    if b == 0xc0
    then some Kind.nil
    else if b == 0xc2 || b == 0xc3
    then some Kind.bool
    else if b == 0xc4 || b == 0xc5 || b == 0xc6
    then some Kind.bin
    else if b == 0xc7 || b == 0xc8 || b == 0xc9 || (leb 0xd4 b && leb b 0xd8)
    then some Kind.ext
    else if b == 0xca || b == 0xcb
    then some Kind.float
    else if leb 0xcc b && leb b 0xd3
    then some Kind.int
    else if b == 0xd9 || b == 0xda || b == 0xdb
    then some Kind.str
    else if b == 0xdc || b == 0xdd
    then some Kind.array
    else if b == 0xde || b == 0xdf
    then some Kind.map
    else none

unfoldable pub kind_at : ℕ → Option Kind
unfolding kind_of_byte
kind_at b =
    if leb b 0x7f || leb 0xe0 b
    then some Kind.int
    else if leb b 0x8f
    then some Kind.map
    else if leb b 0x9f
    then some Kind.array
    else if leb b 0xbf
    then some Kind.str
    else kind_of_byte b

abbrev found : Reader → Option Kind → Result Kind
found r (some k) = ok k
found r none = thrown (invalid_byte (byte r 0) r.at)

unfoldable pub kind : Reader → Result Kind
unfolding kind_at
kind r = do need 1 r; found r (kind_at (byte r 0))

-- `#length`: the bytes are read where the cursor stood
unfoldable pub read_length : ℕ → Reader → Read ℕ
read_length n r = do need (1 + n) r; ok (be_from 0 (bytes r 1 n), advance (1 + n) r)

-- `-1` of the source is `none`.
abbrev some_length : ℕ → Reader → Read (Option ℕ)
some_length n r = do (k, r') ← read_length n r; ok (some k, r')

abbrev or_expected : Kind → Option ℕ × Reader → Read ℕ
or_expected k (some n, r') = ok (n, r')
or_expected k (none, r') = thrown (expected k (byte r' 0))

unfoldable pub array_header : Reader → Read ℕ
unfolding read_length
array_header r = do
  need 1 r
  let b = byte r 0
  if leb 0x90 b && leb b 0x9f
      then ok (b % 16, advance 1 r)
      else if b == 0xdc
      then read_length 2 r
      else if b == 0xdd
      then read_length 4 r
      else thrown (expected Kind.array b)

unfoldable pub map_header : Reader → Read ℕ
unfolding read_length
map_header r = do
  need 1 r
  let b = byte r 0
  if leb 0x80 b && leb b 0x8f
      then ok (b % 16, advance 1 r)
      else if b == 0xde
      then read_length 2 r
      else if b == 0xdf
      then read_length 4 r
      else thrown (expected Kind.map b)

unfoldable pub try_str_header : Reader → Read (Option ℕ)
unfolding read_length
try_str_header r = do
  need 1 r
  let b = byte r 0
  if leb 0xa0 b && leb b 0xbf
      then ok (some (b % 32), advance 1 r)
      else if b == 0xd9
      then some_length 1 r
      else if b == 0xda
      then some_length 2 r
      else if b == 0xdb
      then some_length 4 r
      else ok (none, r)

unfoldable pub str_header : Reader → Read ℕ
unfolding try_str_header
str_header r = do o ← try_str_header r; or_expected Kind.str o

unfoldable pub try_map_header : Reader → Read (Option ℕ)
unfolding read_length
try_map_header r = do
  need 1 r
  let b = byte r 0
  if leb 0x80 b && leb b 0x8f
      then ok (some (b % 16), advance 1 r)
      else if b == 0xde
      then some_length 2 r
      else if b == 0xdf
      then some_length 4 r
      else ok (none, r)

unfoldable pub try_array_header : Reader → Read (Option ℕ)
unfolding read_length
try_array_header r = do
  need 1 r
  let b = byte r 0
  if leb 0x90 b && leb b 0x9f
      then ok (some (b % 16), advance 1 r)
      else if b == 0xdc
      then some_length 2 r
      else if b == 0xdd
      then some_length 4 r
      else ok (none, r)
