-- ===== src/Wire/Chunks.antt =====
-- `ByteReader` of client/ts/src/bytes.ts: a buffer over the chunks of a response's body. The body is
-- the list of the chunks that are still to come; a wait for the network is a step over it.
pub mod Stream
pub mod Refills
use phaselock.Prelude.{
  ℕ, zero, suc, ◌+◌, ◌-◌, ◌*◌, List, [], ◌∷◌, ◌++◌, Bool, true, false, not, if◌then◌else◌, ltb, leb,
  ◌==◌, Option, none, some, take, drop, length, get_or,
}
use phaselock.Msgpack.{Result, ok, thrown, ◌>>=◌}
use phaselock.Msgpack.Measure.{measure}
use phaselock.Msgpack.Writer.{zeros, store, overwrite}

pub record ByteReader : Type 0 where
  pub buf : List ℕ
  pub at : ℕ
  pub len : ℕ
  -- bytes discarded from the front of the buffer, plus the offset the body started at
  pub base : ℕ
  pub eof : Bool
  pub body : List (List ℕ)

unfoldable pub new_byte_reader : List (List ℕ) → ℕ → ByteReader
new_byte_reader body base = record {
  buf = zeros 65536;
  at = 0;
  len = 0;
  base = base;
  eof = false;
  body = body;
}

unfoldable pub offset : ByteReader → ℕ
offset b = b.base + b.at

unfoldable pub available : ByteReader → ℕ
available b = b.len - b.at

-- the buffered bytes that are not read
abbrev pub tail : ByteReader → List ℕ
tail b = take (b.len - b.at) (drop b.at b.buf)

abbrev max : ℕ → ℕ → ℕ
max a b = if leb a b then b else a

-- the buffer made room in for n bytes more: compacted, or grown
unfoldable pub make_room : ℕ → ByteReader → ByteReader
make_room n b =
    let keep = b.len - b.at in
    let room =
      if ltb (length b.buf) (keep + n)
      then tail b ++ zeros (max (length b.buf * 2) (keep + n) - length (tail b))
      else overwrite b.buf (tail b) in
    if ltb (length b.buf) (b.len + n)
    then record b { buf = room; base = b.base + b.at; at = 0; len = keep }
    else b

-- a chunk put after what is buffered
unfoldable pub append : List ℕ → ByteReader → ByteReader
unfolding make_room
append value b =
    let b' = make_room (length value) b in
    record b' { buf = store b'.len b'.buf value; len = b'.len + length value }

abbrev pub next_chunk : ByteReader → List (List ℕ) → Bool × ByteReader
next_chunk b [] = (false, record b { eof = true })
next_chunk b (value ∷ rest) = (true, append value (record b { body = rest }))

unfoldable pub more : ByteReader → Bool × ByteReader
unfolding append
more b = if b.eof then (false, b) else next_chunk b b.body

-- The loop of `fill`, with as much fuel as chunks are to come; `none` is the error "body ended early".
unfoldable pub fill_loop : ℕ → ℕ → ByteReader → Option ByteReader
unfolding more available
fill_loop zero n b = if ltb (available b) n then none else some b
fill_loop (suc fuel) n b =
    let (read, b') = more b in
    let rest = fill_loop fuel n b' in
    if ltb (available b) n then (if read then rest else none) else some b

unfoldable pub fill : ℕ → ByteReader → Option ByteReader
unfolding fill_loop
fill n b = fill_loop (length b.body) n b

unfoldable pub take_bytes : ℕ → ByteReader → Option (List ℕ × ByteReader)
take_bytes n b =
    if ltb (b.len - b.at) n
    then none
    else some (take n (drop b.at b.buf), record b { at = b.at + n })

-- the loop of `skipBytes`
unfoldable pub skip_loop : ℕ → ℕ → ByteReader → Option ByteReader
unfolding more available
skip_loop zero n b = if ltb (available b) n then none else some (record b { at = b.at + n })
skip_loop (suc fuel) n b =
    let have = available b in
    let (read, b') = more (record b { at = b.len }) in
    let rest = skip_loop fuel (n - have) b' in
    if n == 0
    then some b
    else if leb n have
    then some (record b { at = b.at + n })
    else if read
    then rest
    else none

unfoldable pub skip_bytes : ℕ → ByteReader → Option ByteReader
unfolding skip_loop
skip_bytes n b = skip_loop (length b.body) n b

unfoldable pub peek : ByteReader → Option ℕ
peek b = if leb b.len b.at then none else some (get_or (drop b.at b.buf) 0 0)

abbrev pub taken : ByteReader → Option ℕ → Option (List ℕ) × ByteReader
taken b none = (none, b)
taken b (some end) = (some (take (end - b.at) (drop b.at b.buf)), record b { at = end })

unfoldable pub try_value : ByteReader → Result (Option (List ℕ) × ByteReader)
unfolding measure
try_value b = measure b.buf b.at b.len >>= λ o. ok (taken b o)

abbrev pub from_end : (ℕ → Result (Option ℕ)) → Option ℕ → Result (Option ℕ)
from_end next none = ok none
from_end next (some end) = next end

-- the end of n values from `end` on
unfoldable pub measure_values : ℕ → ByteReader → ℕ → Result (Option ℕ)
unfolding measure
measure_values zero b end = ok (some end)
measure_values (suc n) b end = measure b.buf end b.len >>= from_end (measure_values n b)

unfoldable pub try_values : ℕ → ByteReader → Result (Option (List ℕ) × ByteReader)
unfolding measure_values
try_values n b = measure_values n b b.at >>= λ o. ok (taken b o)
