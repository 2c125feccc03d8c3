-- ===== src/Msgpack/Measure.antt =====
-- `measure` of client/ts/src/msgpack.ts, which finds the end of a value and decodes nothing, and
-- `skip`, `view` and `raw` of `Reader`, which stand on it.
pub mod Fuel
pub mod Rounds
pub mod Ends
pub mod Bounds
use phaselock.Prelude.{
  ℕ, zero, suc, ◌+◌, ◌-◌, ◌*◌, ◌/◌, ◌%◌, List, [], ◌∷◌, ◌++◌, Bool, true, false, ◌&&◌, ◌||◌,
  if◌then◌else◌, ltb, leb, ◌==◌, Option, none, some, take, drop, length, get_or,
}
use phaselock.Msgpack.{Error, truncated, invalid_byte, Result, ok, thrown, ◌>>=◌, ◌>>◌, check}
use phaselock.Msgpack.Bytes.{be}
use phaselock.Msgpack.Reader.{Reader, Read, seek}

-- what a length counts
pub data Body : Type 0 where
  bytes array map : Body

-- what the first byte tells: the variables of one round of the loop
pub record Head : Type 0 where
  pub header : ℕ
  pub payload : ℕ
  pub children : ℕ
  pub len_bytes : ℕ
  pub body : Body

-- a head with a fixed payload; its children
abbrev pub fixed : ℕ → Head
fixed payload = record {
  header = 1;
  payload = payload;
  children = 0;
  len_bytes = 0;
  body = Body.bytes;
}

abbrev pub parent : ℕ → Head
parent children = record {
  header = 1;
  payload = 0;
  children = children;
  len_bytes = 0;
  body = Body.bytes;
}

-- a head whose length stands in the bytes that follow
abbrev pub sized : ℕ → ℕ → Body → Head
sized header len_bytes body = record {
  header = header;
  payload = 0;
  children = 0;
  len_bytes = len_bytes;
  body = body;
}

-- from 0xc0 to 0xdf
unfoldable pub long_head : ℕ → Option Head
long_head b =
    if b == 0xc0 || b == 0xc2 || b == 0xc3
    then some (fixed 0)
    else if b == 0xc4 || b == 0xd9
    then some (sized 1 1 Body.bytes)
    else if b == 0xc5 || b == 0xda
    then some (sized 1 2 Body.bytes)
    else if b == 0xc6 || b == 0xdb
    then some (sized 1 4 Body.bytes)
    else if b == 0xc7
    then some (sized 3 1 Body.bytes)
    else if b == 0xc8
    then some (sized 4 2 Body.bytes)
    else if b == 0xc9
    then some (sized 6 4 Body.bytes)
    else if b == 0xca
    then some (fixed 4)
    else if b == 0xcb
    then some (fixed 8)
    else if b == 0xcc || b == 0xd0
    then some (fixed 1)
    else if b == 0xcd || b == 0xd1
    then some (fixed 2)
    else if b == 0xce || b == 0xd2
    then some (fixed 4)
    else if b == 0xcf || b == 0xd3
    then some (fixed 8)
    else if b == 0xd4
    then some (fixed 2)
    else if b == 0xd5
    then some (fixed 3)
    else if b == 0xd6
    then some (fixed 5)
    else if b == 0xd7
    then some (fixed 9)
    else if b == 0xd8
    then some (fixed 17)
    else if b == 0xdc
    then some (sized 1 2 Body.array)
    else if b == 0xdd
    then some (sized 1 4 Body.array)
    else if b == 0xde
    then some (sized 1 2 Body.map)
    else if b == 0xdf
    then some (sized 1 4 Body.map)
    else none

unfoldable pub head_of : ℕ → Option Head
unfolding long_head
head_of b =
    if leb b 0x7f || leb 0xe0 b
    then some (fixed 0)
    else if leb b 0x8f
    then some (parent (b % 16 * 2))
    else if leb b 0x9f
    then some (parent (b % 16))
    else if leb b 0xbf
    then some (fixed (b % 32))
    else long_head b

-- the head with the length n that was read
abbrev pub with_length : Head → Body → ℕ → Head
with_length h Body.bytes n = record h {
  payload = n;
  header = if h.header == 1 then 1 + h.len_bytes else h.header;
}
with_length h Body.array n = record h {
  children = n;
  header = if h.header == 1 then 1 + h.len_bytes else h.header;
}
with_length h Body.map n = record h {
  children = n * 2;
  header = if h.header == 1 then 1 + h.len_bytes else h.header;
}

-- the cursor past one head and its payload, with the children that stand there
abbrev pub pass : ℕ → ℕ → Head → Option (ℕ × ℕ)
pass pos end h =
    let next = pos + (h.header + h.payload) in
    if leb next end then some (next, h.children) else none

unfoldable pub read_head : List ℕ → ℕ → ℕ → Head → Option (ℕ × ℕ)
unfolding be
read_head buf pos end h =
    if h.len_bytes == 0
    then pass pos end h
    else if leb (pos + 1 + h.len_bytes) end
    then pass pos end (with_length h h.body (be buf (pos + 1) h.len_bytes))
    else none

abbrev pub known : List ℕ → ℕ → ℕ → ℕ → Option Head → Result (Option (ℕ × ℕ))
known buf pos end b none = thrown (invalid_byte b pos)
known buf pos end b (some h) = ok (read_head buf pos end h)

-- One round: `none` when the buffer ends within the head or its payload.
unfoldable pub round : List ℕ → ℕ → ℕ → Result (Option (ℕ × ℕ))
unfolding head_of read_head
round buf pos end = let b = get_or (drop pos buf) 0 0 in known buf pos end b (head_of b)

abbrev pub more : (ℕ → ℕ → Result (Option ℕ)) → ℕ → Option (ℕ × ℕ) → Result (Option ℕ)
more again pending none = ok none
more again pending (some (pos, children)) = again pos (pending + children - 1)

-- The loop, with fuel for the bytes that are left: each round passes one at least. `none` is -1.
unfoldable pub measure_loop : ℕ → List ℕ → ℕ → ℕ → ℕ → Result (Option ℕ)
unfolding round
measure_loop zero buf pos end pending = ok (if pending == 0 then some pos else none)
measure_loop (suc fuel) buf pos end pending =
    let rest = round buf pos end >>= more (λ (p q : ℕ). measure_loop fuel buf p end q) pending in
    if pending == 0 then ok (some pos) else if leb end pos then ok none else rest

unfoldable pub measure : List ℕ → ℕ → ℕ → Result (Option ℕ)
unfolding measure_loop
measure buf pos end = measure_loop (end - pos) buf pos end 1

abbrev pub whole_end : Option ℕ → Result ℕ
whole_end none = thrown truncated
whole_end (some end) = ok end

unfoldable pub skip : Reader → Result Reader
unfolding measure seek
skip r = do o ← measure r.buf r.at r.end; end ← whole_end o; ok (seek end r)

-- `subarray(pos, end)`; `raw` is its copy
unfoldable pub view : Reader → Read (List ℕ)
unfolding measure seek
view r = do
  o ← measure r.buf r.at r.end
  end ← whole_end o
  ok (take (end - r.at) (drop r.at r.buf), seek end r)

-- `slice(pos, end)`, which copies where `view` shares
unfoldable pub raw : Reader → Read (List ℕ)
unfolding view
raw r = view r
