-- ===== src/Wire/Chunks/Stream.antt =====
-- `ByteReader` over the stream of its unread bytes: refills keep it, and reads take its front.
use mathlib.Core.List.{flatten}
use phaselock.Prelude.{
  ℕ, zero, suc, ◌+◌, ◌-◌, ◌*◌, ◌≤◌, ◌≡◌, refl, List, [], ◌∷◌, ◌++◌, true, if◌then◌else◌, if_elim,
  ltb, leb, take, drop, length, arith, length-append, length-take, length-drop, ap, ◌∙◌, sym,
}
use phaselock.Msgpack.Reader.Laws.{take-append_self}
use phaselock.Msgpack.Writer.{zeros, store, overwrite}
use phaselock.Msgpack.Writer.Laws.{length-zeros, length-store, take-store}
use phaselock.Wire.Chunks.{ByteReader, tail, offset, make_room, append}

-- the bytes of the body that are not read
abbrev pub unread : ByteReader → List ℕ
unread b = tail b ++ flatten b.body

-- what is buffered lies in the buffer, and a body that ended has no more chunks
pub record IsValid (b : ByteReader) : Type 0 where
  pub order : b.at ≤ b.len
  pub inside : b.len ≤ length b.buf
  pub over : b.eof ≡ true → b.body ≡ []

take-nil : (n : ℕ) → take {A = ℕ} n [] ≡ []
take-nil zero = refl
take-nil (suc n) = refl

pub drop-take : (a m : ℕ) (xs : List ℕ) → drop a (take m xs) ≡ take (m - a) (drop a xs)
drop-take zero m xs = ap (λ (k : ℕ). take k xs) (omega arith)
drop-take (suc a) zero xs = let e : 0 - suc a ≡ 0 = omega arith in rw e refl
drop-take (suc a) (suc m) [] = sym (take-nil (suc m - suc a))
drop-take (suc a) (suc m) (x ∷ xs) =
    let e : suc m - suc a ≡ m - a = omega arith in rw e (drop-take a m xs)

pub drop-append : (a : ℕ) (xs ys : List ℕ) → a ≤ length xs → drop a (xs ++ ys) ≡ drop a xs ++ ys
drop-append zero xs ys h = refl
drop-append (suc a) [] ys h = absurd (omega (arith, h))
drop-append (suc a) (x ∷ xs) ys h = drop-append a xs ys (omega (arith, h))

pub length-tail : (b : ByteReader) → IsValid b → length (tail b) ≡ b.len - b.at
length-tail b h =
    omega (
      arith,
      length-take {0} (b.len - b.at) (drop b.at b.buf),
      length-drop {0} b.at b.buf,
      h.inside,
    )

-- room for n bytes, and the same bytes to read
record Roomy (n : ℕ) (b b' : ByteReader) : Type 0 where
  valid : IsValid b'
  room : b'.len + n ≤ length b'.buf
  same : tail b' ≡ tail b
  at_same : offset b' ≡ offset b
  body_same : b'.body ≡ b.body
  eof_same : b'.eof ≡ b.eof

-- what is buffered, moved to the front of a buffer
abbrev moved : List ℕ → ByteReader → ByteReader
moved buf b = record b { buf = buf; base = b.base + b.at; at = 0; len = b.len - b.at }

moved-Roomy :
    (n : ℕ) (b : ByteReader) (buf : List ℕ)
    → IsValid b
    → b.len - b.at + n ≤ length buf
    → take (b.len - b.at) buf ≡ tail b
    → Roomy n b (moved buf b)
unfolding offset
moved-Roomy n b buf h k e =
    let keep : b.len - b.at - 0 ≡ b.len - b.at = omega arith in
    record {
      valid = record { order = omega arith; inside = omega arith; over = h.over };
      room = k;
      same = ap (λ (m : ℕ). take m buf) keep ∙ e;
      at_same = omega arith;
      body_same = refl;
      eof_same = refl;
    }

le-max : (a b : ℕ) → b ≤ (if leb a b then b else a)
le-max a b = ground arith

grown-Roomy :
    (n size : ℕ) (b : ByteReader)
    → IsValid b
    → b.len - b.at + n ≤ size
    → Roomy n b (moved (tail b ++ zeros (size - length (tail b))) b)
grown-Roomy n size b h k =
    let z = zeros (size - length (tail b)) in
    let l = length-tail b h in
    moved-Roomy n b (tail b ++ z) h
      (omega (arith, l, length-append {0} (tail b) z, length-zeros (size - length (tail b))))
      (ap (λ (m : ℕ). take m (tail b ++ z)) (sym l) ∙ take-append_self (tail b) z)

compacted-Roomy :
    (n : ℕ) (b : ByteReader)
    → IsValid b
    → b.len - b.at + n ≤ length b.buf
    → Roomy n b (moved (overwrite b.buf (tail b)) b)
compacted-Roomy n b h k =
    let l = length-tail b h in
    let whole : 0 + length (tail b) ≡ b.len - b.at = omega (arith, l) in
    moved-Roomy n b (overwrite b.buf (tail b)) h (omega (arith, length-store 0 b.buf (tail b))) (
      ap (λ (m : ℕ). take m (overwrite b.buf (tail b))) (sym whole)
      ∙ take-store 0 b.buf (tail b) (omega (arith, l)))

make_room-Roomy : (n : ℕ) (b : ByteReader) → IsValid b → Roomy n b (make_room n b)
unfolding make_room offset
make_room-Roomy n b h =
    if_elim (Roomy n b) (ltb (length b.buf) (b.len + n))
      (λ tight.
        if_elim (λ buf. Roomy n b (moved buf b)) (ltb (length b.buf) ((b.len - b.at) + n))
          (λ wide. grown-Roomy n _ b h (le-max (length b.buf * 2) (b.len - b.at + n)))
          (λ fits. compacted-Roomy n b h (ground arith)))
      (λ loose. record {
        valid = h;
        room = ground arith;
        same = refl;
        at_same = refl;
        body_same = refl;
        eof_same = refl;
      })

-- a chunk follows what was to be read
pub append-tail :
    (value : List ℕ) (b : ByteReader)
    → IsValid b
    → IsValid (append value b)
      × (tail (append value b) ≡ tail b ++ value)
      × (offset (append value b) ≡ offset b)
      × ((append value b).body ≡ b.body)
unfolding append offset
append-tail value b h =
    let r = make_room-Roomy (length value) b h in
    let b' = make_room (length value) b in
    let buf = store b'.len b'.buf value in
    let long = length-store b'.len b'.buf value in
    let total : length (take b'.len b'.buf) ≡ b'.len =
      omega (arith, length-take {0} b'.len b'.buf, r.valid.inside) in
    (
      record {
        order = omega (arith, r.valid.order);
        inside = omega (arith, long, r.room);
        over = λ e. r.body_same ∙ h.over (sym r.eof_same ∙ e);
      },
      sym (drop-take b'.at (b'.len + length value) buf)
          ∙ ap (λ (l : List ℕ). drop b'.at l) (take-store b'.len b'.buf value r.room)
          ∙ drop-append b'.at (take b'.len b'.buf) value (omega (arith, total, r.valid.order))
          ∙ ap (λ (l : List ℕ). l ++ value) (drop-take b'.at b'.len b'.buf ∙ r.same),
      r.at_same,
      r.body_same,
    )
