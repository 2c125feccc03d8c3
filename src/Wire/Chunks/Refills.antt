-- ===== src/Wire/Chunks/Refills.antt =====
-- `more`, `fill`, `take` and `skipBytes` of `ByteReader`, over the stream of its unread bytes.
use mathlib.Core.List.{append_assoc, flatten}
use phaselock.Prelude.{
  ℕ, zero, suc, ◌+◌, ◌-◌, ◌≤◌, ◌<◌, ◌≡◌, refl, List, [], ◌∷◌, ◌++◌, Bool, true, false,
  if◌then◌else◌, if_elim, ltb, leb, ◌==◌, Option, none, some, take, drop, length, arith,
  length-append, length-drop, ap, ◌∙◌, sym, ltb→lt, leb→le,
}
use phaselock.Msgpack.Reader.Laws.{drop-add, drop-append_self}
use phaselock.Wire.Chunks.{
  ByteReader, tail, available, offset, append, more, next_chunk, fill, fill_loop, take_bytes,
  skip_bytes, skip_loop,
}
use phaselock.Wire.Chunks.Stream.{IsValid, unread, append-tail, drop-take, drop-append, length-tail}

-- the same stream, as far read
pub record Kept (b b' : ByteReader) : Type 0 where
  pub valid : IsValid b'
  pub same : unread b' ≡ unread b
  pub at_same : offset b' ≡ offset b

Kept-trans : (a b c : ByteReader) → Kept a b → Kept b c → Kept a c
Kept-trans a b c h k = record {
  valid = k.valid;
  same = k.same ∙ h.same;
  at_same = k.at_same ∙ h.at_same;
}

-- what `more` answers: whether a chunk came, and with it one chunk fewer is to come
pub data Came (b : ByteReader) : Bool × ByteReader → Type 0 where
  over : (b' : ByteReader) → b.body ≡ [] → Kept b b' → Came b (false, b')
  came : (b' : ByteReader) → suc (length b'.body) ≡ length b.body → Kept b b' → Came b (true, b')

next_chunk-Came :
    (b : ByteReader) (body : List (List ℕ)) → IsValid b → b.body ≡ body → Came b (next_chunk b body)
unfolding offset flatten
next_chunk-Came b [] h e = over _ e (record {
  valid = record { order = h.order; inside = h.inside; over = λ _. e };
  same = refl;
  at_same = refl;
})
next_chunk-Came b (value ∷ rest) h e =
    let b1 = record b { body = rest } in
    let open_ = λ (t : b.eof ≡ true). let q : b.body ≡ [] = h.over t in absurd cc in
    let a = append-tail value b1 (record { order = h.order; inside = h.inside; over = open_ }) in
    let b' = append value b1 in
    came b'
      (omega
        (arith, ap (λ (l : List (List ℕ)). length l) a.3, ap (λ (l : List (List ℕ)). length l) e))
      (record {
        valid = a.0;
        same =
            ap (λ (t : List ℕ). t ++ flatten b'.body) a.1
            ∙ ap (λ (l : List (List ℕ)). (tail b ++ value) ++ flatten l) a.3
            ∙ append_assoc (tail b) value (flatten rest)
            ∙ ap (λ (l : List (List ℕ)). tail b ++ flatten l) (sym e);
        at_same = a.2;
      })

pub more-Came : (b : ByteReader) → IsValid b → Came b (more b)
unfolding more offset
more-Came b h =
    if_elim (Came b) b.eof
      (λ e. over b (h.over e) (record { valid = h; same = refl; at_same = refl }))
      (λ e. next_chunk-Came b b.body h refl)

-- What `fill` answers: n bytes are buffered, or the body has not so many.
pub Filled : ℕ → ByteReader → Option ByteReader → Type 0
Filled n b none = length (unread b) < n
Filled n b (some b') = Kept b b' × (n ≤ available b')

length-unread :
    (b : ByteReader) → IsValid b → length (unread b) ≡ available b + length (flatten b.body)
unfolding available
length-unread b h = omega (arith, length-append {0} (tail b) (flatten b.body), length-tail b h)

nil_of-length : (l : List (List ℕ)) → length l ≡ 0 → l ≡ []
nil_of-length [] h = refl
nil_of-length (x ∷ l) h = absurd (omega (arith, h))

short : (b : ByteReader) (n : ℕ) → IsValid b → b.body ≡ [] → available b < n → length (unread b) < n
unfolding flatten
short b n h e k =
    let none_left : length (flatten b.body) ≡ 0 =
      ap (λ (l : List (List ℕ)). length (flatten l)) e in
    omega (arith, length-unread b h, none_left)

Filled-from :
    (n : ℕ) (b b' : ByteReader) (run : Option ByteReader)
    → Kept b b'
    → Filled n b' run
    → Filled n b run
unfolding Filled
Filled-from n b b' none k f = omega (arith, f, ap (λ (l : List ℕ). length l) k.same)
Filled-from n b b' (some c) k f = (Kept-trans b b' c k f.0, f.1)

-- a round of the loop
refill :
    (fuel n : ℕ) (b : ByteReader)
    → IsValid b
    → length b.body ≤ suc fuel
    → available b < n
    → ((b' : ByteReader) → IsValid b' → length b'.body ≤ fuel → Filled n b' (fill_loop fuel n b'))
    → (m : Bool × ByteReader) → Came b m
    → Filled n b (if m.0 then fill_loop fuel n m.1 else none)
unfolding Filled
refill fuel n b h l t again _ (over b' e k) = short b n h e t
refill fuel n b h l t again _ (came b' e k) =
    Filled-from n b b' (fill_loop fuel n b') k (again b' k.valid (omega (arith, e)))

fill_loop-Filled :
    (fuel n : ℕ) (b : ByteReader)
    → IsValid b
    → length b.body ≤ fuel
    → Filled n b (fill_loop fuel n b)
unfolding fill_loop Filled
fill_loop-Filled zero n b h k =
    if_elim (Filled n b) (ltb (available b) n)
      (λ e. short b n h (nil_of-length b.body (omega arith)) (ltb→lt _ _ e))
      (λ e. (record { valid = h; same = refl; at_same = refl }, ground arith))
fill_loop-Filled (suc fuel) n b h k =
    if_elim (Filled n b) (ltb (available b) n)
      (λ e.
        refill fuel n b h k (ltb→lt _ _ e) (λ b' v l. fill_loop-Filled fuel n b' v l) (more b)
          (more-Came b h))
      (λ e. (record { valid = h; same = refl; at_same = refl }, ground arith))

-- Of a byte reader whose cursors lie in its buffer and in order, and whose body has no more chunks
-- once it ended, fill of n bytes fails exactly if the bytes buffered and to come are fewer than n;
-- otherwise n bytes are buffered, and the unread bytes of the stream, the offset of the next one
-- and the invariant are kept, however the buffer was compacted or grown.
pub fill-Filled : (n : ℕ) (b : ByteReader) → IsValid b → Filled n b (fill n b)
unfolding fill
fill-Filled n b h = fill_loop-Filled (length b.body) n b h (omega arith)

-- What `skipBytes` answers: a reader n bytes on, or the body has not so many.
pub Skipped : ℕ → ByteReader → Option ByteReader → Type 0
Skipped n b none = length (unread b) < n
Skipped n b (some b') = IsValid b' × (unread b' ≡ drop n (unread b)) × (offset b' ≡ offset b + n)

-- n buffered bytes passed
pass-Skipped :
    (n : ℕ) (b : ByteReader)
    → IsValid b
    → n ≤ available b
    → Skipped n b (some (record b { at = b.at + n }))
unfolding Skipped available offset
pass-Skipped n b h k =
    let left : b.len - (b.at + n) ≡ b.len - b.at - n = omega arith in
    (
      record { order = omega (arith, h.order); inside = h.inside; over = h.over },
      ap (λ (l : List ℕ). l ++ flatten b.body)
            (ap (λ (l : List ℕ). take (b.len - (b.at + n)) l) (drop-add b.at n b.buf)
              ∙ ap (λ (m : ℕ). take m (drop n (drop b.at b.buf))) left
              ∙ sym (drop-take n (b.len - b.at) (drop b.at b.buf)))
          ∙ sym (drop-append n (tail b) (flatten b.body) (omega (arith, length-tail b h))),
      omega arith,
    )

-- all that is buffered passed
abbrev emptied : ByteReader → ByteReader
emptied b = record b { at = b.len }

emptied-unread :
    (b : ByteReader)
    → IsValid b
    → IsValid (emptied b)
      × (unread (emptied b) ≡ drop (available b) (unread b))
      × (offset (emptied b) ≡ offset b + available b)
unfolding available offset
emptied-unread b h =
    let gone : b.len - b.len ≡ 0 = omega arith in
    let l = length-tail b h in
    (
      record { order = omega arith; inside = h.inside; over = h.over },
      ap (λ (m : ℕ). take m (drop b.len b.buf) ++ flatten b.body) gone
          ∙ sym (
              ap (λ (m : ℕ). drop m (unread b)) (sym l)
              ∙ drop-append_self (tail b) (flatten b.body)),
      omega (arith, h.order),
    )

Skipped-after :
    (n : ℕ) (b b' : ByteReader) (run : Option ByteReader)
    → IsValid b
    → available b < n
    → Kept (emptied b) b'
    → Skipped (n - available b) b' run
    → Skipped n b run
unfolding Skipped
Skipped-after n b b' none h t k f =
    let e = k.same ∙ (emptied-unread b h).1 in
    omega (arith, f, ap (λ (l : List ℕ). length l) e, length-drop {0} (available b) (unread b))
Skipped-after n b b' (some c) h t k f =
    let a = emptied-unread b h in
    let rest = n - available b in
    let whole : available b + rest ≡ n = omega arith in
    (
      f.0,
      f.1
          ∙ ap (λ (l : List ℕ). drop rest l) (k.same ∙ a.1)
          ∙ sym (drop-add (available b) rest (unread b))
          ∙ ap (λ (m : ℕ). drop m (unread b)) whole,
      omega (arith, f.2, k.at_same, a.2),
    )

-- a round of the loop that passes all that is buffered
empty_round :
    (fuel n : ℕ) (b : ByteReader)
    → IsValid b
    → length b.body ≤ suc fuel
    → available b < n
    → ((m : ℕ) (b' : ByteReader)
        → IsValid b'
        → length b'.body ≤ fuel
        → Skipped m b' (skip_loop fuel m b'))
    → (m : Bool × ByteReader) → Came (emptied b) m
    → Skipped n b (if m.0 then skip_loop fuel (n - available b) m.1 else none)
unfolding Skipped
empty_round fuel n b h l t again _ (over b' e k) = short b n h e t
empty_round fuel n b h l t again _ (came b' e k) =
    Skipped-after n b b' (skip_loop fuel (n - available b) b') h t k
      (again (n - available b) b' k.valid (omega (arith, e)))

same-Skipped : (n : ℕ) (b : ByteReader) → IsValid b → (n == 0) ≡ true → Skipped n b (some b)
unfolding Skipped
same-Skipped zero b h e = (h, refl, omega arith)
same-Skipped (suc n) b h e = absurd (ground arith)

skip_loop-Skipped :
    (fuel n : ℕ) (b : ByteReader)
    → IsValid b
    → length b.body ≤ fuel
    → Skipped n b (skip_loop fuel n b)
unfolding skip_loop Skipped
skip_loop-Skipped zero n b h k =
    if_elim (Skipped n b) (ltb (available b) n)
      (λ e. short b n h (nil_of-length b.body (omega arith)) (ltb→lt _ _ e))
      (λ e. pass-Skipped n b h (ground arith))
skip_loop-Skipped (suc fuel) n b h k =
    if_elim (Skipped n b) (n == 0) (λ e. same-Skipped n b h e)
      λ _.
        if_elim (Skipped n b) (leb n (available b)) (λ e. pass-Skipped n b h (leb→le _ _ e))
          λ e.
            empty_round fuel n b h k (ground arith) (λ m b' v l. skip_loop-Skipped fuel m b' v l)
              (more (emptied b)) (more-Came (emptied b) (emptied-unread b h).0)

-- Of a byte reader whose cursors lie in its buffer and in order, and whose body has no more chunks
-- once it ended, skipBytes of n bytes fails exactly if the bytes buffered and to come are fewer
-- than n; otherwise the unread bytes are those after the first n, the offset is n further, and the
-- invariant is kept.
pub skip_bytes-Skipped : (n : ℕ) (b : ByteReader) → IsValid b → Skipped n b (skip_bytes n b)
unfolding skip_bytes
skip_bytes-Skipped n b h = skip_loop-Skipped (length b.body) n b h (omega arith)

take-under :
    (n m : ℕ) (xs ys : List ℕ) → n ≤ m → n ≤ length xs → take n (take m xs ++ ys) ≡ take n xs
take-under zero m xs ys h k = refl
take-under (suc n) zero xs ys h k = absurd (omega (arith, h))
take-under (suc n) (suc m) [] ys h k = absurd (omega (arith, k))
take-under (suc n) (suc m) (x ∷ xs) ys h k =
    ap (λ (l : List ℕ). x ∷ l) (take-under n m xs ys (omega (arith, h)) (omega (arith, k)))

-- After a fill of n bytes, a take of n bytes gives the first n unread bytes and passes them.
pub take_bytes-fill :
    (n : ℕ) (b b' : ByteReader)
    → IsValid b
    → fill n b ≡ some b'
    → (rest : ByteReader) × (take_bytes n b' ≡ some (take n (unread b), rest))
      × IsValid rest
      × (unread rest ≡ drop n (unread b))
      × (offset rest ≡ offset b + n)
unfolding take_bytes Filled Skipped available
take_bytes-fill n b b' h e =
    let f : Filled n b (some b') = rw e at (fill-Filled n b h) in
    let p = pass-Skipped n b' f.0.valid f.1 in
    let k = f.0 in
    let t = take-under n (b'.len - b'.at) (drop b'.at b'.buf) (flatten b'.body) in
    let fits : ltb (b'.len - b'.at) n ≡ false = ground (arith, f.1) in
    let long : n ≤ length (drop b'.at b'.buf) =
      omega (arith, f.1, length-drop {0} b'.at b'.buf, k.valid.inside) in
    let bytes : take n (drop b'.at b'.buf) ≡ take n (unread b) =
      sym (t f.1 long) ∙ ap (λ (l : List ℕ). take n l) k.same in
    let rest = record b' { at = b'.at + n } in
    (
      rest,
      rw fits (ap (λ (l : List ℕ). some (l, rest)) bytes),
      p.0,
      p.1 ∙ ap (λ (l : List ℕ). drop n l) k.same,
      p.2 ∙ ap (λ (o : ℕ). o + n) k.at_same,
    )
