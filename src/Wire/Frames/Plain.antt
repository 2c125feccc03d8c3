-- ===== src/Wire/Frames/Plain.antt =====
-- `parseFrame` reads back the frames that carry no edits, and skips what a later protocol appends.
use mathlib.Core.List.{append-nil}
use phaselock.Prelude.{
  ℕ, suc, ◌+◌, ◌-◌, ◌<◌, ◌≡◌, refl, List, [], ◌∷◌, ◌++◌, false, ltb, length, arith, sym, All,
}
use phaselock.Keys.{Key, key_eq}
use phaselock.Msgpack.{ok, Vendor, VendorLaws, IsSafe}
use phaselock.Msgpack.Value.{Items, count_items}
use phaselock.Msgpack.Forms
use phaselock.Msgpack.Encode.{encode_items, IsText, ItemsWritable}
use phaselock.Msgpack.Reader.{Reader, advance, new_reader}
use phaselock.Msgpack.Reader.Laws.{At, At-advance}
use phaselock.Msgpack.Reader.Ints.{int_lem}
use phaselock.Msgpack.Reader.Texts.{str_lem}
use phaselock.Msgpack.Reader.Headers.{array_header_lem}
use phaselock.Wire.Edits.Envelopes.{skip_values-items}
use phaselock.Wire.Frames.{
  Frame, live_tag, vouch_tag, view_tag, end_tag, read_strings, strings, parse_tagged, parse_frame,
}

abbrev pub tag_of : Frame → Key
tag_of (Frame.edits es) = []
tag_of (Frame.live p) = live_tag
tag_of (Frame.vouch p) = vouch_tag
tag_of (Frame.view t p s) = view_tag
tag_of (Frame.end c r) = end_tag

-- the elements of a frame, its tag the first
abbrev pub elements : Frame → ℕ
elements (Frame.edits es) = 2
elements (Frame.live p) = 2
elements (Frame.vouch p) = 2
elements (Frame.view t p s) = 4
elements (Frame.end c r) = 3

elements-positive : (f : Frame) → 0 < elements f
elements-positive (Frame.edits es) = omega arith
elements-positive (Frame.live p) = omega arith
elements-positive (Frame.vouch p) = omega arith
elements-positive (Frame.view t p s) = omega arith
elements-positive (Frame.end c r) = omega arith

module _ (v : Vendor) where
  abbrev pub strings_form : List Key → List ℕ → List ℕ
  strings_form [] rest = rest
  strings_form (s ∷ ss) rest = Forms.str v s ++ strings_form ss rest

  -- the elements past the tag, and the rest
  abbrev pub body_form : Frame → List ℕ → List ℕ
  body_form (Frame.edits es) rest = rest
  body_form (Frame.live p) rest = Forms.int v p ++ rest
  body_form (Frame.vouch p) rest = Forms.int v p ++ rest
  body_form (Frame.view t p s) rest =
      Forms.str v t ++ (Forms.int v p ++ (Forms.array_header (length s) ++ strings_form s rest))
  body_form (Frame.end c r) rest = Forms.int v c ++ (Forms.str v r ++ rest)

  -- a frame with further elements
  abbrev pub frame_form : Frame → Items → List ℕ
  frame_form f extra =
      Forms.array_header (elements f + count_items extra)
      ++ (Forms.str v (tag_of f) ++ body_form f (encode_items v extra))

  -- The frames without edits whose parts have a form.
  abbrev pub IsPlain : Frame → Type 0
  IsPlain (Frame.edits es) = ⊥
  IsPlain (Frame.live p) = IsSafe p
  IsPlain (Frame.vouch p) = IsSafe p
  IsPlain (Frame.view t p s) = IsText v t × IsSafe p × (length s < 4294967296) × All (IsText v) s
  IsPlain (Frame.end c r) = IsSafe c × IsText v r

module _ (v : Vendor) (l : VendorLaws v) where
  read_strings_lem :
      (ss : List Key)
      → All (IsText v) ss
      → (r : Reader) (rest : List ℕ) → At r (strings_form v ss rest)
      → (r' : Reader) × (read_strings v (length ss) r ≡ ok (ss, r')) × At r' rest
  unfolding read_strings
  read_strings_lem [] h r rest a = (r, refl, a)
  read_strings_lem (s ∷ ss) h r rest a =
      let form = Forms.str v s in
      let a1 = At-advance r form (strings_form v ss rest) a in
      let (r', e, b) = read_strings_lem ss h.1 (advance (length form) r) rest a1 in
      (r', rw (str_lem v l s h.0 r (strings_form v ss rest) a, e) refl, b)

  tagged_lem :
      (f : Frame)
      → IsPlain v f
      → (r : Reader) (rest : List ℕ) → At r (body_form v f rest)
      → (r' : Reader) × (parse_tagged v (tag_of f) r ≡ ok ((f, elements f), r')) × At r' rest
  unfolding parse_tagged key_eq strings
  tagged_lem (Frame.edits es) h r rest a = absurd h
  tagged_lem (Frame.live p) h r rest a = (
    advance (length (Forms.int v p)) r,
    rw (int_lem v l p h r rest a) refl,
    At-advance r (Forms.int v p) rest a,
  )
  tagged_lem (Frame.vouch p) h r rest a = (
    advance (length (Forms.int v p)) r,
    rw (int_lem v l p h r rest a) refl,
    At-advance r (Forms.int v p) rest a,
  )
  tagged_lem (Frame.view t p s) h r rest a =
      let t3 = strings_form v s rest in
      let f3 = Forms.array_header (length s) in
      let t2 = f3 ++ t3 in
      let f2 = Forms.int v p in
      let t1 = f2 ++ t2 in
      let f1 = Forms.str v t in
      let r1 = advance (length f1) r in
      let a1 = At-advance r f1 t1 a in
      let r2 = advance (length f2) r1 in
      let a2 = At-advance r1 f2 t2 a1 in
      let r3 = advance (length f3) r2 in
      let a3 = At-advance r2 f3 t3 a2 in
      let (r4, e, b) = read_strings_lem s h.3 r3 rest a3 in
      (
        r4,
        rw
            (
              str_lem v l t h.0 r t1 a,
              int_lem v l p h.1 r1 t2 a1,
              array_header_lem (length s) h.2 r2 t3 a2,
              e,
            )
            refl,
        b,
      )
  tagged_lem (Frame.end c reason) h r rest a =
      let f1 = Forms.int v c in
      let f2 = Forms.str v reason in
      let t1 = f2 ++ rest in
      let r1 = advance (length f1) r in
      let a1 = At-advance r f1 t1 a in
      (
        advance (length f2) r1,
        rw (int_lem v l c h.0 r t1 a, str_lem v l reason h.1 r1 rest a1) refl,
        At-advance r1 f2 rest a1,
      )

  -- With a vendor that keeps its laws, and if the tag takes fewer than 2^32 bytes, parseFrame
  -- reads back a live, vouch, view or end frame whose positions and code are safe integers, whose
  -- texts have at most 50 units or are well-formed Unicode that does not begin with U+FEFF, and
  -- whose counts fit in 32 bits, and skips writable elements appended to it.
  pub parse_frame_lem :
      (f : Frame) (extra : Items) (n : ℕ)
      → IsPlain v f
      → IsText v (tag_of f)
      → ItemsWritable v (suc n) extra
      → elements f + count_items extra < 4294967296
      → parse_frame v (frame_form v f extra) ≡ ok f
  unfolding parse_frame new_reader
  parse_frame_lem f extra n h t x c =
      let count = elements f + count_items extra in
      let bs = frame_form v f extra in
      let f1 = Forms.array_header count in
      let f2 = Forms.str v (tag_of f) in
      let t2 = body_form v f (encode_items v extra) in
      let t1 = f2 ++ t2 in
      let r = new_reader bs 0 (length bs) in
      let a : At r (f1 ++ t1) = record {
        tail = [];
        before = sym (append-nil bs);
        ends = omega arith;
      } in
      let r1 = advance (length f1) r in
      let a1 = At-advance r f1 t1 a in
      let r2 = advance (length f2) r1 in
      let a2 = At-advance r1 f2 t2 a1 in
      let (r3, e3, a3) = tagged_lem f h r2 (encode_items v extra) a2 in
      let a3' : At r3 (encode_items v extra ++ []) = rw (append-nil (encode_items v extra)) a3 in
      let (r4, e4, a4) = skip_values-items v l n extra x r3 [] a3' in
      let one : ltb count 1 ≡ false = ground (arith, elements-positive f) in
      let enough : ltb count (elements f) ≡ false = ground arith in
      let further : count - elements f ≡ count_items extra = omega arith in
      rw
        (
          array_header_lem count c r t1 a,
          one,
          str_lem v l (tag_of f) t r1 t2 a1,
          e3,
          enough,
          further,
          e4,
        )
        refl
