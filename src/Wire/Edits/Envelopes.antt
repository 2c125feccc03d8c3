-- ===== src/Wire/Edits/Envelopes.antt =====
-- `readEnvelope` reads back an envelope, and skips what a later protocol appends to it.
use phaselock.Prelude.{
  ℕ, suc, ◌+◌, ◌-◌, ◌<◌, ◌≡◌, refl, List, ◌++◌, false, ltb, ℤ, pos, length, arith, ap, ◌∙◌, true,
}
use mathlib.Core.List.{append_assoc}
use phaselock.Keys.{Key}
use phaselock.Msgpack.{ok, ◌>>=◌, Vendor, VendorLaws, IsSafe, time, in_range}
use phaselock.Msgpack.Value.{Items, count_items}
use phaselock.Msgpack.Forms
use phaselock.Msgpack.Encode.{encode, encode_items, IsText, IsWritable, ItemsWritable}
use phaselock.Msgpack.Reader.{Reader, advance}
use phaselock.Msgpack.Reader.Laws.{At, At-advance}
use phaselock.Msgpack.Reader.Ints.{int_lem}
use phaselock.Msgpack.Reader.Texts.{str_lem, bin_lem}
use phaselock.Msgpack.Reader.Times.{timestamp_lem}
use phaselock.Msgpack.Reader.Headers.{array_header_lem}
use phaselock.Msgpack.Measure.Ends.{view-encode}
use phaselock.Wire.Uuid.{groups, uuid_string-groups}
use phaselock.Wire.Edits.{Lifecycle, EditEnvelope, lifecycle_of, read_envelope, skip_values}

-- an envelope as it is written: its id is 16 bytes
pub record Written : Type 0 where
  pub position : ℤ
  pub slice : Key
  pub seq : ℤ
  pub id : List ℕ
  pub servertime : ℤ
  pub lifecycle : Lifecycle

abbrev pub number_of : Lifecycle → ℤ
number_of Lifecycle.normal = pos 0
number_of Lifecycle.birth = pos 1
number_of Lifecycle.death = pos 2

abbrev pub envelope_of : Written → EditEnvelope
envelope_of w = record {
  position = w.position;
  slice = w.slice;
  seq = w.seq;
  id = groups 0 w.id;
  servertime = time w.servertime;
  lifecycle = w.lifecycle;
}

-- the bytes of an edit of so many items: its header, its envelope with further elements, and the rest
abbrev pub envelope_form : Vendor → ℕ → Written → Items → List ℕ → List ℕ
envelope_form v items w extra rest =
    Forms.array_header items
    ++ (Forms.array_header (6 + count_items extra)
        ++ (Forms.int v w.position
            ++ (Forms.str v w.slice
                ++ (Forms.int v w.seq
                    ++ (Forms.bin w.id
                        ++ (Forms.timestamp v w.servertime
                            ++ (Forms.int v (number_of w.lifecycle)
                                ++ (encode_items v extra ++ rest))))))))

pub record EnvelopeWritable (v : Vendor) (w : Written) : Type 0 where
  pub position_safe : IsSafe w.position
  pub slice_text : IsText v w.slice
  pub seq_safe : IsSafe w.seq
  pub id_size : length w.id ≡ 16
  pub time_valid : in_range w.servertime ≡ true

lifecycle_of-number_of : (c : Lifecycle) → lifecycle_of (number_of c) ≡ ok c
unfolding lifecycle_of
lifecycle_of-number_of Lifecycle.normal = refl
lifecycle_of-number_of Lifecycle.birth = refl
lifecycle_of-number_of Lifecycle.death = refl

number_of-IsSafe : (c : Lifecycle) → IsSafe (number_of c)
number_of-IsSafe Lifecycle.normal = omega arith
number_of-IsSafe Lifecycle.birth = omega arith
number_of-IsSafe Lifecycle.death = omega arith

module _ (v : Vendor) (l : VendorLaws v) where
  pub skip_values-items :
      (n : ℕ) (xs : Items)
      → ItemsWritable v (suc n) xs
      → (r : Reader) (rest : List ℕ) → At r (encode_items v xs ++ rest)
      → (r' : Reader) × (skip_values (count_items xs) r ≡ ok r') × At r' rest
  unfolding encode IsWritable
  skip_values-items n Items.no_items h r rest a = (r, refl, a)
  skip_values-items n (Items.item x xs) h r rest a =
      let form = encode v x in
      let a' : At r (form ++ (encode_items v xs ++ rest)) =
        rw (← append_assoc form (encode_items v xs) rest) a in
      let r1 = advance (length form) r in
      let a1 = At-advance r form (encode_items v xs ++ rest) a' in
      let (r', e, b) = skip_values-items n xs h.1 r1 rest a1 in
      (
        r',
        ap (λ m. m >>= skip_values (count_items xs))
              (view-encode v l n x h.0 r (encode_items v xs ++ rest) a').1
            ∙ e,
        b,
      )

  -- With a vendor that keeps its laws, readEnvelope at an edit of between one and 2^32 - 1 items
  -- reads back its envelope, whose whole numbers are safe integers, whose time is within 8.64e15
  -- milliseconds of 1970, whose slice has at most 50 units or is well-formed Unicode that does not
  -- begin with U+FEFF, in fewer than 2^32 bytes, and whose id is 16 bytes, with the id as a uuid;
  -- it skips the writable elements appended to the envelope, if its elements are fewer than 2^32,
  -- and leaves the reader at what follows.
  pub read_envelope_lem :
      (items n : ℕ) (w : Written) (extra : Items) (r : Reader) (rest : List ℕ)
      → 0 < items
      → items < 4294967296
      → EnvelopeWritable v w
      → ItemsWritable v (suc n) extra
      → 6 + count_items extra < 4294967296
      → At r (envelope_form v items w extra rest)
      → (r' : Reader) × (read_envelope v r ≡ ok (envelope_of w, r')) × At r' rest
  unfolding read_envelope
  read_envelope_lem items n w extra r rest p q h x c a =
      let count = 6 + count_items extra in
      let t8 = encode_items v extra ++ rest in
      let f8 = Forms.int v (number_of w.lifecycle) in
      let t7 = f8 ++ t8 in
      let f7 = Forms.timestamp v w.servertime in
      let t6 = f7 ++ t7 in
      let f6 = Forms.bin w.id in
      let t5 = f6 ++ t6 in
      let f5 = Forms.int v w.seq in
      let t4 = f5 ++ t5 in
      let f4 = Forms.str v w.slice in
      let t3 = f4 ++ t4 in
      let f3 = Forms.int v w.position in
      let t2 = f3 ++ t3 in
      let f2 = Forms.array_header count in
      let t1 = f2 ++ t2 in
      let f1 = Forms.array_header items in
      let r1 = advance (length f1) r in
      let a1 = At-advance r f1 t1 a in
      let r2 = advance (length f2) r1 in
      let a2 = At-advance r1 f2 t2 a1 in
      let r3 = advance (length f3) r2 in
      let a3 = At-advance r2 f3 t3 a2 in
      let r4 = advance (length f4) r3 in
      let a4 = At-advance r3 f4 t4 a3 in
      let r5 = advance (length f5) r4 in
      let a5 = At-advance r4 f5 t5 a4 in
      let r6 = advance (length f6) r5 in
      let a6 = At-advance r5 f6 t6 a5 in
      let r7 = advance (length f7) r6 in
      let a7 = At-advance r6 f7 t7 a6 in
      let r8 = advance (length f8) r7 in
      let a8 = At-advance r7 f8 t8 a7 in
      let (r9, e9, a9) = skip_values-items n extra x r8 rest a8 in
      let some_items : ltb items 1 ≡ false = ground arith in
      let enough : ltb count 6 ≡ false = ground arith in
      let further : count - 6 ≡ count_items extra = omega arith in
      (
        r9,
        rw
            (
              array_header_lem items q r t1 a,
              some_items,
              array_header_lem count c r1 t2 a1,
              enough,
              int_lem v l w.position h.position_safe r2 t3 a2,
              str_lem v l w.slice h.slice_text r3 t4 a3,
              int_lem v l w.seq h.seq_safe r4 t5 a4,
              bin_lem w.id (omega (arith, h.id_size)) r5 t6 a5,
              uuid_string-groups w.id h.id_size,
              timestamp_lem v l w.servertime h.time_valid r6 t7 a6,
              int_lem v l (number_of w.lifecycle) (number_of-IsSafe w.lifecycle) r7 t8 a7,
              lifecycle_of-number_of w.lifecycle,
              further,
              e9,
            )
            refl,
        a9,
      )
