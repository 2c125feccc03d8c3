-- ===== src/Msgpack/RoundTrip.antt =====
-- `Reader.any` reads back what `Writer.any` writes, and `decodeAny` what `encodeAny` does.
use mathlib.Core.List.{append-nil}
use phaselock.Prelude.{
  ℕ, zero, suc, ◌≡◌, List, [], ◌++◌, length, arith, ap, ◌∙◌, sym, ℤ, Option, some, Bool-cases, inl,
  inr,
}
use phaselock.Keys.{Key}
use phaselock.Msgpack.{Kind, ok, ◌>>=◌, Vendor, VendorLaws, whole, float, time, invalid}
use phaselock.Msgpack.Value.{
  Value, Items, Fields, count_items, count_fields, defined, is_defined, set_entry,
}
use phaselock.Msgpack.Forms
use phaselock.Msgpack.Encode.{
  defined-le, encode, encode_items, encode_fields, IsWritable, ItemsWritable, FieldsWritable, kept,
  kept_items, kept_fields,
}
use phaselock.Msgpack.Reader.{Reader, Read, advance, array_header, map_header, new_reader}
use phaselock.Msgpack.Reader.Laws.{At, Decodes, Decodes-then, Decodes-ok}
use phaselock.Msgpack.Reader.Kinds.{
  kind-Begins, Begins, int-Begins, array-Begins, map-Begins, str-Begins, bool-Begins, nil-Begins,
  float64-Begins, timestamp-Begins,
}
use phaselock.Msgpack.Reader.Scalars.{bool, nil, int, float_at, str, try_str, timestamp}
use phaselock.Msgpack.Reader.Ints.{int_lem}
use phaselock.Msgpack.Reader.Headers.{
  array_header_lem, map_header_lem, bool_lem, nil_lem, float_lem,
}
use phaselock.Msgpack.Reader.Texts.{str_lem, try_str_lem}
use phaselock.Msgpack.Reader.Times.{timestamp_lem}
use phaselock.Msgpack.Any.{
  any, any_of, any_items, any_fields, value, cons, key_or, decode_any, whole_value,
}
use phaselock.Msgpack.Writer.{encode_any}
use phaselock.Msgpack.Writer.Refines.{encode_any-encode}

-- a read of one value whose result is wrapped
value_of :
    {A : Type 0} (read : Reader → Read A) (f : A → Value) (xs : List ℕ) (a : A)
    → Decodes read xs a
    → Decodes (λ r. read r >>= value f) xs (f a)
value_of read f xs a h r rest at = ap (λ m. m >>= value f) (h r rest at)

null_read : Decodes (λ r. nil r >>= λ r'. ok (Value.null, r')) Forms.nil Value.null
null_read r rest a = ap (λ m. m >>= λ (r' : Reader). ok (Value.null, r')) (nil_lem r rest a)

module _ (v : Vendor) (l : VendorLaws v) where
  -- what the levels below n of a call read
  Below : ℕ → Type 0
  Below zero = Unit
  Below (suc m) = (x : Value) → IsWritable v m x → Decodes (any v (suc m)) (encode v x) (kept x)

  items-Decodes :
      (n : ℕ)
      → Below n
      → (xs : Items) → ItemsWritable v n xs
      → Decodes (any_items v (any v n) (count_items xs)) (encode_items v xs) (kept_items xs)
  unfolding any_items encode ItemsWritable Below kept
  items-Decodes n ih Items.no_items h = Decodes-ok Items.no_items
  items-Decodes zero ih (Items.item x xs) h = absurd h
  items-Decodes (suc m) ih (Items.item x xs) h =
      Decodes-then (any v (suc m))
        (λ p. any_items v (any v (suc m)) (count_items xs) p.1 >>= cons p.0) (encode v x)
        (encode_items v xs) (kept x) (Items.item (kept x) (kept_items xs)) (ih x h.0)
        (λ r rest a. ap (λ m'. m' >>= cons (kept x)) (items-Decodes (suc m) ih xs h.1 r rest a))

  abbrev field_rest : ℕ → ℕ → Fields → Option Key × Reader → Read Fields
  field_rest m count out o = do
    (key, r') ← key_or o
    (x, r'') ← any v (suc m) r'
    any_fields v (any v (suc m)) count (set_entry out key x) r''

  fields-Decodes :
      (n : ℕ)
      → Below n
      → (fs : Fields) → FieldsWritable v n fs
      → (out : Fields)
      → Decodes
          (any_fields v (any v n) (count_fields (defined fs)) out)
          (encode_fields v fs)
          (kept_fields out fs)
  unfolding any_fields encode FieldsWritable Below kept defined
  fields-Decodes n ih Fields.no_fields h out = Decodes-ok out
  fields-Decodes zero ih (Fields.field k x fs) h out = absurd h
  fields-Decodes (suc m) ih (Fields.field k x fs) h out = elim (Bool-cases (is_defined x)) [
    | inl e ↦
        let count = count_fields (defined fs) in
        let out' = set_entry out k (kept x) in
        rw e (
          Decodes-then (try_str v) (field_rest m count out) (Forms.str v k)
            (encode v x ++ encode_fields v fs) (some k) (kept_fields out' fs)
            (try_str_lem v l k h.0)
            (Decodes-then (any v (suc m))
              (λ p. any_fields v (any v (suc m)) count (set_entry out k p.0) p.1) (encode v x)
              (encode_fields v fs) (kept x) (kept_fields out' fs) (ih x h.1)
              (fields-Decodes (suc m) ih fs h.2 out')))
    | inr e ↦ rw e (fields-Decodes (suc m) ih fs h.2 out)
  ]

  -- a value whose kind is known is read as that kind
  by_kind :
      (n : ℕ) (k : Kind) (xs : List ℕ) (x : Value)
      → Begins k xs
      → Decodes (any_of v (any v n) k) xs x
      → Decodes (any v (suc n)) xs x
  unfolding any
  by_kind n k xs x b h r rest a =
      ap (λ m. m >>= λ (k' : Kind). any_of v (any v n) k' r) (kind-Begins k xs rest r b a)
      ∙ h r rest a

  any_of-Decodes :
      (n : ℕ)
      → Below n
      → (x : Value) → IsWritable v n x
      → Decodes (any v (suc n)) (encode v x) (kept x)
  unfolding any_of encode IsWritable kept
  any_of-Decodes n ih Value.undefined h =
      by_kind n Kind.nil Forms.nil Value.null nil-Begins null_read
  any_of-Decodes n ih Value.null h = by_kind n Kind.nil Forms.nil Value.null nil-Begins null_read
  any_of-Decodes n ih (Value.boolean b) h =
      by_kind n Kind.bool (Forms.bool b) (Value.boolean b) (bool-Begins b)
        (value_of bool Value.boolean (Forms.bool b) b (bool_lem b))
  any_of-Decodes n ih (Value.number (whole z)) h =
      by_kind n Kind.int (Forms.int v z) (Value.number (whole z)) (int-Begins v z)
        (value_of (int v) (λ (y : ℤ). Value.number (whole y)) (Forms.int v z) z (int_lem v l z h))
  any_of-Decodes n ih (Value.number (float bs)) h =
      by_kind n Kind.float (Forms.float64 bs) (Value.number (float bs)) (float64-Begins bs)
        (value_of (float_at v) Value.number (Forms.float64 bs) (float bs) (float_lem v bs h.0 h.1))
  any_of-Decodes n ih (Value.string s) h =
      by_kind n Kind.str (Forms.str v s) (Value.string s) (str-Begins v s)
        (value_of (str v) Value.string (Forms.str v s) s (str_lem v l s h))
  any_of-Decodes n ih (Value.date (time ms)) h =
      by_kind n Kind.ext (Forms.timestamp v ms) (Value.date (time ms)) (timestamp-Begins v ms) (
        value_of (timestamp v) Value.date (Forms.timestamp v ms) (time ms) (timestamp_lem v l ms h))
  any_of-Decodes n ih (Value.date invalid) h = absurd h
  any_of-Decodes n ih (Value.array xs) h =
      let head = Forms.array_header (count_items xs) in
      by_kind n Kind.array (head ++ encode_items v xs) (Value.array (kept_items xs))
        (array-Begins (count_items xs) (encode_items v xs))
        (Decodes-then array_header (λ p. any_items v (any v n) p.0 p.1 >>= value Value.array) head
          (encode_items v xs) (count_items xs) (Value.array (kept_items xs))
          (array_header_lem (count_items xs) h.0)
          (value_of (any_items v (any v n) (count_items xs)) Value.array (encode_items v xs)
            (kept_items xs) (items-Decodes n ih xs h.1)))
  any_of-Decodes n ih (Value.object fs) h =
      let count = count_fields (defined fs) in
      let head = Forms.map_header count in
      let out = kept_fields Fields.no_fields fs in
      by_kind n Kind.map (head ++ encode_fields v fs) (Value.object out)
        (map-Begins count (encode_fields v fs))
        (Decodes-then map_header
          (λ p. any_fields v (any v n) p.0 Fields.no_fields p.1 >>= value Value.object) head
          (encode_fields v fs) count (Value.object out)
          (map_header_lem count (omega (arith, defined-le fs, h.0)))
          (value_of (any_fields v (any v n) count Fields.no_fields) Value.object
            (encode_fields v fs) out (fields-Decodes n ih fs h.1 Fields.no_fields)))
  any_of-Decodes n ih Value.other h = absurd h

  below : (n : ℕ) → Below n
  unfolding Below
  below zero = tt
  below (suc m) = λ x h. any_of-Decodes m (below m) x h

  -- At the form of a writable value, whatever follows it, `any` gives what is kept of the value and passes the form.
  pub any-Decodes :
      (n : ℕ) (x : Value)
      → IsWritable v n x
      → (r : Reader) (rest : List ℕ) → At r (encode v x ++ rest)
      → any v (suc n) r ≡ ok (kept x, advance (length (encode v x)) r)
  any-Decodes n x h = any_of-Decodes n (below n) x h

  decode_any-encode : (x : Value) → IsWritable v 512 x → decode_any v (encode v x) ≡ ok (kept x)
  unfolding decode_any new_reader
  decode_any-encode x h =
      let bs = encode v x in
      let r = new_reader bs 0 (length bs) in
      let a : At r (bs ++ []) = record {
        tail = [];
        before = sym (append-nil bs) ∙ sym (append-nil (bs ++ []));
        ends = ap (λ (l' : List ℕ). length l') (sym (append-nil bs)) ∙ omega arith;
      } in
      ap (λ m. m >>= whole_value v) (any-Decodes 512 x h r [] a) ∙ ground arith

  -- With a vendor that keeps its laws, encodeAny of a writable value followed by decodeAny
  -- succeeds and gives the value back, with null for an array's undefined items and an object's
  -- undefined fields left out. A value is writable if each text in it has at most 50 units or is
  -- well-formed Unicode that does not begin with U+FEFF, each count fits in 32 bits, each whole
  -- number is a safe integer, each date is within 8.64e15 milliseconds of 1970, each other number
  -- is read from its own 8 bytes, nothing in it is without a form, and it is nested at most 512
  -- levels below the first.
  pub decode_any-encode_any :
      (x : Value) → IsWritable v 512 x → (encode_any v x >>= decode_any v) ≡ ok (kept x)
  decode_any-encode_any x h =
      ap (λ m. m >>= decode_any v) (encode_any-encode v l x h) ∙ decode_any-encode x h
