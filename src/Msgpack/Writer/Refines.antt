-- ===== src/Msgpack/Writer/Refines.antt =====
-- `Writer.any` appends the form of its value, however the buffer grows.
use mathlib.Core.List.{append_assoc, append-nil}
use phaselock.Prelude.{
  ℕ, zero, suc, ◌+◌, ◌≤◌, ◌≡◌, refl, List, ◌++◌, Bool, ℤ, pos, negsuc, length, arith, length-append,
  ap, ◌∙◌, sym, Bool-cases, inl, inr,
}
use phaselock.Keys.{Key}
use phaselock.Msgpack.{Result, ok, ◌>>=◌, Vendor, VendorLaws, whole, float, time, invalid}
use phaselock.Msgpack.Value.{Value, Items, Fields, count_items, count_fields, defined, is_defined}
use phaselock.Msgpack.Forms
use phaselock.Msgpack.Encode.{
  encode, encode_items, encode_fields, IsWritable, ItemsWritable, FieldsWritable,
}
use phaselock.Msgpack.Writer.{
  Writer, put, bytes, new_writer, encode_any, array_header, map_header, bool, nil, str, int,
  float64, timestamp, any, any_of, any_items, any_fields,
}
use phaselock.Msgpack.Writer.Laws.{IsValid, bytes-put, new_writer-IsValid}

-- a run that succeeds and appends these bytes
pub record Wrote (w : Writer) (bs : List ℕ) (run : Result Writer) : Type 0 where
  pub after : Writer
  pub succeeds : run ≡ ok after
  pub valid : IsValid after
  pub appended : bytes after ≡ bytes w ++ bs

put-Wrote :
    (n : ℕ) (bs : List ℕ) (w : Writer) → IsValid w → length bs ≤ n → Wrote w bs (ok (put n bs w))
put-Wrote n bs w h k =
    let p = bytes-put n bs w h k in
    record { after = put n bs w; succeeds = refl; valid = p.0; appended = p.1 }

Wrote-then :
    (w : Writer) (xs ys : List ℕ) (run : Result Writer) (f : Writer → Result Writer)
    → (a : Wrote w xs run) → Wrote a.after ys (f a.after)
    → Wrote w (xs ++ ys) (run >>= f)
Wrote-then w xs ys run f a b = record {
  after = b.after;
  succeeds = ap (λ (r : Result Writer). r >>= f) a.succeeds ∙ b.succeeds;
  valid = b.valid;
  appended = b.appended ∙ ap (λ (bs : List ℕ). bs ++ ys) a.appended ∙ append_assoc (bytes w) xs ys;
}

length-header : (n fix wide : ℕ) → length (Forms.header n fix wide) ≤ 5
unfolding Forms.header
length-header n fix wide = ground arith

length-array_header : (n : ℕ) → length (Forms.array_header n) ≤ 5
unfolding Forms.array_header
length-array_header n = length-header n 0x90 0xdc

length-map_header : (n : ℕ) → length (Forms.map_header n) ≤ 5
unfolding Forms.map_header
length-map_header n = length-header n 0x80 0xde

length-bool : (b : Bool) → length (Forms.bool b) ≤ 1
unfolding Forms.bool
length-bool b = omega arith

length-str_header : (n : ℕ) → length (Forms.str_header n) ≤ 5
unfolding Forms.str_header
length-str_header n = ground arith

module _ (v : Vendor) (l : VendorLaws v) where
  length-str : (s : Key) → length (Forms.str v s) ≤ 5 + v.utf8_count s
  unfolding Forms.str
  length-str s = omega (
    arith,
    length-append {0} (Forms.str_header (v.utf8_count s)) (v.utf8_encode s),
    l.length-utf8 s,
    length-str_header (v.utf8_count s),
  )

  length-int : (z : ℤ) → length (Forms.int v z) ≤ 9
  unfolding Forms.int
  length-int (pos n) = ground (arith, l.length-uint64 n)
  length-int (negsuc n) = ground (arith, l.length-int64 (negsuc n))

  length-spec : (sec : ℤ) (nsec : ℕ) → length (Forms.spec v sec nsec) ≤ 15
  unfolding Forms.spec
  length-spec (pos n) nsec = ground (arith, l.length-int64 (pos n))
  length-spec (negsuc n) nsec = ground (arith, l.length-int64 (negsuc n))

  length-timestamp : (ms : ℤ) → length (Forms.timestamp v ms) ≤ 15
  unfolding Forms.timestamp
  length-timestamp ms = length-spec (v.time_spec ms).0 (v.time_spec ms).1

  abbrev pub Writes : ℕ → Value → (Value → Writer → Result Writer) → Type 0
  Writes n x write = IsWritable v n x → (w : Writer) → IsValid w → Wrote w (encode v x) (write x w)

  -- what the levels below n of a call write
  Below : ℕ → Type 0
  Below zero = Unit
  Below (suc m) = (x : Value) → Writes m x (any v (suc m))

  str-Wrote : (s : Key) (w : Writer) → IsValid w → Wrote w (Forms.str v s) (ok (str v s w))
  unfolding str
  str-Wrote s w h = put-Wrote _ _ w h (length-str s)

  items-Writes :
      (n : ℕ)
      → Below n
      → (xs : Items) → ItemsWritable v n xs
      → (w : Writer) → IsValid w
      → Wrote w (encode_items v xs) (any_items v (any v n) xs w)
  unfolding any_items encode ItemsWritable Below
  items-Writes n ih Items.no_items h w k = record {
    after = w;
    succeeds = refl;
    valid = k;
    appended = sym (append-nil (bytes w));
  }
  items-Writes zero ih (Items.item x xs) h w k = absurd h
  items-Writes (suc m) ih (Items.item x xs) h w k =
      let first = ih x h.0 w k in
      Wrote-then w _ _ _ (any_items v (any v (suc m)) xs) first
        (items-Writes (suc m) ih xs h.1 first.after first.valid)

  fields-Writes :
      (n : ℕ)
      → Below n
      → (fs : Fields) → FieldsWritable v n fs
      → (w : Writer) → IsValid w
      → Wrote w (encode_fields v fs) (any_fields v (any v n) (defined fs) w)
  unfolding any_fields encode FieldsWritable Below defined
  fields-Writes n ih Fields.no_fields h w k = record {
    after = w;
    succeeds = refl;
    valid = k;
    appended = sym (append-nil (bytes w));
  }
  fields-Writes zero ih (Fields.field k x fs) h w p = absurd h
  fields-Writes (suc m) ih (Fields.field k x fs) h w p = elim (Bool-cases (is_defined x)) [
    | inl e ↦
        let name = str-Wrote k w p in
        let first = ih x h.1 name.after name.valid in
        let rest = fields-Writes (suc m) ih fs h.2 first.after first.valid in
        let run = any_fields v (any v (suc m)) (defined fs) in
        rw e (
          Wrote-then w _ _ _ (λ (u : Writer). any v (suc m) x u >>= run) name
            (Wrote-then name.after _ _ _ run first rest))
    | inr e ↦ rw e (fields-Writes (suc m) ih fs h.2 w p)
  ]

  any_of-Writes : (n : ℕ) → Below n → (x : Value) → Writes n x (any_of v (any v n))
  unfolding any_of encode IsWritable nil bool int float64 timestamp array_header map_header
  any_of-Writes n ih Value.undefined h w k = put-Wrote _ _ w k (omega arith)
  any_of-Writes n ih Value.null h w k = put-Wrote _ _ w k (omega arith)
  any_of-Writes n ih (Value.boolean b) h w k = put-Wrote _ _ w k (length-bool b)
  any_of-Writes n ih (Value.number (whole z)) h w k = put-Wrote _ _ w k (length-int z)
  any_of-Writes n ih (Value.number (float bs)) h w k = put-Wrote _ _ w k (omega (arith, h.0))
  any_of-Writes n ih (Value.string s) h w k = str-Wrote s w k
  any_of-Writes n ih (Value.date (time ms)) h w k = put-Wrote _ _ w k (length-timestamp ms)
  any_of-Writes n ih (Value.date invalid) h w k = absurd h
  any_of-Writes n ih (Value.array xs) h w k =
      let head =
        put-Wrote 5 (Forms.array_header (count_items xs)) w k
          (length-array_header (count_items xs)) in
      Wrote-then w _ _ _ (any_items v (any v n) xs) head
        (items-Writes n ih xs h.1 head.after head.valid)
  any_of-Writes n ih (Value.object fs) h w k =
      let head =
        put-Wrote 5 (Forms.map_header (count_fields (defined fs))) w k
          (length-map_header (count_fields (defined fs))) in
      Wrote-then w _ _ _ (any_fields v (any v n) (defined fs)) head
        (fields-Writes n ih fs h.1 head.after head.valid)
  any_of-Writes n ih Value.other h w k = absurd h

  below : (n : ℕ) → Below n
  unfolding Below any
  below zero = tt
  below (suc m) = λ x. any_of-Writes m (below m) x

  pub any-Writes : (n : ℕ) (x : Value) → Writes n x (any v (suc n))
  unfolding any
  any-Writes n x = any_of-Writes n (below n) x

  -- With a vendor that keeps its laws, encodeAny of a writable value, through a buffer that grows,
  -- succeeds with exactly the bytes of the value's form, which is defined on the value with no
  -- buffer and no cursor. A value is writable where its texts have at most 50 units or are well-
  -- formed Unicode that does not begin with U+FEFF, its dates are within 8.64e15 milliseconds of
  -- 1970, its whole numbers are safe integers, its other numbers are read from their own 8 bytes,
  -- its counts fit in 32 bits, nothing in it is without a form, and it nests at most 512 levels
  -- below the first.
  pub encode_any-encode : (x : Value) → IsWritable v 512 x → encode_any v x ≡ ok (encode v x)
  unfolding encode_any
  encode_any-encode x h =
      let w = any-Writes 512 x h new_writer new_writer-IsValid.0 in
      ap (λ (r : Result Writer). r >>= λ u. ok (bytes u)) w.succeeds
      ∙ ap (λ (bs : List ℕ). ok bs)
          (w.appended ∙ ap (λ (bs : List ℕ). bs ++ encode v x) new_writer-IsValid.1)
