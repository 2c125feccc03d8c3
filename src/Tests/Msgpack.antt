-- ===== src/Tests/Msgpack.antt =====
-- The codec on small values, with a vendor that keeps code units as bytes.
use phaselock.Prelude.{
  ℕ, ◌+◌, ◌-◌, ◌*◌, ◌/◌, ◌%◌, ◌≤◌, ◌<◌, ◌≡◌, refl, List, [], ◌∷◌, ◌++◌, true, arith, ℤ, pos, negsuc,
  length, Option, some, ap, ◌∙◌, leb→le,
}
use phaselock.Msgpack.{
  Vendor, VendorLaws, whole, float, IsSafe, millis, ok, ◌>>=◌, no_form, in_range, time,
}
use phaselock.Msgpack.Bytes.{be_from, u32, word, signed}
use phaselock.Msgpack.Value.{Value, Items, Fields, defined}
use phaselock.Msgpack.Forms
use phaselock.Msgpack.Encode.{IsWritable, encode, kept}
use phaselock.Msgpack.Any.{decode_any}
use phaselock.Msgpack.Reader.{Reader, advance}
use phaselock.Msgpack.Reader.Laws.{At}
use phaselock.Msgpack.Reader.Scalars.{key_index, key_at}
use phaselock.Msgpack.Reader.KeyIndex.{key_index_lem, past_key, Answers}
use phaselock.Msgpack.Measure.{measure, view, skip}
use phaselock.Msgpack.Measure.Bounds.{measure_bounds}
use phaselock.Msgpack.Measure.Ends.{measure-encode, view-encode}
use phaselock.Msgpack.RoundTrip.{decode_any-encode_any}
use phaselock.Msgpack.Writer
use phaselock.Msgpack.Writer.{encode_any, put, bytes}
use phaselock.Msgpack.Writer.Refines.{encode_any-encode}
use phaselock.Msgpack.Writer.Errors.{problem, EndsWith, any-problem}

abbrev u64 : ℕ → List ℕ
u64 n = u32 (n / 4294967296) ++ u32 (n % 4294967296)

abbrev floor_sec : ℤ → ℤ × ℕ
floor_sec (pos n) = (pos (n / 1000), n % 1000 * 1000000)
floor_sec (negsuc n) = (negsuc (n / 1000), (999 - n % 1000) * 1000000)

abbrev pub toy : Vendor
toy = record {
  put_uint64 = u64;
  get_uint64 = be_from 0;
  put_int64 = λ z. u64 (word 18446744073709551616 z);
  get_int64 = λ bs. signed 9223372036854775808 (be_from 0 bs);
  utf8_count = length;
  utf8_encode = λ s. s;
  utf8_decode = λ s. s;
  time_spec = floor_sec;
  get_float32 = float;
  get_float64 = float;
}

be_from-u64 : (n : ℕ) → n < 18446744073709551616 → be_from 0 (u64 n) ≡ n
be_from-u64 n h = omega arith

signed-word : (z : ℤ) → IsSafe z → signed 9223372036854775808 (word 18446744073709551616 z) ≡ z
signed-word (pos n) h = ground arith
signed-word (negsuc n) h = ground arith

word-small : (z : ℤ) → word 18446744073709551616 z < 18446744073709551616
word-small (pos n) = omega arith
word-small (negsuc n) = omega arith

floor_sec-millis : (ms : ℤ) → millis (floor_sec ms).0 (floor_sec ms).1 ≡ ms
unfolding millis
floor_sec-millis (pos n) = ground arith
floor_sec-millis (negsuc n) = ground arith

floor_sec-IsSafe : (ms : ℤ) → in_range ms ≡ true → IsSafe (floor_sec ms).0
floor_sec-IsSafe (pos n) h = omega (arith, leb→le _ _ h)
floor_sec-IsSafe (negsuc n) h = omega (arith, leb→le _ _ h)

floor_sec-nanos : (ms : ℤ) → (floor_sec ms).1 < 1000000000
floor_sec-nanos (pos n) = omega arith
floor_sec-nanos (negsuc n) = omega arith

pub toy_laws : VendorLaws toy
toy_laws = record {
  length-uint64 = λ n. refl;
  get-put_uint64 = λ n h. be_from-u64 n (omega arith);
  length-int64 = λ z. refl;
  get-put_int64 =
      λ z h. ap (signed 9223372036854775808) (be_from-u64 _ (word-small z)) ∙ signed-word z h;
  length-utf8 = λ s. refl;
  decode-utf8 = λ s h. refl;
  spec_nanos = λ ms h. floor_sec-nanos ms;
  spec_safe = floor_sec-IsSafe;
  spec_millis = λ ms h. floor_sec-millis ms;
}

-- { a: [1, -40, the millisecond before 1970], b: "x", c: undefined }
abbrev sample : Value
sample = Value.object (
    Fields.field (b'a' ∷ [])
      (Value.array (
        Items.item (Value.number (whole (pos 1))) (
          Items.item (Value.number (whole (negsuc 39)))
            (Items.item (Value.date (time (negsuc 0))) Items.no_items))))
      (Fields.field (b'b' ∷ []) (Value.string (b'x' ∷ []))
        (Fields.field (b'c' ∷ []) Value.undefined Fields.no_fields)))

sample-IsWritable : IsWritable toy 512 sample
unfolding IsWritable
sample-IsWritable = ground arith

encode_run : encode toy sample ≡ (
    130 ∷ 161 ∷ 97 ∷ 147 ∷ 1 ∷ 208 ∷ 216 ∷ 199 ∷ 12 ∷ 255 ∷ 59 ∷ 139 ∷ 135 ∷ 192 ∷ 255 ∷ 255 ∷ 255
    ∷ 255 ∷ 255 ∷ 255 ∷ 255 ∷ 255 ∷ 161 ∷ 98 ∷ 161 ∷ 120 ∷ [])
unfolding encode defined Forms.map_header Forms.array_header Forms.str Forms.str_header Forms.header
    Forms.int Forms.timestamp
encode_run = refl

decode_any-encode_any_example : (encode_any toy sample >>= decode_any toy) ≡ ok (kept sample)
decode_any-encode_any_example = decode_any-encode_any toy toy_laws sample sample-IsWritable

encode_any-encode_example : encode_any toy sample ≡ ok (encode toy sample)
encode_any-encode_example = encode_any-encode toy toy_laws sample sample-IsWritable

-- a buffer of 2 bytes that grows
abbrev small : Writer.Writer
small = record { buf = 7 ∷ 8 ∷ []; at = 1 }

-- [true, "x"], and a byte after it
abbrev pair : Value
pair =
    Value.array
      (Items.item (Value.boolean true) (Items.item (Value.string (b'x' ∷ [])) Items.no_items))

pair-IsWritable : IsWritable toy 1 pair
unfolding IsWritable
pair-IsWritable = ground arith

abbrev reading : Reader
reading = record {
  buf = 9 ∷ 146 ∷ 195 ∷ 161 ∷ 120 ∷ 5 ∷ 6 ∷ [];
  at = 1;
  end = 6;
  last_key = 0;
  last_key_len = 0;
}

reading-At : At reading (encode toy pair ++ (5 ∷ []))
unfolding encode Forms.array_header Forms.bool Forms.str Forms.header Forms.str_header
reading-At = record { tail = 6 ∷ []; before = refl; ends = refl }

measure-encode_example : measure reading.buf 1 6 ≡ ok (some (1 + length (encode toy pair)))
measure-encode_example =
    measure-encode toy toy_laws 1 pair pair-IsWritable reading (5 ∷ []) reading-At

view-encode_example :
    (view reading ≡ ok (encode toy pair, advance (length (encode toy pair)) reading))
    × (skip reading ≡ ok (advance (length (encode toy pair)) reading))
view-encode_example = view-encode toy toy_laws 1 pair pair-IsWritable reading (5 ∷ []) reading-At

measure_run : measure reading.buf 1 6 ≡ ok (some 5)
unfolding measure
measure_run = refl

measure_bounds_example : (1 < 5) × (5 ≤ 6)
measure_bounds_example = measure_bounds reading.buf 1 6 5 measure_run

-- the key "id" among three, the search begun at the last
abbrev keys : List (List ℕ)
keys = (b'a' ∷ []) ∷ (b'i' ∷ b'd' ∷ []) ∷ (b'i' ∷ b'x' ∷ []) ∷ []

abbrev at_key : Reader
at_key = record {
  buf = 162 ∷ b'i' ∷ b'd' ∷ 1 ∷ [];
  at = 0;
  end = 4;
  last_key = 0;
  last_key_len = 0;
}

at_key-At : At at_key (Forms.str_header 2 ++ ((b'i' ∷ b'd' ∷ []) ++ (1 ∷ [])))
unfolding Forms.str_header
at_key-At = record { tail = []; before = refl; ends = refl }

key_index_lem_example :
    (o : Option ℕ) × (key_index keys 2 at_key
      ≡ ok (key_at o, past_key (length (Forms.str_header 2)) 2 at_key))
    × Answers keys (b'i' ∷ b'd' ∷ []) o
key_index_lem_example =
    key_index_lem keys 2 (b'i' ∷ b'd' ∷ []) (1 ∷ []) at_key (omega arith) (omega arith) at_key-At

key_index_run : key_index keys 2 at_key ≡ ok (key_at (some 1), past_key 1 2 at_key)
unfolding key_index
key_index_run = refl

-- an array that holds a function
abbrev holds_other : Value
holds_other = Value.array (Items.item Value.null (Items.item Value.other Items.no_items))

any-problem_example : EndsWith (problem 513 holds_other) (Writer.any toy 513 holds_other small)
any-problem_example = any-problem toy 513 holds_other small

problem_run : problem 513 holds_other ≡ some no_form
unfolding problem
problem_run = refl
