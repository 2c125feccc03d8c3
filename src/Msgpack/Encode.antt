-- ===== src/Msgpack/Encode.antt =====
-- The msgpack form of a value as one list of bytes, with no buffer and no cursor, and the values that
-- have one.
use phaselock.Prelude.{
  ℕ, zero, suc, ◌≤◌, ◌<◌, ◌≡◌, arith, List, [], ◌++◌, if◌then◌else◌, length, true,
}
use phaselock.Keys.{Key}
use phaselock.Msgpack.{Vendor, Num, whole, float, IsSafe, IsString, time, invalid, in_range}
use phaselock.Msgpack.Value.{
  Value, Items, Fields, count_items, count_fields, defined, is_defined, set_entry,
}
use phaselock.Msgpack.Forms

abbrev pub encode_number : Vendor → Num → List ℕ
encode_number v (whole z) = Forms.int v z
encode_number v (float bs) = Forms.float64 bs

-- A field that holds undefined is left out.
abbrev pub encode_field : Vendor → Key → Value → List ℕ → List ℕ → List ℕ
encode_field v k x bs rest = if is_defined x then Forms.str v k ++ (bs ++ rest) else rest

unfoldable mutual
  pub encode : Vendor → Value → List ℕ
  encode v Value.undefined = Forms.nil
  encode v Value.null = Forms.nil
  encode v (Value.boolean b) = Forms.bool b
  encode v (Value.number n) = encode_number v n
  encode v (Value.string s) = Forms.str v s
  encode v (Value.date d) = Forms.date v d
  encode v (Value.array xs) = Forms.array_header (count_items xs) ++ encode_items v xs
  encode v (Value.object fs) = Forms.map_header (count_fields (defined fs)) ++ encode_fields v fs
  encode v Value.other = []

  pub encode_items : Vendor → Items → List ℕ
  encode_items v Items.no_items = []
  encode_items v (Items.item x xs) = encode v x ++ encode_items v xs

  pub encode_fields : Vendor → Fields → List ℕ
  encode_fields v Fields.no_fields = []
  encode_fields v (Fields.field k x fs) = encode_field v k x (encode v x) (encode_fields v fs)

-- A number is a safe integer, or it is read back from its own pattern.
abbrev pub IsNumber : Vendor → Num → Type 0
IsNumber v (whole z) = IsSafe z
IsNumber v (float bs) = (length bs ≡ 8) × (v.get_float64 bs ≡ float bs)

abbrev pub IsText : Vendor → Key → Type 0
IsText v s = IsString s × (v.utf8_count s < 4294967296)

-- The values with a form, nested at most n levels below the first, each count in 32 bits.
unfoldable mutual
  pub IsWritable : Vendor → ℕ → Value → Type 0
  IsWritable v n Value.undefined = Unit
  IsWritable v n Value.null = Unit
  IsWritable v n (Value.boolean b) = Unit
  IsWritable v n (Value.number z) = IsNumber v z
  IsWritable v n (Value.string s) = IsText v s
  IsWritable v n (Value.date (time ms)) = in_range ms ≡ true
  IsWritable v n (Value.date invalid) = ⊥
  IsWritable v n (Value.array xs) = (count_items xs < 4294967296) × ItemsWritable v n xs
  IsWritable v n (Value.object fs) = (count_fields fs < 4294967296) × FieldsWritable v n fs
  IsWritable v n Value.other = ⊥

  pub ItemsWritable : Vendor → ℕ → Items → Type 0
  ItemsWritable v n Items.no_items = Unit
  ItemsWritable v zero (Items.item x xs) = ⊥
  ItemsWritable v (suc n) (Items.item x xs) = IsWritable v n x × ItemsWritable v (suc n) xs

  pub FieldsWritable : Vendor → ℕ → Fields → Type 0
  FieldsWritable v n Fields.no_fields = Unit
  FieldsWritable v zero (Fields.field k x fs) = ⊥
  FieldsWritable v (suc n) (Fields.field k x fs) =
      IsText v k × IsWritable v n x × FieldsWritable v (suc n) fs

-- What is read back: null for undefined, and an object with the fields that are defined.
unfoldable mutual
  unfolding set_entry

  pub kept : Value → Value
  kept Value.undefined = Value.null
  kept Value.null = Value.null
  kept (Value.boolean b) = Value.boolean b
  kept (Value.number n) = Value.number n
  kept (Value.string s) = Value.string s
  kept (Value.date d) = Value.date d
  kept (Value.array xs) = Value.array (kept_items xs)
  kept (Value.object fs) = Value.object (kept_fields Fields.no_fields fs)
  kept Value.other = Value.other

  pub kept_items : Items → Items
  kept_items Items.no_items = Items.no_items
  kept_items (Items.item x xs) = Items.item (kept x) (kept_items xs)

  pub kept_fields : Fields → Fields → Fields
  kept_fields out Fields.no_fields = out
  kept_fields out (Fields.field k x fs) =
      kept_fields (if is_defined x then set_entry out k (kept x) else out) fs

pub defined-le : (fs : Fields) → count_fields (defined fs) ≤ count_fields fs
unfolding defined
defined-le Fields.no_fields = omega arith
defined-le (Fields.field k x fs) = ground (arith, defined-le fs)
