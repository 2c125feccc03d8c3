-- ===== src/Msgpack/Any.antt =====
-- `Reader.any` and `decodeAny` of client/ts/src/msgpack.ts: any value, read with no schema.
use phaselock.Prelude.{ℤ, ℕ, zero, suc, List, Option, none, some, length}
use phaselock.Keys.{Key}
use phaselock.Msgpack.{
  Kind, too_deep, key_not_string, bin_value, trailing, Result, ok, thrown, ◌>>=◌, ◌>>◌, check,
  Vendor, whole,
}
use phaselock.Msgpack.Value.{Value, Items, Fields, set_entry}
use phaselock.Msgpack.Reader.{Reader, Read, kind, array_header, map_header, new_reader, done}
use phaselock.Msgpack.Reader.Scalars.{bool, nil, int, float_at, str, try_str, timestamp}

abbrev pub value {ℓ} : {A : Type ℓ} → (A → Value) → A × Reader → Result (Value × Reader)
value f (a, r) = ok (f a, r)

-- the first element before the others
abbrev pub cons : Value → Items × Reader → Read Items
cons x (xs, r) = ok (Items.item x xs, r)

abbrev pub key_or : Option Key × Reader → Read Key
key_or (some k, r) = ok (k, r)
key_or (none, r) = thrown key_not_string

-- `MAX_DEPTH` is 512, and the first level is 0: 513 levels are read.
abbrev pub levels : ℕ
levels = 513

module _ (v : Vendor) where
  -- The loops over the elements and the entries, `read` the call of `any` one level deeper.
  unfoldable pub any_items : (Reader → Read Value) → ℕ → Reader → Read Items
  any_items read zero r = ok (Items.no_items, r)
  any_items read (suc n) r = do (x, r') ← read r; rest ← any_items read n r'; cons x rest

  unfoldable pub any_fields : (Reader → Read Value) → ℕ → Fields → Reader → Read Fields
  any_fields read zero out r = ok (out, r)
  any_fields read (suc n) out r = do
    o ← try_str v r
    (key, r') ← key_or o
    (x, r'') ← read r'
    any_fields read n (set_entry out key x) r''

  -- the value of a kind
  unfoldable pub any_of : (Reader → Read Value) → Kind → Reader → Read Value
  unfolding any_items any_fields
  any_of read Kind.nil r = do r' ← nil r; ok (Value.null, r')
  any_of read Kind.bool r = do b ← bool r; value Value.boolean b
  any_of read Kind.int r = do z ← int v r; value (λ (n : ℤ). Value.number (whole n)) z
  any_of read Kind.float r = do x ← float_at v r; value Value.number x
  any_of read Kind.str r = do s ← str v r; value Value.string s
  any_of read Kind.ext r = do d ← timestamp v r; value Value.date d
  any_of read Kind.array r = do
    (n, r') ← array_header r
    xs ← any_items read n r'
    value Value.array xs
  any_of read Kind.map r = do
    (n, r') ← map_header r
    fs ← any_fields read n Fields.no_fields r'
    value Value.object fs
  any_of read Kind.bin r = thrown bin_value

  -- `any`, with the levels that are left
  unfoldable pub any : ℕ → Reader → Read Value
  unfolding any_of
  any zero r = thrown too_deep
  any (suc fuel) r = do k ← kind r; any_of (any fuel) k r

  abbrev pub whole_value : Value × Reader → Result Value
  whole_value (x, r) = do check (done r) trailing; ok x

  unfoldable pub decode_any : List ℕ → Result Value
  unfolding any new_reader
  decode_any buf = do r ← any levels (new_reader buf 0 (length buf)); whole_value r
