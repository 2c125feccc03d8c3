-- ===== src/Msgpack/Writer.antt =====
-- `Writer` and `encodeAny` of client/ts/src/msgpack.ts: a buffer that grows, and the operations that
-- write at its cursor. `Forms` holds the bytes that each one puts.
pub mod Laws
pub mod Refines
pub mod Errors
use phaselock.Prelude.{
  ℕ, zero, suc, ◌+◌, ◌-◌, ◌*◌, List, [], ◌∷◌, ◌++◌, Bool, true, false, if◌then◌else◌, ltb, leb, ℤ,
  take, length,
}
use phaselock.Keys.{Key}
use phaselock.Msgpack.{
  Error, too_deep, no_form, Result, ok, thrown, ◌>>=◌, Vendor, Num, whole, float, Date,
}
use phaselock.Msgpack.Value.{Value, Items, Fields, count_items, count_fields, defined}
use phaselock.Msgpack.Any.{levels}
use phaselock.Msgpack.Forms

pub record Writer : Type 0 where
  pub buf : List ℕ
  pub at : ℕ

-- `new Uint8Array(n)`
abbrev pub zeros : ℕ → List ℕ
zeros zero = []
zeros (suc n) = 0 ∷ zeros n

unfoldable pub new_writer : Writer
new_writer = record { buf = zeros 1024; at = 0 }

-- `while (size < pos + n) size *= 2`
unfoldable pub doubled : ℕ → ℕ → ℕ → ℕ
doubled zero size target = size
doubled (suc fuel) size target =
    let more = doubled fuel (size * 2) target in if ltb size target then more else size

-- The buffer past the cursor is not copied.
unfoldable pub ensure : ℕ → Writer → Writer
unfolding doubled
ensure n w =
    let target = w.at + n in
    let size = doubled target (length w.buf * 2) target in
    if leb target (length w.buf)
    then w
    else record w { buf = take w.at w.buf ++ zeros (size - w.at) }

-- bytes written over a buffer's; those past its end are dropped
abbrev pub overwrite : List ℕ → List ℕ → List ℕ
overwrite xs [] = xs
overwrite [] (b ∷ bs) = []
overwrite (x ∷ xs) (b ∷ bs) = b ∷ overwrite xs bs

abbrev pub store : ℕ → List ℕ → List ℕ → List ℕ
store zero xs bs = overwrite xs bs
store (suc n) [] bs = []
store (suc n) (x ∷ xs) bs = x ∷ store n xs bs

-- `ensure(n)`, then the bytes at the cursor, which moves past them
unfoldable pub put : ℕ → List ℕ → Writer → Writer
unfolding ensure
put n bs w =
    let w' = ensure n w in record w' { buf = store w'.at w'.buf bs; at = w'.at + length bs }

unfoldable pub array_header : ℕ → Writer → Writer
unfolding put
array_header n w = put 5 (Forms.array_header n) w

unfoldable pub map_header : ℕ → Writer → Writer
unfolding put
map_header n w = put 5 (Forms.map_header n) w

unfoldable pub bool : Bool → Writer → Writer
unfolding put
bool b w = put 1 (Forms.bool b) w

unfoldable pub bin : List ℕ → Writer → Writer
unfolding put
bin b w = put (5 + length b) (Forms.bin b) w

unfoldable pub nil : Writer → Writer
unfolding put
nil w = put 1 Forms.nil w

unfoldable pub float64 : List ℕ → Writer → Writer
unfolding put
float64 bs w = put 9 (Forms.float64 bs) w

unfoldable pub raw : List ℕ → Writer → Writer
unfolding put
raw b w = put (length b) b w

unfoldable pub bytes : Writer → List ℕ
bytes w = take w.at w.buf

unfoldable pub reset : Writer → Writer
reset w = record w { at = 0 }

module _ (v : Vendor) where
  unfoldable pub str : Key → Writer → Writer
  unfolding put
  str s w = put (5 + v.utf8_count s) (Forms.str v s) w

  unfoldable pub int : ℤ → Writer → Writer
  unfolding put
  int z w = put 9 (Forms.int v z) w

  unfoldable pub timestamp : Date → Writer → Writer
  unfolding put
  timestamp d w = put 15 (Forms.date v d) w

  abbrev pub number : Num → Writer → Writer
  number (whole z) w = int z w
  number (float bs) w = float64 bs w

  -- The loops over the elements and the entries, `write` the call of `any` one level deeper.
  unfoldable pub any_items : (Value → Writer → Result Writer) → Items → Writer → Result Writer
  any_items write Items.no_items w = ok w
  any_items write (Items.item x xs) w = write x w >>= any_items write xs

  unfoldable pub any_fields : (Value → Writer → Result Writer) → Fields → Writer → Result Writer
  any_fields write Fields.no_fields w = ok w
  any_fields write (Fields.field k x fs) w = write x (str k w) >>= any_fields write fs

  unfoldable pub any_of : (Value → Writer → Result Writer) → Value → Writer → Result Writer
  unfolding any_items any_fields defined int float64 nil bool str timestamp array_header map_header
  any_of write Value.undefined w = ok (nil w)
  any_of write Value.null w = ok (nil w)
  any_of write (Value.boolean b) w = ok (bool b w)
  any_of write (Value.number n) w = ok (number n w)
  any_of write (Value.string s) w = ok (str s w)
  any_of write (Value.date d) w = ok (timestamp d w)
  any_of write (Value.array xs) w = any_items write xs (array_header (count_items xs) w)
  any_of write (Value.object fs) w =
      let entries = defined fs in any_fields write entries (map_header (count_fields entries) w)
  any_of write Value.other w = thrown no_form

  -- `any`, with the levels that are left
  unfoldable pub any : ℕ → Value → Writer → Result Writer
  unfolding any_of
  any zero x w = thrown too_deep
  any (suc fuel) x w = any_of (any fuel) x w

  unfoldable pub encode_any : Value → Result (List ℕ)
  unfolding any new_writer bytes
  encode_any x = any levels x new_writer >>= λ w. ok (bytes w)
