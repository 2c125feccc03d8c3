-- ===== src/Msgpack/Value.antt =====
-- The JavaScript values that the writer of client/ts/src/msgpack.ts takes with no schema and that its
-- reader makes. An object is the list of its entries, in the order in which they were set;
-- JavaScript lists keys that are array indices first, which is not modelled.
use phaselock.Prelude.{ℕ, suc, Bool, true, false, if◌then◌else◌}
use phaselock.Keys.{Key, key_eq}
use phaselock.Msgpack.{Num, Date}

mutual
  pub data Value : Type 0 where
    undefined null : Value
    boolean : Bool → Value
    number : Num → Value
    string : Key → Value
    date : Date → Value
    array : Items → Value
    object : Fields → Value
    -- a byte array, a Map or Set, a bigint, a function, a symbol
    other : Value

  pub data Items : Type 0 where
    no_items : Items
    item : Value → Items → Items

  pub data Fields : Type 0 where
    no_fields : Fields
    field : Key → Value → Fields → Fields

abbrev pub count_items : Items → ℕ
count_items no_items = 0
count_items (item v xs) = suc (count_items xs)

abbrev pub count_fields : Fields → ℕ
count_fields no_fields = 0
count_fields (field k v fs) = suc (count_fields fs)

-- `x !== undefined`
abbrev pub is_defined : Value → Bool
is_defined undefined = false
is_defined _ = true

-- `Object.entries(v).filter(([, x]) => x !== undefined)`
unfoldable pub defined : Fields → Fields
defined no_fields = no_fields
defined (field k v fs) = if is_defined v then field k v (defined fs) else defined fs

-- `setEntry`: a key that the object has keeps its place
unfoldable pub set_entry : Fields → Key → Value → Fields
set_entry no_fields key v = field key v no_fields
set_entry (field k w fs) key v =
    if key_eq k key then field k v fs else field k w (set_entry fs key v)
