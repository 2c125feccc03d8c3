-- ===== src/Txn/Reps.antt =====
-- Values of an `InMemTxn` in and out of their representations: `get`, `set`, `#out` and `#bytes`. What
-- the registry of the generated code converts is the parameter `Registry`; copies of values are the
-- values themselves.
use phaselock.Prelude.{
  List, [], ◌∷◌, Bool, true, false, ◌||◌, Option, none, some, if◌then◌else◌, ◌≡◌, refl, arith,
}
use phaselock.Keys.{Key, key_eq}
use phaselock.Layer.{has, put, layer_get}
use phaselock.Txn.{Txn}
use Prim.Native.Nat.{ℕ}

pub data Rep : Type 0 where
  msgpack js : Rep
  -- a representation of the host
  other : ℕ → Rep

abbrev pub is_js : Rep → Bool
is_js Rep.js = true
is_js _ = false

-- A stored value: bytes that no read has decoded, or a decoded value.
pub data Stored (U : Type 0) : Type 0 where
  packed : List ℕ → Stored U
  decoded : U → Stored U

-- `convert`, where `none` is a conversion that throws; a byte array as a value; and the mode in which a
-- stored value that fails to decode is an error.
pub record Registry (U : Type 0) : Type 0 where
  pub convert : Key → U → Rep → Rep → Option U
  pub of_bytes : List ℕ → U
  pub to_bytes : U → List ℕ
  pub dev : Bool

abbrev pub edits_type : Key
edits_type = b'.' ∷ b'e' ∷ b'd' ∷ b'i' ∷ b't' ∷ b's' ∷ []

abbrev pub page_type : Key
page_type = b'.' ∷ b'p' ∷ b'a' ∷ b'g' ∷ b'e' ∷ []

-- `RAW_TYPES.has(type)`
abbrev pub is_raw : Key → Bool
is_raw ty = key_eq ty edits_type || key_eq ty page_type

abbrev pub then_some : {A B : Type 0} → Option A → (A → Option B) → Option B
then_some none f = none
then_some (some a) f = f a

-- the value that the rest is of
pub then_some-some :
    {A B : Type 0}
    → (o : Option A) (f : A → Option B) (y : B) → then_some o f ≡ some y
    → (x : A) × (o ≡ some x) × (f x ≡ some y)
then_some-some none f y e = ground (arith, e)
then_some-some (some x) f y e = (x, refl, e)

module _ {U : Type 0} (reg : Registry U) where
  unfoldable pub layer_in : Key → Rep → U → Option U
  layer_in ty rep u = if is_js rep then some u else reg.convert ty u rep Rep.js

  unfoldable pub layer_out : Key → U → Rep → Option U
  layer_out ty u rep = if is_js rep then some u else reg.convert ty u Rep.js rep

  -- `none` is the error thrown; `some none` is undefined
  abbrev pub or_absent : Option U → Option (Option U)
  or_absent (some u) = some (some u)
  or_absent none = if reg.dev then none else some none

  unfoldable pub decode_stored : Key → List ℕ → Option (Option U)
  decode_stored ty bytes = or_absent (reg.convert ty (reg.of_bytes bytes) Rep.msgpack Rep.js)

  unfoldable pub set : Key → Key → Rep → U → Txn (Stored U) → Option (Txn (Stored U))
  unfolding layer_in
  set key ty Rep.msgpack u t =
      some (record t { updates = put key (some (packed (reg.to_bytes u))) t.updates })
  set key ty rep u t =
      then_some (layer_in ty rep u)
        λ j. some (record t { updates = put key (some (decoded j)) t.updates })

  -- the decoded value in the place of its bytes
  abbrev pub replace : Key → U → Txn (Stored U) → Txn (Stored U)
  replace key j t =
      if has key t.updates
      then record t { updates = put key (some (decoded j)) t.updates }
      else record t { values = put key (decoded j) t.values }

  abbrev pub answer : Key → Rep → U → Txn (Stored U) → Option (Option U × Txn (Stored U))
  answer ty rep j t = then_some (layer_out ty j rep) λ u. some (some u, t)

  abbrev pub unpack :
      Key → Key → Rep → Txn (Stored U) → Option U → Option (Option U × Txn (Stored U))
  unpack key ty rep t none = some (none, t)
  unpack key ty rep t (some j) = answer ty rep j (replace key j t)

  -- what a stored value reads as
  unfoldable pub read_stored :
      Key → Key → Rep → Txn (Stored U) → Option (Stored U) → Option (Option U × Txn (Stored U))
  unfolding layer_out decode_stored
  read_stored key ty rep t none = some (none, t)
  read_stored key ty rep t (some (decoded j)) = answer ty rep j t
  read_stored key ty Rep.msgpack t (some (packed bytes)) = some (some (reg.of_bytes bytes), t)
  read_stored key ty rep t (some (packed bytes)) =
      if is_raw ty
      then then_some (reg.convert ty (reg.of_bytes bytes) Rep.msgpack rep) (λ u. some (some u, t))
      else then_some (decode_stored ty bytes) (unpack key ty rep t)

  -- `#out`, and so `get`
  unfoldable pub out : Key → Key → Rep → Txn (Stored U) → Option (Option U × Txn (Stored U))
  unfolding read_stored layer_get
  out key ty rep t = read_stored key ty rep t (layer_get t.values t.updates key)

abbrev pub bytes_or : {U : Type 0} → Option (Stored U) → Option (List ℕ)
bytes_or (some (packed bytes)) = some bytes
bytes_or (some (decoded u)) = none
bytes_or none = none

-- `#bytes`; `none` is the error "holds no bytes"
unfoldable pub bytes_at : {U : Type 0} → Key → Txn (Stored U) → Option (List ℕ)
unfolding layer_get
bytes_at key t = bytes_or (layer_get t.values t.updates key)
