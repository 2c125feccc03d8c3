-- ===== src/Layer.antt =====
-- The in-memory layers of typespec/ts/assets/skeleton.ts: a JavaScript `Map` from keys to values, and
-- `layerKeys` and `layerGet` over such maps. In a layer of updates the value `undefined`, which
-- marks a deletion, is `none`.
pub mod Laws
use mathlib.Core.List.{reverse}
use phaselock.Prelude.{
  List, [], ◌∷◌, ◌++◌, Bool, true, false, ◌&&◌, Option, none, some, if◌then◌else◌,
}
use phaselock.Keys.{Key, key_eq, sort_keys}
use phaselock.Keys.Sorted.{member}

-- A `Map`, its entries in the order of their insertion.
abbrev pub Layer {ℓ} : Type ℓ → Type ℓ
Layer V = List (Key × V)

module _ {ℓ} {V : Type ℓ} where
  -- `map.keys()`
  abbrev pub names : Layer V → List Key
  names [] = []
  names ((k, v) ∷ m) = k ∷ names m

  -- `map.get(key)`, `none` where the key has no entry
  abbrev pub get : Key → Layer V → Option V
  get key [] = none
  get key ((k, v) ∷ m) = if key_eq k key then some v else get key m

  -- `map.has(key)`
  abbrev pub has : Key → Layer V → Bool
  has key m = member key (names m)

  -- `map.set(key, value)`: an entry keeps its place, a new one comes last
  abbrev pub put : Key → V → Layer V → Layer V
  put key v [] = (key, v) ∷ []
  put key v ((k, w) ∷ m) = if key_eq k key then (k, v) ∷ m else (k, w) ∷ put key v m

  -- `map.delete(key)`
  abbrev pub delete : Key → Layer V → Layer V
  delete key [] = []
  delete key ((k, w) ∷ m) = if key_eq k key then m else (k, w) ∷ delete key m

abbrev pub is_some {ℓ} : {A : Type ℓ} → Option A → Bool
is_some none = false
is_some (some a) = true

abbrev pub flat {ℓ} : {A : Type ℓ} → Option (Option A) → Option A
flat none = none
flat (some o) = o

module _ {ℓ} {V : Type ℓ} (keep : Key → Bool) where
  -- the inner loop over one layer's entries, with the keys seen and the keys picked out so far
  unfoldable pub collect_layer : Layer (Option V) → List Key → List Key → List Key × List Key
  collect_layer [] seen keys = (seen, keys)
  collect_layer ((k, v) ∷ m) seen keys =
      let skip = collect_layer m seen keys in
      let take =
        collect_layer m (k ∷ seen) (if is_some v && keep k then keys ++ k ∷ [] else keys) in
      if member k seen then skip else take

  unfoldable pub collect_layers : List (Layer (Option V)) → List Key → List Key → List Key
  collect_layers [] seen keys = keys
  collect_layers (m ∷ layers) seen keys =
      let (seen', keys') = collect_layer m seen keys in collect_layers layers seen' keys'

  -- the last layer comes first
  unfoldable pub layer_keys : List (Layer (Option V)) → List Key
  layer_keys layers = sort_keys (collect_layers (reverse layers) [] [])

-- the value under a transaction's updates
unfoldable pub layer_get {ℓ} : {V : Type ℓ} → Layer V → Layer (Option V) → Key → Option V
layer_get values updates key = if has key updates then flat (get key updates) else get key values
