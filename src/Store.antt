-- ===== src/Store.antt =====
-- The in-memory store of typespec/ts/assets/skeleton.ts: the commit of a transaction's updates to the
-- values and to the sorted list of keys, class `InMemStore`.
pub mod Commit
pub mod Keeps
use phaselock.Prelude.{
  ℕ, ◌+◌, ◌*◌, List, [], ◌∷◌, ◌++◌, Bool, true, false, Option, none, some, if◌then◌else◌, length,
  ltb,
}
use phaselock.Keys.{Key, sort_keys}
use phaselock.Layer.{Layer, names, has, put, delete}
use phaselock.KeyList
use phaselock.KeyList.{KeyList}

infixl 5 ◌>>=◌
abbrev pub ◌>>=◌ {ℓ κ} : {A : Type ℓ} {B : Type κ} → Option A → (A → Option B) → Option B
none >>= f = none
some a >>= f = f a

module _ (V : Type 0) where
  -- `#values` and `#keys`
  pub record Store : Type 0 where
    pub values : Layer V
    pub keys : KeyList

  -- the values as the loop of `#commit` changes them, with the keys that appear and those that go
  pub record Changes : Type 0 where
    pub values : Layer V
    pub added : List Key
    pub removed : List Key

-- `for (const key of removed) this.#keys.remove(key)`, which throws for a key that is not held
unfoldable pub remove_all : List Key → KeyList → Option KeyList
remove_all [] l = some l
remove_all (key ∷ removed) l = do less ← KeyList.remove key l; remove_all removed less

unfoldable pub add_all : List Key → KeyList → KeyList
add_all [] l = l
add_all (key ∷ added) l = add_all added (KeyList.add key l)

module _ {V : Type 0} where
  abbrev pub empty : Store V
  empty = record { values = []; keys = KeyList.empty }

  -- one round of the loop of `#commit`
  unfoldable pub change : Key → Option V → Changes V → Changes V
  change key none c =
      if has key c.values
      then record c { values = delete key c.values; removed = c.removed ++ key ∷ [] }
      else c
  change key (some v) c = record c {
    values = put key v c.values;
    added = (if has key c.values then c.added else c.added ++ key ∷ []);
  }

  unfoldable pub change_all : Layer (Option V) → Changes V → Changes V
  change_all [] c = c
  change_all ((key, o) ∷ updates) c = change_all updates (change key o c)

  abbrev pub no_changes : Store V → Changes V
  no_changes s = record { values = s.values; added = []; removed = [] }

  -- `#commit`: the keys are placed one by one, unless one sort of them all costs less
  unfoldable pub commit : Layer (Option V) → Store V → Option (Store V)
  commit updates s =
      let c = change_all updates (no_changes s) in
      if ltb (length c.values) (8 * (length c.added + length c.removed))
      then some (record { values = c.values; keys = KeyList.of (sort_keys (names c.values)) })
      else do
        less ← remove_all c.removed s.keys
        some (record { values = c.values; keys = add_all c.added less })
