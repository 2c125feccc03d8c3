-- ===== src/Txn.antt =====
-- A transaction of the in-memory store of typespec/ts/assets/skeleton.ts: class `InMemTxn`, the
-- walks over the stored keys and its updates, and deletions. Values are those of a type `V`.
pub mod Sorted
pub mod Live
pub mod Walk
pub mod Writes
pub mod Reps
pub mod Apply
pub mod Rereads
use phaselock.Prelude.{
  ℕ, zero, suc, ◌+◌, List, [], ◌∷◌, Bool, true, false, Option, none, some, if◌then◌else◌, length,
}
use phaselock.Keys.{Key, starts_with}
use phaselock.Layer.{Layer, has, put, layer_get, layer_keys}
use phaselock.KeyList.{KeyList, keys}
use phaselock.Cursor.{KeyCursor, array_cursor, filter_cursor, merge_cursors}
use phaselock.Cursor.Blocks.{list_cursor}

-- `#values`, `#keys` and `#updates`
pub record Txn (V : Type 0) : Type 0 where
  pub values : Layer V
  pub keys : KeyList
  pub updates : Layer (Option V)

-- `del`
unfoldable pub del : {V : Type 0} → Key → Txn V → Txn V
del key t = record t { updates = put key none t.updates }

-- the cursor merged with one over the updates' keys, where there are any
abbrev pub with_pending : KeyCursor → List Key → Bool → KeyCursor
with_pending shown [] reverse = shown
with_pending shown (k ∷ ks) reverse = merge_cursors shown (array_cursor (k ∷ ks) reverse) reverse

module _ {V : Type 0} where
  -- an update covers the key
  abbrev pub updated : Txn V → Key → Bool
  updated t k = has k t.updates

  -- the stored keys that no update shadows
  abbrev pub shown_cursor : Txn V → Bool → KeyCursor
  shown_cursor t reverse =
      filter_cursor (list_cursor t.keys reverse) (updated t) (length (keys t.keys))

  -- the live keys of the updates under a prefix
  abbrev pub pending : Txn V → Key → List Key
  pending t prefix = layer_keys (λ k. starts_with prefix k) (t.updates ∷ [])

  -- the stored keys' cursor alone where there is no update
  abbrev pub with_updates : Layer (Option V) → KeyCursor → KeyCursor → KeyCursor
  with_updates [] stored shadowed = stored
  with_updates (u ∷ us) stored shadowed = shadowed

  -- `#cursor`
  abbrev pub txn_cursor : Txn V → Key → Bool → KeyCursor
  txn_cursor t prefix reverse =
      with_updates t.updates (list_cursor t.keys reverse)
        (with_pending (shown_cursor t reverse) (pending t prefix) reverse)

-- the loop of `#keysUnder`, on fuel: each round takes one key
unfoldable pub under_loop : (c : KeyCursor) → ℕ → Key → c.State → List Key
under_loop c zero prefix s = []
under_loop c (suc fuel) prefix s =
    let rest = under_loop c fuel prefix (c.step s) in
    elim (c.key s) [ none ↦ [] | some k ↦ if starts_with prefix k then k ∷ rest else [] ]

module _ {V : Type 0} where
  -- as many rounds as there are keys to walk, stored and updated
  abbrev pub rounds : Txn V → ℕ
  rounds t = length (keys t.keys) + length t.updates

  unfoldable pub keys_under : Txn V → Key → List Key
  unfolding under_loop
  keys_under t prefix =
      let c = txn_cursor t prefix false in
      under_loop c (rounds t) prefix (c.seek (some prefix) false c.start)

  -- each key marked as deleted, in turn
  abbrev del_all : List Key → Layer (Option V) → Layer (Option V)
  del_all [] updates = updates
  del_all (k ∷ ks) updates = del_all ks (put k none updates)

  -- `delPrefix`
  unfoldable pub del_prefix : Key → Txn V → Txn V × List Key
  unfolding keys_under
  del_prefix prefix t =
      let ks = keys_under t prefix in (record t { updates = del_all ks t.updates }, ks)
