-- ===== src/Tests/Txn.antt =====
-- A transaction over three stored keys, with three updates.
use mathlib.Core.List.{flatten}
use phaselock.Prelude.{ℕ, ◌≡◌, refl, [], ◌∷◌, ◌&&◌, some, none, arith, if◌then◌else◌}
use phaselock.Bisect.{bisect}
use phaselock.Keys.{
  Key, key_eq, compare_keys, exact_for, starts_with, sort_keys, sort, has_high_unit,
}
use phaselock.Keys.Sorted.{IsSorted, member}
use phaselock.Layer.{has, is_some, layer_get, layer_keys, collect_layers, collect_layer}
use phaselock.KeyList.{before_key, seek, keys}
use phaselock.KeyList.Laws.{IsSearchable}
use phaselock.Cursor.{merged_key, skip, array_seek}
use phaselock.Cursor.Blocks.{list_key, list_seek, list_step}
use phaselock.Txn.{Txn, keys_under, del_prefix}
use phaselock.Txn.Walk.{keys_under_lem}
use phaselock.Txn.Writes.{del_prefix_lem}

-- "a", "ab" and "b" are stored; "ab" is deleted, and "ac" and "c" are new.
abbrev txn : Txn ℕ
txn = record {
  values = (b'b' ∷ [], 1) ∷ (b'a' ∷ [], 2) ∷ (b'a' ∷ b'b' ∷ [], 3) ∷ [];
  keys = record { blocks = ((b'a' ∷ []) ∷ (b'a' ∷ b'b' ∷ []) ∷ []) ∷ ((b'b' ∷ []) ∷ []) ∷ [] };
  updates = (b'c' ∷ [], some 4) ∷ (b'a' ∷ b'b' ∷ [], none) ∷ (b'a' ∷ b'c' ∷ [], some 5) ∷ [];
}

keys_under_a : keys_under txn (b'a' ∷ []) ≡ (b'a' ∷ []) ∷ (b'a' ∷ b'c' ∷ []) ∷ []
unfolding keys_under flatten layer_keys sort_keys collect_layers key_eq starts_with merged_key
    list_key skip list_seek seek bisect before_key exact_for list_step array_seek sort collect_layer
    has_high_unit
keys_under_a = refl

txn-IsSearchable : IsSearchable txn.keys.blocks
unfolding flatten compare_keys
txn-IsSearchable = record {
  sorted = ((refl, (refl, tt)), ((refl, tt), (tt, tt)));
  units = omega arith;
  none_empty = omega arith;
  short = omega arith;
}

txn_in_step : (k : Key) → member k (keys txn.keys) ≡ has k txn.values
unfolding flatten
txn_in_step k = ground arith

keys_under_lem_example :
    IsSorted (keys_under txn (b'a' ∷ []))
    × ((k : Key)
        → member k (keys_under txn (b'a' ∷ []))
          ≡ (is_some (layer_get txn.values txn.updates k) && starts_with (b'a' ∷ []) k))
keys_under_lem_example =
    keys_under_lem txn (b'a' ∷ []) txn-IsSearchable (omega arith) (omega arith) txn_in_step
      (omega arith)

del_prefix_lem_example :
    ((k : Key)
      → layer_get (del_prefix (b'a' ∷ []) txn).0.values (del_prefix (b'a' ∷ []) txn).0.updates k
        ≡ (if starts_with (b'a' ∷ []) k then none else layer_get txn.values txn.updates k))
    × IsSorted (del_prefix (b'a' ∷ []) txn).1
    × ((k : Key)
        → member k (del_prefix (b'a' ∷ []) txn).1
          ≡ (is_some (layer_get txn.values txn.updates k) && starts_with (b'a' ∷ []) k))
del_prefix_lem_example =
    del_prefix_lem txn (b'a' ∷ []) txn-IsSearchable (omega arith) (omega arith) txn_in_step
      (omega arith)
