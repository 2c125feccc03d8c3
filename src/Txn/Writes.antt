-- ===== src/Txn/Writes.antt =====
-- What a transaction reads after it deletes the keys under a prefix.
use phaselock.Prelude.{
  ◌≤◌, ◌≡◌, ◌∙◌, refl, List, [], ◌∷◌, true, ◌&&◌, Option, none, some, if◌then◌else◌, length, arith,
  All,
}
use phaselock.Keys.{Key, starts_with}
use phaselock.Keys.Order.{IsKey}
use phaselock.Keys.Sorted.{IsSorted, member}
use phaselock.Layer.{Layer, names, get, has, is_some, put, layer_get}
use phaselock.Layer.Laws.{get-put, has-put}
use phaselock.KeyList.{keys}
use phaselock.KeyList.Laws.{IsSearchable}
use phaselock.Txn.{Txn, keys_under, del_prefix, del_all}
use phaselock.Txn.Walk.{keys_under_lem}

module _ {V : Type 0} where
  has-del_all :
      (ks : List Key) (u : Layer (Option V)) (j : Key)
      → has j (del_all ks u) ≡ (if member j ks then true else has j u)
  has-del_all [] u j = refl
  has-del_all (k ∷ ks) u j = has-del_all ks (put k none u) j ∙ (ground (arith, has-put k j none u))

  get-del_all :
      (ks : List Key) (u : Layer (Option V)) (j : Key)
      → get j (del_all ks u) ≡ (if member j ks then some none else get j u)
  get-del_all [] u j = refl
  get-del_all (k ∷ ks) u j = get-del_all ks (put k none u) j ∙ (ground (arith, get-put k j none u))

  pub layer_get-del_all :
      (values : Layer V) (ks : List Key) (u : Layer (Option V)) (j : Key)
      → layer_get values (del_all ks u) j ≡ (if member j ks then none else layer_get values u j)
  unfolding layer_get
  layer_get-del_all values ks u j = ground (arith, has-del_all ks u j, get-del_all ks u j)

  -- In a transaction over searchable blocks of keys, those of its stored values, with at most 2^31
  -- updates to keys of 16-bit units, deleting a prefix of 16-bit units leaves no key under it that
  -- reads a value and every other key as it was, and answers the keys under it that read a value
  -- before, in ascending order.
  pub del_prefix_lem :
      (t : Txn V) (prefix : Key)
      → IsSearchable t.keys.blocks
      → All IsKey (names t.updates)
      → length t.updates ≤ 2147483648
      → ((k : Key) → member k (keys t.keys) ≡ has k t.values)
      → IsKey prefix
      → ((k : Key)
          → layer_get (del_prefix prefix t).0.values (del_prefix prefix t).0.updates k
            ≡ (if starts_with prefix k then none else layer_get t.values t.updates k))
        × IsSorted (del_prefix prefix t).1
        × ((k : Key)
            → member k (del_prefix prefix t).1
              ≡ (is_some (layer_get t.values t.updates k) && starts_with prefix k))
  unfolding del_prefix
  del_prefix_lem t prefix v units small same hp =
      let listed = keys_under_lem t prefix v units small same hp in
      (
        λ k.
            layer_get-del_all t.values (keys_under t prefix) t.updates k
            ∙ ground (arith, listed.1 k),
        listed.0,
        listed.1,
      )
