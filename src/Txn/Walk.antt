-- ===== src/Txn/Walk.antt =====
-- The walk of a transaction goes over its live keys: those whose value, its updates counted, is there.
use phaselock.Prelude.{
  ◌≤◌, ◌≡◌, ◌∙◌, refl, ap, List, [], ◌∷◌, Bool, true, false, ◌&&◌, Option, some, length, arith,
  Bool-cases, inl, inr, All,
}
use phaselock.Keys.{Key, starts_with}
use phaselock.Keys.Order.{IsKey, ◌≺◌}
use phaselock.Keys.Sorted.{IsSorted, member}
use phaselock.Layer.{Layer, names, has, is_some, layer_get}
use phaselock.Layer.Laws.{layer_keys_lem, has-get}
use phaselock.KeyList.{keys}
use phaselock.KeyList.Laws.{IsSearchable}
use phaselock.Cursor.{KeyCursor, array_cursor}
use phaselock.Cursor.Walks.{Walks, filter, onward, length-filter-le}
use phaselock.Cursor.Array.{array_cursor-Walks}
use phaselock.Cursor.Filter.{filter_cursor-Walks, shown}
use phaselock.Cursor.Merge.{
  merge_cursors-Walks, merge, merge-nil, length-merge, Disjoint, All-filter,
}
use phaselock.Cursor.Blocks.{list_cursor}
use phaselock.Cursor.Blocks.Back.{list_cursor-Walks}
use phaselock.Txn.{
  Txn, updated, pending, txn_cursor, shown_cursor, with_pending, with_updates, keys_under, rounds,
}
use phaselock.Txn.Sorted.{take_under-filter, merge-IsSorted, All-merge}
use phaselock.Txn.Live.{
  under_loop-take_under, All-of_member, All-IsKey, member-filter, member-merge, apart,
  length-layer_keys,
}

with_pending-Walks :
    (shown_ : KeyCursor) (stored pend : List Key)
    → Walks shown_ false stored
    → All IsKey stored
    → All IsKey pend
    → IsSorted pend
    → length pend ≤ 2147483648
    → Disjoint stored pend
    → Walks (with_pending shown_ pend false) false (merge false stored pend)
with_pending-Walks c stored [] w hs hp sp small d = rw (merge-nil false stored) w
with_pending-Walks c stored (k ∷ ks) w hs hp sp small d =
    merge_cursors-Walks c (array_cursor (k ∷ ks) false) w
      (array_cursor-Walks (k ∷ ks) hp sp small).0 hs hp d

filter-IsSorted : (p : Key → Bool) (xs : List Key) → IsSorted xs → IsSorted (filter p xs)
filter-IsSorted p [] s = tt
filter-IsSorted p (x ∷ xs) s = elim (Bool-cases (p x)) [
  | inl e ↦ rw e (All-filter (λ y. x ≺ y) p xs s.0, filter-IsSorted p xs s.1)
  | inr e ↦ rw e (filter-IsSorted p xs s.1)
]

eq_nil_of_le : (ks : List Key) → length ks ≤ 0 → ks ≡ []
eq_nil_of_le [] h = refl
eq_nil_of_le (k ∷ ks) h = absurd (omega arith)

All-shown :
    (q : Key → Bool) → ((k : Key) → q k ≡ false) → (ks : List Key) → filter (shown q) ks ≡ ks
All-shown q h [] = refl
All-shown q h (k ∷ ks) = rw (h k, All-shown q h ks) refl

with_updates-Walks :
    {V : Type 0} (u : Layer (Option V)) (c shadowed : KeyCursor) (all live : List Key)
    → Walks c false all
    → Walks shadowed false live
    → (u ≡ [] → all ≡ live)
    → Walks (with_updates u c shadowed) false live
with_updates-Walks [] c shadowed all live w s e = rw (← e refl) w
with_updates-Walks (x ∷ u) c shadowed all live w s e = s

module _ {V : Type 0} (t : Txn V) (prefix : Key) (v : IsSearchable t.keys.blocks)
    (units : All IsKey (names t.updates)) (small : length t.updates ≤ 2147483648) where
  abbrev stored : List Key
  stored = filter (shown (updated t)) (keys t.keys)

  -- the keys that the walk goes over
  abbrev live : List Key
  live = merge false stored (pending t prefix)

  pending-updated : (k : Key) → member k (pending t prefix) ≡ true → has k t.updates ≡ true
  pending-updated k m =
      let e = (layer_keys_lem (λ k. starts_with prefix k) (t.updates ∷ []) (units, tt)).1 k in
      ground arith

  pending-IsKey : All IsKey (pending t prefix)
  pending-IsKey =
      All-IsKey (pending t prefix) (names t.updates) units
        (All-of_member (updated t) (pending t prefix) pending-updated)

  pending-IsSorted : IsSorted (pending t prefix)
  pending-IsSorted = (layer_keys_lem (λ k. starts_with prefix k) (t.updates ∷ []) (units, tt)).0

  pending_short : length (pending t prefix) ≤ length t.updates
  pending_short = length-layer_keys (λ k. starts_with prefix k) t.updates

  stored_apart : Disjoint stored (pending t prefix)
  stored_apart =
      apart (updated t) (keys t.keys) (pending t prefix)
        (All-of_member (updated t) (pending t prefix) pending-updated)

  stored-IsKey : All IsKey stored
  stored-IsKey = All-filter IsKey (shown (updated t)) (keys t.keys) v.units

  live_shadowed : Walks (with_pending (shown_cursor t false) (pending t prefix) false) false live
  live_shadowed =
      with_pending-Walks (shown_cursor t false) stored (pending t prefix)
        (filter_cursor-Walks (list_cursor t.keys false) (updated t) (list_cursor-Walks t.keys v).0
          (length (keys t.keys)) (omega arith))
        stored-IsKey pending-IsKey pending-IsSorted (omega (arith, pending_short)) stored_apart

  live_plain : t.updates ≡ [] → keys t.keys ≡ live
  live_plain e =
      let none_ : length t.updates ≡ 0 = ap length e in
      let pend : pending t prefix ≡ [] =
        eq_nil_of_le (pending t prefix) (omega (arith, pending_short)) in
      let free : (k : Key) → updated t k ≡ false = λ k. rw e refl in
      rw (pend, merge-nil false stored, All-shown (updated t) free (keys t.keys)) refl

  txn_cursor-Walks : Walks (txn_cursor t prefix false) false live
  txn_cursor-Walks =
      with_updates-Walks t.updates (list_cursor t.keys false)
        (with_pending (shown_cursor t false) (pending t prefix) false) (keys t.keys) live
        (list_cursor-Walks t.keys v).0 live_shadowed live_plain

  length-live : length live ≤ rounds t
  length-live =
      rw (length-merge false stored (pending t prefix))
        (omega (arith, pending_short, length-filter-le (shown (updated t)) (keys t.keys)))

  live-IsSorted : IsSorted live
  live-IsSorted =
      merge-IsSorted stored (pending t prefix) stored-IsKey pending-IsKey
        (filter-IsSorted (shown (updated t)) (keys t.keys) v.sorted) pending-IsSorted stored_apart

  keys_under-filter : IsKey prefix → keys_under t prefix ≡ filter (λ k. starts_with prefix k) live
  unfolding keys_under
  keys_under-filter hp =
      let c = txn_cursor t prefix false in
      let w = txn_cursor-Walks in
      let ahead = filter (onward false (some prefix) false) live in
      let bound = length-filter-le (onward false (some prefix) false) live in
      under_loop-take_under c w prefix (rounds t) (c.seek (some prefix) false c.start) ahead
        (omega (arith, length-live)) (w.seek_rest (some prefix) false c.start hp)
      ∙ take_under-filter prefix live hp
          (All-merge IsKey stored (pending t prefix) stored-IsKey pending-IsKey) live-IsSorted

  member-live :
      ((k : Key) → member k (keys t.keys) ≡ has k t.values)
      → (k : Key)
      → (starts_with prefix k && member k live)
        ≡ (is_some (layer_get t.values t.updates k) && starts_with prefix k)
  unfolding layer_get
  member-live same k = ground (
    arith,
    same k,
    member-merge k stored (pending t prefix),
    member-filter (shown (updated t)) k (keys t.keys),
    (layer_keys_lem (λ k. starts_with prefix k) (t.updates ∷ []) (units, tt)).1 k,
    has-get k t.values,
    has-get k t.updates,
  )

  -- In a transaction over searchable blocks of keys, those of its stored values, with at most 2^31
  -- updates to keys of 16-bit units, the keys under a prefix of 16-bit units are listed in
  -- ascending order, and are exactly the keys that start with it and read a value in the
  -- transaction.
  pub keys_under_lem :
      ((k : Key) → member k (keys t.keys) ≡ has k t.values)
      → IsKey prefix
      → IsSorted (keys_under t prefix)
        × ((k : Key)
            → member k (keys_under t prefix)
              ≡ (is_some (layer_get t.values t.updates k) && starts_with prefix k))
  keys_under_lem same hp = rw (keys_under-filter hp) (
    filter-IsSorted (λ k. starts_with prefix k) live live-IsSorted,
    λ k. member-filter (λ k. starts_with prefix k) k live ∙ member-live same k,
  )
