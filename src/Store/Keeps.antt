-- ===== src/Store/Keeps.antt =====
-- A commit keeps the sorted list of keys in step with the values, and never fails.
use mathlib.Core.List.{flatten}
use phaselock.Prelude.{
  ◌+◌, ◌*◌, ◌≤◌, ◌≡◌, refl, ◌∙◌, List, [], ◌∷◌, Bool, true, false, Option, some, if◌then◌else◌,
  arith, All, Bool-cases, inl, inr, length, ltb,
}
use phaselock.Keys.{Key, sort_keys}
use phaselock.Keys.Order.{IsKey}
use phaselock.Keys.Sorted.{member}
use phaselock.Keys.Sort.{IsDistinct, sort_keys-IsSorted, member-sort_keys, All-sort_keys}
use phaselock.Layer.{Layer, names, get, has, layer_get}
use phaselock.KeyList
use phaselock.KeyList.{KeyList, keys, of}
use phaselock.KeyList.Even.{keys-of}
use phaselock.KeyList.Invariant.{IsOrdered, of-IsOrdered, empty-IsKeyList, ordered}
use phaselock.Store.{Store, Changes, change_all, no_changes, remove_all, add_all, commit, empty}
use phaselock.Store.Commit.{
  Follows, Untouched, remove_all_lem, add_all_lem, change_all-Follows, get-change_all, length-added,
}

still_absent :
    (ks old new added : List Key)
    → ((k : Key) → member k new ≡ (if member k ks then false else member k old))
    → All (λ k. member k old ≡ false) added
    → All (λ k. member k new ≡ false) added
still_absent ks old new [] h a = tt
still_absent ks old new (k ∷ added) h a = (ground (arith, h k), still_absent ks old new added h a.1)

module _ {V : Type 0} where
  -- What holds of the store between two transactions.
  pub record IsStore (s : Store V) : Type 0 where
    pub distinct : IsDistinct (names s.values)
    pub units : All IsKey (names s.values)
    pub ordered : IsOrdered s.keys
    pub same : (k : Key) → member k (keys s.keys) ≡ has k s.values

  All-Untouched : (ks : List Key) (s : Store V) → Untouched (no_changes s) ks
  All-Untouched [] s = tt
  All-Untouched (k ∷ ks) s = ((refl, refl), All-Untouched ks s)

  begin : (s : Store V) → IsStore s → Follows s.values (no_changes s)
  begin s v = record {
    distinct = v.distinct;
    units = v.units;
    added_distinct = tt;
    added_units = tt;
    added_new = tt;
    removed_distinct = tt;
    removed_units = tt;
    removed_old = tt;
    tracks = λ k. refl;
  }

  pub empty-IsStore : IsStore empty
  empty-IsStore = record {
    distinct = tt;
    units = tt;
    ordered = ordered KeyList.empty empty-IsKeyList;
    same = λ k. unfold flatten in refl;
  }

  held_old :
      (s : Store V)
      → IsStore s
      → (b : Bool) (ks : List Key) → All (λ k. has k s.values ≡ b) ks
      → All (λ k. member k (keys s.keys) ≡ b) ks
  held_old s v b [] h = tt
  held_old s v b (k ∷ ks) h = (v.same k ∙ h.0, held_old s v b ks h.1)

  module _ (updates : Layer (Option V)) (s : Store V) (v : IsStore s)
      (u : All IsKey (names updates)) (d : IsDistinct (names updates)) where
    changes : Changes V
    changes = change_all updates (no_changes s)

    -- whether one sort costs less
    sorts : Bool
    sorts = ltb (length changes.values) (8 * (length changes.added + length changes.removed))

    follows : Follows s.values changes
    unfolding changes
    follows =
        change_all-Follows s.values updates (no_changes s) u d (All-Untouched (names updates) s)
          (begin s v)

    values_lem : (k : Key) → get k changes.values ≡ layer_get s.values updates k
    unfolding changes layer_get
    values_lem k =
        get-change_all s.values updates (no_changes s) k u d (All-Untouched (names updates) s)
          (begin s v)

    sorted_anew :
        IsStore (record { values = changes.values; keys = of (sort_keys (names changes.values)) })
    sorted_anew =
        let f = follows in
        let ks = sort_keys (names changes.values) in
        record {
          distinct = f.distinct;
          units = f.units;
          ordered =
              of-IsOrdered ks (sort_keys-IsSorted (names changes.values) f.units f.distinct)
                (All-sort_keys IsKey (names changes.values) f.units);
          same = λ k. rw (keys-of ks) (member-sort_keys k (names changes.values));
        }

    module _ (room : length (keys s.keys) + length updates ≤ 2147483648) where
      placed :
          (l : KeyList) × (remove_all changes.removed s.keys ≡ some l)
          × IsStore (record { values = changes.values; keys = add_all changes.added l })
      placed =
          let f = follows in
          let (l, e, r) =
            remove_all_lem changes.removed s.keys f.removed_units f.removed_distinct
              (held_old s v true changes.removed f.removed_old) v.ordered (omega arith) in
          let new =
            still_absent changes.removed (keys s.keys) (keys l) changes.added r.left
              (held_old s v false changes.added f.added_new) in
          let count : length changes.added ≤ length {A = Key} [] + length updates =
            unfold changes in length-added updates (no_changes s) in
          let a =
            add_all_lem changes.added l f.added_units f.added_distinct new r.ordered
              (omega (arith, r.fewer)) in
          (
            l,
            e,
            record {
              distinct = f.distinct;
              units = f.units;
              ordered = a.ordered;
              same = λ k. ground (arith, a.more k, r.left k, v.same k, f.tracks k);
            },
          )

      -- A commit of updates with distinct keys of 16-bit units to a store that is in step, so few
      -- that they and the keys fit in 2^31, succeeds, leaves the store in step, and gives every
      -- key the value that the transaction saw.
      pub commit_lem :
          (s' : Store V) × (commit updates s ≡ some s')
          × IsStore s'
          × ((k : Key) → get k s'.values ≡ layer_get s.values updates k)
      unfolding commit changes sorts
      commit_lem = elim (Bool-cases sorts) [
        | inl e ↦ (
          record { values = changes.values; keys = of (sort_keys (names changes.values)) },
          rw e refl,
          sorted_anew,
          values_lem,
        )
        | inr e ↦
            let (l, removed, store) = placed in
            (
              record { values = changes.values; keys = add_all changes.added l },
              rw (e, removed) refl,
              store,
              values_lem,
            )
      ]
