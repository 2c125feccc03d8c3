-- ===== src/KeyList/Invariant.antt =====
-- What holds of every `KeyList` of the program between two operations.
use mathlib.Core.List.{flatten}
use phaselock.Prelude.{
  ℕ, ◌≤◌, ◌<◌, ◌≡◌, List, [], ◌∷◌, false, some, some_inj, arith, length, length-append, All,
  Bool-cases, inl, inr,
}
use phaselock.Keys.{Key}
use phaselock.Keys.Order.{IsKey}
use phaselock.Keys.Sorted.{
  IsSorted, erase, member, insert-IsSorted, erase-IsSorted, All-insert, All-erase,
}
use phaselock.KeyList.{KeyList, keys, add, remove, of, empty, insert_at}
use phaselock.KeyList.Partition.{NoneEmpty}
use phaselock.KeyList.Laws.{IsSearchable, keys-add, keys-remove, added, removed}
use phaselock.KeyList.Sizes.{
  IsSized, Fits, sized-Fits, insert_at-IsSized, remove_at-IsSized, insert_at-All,
  remove_at-NoneEmpty,
}
use phaselock.KeyList.Even.{keys-of, of-Fits}

-- What the searches and the store need: sorted keys, in blocks that are not empty.
pub record IsOrdered (l : KeyList) : Type 0 where
  pub sorted : IsSorted (keys l)
  pub units : All IsKey (keys l)
  pub filled : All (Fits 1) l.blocks

-- The same with the lengths that the class promises for its blocks.
pub record IsKeyList (l : KeyList) : Type 0 where
  pub sorted : IsSorted (keys l)
  pub units : All IsKey (keys l)
  pub sized : IsSized l.blocks

-- as many blocks as the searches' 32-bit midpoints allow
abbrev pub IsRoomy : KeyList → Type 0
IsRoomy l = length l.blocks ≤ 2147483648

Fits-NoneEmpty : (blocks : List (List Key)) → All (Fits 1) blocks → NoneEmpty blocks
Fits-NoneEmpty [] k = tt
Fits-NoneEmpty (b ∷ bs) k = (omega arith, Fits-NoneEmpty bs k.1)

Fits-short :
    (blocks : List (List Key))
    → All (Fits 1) blocks
    → All (λ block. length block ≤ 2147483648) blocks
Fits-short [] k = tt
Fits-short (b ∷ bs) k = (omega arith, Fits-short bs k.1)

pub searchable : (l : KeyList) → IsOrdered l → IsRoomy l → IsSearchable l.blocks
searchable l v room = record {
  sorted = v.sorted;
  units = v.units;
  none_empty = Fits-NoneEmpty l.blocks v.filled;
  short = (room, Fits-short l.blocks v.filled);
}

pub ordered : (l : KeyList) → IsKeyList l → IsOrdered l
ordered l v = record { sorted = v.sorted; units = v.units; filled = sized-Fits l.blocks v.sized }

pub empty-IsKeyList : IsKeyList empty
empty-IsKeyList = record { sorted = unfold flatten in tt; units = unfold flatten in tt; sized = tt }

module _ (key : Key) (hk : IsKey key) (l : KeyList) (o : IsOrdered l) (room : IsRoomy l) where
  added_blocks :
      (P : List (List Key) → Type 0)
      → P ((key ∷ []) ∷ [])
      → ((b i : ℕ) → b < length l.blocks → P (insert_at l.blocks key b i))
      → P (add key l).blocks
  added_blocks P single several = go l.blocks (searchable l o room) several
    where
      go :
          (blocks : List (List Key))
          → IsSearchable blocks
          → ((b i : ℕ) → b < length blocks → P (insert_at blocks key b i))
          → P (add key (record { blocks = blocks })).blocks
      go [] v f = unfold add in single
      go (block ∷ rest) v f =
          let (b, i, e, inside) = added key hk block rest v in rw e (f b i inside)

  pub add-IsOrdered : member key (keys l) ≡ false → IsOrdered (add key l)
  add-IsOrdered new =
      let v = searchable l o room in
      record {
        sorted = rw (keys-add key hk l v) (insert-IsSorted key (keys l) hk o.units o.sorted new);
        units = rw (keys-add key hk l v) (All-insert IsKey key (keys l) hk o.units);
        filled =
            added_blocks (λ blocks. All (Fits 1) blocks) (omega arith)
              (λ b i inside.
                insert_at-All 1 (omega arith) (omega arith) l.blocks key b i inside o.filled);
      }

  pub erased : {l' : KeyList} → remove key l ≡ some l' → keys l' ≡ erase key (keys l)
  erased {l'} e =
      let kept = rw e at (keys-remove key hk l (searchable l o room)) in
      elim (Bool-cases (member key (keys l))) [
        | inl m ↦ some_inj (rw m at kept)
        | inr m ↦ let failed = rw m at kept in absurd (cc)
      ]

  pub remove-IsOrdered : {l' : KeyList} → remove key l ≡ some l' → IsOrdered l'
  remove-IsOrdered {l'} e =
      let (b, i, kept, inside, at) = removed key hk l (searchable l o room) e in
      record {
        sorted = rw (erased e) (erase-IsSorted key (keys l) o.sorted);
        units = rw (erased e) (All-erase IsKey key (keys l) o.units);
        filled = rw kept (remove_at-NoneEmpty l.blocks b i inside at o.filled);
      }

module _ (key : Key) (hk : IsKey key) (l : KeyList) (v : IsKeyList l) (room : IsRoomy l) where
  -- Adding a key of 16-bit units that the list does not hold keeps the list sorted, without
  -- repetition, and the lengths of its blocks in bounds, in a list of at most 2^31 blocks.
  pub add-IsKeyList : member key (keys l) ≡ false → IsKeyList (add key l)
  add-IsKeyList new =
      let o = ordered l v in
      let added = add-IsOrdered key hk l o room new in
      record {
        sorted = added.sorted;
        units = added.units;
        sized =
            added_blocks key hk l o room IsSized (omega arith)
              (λ b i inside. insert_at-IsSized l.blocks key b i inside v.sized);
      }

  -- Removing a key of 16-bit units that the list holds keeps the list sorted and the lengths of
  -- its blocks in bounds, in a list of at most 2^31 blocks.
  pub remove-IsKeyList : {l' : KeyList} → remove key l ≡ some l' → IsKeyList l'
  remove-IsKeyList {l'} e =
      let o = ordered l v in
      let (b, i, kept, inside, at) = removed key hk l (searchable l o room) e in
      let less = remove-IsOrdered key hk l o room e in
      record {
        sorted = less.sorted;
        units = less.units;
        sized = rw kept (remove_at-IsSized l.blocks b i inside at v.sized);
      }

pub of-IsOrdered : (ks : List Key) → IsSorted ks → All IsKey ks → IsOrdered (of ks)
of-IsOrdered ks s u = record {
  sorted = rw (keys-of ks) s;
  units = rw (keys-of ks) u;
  filled = of-Fits ks;
}

-- No block is empty, so there are at most as many blocks as keys.
blocks-le-keys :
    (blocks : List (List Key)) → All (Fits 1) blocks → length blocks ≤ length (flatten blocks)
unfolding flatten
blocks-le-keys [] h = omega arith
blocks-le-keys (block ∷ rest) h =
    omega (arith, blocks-le-keys rest h.1, length-append {0} block (flatten rest))

pub IsRoomy-of_few : (l : KeyList) → IsOrdered l → length (keys l) ≤ 2147483648 → IsRoomy l
IsRoomy-of_few l o u = omega (arith, blocks-le-keys l.blocks o.filled)
