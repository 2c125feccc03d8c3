-- ===== src/Store/Commit.antt =====
-- The loops of `#commit`: what they do to the values and to the sorted list of keys.
use mathlib.Core.Option
use phaselock.Prelude.{
  ℕ, suc, ◌+◌, ◌≤◌, ◌≡◌, refl, ap, List, [], ◌∷◌, true, false, Option, none, some, if◌then◌else◌,
  arith, All, All-append, Bool-cases, inl, inr, length, length-append,
}
use phaselock.Keys.{Key, key_eq}
use phaselock.Keys.Order.{IsKey}
use phaselock.Keys.Sorted.{
  IsSorted, member, insert, erase, key_eq-eq, member-insert, member-erase, length-insert,
  length-erase,
}
use phaselock.Keys.Sort.{IsDistinct}
use phaselock.Layer.{Layer, names, get, has, flat}
use phaselock.Layer.Laws.{
  get-put, get-delete, has-put, has-delete, get-none, IsDistinct-put, IsDistinct-delete, IsKey-put,
  IsKey-delete, member-snoc, IsDistinct-snoc,
}
use phaselock.KeyList.{KeyList, keys, add, remove}
use phaselock.KeyList.Laws.{keys-add, keys-remove}
use phaselock.KeyList.Invariant.{
  IsOrdered, IsRoomy, IsRoomy-of_few, searchable, add-IsOrdered, remove-IsOrdered, erased,
}
use phaselock.Store.{Changes, change, change_all, remove_all, add_all}

abbrev pub limit : ℕ
limit = 2147483648

-- `remove` succeeds for a key that the list holds.
remove_held :
    (key : Key) (l : KeyList)
    → IsKey key
    → IsOrdered l
    → IsRoomy l
    → member key (keys l) ≡ true
    → (l' : KeyList) × (remove key l ≡ some l')
remove_held key l u o r m = go (remove key l) (keys-remove key u l (searchable l o r))
  where
    go :
        (x : Option KeyList)
        → Option.map keys x ≡ (if member key (keys l) then some (erase key (keys l)) else none)
        → (l' : KeyList) × (x ≡ some l')
    go none e = ground arith
    go (some l') e = (l', refl)

pub record Removed (ks : List Key) (l l' : KeyList) : Type 0 where
  pub ordered : IsOrdered l'
  pub left : (k : Key) → member k (keys l') ≡ (if member k ks then false else member k (keys l))
  pub fewer : length (keys l') ≤ length (keys l)

still_held :
    (key : Key) (xs ks : List Key)
    → All IsKey xs
    → IsSorted xs
    → member key ks ≡ false
    → All (λ k. member k xs ≡ true) ks
    → All (λ k. member k (erase key xs) ≡ true) ks
still_held key xs [] u s d h = tt
still_held key xs (k ∷ ks) u s d h =
    ground
      (arith, member-erase key k xs u s, still_held key xs ks u s, key_eq-eq k key, key_eq-eq key k)

pub remove_all_lem :
    (ks : List Key) (l : KeyList)
    → All IsKey ks
    → IsDistinct ks
    → All (λ k. member k (keys l) ≡ true) ks
    → IsOrdered l
    → length (keys l) ≤ limit
    → (l' : KeyList) × (remove_all ks l ≡ some l') × Removed ks l l'
unfolding remove_all
remove_all_lem [] l u d h o r =
    (l, refl, record { ordered = o; left = λ k. refl; fewer = omega arith })
remove_all_lem (key ∷ ks) l u d h o r =
    let (l1, e) = remove_held key l u.0 o (IsRoomy-of_few l o r) h.0 in
    let kept = erased key u.0 l o (IsRoomy-of_few l o r) e in
    let held : All (λ k. member k (keys l1) ≡ true) ks =
      rw kept (still_held key (keys l) ks o.units o.sorted d.0 h.1) in
    let less : length (keys l1) ≤ length (keys l) = rw kept (length-erase key (keys l)) in
    let (l2, e', after) =
      remove_all_lem ks l1 u.1 d.1 held (remove-IsOrdered key u.0 l o (IsRoomy-of_few l o r) e)
        (omega arith) in
    (
      l2,
      rw (e, e') refl,
      record {
        ordered = after.ordered;
        left = λ k. ground (
          arith,
          after.left k,
          ap (λ xs. member k xs) kept,
          member-erase key k (keys l) o.units o.sorted,
        );
        fewer = omega (arith, after.fewer);
      },
    )

pub record Added (ks : List Key) (l l' : KeyList) : Type 0 where
  pub ordered : IsOrdered l'
  pub more : (k : Key) → member k (keys l') ≡ (if member k ks then true else member k (keys l))

still_new :
    (key : Key) (xs ks : List Key)
    → member key ks ≡ false
    → All (λ k. member k xs ≡ false) ks
    → All (λ k. member k (insert key xs) ≡ false) ks
still_new key xs [] d h = tt
still_new key xs (k ∷ ks) d h =
    ground (arith, member-insert key k xs, still_new key xs ks, key_eq-eq k key, key_eq-eq key k)

pub add_all_lem :
    (ks : List Key) (l : KeyList)
    → All IsKey ks
    → IsDistinct ks
    → All (λ k. member k (keys l) ≡ false) ks
    → IsOrdered l
    → length (keys l) + length ks ≤ limit
    → Added ks l (add_all ks l)
unfolding add_all
add_all_lem [] l u d h o r = record { ordered = o; more = λ k. refl }
add_all_lem (key ∷ ks) l u d h o r =
    let room = IsRoomy-of_few l o (omega arith) in
    let put = keys-add key u.0 l (searchable l o room) in
    let absent : All (λ k. member k (keys (add key l)) ≡ false) ks =
      rw put (still_new key (keys l) ks d.0 h.1) in
    let count : length (keys (add key l)) ≡ suc (length (keys l)) =
      rw put (length-insert key (keys l)) in
    let after =
      add_all_lem ks (add key l) u.1 d.1 absent (add-IsOrdered key u.0 l o room h.0)
        (omega arith) in
    record {
      ordered = after.ordered;
      more = λ k.
          ground (arith, after.more k, ap (λ xs. member k xs) put, member-insert key k (keys l));
    }

module _ {V : Type 0} where
  -- What the loop over the updates has done so far, to the values it began with.
  pub record Follows (old : Layer V) (c : Changes V) : Type 0 where
    pub distinct : IsDistinct (names c.values)
    pub units : All IsKey (names c.values)
    pub added_distinct : IsDistinct c.added
    pub added_units : All IsKey c.added
    pub added_new : All (λ k. has k old ≡ false) c.added
    pub removed_distinct : IsDistinct c.removed
    pub removed_units : All IsKey c.removed
    pub removed_old : All (λ k. has k old ≡ true) c.removed
    pub tracks :
        (k : Key)
        → has k c.values
          ≡ (if member k c.added then true else if member k c.removed then false else has k old)

  change-Follows :
      (old : Layer V) (key : Key) (o : Option V) (c : Changes V)
      → IsKey key
      → Follows old c
      → (member key c.added ≡ false)
      → (member key c.removed ≡ false)
      → Follows old (change key o c)
  unfolding change
  change-Follows old key none c u h a r = elim (Bool-cases (has key c.values)) [
    | inl e ↦
        let was : has key old ≡ true = ground (arith, h.tracks key) in
        rw e (record {
          distinct = IsDistinct-delete key c.values h.distinct;
          units = IsKey-delete key c.values h.units;
          added_distinct = h.added_distinct;
          added_units = h.added_units;
          added_new = h.added_new;
          removed_distinct = IsDistinct-snoc key c.removed h.removed_distinct r;
          removed_units = All-append IsKey c.removed (key ∷ []) h.removed_units (u, tt);
          removed_old =
              All-append (λ k. has k old ≡ true) c.removed (key ∷ []) h.removed_old (was, tt);
          tracks = λ k. ground (
            arith,
            h.tracks k,
            has-delete key k c.values h.distinct,
            member-snoc k key c.removed,
            key_eq-eq key k,
          );
        })
    | inr e ↦ rw e h
  ]
  change-Follows old key (some v) c u h a r = elim (Bool-cases (has key c.values)) [
    | inl e ↦ rw e (record {
      distinct = IsDistinct-put key v c.values h.distinct;
      units = IsKey-put key v c.values u h.units;
      added_distinct = h.added_distinct;
      added_units = h.added_units;
      added_new = h.added_new;
      removed_distinct = h.removed_distinct;
      removed_units = h.removed_units;
      removed_old = h.removed_old;
      tracks =
          λ k. ground (arith, h.tracks k, h.tracks key, has-put key k v c.values, key_eq-eq key k);
    })
    | inr e ↦
        let was : has key old ≡ false = ground (arith, h.tracks key) in
        rw e (record {
          distinct = IsDistinct-put key v c.values h.distinct;
          units = IsKey-put key v c.values u h.units;
          added_distinct = IsDistinct-snoc key c.added h.added_distinct a;
          added_units = All-append IsKey c.added (key ∷ []) h.added_units (u, tt);
          added_new = All-append (λ k. has k old ≡ false) c.added (key ∷ []) h.added_new (was, tt);
          removed_distinct = h.removed_distinct;
          removed_units = h.removed_units;
          removed_old = h.removed_old;
          tracks = λ k. ground (
            arith,
            h.tracks k,
            has-put key k v c.values,
            member-snoc k key c.added,
            key_eq-eq key k,
          );
        })
  ]

  -- keys that the loop has yet to come to
  abbrev pub Untouched : Changes V → List Key → Type 0
  Untouched c ks = All (λ k. (member k c.added ≡ false) × (member k c.removed ≡ false)) ks

  change-Untouched :
      (key : Key) (o : Option V) (c : Changes V) (ks : List Key)
      → member key ks ≡ false
      → Untouched c ks
      → Untouched (change key o c) ks
  unfolding change
  change-Untouched key o c [] d h = tt
  change-Untouched key none c (k ∷ ks) d h = ground (
    arith,
    change-Untouched key none c ks,
    member-snoc k key c.removed,
    key_eq-eq k key,
    key_eq-eq key k,
  )
  change-Untouched key (some v) c (k ∷ ks) d h = ground (
    arith,
    change-Untouched key (some v) c ks,
    member-snoc k key c.added,
    key_eq-eq k key,
    key_eq-eq key k,
  )

  pub change_all-Follows :
      (old : Layer V) (updates : Layer (Option V)) (c : Changes V)
      → All IsKey (names updates)
      → IsDistinct (names updates)
      → Untouched c (names updates)
      → Follows old c
      → Follows old (change_all updates c)
  unfolding change_all
  change_all-Follows old [] c u d t h = h
  change_all-Follows old ((key, o) ∷ updates) c u d t h =
      change_all-Follows old updates (change key o c) u.1 d.1
        (change-Untouched key o c (names updates) d.0 t.1)
        (change-Follows old key o c u.0 h t.0.0 t.0.1)

  get-change :
      (key k : Key) (o : Option V) (c : Changes V)
      → IsDistinct (names c.values)
      → get k (change key o c).values ≡ (if key_eq key k then o else get k c.values)
  unfolding change
  get-change key k none c d =
      ground (arith, get-delete key k c.values d, get-none k c.values, key_eq-eq key k)
  get-change key k (some v) c d = get-put key k v c.values

  pub get-change_all :
      (old : Layer V) (updates : Layer (Option V)) (c : Changes V) (k : Key)
      → All IsKey (names updates)
      → IsDistinct (names updates)
      → Untouched c (names updates)
      → Follows old c
      → get k (change_all updates c).values
        ≡ (if has k updates then flat (get k updates) else get k c.values)
  unfolding change_all
  get-change_all old [] c k u d t h = refl
  get-change_all old ((key, o) ∷ updates) c k u d t h = ground (
    arith,
    get-change_all old updates (change key o c) k u.1 d.1
        (change-Untouched key o c (names updates) d.0 t.1)
        (change-Follows old key o c u.0 h t.0.0 t.0.1),
    get-change key k o c h.distinct,
    key_eq-eq key k,
  )

  length-change :
      (key : Key) (o : Option V) (c : Changes V)
      → length (change key o c).added ≤ length c.added + 1
  unfolding change
  length-change key none c = ground arith
  length-change key (some v) c = ground (arith, length-append {0} c.added (key ∷ []))

  pub length-added :
      (updates : Layer (Option V)) (c : Changes V)
      → length (change_all updates c).added ≤ length c.added + length updates
  unfolding change_all
  length-added [] c = omega arith
  length-added ((key, o) ∷ updates) c =
      omega (arith, length-added updates (change key o c), length-change key o c)
