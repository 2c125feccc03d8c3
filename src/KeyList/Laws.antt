-- ===== src/KeyList/Laws.antt =====
-- `add` and `remove` of `KeyList` insert into the sorted list of keys and take out of it.
use mathlib.Core.Option
use mathlib.Core.List.{flatten}
use phaselock.Prelude.{
  ℕ, zero, suc, ◌-◌, ◌≤◌, ◌<◌, ◌≡◌, refl, ap, sym, ◌∙◌, List, [], ◌∷◌, ◌++◌, true, false, Option,
  none, some, Option-cases, some_inj, arith, ◌==◌, if◌then◌else◌, length, drop, get_elem?, All,
  All-append, All-append_left, All-append_right, Bool-cases, inl, inr, is_neg,
}
use phaselock.Keys.{Key, exact_for, key_eq, compare_keys}
use phaselock.Keys.Order.{IsKey, ◌≺◌}
use phaselock.Keys.Sorted.{
  IsSorted, insert, erase, member, insert-append, insert-head, erase-append, member-append,
  member-head, IsSorted-append_right,
}
use phaselock.KeyList.{
  KeyList, keys, block_at, seek, place, insert_at, add, remove_at, remove, is_key,
}
use phaselock.KeyList.Partition.{
  count-le-length, NoneEmpty, passes, left_of, right_of, left_of-append-right_of, block_of,
  index_of, All-left_of, All-right_of, index_of-lt-length,
}
use phaselock.KeyList.Seek.{IsShort, seek_lem, precedes, precedes-order, Antitone-precedes}
use phaselock.KeyList.Flat.{flatten-insert_at, flatten-remove_at, left_of-last, right_of-last}

-- What the searches rely on.
pub record IsSearchable (blocks : List (List Key)) : Type 0 where
  pub sorted : IsSorted (flatten blocks)
  pub units : All IsKey (flatten blocks)
  pub none_empty : NoneEmpty blocks
  pub short : IsShort blocks

-- a position that parts the keys before `key` from the others
record Parts (key : Key) (blocks : List (List Key)) (b i : ℕ) : Type 0 where
  before : All (λ k. k ≺ key) (left_of blocks b i)
  after : All (λ k. is_neg (compare_keys k key) ≡ false) (right_of blocks b i)

drop-cons :
    (xs : List Key) (i : ℕ) (k : Key) → get_elem? xs i ≡ some k → drop i xs ≡ k ∷ drop (suc i) xs
drop-cons [] i k e = ground arith
drop-cons (x ∷ xs) zero k e = ground arith
drop-cons (x ∷ xs) (suc i) k e = drop-cons xs i k e

le-of_get_elem?-none : (xs : List Key) (i : ℕ) → get_elem? xs i ≡ none → length xs ≤ i
le-of_get_elem?-none [] i e = omega arith
le-of_get_elem?-none (x ∷ xs) zero e = ground arith
le-of_get_elem?-none (x ∷ xs) (suc i) e = omega (arith, le-of_get_elem?-none xs i e)

right_of-cons :
    (blocks : List (List Key)) (b i : ℕ) (k : Key)
    → get_elem? (block_at blocks b) i ≡ some k
    → right_of blocks b i ≡ k ∷ right_of blocks b (suc i)
right_of-cons blocks b i k e =
    ap (λ ks. ks ++ flatten (drop (suc b) blocks)) (drop-cons (block_at blocks b) i k e)

module _ (key : Key) (hk : IsKey key) where
  precedes-≺ :
      (ks : List Key)
      → All IsKey ks
      → All (λ k. precedes key false hk k ≡ true) ks
      → All (λ k. k ≺ key) ks
  precedes-≺ [] u h = tt
  precedes-≺ (k ∷ ks) u h =
      (ground (arith, precedes-order key false hk k u.0), precedes-≺ ks u.1 h.1)

  precedes-not_neg :
      (ks : List Key)
      → All IsKey ks
      → All (λ k. precedes key false hk k ≡ false) ks
      → All (λ k. is_neg (compare_keys k key) ≡ false) ks
  precedes-not_neg [] u h = tt
  precedes-not_neg (k ∷ ks) u h =
      (ground (arith, precedes-order key false hk k u.0), precedes-not_neg ks u.1 h.1)

  module _ (blocks : List (List Key)) (v : IsSearchable blocks) where
    at_block : ℕ
    at_block = block_of (precedes key false hk) blocks

    at_index : ℕ
    at_index = index_of (precedes key false hk) blocks

    found : seek blocks key false (exact_for (some key ∷ [])) ≡ (at_block, at_index)
    unfolding at_block at_index
    found =
        seek_lem blocks key false (exact_for (some key ∷ [])) v.short v.none_empty
          (Antitone-precedes key false hk (flatten blocks) v.units v.sorted)

    found-Parts : Parts key blocks at_block at_index
    unfolding at_block at_index
    found-Parts =
        let p = precedes key false hk in
        let a = Antitone-precedes key false hk (flatten blocks) v.units v.sorted in
        let b = block_of p blocks in
        let i = index_of p blocks in
        let units : All IsKey (left_of blocks b i ++ right_of blocks b i) =
          rw (left_of-append-right_of blocks b i) v.units in
        record {
          before =
              precedes-≺ (left_of blocks b i)
                (All-append_left IsKey (left_of blocks b i) (right_of blocks b i) units)
                (All-left_of p blocks v.none_empty a);
          after =
              precedes-not_neg (right_of blocks b i)
                (All-append_right IsKey (left_of blocks b i) (right_of blocks b i) units)
                (All-right_of p blocks v.none_empty a);
        }

    at_block-le : at_block ≤ length blocks
    unfolding at_block
    at_block-le = count-le-length (passes (precedes key false hk)) blocks

    at_index-lt : at_block < length blocks → at_index < length (block_at blocks at_block)
    unfolding at_block at_index
    at_index-lt h =
        index_of-lt-length (precedes key false hk) blocks v.none_empty
          (Antitone-precedes key false hk (flatten blocks) v.units v.sorted) h

  insert-Parts :
      (blocks : List (List Key)) (b i : ℕ)
      → Parts key blocks b i
      → left_of blocks b i ++ key ∷ right_of blocks b i ≡ insert key (flatten blocks)
  insert-Parts blocks b i h = rw (
    ← left_of-append-right_of blocks b i,
    insert-append key hk (left_of blocks b i) (right_of blocks b i) h.before,
    insert-head key hk (right_of blocks b i) h.after,
  )

  right_of-end : (blocks : List (List Key)) (i : ℕ) → right_of blocks (length blocks) i ≡ []
  unfolding flatten
  right_of-end [] zero = refl
  right_of-end [] (suc i) = refl
  right_of-end (block ∷ rest) i = right_of-end rest i

  All-before_end :
      (blocks : List (List Key)) (b i : ℕ)
      → b ≡ length blocks
      → Parts key blocks b i
      → All (λ k. k ≺ key) (flatten blocks)
  All-before_end blocks b i e h = rw (← left_of-append-right_of blocks b i) (
      All-append (λ k. k ≺ key) (left_of blocks b i) (right_of blocks b i) h.before
        (rw (e, right_of-end blocks i) tt))

  -- the end of the last block, where every key is before `key`
  last-Parts :
      (block : List Key) (rest : List (List Key))
      → All (λ k. k ≺ key) (flatten (block ∷ rest))
      → Parts key (block ∷ rest) (length rest) (length (block_at (block ∷ rest) (length rest)))
  last-Parts block rest h = record {
    before = rw (left_of-last block rest) h;
    after = rw (right_of-last block rest) tt;
  }

  placed :
      (block : List Key) (rest : List (List Key)) (b i : ℕ)
      → b ≤ length (block ∷ rest)
      → Parts key (block ∷ rest) b i
      → (b' : ℕ) × (i' : ℕ) × (place (block ∷ rest) (b, i) ≡ (b', i'))
        × (b' < length (block ∷ rest))
        × Parts key (block ∷ rest) b' i'
  unfolding place
  placed block rest b i u h = elim (Bool-cases (b == length (block ∷ rest))) [
    | inl e ↦
        let at_end : b ≡ length (block ∷ rest) = ground arith in
        let m : b - 1 ≡ length rest = omega arith in
        (
          length rest,
          length (block_at (block ∷ rest) (length rest)),
          rw (e, m) refl,
          omega arith,
          last-Parts block rest (All-before_end (block ∷ rest) b i at_end h),
        )
    | inr e ↦ (b, i, rw e refl, ground arith, h)
  ]

  insert_blocks :
      (blocks : List (List Key))
      → IsSearchable blocks
      → flatten (add key (record { blocks = blocks })).blocks ≡ insert key (flatten blocks)
  unfolding add
  insert_blocks [] v = unfold flatten in refl
  insert_blocks (block ∷ rest) v =
      let blocks = block ∷ rest in
      let (b, i, e, inside, parts) =
        placed block rest (at_block blocks v) (at_index blocks v) (at_block-le blocks v)
          (found-Parts blocks v) in
      rw (found blocks v, e, flatten-insert_at blocks key b i) (insert-Parts blocks b i parts)

  -- Adding a key of 16-bit units to searchable blocks of keys, whether or not a block splits,
  -- inserts it in its place in the sorted list of keys.
  pub keys-add : (l : KeyList) → IsSearchable l.blocks → keys (add key l) ≡ insert key (keys l)
  keys-add l v = insert_blocks l.blocks v

  -- What stands right of the position, and whether it begins with the key.
  is_key-position :
      (blocks : List (List Key)) (b i : ℕ)
      → IsSorted (flatten blocks)
      → All IsKey (flatten blocks)
      → (b < length blocks → i < length (block_at blocks b))
      → b ≤ length blocks
      → Parts key blocks b i
      → is_key key (get_elem? (block_at blocks b) i) ≡ member key (flatten blocks)
  is_key-position blocks b i s u inside le h =
      let l = left_of blocks b i in
      let r = right_of blocks b i in
      let parted : member key (flatten blocks) ≡ member key r =
        rw (← left_of-append-right_of blocks b i) (member-append key hk l r h.before) in
      let s' : IsSorted r = IsSorted-append_right l r (rw (left_of-append-right_of blocks b i) s) in
      let u' : All IsKey r =
        All-append_right IsKey l r (rw (left_of-append-right_of blocks b i) u) in
      elim (Option-cases (get_elem? (block_at blocks b) i)) [
        | inl e ↦
            let at_end : b ≡ length blocks =
              ground (arith, le-of_get_elem?-none (block_at blocks b) i e, inside) in
            rw (parted, e) (rw (at_end, right_of-end blocks i) refl)
        | inr (k, e) ↦
            let c = right_of-cons blocks b i k e in
            let u'' : All IsKey (k ∷ right_of blocks b (suc i)) = rw c at u' in
            let after : All (λ x. is_neg (compare_keys x key) ≡ false)
                (k ∷ right_of blocks b (suc i)) =
              rw c at h.after in
            rw (parted, e, c)
              (sym
                (member-head key hk k (right_of blocks b (suc i)) u''.0 after.0 (rw c at s') u''.1))
      ]

  erase-position :
      (blocks : List (List Key)) (b i : ℕ)
      → Parts key blocks b i
      → is_key key (get_elem? (block_at blocks b) i) ≡ true
      → left_of blocks b i ++ right_of blocks b (suc i) ≡ erase key (flatten blocks)
  erase-position blocks b i h e = elim (Option-cases (get_elem? (block_at blocks b) i)) [
    | inl n ↦ absurd (ground arith)
    | inr (k, p) ↦
        let same : key_eq k key ≡ true = rw p at e in
        rw (
          ← left_of-append-right_of blocks b i,
          erase-append key hk (left_of blocks b i) (right_of blocks b i) h.before,
          right_of-cons blocks b i k p,
          same,
        )
  ]

  is_key-inside :
      (blocks : List (List Key)) (b i : ℕ)
      → b ≤ length blocks
      → is_key key (get_elem? (block_at blocks b) i) ≡ true
      → b < length blocks
  is_key-inside [] b i u e = ground arith
  is_key-inside (block ∷ rest) zero i u e = omega arith
  is_key-inside (block ∷ rest) (suc b) i u e = omega (arith, is_key-inside rest b i (omega arith) e)

  -- Removing a key of 16-bit units from searchable blocks of keys takes it out of the sorted list
  -- of keys when the list holds it, and fails otherwise.
  pub keys-remove :
      (l : KeyList)
      → IsSearchable l.blocks
      → Option.map keys (remove key l)
        ≡ (if member key (keys l) then some (erase key (keys l)) else none)
  unfolding remove
  keys-remove l v =
      let b = at_block l.blocks v in
      let i = at_index l.blocks v in
      let parts = found-Parts l.blocks v in
      let test =
        is_key-position l.blocks b i v.sorted v.units (at_index-lt l.blocks v)
          (at_block-le l.blocks v) parts in
      elim (Bool-cases (member key (keys l))) [
        | inl e ↦
            rw (found l.blocks v, test, e)
              (ap {B = Option (List Key)} some (
                flatten-remove_at l.blocks b i
                  (is_key-inside l.blocks b i (at_block-le l.blocks v) (test ∙ e))
                ∙ erase-position l.blocks b i parts (test ∙ e)))
        | inr e ↦ rw (found l.blocks v, test, e)
      ]

  -- where `add` inserts
  pub added :
      (block : List Key) (rest : List (List Key))
      → IsSearchable (block ∷ rest)
      → (b : ℕ) × (i : ℕ) × ((add key (record { blocks = block ∷ rest })).blocks
          ≡ insert_at (block ∷ rest) key b i)
        × (b < length (block ∷ rest))
  unfolding add
  added block rest v =
      let blocks = block ∷ rest in
      let (b, i, e, inside, parts) =
        placed block rest (at_block blocks v) (at_index blocks v) (at_block-le blocks v)
          (found-Parts blocks v) in
      (b, i, rw (found blocks v, e) refl, inside)

  -- where `remove` removes
  pub removed :
      (l : KeyList) (v : IsSearchable l.blocks) {l' : KeyList}
      → remove key l ≡ some l'
      → (b : ℕ) × (i : ℕ) × (l'.blocks ≡ remove_at l.blocks b i)
        × (b < length l.blocks)
        × (i < length (block_at l.blocks b))
  unfolding remove
  removed l v {l'} e =
      let b = at_block l.blocks v in
      let i = at_index l.blocks v in
      elim (Bool-cases (is_key key (get_elem? (block_at l.blocks b) i))) [
        | inl h ↦
            let inside = is_key-inside l.blocks b i (at_block-le l.blocks v) h in
            (
              b,
              i,
              ap (λ (k : KeyList). k.blocks) (sym (some_inj (rw (found l.blocks v, h) at e))),
              inside,
              at_index-lt l.blocks v inside,
            )
        | inr h ↦ let failed = rw (found l.blocks v, h) at e in absurd (cc)
      ]
