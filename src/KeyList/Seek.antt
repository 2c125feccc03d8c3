-- ===== src/KeyList/Seek.antt =====
-- `#seek` finds the position that parts the keys before the target from the others.
use mathlib.Core.List.{flatten}
use phaselock.Prelude.{
  ℕ, zero, suc, ◌≤◌, ◌≡◌, refl, List, [], ◌∷◌, Bool, true, false, some, arith, length, All, inl,
  inr, ℤ, Ordering,
}
use phaselock.Keys.{Key, exact_for}
use phaselock.Keys.Order.{IsKey, ◌≺◌, order, ≺_trans, order-eq}
use phaselock.Keys.Exact.{exact_for-eq-order}
use phaselock.Keys.Sorted.{IsSorted}
use phaselock.KeyList.{block_at, seek, before_key}
use phaselock.KeyList.Partition.{
  Antitone, count, NoneEmpty, passes, Antitone-passes, Antitone-append_left, Antitone-append_right,
  bisect-eq-count, bisect_keys-eq-count, block_of, index_of,
}

-- the blocks' lengths fit the searches' 32-bit midpoints
abbrev pub IsShort : List (List Key) → Type 0
IsShort blocks = (length blocks ≤ 2147483648) × All (λ block. length block ≤ 2147483648) blocks

Antitone-block_at :
    (p : Key → Bool) (blocks : List (List Key)) (b : ℕ)
    → Antitone p (flatten blocks)
    → Antitone p (block_at blocks b)
unfolding flatten
Antitone-block_at p [] b h = tt
Antitone-block_at p (block ∷ rest) zero h = Antitone-append_left p block (flatten rest) h
Antitone-block_at p (block ∷ rest) (suc b) h =
    Antitone-block_at p rest b (Antitone-append_right p block (flatten rest) h)

block_at_short :
    (blocks : List (List Key)) (b : ℕ)
    → All (λ block. length block ≤ 2147483648) blocks
    → length (block_at blocks b) ≤ 2147483648
block_at_short [] b h = omega arith
block_at_short (block ∷ rest) zero h = h.0
block_at_short (block ∷ rest) (suc b) h = block_at_short rest b h.1

block_at_end : (blocks : List (List Key)) → block_at blocks (length blocks) ≡ []
block_at_end [] = refl
block_at_end (block ∷ rest) = block_at_end rest

end_index :
    (p : Key → Bool) (blocks : List (List Key)) (b : ℕ)
    → b ≡ length blocks
    → count p (block_at blocks b) ≡ 0
end_index p blocks b e = rw (e, block_at_end blocks)

module _ (blocks : List (List Key)) (key : Key) (strict : Bool) (cmp : Key → Key → ℤ) where
  abbrev before : Key → Bool
  before = before_key cmp key strict

  pub seek_lem :
      IsShort blocks
      → NoneEmpty blocks
      → Antitone before (flatten blocks)
      → seek blocks key strict cmp ≡ (block_of before blocks, index_of before blocks)
  unfolding seek
  seek_lem s n h =
      rw
        (
          bisect-eq-count (passes before) blocks [] (Antitone-passes before blocks n h) s.0,
          bisect_keys-eq-count before (block_at blocks (block_of before blocks))
              (Antitone-block_at before blocks (block_of before blocks) h)
              (block_at_short blocks (block_of before blocks) s.1),
        )
        (ground (arith, end_index before blocks (block_of before blocks)))

module _ (key : Key) (strict : Bool) (hk : IsKey key) where
  -- `before` of a search for `key`, by the order of keys
  abbrev pub precedes : Key → Bool
  precedes = before_key (exact_for (some key ∷ [])) key strict

  pub precedes-order :
      (k : Key)
      → IsKey k
      → precedes k
        ≡ (elim (order k key) [ Ordering.lt ↦ true | Ordering.eq ↦ strict | Ordering.gt ↦ false ])
  unfolding before_key
  precedes-order k h =
      ground (arith, exact_for-eq-order (some key ∷ []) k key h hk (inr (inl refl)))

  precedes_later : (x y : Key) → IsKey x → IsKey y → x ≺ y → precedes x ≡ false → precedes y ≡ false
  precedes_later x y hx hy p e = ground (
    arith,
    precedes-order x hx,
    precedes-order y hy,
    ≺_trans x y key hx hy hk p,
    order-eq y key hy hk,
  )

  All-precedes_later :
      (x : Key) (ys : List Key)
      → IsKey x
      → All IsKey ys
      → All (λ y. x ≺ y) ys
      → precedes x ≡ false
      → All (λ y. precedes y ≡ false) ys
  All-precedes_later x [] hx k h e = tt
  All-precedes_later x (y ∷ ys) hx k h e =
      (precedes_later x y hx k.0 h.0 e, All-precedes_later x ys hx k.1 h.1 e)

  pub Antitone-precedes : (xs : List Key) → All IsKey xs → IsSorted xs → Antitone precedes xs
  Antitone-precedes [] k h = tt
  Antitone-precedes (x ∷ xs) k h =
      (All-precedes_later x xs k.0 k.1 h.0, Antitone-precedes xs k.1 h.1)
