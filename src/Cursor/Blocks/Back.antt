-- ===== src/Cursor/Blocks/Back.antt =====
-- The reverse cursor over blocks of keys, and both as walks of the list.
use mathlib.Core.List.{flatten, reverse, reverse-append, append_assoc, append-nil}
use phaselock.Prelude.{
  ℕ, zero, suc, ◌-◌, ◌≤◌, ◌<◌, ◌≡◌, ◌∙◌, refl, sym, ap, List, [], ◌∷◌, ◌++◌, Bool, true, false, not,
  Option, none, some, length, take, get_elem?, arith, Bool-cases, inl, inr, All, pos, negsuc, ltb,
}
use phaselock.Keys.{Key, exact_for}
use phaselock.KeyList.{KeyList, block_at, keys}
use phaselock.KeyList.Partition.{
  left_of, right_of, block_of, index_of, left_of-append-right_of, All-left_of, All-right_of, passes,
  count-le-length,
}
use phaselock.KeyList.Seek.{precedes, Antitone-precedes, seek_lem}
use phaselock.KeyList.Laws.{IsSearchable}
use phaselock.Cursor.Blocks.{Position, list_key, back, list_seek, list_cursor}
use phaselock.Cursor.Walks.{Walks, filter, first, tail, onward, IsTarget, walked, walked-seek}
use phaselock.Cursor.Array.{
  filter-reverse, filter-none, filter-true, filter_cong, precedes-onward_back, back_from-suc,
  take-length, length-reverse,
}
use phaselock.Cursor.Blocks.Forward.{
  ForwardRest, forward_key, forward_step, forward_seek, block_at_past, block_at-NoneEmpty,
}

-- The keys left are those up to the position, from it back.
abbrev pub BackRest : List (List Key) → Position → List Key → Type 0
BackRest blocks (pos n, i) ks =
    (n < length blocks)
    × (i < length (block_at blocks n))
    × (ks ≡ reverse (left_of blocks n (suc i)))
BackRest blocks (negsuc n, i) ks = ks ≡ []

flatten-take_next :
    (blocks : List (List Key)) (n : ℕ)
    → flatten (take (suc n) blocks) ≡ flatten (take n blocks) ++ block_at blocks n
unfolding flatten
flatten-take_next [] zero = refl
flatten-take_next [] (suc n) = refl
flatten-take_next (block ∷ rest) zero = append-nil block
flatten-take_next (block ∷ rest) (suc n) =
    rw (append_assoc block (flatten (take n rest)) (block_at rest n))
      (ap (λ (ks : List Key). block ++ ks) (flatten-take_next rest n))

take_blocks : (blocks : List (List Key)) → take (length blocks) blocks ≡ blocks
take_blocks [] = refl
take_blocks (block ∷ rest) = rw (take_blocks rest)

filter-first_part :
    (p : Key → Bool) (xs ys : List Key)
    → All (λ k. p k ≡ true) xs
    → All (λ k. p k ≡ false) ys
    → filter p (xs ++ ys) ≡ xs
filter-first_part p [] ys h k = filter-none p ys k
filter-first_part p (x ∷ xs) ys h k = ground (arith, filter-first_part p xs ys h.1 k)

left_of-next :
    (blocks : List (List Key)) (n i : ℕ)
    → i < length (block_at blocks n)
    → (x : Key) × (get_elem? (block_at blocks n) i ≡ some x)
      × (reverse (left_of blocks n (suc i)) ≡ x ∷ reverse (left_of blocks n i))
left_of-next blocks n i h =
    let (x, e, t) = back_from-suc i (block_at blocks n) h in
    let before = flatten (take n blocks) in
    (
      x,
      e,
      rw
          (
            t,
            ← append_assoc before (take i (block_at blocks n)) (x ∷ []),
            reverse-append (before ++ take i (block_at blocks n)) (x ∷ []),
          )
          refl,
    )

module _ (blocks : List (List Key)) (v : IsSearchable blocks) where
  back_at :
      (n i : ℕ)
      → n ≤ length blocks
      → i ≤ length (block_at blocks n)
      → BackRest blocks (back blocks (pos n, i)) (reverse (left_of blocks n i))
  unfolding back flatten
  back_at n (suc i) h k = elim (Bool-cases (ltb n (length blocks))) [
    | inl l ↦ (ground arith, omega arith, refl)
    | inr l ↦ let past = ap length (block_at_past blocks n (ground arith)) in absurd (omega arith)
  ]
  back_at zero zero h k = refl
  back_at (suc n) zero h k =
      let some_ = block_at-NoneEmpty blocks n v.none_empty (omega arith) in
      let e : suc (length (block_at blocks n) - 1) ≡ length (block_at blocks n) = omega arith in
      (
        omega arith,
        omega arith,
        rw
            (
              e,
              take-length (block_at blocks n),
              append-nil (flatten (take (suc n) blocks)),
              flatten-take_next blocks n,
            )
            refl,
      )

  back_key : (p : Position) (ks : List Key) → BackRest blocks p ks → list_key blocks p ≡ first ks
  unfolding list_key
  back_key (negsuc n, i) ks e = rw e refl
  back_key (pos n, i) ks (l, m, e) =
      let (x, g, t) = left_of-next blocks n i m in rw (e, t) (ground arith)

  back_step :
      (p : Position) (k : Key) (ks : List Key)
      → BackRest blocks p (k ∷ ks)
      → BackRest blocks (back blocks p) ks
  back_step (negsuc n, i) k ks e = absurd (cc)
  back_step (pos n, i) k ks (l, m, e) =
      let (x, g, t) = left_of-next blocks n i m in
      rw (ap tail (e ∙ t)) (back_at n i (omega arith) (omega arith))

  back_seek :
      (target : Option Key) (strict : Bool)
      → IsTarget target
      → BackRest blocks
          (list_seek blocks true target strict)
          (filter (onward true target strict) (reverse (flatten blocks)))
  unfolding list_seek
  back_seek none strict t =
      let e : left_of blocks (length blocks) 0 ≡ flatten blocks =
        append-nil (flatten (take (length blocks) blocks)) ∙ ap flatten (take_blocks blocks) in
      rw (filter-true (reverse (flatten blocks)))
        (rw e at (back_at (length blocks) 0 (omega arith) (omega arith)))
  back_seek (some target) strict t =
      let p = precedes target (not strict) t in
      let anti = Antitone-precedes target (not strict) t (flatten blocks) v.units v.sorted in
      let b = block_of p blocks in
      let i = index_of p blocks in
      let same : filter (onward true (some target) strict) (flatten blocks) ≡ left_of blocks b i =
        sym (
          filter_cong p (onward true (some target) strict) (flatten blocks)
            (precedes-onward_back target strict t (flatten blocks) v.units))
        ∙ ap (filter p) (sym (left_of-append-right_of blocks b i))
        ∙ filter-first_part p (left_of blocks b i) (right_of blocks b i)
            (All-left_of p blocks v.none_empty anti) (All-right_of p blocks v.none_empty anti) in
      rw
        (
          seek_lem blocks target (not strict) (exact_for (some target ∷ [])) v.short v.none_empty
              anti,
          filter-reverse (onward true (some target) strict) (flatten blocks),
          same,
        )
        (back_at b i (count-le-length (passes p) blocks) (count-le-length p (block_at blocks b)))

module _ (l : KeyList) (v : IsSearchable l.blocks) where
  pub list_cursor-Walks :
      (Walks (list_cursor l false) false (keys l))
      × (Walks (list_cursor l true) true (reverse (keys l)))
  list_cursor-Walks = (
    record {
      Rest = ForwardRest l.blocks;
      key_rest = forward_key l.blocks v;
      step_rest = forward_step l.blocks v;
      seek_rest = λ target strict s t. forward_seek l.blocks v target strict t;
    },
    record {
      Rest = BackRest l.blocks;
      key_rest = back_key l.blocks v;
      step_rest = back_step l.blocks v;
      seek_rest = λ target strict s t. back_seek l.blocks v target strict t;
    },
  )

  -- Over searchable blocks of keys, after a seek to no target or to one of 16-bit units, the
  -- cursor of the key list shows the keys that the seek leads to, one after another, upwards or
  -- downwards, across the ends of blocks, given as many steps as there are keys.
  pub walked-list_cursor :
      (target : Option Key) (strict : Bool) (fuel : ℕ)
      → length (keys l) ≤ fuel
      → IsTarget target
      → (walked (list_cursor l false) fuel (list_seek l.blocks false target strict)
          ≡ filter (onward false target strict) (keys l))
        × (walked (list_cursor l true) fuel (list_seek l.blocks true target strict)
            ≡ filter (onward true target strict) (reverse (keys l)))
  walked-list_cursor target strict fuel enough t = (
    walked-seek list_cursor-Walks.0 target strict (pos 0, 0) fuel t enough,
    walked-seek list_cursor-Walks.1 target strict (pos 0, 0) fuel t
        (rw (length-reverse (keys l)) enough),
  )
