-- ===== src/Cursor/Blocks/Forward.antt =====
-- The forward cursor over blocks of keys.
use mathlib.Core.List.{flatten}
use phaselock.Prelude.{
  ℕ, zero, suc, ◌≤◌, ◌<◌, ◌≡◌, ◌∙◌, refl, sym, ap, List, [], ◌∷◌, ◌++◌, Bool, true, false, not,
  Option, none, some, length, drop, get_elem?, arith, Bool-cases, inl, inr, All, pos, negsuc, ltb,
  ◌==◌,
}
use phaselock.Keys.{Key, exact_for}
use phaselock.KeyList.{block_at}
use phaselock.KeyList.Partition.{
  NoneEmpty, left_of, right_of, block_of, index_of, left_of-append-right_of, All-left_of,
  All-right_of, index_of-lt-length,
}
use phaselock.KeyList.Seek.{precedes, Antitone-precedes, seek_lem}
use phaselock.KeyList.Laws.{IsSearchable}
use phaselock.Cursor.Blocks.{Position, list_key, list_step, list_seek}
use phaselock.Cursor.Walks.{filter, first, tail, onward, IsTarget}
use phaselock.Cursor.Array.{filter-rest, filter-true, precedes-onward}

-- The index lies inside the block, or is 0 past the last block.
abbrev pub InBlock : List (List Key) → ℕ → ℕ → Type 0
InBlock blocks n i =
    (n < length blocks → i < length (block_at blocks n)) × (length blocks ≤ n → i ≡ 0)

abbrev pub ForwardRest : List (List Key) → Position → List Key → Type 0
ForwardRest blocks (pos n, i) ks = InBlock blocks n i × (ks ≡ right_of blocks n i)
ForwardRest blocks (negsuc n, i) ks = ⊥

pub flatten-drop :
    (blocks : List (List Key)) (n : ℕ)
    → flatten (drop n blocks) ≡ block_at blocks n ++ flatten (drop (suc n) blocks)
unfolding flatten
flatten-drop [] zero = refl
flatten-drop [] (suc n) = refl
flatten-drop (block ∷ rest) zero = refl
flatten-drop (block ∷ rest) (suc n) = flatten-drop rest n

pub block_at_past : (blocks : List (List Key)) (n : ℕ) → length blocks ≤ n → block_at blocks n ≡ []
block_at_past [] n h = refl
block_at_past (block ∷ rest) zero h = absurd (omega arith)
block_at_past (block ∷ rest) (suc n) h = block_at_past rest n (omega arith)

drop_past : (blocks : List (List Key)) (n : ℕ) → length blocks ≤ n → drop n blocks ≡ []
drop_past [] zero h = refl
drop_past [] (suc n) h = refl
drop_past (block ∷ rest) zero h = absurd (omega arith)
drop_past (block ∷ rest) (suc n) h = drop_past rest n (omega arith)

pub block_at-NoneEmpty :
    (blocks : List (List Key)) (n : ℕ)
    → NoneEmpty blocks
    → n < length blocks
    → 0 < length (block_at blocks n)
block_at-NoneEmpty [] n h l = absurd (omega arith)
block_at-NoneEmpty (block ∷ rest) zero h l = h.0
block_at-NoneEmpty (block ∷ rest) (suc n) h l = block_at-NoneEmpty rest n h.1 (omega arith)

first-drop-append :
    (xs ys : List Key) (i : ℕ) → i < length xs → first (drop i xs ++ ys) ≡ get_elem? xs i
first-drop-append [] ys i h = absurd (omega arith)
first-drop-append (x ∷ xs) ys zero h = refl
first-drop-append (x ∷ xs) ys (suc i) h = first-drop-append xs ys i (omega arith)

tail-drop-append :
    (xs ys : List Key) (i : ℕ) → i < length xs → tail (drop i xs ++ ys) ≡ drop (suc i) xs ++ ys
tail-drop-append [] ys i h = absurd (omega arith)
tail-drop-append (x ∷ xs) ys zero h = refl
tail-drop-append (x ∷ xs) ys (suc i) h = tail-drop-append xs ys i (omega arith)

drop_all : (xs : List Key) (n : ℕ) → n ≡ length xs → drop n xs ≡ []
drop_all [] zero h = refl
drop_all [] (suc n) h = refl
drop_all (x ∷ xs) zero h = absurd (omega arith)
drop_all (x ∷ xs) (suc n) h = drop_all xs n (omega arith)

right_of-past :
    (blocks : List (List Key)) (n i : ℕ) → length blocks ≤ n → i ≡ 0 → right_of blocks n i ≡ []
unfolding flatten
right_of-past blocks n i h e =
    rw (e, block_at_past blocks n h, drop_past blocks (suc n) (omega arith)) refl

filter-parts :
    (p q : Key → Bool) (xs ys : List Key)
    → All (λ k. p k ≡ true) xs
    → All (λ k. p k ≡ false) ys
    → All (λ k. q k ≡ not (p k)) (xs ++ ys)
    → filter q (xs ++ ys) ≡ ys
filter-parts p q [] ys h k e = filter-rest p q ys k e
filter-parts p q (x ∷ xs) ys h k e = ground (arith, filter-parts p q xs ys h.1 k e.1)

module _ (blocks : List (List Key)) (v : IsSearchable blocks) where
  pub forward_key :
      (p : Position) (ks : List Key) → ForwardRest blocks p ks → list_key blocks p ≡ first ks
  unfolding list_key
  forward_key (negsuc n, i) ks h = absurd h
  forward_key (pos n, i) ks ((inside, past), e) = elim (Bool-cases (ltb n (length blocks))) [
    | inl l ↦
        rw (e, l)
          (sym (
            first-drop-append (block_at blocks n) (flatten (drop (suc n) blocks)) i
              (inside (ground arith))))
    | inr l ↦ rw (e, l, right_of-past blocks n i (ground arith) (past (ground arith))) refl
  ]

  step_inside :
      (n i : ℕ) (ks : List Key)
      → n < length blocks
      → i < length (block_at blocks n)
      → ForwardRest blocks (list_step blocks (pos n, i)) (tail (right_of blocks n i))
  unfolding list_step
  step_inside n i ks l m =
      let later = flatten (drop (suc n) blocks) in
      let e = tail-drop-append (block_at blocks n) later i m in
      elim (Bool-cases (suc i == length (block_at blocks n))) [
        | inl last ↦
            let d : drop (suc i) (block_at blocks n) ≡ [] =
              drop_all (block_at blocks n) (suc i) (ground arith) in
            rw (last, e, d)
              (
                (λ h. block_at-NoneEmpty blocks (suc n) v.none_empty h, λ h. refl),
                flatten-drop blocks (suc n),
              )
        | inr more ↦ rw (more, e) ((λ h. ground arith, λ h. absurd (omega arith)), refl)
      ]

  right_of-inside :
      (n i : ℕ) (k : Key) (ks : List Key)
      → InBlock blocks n i
      → k ∷ ks ≡ right_of blocks n i
      → n < length blocks
  right_of-inside n i k ks h e = elim (Bool-cases (ltb n (length blocks))) [
    | inl l ↦ ground arith
    | inr l ↦ let past = right_of-past blocks n i (ground arith) (h.1 (ground arith)) in absurd (cc)
  ]

  pub forward_step :
      (p : Position) (k : Key) (ks : List Key)
      → ForwardRest blocks p (k ∷ ks)
      → ForwardRest blocks (list_step blocks p) ks
  forward_step (negsuc n, i) k ks h = absurd h
  forward_step (pos n, i) k ks (inside, e) =
      let l = right_of-inside n i k ks inside e in
      rw (ap tail e) (step_inside n i ks l (inside.0 l))

  pub forward_seek :
      (target : Option Key) (strict : Bool)
      → IsTarget target
      → ForwardRest blocks
          (list_seek blocks false target strict)
          (filter (onward false target strict) (flatten blocks))
  unfolding list_seek
  forward_seek none strict t = (
    (λ h. block_at-NoneEmpty blocks 0 v.none_empty h, λ h. refl),
    filter-true (flatten blocks) ∙ flatten-drop blocks 0,
  )
  forward_seek (some target) strict t =
      let p = precedes target strict t in
      let anti = Antitone-precedes target strict t (flatten blocks) v.units v.sorted in
      let b = block_of p blocks in
      let i = index_of p blocks in
      rw (seek_lem blocks target strict (exact_for (some target ∷ [])) v.short v.none_empty anti) (
        (
          λ h. index_of-lt-length p blocks v.none_empty anti h,
          λ h. rw (block_at_past blocks b h) refl,
        ),
        rw (← left_of-append-right_of blocks b i) (
            filter-parts p (onward false (some target) strict) (left_of blocks b i)
              (right_of blocks b i) (All-left_of p blocks v.none_empty anti)
              (All-right_of p blocks v.none_empty anti)
              (rw (left_of-append-right_of blocks b i)
                (precedes-onward target strict t (flatten blocks) v.units))),
      )
