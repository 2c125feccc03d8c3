-- ===== src/KeyList/Flat.antt =====
-- What the operations of `KeyList` do to the keys, block after block.
use mathlib.Core.List.{flatten, append_assoc, append-nil}
use phaselock.Prelude.{
  ℕ, zero, suc, ◌+◌, ◌-◌, ◌/◌, ◌<◌, ◌≡◌, refl, ap, sym, ◌∙◌, List, [], ◌∷◌, ◌++◌, true, arith, ltb,
  ◌==◌, if◌then◌else◌, length, take, drop, splice, Bool-cases, inl, inr, take-append-drop,
}
use phaselock.Keys.{Key}
use phaselock.KeyList.{block_at, insert_at, join_at, remove_at}
use phaselock.KeyList.Partition.{left_of, right_of}

flatten-append : (xs ys : List (List Key)) → flatten (xs ++ ys) ≡ flatten xs ++ flatten ys
unfolding flatten
flatten-append [] ys = refl
flatten-append (x ∷ xs) ys =
    rw (flatten-append xs ys) (sym (append_assoc x (flatten xs) (flatten ys)))

flatten_single : (block : List Key) → flatten (block ∷ []) ≡ block
unfolding flatten
flatten_single block = append-nil block

flatten_halves : (n : ℕ) (block : List Key) → flatten (take n block ∷ drop n block ∷ []) ≡ block
unfolding flatten
flatten_halves n block = rw (append-nil (drop n block), take-append-drop n block)

drop_one {ℓ} : {A : Type ℓ} (b : ℕ) (xs : List A) → drop 1 (drop b xs) ≡ drop (suc b) xs
drop_one zero xs = refl
drop_one (suc b) [] = refl
drop_one (suc b) (x ∷ xs) = drop_one b xs

-- The keys once a block has been replaced.
flatten-splice_one :
    (b : ℕ) (news blocks : List (List Key))
    → flatten (splice b 1 news blocks)
      ≡ flatten (take b blocks) ++ (flatten news ++ flatten (drop (suc b) blocks))
flatten-splice_one b news blocks = rw (
  drop_one b blocks,
  flatten-append (take b blocks) (news ++ drop (suc b) blocks),
  flatten-append news (drop (suc b) blocks),
)

regroup : (a b c d : List Key) → a ++ ((b ++ c) ++ d) ≡ (a ++ b) ++ (c ++ d)
regroup a b c d = simp append_assoc

pub flatten-insert_at :
    (blocks : List (List Key)) (key : Key) (b i : ℕ)
    → flatten (insert_at blocks key b i) ≡ left_of blocks b i ++ key ∷ right_of blocks b i
unfolding insert_at
flatten-insert_at blocks key b i =
    let block = splice i 0 (key ∷ []) (block_at blocks b) in
    let whole =
      regroup (flatten (take b blocks)) (take i (block_at blocks b))
        (key ∷ drop i (block_at blocks b)) (flatten (drop (suc b) blocks)) in
    elim (Bool-cases (ltb 2048 (length block))) [
      | inl e ↦ rw (e, flatten-splice_one, flatten_halves (length block / 2) block) whole
      | inr e ↦ rw (e, flatten-splice_one, flatten_single block) whole
    ]

take-length : (xs : List Key) → take (length xs) xs ≡ xs
take-length [] = refl
take-length (x ∷ xs) = ap (λ ys. x ∷ ys) (take-length xs)

drop-length : (xs : List Key) → drop (length xs) xs ≡ []
drop-length [] = refl
drop-length (x ∷ xs) = drop-length xs

-- Past the last block's last key is past every key.
pub left_of-last :
    (block : List Key) (rest : List (List Key))
    → left_of (block ∷ rest) (length rest) (length (block_at (block ∷ rest) (length rest)))
      ≡ flatten (block ∷ rest)
unfolding flatten
left_of-last block [] = rw (take-length block, append-nil block)
left_of-last block (c ∷ rest) =
    let last = block_at (c ∷ rest) (length rest) in
    append_assoc block (flatten (take (length rest) (c ∷ rest))) (take (length last) last)
    ∙ ap (λ ks. block ++ ks) (left_of-last c rest)

pub right_of-last :
    (block : List Key) (rest : List (List Key))
    → right_of (block ∷ rest) (length rest) (length (block_at (block ∷ rest) (length rest))) ≡ []
unfolding flatten
right_of-last block [] = rw (drop-length block)
right_of-last block (c ∷ rest) = right_of-last c rest

flatten-first :
    (blocks : List (List Key)) → flatten blocks ≡ block_at blocks 0 ++ flatten (drop 1 blocks)
unfolding flatten
flatten-first [] = refl
flatten-first (block ∷ rest) = refl

flatten-pair :
    (blocks : List (List Key)) (x : ℕ)
    → flatten (drop x blocks)
      ≡ (block_at blocks x ++ block_at blocks (x + 1)) ++ flatten (drop 2 (drop x blocks))
unfolding flatten
flatten-pair [] zero = refl
flatten-pair [] (suc x) = refl
flatten-pair (block ∷ rest) zero =
    rw (append_assoc block (block_at rest 0) (flatten (drop 1 rest)))
      (ap (λ ks. block ++ ks) (flatten-first rest))
flatten-pair (block ∷ rest) (suc x) =
    let e : suc x + 1 ≡ suc (x + 1) = omega arith in rw e (flatten-pair rest x)

flatten-join_at : (blocks : List (List Key)) (x : ℕ) → flatten (join_at blocks x) ≡ flatten blocks
unfolding join_at
flatten-join_at blocks x =
    let joined = block_at blocks x ++ block_at blocks (x + 1) in
    let whole : flatten (take x blocks) ++ (joined ++ flatten (drop 2 (drop x blocks)))
        ≡ flatten blocks =
      rw (
        ← flatten-pair blocks x,
        ← flatten-append (take x blocks) (drop x blocks),
        take-append-drop x blocks,
      ) in
    elim (Bool-cases (ltb 2048 (length joined))) [
      | inl e ↦
          rw
            (
              e,
              flatten-append (take x blocks) (
                  take (length joined / 2) joined
                  ∷ drop (length joined / 2) joined
                  ∷ drop 2 (drop x blocks)),
              flatten-append
                  (take (length joined / 2) joined ∷ drop (length joined / 2) joined ∷ [])
                  (drop 2 (drop x blocks)),
              flatten_halves (length joined / 2) joined,
            )
            whole
      | inr e ↦
          rw
            (
              e,
              flatten-append (take x blocks) (joined ∷ drop 2 (drop x blocks)),
              flatten-append (joined ∷ []) (drop 2 (drop x blocks)),
              flatten_single joined,
            )
            whole
    ]

-- `remove_at` takes the key at the position out.
abbrev without : List (List Key) → ℕ → ℕ → List (List Key)
without blocks b i = splice b 1 (splice i 1 [] (block_at blocks b) ∷ []) blocks

flatten-without :
    (blocks : List (List Key)) (b i : ℕ)
    → flatten (without blocks b i) ≡ left_of blocks b i ++ right_of blocks b (suc i)
flatten-without blocks b i =
    rw
      (
        flatten-splice_one,
        flatten_single (splice i 1 [] (block_at blocks b)),
        drop_one i (block_at blocks b),
      )
      (regroup (flatten (take b blocks)) (take i (block_at blocks b))
        (drop (suc i) (block_at blocks b)) (flatten (drop (suc b) blocks)))

nil_of_length : (xs : List Key) → (length xs == 0) ≡ true → [] ≡ xs
nil_of_length [] e = refl
nil_of_length (x ∷ xs) e = absurd (ground arith)

-- the only block has become empty
flatten-only :
    (blocks : List (List Key)) (b i : ℕ)
    → b < length blocks
    → (length blocks == 1) ≡ true
    → (length (splice i 1 [] (block_at blocks b)) == 0) ≡ true
    → [] ≡ flatten (without blocks b i)
unfolding flatten
flatten-only [] b i h one e = absurd (omega arith)
flatten-only (block ∷ c ∷ rest) b i h one e = ground arith
flatten-only (block ∷ []) (suc b) i h one e = absurd (omega arith)
flatten-only (block ∷ []) zero i h one e =
    nil_of_length (splice i 1 [] block) e ∙ sym (append-nil (splice i 1 [] block))

pub flatten-remove_at :
    (blocks : List (List Key)) (b i : ℕ)
    → b < length blocks
    → flatten (remove_at blocks b i) ≡ left_of blocks b i ++ right_of blocks b (suc i)
unfolding remove_at
flatten-remove_at blocks b i h = ground (
  arith,
  flatten-without blocks b i,
  flatten-only blocks b i h,
  flatten-join_at (without blocks b i) (if ltb (b + 1) (length blocks) then b else b - 1),
)
