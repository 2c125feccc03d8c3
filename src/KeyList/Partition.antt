-- ===== src/KeyList/Partition.antt =====
-- Binary search in a list, and in a list of blocks, for a test that holds of a first part only.
use mathlib.Core.List.{flatten, append_assoc}
use phaselock.Prelude.{
  ℕ, zero, suc, ◌-◌, ◌≤◌, ◌<◌, ◌≡◌, refl, ap, ◌∙◌, List, [], ◌∷◌, ◌++◌, Bool, true, false, some,
  arith, ltb, if◌then◌else◌, length, take, drop, get_or, get_elem?, All, All-append,
  All-append_left, All-append_right, Bool-cases, inl, inr, take-append-drop,
}
use phaselock.Bisect.{bisect, bisect_lem}
use phaselock.Keys.{Key}
use phaselock.KeyList.{holds, last_key, block_at}

module _ {ℓ} {A : Type ℓ} (p : A → Bool) where
  -- once false, false from there on
  abbrev pub Antitone : List A → Type ℓ
  Antitone [] = Unit
  Antitone (x ∷ xs) = (p x ≡ false → All (λ y. p y ≡ false) xs) × Antitone xs

  -- how many elements stand before the first that fails
  abbrev pub count : List A → ℕ
  count [] = 0
  count (x ∷ xs) = if p x then suc (count xs) else 0

  pub count-le-length : (xs : List A) → count xs ≤ length xs
  count-le-length [] = omega arith
  count-le-length (x ∷ xs) = ground (arith, count-le-length xs)

  All-get_or :
      (xs : List A) (i : ℕ) (d : A)
      → All (λ y. p y ≡ false) xs
      → i < length xs
      → p (get_or xs i d) ≡ false
  All-get_or [] i d h k = absurd (omega arith)
  All-get_or (x ∷ xs) zero d h k = h.0
  All-get_or (x ∷ xs) (suc i) d h k = All-get_or xs i d h.1 (omega arith)

  get_or-count :
      (xs : List A) (i : ℕ) (d : A)
      → Antitone xs
      → i < length xs
      → p (get_or xs i d) ≡ ltb i (count xs)
  get_or-count [] i d h k = absurd (omega arith)
  get_or-count (x ∷ xs) zero d h k = ground arith
  get_or-count (x ∷ xs) (suc i) d h k =
      ground (arith, h.0, All-get_or xs i d, get_or-count xs i d h.1)

  pub bisect-eq-count :
      (xs : List A) (d : A)
      → Antitone xs
      → length xs ≤ 2147483648
      → bisect (length xs) (λ j. p (get_or xs j d)) ≡ count xs
  bisect-eq-count xs d h small =
      bisect_lem (length xs) (λ j. p (get_or xs j d)) (count xs) small (count-le-length xs)
        (λ i k. get_or-count xs i d h k)

  pub All-take-count : (xs : List A) → All (λ y. p y ≡ true) (take (count xs) xs)
  All-take-count [] = tt
  All-take-count (x ∷ xs) = ground (arith, All-take-count xs)

  pub All-drop-count : (xs : List A) → Antitone xs → All (λ y. p y ≡ false) (drop (count xs) xs)
  All-drop-count [] h = tt
  All-drop-count (x ∷ xs) h = ground (arith, h.0, All-drop-count xs h.1)

  pub Antitone-append_left : (xs ys : List A) → Antitone (xs ++ ys) → Antitone xs
  Antitone-append_left [] ys h = tt
  Antitone-append_left (x ∷ xs) ys h =
      (λ e. All-append_left (λ y. p y ≡ false) xs ys (h.0 e), Antitone-append_left xs ys h.1)

  pub Antitone-append_right : (xs ys : List A) → Antitone (xs ++ ys) → Antitone ys
  Antitone-append_right [] ys h = h
  Antitone-append_right (x ∷ xs) ys h = Antitone-append_right xs ys h.1

holds-get_elem? :
    (p : Key → Bool) (xs : List Key) (i : ℕ)
    → i < length xs
    → holds p (get_elem? xs i) ≡ p (get_or xs i [])
holds-get_elem? p [] i h = absurd (omega arith)
holds-get_elem? p (x ∷ xs) zero h = refl
holds-get_elem? p (x ∷ xs) (suc i) h = holds-get_elem? p xs i (omega arith)

last_key-cons : (x y : Key) (r : List Key) → last_key (x ∷ y ∷ r) ≡ last_key (y ∷ r)
last_key-cons x y r =
    let e : suc (suc (length r)) - 1 ≡ suc (length r) = omega arith in
    let e' : suc (length r) - 1 ≡ length r = omega arith in rw (e, e') refl

last_key-single : (x : Key) → last_key (x ∷ []) ≡ some x
last_key-single x = refl

abbrev pub NoneEmpty : List (List Key) → Type 0
NoneEmpty blocks = All (λ block. 0 < length block) blocks

module _ (p : Key → Bool) where
  abbrev pub passes : List Key → Bool
  passes block = holds p (last_key block)

  pub bisect_keys-eq-count :
      (xs : List Key)
      → Antitone p xs
      → length xs ≤ 2147483648
      → bisect (length xs) (λ j. holds p (get_elem? xs j)) ≡ count p xs
  bisect_keys-eq-count xs h small =
      bisect_lem (length xs) (λ j. holds p (get_elem? xs j)) (count p xs) small
        (count-le-length p xs) (λ i k. holds-get_elem? p xs i k ∙ get_or-count p xs i [] h k)

  -- A block is before the key from end to end when its last key is.
  All-passes :
      (block : List Key) → Antitone p block → passes block ≡ true → All (λ k. p k ≡ true) block
  All-passes [] h e = tt
  All-passes (x ∷ []) h e = (e, tt)
  All-passes (x ∷ y ∷ r) h e =
      let rest : All (λ k. p k ≡ true) (y ∷ r) =
        All-passes (y ∷ r) h.1 (rw (last_key-cons x y r) at e) in
      (ground (arith, h.0), rest)

  passes-All : (block : List Key) → All (λ k. p k ≡ false) block → passes block ≡ false
  passes-All [] h = refl
  passes-All (x ∷ []) h = h.0
  passes-All (x ∷ y ∷ r) h = rw (last_key-cons x y r) (passes-All (y ∷ r) h.1)

  count-lt-length :
      (block : List Key)
      → 0 < length block
      → Antitone p block
      → passes block ≡ false
      → count p block < length block
  count-lt-length [] n h e = absurd (omega arith)
  count-lt-length (x ∷ []) n h e = ground arith
  count-lt-length (x ∷ y ∷ r) n h e =
      ground (arith, count-lt-length (y ∷ r) (omega arith) h.1 (rw (last_key-cons x y r) at e))

  All-passes_later :
      (blocks : List (List Key))
      → All (λ k. p k ≡ false) (flatten blocks)
      → All (λ block. passes block ≡ false) blocks
  unfolding flatten
  All-passes_later [] h = tt
  All-passes_later (block ∷ rest) h = (
    passes-All block (All-append_left (λ k. p k ≡ false) block (flatten rest) h),
    All-passes_later rest (All-append_right (λ k. p k ≡ false) block (flatten rest) h),
  )

  Antitone-skip :
      (xs ys : List Key)
      → Antitone p (xs ++ ys)
      → passes xs ≡ false
      → 0 < length xs
      → All (λ k. p k ≡ false) ys
  Antitone-skip [] ys h e n = absurd (omega arith)
  Antitone-skip (x ∷ []) ys h e n = h.0 e
  Antitone-skip (x ∷ y ∷ r) ys h e n =
      Antitone-skip (y ∷ r) ys h.1 (rw (last_key-cons x y r) at e) (omega arith)

  pub Antitone-passes :
      (blocks : List (List Key))
      → NoneEmpty blocks
      → Antitone p (flatten blocks)
      → Antitone passes blocks
  unfolding flatten
  Antitone-passes [] n h = tt
  Antitone-passes (block ∷ rest) n h = (
    λ e. All-passes_later rest (Antitone-skip block (flatten rest) h e n.0),
    Antitone-passes rest n.1 (Antitone-append_right p block (flatten rest) h),
  )

-- the keys of the blocks left of a position, and those from it on
abbrev pub left_of : List (List Key) → ℕ → ℕ → List Key
left_of blocks b i = flatten (take b blocks) ++ take i (block_at blocks b)

abbrev pub right_of : List (List Key) → ℕ → ℕ → List Key
right_of blocks b i = drop i (block_at blocks b) ++ flatten (drop (suc b) blocks)

take-nil : (n : ℕ) → take {A = Key} n [] ≡ []
take-nil zero = refl
take-nil (suc n) = refl

drop-nil : (n : ℕ) → drop {A = Key} n [] ≡ []
drop-nil zero = refl
drop-nil (suc n) = refl

pub left_of-append-right_of :
    (blocks : List (List Key)) (b i : ℕ)
    → left_of blocks b i ++ right_of blocks b i ≡ flatten blocks
unfolding flatten
left_of-append-right_of [] zero i = rw (take-nil i, drop-nil i)
left_of-append-right_of [] (suc b) i = rw (take-nil i, drop-nil i)
left_of-append-right_of (block ∷ rest) zero i =
    rw (← append_assoc (take i block) (drop i block) (flatten rest), take-append-drop i block)
left_of-append-right_of (block ∷ rest) (suc b) i =
    rw
      (
        append_assoc block (flatten (take b rest)) (take i (block_at rest b)),
        append_assoc block (left_of rest b i) (right_of rest b i),
      )
      (ap (λ ks. block ++ ks) (left_of-append-right_of rest b i))

module _ (p : Key → Bool) where
  -- the position that the two searches find
  abbrev pub block_of : List (List Key) → ℕ
  block_of blocks = count (passes p) blocks

  abbrev pub index_of : List (List Key) → ℕ
  index_of blocks = count p (block_at blocks (block_of blocks))

  pub All-left_of :
      (blocks : List (List Key))
      → NoneEmpty blocks
      → Antitone p (flatten blocks)
      → All (λ k. p k ≡ true) (left_of blocks (block_of blocks) (index_of blocks))
  unfolding flatten
  All-left_of [] n h = tt
  All-left_of (block ∷ rest) n h = elim (Bool-cases (passes p block)) [
    | inl e ↦
        let ih = All-left_of rest n.1 (Antitone-append_right p block (flatten rest) h) in
        let whole = All-passes p block (Antitone-append_left p block (flatten rest) h) e in
        rw
          (
            e,
            append_assoc block (flatten (take (block_of rest) rest))
                (take (index_of rest) (block_at rest (block_of rest))),
          )
          (All-append (λ k. p k ≡ true) block (left_of rest (block_of rest) (index_of rest)) whole
            ih)
    | inr e ↦ rw e (All-take-count p block)
  ]

  pub All-right_of :
      (blocks : List (List Key))
      → NoneEmpty blocks
      → Antitone p (flatten blocks)
      → All (λ k. p k ≡ false) (right_of blocks (block_of blocks) (index_of blocks))
  unfolding flatten
  All-right_of [] n h = tt
  All-right_of (block ∷ rest) n h = elim (Bool-cases (passes p block)) [
    | inl e ↦ rw e (All-right_of rest n.1 (Antitone-append_right p block (flatten rest) h))
    | inr e ↦ rw e (
        All-append (λ k. p k ≡ false) (drop (count p block) block) (flatten rest)
          (All-drop-count p block (Antitone-append_left p block (flatten rest) h))
          (Antitone-skip p block (flatten rest) h e n.0))
  ]

  -- a position inside the blocks is inside its block
  pub index_of-lt-length :
      (blocks : List (List Key))
      → NoneEmpty blocks
      → Antitone p (flatten blocks)
      → block_of blocks < length blocks
      → index_of blocks < length (block_at blocks (block_of blocks))
  unfolding flatten
  index_of-lt-length [] n h l = absurd (omega arith)
  index_of-lt-length (block ∷ rest) n h l = elim (Bool-cases (passes p block)) [
    | inl e ↦
        let l' = rw e at l in
        rw e (
          index_of-lt-length rest n.1 (Antitone-append_right p block (flatten rest) h)
            (omega arith))
    | inr e ↦ rw e (count-lt-length p block n.0 (Antitone-append_left p block (flatten rest) h) e)
  ]
