-- ===== src/KeyList/Sizes.antt =====
-- The blocks of a `KeyList` keep their lengths.
use phaselock.Prelude.{
  ℕ, zero, suc, ◌+◌, ◌-◌, ◌/◌, ◌≤◌, ◌<◌, ◌≡◌, ◌≢◌, refl, ap, List, [], ◌∷◌, ◌++◌, false, arith, ltb,
  leb, ◌==◌, if◌then◌else◌, length, take, drop, splice, All, All-append, Bool-cases, inl, inr, ◌⊎◌,
  length-append, length-take, length-drop,
}
use phaselock.Keys.{Key}
use phaselock.KeyList.{block_at, insert_at, join_at, remove_at}

abbrev pub Fits : ℕ → List Key → Type 0
Fits least block = (least ≤ length block) × (length block ≤ 2048)

-- "A block holds at most 2 * BLOCK keys and, unless it is the only one, at least BLOCK / 4"; "a block
-- is never empty"
abbrev pub IsSized : List (List Key) → Type 0
IsSized [] = Unit
IsSized (block ∷ []) = Fits 1 block
IsSized (block ∷ rest) = Fits 256 block × All (Fits 256) rest

pub IsSized-of_all : (blocks : List (List Key)) → All (Fits 256) blocks → IsSized blocks
IsSized-of_all [] h = tt
IsSized-of_all (block ∷ []) h = omega arith
IsSized-of_all (block ∷ c ∷ rest) h = h

Fits-weaken : (blocks : List (List Key)) → All (Fits 256) blocks → All (Fits 1) blocks
Fits-weaken [] h = tt
Fits-weaken (block ∷ rest) h = (omega arith, Fits-weaken rest h.1)

pub sized-Fits : (blocks : List (List Key)) → IsSized blocks → All (Fits 1) blocks
sized-Fits [] h = tt
sized-Fits (block ∷ []) h = (h, tt)
sized-Fits (block ∷ c ∷ rest) h = Fits-weaken (block ∷ c ∷ rest) h

pub All-Fits :
    (blocks : List (List Key)) → IsSized blocks → length blocks ≢ 1 → All (Fits 256) blocks
All-Fits [] h n = tt
All-Fits (block ∷ []) h n = absurd (omega arith)
All-Fits (block ∷ c ∷ rest) h n = h

module _ {ℓ} {A : Type ℓ} where
  All-take {κ} : (P : A → Type κ) (n : ℕ) (xs : List A) → All P xs → All P (take n xs)
  All-take P zero xs h = tt
  All-take P (suc n) [] h = tt
  All-take P (suc n) (x ∷ xs) h = (h.0, All-take P n xs h.1)

  All-drop {κ} : (P : A → Type κ) (n : ℕ) (xs : List A) → All P xs → All P (drop n xs)
  All-drop P zero xs h = h
  All-drop P (suc n) [] h = tt
  All-drop P (suc n) (x ∷ xs) h = All-drop P n xs h.1

  pub All-splice {κ} :
      (P : A → Type κ) (i n : ℕ) (news xs : List A)
      → All P news
      → All P xs
      → All P (splice i n news xs)
  All-splice P i n news xs k h =
      All-append P (take i xs) (news ++ drop n (drop i xs)) (All-take P i xs h)
        (All-append P news (drop n (drop i xs)) k (All-drop P n (drop i xs) (All-drop P i xs h)))

All-block_at :
    {least : ℕ} (blocks : List (List Key)) (b : ℕ)
    → All (Fits least) blocks
    → b < length blocks
    → Fits least (block_at blocks b)
All-block_at [] b h l = absurd (omega arith)
All-block_at (block ∷ rest) zero h l = h.0
All-block_at (block ∷ rest) (suc b) h l = All-block_at rest b h.1 (omega arith)

length-insert :
    (xs : List Key) (i : ℕ) (key : Key) → length (splice i 0 (key ∷ []) xs) ≡ length xs + 1
length-insert xs i key = omega (
  arith,
  length-append {0} (take i xs) (key ∷ drop i xs),
  length-take {0} i xs,
  length-drop {0} i xs,
)

-- A predicate on all elements but the one at an index.
abbrev AllBut {ℓ κ} : {A : Type ℓ} → (A → Type κ) → ℕ → List A → Type κ
AllBut P b [] = Unit
AllBut P zero (x ∷ xs) = All P xs
AllBut P (suc b) (x ∷ xs) = P x × AllBut P b xs

module _ (least : ℕ) (low : 1 ≤ least) (high : least ≤ 256) where
  -- Two halves of a block grown too long.
  halves-Fits :
      (block : List Key)
      → 2048 < length block
      → length block ≤ 4096
      → All (Fits least) (take (length block / 2) block ∷ drop (length block / 2) block ∷ [])
  halves-Fits block l u =
      omega
        (arith, length-take {0} (length block / 2) block, length-drop {0} (length block / 2) block)

  pub insert_at-All :
      (blocks : List (List Key)) (key : Key) (b i : ℕ)
      → b < length blocks
      → All (Fits least) blocks
      → All (Fits least) (insert_at blocks key b i)
  unfolding insert_at
  insert_at-All blocks key b i inside h =
      let block = splice i 0 (key ∷ []) (block_at blocks b) in
      let fits = All-block_at blocks b h inside in
      let grown = length-insert (block_at blocks b) i key in
      elim (Bool-cases (ltb 2048 (length block))) [
        | inl e ↦ rw e (
            All-splice (Fits least) b 1
              (take (length block / 2) block ∷ drop (length block / 2) block ∷ []) blocks
              (halves-Fits block (ground arith) (omega arith)) h)
        | inr e ↦ rw e (All-splice (Fits least) b 1 (block ∷ []) blocks (ground arith) h)
      ]

  AllBut-splice :
      (b : ℕ) (block : List Key) (blocks : List (List Key))
      → b < length blocks
      → All (Fits least) blocks
      → AllBut (Fits least) b (splice b 1 (block ∷ []) blocks)
  AllBut-splice b block [] l h = absurd (omega arith)
  AllBut-splice zero block (c ∷ rest) l h = h.1
  AllBut-splice (suc b) block (c ∷ rest) l h = (h.0, AllBut-splice b block rest (omega arith) h.1)

  AllBut-take :
      (b x : ℕ) (blocks : List (List Key))
      → x ≤ b
      → AllBut (Fits least) b blocks
      → All (Fits least) (take x blocks)
  AllBut-take b zero blocks l h = tt
  AllBut-take b (suc x) [] l h = tt
  AllBut-take zero (suc x) (c ∷ rest) l h = absurd (omega arith)
  AllBut-take (suc b) (suc x) (c ∷ rest) l h = (h.0, AllBut-take b x rest (omega arith) h.1)

  AllBut-drop :
      (b x : ℕ) (blocks : List (List Key))
      → b < x
      → AllBut (Fits least) b blocks
      → All (Fits least) (drop x blocks)
  AllBut-drop b zero blocks l h = absurd (omega arith)
  AllBut-drop b (suc x) [] l h = tt
  AllBut-drop zero (suc x) (c ∷ rest) l h = All-drop (Fits least) x rest h
  AllBut-drop (suc b) (suc x) (c ∷ rest) l h = AllBut-drop b x rest (omega arith) h.1

  AllBut-block_at :
      (b x : ℕ) (blocks : List (List Key))
      → b ≢ x
      → x < length blocks
      → AllBut (Fits least) b blocks
      → Fits least (block_at blocks x)
  AllBut-block_at b x [] n l h = absurd (omega arith)
  AllBut-block_at zero zero (c ∷ rest) n l h = absurd (n refl)
  AllBut-block_at zero (suc x) (c ∷ rest) n l h = All-block_at rest x h (omega arith)
  AllBut-block_at (suc b) zero (c ∷ rest) n l h = h.0
  AllBut-block_at (suc b) (suc x) (c ∷ rest) n l h =
      AllBut-block_at b x rest (omega arith) (omega arith) h.1

  drop_two : {A : Type 0} (x : ℕ) (xs : List A) → drop 2 (drop x xs) ≡ drop (suc (suc x)) xs
  drop_two zero [] = refl
  drop_two zero (a ∷ xs) = refl
  drop_two (suc x) [] = refl
  drop_two (suc x) (a ∷ xs) = drop_two x xs

  -- A short block and its neighbour make one block or two that fit.
  join_at-All :
      (blocks : List (List Key)) (b x : ℕ)
      → AllBut (Fits least) b blocks
      → (x ≡ b) ⊎ (x + 1 ≡ b)
      → x + 1 < length blocks
      → length (block_at blocks b) < 256
      → All (Fits least) (join_at blocks x)
  unfolding join_at
  join_at-All blocks b x h near inside small =
      let joined = block_at blocks x ++ block_at blocks (x + 1) in
      let sum = length-append (block_at blocks x) (block_at blocks (x + 1)) in
      let before = AllBut-take b x blocks (omega arith) h in
      let after : All (Fits least) (drop 2 (drop x blocks)) =
        rw (drop_two x blocks) (AllBut-drop b (suc (suc x)) blocks (omega arith) h) in
      let bounds : (least ≤ length joined) × (length joined ≤ 4096) = elim near [
        | inl e ↦ omega (
          arith,
          sum,
          ap (λ n. length (block_at blocks n)) e,
          AllBut-block_at b (x + 1) blocks (omega arith) inside h,
        )
        | inr e ↦ omega (
          arith,
          sum,
          ap (λ n. length (block_at blocks n)) e,
          AllBut-block_at b x blocks (omega arith) (omega arith) h,
        )
      ] in
      let two : 2048 < length joined
          → All (Fits least)
              (take (length joined / 2) joined ∷ drop (length joined / 2) joined ∷ []) =
        λ l. halves-Fits joined l bounds.1 in
      elim (Bool-cases (ltb 2048 (length joined))) [
        | inl e ↦
            let fit = two (ground arith) in
            rw e (All-append (Fits least) (take x blocks) _ before (fit.0, (fit.1.0, after)))
        | inr e ↦ rw e (All-append (Fits least) (take x blocks) _ before (ground arith, after))
      ]

  length-splice_one :
      (b : ℕ) (block : List Key) (blocks : List (List Key))
      → b < length blocks
      → length (splice b 1 (block ∷ []) blocks) ≡ length blocks
  length-splice_one b block [] l = absurd (omega arith)
  length-splice_one zero block (c ∷ rest) l = refl
  length-splice_one (suc b) block (c ∷ rest) l =
      ap suc (length-splice_one b block rest (omega arith))

  block_at-splice_one :
      (b : ℕ) (block : List Key) (blocks : List (List Key))
      → b < length blocks
      → block_at (splice b 1 (block ∷ []) blocks) b ≡ block
  block_at-splice_one b block [] l = absurd (omega arith)
  block_at-splice_one zero block (c ∷ rest) l = refl
  block_at-splice_one (suc b) block (c ∷ rest) l = block_at-splice_one b block rest (omega arith)

  length-remove :
      (xs : List Key) (i : ℕ) → i < length xs → length (splice i 1 [] xs) + 1 ≡ length xs
  length-remove [] i l = absurd (omega arith)
  length-remove (x ∷ xs) zero l = omega arith
  length-remove (x ∷ xs) (suc i) l = omega (arith, length-remove xs i (omega arith))

  -- the neighbour that a short block joins
  abbrev neighbour : List (List Key) → ℕ → ℕ
  neighbour blocks b = if ltb (b + 1) (length blocks) then b else b - 1

  pub remove_at-All :
      (blocks : List (List Key)) (b i : ℕ)
      → b < length blocks
      → i < length (block_at blocks b)
      → 2 ≤ length blocks
      → All (Fits least) blocks
      → All (Fits least) (remove_at blocks b i)
  unfolding remove_at
  remove_at-All blocks b i inside at many h =
      let block = splice i 1 [] (block_at blocks b) in
      let rest = splice b 1 (block ∷ []) blocks in
      let fits = All-block_at blocks b h inside in
      let shrunk = length-remove (block_at blocks b) i at in
      let several : (length blocks == 1) ≡ false = ground arith in
      let count = length-splice_one b block blocks inside in
      let read = ap (λ (ks : List Key). length ks) (block_at-splice_one b block blocks inside) in
      let near : (neighbour blocks b ≡ b) ⊎ (neighbour blocks b + 1 ≡ b) = ground arith in
      let room : neighbour blocks b + 1 < length blocks = ground arith in
      elim (Bool-cases (leb 256 (length block))) [
        | inl e ↦ rw e (All-splice (Fits least) b 1 (block ∷ []) blocks (ground arith) h)
        | inr e ↦
            let small : length block < 256 = ground arith in
            rw (e, several)
              (join_at-All rest b (neighbour blocks b) (AllBut-splice b block blocks inside h) near
                (omega arith) (omega arith))
      ]

insert_at_only :
    (block : List Key) (key : Key) (i : ℕ) → Fits 1 block → IsSized (insert_at (block ∷ []) key 0 i)
unfolding insert_at
insert_at_only block key i h =
    let grown = length-insert block i key in
    let block' = splice i 0 (key ∷ []) block in
    elim (Bool-cases (ltb 2048 (length block'))) [
      | inl e ↦
          rw e (halves-Fits 256 (omega arith) (omega arith) block' (ground arith) (omega arith))
      | inr e ↦ rw e (ground arith)
    ]

pub insert_at-IsSized :
    (blocks : List (List Key)) (key : Key) (b i : ℕ)
    → b < length blocks
    → IsSized blocks
    → IsSized (insert_at blocks key b i)
insert_at-IsSized [] key b i inside h = absurd (omega arith)
insert_at-IsSized (block ∷ []) key zero i inside h = insert_at_only block key i h
insert_at-IsSized (block ∷ []) key (suc b) i inside h = absurd (omega arith)
insert_at-IsSized (block ∷ c ∷ rest) key b i inside h =
    let blocks = block ∷ c ∷ rest in
    IsSized-of_all (insert_at blocks key b i)
      (insert_at-All 256 (omega arith) (omega arith) blocks key b i inside h)

remove_at_only :
    (block : List Key) (i : ℕ)
    → i < length block
    → Fits 1 block
    → IsSized (remove_at (block ∷ []) 0 i)
unfolding remove_at
remove_at_only block i at h =
    let shrunk = length-remove 1 (omega arith) (omega arith) block i at in
    let block' = splice i 1 [] block in
    elim (Bool-cases (leb 256 (length block'))) [
      | inl e ↦ rw e (ground arith)
      | inr e ↦ elim (Bool-cases (length block' == 0)) [
        | inl z ↦ rw (e, z) tt
        | inr z ↦ rw (e, z) (ground arith)
      ]
    ]

pub remove_at-IsSized :
    (blocks : List (List Key)) (b i : ℕ)
    → b < length blocks
    → i < length (block_at blocks b)
    → IsSized blocks
    → IsSized (remove_at blocks b i)
remove_at-IsSized [] b i inside at h = absurd (omega arith)
remove_at-IsSized (block ∷ []) zero i inside at h = remove_at_only block i at h
remove_at-IsSized (block ∷ []) (suc b) i inside at h = absurd (omega arith)
remove_at-IsSized (block ∷ c ∷ rest) b i inside at h =
    let blocks = block ∷ c ∷ rest in
    IsSized-of_all (remove_at blocks b i)
      (remove_at-All 256 (omega arith) (omega arith) blocks b i inside at (omega arith) h)

-- Whatever their sizes, blocks that are not empty stay so.
pub remove_at-NoneEmpty :
    (blocks : List (List Key)) (b i : ℕ)
    → b < length blocks
    → i < length (block_at blocks b)
    → All (Fits 1) blocks
    → All (Fits 1) (remove_at blocks b i)
remove_at-NoneEmpty [] b i inside at h = absurd (omega arith)
remove_at-NoneEmpty (block ∷ []) zero i inside at h =
    sized-Fits (remove_at (block ∷ []) 0 i) (remove_at_only block i at h.0)
remove_at-NoneEmpty (block ∷ []) (suc b) i inside at h = absurd (omega arith)
remove_at-NoneEmpty (block ∷ c ∷ rest) b i inside at h =
    remove_at-All 1 (omega arith) (omega arith) (block ∷ c ∷ rest) b i inside at (omega arith) h
