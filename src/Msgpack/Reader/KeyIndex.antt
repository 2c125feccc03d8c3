-- ===== src/Msgpack/Reader/KeyIndex.antt =====
-- `Reader.keyIndex` finds a key among the given ones, wherever its search starts.
use mathlib.Core.List.{append_assoc}
use phaselock.Prelude.{
  ℕ, zero, suc, ◌+◌, ◌-◌, ◌≤◌, ◌<◌, ◌≡◌, ◌≢◌, refl, List, [], ◌∷◌, ◌++◌, ltb, ◌==◌, ==_iff, drop,
  length, get_elem?, arith, length-append, ap, ◌∙◌, sym, if◌then◌else◌, Option, some, none,
  Bool-cases, inl, inr, some_inj,
}
use phaselock.Msgpack.{Result, ok, ◌>>=◌}
use phaselock.Msgpack.Forms
use phaselock.Msgpack.Reader.{Reader, advance}
use phaselock.Msgpack.Reader.Laws.{At, At-advance, At-need}
use phaselock.Msgpack.Reader.Headers.{try_str_header_lem}
use phaselock.Msgpack.Reader.Scalars.{agree, found_at, key_loop, key_index, key_of, key_at}

agree-eq :
    (k word rest : List ℕ)
    → length k ≡ length word
    → agree k (word ++ rest) ≡ length word
    → k ≡ word
agree-eq [] [] rest l e = refl
agree-eq [] (y ∷ word) rest l e = absurd (omega (arith, l))
agree-eq (x ∷ k) [] rest l e = absurd (omega (arith, l))
agree-eq (x ∷ k) (y ∷ word) rest l e = ground (arith, agree-eq k word rest)

agree_self : (word rest : List ℕ) → agree word (word ++ rest) ≡ length word
agree_self [] rest = refl
agree_self (x ∷ word) rest = ground (arith, agree_self word rest)

-- what an answer says of the keys
pub Answers : List (List ℕ) → List ℕ → Option ℕ → Type 0
Answers keys word (some i) = get_elem? keys i ≡ some word
Answers keys word none = (i : ℕ) → get_elem? keys i ≢ some word

get_elem?-below {ℓ} :
    {A : Type ℓ} (xs : List A) (i : ℕ) → i < length xs → (a : A) × (get_elem? xs i ≡ some a)
get_elem?-below [] i h = absurd (omega (arith, h))
get_elem?-below (x ∷ xs) zero h = (x, refl)
get_elem?-below (x ∷ xs) (suc i) h = get_elem?-below xs i (omega arith)

get_elem?-bound {ℓ} :
    {A : Type ℓ} (xs : List A) (i : ℕ) {a : A} → get_elem? xs i ≡ some a → i < length xs
get_elem?-bound [] i e = absurd (cc e)
get_elem?-bound (x ∷ xs) zero e = omega arith
get_elem?-bound (x ∷ xs) (suc i) e = omega (arith, get_elem?-bound xs i e)

module _ (keys : List (List ℕ)) (word rest : List ℕ) (hint : ℕ) (inside : hint < length keys) where
  -- the key that round j looks at
  slot : ℕ → ℕ
  slot j = if ltb (hint + j) (length keys) then hint + j else hint + j - length keys

  slot-below : (j : ℕ) → j < length keys → slot j < length keys
  unfolding slot
  slot-below j h = ground arith

  slot_of : (i : ℕ) → i < length keys → (j : ℕ) × (j < length keys) × (slot j ≡ i)
  unfolding slot
  slot_of i h =
      (if ltb i hint then i + length keys - hint else i - hint, ground arith, ground arith)

  -- the outcome of the rounds from j on
  data Outcome (j : ℕ) : Result (Option ℕ) → Type 0 where
    hit : (i : ℕ) → get_elem? keys i ≡ some word → Outcome j (ok (some i))
    miss :
        ((k : ℕ) → j ≤ k → k < length keys → get_elem? keys (slot k) ≢ some word)
        → Outcome j (ok none)

  widen :
      (j : ℕ) (more : Result (Option ℕ))
      → get_elem? keys (slot j) ≢ some word
      → Outcome (suc j) more
      → Outcome j more
  widen j _ ne (hit i e) = hit i e
  widen j _ ne (miss f) = miss λ k p q eq. elim (Bool-cases (j == k)) [
    | inl y ↦ ne (rw (← (==_iff j k).0 y) at eq)
    | inr y ↦ f k (ground arith) q eq
  ]

  hit_or_go :
      (j : ℕ) (more : Result (Option ℕ)) (k : List ℕ)
      → j < length keys
      → get_elem? keys (slot j) ≡ some k
      → Outcome (suc j) more
      → Outcome j (found_at (slot j) (word ++ rest) (length word) more (some k))
  hit_or_go j more k b e o = elim (Bool-cases (length k == length word)) [
    | inr l ↦ rw l (
        widen j more
          (λ eq.
            let same = some_inj (sym e ∙ eq) in
            absurd (ground (arith, ap (λ (w : List ℕ). length w) same)))
          o)
    | inl l ↦ elim (Bool-cases (agree k (word ++ rest) == length word)) [
      | inl a ↦
          rw (l, a)
            (hit (slot j) (e ∙ ap some (agree-eq k word rest (ground arith) (ground arith))))
      | inr a ↦
          rw (l, a)
            (widen j more
              (λ eq.
                let same = some_inj (sym e ∙ eq) in
                absurd (
                  ground (
                    arith,
                    agree_self word rest,
                    ap (λ (w : List ℕ). agree w (word ++ rest)) same,
                  )))
              o)
    ]
  ]

  loop-Outcome :
      (rounds : ℕ)
      → rounds ≤ length keys
      → Outcome (length keys - rounds) (key_loop keys (word ++ rest) (length word) hint rounds)
  unfolding key_loop slot
  loop-Outcome zero h = miss (λ k p q. absurd (omega arith))
  loop-Outcome (suc rounds) h =
      let j = length keys - suc rounds in
      let (k, e) = get_elem?-below keys (slot j) (slot-below j (omega arith)) in
      let next : length keys - rounds ≡ suc j = omega arith in
      let later = loop-Outcome rounds (omega arith) in
      rw e (hit_or_go j _ k (omega arith) e (rw next at later))

  answer :
      (run : Result (Option ℕ))
      → Outcome 0 run
      → (o : Option ℕ) × (run ≡ ok o) × Answers keys word o
  unfolding Answers
  answer _ (hit i e) = (some i, refl, e)
  answer _ (miss f) = (
    none,
    refl,
    λ i eq. let (j, p, s) = slot_of i (get_elem?-bound keys i eq) in f j (omega arith) p (rw s eq),
  )

  loop-answer :
      (o : Option ℕ) × (key_loop keys (word ++ rest) (length word) hint (length keys) ≡ ok o)
      × Answers keys word o
  loop-answer =
      let none_left : length keys - length keys ≡ 0 = omega arith in
      let all = loop-Outcome (length keys) (omega arith) in answer _ (rw none_left at all)

-- the reader past a key, which it remembers
abbrev pub past_key : ℕ → ℕ → Reader → Reader
past_key header n r = record r {
  at = r.at + header + n;
  last_key = r.at + header;
  last_key_len = n;
}

-- At a string of fewer than 2^32 bytes, and with a hint that is an index of the keys, keyIndex
-- reads and remembers the string and passes it, wherever its search starts: an index it answers
-- holds that string, and it answers none only if no key is that string.
pub key_index_lem :
    (keys : List (List ℕ)) (hint : ℕ) (word rest : List ℕ) (r : Reader)
    → hint < length keys
    → length word < 4294967296
    → At r (Forms.str_header (length word) ++ (word ++ rest))
    → (o : Option ℕ) × (key_index keys hint r
        ≡ ok (key_at o, past_key (length (Forms.str_header (length word))) (length word) r))
      × Answers keys word o
unfolding key_index
key_index_lem keys hint word rest r h b a =
    let header = Forms.str_header (length word) in
    let r' = advance (length header) r in
    let a' = At-advance r header (word ++ rest) a in
    let head = try_str_header_lem (length word) b r (word ++ rest) a in
    let room =
      At-need r' (length word) (word ++ rest) a' (omega (arith, length-append {0} word rest)) in
    let bytes : drop r'.at r'.buf ≡ word ++ (rest ++ a'.tail) =
      a'.before ∙ append_assoc word rest a'.tail in
    let (o, e, f) = loop-answer keys word (rest ++ a'.tail) hint h in
    (o, ap (λ m. m >>= key_of keys hint) head ∙ rw (room, bytes, e) refl, f)
