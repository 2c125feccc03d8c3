-- ===== src/Pattern/Takes.antt =====
-- What one field takes from the rest of a key, as a test and as a statement.
use mathlib.Core.Path.{subst}
use phaselock.Prelude.{
  ℕ, zero, suc, ◌+◌, ◌≤◌, ◌≡◌, ◌≢◌, ◌↔◌, inl, inr, refl, sym, ap, List, [], ◌∷◌, ◌++◌, Bool, true,
  false, ◌&&◌, ◌||◌, not, Option, none, some, length, ◌==◌, take, drop, All, arith, Bool-cases,
  Option-cases, length-append, length-drop,
}
use phaselock.Keys.{Key, starts_with}
use phaselock.Pattern.{ValueField}
use phaselock.Pattern.Place.{field_text, find_unit, is_short, is_past, sep_length}

-- inside both bounds
abbrev pub admits : ValueField → Key → Bool
admits f v = not (is_short f f.lo v) && not (is_past f f.hi v)

-- A text holds no separator.
abbrev pub Lacks : ℕ → Key → Type 0
Lacks c v = All (λ (x : ℕ). x ≢ c) v

-- What a value field with this separator takes from a text, where the rest is to satisfy `P`.
abbrev pub TakesValue : Option ℕ → ValueField → (Key → Type 0) → Key → Type 0
TakesValue none f P k = (admits f k ≡ true) × P []
TakesValue (some c) f P k =
    (v : Key) × (r : Key) × (k ≡ v ++ c ∷ r) × Lacks c v × (admits f v ≡ true) × P r

-- The same as a test, the text taken field by field.
unfoldable pub takes_literal : Key → Bool → Key → Bool
takes_literal text whole k = starts_with text k && (not whole || length k == length text)

unfoldable pub takes_value : Option ℕ → ValueField → (Key → Bool) → Key → Bool
unfolding field_text
takes_value sep f rest k =
    let (v, short) = field_text sep k in
    (admits f v && not short) && rest (drop (length v + sep_length sep) k)

pub drop-drop {ℓ} : {A : Type ℓ} (n m : ℕ) (xs : List A) → drop n (drop m xs) ≡ drop (m + n) xs
drop-drop n zero xs = ground arith
drop-drop zero (suc m) [] = ground arith
drop-drop (suc n) (suc m) [] = let e : suc m + suc n ≡ suc (m + suc n) = omega arith in rw e refl
drop-drop n (suc m) (x ∷ xs) =
    let e : suc m + n ≡ suc (m + n) = omega arith in rw e (drop-drop n m xs)

pub length-starts_with : (p k : Key) → starts_with p k ≡ true → length p ≤ length k
unfolding starts_with
length-starts_with [] k h = omega arith
length-starts_with (x ∷ p) [] h = ground arith
length-starts_with (x ∷ p) (y ∷ k) h = ground (arith, length-starts_with p k)

pub takes_literal_bound :
    (text : Key) (whole : Bool) (key : Key) (pos : ℕ)
    → pos ≤ length key
    → takes_literal text whole (drop pos key) ≡ true
    → pos + length text ≤ length key
unfolding takes_literal
takes_literal_bound text whole key pos h e =
    ground (arith, length-starts_with text (drop pos key), length-drop pos key)

find_unit_bound :
    (c : ℕ) (k : Key) {n : ℕ}
    → find_unit c k ≡ some n
    → (n + 1 ≤ length k) × (length (take n k) ≡ n)
unfolding find_unit
find_unit_bound c [] h = ground arith
find_unit_bound c (x ∷ k) {n} h = elim (Bool-cases (x == c)) [
  | inl e ↦ ground arith
  | inr e ↦ elim (Option-cases (find_unit c k)) [
    | inl none_ ↦ ground arith
    | inr (m, e') ↦ let ih = find_unit_bound c k e' in ground arith
  ]
]

pub field_text_bound :
    (sep : Option ℕ) (k : Key)
    → (field_text sep k).1 ≡ false
    → length (field_text sep k).0 + sep_length sep ≤ length k
unfolding field_text
field_text_bound none k h = omega arith
field_text_bound (some c) k h = elim (Option-cases (find_unit c k)) [
  | inl e ↦ ground arith
  | inr (n, e) ↦ let b = find_unit_bound c k e in ground arith
]

pub starts_with-split : (p k : Key) → starts_with p k ≡ true → k ≡ p ++ drop (length p) k
unfolding starts_with
starts_with-split [] k h = refl
starts_with-split (x ∷ p) [] h = ground arith
starts_with-split (x ∷ p) (y ∷ k) h = ground (arith, starts_with-split p k)

pub starts_with-append : (p r : Key) → starts_with p (p ++ r) ≡ true
unfolding starts_with
starts_with-append [] r = refl
starts_with-append (x ∷ p) r = ground (arith, starts_with-append p r)

pub drop-append : (p r : Key) → drop (length p) (p ++ r) ≡ r
drop-append [] r = refl
drop-append (x ∷ p) r = drop-append p r

drop-append_next : (p r : Key) (c : ℕ) → drop (length p + 1) (p ++ c ∷ r) ≡ r
drop-append_next p r c = rw (← drop-drop 1 (length p) (p ++ c ∷ r), drop-append p (c ∷ r)) refl

take-append : (p r : Key) → take (length p) (p ++ r) ≡ p
take-append [] r = refl
take-append (x ∷ p) r = rw (take-append p r)

drop-length : (k : Key) → drop (length k) k ≡ []
drop-length [] = refl
drop-length (x ∷ k) = drop-length k

eq_nil_of_length : (k : Key) → length k ≡ 0 → k ≡ []
eq_nil_of_length [] h = refl
eq_nil_of_length (x ∷ k) h = absurd (omega arith)

find_unit-split :
    (c : ℕ) (k : Key) {n : ℕ}
    → find_unit c k ≡ some n
    → (k ≡ take n k ++ c ∷ drop (n + 1) k) × Lacks c (take n k)
unfolding find_unit
find_unit-split c [] h = ground arith
find_unit-split c (x ∷ k) {n} h = elim (Bool-cases (x == c)) [
  | inl e ↦ ground arith
  | inr e ↦ elim (Option-cases (find_unit c k)) [
    | inl none_ ↦ ground arith
    | inr (m, e') ↦
        let ih = find_unit-split c k e' in
        let q : suc m ≡ n = ground arith in
        let d : suc m + 1 ≡ suc (m + 1) = omega arith in
        rw (← q, d) (ap (λ (l : Key). x ∷ l) ih.0, (ground arith, ih.1))
  ]
]

find_unit-append : (c : ℕ) (v r : Key) → Lacks c v → find_unit c (v ++ c ∷ r) ≡ some (length v)
unfolding find_unit
find_unit-append c [] r h = ground arith
find_unit-append c (x ∷ v) r h = ground (arith, find_unit-append c v r h.1)

pub takes_literal_iff :
    (text : Key) (whole : Bool) (k : Key)
    → (takes_literal text whole k ≡ true)
      ↔ (k ≡ text ++ drop (length text) k) × (whole ≡ true → drop (length text) k ≡ [])
unfolding takes_literal
takes_literal_iff text whole k = (
  λ e.
      let p : starts_with text k ≡ true = ground arith in
      (
        starts_with-split text k p,
        λ w. eq_nil_of_length (drop (length text) k) (ground (arith, length-drop (length text) k)),
      ),
  λ h.
      let p : starts_with text k ≡ true =
        subst (λ (l : Key). starts_with text l ≡ true) (sym h.0)
          (starts_with-append text (drop (length text) k)) in
      let n : length k ≡ length (text ++ drop (length text) k) = ap length h.0 in
      ground (arith, length-append text (drop (length text) k), h.1),
)

pub takes_value_iff :
    (sep : Option ℕ) (f : ValueField) (P : Key → Type 0) (test : Key → Bool) (k : Key)
    → ((r : Key) → (test r ≡ true) ↔ P r)
    → (takes_value sep f test k ≡ true) ↔ TakesValue sep f P k
unfolding takes_value
takes_value_iff none f P test k h = (
  λ e. (ground arith, (h []).0 (rw (← drop-length k) (ground arith))),
  λ t.
      let z : length k + 0 ≡ length k = omega arith in
      let p : test (drop (length k + 0) k) ≡ true = rw (z, drop-length k) ((h []).1 t.1) in
      ground arith,
)
takes_value_iff (some c) f P test k h = (
  λ e. elim (Option-cases (find_unit c k)) [
    | inl e' ↦ absurd (ground arith)
    | inr (n, e') ↦
        let s = find_unit-split c k e' in
        let b = (find_unit_bound c k e').1 in
        (take n k, drop (n + 1) k, s.0, s.1, ground arith, (h (drop (n + 1) k)).0 (ground arith))
  ],
  λ t.
      let (v, r, q, l, a, p) = t in
      let u : find_unit c k ≡ some (length v) = rw q (find_unit-append c v r l) in
      let w : take (length v) k ≡ v = rw q (take-append v (c ∷ r)) in
      let d : drop (length v + 1) k ≡ r = rw q (drop-append_next v r c) in
      let x = (h r).1 p in ground arith,
)
