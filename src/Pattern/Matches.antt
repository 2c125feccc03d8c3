-- ===== src/Pattern/Matches.antt =====
-- A key is placed on a match exactly when the pattern's head and fields, one after another, make
-- it up.
use native.Mathlib.Nat.{add_assoc}
use phaselock.Prelude.{
  ℕ, ◌+◌, ◌≤◌, ◌≡◌, ◌↔◌, inl, inr, refl, List, [], ◌∷◌, ◌++◌, Bool, true, false, ◌&&◌, Option, none,
  some, length, drop, arith, Bool-cases, length-drop,
}
use phaselock.Keys.{Key, starts_with}
use phaselock.Pattern.{ValueField, Field, CompiledPattern, value, literal}
use phaselock.Pattern.Place.{
  Placement, place_key, place_fields, is_match, skip_back, miss_literal, seek_lo, seek_hi,
  has_literal, field_text, sep_length, match, step, done, seek_to,
}
use phaselock.Pattern.Takes.{
  TakesValue, drop-append, drop-drop, field_text_bound, length-starts_with, starts_with-append,
  starts_with-split, takes_literal, takes_literal_bound, takes_literal_iff, takes_value,
  takes_value_iff,
}

-- The fields make up a text: a literal is its text, and all the rest where it is a whole local key;
-- a value is admitted, and runs to the first separator or to the end of the text. What follows the
-- last field is free.
abbrev pub Matches : List Field → Key → Type 0
Matches [] k = Unit
Matches (literal text whole ∷ fs) k =
    (r : Key) × (k ≡ text ++ r) × (whole ≡ true → r ≡ []) × Matches fs r
Matches (value f ∷ fs) k = TakesValue f.sep f (Matches fs) k

matches_rest : List Field → Key → Bool
unfolding takes_literal takes_value
matches_rest [] k = true
matches_rest (literal text whole ∷ fs) k =
    takes_literal text whole k && matches_rest fs (drop (length text) k)
matches_rest (value f ∷ fs) k = takes_value f.sep f (matches_rest fs) k

skip_back_lem :
    (reverse : Bool) (key : Key) (prev : List (ValueField × ℕ))
    → is_match (skip_back reverse key prev) ≡ false
unfolding skip_back
skip_back_lem reverse key [] = refl
skip_back_lem reverse key ((f, end) ∷ prev) = ground (arith, skip_back_lem reverse key prev)

miss_literal_lem :
    (text : Key) (whole reverse : Bool) (key : Key) (prev : List (ValueField × ℕ)) (pos : ℕ)
    → is_match (miss_literal text whole reverse key prev pos) ≡ false
unfolding miss_literal
miss_literal_lem text whole reverse key prev pos = ground (arith, skip_back_lem reverse key prev)

seek_lo_lem :
    (f : ValueField) (lo : Option Key) (reverse : Bool) (key : Key) (prev : List (ValueField × ℕ))
    (pos : ℕ)
    → is_match (seek_lo f lo reverse key prev pos) ≡ false
unfolding seek_lo
seek_lo_lem f none reverse key prev pos = refl
seek_lo_lem f (some lo) reverse key prev pos = ground (arith, skip_back_lem reverse key prev)

seek_hi_lem :
    (f : ValueField) (hi : Option Key) (reverse : Bool) (key : Key) (prev : List (ValueField × ℕ))
    (pos : ℕ)
    → is_match (seek_hi f hi reverse key prev pos) ≡ false
unfolding seek_hi
seek_hi_lem f none reverse key prev pos = refl
seek_hi_lem f (some hi) reverse key prev pos = ground (arith, skip_back_lem reverse key prev)

has_literal_lem :
    (text : Key) (whole : Bool) (key : Key) (pos : ℕ)
    → pos ≤ length key
    → has_literal text whole key pos ≡ takes_literal text whole (drop pos key)
unfolding has_literal takes_literal
has_literal_lem text whole key pos h = ground (arith, length-drop pos key)

-- Wherever the loop stands, it answers a match exactly when the fields left take the rest.
place_fields-eq-matches_rest :
    (reverse : Bool) (key : Key) (fs : List Field) (prev : List (ValueField × ℕ)) (pos : ℕ)
    → pos ≤ length key
    → is_match (place_fields reverse key fs prev pos) ≡ matches_rest fs (drop pos key)
unfolding place_fields matches_rest takes_value
place_fields-eq-matches_rest reverse key [] prev pos h = refl
place_fields-eq-matches_rest reverse key (literal text whole ∷ fs) prev pos h =
    elim (Bool-cases (takes_literal text whole (drop pos key))) [
      | inl e ↦
          rw (has_literal_lem text whole key pos h, e, drop-drop (length text) pos key)
            (place_fields-eq-matches_rest reverse key fs prev (pos + length text)
              (takes_literal_bound text whole key pos h e))
      | inr e ↦
          rw (has_literal_lem text whole key pos h, e)
            (miss_literal_lem text whole reverse key prev pos)
    ]
place_fields-eq-matches_rest reverse key (value f ∷ fs) prev pos h =
    let t = field_text f.sep (drop pos key) in
    let end = pos + length t.0 in
    let b = field_text_bound f.sep (drop pos key) in
    ground (
      arith,
      seek_lo_lem f f.lo reverse key prev pos,
      seek_hi_lem f f.hi reverse key prev pos,
      drop-drop (length t.0 + sep_length f.sep) pos key,
      length-drop pos key,
      b,
      add_assoc pos (length t.0) (sep_length f.sep),
      place_fields-eq-matches_rest reverse key fs ((f, end) ∷ prev) (end + sep_length f.sep),
    )

matches_rest_iff : (fs : List Field) (k : Key) → (matches_rest fs k ≡ true) ↔ Matches fs k
unfolding matches_rest
matches_rest_iff [] k = (λ e. tt, λ h. refl)
matches_rest_iff (literal text whole ∷ fs) k = (
  λ e.
      let t = (takes_literal_iff text whole k).0 (ground arith) in
      (
        drop (length text) k,
        t.0,
        t.1,
        (matches_rest_iff fs (drop (length text) k)).0 (ground arith),
      ),
  λ h.
      let (r, q, w, m) = h in
      let d : drop (length text) k ≡ r = rw q (drop-append text r) in
      let t = (takes_literal_iff text whole k).1 (rw d q, rw d w) in
      let x = (matches_rest_iff fs r).1 m in ground arith,
)
matches_rest_iff (value f ∷ fs) k =
    takes_value_iff f.sep f (Matches fs) (matches_rest fs) k (λ r. matches_rest_iff fs r)

eq_match : (p : Placement) → is_match p ≡ true → p ≡ match
eq_match match h = refl
eq_match step h = ground arith
eq_match done h = ground arith
eq_match (seek_to k strict) h = ground arith

-- Walking either way, a key is placed on a match exactly when it is the head of the pattern
-- followed by a text that the fields, one after another, make up.
pub place_key-eq-match :
    (c : CompiledPattern) (key : Key) (reverse : Bool)
    → (place_key c key reverse ≡ match) ↔ (r : Key) × (key ≡ c.head ++ r) × Matches c.fields r
unfolding place_key
place_key-eq-match c key reverse = (
  λ e.
      let p : starts_with c.head key ≡ true = ground arith in
      let rest = drop (length c.head) key in
      let same =
        place_fields-eq-matches_rest reverse key c.fields [] (length c.head)
          (length-starts_with c.head key p) in
      let taken : matches_rest c.fields rest ≡ true = ground arith in
      (rest, starts_with-split c.head key p, (matches_rest_iff c.fields rest).0 taken),
  λ h.
      let (r, q, m) = h in
      let p : starts_with c.head key ≡ true = rw q (starts_with-append c.head r) in
      let d : drop (length c.head) key ≡ r = rw q (drop-append c.head r) in
      let same =
        place_fields-eq-matches_rest reverse key c.fields [] (length c.head)
          (length-starts_with c.head key p) in
      let taken = (matches_rest_iff c.fields r).1 m in
      rw p (eq_match (place_fields reverse key c.fields [] (length c.head)) (ground arith)),
)
