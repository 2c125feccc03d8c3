-- ===== src/Pattern/Targets.antt =====
-- The targets that keys are placed on are JavaScript strings too.
use mathlib.Core.Path.{subst}
use phaselock.Prelude.{
  ℕ, zero, suc, ◌+◌, ◌≡◌, List, [], ◌∷◌, ◌++◌, Bool, true, false, not, Option, none, some,
  if◌then◌else◌, length, take, drop, arith, All, All-append, is_neg,
}
use phaselock.Keys.{Key, prefix_end, starts_with, unit_compare}
use phaselock.Keys.Order.{IsKey, IsUnit}
use phaselock.Pattern.{ValueField, Field, CompiledPattern, value, literal}
use phaselock.Pattern.Place.{
  Placement, place_key, place_fields, skip_back, miss_literal, end_text, seek_lo, seek_hi, above,
  has_literal, field_text, is_short, is_past, sep_length, match, step, done, seek_to,
}
use phaselock.Pattern.Bounds.{OptIsKey}

abbrev pub TargetIsKey : Placement → Type 0
TargetIsKey (seek_to t strict) = IsKey t
TargetIsKey match = Unit
TargetIsKey step = Unit
TargetIsKey done = Unit

-- the texts of a pattern's fields are strings
abbrev pub FieldIsKey : Field → Type 0
FieldIsKey (value f) = OptIsKey f.lo × OptIsKey f.hi
FieldIsKey (literal text whole) = IsKey text × OptIsKey (prefix_end text)

if-TargetIsKey :
    (b : Bool) (p q : Placement) → TargetIsKey p → TargetIsKey q → TargetIsKey (if b then p else q)
if-TargetIsKey true p q h k = h
if-TargetIsKey false p q h k = k

take-IsKey : (n : ℕ) (k : Key) → IsKey k → IsKey (take n k)
take-IsKey zero k h = tt
take-IsKey (suc n) [] h = tt
take-IsKey (suc n) (x ∷ k) h = (h.0, take-IsKey n k h.1)

above-IsKey : (sep : Option ℕ) → IsKey (above sep)
unfolding above
above-IsKey none = omega arith
above-IsKey (some c) = omega arith

end_text-IsKey : (o : Option Key) → OptIsKey o → IsKey (end_text o)
unfolding end_text
end_text-IsKey none h = omega arith
end_text-IsKey (some e) h = h

module _ (reverse : Bool) (key : Key) (hk : IsKey key) where
  at-IsKey : (pos : ℕ) (t : Key) → IsKey t → IsKey (take pos key ++ t)
  at-IsKey pos t h = All-append IsUnit (take pos key) t (take-IsKey pos key hk) h

  skip_back-TargetIsKey : (prev : List (ValueField × ℕ)) → TargetIsKey (skip_back reverse key prev)
  unfolding skip_back
  skip_back-TargetIsKey [] = tt
  skip_back-TargetIsKey ((f, end) ∷ prev) =
      if-TargetIsKey f.single (skip_back reverse key prev)
        (if reverse
          then seek_to (take (end + 1) key) true
          else seek_to (take end key ++ above f.sep) false)
        (skip_back-TargetIsKey prev)
        (if-TargetIsKey reverse (seek_to (take (end + 1) key) true)
          (seek_to (take end key ++ above f.sep) false) (take-IsKey (end + 1) key hk)
          (at-IsKey end (above f.sep) (above-IsKey f.sep)))

  module _ (prev : List (ValueField × ℕ)) (pos : ℕ) where
    miss_literal-TargetIsKey :
        (text : Key) (whole : Bool)
        → FieldIsKey (literal text whole)
        → TargetIsKey (miss_literal text whole reverse key prev pos)
    unfolding miss_literal
    miss_literal-TargetIsKey text whole h =
        let back = skip_back reverse key prev in
        let b = skip_back-TargetIsKey prev in
        let at = seek_to (take pos key ++ text) false in
        let a = at-IsKey pos text h.0 in
        let far = seek_to (take pos key ++ end_text (prefix_end text)) true in
        let e = at-IsKey pos (end_text (prefix_end text)) (end_text-IsKey (prefix_end text) h.1) in
        let past = if whole then at else far in
        let p = if-TargetIsKey whole at far a e in
        if-TargetIsKey (is_neg (unit_compare (drop pos key) text)) (if reverse then back else at)
          (if not reverse then back else past) (if-TargetIsKey reverse back at b a)
          (if-TargetIsKey (not reverse) back past b p)

    -- a bound, and just above it past the separator, where there is one
    bound-TargetIsKey :
        (sep : Option ℕ) (b : Key) (near far : Bool)
        → IsKey b
        → TargetIsKey (elim sep [
          | none ↦ seek_to (take pos key ++ b) near
          | some c ↦ seek_to ((take pos key ++ b) ++ above (some c)) far
        ])
    bound-TargetIsKey none b near far h = at-IsKey pos b h
    bound-TargetIsKey (some c) b near far h =
        All-append IsUnit (take pos key ++ b) (above (some c)) (at-IsKey pos b h)
          (above-IsKey (some c))

    seek_lo-TargetIsKey :
        (f : ValueField) (lo : Option Key)
        → OptIsKey lo
        → TargetIsKey (seek_lo f lo reverse key prev pos)
    unfolding seek_lo
    seek_lo-TargetIsKey f none h = tt
    seek_lo-TargetIsKey f (some lo) h =
        let back = skip_back reverse key prev in
        let at = take pos key ++ lo in
        let far : Placement = elim f.sep [
          | none ↦ seek_to at true
          | some c ↦ seek_to (at ++ above (some c)) false
        ] in
        if-TargetIsKey reverse back (if not f.lo_open then seek_to at false else far)
          (skip_back-TargetIsKey prev)
          (if-TargetIsKey (not f.lo_open) (seek_to at false) far (at-IsKey pos lo h)
            (bound-TargetIsKey f.sep lo true false h))

    seek_hi-TargetIsKey :
        (f : ValueField) (hi : Option Key)
        → OptIsKey hi
        → TargetIsKey (seek_hi f hi reverse key prev pos)
    unfolding seek_hi
    seek_hi-TargetIsKey f none h = tt
    seek_hi-TargetIsKey f (some hi) h =
        let back = skip_back reverse key prev in
        let at = take pos key ++ hi in
        let far : Placement = elim f.sep [
          | none ↦ seek_to at false
          | some c ↦ seek_to (at ++ above (some c)) true
        ] in
        if-TargetIsKey (not reverse) back (if f.hi_open then seek_to at true else far)
          (skip_back-TargetIsKey prev)
          (if-TargetIsKey f.hi_open (seek_to at true) far (at-IsKey pos hi h)
            (bound-TargetIsKey f.sep hi false true h))

  place_fields-TargetIsKey :
      (fs : List Field) (prev : List (ValueField × ℕ)) (pos : ℕ)
      → All FieldIsKey fs
      → TargetIsKey (place_fields reverse key fs prev pos)
  unfolding place_fields
  place_fields-TargetIsKey [] prev pos h = tt
  place_fields-TargetIsKey (literal text whole ∷ fs) prev pos h =
      if-TargetIsKey (has_literal text whole key pos)
        (place_fields reverse key fs prev (pos + length text))
        (miss_literal text whole reverse key prev pos)
        (place_fields-TargetIsKey fs prev (pos + length text) h.1)
        (miss_literal-TargetIsKey prev pos text whole h.0)
  place_fields-TargetIsKey (value f ∷ fs) prev pos h =
      let t = field_text f.sep (drop pos key) in
      let end = pos + length t.0 in
      let next = place_fields reverse key fs ((f, end) ∷ prev) (end + sep_length f.sep) in
      let n = place_fields-TargetIsKey fs ((f, end) ∷ prev) (end + sep_length f.sep) h.1 in
      let inside = if t.1 then step else next in
      let i = if-TargetIsKey t.1 step next tt n in
      let upper = if is_past f f.hi t.0 then seek_hi f f.hi reverse key prev pos else inside in
      if-TargetIsKey (is_short f f.lo t.0) (seek_lo f f.lo reverse key prev pos) upper
        (seek_lo-TargetIsKey prev pos f f.lo h.0.0)
        (if-TargetIsKey (is_past f f.hi t.0) (seek_hi f f.hi reverse key prev pos) inside
          (seek_hi-TargetIsKey prev pos f f.hi h.0.1) i)

pub place_key-TargetIsKey :
    (c : CompiledPattern) (key : Key) (reverse : Bool) (t : Key) (strict : Bool)
    → All FieldIsKey c.fields
    → IsKey key
    → place_key c key reverse ≡ seek_to t strict
    → IsKey t
unfolding place_key
place_key-TargetIsKey c key reverse t strict h hk e =
    let all =
      if-TargetIsKey (starts_with c.head key) (place_fields reverse key c.fields [] (length c.head))
        done (place_fields-TargetIsKey reverse key hk c.fields [] (length c.head) h) tt in
    subst TargetIsKey e all
