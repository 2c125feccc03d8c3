-- ===== src/Pattern/Place.antt =====
-- Where a key stands against a compiled pattern: `placeKey`, `matchesPattern` and `spanCovers` of
-- typespec/ts/assets/skeleton.ts.
use mathlib.Core.Option
use phaselock.Prelude.{
  ℕ, suc, ◌+◌, ◌%◌, List, [], ◌∷◌, ◌++◌, Bool, true, false, ◌&&◌, ◌||◌, not, Option, none, some,
  if◌then◌else◌, length, ◌==◌, take, drop, is_neg, is_zero, is_pos,
}
use phaselock.Keys.{Key, compare_keys, unit_compare, prefix_end, starts_with}
use phaselock.Pattern.{ValueField, Field, CompiledPattern, value, literal}

pub data Placement : Type 0 where
  match step done : Placement
  -- target and strict
  seek_to : Key → Bool → Placement

-- the character just above a separator; `charCodeAt` of no character makes U+0000
unfoldable pub above : Option ℕ → Key
above none = 0 ∷ []
above (some c) = ((c + 1) % 65536) ∷ []

-- `indexOf` of one unit, from the start of a text
unfoldable pub find_unit : ℕ → Key → Option ℕ
find_unit c [] = none
find_unit c (x ∷ k) = let rest = Option.map suc (find_unit c k) in if x == c then some 0 else rest

-- a value field's text, and whether the key ends before the separator
unfoldable pub field_text : Option ℕ → Key → Key × Bool
unfolding find_unit
field_text none rest = (rest, false)
field_text (some c) rest = elim (find_unit c rest) [
  | none ↦ (rest, true)
  | some n ↦ (take n rest, false)
]

-- is the value short of its match, or past it?
unfoldable pub is_short : ValueField → Option Key → Key → Bool
is_short f none v = false
is_short f (some lo) v = let d = f.cmp v lo in is_neg d || (is_zero d && f.lo_open)

unfoldable pub is_past : ValueField → Option Key → Key → Bool
is_past f none v = false
is_past f (some hi) v = let d = f.cmp v hi in is_pos d || (is_zero d && f.hi_open)

-- Past every key holding the value of the nearest varying field before. The value fields before
-- are listed from the nearest on, with the ends of their texts.
unfoldable pub skip_back : Bool → Key → List (ValueField × ℕ) → Placement
unfolding above
skip_back reverse key [] = done
skip_back reverse key ((f, end) ∷ prev) =
    let rest = skip_back reverse key prev in
    if f.single
    then rest
    else if reverse
    then seek_to (take (end + 1) key) true
    else seek_to (take end key ++ above f.sep) false

unfoldable pub has_literal : Key → Bool → Key → ℕ → Bool
has_literal text whole key pos =
    starts_with text (drop pos key) && (not whole || length key == pos + length text)

-- `prefixEnd(…)!`: added to a text, undefined reads "undefined"
unfoldable pub end_text : Option Key → Key
end_text (some e) = e
end_text none = b'u' ∷ b'n' ∷ b'd' ∷ b'e' ∷ b'f' ∷ b'i' ∷ b'n' ∷ b'e' ∷ b'd' ∷ []

unfoldable pub miss_literal : Key → Bool → Bool → Key → List (ValueField × ℕ) → ℕ → Placement
unfolding end_text
miss_literal text whole reverse key prev pos =
    if is_neg (unit_compare (drop pos key) text)
    then (if reverse then skip_back reverse key prev else seek_to (take pos key ++ text) false)
    else if not reverse
    then skip_back reverse key prev
    else if whole
    then seek_to (take pos key ++ text) false
    else seek_to (take pos key ++ end_text (prefix_end text)) true

unfoldable pub seek_lo :
    ValueField → Option Key → Bool → Key → List (ValueField × ℕ) → ℕ → Placement
unfolding above
seek_lo f none reverse key prev pos = step
seek_lo f (some lo) reverse key prev pos =
    let at = take pos key ++ lo in
    if reverse
    then skip_back reverse key prev
    else if not f.lo_open
    then seek_to at false
    else elim f.sep [ none ↦ seek_to at true | some c ↦ seek_to (at ++ above (some c)) false ]

unfoldable pub seek_hi :
    ValueField → Option Key → Bool → Key → List (ValueField × ℕ) → ℕ → Placement
unfolding above
seek_hi f none reverse key prev pos = step
seek_hi f (some hi) reverse key prev pos =
    let at = take pos key ++ hi in
    if not reverse
    then skip_back reverse key prev
    else if f.hi_open
    then seek_to at true
    else elim f.sep [ none ↦ seek_to at false | some c ↦ seek_to (at ++ above (some c)) true ]

-- `f.sep.length`
abbrev pub sep_length : Option ℕ → ℕ
sep_length none = 0
sep_length (some c) = 1

-- The loop over the fields, those before it and the position in the key.
unfoldable pub place_fields : Bool → Key → List Field → List (ValueField × ℕ) → ℕ → Placement
unfolding has_literal miss_literal field_text is_short is_past seek_lo seek_hi skip_back
place_fields reverse key [] prev pos = match
place_fields reverse key (literal text whole ∷ fs) prev pos =
    let next = place_fields reverse key fs prev (pos + length text) in
    if has_literal text whole key pos then next else miss_literal text whole reverse key prev pos
place_fields reverse key (value f ∷ fs) prev pos =
    let (v, short) = field_text f.sep (drop pos key) in
    let end = pos + length v in
    let next = place_fields reverse key fs ((f, end) ∷ prev) (end + sep_length f.sep) in
    if is_short f f.lo v
    then seek_lo f f.lo reverse key prev pos
    else if is_past f f.hi v
    then seek_hi f f.hi reverse key prev pos
    else if short
    then step
    else next

unfoldable pub place_key : CompiledPattern → Key → Bool → Placement
unfolding place_fields
place_key c key reverse =
    if starts_with c.head key then place_fields reverse key c.fields [] (length c.head) else done

abbrev pub is_match : Placement → Bool
is_match match = true
is_match _ = false

unfoldable pub matches_pattern : CompiledPattern → Key → Bool
unfolding place_key
matches_pattern c key = is_match (place_key c key false)

pub record ScanSpan : Type 0 where
  pub pattern : CompiledPattern
  pub reverse : Bool
  pub from : Option Key
  pub to : Option Key

-- is the key at or before where the span starts, or past where it ends?
unfoldable pub outside_from : Bool → Option Key → Key → Bool
outside_from reverse none key = false
outside_from reverse (some from) key =
    let d = compare_keys key from in if reverse then not (is_neg d) else not (is_pos d)

unfoldable pub outside_to : Bool → Option Key → Key → Bool
outside_to reverse none key = false
outside_to reverse (some to) key =
    let d = compare_keys key to in if reverse then is_neg d else is_pos d

unfoldable pub span_covers : ScanSpan → Key → Bool
unfolding outside_from outside_to matches_pattern
span_covers s key =
    if outside_from s.reverse s.from key
    then false
    else if outside_to s.reverse s.to key
    then false
    else matches_pattern s.pattern key
