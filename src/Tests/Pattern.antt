-- ===== src/Tests/Pattern.antt =====
-- Keys placed against patterns.
use phaselock.Prelude.{◌≡◌, ◌↔◌, refl, sym, [], ◌∷◌, ◌++◌, true, false, none, some, arith}
use phaselock.Keys.{Key, exact_for, starts_with, from_code_point}
use phaselock.Keys.CodePoints.{encode}
use phaselock.Pattern.{
  CompiledPattern, any, prefix, range, named, value_field, value, literal, compile_pattern,
}
use phaselock.Pattern.Place.{place_key, match, done, seek_to}
use phaselock.Pattern.Takes.{admits}
use phaselock.Pattern.Matches.{Matches, place_key-eq-match}
use phaselock.Pattern.Values.{admits-value_field}

-- the keys `s!t:<from b on>,<any>`
abbrev from_b : CompiledPattern
from_b = record {
  head = b's' ∷ b'!' ∷ [];
  fields =
      literal (b't' ∷ b':' ∷ []) false
      ∷ value (value_field (range (some (b'b' ∷ [])) none none none) (some b','))
      ∷ value (value_field any none)
      ∷ [];
}

compile_pattern_run :
    compile_pattern (record {
      slice = named (b's' ∷ []);
      name = some (b't' ∷ []);
      locals = range (some (b'b' ∷ [])) none none none ∷ any ∷ [];
    })
    ≡ some from_b
unfolding compile_pattern value_field
compile_pattern_run = refl

-- `s!t:b,x` matches, `s!t:a,x` is short of the first value, and `s!u` lies past the template
place_key_run :
    (place_key from_b (b's' ∷ b'!' ∷ b't' ∷ b':' ∷ b'b' ∷ b',' ∷ b'x' ∷ []) false ≡ match)
    × (place_key from_b (b's' ∷ b'!' ∷ b't' ∷ b':' ∷ b'a' ∷ b',' ∷ b'x' ∷ []) false
        ≡ seek_to (b's' ∷ b'!' ∷ b't' ∷ b':' ∷ b'b' ∷ []) false)
    × (place_key from_b (b's' ∷ b'!' ∷ b'u' ∷ []) false ≡ done)
unfolding place_key value_field starts_with exact_for
place_key_run = (refl, refl, refl)

place_key-eq-match_example :
    (place_key from_b (b's' ∷ b'!' ∷ b't' ∷ b':' ∷ b'b' ∷ b',' ∷ b'x' ∷ []) true ≡ match)
    ↔ (r : Key) × (b's' ∷ b'!' ∷ b't' ∷ b':' ∷ b'b' ∷ b',' ∷ b'x' ∷ [] ≡ (b's' ∷ b'!' ∷ []) ++ r)
      × Matches from_b.fields r
place_key-eq-match_example =
    place_key-eq-match from_b (b's' ∷ b'!' ∷ b't' ∷ b':' ∷ b'b' ∷ b',' ∷ b'x' ∷ []) true

encode_ab :
    (encode (b'a' ∷ b'b' ∷ []) ≡ b'a' ∷ b'b' ∷ [])
    × (encode (b'a' ∷ b'b' ∷ b'c' ∷ []) ≡ b'a' ∷ b'b' ∷ b'c' ∷ [])
unfolding from_code_point
encode_ab = (refl, refl)

admits-value_field_example :
    admits (value_field (prefix (b'a' ∷ b'b' ∷ [])) none) (b'a' ∷ b'b' ∷ b'c' ∷ []) ≡ true
unfolding starts_with
admits-value_field_example =
    admits-value_field (prefix (b'a' ∷ b'b' ∷ [])) none (b'a' ∷ b'b' ∷ b'c' ∷ [])
      (b'a' ∷ b'b' ∷ [], omega arith, sym encode_ab.0)
      (b'a' ∷ b'b' ∷ b'c' ∷ [], omega arith, sym encode_ab.1)
