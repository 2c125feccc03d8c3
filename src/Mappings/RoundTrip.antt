-- ===== src/Mappings/RoundTrip.antt =====
-- The fields of a segment written as base64 VLQ digits read back.
use mathlib.Core.List.{append_assoc, append-nil}
use phaselock.Prelude.{
  ℕ, zero, suc, ◌+◌, ◌-◌, ◌*◌, ◌/◌, ◌%◌, ◌≤◌, ◌<◌, ◌≡◌, ◌∙◌, refl, sym, ap, List, [], ◌∷◌, ◌++◌,
  true, false, if◌then◌else◌, ltb, leb, ◌==◌, ℤ, pos, negsuc, arith, Bool-cases, inl, inr,
}
use phaselock.Mappings.{digit_of, field_of, fields_loop, segment_fields}

-- the character of a base64 digit
abbrev pub char_of : ℕ → ℕ
char_of d =
    if ltb d 26
    then d + 65
    else if ltb d 52
    then d + 71
    else if ltb d 62
    then d - 4
    else if d == 62
    then 43
    else 47

-- "every digit carries 5 bits of the value, least significant first, and a sixth bit set when another
-- digit follows"; as many digits as the value has units, at most
abbrev pub digits : ℕ → ℕ → List ℕ
digits zero v = char_of v ∷ []
digits (suc fuel) v =
    let rest = digits fuel (v / 32) in
    if ltb v 32 then char_of v ∷ [] else char_of (v % 32 + 32) ∷ rest

-- "The value's lowest bit is its sign."
abbrev pub signed : ℤ → ℕ
signed (pos n) = n * 2
signed (negsuc n) = suc n * 2 + 1

abbrev pub encode_fields : List ℤ → List ℕ
encode_fields [] = []
encode_fields (z ∷ zs) = digits (signed z) (signed z) ++ encode_fields zs

digit_of-char_of : (d : ℕ) → d < 64 → digit_of (char_of d) ≡ d
unfolding digit_of
digit_of-char_of d h = ground arith

field_of-signed : (z : ℤ) → field_of (signed z) ≡ z
unfolding field_of
field_of-signed (pos n) = ground arith
field_of-signed (negsuc n) = ground arith

loop_last :
    (v : ℕ) (rest : List ℕ) (value scale : ℕ) (fields : List ℤ)
    → v < 32
    → fields_loop (char_of v ∷ rest) value scale fields
      ≡ fields_loop rest 0 1 (fields ++ field_of (value + v * scale) ∷ [])
unfolding fields_loop
loop_last v rest value scale fields h =
    let d = digit_of-char_of v (omega arith) in
    let m : v % 32 ≡ v = omega arith in let l : leb 32 v ≡ false = ground arith in rw (d, m, l) refl

loop_more :
    (d : ℕ) (rest : List ℕ) (value scale : ℕ) (fields : List ℤ)
    → d < 32
    → fields_loop (char_of (d + 32) ∷ rest) value scale fields
      ≡ fields_loop rest (value + d * scale) (scale * 32) fields
unfolding fields_loop
loop_more d rest value scale fields h =
    let e = digit_of-char_of (d + 32) (omega arith) in
    let m : (d + 32) % 32 ≡ d = omega arith in
    let l : leb 32 (d + 32) ≡ true = ground arith in rw (e, m, l) refl

scaled : (v value scale : ℕ) → (value + v % 32 * scale) + v / 32 * (scale * 32) ≡ value + v * scale
scaled v value scale =
    let e : v ≡ v / 32 * 32 + v % 32 = omega arith in
    let q = v / 32 in
    let r = v % 32 in
    let m : (q * 32 + r) * scale ≡ q * (scale * 32) + r * scale = grind arith in
    let t : v * scale ≡ (q * 32 + r) * scale = ap (λ (z : ℕ). z * scale) e in omega (arith, m, t)

loop-digits :
    (fuel v : ℕ) (rest : List ℕ) (value scale : ℕ) (fields : List ℤ)
    → v ≤ fuel
    → fields_loop (digits fuel v ++ rest) value scale fields
      ≡ fields_loop rest 0 1 (fields ++ field_of (value + v * scale) ∷ [])
loop-digits zero v rest value scale fields h = loop_last v rest value scale fields (omega arith)
loop-digits (suc fuel) v rest value scale fields h = elim (Bool-cases (ltb v 32)) [
  | inl e ↦ rw e (loop_last v rest value scale fields (ground arith))
  | inr e ↦ rw e (
      loop_more (v % 32) (digits fuel (v / 32) ++ rest) value scale fields (omega arith)
      ∙ loop-digits fuel (v / 32) rest (value + v % 32 * scale) (scale * 32) fields (ground arith)
      ∙ ap (λ (z : ℕ). fields_loop rest 0 1 (fields ++ field_of z ∷ [])) (scaled v value scale))
]

loop-encode_fields : (zs fields : List ℤ) → fields_loop (encode_fields zs) 0 1 fields ≡ fields ++ zs
unfolding fields_loop
loop-encode_fields [] fields = sym (append-nil fields)
loop-encode_fields (z ∷ zs) fields =
    let one : 0 + signed z * 1 ≡ signed z = omega arith in
    let head = loop-digits (signed z) (signed z) (encode_fields zs) 0 1 fields (omega arith) in
    head
    ∙ ap (λ (n : ℕ). fields_loop (encode_fields zs) 0 1 (fields ++ field_of n ∷ [])) one
    ∙ ap (λ (y : ℤ). fields_loop (encode_fields zs) 0 1 (fields ++ y ∷ [])) (field_of-signed z)
    ∙ loop-encode_fields zs (fields ++ z ∷ [])
    ∙ append_assoc fields (z ∷ []) zs

-- In exact arithmetic, any list of integers, each written as base64 VLQ digits, least significant
-- first, with the sign in the lowest bit, reads back as the fields of the segment.
pub segment_fields-encode_fields : (zs : List ℤ) → segment_fields (encode_fields zs) ≡ zs
unfolding segment_fields
segment_fields-encode_fields zs = loop-encode_fields zs []
