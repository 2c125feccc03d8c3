-- ===== src/Mappings.antt =====
-- The fields of a source map's segments: `segmentFields` of typespec/ts/assets/skeleton.ts. The source
-- computes with doubles, which are exact up to 2^53; the model's numbers have no bound.
pub mod RoundTrip
use phaselock.Prelude.{
  ℕ, suc, ◌+◌, ◌-◌, ◌*◌, ◌/◌, ◌%◌, List, [], ◌∷◌, ◌++◌, Bool, ◌&&◌, if◌then◌else◌, ltb, leb, ◌==◌,
  ℤ, pos, negsuc,
}

-- `BASE64.indexOf(c)`. For any other character it is -1, whose bits under 31 and 32 are those of 63.
unfoldable pub digit_of : ℕ → ℕ
digit_of c =
    if leb b'A' c && leb c b'Z'
    then c - b'A'
    else if leb b'a' c && leb c b'z'
    then c - b'a' + 26
    else if leb b'0' c && leb c b'9'
    then c - b'0' + 52
    else if c == b'+'
    then 62
    else 63

-- `-n`; -0 is 0 in the arithmetic that follows
abbrev pub negate : ℕ → ℤ
negate n = if n == 0 then pos 0 else negsuc (n - 1)

-- the field that a value holds, its lowest bit the sign
unfoldable pub field_of : ℕ → ℤ
field_of value = if value % 2 == 1 then negate (value / 2) else pos (value / 2)

-- The loop over the characters: `digit & 32` is set from 32 on.
unfoldable pub fields_loop : List ℕ → ℕ → ℕ → List ℤ → List ℤ
unfolding digit_of field_of
fields_loop [] value scale fields = fields
fields_loop (c ∷ segment) value scale fields =
    let digit = digit_of c in
    let total = value + digit % 32 * scale in
    let more = fields_loop segment total (scale * 32) fields in
    let next = fields_loop segment 0 1 (fields ++ field_of total ∷ []) in
    if leb 32 digit then more else next

unfoldable pub segment_fields : List ℕ → List ℤ
unfolding fields_loop
segment_fields segment = fields_loop segment 0 1 []
