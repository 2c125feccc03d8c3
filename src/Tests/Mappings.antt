-- ===== src/Tests/Mappings.antt =====
-- A segment of a source map: "AAgBC" reads 0, 0, 16, 1.
use phaselock.Prelude.{◌≡◌, refl, [], ◌∷◌, pos, negsuc}
use phaselock.Mappings.{segment_fields}
use phaselock.Mappings.RoundTrip.{encode_fields, segment_fields-encode_fields}

segment_run :
    segment_fields (b'A' ∷ b'A' ∷ b'g' ∷ b'B' ∷ b'C' ∷ []) ≡ pos 0 ∷ pos 0 ∷ pos 16 ∷ pos 1 ∷ []
unfolding segment_fields
segment_run = refl

segment_fields-encode_fields_example :
    segment_fields (encode_fields (pos 16 ∷ negsuc 6 ∷ [])) ≡ pos 16 ∷ negsuc 6 ∷ []
segment_fields-encode_fields_example = segment_fields-encode_fields (pos 16 ∷ negsuc 6 ∷ [])
