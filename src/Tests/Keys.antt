-- ===== src/Tests/Keys.antt =====
-- Keys, their order and their prefixes on concrete strings.
use phaselock.Prelude.{◌≡◌, refl, [], ◌∷◌, not, ◌&&◌, some, none, arith, sign, is_neg, Ordering}
use phaselock.Keys.{Key, compare_keys, unit_compare, prefix_end, starts_with}
use phaselock.Keys.Order.{◌≺◌, ≺_trans}
use phaselock.Keys.CodePoints.{encode, compare_keys-encode}
use phaselock.Keys.Prefix.{before_end, prefix_end_lem}

-- U+FF5E, one unit, and U+1F600, a surrogate pair
abbrev wave : Key
wave = 0xff5e ∷ []

abbrev smile : Key
smile = 0xd83d ∷ 0xde00 ∷ []

compare_smile :
    (sign (compare_keys wave smile) ≡ Ordering.lt) × (sign (unit_compare wave smile) ≡ Ordering.gt)
unfolding compare_keys unit_compare
compare_smile = (refl, refl)

-- the end of "ab" is "ac", and no key lies above all that begin with U+10FFFF
prefix_end_ab :
    (prefix_end (97 ∷ 98 ∷ []) ≡ some (97 ∷ 99 ∷ [])) × (prefix_end (0xdbff ∷ 0xdfff ∷ []) ≡ none)
unfolding prefix_end
prefix_end_ab = (refl, refl)

-- U+D7FF is followed by U+E000
prefix_end_gap : prefix_end (97 ∷ 0xd7ff ∷ []) ≡ some (97 ∷ 0xe000 ∷ [])
unfolding prefix_end
prefix_end_gap = refl

compare_keys-encode_example :
    sign (compare_keys (encode (0xff5e ∷ [])) (encode (0x1f600 ∷ []))) ≡ Ordering.lt
compare_keys-encode_example =
    compare_keys-encode (0xff5e ∷ []) (0x1f600 ∷ []) (omega arith) (omega arith)

≺_trans_example : (97 ∷ []) ≺ smile
unfolding compare_keys
≺_trans_example = ≺_trans (97 ∷ []) wave smile (omega arith) (omega arith) (omega arith) refl refl

prefix_end_lem_example :
    starts_with (encode (97 ∷ 0x1f600 ∷ [])) (encode (97 ∷ 0x1f600 ∷ 98 ∷ [])) ≡ (
      not (is_neg (compare_keys (encode (97 ∷ 0x1f600 ∷ 98 ∷ [])) (encode (97 ∷ 0x1f600 ∷ []))))
      && before_end (encode (97 ∷ 0x1f600 ∷ 98 ∷ [])) (prefix_end (encode (97 ∷ 0x1f600 ∷ []))))
prefix_end_lem_example =
    prefix_end_lem (97 ∷ 0x1f600 ∷ []) (97 ∷ 0x1f600 ∷ 98 ∷ []) (omega arith) (omega arith)
