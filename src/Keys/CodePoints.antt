-- ===== src/Keys/CodePoints.antt =====
-- Well-formed keys are the UTF-16 encodings of lists of code points, and `compareKeys` orders them
-- by their code points.
use native.Mathlib.Decide.{dec_lt}
use Prim.Native.Nat.{compare}
use phaselock.Prelude.{
  Ordering, ◌+◌, ◌-◌, ◌*◌, ◌/◌, ◌%◌, ℕ, ◌+◌, ◌-◌, ◌*◌, ◌/◌, ◌%◌, ◌≤◌, ◌<◌, ◌≡◌, refl, ◌⊎◌, List, [],
  ◌∷◌, ◌++◌, arith, All, Ordering, sign,
}
use phaselock.Keys.{Key, from_code_point, compare_keys, starts_with}
use phaselock.Keys.Order.{IsKey, lex}

-- a code point that is no surrogate
abbrev pub IsScalar : ℕ → Type 0
IsScalar c = (c < 1114112) × ((c < 55296) ⊎ (57344 ≤ c))

abbrev pub encode : List ℕ → Key
encode [] = []
encode (c ∷ cs) = from_code_point c ++ encode cs

pub encode-IsKey : (cs : List ℕ) → All IsScalar cs → IsKey (encode cs)
unfolding from_code_point
encode-IsKey [] h = tt
encode-IsKey (c ∷ cs) h = ground (arith, encode-IsKey cs h.1)

-- A pair of surrogates and the code point that it encodes.
record Encodes (c x y : ℕ) : Type 0 where
  high : (0xd800 ≤ x) × (x < 0xdc00)
  low : (0xdc00 ≤ y) × (y < 0xe000)
  value : c ≡ 0x10000 + (x - 0xd800) * 0x400 + (y - 0xdc00)

pair_pair :
    (c d x y u v : ℕ) (a b : Key)
    → Encodes c x y
    → Encodes d u v
    → sign (compare_keys (x ∷ y ∷ a) (u ∷ v ∷ b)) ≡ (elim (compare c d) [
      | Ordering.lt ↦ Ordering.lt
      | Ordering.eq ↦ sign (compare_keys a b)
      | Ordering.gt ↦ Ordering.gt
    ])
unfolding compare_keys
pair_pair c d x y u v a b h k = elim (dec_lt x u) [
  | yes p ↦ ground arith
  | no p ↦ elim (dec_lt u x) [
    | yes q ↦ ground arith
    | no q ↦ elim (dec_lt y v) [
      | yes r ↦ ground arith
      | no r ↦ elim (dec_lt v y) [ yes t ↦ ground arith | no t ↦ ground arith ]
    ]
  ]
]

abbrev Agree : List ℕ → List ℕ → Type 0
Agree cs ds = sign (compare_keys (encode cs) (encode ds)) ≡ lex cs ds

module _ (c d : ℕ) (cs ds : List ℕ) (hc : IsScalar c) (hd : IsScalar d) (ih : Agree cs ds) where
  low_low : c < 65536 → d < 65536 → Agree (c ∷ cs) (d ∷ ds)
  unfolding compare_keys from_code_point
  low_low p q = ground arith

  low_high : c < 65536 → 65536 ≤ d → Agree (c ∷ cs) (d ∷ ds)
  unfolding compare_keys from_code_point
  low_high p q = ground arith

  high_low : 65536 ≤ c → d < 65536 → Agree (c ∷ cs) (d ∷ ds)
  unfolding compare_keys from_code_point
  high_low p q = ground arith

  high_high : 65536 ≤ c → 65536 ≤ d → Agree (c ∷ cs) (d ∷ ds)
  unfolding from_code_point
  high_high p q = ground (
    arith,
    ih,
    pair_pair c d (0xd800 + (c - 0x10000) / 0x400) (0xdc00 + (c - 0x10000) % 0x400)
        (0xd800 + (d - 0x10000) / 0x400) (0xdc00 + (d - 0x10000) % 0x400) (encode cs) (encode ds)
        (omega arith) (omega arith),
  )

-- Keys that encode lists of code points compare as the lists do, code point by code point.
pub compare_keys-encode :
    (cs ds : List ℕ)
    → All IsScalar cs
    → All IsScalar ds
    → sign (compare_keys (encode cs) (encode ds)) ≡ lex cs ds
unfolding compare_keys from_code_point
compare_keys-encode [] [] h k = refl
compare_keys-encode [] (d ∷ ds) h k = ground arith
compare_keys-encode (c ∷ cs) [] h k = ground arith
compare_keys-encode (c ∷ cs) (d ∷ ds) h k =
    let ih : Agree cs ds = compare_keys-encode cs ds h.1 k.1 in
    elim (dec_lt c 65536) [
      | yes p ↦ elim (dec_lt d 65536) [
        | yes q ↦ low_low c d cs ds h.0 k.0 ih p q
        | no q ↦ low_high c d cs ds h.0 k.0 ih p (omega arith)
      ]
      | no p ↦ elim (dec_lt d 65536) [
        | yes q ↦ high_low c d cs ds h.0 k.0 ih (omega arith) q
        | no q ↦ high_high c d cs ds h.0 k.0 ih (omega arith) (omega arith)
      ]
    ]

pub starts_with-encode :
    (cs ds : List ℕ)
    → All IsScalar cs
    → All IsScalar ds
    → starts_with (encode cs) (encode ds) ≡ starts_with cs ds
unfolding starts_with from_code_point
starts_with-encode [] ds h k = refl
starts_with-encode (c ∷ cs) [] h k = ground arith
starts_with-encode (c ∷ cs) (d ∷ ds) h k = ground (arith, starts_with-encode cs ds h.1 k.1)
