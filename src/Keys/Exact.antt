-- ===== src/Keys/Exact.antt =====
-- `exactFor` answers in the order of `compareKeys` as soon as one side is one of its keys.
use phaselock.Prelude.{◌≡◌, refl, ◌⊎◌, List, [], ◌∷◌, map, arith, any, sign, Option, some, false}
use phaselock.Keys.{Key, unit_compare, exact_for, has_high_unit, needs_exact}
use phaselock.Keys.Order.{rank, lex, IsKey, order, order-eq-lex}

-- `k` is one of the keys
abbrev pub Among : Key → List (Option Key) → Type 0
Among k [] = ⊥
Among k (o ∷ os) = (o ≡ some k) ⊎ Among k os

pub unit_compare-eq-lex : (a b : Key) → sign (unit_compare a b) ≡ lex a b
unfolding unit_compare
unit_compare-eq-lex [] [] = refl
unit_compare-eq-lex [] (y ∷ b) = refl
unit_compare-eq-lex (x ∷ a) [] = refl
unit_compare-eq-lex (x ∷ a) (y ∷ b) = ground (arith, unit_compare-eq-lex a b)

pub lex-rank_left : (a b : Key) → has_high_unit a ≡ false → lex a b ≡ lex (map rank a) (map rank b)
unfolding has_high_unit
lex-rank_left [] [] h = refl
lex-rank_left [] (y ∷ b) h = refl
lex-rank_left (x ∷ a) [] h = refl
lex-rank_left (x ∷ a) (y ∷ b) h = ground (arith, lex-rank_left a b)

lex-rank_right : (a b : Key) → has_high_unit b ≡ false → lex a b ≡ lex (map rank a) (map rank b)
unfolding has_high_unit
lex-rank_right [] [] h = refl
lex-rank_right [] (y ∷ b) h = refl
lex-rank_right (x ∷ a) [] h = refl
lex-rank_right (x ∷ a) (y ∷ b) h = ground (arith, lex-rank_right a b)

Among-plain :
    (k : Key) (os : List (Option Key))
    → Among k os
    → any needs_exact os ≡ false
    → has_high_unit k ≡ false
Among-plain k [] m e = absurd m
Among-plain k (o ∷ os) m e = ground (arith, Among-plain k os)

-- Whenever one of two keys of 16-bit units is among the keys given, exact_for compares them as
-- compare_keys does.
pub exact_for-eq-order :
    (os : List (Option Key)) (a b : Key)
    → IsKey a
    → IsKey b
    → Among a os ⊎ Among b os
    → sign (exact_for os a b) ≡ order a b
unfolding exact_for
exact_for-eq-order os a b ha hb m = ground (
  arith,
  order-eq-lex a b ha hb,
  unit_compare-eq-lex a b,
  Among-plain a os,
  Among-plain b os,
  lex-rank_left a b,
  lex-rank_right a b,
)
