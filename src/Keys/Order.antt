-- ===== src/Keys/Order.antt =====
-- `compareKeys` orders keys: its sign is the lexicographic order of ranked code units.
use Prim.Native.Nat.{compare}
use phaselock.Prelude.{
  ℕ, ◌+◌, ◌-◌, ◌<◌, ◌≡◌, ◌≢◌, refl, Ordering, List, [], ◌∷◌, map, arith, leb, if◌then◌else◌, All,
  sign, flip,
}
use phaselock.Keys.{Key, compare_keys, compare_units}

-- A total rank of code units, by which `compare_units` compares.
abbrev pub rank : ℕ → ℕ
rank x = if leb 0xd800 x then (if leb 0xe000 x then x - 0x800 else x + 0x2000) else x

abbrev pub lex : List ℕ → List ℕ → Ordering
lex [] [] = Ordering.eq
lex [] (y ∷ b) = Ordering.lt
lex (x ∷ a) [] = Ordering.gt
lex (x ∷ a) (y ∷ b) = elim (compare x y) [
  | Ordering.lt ↦ Ordering.lt
  | Ordering.eq ↦ lex a b
  | Ordering.gt ↦ Ordering.gt
]

abbrev pub IsUnit : ℕ → Type 0
IsUnit x = x < 65536

-- a JavaScript string: every code unit has 16 bits
abbrev pub IsKey : Key → Type 0
IsKey k = All IsUnit k

abbrev pub order : Key → Key → Ordering
order a b = sign (compare_keys a b)

infix 50 ◌≺◌
abbrev pub ◌≺◌ : Key → Key → Type 0
a ≺ b = order a b ≡ Ordering.lt

compare_units-eq-compare :
    (x y : ℕ) → IsUnit x → IsUnit y → x ≢ y → sign (compare_units x y) ≡ compare (rank x) (rank y)
unfolding compare_units
compare_units-eq-compare x y h k ne = ground arith

pub rank_injective : (x y : ℕ) → IsUnit x → IsUnit y → rank x ≡ rank y → x ≡ y
rank_injective x y h k e = ground arith

pub order-eq-lex : (a b : Key) → IsKey a → IsKey b → order a b ≡ lex (map rank a) (map rank b)
unfolding compare_keys
order-eq-lex [] [] h k = refl
order-eq-lex [] (y ∷ b) h k = ground arith
order-eq-lex (x ∷ a) [] h k = ground arith
order-eq-lex (x ∷ a) (y ∷ b) h k = ground (
  arith,
  order-eq-lex a b h.1 k.1,
  compare_units-eq-compare x y h.0 k.0,
  rank_injective x y h.0 k.0,
)

lex-flip : (a b : List ℕ) → lex b a ≡ flip (lex a b)
lex-flip [] [] = refl
lex-flip [] (y ∷ b) = refl
lex-flip (x ∷ a) [] = refl
lex-flip (x ∷ a) (y ∷ b) = ground (arith, lex-flip a b)

lex_trans : (a b c : List ℕ) → lex a b ≡ Ordering.lt → lex b c ≡ Ordering.lt → lex a c ≡ Ordering.lt
lex_trans a [] [] h k = ground arith
lex_trans [] [] (z ∷ c) h k = ground arith
lex_trans (x ∷ a) [] (z ∷ c) h k = ground arith
lex_trans a (y ∷ b) [] h k = ground arith
lex_trans [] (y ∷ b) (z ∷ c) h k = refl
lex_trans (x ∷ a) (y ∷ b) (z ∷ c) h k = ground (arith, lex_trans a b c)

lex-eq : (a b : Key) → IsKey a → IsKey b → lex (map rank a) (map rank b) ≡ Ordering.eq → a ≡ b
lex-eq [] [] h k e = refl
lex-eq [] (y ∷ b) h k e = ground arith
lex-eq (x ∷ a) [] h k e = ground arith
lex-eq (x ∷ a) (y ∷ b) h k e = ground (arith, lex-eq a b h.1 k.1, rank_injective x y h.0 k.0)

pub order_refl : (a : Key) → order a a ≡ Ordering.eq
unfolding compare_keys
order_refl [] = refl
order_refl (x ∷ a) = ground (arith, order_refl a)

pub order-flip : (a b : Key) → IsKey a → IsKey b → order b a ≡ flip (order a b)
order-flip a b h k =
    rw (order-eq-lex a b h k, order-eq-lex b a k h) (lex-flip (map rank a) (map rank b))

pub order-eq : (a b : Key) → IsKey a → IsKey b → order a b ≡ Ordering.eq → a ≡ b
order-eq a b h k e = lex-eq a b h k (rw (order-eq-lex a b h k) at e)

pub ≺_trans : (a b c : Key) → IsKey a → IsKey b → IsKey c → a ≺ b → b ≺ c → a ≺ c
≺_trans a b c ha hb hc p q = rw (order-eq-lex a c ha hc) (
    lex_trans (map rank a) (map rank b) (map rank c) (rw (order-eq-lex a b ha hb) at p)
      (rw (order-eq-lex b c hb hc) at q))
