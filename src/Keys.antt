-- ===== src/Keys.antt =====
-- Key order: `compareKeys`, `unitCompare`, `exactFor`, `sortKeys` and `prefixEnd` of
-- typespec/ts/assets/skeleton.ts. A key is a JavaScript string: the list of its UTF-16 code units.
pub mod Order
pub mod Exact
pub mod Sorted
pub mod Sort
pub mod CodePoints
pub mod Prefix
use mathlib.Core.List.{reverse}
use phaselock.Prelude.{
  ℕ, ◌+◌, ◌-◌, ◌*◌, ◌/◌, ◌%◌, List, [], ◌∷◌, ◌++◌, Bool, true, false, ◌&&◌, Option, none, some, ltb,
  leb, ◌==◌, if◌then◌else◌, length, any, ℤ, pos, negsuc, sub_ℕ, is_pos,
}

abbrev pub Key : Type 0
Key = List ℕ

-- the surrogates moved above U+E000-U+FFFF
unfoldable pub move_unit : ℕ → ℕ
move_unit x = if leb 0xe000 x then x - 0x800 else x + 0x2000

-- the answer at the first code unit that differs
unfoldable pub compare_units : ℕ → ℕ → ℤ
unfolding move_unit
compare_units x y =
    if leb 0xd800 x && leb 0xd800 y then sub_ℕ (move_unit x) (move_unit y) else sub_ℕ x y

-- The loop over the common prefix is the recursion; past it the lengths differ as the whole ones do.
unfoldable pub compare_keys : Key → Key → ℤ
unfolding compare_units
compare_keys [] b = sub_ℕ 0 (length b)
compare_keys (x ∷ a) [] = sub_ℕ (length (x ∷ a)) 0
compare_keys (x ∷ a) (y ∷ b) = if x == y then compare_keys a b else compare_units x y

-- `HIGH_UNIT.test`
unfoldable pub has_high_unit : Key → Bool
has_high_unit k = any (leb 0xd800) k

-- JavaScript's `<` on strings: code-unit order
unfoldable pub unit_ltb : Key → Key → Bool
unit_ltb a [] = false
unit_ltb [] (y ∷ b) = true
unit_ltb (x ∷ a) (y ∷ b) = if x == y then unit_ltb a b else ltb x y

unfoldable pub unit_compare : Key → Key → ℤ
unfolding unit_ltb
unit_compare a b = if unit_ltb a b then negsuc 0 else if unit_ltb b a then pos 1 else pos 0

-- `k !== undefined && HIGH_UNIT.test(k)`
abbrev pub needs_exact : Option Key → Bool
needs_exact none = false
needs_exact (some k) = has_high_unit k

unfoldable pub exact_for : List (Option Key) → Key → Key → ℤ
unfolding has_high_unit unit_compare compare_keys
exact_for keys = if any needs_exact keys then compare_keys else unit_compare

-- `===` on strings
unfoldable pub key_eq : Key → Key → Bool
key_eq [] [] = true
key_eq (x ∷ a) (y ∷ b) = x == y && key_eq a b
key_eq _ _ = false

-- `key.startsWith(prefix)`, the prefix first
unfoldable pub starts_with : Key → Key → Bool
starts_with [] k = true
starts_with (x ∷ p) [] = false
starts_with (x ∷ p) (y ∷ k) = x == y && starts_with p k

-- `String.fromCodePoint`: one unit, or a surrogate pair
unfoldable pub from_code_point : ℕ → Key
from_code_point c =
    if ltb c 0x10000
    then c ∷ []
    else (0xd800 + (c - 0x10000) / 0x400) ∷ (0xdc00 + (c - 0x10000) % 0x400) ∷ []

-- the next code point, stepping over the surrogates
unfoldable pub next_code_point : ℕ → ℕ
next_code_point c = if c == 0xd7ff then 0xe000 else c + 1

abbrev pub is_pair : ℕ → ℕ → Bool
is_pair x y = (leb 0xd800 x && ltb x 0xdc00) && (leb 0xdc00 y && ltb y 0xe000)

-- `while (end.endsWith('\u{10FFFF}')) end = end.slice(0, -2)`, on the units from the last one back
unfoldable pub strip_max : List ℕ → List ℕ
strip_max (y ∷ x ∷ r) = if y == 0xdfff && x == 0xdbff then strip_max r else y ∷ x ∷ r
strip_max k = k

-- The last code point, a pair or a single unit, is replaced by the next one.
unfoldable pub increment_last : List ℕ → Option Key
unfolding from_code_point next_code_point
increment_last [] = none
increment_last (y ∷ []) = some (from_code_point (next_code_point y))
increment_last (y ∷ x ∷ r) =
    if is_pair x y
    then some (
        reverse r
        ++ from_code_point (next_code_point (0x10000 + (x - 0xd800) * 0x400 + (y - 0xdc00))))
    else some (reverse (x ∷ r) ++ from_code_point (next_code_point y))

unfoldable pub prefix_end : Key → Option Key
unfolding strip_max increment_last
prefix_end prefix = increment_last (strip_max (reverse prefix))

-- `Array.prototype.sort` with a comparison: stable, an element stays before those not below it.
unfoldable pub sort_insert : (Key → Key → ℤ) → Key → List Key → List Key
sort_insert cmp x [] = x ∷ []
sort_insert cmp x (y ∷ ys) = if is_pos (cmp x y) then y ∷ sort_insert cmp x ys else x ∷ y ∷ ys

unfoldable pub sort : (Key → Key → ℤ) → List Key → List Key
unfolding sort_insert
sort cmp [] = []
sort cmp (x ∷ xs) = sort_insert cmp x (sort cmp xs)

-- The native sort, without a comparison, is by code units.
unfoldable pub sort_keys : List Key → List Key
sort_keys keys =
    let sorted = sort unit_compare keys in
    if any has_high_unit sorted then sort compare_keys sorted else sorted
