-- ===== src/Tests/Scan.antt =====
-- A scan over a small array.
use phaselock.Prelude.{
  ◌≡◌, refl, List, [], ◌∷◌, ◌++◌, Bool, true, false, some, none, All, All-append, arith,
}
use phaselock.Bisect.{bisect}
use phaselock.Keys.{Key, compare_keys, exact_for, prefix_end, starts_with, unit_compare}
use phaselock.Cursor.Walks.{IsTarget}
use phaselock.Keys.Sorted.{IsSorted}
use phaselock.KeyList.{before_key}
use phaselock.Cursor.{array_cursor, array_seek, comes_first}
use phaselock.Cursor.Array.{array_cursor-Walks}
use phaselock.Pattern.{CompiledPattern, range, value, literal, value_field}
use phaselock.Pattern.Place.{place_key, match}
use phaselock.Pattern.Targets.{FieldIsKey}
use phaselock.Scan.{walk_pattern}
use phaselock.Scan.Ends.{InOrder}
use phaselock.Scan.Walk.{walk_pattern_lem}

-- the keys `s!t:<from b on>`
abbrev from_b : CompiledPattern
from_b = record {
  head = b's' ∷ b'!' ∷ [];
  fields =
      literal (b't' ∷ b':' ∷ []) false
      ∷ value (value_field (range (some (b'b' ∷ [])) none none none) none)
      ∷ [];
}

-- `s!t:a`, `s!t:b`, `s!t:c` and `s!u`
abbrev stored : List Key
stored =
    (b's' ∷ b'!' ∷ b't' ∷ b':' ∷ b'a' ∷ [])
    ∷ (b's' ∷ b'!' ∷ b't' ∷ b':' ∷ b'b' ∷ [])
    ∷ (b's' ∷ b'!' ∷ b't' ∷ b':' ∷ b'c' ∷ [])
    ∷ (b's' ∷ b'!' ∷ b'u' ∷ [])
    ∷ []

-- a visitor that notes each key and goes on
abbrev note : Key → List Key → List Key × Bool
note k seen = (seen ++ k ∷ [], true)

walk_run :
    walk_pattern (array_cursor stored false) from_b false 1 note 9 none []
    ≡ some ((b's' ∷ b'!' ∷ b't' ∷ b':' ∷ b'b' ∷ []) ∷ (b's' ∷ b'!' ∷ b't' ∷ b':' ∷ b'c' ∷ []) ∷ [])
unfolding walk_pattern place_key starts_with value_field exact_for unit_compare array_seek bisect
    before_key
walk_run = refl

stored-IsSorted : IsSorted stored
unfolding compare_keys
stored-IsSorted = ((refl, (refl, (refl, tt))), ((refl, (refl, tt)), ((refl, tt), (tt, tt))))

stored-InOrder : InOrder false stored
unfolding comes_first compare_keys
stored-InOrder = ((refl, (refl, (refl, tt))), ((refl, (refl, tt)), ((refl, tt), (tt, tt))))

texts : All FieldIsKey from_b.fields
unfolding value_field prefix_end
texts = omega arith

end_of_head : IsTarget (prefix_end from_b.head)
unfolding prefix_end
end_of_head = omega arith

walk_pattern_lem_example :
    (seen : List Key) × (walk_pattern (array_cursor stored false) from_b false 1 note 9 none []
      ≡ some seen)
    × All (λ k. place_key from_b k false ≡ match) seen
walk_pattern_lem_example =
    walk_pattern_lem (array_cursor-Walks stored (omega arith) stored-IsSorted (omega arith)).0
      (omega arith) stored-InOrder from_b texts 1 note
      (λ seen. All (λ k. place_key from_b k false ≡ match) seen)
      (λ k seen m q p. All-append (λ k. place_key from_b k false ≡ match) seen (k ∷ []) p (q, tt)) 9
      none [] tt (omega arith) end_of_head (omega arith) tt
