-- ===== src/Tests/Cursor.antt =====
-- Walks over small arrays.
use mathlib.Core.List.{flatten}
use phaselock.Prelude.{◌≡◌, refl, List, [], ◌∷◌, Bool, true, false, some, arith, pos, length, ◌≤◌}
use phaselock.Keys.{Key, key_eq, compare_keys, exact_for}
use phaselock.KeyList.{KeyList, before_key, seek, keys}
use phaselock.KeyList.Laws.{IsSearchable}
use phaselock.Cursor.Blocks.{list_cursor, list_seek, list_key}
use phaselock.Bisect.{bisect}
use phaselock.Keys.Sorted.{IsSorted}
use phaselock.Cursor.{array_cursor, array_seek, merge_cursors, merged_key}
use phaselock.Cursor.Walks.{filter, onward, walked}
use phaselock.Cursor.Array.{array_cursor-Walks}
use phaselock.Cursor.Merge.{walked-merge_cursors, merge, Disjoint}

abbrev odds : List Key
odds = (b'a' ∷ []) ∷ (b'c' ∷ []) ∷ (b'e' ∷ []) ∷ []

abbrev evens : List Key
evens = (b'b' ∷ []) ∷ (b'd' ∷ []) ∷ []

abbrev is_c : Key → Bool
is_c k = key_eq k (b'c' ∷ [])

odds-IsSorted : IsSorted odds
unfolding compare_keys
odds-IsSorted = ((refl, (refl, tt)), ((refl, tt), (tt, tt)))

evens-IsSorted : IsSorted evens
unfolding compare_keys
evens-IsSorted = ((refl, tt), (tt, tt))

odds_apart : Disjoint odds evens
unfolding key_eq
odds_apart = ((refl, (refl, tt)), ((refl, (refl, tt)), ((refl, (refl, tt)), tt)))

walk_run :
    walked
      (merge_cursors (array_cursor odds true) (array_cursor evens true) true)
      9
      (array_seek odds true (some (b'd' ∷ [])) true, array_seek evens true (some (b'd' ∷ [])) true)
    ≡ (b'c' ∷ []) ∷ (b'b' ∷ []) ∷ (b'a' ∷ []) ∷ []
unfolding walked array_seek merged_key exact_for before_key bisect key_eq
walk_run = refl

walked-merge_cursors_example :
    walked (merge_cursors (array_cursor odds false) (array_cursor evens false) false) 9 (
      array_seek odds false (some (b'b' ∷ [])) true,
      array_seek evens false (some (b'b' ∷ [])) true,
    )
    ≡ filter (onward false (some (b'b' ∷ [])) true) (merge false odds evens)
walked-merge_cursors_example =
    walked-merge_cursors (array_cursor odds false) (array_cursor evens false)
      (array_cursor-Walks odds (omega arith) odds-IsSorted (omega arith)).0
      (array_cursor-Walks evens (omega arith) evens-IsSorted (omega arith)).0 (omega arith)
      (omega arith) odds_apart (some (b'b' ∷ [])) true (pos 0, pos 0) 9 (omega arith) (omega arith)

abbrev two_blocks : KeyList
two_blocks = record { blocks = ((b'a' ∷ []) ∷ (b'c' ∷ []) ∷ []) ∷ ((b'e' ∷ []) ∷ []) ∷ [] }

two_blocks-IsSearchable : IsSearchable two_blocks.blocks
unfolding flatten compare_keys
two_blocks-IsSearchable = record {
  sorted = ((refl, (refl, tt)), ((refl, tt), (tt, tt)));
  units = omega arith;
  none_empty = omega arith;
  short = omega arith;
}

list_run :
    walked
      (list_cursor two_blocks true)
      9
      (list_seek two_blocks.blocks true (some (b'e' ∷ [])) false)
    ≡ (b'e' ∷ []) ∷ (b'c' ∷ []) ∷ (b'a' ∷ []) ∷ []
unfolding walked list_seek list_key seek exact_for before_key bisect
list_run = refl

three_keys : length (keys two_blocks) ≤ 3
unfolding flatten
three_keys = omega arith
