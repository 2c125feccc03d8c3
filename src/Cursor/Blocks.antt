-- ===== src/Cursor/Blocks.antt =====
-- The cursor of class `KeyList` of typespec/ts/assets/skeleton.ts, a walk over blocks of keys.
pub mod Forward
pub mod Back
use phaselock.Prelude.{
  ℕ, zero, suc, ◌+◌, ◌-◌, List, [], ◌∷◌, Bool, true, false, Option, none, some, if◌then◌else◌,
  length, get_elem?, ltb, ◌==◌, ℤ, pos, negsuc,
}
use phaselock.Keys.{Key, exact_for}
use phaselock.KeyList.{KeyList, block_at, seek}
use phaselock.Cursor.{KeyCursor, differ}

-- A position, a block and an index into it: the block lies off either end when the walk is over.
abbrev pub Position : Type 0
Position = ℤ × ℕ

-- `back`; the block before the first is -1
unfoldable pub back : List (List Key) → Position → Position
back blocks (b, suc i) = (b, i)
back blocks (pos (suc n), zero) = (pos n, length (block_at blocks n) - 1)
back blocks (pos zero, zero) = (negsuc zero, 0)
back blocks (negsuc n, zero) = (negsuc (suc n), 0)

unfoldable pub list_key : List (List Key) → Position → Option Key
list_key blocks (pos n, i) = if ltb n (length blocks) then get_elem? (block_at blocks n) i else none
list_key blocks (negsuc n, i) = none

-- the position as `#seek` answers it
abbrev pub position : ℕ × ℕ → Position
position (b, i) = (pos b, i)

unfoldable pub list_seek : List (List Key) → Bool → Option Key → Bool → Position
unfolding back
list_seek blocks reverse none strict =
    if reverse then back blocks (pos (length blocks), 0) else (pos 0, 0)
list_seek blocks reverse (some target) strict =
    let at = position (seek blocks target (differ strict reverse) (exact_for (some target ∷ []))) in
    if reverse then back blocks at else at

-- A step is made at a key only; past the end the source throws.
unfoldable pub list_step : List (List Key) → Position → Position
list_step blocks (pos n, i) =
    if suc i == length (block_at blocks n) then (pos (suc n), 0) else (pos n, suc i)
list_step blocks (negsuc n, i) = (negsuc n, i)

abbrev pub list_cursor : KeyList → Bool → KeyCursor
list_cursor l reverse = record {
  State = Position;
  start = (pos 0, 0);
  key = list_key l.blocks;
  seek = λ target strict p. list_seek l.blocks reverse target strict;
  step = if reverse then back l.blocks else list_step l.blocks;
}
