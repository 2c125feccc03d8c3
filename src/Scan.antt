-- ===== src/Scan.antt =====
-- The skip scan of typespec/ts/assets/skeleton.ts, `walkPattern`, over any cursor.
pub mod Ends
pub mod Sound
pub mod Walk
use phaselock.Prelude.{
  ℕ, zero, suc, List, [], ◌∷◌, Bool, true, false, not, ◌&&◌, ◌||◌, Option, none, some,
  if◌then◌else◌, is_zero, is_pos,
}
use phaselock.Keys.{Key, exact_for, prefix_end}
use phaselock.Cursor.{KeyCursor}
use phaselock.Pattern.{CompiledPattern}
use phaselock.Pattern.Place.{Placement, place_key, match, step, done, seek_to}

-- is a key past a seek's target, in walk order?
unfoldable pub is_past_target : Bool → Key → Bool → Key → Bool
is_past_target reverse target strict k =
    let cmp = exact_for (some target ∷ []) in
    let d = if reverse then cmp target k else cmp k target in is_pos d || (is_zero d && not strict)

-- `none` where `prefixEnd` gives null, which seeks with strict false
abbrev pub is_some_key : Option Key → Bool
is_some_key none = false
is_some_key (some k) = true

-- where a walk starts: just past `after`, or at the pattern's first key in walk order
unfoldable pub walk_start :
    (cursor : KeyCursor) → CompiledPattern → Bool → Option Key → cursor.State
walk_start cursor c reverse (some after) = cursor.seek (some after) true cursor.start
walk_start cursor c false none = cursor.seek (some c.head) false cursor.start
walk_start cursor c true none =
    let end = prefix_end c.head in cursor.seek end (is_some_key end) cursor.start

-- Steps toward a target, up to `budget` of them, then a seek if it is still ahead; `none` where the
-- cursor runs out of keys.
unfoldable pub approach :
    (cursor : KeyCursor) → Bool → Key → Bool → ℕ → cursor.State → Option cursor.State
approach cursor reverse target strict zero s = some (cursor.seek (some target) strict s)
approach cursor reverse target strict (suc budget) s =
    let s' = cursor.step s in
    let on = approach cursor reverse target strict budget s' in
    elim (cursor.key s') [
      | none ↦ none
      | some k ↦ if is_past_target reverse target strict k then some s' else on
    ]

-- What a walk does with the key in front of it: end, or go on from a state with what the visitor
-- keeps. The visitor `visit` changes its own state, of type `S`, and answers whether to go on.
pub data Turn (C S : Type 0) : Type 0 where
  end : S → Turn C S
  go_on : C → S → Turn C S

module _ (cursor : KeyCursor) (c : CompiledPattern) (reverse : Bool) (budget : ℕ) {S : Type 0}
    (visit : Key → S → S × Bool) where
  unfoldable pub turn_at : Key → Placement → cursor.State → S → Turn cursor.State S
  unfolding is_past_target approach
  turn_at key done s v = end v
  turn_at key match s v =
      let (v', more) = visit key v in if more then go_on (cursor.step s) v' else end v'
  turn_at key step s v = go_on (cursor.step s) v
  turn_at key (seek_to target strict) s v =
      if is_past_target reverse target strict key
      then go_on (cursor.step s) v
      else elim (approach cursor reverse target strict budget s) [
        | none ↦ end v
        | some s' ↦ go_on s' v
      ]

  unfoldable pub turn : Option Key → cursor.State → S → Turn cursor.State S
  unfolding turn_at
  turn none s v = end v
  turn (some key) s v = turn_at key (place_key c key reverse) s v

  -- the loop, on fuel: `none` where the fuel runs out
  unfoldable pub walk_loop : ℕ → cursor.State → S → Option S
  unfolding turn
  walk_loop zero s v = none
  walk_loop (suc fuel) s v = elim (turn (cursor.key s) s v) [
    | end v' ↦ some v'
    | go_on s' v' ↦ walk_loop fuel s' v'
  ]

  unfoldable pub walk_pattern : ℕ → Option Key → S → Option S
  unfolding walk_loop walk_start
  walk_pattern fuel after v = walk_loop fuel (walk_start cursor c reverse after) v
