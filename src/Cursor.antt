-- ===== src/Cursor.antt =====
-- Cursors of typespec/ts/assets/skeleton.ts, which walk a store's keys one way: the interface
-- `KeyCursor`, and `arrayCursor`, `filterCursor` and `mergeCursors`.
pub mod Walks
pub mod Array
pub mod Filter
pub mod Merge
pub mod Blocks
use phaselock.Prelude.{
  ℕ, zero, suc, ◌+◌, List, [], ◌∷◌, Bool, true, false, not, Option, none, some, if◌then◌else◌,
  length, get_elem?, ℤ, pos, negsuc, is_neg, is_pos,
}
use phaselock.Keys.{Key, compare_keys, exact_for, key_eq}
use phaselock.Bisect.{bisect}
use phaselock.KeyList.{before_key, holds}

-- The state that a cursor's closures share is passed along.
pub record KeyCursor : Type 1 where
  pub State : Type 0
  pub start : State
  pub key : State → Option Key
  -- the target, `none` for null, and strict
  pub seek : Option Key → Bool → State → State
  pub step : State → State

-- an index that may lie before the first key
abbrev pub next : ℤ → ℤ
next (pos n) = pos (suc n)
next (negsuc zero) = pos zero
next (negsuc (suc n)) = negsuc n

abbrev pub previous : ℤ → ℤ
previous (pos zero) = negsuc zero
previous (pos (suc n)) = pos n
previous (negsuc n) = negsuc (suc n)

abbrev pub key_at : List Key → ℤ → Option Key
key_at keys (pos n) = get_elem? keys n
key_at keys (negsuc n) = none

-- `!==` of Booleans
abbrev pub differ : Bool → Bool → Bool
differ a b = if b then not a else a

unfoldable pub array_seek : List Key → Bool → Option Key → Bool → ℤ
array_seek keys reverse none strict = if reverse then previous (pos (length keys)) else pos 0
array_seek keys reverse (some target) strict =
    let before = before_key (exact_for (some target ∷ [])) target (differ strict reverse) in
    let j = bisect (length keys) (λ i. holds before (get_elem? keys i)) in
    if reverse then previous (pos j) else pos j

abbrev pub array_cursor : List Key → Bool → KeyCursor
array_cursor keys reverse = record {
  State = ℤ;
  start = pos 0;
  key = key_at keys;
  seek = λ target strict j. array_seek keys reverse target strict;
  step = if reverse then previous else next;
}

-- is the key one to pass over?
abbrev pub hidden : (Key → Bool) → Option Key → Bool
hidden hide none = false
hidden hide (some k) = hide k

module _ (inner : KeyCursor) (hide : Key → Bool) where
  -- the loop `skip`, on fuel: each round steps past one key
  unfoldable pub skip : ℕ → inner.State → inner.State
  skip zero s = s
  skip (suc fuel) s =
      let on = skip fuel (inner.step s) in if hidden hide (inner.key s) then on else s

  -- `fuel` is a bound on the keys of the cursor inside.
  abbrev pub filter_cursor : ℕ → KeyCursor
  filter_cursor fuel = record {
    State = inner.State;
    start = inner.start;
    key = inner.key;
    seek = λ target strict s. skip fuel (inner.seek target strict s);
    step = λ s. skip fuel (inner.step s);
  }

-- is the first key the next one of a walk?
unfoldable pub comes_first : Bool → Key → Key → Bool
comes_first reverse ka kb = let d = compare_keys ka kb in if reverse then is_pos d else is_neg d

unfoldable pub merged_key : Bool → Option Key → Option Key → Option Key
unfolding comes_first
merged_key reverse none kb = kb
merged_key reverse (some ka) none = some ka
merged_key reverse (some ka) (some kb) = if comes_first reverse ka kb then some ka else some kb

-- `===` of keys that may be undefined
abbrev pub same_key : Option Key → Option Key → Bool
same_key none none = true
same_key (some a) (some b) = key_eq a b
same_key _ _ = false

abbrev pub merge_cursors : KeyCursor → KeyCursor → Bool → KeyCursor
merge_cursors a b reverse = record {
  State = a.State × b.State;
  start = (a.start, b.start);
  key = λ s. merged_key reverse (a.key s.0) (b.key s.1);
  seek = λ target strict s. (a.seek target strict s.0, b.seek target strict s.1);
  step = λ s.
      if same_key (a.key s.0) (merged_key reverse (a.key s.0) (b.key s.1))
      then (a.step s.0, s.1)
      else (s.0, b.step s.1);
}
