-- ===== src/Cursor/Walks.antt =====
-- What a cursor promises its walks: which keys are left after a seek and after a step.
use phaselock.Prelude.{
  ℕ, zero, suc, ◌≤◌, ◌≡◌, refl, List, [], ◌∷◌, Bool, true, not, Option, none, some, if◌then◌else◌,
  Ordering, length, arith,
}
use phaselock.Keys.{Key}
use phaselock.Keys.Order.{IsKey, order}
use phaselock.Cursor.{KeyCursor}

abbrev pub filter : (Key → Bool) → List Key → List Key
filter p [] = []
filter p (k ∷ ks) = if p k then k ∷ filter p ks else filter p ks

abbrev pub first : List Key → Option Key
first [] = none
first (k ∷ ks) = some k

abbrev pub tail : List Key → List Key
tail [] = []
tail (k ∷ ks) = ks

-- A seek forward leads to the keys at or after its target, strictly after it when strict, or to all
-- for a null target; a seek in reverse to those at or before it.
abbrev pub onward : Bool → Option Key → Bool → Key → Bool
onward reverse none strict k = true
onward reverse (some target) strict k = elim (order k target) [
  | Ordering.lt ↦ reverse
  | Ordering.eq ↦ not strict
  | Ordering.gt ↦ not reverse
]

abbrev pub IsTarget : Option Key → Type 0
IsTarget none = Unit
IsTarget (some k) = IsKey k

-- The cursor walks the keys `all`, which stand in walk order: `Rest s ks` says that the keys left
-- in state `s` are `ks`. A step is made at a key only.
pub record Walks (c : KeyCursor) (reverse : Bool) (all : List Key) : Type 1 where
  pub Rest : c.State → List Key → Type 0
  pub key_rest : (s : c.State) (ks : List Key) → Rest s ks → c.key s ≡ first ks
  pub step_rest : (s : c.State) (k : Key) (ks : List Key) → Rest s (k ∷ ks) → Rest (c.step s) ks
  pub seek_rest :
      (target : Option Key) (strict : Bool) (s : c.State)
      → IsTarget target
      → Rest (c.seek target strict s) (filter (onward reverse target strict) all)

-- the keys that a cursor shows, one step after another, until it is past the end; on fuel
unfoldable pub walked : (c : KeyCursor) → ℕ → c.State → List Key
walked c zero s = []
walked c (suc fuel) s =
    let rest = walked c fuel (c.step s) in elim (c.key s) [ none ↦ [] | some k ↦ k ∷ rest ]

pub length-filter-le : (p : Key → Bool) (ks : List Key) → length (filter p ks) ≤ length ks
length-filter-le p [] = omega arith
length-filter-le p (k ∷ ks) = ground (arith, length-filter-le p ks)

module _ {c : KeyCursor} {reverse : Bool} {all : List Key} (w : Walks c reverse all) where
  walked-rest :
      (fuel : ℕ) (s : c.State) (ks : List Key)
      → length ks ≤ fuel
      → w.Rest s ks
      → walked c fuel s ≡ ks
  unfolding walked
  walked-rest zero s [] h r = refl
  walked-rest zero s (k ∷ ks) h r = absurd (omega arith)
  walked-rest (suc fuel) s [] h r = rw (w.key_rest s [] r, walked) refl
  walked-rest (suc fuel) s (k ∷ ks) h r =
      let later = walked-rest fuel (c.step s) ks (omega arith) (w.step_rest s k ks r) in
      rw (w.key_rest s (k ∷ ks) r, walked, later) refl

  -- From a seek on, the cursor shows the keys that the seek leads to, one after another.
  pub walked-seek :
      (target : Option Key) (strict : Bool) (s : c.State) (fuel : ℕ)
      → IsTarget target
      → length all ≤ fuel
      → walked c fuel (c.seek target strict s) ≡ filter (onward reverse target strict) all
  walked-seek target strict s fuel t enough =
      let bound = length-filter-le (onward reverse target strict) all in
      walked-rest fuel (c.seek target strict s) (filter (onward reverse target strict) all)
        (omega arith) (w.seek_rest target strict s t)
