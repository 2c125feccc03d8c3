-- ===== src/Engine/Views.antt =====
-- A view frame, `#onViewIn` of class `Engine` in typespec/ts/assets/skeleton.ts.
pub mod Shown
use mathlib.Core.Path.{subst}
use phaselock.Prelude.{
  ◌≡◌, ◌⊎◌, refl, ap, ◌∙◌, ◌≤◌, ℕ, suc, List, [], ◌∷◌, ◌++◌, Bool, true, false, Option, none, some,
  if◌then◌else◌, arith, any, not, ◌&&◌, if_elim, Bool-cases, Option-cases, some_inj, inl, inr, sym,
  length, ltb,
}
use phaselock.Keys.{Key}
use phaselock.Layer.{names}
use phaselock.Txn.Reps.{then_some, then_some-some}
use phaselock.Engine.{View, Checkpoint, Engine, frozen, move_cursor, advance_cursor, spawn}
use phaselock.Engine.Land.{is_starred, without_last, selector_covers}
use phaselock.Engine.Land.Plans.{Base, covered}
use phaselock.Engine.Land.Writes.{drop_backfill, drop_unseen, land}
use phaselock.Engine.Invariant.{IsEngine, IsEngine-same, IsEngine-advance, moved}
use phaselock.Engine.Land.Steady.{IsLike, IsLike-place, IsLike-drop_backfill}
use phaselock.Engine.Land.Lift.{IsLike-drop_unseen}
use phaselock.Engine.Land.Tried.{Tried, Tried-land, itself}

-- `selectorPrefix`
unfoldable pub selector_prefix : Key → Key
selector_prefix selector =
    if is_starred selector then without_last selector else selector ++ b'!' ∷ []

abbrev pub insert_broad : Key → List Key → List Key
insert_broad k [] = k ∷ []
insert_broad k (j ∷ ks) =
    if ltb (length (selector_prefix j)) (length (selector_prefix k))
    then j ∷ insert_broad k ks
    else k ∷ j ∷ ks

-- broadest first
abbrev pub broadest_first : List Key → List Key
broadest_first [] = []
broadest_first (k ∷ ks) = insert_broad k (broadest_first ks)

abbrev pub selectors_of : Option View → List Key
selectors_of none = []
selectors_of (some v) = v.selectors

abbrev pub is_held : List Key → List Key → Key → Bool
is_held old at_start selector =
    covered old selector && not (any (λ e. selector_covers e selector) at_start)

module _ {S : Type 0} where
  -- every backfill in flight that the new set does not wholly cover goes
  abbrev pub cancel_each : List Key → List Key → Engine S → Engine S
  cancel_each selectors [] s = s
  cancel_each selectors (k ∷ ks) s =
      cancel_each selectors ks (if covered selectors k then s else drop_backfill k s)

  abbrev pub grant : List Key → List Key → ℕ → Key → Engine S → Engine S
  grant old at_start position selector s =
      if any (λ e. selector_covers e selector) (names s.backfills)
      then s
      else if is_held old at_start selector
      then s
      else spawn selector (suc position) s

  abbrev pub grant_each : List Key → List Key → ℕ → List Key → Engine S → Engine S
  grant_each old at_start position [] s = s
  grant_each old at_start position (k ∷ ks) s =
      grant_each old at_start position ks (grant old at_start position k s)

  abbrev pub put_view : View → Engine S → Engine S
  put_view v s = record s { stored = record s.stored { view = some v }; view = some v }

  -- the backfills and the view after the frame
  unfoldable pub regrant : View → Engine S → Engine S
  regrant v s = put_view v (
      grant_each (selectors_of s.view) (names s.backfills) v.position (broadest_first v.selectors)
        (cancel_each v.selectors (names s.backfills) s))

  -- the cursor of a bootstrap
  unfoldable pub start_cursor : ℕ → Engine S → Option (Engine S)
  unfolding advance_cursor
  start_cursor p s = elim s.checkpoint [ none ↦ advance_cursor p false s | some c ↦ some s ]

module _ {S : Type 0} (base : Base S) where
  -- the drops wait, or what waited lands, or the drops happen now
  abbrev pub settle : Bool → View → Engine S → Option (Engine S)
  settle was v s =
      if frozen s
      then some s
      else if was
      then land base s
      else some (drop_unseen base (covered v.selectors) (names s.slices) s)

  -- `#onViewIn`
  unfoldable pub on_view : View → Engine S → Option (Engine S)
  unfolding regrant start_cursor land
  on_view v s = then_some (start_cursor v.position (regrant v s)) (settle (frozen s) v)
