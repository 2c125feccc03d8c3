-- ===== src/Engine/Land/Plans.antt =====
-- What a land of class `Engine` in typespec/ts/assets/skeleton.ts plans, `#landIn` up to its writes. What the
-- store makes of parked pages and edits is the parameter `Base`.
use phaselock.Prelude.{
  ℕ, suc, List, [], ◌∷◌, ◌++◌, Bool, true, false, ◌&&◌, Option, none, some, if◌then◌else◌, any, map,
}
use phaselock.Keys.{Key, key_eq, starts_with}
use phaselock.Keys.Sorted.{member}
use phaselock.Layer.{Layer, names, get}
use phaselock.Txn.Reps.{then_some}
use phaselock.Overlay.{add_each}
use phaselock.Engine.{Edit, View, BackfillRecord, Checkpoint, covers}
use phaselock.Engine.Chains.{only}
use phaselock.Engine.Land.{selector_covers, Blob, winner, basis_of, Run, run_edits, begin}

-- `applyParked` and `applySnapshot` over the parked edits and pages, `delPrefix` of a slice, and the
-- envelope of a parked edit, `none` where it does not decode
pub record Base (S : Type 0) : Type 0 where
  pub apply_parked : Layer (List ℕ) → Key → ℕ → S → Option (S × List Key)
  pub apply_snapshot : Layer (List ℕ) → Key → List Key → S → Option (S × List Key)
  pub delete_slice : Key → S → S × List Key
  pub envelope : List ℕ → Option Edit

-- `delPrefix` of parked rows
abbrev pub drop_under : Key → Layer (List ℕ) → Layer (List ℕ)
drop_under prefix [] = []
drop_under prefix ((k, v) ∷ m) =
    if starts_with prefix k then drop_under prefix m else (k, v) ∷ drop_under prefix m

abbrev pub range_of : Key → Key → Key
range_of start name = start ++ (name ++ b'!' ∷ [])

-- the parked edits in the order of their keys, `none` where one does not decode
abbrev pub envelopes : (List ℕ → Option Edit) → List Key → Layer (List ℕ) → Option (List Edit)
envelopes decode [] parked = some []
envelopes decode (k ∷ ks) parked =
    then_some (then_some (get k parked) decode)
      λ e. then_some (envelopes decode ks parked) λ es. some (e ∷ es)

abbrev pub header_of : Key → Layer (Layer ℕ) → Layer ℕ
header_of selector headers = elim (get selector headers) [ none ↦ [] | some h ↦ h ]

-- `none` where a backfill has no snapshot yet
abbrev pub blobs_of : Layer BackfillRecord → Layer (Layer ℕ) → Option (List Blob)
blobs_of [] headers = some []
blobs_of ((selector, r) ∷ bs) headers = then_some r.resume λ at.
    then_some (blobs_of bs headers) λ blobs.
      some (record { selector = selector; cut = at.0; header = header_of selector headers } ∷ blobs)

abbrev pub covered : List Key → Key → Bool
covered selectors name = any (λ r. selector_covers r name) selectors

abbrev pub in_view : Option View → Key → Bool
in_view none slice = false
in_view (some v) slice = covered v.selectors slice

-- does a snapshot win the slice?
abbrev pub is_won : List Blob → Key → Bool
is_won blobs slice = elim (winner slice blobs none) [ none ↦ false | some b ↦ true ]

abbrev pub won : List Blob → List Key → List Key
won blobs [] = []
won blobs (k ∷ ks) = if is_won blobs k then k ∷ won blobs ks else won blobs ks

abbrev pub header_slices : List Blob → List Key
header_slices [] = []
header_slices (b ∷ bs) = names b.header ++ header_slices bs

-- every slice that the land touches
abbrev pub touched : List Edit → List Blob → Layer ℕ → List Key
touched parked blobs slices =
    add_each (won blobs (names slices))
      (add_each (header_slices blobs) (add_each (map (λ e. e.slice) parked) []))

pub record Plan : Type 0 where
  pub blob : Bool
  pub seq : Option ℕ
  pub run : Run

unfoldable pub plan_slice : Option ℕ → Layer ℕ → List Blob → List Edit → Key → Plan
unfolding basis_of winner run_edits
plan_slice applied slices blobs parked slice =
    let b = basis_of applied slice (get slice slices) (winner slice blobs none) in
    record { blob = b.blob; seq = b.seq; run = run_edits b.cut (only slice parked) (begin b.seq) }

-- the plans of the slices in the view
abbrev pub plan_each : (Key → Bool) → (Key → Plan) → List Key → Layer Plan
plan_each seen plan [] = []
plan_each seen plan (k ∷ ks) =
    if seen k then (k, plan k) ∷ plan_each seen plan ks else plan_each seen plan ks

abbrev pub broken : Layer Plan → List Key
broken [] = []
broken ((slice, p) ∷ plans) = if p.run.gap then slice ∷ broken plans else broken plans

abbrev pub is_won_by : Blob → Option Blob → Bool
is_won_by b none = false
is_won_by b (some w) = key_eq w.selector b.selector

abbrev pub from_blob : Option Plan → Bool
from_blob none = false
from_blob (some p) = p.blob

-- the slices of a snapshot that it does not win, or that keep their own state
abbrev pub skipped : List Blob → Layer Plan → Blob → List Key → List Key
skipped blobs plans b [] = []
skipped blobs plans b (k ∷ ks) =
    if is_won_by b (winner k blobs none) && from_blob (get k plans)
    then skipped blobs plans b ks
    else k ∷ skipped blobs plans b ks

abbrev pub end_of : Edit → List Edit → Edit
end_of e [] = e
end_of e (f ∷ fs) = end_of f fs

abbrev pub next_at : Option ℕ → ℕ
next_at none = 0
next_at (some c) = suc c

-- where the cursor stands
abbrev pub position_of : Option Checkpoint → Option ℕ
position_of none = none
position_of (some c) = some c.position

-- is every backfill ready, and the cursor past what its snapshot saw?
abbrev pub all_ready : List Key → Option ℕ → Layer BackfillRecord → Option Bool
all_ready ready cursor [] = some true
all_ready ready cursor ((selector, r) ∷ bs) =
    let rest = all_ready ready cursor bs in
    if member selector ready
    then then_some r.resume (λ at. if covers cursor at.1 then rest else some false)
    else some false
