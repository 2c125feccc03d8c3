-- ===== src/Engine/Land/Writes.antt =====
-- What a land of class `Engine` in typespec/ts/assets/skeleton.ts writes: `#tryLandIn` and `#landIn`, with
-- what they call to restart and to drop backfills and slices.
use phaselock.Prelude.{ℕ, List, [], ◌∷◌, ◌++◌, Bool, not, Option, none, some, if◌then◌else◌, any}
use phaselock.Keys.{Key, sort_keys}
use phaselock.Keys.Sorted.{erase}
use phaselock.Layer.{Layer, names, get, delete}
use phaselock.Txn.Reps.{then_some}
use phaselock.Txn.Apply.{park_snap, park_edit}
use phaselock.Engine.{
  Edit, BackfillRecord, Engine, covers, applied_to, round_trip, resolve, hold, forget, place, spawn,
}
use phaselock.Engine.Edits.{seq_after}
use phaselock.Engine.Land.{Blob}
use phaselock.Engine.Land.Plans.{
  Base, drop_under, range_of, envelopes, blobs_of, in_view, touched, Plan, plan_slice, plan_each,
  broken, skipped, end_of, next_at, position_of, all_ready,
}

module _ {S : Type 0} where
  -- what an operation of the store answers
  abbrev pub keep : S × List Key → Engine S → Engine S
  keep r s = record s { stored = record s.stored { base = r.0 }; dirty = s.dirty ++ r.1 }

  -- the parked pages and the header of a backfill go
  abbrev pub drop_pages : Key → Engine S → Engine S
  drop_pages selector s = record s {
    stored = record s.stored {
      pages = drop_under (range_of park_snap selector) s.stored.pages;
      headers = delete selector s.stored.headers;
    };
  }

  -- `#restartIn`
  abbrev pub restart : Key → BackfillRecord → Engine S → Engine S
  restart selector r s = place selector (record r { resume = none }) (drop_pages selector s)

  -- `#dropBackfillIn`
  abbrev pub drop_backfill : Key → Engine S → Engine S
  drop_backfill selector s =
      let t = drop_pages selector s in
      record t {
        stored = record t.stored { backfills = delete selector t.stored.backfills };
        backfills = delete selector t.backfills;
        ready = erase selector t.ready;
      }

  abbrev pub drop_backfills : List Key → Engine S → Engine S
  drop_backfills [] s = s
  drop_backfills (k ∷ ks) s = drop_backfills ks (drop_backfill k s)

  -- a broken slice downloads afresh
  abbrev pub download : Option ℕ → Key → Engine S → Engine S
  download cursor slice s = elim (get slice s.backfills) [
    | none ↦ spawn slice (next_at cursor) s
    | some r ↦ restart slice r s
  ]

  abbrev pub download_each : Option ℕ → List Key → Engine S → Engine S
  download_each cursor [] s = s
  download_each cursor (k ∷ ks) s = download_each cursor ks (download cursor k s)

  abbrev pub trips : List Edit → Engine S → Engine S
  trips [] s = s
  trips (e ∷ es) s = trips es (round_trip e.id s)

  abbrev pub hold_at : Key → Option ℕ → Engine S → Engine S
  hold_at slice none s = resolve slice (forget slice s)
  hold_at slice (some seq) s = resolve slice (hold slice seq s)

  -- nothing parked or in flight is left, and the base reaches the cursor
  unfoldable pub finish : Option ℕ → Engine S → Engine S
  unfolding applied_to
  finish cursor s =
      let t = record s {
        stored = record s.stored { parked = drop_under park_edit s.stored.parked };
      } in
      let u = drop_backfills (names t.backfills) t in
      elim cursor [ none ↦ u | some c ↦ applied_to c u ]

module _ {S : Type 0} (base : Base S) where
  -- every slice that a snapshot wins starts empty
  abbrev pub clear_each : Layer Plan → Engine S → Engine S
  clear_each [] s = s
  clear_each ((slice, p) ∷ plans) s =
      clear_each plans (if p.blob then keep (base.delete_slice slice s.stored.base) s else s)

  abbrev pub load_each : List Blob → Layer Plan → List Blob → Engine S → Option (Engine S)
  load_each blobs plans [] s = some s
  load_each blobs plans (b ∷ bs) s =
      then_some
        (base.apply_snapshot s.stored.pages b.selector (skipped blobs plans b (names b.header))
          s.stored.base)
        (λ r. load_each blobs plans bs (keep r s))

  -- a slice's run, and the seq that it is held at
  abbrev pub land_slice : Key → Plan → List Edit → Engine S → Option (Engine S)
  land_slice slice p [] s = some (hold_at slice p.seq s)
  land_slice slice p (e ∷ es) s =
      then_some (base.apply_parked s.stored.parked slice e.seq s.stored.base)
        λ r. some (hold_at slice (seq_after (end_of e es)) (trips (e ∷ es) (keep r s)))

  abbrev pub land_each : Layer Plan → Engine S → Option (Engine S)
  land_each [] s = some s
  land_each ((slice, p) ∷ plans) s =
      then_some (land_slice slice p p.run.edits s) (λ t. land_each plans t)

  -- `#dropSliceIn`
  abbrev pub drop_slice : Key → Engine S → Engine S
  drop_slice slice s =
      let t = forget slice (keep (base.delete_slice slice s.stored.base) s) in
      record t {
        stored = record t.stored { parked = drop_under (range_of park_edit slice) t.stored.parked };
      }

  abbrev pub drop_unseen : (Key → Bool) → List Key → Engine S → Engine S
  drop_unseen seen [] s = s
  drop_unseen seen (k ∷ ks) s = drop_unseen seen ks (if seen k then s else drop_slice k s)

  -- the plans carried out
  unfoldable pub carry_out : List Blob → Layer Plan → Option ℕ → Engine S → Option (Engine S)
  unfolding finish
  carry_out blobs plans cursor s = then_some (load_each blobs plans blobs (clear_each plans s)) λ t.
      then_some (land_each plans t)
        λ u. some (finish cursor (drop_unseen (in_view u.view) (names u.slices) u))

  -- `#landIn`
  unfoldable pub land : Engine S → Option (Engine S)
  unfolding carry_out plan_slice
  land s =
      let cursor = position_of s.checkpoint in
      let rows = sort_keys (names s.stored.parked) in
      then_some (blobs_of s.backfills s.stored.headers) λ blobs.
        then_some (envelopes base.envelope rows s.stored.parked) λ parked.
          let plans =
            plan_each (in_view s.view) (plan_slice s.applied s.slices blobs parked)
              (touched parked blobs s.slices) in
          if any (λ e. not (covers cursor e.at)) parked then some s else elim (broken plans) [
            | [] ↦ carry_out blobs plans cursor s
            | k ∷ ks ↦ some (download_each cursor (k ∷ ks) s)
          ]

  -- `#tryLandIn`
  unfoldable pub try_land : Engine S → Option (Engine S)
  unfolding land
  try_land s =
      then_some (all_ready s.ready (position_of s.checkpoint) s.backfills)
        λ go. if go then land s else some s
