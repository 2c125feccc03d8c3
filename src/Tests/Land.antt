-- ===== src/Tests/Land.antt =====
-- An Engine that lands a download, and one whose view frame cancels a download.
use phaselock.Prelude.{
  ◌≤◌, All, ◌⊎◌, arith, ◌≡◌, refl, ℕ, List, [], ◌∷◌, ◌++◌, true, false, Option, none, some,
}
use phaselock.Keys.{Key, key_eq, starts_with, sort_keys, sort, has_high_unit, unit_compare}
use phaselock.Layer.{Layer}
use phaselock.Txn.Apply.{park_edit}
use phaselock.Engine.{round_trip, Edit, View, BackfillRecord, Checkpoint, Engine, on_cursor}
use phaselock.Engine.Invariant.{IsEngine}
use phaselock.Engine.Land.{Run, run_edits, begin, is_past, Blob, selector_covers, winner}
use phaselock.Engine.Views.{on_view, selector_prefix}
use phaselock.Engine.Land.Plans.{Base}
use phaselock.Engine.Land.Writes.{try_land}
use phaselock.Engine.Land.Tried.{Tried, try_land-Tried}
use phaselock.Engine.Land.Runs.{IsLinked, IsChain, run_edits_lem}
use phaselock.Engine.Land.Winner.{winner_lem}
use phaselock.Tests.Engine.{slice_s, log, Applied, start, birth, follower, late, store}

abbrev landed : Run
unfolding run_edits
landed = run_edits (some 6) (birth ∷ follower ∷ []) (begin none)

run_edits_lem_example :
    (landed.gap ≡ false
      → IsLinked none landed.edits landed.last ⊎ IsLinked none landed.edits landed.last)
    × All (λ e. is_past (some 6) e.at ≡ true) landed.edits
    × (IsChain (some 6) none (birth ∷ follower ∷ [])
        → (landed.edits ≡ birth ∷ follower ∷ []) × (landed.gap ≡ false))
unfolding landed
run_edits_lem_example = run_edits_lem (some 6) none (birth ∷ follower ∷ [])

abbrev every : Blob
every = record { selector = b'*' ∷ []; cut = 4; header = [] }

abbrev exact : Blob
exact = record { selector = slice_s; cut = 6; header = (slice_s, 1) ∷ [] }

winner_lem_example :
    All
      (λ b.
        selector_covers b.selector slice_s ≡ true
        → (v : Blob) × (winner slice_s (every ∷ exact ∷ []) none ≡ some v) × (b.cut ≤ v.cut))
      (every ∷ exact ∷ [])
    × ((b : Blob)
        → winner slice_s (every ∷ exact ∷ []) none ≡ some b
        → selector_covers b.selector slice_s ≡ true)
winner_lem_example = winner_lem slice_s (every ∷ exact ∷ [])

winner_run : winner slice_s (every ∷ exact ∷ []) none ≡ some exact
unfolding winner selector_covers key_eq starts_with
winner_run = refl

-- the download of the slice "s" is complete, with one edit parked past its cut
abbrev at_six : Option ℕ → Checkpoint
at_six applied = record { epoch = log; position = 6; applied = applied }

abbrev download : Layer BackfillRecord
download = (slice_s, record { until = 5; resume = some (5, 6) }) ∷ []

abbrev granted : View
granted = record { token = log; position = 4; selectors = slice_s ∷ [] }

abbrev landing : Engine Applied
landing = record start {
  stored = record start.stored {
    checkpoint = some (at_six (some 4));
    backfills = download;
    headers = (slice_s, (slice_s, 1) ∷ []) ∷ [];
    parked = (park_edit ++ slice_s, []) ∷ [];
  };
  checkpoint = some (at_six (some 4));
  applied = some 4;
  backfills = download;
  ready = slice_s ∷ [];
  view = some granted;
}

landing-IsEngine : IsEngine landing
landing-IsEngine = record {
  checkpoint_stored = refl;
  seqs_stored = refl;
  backfills_stored = refl;
  placed = (refl, omega arith);
  waiting = record {
    mirrored = tt;
    below = tt;
    ascending = tt;
    distinct = tt;
    once = tt;
    waits = λ k q g. ground (arith, g);
  };
}

abbrev resting : Engine Applied
resting = record start {
  stored = record start.stored {
    base = birth ∷ late ∷ [];
    checkpoint = some (at_six (some 6));
    seqs = (slice_s, 2) ∷ [];
  };
  checkpoint = some (at_six (some 6));
  applied = some 6;
  slices = (slice_s, 2) ∷ [];
  view = some granted;
  dirty = slice_s ∷ slice_s ∷ slice_s ∷ [];
}

try_land-Tried_example : Tried store landing resting
unfolding try_land key_eq starts_with sort_keys selector_covers winner sort has_high_unit round_trip
try_land-Tried_example = try_land-Tried store landing resting landing-IsEngine refl

-- The only backfill, of "x", is canceled while the edit of its tail is parked past the cursor: the
-- Engine thaws with the edit of "s" at 6 parked too, and a vouch moves its applied position past it.
abbrev slice_x : Key
slice_x = b'x' ∷ []

abbrev tail : Edit
tail = record birth { at = 9; slice = slice_x }

abbrev tail_store : Base Applied
tail_store = record store { envelope = λ raw. elim raw [ [] ↦ some late | c ∷ cs ↦ some tail ] }

abbrev rows : Layer (List ℕ)
rows = (park_edit ++ slice_s, []) ∷ (park_edit ++ slice_x, 9 ∷ []) ∷ []

abbrev both : View
both = record { token = log; position = 9; selectors = slice_s ∷ slice_x ∷ [] }

abbrev narrowed : View
narrowed = record { token = log; position = 10; selectors = slice_s ∷ [] }

abbrev tailing : Engine Applied
tailing = record start {
  stored = record start.stored {
    checkpoint = some (at_six (some 4));
    seqs = (slice_s, 1) ∷ [];
    backfills = (slice_x, record { until = 10; resume = some (8, 8) }) ∷ [];
    parked = rows;
    view = some both;
  };
  checkpoint = some (at_six (some 4));
  applied = some 4;
  slices = (slice_s, 1) ∷ [];
  backfills = (slice_x, record { until = 10; resume = some (8, 8) }) ∷ [];
  view = some both;
}

abbrev thawed : Engine Applied
thawed = record tailing {
  stored = record tailing.stored { backfills = []; view = some narrowed };
  backfills = [];
  view = some narrowed;
}

abbrev vouched : Engine Applied
vouched = record thawed {
  stored = record thawed.stored {
    checkpoint = some (record { epoch = log; position = 10; applied = some 10 });
  };
  checkpoint = some (record { epoch = log; position = 10; applied = some 10 });
  applied = some 10;
}

thawed_run : on_view tail_store narrowed tailing ≡ some thawed
unfolding on_view key_eq starts_with sort_keys selector_covers winner sort has_high_unit
    selector_prefix unit_compare
thawed_run = refl

vouched_run : on_cursor 10 thawed ≡ some vouched
unfolding on_cursor
vouched_run = refl
