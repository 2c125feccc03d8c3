-- ===== src/Tests/Engine.antt =====
-- An Engine that sends a mutation, hears its answer, and applies a frame.
use phaselock.Prelude.{
  ◌||◌, arith, ◌≡◌, refl, List, [], ◌∷◌, ◌++◌, true, false, not, ◌&&◌, Option, none, some, ltb,
  if◌then◌else◌, ℕ,
}
use phaselock.Keys.{Key, key_eq}
use phaselock.Layer.{get, has}
use phaselock.Wire.Edits.{Lifecycle}
use phaselock.Engine.{Edit, Checkpoint, Engine, Outbox, accepted, on_cursor}
use phaselock.Engine.Edits.{chain_edits, no_chain, held_at}
use phaselock.Engine.Mutations.{Call, to_outbox, answered, on_submitted, on_outcomes, answer}
use phaselock.Engine.Invariant.{IsEngine}
use phaselock.Engine.Steps.{here, next, Step, cursor, submitted, outcomes, Reach-IsEngine}
use phaselock.Engine.Progress.{is_decided, on_cursor_lem}
use phaselock.Engine.Onward.{IsOnward}
use phaselock.Engine.Withheld.{Step-IsOnward}
use phaselock.Engine.Resend.{on_submitted_lem}
use phaselock.Engine.Land.Plans.{Base}
use phaselock.Keys.Sorted.{member}
use phaselock.Engine.Chains.{only, follow, IsRun, chain_edits_lem}

abbrev mutation_id : Key
mutation_id = b'm' ∷ []

abbrev pub slice_s : Key
slice_s = b's' ∷ []

abbrev pub log : Key
log = b'e' ∷ []

-- the base is the list of the edits applied
abbrev pub Applied : Type 0
Applied = List Edit

-- the app's mutations are numbers, and it cannot submit those from 128 on
abbrev convert : ℕ → Option (List ℕ)
convert n = if ltb n 128 then some (n ∷ []) else none

abbrev apply_edits : List Edit → Applied → Option (Applied × List Key)
apply_edits es b = some (b ++ es, [])

-- a birth and an edit of the slice "s"
abbrev pub birth : Edit
birth = record {
  at = 7;
  slice = slice_s;
  seq = 1;
  id = b'x' ∷ [];
  lifecycle = Lifecycle.birth;
  raw = [];
}

abbrev pub follower : Edit
follower = record birth { at = 8; seq = 2; lifecycle = Lifecycle.normal }

-- what it makes of the one parked row
abbrev pub late : Edit
late = record birth { at = 6; seq = 2; lifecycle = Lifecycle.normal }

abbrev pub store : Base Applied
store = record {
  apply_parked = λ parked slice seq b. some (b ++ late ∷ [], slice ∷ []);
  apply_snapshot = λ pages selector skip b. some (b ++ birth ∷ [], selector ∷ []);
  delete_slice = λ slice b. ([], slice ∷ []);
  envelope = λ raw. some late;
}

abbrev box : Outbox
box = record { rows = []; outbox = []; next_ordinal = 0; sent = []; acked = []; changed = false }

abbrev pub start : Engine Applied
start = record {
  stored = record {
    base = [];
    checkpoint = none;
    seqs = [];
    backfills = [];
    headers = [];
    pages = [];
    parked = [];
    view = none;
  };
  epoch = some log;
  checkpoint = none;
  applied = none;
  slices = [];
  backfills = [];
  ready = [];
  view = none;
  box = box;
  next_n = 1;
  online = [];
  aborted = false;
  starts = [];
  dirty = [];
  settled = [];
  watched = [];
  proven = [];
}

start-IsEngine : IsEngine start
start-IsEngine = record {
  checkpoint_stored = refl;
  seqs_stored = refl;
  backfills_stored = refl;
  placed = refl;
  waiting = record {
    mirrored = tt;
    below = tt;
    ascending = tt;
    distinct = tt;
    once = tt;
    waits = λ k q g. ground (arith, g);
  };
}

-- the mutation submitted, answered at 5, and the cursor moved to 6
abbrev sent : Engine Applied
sent = record start {
  box = record box {
    rows = (0, record { id = mutation_id; n = 1; bytes = 0 ∷ [] }) ∷ [];
    outbox = (mutation_id, 0) ∷ [];
    next_ordinal = 1;
    sent = mutation_id ∷ [];
  };
  next_n = 2;
}

abbrev acked : Engine Applied
acked = record sent { box = record sent.box { acked = (mutation_id, 5) ∷ [] } }

abbrev passed : Checkpoint
passed = record { epoch = log; position = 6; applied = some 6 }

abbrev done : Engine Applied
done = record acked {
  stored = record start.stored { checkpoint = some passed };
  checkpoint = some passed;
  applied = some 6;
  box = record box { next_ordinal = 1; changed = true };
}

submit_step : Step convert apply_edits store start sent
unfolding on_submitted
submit_step = submitted true false (to_outbox mutation_id 0 ∷ []) _ (refl, tt) refl

answer_step : Step convert apply_edits store sent acked
unfolding on_outcomes answer key_eq
answer_step = outcomes (answered (mutation_id ∷ []) (accepted 5 ∷ []) ∷ []) refl

cursor_step : Step convert apply_edits store acked done
unfolding on_cursor key_eq
cursor_step = cursor 6 refl

Reach-IsEngine_example : IsEngine done
Reach-IsEngine_example =
    Reach-IsEngine convert apply_edits store start-IsEngine
      (next (next (next here submit_step) answer_step) cursor_step)

acked-IsEngine : IsEngine acked
acked-IsEngine =
    Reach-IsEngine convert apply_edits store start-IsEngine
      (next (next here submit_step) answer_step)

on_cursor_lem_example :
    (s' : Engine Applied) × (on_cursor 6 acked ≡ some s')
    × ((k : Key)
        → has k s'.box.outbox
          ≡ (has k acked.box.outbox && not (is_decided 6 (get k acked.box.acked))))
on_cursor_lem_example = on_cursor_lem 6 log acked acked-IsEngine refl refl

Step-IsOnward_example : IsOnward acked done
Step-IsOnward_example = Step-IsOnward convert apply_edits store acked-IsEngine cursor_step

chain_edits_lem_example :
    (only slice_s (chain_edits [] (birth ∷ follower ∷ []) no_chain).apply
      ≡ (follow none (only slice_s (birth ∷ follower ∷ []))).0)
    × (only slice_s (chain_edits [] (birth ∷ follower ∷ []) no_chain).breaks
        ≡ (follow none (only slice_s (birth ∷ follower ∷ []))).2)
    × IsRun none
        (only slice_s (chain_edits [] (birth ∷ follower ∷ []) no_chain).apply)
        (held_at [] (chain_edits [] (birth ∷ follower ∷ []) no_chain).seqs slice_s)
chain_edits_lem_example = chain_edits_lem [] (birth ∷ follower ∷ []) slice_s

on_submitted_lem_example :
    (s' : Engine Applied) × (calls : List Call) × (on_submitted convert true true
        (to_outbox (b'n' ∷ []) 7 ∷ [])
        acked
      ≡ some (s', calls))
    × ((k : Key) → has k s'.box.outbox ≡ true → (member k s'.box.sent || has k s'.box.acked) ≡ true)
on_submitted_lem_example =
    on_submitted_lem convert (to_outbox (b'n' ∷ []) 7 ∷ []) acked acked-IsEngine ((_, refl), tt)

-- a submission that does not convert ends the Engine
refused_run : on_submitted convert true true (to_outbox (b'n' ∷ []) 128 ∷ []) acked ≡ none
unfolding on_submitted key_eq
refused_run = refl
