-- ===== src/Engine.antt =====
-- The sync engine, class `Engine` of typespec/ts/assets/skeleton.ts: its state, the checkpoint, the
-- outbox and the slices that it holds. Its children have the handlers. The store is a record of
-- the Engine's own keys, a map per template, and of the slices' keys, of any type `S`. Positions
-- and seqs are natural numbers; the applied position -1, for never, is `none`, and so is an error
-- thrown, which ends the Engine.
pub mod Edits
pub mod Mutations
pub mod Outboxes
pub mod Invariant
pub mod Frames
pub mod Sends
pub mod Resend
pub mod Steps
pub mod Progress
pub mod Keeps
pub mod Onward
pub mod Withheld
pub mod Chains
pub mod Land
pub mod Views
use phaselock.Prelude.{
  ℕ, suc, List, [], ◌∷◌, ◌++◌, Bool, true, false, not, Option, none, some, if◌then◌else◌, leb, ◌==◌,
}
use phaselock.Keys.{Key, key_eq}
use phaselock.Keys.Sorted.{member, erase}
use phaselock.Layer.{Layer, has, get, put, delete}
use phaselock.Overlay.{add_once}
use phaselock.Wire.Edits.{Lifecycle}

-- `WireEdit`, without the server time, which the Engine does not read
pub record Edit : Type 0 where
  pub at : ℕ
  pub slice : Key
  pub seq : ℕ
  pub id : Key
  pub lifecycle : Lifecycle
  pub raw : List ℕ

pub record Checkpoint : Type 0 where
  pub epoch : Key
  pub position : ℕ
  pub applied : Option ℕ

pub record Mutation : Type 0 where
  pub id : Key
  pub n : ℕ
  pub bytes : List ℕ

pub data MutationResult : Type 0 where
  accepted : ℕ → MutationResult
  refused conflicting : MutationResult

-- how an @online mutation's promise ends
pub data Settled : Type 0 where
  resolved : MutationResult → Settled
  failed : Settled

pub record Online : Type 0 where
  pub ack : Option ℕ
  pub seen : Bool

-- The outbox: `rows` are its mutations in the store, by ordinal, and `outbox` each one's ordinal by id;
-- `changed` tells the refresh after a commit.
pub record Outbox : Type 0 where
  pub rows : List (ℕ × Mutation)
  pub outbox : Layer ℕ
  pub next_ordinal : ℕ
  pub sent : List Key
  pub acked : Layer ℕ
  pub changed : Bool

-- `BackfillRecord`; of `resume`, the position of the snapshot's cut and the last one visible there
pub record BackfillRecord : Type 0 where
  pub until : ℕ
  pub resume : Option (ℕ × ℕ)

-- `ViewRecord`
pub record View : Type 0 where
  pub token : Key
  pub position : ℕ
  pub selectors : List Key

-- what else the store holds; `headers` are the seqs of each snapshot, `pages` its parked pages
pub record Stored (S : Type 0) : Type 0 where
  pub base : S
  pub checkpoint : Option Checkpoint
  pub seqs : Layer ℕ
  pub backfills : Layer BackfillRecord
  pub headers : Layer (Layer ℕ)
  pub pages : Layer (List ℕ)
  pub parked : Layer (List ℕ)
  pub view : Option View

-- `ready` are the backfills downloaded, `view` the latest one delivered; `dirty` collects the keys changed,
-- `starts` the backfill calls asked for, `settled` the ends of promises; `aborted` says that the
-- Engine ended its connection; `watched` are the slices that a resync is to resolve, and `proven`
-- those resolved.
pub record Engine (S : Type 0) : Type 0 where
  pub stored : Stored S
  pub epoch : Option Key
  pub checkpoint : Option Checkpoint
  pub applied : Option ℕ
  pub slices : Layer ℕ
  pub backfills : Layer BackfillRecord
  pub ready : List Key
  pub view : Option View
  pub box : Outbox
  pub next_n : ℕ
  pub online : Layer Online
  pub aborted : Bool
  pub starts : List Key
  pub dirty : List Key
  pub settled : List (Key × Settled)
  pub watched : List Key
  pub proven : List Key

-- `position <= this.#applied`
abbrev pub covers : Option ℕ → ℕ → Bool
covers none p = false
covers (some a) p = leb p a

abbrev pub delete_row : ℕ → List (ℕ × Mutation) → List (ℕ × Mutation)
delete_row o [] = []
delete_row o ((k, m) ∷ rows) = if k == o then rows else (k, m) ∷ delete_row o rows

-- `Math.max(position, this.#checkpoint?.position ?? -1)`
abbrev pub cursor_at : ℕ → Option Checkpoint → ℕ
cursor_at p none = p
cursor_at p (some c) = if leb p c.position then c.position else p

abbrev pub same_applied : Option ℕ → Option ℕ → Bool
same_applied none none = true
same_applied (some a) (some b) = a == b
same_applied _ _ = false

abbrev pub is_unchanged : ℕ → Option ℕ → Option Checkpoint → Bool
is_unchanged cursor applied none = false
is_unchanged cursor applied (some c) =
    if c.position == cursor then same_applied c.applied applied else false

-- the acked mutations at or below the applied position
abbrev pub done : Option ℕ → Layer ℕ → List Key
done applied [] = []
done applied ((id, p) ∷ acked) =
    if covers applied p then id ∷ done applied acked else done applied acked

-- a mutation of the given ordinal leaves the outbox
abbrev pub release : Key → ℕ → Outbox → Outbox
release id ordinal b = record b {
  rows = delete_row ordinal b.rows;
  outbox = delete id b.outbox;
  sent = erase id b.sent;
  acked = delete id b.acked;
  changed = true;
}

abbrev pub release_one : Key → Outbox → Outbox
release_one id b = elim (get id b.outbox) [ none ↦ b | some ordinal ↦ release id ordinal b ]

-- `#releaseIn`
abbrev pub release_in : List Key → Outbox → Outbox
release_in [] b = b
release_in (id ∷ ids) b = release_in ids (release_one id b)

module _ {S : Type 0} where
  -- `#frozen`
  abbrev pub frozen : Engine S → Bool
  frozen s = elim s.backfills [ [] ↦ false | b ∷ bs ↦ true ]

  -- `#releaseThroughIn`
  unfoldable pub release_through : ℕ → Engine S → Engine S
  release_through p s =
      if covers s.applied p
      then s
      else record s { applied = some p; box = release_in (done (some p) s.box.acked) s.box }

  abbrev pub write_checkpoint : Checkpoint → Engine S → Engine S
  write_checkpoint c s = record s {
    stored = record s.stored { checkpoint = some c };
    checkpoint = some c;
  }

  unfoldable pub move_cursor : Key → ℕ → Engine S → Engine S
  move_cursor epoch p s =
      let cursor = cursor_at p s.checkpoint in
      if is_unchanged cursor s.applied s.checkpoint
      then s
      else write_checkpoint (record { epoch = epoch; position = cursor; applied = s.applied }) s

  -- `#advanceCursorIn`
  unfoldable pub advance_cursor : ℕ → Bool → Engine S → Option (Engine S)
  unfolding move_cursor release_through
  advance_cursor p applied s = elim s.epoch [
    | none ↦ none
    | some epoch ↦ some (move_cursor epoch p (if applied then release_through p s else s))
  ]

  -- `#onCursorIn`
  unfoldable pub on_cursor : ℕ → Engine S → Option (Engine S)
  unfolding advance_cursor
  on_cursor p s = advance_cursor p (not (frozen s)) s

  -- `#appliedTo`
  unfoldable pub applied_to : ℕ → Engine S → Engine S
  unfolding release_through
  applied_to p s =
      let s' = release_through p s in
      if covers s.applied p then s else elim s'.checkpoint [
        | none ↦ s'
        | some c ↦ write_checkpoint (record c { applied = some p }) s'
      ]

  abbrev pub see : Key → Engine S → Engine S
  see id s = elim (get id s.online) [
    | none ↦ s
    | some o ↦ record s { online = put id (record o { seen = true }) s.online }
  ]

  -- `#roundTrip`; `#releaseIn` passes over an id that the outbox does not hold
  unfoldable pub round_trip : Key → Engine S → Engine S
  round_trip id s =
      see id (if has id s.box.outbox then record s { box = release_in (id ∷ []) s.box } else s)

  -- `#resolve`
  abbrev pub resolve : Key → Engine S → Engine S
  resolve slice s =
      if member slice s.watched then record s { proven = add_once slice s.proven } else s

  -- a slice is held at a seq
  abbrev pub hold : Key → ℕ → Engine S → Engine S
  hold slice seq s = record s {
    stored = record s.stored { seqs = put slice seq s.stored.seqs };
    slices = put slice seq s.slices;
  }

  -- `#forgetIn`
  abbrev pub forget : Key → Engine S → Engine S
  forget slice s = record s {
    stored = record s.stored { seqs = delete slice s.stored.seqs };
    slices = delete slice s.slices;
  }

  -- a backfill that downloads from its start, with the call asked for by `#startBackfill`
  abbrev pub place : Key → BackfillRecord → Engine S → Engine S
  place selector r s = record s {
    stored = record s.stored { backfills = put selector r s.stored.backfills };
    backfills = put selector r s.backfills;
    ready = erase selector s.ready;
    starts = s.starts ++ selector ∷ [];
  }

  -- `#spawnIn`
  abbrev pub spawn : Key → ℕ → Engine S → Engine S
  spawn selector until s = place selector (record { until = until; resume = none }) s

  -- the `open` frame: positions of another epoch's log mean nothing
  unfoldable pub on_open : Key → Engine S → Option (Engine S)
  on_open epoch s = elim s.checkpoint [
    | none ↦ some (record s { epoch = some epoch })
    | some c ↦ if key_eq c.epoch epoch then some (record s { epoch = some epoch }) else none
  ]

  -- `#onEnd`, whose next attempt a timer makes
  abbrev pub on_end : Engine S → Engine S
  on_end s = record s { box = record s.box { sent = [] }; epoch = none; aborted = false }
