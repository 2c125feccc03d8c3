-- ===== src/Engine/Invariant.antt =====
-- What holds of class `Engine` of typespec/ts/assets/skeleton.ts between two pieces of work: the
-- store has what it holds in memory, and its outbox waits for what the base lacks.
use mathlib.Core.Path.{subst}
use phaselock.Prelude.{
  ◌≡◌, refl, ap, ◌≤◌, ℕ, List, [], ◌∷◌, Bool, true, Option, none, some, if◌then◌else◌, arith,
  if_elim, some_inj,
}
use phaselock.Keys.{Key}
use phaselock.Keys.Sorted.{member}
use phaselock.Layer.{Layer, has, get, put, delete}
use phaselock.Engine.{
  Checkpoint, Edit, Outbox, Engine, Online, covers, release_in, release_through, move_cursor,
  advance_cursor, round_trip, resolve, hold, forget, spawn, place, see, BackfillRecord,
}
use phaselock.Engine.Outboxes.{IsOutbox, IsOutbox-advance, IsOutbox-release_in, IsOutbox-change}
use phaselock.Engine.Edits.{spawn_breaks, park, round_trips, hold_each}

-- the base is applied no further than the cursor
abbrev pub IsWithin : Option ℕ → ℕ → Type 0
IsWithin none p = Unit
IsWithin (some a) p = a ≤ p

abbrev pub IsPlaced : Option ℕ → Option Checkpoint → Type 0
IsPlaced applied none = applied ≡ none
IsPlaced applied (some c) = (c.applied ≡ applied) × IsWithin applied c.position

module _ {S : Type 0} where
  pub record IsEngine (s : Engine S) : Type 0 where
    pub checkpoint_stored : s.stored.checkpoint ≡ s.checkpoint
    pub seqs_stored : s.stored.seqs ≡ s.slices
    pub backfills_stored : s.stored.backfills ≡ s.backfills
    pub placed : IsPlaced s.applied s.checkpoint
    pub waiting : IsOutbox s.applied [] s.box

  -- its outbox waits for what the base lacks
  abbrev pub Waits : Engine S → Type 0
  Waits s = IsOutbox s.applied [] s.box

  pub Waits-through : (p : ℕ) (s : Engine S) → Waits s → Waits (release_through p s)
  unfolding release_through
  Waits-through p s h =
      if_elim Waits (covers s.applied p) (λ e. h) (λ e. IsOutbox-advance s.applied p s.box h)

  Waits-move : (epoch : Key) (p : ℕ) (s : Engine S) → Waits s → Waits (move_cursor epoch p s)
  unfolding move_cursor
  Waits-move epoch p s h = ground (arith, h)

  IsEngine-move :
      (epoch : Key) (p : ℕ) (through : Bool) (s : Engine S)
      → IsEngine s
      → IsEngine (move_cursor epoch p (if through then release_through p s else s))
  unfolding move_cursor release_through
  IsEngine-move epoch p through s h = record {
    checkpoint_stored = ground (arith, h.checkpoint_stored);
    seqs_stored = ground (arith, h.seqs_stored);
    backfills_stored = ground (arith, h.backfills_stored);
    placed = ground (arith, h.placed);
    waiting =
        Waits-move epoch p (if through then release_through p s else s)
          (if_elim Waits through (λ e. Waits-through p s h.waiting) (λ e. h.waiting));
  }

  -- a cursor that moves has an epoch
  pub moved :
      (p : ℕ) (s s' : Engine S) (epoch : Option Key)
      → elim epoch [ none ↦ none | some k ↦ some (move_cursor k p s) ] ≡ some s'
      → (k : Key) × (move_cursor k p s ≡ s')
  moved p s s' none e = ground (arith, e)
  moved p s s' (some k) e = (k, some_inj e)

  pub IsEngine-advance :
      (p : ℕ) (through : Bool) (s s' : Engine S)
      → IsEngine s
      → advance_cursor p through s ≡ some s'
      → IsEngine s'
  unfolding advance_cursor
  IsEngine-advance p through s s' h e =
      let (epoch, m) = moved p (if through then release_through p s else s) s' s.epoch e in
      subst IsEngine m (IsEngine-move epoch p through s h)

  pub IsEngine-hold :
      (slice : Key) (seq : ℕ) (s : Engine S) → IsEngine s → IsEngine (hold slice seq s)
  IsEngine-hold slice seq s h = record {
    checkpoint_stored = h.checkpoint_stored;
    seqs_stored = ap (put slice seq) h.seqs_stored;
    backfills_stored = h.backfills_stored;
    placed = h.placed;
    waiting = h.waiting;
  }

  pub IsEngine-forget : (slice : Key) (s : Engine S) → IsEngine s → IsEngine (forget slice s)
  IsEngine-forget slice s h = record {
    checkpoint_stored = h.checkpoint_stored;
    seqs_stored = ap (delete slice) h.seqs_stored;
    backfills_stored = h.backfills_stored;
    placed = h.placed;
    waiting = h.waiting;
  }

  pub IsEngine-place :
      (selector : Key) (r : BackfillRecord) (s : Engine S)
      → IsEngine s
      → IsEngine (place selector r s)
  IsEngine-place selector r s h = record {
    checkpoint_stored = h.checkpoint_stored;
    seqs_stored = h.seqs_stored;
    backfills_stored = ap (put selector r) h.backfills_stored;
    placed = h.placed;
    waiting = h.waiting;
  }

  pub IsEngine-spawn :
      (selector : Key) (until : ℕ) (s : Engine S) → IsEngine s → IsEngine (spawn selector until s)
  IsEngine-spawn selector until s h =
      IsEngine-place selector (record { until = until; resume = none }) s h

  -- what is not the store's, the checkpoint's or the outbox's may change
  pub IsEngine-same :
      (s s' : Engine S)
      → s'.stored.checkpoint ≡ s.stored.checkpoint
      → s'.stored.seqs ≡ s.stored.seqs
      → s'.stored.backfills ≡ s.stored.backfills
      → s'.checkpoint ≡ s.checkpoint
      → s'.slices ≡ s.slices
      → s'.backfills ≡ s.backfills
      → s'.applied ≡ s.applied
      → IsOutbox s.applied [] s'.box
      → IsEngine s
      → IsEngine s'
  IsEngine-same s s' a b c d e f g w h = record {
    checkpoint_stored = cc;
    seqs_stored = cc;
    backfills_stored = cc;
    placed = rw (g, d) h.placed;
    waiting = rw g w;
  }

  pub IsEngine-box :
      (b : Outbox) (s : Engine S)
      → IsOutbox s.applied [] b
      → IsEngine s
      → IsEngine (record s { box = b })
  IsEngine-box b s w h = IsEngine-same s _ refl refl refl refl refl refl refl w h

  IsEngine-release :
      (ids : List Key) (s : Engine S)
      → IsEngine s
      → IsEngine (record s { box = release_in ids s.box })
  IsEngine-release ids s h =
      IsEngine-box (release_in ids s.box) s
        (IsOutbox-release_in s.applied ids s.box (
          IsOutbox-change s.box h.waiting
            (λ k q g. ((h.waiting.waits k q g).0, λ n. (h.waiting.waits k q g).1 refl))))
        h

  IsEngine-see : (id : Key) (s : Engine S) → IsEngine s → IsEngine (see id s)
  IsEngine-see id s h = see_lem (get id s.online)
    where
      see_lem :
          (o : Option Online)
          → IsEngine (elim o [
            | none ↦ s
            | some o ↦ record s { online = put id (record o { seen = true }) s.online }
          ])
      see_lem none = h
      see_lem (some o) = IsEngine-same s _ refl refl refl refl refl refl refl h.waiting h

  pub IsEngine-resolve : (slice : Key) (s : Engine S) → IsEngine s → IsEngine (resolve slice s)
  IsEngine-resolve slice s h =
      if_elim IsEngine (member slice s.watched)
        (λ e. IsEngine-same s _ refl refl refl refl refl refl refl h.waiting h) (λ e. h)

  pub IsEngine-round_trip : (id : Key) (s : Engine S) → IsEngine s → IsEngine (round_trip id s)
  unfolding round_trip
  IsEngine-round_trip id s h =
      IsEngine-see id
        (if has id s.box.outbox then record s { box = release_in (id ∷ []) s.box } else s)
        (if_elim IsEngine (has id s.box.outbox) (λ e. IsEngine-release (id ∷ []) s h) (λ e. h))

  pub IsEngine-round_trips :
      (es : List Edit) (s : Engine S) → IsEngine s → IsEngine (round_trips es s)
  IsEngine-round_trips [] s h = h
  IsEngine-round_trips (e ∷ es) s h =
      IsEngine-round_trips es (resolve e.slice (round_trip e.id s))
        (IsEngine-resolve e.slice (round_trip e.id s) (IsEngine-round_trip e.id s h))

  pub IsEngine-hold_each :
      (seqs : Layer (Option ℕ)) (s : Engine S) → IsEngine s → IsEngine (hold_each seqs s)
  IsEngine-hold_each [] s h = h
  IsEngine-hold_each ((slice, none) ∷ seqs) s h =
      IsEngine-hold_each seqs (forget slice s) (IsEngine-forget slice s h)
  IsEngine-hold_each ((slice, some seq) ∷ seqs) s h =
      IsEngine-hold_each seqs (hold slice seq s) (IsEngine-hold slice seq s h)

  pub IsEngine-spawn_breaks :
      (es : List Edit) (s : Engine S) → IsEngine s → IsEngine (spawn_breaks es s)
  IsEngine-spawn_breaks [] s h = h
  IsEngine-spawn_breaks (e ∷ es) s h =
      IsEngine-spawn_breaks es (if has e.slice s.backfills then s else spawn e.slice e.at s)
        (if_elim IsEngine (has e.slice s.backfills) (λ t. h) (λ t. IsEngine-spawn e.slice e.at s h))

  pub IsEngine-park : (es : List Edit) (s : Engine S) → IsEngine s → IsEngine (park es s)
  IsEngine-park [] s h = h
  IsEngine-park (e ∷ es) s h =
      IsEngine-park es _ (IsEngine-same s _ refl refl refl refl refl refl refl h.waiting h)
