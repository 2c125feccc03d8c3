-- ===== src/Engine/Steps.antt =====
-- The work of class `Engine` in typespec/ts/assets/skeleton.ts as a step relation, and what holds in every
-- state that its steps reach.
use mathlib.Core.Path.{subst}
use phaselock.Prelude.{◌≡◌, refl, ℕ, List, [], Bool, Option, some, arith}
use phaselock.Keys.{Key}
use phaselock.Layer.{has}
use phaselock.Engine.{Edit, View, Outbox, Engine, on_cursor, on_open, on_end}
use phaselock.Engine.Outboxes.{IsOutbox-flags}
use phaselock.Engine.Edits.{on_edits}
use phaselock.Engine.Mutations.{Submission, Call, Outcome, on_submitted, on_outcomes}
use phaselock.Engine.Invariant.{IsEngine, IsEngine-same, IsEngine-advance}
use phaselock.Engine.Frames.{IsEngine-on_edits}
use phaselock.Engine.Land.Plans.{Base}
use phaselock.Engine.Land.Writes.{try_land}
use phaselock.Engine.Land.Tried.{try_land-Tried, IsEngine-Tried}
use phaselock.Engine.Views.{on_view}
use phaselock.Engine.Views.Shown.{IsEngine-on_view}
use phaselock.Engine.Sends.{IsFresh, IsEngine-on_submitted, IsEngine-on_outcomes}

module _ {S : Type 0} where
  pub on_open-eq :
      (epoch : Key) (s s' : Engine S)
      → on_open epoch s ≡ some s'
      → record s { epoch = some epoch } ≡ s'
  unfolding on_open
  on_open-eq epoch s s' e = ground (arith, e)

module _ {S M : Type 0} (convert : M → Option (List ℕ))
    (apply_edits : List Edit → S → Option (S × List Key)) (base : Base S) where
  -- one piece of work
  pub data Step (s s' : Engine S) : Type 0 where
    edits : (es : List Edit) → on_edits apply_edits es s ≡ some s' → Step s s'
    cursor : (p : ℕ) → on_cursor p s ≡ some s' → Step s s'
    opened : (epoch : Key) → on_open epoch s ≡ some s' → Step s s'
    ended : on_end s ≡ s' → Step s s'
    submitted :
        (connected resend : Bool) (xs : List (Submission M)) (calls : List Call)
        → IsFresh xs (λ j. has j s.box.outbox)
        → on_submitted convert connected resend xs s ≡ some (s', calls)
        → Step s s'
    outcomes : (os : List Outcome) → on_outcomes os s ≡ s' → Step s s'
    landed : try_land base s ≡ some s' → Step s s'
    viewed : (v : View) → on_view base v s ≡ some s' → Step s s'

  pub data Reach (s : Engine S) : Engine S → Type 0 where
    here : Reach s s
    next : {t u : Engine S} → Reach s t → Step t u → Reach s u

  IsEngine-on_end : (s : Engine S) → IsEngine s → IsEngine (on_end s)
  IsEngine-on_end s h =
      let b : Outbox = record s.box { sent = [] } in
      let w = IsOutbox-flags s.box b refl refl refl refl h.waiting in
      IsEngine-same s _ refl refl refl refl refl refl refl w h

  IsEngine-on_open :
      (epoch : Key) (s s' : Engine S) → IsEngine s → on_open epoch s ≡ some s' → IsEngine s'
  IsEngine-on_open epoch s s' h e = subst IsEngine (on_open-eq epoch s s' e) (
      IsEngine-same s (record s { epoch = some epoch }) refl refl refl refl refl refl refl h.waiting
        h)

  Step-IsEngine : {s s' : Engine S} → Step s s' → IsEngine s → IsEngine s'
  unfolding on_cursor
  Step-IsEngine (edits es e) h = IsEngine-on_edits apply_edits es _ _ h e
  Step-IsEngine (cursor p e) h = IsEngine-advance p _ _ _ h e
  Step-IsEngine (opened epoch e) h = IsEngine-on_open epoch _ _ h e
  Step-IsEngine (ended e) h = subst IsEngine e (IsEngine-on_end _ h)
  Step-IsEngine (submitted c r xs calls f e) h =
      IsEngine-on_submitted convert c r xs _ _ calls f h e
  Step-IsEngine (outcomes os e) h = subst IsEngine e (IsEngine-on_outcomes os _ h)
  Step-IsEngine (landed e) h = IsEngine-Tried base _ _ h (try_land-Tried base _ _ h e)
  Step-IsEngine (viewed v e) h = IsEngine-on_view base v _ _ h e

  -- In every state that an Engine reaches by frames of edits, views, cursors, openings, ends of
  -- its connection, submissions of fresh ids, answers and lands, whatever its store makes of edits
  -- and pages, if it held at the start: the checkpoint, the seqs and the backfills stored are
  -- those in memory, the base is applied no further than the cursor, the stored rows mirror the
  -- outbox in send order, and every acked mutation is in the outbox and past the applied position.
  pub Reach-IsEngine : {s s' : Engine S} → IsEngine s → Reach s s' → IsEngine s'
  Reach-IsEngine h here = h
  Reach-IsEngine h (next r st) = Step-IsEngine st (Reach-IsEngine h r)
