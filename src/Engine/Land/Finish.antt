-- ===== src/Engine/Land/Finish.antt =====
-- How a land of class `Engine` in typespec/ts/assets/skeleton.ts ends: nothing is in flight or parked, and
-- the base reaches the cursor.
use phaselock.Prelude.{
  ◌≡◌, refl, ap, ◌∙◌, ℕ, List, [], ◌∷◌, false, Option, none, some, arith, any, sym,
}
use phaselock.Keys.{Key, starts_with}
use phaselock.Layer.{Layer, names}
use phaselock.Txn.Apply.{park_edit}
use phaselock.Engine.{Checkpoint, Engine, applied_to, release_through}
use phaselock.Engine.Invariant.{IsEngine, IsEngine-same, Waits-through}
use phaselock.Engine.Land.Plans.{drop_under, position_of}
use phaselock.Engine.Land.Writes.{drop_backfills, finish}
use phaselock.Engine.Land.Steady.{IsLike, IsLike-drop_backfills, drop_backfills-none}

any-drop_under :
    (prefix : Key) (m : Layer (List ℕ))
    → any (starts_with prefix) (names (drop_under prefix m)) ≡ false
any-drop_under prefix [] = refl
any-drop_under prefix ((k, v) ∷ m) = ground (arith, any-drop_under prefix m)

module _ {S : Type 0} where
  parked-drop_backfills :
      (ks : List Key) (t : Engine S) → (drop_backfills ks t).stored.parked ≡ t.stored.parked
  parked-drop_backfills [] t = refl
  parked-drop_backfills (k ∷ ks) t = parked-drop_backfills ks _

  -- nothing is in flight or parked, and the base reaches the cursor
  abbrev pub IsLanded : Engine S → Type 0
  IsLanded s =
      (s.backfills ≡ [])
      × (any (starts_with park_edit) (names s.stored.parked) ≡ false)
      × (s.applied ≡ position_of s.checkpoint)

  -- the base applied to the cursor
  IsEngine-applied_to :
      (c : Checkpoint) (s : Engine S)
      → s.checkpoint ≡ some c
      → IsEngine s
      → IsEngine (applied_to c.position s)
  unfolding applied_to release_through
  IsEngine-applied_to c s e h = record {
    checkpoint_stored = ground (arith, h.checkpoint_stored, e);
    seqs_stored = ground (arith, h.seqs_stored);
    backfills_stored = ground (arith, h.backfills_stored);
    placed = ground (arith, h.placed, e);
    waiting = ground (arith, h.waiting, Waits-through c.position s h.waiting);
  }

  applied-applied_to :
      (c : Checkpoint) (s : Engine S)
      → s.checkpoint ≡ some c
      → IsEngine s
      → (applied_to c.position s).applied ≡ some c.position
  unfolding applied_to release_through
  applied-applied_to c s e h = ground (arith, h.placed, e)

  position-applied_to :
      (p : ℕ) (s : Engine S)
      → (position_of (applied_to p s).checkpoint ≡ position_of s.checkpoint)
        × ((applied_to p s).backfills ≡ s.backfills)
        × ((applied_to p s).stored.parked ≡ s.stored.parked)
  unfolding applied_to release_through
  position-applied_to p s = ground arith

  -- the parked edits gone
  abbrev drop_edits : Engine S → Engine S
  drop_edits u = record u {
    stored = record u.stored { parked = drop_under park_edit u.stored.parked };
  }

  -- it has landed where its cursor stood
  pub record IsDone (s t : Engine S) : Type 0 where
    pub engine : IsEngine t
    pub landed : IsLanded t
    pub position : position_of t.checkpoint ≡ position_of s.checkpoint

  IsDone-cursor :
      (s v : Engine S) (cursor : Option Checkpoint)
      → s.checkpoint ≡ cursor
      → IsLike s v
      → v.backfills ≡ []
      → any (starts_with park_edit) (names v.stored.parked) ≡ false
      → IsDone s (elim (position_of cursor) [ none ↦ v | some p ↦ applied_to p v ])
  IsDone-cursor s v none e h b q = record {
    engine = h.engine;
    landed = (b, q, ground (arith, h.engine.placed, h.checkpoint, e));
    position = ap position_of h.checkpoint;
  }
  IsDone-cursor s v (some c) e h b q =
      let a = position-applied_to c.position v in
      let k = h.checkpoint ∙ e in
      record {
        engine = IsEngine-applied_to c v k h.engine;
        landed = (
          a.1 ∙ b,
          rw a.2 q,
          applied-applied_to c v k h.engine ∙ ap position_of (sym k) ∙ sym a.0,
        );
        position = a.0 ∙ ap position_of h.checkpoint;
      }

  pub IsDone-finish : (s u : Engine S) → IsLike s u → IsDone s (finish (position_of s.checkpoint) u)
  unfolding finish
  IsDone-finish s u h =
      let t = drop_edits u in
      let l : IsLike s t = record {
        engine = IsEngine-same u t refl refl refl refl refl refl refl h.engine.waiting h.engine;
        applied = h.applied;
        checkpoint = h.checkpoint;
      } in
      IsDone-cursor s (drop_backfills (names t.backfills) t) s.checkpoint refl
        (IsLike-drop_backfills s t (names t.backfills) l) (drop_backfills-none t.backfills t refl)
        (ap (λ m. any (starts_with park_edit) (names m))
            (parked-drop_backfills (names t.backfills) t)
          ∙ any-drop_under park_edit u.stored.parked)
