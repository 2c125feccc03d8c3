-- ===== src/Engine/Land/Steady.antt =====
-- What the parts of a land of class `Engine` in typespec/ts/assets/skeleton.ts keep: what holds of the
-- Engine, and its positions.
use phaselock.Prelude.{
  ◌≡◌, refl, ap, ◌∙◌, ℕ, List, [], ◌∷◌, Option, none, some, arith, Option-cases, inl, inr,
}
use phaselock.Keys.{Key}
use phaselock.Keys.Sorted.{key_eq_refl}
use phaselock.Layer.{Layer, names, get, delete}
use phaselock.Txn.Reps.{}
use phaselock.Engine.{Edit, BackfillRecord, Engine, round_trip, hold, forget, place}
use phaselock.Engine.Invariant.{
  IsEngine, IsEngine-same, IsEngine-place, IsEngine-hold, IsEngine-forget, IsEngine-resolve,
  IsEngine-round_trip,
}
use phaselock.Engine.Land.Writes.{
  keep, drop_pages, drop_backfill, drop_backfills, download, download_each, trips, hold_at,
}

module _ {S : Type 0} where
  -- what holds of the Engine holds, and its positions are those of another state
  pub record IsLike (s t : Engine S) : Type 0 where
    pub engine : IsEngine t
    pub applied : t.applied ≡ s.applied
    pub checkpoint : t.checkpoint ≡ s.checkpoint

  -- work on one state, by what it does to the parts that the invariant reads
  pub IsLike-keep : (s t : Engine S) (r : S × List Key) → IsLike s t → IsLike s (keep r t)
  IsLike-keep s t r h = record {
    engine =
        IsEngine-same t (keep r t) refl refl refl refl refl refl refl h.engine.waiting h.engine;
    applied = h.applied;
    checkpoint = h.checkpoint;
  }

  pub IsLike-hold_at :
      (s t : Engine S) (slice : Key) (seq : Option ℕ) → IsLike s t → IsLike s (hold_at slice seq t)
  IsLike-hold_at s t slice none h = record {
    engine = IsEngine-resolve slice (forget slice t) (IsEngine-forget slice t h.engine);
    applied = ground (arith, h.applied);
    checkpoint = ground (arith, h.checkpoint);
  }
  IsLike-hold_at s t slice (some seq) h = record {
    engine = IsEngine-resolve slice (hold slice seq t) (IsEngine-hold slice seq t h.engine);
    applied = ground (arith, h.applied);
    checkpoint = ground (arith, h.checkpoint);
  }

  IsLike-round_trip : (s t : Engine S) (id : Key) → IsLike s t → IsLike s (round_trip id t)
  unfolding round_trip
  IsLike-round_trip s t id h = record {
    engine = IsEngine-round_trip id t h.engine;
    applied = ground (arith, h.applied);
    checkpoint = ground (arith, h.checkpoint);
  }

  pub IsLike-trips : (s t : Engine S) (es : List Edit) → IsLike s t → IsLike s (trips es t)
  IsLike-trips s t [] h = h
  IsLike-trips s t (e ∷ es) h = IsLike-trips s (round_trip e.id t) es (IsLike-round_trip s t e.id h)

  IsLike-drop_pages :
      (s t : Engine S) (selector : Key) → IsLike s t → IsLike s (drop_pages selector t)
  IsLike-drop_pages s t selector h = record {
    engine =
        IsEngine-same t (drop_pages selector t) refl refl refl refl refl refl refl h.engine.waiting
          h.engine;
    applied = h.applied;
    checkpoint = h.checkpoint;
  }

  pub IsLike-place :
      (s t : Engine S) (selector : Key) (r : BackfillRecord)
      → IsLike s t
      → IsLike s (place selector r t)
  IsLike-place s t selector r h = record {
    engine = IsEngine-place selector r t h.engine;
    applied = h.applied;
    checkpoint = h.checkpoint;
  }

  pub IsLike-drop_backfill :
      (s t : Engine S) (selector : Key) → IsLike s t → IsLike s (drop_backfill selector t)
  IsLike-drop_backfill s t selector h = record {
    engine = record {
      checkpoint_stored = h.engine.checkpoint_stored;
      seqs_stored = h.engine.seqs_stored;
      backfills_stored = ap (delete selector) h.engine.backfills_stored;
      placed = h.engine.placed;
      waiting = h.engine.waiting;
    };
    applied = h.applied;
    checkpoint = h.checkpoint;
  }

  pub IsLike-drop_backfills :
      (s t : Engine S) (ks : List Key) → IsLike s t → IsLike s (drop_backfills ks t)
  IsLike-drop_backfills s t [] h = h
  IsLike-drop_backfills s t (k ∷ ks) h =
      IsLike-drop_backfills s (drop_backfill k t) ks (IsLike-drop_backfill s t k h)

  -- none of the backfills is left
  pub drop_backfills-none :
      (l : Layer BackfillRecord) (t : Engine S)
      → t.backfills ≡ l
      → (drop_backfills (names l) t).backfills ≡ []
  drop_backfills-none [] t e = e
  drop_backfills-none ((k, r) ∷ l) t e =
      drop_backfills-none l (drop_backfill k t) (rw e (rw (key_eq_refl k) refl))

  IsLike-download :
      (s t : Engine S) (cursor : Option ℕ) (slice : Key)
      → IsLike s t
      → IsLike s (download cursor slice t)
  IsLike-download s t cursor slice h = elim (Option-cases (get slice t.backfills)) [
    | inl e ↦ rw (download, e) (IsLike-place s t slice _ h)
    | inr (r, e) ↦
        rw (download, e)
          (IsLike-place s (drop_pages slice t) slice _ (IsLike-drop_pages s t slice h))
  ]

  pub IsLike-download_each :
      (s t : Engine S) (cursor : Option ℕ) (ks : List Key)
      → IsLike s t
      → IsLike s (download_each cursor ks t)
  IsLike-download_each s t cursor [] h = h
  IsLike-download_each s t cursor (k ∷ ks) h =
      IsLike-download_each s (download cursor k t) cursor ks (IsLike-download s t cursor k h)

  base-download :
      (t : Engine S) (cursor : Option ℕ) (slice : Key)
      → (download cursor slice t).stored.base ≡ t.stored.base
  base-download t cursor slice = ground arith

  pub base-download_each :
      (t : Engine S) (cursor : Option ℕ) (ks : List Key)
      → (download_each cursor ks t).stored.base ≡ t.stored.base
  base-download_each t cursor [] = refl
  base-download_each t cursor (k ∷ ks) =
      base-download_each (download cursor k t) cursor ks ∙ base-download t cursor k
