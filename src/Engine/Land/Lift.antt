-- ===== src/Engine/Land/Lift.antt =====
-- A land of class `Engine` in typespec/ts/assets/skeleton.ts keeps what holds of the Engine, and lifts the
-- freeze where it carries its plans out.
use phaselock.Txn.Reps.{then_some-some}
use mathlib.Core.Path.{subst}
use phaselock.Prelude.{◌≡◌, refl, List, [], ◌∷◌, Bool, some, if◌then◌else◌, if_elim, some_inj}
use phaselock.Keys.{Key}
use phaselock.Layer.{Layer}
use phaselock.Engine.{Edit, Engine, forget}
use phaselock.Engine.Edits.{seq_after}
use phaselock.Engine.Land.{Blob}
use phaselock.Engine.Invariant.{IsEngine-same, IsEngine-forget}
use phaselock.Engine.Land.Plans.{Base, Plan, end_of}
use phaselock.Engine.Land.Writes.{
  keep, trips, hold_at, clear_each, load_each, land_slice, land_each, drop_slice, drop_unseen,
}
use phaselock.Engine.Land.Steady.{IsLike, IsLike-keep, IsLike-hold_at, IsLike-trips}

module _ {S : Type 0} (base : Base S) where
  pub IsLike-clear_each :
      (s t : Engine S) (plans : Layer Plan) → IsLike s t → IsLike s (clear_each base plans t)
  IsLike-clear_each s t [] h = h
  IsLike-clear_each s t ((slice, p) ∷ plans) h =
      IsLike-clear_each s (if p.blob then keep (base.delete_slice slice t.stored.base) t else t)
        plans
        (if_elim (IsLike s) p.blob (λ e. IsLike-keep s t (base.delete_slice slice t.stored.base) h)
          (λ e. h))

  pub IsLike-load_each :
      (s t u : Engine S) (blobs : List Blob) (plans : Layer Plan) (bs : List Blob)
      → IsLike s t
      → load_each base blobs plans bs t ≡ some u
      → IsLike s u
  IsLike-load_each s t u blobs plans [] h e = subst (IsLike s) (some_inj e) h
  IsLike-load_each s t u blobs plans (b ∷ bs) h e =
      let (r, _, f) = then_some-some _ (λ r. load_each base blobs plans bs (keep r t)) u e in
      IsLike-load_each s (keep r t) u blobs plans bs (IsLike-keep s t r h) f

  IsLike-land_slice :
      (s t u : Engine S) (slice : Key) (p : Plan) (es : List Edit)
      → IsLike s t
      → land_slice base slice p es t ≡ some u
      → IsLike s u
  IsLike-land_slice s t u slice p [] h e =
      subst (IsLike s) (some_inj e) (IsLike-hold_at s t slice p.seq h)
  IsLike-land_slice s t u slice p (x ∷ es) h e =
      let (r, _, f) =
        then_some-some (base.apply_parked t.stored.parked slice x.seq t.stored.base)
          (λ r. some (hold_at slice (seq_after (end_of x es)) (trips (x ∷ es) (keep r t)))) u e in
      subst (IsLike s) (some_inj f) (
        IsLike-hold_at s (trips (x ∷ es) (keep r t)) slice (seq_after (end_of x es))
          (IsLike-trips s (keep r t) (x ∷ es) (IsLike-keep s t r h)))

  pub IsLike-land_each :
      (s t u : Engine S) (plans : Layer Plan)
      → IsLike s t
      → land_each base plans t ≡ some u
      → IsLike s u
  IsLike-land_each s t u [] h e = subst (IsLike s) (some_inj e) h
  IsLike-land_each s t u ((slice, p) ∷ plans) h e =
      let (v, a, f) =
        then_some-some (land_slice base slice p p.run.edits t) (λ t. land_each base plans t) u e in
      IsLike-land_each s v u plans (IsLike-land_slice s t v slice p p.run.edits h a) f

  IsLike-drop_slice :
      (s t : Engine S) (slice : Key) → IsLike s t → IsLike s (drop_slice base slice t)
  IsLike-drop_slice s t slice h =
      let v = IsLike-keep s t (base.delete_slice slice t.stored.base) h in
      let w = IsEngine-forget slice (keep (base.delete_slice slice t.stored.base) t) v.engine in
      record {
        engine =
            IsEngine-same (forget slice (keep (base.delete_slice slice t.stored.base) t)) _ refl
              refl refl refl refl refl refl w.waiting w;
        applied = v.applied;
        checkpoint = v.checkpoint;
      }

  pub IsLike-drop_unseen :
      (s t : Engine S) (seen : Key → Bool) (ks : List Key)
      → IsLike s t
      → IsLike s (drop_unseen base seen ks t)
  IsLike-drop_unseen s t seen [] h = h
  IsLike-drop_unseen s t seen (k ∷ ks) h =
      IsLike-drop_unseen s (if seen k then t else drop_slice base k t) seen ks
        (if_elim (IsLike s) (seen k) (λ e. h) (λ e. IsLike-drop_slice s t k h))
