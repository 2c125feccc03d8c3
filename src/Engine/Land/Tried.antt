-- ===== src/Engine/Land/Tried.antt =====
-- What comes of trying to land, `#tryLandIn` of class `Engine` in typespec/ts/assets/skeleton.ts: it waits,
-- it downloads what broke, or it lands.
use phaselock.Txn.Reps.{then_some-some}
use mathlib.Core.Path.{subst}
use phaselock.Prelude.{
  ◌≡◌, ◌⊎◌, refl, ℕ, List, [], ◌∷◌, Bool, true, false, Option, some, arith, any, not, Bool-cases,
  Option-cases, some_inj, inl, inr, sym,
}
use phaselock.Keys.{Key, sort_keys}
use phaselock.Layer.{Layer, names, get, put}
use phaselock.Engine.{BackfillRecord, Engine, Edit, covers, frozen}
use phaselock.Engine.Land.{Blob}
use phaselock.Engine.Invariant.{IsEngine}
use phaselock.Engine.Keeps.{Keeps, kept}
use phaselock.Engine.Land.Plans.{
  Base, Plan, all_ready, position_of, in_view, blobs_of, envelopes, broken, plan_each, plan_slice,
  touched,
}
use phaselock.Engine.Land.Writes.{
  download, download_each, clear_each, load_each, land_each, drop_unseen, carry_out, land, try_land,
}
use phaselock.Engine.Land.Steady.{IsLike, IsLike-download_each, base-download_each}
use phaselock.Engine.Land.Lift.{
  IsLike-clear_each, IsLike-load_each, IsLike-land_each, IsLike-drop_unseen,
}
use phaselock.Engine.Land.Finish.{IsDone, IsDone-finish}

put_some :
    (k : Key) (r : BackfillRecord) (m : Layer BackfillRecord)
    → elim (put k r m) as (λ _. Bool) [ [] ↦ false | b ∷ bs ↦ true ] ≡ true
put_some k r [] = refl
put_some k r ((j, q) ∷ m) = ground arith

module _ {S : Type 0} where
  pub itself : (s : Engine S) → IsEngine s → IsLike s s
  itself s h = record { engine = h; applied = refl; checkpoint = refl }

  frozen-download :
      (t : Engine S) (cursor : Option ℕ) (slice : Key) → frozen (download cursor slice t) ≡ true
  frozen-download t cursor slice = elim (Option-cases (get slice t.backfills)) [
    | inl e ↦ rw (download, e) (put_some slice _ t.backfills)
    | inr (r, e) ↦ rw (download, e) (put_some slice _ t.backfills)
  ]

  frozen-download_each :
      (t : Engine S) (cursor : Option ℕ) (ks : List Key)
      → frozen t ≡ true
      → frozen (download_each cursor ks t) ≡ true
  frozen-download_each t cursor [] h = h
  frozen-download_each t cursor (k ∷ ks) h =
      frozen-download_each (download cursor k t) cursor ks (frozen-download t cursor k)

module _ {S : Type 0} (base : Base S) where
  -- the parked edits, by their keys
  abbrev pub parked_of : Engine S → Option (List Edit)
  parked_of s = envelopes base.envelope (sort_keys (names s.stored.parked)) s.stored.parked

  -- something waits: a download, the cursor, or a parked edit past it
  abbrev pub IsWaiting : Engine S → Type 0
  IsWaiting s =
      (all_ready s.ready (position_of s.checkpoint) s.backfills ≡ some false)
      ⊎ ((es : List Edit) × (parked_of s ≡ some es)
          × (any (λ e. not (covers (position_of s.checkpoint) e.at)) es ≡ true))

  abbrev pub Tried : Engine S → Engine S → Type 0
  Tried s t = (IsWaiting s × (t ≡ s)) ⊎ ((IsEngine t × Keeps s t × (frozen t ≡ true)) ⊎ IsDone s t)

  pub IsEngine-Tried : (s t : Engine S) → IsEngine s → Tried s t → IsEngine t
  IsEngine-Tried s t h (inl (w, e)) = subst IsEngine (sym e) h
  IsEngine-Tried s t h (inr (inl k)) = k.0
  IsEngine-Tried s t h (inr (inr d)) = d.engine

  IsDone-carry_out :
      (blobs : List Blob) (plans : Layer Plan) (s t : Engine S)
      → IsEngine s
      → carry_out base blobs plans (position_of s.checkpoint) s ≡ some t
      → IsDone s t
  unfolding carry_out
  IsDone-carry_out blobs plans s t h e =
      let (u, a, f) =
        then_some-some (load_each base blobs plans blobs (clear_each base plans s)) _ t e in
      let (v, b, g) = then_some-some (land_each base plans u) _ t f in
      let k =
        IsLike-load_each base s (clear_each base plans s) u blobs plans blobs
          (IsLike-clear_each base s s plans (itself s h)) a in
      subst (IsDone s) (some_inj g) (
        IsDone-finish s (drop_unseen base (in_view v.view) (names v.slices) v) (
          IsLike-drop_unseen base s v (in_view v.view) (names v.slices)
            (IsLike-land_each base s u v plans k b)))

  Tried-download :
      (k : Key) (ks : List Key) (s : Engine S)
      → IsEngine s
      → Tried s (download_each (position_of s.checkpoint) (k ∷ ks) s)
  Tried-download k ks s h =
      let cursor = position_of s.checkpoint in
      let l = IsLike-download_each s s cursor (k ∷ ks) (itself s h) in
      inr (
        inl (
          l.engine,
          kept s _ (base-download_each s cursor (k ∷ ks)) l.applied l.checkpoint,
          frozen-download_each (download cursor k s) cursor ks (frozen-download s cursor k),
        ))

  -- nothing waits
  Tried-plans :
      (blobs : List Blob) (plans : Layer Plan) (bs : List Key) (s t : Engine S)
      → IsEngine s
      → elim bs [
        | [] ↦ carry_out base blobs plans (position_of s.checkpoint) s
        | k ∷ ks ↦ some (download_each (position_of s.checkpoint) (k ∷ ks) s)
      ]
        ≡ some t
      → Tried s t
  Tried-plans blobs plans [] s t h e = inr (inr (IsDone-carry_out blobs plans s t h e))
  Tried-plans blobs plans (k ∷ ks) s t h e = subst (Tried s) (some_inj e) (Tried-download k ks s h)

  pub Tried-land : (s t : Engine S) → IsEngine s → land base s ≡ some t → Tried s t
  unfolding land
  Tried-land s t h e =
      let cursor = position_of s.checkpoint in
      let (blobs, _, f') = then_some-some (blobs_of s.backfills s.stored.headers) _ t e in
      let (parked, p, f) = then_some-some (parked_of s) _ t f' in
      let plans =
        plan_each (in_view s.view) (plan_slice s.applied s.slices blobs parked)
          (touched parked blobs s.slices) in
      elim (Bool-cases (any (λ e. not (covers cursor e.at)) parked)) [
        | inl w ↦ inl (inr (parked, p, w), sym (some_inj (rw w at f)))
        | inr w ↦ Tried-plans blobs plans (broken plans) s t h (rw w at f)
      ]

  -- An attempt to land that no error of the store ends, of an Engine where its invariant holds,
  -- does one of three things: it changes nothing where a backfill is not ready, its snapshot saw
  -- past the cursor, or a parked edit is past the cursor; it leaves the slices' keys and both
  -- positions as they were with a backfill in flight; or it leaves no backfill and no parked edit,
  -- with the base applied to the cursor, and the cursor where it stood. The invariant holds after.
  pub try_land-Tried : (s t : Engine S) → IsEngine s → try_land base s ≡ some t → Tried s t
  unfolding try_land
  try_land-Tried s t h e =
      let (go, a, f) =
        then_some-some (all_ready s.ready (position_of s.checkpoint) s.backfills) _ t e in
      elim (Bool-cases go) [
        | inl w ↦ Tried-land s t h (rw w at f)
        | inr w ↦ inl (inl (rw w at a), sym (some_inj (rw w at f)))
      ]
