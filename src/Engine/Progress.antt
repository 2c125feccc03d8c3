-- ===== src/Engine/Progress.antt =====
-- How the cursor, the base and the outbox of class `Engine` in typespec/ts/assets/skeleton.ts move.
use phaselock.Prelude.{
  ◌≡◌, refl, ℕ, List, [], ◌∷◌, Bool, true, false, not, ◌&&◌, Option, none, some, if◌then◌else◌, leb,
  arith, Bool-cases, Option-cases, inl, inr,
}
use phaselock.Keys.{Key, key_eq}
use phaselock.Keys.Sorted.{member, key_eq-eq}
use phaselock.Keys.Sort.{IsDistinct}
use phaselock.Layer.{Layer, names, get, has}
use phaselock.Layer.Laws.{has-delete, get-none, has-get, IsDistinct-delete}
use phaselock.Engine.{
  Outbox, Engine, frozen, covers, done, release_one, release_in, release_through, move_cursor,
  advance_cursor, on_cursor,
}
use phaselock.Engine.Invariant.{IsEngine}

-- an ok named a position that has been passed
abbrev pub is_decided : ℕ → Option ℕ → Bool
is_decided p none = false
is_decided p (some q) = leb q p

member-done :
    (p : ℕ) (k : Key) (acked : Layer ℕ)
    → IsDistinct (names acked)
    → member k (done (some p) acked) ≡ is_decided p (get k acked)
member-done p k [] d = refl
member-done p k ((j, q) ∷ acked) d =
    ground (arith, member-done p k acked d.1, key_eq-eq j k, get-none k acked)

has-release_one :
    (k id : Key) (b : Outbox)
    → IsDistinct (names b.outbox)
    → has k (release_one id b).outbox ≡ (if key_eq id k then false else has k b.outbox)
has-release_one k id b d =
    ground (arith, has-delete id k b.outbox d, has-get id b.outbox, key_eq-eq id k)

IsDistinct-release_one :
    (id : Key) (b : Outbox)
    → IsDistinct (names b.outbox)
    → IsDistinct (names (release_one id b).outbox)
IsDistinct-release_one id b d = elim (Option-cases (get id b.outbox)) [
  | inl e ↦ rw (release_one, e) d
  | inr (o, e) ↦ rw (release_one, e) (IsDistinct-delete id b.outbox d)
]

has-release_in :
    (k : Key) (ids : List Key) (b : Outbox)
    → IsDistinct (names b.outbox)
    → has k (release_in ids b).outbox ≡ (has k b.outbox && not (member k ids))
has-release_in k [] b d = ground arith
has-release_in k (id ∷ ids) b d = ground (
  arith,
  has-release_in k ids (release_one id b) (IsDistinct-release_one id b d),
  has-release_one k id b d,
)

module _ {S : Type 0} where
  box-move : (epoch : Key) (p : ℕ) (s : Engine S) → (move_cursor epoch p s).box ≡ s.box
  unfolding move_cursor
  box-move epoch p s = ground arith

  -- nothing acked at or below the applied position is left to decide
  undecided :
      (p : ℕ) (s : Engine S) (k : Key)
      → IsEngine s
      → covers s.applied p ≡ true
      → is_decided p (get k s.box.acked) ≡ false
  undecided p s k h c = elim (Option-cases (get k s.box.acked)) [
    | inl e ↦ rw e refl
    | inr (q, e) ↦ rw e (ground (arith, c, (h.waiting.waits k q e).1 refl))
  ]

  has-release_through :
      (p : ℕ) (s : Engine S) (k : Key)
      → IsEngine s
      → has k (release_through p s).box.outbox
        ≡ (has k s.box.outbox && not (is_decided p (get k s.box.acked)))
  unfolding release_through
  has-release_through p s k h = elim (Bool-cases (covers s.applied p)) [
    | inl c ↦ ground (arith, c, undecided p s k h c)
    | inr c ↦
        rw
          (
            c,
            has-release_in k (done (some p) s.box.acked) s.box h.waiting.distinct,
            member-done p k s.box.acked h.waiting.once,
          )
          refl
  ]

  -- Of an Engine in a good state, on a connection and with no backfill in flight, reading a vouch
  -- or the live mark at a position succeeds, and of the outbox exactly the mutations acked at or
  -- below that position leave.
  pub on_cursor_lem :
      (p : ℕ) (epoch : Key) (s : Engine S)
      → IsEngine s
      → s.epoch ≡ some epoch
      → frozen s ≡ false
      → (s' : Engine S) × (on_cursor p s ≡ some s')
        × ((k : Key)
            → has k s'.box.outbox ≡ (has k s.box.outbox && not (is_decided p (get k s.box.acked))))
  unfolding on_cursor advance_cursor
  on_cursor_lem p epoch s h e f = (
    move_cursor epoch p (release_through p s),
    rw (e, f) refl,
    λ k. rw (box-move epoch p (release_through p s), has-release_through p s k h) refl,
  )
