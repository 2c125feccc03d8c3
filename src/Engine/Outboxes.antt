-- ===== src/Engine/Outboxes.antt =====
-- What holds of an outbox of class `Engine` in typespec/ts/assets/skeleton.ts, and its operations keep it.
use phaselock.Prelude.{
  ◌≡◌, refl, ◌<◌, ℕ, suc, List, [], ◌∷◌, ◌++◌, true, false, Option, some, arith, All, All-map,
  if_elim, Bool-cases, Option-cases, inl, inr,
}
use phaselock.Keys.{Key, key_eq}
use phaselock.Keys.Sorted.{member, key_eq-eq}
use phaselock.Keys.Sort.{IsDistinct}
use phaselock.Layer.{Layer, names, get, has, put, delete}
use phaselock.Layer.Laws.{
  get-delete, has-delete, has-put, get-put, has-get, IsDistinct-delete, IsDistinct-put, member-snoc,
}
use phaselock.Engine.{
  Mutation, MutationResult, accepted, refused, conflicting, Outbox, covers, delete_row, done,
  release, release_one, release_in,
}
use phaselock.Engine.Mutations.{enqueue, lowest, answer_outbox}

-- the rows are the outbox's mutations, in its order
abbrev pub Mirrors : Layer ℕ → List (ℕ × Mutation) → Type 0
Mirrors [] [] = Unit
Mirrors ((id, o) ∷ l) ((k, m) ∷ rows) = (k ≡ o) × (m.id ≡ id) × Mirrors l rows
Mirrors _ _ = ⊥

-- in send order
abbrev pub IsAscending : Layer ℕ → Type 0
IsAscending [] = Unit
IsAscending ((id, o) ∷ l) = All (λ x. o < x.1) l × IsAscending l

All-delete : (P : Key × ℕ → Type 0) (k : Key) (l : Layer ℕ) → All P l → All P (delete k l)
All-delete P k [] h = tt
All-delete P k ((j, o) ∷ l) h =
    if_elim (All P) (key_eq j k) (λ e. h.1) (λ e. (h.0, All-delete P k l h.1))

All-get : (o p : ℕ) (k : Key) (l : Layer ℕ) → All (λ x. o < x.1) l → get k l ≡ some p → o < p
All-get o p k [] h e = ground arith
All-get o p k ((j, q) ∷ l) h e = ground (arith, All-get o p k l h.1)

IsAscending-delete : (k : Key) (l : Layer ℕ) → IsAscending l → IsAscending (delete k l)
IsAscending-delete k [] h = tt
IsAscending-delete k ((j, o) ∷ l) h =
    if_elim IsAscending (key_eq j k) (λ e. h.1)
      (λ e. (All-delete (λ x. o < x.1) k l h.0, IsAscending-delete k l h.1))

Mirrors-delete :
    (k : Key) (o : ℕ) (l : Layer ℕ) (rows : List (ℕ × Mutation))
    → IsAscending l
    → get k l ≡ some o
    → Mirrors l rows
    → Mirrors (delete k l) (delete_row o rows)
Mirrors-delete k o [] rows a e h = ground arith
Mirrors-delete k o ((j, p) ∷ l) [] a e h = absurd h
Mirrors-delete k o ((j, p) ∷ l) ((q, m) ∷ rows) a e h = elim (Bool-cases (key_eq j k)) [
  | inl t ↦ ground (arith, h, e, t)
  | inr t ↦
      let later : get k l ≡ some o = rw t at e in
      ground (arith, h, t, All-get p o k l a.0 later, Mirrors-delete k o l rows a.1 later h.2)
]

-- Acked mutations are in the outbox, and those not yet to leave lie past the applied position.
abbrev pub IsWaiting : Option ℕ → List Key → Outbox → Type 0
IsWaiting applied todo b =
    (k : Key) (q : ℕ)
    → get k b.acked ≡ some q
    → (has k b.outbox ≡ true) × (member k todo ≡ false → covers applied q ≡ false)

-- `todo` are acked mutations that are yet to leave
pub record IsOutbox (applied : Option ℕ) (todo : List Key) (b : Outbox) : Type 0 where
  pub mirrored : Mirrors b.outbox b.rows
  pub below : All (λ x. x.1 < b.next_ordinal) b.outbox
  pub ascending : IsAscending b.outbox
  pub distinct : IsDistinct (names b.outbox)
  pub once : IsDistinct (names b.acked)
  pub waits : IsWaiting applied todo b

pub IsOutbox-change :
    {applied applied' : Option ℕ} {todo todo' : List Key} (b : Outbox)
    → IsOutbox applied todo b
    → IsWaiting applied' todo' b
    → IsOutbox applied' todo' b
IsOutbox-change b h w = record {
  mirrored = h.mirrored;
  below = h.below;
  ascending = h.ascending;
  distinct = h.distinct;
  once = h.once;
  waits = w;
}

-- what was sent, and the mark of a change, may differ
pub IsOutbox-flags :
    {applied : Option ℕ} {todo : List Key} (b b' : Outbox)
    → b'.rows ≡ b.rows
    → b'.outbox ≡ b.outbox
    → b'.next_ordinal ≡ b.next_ordinal
    → b'.acked ≡ b.acked
    → IsOutbox applied todo b
    → IsOutbox applied todo b'
IsOutbox-flags b b' r o n a h = record {
  mirrored = rw (r, o) h.mirrored;
  below = rw (o, n) h.below;
  ascending = rw o h.ascending;
  distinct = rw o h.distinct;
  once = rw a h.once;
  waits = λ k q g. rw o (h.waits k q (rw a at g));
}

IsOutbox-release :
    (applied : Option ℕ) (id : Key) (o : ℕ) (todo : List Key) (b : Outbox)
    → get id b.outbox ≡ some o
    → IsOutbox applied (id ∷ todo) b
    → IsOutbox applied todo (release id o b)
IsOutbox-release applied id o todo b e h = record {
  mirrored = Mirrors-delete id o b.outbox b.rows h.ascending e h.mirrored;
  below = All-delete (λ x. x.1 < b.next_ordinal) id b.outbox h.below;
  ascending = IsAscending-delete id b.outbox h.ascending;
  distinct = IsDistinct-delete id b.outbox h.distinct;
  once = IsDistinct-delete id b.acked h.once;
  waits = λ k q g. ground (
    arith,
    g,
    h.waits k q,
    get-delete id k b.acked h.once,
    has-delete id k b.outbox h.distinct,
    key_eq-eq id k,
  );
}

IsOutbox-release_one :
    (applied : Option ℕ) (id : Key) (todo : List Key) (b : Outbox)
    → IsOutbox applied (id ∷ todo) b
    → IsOutbox applied todo (release_one id b)
IsOutbox-release_one applied id todo b h = elim (Option-cases (get id b.outbox)) [
  | inl e ↦
      rw (release_one, e)
        (IsOutbox-change b h
          (λ k q g. ground (arith, g, h.waits k q, key_eq-eq id k, has-get id b.outbox, e)))
  | inr (o, e) ↦ rw (release_one, e) (IsOutbox-release applied id o todo b e h)
]

pub IsOutbox-release_in :
    (applied : Option ℕ) (ids : List Key) (b : Outbox)
    → IsOutbox applied ids b
    → IsOutbox applied [] (release_in ids b)
IsOutbox-release_in applied [] b h = h
IsOutbox-release_in applied (id ∷ ids) b h =
    IsOutbox-release_in applied ids (release_one id b) (IsOutbox-release_one applied id ids b h)

-- nothing that is not done is at or below the applied position
done_lem :
    (applied : Option ℕ) (k : Key) (q : ℕ) (l : Layer ℕ)
    → get k l ≡ some q
    → member k (done applied l) ≡ false
    → covers applied q ≡ false
done_lem applied k q [] e n = ground arith
done_lem applied k q ((j, p) ∷ l) e n = ground (arith, done_lem applied k q l, key_eq-eq j k)

pub IsOutbox-advance :
    (applied : Option ℕ) (p : ℕ) (b : Outbox)
    → IsOutbox applied [] b
    → IsOutbox (some p) [] (release_in (done (some p) b.acked) b)
IsOutbox-advance applied p b h =
    IsOutbox-release_in (some p) (done (some p) b.acked) b
      (IsOutbox-change b h (λ k q g. ((h.waits k q g).0, λ n. done_lem (some p) k q b.acked g n)))

Mirrors-snoc :
    (m : Mutation) (o : ℕ) (l : Layer ℕ) (rows : List (ℕ × Mutation))
    → has m.id l ≡ false
    → Mirrors l rows
    → Mirrors (put m.id o l) (rows ++ (o, m) ∷ [])
Mirrors-snoc m o [] [] n h = (refl, refl, tt)
Mirrors-snoc m o [] (r ∷ rows) n h = absurd h
Mirrors-snoc m o (x ∷ l) [] n h = absurd h
Mirrors-snoc m o ((j, p) ∷ l) ((q, w) ∷ rows) n h =
    ground (arith, h, Mirrors-snoc m o l rows, key_eq-eq j m.id)

All-put :
    (P : ℕ → Type 0) (k : Key) (o : ℕ) (l : Layer ℕ)
    → P o
    → All (λ x. P x.1) l
    → All (λ x. P x.1) (put k o l)
All-put P k o [] p h = (p, tt)
All-put P k o ((j, q) ∷ l) p h =
    if_elim (All (λ x. P x.1)) (key_eq j k) (λ e. (p, h.1)) (λ e. (h.0, All-put P k o l p h.1))

IsAscending-snoc :
    (k : Key) (o : ℕ) (l : Layer ℕ)
    → has k l ≡ false
    → All (λ x. x.1 < o) l
    → IsAscending l
    → IsAscending (put k o l)
IsAscending-snoc k o [] n b h = (tt, tt)
IsAscending-snoc k o ((j, p) ∷ l) n b h =
    if_elim IsAscending (key_eq j k) (λ e. ground (arith, n, e))
      (λ e.
        (All-put (λ x. p < x) k o l b.0 h.0, IsAscending-snoc k o l (ground (arith, n, e)) b.1 h.1))

-- A mutation of a fresh id enters.
pub IsOutbox-enqueue :
    (applied : Option ℕ) (m : Mutation) (b : Outbox)
    → has m.id b.outbox ≡ false
    → IsOutbox applied [] b
    → IsOutbox applied [] (enqueue m b)
IsOutbox-enqueue applied m b n h = record {
  mirrored = Mirrors-snoc m b.next_ordinal b.outbox b.rows n h.mirrored;
  below =
      All-put (λ x. x < suc b.next_ordinal) m.id b.next_ordinal b.outbox (omega arith)
        (All-map (λ x. x.1 < b.next_ordinal) (λ x. x.1 < suc b.next_ordinal) (λ x l. omega arith)
          b.outbox h.below);
  ascending = IsAscending-snoc m.id b.next_ordinal b.outbox n h.below h.ascending;
  distinct = IsDistinct-put m.id b.next_ordinal b.outbox h.distinct;
  once = h.once;
  waits = λ k q g. ground (arith, g, h.waits k q, has-put m.id k b.next_ordinal b.outbox);
}

pub IsOutbox-answer :
    (applied : Option ℕ) (id : Key) (r : MutationResult) (b : Outbox) (drop : List Key)
    → has id b.outbox ≡ true
    → IsOutbox applied drop b
    → IsOutbox applied
        (answer_outbox applied id r (b, drop)).1
        (answer_outbox applied id r (b, drop)).0
IsOutbox-answer applied id (accepted p) b drop n h = record {
  mirrored = h.mirrored;
  below = h.below;
  ascending = h.ascending;
  distinct = h.distinct;
  once = IsDistinct-put id (lowest p (get id b.acked)) b.acked h.once;
  waits = λ k q g. ground (
    arith,
    g,
    n,
    h.waits k q,
    get-put id k (lowest p (get id b.acked)) b.acked,
    key_eq-eq id k,
    member-snoc k id drop,
  );
}
IsOutbox-answer applied id refused b drop n h =
    IsOutbox-change b h (λ k q g. ground (arith, g, h.waits k q, member-snoc k id drop))
IsOutbox-answer applied id conflicting b drop n h =
    IsOutbox-change b h (λ k q g. ground (arith, g, h.waits k q, member-snoc k id drop))
