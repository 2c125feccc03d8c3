-- ===== src/Engine/Resend.antt =====
-- A resend of class `Engine` in typespec/ts/assets/skeleton.ts strands no mutation.
use mathlib.Core.Path.{subst}
use phaselock.Prelude.{
  ◌≡◌, refl, ◌<◌, ℕ, List, [], ◌∷◌, ◌++◌, Bool, true, false, not, ◌&&◌, ◌||◌, some, if◌then◌else◌,
  arith, leb, All, All-map, if_elim, Option, some_inj,
}
use phaselock.Keys.{Key, key_eq}
use phaselock.Keys.Sorted.{member, key_eq-eq}
use phaselock.Layer.{Layer, names, has}
use phaselock.Layer.Laws.{has-put}
use phaselock.Overlay.Reads.{member-add_each}
use phaselock.Engine.{Mutation, Engine}
use phaselock.Engine.Outboxes.{Mirrors, IsAscending}
use phaselock.Engine.Mutations.{
  Submission, to_outbox, online, Call, Calls, insert_row, pending, row_at, rows_at, ids_of,
  submit_each, send, close, gather, on_submitted, refresh, settle_online, mint, submit_each-some,
  data_of,
}
use phaselock.Engine.Invariant.{IsEngine}

-- an outbox entry has its row
HasRow : List (ℕ × Mutation) → Key × ℕ → Type 0
HasRow rows x = (m : Mutation) × (row_at x.1 rows ≡ some m) × (m.id ≡ x.0)

HasRow-behind :
    (o : ℕ) (m : Mutation) (rows : List (ℕ × Mutation)) (x : Key × ℕ)
    → (o < x.1) × HasRow rows x
    → HasRow ((o, m) ∷ rows) x
unfolding HasRow
HasRow-behind o m rows x (l, (w, e, i)) = (w, ground (arith, l, e), i)

All-both : (P Q : Key × ℕ → Type 0) (l : Layer ℕ) → All P l → All Q l → All (λ x. P x × Q x) l
All-both P Q [] h k = tt
All-both P Q (x ∷ l) h k = ((h.0, k.0), All-both P Q l h.1 k.1)

Mirrors-HasRow :
    (l : Layer ℕ) (rows : List (ℕ × Mutation))
    → IsAscending l
    → Mirrors l rows
    → All (HasRow rows) l
unfolding HasRow
Mirrors-HasRow [] rows a h = tt
Mirrors-HasRow ((id, o) ∷ l) [] a h = absurd h
Mirrors-HasRow ((id, o) ∷ l) ((k, m) ∷ rows) a h = (
  (m, ground (arith, h.0), h.1),
  All-map (λ x. (o < x.1) × HasRow rows x) (HasRow ((k, m) ∷ rows))
      (λ x p. HasRow-behind k m rows x (rw h.0 p.0, p.1)) l
      (All-both (λ x. o < x.1) (HasRow rows) l a.0 (Mirrors-HasRow l rows a.1 h.2)),
)

All-insert_row :
    (P : Key × ℕ → Type 0) (x : Key × ℕ) (l : Layer ℕ) → P x → All P l → All P (insert_row x l)
All-insert_row P x [] p h = (p, tt)
All-insert_row P x (y ∷ l) p h =
    if_elim (All P) (leb x.1 y.1) (λ e. (p, h)) (λ e. (h.0, All-insert_row P x l p h.1))

All-pending :
    (P : Key × ℕ → Type 0) (sent : List Key) (acked l : Layer ℕ)
    → All P l
    → All P (pending sent acked l)
All-pending P sent acked [] h = tt
All-pending P sent acked ((id, o) ∷ l) h =
    if_elim (All P) (member id sent || has id acked) (λ e. All-pending P sent acked l h.1)
      (λ e. All-insert_row P (id, o) (pending sent acked l) h.0 (All-pending P sent acked l h.1))

has-insert_row :
    (k : Key) (x : Key × ℕ) (l : Layer ℕ)
    → has k (insert_row x l) ≡ (if key_eq x.0 k then true else has k l)
has-insert_row k x [] = refl
has-insert_row k x (y ∷ l) = ground (arith, has-insert_row k x l)

has-pending :
    (k : Key) (sent : List Key) (acked l : Layer ℕ)
    → has k (pending sent acked l) ≡ (has k l && not (member k sent || has k acked))
has-pending k sent acked [] = refl
has-pending k sent acked ((id, o) ∷ l) = ground (
  arith,
  has-pending k sent acked l,
  has-insert_row k (id, o) (pending sent acked l),
  key_eq-eq id k,
)

-- the rows found are those of the entries
rows_at_lem :
    (l : Layer ℕ) (rows : List (ℕ × Mutation))
    → All (HasRow rows) l
    → (ms : List Mutation) × (rows_at l rows ≡ some ms) × (ids_of ms ≡ names l)
unfolding HasRow
rows_at_lem [] rows h = ([], refl, refl)
rows_at_lem ((id, o) ∷ l) rows ((m, e, i), h) =
    let (ms, f, j) = rows_at_lem l rows h in (m ∷ ms, rw (e, f) refl, cc)

-- is a mutation in one of the calls for the outbox?
abbrev called : Key → List Call → Bool
called k [] = false
called k ((ms, true) ∷ calls) = called k calls
called k ((ms, false) ∷ calls) = member k (ids_of ms) || called k calls

called-append : (k : Key) (cs ds : List Call) → called k (cs ++ ds) ≡ (called k cs || called k ds)
called-append k [] ds = refl
called-append k ((ms, true) ∷ cs) ds = called-append k cs ds
called-append k ((ms, false) ∷ cs) ds = ground (arith, called-append k cs ds)

member-ids_of :
    (k : Key) (ms : List Mutation) (m : Mutation)
    → member k (ids_of (ms ++ m ∷ [])) ≡ (member k (ids_of ms) || key_eq m.id k)
member-ids_of k [] m = ground arith
member-ids_of k (n ∷ ms) m = ground (arith, member-ids_of k ms m)

module _ {S : Type 0} where
  -- every outbox mutation is sent, acked or about to be
  abbrev IsTaken : Engine S → List Call → Type 0
  IsTaken s calls =
      (k : Key)
      → has k s.box.outbox ≡ true
      → (member k s.box.sent || (has k s.box.acked || called k calls)) ≡ true

  IsTaken-submit_each :
      {M : Type 0}
      → (convert : M → Option (List ℕ)) (xs : List (Submission M)) (s : Engine S) (c : Calls)
        (r : Engine S × Calls)
      → IsTaken s (close c)
      → submit_each convert xs (s, c) ≡ some r
      → IsTaken r.0 (close r.1)
  IsTaken-submit_each convert [] s c r h e =
      subst (λ (r : Engine S × Calls). IsTaken r.0 (close r.1)) (some_inj e) h
  IsTaken-submit_each convert (online id given ∷ xs) s c r h e =
      let (bytes, f) = submit_each-some convert (online id given) xs (s, c) r e in
      let m : Mutation = record { id = id; n = s.next_n; bytes = bytes } in
      let calls : List Call = (c.last, false) ∷ ((m ∷ []), true) ∷ [] in
      let t = mint (online id given) bytes (s, c) in
      IsTaken-submit_each convert xs t.0 t.1 r
        (λ k q. ground (
          arith,
          h k q,
          called-append k (c.closed ++ calls) (([], false) ∷ []),
          called-append k c.closed calls,
          called-append k c.closed ((c.last, false) ∷ []),
        ))
        f
  IsTaken-submit_each convert (to_outbox id given ∷ xs) s c r h e =
      let (bytes, f) = submit_each-some convert (to_outbox id given) xs (s, c) r e in
      let m : Mutation = record { id = id; n = s.next_n; bytes = bytes } in
      let t = mint (to_outbox id given) bytes (s, c) in
      IsTaken-submit_each convert xs t.0 t.1 r
        (λ k q. ground (
          arith,
          q,
          h k,
          has-put id k s.box.next_ordinal s.box.outbox,
          called-append k c.closed ((c.last ++ m ∷ [], false) ∷ []),
          called-append k c.closed ((c.last, false) ∷ []),
          member-ids_of k c.last m,
        ))
        f

  IsTaken-send : (calls : List Call) (s : Engine S) → IsTaken s calls → IsTaken (send calls s) []
  IsTaken-send [] s h = h
  IsTaken-send (([], true) ∷ calls) s h = IsTaken-send calls s h
  IsTaken-send (([], false) ∷ calls) s h = IsTaken-send calls s (λ k q. ground (arith, h k q))
  IsTaken-send (((m ∷ ms), true) ∷ calls) s h = IsTaken-send calls _ h
  IsTaken-send (((m ∷ ms), false) ∷ calls) s h =
      IsTaken-send calls _
        (λ k q. ground (arith, h k q, member-add_each k (ids_of (m ∷ ms)) s.box.sent))

  IsTaken-refresh : (calls : List Call) (s : Engine S) → IsTaken s calls → IsTaken (refresh s) calls
  unfolding settle_online
  IsTaken-refresh calls s h = ground (arith, h)

module _ {M : Type 0} (convert : M → Option (List ℕ)) where
  -- the registry converts a submission
  abbrev pub IsConverted : Submission M → Type 0
  IsConverted x = (bytes : List ℕ) × (convert (data_of x) ≡ some bytes)

module _ {S M : Type 0} (convert : M → Option (List ℕ)) where
  submit_each-IsConverted :
      (xs : List (Submission M)) (sc : Engine S × Calls)
      → All (IsConverted convert) xs
      → (r : Engine S × Calls) × (submit_each convert xs sc ≡ some r)
  submit_each-IsConverted [] sc h = (sc, refl)
  submit_each-IsConverted (x ∷ xs) sc ((bytes, e), h) =
      let (r, f) = submit_each-IsConverted xs (mint x bytes sc) h in (r, rw e f)

  -- Of an Engine in a good state, a pass on a connection that is to resend the outbox, over any
  -- submissions that the registry converts, succeeds, and leaves no mutation of the outbox that is
  -- neither handed to the connection nor acked.
  pub on_submitted_lem :
      (xs : List (Submission M)) (s : Engine S)
      → IsEngine s
      → All (IsConverted convert) xs
      → (s' : Engine S) × (calls : List Call) × (on_submitted convert true true xs s
          ≡ some (s', calls))
        × ((k : Key)
            → has k s'.box.outbox ≡ true
            → (member k s'.box.sent || has k s'.box.acked) ≡ true)
  unfolding on_submitted gather
  on_submitted_lem xs s h g =
      let todo = pending s.box.sent s.box.acked s.box.outbox in
      let (rows, f, ids) = rows_at_lem todo s.box.rows (
        All-pending (HasRow s.box.rows) s.box.sent s.box.acked s.box.outbox
          (Mirrors-HasRow s.box.outbox s.box.rows h.waiting.ascending h.waiting.mirrored)) in
      let c : Calls = record { closed = []; last = rows } in
      let (r, e) = submit_each-IsConverted xs (s, c) g in
      let begun : IsTaken s (close c) =
        λ k q. ground (arith, q, ids, has-pending k s.box.sent s.box.acked s.box.outbox) in
      let taken =
        IsTaken-send (close r.1) (refresh r.0)
          (IsTaken-refresh (close r.1) r.0 (IsTaken-submit_each convert xs s c r begun e)) in
      (send (close r.1) (refresh r.0), close r.1, rw (f, e) refl, λ k q. ground (arith, taken k q))
