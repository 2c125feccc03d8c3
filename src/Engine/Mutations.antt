-- ===== src/Engine/Mutations.antt =====
-- The outbox and the @online mutations: `#onSubmitted`, `#onMutationOutcomes` and `#settleOnline` of class
-- `Engine` in typespec/ts/assets/skeleton.ts. A submission has its id generated, and the registry's
-- conversion to wire bytes is a parameter; where that throws the pass ends the Engine, `none`. Of
-- `#refresh`, what the Engine publishes and its overlay are left out.
use phaselock.Prelude.{
  ℕ, suc, List, [], ◌∷◌, ◌++◌, Bool, true, false, ◌&&◌, ◌||◌, Option, none, some, if◌then◌else◌,
  leb, ◌==◌, map, ◌≡◌, ap, ◌∙◌, some_inj,
}
use phaselock.Keys.{Key}
use phaselock.Keys.Sorted.{member}
use phaselock.Layer.{Layer, has, get, put, delete}
use phaselock.Overlay.{add_each}
use phaselock.Txn.Reps.{then_some, then_some-some}
use phaselock.Engine.{
  Mutation, MutationResult, accepted, Settled, resolved, failed, Online, Outbox, Engine, frozen,
  covers, release_in,
}

-- what the app submits: a mutation `M` of its vocabulary
pub data Submission (M : Type 0) : Type 0 where
  to_outbox online : Key → M → Submission M

abbrev pub data_of : {M : Type 0} → Submission M → M
data_of (to_outbox id m) = m
data_of (online id m) = m

-- one call of `sendMutations`; the flag marks an @online mutation alone
abbrev pub Call : Type 0
Call = List Mutation × Bool

pub record Calls : Type 0 where
  pub closed : List Call
  pub last : List Mutation

-- `[...this.#outbox].filter(...).sort(...)`
abbrev pub insert_row : Key × ℕ → Layer ℕ → Layer ℕ
insert_row x [] = x ∷ []
insert_row x (y ∷ ys) = if leb x.1 y.1 then x ∷ y ∷ ys else y ∷ insert_row x ys

abbrev pub pending : List Key → Layer ℕ → Layer ℕ → Layer ℕ
pending sent acked [] = []
pending sent acked ((id, ordinal) ∷ outbox) =
    let rest = pending sent acked outbox in
    if member id sent || has id acked then rest else insert_row (id, ordinal) rest

abbrev pub row_at : ℕ → List (ℕ × Mutation) → Option Mutation
row_at o [] = none
row_at o ((k, m) ∷ rows) = if k == o then some m else row_at o rows

-- `none` where a row is missing
abbrev pub rows_at : Layer ℕ → List (ℕ × Mutation) → Option (List Mutation)
rows_at [] rows = some []
rows_at ((id, o) ∷ ids) rows =
    then_some (row_at o rows) (λ m. then_some (rows_at ids rows) (λ ms. some (m ∷ ms)))

abbrev pub ids_of : List Mutation → List Key
ids_of ms = map (λ m. m.id) ms

-- the answers that settle, and those that wait
abbrev pub is_settled : Option ℕ → Online → Bool
is_settled applied o = elim o.ack [ none ↦ false | some p ↦ o.seen || covers applied p ]

abbrev pub waiting : Option ℕ → Layer Online → Layer Online
waiting applied [] = []
waiting applied ((id, o) ∷ os) =
    if is_settled applied o then waiting applied os else (id, o) ∷ waiting applied os

abbrev pub answers : Option ℕ → Layer Online → List (Key × Settled)
answers applied [] = []
answers applied ((id, o) ∷ os) =
    let rest = answers applied os in
    elim o.ack [
      | none ↦ rest
      | some p ↦ if o.seen || covers applied p then (id, resolved (accepted p)) ∷ rest else rest
    ]

-- a mutation settled for each @online call
abbrev pub rejected : List Call → List (Key × Settled)
rejected [] = []
rejected (((m ∷ ms), true) ∷ calls) = (m.id, failed) ∷ rejected calls
rejected (c ∷ calls) = rejected calls

abbrev pub close : Calls → List Call
close c = c.closed ++ (c.last, false) ∷ []

-- the lowest position that an ok named
abbrev pub lowest : ℕ → Option ℕ → ℕ
lowest p none = p
lowest p (some q) = if leb p q then p else q

-- the end of one call; the flag says that it ran on the connection of now
pub data Outcome : Type 0 where
  answered : List Key → List MutationResult → Outcome
  broken : List Key → Bool → Outcome

-- an outbox mutation takes the next ordinal
abbrev pub enqueue : Mutation → Outbox → Outbox
enqueue m b = record b {
  rows = b.rows ++ (b.next_ordinal, m) ∷ [];
  outbox = put m.id b.next_ordinal b.outbox;
  next_ordinal = suc b.next_ordinal;
  changed = true;
}

-- An outbox mutation's answer, and the mutations to drop so far. An ok bounds the decision by its
-- position; a reject or a conflict is final.
abbrev pub answer_outbox : Option ℕ → Key → MutationResult → Outbox × List Key → Outbox × List Key
answer_outbox applied id (accepted p) (b, drop) =
    let q = lowest p (get id b.acked) in
    (record b { acked = put id q b.acked }, if covers applied q then drop ++ id ∷ [] else drop)
answer_outbox applied id r (b, drop) = (b, drop ++ id ∷ [])

module _ {S : Type 0} where
  -- `#settleOnline`
  unfoldable pub settle_online : Engine S → Engine S
  settle_online s =
      let settle = record s {
        online = waiting s.applied s.online;
        settled = s.settled ++ answers s.applied s.online;
      } in
      elim s.applied [ none ↦ s | some a ↦ if frozen s then s else settle ]

  -- `#refresh`
  abbrev pub refresh : Engine S → Engine S
  refresh s = settle_online (record s { box = record s.box { changed = false } })

  -- one submission in its wire bytes, with the calls so far
  abbrev pub mint : {M : Type 0} → Submission M → List ℕ → Engine S × Calls → Engine S × Calls
  mint (online id given) bytes (s, c) =
      let m : Mutation = record { id = id; n = s.next_n; bytes = bytes } in
      (
        record s { next_n = suc s.next_n },
        record { closed = c.closed ++ ((c.last, false) ∷ ((m ∷ []), true) ∷ []); last = [] },
      )
  mint (to_outbox id given) bytes (s, c) =
      let m : Mutation = record { id = id; n = s.next_n; bytes = bytes } in
      (
        record s { box = enqueue m s.box; next_n = suc s.next_n },
        record c { last = c.last ++ m ∷ [] },
      )

  -- the calls made on the connection
  abbrev pub send : List Call → Engine S → Engine S
  send [] s = s
  send (([], o) ∷ calls) s = send calls s
  send (((m ∷ ms), true) ∷ calls) s =
      send calls (record s { online = put m.id (record { ack = none; seen = false }) s.online })
  send (((m ∷ ms), false) ∷ calls) s =
      send calls (record s { box = record s.box { sent = add_each (ids_of (m ∷ ms)) s.box.sent } })

module _ {S M : Type 0} (convert : M → Option (List ℕ)) where
  abbrev pub submit : Submission M → Engine S × Calls → Option (Engine S × Calls)
  submit x sc = then_some (convert (data_of x)) (λ bytes. some (mint x bytes sc))

  abbrev pub submit_each : List (Submission M) → Engine S × Calls → Option (Engine S × Calls)
  submit_each [] sc = some sc
  submit_each (x ∷ xs) sc = then_some (submit x sc) (λ r. submit_each xs r)

  -- the calls of a pass: the rows resent first, then the submissions
  unfoldable pub gather : Bool → List (Submission M) → Engine S → Option (Engine S × List Call)
  gather resend xs s =
      let todo = if resend then pending s.box.sent s.box.acked s.box.outbox else [] in
      then_some (rows_at todo s.box.rows) λ rows.
        then_some (submit_each xs (s, record { closed = []; last = rows }))
          λ r. some (r.0, close r.1)

  -- `#onSubmitted`, with whether there is a connection, and whether it is to resend the outbox
  unfoldable pub on_submitted :
      Bool → Bool → List (Submission M) → Engine S → Option (Engine S × List Call)
  unfolding gather settle_online
  on_submitted connected resend xs s = then_some (gather (resend && connected) xs s) λ r.
      let s' = refresh r.0 in
      some (
        if connected
        then (send r.1 s', r.1)
        else (record s' { settled = s'.settled ++ rejected r.1 }, []))

  -- a pass over a submission converts it
  pub submit_each-some :
      (x : Submission M) (xs : List (Submission M)) (sc r : Engine S × Calls)
      → submit_each (x ∷ xs) sc ≡ some r
      → (bytes : List ℕ) × (submit_each xs (mint x bytes sc) ≡ some r)
  submit_each-some x xs sc r e =
      let (t, f, g) = then_some-some (submit x sc) (λ t. submit_each xs t) r e in
      let (bytes, p, q) = then_some-some (convert (data_of x)) (λ b. some (mint x b sc)) t f in
      (bytes, ap (submit_each xs) (some_inj q) ∙ g)

module _ {S : Type 0} where
  abbrev pub fail : List Key → Engine S → Engine S
  fail [] s = s
  fail (id ∷ ids) s = fail ids (
      if has id s.online
      then record s { online = delete id s.online; settled = s.settled ++ (id, failed) ∷ [] }
      else s)

  abbrev pub answer_online : Key → MutationResult → Online → Engine S → Engine S
  answer_online id (accepted p) o s = record s {
    online = put id (record o { ack = some p }) s.online;
  }
  answer_online id r o s = record s {
    online = delete id s.online;
    settled = s.settled ++ (id, resolved r) ∷ [];
  }

  unfoldable pub answer : Key → MutationResult → Engine S → List Key → Engine S × List Key
  answer id r s drop = elim (get id s.online) [
    | some o ↦ (answer_online id r o s, drop)
    | none ↦
        if has id s.box.outbox
        then (let (b, drop') = answer_outbox s.applied id r (s.box, drop) in
            (record s { box = b }, drop'))
        else (s, drop)
  ]

  -- `results.forEach`
  abbrev pub answer_each :
      List Key → List MutationResult → Engine S → List Key → Engine S × List Key
  answer_each (id ∷ ids) (r ∷ rs) s drop =
      let (s', drop') = answer id r s drop in answer_each ids rs s' drop'
  answer_each _ _ s drop = (s, drop)

  abbrev pub outcome_each : List Outcome → Engine S → List Key → Engine S × List Key
  outcome_each [] s drop = (s, drop)
  outcome_each (broken ids now ∷ os) s drop =
      let s' = fail ids s in outcome_each os (if now then record s' { aborted = true } else s') drop
  outcome_each (answered ids rs ∷ os) s drop =
      let (s', drop') = answer_each ids rs s drop in outcome_each os s' drop'

  -- `#onMutationOutcomes`
  unfoldable pub on_outcomes : List Outcome → Engine S → Engine S
  unfolding settle_online
  on_outcomes os s =
      let (s', drop) = outcome_each os s [] in refresh (record s' { box = release_in drop s'.box })
