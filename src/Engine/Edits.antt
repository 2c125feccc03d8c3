-- ===== src/Engine/Edits.antt =====
-- One frame of edits, `#onEditsIn` of class `Engine` in typespec/ts/assets/skeleton.ts.
use phaselock.Prelude.{
  ℕ, suc, List, [], ◌∷◌, ◌++◌, Bool, true, false, not, Option, none, some, if◌then◌else◌, leb, ◌==◌,
}
use phaselock.Keys.{Key}
use phaselock.Layer.{Layer, has, get, put}
use phaselock.Wire.Edits.{Lifecycle}
use phaselock.Txn.Reps.{then_some}
use phaselock.Txn.Apply.{parked_edit_key}
use phaselock.Engine.{
  Edit, Engine, frozen, advance_cursor, round_trip, resolve, hold, forget, spawn,
}

-- the edits to apply, each slice's seq as the frame leaves it, and the edits that break
pub record Chain : Type 0 where
  pub apply : List Edit
  pub seqs : Layer (Option ℕ)
  pub breaks : List Edit

abbrev pub is_normal : Lifecycle → Bool
is_normal Lifecycle.normal = true
is_normal _ = false

-- the seq that an edit leaves its slice at
abbrev pub seq_after : Edit → Option ℕ
seq_after e = elim e.lifecycle [ Lifecycle.death ↦ none | _ ↦ some e.seq ]

abbrev pub held_at : Layer ℕ → Layer (Option ℕ) → Key → Option ℕ
held_at slices seqs slice = elim (get slice seqs) [ some held ↦ held | none ↦ get slice slices ]

-- is the edit one that its slice already has?
abbrev pub is_old : Option ℕ → Edit → Bool
is_old none e = false
is_old (some held) e = leb e.seq held

-- does it follow what its slice holds: the next seq, or a reset?
abbrev pub chains : Option ℕ → Edit → Bool
chains none e = not (is_normal e.lifecycle)
chains (some held) e = if is_normal e.lifecycle then e.seq == suc held else true

unfoldable pub chain_edit : Layer ℕ → Edit → Chain → Chain
chain_edit slices e c =
    let held = held_at slices c.seqs e.slice in
    if is_old held e
    then c
    else if chains held e
    then record c { apply = c.apply ++ e ∷ []; seqs = put e.slice (seq_after e) c.seqs }
    else record c { breaks = c.breaks ++ e ∷ [] }

unfoldable pub chain_edits : Layer ℕ → List Edit → Chain → Chain
unfolding chain_edit
chain_edits slices [] c = c
chain_edits slices (e ∷ es) c = chain_edits slices es (chain_edit slices e c)

abbrev pub no_chain : Chain
no_chain = record { apply = []; seqs = []; breaks = [] }

-- the position of the last edit
abbrev pub last_at : Edit → List Edit → ℕ
last_at e [] = e.at
last_at e (f ∷ fs) = last_at f fs

module _ {S : Type 0} where
  abbrev pub spawn_breaks : List Edit → Engine S → Engine S
  spawn_breaks [] s = s
  spawn_breaks (e ∷ es) s =
      spawn_breaks es (if has e.slice s.backfills then s else spawn e.slice e.at s)

  abbrev pub park : List Edit → Engine S → Engine S
  park [] s = s
  park (e ∷ es) s = park es (record s {
    stored = record s.stored { parked = put (parked_edit_key e.slice e.seq) e.raw s.stored.parked };
  })

  abbrev pub round_trips : List Edit → Engine S → Engine S
  round_trips [] s = s
  round_trips (e ∷ es) s = round_trips es (resolve e.slice (round_trip e.id s))

  abbrev pub hold_each : Layer (Option ℕ) → Engine S → Engine S
  hold_each [] s = s
  hold_each ((slice, none) ∷ seqs) s = hold_each seqs (forget slice s)
  hold_each ((slice, some seq) ∷ seqs) s = hold_each seqs (hold slice seq s)

  -- a frame that parks, at the position of its last edit
  unfoldable pub park_frame : List Edit → List Edit → ℕ → Engine S → Option (Engine S)
  unfolding advance_cursor
  park_frame breaks es last s = advance_cursor last false (park es (spawn_breaks breaks s))

module _ {S : Type 0} (apply_edits : List Edit → S → Option (S × List Key)) where
  -- the edits enter the base, where there are any
  abbrev pub enter : List Edit → Engine S → Option (Engine S)
  enter [] s = some s
  enter (e ∷ es) s =
      then_some (apply_edits (e ∷ es) s.stored.base)
        λ r. some (record s { stored = record s.stored { base = r.0 }; dirty = s.dirty ++ r.1 })

  unfoldable pub apply_frame : Chain → ℕ → Engine S → Option (Engine S)
  unfolding advance_cursor
  apply_frame c last s =
      then_some (enter c.apply (round_trips c.apply s))
        λ s'. advance_cursor last true (hold_each c.seqs s')

  -- `#onEditsIn`
  unfoldable pub on_edits : List Edit → Engine S → Option (Engine S)
  unfolding park_frame apply_frame chain_edits
  on_edits [] s = some s
  on_edits (e ∷ es) s =
      let last = last_at e es in
      let c = chain_edits s.slices (e ∷ es) no_chain in
      if frozen s then park_frame [] (e ∷ es) last s else elim c.breaks [
        | [] ↦ apply_frame c last s
        | b ∷ bs ↦ park_frame (b ∷ bs) (e ∷ es) last s
      ]
