-- ===== src/Engine/Chains.antt =====
-- What a frame of edits of class `Engine` in typespec/ts/assets/skeleton.ts applies: each slice's own run.
use phaselock.Prelude.{
  ◌≡◌, refl, sym, ap, ◌<◌, ℕ, suc, List, [], ◌∷◌, ◌++◌, true, false, Option, none, some,
  if◌then◌else◌, arith, if_elim, Bool-cases, inl, inr,
}
use phaselock.Keys.{Key, key_eq}
use phaselock.Keys.Sorted.{key_eq-eq}
use phaselock.Layer.{Layer, get, put}
use phaselock.Layer.Laws.{get-put}
use phaselock.Engine.{Edit}
use phaselock.Engine.Edits.{
  Chain, is_normal, seq_after, held_at, is_old, chains, chain_edit, chain_edits, no_chain,
}

-- a slice's edits
abbrev pub only : Key → List Edit → List Edit
only slice [] = []
only slice (e ∷ es) = if key_eq e.slice slice then e ∷ only slice es else only slice es

-- The edits of one slice, one after another from the seq that it is held at: those that apply, the seq
-- that they leave, and those that break.
abbrev pub follow : Option ℕ → List Edit → List Edit × Option ℕ × List Edit
follow held [] = ([], held, [])
follow held (e ∷ es) =
    let skip = follow held es in
    let next = follow (seq_after e) es in
    if is_old held e
    then skip
    else if chains held e
    then (e ∷ next.0, next.1, next.2)
    else (skip.0, skip.1, e ∷ skip.2)

-- an edit's seq is the next one, or it is a reset above the last
abbrev pub IsNext : Option ℕ → Edit → Type 0
IsNext none e = is_normal e.lifecycle ≡ false
IsNext (some held) e = if is_normal e.lifecycle then e.seq ≡ suc held else held < e.seq

abbrev pub IsRun : Option ℕ → List Edit → Option ℕ → Type 0
IsRun held [] end = held ≡ end
IsRun held (e ∷ es) end = IsNext held e × IsRun (seq_after e) es end

only-append :
    (slice : Key) (es fs : List Edit) → only slice (es ++ fs) ≡ only slice es ++ only slice fs
only-append slice [] fs = refl
only-append slice (e ∷ es) fs = ground (arith, only-append slice es fs)

follow-IsRun : (held : Option ℕ) (es : List Edit) → IsRun held (follow held es).0 (follow held es).1
follow-IsRun held [] = refl
follow-IsRun none (e ∷ es) = ground (arith, follow-IsRun none es, follow-IsRun (seq_after e) es)
follow-IsRun (some h) (e ∷ es) =
    ground (arith, follow-IsRun (some h) es, follow-IsRun (seq_after e) es)

-- a chain and what it becomes, at one slice
record IsSplit (slices : Layer ℕ) (slice : Key) (es : List Edit) (c d : Chain) : Type 0 where
  applied :
      only slice d.apply
      ≡ only slice c.apply ++ (follow (held_at slices c.seqs slice) (only slice es)).0
  held : held_at slices d.seqs slice ≡ (follow (held_at slices c.seqs slice) (only slice es)).1
  broken :
      only slice d.breaks
      ≡ only slice c.breaks ++ (follow (held_at slices c.seqs slice) (only slice es)).2

pub append_nil : (es : List Edit) → es ++ [] ≡ es
append_nil [] = refl
append_nil (e ∷ es) = ap (λ fs. e ∷ fs) (append_nil es)

pub append_one : (xs : List Edit) (e : Edit) (ys : List Edit) → (xs ++ e ∷ []) ++ ys ≡ xs ++ e ∷ ys
append_one [] e ys = refl
append_one (x ∷ xs) e ys = ap (λ l. x ∷ l) (append_one xs e ys)

held_at-put :
    (slices : Layer ℕ) (seqs : Layer (Option ℕ)) (j k : Key) (held : Option ℕ)
    → held_at slices (put j held seqs) k ≡ (if key_eq j k then held else held_at slices seqs k)
held_at-put slices seqs j k held = ground (arith, get-put j k held seqs)

chain_edit_other :
    (slices : Layer ℕ) (slice : Key) (e : Edit) (c : Chain)
    → key_eq e.slice slice ≡ false
    → (only slice (chain_edit slices e c).apply ≡ only slice c.apply)
      × (held_at slices (chain_edit slices e c).seqs slice ≡ held_at slices c.seqs slice)
      × (only slice (chain_edit slices e c).breaks ≡ only slice c.breaks)
unfolding chain_edit
chain_edit_other slices slice e c n =
    let P = λ (d : Chain).
      (only slice d.apply ≡ only slice c.apply)
      × (held_at slices d.seqs slice ≡ held_at slices c.seqs slice)
      × (only slice d.breaks ≡ only slice c.breaks) in
    let held = held_at slices c.seqs e.slice in
    if_elim P (is_old held e) (λ o. (refl, refl, refl))
      (λ o.
        if_elim P (chains held e)
          (λ t. (
            rw (only-append slice c.apply (e ∷ []), n) (append_nil (only slice c.apply)),
            rw (held_at-put slices c.seqs e.slice slice (seq_after e), n) refl,
            refl,
          ))
          (λ t. (
            refl,
            refl,
            rw (only-append slice c.breaks (e ∷ []), n) (append_nil (only slice c.breaks)),
          )))

-- an edit of the slice is followed
IsSplit-own :
    (slices : Layer ℕ) (slice : Key) (e : Edit) (es : List Edit) (c d : Chain)
    → key_eq e.slice slice ≡ true
    → IsSplit slices slice es (chain_edit slices e c) d
    → IsSplit slices slice (e ∷ es) c d
unfolding chain_edit
IsSplit-own slices slice e es c d y h =
    let at : held_at slices c.seqs e.slice ≡ held_at slices c.seqs slice =
      ap (held_at slices c.seqs) ((key_eq-eq e.slice slice).0 y) in
    elim (Bool-cases (is_old (held_at slices c.seqs slice) e)) [
      | inl o ↦ record {
        applied = rw (y, o) (rw (at, o) at h.applied);
        held = rw (y, o) (rw (at, o) at h.held);
        broken = rw (y, o) (rw (at, o) at h.broken);
      }
      | inr o ↦ elim (Bool-cases (chains (held_at slices c.seqs slice) e)) [
        | inl t ↦ record {
          applied =
              rw (y, o, t)
                (rw
                  (
                    at,
                    o,
                    t,
                    only-append slice c.apply (e ∷ []),
                    held_at-put slices c.seqs e.slice slice (seq_after e),
                    y,
                    append_one (only slice c.apply) e,
                  )
                  at h.applied);
          held =
              rw (y, o, t)
                (rw (at, o, t, held_at-put slices c.seqs e.slice slice (seq_after e), y) at h.held);
          broken =
              rw (y, o, t)
                (rw (at, o, t, held_at-put slices c.seqs e.slice slice (seq_after e), y) at
                  h.broken);
        }
        | inr t ↦ record {
          applied = rw (y, o, t) (rw (at, o, t) at h.applied);
          held = rw (y, o, t) (rw (at, o, t) at h.held);
          broken =
              rw (y, o, t)
                (rw
                  (
                    at,
                    o,
                    t,
                    only-append slice c.breaks (e ∷ []),
                    y,
                    append_one (only slice c.breaks) e,
                  )
                  at h.broken);
        }
      ]
    ]

IsSplit-chain_edits :
    (slices : Layer ℕ) (slice : Key) (es : List Edit) (c : Chain)
    → IsSplit slices slice es c (chain_edits slices es c)
unfolding chain_edits
IsSplit-chain_edits slices slice [] c = record {
  applied = sym (append_nil (only slice c.apply));
  held = refl;
  broken = sym (append_nil (only slice c.breaks));
}
IsSplit-chain_edits slices slice (e ∷ es) c =
    let ih = IsSplit-chain_edits slices slice es (chain_edit slices e c) in
    elim (Bool-cases (key_eq e.slice slice)) [
      | inl y ↦ IsSplit-own slices slice e es c (chain_edits slices es (chain_edit slices e c)) y ih
      | inr n ↦
          let (a, h, b) = chain_edit_other slices slice e c n in
          record {
            applied = rw n (rw (h, a) at ih.applied);
            held = rw n (rw h at ih.held);
            broken = rw n (rw (h, b) at ih.broken);
          }
    ]

-- Of a frame, the edits of each slice that apply and those that break are what its own edits give
-- one after another from the seq held, and those that apply run from that seq to the one recorded:
-- each is the next seq, or a reset above the last.
pub chain_edits_lem :
    (slices : Layer ℕ) (es : List Edit) (slice : Key)
    → let c = chain_edits slices es no_chain in
      let held = get slice slices in
      (only slice c.apply ≡ (follow held (only slice es)).0)
      × (only slice c.breaks ≡ (follow held (only slice es)).2)
      × IsRun held (only slice c.apply) (held_at slices c.seqs slice)
chain_edits_lem slices es slice =
    let h = IsSplit-chain_edits slices slice es no_chain in
    (h.applied, h.broken, rw (h.applied, h.held) (follow-IsRun (get slice slices) (only slice es)))
