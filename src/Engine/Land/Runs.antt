-- ===== src/Engine/Land/Runs.antt =====
-- The run of parked edits that a land of class `Engine` in typespec/ts/assets/skeleton.ts plans.
use phaselock.Prelude.{
  ◌≡◌, ◌⊎◌, ◌∙◌, refl, sym, ℕ, List, [], ◌∷◌, ◌++◌, true, false, not, ◌||◌, Option, none, some,
  arith, All, All-append, if_elim, inl, inr,
}
use phaselock.Engine.{Edit, covers}
use phaselock.Engine.Edits.{is_normal, is_old}
use phaselock.Engine.Chains.{IsNext, append_nil, append_one}
use phaselock.Engine.Land.{Run, is_past, follows, run_edit, run_edits, begin}

-- each edit is the next seq, or a reset above the last
abbrev pub IsLinked : Option ℕ → List Edit → Option ℕ → Type 0
IsLinked last [] end = last ≡ end
IsLinked last (e ∷ es) end = IsNext last e × IsLinked (some e.seq) es end

IsLinked-snoc :
    (start last : Option ℕ) (es : List Edit) (e : Edit)
    → IsLinked start es last
    → IsNext last e
    → IsLinked start (es ++ e ∷ []) (some e.seq)
IsLinked-snoc start last [] e h n = (rw h n, refl)
IsLinked-snoc start last (x ∷ es) e h n = (h.0, IsLinked-snoc (some x.seq) last es e h.1 n)

next_lem :
    (last : Option ℕ) (e : Edit)
    → is_normal e.lifecycle ≡ true
    → follows last e ≡ true
    → IsNext last e
next_lem none e n f = ground (arith, f)
next_lem (some l) e n f = ground (arith, n, f)

-- From the base, or from a reset, the edits of a run without a gap link to its last seq.
record IsRunning (seq cut : Option ℕ) (r : Run) : Type 0 where
  linked : r.gap ≡ false → IsLinked seq r.edits r.last ⊎ IsLinked none r.edits r.last
  past : All (λ e. is_past cut e.at ≡ true) r.edits

IsRunning-run_edit :
    (seq cut : Option ℕ) (e : Edit) (r : Run)
    → IsRunning seq cut r
    → IsRunning seq cut (run_edit cut e r)
unfolding run_edit
IsRunning-run_edit seq cut e r h =
    if_elim (IsRunning seq cut) (covers cut e.at || is_old r.last e) (λ o. h)
      λ o.
        let far : is_past cut e.at ≡ true = ground (arith, o) in
        if_elim (IsRunning seq cut) (not (is_normal e.lifecycle))
          (λ n. record { linked = λ g. inr (ground (arith, n), refl); past = (far, tt) })
          λ n.
            if_elim (IsRunning seq cut) (r.gap || not (follows r.last e))
              (λ b. record { linked = λ g. ground (arith, g); past = tt })
              λ b.
                let next : IsNext r.last e =
                  next_lem r.last e (ground (arith, n)) (ground (arith, b)) in
                record {
                  linked = λ g. elim (h.linked (ground (arith, b))) [
                    | inl l ↦ inl (IsLinked-snoc seq r.last r.edits e l next)
                    | inr l ↦ inr (IsLinked-snoc none r.last r.edits e l next)
                  ];
                  past =
                      All-append (λ e. is_past cut e.at ≡ true) r.edits (e ∷ []) h.past (far, tt);
                }

IsRunning-run_edits :
    (seq cut : Option ℕ) (es : List Edit) (r : Run)
    → IsRunning seq cut r
    → IsRunning seq cut (run_edits cut es r)
unfolding run_edits
IsRunning-run_edits seq cut [] r h = h
IsRunning-run_edits seq cut (e ∷ es) r h =
    IsRunning-run_edits seq cut es (run_edit cut e r) (IsRunning-run_edit seq cut e r h)

-- a slice's edits from the next seq on, each past the cut
abbrev pub IsChain : Option ℕ → Option ℕ → List Edit → Type 0
IsChain cut last [] = Unit
IsChain cut last (e ∷ es) =
    (is_normal e.lifecycle ≡ true)
    × (is_past cut e.at ≡ true)
    × (follows last e ≡ true)
    × IsChain cut (some e.seq) es

follows_new : (last : Option ℕ) (e : Edit) → follows last e ≡ true → is_old last e ≡ false
follows_new none e f = refl
follows_new (some l) e f = ground (arith, f)

taken_lem :
    (cut : Option ℕ) (e : Edit) (r : Run)
    → r.gap ≡ false
    → is_normal e.lifecycle ≡ true
    → is_past cut e.at ≡ true
    → follows r.last e ≡ true
    → run_edit cut e r ≡ record { edits = r.edits ++ e ∷ []; gap = false; last = some e.seq }
unfolding run_edit
taken_lem cut e r g n p f =
    let near : covers cut e.at ≡ false = ground (arith, p) in
    rw (near, follows_new r.last e f, n, g, f) refl

-- a chain is taken whole
run_edits-chain :
    (cut : Option ℕ) (es : List Edit) (r : Run)
    → r.gap ≡ false
    → IsChain cut r.last es
    → ((run_edits cut es r).edits ≡ r.edits ++ es) × ((run_edits cut es r).gap ≡ false)
unfolding run_edits
run_edits-chain cut [] r g c = (sym (append_nil r.edits), g)
run_edits-chain cut (e ∷ es) r g (n, p, f, c) =
    let s : Run = record { edits = r.edits ++ e ∷ []; gap = false; last = some e.seq } in
    let taken : run_edit cut e r ≡ s = taken_lem cut e r g n p f in
    let (a, b) = run_edits-chain cut es s refl c in
    (rw (run_edits, taken) (a ∙ append_one r.edits e es), rw (run_edits, taken) b)

-- Of a slice with parked edits, a run that a land plans without a gap links, from the seq of the
-- base or from nothing, to the last seq, each edit the next seq or a reset above the last; its
-- edits lie past the cut; and edits that are the next seqs from the base on, all past the cut, are
-- taken whole.
pub run_edits_lem :
    (cut seq : Option ℕ) (es : List Edit)
    → let r = run_edits cut es (begin seq) in
      (r.gap ≡ false → IsLinked seq r.edits r.last ⊎ IsLinked none r.edits r.last)
      × All (λ e. is_past cut e.at ≡ true) r.edits
      × (IsChain cut seq es → (r.edits ≡ es) × (r.gap ≡ false))
run_edits_lem cut seq es =
    let h =
      IsRunning-run_edits seq cut es (begin seq) (record { linked = λ g. inl refl; past = tt }) in
    (h.linked, h.past, λ c. run_edits-chain cut es (begin seq) refl c)
