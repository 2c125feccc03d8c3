-- ===== src/Engine/Land/Winner.antt =====
-- The snapshot that wins a slice in a land of class `Engine` in typespec/ts/assets/skeleton.ts.
use mathlib.Core.Path.{subst}
use phaselock.Prelude.{
  some_inj, ◌≡◌, ◌⊎◌, refl, List, [], ◌∷◌, true, false, ◌&&◌, Option, none, some, arith, All,
  Bool-cases, inl, inr, ◌≤◌, All-map,
}
use phaselock.Keys.{Key}
use phaselock.Engine.Land.{selector_covers, Blob, beats, winner}

-- Of the blobs that cover a slice, none that was met beats the winner, which is one of them.
record IsWinner (slice : Key) (bs : List Blob) (best w : Option Blob) : Type 0 where
  newest : All (λ b. selector_covers b.selector slice ≡ true → beats b w ≡ false) bs
  kept : (b : Blob) → best ≡ some b → beats b w ≡ false
  covering : (b : Blob) → w ≡ some b → (best ≡ some b) ⊎ (selector_covers b.selector slice ≡ true)

beats_trans :
    (a b : Blob) (w : Option Blob)
    → beats a (some b) ≡ false
    → beats b w ≡ false
    → beats a w ≡ false
beats_trans a b none l h = ground (arith, h)
beats_trans a b (some w) l h = ground (arith, l, h)

IsWinner-take :
    (slice : Key) (b : Blob) (bs : List Blob) (best w : Option Blob)
    → selector_covers b.selector slice ≡ true
    → beats b best ≡ true
    → IsWinner slice bs (some b) w
    → IsWinner slice (b ∷ bs) best w
IsWinner-take slice b bs best w c t h = record {
  newest = (λ d. h.kept b refl, h.newest);
  kept = λ a e. beats_trans a b w (ground (arith, e, t)) (h.kept b refl);
  covering = λ a e. elim (h.covering a e) [
    | inl s ↦ inr (subst (λ (x : Blob). selector_covers x.selector slice ≡ true) (some_inj s) c)
    | inr d ↦ inr d
  ];
}

-- a blob that does not beat the best so far beats none after it
unbeaten :
    (b : Blob) (best w : Option Blob)
    → beats b best ≡ false
    → ((a : Blob) → best ≡ some a → beats a w ≡ false)
    → beats b w ≡ false
unbeaten b none w t k = ground (arith, t)
unbeaten b (some a) w t k = beats_trans b a w t (k a refl)

IsWinner-skip :
    (slice : Key) (b : Blob) (bs : List Blob) (best w : Option Blob)
    → (selector_covers b.selector slice && beats b best) ≡ false
    → IsWinner slice bs best w
    → IsWinner slice (b ∷ bs) best w
IsWinner-skip slice b bs best w f h = record {
  newest = (λ c. unbeaten b best w (ground (arith, c, f)) h.kept, h.newest);
  kept = h.kept;
  covering = h.covering;
}

IsWinner-winner :
    (slice : Key) (bs : List Blob) (best : Option Blob)
    → IsWinner slice bs best (winner slice bs best)
unfolding winner
IsWinner-winner slice [] best = record {
  newest = tt;
  kept = λ b e. rw e (ground arith);
  covering = λ b e. inl e;
}
IsWinner-winner slice (b ∷ bs) best =
    elim (Bool-cases (selector_covers b.selector slice && beats b best)) [
      | inl t ↦
          rw (winner, t)
            (IsWinner-take slice b bs best (winner slice bs (some b)) (ground (arith, t))
              (ground (arith, t)) (IsWinner-winner slice bs (some b)))
      | inr f ↦
          rw (winner, f)
            (IsWinner-skip slice b bs best (winner slice bs best) f (IsWinner-winner slice bs best))
    ]

-- a snapshot that does not beat the winner is cut no later
not_beaten :
    (b : Blob) (w : Option Blob) → beats b w ≡ false → (v : Blob) × (w ≡ some v) × (b.cut ≤ v.cut)
not_beaten b none h = ground (arith, h)
not_beaten b (some v) h = (v, refl, ground (arith, h))

-- The snapshot that wins a slice covers it, and where some snapshot covers the slice there is a
-- winner, cut no earlier than any that covers it.
pub winner_lem :
    (slice : Key) (bs : List Blob)
    → let w = winner slice bs none in
      All
        (λ b. selector_covers b.selector slice ≡ true → (v : Blob) × (w ≡ some v) × (b.cut ≤ v.cut))
        bs
      × ((b : Blob) → w ≡ some b → selector_covers b.selector slice ≡ true)
winner_lem slice bs =
    let h = IsWinner-winner slice bs none in
    (
      All-map
          (λ b. selector_covers b.selector slice ≡ true → beats b (winner slice bs none) ≡ false)
          (λ b.
            selector_covers b.selector slice ≡ true
            → (v : Blob) × (winner slice bs none ≡ some v) × (b.cut ≤ v.cut))
          (λ b f c. not_beaten b (winner slice bs none) (f c)) bs h.newest,
      λ b e. elim (h.covering b e) [ inl n ↦ ground (arith, n) | inr c ↦ c ],
    )
