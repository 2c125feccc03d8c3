-- ===== src/Overlay/Batches.antt =====
-- The loop of `scanAll` of typespec/ts/assets/skeleton.ts, over a base whose scans walk a list in batches.
use Prim.Native.Nat.{ℕ, zero, suc, ◌≤◌, ◌<◌}
use phaselock.Prelude.{
  ◌≡◌, refl, true, false, Option, none, some, arith, length, take, drop, leb, length-drop,
  take-append-drop, Bool-cases, inl, inr,
}
use phaselock.Keys.{Key}
use phaselock.Layer.{Layer}
use phaselock.Overlay.{RTxn, ScanRequest, scan_all}

-- what is left to walk past a key, or from the start: a batch is its first entries, and `next` leads
-- to the others where the batch is full
pub record IsWalk {U : Type 0} (txn : RTxn U) (req : ScanRequest)
    (rest : Option Key → Layer (Option U)) : Type 0 where
  pub short :
      (after : Option Key)
      → leb req.limit (length (rest after)) ≡ false
      → txn.scan (record req { after = after })
        ≡ some (record { entries = rest after; next = none })
  pub full :
      (after : Option Key)
      → leb req.limit (length (rest after)) ≡ true
      → (k : Key) × (txn.scan (record req { after = after })
          ≡ some (record { entries = take req.limit (rest after); next = some k }))
        × (rest (some k) ≡ drop req.limit (rest after))

-- Over a base whose scans walk what is left past a key, a batch short of the limit ending the walk
-- and a full one naming a key past which the others follow, and for a limit of at least 1, scanAll
-- ends on any fuel above the number of entries left, with exactly those entries in order.
pub scan_all_lem :
    {U : Type 0} (txn : RTxn U) (req : ScanRequest) (rest : Option Key → Layer (Option U))
    → IsWalk txn req rest
    → 1 ≤ req.limit
    → (fuel : ℕ) (after : Option Key) → length (rest after) < fuel
    → scan_all fuel txn req after ≡ some (rest after)
unfolding scan_all
scan_all_lem txn req rest h l zero after f = ground arith
scan_all_lem txn req rest h l (suc fuel) after f =
    elim (Bool-cases (leb req.limit (length (rest after)))) [
      | inl e ↦
          let (k, answer, left) = h.full after e in
          rw
            (
              answer,
              scan_all_lem txn req rest h l fuel (some k)
                  (rw (left, length-drop req.limit (rest after)) (ground arith)),
              left,
              take-append-drop req.limit (rest after),
            )
            refl
      | inr e ↦ rw (h.short after e) refl
    ]
