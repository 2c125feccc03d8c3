-- ===== src/Msgpack/Measure/Bounds.antt =====
-- What `measure` answers lies between the cursor and the end of the buffer, on any bytes.
use phaselock.Prelude.{
  ℕ, zero, suc, ◌+◌, ◌-◌, ◌≤◌, ◌<◌, ◌≡◌, refl, List, false, leb, Option, none, some, arith, ◌∙◌,
  Bool-cases, inl, inr,
}
use phaselock.Msgpack.{Result, ok, thrown, ◌>>=◌}
use phaselock.Msgpack.Measure.{round, more, measure_loop, measure}
use phaselock.Msgpack.Measure.Fuel.{round-advances, measure_loop-eq}

-- a round, and then the loop
more-bounds :
    (f : ℕ → ℕ → Result (Option ℕ)) (pos end pending e : ℕ) (step : Result (Option (ℕ × ℕ)))
    → ((next children : ℕ) → step ≡ ok (some (next, children)) → (pos < next) × (next ≤ end))
    → ((next q : ℕ) → next ≤ end → f next q ≡ ok (some e) → (next ≤ e) × (e ≤ end))
    → (step >>= more f pending) ≡ ok (some e)
    → (pos < e) × (e ≤ end)
more-bounds f pos end pending e (thrown x) h k eq = absurd (cc eq)
more-bounds f pos end pending e (ok none) h k eq = absurd (cc eq)
more-bounds f pos end pending e (ok (some (next, c))) h k eq =
    let a = h next c refl in omega (arith, a, k next (pending + c - 1) a.1 eq)

opened :
    (fuel : ℕ) (buf : List ℕ) (pos end p e : ℕ)
    → leb end pos ≡ false
    → measure_loop (suc fuel) buf pos end (suc p) ≡ ok (some e)
    → (round buf pos end >>= more (λ (x q : ℕ). measure_loop fuel buf x end q) (suc p))
      ≡ ok (some e)
unfolding measure_loop
opened fuel buf pos end p e y eq = ground arith

step-bounds :
    (fuel : ℕ) (buf : List ℕ) (pos end p e : ℕ)
    → ((next q : ℕ)
        → next ≤ end
        → measure_loop fuel buf next end q ≡ ok (some e)
        → (next ≤ e) × (e ≤ end))
    → measure_loop (suc fuel) buf pos end (suc p) ≡ ok (some e)
    → (pos < e) × (e ≤ end)
unfolding measure_loop
step-bounds fuel buf pos end p e again eq = elim (Bool-cases (leb end pos)) [
  | inl y ↦ absurd (ground arith)
  | inr y ↦
      more-bounds (λ (x q : ℕ). measure_loop fuel buf x end q) pos end (suc p) e (round buf pos end)
        (λ next c s. round-advances buf pos end s) again (opened fuel buf pos end p e y eq)
]

loop-bounds :
    (fuel : ℕ) (buf : List ℕ) (pos end pending e : ℕ)
    → pos ≤ end
    → measure_loop fuel buf pos end pending ≡ ok (some e)
    → (pos ≤ e) × (e ≤ end)
unfolding measure_loop
loop-bounds zero buf pos end pending e h eq = ground arith
loop-bounds (suc fuel) buf pos end zero e h eq = ground arith
loop-bounds (suc fuel) buf pos end (suc p) e h eq =
    let again =
      λ (next q : ℕ) (k : next ≤ end) (s : measure_loop fuel buf next end q ≡ ok (some e)).
        loop-bounds fuel buf next end q e k s in
    omega (arith, step-bounds fuel buf pos end p e again eq)

-- On any bytes, an offset that measure answers lies past the cursor and not past the end.
pub measure_bounds :
    (buf : List ℕ) (pos end e : ℕ) → measure buf pos end ≡ ok (some e) → (pos < e) × (e ≤ end)
unfolding measure
measure_bounds buf pos end e eq =
    let left = end - pos in
    step-bounds left buf pos end 0 e (λ next q k s. loop-bounds left buf next end q e k s)
      (measure_loop-eq (suc left) left buf pos end 1 (omega arith) (omega arith) ∙ eq)
