-- ===== src/Msgpack/Measure/Fuel.antt =====
-- The loop of `measure` ends: each round passes a byte, so the bytes that are left are fuel enough.
use phaselock.Prelude.{
  ℕ, zero, suc, ◌+◌, ◌-◌, ◌≤◌, ◌<◌, ◌≡◌, refl, List, if◌then◌else◌, leb, ◌==◌, get_or, drop, Option,
  none, some, arith, ap, ◌∙◌, sym, inl, inr, Option-cases,
}
use phaselock.Msgpack.{Result, ok, thrown, ◌>>=◌}
use phaselock.Msgpack.Measure.{
  Head, head_of, read_head, round, more, measure_loop, known, pass, with_length,
}

ok_inj {ℓ} : {A : Type ℓ} {a b : A} → ok a ≡ ok b → a ≡ b
ok_inj e = cc

-- the least size of a head
head_of-positive : (b : ℕ) {h : Head} → head_of b ≡ some h → 0 < h.header
unfolding head_of
head_of-positive b e = ground arith

with_length-positive :
    (h : Head) (n : ℕ) → 0 < h.header → 0 < h.len_bytes → 0 < (with_length h h.body n).header
with_length-positive h n p q = ground arith

pass-advances :
    (pos end : ℕ) (h : Head) {next children : ℕ}
    → 0 < h.header
    → pass pos end h ≡ some (next, children)
    → (pos < next) × (next ≤ end)
pass-advances pos end h p e = ground arith

read_head-advances :
    (buf : List ℕ) (pos end : ℕ) (h : Head) {next children : ℕ}
    → 0 < h.header
    → read_head buf pos end h ≡ some (next, children)
    → (pos < next) × (next ≤ end)
unfolding read_head
read_head-advances buf pos end h p e = ground arith

pub round-advances :
    (buf : List ℕ) (pos end : ℕ) {next children : ℕ}
    → round buf pos end ≡ ok (some (next, children))
    → (pos < next) × (next ≤ end)
unfolding round
round-advances buf pos end e =
    let b = get_or (drop pos buf) 0 0 in
    elim (Option-cases (head_of b)) [
      | inl z ↦ absurd (cc (ap (known buf pos end b) z))
      | inr (h, z) ↦
          read_head-advances buf pos end h (head_of-positive b z)
            (ok_inj (sym (ap (known buf pos end b) z) ∙ e))
    ]

-- the rounds left agree where their fuel does
same_rest :
    (f g : ℕ → ℕ → Result (Option ℕ)) (pending : ℕ) (step : Result (Option (ℕ × ℕ)))
    → ((next children : ℕ) → step ≡ ok (some (next, children)) → (q : ℕ) → f next q ≡ g next q)
    → (step >>= more f pending) ≡ (step >>= more g pending)
same_rest f g pending (thrown e) h = refl
same_rest f g pending (ok none) h = refl
same_rest f g pending (ok (some (next, children))) h = h next children refl (pending + children - 1)

pub measure_loop-eq :
    (m n : ℕ) (buf : List ℕ) (pos end pending : ℕ)
    → end - pos ≤ m
    → end - pos ≤ n
    → measure_loop m buf pos end pending ≡ measure_loop n buf pos end pending
unfolding measure_loop
measure_loop-eq zero zero buf pos end pending h k = refl
measure_loop-eq zero (suc n) buf pos end pending h k = ground arith
measure_loop-eq (suc m) zero buf pos end pending h k = ground arith
measure_loop-eq (suc m) (suc n) buf pos end pending h k =
    ap (λ rest. if pending == 0 then ok (some pos) else if leb end pos then ok none else rest)
      (same_rest _ _ pending (round buf pos end) λ next children e q.
        let a = round-advances buf pos end e in
        measure_loop-eq m n buf next end q (omega (arith, a)) (omega (arith, a)))
