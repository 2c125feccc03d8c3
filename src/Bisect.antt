-- ===== src/Bisect.antt =====
-- `bisect` of typespec/ts/assets/skeleton.ts.
use phaselock.Prelude.{
  ℕ, zero, suc, ◌+◌, ◌-◌, ◌/◌, ◌%◌, ◌≤◌, ◌<◌, ◌≡◌, Bool, ltb, arith, if◌then◌else◌,
}

-- `>>> 1` works on 32 bits
abbrev pub midpoint : ℕ → ℕ → ℕ
midpoint lo hi = (lo + hi) % 4294967296 / 2

-- The loop, on fuel: each round shortens hi - lo.
unfoldable pub bisect_loop : ℕ → (ℕ → Bool) → ℕ → ℕ → ℕ
bisect_loop zero before lo hi = lo
bisect_loop (suc fuel) before lo hi =
    let mid = midpoint lo hi in
    let upper = bisect_loop fuel before (mid + 1) hi in
    let lower = bisect_loop fuel before lo mid in
    if ltb lo hi then (if before mid then upper else lower) else lo

unfoldable pub bisect : ℕ → (ℕ → Bool) → ℕ
unfolding bisect_loop
bisect n before = bisect_loop n before 0 n

bisect_loop_lem :
    (fuel : ℕ) (before : ℕ → Bool) (lo hi c : ℕ)
    → hi - lo ≤ fuel
    → lo ≤ c
    → c ≤ hi
    → hi ≤ 2147483648
    → ((i : ℕ) → i < hi → before i ≡ ltb i c)
    → bisect_loop fuel before lo hi ≡ c
unfolding bisect_loop
bisect_loop_lem zero before lo hi c f l u small h = omega arith
bisect_loop_lem (suc fuel) before lo hi c f l u small h = ground (
  arith,
  h (midpoint lo hi),
  bisect_loop_lem fuel before (midpoint lo hi + 1) hi c,
  λ (f' : midpoint lo hi - lo ≤ fuel) (u' : c ≤ midpoint lo hi) (s' : midpoint lo hi ≤ hi).
      bisect_loop_lem fuel before lo (midpoint lo hi) c f' l u' (omega arith)
        (λ i k. h i (omega arith)),
)

-- Where the test is true exactly below c, for c up to a length of at most 2^31, the binary search
-- answers c.
pub bisect_lem :
    (n : ℕ) (before : ℕ → Bool) (c : ℕ)
    → n ≤ 2147483648
    → c ≤ n
    → ((i : ℕ) → i < n → before i ≡ ltb i c)
    → bisect n before ≡ c
unfolding bisect
bisect_lem n before c small u h =
    bisect_loop_lem n before 0 n c (omega arith) (omega arith) u small h
