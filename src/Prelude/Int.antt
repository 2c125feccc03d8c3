-- ===== src/Prelude/Int.antt =====
-- The numbers that a JavaScript comparison answers: integers, of which callers read the sign only.
use Prim.Native.Nat.{ℕ, zero, suc, ◌-◌, Ordering, compare}
use mathlib.Core.Path.{◌≡◌}
use mathlib.Core.Bool.{Bool, true, false}
use native.Mathlib.Omega.{arith}
use phaselock.Prelude.Tests.{leb, if◌then◌else◌}

-- `negsuc n` is -(n + 1).
pub data ℤ : Type 0 where
  pos : ℕ → ℤ
  negsuc : ℕ → ℤ

-- a - b, as an integer.
abbrev pub sub_ℕ : ℕ → ℕ → ℤ
sub_ℕ a b = if leb b a then pos (a - b) else negsuc (b - a - 1)

abbrev pub sign : ℤ → Ordering
sign (pos zero) = Ordering.eq
sign (pos (suc n)) = Ordering.gt
sign (negsuc n) = Ordering.lt

-- d < 0
abbrev pub is_neg : ℤ → Bool
is_neg d = elim (sign d) [ Ordering.lt ↦ true | _ ↦ false ]

-- d === 0
abbrev pub is_zero : ℤ → Bool
is_zero d = elim (sign d) [ Ordering.eq ↦ true | _ ↦ false ]

-- d > 0
abbrev pub is_pos : ℤ → Bool
is_pos d = elim (sign d) [ Ordering.gt ↦ true | _ ↦ false ]

pub sign-sub_ℕ : (a b : ℕ) → sign (sub_ℕ a b) ≡ compare a b
sign-sub_ℕ a b = ground arith

-- An ordering read from the other side.
abbrev pub flip : Ordering → Ordering
flip Ordering.lt = Ordering.gt
flip Ordering.eq = Ordering.eq
flip Ordering.gt = Ordering.lt
