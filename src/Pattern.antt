-- ===== src/Pattern.antt =====
-- Key patterns of typespec/ts/assets/skeleton.ts and what they compile to: `ParamMatch`,
-- `KeyPattern`, `valueField` and `compilePattern`. The children place keys against them.
pub mod Place
pub mod Takes
pub mod Matches
pub mod Bounds
pub mod Values
pub mod Targets
use mathlib.Core.Option
use phaselock.Prelude.{
  ℕ, suc, ◌+◌, ◌-◌, ◌%◌, List, [], ◌∷◌, ◌++◌, Bool, true, false, ◌&&◌, ◌||◌, not, Option, none,
  some, if◌then◌else◌, length, ltb, ◌==◌, take, drop, ℤ, is_neg, is_zero, is_pos,
}
use phaselock.Keys.{Key, compare_keys, unit_compare, exact_for, prefix_end, starts_with}

pub data ParamMatch : Type 0 where
  any : ParamMatch
  eq : Key → ParamMatch
  prefix : Key → ParamMatch
  -- gte, gt, lte, lt
  range : Option Key → Option Key → Option Key → Option Key → ParamMatch

pub data SliceMatch : Type 0 where
  every : SliceMatch
  named : Key → SliceMatch
  family : Key → List ParamMatch → SliceMatch

-- `local` is spelled `locals`
pub record KeyPattern : Type 0 where
  pub slice : SliceMatch
  pub name : Option Key
  pub locals : List ParamMatch

pub record ValueField : Type 0 where
  pub lo : Option Key
  pub lo_open : Bool
  pub hi : Option Key
  pub hi_open : Bool
  pub cmp : Key → Key → ℤ
  pub single : Bool
  -- the separator's unit, `none` for ''
  pub sep : Option ℕ

pub data Field : Type 0 where
  value : ValueField → Field
  literal : Key → Bool → Field

pub record CompiledPattern : Type 0 where
  pub head : Key
  pub fields : List Field

abbrev pub unbounded : Option ℕ → ValueField
unbounded sep = record {
  lo = none;
  lo_open = false;
  hi = none;
  hi_open = false;
  cmp = unit_compare;
  single = false;
  sep = sep;
}

-- `m.gt !== undefined && (f.lo === undefined || compareKeys(m.gt, f.lo) >= 0)`
unfoldable pub tighter_lo : Option Key → Option Key → Bool
tighter_lo none lo = false
tighter_lo (some gt) none = true
tighter_lo (some gt) (some lo) = not (is_neg (compare_keys gt lo))

unfoldable pub tighter_hi : Option Key → Option Key → Bool
tighter_hi none hi = false
tighter_hi (some lt) none = true
tighter_hi (some lt) (some hi) = not (is_pos (compare_keys lt hi))

-- the comparison, exact against the bounds
abbrev pub with_cmp : ValueField → ValueField
with_cmp f = record f { cmp = exact_for (f.lo ∷ f.hi ∷ []) }

unfoldable pub value_field : ParamMatch → Option ℕ → ValueField
unfolding tighter_lo tighter_hi
value_field any sep = unbounded sep
value_field (eq v) sep =
    with_cmp (record (unbounded sep) { lo = some v; hi = some v; single = true })
value_field (prefix []) sep = unbounded sep
value_field (prefix (c ∷ p)) sep =
    with_cmp (record (unbounded sep) { lo = some (c ∷ p); hi = prefix_end (c ∷ p); hi_open = true })
value_field (range gte gt lte lt) sep = with_cmp (record (unbounded sep) {
  lo = if tighter_lo gt gte then gt else gte;
  lo_open = tighter_lo gt gte;
  hi = if tighter_hi lt lte then lt else lte;
  hi_open = tighter_hi lt lte;
})

-- a value field for each parameter, a comma between them and `last` after the last one
unfoldable pub param_fields : List ParamMatch → Option ℕ → List Field
unfolding value_field
param_fields [] last = []
param_fields (m ∷ []) last = value (value_field m last) ∷ []
param_fields (m ∷ n ∷ ms) last = value (value_field m (some b',')) ∷ param_fields (n ∷ ms) last

-- every local key of the slices, or one template's, its name a literal
unfoldable pub local_fields : Option Key → List ParamMatch → Option (List Field)
unfolding param_fields
local_fields none [] = some []
local_fields none (m ∷ ms) = none
local_fields (some name) [] = some (literal name true ∷ [])
local_fields (some name) (m ∷ ms) =
    some (literal (name ++ b':' ∷ []) false ∷ param_fields (m ∷ ms) none)

abbrev compiled : Key → List Field → Option (List Field) → Option CompiledPattern
compiled head slice none = none
compiled head slice (some locals) = some (record { head = head; fields = slice ++ locals })

-- `none` is the error thrown for a pattern that matches parameters of no template.
unfoldable pub compile_slice : SliceMatch → Option Key → List ParamMatch → Option CompiledPattern
unfolding local_fields
compile_slice every none [] = some (record { head = []; fields = [] })
compile_slice every _ _ = none
compile_slice (named s) name locals = compiled (s ++ b'!' ∷ []) [] (local_fields name locals)
compile_slice (family s []) name locals = compiled (s ++ b'!' ∷ []) [] (local_fields name locals)
compile_slice (family s (m ∷ ms)) name locals =
    compiled (s ++ b':' ∷ []) (param_fields (m ∷ ms) (some b'!')) (local_fields name locals)

unfoldable pub compile_pattern : KeyPattern → Option CompiledPattern
unfolding compile_slice
compile_pattern p = compile_slice p.slice p.name p.locals
