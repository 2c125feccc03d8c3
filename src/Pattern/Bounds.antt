-- ===== src/Pattern/Bounds.antt =====
-- What the bounds of a value field admit, and why a range keeps the tighter of each pair.
use phaselock.Prelude.{
  ◌≡◌, inl, inr, refl, [], ◌∷◌, Bool, true, false, ◌&&◌, not, Option, none, some, if◌then◌else◌,
  arith, Bool-cases, is_neg, is_pos,
}
use phaselock.Keys.{Key, compare_keys, exact_for}
use phaselock.Keys.Order.{IsKey, order-flip, order-eq, ≺_trans}
use phaselock.Keys.Exact.{exact_for-eq-order}
use phaselock.Pattern.{ValueField, tighter_lo, tighter_hi}
use phaselock.Pattern.Place.{is_short, is_past}

-- The bounds of a range, by the order of keys.
abbrev pub at_least : Option Key → Key → Bool
at_least none v = true
at_least (some b) v = not (is_neg (compare_keys v b))

abbrev pub over : Option Key → Key → Bool
over none v = true
over (some b) v = is_pos (compare_keys v b)

abbrev pub at_most : Option Key → Key → Bool
at_most none v = true
at_most (some b) v = not (is_pos (compare_keys v b))

abbrev pub under : Option Key → Key → Bool
under none v = true
under (some b) v = is_neg (compare_keys v b)

abbrev pub OptIsKey : Option Key → Type 0
OptIsKey none = Unit
OptIsKey (some k) = IsKey k

abbrev pub lower : Option Key → Bool → Key → Bool
lower o open_ v = if open_ then over o v else at_least o v

abbrev pub upper : Option Key → Bool → Key → Bool
upper o open_ v = if open_ then under o v else at_most o v

pub admits_bounds :
    (f : ValueField) (lo hi : Option Key) (v : Key)
    → f.cmp ≡ exact_for (lo ∷ hi ∷ [])
    → OptIsKey lo
    → OptIsKey hi
    → IsKey v
    → (not (is_short f lo v) && not (is_past f hi v))
      ≡ (lower lo f.lo_open v && upper hi f.hi_open v)
unfolding is_short is_past
admits_bounds f none none v e hl hh hv = ground arith
admits_bounds f (some lo) none v e hl hh hv =
    rw e (ground (arith, exact_for-eq-order (some lo ∷ none ∷ []) v lo hv hl (inr (inl refl))))
admits_bounds f none (some hi) v e hl hh hv =
    rw e
      (ground (arith, exact_for-eq-order (none ∷ some hi ∷ []) v hi hv hh (inr (inr (inl refl)))))
admits_bounds f (some lo) (some hi) v e hl hh hv = rw e (
    ground (
      arith,
      exact_for-eq-order (some lo ∷ some hi ∷ []) v lo hv hl (inr (inl refl)),
      exact_for-eq-order (some lo ∷ some hi ∷ []) v hi hv hh (inr (inr (inl refl))),
    ))

-- A key at or above a second one, and one above the first, are above the second.
over-at_least :
    (a b v : Key)
    → IsKey a
    → IsKey b
    → IsKey v
    → is_neg (compare_keys a b) ≡ false
    → is_pos (compare_keys v a) ≡ true
    → is_neg (compare_keys v b) ≡ false
over-at_least a b v ha hb hv h k = ground (
  arith,
  order-flip v a hv ha,
  order-flip v b hv hb,
  order-flip a b ha hb,
  order-eq a b ha hb,
  ≺_trans b a v hb ha hv,
)

over-below :
    (a b v : Key)
    → IsKey a
    → IsKey b
    → IsKey v
    → is_neg (compare_keys a b) ≡ true
    → is_neg (compare_keys v b) ≡ false
    → is_pos (compare_keys v a) ≡ true
over-below a b v ha hb hv h k =
    ground (
      arith,
      order-flip v a hv ha,
      order-flip v b hv hb,
      order-eq v b hv hb,
      ≺_trans a b v ha hb hv,
    )

under-at_most :
    (a b v : Key)
    → IsKey a
    → IsKey b
    → IsKey v
    → is_pos (compare_keys a b) ≡ false
    → is_neg (compare_keys v a) ≡ true
    → is_pos (compare_keys v b) ≡ false
under-at_most a b v ha hb hv h k =
    ground (
      arith,
      order-flip v b hv hb,
      order-flip a b ha hb,
      order-eq a b ha hb,
      ≺_trans v a b hv ha hb,
    )

under-above :
    (a b v : Key)
    → IsKey a
    → IsKey b
    → IsKey v
    → is_pos (compare_keys a b) ≡ true
    → is_pos (compare_keys v b) ≡ false
    → is_neg (compare_keys v a) ≡ true
under-above a b v ha hb hv h k =
    ground (
      arith,
      order-flip a b ha hb,
      order-flip v b hv hb,
      order-eq v b hv hb,
      ≺_trans v b a hv hb ha,
    )

pub tighter_lo_lem :
    (gt gte : Option Key) (v : Key)
    → OptIsKey gt
    → OptIsKey gte
    → IsKey v
    → lower (if tighter_lo gt gte then gt else gte) (tighter_lo gt gte) v
      ≡ (at_least gte v && over gt v)
unfolding tighter_lo
tighter_lo_lem none gte v h k hv = ground arith
tighter_lo_lem (some gt) none v h k hv = refl
tighter_lo_lem (some gt) (some gte) v h k hv = elim (Bool-cases (is_neg (compare_keys gt gte))) [
  | inl e ↦ rw e (ground (arith, over-below gt gte v h k hv e))
  | inr e ↦ rw e (ground (arith, over-at_least gt gte v h k hv e))
]

pub tighter_hi_lem :
    (lt lte : Option Key) (v : Key)
    → OptIsKey lt
    → OptIsKey lte
    → IsKey v
    → upper (if tighter_hi lt lte then lt else lte) (tighter_hi lt lte) v
      ≡ (at_most lte v && under lt v)
unfolding tighter_hi
tighter_hi_lem none lte v h k hv = ground arith
tighter_hi_lem (some lt) none v h k hv = refl
tighter_hi_lem (some lt) (some lte) v h k hv = elim (Bool-cases (is_pos (compare_keys lt lte))) [
  | inl e ↦ rw e (ground (arith, under-above lt lte v h k hv e))
  | inr e ↦ rw e (ground (arith, under-at_most lt lte v h k hv e))
]
