-- ===== src/Pattern/Values.antt =====
-- A value field admits exactly the values that its match on the parameter asks for.
use phaselock.Prelude.{
  ℕ, ◌≡◌, inl, inr, refl, List, [], ◌∷◌, Bool, true, false, ◌&&◌, Option, none, some, if◌then◌else◌,
  All, arith, Bool-cases, Option-cases, ◌∙◌,
}
use phaselock.Keys.{Key, prefix_end, starts_with, key_eq}
use phaselock.Keys.Order.{IsKey, order_refl, order-eq}
use phaselock.Keys.Sorted.{key_eq_iff, key_eq_refl}
use phaselock.Keys.Prefix.{prefix_end_lem, prefix_end-IsKey}
use phaselock.Keys.CodePoints.{IsScalar, encode, encode-IsKey}
use phaselock.Pattern.{
  ParamMatch, any, eq, prefix, range, value_field, unbounded, tighter_lo, tighter_hi,
}
use phaselock.Pattern.Place.{is_short, is_past}
use phaselock.Pattern.Takes.{admits}
use phaselock.Pattern.Bounds.{
  at_least, over, at_most, under, lower, upper, OptIsKey, admits_bounds, tighter_lo_lem,
  tighter_hi_lem,
}

-- What each kind of match asks of a value.
abbrev pub satisfies : ParamMatch → Key → Bool
satisfies any v = true
satisfies (eq e) v = key_eq e v
satisfies (prefix p) v = starts_with p v
satisfies (range gte gt lte lt) v = (at_least gte v && over gt v) && (at_most lte v && under lt v)

-- A text of whole code points, with no half of a surrogate pair alone.
abbrev pub IsText : Key → Type 0
IsText k = (cs : List ℕ) × All IsScalar cs × (k ≡ encode cs)

abbrev pub OptIsText : Option Key → Type 0
OptIsText none = Unit
OptIsText (some k) = IsText k

abbrev pub MatchIsText : ParamMatch → Type 0
MatchIsText any = Unit
MatchIsText (eq e) = IsText e
MatchIsText (prefix p) = IsText p
MatchIsText (range gte gt lte lt) = OptIsText gte × OptIsText gt × OptIsText lte × OptIsText lt

IsText-IsKey : (k : Key) → IsText k → IsKey k
IsText-IsKey k (cs, h, e) = rw e (encode-IsKey cs h)

OptIsText-OptIsKey : (o : Option Key) → OptIsText o → OptIsKey o
OptIsText-OptIsKey none h = tt
OptIsText-OptIsKey (some k) h = IsText-IsKey k h

prefix_end-OptIsKey : (cs : List ℕ) → All IsScalar cs → OptIsKey (prefix_end (encode cs))
prefix_end-OptIsKey cs h = elim (Option-cases (prefix_end (encode cs))) [
  | inl e ↦ rw e tt
  | inr (k, e) ↦ rw e (prefix_end-IsKey cs k h e)
]

eq-bounds :
    (e v : Key)
    → IsKey e
    → IsKey v
    → (lower (some e) false v && upper (some e) false v) ≡ key_eq e v
eq-bounds e v h k = elim (Bool-cases (key_eq e v)) [
  | inl t ↦ rw (key_eq_iff e v t) (ground (arith, order_refl v, key_eq_refl v))
  | inr t ↦ ground (arith, order-eq v e k h, key_eq_refl v)
]

prefix_bounds :
    (p v : Key)
    → IsText p
    → IsText v
    → (lower (some p) false v && upper (prefix_end p) true v) ≡ starts_with p v
prefix_bounds p v (cs, h, e) (ds, k, e') = rw (e, e') (ground (arith, prefix_end_lem cs ds h k))

prefix-OptIsKey : (p : Key) → IsText p → OptIsKey (prefix_end p)
prefix-OptIsKey p (cs, h, e) = rw e (prefix_end-OptIsKey cs h)

unbounded_lem : (sep : Option ℕ) (v : Key) → admits (unbounded sep) v ≡ true
unfolding is_short is_past
unbounded_lem sep v = refl

and_cong : {a b c d : Bool} → a ≡ b → c ≡ d → (a && c) ≡ (b && d)
and_cong e e' = cc

if-OptIsKey :
    (b : Bool) (x y : Option Key) → OptIsKey x → OptIsKey y → OptIsKey (if b then x else y)
if-OptIsKey true x y h k = h
if-OptIsKey false x y h k = k

-- For a match and a value of whole code points, the bounds and the comparison of the compiled
-- value field admit the value exactly when the match asks for it: the value equals, starts with
-- the prefix, or keeps all the bounds of the range in key order.
pub admits-value_field :
    (m : ParamMatch) (sep : Option ℕ) (v : Key)
    → MatchIsText m
    → IsText v
    → admits (value_field m sep) v ≡ satisfies m v
unfolding value_field starts_with
admits-value_field any sep v h k = unbounded_lem sep v
admits-value_field (eq e) sep v h k =
    let he = IsText-IsKey e h in
    let hv = IsText-IsKey v k in
    admits_bounds (value_field (eq e) sep) (some e) (some e) v refl he he hv ∙ eq-bounds e v he hv
admits-value_field (prefix []) sep v h k = unbounded_lem sep v
admits-value_field (prefix (c ∷ p)) sep v h k =
    let hv = IsText-IsKey v k in
    admits_bounds (value_field (prefix (c ∷ p)) sep) (some (c ∷ p)) (prefix_end (c ∷ p)) v refl
      (IsText-IsKey (c ∷ p) h) (prefix-OptIsKey (c ∷ p) h) hv
    ∙ prefix_bounds (c ∷ p) v h k
admits-value_field (range gte gt lte lt) sep v h k =
    let hv = IsText-IsKey v k in
    let (gte_key, gt_key, lte_key, lt_key) =
      let t : OptIsKey gte × OptIsKey gt × OptIsKey lte × OptIsKey lt = (
        OptIsText-OptIsKey gte h.0,
        OptIsText-OptIsKey gt h.1,
        OptIsText-OptIsKey lte h.2,
        OptIsText-OptIsKey lt h.3,
      ) in
      t in
    admits_bounds (value_field (range gte gt lte lt) sep) (if tighter_lo gt gte then gt else gte)
      (if tighter_hi lt lte then lt else lte) v refl
      (if-OptIsKey (tighter_lo gt gte) gt gte gt_key gte_key)
      (if-OptIsKey (tighter_hi lt lte) lt lte lt_key lte_key) hv
    ∙ and_cong (tighter_lo_lem gt gte v gt_key gte_key hv)
        (tighter_hi_lem lt lte v lt_key lte_key hv)
