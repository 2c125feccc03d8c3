-- ===== src/Msgpack/Writer/Errors.antt =====
-- What `Writer.any` throws, and when: the first thing that has no form, in the order of writing.
use phaselock.Prelude.{
  ℕ, zero, suc, ◌≡◌, refl, if◌then◌else◌, Option, none, some, ap, ◌∙◌, Bool-cases, inl, inr,
}
use phaselock.Msgpack.{Error, too_deep, no_form, Result, ok, thrown, ◌>>=◌, Vendor}
use phaselock.Msgpack.Value.{Value, Items, Fields, count_items, count_fields, defined, is_defined}
use phaselock.Msgpack.Writer.{
  Writer, any, any_items, any_fields, str, nil, bool, number, timestamp, array_header, map_header,
}

abbrev or_else : Option Error → Option Error → Option Error
or_else (some e) o = some e
or_else none o = o

-- The first problem of a value with so many levels left: it is nested deeper, or a value in it has no
-- form. Fields that hold undefined are not looked at.
unfoldable mutual
  pub problem : ℕ → Value → Option Error
  problem zero x = some too_deep
  problem (suc n) Value.undefined = none
  problem (suc n) Value.null = none
  problem (suc n) (Value.boolean b) = none
  problem (suc n) (Value.number z) = none
  problem (suc n) (Value.string s) = none
  problem (suc n) (Value.date d) = none
  problem (suc n) (Value.array xs) = items_problem n xs
  problem (suc n) (Value.object fs) = fields_problem n fs
  problem (suc n) Value.other = some no_form

  pub items_problem : ℕ → Items → Option Error
  items_problem n Items.no_items = none
  items_problem n (Items.item x xs) = or_else (problem n x) (items_problem n xs)

  pub fields_problem : ℕ → Fields → Option Error
  fields_problem n Fields.no_fields = none
  fields_problem n (Fields.field k x fs) =
      let rest = fields_problem n fs in if is_defined x then or_else (problem n x) rest else rest

-- A run ends with this problem, or with a writer if there is none.
pub EndsWith : Option Error → Result Writer → Type 0
EndsWith none run = (w : Writer) × (run ≡ ok w)
EndsWith (some e) run = run ≡ thrown e

EndsWith-then :
    (p q : Option Error) (run : Result Writer) (f : Writer → Result Writer)
    → EndsWith p run
    → ((w : Writer) → EndsWith q (f w))
    → EndsWith (or_else p q) (run >>= f)
unfolding EndsWith
EndsWith-then (some e) q run f h k = ap (λ m. m >>= f) h
EndsWith-then none none run f (w, h) k = let (u, g) = k w in (u, ap (λ m. m >>= f) h ∙ g)
EndsWith-then none (some e) run f (w, h) k = ap (λ m. m >>= f) h ∙ k w

module _ (v : Vendor) where
  Ends : ℕ → Type 0
  Ends n = (x : Value) (w : Writer) → EndsWith (problem n x) (any v n x w)

  items-EndsWith :
      (n : ℕ)
      → Ends n
      → (xs : Items) (w : Writer) → EndsWith (items_problem n xs) (any_items v (any v n) xs w)
  unfolding problem any_items EndsWith Ends
  items-EndsWith n ih Items.no_items w = (w, refl)
  items-EndsWith n ih (Items.item x xs) w =
      EndsWith-then (problem n x) (items_problem n xs) _ _ (ih x w) (λ u. items-EndsWith n ih xs u)

  fields-EndsWith :
      (n : ℕ)
      → Ends n
      → (fs : Fields) (w : Writer)
      → EndsWith (fields_problem n fs) (any_fields v (any v n) (defined fs) w)
  unfolding problem any_fields EndsWith Ends defined
  fields-EndsWith n ih Fields.no_fields w = (w, refl)
  fields-EndsWith n ih (Fields.field k x fs) w = elim (Bool-cases (is_defined x)) [
    | inl e ↦ rw e (
        EndsWith-then (problem n x) (fields_problem n fs) _ _ (ih x (str v k w))
          (λ u. fields-EndsWith n ih fs u))
    | inr e ↦ rw e (fields-EndsWith n ih fs w)
  ]

  -- Writer.any throws exactly if its value has a problem: the first value in the order of writing
  -- that is nested too deep for the levels left, or that has no form; which of the two it is, is
  -- the error thrown. Without a problem it ends with a writer. Fields that hold undefined are not
  -- looked at.
  pub any-problem : (n : ℕ) (x : Value) (w : Writer) → EndsWith (problem n x) (any v n x w)
  unfolding problem any EndsWith Ends
  any-problem zero x w = refl
  any-problem (suc n) Value.undefined w = (nil w, refl)
  any-problem (suc n) Value.null w = (nil w, refl)
  any-problem (suc n) (Value.boolean b) w = (bool b w, refl)
  any-problem (suc n) (Value.number z) w = (number v z w, refl)
  any-problem (suc n) (Value.string s) w = (str v s w, refl)
  any-problem (suc n) (Value.date d) w = (timestamp v d w, refl)
  any-problem (suc n) (Value.array xs) w =
      items-EndsWith n (any-problem n) xs (array_header (count_items xs) w)
  any-problem (suc n) (Value.object fs) w =
      fields-EndsWith n (any-problem n) fs (map_header (count_fields (defined fs)) w)
  any-problem (suc n) Value.other w = refl
