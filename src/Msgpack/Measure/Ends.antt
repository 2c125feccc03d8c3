-- ===== src/Msgpack/Measure/Ends.antt =====
-- `measure` finds the end of what `Writer.any` wrote, and `skip` and `view` with it.
use mathlib.Core.List.{append_assoc, append-nil}
use phaselock.Prelude.{
  ℕ, zero, suc, ◌+◌, ◌-◌, ◌*◌, ◌≤◌, ◌<◌, ◌≡◌, refl, List, [], ◌++◌, false, leb, Option, some, arith,
  ap, ◌∙◌, take, drop, length, length-append, ℤ, pos, negsuc, Bool-cases, inl, inr,
}
use phaselock.Keys.{Key}
use phaselock.Msgpack.{Result, ok, ◌>>=◌, Vendor, VendorLaws, whole, float, time, invalid}
use phaselock.Msgpack.Value.{Value, Items, Fields, count_items, count_fields, defined, is_defined}
use phaselock.Msgpack.Encode.{
  defined-le, encode, encode_items, encode_fields, IsWritable, ItemsWritable, FieldsWritable,
}
use phaselock.Msgpack.Forms
use phaselock.Msgpack.Reader.{Reader, advance, seek}
use phaselock.Msgpack.Reader.Laws.{At, At-advance, advance-advance, take-append_self}
use phaselock.Msgpack.Measure.{round, more, measure_loop, measure, skip, view}
use phaselock.Msgpack.Measure.Fuel.{measure_loop-eq}
use phaselock.Msgpack.Measure.Rounds.{
  Passes, array-Passes, map-Passes, bool-Passes, nil-Passes, float64-Passes, str-Passes, int-Passes,
  timestamp-Passes,
}

-- the loop at a reader's cursor
abbrev from : Reader → ℕ → Result (Option ℕ)
from r pending = measure_loop (r.end - r.at) r.buf r.at r.end pending

-- The loop passes these bytes as n values, whatever follows them and whatever else is pending.
abbrev Consumes : List ℕ → ℕ → Type 0
Consumes xs n =
    (r : Reader) (rest : List ℕ) (p : ℕ)
    → At r (xs ++ rest)
    → from r (n + p) ≡ from (advance (length xs) r) p

nothing-Consumes : Consumes [] 0
nothing-Consumes r rest p a =
    let e : 0 + p ≡ p = omega arith in let d : r.at + 0 ≡ r.at = omega arith in rw (e, d) refl

-- xs and ys in the order in which they stand
before : (xs ys rest : List ℕ) (r : Reader) → At r ((xs ++ ys) ++ rest) → At r (xs ++ (ys ++ rest))
before xs ys rest r a = rw (← append_assoc xs ys rest) a

Consumes-append :
    (xs ys : List ℕ) (m n : ℕ) → Consumes xs m → Consumes ys n → Consumes (xs ++ ys) (m + n)
Consumes-append xs ys m n h k r rest p a =
    let a' = before xs ys rest r a in
    let e : m + n + p ≡ m + (n + p) = omega arith in
    ap (from r) e
    ∙ h r (ys ++ rest) (n + p) a'
    ∙ k (advance (length xs) r) rest p (At-advance r xs (ys ++ rest) a')
    ∙ ap (λ u. from u p) (advance-advance xs ys r)

round-step :
    (r : Reader) (next c p : ℕ)
    → round r.buf r.at r.end ≡ ok (some (next, c))
    → r.at < r.end
    → r.at ≤ next
    → from r (1 + p) ≡ measure_loop (r.end - next) r.buf next r.end (c + p)
unfolding measure_loop
round-step r next c p e h k =
    let left = r.end - r.at in
    let one : 1 + p ≡ suc p = omega arith in
    let all : suc p + c - 1 ≡ c + p = omega arith in
    let open_ : leb r.end r.at ≡ false = ground arith in
    let opened : measure_loop (suc left) r.buf r.at r.end (suc p) ≡ (
        round r.buf r.at r.end >>= more (λ (x q : ℕ). measure_loop left r.buf x r.end q) (suc p)) =
      ground arith in
    ap (from r) one
    ∙ measure_loop-eq left (suc left) r.buf r.at r.end (suc p) (omega arith) (omega arith)
    ∙ opened
    ∙ ap (λ m. m >>= more (λ (x q : ℕ). measure_loop left r.buf x r.end q) (suc p)) e
    ∙ measure_loop-eq left (r.end - next) r.buf next r.end (suc p + c - 1) (omega arith)
        (omega arith)
    ∙ ap (measure_loop (r.end - next) r.buf next r.end) all

-- a head, then its children
children-Consumes :
    (xs ys : List ℕ) (n : ℕ) → 0 < length xs → Passes xs n → Consumes ys n → Consumes (xs ++ ys) 1
children-Consumes xs ys n l h k r rest p a =
    let a' = before xs ys rest r a in
    round-step r (r.at + length xs) n p (h r (ys ++ rest) a')
      (omega (arith, a'.ends, length-append {0} xs (ys ++ rest))) (omega arith)
    ∙ k (advance (length xs) r) rest p (At-advance r xs (ys ++ rest) a')
    ∙ ap (λ u. from u p) (advance-advance xs ys r)

leaf-Consumes : (xs : List ℕ) → 0 < length xs → Passes xs 0 → Consumes xs 1
leaf-Consumes xs l h =
    let t : Consumes (xs ++ []) 1 = children-Consumes xs [] 0 l h nothing-Consumes in
    rw (append-nil xs) at t

nothing_pending : (fuel : ℕ) (r : Reader) → measure_loop fuel r.buf r.at r.end 0 ≡ ok (some r.at)
unfolding measure_loop
nothing_pending zero r = refl
nothing_pending (suc fuel) r = refl

Passes-nonempty : (n fix wide : ℕ) → 0 < length (Forms.header n fix wide)
unfolding Forms.header
Passes-nonempty n fix wide = ground arith

array_header-nonempty : (n : ℕ) → 0 < length (Forms.array_header n)
unfolding Forms.array_header
array_header-nonempty n = Passes-nonempty n 0x90 0xdc

map_header-nonempty : (n : ℕ) → 0 < length (Forms.map_header n)
unfolding Forms.map_header
map_header-nonempty n = Passes-nonempty n 0x80 0xde

module _ (v : Vendor) where
  str-nonempty : (s : Key) → 0 < length (Forms.str v s)
  unfolding Forms.str Forms.str_header
  str-nonempty s = ground arith

  int-nonempty : (z : ℤ) → 0 < length (Forms.int v z)
  unfolding Forms.int
  int-nonempty (pos n) = ground arith
  int-nonempty (negsuc n) = ground arith

  spec-nonempty : (sec : ℤ) (nsec : ℕ) → 0 < length (Forms.spec v sec nsec)
  unfolding Forms.spec
  spec-nonempty (pos n) nsec = ground arith
  spec-nonempty (negsuc n) nsec = omega arith

  timestamp-nonempty : (ms : ℤ) → 0 < length (Forms.timestamp v ms)
  unfolding Forms.timestamp
  timestamp-nonempty ms = spec-nonempty (v.time_spec ms).0 (v.time_spec ms).1

module _ (v : Vendor) (l : VendorLaws v) where
  mutual
    unfolding encode IsWritable defined Forms.bool

    value-Consumes : (n : ℕ) (x : Value) → IsWritable v n x → Consumes (encode v x) 1
    value-Consumes n Value.undefined h = leaf-Consumes Forms.nil (omega arith) nil-Passes
    value-Consumes n Value.null h = leaf-Consumes Forms.nil (omega arith) nil-Passes
    value-Consumes n (Value.boolean b) h =
        leaf-Consumes (Forms.bool b) (omega arith) (bool-Passes b)
    value-Consumes n (Value.number (whole z)) h =
        leaf-Consumes (Forms.int v z) (int-nonempty v z) (int-Passes v l z)
    value-Consumes n (Value.number (float bs)) h =
        leaf-Consumes (Forms.float64 bs) (omega arith) (float64-Passes bs h.0)
    value-Consumes n (Value.string s) h =
        leaf-Consumes (Forms.str v s) (str-nonempty v s) (str-Passes v l s h.1)
    value-Consumes n (Value.date (time ms)) h =
        leaf-Consumes (Forms.timestamp v ms) (timestamp-nonempty v ms) (timestamp-Passes v l ms)
    value-Consumes n (Value.date invalid) h = absurd h
    value-Consumes n (Value.array xs) h =
        children-Consumes (Forms.array_header (count_items xs)) (encode_items v xs) (count_items xs)
          (array_header-nonempty (count_items xs)) (array-Passes (count_items xs) h.0)
          (items-Consumes n xs h.1)
    value-Consumes n (Value.object fs) h =
        let count = count_fields (defined fs) in
        children-Consumes (Forms.map_header count) (encode_fields v fs) (count * 2)
          (map_header-nonempty count) (map-Passes count (omega (arith, defined-le fs, h.0)))
          (fields-Consumes n fs h.1)
    value-Consumes n Value.other h = absurd h

    items-Consumes :
        (n : ℕ) (xs : Items) → ItemsWritable v n xs → Consumes (encode_items v xs) (count_items xs)
    items-Consumes n Items.no_items h = nothing-Consumes
    items-Consumes zero (Items.item x xs) h = absurd h
    items-Consumes (suc n) (Items.item x xs) h =
        let all =
          Consumes-append (encode v x) (encode_items v xs) 1 (count_items xs)
            (value-Consumes n x h.0) (items-Consumes (suc n) xs h.1) in
        let e : 1 + count_items xs ≡ suc (count_items xs) = omega arith in rw e at all

    fields-Consumes :
        (n : ℕ) (fs : Fields)
        → FieldsWritable v n fs
        → Consumes (encode_fields v fs) (count_fields (defined fs) * 2)
    fields-Consumes n Fields.no_fields h = nothing-Consumes
    fields-Consumes zero (Fields.field k x fs) h = absurd h
    fields-Consumes (suc n) (Fields.field k x fs) h = elim (Bool-cases (is_defined x)) [
      | inl e ↦
          let count = count_fields (defined fs) in
          let name = leaf-Consumes (Forms.str v k) (str-nonempty v k) (str-Passes v l k h.0.1) in
          let rest =
            Consumes-append (encode v x) (encode_fields v fs) 1 (count * 2) (value-Consumes n x h.1)
              (fields-Consumes (suc n) fs h.2) in
          let all =
            Consumes-append (Forms.str v k) (encode v x ++ encode_fields v fs) 1 (1 + count * 2)
              name rest in
          let d : 1 + (1 + count * 2) ≡ suc count * 2 = omega arith in rw e (rw d at all)
      | inr e ↦ rw e (fields-Consumes (suc n) fs h.2)
    ]

  -- With a vendor that keeps its laws, measure at the form of a writable value, whatever follows
  -- it before the end and in the buffer, answers the offset just past the form. A value is
  -- writable where its texts have at most 50 units or are well-formed Unicode that does not begin
  -- with U+FEFF, its dates are within 8.64e15 milliseconds of 1970, its whole numbers are safe
  -- integers, its other numbers are read from their own 8 bytes, its counts fit in 32 bits,
  -- nothing in it is without a form, and it nests at most some number of levels below the first.
  pub measure-encode :
      (n : ℕ) (x : Value)
      → IsWritable v n x
      → (r : Reader) (rest : List ℕ) → At r (encode v x ++ rest)
      → measure r.buf r.at r.end ≡ ok (some (r.at + length (encode v x)))
  unfolding measure measure_loop
  measure-encode n x h r rest a =
      let one : 1 ≡ 1 + 0 = omega arith in
      let last = advance (length (encode v x)) r in
      ap (from r) one ∙ value-Consumes n x h r rest 0 a ∙ nothing_pending (last.end - last.at) last

  -- With a vendor that keeps its laws, a reader at the form of a writable value, whatever follows
  -- it, views exactly the bytes of the form and skips them, and in both cases is left just past
  -- them.
  pub view-encode :
      (n : ℕ) (x : Value)
      → IsWritable v n x
      → (r : Reader) (rest : List ℕ) → At r (encode v x ++ rest)
      → (view r ≡ ok (encode v x, advance (length (encode v x)) r))
        × (skip r ≡ ok (advance (length (encode v x)) r))
  unfolding view skip seek
  view-encode n x h r rest a =
      let m = measure-encode n x h r rest a in
      let long : r.at + length (encode v x) - r.at ≡ length (encode v x) = omega arith in
      let found : take (length (encode v x)) (drop r.at r.buf) ≡ encode v x =
        ap (λ (bs : List ℕ). take (length (encode v x)) bs)
          (a.before ∙ append_assoc (encode v x) rest a.tail)
        ∙ take-append_self (encode v x) (rest ++ a.tail) in
      (rw (m, long, found) refl, rw m refl)
