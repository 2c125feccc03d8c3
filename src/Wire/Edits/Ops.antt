-- ===== src/Wire/Edits/Ops.antt =====
-- `editOps` reads back the operations of an edit and of a page, each value as the bytes of its form.
use mathlib.Core.List.{append_assoc, append-nil}
use phaselock.Prelude.{
  ℕ, zero, suc, ◌+◌, ◌-◌, ◌≤◌, ◌<◌, ◌≡◌, refl, List, [], ◌∷◌, ◌++◌, true, false, if◌then◌else◌,
  ◌==◌, ℤ, pos, sub_ℕ, Option, none, some, length, arith, length-append, ap, ◌∙◌, sym, All,
}
use phaselock.Keys.{Key}
use phaselock.Msgpack.{ok, ◌>>=◌, Vendor, VendorLaws}
use phaselock.Msgpack.Value.{Value}
use phaselock.Msgpack.Forms
use phaselock.Msgpack.Encode.{encode, IsWritable, IsText}
use phaselock.Msgpack.Reader.{Reader, Read, advance, new_reader}
use phaselock.Msgpack.Reader.Laws.{At, At-advance, Decodes, Decodes-then}
use phaselock.Msgpack.Reader.Scalars.{int, str}
use phaselock.Msgpack.Reader.Ints.{int_lem}
use phaselock.Msgpack.Reader.Texts.{str_lem}
use phaselock.Msgpack.Reader.Headers.{array_header_lem}
use phaselock.Msgpack.Measure.{view}
use phaselock.Msgpack.Measure.Ends.{view-encode}
use phaselock.Wire.Edits.{EditOp, goes_on, minus, op_items, read_op, ended, ops_loop, edit_ops}

-- an operation that is written: a key and a value to set, or `none` for a deletion
abbrev pub Op : Type 0
Op = Key × Option Value

abbrev pub items_of : Op → ℕ
items_of (k, some x) = 3
items_of (k, none) = 2

abbrev pub items_of_all : List Op → ℕ
items_of_all [] = 0
items_of_all (op ∷ ops) = items_of op + items_of_all ops

sub_ℕ-add : (a b : ℕ) → sub_ℕ (a + b) a ≡ pos b
sub_ℕ-add a b = ground arith

items_of-positive : (op : Op) → 0 < items_of op
items_of-positive (k, some x) = omega arith
items_of-positive (k, none) = omega arith

module _ (v : Vendor) where
  abbrev pub op_form : Op → List ℕ
  op_form (k, some x) = Forms.int v (pos 0) ++ (Forms.str v k ++ encode v x)
  op_form (k, none) = Forms.int v (pos 1) ++ Forms.str v k

  abbrev pub ops_form : List Op → List ℕ
  ops_form [] = []
  ops_form (op ∷ ops) = op_form op ++ ops_form ops

  -- what is read of an operation
  abbrev pub op_read : Op → EditOp
  op_read (k, some x) = (k, some (encode v x))
  op_read (k, none) = (k, none)

  abbrev pub ops_read : List Op → List EditOp
  ops_read [] = []
  ops_read (op ∷ ops) = op_read op ∷ ops_read ops

  abbrev pub OpWritable : Op → Type 0
  OpWritable (k, some x) = IsText v k × IsWritable v 512 x
  OpWritable (k, none) = IsText v k

  -- an edit: its header, its envelope and its operations
  abbrev pub edit_form : Value → List Op → List ℕ
  edit_form envelope ops =
      Forms.array_header (1 + items_of_all ops) ++ (encode v envelope ++ ops_form ops)

  op_form-nonempty : (op : Op) → 0 < length (op_form op)
  unfolding Forms.int
  op_form-nonempty (k, some x) = omega arith
  op_form-nonempty (k, none) = omega arith

module _ (v : Vendor) (l : VendorLaws v) where
  view-Decodes : (x : Value) → IsWritable v 512 x → Decodes view (encode v x) (encode v x)
  view-Decodes x h r rest a = (view-encode v l 512 x h r rest a).0

  abbrev value_step : Key → List ℕ × Reader → Read (EditOp × ℕ)
  value_step key (value, r) = ok (((key, some value), 3), r)

  abbrev key_step : Key × Reader → Read (EditOp × ℕ)
  key_step (key, r) = view r >>= value_step key

  abbrev deletion_step : Key × Reader → Read (EditOp × ℕ)
  deletion_step (key, r) = ok (((key, none), 2), r)

  abbrev op_step : ℤ × Reader → Read (EditOp × ℕ)
  op_step (op, r) = do
    items ← op_items op
    (key, r2) ← str v r
    if items == 3
        then (do (value, r3) ← view r2; ok (((key, some value), 3), r3))
        else ok (((key, none), 2), r2)

  read_op-Decodes :
      (op : Op) → OpWritable v op → Decodes (read_op v) (op_form v op) (op_read v op, items_of op)
  unfolding read_op op_items
  read_op-Decodes (k, some x) h =
      let answer : EditOp × ℕ = ((k, some (encode v x)), 3) in
      Decodes-then (int v) op_step (Forms.int v (pos 0)) (Forms.str v k ++ encode v x) (pos 0)
        answer (int_lem v l (pos 0) (omega arith))
        (Decodes-then (str v) key_step (Forms.str v k) (encode v x) k answer (str_lem v l k h.0)
          (λ r rest a. ap (λ m. m >>= value_step k) (view-Decodes x h.1 r rest a)))
  read_op-Decodes (k, none) h =
      let answer : EditOp × ℕ = ((k, none), 2) in
      Decodes-then (int v) op_step (Forms.int v (pos 1)) (Forms.str v k) (pos 1) answer
        (int_lem v l (pos 1) (omega arith))
        (λ r rest a. ap (λ m. m >>= deletion_step) (str_lem v l k h r rest a))

  -- How the loop knows where it ends: the items that are left while these operations are to come, and
  -- what follows them.
  record Counts (left : List Op → Option ℤ) (rest : List ℕ) : Type 0 where
    more :
        (op : Op) (ops : List Op) (r : Reader)
        → At r (ops_form v (op ∷ ops) ++ rest)
        → goes_on (left (op ∷ ops)) r ≡ true
    stop : (r : Reader) → At r rest → goes_on (left []) r ≡ false
    fewer : (op : Op) (ops : List Op) → minus (items_of op) (left (op ∷ ops)) ≡ left ops
    fine : (out : List EditOp) → ended (left []) out ≡ ok out

  module _ (left : List Op → Option ℤ) (rest : List ℕ) (c : Counts left rest) where
    ops_loop_lem :
        (fuel : ℕ) (ops : List Op)
        → All (OpWritable v) ops
        → (r : Reader) (out : List EditOp) → At r (ops_form v ops ++ rest)
        → length (ops_form v ops) ≤ fuel
        → ops_loop v fuel (left ops) r out ≡ ok (out ++ ops_read v ops)
    unfolding ops_loop
    ops_loop_lem zero [] h r out a k = rw (c.stop r a, append-nil out) (c.fine out)
    ops_loop_lem (suc fuel) [] h r out a k = rw (c.stop r a, append-nil out) (c.fine out)
    ops_loop_lem zero (op ∷ ops) h r out a k =
        absurd
          (omega (arith, op_form-nonempty v op, length-append {0} (op_form v op) (ops_form v ops)))
    ops_loop_lem (suc fuel) (op ∷ ops) h r out a k =
        let form = op_form v op in
        let a' : At r (form ++ (ops_form v ops ++ rest)) =
          rw (← append_assoc form (ops_form v ops) rest) a in
        let r' = advance (length form) r in
        let short : length (ops_form v ops) ≤ fuel =
          omega (arith, op_form-nonempty v op, length-append {0} form (ops_form v ops)) in
        rw (c.more op ops r a, read_op-Decodes op h.0 r (ops_form v ops ++ rest) a', c.fewer op ops)
          (ops_loop_lem fuel ops h.1 r' (out ++ op_read v op ∷ [])
              (At-advance r form (ops_form v ops ++ rest) a') short
            ∙ ap (λ (o : List EditOp). ok o)
                (append_assoc out (op_read v op ∷ []) (ops_read v ops)))

  page-Counts : Counts (λ ops. none) []
  page-Counts = record {
    more = λ op ops r a.
        let form = ops_form v (op ∷ ops) in
        ground (
          arith,
          a.ends,
          op_form-nonempty v op,
          length-append {0} (op_form v op) (ops_form v ops),
          length-append {0} form [],
        );
    stop = λ r a. ground arith;
    fewer = λ op ops. refl;
    fine = λ out. refl;
  }

  edit-Counts : (rest : List ℕ) → Counts (λ ops. some (pos (items_of_all ops))) rest
  edit-Counts rest = record {
    more = λ op ops r a. ground (arith, items_of-positive op);
    stop = λ r a. refl;
    fewer = λ op ops. ap (λ (z : ℤ). some z) (sub_ℕ-add (items_of op) (items_of_all ops));
    fine = λ out. refl;
  }

  -- A page of writable operations is read back as these operations, each value as the bytes of its form.
  pub edit_ops_page :
      (ops : List Op)
      → All (OpWritable v) ops
      → edit_ops v (ops_form v ops) false ≡ ok (ops_read v ops)
  unfolding edit_ops new_reader
  edit_ops_page ops h =
      let bs = ops_form v ops in
      let a : At (new_reader bs 0 (length bs)) (bs ++ []) = record {
        tail = [];
        before = sym (append-nil bs) ∙ sym (append-nil (bs ++ []));
        ends = ap (λ (l' : List ℕ). length l') (sym (append-nil bs)) ∙ omega arith;
      } in
      ops_loop_lem (λ ops. none) [] page-Counts (length bs) ops h (new_reader bs 0 (length bs)) [] a
        (omega arith)

  -- With a vendor that keeps its laws, editOps of an edit made of its header, a writable envelope
  -- and the operations, whose keys have at most 50 units or are well-formed Unicode that does not
  -- begin with U+FEFF, each setting its key to a writable value or deleting it, and which take
  -- fewer than 2^32 - 1 items in all, succeeds with exactly these operations in order, each value
  -- as the bytes of its form.
  pub edit_ops_edit :
      (envelope : Value) (ops : List Op)
      → IsWritable v 512 envelope
      → All (OpWritable v) ops
      → 1 + items_of_all ops < 4294967296
      → edit_ops v (edit_form v envelope ops) true ≡ ok (ops_read v ops)
  unfolding edit_ops new_reader
  edit_ops_edit envelope ops e h k =
      let n = 1 + items_of_all ops in
      let head = Forms.array_header n in
      let form = encode v envelope in
      let body = ops_form v ops in
      let bs = edit_form v envelope ops in
      let r = new_reader bs 0 (length bs) in
      let r1 = advance (length head) r in
      let r2 = advance (length form) r1 in
      let a : At r (head ++ (form ++ body)) = record {
        tail = [];
        before = sym (append-nil bs);
        ends = omega arith;
      } in
      let a1 = At-advance r head (form ++ body) a in
      let a2 = At-advance r1 form body a1 in
      let a2' : At r2 (body ++ []) = rw (append-nil body) a2 in
      let some_items : n - 1 ≡ items_of_all ops = omega arith in
      let nz : (n == 0) ≡ false = ground arith in
      let long = length-append {0} head (form ++ body) in
      rw
        (
          array_header_lem n k r (form ++ body) a,
          (view-encode v l 512 envelope e r1 body a1).1,
          some_items,
          nz,
        )
        (ops_loop_lem (λ ops. some (pos (items_of_all ops))) [] (edit-Counts []) (length bs) ops h
          r2 [] a2' (omega (arith, long, length-append {0} form body)))
