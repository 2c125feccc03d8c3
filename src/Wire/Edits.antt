-- ===== src/Wire/Edits.antt =====
-- The envelope and the operations of an edit: client/ts/src/edits.ts.
pub mod Ops
pub mod Envelopes
use phaselock.Prelude.{
  ℕ, zero, suc, ◌+◌, ◌-◌, List, [], ◌∷◌, ◌++◌, Bool, true, false, if◌then◌else◌, ltb, leb, ◌==◌, ℤ,
  pos, negsuc, sub_ℕ, Option, none, some, length, not,
}
use phaselock.Keys.{Key}
use phaselock.Msgpack.{
  Error, no_envelope, short_envelope, inside_operation, unknown_lifecycle, unknown_opcode,
  truncated, Result, ok, thrown, ◌>>=◌, ◌>>◌, check, Vendor, Date,
}
use phaselock.Msgpack.Reader.{Reader, Read, array_header, new_reader, done}
use phaselock.Msgpack.Reader.Scalars.{int, str, bin, timestamp}
use phaselock.Msgpack.Measure.{skip, view}
use phaselock.Wire.Uuid.{uuid_string}

pub data Lifecycle : Type 0 where
  normal birth death : Lifecycle

pub record EditEnvelope : Type 0 where
  pub position : ℤ
  pub slice : Key
  pub seq : ℤ
  pub id : Key
  pub servertime : Date
  pub lifecycle : Lifecycle

-- a key and its value's bytes, or `none` for a deletion
abbrev pub EditOp : Type 0
EditOp = Key × Option (List ℕ)

-- `LIFECYCLES[life]`
unfoldable pub lifecycle_of : ℤ → Result Lifecycle
lifecycle_of (pos n) =
    if n == 0
    then ok Lifecycle.normal
    else if n == 1
    then ok Lifecycle.birth
    else if n == 2
    then ok Lifecycle.death
    else thrown (unknown_lifecycle (pos n))
lifecycle_of (negsuc n) = thrown (unknown_lifecycle (negsuc n))

-- `for (let k = used; k < n; k++) r.skip()`, by the rounds left
abbrev pub skip_values : ℕ → Reader → Result Reader
skip_values zero r = ok r
skip_values (suc n) r = skip r >>= skip_values n

-- The items left of an edit, or `none` for a page, whose operations run to the end of its bytes.
abbrev pub goes_on : Option ℤ → Reader → Bool
goes_on none r = not (done r)
goes_on (some (pos n)) r = ltb 0 n
goes_on (some (negsuc n)) r = false

abbrev pub minus : ℕ → Option ℤ → Option ℤ
minus k none = none
minus k (some (pos n)) = some (sub_ℕ n k)
minus k (some (negsuc n)) = some (negsuc (n + k))

-- `op !== SET && op !== DEL`, and the number of items of the operation
unfoldable pub op_items : ℤ → Result ℕ
op_items (pos zero) = ok 3
op_items (pos (suc zero)) = ok 2
op_items (pos (suc (suc n))) = thrown (unknown_opcode (pos (suc (suc n))))
op_items (negsuc n) = thrown (unknown_opcode (negsuc n))

abbrev pub ended : Option ℤ → List EditOp → Result (List EditOp)
ended (some (negsuc n)) out = thrown inside_operation
ended (some (pos n)) out = ok out
ended none out = ok out

module _ (v : Vendor) where
  unfoldable pub read_envelope : Reader → Read EditEnvelope
  unfolding lifecycle_of skip
  read_envelope r = do
    (items, r1) ← array_header r
    check (not (ltb items 1)) no_envelope
    (n, r2) ← array_header r1
    check (not (ltb n 6)) short_envelope
    (position, r3) ← int v r2
    (slice, r4) ← str v r3
    (seq, r5) ← int v r4
    (bytes, r6) ← bin r5
    id ← uuid_string bytes
    (servertime, r7) ← timestamp v r6
    (life, r8) ← int v r7
    lifecycle ← lifecycle_of life
    r9 ← skip_values (n - 6) r8
    ok (
      record {
        position = position;
        slice = slice;
        seq = seq;
        id = id;
        servertime = servertime;
        lifecycle = lifecycle;
      },
      r9,
    )

  -- one operation with the items that it takes
  unfoldable pub read_op : Reader → Read (EditOp × ℕ)
  unfolding op_items view
  read_op r = do
    (op, r1) ← int v r
    items ← op_items op
    (key, r2) ← str v r1
    if items == 3
        then (do (value, r3) ← view r2; ok (((key, some value), 3), r3))
        else ok (((key, none), 2), r2)

  -- The loop, with fuel for the bytes that are left: each operation takes one at least.
  unfoldable pub ops_loop : ℕ → Option ℤ → Reader → List EditOp → Result (List EditOp)
  unfolding read_op
  ops_loop zero left r out = if goes_on left r then thrown truncated else ended left out
  ops_loop (suc fuel) left r out =
      let more =
        read_op r >>= λ ((op, items), r'). ops_loop fuel (minus items left) r' (out ++ op ∷ []) in
      if goes_on left r then more else ended left out

  unfoldable pub edit_ops : List ℕ → Bool → Result (List EditOp)
  unfolding ops_loop array_header skip new_reader
  edit_ops bytes edit =
      let r = new_reader bytes 0 (length bytes) in
      if edit
      then (do
        (n, r1) ← array_header r
        check (not (n == 0)) no_envelope
        r2 ← skip r1
        ops_loop (length bytes) (some (pos (n - 1))) r2 [])
      else ops_loop (length bytes) none r []
