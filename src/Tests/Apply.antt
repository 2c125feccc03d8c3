-- ===== src/Tests/Apply.antt =====
-- Edits applied to a small transaction, and reads of packed values.
use phaselock.Prelude.{ℕ, arith, ◌≡◌, refl, [], ◌∷◌, false, some}
use phaselock.Keys.{Key, key_eq}
use phaselock.KeyList.{empty}
use phaselock.Txn.{Txn}
use phaselock.Txn.Reps.{Stored, packed, decoded, Registry, Rep, out}
use phaselock.Txn.Apply.{Reads, Changing, apply_edits, parked_edit_key, slice_of, selector_prefix}
use phaselock.Txn.Apply.Changed.{Application, apply, apply-changed, reads}
use phaselock.Wire.Edits.{Lifecycle}

-- "s!a"
abbrev key_a : Key
key_a = b's' ∷ b'!' ∷ b'a' ∷ []

abbrev key_b : Key
key_b = b's' ∷ b'!' ∷ b'b' ∷ []

-- every edit sets "s!a" to its own bytes
abbrev reg : Reads
reg = record {
  ops = λ bytes edit. some ((key_a, some bytes) ∷ []);
  lifecycle = λ bytes. some Lifecycle.normal;
}

abbrev start : Txn (Stored ℕ)
start = record { values = (key_b, packed (9 ∷ [])) ∷ []; keys = empty; updates = [] }

abbrev one_edit : Application
one_edit = Application.edits ((b's' ∷ [], Lifecycle.normal, 7 ∷ []) ∷ [])

abbrev after : Changing ℕ
after = (record start { updates = (key_a, some (packed (7 ∷ []))) ∷ [] }, key_a ∷ [])

apply_run : apply reg one_edit start ≡ some after
unfolding apply apply_edits key_eq
apply_run = refl

out_of_changed : key_eq key_a key_b ≡ false
unfolding key_eq
out_of_changed = refl

apply-changed_example : reads after.0 key_b ≡ reads start key_b
apply-changed_example =
    apply-changed reg one_edit start after key_b apply_run (ground (arith, out_of_changed))

-- a value is the first of its bytes
abbrev registry : Registry ℕ
registry = record {
  convert = λ ty u from to. some u;
  of_bytes = λ bytes. elim bytes [ [] ↦ 0 | b ∷ bs ↦ b ];
  to_bytes = λ u. u ∷ [];
  dev = false;
}

abbrev read_b : Txn (Stored ℕ)
read_b = record start { values = (key_b, decoded 9) ∷ [] }

out_run : out registry key_b (b'T' ∷ []) Rep.js start ≡ some (some 9, read_b)
unfolding out key_eq
out_run = refl

differs : key_eq key_b key_a ≡ false
unfolding key_eq
differs = refl

parked_run :
    parked_edit_key (b's' ∷ []) 42
    ≡ b'!' ∷ b'p' ∷ b'a' ∷ b'r' ∷ b'k' ∷ b'-' ∷ b'e' ∷ b'd' ∷ b'i' ∷ b't' ∷ b':' ∷ b's' ∷ b'!'
      ∷ b'0' ∷ b'0' ∷ b'0' ∷ b'0' ∷ b'0' ∷ b'0' ∷ b'0' ∷ b'0' ∷ b'0' ∷ b'0' ∷ b'0' ∷ b'0' ∷ b'0'
      ∷ b'0' ∷ b'0' ∷ b'0' ∷ b'0' ∷ b'0' ∷ b'4' ∷ b'2' ∷ []
unfolding parked_edit_key
parked_run = refl

slice_run : slice_of key_a ≡ some (b's' ∷ [])
unfolding slice_of
slice_run = refl

selector_run : selector_prefix (b'c' ∷ b':' ∷ b'*' ∷ []) ≡ b'c' ∷ b':' ∷ []
unfolding selector_prefix
selector_run = refl
