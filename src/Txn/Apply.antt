-- ===== src/Txn/Apply.antt =====
-- What an `InMemTxn` applies: `applyEdits`, `applyParked` and `applySnapshot`. The operations in raw
-- bytes and the lifecycle of a parked edit are the registry's, the parameter `Reads`.
pub mod Changed
use phaselock.Prelude.{
  ℕ, zero, suc, ◌+◌, ◌/◌, ◌%◌, ◌-◌, List, [], ◌∷◌, ◌++◌, Bool, true, false, ◌||◌, not, Option, none,
  some, if◌then◌else◌, ltb, ◌==◌, length, is_neg,
}
use phaselock.Keys.{Key, key_eq, starts_with, compare_keys}
use phaselock.Keys.Sorted.{member}
use phaselock.Layer.{put}
use phaselock.Txn.{Txn, keys_under, del_prefix}
use phaselock.Txn.Reps.{Stored, packed, bytes_at, then_some}
use phaselock.Wire.Edits.{Lifecycle}

-- `ops`, where `none` is an opcode that it does not know, and the lifecycle in an edit's envelope
pub record Reads : Type 0 where
  pub ops : List ℕ → Bool → Option (List (Key × Option (List ℕ)))
  pub lifecycle : List ℕ → Option Lifecycle

-- `sliceOf`, where `none` is a key with no `!`
unfoldable pub slice_of : Key → Option Key
slice_of [] = none
slice_of (c ∷ key) =
    let rest = slice_of key in if c == b'!' then some [] else then_some rest λ s. some (c ∷ s)

-- `selectorPrefix`: a star at the end is taken off
unfoldable pub selector_prefix : Key → Key
selector_prefix [] = b'!' ∷ []
selector_prefix (c ∷ []) = if c == b'*' then [] else c ∷ b'!' ∷ []
selector_prefix (c ∷ d ∷ s) = c ∷ selector_prefix (d ∷ s)

-- The decimal digits of n, with fuel for one digit each round.
unfoldable pub decimal : ℕ → ℕ → Key → Key
decimal zero n out = out
decimal (suc fuel) n out =
    let more = decimal fuel (n / 10) ((48 + n % 10) ∷ out) in
    if ltb n 10 then (48 + n) ∷ out else more

-- `padStart(20, '0')`
unfoldable pub pad_start : ℕ → Key → Key
pad_start zero s = s
pad_start (suc n) s = b'0' ∷ pad_start n s

abbrev pub park_edit : Key
park_edit = b'!' ∷ b'p' ∷ b'a' ∷ b'r' ∷ b'k' ∷ b'-' ∷ b'e' ∷ b'd' ∷ b'i' ∷ b't' ∷ b':' ∷ []

abbrev pub park_snap : Key
park_snap = b'!' ∷ b'p' ∷ b'a' ∷ b'r' ∷ b'k' ∷ b'-' ∷ b's' ∷ b'n' ∷ b'a' ∷ b'p' ∷ b':' ∷ []

unfoldable pub parked_edit_key : Key → ℕ → Key
unfolding decimal pad_start
parked_edit_key slice seq =
    let text = decimal (suc seq) seq [] in
    park_edit ++ (slice ++ b'!' ∷ pad_start (20 - length text) text)

-- `changed.add(key)`: a set in the order of insertion
abbrev pub add_changed : Key → List Key → List Key
add_changed key changed = if member key changed then changed else changed ++ key ∷ []

abbrev pub add_all_changed : List Key → List Key → List Key
add_all_changed [] changed = changed
add_all_changed (k ∷ ks) changed = add_all_changed ks (add_changed k changed)

-- a transaction, with the keys it changed
abbrev pub Changing : Type 0 → Type 0
Changing U = Txn (Stored U) × List Key

abbrev pub in_slice : Key → Option Key → Bool
in_slice slice none = false
in_slice slice (some s) = key_eq s slice

abbrev pub is_death : Lifecycle → Bool
is_death Lifecycle.death = true
is_death _ = false

module _ {U : Type 0} where
  abbrev pub written : Option (List ℕ) → Option (Stored U)
  written none = none
  written (some bytes) = some (packed bytes)

  -- `#write`
  unfoldable pub write : Key → Option (List ℕ) → Changing U → Changing U
  write key value (t, changed) =
      (record t { updates = put key (written value) t.updates }, add_changed key changed)

  -- the operations of one edit, which a death has none of and which stay in the slice
  unfoldable pub apply_ops :
      Key → Lifecycle → List (Key × Option (List ℕ)) → Changing U → Option (Changing U)
  unfolding slice_of write
  apply_ops slice life [] c = some c
  apply_ops slice life ((key, value) ∷ ops) c =
      let rest = apply_ops slice life ops (write key value c) in
      if is_death life || not (in_slice slice (slice_of key)) then none else rest

  abbrev pub clear : Key → Changing U → Changing U
  clear slice (t, changed) =
      let (t', keys) = del_prefix (slice ++ b'!' ∷ []) t in (t', add_all_changed keys changed)

  abbrev pub cleared : Key → Lifecycle → Changing U → Changing U
  cleared slice Lifecycle.normal c = c
  cleared slice Lifecycle.birth c = clear slice c
  cleared slice Lifecycle.death c = clear slice c

  module _ (reg : Reads) where
    -- `#applyEdit`
    unfoldable pub apply_edit : Key → Lifecycle → List ℕ → Changing U → Option (Changing U)
    unfolding apply_ops del_prefix
    apply_edit slice life bytes c =
        then_some (reg.ops bytes true) λ ops. apply_ops slice life ops (cleared slice life c)

    -- the edits, each a slice, a lifecycle and its bytes
    unfoldable pub apply_all : List (Key × Lifecycle × List ℕ) → Changing U → Option (Changing U)
    unfolding apply_edit
    apply_all [] c = some c
    apply_all ((slice, life, bytes) ∷ edits) c =
        then_some (apply_edit slice life bytes c) (apply_all edits)

    unfoldable pub apply_edits :
        List (Key × Lifecycle × List ℕ) → Txn (Stored U) → Option (Changing U)
    unfolding apply_all
    apply_edits edits t = apply_all edits (t, [])

    -- the parked edits of a slice under these keys, from a key on
    unfoldable pub apply_parked_keys : Key → Key → List Key → Changing U → Option (Changing U)
    unfolding apply_edit bytes_at
    apply_parked_keys slice from [] c = some c
    apply_parked_keys slice from (key ∷ keys) c =
        let skip = apply_parked_keys slice from keys c in
        let take = then_some (bytes_at key c.0) λ bytes.
          then_some (reg.lifecycle bytes)
            λ life. then_some (apply_edit slice life bytes c) (apply_parked_keys slice from keys) in
        if is_neg (compare_keys key from) then skip else take

    unfoldable pub apply_parked : Key → ℕ → Txn (Stored U) → Option (Changing U)
    unfolding apply_parked_keys keys_under parked_edit_key
    apply_parked slice from_seq t =
        apply_parked_keys slice (parked_edit_key slice from_seq)
          (keys_under t (park_edit ++ (slice ++ b'!' ∷ []))) (t, [])

    -- the operations of a page: each key under the selector, and none of a skipped slice
    unfoldable pub apply_page :
        Key → List Key → List (Key × Option (List ℕ)) → Changing U → Option (Changing U)
    unfolding slice_of write
    apply_page prefix skip [] c = some c
    apply_page prefix skip ((key, value) ∷ ops) c =
        let left_out = apply_page prefix skip ops c in
        let applied = apply_page prefix skip ops (write key value c) in
        if not (starts_with prefix key)
        then none
        else then_some (slice_of key) λ s. if member s skip then left_out else applied

    unfoldable pub apply_pages : Key → List Key → List Key → Changing U → Option (Changing U)
    unfolding apply_page bytes_at
    apply_pages prefix skip [] c = some c
    apply_pages prefix skip (page ∷ pages) c = then_some (bytes_at page c.0) λ bytes.
        then_some (reg.ops bytes false)
          λ ops. then_some (apply_page prefix skip ops c) (apply_pages prefix skip pages)

    unfoldable pub apply_snapshot : Key → List Key → Txn (Stored U) → Option (Changing U)
    unfolding apply_pages keys_under selector_prefix
    apply_snapshot selector skip t =
        apply_pages (selector_prefix selector) skip
          (keys_under t (park_snap ++ (selector ++ b'!' ∷ []))) (t, [])
