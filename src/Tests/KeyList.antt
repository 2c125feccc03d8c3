-- ===== src/Tests/KeyList.antt =====
-- The sorted key list on a few keys.
use mathlib.Core.List.{flatten}
use mathlib.Core.Option
use phaselock.Prelude.{
  ℕ, zero, suc, ◌+◌, ◌/◌, ◌%◌, ◌≡◌, refl, List, [], ◌∷◌, some, none, arith, length, if◌then◌else◌,
}
use phaselock.Keys.{Key, compare_keys, key_eq, exact_for}
use phaselock.Keys.Sorted.{insert, erase, member}
use phaselock.KeyList.{
  KeyList, keys, add, remove, of, seek, before_key, place, insert_at, remove_at,
}
use phaselock.Bisect.{bisect}
use phaselock.KeyList.Laws.{IsSearchable, keys-add, keys-remove}
use phaselock.KeyList.Sizes.{IsSized}
use phaselock.KeyList.Even.{of-IsSized, of_short_block}
use phaselock.KeyList.Invariant.{IsKeyList, searchable, ordered, add-IsKeyList, remove-IsKeyList}

abbrev b_d : KeyList
b_d = record { blocks = ((98 ∷ []) ∷ (100 ∷ []) ∷ []) ∷ [] }

add_c : keys (add (99 ∷ []) b_d) ≡ (98 ∷ []) ∷ (99 ∷ []) ∷ (100 ∷ []) ∷ []
unfolding add seek place insert_at before_key bisect exact_for flatten
add_c = refl

remove_b : Option.map keys (remove (98 ∷ []) b_d) ≡ some ((100 ∷ []) ∷ [])
unfolding remove seek remove_at before_key bisect exact_for key_eq flatten
remove_b = refl

b_d-IsKeyList : IsKeyList b_d
unfolding flatten compare_keys
b_d-IsKeyList = record { sorted = ((refl, tt), (tt, tt)); units = omega arith; sized = omega arith }

b_d-IsSearchable : IsSearchable b_d.blocks
b_d-IsSearchable = searchable b_d (ordered b_d b_d-IsKeyList) (omega arith)

keys-add_example : keys (add (99 ∷ []) b_d) ≡ insert (99 ∷ []) (keys b_d)
keys-add_example = keys-add (99 ∷ []) (omega arith) b_d b_d-IsSearchable

keys-remove_example :
    Option.map keys (remove (99 ∷ []) b_d)
    ≡ (if member (99 ∷ []) (keys b_d) then some (erase (99 ∷ []) (keys b_d)) else none)
keys-remove_example = keys-remove (99 ∷ []) (omega arith) b_d b_d-IsSearchable

add-IsKeyList_example : IsKeyList (add (99 ∷ []) b_d)
unfolding flatten key_eq
add-IsKeyList_example = add-IsKeyList (99 ∷ []) (omega arith) b_d b_d-IsKeyList (omega arith) refl

abbrev only_d : KeyList
only_d = record { blocks = ((100 ∷ []) ∷ []) ∷ [] }

remove-IsKeyList_example : IsKeyList only_d
unfolding remove seek remove_at before_key bisect exact_for key_eq flatten
remove-IsKeyList_example =
    remove-IsKeyList (98 ∷ []) (omega arith) b_d b_d-IsKeyList (omega arith) refl

-- n keys from i on, of two units each
ascending : ℕ → ℕ → List Key
ascending i zero = []
ascending i (suc n) = (i / 1000 ∷ i % 1000 ∷ []) ∷ ascending (i + 1) n

length-ascending : (i n : ℕ) → length (ascending i n) ≡ n
unfolding ascending
length-ascending i zero = refl
length-ascending i (suc n) = omega (arith, length-ascending (i + 1) n)

of-IsSized_example : IsSized (of (ascending 0 5000)).blocks
of-IsSized_example = of-IsSized (ascending 0 5000) (omega (arith, length-ascending 0 5000))

of_short_block_example : ¬ IsSized (of (ascending 0 787711)).blocks
of_short_block_example =
    of_short_block (ascending 0 787711) 770 (omega arith) (omega arith)
      (omega (arith, length-ascending 0 787711))
