-- ===== src/Tests/Store.antt =====
-- Layers and the store on a few entries.
use mathlib.Core.List.{flatten}
use phaselock.Prelude.{ℕ, ◌≡◌, refl, [], ◌∷◌, Option, some, none, arith}
use phaselock.Keys.{Key, key_eq}
use phaselock.Layer.{Layer, get, layer_get}
use phaselock.Store.{Store, commit, empty}
use phaselock.Store.Keeps.{IsStore, empty-IsStore, commit_lem}

abbrev a : Key
a = 97 ∷ []

abbrev b : Key
b = 98 ∷ []

-- b set, and a deleted
abbrev updates : Layer (Option ℕ)
updates = (b, some 1) ∷ (a, none) ∷ []

commit_lem_example :
    (s' : Store ℕ) × (commit updates empty ≡ some s')
    × IsStore s'
    × ((k : Key) → get k s'.values ≡ layer_get [] updates k)
unfolding flatten key_eq
commit_lem_example =
    commit_lem updates empty empty-IsStore (omega arith) (refl, (refl, tt)) (omega arith)
