-- ===== src/Engine/Land.antt =====
-- What the land of class `Engine` in typespec/ts/assets/skeleton.ts plans for a slice: the blob that wins
-- it, its base, and the run of parked edits that applies onto it.
pub mod Runs
pub mod Winner
pub mod Plans
pub mod Writes
pub mod Steady
pub mod Lift
pub mod Finish
pub mod Tried
use mathlib.Core.Path.{subst}
use phaselock.Prelude.{
  some_inj, ◌≡◌, ◌⊎◌, ◌∙◌, refl, ap, sym, ◌<◌, ◌≤◌, ℕ, suc, List, [], ◌∷◌, ◌++◌, Bool, true, false,
  not, ◌&&◌, ◌||◌, Option, none, some, if◌then◌else◌, arith, leb, ltb, ◌==◌, All, All-append,
  if_elim, Bool-cases, inl, inr,
}
use phaselock.Keys.{Key, key_eq, starts_with}
use phaselock.Layer.{Layer, get}
use phaselock.Engine.{Edit, covers}
use phaselock.Engine.Edits.{is_normal, is_old}
use phaselock.Engine.Chains.{IsNext, append_nil, append_one}

-- whether a selector ends in a star, and it without its last unit
abbrev pub is_starred : Key → Bool
is_starred [] = false
is_starred (c ∷ []) = c == b'*'
is_starred (c ∷ d ∷ s) = is_starred (d ∷ s)

abbrev pub without_last : Key → Key
without_last [] = []
without_last (c ∷ []) = []
without_last (c ∷ d ∷ s) = c ∷ without_last (d ∷ s)

-- `selectorCovers`
unfoldable pub selector_covers : Key → Key → Bool
selector_covers selector name =
    if is_starred selector then starts_with (without_last selector) name else key_eq name selector

-- a backfill's snapshot: the position of its cut, and the seq of each slice in it
pub record Blob : Type 0 where
  pub selector : Key
  pub cut : ℕ
  pub header : Layer ℕ

abbrev pub beats : Blob → Option Blob → Bool
beats b none = true
beats b (some best) = ltb best.cut b.cut

-- the loop of `winner`
unfoldable pub winner : Key → List Blob → Option Blob → Option Blob
winner slice [] best = best
winner slice (b ∷ bs) best =
    winner slice bs (if selector_covers b.selector slice && beats b best then some b else best)

-- where a slice starts: whether from a blob, the blob's cut, and the seq
pub record Basis : Type 0 where
  pub blob : Bool
  pub cut : Option ℕ
  pub seq : Option ℕ

abbrev pub is_newer : Option ℕ → ℕ → Blob → Option ℕ → Bool
is_newer applied held w none = covers applied w.cut
is_newer applied held w (some named) = covers applied w.cut || leb named held

unfoldable pub basis_of : Option ℕ → Key → Option ℕ → Option Blob → Basis
basis_of applied slice held none = record { blob = false; cut = none; seq = held }
basis_of applied slice none (some w) = record {
  blob = true;
  cut = some w.cut;
  seq = get slice w.header;
}
basis_of applied slice (some held) (some w) =
    if is_newer applied held w (get slice w.header)
    then record { blob = false; cut = none; seq = some held }
    else record { blob = true; cut = some w.cut; seq = get slice w.header }

-- the run so far, whether a gap breaks it, and the last seq
pub record Run : Type 0 where
  pub edits : List Edit
  pub gap : Bool
  pub last : Option ℕ

abbrev pub is_past : Option ℕ → ℕ → Bool
is_past cut at = not (covers cut at)

abbrev pub follows : Option ℕ → Edit → Bool
follows none e = false
follows (some last) e = e.seq == suc last

unfoldable pub run_edit : Option ℕ → Edit → Run → Run
run_edit cut e r =
    if covers cut e.at || is_old r.last e
    then r
    else if not (is_normal e.lifecycle)
    then record { edits = e ∷ []; gap = false; last = some e.seq }
    else if r.gap || not (follows r.last e)
    then record { edits = []; gap = true; last = some e.seq }
    else record { edits = r.edits ++ e ∷ []; gap = false; last = some e.seq }

-- the loop over a slice's parked edits
unfoldable pub run_edits : Option ℕ → List Edit → Run → Run
unfolding run_edit
run_edits cut [] r = r
run_edits cut (e ∷ es) r = run_edits cut es (run_edit cut e r)

abbrev pub begin : Option ℕ → Run
begin seq = record { edits = []; gap = false; last = seq }
