-- ===== src/Tests/Overlay.antt =====
-- Predictions over a small base, read, deleted, kept and scanned.
use phaselock.Prelude.{
  ℕ, arith, ◌≡◌, refl, List, [], ◌∷◌, true, false, leb, length, take, drop, Bool-cases, inl, inr,
  Option, none, some, All, if◌then◌else◌,
}
use phaselock.Keys.{Key, key_eq, sort_keys, sort, starts_with, has_high_unit, unit_compare}
use phaselock.Keys.Order.{IsKey}
use phaselock.Keys.Sorted.{member}
use phaselock.Keys.Sort.{IsDistinct}
use phaselock.Layer.{Layer, names, layer_keys, collect_layers, collect_layer}
use phaselock.Pattern.{CompiledPattern, compile_pattern}
use phaselock.Pattern.Place.{span_covers}
use phaselock.Txn.Reps.{Registry, Rep}
use phaselock.Overlay.{
  RTxn, ScanRequest, StoreScan, OverlayTxn, scan_all, slice_request, del_prefix, set, apply, view,
  read, scan,
}
use phaselock.Overlay.Reads.{apply_lem, read-del_prefix, IsSliceKeys}
use phaselock.Overlay.Batches.{scan_all_lem}
use phaselock.Overlay.Pages.{IsPage, scan_lem}

-- "s!", "s!a", "s!b", "s!c"
abbrev slice_s : Key
slice_s = b's' ∷ b'!' ∷ []

abbrev key_a : Key
key_a = b's' ∷ b'!' ∷ b'a' ∷ []

abbrev key_b : Key
key_b = b's' ∷ b'!' ∷ b'b' ∷ []

abbrev key_c : Key
key_c = b's' ∷ b'!' ∷ b'c' ∷ []

abbrev registry : Registry ℕ
registry = record {
  convert = λ ty u from to. some u;
  of_bytes = λ bytes. 0;
  to_bytes = λ u. [];
  dev = false;
}

-- a base of the keys "s!a" and "s!c", whose scans answer both
abbrev batch : StoreScan ℕ
batch = record { entries = (key_a, none) ∷ (key_c, none) ∷ []; next = none }

abbrev base : RTxn ℕ
base = record { get = λ key ty rep. some (some 7); scan = λ req. some batch }

-- "s!a" is predicted as deleted, "s!b" as 5
abbrev predicted : Layer (Option ℕ)
predicted = (key_a, none) ∷ (key_b, some 5) ∷ []

abbrev start : OverlayTxn ℕ
start = view predicted

abbrev request : ScanRequest
request = slice_request slice_s

abbrev after_scan : StoreScan ℕ
after_scan = record { entries = (key_b, none) ∷ (key_c, none) ∷ []; next = none }

abbrev slice_pattern : CompiledPattern
slice_pattern = record { head = slice_s; fields = [] }

scan_run : scan registry base request start ≡ some after_scan
unfolding scan compile_pattern layer_keys sort_keys sort collect_layers collect_layer key_eq
    span_covers starts_with has_high_unit unit_compare
scan_run = refl

pattern_run : compile_pattern request.pattern ≡ some slice_pattern
unfolding compile_pattern
pattern_run = refl

IsKey-batch : All IsKey (names batch.entries)
IsKey-batch = ground arith

IsKey-predicted : All IsKey (names predicted)
IsKey-predicted = ground arith

IsDistinct-batch : IsDistinct (names batch.entries)
unfolding key_eq
IsDistinct-batch = (refl, (refl, tt))

scan_lem_example : IsPage registry base request start slice_pattern batch after_scan
scan_lem_example =
    scan_lem registry base request start slice_pattern batch after_scan refl pattern_run IsKey-batch
      IsDistinct-batch IsKey-predicted tt scan_run

all_run : scan_all 1 base request none ≡ some batch.entries
unfolding scan_all
all_run = refl

-- the deletion of the slice "s"
read-del_prefix_example :
    (ks : List Key) × (after : OverlayTxn ℕ) × (del_prefix 1 base slice_s start ≡ some (after, ks))
    × IsSliceKeys start batch.entries slice_s ks
    × ((key ty : Key) (rep : Rep)
        → read registry base key ty rep after
          ≡ (if member key ks then some none else read registry base key ty rep start))
read-del_prefix_example =
    read-del_prefix registry 1 base slice_s start batch.entries refl all_run IsKey-batch
      IsKey-predicted tt

abbrev written : Layer (Option ℕ)
written = (key_c, some 3) ∷ []

-- a prediction that sets "s!c" to 3
abbrev predict : OverlayTxn ℕ → Option (OverlayTxn ℕ)
unfolding set
predict t = set registry base key_c [] Rep.js 3 t

apply_lem_example :
    (after : Layer (Option ℕ)) × (apply predict predicted ≡ some (after, names written))
    × ((key ty : Key) (rep : Rep)
        → read registry base key ty rep (view after)
          ≡ read registry base key ty rep (record { data_layer = predicted; updates = written }))
unfolding set
apply_lem_example = apply_lem registry base predict predicted written refl (refl, tt)

-- a base that walks "s!a" and "s!c" one by one
abbrev rest : Option Key → Layer (Option ℕ)
unfolding key_eq
rest none = batch.entries
rest (some k) = if key_eq k key_a then (key_c, none) ∷ [] else []

abbrev one_each : Layer (Option ℕ) → StoreScan ℕ
one_each [] = record { entries = []; next = none }
one_each ((k, v) ∷ es) = record { entries = (k, v) ∷ []; next = some k }

abbrev walking : RTxn ℕ
walking = record { get = λ key ty rep. some none; scan = λ req. some (one_each (rest req.after)) }

abbrev one_by_one : ScanRequest
one_by_one = record request { limit = 1 }

walking_full :
    (after : Option Key)
    → leb 1 (length (rest after)) ≡ true
    → (k : Key) × (walking.scan (record one_by_one { after = after })
        ≡ some (record { entries = take 1 (rest after); next = some k }))
      × (rest (some k) ≡ drop 1 (rest after))
unfolding key_eq
walking_full none e = (key_a, refl, refl)
walking_full (some k) e = elim (Bool-cases (key_eq k key_a)) [
  | inl m ↦ rw m (key_c, refl, refl)
  | inr m ↦ ground (arith, e, m)
]

walking_short :
    (after : Option Key)
    → leb 1 (length (rest after)) ≡ false
    → walking.scan (record one_by_one { after = after })
      ≡ some (record { entries = rest after; next = none })
unfolding key_eq
walking_short none e = ground arith
walking_short (some k) e = elim (Bool-cases (key_eq k key_a)) [
  | inl m ↦ ground (arith, e, m)
  | inr m ↦ rw m refl
]

scan_all_lem_example : scan_all 3 walking one_by_one none ≡ some batch.entries
unfolding rest
scan_all_lem_example =
    scan_all_lem walking one_by_one rest (record { short = walking_short; full = walking_full })
      (omega arith) 3 none (omega arith)
