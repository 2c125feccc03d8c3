-- ===== src/Overlay.antt =====
-- The Engine's layer of predictions over a base transaction, in typespec/ts/assets/skeleton.ts: classes
-- `Overlay` and `OverlayTxn`, and `scanAll`. The base is any read transaction, the parameter `RTxn`;
-- an error thrown is `none`.
pub mod Reads
pub mod Pages
pub mod Batches
use mathlib.Core.List.{reverse}
use Prim.Native.Nat.{ℕ, zero, suc, ◌-◌}
use phaselock.Prelude.{
  List, [], ◌∷◌, ◌++◌, Bool, true, false, ◌||◌, not, Option, none, some, if◌then◌else◌, length,
  take, get_elem?, ◌==◌, leb,
}
use phaselock.Keys.{Key, starts_with, sort_keys}
use phaselock.Keys.Sorted.{member}
use phaselock.Layer.{Layer, has, get, put, names, flat, layer_keys}
use phaselock.Pattern.{KeyPattern, SliceMatch, CompiledPattern, compile_pattern}
use phaselock.Pattern.Place.{ScanSpan, span_covers}
use phaselock.Txn.Reps.{Rep, Registry, layer_in, layer_out, then_some}

-- `values` is `none` for a scan of keys only; `limit` is at least 1
pub record ScanRequest : Type 0 where
  pub pattern : KeyPattern
  pub reverse : Bool
  pub after : Option Key
  pub limit : ℕ
  pub values : Option (Key × Rep)

pub record StoreScan (U : Type 0) : Type 0 where
  pub entries : Layer (Option U)
  pub next : Option Key

-- A read transaction; a value of `none` is undefined.
pub record RTxn (U : Type 0) : Type 0 where
  pub get : Key → Key → Rep → Option (Option U)
  pub scan : ScanRequest → Option (StoreScan U)

-- The loop of `scanAll`, a batch a round, on fuel: `none` where a scan throws or the fuel runs out.
unfoldable pub scan_all :
    {U : Type 0} → ℕ → RTxn U → ScanRequest → Option Key → Option (Layer (Option U))
scan_all zero txn req after = none
scan_all (suc fuel) txn req after = then_some (txn.scan (record req { after = after })) λ batch.
    elim batch.next [
      | none ↦ some batch.entries
      | some next ↦ then_some (scan_all fuel txn req (some next)) (λ es. some (batch.entries ++ es))
    ]

-- `#data` and `#updates`
pub record OverlayTxn (U : Type 0) : Type 0 where
  pub data_layer : Layer (Option U)
  pub updates : Layer (Option U)

-- where the first `!` of a key ends, 0 where it has none
abbrev pub bang_end : Key → ℕ
bang_end [] = 0
bang_end (c ∷ cs) = if c == b'!' then 1 else elim (bang_end cs) [ zero ↦ 0 | suc n ↦ suc (suc n) ]

-- `Set.add`
abbrev pub add_once : Key → List Key → List Key
add_once k ks = if member k ks then ks else ks ++ k ∷ []

abbrev pub add_each : List Key → List Key → List Key
add_each [] all = all
add_each (k ∷ ks) all = add_each ks (add_once k all)

-- every local key of the slice that a prefix names
abbrev pub slice_request : Key → ScanRequest
slice_request prefix = record {
  pattern = record {
    slice = SliceMatch.named (take (length prefix - 1) prefix);
    name = none;
    locals = [];
  };
  reverse = false;
  after = none;
  limit = 1000;
  values = none;
}

abbrev pub page_next : Option Key → Option Key → Option Key
page_next (some k) next = some k
page_next none next = next

abbrev pub walk_order : Bool → List Key → List Key
walk_order rev keys = if rev then reverse keys else keys

abbrev pub span_of : ScanRequest → Option Key → CompiledPattern → ScanSpan
span_of req next c = record { pattern = c; reverse = req.reverse; from = req.after; to = next }

module _ {U : Type 0} where
  -- `#has`
  abbrev pub has_key : OverlayTxn U → Key → Bool
  has_key t key = has key t.updates || has key t.data_layer

  -- `layerGet` where both layers mark deletions
  unfoldable pub overlay_get : Layer (Option U) → Layer (Option U) → Key → Option U
  overlay_get data_layer updates key =
      flat (if has key updates then get key updates else get key data_layer)

  unfoldable pub del : Key → OverlayTxn U → OverlayTxn U
  del key t = record t { updates = put key none t.updates }

  abbrev pub del_each : List Key → OverlayTxn U → OverlayTxn U
  unfolding del
  del_each [] t = t
  del_each (k ∷ ks) t = del_each ks (del k t)

  -- the base's keys that the layers do not cover
  abbrev pub uncovered : OverlayTxn U → Layer (Option U) → Layer (Option U)
  uncovered t [] = []
  uncovered t ((k, v) ∷ es) = if has_key t k then uncovered t es else (k, v) ∷ uncovered t es

  -- `#keysUnder`, with the fuel for the base's scan
  unfoldable pub keys_under : ℕ → RTxn U → Key → OverlayTxn U → Option (List Key)
  unfolding scan_all
  keys_under fuel base prefix t =
      if bang_end prefix == length prefix
      then then_some (scan_all fuel base (slice_request prefix) none) (λ es. some (
          sort_keys (
            add_each (layer_keys (λ k. starts_with prefix k) (t.data_layer ∷ t.updates ∷ []))
              (add_each (names (uncovered t es)) []))))
      else none

  -- `delPrefix`
  unfoldable pub del_prefix : ℕ → RTxn U → Key → OverlayTxn U → Option (OverlayTxn U × List Key)
  unfolding keys_under
  del_prefix fuel base prefix t =
      then_some (keys_under fuel base prefix t) (λ ks. some (del_each ks t, ks))

  -- each entry set in turn, as the loops over a `Map` do
  abbrev pub put_each : Layer (Option U) → Layer (Option U) → Layer (Option U)
  put_each [] m = m
  put_each ((k, v) ∷ es) m = put_each es (put k v m)

  -- `Overlay.apply`, where `fn` is a body that writes into its transaction or throws
  unfoldable pub apply :
      (OverlayTxn U → Option (OverlayTxn U))
      → Layer (Option U)
      → Option (Layer (Option U) × List Key)
  apply fn data_layer =
      then_some (fn (record { data_layer = data_layer; updates = [] }))
        λ t. some (put_each t.updates data_layer, names t.updates)

  -- the transaction of `Overlay.view`
  abbrev pub view : Layer (Option U) → OverlayTxn U
  view data_layer = record { data_layer = data_layer; updates = [] }

  -- `merged.get(k)` for each key of the page
  abbrev pub look_up : Layer (Option U) → List Key → Layer (Option U)
  look_up merged [] = []
  look_up merged (k ∷ ks) = (k, flat (get k merged)) ∷ look_up merged ks

  -- the merged keys cut to one batch
  unfoldable pub page : ScanRequest → Option Key → Layer (Option U) → StoreScan U
  page req next merged =
      let ks = walk_order req.reverse (sort_keys (names merged)) in
      let last = if leb req.limit (length ks) then get_elem? ks (req.limit - 1) else none in
      record { entries = look_up merged (take req.limit ks); next = page_next last next }

module _ {U : Type 0} (reg : Registry U) (base : RTxn U) where
  unfoldable pub read : Key → Key → Rep → OverlayTxn U → Option (Option U)
  unfolding overlay_get layer_out
  read key ty rep t =
      if has_key t key
      then elim (overlay_get t.data_layer t.updates key) [
        | none ↦ some none
        | some js ↦ then_some (layer_out reg ty js rep) (λ u. some (some u))
      ]
      else base.get key ty rep

  unfoldable pub set : Key → Key → Rep → U → OverlayTxn U → Option (OverlayTxn U)
  unfolding layer_in
  set key ty rep value t =
      then_some (layer_in reg ty rep value)
        λ js. some (record t { updates = put key (some js) t.updates })

  -- what a scan shows of a layer's entry
  abbrev pub shown_value : Option (Key × Rep) → Option U → Option (Option U)
  shown_value none js = some none
  shown_value (some (ty, rep)) none = some none
  shown_value (some (ty, rep)) (some js) = then_some (layer_out reg ty js rep) (λ u. some (some u))

  -- the layers' keys over the base's entries
  unfoldable pub merge_layers :
      Option (Key × Rep) → OverlayTxn U → List Key → Layer (Option U) → Option (Layer (Option U))
  unfolding overlay_get layer_out
  merge_layers values t [] merged = some merged
  merge_layers values t (k ∷ ks) merged =
      then_some (shown_value values (overlay_get t.data_layer t.updates k))
        λ v. merge_layers values t ks (put k v merged)

  unfoldable pub scan : ScanRequest → OverlayTxn U → Option (StoreScan U)
  unfolding merge_layers page
  scan req t = then_some (base.scan req) λ result. then_some (compile_pattern req.pattern) λ c.
      then_some
        (merge_layers req.values t
          (layer_keys (λ k. span_covers (span_of req result.next c) k)
            (t.data_layer ∷ t.updates ∷ []))
          (put_each (uncovered t result.entries) []))
        (λ merged. some (page req result.next merged))
