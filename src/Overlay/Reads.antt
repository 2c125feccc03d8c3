-- ===== src/Overlay/Reads.antt =====
-- What `Overlay.apply` of typespec/ts/assets/skeleton.ts keeps, and what a deletion of a slice does to reads.
use phaselock.Prelude.{
  ◌≡◌, refl, ℕ, List, [], ◌∷◌, true, not, ◌&&◌, ◌||◌, Option, none, some, if◌then◌else◌, arith,
  length, ◌==◌, All, All-append, if_elim,
}
use phaselock.Keys.{Key, starts_with, sort_keys}
use phaselock.Keys.Order.{IsKey}
use phaselock.Keys.Sorted.{IsSorted, member, key_eq-eq}
use phaselock.Keys.Sort.{IsDistinct, sort_keys-IsSorted, member-sort_keys}
use phaselock.Layer.{Layer, has, get, put, names, is_some, flat, layer_keys}
use phaselock.Layer.Laws.{
  get-put, has-put, get-none, layer_keys_lem, IsKey-layer_keys, member-snoc, IsDistinct-snoc,
  resolve, AreKeyed,
}
use phaselock.Txn.Reps.{Rep, Registry}
use phaselock.Overlay.{
  RTxn, OverlayTxn, scan_all, slice_request, bang_end, has_key, overlay_get, del, del_each,
  uncovered, add_once, add_each, keys_under, del_prefix, put_each, apply, view, read,
}

pub member-add_each :
    (k : Key) (ks all : List Key) → member k (add_each ks all) ≡ (member k ks || member k all)
member-add_each k [] all = refl
member-add_each k (j ∷ ks) all =
    ground (arith, member-add_each k ks (add_once j all), member-snoc k j all, key_eq-eq j k)

pub IsDistinct-add_each : (ks all : List Key) → IsDistinct all → IsDistinct (add_each ks all)
IsDistinct-add_each [] all d = d
IsDistinct-add_each (j ∷ ks) all d =
    IsDistinct-add_each ks (add_once j all)
      (if_elim IsDistinct (member j all) (λ e. d) (λ e. IsDistinct-snoc j all d e))

pub IsKey-add_each :
    (ks all : List Key) → All IsKey ks → All IsKey all → All IsKey (add_each ks all)
IsKey-add_each [] all u h = h
IsKey-add_each (j ∷ ks) all u h =
    IsKey-add_each ks (add_once j all) u.1
      (if_elim (All IsKey) (member j all) (λ e. h) (λ e. All-append IsKey all (j ∷ []) h (u.0, tt)))

module _ {U : Type 0} where
  pub has-put_each :
      (k : Key) (es m : Layer (Option U)) → has k (put_each es m) ≡ (has k es || has k m)
  has-put_each k [] m = refl
  has-put_each k ((j, v) ∷ es) m =
      ground (arith, has-put_each k es (put j v m), has-put j k v m, key_eq-eq j k)

  pub get-put_each :
      (k : Key) (es m : Layer (Option U))
      → IsDistinct (names es)
      → get k (put_each es m) ≡ (if has k es then get k es else get k m)
  get-put_each k [] m d = refl
  get-put_each k ((j, v) ∷ es) m d =
      ground (arith, get-put_each k es (put j v m) d.1, get-put j k v m, key_eq-eq j k)

  overlay_get-apply :
      (k : Key) (t : OverlayTxn U)
      → IsDistinct (names t.updates)
      → overlay_get (put_each t.updates t.data_layer) [] k ≡ overlay_get t.data_layer t.updates k
  unfolding overlay_get
  overlay_get-apply k t d = ground (arith, get-put_each k t.updates t.data_layer d)

  has_key-apply :
      (k : Key) (t : OverlayTxn U)
      → has_key (view (put_each t.updates t.data_layer)) k ≡ has_key t k
  has_key-apply k t = has-put_each k t.updates t.data_layer

  -- If a body run over the overlay writes updates with distinct keys and does not throw, apply
  -- answers the keys of the updates, and every read over the overlay that it leaves, deletions
  -- over the base included, is what the body would have read at its end.
  pub apply_lem :
      (reg : Registry U) (base : RTxn U) (fn : OverlayTxn U → Option (OverlayTxn U))
      → (data_layer updates : Layer (Option U))
      → fn (view data_layer) ≡ some (record { data_layer = data_layer; updates = updates })
      → IsDistinct (names updates)
      → (after : Layer (Option U)) × (apply fn data_layer ≡ some (after, names updates))
        × ((key ty : Key) (rep : Rep)
            → read reg base key ty rep (view after)
              ≡ read reg base key ty rep (record { data_layer = data_layer; updates = updates }))
  unfolding apply read
  apply_lem reg base fn data_layer updates e d = (
    put_each updates data_layer,
    rw e refl,
    λ key ty rep.
        let t : OverlayTxn U = record { data_layer = data_layer; updates = updates } in
        rw (has_key-apply key t, overlay_get-apply key t d) refl,
  )

  has-del_each :
      (k : Key) (ks : List Key) (t : OverlayTxn U)
      → has k (del_each ks t).updates ≡ (member k ks || has k t.updates)
  unfolding del
  has-del_each k [] t = refl
  has-del_each k (j ∷ ks) t =
      ground (arith, has-del_each k ks (del j t), has-put j k none t.updates, key_eq-eq j k)

  get-del_each :
      (k : Key) (ks : List Key) (t : OverlayTxn U)
      → flat (get k (del_each ks t).updates)
        ≡ (if member k ks then none else flat (get k t.updates))
  unfolding del
  get-del_each k [] t = refl
  get-del_each k (j ∷ ks) t =
      ground (arith, get-del_each k ks (del j t), get-put j k none t.updates, key_eq-eq j k)

  data_layer-del_each :
      (ks : List Key) (t : OverlayTxn U) → (del_each ks t).data_layer ≡ t.data_layer
  unfolding del
  data_layer-del_each [] t = refl
  data_layer-del_each (j ∷ ks) t = data_layer-del_each ks (del j t)

  pub member-uncovered :
      (k : Key) (t : OverlayTxn U) (es : Layer (Option U))
      → member k (names (uncovered t es)) ≡ (member k (names es) && not (has_key t k))
  member-uncovered k t [] = refl
  member-uncovered k t ((j, v) ∷ es) = ground (arith, member-uncovered k t es, key_eq-eq j k)

  pub IsKey-uncovered :
      (t : OverlayTxn U) (es : Layer (Option U))
      → All IsKey (names es)
      → All IsKey (names (uncovered t es))
  IsKey-uncovered t [] h = tt
  IsKey-uncovered t ((j, v) ∷ es) h =
      if_elim (λ l. All IsKey (names l)) (has_key t j) (λ e. IsKey-uncovered t es h.1)
        (λ e. (h.0, IsKey-uncovered t es h.1))

  -- the layers' live keys are those that read a value
  pub resolve-overlay_get :
      (k : Key) (t : OverlayTxn U)
      → flat (resolve k (t.updates ∷ t.data_layer ∷ [])) ≡ overlay_get t.data_layer t.updates k
  unfolding overlay_get
  resolve-overlay_get k t = ground (arith, get-none k t.data_layer)

  -- Each key of a list reads as undefined once it is deleted, and every other key as before.
  read-del_each :
      (reg : Registry U) (base : RTxn U) (ks : List Key) (t : OverlayTxn U) (key ty : Key)
      (rep : Rep)
      → read reg base key ty rep (del_each ks t)
        ≡ (if member key ks then some none else read reg base key ty rep t)
  unfolding read overlay_get
  read-del_each reg base ks t key ty rep =
      ground (arith, has-del_each key ks t, get-del_each key ks t, data_layer-del_each ks t)

-- ascending, and exactly the base's keys that no layer covers and the layers' live ones under a prefix
abbrev pub IsSliceKeys : {U : Type 0} → OverlayTxn U → Layer (Option U) → Key → List Key → Type 0
IsSliceKeys t es prefix ks =
    IsSorted ks
    × ((k : Key)
        → member k ks ≡ (
            (member k (names es) && not (has_key t k))
            || (is_some (overlay_get t.data_layer t.updates k) && starts_with prefix k)))

-- The keys a deletion lists: the base's that no layer covers, and the layers' live ones.
keys_under-IsSliceKeys :
    {U : Type 0} (fuel : ℕ) (base : RTxn U) (prefix : Key) (t : OverlayTxn U)
    (es : Layer (Option U))
    → (bang_end prefix == length prefix) ≡ true
    → scan_all fuel base (slice_request prefix) none ≡ some es
    → All IsKey (names es)
    → All IsKey (names t.data_layer)
    → All IsKey (names t.updates)
    → (ks : List Key) × (keys_under fuel base prefix t ≡ some ks) × IsSliceKeys t es prefix ks
unfolding keys_under
keys_under-IsSliceKeys fuel base prefix t es b e u ud uu =
    let live = layer_keys (λ k. starts_with prefix k) (t.data_layer ∷ t.updates ∷ []) in
    let over = names (uncovered t es) in
    let all = add_each live (add_each over []) in
    let layers : AreKeyed (λ k. starts_with prefix k) (t.data_layer ∷ t.updates ∷ []) =
      (ud, (uu, tt)) in
    let law = layer_keys_lem (λ k. starts_with prefix k) (t.data_layer ∷ t.updates ∷ []) layers in
    (
      sort_keys all,
      rw (b, e) refl,
      (
        sort_keys-IsSorted all
            (IsKey-add_each live (add_each over [])
              (IsKey-layer_keys (λ k. starts_with prefix k) (t.data_layer ∷ t.updates ∷ []) layers)
              (IsKey-add_each over [] (IsKey-uncovered t es u) tt))
            (IsDistinct-add_each live (add_each over []) (IsDistinct-add_each over [] tt)),
        λ k. ground (
          arith,
          member-sort_keys k all,
          member-add_each k live (add_each over []),
          member-add_each k over [],
          member-uncovered k t es,
          law.1 k,
          resolve-overlay_get k t,
        ),
      ),
    )

-- For a prefix with one exclamation mark, at its end, or an empty one, a base whose scan of the
-- slice ends within the fuel, and keys of 16-bit units, delPrefix answers in ascending order
-- exactly the keys of the base that no layer covers and those under the prefix that read a value
-- in the layers, after which each of them reads as undefined and every other key as before.
pub read-del_prefix :
    {U : Type 0} (reg : Registry U) (fuel : ℕ) (base : RTxn U) (prefix : Key) (t : OverlayTxn U)
    → (es : Layer (Option U)) → (bang_end prefix == length prefix) ≡ true
    → scan_all fuel base (slice_request prefix) none ≡ some es
    → All IsKey (names es)
    → All IsKey (names t.data_layer)
    → All IsKey (names t.updates)
    → (ks : List Key) × (after : OverlayTxn U) × (del_prefix fuel base prefix t ≡ some (after, ks))
      × IsSliceKeys t es prefix ks
      × ((key ty : Key) (rep : Rep)
          → read reg base key ty rep after
            ≡ (if member key ks then some none else read reg base key ty rep t))
unfolding del_prefix
read-del_prefix reg fuel base prefix t es b e u ud uu =
    let (ks, found, law) = keys_under-IsSliceKeys fuel base prefix t es b e u ud uu in
    (ks, del_each ks t, rw found refl, law, λ key ty rep. read-del_each reg base ks t key ty rep)
