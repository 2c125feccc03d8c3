-- ===== src/Overlay/Pages.antt =====
-- What a page of `OverlayTxn.scan` of typespec/ts/assets/skeleton.ts holds: the keys of the base's batch
-- and the layers' in its span, in walk order, each with the value that the layers put over it.
use mathlib.Core.Path.{subst}
use Prim.Native.Nat.{◌-◌}
use phaselock.Prelude.{
  ◌≡◌, refl, ◌∙◌, ap, List, [], ◌∷◌, Bool, true, false, not, ◌&&◌, ◌||◌, Option, none, some,
  if◌then◌else◌, arith, length, if_elim, take, get_elem?, leb, All, Bool-cases, Option-cases,
  some_inj, inl, inr,
}
use phaselock.Keys.{Key, sort_keys}
use phaselock.Keys.Order.{IsKey}
use phaselock.Keys.Sorted.{IsSorted, member, key_eq-eq}
use phaselock.Keys.Sort.{IsDistinct, sort_keys-IsSorted, member-sort_keys}
use phaselock.Layer.{Layer, has, get, put, names, is_some, flat, layer_keys}
use phaselock.Layer.Laws.{
  get-put, has-put, get-none, IsDistinct-put, IsKey-put, layer_keys_lem, IsKey-layer_keys,
}
use phaselock.Pattern.{CompiledPattern, compile_pattern}
use phaselock.Pattern.Place.{span_covers}
use phaselock.Txn.Reps.{Rep, Registry, then_some}
use phaselock.Overlay.{
  RTxn, ScanRequest, StoreScan, OverlayTxn, has_key, overlay_get, uncovered, put_each, shown_value,
  merge_layers, look_up, page, page_next, walk_order, span_of, scan,
}
use phaselock.Overlay.Reads.{
  has-put_each, get-put_each, member-uncovered, IsKey-uncovered, resolve-overlay_get,
}

module _ {U : Type 0} where
  IsDistinct-put_each :
      (es m : Layer (Option U)) → IsDistinct (names m) → IsDistinct (names (put_each es m))
  IsDistinct-put_each [] m d = d
  IsDistinct-put_each ((k, v) ∷ es) m d =
      IsDistinct-put_each es (put k v m) (IsDistinct-put k v m d)

  IsKey-put_each :
      (es m : Layer (Option U))
      → All IsKey (names es)
      → All IsKey (names m)
      → All IsKey (names (put_each es m))
  IsKey-put_each [] m u h = h
  IsKey-put_each ((k, v) ∷ es) m u h = IsKey-put_each es (put k v m) u.1 (IsKey-put k v m u.0 h)

  get-uncovered :
      (k : Key) (t : OverlayTxn U) (es : Layer (Option U))
      → has_key t k ≡ false
      → get k (uncovered t es) ≡ get k es
  get-uncovered k t [] h = refl
  get-uncovered k t ((j, v) ∷ es) h = ground (arith, get-uncovered k t es h, key_eq-eq j k)

  IsDistinct-uncovered :
      (t : OverlayTxn U) (es : Layer (Option U))
      → IsDistinct (names es)
      → IsDistinct (names (uncovered t es))
  IsDistinct-uncovered t [] d = tt
  IsDistinct-uncovered t ((j, v) ∷ es) d =
      if_elim (λ l. IsDistinct (names l)) (has_key t j) (λ e. IsDistinct-uncovered t es d.1)
        (λ e. (ground (arith, member-uncovered j t es), IsDistinct-uncovered t es d.1))

  names-look_up : (m : Layer (Option U)) (ks : List Key) → names (look_up m ks) ≡ ks
  names-look_up m [] = refl
  names-look_up m (k ∷ ks) = ap (λ l. k ∷ l) (names-look_up m ks)

  get-look_up :
      (k : Key) (m : Layer (Option U)) (ks : List Key)
      → member k ks ≡ true
      → get k (look_up m ks) ≡ some (flat (get k m))
  get-look_up k m [] h = ground arith
  get-look_up k m (j ∷ ks) h = ground (arith, get-look_up k m ks, key_eq-eq j k)

module _ {U : Type 0} (reg : Registry U) (base : RTxn U) (values : Option (Key × Rep))
    (t : OverlayTxn U) where
  -- a map of distinct keys, those of a list over those of another map
  record IsMerged (ks : List Key) (before after : Layer (Option U)) : Type 0 where
    keyed : All IsKey (names after)
    distinct : IsDistinct (names after)
    holds : (k : Key) → has k after ≡ (member k ks || has k before)
    shows :
        (k : Key)
        → member k ks ≡ true
        → shown_value reg base values (overlay_get t.data_layer t.updates k)
          ≡ some (flat (get k after))
    keeps : (k : Key) → member k ks ≡ false → get k after ≡ get k before

  IsMerged-step :
      (j : Key) (v : Option U) (ks : List Key) (before after : Layer (Option U))
      → shown_value reg base values (overlay_get t.data_layer t.updates j) ≡ some v
      → IsMerged ks (put j v before) after
      → IsMerged (j ∷ ks) before after
  IsMerged-step j v ks before after e h = record {
    keyed = h.keyed;
    distinct = h.distinct;
    holds = λ k. ground (arith, h.holds k, has-put j k v before, key_eq-eq j k);
    shows = λ k m. ground (
      arith,
      h.shows k,
      h.keeps k,
      get-put j k v before,
      key_eq-eq j k,
      Bool-cases (member k ks),
    );
    keeps = λ k m. ground (arith, h.keeps k, get-put j k v before, key_eq-eq j k);
  }

  merge_layers_lem :
      (ks : List Key) (before after : Layer (Option U))
      → All IsKey ks
      → All IsKey (names before)
      → IsDistinct (names before)
      → merge_layers reg base values t ks before ≡ some after
      → IsMerged ks before after
  unfolding merge_layers
  merge_layers_lem [] before after uk ub d e =
      subst (λ m. IsMerged [] before m) (some_inj e)
        (record {
          keyed = ub;
          distinct = d;
          holds = λ k. refl;
          shows = λ k m. ground arith;
          keeps = λ k m. refl;
        })
  merge_layers_lem (j ∷ ks) before after uk ub d e =
      elim (Option-cases (shown_value reg base values (overlay_get t.data_layer t.updates j))) [
        | inl n ↦ ground (arith, e, n)
        | inr (v, n) ↦ IsMerged-step j v ks before after n (
            merge_layers_lem ks (put j v before) after uk.1 (IsKey-put j v before uk.0 ub)
              (IsDistinct-put j v before d) (rw n at e))
      ]

module _ {U : Type 0} (reg : Registry U) (base : RTxn U) (req : ScanRequest) (t : OverlayTxn U)
    (c : CompiledPattern) (batch : StoreScan U) where
  -- the layers read a value there, in the batch's span
  abbrev pub is_layered : Key → Bool
  is_layered k =
      is_some (overlay_get t.data_layer t.updates k) && span_covers (span_of req batch.next c) k

  -- the page of the keys in a list, ascending, each with the layers' value over the base's
  pub record IsPage (p : StoreScan U) : Type 0 where
    pub all : List Key
    pub sorted : IsSorted all
    pub holds :
        (k : Key)
        → member k all ≡ (is_layered k || (member k (names batch.entries) && not (has_key t k)))
    pub listed : names p.entries ≡ take req.limit (walk_order req.reverse all)
    pub next :
        p.next
        ≡ page_next
            (if leb req.limit (length (walk_order req.reverse all))
              then get_elem? (walk_order req.reverse all) (req.limit - 1)
              else none)
            batch.next
    pub layered :
        (k : Key)
        → has k p.entries ≡ true
        → is_layered k ≡ true
        → shown_value reg base req.values (overlay_get t.data_layer t.updates k)
          ≡ some (flat (get k p.entries))
    pub based :
        (k : Key)
        → has k p.entries ≡ true
        → has_key t k ≡ false
        → get k p.entries ≡ some (flat (get k batch.entries))

  abbrev layers : List (Layer (Option U))
  layers = t.data_layer ∷ t.updates ∷ []

  abbrev spanned : List Key
  spanned = layer_keys (λ k. span_covers (span_of req batch.next c) k) layers

  abbrev over : Layer (Option U)
  over = put_each (uncovered t batch.entries) []

  member-spanned :
      (k : Key)
      → All IsKey (names t.data_layer)
      → All IsKey (names t.updates)
      → member k spanned ≡ is_layered k
  member-spanned k ud uu =
      let law =
        layer_keys_lem (λ k. span_covers (span_of req batch.next c) k) layers (ud, (uu, tt)) in
      rw (law.1 k, resolve-overlay_get k t) refl

  -- a key that no layer covers keeps the base's entry
  get-over :
      (k : Key)
      → IsDistinct (names batch.entries)
      → has_key t k ≡ false
      → get k over ≡ get k batch.entries
  get-over k d h = ground (
    arith,
    get-put_each k (uncovered t batch.entries) [] (IsDistinct-uncovered t batch.entries d),
    get-uncovered k t batch.entries h,
    get-none k (uncovered t batch.entries),
  )

  not_layered : (k : Key) → has_key t k ≡ false → is_layered k ≡ false
  unfolding overlay_get
  not_layered k h = ground (arith, get-none k t.data_layer)

  IsPage-page :
      (merged : Layer (Option U))
      → IsDistinct (names batch.entries)
      → All IsKey (names t.data_layer)
      → All IsKey (names t.updates)
      → IsMerged reg base req.values t spanned over merged
      → IsPage (page req batch.next merged)
  unfolding page
  IsPage-page merged d ud uu h =
      let ks = take req.limit (walk_order req.reverse (sort_keys (names merged))) in
      record {
        all = sort_keys (names merged);
        sorted = sort_keys-IsSorted (names merged) h.keyed h.distinct;
        holds = λ k. ground (
          arith,
          member-sort_keys k (names merged),
          h.holds k,
          member-spanned k ud uu,
          has-put_each k (uncovered t batch.entries) [],
          member-uncovered k t batch.entries,
        );
        listed = names-look_up merged ks;
        next = refl;
        layered = λ k m l.
            rw (get-look_up k merged ks (rw (names-look_up merged ks) at m))
              (h.shows k (member-spanned k ud uu ∙ l));
        based = λ k m n.
            rw
              (
                get-look_up k merged ks (rw (names-look_up merged ks) at m),
                h.keeps k (member-spanned k ud uu ∙ not_layered k n),
                get-over k d n,
              )
              refl;
      }

  -- If a scan of the overlay does not throw, where the batch of the base has distinct keys of
  -- 16-bit units, the layers have such keys and the pattern compiles, then there is an ascending
  -- list of keys, exactly those of the batch that no layer covers and those in the span of the
  -- batch that read a value in the layers, of which the page lists the first ones in walk order,
  -- at most as many as the limit; its next key is the last of a full page and else that of the
  -- batch; and each entry holds the value of the layers where they have one, and that of the batch
  -- where no layer covers the key.
  pub scan_lem :
      (p : StoreScan U)
      → base.scan req ≡ some batch
      → compile_pattern req.pattern ≡ some c
      → All IsKey (names batch.entries)
      → IsDistinct (names batch.entries)
      → All IsKey (names t.data_layer)
      → All IsKey (names t.updates)
      → scan reg base req t ≡ some p
      → IsPage p
  unfolding scan
  scan_lem p eb ec u d ud uu e =
      let e' : then_some (merge_layers reg base req.values t spanned over)
            (λ merged. some (page req batch.next merged))
          ≡ some p =
        rw (eb, ec) at e in
      elim (Option-cases (merge_layers reg base req.values t spanned over)) [
        | inl n ↦ ground (arith, e', n)
        | inr (merged, n) ↦ subst IsPage (some_inj (rw n at e')) (
            IsPage-page merged d ud uu (
              merge_layers_lem reg base req.values t spanned over merged
                (IsKey-layer_keys (λ k. span_covers (span_of req batch.next c) k) layers
                  (ud, (uu, tt)))
                (IsKey-put_each (uncovered t batch.entries) [] (IsKey-uncovered t batch.entries u)
                  tt)
                (IsDistinct-put_each (uncovered t batch.entries) [] tt) n))
      ]
