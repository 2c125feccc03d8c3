-- ===== src/Layer/Laws.antt =====
-- Maps behave as finite functions, and `layerKeys` lists the live keys of a stack of layers.
use mathlib.Core.List.{reverse, reverse-cons}
use phaselock.Prelude.{
  ◌≡◌, refl, ◌∙◌, List, [], ◌∷◌, ◌++◌, Bool, true, false, not, ◌&&◌, ◌||◌, Option, none, some,
  if◌then◌else◌, arith, All, All-append, Bool-cases, inl, inr,
}
use phaselock.Keys.{Key, key_eq}
use phaselock.Keys.Order.{IsKey}
use phaselock.Keys.Sorted.{IsSorted, member, key_eq-eq}
use phaselock.Keys.Sort.{IsDistinct, sort_keys-IsSorted, member-sort_keys, All-sort_keys}
use phaselock.Layer.{
  Layer, names, get, has, put, delete, is_some, flat, collect_layer, collect_layers, layer_keys,
}

module _ {ℓ} {V : Type ℓ} where
  pub has-get : (k : Key) (m : Layer V) → is_some (get k m) ≡ has k m
  has-get k [] = refl
  has-get k ((j, v) ∷ m) = ground (arith, has-get k m)

  pub get-put :
      (k j : Key) (v : V) (m : Layer V)
      → get j (put k v m) ≡ (if key_eq k j then some v else get j m)
  get-put k j v [] = refl
  get-put k j v ((i, w) ∷ m) =
      ground (arith, get-put k j v m, key_eq-eq i k, key_eq-eq i j, key_eq-eq k j)

  pub has-put :
      (k j : Key) (v : V) (m : Layer V) → has j (put k v m) ≡ (if key_eq k j then true else has j m)
  has-put k j v [] = refl
  has-put k j v ((i, w) ∷ m) =
      ground (arith, has-put k j v m, key_eq-eq i k, key_eq-eq i j, key_eq-eq k j)

  pub has-delete :
      (k j : Key) (m : Layer V)
      → IsDistinct (names m)
      → has j (delete k m) ≡ (if key_eq k j then false else has j m)
  has-delete k j [] d = ground arith
  has-delete k j ((i, w) ∷ m) d =
      ground (arith, has-delete k j m d.1, key_eq-eq i k, key_eq-eq i j, key_eq-eq k j)

  pub get-none : (k : Key) (m : Layer V) → has k m ≡ false → get k m ≡ none
  get-none k [] h = refl
  get-none k ((j, v) ∷ m) h = ground (arith, get-none k m)

  pub get-delete :
      (k j : Key) (m : Layer V)
      → IsDistinct (names m)
      → get j (delete k m) ≡ (if key_eq k j then none else get j m)
  get-delete k j [] d = ground arith
  get-delete k j ((i, w) ∷ m) d =
      ground
        (arith, get-delete k j m d.1, get-none j m, key_eq-eq i k, key_eq-eq i j, key_eq-eq k j)

  pub IsDistinct-put :
      (k : Key) (v : V) (m : Layer V) → IsDistinct (names m) → IsDistinct (names (put k v m))
  IsDistinct-put k v [] d = (refl, tt)
  IsDistinct-put k v ((i, w) ∷ m) d =
      ground (arith, IsDistinct-put k v m d.1, has-put k i v m, key_eq-eq i k, key_eq-eq k i)

  pub IsDistinct-delete :
      (k : Key) (m : Layer V) → IsDistinct (names m) → IsDistinct (names (delete k m))
  IsDistinct-delete k [] d = tt
  IsDistinct-delete k ((i, w) ∷ m) d =
      ground (arith, IsDistinct-delete k m d.1, has-delete k i m d.1, key_eq-eq i k, key_eq-eq k i)

  pub IsKey-put :
      (k : Key) (v : V) (m : Layer V)
      → IsKey k
      → All IsKey (names m)
      → All IsKey (names (put k v m))
  IsKey-put k v [] u h = (u, tt)
  IsKey-put k v ((i, w) ∷ m) u h = ground (arith, IsKey-put k v m u h.1)

  pub IsKey-delete : (k : Key) (m : Layer V) → All IsKey (names m) → All IsKey (names (delete k m))
  IsKey-delete k [] h = tt
  IsKey-delete k ((i, w) ∷ m) h = ground (arith, IsKey-delete k m h.1)

pub member-snoc :
    (k j : Key) (ks : List Key) → member k (ks ++ j ∷ []) ≡ (member k ks || key_eq j k)
member-snoc k j [] = ground arith
member-snoc k j (i ∷ ks) = ground (arith, member-snoc k j ks)

pub IsDistinct-snoc :
    (j : Key) (ks : List Key) → IsDistinct ks → member j ks ≡ false → IsDistinct (ks ++ j ∷ [])
IsDistinct-snoc j [] d m = (refl, tt)
IsDistinct-snoc j (i ∷ ks) d m =
    ground (arith, IsDistinct-snoc j ks d.1, member-snoc i j ks, key_eq-eq i j, key_eq-eq j i)

-- what is picked out has been seen, and only once
record IsFresh (seen keys : List Key) : Type 0 where
  distinct : IsDistinct keys
  units : All IsKey keys
  within : (k : Key) → member k seen ≡ false → member k keys ≡ false

IsFresh-push :
    (j : Key) (seen keys : List Key)
    → IsKey j
    → IsFresh seen keys
    → member j seen ≡ false
    → IsFresh (j ∷ seen) (keys ++ j ∷ [])
IsFresh-push j seen keys u h e = record {
  distinct = IsDistinct-snoc j keys h.distinct (h.within j e);
  units = All-append IsKey keys (j ∷ []) h.units (u, tt);
  within = λ k n. ground (arith, member-snoc k j keys, h.within k);
}

IsFresh-skip : (j : Key) (seen keys : List Key) → IsFresh seen keys → IsFresh (j ∷ seen) keys
IsFresh-skip j seen keys h = record {
  distinct = h.distinct;
  units = h.units;
  within = λ k n. ground (arith, h.within k);
}

none_seen : IsFresh [] []
none_seen = record { distinct = tt; units = tt; within = λ k e. refl }

module _ {ℓ} {V : Type ℓ} where
  -- the entry that decides a key, the last layer coming first
  abbrev pub resolve : Key → List (Layer (Option V)) → Option (Option V)
  resolve k [] = none
  resolve k (m ∷ layers) = if has k m then get k m else resolve k layers

module _ {ℓ} {V : Type ℓ} (keep : Key → Bool) where
  -- a key is picked out by its first entry, the last layer coming first
  member-collect_layer :
      (k : Key) (m : Layer (Option V)) (seen keys : List Key)
      → member k (collect_layer keep m seen keys).1
        ≡ (member k keys || (not (member k seen) && (is_some (flat (get k m)) && keep k)))
  unfolding collect_layer
  member-collect_layer k [] seen keys = ground arith
  member-collect_layer k ((j, v) ∷ m) seen keys = ground (
    arith,
    member-collect_layer k m seen keys,
    member-collect_layer k m (j ∷ seen) (keys ++ j ∷ []),
    member-collect_layer k m (j ∷ seen) keys,
    member-snoc k j keys,
    key_eq-eq j k,
  )

  member-seen :
      (k : Key) (m : Layer (Option V)) (seen keys : List Key)
      → member k (collect_layer keep m seen keys).0 ≡ (member k seen || has k m)
  unfolding collect_layer
  member-seen k [] seen keys = ground arith
  member-seen k ((j, v) ∷ m) seen keys = ground (
    arith,
    member-seen k m seen keys,
    member-seen k m (j ∷ seen) (if is_some v && keep j then keys ++ j ∷ [] else keys),
    key_eq-eq j k,
  )

  member-collect_layers :
      (k : Key) (layers : List (Layer (Option V))) (seen keys : List Key)
      → member k (collect_layers keep layers seen keys)
        ≡ (member k keys || (not (member k seen) && (is_some (flat (resolve k layers)) && keep k)))
  unfolding collect_layers
  member-collect_layers k [] seen keys = ground arith
  member-collect_layers k (m ∷ layers) seen keys = ground (
    arith,
    member-collect_layers k layers (collect_layer keep m seen keys).0
        (collect_layer keep m seen keys).1,
    member-collect_layer k m seen keys,
    member-seen k m seen keys,
    get-none k m,
  )

  IsFresh-collect_layer :
      (m : Layer (Option V)) (seen keys : List Key)
      → All IsKey (names m)
      → IsFresh seen keys
      → IsFresh (collect_layer keep m seen keys).0 (collect_layer keep m seen keys).1
  unfolding collect_layer
  IsFresh-collect_layer [] seen keys u h = h
  IsFresh-collect_layer ((j, v) ∷ m) seen keys u h = elim (Bool-cases (member j seen)) [
    | inl e ↦ rw e (IsFresh-collect_layer m seen keys u.1 h)
    | inr e ↦ elim (Bool-cases (is_some v && keep j)) [
      | inl p ↦
          rw (e, p)
            (IsFresh-collect_layer m (j ∷ seen) (keys ++ j ∷ []) u.1
              (IsFresh-push j seen keys u.0 h e))
      | inr p ↦ rw (e, p) (IsFresh-collect_layer m (j ∷ seen) keys u.1 (IsFresh-skip j seen keys h))
    ]
  ]

  abbrev pub AreKeyed : List (Layer (Option V)) → Type 0
  AreKeyed layers = All (λ m. All IsKey (names m)) layers

  IsFresh-collect_layers :
      (layers : List (Layer (Option V))) (seen keys : List Key)
      → AreKeyed layers
      → IsFresh seen keys
      → IsDistinct (collect_layers keep layers seen keys)
        × All IsKey (collect_layers keep layers seen keys)
  unfolding collect_layers
  IsFresh-collect_layers [] seen keys u h = (h.distinct, h.units)
  IsFresh-collect_layers (m ∷ layers) seen keys u h =
      IsFresh-collect_layers layers (collect_layer keep m seen keys).0
        (collect_layer keep m seen keys).1 u.1 (IsFresh-collect_layer m seen keys u.0 h)

  AreKeyed-reverse :
      (layers : List (Layer (Option V))) → AreKeyed layers → AreKeyed (reverse layers)
  AreKeyed-reverse [] h = tt
  AreKeyed-reverse (m ∷ layers) h = rw (reverse-cons m layers) (
      All-append (λ l. All IsKey (names l)) (reverse layers) (m ∷ []) (AreKeyed-reverse layers h.1)
        (h.0, tt))

  pub IsKey-layer_keys :
      (layers : List (Layer (Option V))) → AreKeyed layers → All IsKey (layer_keys keep layers)
  unfolding layer_keys
  IsKey-layer_keys layers h =
      All-sort_keys IsKey (collect_layers keep (reverse layers) [] [])
        (IsFresh-collect_layers (reverse layers) [] [] (AreKeyed-reverse layers h) none_seen).1

  -- Over layers whose keys have 16-bit units, layer_keys lists in strictly ascending order exactly
  -- the keys that the test admits and that the last layer holding them keeps alive.
  pub layer_keys_lem :
      (layers : List (Layer (Option V)))
      → All (λ m. All IsKey (names m)) layers
      → IsSorted (layer_keys keep layers)
        × ((k : Key)
            → member k (layer_keys keep layers)
              ≡ (is_some (flat (resolve k (reverse layers))) && keep k))
  unfolding layer_keys
  layer_keys_lem layers h =
      let layers' = reverse layers in
      let fresh = IsFresh-collect_layers layers' [] [] (AreKeyed-reverse layers h) none_seen in
      (
        sort_keys-IsSorted (collect_layers keep layers' [] []) fresh.1 fresh.0,
        λ k.
            member-sort_keys k (collect_layers keep layers' [] [])
            ∙ member-collect_layers k layers' [] [],
      )
