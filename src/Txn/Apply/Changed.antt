-- ===== src/Txn/Apply/Changed.antt =====
-- The keys that the applications answer are all those that they change.
use phaselock.Prelude.{
  ℕ, ◌≡◌, ◌∙◌, refl, List, [], ◌∷◌, ◌++◌, Bool, true, false, ◌||◌, not, Option, none, some,
  if◌then◌else◌, arith, sym, ap, Bool-cases, inl, inr, some_inj, is_neg,
}
use phaselock.Keys.{Key, key_eq, starts_with, compare_keys}
use phaselock.Keys.Sorted.{member, key_eq_iff}
use phaselock.Layer.{layer_get}
use phaselock.Layer.Laws.{get-put, has-put}
use phaselock.Txn.{Txn, keys_under, del_prefix}
use phaselock.Txn.Reps.{Stored, bytes_at, then_some}
use phaselock.Txn.Writes.{layer_get-del_all}
use phaselock.Txn.Apply.{
  Reads, Changing, written, write, add_changed, add_all_changed, apply_ops, clear, cleared,
  apply_edit, apply_all, apply_edits, apply_parked_keys, apply_parked, apply_page, apply_pages,
  apply_snapshot, is_death, in_slice, slice_of,
}
use phaselock.Wire.Edits.{Lifecycle}

out_of-append_one :
    (j k : Key) (ks : List Key)
    → member j (ks ++ k ∷ []) ≡ false
    → (member j ks ≡ false) × (key_eq k j ≡ false)
out_of-append_one j k [] h = ground arith
out_of-append_one j k (i ∷ ks) h = ground (arith, out_of-append_one j k ks)

out_of-add_changed :
    (j k : Key) (ks : List Key)
    → member j (add_changed k ks) ≡ false
    → (member j ks ≡ false) × (key_eq k j ≡ false)
out_of-add_changed j k ks h = elim (Bool-cases (member k ks)) [
  | inl e ↦
      let g : member j ks ≡ false = ground arith in
      (
        g,
        elim (Bool-cases (key_eq k j)) [
          | inl y ↦
              let same : k ≡ j = key_eq_iff k j y in
              absurd (ground (arith, ap (λ (x : Key). member x ks) same))
          | inr n ↦ n
        ],
      )
  | inr e ↦ out_of-append_one j k ks (ground arith)
]

out_of-add_all_changed :
    (j : Key) (ks changed : List Key)
    → member j (add_all_changed ks changed) ≡ false
    → (member j changed ≡ false) × (member j ks ≡ false)
out_of-add_all_changed j [] changed h = (h, refl)
out_of-add_all_changed j (k ∷ ks) changed h =
    let a = out_of-add_all_changed j ks (add_changed k changed) h in
    let b = out_of-add_changed j k changed a.0 in (b.0, ground (arith, a.1, b.1))

-- what can be applied to a transaction
pub data Application : Type 0 where
  edits : List (Key × Lifecycle × List ℕ) → Application
  parked : Key → ℕ → Application
  snapshot : Key → List Key → Application

module _ {U : Type 0} where
  unfoldable pub apply : Reads → Application → Txn (Stored U) → Option (Changing U)
  apply reg (Application.edits es) t = apply_edits reg es t
  apply reg (Application.parked slice from_seq) t = apply_parked reg slice from_seq t
  apply reg (Application.snapshot selector skip) t = apply_snapshot reg selector skip t

  -- a key that is not among the changed ones reads as before
  abbrev pub Tracks : Changing U → Changing U → Type 0
  Tracks c d =
      (j : Key)
      → member j d.1 ≡ false
      → (member j c.1 ≡ false)
        × (layer_get d.0.values d.0.updates j ≡ layer_get c.0.values c.0.updates j)

  Tracks-trans : (a b c : Changing U) → Tracks a b → Tracks b c → Tracks a c
  Tracks-trans a b c h k j e = let y = k j e in let x = h j y.0 in (x.0, y.1 ∙ x.1)

  write-Tracks :
      (key : Key) (value : Option (List ℕ)) (c : Changing U) → Tracks c (write key value c)
  unfolding write layer_get
  write-Tracks key value (t, changed) j e =
      let a = out_of-add_changed j key changed e in
      (
        a.0,
        ground (
          arith,
          a.1,
          get-put key j (written value) t.updates,
          has-put key j (written value) t.updates,
        ),
      )

  clear-Tracks : (slice : Key) (c : Changing U) → Tracks c (clear slice c)
  unfolding del_prefix
  clear-Tracks slice (t, changed) j e =
      let keys = keys_under t (slice ++ b'!' ∷ []) in
      let a = out_of-add_all_changed j keys changed e in
      (a.0, layer_get-del_all t.values keys t.updates j ∙ ground (arith, a.1))

  cleared-Tracks :
      (slice : Key) (life : Lifecycle) (c : Changing U) → Tracks c (cleared slice life c)
  cleared-Tracks slice Lifecycle.normal c j e = (e, refl)
  cleared-Tracks slice Lifecycle.birth c j e = clear-Tracks slice c j e
  cleared-Tracks slice Lifecycle.death c j e = clear-Tracks slice c j e

  -- a run that succeeds tracks what it changes
  abbrev Runs : Changing U → Option (Changing U) → Type 0
  Runs c run = (d : Changing U) → run ≡ some d → Tracks c d

  Runs-fail : (c : Changing U) → Runs c none
  Runs-fail c d e = absurd (cc e)

  Runs-same : (c : Changing U) → Runs c (some c)
  Runs-same c d e j h =
      let same : c ≡ d = some_inj e in
      (
        ap (λ (x : Changing U). member j x.1) same ∙ h,
        ap (λ (x : Changing U). layer_get x.0.values x.0.updates j) (sym same),
      )

  Runs-then :
      {A : Type 0} (o : Option A) (f : A → Option (Changing U)) (c : Changing U)
      → ((a : A) → Runs c (f a))
      → Runs c (then_some o f)
  Runs-then none f c h = Runs-fail c
  Runs-then (some a) f c h = h a

  Runs-after : (a b : Changing U) (run : Option (Changing U)) → Tracks a b → Runs b run → Runs a run
  Runs-after a b run h k d e = Tracks-trans a b d h (k d e)

  Runs-chain :
      (c : Changing U) (run : Option (Changing U)) (f : Changing U → Option (Changing U))
      → Runs c run
      → ((d : Changing U) → Runs d (f d))
      → Runs c (then_some run f)
  Runs-chain c none f h k = Runs-fail c
  Runs-chain c (some b) f h k = Runs-after c b (f b) (h b refl) (k b)

  Runs-if :
      (c : Changing U) (b : Bool) (x y : Option (Changing U))
      → Runs c x
      → Runs c y
      → Runs c (if b then x else y)
  Runs-if c true x y h k = h
  Runs-if c false x y h k = k

  apply_ops-Runs :
      (slice : Key) (life : Lifecycle) (ops : List (Key × Option (List ℕ))) (c : Changing U)
      → Runs c (apply_ops slice life ops c)
  unfolding apply_ops
  apply_ops-Runs slice life [] c = Runs-same c
  apply_ops-Runs slice life ((key, value) ∷ ops) c =
      let next = write key value c in
      Runs-if c (is_death life || not (in_slice slice (slice_of key))) none
        (apply_ops slice life ops next) (Runs-fail c)
        (Runs-after c next (apply_ops slice life ops next) (write-Tracks key value c)
          (apply_ops-Runs slice life ops next))

  module _ (reg : Reads) where
    apply_edit-Runs :
        (slice : Key) (life : Lifecycle) (bytes : List ℕ) (c : Changing U)
        → Runs c (apply_edit reg slice life bytes c)
    unfolding apply_edit
    apply_edit-Runs slice life bytes c =
        Runs-then (reg.ops bytes true) (λ ops. apply_ops slice life ops (cleared slice life c)) c
          λ ops.
            Runs-after c (cleared slice life c) (apply_ops slice life ops (cleared slice life c))
              (cleared-Tracks slice life c) (apply_ops-Runs slice life ops (cleared slice life c))

    apply_all-Runs :
        (es : List (Key × Lifecycle × List ℕ)) (c : Changing U) → Runs c (apply_all reg es c)
    unfolding apply_all
    apply_all-Runs [] c = Runs-same c
    apply_all-Runs ((slice, life, bytes) ∷ es) c =
        Runs-chain c (apply_edit reg slice life bytes c) (apply_all reg es)
          (apply_edit-Runs slice life bytes c) (λ d. apply_all-Runs es d)

    parked-Runs :
        (slice from : Key) (keys : List Key) (c : Changing U)
        → Runs c (apply_parked_keys reg slice from keys c)
    unfolding apply_parked_keys
    parked-Runs slice from [] c = Runs-same c
    parked-Runs slice from (key ∷ keys) c =
        Runs-if c (is_neg (compare_keys key from)) _ _ (parked-Runs slice from keys c) (
          Runs-then (bytes_at key c.0) _ c λ bytes. Runs-then (reg.lifecycle bytes) _ c λ life.
            Runs-chain c (apply_edit reg slice life bytes c) (apply_parked_keys reg slice from keys)
              (apply_edit-Runs slice life bytes c) (λ d. parked-Runs slice from keys d))

    page-Runs :
        (prefix : Key) (skip : List Key) (ops : List (Key × Option (List ℕ))) (c : Changing U)
        → Runs c (apply_page reg prefix skip ops c)
    unfolding apply_page
    page-Runs prefix skip [] c = Runs-same c
    page-Runs prefix skip ((key, value) ∷ ops) c =
        let next = write key value c in
        Runs-if c (not (starts_with prefix key)) none _ (Runs-fail c) (
          Runs-then (slice_of key) _ c λ s.
            Runs-if c (member s skip) _ _ (page-Runs prefix skip ops c)
              (Runs-after c next _ (write-Tracks key value c) (page-Runs prefix skip ops next)))

    pages-Runs :
        (prefix : Key) (skip pages : List Key) (c : Changing U)
        → Runs c (apply_pages reg prefix skip pages c)
    unfolding apply_pages
    pages-Runs prefix skip [] c = Runs-same c
    pages-Runs prefix skip (page ∷ pages) c = Runs-then (bytes_at page c.0) _ c λ bytes.
        Runs-then (reg.ops bytes false) _ c λ ops.
          Runs-chain c (apply_page reg prefix skip ops c) (apply_pages reg prefix skip pages)
            (page-Runs prefix skip ops c) (λ d. pages-Runs prefix skip pages d)

  -- what a transaction reads at a key
  abbrev pub reads : Txn (Stored U) → Key → Option (Stored U)
  reads t j = layer_get t.values t.updates j

  -- Whatever the registry makes of their bytes: if a transaction applies edits, the parked edits
  -- of a slice from a seq on, or a parked snapshot, and does not throw, then a key that is not
  -- among the changed keys it answers reads as before.
  pub apply-changed :
      (reg : Reads) (a : Application) (t : Txn (Stored U)) (d : Changing U) (j : Key)
      → apply reg a t ≡ some d
      → member j d.1 ≡ false
      → reads d.0 j ≡ reads t j
  unfolding apply apply_edits apply_parked apply_snapshot
  apply-changed reg (Application.edits es) t d j e h = (apply_all-Runs reg es (t, []) d e j h).1
  apply-changed reg (Application.parked slice from_seq) t d j e h =
      (parked-Runs reg slice _ _ (t, []) d e j h).1
  apply-changed reg (Application.snapshot selector skip) t d j e h =
      (pages-Runs reg _ skip _ (t, []) d e j h).1
