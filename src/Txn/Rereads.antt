-- ===== src/Txn/Rereads.antt =====
-- A read that decodes a value in its place is read again to the same answer, and changes no other key.
use phaselock.Prelude.{
  ◌≡◌, ◌∙◌, List, Bool, true, false, Option, none, some, if◌then◌else◌, ap, sym, arith, Bool-cases,
  inl, inr, some_inj, ℕ,
}
use phaselock.Keys.{Key, key_eq}
use phaselock.Keys.Sorted.{key_eq-eq, key_eq_refl}
use phaselock.Layer.{has, layer_get}
use phaselock.Layer.Laws.{get-put, has-put}
use phaselock.Txn.{Txn}
use phaselock.Txn.Reps.{
  Rep, Stored, packed, decoded, Registry, then_some, is_raw, layer_out, decode_stored, replace,
  unpack, read_stored, out,
}

module _ {U : Type 0} (reg : Registry U) where
  -- a decoded value in the place of its bytes, as the transaction reads it
  replace-reads :
      (key j : Key) (u : U) (t : Txn (Stored U))
      → layer_get (replace reg key u t).values (replace reg key u t).updates j
        ≡ (if key_eq key j then some (decoded u) else layer_get t.values t.updates j)
  unfolding layer_get
  replace-reads key j u t = elim (Bool-cases (has key t.updates)) [
    | inl e ↦ rw e (
        ground (
          arith,
          get-put key j (some (decoded u)) t.updates,
          has-put key j (some (decoded u)) t.updates,
        ))
    | inr e ↦ rw e (elim (Bool-cases (key_eq key j)) [
      | inl y ↦
          let same : key ≡ j = (key_eq-eq key j).0 y in
          let free : has j t.updates ≡ false = ap (λ (x : Key). has x t.updates) (sym same) ∙ e in
          ground (arith, get-put key j (decoded u) t.values)
      | inr n ↦ ground (arith, get-put key j (decoded u) t.values)
    ])
  ]

  module _ (key ty : Key) (rep : Rep) where
    -- the answer comes again, and other keys read as before
    abbrev Stable : Txn (Stored U) → Option U → Txn (Stored U) → Type 0
    Stable t a t' =
        (out reg key ty rep t' ≡ some (a, t'))
        × ((j : Key)
            → key_eq key j ≡ false
            → layer_get t'.values t'.updates j ≡ layer_get t.values t.updates j)

    same-Stable :
        (t : Txn (Stored U)) (a : Option U) (t' : Txn (Stored U))
        → out reg key ty rep t ≡ some (a, t')
        → t ≡ t'
        → Stable t a t'
    same-Stable t a t' e s = (
      ap (λ x. out reg key ty rep x) (sym s) ∙ e,
      λ j n. ap (λ (x : Txn (Stored U)). layer_get x.values x.updates j) (sym s),
    )

    unchanged :
        (o : Option U) (t : Txn (Stored U)) (a : Option U) (t' : Txn (Stored U))
        → then_some {B = Option U × Txn (Stored U)} o (λ u. some (some u, t)) ≡ some (a, t')
        → t ≡ t'
    unchanged none t a t' e = absurd (cc e)
    unchanged (some u) t a t' e = ap (λ x. x.1) (some_inj e)

    -- a stored value decoded in its place
    unpack-Stable :
        (t : Txn (Stored U)) (o : Option U) (a : Option U) (t' : Txn (Stored U))
        → out reg key ty rep t ≡ some (a, t')
        → unpack reg key ty rep t o ≡ some (a, t')
        → Stable t a t'
    unfolding out
    unpack-Stable t none a t' full e = same-Stable t a t' full (ap (λ x. x.1) (some_inj e))
    unpack-Stable t (some u) a t' full e =
        let r = replace reg key u t in
        let s : r ≡ t' = unchanged (layer_out reg ty u rep) r a t' e in
        let now : layer_get r.values r.updates key ≡ some (decoded u) =
          replace-reads key key u t
          ∙ ap (λ (b : Bool). if b then some (decoded u) else layer_get t.values t.updates key)
              (key_eq_refl key) in
        (
          ap (λ x. out reg key ty rep x) (sym s) ∙ rw now e,
          λ j n.
              ap (λ (x : Txn (Stored U)). layer_get x.values x.updates j) (sym s)
              ∙ (replace-reads key j u t
                  ∙ ap
                      (λ (b : Bool). if b then some (decoded u) else layer_get t.values t.updates j)
                      n),
        )

    packed-Stable :
        (raw : Bool) (bytes : List ℕ) (t : Txn (Stored U)) (a : Option U) (t' : Txn (Stored U))
        → out reg key ty rep t ≡ some (a, t')
        → (if raw
            then then_some
                (reg.convert ty (reg.of_bytes bytes) Rep.msgpack rep)
                (λ u. some (some u, t))
            else then_some (decode_stored reg ty bytes) (unpack reg key ty rep t))
          ≡ some (a, t')
        → Stable t a t'
    packed-Stable true bytes t a t' full e =
        same-Stable t a t' full
          (unchanged (reg.convert ty (reg.of_bytes bytes) Rep.msgpack rep) t a t' e)
    packed-Stable false bytes t a t' full e = go (decode_stored reg ty bytes) e
      where
        go :
            (o : Option (Option U))
            → then_some o (unpack reg key ty rep t) ≡ some (a, t')
            → Stable t a t'
        go none e = absurd (cc e)
        go (some o) e = unpack-Stable t o a t' full e

  stored-Stable :
      (key ty : Key) (rep : Rep) (t : Txn (Stored U)) (s : Option (Stored U)) (a : Option U)
      (t' : Txn (Stored U))
      → out reg key ty rep t ≡ some (a, t')
      → read_stored reg key ty rep t s ≡ some (a, t')
      → Stable key ty rep t a t'
  unfolding out
  stored-Stable key ty rep t none a t' full e =
      same-Stable key ty rep t a t' full (ap (λ x. x.1) (some_inj e))
  stored-Stable key ty rep t (some (decoded u)) a t' full e =
      same-Stable key ty rep t a t' full (unchanged key ty rep (layer_out reg ty u rep) t a t' e)
  stored-Stable key ty Rep.msgpack t (some (packed bytes)) a t' full e =
      same-Stable key ty Rep.msgpack t a t' full (ap (λ x. x.1) (some_inj e))
  stored-Stable key ty Rep.js t (some (packed bytes)) a t' full e =
      packed-Stable key ty Rep.js (is_raw ty) bytes t a t' full e
  stored-Stable key ty (Rep.other n) t (some (packed bytes)) a t' full e =
      packed-Stable key ty (Rep.other n) (is_raw ty) bytes t a t' full e

  -- If a read of a key in a type and a representation does not throw, the same read of the
  -- transaction that it leaves, where bytes may have been decoded in their place, gives the same
  -- answer and leaves that transaction, and every other key has the stored value it had.
  pub out_again :
      (key ty : Key) (rep : Rep) (t : Txn (Stored U)) (a : Option U) (t' : Txn (Stored U)) (j : Key)
      → out reg key ty rep t ≡ some (a, t')
      → key_eq key j ≡ false
      → (out reg key ty rep t' ≡ some (a, t'))
        × (layer_get t'.values t'.updates j ≡ layer_get t.values t.updates j)
  unfolding out
  out_again key ty rep t a t' j e n =
      let s = stored-Stable key ty rep t (layer_get t.values t.updates key) a t' e e in
      (s.0, s.1 j n)
