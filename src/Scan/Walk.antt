-- ===== src/Scan/Walk.antt =====
-- A scan ends, and hands its visitor only stored keys that match.
use mathlib.Core.Path.{subst}
use phaselock.Prelude.{
  ℕ, zero, suc, ◌-◌, ◌<◌, ◌≡◌, ◌⊎◌, ◌∙◌, refl, ap, List, ◌∷◌, Bool, true, false, Option, none, some,
  length, length-drop, drop, arith, Bool-cases, inl, inr, All,
}
use phaselock.Keys.{Key, prefix_end}
use phaselock.Keys.Order.{IsKey}
use phaselock.Keys.Sorted.{member}
use phaselock.KeyList.Partition.{count}
use phaselock.Cursor.{KeyCursor}
use phaselock.Cursor.Walks.{Walks, first, IsTarget}
use phaselock.Cursor.Array.{filter-true}
use phaselock.Pattern.{CompiledPattern}
use phaselock.Pattern.Place.{Placement, place_key, match, step, done, seek_to}
use phaselock.Pattern.Targets.{FieldIsKey, place_key-TargetIsKey}
use phaselock.Scan.{
  is_past_target, approach, walk_start, walk_loop, walk_pattern, turn, turn_at, Turn, end, go_on,
  is_some_key,
}
use phaselock.Scan.Ends.{InOrder, behind, filter-onward, All-drop_first}
use phaselock.Scan.Sound.{list-cases, member-drop, step_drop, key_drop, Landed, approach-Landed}

Turn-cases :
    {C S : Type 0} (t : Turn C S) → ((v : S) × (t ≡ end v)) ⊎ ((s : C) × (v : S) × (t ≡ go_on s v))
Turn-cases (end v) = inl (v, refl)
Turn-cases (go_on s v) = inr (s, v, refl)

seek_drop :
    {cursor : KeyCursor} {reverse : Bool} {all : List Key} (w : Walks cursor reverse all)
    (units : All IsKey all) (ordered : InOrder reverse all) (o : Option Key) (strict : Bool)
    → IsTarget o
    → (m : ℕ) × w.Rest (cursor.seek o strict cursor.start) (drop m all)
seek_drop {cursor} {reverse} {all} w units ordered none strict t = (
  0,
  subst (w.Rest (cursor.seek none strict cursor.start)) (filter-true all)
      (w.seek_rest none strict cursor.start t),
)
seek_drop {cursor} {reverse} {all} w units ordered (some k) strict t = (
  count (behind reverse k strict) all,
  subst (w.Rest (cursor.seek (some k) strict cursor.start))
      (filter-onward reverse k strict all t units ordered)
      (w.seek_rest (some k) strict cursor.start t),
)

start_drop :
    {cursor : KeyCursor} (reverse : Bool) {all : List Key} (w : Walks cursor reverse all)
    (units : All IsKey all) (ordered : InOrder reverse all) (c : CompiledPattern)
    (after : Option Key)
    → IsTarget after
    → IsKey c.head
    → IsTarget (prefix_end c.head)
    → (m : ℕ) × w.Rest (walk_start cursor c reverse after) (drop m all)
unfolding walk_start
start_drop reverse w units ordered c (some after) t h e =
    seek_drop w units ordered (some after) true t
start_drop false w units ordered c none t h e = seek_drop w units ordered (some c.head) false h
start_drop true w units ordered c none t h e =
    seek_drop w units ordered (prefix_end c.head) (is_some_key (prefix_end c.head)) e

module _ {cursor : KeyCursor} {reverse : Bool} {all : List Key} (w : Walks cursor reverse all)
    (units : All IsKey all) (ordered : InOrder reverse all) (c : CompiledPattern)
    (targets : (k t : Key) (strict : Bool)
      → IsKey k
      → place_key c k reverse ≡ seek_to t strict
      → IsKey t)
    (budget : ℕ) {S : Type 0} (visit : Key → S → S × Bool) (P : S → Type 0)
    (keep : (k : Key) (v : S)
      → member k all ≡ true
      → place_key c k reverse ≡ match
      → P v
      → P (visit k v).0) where
  abbrev Turned : Turn cursor.State S → ℕ → Type 0
  Turned (end v) m = P v
  Turned (go_on s v) m = P v × ((n : ℕ) × (m < n) × w.Rest s (drop n all))

  Landed-turn :
      (o : Option cursor.State) (m : ℕ) (v : S)
      → Landed w units ordered o m
      → P v
      → Turned (elim o [ none ↦ end v | some s' ↦ go_on s' v ]) m
  Landed-turn none m v l p = p
  Landed-turn (some s) m v l p = (p, l)

  turn_at-Turned :
      (k : Key) (ks : List Key) (q : Placement) (s : cursor.State) (m : ℕ) (v : S)
      → place_key c k reverse ≡ q
      → w.Rest s (drop m all)
      → drop m all ≡ k ∷ ks
      → P v
      → Turned (turn_at cursor c reverse budget visit k q s v) m
  unfolding turn_at
  turn_at-Turned k ks done s m v q r e p = p
  turn_at-Turned k ks step s m v q r e p =
      (p, (suc m, omega arith, step_drop w units ordered s m k ks r e))
  turn_at-Turned k ks match s m v q r e p =
      let p' = keep k v (member-drop m all k ks e) q p in
      elim (Bool-cases (visit k v).1) [
        | inl more ↦ rw more (p', (suc m, omega arith, step_drop w units ordered s m k ks r e))
        | inr last ↦ rw last p'
      ]
  turn_at-Turned k ks (seek_to t strict) s m v q r e p =
      let hk = All-drop_first IsKey m all k ks units e in
      elim (Bool-cases (is_past_target reverse t strict k)) [
        | inl past ↦ rw past (p, (suc m, omega arith, step_drop w units ordered s m k ks r e))
        | inr ahead ↦ rw ahead (
            Landed-turn (approach cursor reverse t strict budget s) m v
              (approach-Landed w units ordered t strict budget s m k ks (targets k t strict hk q) r
                e ahead)
              p)
      ]

  turned :
      (s : cursor.State) (m : ℕ) (v : S) (k : Key) (ks : List Key)
      → w.Rest s (drop m all)
      → drop m all ≡ k ∷ ks
      → P v
      → Turned (turn cursor c reverse budget visit (some k) s v) m
  unfolding turn
  turned s m v k ks r e p = turn_at-Turned k ks (place_key c k reverse) s m v refl r e p

  loop_end :
      (fuel : ℕ) (s : cursor.State) (v v' : S)
      → turn cursor c reverse budget visit (cursor.key s) s v ≡ end v'
      → walk_loop cursor c reverse budget visit (suc fuel) s v ≡ some v'
  unfolding walk_loop
  loop_end fuel s v v' e = ground arith

  loop_on :
      (fuel : ℕ) (s s' : cursor.State) (v v' : S)
      → turn cursor c reverse budget visit (cursor.key s) s v ≡ go_on s' v'
      → walk_loop cursor c reverse budget visit (suc fuel) s v
        ≡ walk_loop cursor c reverse budget visit fuel s' v'
  unfolding walk_loop
  loop_on fuel s s' v v' e = ground arith

  turn-none : (s : cursor.State) (v : S) → turn cursor c reverse budget visit none s v ≡ end v
  unfolding turn
  turn-none s v = refl

  -- Each round leaves fewer keys, so the loop ends, and what holds of the visitor's state still does.
  loop_ends :
      (fuel : ℕ) (s : cursor.State) (m : ℕ) (v : S)
      → w.Rest s (drop m all)
      → length all - m < fuel
      → P v
      → (v' : S) × (walk_loop cursor c reverse budget visit fuel s v ≡ some v') × P v'
  loop_ends zero s m v r h p = absurd (omega arith)
  loop_ends (suc fuel) s m v r h p = elim (list-cases (drop m all)) [
    | inl n ↦
        let e : cursor.key s ≡ none = w.key_rest s (drop m all) r ∙ ap first n in
        (v, loop_end fuel s v v (rw e (turn-none s v)), p)
    | inr (k, ks, e) ↦
        let g = key_drop w units ordered s m k ks r e in
        let t = turned s m v k ks r e p in
        let long : length (drop m all) ≡ length (k ∷ ks) = ap length e in
        let l = length-drop m all in
        elim (Turn-cases (turn cursor c reverse budget visit (some k) s v)) [
          | inl (v', q) ↦ (v', loop_end fuel s v v' (rw g q), rw q at t)
          | inr (s', v', q) ↦
              let (p', (n, m', r')) = subst (λ (z : Turn cursor.State S). Turned z m) q t in
              let (v'', f, p'') = loop_ends fuel s' n v' r' (omega arith) p' in
              (v'', loop_on fuel s s' v v' (rw g q) ∙ f, p'')
        ]
  ]

  walk_pattern_ends :
      (fuel : ℕ) (after : Option Key) (v : S)
      → IsTarget after
      → IsKey c.head
      → IsTarget (prefix_end c.head)
      → length all < fuel
      → P v
      → (v' : S) × (walk_pattern cursor c reverse budget visit fuel after v ≡ some v') × P v'
  unfolding walk_pattern
  walk_pattern_ends fuel after v t h e enough p =
      let (m, r) = start_drop reverse w units ordered c after t h e in
      loop_ends fuel (walk_start cursor c reverse after) m v r (omega arith) p

module _ {cursor : KeyCursor} {reverse : Bool} {all : List Key} (w : Walks cursor reverse all)
    (units : All IsKey all) (ordered : InOrder reverse all) (c : CompiledPattern)
    (texts : All FieldIsKey c.fields) (budget : ℕ) {S : Type 0} (visit : Key → S → S × Bool)
    (P : S → Type 0)
    (keep : (k : Key) (v : S)
      → member k all ≡ true
      → place_key c k reverse ≡ match
      → P v
      → P (visit k v).0) where
  -- Over a cursor that walks keys of 16-bit units in walk order, for a compiled pattern whose
  -- texts and head, with their prefix ends, have 16-bit units, from the start or just past a key
  -- of 16-bit units, with any budget of steps and more fuel than there are keys, a scan ends, and
  -- whatever held of the state of the visitor before still holds, where each visit of a key of the
  -- list that is placed on a match keeps it.
  pub walk_pattern_lem :
      (fuel : ℕ) (after : Option Key) (v : S)
      → IsTarget after
      → IsKey c.head
      → IsTarget (prefix_end c.head)
      → length all < fuel
      → P v
      → (v' : S) × (walk_pattern cursor c reverse budget visit fuel after v ≡ some v') × P v'
  walk_pattern_lem fuel after v t h e enough p =
      walk_pattern_ends w units ordered c
        (λ k t strict hk q. place_key-TargetIsKey c k reverse t strict texts hk q) budget visit P
        keep fuel after v t h e enough p
