-- ===== src/Scan/Sound.antt =====
-- A scan ends, and hands its visitor only stored keys that match.
use mathlib.Core.Path.{subst}
use phaselock.Prelude.{
  ℕ, zero, suc, ◌≤◌, ◌<◌, ◌≡◌, ◌⊎◌, ◌∙◌, refl, sym, ap, List, [], ◌∷◌, Bool, true, false, Option,
  none, some, drop, arith, Bool-cases, inl, inr, All,
}
use phaselock.Keys.{Key}
use phaselock.Keys.Order.{IsKey}
use phaselock.Keys.Sorted.{member, key_eq_refl}
use phaselock.KeyList.Partition.{count}
use phaselock.Cursor.{KeyCursor}
use phaselock.Cursor.Walks.{Walks, first, tail}
use phaselock.Cursor.Array.{drop-suc}
use phaselock.Scan.{is_past_target, approach}
use phaselock.Scan.Ends.{
  is_past_target-eq-onward, InOrder, behind, filter-onward, All-drop_first, count-lt,
  Antitone-behind,
}

pub list-cases : (xs : List Key) → (xs ≡ []) ⊎ ((k : Key) × (ks : List Key) × (xs ≡ k ∷ ks))
list-cases [] = inl refl
list-cases (k ∷ ks) = inr (k, ks, refl)

pub member-drop :
    (m : ℕ) (xs : List Key) (k : Key) (ks : List Key) → drop m xs ≡ k ∷ ks → member k xs ≡ true
member-drop zero [] k ks e = absurd (cc)
member-drop zero (x ∷ xs) k ks e = let s : x ≡ k = cc in rw (s, key_eq_refl k) refl
member-drop (suc m) [] k ks e = absurd (cc)
member-drop (suc m) (x ∷ xs) k ks e = ground (arith, member-drop m xs k ks e)

module _ (cursor : KeyCursor) (reverse : Bool) (t : Key) (strict : Bool) (budget : ℕ)
    (s : cursor.State) where
  -- the three ways that a step toward a target ends
  approach_end :
      cursor.key (cursor.step s) ≡ none → approach cursor reverse t strict (suc budget) s ≡ none
  unfolding approach
  approach_end e = ground arith

  approach_past :
      (k : Key)
      → cursor.key (cursor.step s) ≡ some k
      → is_past_target reverse t strict k ≡ true
      → approach cursor reverse t strict (suc budget) s ≡ some (cursor.step s)
  unfolding approach
  approach_past k e h = ground arith

  approach_ahead :
      (k : Key)
      → cursor.key (cursor.step s) ≡ some k
      → is_past_target reverse t strict k ≡ false
      → approach cursor reverse t strict (suc budget) s
        ≡ approach cursor reverse t strict budget (cursor.step s)
  unfolding approach
  approach_ahead k e h = ground arith

module _ {cursor : KeyCursor} {reverse : Bool} {all : List Key} (w : Walks cursor reverse all)
    (units : All IsKey all) (ordered : InOrder reverse all) where
  pub step_drop :
      (s : cursor.State) (m : ℕ) (k : Key) (ks : List Key)
      → w.Rest s (drop m all)
      → drop m all ≡ k ∷ ks
      → w.Rest (cursor.step s) (drop (suc m) all)
  step_drop s m k ks r e =
      subst (w.Rest (cursor.step s)) (sym (drop-suc m all ∙ ap tail e))
        (w.step_rest s k ks (subst (w.Rest s) e r))

  pub key_drop :
      (s : cursor.State) (m : ℕ) (k : Key) (ks : List Key)
      → w.Rest s (drop m all)
      → drop m all ≡ k ∷ ks
      → cursor.key s ≡ some k
  key_drop s m k ks r e = w.key_rest s (drop m all) r ∙ ap first e

  -- further on than at the index `m`
  abbrev pub Landed : Option cursor.State → ℕ → Type 0
  Landed none m = Unit
  Landed (some s) m = (n : ℕ) × (m < n) × w.Rest s (drop n all)

  Landed-later : (o : Option cursor.State) (m n : ℕ) → m ≤ n → Landed o n → Landed o m
  Landed-later none m n h l = tt
  Landed-later (some s) m n h (p, l, r) = (p, omega arith, r)

  pub approach-Landed :
      (t : Key) (strict : Bool) (budget : ℕ) (s : cursor.State) (m : ℕ) (k : Key) (ks : List Key)
      → IsKey t
      → w.Rest s (drop m all)
      → drop m all ≡ k ∷ ks
      → is_past_target reverse t strict k ≡ false
      → Landed (approach cursor reverse t strict budget s) m
  approach-Landed t strict zero s m k ks ht r e h =
      let hk = All-drop_first IsKey m all k ks units e in
      let p : behind reverse t strict k ≡ true =
        ground (arith, is_past_target-eq-onward reverse t strict k ht hk) in
      let anti = Antitone-behind reverse t strict all ht units ordered in
      unfold approach in
      (
        count (behind reverse t strict) all,
        count-lt (behind reverse t strict) m all k ks anti e p,
        subst (w.Rest (cursor.seek (some t) strict s))
            (filter-onward reverse t strict all ht units ordered)
            (w.seek_rest (some t) strict s ht),
      )
  approach-Landed t strict (suc budget) s m k ks ht r e h =
      let s' = cursor.step s in
      let r' = step_drop s m k ks r e in
      elim (list-cases (drop (suc m) all)) [
        | inl n ↦
            rw
              (approach_end cursor reverse t strict budget s
                (w.key_rest s' (drop (suc m) all) r' ∙ ap first n))
              tt
        | inr (k', ks', e') ↦ elim (Bool-cases (is_past_target reverse t strict k')) [
          | inl past ↦
              rw
                (approach_past cursor reverse t strict budget s k'
                  (key_drop s' (suc m) k' ks' r' e') past)
                (suc m, omega arith, r')
          | inr ahead ↦
              rw
                (approach_ahead cursor reverse t strict budget s k'
                  (key_drop s' (suc m) k' ks' r' e') ahead)
                (Landed-later (approach cursor reverse t strict budget s') m (suc m) (omega arith)
                  (approach-Landed t strict budget s' (suc m) k' ks' ht r' e' ahead))
        ]
      ]
