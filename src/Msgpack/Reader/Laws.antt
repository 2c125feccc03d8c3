-- ===== src/Msgpack/Reader/Laws.antt =====
-- What a reader has before it: the bytes from its cursor to its end.
use phaselock.Prelude.{
  ℕ, zero, suc, ◌+◌, ◌≤◌, ◌≡◌, refl, List, [], ◌∷◌, ◌++◌, take, drop, length, arith, length-append,
  ap, ◌∙◌, sym,
}
use mathlib.Core.List.{append_assoc}
use phaselock.Msgpack.{ok, ◌>>=◌}
use phaselock.Msgpack.Reader.{Reader, Read, advance, need}

drop-nil {ℓ} : {A : Type ℓ} (n : ℕ) → drop {A = A} n [] ≡ []
drop-nil zero = refl
drop-nil (suc n) = refl

pub drop-add {ℓ} : {A : Type ℓ} (m n : ℕ) (xs : List A) → drop (m + n) xs ≡ drop n (drop m xs)
drop-add {A} zero n xs = ap (λ (k : ℕ). drop k xs) (omega arith)
drop-add {A} (suc m) n [] = drop-nil (suc m + n) ∙ sym (drop-nil n)
drop-add {A} (suc m) n (x ∷ xs) =
    let e : suc m + n ≡ suc (m + n) = omega arith in rw e (drop-add m n xs)

pub drop-append_self {ℓ} : {A : Type ℓ} (xs ys : List A) → drop (length xs) (xs ++ ys) ≡ ys
drop-append_self [] ys = refl
drop-append_self (x ∷ xs) ys = drop-append_self xs ys

pub take-append_self {ℓ} : {A : Type ℓ} (xs ys : List A) → take (length xs) (xs ++ ys) ≡ xs
take-append_self [] ys = refl
take-append_self {A} (x ∷ xs) ys = ap (λ (l : List A). x ∷ l) (take-append_self xs ys)

pub take_exact : (n : ℕ) (xs ys zs : List ℕ) → length xs ≡ n → take n ((xs ++ ys) ++ zs) ≡ xs
take_exact n xs ys zs h = rw (← h) (
    ap (λ (l : List ℕ). take (length xs) l) (append_assoc xs ys zs)
    ∙ take-append_self xs (ys ++ zs))

-- `xs` are the bytes from the cursor to the end; `tail` follows them in the buffer.
pub record At (r : Reader) (xs : List ℕ) : Type 0 where
  pub tail : List ℕ
  pub before : drop r.at r.buf ≡ xs ++ tail
  pub ends : r.end ≡ r.at + length xs

-- past what was read
pub At-advance : (r : Reader) (xs ys : List ℕ) → At r (xs ++ ys) → At (advance (length xs) r) ys
At-advance r xs ys h = record {
  tail = h.tail;
  before =
      drop-add r.at (length xs) r.buf
      ∙ ap (λ (l : List ℕ). drop (length xs) l) (h.before ∙ append_assoc xs ys h.tail)
      ∙ drop-append_self xs (ys ++ h.tail);
  ends = omega (arith, h.ends, length-append {0} xs ys);
}

-- what `need` and the reads of bytes find
pub At-need : (r : Reader) (n : ℕ) (xs : List ℕ) → At r xs → n ≤ length xs → need n r ≡ ok tt
At-need r n xs h k = ground arith

-- A read that takes these bytes, whatever follows them, and answers a.
abbrev pub Decodes : {A : Type 0} → (Reader → Read A) → List ℕ → A → Type 0
Decodes read xs a =
    (r : Reader) (rest : List ℕ) → At r (xs ++ rest) → read r ≡ ok (a, advance (length xs) r)

pub advance-advance :
    (xs ys : List ℕ) (r : Reader)
    → advance (length ys) (advance (length xs) r) ≡ advance (length (xs ++ ys)) r
advance-advance xs ys r =
    let e : r.at + length xs + length ys ≡ r.at + length (xs ++ ys) =
      omega (arith, length-append {0} xs ys) in
    ap (λ (k : ℕ). record r { at = k }) e

-- A read and what follows it.
pub Decodes-then :
    {A B : Type 0} (read : Reader → Read A) (f : A × Reader → Read B) (xs ys : List ℕ) (a : A)
    (b : B)
    → Decodes read xs a
    → Decodes (λ r. f (a, r)) ys b
    → Decodes (λ r. read r >>= f) (xs ++ ys) b
Decodes-then read f xs ys a b first second r rest h =
    let h' : At r (xs ++ (ys ++ rest)) = rw (← append_assoc xs ys rest) h in
    ap (λ m. m >>= f) (first r (ys ++ rest) h')
    ∙ second (advance (length xs) r) rest (At-advance r xs (ys ++ rest) h')
    ∙ ap (λ u. ok (b, u)) (advance-advance xs ys r)

-- a read of nothing
pub Decodes-ok : {A : Type 0} (a : A) → Decodes (λ r. ok (a, r)) [] a
Decodes-ok a r rest h =
    let e : r.at ≡ r.at + 0 = omega arith in ap (λ (k : ℕ). ok (a, record r { at = k })) e
