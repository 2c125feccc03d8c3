-- ===== src/Msgpack/Writer/Laws.antt =====
-- A writer keeps what it wrote and appends each form, in a buffer that is always large enough.
use phaselock.Prelude.{
  ℕ, zero, suc, ◌+◌, ◌-◌, ◌*◌, ◌≤◌, ◌<◌, ◌≡◌, refl, List, [], ◌∷◌, ◌++◌, leb, take, length, arith,
  length-append, length-take, ap, ◌∙◌, Bool-cases, inl, inr, leb→le,
}
use phaselock.Msgpack.Writer.{Writer, zeros, new_writer, doubled, ensure, store, put, bytes}

-- the cursor lies in the buffer, and doubling makes a buffer longer
pub record IsValid (w : Writer) : Type 0 where
  pub inside : w.at ≤ length w.buf
  pub some_room : 0 < length w.buf

pub length-zeros : (n : ℕ) → length (zeros n) ≡ n
length-zeros zero = refl
length-zeros (suc n) = ap (λ (k : ℕ). suc k) (length-zeros n)

-- The fuel is enough: the loop ends with a size that holds the target.
doubled_enough :
    (fuel size target : ℕ) → 0 < size → target ≤ size + fuel → target ≤ doubled fuel size target
unfolding doubled
doubled_enough zero size target h k = omega arith
doubled_enough (suc fuel) size target h k = ground (arith, doubled_enough fuel (size * 2) target)

pub length-store : (n : ℕ) (xs bs : List ℕ) → length (store n xs bs) ≡ length xs
length-store zero xs [] = refl
length-store zero [] (b ∷ bs) = refl
length-store zero (x ∷ xs) (b ∷ bs) = ap (λ (k : ℕ). suc k) (length-store zero xs bs)
length-store (suc n) [] bs = refl
length-store (suc n) (x ∷ xs) bs = ap (λ (k : ℕ). suc k) (length-store n xs bs)

pub take-store :
    (n : ℕ) (xs bs : List ℕ)
    → n + length bs ≤ length xs
    → take (n + length bs) (store n xs bs) ≡ take n xs ++ bs
take-store zero xs [] h = refl
take-store zero [] (b ∷ bs) h = absurd (omega arith)
take-store zero (x ∷ xs) (b ∷ bs) h = ground (arith, take-store zero xs bs)
take-store (suc n) [] bs h = absurd (omega arith)
take-store (suc n) (x ∷ xs) bs h =
    let e : suc n + length bs ≡ suc (n + length bs) = omega arith in
    rw e (ap (λ (l : List ℕ). x ∷ l) (take-store n xs bs (omega arith)))

take-take_append : (n : ℕ) (xs ys : List ℕ) → n ≤ length xs → take n (take n xs ++ ys) ≡ take n xs
take-take_append zero xs ys h = refl
take-take_append (suc n) [] ys h = absurd (omega arith)
take-take_append (suc n) (x ∷ xs) ys h =
    ap (λ (l : List ℕ). x ∷ l) (take-take_append n xs ys (omega arith))

-- room for n bytes at the cursor, and what was written kept
record Ensured (n : ℕ) (w w' : Writer) : Type 0 where
  same : w'.at ≡ w.at
  kept : take w.at w'.buf ≡ take w.at w.buf
  room : w.at + n ≤ length w'.buf
  nonempty : 0 < length w'.buf

ensure_lem : (n : ℕ) (w : Writer) → IsValid w → Ensured n w (ensure n w)
unfolding ensure
ensure_lem n w h = elim (Bool-cases (leb (w.at + n) (length w.buf))) [
  | inl e ↦ rw e (record { same = refl; kept = refl; room = leb→le _ _ e; nonempty = h.some_room })
  | inr e ↦
      let size = doubled (w.at + n) (length w.buf * 2) (w.at + n) in
      let long : length (take w.at w.buf ++ zeros (size - w.at)) ≡ w.at + (size - w.at) = omega (
        arith,
        length-append {0} (take w.at w.buf) (zeros (size - w.at)),
        length-take {0} w.at w.buf,
        length-zeros (size - w.at),
        h.inside,
      ) in
      let enough : w.at + n ≤ size =
        doubled_enough (w.at + n) (length w.buf * 2) (w.at + n) (omega (arith, h.some_room))
          (omega arith) in
      let short : length w.buf < w.at + n = ground arith in
      rw e (record {
        same = refl;
        kept = take-take_append w.at w.buf (zeros (size - w.at)) h.inside;
        room = omega (arith, long, enough);
        nonempty = omega (arith, long, enough, short);
      })
]

-- A writer whose cursor lies in its buffer, which is not empty, appends the bytes of a form of at
-- most as many bytes as it makes sure of: the bytes written are those before followed by the form,
-- none is lost past the buffer's end, and the cursor still lies in the buffer.
pub bytes-put :
    (n : ℕ) (bs : List ℕ) (w : Writer)
    → IsValid w
    → length bs ≤ n
    → IsValid (put n bs w) × (bytes (put n bs w) ≡ bytes w ++ bs)
unfolding put bytes
bytes-put n bs w h k =
    let e = ensure_lem n w h in
    let w' = ensure n w in
    let stored = length-store w'.at w'.buf bs in
    let room : w'.at + length bs ≤ length w'.buf = omega (arith, e.room, e.same) in
    (
      record {
        inside = omega (arith, stored, room);
        some_room = omega (arith, stored, e.nonempty);
      },
      take-store w'.at w'.buf bs room
          ∙ ap (λ (l : List ℕ). l ++ bs) (ap (λ (a : ℕ). take a w'.buf) e.same ∙ e.kept),
    )

pub new_writer-IsValid : IsValid new_writer × (bytes new_writer ≡ [])
unfolding new_writer bytes
new_writer-IsValid = (record { inside = omega arith; some_room = omega arith }, refl)
