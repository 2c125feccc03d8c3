-- ===== src/Msgpack/Reader/Kinds.antt =====
-- `Reader.kind` before each form that `Writer` puts.
use phaselock.Prelude.{
  ℕ, ◌≡◌, refl, List, [], ◌∷◌, ◌++◌, Bool, true, false, leb, ltb, ◌==◌, ◌&&◌, arith, if_elim, ℤ,
  pos, negsuc, some,
}
use phaselock.Keys.{Key}
use phaselock.Msgpack.{Kind, ok, Vendor}
use phaselock.Msgpack.Forms
use phaselock.Msgpack.Reader.{Reader, kind, kind_at}
use phaselock.Msgpack.Reader.Laws.{At}

-- These bytes are not empty, and their first byte is of a kind.
abbrev pub Begins : Kind → List ℕ → Type 0
Begins k [] = ⊥
Begins k (b ∷ xs) = kind_at b ≡ some k

pub kind-Begins :
    (k : Kind) (xs rest : List ℕ) (r : Reader) → Begins k xs → At r (xs ++ rest) → kind r ≡ ok k
unfolding kind
kind-Begins k [] rest r h a = absurd h
kind-Begins k (b ∷ xs) rest r h a = ground (arith, a.before)

pub int-Begins : (v : Vendor) (z : ℤ) → Begins Kind.int (Forms.int v z)
unfolding Forms.int kind_at
int-Begins v (pos n) =
    let P = Begins Kind.int in
    if_elim P (ltb n 0x80) (λ e. (ground arith))
      λ _.
        if_elim P (ltb n 0x100) (λ e. refl)
          λ _.
            if_elim P (ltb n 0x10000) (λ e. refl)
              λ _. if_elim P (ltb n 0x100000000) (λ e. refl) λ _. refl
int-Begins v (negsuc n) =
    let P = Begins Kind.int in
    if_elim P (ltb n 0x20) (λ e. (ground arith))
      λ _.
        if_elim P (ltb n 0x80) (λ e. refl)
          λ _.
            if_elim P (ltb n 0x8000) (λ e. refl)
              λ _. if_elim P (ltb n 0x80000000) (λ e. refl) λ _. refl

pub array-Begins : (n : ℕ) (xs : List ℕ) → Begins Kind.array (Forms.array_header n ++ xs)
unfolding Forms.array_header kind_at
array-Begins n xs =
    let P = λ (hs : List ℕ). Begins Kind.array (hs ++ xs) in
    if_elim P (ltb n 16) (λ e. (ground arith)) λ _. if_elim P (ltb n 0x10000) (λ e. refl) λ _. refl

pub map-Begins : (n : ℕ) (xs : List ℕ) → Begins Kind.map (Forms.map_header n ++ xs)
unfolding Forms.map_header kind_at
map-Begins n xs =
    let P = λ (hs : List ℕ). Begins Kind.map (hs ++ xs) in
    if_elim P (ltb n 16) (λ e. (ground arith)) λ _. if_elim P (ltb n 0x10000) (λ e. refl) λ _. refl

pub str-Begins : (v : Vendor) (s : Key) → Begins Kind.str (Forms.str v s)
unfolding Forms.str kind_at
str-Begins v s =
    let n = v.utf8_count s in
    let P = λ (hs : List ℕ). Begins Kind.str (hs ++ v.utf8_encode s) in
    if_elim P (ltb n 32) (λ e. (ground arith))
      λ _. if_elim P (ltb n 0x100) (λ e. refl) λ _. if_elim P (ltb n 0x10000) (λ e. refl) λ _. refl

pub bool-Begins : (b : Bool) → Begins Kind.bool (Forms.bool b)
unfolding Forms.bool kind_at
bool-Begins true = refl
bool-Begins false = refl

pub nil-Begins : Begins Kind.nil Forms.nil
unfolding kind_at
nil-Begins = refl

pub float64-Begins : (bs : List ℕ) → Begins Kind.float (Forms.float64 bs)
unfolding kind_at
float64-Begins bs = refl

spec-Begins : (v : Vendor) (sec : ℤ) (nsec : ℕ) → Begins Kind.ext (Forms.spec v sec nsec)
unfolding Forms.spec kind_at
spec-Begins v (negsuc s) nsec = refl
spec-Begins v (pos sec) nsec =
    let P = Begins Kind.ext in
    if_elim P (leb sec 0x3ffffffff)
      (λ _. if_elim P (nsec == 0 && leb sec 0xffffffff) (λ _. refl) λ _. refl) λ _. refl

pub timestamp-Begins : (v : Vendor) (ms : ℤ) → Begins Kind.ext (Forms.timestamp v ms)
unfolding Forms.timestamp
timestamp-Begins v ms = spec-Begins v (v.time_spec ms).0 (v.time_spec ms).1
