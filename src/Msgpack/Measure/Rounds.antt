-- ===== src/Msgpack/Measure/Rounds.antt =====
-- One round of `measure` at each form that `Writer` puts.
use phaselock.Prelude.{
  ℕ, ◌+◌, ◌*◌, ◌/◌, ◌%◌, ◌≤◌, ◌<◌, ◌≡◌, refl, List, [], ◌∷◌, ◌++◌, Bool, true, false, ◌&&◌, if_elim,
  ltb→lt, ltb, leb, ◌==◌, some, arith, length, length-append, ℤ, pos, negsuc,
}
use phaselock.Keys.{Key}
use phaselock.Msgpack.{ok, Vendor, VendorLaws}
use phaselock.Msgpack.Bytes.{u16, u32, word}
use phaselock.Msgpack.Forms
use phaselock.Msgpack.Reader.{Reader}
use phaselock.Msgpack.Reader.Laws.{At, drop-add}
use phaselock.Msgpack.Measure.{fixed, head_of, round}

-- One round passes these bytes, whatever follows them, and counts these children.
abbrev pub Passes : List ℕ → ℕ → Type 0
Passes xs children =
    (r : Reader) (rest : List ℕ)
    → At r (xs ++ rest)
    → round r.buf r.at r.end ≡ ok (some (r.at + length xs, children))

fixed_array : (n : ℕ) → n < 16 → Passes ((0x90 + n) ∷ []) n
unfolding round
fixed_array n h r rest a = ground (arith, a.before)

array_16 : (n : ℕ) → n < 65536 → Passes (0xdc ∷ u16 n) n
unfolding round
array_16 n h r rest a = ground (arith, a.before, drop-add {0} r.at 1 r.buf)

array_32 : (n : ℕ) → n < 4294967296 → Passes (0xdd ∷ u32 n) n
unfolding round
array_32 n h r rest a = ground (arith, a.before, drop-add {0} r.at 1 r.buf)

pub array-Passes : (n : ℕ) → n < 4294967296 → Passes (Forms.array_header n) n
unfolding Forms.array_header
array-Passes n h =
    let P = λ (xs : List ℕ). Passes xs n in
    if_elim P (ltb n 16) (λ e. fixed_array n (ltb→lt _ _ e))
      λ _. if_elim P (ltb n 0x10000) (λ e. array_16 n (ltb→lt _ _ e)) λ _. array_32 n h

fixed_map : (n : ℕ) → n < 16 → Passes ((0x80 + n) ∷ []) (n * 2)
unfolding round
fixed_map n h r rest a = ground (arith, a.before)

map_16 : (n : ℕ) → n < 65536 → Passes (0xde ∷ u16 n) (n * 2)
unfolding round
map_16 n h r rest a = ground (arith, a.before, drop-add {0} r.at 1 r.buf)

map_32 : (n : ℕ) → n < 4294967296 → Passes (0xdf ∷ u32 n) (n * 2)
unfolding round
map_32 n h r rest a = ground (arith, a.before, drop-add {0} r.at 1 r.buf)

pub map-Passes : (n : ℕ) → n < 4294967296 → Passes (Forms.map_header n) (n * 2)
unfolding Forms.map_header
map-Passes n h =
    let P = λ (xs : List ℕ). Passes xs (n * 2) in
    if_elim P (ltb n 16) (λ e. fixed_map n (ltb→lt _ _ e))
      λ _. if_elim P (ltb n 0x10000) (λ e. map_16 n (ltb→lt _ _ e)) λ _. map_32 n h

-- the forms with no length in the bytes that follow
byte-Passes : (b : ℕ) → b < 128 → Passes (b ∷ []) 0
unfolding round
byte-Passes b h r rest a = ground (arith, a.before)

high-Passes : (b : ℕ) → 224 ≤ b → Passes (b ∷ []) 0
unfolding round
high-Passes b h r rest a = ground (arith, a.before)

fixed-Passes :
    (b n : ℕ) → head_of b ≡ some (fixed n) → (xs : List ℕ) → length xs ≡ n → Passes (b ∷ xs) 0
unfolding round
fixed-Passes b n e xs h r rest a = ground (arith, a.before, length-append {0} xs rest)

pub bool-Passes : (b : Bool) → Passes (Forms.bool b) 0
unfolding Forms.bool head_of
bool-Passes true = fixed-Passes 0xc3 0 refl [] refl
bool-Passes false = fixed-Passes 0xc2 0 refl [] refl

pub nil-Passes : Passes Forms.nil 0
unfolding head_of
nil-Passes = fixed-Passes 0xc0 0 refl [] refl

pub float64-Passes : (bs : List ℕ) → length bs ≡ 8 → Passes (Forms.float64 bs) 0
unfolding head_of
float64-Passes bs h = fixed-Passes 0xcb 8 refl bs h

str_fixed : (n : ℕ) (bs : List ℕ) → length bs ≡ n → n < 32 → Passes ((0xa0 + n) ∷ bs) 0
unfolding round
str_fixed n bs k h r rest a = ground (arith, a.before, length-append {0} bs rest)

str_8 : (n : ℕ) (bs : List ℕ) → length bs ≡ n → Passes (0xd9 ∷ n ∷ bs) 0
unfolding round
str_8 n bs k r rest a =
    ground (arith, a.before, drop-add {0} r.at 1 r.buf, length-append {0} bs rest)

str_16 : (n : ℕ) (bs : List ℕ) → length bs ≡ n → n < 65536 → Passes (0xda ∷ (u16 n ++ bs)) 0
unfolding round
str_16 n bs k h r rest a =
    ground (arith, a.before, drop-add {0} r.at 1 r.buf, length-append {0} bs rest)

str_32 : (n : ℕ) (bs : List ℕ) → length bs ≡ n → n < 4294967296 → Passes (0xdb ∷ (u32 n ++ bs)) 0
unfolding round
str_32 n bs k h r rest a =
    ground (arith, a.before, drop-add {0} r.at 1 r.buf, length-append {0} bs rest)

module _ (v : Vendor) (l : VendorLaws v) where
  pub str-Passes : (s : Key) → v.utf8_count s < 4294967296 → Passes (Forms.str v s) 0
  unfolding Forms.str
  str-Passes s h =
      let n = v.utf8_count s in
      let bs = v.utf8_encode s in
      let k = l.length-utf8 s in
      let P = λ (xs : List ℕ). Passes (xs ++ bs) 0 in
      if_elim P (ltb n 32) (λ e. str_fixed n bs k (ltb→lt _ _ e))
        λ _.
          if_elim P (ltb n 0x100) (λ e. str_8 n bs k)
            λ _. if_elim P (ltb n 0x10000) (λ e. str_16 n bs k (ltb→lt _ _ e)) λ _. str_32 n bs k h

  pub int-Passes : (z : ℤ) → Passes (Forms.int v z) 0
  unfolding Forms.int head_of
  int-Passes (pos n) =
      let P = λ (xs : List ℕ). Passes xs 0 in
      if_elim P (ltb n 0x80) (λ e. byte-Passes n (ltb→lt _ _ e))
        λ _.
          if_elim P (ltb n 0x100) (λ e. fixed-Passes 0xcc 1 refl (n ∷ []) refl)
            λ _.
              if_elim P (ltb n 0x10000) (λ e. fixed-Passes 0xcd 2 refl (u16 n) refl)
                λ _.
                  if_elim P (ltb n 0x100000000) (λ e. fixed-Passes 0xce 4 refl (u32 n) refl)
                    λ _. fixed-Passes 0xcf 8 refl (v.put_uint64 n) (l.length-uint64 n)
  int-Passes (negsuc n) =
      let P = λ (xs : List ℕ). Passes xs 0 in
      if_elim P (ltb n 0x20) (λ e. high-Passes (word 0x100 (negsuc n)) (ground arith))
        λ _.
          if_elim P (ltb n 0x80) (λ e. fixed-Passes 0xd0 1 refl (word 0x100 (negsuc n) ∷ []) refl)
            λ _.
              if_elim P (ltb n 0x8000)
                (λ e. fixed-Passes 0xd1 2 refl (u16 (word 0x10000 (negsuc n))) refl)
                λ _.
                  if_elim P (ltb n 0x80000000)
                    (λ e. fixed-Passes 0xd2 4 refl (u32 (word 0x100000000 (negsuc n))) refl)
                    λ _.
                      fixed-Passes 0xd3 8 refl (v.put_int64 (negsuc n)) (l.length-int64 (negsuc n))

  long_spec-Passes : (sec : ℤ) (nsec : ℕ) → Passes (Forms.long_spec v sec nsec) 0
  unfolding round
  long_spec-Passes sec nsec r rest a = ground (
    arith,
    a.before,
    drop-add {0} r.at 1 r.buf,
    l.length-int64 sec,
    length-append {0} (v.put_int64 sec) rest,
  )

  spec-Passes : (sec : ℤ) (nsec : ℕ) → Passes (Forms.spec v sec nsec) 0
  unfolding Forms.spec head_of
  spec-Passes (negsuc s) nsec = long_spec-Passes (negsuc s) nsec
  spec-Passes (pos sec) nsec =
      let P = λ (xs : List ℕ). Passes xs 0 in
      if_elim P (leb sec 0x3ffffffff)
        (λ _.
          if_elim P (nsec == 0 && leb sec 0xffffffff)
            (λ _. fixed-Passes 0xd6 5 refl (255 ∷ u32 sec) refl)
            λ _.
              fixed-Passes 0xd7 9 refl
                (255 ∷ (u32 (nsec * 4 + sec / 0x100000000) ++ u32 (sec % 0x100000000))) refl)
        λ _. long_spec-Passes (pos sec) nsec

  pub timestamp-Passes : (ms : ℤ) → Passes (Forms.timestamp v ms) 0
  unfolding Forms.timestamp
  timestamp-Passes ms = spec-Passes (v.time_spec ms).0 (v.time_spec ms).1
