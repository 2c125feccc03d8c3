-- ===== src/Msgpack/Reader/Headers.antt =====
-- The headers of arrays, maps and strings are read back, and so are nil, booleans and doubles.
use phaselock.Prelude.{
  ℕ, ◌+◌, ◌<◌, ◌≡◌, List, [], ◌∷◌, ◌++◌, Bool, true, false, ltb, length, arith, length-append,
  if_elim, ltb→lt, some,
}
use phaselock.Msgpack.{ok, Vendor, float}
use phaselock.Msgpack.Bytes.{u16, u32}
use phaselock.Msgpack.Forms
use phaselock.Msgpack.Reader.{Reader, advance, array_header, map_header, try_str_header}
use phaselock.Msgpack.Reader.Laws.{At, Decodes, take_exact}
use phaselock.Msgpack.Reader.Scalars.{bool, nil, float_at}

array_fixed : (n : ℕ) → n < 16 → Decodes array_header ((0x90 + n) ∷ []) n
unfolding array_header
array_fixed n h r rest a = ground (arith, a.before)

array_16 : (n : ℕ) → n < 65536 → Decodes array_header (0xdc ∷ u16 n) n
unfolding array_header
array_16 n h r rest a = ground (arith, a.before)

array_32 : (n : ℕ) → n < 4294967296 → Decodes array_header (0xdd ∷ u32 n) n
unfolding array_header
array_32 n h r rest a = ground (arith, a.before)

pub array_header_lem : (n : ℕ) → n < 4294967296 → Decodes array_header (Forms.array_header n) n
unfolding Forms.array_header
array_header_lem n h =
    let P = λ (xs : List ℕ). Decodes array_header xs n in
    if_elim P (ltb n 16) (λ e. array_fixed n (ltb→lt _ _ e))
      λ _. if_elim P (ltb n 0x10000) (λ e. array_16 n (ltb→lt _ _ e)) λ _. array_32 n h

map_fixed : (n : ℕ) → n < 16 → Decodes map_header ((0x80 + n) ∷ []) n
unfolding map_header
map_fixed n h r rest a = ground (arith, a.before)

map_16 : (n : ℕ) → n < 65536 → Decodes map_header (0xde ∷ u16 n) n
unfolding map_header
map_16 n h r rest a = ground (arith, a.before)

map_32 : (n : ℕ) → n < 4294967296 → Decodes map_header (0xdf ∷ u32 n) n
unfolding map_header
map_32 n h r rest a = ground (arith, a.before)

pub map_header_lem : (n : ℕ) → n < 4294967296 → Decodes map_header (Forms.map_header n) n
unfolding Forms.map_header
map_header_lem n h =
    let P = λ (xs : List ℕ). Decodes map_header xs n in
    if_elim P (ltb n 16) (λ e. map_fixed n (ltb→lt _ _ e))
      λ _. if_elim P (ltb n 0x10000) (λ e. map_16 n (ltb→lt _ _ e)) λ _. map_32 n h

str_fixed : (n : ℕ) → n < 32 → Decodes try_str_header ((0xa0 + n) ∷ []) (some n)
unfolding try_str_header
str_fixed n h r rest a = ground (arith, a.before)

str_8 : (n : ℕ) → Decodes try_str_header (0xd9 ∷ n ∷ []) (some n)
unfolding try_str_header
str_8 n r rest a = ground (arith, a.before)

str_16 : (n : ℕ) → n < 65536 → Decodes try_str_header (0xda ∷ u16 n) (some n)
unfolding try_str_header
str_16 n h r rest a = ground (arith, a.before)

str_32 : (n : ℕ) → n < 4294967296 → Decodes try_str_header (0xdb ∷ u32 n) (some n)
unfolding try_str_header
str_32 n h r rest a = ground (arith, a.before)

pub try_str_header_lem :
    (n : ℕ) → n < 4294967296 → Decodes try_str_header (Forms.str_header n) (some n)
unfolding Forms.str_header
try_str_header_lem n h =
    let P = λ (xs : List ℕ). Decodes try_str_header xs (some n) in
    if_elim P (ltb n 32) (λ e. str_fixed n (ltb→lt _ _ e))
      λ _.
        if_elim P (ltb n 0x100) (λ e. str_8 n)
          λ _. if_elim P (ltb n 0x10000) (λ e. str_16 n (ltb→lt _ _ e)) λ _. str_32 n h

pub bool_lem : (b : Bool) → Decodes bool (Forms.bool b) b
unfolding bool Forms.bool
bool_lem true r rest a = ground (arith, a.before)
bool_lem false r rest a = ground (arith, a.before)

pub nil_lem : (r : Reader) (rest : List ℕ) → At r (Forms.nil ++ rest) → nil r ≡ ok (advance 1 r)
unfolding nil
nil_lem r rest a = ground (arith, a.before)

module _ (v : Vendor) where
  pub float_lem :
      (bs : List ℕ)
      → length bs ≡ 8
      → v.get_float64 bs ≡ float bs
      → Decodes (float_at v) (Forms.float64 bs) (float bs)
  unfolding float_at
  float_lem bs h k r rest a =
      ground (arith, a.before, length-append {0} bs rest, take_exact 8 bs rest a.tail h)
