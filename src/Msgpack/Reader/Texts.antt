-- ===== src/Msgpack/Reader/Texts.antt =====
-- `Reader.str`, `tryStr` and `bin` read back what `Writer.str` and `bin` write.
use phaselock.Prelude.{
  ℕ, ◌<◌, refl, List, [], ◌∷◌, ltb, length, arith, length-append, if_elim, ltb→lt, Option, some,
  none, ◌≡◌,
}
use phaselock.Keys.{Key}
use phaselock.Msgpack.{ok, ◌>>◌, Vendor, VendorLaws}
use phaselock.Msgpack.Bytes.{u16, u32}
use phaselock.Msgpack.Encode.{IsText}
use phaselock.Msgpack.Forms
use phaselock.Msgpack.Reader.{Reader, Read, advance, bytes, need, try_str_header, str_header}
use phaselock.Msgpack.Reader.Laws.{Decodes, Decodes-then, take_exact}
use phaselock.Msgpack.Reader.Headers.{try_str_header_lem}
use phaselock.Msgpack.Reader.Scalars.{str, try_str, bin, bin_length}

pub str_header_lem : (n : ℕ) → n < 4294967296 → Decodes str_header (Forms.str_header n) n
unfolding str_header
str_header_lem n h r rest a = rw (try_str_header_lem n h r rest a) refl

module _ (v : Vendor) (l : VendorLaws v) where
  abbrev text_of : ℕ × Reader → Read Key
  text_of (n, r) = do need n r; ok (v.utf8_decode (bytes r 0 n), advance n r)

  text-Decodes :
      (s : Key)
      → v.utf8_decode (v.utf8_encode s) ≡ s
      → Decodes (λ r. text_of (v.utf8_count s, r)) (v.utf8_encode s) s
  text-Decodes s h r rest a = ground (
    arith,
    a.before,
    l.length-utf8 s,
    h,
    length-append {0} (v.utf8_encode s) rest,
    take_exact (v.utf8_count s) (v.utf8_encode s) rest a.tail (l.length-utf8 s),
  )

  pub str_lem : (s : Key) → IsText v s → Decodes (str v) (Forms.str v s) s
  unfolding str Forms.str
  str_lem s h =
      Decodes-then str_header text_of (Forms.str_header (v.utf8_count s)) (v.utf8_encode s)
        (v.utf8_count s) s (str_header_lem (v.utf8_count s) h.1)
        (text-Decodes s (l.decode-utf8 s h.0))

  abbrev try_text_of : Option ℕ × Reader → Read (Option Key)
  try_text_of (none, r) = ok (none, r)
  try_text_of (some n, r) = do need n r; ok (some (v.utf8_decode (bytes r 0 n)), advance n r)

  try_text-Decodes :
      (s : Key)
      → v.utf8_decode (v.utf8_encode s) ≡ s
      → Decodes (λ r. try_text_of (some (v.utf8_count s), r)) (v.utf8_encode s) (some s)
  try_text-Decodes s h r rest a = ground (
    arith,
    a.before,
    l.length-utf8 s,
    h,
    length-append {0} (v.utf8_encode s) rest,
    take_exact (v.utf8_count s) (v.utf8_encode s) rest a.tail (l.length-utf8 s),
  )

  pub try_str_lem : (s : Key) → IsText v s → Decodes (try_str v) (Forms.str v s) (some s)
  unfolding try_str Forms.str
  try_str_lem s h =
      Decodes-then try_str_header try_text_of (Forms.str_header (v.utf8_count s)) (v.utf8_encode s)
        (some (v.utf8_count s)) (some s) (try_str_header_lem (v.utf8_count s) h.1)
        (try_text-Decodes s (l.decode-utf8 s h.0))

bin_8 : (n : ℕ) → Decodes bin_length (0xc4 ∷ n ∷ []) n
unfolding bin_length
bin_8 n r rest a = ground (arith, a.before)

bin_16 : (n : ℕ) → n < 65536 → Decodes bin_length (0xc5 ∷ u16 n) n
unfolding bin_length
bin_16 n h r rest a = ground (arith, a.before)

bin_32 : (n : ℕ) → n < 4294967296 → Decodes bin_length (0xc6 ∷ u32 n) n
unfolding bin_length
bin_32 n h r rest a = ground (arith, a.before)

abbrev bin_body : ℕ × Reader → Read (List ℕ)
bin_body (n, r) = do need n r; ok (bytes r 0 n, advance n r)

bin_body-Decodes : (b : List ℕ) → Decodes (λ r. bin_body (length b, r)) b b
bin_body-Decodes b r rest a =
    ground (arith, a.before, length-append {0} b rest, take_exact (length b) b rest a.tail refl)

-- The bytes of a bin of fewer than 2^32 bytes are read back.
pub bin_lem : (b : List ℕ) → length b < 4294967296 → Decodes bin (Forms.bin b) b
unfolding bin Forms.bin
bin_lem b h =
    let n = length b in
    let P = λ (xs : List ℕ). Decodes bin_length xs n in
    let head =
      if_elim P (ltb n 0x100) (λ e. bin_8 n)
        λ _. if_elim P (ltb n 0x10000) (λ e. bin_16 n (ltb→lt _ _ e)) λ _. bin_32 n h in
    Decodes-then bin_length bin_body _ b n b head (bin_body-Decodes b)
