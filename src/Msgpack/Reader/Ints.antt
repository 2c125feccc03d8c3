-- ===== src/Msgpack/Reader/Ints.antt =====
-- `Reader.int` reads back what `Writer.int` writes.
use phaselock.Prelude.{
  ℕ, ◌<◌, List, [], ◌∷◌, ltb, arith, length-append, ℤ, pos, negsuc, if_elim, ltb→lt,
}
use phaselock.Msgpack.{Vendor, VendorLaws, IsSafe}
use phaselock.Msgpack.Bytes.{u16, u32, word}
use phaselock.Msgpack.Forms
use phaselock.Msgpack.Reader.Laws.{Decodes, take_exact}
use phaselock.Msgpack.Reader.Scalars.{int}

module _ (v : Vendor) where
  fixed_pos : (n : ℕ) → n < 128 → Decodes (int v) (n ∷ []) (pos n)
  unfolding int
  fixed_pos n h r rest a = ground (arith, a.before)

  fixed_neg : (n : ℕ) → n < 32 → Decodes (int v) (word 0x100 (negsuc n) ∷ []) (negsuc n)
  unfolding int
  fixed_neg n h r rest a = ground (arith, a.before)

  u8_form : (n : ℕ) → Decodes (int v) (0xcc ∷ n ∷ []) (pos n)
  unfolding int
  u8_form n r rest a = ground (arith, a.before)

  u16_form : (n : ℕ) → n < 65536 → Decodes (int v) (0xcd ∷ u16 n) (pos n)
  unfolding int
  u16_form n h r rest a = ground (arith, a.before)

  u32_form : (n : ℕ) → n < 4294967296 → Decodes (int v) (0xce ∷ u32 n) (pos n)
  unfolding int
  u32_form n h r rest a = ground (arith, a.before)

  i8_form : (n : ℕ) → n < 0x80 → Decodes (int v) (0xd0 ∷ word 0x100 (negsuc n) ∷ []) (negsuc n)
  unfolding int
  i8_form n h r rest a = ground (arith, a.before)

  i16_form :
      (n : ℕ) → n < 0x8000 → Decodes (int v) (0xd1 ∷ u16 (word 0x10000 (negsuc n))) (negsuc n)
  unfolding int
  i16_form n h r rest a = ground (arith, a.before)

  i32_form :
      (n : ℕ)
      → n < 0x80000000
      → Decodes (int v) (0xd2 ∷ u32 (word 0x100000000 (negsuc n))) (negsuc n)
  unfolding int
  i32_form n h r rest a = ground (arith, a.before)

module _ (v : Vendor) (l : VendorLaws v) where
  u64_form : (n : ℕ) → n < 9007199254740992 → Decodes (int v) (0xcf ∷ v.put_uint64 n) (pos n)
  unfolding int
  u64_form n h r rest a = ground (
    arith,
    a.before,
    l.length-uint64 n,
    l.get-put_uint64 n h,
    length-append {0} (v.put_uint64 n) rest,
    take_exact 8 (v.put_uint64 n) rest a.tail,
  )

  i64_form :
      (n : ℕ) → IsSafe (negsuc n) → Decodes (int v) (0xd3 ∷ v.put_int64 (negsuc n)) (negsuc n)
  unfolding int
  i64_form n h r rest a = ground (
    arith,
    a.before,
    l.length-int64 (negsuc n),
    l.get-put_int64 (negsuc n) h,
    length-append {0} (v.put_int64 (negsuc n)) rest,
    take_exact 8 (v.put_int64 (negsuc n)) rest a.tail,
  )

  pub int_lem : (z : ℤ) → IsSafe z → Decodes (int v) (Forms.int v z) z
  unfolding Forms.int
  int_lem (pos n) h =
      let P = λ (xs : List ℕ). Decodes (int v) xs (pos n) in
      if_elim P (ltb n 0x80) (λ e. fixed_pos v n (ltb→lt _ _ e))
        λ _.
          if_elim P (ltb n 0x100) (λ e. u8_form v n)
            λ _.
              if_elim P (ltb n 0x10000) (λ e. u16_form v n (ltb→lt _ _ e))
                λ _.
                  if_elim P (ltb n 0x100000000) (λ e. u32_form v n (ltb→lt _ _ e)) λ _. u64_form n h
  int_lem (negsuc n) h =
      let P = λ (xs : List ℕ). Decodes (int v) xs (negsuc n) in
      if_elim P (ltb n 0x20) (λ e. fixed_neg v n (ltb→lt _ _ e))
        λ _.
          if_elim P (ltb n 0x80) (λ e. i8_form v n (ltb→lt _ _ e))
            λ _.
              if_elim P (ltb n 0x8000) (λ e. i16_form v n (ltb→lt _ _ e))
                λ _.
                  if_elim P (ltb n 0x80000000) (λ e. i32_form v n (ltb→lt _ _ e)) λ _. i64_form n h
