-- ===== src/Msgpack/Reader/Times.antt =====
-- `Reader.timestamp` reads back what `Writer.timestamp` writes, in each of the three forms.
use phaselock.Prelude.{
  ℕ, ◌+◌, ◌*◌, ◌/◌, ◌%◌, ◌<◌, ◌≡◌, List, ◌∷◌, ◌++◌, true, leb, ◌==◌, ◌&&◌, length, arith,
  length-append, ap, ◌∙◌, if_elim, leb→le, ℤ, pos, negsuc,
}
use phaselock.Msgpack.{ok, Vendor, VendorLaws, millis, IsSafe, Date, time, date_of, in_range}
use phaselock.Msgpack.Bytes.{u32}
use phaselock.Msgpack.Forms
use phaselock.Msgpack.Reader.{advance}
use phaselock.Msgpack.Reader.Laws.{Decodes, take_exact}
use phaselock.Msgpack.Reader.Scalars.{timestamp}

date_of-time : (ms : ℤ) → in_range ms ≡ true → date_of ms ≡ time ms
date_of-time ms h = ground (arith, h)

module _ (v : Vendor) where
  short_form :
      (sec nsec : ℕ)
      → (nsec == 0 && leb sec 0xffffffff) ≡ true
      → Decodes (timestamp v) (0xd6 ∷ 255 ∷ u32 sec) (date_of (millis (pos sec) nsec))
  unfolding timestamp
  short_form sec nsec h r rest a = ground (arith, a.before)

  middle_form :
      (sec nsec : ℕ)
      → sec < 17179869184
      → nsec < 1000000000
      → Decodes
          (timestamp v)
          (0xd7 ∷ 255 ∷ (u32 (nsec * 4 + sec / 0x100000000) ++ u32 (sec % 0x100000000)))
          (date_of (millis (pos sec) nsec))
  unfolding timestamp
  middle_form sec nsec h k r rest a = ground (arith, a.before)

module _ (v : Vendor) (l : VendorLaws v) where
  long_form :
      (sec : ℤ) (nsec : ℕ)
      → IsSafe sec
      → nsec < 1000000000
      → Decodes (timestamp v) (Forms.long_spec v sec nsec) (date_of (millis sec nsec))
  unfolding timestamp
  long_form sec nsec h k r rest a = ground (
    arith,
    a.before,
    l.length-int64 sec,
    l.get-put_int64 sec h,
    length-append {0} (v.put_int64 sec) rest,
    take_exact 8 (v.put_int64 sec) rest a.tail,
  )

  spec_lem :
      (sec : ℤ) (nsec : ℕ)
      → IsSafe sec
      → nsec < 1000000000
      → Decodes (timestamp v) (Forms.spec v sec nsec) (date_of (millis sec nsec))
  unfolding Forms.spec
  spec_lem (negsuc s) nsec h k = long_form (negsuc s) nsec h k
  spec_lem (pos sec) nsec h k =
      let P = λ (xs : List ℕ). Decodes (timestamp v) xs (date_of (millis (pos sec) nsec)) in
      if_elim P (leb sec 0x3ffffffff)
        (λ e.
          if_elim P (nsec == 0 && leb sec 0xffffffff) (short_form v sec nsec)
            λ _. middle_form v sec nsec (omega (arith, leb→le _ _ e)) k)
        λ _. long_form (pos sec) nsec h k

  pub timestamp_lem :
      (ms : ℤ) → in_range ms ≡ true → Decodes (timestamp v) (Forms.timestamp v ms) (time ms)
  unfolding Forms.timestamp
  timestamp_lem ms h r rest a =
      let (sec, nsec) = v.time_spec ms in
      spec_lem sec nsec (l.spec_safe ms h) (l.spec_nanos ms h) r rest a
      ∙ ap (λ (d : Date). ok (d, advance (length (Forms.timestamp v ms)) r))
          (ap date_of (l.spec_millis ms h) ∙ date_of-time ms h)
