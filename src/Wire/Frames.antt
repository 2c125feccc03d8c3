-- ===== src/Wire/Frames.antt =====
-- The frames of the streams: `parseFrame` of client/ts/src/frames.ts.
pub mod Plain
use phaselock.Prelude.{ℕ, zero, suc, ◌-◌, List, [], ◌∷◌, if◌then◌else◌, ltb, ℤ, length, not}
use phaselock.Keys.{Key, key_eq}
use phaselock.Msgpack.{
  empty_frame, short_frame, unknown_frame, Result, ok, thrown, ◌>>=◌, ◌>>◌, check, Vendor,
}
use phaselock.Msgpack.Reader.{Reader, Read, array_header, new_reader}
use phaselock.Msgpack.Reader.Scalars.{int, str}
use phaselock.Msgpack.Measure.{raw}
use phaselock.Wire.Edits.{EditEnvelope, read_envelope, skip_values}

-- `WireEdit`: an envelope and the whole edit as it came
abbrev pub WireEdit : Type 0
WireEdit = EditEnvelope × List ℕ

pub data Frame : Type 0 where
  edits : List WireEdit → Frame
  live : ℤ → Frame
  vouch : ℤ → Frame
  view : Key → ℤ → List Key → Frame
  end : ℤ → Key → Frame

-- the tags
abbrev pub edits_tag : Key
edits_tag = b'e' ∷ b'd' ∷ b'i' ∷ b't' ∷ b's' ∷ []

abbrev pub live_tag : Key
live_tag = b'l' ∷ b'i' ∷ b'v' ∷ b'e' ∷ []

abbrev pub vouch_tag : Key
vouch_tag = b'v' ∷ b'o' ∷ b'u' ∷ b'c' ∷ b'h' ∷ []

abbrev pub view_tag : Key
view_tag = b'v' ∷ b'i' ∷ b'e' ∷ b'w' ∷ []

abbrev pub end_tag : Key
end_tag = b'e' ∷ b'n' ∷ b'd' ∷ []

-- a frame with the elements it used
abbrev pub Used : Type 0
Used = Read (Frame × ℕ)

module _ (v : Vendor) where
  unfoldable pub read_strings : ℕ → Reader → Read (List Key)
  read_strings zero r = ok ([], r)
  read_strings (suc n) r = do (s, r1) ← str v r; (rest, r2) ← read_strings n r1; ok (s ∷ rest, r2)

  unfoldable pub strings : Reader → Read (List Key)
  unfolding read_strings array_header
  strings r = do (n, r1) ← array_header r; read_strings n r1

  -- the whole edit is sliced once, and its envelope read from the slice
  unfoldable pub read_edits : ℕ → Reader → Read (List WireEdit)
  unfolding raw read_envelope new_reader
  read_edits zero r = ok ([], r)
  read_edits (suc n) r = do
    (bytes, r1) ← raw r
    (envelope, slice) ← read_envelope v (new_reader bytes 0 (length bytes))
    (rest, r2) ← read_edits n r1
    ok ((envelope, bytes) ∷ rest, r2)

  unfoldable pub parse_edits : Reader → Used
  unfolding read_edits array_header
  parse_edits r = do
    (m, r1) ← array_header r
    (es, r2) ← read_edits m r1
    ok ((Frame.edits es, 2), r2)

  -- `live` and `vouch`
  abbrev pub parse_position : (ℤ → Frame) → Reader → Used
  parse_position frame r = do (position, r1) ← int v r; ok ((frame position, 2), r1)

  unfoldable pub parse_view : Reader → Used
  unfolding strings
  parse_view r = do
    (token, r1) ← str v r
    (position, r2) ← int v r1
    (selectors, r3) ← strings r2
    ok ((Frame.view token position selectors, 4), r3)

  unfoldable pub parse_end : Reader → Used
  parse_end r = do
    (code, r1) ← int v r
    (reason, r2) ← str v r1
    ok ((Frame.end code reason, 3), r2)

  -- the switch on the tag
  unfoldable pub parse_tagged : Key → Reader → Used
  unfolding parse_edits parse_view parse_end
  parse_tagged tag r =
      if key_eq tag edits_tag
      then parse_edits r
      else if key_eq tag live_tag
      then parse_position Frame.live r
      else if key_eq tag vouch_tag
      then parse_position Frame.vouch r
      else if key_eq tag view_tag
      then parse_view r
      else if key_eq tag end_tag
      then parse_end r
      else thrown (unknown_frame tag)

  unfoldable pub parse_frame : List ℕ → Result Frame
  unfolding parse_tagged array_header new_reader
  parse_frame bytes = do
    (n, r1) ← array_header (new_reader bytes 0 (length bytes))
    check (not (ltb n 1)) empty_frame
    (tag, r2) ← str v r1
    ((frame, used), r3) ← parse_tagged tag r2
    check (not (ltb n used)) short_frame
    r4 ← skip_values (n - used) r3
    ok frame
