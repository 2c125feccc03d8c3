-- ===== src/Tests/Wire.antt =====
-- What is read off the wire, on small inputs.
use phaselock.Prelude.{ℕ, ◌≡◌, refl, List, [], ◌∷◌, true, false, arith, some, none}
use phaselock.Msgpack.{ok, ◌>>=◌}
use phaselock.Msgpack.Value.{Value, Items}
use phaselock.Msgpack.Encode.{IsWritable}
use phaselock.Tests.Msgpack.{toy, toy_laws}
use phaselock.Wire.Uuid.{uuid_bytes, uuid_string, uuid_bytes-uuid_string}
use phaselock.Wire.Edits.{edit_ops}
use phaselock.Wire.Edits.Ops.{Op, edit_form, ops_read, edit_ops_edit}
use mathlib.Core.List.{append-nil}
use phaselock.Msgpack.Encode.{ItemsWritable}
use phaselock.Msgpack.Reader.{Reader}
use phaselock.Msgpack.Reader.Laws.{At}
use phaselock.Wire.Edits.{Lifecycle, read_envelope}
use phaselock.Wire.Edits.Envelopes.{Written, envelope_form, envelope_of, read_envelope_lem}
use phaselock.Wire.Frames.{Frame, parse_frame}
use phaselock.Wire.Frames.Plain.{frame_form, parse_frame_lem}
use phaselock.Prelude.{pos, length, negsuc, sym}
use phaselock.Wire.Chunks.{ByteReader, fill, skip_bytes}
use phaselock.Wire.Chunks.Stream.{IsValid}
use phaselock.Wire.Chunks.Refills.{Filled, fill-Filled}
use phaselock.Wire.Checksum.{new_fnv, crc32c, update, digest}

abbrev id_bytes : List ℕ
id_bytes =
    0 ∷ 17 ∷ 34 ∷ 51 ∷ 68 ∷ 85 ∷ 102 ∷ 119 ∷ 136 ∷ 153 ∷ 170 ∷ 187 ∷ 204 ∷ 221 ∷ 238 ∷ 255 ∷ []

uuid_bytes-uuid_string_example : (uuid_string id_bytes >>= uuid_bytes) ≡ ok id_bytes
uuid_bytes-uuid_string_example = uuid_bytes-uuid_string id_bytes (omega arith) refl

-- a set and a deletion, after an envelope
abbrev ops : List Op
ops = ((b'a' ∷ []), some (Value.boolean true)) ∷ ((b'b' ∷ []), none) ∷ []

abbrev envelope : Value
envelope = Value.array Items.no_items

envelope-IsWritable : IsWritable toy 512 envelope
unfolding IsWritable
envelope-IsWritable = ground arith

true-IsWritable : IsWritable toy 512 (Value.boolean true)
unfolding IsWritable
true-IsWritable = tt

edit_ops_edit_example : edit_ops toy (edit_form toy envelope ops) true ≡ ok (ops_read toy ops)
edit_ops_edit_example =
    edit_ops_edit toy toy_laws envelope ops envelope-IsWritable
      ((ground arith, true-IsWritable), (ground arith, tt)) (omega arith)

-- 2 bytes buffered of which one is read, and two chunks to come
abbrev streaming : ByteReader
streaming = record {
  buf = 1 ∷ 2 ∷ 0 ∷ [];
  at = 1;
  len = 2;
  base = 10;
  eof = false;
  body = (3 ∷ 4 ∷ 5 ∷ []) ∷ (6 ∷ []) ∷ [];
}

streaming-IsValid : IsValid streaming
streaming-IsValid = record { order = omega arith; inside = omega arith; over = λ e. absurd cc }

fill-Filled_example : Filled 4 streaming (fill 4 streaming)
fill-Filled_example = fill-Filled 4 streaming streaming-IsValid

skip_bytes_run : skip_bytes 6 streaming ≡ none
unfolding skip_bytes
skip_bytes_run = refl

-- the check value of CRC-32C, and FNV-1a 64 of "a"
crc32c_run :
    crc32c (b'1' ∷ b'2' ∷ b'3' ∷ b'4' ∷ b'5' ∷ b'6' ∷ b'7' ∷ b'8' ∷ b'9' ∷ []) 0 ≡ 0xe3069283
unfolding crc32c
crc32c_run = refl

digest_run :
    digest (update (b'a' ∷ []) new_fnv) ≡ 0xaf ∷ 0x63 ∷ 0xdc ∷ 0x4c ∷ 0x86 ∷ 0x01 ∷ 0xec ∷ 0x8c ∷ []
unfolding digest update
digest_run = refl

-- a view with two selectors, and an element of a later protocol
abbrev view_frame : Frame
view_frame = Frame.view (b't' ∷ []) (pos 300) ((b'a' ∷ []) ∷ (b'b' ∷ []) ∷ [])

later-Writable : ItemsWritable toy 2 (Items.item (Value.boolean true) Items.no_items)
unfolding IsWritable
later-Writable = (tt, tt)

parse_frame_lem_example :
    parse_frame toy (frame_form toy view_frame (Items.item (Value.boolean true) Items.no_items))
    ≡ ok view_frame
parse_frame_lem_example =
    parse_frame_lem toy toy_laws view_frame (Items.item (Value.boolean true) Items.no_items) 1
      (ground arith) (ground arith) later-Writable (omega arith)

-- an envelope at the head of an edit of three items, with one element of a later protocol
abbrev written : Written
written = record {
  position = pos 7;
  slice = b's' ∷ [];
  seq = pos 200;
  id = id_bytes;
  servertime = negsuc 0;
  lifecycle = Lifecycle.birth;
}

abbrev written_bytes : List ℕ
written_bytes =
    envelope_form toy 3 written (Items.item (Value.boolean true) Items.no_items) (1 ∷ 161 ∷ 97 ∷ [])

abbrev at_written : Reader
at_written = record {
  buf = written_bytes;
  at = 0;
  end = length written_bytes;
  last_key = 0;
  last_key_len = 0;
}

read_envelope_lem_example :
    (r' : Reader) × (read_envelope toy at_written ≡ ok (envelope_of written, r'))
    × At r' (1 ∷ 161 ∷ 97 ∷ [])
read_envelope_lem_example =
    read_envelope_lem toy toy_laws 3 1 written (Items.item (Value.boolean true) Items.no_items)
      at_written (1 ∷ 161 ∷ 97 ∷ []) (omega arith) (omega arith)
      (record {
        position_safe = omega arith;
        slice_text = ground arith;
        seq_safe = omega arith;
        id_size = refl;
        time_valid = refl;
      })
      later-Writable (omega arith)
      (record { tail = []; before = sym (append-nil written_bytes); ends = omega arith })
