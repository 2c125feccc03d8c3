-- ===== src/Wire.antt =====
-- What client/ts/src reads off the wire: edits and frames over the codec, the ids of mutations, the
-- checksums of snapshots and the buffer over a response's body.
pub mod Hex
pub mod Uuid
pub mod Edits
pub mod Frames
pub mod Chunks
pub mod Checksum
