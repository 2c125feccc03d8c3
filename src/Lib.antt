-- ===== src/Lib.antt =====
-- A verification library for PhaseLock, a sync-first backend whose clients keep a local store.
--
-- typespec/ts/assets/skeleton.ts is the backbone of every generated client: it holds the order of
-- keys, the in-memory store that applies the edits of the server, the overlay of predictions, key
-- patterns and the walks of scans, and the engine. client/ts/src is the client's library: the codec
-- of the wire and what reads it. This library models the storage layer, the core of the engine, the
-- reader of source maps and the codec.
--
-- A key is a JavaScript string, a list of UTF-16 code units (`Key`). A comparison answers an integer
-- (`ℤ`) of which callers read the sign, as in the source.
--
--   Keys        compareKeys, unitCompare, exactFor, sortKeys, prefixEnd
--   Bisect      bisect, with the 32-bit shift of its midpoint
--   KeyList     class KeyList: add, remove, of and the search behind them, on blocks of keys
--   Layer       the maps of the in-memory layers, layerKeys and layerGet
--   Store       the commit of InMemStore, which keeps the values and the key list in step
--   Pattern     ParamMatch, KeyPattern, valueField, compilePattern, placeKey, spanCovers
--   Cursor      the interface KeyCursor, arrayCursor, KeyList.cursor, filterCursor, mergeCursors
--   Scan        walkPattern, over any cursor
--   Mappings    segmentFields, the base64 VLQ digits of source maps
--   Txn         class InMemTxn: its cursor, #keysUnder, get, set, del and delPrefix, and what applies
--               edits, parked edits and snapshots, over the registry of the generated code
--   Overlay     classes Overlay and OverlayTxn over any base transaction, and scanAll
--   Engine      class Engine as steps on its state: the cursor and the checkpoint, a frame of edits,
--               the outbox, submissions and answers, view frames, and the land of backfills; its
--               store is a map per template of its keys
--   Msgpack     client/ts/src/msgpack.ts: Reader, Writer, measure and any value, over the vendored
--               parts of msgpack-javascript and the language's floats
--   Wire        client/ts/src: edits.ts, frames.ts, uuid.ts, checksum.ts, and ByteReader of bytes.ts
--               over the chunks of a body
--
-- The store calls the key list, which calls the binary search and the comparisons; a transaction
-- walks the store's keys and its own updates through cursors. Each module has its laws in its child
-- modules; Prelude has the shared names, and Tests runs the definitions.
--
-- Loops are recursions on their lists; `bisect` runs on as much fuel as the range is wide, and its
-- theorem shows that this is enough; a filtered cursor skips on as much fuel as there are keys,
-- and a scan ends on more fuel than there are keys; `measure` has the bytes left as its fuel, the
-- writer's doubling the size it needs, and any value 513 levels, as in the source.
-- Array lengths are at most 2^31 where the 32-bit midpoint needs it. A thrown error is `none`, and in
-- the codec a `Result`. What a cursor's closures share is a state that is passed along. `scanAll`
-- ends on more fuel than there are entries; a deletion over the overlay asks that it ends. The
-- Engine's positions and seqs are natural numbers, what its store makes of edits and pages,
-- and the registry's conversion of a submitted mutation, are parameters.
--
-- Not modelled: of the Engine, the downloads of backfills, predictions, queries and the status; the
-- conversions of values between representations, the code generators and their type checker, the
-- transport, and the database, which is not TypeScript.
pub mod Prelude
pub mod Keys
pub mod Bisect
pub mod KeyList
mod Tests
pub mod Pattern
pub mod Cursor
pub mod Txn
pub mod Scan
pub mod Mappings
pub mod Overlay
pub mod Engine
pub mod Msgpack
pub mod Wire
pub mod Layer
pub mod Store
