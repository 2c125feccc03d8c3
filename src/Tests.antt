-- ===== src/Tests.antt =====
-- Runs of the definitions on small inputs, and the theorems at inputs that meet their hypotheses.
mod Keys
mod KeyList
mod Store
mod Pattern
mod Cursor
mod Txn
mod Scan
mod Mappings
mod Msgpack
mod Wire
mod Apply
mod Overlay
mod Engine
mod Land
