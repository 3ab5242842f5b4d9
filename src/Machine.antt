-- ===== src/Machine.antt =====
-- d-lmdb/src/state_machine.rs: the replicated state machine over LMDB. The children hold its data,
-- its operations by topic, and below each of these the proofs about it.
pub mod Types
pub mod Apply
pub mod Scan
pub mod Lifecycle
pub mod Queries
