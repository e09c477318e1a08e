-- ===== src/Raft.antt =====
-- The consensus layer under raft/: one node of one Raft group and the parts it stands on.
pub mod Types
pub mod Env
pub mod MemoryLog
pub mod Node
pub mod Waiters
pub mod Commit
pub mod Election
pub mod Replication
pub mod Snapshot
pub mod Payload
pub mod Router
pub mod StateMachine
pub mod KvSnapshot
pub mod Wire
mod WireTests
mod TransferTests
pub mod Codec
pub mod Api
pub mod Safety
mod Tests
