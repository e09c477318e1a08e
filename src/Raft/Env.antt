-- ===== src/Raft/Env.antt =====
-- What a Raft node stands on and does not implement: the log store behind `raft/log_store.h`, and
-- the state machine of raft/state_machine.h. Their operations are parameters, and may fail. The
-- clock is a field of the node's state, and what a node sends is a list there.
use hands_on_sqldb_in_cpp.Prelude.{ℕ}
use hands_on_sqldb_in_cpp.Prelude.Order.{Bytes}
use hands_on_sqldb_in_cpp.Kv.Batch.{KeyRange}
use hands_on_sqldb_in_cpp.Raft.Types.{LogEntry, HardState, SnapshotMetadata, Result}

pub record Env : Type 1 where
  pub Store : Type 0
  pub append : LogEntry → Store → Result (Unit {0}) × Store
  pub at : ℕ → Store → Result LogEntry
  pub truncate_suffix : ℕ → Store → Result (Unit {0}) × Store
  pub save_hard_state : HardState → Store → Result (Unit {0}) × Store
  pub load_hard_state : Store → Result HardState
  pub last_index : Store → Result ℕ
  pub snapshot_metadata : Store → Result SnapshotMetadata
  pub install_snapshot : SnapshotMetadata → Store → Result (Unit {0}) × Store
  pub Machine : Type 0
  pub apply : LogEntry → Machine → Result Bytes × Machine
  pub snapshot : KeyRange → Machine → Result Bytes
  pub restore : KeyRange → Bytes → Machine → Result (Unit {0}) × Machine
