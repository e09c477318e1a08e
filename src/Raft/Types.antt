-- ===== src/Raft/Types.antt =====
-- raft/types.h and raft/transport.h: log entries, errors, the configuration and the messages.
-- The field `data` of the source is called `payload`. Completions are numbered in the node's state.
use hands_on_sqldb_in_cpp.Prelude.{ℕ, String, Bool, Option, List}
use hands_on_sqldb_in_cpp.Prelude.Order.{Bytes}
use hands_on_sqldb_in_cpp.Kv.Batch.{KeyRange}

abbrev pub invalid_index : ℕ
invalid_index = 0

abbrev pub NodeId : Type 0
NodeId = ℕ

pub data Role : Type 0 where
  follower candidate leader : Role

pub record LogEntry : Type 0 where
  pub index : ℕ
  pub term : ℕ
  pub payload : Bytes

pub record HardState : Type 0 where
  pub term : ℕ
  pub voted_for : Option NodeId

pub record SnapshotMetadata : Type 0 where
  pub last_included_index : ℕ
  pub last_included_term : ℕ

pub data ErrorCode : Type 0 where
  invalid_argument not_leader busy timeout internal_error io_error : ErrorCode

pub record Error : Type 0 where
  pub code : ErrorCode
  pub message : String

-- std::expected<A, Error>
pub data Result {ℓ} (A : Type ℓ) : Type ℓ where
  ok : A → Result A
  err : Error → Result A

pub record NodeConfig : Type 0 where
  pub node_id : NodeId
  pub peers : List NodeId
  pub election_timeout_ms : ℕ
  pub heartbeat_interval_ms : ℕ
  pub group_range : KeyRange
  pub snapshot_entries_threshold : ℕ
  pub group_id : ℕ

pub record RequestVoteRequest : Type 0 where
  pub term : ℕ
  pub candidate_id : NodeId
  pub last_log_index : ℕ
  pub last_log_term : ℕ

pub record RequestVoteResponse : Type 0 where
  pub term : ℕ
  pub vote_granted : Bool

pub record AppendEntriesRequest : Type 0 where
  pub term : ℕ
  pub leader_id : NodeId
  pub prev_log_index : ℕ
  pub prev_log_term : ℕ
  pub entries : List LogEntry
  pub leader_commit : ℕ
  pub round : ℕ

pub record AppendEntriesResponse : Type 0 where
  pub term : ℕ
  pub success : Bool
  pub match_index : ℕ
  pub round : ℕ
  pub hint_last_index : ℕ

pub record InstallSnapshotRequest : Type 0 where
  pub term : ℕ
  pub leader_id : NodeId
  pub last_included_index : ℕ
  pub last_included_term : ℕ
  pub offset : ℕ
  pub is_done : Bool
  pub payload : Bytes

pub record InstallSnapshotResponse : Type 0 where
  pub term : ℕ
  pub success : Bool

pub data Message : Type 0 where
  request_vote_request : RequestVoteRequest → Message
  request_vote_response : RequestVoteResponse → Message
  append_entries_request : AppendEntriesRequest → Message
  append_entries_response : AppendEntriesResponse → Message
  install_snapshot_request : InstallSnapshotRequest → Message
  install_snapshot_response : InstallSnapshotResponse → Message

-- What `Completion::finish` was called with.
pub record Finished : Type 0 where
  pub failure : Option Error
  pub result : Bytes

pub record Proposal : Type 0 where
  pub index : ℕ
  pub term : ℕ
  pub payload : Bytes
  pub committed : Bool
  pub completion : ℕ

pub record ReadIndex : Type 0 where
  pub index : ℕ
  pub term : ℕ
  pub completion : ℕ

pub record PendingReadBarrier : Type 0 where
  pub round : ℕ
  pub target_index : ℕ
  pub completion : ℕ

pub record PendingSnapshot : Type 0 where
  pub term : ℕ
  pub last_included_index : ℕ
  pub last_included_term : ℕ
  pub buffer : Bytes
