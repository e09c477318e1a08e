-- ===== src/Raft/StateMachine.antt =====
-- raft/kv_state_machine.cpp and raft/request_result_store.h: how the entries of the log reach the
-- local store, each request of a client once. The local store is the one of storage/mock_engine; the
-- message of an error leaves out the status that the source quotes.
pub mod Encoded
pub mod Once
use hands_on_sqldb_in_cpp.Prelude.{ℕ, ◌==◌, Option, none, some, List, [], ◌∷◌, ltb, if◌then◌else◌}
use hands_on_sqldb_in_cpp.Prelude.Order.{Bytes, nat_order}
use hands_on_sqldb_in_cpp.Prelude.Maps.{Map, find, assign}
use hands_on_sqldb_in_cpp.Kv.Batch.{Status, success, invalid_argument, io_error}
use hands_on_sqldb_in_cpp.Kv.Store
use hands_on_sqldb_in_cpp.Kv.Store.{MockStore}
use hands_on_sqldb_in_cpp.Raft.Types.{Error, ErrorCode, Result, ok, err, LogEntry}
use hands_on_sqldb_in_cpp.Raft.Types
use hands_on_sqldb_in_cpp.Raft.Payload.{ProposalPayload, decode_proposal_payload}

-- The latest request of a client, and its result.
pub record Entry : Type 0 where
  pub request_id : ℕ
  pub result : Bytes

abbrev pub MemoryRequestResultStore : Type 0
MemoryRequestResultStore = Map ℕ Entry

abbrev pub entry_result : ℕ → Option Entry → Result (Option Bytes)
entry_result request_id none = ok none
entry_result request_id (some entry) =
    if entry.request_id == request_id
    then ok (some entry.result)
    else if ltb request_id entry.request_id
    then err (record {
      code = Types.invalid_argument;
      message = "request id is older than the client's latest applied request";
    })
    else ok none

unfoldable pub find_result : ℕ → ℕ → MemoryRequestResultStore → Result (Option Bytes)
find_result client_id request_id entries = entry_result request_id (find client_id entries)

unfoldable pub save_result : ℕ → ℕ → Bytes → MemoryRequestResultStore → MemoryRequestResultStore
save_result client_id request_id result entries =
    assign client_id (record { request_id = request_id; result = result }) entries

pub record KvStateMachine : Type 0 where
  pub local : MockStore
  pub request_results : MemoryRequestResultStore

abbrev pub kv_status_to_error : Status → Error
kv_status_to_error status = record {
  code = elim status [
    | invalid_argument ↦ Types.invalid_argument
    | io_error ↦ Types.io_error
    | _ ↦ Types.internal_error
  ];
  message = "local kv write failed";
}

-- "noop"
abbrev pub noop : Bytes
noop = 110 ∷ 111 ∷ 111 ∷ 112 ∷ []

-- "applied"
abbrev pub applied : Bytes
applied = 97 ∷ 112 ∷ 112 ∷ 108 ∷ 105 ∷ 101 ∷ 100 ∷ []

-- The end of `apply`, once the batch is written.
abbrev pub after_write :
    ProposalPayload → Status × MockStore → KvStateMachine → Result Bytes × KvStateMachine
after_write p (status, local) m = elim status [
  | success ↦ (
    ok applied,
    record {
      local = local;
      request_results = save_result p.client_id p.request_id applied m.request_results;
    },
  )
  | other ↦ (err (kv_status_to_error other), record m { local = local })
]

abbrev pub apply_request :
    ProposalPayload → Result (Option Bytes) → KvStateMachine → Result Bytes × KvStateMachine
apply_request p (err e) m = (err e, m)
apply_request p (ok (some previous)) m = (ok previous, m)
apply_request p (ok none) m = after_write p (Store.write_batch p.batch m.local) m

abbrev pub apply_payload : Result ProposalPayload → KvStateMachine → Result Bytes × KvStateMachine
apply_payload (err e) m = (err e, m)
apply_payload (ok p) m = apply_request p (find_result p.client_id p.request_id m.request_results) m

abbrev pub apply_bytes : Bytes → KvStateMachine → Result Bytes × KvStateMachine
apply_bytes [] m = (ok noop, m)
apply_bytes (b ∷ bytes) m = apply_payload (decode_proposal_payload (b ∷ bytes)) m

unfoldable pub apply : LogEntry → KvStateMachine → Result Bytes × KvStateMachine
apply entry m = apply_bytes entry.payload m
