-- ===== src/Lib.antt =====
-- The replicated key-value layer under the SQL engine: transactions of a connection on a store that
-- connections share, the Raft node that replicates a log to a group of peers, with its wire format and
-- the routing of keys to groups; and the values, keys and conditions of SQL.
--
-- Parts and files. Paths are from the repository's root.
-- Kv/Batch       storage/kv_engine/kv_engine.h: keys, Status, WriteBatch and its operations, KeyRange
-- Kv/TxBuffer    storage/kv_engine/tx_buffer.h and tx_buffer.cpp: the buffer of a write transaction
-- Kv/Store       storage/mock_engine/mock_engine.h and mock_engine.cpp, MockStore: rows, write slot
-- Kv/Engine      the same files, MockEngine: one connection; a call runs on the pair of the
--                connection and the shared store and returns a Status with the new pair
-- Kv/Iterator    the same files, MockIterator, materialize and MockStore::new_iterator
-- Kv/GetBatch    the same files, get_batch of the store and of a connection
-- Kv/Overlay     storage/kv_engine/tx_buffer.h and tx_buffer.cpp, OverlayCursor
-- Kv/Merging     storage/kv_engine/merging_iterator.h and merging_iterator.cpp, the scan of a
--                transaction, and MockEngine::new_iterator, which makes it
-- Raft/Types     raft/types.h and raft/transport.h: entries, errors, configuration, messages
-- Raft/Env       the log store and the state machine (raft/state_machine.h) that a node stands on
-- Raft/Node      raft/raft_node.h: the members of RaftNode as a record, and actions on it
-- Raft/Waiters   raft/raft_node.cpp: pending proposals and read barriers, evaluate_read_barriers
-- Raft/Commit    apply_committed, advance_commit, quorum_match_index, send_append_entries,
--                send_snapshot, send_heartbeats, maybe_compact_log
-- Raft/Election  start_election, become_leader, become_follower and the RequestVote handlers
-- Raft/Replication  the AppendEntries handlers
-- Raft/Snapshot  the InstallSnapshot handlers
-- Raft/Api       the constructor, start, tick, propose, read_barrier, handle_message
-- Raft/MemoryLog raft/memory_log_store.h, the log store in memory
-- Raft/Wire, Raft/Codec  raft/message_codec.h and message_codec.cpp: the readers and writers, the
--                messages, the frames, and FrameDecoder
-- Raft/Payload   raft/proposal_payload.h and proposal_payload.cpp: a batch as a log entry's payload
-- Raft/StateMachine  raft/kv_state_machine.cpp and raft/request_result_store.h: apply
-- Raft/KvSnapshot  raft/kv_state_machine.cpp: snapshot and restore
-- Raft/Router    raft/group_router.h and group_router.cpp: the group of a key, a range and a batch;
--                Raft/Router/Parse the text form of the table
-- Sql/Int64      signed 64-bit numbers and their casts
-- Sql/Types      sql_types/field_type.h and value.h: data types and values
-- Sql/Numbers    sql_types/field_type.h, parse_int64_strict
-- Sql/Temporal   sql_types/temporal.cpp: dates and times
-- Sql/Key        sql_types/key.h, KeyCodecs
-- Sql/KeyRange   sql_types/key_range.h, KeyRange and StrKeyRange; Sql/KeyRange/Operations its queries,
--                set operations and scan
-- Sql/Like, Sql/Truth  sql_types/sql_truth.h and compare_op.cpp: LIKE, and comparison in three-valued
--                logic
-- Sql/Conditions sql_types/condition_types.h, sql_types/sql_truth.h and planner/rewriter.cpp:
--                conditions, their evaluation, and the pushdown of NOT
-- Sql/Rewriter   planner/rewriter.cpp: the passes flattern and fold_constants
-- Sql/Candidates planner/optimizer.cpp: the ranges of the primary key for a condition;
--                Sql/Candidates/Split splits a condition into the key's part and the rest
-- Prelude        shared names; Prelude/Order the interface that std::map wants of its keys, with
--                numbers and byte strings as instances; Prelude/Maps sorted maps as lists
-- The children of these modules hold the proofs; Kv/Tests, Kv/ScanTests, Raft/Tests, Raft/WireTests,
-- Raft/TransferTests, Sql/Tests, Sql/RangeTests and Sql/PlanTests hold concrete states.
--
-- How the parts interact. MockEngine buffers the writes of a transaction in a TxBuffer, takes the
-- store's write slot for its first write, and commits the buffer as one WriteBatch. RaftNode calls the
-- log store and the state machine through Raft/Env, whose record of operations is an argument of every
-- definition of the node; raft/log_store.h is not among the repository's files, so nothing is assumed
-- of a log store beyond the calls' types, and SnapshotMetadata has the two fields that the code uses.
-- The store in memory fills the record in Raft/Tests. A message that a node sends is added to the list
-- `sent` of its state; the clock is the field `now_ms`. A shared completion is a number, and the
-- finished ones are kept in a map. An action that fails keeps what it has changed before.
--
-- The encoders make bytes, numbers below 256 where the source cuts to a byte; a reader takes the
-- bytes that are left and gives the value with the rest, in place of a text and an offset.
-- RaftNode's entries carry the payloads that Raft/Payload encodes, its messages go through
-- Raft/Codec, and Raft/Router says which group's node gets a batch. A value of SQL is stored under
-- a key of Sql/Key, and a condition is evaluated by Sql/Conditions, which compares through
-- Sql/Truth; Sql/Candidates splits it and makes key ranges of the part on the primary key, whose
-- scans Sql/KeyRange turns into keys. Values are those that the constructors of Value make with
-- their assertions kept; std::from_chars, which is the standard library's, is written by what it
-- returns.
--
-- Bounds and fuel. The node's 64-bit counters wrap around (`inc`, `u64_mod`). The loop of
-- apply_committed has as much fuel as there are indices between last_applied and commit_index, each
-- round moving by one; the loop that cuts a snapshot has the length of the snapshot as fuel, since
-- each chunk takes at least one byte; collecting from an iterator, and the scans of a state
-- machine's snapshot, take one round more than it has rows; the loops of a merging iterator have a
-- round for each key of the buffer, or each row, and one more; the loop that reads entries counts
-- them. Sizes and sequence numbers of the buffer are plain numbers, since they count what fits in
-- memory.
--
-- Not modelled: locks and threads (every call is one step), the measured time of apply, writes to a
-- buffer while a cursor stands on it, the LevelDB engine and log store, the transport and the runtime
-- under raft/; of SQL the key sets, rows and schemas, the texts of values, ranges and dates, the
-- rewriter's passes deduplicate and simplify, the optimizer's joining of adjacent points and its choice
-- of a full scan by cost, and the layers above.
pub mod Prelude
pub mod Kv
pub mod Raft
pub mod Sql
