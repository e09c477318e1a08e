-- ===== src/Raft/Snapshot.antt =====
-- raft/raft_node.cpp: the handlers of InstallSnapshot and its response.
pub mod Chunks
pub mod Frames
pub mod Assembled
use hands_on_sqldb_in_cpp.Prelude.{
  ℕ, zero, suc, ◌+◌, ◌-◌, ◌≡◌, Bool, true, false, not, ◌&&◌, ◌||◌, ◌==◌, Option, none, some, List,
  [], ◌∷◌, ◌++◌, ltb, leb, length, min, max, if◌then◌else◌, inc, u64_mod, ◌%◌,
}
use hands_on_sqldb_in_cpp.Prelude.Order.{Bytes, nat_order, bytes_order, eqb}
use hands_on_sqldb_in_cpp.Prelude.Maps.{Map, find, assign}
use hands_on_sqldb_in_cpp.Raft.Types
use hands_on_sqldb_in_cpp.Raft.Types.{
  NodeId, Role, follower, candidate, leader, LogEntry, HardState, SnapshotMetadata, Error, Result,
  ok, err, not_leader, invalid_argument, internal_error, Message, RequestVoteRequest,
  RequestVoteResponse, AppendEntriesRequest, AppendEntriesResponse, InstallSnapshotRequest,
  InstallSnapshotResponse, request_vote_request, request_vote_response, append_entries_request,
  append_entries_response, install_snapshot_request, install_snapshot_response, invalid_index,
  NodeConfig, PendingSnapshot, Proposal, ReadIndex, PendingReadBarrier,
}
use hands_on_sqldb_in_cpp.Raft.Env.{Env}
use hands_on_sqldb_in_cpp.Raft.Node.{
  Node, M, ◌>>=◌, ◌>>◌, bind_result, pure, fail, modify, ask, on_store, send, record_error,
  recording, at_or_zero, has_quorum, reset_election_deadline,
}
use hands_on_sqldb_in_cpp.Raft.Waiters.{
  fail_pending_proposals, fail_read_barriers, evaluate_read_barriers, make_completion, finish,
  finished, complete_applied_proposals_upto, quorum_acknowledged,
}
use hands_on_sqldb_in_cpp.Raft.Commit.{
  send_heartbeats, advance_commit, apply_committed, send_append_entries, send_snapshot,
  snapshot_range, maybe_compact_log,
}
use hands_on_sqldb_in_cpp.Raft.Election.{
  is_leader, is_follower, become_follower, start_election, handle_request_vote,
  handle_request_vote_response, note_appended,
}
use hands_on_sqldb_in_cpp.Raft.Replication.{
  follow, handle_append_entries, handle_append_entries_response,
}

unfoldable pub max_pending_snapshot_bytes : ℕ
max_pending_snapshot_bytes = 1073741824

abbrev pub snapshot_too_big : Error
snapshot_too_big = record {
  code = invalid_argument;
  message = "raft snapshot exceeds the pending-buffer size limit";
}

abbrev pub peer_failed : Error
peer_failed = record { code = internal_error; message = "peer failed to install the raft snapshot" }

-- The snapshot that a chunk belongs to: the one in progress, or a new one.
unfoldable pub current_pending :
    Bool → InstallSnapshotRequest → Option PendingSnapshot → PendingSnapshot
current_pending restart request none = record {
  term = request.term;
  last_included_index = request.last_included_index;
  last_included_term = request.last_included_term;
  buffer = [];
}
current_pending restart request (some p) =
    if restart
    then record {
      term = request.term;
      last_included_index = request.last_included_index;
      last_included_term = request.last_included_term;
      buffer = [];
    }
    else p

-- Whether a chunk continues the snapshot in progress.
unfoldable pub continues : PendingSnapshot → InstallSnapshotRequest → Bool
continues p request =
    p.last_included_index == request.last_included_index
    && p.last_included_term == request.last_included_term
    && request.offset == length p.buffer

module _ {E : Env} where
  unfoldable pub snapshot_reply : NodeId → Bool → Node E → Node E
  snapshot_reply from success s =
      send from (install_snapshot_response (record { term = s.hard_state.term; success = success }))
        s

  -- A snapshot in progress is given up, and the leader is told.
  unfoldable pub drop_pending : NodeId → Node E → Node E
  unfolding snapshot_reply
  drop_pending from s = snapshot_reply from false (record s { pending_snapshot = none })

  -- The state of the node once the state machine and the log hold the snapshot.
  unfoldable pub after_install : NodeId → SnapshotMetadata → Node E → Node E
  unfolding complete_applied_proposals_upto evaluate_read_barriers snapshot_reply
  after_install from meta s =
      let t = record s {
        pending_snapshot = none;
        last_included_index = meta.last_included_index;
        last_included_term = meta.last_included_term;
        last_log_index = max s.last_log_index meta.last_included_index;
        last_applied = max s.last_applied meta.last_included_index;
        commit_index = max s.commit_index meta.last_included_index;
      } in
      snapshot_reply from true
        (evaluate_read_barriers (complete_applied_proposals_upto meta.last_included_index t))

  abbrev pub or_drop :
      NodeId → Result (Unit {0}) × Node E → (Unit {0} → M E (Unit {0})) → Result (Unit {0}) × Node E
  or_drop from (ok u, s) k = k u s
  or_drop from (err e, s) k = (err e, drop_pending from s)

  unfoldable pub on_machine : (E.Machine → Result (Unit {0}) × E.Machine) → M E (Unit {0})
  on_machine f s = let (r, machine') = f s.machine in (r, record s { machine = machine' })

  -- The whole snapshot is there: the state machine is restored first, then the log.
  unfoldable pub install : NodeId → PendingSnapshot → M E (Unit {0})
  unfolding after_install drop_pending on_machine
  install from p s =
      let meta : SnapshotMetadata = record {
        last_included_index = p.last_included_index;
        last_included_term = p.last_included_term;
      } in
      or_drop from (on_machine (E.restore (snapshot_range s) p.buffer) s) λ u t.
        or_drop from (on_store (E.install_snapshot meta) t) (λ v. modify (after_install from meta))

  -- A chunk that continues the snapshot in progress is added to it.
  unfoldable pub add_chunk : NodeId → InstallSnapshotRequest → PendingSnapshot → M E (Unit {0})
  unfolding install drop_pending
  add_chunk from request p s =
      let grown = record p { buffer = p.buffer ++ request.payload } in
      if ltb max_pending_snapshot_bytes (length grown.buffer)
      then (err snapshot_too_big, drop_pending from s)
      else let t = record s { pending_snapshot = some grown } in
        if not request.is_done then (ok tt, t) else install from grown t

  -- The handler after the step down: `term_changed` is the test made before it.
  unfoldable pub take_chunk : NodeId → InstallSnapshotRequest → Bool → M E (Unit {0})
  unfolding add_chunk drop_pending snapshot_reply current_pending continues
  take_chunk from request term_changed s =
      if request.last_included_index == invalid_index
        || request.last_included_term == 0
        || ltb request.last_included_index s.last_applied
      then (ok tt, snapshot_reply from false s)
      else let p =
          current_pending (request.offset == 0 || term_changed) request s.pending_snapshot in
        if continues p request then add_chunk from request p s else (ok tt, drop_pending from s)

  unfoldable pub handle_install_snapshot : NodeId → InstallSnapshotRequest → M E (Unit {0})
  unfolding follow take_chunk snapshot_reply
  handle_install_snapshot from request s =
      if ltb request.term s.hard_state.term
      then (ok tt, snapshot_reply from false s)
      else bind_result (follow request.term request.leader_id s)
          (λ u. take_chunk from request (ltb s.hard_state.term request.term))

  -- `match_index_[from]` has made an entry where there was none.
  unfoldable pub resend_rest : NodeId → Node E → Node E
  unfolding recording send_append_entries
  resend_rest from s =
      if ltb (at_or_zero from s.match_index) s.last_log_index
      then recording (send_append_entries from) s
      else s

  unfoldable pub handle_install_snapshot_response :
      NodeId → InstallSnapshotResponse → Node E → Node E
  unfolding recording become_follower resend_rest record_error
  handle_install_snapshot_response from response s =
      if ltb s.hard_state.term response.term
      then recording (become_follower response.term none) s
      else if not (is_leader s.role) || not (response.term == s.hard_state.term)
      then s
      else if response.success
      then resend_rest from
          (record s { match_index = assign from (at_or_zero from s.match_index) s.match_index })
      else record_error peer_failed s
