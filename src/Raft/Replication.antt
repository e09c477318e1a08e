-- ===== src/Raft/Replication.antt =====
-- raft/raft_node.cpp: log replication, the handlers of AppendEntries and its response.
pub mod Entries
pub mod Inherited
use hands_on_sqldb_in_cpp.Prelude.{
  ℕ, zero, suc, ◌+◌, ◌-◌, ◌≡◌, Bool, true, false, not, ◌&&◌, ◌||◌, ◌==◌, Option, none, some, List,
  [], ◌∷◌, ◌++◌, ltb, leb, length, min, max, if◌then◌else◌, inc, u64_mod, ◌%◌,
}
use hands_on_sqldb_in_cpp.Prelude.Order.{Bytes, nat_order, bytes_order, eqb}
use hands_on_sqldb_in_cpp.Prelude.Maps.{Map, find, assign}
use hands_on_sqldb_in_cpp.Raft.Types
use hands_on_sqldb_in_cpp.Raft.Types.{
  NodeId, Role, follower, candidate, leader, LogEntry, HardState, SnapshotMetadata, Error, Result,
  ok, err, not_leader, invalid_argument, internal_error, Message, RequestVoteRequest,
  RequestVoteResponse, AppendEntriesRequest, AppendEntriesResponse, InstallSnapshotRequest,
  InstallSnapshotResponse, request_vote_request, request_vote_response, append_entries_request,
  append_entries_response, install_snapshot_request, install_snapshot_response, invalid_index,
  NodeConfig, PendingSnapshot, Proposal, ReadIndex, PendingReadBarrier,
}
use hands_on_sqldb_in_cpp.Raft.Env.{Env}
use hands_on_sqldb_in_cpp.Raft.Node.{
  Node, M, ◌>>=◌, ◌>>◌, bind_result, pure, fail, modify, ask, on_store, send, record_error,
  recording, at_or_zero, has_quorum, reset_election_deadline,
}
use hands_on_sqldb_in_cpp.Raft.Waiters.{
  fail_pending_proposals, fail_read_barriers, evaluate_read_barriers, make_completion, finish,
  finished, complete_applied_proposals_upto, quorum_acknowledged,
}
use hands_on_sqldb_in_cpp.Raft.Commit.{
  send_heartbeats, advance_commit, apply_committed, send_append_entries, send_snapshot,
  snapshot_range, maybe_compact_log,
}
use hands_on_sqldb_in_cpp.Raft.Election.{
  is_leader, is_follower, become_follower, start_election, handle_request_vote,
  handle_request_vote_response, note_appended,
}

abbrev pub bad_entries : Error
bad_entries = record {
  code = invalid_argument;
  message = "append entries request has inconsistent index or term";
}

abbrev pub truncated_suffix : Error
truncated_suffix = record {
  code = not_leader;
  message = "proposal log suffix was truncated by a new leader";
}

abbrev pub different_payload : Error
different_payload = record {
  code = internal_error;
  message = "same log position has different data in the same term";
}

abbrev pub raise_to : NodeId → ℕ → Map NodeId ℕ → Map NodeId ℕ
raise_to k n m = assign k (max (at_or_zero k m) n) m

module _ {E : Env} where
  -- The follower's reply; on failure it tells its last log index.
  unfoldable pub append_reply : NodeId → Bool → ℕ → ℕ → ℕ → Node E → Node E
  append_reply from success match_index round hint s =
      send from
        (append_entries_response (record {
          term = s.hard_state.term;
          success = success;
          match_index = match_index;
          round = round;
          hint_last_index = hint;
        }))
        s

  -- The step down, or the note of the leader, at the head of both handlers of a leader's request.
  unfoldable pub follow : ℕ → NodeId → M E (Unit {0})
  unfolding become_follower reset_election_deadline
  follow term leader_id s =
      if ltb s.hard_state.term term || (term == s.hard_state.term && not (is_follower s.role))
      then become_follower term (some leader_id) s
      else (ok tt, reset_election_deadline (record s { leader_id = some leader_id }))

  -- The term of the entry before the request's, where the follower has to compare it.
  unfoldable pub prev_term : ℕ → Node E → Result ℕ
  prev_term index s =
      if index == s.last_included_index
      then ok s.last_included_term
      else elim (E.at index s.store) [ ok entry ↦ ok entry.term | err e ↦ err e ]

  -- A conflicting suffix of the log is removed.
  unfoldable pub truncate_from : ℕ → M E (Unit {0})
  unfolding fail_pending_proposals
  truncate_from index = do
    on_store (E.truncate_suffix index)
    modify (λ s.
        fail_pending_proposals (some index) truncated_suffix
          (record s { last_log_index = index - 1 }))

  -- The comparison of an entry with the one that the log has at its place.
  unfoldable pub check_existing : LogEntry → LogEntry → M E (Unit {0})
  unfolding truncate_from
  check_existing entry existing s =
      if not (existing.term == entry.term)
      then truncate_from entry.index s
      else if not (eqb existing.payload entry.payload)
      then (err different_payload, s)
      else (ok tt, s)

  unfoldable pub reconcile : LogEntry → M E (Unit {0})
  unfolding check_existing
  reconcile entry s =
      if leb entry.index s.last_log_index
      then bind_result (ask (E.at entry.index) s) (check_existing entry)
      else (ok tt, s)

  unfoldable pub append_new : LogEntry → M E (Unit {0})
  append_new entry s =
      if ltb s.last_log_index entry.index
      then bind_result (on_store (E.append entry) s)
          (λ u. modify (λ t. record t { last_log_index = entry.index }))
      else (ok tt, s)

  -- One round of the loop over the entries; `index` is the place that the entry must have.
  unfoldable pub append_round : ℕ → ℕ → LogEntry → M E (Unit {0})
  unfolding reconcile append_new
  append_round term index entry s =
      if not (entry.index == index) || not (entry.term == term)
      then (err bad_entries, s)
      else bind_result (reconcile entry s) (λ u. append_new entry)

  -- The loop; it returns the index of the last entry.
  unfoldable pub append_all : ℕ → ℕ → List LogEntry → M E ℕ
  unfolding append_round
  append_all term index [] = pure index
  append_all term index (entry ∷ entries) =
      append_round term (inc index) entry >>= λ u. append_all term (inc index) entries

  unfoldable pub learn_commit : ℕ → Node E → Node E
  learn_commit leader_commit s =
      if ltb s.commit_index leader_commit
      then record s { commit_index = min leader_commit s.last_log_index }
      else s

  -- The end of the handler: the reply goes out whether or not the entries could be applied.
  unfoldable pub accept : NodeId → AppendEntriesRequest → ℕ → M E (Unit {0})
  unfolding learn_commit apply_committed append_reply
  accept from request match_index s =
      let (r, t) = apply_committed (learn_commit request.leader_commit s) in
      (r, append_reply from true match_index request.round 0 t)

  -- The check of the prefix that the request builds on.
  unfoldable pub prefix_ok : AppendEntriesRequest → Node E → Result Bool
  unfolding prev_term
  prefix_ok request s =
      if ltb s.last_log_index request.prev_log_index
        || ltb request.prev_log_index s.last_included_index
      then ok false
      else if request.prev_log_index == invalid_index
      then ok true
      else elim (prev_term request.prev_log_index s) [
        | ok term ↦ ok (term == request.prev_log_term)
        | err e ↦ err e
      ]

  unfoldable pub replicate : NodeId → AppendEntriesRequest → Bool → M E (Unit {0})
  unfolding append_all accept append_reply
  replicate from request prefix s =
      if prefix
      then bind_result (append_all request.term request.prev_log_index request.entries s)
          (accept from request)
      else (ok tt, append_reply from false 0 request.round s.last_log_index s)

  unfoldable pub handle_append_entries : NodeId → AppendEntriesRequest → M E (Unit {0})
  unfolding follow prefix_ok replicate append_reply
  handle_append_entries from request s =
      if ltb request.term s.hard_state.term
      then (ok tt, append_reply from false 0 request.round 0 s)
      else bind_result (follow request.term request.leader_id s)
          λ u t. bind_result (prefix_ok request t, t) (replicate from request)

  unfoldable pub note_match : NodeId → AppendEntriesResponse → Node E → Node E
  note_match from response s =
      let matched = raise_to from response.match_index s.match_index in
      record s {
        match_index = matched;
        next_index = raise_to from (inc (at_or_zero from matched)) s.next_index;
        peer_acked_round = raise_to from response.round s.peer_acked_round;
      }

  -- After a success, once the commit index has been advanced.
  unfoldable pub after_advance : NodeId → ℕ → Result (Unit {0}) × Node E → Node E
  unfolding record_error evaluate_read_barriers recording send_append_entries
  after_advance from old_commit (err e, s) = record_error e s
  after_advance from old_commit (ok u, s) =
      let t = evaluate_read_barriers s in
      if ltb (at_or_zero from t.match_index) t.last_log_index || not (t.commit_index == old_commit)
      then recording (send_append_entries from) t
      else t

  -- After a refusal: a snapshot, or one entry further back.
  unfoldable pub retry : NodeId → AppendEntriesResponse → Node E → Node E
  unfolding recording send_append_entries send_snapshot
  retry from response s =
      if ltb 1 (at_or_zero from s.next_index)
      then if ltb response.hint_last_index s.last_included_index
        then recording (send_snapshot from) s
        else recording (send_append_entries from)
            (record s { next_index = assign from (at_or_zero from s.next_index - 1) s.next_index })
      else recording (send_append_entries from)
          (record s { next_index = assign from (at_or_zero from s.next_index) s.next_index })

  unfoldable pub handle_append_entries_response : NodeId → AppendEntriesResponse → Node E → Node E
  unfolding recording become_follower note_match after_advance retry advance_commit
  handle_append_entries_response from response s =
      if ltb s.hard_state.term response.term
      then recording (become_follower response.term none) s
      else if not (is_leader s.role) || not (response.term == s.hard_state.term)
      then s
      else if response.success
      then after_advance from s.commit_index (advance_commit (note_match from response s))
      else retry from response s
