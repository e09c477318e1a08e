-- ===== src/Raft/Safety/Steps.antt =====
-- Every call on a node, and every message to it, keeps its term and its vote in order.
use hands_on_sqldb_in_cpp.Prelude.{
  ℕ, ◌+◌, ◌-◌, ◌<◌, ◌≡◌, refl, Bool, false, none, some, List, [], ◌∷◌, arith, ltb, inc, u64_mod,
  not, ◌||◌, ◌++◌, ◌%◌, ◌==◌,
}
use hands_on_sqldb_in_cpp.Prelude.Maps.{assign}
use hands_on_sqldb_in_cpp.Prelude.Order.{nat_order}
use hands_on_sqldb_in_cpp.Raft.Node.{at_or_zero}
use hands_on_sqldb_in_cpp.Raft.Types.{
  NodeId, LogEntry, Result, ok, err, Message, request_vote_request, request_vote_response,
  append_entries_request, append_entries_response, install_snapshot_request,
  install_snapshot_response, AppendEntriesRequest, AppendEntriesResponse, InstallSnapshotRequest,
  InstallSnapshotResponse,
}
use hands_on_sqldb_in_cpp.Raft.Env.{Env}
use hands_on_sqldb_in_cpp.Raft.Node.{
  Node, M, recording, record_error, reset_election_deadline, on_store,
}
use hands_on_sqldb_in_cpp.Raft.Waiters.{
  fail_pending_proposals, evaluate_read_barriers, complete_applied_proposals_upto,
}
use hands_on_sqldb_in_cpp.Raft.Commit.{
  advance_commit, apply_committed, send_heartbeats, send_append_entries, send_snapshot,
  maybe_compact_log, snapshot_range,
}
use hands_on_sqldb_in_cpp.Raft.Election.{
  become_follower, start_election, handle_request_vote, is_leader,
}
use hands_on_sqldb_in_cpp.Raft.Safety.{
  apply_committed-SameVote, send_append_entries-SameVote, send_heartbeats-SameVote,
  advance_commit-SameVote, maybe_compact_log-SameVote, send_snapshot-SameVote,
}
use hands_on_sqldb_in_cpp.Raft.Types.{PendingSnapshot, SnapshotMetadata}
use hands_on_sqldb_in_cpp.Raft.Replication.{
  append_reply, follow, truncate_from, check_existing, reconcile, append_new, append_round,
  append_all, learn_commit, accept, prefix_ok, replicate, handle_append_entries, note_match,
  after_advance, retry, handle_append_entries_response,
}
use hands_on_sqldb_in_cpp.Raft.Snapshot.{
  or_drop, current_pending, snapshot_reply, drop_pending, after_install, on_machine, install,
  add_chunk, take_chunk, handle_install_snapshot, resend_rest, handle_install_snapshot_response,
}
use hands_on_sqldb_in_cpp.Raft.Api.{run_timers, tick, handle_message}
use hands_on_sqldb_in_cpp.Raft.Safety.Votes.{
  Voted, Voted-refl, Voted-trans, SameVote→Voted, bind-Voted, if-Voted, recording-Voted, like,
  choose-Voted, become_follower-Voted, handle_request_vote-Voted,
  handle_request_vote_response-Voted, start_election-Voted,
}

module _ {E : Env} where
  follow-Voted : (n : ℕ) (l : NodeId) (s : Node E) → Voted s (follow n l s).1
  unfolding follow reset_election_deadline
  follow-Voted n l s =
      let t : Node E = reset_election_deadline (record s { leader_id = some l }) in
      ground (arith, become_follower-Voted n (some l) s, like s t refl)

  append_round-hard :
      (term index : ℕ) (e : LogEntry) (s : Node E)
      → (append_round term index e s).1.hard_state ≡ s.hard_state
  unfolding append_round reconcile check_existing truncate_from append_new fail_pending_proposals
  append_round-hard term index e s = ground arith

  append_all-Voted :
      (term index : ℕ) (es : List LogEntry) (s : Node E) → Voted s (append_all term index es s).1
  unfolding append_all
  append_all-Voted term index [] s = Voted-refl s
  append_all-Voted term index (e ∷ es) s =
      bind-Voted s (append_round term (inc index) e s) (λ u. append_all term (inc index) es)
        (like s _ (append_round-hard term (inc index) e s))
        (λ u. append_all-Voted term (inc index) es (append_round term (inc index) e s).1)

  accept-Voted :
      (from : NodeId) (q : AppendEntriesRequest) (n : ℕ) (s : Node E)
      → Voted s (accept from q n s).1
  unfolding accept append_reply
  accept-Voted from q n s =
      let t = learn_commit q.leader_commit s in
      Voted-trans s t _ (like s t (unfold learn_commit in ground arith)) (
        Voted-trans t (apply_committed t).1 _ (SameVote→Voted t _ (apply_committed-SameVote t))
          (like _ _ refl))

  replicate-Voted :
      (from : NodeId) (q : AppendEntriesRequest) (b : Bool) (s : Node E)
      → Voted s (replicate from q b s).1
  unfolding replicate append_reply
  replicate-Voted from q b s =
      if-Voted s b _ _
        (bind-Voted s (append_all q.term q.prev_log_index q.entries s) _
          (append_all-Voted q.term q.prev_log_index q.entries s) (λ n. accept-Voted from q n _))
        (like s _ refl)

  handle_append_entries-Voted :
      (from : NodeId) (q : AppendEntriesRequest) (s : Node E)
      → Voted s (handle_append_entries from q s).1
  unfolding handle_append_entries append_reply
  handle_append_entries-Voted from q s =
      if-Voted s (ltb q.term s.hard_state.term) (ok tt, append_reply from false 0 q.round 0 s) _
        (like s _ refl)
        (bind-Voted s (follow q.term q.leader_id s) _ (follow-Voted q.term q.leader_id s) λ u.
          let t = (follow q.term q.leader_id s).1 in
          bind-Voted t (prefix_ok q t, t) _ (Voted-refl t) (λ b. replicate-Voted from q b t))

  recorded_send : (to : NodeId) (s : Node E) → Voted s (recording (send_append_entries to) s)
  recorded_send to s =
      recording-Voted (send_append_entries to) s
        (SameVote→Voted s _ (send_append_entries-SameVote to s))

  after_advance-Voted :
      (from : NodeId) (n : ℕ) (r : Result (Unit {0}) × Node E) → Voted r.1 (after_advance from n r)
  unfolding after_advance record_error
  after_advance-Voted from n (err e, s) = like s _ refl
  after_advance-Voted from n (ok u, s) =
      let t = evaluate_read_barriers s in
      let same : Voted s t = like s t (unfold evaluate_read_barriers in refl) in
      ground (arith, same, Voted-trans s t _ same (recorded_send from t))

  retry-Voted : (from : NodeId) (q : AppendEntriesResponse) (s : Node E) → Voted s (retry from q s)
  unfolding retry
  retry-Voted from q s =
      let t : Node E = record s {
        next_index = assign from (at_or_zero from s.next_index - 1) s.next_index;
      } in
      let u : Node E = record s {
        next_index = assign from (at_or_zero from s.next_index) s.next_index;
      } in
      ground (
        arith,
        recording-Voted (send_snapshot from) s (SameVote→Voted s _ (send_snapshot-SameVote from s)),
        Voted-trans s t _ (like s t refl) (recorded_send from t),
        Voted-trans s u _ (like s u refl) (recorded_send from u),
      )

  handle_append_entries_response-Voted :
      (from : NodeId) (q : AppendEntriesResponse) (s : Node E)
      → Voted s (handle_append_entries_response from q s)
  unfolding handle_append_entries_response
  handle_append_entries_response-Voted from q s =
      let t = note_match from q s in
      choose-Voted s (ltb s.hard_state.term q.term) _ _
        (recording-Voted (become_follower q.term none) s (become_follower-Voted q.term none s))
        (choose-Voted s (not (is_leader s.role) || not (q.term == s.hard_state.term)) s _
          (Voted-refl s)
          (choose-Voted s q.success _ _
            (Voted-trans s t _ (like s t (unfold note_match in refl)) (
              Voted-trans t (advance_commit t).1 _ (SameVote→Voted t _ (advance_commit-SameVote t))
                (after_advance-Voted from s.commit_index (advance_commit t))))
            (retry-Voted from q s)))

  drop_pending-Voted : (from : NodeId) (s : Node E) → Voted s (drop_pending from s)
  unfolding drop_pending snapshot_reply
  drop_pending-Voted from s = like s _ refl

  or_drop-Voted :
      (from : NodeId) (s : Node E) (r : Result (Unit {0}) × Node E) (k : Unit {0} → M E (Unit {0}))
      → Voted s r.1
      → (Voted r.1 (k tt r.1).1)
      → Voted s (or_drop from r k).1
  or_drop-Voted from s (ok u, t) k h g = Voted-trans s t _ h g
  or_drop-Voted from s (err e, t) k h g = Voted-trans s t _ h (drop_pending-Voted from t)

  after_install-Voted :
      (from : NodeId) (meta : SnapshotMetadata) (s : Node E) → Voted s (after_install from meta s)
  unfolding after_install complete_applied_proposals_upto evaluate_read_barriers snapshot_reply
  after_install-Voted from meta s = like s _ refl

  install-Voted : (from : NodeId) (p : PendingSnapshot) (s : Node E) → Voted s (install from p s).1
  unfolding install on_machine
  install-Voted from p s =
      let meta : SnapshotMetadata = record {
        last_included_index = p.last_included_index;
        last_included_term = p.last_included_term;
      } in
      let r = on_machine (E.restore (snapshot_range s) p.buffer) s in
      let q = on_store (E.install_snapshot meta) r.1 in
      or_drop-Voted from s r _ (like s r.1 refl)
        (or_drop-Voted from r.1 q _ (like r.1 q.1 refl) (after_install-Voted from meta q.1))

  take_chunk-Voted :
      (from : NodeId) (q : InstallSnapshotRequest) (b : Bool) (s : Node E)
      → Voted s (take_chunk from q b s).1
  unfolding take_chunk add_chunk snapshot_reply
  take_chunk-Voted from q b s =
      let p = current_pending (q.offset == 0 || b) q s.pending_snapshot in
      let grown : PendingSnapshot = record p { buffer = p.buffer ++ q.payload } in
      let t : Node E = record s { pending_snapshot = some grown } in
      let refused : Voted s (snapshot_reply from false s) = like s _ refl in
      ground (
        arith,
        refused,
        drop_pending-Voted from s,
        like s t refl,
        Voted-trans s t _ (like s t refl) (install-Voted from grown t),
      )

  handle_install_snapshot-Voted :
      (from : NodeId) (q : InstallSnapshotRequest) (s : Node E)
      → Voted s (handle_install_snapshot from q s).1
  unfolding handle_install_snapshot snapshot_reply
  handle_install_snapshot-Voted from q s =
      if-Voted s (ltb q.term s.hard_state.term) _ _ (like s _ refl) (
        bind-Voted s (follow q.term q.leader_id s) _ (follow-Voted q.term q.leader_id s)
          λ u. take_chunk-Voted from q _ (follow q.term q.leader_id s).1)

  resend_rest-Voted : (from : NodeId) (s : Node E) → Voted s (resend_rest from s)
  unfolding resend_rest
  resend_rest-Voted from s = choose-Voted s _ _ s (recorded_send from s) (Voted-refl s)

  handle_install_snapshot_response-Voted :
      (from : NodeId) (q : InstallSnapshotResponse) (s : Node E)
      → Voted s (handle_install_snapshot_response from q s)
  unfolding handle_install_snapshot_response record_error
  handle_install_snapshot_response-Voted from q s =
      let t : Node E = record s {
        match_index = assign from (at_or_zero from s.match_index) s.match_index;
      } in
      choose-Voted s (ltb s.hard_state.term q.term) _ _
        (recording-Voted (become_follower q.term none) s (become_follower-Voted q.term none s))
        (choose-Voted s (not (is_leader s.role) || not (q.term == s.hard_state.term)) s _
          (Voted-refl s)
          (choose-Voted s q.success _ _
            (Voted-trans s t _ (like s t refl) (resend_rest-Voted from t)) (like s _ refl)))

  -- No message, of whatever kind and content, makes the term of a node fall, or changes the vote
  -- that the node has given in its current term.
  pub handle_message-Voted :
      (from : NodeId) (m : Message) (s : Node E) → Voted s (handle_message from m s)
  unfolding handle_message
  handle_message-Voted from (request_vote_request r) s =
      recording-Voted (handle_request_vote from r) s (handle_request_vote-Voted from r s)
  handle_message-Voted from (request_vote_response r) s =
      handle_request_vote_response-Voted from r s
  handle_message-Voted from (append_entries_request r) s =
      recording-Voted (handle_append_entries from r) s (handle_append_entries-Voted from r s)
  handle_message-Voted from (append_entries_response r) s =
      handle_append_entries_response-Voted from r s
  handle_message-Voted from (install_snapshot_request r) s =
      recording-Voted (handle_install_snapshot from r) s (handle_install_snapshot-Voted from r s)
  handle_message-Voted from (install_snapshot_response r) s =
      handle_install_snapshot_response-Voted from r s

  run_timers-Voted : (s : Node E) → s.hard_state.term + 1 < u64_mod → Voted s (run_timers s)
  unfolding run_timers
  run_timers-Voted s small = ground (
    arith,
    Voted-refl s,
    SameVote→Voted s _ (send_heartbeats-SameVote s),
    like (send_heartbeats s)
        (record (send_heartbeats s) {
          next_heartbeat = (s.now_ms + s.config.heartbeat_interval_ms) % u64_mod;
        })
        refl,
    recording-Voted start_election s (start_election-Voted s small),
  )

  -- A tick of the clock never makes the term of a node fall, and does not change the vote given in
  -- a term that stays, as long as the next term does not wrap around.
  pub tick-Voted : (s : Node E) → s.hard_state.term + 1 < u64_mod → Voted s (tick s)
  unfolding tick
  tick-Voted s small =
      let t = run_timers s in
      let u = recording apply_committed t in
      Voted-trans s t _ (run_timers-Voted s small) (
        Voted-trans t u _
          (recording-Voted apply_committed t (SameVote→Voted t _ (apply_committed-SameVote t)))
          (recording-Voted maybe_compact_log u (SameVote→Voted u _ (maybe_compact_log-SameVote u))))
