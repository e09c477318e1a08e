-- ===== src/Raft/Api.antt =====
-- raft/raft_node.cpp: the calls on a node, its start, its clock tick and its messages.
use hands_on_sqldb_in_cpp.Prelude.{
  ℕ, String, suc, ◌+◌, Bool, true, false, not, ◌&&◌, ◌||◌, ◌==◌, none, List, [], ◌∷◌, ◌++◌, leb,
  length, if◌then◌else◌, inc, u64_mod, ◌%◌,
}
use hands_on_sqldb_in_cpp.Prelude.Order.{Bytes, nat_order, bytes_order}
use hands_on_sqldb_in_cpp.Prelude.Maps.{assign}
use hands_on_sqldb_in_cpp.Raft.Types.{
  NodeId, follower, SnapshotMetadata, Error, Result, ok, err, not_leader, invalid_argument, Message,
  request_vote_request, request_vote_response, append_entries_request, append_entries_response,
  install_snapshot_request, install_snapshot_response, invalid_index, NodeConfig, Proposal,
  ReadIndex,
}
use hands_on_sqldb_in_cpp.Raft.Env.{Env}
use hands_on_sqldb_in_cpp.Raft.Node.{
  Node, M, ◌>>=◌, ◌>>◌, bind_result, modify, ask, on_store, recording, reset_election_deadline,
}
use hands_on_sqldb_in_cpp.Raft.Waiters.{make_completion, finish, finished, quorum_acknowledged}
use hands_on_sqldb_in_cpp.Raft.Commit.{
  send_heartbeats, advance_commit, apply_committed, maybe_compact_log,
}
use hands_on_sqldb_in_cpp.Raft.Election.{
  is_leader, start_election, handle_request_vote, handle_request_vote_response, note_appended,
}
use hands_on_sqldb_in_cpp.Raft.Replication.{handle_append_entries, handle_append_entries_response}
use hands_on_sqldb_in_cpp.Raft.Snapshot.{handle_install_snapshot, handle_install_snapshot_response}

abbrev pub invalid : String → Error
invalid message = record { code = invalid_argument; message = message }

unfoldable pub member : NodeId → List NodeId → Bool
member x [] = false
member x (y ∷ ys) = x == y || member x ys

-- The size of a std::set made of the peers is the number of the peers.
unfoldable pub all_unique : List NodeId → Bool
unfolding member
all_unique [] = true
all_unique (x ∷ xs) = not (member x xs) && all_unique xs

-- The checks of `start`, in their order.
unfoldable pub check_config : NodeConfig → Result (Unit {0})
unfolding all_unique
check_config c =
    if c.node_id == 0 || length c.peers == 0
    then err (invalid "node id and peers are required")
    else if not (member c.node_id c.peers)
    then err (invalid "the local node id must be included in peers")
    else if not (all_unique c.peers)
    then err (invalid "peers must be unique")
    else if leb c.election_timeout_ms c.heartbeat_interval_ms
    then err (invalid "heartbeat interval must be smaller than election timeout")
    else ok tt

-- The constructor's repair of the configuration.
unfoldable pub fix_config : NodeConfig → NodeConfig
fix_config c = record c {
  election_timeout_ms = if c.election_timeout_ms == 0 then 1 else c.election_timeout_ms;
  heartbeat_interval_ms = if c.heartbeat_interval_ms == 0 then 1 else c.heartbeat_interval_ms;
}

abbrev pub not_leader_error : String → Error
not_leader_error message = record { code = not_leader; message = message }

module _ {E : Env} where
  -- The constructor, over the members' initial values.
  unfoldable pub make : NodeConfig → E.Store → E.Machine → ℕ → Node E
  unfolding fix_config
  make config store machine now = record {
    config = fix_config config;
    store = store;
    machine = machine;
    now_ms = now;
    sent = [];
    hard_state = record { term = 0; voted_for = none };
    role = follower;
    leader_id = none;
    last_log_index = invalid_index;
    last_included_index = invalid_index;
    last_included_term = 0;
    commit_index = invalid_index;
    last_applied = invalid_index;
    apply_count = 0;
    read_barrier_count = 0;
    next_index = [];
    match_index = [];
    votes_received = [];
    pending_proposals = [];
    pending_read_barriers = [];
    heartbeat_round = 0;
    peer_acked_round = [];
    pending_snapshot = none;
    election_deadline = 0;
    next_heartbeat = 0;
    last_error = none;
    next_completion = 0;
    completions = [];
  }

  unfoldable pub resume : SnapshotMetadata → Node E → Node E
  unfolding reset_election_deadline
  resume meta s = reset_election_deadline (record s {
    last_included_index = meta.last_included_index;
    last_included_term = meta.last_included_term;
    last_applied = meta.last_included_index;
    commit_index = meta.last_included_index;
    role = follower;
    leader_id = none;
    votes_received = [];
    heartbeat_round = 0;
    peer_acked_round = [];
    pending_read_barriers = [];
    pending_snapshot = none;
  })

  -- The registration with the transport has no state here.
  unfoldable pub start : M E (Unit {0})
  unfolding check_config resume
  start = do
    (λ s. (check_config s.config, s))
    hard ← ask E.load_hard_state
    modify (λ s. record s { hard_state = hard })
    last ← ask E.last_index
    modify (λ s. record s { last_log_index = last })
    meta ← ask E.snapshot_metadata
    modify (resume meta)

  -- The timers at the head of `tick`.
  unfoldable pub run_timers : Node E → Node E
  unfolding send_heartbeats recording start_election
  run_timers s =
      if is_leader s.role
      then (if leb s.next_heartbeat s.now_ms
          then record (send_heartbeats s) {
            next_heartbeat = (s.now_ms + s.config.heartbeat_interval_ms) % u64_mod;
          }
          else s)
      else if leb s.election_deadline s.now_ms
      then recording start_election s
      else s

  unfoldable pub tick : Node E → Node E
  unfolding run_timers recording apply_committed maybe_compact_log
  tick s = recording maybe_compact_log (recording apply_committed (run_timers s))

  -- `propose` after the append.
  unfoldable pub after_propose : ℕ → Bytes → Node E → Proposal × Node E
  unfolding note_appended recording advance_commit send_heartbeats
  after_propose index payload s =
      let t = note_appended index s in
      let u = record t {
        pending_proposals = assign index t.next_completion t.pending_proposals;
        next_completion = suc t.next_completion;
      } in
      let w = send_heartbeats (recording advance_commit u) in
      (
        record {
          index = index;
          term = s.hard_state.term;
          payload = payload;
          committed = leb index w.commit_index;
          completion = s.next_completion;
        },
        w,
      )

  unfoldable pub propose : Bytes → M E Proposal
  unfolding after_propose
  propose payload s =
      if not (is_leader s.role)
      then (err (not_leader_error "proposal requires the leader role"), s)
      else let index = inc s.last_log_index in
        bind_result
          (on_store
            (E.append (record { index = index; term = s.hard_state.term; payload = payload })) s)
          λ u t. let (p, w) = after_propose index payload t in (ok p, w)

  unfoldable pub read_barrier : M E ReadIndex
  unfolding send_heartbeats quorum_acknowledged finish
  read_barrier s =
      let t = record s { read_barrier_count = inc s.read_barrier_count } in
      if not (is_leader t.role)
      then (err (not_leader_error "read barrier requires the leader role"), t)
      else let target = t.commit_index in
        let u = send_heartbeats t in
        let id = u.next_completion in
        let w = make_completion u in
        let reply : ReadIndex = record {
          index = target;
          term = w.hard_state.term;
          completion = id;
        } in
        if quorum_acknowledged w.heartbeat_round w && leb target w.last_applied
        then (ok reply, finish id (finished []) w)
        else (
          ok reply,
          record w {
            pending_read_barriers =
                w.pending_read_barriers
                ++ record { round = w.heartbeat_round; target_index = target; completion = id }
                  ∷ [];
          },
        )

  unfoldable pub handle_message : NodeId → Message → Node E → Node E
  unfolding recording
  handle_message from (request_vote_request r) = recording (handle_request_vote from r)
  handle_message from (request_vote_response r) = handle_request_vote_response from r
  handle_message from (append_entries_request r) = recording (handle_append_entries from r)
  handle_message from (append_entries_response r) = handle_append_entries_response from r
  handle_message from (install_snapshot_request r) = recording (handle_install_snapshot from r)
  handle_message from (install_snapshot_response r) = handle_install_snapshot_response from r
