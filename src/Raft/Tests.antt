-- ===== src/Raft/Tests.antt =====
-- Concrete nodes on which the theorems of the consensus layer are applied. They stand on the log
-- store in memory and on a state machine that lists what was applied.
use hands_on_sqldb_in_cpp.Prelude.{
  ℕ, ◌≡◌, ◌≤◌, ◌↔◌, refl, true, false, none, some, List, [], ◌∷◌, ◌++◌, arith, inc, length,
}
use hands_on_sqldb_in_cpp.Prelude.Order.{eqb}
use hands_on_sqldb_in_cpp.Prelude.Maps.{find}
use hands_on_sqldb_in_cpp.Kv.Batch
use hands_on_sqldb_in_cpp.Raft.Types.{
  NodeConfig, LogEntry, ok, leader, follower, request_vote_request, append_entries_request,
  AppendEntriesRequest, InstallSnapshotRequest,
}
use hands_on_sqldb_in_cpp.Raft.Env.{Env}
use hands_on_sqldb_in_cpp.Raft.MemoryLog
use hands_on_sqldb_in_cpp.Raft.MemoryLog.{MemoryLogStore}
use hands_on_sqldb_in_cpp.Raft.MemoryLog.Places.{
  IsContiguous, at_succeeds, append-IsContiguous, install_snapshot-IsContiguous,
}
use hands_on_sqldb_in_cpp.Raft.Node.{Node, has_quorum}
use hands_on_sqldb_in_cpp.Raft.Commit.{
  matches, quorum_match_index, apply_committed, snapshot_frames, send_append_entries,
  ensure_progress, send_entries, term_at, read_entries,
}
use hands_on_sqldb_in_cpp.Raft.Commit.Quorum.{
  holders, quorum_match_index-odd, quorum_match_index-even,
}
use hands_on_sqldb_in_cpp.Raft.Commit.Applying.{
  Run, apply_committed-Run, apply_committed_reaches, Readable, Applicable,
}
use hands_on_sqldb_in_cpp.Raft.Election.{become_follower}
use hands_on_sqldb_in_cpp.Raft.Election.StepDown.{IsReleased, become_follower-IsReleased}
use hands_on_sqldb_in_cpp.Raft.Replication.{follow, prefix_ok, replicate, handle_append_entries}
use hands_on_sqldb_in_cpp.Raft.Replication.Entries.{IsRefused}
use hands_on_sqldb_in_cpp.Raft.Replication.Inherited.{newest, inherited_entry-IsRefused}
use hands_on_sqldb_in_cpp.Raft.Snapshot.{max_pending_snapshot_bytes}
use hands_on_sqldb_in_cpp.Raft.Snapshot.Frames.{handle_all, position}
use hands_on_sqldb_in_cpp.Raft.Snapshot.Assembled.{Accepted, Installed, handle_all-snapshot_frames}
use hands_on_sqldb_in_cpp.Raft.Api.{tick, handle_message}
use hands_on_sqldb_in_cpp.Raft.Safety.Votes.{Voted}
use hands_on_sqldb_in_cpp.Raft.Safety.Steps.{handle_message-Voted, tick-Voted}

abbrev env : Env
env = record {
  Store = MemoryLogStore;
  append = MemoryLog.append;
  at = MemoryLog.at;
  truncate_suffix = MemoryLog.truncate_suffix;
  save_hard_state = MemoryLog.save_hard_state;
  load_hard_state = λ s. ok s.hard_state;
  last_index = λ s. ok s.last_index;
  snapshot_metadata = λ s. ok s.snapshot_meta;
  install_snapshot = MemoryLog.install_snapshot;
  Machine = List LogEntry;
  apply = λ e m. (ok e.payload, m ++ e ∷ []);
  snapshot = λ r m. ok [];
  restore = λ r b m. (ok tt, record { index = 0; term = 0; payload = b } ∷ []);
}

abbrev entry : ℕ → ℕ → LogEntry
entry index term = record { index = index; term = term; payload = index ∷ [] }

abbrev two_entries : MemoryLogStore
two_entries = record MemoryLog.empty { entries = entry 1 1 ∷ entry 2 1 ∷ []; last_index = 2 }

abbrev config : List ℕ → NodeConfig
config peers = record {
  node_id = 1;
  peers = peers;
  election_timeout_ms = 100;
  heartbeat_interval_ms = 20;
  group_range = record { start = none; end = none; limit = 0; direction = Batch.forward };
  snapshot_entries_threshold = 0;
  group_id = 1;
}

-- A follower in term 3 with two entries of term 1, of which one is applied and both are committed.
abbrev node : Node env
node = record {
  config = config (1 ∷ 2 ∷ 3 ∷ []);
  store = two_entries;
  machine = entry 1 1 ∷ [];
  now_ms = 0;
  sent = [];
  hard_state = record { term = 3; voted_for = some 2 };
  role = follower;
  leader_id = none;
  last_log_index = 2;
  last_included_index = 0;
  last_included_term = 0;
  commit_index = 2;
  last_applied = 1;
  apply_count = 1;
  read_barrier_count = 0;
  next_index = [];
  match_index = [];
  votes_received = [];
  pending_proposals = [];
  pending_read_barriers = [];
  heartbeat_round = 0;
  peer_acked_round = [];
  pending_snapshot = none;
  election_deadline = 50;
  next_heartbeat = 0;
  last_error = none;
  next_completion = 0;
  completions = [];
}

abbrev of_four : Node env
of_four = record node {
  config = config (1 ∷ 2 ∷ 3 ∷ 4 ∷ []);
  role = leader;
  match_index = (1, 2) ∷ (2, 2) ∷ [];
  pending_proposals = (3, 0) ∷ [];
  next_completion = 1;
}

-- A leader of term 4 with an entry 3 of term 2, which the peer 2 lacks.
abbrev successor : Node env
successor = record node {
  store = record two_entries { entries = entry 1 1 ∷ entry 2 1 ∷ entry 3 2 ∷ []; last_index = 3 };
  hard_state = record { term = 4; voted_for = some 1 };
  role = leader;
  last_log_index = 3;
  next_index = (2, 3) ∷ [];
}

-- A peer that lacks the entry 2 as well.
abbrev lagging : Node env
lagging = record node {
  store = record two_entries { entries = entry 1 1 ∷ []; last_index = 1 };
  last_log_index = 1;
  commit_index = 1;
}

abbrev inherited : AppendEntriesRequest
inherited = record {
  term = 4;
  leader_id = 1;
  prev_log_index = 2;
  prev_log_term = 1;
  entries = entry 3 2 ∷ [];
  leader_commit = 2;
  round = 0;
}

two_entries-IsContiguous : IsContiguous two_entries
two_entries-IsContiguous = record { numbered = (refl, (refl, tt)); last = refl }

handle_message-Voted_example : Voted node (
    handle_message 3
      (request_vote_request
        (record { term = 3; candidate_id = 3; last_log_index = 9; last_log_term = 3 }))
      node)
handle_message-Voted_example =
    handle_message-Voted 3
      (request_vote_request
        (record { term = 3; candidate_id = 3; last_log_index = 9; last_log_term = 3 }))
      node

tick-Voted_example : Voted node (tick node)
tick-Voted_example = tick-Voted node (omega arith)

applies : (apply_committed node).0 ≡ ok tt
unfolding apply_committed MemoryLog.at inc
applies = refl

apply_committed-Run_example :
    Run env two_entries 1 (entry 1 1 ∷ []) 2 (apply_committed node).1.machine
    × ((apply_committed node).1.last_applied ≡ 2)
apply_committed-Run_example = apply_committed-Run node (omega arith) (omega arith) applies

node-Readable : Readable node
node-Readable i below above =
    let (e, found, place) =
      at_succeeds i two_entries two_entries-IsContiguous (omega arith) (omega arith)
        (omega arith) in
    (e, found)

env-Applicable : Applicable env
env-Applicable e m = (e.payload, m ++ e ∷ [], refl)

apply_committed_reaches_example :
    ((apply_committed node).0 ≡ ok tt) × ((apply_committed node).1.last_applied ≡ 2)
apply_committed_reaches_example =
    apply_committed_reaches node (omega arith) (omega arith) node-Readable env-Applicable

of_four_steps_down : (become_follower 4 none of_four).0 ≡ ok tt
unfolding become_follower MemoryLog.save_hard_state
of_four_steps_down = refl

become_follower-IsReleased_example : IsReleased of_four (become_follower 4 none of_four).1
become_follower-IsReleased_example =
    become_follower-IsReleased 4 none of_four refl of_four_steps_down

quorum_match_index-odd_example :
    (2 ≤ quorum_match_index node) ↔ (has_quorum (holders 2 node) node ≡ true)
quorum_match_index-odd_example = quorum_match_index-odd node 1 2 refl

half_hold : holders 2 of_four ≡ 2
unfolding matches find eqb
half_hold = refl

quorum_match_index-even_example :
    (2 ≤ quorum_match_index of_four) × (has_quorum (holders 2 of_four) of_four ≡ false)
quorum_match_index-even_example = quorum_match_index-even of_four 2 2 refl (omega arith) half_hold

successor_sends :
    ((send_append_entries 2 successor).0 ≡ ok tt)
    × (newest (send_append_entries 2 successor).1.sent ≡ some (append_entries_request inherited))
unfolding send_append_entries ensure_progress send_entries term_at read_entries MemoryLog.at find
    inc eqb
successor_sends = (refl, refl)

lagging_handles : (handle_append_entries 1 inherited lagging).0 ≡ ok tt
unfolding handle_append_entries follow prefix_ok replicate MemoryLog.save_hard_state
lagging_handles = refl

inherited_entry-IsRefused_example : IsRefused 1 inherited lagging
unfolding ensure_progress find MemoryLog.at eqb
inherited_entry-IsRefused_example =
    inherited_entry-IsRefused successor lagging 2 1 inherited (entry 3 2) refl (omega arith) refl
      (λ e. omega (arith, e)) successor_sends.0 successor_sends.1 lagging_handles

abbrev snapshot_request : InstallSnapshotRequest
snapshot_request = record {
  term = 3;
  leader_id = 2;
  last_included_index = 5;
  last_included_term = 2;
  offset = 0;
  is_done = true;
  payload = [];
}

abbrev installed_log : MemoryLogStore
installed_log = (MemoryLog.install_snapshot (position snapshot_request) two_entries).1

snapshot-Accepted :
    Accepted 2
      (7 ∷ 8 ∷ [])
      snapshot_request
      (record { index = 0; term = 0; payload = 7 ∷ 8 ∷ [] } ∷ [])
      installed_log
      node
unfolding MemoryLog.install_snapshot
snapshot-Accepted = (refl, refl)

two_bytes_fit : length {A = ℕ} (7 ∷ 8 ∷ []) ≤ max_pending_snapshot_bytes
unfolding max_pending_snapshot_bytes
two_bytes_fit = omega arith

handle_all-snapshot_frames_example :
    Installed 2
      (7 ∷ 8 ∷ [])
      snapshot_request
      (record { index = 0; term = 0; payload = 7 ∷ 8 ∷ [] } ∷ [])
      installed_log
      (handle_all 2 (snapshot_frames (7 ∷ 8 ∷ []) snapshot_request) node)
handle_all-snapshot_frames_example =
    handle_all-snapshot_frames 2 (7 ∷ 8 ∷ []) snapshot_request
      (record { index = 0; term = 0; payload = 7 ∷ 8 ∷ [] } ∷ []) installed_log node
      (refl, refl, omega arith, omega arith, omega arith) snapshot-Accepted two_bytes_fit

append-IsContiguous_example : IsContiguous (MemoryLog.append (entry 3 3) two_entries).1
append-IsContiguous_example =
    append-IsContiguous (entry 3 3) two_entries (omega arith) two_entries-IsContiguous

install_snapshot-IsContiguous_example :
    IsContiguous
      (MemoryLog.install_snapshot
        (record { last_included_index = 1; last_included_term = 1 })
        two_entries).1
install_snapshot-IsContiguous_example =
    install_snapshot-IsContiguous (record { last_included_index = 1; last_included_term = 1 })
      two_entries (omega arith) two_entries-IsContiguous
