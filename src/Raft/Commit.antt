-- ===== src/Raft/Commit.antt =====
-- raft/raft_node.cpp: applying committed entries, what a leader sends, and the commit index.
pub mod Quorum
pub mod Applying
use hands_on_sqldb_in_cpp.Prelude.{
  ℕ, zero, suc, ◌+◌, ◌-◌, ◌/◌, ◌%◌, ◌≡◌, Bool, true, false, not, ◌&&◌, ◌||◌, ◌==◌, Option, none,
  some, List, [], ◌∷◌, ◌++◌, ltb, leb, length, take, drop, get_or, min, max, map, if◌then◌else◌,
  inc, u64_mod,
}
use hands_on_sqldb_in_cpp.Prelude.Order.{Bytes, nat_order}
use hands_on_sqldb_in_cpp.Prelude.Maps.{Map, find, assign}
use hands_on_sqldb_in_cpp.Kv.Batch.{KeyRange, ScanDirection, forward}
use hands_on_sqldb_in_cpp.Raft.Types.{
  NodeId, Role, LogEntry, SnapshotMetadata, Error, Result, ok, err, leader, follower, Message,
  AppendEntriesRequest, append_entries_request, InstallSnapshotRequest, install_snapshot_request,
  invalid_index,
}
use hands_on_sqldb_in_cpp.Raft.Env.{Env}
use hands_on_sqldb_in_cpp.Raft.Node.{
  Node, M, ◌>>=◌, ◌>>◌, bind_result, pure, fail, modify, ask, on_store, send, record_error,
  recording, at_or_zero, has_quorum,
}
use hands_on_sqldb_in_cpp.Raft.Waiters.{
  complete_applied_proposal, fail_pending_proposals, fail_read_barriers, evaluate_read_barriers,
}

unfoldable pub snapshot_chunk_bytes : ℕ
snapshot_chunk_bytes = 1048576

-- std::sort with std::greater: the largest first.
unfoldable pub insert_desc : ℕ → List ℕ → List ℕ
insert_desc x [] = x ∷ []
insert_desc x (y ∷ ys) = let rest = insert_desc x ys in if ltb x y then y ∷ rest else x ∷ y ∷ ys

unfoldable pub sort_desc : List ℕ → List ℕ
unfolding insert_desc
sort_desc [] = []
sort_desc (x ∷ xs) = insert_desc x (sort_desc xs)

unfoldable pub matches : List NodeId → Map NodeId ℕ → List ℕ
matches [] m = []
matches (peer ∷ peers) m = at_or_zero peer m ∷ matches peers m

-- `matches[(matches.size() - 1) / 2]` of the sorted values.
unfoldable pub quorum_index : List ℕ → ℕ
unfolding sort_desc
quorum_index [] = invalid_index
quorum_index (x ∷ xs) = get_or (sort_desc (x ∷ xs)) ((length (x ∷ xs) - 1) / 2) invalid_index

-- The chunks of a snapshot from an offset on; one frame for each `snapshot_chunk_bytes`.
unfoldable pub chunks : ℕ → ℕ → Bytes → InstallSnapshotRequest → List InstallSnapshotRequest
chunks zero offset blob request = []
chunks (suc fuel) offset blob request =
    let size = min snapshot_chunk_bytes (length blob - offset) in
    let rest = chunks fuel (offset + size) blob request in
    if ltb offset (length blob)
    then record request {
      offset = offset;
      is_done = offset + size == length blob;
      payload = take size (drop offset blob);
    }
      ∷ rest
    else []

-- The frames of a snapshot: an empty one still takes one.
unfoldable pub snapshot_frames : Bytes → InstallSnapshotRequest → List InstallSnapshotRequest
unfolding chunks
snapshot_frames [] request = record request { offset = 0; is_done = true; payload = [] } ∷ []
snapshot_frames (x ∷ xs) request = chunks (length (x ∷ xs)) 0 (x ∷ xs) request

abbrev pub is_candidate : Role → Bool
is_candidate r = elim r [ leader ↦ false | follower ↦ false | _ ↦ true ]

module _ {E : Env} where
  unfoldable pub quorum_match_index : Node E → ℕ
  unfolding quorum_index matches
  quorum_match_index s = quorum_index (matches s.config.peers s.match_index)

  -- The call of the state machine in `apply_committed`; its timing is left out.
  unfoldable pub apply_entry : LogEntry → M E Bytes
  apply_entry entry s =
      let (r, machine') = E.apply entry s.machine in
      (r, record s { machine = machine'; apply_count = inc s.apply_count })

  -- The body of the loop of `apply_committed` after the entry was applied.
  unfoldable pub after_apply : Result Bytes × Node E → Result (Unit {0}) × Node E
  unfolding complete_applied_proposal fail_pending_proposals fail_read_barriers
  after_apply (ok result, s) =
      let index = inc s.last_applied in
      (ok tt, complete_applied_proposal index result (record s { last_applied = index }))
  after_apply (err e, s) =
      (err e, fail_read_barriers e (fail_pending_proposals (some (inc s.last_applied)) e s))

  unfoldable pub apply_next : M E (Unit {0})
  unfolding apply_entry after_apply
  apply_next = do
    entry ← (λ s. ask (E.at (inc s.last_applied)) s)
    λ s. after_apply (apply_entry entry s)

  -- The loop, with a round of fuel for each index between.
  unfoldable pub apply_loop : ℕ → M E (Unit {0})
  unfolding apply_next
  apply_loop zero s = (ok tt, s)
  apply_loop (suc fuel) s = elim (ltb s.last_applied s.commit_index) [
    | true ↦ bind_result (apply_next s) (λ u. apply_loop fuel)
    | false ↦ (ok tt, s)
  ]

  unfoldable pub apply_committed : M E (Unit {0})
  unfolding apply_loop evaluate_read_barriers
  apply_committed s =
      bind_result (apply_loop (s.commit_index - s.last_applied) s)
        (λ u. modify evaluate_read_barriers)

  -- The term of a log position that may be the snapshot boundary.
  unfoldable pub term_at : ℕ → Node E → Result ℕ
  term_at index s =
      if index == s.last_included_index
      then ok s.last_included_term
      else if index == invalid_index
      then ok 0
      else elim (E.at index s.store) [ ok entry ↦ ok entry.term | err e ↦ err e ]

  unfoldable pub snapshot_range : Node E → KeyRange
  snapshot_range s = record s.config.group_range {
    start = elim s.config.group_range.start [ none ↦ some [] | some k ↦ some k ];
    direction = forward;
  }

  abbrev pub send_all : NodeId → List InstallSnapshotRequest → Node E → Node E
  send_all to [] s = s
  send_all to (r ∷ rs) s = send_all to rs (send to (install_snapshot_request r) s)

  unfoldable pub included_term : ℕ → Node E → Result ℕ
  included_term index s =
      if index == s.last_included_index
      then ok s.last_included_term
      else elim (E.at index s.store) [ ok entry ↦ ok entry.term | err e ↦ err e ]

  unfoldable pub send_snapshot : NodeId → M E (Unit {0})
  unfolding included_term snapshot_frames snapshot_range
  send_snapshot to s =
      if s.last_included_index == invalid_index
      then (ok tt, s)
      else bind_result (E.snapshot (snapshot_range s) s.machine, s)
          λ blob t.
            bind_result (included_term t.last_applied t, t)
              λ term u.
                let request : InstallSnapshotRequest = record {
                  term = u.hard_state.term;
                  leader_id = u.config.node_id;
                  last_included_index = u.last_applied;
                  last_included_term = term;
                  offset = 0;
                  is_done = true;
                  payload = [];
                } in
                let w = send_all to (snapshot_frames blob request) u in
                (
                  ok tt,
                  record w {
                    next_index = assign to (inc u.last_applied) w.next_index;
                    match_index =
                        assign to (max (at_or_zero to w.match_index) u.last_applied) w.match_index;
                  },
                )

  -- The entries from an index on, as many as are left.
  unfoldable pub read_entries : ℕ → ℕ → M E (List LogEntry)
  read_entries zero index = pure []
  read_entries (suc left) index = do
    entry ← ask (E.at index)
    entries ← read_entries left (inc index)
    pure (entry ∷ entries)

  -- A follower that the leader has not heard of yet gets its default progress.
  unfoldable pub ensure_progress : NodeId → Node E → Node E
  ensure_progress to s = record s {
    next_index = elim (find to s.next_index) [
      | none ↦ assign to (inc s.last_log_index) s.next_index
      | some n ↦ s.next_index
    ];
    match_index = elim (find to s.match_index) [
      | none ↦ assign to 0 s.match_index
      | some n ↦ s.match_index
    ];
  }

  -- The part of `send_append_entries` that builds and sends the request.
  unfoldable pub send_entries : NodeId → ℕ → M E (Unit {0})
  unfolding term_at read_entries
  send_entries to next s =
      bind_result (term_at (next - 1) s, s)
        λ prev_term t. bind_result (read_entries (t.last_log_index + 1 - next) next t) λ entries u.
          (
            ok tt,
            send to
                (append_entries_request (record {
                  term = u.hard_state.term;
                  leader_id = u.config.node_id;
                  prev_log_index = next - 1;
                  prev_log_term = prev_term;
                  entries = entries;
                  leader_commit = u.commit_index;
                  round = u.heartbeat_round;
                }))
                u,
          )

  unfoldable pub send_append_entries : NodeId → M E (Unit {0})
  unfolding ensure_progress send_snapshot send_entries
  send_append_entries to s =
      let t = ensure_progress to s in
      let next = at_or_zero to t.next_index in
      if leb next t.last_included_index then send_snapshot to t else send_entries to next t

  unfoldable pub heartbeats_to : List NodeId → Node E → Node E
  unfolding send_append_entries recording
  heartbeats_to [] s = s
  heartbeats_to (peer ∷ peers) s =
      heartbeats_to peers
        (if peer == s.config.node_id then s else recording (send_append_entries peer) s)

  unfoldable pub send_heartbeats : Node E → Node E
  unfolding heartbeats_to
  send_heartbeats s =
      heartbeats_to s.config.peers (record s { heartbeat_round = inc s.heartbeat_round })

  -- `advance_commit` once the candidate's entry is read.
  unfoldable pub commit_to : ℕ → LogEntry → M E (Unit {0})
  unfolding apply_committed send_heartbeats
  commit_to candidate entry s =
      if not (entry.term == s.hard_state.term)
      then (ok tt, s)
      else bind_result (apply_committed (record s { commit_index = candidate }))
          λ u t. (ok tt, if ltb 1 (length t.config.peers) then send_heartbeats t else t)

  unfoldable pub advance_commit : M E (Unit {0})
  unfolding quorum_match_index commit_to
  advance_commit s =
      let candidate = quorum_match_index s in
      if leb candidate s.commit_index || ltb s.last_log_index candidate
      then (ok tt, s)
      else bind_result (ask (E.at candidate) s) (commit_to candidate)

  -- `maybe_compact_log` once the entry at the target is read.
  unfoldable pub compact_at : ℕ → LogEntry → M E (Unit {0})
  compact_at target entry = do
    on_store (
        E.install_snapshot
          (record { last_included_index = target; last_included_term = entry.term }))
    modify (λ s. record s { last_included_index = target; last_included_term = entry.term })

  unfoldable pub maybe_compact_log : M E (Unit {0})
  unfolding compact_at
  maybe_compact_log s =
      let kept = (s.last_log_index + u64_mod - s.last_included_index) % u64_mod in
      if is_candidate s.role
        || s.config.snapshot_entries_threshold == 0
        || ltb kept s.config.snapshot_entries_threshold
        || s.last_applied == invalid_index
        || leb s.last_applied s.last_included_index
      then (ok tt, s)
      else bind_result (ask (E.at s.last_applied) s) (compact_at s.last_applied)
