-- ===== src/Raft/Safety.antt =====
-- What every step of a node keeps of its term and its vote.
pub mod Votes
pub mod Steps
use hands_on_sqldb_in_cpp.Prelude.{
  ℕ, zero, suc, ◌+◌, ◌-◌, ◌≤◌, ◌<◌, ◌≡◌, refl, sym, ap, ◌∙◌, Bool, true, false, Option, none, some,
  List, [], ◌∷◌, arith, ltb, Bool-cases, inl, inr, inc, inc_lem, u64_mod, ◌==◌, length,
  if◌then◌else◌,
}
use hands_on_sqldb_in_cpp.Raft.Types.{NodeId, LogEntry, HardState, Result, ok, err}
use hands_on_sqldb_in_cpp.Raft.Env.{Env}
use hands_on_sqldb_in_cpp.Raft.Node.{
  Node, M, bind_result, recording, record_error, reset_election_deadline, has_quorum,
}
use hands_on_sqldb_in_cpp.Raft.Waiters
use hands_on_sqldb_in_cpp.Raft.Waiters.{
  complete_applied_proposal, fail_pending_proposals, fail_read_barriers, evaluate_read_barriers,
}
use hands_on_sqldb_in_cpp.Raft.Commit.{
  apply_entry, after_apply, apply_next, apply_loop, apply_committed, send_all, send_snapshot,
  send_entries, send_append_entries, heartbeats_to, send_heartbeats, commit_to, advance_commit,
  ensure_progress, read_entries, compact_at, maybe_compact_log, quorum_match_index, snapshot_frames,
  snapshot_range, included_term, term_at,
}
use hands_on_sqldb_in_cpp.Raft.Types.{InstallSnapshotRequest}

-- The term, the vote and the configuration are the same.
pub record SameVote {E : Env} (s t : Node E) : Type 0 where
  pub hard : t.hard_state ≡ s.hard_state
  pub config : t.config ≡ s.config

module _ {E : Env} where
  SameVote-refl : (s : Node E) → SameVote s s
  SameVote-refl s = record { hard = refl; config = refl }

  SameVote-trans : (s t u : Node E) → SameVote s t → SameVote t u → SameVote s u
  SameVote-trans s t u h k = record { hard = k.hard ∙ h.hard; config = k.config ∙ h.config }

  -- A chain keeps what both of its parts keep.
  bind-SameVote :
      {A B : Type 0} (s : Node E) (r : Result A × Node E) (f : A → M E B)
      → SameVote s r.1
      → ((a : A) → SameVote r.1 (f a r.1).1)
      → SameVote s (bind_result r f).1
  bind-SameVote s (ok a, t) f h k = SameVote-trans s t (f a t).1 h (k a)
  bind-SameVote s (err e, t) f h k = h

  if-SameVote :
      {A : Type 0} (s : Node E) (b : Bool) (x y : Result A × Node E)
      → SameVote s x.1
      → SameVote s y.1
      → SameVote s (if b then x else y).1
  if-SameVote s true x y h k = h
  if-SameVote s false x y h k = k

  pub recording-SameVote :
      (m : M E (Unit {0})) (s : Node E) → SameVote s (m s).1 → SameVote s (recording m s)
  unfolding recording
  recording-SameVote m s h = ground arith

  apply_next-SameVote : (s : Node E) → SameVote s (apply_next s).1
  unfolding apply_next apply_entry after_apply
  apply_next-SameVote s = ground arith

  apply_loop-SameVote : (fuel : ℕ) (s : Node E) → SameVote s (apply_loop fuel s).1
  unfolding apply_loop
  apply_loop-SameVote zero s = SameVote-refl s
  apply_loop-SameVote (suc fuel) s = ground (
    arith,
    bind-SameVote s (apply_next s) (λ u. apply_loop fuel) (apply_next-SameVote s)
        (λ u. apply_loop-SameVote fuel (apply_next s).1),
  )

  pub apply_committed-SameVote : (s : Node E) → SameVote s (apply_committed s).1
  unfolding apply_committed evaluate_read_barriers
  apply_committed-SameVote s =
      bind-SameVote s (apply_loop (s.commit_index - s.last_applied) s) _
        (apply_loop-SameVote (s.commit_index - s.last_applied) s)
        (λ u. record { hard = refl; config = refl })

  send_all-SameVote :
      (to : NodeId) (rs : List InstallSnapshotRequest) (s : Node E) → SameVote s (send_all to rs s)
  send_all-SameVote to [] s = SameVote-refl s
  send_all-SameVote to (r ∷ rs) s =
      SameVote-trans _ _ _ (record { hard = refl; config = refl }) (send_all-SameVote to rs _)

  send_snapshot-SameVote : (to : NodeId) (s : Node E) → SameVote s (send_snapshot to s).1
  unfolding send_snapshot
  send_snapshot-SameVote to s = if-SameVote s _ _ _ (SameVote-refl s) (
      bind-SameVote s (E.snapshot (snapshot_range s) s.machine, s) _ (SameVote-refl s)
        λ blob.
          bind-SameVote s (included_term s.last_applied s, s) _ (SameVote-refl s)
            λ term.
              SameVote-trans s _ _
                (send_all-SameVote to
                  (snapshot_frames blob (record {
                    term = s.hard_state.term;
                    leader_id = s.config.node_id;
                    last_included_index = s.last_applied;
                    last_included_term = term;
                    offset = 0;
                    is_done = true;
                    payload = [];
                  }))
                  s)
                (record { hard = refl; config = refl }))

  pub read_entries-same : (left index : ℕ) (s : Node E) → (read_entries left index s).1 ≡ s
  unfolding read_entries
  read_entries-same zero index s = refl
  read_entries-same (suc left) index s = ground (arith, read_entries-same left (inc index) s)

  send_entries-SameVote :
      (to : NodeId) (next : ℕ) (s : Node E) → SameVote s (send_entries to next s).1
  unfolding send_entries
  send_entries-SameVote to next s =
      bind-SameVote s (term_at (next - 1) s, s) _ (SameVote-refl s)
        λ term.
          bind-SameVote s (read_entries (s.last_log_index + 1 - next) next s) _
            (rw (read_entries-same (s.last_log_index + 1 - next) next s) (SameVote-refl s))
            (λ es. record { hard = refl; config = refl })

  pub send_append_entries-SameVote :
      (to : NodeId) (s : Node E) → SameVote s (send_append_entries to s).1
  unfolding send_append_entries
  send_append_entries-SameVote to s =
      SameVote-trans s (ensure_progress to s) _
        (unfold ensure_progress in record { hard = refl; config = refl })
        (if-SameVote (ensure_progress to s) _ _ _ (send_snapshot-SameVote to _)
          (send_entries-SameVote to _ _))

  heartbeats_to-SameVote : (peers : List NodeId) (s : Node E) → SameVote s (heartbeats_to peers s)
  unfolding heartbeats_to
  heartbeats_to-SameVote [] s = SameVote-refl s
  heartbeats_to-SameVote (peer ∷ peers) s = elim (Bool-cases (peer == s.config.node_id)) [
    | inl self ↦ rw self (heartbeats_to-SameVote peers s)
    | inr other ↦ rw other (
        SameVote-trans s (recording (send_append_entries peer) s) _
          (recording-SameVote (send_append_entries peer) s (send_append_entries-SameVote peer s))
          (heartbeats_to-SameVote peers _))
  ]

  pub send_heartbeats-SameVote : (s : Node E) → SameVote s (send_heartbeats s)
  unfolding send_heartbeats
  send_heartbeats-SameVote s =
      SameVote-trans s (record s { heartbeat_round = inc s.heartbeat_round }) _
        (record { hard = refl; config = refl }) (heartbeats_to-SameVote s.config.peers _)

  commit_to-SameVote : (n : ℕ) (e : LogEntry) (s : Node E) → SameVote s (commit_to n e s).1
  unfolding commit_to
  commit_to-SameVote n e s = if-SameVote s _ _ _ (SameVote-refl s) (
      bind-SameVote s (apply_committed (record s { commit_index = n })) _
        (SameVote-trans s (record s { commit_index = n }) _ (record { hard = refl; config = refl })
          (apply_committed-SameVote (record s { commit_index = n })))
        (λ u. more (apply_committed (record s { commit_index = n })).1))
    where
      more :
          (t : Node E) → SameVote t (if ltb 1 (length t.config.peers) then send_heartbeats t else t)
      more t = ground (arith, send_heartbeats-SameVote t, SameVote-refl t)

  pub advance_commit-SameVote : (s : Node E) → SameVote s (advance_commit s).1
  unfolding advance_commit
  advance_commit-SameVote s = if-SameVote s _ _ _ (SameVote-refl s) (
      bind-SameVote s (E.at (quorum_match_index s) s.store, s) _ (SameVote-refl s)
        (λ e. commit_to-SameVote (quorum_match_index s) e s))

  pub maybe_compact_log-SameVote : (s : Node E) → SameVote s (maybe_compact_log s).1
  unfolding maybe_compact_log compact_at
  maybe_compact_log-SameVote s =
      if-SameVote s _ _ _ (SameVote-refl s)
        (bind-SameVote s (E.at s.last_applied s.store, s) _ (SameVote-refl s) (λ e. ground arith))
