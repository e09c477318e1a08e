-- ===== src/Raft/Snapshot/Frames.antt =====
-- One frame of a snapshot under `handle_install_snapshot` of raft/raft_node.cpp.
use hands_on_sqldb_in_cpp.Prelude.{
  ◌≤◌, ◌<◌, ◌≡◌, refl, Bool, true, false, ◌==◌, Option, none, some, List, [], ◌∷◌, ◌++◌, arith,
  length,
}
use hands_on_sqldb_in_cpp.Prelude.Order.{Bytes}
use hands_on_sqldb_in_cpp.Raft.Types.{
  NodeId, ok, SnapshotMetadata, InstallSnapshotRequest, PendingSnapshot,
}
use hands_on_sqldb_in_cpp.Raft.Env.{Env}
use hands_on_sqldb_in_cpp.Raft.Node.{Node, M, bind_result, reset_election_deadline}
use hands_on_sqldb_in_cpp.Raft.Election.{is_follower}
use hands_on_sqldb_in_cpp.Raft.Replication.{follow}
use hands_on_sqldb_in_cpp.Raft.Commit.{snapshot_range}
use hands_on_sqldb_in_cpp.Raft.Snapshot.{
  continues, current_pending, max_pending_snapshot_bytes, handle_install_snapshot, take_chunk,
  add_chunk, install, after_install, on_machine,
}
use hands_on_sqldb_in_cpp.Raft.Snapshot.Chunks.{frame}

-- The frames of a snapshot, handled one after the other.
abbrev pub handle_all : {E : Env} → NodeId → List InstallSnapshotRequest → M E (Unit {0})
handle_all from [] s = (ok tt, s)
handle_all from (r ∷ rs) s =
    bind_result (handle_install_snapshot from r s) (λ u. handle_all from rs)

-- A follower in the term of the request, which has applied nothing behind the snapshot.
abbrev pub Takes : {E : Env} → InstallSnapshotRequest → Node E → Type 0
Takes request s =
    (s.hard_state.term ≡ request.term)
    × (is_follower s.role ≡ true)
    × (s.last_applied ≤ request.last_included_index)
    × (0 < request.last_included_index)
    × (0 < request.last_included_term)

-- The position of a snapshot.
abbrev pub position : InstallSnapshotRequest → SnapshotMetadata
position request = record {
  last_included_index = request.last_included_index;
  last_included_term = request.last_included_term;
}

module _ {E : Env} (from : NodeId) where
  -- The leader is noted, and the election put off.
  abbrev pub heard : InstallSnapshotRequest → Node E → Node E
  heard r s = reset_election_deadline (record s { leader_id = some r.leader_id })

  pub handle-chunk :
      (r : InstallSnapshotRequest) (p : PendingSnapshot) (s : Node E)
      → Takes r s
      → current_pending (r.offset == 0) r s.pending_snapshot ≡ p
      → continues p r ≡ true
      → handle_install_snapshot from r s ≡ add_chunk from r p (heard r s)
  unfolding handle_install_snapshot follow take_chunk reset_election_deadline
  handle-chunk r p s takes now more = ground (arith, takes, now, more)

  pub add_chunk-more :
      (r : InstallSnapshotRequest) (p : PendingSnapshot) (s : Node E)
      → length (p.buffer ++ r.payload) ≤ max_pending_snapshot_bytes
      → r.is_done ≡ false
      → add_chunk from r p s ≡ (
        ok tt,
        record s { pending_snapshot = some (record p { buffer = p.buffer ++ r.payload }) },
      )
  unfolding add_chunk
  add_chunk-more r p s small goes = ground (arith, small, goes)

  pub add_chunk-last :
      (r : InstallSnapshotRequest) (p : PendingSnapshot) (s : Node E)
      → length (p.buffer ++ r.payload) ≤ max_pending_snapshot_bytes
      → r.is_done ≡ true
      → let grown = record p { buffer = p.buffer ++ r.payload } in
        add_chunk from r p s ≡ install from grown (record s { pending_snapshot = some grown })
  unfolding add_chunk
  add_chunk-last r p s small done = ground (arith, small, done)

  pub install-installs :
      (p : PendingSnapshot) (s : Node E) (machine' : E.Machine) (store' : E.Store)
      → E.restore (snapshot_range s) p.buffer s.machine ≡ (ok tt, machine')
      → E.install_snapshot
          (record {
            last_included_index = p.last_included_index;
            last_included_term = p.last_included_term;
          })
          s.store
        ≡ (ok tt, store')
      → install from p s ≡ (
        ok tt,
        after_install from
            (record {
              last_included_index = p.last_included_index;
              last_included_term = p.last_included_term;
            })
            (record s { machine = machine'; store = store' }),
      )
  unfolding install on_machine
  install-installs p s machine' store' restored installed = rw (restored, installed) refl

module _ (request : InstallSnapshotRequest) where
  abbrev pub gathered : Bytes → PendingSnapshot
  gathered b = record {
    term = request.term;
    last_included_index = request.last_included_index;
    last_included_term = request.last_included_term;
    buffer = b;
  }

  pub gathered-continues :
      (b : Bytes) (done : Bool) (part : Bytes)
      → continues (gathered b) (frame request (length b) done part) ≡ true
  unfolding continues
  gathered-continues b done part = ground arith

  pub first_frame :
      (done : Bool) (part : Bytes) (o : Option PendingSnapshot)
      → current_pending true (frame request 0 done part) o ≡ gathered []
  unfolding current_pending
  first_frame done part none = refl
  first_frame done part (some p) = refl
