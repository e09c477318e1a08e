-- ===== src/Raft/Snapshot/Assembled.antt =====
-- The frames of a snapshot, put together and installed by `handle_install_snapshot` of
-- raft/raft_node.cpp.
use mathlib.Core.List.{append_assoc}
use hands_on_sqldb_in_cpp.Prelude.{
  ℕ, zero, suc, ◌+◌, ◌≤◌, ◌<◌, ◌≡◌, refl, sym, ap, subst, ◌∙◌, Bool, true, false, ◌==◌, none, some,
  [], ◌∷◌, ◌++◌, arith, length, take, drop, length-append, length-take, length-drop,
  take-append-drop, Bool-cases, inl, inr, ==_iff,
}
use hands_on_sqldb_in_cpp.Prelude.Order.{Bytes}
use hands_on_sqldb_in_cpp.Raft.Types.{NodeId, Result, ok, err, InstallSnapshotRequest}
use hands_on_sqldb_in_cpp.Raft.Env.{Env}
use hands_on_sqldb_in_cpp.Raft.Waiters.{complete_applied_proposals_upto, evaluate_read_barriers}
use hands_on_sqldb_in_cpp.Raft.Node.{Node, bind_result, reset_election_deadline}
use hands_on_sqldb_in_cpp.Raft.Commit.{snapshot_range, chunks, snapshot_frames}
use hands_on_sqldb_in_cpp.Raft.Snapshot.{
  current_pending, max_pending_snapshot_bytes, handle_install_snapshot, install, after_install,
  snapshot_reply,
}
use hands_on_sqldb_in_cpp.Raft.Snapshot.Chunks.{
  drop-add, take-all, size_at, size_at-le, frame, chunks-step, chunks-over, snapshot_frames-chunks,
}
use hands_on_sqldb_in_cpp.Raft.Snapshot.Frames.{
  handle_all, Takes, position, heard, handle-chunk, add_chunk-more, add_chunk-last,
  install-installs, gathered, gathered-continues, first_frame,
}

module _ {E : Env} (from : NodeId) (blob : Bytes) (request : InstallSnapshotRequest)
    (machine' : E.Machine) (store' : E.Store) where
  -- The state machine and the log store accept the snapshot.
  abbrev pub Accepted : Node E → Type 0
  Accepted s =
      (E.restore (snapshot_range s) blob s.machine ≡ (ok tt, machine'))
      × (E.install_snapshot (position request) s.store ≡ (ok tt, store'))

  -- The node stands on the snapshot, with nothing of it left to come.
  abbrev pub Installed : Result (Unit {0}) × Node E → Type 0
  Installed x =
      (x.0 ≡ ok tt)
      × (x.1.machine ≡ machine')
      × (x.1.store ≡ store')
      × (x.1.pending_snapshot ≡ none)
      × (x.1.last_included_index ≡ request.last_included_index)
      × (x.1.last_included_term ≡ request.last_included_term)
      × (x.1.last_applied ≡ request.last_included_index)

  install-Installed :
      (s : Node E)
      → s.last_applied ≤ request.last_included_index
      → Accepted s
      → Installed (install from (gathered request blob) s)
  unfolding after_install complete_applied_proposals_upto evaluate_read_barriers snapshot_reply
  install-Installed s behind (restored, installed) =
      rw (install-installs from (gathered request blob) s machine' store' restored installed)
        (refl, refl, refl, refl, refl, refl, omega (arith, behind))

  last_frame-Installed :
      (b part : Bytes) (s : Node E)
      → Takes request s
      → current_pending (length b == 0) (frame request (length b) true part) s.pending_snapshot
        ≡ gathered request b
      → b ++ part ≡ blob
      → length blob ≤ max_pending_snapshot_bytes
      → Accepted s
      → Installed (handle_install_snapshot from (frame request (length b) true part) s)
  unfolding reset_election_deadline snapshot_range
  last_frame-Installed b part s takes now whole small accepted =
      let r = frame request (length b) true part in
      let h =
        handle-chunk from r (gathered request b) s takes now
          (gathered-continues request b true part) in
      let fits : length (b ++ part) ≤ max_pending_snapshot_bytes = rw whole small in
      let a = add_chunk-last from r (gathered request b) (heard from r s) fits refl in
      let named =
        ap
          (λ (x : Bytes).
            install from (gathered request x)
              (record (heard from r s) { pending_snapshot = some (gathered request x) }))
          whole in
      subst Installed (sym (h ∙ (a ∙ named))) (
        install-Installed
          (record (heard from r s) { pending_snapshot = some (gathered request blob) }) takes.2
          accepted)

  -- A follower that goes on taking chunks, with those that it has taken.
  abbrev Gathering : Bytes → Node E → Type 0
  Gathering b s =
      Takes request s
      × Accepted s
      × ((done : Bool) (part : Bytes)
          → current_pending (length b == 0) (frame request (length b) done part) s.pending_snapshot
            ≡ gathered request b)

  next_frame-Gathering :
      (b part : Bytes) (s : Node E)
      → Gathering b s
      → 0 < length part
      → length (b ++ part) ≤ max_pending_snapshot_bytes
      → (t : Node E) × (handle_install_snapshot from (frame request (length b) false part) s
          ≡ (ok tt, t))
        × Gathering (b ++ part) t
  unfolding reset_election_deadline snapshot_range current_pending
  next_frame-Gathering b part s (takes, accepted, now) some_part small =
      let r = frame request (length b) false part in
      let later : (length (b ++ part) == 0) ≡ false =
        ground (arith, length-append b part, some_part) in
      (
        record (heard from r s) { pending_snapshot = some (gathered request (b ++ part)) },
        handle-chunk from r (gathered request b) s takes (now false part)
              (gathered-continues request b false part)
            ∙ add_chunk-more from r (gathered request b) (heard from r s) small refl,
        (takes, accepted, λ done next. rw later refl),
      )

  single-Installed :
      (x : Result (Unit {0}) × Node E)
      → Installed x
      → Installed (bind_result x (λ u. handle_all from []))
  single-Installed (ok u, s) i = i
  single-Installed (err e, s) i = absurd (ground (arith, i.0))

  chunks-Installed :
      (fuel : ℕ) (b : Bytes) (s : Node E)
      → Gathering b s
      → b ++ drop (length b) blob ≡ blob
      → length b < length blob
      → length blob ≤ length b + fuel
      → length blob ≤ max_pending_snapshot_bytes
      → Installed (handle_all from (chunks fuel (length b) blob request) s)
  chunks-Installed zero b s g whole more enough small = absurd (omega arith)
  chunks-Installed (suc fuel) b s g whole more enough small =
      let n = length b in
      let size = size_at blob n in
      let part = take size (drop n blob) in
      let bounds = size_at-le blob n more in
      let part_length : length part ≡ size =
        omega (arith, length-take size (drop n blob), length-drop n blob) in
      elim (Bool-cases (n + size == length blob)) [
        | inl last ↦
            let ends : n + size ≡ length blob = (==_iff (n + size) (length blob)).0 last in
            let all_left : part ≡ drop n blob =
              take-all size (drop n blob) (omega (arith, length-drop n blob, ends)) in
            let filled : b ++ part ≡ blob = ap (λ (x : Bytes). b ++ x) all_left ∙ whole in
            let none_left : chunks fuel (n + size) blob request ≡ [] =
              chunks-over blob request fuel (n + size) (omega (arith, ends)) in
            rw (chunks-step blob request fuel n more, last, none_left)
              (single-Installed _
                (last_frame-Installed b part s g.0 (g.2 true part) filled small g.1))
        | inr on ↦
            let grown : length (b ++ part) ≡ n + size =
              length-append b part ∙ ap (λ (x : ℕ). n + x) part_length in
            let onward : n + size < length blob = ground (arith, on, bounds) in
            let joined : (b ++ part) ++ drop (n + size) blob ≡ blob =
              append_assoc b part (drop (n + size) blob)
              ∙ (ap (λ (l : Bytes). b ++ (part ++ l)) (drop-add n size blob)
                  ∙ (ap (λ (l : Bytes). b ++ l) (take-append-drop size (drop n blob)) ∙ whole)) in
            let (t, handled, gathering) =
              next_frame-Gathering b part s g (omega (arith, part_length, bounds))
                (omega (arith, grown, onward, small)) in
            let rest =
              chunks-Installed fuel (b ++ part) t gathering
                (ap (λ (x : ℕ). (b ++ part) ++ drop x blob) grown ∙ joined)
                (omega (arith, grown, onward)) (omega (arith, grown, bounds, enough)) small in
            rw (chunks-step blob request fuel n more, on, handled)
              (subst (λ (x : ℕ). Installed (handle_all from (chunks fuel x blob request) t)) grown
                rest)
      ]

  -- A follower in the term of the request, which has applied nothing behind the snapshot, handles the
  -- frames that a leader sends for it, one after the other. Neither the index nor the term of the
  -- snapshot is zero, it has at most the 1 GiB that a follower keeps, the state machine restores just
  -- this snapshot, and the log store takes its position. Then no frame fails, and at the end the
  -- follower has the restored state machine and the new log, its snapshot and its last applied index
  -- are at that position, and it waits for no more frames, whatever it had gathered of another
  -- snapshot before.
  pub handle_all-snapshot_frames :
      (s : Node E)
      → Takes request s
      → Accepted s
      → length blob ≤ max_pending_snapshot_bytes
      → Installed (handle_all from (snapshot_frames blob request) s)
  handle_all-snapshot_frames s takes accepted small = by_blob blob refl
    where
      by_blob : (x : Bytes) → blob ≡ x → Installed (handle_all from (snapshot_frames x request) s)
      by_blob [] e =
          unfold snapshot_frames in
          single-Installed _ (
            last_frame-Installed [] [] s takes (first_frame request true [] s.pending_snapshot)
              (sym e) small accepted)
      by_blob (c ∷ cs) e =
          let some_left : 0 < length blob = rw e (omega arith) in
          rw (← e) (
            rw (snapshot_frames-chunks blob request some_left) (
              chunks-Installed (length blob) [] s
                (takes, accepted, λ done part. first_frame request done part s.pending_snapshot)
                refl some_left (omega arith) small))
