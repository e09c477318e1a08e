-- ===== src/Raft/Election.antt =====
-- raft/raft_node.cpp: elections and the changes of role.
pub mod StepDown
use hands_on_sqldb_in_cpp.Prelude.{
  ℕ, Bool, true, false, not, ◌&&◌, ◌||◌, ◌==◌, Option, none, some, List, [], ◌∷◌, ltb, leb, length,
  if◌then◌else◌, inc,
}
use hands_on_sqldb_in_cpp.Prelude.Order.{nat_order, bytes_order}
use hands_on_sqldb_in_cpp.Prelude.Maps.{Map, assign}
use hands_on_sqldb_in_cpp.Raft.Types.{
  NodeId, Role, follower, candidate, leader, HardState, Error, Result, ok, err, not_leader,
  RequestVoteRequest, RequestVoteResponse, request_vote_request, request_vote_response,
  invalid_index,
}
use hands_on_sqldb_in_cpp.Raft.Env.{Env}
use hands_on_sqldb_in_cpp.Raft.Node.{
  Node, M, bind_result, fail, modify, on_store, send, recording, has_quorum,
  reset_election_deadline,
}
use hands_on_sqldb_in_cpp.Raft.Waiters.{fail_pending_proposals, fail_read_barriers}
use hands_on_sqldb_in_cpp.Raft.Commit.{is_candidate, send_heartbeats, advance_commit}

unfoldable pub log_is_up_to_date : ℕ → ℕ → ℕ → ℕ → Bool
log_is_up_to_date last_log_index last_log_term candidate_index candidate_term =
    if not (candidate_term == last_log_term)
    then ltb last_log_term candidate_term
    else leb last_log_index candidate_index

-- `votes_received_.insert(from)` of a std::set.
unfoldable pub insert_vote : NodeId → List NodeId → List NodeId
insert_vote from [] = from ∷ []
insert_vote from (v ∷ vs) = let rest = insert_vote from vs in if v == from then v ∷ vs else v ∷ rest

unfoldable pub leader_progress : NodeId → ℕ → List NodeId → Map NodeId ℕ
leader_progress self last [] = []
leader_progress self last (peer ∷ peers) =
    assign peer (if peer == self then last else 0) (leader_progress self last peers)

unfoldable pub next_progress : ℕ → List NodeId → Map NodeId ℕ
next_progress last [] = []
next_progress last (peer ∷ peers) = assign peer (inc last) (next_progress last peers)

abbrev pub lost_leadership : Error
lost_leadership = record { code = not_leader; message = "leadership was lost before commit" }

abbrev pub lost_barrier : Error
lost_barrier = record {
  code = not_leader;
  message = "leadership was lost before the read barrier completed";
}

abbrev pub is_leader : Role → Bool
is_leader r = elim r [ leader ↦ true | _ ↦ false ]

abbrev pub is_follower : Role → Bool
is_follower r = elim r [ follower ↦ true | _ ↦ false ]

abbrev pub may_vote : Option NodeId → NodeId → Bool
may_vote none c = true
may_vote (some v) c = v == c

module _ {E : Env} where
  unfoldable pub last_log_term : Node E → Result ℕ
  last_log_term s =
      if s.last_log_index == invalid_index
      then ok 0
      else elim (E.at s.last_log_index s.store) [ ok entry ↦ ok entry.term | err e ↦ err e ]

  unfoldable pub initialize_leader_progress : Node E → Node E
  unfolding leader_progress next_progress
  initialize_leader_progress s = record s {
    next_index = next_progress s.last_log_index s.config.peers;
    match_index = leader_progress s.config.node_id s.last_log_index s.config.peers;
    peer_acked_round = [];
    heartbeat_round = 0;
  }

  -- A new hard state is saved first; it is the node's only if the save goes through.
  unfoldable pub save_hard_state : HardState → M E (Unit {0})
  save_hard_state hard s =
      let (r, store') = E.save_hard_state hard s.store in
      elim r [
        | ok u ↦ (ok tt, record s { store = store'; hard_state = hard })
        | err e ↦ (err e, record s { store = store' })
      ]

  -- `become_follower` once the term is in place.
  unfoldable pub step_down : Option NodeId → Node E → Node E
  unfolding fail_pending_proposals fail_read_barriers reset_election_deadline
  step_down leader_id s =
      let t = record s { role = follower } in
      let u =
        if is_leader s.role
        then fail_read_barriers lost_barrier (fail_pending_proposals none lost_leadership t)
        else t in
      reset_election_deadline
        (record u { leader_id = leader_id; votes_received = []; pending_snapshot = none })

  unfoldable pub adopt_term : ℕ → M E (Unit {0})
  unfolding save_hard_state
  adopt_term term s =
      if ltb s.hard_state.term term
      then save_hard_state (record { term = term; voted_for = none }) s
      else (ok tt, s)

  unfoldable pub become_follower : ℕ → Option NodeId → M E (Unit {0})
  unfolding adopt_term step_down
  become_follower term leader_id s =
      bind_result (adopt_term term s) (λ u. modify (step_down leader_id))

  -- A log entry that the leader appends: its own progress moves with it.
  unfoldable pub note_appended : ℕ → Node E → Node E
  note_appended index s = record s {
    last_log_index = index;
    match_index = assign s.config.node_id index s.match_index;
    next_index = assign s.config.node_id (inc index) s.next_index;
  }

  -- `become_leader` after the append of the no-op entry.
  unfoldable pub after_no_op : ℕ → Result (Unit {0}) × Node E → Result (Unit {0}) × Node E
  unfolding note_appended send_heartbeats advance_commit become_follower
  after_no_op index (ok u, s) = advance_commit (send_heartbeats (note_appended index s))
  after_no_op index (err e, s) =
      bind_result (become_follower s.hard_state.term none s) (λ u. fail e)

  unfoldable pub become_leader : M E (Unit {0})
  unfolding after_no_op initialize_leader_progress
  become_leader s =
      if not (is_candidate s.role)
      then (ok tt, s)
      else let t =
          initialize_leader_progress
            (record s { role = leader; leader_id = some s.config.node_id }) in
        let index = inc t.last_log_index in
        after_no_op index
          (on_store (E.append (record { index = index; term = t.hard_state.term; payload = [] })) t)

  unfoldable pub request_votes : RequestVoteRequest → List NodeId → Node E → Node E
  request_votes request [] s = s
  request_votes request (peer ∷ peers) s =
      request_votes request peers
        (if peer == s.config.node_id then s else send peer (request_vote_request request) s)

  -- `start_election` once the new term is saved.
  unfoldable pub campaign : M E (Unit {0})
  unfolding reset_election_deadline has_quorum become_leader last_log_term request_votes
  campaign s =
      let t = reset_election_deadline (record s { votes_received = s.config.node_id ∷ [] }) in
      if has_quorum 1 t
      then become_leader t
      else bind_result (last_log_term t, t)
          λ term u. (
            ok tt,
            request_votes
                (record {
                  term = u.hard_state.term;
                  candidate_id = u.config.node_id;
                  last_log_index = u.last_log_index;
                  last_log_term = term;
                })
                u.config.peers u,
          )

  -- If the save fails the role and the hard state are put back, but not the leader's id.
  unfoldable pub after_vote_saved : Role → Result (Unit {0}) × Node E → Result (Unit {0}) × Node E
  unfolding campaign
  after_vote_saved old_role (ok u, s) = campaign s
  after_vote_saved old_role (err e, s) = (err e, record s { role = old_role })

  unfoldable pub start_election : M E (Unit {0})
  unfolding after_vote_saved save_hard_state
  start_election s = after_vote_saved s.role (
      save_hard_state (record { term = inc s.hard_state.term; voted_for = some s.config.node_id })
        (record s { role = candidate; leader_id = none }))

  abbrev pub vote_reply : NodeId → Bool → Node E → Node E
  vote_reply from granted s =
      send from
        (request_vote_response (record { term = s.hard_state.term; vote_granted = granted })) s

  -- `handle_request_vote` once the term of the node is at least the request's.
  unfoldable pub decide_vote : NodeId → RequestVoteRequest → ℕ → M E (Unit {0})
  unfolding save_hard_state reset_election_deadline log_is_up_to_date
  decide_vote from request last_term s =
      if may_vote s.hard_state.voted_for request.candidate_id
        && log_is_up_to_date s.last_log_index last_term request.last_log_index request.last_log_term
      then bind_result
          (save_hard_state
            (record { term = s.hard_state.term; voted_for = some request.candidate_id }) s)
          (λ u t. (ok tt, vote_reply from true (reset_election_deadline t)))
      else (ok tt, vote_reply from false s)

  -- The step down that a newer term forces.
  unfoldable pub catch_up : ℕ → M E (Unit {0})
  unfolding become_follower
  catch_up term s = if ltb s.hard_state.term term then become_follower term none s else (ok tt, s)

  unfoldable pub handle_request_vote : NodeId → RequestVoteRequest → M E (Unit {0})
  unfolding catch_up decide_vote last_log_term
  handle_request_vote from request s =
      if ltb request.term s.hard_state.term
      then (ok tt, vote_reply from false s)
      else bind_result (catch_up request.term s)
          λ u t. bind_result (last_log_term t, t) (decide_vote from request)

  unfoldable pub handle_request_vote_response : NodeId → RequestVoteResponse → Node E → Node E
  unfolding become_follower recording insert_vote has_quorum become_leader
  handle_request_vote_response from response s =
      if ltb s.hard_state.term response.term
      then recording (become_follower response.term none) s
      else if not (is_candidate s.role)
          || not (response.term == s.hard_state.term)
          || not response.vote_granted
      then s
      else let t = record s { votes_received = insert_vote from s.votes_received } in
        if has_quorum (length t.votes_received) t then recording become_leader t else t
