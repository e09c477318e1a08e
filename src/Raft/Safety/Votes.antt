-- ===== src/Raft/Safety/Votes.antt =====
-- A node's term never falls, and in one term it votes for one candidate only.
use hands_on_sqldb_in_cpp.Prelude.{
  ℕ, ◌+◌, ◌≤◌, ◌<◌, ◌≡◌, refl, ◌∙◌, Bool, true, false, Option, none, some, List, [], ◌∷◌, arith,
  ltb, inc, inc_lem, u64_mod, ◌==◌, if◌then◌else◌,
}
use hands_on_sqldb_in_cpp.Raft.Types.{
  NodeId, Result, ok, err, RequestVoteRequest, RequestVoteResponse, leader, candidate,
  request_vote_request,
}
use hands_on_sqldb_in_cpp.Raft.Env.{Env}
use hands_on_sqldb_in_cpp.Raft.Node.{
  Node, M, bind_result, recording, reset_election_deadline, has_quorum, on_store, send,
}
use hands_on_sqldb_in_cpp.Raft.Waiters.{fail_pending_proposals, fail_read_barriers}
use hands_on_sqldb_in_cpp.Raft.Commit.{send_heartbeats}
use hands_on_sqldb_in_cpp.Raft.Election.{
  save_hard_state, step_down, adopt_term, become_follower, note_appended, after_no_op,
  become_leader, request_votes, campaign, after_vote_saved, start_election, decide_vote, catch_up,
  handle_request_vote, handle_request_vote_response, initialize_leader_progress, last_log_term,
  insert_vote,
}
use hands_on_sqldb_in_cpp.Raft.Safety.{SameVote, send_heartbeats-SameVote, advance_commit-SameVote}

-- From `s` to `t` the term does not fall, and a vote given in the term stays as long as the term.
pub record Voted {E : Env} (s t : Node E) : Type 0 where
  pub term : s.hard_state.term ≤ t.hard_state.term
  pub vote :
      (c : NodeId)
      → s.hard_state.voted_for ≡ some c
      → t.hard_state.term ≡ s.hard_state.term
      → t.hard_state.voted_for ≡ some c

module _ {E : Env} where
  pub Voted-refl : (s : Node E) → Voted s s
  Voted-refl s = record { term = omega arith; vote = λ c v e. v }

  pub Voted-trans : (s t u : Node E) → Voted s t → Voted t u → Voted s u
  Voted-trans s t u h k = record {
    term = omega (arith, h.term, k.term);
    vote = λ c v e.
        let same : t.hard_state.term ≡ s.hard_state.term = omega (arith, h.term, k.term) in
        k.vote c (h.vote c v same) (omega arith);
  }

  pub SameVote→Voted : (s t : Node E) → SameVote s t → Voted s t
  SameVote→Voted s t h = record {
    term = ground (arith, h.hard);
    vote = λ c v e. ground (arith, h.hard);
  }

  pub bind-Voted :
      {A B : Type 0} (s : Node E) (r : Result A × Node E) (f : A → M E B)
      → Voted s r.1
      → ((a : A) → Voted r.1 (f a r.1).1)
      → Voted s (bind_result r f).1
  bind-Voted s (ok a, t) f h k = Voted-trans s t (f a t).1 h (k a)
  bind-Voted s (err e, t) f h k = h

  pub if-Voted :
      {A : Type 0} (s : Node E) (b : Bool) (x y : Result A × Node E)
      → Voted s x.1
      → Voted s y.1
      → Voted s (if b then x else y).1
  if-Voted s true x y h k = h
  if-Voted s false x y h k = k

  pub choose-Voted :
      (s : Node E) (b : Bool) (x y : Node E) → Voted s x → Voted s y → Voted s (if b then x else y)
  choose-Voted s true x y h k = h
  choose-Voted s false x y h k = k

  pub recording-Voted :
      (m : M E (Unit {0})) (s : Node E) → Voted s (m s).1 → Voted s (recording m s)
  unfolding recording
  recording-Voted m s h = ground arith

  -- Nodes with one hard state.
  pub like : (s t : Node E) → t.hard_state ≡ s.hard_state → Voted s t
  like s t e = record { term = ground arith; vote = λ c v f. ground arith }

  step_down-Voted : (l : Option NodeId) (s : Node E) → Voted s (step_down l s)
  step_down-Voted l s = like s (step_down l s) (
      unfold step_down fail_pending_proposals fail_read_barriers reset_election_deadline in
      ground arith)

  adopt_term-Voted : (n : ℕ) (s : Node E) → Voted s (adopt_term n s).1
  unfolding adopt_term save_hard_state
  adopt_term-Voted n s = record { term = ground arith; vote = λ c v e. ground arith }

  pub become_follower-Voted :
      (n : ℕ) (l : Option NodeId) (s : Node E) → Voted s (become_follower n l s).1
  unfolding become_follower
  become_follower-Voted n l s =
      bind-Voted s (adopt_term n s) _ (adopt_term-Voted n s)
        (λ u. step_down-Voted l (adopt_term n s).1)

  after_no_op-Voted : (n : ℕ) (r : Result (Unit {0}) × Node E) → Voted r.1 (after_no_op n r).1
  unfolding after_no_op
  after_no_op-Voted n (ok u, s) =
      Voted-trans s (send_heartbeats (note_appended n s)) _
        (Voted-trans s (note_appended n s) _ (like s _ (unfold note_appended in refl))
          (SameVote→Voted _ _ (send_heartbeats-SameVote (note_appended n s))))
        (SameVote→Voted _ _ (advance_commit-SameVote _))
  after_no_op-Voted n (err e, s) =
      bind-Voted s (become_follower s.hard_state.term none s) _
        (become_follower-Voted s.hard_state.term none s) (λ u. Voted-refl _)

  become_leader-Voted : (s : Node E) → Voted s (become_leader s).1
  unfolding become_leader initialize_leader_progress
  become_leader-Voted s =
      let t : Node E =
        initialize_leader_progress
          (record s { role = leader; leader_id = some s.config.node_id }) in
      let index = inc t.last_log_index in
      let r : Result (Unit {0}) × Node E =
        on_store (E.append (record { index = index; term = t.hard_state.term; payload = [] })) t in
      let led : Voted s (after_no_op index r).1 =
        Voted-trans s r.1 _ (like s r.1 refl) (after_no_op-Voted index r) in
      ground (arith, Voted-refl s, led)

  request_votes-hard :
      (q : RequestVoteRequest) (peers : List NodeId) (s : Node E)
      → (request_votes q peers s).hard_state ≡ s.hard_state
  unfolding request_votes
  request_votes-hard q [] s = refl
  request_votes-hard q (p ∷ ps) s =
      request_votes-hard q ps
        (if p == s.config.node_id then s else send p (request_vote_request q) s)
      ∙ ground arith

  campaign-Voted : (s : Node E) → Voted s (campaign s).1
  unfolding campaign reset_election_deadline
  campaign-Voted s =
      let t : Node E =
        reset_election_deadline (record s { votes_received = s.config.node_id ∷ [] }) in
      if-Voted s (has_quorum 1 t) (become_leader t) _
        (Voted-trans s t _ (like s t refl) (become_leader-Voted t))
        (bind-Voted s (last_log_term t, t) _ (like s t refl)
          λ term. like t _ (request_votes-hard _ t.config.peers t))

  -- The election moves to a new term, as long as the term does not wrap.
  pub start_election-Voted :
      (s : Node E) → s.hard_state.term + 1 < u64_mod → Voted s (start_election s).1
  unfolding start_election save_hard_state
  start_election-Voted s small =
      by_save
        (save_hard_state
          (record { term = inc s.hard_state.term; voted_for = some s.config.node_id })
          (record s { role = candidate; leader_id = none }))
        (record {
          term = ground (arith, inc_lem s.hard_state.term small);
          vote = λ c v e. ground (arith, inc_lem s.hard_state.term small);
        })
    where
      by_save :
          (r : Result (Unit {0}) × Node E) → Voted s r.1 → Voted s (after_vote_saved s.role r).1
      by_save (ok u, t) h = unfold after_vote_saved in Voted-trans s t _ h (campaign-Voted t)
      by_save (err e, t) h = unfold after_vote_saved in Voted-trans s t _ h (like t _ refl)

  decide_vote-Voted :
      (from : NodeId) (q : RequestVoteRequest) (n : ℕ) (s : Node E)
      → Voted s (decide_vote from q n s).1
  unfolding decide_vote save_hard_state reset_election_deadline
  decide_vote-Voted from q n s = record { term = ground arith; vote = λ c v e. ground arith }

  catch_up-Voted : (n : ℕ) (s : Node E) → Voted s (catch_up n s).1
  unfolding catch_up
  catch_up-Voted n s =
      if-Voted s (ltb s.hard_state.term n) (become_follower n none s) (ok tt, s)
        (become_follower-Voted n none s) (Voted-refl s)

  pub handle_request_vote-Voted :
      (from : NodeId) (q : RequestVoteRequest) (s : Node E)
      → Voted s (handle_request_vote from q s).1
  unfolding handle_request_vote
  handle_request_vote-Voted from q s =
      if-Voted s (ltb q.term s.hard_state.term) _ _ (like s _ refl) (
        bind-Voted s (catch_up q.term s) _ (catch_up-Voted q.term s) λ u.
          bind-Voted (catch_up q.term s).1
            (last_log_term (catch_up q.term s).1, (catch_up q.term s).1) _ (Voted-refl _)
            (λ n. decide_vote-Voted from q n (catch_up q.term s).1))

  pub handle_request_vote_response-Voted :
      (from : NodeId) (q : RequestVoteResponse) (s : Node E)
      → Voted s (handle_request_vote_response from q s)
  unfolding handle_request_vote_response
  handle_request_vote_response-Voted from q s =
      let t : Node E = record s { votes_received = insert_vote from s.votes_received } in
      ground (
        arith,
        Voted-refl s,
        like s t refl,
        recording-Voted (become_follower q.term none) s (become_follower-Voted q.term none s),
        Voted-trans s t (recording become_leader t) (like s t refl)
            (recording-Voted become_leader t (become_leader-Voted t)),
      )
