-- ===== src/Raft/Election/StepDown.antt =====
-- What becomes of those who wait on a leader when it steps down: `become_follower`,
-- `fail_pending_proposals` and `fail_read_barriers` of raft/raft_node.cpp.
use hands_on_sqldb_in_cpp.Prelude.{
  ℕ, ◌≡◌, refl, ap, ◌∙◌, Bool, true, false, ◌||◌, ◌==◌, Option, none, some, List, [], ◌∷◌, arith,
  not,
}
use hands_on_sqldb_in_cpp.Prelude.Order.{nat_order, eqb_refl}
use hands_on_sqldb_in_cpp.Prelude.Maps.{Map, find, keep_keys, find-assign}
use hands_on_sqldb_in_cpp.Raft.Types.{NodeId, leader, follower, Error, Result, ok, err, Finished}
use hands_on_sqldb_in_cpp.Raft.Env.{Env}
use hands_on_sqldb_in_cpp.Raft.Node.{Node, bind_result, modify, reset_election_deadline}
use hands_on_sqldb_in_cpp.Raft.Waiters.{
  failed, finish_in, finish_all, values_where, barrier_ids, fail_pending_proposals,
  fail_read_barriers,
}
use hands_on_sqldb_in_cpp.Raft.Election.{
  lost_barrier, lost_leadership, adopt_term, save_hard_state, step_down, become_follower,
}

abbrev pub is_some {ℓ} : {A : Type ℓ} → Option A → Bool
is_some none = false
is_some (some a) = true

abbrev elem : ℕ → List ℕ → Bool
elem x [] = false
elem x (y ∷ ys) = x == y || elem x ys

finish_in-keeps :
    (id j : ℕ) (f : Finished) (m : Map ℕ Finished)
    → is_some (find j m) ≡ true
    → is_some (find j (finish_in id f m)) ≡ true
unfolding finish_in
finish_in-keeps id j f m h = ground (arith, find-assign id j f m)

finish_in-here :
    (id : ℕ) (f : Finished) (m : Map ℕ Finished) → is_some (find id (finish_in id f m)) ≡ true
unfolding finish_in
finish_in-here id f m = ground (arith, find-assign id id f m, eqb_refl id)

finish_all-keeps :
    (ids : List ℕ) (j : ℕ) (f : Finished) (m : Map ℕ Finished)
    → is_some (find j m) ≡ true
    → is_some (find j (finish_all ids f m)) ≡ true
unfolding finish_all
finish_all-keeps [] j f m h = h
finish_all-keeps (id ∷ ids) j f m h =
    finish_all-keeps ids j f (finish_in id f m) (finish_in-keeps id j f m h)

finish_all-elem :
    (ids : List ℕ) (j : ℕ) (f : Finished) (m : Map ℕ Finished)
    → elem j ids ≡ true
    → is_some (find j (finish_all ids f m)) ≡ true
unfolding finish_all
finish_all-elem [] j f m h = cc
finish_all-elem (id ∷ ids) j f m h = ground (
  arith,
  finish_all-elem ids j f (finish_in id f m),
  finish_all-keeps ids id f (finish_in id f m) (finish_in-here id f m),
)

values_where-elem :
    (m : Map ℕ ℕ) (k id : ℕ) → find k m ≡ some id → elem id (values_where (λ i. true) m) ≡ true
unfolding find values_where
values_where-elem [] k id h = cc
values_where-elem ((i, v) ∷ m) k id h = ground (arith, values_where-elem m k id)

keep_none : (m : Map ℕ ℕ) → keep_keys (λ i. not true) m ≡ []
unfolding keep_keys
keep_none [] = refl
keep_none ((i, v) ∷ m) = keep_none m

module _ {E : Env} where
  -- Nobody waits any more, and each completion that was waited on is finished.
  pub record IsReleased (s t : Node E) : Type 0 where
    pub proposals : t.pending_proposals ≡ []
    pub barriers : t.pending_read_barriers ≡ []
    pub proposed :
        (k id : ℕ) → find k s.pending_proposals ≡ some id → is_some (find id t.completions) ≡ true
    pub read :
        (id : ℕ)
        → elem id (barrier_ids s.pending_read_barriers) ≡ true
        → is_some (find id t.completions) ≡ true

  fails-IsReleased :
      (e e' : Error) (s : Node E)
      → IsReleased s (fail_read_barriers e (fail_pending_proposals none e' s))
  unfolding fail_pending_proposals fail_read_barriers
  fails-IsReleased e e' s =
      let ids = values_where (λ i. true) s.pending_proposals in
      let kept = finish_all ids (failed e') s.completions in
      let read_ids = barrier_ids s.pending_read_barriers in
      record {
        proposals = keep_none s.pending_proposals;
        barriers = refl;
        proposed = λ k id h. finish_all-keeps read_ids id (failed e) kept (
            finish_all-elem ids id (failed e') s.completions
              (values_where-elem s.pending_proposals k id h));
        read = λ id h. finish_all-elem read_ids id (failed e) kept h;
      }

  step_down-IsReleased :
      (l : Option NodeId) (s : Node E) → s.role ≡ leader → IsReleased s (step_down l s)
  unfolding step_down reset_election_deadline
  step_down-IsReleased l s lead =
      let t : Node E = record s { role = follower } in
      let h : IsReleased t
          (fail_read_barriers lost_barrier (fail_pending_proposals none lost_leadership t)) =
        fails-IsReleased lost_barrier lost_leadership t in
      rw lead (record {
        proposals = h.proposals;
        barriers = h.barriers;
        proposed = h.proposed;
        read = h.read;
      })

  adopt_term-waiters :
      (n : ℕ) (s : Node E)
      → ((adopt_term n s).1.role ≡ s.role)
        × ((adopt_term n s).1.pending_proposals ≡ s.pending_proposals)
        × ((adopt_term n s).1.pending_read_barriers ≡ s.pending_read_barriers)
  unfolding adopt_term save_hard_state
  adopt_term-waiters n s = ground arith

  follows :
      (l : Option NodeId) (s : Node E) (r : Result (Unit {0}) × Node E)
      → (r.1.role ≡ s.role)
        × (r.1.pending_proposals ≡ s.pending_proposals)
        × (r.1.pending_read_barriers ≡ s.pending_read_barriers)
      → s.role ≡ leader
      → (bind_result r (λ u. modify (step_down l))).0 ≡ ok tt
      → IsReleased s (bind_result r (λ u. modify (step_down l))).1
  follows l s (ok u, t) (role, proposals, barriers) lead h =
      let released : IsReleased t (step_down l t) = step_down-IsReleased l t (role ∙ lead) in
      record {
        proposals = released.proposals;
        barriers = released.barriers;
        proposed = λ k id e. released.proposed k id (ap (find k) proposals ∙ e);
        read = λ id e. released.read id (ap (λ b. elem id (barrier_ids b)) barriers ∙ e);
      }
  follows l s (err e, t) same lead h = cc

  -- When a leader becomes a follower, whatever the term and the new leader, no proposal and no read
  -- barrier is left waiting, and each completion that was waited on is finished.
  pub become_follower-IsReleased :
      (n : ℕ) (l : Option NodeId) (s : Node E)
      → s.role ≡ leader
      → (become_follower n l s).0 ≡ ok tt
      → IsReleased s (become_follower n l s).1
  unfolding become_follower
  become_follower-IsReleased n l s lead h =
      follows l s (adopt_term n s) (adopt_term-waiters n s) lead h
