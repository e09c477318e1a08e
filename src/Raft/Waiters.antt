-- ===== src/Raft/Waiters.antt =====
-- raft/raft_node.cpp: the proposals and read barriers that wait, and how they complete or fail.
use hands_on_sqldb_in_cpp.Prelude.{
  ℕ, suc, Bool, true, false, not, ◌&&◌, ◌==◌, Option, none, some, List, [], ◌∷◌, leb, if◌then◌else◌,
}
use hands_on_sqldb_in_cpp.Prelude.Order.{Bytes, nat_order}
use hands_on_sqldb_in_cpp.Prelude.Maps.{Map, find, assign, keep_keys}
use hands_on_sqldb_in_cpp.Raft.Types.{NodeId, Error, Finished, PendingReadBarrier}
use hands_on_sqldb_in_cpp.Raft.Env.{Env}
use hands_on_sqldb_in_cpp.Raft.Node.{Node, has_quorum}

abbrev pub applied_text : Bytes
applied_text = b'a' ∷ b'p' ∷ b'p' ∷ b'l' ∷ b'i' ∷ b'e' ∷ b'd' ∷ []

-- `Completion::finish`: only the first call has an effect.
unfoldable pub finish_in : ℕ → Finished → Map ℕ Finished → Map ℕ Finished
finish_in id f m = elim (find id m) [ some g ↦ m | none ↦ assign id f m ]

-- `finish` on each completion of a list.
unfoldable pub finish_all : List ℕ → Finished → Map ℕ Finished → Map ℕ Finished
unfolding finish_in
finish_all [] f m = m
finish_all (id ∷ ids) f m = finish_all ids f (finish_in id f m)

-- The values of a map whose keys pass a test, in key order.
unfoldable pub values_where : (ℕ → Bool) → Map ℕ ℕ → List ℕ
values_where p [] = []
values_where p ((k, v) ∷ m) = let rest = values_where p m in if p k then v ∷ rest else rest

abbrev pub from_index_test : Option ℕ → ℕ → Bool
from_index_test none k = true
from_index_test (some from) k = leb from k

abbrev pub failed : Error → Finished
failed e = record { failure = some e; result = [] }

abbrev pub finished : Bytes → Finished
finished r = record { failure = none; result = r }

unfoldable pub barrier_ids : List PendingReadBarrier → List ℕ
barrier_ids [] = []
barrier_ids (b ∷ bs) = b.completion ∷ barrier_ids bs

-- One round of the loop of `quorum_acknowledged`.
unfoldable pub acked_by : ℕ → ℕ → Map NodeId ℕ → NodeId → Bool
acked_by round self acked peer =
    not (peer == self) && elim (find peer acked) [ none ↦ false | some r ↦ leb round r ]

unfoldable pub count_acked : ℕ → ℕ → Map NodeId ℕ → List NodeId → ℕ
unfolding acked_by
count_acked round self acked [] = 0
count_acked round self acked (peer ∷ peers) =
    let rest = count_acked round self acked peers in
    if acked_by round self acked peer then suc rest else rest

module _ {E : Env} where
  unfoldable pub finish : ℕ → Finished → Node E → Node E
  unfolding finish_in
  finish id f s = record s { completions = finish_in id f s.completions }

  -- std::make_shared<Completion>() takes the next number.
  abbrev pub make_completion : Node E → Node E
  make_completion s = record s { next_completion = suc s.next_completion }

  unfoldable pub complete_applied_proposal : ℕ → Bytes → Node E → Node E
  unfolding finish
  complete_applied_proposal index apply_result s = elim (find index s.pending_proposals) [
    | none ↦ s
    | some id ↦
        finish id (finished apply_result)
          (record s { pending_proposals = keep_keys (λ k. not (k == index)) s.pending_proposals })
  ]

  unfoldable pub complete_applied_proposals_upto : ℕ → Node E → Node E
  unfolding finish_all values_where
  complete_applied_proposals_upto index s = record s {
    pending_proposals = keep_keys (λ k. not (leb k index)) s.pending_proposals;
    completions =
        finish_all (values_where (λ k. leb k index) s.pending_proposals) (finished applied_text)
          s.completions;
  }

  unfoldable pub fail_pending_proposals : Option ℕ → Error → Node E → Node E
  unfolding finish_all values_where
  fail_pending_proposals from_index error s = record s {
    pending_proposals = keep_keys (λ k. not (from_index_test from_index k)) s.pending_proposals;
    completions =
        finish_all (values_where (from_index_test from_index) s.pending_proposals) (failed error)
          s.completions;
  }

  unfoldable pub fail_read_barriers : Error → Node E → Node E
  unfolding finish_all barrier_ids
  fail_read_barriers error s = record s {
    pending_read_barriers = [];
    completions = finish_all (barrier_ids s.pending_read_barriers) (failed error) s.completions;
  }

  -- The leader counts itself.
  unfoldable pub quorum_acknowledged : ℕ → Node E → Bool
  unfolding count_acked has_quorum
  quorum_acknowledged round s =
      has_quorum (suc (count_acked round s.config.node_id s.peer_acked_round s.config.peers)) s

  unfoldable pub barrier_ready : Node E → PendingReadBarrier → Bool
  unfolding quorum_acknowledged
  barrier_ready s b = quorum_acknowledged b.round s && leb b.target_index s.last_applied

  -- The loop of `evaluate_read_barriers`: the barriers that stay, and the completions to finish.
  unfoldable pub waiting_barriers : Node E → List PendingReadBarrier → List PendingReadBarrier
  waiting_barriers s [] = []
  waiting_barriers s (b ∷ bs) =
      let rest = waiting_barriers s bs in if barrier_ready s b then rest else b ∷ rest

  unfoldable pub ready_ids : Node E → List PendingReadBarrier → List ℕ
  ready_ids s [] = []
  ready_ids s (b ∷ bs) =
      let rest = ready_ids s bs in if barrier_ready s b then b.completion ∷ rest else rest

  unfoldable pub evaluate_read_barriers : Node E → Node E
  unfolding finish_all waiting_barriers ready_ids barrier_ready
  evaluate_read_barriers s = record s {
    pending_read_barriers = waiting_barriers s s.pending_read_barriers;
    completions = finish_all (ready_ids s s.pending_read_barriers) (finished []) s.completions;
  }
