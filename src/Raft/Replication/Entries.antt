-- ===== src/Raft/Replication/Entries.antt =====
-- What a follower does with the entries of an AppendEntries request.
use hands_on_sqldb_in_cpp.Prelude.{
  ℕ, ◌≡◌, ◌⊎◌, inl, inr, refl, sym, ap, ◌∙◌, Bool, true, false, List, [], ◌∷◌, arith, ltb, inc, ◌<◌,
  Bool-cases,
}
use hands_on_sqldb_in_cpp.Raft.Types.{NodeId, LogEntry, AppendEntriesRequest, Result, ok}
use hands_on_sqldb_in_cpp.Raft.Env.{Env}
use hands_on_sqldb_in_cpp.Raft.Node.{Node, bind-eq-ok, bind_result}
use hands_on_sqldb_in_cpp.Raft.Replication.{
  append_reply, append_round, append_all, follow, prefix_ok, accept, replicate,
  handle_append_entries,
}

abbrev pub All {ℓ κ} : {A : Type ℓ} → (A → Type κ) → List A → Type κ
All P [] = Unit
All P (x ∷ xs) = P x × All P xs

module _ {E : Env} where
  append_round-term :
      (term index : ℕ) (entry : LogEntry) (s : Node E)
      → (append_round term index entry s).0 ≡ ok tt
      → (entry.term ≡ term) × (entry.index ≡ index)
  unfolding append_round
  append_round-term term index entry s h = ground arith

  -- The loop over the entries succeeds only if each of them is of the request's own term.
  append_all-terms :
      (term index last : ℕ) (entries : List LogEntry) (s : Node E)
      → (append_all term index entries s).0 ≡ ok last
      → All (λ (e : LogEntry). e.term ≡ term) entries
  unfolding append_all
  append_all-terms term index last [] s h = tt
  append_all-terms term index last (e ∷ es) s h =
      let (u, done, more, _) =
        bind-eq-ok (append_round term (inc index) e s) (λ u. append_all term (inc index) es) h in
      (
        (append_round-term term (inc index) e s done).0,
        append_all-terms term (inc index) last es (append_round term (inc index) e s).1 more,
      )

  -- The answer to a request that is not taken: the handler reports no success.
  abbrev pub IsRefused : NodeId → AppendEntriesRequest → Node E → Type 0
  IsRefused from request s =
      let t = (follow request.term request.leader_id s).1 in
      ((handle_append_entries from request s).1 ≡ append_reply from false 0 request.round 0 s)
      ⊎ ((handle_append_entries from request s).1
          ≡ append_reply from false 0 request.round t.last_log_index t)

  replicate-terms :
      (from : NodeId) (request : AppendEntriesRequest) (t : Node E)
      → (replicate from request true t).0 ≡ ok tt
      → All (λ (e : LogEntry). e.term ≡ request.term) request.entries
  unfolding replicate
  replicate-terms from request t h =
      let (last, done, rest, same) =
        bind-eq-ok (append_all request.term request.prev_log_index request.entries t)
          (accept from request) h in
      append_all-terms request.term request.prev_log_index last request.entries t done

  handle-current :
      (from : NodeId) (request : AppendEntriesRequest) (s : Node E)
      → ltb request.term s.hard_state.term ≡ false
      → handle_append_entries from request s
        ≡ bind_result
            (follow request.term request.leader_id s)
            (λ u t. bind_result (prefix_ok request t, t) (replicate from request))
  unfolding handle_append_entries
  handle-current from request s h = rw h refl

  handle-stale :
      (from : NodeId) (request : AppendEntriesRequest) (s : Node E)
      → ltb request.term s.hard_state.term ≡ true
      → handle_append_entries from request s ≡ (ok tt, append_reply from false 0 request.round 0 s)
  unfolding handle_append_entries
  handle-stale from request s h = rw h refl

  replicate-unfit :
      (from : NodeId) (request : AppendEntriesRequest) (t : Node E)
      → (replicate from request false t).1
        ≡ append_reply from false 0 request.round t.last_log_index t
  unfolding replicate
  replicate-unfit from request t = refl

  -- A request that is handled without an error is refused, or each of its entries is of its own term.
  pub handled-terms :
      (from : NodeId) (request : AppendEntriesRequest) (s : Node E)
      → (handle_append_entries from request s).0 ≡ ok tt
      → IsRefused from request s ⊎ All (λ (e : LogEntry). e.term ≡ request.term) request.entries
  handled-terms from request s h = elim (Bool-cases (ltb request.term s.hard_state.term)) [
    | inl stale ↦
        inl (inl (ap (λ (r : Result (Unit {0}) × Node E). r.1) (handle-stale from request s stale)))
    | inr current ↦
        let head = handle-current from request s current in
        let (u, followed, more, same) =
          bind-eq-ok (follow request.term request.leader_id s)
            (λ u t. bind_result (prefix_ok request t, t) (replicate from request))
            (sym (ap (λ (r : Result (Unit {0}) × Node E). r.0) head) ∙ h) in
        let t = (follow request.term request.leader_id s).1 in
        let (fits, checked, rest, again) =
          bind-eq-ok (prefix_ok request t, t) (replicate from request) more in
        by_fits t fits rest (head ∙ same ∙ again)
  ]
    where
      by_fits :
          (t : Node E) (fits : Bool)
          → (replicate from request fits t).0 ≡ ok tt
          → handle_append_entries from request s ≡ replicate from request fits t
          → (((handle_append_entries from request s).1
                ≡ append_reply from false 0 request.round 0 s)
              ⊎ ((handle_append_entries from request s).1
                  ≡ append_reply from false 0 request.round t.last_log_index t))
            ⊎ All (λ (e : LogEntry). e.term ≡ request.term) request.entries
      by_fits t true rest e = inr (replicate-terms from request t rest)
      by_fits t false rest e =
          inl
            (inr (ap (λ (r : Result (Unit {0}) × Node E). r.1) e ∙ replicate-unfit from request t))

  -- A request of an older term is refused with the node's own term, and changes nothing else.
  stale_leader_refused :
      (from : NodeId) (request : AppendEntriesRequest) (s : Node E)
      → request.term < s.hard_state.term
      → handle_append_entries from request s ≡ (ok tt, append_reply from false 0 request.round 0 s)
  unfolding handle_append_entries
  stale_leader_refused from request s h = ground arith
