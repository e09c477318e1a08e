-- ===== src/Raft/Commit/Applying.antt =====
-- `apply_committed` of raft/raft_node.cpp: which entries reach the state machine.
use hands_on_sqldb_in_cpp.Prelude.{
  ℕ, zero, suc, ◌+◌, ◌-◌, ◌≤◌, ◌<◌, ◌≡◌, refl, sym, ap, subst, ◌∙◌, true, false, arith, ltb,
  Bool-cases, inl, inr, inc, inc_lem, u64_mod,
}
use hands_on_sqldb_in_cpp.Prelude.Order.{Bytes}
use hands_on_sqldb_in_cpp.Raft.Types.{LogEntry, Result, ok, err}
use hands_on_sqldb_in_cpp.Raft.Env.{Env}
use hands_on_sqldb_in_cpp.Raft.Node.{Node, bind_result, bind-eq-ok, modify}
use hands_on_sqldb_in_cpp.Raft.Waiters.{complete_applied_proposal, evaluate_read_barriers}
use hands_on_sqldb_in_cpp.Raft.Commit.{
  apply_entry, after_apply, apply_next, apply_loop, apply_committed,
}

-- `Run store i m j m'`: from the machine `m`, which holds the entries up to `i`, the entries of the
-- log from the next one up to `j` are applied one after the other, each with success.
pub data Run (E : Env) (store : E.Store) : ℕ → E.Machine → ℕ → E.Machine → Type 0 where
  done : {i : ℕ} {m : E.Machine} → Run E store i m i m
  next :
      {i i' j : ℕ} {m m' m'' : E.Machine} (entry : LogEntry) (result : Bytes)
      → i' ≡ i + 1
      → E.at i' store ≡ ok entry
      → E.apply entry m ≡ (ok result, m')
      → Run E store i' m' j m''
      → Run E store i m j m''

-- The state machine refuses no entry.
abbrev pub Applicable : Env → Type 0
Applicable E =
    (entry : LogEntry) (m : E.Machine)
    → (result : Bytes) × (m' : E.Machine) × (E.apply entry m ≡ (ok result, m'))

module _ {E : Env} where
  apply_next-step :
      (s : Node E)
      → (apply_next s).0 ≡ ok tt
      → (entry : LogEntry) × (result : Bytes) × (E.at (inc s.last_applied) s.store ≡ ok entry)
        × (E.apply entry s.machine ≡ (ok result, (apply_next s).1.machine))
        × ((apply_next s).1.last_applied ≡ inc s.last_applied)
        × ((apply_next s).1.commit_index ≡ s.commit_index)
        × ((apply_next s).1.store ≡ s.store)
  unfolding apply_next apply_entry after_apply complete_applied_proposal
  apply_next-step s h = by_entry (E.at (inc s.last_applied) s.store) refl
    where
      Goal : Type 0
      Goal =
          (entry : LogEntry) × (result : Bytes) × (E.at (inc s.last_applied) s.store ≡ ok entry)
          × (E.apply entry s.machine ≡ (ok result, (apply_next s).1.machine))
          × ((apply_next s).1.last_applied ≡ inc s.last_applied)
          × ((apply_next s).1.commit_index ≡ s.commit_index)
          × ((apply_next s).1.store ≡ s.store)

      by_entry : (r : Result LogEntry) → E.at (inc s.last_applied) s.store ≡ r → Goal
      by_entry (err e) at = absurd (ground arith)
      by_entry (ok entry) at = by_result (E.apply entry s.machine) refl
        where
          by_result : (r : Result Bytes × E.Machine) → E.apply entry s.machine ≡ r → Goal
          by_result (err e, m) applied = absurd (ground arith)
          by_result (ok result, m) applied =
              (entry, result, at, ground arith, ground arith, ground arith, ground arith)

  apply_loop-more :
      (fuel : ℕ) (s : Node E)
      → ltb s.last_applied s.commit_index ≡ true
      → apply_loop (suc fuel) s ≡ bind_result (apply_next s) (λ u. apply_loop fuel)
  unfolding apply_loop
  apply_loop-more fuel s h = ground arith

  apply_loop-over :
      (fuel : ℕ) (s : Node E)
      → ltb s.last_applied s.commit_index ≡ false
      → apply_loop fuel s ≡ (ok tt, s)
  unfolding apply_loop
  apply_loop-over zero s h = refl
  apply_loop-over (suc fuel) s h = ground arith

  abbrev Reaches : Node E → Result (Unit {0}) × Node E → Type 0
  Reaches s r =
      Run E s.store s.last_applied s.machine s.commit_index r.1.machine
      × (r.1.last_applied ≡ s.commit_index)

  Reaches-here : (s : Node E) → s.last_applied ≡ s.commit_index → Reaches s (ok tt, s)
  Reaches-here s e = (subst (λ j. Run E s.store s.last_applied s.machine j s.machine) e done, e)

  -- The entry that a round applies goes before the rest of the run.
  Reaches-next :
      (s : Node E) (r : Result (Unit {0}) × Node E)
      → s.last_applied + 1 < u64_mod
      → (apply_next s).0 ≡ ok tt
      → Reaches (apply_next s).1 r
      → Reaches s r
  Reaches-next s r small h (run, last) =
      let (entry, result, at, applied, moved, commit, store) = apply_next-step s h in
      (
        next entry result (inc_lem s.last_applied small) at applied (
            subst (λ i. Run E s.store i (apply_next s).1.machine s.commit_index r.1.machine) moved
              (subst
                (λ j.
                  Run E s.store (apply_next s).1.last_applied (apply_next s).1.machine j
                    r.1.machine)
                commit
                (subst
                  (λ l.
                    Run E l (apply_next s).1.last_applied (apply_next s).1.machine
                      (apply_next s).1.commit_index r.1.machine)
                  store run))),
        last ∙ commit,
      )

  apply_loop-Reaches :
      (fuel : ℕ) (s : Node E)
      → s.commit_index < u64_mod
      → s.last_applied ≤ s.commit_index
      → s.commit_index - s.last_applied ≤ fuel
      → (apply_loop fuel s).0 ≡ ok tt
      → Reaches s (apply_loop fuel s)
  apply_loop-Reaches zero s small le enough h =
      rw (apply_loop-over zero s (ground arith)) (Reaches-here s (omega arith))
  apply_loop-Reaches (suc fuel) s small le enough h =
      elim (Bool-cases (ltb s.last_applied s.commit_index)) [
        | inl more ↦
            let (u, ok', rest, e) =
              bind-eq-ok (apply_next s) (λ u. apply_loop fuel)
                (sym (ap (λ (r : Result (Unit {0}) × Node E). r.0) (apply_loop-more fuel s more))
                  ∙ h) in
            let (entry, result, at, applied, moved, commit, store) =
              apply_next-step s (ok_unit ok') in
            rw (apply_loop-more fuel s more, e)
              (Reaches-next s (apply_loop fuel (apply_next s).1) (ground arith) (ok_unit ok') (
                apply_loop-Reaches fuel (apply_next s).1 (omega arith)
                  (ground (arith, inc_lem s.last_applied)) (ground (arith, inc_lem s.last_applied))
                  rest))
        | inr over ↦ rw (apply_loop-over (suc fuel) s over) (Reaches-here s (ground arith))
      ]
    where
      ok_unit : {u : Unit {0}} → (apply_next s).0 ≡ ok u → (apply_next s).0 ≡ ok tt
      ok_unit p = p

  -- When the commit index is a 64-bit number not below the last applied index, and `apply_committed`
  -- succeeds, the state machine has been given exactly the entries of the log after the last applied
  -- index up to the commit index, each once, in their order and with success, and the last applied
  -- index is the commit index.
  pub apply_committed-Run :
      (s : Node E)
      → s.commit_index < u64_mod
      → s.last_applied ≤ s.commit_index
      → (apply_committed s).0 ≡ ok tt
      → Run E s.store s.last_applied s.machine s.commit_index (apply_committed s).1.machine
        × ((apply_committed s).1.last_applied ≡ s.commit_index)
  unfolding apply_committed evaluate_read_barriers
  apply_committed-Run s small le h =
      let (u, looped, rest, e) =
        bind-eq-ok (apply_loop (s.commit_index - s.last_applied) s)
          (λ u. modify evaluate_read_barriers) h in
      rw e (apply_loop-Reaches (s.commit_index - s.last_applied) s small le (omega arith) looped)

  -- Each index up to the commit index that is not yet applied can be read from the log.
  abbrev pub Readable : Node E → Type 0
  Readable s =
      (i : ℕ)
      → s.last_applied < i
      → i ≤ s.commit_index
      → (entry : LogEntry) × (E.at i s.store ≡ ok entry)

  apply_next_succeeds :
      (s : Node E)
      → (entry : LogEntry) × (E.at (inc s.last_applied) s.store ≡ ok entry)
      → Applicable E
      → (apply_next s).0 ≡ ok tt
  unfolding apply_next apply_entry after_apply
  apply_next_succeeds s (entry, at) applies =
      let (result, m', applied) = applies entry s.machine in ground arith

  apply_loop_succeeds :
      (fuel : ℕ) (s : Node E)
      → s.commit_index < u64_mod
      → Readable s
      → Applicable E
      → (apply_loop fuel s).0 ≡ ok tt
  apply_loop_succeeds zero s small reads applies = unfold apply_loop in refl
  apply_loop_succeeds (suc fuel) s small reads applies =
      elim (Bool-cases (ltb s.last_applied s.commit_index)) [
        | inl more ↦
            let moved : inc s.last_applied ≡ s.last_applied + 1 =
              ground (arith, inc_lem s.last_applied) in
            let here : (apply_next s).0 ≡ ok tt =
              apply_next_succeeds s (reads (inc s.last_applied) (ground arith) (ground arith))
                applies in
            let (entry, result, at, applied, last, commit, store) = apply_next-step s here in
            rw (apply_loop-more fuel s more) (
              bind-ok (apply_next s) here (
                apply_loop_succeeds fuel (apply_next s).1 (omega arith)
                  (λ i below above. rw store (reads i (omega arith) (omega arith))) applies))
        | inr over ↦ rw (apply_loop-over (suc fuel) s over) refl
      ]
    where
      bind-ok :
          (r : Result (Unit {0}) × Node E)
          → r.0 ≡ ok tt
          → (apply_loop fuel r.1).0 ≡ ok tt
          → (bind_result r (λ u. apply_loop fuel)).0 ≡ ok tt
      bind-ok (ok u, t) h k = k
      bind-ok (err e, t) h k = cc

  -- When the commit index is a 64-bit number not below the last applied index, the log has every entry
  -- between the two, and the state machine refuses no entry, `apply_committed` succeeds: the last
  -- applied index reaches the commit index.
  pub apply_committed_reaches :
      (s : Node E)
      → s.commit_index < u64_mod
      → s.last_applied ≤ s.commit_index
      → Readable s
      → Applicable E
      → ((apply_committed s).0 ≡ ok tt) × ((apply_committed s).1.last_applied ≡ s.commit_index)
  apply_committed_reaches s small le reads applies =
      let fuel = s.commit_index - s.last_applied in
      let looped : (apply_loop fuel s).0 ≡ ok tt = apply_loop_succeeds fuel s small reads applies in
      let done : (apply_committed s).0 ≡ ok tt =
        unfold apply_committed in then_ok (apply_loop fuel s) looped in
      (done, (apply_committed-Run s small le done).1)
    where
      then_ok :
          (r : Result (Unit {0}) × Node E)
          → r.0 ≡ ok tt
          → (bind_result r (λ u. modify evaluate_read_barriers)).0 ≡ ok tt
      then_ok (ok u, t) h = refl
      then_ok (err e, t) h = cc
