-- ===== src/Raft/Replication/Inherited.antt =====
-- Entries of earlier terms on their way from a leader to a follower: `send_append_entries` and
-- `handle_append_entries` of raft/raft_node.cpp together.
use mathlib.Core.Option.{some-injective}
use hands_on_sqldb_in_cpp.Prelude.{
  ℕ, suc, ◌+◌, ◌-◌, ◌≤◌, ◌≡◌, ◌≢◌, inl, inr, refl, sym, ap, subst, ◌∙◌, false, Option, none, some,
  List, [], ◌∷◌, ◌++◌, arith, leb, inc,
}
use hands_on_sqldb_in_cpp.Raft.Types.{
  NodeId, LogEntry, Result, ok, Message, append_entries_request, AppendEntriesRequest,
}
use hands_on_sqldb_in_cpp.Raft.Env.{Env}
use hands_on_sqldb_in_cpp.Raft.Node.{Node, bind-eq-ok, bind_result, at_or_zero, send, ask}
use hands_on_sqldb_in_cpp.Raft.Commit.{
  ensure_progress, term_at, read_entries, send_entries, send_append_entries,
}
use hands_on_sqldb_in_cpp.Raft.Safety.{read_entries-same}
use hands_on_sqldb_in_cpp.Raft.Replication.{handle_append_entries}
use hands_on_sqldb_in_cpp.Raft.Replication.Entries.{All, IsRefused, handled-terms}

-- The message that was sent last.
abbrev pub newest : List (NodeId × Message) → Option Message
newest [] = none
newest ((to, message) ∷ []) = some message
newest (m ∷ n ∷ sent) = newest (n ∷ sent)

newest-append :
    (sent : List (NodeId × Message)) (to : NodeId) (message : Message)
    → newest (sent ++ (to, message) ∷ []) ≡ some message
newest-append [] to message = refl
newest-append (m ∷ []) to message = refl
newest-append (m ∷ n ∷ sent) to message = newest-append (n ∷ sent) to message

request_in : Option Message → Option AppendEntriesRequest
request_in none = none
request_in (some m) = elim m [ append_entries_request r ↦ some r | _ ↦ none ]

All-first :
    (P : LogEntry → Type 0) (es rest : List LogEntry) (e : LogEntry)
    → es ≡ e ∷ rest
    → All P es
    → P e
All-first P es rest e h all = (subst (λ (l : List LogEntry). All P l) h all).0

module _ {E : Env} where
  read_entries-first :
      (left index : ℕ) (s : Node E) (e : LogEntry) (es : List LogEntry)
      → E.at index s.store ≡ ok e
      → (read_entries (suc left) index s).0 ≡ ok es
      → (rest : List LogEntry) × (es ≡ e ∷ rest)
  unfolding read_entries
  read_entries-first left index s e es found h =
      let (first, a, more, same) =
        bind-eq-ok (ask (E.at index) s)
          (λ entry t.
            bind_result (read_entries left (inc index) t) (λ entries u. (ok (entry ∷ entries), u)))
          h in
      let (rest, b, last, again) =
        bind-eq-ok (read_entries left (inc index) s) (λ entries u. (ok (first ∷ entries), u))
          more in
      (rest, ground (arith, a, found, last))

  send_entries-newest :
      (to : NodeId) (next : ℕ) (s : Node E) (e : LogEntry)
      → next ≤ s.last_log_index
      → E.at next s.store ≡ ok e
      → (send_entries to next s).0 ≡ ok tt
      → (request : AppendEntriesRequest) × (rest : List LogEntry) × (newest
            (send_entries to next s).1.sent
          ≡ some (append_entries_request request))
        × (request.term ≡ s.hard_state.term)
        × (request.entries ≡ e ∷ rest)
  unfolding send_entries
  send_entries-newest to next s e more found h =
      let (prev, p, onward, q) =
        bind-eq-ok (term_at (next - 1) s, s)
          (λ prev t.
            bind_result (read_entries (t.last_log_index + 1 - next) next t)
              (λ es u. (ok tt, send to (append_entries_request (request_with prev es u)) u)))
          h in
      let (es, read, done, again) =
        bind-eq-ok (read_entries (s.last_log_index + 1 - next) next s)
          (λ es u. (ok tt, send to (append_entries_request (request_with prev es u)) u)) onward in
      let count : s.last_log_index + 1 - next ≡ suc (s.last_log_index - next) = omega arith in
      let (rest, first) =
        read_entries-first (s.last_log_index - next) next s e es found
          (sym (ap (λ (n : ℕ). (read_entries n next s).0) count) ∙ read) in
      let u = (read_entries (s.last_log_index + 1 - next) next s).1 in
      (
        request_with prev es u,
        rest,
        ap (λ (r : Result (Unit {0}) × Node E). newest r.1.sent) (q ∙ again)
            ∙ newest-append u.sent to (append_entries_request (request_with prev es u)),
        ap (λ (x : Node E). x.hard_state.term)
            (read_entries-same (s.last_log_index + 1 - next) next s),
        first,
      )
    where
      request_with : ℕ → List LogEntry → Node E → AppendEntriesRequest
      request_with prev es u = record {
        term = u.hard_state.term;
        leader_id = u.config.node_id;
        prev_log_index = next - 1;
        prev_log_term = prev;
        entries = es;
        leader_commit = u.commit_index;
        round = u.heartbeat_round;
      }

  send_append_entries-entries :
      (to : NodeId) (s : Node E)
      → leb (at_or_zero to (ensure_progress to s).next_index) s.last_included_index ≡ false
      → send_append_entries to s
        ≡ send_entries to (at_or_zero to (ensure_progress to s).next_index) (ensure_progress to s)
  unfolding send_append_entries ensure_progress
  send_append_entries-entries to s h = rw h refl

  -- A leader sends a peer, without an error, the entries of its log from the peer's next index on, which
  -- lies behind the leader's snapshot and not behind its log, and the first of them is of another term
  -- than the leader's. A follower, whatever its log and its term are, that handles the request which
  -- goes out last, and does so without an error, answers that it has no success.
  pub inherited_entry-IsRefused :
      (l f : Node E) (to from : NodeId) (request : AppendEntriesRequest) (e : LogEntry)
      → let next = at_or_zero to (ensure_progress to l).next_index in
        leb next l.last_included_index ≡ false
        → next ≤ l.last_log_index
        → E.at next l.store ≡ ok e
        → e.term ≢ l.hard_state.term
        → (send_append_entries to l).0 ≡ ok tt
        → newest (send_append_entries to l).1.sent ≡ some (append_entries_request request)
        → (handle_append_entries from request f).0 ≡ ok tt
        → IsRefused from request f
  unfolding ensure_progress request_in
  inherited_entry-IsRefused l f to from request e behind more found older sent went h =
      let next = at_or_zero to (ensure_progress to l).next_index in
      let entries = send_append_entries-entries to l behind in
      let (r, rest, out, term, first) =
        send_entries-newest to next (ensure_progress to l) e more found
          (sym (ap (λ (x : Result (Unit {0}) × Node E). x.0) entries) ∙ sent) in
      let same : r ≡ request = some-injective r request (
        ap request_in (
          sym out
          ∙ (ap (λ (x : Result (Unit {0}) × Node E). newest x.1.sent) (sym entries) ∙ went))) in
      elim (handled-terms from request f h) [
        | inl refused ↦ refused
        | inr own ↦ absurd (
            older (
              All-first (λ (x : LogEntry). x.term ≡ request.term) request.entries rest e
                (sym (ap (λ (x : AppendEntriesRequest). x.entries) same) ∙ first) own
              ∙ (sym (ap (λ (x : AppendEntriesRequest). x.term) same) ∙ term)))
      ]
