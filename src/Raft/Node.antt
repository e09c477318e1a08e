-- ===== src/Raft/Node.antt =====
-- raft/raft_node.h: the state of one node, and the actions on it. An action of the source that
-- returns std::expected keeps, when it fails, what it has already changed in the node.
use hands_on_sqldb_in_cpp.Prelude.{
  ℕ, ◌+◌, ◌*◌, ◌/◌, ◌%◌, ◌≡◌, refl, Bool, Option, none, some, List, [], ◌∷◌, ◌++◌, leb, length,
  u64_mod,
}
use hands_on_sqldb_in_cpp.Prelude.Order.{nat_order}
use hands_on_sqldb_in_cpp.Prelude.Maps.{Map, find}
use hands_on_sqldb_in_cpp.Raft.Types.{
  NodeId, Role, HardState, Error, Result, ok, err, NodeConfig, Message, Finished,
  PendingReadBarrier, PendingSnapshot,
}
use hands_on_sqldb_in_cpp.Raft.Env.{Env}

pub record Node (E : Env) : Type 0 where
  pub config : NodeConfig
  pub store : E.Store
  pub machine : E.Machine
  -- the injected clock, and what went out through the transport, oldest first
  pub now_ms : ℕ
  pub sent : List (NodeId × Message)
  pub hard_state : HardState
  pub role : Role
  pub leader_id : Option NodeId
  pub last_log_index : ℕ
  pub last_included_index : ℕ
  pub last_included_term : ℕ
  pub commit_index : ℕ
  pub last_applied : ℕ
  pub apply_count : ℕ
  pub read_barrier_count : ℕ
  pub next_index : Map NodeId ℕ
  pub match_index : Map NodeId ℕ
  -- a std::set, in the order of arrival
  pub votes_received : List NodeId
  pub pending_proposals : Map ℕ ℕ
  pub pending_read_barriers : List PendingReadBarrier
  pub heartbeat_round : ℕ
  pub peer_acked_round : Map NodeId ℕ
  pub pending_snapshot : Option PendingSnapshot
  pub election_deadline : ℕ
  pub next_heartbeat : ℕ
  pub last_error : Option Error
  -- the shared completions: the next one to make, and the finished ones
  pub next_completion : ℕ
  pub completions : Map ℕ Finished

abbrev pub M : Env → Type 0 → Type 0
M E A = Node E → Result A × Node E

abbrev pub value_or_zero : Option ℕ → ℕ
value_or_zero none = 0
value_or_zero (some n) = n

-- `m[k]` of a std::map of numbers, read.
abbrev pub at_or_zero : NodeId → Map NodeId ℕ → ℕ
at_or_zero k m = value_or_zero (find k m)

module _ {E : Env} where
  abbrev pub bind_result : {A B : Type 0} → Result A × Node E → (A → M E B) → Result B × Node E
  bind_result (ok a, s) f = f a s
  bind_result (err e, s) f = (err e, s)

  infixl 5 ◌>>=◌ ◌>>◌
  abbrev pub ◌>>=◌ : {A B : Type 0} → M E A → (A → M E B) → M E B
  ◌>>=◌ m f s = bind_result (m s) f

  abbrev pub ◌>>◌ : {B : Type 0} → M E (Unit {0}) → M E B → M E B
  ◌>>◌ m k s = bind_result (m s) (λ u. k)

  abbrev pub pure : {A : Type 0} → A → M E A
  pure a s = (ok a, s)

  abbrev pub fail : {A : Type 0} → Error → M E A
  fail e s = (err e, s)

  -- A method that returns void.
  abbrev pub modify : (Node E → Node E) → M E (Unit {0})
  modify f s = (ok tt, f s)

  -- A read of the store.
  abbrev pub ask : {A : Type 0} → (E.Store → Result A) → M E A
  ask f s = (f s.store, s)

  -- A call that changes the store.
  abbrev pub on_store : (E.Store → Result (Unit {0}) × E.Store) → M E (Unit {0})
  on_store f s = let (r, store') = f s.store in (r, record s { store = store' })

  abbrev pub send : NodeId → Message → Node E → Node E
  send to message s = record s { sent = s.sent ++ (to, message) ∷ [] }

  unfoldable pub record_error : Error → Node E → Node E
  record_error e s = record s { last_error = some e }

  -- `if (auto result = f(); !result.has_value()) record_error(result.error());`
  unfoldable pub recording : M E (Unit {0}) → Node E → Node E
  unfolding record_error
  recording m s = elim (m s).0 [ ok u ↦ (m s).1 | err e ↦ record_error e (m s).1 ]

  unfoldable pub reset_election_deadline : Node E → Node E
  reset_election_deadline s =
      let offset = s.config.node_id % 5 * (s.config.election_timeout_ms / 10) in
      record s { election_deadline = (s.now_ms + s.config.election_timeout_ms + offset) % u64_mod }

  unfoldable pub has_quorum : ℕ → Node E → Bool
  has_quorum count s = leb (length s.config.peers / 2 + 1) count

  -- What a chain that succeeds says of its parts.
  pub bind-eq-ok :
      {A B : Type 0} (r : Result A × Node E) (f : A → M E B) {b : B}
      → (bind_result r f).0 ≡ ok b
      → (a : A) × (r.0 ≡ ok a) × ((f a r.1).0 ≡ ok b) × (bind_result r f ≡ f a r.1)
  bind-eq-ok (ok a, s) f h = (a, refl, h, refl)
  bind-eq-ok (err e, s) f h = cc
