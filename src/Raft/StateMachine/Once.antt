-- ===== src/Raft/StateMachine/Once.antt =====
-- A request that is applied twice acts once.
use hands_on_sqldb_in_cpp.Prelude.{ℕ, ◌≡◌, refl, ap, Option, none, some, [], ◌∷◌, arith}
use hands_on_sqldb_in_cpp.Prelude.Order.{Bytes, nat_order, eqb_refl}
use hands_on_sqldb_in_cpp.Prelude.Maps.{find-assign}
use hands_on_sqldb_in_cpp.Raft.Types.{Result, ok, err, LogEntry}
use hands_on_sqldb_in_cpp.Raft.Payload.{ProposalPayload, decode_proposal_payload}
use hands_on_sqldb_in_cpp.Raft.StateMachine.{
  MemoryRequestResultStore, find_result, save_result, KvStateMachine, applied, apply_request,
  apply_payload, apply_bytes, apply,
}

find_result-save_result :
    (client_id request_id : ℕ) (result : Bytes) (entries : MemoryRequestResultStore)
    → find_result client_id request_id (save_result client_id request_id result entries)
      ≡ ok (some result)
unfolding find_result save_result
find_result-save_result client_id request_id result entries = ground (
  arith,
  find-assign client_id client_id (record { request_id = request_id; result = result }) entries,
  eqb_refl client_id,
)

-- What was found or saved is found again.
apply_request-again :
    (p : ProposalPayload) (found : Result (Option Bytes)) (m n : KvStateMachine) (r : Bytes)
    → find_result p.client_id p.request_id m.request_results ≡ found
    → apply_request p found m ≡ (ok r, n)
    → find_result p.client_id p.request_id n.request_results ≡ ok (some r)
apply_request-again p (err e) m n r f h = ground (arith, h)
apply_request-again p (ok (some previous)) m n r f h = ground (arith, f, h)
apply_request-again p (ok none) m n r f h =
    ground (arith, h, find_result-save_result p.client_id p.request_id applied m.request_results)

apply_payload-again :
    (decoded : Result ProposalPayload) (m n : KvStateMachine) (r : Bytes)
    → apply_payload decoded m ≡ (ok r, n)
    → apply_payload decoded n ≡ (ok r, n)
apply_payload-again (err e) m n r h = ground (arith, h)
apply_payload-again (ok p) m n r h =
    ap (λ (f : Result (Option Bytes)). apply_request p f n)
      (apply_request-again p (find_result p.client_id p.request_id m.request_results) m n r refl h)

apply_bytes-again :
    (bytes : Bytes) (m n : KvStateMachine) (r : Bytes)
    → apply_bytes bytes m ≡ (ok r, n)
    → apply_bytes bytes n ≡ (ok r, n)
apply_bytes-again [] m n r h = ground (arith, h)
apply_bytes-again (b ∷ bytes) m n r h =
    apply_payload-again (decode_proposal_payload (b ∷ bytes)) m n r h

-- An entry that is applied with success and then applied again gives the same result, and changes
-- nothing any more, neither the rows nor the results that are kept.
pub apply-apply :
    (e : LogEntry) (m n : KvStateMachine) (r : Bytes)
    → apply e m ≡ (ok r, n)
    → apply e n ≡ (ok r, n)
unfolding apply
apply-apply e m n r h = apply_bytes-again e.payload m n r h
