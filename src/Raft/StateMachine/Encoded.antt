-- ===== src/Raft/StateMachine/Encoded.antt =====
-- What an entry that carries an encoded batch does to the local store.
use hands_on_sqldb_in_cpp.Prelude.{
  ◌<◌, ◌≡◌, refl, ap, ◌∙◌, true, false, Option, none, List, [], ◌∷◌, arith, length, foldl, u64_mod,
}
use hands_on_sqldb_in_cpp.Prelude.Order.{Bytes, bytes_order}
use hands_on_sqldb_in_cpp.Prelude.Maps.{find}
use hands_on_sqldb_in_cpp.Kv.Batch.{Key, Op, WriteBatch, success, effects}
use hands_on_sqldb_in_cpp.Kv.Store
use hands_on_sqldb_in_cpp.Kv.Store.{MockStore, valid_op, valid_ops, apply_batch_locked, apply_op}
use hands_on_sqldb_in_cpp.Kv.Store.Rows.{IsSorted, find-foldl-apply_op}
use hands_on_sqldb_in_cpp.Raft.Types.{Result, ok, LogEntry}
use hands_on_sqldb_in_cpp.Raft.Payload.{
  ProposalPayload, encode_proposal_payload, decode_proposal_payload,
}
use hands_on_sqldb_in_cpp.Raft.Payload.RoundTrip.{
  AllSent, sent_put, sent_remove, sent_remove_range,
  decode_proposal_payload-encode_proposal_payload,
}
use hands_on_sqldb_in_cpp.Raft.StateMachine.{
  find_result, KvStateMachine, applied, after_write, apply_request, apply_payload, apply_bytes,
  apply,
}

AllSent-valid_ops : (ops : List Op) → AllSent ops → valid_ops ops ≡ true
unfolding valid_ops valid_op
AllSent-valid_ops [] s = refl
AllSent-valid_ops (op ∷ ops) (sent_put key value h k, s) = AllSent-valid_ops ops s
AllSent-valid_ops (op ∷ ops) (sent_remove key h, s) = AllSent-valid_ops ops s
AllSent-valid_ops (op ∷ ops) (sent_remove_range begin end h k l, s) = rw l (AllSent-valid_ops ops s)

pub write_batch-rows :
    (batch : WriteBatch) (s : MockStore)
    → s.is_open ≡ true
    → s.fail_writes ≡ false
    → valid_ops batch.ops ≡ true
    → Store.write_batch batch s ≡ (success, record s { rows = foldl apply_op s.rows batch.ops })
unfolding Store.write_batch apply_batch_locked
write_batch-rows batch s o f v = ground (arith, o, f, v)

apply_bytes-encoded :
    (p : ProposalPayload) (m : KvStateMachine)
    → apply_bytes (encode_proposal_payload p) m
      ≡ apply_payload (decode_proposal_payload (encode_proposal_payload p)) m
unfolding encode_proposal_payload
apply_bytes-encoded p m = refl

-- An entry that carries an encoded proposal, of a request that is new to an open store in which no
-- write fails and whose rows are sorted, is applied with success, and every key then reads as the
-- operations of the batch, one after the other, make of what it read before. The ids and the number
-- of operations are 64 bits wide; the operations were made by the methods of a batch, with keys and
-- values whose lengths are 64 bits wide and removed ranges that begin before they end.
pub apply-encode_proposal_payload :
    (p : ProposalPayload) (e : LogEntry) (m : KvStateMachine) (k : Key)
    → e.payload ≡ encode_proposal_payload p
    → p.client_id < u64_mod
    → p.request_id < u64_mod
    → length p.batch.ops < u64_mod
    → AllSent p.batch.ops
    → find_result p.client_id p.request_id m.request_results ≡ ok none
    → m.local.is_open ≡ true
    → m.local.fail_writes ≡ false
    → IsSorted m.local.rows
    → ((apply e m).0 ≡ ok applied)
      × (find k (apply e m).1.local.rows ≡ effects k (find k m.local.rows) p.batch.ops)
unfolding apply
apply-encode_proposal_payload p e m k same c r l s new opened works sorted =
    let sent : ProposalPayload = record p { batch = record { ops = p.batch.ops; sync = false } } in
    let run : apply_bytes e.payload m
        ≡ after_write sent
            (success, record m.local { rows = foldl apply_op m.local.rows p.batch.ops }) m =
      ap (λ (b : Bytes). apply_bytes b m) same
      ∙ (apply_bytes-encoded p m
          ∙ (ap (λ (d : Result ProposalPayload). apply_payload d m)
                (decode_proposal_payload-encode_proposal_payload p c r l s)
              ∙ (ap (λ (f : Result (Option Bytes)). apply_request sent f m) new
                  ∙ ap (λ w. after_write sent w m)
                      (write_batch-rows sent.batch m.local opened works
                        (AllSent-valid_ops p.batch.ops s))))) in
    rw run (
      refl,
      find-foldl-apply_op k m.local.rows p.batch.ops sorted (AllSent-valid_ops p.batch.ops s),
    )
