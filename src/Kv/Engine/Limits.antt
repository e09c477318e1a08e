-- ===== src/Kv/Engine/Limits.antt =====
-- Which transactions can commit: `commit_transaction` of storage/mock_engine/mock_engine.cpp after
-- the writes that storage/kv_engine/tx_buffer.cpp has counted.
use mathlib.Core.List.{append_assoc, append-nil}
use hands_on_sqldb_in_cpp.Prelude.{
  ℕ, ◌+◌, ◌≤◌, ◌≡◌, ◌↔◌, refl, sym, ap, ◌∙◌, true, false, Option, none, some, List, [], ◌∷◌, ◌++◌,
  foldl, length, arith,
}
use hands_on_sqldb_in_cpp.Prelude.Order.{bytes_lt}
use hands_on_sqldb_in_cpp.Kv.Batch.{
  Key, ByteValue, Op, put_op, remove_op, remove_range_op, make_put, make_remove, make_remove_range,
  success,
}
use hands_on_sqldb_in_cpp.Kv.TxBuffer
use hands_on_sqldb_in_cpp.Kv.TxBuffer.{TxBuffer, fresh, to_batch, exceeds}
use hands_on_sqldb_in_cpp.Kv.TxBuffer.Refines.{fresh-IsTracked}
use hands_on_sqldb_in_cpp.Kv.Store
use hands_on_sqldb_in_cpp.Kv.Store.{valid_ops, valid_op}
use hands_on_sqldb_in_cpp.Kv.Engine.{Conn, buffer_op, commit_transaction}
use hands_on_sqldb_in_cpp.Kv.Engine.Connection.{buffer_ops-IsTracked}

-- The writes of a connection, as its methods make them.
pub data IsWrite : Op → Type 0 where
  write_put : (key : Key) (v : ByteValue) → IsWrite (make_put key v)
  write_remove : (key : Key) → IsWrite (make_remove key)
  write_remove_range : (begin end : Key) → IsWrite (make_remove_range begin end)

abbrev pub AllWrites : List Op → Type 0
AllWrites [] = Unit {0}
AllWrites (op ∷ ops) = IsWrite op × AllWrites ops

abbrev value_size : Option ByteValue → ℕ
value_size none = 0
value_size (some v) = length v

-- 64 bytes for each write, with its key, its value and the end of its range.
abbrev pub total_size : List Op → ℕ
total_size [] = 0
total_size (op ∷ ops) =
    length op.pair.key + value_size op.pair.value + length op.range_end + 64 + total_size ops

-- A removed range begins before it ends.
abbrev IsOrdered : Op → Type 0
IsOrdered op = elim op.op_type [
  | put_op ↦ Unit {0}
  | remove_op ↦ Unit {0}
  | remove_range_op ↦ bytes_lt op.pair.key op.range_end ≡ true
]

abbrev pub AllOrdered : List Op → Type 0
AllOrdered [] = Unit {0}
AllOrdered (op ∷ ops) = IsOrdered op × AllOrdered ops

buffer_op-counts :
    (t : TxBuffer) (op : Op)
    → IsWrite op
    → ((buffer_op t op).bytes ≡ t.bytes + total_size (op ∷ []))
      × ((buffer_op t op).log ≡ t.log ++ op ∷ [])
unfolding buffer_op TxBuffer.put TxBuffer.remove TxBuffer.remove_range
buffer_op-counts t op (write_put key v) = (omega arith, refl)
buffer_op-counts t op (write_remove key) = (omega arith, refl)
buffer_op-counts t op (write_remove_range begin end) = (omega arith, refl)

buffer_ops-count :
    (t : TxBuffer) (ops : List Op)
    → AllWrites ops
    → ((foldl buffer_op t ops).bytes ≡ t.bytes + total_size ops)
      × ((foldl buffer_op t ops).log ≡ t.log ++ ops)
buffer_ops-count t [] w = (omega arith, sym (append-nil t.log))
buffer_ops-count t (op ∷ ops) (w, ws) =
    let (size, logged) = buffer_op-counts t op w in
    let (sizes, log) = buffer_ops-count (buffer_op t op) ops ws in
    (
      omega (arith, size, sizes),
      log ∙ (ap (λ (l : List Op). l ++ ops) logged ∙ append_assoc t.log (op ∷ []) ops),
    )

valid_ops-AllOrdered : (ops : List Op) → AllWrites ops → (valid_ops ops ≡ true) ↔ AllOrdered ops
unfolding valid_ops valid_op
valid_ops-AllOrdered [] w = (λ h. tt, λ o. refl)
valid_ops-AllOrdered (op ∷ ops) (write_put key v, ws) =
    let rest = valid_ops-AllOrdered ops ws in (λ h. (tt, rest.0 h), λ o. rest.1 o.1)
valid_ops-AllOrdered (op ∷ ops) (write_remove key, ws) =
    let rest = valid_ops-AllOrdered ops ws in (λ h. (tt, rest.0 h), λ o. rest.1 o.1)
valid_ops-AllOrdered (op ∷ ops) (write_remove_range begin end, ws) =
    let rest = valid_ops-AllOrdered ops ws in
    (λ h. (ground (arith, h), rest.0 (ground (arith, h))), λ o. rw o.0 (rest.1 o.1))

commits_iff :
    (c : Conn) (t : TxBuffer)
    → c.store.is_open ≡ true
    → c.tx ≡ some t
    → ((commit_transaction c).0 ≡ success)
      ↔ ((t.bytes ≤ 67108864) × (c.store.fail_writes ≡ false) × (valid_ops (to_batch t).ops ≡ true))
unfolding commit_transaction exceeds Store.write_batch Store.apply_batch_locked
commits_iff c t o e = ground arith

-- A transaction on an open store that has buffered some writes, made by the methods of a connection,
-- commits with success exactly when the sizes of its keys, values and range ends, with 64 bytes for
-- each write, are at most 64 MiB together, no write failure is injected, and each range that it
-- removes begins before it ends.
pub commit_succeeds_iff :
    (c : Conn) (ops : List Op)
    → AllWrites ops
    → c.store.is_open ≡ true
    → c.tx ≡ some (foldl buffer_op fresh ops)
    → ((commit_transaction c).0 ≡ success)
      ↔ ((total_size ops ≤ 67108864) × (c.store.fail_writes ≡ false) × AllOrdered ops)
commit_succeeds_iff c ops w o e =
    let t = foldl buffer_op fresh ops in
    let (size, log) = buffer_ops-count fresh ops w in
    let batch : (to_batch t).ops ≡ ops =
      (buffer_ops-IsTracked fresh ops fresh-IsTracked).batched ∙ log in
    let commits = commits_iff c t o e in
    let ordered = valid_ops-AllOrdered ops w in
    (
      λ h.
          let (small, works, valid) = commits.0 h in
          (omega (arith, size, small), works, ordered.0 (rw⁻¹ batch valid)),
      λ h. commits.1 (omega (arith, size, h.0), h.1, rw batch (ordered.1 h.2)),
    )
