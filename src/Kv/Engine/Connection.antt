-- ===== src/Kv/Engine/Connection.antt =====
-- What every call of a connection keeps: storage/mock_engine/mock_engine.cpp, `MockEngine`.
use hands_on_sqldb_in_cpp.Prelude.{
  ◌≡◌, refl, true, false, Option, none, some, List, [], ◌∷◌, foldl, arith,
}
use hands_on_sqldb_in_cpp.Prelude.Order.{bytes_order}
use hands_on_sqldb_in_cpp.Kv.Batch
use hands_on_sqldb_in_cpp.Kv.Batch.{
  Key, ByteValue, Status, success, not_found, Op, WriteBatch, put_op, remove_op, remove_range_op,
}
use hands_on_sqldb_in_cpp.Kv.TxBuffer.{TxBuffer}
use hands_on_sqldb_in_cpp.Kv.TxBuffer.Refines.{
  IsTracked, put-IsTracked, remove-IsTracked, remove_range-IsTracked,
}
use hands_on_sqldb_in_cpp.Kv.Store
use hands_on_sqldb_in_cpp.Kv.Store.{
  MockStore, Rows, valid_ops, apply_op, apply_batch_locked, acquire_slot, release_slot,
  held_by_other, held_by,
}
use hands_on_sqldb_in_cpp.Kv.Store.Rows.{
  IsSorted, foldl-apply_op-IsSorted, assign-IsSorted, erase-IsSorted,
}
use hands_on_sqldb_in_cpp.Kv.Engine.{
  Conn, put, remove, write_batch, buffer_op, begin_transaction, commit_transaction,
  rollback_transaction, finish, buffer_write, acquire_write_slot, ensure_write_slot,
  release_write_slot, under_slot, lift_store,
}

abbrev pub OptionTracked : Option TxBuffer → Type 0
OptionTracked none = Unit {0}
OptionTracked (some t) = IsTracked t

-- The buffer agrees with its log, the rows are sorted, a snapshot belongs to a transaction that has
-- not yet written, and a connection that thinks it holds the write slot does hold it.
pub record IsConsistent (c : Conn) : Type 0 where
  pub tracked : OptionTracked c.tx
  pub sorted : IsSorted c.store.rows
  pub outside : c.tx ≡ none → c.snapshot ≡ none
  pub reading : c.write_slot ≡ true → c.snapshot ≡ none
  pub owned : c.write_slot ≡ true → c.store.write_owner ≡ some c.owner

buffer_op-IsTracked : (t : TxBuffer) (op : Op) → IsTracked t → IsTracked (buffer_op t op)
unfolding buffer_op
buffer_op-IsTracked t op h = by_kind op.op_type refl op.pair.value refl
  where
    by_kind :
        (k : Batch.OpType)
        → op.op_type ≡ k
        → (o : Option ByteValue) → op.pair.value ≡ o
        → IsTracked (buffer_op t op)
    by_kind put_op e none f = rw e (rw f h)
    by_kind put_op e (some v) f = rw e (rw f (put-IsTracked t h op.pair.key v))
    by_kind remove_op e o f = rw e (remove-IsTracked t h op.pair.key)
    by_kind remove_range_op e o f = rw e (remove_range-IsTracked t h op.pair.key op.range_end)

-- Writes of a transaction, in any number and order, keep its buffer tracked: a read through the
-- buffer gives, at each key and over each value below, what the logged operations make of it when
-- they are replayed in their order, and the batch of the commit holds just these operations.
pub buffer_ops-IsTracked :
    (t : TxBuffer) (ops : List Op) → IsTracked t → IsTracked (foldl buffer_op t ops)
buffer_ops-IsTracked t [] h = h
buffer_ops-IsTracked t (op ∷ ops) h =
    buffer_ops-IsTracked (buffer_op t op) ops (buffer_op-IsTracked t op h)

pub ensure_write_slot-IsConsistent :
    (c : Conn) → IsConsistent c → IsConsistent (ensure_write_slot c).1
unfolding ensure_write_slot acquire_write_slot acquire_slot
ensure_write_slot-IsConsistent c v = ground arith

ensure_write_slot_keeps :
    (c : Conn)
    → ((ensure_write_slot c).1.tx ≡ c.tx)
      × ((ensure_write_slot c).1.store.rows ≡ c.store.rows)
      × ((ensure_write_slot c).1.store.is_open ≡ c.store.is_open)
unfolding ensure_write_slot acquire_write_slot acquire_slot
ensure_write_slot_keeps c = ground arith

pub data Call : Type 0 where
  puts : Key → ByteValue → Call
  removes : Key → Call
  batches : WriteBatch → Call
  begins commits rolls_back acquires releases : Call

unfoldable pub step : Call → Conn → Status × Conn
step (puts k v) c = put k v c
step (removes k) c = remove k c
step (batches b) c = write_batch b c
step begins c = begin_transaction c
step commits c = commit_transaction c
step rolls_back c = rollback_transaction c
step acquires c = acquire_write_slot c
step releases c = (success, release_write_slot c)

-- An automatically committed write, and the begin of a transaction, where the slot is not held.
abbrev pub IsPlain : Call → Conn → Type 0
IsPlain (puts k v) c = c.tx ≡ none → c.write_slot ≡ false
IsPlain (removes k) c = c.tx ≡ none → c.write_slot ≡ false
IsPlain (batches b) c = c.tx ≡ none → c.write_slot ≡ false
IsPlain begins c = c.write_slot ≡ false
IsPlain call c = Unit {0}

-- A direct write of the store keeps its rows sorted and its owner.
abbrev pub KeepsRows : (MockStore → Status × MockStore) → Type 0
KeepsRows f =
    (s : MockStore)
    → IsSorted s.rows
    → IsSorted (f s).1.rows × ((f s).1.write_owner ≡ s.write_owner)

pub put-KeepsRows : (k : Key) (v : ByteValue) → KeepsRows (Store.put k v)
unfolding Store.put
put-KeepsRows k v s h = ground (arith, assign-IsSorted k v s.rows h)

pub remove-KeepsRows : (k : Key) → KeepsRows (Store.remove k)
unfolding Store.remove
remove-KeepsRows k s h = ground (arith, erase-IsSorted k s.rows h)

pub write_batch-KeepsRows : (b : WriteBatch) → KeepsRows (Store.write_batch b)
unfolding Store.write_batch apply_batch_locked
write_batch-KeepsRows b s h = ground (arith, foldl-apply_op-IsSorted s.rows b.ops h)

pub buffer_write-IsConsistent :
    (f : TxBuffer → TxBuffer) (r : Status × Conn)
    → ((t : TxBuffer) → IsTracked t → IsTracked (f t))
    → IsConsistent r.1
    → IsConsistent (buffer_write f r).1
unfolding buffer_write
buffer_write-IsConsistent f (success, c) keep v = by_tx c.tx refl
  where
    by_tx : (o : Option TxBuffer) → c.tx ≡ o → IsConsistent (buffer_write f (success, c)).1
    by_tx none e = ground arith
    by_tx (some t) e = ground (arith, keep t)
buffer_write-IsConsistent f (other, c) keep v = v

pub direct-IsConsistent :
    (f : MockStore → Status × MockStore) (c : Conn)
    → KeepsRows f
    → c.write_slot ≡ false
    → IsConsistent c
    → IsConsistent (lift_store c (under_slot f c.owner (acquire_slot c.owner c.store))).1
unfolding acquire_slot release_slot
direct-IsConsistent f c keep w v =
    ground (arith, keep (record c.store { write_owner = some c.owner }))

pub finish-IsConsistent : (c : Conn) → IsSorted c.store.rows → IsConsistent (finish c)
unfolding finish release_write_slot release_slot
finish-IsConsistent c s = ground arith
