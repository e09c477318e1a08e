-- ===== src/Kv/Engine.antt =====
-- storage/mock_engine/mock_engine.h and mock_engine.cpp, `MockEngine`: one connection, with its
-- transaction buffer, its snapshot and its share of the write slot. A call runs on the pair of the
-- connection and the store that all connections share. The `value` out-parameters of the source are
-- the second part of a reply. Iterators are not modelled here.
pub mod Connection
pub mod Transaction
pub mod Isolation
pub mod Limits
use hands_on_sqldb_in_cpp.Prelude.{
  ℕ, ◌≡◌, Bool, true, false, not, Option, none, some, List, [], ◌∷◌, ◌++◌, foldl, if◌then◌else◌,
}
use hands_on_sqldb_in_cpp.Prelude.Order.{bytes_order}
use hands_on_sqldb_in_cpp.Prelude.Maps.{find}
use hands_on_sqldb_in_cpp.Kv.Batch.{
  Key, ByteValue, Status, success, not_found, invalid_argument, internal_error, busy, Op,
  WriteBatch, put_op, remove_op, remove_range_op,
}
use hands_on_sqldb_in_cpp.Kv.TxBuffer
use hands_on_sqldb_in_cpp.Kv.TxBuffer.{
  OverlayOp, TxBuffer, uncovered, value, tombstone, fresh, to_batch, exceeds,
}
use hands_on_sqldb_in_cpp.Kv.Store
use hands_on_sqldb_in_cpp.Kv.Store.{MockStore, Rows, found, acquire_slot, release_slot}

pub record MockEngine : Type 0 where
  pub owner : ℕ
  pub tx : Option TxBuffer
  pub snapshot : Option Rows
  pub write_slot : Bool

-- A connection and the shared store.
pub record Conn : Type 0 where
  pub engine : MockEngine
  pub open engine use *
  pub store : MockStore

abbrev pub with_store : Conn → MockStore → Conn
with_store c s = record c { store = s }

abbrev pub with_tx : Conn → Option TxBuffer → Conn
with_tx c t = record c { engine = record c.engine { tx = t } }

abbrev pub is_success : Status → Bool
is_success s = elim s [ success ↦ true | _ ↦ false ]

-- Below the buffer: the snapshot of a reading transaction, or the store.
unfoldable pub get_below : Key → Conn → Status × Option ByteValue
get_below key c = elim c.snapshot [
  | some rows ↦ found (find key rows)
  | none ↦ Store.get key c.store
]

abbrev pub reply_over : OverlayOp → Status × Option ByteValue → Status × Option ByteValue
reply_over uncovered below = below
reply_over (value v) below = (success, some v)
reply_over tombstone below = (not_found, none)

unfoldable pub get : Key → Conn → Status × Option ByteValue
get key c = if not c.store.is_open then (internal_error, none) else elim c.tx [
  | some t ↦ reply_over (TxBuffer.lookup t key) (get_below key c)
  | none ↦ get_below key c
]

unfoldable pub exists_below : Key → Conn → Bool
exists_below key c = elim c.snapshot [
  | some rows ↦ elim (find key rows) [ none ↦ false | some v ↦ true ]
  | none ↦ Store.exists key c.store
]

abbrev pub exists_over : OverlayOp → Bool → Bool
exists_over uncovered below = below
exists_over (value v) below = true
exists_over tombstone below = false

unfoldable pub exists : Key → Conn → Bool
exists key c = if not c.store.is_open then false else elim c.tx [
  | some t ↦ exists_over (TxBuffer.lookup t key) (exists_below key c)
  | none ↦ exists_below key c
]

-- `acquire_write_slot` past its early returns: the snapshot is dropped with the slot in hand.
abbrev pub take_slot : Conn → Status × MockStore → Status × Conn
take_slot c (success, s) =
    (success, record { engine = record c.engine { snapshot = none; write_slot = true }; store = s })
take_slot c (other, s) = (other, record c { store = s })

unfoldable pub acquire_write_slot : Conn → Status × Conn
acquire_write_slot c =
    if c.write_slot
    then (success, c)
    else if not c.store.is_open
    then (internal_error, c)
    else take_slot c (acquire_slot c.owner c.store)

unfoldable pub release_write_slot : Conn → Conn
release_write_slot c = if not c.write_slot then c else record {
  engine = record c.engine { write_slot = false };
  store = (release_slot c.owner c.store).1;
}

unfoldable pub ensure_write_slot : Conn → Status × Conn
ensure_write_slot c = if c.write_slot then (success, c) else acquire_write_slot c

-- A write of a transaction: into the buffer, once the slot is held.
unfoldable pub buffer_write : (TxBuffer → TxBuffer) → Status × Conn → Status × Conn
buffer_write f (success, c) = (success, with_tx c (elim c.tx [ none ↦ none | some t ↦ some (f t) ]))
buffer_write f (other, c) = (other, c)

-- An automatically committed write: the slot is held for the one call.
abbrev pub under_slot :
    (MockStore → Status × MockStore) → ℕ → Status × MockStore → Status × MockStore
under_slot f owner (success, s) = let (status, s') = f s in (status, (release_slot owner s').1)
under_slot f owner (other, s) = (other, s)

abbrev pub lift_store : Conn → Status × MockStore → Status × Conn
lift_store c (status, s) = (status, record c { store = s })

unfoldable pub write :
    (TxBuffer → TxBuffer) → (MockStore → Status × MockStore) → Conn → Status × Conn
unfolding buffer_write ensure_write_slot acquire_write_slot acquire_slot release_slot
write buffered direct c = if not c.store.is_open then (internal_error, c) else elim c.tx [
  | some t ↦ buffer_write buffered (ensure_write_slot c)
  | none ↦ lift_store c (under_slot direct c.owner (acquire_slot c.owner c.store))
]

unfoldable pub put : Key → ByteValue → Conn → Status × Conn
unfolding write
put key v = write (TxBuffer.put key v) (Store.put key v)

unfoldable pub remove : Key → Conn → Status × Conn
unfolding write
remove key = write (TxBuffer.remove key) (Store.remove key)

-- One round of the loop of `write_batch` in a transaction.
unfoldable pub buffer_op : TxBuffer → Op → TxBuffer
buffer_op t op = elim op.op_type [
  | put_op ↦ elim op.pair.value [ none ↦ t | some v ↦ TxBuffer.put op.pair.key v t ]
  | remove_op ↦ TxBuffer.remove op.pair.key t
  | remove_range_op ↦ TxBuffer.remove_range op.pair.key op.range_end t
]

abbrev pub is_empty : WriteBatch → Bool
is_empty batch = elim batch.ops [ [] ↦ true | op ∷ ops ↦ false ]

unfoldable pub write_batch : WriteBatch → Conn → Status × Conn
unfolding buffer_write ensure_write_slot acquire_write_slot acquire_slot release_slot buffer_op
write_batch batch c = if not c.store.is_open then (internal_error, c) else elim c.tx [
  | some t ↦ buffer_write (λ u. foldl buffer_op u batch.ops) (ensure_write_slot c)
  | none ↦
      if is_empty batch
      then (success, c)
      else lift_store c
          (under_slot (Store.write_batch batch) c.owner (acquire_slot c.owner c.store))
]

unfoldable pub begin_transaction : Conn → Status × Conn
begin_transaction c = if not c.store.is_open then (internal_error, c) else elim c.tx [
  | some t ↦ (busy, c)
  | none ↦ (
    success,
    record c { engine = record c.engine { tx = some fresh; snapshot = some c.store.rows } },
  )
]

-- The end of a transaction: the buffer and the snapshot go, and the slot is given back.
unfoldable pub finish : Conn → Conn
unfolding release_write_slot
finish c = release_write_slot (record c { engine = record c.engine { tx = none; snapshot = none } })

-- `commit_transaction` after the batch was written: a failure keeps the buffer and the slot.
abbrev pub committed : Conn → Status × MockStore → Status × Conn
committed c (success, s) = (success, finish (with_store c s))
committed c (other, s) = (other, with_store c s)

unfoldable pub commit_transaction : Conn → Status × Conn
commit_transaction c = if not c.store.is_open then (internal_error, c) else elim c.tx [
  | none ↦ (not_found, c)
  | some t ↦
      if exceeds t
      then (invalid_argument, c)
      else committed c (Store.write_batch (record (to_batch t) { sync = true }) c.store)
]

unfoldable pub rollback_transaction : Conn → Status × Conn
rollback_transaction c =
    if not c.store.is_open
    then (internal_error, c)
    else elim c.tx [ none ↦ (not_found, c) | some t ↦ (success, finish c) ]
