-- ===== src/Kv/Engine/Transaction.antt =====
-- What a transaction on a connection guarantees: `begin_transaction`, the reads and writes in
-- between, `commit_transaction` and `rollback_transaction` of storage/mock_engine/mock_engine.cpp.
use hands_on_sqldb_in_cpp.Prelude.{
  ◌≡◌, ◌≢◌, refl, sym, ap, ◌∙◌, true, false, Option, none, some, foldl, arith,
}
use hands_on_sqldb_in_cpp.Prelude.Order.{bytes_order}
use hands_on_sqldb_in_cpp.Prelude.Maps.{find}
use hands_on_sqldb_in_cpp.Kv.Batch.{Key, ByteValue, Status, success, WriteBatch, effects}
use hands_on_sqldb_in_cpp.Kv.TxBuffer
use hands_on_sqldb_in_cpp.Kv.TxBuffer.{
  TxBuffer, to_batch, exceeds, OverlayOp, uncovered, value, tombstone,
}
use hands_on_sqldb_in_cpp.Kv.TxBuffer.Refines.{IsTracked, read_over}
use hands_on_sqldb_in_cpp.Kv.Store
use hands_on_sqldb_in_cpp.Kv.Store.{
  MockStore, Rows, found, valid_ops, apply_op, apply_batch_locked, acquire_slot, release_slot,
}
use hands_on_sqldb_in_cpp.Kv.Store.Rows.{IsSorted, foldl-apply_op-IsSorted, find-foldl-apply_op}
use hands_on_sqldb_in_cpp.Kv.Engine.{
  Conn, get, get_below, reply_over, commit_transaction, rollback_transaction, finish, committed,
}

-- What a connection reads at a key once the store is open: a value, or nothing.
abbrev pub visible : Conn → Key → Option ByteValue
visible c k = (get k c).1

-- A read over found rows is the overlay of the buffer on the rows.
pub reply_over-found :
    (o : OverlayOp) (d : Option ByteValue) → reply_over o (found d) ≡ found (read_over o d)
reply_over-found uncovered d = refl
reply_over-found (value v) d = refl
reply_over-found tombstone d = refl

write_batch-rows :
    (batch : WriteBatch) (s : MockStore)
    → (Store.write_batch batch s).0 ≡ success
    → (valid_ops batch.ops ≡ true)
      × ((Store.write_batch batch s).1 ≡ record s { rows = foldl apply_op s.rows batch.ops })
unfolding Store.write_batch apply_batch_locked
write_batch-rows batch s h = ground arith

write_batch-fails :
    (batch : WriteBatch) (s : MockStore)
    → (Store.write_batch batch s).0 ≢ success
    → (Store.write_batch batch s).1 ≡ s
unfolding Store.write_batch apply_batch_locked
write_batch-fails batch s h = ground arith

committed-fails :
    (c : Conn) (status : Status) (s : MockStore)
    → (committed c (status, s)).0 ≢ success
    → (status ≢ success → s ≡ c.store)
    → (committed c (status, s)).1 ≡ c
committed-fails c success s h e = absurd (h refl)
committed-fails c other s h e = ap (λ (x : MockStore). record c { store = x }) (e (λ p. h p))

-- A commit that does not succeed changes nothing at all: the rows, the buffer, the snapshot and
-- the slot are as before, so the caller may try again or roll back.
pub commit_fails_unchanged :
    (c : Conn) → (commit_transaction c).0 ≢ success → (commit_transaction c).1 ≡ c
commit_fails_unchanged c = by_tx c.tx refl
  where
    by_tx :
        (o : Option TxBuffer)
        → c.tx ≡ o
        → (commit_transaction c).0 ≢ success
        → (commit_transaction c).1 ≡ c
    by_tx none e h = unfold commit_transaction in ground arith
    by_tx (some t) e h =
        let r = Store.write_batch (record (to_batch t) { sync = true }) c.store in
        unfold commit_transaction in
        ground (
          arith,
          committed-fails c r.0 r.1,
          write_batch-fails (record (to_batch t) { sync = true }) c.store,
        )

committed-succeeds :
    (c : Conn) (status : Status) (s : MockStore)
    → (committed c (status, s)).0 ≡ success
    → (status ≡ success) × ((committed c (status, s)).1 ≡ finish (record c { store = s }))
committed-succeeds c success s h = (refl, refl)
committed-succeeds c other s h = cc

pub commit_cases :
    (c : Conn) (t : TxBuffer)
    → c.tx ≡ some t
    → (commit_transaction c).0 ≡ success
    → (valid_ops (to_batch t).ops ≡ true)
      × ((commit_transaction c).1
          ≡ finish (record c {
            store = record c.store { rows = foldl apply_op c.store.rows (to_batch t).ops };
          }))
commit_cases c t e h =
    let r = Store.write_batch (record (to_batch t) { sync = true }) c.store in
    unfold commit_transaction in
    ground (
      arith,
      committed-succeeds c r.0 r.1,
      write_batch-rows (record (to_batch t) { sync = true }) c.store,
    )

finish-store-rows :
    (c : Conn)
    → ((finish c).store.rows ≡ c.store.rows)
      × ((finish c).store.is_open ≡ c.store.is_open)
      × ((finish c).tx ≡ none)
      × ((finish c).snapshot ≡ none)
      × ((finish c).write_slot ≡ false)
unfolding finish release_slot
finish-store-rows c = ground arith

pub found-snd : (d : Option ByteValue) → (found d).1 ≡ d
found-snd none = refl
found-snd (some v) = refl

reply_over-is_found :
    (o : OverlayOp) (r : Status × Option ByteValue)
    → r ≡ found r.1
    → reply_over o r ≡ found (reply_over o r).1
reply_over-is_found uncovered r h = h
reply_over-is_found (value v) r h = refl
reply_over-is_found tombstone r h = refl

found-again : (d : Option ByteValue) → found d ≡ found (found d).1
found-again none = refl
found-again (some v) = refl

get_below-found :
    (c : Conn) (k : Key) → c.store.is_open ≡ true → get_below k c ≡ found (get_below k c).1
unfolding get_below Store.get
get_below-found c k o = by_snapshot c.snapshot refl
  where
    by_snapshot : (s : Option Rows) → c.snapshot ≡ s → get_below k c ≡ found (get_below k c).1
    by_snapshot none e = ground (arith, found-again (find k c.store.rows))
    by_snapshot (some rows) e = ground (arith, found-again (find k rows))

-- On an open store a read finds a value or nothing; it does not fail.
pub get-found : (c : Conn) (k : Key) → c.store.is_open ≡ true → get k c ≡ found (visible c k)
unfolding get
get-found c k o = by_tx c.tx refl
  where
    by_tx : (t : Option TxBuffer) → c.tx ≡ t → get k c ≡ found (visible c k)
    by_tx none e = ground (arith, get_below-found c k o)
    by_tx (some t) e =
        ground
          (arith, reply_over-is_found (TxBuffer.lookup t k) (get_below k c) (get_below-found c k o))

pub visible-plain :
    (c : Conn) (k : Key)
    → c.store.is_open ≡ true
    → c.tx ≡ none
    → c.snapshot ≡ none
    → visible c k ≡ find k c.store.rows
unfolding get get_below Store.get
visible-plain c k o e f = ground (arith, found-snd (find k c.store.rows))

pub visible-tx :
    (c : Conn) (t : TxBuffer) (k : Key)
    → c.store.is_open ≡ true
    → c.tx ≡ some t
    → c.snapshot ≡ none
    → visible c k ≡ read_over (TxBuffer.lookup t k) (find k c.store.rows)
unfolding get get_below Store.get
visible-tx c t k o e f = ground (
  arith,
  reply_over-found (TxBuffer.lookup t k) (find k c.store.rows),
  found-snd (read_over (TxBuffer.lookup t k) (find k c.store.rows)),
)

-- When a writing transaction commits, every key reads for the whole store exactly as the
-- transaction read it before: all its writes are there, in their order, and nothing else changed.
-- The rows stay sorted, and the connection is left with no buffer, no snapshot and no slot.
pub commit_publishes :
    (c : Conn) (t : TxBuffer)
    → c.store.is_open ≡ true
    → c.tx ≡ some t
    → c.snapshot ≡ none
    → IsTracked t
    → IsSorted c.store.rows
    → (commit_transaction c).0 ≡ success
    → let c' = (commit_transaction c).1 in
      ((k : Key) → find k c'.store.rows ≡ visible c k)
      × IsSorted c'.store.rows
      × (c'.tx ≡ none)
      × (c'.snapshot ≡ none)
      × (c'.write_slot ≡ false)
commit_publishes c t o e f tracked sorted h = (
  λ k.
      ap (find k) rows'
      ∙ find-foldl-apply_op k c.store.rows (to_batch t).ops sorted cases.0
      ∙ ap (effects k (find k c.store.rows)) tracked.batched
      ∙ sym (tracked.agrees k (find k c.store.rows))
      ∙ sym (visible-tx c t k o e f),
  rw rows' (foldl-apply_op-IsSorted c.store.rows (to_batch t).ops sorted),
  rw cases.1 ends.2,
  rw cases.1 ends.3,
  rw cases.1 ends.4,
)
  where
    cases :
        (valid_ops (to_batch t).ops ≡ true)
        × ((commit_transaction c).1
            ≡ finish (record c {
              store = record c.store { rows = foldl apply_op c.store.rows (to_batch t).ops };
            }))
    cases = commit_cases c t e h

    ends :
        let d = record c {
          store = record c.store { rows = foldl apply_op c.store.rows (to_batch t).ops };
        } in
        ((finish d).store.rows ≡ d.store.rows)
        × ((finish d).store.is_open ≡ d.store.is_open)
        × ((finish d).tx ≡ none)
        × ((finish d).snapshot ≡ none)
        × ((finish d).write_slot ≡ false)
    ends = finish-store-rows _

    rows' : (commit_transaction c).1.store.rows ≡ foldl apply_op c.store.rows (to_batch t).ops
    rows' = rw cases.1 ends.0

-- A rollback of an open transaction leaves the rows of the store as they were and ends it.
rollback_lem :
    (c : Conn) (t : TxBuffer)
    → c.store.is_open ≡ true
    → c.tx ≡ some t
    → ((rollback_transaction c).0 ≡ success)
      × ((rollback_transaction c).1.store.rows ≡ c.store.rows)
      × ((rollback_transaction c).1.tx ≡ none)
      × ((rollback_transaction c).1.snapshot ≡ none)
      × ((rollback_transaction c).1.write_slot ≡ false)
unfolding rollback_transaction finish release_slot
rollback_lem c t o e = ground arith
