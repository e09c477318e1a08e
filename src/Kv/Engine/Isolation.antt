-- ===== src/Kv/Engine/Isolation.antt =====
-- Calls of several connections on one store: the invariant of each, the single writer, and reading
-- one's own writes.
use hands_on_sqldb_in_cpp.Prelude.{
  ℕ, ◌≡◌, ◌≢◌, inl, inr, ◌⊎◌, refl, true, false, ◌==◌, Option, none, some, [], foldl, arith,
}
use hands_on_sqldb_in_cpp.Prelude.Order.{bytes_order}
use hands_on_sqldb_in_cpp.Kv.Batch.{Key, Status, success, WriteBatch}
use hands_on_sqldb_in_cpp.Kv.TxBuffer
use hands_on_sqldb_in_cpp.Kv.TxBuffer.{TxBuffer, fresh, to_batch}
use hands_on_sqldb_in_cpp.Kv.TxBuffer.Refines.{
  IsTracked, put-IsTracked, remove-IsTracked, fresh-IsTracked,
}
use hands_on_sqldb_in_cpp.Kv.Store
use hands_on_sqldb_in_cpp.Kv.Store.{
  MockStore, apply_batch_locked, acquire_slot, release_slot, held_by_other, held_by,
}
use hands_on_sqldb_in_cpp.Kv.Store.Rows.{foldl-apply_op-IsSorted}
use hands_on_sqldb_in_cpp.Kv.Engine.{
  Conn, get, get_below, put, remove, write, write_batch, buffer_op, begin_transaction,
  commit_transaction, rollback_transaction, finish, acquire_write_slot, ensure_write_slot,
  release_write_slot,
}
use hands_on_sqldb_in_cpp.Kv.Engine.Transaction.{commit_cases, commit_fails_unchanged}
use hands_on_sqldb_in_cpp.Kv.Engine.Connection.{
  IsConsistent, IsPlain, Call, puts, removes, batches, begins, commits, rolls_back, acquires,
  releases, step, KeepsRows, put-KeepsRows, remove-KeepsRows, write_batch-KeepsRows,
  buffer_write-IsConsistent, direct-IsConsistent, finish-IsConsistent, buffer_ops-IsTracked,
  ensure_write_slot-IsConsistent,
}

write-IsConsistent :
    (f : TxBuffer → TxBuffer) (g : MockStore → Status × MockStore) (c : Conn)
    → ((t : TxBuffer) → IsTracked t → IsTracked (f t))
    → KeepsRows g
    → (c.tx ≡ none → c.write_slot ≡ false)
    → IsConsistent c
    → IsConsistent (write f g c).1
write-IsConsistent f g c keep rows w v = by_tx c.tx refl
  where
    by_tx : (o : Option TxBuffer) → c.tx ≡ o → IsConsistent (write f g c).1
    by_tx none e = unfold write in ground (arith, direct-IsConsistent g c rows (w e) v)
    by_tx (some t) e =
        unfold write in
        ground (
          arith,
          buffer_write-IsConsistent f (ensure_write_slot c) keep
              (ensure_write_slot-IsConsistent c v),
        )

write_batch-IsConsistent :
    (b : WriteBatch) (c : Conn)
    → (c.tx ≡ none → c.write_slot ≡ false)
    → IsConsistent c
    → IsConsistent (write_batch b c).1
write_batch-IsConsistent b c w v = by_tx c.tx refl
  where
    by_tx : (o : Option TxBuffer) → c.tx ≡ o → IsConsistent (write_batch b c).1
    by_tx none e =
        unfold write_batch in
        ground
          (arith, direct-IsConsistent (Store.write_batch b) c (write_batch-KeepsRows b) (w e) v)
    by_tx (some t) e =
        unfold write_batch in
        ground (
          arith,
          buffer_write-IsConsistent (λ u. foldl buffer_op u b.ops) (ensure_write_slot c)
              (λ u h. buffer_ops-IsTracked u b.ops h) (ensure_write_slot-IsConsistent c v),
        )

begin-IsConsistent :
    (c : Conn) → IsConsistent c → c.write_slot ≡ false → IsConsistent (begin_transaction c).1
unfolding begin_transaction
begin-IsConsistent c v w = ground (arith, fresh-IsTracked)

Status-cases : (s : Status) → (s ≡ success) ⊎ (s ≢ success)
Status-cases success = inl refl
Status-cases other = inr (λ e. cc)

commit-IsConsistent : (c : Conn) → IsConsistent c → IsConsistent (commit_transaction c).1
commit-IsConsistent c v = elim (Status-cases (commit_transaction c).0) [
  | inl done ↦ by_tx c.tx refl done
  | inr failed ↦ rw (commit_fails_unchanged c failed) v
]
  where
    by_tx :
        (o : Option TxBuffer)
        → c.tx ≡ o
        → (commit_transaction c).0 ≡ success
        → IsConsistent (commit_transaction c).1
    by_tx none e done = unfold commit_transaction in ground arith
    by_tx (some t) e done =
        rw (commit_cases c t e done).1
          (finish-IsConsistent _ (foldl-apply_op-IsSorted c.store.rows (to_batch t).ops v.sorted))

rollback-IsConsistent : (c : Conn) → IsConsistent c → IsConsistent (rollback_transaction c).1
unfolding rollback_transaction
rollback-IsConsistent c v = ground (arith, finish-IsConsistent c v.sorted)

acquire-IsConsistent : (c : Conn) → IsConsistent c → IsConsistent (acquire_write_slot c).1
unfolding acquire_write_slot acquire_slot
acquire-IsConsistent c v = ground arith

release-IsConsistent : (c : Conn) → IsConsistent c → IsConsistent (release_write_slot c)
unfolding release_write_slot release_slot
release-IsConsistent c v = ground arith

-- Every call keeps a connection consistent, whether it succeeds or fails: the buffer and its log
-- agree, the rows stay sorted, and a held slot is recorded in the store. An automatically committed
-- write and the begin of a transaction are taken where the connection does not hold the slot.
pub step-IsConsistent :
    (call : Call) (c : Conn) → IsPlain call c → IsConsistent c → IsConsistent (step call c).1
unfolding step
step-IsConsistent (puts k w) c p v =
    unfold put in
    write-IsConsistent (TxBuffer.put k w) (Store.put k w) c (λ t h. put-IsTracked t h k w)
      (put-KeepsRows k w) p v
step-IsConsistent (removes k) c p v =
    unfold remove in
    write-IsConsistent (TxBuffer.remove k) (Store.remove k) c (λ t h. remove-IsTracked t h k)
      (remove-KeepsRows k) p v
step-IsConsistent (batches b) c p v = write_batch-IsConsistent b c p v
step-IsConsistent begins c p v = begin-IsConsistent c v p
step-IsConsistent commits c p v = commit-IsConsistent c v
step-IsConsistent rolls_back c p v = rollback-IsConsistent c v
step-IsConsistent acquires c p v = acquire-IsConsistent c v
step-IsConsistent releases c p v = release-IsConsistent c v

module _ (c : Conn) (other : ℕ) (h : c.store.write_owner ≡ some other)
    (n : (other == c.owner) ≡ false) (w : c.write_slot ≡ false)
    (t : (t : TxBuffer) → c.tx ≡ some t → (to_batch t).ops ≡ []) where
  abbrev Untouched : Status × Conn → Type 0
  Untouched r = (r.1.store ≡ c.store) × (r.1.write_slot ≡ false)

  acquire_refused :
      ((acquire_slot c.owner c.store).0 ≢ success) × ((acquire_slot c.owner c.store).1 ≡ c.store)
  unfolding acquire_slot
  acquire_refused = ground arith

  write_refused :
      (f : TxBuffer → TxBuffer) (g : MockStore → Status × MockStore) → Untouched (write f g c)
  unfolding write acquire_slot
  write_refused f g = ground arith

  batch_refused : (b : WriteBatch) → Untouched (write_batch b c)
  unfolding write_batch acquire_slot
  batch_refused b = ground arith

  begin-Untouched : Untouched (begin_transaction c)
  unfolding begin_transaction
  begin-Untouched = ground arith

  commit-Untouched : Untouched (commit_transaction c)
  commit-Untouched = elim (Status-cases (commit_transaction c).0) [
    | inl done ↦ by_tx c.tx refl done
    | inr failed ↦ rw (commit_fails_unchanged c failed) (refl, w)
  ]
    where
      by_tx :
          (o : Option TxBuffer)
          → c.tx ≡ o
          → (commit_transaction c).0 ≡ success
          → Untouched (commit_transaction c)
      by_tx none e done = unfold commit_transaction in ground arith
      by_tx (some u) e done =
          rw (commit_cases c u e done).1 (unfold finish release_write_slot in ground (arith, t u e))

  rollback-Untouched : Untouched (rollback_transaction c)
  unfolding rollback_transaction finish release_write_slot
  rollback-Untouched = ground arith

  acquire-Untouched : Untouched (acquire_write_slot c)
  unfolding acquire_write_slot acquire_slot
  acquire-Untouched = ground arith

  release-Untouched :
      ((release_write_slot c).store ≡ c.store) × ((release_write_slot c).write_slot ≡ false)
  unfolding release_write_slot
  release-Untouched = ground arith

  -- While another connection holds the write slot, no call of this one changes the store, as long
  -- as this one has buffered nothing, and this one does not get the slot.
  pub single_writer :
      (call : Call) → ((step call c).1.store ≡ c.store) × ((step call c).1.write_slot ≡ false)
  unfolding step put remove
  single_writer (puts k v) = write_refused (TxBuffer.put k v) (Store.put k v)
  single_writer (removes k) = write_refused (TxBuffer.remove k) (Store.remove k)
  single_writer (batches b) = batch_refused b
  single_writer begins = begin-Untouched
  single_writer commits = commit-Untouched
  single_writer rolls_back = rollback-Untouched
  single_writer acquires = acquire-Untouched
  single_writer releases = release-Untouched

-- Before its first write a transaction reads from its snapshot, whatever is committed meanwhile.
snapshot_reads :
    (c : Conn) (rows : Store.Rows) (s : MockStore) (k : Key)
    → c.snapshot ≡ some rows
    → c.store.is_open ≡ true
    → s.is_open ≡ true
    → get k (record c { store = s }) ≡ get k c
unfolding get get_below
snapshot_reads c rows s k e o p = ground arith
