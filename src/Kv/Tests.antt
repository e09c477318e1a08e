-- ===== src/Kv/Tests.antt =====
-- Concrete connections on which the theorems of the key-value layer are applied.
use hands_on_sqldb_in_cpp.Prelude.{
  foldl, suc, length, map, ◌≡◌, ◌≤◌, ◌↔◌, refl, true, false, none, some, [], ◌∷◌, arith,
}
use hands_on_sqldb_in_cpp.Prelude.Order.{bytes_lt, bytes_order}
use hands_on_sqldb_in_cpp.Prelude.Maps.{find}
use hands_on_sqldb_in_cpp.Kv.Batch.{
  make_put, make_remove_range, KeyRange, forward, Key, success, invalid_argument,
}
use hands_on_sqldb_in_cpp.Kv.TxBuffer
use hands_on_sqldb_in_cpp.Kv.TxBuffer.{TxBuffer, fresh}
use hands_on_sqldb_in_cpp.Kv.TxBuffer.Refines.{IsTracked, fresh-IsTracked, put-IsTracked}
use hands_on_sqldb_in_cpp.Kv.Store
use hands_on_sqldb_in_cpp.Kv.Store.{MockStore, Rows}
use hands_on_sqldb_in_cpp.Kv.Store.Rows.{IsSorted}
use hands_on_sqldb_in_cpp.Kv.Engine.{buffer_op, Conn, put, commit_transaction}
use hands_on_sqldb_in_cpp.Kv.Engine.Limits.{write_put, total_size, AllOrdered, commit_succeeds_iff}
use hands_on_sqldb_in_cpp.Kv.Engine.Transaction.{visible, commit_publishes}
use hands_on_sqldb_in_cpp.Kv.Iterator.{MockIterator, new_iterator, collect}
use hands_on_sqldb_in_cpp.Kv.Iterator.Scan.{collect-new_iterator, rows_in}
use hands_on_sqldb_in_cpp.Kv.Engine.Connection.{
  buffer_ops-IsTracked, IsConsistent, puts, commits, step,
}
use hands_on_sqldb_in_cpp.Kv.Engine.Isolation.{step-IsConsistent, single_writer}

abbrev stored : MockStore
stored = record {
  rows = (1 ∷ [], 7 ∷ []) ∷ (3 ∷ [], 9 ∷ []) ∷ [];
  fail_writes = false;
  is_open = true;
  write_owner = some 1;
}

abbrev buffer : TxBuffer
buffer = TxBuffer.put (2 ∷ []) (8 ∷ []) fresh

-- A connection that writes in a transaction.
abbrev writer : Conn
writer = record {
  engine = record { owner = 1; tx = some buffer; snapshot = none; write_slot = true };
  store = stored;
}

-- The same connection before its first write, over rows that changed since.
abbrev reader : Conn
reader = record {
  engine = record { owner = 2; tx = some fresh; snapshot = some []; write_slot = false };
  store = stored;
}

-- A connection whose transaction is larger than a commit may be.
abbrev too_large : Conn
too_large = record {
  engine = record {
    owner = 1;
    tx = some (record buffer { bytes = 67108865 });
    snapshot = none;
    write_slot = true;
  };
  store = stored;
}

buffer-IsTracked : IsTracked buffer
buffer-IsTracked = put-IsTracked fresh fresh-IsTracked (2 ∷ []) (8 ∷ [])

stored-IsSorted : IsSorted stored.rows
unfolding bytes_lt
stored-IsSorted = ((refl, tt), (tt, tt))

writer-IsConsistent : IsConsistent writer
writer-IsConsistent = record {
  tracked = buffer-IsTracked;
  sorted = stored-IsSorted;
  outside = λ e. refl;
  reading = λ e. refl;
  owned = λ e. refl;
}

writer_commits : (commit_transaction writer).0 ≡ success
unfolding commit_transaction TxBuffer.exceeds TxBuffer.to_batch TxBuffer.put Store.write_batch
    Store.apply_batch_locked Store.valid_ops Store.valid_op
writer_commits = refl

too_large_fails : (commit_transaction too_large).0 ≡ invalid_argument
unfolding commit_transaction TxBuffer.exceeds
too_large_fails = refl

fresh_logs_nothing : (t : TxBuffer) → reader.tx ≡ some t → (TxBuffer.to_batch t).ops ≡ []
unfolding TxBuffer.to_batch
fresh_logs_nothing t e = ground arith

commit_publishes_example :
    ((k : Key) → find k (commit_transaction writer).1.store.rows ≡ visible writer k)
    × IsSorted (commit_transaction writer).1.store.rows
    × ((commit_transaction writer).1.tx ≡ none)
    × ((commit_transaction writer).1.snapshot ≡ none)
    × ((commit_transaction writer).1.write_slot ≡ false)
commit_publishes_example =
    commit_publishes writer buffer refl refl refl buffer-IsTracked stored-IsSorted writer_commits

commit_succeeds_iff_example : ((commit_transaction writer).0 ≡ success) ↔ (
    (total_size (make_put (2 ∷ []) (8 ∷ []) ∷ []) ≤ 67108864)
    × (stored.fail_writes ≡ false)
    × AllOrdered (make_put (2 ∷ []) (8 ∷ []) ∷ []))
unfolding buffer_op
commit_succeeds_iff_example =
    commit_succeeds_iff writer (make_put (2 ∷ []) (8 ∷ []) ∷ []) (write_put (2 ∷ []) (8 ∷ []), tt)
      refl refl

abbrev from_two : KeyRange
from_two = record { start = some (2 ∷ []); end = none; limit = 0; direction = forward }

collect-new_iterator_example :
    (it : MockIterator) × (new_iterator from_two stored ≡ some it)
    × (collect (suc (length it.rows)) it ≡ map some (rows_in from_two stored.rows))
collect-new_iterator_example = collect-new_iterator stored from_two refl stored-IsSorted refl

buffer_ops-IsTracked_example :
    IsTracked (
      foldl buffer_op fresh (make_put (2 ∷ []) (8 ∷ []) ∷ make_remove_range (1 ∷ []) (3 ∷ []) ∷ []))
buffer_ops-IsTracked_example =
    buffer_ops-IsTracked fresh
      (make_put (2 ∷ []) (8 ∷ []) ∷ make_remove_range (1 ∷ []) (3 ∷ []) ∷ []) fresh-IsTracked

step-IsConsistent_example : IsConsistent (step commits writer).1
step-IsConsistent_example = step-IsConsistent commits writer tt writer-IsConsistent

single_writer_example :
    ((step (puts (1 ∷ []) (5 ∷ [])) reader).1.store ≡ stored)
    × ((step (puts (1 ∷ []) (5 ∷ [])) reader).1.write_slot ≡ false)
single_writer_example =
    single_writer reader 1 refl refl refl fresh_logs_nothing (puts (1 ∷ []) (5 ∷ []))
