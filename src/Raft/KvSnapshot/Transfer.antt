-- ===== src/Raft/KvSnapshot/Transfer.antt =====
-- A snapshot of a range of one store, restored into another store.
use hands_on_sqldb_in_cpp.Prelude.{
  ◌<◌, ◌≡◌, refl, sym, ap, ◌∙◌, Bool, true, false, Option, none, some, List, [], ◌∷◌, map, arith,
  length, foldl, u64_mod, if◌then◌else◌,
}
use hands_on_sqldb_in_cpp.Prelude.Order.{Bytes, bytes_lt, bytes_order, eqb, bytes_lt_irrefl, eqb→eq}
use hands_on_sqldb_in_cpp.Prelude.Maps.{find}
use hands_on_sqldb_in_cpp.Kv.Batch.{
  Key, ByteValue, KeyRange, forward, WriteBatch, make_remove_range, in_range, effects, effect, Op,
}
use hands_on_sqldb_in_cpp.Kv.Store.{Rows, valid_op, valid_ops, apply_op}
use hands_on_sqldb_in_cpp.Kv.Iterator.Scan.{rows_in, rows_in-IsSorted, find-rows_in}
use hands_on_sqldb_in_cpp.Kv.Store.Rows.{IsSorted, find-Above, find-foldl-apply_op}
use hands_on_sqldb_in_cpp.Raft.Types.{ok}
use hands_on_sqldb_in_cpp.Raft.StateMachine.{KvStateMachine}
use hands_on_sqldb_in_cpp.Raft.KvSnapshot.{snapshot_bytes, restore_batch, snapshot, restore}
use hands_on_sqldb_in_cpp.Kv.Iterator.{contains}
use hands_on_sqldb_in_cpp.Raft.StateMachine.Encoded.{write_batch-rows}
use hands_on_sqldb_in_cpp.Raft.KvSnapshot.Scans.{snapshot_lem}
use hands_on_sqldb_in_cpp.Raft.KvSnapshot.Reading.{AllShort, put_row, restore_batch-snapshot_bytes}

abbrev over : Option ByteValue → Option ByteValue → Option ByteValue
over none d = d
over (some v) d = some v

effects-put_rows :
    (k : Key) (d : Option ByteValue) (rows : Rows)
    → IsSorted rows
    → effects k d (map put_row rows) ≡ over (find k rows) d
unfolding effects effect find
effects-put_rows k d [] s = refl
effects-put_rows k d ((j, v) ∷ rows) s =
    let below : eqb j k ≡ true → bytes_lt j k ≡ false =
      λ e. ap (bytes_lt j) (sym (eqb→eq j k e)) ∙ bytes_lt_irrefl j in
    ground (
      arith,
      effects-put_rows k (if eqb j k then some v else d) rows s.1,
      find-Above k j rows s.0,
      below,
    )

valid_ops-put_rows : (rows : Rows) → valid_ops (map put_row rows) ≡ true
unfolding valid_ops valid_op
valid_ops-put_rows [] = refl
valid_ops-put_rows (row ∷ rows) = valid_ops-put_rows rows

contains-in_range :
    (range : KeyRange) (start end k : Key)
    → range.start ≡ some start
    → range.end ≡ some end
    → in_range start end k ≡ contains range k
unfolding contains
contains-in_range range start end k s e = rw (s, e) (ground arith)

over-split :
    (b : Bool) (found d : Option ByteValue)
    → over (if b then found else none) (if b then none else d) ≡ (if b then found else d)
over-split true none d = refl
over-split true (some v) d = refl
over-split false found d = refl

effects-clear :
    (k : Key) (d : Option ByteValue) (start end : Key) (ops : List Op)
    → effects k d (make_remove_range start end ∷ ops)
      ≡ effects k (if in_range start end k then none else d) ops
unfolding effects effect
effects-clear k d start end ops = refl

transferred :
    (k : Key) (d : Option ByteValue) (range : KeyRange) (start end : Key) (rows : Rows)
    → range.start ≡ some start
    → range.end ≡ some end
    → IsSorted rows
    → effects k d (make_remove_range start end ∷ map put_row (rows_in range rows))
      ≡ (if contains range k then find k rows else d)
transferred k d range start end rows s e sorted =
    let d' = if contains range k then none else d in
    rw
      (
        effects-clear k d start end (map put_row (rows_in range rows)),
        contains-in_range range start end k s e,
      )
      (effects-put_rows k d' (rows_in range rows) (rows_in-IsSorted range rows sorted)
        ∙ rw (find-rows_in range k rows) (over-split (contains range k) (find k rows) d))

valid_ops-restored :
    (start end : Key) (rows : Rows)
    → bytes_lt start end ≡ true
    → valid_ops (make_remove_range start end ∷ map put_row rows) ≡ true
unfolding valid_ops valid_op
valid_ops-restored start end rows l = rw l (valid_ops-put_rows rows)

-- The restored store, once the batch is known.
restore-batch :
    (range : KeyRange) (bytes : Bytes) (n : KvStateMachine) (batch : WriteBatch)
    → restore_batch range n.local bytes ≡ ok batch
    → n.local.is_open ≡ true
    → n.local.fail_writes ≡ false
    → valid_ops batch.ops ≡ true
    → restore range bytes n ≡ (
      ok tt,
      record n { local = record n.local { rows = foldl apply_op n.local.rows batch.ops } },
    )
unfolding restore
restore-batch range bytes n batch e o w v = rw (e, write_batch-rows batch n.local o w v) refl

-- A snapshot of a forward range with a start before its end, taken of an open store with sorted
-- rows, and restored with the same range into an open store with sorted rows in which no write
-- fails: both succeed, and then a key in the range reads as in the first store, any other key as the
-- second store read it before. The number of rows in the range and the lengths of their keys and
-- values are 64 bits wide.
pub restore-snapshot :
    (range : KeyRange) (start end : Key) (m n : KvStateMachine) (k : Key)
    → range.start ≡ some start
    → range.end ≡ some end
    → bytes_lt start end ≡ true
    → range.direction ≡ forward
    → m.local.is_open ≡ true
    → IsSorted m.local.rows
    → length (rows_in range m.local.rows) < u64_mod
    → AllShort (rows_in range m.local.rows)
    → n.local.is_open ≡ true
    → n.local.fail_writes ≡ false
    → IsSorted n.local.rows
    → (bytes : Bytes) × (snapshot range m ≡ ok bytes)
      × ((restore range bytes n).0 ≡ ok tt)
      × (find k (restore range bytes n).1.local.rows
          ≡ (if contains range k then find k m.local.rows else find k n.local.rows))
restore-snapshot range start end m n k s e l d open_m sorted_m count short open_n works sorted_n =
    let rows = rows_in range m.local.rows in
    let batch : WriteBatch = record {
      ops = make_remove_range start end ∷ map put_row rows;
      sync = true;
    } in
    let batch-valid : valid_ops batch.ops ≡ true = valid_ops-restored start end rows l in
    let run =
      restore-batch range (snapshot_bytes rows) n batch
        (restore_batch-snapshot_bytes rows range start end n.local s e l d count short) open_n works
        batch-valid in
    (
      snapshot_bytes rows,
      snapshot_lem range m open_m sorted_m (rw (s, e, l) refl) d,
      rw run refl,
      rw run (
          find-foldl-apply_op k n.local.rows batch.ops sorted_n batch-valid
          ∙ transferred k (find k n.local.rows) range start end m.local.rows s e sorted_m),
    )
