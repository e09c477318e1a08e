-- ===== src/Raft/KvSnapshot.antt =====
-- raft/kv_state_machine.cpp, `KVStateMachine::snapshot` and `restore`: how the rows of a key range
-- become the bytes of a snapshot, and replace the rows of another store. The messages of a failed
-- scan and of a failed write leave out the status that the source quotes.
pub mod Reading
pub mod Scans
pub mod Transfer
use hands_on_sqldb_in_cpp.Prelude.{
  ℕ, zero, suc, ◌==◌, not, Bool, true, false, ◌||◌, Option, none, some, List, [], ◌∷◌, ◌++◌, ltb,
  length, take, drop, foldl, String, if◌then◌else◌,
}
use hands_on_sqldb_in_cpp.Prelude.Order.{Bytes, bytes_lt, bytes_order, eqb}
use hands_on_sqldb_in_cpp.Kv.Batch.{
  Key, ByteValue, Status, success, not_found, KeyRange, forward, WriteBatch, empty_batch, batch_put,
  batch_remove, batch_remove_range,
}
use hands_on_sqldb_in_cpp.Kv.Store
use hands_on_sqldb_in_cpp.Kv.Store.{Rows, MockStore}
use hands_on_sqldb_in_cpp.Kv.Iterator.{
  MockIterator, is_forward, seek_to_first, valid, next, kvpair, new_iterator,
}
use hands_on_sqldb_in_cpp.Raft.Types.{Error, internal_error, Result, ok, err}
use hands_on_sqldb_in_cpp.Raft.Wire.{
  Reader, bind, ◌>>=◌, pure, reject, invalid, put_u32, put_u64, put_bytes, read_be, take_bytes,
}
use hands_on_sqldb_in_cpp.Raft.StateMachine.{KvStateMachine, kv_status_to_error}

-- "SQSN"
abbrev pub snapshot_magic : Bytes
snapshot_magic = 83 ∷ 81 ∷ 83 ∷ 78 ∷ []

abbrev pub snapshot_version : ℕ
snapshot_version = 1

abbrev pub header_size : ℕ
header_size = 16

abbrev internal : String → Error
internal message = record { code = internal_error; message = message }

-- `!range.start.has_value() || (range.end.has_value() && *range.end <= *range.start)`
abbrev pub bad_bounds : KeyRange → Bool
bad_bounds range = elim range.start [
  | none ↦ true
  | some start ↦ elim range.end [ none ↦ false | some end ↦ not (bytes_lt start end) ]
]

-- `status() != OK && status() != NotFound`
abbrev pub scan_failed : Status → Bool
scan_failed s = elim s [ success ↦ false | not_found ↦ false | _ ↦ true ]

-- `key()` and `value()`, which are empty where the iterator stands on no row.
abbrev pub row_at : Option (Key × ByteValue) → Key × ByteValue
row_at none = ([], [])
row_at (some row) = row

-- The loops over an iterator, on fuel: the rows, and the iterator at their end.
unfoldable pub drain : ℕ → MockIterator → Rows × MockIterator
drain zero it = ([], it)
drain (suc fuel) it = elim (valid it) [
  | true ↦ let rest = drain fuel (next it) in (row_at (kvpair it) ∷ rest.0, rest.1)
  | false ↦ ([], it)
]

unfoldable pub put_rows : Rows → Bytes
put_rows [] = []
put_rows ((key, value) ∷ rows) = put_bytes key ++ (put_bytes value ++ put_rows rows)

unfoldable pub snapshot_bytes : Rows → Bytes
snapshot_bytes rows =
    snapshot_magic ++ (put_u32 snapshot_version ++ (put_u64 (length rows) ++ put_rows rows))

abbrev pub after_scan : Rows × MockIterator → Result Bytes
after_scan (rows, it) =
    if scan_failed it.status
    then err (internal "raft snapshot scan failed")
    else ok (snapshot_bytes rows)

abbrev pub scan : Option MockIterator → Result Bytes
scan none = err (internal "failed to create raft snapshot iterator")
scan (some it) = after_scan (drain (suc (length it.rows)) (seek_to_first it))

unfoldable pub snapshot : KeyRange → KvStateMachine → Result Bytes
snapshot range m =
    if bad_bounds range
    then err (invalid "raft snapshots require a start bound and a non-empty key range")
    else if not (is_forward range.direction)
    then err (invalid "P0 raft snapshots require a forward key range")
    else scan (new_iterator range m.local)

abbrev truncated : Error
truncated = invalid "truncated raft snapshot"

unfoldable pub snapshot_u64 : Reader ℕ
snapshot_u64 = read_be 8 truncated

unfoldable pub snapshot_field : Reader Bytes
snapshot_field = snapshot_u64 >>= λ size. take_bytes size truncated

abbrev pub clear_scanned : Rows × MockIterator → WriteBatch → Result WriteBatch
clear_scanned (rows, it) batch =
    if scan_failed it.status
    then err (internal "raft snapshot clear scan failed")
    else ok (foldl (λ b row. batch_remove row.0 b) batch rows)

abbrev pub clear_each : Option MockIterator → WriteBatch → Result WriteBatch
clear_each none batch = err (internal "failed to create raft snapshot clear iterator")
clear_each (some it) batch = clear_scanned (drain (suc (length it.rows)) (seek_to_first it)) batch

-- The part of the batch that clears the range, once the bounds are checked, so that a start is there.
abbrev pub clear_from : KeyRange → MockStore → WriteBatch → Result WriteBatch
clear_from range local batch = elim range.end [
  | some end ↦ elim range.start [
    | some start ↦ ok (batch_remove_range start end batch)
    | none ↦ ok batch
  ]
  | none ↦ clear_each (new_iterator (record range { limit = 0; direction = forward }) local) batch
]

unfoldable pub clear_range : KeyRange → MockStore → Result WriteBatch
clear_range range local =
    if bad_bounds range
    then err (invalid "raft snapshot restore requires a start bound and a non-empty range")
    else if not (is_forward range.direction)
    then err (invalid "P0 raft snapshot restore requires a forward key range")
    else clear_from range local (record empty_batch { sync = true })

abbrev clear : KeyRange → MockStore → Reader WriteBatch
clear range local bytes = bind (clear_range range local) (λ batch. ok (batch, bytes))

unfoldable pub read_rows : ℕ → WriteBatch → Reader WriteBatch
read_rows zero batch = pure batch
read_rows (suc count) batch = do
  key ← snapshot_field
  value ← snapshot_field
  read_rows count (batch_put key value batch)

abbrev check_version : ℕ → Reader (Unit {0})
check_version version =
    if version == snapshot_version
    then pure tt
    else reject (invalid "unsupported raft snapshot version")

abbrev check_count : ℕ → ℕ → Reader (Unit {0})
check_count size count =
    if ltb size count then reject (invalid "invalid raft snapshot count") else pure tt

unfoldable pub read_snapshot : ℕ → KeyRange → MockStore → Reader WriteBatch
read_snapshot size range local = do
  version ← read_be 4 truncated
  checked ← check_version version
  count ← snapshot_u64
  checked ← check_count size count
  cleared ← clear range local
  read_rows count cleared

abbrev at_end : WriteBatch × Bytes → Result WriteBatch
at_end (batch, []) = ok batch
at_end (batch, b ∷ bytes) = err (invalid "trailing bytes in raft snapshot")

unfoldable pub restore_batch : KeyRange → MockStore → Bytes → Result WriteBatch
restore_batch range local bytes =
    if ltb (length bytes) header_size
      || not (eqb (take (length snapshot_magic) bytes) snapshot_magic)
    then err (invalid "invalid raft snapshot magic")
    else bind (read_snapshot (length bytes) range local (drop (length snapshot_magic) bytes)) at_end

abbrev pub after_restore : Status × MockStore → KvStateMachine → Result (Unit {0}) × KvStateMachine
after_restore (status, local) m = elim status [
  | success ↦ (ok tt, record m { local = local })
  | other ↦ (err (kv_status_to_error other), record m { local = local })
]

abbrev pub write_restored : Result WriteBatch → KvStateMachine → Result (Unit {0}) × KvStateMachine
write_restored (err e) m = (err e, m)
write_restored (ok batch) m = after_restore (Store.write_batch batch m.local) m

unfoldable pub restore : KeyRange → Bytes → KvStateMachine → Result (Unit {0}) × KvStateMachine
restore range bytes m = write_restored (restore_batch range m.local bytes) m

-- The overload of `restore` without a range.
unfoldable pub restore_without_range : Bytes → KvStateMachine → Result (Unit {0}) × KvStateMachine
restore_without_range bytes m =
    (err (invalid "KVStateMachine requires the group key range for snapshot restore"), m)
