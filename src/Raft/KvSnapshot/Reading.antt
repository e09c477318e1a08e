-- ===== src/Raft/KvSnapshot/Reading.antt =====
-- The bytes of a snapshot, read back by `restore` into a batch.
use mathlib.Core.List.{append_assoc, append-nil}
use hands_on_sqldb_in_cpp.Prelude.{
  ℕ, ◌+◌, ◌<◌, ◌≤◌, ◌≡◌, refl, true, false, some, [], ◌∷◌, ◌++◌, map, arith, length, length-append,
  ltb, u64_mod,
}
use hands_on_sqldb_in_cpp.Prelude.Order.{Bytes, bytes_lt, eqb}
use hands_on_sqldb_in_cpp.Kv.Batch.{
  Key, ByteValue, KeyRange, forward, WriteBatch, make_put, make_remove_range, batch_put,
  batch_remove_range, Op,
}
use hands_on_sqldb_in_cpp.Kv.Store.{Rows, MockStore}
use hands_on_sqldb_in_cpp.Kv.Iterator.{is_forward}
use hands_on_sqldb_in_cpp.Raft.Types.{ok}
use hands_on_sqldb_in_cpp.Raft.Wire.{put_be, put_u32, put_u64, put_bytes}
use hands_on_sqldb_in_cpp.Raft.Wire.Numbers.{
  read_be-four, read_be-eight, take_bytes-append, length-put_u64,
}
use hands_on_sqldb_in_cpp.Raft.KvSnapshot.{
  snapshot_magic, snapshot_version, put_rows, snapshot_bytes, snapshot_u64, snapshot_field,
  read_rows, read_snapshot, clear_range, restore_batch,
}

snapshot_u64-put_u64 :
    (v : ℕ) (rest : Bytes) → v < u64_mod → snapshot_u64 (put_u64 v ++ rest) ≡ ok (v, rest)
unfolding snapshot_u64 put_u64
snapshot_u64-put_u64 v rest = read_be-eight v _ rest

snapshot_field-put_bytes :
    (value rest : Bytes)
    → length value < u64_mod
    → snapshot_field (put_bytes value ++ rest) ≡ ok (value, rest)
unfolding snapshot_field put_bytes
snapshot_field-put_bytes value rest h =
    rw
      (
        append_assoc (put_u64 (length value)) value rest,
        snapshot_u64-put_u64 (length value) (value ++ rest) h,
      )
      (take_bytes-append value _ rest)

-- Keys and values whose lengths are 64 bits wide.
abbrev pub AllShort : Rows → Type 0
AllShort [] = Unit {0}
AllShort (row ∷ rows) = (length row.0 < u64_mod) × (length row.1 < u64_mod) × AllShort rows

abbrev pub put_row : Key × ByteValue → Op
put_row row = make_put row.0 row.1

read_rows-put_rows :
    (rows : Rows) (batch : WriteBatch)
    → AllShort rows
    → read_rows (length rows) batch (put_rows rows)
      ≡ ok (record batch { ops = batch.ops ++ map put_row rows }, [])
unfolding read_rows put_rows batch_put
read_rows-put_rows [] batch s = rw (append-nil batch.ops) refl
read_rows-put_rows ((key, value) ∷ rows) batch (h, k, s) =
    rw
      (
        snapshot_field-put_bytes key (put_bytes value ++ put_rows rows) h,
        snapshot_field-put_bytes value (put_rows rows) k,
        read_rows-put_rows rows (record batch { ops = batch.ops ++ make_put key value ∷ [] }) s,
        append_assoc batch.ops (make_put key value ∷ []) (map put_row rows),
      )
      refl

length-put_rows : (rows : Rows) → length rows ≤ length (put_rows rows)
unfolding put_rows put_bytes
length-put_rows [] = omega arith
length-put_rows ((key, value) ∷ rows) = omega (
  arith,
  length-append (put_bytes key) (put_bytes value ++ put_rows rows),
  length-append (put_bytes value) (put_rows rows),
  length-append (put_u64 (length value)) value,
  length-put_u64 (length value),
  length-put_rows rows,
)

length-snapshot :
    (rows : Rows)
    → 12 + length rows
      ≤ length (put_u32 snapshot_version ++ (put_u64 (length rows) ++ put_rows rows))
unfolding put_u32 put_be
length-snapshot rows = omega (
  arith,
  length-append (put_u64 (length rows)) (put_rows rows),
  length-put_u64 (length rows),
  length-put_rows rows,
)

-- Between a start and an end, one operation clears the range.
clear_range-bounded :
    (range : KeyRange) (start end : Key) (local : MockStore)
    → range.start ≡ some start
    → range.end ≡ some end
    → bytes_lt start end ≡ true
    → range.direction ≡ forward
    → clear_range range local ≡ ok (record { ops = make_remove_range start end ∷ []; sync = true })
unfolding clear_range batch_remove_range
clear_range-bounded range start end local s e l d =
    let f : is_forward range.direction ≡ true = rw d refl in rw (f, s, e, l) refl

read_snapshot-rows :
    (rows : Rows) (size : ℕ) (range : KeyRange) (local : MockStore) (cleared : WriteBatch)
    → length rows < u64_mod
    → AllShort rows
    → length rows ≤ size
    → clear_range range local ≡ ok cleared
    → read_snapshot size range local
        (put_u32 snapshot_version ++ (put_u64 (length rows) ++ put_rows rows))
      ≡ ok (record cleared { ops = cleared.ops ++ map put_row rows }, [])
unfolding read_snapshot put_u32
read_snapshot-rows rows size range local cleared h s m c =
    let small : ltb size (length rows) ≡ false = ground (arith, m) in
    rw
      (
        read_be-four snapshot_version _ (put_u64 (length rows) ++ put_rows rows) (omega arith),
        snapshot_u64-put_u64 (length rows) (put_rows rows) h,
        small,
        c,
        read_rows-put_rows rows cleared s,
      )
      refl

restore_batch-magic :
    (range : KeyRange) (local : MockStore) (batch : WriteBatch) (rest : Bytes)
    → 12 ≤ length rest
    → read_snapshot (4 + length rest) range local rest ≡ ok (batch, [])
    → restore_batch range local (snapshot_magic ++ rest) ≡ ok batch
unfolding restore_batch eqb bytes_lt
restore_batch-magic range local batch rest h k = ground (arith, h, k)

pub restore_batch-snapshot_bytes :
    (rows : Rows) (range : KeyRange) (start end : Key) (local : MockStore)
    → range.start ≡ some start
    → range.end ≡ some end
    → bytes_lt start end ≡ true
    → range.direction ≡ forward
    → length rows < u64_mod
    → AllShort rows
    → restore_batch range local (snapshot_bytes rows)
      ≡ ok (record { ops = make_remove_range start end ∷ map put_row rows; sync = true })
unfolding snapshot_bytes
restore_batch-snapshot_bytes rows range start end local s e l d h short =
    let rest = put_u32 snapshot_version ++ (put_u64 (length rows) ++ put_rows rows) in
    let sizes = length-snapshot rows in
    restore_batch-magic range local
      (record { ops = make_remove_range start end ∷ map put_row rows; sync = true }) rest
      (omega (arith, sizes))
      (read_snapshot-rows rows (4 + length rest) range local
        (record { ops = make_remove_range start end ∷ []; sync = true }) h short
        (omega (arith, sizes)) (clear_range-bounded range start end local s e l d))
