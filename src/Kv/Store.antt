-- ===== src/Kv/Store.antt =====
-- storage/mock_engine/mock_engine.h and mock_engine.cpp, `MockStore`: the stored rows and the one
-- write slot. A connection is named by a number where the source has its address. Locks are left
-- out: each operation is one step. `ordered map` erasures are loops over the sorted list.
pub mod Rows
use hands_on_sqldb_in_cpp.Prelude.{
  ℕ, ◌≡◌, Bool, true, false, not, ◌&&◌, ◌||◌, ◌==◌, Option, none, some, List, [], ◌∷◌, ◌++◌, foldl,
  if◌then◌else◌,
}
use hands_on_sqldb_in_cpp.Prelude.Order.{bytes_lt, bytes_order, eqb}
use hands_on_sqldb_in_cpp.Prelude.Maps.{Map, find, assign}
use hands_on_sqldb_in_cpp.Kv.Batch.{
  Key, ByteValue, Status, success, not_found, already_exists, invalid_argument, io_error,
  internal_error, busy, Op, WriteBatch, OpType, put_op, remove_op, remove_range_op,
}

abbrev pub Rows : Type 0
Rows = Map Key ByteValue

pub record MockStore : Type 0 where
  pub rows : Rows
  pub fail_writes : Bool
  pub is_open : Bool
  pub write_owner : Option ℕ

unfoldable pub open_store : MockStore → Status × MockStore
open_store s = if s.is_open then (already_exists, s) else (success, record s { is_open = true })

unfoldable pub close : MockStore → Status × MockStore
close s =
    if s.is_open
    then (success, record s { is_open = false; write_owner = none })
    else (not_found, s)

-- `write_owner_ != nullptr && write_owner_ != owner`
abbrev pub held_by_other : Option ℕ → ℕ → Bool
held_by_other none owner = false
held_by_other (some other) owner = not (other == owner)

abbrev pub held_by : Option ℕ → ℕ → Bool
held_by none owner = false
held_by (some other) owner = other == owner

unfoldable pub acquire_slot : ℕ → MockStore → Status × MockStore
acquire_slot owner s =
    if not s.is_open
    then (internal_error, s)
    else if held_by_other s.write_owner owner
    then (busy, s)
    else (success, record s { write_owner = some owner })

unfoldable pub release_slot : ℕ → MockStore → Status × MockStore
release_slot owner s =
    if held_by s.write_owner owner
    then (success, record s { write_owner = none })
    else (not_found, s)

abbrev pub found : Option ByteValue → Status × Option ByteValue
found none = (not_found, none)
found (some v) = (success, some v)

-- The second part is what is written to `*value`.
unfoldable pub get : Key → MockStore → Status × Option ByteValue
get key s = if not s.is_open then (internal_error, none) else found (find key s.rows)

unfoldable pub put : Key → ByteValue → MockStore → Status × MockStore
put key value s =
    if not s.is_open
    then (internal_error, s)
    else (success, record s { rows = assign key value s.rows })

-- `data_.erase(key)`
unfoldable pub erase : Key → Rows → Rows
erase key [] = []
erase key ((j, w) ∷ m) = let rest = erase key m in if eqb j key then m else (j, w) ∷ rest

unfoldable pub remove : Key → MockStore → Status × MockStore
remove key s = if not s.is_open then (internal_error, s) else elim (find key s.rows) [
  | none ↦ (not_found, s)
  | some v ↦ (success, record s { rows = erase key s.rows })
]

unfoldable pub exists : Key → MockStore → Bool
exists key s =
    if not s.is_open then false else elim (find key s.rows) [ none ↦ false | some v ↦ true ]

-- The first pass of `apply_batch_locked`: whether no operation is refused.
unfoldable pub valid_op : Op → Bool
valid_op op = elim op.op_type [
  | put_op ↦ elim op.pair.value [ none ↦ false | some v ↦ true ]
  | remove_range_op ↦ bytes_lt op.pair.key op.range_end
  | remove_op ↦ true
]

unfoldable pub valid_ops : List Op → Bool
valid_ops [] = true
valid_ops (op ∷ ops) = valid_op op && valid_ops ops

-- The erasing loop from an iterator on, while the key lies below `end`.
unfoldable pub erase_below : Key → Rows → Rows
erase_below end [] = []
erase_below end ((j, w) ∷ m) =
    let rest = erase_below end m in if bytes_lt j end then rest else (j, w) ∷ m

-- The loop started at `lower_bound(begin)`, the first key that is not below `begin`.
unfoldable pub erase_range : Key → Key → Rows → Rows
unfolding erase_below
erase_range begin end [] = []
erase_range begin end ((j, w) ∷ m) =
    let rest = erase_range begin end m in
    if bytes_lt j begin then (j, w) ∷ rest else erase_below end ((j, w) ∷ m)

-- One round of the second pass; a put has its value there, since the first pass went through.
unfoldable pub apply_op : Rows → Op → Rows
apply_op m op = elim op.op_type [
  | put_op ↦ elim op.pair.value [ none ↦ m | some v ↦ assign op.pair.key v m ]
  | remove_op ↦ erase op.pair.key m
  | remove_range_op ↦ erase_range op.pair.key op.range_end m
]

unfoldable pub apply_batch_locked : WriteBatch → MockStore → Status × MockStore
apply_batch_locked batch s =
    if s.fail_writes
    then (io_error, s)
    else if not (valid_ops batch.ops)
    then (invalid_argument, s)
    else (success, record s { rows = foldl apply_op s.rows batch.ops })

unfoldable pub write_batch : WriteBatch → MockStore → Status × MockStore
write_batch batch s = if not s.is_open then (internal_error, s) else apply_batch_locked batch s
