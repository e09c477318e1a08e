-- ===== src/Kv/Iterator.antt =====
-- storage/mock_engine/mock_engine.cpp, `MockIterator` and `materialize`: a scan of a range over a
-- copy of the rows, in one of two directions. The error message of the source, which only repeats
-- the status, is left out.
pub mod Scan
use hands_on_sqldb_in_cpp.Prelude.{
  ℕ, zero, suc, ◌+◌, ◌-◌, Bool, true, false, not, ◌&&◌, ◌||◌, ◌==◌, Option, none, some, List, [],
  ◌∷◌, ltb, leb, length, get_elem?, if◌then◌else◌,
}
use hands_on_sqldb_in_cpp.Prelude.Order.{bytes_lt}
use hands_on_sqldb_in_cpp.Kv.Batch.{
  Key, ByteValue, Status, success, not_found, KeyRange, ScanDirection, forward, reverse,
}
use hands_on_sqldb_in_cpp.Kv.Store.{Rows, MockStore}

pub record MockIterator : Type 0 where
  pub rows : Rows
  pub range : KeyRange
  pub index : ℕ
  pub status : Status

-- `range.start && key < *range.start`
abbrev pub before_start : KeyRange → Key → Bool
before_start range key = elim range.start [ none ↦ false | some start ↦ bytes_lt key start ]

-- `range.end && key >= *range.end`
abbrev pub past_end : KeyRange → Key → Bool
past_end range key = elim range.end [ none ↦ false | some end ↦ not (bytes_lt key end) ]

-- The rows before the end of the range.
unfoldable pub until_end : KeyRange → Rows → Rows
until_end range [] = []
until_end range ((key, value) ∷ rows) =
    let rest = until_end range rows in if past_end range key then [] else (key, value) ∷ rest

-- The loop starts at the lower bound of the range's start.
unfoldable pub materialize : Rows → KeyRange → Rows
unfolding until_end
materialize [] range = []
materialize ((key, value) ∷ rows) range =
    let rest = materialize rows range in
    if before_start range key then rest else until_end range ((key, value) ∷ rows)

-- On sorted rows the binary searches of the source give the positions of these two loops.
unfoldable pub lower_bound_index : Rows → Key → ℕ
lower_bound_index [] key = 0
lower_bound_index ((k, v) ∷ rows) key =
    let rest = lower_bound_index rows key in if bytes_lt k key then suc rest else 0

unfoldable pub upper_bound_index : Rows → Key → ℕ
upper_bound_index [] key = 0
upper_bound_index ((k, v) ∷ rows) key =
    let rest = upper_bound_index rows key in if bytes_lt key k then 0 else suc rest

abbrev pub is_forward : ScanDirection → Bool
is_forward d = elim d [ forward ↦ true | reverse ↦ false ]

-- `KeyRange::contains` of storage/kv_engine/kv_engine.h.
unfoldable pub contains : KeyRange → Key → Bool
contains range key = not (before_start range key) && not (past_end range key)

abbrev pub row_in_range : KeyRange → Option (Key × ByteValue) → Bool
row_in_range range none = false
row_in_range range (some row) = contains range row.0

unfoldable pub in_range : ℕ → MockIterator → Bool
unfolding contains
in_range index it = row_in_range it.range (get_elem? it.rows index)

unfoldable pub update_status : MockIterator → MockIterator
unfolding in_range
update_status it = record it { status = if in_range it.index it then success else not_found }

unfoldable pub move_to : ℕ → MockIterator → MockIterator
unfolding update_status
move_to index it = update_status (record it { index = index })

-- In the direction of the scan the first row, and the last; 0 without rows.
unfoldable pub seek_to_first : MockIterator → MockIterator
unfolding move_to
seek_to_first it = move_to (if is_forward it.range.direction then 0 else length it.rows - 1) it

unfoldable pub seek_to_last : MockIterator → MockIterator
unfolding move_to
seek_to_last it = move_to (if is_forward it.range.direction then length it.rows - 1 else 0) it

abbrev pub clamp : KeyRange → Key → Key
clamp range key = elim range.start [
  | none ↦ key
  | some start ↦ if bytes_lt key start then start else key
]

unfoldable pub seek : Key → MockIterator → MockIterator
unfolding move_to lower_bound_index upper_bound_index
seek key it =
    if is_forward it.range.direction
    then move_to (lower_bound_index it.rows (clamp it.range key)) it
    else let after = upper_bound_index it.rows key in
      move_to (if after == 0 then length it.rows else after - 1) it

abbrev pub status_is_ok : Status → Bool
status_is_ok s = elim s [ success ↦ true | _ ↦ false ]

unfoldable pub valid : MockIterator → Bool
unfolding in_range
valid it = status_is_ok it.status && in_range it.index it

-- `index_ == 0 ? rows_.size() : index_ - 1`
abbrev pub step_back : MockIterator → ℕ
step_back it = if it.index == 0 then length it.rows else it.index - 1

unfoldable pub next : MockIterator → MockIterator
unfolding valid move_to
next it =
    if valid it
    then move_to (if is_forward it.range.direction then it.index + 1 else step_back it) it
    else it

unfoldable pub prev : MockIterator → MockIterator
unfolding valid move_to
prev it =
    if valid it
    then move_to (if is_forward it.range.direction then step_back it else it.index + 1) it
    else it

-- `kvpair`, which `key` and `value` read.
unfoldable pub kvpair : MockIterator → Option (Key × ByteValue)
unfolding valid
kvpair it = if valid it then get_elem? it.rows it.index else none

unfoldable pub make : Rows → KeyRange → MockIterator
unfolding seek_to_first
make rows range = seek_to_first (record { rows = rows; range = range; index = 0; status = success })

-- `MockStore::new_iterator`; no iterator on a closed store.
unfoldable pub new_iterator : KeyRange → MockStore → Option MockIterator
unfolding materialize make
new_iterator range s = if not s.is_open then none else some (make (materialize s.rows range) range)

-- `Iterator::collect(0)` of storage/kv_engine/kv_engine.h: the loop, on fuel.
unfoldable pub collect : ℕ → MockIterator → List (Option (Key × ByteValue))
unfolding valid kvpair next
collect zero it = []
collect (suc fuel) it = elim (valid it) [ true ↦ kvpair it ∷ collect fuel (next it) | false ↦ [] ]
