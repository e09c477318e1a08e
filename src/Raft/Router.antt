-- ===== src/Raft/Router.antt =====
-- raft/group_router.h and group_router.cpp: which Raft group owns a key. The messages leave out
-- the keys and numbers that the source quotes in them.
pub mod Table
pub mod Ranges
pub mod Batches
pub mod Parse
use hands_on_sqldb_in_cpp.Prelude.{
  ℕ, zero, suc, ◌+◌, ◌*◌, ◌-◌, ◌%◌, ◌==◌, u64_mod, String, not, Bool, true, false, ◌||◌, ◌&&◌,
  Option, none, some, List, [], ◌∷◌, ◌++◌, ltb, leb, length, if◌then◌else◌,
}
use hands_on_sqldb_in_cpp.Prelude.Order.{Bytes, bytes_lt, bytes_order, eqb}
use hands_on_sqldb_in_cpp.Kv.Batch.{
  Key, KeyRange, forward, OpType, put_op, remove_op, remove_range_op, Op, WriteBatch,
}

pub record Range : Type 0 where
  pub start : Key
  pub end : Key
  pub group_id : ℕ

-- The ranges are sorted by their starts.
pub record GroupRouter : Type 0 where
  pub ranges : List Range

-- "@system/"
abbrev pub system_prefix : Key
system_prefix = 64 ∷ 115 ∷ 121 ∷ 115 ∷ 116 ∷ 101 ∷ 109 ∷ 47 ∷ []

unfoldable pub starts_with : Bytes → Bytes → Bool
starts_with [] bytes = true
starts_with (p ∷ prefix) [] = false
starts_with (p ∷ prefix) (b ∷ bytes) = (p == b) && starts_with prefix bytes

unfoldable pub is_system_key : Key → Bool
is_system_key key = starts_with system_prefix key

-- The insertion in front of the first range that starts behind `start`, which is where
-- `std::upper_bound` points.
unfoldable pub insert_range : Range → List Range → List Range
insert_range new [] = new ∷ []
insert_range new (r ∷ rs) =
    let rest = insert_range new rs in if bytes_lt new.start r.start then new ∷ r ∷ rs else r ∷ rest

unfoldable pub add_range : Key → Key → ℕ → GroupRouter → GroupRouter
add_range start end group_id router = record {
  ranges = insert_range (record { start = start; end = end; group_id = group_id }) router.ranges;
}

unfoldable pub contains : ℕ → Bytes → Bool
contains c [] = false
contains c (b ∷ bytes) = (c == b) || contains c bytes

abbrev pub overlaps : Option Range → Range → Bool
overlaps none range = false
overlaps (some previous) range = bytes_lt range.start previous.end

-- The body of the loop of `validate`: the problem with one range, behind the range before it and
-- with the groups of those before it.
unfoldable pub check_range : Option Range → List ℕ → Range → Option String
check_range previous data_groups range =
    if range.group_id == 0
    then some "raft shards: data range uses group 0 (reserved for @system/*)"
    else if contains range.group_id data_groups
    then some "raft shards: group appears more than once"
    else if not (bytes_lt range.start range.end)
    then some "raft shards: range is empty"
    else if contains 44 range.start
        || (contains 59 range.start || (contains 44 range.end || contains 59 range.end))
    then some "raft shards: keys must not contain ',' or ';'"
    else if is_system_key range.start
        || (bytes_lt range.start system_prefix && bytes_lt system_prefix range.end)
    then some "raft shards: range covers @system/* which is reserved for group 0"
    else if overlaps previous range
    then some "raft shards: ranges overlap"
    else none

-- The loop over the ids from `id` on.
unfoldable pub check_ids : ℕ → ℕ → List ℕ → Option String
check_ids zero id data_groups = none
check_ids (suc count) id data_groups =
    let rest = check_ids count (id + 1) data_groups in
    if contains id data_groups
    then rest
    else some "raft shards: group ids must be contiguous starting at 1"

-- The loop over the ranges, and then the one over the ids.
unfoldable pub check_ranges : ℕ → Option Range → List ℕ → List Range → Option String
check_ranges size previous data_groups [] = check_ids size 1 data_groups
check_ranges size previous data_groups (range ∷ ranges) =
    let rest = check_ranges size (some range) (range.group_id ∷ data_groups) ranges in
    elim (check_range previous data_groups range) [ some problem ↦ some problem | none ↦ rest ]

unfoldable pub validate : GroupRouter → Option String
validate router = check_ranges (length router.ranges) none [] router.ranges

-- The loop of `group_for`.
unfoldable pub lookup : List Range → Key → ℕ
lookup [] key = 0
lookup (range ∷ ranges) key =
    let rest = lookup ranges key in
    if bytes_lt key range.start then 0 else if bytes_lt key range.end then range.group_id else rest

unfoldable pub group_for : GroupRouter → Key → ℕ
group_for router key = if is_system_key key then 0 else lookup router.ranges key

abbrev pub before_end : Key → Option Key → Bool
before_end key none = true
before_end key (some end) = bytes_lt key end

-- The closure `crosses`.
unfoldable pub crosses : GroupRouter → Key → Option Key → Key → Bool
crosses router start end boundary =
    if not (bytes_lt start boundary)
    then false
    else if not (before_end boundary end)
    then false
    else not (group_for router boundary == group_for router start)

unfoldable pub any_crosses : GroupRouter → Key → Option Key → List Range → Bool
any_crosses router start end [] = false
any_crosses router start end (range ∷ ranges) =
    crosses router start end range.start
    || (crosses router start end range.end || any_crosses router start end ranges)

unfoldable pub range_group : GroupRouter → Key → Option Key → Option ℕ
range_group router start end =
    if not (before_end start end)
    then some (group_for router start)
    else if crosses router start end system_prefix
    then none
    else if any_crosses router start end router.ranges
    then none
    else some (group_for router start)

unfoldable pub op_group : GroupRouter → Op → Option ℕ
op_group router op = elim op.op_type [
  | remove_range_op ↦ range_group router op.pair.key (some op.range_end)
  | put_op ↦ some (group_for router op.pair.key)
  | remove_op ↦ some (group_for router op.pair.key)
]

abbrev pub differs : Option ℕ → ℕ → Bool
differs none g = false
differs (some group) g = not (group == g)

-- The loop of `batch_group`, with the group so far.
unfoldable pub ops_group : GroupRouter → Option ℕ → List Op → Option ℕ
ops_group router group [] = group
ops_group router group (op ∷ ops) = elim (op_group router op) [
  | none ↦ none
  | some g ↦ if differs group g then none else ops_group router (some g) ops
]

unfoldable pub batch_group : GroupRouter → WriteBatch → Option ℕ
batch_group router batch = ops_group router none batch.ops

unfoldable pub max_group : ℕ → List Range → ℕ
max_group group [] = group
max_group group (range ∷ ranges) =
    max_group (if ltb group range.group_id then range.group_id else group) ranges

unfoldable pub group_count : GroupRouter → ℕ
group_count router = (max_group 0 router.ranges + 1) % u64_mod

unfoldable pub find_group : ℕ → List Range → Option KeyRange
find_group group_id [] = none
find_group group_id (range ∷ ranges) =
    let rest = find_group group_id ranges in
    if range.group_id == group_id
    then some
        (record { start = some range.start; end = some range.end; limit = 0; direction = forward })
    else rest

unfoldable pub group_range : GroupRouter → ℕ → Option KeyRange
group_range router group_id = find_group group_id router.ranges
