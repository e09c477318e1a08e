-- ===== src/Sql/KeyRange.antt =====
-- sql_types/key_range.h and key_range.cpp: an interval of the keys of a column, with the place of
-- NULL in it, and its set operations. An overflow of the int64 arithmetic wraps around.
pub mod Operations
pub mod Bounds
pub mod Scan
pub mod Sets
pub mod Difference
use hands_on_sqldb_in_cpp.Prelude.{
  ℕ, ◌+◌, ◌-◌, ◌%◌, ◌==◌, Bool, true, false, not, ◌||◌, ◌&&◌, Option, none, some, List, [], ◌∷◌,
  u64_mod, if◌then◌else◌,
}
use hands_on_sqldb_in_cpp.Prelude.Order.{bytes_lt, bytes_order, eqb}
use hands_on_sqldb_in_cpp.Sql.Int64.{ℤ, pos, negsuc, ltz, eqz, to_u64, from_u64}
use hands_on_sqldb_in_cpp.Sql.Types.{
  DataType, unknown_type, Value, null_value, int_value, bool_value, string_value, type_of, is_null,
  is_integer, same_type, value_equal,
}
use hands_on_sqldb_in_cpp.Sql.Key.{
  Key, to_key, inclusive_upper_bound, min_key_for_type, upper_key_for_type,
}

pub data NullScope : Type 0 where
  include exclude only : NullScope

pub record StrKeyRange : Type 0 where
  pub start : Key
  pub end : Key

unfoldable pub str_is_empty : StrKeyRange → Bool
str_is_empty r = not (bytes_lt r.start r.end)

pub record KeyRange : Type 0 where
  pub type : DataType
  pub low : Option Value
  pub high : Option Value
  pub low_exclusive : Bool
  pub high_inclusive : Bool

-- `x && x->is_null()`
abbrev pub is_null_bound : Option Value → Bool
is_null_bound none = false
is_null_bound (some v) = is_null v

unfoldable pub normalize : KeyRange → KeyRange
normalize r = if is_null_bound r.low && not r.low_exclusive then record r { low = none } else r

-- The private constructor.
unfoldable pub all : DataType → KeyRange
all type = record {
  type = type;
  low = none;
  high = none;
  low_exclusive = false;
  high_inclusive = false;
}

unfoldable pub non_null : DataType → KeyRange
unfolding all
non_null type = record (all type) { low = some null_value; low_exclusive = true }

unfoldable pub null_only : DataType → KeyRange
unfolding all normalize
null_only type = normalize (record (all type) { high = some null_value; high_inclusive = true })

unfoldable pub empty : DataType → KeyRange
unfolding all
empty type = record (all type) {
  low = some null_value;
  high = some null_value;
  low_exclusive = true;
  high_inclusive = false;
}

unfoldable pub from : Value → KeyRange
unfolding all
from start =
    if is_null start then all unknown_type else record (all (type_of start)) { low = some start }

unfoldable pub to : Value → KeyRange
unfolding all empty
to end = if is_null end then empty unknown_type else record (all (type_of end)) { high = some end }

unfoldable pub gt : Value → KeyRange
unfolding empty from
gt v = if is_null v then empty unknown_type else record (from v) { low_exclusive = true }

unfoldable pub ge : Value → KeyRange
unfolding empty from
ge v = if is_null v then empty unknown_type else from v

unfoldable pub lt : Value → KeyRange
unfolding empty non_null
lt v =
    if is_null v
    then empty unknown_type
    else record (non_null (type_of v)) { high = some v; high_inclusive = false }

unfoldable pub le : Value → KeyRange
unfolding empty non_null
le v =
    if is_null v
    then empty unknown_type
    else record (non_null (type_of v)) { high = some v; high_inclusive = true }

unfoldable pub range : Value → Value → KeyRange
unfolding all normalize
range start end = normalize (record (all (if is_null start then type_of end else type_of start)) {
  low = some start;
  high = some end;
})

unfoldable pub closed : Value → Value → KeyRange
unfolding all empty
closed low high =
    if is_null low || is_null high
    then empty unknown_type
    else record (all (type_of low)) { low = some low; high = some high; high_inclusive = true }

unfoldable pub point : Value → KeyRange
unfolding empty closed
point v = if is_null v then empty unknown_type else closed v v

unfoldable pub eq : Value → DataType → KeyRange
unfolding null_only point
eq v type = if is_null v then null_only type else point v

abbrev pub after_if : Bool → Key → Key
after_if inclusive k = if inclusive then inclusive_upper_bound k else k

abbrev pub non_empty_key : Bool → Key → Option Key
non_empty_key inclusive [] = none
non_empty_key inclusive (b ∷ k) = some (after_if inclusive (b ∷ k))

-- The key of a bound, which `low_key` and `high_key` compute alike: the key behind it, if the flag
-- says so.
abbrev pub bound_key : DataType → Option Value → Bool → Option Key
bound_key type none behind = none
bound_key type (some v) behind =
    if is_null v
    then some (after_if behind (min_key_for_type type))
    else non_empty_key behind (to_key v)

unfoldable pub low_key : KeyRange → Option Key
low_key r = bound_key r.type r.low r.low_exclusive

unfoldable pub high_key : KeyRange → Option Key
high_key r = bound_key r.type r.high r.high_inclusive

-- Whether both keys are there, the first below the second.
abbrev pub both_less : Option Key → Option Key → Bool
both_less none b = false
both_less (some a) none = false
both_less (some a) (some b) = bytes_lt a b

-- Whether both keys are there, the first not below the second.
abbrev pub both_not_less : Option Key → Option Key → Bool
both_not_less none b = false
both_not_less (some a) none = false
both_not_less (some a) (some b) = not (bytes_lt a b)

abbrev pub both_equal : Option Key → Option Key → Bool
both_equal none b = false
both_equal (some a) none = false
both_equal (some a) (some b) = eqb a b

unfoldable pub is_empty : KeyRange → Bool
unfolding low_key high_key
is_empty r =
    if is_null_bound r.high && not r.high_inclusive
    then true
    else both_not_less (low_key r) (high_key r)

abbrev pub is_some : Option Value → Bool
is_some none = false
is_some (some v) = true

unfoldable pub is_all : KeyRange → Bool
is_all r = not (is_some r.low) && not (is_some r.high)

unfoldable pub is_bounded : KeyRange → Bool
unfolding low_key high_key
is_bounded r = both_less (low_key r) (high_key r)

unfoldable pub is_half : KeyRange → Bool
unfolding is_all
is_half r = not (is_all r) && (not (is_some r.low) || not (is_some r.high))

-- What the two bounds say of NULL.
abbrev pub low_ok : KeyRange → Bool
low_ok r = not (is_some r.low) || (is_null_bound r.low && not r.low_exclusive)

abbrev pub high_ok : KeyRange → Bool
high_ok r = not (is_some r.high) || (not (is_null_bound r.high) || r.high_inclusive)

unfoldable pub null_scope : KeyRange → NullScope
unfolding is_empty
null_scope r =
    if is_empty r
    then exclude
    else if not (low_ok r && high_ok r)
    then exclude
    else if is_null_bound r.high && r.high_inclusive
    then only
    else include

unfoldable pub includes_null : KeyRange → Bool
unfolding null_scope
includes_null r = elim (null_scope r) [ include ↦ true | exclude ↦ false | only ↦ true ]

abbrev pub is_int : Option Value → Bool
is_int none = false
is_int (some v) = is_integer (type_of v)

-- Zero where the value holds no number; the source asks only where it does.
abbrev pub as_int : Option Value → ℤ
as_int none = pos 0
as_int (some v) = elim v [ int_value d n ↦ n | _ ↦ pos 0 ]

abbrev pub plus64 : ℤ → ℤ → ℤ
plus64 a b = from_u64 ((to_u64 a + to_u64 b) % u64_mod)

abbrev pub minus64 : ℤ → ℤ → ℤ
minus64 a b = from_u64 ((to_u64 a + (u64_mod - to_u64 b)) % u64_mod)

abbrev pub same_bounds : Option Value → Option Value → Bool
same_bounds none b = false
same_bounds (some a) none = false
same_bounds (some a) (some b) = value_equal a b

unfoldable pub is_point : KeyRange → Bool
unfolding is_empty
is_point r =
    if is_empty r
    then false
    else if not r.high_inclusive && (not r.low_exclusive && (is_int r.low && is_int r.high))
    then eqz (minus64 (as_int r.high) (as_int r.low)) (pos 1)
    else if r.high_inclusive && (not r.low_exclusive && (is_some r.low && is_some r.high))
    then same_bounds r.low r.high
    else not (is_some r.low) && (is_null_bound r.high && r.high_inclusive)

unfoldable pub size : KeyRange → Option ℤ
unfolding is_bounded
size r =
    let width = minus64 (as_int r.high) (as_int r.low) in
    let with_high = if r.high_inclusive then plus64 width (pos 1) else width in
    let count = if r.low_exclusive then plus64 with_high (negsuc 0) else with_high in
    if not (is_int r.low && is_int r.high)
    then none
    else if not (is_bounded r)
    then none
    else if ltz (pos 0) count
    then some count
    else none

abbrev pub or_null_value : Option Value → Value
or_null_value none = null_value
or_null_value (some v) = v

unfoldable pub point_value : KeyRange → Value
unfolding is_point
point_value r =
    if not (is_point r)
    then null_value
    else if is_some r.low
    then or_null_value (if r.low_exclusive then r.high else r.low)
    else or_null_value r.high
