-- ===== src/Sql/Truth.antt =====
-- sql_types/sql_truth.h and compare_op.cpp: the three truth values, and the comparison of values.
pub mod Negation
use hands_on_sqldb_in_cpp.Prelude.{
  ℕ, zero, suc, ◌==◌, Bool, true, false, not, ◌||◌, ◌&&◌, Option, none, some, List, [], ◌∷◌,
  if◌then◌else◌,
}
use hands_on_sqldb_in_cpp.Prelude.Order.{Bytes, bytes_lt, bytes_order, eqb}
use hands_on_sqldb_in_cpp.Sql.Int64.{ℤ, pos, ltz, eqz, times}
use hands_on_sqldb_in_cpp.Sql.Types.{
  DataType, date, time, datetime, is_integer, is_boolean, is_string, is_temporal, is_numeric,
  common_type, Value, null_value, int_value, bool_value, string_value, type_of, is_null,
}
use hands_on_sqldb_in_cpp.Sql.Numbers.{parse_int64_strict}
use hands_on_sqldb_in_cpp.Sql.Temporal.{seconds_per_day, parse_date, parse_time, parse_datetime}
use hands_on_sqldb_in_cpp.Sql.Like.{like_match}

pub data Truth : Type 0 where
  is_false is_true unknown : Truth

abbrev pub truth_from_bool : Bool → Truth
truth_from_bool b = if b then is_true else is_false

abbrev pub truth_not : Truth → Truth
truth_not is_true = is_false
truth_not is_false = is_true
truth_not unknown = unknown

abbrev pub equals_false : Truth → Bool
equals_false t = elim t [ is_false ↦ true | _ ↦ false ]

abbrev pub equals_true : Truth → Bool
equals_true t = elim t [ is_true ↦ true | _ ↦ false ]

abbrev equals_unknown : Truth → Bool
equals_unknown t = elim t [ unknown ↦ true | _ ↦ false ]

abbrev pub truth_and : Truth → Truth → Truth
truth_and a b =
    if equals_false a || equals_false b
    then is_false
    else if equals_unknown a || equals_unknown b
    then unknown
    else is_true

abbrev pub truth_or : Truth → Truth → Truth
truth_or a b =
    if equals_true a || equals_true b
    then is_true
    else if equals_unknown a || equals_unknown b
    then unknown
    else is_false

abbrev pub where_keeps : Truth → Bool
where_keeps t = equals_true t

pub data CompareOp : Type 0 where
  eq ne gt ge lt le like not_like is_null_op is_not_null_op unknown_op : CompareOp

abbrev pub flip_compare_op : CompareOp → CompareOp
flip_compare_op eq = ne
flip_compare_op ne = eq
flip_compare_op gt = le
flip_compare_op ge = lt
flip_compare_op lt = ge
flip_compare_op le = gt
flip_compare_op like = not_like
flip_compare_op not_like = like
flip_compare_op is_null_op = is_not_null_op
flip_compare_op is_not_null_op = is_null_op
flip_compare_op unknown_op = unknown_op

-- The results -1, 0 and 1.
pub data Comparison : Type 0 where
  below same above : Comparison

abbrev pub reversed : Comparison → Comparison
reversed below = above
reversed same = same
reversed above = below

abbrev pub cmp_int64 : ℤ → ℤ → Comparison
cmp_int64 a b = if eqz a b then same else if ltz a b then below else above

abbrev pub cmp_bytes : Bytes → Bytes → Comparison
cmp_bytes s t = if eqb s t then same else if bytes_lt s t then below else above

abbrev pub int64_of : Value → Option ℤ
int64_of null_value = none
int64_of (bool_value b) = some (if b then pos 1 else pos 0)
int64_of (int_value d v) = if is_integer d then some v else none
int64_of (string_value d s) = none

-- The product for a date is exact. The source's overflows, which is undefined there, for dates far
-- outside those that a column holds.
abbrev seconds_of : DataType → ℤ → Option ℤ
seconds_of type v = elim type [
  | date ↦ some (times v seconds_per_day)
  | time ↦ some v
  | datetime ↦ some v
  | _ ↦ none
]

abbrev pub temporal_seconds : Value → Option ℤ
temporal_seconds null_value = none
temporal_seconds (bool_value b) = none
temporal_seconds (int_value d v) = seconds_of d v
temporal_seconds (string_value d s) = none

unfoldable pub parse_temporal : DataType → Bytes → Option ℤ
parse_temporal type s = elim type [
  | date ↦ parse_date s
  | time ↦ parse_time s
  | datetime ↦ parse_datetime s
  | _ ↦ none
]

abbrev scaled : DataType → Option ℤ → Option ℤ
scaled type none = none
scaled type (some v) = elim type [ date ↦ some (times v seconds_per_day) | _ ↦ some v ]

abbrev pub both : Option ℤ → Option ℤ → Option Comparison
both none b = none
both (some a) none = none
both (some a) (some b) = some (cmp_int64 a b)

abbrev cmp_texts : Value → Value → Option Comparison
cmp_texts (string_value d s) (string_value e t) = some (cmp_bytes s t)
cmp_texts (string_value d s) null_value = none
cmp_texts (string_value d s) (int_value e w) = none
cmp_texts (string_value d s) (bool_value w) = none
cmp_texts null_value b = none
cmp_texts (int_value d v) b = none
cmp_texts (bool_value v) b = none

-- A number or a time against a text that is parsed.
unfoldable pub cross_order : Value → Bytes → Option Comparison
cross_order other s =
    if is_numeric (type_of other)
    then both (int64_of other) (parse_int64_strict s)
    else if is_temporal (type_of other)
    then both (temporal_seconds other) (scaled (type_of other) (parse_temporal (type_of other) s))
    else none

abbrev pub flipped : Option Comparison → Option Comparison
flipped none = none
flipped (some c) = some (reversed c)

-- One side is a string.
abbrev pub mixed_order : Value → Value → Option Comparison
mixed_order (string_value d s) (string_value e t) = none
mixed_order (string_value d s) null_value = flipped (cross_order null_value s)
mixed_order (string_value d s) (int_value e w) = flipped (cross_order (int_value e w) s)
mixed_order (string_value d s) (bool_value w) = flipped (cross_order (bool_value w) s)
mixed_order null_value b = elim b [ string_value e t ↦ cross_order null_value t | _ ↦ none ]
mixed_order (int_value d v) b = elim b [
  | string_value e t ↦ cross_order (int_value d v) t
  | _ ↦ none
]
mixed_order (bool_value v) b = elim b [ string_value e t ↦ cross_order (bool_value v) t | _ ↦ none ]

unfoldable pub sql_order : Value → Value → Option Comparison
sql_order a b =
    let common = common_type (type_of a) (type_of b) in
    if is_null a || is_null b
    then none
    else if is_integer common || is_boolean common
    then both (int64_of a) (int64_of b)
    else if is_string common
    then cmp_texts a b
    else if is_temporal common
    then both (temporal_seconds a) (temporal_seconds b)
    else mixed_order a b

abbrev pub truth_of_order : CompareOp → Comparison → Truth
truth_of_order op c = elim op [
  | eq ↦ elim c [ same ↦ is_true | _ ↦ is_false ]
  | ne ↦ elim c [ same ↦ is_false | _ ↦ is_true ]
  | gt ↦ elim c [ above ↦ is_true | _ ↦ is_false ]
  | ge ↦ elim c [ below ↦ is_false | _ ↦ is_true ]
  | lt ↦ elim c [ below ↦ is_true | _ ↦ is_false ]
  | le ↦ elim c [ above ↦ is_false | _ ↦ is_true ]
  | _ ↦ unknown
]

abbrev pub by_order : CompareOp → Option Comparison → Truth
by_order op none = unknown
by_order op (some c) = truth_of_order op c

abbrev pub like_texts : Value → Value → Option Bool
like_texts a b = elim a [
  | string_value d s ↦ elim b [ string_value e t ↦ some (like_match s t) | _ ↦ none ]
  | _ ↦ none
]

abbrev pub by_match : (Bool → Bool) → Option Bool → Truth
by_match f none = unknown
by_match f (some matched) = truth_from_bool (f matched)

unfoldable pub sql_compare_op : CompareOp → Value → Value → Truth
sql_compare_op op a b = elim op [
  | is_null_op ↦ truth_from_bool (is_null a)
  | is_not_null_op ↦ truth_from_bool (not (is_null a))
  | like ↦ by_match (λ matched. matched) (like_texts a b)
  | not_like ↦ by_match not (like_texts a b)
  | other ↦ by_order other (sql_order a b)
]

abbrev pub sql_equal : Value → Value → Truth
sql_equal a b = sql_compare_op eq a b

unfoldable pub sql_equal_null_safe : Value → Value → Truth
sql_equal_null_safe a b =
    if is_null a || is_null b then truth_from_bool (is_null a && is_null b) else sql_equal a b
