-- ===== src/Sql/Candidates.antt =====
-- planner/optimizer.cpp: the ranges of the primary key that a condition on it asks for. A condition
-- that `range_of_condition` gets names no other column. `std::sort` is a sort by insertion.
pub mod Merged
pub mod Together
pub mod Alike
pub mod Leaves
pub mod Answered
pub mod Split
pub mod Parts
pub mod Planned
pub mod Missed
use hands_on_sqldb_in_cpp.Prelude.{
  Bool, true, false, not, ◌||◌, ◌&&◌, Option, none, some, List, [], ◌∷◌, ◌++◌, if◌then◌else◌,
}
use hands_on_sqldb_in_cpp.Prelude.Order.{bytes_lt, bytes_order, eqb}
use hands_on_sqldb_in_cpp.Sql.Types.{DataType, Value, is_null}
use hands_on_sqldb_in_cpp.Sql.Key.{Key}
use hands_on_sqldb_in_cpp.Sql.Truth.{
  CompareOp, eq, ne, gt, ge, lt, le, like, not_like, is_null_op, is_not_null_op, unknown_op,
}
use hands_on_sqldb_in_cpp.Sql.Conditions.{
  Condition, compare_condition, in_condition, and_condition, or_condition, not_condition,
}
use hands_on_sqldb_in_cpp.Sql.KeyRange.{
  KeyRange, low_key, high_key, is_empty, null_only, non_null, empty, point,
}
use hands_on_sqldb_in_cpp.Sql.KeyRange
use hands_on_sqldb_in_cpp.Sql.KeyRange.Operations.{overlaps, is_adjacent, unite, intersect}

abbrev less_high : Option Key → Option Key → Bool
less_high none b = false
less_high (some a) none = true
less_high (some a) (some b) = bytes_lt a b

abbrev less_bounds : Option Key → Option Key → Bool → Bool
less_bounds none none highs = highs
less_bounds none (some b) highs = true
less_bounds (some a) none highs = false
less_bounds (some a) (some b) highs = if not (eqb a b) then bytes_lt a b else highs

unfoldable pub range_less : KeyRange → KeyRange → Bool
range_less a b = less_bounds (low_key a) (low_key b) (less_high (high_key a) (high_key b))

unfoldable pub insert_range : KeyRange → List KeyRange → List KeyRange
insert_range r [] = r ∷ []
insert_range r (s ∷ rs) =
    let rest = insert_range r rs in if range_less s r then s ∷ rest else r ∷ s ∷ rs

-- The ranges that are not empty, in order.
unfoldable pub sorted_ranges : List KeyRange → List KeyRange
unfolding insert_range
sorted_ranges [] = []
sorted_ranges (r ∷ rs) =
    let rest = sorted_ranges rs in if not (is_empty r) then insert_range r rest else rest

abbrev pub only_range : List KeyRange → Option KeyRange
only_range [] = none
only_range (u ∷ []) = some u
only_range (u ∷ w ∷ others) = none

-- What `merged.back()` becomes with the next range, if they unite.
unfoldable pub merged_with : KeyRange → KeyRange → Option KeyRange
merged_with back r =
    if overlaps back r || is_adjacent back r then only_range (unite back r) else none

-- The loop that merges.
unfoldable pub merge_ranges : KeyRange → List KeyRange → List KeyRange
unfolding merged_with
merge_ranges back [] = back ∷ []
merge_ranges back (r ∷ rs) = elim (merged_with back r) [
  | none ↦ back ∷ merge_ranges r rs
  | some united ↦ merge_ranges united rs
]

abbrev pub merge_sorted : List KeyRange → List KeyRange
merge_sorted [] = []
merge_sorted (r ∷ rs) = merge_ranges r rs

unfoldable pub normalize_ranges : List KeyRange → List KeyRange
unfolding sorted_ranges merge_ranges
normalize_ranges ranges = merge_sorted (sorted_ranges ranges)

unfoldable pub intersect_each : KeyRange → List KeyRange → List KeyRange
intersect_each lhs [] = []
intersect_each lhs (rhs ∷ b) =
    let rest = intersect_each lhs b in
    if not (is_empty (intersect lhs rhs)) then intersect lhs rhs ∷ rest else rest

unfoldable pub intersect_all : List KeyRange → List KeyRange → List KeyRange
unfolding intersect_each
intersect_all [] b = []
intersect_all (lhs ∷ a) b = intersect_each lhs b ++ intersect_all a b

unfoldable pub intersect_ranges : List KeyRange → List KeyRange → List KeyRange
unfolding normalize_ranges intersect_all
intersect_ranges a b = normalize_ranges (intersect_all a b)

unfoldable pub unite_ranges : List KeyRange → List KeyRange → List KeyRange
unfolding normalize_ranges
unite_ranges a b = normalize_ranges (a ++ b)

abbrev pub is_indexable : CompareOp → Bool
is_indexable op = elim op [ eq ↦ true | gt ↦ true | ge ↦ true | lt ↦ true | le ↦ true | _ ↦ false ]

abbrev pub indexed_range : CompareOp → Value → Option (List KeyRange)
indexed_range op v = elim op [
  | eq ↦ some (point v ∷ [])
  | gt ↦ some (KeyRange.gt v ∷ [])
  | ge ↦ some (KeyRange.ge v ∷ [])
  | lt ↦ some (KeyRange.lt v ∷ [])
  | le ↦ some (KeyRange.le v ∷ [])
  | _ ↦ none
]

abbrev pub range_of_compare : DataType → CompareOp → Value → Option (List KeyRange)
range_of_compare type op v = elim op [
  | is_null_op ↦ some (null_only type ∷ [])
  | is_not_null_op ↦ some (non_null type ∷ [])
  | other ↦
      if not (is_indexable other)
      then none
      else if is_null v
      then some (empty type ∷ [])
      else indexed_range other v
]

unfoldable pub points_of : List Value → List KeyRange
points_of [] = []
points_of (v ∷ values) =
    let rest = points_of values in if not (is_null v) then point v ∷ rest else rest

abbrev pub or_empty_range : DataType → List KeyRange → List KeyRange
or_empty_range type [] = empty type ∷ []
or_empty_range type (r ∷ rs) = r ∷ rs

abbrev pub if_both :
    (List KeyRange → List KeyRange → List KeyRange)
    → Option (List KeyRange)
    → Option (List KeyRange)
    → Option (List KeyRange)
if_both f none right = none
if_both f (some left) none = none
if_both f (some left) (some right) = some (f left right)

unfoldable pub range_of_condition : {I : Type 0} → Condition I → DataType → Option (List KeyRange)
unfolding points_of intersect_ranges unite_ranges
range_of_condition (compare_condition column op value) type = range_of_compare type op value
range_of_condition (in_condition column is_not_in values) type =
    if is_not_in then none else some (or_empty_range type (points_of values))
range_of_condition (and_condition left right) type =
    if_both intersect_ranges (range_of_condition left type) (range_of_condition right type)
range_of_condition (or_condition left right) type =
    if_both unite_ranges (range_of_condition left type) (range_of_condition right type)
range_of_condition (not_condition child) type = none
