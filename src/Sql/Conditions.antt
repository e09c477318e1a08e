-- ===== src/Sql/Conditions.antt =====
-- sql_types/condition_types.h and sql_truth.h: condition trees and their evaluation, and
-- planner/rewriter.cpp: pushing NOT down to the leaves. Children are never null here. Columns are
-- of any type, and `lookup` finds the value of one in a row.
pub mod Pushdown
use hands_on_sqldb_in_cpp.Prelude.{
  Bool, true, false, not, Option, none, some, List, [], ◌∷◌, if◌then◌else◌,
}
use hands_on_sqldb_in_cpp.Sql.Types.{Value}
use hands_on_sqldb_in_cpp.Sql.Truth.{
  Truth, is_false, is_true, unknown, truth_not, truth_and, truth_or, equals_false, equals_true,
  CompareOp, eq, unknown_op, flip_compare_op, sql_compare_op,
}

pub data Condition (I : Type 0) : Type 0 where
  compare_condition : I → CompareOp → Value → Condition I
  in_condition : I → Bool → List Value → Condition I
  and_condition or_condition : Condition I → Condition I → Condition I
  not_condition : Condition I → Condition I

-- The loop over the candidates of IN.
unfoldable pub any_equal : Value → Truth → List Value → Truth
any_equal lhs acc [] = acc
any_equal lhs acc (candidate ∷ values) =
    any_equal lhs (truth_or acc (sql_compare_op eq lhs candidate)) values

abbrev pub compare_found : Option Value → CompareOp → Value → Truth
compare_found none op value = unknown
compare_found (some lhs) op value = sql_compare_op op lhs value

abbrev pub in_found : Option Value → Bool → List Value → Truth
in_found none is_not_in values = unknown
in_found (some lhs) is_not_in values =
    if is_not_in then truth_not (any_equal lhs is_false values) else any_equal lhs is_false values

module _ {I : Type 0} where
  -- The loops over the two children stop at the first FALSE, or TRUE.
  unfoldable pub evaluate : (I → Option Value) → Condition I → Truth
  evaluate lookup (compare_condition column op value) = compare_found (lookup column) op value
  evaluate lookup (in_condition column is_not_in values) = in_found (lookup column) is_not_in values
  evaluate lookup (and_condition left right) =
      let first = truth_and is_true (evaluate lookup left) in
      let second = truth_and first (evaluate lookup right) in
      if equals_false first then first else second
  evaluate lookup (or_condition left right) =
      let first = truth_or is_false (evaluate lookup left) in
      let second = truth_or first (evaluate lookup right) in
      if equals_true first then first else second
  evaluate lookup (not_condition child) = truth_not (evaluate lookup child)

  -- A leaf under a NOT: an operator that cannot be flipped keeps it.
  abbrev pub negate_compare : I → CompareOp → Value → Condition I
  negate_compare column op value = elim (flip_compare_op op) [
    | unknown_op ↦ not_condition (compare_condition column op value)
    | other ↦ compare_condition column other value
  ]

  unfoldable pub pushdown_not_impl : Condition I → Bool → Condition I
  pushdown_not_impl (not_condition child) negated = pushdown_not_impl child (not negated)
  pushdown_not_impl (and_condition left right) negated =
      let l = pushdown_not_impl left negated in
      let r = pushdown_not_impl right negated in
      if negated then or_condition l r else and_condition l r
  pushdown_not_impl (or_condition left right) negated =
      let l = pushdown_not_impl left negated in
      let r = pushdown_not_impl right negated in
      if negated then and_condition l r else or_condition l r
  pushdown_not_impl (compare_condition column op value) negated =
      if negated then negate_compare column op value else compare_condition column op value
  pushdown_not_impl (in_condition column is_not_in values) negated =
      if negated
      then in_condition column (not is_not_in) values
      else in_condition column is_not_in values

  unfoldable pub pushdown_not : Condition I → Condition I
  pushdown_not c = pushdown_not_impl c false
