-- ===== src/Sql/Conditions/Pushdown.antt =====
-- A condition whose NOTs are pushed down is the same condition.
use hands_on_sqldb_in_cpp.Prelude.{
  ◌≡◌, refl, sym, Bool, true, false, not, Option, none, some, List, if◌then◌else◌, arith,
}
use hands_on_sqldb_in_cpp.Sql.Types.{Value}
use hands_on_sqldb_in_cpp.Sql.Truth.{
  Truth, is_false, truth_not, truth_and, truth_or, CompareOp, flip_compare_op,
}
use hands_on_sqldb_in_cpp.Sql.Truth.Negation.{sql_compare_op-flip}
use hands_on_sqldb_in_cpp.Sql.Conditions.{
  Condition, compare_condition, in_condition, and_condition, or_condition, not_condition, any_equal,
  compare_found, in_found, evaluate, negate_compare, pushdown_not_impl, pushdown_not,
}

abbrev pub negated_truth : Bool → Truth → Truth
negated_truth negated t = if negated then truth_not t else t

de_morgan-and : (a b : Truth) → truth_or (truth_not a) (truth_not b) ≡ truth_not (truth_and a b)
de_morgan-and a b = ground arith

de_morgan-or : (a b : Truth) → truth_and (truth_not a) (truth_not b) ≡ truth_not (truth_or a b)
de_morgan-or a b = ground arith

truth_not-truth_not : (t : Truth) → truth_not (truth_not t) ≡ t
truth_not-truth_not t = ground arith

compare_found-flip :
    (found : Option Value) (op : CompareOp) (value : Value)
    → compare_found found (flip_compare_op op) value ≡ truth_not (compare_found found op value)
compare_found-flip none op value = refl
compare_found-flip (some lhs) op value = sql_compare_op-flip op lhs value

in_found-not :
    (found : Option Value) (is_not_in : Bool) (values : List Value)
    → in_found found (not is_not_in) values ≡ truth_not (in_found found is_not_in values)
in_found-not none is_not_in values = refl
in_found-not (some lhs) true values = sym (truth_not-truth_not (any_equal lhs is_false values))
in_found-not (some lhs) false values = refl

module _ {I : Type 0} where
  pub evaluate-and :
      (lookup : I → Option Value) (l r : Condition I)
      → evaluate lookup (and_condition l r) ≡ truth_and (evaluate lookup l) (evaluate lookup r)
  unfolding evaluate
  evaluate-and lookup l r = ground arith

  pub evaluate-or :
      (lookup : I → Option Value) (l r : Condition I)
      → evaluate lookup (or_condition l r) ≡ truth_or (evaluate lookup l) (evaluate lookup r)
  unfolding evaluate
  evaluate-or lookup l r = ground arith

  pub evaluate-not :
      (lookup : I → Option Value) (c : Condition I)
      → evaluate lookup (not_condition c) ≡ truth_not (evaluate lookup c)
  unfolding evaluate
  evaluate-not lookup c = refl

  pub evaluate-leaf :
      (lookup : I → Option Value) (column : I) (is_not_in : Bool) (values : List Value)
      → evaluate lookup (in_condition column is_not_in values)
        ≡ in_found (lookup column) is_not_in values
  unfolding evaluate
  evaluate-leaf lookup column is_not_in values = refl

  evaluate-negate_compare :
      (lookup : I → Option Value) (column : I) (op : CompareOp) (value : Value)
      → evaluate lookup (negate_compare column op value)
        ≡ truth_not (evaluate lookup (compare_condition column op value))
  unfolding evaluate
  evaluate-negate_compare lookup column op value =
      ground (arith, compare_found-flip (lookup column) op value)

  pushdown_not_impl-keeps :
      (lookup : I → Option Value) (c : Condition I) (negated : Bool)
      → evaluate lookup (pushdown_not_impl c negated) ≡ negated_truth negated (evaluate lookup c)
  unfolding pushdown_not_impl
  pushdown_not_impl-keeps lookup (compare_condition column op value) true =
      evaluate-negate_compare lookup column op value
  pushdown_not_impl-keeps lookup (compare_condition column op value) false = refl
  pushdown_not_impl-keeps lookup (in_condition column is_not_in values) true =
      rw
        (
          evaluate-leaf lookup column (not is_not_in) values,
          evaluate-leaf lookup column is_not_in values,
        )
        (in_found-not (lookup column) is_not_in values)
  pushdown_not_impl-keeps lookup (in_condition column is_not_in values) false = refl
  pushdown_not_impl-keeps lookup (and_condition l r) true =
      rw
        (
          evaluate-or lookup (pushdown_not_impl l true) (pushdown_not_impl r true),
          evaluate-and lookup l r,
          pushdown_not_impl-keeps lookup l true,
          pushdown_not_impl-keeps lookup r true,
        )
        (de_morgan-and (evaluate lookup l) (evaluate lookup r))
  pushdown_not_impl-keeps lookup (and_condition l r) false =
      rw
        (
          evaluate-and lookup (pushdown_not_impl l false) (pushdown_not_impl r false),
          evaluate-and lookup l r,
          pushdown_not_impl-keeps lookup l false,
          pushdown_not_impl-keeps lookup r false,
        )
        refl
  pushdown_not_impl-keeps lookup (or_condition l r) true =
      rw
        (
          evaluate-and lookup (pushdown_not_impl l true) (pushdown_not_impl r true),
          evaluate-or lookup l r,
          pushdown_not_impl-keeps lookup l true,
          pushdown_not_impl-keeps lookup r true,
        )
        (de_morgan-or (evaluate lookup l) (evaluate lookup r))
  pushdown_not_impl-keeps lookup (or_condition l r) false =
      rw
        (
          evaluate-or lookup (pushdown_not_impl l false) (pushdown_not_impl r false),
          evaluate-or lookup l r,
          pushdown_not_impl-keeps lookup l false,
          pushdown_not_impl-keeps lookup r false,
        )
        refl
  pushdown_not_impl-keeps lookup (not_condition c) true =
      rw (evaluate-not lookup c, truth_not-truth_not (evaluate lookup c))
        (pushdown_not_impl-keeps lookup c false)
  pushdown_not_impl-keeps lookup (not_condition c) false =
      rw (evaluate-not lookup c) (pushdown_not_impl-keeps lookup c true)

  -- On every row, a condition whose NOTs are pushed down to the leaves has the same truth value, also
  -- where NULLs and missing columns make it unknown.
  pub pushdown_not-keeps :
      (lookup : I → Option Value) (c : Condition I)
      → evaluate lookup (pushdown_not c) ≡ evaluate lookup c
  unfolding pushdown_not
  pushdown_not-keeps lookup c = pushdown_not_impl-keeps lookup c false
