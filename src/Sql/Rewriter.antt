-- ===== src/Sql/Rewriter.antt =====
-- planner/rewriter.cpp: the passes `flattern` and `fold_constants`. Where the source collects the
-- children of one connective and then rewrites each, the rewritten children are collected here.
pub mod Flat
pub mod Fold
pub mod Passes
pub mod Values
use hands_on_sqldb_in_cpp.Prelude.{Bool, true, false, ◌||◌, List, [], ◌∷◌, ◌++◌, if◌then◌else◌}
use hands_on_sqldb_in_cpp.Sql.Types.{Value, is_null, value_equal}
use hands_on_sqldb_in_cpp.Sql.Truth.{eq, ne}
use hands_on_sqldb_in_cpp.Sql.Conditions.{
  Condition, compare_condition, in_condition, and_condition, or_condition, not_condition,
}

-- The two connectives.
pub data Connective : Type 0 where
  conjunction disjunction : Connective

unfoldable pub has_value : Value → List Value → Bool
has_value v [] = false
has_value v (kept ∷ values) = value_equal kept v || has_value v values

-- The loop that keeps the first of equal values.
unfoldable pub distinct_values : List Value → List Value → List Value
distinct_values kept [] = kept
distinct_values kept (v ∷ values) =
    let same = distinct_values kept values in
    let longer = distinct_values (kept ++ v ∷ []) values in
    if has_value v kept then same else longer

module _ {I : Type 0} where
  abbrev pub make : Connective → Condition I → Condition I → Condition I
  make conjunction left right = and_condition left right
  make disjunction left right = or_condition left right

  -- `rebuild`, from its result so far on: ((a AND b) AND c) AND d.
  unfoldable pub rebuild : Connective → Condition I → List (Condition I) → Condition I
  rebuild type result [] = result
  rebuild type result (child ∷ children) = rebuild type (make type result child) children

  -- There is always a first child.
  abbrev pub rebuild_all : Connective → Condition I × List (Condition I) → Condition I
  rebuild_all type (first, children) = rebuild type first children

  abbrev pub single : Condition I → Condition I × List (Condition I)
  single c = (c, [])

  abbrev pub join :
      Condition I × List (Condition I)
      → Condition I × List (Condition I)
      → Condition I × List (Condition I)
  join (a, children) (b, more) = (a, children ++ b ∷ more)

  abbrev pub connective_of : Condition I → Connective
  connective_of c = elim c [ or_condition l r ↦ disjunction | _ ↦ conjunction ]

  unfoldable pub flat_children : Connective → Condition I → Condition I × List (Condition I)
  flat_children conjunction (and_condition l r) =
      join (flat_children conjunction l) (flat_children conjunction r)
  flat_children disjunction (and_condition l r) =
      single
        (rebuild_all conjunction (join (flat_children conjunction l) (flat_children conjunction r)))
  flat_children disjunction (or_condition l r) =
      join (flat_children disjunction l) (flat_children disjunction r)
  flat_children conjunction (or_condition l r) =
      single
        (rebuild_all disjunction (join (flat_children disjunction l) (flat_children disjunction r)))
  flat_children type (not_condition c) =
      let child = flat_children (connective_of c) c in
      single (not_condition (rebuild_all (connective_of c) child))
  flat_children type (compare_condition column op value) =
      single (compare_condition column op value)
  flat_children type (in_condition column is_not_in values) =
      single (in_condition column is_not_in values)

  unfoldable pub flatten_impl : Condition I → Condition I
  flatten_impl c = rebuild_all (connective_of c) (flat_children (connective_of c) c)

  abbrev pub compare_one : I → Bool → Value → Condition I
  compare_one column is_not_in v =
      if is_null v
      then in_condition column is_not_in (v ∷ [])
      else compare_condition column (if is_not_in then ne else eq) v

  -- A list of one value that is not NULL becomes a comparison.
  abbrev pub fold_in : I → Bool → List Value → Condition I
  fold_in column is_not_in [] = in_condition column is_not_in []
  fold_in column is_not_in (v ∷ []) = compare_one column is_not_in v
  fold_in column is_not_in (v ∷ w ∷ values) = in_condition column is_not_in (v ∷ w ∷ values)

  unfoldable pub fold_constants_impl : Condition I → Condition I
  fold_constants_impl (and_condition l r) =
      and_condition (fold_constants_impl l) (fold_constants_impl r)
  fold_constants_impl (or_condition l r) =
      or_condition (fold_constants_impl l) (fold_constants_impl r)
  fold_constants_impl (not_condition c) = not_condition (fold_constants_impl c)
  fold_constants_impl (in_condition column is_not_in values) =
      fold_in column is_not_in (distinct_values [] values)
  fold_constants_impl (compare_condition column op value) = compare_condition column op value
