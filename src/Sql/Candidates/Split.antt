-- ===== src/Sql/Candidates/Split.antt =====
-- planner/optimizer.cpp: splitting a condition into one on the primary key and the rest. A pointer to a
-- condition, which may be null, is an option; `is_key` is the test whether a column is the key.
use hands_on_sqldb_in_cpp.Prelude.{
  Bool, true, false, not, ◌||◌, ◌&&◌, Option, none, some, if◌then◌else◌,
}
use hands_on_sqldb_in_cpp.Sql.Truth.{CompareOp, is_null_op, is_not_null_op}
use hands_on_sqldb_in_cpp.Sql.Conditions.{
  Condition, compare_condition, in_condition, and_condition, or_condition, not_condition,
}
use hands_on_sqldb_in_cpp.Sql.Candidates.{is_indexable}

abbrev pub is_null_test : CompareOp → Bool
is_null_test op = elim op [ is_null_op ↦ true | is_not_null_op ↦ true | _ ↦ false ]

pub record SplitConditions (I : Type 0) : Type 0 where
  pub pk_cond : Option (Condition I)
  pub remaining : Option (Condition I)

module _ {I : Type 0} where
  abbrev pub join_and : Option (Condition I) → Option (Condition I) → Option (Condition I)
  join_and none right = right
  join_and (some left) none = some left
  join_and (some left) (some right) = some (and_condition left right)

  abbrev pub join_or : Option (Condition I) → Option (Condition I) → Option (Condition I)
  join_or none right = right
  join_or (some left) none = some left
  join_or (some left) (some right) = some (or_condition left right)

  -- `make_or`. A null child would give no condition; `split-IsSome` shows that none comes.
  abbrev pub make_or : Option (Condition I) → Option (Condition I) → Option (Condition I)
  make_or none right = none
  make_or (some left) none = none
  make_or (some left) (some right) = some (or_condition left right)

  abbrev pub rebuild_split : SplitConditions I → Option (Condition I)
  rebuild_split s = join_and s.pk_cond s.remaining

  abbrev pub key_part : Condition I → SplitConditions I
  key_part node = record { pk_cond = some node; remaining = none }

  abbrev pub other_part : Condition I → SplitConditions I
  other_part node = record { pk_cond = none; remaining = some node }

  abbrev pub is_none : Option (Condition I) → Bool
  is_none none = true
  is_none (some c) = false

  abbrev pub and_split : SplitConditions I → SplitConditions I → SplitConditions I
  and_split left right = record {
    pk_cond = join_and left.pk_cond right.pk_cond;
    remaining = join_and left.remaining right.remaining;
  }

  -- OR is a condition on the key only if both sides are.
  abbrev pub or_split : SplitConditions I → SplitConditions I → SplitConditions I
  or_split left right =
      if is_none left.remaining && is_none right.remaining
      then record { pk_cond = join_or left.pk_cond right.pk_cond; remaining = none }
      else record { pk_cond = none; remaining = make_or (rebuild_split left) (rebuild_split right) }

  unfoldable pub split_primary_key : (I → Bool) → Condition I → SplitConditions I
  split_primary_key is_key (compare_condition column op value) =
      if is_key column && (is_indexable op || is_null_test op)
      then key_part (compare_condition column op value)
      else other_part (compare_condition column op value)
  split_primary_key is_key (in_condition column is_not_in values) =
      if is_key column && not is_not_in
      then key_part (in_condition column is_not_in values)
      else other_part (in_condition column is_not_in values)
  split_primary_key is_key (and_condition a b) =
      and_split (split_primary_key is_key a) (split_primary_key is_key b)
  split_primary_key is_key (or_condition a b) =
      or_split (split_primary_key is_key a) (split_primary_key is_key b)
  split_primary_key is_key (not_condition child) = other_part (not_condition child)
