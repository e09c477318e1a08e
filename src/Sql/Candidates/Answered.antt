-- ===== src/Sql/Candidates/Answered.antt =====
-- The candidate ranges of a condition on a column, and what the condition says of the column's values.
use hands_on_sqldb_in_cpp.Prelude.{
  ◌≡◌, subst, ◌∙◌, true, false, ◌||◌, ◌&&◌, Option, none, some, List, arith, if◌then◌else◌,
}
use hands_on_sqldb_in_cpp.Sql.Types.{DataType, Value}
use hands_on_sqldb_in_cpp.Sql.Truth.{
  Truth, is_false, is_true, equals_true, equals_false, where_keeps, truth_and, truth_or,
}
use hands_on_sqldb_in_cpp.Sql.Conditions.{
  Condition, compare_condition, in_condition, and_condition, or_condition, not_condition, evaluate,
}
use hands_on_sqldb_in_cpp.Sql.KeyRange.{KeyRange}
use hands_on_sqldb_in_cpp.Sql.KeyRange.Sets.{contains_any}
use hands_on_sqldb_in_cpp.Sql.Candidates.{
  range_of_condition, unite_ranges, intersect_ranges, normalize_ranges, if_both,
}
use hands_on_sqldb_in_cpp.Sql.Candidates.Merged.{unite_ranges-AllOf, intersect_ranges-AllOf}
use hands_on_sqldb_in_cpp.Sql.Candidates.Together.{
  normalize_ranges-contains, unite_ranges-contains, intersect_ranges-contains,
}
use hands_on_sqldb_in_cpp.Sql.Candidates.Alike.{IsLike, IsLike-FitsColumn}
use hands_on_sqldb_in_cpp.Sql.Candidates.Leaves.{
  AllLike, Answers, Answered, compare-Answered, in-Answers,
}

-- Conditions on the column whose value `lookup` finds to be `v`, with such literals.
abbrev pub Asks : {I : Type 0} → DataType → (I → Option Value) → Value → Condition I → Type 0
Asks column lookup v (compare_condition name op w) = (lookup name ≡ some v) × IsLike column w
Asks column lookup v (in_condition name is_not_in ws) = (lookup name ≡ some v) × AllLike column ws
Asks column lookup v (and_condition a b) = Asks column lookup v a × Asks column lookup v b
Asks column lookup v (or_condition a b) = Asks column lookup v a × Asks column lookup v b
Asks column lookup v (not_condition a) = Asks column lookup v a

pub evaluated_and :
    (a b : Truth)
    → (let first = truth_and is_true a in
        equals_true (if equals_false first then first else truth_and first b))
      ≡ (equals_true a && equals_true b)
evaluated_and a b = ground arith

pub evaluated_or :
    (a b : Truth)
    → (let first = truth_or is_false a in
        equals_true (if equals_true first then first else truth_or first b))
      ≡ (equals_true a || equals_true b)
evaluated_or a b = ground arith

module _ (column : DataType) (v : Value) (l : IsLike column v) where
  both-Answered :
      (a b : Option (List KeyRange)) (s t u : Truth)
      → (f : List KeyRange → List KeyRange → List KeyRange)
      → ((x y : List KeyRange)
          → Answers column v l x s
          → Answers column v l y t
          → Answers column v l (f x y) u)
      → Answered column v l a s
      → Answered column v l b t
      → Answered column v l (if_both f a b) u
  both-Answered none b s t u f h p q = tt
  both-Answered (some x) none s t u f h p q = tt
  both-Answered (some x) (some y) s t u f h p q = h x y p q

  condition-Answered :
      {I : Type 0} (lookup : I → Option Value) (c : Condition I)
      → Asks column lookup v c
      → Answered column v l (range_of_condition c column) (evaluate lookup c)
  unfolding range_of_condition evaluate
  condition-Answered lookup (compare_condition name op w) g =
      rw g.0 (compare-Answered column v l op w g.1)
  condition-Answered lookup (in_condition name true ws) g = tt
  condition-Answered lookup (in_condition name false ws) g = rw g.0 (in-Answers column v l ws g.1)
  condition-Answered lookup (and_condition a b) g =
      let fit = IsLike-FitsColumn column v l in
      both-Answered (range_of_condition a column) (range_of_condition b column) (evaluate lookup a)
        (evaluate lookup b) _ intersect_ranges
        (λ x y p q. (
          intersect_ranges-AllOf column x y p.0 q.0,
          ground (
            arith,
            intersect_ranges-contains column v fit x y p.0 q.0,
            p.1,
            q.1,
            evaluated_and (evaluate lookup a) (evaluate lookup b),
          ),
        ))
        (condition-Answered lookup a g.0) (condition-Answered lookup b g.1)
  condition-Answered lookup (or_condition a b) g =
      let fit = IsLike-FitsColumn column v l in
      both-Answered (range_of_condition a column) (range_of_condition b column) (evaluate lookup a)
        (evaluate lookup b) _ unite_ranges
        (λ x y p q. (
          unite_ranges-AllOf column x y p.0 q.0,
          ground (
            arith,
            unite_ranges-contains column v fit x y p.0 q.0,
            p.1,
            q.1,
            evaluated_or (evaluate lookup a) (evaluate lookup b),
          ),
        ))
        (condition-Answered lookup a g.0) (condition-Answered lookup b g.1)
  condition-Answered lookup (not_condition a) g = tt

-- The candidate ranges of a condition on a column whose literals are values of the column's class, or
-- NULL, contain a value of the column exactly if WHERE keeps a row that has it.
pub candidates-evaluate :
    {I : Type 0} (column : DataType) (v : Value) (lookup : I → Option Value) (c : Condition I)
    (rs : List KeyRange)
    → IsLike column v
    → Asks column lookup v c
    → range_of_condition c column ≡ some rs
    → contains_any (normalize_ranges rs) v ≡ where_keeps (evaluate lookup c)
candidates-evaluate column v lookup c rs l g h =
    let answer = condition-Answered column v l lookup c g in
    let answers = subst (λ a. Answered column v l a (evaluate lookup c)) h answer in
    normalize_ranges-contains column v (IsLike-FitsColumn column v l) rs answers.0 ∙ answers.1
