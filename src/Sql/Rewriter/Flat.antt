-- ===== src/Sql/Rewriter/Flat.antt =====
-- A condition that is flattened is the same condition.
use hands_on_sqldb_in_cpp.Prelude.{◌≡◌, refl, sym, ap, ◌∙◌, Option, List, [], ◌∷◌, ◌++◌, arith}
use hands_on_sqldb_in_cpp.Sql.Types.{Value}
use hands_on_sqldb_in_cpp.Sql.Truth.{Truth, truth_not, truth_and, truth_or}
use hands_on_sqldb_in_cpp.Sql.Conditions.{
  Condition, compare_condition, in_condition, and_condition, or_condition, not_condition, evaluate,
}
use hands_on_sqldb_in_cpp.Sql.Conditions.Pushdown.{evaluate-and, evaluate-or, evaluate-not}
use hands_on_sqldb_in_cpp.Sql.Rewriter.{
  Connective, conjunction, disjunction, make, rebuild, rebuild_all, single, join, connective_of,
  flat_children, flatten_impl,
}

abbrev combine : Connective → Truth → Truth → Truth
combine conjunction a b = truth_and a b
combine disjunction a b = truth_or a b

combine_assoc :
    (type : Connective) (a b c : Truth)
    → combine type (combine type a b) c ≡ combine type a (combine type b c)
combine_assoc conjunction a b c = ground arith
combine_assoc disjunction a b c = ground arith

module _ {I : Type 0} (lookup : I → Option Value) where
  evaluate-make :
      (type : Connective) (l r : Condition I)
      → evaluate lookup (make type l r) ≡ combine type (evaluate lookup l) (evaluate lookup r)
  evaluate-make conjunction l r = evaluate-and lookup l r
  evaluate-make disjunction l r = evaluate-or lookup l r

  -- The first child can be split off.
  evaluate-rebuild :
      (type : Connective) (a b : Condition I) (cs : List (Condition I))
      → evaluate lookup (rebuild type a (b ∷ cs))
        ≡ combine type (evaluate lookup a) (evaluate lookup (rebuild type b cs))
  unfolding rebuild
  evaluate-rebuild type a b [] = evaluate-make type a b
  evaluate-rebuild type a b (c ∷ cs) =
      evaluate-rebuild type (make type a b) c cs
      ∙ (ap (λ (t : Truth). combine type t (evaluate lookup (rebuild type c cs)))
            (evaluate-make type a b)
          ∙ (combine_assoc type (evaluate lookup a) (evaluate lookup b)
                (evaluate lookup (rebuild type c cs))
              ∙ ap (combine type (evaluate lookup a)) (sym (evaluate-rebuild type b c cs))))

  evaluate-append :
      (type : Connective) (a b : Condition I) (xs bs : List (Condition I))
      → evaluate lookup (rebuild type a (xs ++ b ∷ bs))
        ≡ combine type (evaluate lookup (rebuild type a xs)) (evaluate lookup (rebuild type b bs))
  unfolding rebuild
  evaluate-append type a b [] bs = evaluate-rebuild type a b bs
  evaluate-append type a b (c ∷ xs) bs = evaluate-append type (make type a c) b xs bs

  evaluate-join :
      (type : Connective) (p q : Condition I × List (Condition I))
      → evaluate lookup (rebuild_all type (join p q))
        ≡ combine type (evaluate lookup (rebuild_all type p)) (evaluate lookup (rebuild_all type q))
  evaluate-join type (a, xs) (b, bs) = evaluate-append type a b xs bs

  rebuild_single :
      (type : Connective) (c : Condition I)
      → evaluate lookup (rebuild_all type (single c)) ≡ evaluate lookup c
  unfolding rebuild
  rebuild_single type c = refl

  -- Two children that keep their values, joined.
  evaluate-both :
      (type : Connective) (l r : Condition I) (p q : Condition I × List (Condition I))
      → evaluate lookup (rebuild_all type p) ≡ evaluate lookup l
      → evaluate lookup (rebuild_all type q) ≡ evaluate lookup r
      → evaluate lookup (rebuild_all type (join p q)) ≡ evaluate lookup (make type l r)
  evaluate-both type l r p q h k =
      evaluate-join type p q
      ∙ (ap (λ (t : Truth). combine type t (evaluate lookup (rebuild_all type q))) h
          ∙ (ap (combine type (evaluate lookup l)) k ∙ sym (evaluate-make type l r)))

  evaluate-flat_children :
      (type : Connective) (c : Condition I)
      → evaluate lookup (rebuild_all type (flat_children type c)) ≡ evaluate lookup c
  unfolding flat_children
  evaluate-flat_children conjunction (and_condition l r) =
      evaluate-both conjunction l r (flat_children conjunction l) (flat_children conjunction r)
        (evaluate-flat_children conjunction l) (evaluate-flat_children conjunction r)
  evaluate-flat_children disjunction (and_condition l r) =
      rebuild_single disjunction _
      ∙ evaluate-both conjunction l r (flat_children conjunction l) (flat_children conjunction r)
          (evaluate-flat_children conjunction l) (evaluate-flat_children conjunction r)
  evaluate-flat_children disjunction (or_condition l r) =
      evaluate-both disjunction l r (flat_children disjunction l) (flat_children disjunction r)
        (evaluate-flat_children disjunction l) (evaluate-flat_children disjunction r)
  evaluate-flat_children conjunction (or_condition l r) =
      rebuild_single conjunction _
      ∙ evaluate-both disjunction l r (flat_children disjunction l) (flat_children disjunction r)
          (evaluate-flat_children disjunction l) (evaluate-flat_children disjunction r)
  evaluate-flat_children type (not_condition c) =
      rebuild_single type _
      ∙ (evaluate-not lookup _
          ∙ (ap truth_not (evaluate-flat_children (connective_of c) c)
              ∙ sym (evaluate-not lookup c)))
  evaluate-flat_children type (compare_condition column op value) =
      rebuild_single type (compare_condition column op value)
  evaluate-flat_children type (in_condition column is_not_in values) =
      rebuild_single type (in_condition column is_not_in values)

  pub flatten_impl-keeps : (c : Condition I) → evaluate lookup (flatten_impl c) ≡ evaluate lookup c
  unfolding flatten_impl
  flatten_impl-keeps c = evaluate-flat_children (connective_of c) c
