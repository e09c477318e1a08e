-- ===== src/Sql/Rewriter/Passes.antt =====
-- The passes of the rewriter one after the other.
use hands_on_sqldb_in_cpp.Prelude.{◌≡◌, ◌∙◌, Bool, true, false, not, Option, List, [], ◌∷◌, ◌++◌}
use hands_on_sqldb_in_cpp.Sql.Types.{Value}
use hands_on_sqldb_in_cpp.Sql.Truth.{CompareOp, eq}
use hands_on_sqldb_in_cpp.Sql.Conditions.{
  Condition, compare_condition, in_condition, and_condition, or_condition, not_condition, evaluate,
  negate_compare, pushdown_not_impl, pushdown_not,
}
use hands_on_sqldb_in_cpp.Sql.Conditions.Pushdown.{pushdown_not-keeps}
use hands_on_sqldb_in_cpp.Sql.Rewriter.{
  Connective, conjunction, disjunction, make, rebuild, rebuild_all, single, join, connective_of,
  flat_children, flatten_impl, fold_constants_impl,
}
use hands_on_sqldb_in_cpp.Sql.Rewriter.Flat.{flatten_impl-keeps}
use hands_on_sqldb_in_cpp.Sql.Rewriter.Fold.{IsWellTyped, fold_constants_impl-keeps}

module _ {I : Type 0} where
  AllTyped : List (Condition I) → Type 0
  AllTyped [] = Unit {0}
  AllTyped (c ∷ cs) = IsWellTyped c × AllTyped cs

  IsTyped : Condition I × List (Condition I) → Type 0
  IsTyped (c, cs) = IsWellTyped c × AllTyped cs

  negate_compare-IsWellTyped :
      (column : I) (op : CompareOp) (value : Value) → IsWellTyped (negate_compare column op value)
  negate_compare-IsWellTyped column op value =
      elim op as (λ o. IsWellTyped (negate_compare column o value)) [ eq ↦ tt | _ ↦ tt ]

  pushdown_not_impl-IsWellTyped :
      (c : Condition I) (negated : Bool) → IsWellTyped c → IsWellTyped (pushdown_not_impl c negated)
  unfolding pushdown_not_impl
  pushdown_not_impl-IsWellTyped (compare_condition column op value) true f =
      negate_compare-IsWellTyped column op value
  pushdown_not_impl-IsWellTyped (compare_condition column op value) false f = tt
  pushdown_not_impl-IsWellTyped (in_condition column is_not_in values) true f = f
  pushdown_not_impl-IsWellTyped (in_condition column is_not_in values) false f = f
  pushdown_not_impl-IsWellTyped (and_condition l r) true (f, g) =
      (pushdown_not_impl-IsWellTyped l true f, pushdown_not_impl-IsWellTyped r true g)
  pushdown_not_impl-IsWellTyped (and_condition l r) false (f, g) =
      (pushdown_not_impl-IsWellTyped l false f, pushdown_not_impl-IsWellTyped r false g)
  pushdown_not_impl-IsWellTyped (or_condition l r) true (f, g) =
      (pushdown_not_impl-IsWellTyped l true f, pushdown_not_impl-IsWellTyped r true g)
  pushdown_not_impl-IsWellTyped (or_condition l r) false (f, g) =
      (pushdown_not_impl-IsWellTyped l false f, pushdown_not_impl-IsWellTyped r false g)
  pushdown_not_impl-IsWellTyped (not_condition c) negated f =
      pushdown_not_impl-IsWellTyped c (not negated) f

  make-IsWellTyped :
      (type : Connective) (l r : Condition I)
      → IsWellTyped l
      → IsWellTyped r
      → IsWellTyped (make type l r)
  make-IsWellTyped conjunction l r f g = (f, g)
  make-IsWellTyped disjunction l r f g = (f, g)

  rebuild-IsWellTyped :
      (type : Connective) (c : Condition I) (cs : List (Condition I))
      → IsWellTyped c
      → AllTyped cs
      → IsWellTyped (rebuild type c cs)
  unfolding rebuild AllTyped
  rebuild-IsWellTyped type c [] f g = f
  rebuild-IsWellTyped type c (d ∷ cs) f (g, gs) =
      rebuild-IsWellTyped type (make type c d) cs (make-IsWellTyped type c d f g) gs

  append-AllTyped : (cs ds : List (Condition I)) → AllTyped cs → AllTyped ds → AllTyped (cs ++ ds)
  unfolding AllTyped
  append-AllTyped [] ds f g = g
  append-AllTyped (c ∷ cs) ds (f, fs) g = (f, append-AllTyped cs ds fs g)

  join-IsTyped :
      (p q : Condition I × List (Condition I)) → IsTyped p → IsTyped q → IsTyped (join p q)
  unfolding IsTyped AllTyped
  join-IsTyped (c, cs) (d, ds) (f, fs) g = (f, append-AllTyped cs (d ∷ ds) fs g)

  rebuild_all-IsWellTyped :
      (type : Connective) (p : Condition I × List (Condition I))
      → IsTyped p
      → IsWellTyped (rebuild_all type p)
  unfolding IsTyped
  rebuild_all-IsWellTyped type (c, cs) (f, fs) = rebuild-IsWellTyped type c cs f fs

  single-IsTyped : (c : Condition I) → IsWellTyped c → IsTyped (single c)
  unfolding IsTyped AllTyped
  single-IsTyped c f = (f, tt)

  flat_children-IsTyped :
      (type : Connective) (c : Condition I) → IsWellTyped c → IsTyped (flat_children type c)
  unfolding flat_children
  flat_children-IsTyped conjunction (and_condition l r) (f, g) =
      join-IsTyped _ _ (flat_children-IsTyped conjunction l f)
        (flat_children-IsTyped conjunction r g)
  flat_children-IsTyped disjunction (or_condition l r) (f, g) =
      join-IsTyped _ _ (flat_children-IsTyped disjunction l f)
        (flat_children-IsTyped disjunction r g)
  flat_children-IsTyped disjunction (and_condition l r) (f, g) = single-IsTyped _ (
      rebuild_all-IsWellTyped conjunction _ (
        join-IsTyped _ _ (flat_children-IsTyped conjunction l f)
          (flat_children-IsTyped conjunction r g)))
  flat_children-IsTyped conjunction (or_condition l r) (f, g) = single-IsTyped _ (
      rebuild_all-IsWellTyped disjunction _ (
        join-IsTyped _ _ (flat_children-IsTyped disjunction l f)
          (flat_children-IsTyped disjunction r g)))
  flat_children-IsTyped type (not_condition c) f =
      single-IsTyped _
        (rebuild_all-IsWellTyped (connective_of c) _ (flat_children-IsTyped (connective_of c) c f))
  flat_children-IsTyped type (compare_condition column op value) f = single-IsTyped _ tt
  flat_children-IsTyped type (in_condition column is_not_in values) f = single-IsTyped _ f

  flatten_impl-IsWellTyped : (c : Condition I) → IsWellTyped c → IsWellTyped (flatten_impl c)
  unfolding flatten_impl
  flatten_impl-IsWellTyped c f =
      rebuild_all-IsWellTyped (connective_of c) _ (flat_children-IsTyped (connective_of c) c f)

  -- On every row, a condition that goes through the first three passes of the rewriter, which push its
  -- NOTs down, flatten it and fold its IN lists, keeps its truth value, also where NULLs and missing
  -- columns make it unknown; the values in its lists are valid.
  pub passes-keep :
      (lookup : I → Option Value) (c : Condition I)
      → IsWellTyped c
      → evaluate lookup (fold_constants_impl (flatten_impl (pushdown_not c))) ≡ evaluate lookup c
  unfolding pushdown_not
  passes-keep lookup c f =
      let pushed = pushdown_not_impl c false in
      let typed : IsWellTyped pushed = pushdown_not_impl-IsWellTyped c false f in
      fold_constants_impl-keeps lookup (flatten_impl pushed) (flatten_impl-IsWellTyped pushed typed)
      ∙ (flatten_impl-keeps lookup pushed ∙ pushdown_not-keeps lookup c)
