-- ===== src/Sql/Rewriter/Fold.antt =====
-- A condition whose IN lists are folded is the same condition.
use mathlib.Core.List.{append_assoc, append-nil}
use hands_on_sqldb_in_cpp.Prelude.{
  ◌≡◌, refl, sym, ap, ◌∙◌, Bool, true, false, Option, none, some, List, [], ◌∷◌, ◌++◌,
  if◌then◌else◌, arith, Bool-cases, inl, inr,
}
use hands_on_sqldb_in_cpp.Sql.Types.{Value, IsValid, is_null, value_equal}
use hands_on_sqldb_in_cpp.Sql.Truth.{Truth, is_false, truth_not, truth_or, eq, ne, sql_compare_op}
use hands_on_sqldb_in_cpp.Sql.Truth.Negation.{sql_compare_op-flip}
use hands_on_sqldb_in_cpp.Sql.Conditions.{
  Condition, compare_condition, in_condition, and_condition, or_condition, not_condition, any_equal,
  compare_found, in_found, evaluate,
}
use hands_on_sqldb_in_cpp.Sql.Conditions.Pushdown.{
  evaluate-and, evaluate-or, evaluate-not, evaluate-leaf,
}
use hands_on_sqldb_in_cpp.Sql.Rewriter.{has_value, distinct_values, fold_in, fold_constants_impl}
use hands_on_sqldb_in_cpp.Sql.Rewriter.Values.{value_equal-compare}

abbrev pub AllValid : List Value → Type 0
AllValid [] = Unit {0}
AllValid (v ∷ values) = IsValid v × AllValid values

AllValid-append : (xs ys : List Value) → AllValid xs → AllValid ys → AllValid (xs ++ ys)
AllValid-append [] ys f g = g
AllValid-append (x ∷ xs) ys (f, fs) g = (f, AllValid-append xs ys fs g)

any_equal-append :
    (lhs : Value) (acc : Truth) (xs ys : List Value)
    → any_equal lhs acc (xs ++ ys) ≡ any_equal lhs (any_equal lhs acc xs) ys
unfolding any_equal
any_equal-append lhs acc [] ys = refl
any_equal-append lhs acc (x ∷ xs) ys =
    any_equal-append lhs (truth_or acc (sql_compare_op eq lhs x)) xs ys

or_swap : (a b c : Truth) → truth_or (truth_or a b) c ≡ truth_or (truth_or a c) b
or_swap a b c = ground arith

or_twice : (a b : Truth) → truth_or (truth_or a b) b ≡ truth_or a b
or_twice a b = ground arith

-- A further disjunct may be added before or after the loop.
any_equal-or :
    (lhs : Value) (acc t : Truth) (xs : List Value)
    → any_equal lhs (truth_or acc t) xs ≡ truth_or (any_equal lhs acc xs) t
unfolding any_equal
any_equal-or lhs acc t [] = refl
any_equal-or lhs acc t (x ∷ xs) =
    ap (λ (a : Truth). any_equal lhs a xs) (or_swap acc t (sql_compare_op eq lhs x))
    ∙ any_equal-or lhs (truth_or acc (sql_compare_op eq lhs x)) t xs

-- A value that is in the list adds nothing.
has_value-absorbed :
    (lhs v : Value) (acc : Truth) (kept : List Value)
    → IsValid v
    → AllValid kept
    → has_value v kept ≡ true
    → truth_or (any_equal lhs acc kept) (sql_compare_op eq lhs v) ≡ any_equal lhs acc kept
unfolding has_value any_equal
has_value-absorbed lhs v acc [] f g h = ground (arith, h)
has_value-absorbed lhs v acc (k ∷ kept) f (g, gs) h = elim (Bool-cases (value_equal k v)) [
  | inl same ↦
      let t = sql_compare_op eq lhs v in
      let alike : sql_compare_op eq lhs k ≡ t = value_equal-compare lhs k v g f same in
      rw alike (
        sym (any_equal-or lhs (truth_or acc t) t kept)
        ∙ ap (λ (a : Truth). any_equal lhs a kept) (or_twice acc t))
  | inr other ↦
      has_value-absorbed lhs v (truth_or acc (sql_compare_op eq lhs k)) kept f gs
        (ground (arith, h, other))
]

any_equal-distinct_values :
    (lhs : Value) (acc : Truth) (kept values : List Value)
    → AllValid kept
    → AllValid values
    → any_equal lhs acc (distinct_values kept values) ≡ any_equal lhs acc (kept ++ values)
unfolding distinct_values any_equal
any_equal-distinct_values lhs acc kept [] f g = rw (append-nil kept) refl
any_equal-distinct_values lhs acc kept (v ∷ values) f (g, gs) =
    elim (Bool-cases (has_value v kept)) [
      | inl found ↦ rw found (
          any_equal-distinct_values lhs acc kept values f gs
          ∙ (any_equal-append lhs acc kept values
              ∙ (ap (λ (a : Truth). any_equal lhs a values)
                    (sym (has_value-absorbed lhs v acc kept g f found))
                  ∙ sym (any_equal-append lhs acc kept (v ∷ values)))))
      | inr new ↦ rw new (
          any_equal-distinct_values lhs acc (kept ++ v ∷ []) values
            (AllValid-append kept (v ∷ []) f (g, tt)) gs
          ∙ ap (any_equal lhs acc) (append_assoc kept (v ∷ []) values))
    ]

in_found-distinct_values :
    (found : Option Value) (is_not_in : Bool) (values : List Value)
    → AllValid values
    → in_found found is_not_in (distinct_values [] values) ≡ in_found found is_not_in values
in_found-distinct_values none is_not_in values f = refl
in_found-distinct_values (some lhs) is_not_in values f =
    ap (λ (t : Truth). if is_not_in then truth_not t else t)
      (any_equal-distinct_values lhs is_false [] values tt f)

or_false : (t : Truth) → truth_or is_false t ≡ t
or_false t = ground arith

compare_found-one :
    (found : Option Value) (is_not_in : Bool) (v : Value)
    → compare_found found (if is_not_in then ne else eq) v ≡ in_found found is_not_in (v ∷ [])
unfolding any_equal
compare_found-one none is_not_in v = refl
compare_found-one (some lhs) true v =
    sql_compare_op-flip eq lhs v ∙ ap truth_not (sym (or_false (sql_compare_op eq lhs v)))
compare_found-one (some lhs) false v = sym (or_false (sql_compare_op eq lhs v))

module _ {I : Type 0} where
  -- The values in the lists of a condition are valid.
  abbrev pub IsWellTyped : Condition I → Type 0
  IsWellTyped (compare_condition column op value) = Unit {0}
  IsWellTyped (in_condition column is_not_in values) = AllValid values
  IsWellTyped (and_condition l r) = IsWellTyped l × IsWellTyped r
  IsWellTyped (or_condition l r) = IsWellTyped l × IsWellTyped r
  IsWellTyped (not_condition c) = IsWellTyped c

  evaluate-fold_in :
      (lookup : I → Option Value) (column : I) (is_not_in : Bool) (values : List Value)
      → evaluate lookup (fold_in column is_not_in values)
        ≡ in_found (lookup column) is_not_in values
  unfolding evaluate
  evaluate-fold_in lookup column is_not_in [] = refl
  evaluate-fold_in lookup column is_not_in (v ∷ w ∷ values) = refl
  evaluate-fold_in lookup column is_not_in (v ∷ []) = elim (Bool-cases (is_null v)) [
    | inl null ↦ rw null refl
    | inr value ↦ rw value (compare_found-one (lookup column) is_not_in v)
  ]

  pub fold_constants_impl-keeps :
      (lookup : I → Option Value) (c : Condition I)
      → IsWellTyped c
      → evaluate lookup (fold_constants_impl c) ≡ evaluate lookup c
  unfolding fold_constants_impl
  fold_constants_impl-keeps lookup (compare_condition column op value) f = refl
  fold_constants_impl-keeps lookup (in_condition column is_not_in values) f =
      evaluate-fold_in lookup column is_not_in (distinct_values [] values)
      ∙ (in_found-distinct_values (lookup column) is_not_in values f
          ∙ sym (evaluate-leaf lookup column is_not_in values))
  fold_constants_impl-keeps lookup (and_condition l r) (f, g) =
      rw
        (
          evaluate-and lookup (fold_constants_impl l) (fold_constants_impl r),
          evaluate-and lookup l r,
          fold_constants_impl-keeps lookup l f,
          fold_constants_impl-keeps lookup r g,
        )
        refl
  fold_constants_impl-keeps lookup (or_condition l r) (f, g) =
      rw
        (
          evaluate-or lookup (fold_constants_impl l) (fold_constants_impl r),
          evaluate-or lookup l r,
          fold_constants_impl-keeps lookup l f,
          fold_constants_impl-keeps lookup r g,
        )
        refl
  fold_constants_impl-keeps lookup (not_condition c) f =
      rw (evaluate-not lookup (fold_constants_impl c), evaluate-not lookup c)
        (ap truth_not (fold_constants_impl-keeps lookup c f))
