-- ===== src/Sql/Candidates/Leaves.antt =====
-- The ranges of a comparison and of IN, and what the two say of the column's values.
use hands_on_sqldb_in_cpp.Prelude.{
  ◌≡◌, refl, sym, true, false, ◌||◌, Option, none, some, List, [], ◌∷◌, arith, Bool-cases, inl, inr,
  if◌then◌else◌,
}
use hands_on_sqldb_in_cpp.Sql.Types.{DataType, Value, null_value, type_of, is_null}
use hands_on_sqldb_in_cpp.Sql.Key.{tag_of}
use hands_on_sqldb_in_cpp.Sql.Key.Ordered.{FitsColumn}
use hands_on_sqldb_in_cpp.Sql.Truth.{
  Truth, is_false, equals_true, truth_or, sql_compare_op, CompareOp, eq, ne, gt, ge, lt, le, like,
  not_like, is_null_op, is_not_null_op, unknown_op,
}
use hands_on_sqldb_in_cpp.Sql.Conditions.{any_equal}
use hands_on_sqldb_in_cpp.Sql.KeyRange.{
  KeyRange, all, null_only, non_null, empty, from, closed, point,
}
use hands_on_sqldb_in_cpp.Sql.KeyRange
use hands_on_sqldb_in_cpp.Sql.KeyRange.Bounds.{IsOf, is_between, contains-is_between}
use hands_on_sqldb_in_cpp.Sql.KeyRange.Sets.{contains_any, empty-contains}
use hands_on_sqldb_in_cpp.Sql.Candidates.{
  range_of_compare, is_indexable, indexed_range, points_of, or_empty_range,
}
use hands_on_sqldb_in_cpp.Sql.Candidates.Merged.{AllOf}
use hands_on_sqldb_in_cpp.Sql.Candidates.Alike.{
  IsLike, IsLike-FitsColumn, holds, compare-holds, order_of_null,
}

-- Literals that a comparison with the column takes as they are.
abbrev pub AllLike : DataType → List Value → Type 0
AllLike column [] = Unit {0}
AllLike column (w ∷ ws) = IsLike column w × AllLike column ws

tag_of_alike :
    (column : DataType) (w : Value)
    → IsLike column w
    → is_null w ≡ false
    → tag_of (type_of w) ≡ tag_of column
tag_of_alike column w m n = ground (arith, m.1, n)

nothing_null :
    (op : CompareOp) (v w : Value)
    → is_indexable op ≡ true
    → is_null w ≡ true
    → equals_true (sql_compare_op op v w) ≡ false
unfolding sql_compare_op
nothing_null op v w i n = ground (arith, i, n, order_of_null v w)

or_true : (a b : Truth) → equals_true (truth_or a b) ≡ (equals_true a || equals_true b)
or_true a b = ground arith

module _ (column : DataType) (v : Value) (l : IsLike column v) where
  -- Ranges of the column that contain the value exactly if the condition is TRUE of it.
  abbrev pub Answers : List KeyRange → Truth → Type 0
  Answers rs t = AllOf column rs × (contains_any rs v ≡ equals_true t)

  abbrev pub Answered : Option (List KeyRange) → Truth → Type 0
  Answered none t = Unit {0}
  Answered (some rs) t = Answers rs t

  one_range :
      (r : KeyRange) (t : Truth)
      → IsOf column r
      → is_between r v ≡ equals_true t
      → Answers (r ∷ []) t
  one_range r t g h =
      ((g, tt), ground (arith, contains-is_between column r v g (IsLike-FitsColumn column v l), h))

  no_range : (t : Truth) → equals_true t ≡ false → Answers (empty column ∷ []) t
  unfolding empty all
  no_range t h = (((refl, (tt, refl), (tt, refl)), tt), ground (arith, empty-contains column v, h))

  module _ (w : Value) (m : IsLike column w) (n : is_null w ≡ false) where
    fits : FitsColumn column w
    fits = IsLike-FitsColumn column w m

    tag : tag_of (type_of w) ≡ tag_of column
    tag = tag_of_alike column w m n

    null_fits : FitsColumn column null_value
    null_fits = (tt, refl)

    indexed-Answered :
        (op : CompareOp)
        → is_indexable op ≡ true
        → Answered (indexed_range op w) (sql_compare_op op v w)
    unfolding point closed KeyRange.gt KeyRange.ge KeyRange.lt KeyRange.le from non_null all
    indexed-Answered op h = by_op op h (compare-holds column op v w l m n h)
      where
        by_op :
            (op : CompareOp)
            → is_indexable op ≡ true
            → equals_true (sql_compare_op op v w) ≡ holds op v w
            → Answered (indexed_range op w) (sql_compare_op op v w)
        by_op eq h t = rw n (one_range _ _ (tag, fits, fits) (sym t))
        by_op gt h t = rw n (one_range _ _ (tag, fits, tt) (ground (arith, t)))
        by_op ge h t = rw n (one_range _ _ (tag, fits, tt) (ground (arith, t)))
        by_op lt h t = rw n (one_range _ _ (tag, null_fits, fits) (sym t))
        by_op le h t = rw n (one_range _ _ (tag, null_fits, fits) (sym t))
        by_op ne h t = tt
        by_op like h t = tt
        by_op not_like h t = tt
        by_op is_null_op h t = tt
        by_op is_not_null_op h t = tt
        by_op unknown_op h t = tt

  leaf-Answered :
      (op : CompareOp) (w : Value)
      → IsLike column w
      → is_indexable op ≡ true
      → Answered
          (if is_null w then some (empty column ∷ []) else indexed_range op w)
          (sql_compare_op op v w)
  leaf-Answered op w m i = elim (Bool-cases (is_null w)) [
    | inl n ↦ rw n (no_range (sql_compare_op op v w) (nothing_null op v w i n))
    | inr n ↦ rw n (indexed-Answered w m n op i)
  ]

  pub compare-Answered :
      (op : CompareOp) (w : Value)
      → IsLike column w
      → Answered (range_of_compare column op w) (sql_compare_op op v w)
  unfolding null_only non_null all KeyRange.normalize sql_compare_op
  compare-Answered eq w m = leaf-Answered eq w m refl
  compare-Answered gt w m = leaf-Answered gt w m refl
  compare-Answered ge w m = leaf-Answered ge w m refl
  compare-Answered lt w m = leaf-Answered lt w m refl
  compare-Answered le w m = leaf-Answered le w m refl
  compare-Answered ne w m = tt
  compare-Answered like w m = tt
  compare-Answered not_like w m = tt
  compare-Answered is_null_op w m = one_range _ _ (refl, tt, (tt, refl)) (ground arith)
  compare-Answered is_not_null_op w m = one_range _ _ (refl, (tt, refl), tt) (ground arith)
  compare-Answered unknown_op w m = tt

  points-AllOf : (ws : List Value) → AllLike column ws → AllOf column (points_of ws)
  unfolding points_of point closed all
  points-AllOf [] ms = tt
  points-AllOf (w ∷ ws) ms = elim (Bool-cases (is_null w)) [
    | inl n ↦ rw n (points-AllOf ws ms.1)
    | inr n ↦ rw n ((tag w ms.0 n, fits w ms.0 n, fits w ms.0 n), points-AllOf ws ms.1)
  ]

  points-any_equal :
      (acc : Truth) (ws : List Value)
      → AllLike column ws
      → equals_true (any_equal v acc ws) ≡ (equals_true acc || contains_any (points_of ws) v)
  unfolding any_equal points_of
  points-any_equal acc [] ms = ground arith
  points-any_equal acc (w ∷ ws) ms =
      let rest = points-any_equal (truth_or acc (sql_compare_op eq v w)) ws ms.1 in
      let either = or_true acc (sql_compare_op eq v w) in
      elim (Bool-cases (is_null w)) [
        | inl n ↦ rw n (ground (arith, rest, either, nothing_null eq v w refl n))
        | inr n ↦
            let one = (indexed-Answered w ms.0 n eq refl).1 in
            rw n (ground (arith, rest, either, one))
      ]

  pub in-Answers :
      (ws : List Value)
      → AllLike column ws
      → Answers (or_empty_range column (points_of ws)) (any_equal v is_false ws)
  in-Answers ws ms = by_points (points_of ws) (points-AllOf ws ms) (points-any_equal is_false ws ms)
    where
      by_points :
          (rs : List KeyRange)
          → AllOf column rs
          → equals_true (any_equal v is_false ws) ≡ contains_any rs v
          → Answers (or_empty_range column rs) (any_equal v is_false ws)
      by_points [] g h = no_range (any_equal v is_false ws) h
      by_points (r ∷ rs) g h = (g, sym h)
