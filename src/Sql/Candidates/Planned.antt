-- ===== src/Sql/Candidates/Planned.antt =====
-- A condition that is split, and whose part on the primary key becomes ranges, keeps its rows.
use hands_on_sqldb_in_cpp.Prelude.{
  ◌≡◌, refl, Bool, true, false, not, ◌||◌, ◌&&◌, Option, none, some, List, arith, ◌⊎◌, Bool-cases,
  Option-cases, inl, inr,
}
use hands_on_sqldb_in_cpp.Sql.Types.{DataType, Value}
use hands_on_sqldb_in_cpp.Sql.Truth.{where_keeps, CompareOp}
use hands_on_sqldb_in_cpp.Sql.Conditions.{
  Condition, compare_condition, in_condition, and_condition, or_condition, not_condition, evaluate,
}
use hands_on_sqldb_in_cpp.Sql.KeyRange.{KeyRange}
use hands_on_sqldb_in_cpp.Sql.KeyRange.Sets.{contains_any}
use hands_on_sqldb_in_cpp.Sql.Candidates.{
  range_of_condition, range_of_compare, is_indexable, if_both,
}
use hands_on_sqldb_in_cpp.Sql.Candidates.Alike.{IsLike}
use hands_on_sqldb_in_cpp.Sql.Candidates.Leaves.{AllLike}
use hands_on_sqldb_in_cpp.Sql.Candidates.Answered.{Asks}
use hands_on_sqldb_in_cpp.Sql.Candidates.Split.{
  split_primary_key, join_and, join_or, is_none, is_null_test,
}
use hands_on_sqldb_in_cpp.Sql.Candidates.Parts.{part_keeps, split-keeps}
use hands_on_sqldb_in_cpp.Sql.Candidates.Answered.{candidates-evaluate}
use hands_on_sqldb_in_cpp.Sql.Candidates.{normalize_ranges}

abbrev has : Option (List KeyRange) → Bool
has none = false
has (some rs) = true

leaf_range :
    (column : DataType) (op : CompareOp) (w : Value)
    → (is_indexable op || is_null_test op) ≡ true
    → has (range_of_compare column op w) ≡ true
leaf_range column op w h = ground (arith, h)

both_ranges :
    (f : List KeyRange → List KeyRange → List KeyRange) (a b : Option (List KeyRange))
    → has a ≡ true
    → has b ≡ true
    → has (if_both f a b) ≡ true
both_ranges f none b h k = absurd (ground (arith, h))
both_ranges f (some a) none h k = absurd (ground (arith, k))
both_ranges f (some a) (some b) h k = refl

module _ {I : Type 0} where
  -- The literals that are compared with the key are like its values.
  abbrev pub KeyLiterals : (I → Bool) → DataType → Condition I → Type 0
  KeyLiterals is_key column (compare_condition name op w) = (is_key name ≡ false) ⊎ IsLike column w
  KeyLiterals is_key column (in_condition name is_not_in ws) =
      (is_key name ≡ false) ⊎ AllLike column ws
  KeyLiterals is_key column (and_condition a b) =
      KeyLiterals is_key column a × KeyLiterals is_key column b
  KeyLiterals is_key column (or_condition a b) =
      KeyLiterals is_key column a × KeyLiterals is_key column b
  KeyLiterals is_key column (not_condition a) = Unit {0}

  module _ (is_key : I → Bool) where
    of_key : (name : I) (P : Type 0) → is_key name ≡ true → (is_key name ≡ false) ⊎ P → P
    of_key name P h (inl n) = absurd (ground (arith, h, n))
    of_key name P h (inr p) = p

    -- What the ranges need of a part on the key: literals like its values, and that they are found.
    abbrev IsAsked : DataType → (I → Option Value) → Value → Option (Condition I) → Type 0
    IsAsked column lookup v none = Unit {0}
    IsAsked column lookup v (some c) =
        Asks column lookup v c × (has (range_of_condition c column) ≡ true)

    module _ (column : DataType) (lookup : I → Option Value) (v : Value) where
      join_and-IsAsked :
          (a b : Option (Condition I))
          → IsAsked column lookup v a
          → IsAsked column lookup v b
          → IsAsked column lookup v (join_and a b)
      unfolding range_of_condition
      join_and-IsAsked none b p q = q
      join_and-IsAsked (some a) none p q = p
      join_and-IsAsked (some a) (some b) p q = ((p.0, q.0), both_ranges _ _ _ p.1 q.1)

      join_or-IsAsked :
          (a b : Option (Condition I))
          → IsAsked column lookup v a
          → IsAsked column lookup v b
          → IsAsked column lookup v (join_or a b)
      unfolding range_of_condition
      join_or-IsAsked none b p q = q
      join_or-IsAsked (some a) none p q = p
      join_or-IsAsked (some a) (some b) p q = ((p.0, q.0), both_ranges _ _ _ p.1 q.1)

      split-IsAsked :
          (c : Condition I)
          → ((name : I) → is_key name ≡ true → lookup name ≡ some v)
          → KeyLiterals is_key column c
          → IsAsked column lookup v (split_primary_key is_key c).pk_cond
      unfolding split_primary_key range_of_condition
      split-IsAsked (compare_condition name op w) found g =
          elim (Bool-cases (is_key name && (is_indexable op || is_null_test op))) [
            | inl h ↦ rw h (
              (found name (ground (arith, h)), of_key name (IsLike column w) (ground (arith, h)) g),
              leaf_range column op w (ground (arith, h)),
            )
            | inr h ↦ rw h tt
          ]
      split-IsAsked (in_condition name is_not_in ws) found g =
          elim (Bool-cases (is_key name && not is_not_in)) [
            | inl h ↦ rw h (
              (
                found name (ground (arith, h)),
                of_key name (AllLike column ws) (ground (arith, h)) g,
              ),
              ground (arith, h),
            )
            | inr h ↦ rw h tt
          ]
      split-IsAsked (and_condition a b) found g =
          join_and-IsAsked _ _ (split-IsAsked a found g.0) (split-IsAsked b found g.1)
      split-IsAsked (or_condition a b) found g =
          let p = split_primary_key is_key a in
          let q = split_primary_key is_key b in
          let joined =
            join_or-IsAsked p.pk_cond q.pk_cond (split-IsAsked a found g.0)
              (split-IsAsked b found g.1) in
          elim (Bool-cases (is_none p.remaining && is_none q.remaining)) [
            | inl h ↦ rw h joined
            | inr h ↦ rw h tt
          ]
      split-IsAsked (not_condition a) found g = tt

-- Whether a value lies in the ranges that a condition becomes, if it becomes ranges at all.
abbrev pub in_ranges : Option (List KeyRange) → Value → Bool
in_ranges none v = false
in_ranges (some rs) v = contains_any (normalize_ranges rs) v

-- The values that are scanned for a condition on the key: all of them if there is none.
abbrev pub is_scanned : {I : Type 0} → DataType → Option (Condition I) → Value → Bool
is_scanned column none v = true
is_scanned column (some c) v = in_ranges (range_of_condition c column) v

-- A condition on a table is split into a part on the primary key and the rest: a row whose key is
-- scanned for the part on the key, and that the rest keeps, is a row that WHERE keeps, and the other
-- way round. The literals that are compared with the key are of its class, or NULL.
pub planned-evaluate :
    {I : Type 0} (is_key : I → Bool) (column : DataType) (v : Value) (lookup : I → Option Value)
    (c : Condition I)
    → IsLike column v
    → ((name : I) → is_key name ≡ true → lookup name ≡ some v)
    → KeyLiterals is_key column c
    → let s = split_primary_key is_key c in
      (is_scanned column s.pk_cond v && part_keeps lookup s.remaining)
      ≡ where_keeps (evaluate lookup c)
planned-evaluate {I = I} is_key column v lookup c l found g =
    rw
      (
        split-keeps is_key lookup c,
        scanned (split_primary_key is_key c).pk_cond
            (split-IsAsked is_key column lookup v c found g),
      )
      refl
  where
    scanned :
        (part : Option (Condition I))
        → IsAsked is_key column lookup v part
        → is_scanned column part v ≡ part_keeps lookup part
    scanned none p = refl
    scanned (some a) p = elim (Option-cases (range_of_condition a column)) [
      | inl h ↦ absurd (ground (arith, h, p.1))
      | inr (rs, h) ↦ rw h (candidates-evaluate column v lookup a rs l p.0 h)
    ]
