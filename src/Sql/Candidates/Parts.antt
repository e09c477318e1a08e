-- ===== src/Sql/Candidates/Parts.antt =====
-- The two parts that a condition is split into keep together the rows that it keeps.
use hands_on_sqldb_in_cpp.Prelude.{
  ◌≡◌, refl, sym, ◌∙◌, Bool, true, false, ◌||◌, ◌&&◌, Option, none, some, arith, Bool-cases, inl,
  inr, if◌then◌else◌,
}
use hands_on_sqldb_in_cpp.Sql.Types.{Value}
use hands_on_sqldb_in_cpp.Sql.Truth.{where_keeps}
use hands_on_sqldb_in_cpp.Sql.Conditions.{
  Condition, compare_condition, in_condition, and_condition, or_condition, not_condition, evaluate,
}
use hands_on_sqldb_in_cpp.Sql.Candidates.Answered.{evaluated_and, evaluated_or}
use hands_on_sqldb_in_cpp.Sql.Candidates.Split.{
  SplitConditions, split_primary_key, join_and, join_or, make_or, and_split, or_split,
  rebuild_split, is_none, key_part, other_part,
}

module _ {I : Type 0} where
  -- A part that is not there keeps every row.
  abbrev pub part_keeps : (I → Option Value) → Option (Condition I) → Bool
  part_keeps lookup none = true
  part_keeps lookup (some c) = where_keeps (evaluate lookup c)

  and-keeps :
      (lookup : I → Option Value) (a b : Condition I)
      → where_keeps (evaluate lookup (and_condition a b))
        ≡ (where_keeps (evaluate lookup a) && where_keeps (evaluate lookup b))
  unfolding evaluate
  and-keeps lookup a b = evaluated_and (evaluate lookup a) (evaluate lookup b)

  or-keeps :
      (lookup : I → Option Value) (a b : Condition I)
      → where_keeps (evaluate lookup (or_condition a b))
        ≡ (where_keeps (evaluate lookup a) || where_keeps (evaluate lookup b))
  unfolding evaluate
  or-keeps lookup a b = evaluated_or (evaluate lookup a) (evaluate lookup b)

  join_and-keeps :
      (lookup : I → Option Value) (a b : Option (Condition I))
      → part_keeps lookup (join_and a b) ≡ (part_keeps lookup a && part_keeps lookup b)
  unfolding evaluate
  join_and-keeps lookup none b = refl
  join_and-keeps lookup (some a) none = ground arith
  join_and-keeps lookup (some a) (some b) = and-keeps lookup a b

  join_or-keeps :
      (lookup : I → Option Value) (a b : Option (Condition I))
      → is_none a ≡ false
      → is_none b ≡ false
      → part_keeps lookup (join_or a b) ≡ (part_keeps lookup a || part_keeps lookup b)
  unfolding evaluate
  join_or-keeps lookup none b h k = absurd (ground (arith, h))
  join_or-keeps lookup (some a) none h k = absurd (ground (arith, k))
  join_or-keeps lookup (some a) (some b) h k = or-keeps lookup a b

  make_or-keeps :
      (lookup : I → Option Value) (a b : Option (Condition I))
      → is_none a ≡ false
      → is_none b ≡ false
      → part_keeps lookup (make_or a b) ≡ (part_keeps lookup a || part_keeps lookup b)
  unfolding evaluate
  make_or-keeps lookup none b h k = absurd (ground (arith, h))
  make_or-keeps lookup (some a) none h k = absurd (ground (arith, k))
  make_or-keeps lookup (some a) (some b) h k = or-keeps lookup a b

  none-keeps :
      (lookup : I → Option Value) (a : Option (Condition I))
      → is_none a ≡ true
      → part_keeps lookup a ≡ true
  none-keeps lookup none h = refl
  none-keeps lookup (some a) h = absurd (ground (arith, h))

  join_and-is_none :
      (a b : Option (Condition I)) → is_none (join_and a b) ≡ (is_none a && is_none b)
  join_and-is_none none b = refl
  join_and-is_none (some a) none = refl
  join_and-is_none (some a) (some b) = refl

  join_or-is_none : (a b : Option (Condition I)) → is_none (join_or a b) ≡ (is_none a && is_none b)
  join_or-is_none none b = refl
  join_or-is_none (some a) none = refl
  join_or-is_none (some a) (some b) = refl

  make_or-is_none : (a b : Option (Condition I)) → is_none (make_or a b) ≡ (is_none a || is_none b)
  make_or-is_none none b = refl
  make_or-is_none (some a) none = refl
  make_or-is_none (some a) (some b) = refl

  abbrev whole_keeps : (I → Option Value) → SplitConditions I → Bool
  whole_keeps lookup s = part_keeps lookup s.pk_cond && part_keeps lookup s.remaining

  leaf_split-keeps :
      (lookup : I → Option Value) (usable : Bool) (c : Condition I)
      → where_keeps (evaluate lookup c)
        ≡ whole_keeps lookup (if usable then key_part c else other_part c)
  leaf_split-keeps lookup true c = ground arith
  leaf_split-keeps lookup false c = refl

  and_split-keeps :
      (lookup : I → Option Value) (p q : SplitConditions I)
      → whole_keeps lookup (and_split p q) ≡ (whole_keeps lookup p && whole_keeps lookup q)
  and_split-keeps lookup p q =
      rw (join_and-keeps lookup p.pk_cond q.pk_cond, join_and-keeps lookup p.remaining q.remaining)
        (ground arith)

  key_only :
      (lookup : I → Option Value) (p : SplitConditions I)
      → (is_none p.pk_cond && is_none p.remaining) ≡ false
      → is_none p.remaining ≡ true
      → (is_none p.pk_cond ≡ false) × (whole_keeps lookup p ≡ part_keeps lookup p.pk_cond)
  key_only lookup p h n =
      (ground (arith, h, n), rw (none-keeps lookup p.remaining n) (ground arith))

  rebuilt :
      (lookup : I → Option Value) (p : SplitConditions I)
      → (is_none p.pk_cond && is_none p.remaining) ≡ false
      → (is_none (rebuild_split p) ≡ false)
        × (part_keeps lookup (rebuild_split p) ≡ whole_keeps lookup p)
  rebuilt lookup p h =
      (join_and-is_none p.pk_cond p.remaining ∙ h, join_and-keeps lookup p.pk_cond p.remaining)

  or_split-keeps :
      (lookup : I → Option Value) (p q : SplitConditions I)
      → (is_none p.pk_cond && is_none p.remaining) ≡ false
      → (is_none q.pk_cond && is_none q.remaining) ≡ false
      → whole_keeps lookup (or_split p q) ≡ (whole_keeps lookup p || whole_keeps lookup q)
  or_split-keeps lookup p q f g = elim (Bool-cases (is_none p.remaining && is_none q.remaining)) [
    | inl h ↦
        let (some_a, whole_a) = key_only lookup p f (ground (arith, h)) in
        let (some_b, whole_b) = key_only lookup q g (ground (arith, h)) in
        rw (h, whole_a, whole_b, join_or-keeps lookup p.pk_cond q.pk_cond some_a some_b)
          (ground arith)
    | inr h ↦
        let (some_a, whole_a) = rebuilt lookup p f in
        let (some_b, whole_b) = rebuilt lookup q g in
        rw
          (
            h,
            make_or-keeps lookup (rebuild_split p) (rebuild_split q) some_a some_b,
            whole_a,
            whole_b,
          )
          refl
  ]

  module _ (is_key : I → Bool) where
    split-IsSome :
        (c : Condition I)
        → let s = split_primary_key is_key c in (is_none s.pk_cond && is_none s.remaining) ≡ false
    unfolding split_primary_key
    split-IsSome (compare_condition name op w) = ground arith
    split-IsSome (in_condition name is_not_in ws) = ground arith
    split-IsSome (and_condition a b) =
        let p = split_primary_key is_key a in
        let q = split_primary_key is_key b in
        ground (
          arith,
          split-IsSome a,
          join_and-is_none p.pk_cond q.pk_cond,
          join_and-is_none p.remaining q.remaining,
        )
    split-IsSome (or_condition a b) =
        let p = split_primary_key is_key a in
        let q = split_primary_key is_key b in
        ground (
          arith,
          split-IsSome a,
          split-IsSome b,
          join_or-is_none p.pk_cond q.pk_cond,
          make_or-is_none (rebuild_split p) (rebuild_split q),
          join_and-is_none p.pk_cond p.remaining,
          join_and-is_none q.pk_cond q.remaining,
        )
    split-IsSome (not_condition a) = refl

    pub split-keeps :
        (lookup : I → Option Value) (c : Condition I)
        → let s = split_primary_key is_key c in
          where_keeps (evaluate lookup c)
          ≡ (part_keeps lookup s.pk_cond && part_keeps lookup s.remaining)
    unfolding split_primary_key
    split-keeps lookup (compare_condition name op w) = leaf_split-keeps lookup _ _
    split-keeps lookup (in_condition name is_not_in ws) = leaf_split-keeps lookup _ _
    split-keeps lookup (and_condition a b) =
        and-keeps lookup a b
        ∙ (rw (split-keeps lookup a, split-keeps lookup b) refl
            ∙ sym
                (and_split-keeps lookup (split_primary_key is_key a) (split_primary_key is_key b)))
    split-keeps lookup (or_condition a b) =
        or-keeps lookup a b
        ∙ (rw (split-keeps lookup a, split-keeps lookup b) refl
            ∙ sym (
                or_split-keeps lookup (split_primary_key is_key a) (split_primary_key is_key b)
                  (split-IsSome a) (split-IsSome b)))
    split-keeps lookup (not_condition a) = refl
