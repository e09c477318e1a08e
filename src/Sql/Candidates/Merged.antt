-- ===== src/Sql/Candidates/Merged.antt =====
-- The lists of ranges of a column: sorting, merging, uniting and intersecting them gives such lists.
use mathlib.Core.Option.{some-injective}
use hands_on_sqldb_in_cpp.Prelude.{
  ◌≡◌, refl, Bool, true, false, ◌||◌, none, some, List, [], ◌∷◌, ◌++◌, arith, Bool-cases,
  Option-cases, inl, inr, if◌then◌else◌,
}
use hands_on_sqldb_in_cpp.Sql.Types.{DataType}
use hands_on_sqldb_in_cpp.Sql.Key.{tag_of}
use hands_on_sqldb_in_cpp.Sql.KeyRange.{
  KeyRange, all, empty, normalize, is_empty, low_key, high_key,
}
use hands_on_sqldb_in_cpp.Sql.KeyRange.Operations.{
  unite, intersect, with_low, with_high, merge_type, smaller_low, larger_high, larger_low,
  smaller_high,
}
use hands_on_sqldb_in_cpp.Sql.KeyRange.Bounds.{IsOf}
use hands_on_sqldb_in_cpp.Sql.KeyRange.Sets.{normalize-IsOf, merge_type-tag}
use hands_on_sqldb_in_cpp.Sql.Candidates.{
  only_range, merged_with, range_less, insert_range, sorted_ranges, merge_ranges, merge_sorted,
  normalize_ranges, intersect_each, intersect_all, intersect_ranges, unite_ranges,
}

abbrev pub AllOf : DataType → List KeyRange → Type 0
AllOf column [] = Unit {0}
AllOf column (r ∷ rs) = IsOf column r × AllOf column rs

pub AllOf-append :
    (column : DataType) (a b : List KeyRange)
    → AllOf column a
    → AllOf column b
    → AllOf column (a ++ b)
AllOf-append column [] b p q = q
AllOf-append column (r ∷ a) b p q = (p.0, AllOf-append column a b p.1 q)

insert_range-AllOf :
    (column : DataType) (r : KeyRange) (rs : List KeyRange)
    → IsOf column r
    → AllOf column rs
    → AllOf column (insert_range r rs)
unfolding insert_range
insert_range-AllOf column r [] p q = (p, tt)
insert_range-AllOf column r (s ∷ rs) p q = elim (Bool-cases (range_less s r)) [
  | inl h ↦ rw h (q.0, insert_range-AllOf column r rs p q.1)
  | inr h ↦ rw h (p, q)
]

pub sorted_ranges-AllOf :
    (column : DataType) (rs : List KeyRange) → AllOf column rs → AllOf column (sorted_ranges rs)
unfolding sorted_ranges
sorted_ranges-AllOf column [] p = tt
sorted_ranges-AllOf column (r ∷ rs) p = elim (Bool-cases (is_empty r)) [
  | inl h ↦ rw h (sorted_ranges-AllOf column rs p.1)
  | inr h ↦
      rw h (insert_range-AllOf column r (sorted_ranges rs) p.0 (sorted_ranges-AllOf column rs p.1))
]

picked-IsOf :
    (column : DataType) (a b : KeyRange) (c d : Bool)
    → IsOf column a
    → IsOf column b
    → IsOf column (
        normalize (
          with_low
            (if c then b else a)
            (with_high (if d then b else a) (all (merge_type a.type b.type)))))
unfolding all
picked-IsOf column a b c d p q =
    let t = merge_type-tag column a.type b.type p.0 q.0 in
    normalize-IsOf column
      (with_low (if c then b else a)
        (with_high (if d then b else a) (all (merge_type a.type b.type))))
      (bounds c d t)
  where
    bounds :
        (c d : Bool)
        → tag_of (merge_type a.type b.type) ≡ tag_of column
        → IsOf column (
            with_low
              (if c then b else a)
              (with_high (if d then b else a) (all (merge_type a.type b.type))))
    bounds true true t = (t, q.1, q.2)
    bounds true false t = (t, q.1, p.2)
    bounds false true t = (t, p.1, q.2)
    bounds false false t = (t, p.1, p.2)

unite-AllOf :
    (column : DataType) (a b : KeyRange) → IsOf column a → IsOf column b → AllOf column (unite a b)
unfolding unite
unite-AllOf column a b p q =
    let picked =
      picked-IsOf column a b (smaller_low (low_key a) (low_key b))
        (larger_high (high_key a) (high_key b)) p q in
    elim (Bool-cases (is_empty a)) [
      | inl e ↦ rw e (q, tt)
      | inr e ↦ elim (Bool-cases (is_empty b)) [
        | inl g ↦ rw (e, g) (p, tt)
        | inr g ↦
            rw (e, g)
              (if_apart _ (a ∷ b ∷ [])
                (normalize (
                    with_low (if smaller_low (low_key a) (low_key b) then b else a) (
                      with_high (if larger_high (high_key a) (high_key b) then b else a)
                        (all (merge_type a.type b.type))))
                  ∷ [])
                (p, (q, tt)) (picked, tt))
      ]
    ]
  where
    if_apart :
        (apart : Bool) (xs ys : List KeyRange)
        → AllOf column xs
        → AllOf column ys
        → AllOf column (if apart then xs else ys)
    if_apart true xs ys f g = f
    if_apart false xs ys f g = g

intersect-IsOf :
    (column : DataType) (a b : KeyRange)
    → IsOf column a
    → IsOf column b
    → is_empty (intersect a b) ≡ false
    → IsOf column (intersect a b)
unfolding intersect is_empty empty
intersect-IsOf column a b p q h = elim (Bool-cases (is_empty a || is_empty b)) [
  | inl e ↦ absurd (ground (arith, h, e))
  | inr e ↦ rw e (
      picked-IsOf column a b (larger_low (low_key a) (low_key b))
        (smaller_high (high_key a) (high_key b)) p q)
]

only_range-AllOf :
    (column : DataType) (us : List KeyRange) (u : KeyRange)
    → AllOf column us
    → only_range us ≡ some u
    → IsOf column u
only_range-AllOf column [] u g h = absurd (ground (arith, h))
only_range-AllOf column (w ∷ []) u g h = rw (← some-injective w u h) g.0
only_range-AllOf column (w ∷ x ∷ us) u g h = absurd (ground (arith, h))

pub apart :
    (back r : KeyRange) (rs : List KeyRange)
    → merged_with back r ≡ none
    → merge_ranges back (r ∷ rs) ≡ back ∷ merge_ranges r rs
unfolding merge_ranges
apart back r rs h = rw (h, merge_ranges) refl

pub united :
    (back r u : KeyRange) (rs : List KeyRange)
    → merged_with back r ≡ some u
    → merge_ranges back (r ∷ rs) ≡ merge_ranges u rs
unfolding merge_ranges
united back r u rs h = rw (h, merge_ranges) refl

module _ (column : DataType) where
  pub merged_with-IsOf :
      (back r u : KeyRange)
      → IsOf column back
      → IsOf column r
      → merged_with back r ≡ some u
      → IsOf column u
  unfolding merged_with
  merged_with-IsOf back r u p q h =
      only_range-AllOf column (unite back r) u (unite-AllOf column back r p q) (ground (arith, h))

  merge_ranges-AllOf :
      (back : KeyRange) (rs : List KeyRange)
      → IsOf column back
      → AllOf column rs
      → AllOf column (merge_ranges back rs)
  unfolding merge_ranges
  merge_ranges-AllOf back [] p q = (p, tt)
  merge_ranges-AllOf back (r ∷ rs) p q = elim (Option-cases (merged_with back r)) [
    | inl h ↦ rw (apart back r rs h) (p, merge_ranges-AllOf r rs q.0 q.1)
    | inr (u, h) ↦
        rw (united back r u rs h) (merge_ranges-AllOf u rs (merged_with-IsOf back r u p q.0 h) q.1)
  ]

  normalize_ranges-AllOf :
      (rs : List KeyRange) → AllOf column rs → AllOf column (normalize_ranges rs)
  unfolding normalize_ranges
  normalize_ranges-AllOf rs g = of_sorted (sorted_ranges rs) (sorted_ranges-AllOf column rs g)
    where
      of_sorted : (us : List KeyRange) → AllOf column us → AllOf column (merge_sorted us)
      of_sorted [] h = tt
      of_sorted (u ∷ us) h = merge_ranges-AllOf u us h.0 h.1

  pub unite_ranges-AllOf :
      (a b : List KeyRange) → AllOf column a → AllOf column b → AllOf column (unite_ranges a b)
  unfolding unite_ranges
  unite_ranges-AllOf a b p q = normalize_ranges-AllOf (a ++ b) (AllOf-append column a b p q)

  intersect_each-AllOf :
      (lhs : KeyRange) (b : List KeyRange)
      → IsOf column lhs
      → AllOf column b
      → AllOf column (intersect_each lhs b)
  unfolding intersect_each
  intersect_each-AllOf lhs [] p q = tt
  intersect_each-AllOf lhs (rhs ∷ b) p q = elim (Bool-cases (is_empty (intersect lhs rhs))) [
    | inl h ↦ rw h (intersect_each-AllOf lhs b p q.1)
    | inr h ↦ rw h (intersect-IsOf column lhs rhs p q.0 h, intersect_each-AllOf lhs b p q.1)
  ]

  pub intersect_all-AllOf :
      (a b : List KeyRange) → AllOf column a → AllOf column b → AllOf column (intersect_all a b)
  unfolding intersect_all
  intersect_all-AllOf [] b p q = tt
  intersect_all-AllOf (lhs ∷ a) b p q =
      AllOf-append column (intersect_each lhs b) (intersect_all a b)
        (intersect_each-AllOf lhs b p.0 q) (intersect_all-AllOf a b p.1 q)

  pub intersect_ranges-AllOf :
      (a b : List KeyRange) → AllOf column a → AllOf column b → AllOf column (intersect_ranges a b)
  unfolding intersect_ranges
  intersect_ranges-AllOf a b p q =
      normalize_ranges-AllOf (intersect_all a b) (intersect_all-AllOf a b p q)
