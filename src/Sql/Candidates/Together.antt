-- ===== src/Sql/Candidates/Together.antt =====
-- Sorting, merging, uniting and intersecting lists of ranges keeps what they contain together.
use mathlib.Core.Option.{some-injective}
use hands_on_sqldb_in_cpp.Prelude.{
  ◌≡◌, refl, sym, ◌∙◌, ◌||◌, ◌&&◌, some, List, [], ◌∷◌, ◌++◌, arith, Option-cases, inl, inr,
}
use hands_on_sqldb_in_cpp.Sql.Types.{DataType, Value}
use hands_on_sqldb_in_cpp.Sql.Key.Ordered.{FitsColumn}
use hands_on_sqldb_in_cpp.Sql.KeyRange.{KeyRange}
use hands_on_sqldb_in_cpp.Sql.KeyRange.Operations.{contains, unite, intersect}
use hands_on_sqldb_in_cpp.Sql.KeyRange.Bounds.{IsOf}
use hands_on_sqldb_in_cpp.Sql.KeyRange.Sets.{
  contains_any, no-contains, unite-contains, intersect-contains,
}
use hands_on_sqldb_in_cpp.Sql.Candidates.{
  only_range, merged_with, insert_range, sorted_ranges, merge_ranges, merge_sorted,
  normalize_ranges, intersect_each, intersect_all, intersect_ranges, unite_ranges,
}
use hands_on_sqldb_in_cpp.Sql.Candidates.Merged.{
  AllOf, AllOf-append, apart, united, merged_with-IsOf, sorted_ranges-AllOf, intersect_all-AllOf,
}

contains_any-append :
    (a b : List KeyRange) (v : Value)
    → contains_any (a ++ b) v ≡ (contains_any a v || contains_any b v)
contains_any-append [] b v = refl
contains_any-append (r ∷ a) b v = ground (arith, contains_any-append a b v)

insert_range-contains :
    (r : KeyRange) (rs : List KeyRange) (v : Value)
    → contains_any (insert_range r rs) v ≡ (contains r v || contains_any rs v)
unfolding insert_range
insert_range-contains r [] v = refl
insert_range-contains r (s ∷ rs) v = ground (arith, insert_range-contains r rs v)

sorted_ranges-contains :
    (rs : List KeyRange) (v : Value) → contains_any (sorted_ranges rs) v ≡ contains_any rs v
unfolding sorted_ranges
sorted_ranges-contains [] v = refl
sorted_ranges-contains (r ∷ rs) v = ground (
  arith,
  sorted_ranges-contains rs v,
  insert_range-contains r (sorted_ranges rs) v,
  no-contains r v,
)

only_range-contains :
    (us : List KeyRange) (u : KeyRange) (v : Value)
    → only_range us ≡ some u
    → contains_any us v ≡ contains u v
only_range-contains [] u v h = absurd (ground (arith, h))
only_range-contains (w ∷ []) u v h = rw (← some-injective w u h) (ground arith)
only_range-contains (w ∷ x ∷ us) u v h = absurd (ground (arith, h))

module _ (column : DataType) (v : Value) (f : FitsColumn column v) where
  merged_with-contains :
      (back r u : KeyRange)
      → IsOf column back
      → IsOf column r
      → merged_with back r ≡ some u
      → contains u v ≡ (contains back v || contains r v)
  unfolding merged_with
  merged_with-contains back r u p q h =
      let only : only_range (unite back r) ≡ some u = ground (arith, h) in
      sym (only_range-contains (unite back r) u v only) ∙ unite-contains column v f back r p q

  merge_ranges-contains :
      (back : KeyRange) (rs : List KeyRange)
      → IsOf column back
      → AllOf column rs
      → contains_any (merge_ranges back rs) v ≡ (contains back v || contains_any rs v)
  unfolding merge_ranges
  merge_ranges-contains back [] p q = refl
  merge_ranges-contains back (r ∷ rs) p q = elim (Option-cases (merged_with back r)) [
    | inl h ↦ rw (apart back r rs h) (ground (arith, merge_ranges-contains r rs q.0 q.1))
    | inr (u, h) ↦
        let rest = merge_ranges-contains u rs (merged_with-IsOf column back r u p q.0 h) q.1 in
        let both = merged_with-contains back r u p q.0 h in
        rw (united back r u rs h) (ground (arith, rest, both))
  ]

  pub normalize_ranges-contains :
      (rs : List KeyRange)
      → AllOf column rs
      → contains_any (normalize_ranges rs) v ≡ contains_any rs v
  unfolding normalize_ranges
  normalize_ranges-contains rs g =
      of_sorted (sorted_ranges rs) (sorted_ranges-AllOf column rs g) ∙ sorted_ranges-contains rs v
    where
      of_sorted :
          (us : List KeyRange)
          → AllOf column us
          → contains_any (merge_sorted us) v ≡ contains_any us v
      of_sorted [] h = refl
      of_sorted (u ∷ us) h = merge_ranges-contains u us h.0 h.1

  pub unite_ranges-contains :
      (a b : List KeyRange)
      → AllOf column a
      → AllOf column b
      → contains_any (unite_ranges a b) v ≡ (contains_any a v || contains_any b v)
  unfolding unite_ranges
  unite_ranges-contains a b p q =
      normalize_ranges-contains (a ++ b) (AllOf-append column a b p q) ∙ contains_any-append a b v

  intersect_each-contains :
      (lhs : KeyRange) (b : List KeyRange)
      → IsOf column lhs
      → AllOf column b
      → contains_any (intersect_each lhs b) v ≡ (contains lhs v && contains_any b v)
  unfolding intersect_each
  intersect_each-contains lhs [] p q = ground arith
  intersect_each-contains lhs (rhs ∷ b) p q =
      let rest = intersect_each-contains lhs b p q.1 in
      let one = intersect-contains column v f lhs rhs p q.0 in
      ground (arith, rest, one, no-contains (intersect lhs rhs) v)

  intersect_all-contains :
      (a b : List KeyRange)
      → AllOf column a
      → AllOf column b
      → contains_any (intersect_all a b) v ≡ (contains_any a v && contains_any b v)
  unfolding intersect_all
  intersect_all-contains [] b p q = refl
  intersect_all-contains (lhs ∷ a) b p q =
      let rest = intersect_all-contains a b p.1 q in
      let each = intersect_each-contains lhs b p.0 q in
      contains_any-append (intersect_each lhs b) (intersect_all a b) v ∙ ground (arith, rest, each)

  pub intersect_ranges-contains :
      (a b : List KeyRange)
      → AllOf column a
      → AllOf column b
      → contains_any (intersect_ranges a b) v ≡ (contains_any a v && contains_any b v)
  unfolding intersect_ranges
  intersect_ranges-contains a b p q =
      normalize_ranges-contains (intersect_all a b) (intersect_all-AllOf column a b p q)
      ∙ intersect_all-contains a b p q
