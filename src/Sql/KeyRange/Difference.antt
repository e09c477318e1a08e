-- ===== src/Sql/KeyRange/Difference.antt =====
-- The difference of two key ranges and the complement of one, as operations on the values.
use hands_on_sqldb_in_cpp.Prelude.{
  ◌≡◌, refl, sym, ◌∙◌, Bool, true, false, not, ◌||◌, ◌&&◌, none, List, [], ◌∷◌, arith,
  if◌then◌else◌,
}
use hands_on_sqldb_in_cpp.Sql.Types.{DataType, unknown_type, Value}
use hands_on_sqldb_in_cpp.Sql.Key.{to_column_key}
use hands_on_sqldb_in_cpp.Sql.Key.Ordered.{FitsColumn}
use hands_on_sqldb_in_cpp.Sql.KeyRange.{
  KeyRange, all, normalize, low_key, high_key, is_empty, is_all, is_some, both_not_less,
}
use hands_on_sqldb_in_cpp.Sql.KeyRange.Operations.{
  contains, overlaps, covers, intersect, unite, subtract, complement, push_proper_part, left_part,
  right_part, or_empty, left_complement, right_complement, push_part,
}
use hands_on_sqldb_in_cpp.Sql.KeyRange.Bounds.{
  IsOf, at_or_above, at_or_below, contains-is_between, nothing_between,
}
use hands_on_sqldb_in_cpp.Sql.KeyRange.Sets.{
  contains_any, cross_overlap, covered_low, covered_high, push_part-contains, empty-contains,
  no-contains, made-contains, low-key, high-key, below-lower, above-upper, left_part-contains,
  right_part-contains, key-contains, intersect-contains, unite-contains,
}

or_empty-contains :
    (rs : List KeyRange) (v : Value) → contains_any (or_empty rs) v ≡ contains_any rs v
or_empty-contains [] v = ground (arith, empty-contains unknown_type v)
or_empty-contains (r ∷ rs) v = refl

push_proper_part-contains :
    (r : KeyRange) (rest : List KeyRange) (v : Value)
    → is_all r ≡ false
    → contains_any (push_proper_part r rest) v ≡ (contains r v || contains_any rest v)
push_proper_part-contains r rest v h = ground (arith, h, no-contains r v)

left_part-proper : (a b : KeyRange) → is_some b.low ≡ true → is_all (left_part a b) ≡ false
unfolding left_part normalize is_all all
left_part-proper a b h = ground (arith, h)

right_part-proper :
    (a b : KeyRange) → is_some b.high ≡ true → is_empty b ≡ false → is_all (right_part a b) ≡ false
unfolding right_part normalize is_all all is_empty
right_part-proper a b h e = ground (arith, h, e)

two_sides :
    (above_a below_a above_b below_b : Bool)
    → (below_a ≡ false → above_b ≡ true)
    → (below_b ≡ false → above_a ≡ true)
    → ((above_a && not above_b) || (below_a && not below_b))
      ≡ ((above_a && below_a) && not (above_b && below_b))
two_sides above_a below_a above_b below_b h k = ground (arith, h, k)

module _ (column : DataType) (v : Value) (f : FitsColumn column v) (a b : KeyRange)
    (p : IsOf column a) (q : IsOf column b) where
  not_overlapping :
      is_empty a ≡ false
      → is_empty b ≡ false
      → overlaps a b ≡ false
      → (contains a v && contains b v) ≡ false
  unfolding overlaps
  not_overlapping e g o =
      let k = to_column_key column v in
      ground (
        arith,
        e,
        g,
        o,
        key-contains column v f a b p q a p,
        key-contains column v f a b p q b q,
        nothing_between (low_key a) (high_key b) k,
        nothing_between (low_key b) (high_key a) k,
      )

  covered : covers b a ≡ true → contains a v ≡ true → contains b v ≡ true
  unfolding covers
  covered c h =
      let k = to_column_key column v in
      ground (
        arith,
        c,
        h,
        no-contains a v,
        key-contains column v f a b p q a p,
        key-contains column v f a b p q b q,
        covered_low k (low_key b) (low_key a),
        covered_high k (high_key b) (high_key a),
      )

  part_list :
      is_empty b ≡ false
      → contains_any
          (if is_some b.low
            then push_proper_part
                (left_part a b)
                (if is_some b.high then push_proper_part (right_part a b) [] else [])
            else if is_some b.high
            then push_proper_part (right_part a b) []
            else [])
          v
        ≡ ((is_some b.low && contains (left_part a b) v)
            || (is_some b.high && contains (right_part a b) v))
  part_list g = ground (
    arith,
    g,
    push_proper_part-contains (left_part a b)
        (if is_some b.high then push_proper_part (right_part a b) [] else []) v,
    push_proper_part-contains (right_part a b) [] v,
    left_part-proper a b,
    right_part-proper a b,
  )

  -- Of two ranges that overlap, a value above the one is above the start of the other.
  above_or_below :
      overlaps a b ≡ true
      → (at_or_below a.high a.high_inclusive v ≡ false → at_or_above b.low b.low_exclusive v ≡ true)
        × (at_or_below b.high b.high_inclusive v ≡ false
            → at_or_above a.low a.low_exclusive v ≡ true)
  unfolding overlaps
  above_or_below o =
      let k = to_column_key column v in
      let apart_a : both_not_less (low_key b) (high_key a) ≡ false = ground (arith, o) in
      let apart_b : both_not_less (low_key a) (high_key b) ≡ false = ground (arith, o) in
      (
        λ h.
            sym (low-key column v f b q)
            ∙ cross_overlap k (low_key b) (high_key a) apart_a (high-key column v f a p ∙ h),
        λ h.
            sym (low-key column v f a p)
            ∙ cross_overlap k (low_key a) (high_key b) apart_b (high-key column v f b q ∙ h),
      )

  parts :
      is_empty b ≡ false
      → overlaps a b ≡ true
      → contains_any
          (or_empty (
            if is_some b.low
            then push_proper_part
                (left_part a b)
                (if is_some b.high then push_proper_part (right_part a b) [] else [])
            else if is_some b.high
            then push_proper_part (right_part a b) []
            else []))
          v
        ≡ (contains a v && not (contains b v))
  parts g o =
      let right = if is_some b.high then push_proper_part (right_part a b) [] else [] in
      or_empty-contains (if is_some b.low then push_proper_part (left_part a b) right else right) v
      ∙ (part_list g
          ∙ rw
              (
                left_part-contains column v f a b p q,
                right_part-contains column v f a b p q,
                contains-is_between column a v p f,
                contains-is_between column b v q f,
              )
              (two_sides (at_or_above a.low a.low_exclusive v)
                (at_or_below a.high a.high_inclusive v) (at_or_above b.low b.low_exclusive v)
                (at_or_below b.high b.high_inclusive v) (above_or_below o).0 (above_or_below o).1))

  subtract-contains : contains_any (subtract a b) v ≡ (contains a v && not (contains b v))
  unfolding subtract
  subtract-contains = ground (
    arith,
    empty-contains unknown_type v,
    no-contains a v,
    no-contains b v,
    not_overlapping,
    covered,
    parts,
  )

left_complement-contains :
    (column : DataType) (r : KeyRange) (v : Value)
    → FitsColumn column v
    → IsOf column r
    → (is_some r.low && contains (left_complement r) v) ≡ not (at_or_above r.low r.low_exclusive v)
unfolding left_complement all
left_complement-contains column r v f g = ground (
  arith,
  made-contains column v f r.type none r.low false r.low_exclusive g.0 tt g.1,
  below-lower column v f r.low r.low_exclusive,
)

right_complement-contains :
    (column : DataType) (r : KeyRange) (v : Value)
    → FitsColumn column v
    → IsOf column r
    → (is_some r.high && contains (right_complement r) v)
      ≡ not (at_or_below r.high r.high_inclusive v)
unfolding right_complement all
right_complement-contains column r v f g = ground (
  arith,
  made-contains column v f r.type r.high none r.high_inclusive false g.0 g.2 tt,
  above-upper column v f r.high r.high_inclusive,
)

all-contains :
    (column : DataType) (r : KeyRange) (v : Value)
    → FitsColumn column v
    → IsOf column r
    → contains (all r.type) v ≡ true
unfolding all
all-contains column r v f g = contains-is_between column (all r.type) v (g.0, tt, tt) f

complement-contains :
    (column : DataType) (r : KeyRange) (v : Value)
    → FitsColumn column v
    → IsOf column r
    → contains_any (complement r) v ≡ not (contains r v)
unfolding complement is_all
complement-contains column r v f g =
    let right = if is_some r.high then push_part (right_complement r) [] else [] in
    ground (
      arith,
      all-contains column r v f g,
      empty-contains unknown_type v,
      no-contains r v,
      push_part-contains (left_complement r) right v,
      push_part-contains (right_complement r) [] v,
      left_complement-contains column r v f g,
      right_complement-contains column r v f g,
      contains-is_between column r v g f,
    )

-- For two ranges of a column and a value that the column can hold: the intersection contains it if
-- both ranges do, some part of the union if one of them does, some part of the difference if the
-- first does and the second does not, and some part of the complement if the range does not.
pub set_operations-contain :
    (column : DataType) (a b : KeyRange) (v : Value)
    → IsOf column a
    → IsOf column b
    → FitsColumn column v
    → (contains (intersect a b) v ≡ (contains a v && contains b v))
      × (contains_any (unite a b) v ≡ (contains a v || contains b v))
      × (contains_any (subtract a b) v ≡ (contains a v && not (contains b v)))
      × (contains_any (complement a) v ≡ not (contains a v))
set_operations-contain column a b v p q f = (
  intersect-contains column v f a b p q,
  unite-contains column v f a b p q,
  subtract-contains column v f a b p q,
  complement-contains column a v f p,
)
