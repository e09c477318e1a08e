-- ===== src/Sql/KeyRange/Sets.antt =====
-- The set operations of key ranges, as operations on the values that a range contains.
use hands_on_sqldb_in_cpp.Prelude.{
  ◌≡◌, refl, ◌∙◌, Bool, true, false, not, ◌||◌, ◌&&◌, Option, none, some, List, [], ◌∷◌, arith,
  Bool-cases, inl, inr, if◌then◌else◌,
}
use hands_on_sqldb_in_cpp.Prelude.Order.{bytes_order, eqb, eqb→eq, bytes_lt_trans, lt_le_trans}
use hands_on_sqldb_in_cpp.Sql.Types.{
  DataType, unknown_type, same_type, Value, null_value, int_value, bool_value, string_value,
}
use hands_on_sqldb_in_cpp.Sql.Key.{Key, tag_of, to_column_key}
use hands_on_sqldb_in_cpp.Sql.Key.Ordered.{FitsColumn}
use hands_on_sqldb_in_cpp.Sql.KeyRange.{
  KeyRange, all, empty, normalize, low_key, high_key, is_empty, is_null_bound, both_not_less,
  both_equal, is_some,
}
use hands_on_sqldb_in_cpp.Sql.KeyRange.Operations.{
  contains, from_low, below_high, overlaps, is_adjacent, starts_before, ends_behind, merge_type,
  with_low, with_high, larger_low, smaller_high, smaller_low, larger_high, intersect, unite,
  push_part, left_part, right_part,
}
use hands_on_sqldb_in_cpp.Sql.KeyRange.Bounds.{
  IsOf, FitsBound, is_between, at_or_above, at_or_below, from_low-at_or_above,
  below_high-at_or_below, contains-is_between, nothing_below_null,
}

both_equal_sym : (a b : Option Key) → both_equal a b ≡ both_equal b a
unfolding eqb
both_equal_sym none none = refl
both_equal_sym none (some b) = refl
both_equal_sym (some a) none = refl
both_equal_sym (some a) (some b) = ground arith

-- Whether a key lies on one side of two bounds, from how the bounds compare.
module _ (k : Key) where
  larger_low-both :
      (l m : Option Key)
      → (if larger_low l m then from_low m k else from_low l k) ≡ (from_low l k && from_low m k)
  larger_low-both none m = refl
  larger_low-both (some l) none = ground arith
  larger_low-both (some l) (some m) = ground (arith, bytes_lt_trans k l m, lt_le_trans k m l)

  smaller_high-both :
      (h n : Option Key)
      → (if smaller_high h n then below_high n k else below_high h k)
        ≡ (below_high h k && below_high n k)
  smaller_high-both none n = refl
  smaller_high-both (some h) none = ground arith
  smaller_high-both (some h) (some n) = ground (arith, bytes_lt_trans k n h, lt_le_trans k h n)

  smaller_low-either :
      (l m : Option Key)
      → (if smaller_low l m then from_low m k else from_low l k) ≡ (from_low l k || from_low m k)
  smaller_low-either none m = refl
  smaller_low-either (some l) none = ground arith
  smaller_low-either (some l) (some m) = ground (arith, bytes_lt_trans k l m, lt_le_trans k m l)

  larger_high-either :
      (h n : Option Key)
      → (if larger_high h n then below_high n k else below_high h k)
        ≡ (below_high h k || below_high n k)
  larger_high-either none n = refl
  larger_high-either (some h) none = ground arith
  larger_high-either (some h) (some n) = ground (arith, bytes_lt_trans k h n, lt_le_trans k n h)

  pub cross_overlap :
      (m h : Option Key) → both_not_less m h ≡ false → below_high h k ≡ false → from_low m k ≡ true
  cross_overlap none h o b = refl
  cross_overlap (some m) none o b = absurd (ground (arith, b))
  cross_overlap (some m) (some h) o b = ground (arith, o, b, bytes_lt_trans k m h)

  meet_above :
      (h m : Option Key) → both_equal h m ≡ true → below_high h k ≡ false → from_low m k ≡ true
  meet_above none m e b = absurd (ground (arith, e))
  meet_above (some h) none e b = refl
  meet_above (some h) (some m) e b = rw (← eqb→eq h m e) (ground (arith, b))

  meet_below :
      (l n : Option Key) → both_equal l n ≡ true → from_low l k ≡ true → below_high n k ≡ false
  meet_below none n e b = absurd (ground (arith, e))
  meet_below (some l) none e b = absurd (ground (arith, e))
  meet_below (some l) (some n) e b = rw (← eqb→eq l n e) (ground (arith, b))

  pub covered_low :
      (m l : Option Key) → starts_before m l ≡ false → from_low l k ≡ true → from_low m k ≡ true
  covered_low none l s f = refl
  covered_low (some m) none s f = absurd (ground (arith, s))
  covered_low (some m) (some l) s f = ground (arith, s, f, lt_le_trans k m l)

  pub covered_high :
      (n h : Option Key) → ends_behind n h ≡ false → below_high h k ≡ true → below_high n k ≡ true
  covered_high none h s f = refl
  covered_high (some n) none s f = absurd (ground (arith, s))
  covered_high (some n) (some h) s f = ground (arith, s, f, lt_le_trans k h n)

pub merge_type-tag :
    (column a b : DataType)
    → tag_of a ≡ tag_of column
    → tag_of b ≡ tag_of column
    → tag_of (merge_type a b) ≡ tag_of column
merge_type-tag column a b s t = elim (Bool-cases (same_type a unknown_type)) [
  | inl u ↦ rw u t
  | inr u ↦ rw u s
]

null_bound_above :
    (low : Option Value) (exclusive : Bool) (v : Value)
    → (is_null_bound low && not exclusive) ≡ true
    → at_or_above low exclusive v ≡ true
null_bound_above none exclusive v h = refl
null_bound_above (some null_value) exclusive v h = ground (arith, h, nothing_below_null v)
null_bound_above (some (int_value d n)) exclusive v h = absurd (ground (arith, h))
null_bound_above (some (bool_value b)) exclusive v h = absurd (ground (arith, h))
null_bound_above (some (string_value d t)) exclusive v h = absurd (ground (arith, h))

normalize-is_between : (r : KeyRange) (v : Value) → is_between (normalize r) v ≡ is_between r v
unfolding normalize
normalize-is_between r v = elim (Bool-cases (is_null_bound r.low && not r.low_exclusive)) [
  | inl n ↦ rw (n, null_bound_above r.low r.low_exclusive v n) refl
  | inr n ↦ rw n refl
]

pub normalize-IsOf : (column : DataType) (r : KeyRange) → IsOf column r → IsOf column (normalize r)
unfolding normalize
normalize-IsOf column r (t, l, h) = elim (Bool-cases (is_null_bound r.low && not r.low_exclusive)) [
  | inl n ↦ rw n (t, tt, h)
  | inr n ↦ rw n (t, l, h)
]

-- Whether one of the ranges contains a value.
abbrev pub contains_any : List KeyRange → Value → Bool
contains_any [] v = false
contains_any (r ∷ rs) v = contains r v || contains_any rs v

pub empty-contains : (type : DataType) (v : Value) → contains (empty type) v ≡ false
unfolding contains is_empty empty
empty-contains type v = ground arith

pub no-contains : (r : KeyRange) (v : Value) → is_empty r ≡ true → contains r v ≡ false
unfolding contains
no-contains r v h = ground (arith, h)

pub push_part-contains :
    (r : KeyRange) (rest : List KeyRange) (v : Value)
    → contains_any (push_part r rest) v ≡ (contains r v || contains_any rest v)
push_part-contains r rest v = ground (arith, no-contains r v)

module _ (column : DataType) (v : Value) (f : FitsColumn column v) where
  pub made-contains :
      (type : DataType) (low high : Option Value) (low_exclusive high_inclusive : Bool)
      → tag_of type ≡ tag_of column
      → FitsBound column low
      → FitsBound column high
      → contains
          (normalize (record {
            type = type;
            low = low;
            high = high;
            low_exclusive = low_exclusive;
            high_inclusive = high_inclusive;
          }))
          v
        ≡ (at_or_above low low_exclusive v && at_or_below high high_inclusive v)
  made-contains type low high low_exclusive high_inclusive t g h =
      let r : KeyRange = record {
        type = type;
        low = low;
        high = high;
        low_exclusive = low_exclusive;
        high_inclusive = high_inclusive;
      } in
      contains-is_between column (normalize r) v (normalize-IsOf column r (t, g, h)) f
      ∙ normalize-is_between r v

  pub low-key :
      (r : KeyRange)
      → IsOf column r
      → from_low (low_key r) (to_column_key column v) ≡ at_or_above r.low r.low_exclusive v
  unfolding low_key
  low-key r g = from_low-at_or_above column v f r.type r.low r.low_exclusive g.0 g.1

  pub high-key :
      (r : KeyRange)
      → IsOf column r
      → below_high (high_key r) (to_column_key column v) ≡ at_or_below r.high r.high_inclusive v
  unfolding high_key
  high-key r g = below_high-at_or_below column v f r.type r.high r.high_inclusive g.0 g.2

  -- What lies below a lower bound, and above an upper one.
  pub below-lower :
      (low : Option Value) (exclusive : Bool)
      → (is_some low && at_or_below low exclusive v) ≡ not (at_or_above low exclusive v)
  below-lower none exclusive = refl
  below-lower (some w) exclusive = ground arith

  pub above-upper :
      (high : Option Value) (inclusive : Bool)
      → (is_some high && at_or_above high inclusive v) ≡ not (at_or_below high inclusive v)
  above-upper none inclusive = refl
  above-upper (some w) inclusive = ground arith

  module _ (a b : KeyRange) (p : IsOf column a) (q : IsOf column b) where
    merged_tag : tag_of (merge_type a.type b.type) ≡ tag_of column
    merged_tag = merge_type-tag column a.type b.type p.0 q.0

    -- A range that takes its lower bound from one of the two and its upper bound from one.
    picked-contains :
        (c d : Bool)
        → contains
            (normalize (
              with_low
                (if c then b else a)
                (with_high (if d then b else a) (all (merge_type a.type b.type)))))
            v
          ≡ ((if c
                then from_low (low_key b) (to_column_key column v)
                else from_low (low_key a) (to_column_key column v))
              && (if d
                  then below_high (high_key b) (to_column_key column v)
                  else below_high (high_key a) (to_column_key column v)))
    unfolding all
    picked-contains true true =
        rw (low-key b q, high-key b q)
          (made-contains _ b.low b.high b.low_exclusive b.high_inclusive merged_tag q.1 q.2)
    picked-contains true false =
        rw (low-key b q, high-key a p)
          (made-contains _ b.low a.high b.low_exclusive a.high_inclusive merged_tag q.1 p.2)
    picked-contains false true =
        rw (low-key a p, high-key b q)
          (made-contains _ a.low b.high a.low_exclusive b.high_inclusive merged_tag p.1 q.2)
    picked-contains false false =
        rw (low-key a p, high-key a p)
          (made-contains _ a.low a.high a.low_exclusive a.high_inclusive merged_tag p.1 p.2)

    -- Membership in terms of the keys of the bounds.
    pub key-contains :
        (r : KeyRange)
        → IsOf column r
        → contains r v ≡ (
            from_low (low_key r) (to_column_key column v)
            && below_high (high_key r) (to_column_key column v))
    key-contains r g = contains-is_between column r v g f ∙ rw (low-key r g, high-key r g) refl

    pub intersect-contains : contains (intersect a b) v ≡ (contains a v && contains b v)
    unfolding intersect
    intersect-contains =
        let k = to_column_key column v in
        ground (
          arith,
          empty-contains unknown_type v,
          no-contains a v,
          no-contains b v,
          picked-contains (larger_low (low_key a) (low_key b))
              (smaller_high (high_key a) (high_key b)),
          larger_low-both k (low_key a) (low_key b),
          smaller_high-both k (high_key a) (high_key b),
          key-contains a p,
          key-contains b q,
        )

    pub unite-contains : contains_any (unite a b) v ≡ (contains a v || contains b v)
    unfolding unite overlaps is_adjacent
    unite-contains =
        let k = to_column_key column v in
        ground (
          arith,
          no-contains a v,
          no-contains b v,
          picked-contains (smaller_low (low_key a) (low_key b))
              (larger_high (high_key a) (high_key b)),
          smaller_low-either k (low_key a) (low_key b),
          larger_high-either k (high_key a) (high_key b),
          key-contains a p,
          key-contains b q,
          cross_overlap k (low_key b) (high_key a),
          cross_overlap k (low_key a) (high_key b),
          meet_above k (high_key a) (low_key b),
          meet_below k (low_key a) (high_key b),
          meet_above k (high_key b) (low_key a),
          meet_below k (low_key b) (high_key a),
          both_equal_sym (high_key a) (low_key b),
          both_equal_sym (low_key a) (high_key b),
        )

    pub left_part-contains :
        (is_some b.low && contains (left_part a b) v)
        ≡ (at_or_above a.low a.low_exclusive v && not (at_or_above b.low b.low_exclusive v))
    unfolding left_part all
    left_part-contains = ground (
      arith,
      made-contains (merge_type a.type b.type) a.low b.low a.low_exclusive b.low_exclusive
          merged_tag p.1 q.1,
      below-lower b.low b.low_exclusive,
    )

    pub right_part-contains :
        (is_some b.high && contains (right_part a b) v)
        ≡ (at_or_below a.high a.high_inclusive v && not (at_or_below b.high b.high_inclusive v))
    unfolding right_part all
    right_part-contains = ground (
      arith,
      made-contains (merge_type a.type b.type) b.high a.high b.high_inclusive a.high_inclusive
          merged_tag q.2 p.2,
      above-upper b.high b.high_inclusive,
    )
