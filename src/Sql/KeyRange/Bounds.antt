-- ===== src/Sql/KeyRange/Bounds.antt =====
-- The keys of the bounds, and the values that lie between them in the order of a column.
use hands_on_sqldb_in_cpp.Prelude.{
  ◌≡◌, refl, Bool, true, false, not, ◌||◌, ◌&&◌, Option, none, some, [], ◌∷◌, arith, Bool-cases,
  inl, inr, if◌then◌else◌,
}
use hands_on_sqldb_in_cpp.Prelude.Order.{bytes_lt, bytes_order, le_lt_trans}
use hands_on_sqldb_in_cpp.Sql.Types.{
  DataType, Value, null_value, int_value, bool_value, string_value, is_null,
}
use hands_on_sqldb_in_cpp.Sql.Key.{
  Key, tag_of, encode_value, to_key, to_column_key, inclusive_upper_bound,
}
use hands_on_sqldb_in_cpp.Sql.Key.Ordered.{
  FitsColumn, value_less, to_column_key-order, encode_value-head,
}
use hands_on_sqldb_in_cpp.Sql.KeyRange.{
  KeyRange, low_key, high_key, bound_key, after_if, is_empty, is_null_bound, both_not_less, is_some,
}
use hands_on_sqldb_in_cpp.Sql.KeyRange.Operations.{contains, from_low, below_high}

-- A bound that the column can hold.
abbrev pub FitsBound : DataType → Option Value → Type 0
FitsBound column none = Unit {0}
FitsBound column (some v) = FitsColumn column v

-- A range of the column's family, with bounds that the column can hold.
abbrev pub IsOf : DataType → KeyRange → Type 0
IsOf column r = (tag_of r.type ≡ tag_of column) × FitsBound column r.low × FitsBound column r.high

-- Just behind a key comes nothing.
pub upper-bound : (k w : Key) → bytes_lt k (inclusive_upper_bound w) ≡ not (bytes_lt w k)
unfolding inclusive_upper_bound bytes_lt
upper-bound [] [] = refl
upper-bound [] (b ∷ w) = refl
upper-bound (a ∷ k) [] = ground arith
upper-bound (a ∷ k) (b ∷ w) = ground (arith, upper-bound k w)

-- The key of a bound is the column's key of its value, or the key behind it.
bound_key-column :
    (column type : DataType) (v : Value) (behind : Bool)
    → tag_of type ≡ tag_of column
    → FitsColumn column v
    → bound_key type (some v) behind ≡ some (after_if behind (to_column_key column v))
unfolding to_key to_column_key
bound_key-column column type v behind t f = elim (Bool-cases (is_null v)) [
  | inl n ↦ rw (n, t) refl
  | inr n ↦ let (payload, e) = encode_value-head column v f n in rw (n, e) refl
]

-- The values at or above a lower bound, and at or below an upper one.
abbrev pub at_or_above : Option Value → Bool → Value → Bool
at_or_above none exclusive v = true
at_or_above (some w) exclusive v = if exclusive then value_less w v else not (value_less v w)

abbrev pub at_or_below : Option Value → Bool → Value → Bool
at_or_below none inclusive v = true
at_or_below (some w) inclusive v = if inclusive then not (value_less w v) else value_less v w

pub nothing_below_null : (w : Value) → value_less w null_value ≡ false
nothing_below_null null_value = refl
nothing_below_null (int_value d n) = refl
nothing_below_null (bool_value b) = refl
nothing_below_null (string_value d s) = refl

module _ (column : DataType) (v : Value) (f : FitsColumn column v) where
  pub from_low-at_or_above :
      (type : DataType) (low : Option Value) (exclusive : Bool)
      → tag_of type ≡ tag_of column
      → FitsBound column low
      → from_low (bound_key type low exclusive) (to_column_key column v)
        ≡ at_or_above low exclusive v
  from_low-at_or_above type none exclusive t g = refl
  from_low-at_or_above type (some w) true t g =
      rw
        (
          bound_key-column column type w true t g,
          upper-bound (to_column_key column v) (to_column_key column w),
          to_column_key-order column w v g f,
        )
        (ground arith)
  from_low-at_or_above type (some w) false t g =
      rw (bound_key-column column type w false t g, to_column_key-order column v w f g) refl

  pub below_high-at_or_below :
      (type : DataType) (high : Option Value) (inclusive : Bool)
      → tag_of type ≡ tag_of column
      → FitsBound column high
      → below_high (bound_key type high inclusive) (to_column_key column v)
        ≡ at_or_below high inclusive v
  below_high-at_or_below type none inclusive t g = refl
  below_high-at_or_below type (some w) true t g =
      rw
        (
          bound_key-column column type w true t g,
          upper-bound (to_column_key column v) (to_column_key column w),
          to_column_key-order column w v g f,
        )
        refl
  below_high-at_or_below type (some w) false t g =
      rw (bound_key-column column type w false t g, to_column_key-order column v w f g) refl

pub nothing_between :
    (low high : Option Key) (k : Key)
    → both_not_less low high ≡ true
    → (from_low low k && below_high high k) ≡ false
nothing_between none high k h = absurd (ground (arith, h))
nothing_between (some l) none k h = absurd (ground (arith, h))
nothing_between (some l) (some u) k h = ground (arith, h, le_lt_trans l k u)

null_low_ok :
    (low : Option Value) (exclusive : Bool)
    → at_or_above low exclusive null_value
      ≡ (not (is_some low) || (is_null_bound low && not exclusive))
null_low_ok none exclusive = refl
null_low_ok (some w) exclusive = ground (arith, nothing_below_null w)

null_high_ok :
    (high : Option Value) (inclusive : Bool)
    → at_or_below high inclusive null_value
      ≡ (not (is_some high) || (not (is_null_bound high) || inclusive))
null_high_ok none inclusive = refl
null_high_ok (some w) inclusive = ground (arith, nothing_below_null w)

-- The values between the bounds of a range.
abbrev pub is_between : KeyRange → Value → Bool
is_between r v = at_or_above r.low r.low_exclusive v && at_or_below r.high r.high_inclusive v

nothing_below_null_bound :
    (high : Option Value) (inclusive : Bool) (v : Value)
    → (is_null_bound high && not inclusive) ≡ true
    → at_or_below high inclusive v ≡ false
nothing_below_null_bound none inclusive v h = absurd (ground (arith, h))
nothing_below_null_bound (some null_value) inclusive v h = ground (arith, h, nothing_below_null v)
nothing_below_null_bound (some (int_value d n)) inclusive v h = absurd (ground (arith, h))
nothing_below_null_bound (some (bool_value b)) inclusive v h = absurd (ground (arith, h))
nothing_below_null_bound (some (string_value d s)) inclusive v h = absurd (ground (arith, h))

-- A range that is empty has nothing between its bounds.
pub empty-between :
    (column : DataType) (r : KeyRange) (v : Value)
    → IsOf column r
    → FitsColumn column v
    → is_empty r ≡ true
    → is_between r v ≡ false
unfolding is_empty low_key high_key
empty-between column r v (t, gl, gh) f e =
    elim (Bool-cases (is_null_bound r.high && not r.high_inclusive)) [
      | inl n ↦ ground (arith, nothing_below_null_bound r.high r.high_inclusive v n)
      | inr n ↦
          let lows = from_low-at_or_above column v f r.type r.low r.low_exclusive t gl in
          let highs = below_high-at_or_below column v f r.type r.high r.high_inclusive t gh in
          let keys : both_not_less (low_key r) (high_key r) ≡ true = ground (arith, e, n) in
          rw (← lows, ← highs)
            (nothing_between (low_key r) (high_key r) (to_column_key column v) keys)
    ]

null-contains :
    (r : KeyRange) → contains r null_value ≡ (not (is_empty r) && is_between r null_value)
unfolding contains
null-contains r =
    ground (arith, null_low_ok r.low r.low_exclusive, null_high_ok r.high r.high_inclusive)

value-contains :
    (column : DataType) (r : KeyRange) (v : Value)
    → IsOf column r
    → FitsColumn column v
    → is_null v ≡ false
    → contains r v ≡ (not (is_empty r) && is_between r v)
unfolding contains to_key low_key high_key
value-contains column r v (t, gl, gh) f n =
    let (payload, e) = encode_value-head column v f n in
    let lows = from_low-at_or_above column v f r.type r.low r.low_exclusive t gl in
    let highs = below_high-at_or_below column v f r.type r.high r.high_inclusive t gh in
    let key : to_column_key column v ≡ encode_value v = unfold to_column_key in rw n refl in
    rw (n, ← lows, ← highs, key, e) (ground arith)

-- A range of a column contains a value that the column can hold exactly if the value lies between its
-- bounds in the order of the column.
pub contains-is_between :
    (column : DataType) (r : KeyRange) (v : Value)
    → IsOf column r
    → FitsColumn column v
    → contains r v ≡ is_between r v
contains-is_between column r v g f =
    let no_more = empty-between column r v g f in
    let below = by_null v f in ground (arith, no_more, below)
  where
    by_null :
        (w : Value) → FitsColumn column w → contains r w ≡ (not (is_empty r) && is_between r w)
    by_null null_value h = null-contains r
    by_null (int_value d n) h = value-contains column r (int_value d n) g h refl
    by_null (bool_value b) h = value-contains column r (bool_value b) g h refl
    by_null (string_value d s) h = value-contains column r (string_value d s) g h refl
