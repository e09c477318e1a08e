-- ===== src/Sql/KeyRange/Scan.antt =====
-- The byte interval that stands for a key range when the storage is scanned.
use hands_on_sqldb_in_cpp.Prelude.{
  ◌≡◌, refl, ◌∙◌, ◌⊎◌, inl, inr, Bool, true, false, not, ◌&&◌, Option, none, some, [], ◌∷◌, arith,
  Bool-cases, if◌then◌else◌,
}
use hands_on_sqldb_in_cpp.Prelude.Order.{Bytes, bytes_lt}
use hands_on_sqldb_in_cpp.Sql.Types.{DataType, Value, null_value, is_null}
use hands_on_sqldb_in_cpp.Sql.Key.{
  Key, tag_of, to_key, to_column_key, min_key_for_type, upper_key_for_type,
}
use hands_on_sqldb_in_cpp.Sql.Key.Ordered.{FitsColumn, to_column_key-order, encode_value-head}
use hands_on_sqldb_in_cpp.Sql.KeyRange.{KeyRange, StrKeyRange, is_empty, is_all, low_key, high_key}
use hands_on_sqldb_in_cpp.Sql.KeyRange.Operations.{
  to_str_key_range, scan_start, scan_end, effective_type, or_key,
}
use hands_on_sqldb_in_cpp.Sql.KeyRange.Bounds.{
  FitsBound, is_between, at_or_above, at_or_below, empty-between, upper-bound, nothing_below_null,
}

-- What a scan of the storage gives: the keys from the start on and below the end.
abbrev pub scans : StrKeyRange → Key → Bool
scans s k = not (bytes_lt k s.start) && bytes_lt k s.end

column_key-head :
    (column : DataType) (v : Value)
    → FitsColumn column v
    → (rest : Bytes) × (to_column_key column v ≡ tag_of column ∷ rest)
unfolding to_column_key
column_key-head column v f = elim (Bool-cases (is_null v)) [
  | inl n ↦ (0 ∷ [], rw n refl)
  | inr n ↦ let (payload, e) = encode_value-head column v f n in (1 ∷ payload, rw (n, e) refl)
]

module _ (column type : DataType) (t : tag_of type ≡ tag_of column) where
  bound-column :
      (w : Value) (default : Key)
      → FitsColumn column w
      → or_key default (if is_null w then min_key_for_type type else to_key w)
        ≡ to_column_key column w
  unfolding to_column_key to_key
  bound-column w default f = elim (Bool-cases (is_null w)) [
    | inl n ↦ rw (n, t) refl
    | inr n ↦ let (payload, e) = encode_value-head column w f n in rw (n, e) refl
  ]

  below_upper :
      (v : Value)
      → FitsColumn column v
      → bytes_lt (to_column_key column v) (upper_key_for_type type) ≡ true
  unfolding bytes_lt
  below_upper v f = let (rest, e) = column_key-head column v f in rw (e, t) (ground arith)

  not_below_min :
      (v : Value)
      → FitsColumn column v
      → bytes_lt (to_column_key column v) (min_key_for_type type) ≡ false
  unfolding to_column_key
  not_below_min v f =
      rw t (to_column_key-order column v null_value f (tt, refl) ∙ nothing_below_null v)

  module _ (v : Value) (f : FitsColumn column v) where
    start-at_or_above :
        (low : Option Value) (exclusive : Bool)
        → FitsBound column low
        → not (bytes_lt (to_column_key column v) (scan_start type low exclusive))
          ≡ at_or_above low exclusive v
    start-at_or_above none exclusive g = rw (not_below_min v f) refl
    start-at_or_above (some w) true g =
        rw
          (
            bound-column w (min_key_for_type type) g,
            upper-bound (to_column_key column v) (to_column_key column w),
            to_column_key-order column w v g f,
          )
          (ground arith)
    start-at_or_above (some w) false g =
        rw (bound-column w (min_key_for_type type) g, to_column_key-order column v w f g) refl

    end-at_or_below :
        (high : Option Value) (inclusive : Bool)
        → FitsBound column high
        → bytes_lt (to_column_key column v) (scan_end type high inclusive)
          ≡ at_or_below high inclusive v
    end-at_or_below none inclusive g = below_upper v f
    end-at_or_below (some w) true g =
        rw
          (
            bound-column w (upper_key_for_type type) g,
            upper-bound (to_column_key column v) (to_column_key column w),
            to_column_key-order column w v g f,
          )
          refl
    end-at_or_below (some w) false g =
        rw (bound-column w (upper_key_for_type type) g, to_column_key-order column v w f g) refl

all-nonempty : (r : KeyRange) → is_all r ≡ true → is_empty r ≡ false
unfolding is_all is_empty low_key high_key
all-nonempty r h = by_bounds r.low r.high refl refl
  where
    by_bounds : (low high : Option Value) → r.low ≡ low → r.high ≡ high → is_empty r ≡ false
    by_bounds none none p q = rw (p, q) refl
    by_bounds none (some w) p q = absurd (ground (arith, h, p, q))
    by_bounds (some w) high p q = absurd (ground (arith, h, p, q))

-- The scan of a key range, of a column's family or without bounds, with a fallback where the range
-- has no type of its own, gives the key of a value that the column can hold exactly if the value lies
-- between the bounds of the range.
pub scans-is_between :
    (column fallback : DataType) (r : KeyRange) (v : Value)
    → (tag_of r.type ≡ tag_of column) ⊎ (is_all r ≡ true)
    → tag_of (effective_type r fallback) ≡ tag_of column
    → FitsBound column r.low
    → FitsBound column r.high
    → FitsColumn column v
    → scans (to_str_key_range fallback r) (to_column_key column v) ≡ is_between r v
unfolding to_str_key_range
scans-is_between column fallback r v kind t l h f =
    let type = effective_type r fallback in
    elim (Bool-cases (is_empty r)) [
      | inl e ↦ rw (e, nothing kind e) (ground arith)
      | inr e ↦
          rw
            (
              e,
              start-at_or_above column type t v f r.low r.low_exclusive l,
              end-at_or_below column type t v f r.high r.high_inclusive h,
            )
            refl
    ]
  where
    nothing :
        (tag_of r.type ≡ tag_of column) ⊎ (is_all r ≡ true)
        → is_empty r ≡ true
        → is_between r v ≡ false
    nothing (inl s) e = empty-between column r v (s, l, h) f e
    nothing (inr s) e = absurd (ground (arith, all-nonempty r s, e))
