-- ===== src/Sql/Candidates/Alike.antt =====
-- The comparison of a column's values in SQL is their order in the column.
use hands_on_sqldb_in_cpp.Prelude.{
  ◌≡◌, refl, Bool, true, false, not, ◌||◌, ◌&&◌, none, some, arith, Bool-cases, inl, inr,
  if◌then◌else◌,
}
use hands_on_sqldb_in_cpp.Prelude.Order.{Bytes, bytes_lt, bytes_order, eqb, lt→le}
use hands_on_sqldb_in_cpp.Sql.Int64.{ℤ, pos, negsuc, ltz, times, ltz_asym}
use hands_on_sqldb_in_cpp.Sql.Types.{
  DataType, Value, null_value, int_value, bool_value, string_value, IsValid, type_of, is_null,
  is_integer, is_temporal, is_string, same_type, same_class, common_type,
}
use hands_on_sqldb_in_cpp.Sql.Temporal.{seconds_per_day}
use hands_on_sqldb_in_cpp.Sql.Key.Ordered.{FitsColumn, value_less}
use hands_on_sqldb_in_cpp.Sql.Candidates.{is_indexable}
use hands_on_sqldb_in_cpp.Sql.KeyRange.Bounds.{nothing_below_null}
use hands_on_sqldb_in_cpp.Sql.Truth.{
  CompareOp, eq, gt, ge, lt, le, equals_true, Comparison, below, same, above, sql_order,
  sql_compare_op, cmp_int64, cmp_bytes, temporal_seconds, both,
}

-- A value that a comparison with a column of the type takes as it is: NULL, or one of the column's
-- class, and of its very type for a time.
abbrev pub IsLike : DataType → Value → Type 0
IsLike column v =
    IsValid v
    × ((is_null v || (same_class (type_of v) column || same_type (type_of v) column)) ≡ true)

pub IsLike-FitsColumn : (column : DataType) (v : Value) → IsLike column v → FitsColumn column v
IsLike-FitsColumn column v l = (l.0, ground (arith, l.1))

-- The order of two values of a column.
abbrev pub value_order : Value → Value → Comparison
value_order v w = if value_less v w then below else if value_less w v then above else same

int-order : (a b : ℤ) → cmp_int64 a b ≡ (if ltz a b then below else if ltz b a then above else same)
int-order (pos a) (pos b) = ground arith
int-order (pos a) (negsuc b) = refl
int-order (negsuc a) (pos b) = refl
int-order (negsuc a) (negsuc b) = ground arith

days-order :
    (a b : ℤ) → cmp_int64 (times a seconds_per_day) (times b seconds_per_day) ≡ cmp_int64 a b
days-order (pos a) (pos b) = ground arith
days-order (pos a) (negsuc b) = refl
days-order (negsuc a) (pos b) = refl
days-order (negsuc a) (negsuc b) = ground arith

text-order :
    (s t : Bytes)
    → cmp_bytes s t ≡ (if bytes_lt s t then below else if bytes_lt t s then above else same)
unfolding eqb
text-order s t = ground (arith, lt→le s t, lt→le t s)

common-integer :
    (d e : DataType)
    → is_integer d ≡ true
    → is_integer e ≡ true
    → is_integer (common_type d e) ≡ true
unfolding common_type
common-integer d e h k = ground (arith, h, k)

common-same : (d e : DataType) → same_type d e ≡ true → common_type d e ≡ d
unfolding common_type
common-same d e h = rw h refl

temporal-order :
    (d e : DataType) (a b : ℤ)
    → is_temporal d ≡ true
    → same_type d e ≡ true
    → both (temporal_seconds (int_value d a)) (temporal_seconds (int_value e b))
      ≡ some (cmp_int64 a b)
temporal-order d e a b h k = ground (arith, h, k, days-order a b)

ints :
    (d e : DataType) (a b : ℤ)
    → ((is_integer d && is_integer e) || (is_temporal d && same_type d e)) ≡ true
    → sql_order (int_value d a) (int_value e b) ≡ some (value_order (int_value d a) (int_value e b))
unfolding sql_order
ints d e a b h = elim (Bool-cases (is_integer d && is_integer e)) [
  | inl i ↦
      let common = common-integer d e (ground (arith, i)) (ground (arith, i)) in
      ground (arith, common, i, int-order a b)
  | inr i ↦
      let common = common-same d e (ground (arith, h, i)) in
      rw common (ground (arith, h, i, temporal-order d e a b, int-order a b))
]

texts :
    (d e : DataType) (s t : Bytes)
    → (is_string d && is_string e) ≡ true
    → sql_order (string_value d s) (string_value e t)
      ≡ some (value_order (string_value d s) (string_value e t))
unfolding sql_order common_type
texts d e s t h = ground (arith, h, text-order s t)

bools :
    (a b : Bool)
    → sql_order (bool_value a) (bool_value b) ≡ some (value_order (bool_value a) (bool_value b))
unfolding sql_order common_type
bools true true = refl
bools true false = refl
bools false true = refl
bools false false = refl

order_of_alike :
    (column : DataType) (v w : Value)
    → IsLike column v
    → IsLike column w
    → (is_null v || is_null w) ≡ false
    → sql_order v w ≡ some (value_order v w)
order_of_alike column null_value w l m h = absurd (ground (arith, h))
order_of_alike column (int_value d a) null_value l m h = absurd (ground (arith, h))
order_of_alike column (bool_value a) null_value l m h = absurd (ground (arith, h))
order_of_alike column (string_value d s) null_value l m h = absurd (ground (arith, h))
order_of_alike column (int_value d a) (int_value e b) l m h =
    ints d e a b (ground (arith, l.0, m.0, l.1, m.1))
order_of_alike column (bool_value a) (bool_value b) l m h = bools a b
order_of_alike column (string_value d s) (string_value e t) l m h =
    texts d e s t (ground (arith, l.0, m.0))
order_of_alike column (int_value d a) (bool_value b) l m h = absurd (ground (arith, l, m))
order_of_alike column (int_value d a) (string_value e t) l m h = absurd (ground (arith, l, m))
order_of_alike column (bool_value a) (int_value e b) l m h = absurd (ground (arith, l, m))
order_of_alike column (bool_value a) (string_value e t) l m h = absurd (ground (arith, l, m))
order_of_alike column (string_value d s) (int_value e b) l m h = absurd (ground (arith, l, m))
order_of_alike column (string_value d s) (bool_value b) l m h = absurd (ground (arith, l, m))

pub order_of_null : (v w : Value) → (is_null v || is_null w) ≡ true → sql_order v w ≡ none
unfolding sql_order
order_of_null v w h = ground (arith, h)

value_less_asym : (v w : Value) → value_less v w ≡ true → value_less w v ≡ false
value_less_asym null_value w h = ground (arith, h)
value_less_asym (int_value d a) null_value h = absurd (ground (arith, h))
value_less_asym (int_value d a) (int_value e b) h = ltz_asym a b h
value_less_asym (int_value d a) (bool_value b) h = refl
value_less_asym (int_value d a) (string_value e t) h = refl
value_less_asym (bool_value a) null_value h = absurd (ground (arith, h))
value_less_asym (bool_value a) (int_value e b) h = refl
value_less_asym (bool_value a) (bool_value b) h = ground (arith, h)
value_less_asym (bool_value a) (string_value e t) h = refl
value_less_asym (string_value d s) null_value h = absurd (ground (arith, h))
value_less_asym (string_value d s) (int_value e b) h = refl
value_less_asym (string_value d s) (bool_value b) h = refl
value_less_asym (string_value d s) (string_value e t) h = lt→le s t h

null_less :
    (v w : Value)
    → is_null v ≡ true
    → is_null w ≡ false
    → (value_less v w ≡ true) × (value_less w v ≡ false)
null_less null_value w h k = (ground (arith, k), nothing_below_null w)
null_less (int_value d a) w h k = absurd (ground (arith, h))
null_less (bool_value a) w h k = absurd (ground (arith, h))
null_less (string_value d s) w h k = absurd (ground (arith, h))

-- The comparisons of a value with a literal, in the order of the column.
abbrev pub holds : CompareOp → Value → Value → Bool
holds op v w = elim op [
  | eq ↦ not (value_less v w) && not (value_less w v)
  | gt ↦ value_less w v
  | ge ↦ not (value_less v w)
  | lt ↦ not (is_null v) && value_less v w
  | le ↦ not (is_null v) && not (value_less w v)
  | _ ↦ false
]

pub compare-holds :
    (column : DataType) (op : CompareOp) (v w : Value)
    → IsLike column v
    → IsLike column w
    → is_null w ≡ false
    → is_indexable op ≡ true
    → equals_true (sql_compare_op op v w) ≡ holds op v w
unfolding sql_compare_op
compare-holds column op v w l m k i = elim (Bool-cases (is_null v)) [
  | inl h ↦ let less = null_less v w h k in ground (arith, i, order_of_null v w, less, h, k)
  | inr h ↦ ground (arith, i, order_of_alike column v w l m, value_less_asym v w, h, k)
]
