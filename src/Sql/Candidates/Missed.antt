-- ===== src/Sql/Candidates/Missed.antt =====
-- Literals of another class than the primary key's: they are compared after a conversion, but looked
-- up as they are.
use hands_on_sqldb_in_cpp.Prelude.{◌≡◌, refl, true, false, Option, some, [], ◌∷◌, arith}
use hands_on_sqldb_in_cpp.Prelude.Order.{Bytes, bytes_lt}
use hands_on_sqldb_in_cpp.Sql.Int64.{ℤ, pos, negsuc, eqz}
use hands_on_sqldb_in_cpp.Sql.Types.{
  DataType, unknown_type, Value, int_value, string_value, is_integer, is_string, common_type,
}
use hands_on_sqldb_in_cpp.Sql.Numbers.{parse_int64_strict}
use hands_on_sqldb_in_cpp.Sql.Truth.{eq, where_keeps, sql_compare_op, sql_order, cross_order}
use hands_on_sqldb_in_cpp.Sql.Conditions.{compare_condition, evaluate}
use hands_on_sqldb_in_cpp.Sql.KeyRange.{KeyRange, point, closed, all, low_key}
use hands_on_sqldb_in_cpp.Sql.KeyRange.Operations.{contains}
use hands_on_sqldb_in_cpp.Sql.KeyRange.Sets.{contains_any}
use hands_on_sqldb_in_cpp.Sql.Key.{to_key}
use hands_on_sqldb_in_cpp.Sql.Key.Ordered.{encode_int, encode_text}
use hands_on_sqldb_in_cpp.Sql.Candidates.{
  range_of_condition, normalize_ranges, sorted_ranges, insert_range, merge_ranges,
}
use hands_on_sqldb_in_cpp.Sql.Candidates.Planned.{is_scanned}

eqz_refl : (n : ℤ) → eqz n n ≡ true
eqz_refl (pos a) = ground arith
eqz_refl (negsuc a) = ground arith

nothing_common :
    (d t : DataType) → is_integer d ≡ true → is_string t ≡ true → common_type d t ≡ unknown_type
unfolding common_type
nothing_common d t h k = ground (arith, h, k)

text_equals :
    (d t : DataType) (n : ℤ) (s : Bytes)
    → is_integer d ≡ true
    → is_string t ≡ true
    → parse_int64_strict s ≡ some n
    → where_keeps (sql_compare_op eq (int_value d n) (string_value t s)) ≡ true
unfolding sql_compare_op sql_order cross_order
text_equals d t n s h k p = rw (nothing_common d t h k, h, p, eqz_refl n) refl

text_point :
    (d t : DataType) (n : ℤ) (s : Bytes)
    → is_integer d ≡ true
    → is_string t ≡ true
    → contains (point (string_value t s)) (int_value d n) ≡ false
unfolding contains point closed all low_key to_key bytes_lt
text_point d t n s h k = rw (encode_int d n (ground (arith, h)), encode_text t s k) (ground arith)

single :
    (r : KeyRange) (v : Value)
    → contains r v ≡ false
    → contains_any (normalize_ranges (r ∷ [])) v ≡ false
unfolding normalize_ranges sorted_ranges insert_range merge_ranges
single r v h = ground (arith, h)

-- A row of an integer key that WHERE keeps, since the text of the literal is parsed to the number of
-- the key, is in no range of the condition: the range is that of the text.
pub text_literal_missed :
    {I : Type 0} (name : I) (lookup : I → Option Value) (column d t : DataType) (n : ℤ) (s : Bytes)
    → is_integer d ≡ true
    → is_string t ≡ true
    → parse_int64_strict s ≡ some n
    → lookup name ≡ some (int_value d n)
    → let c = compare_condition name eq (string_value t s) in
      (where_keeps (evaluate lookup c) ≡ true)
      × (is_scanned column (some c) (int_value d n) ≡ false)
unfolding evaluate range_of_condition
text_literal_missed name lookup column d t n s h k p f = (
  rw f (text_equals d t n s h k p),
  single (point (string_value t s)) (int_value d n) (text_point d t n s h k),
)
