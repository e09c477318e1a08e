-- ===== src/Sql/Rewriter/Values.antt =====
-- Values that are equal as C++ values compare alike in SQL.
use hands_on_sqldb_in_cpp.Prelude.{
  ==_iff, Bool-cases, inl, inr, ◌≡◌, refl, sym, ap, ◌∙◌, Bool, true, ◌||◌, Option, none, some,
  if◌then◌else◌, arith,
}
use hands_on_sqldb_in_cpp.Prelude.Order.{Bytes, bytes_order, eqb→eq}
use hands_on_sqldb_in_cpp.Sql.Int64.{ℤ, pos, negsuc, eqz}
use hands_on_sqldb_in_cpp.Sql.Types.{
  DataType, is_integer, is_boolean, is_string, Value, null_value, int_value, bool_value,
  string_value, common_type, IsValid, same_type, is_temporal, same_storage, value_equal,
}
use hands_on_sqldb_in_cpp.Sql.Numbers.{parse_int64_strict}
use hands_on_sqldb_in_cpp.Sql.Truth.{
  Comparison, cmp_int64, cmp_bytes, flipped, both, cross_order, sql_order, sql_compare_op, eq,
  by_order,
}

abbrev number_order : Value → ℤ → Option Comparison
number_order null_value n = none
number_order (bool_value b) n = some (cmp_int64 (if b then pos 1 else pos 0) n)
number_order (int_value c m) n = if is_integer c then some (cmp_int64 m n) else none
number_order (string_value c s) n =
    if is_integer c || is_boolean c then none else flipped (both (some n) (parse_int64_strict s))

-- Only the number of an integer counts, not its width.
integer-order :
    (lhs : Value) (d : DataType) (n : ℤ)
    → is_integer d ≡ true
    → sql_order lhs (int_value d n) ≡ number_order lhs n
unfolding sql_order common_type cross_order
integer-order null_value d n h = ground arith
integer-order (bool_value b) d n h = ground (arith, h)
integer-order (int_value c m) d n h = ground (arith, h)
integer-order (string_value c s) d n h = ground (arith, h)

abbrev text_order : Value → Bytes → Option Comparison
text_order null_value t = none
text_order (bool_value b) t = cross_order (bool_value b) t
text_order (int_value c m) t = if is_string c then none else cross_order (int_value c m) t
text_order (string_value c s) t = if is_string c then some (cmp_bytes s t) else none

-- Only the bytes of a string count.
string-order :
    (lhs : Value) (d : DataType) (t : Bytes)
    → is_string d ≡ true
    → sql_order lhs (string_value d t) ≡ text_order lhs t
unfolding sql_order common_type
string-order null_value d t h = ground arith
string-order (bool_value b) d t h = ground (arith, h)
string-order (int_value c m) d t h = ground (arith, h)
string-order (string_value c s) d t h = ground (arith, h)

eqz→eq : (a b : ℤ) → eqz a b ≡ true → a ≡ b
eqz→eq (pos a) (pos b) h = ap pos ((==_iff a b).0 h)
eqz→eq (pos a) (negsuc b) h = ground (arith, h)
eqz→eq (negsuc a) (pos b) h = ground (arith, h)
eqz→eq (negsuc a) (negsuc b) h = ap negsuc ((==_iff a b).0 h)

same_type→eq : (d e : DataType) → same_type d e ≡ true → d ≡ e
same_type→eq d e h = ground (arith, h)

int_equal-compare :
    (lhs : Value) (d e : DataType) (v w : ℤ)
    → IsValid (int_value d v)
    → IsValid (int_value e w)
    → value_equal (int_value d v) (int_value e w) ≡ true
    → sql_order lhs (int_value d v) ≡ sql_order lhs (int_value e w)
unfolding value_equal same_storage
int_equal-compare lhs d e v w f g h =
    let number : v ≡ w = eqz→eq v w (ground (arith, h)) in
    elim (Bool-cases (is_temporal d)) [
      | inl temporal ↦
          let type : d ≡ e = same_type→eq d e (ground (arith, h, temporal)) in
          ap (λ (c : DataType). sql_order lhs (int_value c v)) type
          ∙ ap (λ (n : ℤ). sql_order lhs (int_value e n)) number
      | inr other ↦
          integer-order lhs d v (ground (arith, other, f))
          ∙ (ap (number_order lhs) number
              ∙ sym (integer-order lhs e w (ground (arith, h, other, f, g))))
    ]

string_equal-compare :
    (lhs : Value) (d e : DataType) (s t : Bytes)
    → is_string d ≡ true
    → is_string e ≡ true
    → value_equal (string_value d s) (string_value e t) ≡ true
    → sql_order lhs (string_value d s) ≡ sql_order lhs (string_value e t)
unfolding value_equal same_storage
string_equal-compare lhs d e s t f g h =
    let bytes : s ≡ t = eqb→eq s t (ground (arith, h, f, g)) in
    string-order lhs d s f ∙ (ap (text_order lhs) bytes ∙ sym (string-order lhs e t g))

bool_equal-eq : (v w : Bool) → value_equal (bool_value v) (bool_value w) ≡ true → v ≡ w
unfolding value_equal same_storage
bool_equal-eq v w h = ground (arith, h)

-- Equal values compare alike with every value.
pub value_equal-compare :
    (lhs v w : Value)
    → IsValid v
    → IsValid w
    → value_equal v w ≡ true
    → sql_compare_op eq lhs v ≡ sql_compare_op eq lhs w
unfolding sql_compare_op value_equal same_storage
value_equal-compare lhs null_value null_value f g h = refl
value_equal-compare lhs (int_value d v) (int_value e w) f g h =
    ap (by_order eq) (int_equal-compare lhs d e v w f g h)
value_equal-compare lhs (bool_value v) (bool_value w) f g h =
    ap (λ (b : Bool). by_order eq (sql_order lhs (bool_value b))) (bool_equal-eq v w h)
value_equal-compare lhs (string_value d s) (string_value e t) f g h =
    ap (by_order eq) (string_equal-compare lhs d e s t f g h)
value_equal-compare lhs null_value (int_value e w) f g h = ground (arith, h)
value_equal-compare lhs null_value (bool_value w) f g h = ground (arith, h)
value_equal-compare lhs null_value (string_value e t) f g h = ground (arith, h)
value_equal-compare lhs (int_value d v) null_value f g h = ground (arith, h)
value_equal-compare lhs (int_value d v) (bool_value w) f g h = ground (arith, h)
value_equal-compare lhs (int_value d v) (string_value e t) f g h = ground (arith, h)
value_equal-compare lhs (bool_value v) null_value f g h = ground (arith, h)
value_equal-compare lhs (bool_value v) (int_value e w) f g h = ground (arith, h)
value_equal-compare lhs (bool_value v) (string_value e t) f g h = ground (arith, h)
value_equal-compare lhs (string_value d s) null_value f g h = ground (arith, h)
value_equal-compare lhs (string_value d s) (int_value e w) f g h = ground (arith, h)
value_equal-compare lhs (string_value d s) (bool_value w) f g h = ground (arith, h)
