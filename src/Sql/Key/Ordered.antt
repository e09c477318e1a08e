-- ===== src/Sql/Key/Ordered.antt =====
-- The byte order of the keys of a column is the order of its values.
use hands_on_sqldb_in_cpp.Prelude.{
  ℕ, ◌<◌, ◌≡◌, refl, ◌∙◌, ◌==◌, Bool, true, false, not, ◌||◌, ◌&&◌, [], ◌∷◌, ltb, if◌then◌else◌,
  arith, u64_mod,
}
use hands_on_sqldb_in_cpp.Prelude.Order.{Bytes, bytes_lt}
use hands_on_sqldb_in_cpp.Sql.Int64.{ℤ, ltz, ltz-flip_sign_bit, flip-lt}
use hands_on_sqldb_in_cpp.Sql.Types.{
  DataType, Value, null_value, int_value, bool_value, string_value, IsValid, type_of, is_null,
  is_integer, is_temporal, is_string,
}
use hands_on_sqldb_in_cpp.Sql.Key.{
  make_null_key, tag_of, encode_be64, int64_to_ordered, encode_string, encode_value, to_column_key,
}
use hands_on_sqldb_in_cpp.Sql.Key.Digits.{put_be-order}

encode_be64-order :
    (x y : ℕ) → x < u64_mod → y < u64_mod → bytes_lt (encode_be64 x) (encode_be64 y) ≡ ltb x y
unfolding encode_be64
encode_be64-order x y h k = put_be-order 8 x y ∙ ground (arith, h, k)

encode_string-order : (s t : Bytes) → bytes_lt (encode_string s) (encode_string t) ≡ bytes_lt s t
unfolding encode_string bytes_lt
encode_string-order [] [] = ground arith
encode_string-order [] (d ∷ t) = ground arith
encode_string-order (c ∷ s) [] = ground arith
encode_string-order (c ∷ s) (d ∷ t) = ground (arith, encode_string-order s t)

-- The order of the values of a column: NULL is the smallest.
abbrev pub value_less : Value → Value → Bool
value_less null_value b = not (is_null b)
value_less (int_value d v) b = elim b [ int_value e w ↦ ltz v w | _ ↦ false ]
value_less (bool_value v) b = elim b [ bool_value w ↦ not v && w | _ ↦ false ]
value_less (string_value d s) b = elim b [ string_value e t ↦ bytes_lt s t | _ ↦ false ]

-- A value that a column of the type can hold: NULL, or a value of the column's family.
abbrev pub FitsColumn : DataType → Value → Type 0
FitsColumn column v = IsValid v × ((is_null v || (tag_of (type_of v) == tag_of column)) ≡ true)

pub encode_int :
    (d : DataType) (v : ℤ)
    → (is_integer d || is_temporal d) ≡ true
    → encode_value (int_value d v) ≡ 1 ∷ 1 ∷ encode_be64 (int64_to_ordered v)
unfolding encode_value
encode_int d v h = ground (arith, h)

pub encode_text :
    (d : DataType) (s : Bytes)
    → is_string d ≡ true
    → encode_value (string_value d s) ≡ 2 ∷ 1 ∷ encode_string s
unfolding encode_value
encode_text d s h = ground (arith, h)

same-head : (a : ℕ) (x y : Bytes) → bytes_lt (a ∷ 1 ∷ x) (a ∷ 1 ∷ y) ≡ bytes_lt x y
unfolding bytes_lt
same-head a x y = ground arith

int-order :
    (d e : DataType) (v w : ℤ)
    → IsValid (int_value d v)
    → IsValid (int_value e w)
    → bytes_lt (encode_value (int_value d v)) (encode_value (int_value e w)) ≡ ltz v w
int-order d e v w (h, i) (k, j) =
    rw (encode_int d v h, encode_int e w k)
      (same-head 1 (encode_be64 (int64_to_ordered v)) (encode_be64 (int64_to_ordered w))
        ∙ (encode_be64-order (int64_to_ordered v) (int64_to_ordered w) (flip-lt v i) (flip-lt w j)
            ∙ ltz-flip_sign_bit v w i j))

text-order :
    (d e : DataType) (s t : Bytes)
    → is_string d ≡ true
    → is_string e ≡ true
    → bytes_lt (encode_value (string_value d s)) (encode_value (string_value e t)) ≡ bytes_lt s t
text-order d e s t h k =
    rw (encode_text d s h, encode_text e t k)
      (same-head 2 (encode_string s) (encode_string t) ∙ encode_string-order s t)

bool-order :
    (v w : Bool) → bytes_lt (encode_value (bool_value v)) (encode_value (bool_value w)) ≡ not v && w
unfolding encode_value bytes_lt
bool-order v w = ground arith

-- The tag and the flag of a key of the column.
pub encode_value-head :
    (column : DataType) (v : Value)
    → FitsColumn column v
    → is_null v ≡ false
    → (payload : Bytes) × (encode_value v ≡ tag_of column ∷ 1 ∷ payload)
unfolding encode_value
encode_value-head column null_value f h = ground (arith, h)
encode_value-head column (int_value d v) f h =
    let tag : tag_of column ≡ 1 = ground (arith, f) in
    (encode_be64 (int64_to_ordered v), encode_int d v f.0.0 ∙ rw tag refl)
encode_value-head column (bool_value v) f h =
    let tag : tag_of column ≡ 3 = ground (arith, f) in ((if v then 1 else 0) ∷ [], rw tag refl)
encode_value-head column (string_value d s) f h =
    let tag : tag_of column ≡ 2 = ground (arith, f) in
    (encode_string s, encode_text d s f.0 ∙ rw tag refl)

null-first :
    (column : DataType) (v : Value)
    → FitsColumn column v
    → is_null v ≡ false
    → (bytes_lt (make_null_key (tag_of column)) (encode_value v) ≡ true)
      × (bytes_lt (encode_value v) (make_null_key (tag_of column)) ≡ false)
unfolding bytes_lt
null-first column v f h =
    let (payload, e) = encode_value-head column v f h in rw e (ground arith, ground arith)

-- The keys of a column are ordered, as byte strings, like its values: NULL first, integers and times
-- by their numbers, strings byte by byte whatever bytes they hold, and false before true.
pub to_column_key-order :
    (column : DataType) (a b : Value)
    → FitsColumn column a
    → FitsColumn column b
    → bytes_lt (to_column_key column a) (to_column_key column b) ≡ value_less a b
unfolding to_column_key bytes_lt
to_column_key-order column null_value null_value f g = ground arith
to_column_key-order column null_value (int_value e w) f g =
    (null-first column (int_value e w) g refl).0
to_column_key-order column null_value (bool_value w) f g =
    (null-first column (bool_value w) g refl).0
to_column_key-order column null_value (string_value e t) f g =
    (null-first column (string_value e t) g refl).0
to_column_key-order column (int_value d v) null_value f g =
    (null-first column (int_value d v) f refl).1
to_column_key-order column (bool_value v) null_value f g =
    (null-first column (bool_value v) f refl).1
to_column_key-order column (string_value d s) null_value f g =
    (null-first column (string_value d s) f refl).1
to_column_key-order column (int_value d v) (int_value e w) f g = int-order d e v w f.0 g.0
to_column_key-order column (string_value d s) (string_value e t) f g = text-order d e s t f.0 g.0
to_column_key-order column (bool_value v) (bool_value w) f g = bool-order v w
to_column_key-order column (int_value d v) (bool_value w) f g = ground (arith, f, g)
to_column_key-order column (int_value d v) (string_value e t) f g = ground (arith, f, g)
to_column_key-order column (bool_value v) (int_value e w) f g = ground (arith, f, g)
to_column_key-order column (bool_value v) (string_value e t) f g = ground (arith, f, g)
to_column_key-order column (string_value d s) (int_value e w) f g = ground (arith, f, g)
to_column_key-order column (string_value d s) (bool_value w) f g = ground (arith, f, g)
