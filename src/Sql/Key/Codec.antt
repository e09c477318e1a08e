-- ===== src/Sql/Key/Codec.antt =====
-- A value that is encoded as a key of its column and decoded again is the same value.
use hands_on_sqldb_in_cpp.Prelude.{
  ℕ, ◌<◌, ◌≡◌, refl, ap, ◌∙◌, ◌==◌, Bool, true, false, some, [], ◌∷◌, length, if◌then◌else◌, arith,
  Bool-cases, ==_iff, inl, inr, u64_mod,
}
use hands_on_sqldb_in_cpp.Prelude.Order.{Bytes}
use hands_on_sqldb_in_cpp.Raft.Wire.{put_be, be_value}
use hands_on_sqldb_in_cpp.Sql.Int64.{ℤ, IsInt64, from_u64-flip, flip-lt}
use hands_on_sqldb_in_cpp.Sql.Types.{
  DataType, bigint, varchar, Value, null_value, int_value, bool_value, string_value, is_temporal,
  is_string,
}
use hands_on_sqldb_in_cpp.Sql.Key.{
  tag_of, encode_be64, decode_be64, int64_to_ordered, encode_string, decode_string, encode_value,
  to_column_key, decode_value, from_key, cons_some,
}
use hands_on_sqldb_in_cpp.Sql.Key.Ordered.{FitsColumn, encode_int, encode_text}

decode_be64-encode_be64 : (v : ℕ) → v < u64_mod → decode_be64 (encode_be64 v) ≡ v
unfolding decode_be64 encode_be64 put_be be_value
decode_be64-encode_be64 v h = ground arith

length-encode_be64 : (v : ℕ) → length (encode_be64 v) ≡ 8
unfolding encode_be64 put_be
length-encode_be64 v = refl

length-encode_string : (s : Bytes) → 0 < length (encode_string s)
unfolding encode_string
length-encode_string [] = omega arith
length-encode_string (c ∷ s) = ground arith

decode_string-plain :
    (c : ℕ) (key : Bytes)
    → (c == 0) ≡ false
    → 0 < length key
    → decode_string (c ∷ key) ≡ cons_some c (decode_string key)
unfolding decode_string
decode_string-plain c [] h k = ground (arith, k)
decode_string-plain c (d ∷ key) h k = rw h refl

decode_string-escaped :
    (key : Bytes) → decode_string (0 ∷ 255 ∷ key) ≡ cons_some 0 (decode_string key)
unfolding decode_string
decode_string-escaped key = ground arith

decode_string-encode_string : (s : Bytes) → decode_string (encode_string s) ≡ some s
unfolding encode_string decode_string
decode_string-encode_string [] = refl
decode_string-encode_string (c ∷ s) = elim (Bool-cases (c == 0)) [
  | inl zero_byte ↦
      rw ((==_iff c 0).0 zero_byte)
        (decode_string-escaped (encode_string s) ∙ ap (cons_some 0) (decode_string-encode_string s))
  | inr plain ↦ rw plain (
      decode_string-plain c (encode_string s) plain (length-encode_string s)
      ∙ ap (cons_some c) (decode_string-encode_string s))
]

-- Integers come back as BIGINT, and times and strings with the type of the column.
abbrev pub stored : DataType → Value → Value
stored column null_value = null_value
stored column (int_value d v) = int_value (if is_temporal column then column else bigint) v
stored column (bool_value b) = bool_value b
stored column (string_value d s) = string_value (if is_string column then column else varchar) s

from_key-value :
    (column : DataType) (tag : ℕ) (bytes : Bytes)
    → tag_of column ≡ tag
    → 0 < tag
    → from_key column (tag ∷ 1 ∷ bytes) ≡ decode_value tag column bytes
unfolding from_key
from_key-value column tag bytes h k = ground (arith, h, k)

decode_value-int :
    (column : DataType) (v : ℤ)
    → IsInt64 v
    → decode_value 1 column (encode_be64 (int64_to_ordered v)) ≡ stored column (int_value column v)
unfolding decode_value
decode_value-int column v h =
    rw
      (
        length-encode_be64 (int64_to_ordered v),
        decode_be64-encode_be64 (int64_to_ordered v) (flip-lt v h),
        from_u64-flip v h,
      )
      refl

decode_value-string :
    (column d : DataType) (s : Bytes)
    → decode_value 2 column (encode_string s) ≡ stored column (string_value d s)
unfolding decode_value
decode_value-string column d s = rw (decode_string-encode_string s) refl

decode_value-bool :
    (column : DataType) (b : Bool)
    → decode_value 3 column ((if b then 1 else 0) ∷ []) ≡ bool_value b
unfolding decode_value
decode_value-bool column true = ground arith
decode_value-bool column false = ground arith

from_key-null : (column : DataType) (tag : ℕ) → from_key column (tag ∷ 0 ∷ []) ≡ null_value
unfolding from_key
from_key-null column tag = ground arith

-- What a column stores is read back, if the value is NULL or of the column's family: NULL as NULL, a
-- string and a Boolean as they are, and a number as the same number.
pub from_key-to_column_key :
    (column : DataType) (v : Value)
    → FitsColumn column v
    → from_key column (to_column_key column v) ≡ stored column v
unfolding to_column_key encode_value
from_key-to_column_key column null_value f = from_key-null column (tag_of column)
from_key-to_column_key column (int_value d v) f =
    let tag : tag_of column ≡ 1 = ground (arith, f) in
    ap (from_key column) (encode_int d v f.0.0)
    ∙ (from_key-value column 1 (encode_be64 (int64_to_ordered v)) tag (omega arith)
        ∙ decode_value-int column v f.0.1)
from_key-to_column_key column (bool_value b) f =
    let tag : tag_of column ≡ 3 = ground (arith, f) in
    from_key-value column 3 ((if b then 1 else 0) ∷ []) tag (omega arith)
    ∙ decode_value-bool column b
from_key-to_column_key column (string_value d s) f =
    let tag : tag_of column ≡ 2 = ground (arith, f) in
    ap (from_key column) (encode_text d s f.0)
    ∙ (from_key-value column 2 (encode_string s) tag (omega arith) ∙ decode_value-string column d s)
