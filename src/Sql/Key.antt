-- ===== src/Sql/Key.antt =====
-- sql_types/key.h: values as keys whose byte order is the order of the values.
pub mod Codec
pub mod Digits
pub mod Ordered
use hands_on_sqldb_in_cpp.Prelude.{
  ℕ, zero, suc, ◌+◌, ◌*◌, ◌-◌, ◌==◌, Bool, true, false, not, ◌||◌, ◌&&◌, Option, none, some, List,
  [], ◌∷◌, ◌++◌, ltb, leb, length, take, drop, if◌then◌else◌,
}
use hands_on_sqldb_in_cpp.Prelude.Order.{Bytes, bytes_lt}
use hands_on_sqldb_in_cpp.Raft.Wire.{put_be, be_value}
use hands_on_sqldb_in_cpp.Sql.Int64.{ℤ, to_u64, from_u64, flip_sign_bit}
use hands_on_sqldb_in_cpp.Sql.Types.{
  DataType, bigint, varchar, is_integer, is_temporal, is_string, is_boolean, Value, null_value,
  int_value, bool_value, string_value, type_of, is_null,
}

abbrev pub Key : Type 0
Key = Bytes

abbrev pub tag_null : ℕ
tag_null = 0

abbrev pub tag_int64 : ℕ
tag_int64 = 1

abbrev pub tag_string : ℕ
tag_string = 2

abbrev pub tag_bool : ℕ
tag_bool = 3

abbrev pub tag_of : DataType → ℕ
tag_of type =
    if is_integer type || is_temporal type
    then tag_int64
    else if is_string type
    then tag_string
    else if is_boolean type
    then tag_bool
    else tag_null

-- Eight bytes, from the highest to the lowest.
unfoldable pub encode_be64 : ℕ → Bytes
encode_be64 = put_be 8

unfoldable pub decode_be64 : Bytes → ℕ
decode_be64 bytes = be_value 8 0 bytes

abbrev pub int64_to_ordered : ℤ → ℕ
int64_to_ordered v = flip_sign_bit (to_u64 v)

abbrev pub ordered_to_int64 : ℕ → ℤ
ordered_to_int64 v = from_u64 (flip_sign_bit v)

unfoldable pub encode_string : Bytes → Bytes
encode_string [] = 0 ∷ []
encode_string (c ∷ s) = if c == 0 then 0 ∷ 255 ∷ encode_string s else c ∷ encode_string s

abbrev pub cons_some : ℕ → Option Bytes → Option Bytes
cons_some c none = none
cons_some c (some s) = some (c ∷ s)

-- The loop over the bytes: a zero byte is escaped or ends the key.
unfoldable pub decode_string : Bytes → Option Bytes
decode_string [] = none
decode_string (c ∷ []) = if not (c == 0) then none else some []
decode_string (c ∷ d ∷ key) =
    let rest = decode_string (d ∷ key) in
    let behind = decode_string key in
    if not (c == 0) then cons_some c rest else if d == 255 then cons_some 0 behind else none

abbrev pub make_null_key : ℕ → Key
make_null_key tag = tag ∷ 0 ∷ []

-- The empty key stands for a type that has no encoding.
unfoldable pub encode_value : Value → Key
encode_value null_value = []
encode_value (bool_value b) = tag_bool ∷ 1 ∷ (if b then 1 else 0) ∷ []
encode_value (int_value d v) =
    if tag_of d == tag_int64 then tag_int64 ∷ 1 ∷ encode_be64 (int64_to_ordered v) else []
encode_value (string_value d s) =
    if tag_of d == tag_string then tag_string ∷ 1 ∷ encode_string s else []

-- The two functions `to_key`: without and with the type of the column.
unfoldable pub to_key : Value → Key
to_key v = if is_null v then make_null_key tag_null else encode_value v

unfoldable pub to_column_key : DataType → Value → Key
to_column_key column v = if is_null v then make_null_key (tag_of column) else encode_value v

abbrev pub or_null : DataType → Option Bytes → Value
or_null type none = null_value
or_null type (some s) = string_value (if is_string type then type else varchar) s

abbrev pub decode_bool : Bytes → Value
decode_bool [] = null_value
decode_bool (b ∷ []) = bool_value (not (b == 0))
decode_bool (b ∷ c ∷ bytes) = null_value

-- The payload stands behind the tag and the flag.
unfoldable pub decode_value : ℕ → DataType → Bytes → Value
decode_value tag type bytes =
    if tag == tag_bool
    then decode_bool bytes
    else if tag == tag_int64
    then if not (length bytes == 8)
      then null_value
      else int_value (if is_temporal type then type else bigint)
          (ordered_to_int64 (decode_be64 bytes))
    else if tag == tag_string
    then or_null type (decode_string bytes)
    else null_value

unfoldable pub from_key : DataType → Key → Value
from_key type [] = null_value
from_key type (tag ∷ []) = null_value
from_key type (tag ∷ flag ∷ bytes) =
    if tag == tag_null
    then null_value
    else if not (tag == tag_of type)
    then null_value
    else if flag == 0
    then null_value
    else if not (flag == 1)
    then null_value
    else decode_value tag type bytes

abbrev decodes : Option Bytes → Bool
decodes none = false
decodes (some s) = true

abbrev is_bool_byte : Bytes → Bool
is_bool_byte [] = false
is_bool_byte (b ∷ []) = (b == 0) || (b == 1)
is_bool_byte (b ∷ c ∷ bytes) = false

unfoldable pub is_valid_key : DataType → Key → Bool
is_valid_key type [] = false
is_valid_key type (tag ∷ []) = false
is_valid_key type (tag ∷ flag ∷ bytes) =
    if tag == tag_null
    then length bytes == 0
    else if not (tag == tag_of type)
    then false
    else if flag == 0
    then length bytes == 0
    else if not (flag == 1)
    then false
    else if tag == tag_int64
    then length bytes == 8
    else if tag == tag_bool
    then is_bool_byte bytes
    else if tag == tag_string
    then decodes (decode_string bytes)
    else false

unfoldable pub inclusive_upper_bound : Key → Key
inclusive_upper_bound k = k ++ 0 ∷ []

abbrev pub min_key_for_type : DataType → Key
min_key_for_type type = make_null_key (tag_of type)

abbrev pub upper_key_for_type : DataType → Key
upper_key_for_type type = if tag_of type == tag_null then 255 ∷ [] else (tag_of type + 1) ∷ []

abbrev pub first_value_key : DataType → Key
first_value_key type = tag_of type ∷ 1 ∷ []

unfoldable pub less : Value → Value → Bool
less a b = bytes_lt (to_key a) (to_key b)

-- The shortest key above every key with this prefix: bytes 255 at the end are dropped.
unfoldable pub successor : Key → Key
successor [] = []
successor (c ∷ k) = elim (successor k) [
  | [] ↦ if c == 255 then [] else (c + 1) ∷ []
  | d ∷ rest ↦ c ∷ d ∷ rest
]
