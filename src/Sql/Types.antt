-- ===== src/Sql/Types.antt =====
-- sql_types/field_type.h and value.h: the data types, their families and sizes, and the values.
use hands_on_sqldb_in_cpp.Prelude.{
  ℕ, ◌==◌, ◌≡◌, Bool, true, false, not, ◌||◌, ◌&&◌, leb, if◌then◌else◌,
}
use hands_on_sqldb_in_cpp.Prelude.Order.{Bytes, bytes_order, eqb}
use hands_on_sqldb_in_cpp.Sql.Int64.{ℤ, IsInt64, eqz}

pub data DataType : Type 0 where
  tinyint smallint int bigint char varchar text boolean date time datetime : DataType
  null_type unknown_type : DataType

pub data DataTypeFamily : Type 0 where
  integer_family string_family boolean_family temporal_family unknown_family : DataTypeFamily

abbrev pub is_integer : DataType → Bool
is_integer type = elim type [
  | tinyint ↦ true
  | smallint ↦ true
  | int ↦ true
  | bigint ↦ true
  | _ ↦ false
]

abbrev pub is_string : DataType → Bool
is_string type = elim type [ char ↦ true | varchar ↦ true | text ↦ true | _ ↦ false ]

abbrev pub is_boolean : DataType → Bool
is_boolean type = elim type [ boolean ↦ true | _ ↦ false ]

abbrev pub is_temporal : DataType → Bool
is_temporal type = elim type [ date ↦ true | time ↦ true | datetime ↦ true | _ ↦ false ]

abbrev pub is_numeric : DataType → Bool
is_numeric type = is_integer type || is_boolean type

abbrev pub get_type_family : DataType → DataTypeFamily
get_type_family type =
    if is_integer type
    then integer_family
    else if is_string type
    then string_family
    else if is_boolean type
    then boolean_family
    else if is_temporal type
    then temporal_family
    else unknown_family

abbrev pub integer_bytes : DataType → ℕ
integer_bytes type = elim type [ tinyint ↦ 1 | smallint ↦ 2 | int ↦ 4 | bigint ↦ 8 | _ ↦ 0 ]

-- The values of the enumerators.
abbrev pub type_code : DataType → ℕ
type_code tinyint = 0
type_code smallint = 1
type_code int = 2
type_code bigint = 3
type_code char = 4
type_code varchar = 5
type_code text = 6
type_code boolean = 7
type_code date = 8
type_code time = 9
type_code datetime = 10
type_code null_type = 11
type_code unknown_type = 12

abbrev pub same_type : DataType → DataType → Bool
same_type a b = type_code a == type_code b

unfoldable pub is_same_family : DataType → DataType → Bool
is_same_family a b =
    if same_type a b
    then true
    else if is_integer a && is_integer b
    then true
    else if is_string a && is_string b
    then true
    else is_temporal a && is_temporal b

unfoldable pub common_type : DataType → DataType → DataType
common_type a b =
    if same_type a b
    then a
    else if is_integer a && is_integer b
    then (if leb (integer_bytes b) (integer_bytes a) then a else b)
    else if is_boolean a && is_integer b
    then b
    else if is_integer a && is_boolean b
    then a
    else if is_boolean a && is_boolean b
    then boolean
    else if is_string a && is_string b
    then (if same_type a text || same_type b text then text else varchar)
    else if is_temporal a && is_temporal b
    then if same_type a time || same_type b time
      then (if same_type a b then a else unknown_type)
      else datetime
    else unknown_type

-- The values that the constructors make, their assertions kept: the storage fits the type.
pub data Value : Type 0 where
  null_value : Value
  int_value : DataType → ℤ → Value
  bool_value : Bool → Value
  string_value : DataType → Bytes → Value

-- An int64 has an integer or temporal type, and a string has a string type.
abbrev pub IsValid : Value → Type 0
IsValid null_value = Unit {0}
IsValid (int_value d v) = ((is_integer d || is_temporal d) ≡ true) × IsInt64 v
IsValid (bool_value b) = Unit {0}
IsValid (string_value d s) = is_string d ≡ true

abbrev pub type_of : Value → DataType
type_of null_value = null_type
type_of (int_value d v) = d
type_of (bool_value b) = boolean
type_of (string_value d s) = d

abbrev pub is_null : Value → Bool
is_null null_value = true
is_null (int_value d v) = false
is_null (bool_value b) = false
is_null (string_value d s) = false

abbrev pub is_string_value : Value → Bool
is_string_value v = is_string (type_of v)

-- The numbers, Booleans or bytes that two values hold.
unfoldable pub same_storage : Value → Value → Bool
same_storage (int_value d v) b = elim b [ int_value e w ↦ eqz v w | _ ↦ false ]
same_storage (bool_value v) b = elim b [ bool_value w ↦ if v then w else not w | _ ↦ false ]
same_storage (string_value d s) b = elim b [ string_value e t ↦ eqb s t | _ ↦ false ]
same_storage null_value b = false

-- Two types of one family, if it is not the unknown one, whose values are never equal.
abbrev pub same_class : DataType → DataType → Bool
same_class a b =
    (is_integer a && is_integer b)
    || ((is_string a && is_string b) || (is_boolean a && is_boolean b))

-- `==` of the class: NULL equals NULL.
unfoldable pub value_equal : Value → Value → Bool
value_equal a b =
    let temporal = is_temporal (type_of a) || is_temporal (type_of b) in
    if is_null a || is_null b
    then is_null a && is_null b
    else if temporal
    then same_type (type_of a) (type_of b) && same_storage a b
    else if not (same_class (type_of a) (type_of b))
    then false
    else same_storage a b
