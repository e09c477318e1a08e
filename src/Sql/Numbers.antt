-- ===== src/Sql/Numbers.antt =====
-- sql_types/field_type.h: `parse_int64_strict`, which reads an integer behind a sign.
use hands_on_sqldb_in_cpp.Prelude.{
  ℕ, ◌-◌, ◌<◌, ◌≡◌, refl, ◌==◌, true, false, ◌||◌, Option, none, some, [], ◌∷◌, ltb, if◌then◌else◌,
  arith,
}
use hands_on_sqldb_in_cpp.Prelude.Decimal.{is_digit, decimal, all_digits}
use hands_on_sqldb_in_cpp.Prelude.Order.{Bytes}
use hands_on_sqldb_in_cpp.Sql.Int64.{ℤ, pos, negsuc, i64_half}

-- The digits at the front, and what follows them.
unfoldable pub span_digits : Bytes → Bytes × Bytes
span_digits [] = ([], [])
span_digits (c ∷ text) =
    let rest = span_digits text in if is_digit c then (c ∷ rest.0, rest.1) else ([], c ∷ text)

abbrev pub positive : ℕ → Option ℤ
positive value = if ltb value i64_half then some (pos value) else none

abbrev pub negative : ℕ → Option ℤ
negative value =
    if value == 0
    then some (pos 0)
    else if ltb i64_half value
    then none
    else some (negsuc (value - 1))

-- A row of digits that is not empty and that nothing follows.
abbrev pub whole : (ℕ → Option ℤ) → Bytes × Bytes → Option ℤ
whole sign ([], rest) = none
whole sign (c ∷ digits, []) = sign (decimal (c ∷ digits))
whole sign (c ∷ digits, d ∷ rest) = none

-- `std::from_chars` for an int64_t, in base 10, and the test that it read all of the text: a minus
-- sign may stand in front, a number out of range is an error.
unfoldable pub from_chars : Bytes → Option ℤ
from_chars [] = none
from_chars (c ∷ text) =
    if c == 45 then whole negative (span_digits text) else whole positive (span_digits (c ∷ text))

-- The sign is skipped: `from_chars` does not see it.
unfoldable pub parse_int64_strict : Bytes → Option ℤ
parse_int64_strict [] = none
parse_int64_strict (c ∷ text) =
    if (c == 43) || (c == 45) then from_chars text else from_chars (c ∷ text)

span_digits-all : (text : Bytes) → all_digits text ≡ true → span_digits text ≡ (text, [])
unfolding span_digits all_digits
span_digits-all [] h = refl
span_digits-all (c ∷ text) h = ground (arith, h, span_digits-all text)

from_chars-digits :
    (c : ℕ) (text : Bytes)
    → all_digits (c ∷ text) ≡ true
    → decimal (c ∷ text) < i64_half
    → from_chars (c ∷ text) ≡ some (pos (decimal (c ∷ text)))
unfolding from_chars all_digits
from_chars-digits c text h k =
    let unsigned : (c == 45) ≡ false = ground (arith, h) in
    let small : ltb (decimal (c ∷ text)) i64_half ≡ true = ground (arith, k) in
    rw (unsigned, span_digits-all (c ∷ text) h, small) refl

-- A minus sign in front of a row of digits, whose number fits, is read over: the text stands for
-- the positive number that the digits write.
pub parse_int64_strict-minus :
    (c : ℕ) (text : Bytes)
    → all_digits (c ∷ text) ≡ true
    → decimal (c ∷ text) < i64_half
    → parse_int64_strict (45 ∷ c ∷ text) ≡ some (pos (decimal (c ∷ text)))
unfolding parse_int64_strict
parse_int64_strict-minus c text h k = from_chars-digits c text h k
