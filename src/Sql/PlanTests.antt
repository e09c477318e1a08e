-- ===== src/Sql/PlanTests.antt =====
-- Concrete conditions on a table with a key of integers.
use hands_on_sqldb_in_cpp.Prelude.{
  ◌≡◌, refl, Bool, true, false, ◌&&◌, Option, some, [], ◌∷◌, inl, inr, arith,
}
use hands_on_sqldb_in_cpp.Prelude.Decimal.{decimal}
use hands_on_sqldb_in_cpp.Sql.Int64.{pos}
use hands_on_sqldb_in_cpp.Sql.Types.{Value, int, varchar, int_value, string_value}
use hands_on_sqldb_in_cpp.Sql.Truth.{eq, ge, lt, where_keeps}
use hands_on_sqldb_in_cpp.Sql.Conditions.{
  Condition, compare_condition, in_condition, and_condition, or_condition, evaluate,
}
use hands_on_sqldb_in_cpp.Sql.Numbers.{parse_int64_strict, from_chars, span_digits}
use hands_on_sqldb_in_cpp.Sql.Candidates.Split.{split_primary_key}
use hands_on_sqldb_in_cpp.Sql.Candidates.Alike.{IsLike}
use hands_on_sqldb_in_cpp.Sql.Candidates.Parts.{part_keeps}
use hands_on_sqldb_in_cpp.Sql.Candidates.Planned.{is_scanned, planned-evaluate}
use hands_on_sqldb_in_cpp.Sql.Candidates.Missed.{text_literal_missed}

abbrev three : Value
three = int_value int (pos 3)

abbrev seven : Value
seven = int_value int (pos 7)

-- The key is the column `true`, and the other column holds a text.
abbrev row : Bool → Option Value
row true = some three
row false = some (string_value varchar [])

-- `(key >= 3 OR key IN (7)) AND other < ''`
abbrev asked : Condition Bool
asked =
    and_condition
      (or_condition (compare_condition true ge three) (in_condition true false (seven ∷ [])))
      (compare_condition false lt (string_value varchar []))

three-IsLike : IsLike int three
three-IsLike = ((refl, omega arith), refl)

seven-IsLike : IsLike int seven
seven-IsLike = ((refl, omega arith), refl)

key_found : (name : Bool) → name ≡ true → row name ≡ some three
key_found true h = refl
key_found false h = absurd (ground (arith, h))

planned-evaluate_example :
    (is_scanned int (split_primary_key (λ name. name) asked).pk_cond three
      && part_keeps row (split_primary_key (λ name. name) asked).remaining)
    ≡ where_keeps (evaluate row asked)
planned-evaluate_example =
    planned-evaluate (λ name. name) int three row asked three-IsLike key_found
      ((inr three-IsLike, inr (seven-IsLike, tt)), inl refl)

-- The text `3`.
text_three-parsed : parse_int64_strict (51 ∷ []) ≡ some (pos 3)
unfolding parse_int64_strict from_chars span_digits decimal
text_three-parsed = refl

text_literal_missed_example :
    (where_keeps (evaluate row (compare_condition true eq (string_value varchar (51 ∷ [])))) ≡ true)
    × (is_scanned int (some (compare_condition true eq (string_value varchar (51 ∷ [])))) three
        ≡ false)
text_literal_missed_example =
    text_literal_missed true row int int varchar (pos 3) (51 ∷ []) refl refl text_three-parsed refl
