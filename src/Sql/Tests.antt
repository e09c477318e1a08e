-- ===== src/Sql/Tests.antt =====
-- Concrete keys, patterns and conditions.
use hands_on_sqldb_in_cpp.Prelude.{
  ℕ, ◌≡◌, ◌↔◌, refl, ◌==◌, true, false, Option, some, [], ◌∷◌, arith, if◌then◌else◌,
}
use hands_on_sqldb_in_cpp.Prelude.Decimal.{decimal, all_digits}
use hands_on_sqldb_in_cpp.Prelude.Order.{bytes_lt}
use hands_on_sqldb_in_cpp.Sql.Int64.{pos, negsuc}
use hands_on_sqldb_in_cpp.Sql.Types.{int, text, bigint, Value, null_value, int_value, string_value}
use hands_on_sqldb_in_cpp.Sql.Key.{to_column_key, from_key}
use hands_on_sqldb_in_cpp.Sql.Key.Ordered.{to_column_key-order}
use hands_on_sqldb_in_cpp.Sql.Key.Codec.{from_key-to_column_key}
use hands_on_sqldb_in_cpp.Sql.Like.{like_match}
use hands_on_sqldb_in_cpp.Sql.Like.Matches.{Matches, like_match_iff}
use hands_on_sqldb_in_cpp.Sql.Numbers.{parse_int64_strict, parse_int64_strict-minus}
use hands_on_sqldb_in_cpp.Sql.Truth.{lt}
use hands_on_sqldb_in_cpp.Sql.Conditions.{
  Condition, compare_condition, in_condition, and_condition, not_condition, evaluate, pushdown_not,
}
use hands_on_sqldb_in_cpp.Sql.Rewriter.{flatten_impl, fold_constants_impl}
use hands_on_sqldb_in_cpp.Sql.Rewriter.Passes.{passes-keep}

to_column_key-order_example :
    bytes_lt
      (to_column_key int (int_value int (negsuc 4)))
      (to_column_key int (int_value int (pos 3)))
    ≡ true
to_column_key-order_example =
    to_column_key-order int (int_value int (negsuc 4)) (int_value int (pos 3))
      ((refl, omega arith), refl) ((refl, omega arith), refl)

from_key-to_column_key_example :
    from_key text (to_column_key text (string_value text (97 ∷ 0 ∷ 98 ∷ [])))
    ≡ string_value text (97 ∷ 0 ∷ 98 ∷ [])
from_key-to_column_key_example =
    from_key-to_column_key text (string_value text (97 ∷ 0 ∷ 98 ∷ [])) (refl, refl)

-- "abc" and "a%"
like_match_iff_example :
    (like_match (97 ∷ 98 ∷ 99 ∷ []) (97 ∷ 37 ∷ []) ≡ true)
    ↔ Matches (97 ∷ 37 ∷ []) (97 ∷ 98 ∷ 99 ∷ [])
like_match_iff_example = like_match_iff (97 ∷ 98 ∷ 99 ∷ []) (97 ∷ 37 ∷ [])

-- A row with NULL in column 0 and 5 in the others.
abbrev row : ℕ → Option Value
row column = if column == 0 then some null_value else some (int_value bigint (pos 5))

-- NOT (column 0 < 3 AND column 1 IN (5))
abbrev negated : Condition ℕ
negated = not_condition (
    and_condition (compare_condition 0 lt (int_value bigint (pos 3)))
      (in_condition 1 false (int_value bigint (pos 5) ∷ [])))

passes-keep_example :
    evaluate row (fold_constants_impl (flatten_impl (pushdown_not negated))) ≡ evaluate row negated
passes-keep_example = passes-keep row negated (tt, ((refl, omega arith), tt))

-- "-5"
parse_int64_strict-minus_example :
    parse_int64_strict (45 ∷ 53 ∷ []) ≡ some (pos (decimal (53 ∷ [])))
unfolding all_digits decimal
parse_int64_strict-minus_example = parse_int64_strict-minus 53 [] refl (omega arith)
