-- ===== src/Sql/RangeTests.antt =====
-- Concrete ranges of a column of integers.
use hands_on_sqldb_in_cpp.Prelude.{◌≡◌, refl, true, false, not, ◌&&◌, ◌||◌, none, some, inr, arith}
use hands_on_sqldb_in_cpp.Sql.Int64.{pos, negsuc}
use hands_on_sqldb_in_cpp.Sql.Types.{Value, int, bigint, unknown_type, int_value, null_value}
use hands_on_sqldb_in_cpp.Sql.Key.{to_column_key}
use hands_on_sqldb_in_cpp.Sql.Key.Ordered.{FitsColumn}
use hands_on_sqldb_in_cpp.Sql.KeyRange.{KeyRange, all, is_all, from, gt, closed}
use hands_on_sqldb_in_cpp.Sql.KeyRange.Operations.{
  contains, intersect, unite, subtract, complement, to_str_key_range,
}
use hands_on_sqldb_in_cpp.Sql.KeyRange.Bounds.{is_between}
use hands_on_sqldb_in_cpp.Sql.KeyRange.Sets.{contains_any}
use hands_on_sqldb_in_cpp.Sql.KeyRange.Difference.{set_operations-contain}
use hands_on_sqldb_in_cpp.Sql.KeyRange.Scan.{scans, scans-is_between}

abbrev minus_two : Value
minus_two = int_value bigint (negsuc 1)

abbrev five : Value
five = int_value bigint (pos 5)

-- [-2, 5], and (-2, ...).
abbrev minus_two_to_five : KeyRange
minus_two_to_five = record {
  type = bigint;
  low = some minus_two;
  high = some five;
  low_exclusive = false;
  high_inclusive = true;
}

abbrev above_minus_two : KeyRange
above_minus_two = record {
  type = bigint;
  low = some minus_two;
  high = none;
  low_exclusive = true;
  high_inclusive = false;
}

made : (closed minus_two five ≡ minus_two_to_five) × (gt minus_two ≡ above_minus_two)
unfolding closed gt from all
made = (refl, refl)

minus_two-fits : FitsColumn int minus_two
minus_two-fits = ((refl, omega arith), refl)

five-fits : FitsColumn int five
five-fits = ((refl, omega arith), refl)

set_operations-contain_example :
    (contains (intersect minus_two_to_five above_minus_two) minus_two
      ≡ (contains minus_two_to_five minus_two && contains above_minus_two minus_two))
    × (contains_any (unite minus_two_to_five above_minus_two) minus_two
        ≡ (contains minus_two_to_five minus_two || contains above_minus_two minus_two))
    × (contains_any (subtract minus_two_to_five above_minus_two) minus_two
        ≡ (contains minus_two_to_five minus_two && not (contains above_minus_two minus_two)))
    × (contains_any (complement minus_two_to_five) minus_two
        ≡ not (contains minus_two_to_five minus_two))
set_operations-contain_example =
    set_operations-contain int minus_two_to_five above_minus_two minus_two
      (refl, minus_two-fits, five-fits) (refl, minus_two-fits, tt) minus_two-fits

-- A range without bounds takes its type from the column.
scans-is_between_example :
    scans (to_str_key_range int (all unknown_type)) (to_column_key int null_value)
    ≡ is_between (all unknown_type) null_value
unfolding all is_all
scans-is_between_example =
    scans-is_between int int (all unknown_type) null_value (inr refl) refl tt tt (tt, refl)
