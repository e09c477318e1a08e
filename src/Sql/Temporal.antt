-- ===== src/Sql/Temporal.antt =====
-- sql_types/temporal.cpp: dates and times as numbers, and their texts.
pub mod RoundTrip
use hands_on_sqldb_in_cpp.Prelude.{
  ℕ, zero, suc, ◌+◌, ◌*◌, ◌-◌, ◌/◌, ◌%◌, ◌==◌, Bool, true, false, not, ◌||◌, ◌&&◌, Option, none,
  some, List, [], ◌∷◌, ◌++◌, ltb, leb, length, drop, take, get_or, if◌then◌else◌,
}
use hands_on_sqldb_in_cpp.Prelude.Decimal.{is_digit}
use hands_on_sqldb_in_cpp.Prelude.Order.{Bytes}
use hands_on_sqldb_in_cpp.Sql.Int64.{ℤ, pos, negsuc, ltz, times, ◌+ℤ◌}

abbrev pub seconds_per_day : ℕ
seconds_per_day = 86400

-- The loop of `read_digits`, over the characters from the position on.
unfoldable pub digits_from : ℕ → ℕ → Bytes → Option ℕ
digits_from zero value text = some value
digits_from (suc count) value [] = none
digits_from (suc count) value (c ∷ text) =
    let rest = digits_from count (value * 10 + (c - 48)) text in
    if not (is_digit c) then none else rest

unfoldable pub read_digits : Bytes → ℕ → ℕ → Option ℕ
read_digits s at count =
    if ltb (length s) (at + count) then none else digits_from count 0 (drop at s)

unfoldable pub read_separator : Bytes → ℕ → ℕ → Bool
read_separator s at expected = elim (drop at s) [ [] ↦ false | c ∷ rest ↦ c == expected ]

-- The year comes from four digits here, so it is not negative.
abbrev pub is_leap_year : ℕ → Bool
is_leap_year year = ((year % 4 == 0) && not (year % 100 == 0)) || (year % 400 == 0)

abbrev pub month_days : List ℕ
month_days = 31 ∷ 28 ∷ 31 ∷ 30 ∷ 31 ∷ 30 ∷ 31 ∷ 31 ∷ 30 ∷ 31 ∷ 30 ∷ 31 ∷ []

unfoldable pub days_in_month : ℕ → ℕ → ℕ
days_in_month year month =
    if ltb month 1 || ltb 12 month
    then 0
    else if (month == 2) && is_leap_year year
    then 29
    else get_or month_days (month - 1) 0

-- `(y >= 0 ? y : y - 399) / 400`, and `y - era * 400`
abbrev pub era_of : ℤ → ℤ
era_of (pos y) = pos (y / 400)
era_of (negsuc y) = negsuc (y / 400)

abbrev pub year_of_era : ℤ → ℕ
year_of_era (pos y) = y % 400
year_of_era (negsuc y) = 399 - y % 400

abbrev pub day_of_era : ℕ → ℕ → ℕ → ℕ
day_of_era yoe m d =
    let doy = (153 * (if ltb 2 m then m - 3 else m + 9) + 2) / 5 + d - 1 in
    yoe * 365 + yoe / 4 - yoe / 100 + doy

unfoldable pub days_from_civil : ℤ → ℕ → ℕ → ℤ
days_from_civil year m d =
    let y = year +ℤ (if leb m 2 then negsuc 0 else pos 0) in
    times (era_of y) 146097 +ℤ pos (day_of_era (year_of_era y) m d) +ℤ negsuc 719467

abbrev pub date_in_range : ℤ → Option ℤ
date_in_range days = if ltz days (negsuc 719161) || ltz (pos 2932896) days then none else some days

abbrev pub check_date : Option ℕ → Option ℕ → Option ℕ → Option ℤ
check_date none month day = none
check_date (some year) none day = none
check_date (some year) (some month) none = none
check_date (some year) (some month) (some day) =
    if ltb month 1 || (ltb 12 month || (ltb day 1 || ltb (days_in_month year month) day))
    then none
    else date_in_range (days_from_civil (pos year) month day)

-- "YYYY-MM-DD"
unfoldable pub parse_date : Bytes → Option ℤ
parse_date text =
    if not (length text == 10) || (not (read_separator text 4 45) || not (read_separator text 7 45))
    then none
    else check_date (read_digits text 0 4) (read_digits text 5 2) (read_digits text 8 2)

abbrev pub check_time : Option ℕ → Option ℕ → Option ℕ → Option ℤ
check_time none minute second = none
check_time (some hour) none second = none
check_time (some hour) (some minute) none = none
check_time (some hour) (some minute) (some second) =
    if ltb 23 hour || (ltb 59 minute || ltb 59 second)
    then none
    else some (pos (hour * 3600 + minute * 60 + second))

-- "HH:MM" or "HH:MM:SS"
unfoldable pub parse_time : Bytes → Option ℤ
parse_time text =
    if not (length text == 5) && not (length text == 8)
    then none
    else if not (read_separator text 2 58)
    then none
    else if (length text == 8) && not (read_separator text 5 58)
    then none
    else check_time (read_digits text 0 2) (read_digits text 3 2)
        (if length text == 8 then read_digits text 6 2 else some 0)

abbrev pub join_datetime : Option ℤ → Option ℤ → Option ℤ
join_datetime none seconds = none
join_datetime (some days) none = none
join_datetime (some days) (some seconds) = some (times days seconds_per_day +ℤ seconds)

-- A date, a blank or a `T`, and a time.
unfoldable pub parse_datetime : Bytes → Option ℤ
parse_datetime text =
    if ltb (length text) 16
    then none
    else if not
        (read_separator text 10 32 || (read_separator text 10 84 || read_separator text 10 116))
    then none
    else join_datetime (parse_date (take 10 text)) (parse_time (drop 11 text))

-- Two digits, for a number below 100.
unfoldable pub pad2 : ℕ → Bytes
pad2 v = (48 + v / 10) ∷ (48 + v % 10) ∷ []

-- The seconds of a day are not negative.
unfoldable pub format_time : ℕ → Bytes
format_time seconds =
    pad2 (seconds / 3600) ++ 58 ∷ (pad2 (seconds % 3600 / 60) ++ 58 ∷ pad2 (seconds % 60))
