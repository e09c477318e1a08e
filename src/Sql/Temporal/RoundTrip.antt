-- ===== src/Sql/Temporal/RoundTrip.antt =====
-- A time of day that is written and read again.
use hands_on_sqldb_in_cpp.Prelude.{ℕ, ◌+◌, ◌*◌, ◌/◌, ◌%◌, ◌<◌, ◌≡◌, some, [], ◌∷◌, arith, ap}
use hands_on_sqldb_in_cpp.Prelude.Order.{Bytes}
use hands_on_sqldb_in_cpp.Sql.Int64.{pos}
use hands_on_sqldb_in_cpp.Sql.Temporal.{
  digits_from, read_digits, read_separator, parse_time, pad2, format_time, check_time,
}

read_digits-pad2 :
    (v : ℕ) (rest : Bytes)
    → v < 100
    → digits_from 2 0 ((48 + v / 10) ∷ (48 + v % 10) ∷ rest) ≡ some v
unfolding digits_from
read_digits-pad2 v rest h = ground (arith, h)

check_time-in_range :
    (h m s : ℕ)
    → h < 24
    → m < 60
    → s < 60
    → check_time (some h) (some m) (some s) ≡ some (pos (h * 3600 + m * 60 + s))
check_time-in_range h m s a b c = ground (arith, a, b, c)

-- A time of day, in seconds, that is written as HH:MM:SS is read back.
parse_time-format_time : (s : ℕ) → s < 86400 → parse_time (format_time s) ≡ some (pos s)
unfolding parse_time format_time read_digits read_separator pad2
parse_time-format_time s h =
    rw
      (
        read_digits-pad2 (s / 3600) _ (omega arith),
        read_digits-pad2 (s % 3600 / 60) _ (omega arith),
        read_digits-pad2 (s % 60) [] (omega arith),
        check_time-in_range (s / 3600) (s % 3600 / 60) (s % 60) (omega arith) (omega arith)
            (omega arith),
      )
      (ap (λ (x : ℕ). some (pos x)) (omega arith))
