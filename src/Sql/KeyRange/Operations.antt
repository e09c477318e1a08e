-- ===== src/Sql/KeyRange/Operations.antt =====
-- sql_types/key_range.h: membership, comparison and the set operations of key ranges, and the byte
-- interval that a scan of the storage takes.
use hands_on_sqldb_in_cpp.Prelude.{
  Bool, true, false, not, ◌||◌, ◌&&◌, Option, none, some, List, [], ◌∷◌, if◌then◌else◌,
}
use hands_on_sqldb_in_cpp.Prelude.Order.{bytes_lt, bytes_order, eqb}
use hands_on_sqldb_in_cpp.Sql.Types.{DataType, unknown_type, same_type, Value, is_null}
use hands_on_sqldb_in_cpp.Sql.Key.{Key, to_key, min_key_for_type, upper_key_for_type}
use hands_on_sqldb_in_cpp.Sql.KeyRange.{
  KeyRange, StrKeyRange, all, empty, normalize, low_key, high_key, both_not_less, both_equal,
  is_empty, is_all, low_ok, high_ok, is_some, after_if,
}

-- `!(lk && k < *lk)` and `!(hk && !(k < *hk))`
abbrev pub from_low : Option Key → Key → Bool
from_low none k = true
from_low (some low) k = not (bytes_lt k low)

abbrev pub below_high : Option Key → Key → Bool
below_high none k = true
below_high (some high) k = bytes_lt k high

abbrev no_key : Key → Bool
no_key [] = true
no_key (b ∷ k) = false

unfoldable pub contains : KeyRange → Value → Bool
contains r v =
    let k = to_key v in
    if is_empty r
    then false
    else if is_null v
    then low_ok r && high_ok r
    else if no_key k
    then false
    else from_low (low_key r) k && below_high (high_key r) k

unfoldable pub overlaps : KeyRange → KeyRange → Bool
overlaps a b =
    if is_empty a || is_empty b
    then false
    else not (both_not_less (low_key a) (high_key b))
      && not (both_not_less (low_key b) (high_key a))

unfoldable pub is_adjacent : KeyRange → KeyRange → Bool
is_adjacent a b =
    if is_empty a || is_empty b
    then false
    else both_equal (high_key a) (low_key b) || both_equal (low_key a) (high_key b)

-- `a && (!b || *b < *a)`, and the same for the upper bounds.
abbrev pub starts_before : Option Key → Option Key → Bool
starts_before none b = false
starts_before (some a) none = true
starts_before (some a) (some b) = bytes_lt b a

abbrev pub ends_behind : Option Key → Option Key → Bool
ends_behind none b = false
ends_behind (some a) none = true
ends_behind (some a) (some b) = bytes_lt a b

unfoldable pub covers : KeyRange → KeyRange → Bool
covers a b =
    if is_empty a
    then is_empty b
    else if is_empty b
    then true
    else not (starts_before (low_key a) (low_key b)) && not (ends_behind (high_key a) (high_key b))

abbrev pub equal_keys : Option Key → Option Key → Bool
equal_keys none none = true
equal_keys none (some b) = false
equal_keys (some a) none = false
equal_keys (some a) (some b) = eqb a b

unfoldable pub equals : KeyRange → KeyRange → Bool
equals a b =
    if is_empty a && is_empty b
    then true
    else if is_empty a || is_empty b
    then false
    else equal_keys (low_key a) (low_key b) && equal_keys (high_key a) (high_key b)

abbrev pub merge_type : DataType → DataType → DataType
merge_type a b = if not (same_type a unknown_type) then a else b

abbrev pub with_low : KeyRange → KeyRange → KeyRange
with_low from r = record r { low = from.low; low_exclusive = from.low_exclusive }

abbrev pub with_high : KeyRange → KeyRange → KeyRange
with_high from r = record r { high = from.high; high_inclusive = from.high_inclusive }

-- The chains of the four bounds: whether `intersect` takes the other lower and upper bound, and
-- whether `unite` does.
abbrev pub larger_low : Option Key → Option Key → Bool
larger_low none other = true
larger_low (some low) none = false
larger_low (some low) (some other) = bytes_lt low other

abbrev pub smaller_high : Option Key → Option Key → Bool
smaller_high none other = true
smaller_high (some high) none = false
smaller_high (some high) (some other) = bytes_lt other high

abbrev pub smaller_low : Option Key → Option Key → Bool
smaller_low none other = false
smaller_low (some low) none = true
smaller_low (some low) (some other) = not (bytes_lt low other)

abbrev pub larger_high : Option Key → Option Key → Bool
larger_high none other = false
larger_high (some high) none = true
larger_high (some high) (some other) = bytes_lt high other

unfoldable pub intersect : KeyRange → KeyRange → KeyRange
intersect a b =
    if is_empty a || is_empty b
    then empty unknown_type
    else normalize (
        with_low (if larger_low (low_key a) (low_key b) then b else a) (
          with_high (if smaller_high (high_key a) (high_key b) then b else a)
            (all (merge_type a.type b.type))))

unfoldable pub unite : KeyRange → KeyRange → List KeyRange
unfolding overlaps is_adjacent
unite a b =
    if is_empty a
    then b ∷ []
    else if is_empty b
    then a ∷ []
    else if not (overlaps a b) && not (is_adjacent a b)
    then a ∷ b ∷ []
    else normalize (
        with_low (if smaller_low (low_key a) (low_key b) then b else a) (
          with_high (if larger_high (high_key a) (high_key b) then b else a)
            (all (merge_type a.type b.type))))
      ∷ []

-- `push_back` of a part that is not empty, and for a difference not everything.
abbrev pub push_part : KeyRange → List KeyRange → List KeyRange
push_part r rest = if not (is_empty r) then r ∷ rest else rest

abbrev pub push_proper_part : KeyRange → List KeyRange → List KeyRange
push_proper_part r rest = if not (is_empty r) && not (is_all r) then r ∷ rest else rest

-- The part of the first range below the second, and the part above it.
unfoldable pub left_part : KeyRange → KeyRange → KeyRange
left_part a b = normalize (record (with_low a (all (merge_type a.type b.type))) {
  high = b.low;
  high_inclusive = b.low_exclusive;
})

unfoldable pub right_part : KeyRange → KeyRange → KeyRange
right_part a b = normalize (record (with_high a (all (merge_type a.type b.type))) {
  low = b.high;
  low_exclusive = b.high_inclusive;
})

abbrev pub or_empty : List KeyRange → List KeyRange
or_empty [] = empty unknown_type ∷ []
or_empty (r ∷ rs) = r ∷ rs

unfoldable pub subtract : KeyRange → KeyRange → List KeyRange
unfolding overlaps covers left_part right_part
subtract a b =
    let right = if is_some b.high then push_proper_part (right_part a b) [] else [] in
    if is_empty a
    then empty unknown_type ∷ []
    else if is_empty b || not (overlaps a b)
    then a ∷ []
    else if covers b a
    then empty unknown_type ∷ []
    else or_empty (if is_some b.low then push_proper_part (left_part a b) right else right)

unfoldable pub left_complement : KeyRange → KeyRange
left_complement r =
    normalize (record (all r.type) { high = r.low; high_inclusive = r.low_exclusive })

unfoldable pub right_complement : KeyRange → KeyRange
right_complement r =
    normalize (record (all r.type) { low = r.high; low_exclusive = r.high_inclusive })

unfoldable pub complement : KeyRange → List KeyRange
unfolding left_complement right_complement
complement r =
    let right = if is_some r.high then push_part (right_complement r) [] else [] in
    if is_empty r
    then all r.type ∷ []
    else if is_all r
    then empty unknown_type ∷ []
    else if is_some r.low
    then push_part (left_complement r) right
    else right

abbrev pub effective_type : KeyRange → DataType → DataType
effective_type r fallback = if same_type r.type unknown_type then fallback else r.type

-- The key of a bound, with what stands for a bound without a key.
abbrev pub or_key : Key → Key → Key
or_key default [] = default
or_key default (b ∷ k) = b ∷ k

abbrev pub scan_start : DataType → Option Value → Bool → Key
scan_start type none exclusive = min_key_for_type type
scan_start type (some v) exclusive =
    after_if exclusive
      (or_key (min_key_for_type type) (if is_null v then min_key_for_type type else to_key v))

abbrev pub scan_end : DataType → Option Value → Bool → Key
scan_end type none inclusive = upper_key_for_type type
scan_end type (some v) inclusive =
    after_if inclusive
      (or_key (upper_key_for_type type) (if is_null v then min_key_for_type type else to_key v))

unfoldable pub to_str_key_range : DataType → KeyRange → StrKeyRange
to_str_key_range fallback r =
    let type = effective_type r fallback in
    if is_empty r
    then record { start = min_key_for_type type; end = min_key_for_type type }
    else record {
      start = scan_start type r.low r.low_exclusive;
      end = scan_end type r.high r.high_inclusive;
    }
