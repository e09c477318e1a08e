-- ===== src/Raft/Router/Parse.antt =====
-- raft/group_router.cpp: `parse_shards`, the text form of the table. The messages leave out the
-- entry that the source quotes.
use hands_on_sqldb_in_cpp.Prelude.{
  ℕ, suc, ◌+◌, ◌*◌, ◌-◌, ◌%◌, ◌<◌, ◌^◌, ◌≡◌, ap, ◌∙◌, sym, ◌==◌, u64_mod, String, Bool, true, false,
  ◌||◌, Option, none, some, List, [], ◌∷◌, length, if◌then◌else◌, arith, ◌/◌, Bool-cases, inl, inr,
}
use native.Mathlib.Nat.{
  div-add-mod, add-mul, mul_assoc, add_assoc, pow-succ', mul-add-mod_self_left,
}
use hands_on_sqldb_in_cpp.Prelude.Decimal.{is_digit, decimal, all_digits}
use hands_on_sqldb_in_cpp.Prelude.Order.{Bytes, bytes_lt, bytes_order, le_trans, lt→le}
use hands_on_sqldb_in_cpp.Kv.Batch.{Key}
use hands_on_sqldb_in_cpp.Raft.Router.{Range, GroupRouter, insert_range, add_range, validate}

-- std::expected<GroupRouter, std::string>
pub data Parsed : Type 0 where
  parsed : GroupRouter → Parsed
  refused : String → Parsed

abbrev pub is_blank : ℕ → Bool
is_blank c = (c == 32) || ((c == 9) || ((c == 10) || (c == 13)))

unfoldable pub trim_begin : Bytes → Bytes
trim_begin [] = []
trim_begin (c ∷ text) = let rest = trim_begin text in if is_blank c then rest else c ∷ text

-- A blank at the end goes when what follows it is gone.
unfoldable pub trim_end : Bytes → Bytes
trim_end [] = []
trim_end (c ∷ text) = elim (trim_end text) [
  | [] ↦ if is_blank c then [] else c ∷ []
  | d ∷ rest ↦ c ∷ d ∷ rest
]

unfoldable pub trim : Bytes → Bytes
trim text = trim_end (trim_begin text)

-- The loop of `parse_u64`, which wraps around.
unfoldable pub parse_digits : ℕ → Bytes → Option ℕ
parse_digits value [] = some value
parse_digits value (c ∷ text) =
    let rest = parse_digits ((value * 10 + (c - 48)) % u64_mod) text in
    if is_digit c then rest else none

unfoldable pub parse_u64 : Bytes → Option ℕ
parse_u64 [] = none
parse_u64 (c ∷ text) = parse_digits 0 (c ∷ text)

-- The pieces between the occurrences of a character: the source finds them one after the other.
unfoldable pub split : ℕ → Bytes → List Bytes
split ch [] = [] ∷ []
split ch (c ∷ text) = elim (split ch text) [
  | [] ↦ [] ∷ []
  | piece ∷ pieces ↦ if c == ch then [] ∷ piece ∷ pieces else (c ∷ piece) ∷ pieces
]

abbrev pub add_entry : Key → Key → Option ℕ → GroupRouter → Parsed
add_entry start end none router = refused "raft shards: entry has an invalid group id"
add_entry start end (some group_id) router = parsed (add_range start end group_id router)

-- An entry has two commas.
unfoldable pub parse_fields : List Bytes → GroupRouter → Parsed
parse_fields [] router = refused "raft shards: entry must look like <start>,<end>,<group_id>"
parse_fields (a ∷ []) router = refused "raft shards: entry must look like <start>,<end>,<group_id>"
parse_fields (a ∷ b ∷ []) router =
    refused "raft shards: entry must look like <start>,<end>,<group_id>"
parse_fields (start ∷ end ∷ group_id ∷ []) router =
    add_entry start end (parse_u64 (trim group_id)) router
parse_fields (a ∷ b ∷ c ∷ d ∷ pieces) router =
    refused "raft shards: entry must look like <start>,<end>,<group_id>"

abbrev pub is_empty : Bytes → Bool
is_empty [] = true
is_empty (c ∷ text) = false

-- The loop over the entries: only the last one may be empty.
unfoldable pub parse_entries : List Bytes → GroupRouter → Parsed
parse_entries [] router = parsed router
parse_entries (entry ∷ []) router =
    if is_empty (trim entry) then parsed router else parse_fields (split 44 (trim entry)) router
parse_entries (entry ∷ next ∷ entries) router =
    if is_empty (trim entry)
    then refused "raft shards: empty entry"
    else elim (parse_fields (split 44 (trim entry)) router) [
      | refused problem ↦ refused problem
      | parsed more ↦ parse_entries (next ∷ entries) more
    ]

abbrev pub validated : Parsed → Parsed
validated (refused problem) = refused problem
validated (parsed router) = elim (validate router) [
  | some problem ↦ refused problem
  | none ↦ parsed router
]

unfoldable pub parse_shards : Bytes → Parsed
parse_shards text = validated (parse_entries (split 59 text) (record { ranges = [] }))

mod-mul-add : (x p d : ℕ) → (x % u64_mod * p + d) % u64_mod ≡ (x * p + d) % u64_mod
mod-mul-add x p d =
    let q = x / u64_mod in
    let r = x % u64_mod in
    let parts : x ≡ u64_mod * q + r = sym (div-add-mod x u64_mod) in
    let whole : x * p + d ≡ u64_mod * (q * p) + (r * p + d) =
      ap (λ (y : ℕ). y * p + d) parts
      ∙ (ap (λ (y : ℕ). y + d)
            (add-mul (u64_mod * q) r p ∙ ap (λ (y : ℕ). y + r * p) (mul_assoc u64_mod q p))
          ∙ add_assoc (u64_mod * (q * p)) (r * p) d) in
    sym (ap (λ (y : ℕ). y % u64_mod) whole ∙ mul-add-mod_self_left u64_mod (q * p) (r * p + d))

parse_digits-decimal :
    (value : ℕ) (text : Bytes)
    → all_digits text ≡ true
    → value < u64_mod
    → parse_digits value text ≡ some ((value * 10 ^ length text + decimal text) % u64_mod)
unfolding parse_digits decimal all_digits
parse_digits-decimal value [] h k = ap some (omega (arith, k))
parse_digits-decimal value (c ∷ text) h k =
    let next_value = (value * 10 + (c - 48)) % u64_mod in
    let power = 10 ^ length text in
    let digit : is_digit c ≡ true = ground (arith, h) in
    let rest : all_digits text ≡ true = ground (arith, h) in
    let shift : value * 10 * power ≡ value * 10 ^ suc (length text) =
      mul_assoc value 10 power ∙ ap (λ (y : ℕ). value * y) (sym (pow-succ' 10 (length text))) in
    let digits : (value * 10 + (c - 48)) * power + decimal text
        ≡ value * 10 ^ suc (length text) + ((c - 48) * power + decimal text) =
      omega (arith, add-mul (value * 10) (c - 48) power, shift) in
    rw digit (
      parse_digits-decimal next_value text rest (omega arith)
      ∙ ap some (
          mod-mul-add (value * 10 + (c - 48)) power (decimal text)
          ∙ ap (λ (y : ℕ). y % u64_mod) digits))

parse_digits-other :
    (value : ℕ) (text : Bytes) → all_digits text ≡ false → parse_digits value text ≡ none
unfolding parse_digits all_digits
parse_digits-other value [] h = ground (arith, h)
parse_digits-other value (c ∷ text) h =
    ground (arith, h, parse_digits-other ((value * 10 + (c - 48)) % u64_mod) text)

-- A group id that is no row of digits is refused. One that is stands for the number that it writes,
-- cut to 64 bits: a number that does not fit is not refused.
pub parse_u64-decimal :
    (c : ℕ) (text : Bytes)
    → parse_u64 (c ∷ text)
      ≡ (if all_digits (c ∷ text) then some (decimal (c ∷ text) % u64_mod) else none)
unfolding parse_u64
parse_u64-decimal c text = elim (Bool-cases (all_digits (c ∷ text))) [
  | inl h ↦
      let start : 0 * 10 ^ length (c ∷ text) + decimal (c ∷ text) ≡ decimal (c ∷ text) =
        omega arith in
      rw h (
        parse_digits-decimal 0 (c ∷ text) h (omega arith)
        ∙ ap (λ (y : ℕ). some (y % u64_mod)) start)
  | inr h ↦ rw h (parse_digits-other 0 (c ∷ text) h)
]

-- The ranges stand in the order of their starts.
abbrev pub Above : Key → List Range → Type 0
Above key [] = Unit {0}
Above key (r ∷ rs) = (bytes_lt r.start key ≡ false) × Above key rs

abbrev pub IsSorted : List Range → Type 0
IsSorted [] = Unit {0}
IsSorted (r ∷ rs) = Above r.start rs × IsSorted rs

Above-trans : (a b : Key) (rs : List Range) → bytes_lt b a ≡ false → Above b rs → Above a rs
Above-trans a b [] h k = tt
Above-trans a b (r ∷ rs) h (k, l) = (le_trans a b r.start h k, Above-trans a b rs h l)

insert_range-Above :
    (key : Key) (new : Range) (rs : List Range)
    → bytes_lt new.start key ≡ false
    → Above key rs
    → Above key (insert_range new rs)
unfolding insert_range
insert_range-Above key new [] h a = (h, tt)
insert_range-Above key new (r ∷ rs) h (k, a) =
    ground (arith, h, k, a, insert_range-Above key new rs h a)

insert_range-IsSorted :
    (new : Range) (rs : List Range) → IsSorted rs → IsSorted (insert_range new rs)
unfolding insert_range
insert_range-IsSorted new [] s = (tt, tt)
insert_range-IsSorted new (r ∷ rs) (a, s) = elim (Bool-cases (bytes_lt new.start r.start)) [
  | inl before ↦
      let below = lt→le new.start r.start before in
      rw before ((below, Above-trans new.start r.start rs below a), (a, s))
  | inr behind ↦
      rw behind (insert_range-Above r.start new rs behind a, insert_range-IsSorted new rs s)
]

-- The insertion point of a new range leaves the ranges in the order of their starts.
add_range-IsSorted :
    (start end : Key) (group_id : ℕ) (router : GroupRouter)
    → IsSorted router.ranges
    → IsSorted (add_range start end group_id router).ranges
unfolding add_range
add_range-IsSorted start end group_id router s =
    insert_range-IsSorted (record { start = start; end = end; group_id = group_id }) router.ranges s
