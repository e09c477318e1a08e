-- ===== src/Sql/Like.antt =====
-- sql_types/sql_truth.h: `like_match`, where `%` stands for any text, `_` for one character, and a
-- backslash takes the character behind it as it is. The pattern comes first here; the loop over
-- neighbouring `%` drops them one by one.
pub mod Matches
use hands_on_sqldb_in_cpp.Prelude.{
  ℕ, ◌==◌, Bool, true, false, ◌||◌, ◌&&◌, List, [], ◌∷◌, if◌then◌else◌,
}
use hands_on_sqldb_in_cpp.Prelude.Order.{Bytes}

abbrev pub is_escape : ℕ → Bool
is_escape c = c == 92

abbrev pub is_percent : ℕ → Bool
is_percent c = c == 37

abbrev pub is_underscore : ℕ → Bool
is_underscore c = c == 95

abbrev pub at_end : Bytes → Bool
at_end [] = true
at_end (t ∷ text) = false

-- The text has a character, and `rest` accepts what follows it.
abbrev pub any_char : (Bytes → Bool) → Bytes → Bool
any_char rest [] = false
any_char rest (t ∷ text) = rest text

abbrev pub this_char : ℕ → (Bytes → Bool) → Bytes → Bool
this_char c rest [] = false
this_char c rest (t ∷ text) = (c == t) && rest text

-- The loop over `k`: some end of the text is accepted.
abbrev pub any_suffix : (Bytes → Bool) → Bytes → Bool
any_suffix rest [] = rest []
any_suffix rest (t ∷ text) = rest (t ∷ text) || any_suffix rest text

unfoldable pub like_from : Bytes → Bytes → Bool
like_from [] text = at_end text
like_from (p ∷ []) text =
    if is_percent p
    then true
    else if is_underscore p
    then any_char at_end text
    else this_char p at_end text
like_from (p ∷ q ∷ pattern) text =
    let rest = like_from (q ∷ pattern) in
    let escaped = like_from pattern in
    if is_escape p
    then this_char q escaped text
    else if is_percent p
    then (if is_percent q then rest text else any_suffix rest text)
    else if is_underscore p
    then any_char rest text
    else this_char p rest text

unfoldable pub like_match : Bytes → Bytes → Bool
like_match text pattern = like_from pattern text
