-- ===== src/Sql/Like/Matches.antt =====
-- What it means that a text matches a pattern, and that `like_match` decides it.
use hands_on_sqldb_in_cpp.Prelude.{
  ℕ, ◌==◌, ◌≡◌, ◌↔◌, refl, inl, inr, Bool, true, not, ◌&&◌, [], ◌∷◌, arith, Bool-cases,
}
use hands_on_sqldb_in_cpp.Prelude.Order.{Bytes}
use hands_on_sqldb_in_cpp.Sql.Like.{
  is_escape, is_percent, is_underscore, at_end, any_char, this_char, any_suffix, like_from,
  like_match,
}

-- A character that stands for itself: no wildcard, and no backslash with something behind it.
abbrev pub is_plain : ℕ → Bytes → Bool
is_plain p [] = not (is_percent p) && not (is_underscore p)
is_plain p (q ∷ pattern) = not (is_escape p) && (not (is_percent p) && not (is_underscore p))

pub data Matches : Bytes → Bytes → Type 0 where
  done : Matches [] []
  plain :
      (p t : ℕ) (pattern text : Bytes)
      → is_plain p pattern ≡ true
      → (p == t) ≡ true
      → Matches pattern text
      → Matches (p ∷ pattern) (t ∷ text)
  escaped :
      (p q t : ℕ) (pattern text : Bytes)
      → is_escape p ≡ true
      → (q == t) ≡ true
      → Matches pattern text
      → Matches (p ∷ q ∷ pattern) (t ∷ text)
  one :
      (p t : ℕ) (pattern text : Bytes)
      → is_underscore p ≡ true
      → Matches pattern text
      → Matches (p ∷ pattern) (t ∷ text)
  nothing :
      (p : ℕ) (pattern text : Bytes)
      → is_percent p ≡ true
      → Matches pattern text
      → Matches (p ∷ pattern) text
  more :
      (p t : ℕ) (pattern text : Bytes)
      → is_percent p ≡ true
      → Matches (p ∷ pattern) text
      → Matches (p ∷ pattern) (t ∷ text)

Matches-suffix :
    (p : ℕ) (pattern text : Bytes) (rest : Bytes → Bool)
    → is_percent p ≡ true
    → ((t : Bytes) → rest t ≡ true → Matches pattern t)
    → any_suffix rest text ≡ true
    → Matches (p ∷ pattern) text
Matches-suffix p pattern [] rest h ih k = nothing p pattern [] h (ih [] k)
Matches-suffix p pattern (t ∷ text) rest h ih k = elim (Bool-cases (rest (t ∷ text))) [
  | inl here ↦ nothing p pattern (t ∷ text) h (ih (t ∷ text) here)
  | inr there ↦
      more p t pattern text h (Matches-suffix p pattern text rest h ih (ground (arith, there, k)))
]

Matches-all : (p : ℕ) (text : Bytes) → is_percent p ≡ true → Matches (p ∷ []) text
Matches-all p [] h = nothing p [] [] h done
Matches-all p (t ∷ text) h = more p t [] text h (Matches-all p text h)

Matches-end : (text : Bytes) → at_end text ≡ true → Matches [] text
Matches-end [] h = done
Matches-end (t ∷ text) h = ground (arith, h)

Matches-any :
    (p : ℕ) (pattern text : Bytes) (rest : Bytes → Bool)
    → is_underscore p ≡ true
    → ((t : Bytes) → rest t ≡ true → Matches pattern t)
    → any_char rest text ≡ true
    → Matches (p ∷ pattern) text
Matches-any p pattern [] rest h ih k = ground (arith, k)
Matches-any p pattern (t ∷ text) rest h ih k = one p t pattern text h (ih text k)

Matches-this :
    (p : ℕ) (pattern text : Bytes) (rest : Bytes → Bool)
    → is_plain p pattern ≡ true
    → ((t : Bytes) → rest t ≡ true → Matches pattern t)
    → this_char p rest text ≡ true
    → Matches (p ∷ pattern) text
Matches-this p pattern [] rest h ih k = ground (arith, k)
Matches-this p pattern (t ∷ text) rest h ih k =
    plain p t pattern text h (ground (arith, k)) (ih text (ground (arith, k)))

Matches-escaped :
    (p q : ℕ) (pattern text : Bytes) (rest : Bytes → Bool)
    → is_escape p ≡ true
    → ((t : Bytes) → rest t ≡ true → Matches pattern t)
    → this_char q rest text ≡ true
    → Matches (p ∷ q ∷ pattern) text
Matches-escaped p q pattern [] rest h ih k = ground (arith, k)
Matches-escaped p q pattern (t ∷ text) rest h ih k =
    escaped p q t pattern text h (ground (arith, k)) (ih text (ground (arith, k)))

like_from_sound : (pattern text : Bytes) → like_from pattern text ≡ true → Matches pattern text
unfolding like_from
like_from_sound [] text h = Matches-end text h
like_from_sound (p ∷ []) text h = elim (Bool-cases (is_percent p)) [
  | inl percent ↦ Matches-all p text percent
  | inr other ↦ elim (Bool-cases (is_underscore p)) [
    | inl under ↦ Matches-any p [] text at_end under Matches-end (ground (arith, h, other, under))
    | inr literal ↦
        Matches-this p [] text at_end (ground (arith, other, literal)) Matches-end
          (ground (arith, h, other, literal))
  ]
]
like_from_sound (p ∷ q ∷ pattern) text h = elim (Bool-cases (is_escape p)) [
  | inl e ↦
      Matches-escaped p q pattern text (like_from pattern) e (like_from_sound pattern)
        (ground (arith, h, e))
  | inr e ↦ elim (Bool-cases (is_percent p)) [
    | inl c ↦ elim (Bool-cases (is_percent q)) [
      | inl d ↦
          nothing p (q ∷ pattern) text c
            (like_from_sound (q ∷ pattern) text (ground (arith, h, e, c, d)))
      | inr d ↦
          Matches-suffix p (q ∷ pattern) text (like_from (q ∷ pattern)) c
            (like_from_sound (q ∷ pattern)) (ground (arith, h, e, c, d))
    ]
    | inr c ↦ elim (Bool-cases (is_underscore p)) [
      | inl u ↦
          Matches-any p (q ∷ pattern) text (like_from (q ∷ pattern)) u
            (like_from_sound (q ∷ pattern)) (ground (arith, h, e, c, u))
      | inr u ↦
          Matches-this p (q ∷ pattern) text (like_from (q ∷ pattern)) (ground (arith, e, c, u))
            (like_from_sound (q ∷ pattern)) (ground (arith, h, e, c, u))
    ]
  ]
]

like_from-plain :
    (p t : ℕ) (pattern text : Bytes)
    → is_plain p pattern ≡ true
    → (p == t) ≡ true
    → like_from pattern text ≡ true
    → like_from (p ∷ pattern) (t ∷ text) ≡ true
unfolding like_from
like_from-plain p t [] text h k l = ground (arith, h, k, l)
like_from-plain p t (q ∷ pattern) text h k l = ground (arith, h, k, l)

like_from-escaped :
    (p q t : ℕ) (pattern text : Bytes)
    → is_escape p ≡ true
    → (q == t) ≡ true
    → like_from pattern text ≡ true
    → like_from (p ∷ q ∷ pattern) (t ∷ text) ≡ true
unfolding like_from
like_from-escaped p q t pattern text h k l = ground (arith, h, k, l)

like_from-one :
    (p t : ℕ) (pattern text : Bytes)
    → is_underscore p ≡ true
    → like_from pattern text ≡ true
    → like_from (p ∷ pattern) (t ∷ text) ≡ true
unfolding like_from
like_from-one p t [] text h l = ground (arith, h, l)
like_from-one p t (q ∷ pattern) text h l = ground (arith, h, l)

any_suffix-here :
    (rest : Bytes → Bool) (text : Bytes) → rest text ≡ true → any_suffix rest text ≡ true
any_suffix-here rest [] h = h
any_suffix-here rest (t ∷ text) h = rw h refl

any_suffix-there :
    (rest : Bytes → Bool) (t : ℕ) (text : Bytes)
    → any_suffix rest text ≡ true
    → any_suffix rest (t ∷ text) ≡ true
any_suffix-there rest t text h = elim (Bool-cases (rest (t ∷ text))) [
  | inl here ↦ rw here refl
  | inr there ↦ rw there h
]

like_from-nothing :
    (p : ℕ) (pattern text : Bytes)
    → is_percent p ≡ true
    → like_from pattern text ≡ true
    → like_from (p ∷ pattern) text ≡ true
unfolding like_from
like_from-nothing p [] text h l = ground (arith, h, l)
like_from-nothing p (q ∷ pattern) text h l =
    ground (arith, h, l, any_suffix-here (like_from (q ∷ pattern)) text l)

like_from-more :
    (p t : ℕ) (pattern text : Bytes)
    → is_percent p ≡ true
    → like_from (p ∷ pattern) text ≡ true
    → like_from (p ∷ pattern) (t ∷ text) ≡ true
unfolding like_from
like_from-more p t [] text h l = ground (arith, h, l)
like_from-more p t (q ∷ pattern) text h l = ground (
  arith,
  h,
  l,
  like_from-more q t pattern text,
  any_suffix-there (like_from (q ∷ pattern)) t text,
)

like_from_complete : (pattern text : Bytes) → Matches pattern text → like_from pattern text ≡ true
unfolding like_from
like_from_complete pattern text done = refl
like_from_complete pattern text (plain p t ps ts h k m) =
    like_from-plain p t ps ts h k (like_from_complete ps ts m)
like_from_complete pattern text (escaped p q t ps ts h k m) =
    like_from-escaped p q t ps ts h k (like_from_complete ps ts m)
like_from_complete pattern text (one p t ps ts h m) =
    like_from-one p t ps ts h (like_from_complete ps ts m)
like_from_complete pattern text (nothing p ps ts h m) =
    like_from-nothing p ps ts h (like_from_complete ps ts m)
like_from_complete pattern text (more p t ps ts h m) =
    like_from-more p t ps ts h (like_from_complete (p ∷ ps) ts m)

-- The matcher accepts a text precisely if the text matches the pattern: character by character,
-- with any one character for `_`, any text for `%`, and the character itself behind a backslash.
pub like_match_iff :
    (text pattern : Bytes) → (like_match text pattern ≡ true) ↔ Matches pattern text
unfolding like_match
like_match_iff text pattern = (like_from_sound pattern text, like_from_complete pattern text)
