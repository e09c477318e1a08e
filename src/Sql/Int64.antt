-- ===== src/Sql/Int64.antt =====
-- Signed 64-bit numbers: their order, and their places among the unsigned ones.
use hands_on_sqldb_in_cpp.Prelude.{
  ℕ, ◌+◌, ◌*◌, ◌-◌, ◌<◌, ◌≡◌, refl, ◌==◌, Bool, true, false, not, arith, ltb, if◌then◌else◌,
  u64_mod, ◌^◌,
}

-- The library's integers over the native numbers.
pub data ℤ : Type 0 where
  pos negsuc : ℕ → ℤ

-- `a < b`
abbrev pub ltz : ℤ → ℤ → Bool
ltz (pos a) (pos b) = ltb a b
ltz (pos a) (negsuc b) = false
ltz (negsuc a) (pos b) = true
ltz (negsuc a) (negsuc b) = ltb b a

abbrev pub eqz : ℤ → ℤ → Bool
eqz (pos a) (pos b) = a == b
eqz (pos a) (negsuc b) = false
eqz (negsuc a) (pos b) = false
eqz (negsuc a) (negsuc b) = a == b

-- `a * n` for a positive `n`
abbrev pub times : ℤ → ℕ → ℤ
times (pos a) n = pos (a * n)
times (negsuc a) n = negsuc ((a + 1) * n - 1)

abbrev pub i64_half : ℕ
i64_half = 2 ^ 63

abbrev pub IsInt64 : ℤ → Type 0
IsInt64 (pos a) = a < i64_half
IsInt64 (negsuc a) = a < i64_half

-- `static_cast<uint64_t>`
abbrev pub to_u64 : ℤ → ℕ
to_u64 (pos a) = a
to_u64 (negsuc a) = u64_mod - 1 - a

-- `static_cast<int64_t>`
abbrev pub from_u64 : ℕ → ℤ
from_u64 v = if ltb v i64_half then pos v else negsuc (u64_mod - 1 - v)

-- `v ^ 0x8000000000000000`
abbrev pub flip_sign_bit : ℕ → ℕ
flip_sign_bit v = if ltb v i64_half then v + i64_half else v - i64_half

ltz_irrefl : (a : ℤ) → ltz a a ≡ false
ltz_irrefl (pos a) = ground arith
ltz_irrefl (negsuc a) = ground arith

pub ltz_asym : (a b : ℤ) → ltz a b ≡ true → ltz b a ≡ false
ltz_asym (pos a) (pos b) h = ground (arith, h)
ltz_asym (pos a) (negsuc b) h = ground (arith, h)
ltz_asym (negsuc a) (pos b) h = refl
ltz_asym (negsuc a) (negsuc b) h = ground (arith, h)

eqz_sym : (a b : ℤ) → eqz a b ≡ eqz b a
eqz_sym (pos a) (pos b) = ground arith
eqz_sym (pos a) (negsuc b) = refl
eqz_sym (negsuc a) (pos b) = refl
eqz_sym (negsuc a) (negsuc b) = ground arith

ltz_total : (a b : ℤ) → eqz a b ≡ false → ltz a b ≡ not (ltz b a)
ltz_total (pos a) (pos b) h = ground (arith, h)
ltz_total (pos a) (negsuc b) h = refl
ltz_total (negsuc a) (pos b) h = refl
ltz_total (negsuc a) (negsuc b) h = ground (arith, h)

-- The unsigned order of the flipped numbers is the signed order.
pub ltz-flip_sign_bit :
    (a b : ℤ)
    → IsInt64 a
    → IsInt64 b
    → ltb (flip_sign_bit (to_u64 a)) (flip_sign_bit (to_u64 b)) ≡ ltz a b
ltz-flip_sign_bit (pos a) (pos b) h k = ground (arith, h, k)
ltz-flip_sign_bit (pos a) (negsuc b) h k = ground (arith, h, k)
ltz-flip_sign_bit (negsuc a) (pos b) h k = ground (arith, h, k)
ltz-flip_sign_bit (negsuc a) (negsuc b) h k = ground (arith, h, k)

pub from_u64-flip : (a : ℤ) → IsInt64 a → from_u64 (flip_sign_bit (flip_sign_bit (to_u64 a))) ≡ a
from_u64-flip (pos a) h = ground (arith, h)
from_u64-flip (negsuc a) h = ground (arith, h)

pub flip-lt : (a : ℤ) → IsInt64 a → flip_sign_bit (to_u64 a) < u64_mod
flip-lt (pos a) h = ground (arith, h)
flip-lt (negsuc a) h = ground (arith, h)

-- `m - n`
abbrev pub sub_nat : ℕ → ℕ → ℤ
sub_nat m n = if ltb m n then negsuc (n - m - 1) else pos (m - n)

infixl 60 ◌+ℤ◌
abbrev pub ◌+ℤ◌ : ℤ → ℤ → ℤ
pos a +ℤ pos b = pos (a + b)
pos a +ℤ negsuc b = sub_nat a (b + 1)
negsuc a +ℤ pos b = sub_nat b (a + 1)
negsuc a +ℤ negsuc b = negsuc (a + b + 1)
