-- ===== src/Prelude/Order.antt =====
-- Strict orders by a Boolean test: the interface that `std::map` wants of its keys, and its two
-- instances, numbers and byte strings. `std::string` compares bytes as unsigned numbers.
use hands_on_sqldb_in_cpp.Prelude.Tests.{ltb, if◌then◌else◌}
use Prim.Native.Nat.{ℕ}
use mathlib.Core.Path.{◌≡◌, refl}
use mathlib.Core.Bool.{Bool, true, false, not, ◌&&◌}
use mathlib.Core.List.{List, [], ◌∷◌}
use native.Mathlib.Omega.{arith}

pub record Order {ℓ} (K : Type ℓ) : Type ℓ where
  pub lt : K → K → Bool
  pub lt_irrefl : (a : K) → lt a a ≡ false
  pub lt_trans : (a b c : K) → lt a b ≡ true → lt b c ≡ true → lt a c ≡ true
  pub lt_connex : (a b : K) → lt a b ≡ false → lt b a ≡ false → a ≡ b

pub ltb_irrefl : (a : ℕ) → ltb a a ≡ false
ltb_irrefl a = ground arith

pub ltb_trans : (a b c : ℕ) → ltb a b ≡ true → ltb b c ≡ true → ltb a c ≡ true
ltb_trans a b c h k = ground arith

pub ltb_connex : (a b : ℕ) → ltb a b ≡ false → ltb b a ≡ false → a ≡ b
ltb_connex a b h k = ground arith

instance abbrev pub nat_order : Order ℕ
nat_order = record {
  lt = ltb;
  lt_irrefl = ltb_irrefl;
  lt_trans = ltb_trans;
  lt_connex = ltb_connex;
}

abbrev pub Bytes : Type 0
Bytes = List ℕ

-- The lexicographic order of byte strings.
unfoldable pub bytes_lt : Bytes → Bytes → Bool
bytes_lt xs [] = false
bytes_lt [] (y ∷ ys) = true
bytes_lt (x ∷ xs) (y ∷ ys) =
    let rest = bytes_lt xs ys in if ltb x y then true else if ltb y x then false else rest

pub bytes_lt_irrefl : (a : Bytes) → bytes_lt a a ≡ false
unfolding bytes_lt
bytes_lt_irrefl [] = refl
bytes_lt_irrefl (x ∷ xs) = ground (arith, bytes_lt_irrefl xs)

pub bytes_lt_trans :
    (a b c : Bytes) → bytes_lt a b ≡ true → bytes_lt b c ≡ true → bytes_lt a c ≡ true
unfolding bytes_lt
bytes_lt_trans a [] c h k = ground arith
bytes_lt_trans a (y ∷ ys) [] h k = ground arith
bytes_lt_trans [] (y ∷ ys) (z ∷ zs) h k = refl
bytes_lt_trans (x ∷ xs) (y ∷ ys) (z ∷ zs) h k = ground (arith, bytes_lt_trans xs ys zs)

pub bytes_lt_connex : (a b : Bytes) → bytes_lt a b ≡ false → bytes_lt b a ≡ false → a ≡ b
unfolding bytes_lt
bytes_lt_connex [] [] h k = refl
bytes_lt_connex [] (y ∷ ys) h k = ground arith
bytes_lt_connex (x ∷ xs) [] h k = ground arith
bytes_lt_connex (x ∷ xs) (y ∷ ys) h k = ground (arith, bytes_lt_connex xs ys)

instance abbrev pub bytes_order : Order Bytes
bytes_order = record {
  lt = bytes_lt;
  lt_irrefl = bytes_lt_irrefl;
  lt_trans = bytes_lt_trans;
  lt_connex = bytes_lt_connex;
}

module _ {ℓ} {K : Type ℓ} ⦃o : Order K⦄ where
  -- `a == b`, from the order.
  unfoldable pub eqb : K → K → Bool
  eqb a b = not (o.lt a b) && not (o.lt b a)

  pub eqb_refl : (a : K) → eqb a a ≡ true
  unfolding eqb
  eqb_refl a = ground (arith, o.lt_irrefl a)

  pub eqb→eq : (a b : K) → eqb a b ≡ true → a ≡ b
  unfolding eqb
  eqb→eq a b h = ground (arith, o.lt_connex a b)

  pub eqb_of_eq : (a b : K) → a ≡ b → eqb a b ≡ true
  eqb_of_eq a b h = rw h (eqb_refl b)

-- `a ≤ b` is `lt b a ≡ false`.
module _ {ℓ} {K : Type ℓ} ⦃o : Order K⦄ where
  pub le_lt_trans : (a b c : K) → o.lt b a ≡ false → o.lt b c ≡ true → o.lt a c ≡ true
  le_lt_trans a b c h k = ground (arith, o.lt_connex a b, o.lt_trans a b c)

  pub lt_le_trans : (a b c : K) → o.lt a b ≡ true → o.lt c b ≡ false → o.lt a c ≡ true
  lt_le_trans a b c h k = ground (arith, o.lt_connex b c, o.lt_trans a b c)

  pub le_trans : (a b c : K) → o.lt b a ≡ false → o.lt c b ≡ false → o.lt c a ≡ false
  le_trans a b c h k = ground (arith, lt_le_trans c a b)

  pub lt→le : (a b : K) → o.lt a b ≡ true → o.lt b a ≡ false
  lt→le a b h = ground (arith, o.lt_trans a b a, o.lt_irrefl a)
