-- ===== src/Sql/Key/Digits.antt =====
-- The order of the big-endian bytes of numbers is the order of the numbers.
use native.Mathlib.Nat.{
  div-add-mod, mul-add-mod_self_left, mod-eq_of_lt, mod-lt, mul-le-mul_right, add-mul, mul_assoc,
  mul_comm, mul-add, add_assoc, one-le-pow, pow-succ',
}
use hands_on_sqldb_in_cpp.Prelude.{
  ℕ, zero, suc, ◌+◌, ◌*◌, ◌/◌, ◌%◌, ◌^◌, ◌<◌, ◌≤◌, ◌≡◌, sym, ap, ◌∙◌, Bool, true, false, ltb,
  if◌then◌else◌, arith,
}
use hands_on_sqldb_in_cpp.Prelude.Order.{bytes_lt}
use hands_on_sqldb_in_cpp.Raft.Wire.{put_be}

-- Comparing numbers by their leading digit, and then by the rest.
digits-order :
    (m a b r s : ℕ)
    → r < m
    → s < m
    → ltb (a * m + r) (b * m + s) ≡ (if ltb a b then true else if ltb b a then false else ltb r s)
digits-order m a b r s h k =
    let up : suc a ≤ b → suc a * m ≤ b * m = λ l. mul-le-mul_right m l in
    let down : suc b ≤ a → suc b * m ≤ a * m = λ l. mul-le-mul_right m l in
    ground (arith, h, k, up, down, add-mul a 1 m, add-mul b 1 m)

power-pos : (k : ℕ) → 0 < 2 ^ (8 * k)
power-pos k = one-le-pow (8 * k) 2 (omega arith)

twice : (n : ℕ) → 2 ^ (n + 1) ≡ 2 * 2 ^ n
twice n = let shift : n + 1 ≡ suc n = omega arith in ap (λ (x : ℕ). 2 ^ x) shift ∙ pow-succ' 2 n

sixteen_fold : (n : ℕ) → 2 ^ (n + 4) ≡ 16 * 2 ^ n
sixteen_fold n =
    let a : n + 1 + 1 ≡ n + 2 = omega arith in
    let b : n + 2 + 1 ≡ n + 3 = omega arith in
    let c : n + 3 + 1 ≡ n + 4 = omega arith in
    omega (
      arith,
      twice n,
      sym (ap (λ (x : ℕ). 2 ^ x) a) ∙ twice (n + 1),
      sym (ap (λ (x : ℕ). 2 ^ x) b) ∙ twice (n + 2),
      sym (ap (λ (x : ℕ). 2 ^ x) c) ∙ twice (n + 3),
    )

power-suc : (k : ℕ) → 2 ^ (8 * suc k) ≡ 256 * 2 ^ (8 * k)
power-suc k =
    let shift : 8 * suc k ≡ 8 * k + 4 + 4 = omega arith in
    ap (λ (x : ℕ). 2 ^ x) shift ∙ omega (arith, sixteen_fold (8 * k), sixteen_fold (8 * k + 4))

-- One more byte.
mod-power-suc :
    (k v : ℕ) → v % 2 ^ (8 * suc k) ≡ (v / 2 ^ (8 * k) % 256) * 2 ^ (8 * k) + v % 2 ^ (8 * k)
mod-power-suc k v =
    let m = 2 ^ (8 * k) in
    let q = v / m in
    let r = v % m in
    let low = q % 256 * m + r in
    let big : 2 ^ (8 * suc k) ≡ 256 * m = power-suc k in
    let high : m * q ≡ 256 * m * (q / 256) + q % 256 * m =
      ap (λ (x : ℕ). m * x) (sym (div-add-mod q 256))
      ∙ (mul-add m (256 * (q / 256)) (q % 256)
          ∙ omega (
            arith,
            sym (mul_assoc m 256 (q / 256)) ∙ ap (λ (x : ℕ). x * (q / 256)) (mul_comm m 256),
            mul_comm m (q % 256),
          )) in
    let whole : v ≡ 256 * m * (q / 256) + low =
      sym (div-add-mod v m)
      ∙ (ap (λ (x : ℕ). x + r) high ∙ add_assoc (256 * m * (q / 256)) (q % 256 * m) r) in
    let small : low < 256 * m =
      let below : (q % 256 + 1) * m ≤ 256 * m = mul-le-mul_right m (omega arith) in
      omega (arith, below, add-mul (q % 256) 1 m, mod-lt v (power-pos k)) in
    ap (λ (x : ℕ). v % x) big
    ∙ (ap (λ (x : ℕ). x % (256 * m)) whole
        ∙ (mul-add-mod_self_left (256 * m) (q / 256) low ∙ mod-eq_of_lt small))

pub put_be-order :
    (k x y : ℕ) → bytes_lt (put_be k x) (put_be k y) ≡ ltb (x % 2 ^ (8 * k)) (y % 2 ^ (8 * k))
unfolding put_be bytes_lt
put_be-order zero x y = ground arith
put_be-order (suc k) x y =
    let m = 2 ^ (8 * k) in
    let a = x / m % 256 in
    let b = y / m % 256 in
    let first : (if ltb a b
          then true
          else if ltb b a
          then false
          else bytes_lt (put_be k x) (put_be k y))
        ≡ (if ltb a b then true else if ltb b a then false else ltb (x % m) (y % m)) =
      ap (λ (c : Bool). if ltb a b then true else if ltb b a then false else c)
        (put_be-order k x y) in
    rw (mod-power-suc k x, mod-power-suc k y)
      (first
        ∙ sym
            (digits-order m a b (x % m) (y % m) (mod-lt x (power-pos k)) (mod-lt y (power-pos k))))
