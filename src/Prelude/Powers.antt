-- ===== src/Prelude/Powers.antt =====
-- Powers of two, and remainders by them.
use native.Mathlib.Nat.{
  one-le-pow, mod-lt, mod-add-div, pow-suc, pow-zero, le_of_mul-le-mul_right, lt_of_mul-lt-mul_left,
  mul-le-mul_left,
}
use Prim.Native.Nat.{ℕ, zero, suc, ◌+◌, ◌-◌, ◌*◌, ◌/◌, ◌%◌, ◌^◌, ◌≤◌, ◌<◌}
use mathlib.Core.Path.{◌≡◌, ap}
use native.Mathlib.Omega.{arith}

pub pow2-pos : (n : ℕ) → 1 ≤ 2 ^ n
pow2-pos n = one-le-pow n 2 (omega arith)

pub pow2-add : (a b n : ℕ) → a + b ≡ n → 2 ^ n ≡ 2 ^ a * 2 ^ b
pow2-add zero b n e =
    let same : n ≡ b = omega arith in omega (arith, ap (λ k. 2 ^ k) same, pow-zero 2)
pow2-add (suc a) b zero e = absurd (omega arith)
pow2-add (suc a) b (suc n) e =
    rw (pow-suc 2 n, pow-suc 2 a, pow2-add a b n (omega arith)) (omega arith)

quotient_le : (x P Q k : ℕ) → 0 < P → P * Q * k ≤ x * P → Q * k ≤ x
quotient_le x P Q k pos h =
    let scaled : Q * k * P ≤ x * P = omega arith in le_of_mul-le-mul_right scaled pos

mul_lt : (t P Q : ℕ) → t * P < P * Q → t * P + P ≤ P * Q
mul_lt t P Q h =
    let flipped : P * t < P * Q = omega arith in
    let room : P * suc t ≤ P * Q = mul-le-mul_left P (lt_of_mul-lt-mul_left P flipped) in
    omega (arith, room)

exact_part : (x P Q k y : ℕ) → Q * k ≤ x → y + P * Q * k ≡ x * P → y ≡ (x - Q * k) * P
exact_part x P Q k y low e =
    let t : ℕ = x - Q * k in
    let back : x ≡ t + Q * k = omega arith in
    let scaled : x * P ≡ (t + Q * k) * P = ap (λ z. z * P) back in omega (arith, scaled)

-- A multiple of a factor of the modulus leaves a multiple of the factor.
pub mul-mod-le : (x P Q M : ℕ) → 0 < P → 0 < M → M ≡ P * Q → x * P % M + P ≤ M
mul-mod-le x P Q M pos big e =
    let k : ℕ = x * P / M in
    let whole : x * P % M + P * Q * k ≡ x * P = rw (← e) (mod-add-div (x * P) M) in
    let low : Q * k ≤ x = quotient_le x P Q k pos (omega arith) in
    let shape : x * P % M ≡ (x - Q * k) * P = exact_part x P Q k (x * P % M) low whole in
    omega (arith, shape, e, mul_lt (x - Q * k) P Q (rw (← shape, ← e) (mod-lt (x * P) big)))
