-- ===== src/Hll/Rank.antt =====
-- The rank of a hash, and the bounds that keep a register in a byte and in the histogram.
use native.Mathlib.Nat.{one-le-pow, mod-lt, pow-suc}
use asap_sketchlib.Prelude.{ℕ, zero, suc, ◌+◌, ◌-◌, ◌*◌, ◌/◌, ◌%◌, ◌^◌, ◌<◌, ◌≤◌, ◌≡◌, arith}
use asap_sketchlib.Prelude.Powers.{pow2-pos, pow2-add, mul-mod-le}
use asap_sketchlib.Hll.{bit_length, leading_zeros, bucket_num, rank}

pub bit_length-le : (f x : ℕ) → bit_length f x ≤ f
unfolding bit_length
bit_length-le zero x = omega arith
bit_length-le (suc f) x = ground (arith, bit_length-le f (x / 2))

-- A number of at least 2 ^ n - 1 has at least n digits.
le-bit_length : (n f x : ℕ) → n ≤ f → 2 ^ n ≤ x + 1 → n ≤ bit_length f x
unfolding bit_length
le-bit_length zero f x h k = omega arith
le-bit_length (suc n) zero x h k = absurd (omega arith)
le-bit_length (suc n) (suc f) x h k =
    ground
      (arith, pow-suc 2 n, one-le-pow n 2 (omega arith), le-bit_length n f (x / 2) (omega arith))

pub bucket_num-lt : (p hashed : ℕ) → bucket_num p hashed < 2 ^ p
unfolding bucket_num
bucket_num-lt p hashed = mod-lt _ (one-le-pow p 2 (omega arith))

-- A rank is at least 1 and at most `REGISTER_BITS + 1`, for each precision up to 64.
pub rank_bounds : (p hashed : ℕ) → p ≤ 64 → (1 ≤ rank p hashed) × (rank p hashed ≤ 64 - p + 1)
unfolding rank leading_zeros
rank_bounds p hashed h =
    let low : ℕ = hashed * 2 ^ p % 2 ^ 64 in
    let fits : low + 2 ^ p ≤ 2 ^ 64 =
      mul-mod-le hashed (2 ^ p) (2 ^ (64 - p)) (2 ^ 64) (pow2-pos p) (pow2-pos 64)
        (pow2-add p (64 - p) 64 (omega arith)) in
    let kept : (low + (2 ^ p - 1)) % 2 ^ 64 ≡ low + (2 ^ p - 1) = omega (arith, pow2-pos p) in
    let digits : p ≤ bit_length 64 ((low + (2 ^ p - 1)) % 2 ^ 64) =
      le-bit_length p 64 _ h (omega (arith, kept, pow2-pos p)) in
    (omega arith, omega (arith, digits))
