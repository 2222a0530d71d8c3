-- ===== src/Hll.antt =====
-- src/sketches/hll.rs: the registers of a HyperLogLog sketch of precision `p`, that is 2 ^ p
-- registers over 64-bit hashes. The estimators work on floats and are left out.
pub mod Rank
pub mod Registers
pub mod Delta
pub mod Lag
pub mod Aggregate
use asap_sketchlib.Prelude.{
  ℕ, zero, suc, ◌+◌, ◌-◌, ◌*◌, ◌/◌, ◌%◌, ◌^◌, List, [], ◌∷◌, Bool, min, ltb, leb, ◌==◌,
  if◌then◌else◌, Run, ok, ◌>>=◌, assert, index, store, for_each, for_range, length, set, replicate,
}

-- the number of binary digits of a number below 2 ^ f
unfoldable pub bit_length : ℕ → ℕ → ℕ
bit_length zero x = 0
bit_length (suc f) x = let rest = suc (bit_length f (x / 2)) in if x == 0 then 0 else rest

-- `u64::leading_zeros`
unfoldable pub leading_zeros : ℕ → ℕ
leading_zeros x = 64 - bit_length 64 x

-- `(hashed_val >> REGISTER_BITS) & P_MASK`
unfoldable pub bucket_num : ℕ → ℕ → ℕ
bucket_num p hashed = hashed / 2 ^ (64 - p) % 2 ^ p

-- `((hashed_val << PRECISION) + P_MASK).leading_zeros() as u8 + 1`
unfoldable pub rank : ℕ → ℕ → ℕ
rank p hashed = leading_zeros ((hashed * 2 ^ p % 2 ^ 64 + (2 ^ p - 1)) % 2 ^ 64) + 1

-- `HllRegisterStorage::default`
unfoldable pub zeroed_registers : ℕ → List ℕ
zeroed_registers p = replicate (2 ^ p) 0

unfoldable pub insert_with_hash : ℕ → ℕ → List ℕ → Run (List ℕ)
insert_with_hash p hashed registers = do
  let bucket = bucket_num p hashed
  let leading_zero = rank p hashed
  old ← index registers bucket
  if ltb old leading_zero then store registers bucket leading_zero else ok registers

unfoldable pub insert_many_with_hashes : ℕ → List ℕ → List ℕ → Run (List ℕ)
unfolding insert_with_hash
insert_many_with_hashes p hashes registers = for_each hashes (insert_with_hash p) registers

-- `zip` stops at the shorter of the two
unfoldable pub max_registers : List ℕ → List ℕ → List ℕ
max_registers [] others = []
max_registers (r ∷ rs) [] = r ∷ rs
max_registers (r ∷ rs) (o ∷ os) = (if ltb r o then o else r) ∷ max_registers rs os

unfoldable pub merge : List ℕ → List ℕ → Run (List ℕ)
unfolding max_registers
merge registers others =
    assert (length registers == length others) (ok (max_registers registers others))

-- `get_histogram` of the Ertl estimator, with room for 66 values
unfoldable pub get_histogram : List ℕ → Run (List ℕ)
get_histogram registers =
    for_each registers
      (λ register histogram.
        index histogram register >>= λ n. ok (set histogram register ((n + 1) % 2 ^ 32)))
      (replicate 66 0)
