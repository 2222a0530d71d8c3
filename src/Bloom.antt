-- ===== src/Bloom.antt =====
-- src/sketches/bloom.rs: a partitioned Bloom filter, on the two ways of hashing a key.
pub mod Regular
pub mod Fast
pub mod Slices
pub mod Membership
pub mod Merge
use asap_sketchlib.Prelude.{ℕ, ◌+◌, ◌-◌, ◌^◌, min, Bool, leb, ◌==◌, Run, ok, ◌>>=◌, assert}
use asap_sketchlib.BitMatrix
use asap_sketchlib.BitMatrix.{BitMatrix, union_from, count_ones}

pub record Bloom : Type 0 where
  pub bits : BitMatrix
  pub inserted : ℕ

abbrev pub bloom_max_slices : ℕ
bloom_max_slices = 20

unfoldable pub with_dimensions : ℕ → ℕ → Run Bloom
unfolding BitMatrix.new
with_dimensions rows cols =
    assert (leb rows bloom_max_slices)
      (BitMatrix.new rows cols >>= λ bits. ok (record { bits = bits; inserted = 0 }))

-- addition on u64 that stops at the greatest number
abbrev pub saturating_add : ℕ → ℕ → ℕ
saturating_add a b = min (a + b) (2 ^ 64 - 1)

unfoldable pub is_empty : Bloom → Bool
is_empty self = count_ones self.bits.words == 0

unfoldable pub clear : Bloom → Bloom
clear self = record { bits = BitMatrix.clear self.bits; inserted = 0 }

unfoldable pub merge : Bloom → Bloom → Run Bloom
unfolding union_from
merge self other = do
  bits ← union_from self.bits other.bits
  ok (record { bits = bits; inserted = saturating_add self.inserted other.inserted })
