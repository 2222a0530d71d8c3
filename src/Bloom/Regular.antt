-- ===== src/Bloom/Regular.antt =====
-- src/sketches/bloom.rs, the regular path: one seeded hash for each slice.
use asap_sketchlib.Prelude.{
  ℕ, zero, suc, ◌%◌, ◌^◌, List, Bool, true, false, if◌then◌else◌, Run, ok, ◌>>=◌, for_range,
  for_each,
}
use asap_sketchlib.Hasher.{SketchHasher}
use asap_sketchlib.BitMatrix.{BitMatrix, get, set_bit}
use asap_sketchlib.Bloom.{Bloom, saturating_add}

-- `((hashed & LOWER_32_MASK) as usize) % cols`
abbrev pub slice_column : {K : Type 0} → SketchHasher K → ℕ → K → ℕ → ℕ
slice_column h cols value r = h.hash64_seeded r value % 2 ^ 32 % cols

module _ {K : Type 0} (h : SketchHasher K) where
  unfoldable pub insert : K → Bloom → Run Bloom
  insert value self = do
    let rows = self.bits.rows
    let cols = self.bits.cols
    bits ← for_range rows 0 (λ r t. set_bit t r (slice_column h cols value r)) self.bits
    ok (record { bits = bits; inserted = saturating_add self.inserted 1 })

  unfoldable pub bulk_insert : List K → Bloom → Run Bloom
  bulk_insert values self = for_each values insert self

  -- the `n` slices from `r` on, up to the first one whose bit is clear
  unfoldable pub contains_from : BitMatrix → ℕ → ℕ → K → Run Bool
  contains_from bits zero r value = ok true
  contains_from bits (suc n) r value =
      let rest = contains_from bits n (suc r) value in
      get bits r (slice_column h bits.cols value r) >>= λ hit. if hit then rest else ok false

  unfoldable pub contains : Bloom → K → Run Bool
  unfolding contains_from
  contains self value = contains_from self.bits self.bits.rows 0 value
