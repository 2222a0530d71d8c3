-- ===== src/Bloom/Fast.antt =====
-- src/sketches/bloom.rs, the fast path: one hash, decoded for each slice.
use asap_sketchlib.Prelude.{List, Bool, true, Run, ok, ◌>>=◌, for_each}
use asap_sketchlib.Hasher.{SketchHasher}
use asap_sketchlib.BitMatrix.{fast_insert, fast_query_min, hash_for_matrix}
use asap_sketchlib.Bloom.{Bloom, saturating_add}

module _ {K : Type 0} (h : SketchHasher K) where
  unfoldable pub insert : K → Bloom → Run Bloom
  unfolding fast_insert hash_for_matrix
  insert value self = do
    let hashed_val = hash_for_matrix h self.bits value
    bits ← fast_insert (λ cell v row. true) (tt {0}) hashed_val self.bits
    ok (record { bits = bits; inserted = saturating_add self.inserted 1 })

  unfoldable pub bulk_insert : List K → Bloom → Run Bloom
  bulk_insert values self = for_each values insert self

  unfoldable pub contains : Bloom → K → Run Bool
  unfolding fast_query_min hash_for_matrix
  contains self value =
      fast_query_min (λ cell row hashed. cell) self.bits (hash_for_matrix h self.bits value)
