-- ===== src/Hll/Delta.antt =====
-- src/sketches/hll.rs, the worker side of OctoSketch: a register is never cleared, and it is handed
-- over when it rises by enough.
use asap_sketchlib.Prelude.{
  ℕ, ◌-◌, ◌%◌, ◌^◌, List, [], ◌∷◌, ◌++◌, min, ltb, leb, if◌then◌else◌, Run, ok, ◌>>=◌, index, store,
  for_each,
}
use asap_sketchlib.Hll.{bucket_num, rank}

pub record HllDelta : Type 0 where
  pub pos : ℕ
  pub value : ℕ

abbrev pub hll_promask : ℕ
hll_promask = 0

-- src/sketch_framework/octo.rs
unfoldable pub max_hll_threshold : ℕ → ℕ
max_hll_threshold precision = 64 - precision

unfoldable pub pow2_saturating : ℕ → ℕ
pow2_saturating exp = if leb 127 exp then 2 ^ 128 - 1 else 2 ^ exp

unfoldable pub insert_emit_delta_with_hash_and_threshold :
    ℕ → ℕ → ℕ → List ℕ × List HllDelta → Run (List ℕ × List HllDelta)
unfolding max_hll_threshold
insert_emit_delta_with_hash_and_threshold p hashed threshold (regs, out) = do
  let tau = min threshold (max_hll_threshold p)
  let bucket = bucket_num p hashed
  let leading_zero = rank p hashed
  previous ← index regs bucket
  if ltb previous leading_zero
      then (do
        regs' ← store regs bucket leading_zero
        if leb (pow2_saturating tau) (pow2_saturating leading_zero - pow2_saturating previous)
            then ok (regs', out ++ record { pos = bucket % 2 ^ 32; value = leading_zero } ∷ [])
            else ok (regs', out))
      else ok (regs, out)

unfoldable pub insert_emit_delta_with_hash :
    ℕ → ℕ → List ℕ × List HllDelta → Run (List ℕ × List HllDelta)
unfolding insert_emit_delta_with_hash_and_threshold
insert_emit_delta_with_hash p hashed w =
    insert_emit_delta_with_hash_and_threshold p hashed hll_promask w

unfoldable pub apply_delta : HllDelta → List ℕ → Run (List ℕ)
apply_delta delta regs = do
  current ← index regs delta.pos
  if ltb current delta.value then store regs delta.pos delta.value else ok regs

-- An aggregator applies the deltas in the order in which they arrive.
unfoldable pub apply_deltas : List HllDelta → List ℕ → Run (List ℕ)
unfolding apply_delta
apply_deltas deltas regs = for_each deltas apply_delta regs
