-- ===== src/CountMin/Emit.antt =====
-- src/sketches/countminsketch.rs, the worker side of OctoSketch: an insertion into i32 counters that
-- hands a counter over as a delta, and clears it, when it reaches the threshold. The regular path
-- hashes with the free function `hash64_seeded`, that is with the default hasher, and not with the
-- sketch's own: `default_hasher` below.
use asap_sketchlib.Prelude.{
  ℕ, ◌%◌, ◌^◌, List, [], ◌∷◌, ◌++◌, min, max, if◌then◌else◌, Run, ok, ◌>>=◌, for_range, for_each,
}
use asap_sketchlib.Hasher.{SketchHasher}
use asap_sketchlib.Matrix.Counter.{Counter, i32_counter}
use asap_sketchlib.Matrix.Vector2d.{
  Vector2D, update_one_counter, query_one_counter, increment_by_row,
}
use asap_sketchlib.CountMin.{CountMin, CmDelta, max_promask, cm_promask, apply_delta}
use asap_sketchlib.CountMin.Regular

-- `threshold.clamp(1, MAX_PROMASK)`
unfoldable pub clamp_threshold : ℕ → ℕ
clamp_threshold threshold = min (max threshold 1) max_promask

-- One row of the loop: count, and promote at the threshold. The deltas stand in emission order.
unfoldable pub promote_row : ℕ → ℕ → ℕ → Vector2D ℕ × List CmDelta → Run (Vector2D ℕ × List CmDelta)
promote_row threshold r col (t, out) = do
  t1 ← increment_by_row i32_counter r col 1 t
  current ← query_one_counter t1 r col
  if i32_counter.less current threshold then ok (t1, out) else (do
    t2 ← update_one_counter r col (λ _. 0) t1
    ok (t2, out ++ record { row = r % 2 ^ 32; col = col % 2 ^ 32; value = current } ∷ []))

module _ {K : Type 0} (default_hasher : SketchHasher K) where
  unfoldable pub insert_emit_delta_with_threshold :
      K → ℕ → CountMin ℕ × List CmDelta → Run (CountMin ℕ × List CmDelta)
  unfolding promote_row clamp_threshold
  insert_emit_delta_with_threshold value threshold (self, out) = do
    let tau = clamp_threshold threshold
    let rows = self.counts.rows
    let cols = self.counts.cols
    (counts, out') ←
        for_range rows 0 (λ r t. promote_row tau r (Regular.column default_hasher cols value r) t)
          (self.counts, out)
    ok (record self { counts = counts }, out')

  unfoldable pub insert_emit_delta : K → CountMin ℕ × List CmDelta → Run (CountMin ℕ × List CmDelta)
  unfolding insert_emit_delta_with_threshold
  insert_emit_delta value w = insert_emit_delta_with_threshold value cm_promask w

-- An aggregator applies the deltas in the order in which they arrive.
unfoldable pub apply_deltas :
    {C : Type 0} → Counter C → List CmDelta → CountMin C → Run (CountMin C)
unfolding apply_delta
apply_deltas c deltas parent = for_each deltas (apply_delta c) parent
