-- ===== src/CountMin/Aggregate.antt =====
-- A worker and its aggregator together: how far the aggregator may lag behind.
use asap_sketchlib.Prelude.{
  ℕ, ◌+◌, ◌%◌, ◌^◌, ◌<◌, ◌≤◌, ◌≡◌, List, [], ◌∷◌, arith, Run, ◌>>=◌, for_each, Returns, returns,
  Returns-bind, Returns-map, Returns-for_each, length,
}
use asap_sketchlib.Hasher.{SketchHasher}
use asap_sketchlib.Matrix.Counter.{i32_counter, i64_counter}
use asap_sketchlib.Matrix.Vector2d.{increment_by_row}
use asap_sketchlib.Matrix.Cells.{IsShaped, cell, update_one_counter-Wrote}
use asap_sketchlib.CountMin.{CountMin, CmDelta, with_dimensions, apply_delta}
use asap_sketchlib.CountMin.Emit.{clamp_threshold, insert_emit_delta_with_threshold, apply_deltas}
use asap_sketchlib.CountMin.Tally.{tally}
use asap_sketchlib.CountMin.Stream.{with_dimensions-Sketches}
use asap_sketchlib.CountMin.Promotion.{
  AreValid, arrivals, arrivals-reverse_aux, arrivals-le-length, handed, IsWorker,
  insert_emit-IsWorker,
}

module _ (R W : ℕ) where
  -- every cell of the parent has grown by what was handed over for it
  abbrev Received : (ℕ → ℕ → ℕ) → List CmDelta → CountMin ℕ → Type 0
  Received before ds p =
      IsShaped R W p.counts
      × ((r j : ℕ) → r < R → j < W → cell p.counts r j 0 ≡ (before r j + handed r j ds) % 2 ^ 64)

  apply_delta-Received :
      (before : ℕ → ℕ → ℕ) (d : CmDelta) (p : CountMin ℕ)
      → (d.row < R) × (d.col < W) × (d.value < 2 ^ 31)
      → Received before [] p
      → Returns (Received before (d ∷ [])) (apply_delta i64_counter d p)
  unfolding apply_delta increment_by_row handed
  apply_delta-Received before d p valid h =
      Returns-bind
        (update_one_counter-Wrote R W 0 d.row d.col
          (λ old. i64_counter.add old (i64_counter.from_i32 d.value)) p.counts h.0 valid.0 valid.1)
        λ m w. returns (w.0, λ r j hr hj. ground (arith, w.1 r j hr hj, h.1 r j hr hj))

  apply_deltas-Received :
      (before : ℕ → ℕ → ℕ) (ds : List CmDelta) (p : CountMin ℕ)
      → AreValid R W ds
      → Received before [] p
      → Returns (Received before ds) (apply_deltas i64_counter ds p)
  unfolding apply_deltas handed for_each
  apply_deltas-Received before [] p valid h = returns h
  apply_deltas-Received before (d ∷ ds) p valid h =
      Returns-bind (apply_delta-Received before d p valid.0 h) λ t u.
        Returns-map
          (apply_deltas-Received (λ r j. before r j + handed r j (d ∷ [])) ds t valid.1
            (u.0, λ r j hr hj. ground (arith, u.1 r j hr hj)))
          λ v w. (w.0, λ r j hr hj. ground (arith, w.1 r j hr hj))

module _ {K : Type 0} (h : SketchHasher K) (R W threshold : ℕ) where
  -- the worker's stream, then the aggregator
  abbrev pub aggregate : List K → Run (CountMin ℕ)
  aggregate xs = do
    worker ← with_dimensions i32_counter R W
    (left, deltas) ←
        for_each xs (λ x w. insert_emit_delta_with_threshold h x threshold w) (worker, [])
    parent ← with_dimensions i64_counter R W
    apply_deltas i64_counter deltas parent

module _ {K : Type 0} (h : SketchHasher K) (R W threshold : ℕ) (few : R ≤ 2 ^ 32)
    (cols : 0 < W) where
  -- A worker that emits deltas and an aggregator of i64 counters that applies all of them, both
  -- new, after a stream of fewer than 2 ^ 63 arrivals: none panics, and each of the aggregator's
  -- cells is at most the number of arrivals on it, and lags behind that number by less than the
  -- clamped threshold. (At least one column, at most 2 ^ 32 rows.)
  pub aggregator_lag :
      (xs : List K) (r j : ℕ)
      → length xs < 2 ^ 63
      → r < R
      → j < W
      → Returns
          (λ p.
            (cell p.counts r j 0 ≤ arrivals h W r j xs)
            × (arrivals h W r j xs < cell p.counts r j 0 + clamp_threshold threshold))
          (aggregate h R W threshold xs)
  unfolding handed tally clamp_threshold
  aggregator_lag xs r j short hr hj =
      Returns-bind (with_dimensions-Sketches i32_counter R W (λ (x : K) r. 0) cols) λ worker v.
        Returns-bind
          (Returns-for_each (λ ys w. IsWorker h W R threshold few cols ys w) [] xs _ (worker, [])
            (λ ys x t a. insert_emit-IsWorker h W R threshold few cols x ys t a)
            (record {
              shaped = v.shaped;
              adds_up = λ k i p q. omega (arith, v.cells k i p q);
              below = λ k i p q. ground (arith, v.cells k i p q);
              valid = tt;
            }))
          λ (left, deltas) a.
            Returns-bind (with_dimensions-Sketches i64_counter R W (λ (x : K) r. 0) cols)
              λ parent u.
                Returns-map
                  (apply_deltas-Received R W (λ r j. 0) deltas parent a.valid
                    (u.shaped, λ r j p q. omega (arith, u.cells r j p q)))
                  λ p w. ground (
                    arith,
                    w.1 r j hr hj,
                    a.adds_up r j hr hj,
                    a.below r j hr hj,
                    arrivals-reverse_aux h W r j xs [],
                    arrivals-le-length h W r j xs,
                  )
