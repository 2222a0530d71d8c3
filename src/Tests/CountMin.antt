-- ===== src/Tests/CountMin.antt =====
-- The Count-Min sketch on keys that are numbers, with a hasher that adds the seed.

use native.Mathlib.Decide.{ℕ_discrete}
use asap_sketchlib.Prelude.{
  ℕ, ◌+◌, ◌*◌, ◌<◌, ◌≤◌, ◌≡◌, refl, List, [], ◌∷◌, ◌++◌, arith, ok, ◌>>=◌, Returns,
}
use asap_sketchlib.Hasher.{SketchHasher}
use asap_sketchlib.Matrix.Counter.{i64_counter, i64-IsAdditive}
use asap_sketchlib.Matrix.Hash.{packed64}
use asap_sketchlib.Matrix.Cells.{cell}
use asap_sketchlib.CountMin.{merge}
use asap_sketchlib.CountMin.Emit.{clamp_threshold}
use asap_sketchlib.CountMin.Concat.{build, merge-build}
use asap_sketchlib.CountMin.Bounds.{
  count, total, regular_run, fast_run, regular-estimate-Bounds, fast-estimate-Bounds,
  regular-estimate_exact,
}
use asap_sketchlib.CountMin.Promotion.{arrivals}
use asap_sketchlib.CountMin.Aggregate.{aggregate, aggregator_lag}

abbrev adding : SketchHasher ℕ
adding = record {
  hash64_seeded = λ seed x. x + seed;
  hash_for_matrix_seeded = λ seed rows cols x. packed64 (x + 16 * x);
}

abbrev stream : List (ℕ × ℕ)
stream = (1, 5) ∷ (9, 2) ∷ (1, 4) ∷ (5, 1) ∷ []

regular-estimate-Bounds_example :
    Returns
      (λ e. (count ℕ_discrete 1 stream ≤ e) × (e ≤ total stream))
      (regular_run adding 2 4 stream 1)
regular-estimate-Bounds_example =
    regular-estimate-Bounds ℕ_discrete adding 2 4 (omega arith) (omega arith) stream 1 (omega arith)

fast-estimate-Bounds_example :
    Returns
      (λ e. (count ℕ_discrete 1 stream ≤ e) × (e ≤ total stream))
      (fast_run adding 2 4 stream 1)
fast-estimate-Bounds_example =
    fast-estimate-Bounds ℕ_discrete adding 2 4 (omega arith) (omega arith) stream 1 (omega arith)
      (λ y. omega arith)

regular-estimate_exact_example :
    regular_run adding 2 4 ((1, 5) ∷ (2, 2) ∷ (1, 4) ∷ []) 1
    ≡ ok (count ℕ_discrete 1 ((1, 5) ∷ (2, 2) ∷ (1, 4) ∷ []))
regular-estimate_exact_example =
    regular-estimate_exact ℕ_discrete adding 2 4 (omega arith) (omega arith)
      ((1, 5) ∷ (2, 2) ∷ (1, 4) ∷ []) 1 0 (omega arith) (omega arith)
      ((λ e. absurd (e refl)), ((λ e. omega arith), ((λ e. absurd (e refl)), tt)))

aggregator_lag_example :
    Returns
      (λ p.
        (cell p.counts 0 1 0 ≤ arrivals adding 4 0 1 (1 ∷ 5 ∷ 1 ∷ []))
        × (arrivals adding 4 0 1 (1 ∷ 5 ∷ 1 ∷ []) < cell p.counts 0 1 0 + clamp_threshold 2))
      (aggregate adding 2 4 2 (1 ∷ 5 ∷ 1 ∷ []))
aggregator_lag_example =
    aggregator_lag adding 2 4 2 (omega arith) (omega arith) (1 ∷ 5 ∷ 1 ∷ []) 0 1 (omega arith)
      (omega arith) (omega arith)

merge-build_example :
    (do
      a ← build i64_counter adding 2 4 stream
      b ← build i64_counter adding 2 4 ((5, 3) ∷ [])
      merge i64_counter a b)
    ≡ build i64_counter adding 2 4 (stream ++ (5, 3) ∷ [])
merge-build_example =
    merge-build i64_counter i64-IsAdditive adding 2 4 (omega arith) stream ((5, 3) ∷ [])
