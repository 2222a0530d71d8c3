-- ===== src/Tests/Elastic.antt =====
-- An Elastic sketch of two buckets whose flows are numbers: flow 9 evicts flow 1.
use native.Mathlib.Decide.{ℕ_discrete}
use asap_sketchlib.Prelude.{ℕ, ◌≤◌, List, [], ◌∷◌, arith, ◌+◌, Returns}
use asap_sketchlib.Hasher.{SketchHasher}
use asap_sketchlib.Matrix.Hash.{packed64}
use asap_sketchlib.CountMin.Bounds.{total, count}
use asap_sketchlib.Elastic.Stream.{elastic_run, query-run-Bounds}

abbrev adding : SketchHasher ℕ
adding = record {
  hash64_seeded = λ seed x. x + seed;
  hash_for_matrix_seeded = λ seed rows cols x. packed64 x;
}

abbrev flows : List (ℕ × ℕ)
flows = (1, 2) ∷ (4, 6) ∷ (9, 30) ∷ (1, 3) ∷ (9, 1) ∷ []

query-run-Bounds_example :
    Returns
      (λ e. (count ℕ_discrete 1 flows ≤ e) × (e ≤ total flows))
      (elastic_run adding ℕ_discrete 0 2 2 4 (omega arith) (omega arith) (omega arith) flows 1)
query-run-Bounds_example =
    query-run-Bounds adding ℕ_discrete 0 2 2 4 (omega arith) (omega arith) (omega arith) flows 1
      (omega arith) (omega arith, (omega arith, (omega arith, (omega arith, (omega arith, tt)))))
      (omega arith)
