-- ===== src/Tests/FoldCms.antt =====
-- A folded sketch on keys that are numbers, with a heap that forgets everything.
use asap_sketchlib.Prelude.{ℕ, ◌+◌, ◌≡◌, refl, List, [], ◌∷◌, ◌++◌, ◌>>=◌, arith, ok, reverse_aux}
use asap_sketchlib.Hasher.{SketchHasher}
use asap_sketchlib.Matrix.Hash.{packed64, is_power_of_two}
use asap_sketchlib.FoldCms.Merge.{filled, query-merge_same_level}
use asap_sketchlib.FoldCms.{HeapOps, query, merge_same_level, trailing_zeros, i64_max}
use asap_sketchlib.FoldCms.Folding.{least_counter}
use asap_sketchlib.FoldCms.Levels.{folded_run, query_folded}

abbrev low_bits : SketchHasher ℕ
low_bits = record {
  hash64_seeded = λ seed x. x + seed;
  hash_for_matrix_seeded = λ seed rows cols x. packed64 x;
}

abbrev no_heap : HeapOps ℕ (List ℕ)
no_heap = record {
  new_heap = λ k. [];
  update = λ key count hp. hp;
  items = λ hp. hp;
  capacity = λ hp. 0;
  clear_heap = λ hp. hp;
}

abbrev amounts : List (ℕ × ℕ)
amounts = (1, 5) ∷ (5, 2) ∷ (9, 1) ∷ (1, 4) ∷ []

query_folded_example :
    folded_run low_bits no_heap 2 8 2 3 amounts 1
    ≡ ok (least_counter low_bits 8 (reverse_aux amounts []) 1 2 0 i64_max)
unfolding is_power_of_two trailing_zeros
query_folded_example =
    query_folded low_bits no_heap 2 8 2 3 refl refl amounts
      (omega arith, (omega arith, (omega arith, (omega arith, tt)))) 1

query-merge_same_level_example :
    (do
      a ← filled low_bits no_heap 2 8 2 3 amounts
      b ← filled low_bits no_heap 2 8 2 3 ((9, 6) ∷ (2, 8) ∷ [])
      merged ← merge_same_level low_bits no_heap a b
      query low_bits no_heap merged 1)
    ≡ folded_run low_bits no_heap 2 8 2 3 (amounts ++ (9, 6) ∷ (2, 8) ∷ []) 1
unfolding is_power_of_two trailing_zeros
query-merge_same_level_example =
    query-merge_same_level low_bits no_heap 2 8 2 3 refl refl amounts ((9, 6) ∷ (2, 8) ∷ [])
      (omega arith, (omega arith, (omega arith, (omega arith, tt))))
      (omega arith, (omega arith, tt)) 1
