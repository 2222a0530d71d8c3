-- ===== src/Tests/Coco.antt =====
-- A table of two rows and three columns; ties go to the first bucket, and every draw elects.
use asap_sketchlib.Prelude.{
  ℕ, ◌+◌, ◌*◌, ◌≡◌, List, [], ◌∷◌, true, false, ◌==◌, arith, for_each, reverse_aux, Returns, ◌>>=◌,
}
use asap_sketchlib.Hasher.{SketchHasher}
use asap_sketchlib.Matrix.Hash.{packed64}
use asap_sketchlib.Coco.{Draws, init_with_size, insert}
use asap_sketchlib.Coco.Total.{total_val, total_weight, stream-total}

abbrev scattered : SketchHasher ℕ
scattered = record {
  hash64_seeded = λ seed x. x * 5 + seed;
  hash_for_matrix_seeded = λ seed rows cols x. packed64 x;
}

abbrev first_wins : Draws
first_wins = record { takes = λ row tied. false; elects = λ v val. true }

abbrev flows : List (ℕ × Draws × ℕ)
flows = (1, first_wins, 5) ∷ (4, first_wins, 2) ∷ (1, first_wins, 1) ∷ []

stream-total_example :
    Returns
      (λ s. total_val s.table ≡ total_weight (reverse_aux flows []))
      (init_with_size 3 2
        >>= for_each flows (λ (key, draws, v). insert (λ a b. a == b) scattered draws key v))
stream-total_example = stream-total (λ a b. a == b) scattered 3 2 (omega arith) (omega arith) flows
