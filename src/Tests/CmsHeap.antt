-- ===== src/Tests/CmsHeap.antt =====
-- A top-k sketch with a heap of two keys that are numbers.
use native.Mathlib.Decide.{ℕ_discrete}
use asap_sketchlib.Prelude.{
  ℕ, ◌+◌, ◌%◌, ◌≡◌, List, [], ◌∷◌, ◌++◌, map, ◌==◌, ==→eq, ==_refl, arith, ok, ◌>>=◌, Returns,
}
use asap_sketchlib.Hasher.{SketchHasher}
use asap_sketchlib.Matrix.Counter.{i64_counter}
use asap_sketchlib.Matrix.Hash.{packed64}
use asap_sketchlib.HhHeap.{KeyOps}
use asap_sketchlib.HhHeap.InStep.{IsInStep}
use asap_sketchlib.CmsHeap.{merge}
use asap_sketchlib.CmsHeap.Top.{IsKeyEquality, Reports}
use asap_sketchlib.CmsHeap.Stream.{filled, stream-Reports}
use asap_sketchlib.CmsHeap.Merge.{held, merge-Reports}

abbrev adding : SketchHasher ℕ
adding = record {
  hash64_seeded = λ seed x. x + seed;
  hash_for_matrix_seeded = λ seed rows cols x. packed64 x;
}

abbrev parity : KeyOps ℕ
parity = record { digest = λ key. key % 2; equal = λ a b. a == b }

parity-IsKeyEquality : IsKeyEquality parity
parity-IsKeyEquality = record { sound = λ a b e. ==→eq a b e; reflexive = λ a. ==_refl a }

abbrev morning : List (ℕ × ℕ)
morning = (4, 7) ∷ (6, 2) ∷ (4, 9) ∷ (8, 3) ∷ []

abbrev evening : List (ℕ × ℕ)
evening = (6, 20) ∷ (1, 1) ∷ []

stream-Reports_example :
    Returns
      (λ s.
        IsInStep parity s.heap
        × (s.heap.k ≡ 2)
        × Reports ℕ_discrete parity morning (map (λ p. p.0) morning) 2 s.heap.heap.slots)
      (filled ℕ_discrete adding parity 2 4 2 (omega arith) (omega arith) morning)
stream-Reports_example =
    stream-Reports ℕ_discrete adding parity 2 4 2 (omega arith) (omega arith) morning
      parity-IsKeyEquality (omega arith)

merge-Reports_example :
    Returns
      (λ (a, b, m).
        IsInStep parity m.heap
        × (m.heap.k ≡ 2)
        × Reports ℕ_discrete parity (morning ++ evening) (held a ++ held b) 2 m.heap.heap.slots)
      (do
        a ← filled ℕ_discrete adding parity 2 4 2 (omega arith) (omega arith) morning
        b ← filled ℕ_discrete adding parity 2 4 2 (omega arith) (omega arith) evening
        m ← merge i64_counter (λ c. c) adding parity a b
        ok (a, b, m))
merge-Reports_example =
    merge-Reports ℕ_discrete adding parity 2 4 2 (omega arith) (omega arith) morning evening
      parity-IsKeyEquality (omega arith)
