-- ===== src/Tests/Bloom.antt =====
-- A Bloom filter of two slices on keys that are numbers.
use mathlib.Core.List.{mem-cons_self}
use asap_sketchlib.Prelude.{ℕ, ◌+◌, ◌*◌, ◌≡◌, List, [], ◌∷◌, ◌++◌, true, arith, ok, ◌>>=◌}
use asap_sketchlib.Hasher.{SketchHasher}
use asap_sketchlib.Matrix.Hash.{packed64}
use asap_sketchlib.Bloom.{with_dimensions, merge}
use asap_sketchlib.Bloom.Regular
use asap_sketchlib.Bloom.Fast
use asap_sketchlib.Bloom.Membership.{regular-no_false_negative, fast-no_false_negative}
use asap_sketchlib.Bloom.Merge.{regular-merge_union, fast-merge_union}

abbrev spread : SketchHasher ℕ
spread = record {
  hash64_seeded = λ seed x. x * 7 + seed;
  hash_for_matrix_seeded = λ seed rows cols x. packed64 (x + 128 * x);
}

abbrev keys : List ℕ
keys = 3 ∷ 77 ∷ 3 ∷ []

regular-no_false_negative_example :
    (do
      empty ← with_dimensions 2 70
      full ← Regular.bulk_insert spread keys empty
      Regular.contains spread full 3)
    ≡ ok true
regular-no_false_negative_example =
    regular-no_false_negative spread 2 70 (omega arith) (omega arith) (omega arith) keys 3
      mem-cons_self

fast-no_false_negative_example :
    (do
      empty ← with_dimensions 2 70
      full ← Fast.bulk_insert spread keys empty
      Fast.contains spread full 3)
    ≡ ok true
fast-no_false_negative_example =
    fast-no_false_negative spread 2 70 (omega arith) (omega arith) (λ v. omega arith) (omega arith)
      keys 3 mem-cons_self

regular-merge_union_example :
    (do
      empty ← with_dimensions 2 70
      a ← Regular.bulk_insert spread keys empty
      b ← Regular.bulk_insert spread (5 ∷ []) empty
      merge a b)
    ≡ (with_dimensions 2 70 >>= Regular.bulk_insert spread (keys ++ 5 ∷ []))
regular-merge_union_example =
    regular-merge_union spread 2 70 (omega arith) (omega arith) (omega arith) keys (5 ∷ [])

fast-merge_union_example :
    (do
      empty ← with_dimensions 2 70
      a ← Fast.bulk_insert spread keys empty
      b ← Fast.bulk_insert spread (5 ∷ []) empty
      merge a b)
    ≡ (with_dimensions 2 70 >>= Fast.bulk_insert spread (keys ++ 5 ∷ []))
fast-merge_union_example =
    fast-merge_union spread 2 70 (omega arith) (omega arith) (omega arith) (λ v. omega arith) keys
      (5 ∷ [])
