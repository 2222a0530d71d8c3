-- ===== src/CmsHeap/Merge.antt =====
-- A merge of two top-k sketches, over i64 counters.
use asap_sketchlib.Prelude.{
  ℕ, ◌+◌, ◌^◌, ◌<◌, ◌≡◌, ◌∙◌, List, [], ◌∷◌, ◌++◌, map, arith, ok, ◌>>=◌, for_each, reverse_aux,
  Returns, returns, Returns-bind,
}
use asap_sketchlib.Hasher.{SketchHasher}
use asap_sketchlib.Matrix.Counter.{i64_counter, i64-IsAdditive}
use asap_sketchlib.CountMin.Regular
use asap_sketchlib.CountMin.Merge.{merge-Sketches}
use asap_sketchlib.CountMin.Bounds.{count, total, total-reverse_aux, count-reverse_aux}
use asap_sketchlib.HhHeap
use asap_sketchlib.HhHeap.{KeyOps}
use asap_sketchlib.HhHeap.InStep.{IsInStep, clear-IsInStep}
use asap_sketchlib.CmsHeap.Top.{IsKeyEquality, Reports, fresh-Before, empty-Reports, Reports-same}
use asap_sketchlib.CmsHeap.Stream.{
  Tracks, Tops, refresh-Tops, filled, filled-Tops, occurs-reverse_aux,
}
use asap_sketchlib.CmsHeap.{CmsHeap, refresh, merge}

total-append : {K : Type 0} (xs ys : List (K × ℕ)) → total (xs ++ ys) ≡ total xs + total ys
total-append [] ys = omega arith
total-append ((x, w) ∷ xs) ys = omega (arith, total-append xs ys)

count-append :
    {K : Type 0} (key_eq : Discrete K) (x : K) (xs ys : List (K × ℕ))
    → count key_eq x (xs ++ ys) ≡ count key_eq x xs + count key_eq x ys
count-append key_eq x [] ys = omega arith
count-append key_eq x ((y, w) ∷ xs) ys = ground (arith, count-append key_eq x xs ys)

-- the keys of the heap
abbrev pub held : {K : Type 0} → CmsHeap K ℕ → List K
held s = map (λ item. item.key) s.heap.heap.slots

module _ {K : Type 0} (key_eq : Discrete K) (h : SketchHasher K) (keys : KeyOps K) (R W k : ℕ)
    (rows : 0 < R) (cols : 0 < W) where
  refreshes-Tops :
      (ws : List (K × ℕ)) (todo seen : List K) (s : CmsHeap K ℕ)
      → IsKeyEquality keys
      → total ws < 2 ^ 63
      → Tops key_eq h keys R W k rows cols ws seen s
      → Returns
          (Tops key_eq h keys R W k rows cols ws (reverse_aux todo seen))
          (for_each todo (refresh i64_counter (λ c. c) h keys) s)
  unfolding for_each
  refreshes-Tops ws [] seen s law small t = returns t
  refreshes-Tops ws (x ∷ todo) seen s law small (v, r) =
      Returns-bind
        (refresh-Tops key_eq h keys R W k rows cols ws seen x s law small v
          (fresh-Before key_eq keys x ws seen k s.heap.heap.slots r))
        λ s' t. refreshes-Tops ws todo (x ∷ seen) s' law small t

  merge-Tops :
      (xs ys : List (K × ℕ)) (a b : CmsHeap K ℕ)
      → IsKeyEquality keys
      → total (ys ++ xs) < 2 ^ 63
      → Tracks key_eq h keys R W k rows cols xs a
      → Tracks key_eq h keys R W k rows cols ys b
      → Returns
          (Tops key_eq h keys R W k rows cols (ys ++ xs) (reverse_aux (held a ++ held b) []))
          (merge i64_counter (λ c. c) h keys a b)
  unfolding merge HhHeap.clear
  merge-Tops xs ys a b law small u v =
      Returns-bind
        (merge-Sketches i64_counter i64-IsAdditive (Regular.column h W) R W xs ys a.cms b.cms
          u.sketch v.sketch)
        λ cms sk.
          let cleared = clear-IsInStep keys a.heap u.in_step in
          refreshes-Tops (ys ++ xs) (held a ++ held b) [] _ law small (
            record { sketch = sk; in_step = cleared.0; capacity = cleared.1 ∙ u.capacity },
            empty-Reports key_eq keys (ys ++ xs) k,
          )

  -- Two top-k sketches over i64 counters made alike, of at least one row and column, with heaps of any
  -- capacity k and keys whose test for equality is sound and reflexive, are filled with streams whose
  -- weights sum to less than 2 ^ 63 together, and merged. No call panics. The index of the merged heap is
  -- in step with its items, no key has two items, the count of each item is at least the weight of
  -- its key in both streams and at most the weight of both, only keys that one of the two heaps held have
  -- items, and all of them do unless the merged heap holds k items.
  pub merge-Reports :
      (xs ys : List (K × ℕ))
      → IsKeyEquality keys
      → total xs + total ys < 2 ^ 63
      → Returns
          (λ (a, b, m).
            IsInStep keys m.heap
            × (m.heap.k ≡ k)
            × Reports key_eq keys (xs ++ ys) (held a ++ held b) k m.heap.heap.slots)
          (do
            a ← filled key_eq h keys R W k rows cols xs
            b ← filled key_eq h keys R W k rows cols ys
            m ← merge i64_counter (λ c. c) h keys a b
            ok (a, b, m))
  merge-Reports xs ys law small =
      Returns-bind (filled-Tops key_eq h keys R W k rows cols xs law (omega (arith, small)))
        λ a (u, ra).
          Returns-bind (filled-Tops key_eq h keys R W k rows cols ys law (omega (arith, small)))
            λ b (v, rb).
              let old : List (K × ℕ) = reverse_aux xs [] in
              let recent : List (K × ℕ) = reverse_aux ys [] in
              let sum_xs = total-reverse_aux xs [] in
              let sum_ys = total-reverse_aux ys [] in
              Returns-bind
                (merge-Tops old recent a b law
                  (omega (arith, small, total-append recent old, sum_xs, sum_ys)) u v)
                λ m (t, r). returns (
                  t.in_step,
                  t.capacity,
                  Reports-same key_eq keys (recent ++ old) (xs ++ ys) _ (held a ++ held b) k
                      m.heap.heap.slots
                      (λ y. omega (
                        arith,
                        count-append key_eq y recent old,
                        count-append key_eq y xs ys,
                        count-reverse_aux key_eq y xs [],
                        count-reverse_aux key_eq y ys [],
                      ))
                      (omega (arith, total-append recent old, total-append xs ys, sum_xs, sum_ys))
                      (λ y.
                        omega
                          (arith, occurs-reverse_aux (λ z. keys.equal z y) (held a ++ held b) []))
                      r,
                )
