-- ===== src/Coco/Total.antt =====
-- No weight is lost: the values of all buckets add up to what was inserted.
use native.Mathlib.Nat.{mod-lt}
use asap_sketchlib.Prelude.{
  ℕ, zero, suc, ◌+◌, ◌*◌, ◌%◌, ◌^◌, ◌<◌, ◌≤◌, ◌≡◌, refl, ap, ◌∙◌, List, [], ◌∷◌, Bool, false, ◌||◌,
  none, arith, ◌==◌, ok, index, set, for_each, length, length-set, replicate, length-replicate,
  Returns, returns, Returns-bind, Returns-map, Returns-if, Returns-for_each, reverse_aux,
  Returns-assert, lt→ltb, ltb, ◌>>=◌,
}
use asap_sketchlib.Hasher.{SketchHasher}
use asap_sketchlib.Matrix.Cells.{index-lt}
use asap_sketchlib.Coco.{
  CocoBucket, Coco, Draws, Victim, Scan, no_victim, consider, init_with_size, add_v, update_key,
  holds, scan, change_bucket, elect, write_at, insert,
}

-- the sum of the values, modulo 2 ^ 64
unfoldable pub total_val : {K : Type 0} → List (CocoBucket K) → ℕ
total_val [] = 0
total_val (b ∷ bs) = (b.val + total_val bs) % 2 ^ 64

-- the sum of the weights of a stream, modulo 2 ^ 64
unfoldable pub total_weight : {K : Type 0} → List (K × Draws × ℕ) → ℕ
total_weight [] = 0
total_weight ((k, draws, v) ∷ xs) = (v + total_weight xs) % 2 ^ 64

-- A read, and what the total becomes when the value read grows by `v`.
index-total :
    {K : Type 0} (table : List (CocoBucket K)) (i : ℕ)
    → i < length table
    → Returns
        (λ b.
          (index table i ≡ ok b)
          × ((b' : CocoBucket K) (v : ℕ)
              → b'.val ≡ (b.val + v) % 2 ^ 64
              → total_val (set table i b') ≡ (v + total_val table) % 2 ^ 64))
        (index table i)
unfolding total_val
index-total [] i h = absurd (omega arith)
index-total (b ∷ table) zero h = returns (refl, λ b' v e. omega (arith, e))
index-total (b ∷ table) (suc i) h =
    Returns-map (index-total table i (omega arith))
      λ c q. (q.0, λ b' v e. omega (arith, q.1 b' v e))

-- a table of `d` rows and `w` columns, whose values add up to `total`
abbrev pub Holds : {K : Type 0} → ℕ → ℕ → ℕ → Coco K → Type 0
Holds w d total s = (s.w ≡ w) × (s.d ≡ d) × (length s.table ≡ d * w) × (total_val s.table ≡ total)

total-replicate :
    (K : Type 0) (n : ℕ) → total_val {K = K} (replicate n (record { full_key = none; val = 0 })) ≡ 0
unfolding total_val
total-replicate K zero = refl
total-replicate K (suc n) = omega (arith, total-replicate K n)

module _ {K : Type 0} (same : K → K → Bool) (h : SketchHasher K) (w d : ℕ) (wide : 0 < w)
    (deep : 0 < d) where
  -- where the scan ends is inside the table
  abbrev Inside : Scan → Type 0
  Inside (Scan.matched row col) = (row < d) × (col < w)
  Inside (Scan.no_match best) = (best.row < d) × (best.col < w)

  consider-Inside :
      (draws : Draws) (row col val : ℕ) (best : Victim)
      → row < d
      → col < w
      → Inside (Scan.no_match best)
      → Inside (Scan.no_match (consider draws row col val best))
  unfolding consider
  consider-Inside draws row col val best a b c = ground (arith, c)

  scan-Inside :
      (draws : Draws) (key : K) (s : Coco K) (total n i : ℕ) (best : Victim)
      → Holds w d total s
      → i + n ≤ d
      → Inside (Scan.no_match best)
      → Returns Inside (scan same h draws key s n i best)
  unfolding scan
  scan-Inside draws key s total zero i best k le b = returns b
  scan-Inside draws key s total (suc n) i best k le b =
      let col : h.hash64_seeded i key % s.w < w = rw k.0 (mod-lt (h.hash64_seeded i key) wide) in
      let inside : i * s.w + h.hash64_seeded i key % s.w < length s.table = omega (
        arith,
        k,
        ap (λ z. i * z) k.0,
        index-lt i (h.hash64_seeded i key % s.w) d w (omega arith) col,
      ) in
      Returns-bind (index-total s.table (i * s.w + h.hash64_seeded i key % s.w) inside) λ bucket q.
        Returns-if (holds same h key bucket.full_key) (λ yes_key. returns (omega arith, col))
          (λ no_key.
            scan-Inside draws key s total n (suc i) _ k (omega arith)
              (consider-Inside draws i _ bucket.val best (omega arith) col b))

  change_bucket-Holds :
      (row col v total : ℕ) (change : CocoBucket K → CocoBucket K) (s : Coco K)
      → ((b : CocoBucket K) → (change b).val ≡ (b.val + v) % 2 ^ 64)
      → row < d
      → col < w
      → Holds w d total s
      → Returns (Holds w d ((v + total) % 2 ^ 64)) (change_bucket same h row col change s)
  unfolding change_bucket
  change_bucket-Holds row col v total change s grows lr lc k =
      let inside : row * s.w + col < length s.table =
        omega (arith, k, ap (λ z. row * z) k.0, index-lt row col d w lr lc) in
      Returns-bind (index-total s.table (row * s.w + col) inside) λ bucket q. rw q.0 (
        returns (
          k.0,
          k.1,
          length-set s.table (row * s.w + col) (change bucket) ∙ k.2,
          omega (arith, q.1 (change bucket) v (grows bucket), k.3),
        ))

  insert-Holds :
      (draws : Draws) (key : K) (v total : ℕ) (s : Coco K)
      → Holds w d total s
      → Returns (Holds w d ((v + total) % 2 ^ 64)) (insert same h draws key v s)
  unfolding insert write_at add_v update_key
  insert-Holds draws key v total s k =
      let used : ((s.d == 0) || (s.w == 0)) ≡ false = ground (arith, k) in
      rw used (
        Returns-bind
          (scan-Inside draws key s total s.d 0 no_victim k (omega (arith, k)) (deep, wide))
          λ found inside.
            elim found
                as (λ f.
                  Inside f
                  → Returns (Holds w d ((v + total) % 2 ^ 64)) (write_at same h draws key v s f)) [
                    | Scan.matched row col ↦
                        λ i. change_bucket-Holds row col v total (add_v v) s (λ b. refl) i.0 i.1 k
                    | Scan.no_match best ↦ λ i.
                        change_bucket-Holds best.row best.col v total (elect same h draws key v) s
                          (λ b. ground arith) i.0 i.1 k
                  ]
              inside)

  new-Holds : Returns (Holds w d 0) (init_with_size {K = K} w d)
  unfolding init_with_size total_val
  new-Holds =
      Returns-assert (ltb 0 w) (lt→ltb _ _ wide)
        (returns (refl, refl, length-replicate (d * w) _, total-replicate K (d * w)))

-- A sketch of positive width and depth, filled with any stream of keys and weights, whatever is drawn:
-- no call panics, and the values of all buckets add up to the weights of the stream, modulo 2 ^ 64.
pub stream-total :
    {K : Type 0} (same : K → K → Bool) (h : SketchHasher K) (w d : ℕ)
    → 0 < w
    → 0 < d
    → (stream : List (K × Draws × ℕ))
    → Returns
        (λ s. total_val s.table ≡ total_weight (reverse_aux stream []))
        (init_with_size w d >>= for_each stream (λ (key, draws, v). insert same h draws key v))
unfolding total_weight
stream-total same h w d wide deep stream = Returns-bind (new-Holds same h w d wide deep) λ s start.
    Returns-map
      (Returns-for_each (λ done s. Holds w d (total_weight done) s) [] stream _ s
        (λ ys (key, draws, v) t k.
          insert-Holds same h w d wide deep draws key v (total_weight ys) t k)
        start)
      λ s k. k.3
