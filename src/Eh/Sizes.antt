-- ===== src/Eh/Sizes.antt =====
-- Merging buckets loses no item, whether or not a sketch refuses a merge.
use asap_sketchlib.Prelude.{
  ℕ, zero, suc, ◌+◌, ◌-◌, ◌%◌, ◌^◌, ◌≤◌, ◌≡◌, refl, ◌∙◌, List, [], ◌∷◌, ◌++◌, ◌&&◌, Option, none,
  some, arith, ltb, ◌==◌, length, Returns, returns, Returns-bind, Returns-map, Returns-if,
}
use asap_sketchlib.Heap.Swaps.{index-Returns}
use asap_sketchlib.Eh.{
  EhBucket, ExponentialHistogram, drop_expired, merged_bucket, to_merge, join_first, merge_at_index,
  end_run, restart, l1_step, l1_loop, merge_volumes_l1, update_with,
}

-- the sum of the sizes of the buckets, modulo 2 ^ 64
unfoldable pub total_size : {S : Type 0} → List (EhBucket S) → ℕ
total_size [] = 0
total_size (b ∷ bs) = (b.size + total_size bs) % 2 ^ 64

total_size-push :
    {S : Type 0} (bs : List (EhBucket S)) (b : EhBucket S)
    → total_size (bs ++ b ∷ []) ≡ (total_size bs + b.size) % 2 ^ 64
unfolding total_size
total_size-push [] b = omega arith
total_size-push (c ∷ bs) b = omega (arith, total_size-push bs b)

module _ {S : Type 0} (merge : S → S → Option S) where
  -- The sizes of `old` add up to those of `new`, which has at least `n` buckets.
  abbrev Kept : ℕ → List (EhBucket S) → List (EhBucket S) → Type 0
  Kept n old new = (total_size new ≡ total_size old) × (n ≤ length new)

  join-Kept :
      (a b : EhBucket S) (rest : List (EhBucket S)) (o : Option S)
      → Kept 1 (a ∷ b ∷ rest) (join_first merge a b rest (merged_bucket merge a b o)).1
  unfolding join_first merged_bucket total_size
  join-Kept a b rest none = (refl, omega arith)
  join-Kept a b rest (some s) = (omega arith, omega arith)

  merge_at_index-Kept :
      (i : ℕ) (p : List (EhBucket S))
      → suc i ≤ length p
      → Kept (suc i) p (merge_at_index merge i p).1
  unfolding merge_at_index to_merge total_size
  merge_at_index-Kept i [] h = absurd (omega arith)
  merge_at_index-Kept i (a ∷ []) h = (refl, h)
  merge_at_index-Kept zero (a ∷ b ∷ rest) h = join-Kept a b rest (merge a.bucket b.bucket)
  merge_at_index-Kept (suc i) (a ∷ b ∷ rest) h =
      let q = merge_at_index-Kept i (b ∷ rest) (omega arith) in
      (omega (arith, q.0), omega (arith, q.1))

  end_run-Kept :
      (k i same : ℕ) (p : List (EhBucket S))
      → i + 2 ≤ length p
      → Kept (i + 2) p (end_run merge k i same p).1
  unfolding end_run
  end_run-Kept k i same p h = ground (arith, merge_at_index-Kept (suc i) p (omega arith))

  restart-Returns :
      (i : ℕ) (p : List (EhBucket S))
      → i + 2 ≤ length p
      → Returns (λ n. Unit {0}) (restart merge i p)
  unfolding restart
  restart-Returns i p h =
      Returns-if (ltb (suc i) (length p) && ltb 0 i)
        (λ yes_inspect.
          Returns-bind (index-Returns p (suc i) (omega arith))
            λ newer e. Returns-bind (index-Returns p i (omega arith)) λ older e'. returns tt)
        (λ no_inspect. returns tt)

  l1_step-Kept :
      (k i same : ℕ) (p : List (EhBucket S))
      → i + 2 ≤ length p
      → Returns (λ (accepted, same', p'). Kept (i + 2) p p') (l1_step merge k i same p)
  unfolding l1_step
  l1_step-Kept k i same p h =
      let q = end_run-Kept k i same p h in
      Returns-bind (index-Returns p i (omega arith)) λ older e.
        Returns-bind (index-Returns p (suc i) (omega arith)) λ newer e'.
          Returns-if (older.size == newer.size) (λ equal. returns (refl, h))
            (λ differ.
              Returns-if (end_run merge k i same p).0
                (λ accepted.
                  Returns-bind (restart-Returns i (end_run merge k i same p).1 q.1)
                    λ same' u. returns q)
                (λ refused. returns q))

  l1_loop-Kept :
      (k i same : ℕ) (p : List (EhBucket S))
      → i + 2 ≤ length p
      → Returns (λ (accepted, same', p'). Kept 2 p p') (l1_loop merge k i same p)
  unfolding l1_loop
  l1_loop-Kept k zero same p h =
      Returns-map (l1_step-Kept k 0 same p h) λ w q. (q.0, omega (arith, q.1))
  l1_loop-Kept k (suc i) same p h =
      Returns-bind (l1_step-Kept k (suc i) same p h) λ (accepted, same', p') q.
        Returns-if accepted
          (λ go_on.
            Returns-map (l1_loop-Kept k i same' p' (omega (arith, q.1))) λ w u. (u.0 ∙ q.0, u.1))
          (λ refused. returns (q.0, omega (arith, q.1)))

  volumes-Kept :
      (k : ℕ) (p : List (EhBucket S))
      → Returns (λ (accepted, p'). Kept 0 p p') (merge_volumes_l1 merge k p)
  unfolding merge_volumes_l1
  volumes-Kept k p =
      Returns-if (ltb (length p) 2) (λ few. returns (refl, omega arith))
        (λ many.
          Returns-bind (l1_loop-Kept k (length p - 2) 1 p (ground arith)) λ (accepted, same, p') q.
            returns (ground (arith, q, merge_at_index-Kept 0 p' (omega (arith, q.1)))))

  -- Under the L1 rule an update ends without a panic, whatever merges the sketch refuses, and the sizes
  -- of the buckets then add up to those of the buckets that had not expired, and one, modulo 2 ^ 64.
  pub update-total_size :
      (time : ℕ) (update_fn : S → S) (self : ExponentialHistogram S)
      → Returns
          (λ s.
            total_size s.payload
            ≡ (total_size (drop_expired (time - self.window) self.payload) + 1) % 2 ^ 64)
          (update_with merge time update_fn self)
  unfolding update_with
  update-total_size time update_fn self =
      let live = drop_expired (time - self.window) self.payload in
      let fresh : EhBucket S = record {
        bucket = update_fn self.type_to_clone;
        size = 1;
        min_time = time;
        max_time = time;
      } in
      Returns-bind (volumes-Kept self.k (live ++ fresh ∷ []))
        λ (accepted, p') q. returns (q.0 ∙ total_size-push live fresh)
