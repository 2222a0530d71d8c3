-- ===== src/Elastic/Stream.antt =====
-- A stream into an Elastic sketch, and an estimate after it.

use mathlib.Core.Logic.{ite}
use asap_sketchlib.Prelude.{
  ℕ, ◌+◌, ◌^◌, ◌<◌, ◌≤◌, ◌≡◌, inr, refl, ap, List, [], ◌∷◌, true, false, ◌&&◌, arith, ltb, Run, ok,
  ◌>>=◌, length, length-replicate, get_or-replicate, index-ok, for_each, reverse_aux, Returns,
  returns, Returns-bind, Returns-map, Returns-if,
}
use asap_sketchlib.Hasher.{SketchHasher}
use asap_sketchlib.Matrix.Counter.{i32_counter}
use asap_sketchlib.CountMin.Regular
use asap_sketchlib.CountMin.Stream.{with_dimensions-Sketches}
use asap_sketchlib.CountMin.Bounds.{total, count, total-reverse_aux, count-reverse_aux}
use asap_sketchlib.Elastic.{
  HeavyBucket, Elastic, add_i32, less_i32, is_vacant, new_bucket, bucket_index, stale_at,
  init_with_dimensions, insert_many, query,
}
use asap_sketchlib.Elastic.Light.{estimate-Bounds}
use asap_sketchlib.Elastic.Weights.{vote-le-weight, weight-replicate}
use asap_sketchlib.Elastic.Holds.{
  Holds, home, bucket_at, home-lt, on_yes, on_no, Grown, insert_at-Grown, Returns-ite,
}

module _ {K : Type 0} (h : SketchHasher K) (key_eq : Discrete K) (empty : K) (B R W : ℕ)
    (rows : 0 < R) (cols : 0 < W) (some_buckets : 0 < B) where
  abbrev Splits : List (K × ℕ) → List (K × ℕ) → Elastic K → Type 0
  Splits ws light s = Holds h key_eq empty B R W rows cols some_buckets ws light s

  abbrev at_home : K → ℕ
  at_home x = home h key_eq empty B R W rows cols some_buckets x

  abbrev bucket_of : List (HeavyBucket K) → ℕ → HeavyBucket K
  bucket_of heavy j = bucket_at h key_eq empty B R W rows cols some_buckets heavy j

  not_stale :
      (s : Elastic K) (idx : ℕ) → s.stale_copies ≡ false → stale_at h key_eq empty idx s ≡ ok false
  unfolding stale_at
  not_stale s idx e = rw e refl

  insert_many-Holds :
      (ws : List (K × ℕ)) (x : K) (w : ℕ) (s : Elastic K)
      → 0 < w
      → w + total ws < 2 ^ 31
      → (light : List (K × ℕ)) × Splits ws light s
      → Returns
          (λ t. (light : List (K × ℕ)) × Splits ((x, w) ∷ ws) light t)
          (insert_many h key_eq empty x w s)
  unfolding insert_many Grown
  insert_many-Holds ws x w s pos small (light, v) =
      let arrives : less_i32 0 w ≡ true = ground (arith, pos, small) in
      let same_bucket : bucket_index h key_eq empty s.bktlen x ≡ at_home x =
        ap (λ n. bucket_index h key_eq empty n x) v.width in
      rw (arrives, same_bucket, not_stale s (at_home x) v.no_copies)
        (insert_at-Grown h key_eq empty B R W rows cols some_buckets ws light s x w v pos small)

  -- Every weight of the stream is positive.
  abbrev pub ArePositive : List (K × ℕ) → Type 0
  ArePositive [] = Unit {0}
  ArePositive ((x, w) ∷ ws) = (0 < w) × ArePositive ws

  inserts-Holds :
      (done ws : List (K × ℕ)) (s : Elastic K)
      → ArePositive ws
      → total ws + total done < 2 ^ 31
      → (light : List (K × ℕ)) × Splits done light s
      → Returns
          (λ t. (light : List (K × ℕ)) × Splits (reverse_aux ws done) light t)
          (for_each ws (λ (x, w). insert_many h key_eq empty x w) s)
  unfolding for_each
  inserts-Holds done [] s p small v = returns v
  inserts-Holds done ((x, w) ∷ ws) s p small v =
      Returns-bind (insert_many-Holds done x w s p.0 (omega (arith, small)) v)
        λ t u. inserts-Holds ((x, w) ∷ done) ws t p.1 (omega (arith, small)) u

  share-le : (a y : K) (n : ℕ) → ite (key_eq a y) n 0 ≤ n
  share-le a y n = elim (key_eq a y) [
    | yes p ↦ omega (arith, on_yes h key_eq empty B R W rows cols some_buckets a y n p)
    | no p ↦ omega (arith, on_no h key_eq empty B R W rows cols some_buckets a y n p)
  ]

  fresh-Holds :
      B < 2 ^ 31
      → Returns
          (λ s. (light : List (K × ℕ)) × Splits [] light s)
          (init_with_dimensions h key_eq empty B R W)
  unfolding init_with_dimensions
  fresh-Holds few =
      let some : less_i32 0 B ≡ true = ground (arith, few, some_buckets) in
      let shape : (ltb 0 R && ltb 0 W) ≡ true = ground (arith, rows, cols) in
      let d : HeavyBucket K = new_bucket h key_eq empty in
      rw (some, shape)
        (Returns-bind (with_dimensions-Sketches i32_counter R W (Regular.column h W) cols) λ sk v.
          returns (
            [],
            record {
              sketch = v;
              size = length-replicate B d;
              width = refl;
              no_copies = refl;
              sums = omega (arith, weight-replicate B d refl);
              homed = λ j lt votes.
                  absurd (omega (arith, votes, ap (λ b. b.vote_pos) (get_or-replicate B j d)));
              parts =
                  λ x. rw (get_or-replicate B (at_home x) d) (omega (arith, share-le empty x 0));
              clean = λ x flag which. refl;
            },
          ))

  query-Bounds :
      (ws light : List (K × ℕ)) (s : Elastic K) (x : K)
      → total ws < 2 ^ 31
      → Splits ws light s
      → Returns (λ e. (count key_eq x ws ≤ e) × (e ≤ total ws)) (query h key_eq empty x s)
  unfolding query
  query-Bounds ws light s x small v =
      let inside : at_home x < length s.heavy =
        omega (arith, v.size, home-lt h key_eq empty B R W rows cols some_buckets x) in
      let b : HeavyBucket K = bucket_of s.heavy (at_home x) in
      let votes = vote-le-weight s.heavy (at_home x) (new_bucket h key_eq empty) inside in
      let part = v.parts x in
      let sums = v.sums in
      let estimate =
        estimate-Bounds key_eq h R W rows cols x light s.light (omega (arith, small, sums))
          v.sketch in
      rw (v.width, index-ok s.heavy (at_home x) (new_bucket h key_eq empty) inside)
        (Returns-if (is_vacant b)
          (λ vacant.
            let none : b.vote_pos ≡ 0 = ground (arith, vacant) in
            let nothing = share-le b.flow_id x b.vote_pos in
            Returns-map estimate λ e bounds.
              (omega (arith, none, nothing, part, bounds.0), omega (arith, sums, bounds.1)))
          (λ taken.
            Returns-ite (key_eq b.flow_id x)
              (λ same.
                Returns-if b.eviction
                  (λ flagged. Returns-bind estimate λ e bounds.
                    let exact : add_i32 b.vote_pos e ≡ b.vote_pos + e =
                      omega (arith, votes, sums, bounds.1, small) in
                    returns (
                      omega (
                        arith,
                        exact,
                        on_yes h key_eq empty B R W rows cols some_buckets b.flow_id x b.vote_pos
                            same,
                        part,
                        bounds.0,
                      ),
                      omega (arith, exact, votes, sums, bounds.1),
                    ))
                  (λ unflagged. returns (
                    omega (
                      arith,
                      on_yes h key_eq empty B R W rows cols some_buckets b.flow_id x b.vote_pos
                          same,
                      part,
                      v.clean x unflagged (inr same),
                    ),
                    omega (arith, votes, sums),
                  )))
              (λ other. Returns-map estimate λ e bounds. (
                omega (
                  arith,
                  on_no h key_eq empty B R W rows cols some_buckets b.flow_id x b.vote_pos other,
                  part,
                  bounds.0,
                ),
                omega (arith, sums, bounds.1),
              ))))

  -- a new sketch, a stream, an estimate
  abbrev pub elastic_run : List (K × ℕ) → K → Run ℕ
  elastic_run ws x = do
    s ← init_with_dimensions h key_eq empty B R W
    t ← for_each ws (λ (y, w). insert_many h key_eq empty y w) s
    query h key_eq empty x t

  -- A new sketch of at least one bucket, row and column, fewer than 2 ^ 31 buckets, takes every stream
  -- of positive weights that sum to less than 2 ^ 31 without a panic, and then its estimate of any flow,
  -- resident in its bucket or not, is at least the flow's weight and at most the weight of the stream.
  pub query-run-Bounds :
      (ws : List (K × ℕ)) (x : K)
      → B < 2 ^ 31
      → ArePositive ws
      → total ws < 2 ^ 31
      → Returns (λ e. (count key_eq x ws ≤ e) × (e ≤ total ws)) (elastic_run ws x)
  query-run-Bounds ws x few p small = Returns-bind (fresh-Holds few) λ s v.
      Returns-bind (inserts-Holds [] ws s p (omega (arith, small)) v) λ t (light, u).
        let sum = total-reverse_aux ws [] in
        let counted = count-reverse_aux key_eq x ws [] in
        Returns-map (query-Bounds (reverse_aux ws []) light t x (omega (arith, sum, small)) u)
          λ e bounds. (omega (arith, counted, bounds.0), omega (arith, sum, bounds.1))
