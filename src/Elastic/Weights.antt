-- ===== src/Elastic/Weights.antt =====
-- The votes of all buckets together.
use asap_sketchlib.Prelude.{
  ℕ, zero, suc, ◌+◌, ◌<◌, ◌≤◌, ◌≡◌, refl, List, [], ◌∷◌, arith, length, get_or, set, replicate,
}
use asap_sketchlib.Elastic.{HeavyBucket}

module _ {K : Type 0} where
  abbrev pub weight : List (HeavyBucket K) → ℕ
  weight [] = 0
  weight (bucket ∷ heavy) = bucket.vote_pos + weight heavy

  pub weight-set :
      (heavy : List (HeavyBucket K)) (i : ℕ) (b d : HeavyBucket K)
      → i < length heavy
      → weight (set heavy i b) + (get_or heavy i d).vote_pos ≡ weight heavy + b.vote_pos
  weight-set [] i b d lt = absurd (omega arith)
  weight-set (x ∷ heavy) zero b d lt = omega arith
  weight-set (x ∷ heavy) (suc i) b d lt = omega (arith, weight-set heavy i b d (omega arith))

  pub vote-le-weight :
      (heavy : List (HeavyBucket K)) (i : ℕ) (d : HeavyBucket K)
      → i < length heavy
      → (get_or heavy i d).vote_pos ≤ weight heavy
  vote-le-weight [] i d lt = absurd (omega arith)
  vote-le-weight (x ∷ heavy) zero d lt = omega arith
  vote-le-weight (x ∷ heavy) (suc i) d lt = omega (arith, vote-le-weight heavy i d (omega arith))

  pub weight-replicate : (n : ℕ) (b : HeavyBucket K) → b.vote_pos ≡ 0 → weight (replicate n b) ≡ 0
  weight-replicate zero b e = refl
  weight-replicate (suc n) b e = omega (arith, e, weight-replicate n b e)
