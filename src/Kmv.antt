-- ===== src/Kmv.antt =====
-- src/sketches/kmv.rs: the k smallest hashes of a stream, in a bounded heap that keeps the largest at
-- its root. The estimate is a float and is left out.
pub mod Smallest
use asap_sketchlib.Prelude.{
  ℕ, ◌≤◌, ◌≡◌, ◌∙◌, refl, List, [], ◌∷◌, Bool, true, false, arith, ltb, ◌==◌, if◌then◌else◌, Run,
  ok, ◌>>=◌, assert, for_each, length, Returns, returns, Returns-bind, Returns-if, Returns-for_each,
}
use asap_sketchlib.Hasher.{SketchHasher}
use asap_sketchlib.Heap.{CommonHeap, keep_largest, with_capacity, push}
use asap_sketchlib.Heap.Sift.{push-length}

pub record Kmv : Type 0 where
  pub k : ℕ
  pub k_vals : CommonHeap ℕ

unfoldable pub new : ℕ → Kmv
unfolding with_capacity
new k = record { k = k; k_vals = with_capacity k }

-- `iter().any(|value| *value == hash_value)`
unfoldable pub any_equal : ℕ → List ℕ → Bool
any_equal hash_value [] = false
any_equal hash_value (v ∷ vs) =
    let rest = any_equal hash_value vs in if v == hash_value then true else rest

unfoldable pub insert_by_hash : ℕ → Kmv → Run Kmv
unfolding any_equal
insert_by_hash hash_value self =
    let pushed =
      push (keep_largest ltb) hash_value self.k_vals >>= λ h. ok (record self { k_vals = h }) in
    if any_equal hash_value self.k_vals.slots then ok self else pushed

-- CANONICAL_HASH_SEED of common/hash.rs
abbrev pub canonical_hash_seed : ℕ
canonical_hash_seed = 5

unfoldable pub insert : {K : Type 0} → SketchHasher K → K → Kmv → Run Kmv
unfolding insert_by_hash
insert h item self = insert_by_hash (h.hash64_seeded canonical_hash_seed item) self

unfoldable pub merge : Kmv → Kmv → Run Kmv
unfolding insert_by_hash
merge self other = assert (self.k == other.k) (for_each other.k_vals.slots insert_by_hash self)

insert_by_hash-length :
    (k hash_value : ℕ) (s : Kmv)
    → (s.k ≡ k) × (s.k_vals.size ≡ k) × (length s.k_vals.slots ≤ k)
    → Returns
        (λ t. (t.k ≡ k) × (t.k_vals.size ≡ k) × (length t.k_vals.slots ≤ k))
        (insert_by_hash hash_value s)
unfolding insert_by_hash
insert_by_hash-length k hash_value s b =
    Returns-if (any_equal hash_value s.k_vals.slots) (λ known. returns b)
      (λ fresh.
        Returns-bind (push-length (keep_largest ltb) hash_value s.k_vals)
          λ h q. returns (b.0, q.0 ∙ b.1, ground (arith, b, q)))

-- From a new sketch of any k, 0 included, inserting any stream of hashes ends normally, and at most k
-- hashes are kept.
pub stream-length :
    (k : ℕ) (hashes : List ℕ)
    → Returns
        (λ s. (s.k ≡ k) × (s.k_vals.size ≡ k) × (length s.k_vals.slots ≤ k))
        (for_each hashes insert_by_hash (new k))
unfolding new with_capacity
stream-length k hashes =
    Returns-for_each (λ done s. (s.k ≡ k) × (s.k_vals.size ≡ k) × (length s.k_vals.slots ≤ k)) []
      hashes insert_by_hash (new k) (λ ys x t q. insert_by_hash-length k x t q)
      (refl, refl, omega arith)
