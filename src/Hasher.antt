-- ===== src/Hasher.antt =====
-- src/common/hash.rs, the trait SketchHasher: a family of seeded 64-bit hashes, and one hash for all
-- the rows of a matrix. The sketches are generic over it, and so is the model. Its default
-- implementation calls the xxh3 of the crate twox-hash, which is not in the repository.
use asap_sketchlib.Prelude.{ℕ}
use asap_sketchlib.Matrix.Hash.{MatrixHashType}

pub record SketchHasher (K : Type 0) : Type 0 where
  pub hash64_seeded : ℕ → K → ℕ
  pub hash_for_matrix_seeded : ℕ → ℕ → ℕ → K → MatrixHashType
