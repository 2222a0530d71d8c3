-- ===== src/Matrix.antt =====
-- Matrix-backed counters: the hash of a key for a whole matrix (src/common/structures/
-- matrix_storage.rs) and the flat row-major grid (src/common/structures/vector2d.rs).
pub mod Hash
pub mod Word
pub mod Counter
pub mod Vector2d
pub mod Cells
