-- ===== src/Lib.antt =====
-- A model of the sketches of asap_sketchlib, a Rust library of mergeable summaries of streams, and the
-- theorems that its users rely on: what an estimate can be off by, that merging two summaries is
-- summarising both streams, that no member is ever denied, that loops end and no call panics.
--
-- The parts, the files that model them and the sources (paths from the repository's root):
-- - Prelude (and below): how a call ends, a value, a panic or, in the model alone, spent fuel; vectors
--   with Rust's indexing; Boolean tests; powers of two.
-- - Hasher: the trait SketchHasher of src/common/hash.rs, an interface of every sketch. Its default calls
--   xxh3 of the crate twox-hash; the theorems hold for every family of hashes.
-- - Matrix.Hash, Matrix.Word: src/common/structures/matrix_storage.rs, how one hash is cut into a column
--   and a sign for each row (`row_hash`, `col_for_row`, `assert_compatible`).
-- - Matrix.Counter, Matrix.Vector2d, Matrix.Cells: the trait bounds on counters, the grid of
--   src/common/structures/vector2d.rs, and what a write changes in it.
-- - CountMin: src/sketches/countminsketch.rs. Regular and Fast are its two ways of hashing, under the
--   method names of the source; Emit is the worker of OctoSketch. Tally, Stream, Merge, Concat, Bounds,
--   Promotion and Aggregate hold the proofs.
-- - Hll: src/sketches/hll.rs, the registers at any precision; Delta is its OctoSketch worker and
--   aggregator. Rank, Registers, Lag and Aggregate hold the proofs.
-- - BitMatrix and Bloom: src/common/structures/bit_matrix.rs and src/sketches/bloom.rs. BitMatrix.set is
--   `set_bit` here. Bloom.Regular and Bloom.Fast are the two paths; Slices, Membership and Merge the
--   proofs.
-- - FoldCms: src/sketches/fold_cms.rs, its cells (Cell, CellLaws) and the sketch, which uses the heap of
--   src/common/heap.rs through the interface HeapOps. Folding, Levels, Tidy, Counts and Merge hold the
--   proofs.
-- - Tumbling: src/sketch_framework/tumbling.rs over any sketch, through the interface SketchOps. Pool and
--   Window hold the proofs.
-- - Heap, Kmv: src/common/structures/heap.rs and src/sketches/kmv.rs on top of it. Heap.Swaps, Sift,
--   Order, Restore, Items and Push and Kmv.Smallest hold the proofs.
-- - HhHeap: src/common/heap.rs, the heap of heavy hitters with its index from digests to slots; a closure
--   of the source that can panic acts on a Run here. Buckets, Placed, Found,
--   InStep, Rebuild and Contents hold the proofs (Partial joins two of them).
-- - CmsHeap: src/sketches/countminsketch_topk.rs on the regular path, CountMin with HhHeap. Top,
--   Stream and Merge hold the proofs.
-- - Elastic: src/sketches/elastic.rs over CountMin with i32 counters. Light, Weights, Holds and Stream hold
--   the proofs.
-- - Microscope: src/sketches/microscope/cell.rs, a cell as a list of bytes. Params, Rounding, Cell and
--   Merge are the code (`unbiased_div` stands for `unbiased_div_u64` too, `seed_state` for `Rounding::new`);
--   Zoom, Bytes, Credit, Insert, ZoomIn, Enter, Validate, Sums and Union hold the proofs.
-- - Coco: src/sketches/coco.rs, whose random draws are arguments. Octo: the shared threshold of
--   src/sketches/octo_delta.rs.
-- - Eh: src/sketch_framework/eh.rs under its L1 rule, over any sketch whose merge may be refused; Sizes
--   holds the proofs.
-- - Tests: each theorem that has conditions, at an input that meets them.
--
-- How the code is read. A method on `&mut self` returns the new state in Run. An index out of bounds, a
-- failed assertion and a division that Rust checks are panics. Arithmetic is that of a release build:
-- sums of machine integers wrap at their width, a shift takes its amount modulo the width, and an i64 is
-- its bit pattern, compared after the sign bit is turned around. A mask by one less than a power of two
-- is a remainder. In Microscope a power or a difference of u64 that would overflow is a panic, as in a
-- build with overflow checks. A type parameter of a sketch is a parameter here, and a trait a record of operations.
--
-- Fuel. `ilog2` has its argument as fuel, `bubble_up_with` one more than the index, which decreases, and
-- `bubble_down_with` the length, below which the index increases. The loop of a tumbling window takes its
-- fuel as an argument. In Microscope an insertion has one more than what is pending, of which each pass
-- takes a unit, and a zoom changes by one in each pass up to the greatest, below 32. Theorems about these calls say that they return, so that the fuel is enough.
--
-- Not modelled: estimators, sizes and medians that are floats (HyperLogLog's and KMV's estimates, Bloom's
-- sizing, Microscope's scaled pixels), the L2 rule of the exponential histogram, the Nitro sampling mode of the grid, serde and the wire formats, threads and channels of the
-- OctoSketch runtime, and the sketches that have no module here. The hierarchical queries of tumbling
-- windows and the merges and compression of Elastic are left out too. In OctoThreshold the read and the
-- write of an update are one step.
pub mod BitMatrix
pub mod Bloom
pub mod CmsHeap
pub mod Coco
pub mod CountMin
pub mod Eh
pub mod Elastic
pub mod FoldCms
pub mod Hasher
pub mod Heap
pub mod HhHeap
pub mod Hll
pub mod Kmv
pub mod Matrix
pub mod Microscope
pub mod Octo
pub mod Prelude
pub mod Tumbling
mod Tests
