-- ===== src/FoldCms.antt =====
-- src/sketches/fold_cms.rs: a Count-Min sketch folded to a narrower grid. Keys are the arguments of a
-- hasher; the heap of heavy hitters (common/heap.rs) is reached through its operations.
pub mod Cell
pub mod CellLaws
pub mod Tidy
pub mod Counts
pub mod Folding
pub mod Levels
pub mod Merge
use asap_sketchlib.Prelude.{
  ℕ, zero, suc, ◌+◌, ◌-◌, ◌*◌, ◌/◌, ◌%◌, ◌^◌, max, List, [], ◌∷◌, map, Bool, ltb, leb, ◌==◌,
  if◌then◌else◌, Run, ok, panic, ◌>>=◌, assert, index, store, for_range, for_each, length,
  replicate,
}
use asap_sketchlib.Hasher.{SketchHasher}
use asap_sketchlib.Matrix.Counter.{signed_less}
use asap_sketchlib.Matrix.Hash.{is_power_of_two}
use asap_sketchlib.FoldCms.Cell.{
  FoldEntry, FoldCell, wrapping_add, insert_cell, query_cell, iter, merge_from, entry_count,
}

-- What the sketch asks of its heap of heavy hitters.
pub record HeapOps (K Heap : Type 0) : Type 0 where
  pub new_heap : ℕ → Heap
  pub update : K → ℕ → Heap → Heap
  pub items : Heap → List K
  pub capacity : Heap → ℕ
  pub clear_heap : Heap → Heap

pub record FoldCms (Heap : Type 0) : Type 0 where
  pub rows : ℕ
  pub fold_cols : ℕ
  pub full_cols : ℕ
  pub fold_level : ℕ
  pub cells : List FoldCell
  pub heap : Heap

-- `usize::trailing_zeros`, over `f` bits
unfoldable pub trailing_zeros : ℕ → ℕ → ℕ
trailing_zeros zero n = 0
trailing_zeros (suc f) n =
    let rest = suc (trailing_zeros f (n / 2)) in if n % 2 == 0 then rest else 0

-- `i64::MAX`
abbrev pub i64_max : ℕ
i64_max = 2 ^ 63 - 1

unfoldable pub total_entries : List FoldCell → ℕ
total_entries [] = 0
total_entries (c ∷ cs) = entry_count c + total_entries cs

unfoldable pub collided_cells : List FoldCell → ℕ
collided_cells [] = 0
collided_cells (c ∷ cs) =
    let rest = collided_cells cs in if ltb 1 (entry_count c) then suc rest else rest

module _ {K Heap : Type 0} (heap : HeapOps K Heap) where
  abbrev pub blank : ℕ → ℕ → ℕ → ℕ → ℕ → FoldCms Heap
  blank rows fold_cols full_cols fold_level top_k = record {
    rows = rows;
    fold_cols = fold_cols;
    full_cols = full_cols;
    fold_level = fold_level;
    cells = replicate (rows * fold_cols) FoldCell.empty;
    heap = heap.new_heap top_k;
  }

  unfoldable pub new : ℕ → ℕ → ℕ → ℕ → Run (FoldCms Heap)
  new rows full_cols fold_level top_k = assert (is_power_of_two full_cols) (
      assert (leb fold_level (trailing_zeros 64 full_cols))
        (ok (blank rows (full_cols / 2 ^ fold_level) full_cols fold_level top_k)))

  unfoldable pub new_full : ℕ → ℕ → ℕ → Run (FoldCms Heap)
  unfolding new
  new_full rows full_cols top_k = new rows full_cols 0 top_k

  unfoldable pub clear : FoldCms Heap → FoldCms Heap
  clear self = record self {
    cells = map (λ c. FoldCell.empty) self.cells;
    heap = heap.clear_heap self.heap;
  }

-- `as u16` keeps the lowest 16 bits of the column
unfoldable pub full_col_for : {K : Type 0} → SketchHasher K → ℕ → ℕ → K → ℕ
full_col_for h full_cols row key = h.hash64_seeded row key % 2 ^ 32 % full_cols % 2 ^ 16

-- `& (fold_cols - 1)`; the number of folded columns is a power of two
abbrev pub fold_col_of : ℕ → ℕ → ℕ
fold_col_of fold_cols full_col = full_col % fold_cols

unfoldable pub scatter_into : {Heap : Type 0} → FoldCms Heap → FoldCms Heap → Run (FoldCms Heap)
scatter_into self target =
    for_range self.rows 0
      (λ r t.
        for_range self.fold_cols 0
          (λ c t'. do
            cell ← index self.cells (r * self.fold_cols + c)
            for_each (iter cell)
                (λ e t''. do
                  let i = r * target.fold_cols + fold_col_of target.fold_cols e.full_col
                  old ← index t''.cells i
                  cells ← store t''.cells i (insert_cell e.full_col e.count old)
                  ok (record t'' { cells = cells }))
                t')
          t)
      target

unfoldable pub to_flat_counters : {Heap : Type 0} → FoldCms Heap → Run (List ℕ)
to_flat_counters self =
    for_range self.rows 0
      (λ r t.
        for_range self.fold_cols 0
          (λ c t'. do
            cell ← index self.cells (r * self.fold_cols + c)
            for_each (iter cell)
                (λ e out. do
                  old ← index out (r * self.full_cols + e.full_col)
                  store out (r * self.full_cols + e.full_col) (wrapping_add old e.count))
                t')
          t)
      (replicate (self.rows * self.full_cols) 0)

module _ {K Heap : Type 0} (h : SketchHasher K) (heap : HeapOps K Heap) where
  unfoldable pub query : FoldCms Heap → K → Run ℕ
  query self key =
      for_range self.rows 0
        (λ r min_count. do
          let full_col = full_col_for h self.full_cols r key
          cell ← index self.cells (r * self.fold_cols + fold_col_of self.fold_cols full_col)
          let row_count = query_cell full_col cell
          ok (if signed_less (2 ^ 63) row_count min_count then row_count else min_count))
        i64_max

  unfoldable pub insert : K → ℕ → FoldCms Heap → Run (FoldCms Heap)
  insert key delta self = do
    cells ←
        for_range self.rows 0
          (λ r t. do
            let full_col = full_col_for h self.full_cols r key
            let i = r * self.fold_cols + fold_col_of self.fold_cols full_col
            old ← index t i
            store t i (insert_cell full_col delta old))
          self.cells
    est ← query (record self { cells = cells }) key
    ok (record self { cells = cells; heap = heap.update key est self.heap })

  unfoldable pub insert_one : K → FoldCms Heap → Run (FoldCms Heap)
  insert_one key self = insert key 1 self

  -- The estimates of the keys of a source, entered into the heap.
  unfoldable pub reconcile : List K → FoldCms Heap → Run (FoldCms Heap)
  reconcile keys self =
      for_each keys
        (λ key t. query t key >>= λ est. ok (record t { heap = heap.update key est t.heap })) self

  unfoldable pub reconcile_heap_from : FoldCms Heap → FoldCms Heap → Run (FoldCms Heap)
  unfolding reconcile
  reconcile_heap_from self other = reconcile (heap.items other.heap) self

  unfoldable pub merge_same_level : FoldCms Heap → FoldCms Heap → Run (FoldCms Heap)
  merge_same_level self other = assert (self.rows == other.rows) (
      assert (self.full_cols == other.full_cols) (
        assert (self.fold_level == other.fold_level) (
          assert (self.fold_cols == other.fold_cols) (do
            cells ←
                for_range (length self.cells) 0
                  (λ i t. do
                    mine ← index t i
                    theirs ← index other.cells i
                    store t i (merge_from mine theirs))
                  self.cells
            reconcile_heap_from (record self { cells = cells }) other))))

  unfoldable pub unfold_merge : FoldCms Heap → FoldCms Heap → Run (FoldCms Heap)
  unfold_merge a b = assert (a.rows == b.rows) (
      assert (a.full_cols == b.full_cols) (
        assert (a.fold_level == b.fold_level) (
          assert (ltb 0 a.fold_level) (do
            let new_level = a.fold_level - 1
            let heap_k = max (heap.capacity a.heap) (heap.capacity b.heap)
            let result =
                blank heap a.rows (a.full_cols / 2 ^ new_level) a.full_cols new_level heap_k
            with_a ← scatter_into a result
            with_b ← scatter_into b with_a
            from_a ← reconcile (heap.items a.heap) with_b
            reconcile (heap.items b.heap) from_a))))

  unfoldable pub unfold_to : ℕ → FoldCms Heap → Run (FoldCms Heap)
  unfold_to target_level self =
      let wider = (do
        let result =
            blank heap self.rows (self.full_cols / 2 ^ target_level) self.full_cols target_level
              (heap.capacity self.heap)
        filled ← scatter_into self result
        reconcile (heap.items self.heap) filled) in
      assert (leb target_level self.fold_level)
        (if target_level == self.fold_level then ok self else wider)

  unfoldable pub unfold_full : FoldCms Heap → Run (FoldCms Heap)
  unfold_full self = unfold_to 0 self

  unfoldable pub max_capacity : List (FoldCms Heap) → ℕ
  max_capacity [] = 0
  max_capacity (s ∷ ss) = max (heap.capacity s.heap) (max_capacity ss)

  unfoldable pub hierarchical_merge : List (FoldCms Heap) → Run (FoldCms Heap)
  hierarchical_merge [] = panic
  hierarchical_merge (s ∷ []) = unfold_to 0 s
  hierarchical_merge (s ∷ t ∷ ss) = do
    let sketches = s ∷ t ∷ ss
    let result = blank heap s.rows s.full_cols s.full_cols 0 (max_capacity sketches)
    filled ←
        for_each sketches
          (λ sk r.
            assert (sk.rows == s.rows) (assert (sk.full_cols == s.full_cols) (scatter_into sk r)))
          result
    for_each sketches (λ sk r. reconcile (heap.items sk.heap) r) filled
