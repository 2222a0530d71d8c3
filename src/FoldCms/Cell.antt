-- ===== src/FoldCms/Cell.antt =====
-- src/sketches/fold_cms.rs, FoldCell: the counters that share a physical column, each with its
-- column in the full width. A count is the bit pattern of an i64, and sums wrap.
use asap_sketchlib.Prelude.{ℕ, ◌+◌, ◌%◌, ◌^◌, List, [], ◌∷◌, ◌==◌, if◌then◌else◌, length}

pub record FoldEntry : Type 0 where
  pub full_col : ℕ
  pub count : ℕ

pub data FoldCell : Type 0 where
  empty : FoldCell
  single : ℕ → ℕ → FoldCell
  collided : List FoldEntry → FoldCell

abbrev pub wrapping_add : ℕ → ℕ → ℕ
wrapping_add a b = (a + b) % 2 ^ 64

-- the loop over the entries of a collided cell, with the push after it
unfoldable pub insert_entry : ℕ → ℕ → List FoldEntry → List FoldEntry
insert_entry col delta [] = record { full_col = col; count = delta } ∷ []
insert_entry col delta (e ∷ es) =
    let rest = insert_entry col delta es in
    if e.full_col == col then record e { count = wrapping_add e.count delta } ∷ es else e ∷ rest

unfoldable pub insert_cell : ℕ → ℕ → FoldCell → FoldCell
unfolding insert_entry
insert_cell col delta FoldCell.empty = FoldCell.single col delta
insert_cell col delta (FoldCell.single existing_col count) =
    if existing_col == col
    then FoldCell.single existing_col (wrapping_add count delta)
    else FoldCell.collided (
        record { full_col = existing_col; count = count }
        ∷ record { full_col = col; count = delta }
        ∷ [])
insert_cell col delta (FoldCell.collided entries) =
    FoldCell.collided (insert_entry col delta entries)

unfoldable pub query_entries : ℕ → List FoldEntry → ℕ
query_entries col [] = 0
query_entries col (e ∷ es) =
    let rest = query_entries col es in if e.full_col == col then e.count else rest

unfoldable pub query_cell : ℕ → FoldCell → ℕ
unfolding query_entries
query_cell col FoldCell.empty = 0
query_cell col (FoldCell.single existing_col count) = if existing_col == col then count else 0
query_cell col (FoldCell.collided entries) = query_entries col entries

-- the pairs of a cell, in the order of its iterator
unfoldable pub iter : FoldCell → List FoldEntry
iter FoldCell.empty = []
iter (FoldCell.single full_col count) = record { full_col = full_col; count = count } ∷ []
iter (FoldCell.collided entries) = entries

unfoldable pub insert_all : List FoldEntry → FoldCell → FoldCell
insert_all [] cell = cell
insert_all (e ∷ es) cell = insert_all es (insert_cell e.full_col e.count cell)

unfoldable pub merge_from : FoldCell → FoldCell → FoldCell
merge_from self FoldCell.empty = self
merge_from self (FoldCell.single full_col count) = insert_cell full_col count self
merge_from self (FoldCell.collided entries) = insert_all entries self

unfoldable pub entry_count : FoldCell → ℕ
entry_count FoldCell.empty = 0
entry_count (FoldCell.single full_col count) = 1
entry_count (FoldCell.collided entries) = length entries
