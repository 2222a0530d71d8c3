-- ===== src/FoldCms/CellLaws.antt =====
-- What a cell answers after an insertion and after a merge.
use asap_sketchlib.Prelude.{ℕ, ◌^◌, ◌<◌, ◌≡◌, ◌≢◌, refl, List, [], ◌∷◌, arith, ◌==◌, if◌then◌else◌}
use asap_sketchlib.FoldCms.Cell.{
  FoldEntry, FoldCell, wrapping_add, insert_entry, insert_cell, query_entries, query_cell, iter,
  insert_all, merge_from,
}

-- no entry of the cell is for the column
abbrev pub Lacks : ℕ → List FoldEntry → Type 0
Lacks col [] = Unit {0}
Lacks col (e ∷ es) = (e.full_col ≢ col) × Lacks col es

-- The columns of the entries differ from each other.
abbrev pub AreDistinct : List FoldEntry → Type 0
AreDistinct [] = Unit {0}
AreDistinct (e ∷ es) = Lacks e.full_col es × AreDistinct es

query_entries-Lacks : (col : ℕ) (es : List FoldEntry) → Lacks col es → query_entries col es ≡ 0
unfolding query_entries
query_entries-Lacks col [] l = refl
query_entries-Lacks col (e ∷ es) l = ground (arith, l.0, query_entries-Lacks col es l.1)

query-insert_entry :
    (col c delta : ℕ) (es : List FoldEntry)
    → delta < 2 ^ 64
    → query_entries c (insert_entry col delta es)
      ≡ (if col == c then wrapping_add (query_entries c es) delta else query_entries c es)
unfolding query_entries insert_entry
query-insert_entry col c delta [] h = ground arith
query-insert_entry col c delta (e ∷ es) h = ground (arith, query-insert_entry col c delta es h)

pub query-insert_cell :
    (col c delta : ℕ) (cell : FoldCell)
    → delta < 2 ^ 64
    → query_cell c (insert_cell col delta cell)
      ≡ (if col == c then wrapping_add (query_cell c cell) delta else query_cell c cell)
unfolding query_cell insert_cell query_entries
query-insert_cell col c delta FoldCell.empty h = ground arith
query-insert_cell col c delta (FoldCell.single k n) h = ground arith
query-insert_cell col c delta (FoldCell.collided es) h = query-insert_entry col c delta es h

-- Every count of the entries is the bit pattern of an i64.
abbrev pub AreI64 : List FoldEntry → Type 0
AreI64 [] = Unit {0}
AreI64 (e ∷ es) = (e.count < 2 ^ 64) × AreI64 es

query-insert_all :
    (c : ℕ) (es : List FoldEntry) (cell : FoldCell)
    → query_cell c cell < 2 ^ 64
    → AreDistinct es
    → AreI64 es
    → query_cell c (insert_all es cell) ≡ wrapping_add (query_cell c cell) (query_entries c es)
unfolding insert_all query_entries
query-insert_all c [] cell q d w = omega (arith, q)
query-insert_all c (e ∷ es) cell q d w = ground (
  arith,
  query-insert_cell e.full_col c e.count cell w.0,
  query-insert_all c es (insert_cell e.full_col e.count cell)
      (ground (arith, query-insert_cell e.full_col c e.count cell w.0)) d.1 w.1,
  query_entries-Lacks e.full_col es d.0,
)

-- Merging two cells adds the counts of every column, where the columns of the second are distinct
-- and its counts, and what the first answers, are 64-bit patterns.
pub query-merge_from :
    (c : ℕ) (self other : FoldCell)
    → query_cell c self < 2 ^ 64
    → AreDistinct (iter other)
    → AreI64 (iter other)
    → query_cell c (merge_from self other) ≡ wrapping_add (query_cell c self) (query_cell c other)
unfolding merge_from iter query_cell
query-merge_from c self FoldCell.empty q d w = omega (arith, q)
query-merge_from c self (FoldCell.single k n) q d w =
    ground (arith, query-insert_cell k c n self w.0)
query-merge_from c self (FoldCell.collided es) q d w = query-insert_all c es self q d w
