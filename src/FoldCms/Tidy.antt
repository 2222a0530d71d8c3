-- ===== src/FoldCms/Tidy.antt =====
-- Cells whose entries are for different columns, all of them folded to the cell's own.
use asap_sketchlib.Prelude.{
  ℕ, ◌%◌, ◌^◌, ◌<◌, ◌≡◌, ◌≢◌, refl, subst, List, [], ◌∷◌, arith, Bool-cases, inl, inr, ◌==◌,
}
use native.Mathlib.Decide.{ℕ_discrete}
use asap_sketchlib.FoldCms.Cell.{
  FoldEntry, FoldCell, insert_entry, insert_cell, query_entries, query_cell, iter, insert_all,
  merge_from,
}
use asap_sketchlib.FoldCms.CellLaws.{Lacks, AreDistinct, AreI64}

-- The columns of the entries fold to `j` in `F` columns.
abbrev pub AreAt : ℕ → ℕ → List FoldEntry → Type 0
AreAt F j [] = Unit {0}
AreAt F j (e ∷ es) = (e.full_col % F ≡ j) × AreAt F j es

abbrev pub IsTidy : ℕ → ℕ → List FoldEntry → Type 0
IsTidy F j es = AreDistinct es × AreI64 es × AreAt F j es

Lacks-insert_entry :
    (k col delta : ℕ) (es : List FoldEntry)
    → col ≢ k
    → Lacks k es
    → Lacks k (insert_entry col delta es)
unfolding insert_entry
Lacks-insert_entry k col delta [] ne l = (ne, tt)
Lacks-insert_entry k col delta (e ∷ es) ne l =
    ground (arith, l, Lacks-insert_entry k col delta es ne l.1)

insert_entry-IsTidy :
    (F j col delta : ℕ) (es : List FoldEntry)
    → delta < 2 ^ 64
    → col % F ≡ j
    → IsTidy F j es
    → IsTidy F j (insert_entry col delta es)
unfolding insert_entry
insert_entry-IsTidy F j col delta [] w at t = ((tt, tt), (w, tt), (at, tt))
insert_entry-IsTidy F j col delta (e ∷ es) w at t =
    let rest = insert_entry-IsTidy F j col delta es w at (t.0.1, t.1.1, t.2.1) in
    elim (Bool-cases (e.full_col == col)) [
      | inl same ↦ rw same ((t.0.0, t.0.1), (omega arith, t.1.1), (t.2.0, t.2.1))
      | inr other ↦ rw other (
        (
          Lacks-insert_entry e.full_col col delta es (λ s. absurd (ground (arith, s, other))) t.0.0,
          rest.0,
        ),
        (t.1.0, rest.1),
        (t.2.0, rest.2),
      )
    ]

pub insert_cell-IsTidy :
    (F j col delta : ℕ) (cell : FoldCell)
    → delta < 2 ^ 64
    → col % F ≡ j
    → IsTidy F j (iter cell)
    → IsTidy F j (iter (insert_cell col delta cell))
unfolding insert_cell iter
insert_cell-IsTidy F j col delta FoldCell.empty w at t = ((tt, tt), (w, tt), (at, tt))
insert_cell-IsTidy F j col delta (FoldCell.single k n) w at t = elim (Bool-cases (k == col)) [
  | inl same ↦ rw same ((tt, tt), (omega arith, tt), (t.2.0, tt))
  | inr other ↦ rw other (
    ((λ s. absurd (ground (arith, s, other)), tt), (tt, tt)),
    (t.1.0, (w, tt)),
    (t.2.0, (at, tt)),
  )
]
insert_cell-IsTidy F j col delta (FoldCell.collided es) w at t =
    insert_entry-IsTidy F j col delta es w at t

pub query-iter : (c : ℕ) (cell : FoldCell) → query_cell c cell ≡ query_entries c (iter cell)
unfolding query_cell iter query_entries
query-iter c FoldCell.empty = refl
query-iter c (FoldCell.single k n) = refl
query-iter c (FoldCell.collided es) = refl

-- A column that does not fold to `j` has no count in a cell at `j`.
pub query-elsewhere :
    (F j c : ℕ) (es : List FoldEntry) → AreAt F j es → c % F ≢ j → query_entries c es ≡ 0
unfolding query_entries
query-elsewhere F j c [] at ne = refl
query-elsewhere F j c (e ∷ es) at ne = elim (ℕ_discrete e.full_col c) [
  | yes same ↦ absurd (ne (subst (λ z. z % F ≡ j) same at.0))
  | no other ↦ ground (arith, other, query-elsewhere F j c es at.1 ne)
]

insert_all-IsTidy :
    (F j : ℕ) (es : List FoldEntry) (cell : FoldCell)
    → IsTidy F j es
    → IsTidy F j (iter cell)
    → IsTidy F j (iter (insert_all es cell))
unfolding insert_all
insert_all-IsTidy F j [] cell t u = u
insert_all-IsTidy F j (e ∷ es) cell t u =
    insert_all-IsTidy F j es (insert_cell e.full_col e.count cell) (t.0.1, t.1.1, t.2.1)
      (insert_cell-IsTidy F j e.full_col e.count cell t.1.0 t.2.0 u)

pub merge_from-IsTidy :
    (F j : ℕ) (self other : FoldCell)
    → IsTidy F j (iter self)
    → IsTidy F j (iter other)
    → IsTidy F j (iter (merge_from self other))
unfolding merge_from iter
merge_from-IsTidy F j self FoldCell.empty t u = t
merge_from-IsTidy F j self (FoldCell.single k n) t u = insert_cell-IsTidy F j k n self u.1.0 u.2.0 t
merge_from-IsTidy F j self (FoldCell.collided es) t u = insert_all-IsTidy F j es self u t

-- What a tidy cell answers is the bit pattern of an i64.
pub query-lt : (F j c : ℕ) (cell : FoldCell) → IsTidy F j (iter cell) → query_cell c cell < 2 ^ 64
unfolding query_entries
query-lt F j c cell t = rw (query-iter c cell) (entries_lt (iter cell) t.1)
  where
    entries_lt : (es : List FoldEntry) → AreI64 es → query_entries c es < 2 ^ 64
    entries_lt [] w = omega arith
    entries_lt (e ∷ es) w = ground (arith, entries_lt es w.1)
