-- ===== src/FoldCms/Folding.antt =====
-- Folding costs nothing: a sketch answers from the counters of the full width, at every level.
use native.Mathlib.Nat.{mod-lt}
use asap_sketchlib.Prelude.{
  ℕ, zero, suc, ◌+◌, ◌*◌, ◌%◌, ◌^◌, ◌<◌, ◌≤◌, ◌≡◌, refl, ap, ◌∙◌, List, [], ◌∷◌, arith, ltb, ◌==◌,
  if◌then◌else◌, ok, ◌>>=◌, index, store, for_range, for_each, Returns, returns, Returns-bind,
  Returns-map, Returns-upto, reverse_aux, length, get_or, set, length-set, get_or-set,
  length-replicate, get_or-replicate, index-ok,
}
use asap_sketchlib.Hasher.{SketchHasher}
use asap_sketchlib.Matrix.Counter.{signed_less}
use asap_sketchlib.Matrix.Cells.{index-lt, index_injective}
use asap_sketchlib.FoldCms.{HeapOps, FoldCms, i64_max, blank, full_col_for, query, insert}
use asap_sketchlib.FoldCms.Cell.{FoldCell, wrapping_add, insert_cell, query_cell}
use asap_sketchlib.FoldCms.CellLaws.{query-insert_cell}

module _ {K : Type 0} (h : SketchHasher K) (N : ℕ) where
  -- the counter of the full width in a row and a column, after a stream whose newest item is first
  unfoldable pub full_counter : ℕ → ℕ → List (K × ℕ) → ℕ
  full_counter r c [] = 0
  full_counter r c ((x, d) ∷ xs) =
      let rest = full_counter r c xs in
      if full_col_for h N r x == c then wrapping_add rest d else rest

  -- the least counter of a key in `n` rows from `r` on, starting from `best`
  unfoldable pub least_counter : List (K × ℕ) → K → ℕ → ℕ → ℕ → ℕ
  least_counter xs key zero r best = best
  least_counter xs key (suc n) r best =
      let counter = full_counter r (full_col_for h N r key) xs in
      least_counter xs key n (suc r) (if signed_less (2 ^ 63) counter best then counter else best)

-- Every amount of the stream is the bit pattern of an i64.
abbrev pub AmountsAreI64 : {K : Type 0} → List (K × ℕ) → Type 0
AmountsAreI64 [] = Unit {0}
AmountsAreI64 ((x, d) ∷ xs) = (d < 2 ^ 64) × AmountsAreI64 xs

pub same_mod : (a b n : ℕ) → a ≡ b → a % n ≡ b % n
same_mod a b n e = ap (λ z. z % n) e

module _ {K Heap : Type 0} (h : SketchHasher K) (heap : HeapOps K Heap) (R F N level : ℕ)
    (narrow : 0 < F) where
  abbrev pub sketch : List FoldCell → Heap → FoldCms Heap
  sketch cells hp = record {
    rows = R;
    fold_cols = F;
    full_cols = N;
    fold_level = level;
    cells = cells;
    heap = hp;
  }

  abbrev pub Answers : (ℕ → ℕ → ℕ) → List FoldCell → Type 0
  Answers counter cells =
      (length cells ≡ R * F)
      × ((r c : ℕ)
          → r < R
          → query_cell c (get_or cells (r * F + c % F) FoldCell.empty) ≡ counter r c)

  -- the cells while the rows are written: those below `i` are done
  abbrev Between : List (K × ℕ) → K → ℕ → ℕ → List FoldCell → Type 0
  Between xs x d i cells =
      Answers
        (λ r c. if ltb r i then full_counter h N r c ((x, d) ∷ xs) else full_counter h N r c xs)
        cells

  write_row :
      (xs : List (K × ℕ)) (x : K) (d i : ℕ) (cells : List FoldCell)
      → d < 2 ^ 64
      → i < R
      → Between xs x d i cells
      → (let full_col = full_col_for h N i x in
          Between xs x d (suc i) (
            set cells
              (i * F + full_col % F)
              (insert_cell full_col d (get_or cells (i * F + full_col % F) FoldCell.empty))))
  unfolding full_counter
  write_row xs x d i cells w lt a =
      let full_col = full_col_for h N i x in
      let at = i * F + full_col % F in
      let inside : at < length cells =
        omega (arith, index-lt i (full_col % F) R F lt (mod-lt full_col narrow), a.0) in
      (
        length-set cells at _ ∙ a.0,
        λ r c hr. ground (
          arith,
          get_or-set cells at (r * F + c % F)
              (insert_cell full_col d (get_or cells at FoldCell.empty)) FoldCell.empty inside,
          query-insert_cell full_col c d (get_or cells at FoldCell.empty) w,
          a.1 r c hr,
          a.1 i c lt,
          index_injective i (full_col % F) r (c % F) F (mod-lt full_col narrow) (mod-lt c narrow),
          same_mod full_col c F,
        ),
      )

  write_rows :
      (xs : List (K × ℕ)) (x : K) (d : ℕ) (cells : List FoldCell)
      → d < 2 ^ 64
      → Answers (λ r c. full_counter h N r c xs) cells
      → Returns (Answers (λ r c. full_counter h N r c ((x, d) ∷ xs))) (
          for_range R 0
            (λ r t. do
              let full_col = full_col_for h N r x
              let i = r * F + full_col % F
              old ← index t i
              store t i (insert_cell full_col d old))
            cells)
  write_rows xs x d cells w a =
      Returns-map
        (Returns-upto (Between xs x d) R _ cells
          (λ i t lt b.
            let full_col = full_col_for h N i x in
            let at = i * F + full_col % F in
            let inside : at < length t =
              omega (arith, index-lt i (full_col % F) R F lt (mod-lt full_col narrow), b.0) in
            rw (index-ok t at FoldCell.empty inside) (returns (write_row xs x d i t w lt b)))
          (a.0, λ r c hr. ground (arith, a.1 r c hr)))
        λ cells' b. (b.0, λ r c hr. ground (arith, b.1 r c hr))

  least_loop :
      (xs : List (K × ℕ)) (key : K) (cells : List FoldCell) (n i best : ℕ)
      → i + n ≤ R
      → Answers (λ r c. full_counter h N r c xs) cells
      → for_range n i
          (λ r min_count. do
            let full_col = full_col_for h N r key
            cell ← index cells (r * F + full_col % F)
            let row_count = query_cell full_col cell
            ok (if signed_less (2 ^ 63) row_count min_count then row_count else min_count))
          best
        ≡ ok (least_counter h N xs key n i best)
  unfolding for_range least_counter
  least_loop xs key cells zero i best le a = refl
  least_loop xs key cells (suc n) i best le a =
      let full_col = full_col_for h N i key in
      let at = i * F + full_col % F in
      let inside : at < length cells =
        omega (arith, index-lt i (full_col % F) R F (omega arith) (mod-lt full_col narrow), a.0) in
      rw (index-ok cells at FoldCell.empty inside, a.1 i full_col (omega arith))
        (least_loop xs key cells n (suc i) _ (omega arith) a)

  pub query-least :
      (xs : List (K × ℕ)) (key : K) (cells : List FoldCell) (hp : Heap)
      → Answers (λ r c. full_counter h N r c xs) cells
      → query h heap (sketch cells hp) key ≡ ok (least_counter h N xs key R 0 i64_max)
  unfolding query
  query-least xs key cells hp a = least_loop xs key cells R 0 i64_max (omega arith) a

  -- The sketch of a stream, whatever its heap holds.
  abbrev pub Folds : List (K × ℕ) → FoldCms Heap → Type 0
  Folds xs s =
      (cells : List FoldCell) × (hp : Heap) × (s ≡ sketch cells hp)
      × Answers (λ r c. full_counter h N r c xs) cells

  insert-Folds :
      (xs : List (K × ℕ)) (x : K) (d : ℕ) (s : FoldCms Heap)
      → d < 2 ^ 64
      → Folds xs s
      → Returns (Folds ((x, d) ∷ xs)) (insert h heap x d s)
  unfolding insert
  insert-Folds xs x d s w (cells, hp, e, a) = rw e (
      Returns-bind (write_rows xs x d cells w a)
        λ cells' b. rw (query-least ((x, d) ∷ xs) x cells' hp b) (returns (cells', _, refl, b)))

  pub inserts-Folds :
      (done xs : List (K × ℕ)) (s : FoldCms Heap)
      → AmountsAreI64 xs
      → Folds done s
      → Returns (Folds (reverse_aux xs done)) (for_each xs (λ (x, d). insert h heap x d) s)
  unfolding for_each
  inserts-Folds done [] s w f = returns f
  inserts-Folds done ((x, d) ∷ xs) s w f =
      Returns-bind (insert-Folds done x d s w.0 f) λ t g. inserts-Folds ((x, d) ∷ done) xs t w.1 g

  pub blank-Folds : (top_k : ℕ) → Folds [] (blank heap R F N level top_k)
  unfolding full_counter query_cell
  blank-Folds top_k = (
    _,
    _,
    refl,
    (
      length-replicate (R * F) FoldCell.empty,
      λ r c hr. rw (get_or-replicate (R * F) (r * F + c % F) FoldCell.empty) refl,
    ),
  )
