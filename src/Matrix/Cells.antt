-- ===== src/Matrix/Cells.antt =====
-- The grid cell by cell: what a write changes, and what a write in each row changes.
use asap_sketchlib.Prelude.{
  ℕ, ◌+◌, ◌*◌, ◌<◌, ◌≡◌, ap, ◌∙◌, ◌&&◌, arith, ltb, ◌==◌, if◌then◌else◌, Run, ok, for_range,
  Returns, returns, Returns-map, Returns-upto, length, get_or, length-set, get_or-set, index-ok,
  length-replicate, get_or-replicate,
}
use asap_sketchlib.Matrix.Hash.{cols_mask_bits}
use asap_sketchlib.Matrix.Vector2d.{Vector2D, fill, update_one_counter, query_one_counter}

pub record IsShaped {T : Type 0} (rows cols : ℕ) (m : Vector2D T) : Type 0 where
  pub rows_eq : m.rows ≡ rows
  pub cols_eq : m.cols ≡ cols
  pub size_eq : length m.items ≡ rows * cols
  pub mask_eq : m.mask_bits ≡ cols_mask_bits cols

-- The cell in a row and a column, `d` where there is none.
abbrev pub cell : {T : Type 0} → Vector2D T → ℕ → ℕ → T → T
cell m r c d = get_or m.items (r * m.cols + c) d

pub index-lt : (r c rows cols : ℕ) → r < rows → c < cols → r * cols + c < rows * cols
index-lt r c rows cols p q = grind arith

index-ne : (r c r' c' cols : ℕ) → c < cols → r < r' → r * cols + c < r' * cols + c'
index-ne r c r' c' cols p q = grind arith

pub index_injective :
    (r c r' c' cols : ℕ)
    → c < cols
    → c' < cols
    → r * cols + c ≡ r' * cols + c'
    → (r ≡ r') × (c ≡ c')
index_injective r c r' c' cols p q e =
    ground (arith, index-ne r c r' c' cols, index-ne r' c' r c cols)

same_cell :
    (r c r' c' cols : ℕ)
    → c < cols
    → c' < cols
    → (r * cols + c == r' * cols + c') ≡ ((r == r') && (c == c'))
same_cell r c r' c' cols p q = ground (arith, index_injective r c r' c' cols p q)

module _ {T : Type 0} (R C : ℕ) (d : T) where
  -- A write at one cell of the grid changes that cell and no other.
  abbrev pub Wrote : ℕ → ℕ → (T → T) → Vector2D T → Vector2D T → Type 0
  Wrote row col op m m' =
      IsShaped R C m'
      × ((r c : ℕ)
          → r < R
          → c < C
          → cell m' r c d
            ≡ (if (row == r) && (col == c) then op (cell m row col d) else cell m r c d))

  pub update_one_counter-Wrote :
      (row col : ℕ) (op : T → T) (m : Vector2D T)
      → IsShaped R C m
      → row < R
      → col < C
      → Returns (Wrote row col op m) (update_one_counter row col op m)
  unfolding update_one_counter
  update_one_counter-Wrote row col op m s p q =
      let inside : row * m.cols + col < length m.items =
        rw (s.cols_eq, s.size_eq) (index-lt row col R C p q) in
      rw (index-ok m.items (row * m.cols + col) d inside) (
        returns (
          record {
            rows_eq = s.rows_eq;
            cols_eq = s.cols_eq;
            size_eq = length-set m.items _ _ ∙ s.size_eq;
            mask_eq = s.mask_eq;
          },
          λ r c hr hc.
              get_or-set m.items (row * m.cols + col) (r * m.cols + c) _ d inside
              ∙ ap (λ b. if b then op (cell m row col d) else cell m r c d)
                  (same_cell row col r c m.cols (rw s.cols_eq q) (rw s.cols_eq hc)),
        ))

  -- A grid in which every cell holds the same value.
  pub fill-cells :
      (v : T) (m : Vector2D T)
      → m.rows ≡ R
      → m.cols ≡ C
      → m.mask_bits ≡ cols_mask_bits C
      → IsShaped R C (fill v m) × ((r c : ℕ) → cell (fill v m) r c v ≡ v)
  unfolding fill
  fill-cells v m p q b = (
    record {
      rows_eq = p;
      cols_eq = q;
      size_eq = length-replicate (m.rows * m.cols) v ∙ (rw (p, q));
      mask_eq = b;
    },
    λ r c. get_or-replicate (m.rows * m.cols) (r * m.cols + c) v,
  )

  pub query_one_counter-ok :
      (row col : ℕ) (m : Vector2D T)
      → IsShaped R C m
      → row < R
      → col < C
      → query_one_counter m row col ≡ ok (cell m row col d)
  unfolding query_one_counter
  query_one_counter-ok row col m s p q =
      index-ok m.items (row * m.cols + col) d (rw (s.cols_eq, s.size_eq) (index-lt row col R C p q))

  -- One write in every row, at the column that `col` gives for the row.
  abbrev pub RowsWritten : (ℕ → ℕ) → (T → T) → ℕ → Vector2D T → Vector2D T → Type 0
  RowsWritten col op n m m' =
      IsShaped R C m'
      × ((r c : ℕ)
          → r < R
          → c < C
          → cell m' r c d ≡ (if ltb r n && (col r == c) then op (cell m r c d) else cell m r c d))

  pub rows_loop-RowsWritten :
      (col : ℕ → ℕ) (op : T → T) (m : Vector2D T) (body : ℕ → Vector2D T → Run (Vector2D T))
      → ((r : ℕ) → r < R → col r < C)
      → ((r : ℕ) (t : Vector2D T)
          → r < R
          → IsShaped R C t
          → body r t ≡ update_one_counter r (col r) op t)
      → IsShaped R C m
      → (n : ℕ) → n ≡ R
      → Returns (RowsWritten col op R m) (for_range n 0 body m)
  rows_loop-RowsWritten col op m body inside same s n e = rw e (
      Returns-upto (λ n. RowsWritten col op n m) R body m
        (λ j t lt w. rw (same j t lt w.0) (
          Returns-map (update_one_counter-Wrote j (col j) op t w.0 lt (inside j lt)) λ u v. (
            v.0,
            λ r c hr hc.
                ground (arith, v.1 r c hr hc, w.1 r c hr hc, w.1 j (col j) lt (inside j lt)),
          )))
        (s, λ r c hr hc. ground arith))
