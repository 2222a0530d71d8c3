-- ===== src/Matrix/Vector2d.antt =====
-- src/common/structures/vector2d.rs: a `rows x cols` grid, one row after another. The field `mask`
-- is `2 ^ mask_bits - 1`. Nitro sampling is left out.
use asap_sketchlib.Prelude.{
  ℕ, ◌+◌, ◌-◌, ◌*◌, List, [], Bool, ltb, if◌then◌else◌, Run, ok, ◌>>=◌, assert, index, for_range,
  set, replicate,
}
use asap_sketchlib.Matrix.Counter.{Counter}
use asap_sketchlib.Matrix.Hash.{MatrixHashType, cols_mask_bits, row_hash, fold_to_col}

pub record Vector2D (T : Type 0) : Type 0 where
  pub items : List T
  pub rows : ℕ
  pub cols : ℕ
  pub mask_bits : ℕ

module _ {T : Type 0} where
  -- `ilog2` of no columns panics.
  unfoldable pub init : ℕ → ℕ → Run (Vector2D T)
  init rows cols =
      assert (ltb 0 cols)
        (ok (record { items = []; rows = rows; cols = cols; mask_bits = cols_mask_bits cols }))

  unfoldable pub fill : T → Vector2D T → Vector2D T
  fill value m = record m { items = replicate (m.rows * m.cols) value }

  unfoldable pub update_one_counter : ℕ → ℕ → (T → T) → Vector2D T → Run (Vector2D T)
  update_one_counter row col op m =
      let idx = row * m.cols + col in
      index m.items idx >>= λ old. ok (record m { items = set m.items idx (op old) })

  unfoldable pub query_one_counter : Vector2D T → ℕ → ℕ → Run T
  query_one_counter m row col = index m.items (row * m.cols + col)

  -- the column, decoded with the mask kept in the grid
  unfoldable pub col_for_row : Vector2D T → MatrixHashType → ℕ → Run ℕ
  col_for_row m hashed_val row =
      row_hash hashed_val row m.mask_bits >>= λ raw. ok (fold_to_col raw m.cols)

  unfoldable pub fast_insert : (T → T) → MatrixHashType → Vector2D T → Run (Vector2D T)
  unfolding update_one_counter col_for_row
  fast_insert op hashed_val m =
      for_range m.rows 0
        (λ row t. col_for_row t hashed_val row >>= λ col. update_one_counter row col op t) m

  -- The minimum of a reading of the cells, `less` telling when a candidate is smaller.
  unfoldable pub fast_query_min :
      {R : Type 0} → (R → R → Bool) → (T → R) → MatrixHashType → Vector2D T → Run R
  unfolding query_one_counter col_for_row
  fast_query_min less op hashed_val m = do
    c0 ← col_for_row m hashed_val 0
    first ← index m.items c0
    for_range (m.rows - 1) 1
        (λ row best. do
          col ← col_for_row m hashed_val row
          v ← query_one_counter m row col
          let candidate = op v
          ok (if less candidate best then candidate else best))
        (op first)

  unfoldable pub increment_by_row : Counter T → ℕ → ℕ → T → Vector2D T → Run (Vector2D T)
  increment_by_row c row col value m = update_one_counter row col (λ old. c.add old value) m
