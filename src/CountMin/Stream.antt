-- ===== src/CountMin/Stream.antt =====
-- Both hash paths build the sketch of their stream, whatever the hasher.
use asap_sketchlib.Prelude.{
  ℕ, ◌+◌, ◌*◌, ◌<◌, ◌≡◌, refl, ap, ap₂, ◌∙◌, index, List, [], ◌∷◌, arith, ok, ◌>>=◌, Returns,
  returns, Returns-bind, Returns-map, lt→ltb,
}
use native.Mathlib.Nat.{mod-lt}
use asap_sketchlib.Hasher.{SketchHasher}
use asap_sketchlib.Matrix.Counter.{Counter, IsOrdered}
use asap_sketchlib.Matrix.Hash as Hash
use asap_sketchlib.Matrix.Hash.{MatrixHashType, HasRows, column-lt, row_hash-ok}
use asap_sketchlib.Matrix.Vector2d.{
  Vector2D, init, fill, update_one_counter, query_one_counter, increment_by_row, fast_insert,
  fast_query_min,
}
use asap_sketchlib.Matrix.Vector2d as Grid
use asap_sketchlib.Matrix.Cells.{
  IsShaped, cell, fill-cells, RowsWritten, rows_loop-RowsWritten, query_one_counter-ok,
}
use asap_sketchlib.CountMin.{CountMin, with_dimensions}
use asap_sketchlib.CountMin.Regular
use asap_sketchlib.CountMin.Fast
use asap_sketchlib.CountMin.Tally.{tally, Sketches, IsLeast, IsLeast-loop}

module _ {K C : Type 0} (c : Counter C) (R W : ℕ) where
  -- A new sketch is the sketch of the empty stream.
  pub with_dimensions-Sketches :
      (col : K → ℕ → ℕ) → 0 < W → Returns (Sketches c col R W []) (with_dimensions c R W)
  unfolding with_dimensions init tally
  with_dimensions-Sketches col pos =
      let empty : Vector2D C = record {
        items = [];
        rows = R;
        cols = W;
        mask_bits = Hash.cols_mask_bits W;
      } in
      let (shaped, cells) = fill-cells R W c.default c.default empty refl refl refl in
      rw (lt→ltb 0 W pos) (
        returns
          (record { shaped = shaped; row_eq = refl; col_eq = refl; cells = λ r j p q. cells r j }))

  insert_step :
      (col : K → ℕ → ℕ) (x : K) (w : C) (xs : List (K × C)) (s : CountMin C) (m : Vector2D C)
      → Sketches c col R W xs s
      → RowsWritten R W c.default (col x) (λ old. c.add old w) R s.counts m
      → Sketches c col R W ((x, w) ∷ xs) (record s { counts = m })
  unfolding tally
  insert_step col x w xs s m v p = record {
    shaped = p.0;
    row_eq = v.row_eq;
    col_eq = v.col_eq;
    cells = λ r j hr hj. ground (arith, p.1 r j hr hj, v.cells r j hr hj);
  }

  -- A loop over the rows that returns the least of the cells of `x`.
  estimate_step :
      (col : K → ℕ → ℕ) (x : K) (xs : List (K × C)) (s : CountMin C)
      → Sketches c col R W xs s
      → {e : C} → ((r : ℕ) → r < R → col x r < W)
      → IsLeast c.less (λ r. cell s.counts r (col x r) c.default) R e
      → IsLeast c.less (λ r. tally c col r (col x r) xs) R e
  estimate_step col x xs s v inside ((r, lt, eq), low) = (
    (r, lt, eq ∙ v.cells r (col x r) lt (inside r lt)),
    λ k p. rw (← v.cells k (col x k) p (inside k p)) (low k p),
  )

  module _ (h : SketchHasher K) (pos : 0 < W) where
    regular_inside : (x : K) (r : ℕ) → Regular.column h W x r < W
    regular_inside x r = mod-lt _ pos

    -- Insertion on the regular path adds the arrival to the stream.
    pub regular-insert_many :
        (x : K) (w : C) (xs : List (K × C)) (s : CountMin C)
        → Sketches c (Regular.column h W) R W xs s
        → Returns
            (Sketches c (Regular.column h W) R W ((x, w) ∷ xs))
            (Regular.insert_many c h x w s)
    unfolding Regular.insert_many increment_by_row
    regular-insert_many x w xs s v =
        Returns-bind
          (rows_loop-RowsWritten R W c.default (Regular.column h W x) (λ old. c.add old w) s.counts
            _ (λ r p. regular_inside x r) (λ r t p u. rw v.shaped.cols_eq) v.shaped s.counts.rows
            v.shaped.rows_eq)
          λ m p. returns (insert_step (Regular.column h W) x w xs s m v p)

    pub regular-estimate :
        (x : K) (xs : List (K × C)) (s : CountMin C)
        → IsOrdered c
        → 0 < R
        → Sketches c (Regular.column h W) R W xs s
        → Returns
            (IsLeast c.less (λ r. tally c (Regular.column h W) r (Regular.column h W x r) xs) R)
            (Regular.estimate c h s x)
    unfolding Regular.estimate
    regular-estimate x xs s ord rows v =
        Returns-map
          (rw (read 0 rows, ◌>>=◌)
            (IsLeast-loop c ord (λ r. cell s.counts r (Regular.column h W x r) c.default) R
              s.counts.rows _ rows v.shaped.rows_eq (λ r best p. rw (read r p))))
          λ e. estimate_step (Regular.column h W) x xs s v (λ r p. regular_inside x r)
      where
        read :
            (r : ℕ)
            → r < R
            → query_one_counter s.counts r (Regular.column h s.counts.cols x r)
              ≡ ok (cell s.counts r (Regular.column h W x r) c.default)
        read r p =
            ap (query_one_counter s.counts r) (ap (λ k. Regular.column h k x r) v.shaped.cols_eq)
            ∙ query_one_counter-ok R W c.default r (Regular.column h W x r) s.counts v.shaped p
                (regular_inside x r)

grid_column :
    {C : Type 0} (R W : ℕ) (m : Vector2D C) (v : MatrixHashType) (r : ℕ)
    → IsShaped R W m
    → HasRows v R
    → r < R
    → Grid.col_for_row m v r ≡ ok (Hash.column v r W)
unfolding Grid.col_for_row Hash.column
grid_column R W m v r s has p =
    rw (s.mask_eq, row_hash-ok v R r (Hash.cols_mask_bits W) has p, s.cols_eq)

module _ {K C : Type 0} (c : Counter C) (R W : ℕ) (h : SketchHasher K) where
  -- the columns of a key on the fast path
  abbrev pub fast_column : K → ℕ → ℕ
  fast_column x r = Hash.column (h.hash_for_matrix_seeded 0 R W x) r W

  module _ (pos : 0 < W) (has : (x : K) → HasRows (h.hash_for_matrix_seeded 0 R W x) R) where
    fast_inside : (x : K) (r : ℕ) → fast_column x r < W
    fast_inside x r = column-lt (h.hash_for_matrix_seeded 0 R W x) r W pos

    -- Insertion on the fast path adds the arrival to the stream.
    pub fast-insert_many :
        (x : K) (w : C) (xs : List (K × C)) (s : CountMin C)
        → Sketches c fast_column R W xs s
        → Returns (Sketches c fast_column R W ((x, w) ∷ xs)) (Fast.insert_many c h x w s)
    unfolding Fast.insert_many
    fast-insert_many x w xs s v =
        Returns-bind
          (rows_loop-RowsWritten R W c.default (fast_column x) (λ old. c.add old w) s.counts _
            (λ r p. fast_inside x r) step v.shaped s.counts.rows v.shaped.rows_eq)
          λ m p. returns (insert_step c R W fast_column x w xs s m v p)
      where
        step :
            (r : ℕ) (t : Vector2D C)
            → r < R
            → IsShaped R W t
            → (Grid.col_for_row t (h.hash_for_matrix_seeded 0 s.counts.rows s.counts.cols x) r
                >>= λ col. update_one_counter r col (λ old. c.add old w) t)
              ≡ update_one_counter r (fast_column x r) (λ old. c.add old w) t
        step r t p shaped =
            rw (v.shaped.rows_eq, v.shaped.cols_eq, grid_column R W t _ r shaped (has x) p)

    pub fast-estimate :
        (x : K) (xs : List (K × C)) (s : CountMin C)
        → IsOrdered c
        → 0 < R
        → Sketches c fast_column R W xs s
        → Returns
            (IsLeast c.less (λ r. tally c fast_column r (fast_column x r) xs) R)
            (Fast.estimate c h s x)
    unfolding Fast.estimate
    fast-estimate x xs s ord rows v =
        Returns-map
          (rw (col 0 rows, ◌>>=◌, first)
            (IsLeast-loop c ord (λ r. cell s.counts r (fast_column x r) c.default) R s.counts.rows _
              rows v.shaped.rows_eq (λ r best p. rw (col r p, ◌>>=◌, read r p))))
          λ e. estimate_step c R W fast_column x xs s v (λ r p. fast_inside x r)
      where
        col :
            (r : ℕ)
            → r < R
            → Grid.col_for_row s.counts (h.hash_for_matrix_seeded 0 s.counts.rows s.counts.cols x) r
              ≡ ok (fast_column x r)
        col r p =
            ap (λ v. Grid.col_for_row s.counts v r)
              (ap₂ (λ a b. h.hash_for_matrix_seeded 0 a b x) v.shaped.rows_eq v.shaped.cols_eq)
            ∙ grid_column R W s.counts _ r v.shaped (has x) p

        read :
            (r : ℕ)
            → r < R
            → query_one_counter s.counts r (fast_column x r)
              ≡ ok (cell s.counts r (fast_column x r) c.default)
        read r p =
            query_one_counter-ok R W c.default r (fast_column x r) s.counts v.shaped p
              (fast_inside x r)

        first :
            index s.counts.items (fast_column x 0)
            ≡ ok (cell s.counts 0 (fast_column x 0) c.default)
        first =
            let at_front : fast_column x 0 ≡ 0 * s.counts.cols + fast_column x 0 = omega arith in
            ap (index s.counts.items) at_front ∙ read 0 rows
