-- ===== src/CountMin/Merge.antt =====
-- Merging two sketches gives the sketch of the two streams together.
use asap_sketchlib.Prelude.{
  ℕ, suc, ◌<◌, ◌≡◌, List, ◌++◌, ◌&&◌, ◌||◌, arith, ltb, ◌==◌, if◌then◌else◌, ◌>>=◌, for_range,
  Returns, returns, Returns-bind, Returns-map, Returns-upto, Returns-assert,
}
use asap_sketchlib.Matrix.Counter.{Counter, IsAdditive}
use asap_sketchlib.Matrix.Vector2d.{Vector2D, update_one_counter, query_one_counter}
use asap_sketchlib.Matrix.Cells.{
  IsShaped, cell, Wrote, update_one_counter-Wrote, query_one_counter-ok,
}
use asap_sketchlib.CountMin.{CountMin, same_dimensions, merge_with, merge}
use asap_sketchlib.CountMin.Tally.{Sketches, tally-append}

module _ {C : Type 0} (R W : ℕ) (d : C) (op : C → C → C) (other self : Vector2D C) where
  -- The cells in front of row `i`, column `j` are merged, the others are not.
  abbrev pub Merged : ℕ → ℕ → Vector2D C → Type 0
  Merged i j m =
      IsShaped R W m
      × ((r k : ℕ)
          → r < R
          → k < W
          → cell m r k d ≡ (
              if ltb r i || (r == i) && ltb k j
              then op (cell self r k d) (cell other r k d)
              else cell self r k d))

  merge_cell :
      (i j : ℕ) (t u : Vector2D C)
      → i < R
      → j < W
      → Merged i j t
      → Wrote R W d i j (λ old. op old (cell other i j d)) t u
      → Merged i (suc j) u
  merge_cell i j t u hi hj p w =
      (w.0, λ r k hr hk. ground (arith, w.1 r k hr hk, p.1 r k hr hk, p.1 i j hi hj))

  module _ (other_shaped : IsShaped R W other) where
    merge_row :
        (i : ℕ) (t : Vector2D C) (n : ℕ)
        → n ≡ W
        → i < R
        → Merged i 0 t
        → Returns (Merged (suc i) 0) (
            for_range n 0
              (λ j u. query_one_counter other i j >>= λ value.
                update_one_counter i j (λ old. op old value) u)
              t)
    merge_row i t n e hi p = rw e (
        Returns-map
          (Returns-upto (Merged i) W _ t
            (λ j u hj q.
              rw (query_one_counter-ok R W d i j other other_shaped hi hj, ◌>>=◌)
                (Returns-map
                  (update_one_counter-Wrote R W d i j (λ old. op old (cell other i j d)) u q.0 hi
                    hj)
                  λ v w. merge_cell i j u v hi hj q w))
            p)
          λ u q. (q.0, λ r k hr hk. ground (arith, q.1 r k hr hk)))

    pub merge_with-Merged : IsShaped R W self → Returns (Merged R 0) (merge_with op other self)
    unfolding merge_with
    merge_with-Merged s = Returns-loop self.rows s.rows_eq
      where
        Returns-loop :
            (n : ℕ)
            → n ≡ R
            → Returns (Merged R 0) (
                for_range n 0
                  (λ i t.
                    for_range self.cols 0
                      (λ j u. query_one_counter other i j >>= λ value.
                        update_one_counter i j (λ old. op old value) u)
                      t)
                  self)
        Returns-loop n e = rw e (
            Returns-upto (λ i. Merged i 0) R _ self
              (λ i t hi p. merge_row i t self.cols s.cols_eq hi p) (s, λ r k hr hk. ground arith))

module _ {K C : Type 0} (c : Counter C) (laws : IsAdditive c) (col : K → ℕ → ℕ) (R W : ℕ) where
  pub merge-Sketches :
      (xs ys : List (K × C)) (a b : CountMin C)
      → Sketches c col R W xs a
      → Sketches c col R W ys b
      → Returns (Sketches c col R W (ys ++ xs)) (merge c a b)
  unfolding merge
  merge-Sketches xs ys a b p q = Returns-assert (same_dimensions a.counts b.counts) (ground arith) (
      Returns-bind (merge_with-Merged R W c.default c.add b.counts a.counts q.shaped p.shaped)
        λ m u. returns (record {
          shaped = u.0;
          row_eq = p.row_eq;
          col_eq = p.col_eq;
          cells = λ r k hr hk. ground (
            arith,
            u.1 r k hr hk,
            p.cells r k hr hk,
            q.cells r k hr hk,
            tally-append c col laws r k ys xs,
          );
        }))
