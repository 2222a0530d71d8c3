-- ===== src/CountMin/Concat.antt =====
-- The sketch of a stream is unique, so a merge is the very sketch of the streams one after another.
use native.Mathlib.Nat.{mod-lt}
use asap_sketchlib.Prelude.{
  ℕ, ◌+◌, ◌*◌, ◌/◌, ◌%◌, ◌<◌, ◌≡◌, sym, ap, ◌∙◌, List, [], ◌++◌, arith, Run, ok, ◌>>=◌, Returns,
  subst, Returns-bind, Returns-inv, Returns-for_each, reverse_aux, reverse_aux-append, length,
  get_or, get_or_ext,
}
use asap_sketchlib.Hasher.{SketchHasher}
use asap_sketchlib.Matrix.Counter.{Counter, IsAdditive}
use asap_sketchlib.Matrix.Vector2d.{Vector2D}
use asap_sketchlib.Matrix.Cells.{IsShaped, cell}
use asap_sketchlib.CountMin.{CountMin, with_dimensions, merge}
use asap_sketchlib.CountMin.Regular
use asap_sketchlib.CountMin.Tally.{Sketches}
use asap_sketchlib.CountMin.Stream.{with_dimensions-Sketches, regular-insert_many}
use asap_sketchlib.CountMin.Merge.{merge-Sketches}

split : (i W : ℕ) → i ≡ i / W * W + i % W
split i W = omega arith

row_of : (i R W : ℕ) → i < R * W → i / W < R
row_of i R W h = grind arith

-- Two grids of one shape that agree cell by cell are equal.
pub grid_ext :
    {T : Type 0} (R W : ℕ) (d : T) (m n : Vector2D T)
    → 0 < W
    → IsShaped R W m
    → IsShaped R W n
    → ((r j : ℕ) → r < R → j < W → cell m r j d ≡ cell n r j d)
    → m ≡ n
grid_ext R W d m n pos p q same = cc (
  p.rows_eq,
  p.cols_eq,
  p.mask_eq,
  q.rows_eq,
  q.cols_eq,
  q.mask_eq,
  get_or_ext m.items n.items d (p.size_eq ∙ sym q.size_eq) at_index,
)
  where
    at_index : (i : ℕ) → i < length m.items → get_or m.items i d ≡ get_or n.items i d
    at_index i lt =
        let inside : i < R * W = omega (arith, p.size_eq) in
        ap (λ k. get_or m.items k d) (rw (p.cols_eq) (split i W))
        ∙ same (i / W) (i % W) (row_of i R W inside) (mod-lt i pos)
        ∙ sym (ap (λ k. get_or n.items k d) (rw (q.cols_eq) (split i W)))

module _ {K C : Type 0} (c : Counter C) (laws : IsAdditive c) (h : SketchHasher K) (R W : ℕ)
    (pos : 0 < W) where
  Sketches-unique :
      (col : K → ℕ → ℕ) (xs : List (K × C)) (s t : CountMin C)
      → Sketches c col R W xs s
      → Sketches c col R W xs t
      → s ≡ t
  Sketches-unique col xs s t p q = cc (
    p.row_eq,
    p.col_eq,
    q.row_eq,
    q.col_eq,
    grid_ext R W c.default s.counts t.counts pos p.shaped q.shaped
        (λ r j hr hj. p.cells r j hr hj ∙ sym (q.cells r j hr hj)),
  )

module _ {K C : Type 0} (c : Counter C) (h : SketchHasher K) (R W : ℕ) where
  -- a new sketch and a stream, on the regular path
  abbrev pub build : List (K × C) → Run (CountMin C)
  build ws = with_dimensions c R W >>= Regular.bulk_insert_many c h ws

  build-Sketches :
      (ws : List (K × C))
      → 0 < W
      → Returns (Sketches c (Regular.column h W) R W (reverse_aux ws [])) (build ws)
  unfolding Regular.bulk_insert_many
  build-Sketches ws pos =
      Returns-bind (with_dimensions-Sketches c R W (Regular.column h W) pos) λ s v.
        Returns-for_each (λ xs t. Sketches c (Regular.column h W) R W xs t) [] ws _ s
          (λ ys (y, w) t u. regular-insert_many c R W h pos y w ys t u) v

module _ {K C : Type 0} (c : Counter C) (laws : IsAdditive c) (h : SketchHasher K) (R W : ℕ)
    (pos : 0 < W) where
  -- For counters whose sums commute, such as integers that wrap: merging the sketches of two
  -- streams, on the regular path, gives exactly the sketch of the one stream followed by the other.
  pub merge-build :
      (ws vs : List (K × C))
      → (do a ← build c h R W ws; b ← build c h R W vs; merge c a b) ≡ build c h R W (ws ++ vs)
  merge-build ws vs =
      let (a, run_a, p) = Returns-inv (build-Sketches c h R W ws pos) in
      let (b, run_b, q) = Returns-inv (build-Sketches c h R W vs pos) in
      let (m, run_m, u) = Returns-inv (
        merge-Sketches c laws (Regular.column h W) R W (reverse_aux ws []) (reverse_aux vs []) a b p
          q) in
      let (n, run_n, v) = Returns-inv (build-Sketches c h R W (ws ++ vs) pos) in
      ap (λ r. r >>= λ a'. build c h R W vs >>= λ b'. merge c a' b') run_a
      ∙ ap (λ r. r >>= λ b'. merge c a b') run_b
      ∙ run_m
      ∙ ap ok (
          Sketches-unique c laws h R W pos (Regular.column h W)
            (reverse_aux vs [] ++ reverse_aux ws []) m n u
            (subst (λ l. Sketches c (Regular.column h W) R W l n) (reverse_aux-append ws vs) v))
      ∙ sym run_n
