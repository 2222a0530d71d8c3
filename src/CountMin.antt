-- ===== src/CountMin.antt =====
-- src/sketches/countminsketch.rs over Vector2D storage: the sketch, its construction, the two
-- merges and the deltas of a worker. The two hash paths are in Regular and Fast. A panic of the
-- code is `panic`; floats, the fixed matrices and Nitro sampling are left out.
pub mod Regular
pub mod Fast
pub mod Tally
pub mod Stream
pub mod Merge
pub mod Bounds
pub mod Concat
pub mod Emit
pub mod Promotion
pub mod Aggregate
use asap_sketchlib.Prelude.{
  ℕ, suc, ◌+◌, ◌%◌, ◌^◌, List, [], ◌∷◌, ◌++◌, Bool, ◌&&◌, min, max, ltb, leb, ◌==◌, if◌then◌else◌,
  Run, ok, ◌>>=◌, assert, for_range,
}
use asap_sketchlib.Matrix.Counter.{Counter}
use asap_sketchlib.Matrix.Vector2d.{
  Vector2D, init, fill, update_one_counter, query_one_counter, increment_by_row,
}

pub record CountMin (C : Type 0) : Type 0 where
  pub counts : Vector2D C
  pub row : ℕ
  pub col : ℕ

-- src/sketches/octo_delta.rs
pub record CmDelta : Type 0 where
  pub row : ℕ
  pub col : ℕ
  pub value : ℕ

abbrev pub max_promask : ℕ
max_promask = 127

abbrev pub cm_promask : ℕ
cm_promask = 31

module _ {C : Type 0} where
  unfoldable pub from_storage : Vector2D C → CountMin C
  from_storage m = record { counts = m; row = m.rows; col = m.cols }

  -- the loops of the two merges
  unfoldable pub merge_with : (C → C → C) → Vector2D C → Vector2D C → Run (Vector2D C)
  unfolding update_one_counter query_one_counter
  merge_with op other counts =
      for_range counts.rows 0
        (λ i t.
          for_range counts.cols 0
            (λ j u. do
              value ← query_one_counter other i j
              update_one_counter i j (λ old. op old value) u)
            t)
        counts

  abbrev pub same_dimensions : Vector2D C → Vector2D C → Bool
  same_dimensions a b = (a.rows == b.rows) && (a.cols == b.cols)

module _ {C : Type 0} (c : Counter C) where
  unfoldable pub with_dimensions : ℕ → ℕ → Run (CountMin C)
  unfolding init fill
  with_dimensions rows cols = do
    m ← init rows cols
    ok (record { counts = fill c.default m; row = rows; col = cols })

  unfoldable pub merge : CountMin C → CountMin C → Run (CountMin C)
  unfolding merge_with
  merge self other =
      assert (same_dimensions self.counts other.counts) (do
        counts ← merge_with c.add other.counts self.counts
        ok (record self { counts = counts }))

  unfoldable pub merge_max : CountMin C → CountMin C → Run (CountMin C)
  unfolding merge_with
  merge_max self other = assert (same_dimensions self.counts other.counts) (do
    counts ←
        merge_with (λ cell incoming. if c.less cell incoming then incoming else cell) other.counts
          self.counts
    ok (record self { counts = counts }))

  -- `delta.value as i32` keeps the bit pattern.
  unfoldable pub apply_delta : CmDelta → CountMin C → Run (CountMin C)
  unfolding increment_by_row
  apply_delta delta self = do
    counts ← increment_by_row c delta.row delta.col (c.from_i32 delta.value) self.counts
    ok (record self { counts = counts })
