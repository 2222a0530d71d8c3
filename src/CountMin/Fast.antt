-- ===== src/CountMin/Fast.antt =====
-- src/sketches/countminsketch.rs, the fast path: one hash for all rows.
use asap_sketchlib.Prelude.{List, Run, ok, ◌>>=◌, for_each}
use asap_sketchlib.Hasher.{SketchHasher}
use asap_sketchlib.Matrix.Counter.{Counter}
use asap_sketchlib.Matrix.Hash.{MatrixHashType}
use asap_sketchlib.Matrix.Vector2d.{Vector2D, fast_insert, fast_query_min}
use asap_sketchlib.CountMin.{CountMin}

module _ {K C : Type 0} (h : SketchHasher K) where
  -- vector2d.rs, `FastPathHasher`
  unfoldable pub hash_for_matrix : Vector2D C → K → MatrixHashType
  hash_for_matrix m value = h.hash_for_matrix_seeded 0 m.rows m.cols value

module _ {C : Type 0} (c : Counter C) where
  unfoldable pub fast_insert_many_with_hash_value :
      MatrixHashType → C → CountMin C → Run (CountMin C)
  unfolding fast_insert
  fast_insert_many_with_hash_value hashed_val many self = do
    counts ← fast_insert (λ a. c.add a many) hashed_val self.counts
    ok (record self { counts = counts })

  unfoldable pub fast_estimate_with_hash : CountMin C → MatrixHashType → Run C
  unfolding fast_query_min
  fast_estimate_with_hash self hashed_val =
      fast_query_min c.less (λ val. val) hashed_val self.counts

module _ {K C : Type 0} (c : Counter C) (h : SketchHasher K) where
  unfoldable pub insert_many : K → C → CountMin C → Run (CountMin C)
  unfolding hash_for_matrix fast_insert
  insert_many value many self = do
    counts ← fast_insert (λ a. c.add a many) (hash_for_matrix h self.counts value) self.counts
    ok (record self { counts = counts })

  unfoldable pub insert : K → CountMin C → Run (CountMin C)
  unfolding hash_for_matrix fast_insert
  insert value self = do
    counts ←
        fast_insert (λ a. c.add a (c.from_i32 1)) (hash_for_matrix h self.counts value) self.counts
    ok (record self { counts = counts })

  unfoldable pub bulk_insert_many : List (K × C) → CountMin C → Run (CountMin C)
  unfolding insert_many
  bulk_insert_many values self = for_each values (λ (value, many). insert_many value many) self

  unfoldable pub estimate : CountMin C → K → Run C
  unfolding hash_for_matrix fast_query_min
  estimate self value =
      fast_query_min c.less (λ val. val) (hash_for_matrix h self.counts value) self.counts
