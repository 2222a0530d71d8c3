-- ===== src/CountMin/Regular.antt =====
-- src/sketches/countminsketch.rs, the regular path: one seeded hash for each row.
use asap_sketchlib.Prelude.{
  ℕ, ◌-◌, ◌%◌, ◌^◌, List, Run, ok, ◌>>=◌, for_range, for_each, if◌then◌else◌,
}
use asap_sketchlib.Hasher.{SketchHasher}
use asap_sketchlib.Matrix.Counter.{Counter}
use asap_sketchlib.Matrix.Vector2d.{query_one_counter, increment_by_row}
use asap_sketchlib.CountMin.{CountMin}

-- `((hashed & LOWER_32_MASK) as usize) % cols`
abbrev pub column : {K : Type 0} → SketchHasher K → ℕ → K → ℕ → ℕ
column h cols value r = h.hash64_seeded r value % 2 ^ 32 % cols

module _ {K C : Type 0} (c : Counter C) (h : SketchHasher K) where
  unfoldable pub insert_many : K → C → CountMin C → Run (CountMin C)
  unfolding increment_by_row
  insert_many value many self = do
    let rows = self.counts.rows
    let cols = self.counts.cols
    counts ←
        for_range rows 0 (λ r t. increment_by_row c r (column h cols value r) many t) self.counts
    ok (record self { counts = counts })

  unfoldable pub insert : K → CountMin C → Run (CountMin C)
  unfolding increment_by_row
  insert value self = do
    let rows = self.counts.rows
    let cols = self.counts.cols
    counts ←
        for_range rows 0 (λ r t. increment_by_row c r (column h cols value r) (c.from_i32 1) t)
          self.counts
    ok (record self { counts = counts })

  unfoldable pub bulk_insert : List K → CountMin C → Run (CountMin C)
  unfolding insert
  bulk_insert values self = for_each values insert self

  unfoldable pub bulk_insert_many : List (K × C) → CountMin C → Run (CountMin C)
  unfolding insert_many
  bulk_insert_many values self = for_each values (λ (value, many). insert_many value many) self

  unfoldable pub estimate : CountMin C → K → Run C
  unfolding query_one_counter
  estimate self value = do
    let rows = self.counts.rows
    let cols = self.counts.cols
    first ← query_one_counter self.counts 0 (column h cols value 0)
    for_range (rows - 1) 1
        (λ r best. do
          v ← query_one_counter self.counts r (column h cols value r)
          ok (if c.less v best then v else best))
        first
