-- ===== src/Bloom/Membership.antt =====
-- A filter never forgets a key, on either path.
use native.Mathlib.Nat.{mod-lt}
use mathlib.Core.List.{Mem}
use asap_sketchlib.Prelude.{
  ℕ, zero, suc, ◌+◌, ◌-◌, ◌<◌, ◌≤◌, ◌≡◌, refl, ap, ◌∙◌, List, Bool, true, arith, leb, lt→ltb, Run,
  ok, ◌>>=◌, for_range,
}
use asap_sketchlib.Hasher.{SketchHasher}
use asap_sketchlib.Matrix.Hash.{
  cols_mask_bits, fold_to_col, column, column-lt, HasRows, row_hash-ok,
}
use asap_sketchlib.BitMatrix.{new, col_for_row, fast_insert, fast_query_min, hash_for_matrix}
use asap_sketchlib.BitMatrix.Shape.{
  grid, reads, mark_rows, Fits, set_bit-ok, get-ok, put-ok, marking_loop,
}
use asap_sketchlib.Bloom.{with_dimensions, saturating_add}
use asap_sketchlib.Bloom.Regular
use asap_sketchlib.Bloom.Fast
use asap_sketchlib.Bloom.Slices.{
  mark_all, counted, filter, zeros, zeros-Fits, mark_all-Fits, inserting_loop, marked_all_read,
}

pub with_dimensions-ok :
    {K : Type 0} (pos : K → ℕ → ℕ) (R C : ℕ)
    → 0 < R
    → R ≤ 20
    → 0 < C
    → with_dimensions R C ≡ ok (filter R C pos (zeros R C pos) 0)
unfolding with_dimensions new
with_dimensions-ok pos R C a b c =
    let few : leb R 20 ≡ true = ground arith in rw (few, lt→ltb 0 R a, lt→ltb 0 C c) refl

module _ {K : Type 0} (h : SketchHasher K) (R C : ℕ) (high : 0 < R) (wide : 0 < C) where
  -- the columns of the regular path
  abbrev pub seeded : K → ℕ → ℕ
  seeded v r = Regular.slice_column h C v r

  pub seeded-lt : (v : K) (r : ℕ) → r < R → seeded v r < C
  seeded-lt v r lt = mod-lt _ wide

  regular_insert-ok :
      (v : K) (ws : List ℕ) (n : ℕ)
      → Fits R C ws
      → Regular.insert h v (filter R C seeded ws n)
        ≡ ok (filter R C seeded (mark_rows R C R 0 (seeded v) ws) (saturating_add n 1))
  unfolding Regular.insert
  regular_insert-ok v ws n f =
      ap (λ z. z >>= λ bits. ok (record { bits = bits; inserted = saturating_add n 1 }))
        (marking_loop R C _ (seeded v)
          (λ r us lt g. set_bit-ok R C r (seeded v r) us g lt (seeded-lt v r lt)) R 0 ws
          (omega arith) f)

  pub regular_bulk_insert-ok :
      (vs : List K) (ws : List ℕ) (n : ℕ)
      → Fits R C ws
      → Regular.bulk_insert h vs (filter R C seeded ws n)
        ≡ ok (filter R C seeded (mark_all R C seeded vs ws) (counted R C seeded vs n))
  unfolding Regular.bulk_insert
  regular_bulk_insert-ok vs ws n f =
      inserting_loop R C seeded (Regular.insert h) regular_insert-ok vs ws n f

  regular_contains-ok :
      (v : K) (ws : List ℕ) (n i : ℕ)
      → Fits R C ws
      → i + n ≤ R
      → ((r : ℕ) → r < R → reads R C ws r (seeded v r) ≡ true)
      → Regular.contains_from h (grid R C ws) n i v ≡ ok true
  unfolding Regular.contains_from
  regular_contains-ok v ws zero i f b t = refl
  regular_contains-ok v ws (suc n) i f b t =
      rw
        (
          get-ok R C i (seeded v i) ws f (omega arith) (seeded-lt v i (omega arith)),
          t i (omega arith),
        )
        (regular_contains-ok v ws n (suc i) f (omega arith) t)

  -- A new filter of 1 to 20 slices and any positive width, filled with a stream on the regular
  -- path, says yes about every key of the stream; no call panics.
  pub regular-no_false_negative :
      R ≤ 20
      → (vs : List K) (v : K) → Mem v vs
      → (do
        empty ← with_dimensions R C
        full ← Regular.bulk_insert h vs empty
        Regular.contains h full v)
        ≡ ok true
  unfolding Regular.contains
  regular-no_false_negative few vs v m =
      let f = zeros-Fits R C seeded in
      ap (λ z. z >>= λ empty. Regular.bulk_insert h vs empty >>= λ full. Regular.contains h full v)
        (with_dimensions-ok seeded R C high few wide)
      ∙ ap (λ z. z >>= λ full. Regular.contains h full v)
          (regular_bulk_insert-ok vs (zeros R C seeded) 0 f)
      ∙ regular_contains-ok v (mark_all R C seeded vs (zeros R C seeded)) R 0
          (mark_all-Fits R C seeded vs _ f) (omega arith)
          (λ r lt. marked_all_read R C seeded seeded-lt vs v r _ m lt f)

  module _ (has : (v : K) → HasRows (h.hash_for_matrix_seeded 0 R C v) R) where
    -- the columns of the fast path
    abbrev pub decoded : K → ℕ → ℕ
    decoded v r = column (h.hash_for_matrix_seeded 0 R C v) r C

    pub decoded-lt : (v : K) (r : ℕ) → r < R → decoded v r < C
    decoded-lt v r lt = column-lt _ r C wide

    col_for_row-ok :
        (v : K) (ws : List ℕ) (r : ℕ)
        → r < R
        → col_for_row (grid R C ws) (h.hash_for_matrix_seeded 0 R C v) r ≡ ok (decoded v r)
    unfolding col_for_row column
    col_for_row-ok v ws r lt =
        ap (λ z. z >>= λ raw. ok (fold_to_col raw C))
          (row_hash-ok (h.hash_for_matrix_seeded 0 R C v) R r (cols_mask_bits C) (has v) lt)

    fast_insert-ok :
        (v : K) (ws : List ℕ) (n : ℕ)
        → Fits R C ws
        → Fast.insert h v (filter R C decoded ws n)
          ≡ ok (filter R C decoded (mark_rows R C R 0 (decoded v) ws) (saturating_add n 1))
    unfolding Fast.insert fast_insert hash_for_matrix
    fast_insert-ok v ws n f =
        ap (λ z. z >>= λ bits. ok (record { bits = bits; inserted = saturating_add n 1 }))
          (marking_loop R C _ (decoded v)
            (λ r us lt g.
              rw (col_for_row-ok v us r lt, get-ok R C r (decoded v r) us g lt (decoded-lt v r lt))
                (put-ok R C r (decoded v r) us g lt (decoded-lt v r lt)))
            R 0 ws (omega arith) f)

    pub fast_bulk_insert-ok :
        (vs : List K) (ws : List ℕ) (n : ℕ)
        → Fits R C ws
        → Fast.bulk_insert h vs (filter R C decoded ws n)
          ≡ ok (filter R C decoded (mark_all R C decoded vs ws) (counted R C decoded vs n))
    unfolding Fast.bulk_insert
    fast_bulk_insert-ok vs ws n f =
        inserting_loop R C decoded (Fast.insert h) fast_insert-ok vs ws n f

    all_true :
        (body : ℕ → Bool → Run Bool)
        → ((r : ℕ) → r < R → body r true ≡ ok true)
        → (n i : ℕ) → i + n ≤ R
        → for_range n i body true ≡ ok true
    unfolding for_range
    all_true body step zero i b = refl
    all_true body step (suc n) i b =
        ap (λ z. z >>= for_range n (suc i) body) (step i (omega arith))
        ∙ all_true body step n (suc i) (omega arith)

    fast_contains-ok :
        (v : K) (ws : List ℕ) (n : ℕ)
        → Fits R C ws
        → ((r : ℕ) → r < R → reads R C ws r (decoded v r) ≡ true)
        → Fast.contains h (filter R C decoded ws n) v ≡ ok true
    unfolding Fast.contains fast_query_min hash_for_matrix
    fast_contains-ok v ws n f t =
        rw
          (
            col_for_row-ok v ws 0 high,
            get-ok R C 0 (decoded v 0) ws f high (decoded-lt v 0 high),
            t 0 high,
          )
          (all_true _
            (λ r lt.
              rw
                (
                  col_for_row-ok v ws r lt,
                  get-ok R C r (decoded v r) ws f lt (decoded-lt v r lt),
                  t r lt,
                )
                refl)
            (R - 1) 1 (omega arith))

    -- A new filter of 1 to 20 slices and any positive width, filled with a stream on the fast path
    -- by a hash that holds a value for each slice, says yes about every key of the stream; no call
    -- panics.
    pub fast-no_false_negative :
        R ≤ 20
        → (vs : List K) (v : K) → Mem v vs
        → (do
          empty ← with_dimensions R C
          full ← Fast.bulk_insert h vs empty
          Fast.contains h full v)
          ≡ ok true
    fast-no_false_negative few vs v m =
        let f = zeros-Fits R C decoded in
        ap (λ z. z >>= λ empty. Fast.bulk_insert h vs empty >>= λ full. Fast.contains h full v)
          (with_dimensions-ok decoded R C high few wide)
        ∙ ap (λ z. z >>= λ full. Fast.contains h full v)
            (fast_bulk_insert-ok vs (zeros R C decoded) 0 f)
        ∙ fast_contains-ok v (mark_all R C decoded vs (zeros R C decoded)) _
            (mark_all-Fits R C decoded vs _ f)
            (λ r lt. marked_all_read R C decoded decoded-lt vs v r _ m lt f)
