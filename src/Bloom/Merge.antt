-- ===== src/Bloom/Merge.antt =====
-- The union of two filters.
use asap_sketchlib.Prelude.{
  ℕ, zero, suc, ◌*◌, ◌<◌, ◌≤◌, ◌≡◌, refl, sym, ap, ap₂, ◌∙◌, List, ◌∷◌, ◌++◌, arith, ==_refl, Run,
  ok, ◌>>=◌, length-append, replicate,
}
use asap_sketchlib.Hasher.{SketchHasher}
use asap_sketchlib.Matrix.Hash.{HasRows}
use asap_sketchlib.BitMatrix.{lor, or_words, words_for, union_from}
use asap_sketchlib.BitMatrix.Bits.{or_words_comm}
use asap_sketchlib.BitMatrix.Shape.{Fits}
use asap_sketchlib.Bloom.{Bloom, with_dimensions, saturating_add, merge}
use asap_sketchlib.Bloom.Regular
use asap_sketchlib.Bloom.Fast
use asap_sketchlib.Bloom.Slices.{
  mark_all, counted, filter, zeros, zeros-Fits, mark_all-Fits, mark_all-append, counted-eq,
  or_words-mark_all,
}
use asap_sketchlib.Bloom.Membership.{
  with_dimensions-ok, seeded, seeded-lt, regular_bulk_insert-ok, decoded, decoded-lt,
  fast_bulk_insert-ok,
}

no_bits : lor 64 0 0 ≡ 0
unfolding lor
no_bits = refl

or_words-replicate : (n : ℕ) → or_words (replicate n 0) (replicate n 0) ≡ replicate n 0
unfolding or_words
or_words-replicate zero = refl
or_words-replicate (suc n) = ap₂ (λ w ws. w ∷ ws) no_bits (or_words-replicate n)

module _ {K : Type 0} (R C : ℕ) (pos : K → ℕ → ℕ)
    (inside : (v : K) (r : ℕ) → r < R → pos v r < C) where
  abbrev marked : List K → List ℕ
  marked vs = mark_all R C pos vs (zeros R C pos)

  marked-Fits : (vs : List K) → Fits R C (marked vs)
  marked-Fits vs = mark_all-Fits R C pos vs (zeros R C pos) (zeros-Fits R C pos)

  or_words-zeros : (vs : List K) → or_words (marked vs) (zeros R C pos) ≡ marked vs
  or_words-zeros vs =
      or_words_comm (marked vs) (zeros R C pos) (marked-Fits vs ∙ sym (zeros-Fits R C pos))
      ∙ or_words-mark_all R C pos inside vs (zeros R C pos) (zeros R C pos) (zeros-Fits R C pos)
          (zeros-Fits R C pos)
      ∙ ap (mark_all R C pos vs) (or_words-replicate (R * words_for C))

  or_words-marked : (xs ys : List K) → or_words (marked xs) (marked ys) ≡ marked (xs ++ ys)
  or_words-marked xs ys =
      or_words-mark_all R C pos inside ys (marked xs) (zeros R C pos) (marked-Fits xs)
        (zeros-Fits R C pos)
      ∙ ap (mark_all R C pos ys) (or_words-zeros xs)
      ∙ sym (mark_all-append R C pos xs ys (zeros R C pos))

  counted_sum :
      (xs ys : List K)
      → saturating_add (counted R C pos xs 0) (counted R C pos ys 0) ≡ counted R C pos (xs ++ ys) 0
  counted_sum xs ys = omega (
    arith,
    counted-eq R C pos xs 0 (omega arith),
    counted-eq R C pos ys 0 (omega arith),
    counted-eq R C pos (xs ++ ys) 0 (omega arith),
    length-append xs ys,
  )

  merge-filter :
      (xs ys : List K)
      → merge
          (filter R C pos (marked xs) (counted R C pos xs 0))
          (filter R C pos (marked ys) (counted R C pos ys 0))
        ≡ ok (filter R C pos (marked (xs ++ ys)) (counted R C pos (xs ++ ys) 0))
  unfolding merge union_from
  merge-filter xs ys =
      rw (==_refl R, ==_refl C)
        (ap₂ (λ ws n. ok (filter R C pos ws n)) (or_words-marked xs ys) (counted_sum xs ys))

  -- for a loop that inserts a stream
  merge_streams :
      (bulk_insert : List K → Bloom → Run Bloom)
      → ((vs : List K)
          → bulk_insert vs (filter R C pos (zeros R C pos) 0)
            ≡ ok (filter R C pos (marked vs) (counted R C pos vs 0)))
      → 0 < R
      → R ≤ 20
      → 0 < C
      → (xs ys : List K)
      → (do
        empty ← with_dimensions R C
        a ← bulk_insert xs empty
        b ← bulk_insert ys empty
        merge a b)
        ≡ (with_dimensions R C >>= bulk_insert (xs ++ ys))
  merge_streams bulk_insert run high few wide xs ys =
      let new = with_dimensions-ok pos R C high few wide in
      ap (λ z. z >>= λ empty. bulk_insert xs empty >>= λ a. bulk_insert ys empty >>= λ b. merge a b)
        new
      ∙ ap (λ z. z >>= λ a. bulk_insert ys (filter R C pos (zeros R C pos) 0) >>= λ b. merge a b)
          (run xs)
      ∙ ap (λ z. z >>= λ b. merge (filter R C pos (marked xs) (counted R C pos xs 0)) b) (run ys)
      ∙ merge-filter xs ys
      ∙ sym (run (xs ++ ys))
      ∙ ap (λ z. z >>= bulk_insert (xs ++ ys)) (sym new)

-- The union of the filters of two streams, with 1 to 20 slices of any positive width, is exactly
-- the filter of one stream followed by the other, its count of insertions included (regular path).
pub regular-merge_union :
    {K : Type 0} (h : SketchHasher K) (R C : ℕ)
    → 0 < R
    → R ≤ 20
    → 0 < C
    → (xs ys : List K)
    → (do
      empty ← with_dimensions R C
      a ← Regular.bulk_insert h xs empty
      b ← Regular.bulk_insert h ys empty
      merge a b)
      ≡ (with_dimensions R C >>= Regular.bulk_insert h (xs ++ ys))
regular-merge_union h R C high few wide =
    let pos = seeded h R C high wide in
    merge_streams R C pos (seeded-lt h R C high wide) (Regular.bulk_insert h)
      (λ vs. regular_bulk_insert-ok h R C high wide vs (zeros R C pos) 0 (zeros-Fits R C pos)) high
      few wide

-- The union of the filters of two streams, with 1 to 20 slices of any positive width, is exactly
-- the filter of one stream followed by the other, its count of insertions included (fast path,
-- with a hash that holds a value for each slice).
pub fast-merge_union :
    {K : Type 0} (h : SketchHasher K) (R C : ℕ)
    → 0 < R
    → R ≤ 20
    → 0 < C
    → ((v : K) → HasRows (h.hash_for_matrix_seeded 0 R C v) R)
    → (xs ys : List K)
    → (do
      empty ← with_dimensions R C
      a ← Fast.bulk_insert h xs empty
      b ← Fast.bulk_insert h ys empty
      merge a b)
      ≡ (with_dimensions R C >>= Fast.bulk_insert h (xs ++ ys))
fast-merge_union h R C high few wide has =
    let pos = decoded h R C high wide has in
    merge_streams R C pos (decoded-lt h R C high wide has) (Fast.bulk_insert h)
      (λ vs. fast_bulk_insert-ok h R C high wide has vs (zeros R C pos) 0 (zeros-Fits R C pos)) high
      few wide
