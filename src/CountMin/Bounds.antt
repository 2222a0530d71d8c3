-- ===== src/CountMin/Bounds.antt =====
-- The guarantee of a Count-Min sketch over i64 counters: a stream whose weights sum to less than
-- 2 ^ 63 is never underestimated.
use mathlib.Core.Logic.{ite, if_pos, if_neg}
use asap_sketchlib.Prelude.{
  ℕ, ◌+◌, ◌^◌, ◌<◌, ◌≤◌, ◌≡◌, ◌≢◌, refl, ap, ◌∙◌, List, [], ◌∷◌, arith, ◌==◌, if◌then◌else◌, Run,
  ok, ◌>>=◌, Returns, Returns-bind, Returns-map, Returns-inv, Returns-for_each, reverse_aux,
}
use asap_sketchlib.Hasher.{SketchHasher}
use asap_sketchlib.Matrix.Counter.{i64_counter, i64-IsOrdered}
use asap_sketchlib.Matrix.Hash.{HasRows}
use asap_sketchlib.CountMin.{with_dimensions}
use asap_sketchlib.CountMin.Regular
use asap_sketchlib.CountMin.Fast
use asap_sketchlib.CountMin.Tally.{tally, Sketches, IsLeast}
use asap_sketchlib.CountMin.Stream.{
  with_dimensions-Sketches, regular-insert_many, regular-estimate, fast_column, fast-insert_many,
  fast-estimate,
}

module _ {K : Type 0} where
  -- the sum of all weights
  abbrev pub total : List (K × ℕ) → ℕ
  total [] = 0
  total ((x, w) ∷ xs) = w + total xs

  pub total-reverse_aux :
      (xs done : List (K × ℕ)) → total (reverse_aux xs done) ≡ total xs + total done
  total-reverse_aux [] done = omega arith
  total-reverse_aux ((x, w) ∷ xs) done = omega (arith, total-reverse_aux xs ((x, w) ∷ done))

module _ {K : Type 0} (h : SketchHasher K) (R W : ℕ) where
  -- the run that the theorems are about: a new sketch, a stream, an estimate
  abbrev pub regular_run : List (K × ℕ) → K → Run ℕ
  regular_run ws x = do
    s ← with_dimensions i64_counter R W
    t ← Regular.bulk_insert_many i64_counter h ws s
    Regular.estimate i64_counter h t x

  abbrev pub fast_run : List (K × ℕ) → K → Run ℕ
  fast_run ws x = do
    s ← with_dimensions i64_counter R W
    t ← Fast.bulk_insert_many i64_counter h ws s
    Fast.estimate i64_counter h t x

module _ {K : Type 0} (key_eq : Discrete K) where
  -- the true weight of a key
  abbrev pub count : K → List (K × ℕ) → ℕ
  count x [] = 0
  count x ((y, w) ∷ xs) = ite (key_eq y x) (w + count x xs) (count x xs)

  pub count-reverse_aux :
      (x : K) (xs done : List (K × ℕ)) → count x (reverse_aux xs done) ≡ count x xs + count x done
  count-reverse_aux x [] done = omega arith
  count-reverse_aux x ((y, w) ∷ xs) done = ground (arith, count-reverse_aux x xs ((y, w) ∷ done))

  module _ (col : K → ℕ → ℕ) where
    -- No other key of the stream falls on the cell of `x` in row `r`.
    abbrev pub IsIsolated : K → ℕ → List (K × ℕ) → Type 0
    IsIsolated x r [] = Unit {0}
    IsIsolated x r ((y, w) ∷ xs) = (y ≢ x → col y r ≢ col x r) × IsIsolated x r xs

    IsIsolated-reverse_aux :
        (x : K) (r : ℕ) (xs done : List (K × ℕ))
        → IsIsolated x r xs
        → IsIsolated x r done
        → IsIsolated x r (reverse_aux xs done)
    IsIsolated-reverse_aux x r [] done h k = k
    IsIsolated-reverse_aux x r ((y, w) ∷ xs) done h k =
        IsIsolated-reverse_aux x r xs ((y, w) ∷ done) h.1 (h.0, k)

    -- the cell's value, before any wrap
    unfoldable pub load : ℕ → ℕ → List (K × ℕ) → ℕ
    load r j [] = 0
    load r j ((x, w) ∷ xs) = if col x r == j then w + load r j xs else load r j xs

    pub load-le-total : (r j : ℕ) (xs : List (K × ℕ)) → load r j xs ≤ total xs
    unfolding load
    load-le-total r j [] = omega arith
    load-le-total r j ((x, w) ∷ xs) = ground (arith, load-le-total r j xs)

    tally-load :
        (r j : ℕ) (xs : List (K × ℕ))
        → total xs < 2 ^ 63
        → tally i64_counter col r j xs ≡ load r j xs
    unfolding load tally
    tally-load r j [] h = refl
    tally-load r j ((x, w) ∷ xs) h =
        ground (arith, tally-load r j xs (omega arith), load-le-total r j xs)

    pub count-le-load : (x : K) (r : ℕ) (xs : List (K × ℕ)) → count x xs ≤ load r (col x r) xs
    unfolding load
    count-le-load x r [] = omega arith
    count-le-load x r ((y, w) ∷ xs) = elim (key_eq y x) [
      | yes p ↦ rw (if_pos _ p, p) (ground (arith, count-le-load x r xs))
      | no p ↦ rw (if_neg _ p) (ground (arith, count-le-load x r xs))
    ]

    load-IsIsolated :
        (x : K) (r : ℕ) (xs : List (K × ℕ)) → IsIsolated x r xs → load r (col x r) xs ≡ count x xs
    unfolding load
    load-IsIsolated x r [] h = refl
    load-IsIsolated x r ((y, w) ∷ xs) h = elim (key_eq y x) [
      | yes p ↦ rw (if_pos _ p, p) (ground (arith, load-IsIsolated x r xs h.1))
      | no p ↦ rw (if_neg _ p) (ground (arith, load-IsIsolated x r xs h.1, h.0 p))
    ]

    -- An estimate of `x` between its weight and the weight of the stream, and exact in isolation.
    abbrev pub Accurate : K → List (K × ℕ) → ℕ → ℕ → Type 0
    Accurate x xs R e =
        (count x xs ≤ e) × (e ≤ total xs) × ((r : ℕ) → r < R → IsIsolated x r xs → e ≡ count x xs)

    pub least-Accurate :
        (x : K) (xs : List (K × ℕ)) (R e : ℕ)
        → total xs < 2 ^ 63
        → IsLeast i64_counter.less (λ r. tally i64_counter col r (col x r) xs) R e
        → Accurate x xs R e
    least-Accurate x xs R e small ((r, lt, eq), low) = (
      omega (arith, eq ∙ tally-load r (col x r) xs small, count-le-load x r xs),
      omega (arith, eq ∙ tally-load r (col x r) xs small, load-le-total r (col x r) xs),
      λ k p isolated. ground (
        arith,
        low k p,
        eq ∙ tally-load r (col x r) xs small,
        tally-load k (col x k) xs small,
        load-IsIsolated x k xs isolated,
        load-le-total k (col x k) xs,
        load-le-total r (col x r) xs,
        count-le-load x r xs,
      ),
    )

  -- The bounds do not depend on the order of the stream.
  Accurate-reverse_aux :
      (col : K → ℕ → ℕ) (x : K) (ws : List (K × ℕ)) (R e : ℕ)
      → Accurate col x (reverse_aux ws []) R e
      → Accurate col x ws R e
  Accurate-reverse_aux col x ws R e b = (
    omega (arith, b.0, count-reverse_aux x ws []),
    omega (arith, b.1, total-reverse_aux ws []),
    λ r p isolated.
        b.2 r p (IsIsolated-reverse_aux col x r ws [] isolated tt)
        ∙ count-reverse_aux x ws []
        ∙ (let none_done : count x ws + 0 ≡ count x ws = omega arith in none_done),
  )

  module _ (h : SketchHasher K) (R W : ℕ) (rows : 0 < R) (cols : 0 < W) where
    regular-estimate-Accurate :
        (ws : List (K × ℕ)) (x : K)
        → total ws < 2 ^ 63
        → Returns (Accurate (Regular.column h W) x ws R) (do
          s ← with_dimensions i64_counter R W
          t ← Regular.bulk_insert_many i64_counter h ws s
          Regular.estimate i64_counter h t x)
    unfolding Regular.bulk_insert_many
    regular-estimate-Accurate ws x small =
        Returns-bind (with_dimensions-Sketches i64_counter R W (Regular.column h W) cols) λ s v.
          Returns-bind
            (Returns-for_each (λ xs t. Sketches i64_counter (Regular.column h W) R W xs t) [] ws _ s
              (λ ys (y, w) t u. regular-insert_many i64_counter R W h cols y w ys t u) v)
            λ t u.
              Returns-map
                (regular-estimate i64_counter R W h cols x (reverse_aux ws []) t i64-IsOrdered rows
                  u)
                λ e l. Accurate-reverse_aux (Regular.column h W) x ws R e (
                  least-Accurate (Regular.column h W) x (reverse_aux ws []) R e
                    (omega (arith, total-reverse_aux ws [])) l)

    fast-estimate-Accurate :
        (ws : List (K × ℕ)) (x : K)
        → total ws < 2 ^ 63
        → ((y : K) → HasRows (h.hash_for_matrix_seeded 0 R W y) R)
        → Returns (Accurate (fast_column i64_counter R W h) x ws R) (do
          s ← with_dimensions i64_counter R W
          t ← Fast.bulk_insert_many i64_counter h ws s
          Fast.estimate i64_counter h t x)
    unfolding Fast.bulk_insert_many
    fast-estimate-Accurate ws x small has =
        let col = fast_column i64_counter R W h in
        Returns-bind (with_dimensions-Sketches i64_counter R W col cols) λ s v.
          Returns-bind
            (Returns-for_each (λ xs t. Sketches i64_counter col R W xs t) [] ws _ s
              (λ ys (y, w) t u. fast-insert_many i64_counter R W h cols has y w ys t u) v)
            λ t u.
              Returns-map
                (fast-estimate i64_counter R W h cols has x (reverse_aux ws []) t i64-IsOrdered rows
                  u)
                λ e l. Accurate-reverse_aux col x ws R e (
                  least-Accurate col x (reverse_aux ws []) R e
                    (omega (arith, total-reverse_aux ws [])) l)

    -- Regular path, i64 counters, at least one row and column: a stream whose weights sum to less
    -- than 2 ^ 63 is inserted without a panic, and then the estimate of any key is at least the
    -- key's weight and at most the weight of the stream.
    pub regular-estimate-Bounds :
        (ws : List (K × ℕ)) (x : K)
        → total ws < 2 ^ 63
        → Returns (λ e. (count x ws ≤ e) × (e ≤ total ws)) (regular_run h R W ws x)
    regular-estimate-Bounds ws x small =
        Returns-map (regular-estimate-Accurate ws x small) λ e b. (b.0, b.1)

    -- Fast path, i64 counters, at least one row and column, a hash that holds a value for every
    -- row: a stream whose weights sum to less than 2 ^ 63 is inserted without a panic, and then
    -- the estimate of any key is at least the key's weight and at most the weight of the stream.
    pub fast-estimate-Bounds :
        (ws : List (K × ℕ)) (x : K)
        → total ws < 2 ^ 63
        → ((y : K) → HasRows (h.hash_for_matrix_seeded 0 R W y) R)
        → Returns (λ e. (count x ws ≤ e) × (e ≤ total ws)) (fast_run h R W ws x)
    fast-estimate-Bounds ws x small has =
        Returns-map (fast-estimate-Accurate ws x small has) λ e b. (b.0, b.1)

    -- Regular path, i64 counters, weights that sum to less than 2 ^ 63: where some row keeps a key
    -- apart from every other key of the stream, the estimate is the key's weight.
    pub regular-estimate_exact :
        (ws : List (K × ℕ)) (x : K) (r : ℕ)
        → total ws < 2 ^ 63
        → r < R
        → IsIsolated (Regular.column h W) x r ws
        → regular_run h R W ws x ≡ ok (count x ws)
    regular-estimate_exact ws x r small p isolated =
        let (e, run, b) = Returns-inv (regular-estimate-Accurate ws x small) in
        run ∙ ap ok (b.2 r p isolated)
