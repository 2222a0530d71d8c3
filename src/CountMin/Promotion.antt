-- ===== src/CountMin/Promotion.antt =====
-- Promotion loses nothing: what a worker holds back and what it has handed over add up.
use native.Mathlib.Nat.{mod-lt}
use asap_sketchlib.Prelude.{
  ℕ, suc, ◌+◌, ◌%◌, ◌^◌, ◌<◌, ◌≤◌, ◌≡◌, ◌∙◌, List, [], ◌∷◌, ◌++◌, true, false, ◌&&◌, arith, ltb,
  ◌==◌, if◌then◌else◌, ◌>>=◌, for_range, Returns, returns, Returns-bind, reverse_aux, length,
  Returns-map, Returns-upto, Returns-if,
}
use asap_sketchlib.Hasher.{SketchHasher}
use asap_sketchlib.Matrix.Counter.{i32_counter}
use asap_sketchlib.Matrix.Vector2d.{Vector2D, increment_by_row}
use asap_sketchlib.Matrix.Cells.{
  IsShaped, cell, Wrote, update_one_counter-Wrote, query_one_counter-ok,
}
use asap_sketchlib.CountMin.{CountMin, CmDelta, max_promask}
use asap_sketchlib.CountMin.Regular
use asap_sketchlib.CountMin.Emit.{clamp_threshold, promote_row, insert_emit_delta_with_threshold}

-- what the deltas hand over for a cell
unfoldable pub handed : ℕ → ℕ → List CmDelta → ℕ
handed r j [] = 0
handed r j (d ∷ ds) =
    if (d.row == r) && (d.col == j) then d.value + handed r j ds else handed r j ds

pub handed-append :
    (r j : ℕ) (ds es : List CmDelta) → handed r j (ds ++ es) ≡ handed r j ds + handed r j es
unfolding handed
handed-append r j [] es = omega arith
handed-append r j (d ∷ ds) es = ground (arith, handed-append r j ds es)

-- Every delta names a cell of the grid, and its value is a positive i32.
abbrev pub AreValid : ℕ → ℕ → List CmDelta → Type 0
AreValid R W [] = Unit {0}
AreValid R W (d ∷ ds) = ((d.row < R) × (d.col < W) × (d.value < 2 ^ 31)) × AreValid R W ds

AreValid-append :
    (R W : ℕ) (ds es : List CmDelta) → AreValid R W ds → AreValid R W es → AreValid R W (ds ++ es)
AreValid-append R W [] es p q = q
AreValid-append R W (d ∷ ds) es p q = (p.0, AreValid-append R W ds es p.1 q)

module _ (R W tau : ℕ) where
  -- What a cell holds and what was handed over for it add up to `have`, and the cell is below the
  -- threshold.
  pub record Accounts (have : ℕ → ℕ → ℕ) (s : Vector2D ℕ × List CmDelta) : Type 0 where
    pub shaped : IsShaped R W s.0
    pub adds_up : (r j : ℕ) → r < R → j < W → cell s.0 r j 0 + handed r j s.1 ≡ have r j
    pub below : (r j : ℕ) → r < R → j < W → cell s.0 r j 0 < tau
    pub valid : AreValid R W s.1

module _ (R W tau : ℕ) (low : 0 < tau) (high : tau ≤ max_promask) (few : R ≤ 2 ^ 32) where
  -- the arrivals with one more on a cell
  abbrev one_more : ℕ → ℕ → (ℕ → ℕ → ℕ) → ℕ → ℕ → ℕ
  one_more r col have k j = if (r == k) && (col == j) then suc (have k j) else have k j

  module _ (have : ℕ → ℕ → ℕ) (r col : ℕ) (t t1 t2 : Vector2D ℕ) (out : List CmDelta) (hr : r < R)
      (hc : col < W) where
    stays :
        Accounts R W tau have (t, out)
        → Wrote R W 0 r col (λ old. (old + 1) % 2 ^ 32) t t1
        → i32_counter.less (cell t1 r col 0) tau ≡ true
        → Accounts R W tau (one_more r col have) (t1, out)
    stays a w under = record {
      shaped = w.0;
      adds_up = λ k j p q.
          ground (arith, w.1 k j p q, w.1 r col hr hc, a.adds_up k j p q, a.below k j p q);
      below = λ k j p q.
          ground (arith, w.1 k j p q, w.1 r col hr hc, a.below k j p q, a.below r col hr hc, under);
      valid = a.valid;
    }

    clears :
        col < 2 ^ 32
        → Accounts R W tau have (t, out)
        → Wrote R W 0 r col (λ old. (old + 1) % 2 ^ 32) t t1
        → Wrote R W 0 r col (λ _. 0) t1 t2
        → i32_counter.less (cell t1 r col 0) tau ≡ false
        → Accounts R W tau (one_more r col have) (
          t2,
          out ++ record { row = r % 2 ^ 32; col = col % 2 ^ 32; value = cell t1 r col 0 } ∷ [],
        )
    unfolding handed
    clears small a w1 w2 reached = record {
      shaped = w2.0;
      adds_up = λ k j p q. ground (
        arith,
        w1.1 k j p q,
        w1.1 r col hr hc,
        w2.1 k j p q,
        a.adds_up k j p q,
        a.below k j p q,
        handed-append k j out
            (record { row = r % 2 ^ 32; col = col % 2 ^ 32; value = cell t1 r col 0 } ∷ []),
      );
      below = λ k j p q. ground (arith, w1.1 k j p q, w2.1 k j p q, a.below k j p q);
      valid =
          AreValid-append R W out _ a.valid (
            (ground arith, ground arith, ground (arith, w1.1 r col hr hc, a.below r col hr hc)),
            tt,
          );
    }

  promote_row-Accounts :
      (have : ℕ → ℕ → ℕ) (r col : ℕ) (s : Vector2D ℕ × List CmDelta)
      → r < R
      → col < W
      → col < 2 ^ 32
      → Accounts R W tau have s
      → Returns (Accounts R W tau (one_more r col have)) (promote_row tau r col s)
  unfolding promote_row increment_by_row
  promote_row-Accounts have r col (t, out) hr hc small a =
      Returns-bind
        (update_one_counter-Wrote R W 0 r col (λ old. (old + 1) % 2 ^ 32) t a.shaped hr hc)
        λ t1 w1.
          rw (query_one_counter-ok R W 0 r col t1 w1.0 hr hc, ◌>>=◌)
            (Returns-if (i32_counter.less (cell t1 r col 0) tau)
              (λ under. returns (stays have r col t t1 t1 out hr hc a w1 under))
              (λ reached.
                Returns-bind (update_one_counter-Wrote R W 0 r col (λ _. 0) t1 w1.0 hr hc)
                  λ t2 w2. returns (clears have r col t t1 t2 out hr hc small a w1 w2 reached)))

  Accounts-ext :
      {have have' : ℕ → ℕ → ℕ} {s : Vector2D ℕ × List CmDelta}
      → ((r j : ℕ) → r < R → j < W → have r j ≡ have' r j)
      → Accounts R W tau have s
      → Accounts R W tau have' s
  Accounts-ext same a = record {
    shaped = a.shaped;
    adds_up = λ r j p q. a.adds_up r j p q ∙ same r j p q;
    below = a.below;
    valid = a.valid;
  }

  -- the arrivals with one more in each of the first rows
  abbrev one_each : (ℕ → ℕ) → ℕ → (ℕ → ℕ → ℕ) → ℕ → ℕ → ℕ
  one_each col n have k j = if ltb k n && (col k == j) then suc (have k j) else have k j

  rows-Accounts :
      (have : ℕ → ℕ → ℕ) (col : ℕ → ℕ) (s : Vector2D ℕ × List CmDelta)
      → ((r : ℕ) → (col r < W) × (col r < 2 ^ 32))
      → (n : ℕ) → n ≡ R
      → Accounts R W tau have s
      → Returns
          (Accounts R W tau (one_each col R have))
          (for_range n 0 (λ r t. promote_row tau r (col r) t) s)
  rows-Accounts have col s inside n e a = rw e (
      Returns-upto (λ n. Accounts R W tau (one_each col n have)) R _ s
        (λ r t p b.
          Returns-map
            (promote_row-Accounts (one_each col r have) r (col r) t p (inside r).0 (inside r).1 b)
            λ u. Accounts-ext (λ k j p q. ground arith))
        (Accounts-ext (λ k j p q. ground arith) a))

module _ {K : Type 0} (h : SketchHasher K) (W : ℕ) where
  -- the arrivals whose column in row `r` is `j`
  abbrev pub arrivals : ℕ → ℕ → List K → ℕ
  arrivals r j [] = 0
  arrivals r j (x ∷ xs) =
      if Regular.column h W x r == j then suc (arrivals r j xs) else arrivals r j xs

  pub arrivals-reverse_aux :
      (r j : ℕ) (xs done : List K)
      → arrivals r j (reverse_aux xs done) ≡ arrivals r j xs + arrivals r j done
  arrivals-reverse_aux r j [] done = omega arith
  arrivals-reverse_aux r j (x ∷ xs) done = ground (arith, arrivals-reverse_aux r j xs (x ∷ done))

  pub arrivals-le-length : (r j : ℕ) (xs : List K) → arrivals r j xs ≤ length xs
  arrivals-le-length r j [] = omega arith
  arrivals-le-length r j (x ∷ xs) = ground (arith, arrivals-le-length r j xs)

  module _ (R threshold : ℕ) (few : R ≤ 2 ^ 32) (cols : 0 < W) where
    -- the worker's account of its stream
    abbrev pub IsWorker : List K → CountMin ℕ × List CmDelta → Type 0
    IsWorker xs w =
        Accounts R W (clamp_threshold threshold) (λ r j. arrivals r j xs) (w.0.counts, w.1)

    -- An insertion keeps the account.
    pub insert_emit-IsWorker :
        (x : K) (xs : List K) (w : CountMin ℕ × List CmDelta)
        → IsWorker xs w
        → Returns (IsWorker (x ∷ xs)) (insert_emit_delta_with_threshold h x threshold w)
    unfolding insert_emit_delta_with_threshold clamp_threshold
    insert_emit-IsWorker x xs (s, out) a =
        Returns-bind
          (rows-Accounts R W (clamp_threshold threshold) clamp_pos clamp_le few
            (λ r j. arrivals r j xs) (Regular.column h s.counts.cols x) (s.counts, out)
            columns_inside s.counts.rows a.shaped.rows_eq a)
          λ (m, out') b. returns (
            Accounts-ext R W (clamp_threshold threshold) clamp_pos clamp_le few
              (λ k j p q. rw a.shaped.cols_eq (ground arith)) b)
      where
        clamp_pos : 0 < clamp_threshold threshold
        clamp_pos = omega arith

        clamp_le : clamp_threshold threshold ≤ max_promask
        clamp_le = omega arith

        columns_inside :
            (r : ℕ)
            → (Regular.column h s.counts.cols x r < W)
              × (Regular.column h s.counts.cols x r < 2 ^ 32)
        columns_inside r = rw a.shaped.cols_eq (mod-lt _ cols, omega arith)
