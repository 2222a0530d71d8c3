-- ===== src/CountMin/Tally.antt =====
-- The specification of a Count-Min sketch: the cell in a row and a column holds the sum of the
-- weights of the keys that the row's hash sends to the column.
use asap_sketchlib.Prelude.{
  ℕ, suc, ◌+◌, ◌-◌, ◌<◌, ◌≡◌, refl, sym, List, [], ◌∷◌, ◌++◌, Bool, false, arith, ◌==◌,
  if◌then◌else◌, Run, ok, for_range, Returns, returns, Returns-for_range, subst, Bool-cases, inl,
  inr,
}
use asap_sketchlib.Matrix.Counter.{Counter, IsAdditive, IsOrdered}
use asap_sketchlib.Matrix.Cells.{IsShaped, cell}
use asap_sketchlib.CountMin.{CountMin}

module _ {K C : Type 0} (c : Counter C) (col : K → ℕ → ℕ) where
  -- the sum for row `r` and column `j`
  unfoldable pub tally : ℕ → ℕ → List (K × C) → C
  tally r j [] = c.default
  tally r j ((x, w) ∷ xs) = if col x r == j then c.add (tally r j xs) w else tally r j xs

  -- The sketch of a stream, the latest arrival first.
  pub record Sketches (R W : ℕ) (xs : List (K × C)) (s : CountMin C) : Type 0 where
    pub shaped : IsShaped R W s.counts
    pub row_eq : s.row ≡ R
    pub col_eq : s.col ≡ W
    pub cells : (r j : ℕ) → r < R → j < W → cell s.counts r j c.default ≡ tally r j xs

  module _ (laws : IsAdditive c) where
    open laws use {add_comm, add_assoc, add_default}

    tally-add-default :
        (r j : ℕ) (xs : List (K × C)) → c.add (tally r j xs) c.default ≡ tally r j xs
    unfolding tally
    tally-add-default r j [] = laws.default_add
    tally-add-default r j ((x, w) ∷ xs) =
        ground (arith, tally-add-default r j xs, add_default (tally r j xs) w)

    swap_last : (x y z : C) → c.add (c.add x y) z ≡ c.add (c.add x z) y
    swap_last x y z = rw (add_assoc x y z, add_assoc x z y, add_comm y z)

    pub tally-append :
        (r j : ℕ) (ys xs : List (K × C))
        → tally r j (ys ++ xs) ≡ c.add (tally r j xs) (tally r j ys)
    unfolding tally
    tally-append r j [] xs = sym (tally-add-default r j xs)
    tally-append r j ((x, w) ∷ ys) xs =
        ground (arith, tally-append r j ys xs, add_assoc (tally r j xs) (tally r j ys) w)

-- `e` is the least of the first `n` values.
abbrev pub IsLeast : {C : Type 0} → (C → C → Bool) → (ℕ → C) → ℕ → C → Type 0
IsLeast less v n e = ((r : ℕ) × (r < n) × (e ≡ v r)) × ((r : ℕ) → r < n → less (v r) e ≡ false)

module _ {C : Type 0} (c : Counter C) (laws : IsOrdered c) where
  open laws use {less_irrefl, less_asymm, less_trans}

  IsLeast-step :
      (v : ℕ → C) (n : ℕ) (e : C)
      → IsLeast c.less v n e
      → IsLeast c.less v (suc n) (if c.less (v n) e then v n else e)
  IsLeast-step v n e ((r, lt, eq), low) = elim (Bool-cases (c.less (v n) e)) [
    | inl h ↦ rw h (
      (n, omega arith, refl),
      λ k p.
          ground (arith, low k, less_asymm (v n) e h, less_trans (v k) e (v n), less_irrefl (v n)),
    )
    | inr h ↦ rw h ((r, omega arith, eq), λ k p. ground (arith, low k, h))
  ]

  -- The loop that starts from the first value and looks at the others.
  pub IsLeast-loop :
      (v : ℕ → C) (R n : ℕ) (body : ℕ → C → Run C)
      → 0 < R
      → n ≡ R
      → ((r : ℕ) (best : C) → r < R → body r best ≡ ok (if c.less (v r) best then v r else best))
      → Returns (IsLeast c.less v R) (for_range (n - 1) 1 body (v 0))
  IsLeast-loop v R n body pos e same =
      subst (λ k. Returns (IsLeast c.less v k) (for_range (n - 1) 1 body (v 0)))
        (let whole : 1 + (n - 1) ≡ R = omega arith in whole)
        (Returns-for_range (IsLeast c.less v) (n - 1) 1 body (v 0)
          (λ j t lo hi l. rw (same j t (omega arith)) (returns (IsLeast-step v j t l)))
          ((0, omega arith, refl), λ r lt. ground (arith, less_irrefl (v 0))))
