-- ===== src/Heap/Swaps.antt =====
-- A swap inside the vector, and the relations that all swaps keep.
use asap_sketchlib.Prelude.{
  ℕ, ◌<◌, ◌≡◌, refl, ◌∙◌, List, [], ◌∷◌, zero, suc, arith, ok, index, set, length, length-set,
  Returns, returns, Returns-inv,
}
use asap_sketchlib.Heap.{swap}

pub index-Returns :
    {T : Type 0} (xs : List T) (i : ℕ)
    → i < length xs
    → Returns (λ x. index xs i ≡ ok x) (index xs i)
index-Returns [] i h = absurd (omega arith)
index-Returns (x ∷ xs) zero h = returns refl
index-Returns (x ∷ xs) (suc i) h = index-Returns xs i (omega arith)

pub swap-Returns :
    {T : Type 0} (i j : ℕ) (slots : List T)
    → i < length slots
    → j < length slots
    → Returns
        (λ slots'. (swap i j slots ≡ ok slots') × (length slots' ≡ length slots))
        (swap i j slots)
unfolding swap
swap-Returns i j slots hi hj =
    let (a, run_a, e) = Returns-inv (index-Returns slots i hi) in
    let (b, run_b, e') = Returns-inv (index-Returns slots j hj) in
    rw (run_a, run_b) (returns (refl, length-set (set slots i b) j a ∙ length-set slots i b))

-- The relation holds again after a swap and its report.
abbrev pub KeptBySwaps : {T G : Type 0} → (ℕ → ℕ → G → G) → (List T → G → Type 0) → Type 0
KeptBySwaps {T} {G} on_swap R =
    (i j : ℕ) (slots slots' : List T) (g : G)
    → swap i j slots ≡ ok slots'
    → R slots g
    → R slots' (on_swap i j g)
