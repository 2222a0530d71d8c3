-- ===== src/Tests/Hll.antt =====
-- HyperLogLog registers at precision 2, on hashes that fall on two buckets.
use mathlib.Core.Logic.Or
use mathlib.Core.List.{mem-cons, mem-cons_of_mem}
use asap_sketchlib.Prelude.{
  ℕ, ◌+◌, ◌-◌, ◌^◌, ◌≤◌, ◌≡◌, [], ◌∷◌, ◌++◌, arith, ok, ◌>>=◌, Returns, get_or,
}
use asap_sketchlib.Hll.{rank, merge}
use asap_sketchlib.Hll.Rank.{rank_bounds}
use asap_sketchlib.Hll.Registers.{build, merge_registers-build, build-same_set}
use asap_sketchlib.Hll.Lag.{Lags, tau}
use asap_sketchlib.Hll.Aggregate.{aggregate, aggregate-Lags, aggregate-eq-build}

abbrev far : ℕ
far = 2 ^ 63 + 5

rank_bounds_example : (1 ≤ rank 14 far) × (rank 14 far ≤ 64 - 14 + 1)
rank_bounds_example = rank_bounds 14 far (omega arith)

merge_registers-build_example :
    (do a ← build 2 (far ∷ 7 ∷ []); b ← build 2 (1 ∷ []); merge a b)
    ≡ build 2 ((far ∷ 7 ∷ []) ++ (1 ∷ []))
merge_registers-build_example = merge_registers-build 2 (far ∷ 7 ∷ []) (1 ∷ [])

build-same_set_example : build 2 (far ∷ far ∷ []) ≡ build 2 (far ∷ [])
build-same_set_example = build-same_set 2 (far ∷ far ∷ []) (far ∷ []) (λ h. (
  (λ m. Or.elim squash₁ (mem-cons.0 m) (λ e. mem-cons.1 (Or.inl e)) (λ k. k)),
  (λ m. mem-cons_of_mem far m),
))

aggregate-Lags_example :
    Returns
      (λ (parent, single). Lags (tau 2 3) (get_or parent 2 0) (get_or single 2 0))
      (do
        parent ← aggregate 2 3 (far ∷ 7 ∷ [])
        single ← build 2 (far ∷ 7 ∷ [])
        ok (parent, single))
aggregate-Lags_example =
    aggregate-Lags 2 3 (omega arith) (omega arith) (far ∷ 7 ∷ []) 2 (omega arith)

aggregate-eq-build_example : aggregate 2 0 (far ∷ 7 ∷ []) ≡ build 2 (far ∷ 7 ∷ [])
aggregate-eq-build_example = aggregate-eq-build 2 (far ∷ 7 ∷ []) (omega arith) (omega arith)
