-- ===== src/FoldCms/Levels.antt =====
-- Every level that a folded sketch can be made at answers alike.
use native.Mathlib.Nat.{pow-suc, le-div_iff_mul-le, pow-le-pow_right}
use asap_sketchlib.Prelude.{
  ℕ, zero, suc, ◌*◌, ◌/◌, ◌^◌, ◌<◌, ◌≤◌, ◌≡◌, sym, ap, ◌∙◌, List, [], true, arith, leb, Run, ok,
  ◌>>=◌, for_each, Returns-inv, reverse_aux,
}
use asap_sketchlib.Prelude.Powers.{pow2-pos}
use asap_sketchlib.Hasher.{SketchHasher}
use asap_sketchlib.Matrix.Hash.{is_power_of_two, ilog2, power_width}
use asap_sketchlib.FoldCms.{HeapOps, trailing_zeros, i64_max, blank, new, query, insert}
use asap_sketchlib.FoldCms.Folding.{
  least_counter, AmountsAreI64, inserts-Folds, blank-Folds, query-least,
}

-- a new sketch, a stream of keys and amounts, and an estimate
abbrev pub folded_run :
    {K Heap : Type 0} → SketchHasher K → HeapOps K Heap → ℕ → ℕ → ℕ → ℕ → List (K × ℕ) → K → Run ℕ
folded_run h heap rows full_cols fold_level top_k stream key = do
  s ← new heap rows full_cols fold_level top_k
  full ← for_each stream (λ (x, d). insert h heap x d) s
  query h heap full key

two_pow-trailing_zeros : (f n : ℕ) → 0 < n → 2 ^ trailing_zeros f n ≤ n
unfolding trailing_zeros
two_pow-trailing_zeros zero n h = omega arith
two_pow-trailing_zeros (suc f) n h =
    ground (arith, pow-suc 2 (trailing_zeros f (n / 2)), two_pow-trailing_zeros f (n / 2))

pub folded_width :
    (N level : ℕ)
    → is_power_of_two N ≡ true
    → leb level (trailing_zeros 64 N) ≡ true
    → 0 < N / 2 ^ level
folded_width N level p l =
    let some_cols : 0 < N = omega (arith, power_width N p, pow2-pos (ilog2 N)) in
    let few : level ≤ trailing_zeros 64 N = ground arith in
    let fits : 1 * 2 ^ level ≤ N =
      omega (
        arith,
        two_pow-trailing_zeros 64 N some_cols,
        pow-le-pow_right {n = 2} (omega arith) few,
      ) in
    (le-div_iff_mul-le (pow2-pos level)).1 fits

module _ {K Heap : Type 0} (h : SketchHasher K) (heap : HeapOps K Heap) where
  -- After a stream of i64 amounts, at every level that `new` accepts, no call panics and the
  -- estimate of a key is the least of i64::MAX and, for each row, the wrapping sum of the amounts
  -- of the keys whose full column, as the u16 that the code keeps, is that of the key.
  pub query_folded :
      (rows full_cols fold_level top_k : ℕ)
      → is_power_of_two full_cols ≡ true
      → leb fold_level (trailing_zeros 64 full_cols) ≡ true
      → (stream : List (K × ℕ)) → AmountsAreI64 stream
      → (key : K)
      → folded_run h heap rows full_cols fold_level top_k stream key
        ≡ ok (least_counter h full_cols (reverse_aux stream []) key rows 0 i64_max)
  unfolding new
  query_folded rows full_cols fold_level top_k p l stream w key =
      let narrow = folded_width full_cols fold_level p l in
      let start = blank heap rows (full_cols / 2 ^ fold_level) full_cols fold_level top_k in
      let (s, run, (cells, hp, e, a)) = Returns-inv (
        inserts-Folds h heap rows (full_cols / 2 ^ fold_level) full_cols fold_level narrow [] stream
          start w
          (blank-Folds h heap rows (full_cols / 2 ^ fold_level) full_cols fold_level narrow
            top_k)) in
      rw (p, l)
        (ap (λ z. z >>= λ full. query h heap full key) run
          ∙ rw e (
              query-least h heap rows (full_cols / 2 ^ fold_level) full_cols fold_level narrow
                (reverse_aux stream []) key cells hp a))

  -- An estimate does not depend on the level: after a stream of i64 amounts, every two levels that
  -- `new` accepts, the unfolded level 0 among them, answer alike about every key.
  pub fold_level_irrelevant :
      (rows full_cols level level' top_k : ℕ)
      → is_power_of_two full_cols ≡ true
      → leb level (trailing_zeros 64 full_cols) ≡ true
      → leb level' (trailing_zeros 64 full_cols) ≡ true
      → (stream : List (K × ℕ)) → AmountsAreI64 stream
      → (key : K)
      → folded_run h heap rows full_cols level top_k stream key
        ≡ folded_run h heap rows full_cols level' top_k stream key
  fold_level_irrelevant rows full_cols level level' top_k p l l' stream w key =
      query_folded rows full_cols level top_k p l stream w key
      ∙ sym (query_folded rows full_cols level' top_k p l' stream w key)
