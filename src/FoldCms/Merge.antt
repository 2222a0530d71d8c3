-- ===== src/FoldCms/Merge.antt =====
-- Two folded sketches of one level, filled apart and merged.
use asap_sketchlib.Prelude.{
  ℕ, ◌+◌, ◌*◌, ◌/◌, ◌%◌, ◌^◌, ◌<◌, ◌≡◌, refl, sym, ap, ◌∙◌, List, [], ◌∷◌, ◌++◌, true, arith, leb,
  ==_refl, Run, ok, ◌>>=◌, for_each, Returns, returns, Returns-bind, Returns-inv, reverse_aux,
  length-replicate, get_or-replicate,
}
use asap_sketchlib.Hasher.{SketchHasher}
use asap_sketchlib.Matrix.Hash.{is_power_of_two}
use asap_sketchlib.FoldCms.{
  HeapOps, FoldCms, trailing_zeros, i64_max, blank, new, query, insert, reconcile,
  reconcile_heap_from, merge_same_level,
}
use asap_sketchlib.FoldCms.Cell.{FoldCell, wrapping_add, query_cell, iter}
use asap_sketchlib.FoldCms.Folding.{full_counter, least_counter, AmountsAreI64, sketch, query-least}
use asap_sketchlib.FoldCms.Counts.{Tables, write_rows-Tables, merge-Tables}
use asap_sketchlib.FoldCms.Levels.{folded_run, folded_width, query_folded}

-- a new sketch and a stream of keys and amounts
abbrev pub filled :
    {K Heap : Type 0}
    → SketchHasher K
    → HeapOps K Heap
    → ℕ
    → ℕ
    → ℕ
    → ℕ
    → List (K × ℕ)
    → Run (FoldCms Heap)
filled h heap rows full_cols fold_level top_k stream = do
  s ← new heap rows full_cols fold_level top_k
  for_each stream (λ (x, d). insert h heap x d) s

reverse_aux-onto {ℓ} :
    {A : Type ℓ}
    → (xs ys acc : List A) → reverse_aux (xs ++ ys) acc ≡ reverse_aux ys (reverse_aux xs acc)
reverse_aux-onto [] ys acc = refl
reverse_aux-onto (x ∷ xs) ys acc = reverse_aux-onto xs ys (x ∷ acc)

AmountsAreI64-append :
    {K : Type 0}
    → (xs ys : List (K × ℕ)) → AmountsAreI64 xs
    → AmountsAreI64 ys
    → AmountsAreI64 (xs ++ ys)
AmountsAreI64-append [] ys w v = v
AmountsAreI64-append ((x, d) ∷ xs) ys w v = (w.0, AmountsAreI64-append xs ys w.1 v)

module _ {K : Type 0} (h : SketchHasher K) (N : ℕ) where
  full_counter-lt : (r c : ℕ) (xs : List (K × ℕ)) → full_counter h N r c xs < 2 ^ 64
  unfolding full_counter
  full_counter-lt r c [] = omega arith
  full_counter-lt r c ((x, d) ∷ xs) = ground (arith, full_counter-lt r c xs)

  one_more :
      (r c : ℕ) (y : K) (d : ℕ) (first second both : List (K × ℕ))
      → full_counter h N r c both
        ≡ wrapping_add (full_counter h N r c first) (full_counter h N r c second)
      → full_counter h N r c ((y, d) ∷ both)
        ≡ wrapping_add (full_counter h N r c first) (full_counter h N r c ((y, d) ∷ second))
  unfolding full_counter
  one_more r c y d first second both e = ground (arith, e)

  nothing :
      (r c : ℕ) (xs : List (K × ℕ))
      → full_counter h N r c xs ≡ wrapping_add (full_counter h N r c xs) (full_counter h N r c [])
  unfolding full_counter
  nothing r c xs = omega (arith, full_counter-lt r c xs)

  -- The counters of a stream after another are the sums of theirs.
  full_counter-onto :
      (r c : ℕ) (ys first second both : List (K × ℕ))
      → full_counter h N r c both
        ≡ wrapping_add (full_counter h N r c first) (full_counter h N r c second)
      → full_counter h N r c (reverse_aux ys both)
        ≡ wrapping_add (full_counter h N r c first) (full_counter h N r c (reverse_aux ys second))
  full_counter-onto r c [] first second both e = e
  full_counter-onto r c ((y, d) ∷ ys) first second both e =
      full_counter-onto r c ys first ((y, d) ∷ second) ((y, d) ∷ both)
        (one_more r c y d first second both e)

  full_counter-append :
      (r c : ℕ) (xs ys : List (K × ℕ))
      → full_counter h N r c (reverse_aux (xs ++ ys) [])
        ≡ wrapping_add
            (full_counter h N r c (reverse_aux xs []))
            (full_counter h N r c (reverse_aux ys []))
  full_counter-append r c xs ys = rw (reverse_aux-onto xs ys []) (
      full_counter-onto r c ys (reverse_aux xs []) [] (reverse_aux xs [])
        (nothing r c (reverse_aux xs [])))

module _ {K Heap : Type 0} (h : SketchHasher K) (heap : HeapOps K Heap) (R F N level : ℕ)
    (narrow : 0 < F) where
  -- The sketch of a stream, whatever its heap holds, every cell tidy.
  abbrev pub Holds : (ℕ → ℕ → ℕ) → FoldCms Heap → Type 0
  Holds counter s =
      (cells : List FoldCell) × (hp : Heap) × (s ≡ sketch h heap R F N level narrow cells hp)
      × Tables R F counter cells

  query-Holds :
      (xs : List (K × ℕ)) (s : FoldCms Heap) (key : K)
      → Holds (λ r c. full_counter h N r c xs) s
      → query h heap s key ≡ ok (least_counter h N xs key R 0 i64_max)
  query-Holds xs s key (cells, hp, e, t) =
      rw e (query-least h heap R F N level narrow xs key cells hp (t.size, t.answers))

  insert-Holds :
      (xs : List (K × ℕ)) (x : K) (d : ℕ) (s : FoldCms Heap)
      → d < 2 ^ 64
      → Holds (λ r c. full_counter h N r c xs) s
      → Returns (Holds (λ r c. full_counter h N r c ((x, d) ∷ xs))) (insert h heap x d s)
  unfolding insert full_counter
  insert-Holds xs x d s w (cells, hp, e, t) = rw e (
      Returns-bind (write_rows-Tables R F narrow h N (λ r c. full_counter h N r c xs) x d cells w t)
        λ cells' u.
          rw
            (query-Holds ((x, d) ∷ xs) (sketch h heap R F N level narrow cells' hp) x
              (cells', hp, refl, u))
            (returns (cells', _, refl, u)))

  inserts-Holds :
      (done xs : List (K × ℕ)) (s : FoldCms Heap)
      → AmountsAreI64 xs
      → Holds (λ r c. full_counter h N r c done) s
      → Returns
          (Holds (λ r c. full_counter h N r c (reverse_aux xs done)))
          (for_each xs (λ (x, d). insert h heap x d) s)
  unfolding for_each
  inserts-Holds done [] s w t = returns t
  inserts-Holds done ((x, d) ∷ xs) s w t =
      Returns-bind (insert-Holds done x d s w.0 t) λ s' u. inserts-Holds ((x, d) ∷ done) xs s' w.1 u

  blank-Holds : (top_k : ℕ) → Holds (λ r c. full_counter h N r c []) (blank heap R F N level top_k)
  unfolding full_counter query_cell iter
  blank-Holds top_k = (
    _,
    _,
    refl,
    record {
      size = length-replicate (R * F) FoldCell.empty;
      answers = λ r c lr. rw (get_or-replicate (R * F) (r * F + c % F) FoldCell.empty) refl;
      tidy = λ r j lr lj. rw (get_or-replicate (R * F) (r * F + j) FoldCell.empty) (tt, tt, tt);
    },
  )

  other_heap-Holds :
      (counter : ℕ → ℕ → ℕ) (s : FoldCms Heap) (hp' : Heap)
      → Holds counter s
      → Holds counter (record s { heap = hp' })
  other_heap-Holds counter s hp' (cells, hp, e, u) =
      (cells, hp', ap {A = FoldCms Heap} (λ z. record z { heap = hp' }) e, u)

  -- Entering keys into the heap leaves the cells.
  pub reconcile-Holds :
      (xs : List (K × ℕ)) (keys : List K) (s : FoldCms Heap)
      → Holds (λ r c. full_counter h N r c xs) s
      → Returns (Holds (λ r c. full_counter h N r c xs)) (reconcile h heap keys s)
  unfolding reconcile for_each
  reconcile-Holds xs [] s t = returns t
  reconcile-Holds xs (key ∷ keys) s t =
      rw (query-Holds xs s key t) (reconcile-Holds xs keys _ (other_heap-Holds _ s _ t))

  merge-Holds :
      (xs ys : List (K × ℕ)) (s t : FoldCms Heap)
      → Holds (λ r c. full_counter h N r c (reverse_aux xs [])) s
      → Holds (λ r c. full_counter h N r c (reverse_aux ys [])) t
      → Returns
          (Holds (λ r c. full_counter h N r c (reverse_aux (xs ++ ys) [])))
          (merge_same_level h heap s t)
  unfolding merge_same_level reconcile_heap_from
  merge-Holds xs ys s t (cells, hp, e, u) (cells', hp', e', u') =
      rw (e, e', ==_refl R, ==_refl N, ==_refl level, ==_refl F)
        (Returns-bind (merge-Tables R F narrow _ _ cells cells' u u') λ merged v.
          reconcile-Holds (reverse_aux (xs ++ ys) []) (heap.items hp')
            (sketch h heap R F N level narrow merged hp)
            (
              merged,
              hp,
              refl,
              record {
                size = v.size;
                answers = λ r c lr. v.answers r c lr ∙ sym (full_counter-append h N r c xs ys);
                tidy = v.tidy;
              },
            ))

module _ {K Heap : Type 0} (h : SketchHasher K) (heap : HeapOps K Heap) where
  filled-Holds :
      (rows full_cols fold_level top_k : ℕ)
      → is_power_of_two full_cols ≡ true
      → leb fold_level (trailing_zeros 64 full_cols) ≡ true
      → (narrow : 0 < full_cols / 2 ^ fold_level) → (stream : List (K × ℕ)) → AmountsAreI64 stream
      → Returns
          (Holds h heap rows
            (full_cols / 2 ^ fold_level)
            full_cols
            fold_level
            narrow
            (λ r c. full_counter h full_cols r c (reverse_aux stream [])))
          (filled h heap rows full_cols fold_level top_k stream)
  unfolding new
  filled-Holds rows full_cols fold_level top_k p l narrow stream w =
      rw (p, l)
        (inserts-Holds h heap rows (full_cols / 2 ^ fold_level) full_cols fold_level narrow []
          stream _ w
          (blank-Holds h heap rows (full_cols / 2 ^ fold_level) full_cols fold_level narrow top_k))

  -- A merge is the sketch of both streams: two sketches made alike, with parameters that `new`
  -- accepts, are filled with streams of i64 amounts and merged at their level; no call panics, and
  -- the merged sketch answers about every key as one sketch does after the first stream and then the
  -- second.
  pub query-merge_same_level :
      (rows full_cols fold_level top_k : ℕ)
      → is_power_of_two full_cols ≡ true
      → leb fold_level (trailing_zeros 64 full_cols) ≡ true
      → (xs ys : List (K × ℕ)) → AmountsAreI64 xs
      → AmountsAreI64 ys
      → (key : K)
      → (do
        a ← filled h heap rows full_cols fold_level top_k xs
        b ← filled h heap rows full_cols fold_level top_k ys
        merged ← merge_same_level h heap a b
        query h heap merged key)
        ≡ folded_run h heap rows full_cols fold_level top_k (xs ++ ys) key
  query-merge_same_level rows full_cols fold_level top_k p l xs ys w v key =
      let narrow = folded_width full_cols fold_level p l in
      let (a, from_a, fa) =
        Returns-inv (filled-Holds rows full_cols fold_level top_k p l narrow xs w) in
      let (b, from_b, fb) =
        Returns-inv (filled-Holds rows full_cols fold_level top_k p l narrow ys v) in
      let (m, from_m, fm) = Returns-inv (
        merge-Holds h heap rows (full_cols / 2 ^ fold_level) full_cols fold_level narrow xs ys a b
          fa fb) in
      rw (from_a, from_b, from_m)
        (query-Holds h heap rows (full_cols / 2 ^ fold_level) full_cols fold_level narrow
            (reverse_aux (xs ++ ys) []) m key fm
          ∙ sym (
              query_folded h heap rows full_cols fold_level top_k p l (xs ++ ys)
                (AmountsAreI64-append xs ys w v) key))
