-- ===== src/FoldCms/Counts.antt =====
-- A sketch by what its cells answer: an insertion, a merge of two sketches of one level, and an estimate.
use native.Mathlib.Nat.{mod-lt, mod-add-div, div-lt_iff_lt-mul}
use asap_sketchlib.Prelude.{
  ℕ, suc, ◌+◌, ◌*◌, ◌/◌, ◌%◌, ◌^◌, ◌<◌, ◌≡◌, refl, ◌∙◌, subst, List, arith, ltb, ◌==◌, Bool-cases,
  inl, inr, if◌then◌else◌, ◌>>=◌, index, store, for_range, Returns, returns, Returns-map,
  Returns-upto, length, get_or, set, length-set, get_or-set, index-ok,
}
use asap_sketchlib.Hasher.{SketchHasher}
use asap_sketchlib.Matrix.Cells.{index-lt, index_injective}
use asap_sketchlib.FoldCms.{full_col_for}
use asap_sketchlib.FoldCms.Cell.{FoldCell, wrapping_add, insert_cell, query_cell, iter, merge_from}
use asap_sketchlib.FoldCms.CellLaws.{query-insert_cell, query-merge_from}
use asap_sketchlib.FoldCms.Folding.{same_mod}
use asap_sketchlib.FoldCms.Tidy.{IsTidy, insert_cell-IsTidy, merge_from-IsTidy, query-lt}

module _ (R F : ℕ) where
  -- The cell of each column answers what `counter` says, and every cell is tidy.
  pub record Tables (counter : ℕ → ℕ → ℕ) (cells : List FoldCell) : Type 0 where
    pub size : length cells ≡ R * F
    pub answers :
        (r c : ℕ) → r < R → query_cell c (get_or cells (r * F + c % F) FoldCell.empty) ≡ counter r c
    pub tidy :
        (r j : ℕ) → r < R → j < F → IsTidy F j (iter (get_or cells (r * F + j) FoldCell.empty))

module _ (R F : ℕ) (narrow : 0 < F) where
  -- A cell is rewritten.
  pub set-Tables :
      (row j : ℕ) (before after : ℕ → ℕ → ℕ) (cells : List FoldCell) (new : FoldCell)
      → row < R
      → j < F
      → Tables R F before cells
      → IsTidy F j (iter new)
      → ((c : ℕ) → c % F ≡ j → query_cell c new ≡ after row c)
      → ((r c : ℕ) → r < R → (r ≡ row → c % F ≡ j → ⊥) → after r c ≡ before r c)
      → Tables R F after (set cells (row * F + j) new)
  set-Tables row j before after cells new hr hj t tidy here elsewhere =
      let inside : row * F + j < length cells = omega (arith, t.size, index-lt row j R F hr hj) in
      record {
        size = length-set cells (row * F + j) new ∙ t.size;
        answers = λ r c lt. ground (
          arith,
          get_or-set cells (row * F + j) (r * F + c % F) new FoldCell.empty inside,
          index_injective row j r (c % F) F hj (mod-lt c narrow),
          t.answers r c lt,
          here c,
          elsewhere r c lt,
        );
        tidy = λ r k lr lk. elim (Bool-cases (row * F + j == r * F + k)) [
          | inl e ↦
              rw (get_or-set cells (row * F + j) (r * F + k) new FoldCell.empty inside, e)
                (let same : j ≡ k = (index_injective row j r k F hj lk (ground (arith, e))).1 in
                  rw (← same) tidy)
          | inr e ↦
              rw (get_or-set cells (row * F + j) (r * F + k) new FoldCell.empty inside, e)
                (t.tidy r k lr lk)
        ];
      }

  module _ {K : Type 0} (h : SketchHasher K) (N : ℕ) where
    -- the counters while the rows are written: those below `i` are done
    abbrev between : (ℕ → ℕ → ℕ) → K → ℕ → ℕ → ℕ → ℕ → ℕ
    between base x d i r c =
        if ltb r i
        then (if full_col_for h N r x == c then wrapping_add (base r c) d else base r c)
        else base r c

    pub write_rows-Tables :
        (base : ℕ → ℕ → ℕ) (x : K) (d : ℕ) (cells : List FoldCell)
        → d < 2 ^ 64
        → Tables R F base cells
        → Returns
            (Tables R F
              (λ r c. if full_col_for h N r x == c then wrapping_add (base r c) d else base r c))
            (for_range R 0
              (λ r t. do
                let full_col = full_col_for h N r x
                let i = r * F + full_col % F
                old ← index t i
                store t i (insert_cell full_col d old))
              cells)
    write_rows-Tables base x d cells w t =
        Returns-map
          (Returns-upto (λ i cells'. Tables R F (between base x d i) cells') R _ cells
            (λ i t' lt v.
              let full_col = full_col_for h N i x in
              let j = full_col % F in
              let inside : i * F + j < length t' =
                omega (arith, index-lt i j R F lt (mod-lt full_col narrow), v.size) in
              rw (index-ok t' (i * F + j) FoldCell.empty inside) (
                returns (
                  set-Tables i j (between base x d i) (between base x d (suc i)) t' _ lt
                    (mod-lt full_col narrow) v
                    (insert_cell-IsTidy F j full_col d _ w refl
                      (v.tidy i j lt (mod-lt full_col narrow)))
                    (λ c at. ground (
                      arith,
                      at,
                      query-insert_cell full_col c d (get_or t' (i * F + j) FoldCell.empty) w,
                      v.answers i c lt,
                    ))
                    (λ r c lr other. ground (arith, other, same_mod full_col c F)))))
            (record {
              size = t.size;
              answers = λ r c lr. ground (arith, t.answers r c lr);
              tidy = t.tidy;
            }))
          λ cells' v. record {
            size = v.size;
            answers = λ r c lr. ground (arith, v.answers r c lr);
            tidy = v.tidy;
          }

  -- the counters while the cells are merged: those of the cells below `i` are done
  abbrev merging : (ℕ → ℕ → ℕ) → (ℕ → ℕ → ℕ) → ℕ → ℕ → ℕ → ℕ
  merging a b i r c = if ltb (r * F + c % F) i then wrapping_add (a r c) (b r c) else a r c

  merge_step :
      (a b : ℕ → ℕ → ℕ) (others t : List FoldCell) (row j : ℕ)
      → row < R
      → j < F
      → Tables R F b others
      → Tables R F (merging a b (row * F + j)) t
      → Returns (Tables R F (merging a b (suc (row * F + j)))) (do
        mine ← index t (row * F + j)
        theirs ← index others (row * F + j)
        store t (row * F + j) (merge_from mine theirs))
  merge_step a b others t row j lr lj u v =
      let i = row * F + j in
      let lt : i < R * F = index-lt row j R F lr lj in
      let mine = get_or t i FoldCell.empty in
      let theirs = get_or others i FoldCell.empty in
      let tidy = u.tidy row j lr lj in
      rw
        (
          index-ok t i FoldCell.empty (omega (arith, lt, v.size)),
          index-ok others i FoldCell.empty (omega (arith, lt, u.size)),
        )
        (returns (
          set-Tables row j (merging a b i) (merging a b (suc i)) t (merge_from mine theirs) lr lj v
            (merge_from-IsTidy F j mine theirs (v.tidy row j lr lj) tidy)
            (λ c at. ground (
              arith,
              at,
              query-merge_from c mine theirs (query-lt F j c mine (v.tidy row j lr lj)) tidy.0
                  tidy.1,
              v.answers row c lr,
              u.answers row c lr,
            ))
            (λ r c hr other.
              ground (arith, other, index_injective r (c % F) row j F (mod-lt c narrow) lj))))

  -- Merging the cells adds the counters.
  pub merge-Tables :
      (a b : ℕ → ℕ → ℕ) (mine others : List FoldCell)
      → Tables R F a mine
      → Tables R F b others
      → Returns (Tables R F (λ r c. wrapping_add (a r c) (b r c))) (
          for_range
            (length mine)
            0
            (λ i t. do m ← index t i; o ← index others i; store t i (merge_from m o))
            mine)
  merge-Tables a b mine others u v =
      Returns-map
        (Returns-upto (λ i t. Tables R F (merging a b i) t) (length mine) _ mine
          (λ i t lt w.
            let e : i / F * F + i % F ≡ i = omega (arith, mod-add-div i F) in
            let lr : i / F < R = (div-lt_iff_lt-mul narrow).1 (omega (arith, lt, u.size)) in
            subst
              (λ k.
                Tables R F (merging a b k) t
                → Returns (Tables R F (merging a b (suc k)))
                    (index t k >>= λ m. index others k >>= λ o. store t k (merge_from m o)))
              e (merge_step a b others t (i / F) (i % F) lr (mod-lt i narrow) v) w)
          (record {
            size = u.size;
            answers = λ r c lr. ground (arith, u.answers r c lr);
            tidy = u.tidy;
          }))
        λ t w. record {
          size = w.size;
          answers = λ r c lr.
              ground (arith, w.answers r c lr, u.size, index-lt r (c % F) R F lr (mod-lt c narrow));
          tidy = w.tidy;
        }
