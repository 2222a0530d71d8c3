-- ===== src/Bloom/Slices.antt =====
-- The bits of a filter after a stream, for any choice of a column in each slice.
use asap_sketchlib.Prelude.{
  ℕ, zero, suc, ◌+◌, ◌-◌, ◌*◌, ◌^◌, ◌<◌, ◌≤◌, ◌≡◌, refl, ap, ◌∙◌, min, List, [], ◌∷◌, ◌++◌, true,
  arith, Run, ok, ◌>>=◌, for_each, length, replicate, length-replicate,
}
use mathlib.Core.List.{Mem, mem-cons, not-mem-nil}
use mathlib.Core.Logic.Or
use mathlib.Core.Bool.{Bool-set}
use native.Mathlib.Decide.{ℕ_discrete}
use asap_sketchlib.BitMatrix.{or_words, words_for}
use asap_sketchlib.BitMatrix.Shape.{
  grid, reads, mark_rows, Fits, mark-Fits, mark_rows-Fits, mark-reads, mark_keeps, or_words-mark,
}
use asap_sketchlib.Bloom.{Bloom, saturating_add}

module _ {K : Type 0} (R C : ℕ) (pos : K → ℕ → ℕ) where
  unfoldable pub mark_all : List K → List ℕ → List ℕ
  mark_all [] ws = ws
  mark_all (v ∷ vs) ws = mark_all vs (mark_rows R C R 0 (pos v) ws)

  unfoldable pub counted : List K → ℕ → ℕ
  counted [] n = n
  counted (v ∷ vs) n = counted vs (saturating_add n 1)

  abbrev pub filter : List ℕ → ℕ → Bloom
  filter ws n = record { bits = grid R C ws; inserted = n }

  abbrev pub zeros : List ℕ
  zeros = replicate (R * words_for C) 0

  pub zeros-Fits : Fits R C zeros
  zeros-Fits = length-replicate (R * words_for C) 0

  pub counted-eq :
      (vs : List K) (n : ℕ) → n ≤ 2 ^ 64 - 1 → counted vs n ≡ min (n + length vs) (2 ^ 64 - 1)
  unfolding counted
  counted-eq [] n h = omega arith
  counted-eq (v ∷ vs) n h = omega (arith, counted-eq vs (saturating_add n 1) (omega arith))

  pub counted-append : (us vs : List K) (n : ℕ) → counted (us ++ vs) n ≡ counted vs (counted us n)
  unfolding counted
  counted-append [] vs n = refl
  counted-append (u ∷ us) vs n = counted-append us vs (saturating_add n 1)

  pub mark_all-append :
      (us vs : List K) (ws : List ℕ) → mark_all (us ++ vs) ws ≡ mark_all vs (mark_all us ws)
  unfolding mark_all
  mark_all-append [] vs ws = refl
  mark_all-append (u ∷ us) vs ws = mark_all-append us vs (mark_rows R C R 0 (pos u) ws)

  pub mark_all-Fits : (vs : List K) (ws : List ℕ) → Fits R C ws → Fits R C (mark_all vs ws)
  unfolding mark_all
  mark_all-Fits [] ws f = f
  mark_all-Fits (v ∷ vs) ws f = mark_all-Fits vs _ (mark_rows-Fits R C R 0 (pos v) ws f)

  -- A loop whose body inserts a key.
  pub inserting_loop :
      (body : K → Bloom → Run Bloom)
      → ((v : K) (ws : List ℕ) (n : ℕ)
          → Fits R C ws
          → body v (filter ws n) ≡ ok (filter (mark_rows R C R 0 (pos v) ws) (saturating_add n 1)))
      → (vs : List K) (ws : List ℕ) (n : ℕ) → Fits R C ws
      → for_each vs body (filter ws n) ≡ ok (filter (mark_all vs ws) (counted vs n))
  unfolding for_each mark_all counted
  inserting_loop body step [] ws n f = refl
  inserting_loop body step (v ∷ vs) ws n f =
      ap (λ z. z >>= for_each vs body) (step v ws n f)
      ∙ inserting_loop body step vs _ (saturating_add n 1) (mark_rows-Fits R C R 0 (pos v) ws f)

  module _ (inside : (v : K) (r : ℕ) → r < R → pos v r < C) where
    or_words-mark_rows :
        (v : K) (n i : ℕ) (us ws : List ℕ)
        → i + n ≤ R
        → Fits R C us
        → Fits R C ws
        → or_words us (mark_rows R C n i (pos v) ws) ≡ mark_rows R C n i (pos v) (or_words us ws)
    unfolding mark_rows
    or_words-mark_rows v zero i us ws h e f = refl
    or_words-mark_rows v (suc n) i us ws h e f =
        or_words-mark_rows v n (suc i) us _ (omega arith) e (mark-Fits R C i (pos v i) ws f)
        ∙ ap (mark_rows R C n (suc i) (pos v))
            (or_words-mark R C i (pos v i) us ws e f (omega arith) (inside v i (omega arith)))

    -- A union with the filter of a stream is the stream inserted.
    pub or_words-mark_all :
        (vs : List K) (us ws : List ℕ)
        → Fits R C us
        → Fits R C ws
        → or_words us (mark_all vs ws) ≡ mark_all vs (or_words us ws)
    unfolding mark_all
    or_words-mark_all [] us ws e f = refl
    or_words-mark_all (v ∷ vs) us ws e f =
        or_words-mark_all vs us _ e (mark_rows-Fits R C R 0 (pos v) ws f)
        ∙ ap (mark_all vs) (or_words-mark_rows v R 0 us ws (omega arith) e f)

    marked_rows_keep :
        (v : K) (n i r c : ℕ) (ws : List ℕ)
        → i + n ≤ R
        → Fits R C ws
        → reads R C ws r c ≡ true
        → reads R C (mark_rows R C n i (pos v) ws) r c ≡ true
    unfolding mark_rows
    marked_rows_keep v zero i r c ws h f t = t
    marked_rows_keep v (suc n) i r c ws h f t =
        marked_rows_keep v n (suc i) r c _ (omega arith) (mark-Fits R C i (pos v i) ws f)
          (mark_keeps R C r c i (pos v i) ws f (omega arith) (inside v i (omega arith)) t)

    marked_all_keep :
        (vs : List K) (r c : ℕ) (ws : List ℕ)
        → Fits R C ws
        → reads R C ws r c ≡ true
        → reads R C (mark_all vs ws) r c ≡ true
    unfolding mark_all
    marked_all_keep [] r c ws f t = t
    marked_all_keep (v ∷ vs) r c ws f t =
        marked_all_keep vs r c _ (mark_rows-Fits R C R 0 (pos v) ws f)
          (marked_rows_keep v R 0 r c ws (omega arith) f t)

    marked_rows_read :
        (v : K) (n i r : ℕ) (ws : List ℕ)
        → i + n ≤ R
        → i ≤ r
        → r < i + n
        → Fits R C ws
        → reads R C (mark_rows R C n i (pos v) ws) r (pos v r) ≡ true
    unfolding mark_rows
    marked_rows_read v zero i r ws h lo hi f = absurd (omega arith)
    marked_rows_read v (suc n) i r ws h lo hi f = elim (ℕ_discrete i r) [
      | yes e ↦ rw (← e) (
          marked_rows_keep v n (suc i) i (pos v i) _ (omega arith) (mark-Fits R C i (pos v i) ws f)
            (mark-reads R C i (pos v i) ws f (omega arith) (inside v i (omega arith))))
      | no ne ↦
          marked_rows_read v n (suc i) r _ (omega arith) (omega arith) (omega arith)
            (mark-Fits R C i (pos v i) ws f)
    ]

    -- The bits of every key of the stream are set.
    pub marked_all_read :
        (vs : List K) (v : K) (r : ℕ) (ws : List ℕ)
        → Mem v vs
        → r < R
        → Fits R C ws
        → reads R C (mark_all vs ws) r (pos v r) ≡ true
    unfolding mark_all
    marked_all_read [] v r ws m h f = absurd (not-mem-nil m)
    marked_all_read (u ∷ vs) v r ws m h f =
        Or.elim (Bool-set _ _) (mem-cons.0 m)
          (λ e. rw e (
            marked_all_keep vs r (pos u r) _ (mark_rows-Fits R C R 0 (pos u) ws f)
              (marked_rows_read u R 0 r ws (omega arith) (omega arith) (omega arith) f)))
          (λ later. marked_all_read vs v r _ later h (mark_rows-Fits R C R 0 (pos u) ws f))
