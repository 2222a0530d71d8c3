-- ===== src/BitMatrix/Shape.antt =====
-- Grids of a given shape: the words after a bit is set, and what a read then gives.
use native.Mathlib.Nat.{mul-le-mul_right}
use asap_sketchlib.Prelude.{
  ℕ, zero, suc, ◌+◌, ◌*◌, ◌/◌, ◌%◌, ◌^◌, ◌<◌, ◌≤◌, ◌≡◌, refl, sym, ap, ◌∙◌, List, Bool, true, arith,
  ◌==◌, lt→ltb, Run, ok, ◌>>=◌, for_range, length, get_or, set, length-set, get_or-set, index-ok,
}
use asap_sketchlib.Matrix.Hash.{cols_mask_bits}
use asap_sketchlib.BitMatrix.{BitMatrix, bit, lor, or_words, words_for, locate, get, set_bit, put}
use asap_sketchlib.BitMatrix.Bits.{bit-lor, bit-pow, bit-le, or_words-set}

module _ (R C : ℕ) where
  abbrev pub grid : List ℕ → BitMatrix
  grid ws = record {
    words = ws;
    rows = R;
    cols = C;
    words_per_row = words_for C;
    mask_bits = cols_mask_bits C;
  }

  -- the index of the word of a cell
  unfoldable pub word_of : ℕ → ℕ → ℕ
  word_of r c = r * words_for C + c / 64

  unfoldable pub mark : ℕ → ℕ → List ℕ → List ℕ
  mark r c ws = set ws (word_of r c) (lor 64 (get_or ws (word_of r c) 0) (2 ^ (c % 64)))

  unfoldable pub reads : List ℕ → ℕ → ℕ → Bool
  reads ws r c = bit (c % 64) (get_or ws (word_of r c) 0) == 1

  -- rows i to i + n, each at its column
  unfoldable pub mark_rows : ℕ → ℕ → (ℕ → ℕ) → List ℕ → List ℕ
  mark_rows zero i pos ws = ws
  mark_rows (suc n) i pos ws = mark_rows n (suc i) pos (mark i (pos i) ws)

  abbrev pub Fits : List ℕ → Type 0
  Fits ws = length ws ≡ R * words_for C

  pub mark-Fits : (r c : ℕ) (ws : List ℕ) → Fits ws → Fits (mark r c ws)
  unfolding mark
  mark-Fits r c ws f = length-set ws (word_of r c) _ ∙ f

  pub word_of-lt : (r c : ℕ) (ws : List ℕ) → Fits ws → r < R → c < C → word_of r c < length ws
  unfolding word_of words_for
  word_of-lt r c ws f a b =
      let room : suc r * ((C + 63) / 64) ≤ R * ((C + 63) / 64) =
        mul-le-mul_right ((C + 63) / 64) a in
      omega (arith, room)

  pub set_bit-ok :
      (r c : ℕ) (ws : List ℕ)
      → Fits ws
      → r < R
      → c < C
      → set_bit (grid ws) r c ≡ ok (grid (mark r c ws))
  unfolding set_bit locate mark word_of
  set_bit-ok r c ws f a b =
      rw (lt→ltb r R a, lt→ltb c C b, index-ok ws (word_of r c) 0 (word_of-lt r c ws f a b)) refl

  pub get-ok :
      (r c : ℕ) (ws : List ℕ) → Fits ws → r < R → c < C → get (grid ws) r c ≡ ok (reads ws r c)
  unfolding get locate reads word_of
  get-ok r c ws f a b =
      rw (lt→ltb r R a, lt→ltb c C b, index-ok ws (word_of r c) 0 (word_of-lt r c ws f a b)) refl

  pub put-ok :
      (r c : ℕ) (ws : List ℕ)
      → Fits ws
      → r < R
      → c < C
      → put (grid ws) r c true ≡ ok (grid (mark r c ws))
  unfolding put locate mark word_of
  put-ok r c ws f a b =
      rw (lt→ltb r R a, lt→ltb c C b, index-ok ws (word_of r c) 0 (word_of-lt r c ws f a b)) refl

  pub mark_rows-Fits : (n i : ℕ) (pos : ℕ → ℕ) (ws : List ℕ) → Fits ws → Fits (mark_rows n i pos ws)
  unfolding mark_rows
  mark_rows-Fits zero i pos ws f = f
  mark_rows-Fits (suc n) i pos ws f =
      mark_rows-Fits n (suc i) pos (mark i (pos i) ws) (mark-Fits i (pos i) ws f)

  -- A loop whose body sets the bit of its row is `mark_rows`.
  pub marking_loop :
      (body : ℕ → BitMatrix → Run BitMatrix) (pos : ℕ → ℕ)
      → ((r : ℕ) (ws : List ℕ) → r < R → Fits ws → body r (grid ws) ≡ ok (grid (mark r (pos r) ws)))
      → (n i : ℕ) (ws : List ℕ) → i + n ≤ R
      → Fits ws
      → for_range n i body (grid ws) ≡ ok (grid (mark_rows n i pos ws))
  unfolding mark_rows for_range
  marking_loop body pos step zero i ws h f = refl
  marking_loop body pos step (suc n) i ws h f =
      ap (λ z. z >>= for_range n (suc i) body) (step i ws (omega arith) f)
      ∙ marking_loop body pos step n (suc i) (mark i (pos i) ws) (omega arith)
          (mark-Fits i (pos i) ws f)

  pub mark-reads :
      (r c : ℕ) (ws : List ℕ) → Fits ws → r < R → c < C → reads (mark r c ws) r c ≡ true
  unfolding reads mark
  mark-reads r c ws f a b = ground (
    arith,
    get_or-set ws (word_of r c) (word_of r c) (lor 64 (get_or ws (word_of r c) 0) (2 ^ (c % 64))) 0
        (word_of-lt r c ws f a b),
    bit-lor (c % 64) 64 (get_or ws (word_of r c) 0) (2 ^ (c % 64)) (omega arith),
    bit-pow (c % 64),
    bit-le (c % 64) (get_or ws (word_of r c) 0),
  )

  -- Setting a bit keeps the ones that are set.
  pub mark_keeps :
      (r c r' c' : ℕ) (ws : List ℕ)
      → Fits ws
      → r' < R
      → c' < C
      → reads ws r c ≡ true
      → reads (mark r' c' ws) r c ≡ true
  unfolding reads mark
  mark_keeps r c r' c' ws f a b h = ground (
    arith,
    get_or-set ws (word_of r' c') (word_of r c)
        (lor 64 (get_or ws (word_of r' c') 0) (2 ^ (c' % 64))) 0 (word_of-lt r' c' ws f a b),
    bit-lor (c % 64) 64 (get_or ws (word_of r' c') 0) (2 ^ (c' % 64)) (omega arith),
    bit-le (c % 64) (2 ^ (c' % 64)),
  )

  pub or_words-mark :
      (r c : ℕ) (us ws : List ℕ)
      → Fits us
      → Fits ws
      → r < R
      → c < C
      → or_words us (mark r c ws) ≡ mark r c (or_words us ws)
  unfolding mark
  or_words-mark r c us ws e f a b =
      or_words-set us ws (word_of r c) (2 ^ (c % 64)) (e ∙ sym f) (word_of-lt r c us e a b)
