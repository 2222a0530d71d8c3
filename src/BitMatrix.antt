-- ===== src/BitMatrix.antt =====
-- src/common/structures/bit_matrix.rs: a grid of bits, packed into 64-bit words row after row.
pub mod Bits
pub mod Shape
use asap_sketchlib.Prelude.{
  ℕ, zero, suc, ◌+◌, ◌-◌, ◌*◌, ◌/◌, ◌%◌, ◌^◌, max, List, [], ◌∷◌, map, ◌⊎◌, inl, inr, Bool, true,
  false, ◌&&◌, ltb, ◌==◌, if◌then◌else◌, Run, ok, ◌>>=◌, assert, index, store, for_range, length,
  replicate,
}
use asap_sketchlib.Hasher.{SketchHasher}
use asap_sketchlib.Matrix.Hash.{MatrixHashType, cols_mask_bits, fold_to_col, row_hash}

pub record BitMatrix : Type 0 where
  pub words : List ℕ
  pub rows : ℕ
  pub cols : ℕ
  pub words_per_row : ℕ
  pub mask_bits : ℕ

-- the bit of a number at a place
unfoldable pub bit : ℕ → ℕ → ℕ
bit zero w = w % 2
bit (suc k) w = bit k (w / 2)

-- `|` on the lowest `f` bits
unfoldable pub lor : ℕ → ℕ → ℕ → ℕ
lor zero a b = 0
lor (suc f) a b = max (a % 2) (b % 2) + 2 * lor f (a / 2) (b / 2)

-- `&` with the complement of `b`, on the lowest `f` bits
unfoldable pub clear_bits : ℕ → ℕ → ℕ → ℕ
clear_bits zero a b = 0
clear_bits (suc f) a b = (a % 2 - b % 2) + 2 * clear_bits f (a / 2) (b / 2)

-- `u64::count_ones`, over `f` bits
unfoldable pub count_ones_word : ℕ → ℕ → ℕ
count_ones_word zero w = 0
count_ones_word (suc f) w = w % 2 + count_ones_word f (w / 2)

unfoldable pub words_for : ℕ → ℕ
words_for cols = (cols + 63) / 64

pub data FromWordsError : Type 0 where
  needs_both_dimensions dimensions_overflow needs_words : FromWordsError

unfoldable pub from_words : ℕ → ℕ → List ℕ → FromWordsError ⊎ BitMatrix
unfolding words_for
from_words rows cols words =
    if rows == 0
    then inl FromWordsError.needs_both_dimensions
    else if cols == 0
    then inl FromWordsError.needs_both_dimensions
    else if ltb (rows * words_for cols) (2 ^ 64)
    then (if length words == rows * words_for cols
        then inr (record {
          words = words;
          rows = rows;
          cols = cols;
          words_per_row = words_for cols;
          mask_bits = cols_mask_bits cols;
        })
        else inl FromWordsError.needs_words)
    else inl FromWordsError.dimensions_overflow

-- `BitMatrix::new`
unfoldable pub new : ℕ → ℕ → Run BitMatrix
unfolding words_for
new rows cols = assert (ltb 0 rows && ltb 0 cols) (
    ok (record {
      words = replicate (rows * words_for cols) 0;
      rows = rows;
      cols = cols;
      words_per_row = words_for cols;
      mask_bits = cols_mask_bits cols;
    }))

unfoldable pub count_ones : List ℕ → ℕ
count_ones [] = 0
count_ones (w ∷ ws) = count_ones_word 64 w + count_ones ws

unfoldable pub clear : BitMatrix → BitMatrix
clear m = record m { words = map (λ w. 0) m.words }

-- `zip` stops at the shorter of the two
unfoldable pub or_words : List ℕ → List ℕ → List ℕ
or_words [] bs = []
or_words (a ∷ xs) [] = a ∷ xs
or_words (a ∷ xs) (b ∷ bs) = lor 64 a b ∷ or_words xs bs

unfoldable pub union_from : BitMatrix → BitMatrix → Run BitMatrix
unfolding or_words
union_from self other =
    assert ((self.rows == other.rows) && (self.cols == other.cols))
      (ok (record self { words = or_words self.words other.words }))

-- the index of the word and the place in it; the mask is `2 ^` the place
unfoldable pub locate : BitMatrix → ℕ → ℕ → ℕ × ℕ
locate m row col = (row * m.words_per_row + col / 64, col % 64)

unfoldable pub get : BitMatrix → ℕ → ℕ → Run Bool
unfolding locate bit
get m row col =
    assert (ltb row m.rows && ltb col m.cols)
      (index m.words (locate m row col).0 >>= λ w. ok (bit (locate m row col).1 w == 1))

unfoldable pub put : BitMatrix → ℕ → ℕ → Bool → Run BitMatrix
unfolding locate
put m row col value = assert (ltb row m.rows && ltb col m.cols) (do
  w ← index m.words (locate m row col).0
  words ← store m.words (locate m row col).0 (
      if value
      then lor 64 w (2 ^ (locate m row col).1)
      else clear_bits 64 w (2 ^ (locate m row col).1))
  ok (record m { words = words }))

-- `BitMatrix::set`
unfoldable pub set_bit : BitMatrix → ℕ → ℕ → Run BitMatrix
unfolding locate
set_bit m row col = assert (ltb row m.rows && ltb col m.cols) (do
  w ← index m.words (locate m row col).0
  words ← store m.words (locate m row col).0 (lor 64 w (2 ^ (locate m row col).1))
  ok (record m { words = words }))

unfoldable pub col_for_row : BitMatrix → MatrixHashType → ℕ → Run ℕ
col_for_row m hashed row = row_hash hashed row m.mask_bits >>= λ raw. ok (fold_to_col raw m.cols)

unfoldable pub fast_insert :
    {V : Type 0} → (Bool → V → ℕ → Bool) → V → MatrixHashType → BitMatrix → Run BitMatrix
unfolding col_for_row get put
fast_insert op value hashed m =
    for_range m.rows 0
      (λ row t. do
        col ← col_for_row t hashed row
        cell ← get t row col
        put t row col (op cell value row))
      m

-- the minimum over the rows, where `false` is less than `true`
unfoldable pub fast_query_min :
    (Bool → ℕ → MatrixHashType → Bool) → BitMatrix → MatrixHashType → Run Bool
unfolding col_for_row get
fast_query_min op m hashed = do
  c0 ← col_for_row m hashed 0
  cell ← get m 0 c0
  for_range (m.rows - 1) 1
      (λ row best. do
        col ← col_for_row m hashed row
        cell ← get m row col
        let candidate = op cell row hashed
        ok (if candidate then best else (if best then candidate else best)))
      (op cell 0 hashed)

unfoldable pub hash_for_matrix : {K : Type 0} → SketchHasher K → BitMatrix → K → MatrixHashType
hash_for_matrix h m value = h.hash_for_matrix_seeded 0 m.rows m.cols value
