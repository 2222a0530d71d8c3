-- ===== src/Matrix/Word.antt =====
-- src/common/structures/matrix_storage.rs, MatrixFastHash for u64 and u128: a hash in one word of
-- `width` bits, with a column for each row from the lowest bit up and a sign from the highest down.
use native.Mathlib.Nat.{mul-le-mul_left, mod-eq_of_lt}
use asap_sketchlib.Prelude.{
  ℕ, suc, ◌+◌, ◌-◌, ◌*◌, ◌/◌, ◌%◌, ◌^◌, ◌<◌, ◌≤◌, ◌≡◌, min, Bool, true, false, arith, leb, ltb,
  if◌then◌else◌,
}
use asap_sketchlib.Matrix.Hash.{cols_mask_bits, fold_to_col}

-- `assert_compatible` passes
unfoldable pub is_compatible : ℕ → ℕ → ℕ → Bool
is_compatible width rows cols = leb (min ((cols_mask_bits cols + 1) * rows) (2 ^ 64 - 1)) width

-- A release build takes the shift amount modulo the width.
unfoldable pub column_shift : ℕ → ℕ → ℕ → ℕ
column_shift width row mask_bits = mask_bits * row % width

unfoldable pub sign_shift : ℕ → ℕ → ℕ
sign_shift width row = (2 ^ 64 + (width - 1) - row) % 2 ^ 64 % width

unfoldable pub word_row_hash : ℕ → ℕ → ℕ → ℕ → ℕ
unfolding column_shift
word_row_hash width value row mask_bits =
    value / 2 ^ column_shift width row mask_bits % 2 ^ mask_bits

unfoldable pub word_col_for_row : ℕ → ℕ → ℕ → ℕ → ℕ
unfolding word_row_hash
word_col_for_row width value row cols =
    fold_to_col (word_row_hash width value row (cols_mask_bits cols)) cols

unfoldable pub word_sign_bit : ℕ → ℕ → ℕ → ℕ
unfolding sign_shift
word_sign_bit width value row = value / 2 ^ sign_shift width row % 2

-- `check_matrix_rows` of common/hash.rs accepts the number of rows
unfoldable pub accepts_rows : ℕ → Bool
accepts_rows rows = if ltb 20 rows then false else true

-- For two rows r < s of a shape that a word of 64 to 128 bits accepts: the bits of the column of r end
-- before those of s begin, those of s end before the sign bit of s, and that is below the sign bit of r.
-- So no shift wraps, and no bit is read twice.
pub compatible_bits :
    (width rows cols r s : ℕ)
    → 64 ≤ width
    → width ≤ 128
    → is_compatible width rows cols ≡ true
    → s < rows
    → r < s
    → (column_shift width r (cols_mask_bits cols) + cols_mask_bits cols
        ≤ column_shift width s (cols_mask_bits cols))
      × (column_shift width s (cols_mask_bits cols) + cols_mask_bits cols ≤ sign_shift width s)
      × (sign_shift width s < sign_shift width r)
unfolding is_compatible column_shift sign_shift
compatible_bits width rows cols r s lo hi e ls lr =
    let b = cols_mask_bits cols in
    let total : b * rows + rows ≤ width = ground (arith, e) in
    let below : b * suc r ≤ b * s = mul-le-mul_left b lr in
    let last : b * suc s ≤ b * rows = mul-le-mul_left b ls in
    let fits_r : b * r % width ≡ b * r = small (b * r) width (omega (arith, below, last, total)) in
    let fits_s : b * s % width ≡ b * s = small (b * s) width (omega (arith, last, total)) in
    let at_r : (2 ^ 64 + (width - 1) - r) % 2 ^ 64 % width ≡ width - 1 - r =
      sign_at r (omega (arith, total)) in
    let at_s : (2 ^ 64 + (width - 1) - s) % 2 ^ 64 % width ≡ width - 1 - s =
      sign_at s (omega (arith, total)) in
    (
      omega (arith, fits_r, fits_s, below),
      omega (arith, fits_s, at_s, last, total),
      omega (arith, at_r, at_s, total),
    )
  where
    small : (x n : ℕ) → x < n → x % n ≡ x
    small x n h = mod-eq_of_lt h

    sign_at : (x : ℕ) → x < width → (2 ^ 64 + (width - 1) - x) % 2 ^ 64 % width ≡ width - 1 - x
    sign_at x h =
        let inner : (2 ^ 64 + (width - 1) - x) % 2 ^ 64 ≡ width - 1 - x = omega arith in
        rw inner (small (width - 1 - x) width (omega arith))
