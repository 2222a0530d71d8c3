-- ===== src/Matrix/Hash.antt =====
-- src/common/structures/matrix_storage.rs: how one hash of a key is decoded into a column for each
-- row. A mask `& (2^b - 1)` is `% 2^b`, and a shift takes its amount modulo the width, as it does
-- in a release build.
use native.Mathlib.Nat.{mod-lt, one-le-pow}
use asap_sketchlib.Prelude.{
  ℕ, zero, suc, ◌+◌, ◌-◌, ◌*◌, ◌/◌, ◌%◌, ◌^◌, ◌<◌, ◌≤◌, ◌≡◌, refl, List, Bool, true, inl, inr,
  arith, ltb, ◌==◌, if◌then◌else◌, Bool-cases, ==→eq, Run, ok, ◌>>=◌, index, length, get_or,
  index-ok,
}

-- `ilog2`, by halving; the fuel is the number itself.
ilog2_loop : ℕ → ℕ → ℕ
ilog2_loop zero n = 0
ilog2_loop (suc f) n = let rest = suc (ilog2_loop f (n / 2)) in if ltb 1 n then rest else 0

unfoldable pub ilog2 : ℕ → ℕ
unfolding ilog2_loop
ilog2 n = ilog2_loop n n

unfoldable pub is_power_of_two : ℕ → Bool
unfolding ilog2
is_power_of_two n = n == 2 ^ ilog2 n

unfoldable pub cols_mask_bits : ℕ → ℕ
unfolding is_power_of_two
cols_mask_bits cols = if is_power_of_two cols then ilog2 cols else ilog2 cols + 1

unfoldable pub fold_to_col : ℕ → ℕ → ℕ
unfolding is_power_of_two
fold_to_col raw cols = if is_power_of_two cols then raw else raw % cols

pub data MatrixHashType : Type 0 where
  packed64 : ℕ → MatrixHashType
  packed128 : ℕ → MatrixHashType
  rows : List ℕ → MatrixHashType

unfoldable pub row_hash : MatrixHashType → ℕ → ℕ → Run ℕ
row_hash (packed64 value) row mask_bits = ok (value / 2 ^ (mask_bits * row % 64) % 2 ^ mask_bits)
row_hash (packed128 value) row mask_bits = ok (value / 2 ^ (mask_bits * row % 128) % 2 ^ mask_bits)
row_hash (rows values) row mask_bits = index values row >>= λ value. ok (value % 2 ^ mask_bits)

-- The 0/1 bit that a Count-Sketch turns into a sign.
unfoldable pub sign_bit : MatrixHashType → ℕ → Run ℕ
sign_bit (packed64 value) row = ok (value / 2 ^ ((127 - row % 64) % 64) % 2)
sign_bit (packed128 value) row = ok (value / 2 ^ ((255 - row % 128) % 128) % 2)
sign_bit (rows values) row = index values row >>= λ value. ok (value / 2 ^ 63 % 2)

unfoldable pub col_for_row : MatrixHashType → ℕ → ℕ → Run ℕ
unfolding row_hash fold_to_col cols_mask_bits
col_for_row h row cols = row_hash h row (cols_mask_bits cols) >>= λ raw. ok (fold_to_col raw cols)

-- The hash holds a value for each of the first `n` rows.
abbrev pub HasRows : MatrixHashType → ℕ → Type 0
HasRows (packed64 v) n = n ≤ n
HasRows (packed128 v) n = n ≤ n
HasRows (rows values) n = n ≤ length values

-- What `row_hash` returns where it does not panic.
unfoldable pub row_bits : MatrixHashType → ℕ → ℕ → ℕ
row_bits (packed64 value) row mask_bits = value / 2 ^ (mask_bits * row % 64) % 2 ^ mask_bits
row_bits (packed128 value) row mask_bits = value / 2 ^ (mask_bits * row % 128) % 2 ^ mask_bits
row_bits (rows values) row mask_bits = get_or values row 0 % 2 ^ mask_bits

unfoldable pub column : MatrixHashType → ℕ → ℕ → ℕ
column h row cols = fold_to_col (row_bits h row (cols_mask_bits cols)) cols

pub row_hash-ok :
    (h : MatrixHashType) (n row mask_bits : ℕ)
    → HasRows h n
    → row < n
    → row_hash h row mask_bits ≡ ok (row_bits h row mask_bits)
unfolding row_hash row_bits
row_hash-ok (packed64 v) n row b has lt = refl
row_hash-ok (packed128 v) n row b has lt = refl
row_hash-ok (rows values) n row b has lt = rw (index-ok values row 0 (omega arith))

pub col_for_row-ok :
    (h : MatrixHashType) (n row cols : ℕ)
    → HasRows h n
    → row < n
    → col_for_row h row cols ≡ ok (column h row cols)
unfolding col_for_row column
col_for_row-ok h n row cols has lt = rw (row_hash-ok h n row (cols_mask_bits cols) has lt)

pow2-pos : (n : ℕ) → 0 < 2 ^ n
pow2-pos n = one-le-pow n 2 (omega arith)

row_bits-lt : (h : MatrixHashType) (row b : ℕ) → row_bits h row b < 2 ^ b
unfolding row_bits
row_bits-lt (packed64 v) row b = mod-lt _ (pow2-pos b)
row_bits-lt (packed128 v) row b = mod-lt _ (pow2-pos b)
row_bits-lt (rows values) row b = mod-lt _ (pow2-pos b)

pub power_width : (n : ℕ) → is_power_of_two n ≡ true → n ≡ 2 ^ ilog2 n
unfolding is_power_of_two
power_width n e = ==→eq n (2 ^ ilog2 n) e

-- A decoded column lies in the grid, whether or not the width is a power of two.
pub column-lt : (h : MatrixHashType) (row cols : ℕ) → 0 < cols → column h row cols < cols
unfolding column fold_to_col cols_mask_bits
column-lt h row cols pos = elim (Bool-cases (is_power_of_two cols)) [
  | inl e ↦ rw e (omega (arith, row_bits-lt h row (ilog2 cols), power_width cols e))
  | inr e ↦ rw e (mod-lt _ pos)
]
