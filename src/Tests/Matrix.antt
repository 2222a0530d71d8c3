-- ===== src/Tests/Matrix.antt =====
-- A grid of three rows and ten columns in a word of 64 bits.
use asap_sketchlib.Prelude.{◌+◌, ◌≤◌, ◌<◌, refl, arith}
use asap_sketchlib.Matrix.Hash.{cols_mask_bits}
use asap_sketchlib.Matrix.Word.{is_compatible, column_shift, sign_shift, compatible_bits}

compatible_bits_example :
    (column_shift 64 0 (cols_mask_bits 10) + cols_mask_bits 10
      ≤ column_shift 64 2 (cols_mask_bits 10))
    × (column_shift 64 2 (cols_mask_bits 10) + cols_mask_bits 10 ≤ sign_shift 64 2)
    × (sign_shift 64 2 < sign_shift 64 0)
unfolding is_compatible cols_mask_bits
compatible_bits_example =
    compatible_bits 64 3 10 0 2 (omega arith) (omega arith) refl (omega arith) (omega arith)
