-- ===== src/Microscope/Rounding.antt =====
-- The generator of a cell's random bits, and the division that rounds by them.
use Prim.Native.Nat.{bit_xor}
use asap_sketchlib.Prelude.{ℕ, zero, suc, ◌+◌, ◌*◌, ◌/◌, ◌%◌, ◌^◌, ltb, ◌==◌, if◌then◌else◌}

-- the state of `Rounding`
abbrev pub Rounding : Type 0
Rounding = ℕ

unfoldable pub seed_state : ℕ → Rounding
seed_state seed = if seed == 0 then 11400714819323198485 else seed

-- the three shifts of `next_u64`
unfoldable pub shifted : Rounding → Rounding
shifted x =
    let a = bit_xor x (x / 2 ^ 12) in
    let b = bit_xor a (a * 2 ^ 25 % 2 ^ 64) in bit_xor b (b / 2 ^ 27)

-- the state after `next_u64`, and its value
unfoldable pub next_u64 : Rounding → Rounding × ℕ
next_u64 g = (shifted g, shifted g * 2685821657736338717 % 2 ^ 64)

-- the state after the division, and its result; no random bit is drawn where nothing remains
unfoldable pub unbiased_div : ℕ → ℕ → Rounding → Rounding × ℕ
unfolding next_u64
unbiased_div value divisor g =
    if value % divisor == 0
    then (g, value / divisor)
    else if ltb ((next_u64 g).1 % divisor) (value % divisor)
    then ((next_u64 g).0, value / divisor + 1)
    else ((next_u64 g).0, value / divisor)

-- one step of division after another
unfoldable pub scale_down : ℕ → ℕ → ℕ → Rounding → Rounding × ℕ
scale_down value zero c g = (g, value)
scale_down value (suc steps) c g =
    let once = unbiased_div value c g in scale_down once.1 steps c once.0
