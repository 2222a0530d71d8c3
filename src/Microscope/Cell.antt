-- ===== src/Microscope/Cell.antt =====
-- The operations on a cell. Its bytes are numbers below 256; a computation that the source does in a
-- machine type stops where that type would overflow.
use asap_sketchlib.Prelude.{
  ℕ, zero, suc, ◌+◌, ◌-◌, ◌*◌, ◌/◌, ◌%◌, ◌^◌, List, [], ◌∷◌, Bool, true, false, ltb, leb, ◌==◌,
  ◌||◌, if◌then◌else◌, Run, ok, out_of_fuel, ◌>>=◌, assert, index, store, for_range, length, set,
}
use asap_sketchlib.Microscope.Params.{pixel_max, MicroLayout, pixel_at, max_zoom}
use asap_sketchlib.Microscope.Rounding.{Rounding, unbiased_div}

-- `u64::pow`
abbrev pub pow_u64 : ℕ → ℕ → Run ℕ
pow_u64 c z = assert (ltb (c ^ z) (2 ^ 64)) (ok (c ^ z))

-- `a - b` in u64
abbrev pub sub_u64 : ℕ → ℕ → Run ℕ
sub_u64 a b = assert (leb b a) (ok (a - b))

unfoldable pub zoom : MicroLayout → List ℕ → Run ℕ
zoom l cell = index cell l.zoom_at

-- `u32::from_le_bytes`
abbrev pub from_le_bytes : ℕ → ℕ → ℕ → ℕ → ℕ
from_le_bytes a b c d = a + 2 ^ 8 * b + 2 ^ 16 * c + 2 ^ 24 * d

unfoldable pub shutter : MicroLayout → List ℕ → Run ℕ
shutter l cell = do
  let at = l.shutter_at
  b0 ← index cell at
  b1 ← index cell (at + 1)
  b2 ← index cell (at + 2)
  b3 ← index cell (at + 3)
  ok (from_le_bytes b0 b1 b2 b3)

-- the bytes of a u32, least first, over four bytes of the cell
abbrev pub put_le_bytes : ℕ → ℕ → List ℕ → List ℕ
put_le_bytes at value cell =
    set
      (set (set (set cell at (value % 2 ^ 8)) (at + 1) (value / 2 ^ 8 % 2 ^ 8)) (at + 2)
        (value / 2 ^ 16 % 2 ^ 8))
      (at + 3) (value / 2 ^ 24 % 2 ^ 8)

unfoldable pub set_shutter : MicroLayout → ℕ → List ℕ → Run (List ℕ)
set_shutter l value cell =
    assert (leb (l.shutter_at + 4) (length cell)) (ok (put_le_bytes l.shutter_at value cell))

-- whether `validate` accepts the record
unfoldable pub validate : MicroLayout → List ℕ → Run Bool
validate l cell = do
  z ← zoom l cell
  let on_fit = (do unit ← pow_u64 l.params.c z; s ← shutter l cell; ok (ltb s unit))
  if ltb (max_zoom l) z then ok false else on_fit

-- the loop of `credit_pixel` over the first `n` bytes, of which the first has number `i`
unfoldable pub divide_pixels : ℕ → ℕ → ℕ → ℕ → Rounding → List ℕ → Rounding × List ℕ
divide_pixels zero i at c g cell = (g, cell)
divide_pixels (suc n) i at c g [] = (g, [])
divide_pixels (suc n) i at c g (slot ∷ cell) =
    let divided = unbiased_div (if i == at then pixel_max + 1 else slot) c g in
    let rest = divide_pixels n (suc i) at c divided.0 cell in (rest.0, divided.1 % 2 ^ 8 ∷ rest.1)

unfoldable pub credit_pixel : MicroLayout → ℕ → Rounding → List ℕ → Run (Rounding × List ℕ)
credit_pixel l at g cell = do
  pixel ← index cell at
  let on_room = store cell at (pixel + 1) >>= λ counted. ok (g, counted)
  let on_full = (do
    z ← index cell l.zoom_at
    let on_zoom = store cell l.zoom_at (z + 1) >>= λ raised.
        ok (divide_pixels l.pixels 0 at l.params.c g raised)
    if leb (max_zoom l) z then ok (g, cell) else on_zoom)
  if ltb pixel pixel_max then on_room else on_full

-- the loop of `insert`: the items left pending, and the cell
unfoldable pub insert_loop :
    ℕ → MicroLayout → ℕ → ℕ → Rounding → List ℕ → Run (ℕ × (Rounding × List ℕ))
insert_loop zero l current pending g cell = out_of_fuel
insert_loop (suc fuel) l current pending g cell = do
  z ← index cell l.zoom_at
  unit ← pow_u64 l.params.c z
  let on_unit = credit_pixel l current g cell >>= λ after.
      insert_loop fuel l current (pending - unit) after.0 after.1
  if ltb pending unit then ok (pending, (g, cell)) else on_unit

-- every pass takes a unit, at least one item, from what is pending
unfoldable pub insert : MicroLayout → ℕ → Rounding → List ℕ → Run (Rounding × List ℕ)
insert l n g cell = do
  s ← shutter l cell
  let pending = s + 1
  left ← insert_loop (suc pending) l (pixel_at l n) pending g cell
  stored ← set_shutter l (left.0 % 2 ^ 32) left.1.1
  ok (left.1.0, stored)

-- whether some of the first `n` bytes is above the ceiling
unfoldable pub any_above : ℕ → ℕ → List ℕ → Bool
any_above zero ceiling cell = false
any_above (suc n) ceiling [] = false
any_above (suc n) ceiling (p ∷ cell) = ltb ceiling p || any_above n ceiling cell

-- the first `n` bytes multiplied
unfoldable pub multiply_pixels : ℕ → ℕ → List ℕ → List ℕ
multiply_pixels zero c cell = cell
multiply_pixels (suc n) c [] = []
multiply_pixels (suc n) c (slot ∷ cell) = slot * c % 2 ^ 8 ∷ multiply_pixels n c cell

-- the first `n` bytes cleared
unfoldable pub clear_pixels : ℕ → List ℕ → List ℕ
clear_pixels zero cell = cell
clear_pixels (suc n) [] = []
clear_pixels (suc n) (slot ∷ cell) = 0 ∷ clear_pixels n cell

unfoldable pub try_zoom_in : MicroLayout → List ℕ → Run (Bool × List ℕ)
try_zoom_in l cell = do
  z ← index cell l.zoom_at
  let on_fit = store (multiply_pixels l.pixels l.params.c cell) l.zoom_at (z - 1) >>= λ lowered.
      ok (true, lowered)
  if z == 0
      then ok (false, cell)
      else if any_above l.pixels l.zoom_in_ceiling cell
      then ok (false, cell)
      else on_fit

-- `while try_zoom_in(..) {}`
unfoldable pub zoom_in_loop : ℕ → MicroLayout → List ℕ → Run (List ℕ)
zoom_in_loop zero l cell = out_of_fuel
zoom_in_loop (suc fuel) l cell = do
  tried ← try_zoom_in l cell
  let rest = zoom_in_loop fuel l tried.1
  if tried.0 then rest else ok tried.1

-- the part of `enter_sub_window` that closes the shutter into the sub-window that ended
unfoldable pub close_shutter : MicroLayout → ℕ → Rounding → List ℕ → Run (Rounding × List ℕ)
close_shutter l ended g cell = do
  z ← index cell l.zoom_at
  unit ← pow_u64 l.params.c z
  pending ← shutter l cell
  reset ← set_shutter l 0 cell
  let carry = unbiased_div pending unit g
  let on_carry = credit_pixel l (pixel_at l ended) carry.0 reset
  if pending == 0 then ok (g, reset) else if ltb 0 carry.1 then on_carry else ok (carry.0, reset)

-- `for step in (0..crossed).rev()`
unfoldable pub clear_entered : MicroLayout → ℕ → ℕ → List ℕ → Run (List ℕ)
clear_entered l new_n crossed cell =
    for_range crossed 0 (λ k t. do n ← sub_u64 new_n (crossed - 1 - k); store t (pixel_at l n) 0)
      cell

-- a zoom exponent is a byte: 256 passes see it reach zero
unfoldable pub enter_sub_window : MicroLayout → ℕ → ℕ → Rounding → List ℕ → Run (Rounding × List ℕ)
enter_sub_window l new_n crossed g cell =
    let far : Run (Rounding × List ℕ) =
      set_shutter l 0 (clear_pixels l.pixels cell) >>= λ reset. ok (g, reset) in
    let near : Run (Rounding × List ℕ) = (do
      ended ← sub_u64 new_n crossed
      closed ← close_shutter l ended g cell
      cleared ← clear_entered l new_n crossed closed.1
      ok (closed.0, cleared)) in
    let moved : Run (Rounding × List ℕ) = (do
      after ← if leb l.pixels crossed then far else near
      zoomed ← zoom_in_loop 256 l after.1
      ok (after.0, zoomed)) in
    if crossed == 0 then ok (g, cell) else moved
