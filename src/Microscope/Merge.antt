-- ===== src/Microscope/Merge.antt =====
-- The merge of two cells that stand at one sub-window.
use asap_sketchlib.Prelude.{
  ℕ, zero, suc, ◌+◌, ◌-◌, ◌/◌, ◌%◌, ◌^◌, min, max, List, [], ◌∷◌, map, leb, if◌then◌else◌, Run, ok,
  out_of_fuel, ◌>>=◌, index, store, length,
}
use asap_sketchlib.Microscope.Params.{pixel_max, MicroLayout, pixel_at, max_zoom}
use asap_sketchlib.Microscope.Rounding.{Rounding, unbiased_div, scale_down}
use asap_sketchlib.Microscope.Cell.{pow_u64, zoom, shutter, set_shutter, any_above}

-- the sums of the `n` pixels from number `i` on, each side scaled down by its steps
unfoldable pub sum_pixels : ℕ → ℕ → ℕ → ℕ → ℕ → Rounding → List ℕ → List ℕ → Run (Rounding × List ℕ)
sum_pixels zero i c dst_steps src_steps g dst src = ok (g, [])
sum_pixels (suc n) i c dst_steps src_steps g dst src = do
  d ← index dst i
  let mine = scale_down d dst_steps c g
  s ← index src i
  let theirs = scale_down s src_steps c mine.0
  rest ← sum_pixels n (suc i) c dst_steps src_steps theirs.0 dst src
  ok (rest.0, (mine.1 + theirs.1) ∷ rest.1)

unfoldable pub divide_sums : ℕ → Rounding → List ℕ → Rounding × List ℕ
divide_sums c g [] = (g, [])
divide_sums c g (value ∷ sums) =
    let divided = unbiased_div value c g in
    let rest = divide_sums c divided.0 sums in (rest.0, divided.1 ∷ rest.1)

-- the loop that zooms the sums out until every one fits a byte
unfoldable pub fit_sums : ℕ → MicroLayout → ℕ → Rounding → List ℕ → Run (ℕ × (Rounding × List ℕ))
fit_sums zero l target g sums = out_of_fuel
fit_sums (suc fuel) l target g sums =
    let divided = divide_sums l.params.c g sums in
    let rest = fit_sums fuel l (target + 1) divided.0 divided.1 in
    if any_above (length sums) pixel_max sums
    then if leb (max_zoom l) target
      then ok (target, (g, map (λ value. min value pixel_max) sums))
      else rest
    else ok (target, (g, sums))

-- `dst.iter_mut().take(n).zip(sums)`
unfoldable pub write_sums : ℕ → List ℕ → List ℕ → List ℕ
write_sums zero sums dst = dst
write_sums (suc n) [] dst = dst
write_sums (suc n) (value ∷ sums) [] = []
write_sums (suc n) (value ∷ sums) (slot ∷ dst) = value % 2 ^ 8 ∷ write_sums n sums dst

-- the target never passes 255: 256 passes see it reach the cap
unfoldable pub merge_cells : MicroLayout → ℕ → Rounding → List ℕ → List ℕ → Run (Rounding × List ℕ)
merge_cells l n g dst src = do
  z_dst ← zoom l dst
  z_src ← zoom l src
  let target = max z_dst z_src
  summed ← sum_pixels l.pixels 0 l.params.c (target - z_dst) (target - z_src) g dst src
  s_dst ← shutter l dst
  s_src ← shutter l src
  let combined = s_dst + s_src
  unit ← pow_u64 l.params.c target
  old ← index summed.1 (pixel_at l n)
  sums ← store summed.1 (pixel_at l n) ((old + combined / unit % 2 ^ 32) % 2 ^ 32)
  fitted ← fit_sums 256 l target summed.0 sums
  merged ← store (write_sums l.pixels fitted.1.1 dst) l.zoom_at fitted.0
  stored ← set_shutter l (combined % unit % 2 ^ 32) merged
  ok (fitted.1.0, stored)
