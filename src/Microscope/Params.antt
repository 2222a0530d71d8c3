-- ===== src/Microscope/Params.antt =====
-- The parameters of a cell and the byte offsets of its fields.
use asap_sketchlib.Prelude.{
  ℕ, zero, suc, ◌+◌, ◌-◌, ◌*◌, ◌/◌, ◌%◌, ◌^◌, min, Option, none, some, ltb, leb, ◌==◌, ◌||◌,
  if◌then◌else◌,
}

-- `PIXEL_MAX`
abbrev pub pixel_max : ℕ
pixel_max = 255

-- `MAX_SHUTTER`
abbrev pub max_shutter : ℕ
max_shutter = 2 ^ 32 - 1

-- `MAX_ZOOM_BASE`
abbrev pub max_zoom_base : ℕ
max_zoom_base = 256

-- `MAX_SUB_WINDOWS`
abbrev pub max_sub_windows : ℕ
max_sub_windows = 4096

pub record MicroParams : Type 0 where
  pub t : ℕ
  pub c : ℕ

-- `None` where the source has a message
unfoldable pub checked : ℕ → ℕ → Option MicroParams
checked t c =
    if t == 0 || ltb max_sub_windows t
    then none
    else if ltb c 2 || ltb max_zoom_base c
    then none
    else some (record { t = t; c = c })

pub record MicroLayout : Type 0 where
  pub params : MicroParams
  pub pixels : ℕ
  pub zoom_at : ℕ
  pub shutter_at : ℕ
  pub depth : ℕ
  pub zoom_in_ceiling : ℕ

abbrev pub new_layout : MicroParams → MicroLayout
new_layout p = record {
  params = p;
  pixels = p.t + 2;
  zoom_at = p.t + 2;
  shutter_at = p.t + 3;
  depth = (p.t + 7 + 3) / 4 * 4;
  zoom_in_ceiling = pixel_max / p.c;
}

abbrev pub pixel_at : MicroLayout → ℕ → ℕ
pixel_at l n = n % l.pixels

-- the loop of `max_zoom`, from the exponent `z` and its power; spent fuel leaves the exponent
unfoldable pub max_zoom_loop : ℕ → ℕ → ℕ → ℕ → ℕ
max_zoom_loop zero c z value = z
max_zoom_loop (suc fuel) c z value =
    let rest = max_zoom_loop fuel c (suc z) (value * c) in
    if leb (min (value * c) (2 ^ 64 - 1)) max_shutter then rest else z

-- 32 doublings pass `max_shutter`
unfoldable pub max_zoom : MicroLayout → ℕ
max_zoom l = max_zoom_loop 33 l.params.c 0 1
