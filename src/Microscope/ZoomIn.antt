-- ===== src/Microscope/ZoomIn.antt =====
-- Zooming in: the counts that the pixels stand for stay, and the cell ends as sharp as it can be.
use native.Mathlib.Nat.{pow-suc, le-div_iff_mul-le}
use asap_sketchlib.Prelude.{
  ℕ, zero, suc, ◌+◌, ◌-◌, ◌*◌, ◌/◌, ◌%◌, ◌^◌, ◌<◌, ◌≤◌, ◌≡◌, refl, ap, ◌∙◌, List, [], ◌∷◌, arith,
  Bool, true, false, Bool-cases, ◌⊎◌, inl, inr, ltb, ◌==◌, if◌then◌else◌, ok, length, get_or, set,
  length-set, get_or-set, index-ok, store-ok, Returns, returns, Returns-bind, Returns-map,
}
use asap_sketchlib.Microscope.Params.{pixel_max, MicroParams, new_layout}
use asap_sketchlib.Microscope.Cell.{any_above, multiply_pixels, try_zoom_in, zoom_in_loop}
use asap_sketchlib.Microscope.Zoom.{IsParams}
use asap_sketchlib.Microscope.Bytes.{zoom_of}
use asap_sketchlib.Microscope.Credit.{AreBytes}

length-multiply_pixels : (n c : ℕ) (cell : List ℕ) → length (multiply_pixels n c cell) ≡ length cell
unfolding multiply_pixels
length-multiply_pixels zero c cell = refl
length-multiply_pixels (suc n) c [] = refl
length-multiply_pixels (suc n) c (slot ∷ cell) = ap suc (length-multiply_pixels n c cell)

get_or-multiply_pixels :
    (n c : ℕ) (cell : List ℕ) (j : ℕ)
    → get_or (multiply_pixels n c cell) j 0
      ≡ (if ltb j n then get_or cell j 0 * c % 2 ^ 8 else get_or cell j 0)
unfolding multiply_pixels
get_or-multiply_pixels zero c cell j = ground arith
get_or-multiply_pixels (suc n) c [] j = ground arith
get_or-multiply_pixels (suc n) c (slot ∷ cell) zero = ground arith
get_or-multiply_pixels (suc n) c (slot ∷ cell) (suc j) =
    ground (arith, get_or-multiply_pixels n c cell j)

any_above-le :
    (n ceiling : ℕ) (cell : List ℕ) (j : ℕ)
    → any_above n ceiling cell ≡ false
    → j < n
    → get_or cell j 0 ≤ ceiling
unfolding any_above
any_above-le zero ceiling cell j none_above lt = absurd (omega arith)
any_above-le (suc n) ceiling [] j none_above lt = omega arith
any_above-le (suc n) ceiling (x ∷ cell) zero none_above lt = ground (arith, none_above)
any_above-le (suc n) ceiling (x ∷ cell) (suc j) none_above lt =
    any_above-le n ceiling cell j (ground (arith, none_above)) (omega arith)

module _ (p : MicroParams) where
  -- no zoom is left, or a pixel is too large to be multiplied
  abbrev pub IsSharp : List ℕ → Type 0
  IsSharp cell = (zoom_of p cell ≡ 0) ⊎ (any_above (p.t + 2) (pixel_max / p.c) cell ≡ true)

  pub record Lossless (cell cell' : List ℕ) : Type 0 where
    pub size : length cell' ≡ length cell
    pub bytes : AreBytes cell'
    pub lower : zoom_of p cell' ≤ zoom_of p cell
    pub counts :
        (i : ℕ)
        → i < p.t + 2
        → get_or cell' i 0 * p.c ^ zoom_of p cell' ≡ get_or cell i 0 * p.c ^ zoom_of p cell
    pub rest : (i : ℕ) → p.t + 3 ≤ i → get_or cell' i 0 ≡ get_or cell i 0

  data Tried (cell : List ℕ) : Bool × List ℕ → Type 0 where
    zoomed_in :
        {cell' : List ℕ}
        → zoom_of p cell' + 1 ≡ zoom_of p cell
        → Lossless cell cell'
        → Tried cell (true, cell')
    stays : IsSharp cell → Tried cell (false, cell)

  module _ (ok_p : IsParams p) where
    rescaled : (x z : ℕ) → 0 < z → x * p.c * p.c ^ (z - 1) ≡ x * p.c ^ z
    rescaled x zero pos = absurd (omega arith)
    rescaled x (suc z) pos =
        let down : suc z - 1 ≡ z = omega arith in rw (down, pow-suc p.c z) (omega arith)

    zoom_in-Tried :
        (cell : List ℕ)
        → p.t + 7 ≤ length cell
        → AreBytes cell
        → 0 < zoom_of p cell
        → any_above (p.t + 2) (pixel_max / p.c) cell ≡ false
        → Tried cell (true, set (multiply_pixels (p.t + 2) p.c cell) (p.t + 2) (zoom_of p cell - 1))
    zoom_in-Tried cell room b pos none_above =
        let larger : List ℕ = multiply_pixels (p.t + 2) p.c cell in
        let z = zoom_of p cell in
        let long : length larger ≡ length cell = length-multiply_pixels (p.t + 2) p.c cell in
        let get : (i : ℕ)
            → get_or (set larger (p.t + 2) (z - 1)) i 0
              ≡ (if p.t + 2 == i then z - 1 else get_or larger i 0) =
          λ i. get_or-set larger (p.t + 2) i (z - 1) 0 (omega (arith, long, room)) in
        let lowered : zoom_of p (set larger (p.t + 2) (z - 1)) ≡ z - 1 =
          ground (arith, get (p.t + 2)) in
        let pixel : (i : ℕ)
            → i < p.t + 2
            → get_or (set larger (p.t + 2) (z - 1)) i 0 ≡ get_or cell i 0 * p.c =
          λ i lt.
            let two = ok_p.base in
            let fits : get_or cell i 0 * p.c ≤ 255 =
              (le-div_iff_mul-le (omega (arith, two))).0
                (any_above-le (p.t + 2) (pixel_max / p.c) cell i none_above lt) in
            ground (arith, get i, get_or-multiply_pixels (p.t + 2) p.c cell i, fits) in
        Tried.zoomed_in (omega (arith, lowered, pos)) record {
          size = length-set larger (p.t + 2) _ ∙ long;
          bytes = λ i. ground (arith, get i, get_or-multiply_pixels (p.t + 2) p.c cell i, b i);
          lower = omega (arith, lowered);
          counts = λ i lt. rw (lowered, pixel i lt) (rescaled (get_or cell i 0) z pos);
          rest = λ i le. ground (arith, get i, get_or-multiply_pixels (p.t + 2) p.c cell i);
        }

    try_zoom_in-Tried :
        (cell : List ℕ)
        → p.t + 7 ≤ length cell
        → AreBytes cell
        → Returns (Tried cell) (try_zoom_in (new_layout p) cell)
    unfolding try_zoom_in
    try_zoom_in-Tried cell room b =
        let long : length (multiply_pixels (p.t + 2) p.c cell) ≡ length cell =
          length-multiply_pixels (p.t + 2) p.c cell in
        rw (index-ok cell (p.t + 2) 0 (omega (arith, room)))
          elim (Bool-cases (zoom_of p cell == 0)) [
            | inl zero_zoom ↦ rw zero_zoom (returns (Tried.stays (inl (ground (arith, zero_zoom)))))
            | inr some_zoom ↦
                rw some_zoom elim (Bool-cases (any_above (p.t + 2) (pixel_max / p.c) cell)) [
                  | inl above ↦ rw above (returns (Tried.stays (inr above)))
                  | inr none_above ↦
                      rw
                        (
                          none_above,
                          store-ok (multiply_pixels (p.t + 2) p.c cell) (p.t + 2)
                              (zoom_of p cell - 1) (omega (arith, long, room)),
                        )
                        (returns (zoom_in-Tried cell room b (ground (arith, some_zoom)) none_above))
                ]
          ]

    Lossless-trans : (a b c : List ℕ) → Lossless a b → Lossless b c → Lossless a c
    Lossless-trans a b c u v = record {
      size = v.size ∙ u.size;
      bytes = v.bytes;
      lower = omega (arith, u.lower, v.lower);
      counts = λ i lt. v.counts i lt ∙ u.counts i lt;
      rest = λ i le. v.rest i le ∙ u.rest i le;
    }

    loop_after :
        (fuel : ℕ) (cell : List ℕ) (tried : Bool × List ℕ)
        → AreBytes cell
        → Tried cell tried
        → ((cell' : List ℕ)
            → Lossless cell cell'
            → zoom_of p cell' + 1 ≡ zoom_of p cell
            → Returns
                (λ last. Lossless cell' last × IsSharp last)
                (zoom_in_loop fuel (new_layout p) cell'))
        → Returns
            (λ last. Lossless cell last × IsSharp last)
            (if tried.0 then zoom_in_loop fuel (new_layout p) tried.1 else ok tried.1)
    loop_after fuel cell tried b (Tried.zoomed_in {cell' = cell'} down same) next =
        Returns-map (next cell' same down) λ last r. (Lossless-trans cell cell' last same r.0, r.1)
    loop_after fuel cell tried b (Tried.stays sharp) next = returns (
      record {
        size = refl;
        bytes = b;
        lower = omega arith;
        counts = λ i lt. refl;
        rest = λ i le. refl;
      },
      sharp,
    )

    -- Zooming in as far as the pixels allow ends, without a panic, for every record that has room for
    -- its fields and holds bytes, with parameters that `checked` accepts, where the fuel is more than
    -- the zoom. What each pixel stands for is kept exactly, as are the shutter's bytes, and no further
    -- step is possible.
    pub zoom_in_loop-Lossless :
        (fuel : ℕ) (cell : List ℕ)
        → p.t + 7 ≤ length cell
        → AreBytes cell
        → zoom_of p cell < fuel
        → Returns
            (λ last. Lossless cell last × IsSharp last)
            (zoom_in_loop fuel (new_layout p) cell)
    unfolding zoom_in_loop
    zoom_in_loop-Lossless zero cell room b enough = absurd (omega arith)
    zoom_in_loop-Lossless (suc fuel) cell room b enough =
        Returns-bind (try_zoom_in-Tried cell room b) λ tried how.
          loop_after fuel cell tried b how λ cell' same down.
            zoom_in_loop-Lossless fuel cell' (omega (arith, same.size, room)) same.bytes
              (omega (arith, down, enough))
