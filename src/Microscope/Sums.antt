-- ===== src/Microscope/Sums.antt =====
-- The sums of two cells' pixels, and their zooming out.

use asap_sketchlib.Prelude.{
  ℕ, zero, suc, ◌+◌, ◌%◌, ◌^◌, min, ◌<◌, ◌≤◌, ◌≡◌, refl, ap, ◌∙◌, List, [], ◌∷◌, map, arith, false,
  Bool-cases, inl, inr, ltb, leb, if◌then◌else◌, length, get_or, index-ok, Returns, returns,
  Returns-bind, Returns-map,
}
use asap_sketchlib.Microscope.Params.{pixel_max, MicroParams, new_layout, max_zoom}
use asap_sketchlib.Microscope.Rounding.{Rounding, unbiased_div, scale_down}
use asap_sketchlib.Microscope.Cell.{any_above}
use asap_sketchlib.Microscope.Merge.{sum_pixels, divide_sums, fit_sums, write_sums}
use asap_sketchlib.Microscope.Zoom.{IsParams}

-- the sums, where neither side is scaled down
abbrev pub Sums : ℕ → ℕ → List ℕ → List ℕ → List ℕ → Type 0
Sums n i dst src sums =
    (j : ℕ) → j < n → get_or sums j 0 ≡ get_or dst (i + j) 0 + get_or src (i + j) 0

scale_down-none : (v a c : ℕ) (g : Rounding) → a ≡ 0 → scale_down v a c g ≡ (g, v)
unfolding scale_down
scale_down-none v zero c g e = refl
scale_down-none v (suc a) c g e = absurd (omega arith)

Sums-cons :
    (n i : ℕ) (dst src rest : List ℕ)
    → Sums n (suc i) dst src rest
    → Sums (suc n) i dst src ((get_or dst i 0 + get_or src i 0) ∷ rest)
Sums-cons n i dst src rest tail zero lt = let here : i + 0 ≡ i = omega arith in rw here refl
Sums-cons n i dst src rest tail (suc j) lt =
    let next : i + suc j ≡ suc i + j = omega arith in rw next (tail j (omega arith))

pub sum_pixels-length :
    (n i c a b : ℕ) (g : Rounding) (dst src : List ℕ)
    → i + n ≤ length dst
    → i + n ≤ length src
    → Returns
        (λ r. (length r.1 ≡ n) × (a ≡ 0 → b ≡ 0 → (r.0 ≡ g) × Sums n i dst src r.1))
        (sum_pixels n i c a b g dst src)
unfolding sum_pixels
sum_pixels-length zero i c a b g dst src ld ls =
    returns (refl, λ a0 b0. (refl, λ j lt. absurd (omega (arith, lt))))
sum_pixels-length (suc n) i c a b g dst src ld ls =
    rw (index-ok dst i 0 (omega arith), index-ok src i 0 (omega arith))
      (Returns-bind (sum_pixels-length n (suc i) c a b _ dst src (omega arith) (omega arith))
        λ rest v. returns (
          ap suc v.0,
          λ a0 b0.
              let tail = v.1 a0 b0 in
              rw
                (
                  scale_down-none (get_or dst i 0) a c g a0,
                  scale_down-none (get_or src i 0) b c g b0,
                )
                (
                  tail.0
                      ∙ rw
                          (
                            scale_down-none (get_or dst i 0) a c g a0,
                            scale_down-none (get_or src i 0) b c g b0,
                          )
                          refl,
                  Sums-cons n i dst src rest.1 tail.1,
                ),
        ))

length-divide_sums :
    (c : ℕ) (g : Rounding) (sums : List ℕ) → length (divide_sums c g sums).1 ≡ length sums
unfolding divide_sums
length-divide_sums c g [] = refl
length-divide_sums c g (value ∷ sums) =
    ap suc (length-divide_sums c (unbiased_div value c g).0 sums)

pub any_above-none :
    (n ceiling : ℕ) (cell : List ℕ)
    → ((j : ℕ) → j < n → get_or cell j 0 ≤ ceiling)
    → any_above n ceiling cell ≡ false
unfolding any_above
any_above-none zero ceiling cell low = refl
any_above-none (suc n) ceiling [] low = refl
any_above-none (suc n) ceiling (x ∷ cell) low = ground (
  arith,
  low 0 (omega arith),
  any_above-none n ceiling cell (λ j lt. low (suc j) (omega (arith, lt))),
)

pub length-write_sums : (n : ℕ) (sums dst : List ℕ) → length (write_sums n sums dst) ≡ length dst
unfolding write_sums
length-write_sums zero sums dst = refl
length-write_sums (suc n) [] dst = refl
length-write_sums (suc n) (value ∷ sums) [] = refl
length-write_sums (suc n) (value ∷ sums) (slot ∷ dst) = ap suc (length-write_sums n sums dst)

pub get_or-write_sums :
    (n : ℕ) (sums dst : List ℕ) (j : ℕ)
    → length sums ≡ n
    → n ≤ length dst
    → get_or (write_sums n sums dst) j 0
      ≡ (if ltb j n then get_or sums j 0 % 2 ^ 8 else get_or dst j 0)
unfolding write_sums
get_or-write_sums zero sums dst j e room = ground arith
get_or-write_sums (suc n) [] dst j e room = absurd (omega (arith, e))
get_or-write_sums (suc n) (value ∷ sums) [] j e room = absurd (omega (arith, room))
get_or-write_sums (suc n) (value ∷ sums) (slot ∷ dst) zero e room = ground arith
get_or-write_sums (suc n) (value ∷ sums) (slot ∷ dst) (suc j) e room =
    ground (arith, get_or-write_sums n sums dst j (omega (arith, e)) (omega (arith, room)))

module _ (p : MicroParams) (ok_p : IsParams p) where
  -- what the zooming out of the sums keeps
  pub record Fitted (target : ℕ) (g : Rounding) (sums : List ℕ) (r : ℕ × (Rounding × List ℕ))
      : Type 0 where
    pub range : r.0 ≤ max_zoom (new_layout p)
    pub grows : target ≤ r.0
    pub count : length r.1.1 ≡ length sums
    pub idle : any_above (length sums) pixel_max sums ≡ false → r ≡ (target, (g, sums))

  pub fit_sums-Fitted :
      (fuel target : ℕ) (g : Rounding) (sums : List ℕ)
      → target ≤ max_zoom (new_layout p)
      → max_zoom (new_layout p) < fuel + target
      → Returns (Fitted target g sums) (fit_sums fuel (new_layout p) target g sums)
  unfolding fit_sums
  fit_sums-Fitted zero target g sums le enough = absurd (omega (arith, le, enough))
  fit_sums-Fitted (suc fuel) target g sums le enough =
      elim (Bool-cases (any_above (length sums) pixel_max sums)) [
        | inr fits ↦
            rw fits
              (returns (record { range = le; grows = omega arith; count = refl; idle = λ _. refl }))
        | inl above ↦ rw above elim (Bool-cases (leb (max_zoom (new_layout p)) target)) [
          | inl top ↦ rw top (
              returns (record {
                range = le;
                grows = omega arith;
                count = length-map sums;
                idle = λ fits. absurd (ground (arith, fits, above));
              }))
          | inr below ↦ rw below (
              Returns-map
                (fit_sums-Fitted fuel (target + 1) _ _ (ground (arith, below))
                  (omega (arith, enough)))
                λ r f. record {
                  range = f.range;
                  grows = omega (arith, f.grows);
                  count = f.count ∙ length-divide_sums p.c g sums;
                  idle = λ fits. absurd (ground (arith, fits, above));
                })
        ]
      ]
    where
      length-map : (xs : List ℕ) → length (map (λ value. min value pixel_max) xs) ≡ length xs
      length-map [] = refl
      length-map (x ∷ xs) = ap suc (length-map xs)
