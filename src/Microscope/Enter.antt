-- ===== src/Microscope/Enter.antt =====
-- A cell enters a new sub-window.
use native.Mathlib.Nat.{mod-lt}
use asap_sketchlib.Prelude.{
  ℕ, zero, suc, ◌+◌, ◌-◌, ◌*◌, ◌/◌, ◌%◌, ◌^◌, ◌<◌, ◌≤◌, ◌≡◌, refl, ap, ◌∙◌, subst, List, [], ◌∷◌,
  arith, true, false, Bool-cases, inl, inr, ltb, leb, ◌==◌, if◌then◌else◌, length, get_or, set,
  length-set, get_or-set, index-ok, store-ok, Returns, returns, Returns-bind, Returns-map,
  Returns-upto, Returns-if,
}
use asap_sketchlib.Microscope.Params.{MicroParams, new_layout, max_zoom}
use asap_sketchlib.Microscope.Rounding.{Rounding, unbiased_div}
use asap_sketchlib.Microscope.Cell.{clear_pixels, close_shutter, clear_entered, enter_sub_window}
use asap_sketchlib.Microscope.Zoom.{IsParams, unit-pos}
use asap_sketchlib.Microscope.Bytes.{
  zoom_of, shutter_of, with_shutter, IsCell, IsCell-room, shutter-ok, set_shutter-ok,
  get_or-with_shutter, shutter_of-with_shutter, with_shutter-IsCell,
}
use asap_sketchlib.Microscope.Credit.{AreBytes, credit_pixel-Credits}
use asap_sketchlib.Microscope.Insert.{pow-ok}
use asap_sketchlib.Microscope.ZoomIn.{IsSharp, Lossless, zoom_in_loop-Lossless}

length-clear_pixels : (n : ℕ) (cell : List ℕ) → length (clear_pixels n cell) ≡ length cell
unfolding clear_pixels
length-clear_pixels zero cell = refl
length-clear_pixels (suc n) [] = refl
length-clear_pixels (suc n) (slot ∷ cell) = ap suc (length-clear_pixels n cell)

get_or-clear_pixels :
    (n : ℕ) (cell : List ℕ) (j : ℕ)
    → get_or (clear_pixels n cell) j 0 ≡ (if ltb j n then 0 else get_or cell j 0)
unfolding clear_pixels
get_or-clear_pixels zero cell j = ground arith
get_or-clear_pixels (suc n) [] j = ground arith
get_or-clear_pixels (suc n) (slot ∷ cell) zero = ground arith
get_or-clear_pixels (suc n) (slot ∷ cell) (suc j) = ground (arith, get_or-clear_pixels n cell j)

zero_of_mul : (x u : ℕ) → 0 < u → x * u ≡ 0 → x ≡ 0
zero_of_mul zero u pos e = refl
zero_of_mul (suc x) u pos e = absurd (omega (arith, e))

module _ (p : MicroParams) (ok_p : IsParams p) where
  -- a well-formed cell whose shutter is empty
  abbrev pub IsClosed : List ℕ → Type 0
  IsClosed cell = IsCell p cell × (shutter_of p cell ≡ 0)

  IsClosed-cell :
      (cell : List ℕ)
      → length cell ≡ (p.t + 7 + 3) / 4 * 4
      → AreBytes cell
      → zoom_of p cell ≤ max_zoom (new_layout p)
      → shutter_of p cell ≡ 0
      → IsClosed cell
  IsClosed-cell cell e b z s = (
    record { size = e; bytes = b; zoomed = z; closed = rw s (unit-pos p (zoom_of p cell) ok_p) },
    s,
  )

  same_shutter :
      (cell cell' : List ℕ)
      → ((i : ℕ) → p.t + 3 ≤ i → get_or cell' i 0 ≡ get_or cell i 0)
      → shutter_of p cell' ≡ shutter_of p cell
  same_shutter cell cell' same =
      rw
        (
          same (p.t + 3) (omega arith),
          same (p.t + 3 + 1) (omega arith),
          same (p.t + 3 + 2) (omega arith),
          same (p.t + 3 + 3) (omega arith),
        )
        refl

  reset-IsClosed :
      (cell : List ℕ)
      → length cell ≡ (p.t + 7 + 3) / 4 * 4
      → AreBytes cell
      → zoom_of p cell ≤ max_zoom (new_layout p)
      → IsClosed (with_shutter p 0 cell)
  reset-IsClosed cell e b z = (
    with_shutter-IsCell p 0 cell e b z (unit-pos p (zoom_of p cell) ok_p) (omega arith),
    shutter_of-with_shutter p 0 cell (IsCell-room p cell e) (omega arith),
  )

  close_shutter-IsClosed :
      (ended : ℕ) (g : Rounding) (cell : List ℕ)
      → IsCell p cell
      → Returns (λ after. IsClosed after.1) (close_shutter (new_layout p) ended g cell)
  unfolding close_shutter
  close_shutter-IsClosed ended g cell v =
      let room = IsCell-room p cell v.size in
      let reset : List ℕ = with_shutter p 0 cell in
      let shut = reset-IsClosed cell v.size v.bytes v.zoomed in
      rw
        (
          index-ok cell (p.t + 2) 0 (omega (arith, room)),
          pow-ok p ok_p (zoom_of p cell) v.zoomed,
          shutter-ok p cell room,
          set_shutter-ok p cell 0 room,
        )
        (Returns-if (shutter_of p cell == 0) (λ e. returns shut)
          (λ e.
            Returns-if (ltb 0 (unbiased_div (shutter_of p cell) (p.c ^ zoom_of p cell) g).1)
              (λ up.
                Returns-map
                  (credit_pixel-Credits p ok_p reset (IsCell-room p reset shut.0.size) shut.0.bytes
                    shut.0.zoomed (ended % (p.t + 2)) (mod-lt ended (omega arith))
                    (unbiased_div (shutter_of p cell) (p.c ^ zoom_of p cell) g).0)
                  λ after k.
                    IsClosed-cell after.1 (k.1.size ∙ shut.0.size) k.1.bytes k.1.zoom_range
                      (same_shutter reset after.1 k.1.rest ∙ shut.1))
              (λ down. returns shut)))

  -- the slots of the sub-windows from the oldest entered on, `k` of them
  abbrev Cleared : ℕ → ℕ → ℕ → List ℕ → Type 0
  Cleared new_n crossed k cell =
      (j : ℕ) → j < k → get_or cell ((new_n - (crossed - 1 - j)) % (p.t + 2)) 0 ≡ 0

  clear_slot : (at : ℕ) (cell : List ℕ) → at < p.t + 2 → IsClosed cell → IsClosed (set cell at 0)
  clear_slot at cell lt (v, s) =
      let room = IsCell-room p cell v.size in
      let get : (i : ℕ) → get_or (set cell at 0) i 0 ≡ (if at == i then 0 else get_or cell i 0) =
        λ i. get_or-set cell at i 0 0 (omega (arith, room)) in
      let z : zoom_of p (set cell at 0) ≡ zoom_of p cell = ground (arith, get (p.t + 2)) in
      IsClosed-cell (set cell at 0) (length-set cell at 0 ∙ v.size)
        (λ i. ground (arith, get i, v.bytes i)) (rw z v.zoomed)
        (same_shutter cell (set cell at 0) (λ i le. ground (arith, get i)) ∙ s)

  clear_entered-Cleared :
      (new_n crossed : ℕ) (cell : List ℕ)
      → crossed ≤ new_n
      → IsClosed cell
      → Returns
          (λ cell'. IsClosed cell' × Cleared new_n crossed crossed cell')
          (clear_entered (new_layout p) new_n crossed cell)
  unfolding clear_entered
  clear_entered-Cleared new_n crossed cell le shut =
      Returns-upto (λ k t. IsClosed t × Cleared new_n crossed k t) crossed _ cell
        (λ k t lt v.
          let n : ℕ = new_n - (crossed - 1 - k) in
          let at : ℕ = n % (p.t + 2) in
          let no_underflow : leb (crossed - 1 - k) new_n ≡ true = ground arith in
          let in_pixels : at < p.t + 2 = mod-lt n (omega arith) in
          let inside : at < length t = omega (arith, IsCell-room p t v.0.0.size, in_pixels) in
          rw (no_underflow, store-ok t at 0 inside)
            (returns (
              clear_slot at t in_pixels v.0,
              λ j below. elim (Bool-cases (ltb j k)) [
                | inl earlier ↦ ground (
                  arith,
                  get_or-set t at ((new_n - (crossed - 1 - j)) % (p.t + 2)) 0 0 inside,
                  v.1 j (ground (arith, earlier)),
                )
                | inr last ↦
                    let here : j ≡ k = ground (arith, last, below) in
                    rw here (ground (arith, get_or-set t at at 0 0 inside))
              ],
            )))
        (shut, λ j below. absurd (omega (arith, below)))

  -- the slots of the last `crossed` sub-windows up to `new_n` are empty
  abbrev pub AreEmpty : ℕ → ℕ → List ℕ → Type 0
  AreEmpty new_n crossed cell = (k : ℕ) → k < crossed → get_or cell ((new_n - k) % (p.t + 2)) 0 ≡ 0

  Cleared-AreEmpty :
      (new_n crossed : ℕ) (cell : List ℕ)
      → Cleared new_n crossed crossed cell
      → AreEmpty new_n crossed cell
  Cleared-AreEmpty new_n crossed cell gone k lt =
      let back : crossed - 1 - (crossed - 1 - k) ≡ k = omega (arith, lt) in
      subst (λ j. get_or cell ((new_n - j) % (p.t + 2)) 0 ≡ 0) back
        (gone (crossed - 1 - k) (omega (arith, lt)))

  far_away :
      (new_n crossed : ℕ) (cell : List ℕ)
      → IsCell p cell
      → IsClosed (with_shutter p 0 (clear_pixels (p.t + 2) cell))
        × AreEmpty new_n crossed (with_shutter p 0 (clear_pixels (p.t + 2) cell))
  far_away new_n crossed cell v =
      let cleared : List ℕ = clear_pixels (p.t + 2) cell in
      let long : length cleared ≡ (p.t + 7 + 3) / 4 * 4 =
        length-clear_pixels (p.t + 2) cell ∙ v.size in
      (
        reset-IsClosed cleared long
            (λ i. ground (arith, get_or-clear_pixels (p.t + 2) cell i, v.bytes i))
            (ground (arith, get_or-clear_pixels (p.t + 2) cell (p.t + 2), v.zoomed)),
        λ k lt.
            let at : ℕ = (new_n - k) % (p.t + 2) in
            let in_pixels : at < p.t + 2 = mod-lt (new_n - k) (omega arith) in
            ground (
              arith,
              get_or-with_shutter p 0 cleared at (IsCell-room p cleared long),
              get_or-clear_pixels (p.t + 2) cell at,
              in_pixels,
            ),
      )

  -- zooming in leaves a closed cell closed, and empty slots empty
  zoomed-IsClosed :
      (new_n crossed : ℕ) (cell last : List ℕ)
      → IsClosed cell
      → AreEmpty new_n crossed cell
      → Lossless p cell last
      → IsClosed last × AreEmpty new_n crossed last
  zoomed-IsClosed new_n crossed cell last (v, s) gone same = (
    IsClosed-cell last (same.size ∙ v.size) same.bytes (omega (arith, same.lower, v.zoomed))
        (same_shutter cell last same.rest ∙ s),
    λ k lt.
        let at : ℕ = (new_n - k) % (p.t + 2) in
        zero_of_mul (get_or last at 0) (p.c ^ zoom_of p last) (unit-pos p (zoom_of p last) ok_p)
          (same.counts at (mod-lt (new_n - k) (omega arith)) ∙ rw (gone k lt) (omega arith)),
  )

  -- Entering a sub-window `new_n` over one boundary or more, at most `new_n` of them, a well-formed
  -- cell with parameters that `checked` accepts neither panics nor zooms forever. It is well formed
  -- again, its shutter is empty, so are the pixels of all the sub-windows entered, and it cannot be
  -- zoomed in further.
  pub enter_sub_window-IsClosed :
      (new_n crossed : ℕ) (g : Rounding) (cell : List ℕ)
      → 0 < crossed
      → crossed ≤ new_n
      → IsCell p cell
      → Returns
          (λ after. IsClosed after.1 × AreEmpty new_n crossed after.1 × IsSharp p after.1)
          (enter_sub_window (new_layout p) new_n crossed g cell)
  unfolding enter_sub_window
  enter_sub_window-IsClosed new_n crossed g cell some_crossed le v =
      let moves : (crossed == 0) ≡ false = ground arith in
      let no_underflow : leb crossed new_n ≡ true = ground arith in
      rw moves (
        Returns-bind {Post = λ after. IsClosed after.1 × AreEmpty new_n crossed after.1}
          (Returns-if (leb (p.t + 2) crossed)
            (λ jumped.
              rw
                (set_shutter-ok p (clear_pixels (p.t + 2) cell) 0
                  (omega (arith, length-clear_pixels (p.t + 2) cell, IsCell-room p cell v.size)))
                (returns (far_away new_n crossed cell v)))
            (λ step. rw no_underflow (
              Returns-bind (close_shutter-IsClosed (new_n - crossed) g cell v) λ closed shut.
                Returns-bind (clear_entered-Cleared new_n crossed closed.1 le shut)
                  λ cleared w. returns (w.0, Cleared-AreEmpty new_n crossed cleared w.1))))
          λ after w.
            Returns-bind
              (zoom_in_loop-Lossless p ok_p 256 after.1 (IsCell-room p after.1 w.0.0.size)
                w.0.0.bytes (w.0.0.bytes (p.t + 2)))
              λ last r.
                let kept = zoomed-IsClosed new_n crossed after.1 last w.0 w.1 r.0 in
                returns (kept.0, kept.1, r.1))
