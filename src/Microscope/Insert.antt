-- ===== src/Microscope/Insert.antt =====
-- One item recorded: what becomes of the count of its sub-window.
use asap_sketchlib.Prelude.{
  ℕ, zero, suc, ◌+◌, ◌-◌, ◌*◌, ◌%◌, ◌^◌, ◌<◌, ◌≤◌, ◌≡◌, ◌≢◌, refl, ◌∙◌, List, arith, true, false,
  Bool-cases, inl, inr, ltb, ◌==◌, if◌then◌else◌, ok, length, get_or, get_or-set, index-ok, Returns,
  returns, Returns-bind,
}
use native.Mathlib.Nat.{mod-lt}
use asap_sketchlib.Microscope.Params.{MicroParams, new_layout, max_zoom}
use asap_sketchlib.Microscope.Rounding.{Rounding}
use asap_sketchlib.Microscope.Cell.{pow_u64, insert_loop, insert}
use asap_sketchlib.Microscope.Zoom.{IsParams, unit-pos, unit-le, Divided}
use asap_sketchlib.Microscope.Bytes.{
  zoom_of, shutter_of, with_shutter, IsCell, IsCell-room, shutter-ok, set_shutter-ok,
  get_or-with_shutter, shutter_of-with_shutter, with_shutter-IsCell,
}
use asap_sketchlib.Microscope.Credit.{Credited, Keeps, Credits, credit_pixel-Credits}

module _ (p : MicroParams) where
  -- the items that a cell holds of a sub-window: its pixel in units, and what is pending
  abbrev pub items : ℕ → List ℕ → ℕ
  items at cell = get_or cell at 0 * p.c ^ zoom_of p cell + shutter_of p cell

  -- One item more of the sub-window at `at`, exactly; or a whole unit that its pixel has no room
  -- for, with which the cell zooms out and every pixel is divided; or the same at the greatest zoom,
  -- where the unit is lost.
  pub data Recorded (at : ℕ) (cell cell' : List ℕ) : Type 0 where
    counted :
        items at cell' ≡ items at cell + 1
        → zoom_of p cell' ≡ zoom_of p cell
        → ((i : ℕ) → i < p.t + 2 → i ≢ at → get_or cell' i 0 ≡ get_or cell i 0)
        → Recorded at cell cell'
    zoomed_out :
        get_or cell at 0 ≡ 255
        → shutter_of p cell + 1 ≡ p.c ^ zoom_of p cell
        → zoom_of p cell' ≡ zoom_of p cell + 1
        → shutter_of p cell' ≡ 0
        → ((i : ℕ)
            → i < p.t + 2
            → Divided p.c (if i == at then 256 else get_or cell i 0) (get_or cell' i 0))
        → Recorded at cell cell'
    saturated :
        get_or cell at 0 ≡ 255
        → shutter_of p cell + 1 ≡ p.c ^ zoom_of p cell
        → zoom_of p cell ≡ max_zoom (new_layout p)
        → shutter_of p cell' ≡ 0
        → ((i : ℕ) → i < p.t + 3 → get_or cell' i 0 ≡ get_or cell i 0)
        → Recorded at cell cell'

  module _ (ok_p : IsParams p) where
    pub pow-ok : (z : ℕ) → z ≤ max_zoom (new_layout p) → pow_u64 p.c z ≡ ok (p.c ^ z)
    pow-ok z le =
        let fits : ltb (p.c ^ z) (2 ^ 64) ≡ true = ground (arith, unit-le p z ok_p le) in
        rw fits refl

    -- nothing to credit is left
    loop-done :
        (fuel current pending : ℕ) (g : Rounding) (cell : List ℕ)
        → p.t + 7 ≤ length cell
        → zoom_of p cell ≤ max_zoom (new_layout p)
        → pending < p.c ^ zoom_of p cell
        → 0 < fuel
        → insert_loop fuel (new_layout p) current pending g cell ≡ ok (pending, (g, cell))
    unfolding insert_loop
    loop-done zero current pending g cell room z less some_fuel = absurd (omega arith)
    loop-done (suc fuel) current pending g cell room z less some_fuel =
        let below : ltb pending (p.c ^ zoom_of p cell) ≡ true = ground (arith, less) in
        rw (index-ok cell (p.t + 2) 0 (omega (arith, room)), pow-ok (zoom_of p cell) z, below) refl

    module _ (cell : List ℕ) (v : IsCell p cell) (at : ℕ) (in_pixels : at < p.t + 2) where
      abbrev s : ℕ
      s = shutter_of p cell

      room_of : p.t + 7 ≤ length cell
      room_of = IsCell-room p cell v.size

      s-lt : s < 2 ^ 32
      s-lt = omega (arith, v.closed, unit-le p (zoom_of p cell) ok_p v.zoomed)

      before_shutter :
          (w : ℕ) (cell' : List ℕ) (i : ℕ)
          → p.t + 7 ≤ length cell'
          → i < p.t + 3
          → get_or (with_shutter p w cell') i 0 ≡ get_or cell' i 0
      before_shutter w cell' i room lt = ground (arith, get_or-with_shutter p w cell' i room)

      pending_more :
          s + 1 < p.c ^ zoom_of p cell
          → Recorded at cell (with_shutter p (s + 1) cell) × IsCell p (with_shutter p (s + 1) cell)
      pending_more below =
          let fits : s + 1 < 2 ^ 32 =
            omega (arith, below, unit-le p (zoom_of p cell) ok_p v.zoomed) in
          (
            Recorded.counted
                (rw
                  (
                    before_shutter (s + 1) cell at room_of (omega (arith, in_pixels)),
                    before_shutter (s + 1) cell (p.t + 2) room_of (omega arith),
                    shutter_of-with_shutter p (s + 1) cell room_of fits,
                  )
                  (omega arith))
                (before_shutter (s + 1) cell (p.t + 2) room_of (omega arith))
                (λ i lt ne. before_shutter (s + 1) cell i room_of (omega (arith, lt))),
            with_shutter-IsCell p (s + 1) cell v.size v.bytes v.zoomed below fits,
          )

      unit_credited :
          (cell' : List ℕ)
          → s + 1 ≡ p.c ^ zoom_of p cell
          → p.t + 7 ≤ length cell'
          → Credited p at cell cell'
          → Recorded at cell (with_shutter p 0 cell')
      unit_credited cell' whole room' (Credited.counted less e) =
          let one_more : ℕ = get_or cell at 0 + 1 in
          let inside : at < length cell = omega (arith, in_pixels, room_of) in
          let pixel : get_or (with_shutter p 0 cell') at 0 ≡ one_more =
            before_shutter 0 cell' at room' (omega (arith, in_pixels))
            ∙ rw e (ground (arith, get_or-set cell at at one_more 0 inside)) in
          let same_zoom : zoom_of p (with_shutter p 0 cell') ≡ zoom_of p cell =
            before_shutter 0 cell' (p.t + 2) room' (omega arith)
            ∙ rw e (ground (arith, get_or-set cell at (p.t + 2) one_more 0 inside, in_pixels)) in
          Recorded.counted
            (rw (pixel, same_zoom, shutter_of-with_shutter p 0 cell' room' (omega arith))
              (omega (arith, whole)))
            same_zoom
            (λ i lt ne.
              before_shutter 0 cell' i room' (omega (arith, lt))
              ∙ rw e (ground (arith, get_or-set cell at i one_more 0 inside, ne)))
      unit_credited cell' whole room' (Credited.zoomed_out full below up quotients) =
          Recorded.zoomed_out full whole (before_shutter 0 cell' (p.t + 2) room' (omega arith) ∙ up)
            (shutter_of-with_shutter p 0 cell' room' (omega arith))
            (λ i lt. rw (before_shutter 0 cell' i room' (omega (arith, lt))) (quotients i lt))
      unit_credited cell' whole room' (Credited.saturated full top e) =
          Recorded.saturated full whole top (shutter_of-with_shutter p 0 cell' room' (omega arith))
            (λ i lt. before_shutter 0 cell' i room' lt ∙ rw e refl)

      unit_full :
          (cell' : List ℕ)
          → s + 1 ≡ p.c ^ zoom_of p cell
          → Credited p at cell cell'
          → Keeps p cell cell'
          → Recorded at cell (with_shutter p 0 cell') × IsCell p (with_shutter p 0 cell')
      unit_full cell' whole how k = (
        unit_credited cell' whole (omega (arith, k.size, room_of)) how,
        with_shutter-IsCell p 0 cell' (k.size ∙ v.size) k.bytes k.zoom_range
            (unit-pos p (zoom_of p cell') ok_p) (omega arith),
      )

      -- one unit pending is credited, and nothing is left
      loop-once :
          (g : Rounding)
          → s + 1 ≡ p.c ^ zoom_of p cell
          → Returns
              (λ left. (left.0 ≡ 0) × Credits p at cell left.1)
              (insert_loop (suc (s + 1)) (new_layout p) at (s + 1) g cell)
      unfolding insert_loop
      loop-once g whole =
          let reached : ltb (s + 1) (p.c ^ zoom_of p cell) ≡ false = ground (arith, whole) in
          let nothing : s + 1 - p.c ^ zoom_of p cell ≡ 0 = omega (arith, whole) in
          rw
            (
              index-ok cell (p.t + 2) 0 (omega (arith, room_of)),
              pow-ok (zoom_of p cell) v.zoomed,
              reached,
              nothing,
            )
            (Returns-bind (credit_pixel-Credits p ok_p cell room_of v.bytes v.zoomed at in_pixels g)
              λ after k.
                rw
                  (loop-done (s + 1) at 0 after.0 after.1 (omega (arith, k.1.size, room_of))
                    k.1.zoom_range (unit-pos p (zoom_of p after.1) ok_p) (omega arith))
                  (returns (refl, k)))

      pub recorded :
          (g : Rounding) (n : ℕ)
          → n % (p.t + 2) ≡ at
          → Returns
              (λ after. Recorded at cell after.1 × IsCell p after.1)
              (insert (new_layout p) n g cell)
      unfolding insert
      recorded g n here =
          rw (here, shutter-ok p cell room_of)
            elim (Bool-cases (ltb (s + 1) (p.c ^ zoom_of p cell))) [
              | inl below ↦
                  let less : s + 1 < p.c ^ zoom_of p cell = ground (arith, below) in
                  let fits : (s + 1) % 2 ^ 32 ≡ s + 1 =
                    omega (arith, less, unit-le p (zoom_of p cell) ok_p v.zoomed) in
                  rw
                    (
                      loop-done (suc (s + 1)) at (s + 1) g cell room_of v.zoomed less (omega arith),
                      fits,
                      set_shutter-ok p cell (s + 1) room_of,
                    )
                    (returns (pending_more less))
              | inr reached ↦
                  let whole : s + 1 ≡ p.c ^ zoom_of p cell = ground (arith, reached, v.closed) in
                  Returns-bind (loop-once g whole) λ left k.
                    rw (k.0, set_shutter-ok p left.1.1 0 (omega (arith, k.1.1.size, room_of)))
                      (returns (unit_full left.1.1 whole k.1.0 k.1.1))
            ]

  -- Recording an item in a well-formed cell, with parameters that `checked` accepts, at any
  -- sub-window and with any random state, neither panics nor loops on, and leaves a well-formed cell.
  -- The cell holds exactly one item more of the sub-window at the same zoom, the other pixels kept;
  -- or, where the pixel is full and a whole unit is pending, it zooms out by one step, each pixel
  -- (256 for the full one) divided by the base with an error of less than one; or, where it is also
  -- at the greatest zoom, the unit is lost and the pixels are kept.
  pub insert-Recorded :
      IsParams p
      → (cell : List ℕ) → IsCell p cell
      → (g : Rounding) (n : ℕ)
      → Returns
          (λ after. Recorded (n % (p.t + 2)) cell after.1 × IsCell p after.1)
          (insert (new_layout p) n g cell)
  insert-Recorded ok_p cell v g n =
      recorded ok_p cell v (n % (p.t + 2)) (mod-lt n (omega arith)) g n refl
