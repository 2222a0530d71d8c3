-- ===== src/Microscope/Validate.antt =====
-- The checks on parameters and on a record that comes from outside.
use asap_sketchlib.Prelude.{
  ℕ, ◌+◌, ◌≤◌, ◌≡◌, ◌↔◌, refl, List, arith, true, false, some, Bool-cases, inl, inr, ltb, ◌==◌,
  ◌||◌, length, index-ok, Returns, returns,
}
use asap_sketchlib.Microscope.Params.{
  MicroParams, max_sub_windows, max_zoom_base, checked, new_layout, max_zoom,
}
use asap_sketchlib.Microscope.Cell.{zoom, validate}
use asap_sketchlib.Microscope.Zoom.{IsParams}
use asap_sketchlib.Microscope.Bytes.{zoom_of, IsCell, IsCell-room, shutter-ok}
use asap_sketchlib.Microscope.Credit.{AreBytes}
use asap_sketchlib.Microscope.Insert.{pow-ok}

-- What `checked` accepts is what `IsParams` says.
checked-IsParams : (p : MicroParams) → (checked p.t p.c ≡ some p) ↔ IsParams p
unfolding checked
checked-IsParams p = (
  λ e. elim (Bool-cases (p.t == 0 || ltb max_sub_windows p.t)) [
    | inl bad ↦ absurd (ground (arith, e, bad))
    | inr t_ok ↦ elim (Bool-cases (ltb p.c 2 || ltb max_zoom_base p.c)) [
      | inl bad ↦ absurd (ground (arith, e, bad, t_ok))
      | inr c_ok ↦ record {
        some_windows = ground (arith, t_ok);
        few_windows = ground (arith, t_ok);
        base = ground (arith, c_ok);
        byte_base = ground (arith, c_ok);
      }
    ]
  ],
  λ v.
      let t_ok : (p.t == 0 || ltb max_sub_windows p.t) ≡ false =
        ground (arith, v.some_windows, v.few_windows) in
      let c_ok : (ltb p.c 2 || ltb max_zoom_base p.c) ≡ false =
        ground (arith, v.base, v.byte_base) in
      rw (t_ok, c_ok) refl,
)

-- Given a record of bytes of the layout's length, with parameters that `checked` accepts, `validate`
-- does not panic, and accepts exactly the well-formed cells: those with a zoom not above the greatest
-- and a shutter of less than one unit.
pub validate-IsCell :
    (p : MicroParams)
    → IsParams p
    → (cell : List ℕ) → length cell ≡ (new_layout p).depth
    → AreBytes cell
    → Returns (λ accepted. (accepted ≡ true) ↔ IsCell p cell) (validate (new_layout p) cell)
unfolding validate zoom
validate-IsCell p ok_p cell e b =
    let room = IsCell-room p cell e in
    rw (index-ok cell (p.t + 2) 0 (omega (arith, room)))
      elim (Bool-cases (ltb (max_zoom (new_layout p)) (zoom_of p cell))) [
        | inl above ↦ rw above (
            returns
              (λ no. absurd (ground (arith, no)), λ v. absurd (ground (arith, v.zoomed, above))))
        | inr within ↦
            let le : zoom_of p cell ≤ max_zoom (new_layout p) = ground (arith, within) in
            rw (within, pow-ok p ok_p (zoom_of p cell) le, shutter-ok p cell room)
              (returns (
                λ less. record { size = e; bytes = b; zoomed = le; closed = ground (arith, less) },
                λ v. ground (arith, v.closed),
              ))
      ]
