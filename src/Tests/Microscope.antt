-- ===== src/Tests/Microscope.antt =====
-- Cells of one sub-window and zoom base 2: three pixels, the zoom, and the shutter in four bytes.
use asap_sketchlib.Prelude.{
  ℕ, zero, suc, max, ◌<◌, ◌≤◌, ◌≡◌, ◌↔◌, refl, List, [], ◌∷◌, true, arith, ok, length, get_or,
  Returns,
}
use asap_sketchlib.Microscope.Params.{MicroParams, new_layout, max_zoom_loop, max_zoom}
use asap_sketchlib.Microscope.Cell.{
  shutter, set_shutter, validate, insert, enter_sub_window, zoom_in_loop,
}
use asap_sketchlib.Microscope.Merge.{merge_cells}
use asap_sketchlib.Microscope.Zoom.{IsParams}
use asap_sketchlib.Microscope.Bytes.{zoom_of, IsCell, shutter-set_shutter}
use asap_sketchlib.Microscope.Credit.{AreBytes}
use asap_sketchlib.Microscope.Insert.{Recorded, insert-Recorded}
use asap_sketchlib.Microscope.ZoomIn.{IsSharp, Lossless, zoom_in_loop-Lossless}
use asap_sketchlib.Microscope.Enter.{IsClosed, AreEmpty, enter_sub_window-IsClosed}
use asap_sketchlib.Microscope.Validate.{validate-IsCell}
use asap_sketchlib.Microscope.Union.{HaveRoom, Exact, merge_cells-IsCell, merge_cells-Exact}

abbrev small : MicroParams
small = record { t = 1; c = 2 }

small-IsParams : IsParams small
small-IsParams = record {
  some_windows = omega arith;
  few_windows = omega arith;
  base = omega arith;
  byte_base = omega arith;
}

-- the first pixel full, at zoom 1, with one item of two pending
abbrev full : List ℕ
full = 255 ∷ 3 ∷ 0 ∷ 1 ∷ 1 ∷ 0 ∷ 0 ∷ 0 ∷ []

abbrev other : List ℕ
other = 4 ∷ 9 ∷ 20 ∷ 1 ∷ 1 ∷ 0 ∷ 0 ∷ 0 ∷ []

abbrev third : List ℕ
third = 30 ∷ 3 ∷ 0 ∷ 1 ∷ 0 ∷ 0 ∷ 0 ∷ 0 ∷ []

abbrev AllBytes : List ℕ → Type 0
AllBytes [] = Unit {0}
AllBytes (x ∷ xs) = (x < 256) × AllBytes xs

AllBytes-AreBytes : (xs : List ℕ) → AllBytes xs → AreBytes xs
AllBytes-AreBytes [] b i = omega arith
AllBytes-AreBytes (x ∷ xs) b zero = b.0
AllBytes-AreBytes (x ∷ xs) b (suc i) = AllBytes-AreBytes xs b.1 i

-- the bytes of a cell at zoom 1
AreBytes-eight :
    (a b c s : ℕ)
    → a < 256
    → b < 256
    → c < 256
    → s < 256
    → AreBytes (a ∷ b ∷ c ∷ 1 ∷ s ∷ 0 ∷ 0 ∷ 0 ∷ [])
AreBytes-eight a b c s la lb lc ls =
    AllBytes-AreBytes (a ∷ b ∷ c ∷ 1 ∷ s ∷ 0 ∷ 0 ∷ 0 ∷ [])
      (la, (lb, (lc, (omega arith, (ls, (omega arith, (omega arith, (omega arith, tt))))))))

base_two : max_zoom (new_layout small) ≡ 31
unfolding max_zoom max_zoom_loop
base_two = refl

IsCell-at_one :
    (a b c s : ℕ)
    → a < 256
    → b < 256
    → c < 256
    → s < 2
    → IsCell small (a ∷ b ∷ c ∷ 1 ∷ s ∷ 0 ∷ 0 ∷ 0 ∷ [])
IsCell-at_one a b c s la lb lc ls = record {
  size = refl;
  bytes = AreBytes-eight a b c s la lb lc (omega arith);
  zoomed = omega (arith, base_two);
  closed = omega arith;
}

full-IsCell : IsCell small full
full-IsCell = IsCell-at_one 255 3 0 1 (omega arith) (omega arith) (omega arith) (omega arith)

other-IsCell : IsCell small other
other-IsCell = IsCell-at_one 4 9 20 1 (omega arith) (omega arith) (omega arith) (omega arith)

third-IsCell : IsCell small third
third-IsCell = IsCell-at_one 30 3 0 0 (omega arith) (omega arith) (omega arith) (omega arith)

insert-Recorded_example :
    Returns
      (λ after. Recorded small 0 full after.1 × IsCell small after.1)
      (insert (new_layout small) 3 7 full)
insert-Recorded_example = insert-Recorded small small-IsParams full full-IsCell 7 3

enter_sub_window-IsClosed_example :
    Returns
      (λ after.
        IsClosed small small-IsParams after.1
        × AreEmpty small small-IsParams 5 2 after.1
        × IsSharp small after.1)
      (enter_sub_window (new_layout small) 5 2 7 full)
enter_sub_window-IsClosed_example =
    enter_sub_window-IsClosed small small-IsParams 5 2 7 full (omega arith) (omega arith)
      full-IsCell

zoom_in_loop-Lossless_example :
    Returns
      (λ last. Lossless small third last × IsSharp small last)
      (zoom_in_loop 256 (new_layout small) third)
zoom_in_loop-Lossless_example =
    zoom_in_loop-Lossless small small-IsParams 256 third (omega arith) third-IsCell.bytes
      (omega arith)

merge_cells-IsCell_example :
    Returns
      (λ after.
        IsCell small after.1
        × (max (zoom_of small full) (zoom_of small other) ≤ zoom_of small after.1))
      (merge_cells (new_layout small) 1 7 full other)
merge_cells-IsCell_example =
    merge_cells-IsCell small small-IsParams 1 7 full other full-IsCell other-IsCell

room : HaveRoom small small-IsParams third other
room zero lt = omega arith
room (suc zero) lt = omega arith
room (suc (suc zero)) lt = omega arith
room (suc (suc (suc i))) lt = absurd (omega arith)

merge_cells-Exact_example :
    Returns
      (λ after. Exact small small-IsParams 1 third other after.1)
      (merge_cells (new_layout small) 1 7 third other)
merge_cells-Exact_example =
    merge_cells-Exact small small-IsParams 1 7 third other third-IsCell other-IsCell refl room

validate-IsCell_example :
    Returns (λ accepted. (accepted ≡ true) ↔ IsCell small full) (validate (new_layout small) full)
validate-IsCell_example = validate-IsCell small small-IsParams full refl full-IsCell.bytes

shutter-set_shutter_example :
    Returns
      (λ cell'.
        (shutter (new_layout small) cell' ≡ ok 70000)
        × (length cell' ≡ 8)
        × ((i : ℕ) → i < 4 → get_or cell' i 0 ≡ get_or full i 0))
      (set_shutter (new_layout small) 70000 full)
shutter-set_shutter_example = shutter-set_shutter small full 70000 refl (omega arith)
