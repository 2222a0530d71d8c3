-- ===== src/Microscope/Bytes.antt =====
-- The bytes of a cell: the shutter as one number, and what a well-formed cell is.
use asap_sketchlib.Prelude.{
  ℕ, ◌+◌, ◌*◌, ◌/◌, ◌%◌, ◌^◌, ◌<◌, ◌≤◌, ◌≡◌, refl, ◌∙◌, List, arith, true, leb, ◌==◌, if◌then◌else◌,
  ok, length, get_or, set, length-set, get_or-set, ap, Returns, returns, index-ok,
}
use asap_sketchlib.Microscope.Params.{MicroParams, new_layout, max_zoom}
use asap_sketchlib.Microscope.Cell.{from_le_bytes, put_le_bytes, shutter, set_shutter}

module _ (p : MicroParams) where
  abbrev pub zoom_of : List ℕ → ℕ
  zoom_of cell = get_or cell (p.t + 2) 0

  abbrev pub shutter_of : List ℕ → ℕ
  shutter_of cell =
      from_le_bytes (get_or cell (p.t + 3) 0) (get_or cell (p.t + 3 + 1) 0)
        (get_or cell (p.t + 3 + 2) 0) (get_or cell (p.t + 3 + 3) 0)

  -- A record of the layout's length, of bytes, whose zoom is not above the greatest and whose shutter
  -- holds less than one unit.
  pub record IsCell (cell : List ℕ) : Type 0 where
    pub size : length cell ≡ (p.t + 7 + 3) / 4 * 4
    pub bytes : (i : ℕ) → get_or cell i 0 < 256
    pub zoomed : zoom_of cell ≤ max_zoom (new_layout p)
    pub closed : shutter_of cell < p.c ^ zoom_of cell

  pub IsCell-room : (cell : List ℕ) → length cell ≡ (p.t + 7 + 3) / 4 * 4 → p.t + 7 ≤ length cell
  IsCell-room cell e = omega (arith, e)

  pub shutter-ok :
      (cell : List ℕ) → p.t + 7 ≤ length cell → shutter (new_layout p) cell ≡ ok (shutter_of cell)
  unfolding shutter
  shutter-ok cell room =
      rw
        (
          index-ok cell (p.t + 3) 0 (omega arith),
          index-ok cell (p.t + 3 + 1) 0 (omega arith),
          index-ok cell (p.t + 3 + 2) 0 (omega arith),
          index-ok cell (p.t + 3 + 3) 0 (omega arith),
        )
        refl

  abbrev pub with_shutter : ℕ → List ℕ → List ℕ
  with_shutter value cell = put_le_bytes (p.t + 3) value cell

  pub set_shutter-ok :
      (cell : List ℕ) (v : ℕ)
      → p.t + 7 ≤ length cell
      → set_shutter (new_layout p) v cell ≡ ok (with_shutter v cell)
  unfolding set_shutter
  set_shutter-ok cell v room =
      let fits : leb (p.t + 3 + 4) (length cell) ≡ true = ground arith in rw fits refl

  length-with_shutter : (v : ℕ) (cell : List ℕ) → length (with_shutter v cell) ≡ length cell
  length-with_shutter v cell =
      length-set _ (p.t + 3 + 3) _
      ∙ length-set _ (p.t + 3 + 2) _
      ∙ length-set _ (p.t + 3 + 1) _
      ∙ length-set cell (p.t + 3) _

  pub get_or-with_shutter :
      (v : ℕ) (cell : List ℕ) (i : ℕ)
      → p.t + 7 ≤ length cell
      → get_or (with_shutter v cell) i 0 ≡ (
          if i == p.t + 3
          then v % 2 ^ 8
          else if i == p.t + 3 + 1
          then v / 2 ^ 8 % 2 ^ 8
          else if i == p.t + 3 + 2
          then v / 2 ^ 16 % 2 ^ 8
          else if i == p.t + 3 + 3
          then v / 2 ^ 24 % 2 ^ 8
          else get_or cell i 0)
  get_or-with_shutter v cell i room =
      let one : List ℕ = set cell (p.t + 3) (v % 2 ^ 8) in
      let two : List ℕ = set one (p.t + 3 + 1) (v / 2 ^ 8 % 2 ^ 8) in
      let three : List ℕ = set two (p.t + 3 + 2) (v / 2 ^ 16 % 2 ^ 8) in
      let n1 : length one ≡ length cell = length-set cell (p.t + 3) _ in
      let n2 : length two ≡ length cell = length-set one (p.t + 3 + 1) _ ∙ n1 in
      let n3 : length three ≡ length cell = length-set two (p.t + 3 + 2) _ ∙ n2 in
      ground (
        arith,
        get_or-set cell (p.t + 3) i (v % 2 ^ 8) 0 (omega arith),
        get_or-set one (p.t + 3 + 1) i (v / 2 ^ 8 % 2 ^ 8) 0 (omega (arith, n1)),
        get_or-set two (p.t + 3 + 2) i (v / 2 ^ 16 % 2 ^ 8) 0 (omega (arith, n2)),
        get_or-set three (p.t + 3 + 3) i (v / 2 ^ 24 % 2 ^ 8) 0 (omega (arith, n3)),
      )

  pub shutter_of-with_shutter :
      (v : ℕ) (cell : List ℕ)
      → p.t + 7 ≤ length cell
      → v < 2 ^ 32
      → shutter_of (with_shutter v cell) ≡ v
  shutter_of-with_shutter v cell room fits = ground (
    arith,
    get_or-with_shutter v cell (p.t + 3) room,
    get_or-with_shutter v cell (p.t + 3 + 1) room,
    get_or-with_shutter v cell (p.t + 3 + 2) room,
    get_or-with_shutter v cell (p.t + 3 + 3) room,
  )

  -- a shutter below one unit makes a well-formed cell of its bytes
  pub with_shutter-IsCell :
      (v : ℕ) (cell : List ℕ)
      → length cell ≡ (p.t + 7 + 3) / 4 * 4
      → ((i : ℕ) → get_or cell i 0 < 256)
      → zoom_of cell ≤ max_zoom (new_layout p)
      → v < p.c ^ zoom_of cell
      → v < 2 ^ 32
      → IsCell (with_shutter v cell)
  with_shutter-IsCell v cell e b z closed fits =
      let room = IsCell-room cell e in
      let same : zoom_of (with_shutter v cell) ≡ zoom_of cell =
        ground (arith, get_or-with_shutter v cell (p.t + 2) room) in
      record {
        size = length-with_shutter v cell ∙ e;
        bytes = λ i. ground (arith, get_or-with_shutter v cell i room, b i);
        zoomed = rw same z;
        closed = rw (shutter_of-with_shutter v cell room fits, same) closed;
      }

  -- Every u32 that is stored as a cell's shutter is read back as it was, where the record has the
  -- layout's length; the pixels and the zoom are left as they were.
  pub shutter-set_shutter :
      (cell : List ℕ) (v : ℕ)
      → length cell ≡ (new_layout p).depth
      → v < 2 ^ 32
      → Returns
          (λ cell'.
            (shutter (new_layout p) cell' ≡ ok v)
            × (length cell' ≡ length cell)
            × ((i : ℕ) → i < p.t + 3 → get_or cell' i 0 ≡ get_or cell i 0))
          (set_shutter (new_layout p) v cell)
  shutter-set_shutter cell v e fits =
      let room = IsCell-room cell e in
      rw (set_shutter-ok cell v room) (
        returns (
          shutter-ok (with_shutter v cell) (omega (arith, length-with_shutter v cell, room))
              ∙ ap ok (shutter_of-with_shutter v cell room fits),
          length-with_shutter v cell,
          λ i lt. ground (arith, get_or-with_shutter v cell i room),
        ))
