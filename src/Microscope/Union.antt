-- ===== src/Microscope/Union.antt =====
-- A merge of two cells: well formed always, and exact where no pixel has to be divided.
use native.Mathlib.Nat.{mod-lt, mod-add-div, div-lt_iff_lt-mul, pow-le-pow_right}
use asap_sketchlib.Prelude.{
  ℕ, ◌+◌, ◌-◌, ◌*◌, ◌/◌, ◌%◌, ◌^◌, max, ◌<◌, ◌≤◌, ◌≡◌, ◌≢◌, refl, sym, ap, ◌∙◌, subst, List, arith,
  ltb, ◌==◌, if◌then◌else◌, length, get_or, set, length-set, get_or-set, index-ok, store-ok,
  Returns, returns, Returns-bind, Returns-map,
}
use asap_sketchlib.Microscope.Params.{pixel_max, MicroParams, new_layout, max_zoom}
use asap_sketchlib.Microscope.Rounding.{Rounding}
use asap_sketchlib.Microscope.Cell.{zoom}
use asap_sketchlib.Microscope.Merge.{write_sums, merge_cells}
use asap_sketchlib.Microscope.Zoom.{IsParams, max_zoom-lt, unit-pos, unit-le}
use asap_sketchlib.Microscope.Bytes.{
  zoom_of, shutter_of, with_shutter, IsCell, IsCell-room, shutter-ok, set_shutter-ok,
  get_or-with_shutter, shutter_of-with_shutter, with_shutter-IsCell,
}
use asap_sketchlib.Microscope.Insert.{pow-ok, items}
use asap_sketchlib.Microscope.Sums.{
  Sums, sum_pixels-length, any_above-none, length-write_sums, get_or-write_sums, Fitted,
  fit_sums-Fitted,
}

shared : (a b q u m x y : ℕ) → m + u * q ≡ x + y → (a + b + q) * u + m ≡ a * u + x + (b * u + y)
shared a b q u m x y e = omega (arith, e)

module _ (p : MicroParams) (ok_p : IsParams p) where
  -- The sums of two cells: nothing divided, every pixel the sum of both, and the items of the current
  -- sub-window all there.
  pub record Exact (at : ℕ) (dst src after : List ℕ) : Type 0 where
    pub same_zoom : zoom_of p after ≡ zoom_of p dst
    pub current : items p at after ≡ items p at dst + items p at src
    pub others : (i : ℕ) → i < p.t + 2 → i ≢ at → get_or after i 0 ≡ get_or dst i 0 + get_or src i 0

  -- the sums leave room for one unit more in every pixel
  abbrev pub HaveRoom : List ℕ → List ℕ → Type 0
  HaveRoom dst src = (i : ℕ) → i < p.t + 2 → get_or dst i 0 + get_or src i 0 < 255

  module _ (dst src : List ℕ) (u : IsCell p dst) (v : IsCell p src) (at : ℕ)
      (in_pixels : at < p.t + 2) where
    abbrev target : ℕ
    target = max (zoom_of p dst) (zoom_of p src)

    abbrev unit : ℕ
    unit = p.c ^ target

    abbrev combined : ℕ
    combined = shutter_of p dst + shutter_of p src

    abbrev carried : List ℕ → List ℕ
    carried sums = set sums at ((get_or sums at 0 + combined / unit % 2 ^ 32) % 2 ^ 32)

    abbrev written : ℕ × (Rounding × List ℕ) → List ℕ
    written fitted = set (write_sums (p.t + 2) fitted.1.1 dst) (p.t + 2) fitted.0

    abbrev merged : ℕ × (Rounding × List ℕ) → List ℕ
    merged fitted = with_shutter p (combined % unit) (written fitted)

    pub record Union (after : List ℕ) : Type 0 where
      pub valid : IsCell p after
      pub grows : target ≤ zoom_of p after
      pub exact : zoom_of p dst ≡ zoom_of p src → HaveRoom dst src → Exact at dst src after

    target-le : target ≤ max_zoom (new_layout p)
    target-le = ground (arith, u.zoomed, v.zoomed)

    module _ (sums : List ℕ) (long : length sums ≡ p.t + 2) (g : Rounding)
        (fitted : ℕ × (Rounding × List ℕ)) (f : Fitted p ok_p target g (carried sums) fitted) where
      count_all : length fitted.1.1 ≡ p.t + 2
      count_all = f.count ∙ length-set sums at _ ∙ long

      written-length : length (written fitted) ≡ (p.t + 7 + 3) / 4 * 4
      written-length =
          length-set (write_sums (p.t + 2) fitted.1.1 dst) (p.t + 2) fitted.0
          ∙ length-write_sums (p.t + 2) fitted.1.1 dst
          ∙ u.size

      written-get :
          (i : ℕ)
          → get_or (written fitted) i 0 ≡ (
              if i == p.t + 2
              then fitted.0
              else if ltb i (p.t + 2)
              then get_or fitted.1.1 i 0 % 2 ^ 8
              else get_or dst i 0)
      written-get i =
          let room = IsCell-room p dst u.size in
          ground (
            arith,
            get_or-set (write_sums (p.t + 2) fitted.1.1 dst) (p.t + 2) i fitted.0 0
                (omega (arith, length-write_sums (p.t + 2) fitted.1.1 dst, room)),
            get_or-write_sums (p.t + 2) fitted.1.1 dst i count_all (omega (arith, room)),
          )

      written-zoom : zoom_of p (written fitted) ≡ fitted.0
      written-zoom = ground (arith, written-get (p.t + 2))

      remainder-lt : combined % unit < p.c ^ fitted.0
      remainder-lt =
          let pos : 0 < p.c = omega (arith, ok_p.base) in
          omega (arith, mod-lt combined (unit-pos p target ok_p), pow-le-pow_right pos f.grows)

      merged-IsCell : IsCell p (merged fitted)
      merged-IsCell =
          with_shutter-IsCell p (combined % unit) (written fitted) written-length
            (λ i. ground (arith, written-get i, u.bytes i, max_zoom-lt p ok_p, f.range))
            (rw written-zoom f.range) (rw written-zoom remainder-lt)
            (omega (arith, remainder-lt, unit-le p fitted.0 ok_p f.range))

      merged-grows : target ≤ zoom_of p (merged fitted)
      merged-grows =
          let room = IsCell-room p (written fitted) written-length in
          rw (get_or-with_shutter p (combined % unit) (written fitted) (p.t + 2) room)
            (ground (arith, written-zoom, f.grows))

      carried-length : length (carried sums) ≡ p.t + 2
      carried-length = length-set sums at _ ∙ long

      carried-get :
          Sums (p.t + 2) 0 dst src sums
          → (j : ℕ) → j < p.t + 2
          → get_or (carried sums) j 0 ≡ (
              if at == j
              then (get_or dst j 0 + get_or src j 0 + combined / unit % 2 ^ 32) % 2 ^ 32
              else get_or dst j 0 + get_or src j 0)
      carried-get added j lt =
          let start : 0 + j ≡ j = omega arith in
          let sum : get_or sums j 0 ≡ get_or dst j 0 + get_or src j 0 =
            subst (λ k. get_or sums j 0 ≡ get_or dst k 0 + get_or src k 0) start (added j lt) in
          ground (
            arith,
            get_or-set sums at j ((get_or sums at 0 + combined / unit % 2 ^ 32) % 2 ^ 32) 0
                (omega (arith, in_pixels, long)),
            sum,
          )

      -- nothing is zoomed out where every sum has room
      all_fit :
          Sums (p.t + 2) 0 dst src sums
          → zoom_of p dst ≡ zoom_of p src
          → HaveRoom dst src
          → (combined / unit < 2) × (fitted ≡ (target, (g, carried sums)))
      all_fit added same room =
          let top : target ≡ zoom_of p dst = ground (arith, same) in
          let mine : shutter_of p dst < unit = rw top u.closed in
          let theirs : shutter_of p src < unit = rw (top, same) v.closed in
          let few : combined / unit < 2 =
            (div-lt_iff_lt-mul (unit-pos p target ok_p)).1 (omega (arith, mine, theirs)) in
          (
            few,
            f.idle (
                any_above-none (length (carried sums)) pixel_max (carried sums) (λ j lt.
                  let lt' : j < p.t + 2 = omega (arith, lt, carried-length) in
                  ground (arith, carried-get added j lt', room j lt', few))),
          )

      merged-Exact :
          Sums (p.t + 2) 0 dst src sums
          → zoom_of p dst ≡ zoom_of p src
          → HaveRoom dst src
          → Exact at dst src (merged fitted)
      merged-Exact added same room =
          let fit = all_fit added same room in
          let long_enough = IsCell-room p (written fitted) written-length in
          let top : target ≡ zoom_of p dst = ground (arith, same) in
          let small : combined % unit < 2 ^ 32 =
            omega
              (arith, mod-lt combined (unit-pos p target ok_p), unit-le p target ok_p target-le) in
          let kept : zoom_of p (merged fitted) ≡ target = ground (
            arith,
            get_or-with_shutter p (combined % unit) (written fitted) (p.t + 2) long_enough,
            written-zoom,
            ap (λ r. r.0) fit.1,
          ) in
          let pixel : (i : ℕ)
              → i < p.t + 2
              → get_or (merged fitted) i 0
                ≡ get_or dst i 0 + get_or src i 0 + (if at == i then combined / unit else 0) =
            λ i lt.
              let taken : get_or fitted.1.1 i 0 ≡ get_or (carried sums) i 0 =
                ap (λ r. get_or r.1.1 i 0) fit.1 in
              let few = fit.0 in
              ground (
                arith,
                get_or-with_shutter p (combined % unit) (written fitted) i long_enough,
                written-get i,
                taken,
                carried-get added i lt,
                room i lt,
                few,
              ) in
          record {
            same_zoom = kept ∙ top;
            current =
                let here : get_or (merged fitted) at 0
                    ≡ get_or dst at 0 + get_or src at 0 + combined / unit =
                  ground (arith, pixel at in_pixels) in
                let mine : p.c ^ zoom_of p dst ≡ unit = ap (λ z. p.c ^ z) (sym top) in
                let theirs : p.c ^ zoom_of p src ≡ unit = ap (λ z. p.c ^ z) (sym (top ∙ same)) in
                rw
                  (
                    here,
                    kept,
                    shutter_of-with_shutter p (combined % unit) (written fitted) long_enough small,
                    mine,
                    theirs,
                  )
                  (shared (get_or dst at 0) (get_or src at 0) (combined / unit) unit
                    (combined % unit) (shutter_of p dst) (shutter_of p src)
                    (mod-add-div combined unit));
            others = λ i lt ne. ground (arith, pixel i lt, ne);
          }

    pub merge_cells-Union :
        (g : Rounding) (n : ℕ)
        → n % (p.t + 2) ≡ at
        → Returns (λ after. Union after.1) (merge_cells (new_layout p) n g dst src)
    unfolding merge_cells zoom
    merge_cells-Union g n here =
        let rd = IsCell-room p dst u.size in
        let rs = IsCell-room p src v.size in
        rw
          (
            index-ok dst (p.t + 2) 0 (omega (arith, rd)),
            index-ok src (p.t + 2) 0 (omega (arith, rs)),
            here,
          )
          (Returns-bind
            (sum_pixels-length (p.t + 2) 0 p.c (target - zoom_of p dst) (target - zoom_of p src) g
              dst src (omega (arith, rd)) (omega (arith, rs)))
            λ summed w.
              rw
                (
                  shutter-ok p dst rd,
                  shutter-ok p src rs,
                  pow-ok p ok_p target target-le,
                  index-ok summed.1 at 0 (omega (arith, w.0, in_pixels)),
                )
                (Returns-bind
                  (fit_sums-Fitted p ok_p 256 target summed.0 (carried summed.1) target-le
                    (omega (arith, max_zoom-lt p ok_p)))
                  λ fitted f.
                    let merge = merged-IsCell summed.1 w.0 summed.0 fitted f in
                    let lines = length-write_sums (p.t + 2) fitted.1.1 dst in
                    let remains : combined % unit % 2 ^ 32 ≡ combined % unit = omega (
                      arith,
                      mod-lt combined (unit-pos p target ok_p),
                      unit-le p target ok_p target-le,
                    ) in
                    rw
                      (
                        store-ok (write_sums (p.t + 2) fitted.1.1 dst) (p.t + 2) fitted.0
                            (omega (arith, lines, rd)),
                        remains,
                        set_shutter-ok p (written fitted) (combined % unit) (
                            IsCell-room p (written fitted)
                              (written-length summed.1 w.0 summed.0 fitted f)),
                      )
                      (returns (record {
                        valid = merge;
                        grows = merged-grows summed.1 w.0 summed.0 fitted f;
                        exact = λ same room.
                            merged-Exact summed.1 w.0 summed.0 fitted f
                              (w.1 (omega (arith, same)) (omega (arith, same))).1 same room;
                      }))))

  -- Merging two well-formed cells, with parameters that `checked` accepts, at any sub-window and with
  -- any random state, neither panics nor zooms forever, and leaves a well-formed cell, zoomed out at
  -- least as far as both.
  pub merge_cells-IsCell :
      (n : ℕ) (g : Rounding) (dst src : List ℕ)
      → IsCell p dst
      → IsCell p src
      → Returns
          (λ after. IsCell p after.1 × (max (zoom_of p dst) (zoom_of p src) ≤ zoom_of p after.1))
          (merge_cells (new_layout p) n g dst src)
  merge_cells-IsCell n g dst src u v =
      Returns-map (merge_cells-Union dst src u v (n % (p.t + 2)) (mod-lt n (omega arith)) g n refl)
        λ after r. (r.valid, r.grows)

  -- Merging two well-formed cells at one zoom, with parameters that `checked` accepts, is exact where
  -- the sum of every two pixels is below 255: the zoom stays, the items of the current sub-window,
  -- those pending included, are the sum of both cells', and so is every other pixel.
  pub merge_cells-Exact :
      (n : ℕ) (g : Rounding) (dst src : List ℕ)
      → IsCell p dst
      → IsCell p src
      → zoom_of p dst ≡ zoom_of p src
      → HaveRoom dst src
      → Returns
          (λ after. Exact (n % (p.t + 2)) dst src after.1)
          (merge_cells (new_layout p) n g dst src)
  merge_cells-Exact n g dst src u v same room =
      Returns-map (merge_cells-Union dst src u v (n % (p.t + 2)) (mod-lt n (omega arith)) g n refl)
        λ after r. r.exact same room
