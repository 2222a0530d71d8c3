-- ===== src/Microscope/Credit.antt =====
-- A unit credited to a pixel: it is counted, or the cell zooms out, or the pixel is full for good.
use asap_sketchlib.Prelude.{
  ℕ, zero, suc, ◌+◌, ◌%◌, ◌^◌, ◌<◌, ◌≤◌, ◌≡◌, refl, ap, ◌∙◌, subst, List, [], ◌∷◌, arith,
  Bool-cases, inl, inr, ltb, leb, ◌==◌, if◌then◌else◌, length, get_or, set, length-set, get_or-set,
  index-ok, Returns, returns, Returns-if,
}
use asap_sketchlib.Microscope.Params.{MicroParams, new_layout, max_zoom}
use asap_sketchlib.Microscope.Rounding.{Rounding, unbiased_div}
use asap_sketchlib.Microscope.Cell.{divide_pixels, credit_pixel}
use asap_sketchlib.Microscope.Zoom.{
  IsParams, max_zoom-lt, Divided, unbiased_div-Divided, unbiased_div-le,
}
use asap_sketchlib.Microscope.Bytes.{zoom_of}

abbrev pub AreBytes : List ℕ → Type 0
AreBytes cell = (i : ℕ) → get_or cell i 0 < 256

length-divide_pixels :
    (n i at c : ℕ) (g : Rounding) (cell : List ℕ)
    → length (divide_pixels n i at c g cell).1 ≡ length cell
unfolding divide_pixels
length-divide_pixels zero i at c g cell = refl
length-divide_pixels (suc n) i at c g [] = refl
length-divide_pixels (suc n) i at c g (slot ∷ cell) =
    ap suc (length-divide_pixels n (suc i) at c _ cell)

divide_pixels-after :
    (n i at c : ℕ) (g : Rounding) (cell : List ℕ) (j : ℕ)
    → n ≤ j
    → get_or (divide_pixels n i at c g cell).1 j 0 ≡ get_or cell j 0
unfolding divide_pixels
divide_pixels-after zero i at c g cell j le = refl
divide_pixels-after (suc n) i at c g [] j le = refl
divide_pixels-after (suc n) i at c g (slot ∷ cell) zero le = absurd (omega arith)
divide_pixels-after (suc n) i at c g (slot ∷ cell) (suc j) le =
    divide_pixels-after n (suc i) at c _ cell j (omega arith)

-- a quotient of at most 256 is a byte
abbrev IsQuotient : ℕ → ℕ → ℕ → Type 0
IsQuotient c v r = Divided c v r × (r < 256)

IsQuotient-byte :
    (v c : ℕ) (g : Rounding) → 2 ≤ c → v ≤ 256 → IsQuotient c v ((unbiased_div v c g).1 % 2 ^ 8)
IsQuotient-byte v c g two small =
    let half = unbiased_div-le v c g two in
    let whole : (unbiased_div v c g).1 % 2 ^ 8 ≡ (unbiased_div v c g).1 = omega (arith, half) in
    rw whole (unbiased_div-Divided v c g (omega arith), omega (arith, half))

divide_pixels-IsQuotient :
    (n i at c : ℕ) (g : Rounding) (cell : List ℕ) (j : ℕ)
    → 2 ≤ c
    → AreBytes cell
    → j < n
    → j < length cell
    → IsQuotient c
        (if i + j == at then 256 else get_or cell j 0)
        (get_or (divide_pixels n i at c g cell).1 j 0)
unfolding divide_pixels
divide_pixels-IsQuotient zero i at c g cell j two b lt inside = absurd (omega arith)
divide_pixels-IsQuotient (suc n) i at c g [] j two b lt inside = absurd (omega arith)
divide_pixels-IsQuotient (suc n) i at c g (slot ∷ cell) zero two b lt inside =
    let here : i + 0 ≡ i = omega arith in
    rw here (IsQuotient-byte (if i == at then 256 else slot) c g two (ground (arith, b 0)))
divide_pixels-IsQuotient (suc n) i at c g (slot ∷ cell) (suc j) two b lt inside =
    let next : i + suc j ≡ suc i + j = omega arith in
    rw next (
      divide_pixels-IsQuotient n (suc i) at c _ cell j two (λ k. b (suc k)) (omega arith)
        (omega arith))

module _ (p : MicroParams) where
  pub data Credited (at : ℕ) (cell cell' : List ℕ) : Type 0 where
    counted :
        get_or cell at 0 < 255 → cell' ≡ set cell at (get_or cell at 0 + 1) → Credited at cell cell'
    zoomed_out :
        get_or cell at 0 ≡ 255
        → zoom_of p cell < max_zoom (new_layout p)
        → zoom_of p cell' ≡ zoom_of p cell + 1
        → ((i : ℕ)
            → i < p.t + 2
            → Divided p.c (if i == at then 256 else get_or cell i 0) (get_or cell' i 0))
        → Credited at cell cell'
    saturated :
        get_or cell at 0 ≡ 255
        → zoom_of p cell ≡ max_zoom (new_layout p)
        → cell' ≡ cell
        → Credited at cell cell'

  -- what every credit keeps
  pub record Keeps (cell cell' : List ℕ) : Type 0 where
    pub size : length cell' ≡ length cell
    pub bytes : AreBytes cell'
    pub zoom_range : zoom_of p cell' ≤ max_zoom (new_layout p)
    pub zoom_grows : zoom_of p cell ≤ zoom_of p cell'
    pub rest : (i : ℕ) → p.t + 3 ≤ i → get_or cell' i 0 ≡ get_or cell i 0

  abbrev pub Credits : ℕ → List ℕ → Rounding × List ℕ → Type 0
  Credits at cell after = Credited at cell after.1 × Keeps cell after.1

  module _ (ok_p : IsParams p) (cell : List ℕ) (room : p.t + 7 ≤ length cell) (b : AreBytes cell)
      (z_ok : zoom_of p cell ≤ max_zoom (new_layout p)) (at : ℕ) (in_pixels : at < p.t + 2) where
    count_one : get_or cell at 0 < 255 → Keeps cell (set cell at (get_or cell at 0 + 1))
    count_one lt = record {
      size = length-set cell at _;
      bytes = λ i.
          ground (arith, get_or-set cell at i (get_or cell at 0 + 1) 0 (omega (arith, room)), b i);
      zoom_range =
          rw (get_or-set cell at (p.t + 2) (get_or cell at 0 + 1) 0 (omega (arith, room)))
            (ground (arith, z_ok));
      zoom_grows =
          rw (get_or-set cell at (p.t + 2) (get_or cell at 0 + 1) 0 (omega (arith, room)))
            (ground arith);
      rest = λ i le.
          ground (arith, get_or-set cell at i (get_or cell at 0 + 1) 0 (omega (arith, room)));
    }

    abbrev raised : List ℕ
    raised = set cell (p.t + 2) (zoom_of p cell + 1)

    abbrev divided : Rounding → List ℕ
    divided g = (divide_pixels (p.t + 2) 0 at p.c g raised).1

    raised-get :
        (i : ℕ) → get_or raised i 0 ≡ (if p.t + 2 == i then zoom_of p cell + 1 else get_or cell i 0)
    raised-get i = get_or-set cell (p.t + 2) i (zoom_of p cell + 1) 0 (omega (arith, room))

    zoom_few : zoom_of p cell < max_zoom (new_layout p) → AreBytes raised
    zoom_few below i = ground (arith, raised-get i, b i, max_zoom-lt p ok_p, below)

    divided-rest : (g : Rounding) (i : ℕ) → p.t + 2 ≤ i → get_or (divided g) i 0 ≡ get_or raised i 0
    divided-rest g i le = divide_pixels-after (p.t + 2) 0 at p.c g raised i le

    divided-IsQuotient :
        (g : Rounding) (i : ℕ)
        → zoom_of p cell < max_zoom (new_layout p)
        → i < p.t + 2
        → IsQuotient p.c (if i == at then 256 else get_or raised i 0) (get_or (divided g) i 0)
    divided-IsQuotient g i below lt =
        let start : 0 + i ≡ i = omega arith in
        subst
          (λ k.
            IsQuotient p.c (if k == at then 256 else get_or raised i 0) (get_or (divided g) i 0))
          start
          (divide_pixels-IsQuotient (p.t + 2) 0 at p.c g raised i ok_p.base (zoom_few below) lt
            (omega (arith, length-set cell (p.t + 2) (zoom_of p cell + 1), room)))

    zoom_one :
        (g : Rounding)
        → get_or cell at 0 ≡ 255
        → zoom_of p cell < max_zoom (new_layout p)
        → Credited at cell (divided g) × Keeps cell (divided g)
    zoom_one g full below = (
      Credited.zoomed_out full below
          (divided-rest g (p.t + 2) (omega arith) ∙ ground (arith, raised-get (p.t + 2)))
          (λ i lt.
            let same : get_or raised i 0 ≡ get_or cell i 0 = ground (arith, raised-get i) in
            rw (← same) (divided-IsQuotient g i below lt).0),
      record {
        size = length-divide_pixels (p.t + 2) 0 at p.c g raised ∙ length-set cell (p.t + 2) _;
        bytes = λ i. elim (Bool-cases (ltb i (p.t + 2))) [
          | inl lt ↦ (divided-IsQuotient g i below (ground (arith, lt))).1
          | inr ge ↦ rw (divided-rest g i (ground (arith, ge))) (zoom_few below i)
        ];
        zoom_range =
            rw (divided-rest g (p.t + 2) (omega arith))
              (ground (arith, raised-get (p.t + 2), below));
        zoom_grows =
            rw (divided-rest g (p.t + 2) (omega arith)) (ground (arith, raised-get (p.t + 2)));
        rest = λ i le. divided-rest g i (omega arith) ∙ ground (arith, raised-get i);
      },
    )

    pub credit_pixel-Credits :
        (g : Rounding) → Returns (Credits at cell) (credit_pixel (new_layout p) at g cell)
    unfolding credit_pixel
    credit_pixel-Credits g =
        rw
          (
            index-ok cell at 0 (omega (arith, room)),
            index-ok cell (p.t + 2) 0 (omega (arith, room)),
          )
          (Returns-if (ltb (get_or cell at 0) 255)
            (λ lt.
              let less : get_or cell at 0 < 255 = ground (arith, lt) in
              returns (Credited.counted less refl, count_one less))
            (λ ge.
              let full : get_or cell at 0 ≡ 255 = ground (arith, ge, b at) in
              Returns-if (leb (max_zoom (new_layout p)) (zoom_of p cell))
                (λ top. returns (
                  Credited.saturated full (ground (arith, top, z_ok)) refl,
                  record {
                    size = refl;
                    bytes = b;
                    zoom_range = z_ok;
                    zoom_grows = omega arith;
                    rest = λ i le. refl;
                  },
                ))
                (λ below. returns (zoom_one g full (ground (arith, below))))))
