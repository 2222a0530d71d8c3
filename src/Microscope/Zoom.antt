-- ===== src/Microscope/Zoom.antt =====
-- The greatest zoom exponent, and how near a rounded quotient is.
use native.Mathlib.Nat.{
  pow-suc, pow-zero, one-le-pow, pow-le-pow_left, pow-le-pow_right, mod-lt, mod-add-div,
  mul-le-mul_right,
}
use asap_sketchlib.Prelude.{
  ℕ, zero, suc, ◌+◌, ◌-◌, ◌*◌, ◌/◌, ◌%◌, ◌^◌, min, ◌<◌, ◌≤◌, ◌≡◌, refl, sym, arith, Bool-cases, inl,
  inr, ◌⊎◌, ltb, leb, ◌==◌,
}
use asap_sketchlib.Microscope.Params.{max_shutter, MicroParams, new_layout, max_zoom_loop, max_zoom}
use asap_sketchlib.Microscope.Rounding.{Rounding, next_u64, unbiased_div}

-- What `checked` accepts.
pub record IsParams (p : MicroParams) : Type 0 where
  pub some_windows : 0 < p.t
  pub few_windows : p.t ≤ 4096
  pub base : 2 ≤ p.c
  pub byte_base : p.c ≤ 256

abbrev Greatest : ℕ → ℕ → Type 0
Greatest c z = (c ^ z ≤ max_shutter) × (max_shutter < c ^ suc z)

max_zoom_loop-Greatest :
    (fuel c z value : ℕ)
    → 2 ≤ c
    → 33 ≤ fuel + z
    → value ≡ c ^ z
    → value ≤ max_shutter
    → Greatest c (max_zoom_loop fuel c z value)
unfolding max_zoom_loop
max_zoom_loop-Greatest zero c z value b f e le =
    let deep : 33 ≤ z = omega arith in
    absurd (omega (arith, e, le, pow-le-pow_left b z, pow-le-pow_right {n = 2} (omega arith) deep))
max_zoom_loop-Greatest (suc fuel) c z value b f e le =
    elim (Bool-cases (leb (min (value * c) (2 ^ 64 - 1)) max_shutter)) [
      | inl more ↦ rw more (
          max_zoom_loop-Greatest fuel c (suc z) (value * c) b (omega arith)
            (rw (pow-suc c z, e) refl) (ground (arith, more)))
      | inr done ↦ rw done (rw (← e) le, rw (pow-suc c z, ← e) (ground (arith, done)))
    ]

-- The loop of `max_zoom` finds the greatest exponent whose power fits a u32, for every base that the
-- parameters allow, within its fuel.
pub max_zoom-greatest :
    (p : MicroParams)
    → IsParams p
    → (p.c ^ max_zoom (new_layout p) ≤ max_shutter)
      × (max_shutter < p.c ^ suc (max_zoom (new_layout p)))
unfolding max_zoom
max_zoom-greatest p ok_p =
    max_zoom_loop-Greatest 33 p.c 0 1 ok_p.base (omega arith) (sym (pow-zero p.c)) (omega arith)

pub max_zoom-lt : (p : MicroParams) → IsParams p → max_zoom (new_layout p) < 32
max_zoom-lt p ok_p =
    let z = max_zoom (new_layout p) in
    let low : 2 ^ z ≤ p.c ^ z = pow-le-pow_left ok_p.base z in
    elim (Bool-cases (ltb z 32)) [
      | inl small ↦ ground (arith, small)
      | inr big ↦
          let deep : 32 ≤ z = ground (arith, big) in
          absurd (
            omega (
              arith,
              low,
              pow-le-pow_right {n = 2} (omega arith) deep,
              (max_zoom-greatest p ok_p).0,
            ))
    ]

-- The unit of a zoom in range is positive and fits a u32.
pub unit-pos : (p : MicroParams) (z : ℕ) → IsParams p → 0 < p.c ^ z
unit-pos p z ok_p = one-le-pow z p.c (omega (arith, ok_p.base))

pub unit-le :
    (p : MicroParams) (z : ℕ) → IsParams p → z ≤ max_zoom (new_layout p) → p.c ^ z ≤ max_shutter
unit-le p z ok_p le =
    let pos : 0 < p.c = omega (arith, ok_p.base) in
    omega (arith, pow-le-pow_right pos le, (max_zoom-greatest p ok_p).0)

-- A quotient is less than one off, to either side.
abbrev pub Divided : ℕ → ℕ → ℕ → Type 0
Divided c v r = (v < r * c + c) × (r * c < v + c)

unbiased_div-cases :
    (v c : ℕ) (g : Rounding)
    → ((unbiased_div v c g).1 ≡ v / c) ⊎ (((unbiased_div v c g).1 ≡ v / c + 1) × (0 < v % c))
unfolding unbiased_div
unbiased_div-cases v c g = elim (Bool-cases (v % c == 0)) [
  | inl exact ↦ rw exact (inl refl)
  | inr rest ↦ rw rest elim (Bool-cases (ltb ((next_u64 g).1 % c) (v % c))) [
    | inl up ↦ rw up (inr (refl, ground (arith, rest)))
    | inr down ↦ rw down (inl refl)
  ]
]

pub unbiased_div-Divided : (v c : ℕ) (g : Rounding) → 0 < c → Divided c v (unbiased_div v c g).1
unbiased_div-Divided v c g pos = elim (unbiased_div-cases v c g) [
  | inl e ↦
      rw e
        (omega (arith, mod-add-div v c, mod-lt v pos), omega (arith, mod-add-div v c, mod-lt v pos))
  | inr (e, rest) ↦
      rw e (omega (arith, mod-add-div v c, mod-lt v pos), omega (arith, mod-add-div v c, rest))
]

-- A division halves at least.
pub unbiased_div-le : (v c : ℕ) (g : Rounding) → 2 ≤ c → 2 * (unbiased_div v c g).1 ≤ v + 1
unbiased_div-le v c g two =
    let halves : 2 * (v / c) ≤ c * (v / c) = mul-le-mul_right (v / c) two in
    ground (arith, mod-add-div v c, halves, unbiased_div-cases v c g)
