-- ===== src/Heap/Items.antt =====
-- Which values a heap holds, each as often as it does: what satisfies a test is counted.
use asap_sketchlib.Prelude.{
  ℕ, zero, suc, ◌+◌, ◌<◌, ◌≡◌, ◌⊎◌, length-set, get_or-set, refl, sym, ap, ◌∙◌, List, [], ◌∷◌, ◌++◌,
  Bool, true, false, arith, inl, inr, ok, panic, ◌>>=◌, index, set, length, get_or,
}
use asap_sketchlib.Heap.{swap}
use asap_sketchlib.Heap.Swaps.{KeptBySwaps}

abbrev pub one_if : Bool → ℕ
one_if true = 1
one_if false = 0

ok_injective {ℓ} : {A : Type ℓ} (x y : A) → ok x ≡ ok y → x ≡ y
ok_injective x y e = cc (e)

panic-ne-ok {ℓ} : {A : Type ℓ} (x : A) → panic ≡ ok x → ⊥
panic-ne-ok x e = cc (e)

module _ {T : Type 0} where
  abbrev pub count : (T → Bool) → List T → ℕ
  count q [] = 0
  count q (x ∷ xs) = one_if (q x) + count q xs

module _ {T : Type 0} where
  pub count-set :
      (q : T → Bool) (xs : List T) (i : ℕ) (v d : T)
      → i < length xs
      → count q (set xs i v) + one_if (q (get_or xs i d)) ≡ count q xs + one_if (q v)
  count-set q [] i v d h = absurd (omega arith)
  count-set q (x ∷ xs) zero v d h = omega arith
  count-set q (x ∷ xs) (suc i) v d h = omega (arith, count-set q xs i v d (omega arith))

  pub count-push :
      (q : T → Bool) (xs : List T) (v : T) → count q (xs ++ v ∷ []) ≡ count q xs + one_if (q v)
  count-push q [] v = omega arith
  count-push q (x ∷ xs) v = omega (arith, count-push q xs v)

  index-cases :
      (xs : List T) (i : ℕ)
      → (index xs i ≡ panic)
        ⊎ ((x : T) × (i < length xs) × (index xs i ≡ ok x) × (get_or xs i x ≡ x))
  index-cases [] i = inl refl
  index-cases (x ∷ xs) zero = inr (x, omega arith, refl, refl)
  index-cases (x ∷ xs) (suc i) = elim (index-cases xs i) [
    | inl e ↦ inl e
    | inr (y, h, e, g) ↦ inr (y, omega arith, e, g)
  ]

  -- A swap that returns: the two values, and what it returns.
  unfoldable pub SwapEnd : ℕ → ℕ → List T → List T → Type 0
  SwapEnd i j slots slots' =
      (a : T) × (b : T) × (i < length slots)
      × (j < length slots)
      × (get_or slots i a ≡ a)
      × (get_or slots j b ≡ b)
      × (slots' ≡ set (set slots i b) j a)

  pub swap-inv :
      (i j : ℕ) (slots slots' : List T) → swap i j slots ≡ ok slots' → SwapEnd i j slots slots'
  unfolding swap SwapEnd
  swap-inv i j slots slots' run = elim (index-cases slots i) [
    | inl p ↦ absurd (
        panic-ne-ok slots'
          (sym (ap (λ z. z >>= λ a. index slots j >>= λ b. ok (set (set slots i b) j a)) p) ∙ run))
    | inr (a, hi, e, g) ↦
        let run' : (index slots j >>= λ b. ok (set (set slots i b) j a)) ≡ ok slots' =
          sym (ap (λ z. z >>= λ a. index slots j >>= λ b. ok (set (set slots i b) j a)) e) ∙ run in
        elim (index-cases slots j) [
          | inl p ↦ absurd (
              panic-ne-ok slots' (sym (ap (λ z. z >>= λ b. ok (set (set slots i b) j a)) p) ∙ run'))
          | inr (b, hj, e', g') ↦ (
            a,
            b,
            hi,
            hj,
            g,
            g',
            sym (
                ok_injective _ _
                  (sym (ap (λ z. z >>= λ b. ok (set (set slots i b) j a)) e') ∙ run')),
          )
        ]
  ]

  -- A swap counts nothing in or out.
  pub count-KeptBySwaps :
      {G : Type 0} (on_swap : ℕ → ℕ → G → G) (n : (T → Bool) → ℕ)
      → KeptBySwaps on_swap (λ slots g. (q : T → Bool) → count q slots ≡ n q)
  unfolding SwapEnd
  count-KeptBySwaps on_swap n i j slots slots' g run r q =
      let (a, b, hi, hj, ga, gb, e) = swap-inv i j slots slots' run in
      rw e (
        ground (
          arith,
          r q,
          ga,
          gb,
          count-set q slots i b a hi,
          count-set q (set slots i b) j a b (omega (arith, length-set slots i b)),
          get_or-set slots i j b b hi,
        ))
