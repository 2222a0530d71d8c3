-- ===== src/Prelude/Lists.antt =====
-- Vectors as lists under native indices, with the library's names.
use Prim.Native.Nat.{ℕ, zero, suc, ◌+◌, ◌-◌, ◌<◌}
use mathlib.Core.Path.{◌≡◌, refl, sym, ap, ◌∙◌}
use mathlib.Core.List.{List, [], ◌∷◌, ◌++◌, append_assoc, append-nil, reverse_aux}
use native.Mathlib.Omega.{arith}
use asap_sketchlib.Prelude.Tests.{◌==◌, if◌then◌else◌}

module _ {ℓ} {A : Type ℓ} where
  abbrev pub length : List A → ℕ
  length [] = 0
  length (x ∷ xs) = suc (length xs)

  abbrev pub get_or : List A → ℕ → A → A
  get_or [] i d = d
  get_or (x ∷ xs) zero d = x
  get_or (x ∷ xs) (suc i) d = get_or xs i d

  -- A write out of bounds changes nothing.
  abbrev pub set : List A → ℕ → A → List A
  set [] i v = []
  set (x ∷ xs) zero v = v ∷ xs
  set (x ∷ xs) (suc i) v = x ∷ set xs i v

  abbrev pub take : ℕ → List A → List A
  take zero xs = []
  take (suc n) [] = []
  take (suc n) (x ∷ xs) = x ∷ take n xs

  abbrev pub drop : ℕ → List A → List A
  drop zero xs = xs
  drop (suc n) [] = []
  drop (suc n) (x ∷ xs) = drop n xs

  abbrev pub replicate : ℕ → A → List A
  replicate zero a = []
  replicate (suc n) a = a ∷ replicate n a

module _ {ℓ} {A : Type ℓ} where
  pub length-append : (xs ys : List A) → length (xs ++ ys) ≡ length xs + length ys
  length-append [] ys = omega arith
  length-append (x ∷ xs) ys = omega (arith, length-append xs ys)

  pub length-set : (xs : List A) (i : ℕ) (v : A) → length (set xs i v) ≡ length xs
  length-set [] i v = refl
  length-set (x ∷ xs) zero v = refl
  length-set (x ∷ xs) (suc i) v = ap suc (length-set xs i v)

  pub length-replicate : (n : ℕ) (a : A) → length (replicate n a) ≡ n
  length-replicate zero a = refl
  length-replicate (suc n) a = ap suc (length-replicate n a)

  pub length-drop : (n : ℕ) (xs : List A) → length (drop n xs) ≡ length xs - n
  length-drop zero xs = omega arith
  length-drop (suc n) [] = omega arith
  length-drop (suc n) (x ∷ xs) = omega (arith, length-drop n xs)

  pub get_or-replicate : (n i : ℕ) (a : A) → get_or (replicate n a) i a ≡ a
  get_or-replicate zero i a = refl
  get_or-replicate (suc n) zero a = refl
  get_or-replicate (suc n) (suc i) a = get_or-replicate n i a

  pub get_or-set :
      (xs : List A) (i j : ℕ) (v d : A)
      → i < length xs
      → get_or (set xs i v) j d ≡ (if i == j then v else get_or xs j d)
  get_or-set [] i j v d h = absurd (omega arith)
  get_or-set (x ∷ xs) zero zero v d h = refl
  get_or-set (x ∷ xs) zero (suc j) v d h = ground arith
  get_or-set (x ∷ xs) (suc i) zero v d h = ground arith
  get_or-set (x ∷ xs) (suc i) (suc j) v d h = ground (arith, get_or-set xs i j v d)

  -- Two vectors of one length are equal if they agree at every index.
  pub get_or_ext :
      (xs ys : List A) (d : A)
      → length xs ≡ length ys
      → ((i : ℕ) → i < length xs → get_or xs i d ≡ get_or ys i d)
      → xs ≡ ys
  get_or_ext [] [] d l h = refl
  get_or_ext [] (y ∷ ys) d l h = absurd (omega arith)
  get_or_ext (x ∷ xs) [] d l h = absurd (omega arith)
  get_or_ext (x ∷ xs) (y ∷ ys) d l h =
      cc (h 0 (omega arith), get_or_ext xs ys d (omega arith) (λ i p. h (suc i) (omega arith)))

module _ {ℓ} {A : Type ℓ} where
  reverse_aux-done : (xs done : List A) → reverse_aux xs done ≡ reverse_aux xs [] ++ done
  reverse_aux-done [] done = refl
  reverse_aux-done (x ∷ xs) done =
      reverse_aux-done xs (x ∷ done)
      ∙ sym (
          ap (λ l. l ++ done) (reverse_aux-done xs (x ∷ []))
          ∙ append_assoc (reverse_aux xs []) (x ∷ []) done)

  pub reverse_aux-append :
      (xs ys : List A) → reverse_aux (xs ++ ys) [] ≡ reverse_aux ys [] ++ reverse_aux xs []
  reverse_aux-append [] ys = sym (append-nil (reverse_aux ys []))
  reverse_aux-append (x ∷ xs) ys =
      reverse_aux-done (xs ++ ys) (x ∷ [])
      ∙ ap (λ l. l ++ x ∷ []) (reverse_aux-append xs ys)
      ∙ append_assoc (reverse_aux ys []) (reverse_aux xs []) (x ∷ [])
      ∙ sym (ap (λ l. reverse_aux ys [] ++ l) (reverse_aux-done xs (x ∷ [])))
