-- ===== src/BitMatrix/Bits.antt =====
-- The bitwise operations that the grid uses on its words.
use native.Mathlib.Nat.{pow-suc}
use asap_sketchlib.Prelude.{
  ℕ, zero, suc, ◌+◌, ◌*◌, ◌/◌, ◌%◌, ◌^◌, ◌<◌, ◌≤◌, ◌≡◌, refl, max, List, [], ◌∷◌, arith, ap₂,
  length, get_or, set,
}
use asap_sketchlib.BitMatrix.{bit, lor, or_words}

pub lor_comm : (f a b : ℕ) → lor f a b ≡ lor f b a
unfolding lor
lor_comm zero a b = refl
lor_comm (suc f) a b = omega (arith, lor_comm f (a / 2) (b / 2))

lor_low : (f a b : ℕ) → lor (suc f) a b % 2 ≡ max (a % 2) (b % 2)
unfolding lor
lor_low f a b = omega arith

lor_high : (f a b : ℕ) → lor (suc f) a b / 2 ≡ lor f (a / 2) (b / 2)
unfolding lor
lor_high f a b = omega arith

lor_step : (f a b : ℕ) → lor (suc f) a b ≡ max (a % 2) (b % 2) + 2 * lor f (a / 2) (b / 2)
unfolding lor
lor_step f a b = refl

lor_zero : (a b c d : ℕ) → lor 0 a b ≡ lor 0 c d
unfolding lor
lor_zero a b c d = refl

pub lor_assoc : (f a b c : ℕ) → lor f a (lor f b c) ≡ lor f (lor f a b) c
lor_assoc zero a b c = lor_zero a (lor 0 b c) (lor 0 a b) c
lor_assoc (suc f) a b c =
    rw
      (
        lor_step f a (lor (suc f) b c),
        lor_step f (lor (suc f) a b) c,
        lor_low f b c,
        lor_low f a b,
        lor_high f b c,
        lor_high f a b,
      )
      (omega (arith, lor_assoc f (a / 2) (b / 2) (c / 2)))

pub bit-lor : (k f a b : ℕ) → k < f → bit k (lor f a b) ≡ max (bit k a) (bit k b)
unfolding bit
bit-lor k zero a b h = absurd (omega arith)
bit-lor zero (suc f) a b h = lor_low f a b
bit-lor (suc k) (suc f) a b h = rw (lor_high f a b) (bit-lor k f (a / 2) (b / 2) (omega arith))

pub bit-pow : (k : ℕ) → bit k (2 ^ k) ≡ 1
unfolding bit
bit-pow zero = omega arith
bit-pow (suc k) =
    let half : 2 ^ suc k / 2 ≡ 2 ^ k = omega (arith, pow-suc 2 k) in rw half (bit-pow k)

pub bit-le : (k a : ℕ) → bit k a ≤ 1
unfolding bit
bit-le zero a = omega arith
bit-le (suc k) a = bit-le k (a / 2)

pub or_words_comm : (xs bs : List ℕ) → length xs ≡ length bs → or_words xs bs ≡ or_words bs xs
unfolding or_words
or_words_comm [] [] e = refl
or_words_comm [] (b ∷ bs) e = absurd (omega arith)
or_words_comm (a ∷ xs) [] e = absurd (omega arith)
or_words_comm (a ∷ xs) (b ∷ bs) e =
    ap₂ (λ w ws. w ∷ ws) (lor_comm 64 a b) (or_words_comm xs bs (omega arith))

pub length-or_words : (xs bs : List ℕ) → length (or_words xs bs) ≡ length xs
unfolding or_words
length-or_words [] bs = refl
length-or_words (a ∷ xs) [] = refl
length-or_words (a ∷ xs) (b ∷ bs) = omega (arith, length-or_words xs bs)

-- A bit set in one operand of a union is set in the union.
pub or_words-set :
    (xs bs : List ℕ) (i m : ℕ)
    → length xs ≡ length bs
    → i < length xs
    → or_words xs (set bs i (lor 64 (get_or bs i 0) m))
      ≡ set (or_words xs bs) i (lor 64 (get_or (or_words xs bs) i 0) m)
unfolding or_words
or_words-set [] bs i m e h = absurd (omega arith)
or_words-set (a ∷ xs) [] i m e h = absurd (omega arith)
or_words-set (a ∷ xs) (b ∷ bs) zero m e h = ap₂ (λ w ws. w ∷ ws) (lor_assoc 64 a b m) refl
or_words-set (a ∷ xs) (b ∷ bs) (suc i) m e h =
    ap₂ (λ w ws. w ∷ ws) refl (or_words-set xs bs i m (omega arith) (omega arith))
