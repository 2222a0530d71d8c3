-- ===== src/Prelude/Ends.antt =====
-- How a call ends: with a value, with a panic, or, in the model alone, without fuel.
use Prim.Native.Nat.{ℕ, zero, suc, ◌+◌, ◌<◌, ◌≤◌}
use mathlib.Core.Path.{◌≡◌, refl, subst}
use mathlib.Core.Bool.{Bool, true, false}
use mathlib.Core.List.{List, [], ◌∷◌, reverse_aux}
use native.Mathlib.Omega.{arith}
use asap_sketchlib.Prelude.Tests.{if◌then◌else◌}
use asap_sketchlib.Prelude.Lists.{length, get_or, set}

pub data Run {ℓ} (T : Type ℓ) : Type ℓ where
  panic : Run T
  out_of_fuel : Run T
  ok : T → Run T

infixl 5 ◌>>=◌
abbrev pub ◌>>=◌ {ℓ κ} : {S : Type ℓ} {T : Type κ} → Run S → (S → Run T) → Run T
panic >>= next = panic
out_of_fuel >>= next = out_of_fuel
ok value >>= next = next value

-- `assert!`
abbrev pub assert {ℓ} : {A : Type ℓ} → Bool → Run A → Run A
assert true r = r
assert false r = panic

-- `xs[i]`
abbrev pub index {ℓ} : {A : Type ℓ} → List A → ℕ → Run A
index [] i = panic
index (x ∷ xs) zero = ok x
index (x ∷ xs) (suc i) = index xs i

-- `xs[i] = v`
abbrev pub store {ℓ} : {A : Type ℓ} → List A → ℕ → A → Run (List A)
store xs i v = index xs i >>= λ old. ok (set xs i v)

-- `for i in start..start + n`, over the state that the body changes
unfoldable pub for_range {ℓ} : {S : Type ℓ} → ℕ → ℕ → (ℕ → S → Run S) → S → Run S
for_range zero i body s = ok s
for_range (suc n) i body s = body i s >>= for_range n (suc i) body

-- `for x in xs`
unfoldable pub for_each {ℓ κ} : {A : Type κ} {S : Type ℓ} → List A → (A → S → Run S) → S → Run S
for_each [] body s = ok s
for_each (x ∷ xs) body s = body x s >>= for_each xs body

-- The run ends with a value, and the value meets the postcondition.
pub data Returns {ℓ κ} {T : Type ℓ} (Post : T → Type κ) : Run T → Type (ℓ ⊔ κ) where
  returns : {value : T} → Post value → Returns Post (ok value)

module _ {ℓ κ} {T : Type ℓ} {Post : T → Type κ} where
  pub Returns-assert :
      {rest : Run T} (test : Bool)
      → test ≡ true
      → Returns Post rest
      → Returns Post (assert test rest)
  Returns-assert true holds done = done
  Returns-assert false holds done = cc

  pub Returns-inv : {run : Run T} → Returns Post run → (value : T) × (run ≡ ok value) × Post value
  Returns-inv (returns post) = (_, refl, post)

  pub Returns-if :
      {yes_run no_run : Run T} (test : Bool)
      → (test ≡ true → Returns Post yes_run)
      → (test ≡ false → Returns Post no_run)
      → Returns Post (if test then yes_run else no_run)
  Returns-if false on_true on_false = on_false refl
  Returns-if true on_true on_false = on_true refl

  pub Returns-map {μ} :
      {Weaker : T → Type μ} {run : Run T}
      → Returns Post run
      → ((value : T) → Post value → Weaker value)
      → Returns Weaker run
  Returns-map (returns post) weaken = returns (weaken _ post)

  pub Returns-both {μ} :
      {Other : T → Type μ} {run : Run T}
      → Returns Post run
      → Returns Other run
      → Returns (λ value. Post value × Other value) run
  Returns-both (returns post) (returns other) = returns (post, other)

  pub Returns-bind {ℓ' μ} :
      {S : Type ℓ'} {Goal : S → Type μ} {run : Run T} {next : T → Run S}
      → Returns Post run
      → ((value : T) → Post value → Returns Goal (next value))
      → Returns Goal (run >>= next)
  Returns-bind (returns post) after = after _ post

-- The invariant rule for a counted loop.
pub Returns-for_range {ℓ κ} :
    {S : Type ℓ} (Q : ℕ → S → Type κ) (n i : ℕ) (body : ℕ → S → Run S) (s : S)
    → ((j : ℕ) (t : S) → i ≤ j → j < i + n → Q j t → Returns (Q (suc j)) (body j t))
    → Q i s
    → Returns (Q (i + n)) (for_range n i body s)
unfolding for_range
Returns-for_range Q zero i body s step q =
    returns (subst (λ k. Q k s) (let e : i ≡ i + 0 = omega arith in e) q)
Returns-for_range Q (suc n) i body s step q =
    subst (λ k. Returns (Q k) (body i s >>= for_range n (suc i) body)) (omega arith)
      (Returns-bind (step i s (omega arith) (omega arith) q) λ t p.
        Returns-for_range Q n (suc i) body t (λ j u lo hi. step j u (omega arith) (omega arith)) p)

-- The same from 0 to `n`.
pub Returns-upto {ℓ κ} :
    {S : Type ℓ} (Q : ℕ → S → Type κ) (n : ℕ) (body : ℕ → S → Run S) (s : S)
    → ((j : ℕ) (t : S) → j < n → Q j t → Returns (Q (suc j)) (body j t))
    → Q 0 s
    → Returns (Q n) (for_range n 0 body s)
Returns-upto Q n body s step q =
    subst (λ k. Returns (Q k) (for_range n 0 body s)) (omega arith)
      (Returns-for_range Q n 0 body s (λ j t lo hi. step j t (omega arith)) q)

-- The invariant rule for a loop over a vector, whose invariant names the part that is done.
pub Returns-for_each {ℓ κ μ} :
    {A : Type μ} {S : Type ℓ} (Q : List A → S → Type κ) (done xs : List A) (body : A → S → Run S)
    (s : S)
    → ((ys : List A) (x : A) (t : S) → Q ys t → Returns (Q (x ∷ ys)) (body x t))
    → Q done s
    → Returns (Q (reverse_aux xs done)) (for_each xs body s)
unfolding for_each
Returns-for_each Q done [] body s step q = returns q
Returns-for_each Q done (x ∷ xs) body s step q =
    Returns-bind (step done x s q) λ t p. Returns-for_each Q (x ∷ done) xs body t step p

module _ {ℓ} {A : Type ℓ} where
  pub index-ok : (xs : List A) (i : ℕ) (d : A) → i < length xs → index xs i ≡ ok (get_or xs i d)
  index-ok [] i d h = absurd (omega arith)
  index-ok (x ∷ xs) zero d h = refl
  index-ok (x ∷ xs) (suc i) d h = index-ok xs i d (omega arith)

  pub index-panic : (xs : List A) (i : ℕ) → length xs ≤ i → index xs i ≡ panic
  index-panic [] i h = refl
  index-panic (x ∷ xs) zero h = absurd (omega arith)
  index-panic (x ∷ xs) (suc i) h = index-panic xs i (omega arith)

  pub store-ok : (xs : List A) (i : ℕ) (v : A) → i < length xs → store xs i v ≡ ok (set xs i v)
  store-ok xs i v h = rw (index-ok xs i v h)
