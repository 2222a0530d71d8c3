-- ===== src/Hll/Registers.antt =====
-- What the registers hold: for each bucket the greatest rank of the hashes that fall on it. So they
-- depend on the set of hashes only, and a merge is the sketch of both streams.
use mathlib.Core.List.{Mem, mem-cons, not-mem-nil, mem-cons_self, mem-cons_of_mem, mem-reverse_aux}
use mathlib.Core.Logic.Or
use native.Mathlib.Bridge.{le_prop}
use native.Mathlib.Nat.{le_antisymm}
use asap_sketchlib.Prelude.{
  ℕ, zero, suc, ◌^◌, ◌<◌, ◌≤◌, ◌≡◌, ◌↔◌, refl, sym, ap, ◌∙◌, subst, max, List, [], ◌∷◌, ◌++◌, true,
  false, arith, ltb, ◌==◌, if◌then◌else◌, Run, ok, ◌>>=◌, Returns, returns, Returns-inv, Returns-if,
  Returns-assert, Returns-for_each, reverse_aux, reverse_aux-append, length, get_or, set,
  length-set, get_or-set, length-replicate, get_or-replicate, get_or_ext, index-ok,
}
use asap_sketchlib.Hll.{
  bucket_num, rank, zeroed_registers, insert_with_hash, insert_many_with_hashes, max_registers,
  merge,
}
use asap_sketchlib.Hll.Rank.{bucket_num-lt}

-- the greatest rank among the hashes of a bucket
unfoldable pub peak : ℕ → ℕ → List ℕ → ℕ
peak p i [] = 0
peak p i (h ∷ hs) = if bucket_num p h == i then max (rank p h) (peak p i hs) else peak p i hs

pub record Records (p : ℕ) (hs regs : List ℕ) : Type 0 where
  pub size : length regs ≡ 2 ^ p
  pub cells : (i : ℕ) → i < 2 ^ p → get_or regs i 0 ≡ peak p i hs

pub zeroed-Records : (p : ℕ) → Records p [] (zeroed_registers p)
unfolding zeroed_registers peak
zeroed-Records p = record {
  size = length-replicate (2 ^ p) 0;
  cells = λ i lt. get_or-replicate (2 ^ p) i 0;
}

module _ (p h : ℕ) (hs regs : List ℕ) (r : Records p hs regs) where
  pub inside : bucket_num p h < length regs
  inside = rw r.size (bucket_num-lt p h)

  pub raised-Records :
      ltb (get_or regs (bucket_num p h) 0) (rank p h) ≡ true
      → Records p (h ∷ hs) (set regs (bucket_num p h) (rank p h))
  unfolding peak
  raised-Records higher =
      let b = bucket_num p h in
      record {
        size = length-set regs b (rank p h) ∙ r.size;
        cells = λ i lt. ground (
          arith,
          get_or-set regs b i (rank p h) 0 inside,
          r.cells i lt,
          r.cells b (bucket_num-lt p h),
        );
      }

  pub kept-Records :
      ltb (get_or regs (bucket_num p h) 0) (rank p h) ≡ false → Records p (h ∷ hs) regs
  unfolding peak
  kept-Records not_higher = record {
    size = r.size;
    cells = λ i lt. ground (arith, r.cells i lt, r.cells (bucket_num p h) (bucket_num-lt p h));
  }

  pub insert-Records : Returns (Records p (h ∷ hs)) (insert_with_hash p h regs)
  unfolding insert_with_hash
  insert-Records = rw (index-ok regs (bucket_num p h) 0 inside) (
      Returns-if (ltb (get_or regs (bucket_num p h) 0) (rank p h))
        (λ higher. returns (raised-Records higher))
        (λ not_higher. returns (kept-Records not_higher)))

-- a new sketch and a stream of hashes
abbrev pub build : ℕ → List ℕ → Run (List ℕ)
build p hs = insert_many_with_hashes p hs (zeroed_registers p)

pub build-Records : (p : ℕ) (hs : List ℕ) → Returns (Records p (reverse_aux hs [])) (build p hs)
unfolding insert_many_with_hashes
build-Records p hs =
    Returns-for_each (Records p) [] hs (insert_with_hash p) (zeroed_registers p)
      (λ ys h t r. insert-Records p h ys t r) (zeroed-Records p)

Records-unique : (p : ℕ) (hs a b : List ℕ) → Records p hs a → Records p hs b → a ≡ b
Records-unique p hs a b r s = get_or_ext a b 0 (r.size ∙ sym s.size) λ i lt.
    let inside : i < 2 ^ p = omega (arith, r.size) in r.cells i inside ∙ sym (s.cells i inside)

length-max_registers : (a b : List ℕ) → length (max_registers a b) ≡ length a
unfolding max_registers
length-max_registers [] b = refl
length-max_registers (x ∷ a) [] = refl
length-max_registers (x ∷ a) (y ∷ b) = ap suc (length-max_registers a b)

get_or-max_registers :
    (a b : List ℕ) (i : ℕ)
    → length a ≡ length b
    → get_or (max_registers a b) i 0 ≡ max (get_or a i 0) (get_or b i 0)
unfolding max_registers
get_or-max_registers [] [] i e = omega arith
get_or-max_registers [] (y ∷ b) i e = absurd (omega arith)
get_or-max_registers (x ∷ a) [] i e = absurd (omega arith)
get_or-max_registers (x ∷ a) (y ∷ b) zero e = ground arith
get_or-max_registers (x ∷ a) (y ∷ b) (suc i) e = get_or-max_registers a b i (omega arith)

peak-append : (p i : ℕ) (ys xs : List ℕ) → peak p i (ys ++ xs) ≡ max (peak p i xs) (peak p i ys)
unfolding peak
peak-append p i [] xs = omega arith
peak-append p i (h ∷ ys) xs = ground (arith, peak-append p i ys xs)

merge-Records :
    (p : ℕ) (xs ys a b : List ℕ)
    → Records p xs a
    → Records p ys b
    → Returns (Records p (ys ++ xs)) (merge a b)
unfolding merge
merge-Records p xs ys a b r s =
    let same : length a ≡ length b = r.size ∙ sym s.size in
    Returns-assert (length a == length b) (ground arith) (
      returns (record {
        size = length-max_registers a b ∙ r.size;
        cells = λ i lt. omega (
          arith,
          get_or-max_registers a b i same,
          r.cells i lt,
          s.cells i lt,
          peak-append p i ys xs,
        );
      }))

-- Merging the sketches of two streams of hashes gives exactly the sketch of the one stream followed
-- by the other, at every precision.
pub merge_registers-build :
    (p : ℕ) (xs ys : List ℕ) → (do a ← build p xs; b ← build p ys; merge a b) ≡ build p (xs ++ ys)
merge_registers-build p xs ys =
    let (a, run_a, r) = Returns-inv (build-Records p xs) in
    let (b, run_b, s) = Returns-inv (build-Records p ys) in
    let (m, run_m, t) =
      Returns-inv (merge-Records p (reverse_aux xs []) (reverse_aux ys []) a b r s) in
    let (n, run_n, u) = Returns-inv (build-Records p (xs ++ ys)) in
    ap (λ z. z >>= λ a'. build p ys >>= λ b'. merge a' b') run_a
    ∙ ap (λ z. z >>= λ b'. merge a b') run_b
    ∙ run_m
    ∙ ap ok (
        Records-unique p (reverse_aux ys [] ++ reverse_aux xs []) m n t
          (subst (λ l. Records p l n) (reverse_aux-append xs ys) u))
    ∙ sym run_n

rank-le-peak : (p h : ℕ) (hs : List ℕ) → Mem h hs → rank p h ≤ peak p (bucket_num p h) hs
unfolding peak
rank-le-peak p h [] m = absurd (not-mem-nil m)
rank-le-peak p h (x ∷ hs) m =
    Or.elim le_prop (mem-cons.0 m) (λ e. rw e (ground arith))
      (λ later. ground (arith, rank-le-peak p h hs later))

peak_mono : (p i : ℕ) (xs ys : List ℕ) → ((h : ℕ) → Mem h xs → Mem h ys) → peak p i xs ≤ peak p i ys
unfolding peak
peak_mono p i [] ys sub = omega arith
peak_mono p i (x ∷ xs) ys sub = ground (
  arith,
  rank-le-peak p x ys (sub x mem-cons_self),
  peak_mono p i xs ys (λ h m. sub h (mem-cons_of_mem x m)),
)

-- Two streams with the same hashes, in any order and with any repetition, build the same sketch.
pub build-same_set :
    (p : ℕ) (xs ys : List ℕ) → ((h : ℕ) → Mem h xs ↔ Mem h ys) → build p xs ≡ build p ys
build-same_set p xs ys same =
    let (a, run_a, r) = Returns-inv (build-Records p xs) in
    let (b, run_b, s) = Returns-inv (build-Records p ys) in
    run_a
    ∙ ap ok (
        get_or_ext a b 0 (r.size ∙ sym s.size) λ i lt.
          let inside : i < 2 ^ p = omega (arith, r.size) in
          r.cells i inside
          ∙ le_antisymm (reversed_mono i xs ys (λ h. (same h).0))
              (reversed_mono i ys xs (λ h. (same h).1))
          ∙ sym (s.cells i inside))
    ∙ sym run_b
  where
    reversed : (h : ℕ) (xs : List ℕ) → Mem h (reverse_aux xs []) → Mem h xs
    reversed h xs m = Or.elim squash₁ (mem-reverse_aux.0 m) (λ k. k) (λ k. absurd (not-mem-nil k))

    reversed_mono :
        (i : ℕ) (us vs : List ℕ)
        → ((h : ℕ) → Mem h us → Mem h vs)
        → peak p i (reverse_aux us []) ≤ peak p i (reverse_aux vs [])
    reversed_mono i us vs sub =
        peak_mono p i (reverse_aux us []) (reverse_aux vs [])
          (λ h m. mem-reverse_aux.1 (Or.inl (sub h (reversed h us m))))
