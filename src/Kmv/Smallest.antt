-- ===== src/Kmv/Smallest.antt =====
-- The k smallest distinct hashes of a stream.
use asap_sketchlib.Prelude.{
  ℕ, suc, ◌<◌, ◌≤◌, ◌≡◌, ◌⊎◌, inl, inr, refl, ◌∙◌, List, [], ◌∷◌, true, false, arith, ltb, ◌==◌,
  for_each, length, get_or, reverse_aux, Returns, returns, Returns-bind, Returns-if,
  Returns-for_each,
}
use native.Mathlib.Decide.{ℕ_discrete}
use asap_sketchlib.Heap.{CommonHeap, keep_largest, with_capacity}
use asap_sketchlib.Heap.Order.{IsOrder, IsHeap, root-Over}
use asap_sketchlib.Heap.Items.{count}
use asap_sketchlib.Heap.Push.{Pushed, added, replaced, refused, push-Pushed}
use asap_sketchlib.Kmv.{Kmv, new, any_equal, insert_by_hash}

pub keep_largest-IsOrder : IsOrder (keep_largest ltb)
keep_largest-IsOrder = record {
  irrefl = λ a. ground arith;
  asymm = λ a b e. ground arith;
  trans = λ a b c e e'. ground arith;
  replace = λ a b. refl;
}

-- how often a hash stands in a list
abbrev pub times : ℕ → List ℕ → ℕ
times x xs = count (λ v. v == x) xs

any_equal-times : (x : ℕ) (xs : List ℕ) → any_equal x xs ≡ ltb 0 (times x xs)
unfolding any_equal
any_equal-times x [] = refl
any_equal-times x (v ∷ xs) = ground (arith, any_equal-times x xs)

all_under :
    (xs : List ℕ) (m x : ℕ) → ((j : ℕ) → j < length xs → get_or xs j 0 ≤ m) → 0 < times x xs → x ≤ m
all_under [] m x h t = absurd (omega arith)
all_under (v ∷ xs) m x h t = ground (arith, h 0, all_under xs m x (λ j lt. h (suc j) (omega arith)))

-- The slots of a sketch of `k` hashes after a stream: hashes of the stream, each once, and every other
-- hash of the stream lies above `k` that are kept.
pub record KeepsSmallest (k : ℕ) (hs : List ℕ) (s : Kmv) : Type 0 where
  pub k_eq : s.k ≡ k
  pub size_eq : s.k_vals.size ≡ k
  pub ordered : IsHeap (keep_largest ltb) 0 s.k_vals.slots
  pub few : length s.k_vals.slots ≤ k
  pub once : (x : ℕ) → times x s.k_vals.slots ≤ 1
  pub seen : (x : ℕ) → 0 < times x s.k_vals.slots → 0 < times x hs
  pub smallest :
      (x : ℕ)
      → 0 < times x hs
      → (0 < times x s.k_vals.slots)
        ⊎ ((length s.k_vals.slots ≡ k) × ((y : ℕ) → 0 < times y s.k_vals.slots → y < x))

root_greatest :
    (slots : List ℕ) (x : ℕ)
    → IsHeap (keep_largest ltb) 0 slots
    → 0 < times x slots
    → x ≤ get_or slots 0 0
root_greatest slots x heap t =
    all_under slots (get_or slots 0 0) x
      (λ j lt. ground (arith, root-Over (keep_largest ltb) 0 keep_largest-IsOrder slots j heap lt))
      t

root_kept : (slots : List ℕ) → 0 < length slots → 0 < times (get_or slots 0 0) slots
root_kept [] h = absurd (omega arith)
root_kept (v ∷ xs) h = ground arith

slots_some : (slots : List ℕ) (z : ℕ) → 0 < times z slots → 0 < length slots
slots_some [] z h = absurd (omega arith)
slots_some (v ∷ xs) z h = omega arith

module _ (k x : ℕ) (hs : List ℕ) (s : Kmv) (v : KeepsSmallest k hs s) where
  known : any_equal x s.k_vals.slots ≡ true → KeepsSmallest k (x ∷ hs) s
  known e = record {
    k_eq = v.k_eq;
    size_eq = v.size_eq;
    ordered = v.ordered;
    few = v.few;
    once = v.once;
    seen = λ y t. ground (arith, v.seen y t);
    smallest = λ y t. ground (arith, any_equal-times x s.k_vals.slots, e, v.smallest y);
  }

  fresh :
      (h' : CommonHeap ℕ)
      → any_equal x s.k_vals.slots ≡ false
      → IsHeap (keep_largest ltb) 0 h'.slots
      → h'.size ≡ s.k_vals.size
      → Pushed (keep_largest ltb) keep_largest-IsOrder 0 x s.k_vals h'
      → KeepsSmallest k (x ∷ hs) (record s { k_vals = h' })
  fresh h' new_hash heap size (added room len counts) = record {
    k_eq = v.k_eq;
    size_eq = size ∙ v.size_eq;
    ordered = heap;
    few = omega (arith, len, room, v.size_eq);
    once = λ y.
        ground (arith, counts (λ z. z == y), v.once y, any_equal-times x s.k_vals.slots, new_hash);
    seen = λ y t. ground (arith, counts (λ z. z == y), v.seen y);
    smallest = λ y t. ground (arith, counts (λ z. z == y), v.smallest y, room, v.size_eq);
  }
  fresh h' new_hash heap size (replaced full some better len counts) =
      let m = get_or s.k_vals.slots 0 0 in
      let lower : x < m = ground (arith, better) in
      let absent : times x s.k_vals.slots ≡ 0 =
        ground (arith, any_equal-times x s.k_vals.slots, new_hash) in
      let held : 0 < times m s.k_vals.slots = root_kept s.k_vals.slots some in
      record {
        k_eq = v.k_eq;
        size_eq = size ∙ v.size_eq;
        ordered = heap;
        few = omega (arith, len, v.few);
        once = λ y. ground (arith, counts (λ z. z == y), v.once y, absent);
        seen = λ y t. ground (arith, counts (λ z. z == y), v.seen y);
        smallest = λ y t. elim (ℕ_discrete x y) [
          | yes same ↦ inl (ground (arith, same, counts (λ z. z == y), absent, lower))
          | no other ↦ elim (v.smallest y (ground (arith, t, other))) [
            | inl kept ↦ elim (ℕ_discrete m y) [
              | yes root ↦ inr (
                omega (arith, len, full, v.few, v.size_eq),
                λ z u. ground (
                  arith,
                  root,
                  lower,
                  counts (λ w. w == z),
                  v.once z,
                  root_greatest s.k_vals.slots z v.ordered,
                ),
              )
              | no below ↦ inl (ground (arith, counts (λ z. z == y), kept, below))
            ]
            | inr (at_k, above) ↦ inr (
              omega (arith, len, at_k),
              λ z u. ground (arith, lower, counts (λ w. w == z), above z, above m held),
            )
          ]
        ];
      }
  fresh h' new_hash heap size (refused full worse same) =
      let absent : times x s.k_vals.slots ≡ 0 =
        ground (arith, any_equal-times x s.k_vals.slots, new_hash) in
      record {
        k_eq = v.k_eq;
        size_eq = size ∙ v.size_eq;
        ordered = rw same v.ordered;
        few = rw same v.few;
        once = rw same v.once;
        seen = rw same (λ y t. ground (arith, v.seen y));
        smallest = rw same λ y t. elim (ℕ_discrete x y) [
          | yes e ↦ inr (
            omega (arith, full, v.few, v.size_eq),
            λ z u. ground (
              arith,
              e,
              absent,
              worse (slots_some s.k_vals.slots z u),
              u,
              root_greatest s.k_vals.slots z v.ordered u,
            ),
          )
          | no other ↦ v.smallest y (ground (arith, t, other))
        ];
      }

insert-KeepsSmallest :
    (k x : ℕ) (hs : List ℕ) (s : Kmv)
    → KeepsSmallest k hs s
    → Returns (KeepsSmallest k (x ∷ hs)) (insert_by_hash x s)
unfolding insert_by_hash
insert-KeepsSmallest k x hs s v =
    Returns-if (any_equal x s.k_vals.slots) (λ e. returns (known k x hs s v e))
      (λ e.
        Returns-bind (push-Pushed (keep_largest ltb) keep_largest-IsOrder 0 x s.k_vals v.ordered)
          λ h' p. returns (fresh k x hs s v h' e p.0 p.1 p.2))

-- From a new sketch of any k, every stream of hashes is inserted without a panic, and what is kept are
-- hashes of the stream, each once, at most k; a hash of the stream that is not kept lies above k hashes
-- that are.
pub stream-KeepsSmallest :
    (k : ℕ) (hashes : List ℕ)
    → Returns (KeepsSmallest k (reverse_aux hashes [])) (for_each hashes insert_by_hash (new k))
unfolding new with_capacity
stream-KeepsSmallest k hashes =
    Returns-for_each (KeepsSmallest k) [] hashes insert_by_hash (new k)
      (λ hs x s v. insert-KeepsSmallest k x hs s v)
      (record {
        k_eq = refl;
        size_eq = refl;
        ordered = λ c p q. absurd (omega arith);
        few = omega arith;
        once = λ x. omega arith;
        seen = λ x t. t;
        smallest = λ x t. absurd (omega arith);
      })
