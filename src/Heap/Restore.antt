-- ===== src/Heap/Restore.antt =====
-- The sifts restore the heap order.
use asap_sketchlib.Prelude.{
  ℕ, zero, suc, ◌+◌, ◌<◌, ◌≤◌, ◌≡◌, ◌⊎◌, inl, inr, refl, List, true, false, arith, ltb, ◌==◌,
  if◌then◌else◌, ◌>>=◌, index, length, get_or, index-ok, Returns, returns, Returns-bind, Returns-if,
  ltb→lt, Bool-cases,
}
use native.Mathlib.Decide.{ℕ_discrete}
use asap_sketchlib.Heap.{
  HeapOrder, parent, left_child, right_child, swap, target_of, bubble_up_loop, bubble_down_loop,
  bubble_down_with,
}
use asap_sketchlib.Heap.Order.{
  IsOrder, Over, IsHeap, UpInv, DownInv, Best, swapped, length-swapped, swap-ok, swapped-UpInv,
  swapped-DownInv,
}

module _ {T G : Type 0} (order : HeapOrder T) (law : IsOrder order) (d : T)
    (on_swap : ℕ → ℕ → G → G) where
  read :
      (slots : List T) (i : ℕ)
      → i < length slots
      → Returns (λ x. x ≡ get_or slots i d) (index slots i)
  read slots i lt = rw (index-ok slots i d lt) (returns refl)

  pub up_loop-IsHeap :
      (fuel i : ℕ) (slots : List T) (g : G)
      → i < fuel
      → UpInv order d i slots
      → Returns
          (λ (slots', g'). IsHeap order d slots')
          (bubble_up_loop order on_swap fuel i slots g)
  unfolding bubble_up_loop
  up_loop-IsHeap zero i slots g enough v = absurd (omega arith)
  up_loop-IsHeap (suc fuel) i slots g enough v =
      Returns-if (ltb 0 i)
        (λ above.
          let pos = ltb→lt 0 i above in
          let high : parent i < length slots = omega (arith, v.inside) in
          Returns-bind (read slots (parent i) high) λ p e.
            Returns-bind (read slots i v.inside) λ c e'.
              Returns-if (order.should_swap p c)
                (λ worse. rw (swap-ok order d (parent i) i slots high v.inside) (
                  up_loop-IsHeap fuel (parent i) (swapped order d (parent i) i slots) _
                    (omega (arith, pos))
                    (swapped-UpInv order d law i slots v pos (ground (arith, e, e', worse)))))
                (λ settled. returns (λ k p' q. ground (arith, v.edges k, e, e', settled))))
        (λ root. returns (λ k p q. ground (arith, v.edges k, root)))

  -- where a step down goes: nowhere when no child is to be swapped, or to the best child
  Target : ℕ → List T → ℕ → Type 0
  Target i slots t =
      ((t ≡ i) × Best order d law i i slots)
      ⊎ ((t < length slots)
          × (0 < t)
          × (parent t ≡ i)
          × (order.should_swap (get_or slots i d) (get_or slots t d) ≡ true)
          × Best order d law i t slots)

  -- the same when only the left child has been looked at
  HalfTarget : ℕ → List T → ℕ → Type 0
  HalfTarget i slots t =
      ((t ≡ i) × (left_child i < length slots → Over order d slots i (left_child i)))
      ⊎ ((t ≡ left_child i)
          × (left_child i < length slots)
          × (order.should_swap (get_or slots i d) (get_or slots (left_child i) d) ≡ true))

  HalfTarget-lt :
      (i t : ℕ) (slots : List T) → i < length slots → HalfTarget i slots t → t < length slots
  unfolding HalfTarget
  HalfTarget-lt i t slots h (inl s) = omega (arith, s.0)
  HalfTarget-lt i t slots h (inr s) = omega (arith, s.0, s.1)

  child_cases : (i c : ℕ) → 0 < c → parent c ≡ i → (c ≡ left_child i) ⊎ (c ≡ right_child i)
  child_cases i c p e = ground arith

  Best-of :
      (i t : ℕ) (slots : List T)
      → (left_child i < length slots → Over order d slots t (left_child i))
      → (right_child i < length slots → Over order d slots t (right_child i))
      → Best order d law i t slots
  Best-of i t slots l r c p q e = elim (child_cases i c p e) [
    | inl s ↦ rw s (l (omega arith))
    | inr s ↦ rw s (r (omega arith))
  ]

  target_of-Target :
      (i : ℕ) (slots : List T)
      → i < length slots
      → Returns (Target i slots) (target_of order i slots)
  unfolding target_of Target HalfTarget
  target_of-Target i slots inside = Returns-bind (read slots i inside) λ p e.
      Returns-bind
        (Returns-if {Post = HalfTarget i slots} (ltb (left_child i) (length slots))
          (λ has_left.
            let lt = ltb→lt _ _ has_left in
            Returns-bind (read slots (left_child i) lt) λ l e'. returns (after_left p l lt e e'))
          (λ none_left. returns (inl (refl, λ lt. absurd (ground arith)))))
        λ t half.
          let t_inside = HalfTarget-lt i t slots inside half in
          Returns-bind (read slots t t_inside) λ v e'.
            Returns-if (ltb (right_child i) (length slots))
              (λ has_right.
                let lt = ltb→lt _ _ has_right in
                Returns-bind (read slots (right_child i) lt)
                  λ r e''. returns (after_right t v r lt half e' e''))
              (λ none_right. returns (without_right t half (λ lt. absurd (ground arith))))
    where
      after_left :
          (p l : T)
          → left_child i < length slots
          → p ≡ get_or slots i d
          → l ≡ get_or slots (left_child i) d
          → HalfTarget i slots (if order.should_swap p l then left_child i else i)
      after_left p l lt e e' = ground (arith, e, e')

      without_right :
          (t : ℕ)
          → HalfTarget i slots t
          → (right_child i < length slots → Over order d slots t (right_child i))
          → Target i slots t
      without_right t (inl (s, l)) r = inl (s, Best-of i i slots l (λ lt. ground (arith, r lt, s)))
      without_right t (inr (s, lt, w)) r = inr (
        omega (arith, s, lt),
        omega (arith, s),
        omega (arith, s),
        ground (arith, s, w),
        Best-of i t slots (λ k. ground (arith, s, law.irrefl (get_or slots (left_child i) d))) r,
      )

      take_right :
          (t : ℕ)
          → right_child i < length slots
          → HalfTarget i slots t
          → order.should_swap (get_or slots t d) (get_or slots (right_child i) d) ≡ true
          → Target i slots (right_child i)
      take_right t lt (inl (s, l)) worse = inr (
        lt,
        omega arith,
        omega arith,
        ground (arith, s, worse),
        Best-of i (right_child i) slots
            (λ k. ground (
              arith,
              s,
              worse,
              l k,
              law.asymm (get_or slots i d) (get_or slots (right_child i) d),
              law.trans (get_or slots (right_child i) d) (get_or slots i d)
                  (get_or slots (left_child i) d),
            ))
            (λ k. law.irrefl (get_or slots (right_child i) d)),
      )
      take_right t lt (inr (s, lt', w)) worse = inr (
        lt,
        omega arith,
        omega arith,
        ground (
          arith,
          s,
          w,
          worse,
          law.asymm (get_or slots (left_child i) d) (get_or slots (right_child i) d),
          law.trans (get_or slots i d) (get_or slots (right_child i) d)
              (get_or slots (left_child i) d),
        ),
        Best-of i (right_child i) slots
            (λ k. ground (
              arith,
              s,
              worse,
              law.asymm (get_or slots (left_child i) d) (get_or slots (right_child i) d),
            ))
            (λ k. law.irrefl (get_or slots (right_child i) d)),
      )

      after_right :
          (t : ℕ) (v r : T)
          → right_child i < length slots
          → HalfTarget i slots t
          → v ≡ get_or slots t d
          → r ≡ get_or slots (right_child i) d
          → Target i slots (if order.should_swap v r then right_child i else t)
      after_right t v r lt half e' e'' = elim (Bool-cases (order.should_swap v r)) [
        | inl worse ↦ rw worse (take_right t lt half (ground (arith, e', e'', worse)))
        | inr settled ↦ rw settled (without_right t half (λ k. ground (arith, e', e'', settled)))
      ]

  pub down_loop-IsHeap :
      (fuel i : ℕ) (slots : List T) (g : G)
      → length slots ≤ fuel + i
      → DownInv order d i slots
      → Returns
          (λ (i', slots', g'). IsHeap order d slots')
          (bubble_down_loop order on_swap fuel i slots g)
  unfolding bubble_down_loop Target
  down_loop-IsHeap zero i slots g enough v =
      let past : ltb i (length slots) ≡ false = ground arith in
      rw past (returns (λ c p q. v.edges c p q (λ e. absurd (omega arith))))
  down_loop-IsHeap (suc fuel) i slots g enough v =
      Returns-if (ltb i (length slots))
        (λ inside.
          let lt = ltb→lt _ _ inside in
          Returns-bind (target_of-Target i slots lt) λ t target.
            Returns-if (t == i) (λ here. returns (λ c p q. settled t here target c p q))
              (λ lower.
                step t lower lt target (λ a v'.
                  down_loop-IsHeap fuel t (swapped order d i t slots) (on_swap i t g) a v')))
        (λ past. returns (λ c p q. v.edges c p q (λ e. absurd (ground arith))))
    where
      settled : (t : ℕ) → (t == i) ≡ true → Target i slots t → IsHeap order d slots
      settled t here (inl (s, best)) c p q = elim (ℕ_discrete (parent c) i) [
        | yes e ↦ rw e (best c p q e)
        | no ne ↦ v.edges c p q ne
      ]
      settled t here (inr (a, b, e, w, best)) c p q = absurd (ground (arith, here))

      step :
          (t : ℕ)
          → (t == i) ≡ false
          → i < length slots
          → Target i slots t
          → (length (swapped order d i t slots) ≤ fuel + t
              → DownInv order d t (swapped order d i t slots)
              → Returns
                  (λ (i', slots', g'). IsHeap order d slots')
                  (bubble_down_loop order on_swap fuel t
                    (swapped order d i t slots)
                    (on_swap i t g)))
          → Returns
              (λ (i', slots', g'). IsHeap order d slots')
              (swap i t slots >>= λ slots'.
                bubble_down_loop order on_swap fuel t slots' (on_swap i t g))
      step t lower lt (inl (s, best)) rest = absurd (ground (arith, lower))
      step t lower lt (inr (a, b, e, w, best)) rest = rw (swap-ok order d i t slots lt a) (
          rest (omega (arith, length-swapped order d i t slots, b, e))
            (swapped-DownInv order d law i t slots v a b e w best))

  pub down_with-IsHeap :
      (i : ℕ) (slots : List T) (g : G)
      → DownInv order d i slots
      → Returns
          (λ (moved, slots', g'). IsHeap order d slots')
          (bubble_down_with order on_swap i slots g)
  unfolding bubble_down_with
  down_with-IsHeap i slots g v =
      Returns-bind (down_loop-IsHeap (length slots) i slots g (omega arith) v)
        λ (i', slots', g') h. returns h
