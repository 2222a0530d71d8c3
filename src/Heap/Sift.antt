-- ===== src/Heap/Sift.antt =====
-- The sifts end, inside the vector, and report every change that they make to it.
use asap_sketchlib.Prelude.{
  ℕ, zero, suc, ◌+◌, ◌-◌, ◌<◌, ◌≤◌, ◌≡◌, refl, ◌∙◌, List, [], ◌∷◌, ◌++◌, false, arith, ltb, leb,
  ◌==◌, if◌then◌else◌, Bool-cases, inl, inr, ltb→lt, set, length, length-append, length-set,
  Returns, returns, Returns-bind, Returns-map, Returns-inv, Returns-if,
}
use asap_sketchlib.Heap.{
  HeapOrder, CommonHeap, unheard, push, parent, left_child, right_child, bubble_up_loop,
  bubble_up_with, target_of, bubble_down_loop, bubble_down_with, push_back_with, replace_root_with,
  update_at_with,
}
use asap_sketchlib.Heap.Swaps.{index-Returns, swap-Returns, KeptBySwaps}

module _ {T G : Type 0} (order : HeapOrder T) (on_swap : ℕ → ℕ → G → G) (R : List T → G → Type 0)
    (kept : KeptBySwaps on_swap R) where
  abbrev Sifted : ℕ → List T → G → Type 0
  Sifted n slots g = R slots g × (length slots ≡ n)

  bubble_up-Returns :
      (fuel idx : ℕ) (slots : List T) (g : G)
      → idx < fuel
      → idx < length slots
      → R slots g
      → Returns
          (λ (slots', g'). Sifted (length slots) slots' g')
          (bubble_up_loop order on_swap fuel idx slots g)
  unfolding bubble_up_loop
  bubble_up-Returns zero idx slots g enough inside r = absurd (omega arith)
  bubble_up-Returns (suc fuel) idx slots g enough inside r =
      Returns-if (ltb 0 idx)
        (λ above. Returns-bind (index-Returns slots (parent idx) (omega arith)) λ p e.
          Returns-bind (index-Returns slots idx inside) λ c e'.
            Returns-if (order.should_swap p c)
              (λ swaps.
                Returns-bind (swap-Returns (parent idx) idx slots (omega arith) inside) λ slots' s.
                  Returns-map
                    (bubble_up-Returns fuel (parent idx) slots' (on_swap (parent idx) idx g)
                      (omega (arith, ltb→lt 0 idx above)) (omega (arith, s.1))
                      (kept (parent idx) idx slots slots' g s.0 r))
                    λ w q. (q.0, q.1 ∙ s.1))
              (λ stays. returns (r, refl)))
        (λ at_root. returns (r, refl))

  target_of-Returns :
      (idx : ℕ) (slots : List T)
      → idx < length slots
      → Returns (λ t. (t < length slots) × (idx ≤ t)) (target_of order idx slots)
  unfolding target_of
  target_of-Returns idx slots inside = Returns-bind (index-Returns slots idx inside) λ p e.
      Returns-bind
        (Returns-if {Post = λ t. (t < length slots) × (idx ≤ t)}
          (ltb (left_child idx) (length slots))
          (λ has_left.
            Returns-bind (index-Returns slots (left_child idx) (ltb→lt _ _ has_left))
              λ l e'. returns (ground arith))
          (λ none_left. returns (inside, omega arith)))
        λ target t. Returns-bind (index-Returns slots target t.0) λ v e'.
          Returns-if (ltb (right_child idx) (length slots))
            (λ has_right.
              Returns-bind (index-Returns slots (right_child idx) (ltb→lt _ _ has_right))
                λ r e''. returns (ground (arith, t)))
            (λ none_right. returns t)

  bubble_down-Returns :
      (fuel idx : ℕ) (slots : List T) (g : G)
      → length slots ≤ fuel + idx
      → R slots g
      → Returns
          (λ (idx', slots', g'). Sifted (length slots) slots' g')
          (bubble_down_loop order on_swap fuel idx slots g)
  unfolding bubble_down_loop
  bubble_down-Returns zero idx slots g enough r =
      let past : ltb idx (length slots) ≡ false = ground arith in rw past (returns (r, refl))
  bubble_down-Returns (suc fuel) idx slots g enough r =
      Returns-if (ltb idx (length slots))
        (λ inside.
          let lt = ltb→lt _ _ inside in
          Returns-bind (target_of-Returns idx slots lt) λ target t.
            Returns-if (target == idx) (λ here. returns (r, refl))
              (λ lower. Returns-bind (swap-Returns idx target slots lt t.0) λ slots' s.
                Returns-map
                  (bubble_down-Returns fuel target slots' (on_swap idx target g)
                    (ground (arith, t.1, s.1)) (kept idx target slots slots' g s.0 r))
                  λ w q. (q.0, q.1 ∙ s.1)))
        (λ past. returns (r, refl))

  -- Whatever the order is: `push_back_with` ends normally with one slot more, and a relation of the
  -- slots and the listener's state that holds once the value is appended, and is kept by every swap and
  -- its report, holds at the end.
  pub push_back_with-Returns :
      (value : T) (slots : List T) (g : G)
      → R (slots ++ value ∷ []) g
      → Returns
          (λ (slots', g'). R slots' g' × (length slots' ≡ suc (length slots)))
          (push_back_with order on_swap value slots g)
  unfolding push_back_with bubble_up_with
  push_back_with-Returns value slots g r =
      let one_more = length-append slots (value ∷ []) in
      Returns-map
        (bubble_up-Returns (suc (length (slots ++ value ∷ []) - 1))
          (length (slots ++ value ∷ []) - 1) (slots ++ value ∷ []) g (omega arith)
          (omega (arith, one_more)) r)
        λ w q. (q.0, omega (arith, q.1, one_more))

  bubble_down_with-Returns :
      (idx : ℕ) (slots : List T) (g : G)
      → R slots g
      → Returns
          (λ (moved, slots', g'). Sifted (length slots) slots' g')
          (bubble_down_with order on_swap idx slots g)
  unfolding bubble_down_with
  bubble_down_with-Returns idx slots g r =
      Returns-bind (bubble_down-Returns (length slots) idx slots g (omega arith) r)
        λ (idx', slots', g') q. returns q

  -- Whatever the order is: `update_at_with` ends normally, answers whether the index is in the vector,
  -- keeps the number of slots, and keeps every relation of the slots and the listener's state that each
  -- swap with its report keeps.
  pub update_at_with-Returns :
      (i : ℕ) (slots : List T) (g : G)
      → R slots g
      → Returns
          (λ (found, slots', g').
            (found ≡ ltb i (length slots)) × R slots' g' × (length slots' ≡ length slots))
          (update_at_with order on_swap i slots g)
  unfolding update_at_with bubble_up_with
  update_at_with-Returns i slots g r =
      Returns-if (leb (length slots) i) (λ outside. returns (ground arith, r, refl))
        (λ inside. Returns-bind (bubble_down_with-Returns i slots g r) λ (moved, slots', g') q.
          Returns-bind
            (Returns-if {Post = λ (slots'', g''). Sifted (length slots) slots'' g''} moved
              (λ m. returns q)
              (λ still.
                Returns-map
                  (bubble_up-Returns (suc i) i slots' g' (omega arith) (ground (arith, q.1)) q.0)
                  λ w u. (u.0, u.1 ∙ q.1)))
            λ (slots'', g'') u. returns (ground arith, u.0, u.1))

  pub replace_root_with-Returns :
      (value : T) (slots : List T) (g : G)
      → 0 < length slots
      → R (set slots 0 value) g
      → Returns
          (λ (displaced, slots', g'). R slots' g' × (length slots' ≡ length slots))
          (replace_root_with order on_swap value slots g)
  unfolding replace_root_with
  replace_root_with-Returns value slots g some r =
      let (a, run, e) = Returns-inv (index-Returns slots 0 some) in
      rw run (
        Returns-bind (bubble_down_with-Returns 0 (set slots 0 value) g r)
          λ (moved, slots', g') q. returns (q.0, q.1 ∙ length-set slots 0 value))

module _ {T : Type 0} (order : HeapOrder T) where
  append-Returns :
      (value : T) (slots : List T)
      → Returns
          (λ (slots', u). length slots' ≡ suc (length slots))
          (push_back_with order (unheard order) value slots tt)
  append-Returns value slots =
      Returns-map
        (push_back_with-Returns order (unheard order) (λ xs u. Unit {0}) (λ i j xs ys u e t. tt)
          value slots tt tt)
        λ w q. q.1

  replace-Returns :
      (value : T) (slots : List T)
      → 0 < length slots
      → Returns
          (λ (d, slots', u). length slots' ≡ length slots)
          (replace_root_with order (unheard order) value slots tt)
  replace-Returns value slots some =
      Returns-map
        (replace_root_with-Returns order (unheard order) (λ xs u. Unit {0}) (λ i j xs ys u e t. tt)
          value slots tt some tt)
        λ w q. q.1

  -- `push` ends normally, whatever the order is and even at capacity 0: it keeps the capacity, adds one
  -- slot below the capacity, and keeps the number of slots at it.
  pub push-length :
      (value : T) (self : CommonHeap T)
      → Returns
          (λ h.
            (h.size ≡ self.size)
            × (length h.slots ≡ (
                if ltb (length self.slots) self.size
                then suc (length self.slots)
                else length self.slots)))
          (push order value self)
  unfolding push
  push-length value self = elim (Bool-cases (ltb (length self.slots) self.size)) [
    | inl room ↦
        rw room (Returns-bind (append-Returns value self.slots) λ (slots', u) q. returns (refl, q))
    | inr full ↦ rw full (
        Returns-if (ltb 0 (length self.slots))
          (λ some. Returns-bind (index-Returns self.slots 0 (ltb→lt _ _ some)) λ root e.
            Returns-if (order.should_replace_root root value)
              (λ better.
                Returns-bind (replace-Returns value self.slots (ltb→lt _ _ some))
                  λ (d, slots', u) q. returns (refl, q))
              (λ worse. returns (refl, refl)))
          (λ none. returns (refl, refl)))
  ]
