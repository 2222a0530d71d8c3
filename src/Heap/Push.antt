-- ===== src/Heap/Push.antt =====
-- A bounded heap: what `push` adds and what it gives up.
use asap_sketchlib.Prelude.{
  ℕ, zero, suc, ◌+◌, ◌-◌, ◌<◌, ◌≤◌, ◌≡◌, refl, ap, ◌∙◌, List, [], ◌∷◌, ◌++◌, Bool, true, false,
  arith, ltb, ltb→lt, index, set, length, length-append, length-set, get_or, get_or-set, index-ok,
  Returns, returns, Returns-bind, Returns-map, Returns-if, Returns-both,
}
use asap_sketchlib.Heap.{
  HeapOrder, CommonHeap, parent, unheard, push, bubble_up_with, push_back_with, replace_root_with,
}
use asap_sketchlib.Heap.Order.{IsOrder, IsHeap}
use asap_sketchlib.Heap.Restore.{up_loop-IsHeap, down_with-IsHeap}
use asap_sketchlib.Heap.Items.{one_if, count, count-set, count-push, count-KeptBySwaps}
use asap_sketchlib.Heap.Sift.{push_back_with-Returns, replace_root_with-Returns}

pub get_or-push :
    {T : Type 0} (xs : List T) (v d : T) (i : ℕ)
    → i < length xs
    → get_or (xs ++ v ∷ []) i d ≡ get_or xs i d
get_or-push [] v d i h = absurd (omega arith)
get_or-push (x ∷ xs) v d zero h = refl
get_or-push (x ∷ xs) v d (suc i) h = get_or-push xs v d i (omega arith)

module _ {T : Type 0} (order : HeapOrder T) (law : IsOrder order) (d : T) where
  push_back-IsHeap :
      (value : T) (slots : List T)
      → IsHeap order d slots
      → Returns
          (λ (slots', u). IsHeap order d slots')
          (push_back_with order (unheard order) value slots tt)
  unfolding push_back_with bubble_up_with
  push_back-IsHeap value slots heap =
      let len = length-append slots (value ∷ []) in
      up_loop-IsHeap order law d (unheard order) _ (length (slots ++ value ∷ []) - 1)
        (slots ++ value ∷ []) tt (omega arith)
        (record {
          inside = omega (arith, len);
          edges = λ c p q ne. ground (
            arith,
            len,
            heap c,
            get_or-push slots value d c,
            get_or-push slots value d (parent c),
          );
          bridged = λ c p q e up. absurd (omega (arith, len, e));
        })

  replace_root-IsHeap :
      (value : T) (slots : List T)
      → 0 < length slots
      → IsHeap order d slots
      → Returns
          (λ (displaced, slots', u). IsHeap order d slots')
          (replace_root_with order (unheard order) value slots tt)
  unfolding replace_root_with
  replace_root-IsHeap value slots some heap =
      let len = length-set slots 0 value in
      rw (index-ok slots 0 d some) (
        Returns-bind
          (down_with-IsHeap order law d (unheard order) 0 (set slots 0 value) tt (record {
            edges = λ c p q ne. ground (
              arith,
              len,
              heap c,
              get_or-set slots 0 c value d some,
              get_or-set slots 0 (parent c) value d some,
            );
            bridged = λ c p q e up. absurd (omega arith);
          }))
          λ (moved, slots', u) h. returns h)

  append-count :
      (value : T) (slots : List T)
      → Returns
          (λ (slots', u).
            ((q : T → Bool) → count q slots' ≡ count q slots + one_if (q value))
            × (length slots' ≡ suc (length slots)))
          (push_back_with order (unheard order) value slots tt)
  append-count value slots =
      Returns-map
        (push_back_with-Returns order (unheard order)
          (λ xs u. (q : T → Bool) → count q xs ≡ count q (slots ++ value ∷ []))
          (count-KeptBySwaps (unheard order) (λ q. count q (slots ++ value ∷ []))) value slots tt
          (λ q. refl))
        λ w k. ((λ q. k.0 q ∙ count-push q slots value), k.1)

  replace-count :
      (value : T) (slots : List T)
      → 0 < length slots
      → Returns
          (λ (displaced, slots', u).
            ((q : T → Bool)
              → count q slots' + one_if (q (get_or slots 0 d)) ≡ count q slots + one_if (q value))
            × (length slots' ≡ length slots))
          (replace_root_with order (unheard order) value slots tt)
  replace-count value slots some =
      Returns-map
        (replace_root_with-Returns order (unheard order)
          (λ xs u. (q : T → Bool) → count q xs ≡ count q (set slots 0 value))
          (count-KeptBySwaps (unheard order) (λ q. count q (set slots 0 value))) value slots tt some
          (λ q. refl))
        λ w k. (
          (λ q.
              ap (λ z. z + one_if (q (get_or slots 0 d))) (k.0 q)
              ∙ count-set q slots 0 value d some),
          k.1,
        )

  root_read :
      (slots : List T) → 0 < length slots → Returns (λ x. x ≡ get_or slots 0 d) (index slots 0)
  root_read slots some = rw (index-ok slots 0 d some) (returns refl)

  -- What `push` did: the value was added below the capacity, or took the place of the root that it
  -- replaces, or was refused by a full heap.
  pub data Pushed (value : T) (h h' : CommonHeap T) : Type 0 where
    added :
        length h.slots < h.size
        → length h'.slots ≡ suc (length h.slots)
        → ((q : T → Bool) → count q h'.slots ≡ count q h.slots + one_if (q value))
        → Pushed value h h'
    replaced :
        h.size ≤ length h.slots
        → 0 < length h.slots
        → order.should_replace_root (get_or h.slots 0 d) value ≡ true
        → length h'.slots ≡ length h.slots
        → ((q : T → Bool)
            → count q h'.slots + one_if (q (get_or h.slots 0 d))
              ≡ count q h.slots + one_if (q value))
        → Pushed value h h'
    refused :
        h.size ≤ length h.slots
        → (0 < length h.slots → order.should_replace_root (get_or h.slots 0 d) value ≡ false)
        → h'.slots ≡ h.slots
        → Pushed value h h'

  -- From a heap in order, over an order that obeys the laws, `push` ends normally with a heap in order
  -- of the same capacity: below the capacity it holds one value more, the new one; at it the root is
  -- given up for the new value where the order says so, and nothing changes otherwise.
  pub push-Pushed :
      (value : T) (h : CommonHeap T)
      → IsHeap order d h.slots
      → Returns
          (λ h'. IsHeap order d h'.slots × (h'.size ≡ h.size) × Pushed value h h')
          (push order value h)
  unfolding push
  push-Pushed value h heap =
      Returns-if (ltb (length h.slots) h.size)
        (λ room.
          Returns-bind
            (Returns-both (push_back-IsHeap value h.slots heap) (append-count value h.slots))
            λ (slots, u) k. returns (k.0, refl, added (ltb→lt _ _ room) k.1.1 k.1.0))
        (λ full.
          let at_capacity : h.size ≤ length h.slots = ground arith in
          Returns-if (ltb 0 (length h.slots))
            (λ some_slots.
              let some = ltb→lt _ _ some_slots in
              Returns-bind (root_read h.slots some) λ root e.
                Returns-if (order.should_replace_root root value)
                  (λ better.
                    Returns-bind
                      (Returns-both (replace_root-IsHeap value h.slots some heap)
                        (replace-count value h.slots some))
                      λ (x, slots, u) k. returns (
                        k.0,
                        refl,
                        replaced at_capacity some (ground (arith, e, better)) k.1.1 k.1.0,
                      ))
                  (λ worse.
                    returns (heap, refl, refused at_capacity (λ s. ground (arith, e, worse)) refl)))
            (λ none. returns (heap, refl, refused at_capacity (λ s. absurd (ground arith)) refl)))
