-- ===== src/Heap.antt =====
-- src/common/structures/heap.rs: a bounded binary heap in a vector, over any order. `on_swap` is told
-- of each swap of two slots; it is a closure, so a function on the state that it captures.
pub mod Swaps
pub mod Order
pub mod Restore
pub mod Items
pub mod Push
pub mod Sift
use asap_sketchlib.Prelude.{
  ℕ, zero, suc, ◌+◌, ◌-◌, ◌*◌, ◌/◌, List, [], ◌∷◌, ◌++◌, Bool, true, false, ◌&&◌, Option, none,
  some, ltb, leb, ◌==◌, if◌then◌else◌, Run, ok, out_of_fuel, ◌>>=◌, index, set, store, length, take,
}

-- The trait CommonHeapOrder.
pub record HeapOrder (T : Type 0) : Type 0 where
  pub should_swap : T → T → Bool
  pub should_replace_root : T → T → Bool

-- over a type with a test `less`
abbrev pub keep_smallest : {T : Type 0} → (T → T → Bool) → HeapOrder T
keep_smallest less = record {
  should_swap = λ parent child. less child parent;
  should_replace_root = λ root new_value. less root new_value;
}

abbrev pub keep_largest : {T : Type 0} → (T → T → Bool) → HeapOrder T
keep_largest less = record {
  should_swap = λ parent child. less parent child;
  should_replace_root = λ root new_value. less new_value root;
}

pub record CommonHeap (T : Type 0) : Type 0 where
  pub slots : List T
  pub size : ℕ

unfoldable pub with_capacity : {T : Type 0} → ℕ → CommonHeap T
with_capacity capacity = record { slots = []; size = capacity }

unfoldable pub is_full : {T : Type 0} → CommonHeap T → Bool
is_full self = leb self.size (length self.slots)

unfoldable pub peek : {T : Type 0} → List T → Option T
peek [] = none
peek (x ∷ xs) = some x

abbrev pub left_child : ℕ → ℕ
left_child i = 2 * i + 1

abbrev pub right_child : ℕ → ℕ
right_child i = 2 * i + 2

abbrev pub parent : ℕ → ℕ
parent i = (i - 1) / 2

-- `slice::swap`
unfoldable pub swap : {T : Type 0} → ℕ → ℕ → List T → Run (List T)
swap i j slots = do a ← index slots i; b ← index slots j; ok (set (set slots i b) j a)

module _ {T : Type 0} (order : HeapOrder T) where
  -- the child to swap with, or the index itself
  unfoldable pub target_of : ℕ → List T → Run ℕ
  target_of idx slots = do
    p ← index slots idx
    let with_left = index slots (left_child idx) >>= λ l.
        ok (if order.should_swap p l then left_child idx else idx)
    target ← if ltb (left_child idx) (length slots) then with_left else ok idx
    t ← index slots target
    let with_right = index slots (right_child idx) >>= λ r.
        ok (if order.should_swap t r then right_child idx else target)
    if ltb (right_child idx) (length slots) then with_right else ok target

module _ {T G : Type 0} (order : HeapOrder T) (on_swap : ℕ → ℕ → G → G) where
  -- the loop of `bubble_up_with`; the index decreases, so one more than it is enough fuel
  unfoldable pub bubble_up_loop : ℕ → ℕ → List T → G → Run (List T × G)
  bubble_up_loop zero idx slots g = out_of_fuel
  bubble_up_loop (suc fuel) idx slots g =
      let climb = (do
        p ← index slots (parent idx)
        c ← index slots idx
        let step = swap (parent idx) idx slots >>= λ slots'.
            bubble_up_loop fuel (parent idx) slots' (on_swap (parent idx) idx g)
        if order.should_swap p c then step else ok (slots, g)) in
      if ltb 0 idx then climb else ok (slots, g)

  unfoldable pub bubble_up_with : ℕ → List T → G → Run (List T × G)
  bubble_up_with idx slots g = bubble_up_loop (suc idx) idx slots g

  -- the loop of `bubble_down_with`; the index increases, so the length is enough fuel
  unfoldable pub bubble_down_loop : ℕ → ℕ → List T → G → Run (ℕ × List T × G)
  bubble_down_loop zero idx slots g =
      if ltb idx (length slots) then out_of_fuel else ok (idx, slots, g)
  bubble_down_loop (suc fuel) idx slots g =
      let sink = (do
        target ← target_of order idx slots
        let step = swap idx target slots >>= λ slots'.
            bubble_down_loop fuel target slots' (on_swap idx target g)
        if target == idx then ok (idx, slots, g) else step) in
      if ltb idx (length slots) then sink else ok (idx, slots, g)

  -- whether the value moved, with the data and the state
  unfoldable pub bubble_down_with : ℕ → List T → G → Run (Bool × List T × G)
  bubble_down_with start_idx slots g = do
    (idx, slots', g') ← bubble_down_loop (length slots) start_idx slots g
    ok ((if idx == start_idx then false else true), slots', g')

  unfoldable pub push_back_with : T → List T → G → Run (List T × G)
  push_back_with value slots g =
      bubble_up_with (length (slots ++ value ∷ []) - 1) (slots ++ value ∷ []) g

  unfoldable pub replace_root_with : T → List T → G → Run (T × List T × G)
  replace_root_with value slots g = do
    displaced ← index slots 0
    slots' ← store slots 0 value
    (moved, slots'', g') ← bubble_down_with 0 slots' g
    ok (displaced, slots'', g')

  unfoldable pub update_at_with : ℕ → List T → G → Run (Bool × List T × G)
  update_at_with i slots g =
      let update = (do
        (moved, slots', g') ← bubble_down_with i slots g
        (slots'', g'') ← if moved then ok (slots', g') else bubble_up_with i slots' g'
        ok (true, slots'', g'')) in
      if leb (length slots) i then ok (false, slots, g) else update

module _ {T : Type 0} (order : HeapOrder T) where
  abbrev pub unheard : ℕ → ℕ → Unit {0} → Unit {0}
  unheard i j u = tt

  unfoldable pub push : T → CommonHeap T → Run (CommonHeap T)
  unfolding push_back_with replace_root_with
  push value self =
      let append = (do
        (slots, u) ← push_back_with order unheard value self.slots tt
        ok (record self { slots = slots })) in
      let replace = (do
        (displaced, slots, u) ← replace_root_with order unheard value self.slots tt
        ok (record self { slots = slots })) in
      let overwrite = index self.slots 0 >>= λ root.
      if order.should_replace_root root value then replace else ok self in
      if ltb (length self.slots) self.size
      then append
      else if ltb 0 (length self.slots)
      then overwrite
      else ok self

  -- `swap_remove(0)` moves the last element to the front
  unfoldable pub swap_remove_first : List T → List T
  swap_remove_first [] = []
  swap_remove_first (x ∷ []) = []
  swap_remove_first (x ∷ y ∷ ys) = take (length (y ∷ ys)) (set (x ∷ y ∷ ys) 0 (last_of y ys))
    where
      last_of : T → List T → T
      last_of a [] = a
      last_of a (b ∷ bs) = last_of b bs

  unfoldable pub pop : List T → Run (Option T × List T)
  pop [] = ok (none, [])
  pop (x ∷ []) = ok (some x, [])
  pop (x ∷ y ∷ ys) = do
    (moved, slots, u) ← bubble_down_with order unheard 0 (swap_remove_first (x ∷ y ∷ ys)) tt
    ok (some x, slots)

  unfoldable pub update_at : ℕ → CommonHeap T → Run (Bool × CommonHeap T)
  update_at i self = do
    (found, slots, u) ← update_at_with order unheard i self.slots tt
    ok (found, record self { slots = slots })
