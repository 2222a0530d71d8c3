-- ===== src/Tests/Heap.antt =====
-- A heap of numbers whose listener writes the swaps down.
use asap_sketchlib.Prelude.{
  ℕ, ◌≤◌, ◌≡◌, refl, zero, List, [], ◌∷◌, suc, ltb, length, arith, Returns,
}
use asap_sketchlib.Heap.{CommonHeap, keep_smallest, push, update_at_with}
use asap_sketchlib.Heap.Swaps.{KeptBySwaps}
use asap_sketchlib.Heap.Sift.{update_at_with-Returns}
use asap_sketchlib.Heap.Order.{IsOrder, IsHeap}
use asap_sketchlib.Heap.Push.{Pushed, push-Pushed}

abbrev raised : List ℕ
raised = 9 ∷ 5 ∷ 3 ∷ []

-- the number of swaps
abbrev tally_swaps : ℕ → ℕ → ℕ → ℕ
tally_swaps i j n = suc n

abbrev AtLeast : List ℕ → ℕ → Type 0
AtLeast slots n = 1 ≤ n

kept : KeptBySwaps tally_swaps AtLeast
kept i j slots slots' g e r = omega arith

update_at_with-Returns_example :
    Returns
      (λ (found, slots', g').
        (found ≡ ltb 0 (length raised)) × (1 ≤ g') × (length slots' ≡ length raised))
      (update_at_with (keep_smallest ltb) tally_swaps 0 raised 1)
update_at_with-Returns_example =
    update_at_with-Returns (keep_smallest ltb) tally_swaps AtLeast kept 0 raised 1 (omega arith)

abbrev full : CommonHeap ℕ
full = record { slots = 2 ∷ 5 ∷ 3 ∷ []; size = 3 }

keep_smallest-IsOrder : IsOrder (keep_smallest ltb)
keep_smallest-IsOrder = record {
  irrefl = λ a. ground arith;
  asymm = λ a b e. ground arith;
  trans = λ a b c e e'. ground arith;
  replace = λ a b. refl;
}

in_order : IsHeap (keep_smallest ltb) 0 full.slots
in_order zero pos inside = absurd (omega arith)
in_order (suc zero) pos inside = refl
in_order (suc (suc zero)) pos inside = refl
in_order (suc (suc (suc c))) pos inside = absurd (omega arith)

push-Pushed_example :
    Returns
      (λ h'.
        IsHeap (keep_smallest ltb) 0 h'.slots
        × (h'.size ≡ 3)
        × Pushed (keep_smallest ltb) keep_smallest-IsOrder 0 4 full h')
      (push (keep_smallest ltb) 4 full)
push-Pushed_example = push-Pushed (keep_smallest ltb) keep_smallest-IsOrder 0 4 full in_order
