-- ===== src/Tests/HhHeap.antt =====
-- A heavy hitter heap of two keys that are numbers, with digests that collide.
use asap_sketchlib.Prelude.{
  ℕ, zero, suc, ◌%◌, ◌≡◌, refl, ap, List, [], ◌∷◌, ◌==◌, ==→eq, arith, true, false, ok, ◌>>=◌,
  for_each, Returns, none, some, Bool-cases, inl, inr, if◌then◌else◌,
}
use asap_sketchlib.HhHeap.{KeyOps, HhHeap, Positions, empty_index, new, find, update, rebuild_index}
use asap_sketchlib.HhHeap.Found.{Found}
use asap_sketchlib.HhHeap.Buckets.{times}
use asap_sketchlib.HhHeap.Placed.{held, IsPlaced}
use asap_sketchlib.HhHeap.InStep.{AgreesWithDigest, IsInStep, find-Found, updates-IsInStep}
use asap_sketchlib.HhHeap.Contents.{Updated, update-Updated}
use asap_sketchlib.HhHeap.Rebuild.{rebuild_index-IsInStep}

abbrev parity : KeyOps ℕ
parity = record { digest = λ key. key % 2; equal = λ a b. a == b }

parity-AgreesWithDigest : AgreesWithDigest parity
parity-AgreesWithDigest a b e = ap (λ z. z % 2) (==→eq a b e)

abbrev stream : List (ℕ × ℕ)
stream = (4, 7) ∷ (6, 2) ∷ (4, 9) ∷ (8, 3) ∷ []

updates-IsInStep_example :
    Returns
      (λ s. IsInStep parity s × (s.k ≡ 2))
      (for_each stream (λ (key, count) s. update parity key count s >>= λ r. ok r.1) (new parity 2))
updates-IsInStep_example = updates-IsInStep parity 2 stream parity-AgreesWithDigest

-- two items without their index
abbrev loaded : HhHeap ℕ
loaded = record {
  heap = record {
    slots = record { key = 6; count = 2 } ∷ record { key = 4; count = 9 } ∷ [];
    size = 2;
  };
  slot_index = empty_index;
  k = 2;
}

rebuild_index-IsInStep_example :
    Returns
      (λ s'. IsInStep parity s' × (s'.heap.slots ≡ loaded.heap.slots))
      (rebuild_index parity loaded)
rebuild_index-IsInStep_example = rebuild_index-IsInStep parity loaded refl (omega arith)

-- both keys are even: one bucket holds both slots
abbrev both_even : Positions
both_even e = if e == 0 then some (1 ∷ 0 ∷ []) else none

both_even-IsPlaced : IsPlaced (0 ∷ 0 ∷ []) both_even
both_even-IsPlaced e i = elim (Bool-cases (e == 0)) [
  | inl even ↦ rw even (slot_of e i even)
  | inr odd ↦ rw odd (no_slot_of e i odd)
]
  where
    slot_of : (e i : ℕ) → (e == 0) ≡ true → times i (1 ∷ 0 ∷ []) ≡ held (0 ∷ 0 ∷ []) e i
    slot_of e zero even = ground (arith, even)
    slot_of e (suc zero) even = ground (arith, even)
    slot_of e (suc (suc i)) even = ground arith

    no_slot_of : (e i : ℕ) → (e == 0) ≡ false → 0 ≡ held (0 ∷ 0 ∷ []) e i
    no_slot_of e zero odd = ground (arith, odd)
    no_slot_of e (suc zero) odd = ground (arith, odd)
    no_slot_of e (suc (suc i)) odd = ground arith

abbrev indexed : HhHeap ℕ
indexed = record loaded { slot_index = record { slots = 0 ∷ 0 ∷ []; positions = both_even } }

indexed-IsInStep : IsInStep parity indexed
indexed-IsInStep = record {
  capacity = refl;
  few = omega arith;
  indexed = record { digests = refl; placed = both_even-IsPlaced };
}

find-Found_example : Returns (Found parity 4 indexed.heap.slots) (find parity 4 indexed)
find-Found_example = find-Found parity 4 indexed parity-AgreesWithDigest indexed-IsInStep

update-Updated_example :
    Returns
      (λ r. (IsInStep parity r.1 × (r.1.k ≡ 2)) × Updated parity 8 5 indexed r.1)
      (update parity 8 5 indexed)
update-Updated_example = update-Updated parity 8 5 indexed parity-AgreesWithDigest indexed-IsInStep
