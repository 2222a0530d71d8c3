-- ===== src/HhHeap/Placed.antt =====
-- Every position stands under the digest of its slot, once, and under no other.
use asap_sketchlib.Prelude.{
  ℕ, zero, suc, ◌+◌, ◌<◌, ◌≡◌, ◌≢◌, refl, sym, subst, List, [], ◌∷◌, ◌++◌, arith, Bool-cases, inl,
  inr, ltb, ◌==◌, ==→eq, if◌then◌else◌, set, length, get_or, length-append, length-set, get_or-set,
}
use asap_sketchlib.Heap.Items.{one_if}
use asap_sketchlib.Heap.Push.{get_or-push}
use asap_sketchlib.HhHeap.{Positions, push_position, retarget, drop_entry}
use asap_sketchlib.HhHeap.Buckets.{times, entries, times-pushed, times-changed, times-dropped}

-- how often a position should stand under a digest
abbrev pub held : List ℕ → ℕ → ℕ → ℕ
held slots e i = if ltb i (length slots) then one_if (get_or slots i 0 == e) else 0

abbrev pub IsPlaced : List ℕ → Positions → Type 0
IsPlaced slots positions = (e i : ℕ) → times i (entries (positions e)) ≡ held slots e i

times-push_position :
    (positions : Positions) (digest idx e i : ℕ)
    → times i (entries (push_position positions digest idx e))
      ≡ times i (entries (positions e)) + (if e == digest then one_if (idx == i) else 0)
unfolding push_position
times-push_position positions digest idx e i = elim (Bool-cases (e == digest)) [
  | inl same ↦ rw same (times-pushed idx i (positions e))
  | inr other ↦ rw other (omega arith)
]

times-retarget :
    (positions : Positions) (digest start target e i : ℕ)
    → 0 < times start (entries (positions digest))
    → times i (entries (retarget positions digest start target e))
        + (if e == digest then one_if (start == i) else 0)
      ≡ times i (entries (positions e)) + (if e == digest then one_if (target == i) else 0)
unfolding retarget
times-retarget positions digest start target e i some_there = elim (Bool-cases (e == digest)) [
  | inl same ↦ rw same (
      times-changed start target i (positions e) (
        subst (λ z. 0 < times start (entries (positions z))) (sym (==→eq e digest same))
          some_there))
  | inr other ↦ rw other (omega arith)
]

times-drop_entry :
    (positions : Positions) (digest idx e i : ℕ)
    → 0 < times idx (entries (positions digest))
    → times i (entries (drop_entry positions digest idx e))
        + (if e == digest then one_if (idx == i) else 0)
      ≡ times i (entries (positions e))
unfolding drop_entry
times-drop_entry positions digest idx e i some_there = elim (Bool-cases (e == digest)) [
  | inl same ↦ rw same (
      times-dropped idx i (positions e)
        (subst (λ z. 0 < times idx (entries (positions z))) (sym (==→eq e digest same)) some_there))
  | inr other ↦ rw other (omega arith)
]

get_or-append : (xs : List ℕ) (v d i : ℕ) → i ≡ length xs → get_or (xs ++ v ∷ []) i d ≡ v
get_or-append [] v d zero e = refl
get_or-append [] v d (suc i) e = absurd (omega (arith, e))
get_or-append (x ∷ xs) v d zero e = absurd (omega (arith, e))
get_or-append (x ∷ xs) v d (suc i) e = get_or-append xs v d i (omega (arith, e))

pub push-IsPlaced :
    (slots : List ℕ) (positions : Positions) (slot : ℕ)
    → IsPlaced slots positions
    → IsPlaced (slots ++ slot ∷ []) (push_position positions slot (length slots))
push-IsPlaced slots positions slot p e i = ground (
  arith,
  times-push_position positions slot (length slots) e i,
  p e i,
  length-append slots (slot ∷ []),
  get_or-push slots slot 0 i,
  get_or-append slots slot 0 i,
)

pub replace-IsPlaced :
    (slots : List ℕ) (positions : Positions) (slot : ℕ)
    → 0 < length slots
    → IsPlaced slots positions
    → IsPlaced (set slots 0 slot) (push_position (drop_entry positions (get_or slots 0 0) 0) slot 0)
replace-IsPlaced slots positions slot some_slots p e i =
    let there : 0 < times 0 (entries (positions (get_or slots 0 0))) =
      ground (arith, p (get_or slots 0 0) 0) in
    ground (
      arith,
      times-push_position (drop_entry positions (get_or slots 0 0) 0) slot 0 e i,
      times-drop_entry positions (get_or slots 0 0) 0 e i there,
      p e i,
      length-set slots 0 slot,
      get_or-set slots 0 i slot 0 some_slots,
    )

pub swap-IsPlaced :
    (slots : List ℕ) (positions : Positions) (i j : ℕ)
    → i < length slots
    → j < length slots
    → get_or slots i 0 ≢ get_or slots j 0
    → IsPlaced slots positions
    → IsPlaced
        (set (set slots i (get_or slots j 0)) j (get_or slots i 0))
        (retarget (retarget positions (get_or slots i 0) i j) (get_or slots j 0) j i)
swap-IsPlaced slots positions i j hi hj ne p e x =
    let left : ℕ = get_or slots i 0 in
    let right : ℕ = get_or slots j 0 in
    let there : 0 < times i (entries (positions left)) = ground (arith, p left i) in
    let there' : 0 < times j (entries (retarget positions left i j right)) =
      ground (arith, times-retarget positions left i j right j there, p right j, ne) in
    let len : length (set slots i right) ≡ length slots = length-set slots i right in
    ground (
      arith,
      times-retarget (retarget positions left i j) right j i e x there',
      times-retarget positions left i j e x there,
      p e x,
      len,
      length-set (set slots i right) j left,
      get_or-set (set slots i right) j x left 0 (omega (arith, len, hj)),
      get_or-set slots i x right 0 hi,
      ne,
    )
