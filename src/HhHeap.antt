-- ===== src/HhHeap.antt =====
-- src/common/heap.rs, HHHeap: a bounded heap of the keys with the largest counts, with an index from the
-- digest of a key to the slots that it may stand in. The index follows the swaps that the common heap
-- reports.
pub mod Buckets
pub mod Placed
pub mod Found
pub mod InStep
pub mod Rebuild
pub mod Partial
pub mod Contents
use asap_sketchlib.Prelude.{
  ℕ, zero, suc, ◌-◌, ◌^◌, List, [], ◌∷◌, ◌++◌, Bool, true, false, Option, none, some, ltb, ◌==◌,
  if◌then◌else◌, Run, ok, ◌>>=◌, index, set, store, for_each, length, get_or, take,
}
use asap_sketchlib.Matrix.Counter.{signed_less}
use asap_sketchlib.Heap.{
  HeapOrder, CommonHeap, keep_smallest, with_capacity, peek, swap, push_back_with,
  replace_root_with, update_at_with,
}

-- A key with its hash under seed 0 and its test for equality; borrowed and owned keys hash alike.
pub record KeyOps (K : Type 0) : Type 0 where
  pub digest : K → ℕ
  pub equal : K → K → Bool

-- An item and its count, the bit pattern of an i64.
pub record HhItem (K : Type 0) : Type 0 where
  pub key : K
  pub count : ℕ

-- items compare by their counts
abbrev pub by_count : {K : Type 0} → HeapOrder (HhItem K)
by_count = keep_smallest (λ a b. signed_less (2 ^ 63) a.count b.count)

-- The map from a digest to the slots of the items that have it.
abbrev pub Positions : Type 0
Positions = ℕ → Option (List ℕ)

-- The digests of the items, slot by slot, and the map.
pub record SlotIndex : Type 0 where
  pub slots : List ℕ
  pub positions : Positions

pub record HhHeap (K : Type 0) : Type 0 where
  pub heap : CommonHeap (HhItem K)
  pub slot_index : SlotIndex
  pub k : ℕ

-- a change of the bucket that is there
unfoldable pub changed : (List ℕ → List ℕ) → Option (List ℕ) → Option (List ℕ)
changed f none = none
changed f (some bucket) = some (f bucket)

-- `or_default().push(idx)`
unfoldable pub pushed : ℕ → Option (List ℕ) → Option (List ℕ)
pushed idx none = some (idx ∷ [])
pushed idx (some bucket) = some (bucket ++ idx ∷ [])

unfoldable pub push_position : Positions → ℕ → ℕ → Positions
push_position positions digest idx e = if e == digest then pushed idx (positions e) else positions e

unfoldable pub replace_first : ℕ → ℕ → List ℕ → List ℕ
replace_first start target [] = []
replace_first start target (entry ∷ bucket) =
    let rest = replace_first start target bucket in
    if entry == start then target ∷ bucket else entry ∷ rest

unfoldable pub retarget : Positions → ℕ → ℕ → ℕ → Positions
retarget positions digest start target e =
    if e == digest then changed (replace_first start target) (positions e) else positions e

unfoldable pub holds_position : ℕ → List ℕ → Bool
holds_position idx [] = false
holds_position idx (entry ∷ bucket) =
    let rest = holds_position idx bucket in if entry == idx then true else rest

-- `swap_remove` at the first position that is `idx`: the last entry takes its place
unfoldable pub remove_position : ℕ → List ℕ → List ℕ
remove_position idx bucket =
    if holds_position idx bucket
    then take (length bucket - 1) (replace_first idx (get_or bucket (length bucket - 1) 0) bucket)
    else bucket

-- a bucket that is left empty is removed
unfoldable pub kept_bucket : List ℕ → Option (List ℕ)
kept_bucket [] = none
kept_bucket (entry ∷ bucket) = some (entry ∷ bucket)

unfoldable pub dropped : ℕ → Option (List ℕ) → Option (List ℕ)
dropped idx none = none
dropped idx (some bucket) = kept_bucket (remove_position idx bucket)

unfoldable pub drop_entry : Positions → ℕ → ℕ → Positions
drop_entry positions digest idx e = if e == digest then dropped idx (positions e) else positions e

unfoldable pub swap_entry : ℕ → ℕ → SlotIndex → Run SlotIndex
swap_entry i j self = do
  left ← index self.slots i
  right ← index self.slots j
  let moved = swap i j self.slots >>= λ slots.
      ok (record {
        slots = slots;
        positions = retarget (retarget self.positions left i j) right j i;
      })
  if left == right then ok self else moved

-- the closure that the common heap is given; it ends as the index does
abbrev pub follow : ℕ → ℕ → Run SlotIndex → Run SlotIndex
follow i j so_far = so_far >>= λ slot_index. swap_entry i j slot_index

abbrev pub empty_index : SlotIndex
empty_index = record { slots = []; positions = λ e. none }

module _ {K : Type 0} (keys : KeyOps K) where
  unfoldable pub new : ℕ → HhHeap K
  unfolding with_capacity
  new k = record { heap = with_capacity k; slot_index = empty_index; k = k }

  unfoldable pub clear : HhHeap K → HhHeap K
  clear self = record self {
    heap = record { slots = []; size = self.heap.size };
    slot_index = empty_index;
  }

  -- the first of the positions whose item has the key
  unfoldable pub first_match : K → List (HhItem K) → List ℕ → Run (Option ℕ)
  first_match key items [] = ok none
  first_match key items (idx ∷ rest) = do
    item ← index items idx
    let later = first_match key items rest
    if keys.equal item.key key then ok (some idx) else later

  unfoldable pub in_bucket : K → List (HhItem K) → Option (List ℕ) → Run (Option ℕ)
  in_bucket key items none = ok none
  in_bucket key items (some bucket) = first_match key items bucket

  unfoldable pub lookup : K → HhHeap K → Run (Option ℕ)
  lookup key self = in_bucket key self.heap.slots (self.slot_index.positions (keys.digest key))

  unfoldable pub find : K → HhHeap K → Run (Option ℕ)
  unfolding lookup
  find key self = lookup key self

  unfoldable pub rescore : ℕ → ℕ → HhHeap K → Run (HhHeap K)
  rescore idx count self = do
    item ← index self.heap.slots idx
    items ← store self.heap.slots idx (record item { count = count })
    (found, items', followed) ← update_at_with by_count follow idx items (ok self.slot_index)
    slot_index ← followed
    ok (record self {
      heap = record { slots = items'; size = self.heap.size };
      slot_index = slot_index;
    })

  unfoldable pub seat : K → ℕ → HhHeap K → Run (HhHeap K)
  seat key count self =
      let item : HhItem K = record { key = key; count = count } in
      let slot = keys.digest key in
      let ix = self.slot_index in
      let append : Run (HhHeap K) = (do
        let opened : SlotIndex = record {
          slots = ix.slots ++ slot ∷ [];
          positions = push_position ix.positions slot (length self.heap.slots);
        }
        (items, followed) ← push_back_with by_count follow item self.heap.slots (ok opened)
        slot_index ← followed
        ok (record self {
          heap = record { slots = items; size = self.heap.size };
          slot_index = slot_index;
        })) in
      let replace : Run (HhHeap K) = (do
        displaced ← index ix.slots 0
        slots ← store ix.slots 0 slot
        let moved : SlotIndex = record {
          slots = slots;
          positions = push_position (drop_entry ix.positions displaced 0) slot 0;
        }
        (root, items, followed) ← replace_root_with by_count follow item self.heap.slots (ok moved)
        slot_index ← followed
        ok (record self {
          heap = record { slots = items; size = self.heap.size };
          slot_index = slot_index;
        })) in
      if ltb (length self.heap.slots) self.k then append else replace

  unfoldable pub above_root : ℕ → Option (HhItem K) → Bool
  above_root count none = false
  above_root count (some root) = signed_less (2 ^ 63) root.count count

  unfoldable pub should_accept_new : ℕ → HhHeap K → Bool
  should_accept_new count self =
      if self.k == 0
      then false
      else if ltb (length self.heap.slots) self.k
      then true
      else above_root count (peek self.heap.slots)

  -- what `update` does with what `lookup` returns
  unfoldable pub on_found : K → ℕ → HhHeap K → Option ℕ → Run (Bool × HhHeap K)
  on_found key count self (some idx) = rescore idx count self >>= λ rescored. ok (true, rescored)
  on_found key count self none =
      let retained_every_key = ltb (length self.heap.slots) self.k in
      let seated = seat key count self >>= λ s. ok (retained_every_key, s) in
      if should_accept_new count self then seated else ok (retained_every_key, self)

  unfoldable pub update : K → ℕ → HhHeap K → Run (Bool × HhHeap K)
  update key count self = lookup key self >>= on_found key count self

  unfoldable pub rebuild_index : HhHeap K → Run (HhHeap K)
  rebuild_index self = do
    slot_index ←
        for_each self.heap.slots
          (λ item ix.
            let slot = keys.digest item.key in
            ok (record {
              slots = ix.slots ++ slot ∷ [];
              positions = push_position ix.positions slot (length ix.slots);
            }))
          empty_index
    ok (record self { slot_index = slot_index })
