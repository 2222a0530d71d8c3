-- ===== src/HhHeap/Contents.antt =====
-- What an update does to the items of a heavy hitter heap.
use asap_sketchlib.Prelude.{
  ℕ, zero, suc, ◌+◌, ◌<◌, ◌≤◌, ◌≡◌, refl, ap, ◌∙◌, List, [], ◌∷◌, ◌++◌, arith, Bool, true, false,
  inl, inr, Option, none, some, ltb, ltb→lt, ◌^◌, ok, index, store, set, ◌⊎◌, length, get_or,
  Returns, length-set,
}
use asap_sketchlib.Matrix.Counter.{signed_less}
use asap_sketchlib.Heap.{peek}
use asap_sketchlib.Heap.Items.{one_if, count, count-set, count-push, count-KeptBySwaps}
use asap_sketchlib.Heap.Sift.{
  push_back_with-Returns, replace_root_with-Returns, update_at_with-Returns,
}
use asap_sketchlib.HhHeap.{
  KeyOps, HhItem, by_count, HhHeap, follow, rescore, seat, should_accept_new, above_root, on_found,
  find, update,
}
use asap_sketchlib.HhHeap.Partial.{
  IfOk, if_ok, IfOk-bind, IfOk-any, IfOk-weak, IfOk-if, Returns-and,
}
use asap_sketchlib.HhHeap.Found.{Found}
use asap_sketchlib.HhHeap.InStep.{AgreesWithDigest, IsInStep, find-Found, update-IsInStep}

module _ {K : Type 0} (keys : KeyOps K) where
  -- The item has the key.
  unfoldable pub has : K → HhItem K → Bool
  has key item = keys.equal item.key key

  -- the items of `items` are `item` and `rest`, whatever is counted
  abbrev pub AreItems : List (HhItem K) → HhItem K → List (HhItem K) → Type 0
  AreItems items item rest =
      (length items ≡ suc (length rest))
      × ((q : HhItem K → Bool) → count q items ≡ one_if (q item) + count q rest)

  -- What an update does: the item of the key gets the new count; or no item has the key, and it comes in
  -- below the capacity, or in place of a root of a smaller count, or it is refused by a heap that is full,
  -- and whose root, if it has one, has no smaller count.
  pub data Updated (key : K) (new : ℕ) (s s' : HhHeap K) : Type 0 where
    rescored :
        (old : HhItem K) (rest : List (HhItem K))
        → keys.equal old.key key ≡ true
        → AreItems s.heap.slots old rest
        → AreItems s'.heap.slots (record old { count = new }) rest
        → Updated key new s s'
    added :
        count (has key) s.heap.slots ≡ 0
        → length s.heap.slots < s.k
        → AreItems s'.heap.slots (record { key = key; count = new }) s.heap.slots
        → Updated key new s s'
    replaced :
        (root : HhItem K) (rest : List (HhItem K))
        → count (has key) s.heap.slots ≡ 0
        → s.k ≤ length s.heap.slots
        → index s.heap.slots 0 ≡ ok root
        → signed_less (2 ^ 63) root.count new ≡ true
        → AreItems s.heap.slots root rest
        → AreItems s'.heap.slots (record { key = key; count = new }) rest
        → Updated key new s s'
    refused :
        count (has key) s.heap.slots ≡ 0
        → s.k ≤ length s.heap.slots
        → (0 < s.k
            → (root : HhItem K) → index s.heap.slots 0 ≡ ok root
            → signed_less (2 ^ 63) root.count new ≡ false)
        → s'.heap.slots ≡ s.heap.slots
        → Updated key new s s'

  without : ℕ → List (HhItem K) → List (HhItem K)
  without i [] = []
  without zero (item ∷ items) = items
  without (suc i) (item ∷ items) = item ∷ without i items

  index-get_or :
      (items : List (HhItem K)) (i : ℕ) (item : HhItem K)
      → index items i ≡ ok item
      → get_or items i item ≡ item
  index-get_or [] i item e = absurd (cc (e))
  index-get_or (y ∷ ys) zero item e = cc (e)
  index-get_or (y ∷ ys) (suc i) item e = index-get_or ys i item e

  AreItems-without :
      (items : List (HhItem K)) (i : ℕ) (item : HhItem K)
      → index items i ≡ ok item
      → AreItems items item (without i items)
  unfolding without
  AreItems-without [] i item e = absurd (cc (e))
  AreItems-without (y ∷ ys) zero item e =
      let same : y ≡ item = cc (e) in (refl, λ q. ap (λ z. one_if (q z) + count q ys) same)
  AreItems-without (y ∷ ys) (suc i) item e =
      let rest = AreItems-without ys i item e in (ap suc rest.0, λ q. omega (arith, rest.1 q))

  AreItems-set :
      (items items' : List (HhItem K)) (i : ℕ) (item new : HhItem K)
      → i < length items
      → index items i ≡ ok item
      → ((q : HhItem K → Bool) → count q items' ≡ count q (set items i new))
      → length items' ≡ length items
      → AreItems items' new (without i items)
  AreItems-set items items' i item new lt at counts long =
      let rest = AreItems-without items i item at in
      let same = index-get_or items i item at in
      (
        long ∙ rest.0,
        λ q. omega (
          arith,
          counts q,
          rest.1 q,
          count-set q items i new item lt,
          ap (λ z. one_if (q z)) same,
        ),
      )

  absent-none :
      (key : K) (items : List (HhItem K))
      → ((i : ℕ) (item : HhItem K) → index items i ≡ ok item → keys.equal item.key key ≡ false)
      → count (has key) items ≡ 0
  unfolding has
  absent-none key [] gone = refl
  absent-none key (item ∷ items) gone =
      ground (arith, gone 0 item refl, absent-none key items λ i other e. gone (suc i) other e)

  rescore-Updated :
      (key : K) (idx new : ℕ) (s : HhHeap K) (item : HhItem K)
      → idx < length s.heap.slots
      → index s.heap.slots idx ≡ ok item
      → keys.equal item.key key ≡ true
      → IfOk (Updated key new s) (rescore keys idx new s)
  unfolding rescore
  rescore-Updated key idx new s item lt at same =
      let scored : HhItem K = record item { count = new } in
      let items : List (HhItem K) = set s.heap.slots idx scored in
      rw at (
        IfOk-bind
          (IfOk-weak (
            update_at_with-Returns by_count follow
              (λ xs so_far. (q : HhItem K → Bool) → count q xs ≡ count q items)
              (count-KeptBySwaps follow (λ q. count q items)) idx items (ok s.slot_index)
              (λ q. refl)))
          λ (found, items', followed) c. IfOk-bind (IfOk-any followed) λ ix t. if_ok (
            rescored item (without idx s.heap.slots) same
              (AreItems-without s.heap.slots idx item at)
              (AreItems-set s.heap.slots items' idx item scored lt at c.1
                (c.2 ∙ length-set s.heap.slots idx scored))))

  root-cases :
      (items : List (HhItem K))
      → (length items ≡ 0) ⊎ ((root : HhItem K) × (0 < length items) × (index items 0 ≡ ok root))
  root-cases [] = inl refl
  root-cases (root ∷ items) = inr (root, omega arith, refl)

  peek-index :
      (items : List (HhItem K)) (root : HhItem K) → index items 0 ≡ ok root → peek items ≡ some root
  unfolding peek
  peek-index [] root at = absurd (cc (at))
  peek-index (item ∷ items) root at = ap some (cc (at))

  declined :
      (new : ℕ) (s : HhHeap K)
      → should_accept_new keys new s ≡ false
      → (s.k ≤ length s.heap.slots)
        × (0 < s.k
            → (root : HhItem K) → index s.heap.slots 0 ≡ ok root
            → signed_less (2 ^ 63) root.count new ≡ false)
  unfolding should_accept_new above_root
  declined new s declines = (
    ground arith,
    λ room root at.
        let top = peek-index s.heap.slots root at in ground (arith, declines, room, top),
  )

  -- what is new when no item has the key
  module _ (key : K) (new : ℕ) (s : HhHeap K) (gone : count (has key) s.heap.slots ≡ 0) where
    abbrev item : HhItem K
    item = record { key = key; count = new }

    seat-Updated :
        should_accept_new keys new s ≡ true → IfOk (Updated key new s) (seat keys key new s)
    unfolding seat should_accept_new above_root
    seat-Updated accepts =
        IfOk-if (ltb (length s.heap.slots) s.k)
          (λ room.
            IfOk-bind
              (IfOk-weak (
                push_back_with-Returns by_count follow
                  (λ xs so_far.
                    (q : HhItem K → Bool) → count q xs ≡ count q (s.heap.slots ++ item ∷ []))
                  (count-KeptBySwaps follow (λ q. count q (s.heap.slots ++ item ∷ []))) item
                  s.heap.slots _ (λ q. refl)))
              λ (items, followed) c. IfOk-bind (IfOk-any followed) λ ix t. if_ok (
                added gone (ltb→lt _ _ room)
                  (c.1, λ q. omega (arith, c.0 q, count-push q s.heap.slots item))))
          (λ full. elim (root-cases s.heap.slots) [
            | inl empty ↦ absurd (ground (arith, accepts, full, empty))
            | inr (root, some_item, at) ↦
                let top = peek-index s.heap.slots root at in
                IfOk-bind (IfOk-any (index s.slot_index.slots 0)) λ displaced t.
                  IfOk-bind (IfOk-any (store s.slot_index.slots 0 (keys.digest key))) λ slots u.
                    IfOk-bind
                      (IfOk-weak (
                        replace_root_with-Returns by_count follow
                          (λ xs so_far.
                            (q : HhItem K → Bool) → count q xs ≡ count q (set s.heap.slots 0 item))
                          (count-KeptBySwaps follow (λ q. count q (set s.heap.slots 0 item))) item
                          s.heap.slots _ some_item (λ q. refl)))
                      λ (displaced, items, followed) c. IfOk-bind (IfOk-any followed) λ ix t.
                        if_ok (
                          replaced root (without 0 s.heap.slots) gone (ground (arith, full)) at
                            (ground (arith, accepts, full, top))
                            (AreItems-without s.heap.slots 0 root at)
                            (AreItems-set s.heap.slots items 0 root item some_item at c.0 c.1))
          ])

  on_found-Updated :
      (key : K) (new : ℕ) (s : HhHeap K) (o : Option ℕ)
      → Found keys key s.heap.slots o
      → IfOk (λ r. Updated key new s r.1) (on_found keys key new s o)
  unfolding on_found
  on_found-Updated key new s (some idx) (Found.present item lt at same) =
      IfOk-bind (rescore-Updated key idx new s item lt at same) λ s' u. if_ok u
  on_found-Updated key new s none (Found.absent gone) =
      let none_has = absent-none key s.heap.slots gone in
      IfOk-if (should_accept_new keys new s)
        (λ accepts. IfOk-bind (seat-Updated key new s none_has accepts) λ s' u. if_ok u)
        (λ declines.
          let kept = declined new s declines in if_ok (refused none_has kept.0 kept.1 refl))

  -- In a heap whose index is in step, where equal keys have equal digests, an update ends normally with
  -- the index in step, at the same capacity. Where an item has the key, that item alone changes, and
  -- gets the new count. Where none has, a new item comes in: below the capacity beside the others,
  -- at the capacity in place of the root, when the root's count is smaller as an i64; it is refused
  -- otherwise, and the items stay.
  pub update-Updated :
      (key : K) (new : ℕ) (s : HhHeap K)
      → AgreesWithDigest keys
      → IsInStep keys s
      → Returns
          (λ r. (IsInStep keys r.1 × (r.1.k ≡ s.k)) × Updated key new s r.1)
          (update keys key new s)
  unfolding update find
  update-Updated key new s agrees v =
      Returns-and (update-IsInStep keys key new s agrees v) (
        IfOk-bind (IfOk-weak (find-Found keys key s agrees v))
          λ o f. on_found-Updated key new s o f)
