-- ===== src/HhHeap/Rebuild.antt =====
-- The index that is rebuilt when a heap is loaded.
use asap_sketchlib.Prelude.{
  ◌≤◌, ◌≡◌, refl, sym, ap, ◌∙◌, subst, List, [], ◌∷◌, ◌++◌, arith, ok, length, Returns, returns,
  Returns-bind, for_each,
}
use mathlib.Core.List.{append_assoc, append-nil}
use asap_sketchlib.HhHeap.{
  KeyOps, HhItem, SlotIndex, HhHeap, empty_index, push_position, rebuild_index,
}
use asap_sketchlib.HhHeap.Placed.{push-IsPlaced}
use asap_sketchlib.HhHeap.Found.{digest_of, IsIndexed}
use asap_sketchlib.HhHeap.InStep.{map-append, IsInStep}

module _ {K : Type 0} (keys : KeyOps K) where
  rebuild-IsIndexed :
      (done items : List (HhItem K)) (ix : SlotIndex)
      → IsIndexed keys done ix
      → Returns (IsIndexed keys (done ++ items)) (
          for_each items
            (λ item ix'.
              let slot = keys.digest item.key in
              ok (record {
                slots = ix'.slots ++ slot ∷ [];
                positions = push_position ix'.positions slot (length ix'.slots);
              }))
            ix)
  unfolding for_each
  rebuild-IsIndexed done [] ix v =
      returns (subst (λ xs. IsIndexed keys xs ix) (sym (append-nil done)) v)
  rebuild-IsIndexed done (item ∷ items) ix v =
      subst
        (λ xs. Returns (IsIndexed keys xs) (
          for_each items
            (λ item' ix'.
              let slot = keys.digest item'.key in
              ok (record {
                slots = ix'.slots ++ slot ∷ [];
                positions = push_position ix'.positions slot (length ix'.slots);
              }))
            (record {
              slots = ix.slots ++ keys.digest item.key ∷ [];
              positions = push_position ix.positions (keys.digest item.key) (length ix.slots);
            })))
        (append_assoc done (item ∷ []) items)
        (rebuild-IsIndexed (done ++ item ∷ []) items _ (record {
          digests =
              ap (λ l. l ++ keys.digest item.key ∷ []) v.digests
              ∙ sym (map-append (digest_of keys) done item);
          placed = push-IsPlaced ix.slots ix.positions (keys.digest item.key) v.placed;
        }))

  -- The index that is rebuilt when a heap is loaded is that of its items, whatever index was there
  -- before: a heap within its capacity is in step, its items as they were.
  pub rebuild_index-IsInStep :
      (s : HhHeap K)
      → s.heap.size ≡ s.k
      → length s.heap.slots ≤ s.k
      → Returns (λ s'. IsInStep keys s' × (s'.heap.slots ≡ s.heap.slots)) (rebuild_index keys s)
  unfolding rebuild_index
  rebuild_index-IsInStep s size few =
      Returns-bind
        (rebuild-IsIndexed [] s.heap.slots empty_index
          (record { digests = refl; placed = λ e i. ground arith }))
        λ ix v. returns (record { capacity = size; few = few; indexed = v }, refl)
