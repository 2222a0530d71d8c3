-- ===== src/HhHeap/InStep.antt =====
-- A heavy hitter heap whose index is in step with its items, and every operation that keeps it so.
use asap_sketchlib.Prelude.{
  ℕ, zero, suc, ◌<◌, ◌≤◌, ◌≡◌, refl, sym, ap, ◌∙◌, List, [], ◌∷◌, ◌++◌, map, arith, true,
  Bool-cases, inl, inr, Option, none, some, ltb, ◌==◌, ok, ◌>>=◌, index, set, length, length-set,
  get_or, index-ok, Returns, returns, Returns-bind, Returns-map, Returns-if, Returns-for_each,
  for_each,
}
use asap_sketchlib.Heap.{with_capacity}
use asap_sketchlib.Heap.Sift.{
  push_back_with-Returns, replace_root_with-Returns, update_at_with-Returns,
}
use asap_sketchlib.HhHeap.{
  KeyOps, HhItem, by_count, SlotIndex, HhHeap, follow, new, clear, lookup, find, rescore, seat,
  should_accept_new, on_found, update,
}
use asap_sketchlib.HhHeap.Buckets.{times, entries}
use asap_sketchlib.HhHeap.Placed.{push-IsPlaced, replace-IsPlaced}
use asap_sketchlib.HhHeap.Found.{
  length-map, map-set, set-same, digest_of, IsIndexed, follow-KeptBySwaps, Found, FoundIn,
  in_bucket-FoundIn,
}

index-inv :
    {A : Type 0} (f : A → ℕ) (xs : List A) (i : ℕ) (x : A)
    → index xs i ≡ ok x
    → (i < length xs) × (get_or (map f xs) i 0 ≡ f x) × (get_or xs i x ≡ x)
index-inv f [] i x e = absurd (cc (e))
index-inv f (y ∷ xs) zero x e = let same : y ≡ x = cc (e) in (omega arith, ap f same, same)
index-inv f (y ∷ xs) (suc i) x e =
    let rest = index-inv f xs i x e in (omega (arith, rest.0), rest.1, rest.2)

pub map-append :
    {A : Type 0} (f : A → ℕ) (xs : List A) (x : A) → map f (xs ++ x ∷ []) ≡ map f xs ++ f x ∷ []
map-append f [] x = refl
map-append f (y ∷ xs) x = ap (λ l. f y ∷ l) (map-append f xs x)

module _ {K : Type 0} (keys : KeyOps K) where
  -- Equal keys have equal digests.
  abbrev pub AgreesWithDigest : Type 0
  AgreesWithDigest = (a b : K) → keys.equal a b ≡ true → keys.digest a ≡ keys.digest b

  -- The index is that of the items, and the items fit the capacity of the heap, which is `k`.
  pub record IsInStep (s : HhHeap K) : Type 0 where
    pub capacity : s.heap.size ≡ s.k
    pub few : length s.heap.slots ≤ s.k
    pub indexed : IsIndexed keys s.heap.slots s.slot_index

  slots-length :
      (items : List (HhItem K)) (ix : SlotIndex)
      → IsIndexed keys items ix
      → length ix.slots ≡ length items
  slots-length items ix v = ap length v.digests ∙ length-map (digest_of keys) items

  Found-everywhere :
      (key : K) (items : List (HhItem K)) (ix : SlotIndex) (o : Option ℕ)
      → AgreesWithDigest
      → IsIndexed keys items ix
      → FoundIn keys key items (entries (ix.positions (keys.digest key))) o
      → Found keys key items o
  Found-everywhere key items ix (some idx) agrees v (FoundIn.present_in item lt e same) =
      Found.present item lt e same
  Found-everywhere key items ix none agrees v (FoundIn.absent_in gone) = Found.absent λ i item e.
      elim (Bool-cases (keys.equal item.key key)) [
        | inr other ↦ other
        | inl same ↦
            let (lt, digest, at) = index-inv (digest_of keys) items i item e in
            let slot : get_or ix.slots i 0 ≡ keys.digest key =
              ap (λ z. get_or z i 0) v.digests ∙ digest ∙ agrees item.key key same in
            let there : 0 < times i (entries (ix.positions (keys.digest key))) =
              ground (arith, v.placed (keys.digest key) i, slots-length items ix v, lt, slot) in
            gone i item there e
      ]

  -- With an index in step and equal keys of equal digests, `find` ends normally, and it finds an item
  -- of the key wherever one is: what it returns is the slot of an item with the key, or nothing where
  -- no item of the heap has it.
  pub find-Found :
      (key : K) (s : HhHeap K)
      → AgreesWithDigest
      → IsInStep s
      → Returns (Found keys key s.heap.slots) (find keys key s)
  unfolding find lookup
  find-Found key s agrees v =
      Returns-map
        (in_bucket-FoundIn keys key s.heap.slots (s.slot_index.positions (keys.digest key))
          (λ i there. ground (
            arith,
            v.indexed.placed (keys.digest key) i,
            slots-length s.heap.slots s.slot_index v.indexed,
            there,
          )))
        λ o f. Found-everywhere key s.heap.slots s.slot_index o agrees v.indexed f

  rescore-IsInStep :
      (idx count : ℕ) (s : HhHeap K) (item : HhItem K)
      → index s.heap.slots idx ≡ ok item
      → IsInStep s
      → Returns (λ s'. IsInStep s' × (s'.k ≡ s.k)) (rescore keys idx count s)
  unfolding rescore
  rescore-IsInStep idx count s item at v =
      let scored : HhItem K = record item { count = count } in
      let items : List (HhItem K) = set s.heap.slots idx scored in
      let (lt, digest, same) = index-inv (digest_of keys) s.heap.slots idx item at in
      let digests : s.slot_index.slots ≡ map (digest_of keys) items =
        v.indexed.digests
        ∙ sym (
            map-set (digest_of keys) s.heap.slots idx scored
            ∙ ap (λ z. set (map (digest_of keys) s.heap.slots) idx z) (sym digest)
            ∙ set-same (map (digest_of keys) s.heap.slots) idx 0) in
      rw at (
        Returns-bind
          (update_at_with-Returns by_count follow (λ xs so_far. Returns (IsIndexed keys xs) so_far)
            (follow-KeptBySwaps keys) idx items (ok s.slot_index)
            (returns (record { digests = digests; placed = v.indexed.placed })))
          λ (found, items', followed) q. Returns-bind q.1 λ ix w. returns (
            record {
              capacity = v.capacity;
              few = omega (arith, q.2, length-set s.heap.slots idx scored, v.few);
              indexed = w;
            },
            refl,
          ))

  seat-IsInStep :
      (key : K) (count : ℕ) (s : HhHeap K)
      → 0 < s.k
      → IsInStep s
      → Returns (λ s'. IsInStep s' × (s'.k ≡ s.k)) (seat keys key count s)
  unfolding seat
  seat-IsInStep key count s some_room v =
      let item : HhItem K = record { key = key; count = count } in
      let slot : ℕ = keys.digest key in
      let ix : SlotIndex = s.slot_index in
      let same_length = slots-length s.heap.slots ix v.indexed in
      Returns-if (ltb (length s.heap.slots) s.k)
        (λ room.
          Returns-bind
            (push_back_with-Returns by_count follow
              (λ xs so_far. Returns (IsIndexed keys xs) so_far) (follow-KeptBySwaps keys) item
              s.heap.slots _
              (returns (record {
                digests =
                    ap (λ l. l ++ slot ∷ []) v.indexed.digests
                    ∙ sym (map-append (digest_of keys) s.heap.slots item);
                placed =
                    rw (← same_length) (push-IsPlaced ix.slots ix.positions slot v.indexed.placed);
              })))
            λ (items, followed) q. Returns-bind q.0 λ ix' w. returns (
              record { capacity = v.capacity; few = ground (arith, q.1, room); indexed = w },
              refl,
            ))
        (λ full.
          let some_item : 0 < length s.heap.slots = ground (arith, full, some_room) in
          let some_slot : 0 < length ix.slots = omega (arith, same_length, some_item) in
          rw (index-ok ix.slots 0 0 some_slot) (
            Returns-bind
              (replace_root_with-Returns by_count follow
                (λ xs so_far. Returns (IsIndexed keys xs) so_far) (follow-KeptBySwaps keys) item
                s.heap.slots _ some_item
                (returns (record {
                  digests =
                      ap (λ l. set l 0 slot) v.indexed.digests
                      ∙ sym (map-set (digest_of keys) s.heap.slots 0 item);
                  placed = replace-IsPlaced ix.slots ix.positions slot some_slot v.indexed.placed;
                })))
              λ (root, items, followed) q. Returns-bind q.0 λ ix' w. returns (
                record { capacity = v.capacity; few = omega (arith, q.1, v.few); indexed = w },
                refl,
              )))

  accepted_room : (count : ℕ) (s : HhHeap K) → should_accept_new keys count s ≡ true → 0 < s.k
  unfolding should_accept_new
  accepted_room count s accepts = elim (Bool-cases (s.k == 0)) [
    | inl none_fit ↦ absurd (ground (arith, accepts, none_fit))
    | inr some_fit ↦ ground (arith, some_fit)
  ]

  on_found-IsInStep :
      (key : K) (count : ℕ) (s : HhHeap K) (o : Option ℕ)
      → Found keys key s.heap.slots o
      → IsInStep s
      → Returns (λ r. IsInStep r.1 × (r.1.k ≡ s.k)) (on_found keys key count s o)
  unfolding on_found
  on_found-IsInStep key count s (some idx) (Found.present item lt at same) v =
      Returns-bind (rescore-IsInStep idx count s item at v) λ s' w. returns w
  on_found-IsInStep key count s none (Found.absent gone) v =
      Returns-if (should_accept_new keys count s)
        (λ accepts.
          Returns-bind (seat-IsInStep key count s (accepted_room count s accepts) v)
            λ s' w. returns w)
        (λ declines. returns (v, refl))

  -- An update of any key with any count, where the index is in step and equal keys have equal digests,
  -- ends normally with an index in step again, at the same capacity.
  pub update-IsInStep :
      (key : K) (count : ℕ) (s : HhHeap K)
      → AgreesWithDigest
      → IsInStep s
      → Returns (λ r. IsInStep r.1 × (r.1.k ≡ s.k)) (update keys key count s)
  unfolding update find
  update-IsInStep key count s agrees v =
      Returns-bind (find-Found key s agrees v) λ o f. on_found-IsInStep key count s o f v

  pub new-IsInStep : (k : ℕ) → IsInStep (new keys k)
  unfolding new with_capacity
  new-IsInStep k = record {
    capacity = refl;
    few = omega arith;
    indexed = record { digests = refl; placed = λ e i. ground arith };
  }

  pub clear-IsInStep :
      (s : HhHeap K) → IsInStep s → IsInStep (clear keys s) × ((clear keys s).k ≡ s.k)
  unfolding clear
  clear-IsInStep s v = (
    record {
      capacity = v.capacity;
      few = omega arith;
      indexed = record { digests = refl; placed = λ e i. ground arith };
    },
    refl,
  )

  -- From a new heap of any capacity, every stream of keys and counts is taken without a panic, where
  -- equal keys have equal digests: the heap never holds more than its capacity, the digests are those
  -- of its items, slot by slot, and every slot stands in the map under its digest once and under no
  -- other.
  pub updates-IsInStep :
      (k : ℕ) (stream : List (K × ℕ))
      → AgreesWithDigest
      → Returns
          (λ s. IsInStep s × (s.k ≡ k))
          (for_each stream (λ (key, count) s. update keys key count s >>= λ r. ok r.1) (new keys k))
  unfolding new
  updates-IsInStep k stream agrees =
      Returns-for_each (λ seen s. IsInStep s × (s.k ≡ k)) [] stream _ (new keys k)
        (λ seen (key, count) s v.
          Returns-bind (update-IsInStep key count s agrees v.0) λ r w. returns (w.0, w.1 ∙ v.1))
        (new-IsInStep k, refl)
