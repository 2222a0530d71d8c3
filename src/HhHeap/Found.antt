-- ===== src/HhHeap/Found.antt =====
-- The index of the items: it follows every swap, and a key is found where it stands.
use asap_sketchlib.Prelude.{
  ℕ, zero, suc, ◌<◌, ◌≡◌, refl, sym, ap, ◌∙◌, subst, List, [], ◌∷◌, map, arith, true, false,
  Bool-cases, inl, inr, Option, none, some, ◌==◌, ==→eq, ==_refl, Run, ok, index, set, length,
  get_or, index-ok, Returns, returns, Returns-bind, Returns-map, Returns-if,
}
use asap_sketchlib.Heap.{swap}
use asap_sketchlib.Heap.Items.{SwapEnd, swap-inv}
use asap_sketchlib.Heap.Swaps.{KeptBySwaps}
use asap_sketchlib.HhHeap.{KeyOps, HhItem, SlotIndex, swap_entry, follow, first_match, in_bucket}
use asap_sketchlib.HhHeap.Buckets.{times, entries}
use asap_sketchlib.HhHeap.Placed.{IsPlaced, swap-IsPlaced}

pub length-map {ℓ κ} :
    {A : Type ℓ} {B : Type κ} (f : A → B) (xs : List A) → length (map f xs) ≡ length xs
length-map f [] = refl
length-map f (x ∷ xs) = ap suc (length-map f xs)

pub map-set {ℓ κ} :
    {A : Type ℓ} {B : Type κ} (f : A → B) (xs : List A) (i : ℕ) (v : A)
    → map f (set xs i v) ≡ set (map f xs) i (f v)
map-set f [] i v = refl
map-set f (x ∷ xs) zero v = refl
map-set f (x ∷ xs) (suc i) v = ap (λ l. f x ∷ l) (map-set f xs i v)

get_or-map :
    {A : Type 0} (f : A → ℕ) (xs : List A) (i : ℕ) (a : A)
    → i < length xs
    → get_or xs i a ≡ a
    → get_or (map f xs) i 0 ≡ f a
get_or-map f [] i a lt e = absurd (omega arith)
get_or-map f (x ∷ xs) zero a lt e = ap f e
get_or-map f (x ∷ xs) (suc i) a lt e = get_or-map f xs i a (omega arith) e

pub set-same {ℓ} : {A : Type ℓ} (xs : List A) (i : ℕ) (d : A) → set xs i (get_or xs i d) ≡ xs
set-same [] i d = refl
set-same (x ∷ xs) zero d = refl
set-same (x ∷ xs) (suc i) d = ap (λ l. x ∷ l) (set-same xs i d)

module _ {K : Type 0} (keys : KeyOps K) where
  abbrev pub digest_of : HhItem K → ℕ
  digest_of item = keys.digest item.key

  -- The digests are those of the items, and the map places them.
  pub record IsIndexed (items : List (HhItem K)) (ix : SlotIndex) : Type 0 where
    pub digests : ix.slots ≡ map digest_of items
    pub placed : IsPlaced ix.slots ix.positions

  swap_entry-IsIndexed :
      (i j : ℕ) (items items' : List (HhItem K)) (ix : SlotIndex)
      → swap i j items ≡ ok items'
      → IsIndexed items ix
      → Returns (IsIndexed items') (swap_entry i j ix)
  unfolding swap_entry SwapEnd swap
  swap_entry-IsIndexed i j items items' ix run v =
      let (a, b, hi, hj, ga, gb, e) = swap-inv i j items items' run in
      let len : length ix.slots ≡ length items = ap length v.digests ∙ length-map digest_of items in
      let left : get_or ix.slots i 0 ≡ digest_of a =
        ap (λ z. get_or z i 0) v.digests ∙ get_or-map digest_of items i a hi ga in
      let right : get_or ix.slots j 0 ≡ digest_of b =
        ap (λ z. get_or z j 0) v.digests ∙ get_or-map digest_of items j b hj gb in
      let follows : set (set ix.slots i (get_or ix.slots j 0)) j (get_or ix.slots i 0)
          ≡ map digest_of items' =
        rw
          (
            e,
            map-set digest_of (set items i b) j a,
            map-set digest_of items i b,
            left,
            right,
            ← v.digests,
          )
          refl in
      rw
        (
          index-ok ix.slots i 0 (omega (arith, len, hi)),
          index-ok ix.slots j 0 (omega (arith, len, hj)),
        )
        (Returns-if (get_or ix.slots i 0 == get_or ix.slots j 0)
          (λ same.
            let alike : get_or ix.slots i 0 ≡ get_or ix.slots j 0 = ==→eq _ _ same in
            returns (record {
              digests = sym (
                  sym follows
                  ∙ rw alike (
                      ap (λ l. set l j (get_or ix.slots j 0)) (rw (← alike) (set-same ix.slots i 0))
                      ∙ set-same ix.slots j 0));
              placed = v.placed;
            }))
          (λ other. returns (record {
            digests = follows;
            placed =
                swap-IsPlaced ix.slots ix.positions i j (omega (arith, len, hi))
                  (omega (arith, len, hj)) (λ same. ground (arith, same, other)) v.placed;
          })))

  pub follow-KeptBySwaps : KeptBySwaps follow (λ items so_far. Returns (IsIndexed items) so_far)
  follow-KeptBySwaps i j items items' so_far run r =
      Returns-bind r λ ix v. swap_entry-IsIndexed i j items items' ix run v

  -- What a search says: no item has the key, or the one in the slot has it.
  pub data Found (key : K) (items : List (HhItem K)) : Option ℕ → Type 0 where
    absent :
        ((i : ℕ) (item : HhItem K) → index items i ≡ ok item → keys.equal item.key key ≡ false)
        → Found key items none
    present :
        {idx : ℕ} (item : HhItem K)
        → idx < length items
        → index items idx ≡ ok item
        → keys.equal item.key key ≡ true
        → Found key items (some idx)

  -- the same of the positions of a bucket
  pub data FoundIn (key : K) (items : List (HhItem K)) (bucket : List ℕ) : Option ℕ → Type 0 where
    absent_in :
        ((i : ℕ) (item : HhItem K)
          → 0 < times i bucket
          → index items i ≡ ok item
          → keys.equal item.key key ≡ false)
        → FoundIn key items bucket none
    present_in :
        {idx : ℕ} (item : HhItem K)
        → idx < length items
        → index items idx ≡ ok item
        → keys.equal item.key key ≡ true
        → FoundIn key items bucket (some idx)

  index-some :
      {A : Type 0} (xs : List A) (i : ℕ)
      → i < length xs
      → Returns (λ x. index xs i ≡ ok x) (index xs i)
  index-some [] i lt = absurd (omega arith)
  index-some (x ∷ xs) zero lt = returns refl
  index-some (x ∷ xs) (suc i) lt = index-some xs i (omega arith)

  same_item : {A : Type 0} (x y : A) (r : Run A) → r ≡ ok x → r ≡ ok y → x ≡ y
  same_item x y r e e' = cc (e, e')

  one_more :
      (key : K) (items : List (HhItem K)) (idx : ℕ) (rest : List ℕ) (item : HhItem K) (o : Option ℕ)
      → index items idx ≡ ok item
      → keys.equal item.key key ≡ false
      → FoundIn key items rest o
      → FoundIn key items (idx ∷ rest) o
  one_more key items idx rest item none at other (FoundIn.absent_in gone) =
      FoundIn.absent_in λ i item' there e. elim (Bool-cases (idx == i)) [
        | inl here ↦
            subst (λ z. keys.equal z.key key ≡ false)
              (same_item item item' (index items idx) at
                (subst (λ z. index items z ≡ ok item') (sym (==→eq idx i here)) e))
              other
        | inr elsewhere ↦ gone i item' (ground (arith, there, elsewhere)) e
      ]
  one_more key items idx rest item (some i) at other (FoundIn.present_in item' lt e same) =
      FoundIn.present_in item' lt e same

  first_match-FoundIn :
      (key : K) (items : List (HhItem K)) (bucket : List ℕ)
      → ((i : ℕ) → 0 < times i bucket → i < length items)
      → Returns (FoundIn key items bucket) (first_match keys key items bucket)
  unfolding first_match
  first_match-FoundIn key items [] inside =
      returns (FoundIn.absent_in λ i item there e. absurd (omega arith))
  first_match-FoundIn key items (idx ∷ rest) inside =
      let lt : idx < length items = inside idx (ground (arith, ==_refl idx)) in
      Returns-bind (index-some items idx lt) λ item at.
        Returns-if (keys.equal item.key key) (λ same. returns (FoundIn.present_in item lt at same))
          (λ other.
            Returns-map
              (first_match-FoundIn key items rest (λ i there. inside i (ground (arith, there))))
              λ o f. one_more key items idx rest item o at other f)

  pub in_bucket-FoundIn :
      (key : K) (items : List (HhItem K)) (o : Option (List ℕ))
      → ((i : ℕ) → 0 < times i (entries o) → i < length items)
      → Returns (FoundIn key items (entries o)) (in_bucket keys key items o)
  unfolding in_bucket
  in_bucket-FoundIn key items none inside =
      returns (FoundIn.absent_in λ i item there e. absurd (omega arith))
  in_bucket-FoundIn key items (some bucket) inside = first_match-FoundIn key items bucket inside
