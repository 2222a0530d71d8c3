-- ===== src/Heap/Order.antt =====
-- The heap order, for any order on the values, and what a swap of two slots does to a read.
use asap_sketchlib.Prelude.{
  ℕ, zero, suc, ◌<◌, ◌≡◌, ◌≢◌, refl, ◌∙◌, List, true, false, arith, ◌==◌, if◌then◌else◌, ok, set,
  length, length-set, get_or, get_or-set, index-ok,
}
use asap_sketchlib.Heap.{HeapOrder, parent, swap}

-- The laws of an order that the heap can keep: a value is swapped with a child of its own, and not
-- to be swapped is transitive.
pub record IsOrder {T : Type 0} (order : HeapOrder T) : Type 0 where
  pub irrefl : (a : T) → order.should_swap a a ≡ false
  pub asymm : (a b : T) → order.should_swap a b ≡ true → order.should_swap b a ≡ false
  pub trans :
      (a b c : T)
      → order.should_swap a b ≡ false
      → order.should_swap b c ≡ false
      → order.should_swap a c ≡ false
  pub replace : (a b : T) → order.should_replace_root a b ≡ order.should_swap b a

module _ {T : Type 0} (order : HeapOrder T) (d : T) where
  -- The value at `i` may stand above the one at `j`.
  abbrev pub Over : List T → ℕ → ℕ → Type 0
  Over slots i j = order.should_swap (get_or slots i d) (get_or slots j d) ≡ false

  abbrev pub IsHeap : List T → Type 0
  IsHeap slots = (c : ℕ) → 0 < c → c < length slots → Over slots (parent c) c

  -- All edges but the one above `i` are in order, and so are the paths past `i`.
  pub record UpInv (i : ℕ) (slots : List T) : Type 0 where
    pub inside : i < length slots
    pub edges : (c : ℕ) → 0 < c → c < length slots → c ≢ i → Over slots (parent c) c
    pub bridged :
        (c : ℕ) → 0 < c → c < length slots → parent c ≡ i → 0 < i → Over slots (parent i) c

  -- All edges but those below `i` are in order, and so are the paths past `i`.
  pub record DownInv (i : ℕ) (slots : List T) : Type 0 where
    pub edges : (c : ℕ) → 0 < c → c < length slots → parent c ≢ i → Over slots (parent c) c
    pub bridged :
        (c : ℕ) → 0 < c → c < length slots → parent c ≡ i → 0 < i → Over slots (parent i) c

  -- two slots changed round
  abbrev pub swapped : ℕ → ℕ → List T → List T
  swapped i j slots = set (set slots i (get_or slots j d)) j (get_or slots i d)

  pub length-swapped : (i j : ℕ) (slots : List T) → length (swapped i j slots) ≡ length slots
  length-swapped i j slots =
      length-set (set slots i (get_or slots j d)) j (get_or slots i d)
      ∙ length-set slots i (get_or slots j d)

  pub swap-ok :
      (i j : ℕ) (slots : List T)
      → i < length slots
      → j < length slots
      → swap i j slots ≡ ok (swapped i j slots)
  unfolding swap
  swap-ok i j slots hi hj = rw (index-ok slots i d hi, index-ok slots j d hj) refl

  pub get_or-swapped :
      (i j c : ℕ) (slots : List T)
      → i < length slots
      → j < length slots
      → get_or (swapped i j slots) c d ≡ (
          if j == c
          then get_or slots i d
          else if i == c
          then get_or slots j d
          else get_or slots c d)
  get_or-swapped i j c slots hi hj = ground (
    arith,
    get_or-set (set slots i (get_or slots j d)) j c (get_or slots i d) d
        (omega (arith, length-set slots i (get_or slots j d))),
    get_or-set slots i c (get_or slots j d) d hi,
  )

  module _ (law : IsOrder order) where
    above_all :
        (k : ℕ) (slots : List T) (i : ℕ) → IsHeap slots → i < k → i < length slots → Over slots 0 i
    above_all zero slots i h f p = absurd (omega arith)
    above_all (suc k) slots i h f p = ground (
      arith,
      h i,
      above_all k slots (parent i) h,
      law.irrefl (get_or slots 0 d),
      law.trans (get_or slots 0 d) (get_or slots (parent i) d) (get_or slots i d),
    )

    -- The root of a heap may stand above every slot.
    pub root-Over : (slots : List T) (i : ℕ) → IsHeap slots → i < length slots → Over slots 0 i
    root-Over slots i h p = above_all (suc i) slots i h (omega arith) p

    pub swapped-UpInv :
        (i : ℕ) (slots : List T)
        → UpInv i slots
        → 0 < i
        → order.should_swap (get_or slots (parent i) d) (get_or slots i d) ≡ true
        → UpInv (parent i) (swapped (parent i) i slots)
    swapped-UpInv i slots v pos worse =
        let above : parent i < length slots = omega (arith, v.inside) in
        let len = length-swapped (parent i) i slots in
        record {
          inside = omega (arith, len, v.inside);
          edges = λ c p q ne. ground (
            arith,
            len,
            get_or-swapped (parent i) i c slots above v.inside,
            get_or-swapped (parent i) i (parent c) slots above v.inside,
            v.edges c,
            v.bridged c,
            law.asymm (get_or slots (parent i) d) (get_or slots i d) worse,
            law.trans (get_or slots i d) (get_or slots (parent i) d) (get_or slots c d),
          );
          bridged = λ c p q e up. ground (
            arith,
            len,
            get_or-swapped (parent i) i c slots above v.inside,
            get_or-swapped (parent i) i (parent (parent i)) slots above v.inside,
            v.edges c,
            v.edges (parent i),
            law.trans (get_or slots (parent (parent i)) d) (get_or slots (parent i) d)
                (get_or slots c d),
          );
        }

    -- The target of a step down, among the children of `i`.
    abbrev pub Best : ℕ → ℕ → List T → Type 0
    Best i t slots = (c : ℕ) → 0 < c → c < length slots → parent c ≡ i → Over slots t c

    pub swapped-DownInv :
        (i t : ℕ) (slots : List T)
        → DownInv i slots
        → t < length slots
        → 0 < t
        → parent t ≡ i
        → order.should_swap (get_or slots i d) (get_or slots t d) ≡ true
        → Best i t slots
        → DownInv t (swapped i t slots)
    swapped-DownInv i t slots v inside pos child worse best =
        let above : i < length slots = omega arith in
        let len = length-swapped i t slots in
        record {
          edges = λ c p q ne. ground (
            arith,
            len,
            get_or-swapped i t c slots above inside,
            get_or-swapped i t (parent c) slots above inside,
            v.edges c,
            v.bridged t,
            best c,
            law.asymm (get_or slots i d) (get_or slots t d) worse,
          );
          bridged = λ c p q e up. ground (
            arith,
            len,
            get_or-swapped i t c slots above inside,
            get_or-swapped i t (parent t) slots above inside,
            v.edges c,
          );
        }
