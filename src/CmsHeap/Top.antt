-- ===== src/CmsHeap/Top.antt =====
-- What the heap of a top-k sketch holds, against the stream of its sketch.
use mathlib.Core.Logic.{if_neg}
use asap_sketchlib.Prelude.{
  ℕ, ◌+◌, ◌<◌, ◌≤◌, ◌≡◌, ◌≢◌, refl, sym, ap, ◌∙◌, List, [], ◌∷◌, arith, Bool, true, false,
  Bool-cases, inl, inr, ◌||◌, if◌then◌else◌, ltb, length,
}
use asap_sketchlib.CountMin.Bounds
use asap_sketchlib.CountMin.Bounds.{total}
use asap_sketchlib.Heap.Items.{one_if, count}
use asap_sketchlib.HhHeap.{KeyOps, HhItem, HhHeap}
use asap_sketchlib.HhHeap.Contents.{has, Updated, AreItems}

count-le :
    {T : Type 0} (q a b : T → Bool) (xs : List T)
    → ((x : T) → one_if (q x) ≤ one_if (a x) + one_if (b x))
    → count q xs ≤ count a xs + count b xs
count-le q a b [] h = omega arith
count-le q a b (x ∷ xs) h = omega (arith, h x, count-le q a b xs h)

count-same :
    {T : Type 0} (a b : T → Bool) (xs : List T) → ((x : T) → a x ≡ b x) → count a xs ≡ count b xs
count-same a b [] h = refl
count-same a b (x ∷ xs) h = omega (arith, ap one_if (h x), count-same a b xs h)

module _ {K : Type 0} (keys : KeyOps K) where
  -- The test for equality finds equal keys only, and each key equal to itself.
  pub record IsKeyEquality : Type 0 where
    pub sound : (a b : K) → keys.equal a b ≡ true → a ≡ b
    pub reflexive : (a : K) → keys.equal a a ≡ true

  -- how often a key occurs
  abbrev pub occurs : K → List K → ℕ
  occurs y seen = count (λ z. keys.equal z y) seen

module _ {K : Type 0} (key_eq : Discrete K) (keys : KeyOps K) where
  -- The count of the item is below the weight of its key, or above the weight of the stream.
  unfoldable pub misjudged : List (K × ℕ) → HhItem K → Bool
  misjudged ws item = ltb item.count (Bounds.count key_eq item.key ws) || ltb (total ws) item.count

  -- The items of a heap of capacity `k`, against the stream of the sketch and the keys that were entered:
  -- no key has two items, no count is misjudged, only entered keys have items, and all of them do unless
  -- the heap is full.
  pub record Reports (ws : List (K × ℕ)) (seen : List K) (k : ℕ) (items : List (HhItem K))
      : Type 0 where
    pub distinct : (y : K) → count (has keys y) items ≤ 1
    pub judged : count (misjudged ws) items ≡ 0
    pub entered : (y : K) → 0 < count (has keys y) items → 0 < occurs keys y seen
    pub complete :
        length items < k → (y : K) → 0 < occurs keys y seen → 0 < count (has keys y) items

  unfoldable pub misjudged_other : K → List (K × ℕ) → HhItem K → Bool
  misjudged_other x ws item = if keys.equal item.key x then false else misjudged ws item

  -- the same, where the counts of the items of `x` may be out of date
  pub record Before (x : K) (ws : List (K × ℕ)) (seen : List K) (k : ℕ) (items : List (HhItem K))
      : Type 0 where
    pub distinct : (y : K) → count (has keys y) items ≤ 1
    pub judged : count (misjudged_other x ws) items ≡ 0
    pub entered : (y : K) → 0 < count (has keys y) items → 0 < occurs keys y seen
    pub complete :
        length items < k → (y : K) → 0 < occurs keys y seen → 0 < count (has keys y) items

  module _ (law : IsKeyEquality keys) (x : K) (e : ℕ) (ws : List (K × ℕ)) (seen : List K)
      (above : Bounds.count key_eq x ws ≤ e) (below : e ≤ total ws) where
    -- an item of the key that is entered with its estimate
    entry-judged : (item : HhItem K) → item.key ≡ x → item.count ≡ e → misjudged ws item ≡ false
    unfolding misjudged
    entry-judged item same given =
        let weight = ap (λ z. Bounds.count key_eq z ws) same in
        ground (arith, weight, given, above, below)

    has-entry : (item : HhItem K) (y : K) → item.key ≡ x → has keys y item ≡ keys.equal x y
    unfolding has
    has-entry item y same = ap (λ z. keys.equal z y) same

    others-judged :
        (items rest : List (HhItem K))
        → count (misjudged_other x ws) items ≡ 0
        → ((q : HhItem K → Bool) → count q rest ≤ count q items)
        → count (has keys x) rest ≡ 0
        → count (misjudged ws) rest ≡ 0
    unfolding misjudged_other has
    others-judged items rest judged fewer gone = omega (
      arith,
      fewer (misjudged_other x ws),
      judged,
      gone,
      count-le (misjudged ws) (misjudged_other x ws) (has keys x) rest λ item. ground arith,
    )

    -- where `x` has the one new item, and no other
    entered-Reports :
        (k : ℕ) (items rest items' : List (HhItem K)) (item : HhItem K)
        → Before x ws seen k items
        → item.key ≡ x
        → item.count ≡ e
        → count (has keys x) rest ≡ 0
        → ((q : HhItem K → Bool) → count q rest ≤ count q items)
        → AreItems keys items' item rest
        → (length items' < k
            → (y : K) → 0 < count (has keys y) items
            → 0 < one_if (keys.equal x y) + count (has keys y) rest)
        → length items ≤ length items'
        → Reports ws (x ∷ seen) k items'
    entered-Reports k items rest items' item b same given gone fewer are keeps longer = record {
      distinct = λ y. elim (Bool-cases (keys.equal x y)) [
        | inl equal ↦
            let none_more : count (has keys y) rest ≡ 0 =
              ap (λ z. count (has keys z) rest) (sym (law.sound x y equal)) ∙ gone in
            ground (arith, are.1 (has keys y), none_more)
        | inr other ↦
            let not_this = has-entry item y same ∙ other in
            ground (arith, are.1 (has keys y), not_this, fewer (has keys y), b.distinct y)
      ];
      judged =
          let this = entry-judged item same given in
          let others = others-judged items rest b.judged fewer gone in
          ground (arith, are.1 (misjudged ws), this, others);
      entered = λ y some.
          let this = has-entry item y same in
          ground (arith, are.1 (has keys y), this, fewer (has keys y), b.entered y, some);
      complete = λ room y among.
          let this = has-entry item y same in
          elim (Bool-cases (keys.equal x y)) [
            | inl equal ↦ ground (arith, are.1 (has keys y), this, equal)
            | inr other ↦
                let before =
                  b.complete (omega (arith, room, longer)) y (ground (arith, among, other)) in
                ground (arith, are.1 (has keys y), this, keeps room y before)
          ];
    }

    -- An update with the estimate of `x`.
    pub Updated-Reports :
        (s s' : HhHeap K)
        → Before x ws seen s.k s.heap.slots
        → Updated keys x e s s'
        → Reports ws (x ∷ seen) s.k s'.heap.slots
    Updated-Reports s s' b (Updated.rescored old rest equal are are') =
        let same = law.sound old.key x equal in
        entered-Reports s.k s.heap.slots rest s'.heap.slots _ b same refl
          (let this = has-entry old x same ∙ law.reflexive x in
            ground (arith, are.1 (has keys x), this, b.distinct x))
          (λ q. omega (arith, are.1 q)) are'
          (λ less y some.
            let this = has-entry old y same in ground (arith, are.1 (has keys y), this, some))
          (omega (arith, are.0, are'.0))
    Updated-Reports s s' b (Updated.added gone room are') =
        entered-Reports s.k s.heap.slots s.heap.slots s'.heap.slots _ b refl refl gone
          (λ q. omega arith) are' (λ less y some. omega (arith, some)) (omega (arith, are'.0))
    Updated-Reports s s' b (Updated.replaced root rest gone full at better are are') =
        entered-Reports s.k s.heap.slots rest s'.heap.slots _ b refl refl
          (omega (arith, are.1 (has keys x), gone)) (λ q. omega (arith, are.1 q)) are'
          (λ less y some. absurd (omega (arith, less, full, are.0, are'.0)))
          (omega (arith, are.0, are'.0))
    Updated-Reports s s' b (Updated.refused gone full why same) = rw same (record {
      distinct = b.distinct;
      judged = others-judged s.heap.slots s.heap.slots b.judged (λ q. omega arith) gone;
      entered = λ y some. omega (arith, b.entered y some);
      complete = λ room y among. absurd (omega (arith, room, full));
    })

  -- One more weight for `x` leaves the other items as they were judged.
  pub stale-Before :
      (x : K) (w : ℕ) (ws : List (K × ℕ)) (seen : List K) (k : ℕ) (items : List (HhItem K))
      → IsKeyEquality keys
      → Reports ws seen k items
      → Before x ((x, w) ∷ ws) seen k items
  unfolding misjudged_other misjudged
  stale-Before x w ws seen k items law r = record {
    distinct = r.distinct;
    judged = omega (
      arith,
      r.judged,
      count-le (misjudged_other x ((x, w) ∷ ws)) (misjudged ws) (misjudged ws) items λ item.
          elim (Bool-cases (keys.equal item.key x)) [
            | inl equal ↦ ground (arith, equal)
            | inr other ↦
                let differs : x ≢ item.key = λ e.
                  let found = ap (λ z. keys.equal z x) (sym e) ∙ law.reflexive x in
                  ground (arith, other, found) in
                ground (
                  arith,
                  other,
                  if_neg (key_eq x item.key) differs (w + Bounds.count key_eq item.key ws)
                      (Bounds.count key_eq item.key ws),
                )
          ],
    );
    entered = r.entered;
    complete = r.complete;
  }

  pub fresh-Before :
      (x : K) (ws : List (K × ℕ)) (seen : List K) (k : ℕ) (items : List (HhItem K))
      → Reports ws seen k items
      → Before x ws seen k items
  unfolding misjudged_other
  fresh-Before x ws seen k items r = record {
    distinct = r.distinct;
    judged = omega (
      arith,
      r.judged,
      count-le (misjudged_other x ws) (misjudged ws) (misjudged ws) items λ item. ground arith,
    );
    entered = r.entered;
    complete = r.complete;
  }

  pub empty-Reports : (ws : List (K × ℕ)) (k : ℕ) → Reports ws [] k []
  empty-Reports ws k = record {
    distinct = λ y. omega arith;
    judged = refl;
    entered = λ y some. some;
    complete = λ room y among. among;
  }

  -- The reports do not depend on the order of the stream and of the entered keys.
  pub Reports-same :
      (ws ws' : List (K × ℕ)) (seen seen' : List K) (k : ℕ) (items : List (HhItem K))
      → ((y : K) → Bounds.count key_eq y ws ≡ Bounds.count key_eq y ws')
      → total ws ≡ total ws'
      → ((y : K) → occurs keys y seen ≡ occurs keys y seen')
      → Reports ws seen k items
      → Reports ws' seen' k items
  unfolding misjudged
  Reports-same ws ws' seen seen' k items counts sums occur r = record {
    distinct = r.distinct;
    judged =
        count-same (misjudged ws') (misjudged ws) items
          (λ item. let weight = counts item.key in ground (arith, weight, sums))
        ∙ r.judged;
    entered = λ y some. omega (arith, r.entered y some, occur y);
    complete = λ room y among. r.complete room y (omega (arith, among, occur y));
  }
