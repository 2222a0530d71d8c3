-- ===== src/Coco.antt =====
-- src/sketches/coco.rs: the CocoSketch, which elects one key for each bucket. What it draws from the
-- generator of the crate rand, and the comparison of floats that uses the draw, are parameters.
pub mod Total
use asap_sketchlib.Prelude.{
  ℕ, zero, suc, ◌+◌, ◌-◌, ◌*◌, ◌%◌, ◌^◌, List, [], ◌∷◌, ◌++◌, Bool, true, false, ◌||◌, Option, none,
  some, ltb, ◌==◌, if◌then◌else◌, Run, ok, ◌>>=◌, assert, index, store, for_range, replicate,
}
use asap_sketchlib.Hasher.{SketchHasher}

pub record CocoBucket (K : Type 0) : Type 0 where
  pub full_key : Option K
  pub val : ℕ

-- the table in its rows, one after another
pub record Coco (K : Type 0) : Type 0 where
  pub w : ℕ
  pub d : ℕ
  pub table : List (CocoBucket K)

-- the draws of one insertion
pub record Draws : Type 0 where
  -- in a row, whether the n-th tie takes the slot
  pub takes : ℕ → ℕ → Bool
  -- `v as f64 > draw * val as f64`
  pub elects : ℕ → ℕ → Bool

-- the bucket with the least value so far, and the number of buckets that tie for it
pub record Victim : Type 0 where
  pub row : ℕ
  pub col : ℕ
  pub least : ℕ
  pub tied : ℕ

-- where the scan of the rows ends
pub data Scan : Type 0 where
  matched : ℕ → ℕ → Scan
  no_match : Victim → Scan

abbrev pub no_victim : Victim
no_victim = record { row = 0; col = 0; least = 2 ^ 64 - 1; tied = 0 }

-- the victim after one more bucket
unfoldable pub consider : Draws → ℕ → ℕ → ℕ → Victim → Victim
consider draws row col val best =
    if ltb val best.least
    then record { row = row; col = col; least = val; tied = 1 }
    else if val == best.least
    then (if draws.takes row (best.tied + 1)
        then record { row = row; col = col; least = best.least; tied = best.tied + 1 }
        else record best { tied = best.tied + 1 })
    else best

-- `Vector2D::from_fn` takes the logarithm of the width, which panics on 0
unfoldable pub init_with_size : {K : Type 0} → ℕ → ℕ → Run (Coco K)
init_with_size w d =
    assert (ltb 0 w) (
      ok (record { w = w; d = d; table = replicate (d * w) (record { full_key = none; val = 0 }) }))

-- `add_v`, and the same sum in `insert`
unfoldable pub add_v : {K : Type 0} → ℕ → CocoBucket K → CocoBucket K
add_v v bucket = record bucket { val = (bucket.val + v) % 2 ^ 64 }

unfoldable pub update_key : {K : Type 0} → K → CocoBucket K → CocoBucket K
update_key key bucket = record bucket { full_key = some key }

module _ {K : Type 0} (same : K → K → Bool) (h : SketchHasher K) where
  unfoldable pub holds : K → Option K → Bool
  holds key none = false
  holds key (some k) = same k key

  abbrev pub column : ℕ → K → ℕ → ℕ
  column w key i = h.hash64_seeded i key % w

  -- the `n` rows from `i` on, with the victim so far
  unfoldable pub scan : Draws → K → Coco K → ℕ → ℕ → Victim → Run Scan
  unfolding consider
  scan draws key self zero i best = ok (Scan.no_match best)
  scan draws key self (suc n) i best = do
    let idx = column self.w key i
    bucket ← index self.table (i * self.w + idx)
    let rest = scan draws key self n (suc i) (consider draws i idx bucket.val best)
    if holds key bucket.full_key then ok (Scan.matched i idx) else rest

  unfoldable pub is_elected : Draws → ℕ → ℕ → Option K → Bool
  is_elected draws v val none = true
  is_elected draws v val (some k) = draws.elects v val

  -- `self.table[row][col]` after the change
  unfoldable pub change_bucket : ℕ → ℕ → (CocoBucket K → CocoBucket K) → Coco K → Run (Coco K)
  change_bucket row col change self = do
    bucket ← index self.table (row * self.w + col)
    table ← store self.table (row * self.w + col) (change bucket)
    ok (record self { table = table })

  abbrev pub elect : Draws → K → ℕ → CocoBucket K → CocoBucket K
  elect draws key v bucket =
      let grown = add_v v bucket in
      if is_elected draws v grown.val bucket.full_key then update_key key grown else grown

  unfoldable pub write_at : Draws → K → ℕ → Coco K → Scan → Run (Coco K)
  unfolding change_bucket
  write_at draws key v self (Scan.matched row col) = change_bucket row col (add_v v) self
  write_at draws key v self (Scan.no_match best) =
      change_bucket best.row best.col (elect draws key v) self

  unfoldable pub insert : Draws → K → ℕ → Coco K → Run (Coco K)
  unfolding scan write_at
  insert draws key v self =
      let written = scan draws key self self.d 0 no_victim >>= write_at draws key v self in
      if (self.d == 0) || (self.w == 0) then ok self else written

  unfoldable pub estimate_key : Coco K → K → Run ℕ
  estimate_key self key =
      let sum =
        for_range self.d 0
          (λ i total. do
            bucket ← index self.table (i * self.w + column self.w key i)
            ok (if holds key bucket.full_key then (total + bucket.val) % 2 ^ 64 else total))
          0 in
      if (self.d == 0) || (self.w == 0) then ok 0 else sum

  -- a key of the other table, with its value, or nothing to insert
  unfoldable pub insert_key : Draws → Option K → ℕ → Coco K → Run (Coco K)
  unfolding insert
  insert_key draws none val self = ok self
  insert_key draws (some k) val self = insert draws k val self

  unfoldable pub merge : (ℕ → ℕ → Draws) → Coco K → Coco K → Run (Coco K)
  unfolding insert_key
  merge draws self other = assert (self.d == other.d) (
      assert (self.w == other.w) (
        for_range self.d 0
          (λ i t.
            for_range self.w 0
              (λ j t'. do
                bucket ← index other.table (i * other.w + j)
                insert_key (draws i j) bucket.full_key bucket.val t')
              t)
          self))

-- `recorded_flows`, row after row
unfoldable pub flow_of : {K : Type 0} → Option K → ℕ → List (K × ℕ) → List (K × ℕ)
flow_of none val flows = flows
flow_of (some k) val flows = (k, val) ∷ flows

unfoldable pub recorded_flows : {K : Type 0} → List (CocoBucket K) → List (K × ℕ)
unfolding flow_of
recorded_flows [] = []
recorded_flows (b ∷ bs) = flow_of b.full_key b.val (recorded_flows bs)

-- the sum over the flows whose key the test accepts, as `estimate_with_udf` and `estimate_projected`
unfoldable pub sum_flows : {K : Type 0} → (K → Bool) → List (K × ℕ) → ℕ
sum_flows accepts [] = 0
sum_flows accepts ((k, val) ∷ flows) =
    let rest = sum_flows accepts flows in if accepts k then (val + rest) % 2 ^ 64 else rest

unfoldable pub estimate_with_udf : {K P : Type 0} → (K → P → Bool) → P → Coco K → ℕ
unfolding recorded_flows sum_flows
estimate_with_udf udf partial_key self =
    sum_flows (λ full. udf full partial_key) (recorded_flows self.table)

unfoldable pub estimate_projected : {K P : Type 0} → (P → P → Bool) → (K → P) → P → Coco K → ℕ
unfolding recorded_flows sum_flows
estimate_projected equal project partial_key self =
    sum_flows (λ full. equal (project full) partial_key) (recorded_flows self.table)
