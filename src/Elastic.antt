-- ===== src/Elastic.antt =====
-- src/sketches/elastic.rs: a table of buckets, one flow in each with its votes, over a Count-Min sketch that
-- takes the other flows. An i32 is its bit pattern.
pub mod Light
pub mod Weights
pub mod Holds
pub mod Stream
use mathlib.Core.Logic.{ite}
use asap_sketchlib.Prelude.{
  ℕ, ◌+◌, ◌*◌, ◌%◌, ◌^◌, List, [], ◌∷◌, ◌++◌, Bool, true, false, ◌&&◌, ◌||◌, ltb, ◌==◌,
  if◌then◌else◌, Run, ok, ◌>>=◌, assert, index, store, for_range, length, replicate,
}
use asap_sketchlib.Hasher.{SketchHasher}
use asap_sketchlib.Matrix.Counter.{signed_less, i32_counter}
use asap_sketchlib.CountMin.{CountMin, with_dimensions}
use asap_sketchlib.CountMin.Regular

-- `LAMBDA`
abbrev pub lambda : ℕ
lambda = 8

-- `DEFAULT_LIGHT_ROWS` and `DEFAULT_LIGHT_COLS`
abbrev pub default_light_rows : ℕ
default_light_rows = 3

abbrev pub default_light_cols : ℕ
default_light_cols = 4096

-- `a + b` and `a < b` in i32
abbrev pub add_i32 : ℕ → ℕ → ℕ
add_i32 a b = (a + b) % 2 ^ 32

abbrev pub less_i32 : ℕ → ℕ → Bool
less_i32 a b = signed_less (2 ^ 31) a b

pub record HeavyBucket (K : Type 0) : Type 0 where
  pub flow_id : K
  pub vote_pos : ℕ
  pub vote_neg : ℕ
  pub eviction : Bool

pub record Elastic (K : Type 0) : Type 0 where
  pub heavy : List (HeavyBucket K)
  pub light : CountMin ℕ
  pub bktlen : ℕ
  pub stale_copies : Bool

abbrev pub is_vacant : {K : Type 0} → HeavyBucket K → Bool
is_vacant bucket = bucket.vote_pos == 0

abbrev pub occupy_many : {K : Type 0} → K → ℕ → HeavyBucket K → HeavyBucket K
occupy_many id count bucket = record bucket { flow_id = id; vote_pos = count; vote_neg = 0 }

-- the bucket; the flow that was there is read before
abbrev pub evict_many : {K : Type 0} → K → ℕ → HeavyBucket K → HeavyBucket K
evict_many id count bucket = record bucket {
  flow_id = id;
  vote_pos = count;
  vote_neg = count;
  eviction = true;
}

-- `empty` is the empty string
module _ {K : Type 0} (h : SketchHasher K) (key_eq : Discrete K) (empty : K) where
  abbrev pub new_bucket : HeavyBucket K
  new_bucket = record { flow_id = empty; vote_pos = 0; vote_neg = 0; eviction = false }

  unfoldable pub init_with_dimensions : ℕ → ℕ → ℕ → Run (Elastic K)
  init_with_dimensions bucket_count light_rows light_cols = assert (less_i32 0 bucket_count) (
      assert (ltb 0 light_rows && ltb 0 light_cols) (do
        light ← with_dimensions i32_counter light_rows light_cols
        ok (record {
          heavy = replicate bucket_count new_bucket;
          light = light;
          bktlen = bucket_count;
          stale_copies = false;
        })))

  unfoldable pub init_with_length : ℕ → Run (Elastic K)
  init_with_length l = init_with_dimensions l default_light_rows default_light_cols

  -- the seed is CANONICAL_HASH_SEED of common/hash.rs
  abbrev pub bucket_index : ℕ → K → ℕ
  bucket_index bktlen id = h.hash64_seeded 5 id % bktlen

  unfoldable pub stale_at : ℕ → Elastic K → Run Bool
  stale_at idx self =
      let look : Run Bool = (do
        bucket ← index self.heavy idx
        ok (
            if is_vacant bucket
            then false
            else if bucket_index self.bktlen bucket.flow_id == idx
            then false
            else true)) in
      if self.stale_copies then look else ok false

  unfoldable pub seat_over_stale_copy : ℕ → K → ℕ → Elastic K → Run (Elastic K)
  seat_over_stale_copy idx id count self = do
    heavy ←
        store self.heavy idx
          (record { flow_id = id; vote_pos = count; vote_neg = 0; eviction = true })
    ok (record self { heavy = heavy })

  unfoldable pub spill_one : K → ℕ → Elastic K → Run (Elastic K)
  spill_one id count self = do
    light ← Regular.insert_many i32_counter h id count self.light
    ok (record self { light = light })

  -- a negative vote, and a takeover once there are enough of them
  unfoldable pub vote_against : ℕ → K → ℕ → HeavyBucket K → Elastic K → Run (Elastic K)
  vote_against idx id count bucket self =
      let vote_neg = add_i32 bucket.vote_neg count in
      let outvoted : Run (Elastic K) = (do
        heavy ← store self.heavy idx (record bucket { vote_neg = vote_neg })
        spill_one id count (record self { heavy = heavy })) in
      let takes_over : Run (Elastic K) = (do
        heavy ← store self.heavy idx (evict_many id count bucket)
        spill_one bucket.flow_id bucket.vote_pos (record self { heavy = heavy })) in
      if less_i32 vote_neg (lambda * bucket.vote_pos % 2 ^ 32) then outvoted else takes_over

  unfoldable pub insert_at : ℕ → K → ℕ → Elastic K → Run (Elastic K)
  insert_at idx id count self = do
    bucket ← index self.heavy idx
    let occupied = store self.heavy idx (occupy_many id count bucket) >>= λ heavy.
        ok (record self { heavy = heavy })
    let voted =
        store self.heavy idx (record bucket { vote_pos = add_i32 bucket.vote_pos count })
        >>= λ heavy. ok (record self { heavy = heavy })
    if is_vacant bucket
        then occupied
        else ite (key_eq bucket.flow_id id) voted (vote_against idx id count bucket self)

  unfoldable pub insert_many : K → ℕ → Elastic K → Run (Elastic K)
  insert_many id count self =
      let idx = bucket_index self.bktlen id in
      let arrive : Run (Elastic K) = (do
        stale ← stale_at idx self
        if stale then seat_over_stale_copy idx id count self else insert_at idx id count self) in
      if less_i32 0 count then arrive else ok self

  unfoldable pub insert : K → Elastic K → Run (Elastic K)
  insert id self = insert_many id 1 self

  unfoldable pub query : K → Elastic K → Run ℕ
  query id self = do
    bucket ← index self.heavy (bucket_index self.bktlen id)
    let light = Regular.estimate i32_counter h self.light id
    let both = light >>= λ estimate. ok (add_i32 bucket.vote_pos estimate)
    let resident = if bucket.eviction then both else ok bucket.vote_pos
    if is_vacant bucket then light else ite (key_eq bucket.flow_id id) resident light

  -- the flag of a bucket that still holds the flow
  unfoldable pub flag_resident : ℕ → K → Elastic K → Run (Elastic K)
  flag_resident idx id self = do
    bucket ← index self.heavy idx
    let flagged = store self.heavy idx (record bucket { eviction = true }) >>= λ heavy.
        ok (record self { heavy = heavy })
    if is_vacant bucket then ok self else ite (key_eq bucket.flow_id id) flagged (ok self)

  unfoldable pub merge_heavy : K → ℕ → Bool → Elastic K → Run (Elastic K)
  merge_heavy id votes eviction self =
      let idx = bucket_index self.bktlen id in
      let arrived : Run (Elastic K) = (do
        inserted ← insert_many id votes self
        if eviction then flag_resident idx id inserted else ok inserted) in
      if less_i32 0 votes then arrived else ok self

  unfoldable pub absorb_evicted : K → ℕ → Elastic K → Run (Elastic K)
  absorb_evicted id votes self = do
    spilled ← if less_i32 0 votes then spill_one id votes self else ok self
    flag_resident (bucket_index self.bktlen id) id spilled

  -- the path that drops what is not elected
  unfoldable pub heavy_only_at : ℕ → K → Elastic K → Run (Elastic K)
  heavy_only_at idx id self = do
    bucket ← index self.heavy idx
    let vote_neg = add_i32 bucket.vote_neg 1
    let replaced = λ (b : HeavyBucket K).
        store self.heavy idx b >>= λ heavy. ok (record self { heavy = heavy })
    let against =
        if less_i32 vote_neg (lambda * bucket.vote_pos % 2 ^ 32)
        then replaced (record bucket { vote_neg = vote_neg })
        else replaced (record bucket { flow_id = id; vote_neg = 0 })
    if is_vacant bucket
        then replaced (occupy_many id 1 bucket)
        else ite (key_eq bucket.flow_id id)
            (replaced (record bucket { vote_pos = add_i32 bucket.vote_pos 1 })) against

  unfoldable pub insert_heavy_only : K → Elastic K → Run (Elastic K)
  insert_heavy_only id self = do
    let idx = bucket_index self.bktlen id
    stale ← stale_at idx self
    if stale then seat_over_stale_copy idx id 1 self else heavy_only_at idx id self

  -- the doubled length is checked against i32
  unfoldable pub expand_heavy : Elastic K → Run (Elastic K)
  expand_heavy self = assert (ltb (self.bktlen * 2) (2 ^ 31)) (
      ok (record self {
        heavy = self.heavy ++ self.heavy;
        bktlen = self.bktlen * 2;
        stale_copies = true;
      }))

  unfoldable pub drop_stale_copies : Elastic K → Run (Elastic K)
  drop_stale_copies self =
      let dropped : Run (Elastic K) = (do
        cleared ←
            for_range (length self.heavy) 0
              (λ idx t. do
                stale ← stale_at idx t
                let vacated =
                    store t.heavy idx
                      (record { flow_id = empty; vote_pos = 0; vote_neg = 0; eviction = true })
                    >>= λ heavy. ok (record t { heavy = heavy })
                if stale then vacated else ok t)
              self
        ok (record cleared { stale_copies = false })) in
      if self.stale_copies then dropped else ok self
