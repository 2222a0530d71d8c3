-- ===== src/Eh.antt =====
-- src/sketch_framework/eh.rs: the exponential histogram with the L1 rule, over any sketch whose merge
-- may be refused. The mass of the L2 rule is a float and is left out. `same as f64 >= k as f64 / 2.0 +
-- 2.0` is `2 * same >= k + 4`, which floats compute exactly for counts below 2 ^ 53.
pub mod Sizes
use asap_sketchlib.Prelude.{
  ℕ, zero, suc, ◌+◌, ◌-◌, ◌*◌, ◌%◌, ◌^◌, min, max, List, [], ◌∷◌, ◌++◌, Bool, true, false, ◌&&◌,
  Option, none, some, ltb, leb, ◌==◌, if◌then◌else◌, Run, ok, ◌>>=◌, index, length,
}

pub record EhBucket (S : Type 0) : Type 0 where
  pub bucket : S
  pub size : ℕ
  pub min_time : ℕ
  pub max_time : ℕ

pub record ExponentialHistogram (S : Type 0) : Type 0 where
  pub payload : List (EhBucket S)
  pub window : ℕ
  pub k : ℕ
  pub type_to_clone : S

unfoldable pub new : {S : Type 0} → ℕ → ℕ → S → ExponentialHistogram S
new k window eh_type = record {
  payload = [];
  window = window;
  k = max k 1;
  type_to_clone = eh_type;
}

-- the buckets that `take_while` counts are dropped
unfoldable pub drop_expired : {S : Type 0} → ℕ → List (EhBucket S) → List (EhBucket S)
drop_expired oldest [] = []
drop_expired oldest (b ∷ bs) =
    let rest = drop_expired oldest bs in if ltb b.max_time oldest then rest else b ∷ bs

module _ {S : Type 0} (merge : S → S → Option S) where
  unfoldable pub merged_bucket : EhBucket S → EhBucket S → Option S → Option (EhBucket S)
  merged_bucket self other none = none
  merged_bucket self other (some s) = some (record {
    bucket = s;
    size = (self.size + other.size) % 2 ^ 64;
    min_time = min self.min_time other.min_time;
    max_time = max self.max_time other.max_time;
  })

  unfoldable pub to_merge : EhBucket S → EhBucket S → Option (EhBucket S)
  unfolding merged_bucket
  to_merge self other = merged_bucket self other (merge self.bucket other.bucket)

  -- the first two buckets in one, or a refusal that keeps both
  unfoldable pub join_first :
      EhBucket S → EhBucket S → List (EhBucket S) → Option (EhBucket S) → Bool × List (EhBucket S)
  join_first a b rest none = (false, a ∷ b ∷ rest)
  join_first a b rest (some c) = (true, c ∷ rest)

  -- whether the merge was accepted, with the buckets; an index at the end changes nothing
  unfoldable pub merge_at_index : ℕ → List (EhBucket S) → Bool × List (EhBucket S)
  unfolding to_merge join_first
  merge_at_index i [] = (true, [])
  merge_at_index i (a ∷ []) = (true, a ∷ [])
  merge_at_index zero (a ∷ b ∷ rest) = join_first a b rest (to_merge a b)
  merge_at_index (suc i) (a ∷ b ∷ rest) =
      let (accepted, rest') = merge_at_index i (b ∷ rest) in (accepted, a ∷ rest')

  abbrev pub is_due : ℕ → ℕ → Bool
  is_due k same = leb (k + 4) (2 * same)

  -- The run that ends between bucket `i` and the next is merged when it is long enough.
  unfoldable pub end_run : ℕ → ℕ → ℕ → List (EhBucket S) → Bool × List (EhBucket S)
  unfolding merge_at_index
  end_run k i same payload =
      if is_due k same then merge_at_index (suc i) payload else (true, payload)

  -- the run that starts after it
  unfoldable pub restart : ℕ → List (EhBucket S) → Run ℕ
  restart i payload =
      let inspect = (do
        newer ← index payload (suc i)
        older ← index payload i
        ok (if newer.size == older.size then 2 else 1)) in
      if ltb (suc i) (length payload) && ltb 0 i then inspect else ok 1

  -- the body of the loop: whether all merges were accepted, the run and the buckets
  unfoldable pub l1_step : ℕ → ℕ → ℕ → List (EhBucket S) → Run (Bool × ℕ × List (EhBucket S))
  unfolding end_run restart
  l1_step k i same payload = do
    older ← index payload i
    newer ← index payload (suc i)
    let (accepted, payload') = end_run k i same payload
    let new_run = restart i payload' >>= λ same'. ok (accepted, same', payload')
    if older.size == newer.size
        then ok (true, suc same, payload)
        else if accepted
        then new_run
        else ok (false, same, payload')

  -- the loop from bucket `i` down to the first
  unfoldable pub l1_loop : ℕ → ℕ → ℕ → List (EhBucket S) → Run (Bool × ℕ × List (EhBucket S))
  unfolding l1_step
  l1_loop k zero same payload = l1_step k 0 same payload
  l1_loop k (suc i) same payload = do
    (accepted, same', payload') ← l1_step k (suc i) same payload
    let rest = l1_loop k i same' payload'
    if accepted then rest else ok (false, same', payload')

  unfoldable pub merge_volumes_l1 : ℕ → List (EhBucket S) → Run (Bool × List (EhBucket S))
  unfolding l1_loop merge_at_index
  merge_volumes_l1 k payload =
      let merged = (do
        (accepted, same, payload') ← l1_loop k (length payload - 2) 1 payload
        ok (
            if accepted && leb 2 (length payload') && is_due k same
            then merge_at_index 0 payload'
            else (accepted, payload'))) in
      if ltb (length payload) 2 then ok (true, payload) else merged

  unfoldable pub update_with : ℕ → (S → S) → ExponentialHistogram S → Run (ExponentialHistogram S)
  unfolding drop_expired merge_volumes_l1
  update_with time update_fn self = do
    let live = drop_expired (time - self.window) self.payload
    (accepted, payload) ← merge_volumes_l1 self.k (
        live
        ++ record {
          bucket = update_fn self.type_to_clone;
          size = 1;
          min_time = time;
          max_time = time;
        }
          ∷ [])
    ok (record self { payload = payload })

unfoldable pub last_max : {S : Type 0} → EhBucket S → List (EhBucket S) → ℕ
last_max b [] = b.max_time
last_max b (c ∷ cs) = last_max c cs

unfoldable pub cover_from : {S : Type 0} → ℕ → ℕ → List (EhBucket S) → Bool
unfolding last_max
cover_from mint maxt [] = false
cover_from mint maxt (b ∷ bs) = leb maxt (last_max b bs) && leb b.min_time mint

unfoldable pub cover : {S : Type 0} → ℕ → ℕ → ExponentialHistogram S → Bool
unfolding cover_from
cover mint maxt self = cover_from mint maxt self.payload
