-- ===== src/Octo.antt =====
-- src/sketches/octo_delta.rs: the promotion threshold that workers share, a u32. Its cell is atomic;
-- a read and a write of it are two steps, and one call after another is what is modelled.
use asap_sketchlib.Prelude.{
  ℕ, ◌+◌, ◌-◌, ◌^◌, ◌≤◌, ◌≡◌, min, max, List, [], ◌∷◌, arith, refl, ltb, ◌==◌, if◌then◌else◌,
}
use asap_sketchlib.CountMin.{max_promask, cm_promask}

-- `clamp(1, MAX_PROMASK)`
abbrev pub clamp : ℕ → ℕ
clamp tau = max 1 (min tau max_promask)

-- `OctoThreshold::new`
unfoldable pub new_threshold : ℕ → ℕ
new_threshold tau = clamp tau

unfoldable pub default_threshold : ℕ
unfolding new_threshold
default_threshold = new_threshold cm_promask

unfoldable pub set_threshold : ℕ → ℕ → ℕ
set_threshold tau current = clamp tau

unfoldable pub increase : ℕ → ℕ → ℕ
unfolding set_threshold
increase step current = set_threshold (min (current + step) (2 ^ 32 - 1)) current

unfoldable pub decrease : ℕ → ℕ → ℕ
unfolding set_threshold
decrease step current = set_threshold (max (current - step) 1) current

-- the calls on a shared threshold
pub data Call : Type 0 where
  setting raising lowering : ℕ → Call

unfoldable pub run_calls : List Call → ℕ → ℕ
unfolding set_threshold increase decrease
run_calls [] current = current
run_calls (Call.setting tau ∷ calls) current = run_calls calls (set_threshold tau current)
run_calls (Call.raising step ∷ calls) current = run_calls calls (increase step current)
run_calls (Call.lowering step ∷ calls) current = run_calls calls (decrease step current)

-- The counter that the calls describe: it rises and falls between 1 and MAX_PROMASK, and stops there.
unfoldable pub saturated : List Call → ℕ → ℕ
saturated [] current = current
saturated (Call.setting tau ∷ calls) current =
    saturated calls (if tau == 0 then 1 else if ltb max_promask tau then max_promask else tau)
saturated (Call.raising step ∷ calls) current =
    saturated calls (if ltb (max_promask - current) step then max_promask else current + step)
saturated (Call.lowering step ∷ calls) current =
    saturated calls (if ltb step current then current - step else 1)

saturates_from :
    (calls : List Call) (current : ℕ)
    → 1 ≤ current
    → current ≤ max_promask
    → (run_calls calls current ≡ saturated calls current)
      × (1 ≤ run_calls calls current)
      × (run_calls calls current ≤ max_promask)
unfolding run_calls set_threshold increase decrease saturated
saturates_from [] current lo hi = (refl, lo, hi)
saturates_from (Call.setting tau ∷ calls) current lo hi =
    let same : clamp tau
        ≡ (if tau == 0 then 1 else if ltb max_promask tau then max_promask else tau) =
      ground arith in
    rw (← same) (saturates_from calls (clamp tau) (omega arith) (omega arith))
saturates_from (Call.raising step ∷ calls) current lo hi =
    let same : clamp (min (current + step) (2 ^ 32 - 1))
        ≡ (if ltb (max_promask - current) step then max_promask else current + step) =
      ground arith in
    rw (← same)
      (saturates_from calls (clamp (min (current + step) (2 ^ 32 - 1))) (omega arith) (omega arith))
saturates_from (Call.lowering step ∷ calls) current lo hi =
    let same : clamp (max (current - step) 1) ≡ (if ltb step current then current - step else 1) =
      ground arith in
    rw (← same) (saturates_from calls (clamp (max (current - step) 1)) (omega arith) (omega arith))

-- From a new threshold, any sequence of calls that set, raise or lower it, one after another, ends at
-- the value of a counter between 1 and MAX_PROMASK: a step up adds the whole step or stops at
-- MAX_PROMASK where it would pass it, a step down takes the whole step off or stops at 1, and a value
-- that is set is the nearest one in the range. The threshold is in the range.
pub run_calls-eq-saturated :
    (tau : ℕ) (calls : List Call)
    → (run_calls calls (new_threshold tau) ≡ saturated (Call.setting tau ∷ calls) 1)
      × (1 ≤ run_calls calls (new_threshold tau))
      × (run_calls calls (new_threshold tau) ≤ max_promask)
unfolding new_threshold saturated
run_calls-eq-saturated tau calls =
    let same : clamp tau
        ≡ (if tau == 0 then 1 else if ltb max_promask tau then max_promask else tau) =
      ground arith in
    rw (← same) (saturates_from calls (clamp tau) (omega arith) (omega arith))
