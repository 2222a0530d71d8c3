-- ===== src/Hll/Lag.antt =====
-- How far the registers of an aggregator may lag behind its worker's.
use native.Mathlib.Nat.{pow-suc, pow-le-pow_right}
use asap_sketchlib.Prelude.{
  ℕ, ◌-◌, ◌%◌, ◌^◌, ◌<◌, ◌≤◌, ◌≡◌, ◌⊎◌, inl, inr, refl, ok, lt→ltb, min, max, List, [], ◌∷◌, ◌++◌,
  true, false, arith, ltb, leb, ◌==◌, if◌then◌else◌, Bool-cases, ltb→lt, Returns, returns,
  Returns-if, length, get_or, set, get_or-set, index-ok,
}
use asap_sketchlib.Hll.{bucket_num, rank}
use asap_sketchlib.Hll.Rank.{bucket_num-lt, rank_bounds}
use asap_sketchlib.Hll.Registers.{Records, raised-Records, kept-Records, inside}
use asap_sketchlib.Hll.Delta.{HllDelta, pow2_saturating, insert_emit_delta_with_hash_and_threshold}

-- A rise by less than 2 ^ t ends at t or below.
small_rise : (t prev new : ℕ) → prev < new → 2 ^ new - 2 ^ prev < 2 ^ t → new ≤ t
small_rise t prev new lt h = elim (Bool-cases (ltb t new)) [
  | inl above ↦ absurd (
      omega (
        arith,
        pow-le-pow_right {n = 2} (omega arith) lt,
        pow-le-pow_right {n = 2} (omega arith) (ltb→lt t new above),
        pow-suc 2 prev,
        pow-suc 2 t,
      ))
  | inr not_above ↦ ground arith
]

small_promotion :
    (t prev new : ℕ)
    → t ≤ 64
    → prev ≤ 64
    → new ≤ 64
    → prev < new
    → leb (pow2_saturating t) (pow2_saturating new - pow2_saturating prev) ≡ false
    → new ≤ t
unfolding pow2_saturating
small_promotion t prev new a b c lt h = ground (arith, small_rise t prev new lt)

-- the greatest value that the deltas name for a register
unfoldable pub promoted : ℕ → List HllDelta → ℕ
promoted i [] = 0
promoted i (d ∷ ds) = if d.pos == i then max d.value (promoted i ds) else promoted i ds

promoted-append :
    (i : ℕ) (ds es : List HllDelta) → promoted i (ds ++ es) ≡ max (promoted i ds) (promoted i es)
unfolding promoted
promoted-append i [] es = omega arith
promoted-append i (d ∷ ds) es = ground (arith, promoted-append i ds es)

abbrev pub AreInside : ℕ → List HllDelta → Type 0
AreInside n [] = Unit {0}
AreInside n (d ∷ ds) = (d.pos < n) × AreInside n ds

AreInside-append :
    (n : ℕ) (ds es : List HllDelta) → AreInside n ds → AreInside n es → AreInside n (ds ++ es)
AreInside-append n [] es p q = q
AreInside-append n (d ∷ ds) es p q = (p.0, AreInside-append n ds es p.1 q)

-- `low` is up to date with `high`, or `high` is still at most the threshold.
abbrev pub Lags : ℕ → ℕ → ℕ → Type 0
Lags tau low high = (low ≤ high) × ((low ≡ high) ⊎ (high ≤ tau))

module _ (p threshold : ℕ) where
  -- the threshold that the code compares with
  abbrev pub tau : ℕ
  tau = min threshold (64 - p)

  pub record Worker (hs : List ℕ) (w : List ℕ × List HllDelta) : Type 0 where
    pub records : Records p hs w.0
    pub ranks : (i : ℕ) → i < 2 ^ p → get_or w.0 i 0 ≤ 64
    pub lags : (i : ℕ) → i < 2 ^ p → Lags tau (promoted i w.1) (get_or w.0 i 0)
    pub inside : AreInside (2 ^ p) w.1

module _ (p threshold : ℕ) (low : 1 ≤ p) (high : p ≤ 32) where
  few_buckets : 2 ^ p ≤ 2 ^ 32
  few_buckets = pow-le-pow_right {n = 2} (omega arith) high

  module _ (h : ℕ) (hs regs : List ℕ) (out : List HllDelta)
      (w : Worker p threshold hs (regs, out)) where
    b : ℕ
    b = bucket_num p h

    within : bucket_num p h < length regs
    within = inside p h hs regs w.records

    rank_fits : rank p h ≤ 64
    rank_fits = omega (arith, rank_bounds p h (omega arith))

    abbrev raised : List ℕ
    raised = set regs (bucket_num p h) (rank p h)

    module _ (higher : ltb (get_or regs (bucket_num p h) 0) (rank p h) ≡ true) where
      raised-ranks : (i : ℕ) → i < 2 ^ p → get_or raised i 0 ≤ 64
      raised-ranks i lt =
          ground
            (arith, rank_fits, w.ranks i lt, get_or-set regs (bucket_num p h) i (rank p h) 0 within)

      emitted :
          Worker p threshold
            (h ∷ hs)
            (raised, out ++ record { pos = bucket_num p h % 2 ^ 32; value = rank p h } ∷ [])
      unfolding promoted
      emitted = record {
        records = raised-Records p h hs regs w.records higher;
        ranks = raised-ranks;
        lags = λ i lt. ground (
          arith,
          w.lags i lt,
          get_or-set regs (bucket_num p h) i (rank p h) 0 within,
          promoted-append i out (record { pos = bucket_num p h % 2 ^ 32; value = rank p h } ∷ []),
          bucket_num-lt p h,
          few_buckets,
        );
        inside =
            AreInside-append (2 ^ p) out _ w.inside
              (omega (arith, bucket_num-lt p h, few_buckets), tt);
      }

      withheld :
          leb
              (pow2_saturating (tau p threshold))
              (pow2_saturating (rank p h) - pow2_saturating (get_or regs (bucket_num p h) 0))
            ≡ false
          → Worker p threshold (h ∷ hs) (raised, out)
      withheld small =
          let under : rank p h ≤ (tau p threshold) =
            small_promotion (tau p threshold) (get_or regs (bucket_num p h) 0) (rank p h)
              (omega arith) (w.ranks (bucket_num p h) (bucket_num-lt p h)) rank_fits
              (ltb→lt _ _ higher) small in
          record {
            records = raised-Records p h hs regs w.records higher;
            ranks = raised-ranks;
            lags = λ i lt. ground (
              arith,
              w.lags i lt,
              get_or-set regs (bucket_num p h) i (rank p h) 0 within,
              ltb→lt _ _ higher,
              under,
            );
            inside = w.inside;
          }

    pub insert_emit-Worker :
        Returns
          (Worker p threshold (h ∷ hs))
          (insert_emit_delta_with_hash_and_threshold p h threshold (regs, out))
    unfolding insert_emit_delta_with_hash_and_threshold
    insert_emit-Worker = rw (index-ok regs (bucket_num p h) 0 within) (
        Returns-if (ltb (get_or regs (bucket_num p h) 0) (rank p h))
          (λ higher.
            Returns-if
              (leb (pow2_saturating (tau p threshold))
                (pow2_saturating (rank p h) - pow2_saturating (get_or regs (bucket_num p h) 0)))
              (λ big. returns (emitted higher)) (λ small. returns (withheld higher small)))
          (λ not_higher. returns (record {
            records = kept-Records p h hs regs w.records not_higher;
            ranks = w.ranks;
            lags = w.lags;
            inside = w.inside;
          })))

big_rise :
    (t prev new : ℕ)
    → new ≤ 64
    → t < new
    → prev < new
    → leb (pow2_saturating t) (pow2_saturating new - pow2_saturating prev) ≡ true
unfolding pow2_saturating
big_rise t prev new fits lt above = ground (
  arith,
  pow-le-pow_right {n = 2} (omega arith) lt,
  pow-le-pow_right {n = 2} (omega arith) above,
  pow-suc 2 prev,
  pow-suc 2 t,
)

-- Precision 1 to 32: a hash of the greatest rank, 65 - p, that raises its register is stored and handed
-- over at every threshold, those of 64 - p and above included.
promotes-greatest_rank :
    (p threshold h : ℕ) (regs : List ℕ) (out : List HllDelta)
    → 1 ≤ p
    → p ≤ 32
    → length regs ≡ 2 ^ p
    → get_or regs (bucket_num p h) 0 < rank p h
    → rank p h ≡ 65 - p
    → insert_emit_delta_with_hash_and_threshold p h threshold (regs, out)
      ≡ ok (
        set regs (bucket_num p h) (65 - p),
        out ++ record { pos = bucket_num p h; value = 65 - p } ∷ [],
      )
unfolding insert_emit_delta_with_hash_and_threshold
promotes-greatest_rank p threshold h regs out low high long above greatest =
    let within : bucket_num p h < length regs = omega (arith, long, bucket_num-lt p h) in
    let fires =
      big_rise (tau p threshold) (get_or regs (bucket_num p h) 0) (rank p h) (omega arith)
        (omega arith) above in
    let kept : bucket_num p h % 2 ^ 32 ≡ bucket_num p h =
      omega (arith, bucket_num-lt p h, pow-le-pow_right {n = 2} (omega arith) high) in
    rw (index-ok regs (bucket_num p h) 0 within, lt→ltb _ _ above, fires, kept, greatest) refl
