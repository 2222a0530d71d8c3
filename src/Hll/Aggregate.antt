-- ===== src/Hll/Aggregate.antt =====
-- A HyperLogLog worker and its aggregator together.
use asap_sketchlib.Prelude.{
  ℕ, ◌^◌, ◌<◌, ◌≤◌, ◌≡◌, sym, ap, ◌∙◌, max, List, [], ◌∷◌, arith, ltb, Run, ok, ◌>>=◌, for_each,
  Returns, returns, Returns-bind, Returns-map, Returns-inv, Returns-if, Returns-for_each,
  reverse_aux, length, get_or, length-set, get_or-set, get_or_ext, index-ok,
}
use asap_sketchlib.Hll.{zeroed_registers}
use asap_sketchlib.Hll.Registers.{peak, zeroed-Records, build, build-Records}
use asap_sketchlib.Hll.Delta.{
  HllDelta, insert_emit_delta_with_hash_and_threshold, apply_delta, apply_deltas,
}
use asap_sketchlib.Hll.Lag.{promoted, AreInside, Lags, tau, Worker, insert_emit-Worker}

-- The registers hold the greater of what they held and what was promoted.
abbrev Received : ℕ → (ℕ → ℕ) → List HllDelta → List ℕ → Type 0
Received p before ds regs =
    (length regs ≡ 2 ^ p) × ((i : ℕ) → i < 2 ^ p → get_or regs i 0 ≡ max (before i) (promoted i ds))

apply_delta-Received :
    (p : ℕ) (before : ℕ → ℕ) (d : HllDelta) (regs : List ℕ)
    → d.pos < 2 ^ p
    → Received p before [] regs
    → Returns (Received p before (d ∷ [])) (apply_delta d regs)
unfolding apply_delta promoted
apply_delta-Received p before d regs lt r =
    let inside : d.pos < length regs = omega (arith, r.0) in
    rw (index-ok regs d.pos 0 inside) (
      Returns-if (ltb (get_or regs d.pos 0) d.value)
        (λ higher. returns (
          length-set regs d.pos d.value ∙ r.0,
          λ i p. ground (arith, get_or-set regs d.pos i d.value 0 inside, r.1 i p, r.1 d.pos lt),
        ))
        (λ not_higher. returns (r.0, λ i p. ground (arith, r.1 i p, r.1 d.pos lt))))

apply_deltas-Received :
    (p : ℕ) (before : ℕ → ℕ) (ds : List HllDelta) (regs : List ℕ)
    → AreInside (2 ^ p) ds
    → Received p before [] regs
    → Returns (Received p before ds) (apply_deltas ds regs)
unfolding apply_deltas for_each promoted
apply_deltas-Received p before [] regs inside r = returns r
apply_deltas-Received p before (d ∷ ds) regs inside r =
    Returns-bind (apply_delta-Received p before d regs inside.0 r) λ t u.
      Returns-map
        (apply_deltas-Received p (λ i. max (before i) (promoted i (d ∷ []))) ds t inside.1
          (u.0, λ i lt. ground (arith, u.1 i lt)))
        λ v w. (w.0, λ i lt. ground (arith, w.1 i lt))

-- a worker over a stream of hashes, then the aggregator
abbrev pub aggregate : ℕ → ℕ → List ℕ → Run (List ℕ)
aggregate p threshold hashes = do
  (left, deltas) ←
      for_each hashes (λ h w. insert_emit_delta_with_hash_and_threshold p h threshold w)
        (zeroed_registers p, [])
  apply_deltas deltas (zeroed_registers p)

module _ (p threshold : ℕ) (low : 1 ≤ p) (high : p ≤ 32) (hashes : List ℕ) where
  aggregate_follows :
      Returns
        (λ parent.
          (length parent ≡ 2 ^ p)
          × ((i : ℕ)
              → i < 2 ^ p
              → Lags (tau p threshold) (get_or parent i 0) (peak p i (reverse_aux hashes []))))
        (aggregate p threshold hashes)
  unfolding promoted peak
  aggregate_follows =
      Returns-bind
        (Returns-for_each (Worker p threshold) [] hashes _ (zeroed_registers p, [])
          (λ ys h (regs, out) w. insert_emit-Worker p threshold low high h ys regs out w)
          (record {
            records = zeroed-Records p;
            ranks = λ i lt. omega (arith, (zeroed-Records p).cells i lt);
            lags = λ i lt. ground (arith, (zeroed-Records p).cells i lt);
            inside = tt;
          }))
        λ (left, deltas) w.
          Returns-map
            (apply_deltas-Received p (λ i. 0) deltas (zeroed_registers p) w.inside
              ((zeroed-Records p).size, λ i lt. omega (arith, (zeroed-Records p).cells i lt)))
            λ parent r. (r.0, λ i lt. ground (arith, r.1 i lt, w.lags i lt, w.records.cells i lt))

  -- Precision 1 to 32: after a worker and its aggregator have seen the stream, both from new
  -- registers, no call panics, and each register of the aggregator is at most the single-threaded
  -- sketch's register; it differs from it only where the latter is at most the threshold (capped at
  -- 64 - p). Any threshold is allowed: at 64 - p and above, a register that reaches 65 - p is handed over.
  pub aggregate-Lags :
      (i : ℕ)
      → i < 2 ^ p
      → Returns
          (λ (parent, single). Lags (tau p threshold) (get_or parent i 0) (get_or single i 0))
          (do parent ← aggregate p threshold hashes; single ← build p hashes; ok (parent, single))
  aggregate-Lags i lt = Returns-bind aggregate_follows λ parent l.
      Returns-bind (build-Records p hashes) λ single r. returns (rw (r.cells i lt) (l.1 i lt))

-- With threshold 0 and precision 1 to 32 the aggregator is exactly the single-threaded sketch.
pub aggregate-eq-build :
    (p : ℕ) (hashes : List ℕ) → 1 ≤ p → p ≤ 32 → aggregate p 0 hashes ≡ build p hashes
aggregate-eq-build p hashes low high =
    let (parent, run, l) = Returns-inv (aggregate_follows p 0 low high hashes) in
    let (single, run', r) = Returns-inv (build-Records p hashes) in
    run
    ∙ ap ok (
        get_or_ext parent single 0 (l.0 ∙ sym r.size)
          λ i q. let lt : i < 2 ^ p = omega (arith, l.0) in ground (arith, l.1 i lt, r.cells i lt))
    ∙ sym run'
