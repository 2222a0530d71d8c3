-- ===== src/CmsHeap/Stream.antt =====
-- A stream into a sketch with its heap, over i64 counters.
use asap_sketchlib.Prelude.{
  ℕ, ◌+◌, ◌^◌, ◌<◌, ◌≤◌, ◌≡◌, refl, sym, ap, subst, ◌∙◌, List, [], ◌∷◌, map, Bool, arith, Run,
  ◌>>=◌, for_each, reverse_aux, Returns, returns, Returns-bind, Returns-map,
}
use asap_sketchlib.Hasher.{SketchHasher}
use asap_sketchlib.Matrix.Counter.{i64_counter, i64-IsOrdered}
use asap_sketchlib.CountMin.Regular
use asap_sketchlib.CountMin.Tally.{Sketches}
use asap_sketchlib.CountMin.Stream.{with_dimensions-Sketches, regular-insert_many, regular-estimate}
use asap_sketchlib.CountMin.Bounds.{
  count, total, total-reverse_aux, count-reverse_aux, least-Accurate,
}
use asap_sketchlib.Heap.{with_capacity}
use asap_sketchlib.Heap.Items
use asap_sketchlib.HhHeap
use asap_sketchlib.HhHeap.{KeyOps}
use asap_sketchlib.HhHeap.InStep.{AgreesWithDigest, IsInStep, new-IsInStep}
use asap_sketchlib.HhHeap.Contents.{update-Updated}
use asap_sketchlib.CmsHeap.Top.{
  IsKeyEquality, Reports, Before, Updated-Reports, stale-Before, empty-Reports, Reports-same,
}
use asap_sketchlib.CmsHeap.{CmsHeap, new, refresh, insert_many}

pub occurs-reverse_aux :
    {T : Type 0} (q : T → Bool) (xs done : List T)
    → Items.count q (reverse_aux xs done) ≡ Items.count q xs + Items.count q done
occurs-reverse_aux q [] done = omega arith
occurs-reverse_aux q (x ∷ xs) done = omega (arith, occurs-reverse_aux q xs (x ∷ done))

module _ {K : Type 0} (key_eq : Discrete K) (h : SketchHasher K) (keys : KeyOps K) (R W k : ℕ)
    (rows : 0 < R) (cols : 0 < W) where
  -- the conversion of an i64 counter
  abbrev pub same : ℕ → ℕ
  same c = c

  -- The sketch is that of the stream, and the heap is in step, of capacity `k`.
  pub record Tracks (ws : List (K × ℕ)) (s : CmsHeap K ℕ) : Type 0 where
    pub sketch : Sketches i64_counter (Regular.column h W) R W ws s.cms
    pub in_step : IsInStep keys s.heap
    pub capacity : s.heap.k ≡ k

  pub AgreesWithDigest-sound : IsKeyEquality keys → AgreesWithDigest keys
  AgreesWithDigest-sound law a b e = ap keys.digest (law.sound a b e)

  estimate-Bounds :
      (ws : List (K × ℕ)) (x : K) (s : CmsHeap K ℕ)
      → total ws < 2 ^ 63
      → Tracks ws s
      → Returns
          (λ e. (count key_eq x ws ≤ e) × (e ≤ total ws))
          (Regular.estimate i64_counter h s.cms x)
  estimate-Bounds ws x s small v =
      Returns-map (regular-estimate i64_counter R W h cols x ws s.cms i64-IsOrdered rows v.sketch)
        λ e least.
          let b = least-Accurate key_eq (Regular.column h W) x ws R e small least in (b.0, b.1)

  -- the sketch and what its heap reports of the keys that were entered
  abbrev pub Tops : List (K × ℕ) → List K → CmsHeap K ℕ → Type 0
  Tops ws seen s = Tracks ws s × Reports key_eq keys ws seen k s.heap.heap.slots

  pub refresh-Tops :
      (ws : List (K × ℕ)) (seen : List K) (x : K) (s : CmsHeap K ℕ)
      → IsKeyEquality keys
      → total ws < 2 ^ 63
      → Tracks ws s
      → Before key_eq keys x ws seen k s.heap.heap.slots
      → Returns (Tops ws (x ∷ seen)) (refresh i64_counter same h keys x s)
  unfolding refresh
  refresh-Tops ws seen x s law small v b =
      Returns-bind (estimate-Bounds ws x s small v) λ e (above, below).
        Returns-bind (update-Updated keys x e s.heap (AgreesWithDigest-sound law) v.in_step)
          λ r ((w, kept), u). returns (
            record { sketch = v.sketch; in_step = w; capacity = kept ∙ v.capacity },
            subst (λ n. Reports key_eq keys ws (x ∷ seen) n r.1.heap.slots) v.capacity
                (Updated-Reports key_eq keys law x e ws seen above below s.heap r.1
                  (subst (λ n. Before key_eq keys x ws seen n s.heap.heap.slots) (sym v.capacity) b)
                  u),
          )

  insert_many-Tops :
      (ws : List (K × ℕ)) (seen : List K) (x : K) (w : ℕ) (s : CmsHeap K ℕ)
      → IsKeyEquality keys
      → total ((x, w) ∷ ws) < 2 ^ 63
      → Tops ws seen s
      → Returns (Tops ((x, w) ∷ ws) (x ∷ seen)) (insert_many i64_counter same h keys x w s)
  unfolding insert_many
  insert_many-Tops ws seen x w s law small (v, r) =
      Returns-bind (regular-insert_many i64_counter R W h cols x w ws s.cms v.sketch) λ cms sk.
        refresh-Tops ((x, w) ∷ ws) seen x _ law small
          (record { sketch = sk; in_step = v.in_step; capacity = v.capacity })
          (stale-Before key_eq keys x w ws seen k s.heap.heap.slots law r)

  -- a new sketch and a stream
  abbrev pub filled : List (K × ℕ) → Run (CmsHeap K ℕ)
  filled ws = do
    s ← new i64_counter same h keys R W k
    for_each ws (λ (x, w). insert_many i64_counter same h keys x w) s

  new-Tops : Returns (Tops [] []) (new i64_counter same h keys R W k)
  unfolding new HhHeap.new with_capacity
  new-Tops =
      Returns-bind (with_dimensions-Sketches i64_counter R W (Regular.column h W) cols) λ cms sk.
        returns (
          record { sketch = sk; in_step = new-IsInStep keys k; capacity = refl },
          empty-Reports key_eq keys [] k,
        )

  inserts-Tops :
      (todo ws : List (K × ℕ)) (seen : List K) (s : CmsHeap K ℕ)
      → IsKeyEquality keys
      → total todo + total ws < 2 ^ 63
      → Tops ws seen s
      → Returns
          (Tops (reverse_aux todo ws) (reverse_aux (map (λ p. p.0) todo) seen))
          (for_each todo (λ (x, w). insert_many i64_counter same h keys x w) s)
  unfolding for_each
  inserts-Tops [] ws seen s law small t = returns t
  inserts-Tops ((x, w) ∷ todo) ws seen s law small t =
      Returns-bind (insert_many-Tops ws seen x w s law (omega (arith, small)) t)
        λ s' t'. inserts-Tops todo ((x, w) ∷ ws) (x ∷ seen) s' law (omega (arith, small)) t'

  pub filled-Tops :
      (ws : List (K × ℕ))
      → IsKeyEquality keys
      → total ws < 2 ^ 63
      → Returns (Tops (reverse_aux ws []) (reverse_aux (map (λ p. p.0) ws) [])) (filled ws)
  filled-Tops ws law small =
      Returns-bind new-Tops λ s t. inserts-Tops ws [] [] s law (omega (arith, small)) t

  -- The top-k sketch over i64 counters, of at least one row and column, with a heap of any capacity k, and
  -- keys whose test for equality is sound and reflexive: a stream whose weights sum to less than 2 ^ 63
  -- is taken without a panic. Then the index of the heap is in step with its items, no key has two
  -- items, the count of each item is at least the weight of its key in the stream and at most the
  -- weight of the stream, only keys of the stream have items, and all of them do unless the heap holds
  -- k items.
  pub stream-Reports :
      (ws : List (K × ℕ))
      → IsKeyEquality keys
      → total ws < 2 ^ 63
      → Returns
          (λ s.
            IsInStep keys s.heap
            × (s.heap.k ≡ k)
            × Reports key_eq keys ws (map (λ p. p.0) ws) k s.heap.heap.slots)
          (filled ws)
  stream-Reports ws law small = Returns-map (filled-Tops ws law small) λ s (v, r). (
    v.in_step,
    v.capacity,
    Reports-same key_eq keys _ ws _ (map (λ p. p.0) ws) k s.heap.heap.slots
        (λ y. omega (arith, count-reverse_aux key_eq y ws []))
        (omega (arith, total-reverse_aux ws []))
        (λ y. omega (arith, occurs-reverse_aux (λ z. keys.equal z y) (map (λ p. p.0) ws) [])) r,
  )
