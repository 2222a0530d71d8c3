-- ===== src/Elastic/Holds.antt =====
-- What an Elastic sketch holds after a stream: each flow's weight is split between its bucket and the light
-- layer, and an arrival keeps it so.
use native.Mathlib.Nat.{mod-lt}
use mathlib.Core.Logic.{ite, if_pos, if_neg}
use asap_sketchlib.Prelude.{
  ℕ, ◌+◌, ◌*◌, ◌%◌, ◌^◌, ◌<◌, ◌≡◌, ◌≢◌, ◌⊎◌, inl, inr, refl, sym, ap, ◌∙◌, subst, List, ◌∷◌, false,
  arith, Bool-cases, ◌==◌, Run, set, length, get_or, length-set, get_or-set, index-ok, Returns,
  returns, Returns-bind, Returns-map, Returns-if,
}
use asap_sketchlib.Hasher.{SketchHasher}
use asap_sketchlib.Matrix.Counter.{i32_counter}
use asap_sketchlib.CountMin.{CountMin}
use asap_sketchlib.CountMin.Regular
use asap_sketchlib.CountMin.Tally.{Sketches}
use asap_sketchlib.CountMin.Stream.{regular-insert_many}
use asap_sketchlib.CountMin.Bounds.{total, count}
use asap_sketchlib.Elastic.{
  HeavyBucket, Elastic, lambda, add_i32, less_i32, is_vacant, occupy_many, evict_many, new_bucket,
  bucket_index, spill_one, vote_against, insert_at,
}
use asap_sketchlib.Elastic.Weights.{weight, weight-set, vote-le-weight}

pub Returns-ite {ℓ κ μ} :
    {P : Type ℓ} {T : Type κ} {Post : T → Type μ} {yes_run no_run : Run T} (d : Dec P)
    → (P → Returns Post yes_run)
    → ((P → ⊥) → Returns Post no_run)
    → Returns Post (ite d yes_run no_run)
Returns-ite (yes p) on_true on_false = on_true p
Returns-ite (no p) on_true on_false = on_false p

module _ {K : Type 0} (h : SketchHasher K) (key_eq : Discrete K) (empty : K) (B R W : ℕ)
    (rows : 0 < R) (cols : 0 < W) (some_buckets : 0 < B) where
  abbrev pub home : K → ℕ
  home x = bucket_index h key_eq empty B x

  abbrev pub bucket_at : List (HeavyBucket K) → ℕ → HeavyBucket K
  bucket_at heavy j = get_or heavy j (new_bucket h key_eq empty)

  -- what the bucket holds of a flow
  abbrev pub share : HeavyBucket K → K → ℕ
  share b x = ite (key_eq b.flow_id x) b.vote_pos 0

  abbrev pub Clean : HeavyBucket K → K → List (K × ℕ) → Type 0
  Clean b x light =
      b.eviction ≡ false → (b.vote_pos ≡ 0) ⊎ (b.flow_id ≡ x) → count key_eq x light ≡ 0

  -- The sketch of the stream `ws` whose light layer has taken the stream `light`.
  pub record Holds (ws light : List (K × ℕ)) (s : Elastic K) : Type 0 where
    pub sketch : Sketches i32_counter (Regular.column h W) R W light s.light
    pub size : length s.heavy ≡ B
    pub width : s.bktlen ≡ B
    pub no_copies : s.stale_copies ≡ false
    pub sums : weight s.heavy + total light ≡ total ws
    pub homed :
        (j : ℕ)
        → j < B
        → 0 < (bucket_at s.heavy j).vote_pos
        → home (bucket_at s.heavy j).flow_id ≡ j
    pub parts :
        (x : K) → share (bucket_at s.heavy (home x)) x + count key_eq x light ≡ count key_eq x ws
    pub clean : (x : K) → Clean (bucket_at s.heavy (home x)) x light

  pub home-lt : (x : K) → home x < B
  home-lt x = mod-lt _ some_buckets

  pub on_yes : (a y : K) (n : ℕ) → a ≡ y → ite (key_eq a y) n 0 ≡ n
  on_yes a y n p = if_pos (key_eq a y) p n 0

  pub on_no : (a y : K) (n : ℕ) → a ≢ y → ite (key_eq a y) n 0 ≡ 0
  on_no a y n p = if_neg (key_eq a y) p n 0

  count-cons :
      (x y : K) (w : ℕ) (ws : List (K × ℕ))
      → count key_eq y ((x, w) ∷ ws) ≡ count key_eq y ws + ite (key_eq x y) w 0
  count-cons x y w ws = elim (key_eq x y) [
    | yes p ↦ rw (if_pos (key_eq x y) p, on_yes x y w p) (omega arith)
    | no p ↦ rw (if_neg (key_eq x y) p, on_no x y w p) (omega arith)
  ]

  -- one bucket is rewritten, and the light layer takes what it gives up
  rewrite-Holds :
      (ws light light' : List (K × ℕ)) (s : Elastic K) (x : K) (w : ℕ) (b' : HeavyBucket K)
      (sketch : CountMin ℕ)
      → Holds ws light s
      → Sketches i32_counter (Regular.column h W) R W light' sketch
      → b'.vote_pos + total light' ≡ (bucket_at s.heavy (home x)).vote_pos + total light + w
      → (0 < b'.vote_pos → home b'.flow_id ≡ home x)
      → ((y : K)
          → home y ≡ home x
          → share b' y + count key_eq y light'
            ≡ share (bucket_at s.heavy (home x)) y + count key_eq y light + ite (key_eq x y) w 0)
      → ((y : K) → home y ≢ home x → count key_eq y light' ≡ count key_eq y light)
      → ((y : K) → home y ≡ home x → Clean b' y light')
      → Holds ((x, w) ∷ ws) light' (record s { heavy = set s.heavy (home x) b'; light = sketch })
  rewrite-Holds ws light light' s x w b' sketch v sk sums homed mine others clean =
      let inside : home x < length s.heavy = omega (arith, v.size, home-lt x) in
      record {
        sketch = sk;
        size = length-set s.heavy (home x) b' ∙ v.size;
        width = v.width;
        no_copies = v.no_copies;
        sums = omega (
          arith,
          sums,
          v.sums,
          weight-set s.heavy (home x) b' (new_bucket h key_eq empty) inside,
        );
        homed = λ j lt. elim (Bool-cases (home x == j)) [
          | inl same ↦
              rw (get_or-set s.heavy (home x) j b' (new_bucket h key_eq empty) inside, same)
                (λ pos. homed pos ∙ ground (arith, same))
          | inr other ↦
              rw (get_or-set s.heavy (home x) j b' (new_bucket h key_eq empty) inside, other)
                (v.homed j lt)
        ];
        parts = λ y. elim (Bool-cases (home x == home y)) [
          | inl same ↦
              let e : home y ≡ home x = ground (arith, same) in
              let before : share (bucket_at s.heavy (home x)) y + count key_eq y light
                  ≡ count key_eq y ws =
                subst
                  (λ j. share (bucket_at s.heavy j) y + count key_eq y light ≡ count key_eq y ws) e
                  (v.parts y) in
              rw
                (
                  get_or-set s.heavy (home x) (home y) b' (new_bucket h key_eq empty) inside,
                  same,
                  count-cons x y w ws,
                )
                (omega (arith, mine y e, before))
          | inr other ↦
              let ne : home y ≢ home x = λ e. ground (arith, other, e) in
              rw
                (
                  get_or-set s.heavy (home x) (home y) b' (new_bucket h key_eq empty) inside,
                  other,
                  count-cons x y w ws,
                  others y ne,
                  if_neg (key_eq x y) (λ p. ne (ap home (sym p))),
                )
                (omega (arith, v.parts y))
        ];
        clean = λ y. elim (Bool-cases (home x == home y)) [
          | inl same ↦
              rw (get_or-set s.heavy (home x) (home y) b' (new_bucket h key_eq empty) inside, same)
                (clean y (ground (arith, same)))
          | inr other ↦
              rw
                (
                  get_or-set s.heavy (home x) (home y) b' (new_bucket h key_eq empty) inside,
                  other,
                  others y (ground (arith, other)),
                )
                (v.clean y)
        ];
      }

  module _ (ws light : List (K × ℕ)) (s : Elastic K) (x : K) (w : ℕ) (v : Holds ws light s)
      (pos : 0 < w) (small : w + total ws < 2 ^ 31) where
    abbrev here : HeavyBucket K
    here = bucket_at s.heavy (home x)

    -- the light layer takes an arrival
    light_takes :
        (y : K) (u : ℕ) (heavy : List (HeavyBucket K))
        → Returns
            (λ t.
              (light' : CountMin ℕ) × (t ≡ record s { heavy = heavy; light = light' })
              × Sketches i32_counter (Regular.column h W) R W ((y, u) ∷ light) light')
            (spill_one h key_eq empty y u (record s { heavy = heavy }))
    unfolding spill_one
    light_takes y u heavy =
        Returns-bind (regular-insert_many i32_counter R W h cols y u light s.light v.sketch)
          λ l sk. returns (l, refl, sk)

    unfoldable pub Grown : Elastic K → Type 0
    Grown t = (light' : List (K × ℕ)) × Holds ((x, w) ∷ ws) light' t

    same_home : (y : K) → home y ≡ home x → Clean here y light
    same_home y e = subst (λ j. Clean (bucket_at s.heavy j) y light) e (v.clean y)

    occupied :
        here.vote_pos ≡ 0
        → Holds
            ((x, w) ∷ ws)
            light
            (record s { heavy = set s.heavy (home x) (occupy_many x w here) })
    occupied vacant =
        rewrite-Holds ws light light s x w (occupy_many x w here) s.light v v.sketch
          (omega (arith, vacant)) (λ p. refl)
          (λ y e. elim (key_eq here.flow_id y) [
            | yes p ↦ rw (if_pos (key_eq here.flow_id y) p, vacant) (omega arith)
            | no p ↦ rw (if_neg (key_eq here.flow_id y) p) (omega arith)
          ])
          (λ y ne. refl) (λ y e clean which. same_home y e clean (inl vacant))

    voted :
        here.flow_id ≡ x
        → Holds ((x, w) ∷ ws) light (record s {
          heavy = set s.heavy (home x) (record here { vote_pos = add_i32 here.vote_pos w });
        })
    voted same =
        let bound =
          vote-le-weight s.heavy (home x) (new_bucket h key_eq empty)
            (omega (arith, v.size, home-lt x)) in
        let exact : add_i32 here.vote_pos w ≡ here.vote_pos + w =
          omega (arith, bound, v.sums, small) in
        rewrite-Holds ws light light s x w (record here { vote_pos = add_i32 here.vote_pos w })
          s.light v v.sketch (omega (arith, exact)) (λ p. ap home same)
          (λ y e. elim (key_eq here.flow_id y) [
            | yes p ↦ omega (
              arith,
              exact,
              on_yes here.flow_id y (add_i32 here.vote_pos w) p,
              on_yes here.flow_id y here.vote_pos p,
              on_yes x y w (sym same ∙ p),
            )
            | no p ↦ omega (
              arith,
              on_no here.flow_id y (add_i32 here.vote_pos w) p,
              on_no here.flow_id y here.vote_pos p,
              on_no x y w (λ q. p (same ∙ q)),
            )
          ])
          (λ y ne. refl)
          (λ y e flag which. elim which [
            | inl none ↦ absurd (omega (arith, exact, none, pos))
            | inr q ↦ same_home y e flag (inr q)
          ])

    outvoted :
        (vote_neg : ℕ) (light' : CountMin ℕ)
        → here.vote_pos ≢ 0
        → here.flow_id ≢ x
        → Sketches i32_counter (Regular.column h W) R W ((x, w) ∷ light) light'
        → Holds ((x, w) ∷ ws) ((x, w) ∷ light) (record s {
          heavy = set s.heavy (home x) (record here { vote_neg = vote_neg });
          light = light';
        })
    outvoted vote_neg light' taken other sk =
        rewrite-Holds ws light ((x, w) ∷ light) s x w (record here { vote_neg = vote_neg }) light' v
          sk (omega arith) (v.homed (home x) (home-lt x))
          (λ y e. omega (arith, count-cons x y w light))
          (λ y ne. omega (arith, count-cons x y w light, on_no x y w (λ q. ne (ap home (sym q)))))
          (λ y e flag which. elim which [
            | inl none ↦ absurd (taken none)
            | inr q ↦ omega (
              arith,
              count-cons x y w light,
              on_no x y w (λ q'. other (q ∙ sym q')),
              same_home y e flag (inr q),
            )
          ])

    evicted :
        (light' : CountMin ℕ)
        → here.vote_pos ≢ 0
        → here.flow_id ≢ x
        → Sketches i32_counter
            (Regular.column h W)
            R
            W
            ((here.flow_id, here.vote_pos) ∷ light)
            light'
        → Holds
            ((x, w) ∷ ws)
            ((here.flow_id, here.vote_pos) ∷ light)
            (record s { heavy = set s.heavy (home x) (evict_many x w here); light = light' })
    evicted light' taken other sk =
        let at_home : home here.flow_id ≡ home x =
          v.homed (home x) (home-lt x) (omega (arith, taken)) in
        rewrite-Holds ws light ((here.flow_id, here.vote_pos) ∷ light) s x w (evict_many x w here)
          light' v sk (omega arith) (λ p. refl)
          (λ y e. omega (arith, count-cons here.flow_id y here.vote_pos light))
          (λ y ne. omega (
            arith,
            count-cons here.flow_id y here.vote_pos light,
            on_no here.flow_id y here.vote_pos (λ q. ne (ap home (sym q) ∙ at_home)),
          ))
          (λ y e flag which. absurd (cc (flag)))

    pub insert_at-Grown : Returns Grown (insert_at h key_eq empty (home x) x w s)
    unfolding insert_at vote_against Grown
    insert_at-Grown =
        let inside : home x < length s.heavy = omega (arith, v.size, home-lt x) in
        rw (index-ok s.heavy (home x) (new_bucket h key_eq empty) inside) (
          Returns-if (is_vacant here) (λ vacant. returns (light, occupied (ground (arith, vacant))))
            (λ taken.
              let some_votes : here.vote_pos ≢ 0 = λ none. ground (arith, taken, none) in
              Returns-ite (key_eq here.flow_id x) (λ same. returns (light, voted same))
                (λ other.
                  Returns-if (less_i32 (add_i32 here.vote_neg w) (lambda * here.vote_pos % 2 ^ 32))
                    (λ fewer.
                      Returns-map
                        (light_takes x w (
                          set s.heavy (home x)
                            (record here { vote_neg = add_i32 here.vote_neg w })))
                        λ t (l, e, sk). (
                          (x, w) ∷ light,
                          subst (Holds ((x, w) ∷ ws) ((x, w) ∷ light)) (sym e)
                              (outvoted (add_i32 here.vote_neg w) l some_votes other sk),
                        ))
                    (λ enough.
                      Returns-map
                        (light_takes here.flow_id here.vote_pos
                          (set s.heavy (home x) (evict_many x w here)))
                        λ t (l, e, sk). (
                          (here.flow_id, here.vote_pos) ∷ light,
                          subst (Holds ((x, w) ∷ ws) ((here.flow_id, here.vote_pos) ∷ light))
                              (sym e) (evicted l some_votes other sk),
                        )))))
