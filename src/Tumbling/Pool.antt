-- ===== src/Tumbling/Pool.antt =====
-- What a closing window does to the closed windows and to the pool.
use asap_sketchlib.Prelude.{
  ℕ, suc, ◌+◌, ◌-◌, ◌<◌, ◌≤◌, ◌≡◌, refl, List, [], ◌∷◌, ◌++◌, arith, ltb, if◌then◌else◌, length,
  drop, length-append, length-drop, length-replicate, lt→ltb, Bool-cases, inl, inr, Returns,
  returns,
}
use asap_sketchlib.Tumbling.{
  SketchOps, SketchPool, ClosedWindow, TumblingWindow, new_pool, take_free, take_sketch, put_sketch,
  evict, close_active, new,
}

module _ {K S Config : Type 0} (ops : SketchOps K S Config) where
  -- Every sketch that was allocated is active, in a closed window or free, and no more than
  -- `max_windows` windows are kept.
  pub record IsAccounted (w : TumblingWindow S Config) : Type 0 where
    pub sketches : suc (length w.pool.free_list + length w.closed) ≡ w.pool.total_allocated
    pub kept : length w.closed ≤ w.max_windows

  take_free-balance :
      (free : List S) (pool : SketchPool S Config)
      → suc (length (take_free ops free pool).1.free_list) + pool.total_allocated ≡ (
          if ltb 0 (length free)
          then length free + (take_free ops free pool).1.total_allocated
          else length pool.free_list + (take_free ops free pool).1.total_allocated)
  unfolding take_free
  take_free-balance [] pool = omega arith
  take_free-balance (s ∷ free) pool = ground arith

  take_sketch-balance :
      (pool : SketchPool S Config)
      → suc (length (take_sketch ops pool).1.free_list) + pool.total_allocated
        ≡ length pool.free_list + (take_sketch ops pool).1.total_allocated
  unfolding take_sketch
  take_sketch-balance pool = ground (arith, take_free-balance pool.free_list pool)

  -- Eviction keeps the newest windows and hands the sketches of the others to the pool.
  pub evict-drop :
      (m : ℕ) (ws : List (ClosedWindow S)) (pool : SketchPool S Config)
      → (evict ops m ws pool).0 ≡ drop (length ws - m) ws
  unfolding evict
  evict-drop m [] pool = let nothing : 0 - m ≡ 0 = omega arith in rw nothing refl
  evict-drop m (w ∷ ws) pool = elim (Bool-cases (ltb m (length (w ∷ ws)))) [
    | inl over ↦
        let shift : length (w ∷ ws) - m ≡ suc (length ws - m) = ground arith in
        rw (over, shift) (evict-drop m ws (put_sketch ops w.sketch pool))
    | inr under ↦
        let none_over : length (w ∷ ws) - m ≡ 0 = ground arith in rw (under, none_over) refl
  ]

  evict-total :
      (m : ℕ) (ws : List (ClosedWindow S)) (pool : SketchPool S Config)
      → (evict ops m ws pool).1.total_allocated ≡ pool.total_allocated
  unfolding evict put_sketch
  evict-total m [] pool = refl
  evict-total m (w ∷ ws) pool = ground (arith, evict-total m ws (put_sketch ops w.sketch pool))

  evict-balance :
      (m : ℕ) (ws : List (ClosedWindow S)) (pool : SketchPool S Config)
      → length (evict ops m ws pool).1.free_list + length (evict ops m ws pool).0
        ≡ length pool.free_list + length ws
  unfolding evict put_sketch
  evict-balance m [] pool = refl
  evict-balance m (w ∷ ws) pool = ground (arith, evict-balance m ws (put_sketch ops w.sketch pool))

  abbrev pub closing : TumblingWindow S Config → List (ClosedWindow S)
  closing w = w.closed ++ record { sketch = w.active; window_id = w.active_window_id } ∷ []

  pub close_active-IsAccounted :
      (w : TumblingWindow S Config) → IsAccounted w → IsAccounted (close_active ops w)
  unfolding close_active
  close_active-IsAccounted w a =
      let taken = (take_sketch ops w.pool).1 in
      record {
        sketches = omega (
          arith,
          evict-balance w.max_windows (closing w) taken,
          evict-total w.max_windows (closing w) taken,
          take_sketch-balance w.pool,
          length-append w.closed
              (record { sketch = w.active; window_id = w.active_window_id } ∷ []),
          a.sketches,
        );
        kept =
            rw (evict-drop w.max_windows (closing w) taken)
              (omega (arith, length-drop (length (closing w) - w.max_windows) (closing w)));
      }

  -- A new window accounts for its sketches.
  pub new-IsAccounted :
      (window_size max_windows : ℕ) (config : Config) (pool_cap : ℕ)
      → 0 < window_size
      → Returns
          (λ w. IsAccounted w × (w.window_size ≡ window_size) × (w.active_start ≡ 0))
          (new ops window_size max_windows config pool_cap)
  unfolding new new_pool
  new-IsAccounted window_size max_windows config pool_cap pos = rw (lt→ltb 0 window_size pos) (
      returns (
        record {
          sketches = omega (
            arith,
            take_sketch-balance (new_pool ops pool_cap config),
            length-replicate pool_cap (ops.from_config config),
          );
          kept = omega arith;
        },
        refl,
        refl,
      ))
