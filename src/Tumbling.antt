-- ===== src/Tumbling.antt =====
-- src/sketch_framework/tumbling.rs: windows of one length, one after another, over any sketch, with a
-- pool that recycles the sketches of evicted windows. Times and window numbers are u64 and wrap.
pub mod Window
pub mod Pool
use asap_sketchlib.Prelude.{
  ℕ, zero, suc, ◌+◌, ◌-◌, ◌%◌, ◌^◌, List, [], ◌∷◌, ◌++◌, Bool, ltb, leb, if◌then◌else◌, Run, ok,
  out_of_fuel, ◌>>=◌, assert, for_each, length, drop, replicate,
}

-- The trait TumblingWindowSketch. A Config is one from which `from_config` builds a sketch: those that a
-- constructor refuses with a panic, such as FoldCMS with a width that is no power of two, are left out.
pub record SketchOps (K S Config : Type 0) : Type 0 where
  pub from_config : Config → S
  pub tumbling_insert : K → ℕ → S → Run S
  pub tumbling_merge : S → S → Run S
  pub tumbling_clear : S → S

-- The free list is a stack whose top comes first.
pub record SketchPool (S Config : Type 0) : Type 0 where
  pub free_list : List S
  pub total_allocated : ℕ
  pub config : Config

pub record ClosedWindow (S : Type 0) : Type 0 where
  pub sketch : S
  pub window_id : ℕ

pub record TumblingWindow (S Config : Type 0) : Type 0 where
  pub active : S
  pub active_window_id : ℕ
  pub active_start : ℕ
  pub window_size : ℕ
  pub max_windows : ℕ
  pub closed : List (ClosedWindow S)
  pub pool : SketchPool S Config

module _ {K S Config : Type 0} (ops : SketchOps K S Config) where
  unfoldable pub new_pool : ℕ → Config → SketchPool S Config
  new_pool cap config = record {
    free_list = replicate cap (ops.from_config config);
    total_allocated = cap;
    config = config;
  }

  unfoldable pub take_free : List S → SketchPool S Config → S × SketchPool S Config
  take_free [] pool =
      (ops.from_config pool.config, record pool { total_allocated = pool.total_allocated + 1 })
  take_free (s ∷ free) pool = (s, record pool { free_list = free })

  -- `SketchPool::take`
  unfoldable pub take_sketch : SketchPool S Config → S × SketchPool S Config
  unfolding take_free
  take_sketch pool = take_free pool.free_list pool

  -- `SketchPool::put`
  unfoldable pub put_sketch : S → SketchPool S Config → SketchPool S Config
  put_sketch sketch pool = record pool { free_list = ops.tumbling_clear sketch ∷ pool.free_list }

  unfoldable pub new : ℕ → ℕ → Config → ℕ → Run (TumblingWindow S Config)
  unfolding new_pool take_sketch
  new window_size max_windows config pool_cap = assert (ltb 0 window_size) (do
    let (active, pool) = take_sketch (new_pool pool_cap config)
    ok (record {
      active = active;
      active_window_id = 0;
      active_start = 0;
      window_size = window_size;
      max_windows = max_windows;
      closed = [];
      pool = pool;
    }))

  -- `while self.closed.len() > self.max_windows`: one turn for each closed window is enough
  unfoldable pub evict :
      ℕ → List (ClosedWindow S) → SketchPool S Config → List (ClosedWindow S) × SketchPool S Config
  unfolding put_sketch
  evict max_windows [] pool = ([], pool)
  evict max_windows (w ∷ ws) pool =
      let rest = evict max_windows ws (put_sketch w.sketch pool) in
      if ltb max_windows (length (w ∷ ws)) then rest else (w ∷ ws, pool)

  unfoldable pub close_active : TumblingWindow S Config → TumblingWindow S Config
  unfolding take_sketch evict
  close_active self =
      let (fresh, pool) = take_sketch self.pool in
      let closed =
        self.closed ++ record { sketch = self.active; window_id = self.active_window_id } ∷ [] in
      let (kept, pool') = evict self.max_windows closed pool in
      record self {
        active = fresh;
        active_window_id = (self.active_window_id + 1) % 2 ^ 64;
        active_start = (self.active_start + self.window_size) % 2 ^ 64;
        closed = kept;
        pool = pool';
      }

  -- `while time >= self.active_start + self.window_size`
  unfoldable pub advance : ℕ → ℕ → TumblingWindow S Config → Run (TumblingWindow S Config)
  advance zero time self = out_of_fuel
  advance (suc fuel) time self =
      let rest = advance fuel time (close_active self) in
      if leb ((self.active_start + self.window_size) % 2 ^ 64) time then rest else ok self

  unfoldable pub insert : ℕ → ℕ → K → ℕ → TumblingWindow S Config → Run (TumblingWindow S Config)
  unfolding advance
  insert fuel time key value self = do
    w ← advance fuel time self
    active ← ops.tumbling_insert key value w.active
    ok (record w { active = active })

  unfoldable pub flush : ℕ → ℕ → TumblingWindow S Config → Run (TumblingWindow S Config)
  unfolding advance close_active
  flush fuel current_time self = advance fuel current_time self >>= λ w. ok (close_active w)

  unfoldable pub query_all : TumblingWindow S Config → Run S
  query_all self =
      for_each self.closed (λ cw merged. ops.tumbling_merge merged cw.sketch) self.active

  unfoldable pub query_recent : ℕ → TumblingWindow S Config → Run S
  query_recent n self =
      for_each (drop (length self.closed - n) self.closed)
        (λ cw merged. ops.tumbling_merge merged cw.sketch) self.active
