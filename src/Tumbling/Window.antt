-- ===== src/Tumbling/Window.antt =====
-- The loop that closes windows ends, and ends in the window of the time.
use asap_sketchlib.Prelude.{
  ℕ, zero, suc, ◌+◌, ◌*◌, ◌%◌, ◌^◌, ◌<◌, ◌≤◌, ◌≡◌, ◌⊎◌, inl, inr, refl, ap, List, [], ◌∷◌, for_each,
  arith, leb, Bool-cases, Run, ◌>>=◌, Returns, returns, Returns-bind, Returns-map,
}
use asap_sketchlib.Tumbling.{SketchOps, TumblingWindow, close_active, advance, insert, flush, new}
use asap_sketchlib.Tumbling.Pool.{IsAccounted, close_active-IsAccounted, new-IsAccounted}

module _ {K S Config : Type 0} (ops : SketchOps K S Config) where
  close_active-start :
      (w : TumblingWindow S Config)
      → (close_active ops w).active_start ≡ (w.active_start + w.window_size) % 2 ^ 64
  unfolding close_active
  close_active-start w = refl

  close_active-size :
      (w : TumblingWindow S Config) → (close_active ops w).window_size ≡ w.window_size
  unfolding close_active
  close_active-size w = refl

  -- The window `w'` is the one of `time` when it is reached from `w`: it ends after the time, and it is
  -- either the old window or begins at the time or before, a whole number of windows later.
  pub record Reaches (time : ℕ) (w w' : TumblingWindow S Config) : Type 0 where
    pub accounted : IsAccounted ops w'
    pub same_size : w'.window_size ≡ w.window_size
    pub ends_after : time < w'.active_start + w'.window_size
    pub begins : (w'.active_start ≡ w.active_start) ⊎ (w'.active_start ≤ time)
    pub aligned : (k : ℕ) × (w'.active_start ≡ w.active_start + k * w.window_size)

  reached_later :
      (time : ℕ) (w w' : TumblingWindow S Config)
      → w.active_start + w.window_size < 2 ^ 64
      → w.active_start + w.window_size ≤ time
      → Reaches time (close_active ops w) w'
      → Reaches time w w'
  reached_later time w w' fits due r = record {
    accounted = r.accounted;
    same_size = omega (arith, r.same_size, close_active-size w);
    ends_after = r.ends_after;
    begins = inr (ground (arith, r.begins, close_active-start w));
    aligned = (
      suc (r.aligned.0),
      omega (
        arith,
        r.aligned.1,
        close_active-start w,
        close_active-size w,
        ap (λ z. r.aligned.0 * z) (close_active-size w),
      ),
    );
  }

  advance-Reaches :
      (fuel time : ℕ) (w : TumblingWindow S Config)
      → 0 < w.window_size
      → time + w.window_size < 2 ^ 64
      → w.active_start + w.window_size < 2 ^ 64
      → time < w.active_start + fuel
      → 0 < fuel
      → IsAccounted ops w
      → Returns (Reaches time w) (advance ops fuel time w)
  unfolding advance
  advance-Reaches zero time w pos room fits enough some a = absurd (omega arith)
  advance-Reaches (suc fuel) time w pos room fits enough some a =
      elim (Bool-cases (leb ((w.active_start + w.window_size) % 2 ^ 64) time)) [
        | inl due ↦
            let reached : w.active_start + w.window_size ≤ time = ground arith in
            rw due (
              Returns-map
                (advance-Reaches fuel time (close_active ops w) (omega (arith, close_active-size w))
                  (omega (arith, close_active-size w))
                  (omega (arith, close_active-size w, close_active-start w))
                  (omega (arith, close_active-start w)) (omega arith)
                  (close_active-IsAccounted ops w a))
                λ w' r. reached_later time w w' fits reached r)
        | inr not_due ↦ rw not_due (
            returns (record {
              accounted = a;
              same_size = refl;
              ends_after = ground arith;
              begins = inl refl;
              aligned = (0, omega arith);
            }))
      ]

  with_active :
      (time : ℕ) (w w' : TumblingWindow S Config) (s : S)
      → Reaches time w w'
      → Reaches time w (record w' { active = s })
  with_active time w w' s r = record {
    accounted = record { sketches = r.accounted.sketches; kept = r.accounted.kept };
    same_size = r.same_size;
    ends_after = r.ends_after;
    begins = r.begins;
    aligned = r.aligned;
  }

  -- An item whose insertion into a sketch returns, at a time that leaves room for a window in 64 bits:
  -- from an accounted window of positive size that ends below 2 ^ 64, `insert` ends normally within
  -- `time + 1` turns of its loop, in a window that ends after the time, that is the old window or begins
  -- at the time or before, a whole number of windows later, and that is accounted again: each sketch
  -- ever allocated is active, kept or free, and at most `max_windows` windows are kept.
  pub insert-Reaches :
      (time : ℕ) (key : K) (value : ℕ) (w : TumblingWindow S Config)
      → 0 < w.window_size
      → time + w.window_size < 2 ^ 64
      → w.active_start + w.window_size < 2 ^ 64
      → IsAccounted ops w
      → ((s : S) → Returns (λ t. Unit {0}) (ops.tumbling_insert key value s))
      → Returns (Reaches time w) (insert ops (suc time) time key value w)
  unfolding insert
  insert-Reaches time key value w pos room fits a inserts =
      Returns-bind (advance-Reaches (suc time) time w pos room fits (omega arith) (omega arith) a)
        λ w' r. Returns-bind (inserts w'.active) λ s done. returns (with_active time w w' s r)

  -- From an accounted window of positive size that ends below 2 ^ 64, at a time that leaves room
  -- for a window in 64 bits, `flush` ends normally within `time + 1` turns of its loop, and the
  -- window that it opens begins after the time and is accounted again.
  pub flush-IsAccounted :
      (time : ℕ) (w : TumblingWindow S Config)
      → 0 < w.window_size
      → time + w.window_size < 2 ^ 64
      → w.active_start + w.window_size < 2 ^ 64
      → IsAccounted ops w
      → Returns (λ w'. IsAccounted ops w' × (time < w'.active_start)) (flush ops (suc time) time w)
  unfolding flush
  flush-IsAccounted time w pos room fits a =
      Returns-bind (advance-Reaches (suc time) time w pos room fits (omega arith) (omega arith) a)
        λ w' r. returns (
          close_active-IsAccounted ops w' r.accounted,
          ground (arith, close_active-start w', r.ends_after, r.begins, r.same_size),
        )

  -- the items of a stream, each with its time
  abbrev pub run_stream : List (ℕ × K × ℕ) → TumblingWindow S Config → Run (TumblingWindow S Config)
  run_stream items w = for_each items (λ (time, key, value). insert ops (suc time) time key value) w

  abbrev pub AreBefore : ℕ → List (ℕ × K × ℕ) → Type 0
  AreBefore limit [] = Unit {0}
  AreBefore limit ((time, key, value) ∷ items) = (time ≤ limit) × AreBefore limit items

  stream-IsAccounted :
      (limit size : ℕ) (items : List (ℕ × K × ℕ)) (w : TumblingWindow S Config)
      → 0 < size
      → limit + size < 2 ^ 64
      → AreBefore limit items
      → ((key : K) (value : ℕ) (s : S) → Returns (λ t. Unit {0}) (ops.tumbling_insert key value s))
      → w.window_size ≡ size
      → w.active_start ≤ limit
      → IsAccounted ops w
      → Returns (IsAccounted ops) (run_stream items w)
  unfolding for_each
  stream-IsAccounted limit size [] w pos room b inserts e lo a = returns a
  stream-IsAccounted limit size ((time, key, value) ∷ items) w pos room b inserts e lo a =
      Returns-bind
        (insert-Reaches time key value w (omega arith) (omega (arith, b.0)) (omega arith) a
          (inserts key value))
        λ w' r.
          stream-IsAccounted limit size items w' pos room b.1 inserts (omega (arith, r.same_size))
            (ground (arith, r.begins, b.0)) r.accounted

  -- From a new window of positive size, a stream of items in any order of times, all at or below a
  -- limit that leaves room for a window in 64 bits, ends normally, with every sketch that was ever
  -- allocated active, kept or free, and with at most `max_windows` windows kept.
  pub new_stream-IsAccounted :
      (window_size max_windows : ℕ) (config : Config) (pool_cap limit : ℕ)
      → 0 < window_size
      → limit + window_size < 2 ^ 64
      → (items : List (ℕ × K × ℕ)) → AreBefore limit items
      → ((key : K) (value : ℕ) (s : S) → Returns (λ t. Unit {0}) (ops.tumbling_insert key value s))
      → Returns
          (IsAccounted ops)
          (new ops window_size max_windows config pool_cap >>= run_stream items)
  new_stream-IsAccounted window_size max_windows config pool_cap limit pos room items b inserts =
      Returns-bind (new-IsAccounted ops window_size max_windows config pool_cap pos) λ w a.
        stream-IsAccounted limit window_size items w pos room b inserts (a.1) (omega (arith, a.2))
          (a.0)
