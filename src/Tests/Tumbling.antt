-- ===== src/Tests/Tumbling.antt =====
-- Windows of length 10 over a sketch that sums its amounts.
use asap_sketchlib.Prelude.{ℕ, ◌+◌, ◌<◌, [], ◌∷◌, arith, ok, ◌>>=◌, Returns, returns}
use asap_sketchlib.Tumbling.{SketchOps, TumblingWindow, new, insert, flush}
use asap_sketchlib.Tumbling.Pool.{IsAccounted}
use asap_sketchlib.Tumbling.Window.{
  Reaches, insert-Reaches, flush-IsAccounted, run_stream, new_stream-IsAccounted,
}

abbrev sums : SketchOps ℕ ℕ ℕ
sums = record {
  from_config = λ c. 0;
  tumbling_insert = λ key value s. ok (s + value);
  tumbling_merge = λ a b. ok (a + b);
  tumbling_clear = λ s. 0;
}

abbrev start : TumblingWindow ℕ ℕ
start = record {
  active = 4;
  active_window_id = 1;
  active_start = 10;
  window_size = 10;
  max_windows = 2;
  closed = record { sketch = 7; window_id = 0 } ∷ [];
  pool = record { free_list = 0 ∷ []; total_allocated = 3; config = 0 };
}

start-IsAccounted : IsAccounted sums start
start-IsAccounted = record { sketches = omega arith; kept = omega arith }

insert-Reaches_example : Returns (Reaches sums 47 start) (insert sums 48 47 5 6 start)
insert-Reaches_example =
    insert-Reaches sums 47 5 6 start (omega arith) (omega arith) (omega arith) start-IsAccounted
      (λ s. returns tt)

flush-IsAccounted_example :
    Returns (λ w. IsAccounted sums w × (47 < w.active_start)) (flush sums 48 47 start)
flush-IsAccounted_example =
    flush-IsAccounted sums 47 start (omega arith) (omega arith) (omega arith) start-IsAccounted

new_stream-IsAccounted_example :
    Returns
      (IsAccounted sums)
      (new sums 10 2 0 1 >>= run_stream sums ((3, 5, 6) ∷ (47, 5, 1) ∷ (8, 2, 2) ∷ []))
new_stream-IsAccounted_example =
    new_stream-IsAccounted sums 10 2 0 1 100 (omega arith) (omega arith)
      ((3, 5, 6) ∷ (47, 5, 1) ∷ (8, 2, 2) ∷ []) (omega arith, (omega arith, (omega arith, tt)))
      (λ key value s. returns tt)
