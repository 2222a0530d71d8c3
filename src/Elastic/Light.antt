-- ===== src/Elastic/Light.antt =====
-- The light layer: a Count-Min sketch over i32 counters of a stream whose weights sum to less than 2 ^ 31.
use asap_sketchlib.Prelude.{
  ℕ, ◌^◌, ◌<◌, ◌≤◌, ◌≡◌, refl, ◌∙◌, List, [], ◌∷◌, arith, Returns, Returns-map,
}
use asap_sketchlib.Hasher.{SketchHasher}
use asap_sketchlib.Matrix.Counter.{IsOrdered, i32_counter}
use asap_sketchlib.CountMin.{CountMin}
use asap_sketchlib.CountMin.Regular
use asap_sketchlib.CountMin.Tally.{tally, Sketches}
use asap_sketchlib.CountMin.Stream.{regular-estimate}
use asap_sketchlib.CountMin.Bounds.{total, count, load, load-le-total, count-le-load}

i32-IsOrdered : IsOrdered i32_counter
i32-IsOrdered = record {
  less_irrefl = λ x. ground arith;
  less_asymm = λ x y h. ground arith;
  less_trans = λ x y z h k. ground arith;
}

module _ {K : Type 0} (key_eq : Discrete K) (h : SketchHasher K) (R W : ℕ) (rows : 0 < R)
    (cols : 0 < W) where
  tally-load :
      (r j : ℕ) (xs : List (K × ℕ))
      → total xs < 2 ^ 31
      → tally i32_counter (Regular.column h W) r j xs ≡ load key_eq (Regular.column h W) r j xs
  unfolding load tally
  tally-load r j [] small = refl
  tally-load r j ((x, w) ∷ xs) small =
      ground
        (arith, tally-load r j xs (omega arith), load-le-total key_eq (Regular.column h W) r j xs)

  -- An estimate lies between the weight of the key and the weight of the stream.
  pub estimate-Bounds :
      (x : K) (xs : List (K × ℕ)) (s : CountMin ℕ)
      → total xs < 2 ^ 31
      → Sketches i32_counter (Regular.column h W) R W xs s
      → Returns (λ e. (count key_eq x xs ≤ e) × (e ≤ total xs)) (Regular.estimate i32_counter h s x)
  estimate-Bounds x xs s small v =
      Returns-map (regular-estimate i32_counter R W h cols x xs s i32-IsOrdered rows v)
        λ e ((r, lt, eq), low). (
          omega (
            arith,
            eq ∙ tally-load r (Regular.column h W x r) xs small,
            count-le-load key_eq (Regular.column h W) x r xs,
          ),
          omega (
            arith,
            eq ∙ tally-load r (Regular.column h W x r) xs small,
            load-le-total key_eq (Regular.column h W) r (Regular.column h W x r) xs,
          ),
        )
