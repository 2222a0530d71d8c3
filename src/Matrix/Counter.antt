-- ===== src/Matrix/Counter.antt =====
-- What a sketch asks of the type of its counters (`S::Counter: Copy + PartialOrd + From<i32> +
-- AddAssign + Default`), and the counters i32 and i64. A machine integer is its bit pattern; sums
-- wrap, as they do in a release build.
use asap_sketchlib.Prelude.{
  ℕ, ◌+◌, ◌-◌, ◌%◌, ◌^◌, ◌≡◌, refl, Bool, true, false, arith, ltb, if◌then◌else◌,
}

pub record Counter (C : Type 0) : Type 0 where
  pub add : C → C → C
  pub less : C → C → Bool
  pub default : C
  -- from the bit pattern of an i32
  pub from_i32 : ℕ → C

-- The laws of a counter whose sums commute. They hold of integers that wrap, and not of f64.
pub record IsAdditive {C : Type 0} (c : Counter C) : Type 0 where
  pub add_comm : (x y : C) → c.add x y ≡ c.add y x
  pub add_assoc : (x y z : C) → c.add (c.add x y) z ≡ c.add x (c.add y z)
  pub add_default : (x y : C) → c.add (c.add x y) c.default ≡ c.add x y
  pub default_add : c.add c.default c.default ≡ c.default

-- The law of a counter that is ordered: not to be less is transitive.
pub record IsOrdered {C : Type 0} (c : Counter C) : Type 0 where
  pub less_irrefl : (x : C) → c.less x x ≡ false
  pub less_asymm : (x y : C) → c.less x y ≡ true → c.less y x ≡ false
  pub less_trans : (x y z : C) → c.less x y ≡ false → c.less y z ≡ false → c.less x z ≡ false

-- Signed comparison of bit patterns: the sign bit is turned around.
abbrev pub signed_less : ℕ → ℕ → ℕ → Bool
signed_less half x y = ltb ((x + half) % (half + half)) ((y + half) % (half + half))

abbrev pub i32_counter : Counter ℕ
i32_counter = record {
  add = λ x y. (x + y) % 2 ^ 32;
  less = signed_less (2 ^ 31);
  default = 0;
  from_i32 = λ x. x;
}

abbrev pub i64_counter : Counter ℕ
i64_counter = record {
  add = λ x y. (x + y) % 2 ^ 64;
  less = signed_less (2 ^ 63);
  default = 0;
  from_i32 = λ x. if ltb x (2 ^ 31) then x else x + 2 ^ 64 - 2 ^ 32;
}

add_assoc_i64 : (x y z : ℕ) → ((x + y) % 2 ^ 64 + z) % 2 ^ 64 ≡ (x + (y + z) % 2 ^ 64) % 2 ^ 64
add_assoc_i64 x y z = omega arith

pub i64-IsAdditive : IsAdditive i64_counter
i64-IsAdditive = record {
  add_comm = λ x y. omega arith;
  add_assoc = add_assoc_i64;
  add_default = λ x y. omega arith;
  default_add = refl;
}

pub i64-IsOrdered : IsOrdered i64_counter
i64-IsOrdered = record {
  less_irrefl = λ x. ground arith;
  less_asymm = λ x y h. ground arith;
  less_trans = λ x y z h k. ground arith;
}
