-- ===== src/Engine/Floats.antt =====
-- `float` and `double` arithmetic, which the C++ implementation provides and the cache engine
-- (src/fpga_engine/cache_engine.cpp) calls: the types and the operations, with nothing assumed of
-- them but that a conversion to `int8_t` gives an `int8_t`.
use cxl_spec_kv.Common.{ℕ, ◌<◌, ◌%◌, ◌+◌, ◌*◌, ◌/◌, Bool, arith, ltb}

pub record Floats : Type 1 where
  pub Float : Type 0
  pub Double : Type 0
  -- 0.0f, 1.0f and 127.0f.
  pub float_zero : Float
  pub float_one : Float
  pub float_127 : Float
  pub float_abs : Float → Float
  pub float_gt : Float → Float → Bool
  pub float_mul : Float → Float → Float
  pub float_div : Float → Float → Float
  -- `static_cast<int8_t>(std::round(x))`, as a bit pattern, and `static_cast<float>` of an `int8_t`.
  pub round_to_int8 : Float → ℕ
  pub int8_to_float : ℕ → Float
  pub round_to_int8_byte : (x : Float) → round_to_int8 x < 256
  -- A literal given in hundredths, the conversion of a `size_t`, and the operations on `double`.
  pub double_hundredths : ℕ → Double
  pub double_of : ℕ → Double
  pub double_add : Double → Double → Double
  pub double_mul : Double → Double → Double
  pub double_div : Double → Double → Double

-- Whole numbers in place of both types: an arithmetic at which the model runs.
abbrev pub whole_numbers : Floats
whole_numbers = record {
  Float = ℕ;
  Double = ℕ;
  float_zero = 0;
  float_one = 1;
  float_127 = 127;
  float_abs = λ x. x;
  float_gt = λ x y. ltb y x;
  float_mul = λ x y. x * y;
  float_div = λ x y. x / y;
  round_to_int8 = λ x. x % 256;
  int8_to_float = λ b. b;
  round_to_int8_byte = λ x. omega arith;
  double_hundredths = λ n. n;
  double_of = λ n. n;
  double_add = λ x y. x + y;
  double_mul = λ x y. x * y;
  double_div = λ x y. x / y;
}
