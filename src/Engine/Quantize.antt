-- ===== src/Engine/Quantize.antt =====
-- The scaling stages of `FPGACacheEngine` (src/fpga_engine/cache_engine.cpp), over any float
-- arithmetic.
use Prim.Native.Nat.{max}
use cxl_spec_kv.Common.{
  ℕ, ◌+◌, ◌%◌, ◌<◌, ◌≡◌, refl, List, [], ◌∷◌, if◌then◌else◌, min, arith, length,
}
use cxl_spec_kv.Engine.Floats.{Floats}
use cxl_spec_kv.Engine.Delta.{AllBytes}

-- `std::max(-128, std::min(127, v))` on the bit pattern of `v`: 128 is added, as the order of
-- `int8_t` is that of the shifted patterns, and taken off again.
unfoldable pub clamp8 : ℕ → ℕ
clamp8 b = (max 0 (min 255 ((b + 128) % 256)) + 128) % 256

clamp8_byte : (b : ℕ) → b < 256 → clamp8 b ≡ b
unfolding clamp8
clamp8_byte b h = omega arith

module _ (f : Floats) where
  open f use {
    Float, float_zero, float_one, float_127, float_abs, float_gt, float_mul, float_div,
    round_to_int8, int8_to_float, round_to_int8_byte,
  }

  -- The loop over the data with `max_val`.
  unfoldable pub max_abs : Float → List Float → Float
  max_abs max_val [] = max_val
  max_abs max_val (val ∷ rest) =
      let abs_val = float_abs val in
      max_abs (if float_gt abs_val max_val then abs_val else max_val) rest

  unfoldable pub compute_scale_factor : List Float → Float
  unfolding max_abs
  compute_scale_factor xs =
      let max_val = max_abs float_zero xs in
      if float_gt max_val float_zero then float_div max_val float_127 else float_one

  unfoldable pub quantize_one : Float → Float → ℕ
  unfolding clamp8
  quantize_one scale x = clamp8 (round_to_int8 (float_mul (float_div x scale) float_127))

  unfoldable pub quantize_to_int8 : List Float → Float → List ℕ
  unfolding quantize_one
  quantize_to_int8 [] scale = []
  quantize_to_int8 (x ∷ xs) scale = quantize_one scale x ∷ quantize_to_int8 xs scale

  unfoldable pub dequantize_from_int8 : List ℕ → Float → List Float
  dequantize_from_int8 [] scale = []
  dequantize_from_int8 (b ∷ bs) scale =
      float_mul (float_div (int8_to_float b) float_127) scale ∷ dequantize_from_int8 bs scale

  pub quantize-AllBytes : (xs : List Float) (scale : Float) → AllBytes (quantize_to_int8 xs scale)
  unfolding quantize_to_int8
  quantize-AllBytes [] scale = tt
  quantize-AllBytes (x ∷ xs) scale = (omega arith, quantize-AllBytes xs scale)

  pub length-quantize :
      (xs : List Float) (scale : Float) → length (quantize_to_int8 xs scale) ≡ length xs
  unfolding quantize_to_int8
  length-quantize [] scale = refl
  length-quantize (x ∷ xs) scale = omega (arith, length-quantize xs scale)

  -- The clamp of the code comes after the cast to `int8_t` and so never changes a value.
  pub quantize_one-unclamped :
      (scale x : Float)
      → quantize_one scale x ≡ round_to_int8 (float_mul (float_div x scale) float_127)
  unfolding quantize_one
  quantize_one-unclamped scale x = clamp8_byte _ (round_to_int8_byte _)
