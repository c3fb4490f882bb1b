-- ===== src/Engine/Tests.antt =====
-- Runs of the cache engine's model, and its theorems at concrete data.
use cxl_spec_kv.Common.{ℕ, ◌≡◌, refl, List, [], ◌∷◌, ◌*◌, ◌≤◌, map, length, arith}
use cxl_spec_kv.Engine.Floats.{whole_numbers}
use cxl_spec_kv.Engine.Types.{Engine, create}
use cxl_spec_kv.Engine.Delta.{delta_encode}
use cxl_spec_kv.Engine.RunLength.{
  run_length_encode, run_length_decode, IsRuns, run_length_decode-run_length_encode,
}
use cxl_spec_kv.Engine.Quantize.{compute_scale_factor, quantize_to_int8, dequantize_from_int8}
use cxl_spec_kv.Engine.Pipeline.{compress, decompress, decompress-compress, compress_bounds}
use cxl_spec_kv.Engine.Tlb.{translate_all, mapped, translate_all-create}

-- 5, 7, 7, 7 and -1.
abbrev bytes : List ℕ
bytes = 5 ∷ 7 ∷ 7 ∷ 7 ∷ 255 ∷ []

coded :
    (delta_encode bytes ≡ 5 ∷ 2 ∷ 0 ∷ 0 ∷ 248 ∷ [])
    × (run_length_encode bytes ≡ 5 ∷ 1 ∷ 7 ∷ 3 ∷ 255 ∷ 1 ∷ [])
unfolding delta_encode run_length_encode
coded = (refl, refl)

run_length_decode-run_length_encode_example : run_length_decode (run_length_encode bytes) ≡ bytes
run_length_decode-run_length_encode_example = run_length_decode-run_length_encode bytes

abbrev engine : Engine whole_numbers
engine = create whole_numbers 1 800 512 16

decompress-compress_example :
    (decompress whole_numbers 9 (compress whole_numbers 5 bytes engine).1 engine).1
    ≡ dequantize_from_int8 whole_numbers
        (quantize_to_int8 whole_numbers bytes (compute_scale_factor whole_numbers bytes))
        (compute_scale_factor whole_numbers bytes)
decompress-compress_example = decompress-compress whole_numbers 5 9 bytes engine engine

compress_bounds_example :
    let result = (compress whole_numbers 5 bytes engine).1 in
    IsRuns result.rle_data
    × (result.compressed_size ≡ length result.rle_data)
    × (2 * result.compressed_size ≤ result.original_size)
compress_bounds_example = compress_bounds whole_numbers 5 bytes engine (omega arith)

-- Two pages that share a slot of the table, and the first of them again.
abbrev addresses : List ℕ
addresses = 0x100000123 ∷ 0x100400456 ∷ 0x100000FFF ∷ []

translate_all-create_example : translate_all whole_numbers addresses engine ≡ map mapped addresses
translate_all-create_example =
    translate_all-create whole_numbers addresses 1 800 512 16 (omega arith)
