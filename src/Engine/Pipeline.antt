-- ===== src/Engine/Pipeline.antt =====
-- `compress`, `decompress` and the statistics of `FPGACacheEngine`
-- (src/fpga_engine/cache_engine.cpp). `num_tokens`, `hidden_dim` and `layer_id` are not read by the
-- code; `latency_ns` is what the clock measured.
use cxl_spec_kv.Common.{ℕ, ◌*◌, ◌≤◌, ◌<◌, ◌≡◌, refl, List, none, some, arith, length, get_elem?}
use cxl_spec_kv.Common.Words.{inc64, sub64, mul64, u64_mod}
use cxl_spec_kv.Engine.Floats.{Floats}
use cxl_spec_kv.Engine.Types.{CompressedData, EngineStatistics, Engine, no_statistics}
use cxl_spec_kv.Engine.Delta.{
  delta_encode, delta_decode, delta_decode-delta_encode, delta_encode-AllBytes, length-delta_encode,
}
use cxl_spec_kv.Engine.RunLength.{
  run_length_encode, run_length_decode, run_length_decode-run_length_encode, IsRuns,
  run_length_encode-IsRuns, length-run_length_encode-le,
}
use cxl_spec_kv.Engine.Quantize.{
  compute_scale_factor, quantize_to_int8, dequantize_from_int8, quantize-AllBytes, length-quantize,
}

module _ (f : Floats) where
  open f use {Float, Double, double_of, double_add, double_mul, double_div, double_hundredths}

  -- `(avg * (total - 1) + value) / total`.
  unfoldable pub running_average : Double → ℕ → Double → Double
  running_average avg total value =
      double_div (double_add (double_mul avg (double_of (sub64 total 1))) value) (double_of total)

  unfoldable pub compress_data : List Float → CompressedData f
  compress_data kv_data =
      let scale = compute_scale_factor f kv_data in
      let rle = run_length_encode (delta_encode (quantize_to_int8 f kv_data scale)) in
      record {
        scale_factor = scale;
        rle_data = rle;
        original_size = mul64 (length kv_data) 4;
        compressed_size = length rle;
      }

  unfoldable pub count_compression : CompressedData f → ℕ → EngineStatistics f → EngineStatistics f
  unfolding running_average
  count_compression result latency_ns s =
      let total = inc64 s.total_compressions in
      let ratio = double_div (double_of result.original_size) (double_of result.compressed_size) in
      record s {
        total_compressions = total;
        avg_compression_ratio = running_average s.avg_compression_ratio total ratio;
        avg_compression_latency_ns =
            running_average s.avg_compression_latency_ns total (double_of latency_ns);
      }

  unfoldable pub compress : ℕ → List Float → Engine f → Engine f × CompressedData f
  unfolding compress_data count_compression
  compress latency_ns kv_data engine =
      let result = compress_data kv_data in
      (record engine { stats = count_compression result latency_ns engine.stats }, result)

  unfoldable pub decompress_data : CompressedData f → List Float
  decompress_data compressed =
      dequantize_from_int8 f (delta_decode (run_length_decode compressed.rle_data))
        compressed.scale_factor

  unfoldable pub count_decompression : ℕ → EngineStatistics f → EngineStatistics f
  unfolding running_average
  count_decompression latency_ns s =
      let total = inc64 s.total_decompressions in
      record s {
        total_decompressions = total;
        avg_decompression_latency_ns =
            running_average s.avg_decompression_latency_ns total (double_of latency_ns);
      }

  unfoldable pub decompress : ℕ → CompressedData f → Engine f → Engine f × List Float
  unfolding decompress_data count_decompression
  decompress latency_ns compressed engine = (
    record engine { stats = count_decompression latency_ns engine.stats },
    decompress_data compressed,
  )

  -- `data_width_bits_ / 8.0` is a division of doubles.
  unfoldable pub compute_throughput_gbps : Engine f → Double
  compute_throughput_gbps engine =
      double_mul
        (double_mul (double_div (double_of engine.data_width_bits) (double_of 8))
          (double_div engine.clock_frequency_mhz (double_of 1000)))
        (double_of engine.num_engines)

  unfoldable pub get_statistics : Engine f → EngineStatistics f
  unfolding compute_throughput_gbps
  get_statistics engine = record engine.stats { throughput_gbps = compute_throughput_gbps engine }

  unfoldable pub reset_statistics : Engine f → Engine f
  reset_statistics engine = record engine { stats = no_statistics f }

  unfoldable pub set_num_engines : ℕ → Engine f → Engine f
  set_num_engines n engine = record engine { num_engines = n }

  unfoldable pub get_num_engines : Engine f → ℕ
  get_num_engines engine = engine.num_engines

  -- A constant that nothing calls.
  unfoldable pub compute_pipeline_latency_cycles : Engine f → ℕ
  compute_pipeline_latency_cycles engine = 25

  -- The ratio of a layer, and 3.2 for one that has none.
  unfoldable pub get_compression_ratio : ℕ → Engine f → Double
  get_compression_ratio layer_id engine =
      elim (get_elem? engine.layer_compression_ratios layer_id) [
        | none ↦ double_hundredths 320
        | some ratio ↦ ratio
      ]

  quantized : List Float → List ℕ
  quantized kv_data = quantize_to_int8 f kv_data (compute_scale_factor f kv_data)

  -- Decompression gives back the quantized values exactly: delta and run-length coding lose
  -- nothing, whatever the float arithmetic does.
  pub decompress-compress :
      (latency latency' : ℕ) (kv_data : List Float) (engine engine' : Engine f)
      → (decompress latency' (compress latency kv_data engine).1 engine').1
        ≡ dequantize_from_int8 f
            (quantize_to_int8 f kv_data (compute_scale_factor f kv_data))
            (compute_scale_factor f kv_data)
  unfolding compress decompress
  decompress-compress latency latency' kv_data engine engine' =
      let scale = compute_scale_factor f kv_data in
      let bytes = quantize_to_int8 f kv_data scale in
      rw
        (
          run_length_decode-run_length_encode (delta_encode bytes),
          delta_decode-delta_encode bytes (quantize-AllBytes f kv_data scale),
        )
        refl

  -- The compressed data is a canonical run-length encoding, its recorded size is its length, and
  -- it never has more than two bytes for each value, half of the four bytes of a `float`.
  pub compress_bounds :
      (latency : ℕ) (kv_data : List Float) (engine : Engine f)
      → 4 * length kv_data < u64_mod
      → let result = (compress latency kv_data engine).1 in
        IsRuns result.rle_data
        × (result.compressed_size ≡ length result.rle_data)
        × (2 * result.compressed_size ≤ result.original_size)
  unfolding compress
  compress_bounds latency kv_data engine h =
      let scale = compute_scale_factor f kv_data in
      let bytes = quantize_to_int8 f kv_data scale in
      let deltas = delta_encode bytes in
      (
        run_length_encode-IsRuns deltas
            (delta_encode-AllBytes bytes (quantize-AllBytes f kv_data scale)),
        refl,
        omega (
          arith,
          length-run_length_encode-le deltas,
          length-delta_encode bytes,
          length-quantize f kv_data scale,
        ),
      )
