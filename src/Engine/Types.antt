-- ===== src/Engine/Types.antt =====
-- The state of `FPGACacheEngine` (src/fpga_engine/cache_engine.h) and its constructor.
use cxl_spec_kv.Common.{
  ℕ, ◌+◌, ◌*◌, ◌/◌, Bool, false, List, ltb, if◌then◌else◌, replicate, zero, suc, [], ◌∷◌,
}
use cxl_spec_kv.Engine.Floats.{Floats}

pub record TlbEntry : Type 0 where
  pub virtual_addr : ℕ
  pub physical_addr : ℕ
  pub valid : Bool

module _ (f : Floats) where
  open f use {Float, Double, double_hundredths, double_of}

  -- `rle_data` holds the bit patterns of `int8_t` values.
  pub record CompressedData : Type 0 where
    pub scale_factor : Float
    pub rle_data : List ℕ
    pub original_size : ℕ
    pub compressed_size : ℕ

  pub record EngineStatistics : Type 0 where
    pub total_compressions : ℕ
    pub total_decompressions : ℕ
    pub avg_compression_ratio : Double
    pub avg_compression_latency_ns : Double
    pub avg_decompression_latency_ns : Double
    pub throughput_gbps : Double

  pub record Engine : Type 0 where
    pub num_engines : ℕ
    pub clock_frequency_mhz : Double
    pub data_width_bits : ℕ
    pub hbm_channels : ℕ
    pub tlb : List TlbEntry
    pub tlb_size : ℕ
    pub layer_compression_ratios : List Double
    pub stats : EngineStatistics

  abbrev pub no_statistics : EngineStatistics
  no_statistics = record {
    total_compressions = 0;
    total_decompressions = 0;
    avg_compression_ratio = double_of 0;
    avg_compression_latency_ns = double_of 0;
    avg_decompression_latency_ns = double_of 0;
    throughput_gbps = double_of 0;
  }

  -- The ratio that the constructor leaves for layer `i` of 80: `i < 80 / 3` and `i > 2 * 80 / 3`.
  unfoldable pub initial_ratio : ℕ → Double
  initial_ratio i =
      if ltb i (80 / 3)
      then double_hundredths 350
      else if ltb (2 * 80 / 3) i
      then double_hundredths 275
      else double_hundredths 320

  unfoldable pub initial_ratios : ℕ → ℕ → List Double
  unfolding initial_ratio
  initial_ratios zero i = []
  initial_ratios (suc n) i = initial_ratio i ∷ initial_ratios n (i + 1)

  unfoldable pub create : ℕ → Double → ℕ → ℕ → Engine
  unfolding initial_ratios
  create num_engines clock_frequency_mhz data_width hbm_channels = record {
    num_engines = num_engines;
    clock_frequency_mhz = clock_frequency_mhz;
    data_width_bits = data_width;
    hbm_channels = hbm_channels;
    tlb = replicate 1024 (record { virtual_addr = 0; physical_addr = 0; valid = false });
    tlb_size = 1024;
    layer_compression_ratios = initial_ratios 80 0;
    stats = no_statistics;
  }
