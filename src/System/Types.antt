-- ===== src/System/Types.antt =====
-- The data of `CXLSpecKVSystem` (src/cxl_speckv_system.h).
use cxl_spec_kv.Common.{ℕ, Bool, false, List, Option, none}
use cxl_spec_kv.Engine.Floats.{Floats}
use cxl_spec_kv.Integration.Types.{CxlMemoryAllocator}

module _ (f : Floats) where
  open f use {Float, Double, double_hundredths, double_of}

  pub record SystemConfig : Type 0 where
    pub l1_size_gb : ℕ
    pub l2_size_gb : ℕ
    pub l3_size_gb : ℕ
    pub prefetch_depth : ℕ
    pub history_length : ℕ
    pub num_fpga_engines : ℕ
    pub fpga_clock_mhz : Double
    pub data_width_bits : ℕ
    pub hbm_channels : ℕ
    pub num_layers : ℕ
    pub hidden_dim : ℕ
    pub num_heads : ℕ

  abbrev pub default_config : SystemConfig
  default_config = record {
    l1_size_gb = 12;
    l2_size_gb = 3;
    l3_size_gb = 128;
    prefetch_depth = 4;
    history_length = 16;
    num_fpga_engines = 1;
    fpga_clock_mhz = double_hundredths 80000;
    data_width_bits = 512;
    hbm_channels = 16;
    num_layers = 80;
    hidden_dim = 8192;
    num_heads = 64;
  }

  pub record MemoryStatistics : Type 0 where
    pub l1_hits : ℕ
    pub l1_misses : ℕ
    pub l2_hits : ℕ
    pub l3_accesses : ℕ
    pub l1_hit_rate : Double

  pub record PrefetchStatistics : Type 0 where
    pub total_prefetches : ℕ
    pub successful_prefetches : ℕ
    pub hit_rate : Double
    pub avg_latency_us : Double

  pub record FpgaStatistics : Type 0 where
    pub total_compressions : ℕ
    pub total_decompressions : ℕ
    pub avg_compression_ratio : Double
    pub throughput_gbps : Double

  pub record SystemStatistics : Type 0 where
    pub memory : MemoryStatistics
    pub prefetch : PrefetchStatistics
    pub fpga : FpgaStatistics
    pub throughput_tokens_per_sec : Double
    pub avg_latency_ms : Double

  -- All zero.
  abbrev pub no_statistics : SystemStatistics
  no_statistics = record {
    memory = record {
      l1_hits = 0;
      l1_misses = 0;
      l2_hits = 0;
      l3_accesses = 0;
      l1_hit_rate = double_of 0;
    };
    prefetch = record {
      total_prefetches = 0;
      successful_prefetches = 0;
      hit_rate = double_of 0;
      avg_latency_us = double_of 0;
    };
    fpga = record {
      total_compressions = 0;
      total_decompressions = 0;
      avg_compression_ratio = double_of 0;
      throughput_gbps = double_of 0;
    };
    throughput_tokens_per_sec = double_of 0;
    avg_latency_ms = double_of 0;
  }

  -- The three component pointers are null from the constructor on and never read.
  pub record CxlSpecKvSystem : Type 0 where
    pub config : SystemConfig
    pub allocator : Option (CxlMemoryAllocator f)
    pub initialized : Bool

  unfoldable pub create : CxlSpecKvSystem
  create = record { config = default_config; allocator = none; initialized = false }

  -- What is read from outside in one turn of the loop: the predictor's answers, the clock for the
  -- requests, the latency, and the times of the allocation and the access.
  pub record Readings : Type 0 where
    pub predict_top_k : List ℕ → ℕ → List (ℕ × Float)
    pub request_times : ℕ → ℕ
    pub latency_us : ℕ
    pub malloc_time : ℕ
    pub access_time : ℕ
