-- ===== src/Prefetch/Types.antt =====
-- The data of `SpeculativePrefetcher` (src/prefetcher/speculative_prefetcher.h). The memory manager
-- and the predictor that it points to are arguments of the methods that call them.
use cxl_spec_kv.Common.{ℕ, Bool, List, []}
use cxl_spec_kv.Engine.Floats.{Floats}

module _ (f : Floats) where
  open f use {Float, Double, double_of}

  pub record PrefetchRequest : Type 0 where
    pub virtual_addr : ℕ
    pub layer_id : ℕ
    pub predicted_token_id : ℕ
    pub confidence : Float
    pub timestamp : ℕ

  pub record PrefetchStatistics : Type 0 where
    pub total_prefetches : ℕ
    pub successful_prefetches : ℕ
    pub mispredictions : ℕ
    pub hit_rate : Double
    pub precision : Double
    pub avg_prediction_latency_us : Double

  -- `accuracy_history` holds whether each prediction was right, for the 1.0 and 0.0 of the code;
  -- `outstanding_prefetches` is a queue from its front.
  pub record Prefetcher : Type 0 where
    pub prefetch_depth : ℕ
    pub history_length : ℕ
    pub adaptive_depth : ℕ
    pub accuracy_history : List Bool
    pub accuracy_window_size : ℕ
    pub outstanding_prefetches : List PrefetchRequest
    pub stats : PrefetchStatistics

  abbrev pub no_statistics : PrefetchStatistics
  no_statistics = record {
    total_prefetches = 0;
    successful_prefetches = 0;
    mispredictions = 0;
    hit_rate = double_of 0;
    precision = double_of 0;
    avg_prediction_latency_us = double_of 0;
  }

  unfoldable pub create : ℕ → ℕ → Prefetcher
  create prefetch_depth history_length = record {
    prefetch_depth = prefetch_depth;
    history_length = history_length;
    adaptive_depth = prefetch_depth;
    accuracy_history = [];
    accuracy_window_size = 100;
    outstanding_prefetches = [];
    stats = no_statistics;
  }
