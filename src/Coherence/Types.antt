-- ===== src/Coherence/Types.antt =====
-- The data of `CoherenceManager` (src/cxl_memory/coherence_manager.h).
use cxl_spec_kv.Common.{ℕ, Bool, List}

pub data CoherenceState : Type 0 where
  invalid shared exclusive modified : CoherenceState

pub data MemoryTier : Type 0 where
  l1_gpu l2_prefetch l3_cxl : MemoryTier

pub data CoherenceOp : Type 0 where
  read write invalidate writeback flush : CoherenceOp

pub record DirectoryEntry : Type 0 where
  pub cache_line_addr : ℕ
  pub state : CoherenceState
  pub tier : MemoryTier
  pub last_access_time : ℕ
  pub access_count : ℕ
  pub pending_operation : Bool

-- The counters are 64-bit words.
pub record Statistics : Type 0 where
  pub total_reads : ℕ
  pub total_writes : ℕ
  pub coherence_ops : ℕ
  pub invalidations_sent : ℕ
  pub writebacks_performed : ℕ
  pub directory_hits : ℕ
  pub directory_misses : ℕ

-- `driver` says whether `driver_` is a driver and not null.
pub record CoherenceManager : Type 0 where
  pub driver : Bool
  pub cache_line_size : ℕ
  pub directory : List (ℕ × DirectoryEntry)
  pub stats : Statistics
  pub pending_ops : ℕ
