-- ===== src/Integration/Types.antt =====
-- The data of `CXLMemoryAllocator` (src/integration/memory_allocator.h), and how a call of it ends.
use cxl_spec_kv.Common.{ℕ, Bool, false, List, [], Option, none, some}
use cxl_spec_kv.Engine.Floats.{Floats}
use cxl_spec_kv.Engine.Types.{Engine}
use cxl_spec_kv.Memory.Types as Memory
use cxl_spec_kv.Memory.Types.{MemoryManager, Outcome}
use cxl_spec_kv.Prefetch.Types.{Prefetcher}

-- A call answers, waits for ever for a mutex of its own thread, or goes through a null pointer.
pub data Reply {ℓ} (A : Type ℓ) : Type ℓ where
  answer : A → Reply A
  hangs : Reply A
  crashes : Reply A

infixl 5 ◌>>=◌
abbrev pub ◌>>=◌ {ℓ κ} : {A : Type ℓ} {B : Type κ} → Reply A → (A → Reply B) → Reply B
answer a >>= f = f a
hangs >>= f = hangs
crashes >>= f = crashes

-- A call of the memory manager.
abbrev pub reply_of {ℓ} : {A : Type ℓ} → Outcome A → Reply A
reply_of (Memory.returned a) = answer a
reply_of Memory.deadlock = hangs

-- A call through a pointer.
abbrev pub through {ℓ} : {A : Type ℓ} → Option A → Reply A
through none = crashes
through (some a) = answer a

pub record AllocationHandle : Type 0 where
  pub virtual_addr : ℕ
  pub size_bytes : ℕ
  pub layer_id : ℕ

module _ (f : Floats) where
  open f use {Double, double_of}

  pub record AllocatorStatistics : Type 0 where
    pub total_allocations : ℕ
    pub total_deallocations : ℕ
    pub current_allocated_bytes : ℕ
    pub peak_allocated_bytes : ℕ
    pub prefetch_hit_rate : Double

  -- The pointers are `none` for null. A `void*` is the address that it holds.
  pub record CxlMemoryAllocator : Type 0 where
    pub memory_manager : Option MemoryManager
    pub prefetcher : Option (Prefetcher f)
    pub cache_engine : Option (Engine f)
    pub handle_map : List (ℕ × AllocationHandle)
    pub stats : AllocatorStatistics
    pub initialized : Bool

  abbrev pub no_statistics : AllocatorStatistics
  no_statistics = record {
    total_allocations = 0;
    total_deallocations = 0;
    current_allocated_bytes = 0;
    peak_allocated_bytes = 0;
    prefetch_hit_rate = double_of 0;
  }

  unfoldable pub create : CxlMemoryAllocator
  create = record {
    memory_manager = none;
    prefetcher = none;
    cache_engine = none;
    handle_map = [];
    stats = no_statistics;
    initialized = false;
  }
