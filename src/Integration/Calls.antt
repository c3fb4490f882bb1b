-- ===== src/Integration/Calls.antt =====
-- Sequences of calls on the allocator (src/integration/memory_allocator.cpp).
use cxl_spec_kv.Common.{ℕ, ◌+◌, Bool, true, ◌&&◌, List, [], ◌∷◌, ltb}
use cxl_spec_kv.Engine.Floats.{Floats}
use cxl_spec_kv.Integration.Types.{Reply, answer, ◌>>=◌, CxlMemoryAllocator}
use cxl_spec_kv.Integration.Methods.{cxl_malloc, cxl_free, cxl_access, prefetch_hint}

module _ (f : Floats) where
  open f use {Float}

  -- One constructor for each public method that may change the allocator once it is initialised,
  -- with its arguments in their order; the time comes first.
  pub data Call : Type 0 where
    malloc : ℕ → ℕ → ℕ → Call
    free : ℕ → Call
    access : ℕ → ℕ → ℕ → Call
    hint : (List ℕ → ℕ → List (ℕ × Float)) → (ℕ → ℕ) → ℕ → List ℕ → ℕ → Call

  unfoldable pub step : Call → CxlMemoryAllocator f → Reply (CxlMemoryAllocator f)
  step (malloc now size layer) a = do (after, _) ← cxl_malloc f now size layer a; answer after
  step (free ptr) a = cxl_free f ptr a
  step (access now ptr offset) a = do (after, _) ← cxl_access f now ptr offset a; answer after
  step (hint predict_top_k now latency_us history layer) a =
      prefetch_hint f predict_top_k now latency_us history layer a

  unfoldable pub run : List Call → CxlMemoryAllocator f → Reply (CxlMemoryAllocator f)
  run [] a = answer a
  run (c ∷ calls) a = do after ← step c a; run calls after

  -- The call does not allocate 0 bytes.
  unfoldable pub sized : Call → Bool
  sized (malloc now size layer) = ltb 0 size
  sized _ = true

  unfoldable pub all_sized : List Call → Bool
  all_sized [] = true
  all_sized (c ∷ calls) = sized c && all_sized calls

  -- The virtual addresses that a call takes up, at most.
  unfoldable pub cost : Call → ℕ
  cost (malloc now size layer) = size + 4096
  cost _ = 0

  unfoldable pub demand : List Call → ℕ
  demand [] = 0
  demand (c ∷ calls) = cost c + demand calls

  -- The promotions of a call, at most.
  unfoldable pub promotions : Call → ℕ
  promotions (access now ptr offset) = 1
  promotions _ = 0

  unfoldable pub accesses : List Call → ℕ
  accesses [] = 0
  accesses (c ∷ calls) = promotions c + accesses calls
