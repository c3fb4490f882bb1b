-- ===== src/System/Tests.antt =====
-- Runs of the system's model, and its theorem at concrete data.
use cxl_spec_kv.Common.{ℕ, ◌*◌, ◌≡◌, ◌≢◌, refl, true, List, [], ◌∷◌, none, some, arith, length}
use cxl_spec_kv.Engine.Floats.{whole_numbers}
use cxl_spec_kv.Memory.Types.{gigabytes}
use cxl_spec_kv.Integration.Types.{answer, CxlMemoryAllocator}
use cxl_spec_kv.Integration.Methods.{all_built}
use cxl_spec_kv.System.Types.{CxlSpecKvSystem, Readings, create, default_config}
use cxl_spec_kv.System.Methods.{initialize, process_tokens}
use cxl_spec_kv.System.Process.{all_sized, kv_bytes, process_tokens-serves}
use cxl_spec_kv.System.Types.{SystemStatistics}
use cxl_spec_kv.Integration.Methods.{Built}
use cxl_spec_kv.System.Demo.{main, main-exits}

abbrev readings : Readings whole_numbers
readings = record {
  predict_top_k = λ history k. (7, 90) ∷ [];
  request_times = λ i. i;
  latency_us = 3;
  malloc_time = 10;
  access_time = 11;
}

-- Two batches, over the 80 layers of the default configuration.
abbrev batches : List (List ℕ)
batches = (1 ∷ 2 ∷ 3 ∷ []) ∷ (4 ∷ []) ∷ []

process_tokens-serves_example :
    (s : CxlSpecKvSystem whole_numbers) × (a : CxlMemoryAllocator whole_numbers) × (process_tokens
        whole_numbers 100
        (λ i j. readings)
        batches
        (initialize whole_numbers all_built (default_config whole_numbers) (create whole_numbers)).0
      ≡ answer (s, true))
    × (s.allocator ≡ some a)
    × (a.stats.total_allocations ≡ length batches * 80)
    × (a.stats.total_deallocations ≡ 0)
    × (a.stats.current_allocated_bytes
        ≡ kv_bytes whole_numbers (default_config whole_numbers) batches)
unfolding all_sized kv_bytes gigabytes
process_tokens-serves_example =
    process_tokens-serves whole_numbers (default_config whole_numbers) 100 (λ i j. readings) batches
      (omega arith) (omega arith) refl (omega arith) (omega arith)

main-exits_example :
    ((stats : SystemStatistics whole_numbers) × (main whole_numbers all_built 100
          (λ i j. readings)
          readings
        ≡ answer (0, some (17, stats))))
    × ((built : Built whole_numbers)
        → built ≢ all_built
        → main whole_numbers built 100 (λ i j. readings) readings ≡ answer (1, none))
main-exits_example = main-exits whole_numbers 100 (λ i j. readings) readings (omega arith)
