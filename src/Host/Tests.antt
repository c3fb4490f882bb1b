-- ===== src/Host/Tests.antt =====
-- Runs of the host allocator's model, and its theorems at concrete data.
use cxl_spec_kv.Common.{
  false, true, List, [], ◌∷◌, ℕ, ◌+◌, ◌*◌, ◌^◌, ◌≡◌, refl, Bool, some, arith, ◌==◌, if◌then◌else◌,
  leb, ◌&&◌, map, take, ◌++◌, ◌-◌,
}
use cxl_spec_kv.Host.Allocator.{SpeckvAllocator, create, alloc, access, SpeckvDmaDesc}
use cxl_spec_kv.Host.Access.{access-alloc, access-alloc_overlap}
use cxl_spec_kv.Host.Api.{
  Call, init, alloc_call, access_call, finalize, free_call, set_prefetch_depth, no_globals,
}
use cxl_spec_kv.Host.Safety.{is_safe, run, run-no_globals}
use cxl_spec_kv.Kernel.Ring.{ring_writes}
use cxl_spec_kv.Host.Driver.{SpeckvDriver, submit_dma_batch, ioctl_desc, minus_one}
use cxl_spec_kv.Host.Machine.{HostMachine, KernelAnswers}
use cxl_spec_kv.Host.Lost.{Access, given, run_alone, run_on, Lands, run_on-run_alone}
use cxl_spec_kv.Host.Submit.{carried, submit_dma_batch-writes}

-- A driver whose third poll does not answer 0.
abbrev third : ℕ → Bool
third i = i == 2

abbrev one_alloc : SpeckvAllocator
one_alloc = (alloc 9000 create).0

access-alloc_overlap_example :
    (n m : SpeckvAllocator) × (access 5 third
        (alloc 2000000 create).1
        (2 ^ 20 + 7)
        (alloc 9000 (alloc 2000000 create).0).0
      ≡ some (n, some (0x4000000000 + create.next_handle * 2 ^ 20 + (2 ^ 20 + 7))))
    × (access 5 third
          (alloc 9000 (alloc 2000000 create).0).1
          7
          (alloc 9000 (alloc 2000000 create).0).0
        ≡ some (m, some (0x4000000000 + create.next_handle * 2 ^ 20 + (2 ^ 20 + 7))))
access-alloc_overlap_example =
    access-alloc_overlap 2000000 9000 7 5 2 third create (omega arith) (omega arith) (omega arith)
      (omega arith) (omega arith) refl (omega arith)

accessed : (n : SpeckvAllocator) × (access 5 third 1 4100 one_alloc ≡ some (n, some 0x4000101004))
unfolding alloc
accessed =
    access-alloc 9000 4100 5 2 third create (omega arith) (omega arith) (omega arith) refl
      (omega arith)

-- An allocation, an access that waits for the third poll, and calls after the library was closed.
abbrev calls : List Call
calls =
    free_call 1
    ∷ init true
    ∷ alloc_call 9000 true
    ∷ access_call 5 third 1 4100 true
    ∷ init true
    ∷ finalize
    ∷ set_prefetch_depth false
    ∷ []

run-no_globals_example : is_safe (run calls no_globals) ≡ true
run-no_globals_example = run-no_globals calls

-- A driver over a module whose ring has one slot left, and a batch of two descriptors.
abbrev driver : SpeckvDriver
driver = record {
  ok = true;
  kernel = record {
    mapped = true;
    dma_ring_wr_ptr = 1022;
    dma_ring_rd_ptr = 0;
    dma_pending = 1022;
    writes = [];
  };
}

abbrev dma_desc : SpeckvDmaDesc
dma_desc = record { fpga_addr = 0x4000100000; gpu_addr = 0x8000000000; bytes = 4096; flags = 0 }

abbrev dma_descs : List SpeckvDmaDesc
dma_descs = dma_desc ∷ dma_desc ∷ []

submit_dma_batch-writes_example :
    ((submit_dma_batch 0x7000 true true dma_descs driver).1
      ≡ (if true && (true && leb (carried dma_descs) 4096) then 0 else minus_one))
    × ((submit_dma_batch 0x7000 true true dma_descs driver).0.kernel.writes ≡ (
        if true && (true && leb (carried dma_descs) 4096)
        then []
          ++ ring_writes 1022
              (take (1023 - 1022) (take (carried dma_descs) (map ioctl_desc dma_descs)))
        else []))
submit_dma_batch-writes_example =
    submit_dma_batch-writes 0x7000 true true dma_descs driver refl refl (refl, omega arith)
      (omega arith)

-- The library over that driver: two pages of an allocation, when the ring has one slot left.
abbrev over_driver : HostMachine
over_driver = record { library = one_alloc; driver = driver }

abbrev answering : (ℕ → ℕ) → KernelAnswers
answering reads = record { readable = true; memory = true; reads = reads; writable = λ i. true }

-- The second access finds no memory for the copy, and its first poll fails.
abbrev both_pages : List Access
both_pages =
    record { handle = 1; offset = 0; answer = answering (λ i. i) }
    ∷ record {
      handle = 1;
      offset = 4100;
      answer = record (answering (λ i. 0)) { memory = false; writable = λ i. false };
    }
    ∷ []

run_on-run_alone_example :
    Lands
      (given 5 both_pages over_driver.library)
      over_driver
      (run_alone 5 both_pages over_driver.library)
      (run_on 0x7000 5 both_pages over_driver)
run_on-run_alone_example =
    run_on-run_alone 0x7000 5 both_pages over_driver (refl, refl, (refl, omega arith))
