-- ===== src/Memory/Tests.antt =====
-- Runs of `CXLMemoryManager`, and the theorems at concrete managers.
use cxl_spec_kv.Engine.Floats.{whole_numbers}
use cxl_spec_kv.Common.{◌≡◌, ◌↔◌, ◌⊎◌, List, [], ◌∷◌, refl, true, arith, if◌then◌else◌, ◌==◌}
use cxl_spec_kv.Common.Assoc.{lookup, insert, erase}
use cxl_spec_kv.Memory.Types.{
  MemoryManager, l1_gpu_local, l2_prefetch, create, deadlock, returned, with_page_lock,
}
use cxl_spec_kv.Memory.Pages.{
  allocate, deallocate, translate_virtual_to_physical, update_access_tracking, page_addr, get_page,
  create_pages, pages_for, reserve, actual_tier, same_tier, can_fit_in_tier, new_page, put_page,
}
use cxl_spec_kv.Memory.Migrate.{demote_to_l3, promote_to_l1, evict_l1_lru}
use cxl_spec_kv.Memory.Translate.{translate-deallocate}
use cxl_spec_kv.Memory.Lock.{must_evict, promotable, promote_to_l1-deadlock}
use cxl_spec_kv.Memory.Allocate.{next_physical}
use cxl_spec_kv.Memory.Histories.{
  Call, allocate_call, deallocate_call, promote_call, demote_call, track_call, step, run, demand,
  cost, any_promotes, Injective, run-Injective,
}
use cxl_spec_kv.Memory.Rates.{l1_hit_rate, l2_hit_rate, all_hits, run-hit_rates}

-- A manager with no L1, after an allocation of three pages that was meant for it, and an access to
-- the second.
abbrev no_l1 : MemoryManager
no_l1 = update_access_tracking 8 0x100001010 (allocate 7 9000 5 l1_gpu_local (create 0 1 2 4096)).0

-- The same with 1 GB of L1, and the pages in the L2.
abbrev with_l1 : MemoryManager
with_l1 = update_access_tracking 8 0x100001010 (allocate 7 9000 5 l2_prefetch (create 1 1 2 4096)).0

tests : Unit {0}
unfolding create allocate update_access_tracking promote_to_l1 translate_virtual_to_physical
    next_physical deallocate must_evict promotable with_page_lock get_page lookup insert erase
    create_pages pages_for reserve actual_tier same_tier can_fit_in_tier new_page page_addr put_page
    evict_l1_lru demote_to_l3
tests = tt

promote_waits : promote_to_l1 0x100001010 no_l1 ≡ deadlock
unfolding tests
promote_waits = refl

-- Freeing an allocation leaves its second page.
freed : translate_virtual_to_physical 0x100001010 (deallocate 0x100000000 no_l1) ≡ 0x20000001010
unfolding tests
freed = refl

translate-deallocate_example :
    translate_virtual_to_physical 0x100001010 (deallocate 0x100000000 no_l1) ≡ (
      if 0x100000000 == page_addr 0x100001010 no_l1
      then 0
      else translate_virtual_to_physical 0x100001010 no_l1)
translate-deallocate_example = translate-deallocate 0x100000000 0x100001010 no_l1

promote_to_l1-deadlock_example :
    (promote_to_l1 0x100001010 no_l1 ≡ deadlock) ↔ (must_evict 0x100001010 no_l1 ≡ true)
unfolding tests
promote_to_l1-deadlock_example = promote_to_l1-deadlock 0x100001010 no_l1 refl

-- Allocations in two tiers, and what may happen to their pages.
abbrev calls : List Call
calls =
    allocate_call 1 9000 0 l1_gpu_local
    ∷ allocate_call 2 5000 3 l2_prefetch
    ∷ track_call 3 0x100001010
    ∷ demote_call 0x100000000
    ∷ promote_call 0x100003000
    ∷ deallocate_call 0x100000000
    ∷ allocate_call 4 1 0 l1_gpu_local
    ∷ []

run-Injective_example :
    ((run calls (create 1 1 2 4096) ≡ deadlock) × (any_promotes calls ≡ true))
    ⊎ ((m : MemoryManager) × (run calls (create 1 1 2 4096) ≡ returned m) × Injective m)
unfolding demand cost
run-Injective_example = run-Injective 1 1 2 4096 0x100000 calls (omega arith) refl (omega arith)

-- An access that is counted.
abbrev accesses : List Call
accesses = allocate_call 7 9000 5 l2_prefetch ∷ track_call 8 0x100001010 ∷ []

run-hit_rates_example :
    (l1_hit_rate whole_numbers with_l1 ≡ all_hits whole_numbers with_l1.stats.l1_hits)
    × (l2_hit_rate whole_numbers with_l1 ≡ all_hits whole_numbers with_l1.stats.l2_hits)
unfolding run step
run-hit_rates_example = run-hit_rates whole_numbers 1 1 2 4096 accesses with_l1 refl
