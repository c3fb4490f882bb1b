-- ===== src/Integration/Apart.antt =====
-- Every byte of every handle of the allocator (src/integration/memory_allocator.cpp) has a physical
-- address of its own, after any sequence of calls.
use cxl_spec_kv.Common.{
  ℕ, ◌+◌, ◌<◌, ◌≤◌, ◌≡◌, ◌≢◌, ◌⊎◌, inl, inr, refl, true, List, [], some, arith,
}
use cxl_spec_kv.Common.Assoc.{lookup}
use cxl_spec_kv.Engine.Floats.{Floats}
use cxl_spec_kv.Memory.Types as Memory
use cxl_spec_kv.Memory.Types.{MemoryManager}
use cxl_spec_kv.Memory.Pages.{translate_virtual_to_physical}
use cxl_spec_kv.Memory.Histories.{create-IsSeparate}
use cxl_spec_kv.Integration.Types.{answer, hangs, AllocationHandle, CxlMemoryAllocator}
use cxl_spec_kv.Integration.Calls.{Call, all_sized, demand}
use cxl_spec_kv.Integration.History.{history, history-Goes}
use cxl_spec_kv.Integration.Live.{IsLive, IsLive-laws}

-- Every byte of every handle is mapped, and no other byte of a handle has its physical address.
abbrev pub OwnMemory : MemoryManager → List (ℕ × AllocationHandle) → Type 0
OwnMemory m handles =
    (k j : ℕ) (h g : AllocationHandle) (i o : ℕ)
    → lookup k handles ≡ some h
    → lookup j handles ≡ some g
    → i < h.size_bytes
    → o < g.size_bytes
    → (translate_virtual_to_physical (k + i) m ≢ 0)
      × (translate_virtual_to_physical (k + i) m ≡ translate_virtual_to_physical (j + o) m
          → (k ≡ j) × (i ≡ o))

IsLive-OwnMemory :
    (m : MemoryManager) (handles : List (ℕ × AllocationHandle))
    → IsLive 0 m handles
    → OwnMemory m handles
IsLive-OwnMemory m handles live k j h g i o found other lt lt' =
    let mapped = (live.held k h found).mapped i lt in
    (
      mapped,
      λ same.
          let byte = live.separate.injective (k + i) (j + o) mapped same in
          let left = live.disjoint k j h g found other in
          let right = live.disjoint j k g h other found in
          (grind (arith, left, right, byte), grind (arith, left, right, byte)),
    )

create-IsLive :
    (l1 l2 l3 room : ℕ) → room ≤ 0x8000000000 → IsLive room (Memory.create l1 l2 l3 4096) []
unfolding Memory.create lookup
create-IsLive l1 l2 l3 room small = record {
  pages = refl;
  separate = create-IsSeparate l1 l2 l3 4096 0x100000 room (omega arith) refl small;
  held = λ k h e. absurd (cc);
  disjoint = λ k j h g e e' lt. absurd (cc);
}

module _ (f : Floats) where
  -- A newly initialised allocator, and any sequence of allocations of at least one byte, releases,
  -- accesses and prefetch hints that asks for at most 512 GB, with 4096 bytes more for each
  -- allocation: unless an access waits for ever, at the end every byte of every allocation that was
  -- not released is mapped to a physical address that no other of those bytes has.
  pub history-OwnMemory :
      (l1 l2 l3 : ℕ) (calls : List (Call f))
      → all_sized f calls ≡ true
      → demand f calls ≤ 0x8000000000
      → (history f l1 l2 l3 calls ≡ hangs)
        ⊎ ((a : CxlMemoryAllocator f) × (m : MemoryManager) × (history f l1 l2 l3 calls ≡ answer a)
            × (a.memory_manager ≡ some m)
            × OwnMemory m a.handle_map)
  history-OwnMemory l1 l2 l3 calls positive small =
      elim (history-Goes f IsLive (IsLive-laws f) l1 l2 l3 calls positive (omega arith)
        (create-IsLive l1 l2 l3 (demand f calls) small)) [
          | inl stuck ↦ inl (stuck.0)
          | inr (a, m, e, balanced, live, _) ↦
              inr (a, m, e, balanced.has_manager, IsLive-OwnMemory m a.handle_map live)
        ]
