-- ===== src/Memory/Separate.antt =====
-- No two addresses share memory: the invariant of `CXLMemoryManager`
-- (src/cxl_memory/cxl_memory_manager.cpp) for its three bump pointers and its page table.
use cxl_spec_kv.Common.{ℕ, ◌+◌, ◌*◌, ◌<◌, ◌≤◌, ◌≡◌, ◌≢◌, ◌⊎◌, inl, inr, false, arith, ◌∙◌, sym}
use cxl_spec_kv.Common.Words.{u64_mod}
use cxl_spec_kv.Memory.Types.{MemoryManager}
use cxl_spec_kv.Memory.Pages.{translate_virtual_to_physical, deallocate}
use cxl_spec_kv.Memory.Translate.{translate-deallocate}
use cxl_spec_kv.Memory.Addresses.{SameCounters, SameAddresses, deallocate-SameCounters}

-- A physical address that some allocation took: in the region of a tier, below its bump pointer.
abbrev pub Placed : ℕ → MemoryManager → Type 0
Placed p m =
    ((0x8000000000 ≤ p) × (p < m.next_physical_addr_l1))
    ⊎ (((0x10000000000 ≤ p) × (p < m.next_physical_addr_l2))
        ⊎ ((0x20000000000 ≤ p) × (p < m.next_physical_addr_l3)))

-- Pages of some size, the next of which starts at the next virtual address; every tier has room for
-- `room` more bytes in its region; addresses that were not given out are not mapped, those that are
-- mapped lie in the regions, and no two of them have the same physical address.
pub record IsSeparate (room : ℕ) (m : MemoryManager) : Type 0 where
  pub positive : 0 < m.page_size
  pub page_number : ℕ
  pub aligned : m.next_virtual_addr ≡ page_number * m.page_size
  pub free_lock : m.page_table_locked ≡ false
  pub fits : m.next_virtual_addr + room < u64_mod
  pub l1_from : 0x8000000000 ≤ m.next_physical_addr_l1
  pub l1_to : m.next_physical_addr_l1 + room ≤ 0x10000000000
  pub l2_from : 0x10000000000 ≤ m.next_physical_addr_l2
  pub l2_to : m.next_physical_addr_l2 + room ≤ 0x20000000000
  pub l3_from : 0x20000000000 ≤ m.next_physical_addr_l3
  pub l3_to : m.next_physical_addr_l3 + room < u64_mod
  pub unmapped : (a : ℕ) → m.next_virtual_addr ≤ a → translate_virtual_to_physical a m ≡ 0
  pub placed :
      (a : ℕ) → translate_virtual_to_physical a m ≢ 0 → Placed (translate_virtual_to_physical a m) m
  pub injective :
      (a b : ℕ)
      → translate_virtual_to_physical a m ≢ 0
      → translate_virtual_to_physical a m ≡ translate_virtual_to_physical b m
      → a ≡ b

-- Every address keeps its translation or loses it.
abbrev pub Fewer : MemoryManager → MemoryManager → Type 0
Fewer m n =
    (a : ℕ)
    → (translate_virtual_to_physical a n ≡ 0)
      ⊎ (translate_virtual_to_physical a n ≡ translate_virtual_to_physical a m)

pub Fewer-IsSeparate :
    (room : ℕ) (m n : MemoryManager)
    → SameCounters m n
    → Fewer m n
    → IsSeparate room m
    → IsSeparate room n
Fewer-IsSeparate room m n same fewer s = record {
  positive = omega (arith, same.same_page_size, s.positive);
  page_number = s.page_number;
  aligned = rw (same.same_page_size, same.same_next) s.aligned;
  free_lock = same.same_lock ∙ s.free_lock;
  fits = omega (arith, same.same_next, s.fits);
  l1_from = omega (arith, same.same_next_l1, s.l1_from);
  l1_to = omega (arith, same.same_next_l1, s.l1_to);
  l2_from = omega (arith, same.same_next_l2, s.l2_from);
  l2_to = omega (arith, same.same_next_l2, s.l2_to);
  l3_from = omega (arith, same.same_next_l3, s.l3_from);
  l3_to = omega (arith, same.same_next_l3, s.l3_to);
  unmapped = λ a lo. ground (arith, fewer a, s.unmapped a, same.same_next);
  placed = λ a mapped. elim (fewer a) [
    | inl gone ↦ absurd (mapped gone)
    | inr kept ↦
        rw (kept, same.same_next_l1, same.same_next_l2, same.same_next_l3)
          (s.placed a (λ e. mapped (kept ∙ e)))
  ];
  injective = λ a b mapped e. elim (fewer a) [
    | inl gone ↦ absurd (mapped gone)
    | inr kept ↦ elim (fewer b) [
      | inl gone ↦ absurd (mapped (e ∙ gone))
      | inr kept_too ↦ s.injective a b (λ h. mapped (kept ∙ h)) (sym kept ∙ (e ∙ kept_too))
    ]
  ];
}

pub same-IsSeparate :
    (room : ℕ) (m n : MemoryManager) → SameAddresses m n → IsSeparate room m → IsSeparate room n
same-IsSeparate room m n same =
    Fewer-IsSeparate room m n same.counters (λ a. inr (same.translation a))

pub less-IsSeparate :
    (room less : ℕ) (m : MemoryManager) → less ≤ room → IsSeparate room m → IsSeparate less m
less-IsSeparate room less m le s = record {
  positive = s.positive;
  page_number = s.page_number;
  aligned = s.aligned;
  free_lock = s.free_lock;
  fits = omega (arith, s.fits);
  l1_from = s.l1_from;
  l1_to = omega (arith, s.l1_to);
  l2_from = s.l2_from;
  l2_to = omega (arith, s.l2_to);
  l3_from = s.l3_from;
  l3_to = omega (arith, s.l3_to);
  unmapped = s.unmapped;
  placed = s.placed;
  injective = s.injective;
}

pub deallocate-IsSeparate :
    (room a : ℕ) (m : MemoryManager) → IsSeparate room m → IsSeparate room (deallocate a m)
deallocate-IsSeparate room a m =
    Fewer-IsSeparate room m (deallocate a m) (deallocate-SameCounters a m)
      (λ b. grind (arith, translate-deallocate a b m))
