-- ===== src/Integration/Books.antt =====
-- The handles and the counters of the allocator (src/integration/memory_allocator.cpp) balance over any
-- sequence of calls.
use cxl_spec_kv.Common.{
  ℕ, ◌+◌, ◌<◌, ◌≤◌, ◌≡◌, refl, true, false, List, [], ◌∷◌, none, some, arith, length, ◌∙◌,
}
use cxl_spec_kv.Common.Words.{u64_mod}
use cxl_spec_kv.Common.Assoc.{
  lookup, erase, All, Distinct, All-insert, All-erase, Distinct-insert, Distinct-erase, total,
  total-insert, total-erase,
}
use cxl_spec_kv.Engine.Floats.{Floats}
use cxl_spec_kv.Memory.Types.{MemoryTier, MemoryManager, l1_gpu_local, l2_prefetch, l3_cxl_pool}
use cxl_spec_kv.Memory.Pages.{
  allocate, deallocate, reserve, forget, actual_tier, same_tier, remove_all,
}
use cxl_spec_kv.Memory.Allocate.{pages_for_covers, pages_for_fits}
use cxl_spec_kv.Integration.Types.{AllocationHandle, CxlMemoryAllocator}
use cxl_spec_kv.Integration.Methods.{add_handle, count_malloc, count_free}
use cxl_spec_kv.Integration.Access.{after_malloc}

-- Each handle names its address, which lies below the next one.
abbrev pub IsBelow : ℕ → ℕ → AllocationHandle → Type 0
IsBelow next k h = (k < next) × (h.virtual_addr ≡ k)

abbrev pub bytes : AllocationHandle → ℕ
bytes h = h.size_bytes

abbrev pub one : AllocationHandle → ℕ
one h = 1

-- The same L1: its size, and how many pages are listed there.
abbrev pub SameL1 : MemoryManager → MemoryManager → Type 0
SameL1 m n = (n.l1_size_bytes ≡ m.l1_size_bytes) × (length n.l1_pages ≤ length m.l1_pages)

module _ (f : Floats) where
  -- The memory manager is there with its lock free and room for `room` more virtual addresses; the
  -- handles are distinct; the bytes in use are the sum of their sizes, and the allocations less the
  -- releases their number; and the peak is at least the bytes in use.
  pub record IsBalanced (room : ℕ) (manager : MemoryManager) (a : CxlMemoryAllocator f)
      : Type 0 where
    pub ready : a.initialized ≡ true
    pub has_manager : a.memory_manager ≡ some manager
    pub free_lock : manager.page_table_locked ≡ false
    pub pages : manager.page_size ≡ 4096
    pub l1_fits : manager.l1_size_bytes < u64_mod
    pub start : 0 < manager.next_virtual_addr
    pub fits : manager.next_virtual_addr + room ≤ u64_mod
    pub below : All (IsBelow manager.next_virtual_addr) a.handle_map
    pub distinct : Distinct a.handle_map
    pub in_use : a.stats.current_allocated_bytes ≡ total bytes a.handle_map
    pub open_handles :
        a.stats.total_allocations ≡ a.stats.total_deallocations + total one a.handle_map
    pub few_bytes : a.stats.current_allocated_bytes < manager.next_virtual_addr
    pub few_calls : a.stats.total_allocations < manager.next_virtual_addr
    pub peak : a.stats.current_allocated_bytes ≤ a.stats.peak_allocated_bytes

  module _ {κ} {V : Type κ} {P Q : ℕ → V → Type 0} where
    All-map : ((k : ℕ) (v : V) → P k v → Q k v) → (m : List (ℕ × V)) → All P m → All Q m
    All-map h [] a = tt
    All-map h ((k, v) ∷ m) a = (h k v a.0, All-map h m a.1)

  fresh : (next : ℕ) (m : List (ℕ × AllocationHandle)) → All (IsBelow next) m → lookup next m ≡ none
  unfolding lookup
  fresh next [] a = refl
  fresh next ((k, h) ∷ m) a = ground (arith, fresh next m a.1, a.0)

  -- The next address after an allocation.
  pub next-allocate :
      (now size layer : ℕ) (m : MemoryManager)
      → m.page_size ≡ 4096
      → 0 < size
      → m.next_virtual_addr + size + 4096 ≤ u64_mod
      → (m.next_virtual_addr < (allocate now size layer l3_cxl_pool m).0.next_virtual_addr)
        × ((allocate now size layer l3_cxl_pool m).0.next_virtual_addr
            < m.next_virtual_addr + size + 4096)
        × ((allocate now size layer l3_cxl_pool m).0.page_size ≡ m.page_size)
        × ((allocate now size layer l3_cxl_pool m).0.page_table_locked ≡ m.page_table_locked)
        × (m.next_virtual_addr + size ≤ (allocate now size layer l3_cxl_pool m).0.next_virtual_addr)
        × SameL1 m (allocate now size layer l3_cxl_pool m).0
  unfolding allocate reserve actual_tier same_tier
  next-allocate now size layer m pages sized fits =
      let covers = (pages_for_covers size m (omega arith) (omega arith)).1 in
      let small = pages_for_fits size m (omega arith) (omega arith) in
      (
        omega (arith, covers, small, pages),
        omega (arith, covers, small, pages),
        refl,
        refl,
        omega (arith, covers, small, pages),
        (refl, omega arith),
      )

  pub malloc-IsBalanced :
      (now size layer room : ℕ) (m : MemoryManager) (a : CxlMemoryAllocator f)
      → 0 < size
      → IsBalanced (size + 4096 + room) m a
      → IsBalanced room
          (allocate now size layer l3_cxl_pool m).0
          (after_malloc f now size layer m a)
  unfolding add_handle count_malloc
  malloc-IsBalanced now size layer room m a sized b =
      let next = next-allocate now size layer m b.pages sized (omega (arith, b.fits)) in
      let unused = fresh m.next_virtual_addr a.handle_map b.below in
      let handle : AllocationHandle = record {
        virtual_addr = m.next_virtual_addr;
        size_bytes = size;
        layer_id = layer;
      } in
      let lower =
        All-map {P = IsBelow m.next_virtual_addr}
          {Q = IsBelow (allocate now size layer l3_cxl_pool m).0.next_virtual_addr}
          (λ k h p. (omega (arith, p.0, next.0), p.1)) a.handle_map b.below in
      let sizes = total-insert bytes m.next_virtual_addr handle a.handle_map unused in
      let number = total-insert one m.next_virtual_addr handle a.handle_map unused in
      record {
        ready = b.ready;
        has_manager = refl;
        free_lock = next.3 ∙ b.free_lock;
        pages = next.2 ∙ b.pages;
        l1_fits = omega (arith, next.5.0, b.l1_fits);
        start = omega (arith, next.0);
        fits = omega (arith, next.1, b.fits);
        below = All-insert (IsBelow _) m.next_virtual_addr handle a.handle_map (next.0, refl) lower;
        distinct = Distinct-insert m.next_virtual_addr handle a.handle_map b.distinct;
        in_use = omega (arith, b.in_use, sizes, b.few_bytes, b.fits);
        open_handles = omega (arith, b.open_handles, number, b.few_calls, b.fits);
        few_bytes = omega (arith, next.4, b.few_bytes, b.fits);
        few_calls = omega (arith, next.4, b.few_calls, b.fits, sized);
        peak = ground arith;
      }

  length-remove_all : (k : ℕ) (xs : List ℕ) → length (remove_all k xs) ≤ length xs
  unfolding remove_all
  length-remove_all k [] = omega arith
  length-remove_all k (x ∷ xs) = ground (arith, length-remove_all k xs)

  forget-fields :
      (t : MemoryTier) (k : ℕ) (m : MemoryManager)
      → ((forget t k m).next_virtual_addr ≡ m.next_virtual_addr)
        × ((forget t k m).page_size ≡ m.page_size)
        × ((forget t k m).page_table_locked ≡ m.page_table_locked)
        × SameL1 m (forget t k m)
  unfolding forget
  forget-fields l1_gpu_local k m = (refl, refl, refl, (refl, length-remove_all k m.l1_pages))
  forget-fields l2_prefetch k m = (refl, refl, refl, (refl, omega arith))
  forget-fields l3_cxl_pool k m = (refl, refl, refl, (refl, omega arith))

  pub deallocate-fields :
      (k : ℕ) (m : MemoryManager)
      → ((deallocate k m).next_virtual_addr ≡ m.next_virtual_addr)
        × ((deallocate k m).page_size ≡ m.page_size)
        × ((deallocate k m).page_table_locked ≡ m.page_table_locked)
        × SameL1 m (deallocate k m)
  unfolding deallocate
  deallocate-fields k m = (
    grind (arith, forget-fields),
    grind (arith, forget-fields),
    grind (arith, forget-fields),
    (grind (arith, forget-fields), grind (arith, forget-fields)),
  )

  pub free-IsBalanced :
      (ptr room : ℕ) (m : MemoryManager) (a : CxlMemoryAllocator f) (h : AllocationHandle)
      → IsBalanced room m a
      → lookup ptr a.handle_map ≡ some h
      → IsBalanced room (deallocate h.virtual_addr m) (record a {
        memory_manager = some (deallocate h.virtual_addr m);
        stats = count_free f h.size_bytes a.stats;
        handle_map = erase ptr a.handle_map;
      })
  unfolding count_free
  free-IsBalanced ptr room m a h b found =
      let fields = deallocate-fields h.virtual_addr m in
      let sizes = total-erase bytes ptr h a.handle_map b.distinct found in
      let number = total-erase one ptr h a.handle_map b.distinct found in
      record {
        ready = b.ready;
        has_manager = refl;
        free_lock = fields.2 ∙ b.free_lock;
        pages = fields.1 ∙ b.pages;
        l1_fits = omega (arith, fields.3.0, b.l1_fits);
        start = omega (arith, fields.0, b.start);
        fits = omega (arith, fields.0, b.fits);
        below = All-erase (IsBelow _) ptr a.handle_map (rw (fields.0) b.below);
        distinct = Distinct-erase ptr a.handle_map b.distinct;
        in_use = omega (arith, b.in_use, sizes, b.few_bytes, b.fits);
        open_handles = omega (arith, b.open_handles, number, b.few_calls, b.fits);
        few_bytes = omega (arith, b.in_use, sizes, b.few_bytes, b.fits, fields.0);
        few_calls = omega (arith, b.few_calls, fields.0);
        peak = omega (arith, b.in_use, sizes, b.few_bytes, b.fits, b.peak);
      }
