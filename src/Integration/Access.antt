-- ===== src/Integration/Access.antt =====
-- What an access of the allocator (src/integration/memory_allocator.cpp) answers, and where the bytes of
-- an allocation lie.
use cxl_spec_kv.Common.{
  ℕ, ◌+◌, ◌*◌, ◌<◌, ◌≤◌, ◌≡◌, ◌⊎◌, ◌↔◌, refl, Bool, true, false, Option, none, some, ◌==◌, arith,
  Bool-cases, inl, inr, ◌∙◌, sym,
}
use cxl_spec_kv.Common.Words.{add64, u64_mod}
use cxl_spec_kv.Common.Assoc.{lookup, lookup-insert}
use cxl_spec_kv.Engine.Floats.{Floats}
use cxl_spec_kv.Memory.Types.{MemoryPage, MemoryManager, l3_cxl_pool}
use cxl_spec_kv.Memory.Pages.{
  allocate, reserve, actual_tier, same_tier, can_fit_in_tier, translate_virtual_to_physical,
}
use cxl_spec_kv.Memory.Translate.{SameTranslation}
use cxl_spec_kv.Memory.Allocate.{translate-allocate, next_physical}
use cxl_spec_kv.Integration.Types.{answer, hangs, AllocationHandle, CxlMemoryAllocator}
use cxl_spec_kv.Integration.Methods.{cxl_malloc, cxl_access, add_handle}
use cxl_spec_kv.Integration.Kept.{has_room, waits, waits_for, Kept}
use cxl_spec_kv.Integration.Touch.{touch-Ends}

module _ (f : Floats) where
  pub cxl_access-result :
      (now ptr offset : ℕ) (a : CxlMemoryAllocator f) (m : MemoryManager) (h : AllocationHandle)
      → a.initialized ≡ true
      → (ptr == 0) ≡ false
      → lookup ptr a.handle_map ≡ some h
      → a.memory_manager ≡ some m
      → m.page_table_locked ≡ false
      → (waits (add64 h.virtual_addr offset) m ≡ true → cxl_access f now ptr offset a ≡ hangs)
        × (waits (add64 h.virtual_addr offset) m ≡ false
            → (n : MemoryManager) × (cxl_access f now ptr offset a
                ≡ answer (record a { memory_manager = some n }, add64 h.virtual_addr offset))
              × Kept 1 m n)
  unfolding cxl_access
  cxl_access-result now ptr offset a m h ready given found manager free =
      let ends = touch-Ends now (add64 h.virtual_addr offset) m free in
      (
        λ w. rw (ready, given, found, manager, ends.0 w) refl,
        λ w. (let (n, touched, kept) = ends.1 w in (n, ground (arith, touched), kept)),
      )

  -- On an initialised allocator whose memory manager's lock is free, and for a pointer that was
  -- handed out, an access waits for that lock for ever exactly when the page of the address has to
  -- be moved to L1, as it is from L3, or from L2 with more than ten accesses, and L1 has no room
  -- for one more page.
  pub cxl_access-hangs :
      (now ptr offset : ℕ) (a : CxlMemoryAllocator f) (m : MemoryManager) (h : AllocationHandle)
      → a.initialized ≡ true
      → (ptr == 0) ≡ false
      → lookup ptr a.handle_map ≡ some h
      → a.memory_manager ≡ some m
      → m.page_table_locked ≡ false
      → (cxl_access f now ptr offset a ≡ hangs) ↔ (waits (add64 h.virtual_addr offset) m ≡ true)
  cxl_access-hangs now ptr offset a m h ready given found manager free =
      let result = cxl_access-result now ptr offset a m h ready given found manager free in
      (
        λ e. elim (Bool-cases (waits (add64 h.virtual_addr offset) m)) [
          | inl w ↦ w
          | inr w ↦ (let (n, answered, _) = result.1 w in absurd (cc))
        ],
        result.0,
      )

  -- On an initialised allocator whose memory manager's lock is free, and for a pointer that was
  -- handed out, an access that need not move a page to a full L1 returns the pointer plus the
  -- offset, whatever the offset and the size of the allocation are, and leaves the handles, the
  -- counters, every translation and the lock as they were.
  pub cxl_access-returns :
      (now ptr offset : ℕ) (a : CxlMemoryAllocator f) (m : MemoryManager) (h : AllocationHandle)
      → a.initialized ≡ true
      → (ptr == 0) ≡ false
      → lookup ptr a.handle_map ≡ some h
      → a.memory_manager ≡ some m
      → m.page_table_locked ≡ false
      → waits (add64 h.virtual_addr offset) m ≡ false
      → (n : MemoryManager) × (cxl_access f now ptr offset a
          ≡ answer (record a { memory_manager = some n }, add64 h.virtual_addr offset))
        × SameTranslation m n
        × (n.page_table_locked ≡ false)
  cxl_access-returns now ptr offset a m h ready given found manager free w =
      let (n, e, kept) =
        (cxl_access-result now ptr offset a m h ready given found manager free).1 w in
      (n, e, kept.addresses.translation, kept.free_lock)

  -- A null pointer, or one that is not handed out, is refused.
  pub cxl_access-refused :
      (now ptr offset : ℕ) (a : CxlMemoryAllocator f)
      → ((ptr == 0) ≡ true) ⊎ (lookup ptr a.handle_map ≡ none)
      → cxl_access f now ptr offset a ≡ answer (a, 0)
  unfolding cxl_access
  cxl_access-refused now ptr offset a (inl null) = ground arith
  cxl_access-refused now ptr offset a (inr unknown) = ground arith

  allocate-l3 :
      (now size layer : ℕ) (m : MemoryManager)
      → ((allocate now size layer l3_cxl_pool m).0.page_table_locked ≡ m.page_table_locked)
        × (has_room (allocate now size layer l3_cxl_pool m).0 ≡ has_room m)
  unfolding allocate reserve actual_tier same_tier has_room can_fit_in_tier
  allocate-l3 now size layer m = (refl, refl)

  -- The allocator after the memory manager `m` has allocated.
  abbrev pub after_malloc : ℕ → ℕ → ℕ → MemoryManager → CxlMemoryAllocator f → CxlMemoryAllocator f
  after_malloc now size layer m a =
      add_handle f m.next_virtual_addr size layer
        (record a { memory_manager = some (allocate now size layer l3_cxl_pool m).0 })

  pub cxl_malloc-result :
      (now size layer : ℕ) (a : CxlMemoryAllocator f) (m : MemoryManager)
      → a.initialized ≡ true
      → a.memory_manager ≡ some m
      → (m.next_virtual_addr == 0) ≡ false
      → cxl_malloc f now size layer a
        ≡ answer (after_malloc now size layer m a, m.next_virtual_addr)
  unfolding cxl_malloc allocate
  cxl_malloc-result now size layer a m ready manager start = ground arith

  waits_for-room : (p : Option MemoryPage) (room : Bool) → room ≡ true → waits_for p room ≡ false
  unfolding waits_for
  waits_for-room none room e = refl
  waits_for-room (some page) room e = ground arith

  -- On an initialised allocator whose memory manager's lock is free, an allocation followed by an
  -- access to any of its bytes, when L1 has room for one more page: both return, and the pointer
  -- that the access gives translates to the byte's offset from where the next allocation in the
  -- CXL memory began. The pages of the manager have any size but 0, the next address is that of a
  -- page and not 0, and no address runs past the end of the 64-bit words.
  pub cxl_malloc-cxl_access :
      (now later size layer offset q : ℕ) (a : CxlMemoryAllocator f) (m : MemoryManager)
      → a.initialized ≡ true
      → a.memory_manager ≡ some m
      → m.page_table_locked ≡ false
      → has_room m ≡ true
      → 0 < m.page_size
      → 0 < m.next_virtual_addr
      → m.next_virtual_addr ≡ q * m.page_size
      → m.next_virtual_addr + size + m.page_size ≤ u64_mod
      → m.next_physical_addr_l3 + size + m.page_size ≤ u64_mod
      → offset < size
      → (b c : CxlMemoryAllocator f) × (n : MemoryManager) × (cxl_malloc f now size layer a
          ≡ answer (b, m.next_virtual_addr))
        × (cxl_access f later m.next_virtual_addr offset b
            ≡ answer (c, m.next_virtual_addr + offset))
        × (c.memory_manager ≡ some n)
        × (translate_virtual_to_physical (m.next_virtual_addr + offset) n
            ≡ m.next_physical_addr_l3 + offset)
  unfolding add_handle next_physical actual_tier same_tier allocate
  cxl_malloc-cxl_access now later size layer offset q a m ready manager free room pos start aligned
        fits fits_l3 lt =
      let ptr = m.next_virtual_addr in
      let b = after_malloc now size layer m a in
      let l = (allocate now size layer l3_cxl_pool m).0 in
      let given : (ptr == 0) ≡ false = ground arith in
      let found =
        lookup-insert ptr ptr (record { virtual_addr = ptr; size_bytes = size; layer_id = layer })
          a.handle_map in
      let fields = allocate-l3 now size layer m in
      let accessed =
        (cxl_access-result later ptr offset b l
            (record { virtual_addr = ptr; size_bytes = size; layer_id = layer }) ready given
            (ground (arith, found)) refl (fields.0 ∙ free)).1
          (waits_for-room _ (has_room l) (fields.1 ∙ room)) in
      let same : add64 ptr offset ≡ ptr + offset = omega arith in
      let placed =
        translate-allocate now size layer l3_cxl_pool m q offset pos aligned fits fits_l3 lt in
      (
        b,
        record b { memory_manager = some accessed.0 },
        accessed.0,
        cxl_malloc-result now size layer a m ready manager given,
        rw (sym same) accessed.1,
        refl,
        accessed.2.addresses.translation (ptr + offset) ∙ placed,
      )
