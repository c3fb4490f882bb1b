-- ===== src/Integration/Goes.antt =====
-- How one call on the allocator (src/integration/memory_allocator.cpp) goes: that it keeps the books, and
-- when it hangs.
use cxl_spec_kv.Common.{
  ℕ, ◌+◌, ◌<◌, ◌≡◌, ◌⊎◌, inl, inr, refl, true, false, List, Option, none, some, ◌==◌, ltb, arith,
  Bool-cases,
}
use cxl_spec_kv.Common.Words.{add64}
use cxl_spec_kv.Common.Assoc.{lookup, erase}
use cxl_spec_kv.Engine.Floats.{Floats}
use cxl_spec_kv.Memory.Types.{MemoryManager, l3_cxl_pool}
use cxl_spec_kv.Memory.Pages.{get_page, allocate, deallocate}
use cxl_spec_kv.Memory.Addresses.{SameAddresses}
use cxl_spec_kv.Integration.Types.{Reply, answer, hangs, AllocationHandle, CxlMemoryAllocator}
use cxl_spec_kv.Integration.Methods.{cxl_free}
use cxl_spec_kv.Integration.Kept.{waits}
use cxl_spec_kv.Integration.Access.{
  cxl_access-result, cxl_access-refused, cxl_malloc-result, after_malloc,
}
use cxl_spec_kv.Integration.Calls.{malloc, free, access, hint, step}
use cxl_spec_kv.Integration.Room.{
  Roomy, SameL1-Roomy, still-Roomy, touched-IsBalanced, waits-Roomy, prefetch_hint-result,
}
use cxl_spec_kv.Integration.Books.{
  next-allocate, deallocate-fields, IsBalanced, malloc-IsBalanced, free-IsBalanced,
}

module _ (f : Floats) where
  -- What a further invariant of the manager and the handles owes to every call.
  pub record Laws (J : ℕ → MemoryManager → List (ℕ × AllocationHandle) → Type 0) : Type 0 where
    pub on_malloc :
        (now size layer room : ℕ) (m : MemoryManager) (a : CxlMemoryAllocator f)
        → 0 < size
        → IsBalanced f (size + 4096 + room) m a
        → J (size + 4096 + room) m a.handle_map
        → J room
            (allocate now size layer l3_cxl_pool m).0
            (after_malloc f now size layer m a).handle_map
    pub on_free :
        (ptr room : ℕ) (m : MemoryManager) (a : CxlMemoryAllocator f) (h : AllocationHandle)
        → IsBalanced f room m a
        → lookup ptr a.handle_map ≡ some h
        → J room m a.handle_map
        → J room (deallocate h.virtual_addr m) (erase ptr a.handle_map)
    pub on_touch :
        (room : ℕ) (m n : MemoryManager) (handles : List (ℕ × AllocationHandle))
        → SameAddresses m n
        → J room m handles
        → J room n handles

  module _ (J : ℕ → MemoryManager → List (ℕ × AllocationHandle) → Type 0) where
    -- From a manager `m`, a call that promotes at most `moves` pages hangs, which it does not if L1
    -- has room for as many, or answers with a balanced allocator that has the further invariant, and
    -- whose L1 has room for as many pages less.
    abbrev pub Goes : ℕ → ℕ → MemoryManager → Reply (CxlMemoryAllocator f) → Type 0
    Goes room moves m r =
        ((r ≡ hangs) × (Roomy moves m → ⊥))
        ⊎ ((a : CxlMemoryAllocator f) × (n : MemoryManager) × (r ≡ answer a)
            × IsBalanced f room n a
            × J room n a.handle_map
            × ((k : ℕ) → Roomy (moves + k) m → Roomy k n))

    module _ (laws : Laws J) where
      pub malloc-Goes :
          (now size layer room : ℕ) (m : MemoryManager) (a : CxlMemoryAllocator f)
          → ltb 0 size ≡ true
          → IsBalanced f (size + 4096 + room) m a
          → J (size + 4096 + room) m a.handle_map
          → Goes room 0 m (step f (malloc now size layer) a)
      unfolding step
      malloc-Goes now size layer room m a positive b j =
          let given : (m.next_virtual_addr == 0) ≡ false = ground (arith, b.start) in
          let result = cxl_malloc-result f now size layer a m b.ready b.has_manager given in
          let same =
            next-allocate f now size layer m b.pages (ground arith) (omega (arith, b.fits)) in
          inr (
            after_malloc f now size layer m a,
            (allocate now size layer l3_cxl_pool m).0,
            rw result refl,
            malloc-IsBalanced f now size layer room m a (ground arith) b,
            laws.on_malloc now size layer room m a (ground arith) b j,
            λ k h. SameL1-Roomy f k m (allocate now size layer l3_cxl_pool m).0 same.5 h,
          )

      pub free-Goes :
          (ptr room : ℕ) (m : MemoryManager) (a : CxlMemoryAllocator f)
          (found : Option AllocationHandle)
          → lookup ptr a.handle_map ≡ found
          → IsBalanced f room m a
          → J room m a.handle_map
          → Goes room 0 m (step f (free ptr) a)
      unfolding step cxl_free
      free-Goes ptr room m a none e b j =
          inr (a, m, ground (arith, b.ready), b, j, λ k. still-Roomy f k m)
      free-Goes ptr room m a (some h) e b j = elim (Bool-cases (ptr == 0)) [
        | inl null ↦ inr (a, m, ground (arith, b.ready), b, j, λ k. still-Roomy f k m)
        | inr given ↦
            let same = deallocate-fields f h.virtual_addr m in
            inr (
              _,
              deallocate h.virtual_addr m,
              ground (arith, b.ready, b.has_manager),
              free-IsBalanced f ptr room m a h b e,
              laws.on_free ptr room m a h b e j,
              λ k enough. SameL1-Roomy f k m (deallocate h.virtual_addr m) same.3 enough,
            )
      ]

      pub access-Goes :
          (now ptr offset room : ℕ) (m : MemoryManager) (a : CxlMemoryAllocator f)
          (found : Option AllocationHandle)
          → lookup ptr a.handle_map ≡ found
          → IsBalanced f room m a
          → J room m a.handle_map
          → Goes room 1 m (step f (access now ptr offset) a)
      unfolding step
      access-Goes now ptr offset room m a none e b j = inr (
        a,
        m,
        rw (cxl_access-refused f now ptr offset a (inr e)) refl,
        b,
        j,
        λ k h. omega (arith, h),
      )
      access-Goes now ptr offset room m a (some h) e b j = elim (Bool-cases (ptr == 0)) [
        | inl null ↦ inr (
          a,
          m,
          rw (cxl_access-refused f now ptr offset a (inl null)) refl,
          b,
          j,
          λ k h. omega (arith, h),
        )
        | inr given ↦
            let result =
              cxl_access-result f now ptr offset a m h b.ready given e b.has_manager b.free_lock in
            elim (Bool-cases (waits (add64 h.virtual_addr offset) m)) [
              | inl w ↦ inl (
                rw (result.0 w) refl,
                λ enough.
                    waits-Roomy f (get_page (add64 h.virtual_addr offset) m) m b.pages b.l1_fits
                      enough w,
              )
              | inr w ↦
                  (let (n, answered, kept) = result.1 w in
                    inr (
                      record a { memory_manager = some n },
                      n,
                      rw answered refl,
                      touched-IsBalanced f room a m n b kept,
                      laws.on_touch room m n a.handle_map kept.addresses j,
                      λ k h. omega (arith, kept.one_more, kept.same_l1_size, h),
                    ))
            ]
      ]

      module _ (predict_top_k : List ℕ → ℕ → List (ℕ × f.Float)) (now : ℕ → ℕ) (latency_us : ℕ)
          (history : List ℕ) (layer : ℕ) where
        pub hint-Goes :
            (room : ℕ) (m : MemoryManager) (a : CxlMemoryAllocator f)
            → IsBalanced f room m a
            → J room m a.handle_map
            → Goes room 0 m (step f (hint predict_top_k now latency_us history layer) a)
        unfolding step
        hint-Goes room m a b j =
            let (h, e, balanced, _, same) =
              prefetch_hint-result f predict_top_k now latency_us history layer room m a
                a.prefetcher refl b in
            inr (h, m, e, balanced, rw same j, λ k. still-Roomy f k m)
