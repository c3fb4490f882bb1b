-- ===== src/System/Turn.antt =====
-- One turn of the loops of `process_tokens` (src/cxl_speckv_system.cpp), when there is room.

use cxl_spec_kv.Common.{
  ℕ, ◌+◌, ◌<◌, ◌≡◌, inl, inr, refl, Bool, true, false, List, some, ◌==◌, ltb, length, arith,
  Bool-cases, ◌∙◌, ap,
}
use cxl_spec_kv.Common.Words.{add64}
use cxl_spec_kv.Common.Assoc.{lookup-insert}
use cxl_spec_kv.Engine.Floats.{Floats}
use cxl_spec_kv.Memory.Types.{MemoryManager, l3_cxl_pool}
use cxl_spec_kv.Memory.Pages.{allocate, get_page}
use cxl_spec_kv.Prefetch.Window.{last}
use cxl_spec_kv.Integration.Types.{Reply, answer, AllocationHandle, CxlMemoryAllocator}
use cxl_spec_kv.Integration.Methods.{cxl_access, add_handle, count_malloc}
use cxl_spec_kv.Integration.Access.{cxl_malloc-result, cxl_access-result, after_malloc}
use cxl_spec_kv.Integration.Books.{IsBalanced, malloc-IsBalanced, next-allocate}
use cxl_spec_kv.Integration.Room.{
  Roomy, Grown, prefetch_hint-result, touched-IsBalanced, waits_for-Roomy, SameL1-Roomy,
}
use cxl_spec_kv.System.Types.{SystemConfig, Readings}
use cxl_spec_kv.System.Methods.{kv_size, hint_next, process_layer}

module _ (f : Floats) where
  hint_next-result :
      (r : Readings f) (tokens : List ℕ) (layer room : ℕ) (m : MemoryManager)
      (a : CxlMemoryAllocator f)
      → IsBalanced f room m a
      → (h : CxlMemoryAllocator f) × (hint_next f r tokens layer a ≡ answer h)
        × IsBalanced f room m h
        × Grown f 0 0 a h
  unfolding hint_next
  hint_next-result r tokens layer room m a b = elim (Bool-cases (ltb 16 (length tokens))) [
    | inl long ↦
        let (h, e, balanced, counted, _) =
          prefetch_hint-result f r.predict_top_k r.request_times r.latency_us (last 16 tokens) layer
            room m a a.prefetcher refl b in
        rw long (h, e, balanced, counted)
    | inr short ↦ rw short (a, refl, b, (omega arith, refl, omega arith))
  ]

  -- An allocation and an access to it, when L1 has room.
  malloc_access :
      (now later size layer room k : ℕ) (m : MemoryManager) (a : CxlMemoryAllocator f)
      → 0 < size
      → IsBalanced f (size + 4096 + room) m a
      → Roomy (1 + k) m
      → (b : CxlMemoryAllocator f) × (n : MemoryManager) × (cxl_access f later m.next_virtual_addr 0
            (after_malloc f now size layer m a)
          ≡ answer (b, m.next_virtual_addr))
        × IsBalanced f room n b
        × Roomy k n
        × Grown f 1 size a b
  unfolding add_handle count_malloc
  malloc_access now later size layer room k m a sized b roomy =
      let ptr = m.next_virtual_addr in
      let l = (allocate now size layer l3_cxl_pool m).0 in
      let c = after_malloc f now size layer m a in
      let balanced = malloc-IsBalanced f now size layer room m a sized b in
      let same = next-allocate f now size layer m b.pages sized (omega (arith, b.fits)) in
      let handle : AllocationHandle = record {
        virtual_addr = ptr;
        size_bytes = size;
        layer_id = layer;
      } in
      let found = lookup-insert ptr ptr handle a.handle_map in
      let given : (ptr == 0) ≡ false = ground (arith, b.start) in
      let roomy_l : Roomy (1 + k) l = SameL1-Roomy f (1 + k) m l same.5 (omega (arith, roomy)) in
      let result =
        cxl_access-result f later ptr 0 c l handle b.ready given (ground (arith, found)) refl
          balanced.free_lock in
      let page = get_page (add64 ptr 0) l in
      let (n, accessed, kept) =
        result.1
          (waits_for-Roomy f page l balanced.pages balanced.l1_fits (omega (arith, roomy_l))) in
      (
        record c { memory_manager = some n },
        n,
        accessed
            ∙ ap (λ (v : ℕ). answer (record c { memory_manager = some n }, v))
                (omega (arith, b.fits)),
        touched-IsBalanced f room c l n balanced kept,
        omega (arith, roomy_l, kept.one_more, kept.same_l1_size),
        (omega (arith, b.few_calls, b.fits), refl, omega (arith, b.few_bytes, b.fits)),
      )

  pub Grown-trans :
      (i j n s t size : ℕ) (a b c : CxlMemoryAllocator f)
      → n ≡ i + j
      → size ≡ s + t
      → Grown f i s a b
      → Grown f j t b c
      → Grown f n size a c
  Grown-trans i j n s t size a b c e e' g h =
      (omega (arith, e, g.0, h.0), h.1 ∙ g.1, omega (arith, e', g.2, h.2))

  -- A turn, or several, that succeed: how many allocations they make, and of how many bytes in all.
  abbrev pub Served :
      ℕ → ℕ → ℕ → ℕ → CxlMemoryAllocator f → Reply (CxlMemoryAllocator f × Bool) → Type 0
  Served number size room k a r =
      (b : CxlMemoryAllocator f) × (n : MemoryManager) × (r ≡ answer (b, true))
      × IsBalanced f room n b
      × Roomy k n
      × Grown f number size a b

  pub process_layer-Served :
      (config : SystemConfig f) (r : Readings f) (tokens : List ℕ) (layer room k : ℕ)
      (m : MemoryManager) (a : CxlMemoryAllocator f)
      → 0 < kv_size f config tokens
      → IsBalanced f (kv_size f config tokens + 4096 + room) m a
      → Roomy (1 + k) m
      → Served 1 (kv_size f config tokens) room k a (process_layer f config r tokens layer a)
  unfolding process_layer
  process_layer-Served config r tokens layer room k m a sized b roomy =
      let size = kv_size f config tokens in
      let (h, hinted, at_hint, counted) =
        hint_next-result r tokens layer (size + 4096 + room) m a b in
      let given : (m.next_virtual_addr == 0) ≡ false = ground (arith, b.start) in
      let malloced =
        cxl_malloc-result f r.malloc_time size layer h m at_hint.ready at_hint.has_manager given in
      let (c, n, accessed, balanced, left, grown) =
        malloc_access r.malloc_time r.access_time size layer room k m h sized at_hint roomy in
      (
        c,
        n,
        ground (arith, hinted, malloced, given, accessed),
        balanced,
        left,
        Grown-trans 0 1 1 0 size size a h c (omega arith) (omega arith) counted grown,
      )
