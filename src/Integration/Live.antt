-- ===== src/Integration/Live.antt =====
-- The memory behind the handles of the allocator (src/integration/memory_allocator.cpp): it is there,
-- and no two handles share any of it.
use cxl_spec_kv.Common.{
  ℕ, ◌+◌, ◌*◌, ◌<◌, ◌≤◌, ◌≡◌, ◌≢◌, ◌⊎◌, inl, inr, List, some, ◌==◌, arith, ◌∙◌, sym, Bool-cases,
}
use cxl_spec_kv.Common.Assoc.{lookup, erase, lookup-insert, lookup-erase, All-lookup}
use cxl_spec_kv.Engine.Floats.{Floats}
use cxl_spec_kv.Memory.Types.{MemoryManager, l3_cxl_pool}
use cxl_spec_kv.Memory.Pages.{
  translate_virtual_to_physical, allocate, deallocate, page_addr, actual_tier, same_tier,
}
use cxl_spec_kv.Memory.Translate.{translate-deallocate}
use cxl_spec_kv.Memory.Allocate.{translate-allocate, translate-allocate_earlier, next_physical}
use cxl_spec_kv.Memory.Addresses.{SameAddresses, deallocate-SameCounters}
use cxl_spec_kv.Memory.Separate.{
  IsSeparate, same-IsSeparate, less-IsSeparate, deallocate-IsSeparate,
}
use cxl_spec_kv.Memory.Fresh.{allocate-IsSeparate, allocate-later}
use cxl_spec_kv.Integration.Types.{AllocationHandle, CxlMemoryAllocator}
use cxl_spec_kv.Integration.Methods.{add_handle}
use cxl_spec_kv.Integration.Access.{after_malloc}
use cxl_spec_kv.Integration.Books.{IsBelow, IsBalanced, next-allocate}
use cxl_spec_kv.Integration.Goes.{Laws}

-- A handle starts at a page, ends below the next address, and all its bytes are mapped.
pub record Held (k : ℕ) (h : AllocationHandle) (m : MemoryManager) : Type 0 where
  pub page_of : ℕ
  pub at_page : k ≡ page_of * 4096
  pub below : k < m.next_virtual_addr
  pub within : k + h.size_bytes ≤ m.next_virtual_addr
  pub mapped : (off : ℕ) → off < h.size_bytes → translate_virtual_to_physical (k + off) m ≢ 0

-- Every handle is held, and one that starts lower ends before the other starts.
pub record IsLive (room : ℕ) (m : MemoryManager) (handles : List (ℕ × AllocationHandle))
    : Type 0 where
  pub pages : m.page_size ≡ 4096
  pub separate : IsSeparate room m
  pub held : (k : ℕ) (h : AllocationHandle) → lookup k handles ≡ some h → Held k h m
  pub disjoint :
      (k j : ℕ) (h g : AllocationHandle)
      → lookup k handles ≡ some h
      → lookup j handles ≡ some g
      → k < j
      → k + h.size_bytes ≤ j

-- What keeps the next address, and the translations of the bytes of a handle, keeps it held.
still-Held :
    (k : ℕ) (h : AllocationHandle) (m n : MemoryManager)
    → m.next_virtual_addr ≤ n.next_virtual_addr
    → ((off : ℕ)
        → off < h.size_bytes
        → translate_virtual_to_physical (k + off) n ≡ translate_virtual_to_physical (k + off) m)
    → Held k h m
    → Held k h n
still-Held k h m n le same held = record {
  page_of = held.page_of;
  at_page = held.at_page;
  below = omega (arith, held.below);
  within = omega (arith, held.within);
  mapped = λ off lt e. held.mapped off lt (sym (same off lt) ∙ e);
}

touch-IsLive :
    (room : ℕ) (m n : MemoryManager) (handles : List (ℕ × AllocationHandle))
    → SameAddresses m n
    → IsLive room m handles
    → IsLive room n handles
touch-IsLive room m n handles same live = record {
  pages = same.counters.same_page_size ∙ live.pages;
  separate = same-IsSeparate room m n same live.separate;
  held = λ k h found.
      still-Held k h m n (omega (arith, same.counters.same_next))
        (λ off lt. same.translation (k + off)) (live.held k h found);
  disjoint = live.disjoint;
}

-- Releasing one handle unmaps no byte of another.
release-apart :
    (ptr k off : ℕ) (m : MemoryManager) (handles : List (ℕ × AllocationHandle)) (room : ℕ)
    (g h : AllocationHandle)
    → IsLive room m handles
    → lookup ptr handles ≡ some g
    → lookup k handles ≡ some h
    → ptr ≢ k
    → off < h.size_bytes
    → ptr ≢ page_addr (k + off) m
unfolding page_addr
release-apart ptr k off m handles room g h live found other apart lt =
    let here = live.held ptr g found in
    let there = live.held k h other in
    let before = live.disjoint k ptr h g other found in
    rw (live.pages) (λ e. ground (arith, here.at_page, there.at_page, before))

free-IsLive :
    (ptr room : ℕ) (m : MemoryManager) (handles : List (ℕ × AllocationHandle))
    (g : AllocationHandle)
    → lookup ptr handles ≡ some g
    → IsLive room m handles
    → IsLive room (deallocate ptr m) (erase ptr handles)
free-IsLive ptr room m handles g found live =
    let counters = deallocate-SameCounters ptr m in
    let other : (k : ℕ) (h : AllocationHandle)
        → lookup k (erase ptr handles) ≡ some h
        → (ptr ≢ k) × (lookup k handles ≡ some h) =
      λ k h e. (
        λ same. ground (arith, lookup-erase ptr k handles, e, same),
        ground (arith, lookup-erase ptr k handles, e),
      ) in
    record {
      pages = counters.same_page_size ∙ live.pages;
      separate = deallocate-IsSeparate room ptr m live.separate;
      held = λ k h e.
          let (apart, before) = other k h e in
          still-Held k h m (deallocate ptr m) (omega (arith, counters.same_next))
            (λ off lt.
              let outside = release-apart ptr k off m handles room g h live found before apart lt in
              ground (arith, translate-deallocate ptr (k + off) m, outside))
            (live.held k h before);
      disjoint = λ k j h i e e' lt. live.disjoint k j h i ((other k h e).1) ((other j i e').1) lt;
    }

module _ (f : Floats) where
  module _ (now size layer room : ℕ) (m : MemoryManager) (a : CxlMemoryAllocator f)
      (sized : 0 < size) (b : IsBalanced f (size + 4096 + room) m a)
      (live : IsLive (size + 4096 + room) m a.handle_map) where
    abbrev n : MemoryManager
    n = (allocate now size layer l3_cxl_pool m).0

    abbrev new_handle : AllocationHandle
    new_handle = record { virtual_addr = m.next_virtual_addr; size_bytes = size; layer_id = layer }

    next_n :
        (m.next_virtual_addr < n.next_virtual_addr)
        × (m.next_virtual_addr + size ≤ n.next_virtual_addr)
    next_n =
        let next = next-allocate f now size layer m b.pages sized (omega (arith, b.fits)) in
        (next.0, next.4)

    new-Held : Held m.next_virtual_addr new_handle n
    unfolding next_physical actual_tier same_tier allocate
    new-Held =
        let s = live.separate in
        record {
          page_of = s.page_number;
          at_page = rw (sym live.pages) s.aligned;
          below = next_n.0;
          within = next_n.1;
          mapped = λ off lt e.
              let placed : translate_virtual_to_physical (m.next_virtual_addr + off) n
                  ≡ m.next_physical_addr_l3 + off =
                translate-allocate now size layer l3_cxl_pool m s.page_number off s.positive
                  s.aligned (omega (arith, s.fits, live.pages)) (omega (arith, s.l3_to, live.pages))
                  lt in
              omega (arith, placed, e, s.l3_from);
        }

    old-Held : (k : ℕ) (h : AllocationHandle) → Held k h m → Held k h n
    old-Held k h held =
        still-Held k h m n (omega (arith, next_n))
          (λ off lt.
            translate-allocate_earlier now size layer l3_cxl_pool m (k + off) live.separate.positive
              (omega (arith, live.separate.fits, live.pages)) (omega (arith, held.within)))
          held

    -- Every handle is the new one or an old one.
    abbrev Origin : ℕ → AllocationHandle → Type 0
    Origin k h =
        ((k ≡ m.next_virtual_addr) × (h ≡ new_handle))
        ⊎ ((k < m.next_virtual_addr) × (lookup k a.handle_map ≡ some h))

    origin :
        (k : ℕ) (h : AllocationHandle)
        → lookup k (after_malloc f now size layer m a).handle_map ≡ some h
        → Origin k h
    unfolding add_handle
    origin k h e =
        let inserted = lookup-insert m.next_virtual_addr k new_handle a.handle_map in
        elim (Bool-cases (m.next_virtual_addr == k)) [
          | inl same ↦ inl (ground arith, ground (arith, inserted, e))
          | inr other ↦
              let before : lookup k a.handle_map ≡ some h = ground (arith, inserted, e) in
              inr ((live.held k h before).below, before)
        ]

    malloc-IsLive : IsLive room n (after_malloc f now size layer m a).handle_map
    malloc-IsLive =
        let before =
          less-IsSeparate (size + 4096 + room) (size + m.page_size + room) m
            (omega (arith, live.pages)) live.separate in
        record {
          pages = (allocate-later now size layer room l3_cxl_pool m before).0 ∙ live.pages;
          separate = allocate-IsSeparate now size layer room l3_cxl_pool m before;
          held = λ k h e. elim (origin k h e) [
            | inl fresh ↦ rw (fresh.0, fresh.1) new-Held
            | inr old ↦ old-Held k h (live.held k h (old.1))
          ];
          disjoint = λ k j h g e e' lt. elim (origin k h e) [
            | inl fresh ↦ elim (origin j g e') [
              | inl fresh_too ↦ absurd (omega arith)
              | inr old ↦ absurd (omega arith)
            ]
            | inr old ↦ elim (origin j g e') [
              | inl fresh ↦ omega (arith, (live.held k h (old.1)).within)
              | inr old_too ↦ live.disjoint k j h g (old.1) (old_too.1) lt
            ]
          ];
        }

  pub IsLive-laws : Laws f IsLive
  IsLive-laws = record {
    on_malloc = malloc-IsLive;
    on_free = λ ptr room m a h b found live.
        let named = (All-lookup (IsBelow _) ptr a.handle_map h found b.below).1 in
        rw named (free-IsLive ptr room m a.handle_map h found live);
    on_touch = touch-IsLive;
  }
