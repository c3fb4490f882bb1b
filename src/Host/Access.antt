-- ===== src/Host/Access.antt =====
-- What an access of `SpeckvAllocator` (host/src/speckv_allocator.cpp) gives.

use cxl_spec_kv.Common.{
  ℕ, zero, suc, ◌+◌, ◌-◌, ◌*◌, ◌/◌, ◌%◌, ◌^◌, ◌<◌, ◌≤◌, ◌≡◌, ◌≢◌, refl, Bool, true, List, Option,
  none, some, get_elem?, arith, ◌∙◌, sym, ap, subst, Option-cases, inl, inr,
}
use cxl_spec_kv.Common.Words.{add64, u64_mod}
use cxl_spec_kv.Common.Assoc.{insert, lookup-insert, lookup-erase}
use cxl_spec_kv.Host.Allocator.{
  SpeckvAllocator, KvPageHandle, Allocation, alloc, alloc_pages, new_page, pages_for, free, access,
  page_at,
}
use cxl_spec_kv.Host.Fetch.{
  fetch_if_needed, fetch_if_needed-returns, fetch_if_needed-IsFetched,
  fetch_if_needed-IsFetched_again, access_found, access_absent, access_waiting, page_at-IsFetched,
}

get_elem?-alloc_pages :
    (handle left i j : ℕ) (table : List (ℕ × KvPageHandle))
    → j < left
    → get_elem? (alloc_pages handle left i table).0 j ≡ some (new_page handle (i + j))
unfolding alloc_pages
get_elem?-alloc_pages handle zero i j table h = absurd (omega arith)
get_elem?-alloc_pages handle (suc left) i zero table h =
    let same : i ≡ i + 0 = omega arith in ap (λ (k : ℕ). some (new_page handle k)) same
get_elem?-alloc_pages handle (suc left) i (suc j) table h =
    let same : i + 1 + j ≡ i + suc j = omega arith in
    get_elem?-alloc_pages handle left (i + 1) j
      (insert (new_page handle i).virt_page_id (new_page handle i) table) (omega arith)
    ∙ ap (λ (k : ℕ). some (new_page handle k)) same

in_pages :
    (bytes offset : ℕ) → bytes + 4096 ≤ u64_mod → offset < bytes → offset / 4096 < pages_for bytes
unfolding pages_for
in_pages bytes offset fits h = omega arith

page_at-alloc :
    (bytes offset : ℕ) (a : SpeckvAllocator)
    → bytes + 4096 ≤ u64_mod
    → offset < bytes
    → page_at (alloc bytes a).1 offset (alloc bytes a).0
      ≡ some (new_page a.next_handle (offset / 4096))
unfolding page_at alloc
page_at-alloc bytes offset a fits h =
    let pages = alloc_pages a.next_handle (pages_for bytes) 0 a.page_table in
    let made : Allocation = record { size_bytes = bytes; pages = pages.0 } in
    let stored = lookup-insert a.next_handle a.next_handle made a.allocs in
    let found =
      get_elem?-alloc_pages a.next_handle (pages_for bytes) 0 (offset / 4096) a.page_table
        (in_pages bytes offset fits h) in
    ground (arith, stored, found)

phys_page_id-offset :
    (handle offset : ℕ)
    → 0x4000000000 + handle * 2 ^ 20 + offset < u64_mod
    → add64 (new_page handle (offset / 4096)).phys_page_id (offset % 4096)
      ≡ 0x4000000000 + handle * 2 ^ 20 + offset
unfolding new_page
phys_page_id-offset handle offset h = omega arith

-- The pointer that an access gives for a page of handle `h`.
abbrev address : ℕ → ℕ → ℕ
address h offset = 0x4000000000 + h * 2 ^ 20 + offset

access_reaches :
    (handle h offset fuel k : ℕ) (done : ℕ → Bool) (a : SpeckvAllocator)
    → page_at handle offset a ≡ some (new_page h (offset / 4096))
    → address h offset < u64_mod
    → done k ≡ true
    → k < fuel
    → (n : SpeckvAllocator) × (access fuel done handle offset a ≡ some (n, some (address h offset)))
access_reaches handle h offset fuel k done a found physical e enough =
    let page = new_page h (offset / 4096) in
    let fetched = fetch_if_needed-returns fuel k done page.virt_page_id a e enough in
    (
      fetched.0,
      access_found fuel done handle offset page a fetched.0 found fetched.1
          ∙ rw (phys_page_id-offset h offset physical) refl,
    )

-- If the driver answers one of the first `fuel` polls, an access to any byte of a new allocation
-- returns, and gives the byte at its offset from 2^20 times the handle over the base, if that
-- address and the size do not run past the end of the 64-bit words.
pub access-alloc :
    (bytes offset fuel k : ℕ) (done : ℕ → Bool) (a : SpeckvAllocator)
    → bytes + 4096 ≤ u64_mod
    → offset < bytes
    → address a.next_handle offset < u64_mod
    → done k ≡ true
    → k < fuel
    → (n : SpeckvAllocator) × (access fuel done (alloc bytes a).1 offset (alloc bytes a).0
        ≡ some (n, some (address a.next_handle offset)))
access-alloc bytes offset fuel k done a fits inside physical e enough =
    access_reaches (alloc bytes a).1 a.next_handle offset fuel k done (alloc bytes a).0
      (page_at-alloc bytes offset a fits inside) physical e enough

page_at-alloc_other :
    (handle bytes offset : ℕ) (a : SpeckvAllocator)
    → a.next_handle ≢ handle
    → page_at handle offset (alloc bytes a).0 ≡ page_at handle offset a
unfolding page_at alloc
page_at-alloc_other handle bytes offset a other = grind (arith, lookup-insert {V = Allocation})

handle-alloc : (bytes : ℕ) (a : SpeckvAllocator) → (alloc bytes a).1 ≡ a.next_handle
unfolding alloc
handle-alloc bytes a = refl

next_handle-alloc :
    (bytes : ℕ) (a : SpeckvAllocator)
    → a.next_handle < u64_mod - 1
    → (alloc bytes a).0.next_handle ≡ a.next_handle + 1
unfolding alloc
next_handle-alloc bytes a h = omega arith

-- Of two allocations made one after the other, byte `2^20 + offset` of the first and byte `offset`
-- of the second have the same address, if both are that large: allocations of more than 1 MB
-- overlap. It holds if the driver answers one of the polls that the wait makes, neither size runs
-- past the end of the 64-bit words when it is rounded up to pages, and the address does not run
-- past their end.
pub access-alloc_overlap :
    (bytes later_bytes offset fuel k : ℕ) (done : ℕ → Bool) (a : SpeckvAllocator)
    → bytes + 4096 ≤ u64_mod
    → later_bytes + 4096 ≤ u64_mod
    → 2 ^ 20 + offset < bytes
    → offset < later_bytes
    → address a.next_handle (2 ^ 20 + offset) < u64_mod
    → done k ≡ true
    → k < fuel
    → (n m : SpeckvAllocator) × (access fuel done
          (alloc bytes a).1
          (2 ^ 20 + offset)
          (alloc later_bytes (alloc bytes a).0).0
        ≡ some (n, some (address a.next_handle (2 ^ 20 + offset))))
      × (access fuel done
            (alloc later_bytes (alloc bytes a).0).1
            offset
            (alloc later_bytes (alloc bytes a).0).0
          ≡ some (m, some (address a.next_handle (2 ^ 20 + offset))))
access-alloc_overlap bytes later_bytes offset fuel k done a fits later_fits inside later_inside
      physical e enough =
    let b = (alloc bytes a).0 in
    let next = next_handle-alloc bytes a (omega arith) in
    let handle = handle-alloc bytes a in
    let first =
      access_reaches (alloc bytes a).1 a.next_handle (2 ^ 20 + offset) fuel k done
        (alloc later_bytes b).0
        (page_at-alloc_other (alloc bytes a).1 later_bytes (2 ^ 20 + offset) b (omega arith)
          ∙ page_at-alloc bytes (2 ^ 20 + offset) a fits inside)
        physical e enough in
    let second =
      access-alloc later_bytes offset fuel k done b later_fits later_inside (omega arith) e
        enough in
    let same : address b.next_handle offset ≡ address a.next_handle (2 ^ 20 + offset) =
      omega arith in
    (first.0, second.0, first.1, second.1 ∙ rw same refl)

-- After a handle is freed an access to it gives a null pointer, and changes nothing.
access-free :
    (handle offset fuel : ℕ) (done : ℕ → Bool) (a : SpeckvAllocator)
    → access fuel done handle offset (free handle a) ≡ some (free handle a, none)
unfolding access page_at free
access-free handle offset fuel done a = grind (arith, lookup-erase {V = Allocation})

some_value {ℓ} : {A : Type ℓ} → A → Option A → A
some_value default none = default
some_value default (some x) = x

same_result :
    {m n : SpeckvAllocator} {p q : Option ℕ} (done : ℕ → Bool) (handle offset : ℕ)
    → ◌≡◌ {A = Option (SpeckvAllocator × Option ℕ)} (some (m, p)) (some (n, q))
    → access 0 done handle offset m ≡ some (m, p)
    → access 0 done handle offset n ≡ some (n, q)
unfolding some_value
same_result {n} {q} done handle offset same again =
    subst (λ (r : SpeckvAllocator × Option ℕ). access 0 done handle offset r.0 ≡ some r)
      (ap (some_value (n, q)) same) again

-- An access that has returned, given again, returns the same pointer without a single poll and
-- leaves the allocator as it is.
access-access :
    (handle offset fuel : ℕ) (done : ℕ → Bool) (a n : SpeckvAllocator) (pointer : Option ℕ)
    → access fuel done handle offset a ≡ some (n, pointer)
    → access 0 done handle offset n ≡ some (n, pointer)
access-access handle offset fuel done a n pointer e =
    elim (Option-cases (page_at handle offset a)) [
      | inl absent ↦
          let same = sym (access_absent fuel done handle offset a absent) ∙ e in
          let again = access_absent 0 done handle offset a absent in
          same_result done handle offset same again
      | inr present ↦
          let page = present.0 in
          let v = page.virt_page_id in
          elim (Option-cases (fetch_if_needed fuel done v a)) [
            | inl waits ↦
                let never =
                  sym (access_waiting fuel done handle offset page a present.1 waits) ∙ e in
                cc
            | inr fetched ↦
                let m = fetched.0 in
                let is_fetched = fetch_if_needed-IsFetched fuel done v a m fetched.1 in
                let same =
                  sym (access_found fuel done handle offset page a m present.1 fetched.1) ∙ e in
                let again =
                  access_found 0 done handle offset page m m
                    (page_at-IsFetched handle offset v a m is_fetched ∙ present.1)
                    (fetch_if_needed-IsFetched_again done v a m is_fetched) in
                same_result done handle offset same again
          ]
    ]
