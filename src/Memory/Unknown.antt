-- ===== src/Memory/Unknown.antt =====
-- Only an allocation adds a page to the table of `CXLMemoryManager`
-- (src/cxl_memory/cxl_memory_manager.cpp), at the next addresses.
use cxl_spec_kv.Common.{
  ℕ, ◌+◌, ◌*◌, ◌<◌, ◌≤◌, ◌≡◌, refl, Bool, true, List, [], ◌∷◌, Option, none, some, arith, ◌∙◌, sym,
  subst,
}
use cxl_spec_kv.Common.Assoc.{lookup, lookup-insert, lookup-erase}
use cxl_spec_kv.Memory.Types.{
  MemoryPage, MemoryManager, Outcome, returned, deadlock, create, with_page_lock,
}
use cxl_spec_kv.Memory.Pages.{
  deallocate, get_page, put_page, page_addr, update_lru, update_access_tracking, is_hot_page,
  invalidate_page, mark_modified, reset_statistics,
}
use cxl_spec_kv.Memory.Migrate.{demote_body, demote_to_l3, promote_to_l1, finish_promotion}
use cxl_spec_kv.Memory.Translate.{leave_downwards-table, leave_upwards-table, forget-table}
use cxl_spec_kv.Memory.Lock.{promoted, locked, promote_body-locked}
use cxl_spec_kv.Memory.Allocate.{lookup-allocate_earlier}
use cxl_spec_kv.Memory.Separate.{IsSeparate}
use cxl_spec_kv.Memory.Histories.{
  Call, allocate_call, deallocate_call, promote_call, demote_call, invalidate_call, modify_call,
  hot_call, track_call, reset_call, step, run, cost, demand, promotes, Leaves, Follows, step-Leaves,
  then-Leaves, create-IsSeparate,
}

-- No page starts at the address.
abbrev pub Unknown : ℕ → MemoryManager → Type 0
Unknown k m = lookup k m.page_table ≡ none

fields : Unit {0}
unfolding get_page put_page page_addr update_lru
fields = tt

demote_body-Unknown : (k a : ℕ) (m : MemoryManager) → Unknown k m → Unknown k (demote_body a m).0
unfolding fields demote_body
demote_body-Unknown k a m h = grind (arith, lookup-insert {V = MemoryPage}, leave_upwards-table)

finish_promotion-Unknown :
    (k a : ℕ) (page : MemoryPage) (m : MemoryManager)
    → get_page a m ≡ some page
    → Unknown k m
    → Unknown k (finish_promotion a page m)
unfolding fields finish_promotion
finish_promotion-Unknown k a page m e h =
    grind (arith, lookup-insert {V = MemoryPage}, leave_downwards-table)

promoted-Unknown :
    (k a : ℕ) (m : MemoryManager) (p : Option MemoryPage)
    → get_page a m ≡ p
    → Unknown k m
    → Unknown k (promoted a m p).0
unfolding promoted
promoted-Unknown k a m none e h = h
promoted-Unknown k a m (some page) e h = ground (arith, finish_promotion-Unknown k a page m e h)

step-Unknown :
    (c : Call) (k room : ℕ) (m : MemoryManager)
    → IsSeparate (cost m.page_size c + room) m
    → k < m.next_virtual_addr
    → Unknown k m
    → Leaves true (Unknown k) (step c m)
unfolding step cost fields deallocate invalidate_page mark_modified is_hot_page
    update_access_tracking reset_statistics demote_to_l3 promote_to_l1 with_page_lock
step-Unknown (allocate_call now size layer t) k room m s lt h =
    lookup-allocate_earlier now size layer t m s.positive (omega (arith, s.fits)) k lt ∙ h
step-Unknown (deallocate_call a) k room m s lt h =
    grind (arith, lookup-erase {V = MemoryPage}, forget-table)
step-Unknown (promote_call a) k room m s lt h =
    grind (arith, promote_body-locked a m, promoted-Unknown k a (locked m) (get_page a m) refl h)
step-Unknown (demote_call a) k room m s lt h =
    grind (arith, demote_body-Unknown k a (locked m) h, s.free_lock)
step-Unknown (invalidate_call a) k room m s lt h = grind (arith, lookup-insert {V = MemoryPage})
step-Unknown (modify_call a) k room m s lt h = grind (arith, lookup-insert {V = MemoryPage})
step-Unknown (hot_call a) k room m s lt h = grind (arith, lookup-insert {V = MemoryPage})
step-Unknown (track_call now a) k room m s lt h = grind (arith, lookup-insert {V = MemoryPage})
step-Unknown reset_call k room m s lt h = h

-- An address below the next one that no page starts at, and the invariant of the address spaces.
abbrev Spared : ℕ → ℕ → ℕ → MemoryManager → Type 0
Spared k room page_size m =
    (m.page_size ≡ page_size) × (k < m.next_virtual_addr) × IsSeparate room m × Unknown k m

both-Leaves :
    (b : Bool) (P Q : MemoryManager → Type 0) (r : Outcome MemoryManager)
    → Leaves b P r
    → Leaves true Q r
    → Leaves true (λ m. P m × Q m) r
both-Leaves b P Q (returned m) p q = (p, q)
both-Leaves b P Q deadlock p q = refl

run-Unknown :
    (calls : List Call) (k page_size : ℕ) (m : MemoryManager)
    → Spared k (demand page_size calls) page_size m
    → Leaves true (Unknown k) (run calls m)
unfolding run demand
run-Unknown [] k page_size m (pages, lt, s, h) = h
run-Unknown (c ∷ calls) k page_size m (pages, lt, s, h) =
    let room = demand page_size calls in
    let here : IsSeparate (cost m.page_size c + room) m =
      subst (λ p. IsSeparate (cost p c + room) m) (sym pages) s in
    then-Leaves true true (λ n. Follows room m n × Unknown k n) (Unknown k) (step c m) (run calls)
      (λ n (follows, unknown).
        run-Unknown calls k page_size n
          (follows.0 ∙ pages, omega (arith, follows.1), follows.2, unknown))
      (both-Leaves (promotes c) (Follows room m) (Unknown k) (step c m) (step-Leaves c room m here)
        (step-Unknown c k room m here lt h))

-- After any calls on a new manager no page starts below 4 GB.
pub run-create-Unknown :
    (l1 l2 l3 page_size q : ℕ) (calls : List Call) (m : MemoryManager)
    → 0 < page_size
    → q * page_size ≡ 0x100000000
    → demand page_size calls ≤ 0x8000000000
    → run calls (create l1 l2 l3 page_size) ≡ returned m
    → (k : ℕ) → k < 0x100000000
    → Unknown k m
unfolding create lookup
run-create-Unknown l1 l2 l3 page_size q calls m pos whole fits e k lt =
    let start = create-IsSeparate l1 l2 l3 page_size q (demand page_size calls) pos whole fits in
    subst (Leaves true (Unknown k)) e
      (run-Unknown calls k page_size (create l1 l2 l3 page_size) (refl, lt, start, refl))
