-- ===== src/Memory/Histories.antt =====
-- Sequences of calls on `CXLMemoryManager` (src/cxl_memory/cxl_memory_manager.cpp), and what they
-- leave of the two address spaces.
use cxl_spec_kv.Common.{
  ℕ, ◌+◌, ◌*◌, ◌<◌, ◌≤◌, ◌≡◌, ◌≢◌, ◌⊎◌, inl, inr, refl, Bool, true, false, ◌||◌, List, [], ◌∷◌,
  arith, ◌∙◌, sym, Bool-cases, subst,
}
use cxl_spec_kv.Common.Assoc.{lookup}
use cxl_spec_kv.Memory.Types.{
  MemoryTier, MemoryManager, Outcome, returned, deadlock, ◌>>=◌, create, with_page_lock,
}
use cxl_spec_kv.Memory.Pages.{
  allocate, deallocate, translate_virtual_to_physical, invalidate_page, mark_modified,
  update_access_tracking, is_hot_page, reset_statistics, get_page, page_addr,
}
use cxl_spec_kv.Memory.Migrate.{demote_to_l3, promote_to_l1, demote_body}
use cxl_spec_kv.Memory.Lock.{must_evict, promote_body-locked, locked, unlocked}
use cxl_spec_kv.Memory.Addresses.{
  SameAddresses, tracked-SameAddresses, hot-SameAddresses, invalidated-SameAddresses,
  modified-SameAddresses, demotion-SameAddresses, promotion, promotion-SameAddresses,
  deallocate-SameCounters, reset-SameAddresses,
}
use cxl_spec_kv.Memory.Separate.{
  IsSeparate, deallocate-IsSeparate, same-IsSeparate, less-IsSeparate,
}
use cxl_spec_kv.Memory.Fresh.{allocate-IsSeparate, allocate-later}

-- One constructor for each public method that may change the manager, with its arguments in their
-- order; the time comes first.
pub data Call : Type 0 where
  allocate_call : ℕ → ℕ → ℕ → MemoryTier → Call
  deallocate_call promote_call demote_call invalidate_call modify_call hot_call : ℕ → Call
  track_call : ℕ → ℕ → Call
  reset_call : Call

unfoldable pub step : Call → MemoryManager → Outcome MemoryManager
step (allocate_call now size_bytes layer_id tier) m =
    returned (allocate now size_bytes layer_id tier m).0
step (deallocate_call addr) m = returned (deallocate addr m)
step (promote_call addr) m = do (after, _) ← promote_to_l1 addr m; returned after
step (demote_call addr) m = do (after, _) ← demote_to_l3 addr m; returned after
step (invalidate_call addr) m = returned (invalidate_page addr m)
step (modify_call addr) m = returned (mark_modified addr m)
step (hot_call addr) m = returned (is_hot_page addr m).0
step (track_call now addr) m = returned (update_access_tracking now addr m)
step reset_call m = returned (reset_statistics m)

unfoldable pub run : List Call → MemoryManager → Outcome MemoryManager
run [] m = returned m
run (c ∷ calls) m = do after ← step c m; run calls after

-- The bytes that a call takes up, at most.
unfoldable pub cost : ℕ → Call → ℕ
cost page_size (allocate_call now size_bytes layer_id tier) = size_bytes + page_size
cost page_size _ = 0

unfoldable pub demand : ℕ → List Call → ℕ
demand page_size [] = 0
demand page_size (c ∷ calls) = cost page_size c + demand page_size calls

-- The calls that may wait for ever.
unfoldable pub promotes : Call → Bool
promotes (promote_call addr) = true
promotes _ = false

unfoldable pub any_promotes : List Call → Bool
any_promotes [] = false
any_promotes (c ∷ calls) = promotes c || any_promotes calls

-- A call that may wait does so for ever, or its manager satisfies the property.
abbrev pub Leaves : Bool → (MemoryManager → Type 0) → Outcome MemoryManager → Type 0
Leaves may_wait P (returned m) = P m
Leaves may_wait P deadlock = may_wait ≡ true

-- Pages of the same size, a next address that is no lower, and the invariant with room for `room`
-- more bytes.
abbrev pub Follows : ℕ → MemoryManager → MemoryManager → Type 0
Follows room m n =
    (n.page_size ≡ m.page_size) × (m.next_virtual_addr ≤ n.next_virtual_addr) × IsSeparate room n

same-Follows :
    (room : ℕ) (m n : MemoryManager)
    → IsSeparate (0 + room) m
    → SameAddresses m n
    → Follows room m n
same-Follows room m n s same = (
  same.counters.same_page_size,
  omega (arith, same.counters.same_next),
  same-IsSeparate room m n same (less-IsSeparate (0 + room) room m (omega arith) s),
)

deallocate-Follows :
    (room a : ℕ) (m : MemoryManager) → IsSeparate (0 + room) m → Follows room m (deallocate a m)
deallocate-Follows room a m s = (
  (deallocate-SameCounters a m).same_page_size,
  omega (arith, (deallocate-SameCounters a m).same_next),
  deallocate-IsSeparate room a m (less-IsSeparate (0 + room) room m (omega arith) s),
)

pub step-Leaves :
    (c : Call) (room : ℕ) (m : MemoryManager)
    → IsSeparate (cost m.page_size c + room) m
    → Leaves (promotes c) (Follows room m) (step c m)
unfolding step cost promotes promote_to_l1 demote_to_l3 with_page_lock
step-Leaves (allocate_call now size layer t) room m s =
    let (pages, next) = allocate-later now size layer room t m s in
    (pages, next, allocate-IsSeparate now size layer room t m s)
step-Leaves (deallocate_call a) room m s = deallocate-Follows room a m s
step-Leaves (promote_call a) room m s = elim (Bool-cases (must_evict a m)) [
  | inl stuck ↦ rw (s.free_lock, promote_body-locked a m, stuck) refl
  | inr free ↦
      rw (s.free_lock, promote_body-locked a m, free)
        (same-Follows room m (promotion a m (get_page a m)) s
          (promotion-SameAddresses a m (get_page a m) s.free_lock refl))
]
step-Leaves (demote_call a) room m s = rw (s.free_lock) (
    same-Follows room m (unlocked (demote_body a (locked m)).0) s
      (demotion-SameAddresses a m s.free_lock))
step-Leaves (invalidate_call a) room m s =
    same-Follows room m (invalidate_page a m) s (invalidated-SameAddresses a m)
step-Leaves (modify_call a) room m s =
    same-Follows room m (mark_modified a m) s (modified-SameAddresses a m)
step-Leaves (hot_call a) room m s =
    same-Follows room m (is_hot_page a m).0 s (hot-SameAddresses a m)
step-Leaves (track_call now a) room m s =
    same-Follows room m (update_access_tracking now a m) s (tracked-SameAddresses now a m)
step-Leaves reset_call room m s = same-Follows room m (reset_statistics m) s (reset-SameAddresses m)

weaken-Leaves :
    (b c : Bool) (Q : MemoryManager → Type 0) (r : Outcome MemoryManager)
    → Leaves c Q r
    → Leaves (b || c) Q r
weaken-Leaves b c Q (returned n) h = h
weaken-Leaves b c Q deadlock h = ground arith

-- A call, then what follows it.
pub then-Leaves :
    (b c : Bool) (P Q : MemoryManager → Type 0) (r : Outcome MemoryManager)
    (next : MemoryManager → Outcome MemoryManager)
    → ((n : MemoryManager) → P n → Leaves c Q (next n))
    → Leaves b P r
    → Leaves (b || c) Q (r >>= next)
then-Leaves b c P Q (returned n) next follow h = weaken-Leaves b c Q (next n) (follow n h)
then-Leaves b c P Q deadlock next follow h = ground arith

run-Leaves :
    (calls : List Call) (page_size : ℕ) (m : MemoryManager)
    → m.page_size ≡ page_size
    → IsSeparate (demand page_size calls) m
    → Leaves (any_promotes calls) (IsSeparate 0) (run calls m)
unfolding run demand any_promotes
run-Leaves [] page_size m pages s = s
run-Leaves (c ∷ calls) page_size m pages s =
    then-Leaves (promotes c) (any_promotes calls) (Follows (demand page_size calls) m)
      (IsSeparate 0) (step c m) (run calls)
      (λ n h. run-Leaves calls page_size n (h.0 ∙ pages) (h.2))
      (step-Leaves c (demand page_size calls) m
        (subst (λ p. IsSeparate (cost p c + demand page_size calls) m) (sym pages) s))

pub create-IsSeparate :
    (l1 l2 l3 page_size q room : ℕ)
    → 0 < page_size
    → q * page_size ≡ 0x100000000
    → room ≤ 0x8000000000
    → IsSeparate room (create l1 l2 l3 page_size)
unfolding create translate_virtual_to_physical get_page page_addr lookup
create-IsSeparate l1 l2 l3 page_size q room pos whole fits = record {
  positive = pos;
  page_number = q;
  aligned = sym whole;
  free_lock = refl;
  fits = omega arith;
  l1_from = omega arith;
  l1_to = omega arith;
  l2_from = omega arith;
  l2_to = omega arith;
  l3_from = omega arith;
  l3_to = omega arith;
  unmapped = λ a lo. refl;
  placed = λ a mapped. absurd (mapped refl);
  injective = λ a b mapped e. absurd (mapped refl);
}

-- No two virtual addresses that are mapped have the same physical address.
abbrev pub Injective : MemoryManager → Type 0
Injective m =
    (a b : ℕ)
    → translate_virtual_to_physical a m ≢ 0
    → a ≢ b
    → translate_virtual_to_physical a m ≢ translate_virtual_to_physical b m

Leaves-Injective :
    (may_wait : Bool) (r : Outcome MemoryManager)
    → Leaves may_wait (IsSeparate 0) r
    → ((r ≡ deadlock) × (may_wait ≡ true)) ⊎ ((m : MemoryManager) × (r ≡ returned m) × Injective m)
Leaves-Injective may_wait (returned m) s =
    inr (m, refl, λ a b mapped differ same. differ (s.injective a b mapped same))
Leaves-Injective may_wait deadlock h = inl (refl, h)

-- A new manager whose page size is not 0 and divides 4 GB, and any sequence of allocations in any
-- tier, releases, promotions, demotions and other calls that asks for at most 512 GB, with one page
-- more for each allocation. Either the calls have a promotion and one waits for ever, or all return
-- and two different virtual addresses that are mapped then never have the same physical address.
pub run-Injective :
    (l1 l2 l3 page_size q : ℕ) (calls : List Call)
    → 0 < page_size
    → q * page_size ≡ 0x100000000
    → demand page_size calls ≤ 0x8000000000
    → ((run calls (create l1 l2 l3 page_size) ≡ deadlock) × (any_promotes calls ≡ true))
      ⊎ ((m : MemoryManager) × (run calls (create l1 l2 l3 page_size) ≡ returned m) × Injective m)
unfolding create
run-Injective l1 l2 l3 page_size q calls pos whole fits =
    let start = create-IsSeparate l1 l2 l3 page_size q (demand page_size calls) pos whole fits in
    Leaves-Injective (any_promotes calls) (run calls (create l1 l2 l3 page_size))
      (run-Leaves calls page_size (create l1 l2 l3 page_size) refl start)
