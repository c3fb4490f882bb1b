-- ===== src/Host/Fetch.antt =====
-- The fetch of a page that an access of `SpeckvAllocator` (host/src/speckv_allocator.cpp) waits for.
use Prim.Native.Nat.{bit_and, bit_or}
use mathlib.Core.Bool.{false≢true}
use cxl_spec_kv.Common.{
  ℕ, zero, suc, ◌+◌, ◌/◌, ◌%◌, ◌<◌, ◌≤◌, ◌≡◌, ◌≢◌, ◌⊎◌, refl, Bool, true, ◌∷◌, Option, none, some,
  if◌then◌else◌, arith, ◌∙◌, sym, ap, Bool-cases, Option-cases, inl, inr,
}
use cxl_spec_kv.Common.Words.{add64}
use cxl_spec_kv.Common.Bits.{bit_or_step, bit_and-low_mask}
use cxl_spec_kv.Common.Assoc.{lookup, insert, lookup-insert}
use cxl_spec_kv.Host.Allocator.{
  SpeckvAllocator, KvPageHandle, access, page_at, is_in_l1_or_l2, fetch_desc, sync_fetch_page,
  wait_complete,
}

-- A page whose L2 bit has been set is in L1 or L2.
l2_bit : (flags : ℕ) → bit_and (bit_or flags 2) 3 ≢ 0
l2_bit flags =
    omega
      (arith, bit_and-low_mask 2 (bit_or flags 2), bit_or_step flags 2, bit_or_step (flags / 2) 1)

-- The wait ends with the first poll that does not answer 0.
wait_complete-done :
    (fuel k i : ℕ) (done : ℕ → Bool)
    → done k ≡ true
    → i ≤ k
    → k < i + fuel
    → wait_complete fuel done i ≡ true
unfolding wait_complete
wait_complete-done zero k i done e lo hi = absurd (omega arith)
wait_complete-done (suc fuel) k i done e lo hi = elim (Bool-cases (done i)) [
  | inl now ↦ rw now refl
  | inr later ↦
      let here : i ≢ k = λ same. false≢true (sym later ∙ ap done same ∙ e) in
      rw later (wait_complete-done fuel k (i + 1) done e (omega arith) (omega arith))
]

-- A fetch keeps the allocations; afterwards its page is in L1 or L2, or it has none.
pub IsFetched : ℕ → SpeckvAllocator → SpeckvAllocator → Type 0
IsFetched v a n =
    (n.allocs ≡ a.allocs) × ((is_in_l1_or_l2 v n ≡ true) ⊎ (lookup v n.page_table ≡ none))

sync_fetch_page-IsFetched :
    (fuel : ℕ) (done : ℕ → Bool) (v : ℕ) (a n : SpeckvAllocator)
    → sync_fetch_page fuel done v a ≡ some n
    → IsFetched v a n
unfolding sync_fetch_page IsFetched is_in_l1_or_l2
sync_fetch_page-IsFetched fuel done v a n e =
    grind (arith, lookup-insert {V = KvPageHandle}, l2_bit)

sync_fetch_page-returns :
    (fuel k : ℕ) (done : ℕ → Bool) (v : ℕ) (a : SpeckvAllocator)
    → done k ≡ true
    → k < fuel
    → (n : SpeckvAllocator) × (sync_fetch_page fuel done v a ≡ some n)
unfolding sync_fetch_page
sync_fetch_page-returns fuel k done v a e h =
    let ends = wait_complete-done fuel k 0 done e (omega arith) (omega arith) in
    elim (Option-cases (lookup v a.page_table)) [
      | inl absent ↦ (a, rw (absent, sync_fetch_page) refl)
      | inr present ↦ (
        record a {
          submitted = fetch_desc v present.0 ∷ a.submitted;
          page_table =
              insert v (record (present.0) { flags = bit_or present.0.flags 2 }) a.page_table;
        },
        rw (present.1, ends, sync_fetch_page) refl,
      )
    ]

-- What `access` does for the page that it found.
pub fetch_if_needed : ℕ → (ℕ → Bool) → ℕ → SpeckvAllocator → Option SpeckvAllocator
fetch_if_needed fuel done v a = if is_in_l1_or_l2 v a then some a else sync_fetch_page fuel done v a

pub fetch_if_needed-returns :
    (fuel k : ℕ) (done : ℕ → Bool) (v : ℕ) (a : SpeckvAllocator)
    → done k ≡ true
    → k < fuel
    → (n : SpeckvAllocator) × (fetch_if_needed fuel done v a ≡ some n)
unfolding fetch_if_needed
fetch_if_needed-returns fuel k done v a e h = elim (Bool-cases (is_in_l1_or_l2 v a)) [
  | inl held ↦ (a, rw held refl)
  | inr out ↦
      let fetched = sync_fetch_page-returns fuel k done v a e h in (fetched.0, rw out fetched.1)
]

pub fetch_if_needed-IsFetched :
    (fuel : ℕ) (done : ℕ → Bool) (v : ℕ) (a n : SpeckvAllocator)
    → fetch_if_needed fuel done v a ≡ some n
    → IsFetched v a n
unfolding fetch_if_needed IsFetched
fetch_if_needed-IsFetched fuel done v a n e =
    ground (arith, sync_fetch_page-IsFetched fuel done v a n)

pub fetch_if_needed-IsFetched_again :
    (done : ℕ → Bool) (v : ℕ) (a n : SpeckvAllocator)
    → IsFetched v a n
    → fetch_if_needed 0 done v n ≡ some n
unfolding fetch_if_needed IsFetched sync_fetch_page
fetch_if_needed-IsFetched_again done v a n h = elim h.1 [
  | inl held ↦ rw held refl
  | inr absent ↦ ground arith
]

pub access_found :
    (fuel : ℕ) (done : ℕ → Bool) (handle offset : ℕ) (page : KvPageHandle) (a n : SpeckvAllocator)
    → page_at handle offset a ≡ some page
    → fetch_if_needed fuel done page.virt_page_id a ≡ some n
    → access fuel done handle offset a ≡ some (n, some (add64 page.phys_page_id (offset % 4096)))
unfolding access fetch_if_needed
access_found fuel done handle offset page a n found fetched = rw (found, fetched, access) refl

pub page_at-IsFetched :
    (handle offset v : ℕ) (a n : SpeckvAllocator)
    → IsFetched v a n
    → page_at handle offset n ≡ page_at handle offset a
unfolding page_at IsFetched
page_at-IsFetched handle offset v a n h = rw (h.0) refl

pub access_absent :
    (fuel : ℕ) (done : ℕ → Bool) (handle offset : ℕ) (a : SpeckvAllocator)
    → page_at handle offset a ≡ none
    → access fuel done handle offset a ≡ some (a, none)
unfolding access
access_absent fuel done handle offset a h = rw (h, access) refl

pub access_waiting :
    (fuel : ℕ) (done : ℕ → Bool) (handle offset : ℕ) (page : KvPageHandle) (a : SpeckvAllocator)
    → page_at handle offset a ≡ some page
    → fetch_if_needed fuel done page.virt_page_id a ≡ none
    → access fuel done handle offset a ≡ none
unfolding access fetch_if_needed
access_waiting fuel done handle offset page a found waits = rw (found, waits, access) refl
