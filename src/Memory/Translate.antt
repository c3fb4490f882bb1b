-- ===== src/Memory/Translate.antt =====
-- What happens to the translation of an address in each method of `CXLMemoryManager`.

use cxl_spec_kv.Common.{ℕ, ◌≡◌, refl, some, if◌then◌else◌, ◌==◌, arith}
use cxl_spec_kv.Common.Assoc.{lookup-insert, lookup-erase}
use cxl_spec_kv.Memory.Types.{MemoryTier, l1_gpu_local, MemoryPage, MemoryManager}
use cxl_spec_kv.Memory.Pages.{
  page_addr, get_page, put_page, translate_virtual_to_physical, invalidate_page, mark_modified,
  update_access_tracking, is_hot_page, deallocate, forget, update_lru,
}
use cxl_spec_kv.Memory.Migrate.{demote_body, finish_promotion, leave_upwards, leave_downwards}

-- The same table of translations.
abbrev pub SameTranslation : MemoryManager → MemoryManager → Type 0
SameTranslation m n =
    (addr : ℕ) → translate_virtual_to_physical addr n ≡ translate_virtual_to_physical addr m

-- All that a translation looks through.
translation : Unit {0}
unfolding translate_virtual_to_physical get_page put_page page_addr update_lru
translation = tt

invalidate_page-SameTranslation :
    (a : ℕ) (m : MemoryManager) → SameTranslation m (invalidate_page a m)
unfolding translation invalidate_page
invalidate_page-SameTranslation a m b = grind (arith, lookup-insert {V = MemoryPage})

mark_modified-SameTranslation : (a : ℕ) (m : MemoryManager) → SameTranslation m (mark_modified a m)
unfolding translation mark_modified
mark_modified-SameTranslation a m b = grind (arith, lookup-insert {V = MemoryPage})

update_access_tracking-SameTranslation :
    (now a : ℕ) (m : MemoryManager) → SameTranslation m (update_access_tracking now a m)
unfolding translation update_access_tracking
update_access_tracking-SameTranslation now a m b = grind (arith, lookup-insert {V = MemoryPage})

is_hot_page-SameTranslation : (a : ℕ) (m : MemoryManager) → SameTranslation m (is_hot_page a m).0
unfolding translation is_hot_page
is_hot_page-SameTranslation a m b = grind (arith, lookup-insert {V = MemoryPage})

-- The lists and counters of the tiers do not matter to a translation.
pub leave_upwards-table :
    (t : MemoryTier) (a : ℕ) (m : MemoryManager)
    → ((leave_upwards t a m).page_table ≡ m.page_table)
      × ((leave_upwards t a m).page_size ≡ m.page_size)
unfolding leave_upwards
leave_upwards-table l1_gpu_local a m = (refl, refl)
leave_upwards-table _ a m = (refl, refl)

pub leave_downwards-table :
    (t : MemoryTier) (a : ℕ) (m : MemoryManager)
    → ((leave_downwards t a m).page_table ≡ m.page_table)
      × ((leave_downwards t a m).page_size ≡ m.page_size)
unfolding leave_downwards
leave_downwards-table l1_gpu_local a m = (refl, refl)
leave_downwards-table _ a m = (refl, refl)

pub demote_body-SameTranslation :
    (a : ℕ) (m : MemoryManager) → SameTranslation m (demote_body a m).0
unfolding translation demote_body
demote_body-SameTranslation a m b =
    grind (arith, lookup-insert {V = MemoryPage}, leave_upwards-table)

pub finish_promotion-SameTranslation :
    (a : ℕ) (page : MemoryPage) (m : MemoryManager)
    → get_page a m ≡ some page
    → SameTranslation m (finish_promotion a page m)
unfolding translation finish_promotion
finish_promotion-SameTranslation a page m h b =
    grind (arith, lookup-insert {V = MemoryPage}, leave_downwards-table)

-- Invalidating a page, marking it modified, counting an access to it, asking whether it is hot and
-- the body of a demotion leave the translation of every address as it was.
pub metadata-SameTranslation :
    (now a : ℕ) (m : MemoryManager)
    → SameTranslation m (invalidate_page a m)
      × SameTranslation m (mark_modified a m)
      × SameTranslation m (update_access_tracking now a m)
      × SameTranslation m (is_hot_page a m).0
      × SameTranslation m (demote_body a m).0
metadata-SameTranslation now a m = (
  invalidate_page-SameTranslation a m,
  mark_modified-SameTranslation a m,
  update_access_tracking-SameTranslation now a m,
  is_hot_page-SameTranslation a m,
  demote_body-SameTranslation a m,
)

pub forget-table :
    (t : MemoryTier) (a : ℕ) (m : MemoryManager)
    → ((forget t a m).page_table ≡ m.page_table) × ((forget t a m).page_size ≡ m.page_size)
unfolding forget
forget-table l1_gpu_local a m = (refl, refl)
forget-table _ a m = (refl, refl)

-- Freeing an address takes away the translation of the addresses in its page, if it is the address
-- of a page, and of no other: the further pages of an allocation keep theirs.
pub translate-deallocate :
    (a b : ℕ) (m : MemoryManager)
    → translate_virtual_to_physical b (deallocate a m)
      ≡ (if a == page_addr b m then 0 else translate_virtual_to_physical b m)
unfolding translation deallocate
translate-deallocate a b m = grind (arith, lookup-erase {V = MemoryPage}, forget-table)
