-- ===== src/Memory/Allocate.antt =====
-- What an allocation of `CXLMemoryManager` gives: the addresses that translate, and to what.
use native.Mathlib.Nat.{
  mul-add-div_right, mul-le-mul_right, mul-lt-mul_of_pos_right, add-mul, div-mul-le_self,
  lt-div-mul-add, div-lt_iff_lt-mul, le-div_iff_mul-le,
}
use cxl_spec_kv.Common.{
  ℕ, zero, suc, ◌+◌, ◌-◌, ◌*◌, ◌/◌, ◌<◌, ◌≤◌, ◌≡◌, ◌≢◌, refl, List, Option, none, some, ◌==◌, arith,
  ◌∙◌, sym, ap, Bool-cases, inl, inr, ==_iff,
}
use cxl_spec_kv.Common.Words.{add64, sub64, mul64, u64_mod}
use cxl_spec_kv.Common.Assoc.{lookup, insert, lookup-insert}
use cxl_spec_kv.Memory.Types.{
  MemoryTier, l1_gpu_local, l2_prefetch, l3_cxl_pool, MemoryPage, MemoryManager,
}
use cxl_spec_kv.Memory.Pages.{
  page_addr, get_page, translate_virtual_to_physical, allocate, reserve, create_pages, new_page,
  pages_for, actual_tier,
}

module _ (page : ℕ → MemoryPage) where
  lookup-create_pages_other :
      (k left i : ℕ) (table : List (ℕ × MemoryPage))
      → ((j : ℕ) → i ≤ j → j < i + left → (page j).virtual_addr ≢ k)
      → lookup k (create_pages page left i table) ≡ lookup k table
  unfolding create_pages
  lookup-create_pages_other k zero i table apart = refl
  lookup-create_pages_other k (suc left) i table apart =
      let later =
        lookup-create_pages_other k left (i + 1) (insert (page i).virtual_addr (page i) table)
          (λ j lo hi. apart j (omega arith) (omega arith)) in
      let here = apart i (omega arith) (omega arith) in
      let inserted = lookup-insert (page i).virtual_addr k (page i) table in
      later ∙ ground (arith, inserted, here)

  lookup-create_pages :
      (j left i : ℕ) (table : List (ℕ × MemoryPage))
      → i ≤ j
      → j < i + left
      → ((h : ℕ) → j < h → h < i + left → (page h).virtual_addr ≢ (page j).virtual_addr)
      → lookup (page j).virtual_addr (create_pages page left i table) ≡ some (page j)
  unfolding create_pages
  lookup-create_pages j zero i table lo hi apart = absurd (omega arith)
  lookup-create_pages j (suc left) i table lo hi apart =
      let rest = insert (page i).virtual_addr (page i) table in
      elim (Bool-cases (i == j)) [
        | inl e ↦
            let same = (==_iff i j).0 e in
            let later =
              lookup-create_pages_other (page j).virtual_addr left (i + 1) rest
                (λ h a b. apart h (omega arith) (omega arith)) in
            let inserted =
              lookup-insert (page i).virtual_addr (page j).virtual_addr (page i) table in
            ground (arith, later, inserted, same)
        | inr e ↦
            let differ = (==_iff i j).1 in
            lookup-create_pages j left (i + 1) rest (grind arith) (omega arith)
              (λ h a b. apart h a (omega arith))
      ]

-- Where the next allocation in a tier begins.
unfoldable pub next_physical : MemoryTier → MemoryManager → ℕ
next_physical l1_gpu_local m = m.next_physical_addr_l1
next_physical l2_prefetch m = m.next_physical_addr_l2
next_physical l3_cxl_pool m = m.next_physical_addr_l3

reserve_fields :
    (t : MemoryTier) (r : ℕ) (m : MemoryManager)
    → ((reserve t r m).1 ≡ next_physical t m)
      × ((reserve t r m).0.page_table ≡ m.page_table)
      × ((reserve t r m).0.page_size ≡ m.page_size)
unfolding reserve next_physical
reserve_fields l1_gpu_local r m = (refl, refl, refl)
reserve_fields l2_prefetch r m = (refl, refl, refl)
reserve_fields l3_cxl_pool r m = (refl, refl, refl)

-- The page of an offset into an allocation that starts at a page.
page_of_offset : (q ps off : ℕ) → 0 < ps → (q * ps + off) / ps * ps ≡ q * ps + off / ps * ps
page_of_offset q ps off pos = rw (mul-add-div_right pos q off) (add-mul q (off / ps) ps)

pub pages_for_covers :
    (size : ℕ) (m : MemoryManager)
    → 0 < m.page_size
    → size + m.page_size ≤ u64_mod
    → (pages_for size m ≡ (size + m.page_size - 1) / m.page_size)
      × (size ≤ pages_for size m * m.page_size)
unfolding pages_for
pages_for_covers size m pos fits =
    let wraps : sub64 (add64 size m.page_size) 1 ≡ size + m.page_size - 1 = omega arith in
    let above = lt-div-mul-add {a = size + m.page_size - 1} pos in
    (ap (λ (x : ℕ). x / m.page_size) wraps, rw wraps (omega arith))

pub pages_for_fits :
    (size : ℕ) (m : MemoryManager)
    → 0 < m.page_size
    → size + m.page_size ≤ u64_mod
    → pages_for size m * m.page_size < size + m.page_size
pages_for_fits size m pos fits =
    let below = div-mul-le_self (size + m.page_size - 1) m.page_size in
    rw (pages_for_covers size m pos fits).0 (omega arith)

-- The tier that an allocation uses, and where it begins there.
abbrev pub tier_for : ℕ → MemoryTier → MemoryManager → MemoryTier
tier_for size t m = actual_tier t (mul64 (pages_for size m) m.page_size) m

abbrev pub physical_base : ℕ → MemoryTier → MemoryManager → ℕ
physical_base size t m = next_physical (tier_for size t m) m

-- A translation, from what the lookup finds.
from_page : ℕ → Option MemoryPage → ℕ
from_page offset none = 0
from_page offset (some page) = add64 page.physical_addr offset

translate_found :
    (addr k : ℕ) (p : Option MemoryPage) (n : MemoryManager)
    → addr / n.page_size * n.page_size ≡ k
    → lookup k n.page_table ≡ p
    → translate_virtual_to_physical addr n ≡ from_page (addr - k) p
unfolding translate_virtual_to_physical get_page page_addr from_page
translate_found addr k p n e h = ground arith

module _ (now size layer : ℕ) (t : MemoryTier) (m : MemoryManager) (pos : 0 < m.page_size)
    (room : m.next_virtual_addr + size + m.page_size ≤ u64_mod) where
  abbrev entry : ℕ → MemoryPage
  entry =
      new_page now layer (tier_for size t m) m.next_virtual_addr (physical_base size t m)
        m.page_size

  pub table-allocate :
      ((allocate now size layer t m).0.page_table
        ≡ create_pages entry (pages_for size m) 0 m.page_table)
      × ((allocate now size layer t m).0.page_size ≡ m.page_size)
      × ((allocate now size layer t m).1 ≡ m.next_virtual_addr)
  unfolding allocate
  table-allocate =
      let fields = reserve_fields (tier_for size t m) (mul64 (pages_for size m) m.page_size) m in
      rw (fields.0, fields.1, fields.2) (refl, refl, refl)

  virtual_addr-entry :
      (j : ℕ)
      → j < pages_for size m
      → (entry j).virtual_addr ≡ m.next_virtual_addr + j * m.page_size
  unfolding new_page
  virtual_addr-entry j lt =
      let fits = pages_for_fits size m pos (omega arith) in
      let below : (j + 1) * m.page_size ≤ pages_for size m * m.page_size =
        mul-le-mul_right m.page_size (omega arith) in
      let spread = add-mul j 1 m.page_size in omega arith

  entry-apart :
      (i j : ℕ) → i < j → j < pages_for size m → (entry j).virtual_addr ≢ (entry i).virtual_addr
  entry-apart i j lt fits =
      let apart : i * m.page_size < j * m.page_size = mul-lt-mul_of_pos_right lt pos in
      rw (virtual_addr-entry j fits, virtual_addr-entry i (omega arith)) (omega arith)

  lookup-allocate :
      (j : ℕ)
      → j < pages_for size m
      → lookup (m.next_virtual_addr + j * m.page_size) (allocate now size layer t m).0.page_table
        ≡ some (entry j)
  lookup-allocate j lt =
      let found =
        lookup-create_pages entry j (pages_for size m) 0 m.page_table (omega arith) (omega arith)
          (λ h a b. entry-apart j h a (omega arith)) in
      rw (table-allocate.0, sym (virtual_addr-entry j lt)) found

  pub lookup-allocate_earlier :
      (k : ℕ)
      → k < m.next_virtual_addr
      → lookup k (allocate now size layer t m).0.page_table ≡ lookup k m.page_table
  lookup-allocate_earlier k lt = rw (table-allocate.0) (
      lookup-create_pages_other entry k (pages_for size m) 0 m.page_table
        (λ j a b. rw (virtual_addr-entry j (omega arith)) (omega arith)))

-- Every byte of the pages of an allocation, up to the end of the last one, is translated.
pub translate-allocate_page :
    (now size layer : ℕ) (t : MemoryTier) (m : MemoryManager) (q off : ℕ)
    → 0 < m.page_size
    → m.next_virtual_addr ≡ q * m.page_size
    → m.next_virtual_addr + size + m.page_size ≤ u64_mod
    → physical_base size t m + size + m.page_size ≤ u64_mod
    → off < pages_for size m * m.page_size
    → translate_virtual_to_physical (m.next_virtual_addr + off) (allocate now size layer t m).0
      ≡ physical_base size t m + off
unfolding from_page new_page
translate-allocate_page now size layer t m q off pos aligned room physical_room lt =
    let n = (allocate now size layer t m).0 in
    let table = table-allocate now size layer t m pos room in
    let j = off / m.page_size in
    let small : j < pages_for size m = (div-lt_iff_lt-mul pos).1 lt in
    let found = lookup-allocate now size layer t m pos room j small in
    let start : (m.next_virtual_addr + off) / m.page_size * m.page_size
        ≡ m.next_virtual_addr + j * m.page_size =
      rw aligned (page_of_offset q m.page_size off pos) in
    let fits = pages_for_fits size m pos (omega arith) in
    let below = div-mul-le_self off m.page_size in
    translate_found (m.next_virtual_addr + off) (m.next_virtual_addr + j * m.page_size)
      (some (entry now size layer t m pos room j)) n (rw (table.1) start) found
    ∙ omega arith

-- Every byte of an allocation translates to its offset from where the next allocation of its tier
-- began, for pages of any size but 0, if the next virtual address is that of a page, and if neither
-- the virtual nor the physical addresses run past the end of the 64-bit words.
pub translate-allocate :
    (now size layer : ℕ) (t : MemoryTier) (m : MemoryManager) (q off : ℕ)
    → 0 < m.page_size
    → m.next_virtual_addr ≡ q * m.page_size
    → m.next_virtual_addr + size + m.page_size ≤ u64_mod
    → physical_base size t m + size + m.page_size ≤ u64_mod
    → off < size
    → translate_virtual_to_physical
        ((allocate now size layer t m).1 + off)
        (allocate now size layer t m).0
      ≡ physical_base size t m + off
translate-allocate now size layer t m q off pos aligned room physical_room lt =
    let table = table-allocate now size layer t m pos room in
    let covers = (pages_for_covers size m pos (omega arith)).1 in
    rw (table.2) (
      translate-allocate_page now size layer t m q off pos aligned room physical_room (omega arith))

-- An allocation leaves the translation of every lower address as it was, if the next virtual
-- address is that of a page and the virtual addresses do not run past the end of the 64-bit words.
pub translate-allocate_earlier :
    (now size layer : ℕ) (t : MemoryTier) (m : MemoryManager) (addr : ℕ)
    → 0 < m.page_size
    → m.next_virtual_addr + size + m.page_size ≤ u64_mod
    → addr < m.next_virtual_addr
    → translate_virtual_to_physical addr (allocate now size layer t m).0
      ≡ translate_virtual_to_physical addr m
translate-allocate_earlier now size layer t m addr pos room lt =
    let n = (allocate now size layer t m).0 in
    let table = table-allocate now size layer t m pos room in
    let start = addr / m.page_size * m.page_size in
    let below = div-mul-le_self addr m.page_size in
    let found = lookup-allocate_earlier now size layer t m pos room start (omega arith) in
    translate_found addr start (lookup start m.page_table) n (rw (table.1) refl) found
    ∙ sym (translate_found addr start (lookup start m.page_table) m refl refl)

-- An address in a page after those of an allocation is translated as before.
pub translate-allocate_later :
    (now size layer : ℕ) (t : MemoryTier) (m : MemoryManager) (q off : ℕ)
    → 0 < m.page_size
    → m.next_virtual_addr ≡ q * m.page_size
    → m.next_virtual_addr + size + m.page_size ≤ u64_mod
    → pages_for size m * m.page_size ≤ off
    → translate_virtual_to_physical (m.next_virtual_addr + off) (allocate now size layer t m).0
      ≡ translate_virtual_to_physical (m.next_virtual_addr + off) m
translate-allocate_later now size layer t m q off pos aligned room le =
    let n = (allocate now size layer t m).0 in
    let table = table-allocate now size layer t m pos room in
    let addr = m.next_virtual_addr + off in
    let start = addr / m.page_size * m.page_size in
    let page : start ≡ m.next_virtual_addr + off / m.page_size * m.page_size =
      rw aligned (page_of_offset q m.page_size off pos) in
    let above : pages_for size m ≤ off / m.page_size = (le-div_iff_mul-le pos).1 le in
    let apart : (j : ℕ)
        → 0 ≤ j
        → j < 0 + pages_for size m
        → (entry now size layer t m pos room j).virtual_addr ≢ start =
      λ j a b.
        let apart : j * m.page_size < off / m.page_size * m.page_size =
          mul-lt-mul_of_pos_right (omega arith) pos in
        let here = virtual_addr-entry now size layer t m pos room j (omega arith) in omega arith in
    let found : lookup start n.page_table ≡ lookup start m.page_table = rw (table.0) (
      lookup-create_pages_other (entry now size layer t m pos room) start (pages_for size m) 0
        m.page_table apart) in
    translate_found addr start (lookup start m.page_table) n (rw (table.1) refl) found
    ∙ sym (translate_found addr start (lookup start m.page_table) m refl refl)
