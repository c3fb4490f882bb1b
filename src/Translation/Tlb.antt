-- ===== src/Translation/Tlb.antt =====
-- `AddressTranslationUnit` (src/utils/address_translation.{h,cpp}). Addresses are 64-bit words.
use Prim.Native.Nat.{bit_and}
use cxl_spec_kv.Common.{
  ℕ, ◌/◌, ◌%◌, ◌^◌, Bool, true, false, ◌&&◌, List, map, none, some, ◌==◌, if◌then◌else◌, get_elem?,
  set, replicate, ltb,
}
use cxl_spec_kv.Engine.Floats.{Floats}
use cxl_spec_kv.Common.Words.{add64, inc64, not64}

pub record TlbEntry : Type 0 where
  pub virtual_page : ℕ
  pub physical_page : ℕ
  pub valid : Bool

pub record TlbStatistics : Type 0 where
  pub hits : ℕ
  pub misses : ℕ

-- `tlb_` has `tlb_size_` entries.
pub record TranslationUnit : Type 0 where
  pub tlb : List TlbEntry
  pub tlb_size : ℕ
  pub stats : TlbStatistics

abbrev pub no_entry : TlbEntry
no_entry = record { virtual_page = 0; physical_page = 0; valid = false }

unfoldable pub create : ℕ → TranslationUnit
create tlb_size = record {
  tlb = replicate tlb_size no_entry;
  tlb_size = tlb_size;
  stats = record { hits = 0; misses = 0 };
}

-- `addr & ~0xFFF`, `addr & 0xFFF`, and the slot of a page.
unfoldable pub page_of : ℕ → ℕ
page_of addr = bit_and addr (not64 0xFFF)

unfoldable pub offset_of : ℕ → ℕ
offset_of addr = bit_and addr 0xFFF

unfoldable pub index_of : ℕ → TranslationUnit → ℕ
index_of virtual_page unit = virtual_page / 2 ^ 12 % unit.tlb_size

unfoldable pub page_walk : ℕ → ℕ
page_walk virtual_addr = add64 0x4000000000 (bit_and virtual_addr 0xFFFFFFFFFFFF)

-- A reference to the entry in a slot: the code is only defined for a table that has one.
unfoldable pub entry_at : ℕ → TranslationUnit → TlbEntry
entry_at index unit = elim (get_elem? unit.tlb index) [ none ↦ no_entry | some e ↦ e ]

unfoldable pub is_hit : ℕ → TlbEntry → Bool
is_hit virtual_page e = e.valid && (e.virtual_page == virtual_page)

unfoldable pub translate : ℕ → TranslationUnit → TranslationUnit × ℕ
unfolding page_of offset_of index_of entry_at is_hit
translate virtual_addr unit =
    let virtual_page = page_of virtual_addr in
    let page_offset = offset_of virtual_addr in
    let index = index_of virtual_page unit in
    let entry = entry_at index unit in
    if is_hit virtual_page entry
    then (
      record unit { stats = record unit.stats { hits = inc64 unit.stats.hits } },
      add64 entry.physical_page page_offset,
    )
    else (let physical_page = page_walk virtual_addr in
        let loaded : TlbEntry = record {
          virtual_page = virtual_page;
          physical_page = page_of physical_page;
          valid = true;
        } in
        (
          record unit {
            tlb = set unit.tlb index loaded;
            stats = record unit.stats { misses = inc64 unit.stats.misses };
          },
          add64 physical_page page_offset,
        ))

unfoldable pub invalidate : ℕ → TranslationUnit → TranslationUnit
unfolding page_of index_of entry_at
invalidate virtual_addr unit =
    let virtual_page = page_of virtual_addr in
    let index = index_of virtual_page unit in
    let entry = entry_at index unit in
    if entry.virtual_page == virtual_page
    then record unit { tlb = set unit.tlb index (record entry { valid = false }) }
    else unit

unfoldable pub drop_entry : TlbEntry → TlbEntry
drop_entry e = record e { valid = false }

unfoldable pub invalidate_all : TranslationUnit → TranslationUnit
unfolding drop_entry
invalidate_all unit = record unit { tlb = map drop_entry unit.tlb }

unfoldable pub reset_statistics : TranslationUnit → TranslationUnit
reset_statistics unit = record unit { stats = record { hits = 0; misses = 0 } }

-- The counters that `get_statistics` gives.
unfoldable pub get_statistics : TranslationUnit → TlbStatistics
get_statistics unit = unit.stats

-- The `hit_rate` that it gives with them.
unfoldable pub hit_rate : (f : Floats) → TranslationUnit → f.Double
hit_rate f unit =
    let total = add64 unit.stats.hits unit.stats.misses in
    if ltb 0 total
    then f.double_div (f.double_of unit.stats.hits) (f.double_of total)
    else f.double_of 0
