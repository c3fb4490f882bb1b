-- ===== src/Translation/Tests.antt =====
-- Runs of the address translation unit's model, and its theorems at a concrete unit.
use cxl_spec_kv.Common.{◌≡◌, refl, ◌+◌, if◌then◌else◌, arith}
use cxl_spec_kv.Translation.Tlb.{
  TranslationUnit, create, translate, page_of, index_of, entry_at, is_hit, page_walk,
}
use cxl_spec_kv.Translation.Laws.{IsValid, mapped, create-IsValid, translate-result}

abbrev unit : TranslationUnit
unit = create 1024

unit-IsValid : IsValid unit
unit-IsValid = create-IsValid 1024 (omega arith)

-- A miss at offset 0x123, and the hit after it.
offsets :
    ((translate 0x100000123 unit).1 ≡ 0x4100000246)
    × ((translate 0x100000123 (translate 0x100000123 unit).0).1 ≡ 0x4100000123)
unfolding translate create page_walk
offsets = (refl, refl)

translate-result_example : (translate 0x100000123 unit).1 ≡ (
    if is_hit (page_of 0x100000123) (entry_at (index_of (page_of 0x100000123) unit) unit)
    then mapped 0x100000123
    else mapped 0x100000123 + 0x123)
translate-result_example = translate-result 0x100000123 unit unit-IsValid (omega arith)
