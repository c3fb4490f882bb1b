-- ===== src/Translation/Laws.antt =====
-- What `AddressTranslationUnit::translate` returns, on a hit and on a miss.
use cxl_spec_kv.Common.{
  ℕ, ◌+◌, ◌*◌, ◌/◌, ◌%◌, ◌^◌, ◌<◌, ◌≡◌, refl, true, false, some, if◌then◌else◌, length, get_elem?,
  set, arith, Bool-cases, if_cases, inl, inr, length-set, get_elem?-set_self, length-replicate,
  length-map, subst, sym, ◌∙◌,
}
use native.Mathlib.Nat.{mod-lt}
use cxl_spec_kv.Common.Words.{u64_mod, inc64}
use cxl_spec_kv.Common.Bits.{bit_and-not64, bit_and-low_mask}
use cxl_spec_kv.Common.Tables.{
  Every, Every-set, Every-get, Every-replicate, Every-map, get_in_range,
}
use cxl_spec_kv.Translation.Tlb.{
  TlbEntry, TranslationUnit, create, page_of, offset_of, index_of, page_walk, entry_at, is_hit,
  translate, invalidate, invalidate_all, drop_entry, no_entry,
}

abbrev pub base : ℕ
base = 0x4000000000

page_of-div : (addr : ℕ) → addr < u64_mod → page_of addr ≡ addr / 4096 * 4096
unfolding page_of
page_of-div addr h = bit_and-not64 12 addr (omega arith) h

offset_of-mod : (addr : ℕ) → offset_of addr ≡ addr % 4096
unfolding offset_of
offset_of-mod addr = bit_and-low_mask 12 addr

page_walk-sum : (addr : ℕ) → page_walk addr ≡ base + addr % 2 ^ 48
unfolding page_walk
page_walk-sum addr = rw (bit_and-low_mask 48 addr) (omega arith)

-- The mapping that the page walk stands for: 48 bits of the address over a fixed base.
abbrev pub mapped : ℕ → ℕ
mapped addr = base + addr % 2 ^ 48

-- A valid entry maps its page.
abbrev IsLoaded : TlbEntry → Type 0
IsLoaded e = e.valid ≡ true → e.physical_page ≡ mapped e.virtual_page

pub record IsValid (unit : TranslationUnit) : Type 0 where
  pub sized : length unit.tlb ≡ unit.tlb_size
  pub some_slot : 0 < unit.tlb_size
  pub loaded : Every IsLoaded unit.tlb

index-lt : (page : ℕ) (unit : TranslationUnit) → IsValid unit → index_of page unit < length unit.tlb
unfolding index_of
index-lt page unit v = rw v.sized (mod-lt _ v.some_slot)

entry_at-found :
    (i : ℕ) (unit : TranslationUnit) (e : TlbEntry)
    → get_elem? unit.tlb i ≡ some e
    → entry_at i unit ≡ e
unfolding entry_at
entry_at-found i unit e h = ground arith

entry_at-IsLoaded :
    (page : ℕ) (unit : TranslationUnit)
    → IsValid unit
    → IsLoaded (entry_at (index_of page unit) unit)
entry_at-IsLoaded page unit v =
    let (e, found) = get_in_range unit.tlb (index_of page unit) (index-lt page unit v) in
    subst IsLoaded (sym (entry_at-found (index_of page unit) unit e found))
      (Every-get IsLoaded unit.tlb (index_of page unit) e found v.loaded)

-- A hit gives the mapped address. A miss gives the mapped address with the page offset added a
-- second time.
pub translate-result :
    (addr : ℕ) (unit : TranslationUnit)
    → IsValid unit
    → addr < u64_mod
    → (translate addr unit).1 ≡ (
        if is_hit (page_of addr) (entry_at (index_of (page_of addr) unit) unit)
        then mapped addr
        else mapped addr + addr % 4096)
unfolding translate is_hit
translate-result addr unit v h = ground (
  arith,
  page_of-div addr h,
  offset_of-mod addr,
  page_walk-sum addr,
  entry_at-IsLoaded (page_of addr) unit v,
)

-- What a miss stores in the slot of the page.
loaded_for : ℕ → TlbEntry
loaded_for addr = record {
  virtual_page = page_of addr;
  physical_page = page_of (page_walk addr);
  valid = true;
}

loaded_for-IsLoaded : (addr : ℕ) → addr < u64_mod → IsLoaded (loaded_for addr)
unfolding loaded_for
loaded_for-IsLoaded addr h _ =
    let walk = page_walk-sum addr in
    let aligned = page_of-div (page_walk addr) (omega arith) in omega (arith, page_of-div addr h)

translate-tlb :
    (addr : ℕ) (unit : TranslationUnit)
    → (translate addr unit).0.tlb ≡ (
        if is_hit (page_of addr) (entry_at (index_of (page_of addr) unit) unit)
        then unit.tlb
        else set unit.tlb (index_of (page_of addr) unit) (loaded_for addr))
unfolding translate is_hit loaded_for
translate-tlb addr unit = ground arith

translate-tlb_size :
    (addr : ℕ) (unit : TranslationUnit) → (translate addr unit).0.tlb_size ≡ unit.tlb_size
unfolding translate
translate-tlb_size addr unit = ground arith

-- A translation keeps the table valid.
translate-IsValid :
    (addr : ℕ) (unit : TranslationUnit)
    → IsValid unit
    → addr < u64_mod
    → IsValid (translate addr unit).0
translate-IsValid addr unit v h =
    let i = index_of (page_of addr) unit in
    let e = loaded_for addr in
    let hit = is_hit (page_of addr) (entry_at i unit) in
    let table = translate-tlb addr unit in
    record {
      sized = ground (arith, table, translate-tlb_size addr unit, v.sized, length-set unit.tlb i e);
      some_slot = rw (translate-tlb_size addr unit) v.some_slot;
      loaded = subst (Every IsLoaded) (sym table) (
          if_cases (Every IsLoaded) hit v.loaded
            (Every-set IsLoaded unit.tlb i e (loaded_for-IsLoaded addr h) v.loaded));
    }

pub create-IsValid : (tlb_size : ℕ) → 0 < tlb_size → IsValid (create tlb_size)
unfolding create
create-IsValid tlb_size h = record {
  sized = length-replicate tlb_size no_entry;
  some_slot = h;
  loaded = Every-replicate IsLoaded tlb_size no_entry (λ e. cc);
}

pub invalidate-IsValid :
    (addr : ℕ) (unit : TranslationUnit) → IsValid unit → IsValid (invalidate addr unit)
unfolding invalidate
invalidate-IsValid addr unit v =
    let i = index_of (page_of addr) unit in
    let e : TlbEntry = record (entry_at i unit) { valid = false } in
    if_cases IsValid _
      (record {
        sized = length-set unit.tlb i e ∙ v.sized;
        some_slot = v.some_slot;
        loaded = Every-set IsLoaded unit.tlb i e (λ h. cc) v.loaded;
      })
      v

pub invalidate_all-IsValid : (unit : TranslationUnit) → IsValid unit → IsValid (invalidate_all unit)
unfolding invalidate_all
invalidate_all-IsValid unit v = record {
  sized = length-map unit.tlb drop_entry ∙ v.sized;
  some_slot = v.some_slot;
  loaded = Every-map IsLoaded IsLoaded drop_entry unit.tlb (λ x p h. cc) v.loaded;
}

index-same :
    (page : ℕ) (unit unit' : TranslationUnit)
    → unit'.tlb_size ≡ unit.tlb_size
    → index_of page unit' ≡ index_of page unit
unfolding index_of
index-same page unit unit' e = rw e refl

-- After a translation the slot of the page holds the page.
hit_after_translate :
    (addr : ℕ) (unit : TranslationUnit)
    → IsValid unit
    → let after = (translate addr unit).0 in
      is_hit (page_of addr) (entry_at (index_of (page_of addr) after) after) ≡ true
unfolding entry_at
hit_after_translate addr unit v =
    let page = page_of addr in
    let i = index_of page unit in
    let after = (translate addr unit).0 in
    rw (index-same page unit after (translate-tlb_size addr unit))
      (elim (Bool-cases (is_hit page (entry_at i unit))) [
        | inl hit ↦ ground (arith, translate-tlb addr unit)
        | inr miss ↦
            unfold is_hit loaded_for in
            ground (
              arith,
              translate-tlb addr unit,
              get_elem?-set_self unit.tlb i (loaded_for addr),
              index-lt page unit v,
            )
      ])

-- The same address translated again gives the mapped address, so a translation that misses and
-- the one after it differ by the page offset.
translate-translate :
    (addr : ℕ) (unit : TranslationUnit)
    → IsValid unit
    → addr < u64_mod
    → (translate addr (translate addr unit).0).1 ≡ mapped addr
translate-translate addr unit v h =
    let after = (translate addr unit).0 in
    translate-result addr after (translate-IsValid addr unit v h) h
    ∙ rw (hit_after_translate addr unit v) refl

-- After `invalidate` the slot of the page does not hold the page.
miss_after_invalidate :
    (addr : ℕ) (unit : TranslationUnit)
    → IsValid unit
    → let after = invalidate addr unit in
      is_hit (page_of addr) (entry_at (index_of (page_of addr) after) after) ≡ false
unfolding invalidate entry_at is_hit
miss_after_invalidate addr unit v =
    let page = page_of addr in
    let i = index_of page unit in
    let e = entry_at i unit in
    ground (
      arith,
      index-same page unit (invalidate addr unit),
      get_elem?-set_self unit.tlb i (record e { valid = false }),
      index-lt page unit v,
    )

-- A translation right after `invalidate` of the address walks the page table again: it counts a
-- miss and no hit.
translate-invalidate :
    (addr : ℕ) (unit : TranslationUnit)
    → IsValid unit
    → (translate addr (invalidate addr unit)).0.stats
      ≡ record unit.stats { misses = inc64 unit.stats.misses }
unfolding translate invalidate
translate-invalidate addr unit v = ground (arith, miss_after_invalidate addr unit v)
