-- ===== src/Engine/Tlb.antt =====
-- `translate_address` of `FPGACacheEngine` (src/fpga_engine/cache_engine.cpp), over the engine's
-- own table of translations.
use Prim.Native.Nat.{bit_and}
use cxl_spec_kv.Common.{
  ℕ, zero, suc, ◌+◌, ◌*◌, ◌/◌, ◌%◌, ◌^◌, ◌<◌, ◌≡◌, refl, true, false, ◌&&◌, List, [], ◌∷◌, none,
  some, ◌==◌, if◌then◌else◌, get_elem?, set, arith, if_cases, map,
}
use cxl_spec_kv.Common.Words.{u64_mod, add64, not64}
use cxl_spec_kv.Common.Bits.{bit_and-not64, bit_and-low_mask}
use cxl_spec_kv.Common.Tables.{Every, Every-set, Every-replicate}
use cxl_spec_kv.Engine.Floats.{Floats}
use cxl_spec_kv.Engine.Types.{TlbEntry, Engine, create}

abbrev pub no_entry : TlbEntry
no_entry = record { virtual_addr = 0; physical_addr = 0; valid = false }

unfoldable pub tlb_index : ℕ → ℕ → ℕ
tlb_index virtual_addr tlb_size = virtual_addr / 2 ^ 12 % tlb_size

-- A reference to the entry in a slot: the code is only defined for a table that has one.
unfoldable pub entry_at : ℕ → List TlbEntry → TlbEntry
entry_at index tlb = elim (get_elem? tlb index) [ none ↦ no_entry | some e ↦ e ]

-- The translation on the table alone: the table that is left, and the physical address.
unfoldable pub translate_in : ℕ → ℕ → List TlbEntry → List TlbEntry × ℕ
unfolding tlb_index entry_at
translate_in virtual_addr tlb_size tlb =
    let index = tlb_index virtual_addr tlb_size in
    let entry = entry_at index tlb in
    if entry.valid && (entry.virtual_addr == bit_and virtual_addr (not64 0xFFF))
    then (tlb, add64 entry.physical_addr (bit_and virtual_addr 0xFFF))
    else (let physical_addr = add64 0x4000000000 (bit_and virtual_addr 0xFFFFFFFFFFFF) in
        let loaded : TlbEntry = record {
          virtual_addr = bit_and virtual_addr (not64 0xFFF);
          physical_addr = bit_and physical_addr (not64 0xFFF);
          valid = true;
        } in
        (set tlb index loaded, physical_addr))

-- The mapping that the code computes on a miss: 48 bits of the address over a fixed base.
abbrev pub mapped : ℕ → ℕ
mapped addr = 0x4000000000 + addr % 2 ^ 48

abbrev pub IsLoaded : TlbEntry → Type 0
IsLoaded e = e.valid ≡ true → e.physical_addr ≡ mapped e.virtual_addr

entry_at-IsLoaded : (i : ℕ) (tlb : List TlbEntry) → Every IsLoaded tlb → IsLoaded (entry_at i tlb)
unfolding entry_at
entry_at-IsLoaded i [] v = λ h. cc
entry_at-IsLoaded zero (e ∷ tlb) v = v.0
entry_at-IsLoaded (suc i) (e ∷ tlb) v = entry_at-IsLoaded i tlb v.1

page-div : (addr : ℕ) → addr < u64_mod → bit_and addr (not64 0xFFF) ≡ addr / 4096 * 4096
page-div addr h = bit_and-not64 12 addr (omega arith) h

pub translate_in-mapped :
    (addr size : ℕ) (tlb : List TlbEntry)
    → addr < u64_mod
    → Every IsLoaded tlb
    → (translate_in addr size tlb).1 ≡ mapped addr
unfolding translate_in
translate_in-mapped addr size tlb h v = ground (
  arith,
  page-div addr h,
  bit_and-low_mask 12 addr,
  bit_and-low_mask 48 addr,
  entry_at-IsLoaded (tlb_index addr size) tlb v,
)

pub translate_in-Every :
    (addr size : ℕ) (tlb : List TlbEntry)
    → addr < u64_mod
    → Every IsLoaded tlb
    → Every IsLoaded (translate_in addr size tlb).0
unfolding translate_in
translate_in-Every addr size tlb h v =
    let loaded : TlbEntry = record {
      virtual_addr = bit_and addr (not64 0xFFF);
      physical_addr = bit_and (add64 0x4000000000 (bit_and addr 0xFFFFFFFFFFFF)) (not64 0xFFF);
      valid = true;
    } in
    let low = bit_and-low_mask 48 addr in
    let walk = add64 0x4000000000 (bit_and addr 0xFFFFFFFFFFFF) in
    let fits : IsLoaded loaded = λ e. omega (arith, page-div addr h, page-div walk (omega arith)) in
    if_cases {A = List TlbEntry × ℕ} (λ r. Every IsLoaded r.0) _ v
      (Every-set IsLoaded tlb (tlb_index addr size) loaded fits v)

-- Every address of the list is a 64-bit word.
abbrev pub AllWords : List ℕ → Type 0
AllWords [] = Unit
AllWords (a ∷ rest) = (a < u64_mod) × AllWords rest

module _ (f : Floats) where
  unfoldable pub translate_address : ℕ → Engine f → Engine f × ℕ
  unfolding translate_in
  translate_address virtual_addr engine =
      let (tlb, physical_addr) = translate_in virtual_addr engine.tlb_size engine.tlb in
      (record engine { tlb = tlb }, physical_addr)

  -- A run of translations: the addresses returned.
  unfoldable pub translate_all : List ℕ → Engine f → List ℕ
  unfolding translate_address
  translate_all [] engine = []
  translate_all (addr ∷ addrs) engine =
      let (after, physical_addr) = translate_address addr engine in
      physical_addr ∷ translate_all addrs after

  translate_all-mapped :
      (addrs : List ℕ) (engine : Engine f)
      → AllWords addrs
      → Every IsLoaded engine.tlb
      → translate_all addrs engine ≡ map mapped addrs
  unfolding translate_all
  translate_all-mapped [] engine w v = refl
  translate_all-mapped (a ∷ next) engine w v =
      let after = (translate_address a engine).0 in
      let first = translate_in-mapped a engine.tlb_size engine.tlb w.0 v in
      let rest =
        translate_all-mapped next after w.1
          (translate_in-Every a engine.tlb_size engine.tlb w.0 v) in
      rw (first, rest) refl

  create-Every :
      (n : ℕ) (clock : f.Double) (width channels : ℕ)
      → Every IsLoaded (create f n clock width channels).tlb
  unfolding create
  create-Every n clock width channels = Every-replicate IsLoaded 1024 no_entry (λ e. cc)

  -- The table only caches: on a new engine any sequence of translations, with its hits, misses and
  -- evictions, returns the mapped address of each.
  pub translate_all-create :
      (addrs : List ℕ) (n : ℕ) (clock : f.Double) (width channels : ℕ)
      → AllWords addrs
      → translate_all addrs (create f n clock width channels) ≡ map mapped addrs
  translate_all-create addrs n clock width channels w =
      translate_all-mapped addrs (create f n clock width channels) w
        (create-Every n clock width channels)
