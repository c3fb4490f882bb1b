-- ===== src/Host/Lost.antt =====
-- What accesses of the host library (host/src/speckv_allocator.cpp) do to the ring of the kernel
-- module (driver/speckv_kernel_module.c), through the driver.
use Prim.Native.Nat.{bit_or}
use cxl_spec_kv.Common.{
  ℕ, ◌+◌, ◌-◌, ap, ◌%◌, ◌≡◌, ◌⊎◌, inl, inr, refl, Bool, true, false, List, [], ◌∷◌, Option, none,
  some, if◌then◌else◌, length, arith,
}
use cxl_spec_kv.Common.Words.{add64}
use cxl_spec_kv.Common.Assoc.{lookup, insert}
use cxl_spec_kv.Host.Allocator.{
  SpeckvAllocator, KvPageHandle, page_at, is_in_l1_or_l2, fetch_desc, sync_fetch_page, access,
}
use cxl_spec_kv.Host.Driver.{submit_dma_batch}
use cxl_spec_kv.Host.Machine.{
  HostMachine, KernelAnswers, answers, taken, fetch_on, access_on, IsOpen, Advanced,
  submit-Advanced, wait_on-Advanced,
}

-- Either both wait for ever, or both return, with the same library, and the write pointer has moved
-- by `n` slots, up to the end of the ring.
abbrev pub Lands : ℕ → HostMachine → Option SpeckvAllocator → Option HostMachine → Type 0
Lands n s alone over =
    ((alone ≡ none) × (over ≡ none))
    ⊎ ((t : HostMachine) × (alone ≡ some t.library)
        × (over ≡ some t)
        × Advanced n s.driver t.driver)

-- The descriptors that the library has submitted since.
abbrev pub since : SpeckvAllocator → SpeckvAllocator → ℕ
since before after = length after.submitted - length before.submitted

-- As `Lands`, for what one call submits if the kernel takes it.
abbrev FetchLands :
    KernelAnswers → HostMachine → Option SpeckvAllocator → Option HostMachine → Type 0
FetchLands answer s alone over =
    ((alone ≡ none) × (over ≡ none))
    ⊎ ((t : HostMachine) × (alone ≡ some t.library)
        × (over ≡ some t)
        × Advanced (taken answer (since s.library t.library)) s.driver t.driver)

taken-zero : (answer : KernelAnswers) (n : ℕ) → n ≡ 0 → taken answer n ≡ 0
unfolding taken
taken-zero answer n e = ground (arith, e)

module _ (ptr fuel : ℕ) (answer : KernelAnswers) (s : HostMachine) (open_s : IsOpen s.driver) where
  stay : Advanced (taken answer (since s.library s.library)) s.driver s.driver
  stay =
      let nothing = taken-zero answer (since s.library s.library) (omega arith) in
      (open_s, omega (arith, nothing, open_s.2))

  fetch-found :
      (v : ℕ) (found : Option KvPageHandle)
      → lookup v s.library.page_table ≡ found
      → FetchLands answer s
          (sync_fetch_page fuel (answers answer) v s.library)
          (fetch_on ptr fuel answer v s)
  unfolding sync_fetch_page fetch_on
  fetch-found v none e = rw (e, sync_fetch_page, fetch_on) (inr (s, refl, refl, stay))
  fetch-found v (some page) e =
      let submitted =
        submit_dma_batch ptr answer.readable answer.memory (fetch_desc v page ∷ []) s.driver in
      let advanced = submit-Advanced ptr answer (fetch_desc v page) s.driver open_s in
      elim (wait_on-Advanced fuel answer 0 submitted.0 advanced.0) [
        | inl (stuck, waits) ↦
            inl (rw (e, waits, sync_fetch_page) refl, rw (e, stuck, fetch_on) refl)
        | inr (d, ends, done, later) ↦
            let library : SpeckvAllocator = record s.library {
              submitted = fetch_desc v page ∷ s.library.submitted;
              page_table =
                  insert v (record page { flags = bit_or page.flags 2 }) s.library.page_table;
            } in
            let one : since s.library library ≡ 1 = omega arith in
            inr (
              record { library = library; driver = d },
              rw (e, done, sync_fetch_page) refl,
              rw (e, ends, fetch_on) refl,
              (later.0, omega (arith, later.1, advanced.1, ap (taken answer) one)),
            )
      ]

  -- The same of an access, with the address that it gives.
  abbrev AccessLands :
      Option (SpeckvAllocator × Option ℕ) → Option (HostMachine × Option ℕ) → Type 0
  AccessLands alone over =
      ((alone ≡ none) × (over ≡ none))
      ⊎ ((t : HostMachine) × (addr : Option ℕ) × (alone ≡ some (t.library, addr))
          × (over ≡ some (t, addr))
          × Advanced (taken answer (since s.library t.library)) s.driver t.driver)

  fetched :
      (page : KvPageHandle) (held : Bool)
      → is_in_l1_or_l2 page.virt_page_id s.library ≡ held
      → FetchLands answer s
          (if held
            then some s.library
            else sync_fetch_page fuel (answers answer) page.virt_page_id s.library)
          (if held then some s else fetch_on ptr fuel answer page.virt_page_id s)
  fetched page true e = inr (s, refl, refl, stay)
  fetched page false e =
      fetch-found page.virt_page_id (lookup page.virt_page_id s.library.page_table) refl

  access-found :
      (handle offset : ℕ) (found : Option KvPageHandle)
      → page_at handle offset s.library ≡ found
      → AccessLands
          (access fuel (answers answer) handle offset s.library)
          (access_on ptr fuel answer handle offset s)
  unfolding access access_on
  access-found handle offset none e =
      inr (s, none, rw (e, access) refl, rw (e, access_on) refl, stay)
  access-found handle offset (some page) e =
      elim (fetched page (is_in_l1_or_l2 page.virt_page_id s.library) refl) [
        | inl (stuck, waits) ↦ inl (rw (e, stuck, access) refl, rw (e, waits, access_on) refl)
        | inr (t, alone, over, advanced) ↦ inr (
          t,
          some (add64 page.phys_page_id (offset % 4096)),
          rw (e, alone, access) refl,
          rw (e, over, access_on) refl,
          advanced,
        )
      ]

-- An access, and what the kernel answers during it.
pub record Access : Type 0 where
  pub handle : ℕ
  pub offset : ℕ
  pub answer : KernelAnswers

-- A sequence of accesses of the library, with a driver whose polls answer so.
unfoldable pub run_alone : ℕ → List Access → SpeckvAllocator → Option SpeckvAllocator
run_alone fuel [] a = some a
run_alone fuel (c ∷ calls) a = elim (access fuel (answers c.answer) c.handle c.offset a) [
  | none ↦ none
  | some (after, addr) ↦ run_alone fuel calls after
]

-- The descriptors that they submit in accesses at which the kernel can read them and has memory.
unfoldable pub given : ℕ → List Access → SpeckvAllocator → ℕ
unfolding taken
given fuel [] a = 0
given fuel (c ∷ calls) a = elim (access fuel (answers c.answer) c.handle c.offset a) [
  | none ↦ 0
  | some (after, addr) ↦ taken c.answer (since a after) + given fuel calls after
]

-- The same accesses through the driver and the kernel module.
unfoldable pub run_on : ℕ → ℕ → List Access → HostMachine → Option HostMachine
run_on ptr fuel [] s = some s
run_on ptr fuel (c ∷ calls) s = elim (access_on ptr fuel c.answer c.handle c.offset s) [
  | none ↦ none
  | some (after, addr) ↦ run_on ptr fuel calls after
]

-- With the device open, the region mapped and the ring as after loading, and whatever the kernel
-- answers, its errors included: any sequence of accesses of the library through the driver and the
-- kernel module does what the library does with a driver that answers a poll when the completion
-- register does not read 0 or the poll fails. Both wait for more than `fuel` polls, or both return
-- with the same library. The write pointer of the ring has then moved by the number of descriptors
-- that the kernel could read and had memory for, up to 1023 and no further: the FPGA is never given
-- the other pages, and their accesses return all the same.
pub run_on-run_alone :
    (ptr fuel : ℕ) (calls : List Access) (s : HostMachine)
    → IsOpen s.driver
    → Lands
        (given fuel calls s.library)
        s
        (run_alone fuel calls s.library)
        (run_on ptr fuel calls s)
unfolding run_alone run_on given
run_on-run_alone ptr fuel [] s open_s = inr (s, refl, refl, (open_s, omega (arith, open_s.2)))
run_on-run_alone ptr fuel (c ∷ calls) s open_s =
    elim (access-found ptr fuel c.answer s open_s c.handle c.offset
      (page_at c.handle c.offset s.library) refl) [
        | inl (stuck, waits) ↦ inl (rw (stuck, run_alone) refl, rw (waits, run_on) refl)
        | inr (t, addr, alone, over, advanced) ↦
            let more : given fuel (c ∷ calls) s.library
                ≡ taken c.answer (since s.library t.library) + given fuel calls t.library =
              rw (alone, given) refl in
            elim (run_on-run_alone ptr fuel calls t advanced.0) [
              | inl (stuck, waits) ↦ inl (rw (alone, run_alone) stuck, rw (over, run_on) waits)
              | inr (last, alone_last, over_last, later) ↦ inr (
                last,
                rw (alone, run_alone) alone_last,
                rw (over, run_on) over_last,
                (later.0, omega (arith, later.1, advanced.1, more)),
              )
            ]
      ]
