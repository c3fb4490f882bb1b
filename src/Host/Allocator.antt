-- ===== src/Host/Allocator.antt =====
-- `SpeckvAllocator` (host/include/speckv_allocator.hpp, host/src/speckv_allocator.cpp). The driver
-- is outside: what it was given is kept as a list, and what it answers to a poll is an argument.
use Prim.Native.Nat.{bit_and, bit_or}
use cxl_spec_kv.Common.{
  ℕ, zero, suc, ◌+◌, ◌/◌, ◌%◌, Bool, true, false, not, List, [], ◌∷◌, Option, none, some,
  if◌then◌else◌, ◌==◌, get_elem?,
}
use cxl_spec_kv.Common.Words.{add64, sub64, inc64, shl64}
use cxl_spec_kv.Common.Assoc.{lookup, insert, erase}

pub record KvPageHandle : Type 0 where
  pub virt_page_id : ℕ
  pub phys_page_id : ℕ
  pub page_size : ℕ
  pub flags : ℕ

pub record Allocation : Type 0 where
  pub size_bytes : ℕ
  pub pages : List KvPageHandle

pub record SpeckvDmaDesc : Type 0 where
  pub fpga_addr : ℕ
  pub gpu_addr : ℕ
  pub bytes : ℕ
  pub flags : ℕ

pub record SpeckvPrefetchReq : Type 0 where
  pub req_id : ℕ
  pub layer : ℕ
  pub cur_pos : ℕ
  pub depth_k : ℕ
  pub history_len : ℕ

-- `submitted` has the descriptors that the driver was given, the newest first, and `prefetches` the
-- prefetch requests with their tokens.
pub record SpeckvAllocator : Type 0 where
  pub submitted : List SpeckvDmaDesc
  pub prefetches : List (SpeckvPrefetchReq × List ℕ)
  pub allocs : List (ℕ × Allocation)
  pub page_table : List (ℕ × KvPageHandle)
  pub next_handle : ℕ

abbrev pub create : SpeckvAllocator
create = record { submitted = []; prefetches = []; allocs = []; page_table = []; next_handle = 1 }

-- Page `i` of an allocation.
unfoldable pub new_page : ℕ → ℕ → KvPageHandle
new_page handle i = record {
  virt_page_id = bit_or (shl64 handle 32) (shl64 i 12);
  phys_page_id = add64 (add64 0x4000000000 (shl64 handle 20)) (shl64 i 12);
  page_size = 4096;
  flags = 0;
}

-- `(bytes + page_size - 1) / page_size`.
unfoldable pub pages_for : ℕ → ℕ
pages_for bytes = sub64 (add64 bytes 4096) 1 / 4096

-- The loop of `alloc` from page `i` on: the pages, and the page table.
unfoldable pub alloc_pages :
    ℕ → ℕ → ℕ → List (ℕ × KvPageHandle) → List KvPageHandle × List (ℕ × KvPageHandle)
alloc_pages handle zero i table = ([], table)
alloc_pages handle (suc left) i table =
    let page = new_page handle i in
    let (pages, filled) = alloc_pages handle left (i + 1) (insert page.virt_page_id page table) in
    (page ∷ pages, filled)

unfoldable pub alloc : ℕ → SpeckvAllocator → SpeckvAllocator × ℕ
alloc bytes a =
    let handle = a.next_handle in
    let (pages, table) = alloc_pages handle (pages_for bytes) 0 a.page_table in
    (
      record a {
        next_handle = inc64 a.next_handle;
        page_table = table;
        allocs = insert handle (record { size_bytes = bytes; pages = pages }) a.allocs;
      },
      handle,
    )

-- The loop of `free`.
unfoldable pub erase_pages : List KvPageHandle → List (ℕ × KvPageHandle) → List (ℕ × KvPageHandle)
erase_pages [] table = table
erase_pages (page ∷ pages) table = erase_pages pages (erase page.virt_page_id table)

unfoldable pub free : ℕ → SpeckvAllocator → SpeckvAllocator
free handle a = elim (lookup handle a.allocs) [
  | none ↦ a
  | some allocation ↦ record a {
    page_table = erase_pages allocation.pages a.page_table;
    allocs = erase handle a.allocs;
  }
]

unfoldable pub is_in_l1_or_l2 : ℕ → SpeckvAllocator → Bool
is_in_l1_or_l2 virt_page_id a = elim (lookup virt_page_id a.page_table) [
  | none ↦ false
  | some page ↦ not (bit_and page.flags 3 == 0)
]

-- `while (driver_->poll_complete() == 0)` from poll `i` on: `done` says which polls do not answer
-- 0. It is false if the loop still runs after `fuel` polls.
unfoldable pub wait_complete : ℕ → (ℕ → Bool) → ℕ → Bool
wait_complete zero done i = false
wait_complete (suc fuel) done i = if done i then true else wait_complete fuel done (i + 1)

-- The descriptor of a fetch.
unfoldable pub fetch_desc : ℕ → KvPageHandle → SpeckvDmaDesc
fetch_desc virt_page_id page = record {
  fpga_addr = page.phys_page_id;
  gpu_addr = add64 0x8000000000 (bit_and virt_page_id 0xFFFFFFFFFFFF);
  bytes = page.page_size;
  flags = 0;
}

-- `none` if it still waits after `fuel` polls.
unfoldable pub sync_fetch_page : ℕ → (ℕ → Bool) → ℕ → SpeckvAllocator → Option SpeckvAllocator
sync_fetch_page fuel done virt_page_id a = elim (lookup virt_page_id a.page_table) [
  | none ↦ some a
  | some page ↦
      if wait_complete fuel done 0
      then some (record a {
        submitted = fetch_desc virt_page_id page ∷ a.submitted;
        page_table = insert virt_page_id (record page { flags = bit_or page.flags 2 }) a.page_table;
      })
      else none
]

-- The page that an access reaches, if there is one.
unfoldable pub page_at : ℕ → ℕ → SpeckvAllocator → Option KvPageHandle
page_at handle offset a = elim (lookup handle a.allocs) [
  | none ↦ none
  | some allocation ↦ get_elem? allocation.pages (offset / 4096)
]

-- `none` if it still waits after `fuel` polls; a null pointer is `none` within.
unfoldable pub access :
    ℕ → (ℕ → Bool) → ℕ → ℕ → SpeckvAllocator → Option (SpeckvAllocator × Option ℕ)
access fuel done handle offset a = elim (page_at handle offset a) [
  | none ↦ some (a, none)
  | some page ↦
      elim (if is_in_l1_or_l2 page.virt_page_id a
        then some a
        else sync_fetch_page fuel done page.virt_page_id a) [
          | none ↦ none
          | some fetched ↦ some (fetched, some (add64 page.phys_page_id (offset % 4096)))
        ]
]

-- `[req_id:32][layer:16][head:8][pos:32][kind:1]`, as the comment has it.
unfoldable pub encode_virt_page : ℕ → ℕ → ℕ → ℕ → ℕ → ℕ
encode_virt_page req_id layer head pos kind =
    bit_or
      (bit_or (bit_or (bit_or (shl64 req_id 32) (shl64 layer 16)) (shl64 head 8)) (shl64 pos 1))
      kind

unfoldable pub prefetch : ℕ → ℕ → ℕ → ℕ → List ℕ → ℕ → SpeckvAllocator → SpeckvAllocator
prefetch req_id layer cur_pos depth_k tokens history_len a =
    let req : SpeckvPrefetchReq = record {
      req_id = req_id;
      layer = layer;
      cur_pos = cur_pos;
      depth_k = depth_k;
      history_len = history_len;
    } in
    record a { prefetches = (req, tokens) ∷ a.prefetches }
