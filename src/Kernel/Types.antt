-- ===== src/Kernel/Types.antt =====
-- The data of the kernel module (driver/uapi/speckv_ioctl.h) and its globals
-- (driver/speckv_kernel_module.c).
use cxl_spec_kv.Common.{ℕ, Bool, false, List, [], ◌++◌}

-- `struct speckv_ioctl_dma_desc`, 24 bytes.
pub record DmaDesc : Type 0 where
  pub fpga_addr : ℕ
  pub gpu_addr : ℕ
  pub bytes : ℕ
  pub flags : ℕ

pub record DmaBatch : Type 0 where
  pub user_ptr : ℕ
  pub count : ℕ
  pub reserved : ℕ

pub record PrefetchReq : Type 0 where
  pub req_id : ℕ
  pub layer : ℕ
  pub reserved0 : ℕ
  pub cur_pos : ℕ
  pub depth_k : ℕ
  pub history_len : ℕ
  pub tokens_user_ptr : ℕ

pub record Param : Type 0 where
  pub key : ℕ
  pub value : ℕ

-- One `iowrite`: where in the MMIO region, how many bytes, and what.
pub record Write : Type 0 where
  pub offset : ℕ
  pub width : ℕ
  pub value : ℕ

-- `mapped` says that `mmio_base` is not null. `writes` are the writes to the region, in their order.
-- `dma_pending` is the bit pattern of an `int`.
pub record Kernel : Type 0 where
  pub mapped : Bool
  pub dma_ring_wr_ptr : ℕ
  pub dma_ring_rd_ptr : ℕ
  pub dma_pending : ℕ
  pub writes : List Write

abbrev pub no_kernel : Kernel
no_kernel = record {
  mapped = false;
  dma_ring_wr_ptr = 0;
  dma_ring_rd_ptr = 0;
  dma_pending = 0;
  writes = [];
}

-- The errors, each for the negative number that the module returns.
pub data Errno : Type 0 where
  efault einval enomem enodev ebusy enotty : Errno

abbrev pub mmio_size : ℕ
mmio_size = 131072

abbrev pub reg_dma_ring_base : ℕ
reg_dma_ring_base = 0x0000

abbrev pub reg_dma_ring_wr : ℕ
reg_dma_ring_wr = 0x0008

abbrev pub reg_dma_ring_rd : ℕ
reg_dma_ring_rd = 0x0010

abbrev pub reg_dma_complete : ℕ
reg_dma_complete = 0x0018

abbrev pub reg_prefetch_fifo : ℕ
reg_prefetch_fifo = 0x0020

abbrev pub reg_prefetch_status : ℕ
reg_prefetch_status = 0x0028

abbrev pub reg_param_prefetch_k : ℕ
reg_param_prefetch_k = 0x0030

abbrev pub reg_param_comp_scheme : ℕ
reg_param_comp_scheme = 0x0038

abbrev pub dma_ring_size : ℕ
dma_ring_size = 1024

abbrev pub iowrite64 : ℕ → ℕ → Write
iowrite64 value offset = record { offset = offset; width = 8; value = value }

abbrev pub iowrite32 : ℕ → ℕ → Write
iowrite32 value offset = record { offset = offset; width = 4; value = value }

abbrev pub iowrite16 : ℕ → ℕ → Write
iowrite16 value offset = record { offset = offset; width = 2; value = value }

-- The module after some writes.
unfoldable pub write_all : List Write → Kernel → Kernel
write_all ws k = record k { writes = k.writes ++ ws }
