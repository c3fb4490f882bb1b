-- ===== src/Kernel/Load.antt =====
-- Loading and unloading the kernel module (`speckv_init` and `speckv_exit` of
-- driver/speckv_kernel_module.c). What each kernel function answers is an argument.
use cxl_spec_kv.Common.{Bool, true, false, List, [], ◌∷◌, if◌then◌else◌, not}
use cxl_spec_kv.Kernel.Types.{
  Kernel, no_kernel, Write, iowrite32, write_all, reg_dma_ring_wr, reg_dma_ring_rd,
  reg_dma_complete, reg_prefetch_status,
}

-- What the module holds of the kernel: the device numbers, the character device, the class, the
-- device, the memory region and its mapping.
pub record Held : Type 0 where
  pub numbers : Bool
  pub cdev : Bool
  pub class : Bool
  pub device : Bool
  pub region : Bool
  pub mapping : Bool

abbrev pub nothing_held : Held
nothing_held = record {
  numbers = false;
  cdev = false;
  class = false;
  device = false;
  region = false;
  mapping = false;
}

-- Whether each request is granted. The module does not look at the answer of `device_create`.
pub record Answers : Type 0 where
  pub alloc_chrdev_region : Bool
  pub cdev_add : Bool
  pub class_create : Bool
  pub device_create : Bool
  pub request_mem_region : Bool
  pub ioremap : Bool

-- The labels of the error path, each falling through to the next.
unfoldable pub err_unregister : Held → Held
err_unregister h = record h { numbers = false }

unfoldable pub err_cdev : Held → Held
unfolding err_unregister
err_cdev h = err_unregister (record h { cdev = false })

unfoldable pub err_device : Held → Held
unfolding err_cdev
err_device h = err_cdev (record h { device = false; class = false })

unfoldable pub init_writes : List Write
init_writes =
    iowrite32 0 reg_dma_ring_wr
    ∷ iowrite32 0 reg_dma_ring_rd
    ∷ iowrite32 0 reg_dma_complete
    ∷ iowrite32 0 reg_prefetch_status
    ∷ []

-- What the module holds after loading, its globals, and whether it is loaded.
unfoldable pub speckv_init : Answers → Held × Kernel × Bool
unfolding err_unregister err_cdev err_device init_writes write_all
speckv_init a =
    if not a.alloc_chrdev_region
    then (nothing_held, no_kernel, false)
    else (let numbered = record nothing_held { numbers = true } in
        if not a.cdev_add
        then (err_unregister numbered, no_kernel, false)
        else (let added = record numbered { cdev = true } in
            if not a.class_create
            then (err_cdev added, no_kernel, false)
            else (let created = record added { class = true; device = a.device_create } in
                if not a.request_mem_region
                then (err_device created, no_kernel, false)
                else (let requested = record created { region = true } in
                    if not a.ioremap
                    then (err_device (record requested { region = false }), no_kernel, false)
                    else (
                      record requested { mapping = true },
                      write_all init_writes (record no_kernel { mapped = true }),
                      true,
                    )))))

unfoldable pub speckv_exit : Held → Kernel → Held × Kernel
speckv_exit h k =
    let unmapped = if k.mapped then record h { mapping = false } else h in
    let released = if h.region then record unmapped { region = false } else unmapped in
    (
      record released { device = false; class = false; cdev = false; numbers = false },
      record k { mapped = false },
    )
