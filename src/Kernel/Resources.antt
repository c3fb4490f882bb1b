-- ===== src/Kernel/Resources.antt =====
-- What the kernel module holds after loading and unloading (driver/speckv_kernel_module.c).
use cxl_spec_kv.Common.{◌≡◌, Bool, true, false, ◌&&◌, if◌then◌else◌, arith}
use cxl_spec_kv.Kernel.Types.{Kernel}
use cxl_spec_kv.Kernel.Load.{Held, nothing_held, Answers, speckv_init, speckv_exit}

-- What a loaded module holds, with or without its device.
abbrev pub loaded_with : Bool → Held
loaded_with device = record {
  numbers = true;
  cdev = true;
  class = true;
  device = device;
  region = true;
  mapping = true;
}

-- Every request is granted whose answer is looked at.
unfoldable pub granted : Answers → Bool
granted a =
    a.alloc_chrdev_region && (a.cdev_add && (a.class_create && (a.request_mem_region && a.ioremap)))

-- Whatever the kernel grants, loading succeeds exactly when the device numbers, the character device,
-- the class, the memory region and its mapping are granted; the module then holds these, and its
-- device if `device_create` made one, and otherwise nothing: each error path gives back what was
-- taken. So a module whose device could not be made is loaded all the same.
pub speckv_init-held :
    (a : Answers)
    → ((speckv_init a).2 ≡ granted a)
      × ((speckv_init a).0 ≡ (if granted a then loaded_with a.device_create else nothing_held))
      × ((speckv_init a).1.mapped ≡ granted a)
unfolding speckv_init granted
speckv_init-held a = (ground arith, ground arith, ground arith)

-- A module that was loaded holds nothing after it is unloaded, whatever happened in between, as
-- long as its mapping stays, and its mapping is gone.
pub speckv_exit-held :
    (a : Answers) (k : Kernel)
    → (speckv_init a).2 ≡ true
    → k.mapped ≡ true
    → ((speckv_exit (speckv_init a).0 k).0 ≡ nothing_held)
      × ((speckv_exit (speckv_init a).0 k).1.mapped ≡ false)
unfolding speckv_exit speckv_init
speckv_exit-held a k loaded mapped = (ground arith, ground arith)
