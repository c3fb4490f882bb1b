-- ===== src/Host/Api.antt =====
-- The C interface of the host library (host/src/speckv_c_api.cpp): its globals and error codes.
-- What the driver answers is an argument of the calls.
use cxl_spec_kv.Common.{
  ℕ, Bool, true, false, ◌||◌, not, List, Option, none, some, if◌then◌else◌, ◌==◌,
}
use cxl_spec_kv.Host.Allocator.{SpeckvAllocator, create, alloc, free, access, prefetch}

pub data Status : Type 0 where
  ok err_general err_driver err_nomem err_inval : Status

-- `g_driver`, which is null or not, `g_allocator` and `g_initialized`.
pub record Globals : Type 0 where
  pub g_driver : Bool
  pub g_allocator : Option SpeckvAllocator
  pub g_initialized : Bool

-- The globals before any call.
abbrev pub no_globals : Globals
no_globals = record { g_driver = false; g_allocator = none; g_initialized = false }

-- A call returns its status, and a handle or a pointer where it has one; or it still waits for the
-- driver; or it goes through a null pointer.
pub data Outcome : Type 0 where
  returned : Globals → Status → Option ℕ → Outcome
  waiting : Outcome
  crashed : Outcome

-- The calls with their arguments. `init` has whether the device opens: the constructor of the driver
-- throws if not. The last argument of the allocation, the access and the prefetch says whether the
-- pointer for the result, or to the tokens, is not null; that of the two settings says whether the
-- driver's answer is negative.
pub data Call : Type 0 where
  init : Bool → Call
  finalize : Call
  alloc_call : ℕ → Bool → Call
  free_call : ℕ → Call
  access_call : ℕ → (ℕ → Bool) → ℕ → ℕ → Bool → Call
  prefetch_call : ℕ → ℕ → ℕ → ℕ → List ℕ → ℕ → Bool → Call
  set_prefetch_depth : Bool → Call
  set_compression_scheme : Bool → Call

-- A driver that was made is `ok()`, since its constructor throws when it cannot open the device.
unfoldable pub speckv_init : Bool → Globals → Outcome
speckv_init opened g =
    if g.g_initialized
    then returned g err_general none
    else if opened
    then returned (record g { g_driver = true; g_allocator = some create; g_initialized = true }) ok
        none
    else returned g err_general none

unfoldable pub speckv_finalize : Globals → Outcome
speckv_finalize g =
    returned (record g { g_allocator = none; g_driver = false; g_initialized = false }) ok none

-- A call through `g_allocator`.
unfoldable pub with_allocator : (SpeckvAllocator → Outcome) → Globals → Outcome
with_allocator call g = elim g.g_allocator [ none ↦ crashed | some a ↦ call a ]

unfoldable pub speckv_alloc : ℕ → Bool → Globals → Outcome
unfolding with_allocator
speckv_alloc bytes out g =
    if not g.g_initialized || not out
    then returned g err_inval none
    else with_allocator
        (λ a.
          let (after, handle) = alloc bytes a in
          returned (record g { g_allocator = some after }) ok (some handle))
        g

unfoldable pub speckv_free : ℕ → Globals → Outcome
unfolding with_allocator
speckv_free handle g =
    if not g.g_initialized
    then returned g err_inval none
    else with_allocator (λ a. returned (record g { g_allocator = some (free handle a) }) ok none) g

-- What `speckv_access` makes of the pointer.
unfoldable pub accessed : Globals → Option (SpeckvAllocator × Option ℕ) → Outcome
accessed g none = waiting
accessed g (some (after, none)) = returned (record g { g_allocator = some after }) err_general none
accessed g (some (after, some pointer)) =
    returned (record g { g_allocator = some after }) ok (some pointer)

unfoldable pub speckv_access : ℕ → (ℕ → Bool) → ℕ → ℕ → Bool → Globals → Outcome
unfolding with_allocator accessed
speckv_access fuel done handle offset out g =
    if not g.g_initialized || not out
    then returned g err_inval none
    else with_allocator (λ a. accessed g (access fuel done handle offset a)) g

unfoldable pub speckv_prefetch : ℕ → ℕ → ℕ → ℕ → List ℕ → ℕ → Bool → Globals → Outcome
unfolding with_allocator
speckv_prefetch req_id layer cur_pos depth_k tokens history_len out g =
    if not g.g_initialized || (not out || (history_len == 0))
    then returned g err_inval none
    else with_allocator
        (λ a.
          returned
            (record g {
              g_allocator = some (prefetch req_id layer cur_pos depth_k tokens history_len a);
            })
            ok none)
        g

-- A call through `g_driver`, whose answer is negative or not.
unfoldable pub with_driver : Bool → Globals → Outcome
with_driver answer g =
    if g.g_driver then returned g (if answer then err_driver else ok) none else crashed

-- `speckv_set_prefetch_depth` and `speckv_set_compression_scheme`, which differ in the parameter
-- that the driver is given.
unfoldable pub speckv_set_prefetch_depth : Bool → Globals → Outcome
unfolding with_driver
speckv_set_prefetch_depth answer g =
    if not g.g_initialized then returned g err_inval none else with_driver answer g

unfoldable pub speckv_set_compression_scheme : Bool → Globals → Outcome
unfolding with_driver
speckv_set_compression_scheme answer g =
    if not g.g_initialized then returned g err_inval none else with_driver answer g

unfoldable pub step : Call → Globals → Outcome
step (init opened) = speckv_init opened
step finalize = speckv_finalize
step (alloc_call bytes out) = speckv_alloc bytes out
step (free_call handle) = speckv_free handle
step (access_call fuel done handle offset out) = speckv_access fuel done handle offset out
step (prefetch_call req_id layer cur_pos depth_k tokens history_len out) =
    speckv_prefetch req_id layer cur_pos depth_k tokens history_len out
step (set_prefetch_depth answer) = speckv_set_prefetch_depth answer
step (set_compression_scheme answer) = speckv_set_compression_scheme answer
