-- ===== src/Host/Safety.antt =====
-- No call of the C interface (host/src/speckv_c_api.cpp) goes through a null pointer.
use mathlib.Core.Bool.{false≢true}
use cxl_spec_kv.Common.{
  ℕ, ◌≡◌, refl, Bool, true, false, ◌&&◌, ◌||◌, not, List, [], ◌∷◌, Option, none, some, arith,
}
use cxl_spec_kv.Host.Allocator.{SpeckvAllocator}
use cxl_spec_kv.Host.Api.{
  Globals, no_globals, Outcome, returned, waiting, crashed, Status, Call, init, finalize,
  alloc_call, free_call, access_call, prefetch_call, set_prefetch_depth, set_compression_scheme,
  step, speckv_init, speckv_finalize, speckv_alloc, speckv_free, speckv_access, accessed,
  speckv_prefetch, speckv_set_prefetch_depth, speckv_set_compression_scheme,
}

has_allocator : Option SpeckvAllocator → Bool
has_allocator none = false
has_allocator (some a) = true

-- A library that is initialised has a driver and an allocator.
unfoldable pub is_ready : Globals → Bool
unfolding has_allocator
is_ready g = not g.g_initialized || (g.g_driver && has_allocator g.g_allocator)

-- A call returned with such globals, or still waits.
unfoldable pub is_safe : Outcome → Bool
unfolding is_ready
is_safe (returned g status value) = is_ready g
is_safe waiting = true
is_safe crashed = false

accessed-is_safe :
    (g : Globals) (o : Option (SpeckvAllocator × Option ℕ))
    → is_ready g ≡ true
    → is_safe (accessed g o) ≡ true
unfolding is_safe accessed
accessed-is_safe g none h = refl
accessed-is_safe g (some (a, none)) h = ground arith
accessed-is_safe g (some (a, some p)) h = ground arith

step-is_safe : (c : Call) (g : Globals) → is_ready g ≡ true → is_safe (step c g) ≡ true
unfolding step is_safe speckv_init speckv_finalize speckv_alloc speckv_free speckv_access
    speckv_prefetch speckv_set_prefetch_depth speckv_set_compression_scheme
step-is_safe (init opened) g h = ground arith
step-is_safe finalize g h = ground arith
step-is_safe (alloc_call bytes out) g h = ground arith
step-is_safe (free_call handle) g h = ground arith
step-is_safe (access_call fuel done handle offset out) g h = grind (arith, accessed-is_safe)
step-is_safe (prefetch_call r l c d t n out) g h = ground arith
step-is_safe (set_prefetch_depth answer) g h = ground arith
step-is_safe (set_compression_scheme answer) g h = ground arith

-- What comes after a call that returned.
and_then : (Globals → Outcome) → Outcome → Outcome
and_then next (returned after status value) = next after
and_then next waiting = waiting
and_then next crashed = crashed

-- A sequence of calls, each on the globals that the one before left.
unfoldable pub run : List Call → Globals → Outcome
unfolding and_then step
run [] g = returned g Status.ok none
run (c ∷ calls) g = and_then (run calls) (step c g)

and_then-is_safe :
    (next : Globals → Outcome) (o : Outcome)
    → ((g : Globals) → is_ready g ≡ true → is_safe (next g) ≡ true)
    → is_safe o ≡ true
    → is_safe (and_then next o) ≡ true
unfolding and_then is_safe
and_then-is_safe next (returned g status value) later h = later g h
and_then-is_safe next waiting later h = refl
and_then-is_safe next crashed later h = absurd (false≢true h)

run-is_safe : (calls : List Call) (g : Globals) → is_ready g ≡ true → is_safe (run calls g) ≡ true
unfolding run is_safe
run-is_safe [] g h = h
run-is_safe (c ∷ calls) g h =
    and_then-is_safe (run calls) (step c g) (run-is_safe calls) (step-is_safe c g h)

-- No sequence of calls, from the start of the program on, goes through a null pointer: each call
-- returns or waits for the driver, and one that returns leaves a library that, if it is
-- initialised, has a driver and an allocator.
pub run-no_globals : (calls : List Call) → is_safe (run calls no_globals) ≡ true
unfolding is_ready
run-no_globals calls = run-is_safe calls no_globals refl
