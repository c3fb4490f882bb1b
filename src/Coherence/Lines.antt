-- ===== src/Coherence/Lines.antt =====
-- What the directory promises, one cache line at a time: a state and a tier, and how each kind of
-- request moves them. The manager's methods are proved to follow it in Coherence/Refines.
use cxl_spec_kv.Common.{ℕ, Bool, if◌then◌else◌, ◌&&◌}
use cxl_spec_kv.Coherence.Types.{
  CoherenceState, invalid, shared, modified, MemoryTier, l1_gpu, l3_cxl, CoherenceManager,
}
use cxl_spec_kv.Coherence.Directory.{get_entry, is_cached, is_modified_state}
use cxl_spec_kv.Coherence.Tiers.{state_of, tier_of, is_l3}

pub record Line : Type 0 where
  pub state : CoherenceState
  pub tier : MemoryTier

-- The line at an aligned address; one that the directory does not hold is invalid, in CXL memory.
unfoldable pub line_at : CoherenceManager → ℕ → Line
unfolding get_entry
line_at m line = record { state = state_of (get_entry line m); tier = tier_of (get_entry line m) }

pub data Action : Type 0 where
  reads writes invalidates writes_back flushes promotes demotes : Action
  moves : MemoryTier → Action

abbrev clean : Line
clean = record { state = shared; tier = l3_cxl }

-- The first argument says whether there is a driver: without one every request is refused, but
-- what is only bookkeeping on the host still happens.
unfoldable pub next : Bool → Action → Line → Line
unfolding is_cached is_modified_state is_l3
next driver reads x =
    if is_cached x.state then x else if driver then record { state = shared; tier = l1_gpu } else x
next driver writes x = if driver then record { state = modified; tier = l1_gpu } else x
next driver invalidates x = record x { state = invalid }
next driver writes_back x = if is_modified_state x.state && driver then clean else x
next driver flushes x = if is_modified_state x.state then clean else x
next driver promotes x = if driver then record x { tier = l1_gpu } else x
next driver demotes x =
    if is_l3 x.tier
    then x
    else if is_modified_state x.state
    then clean
    else record x { tier = l3_cxl }
next driver (moves t) x = record x { tier = t }
