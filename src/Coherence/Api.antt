-- ===== src/Coherence/Api.antt =====
-- The C interface of `CoherenceManager` (src/cxl_memory/coherence_c_api.cpp). A handle is `none` for the
-- null pointer; one that was destroyed must not be used again and is not modelled. Whether a pointer
-- to data is null is an argument. `data_out` and `data`, here `data_in`, are not read by the manager.
use cxl_spec_kv.Common.{ℕ, Bool, true, false, not, List, Option, none, some, if◌then◌else◌}
use cxl_spec_kv.Coherence.Types.{
  CoherenceState, invalid, shared, exclusive, modified, MemoryTier, l1_gpu, l2_prefetch, l3_cxl,
  Statistics, CoherenceManager,
}
use cxl_spec_kv.Coherence.Directory as Directory
use cxl_spec_kv.Coherence.Methods.{request_read, request_write, invalidate, writeback, flush_all}
use cxl_spec_kv.Coherence.Report.{destroy}
use cxl_spec_kv.Coherence.Tiers.{
  promote_to_l1, demote_to_l3, batch_invalidate, get_state, get_tier, get_statistics,
  reset_statistics,
}

abbrev pub Handle : Type 0
Handle = Option CoherenceManager

-- A method through a handle that is not null; `false` otherwise.
unfoldable pub with_manager : Handle → (CoherenceManager → CoherenceManager × Bool) → Handle × Bool
with_manager none method = (none, false)
with_manager (some m) method = let (after, result) = method m in (some after, result)

-- The constructors throw if the device does not open.
unfoldable pub coherence_manager_create : Bool → ℕ → Handle
coherence_manager_create opened cache_line_size =
    if opened then some (Directory.create true cache_line_size) else none

-- What the destructor leaves of the manager.
unfoldable pub coherence_manager_destroy : Handle → Option CoherenceManager
coherence_manager_destroy none = none
coherence_manager_destroy (some m) = some (destroy m)

unfoldable pub coherence_manager_request_read : ℕ → Handle → ℕ → Bool → Handle × Bool
unfolding with_manager
coherence_manager_request_read now handle addr data_out =
    if not data_out then (handle, false) else with_manager handle (request_read now addr)

unfoldable pub coherence_manager_request_write : ℕ → Handle → ℕ → Bool → Handle × Bool
unfolding with_manager
coherence_manager_request_write now handle addr data_in =
    if not data_in then (handle, false) else with_manager handle (request_write now addr)

unfoldable pub coherence_manager_invalidate : Handle → ℕ → Handle × Bool
unfolding with_manager
coherence_manager_invalidate handle addr = with_manager handle (invalidate addr)

unfoldable pub coherence_manager_writeback : Handle → ℕ → Bool → Handle × Bool
unfolding with_manager
coherence_manager_writeback handle addr data_in =
    if not data_in then (handle, false) else with_manager handle (writeback addr)

unfoldable pub coherence_manager_flush_all : Handle → Handle × Bool
unfolding with_manager
coherence_manager_flush_all handle = with_manager handle flush_all

-- `static_cast<int>` of the enumerations.
unfoldable pub int_of_state : CoherenceState → ℕ
int_of_state invalid = 0
int_of_state shared = 1
int_of_state exclusive = 2
int_of_state modified = 3

unfoldable pub int_of_tier : MemoryTier → ℕ
int_of_tier l1_gpu = 0
int_of_tier l2_prefetch = 1
int_of_tier l3_cxl = 2

unfoldable pub coherence_manager_get_state : Handle → ℕ → ℕ
unfolding int_of_state
coherence_manager_get_state none addr = 0
coherence_manager_get_state (some m) addr = int_of_state (get_state addr m)

unfoldable pub coherence_manager_get_tier : Handle → ℕ → ℕ
unfolding int_of_tier
coherence_manager_get_tier none addr = 2
coherence_manager_get_tier (some m) addr = int_of_tier (get_tier addr m)

unfoldable pub coherence_manager_promote_to_l1 : Handle → ℕ → Handle × Bool
unfolding with_manager
coherence_manager_promote_to_l1 handle addr = with_manager handle (promote_to_l1 addr)

unfoldable pub coherence_manager_demote_to_l3 : Handle → ℕ → Handle × Bool
unfolding with_manager
coherence_manager_demote_to_l3 handle addr = with_manager handle (demote_to_l3 addr)

-- `addrs` is `none` for a null array.
unfoldable pub coherence_manager_batch_invalidate : Handle → Option (List ℕ) → Handle × Bool
unfolding with_manager
coherence_manager_batch_invalidate handle none = (handle, false)
coherence_manager_batch_invalidate handle (some addrs) =
    with_manager handle (batch_invalidate addrs)

-- What is written to `stats_out`, if anything; `writable` says that it is not null.
unfoldable pub coherence_manager_get_statistics : Handle → Bool → Option Statistics
coherence_manager_get_statistics none writable = none
coherence_manager_get_statistics (some m) writable =
    if not writable then none else some (get_statistics m)

unfoldable pub coherence_manager_reset_statistics : Handle → Handle
coherence_manager_reset_statistics none = none
coherence_manager_reset_statistics (some m) = some (reset_statistics m)
