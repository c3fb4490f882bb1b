-- ===== src/Coherence/Tiers.antt =====
-- The queries, the tier moves, the batch operations and the rest of `CoherenceManager`
-- (src/cxl_memory/coherence_manager.cpp).
use cxl_spec_kv.Common.{
  ℕ, Bool, true, false, ◌&&◌, List, [], ◌∷◌, Option, none, some, if◌then◌else◌, length,
}
use cxl_spec_kv.Coherence.Types.{
  CoherenceState, invalid, shared, MemoryTier, l1_gpu, l3_cxl, CoherenceOp, DirectoryEntry,
  Statistics, CoherenceManager,
}
use cxl_spec_kv.Coherence.Directory.{
  zero_statistics, align_to_cache_line, get_entry, put_entry, get_or_create_entry,
  send_coherence_op_to_fpga, is_modified_state, performed_writebacks, sent_invalidations,
}

abbrev pub state_of : Option DirectoryEntry → CoherenceState
state_of none = invalid
state_of (some e) = e.state

abbrev pub tier_of : Option DirectoryEntry → MemoryTier
tier_of none = l3_cxl
tier_of (some e) = e.tier

unfoldable pub get_state : ℕ → CoherenceManager → CoherenceState
get_state addr m = state_of (get_entry (align_to_cache_line m addr) m)

unfoldable pub get_tier : ℕ → CoherenceManager → MemoryTier
get_tier addr m = tier_of (get_entry (align_to_cache_line m addr) m)

-- The state is not `INVALID`.
unfoldable pub is_valid : ℕ → CoherenceManager → Bool
is_valid addr m = elim (get_state addr m) [ invalid ↦ false | _ ↦ true ]

unfoldable pub is_modified : ℕ → CoherenceManager → Bool
is_modified addr m = is_modified_state (get_state addr m)

unfoldable pub is_l1 : MemoryTier → Bool
is_l1 l1_gpu = true
is_l1 _ = false

unfoldable pub is_l3 : MemoryTier → Bool
is_l3 l3_cxl = true
is_l3 _ = false

unfoldable pub promote_to_l1 : ℕ → CoherenceManager → CoherenceManager × Bool
unfolding is_l1
promote_to_l1 addr m =
    let line = align_to_cache_line m addr in
    let (created, e) = get_or_create_entry line m in
    if is_l1 e.tier
    then (created, true)
    else (let (sent, success) = send_coherence_op_to_fpga CoherenceOp.read line created in
        if success then (put_entry line (record e { tier = l1_gpu }) sent, true) else (sent, false))

unfoldable pub demote_to_l3 : ℕ → CoherenceManager → CoherenceManager × Bool
unfolding is_l3
demote_to_l3 addr m =
    let line = align_to_cache_line m addr in
    elim (get_entry line m) [
      | none ↦ (m, true)
      | some e ↦
          if is_l3 e.tier
          then (m, true)
          else (if is_modified_state e.state
              then (let (sent, _) = send_coherence_op_to_fpga CoherenceOp.writeback line m in
                  (
                    put_entry line (record e { state = shared; tier = l3_cxl })
                        (performed_writebacks 1 sent),
                    true,
                  ))
              else (put_entry line (record e { tier = l3_cxl }) m, true))
    ]

unfoldable pub update_tier : ℕ → MemoryTier → CoherenceManager → CoherenceManager
update_tier addr new_tier m =
    let line = align_to_cache_line m addr in
    let (created, e) = get_or_create_entry line m in
    put_entry line (record e { tier = new_tier }) created

-- One round of `batch_invalidate`: the manager, and whether the operation was not refused.
unfoldable pub batch_invalidate_one : ℕ → CoherenceManager → CoherenceManager × Bool
batch_invalidate_one addr m =
    let line = align_to_cache_line m addr in
    elim (get_entry line m) [
      | none ↦ (m, true)
      | some e ↦
          send_coherence_op_to_fpga CoherenceOp.invalidate line
            (put_entry line (record e { state = invalid }) m)
    ]

unfoldable pub batch_invalidate_loop : List ℕ → CoherenceManager × Bool → CoherenceManager × Bool
unfolding batch_invalidate_one
batch_invalidate_loop [] s = s
batch_invalidate_loop (addr ∷ addrs) (m, all_success) =
    let (next, success) = batch_invalidate_one addr m in
    batch_invalidate_loop addrs (next, all_success && success)

unfoldable pub batch_invalidate : List ℕ → CoherenceManager → CoherenceManager × Bool
unfolding batch_invalidate_loop
batch_invalidate addrs m =
    let (done, all_success) = batch_invalidate_loop addrs (m, true) in
    (sent_invalidations (length addrs) done, all_success)

-- One round of `batch_writeback`.
unfoldable pub batch_writeback_one : ℕ → CoherenceManager → CoherenceManager × Bool
batch_writeback_one addr m =
    let line = align_to_cache_line m addr in
    elim (get_entry line m) [
      | none ↦ (m, true)
      | some e ↦
          if is_modified_state e.state
          then (let (sent, success) = send_coherence_op_to_fpga CoherenceOp.writeback line m in
              (put_entry line (record e { state = shared; tier = l3_cxl }) sent, success))
          else (m, true)
    ]

unfoldable pub batch_writeback_loop : List ℕ → CoherenceManager × Bool → CoherenceManager × Bool
unfolding batch_writeback_one
batch_writeback_loop [] s = s
batch_writeback_loop (addr ∷ addrs) (m, all_success) =
    let (next, success) = batch_writeback_one addr m in
    batch_writeback_loop addrs (next, all_success && success)

-- The addresses of the batch; what the pointers beside them hold is not read.
unfoldable pub batch_writeback : List ℕ → CoherenceManager → CoherenceManager × Bool
unfolding batch_writeback_loop
batch_writeback addrs m =
    let (done, all_success) = batch_writeback_loop addrs (m, true) in
    (performed_writebacks (length addrs) done, all_success)

unfoldable pub get_statistics : CoherenceManager → Statistics
get_statistics m = m.stats

unfoldable pub reset_statistics : CoherenceManager → CoherenceManager
reset_statistics m = record m { stats = zero_statistics }

-- The code reads nothing from the FPGA yet.
unfoldable pub sync_directory_from_fpga : CoherenceManager → CoherenceManager × Bool
sync_directory_from_fpga m = if m.driver then (m, true) else (m, false)
