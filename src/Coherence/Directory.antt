-- ===== src/Coherence/Directory.antt =====
-- The private helpers of `CoherenceManager` (src/cxl_memory/coherence_manager.cpp): the shadow
-- directory, the counters, and the operation sent to the FPGA.
use cxl_spec_kv.Common.{ℕ, Bool, true, false, [], Option, none, some, if◌then◌else◌}
use cxl_spec_kv.Common.Words.{add64, sub64, not64, inc64, inc32, dec32}
use cxl_spec_kv.Common.Assoc.{lookup, insert}
use Prim.Native.Nat.{bit_and}
use cxl_spec_kv.Coherence.Types.{
  CoherenceState, invalid, shared, exclusive, modified, l3_cxl, CoherenceOp, DirectoryEntry,
  Statistics, CoherenceManager,
}

abbrev pub zero_statistics : Statistics
zero_statistics = record {
  total_reads = 0;
  total_writes = 0;
  coherence_ops = 0;
  invalidations_sent = 0;
  writebacks_performed = 0;
  directory_hits = 0;
  directory_misses = 0;
}

unfoldable pub create : Bool → ℕ → CoherenceManager
create driver cache_line_size = record {
  driver = driver;
  cache_line_size = cache_line_size;
  directory = [];
  stats = zero_statistics;
  pending_ops = 0;
}

-- `addr & ~(cache_line_size_ - 1)`.
unfoldable pub align_to_cache_line : CoherenceManager → ℕ → ℕ
align_to_cache_line m addr = bit_and addr (not64 (sub64 m.cache_line_size 1))

-- A `DirectoryEntry` as its constructor leaves it, at its address.
unfoldable pub new_entry : ℕ → DirectoryEntry
new_entry line = record {
  cache_line_addr = line;
  state = invalid;
  tier = l3_cxl;
  last_access_time = 0;
  access_count = 0;
  pending_operation = false;
}

unfoldable pub get_entry : ℕ → CoherenceManager → Option DirectoryEntry
get_entry line m = lookup line m.directory

-- A write through the pointer that `get_entry` returns.
unfoldable pub put_entry : ℕ → DirectoryEntry → CoherenceManager → CoherenceManager
put_entry line e m = record m { directory = insert line e m.directory }

unfoldable pub get_or_create_entry : ℕ → CoherenceManager → CoherenceManager × DirectoryEntry
get_or_create_entry line m = elim (get_entry line m) [
  | none ↦ (put_entry line (new_entry line) m, new_entry line)
  | some e ↦ (m, e)
]

-- The two counters that a read or a write moves by its `hit`.
unfoldable pub count_lookup : Bool → Statistics → Statistics
count_lookup hit s =
    if hit
    then record s { directory_hits = inc64 s.directory_hits }
    else record s { directory_misses = inc64 s.directory_misses }

unfoldable pub count_op : CoherenceOp → Bool → Statistics → Statistics
unfolding count_lookup
count_op CoherenceOp.read hit s = count_lookup hit (record s { total_reads = inc64 s.total_reads })
count_op CoherenceOp.write hit s =
    count_lookup hit (record s { total_writes = inc64 s.total_writes })
count_op _ hit s = record s { coherence_ops = inc64 s.coherence_ops }

unfoldable pub update_statistics : CoherenceOp → Bool → CoherenceManager → CoherenceManager
unfolding count_op
update_statistics op hit m = record m { stats = count_op op hit m.stats }

unfoldable pub wait_for_fpga_completion : CoherenceManager → Bool
wait_for_fpga_completion m = true

-- The address and the data are not read: the MMIO writes are commented out in the code.
unfoldable pub send_coherence_op_to_fpga :
    CoherenceOp → ℕ → CoherenceManager → CoherenceManager × Bool
unfolding update_statistics wait_for_fpga_completion
send_coherence_op_to_fpga op addr m =
    if m.driver
    then (let pending = record m { pending_ops = inc32 m.pending_ops } in
        let success = wait_for_fpga_completion pending in
        let done = record pending { pending_ops = dec32 pending.pending_ops } in
        (update_statistics op true done, success))
    else (m, false)

unfoldable pub is_cached : CoherenceState → Bool
is_cached invalid = false
is_cached shared = true
is_cached exclusive = true
is_cached modified = true

unfoldable pub is_modified_state : CoherenceState → Bool
is_modified_state modified = true
is_modified_state _ = false

unfoldable pub is_shared_state : CoherenceState → Bool
is_shared_state shared = true
is_shared_state _ = false

unfoldable pub sent_invalidations : ℕ → CoherenceManager → CoherenceManager
sent_invalidations n m = record m {
  stats = record m.stats { invalidations_sent = add64 m.stats.invalidations_sent n };
}

unfoldable pub performed_writebacks : ℕ → CoherenceManager → CoherenceManager
performed_writebacks n m = record m {
  stats = record m.stats { writebacks_performed = add64 m.stats.writebacks_performed n };
}
