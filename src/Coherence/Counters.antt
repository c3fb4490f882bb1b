-- ===== src/Coherence/Counters.antt =====
-- The counters of `CoherenceManager`: what each request adds, and what stays in balance.
use cxl_spec_kv.Common.{
  ℕ, Bool, true, false, List, [], ◌∷◌, ◌≡◌, refl, arith, ◌&&◌, ◌+◌, ◌%◌, Option, none, some,
}
use cxl_spec_kv.Common.Words.{u64_mod, add64}
use cxl_spec_kv.Coherence.Types.{
  CoherenceManager, DirectoryEntry, CoherenceOp, Statistics, MemoryTier,
}
use cxl_spec_kv.Coherence.Directory.{
  create, get_entry, is_cached, align_to_cache_line, put_entry, get_or_create_entry,
  send_coherence_op_to_fpga, update_statistics, sent_invalidations, performed_writebacks,
}
use cxl_spec_kv.Coherence.Methods.{
  request_read, request_write, invalidate, writeback, flush_all, flush_entries, note_write,
}
use cxl_spec_kv.Coherence.Tiers.{
  promote_to_l1, demote_to_l3, update_tier, batch_invalidate_one, batch_invalidate_loop,
  batch_invalidate, batch_writeback_one, batch_writeback_loop, batch_writeback, reset_statistics,
  sync_directory_from_fpga, state_of,
}
use cxl_spec_kv.Coherence.Calls.{
  Call, fetch, store, drop, save, promote, demote, retier, drop_all, save_all, flush, reset, sync,
  step, run,
}

-- Every counted read or write is a hit or a miss, and no operation is left pending. The counters
-- are words, so the sums are taken modulo 2 ^ 64.
pub record IsBalanced (m : CoherenceManager) : Type 0 where
  pub lookups :
      (m.stats.directory_hits + m.stats.directory_misses) % u64_mod
      ≡ (m.stats.total_reads + m.stats.total_writes) % u64_mod
  pub idle : m.pending_ops ≡ 0

update_statistics-IsBalanced :
    (op : CoherenceOp) (hit : Bool) (m : CoherenceManager)
    → IsBalanced m
    → IsBalanced (update_statistics op hit m)
unfolding update_statistics
update_statistics-IsBalanced CoherenceOp.read hit m v = ground arith
update_statistics-IsBalanced _ hit m v = ground arith

send-IsBalanced :
    (op : CoherenceOp) (addr : ℕ) (m : CoherenceManager)
    → IsBalanced m
    → IsBalanced (send_coherence_op_to_fpga op addr m).0
unfolding send_coherence_op_to_fpga
send-IsBalanced CoherenceOp.read addr m v = ground arith
send-IsBalanced _ addr m v = ground arith

request_read-IsBalanced :
    (now addr : ℕ) (m : CoherenceManager) → IsBalanced m → IsBalanced (request_read now addr m).0
unfolding request_read put_entry get_or_create_entry
request_read-IsBalanced now addr m v =
    let line = align_to_cache_line m addr in
    ground (
      arith,
      update_statistics-IsBalanced CoherenceOp.read true m v,
      send-IsBalanced CoherenceOp.read line _
          (update_statistics-IsBalanced CoherenceOp.read false m v),
    )

note_write-IsBalanced :
    (o : Option DirectoryEntry) (m : CoherenceManager) → IsBalanced m → IsBalanced (note_write o m)
unfolding note_write
note_write-IsBalanced none m v = update_statistics-IsBalanced CoherenceOp.write false m v
note_write-IsBalanced (some e) m v = unfold update_statistics sent_invalidations in ground arith

helpers : Unit {0}
unfolding put_entry get_or_create_entry update_statistics sent_invalidations performed_writebacks
    send_coherence_op_to_fpga
helpers = tt

request_write-IsBalanced :
    (now addr : ℕ) (m : CoherenceManager) → IsBalanced m → IsBalanced (request_write now addr m).0
unfolding request_write put_entry get_or_create_entry
request_write-IsBalanced now addr m v =
    let line = align_to_cache_line m addr in
    let noted = note_write (get_entry line m) m in
    ground (
      arith,
      send-IsBalanced CoherenceOp.write line noted (note_write-IsBalanced (get_entry line m) m v),
    )

invalidate-IsBalanced :
    (addr : ℕ) (m : CoherenceManager) → IsBalanced m → IsBalanced (invalidate addr m).0
unfolding invalidate helpers
invalidate-IsBalanced addr m v = ground arith

writeback-IsBalanced :
    (addr : ℕ) (m : CoherenceManager) → IsBalanced m → IsBalanced (writeback addr m).0
unfolding writeback helpers
writeback-IsBalanced addr m v = ground arith

promote_to_l1-IsBalanced :
    (addr : ℕ) (m : CoherenceManager) → IsBalanced m → IsBalanced (promote_to_l1 addr m).0
unfolding promote_to_l1 helpers
promote_to_l1-IsBalanced addr m v = ground arith

demote_to_l3-IsBalanced :
    (addr : ℕ) (m : CoherenceManager) → IsBalanced m → IsBalanced (demote_to_l3 addr m).0
unfolding demote_to_l3 helpers
demote_to_l3-IsBalanced addr m v = ground arith

batch_invalidate_one-IsBalanced :
    (addr : ℕ) (m : CoherenceManager) → IsBalanced m → IsBalanced (batch_invalidate_one addr m).0
unfolding batch_invalidate_one helpers
batch_invalidate_one-IsBalanced addr m v = ground arith

batch_writeback_one-IsBalanced :
    (addr : ℕ) (m : CoherenceManager) → IsBalanced m → IsBalanced (batch_writeback_one addr m).0
unfolding batch_writeback_one helpers
batch_writeback_one-IsBalanced addr m v = ground arith

update_tier-IsBalanced :
    (addr : ℕ) (t : MemoryTier) (m : CoherenceManager)
    → IsBalanced m
    → IsBalanced (update_tier addr t m)
unfolding update_tier helpers
update_tier-IsBalanced addr t m v = ground arith

batch_invalidate_loop-IsBalanced :
    (addrs : List ℕ) (m : CoherenceManager) (ok : Bool)
    → IsBalanced m
    → IsBalanced (batch_invalidate_loop addrs (m, ok)).0
unfolding batch_invalidate_loop
batch_invalidate_loop-IsBalanced [] m ok v = v
batch_invalidate_loop-IsBalanced (addr ∷ addrs) m ok v =
    let one = batch_invalidate_one addr m in
    batch_invalidate_loop-IsBalanced addrs one.0 (ok && one.1)
      (batch_invalidate_one-IsBalanced addr m v)

batch_writeback_loop-IsBalanced :
    (addrs : List ℕ) (m : CoherenceManager) (ok : Bool)
    → IsBalanced m
    → IsBalanced (batch_writeback_loop addrs (m, ok)).0
unfolding batch_writeback_loop
batch_writeback_loop-IsBalanced [] m ok v = v
batch_writeback_loop-IsBalanced (addr ∷ addrs) m ok v =
    let one = batch_writeback_one addr m in
    batch_writeback_loop-IsBalanced addrs one.0 (ok && one.1)
      (batch_writeback_one-IsBalanced addr m v)

flush_entries-IsBalanced :
    (d : List (ℕ × DirectoryEntry)) (m : CoherenceManager) (n : ℕ)
    → IsBalanced m
    → IsBalanced (flush_entries d m n).1
unfolding flush_entries
flush_entries-IsBalanced [] m n v = v
flush_entries-IsBalanced ((line, e) ∷ d) m n v = ground (
  arith,
  flush_entries-IsBalanced d m n v,
  flush_entries-IsBalanced d _ (n + 1) (send-IsBalanced CoherenceOp.writeback line m v),
)

step-IsBalanced :
    (now : ℕ) (c : Call) (m : CoherenceManager) → IsBalanced m → IsBalanced (step now c m).0
unfolding step
step-IsBalanced now (fetch addr) m v = request_read-IsBalanced now addr m v
step-IsBalanced now (store addr) m v = request_write-IsBalanced now addr m v
step-IsBalanced now (drop addr) m v = invalidate-IsBalanced addr m v
step-IsBalanced now (save addr) m v = writeback-IsBalanced addr m v
step-IsBalanced now (promote addr) m v = promote_to_l1-IsBalanced addr m v
step-IsBalanced now (demote addr) m v = demote_to_l3-IsBalanced addr m v
step-IsBalanced now (retier addr t) m v = update_tier-IsBalanced addr t m v
step-IsBalanced now (drop_all addrs) m v =
    unfold batch_invalidate sent_invalidations in
    ground (arith, batch_invalidate_loop-IsBalanced addrs m true v)
step-IsBalanced now (save_all addrs) m v =
    unfold batch_writeback performed_writebacks in
    ground (arith, batch_writeback_loop-IsBalanced addrs m true v)
step-IsBalanced now flush m v =
    unfold flush_all performed_writebacks in
    ground (arith, flush_entries-IsBalanced m.directory m 0 v)
step-IsBalanced now reset m v = unfold reset_statistics in ground arith
step-IsBalanced now sync m v = unfold sync_directory_from_fpga in ground arith

run-IsBalanced :
    (cs : List (ℕ × Call)) (m : CoherenceManager) → IsBalanced m → IsBalanced (run cs m)
unfolding run
run-IsBalanced [] m v = v
run-IsBalanced ((now, c) ∷ cs) m v = run-IsBalanced cs (step now c m).0 (step-IsBalanced now c m v)

-- After any history of calls on a new manager, `directory_hits` and `directory_misses` add up to
-- `total_reads` and `total_writes`, modulo 2 ^ 64, and no operation is pending.
pub run-create-IsBalanced :
    (driver : Bool) (size : ℕ) (cs : List (ℕ × Call)) → IsBalanced (run cs (create driver size))
unfolding create
run-create-IsBalanced driver size cs =
    run-IsBalanced cs (create driver size) (record { lookups = refl; idle = refl })

-- The counters after a read that hits, one that misses, and one that misses without a driver.
unfoldable pub read_counts : Bool → Bool → Statistics → Statistics
read_counts true driver s = record s {
  total_reads = add64 s.total_reads 1;
  directory_hits = add64 s.directory_hits 1;
}
read_counts false true s = record s {
  total_reads = add64 s.total_reads 2;
  directory_hits = add64 s.directory_hits 1;
  directory_misses = add64 s.directory_misses 1;
}
read_counts false false s = record s {
  total_reads = add64 s.total_reads 1;
  directory_misses = add64 s.directory_misses 1;
}

-- A read that hits counts one read and one hit. A read that misses counts one read and one miss
-- without a driver; with a driver it counts two reads, one hit and one miss.
request_read-counts :
    (now addr : ℕ) (m : CoherenceManager)
    → (request_read now addr m).0.stats
      ≡ read_counts
          (is_cached (state_of (get_entry (align_to_cache_line m addr) m)))
          m.driver
          m.stats
unfolding request_read read_counts helpers is_cached
request_read-counts now addr m = ground arith
