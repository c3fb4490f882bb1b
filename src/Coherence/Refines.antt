-- ===== src/Coherence/Refines.antt =====
-- Every method of `CoherenceManager` follows the state machine of a line.
use cxl_spec_kv.Common.{ℕ, List, if◌then◌else◌, ◌≡◌, refl, arith, ◌==◌, [], ◌∷◌, ◌+◌}
use cxl_spec_kv.Common.Assoc.{lookup-insert, map_values, lookup-map_values}
use cxl_spec_kv.Coherence.Types.{
  DirectoryEntry, shared, MemoryTier, l3_cxl, CoherenceManager, CoherenceOp,
}
use cxl_spec_kv.Coherence.Directory.{
  align_to_cache_line, get_entry, put_entry, get_or_create_entry, send_coherence_op_to_fpga,
  new_entry, update_statistics, sent_invalidations, performed_writebacks, is_modified_state,
}
use cxl_spec_kv.Coherence.Frames.{send-SameLines, counted_writeback-SameLines}
use cxl_spec_kv.Coherence.Methods.{
  request_read, request_write, invalidate, writeback, note_write, flush_entries, flush_all,
}
use cxl_spec_kv.Coherence.Tiers.{
  promote_to_l1, demote_to_l3, update_tier, batch_invalidate_one, batch_writeback_one,
}
use cxl_spec_kv.Coherence.Lines.{
  line_at, Action, reads, writes, invalidates, writes_back, flushes, promotes, demotes, moves, next,
}

-- Every tactic call below opens the method, the queries of the directory and the line.
-- A request for `line` by the action `a`: what it leaves at the line `b`.
abbrev pub Follows : Action → ℕ → CoherenceManager → CoherenceManager → Type 0
Follows a line m after =
    (b : ℕ) → line_at after b ≡ (if line == b then next m.driver a (line_at m b) else line_at m b)

pub request_read-Follows :
    (now addr : ℕ) (m : CoherenceManager)
    → Follows reads (align_to_cache_line m addr) m (request_read now addr m).0
unfolding request_read line_at next get_entry put_entry get_or_create_entry
    send_coherence_op_to_fpga new_entry
request_read-Follows now addr m b = grind (arith, lookup-insert {V = DirectoryEntry})

pub request_write-Follows :
    (now addr : ℕ) (m : CoherenceManager)
    → Follows writes (align_to_cache_line m addr) m (request_write now addr m).0
unfolding request_write note_write update_statistics sent_invalidations line_at next get_entry
    put_entry get_or_create_entry send_coherence_op_to_fpga new_entry
request_write-Follows now addr m b = grind (arith, lookup-insert {V = DirectoryEntry})

pub invalidate-Follows :
    (addr : ℕ) (m : CoherenceManager)
    → Follows invalidates (align_to_cache_line m addr) m (invalidate addr m).0
unfolding invalidate sent_invalidations line_at next get_entry put_entry
invalidate-Follows addr m b = grind (
  arith,
  lookup-insert {V = DirectoryEntry},
  send-SameLines CoherenceOp.invalidate,
  counted_writeback-SameLines,
)

pub writeback-Follows :
    (addr : ℕ) (m : CoherenceManager)
    → Follows writes_back (align_to_cache_line m addr) m (writeback addr m).0
unfolding writeback performed_writebacks line_at next get_entry put_entry get_or_create_entry
    send_coherence_op_to_fpga new_entry
writeback-Follows addr m b = grind (arith, lookup-insert {V = DirectoryEntry})

pub promote_to_l1-Follows :
    (addr : ℕ) (m : CoherenceManager)
    → Follows promotes (align_to_cache_line m addr) m (promote_to_l1 addr m).0
unfolding promote_to_l1 line_at next get_entry put_entry get_or_create_entry
    send_coherence_op_to_fpga new_entry
promote_to_l1-Follows addr m b = grind (arith, lookup-insert {V = DirectoryEntry})

pub demote_to_l3-Follows :
    (addr : ℕ) (m : CoherenceManager)
    → Follows demotes (align_to_cache_line m addr) m (demote_to_l3 addr m).0
unfolding demote_to_l3 performed_writebacks line_at next get_entry put_entry get_or_create_entry
    send_coherence_op_to_fpga new_entry
demote_to_l3-Follows addr m b = grind (arith, lookup-insert {V = DirectoryEntry})

pub batch_invalidate_one-Follows :
    (addr : ℕ) (m : CoherenceManager)
    → Follows invalidates (align_to_cache_line m addr) m (batch_invalidate_one addr m).0
unfolding batch_invalidate_one line_at next get_entry put_entry get_or_create_entry
    send_coherence_op_to_fpga new_entry
batch_invalidate_one-Follows addr m b = grind (arith, lookup-insert {V = DirectoryEntry})

pub batch_writeback_one-Follows :
    (addr : ℕ) (m : CoherenceManager)
    → Follows flushes (align_to_cache_line m addr) m (batch_writeback_one addr m).0
unfolding batch_writeback_one line_at next get_entry put_entry get_or_create_entry
    send_coherence_op_to_fpga new_entry
batch_writeback_one-Follows addr m b = grind (arith, lookup-insert {V = DirectoryEntry})

pub update_tier-Follows :
    (addr : ℕ) (t : MemoryTier) (m : CoherenceManager)
    → Follows (moves t) (align_to_cache_line m addr) m (update_tier addr t m)
unfolding update_tier line_at next get_entry put_entry get_or_create_entry new_entry
update_tier-Follows addr t m b = grind (arith, lookup-insert {V = DirectoryEntry})

-- What `flush_all` does to one entry.
abbrev pub flushed_entry : DirectoryEntry → DirectoryEntry
flushed_entry e =
    if is_modified_state e.state then record e { state = shared; tier = l3_cxl } else e

pub flush_entries-map_values :
    (d : List (ℕ × DirectoryEntry)) (m : CoherenceManager) (n : ℕ)
    → (flush_entries d m n).0 ≡ map_values flushed_entry d
unfolding flush_entries map_values
flush_entries-map_values [] m n = refl
flush_entries-map_values ((line, e) ∷ d) m n = ground (
  arith,
  flush_entries-map_values d m n,
  flush_entries-map_values d (send_coherence_op_to_fpga CoherenceOp.writeback line m).0 (n + 1),
)

pub flush_all-Flushes :
    (m : CoherenceManager) (b : ℕ) → line_at (flush_all m).0 b ≡ next m.driver flushes (line_at m b)
unfolding flush_all performed_writebacks line_at next get_entry
flush_all-Flushes m b =
    grind (
      arith,
      flush_entries-map_values m.directory m 0,
      lookup-map_values flushed_entry b m.directory,
    )
