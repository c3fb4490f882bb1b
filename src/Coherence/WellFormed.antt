-- ===== src/Coherence/WellFormed.antt =====
-- The shape of the shadow directory: one entry for each line, under the line's own address.
use cxl_spec_kv.Common.{
  ℕ, Bool, true, false, List, [], ◌∷◌, ◌≡◌, refl, arith, ◌&&◌, Option, none, some, not, ◌==◌,
}
use cxl_spec_kv.Common.Assoc.{lookup, insert, map_values, lookup-insert, lookup-map_values}
use cxl_spec_kv.Common.Words.{sub64, not64}
use cxl_spec_kv.Common.Bits.{bit_and_idem}
use Prim.Native.Nat.{bit_and}
use cxl_spec_kv.Coherence.Types.{CoherenceManager, MemoryTier, DirectoryEntry}
use cxl_spec_kv.Coherence.Directory.{
  create, get_entry, align_to_cache_line, put_entry, new_entry, get_or_create_entry,
  send_coherence_op_to_fpga, update_statistics, sent_invalidations, performed_writebacks,
}
use cxl_spec_kv.Coherence.Frames.{flush_entries-SameLines}
use cxl_spec_kv.Coherence.Refines.{flushed_entry, flush_entries-map_values}
use cxl_spec_kv.Coherence.Methods.{
  request_read, request_write, invalidate, writeback, flush_all, note_write,
}
use cxl_spec_kv.Coherence.Tiers.{
  promote_to_l1, demote_to_l3, update_tier, batch_invalidate_one, batch_invalidate_loop,
  batch_invalidate, batch_writeback_one, batch_writeback_loop, batch_writeback, reset_statistics,
  sync_directory_from_fpga,
}
use cxl_spec_kv.Coherence.Calls.{
  Call, fetch, store, drop, save, promote, demote, retier, drop_all, save_all, flush, reset, sync,
  step, run,
}

-- The entry stands under the address of a line and names it; nothing is ever left pending.
is_entry : ℕ → ℕ → DirectoryEntry → Bool
is_entry size key e =
    (bit_and key (not64 (sub64 size 1)) == key)
    && ((e.cache_line_addr == key) && not e.pending_operation)

is_absent : Option DirectoryEntry → Bool
is_absent none = true
is_absent (some e) = false

-- Every entry is one, and no line has two.
unfoldable pub is_directory : ℕ → List (ℕ × DirectoryEntry) → Bool
unfolding is_entry is_absent
is_directory size [] = true
is_directory size ((key, e) ∷ d) =
    is_entry size key e && (is_absent (lookup key d) && is_directory size d)

abbrev pub IsWellFormed : CoherenceManager → Type 0
IsWellFormed m = is_directory m.cache_line_size m.directory ≡ true

is_directory-insert :
    (size key : ℕ) (e : DirectoryEntry) (d : List (ℕ × DirectoryEntry))
    → is_entry size key e ≡ true
    → is_directory size d ≡ true
    → is_directory size (insert key e d) ≡ true
unfolding is_directory insert lookup
is_directory-insert size key e [] p v = ground arith
is_directory-insert size key e ((j, w) ∷ d) p v =
    ground (arith, is_directory-insert size key e d p, lookup-insert key j e d)

is_directory-lookup :
    (size key : ℕ) (e : DirectoryEntry) (d : List (ℕ × DirectoryEntry))
    → lookup key d ≡ some e
    → is_directory size d ≡ true
    → is_entry size key e ≡ true
unfolding is_directory lookup
is_directory-lookup size key e [] h v = cc
is_directory-lookup size key e ((j, w) ∷ d) h v = ground (arith, is_directory-lookup size key e d)

-- The line of an address is aligned.
align-aligned :
    (m : CoherenceManager) (addr : ℕ)
    → bit_and (align_to_cache_line m addr) (not64 (sub64 m.cache_line_size 1))
      ≡ align_to_cache_line m addr
unfolding align_to_cache_line
align-aligned m addr = bit_and_idem addr _

helpers : Unit {0}
unfolding get_entry put_entry get_or_create_entry new_entry update_statistics sent_invalidations
    performed_writebacks send_coherence_op_to_fpga is_entry
helpers = tt

ruleset directory_rules = (arith, is_directory-insert, is_directory-lookup, align-aligned)

request_read-IsWellFormed :
    (now addr : ℕ) (m : CoherenceManager)
    → IsWellFormed m
    → IsWellFormed (request_read now addr m).0
unfolding request_read helpers
request_read-IsWellFormed now addr m v = grind directory_rules

request_write-IsWellFormed :
    (now addr : ℕ) (m : CoherenceManager)
    → IsWellFormed m
    → IsWellFormed (request_write now addr m).0
unfolding request_write note_write helpers
request_write-IsWellFormed now addr m v = grind directory_rules

invalidate-IsWellFormed :
    (addr : ℕ) (m : CoherenceManager) → IsWellFormed m → IsWellFormed (invalidate addr m).0
unfolding invalidate helpers
invalidate-IsWellFormed addr m v = grind directory_rules

writeback-IsWellFormed :
    (addr : ℕ) (m : CoherenceManager) → IsWellFormed m → IsWellFormed (writeback addr m).0
unfolding writeback helpers
writeback-IsWellFormed addr m v = grind directory_rules

promote_to_l1-IsWellFormed :
    (addr : ℕ) (m : CoherenceManager) → IsWellFormed m → IsWellFormed (promote_to_l1 addr m).0
unfolding promote_to_l1 helpers
promote_to_l1-IsWellFormed addr m v = grind directory_rules

demote_to_l3-IsWellFormed :
    (addr : ℕ) (m : CoherenceManager) → IsWellFormed m → IsWellFormed (demote_to_l3 addr m).0
unfolding demote_to_l3 helpers
demote_to_l3-IsWellFormed addr m v = grind directory_rules

batch_invalidate_one-IsWellFormed :
    (addr : ℕ) (m : CoherenceManager)
    → IsWellFormed m
    → IsWellFormed (batch_invalidate_one addr m).0
unfolding batch_invalidate_one helpers
batch_invalidate_one-IsWellFormed addr m v = grind directory_rules

batch_writeback_one-IsWellFormed :
    (addr : ℕ) (m : CoherenceManager) → IsWellFormed m → IsWellFormed (batch_writeback_one addr m).0
unfolding batch_writeback_one helpers
batch_writeback_one-IsWellFormed addr m v = grind directory_rules

update_tier-IsWellFormed :
    (addr : ℕ) (t : MemoryTier) (m : CoherenceManager)
    → IsWellFormed m
    → IsWellFormed (update_tier addr t m)
unfolding update_tier helpers
update_tier-IsWellFormed addr t m v = grind directory_rules

batch_invalidate_loop-IsWellFormed :
    (addrs : List ℕ) (m : CoherenceManager) (ok : Bool)
    → IsWellFormed m
    → IsWellFormed (batch_invalidate_loop addrs (m, ok)).0
unfolding batch_invalidate_loop
batch_invalidate_loop-IsWellFormed [] m ok v = v
batch_invalidate_loop-IsWellFormed (addr ∷ addrs) m ok v =
    let one = batch_invalidate_one addr m in
    batch_invalidate_loop-IsWellFormed addrs one.0 (ok && one.1)
      (batch_invalidate_one-IsWellFormed addr m v)

batch_writeback_loop-IsWellFormed :
    (addrs : List ℕ) (m : CoherenceManager) (ok : Bool)
    → IsWellFormed m
    → IsWellFormed (batch_writeback_loop addrs (m, ok)).0
unfolding batch_writeback_loop
batch_writeback_loop-IsWellFormed [] m ok v = v
batch_writeback_loop-IsWellFormed (addr ∷ addrs) m ok v =
    let one = batch_writeback_one addr m in
    batch_writeback_loop-IsWellFormed addrs one.0 (ok && one.1)
      (batch_writeback_one-IsWellFormed addr m v)

is_absent-map_values :
    (key : ℕ) (d : List (ℕ × DirectoryEntry))
    → is_absent (lookup key (map_values flushed_entry d)) ≡ is_absent (lookup key d)
unfolding is_absent
is_absent-map_values key d = ground (arith, lookup-map_values flushed_entry key d)

is_entry-flushed :
    (size key : ℕ) (e : DirectoryEntry) → is_entry size key (flushed_entry e) ≡ is_entry size key e
unfolding is_entry
is_entry-flushed size key e = ground arith

is_directory-flushed :
    (size : ℕ) (d : List (ℕ × DirectoryEntry))
    → is_directory size (map_values flushed_entry d) ≡ is_directory size d
unfolding is_directory map_values
is_directory-flushed size [] = refl
is_directory-flushed size ((key, e) ∷ d) =
    rw (is_entry-flushed size key e, is_absent-map_values key d, is_directory-flushed size d) refl

flush_all-IsWellFormed : (m : CoherenceManager) → IsWellFormed m → IsWellFormed (flush_all m).0
unfolding flush_all performed_writebacks
flush_all-IsWellFormed m v = ground (
  arith,
  flush_entries-map_values m.directory m 0,
  flush_entries-SameLines m.directory m 0,
  is_directory-flushed m.cache_line_size m.directory,
)

step-IsWellFormed :
    (now : ℕ) (c : Call) (m : CoherenceManager) → IsWellFormed m → IsWellFormed (step now c m).0
unfolding step
step-IsWellFormed now (fetch addr) m v = request_read-IsWellFormed now addr m v
step-IsWellFormed now (store addr) m v = request_write-IsWellFormed now addr m v
step-IsWellFormed now (drop addr) m v = invalidate-IsWellFormed addr m v
step-IsWellFormed now (save addr) m v = writeback-IsWellFormed addr m v
step-IsWellFormed now (promote addr) m v = promote_to_l1-IsWellFormed addr m v
step-IsWellFormed now (demote addr) m v = demote_to_l3-IsWellFormed addr m v
step-IsWellFormed now (retier addr t) m v = update_tier-IsWellFormed addr t m v
step-IsWellFormed now (drop_all addrs) m v =
    unfold batch_invalidate sent_invalidations in batch_invalidate_loop-IsWellFormed addrs m true v
step-IsWellFormed now (save_all addrs) m v =
    unfold batch_writeback performed_writebacks in batch_writeback_loop-IsWellFormed addrs m true v
step-IsWellFormed now flush m v = flush_all-IsWellFormed m v
step-IsWellFormed now reset m v = unfold reset_statistics in v
step-IsWellFormed now sync m v = unfold sync_directory_from_fpga in ground arith

run-IsWellFormed :
    (cs : List (ℕ × Call)) (m : CoherenceManager) → IsWellFormed m → IsWellFormed (run cs m)
unfolding run
run-IsWellFormed [] m v = v
run-IsWellFormed ((now, c) ∷ cs) m v =
    run-IsWellFormed cs (step now c m).0 (step-IsWellFormed now c m v)

-- After any history of calls on a new manager the directory is well formed: each line has at most
-- one entry, which stands under the aligned address of the line, names it, and is not pending.
pub run-create-IsWellFormed :
    (driver : Bool) (size : ℕ) (cs : List (ℕ × Call)) → IsWellFormed (run cs (create driver size))
unfolding create is_directory
run-create-IsWellFormed driver size cs = run-IsWellFormed cs (create driver size) refl
