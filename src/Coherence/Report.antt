-- ===== src/Coherence/Report.antt =====
-- What `print_directory_state` of `CoherenceManager` (src/cxl_memory/coherence_manager.cpp) counts, and
-- what the destructor leaves.
use cxl_spec_kv.Common.{ℕ, ◌+◌, ◌<◌, ◌≡◌, refl, List, [], ◌∷◌, if◌then◌else◌, ltb, length, arith}
use cxl_spec_kv.Common.Words.{inc64, add64, u64_mod}
use cxl_spec_kv.Common.Assoc.{map_values}
use cxl_spec_kv.Engine.Floats.{Floats}
use cxl_spec_kv.Coherence.Types.{
  CoherenceState, invalid, shared, exclusive, modified, MemoryTier, l1_gpu, l2_prefetch, l3_cxl,
  CoherenceOp, DirectoryEntry, Statistics, CoherenceManager,
}
use cxl_spec_kv.Coherence.Directory.{
  send_coherence_op_to_fpga, update_statistics, is_modified_state, performed_writebacks, count_op,
}
use cxl_spec_kv.Coherence.Methods.{flush_entries, flush_all}
use cxl_spec_kv.Coherence.Refines.{flushed_entry, flush_entries-map_values}

-- `Statistics::hit_rate`.
unfoldable pub hit_rate : (f : Floats) → Statistics → f.Double
hit_rate f s =
    let total = add64 s.directory_hits s.directory_misses in
    if ltb 0 total
    then f.double_div (f.double_of s.directory_hits) (f.double_of total)
    else f.double_of 0

pub record DirectoryCounts : Type 0 where
  pub invalid_count : ℕ
  pub shared_count : ℕ
  pub exclusive_count : ℕ
  pub modified_count : ℕ
  pub l1_count : ℕ
  pub l2_count : ℕ
  pub l3_count : ℕ

abbrev no_counts : DirectoryCounts
no_counts = record {
  invalid_count = 0;
  shared_count = 0;
  exclusive_count = 0;
  modified_count = 0;
  l1_count = 0;
  l2_count = 0;
  l3_count = 0;
}

unfoldable pub count_state : CoherenceState → DirectoryCounts → DirectoryCounts
count_state invalid c = record c { invalid_count = inc64 c.invalid_count }
count_state shared c = record c { shared_count = inc64 c.shared_count }
count_state exclusive c = record c { exclusive_count = inc64 c.exclusive_count }
count_state modified c = record c { modified_count = inc64 c.modified_count }

unfoldable pub count_tier : MemoryTier → DirectoryCounts → DirectoryCounts
count_tier l1_gpu c = record c { l1_count = inc64 c.l1_count }
count_tier l2_prefetch c = record c { l2_count = inc64 c.l2_count }
count_tier l3_cxl c = record c { l3_count = inc64 c.l3_count }

-- The loop over the directory.
unfoldable pub count_entries : List (ℕ × DirectoryEntry) → DirectoryCounts → DirectoryCounts
unfolding count_state count_tier
count_entries [] c = c
count_entries ((line, e) ∷ rest) c = count_entries rest (count_tier e.tier (count_state e.state c))

-- The counts that are printed.
unfoldable pub print_directory_state : CoherenceManager → DirectoryCounts
unfolding count_entries
print_directory_state m = count_entries m.directory no_counts

-- The destructor.
unfoldable pub destroy : CoherenceManager → CoherenceManager
destroy m = (flush_all m).0

abbrev pub of_states : DirectoryCounts → ℕ
of_states c = c.invalid_count + c.shared_count + c.exclusive_count + c.modified_count

abbrev pub of_tiers : DirectoryCounts → ℕ
of_tiers c = c.l1_count + c.l2_count + c.l3_count

-- One entry more.
count_one :
    (s : CoherenceState) (t : MemoryTier) (c : DirectoryCounts)
    → of_states c + 1 < u64_mod
    → of_tiers c + 1 < u64_mod
    → (of_states (count_tier t (count_state s c)) ≡ of_states c + 1)
      × (of_tiers (count_tier t (count_state s c)) ≡ of_tiers c + 1)
unfolding count_tier count_state
count_one s t c few few' = grind arith

count_entries-sums :
    (d : List (ℕ × DirectoryEntry)) (c : DirectoryCounts)
    → of_states c + length d < u64_mod
    → of_tiers c + length d < u64_mod
    → (of_states (count_entries d c) ≡ of_states c + length d)
      × (of_tiers (count_entries d c) ≡ of_tiers c + length d)
unfolding count_entries
count_entries-sums [] c few few' = (omega arith, omega arith)
count_entries-sums ((line, e) ∷ d) c few few' =
    let one = count_one e.state e.tier c (omega arith) (omega arith) in
    let rest =
      count_entries-sums d (count_tier e.tier (count_state e.state c)) (omega (arith, one))
        (omega (arith, one)) in
    (omega (arith, rest, one), omega (arith, rest, one))

-- The counts before and after the modified lines became shared.
abbrev pub Flushed : DirectoryCounts → DirectoryCounts → Type 0
Flushed c c' =
    (c'.invalid_count ≡ c.invalid_count)
    × (c'.shared_count ≡ c.shared_count + c.modified_count)
    × (c'.exclusive_count ≡ c.exclusive_count)
    × (c'.modified_count ≡ 0)

-- The states of an entry before and after.
after_flush : CoherenceState → CoherenceState
after_flush modified = shared
after_flush s = s

count_one-Flushed :
    (s : CoherenceState) (t t' : MemoryTier) (c c' : DirectoryCounts)
    → of_states c + 1 < u64_mod
    → Flushed c c'
    → Flushed (count_tier t (count_state s c)) (count_tier t' (count_state (after_flush s) c'))
unfolding count_tier count_state after_flush
count_one-Flushed s t t' c c' few h = (grind arith, grind arith, grind arith, grind arith)

flushed_entry-state : (e : DirectoryEntry) → (flushed_entry e).state ≡ after_flush e.state
unfolding after_flush is_modified_state
flushed_entry-state e = grind arith

count_one-states :
    (s : CoherenceState) (t : MemoryTier) (c : DirectoryCounts)
    → of_states c + 1 < u64_mod
    → of_states (count_tier t (count_state s c)) ≡ of_states c + 1
unfolding count_tier count_state
count_one-states s t c few = grind arith

count_entries-Flushed :
    (d : List (ℕ × DirectoryEntry)) (c c' : DirectoryCounts)
    → of_states c + length d < u64_mod
    → Flushed c c'
    → Flushed (count_entries d c) (count_entries (map_values flushed_entry d) c')
unfolding count_entries map_values
count_entries-Flushed [] c c' few h = h
count_entries-Flushed ((line, e) ∷ d) c c' few h =
    let one = count_one-states e.state e.tier c (omega arith) in
    let next = count_one-Flushed e.state e.tier (flushed_entry e).tier c c' (omega arith) h in
    count_entries-Flushed d (count_tier e.tier (count_state e.state c))
      (count_tier (flushed_entry e).tier (count_state (flushed_entry e).state c'))
      (omega (arith, one)) (rw (flushed_entry-state e) next)

-- The lines that are flushed are those that are counted as modified.
send-writebacks :
    (line : ℕ) (m : CoherenceManager)
    → (send_coherence_op_to_fpga CoherenceOp.writeback line m).0.stats.writebacks_performed
      ≡ m.stats.writebacks_performed
unfolding send_coherence_op_to_fpga update_statistics count_op
send-writebacks line m = grind arith

count_one-modified :
    (s : CoherenceState) (t : MemoryTier) (c : DirectoryCounts)
    → of_states c + 1 < u64_mod
    → (count_tier t (count_state s c)).modified_count
      ≡ c.modified_count + (if is_modified_state s then 1 else 0)
unfolding count_tier count_state is_modified_state
count_one-modified s t c few = grind arith

flush_entries-modified :
    (d : List (ℕ × DirectoryEntry)) (m : CoherenceManager) (n : ℕ) (c : DirectoryCounts)
    → of_states c + length d < u64_mod
    → ((flush_entries d m n).2 + c.modified_count ≡ n + (count_entries d c).modified_count)
      × ((flush_entries d m n).1.stats.writebacks_performed ≡ m.stats.writebacks_performed)
unfolding flush_entries count_entries
flush_entries-modified [] m n c few = (omega arith, refl)
flush_entries-modified ((line, e) ∷ d) m n c few =
    let counted = count_tier e.tier (count_state e.state c) in
    let one = count_one-states e.state e.tier c (omega arith) in
    let more = count_one-modified e.state e.tier c (omega arith) in
    let sent = (send_coherence_op_to_fpga CoherenceOp.writeback line m).0 in
    let after = flush_entries-modified d sent (n + 1) counted (omega (arith, one)) in
    let still = flush_entries-modified d m n counted (omega (arith, one)) in
    (ground (arith, after, still, more), ground (arith, after, still, send-writebacks line m))

-- For a directory of fewer than 2^64 lines, the printed counts of the states and those of the tiers
-- each add up to the number of lines. The destructor leaves no line counted as modified: those are
-- counted as shared, with the shared ones, and as written back; the other counts of states stay.
pub print_directory_state-destroy :
    (m : CoherenceManager)
    → length m.directory < u64_mod
    → (of_states (print_directory_state m) ≡ length m.directory)
      × (of_tiers (print_directory_state m) ≡ length m.directory)
      × Flushed (print_directory_state m) (print_directory_state (destroy m))
      × ((destroy m).stats.writebacks_performed
          ≡ add64 m.stats.writebacks_performed (print_directory_state m).modified_count)
unfolding print_directory_state destroy flush_all performed_writebacks
print_directory_state-destroy m few =
    let small : of_states no_counts + length m.directory < u64_mod = omega arith in
    let sums = count_entries-sums m.directory no_counts small small in
    let flushed =
      count_entries-Flushed m.directory no_counts no_counts small (refl, refl, refl, refl) in
    let written = flush_entries-modified m.directory m 0 no_counts small in
    let left = flush_entries-map_values m.directory m 0 in
    (omega (arith, sums), omega (arith, sums), rw left flushed, ground (arith, written))
