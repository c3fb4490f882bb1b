-- ===== src/Coherence/Methods.antt =====
-- The public methods of `CoherenceManager` (src/cxl_memory/coherence_manager.cpp). A method takes
-- the manager and returns it anew with its result. What `data_out` and `data` point to and `size`
-- are not read by the code and are left out; `now` is the reading of `steady_clock` in the call.
-- A call holds `directory_mutex_` from its start to its end, so a call is one step.
use cxl_spec_kv.Common.{ℕ, ◌+◌, Bool, true, false, List, [], ◌∷◌, Option, none, some, if◌then◌else◌}
use cxl_spec_kv.Common.Words.{inc32}
use cxl_spec_kv.Coherence.Types.{
  invalid, shared, modified, l1_gpu, l3_cxl, CoherenceOp, DirectoryEntry, CoherenceManager,
}
use cxl_spec_kv.Coherence.Directory.{
  align_to_cache_line, get_entry, put_entry, get_or_create_entry, update_statistics,
  send_coherence_op_to_fpga, is_cached, is_modified_state, is_shared_state, sent_invalidations,
  performed_writebacks,
}

-- A miss of `request_read`, from the second `update_statistics` on.
unfoldable pub read_miss : ℕ → ℕ → CoherenceManager → CoherenceManager × Bool
read_miss now line m =
    let (sent, success) =
      send_coherence_op_to_fpga CoherenceOp.read line
        (update_statistics CoherenceOp.read false m) in
    if success
    then (let (created, e) = get_or_create_entry line sent in
        let fetched = record e {
          state = shared;
          tier = l1_gpu;
          last_access_time = now;
          access_count = 1;
        } in
        (put_entry line fetched created, true))
    else (sent, false)

-- A hit of `request_read`.
unfoldable pub read_hit : ℕ → ℕ → DirectoryEntry → CoherenceManager → CoherenceManager × Bool
read_hit now line e m =
    let touched = record e { last_access_time = now; access_count = inc32 e.access_count } in
    (put_entry line touched (update_statistics CoherenceOp.read true m), true)

unfoldable pub request_read : ℕ → ℕ → CoherenceManager → CoherenceManager × Bool
unfolding read_miss read_hit
request_read now addr m =
    let line = align_to_cache_line m addr in
    elim (get_entry line m) [
      | none ↦ read_miss now line m
      | some e ↦ if is_cached e.state then read_hit now line e m else read_miss now line m
    ]

-- The counters of `request_write` before the request is sent.
unfoldable pub note_write : Option DirectoryEntry → CoherenceManager → CoherenceManager
note_write none m = update_statistics CoherenceOp.write false m
note_write (some e) m = update_statistics CoherenceOp.write true (
    if is_shared_state e.state
    then sent_invalidations 1 (update_statistics CoherenceOp.invalidate false m)
    else m)

unfoldable pub request_write : ℕ → ℕ → CoherenceManager → CoherenceManager × Bool
unfolding note_write
request_write now addr m =
    let line = align_to_cache_line m addr in
    let noted = note_write (get_entry line m) m in
    let (sent, success) = send_coherence_op_to_fpga CoherenceOp.write line noted in
    if success
    then (let (created, e) = get_or_create_entry line sent in
        let written = record e {
          state = modified;
          tier = l1_gpu;
          last_access_time = now;
          access_count = inc32 e.access_count;
        } in
        (put_entry line written created, true))
    else (sent, false)

unfoldable pub invalidate : ℕ → CoherenceManager → CoherenceManager × Bool
invalidate addr m =
    let line = align_to_cache_line m addr in
    elim (get_entry line m) [
      | none ↦ (m, true)
      | some e ↦
          (let saved = if is_modified_state e.state then performed_writebacks 1 m else m in
            let marked = put_entry line (record e { state = invalid }) saved in
            let (sent, success) = send_coherence_op_to_fpga CoherenceOp.invalidate line marked in
            (sent_invalidations 1 sent, success))
    ]

unfoldable pub writeback : ℕ → CoherenceManager → CoherenceManager × Bool
writeback addr m =
    let line = align_to_cache_line m addr in
    elim (get_entry line m) [
      | none ↦ (m, true)
      | some e ↦
          if is_modified_state e.state
          then (let (sent, success) = send_coherence_op_to_fpga CoherenceOp.writeback line m in
              if success
              then (
                performed_writebacks 1
                    (put_entry line (record e { state = shared; tier = l3_cxl }) sent),
                true,
              )
              else (sent, false))
          else (m, true)
    ]

-- The loop of `flush_all` over the directory, which changes no key: the directory that is left,
-- the manager after the operations sent, and the count of lines flushed.
unfoldable pub flush_entries :
    List (ℕ × DirectoryEntry)
    → CoherenceManager
    → ℕ
    → List (ℕ × DirectoryEntry) × CoherenceManager × ℕ
flush_entries [] m flushed = ([], m, flushed)
flush_entries ((line, e) ∷ rest) m flushed = elim (is_modified_state e.state) [
  | true ↦
      let (sent, success) = send_coherence_op_to_fpga CoherenceOp.writeback line m in
      let (rest', m', n) = flush_entries rest sent (flushed + 1) in
      ((line, record e { state = shared; tier = l3_cxl }) ∷ rest', m', n)
  | false ↦ let (rest', m', n) = flush_entries rest m flushed in ((line, e) ∷ rest', m', n)
]

unfoldable pub flush_all : CoherenceManager → CoherenceManager × Bool
unfolding flush_entries
flush_all m =
    let (directory, sent, flushed) = flush_entries m.directory m 0 in
    (performed_writebacks flushed (record sent { directory = directory }), true)
