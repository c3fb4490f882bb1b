-- ===== src/System/Methods.antt =====
-- The methods of `CXLSpecKVSystem` (src/cxl_speckv_system.cpp).
use cxl_spec_kv.Common.{
  ℕ, zero, suc, ◌+◌, ◌%◌, Bool, true, false, not, List, [], ◌∷◌, none, some, if◌then◌else◌, ◌==◌,
  ltb, leb, length,
}
use cxl_spec_kv.Common.Words.{mul64, inc32, u32_mod}
use cxl_spec_kv.Engine.Floats.{Floats}
use cxl_spec_kv.Prefetch.Window.{last}
use cxl_spec_kv.Integration.Types as Integration
use cxl_spec_kv.Integration.Types.{
  Reply, answer, hangs, crashes, ◌>>=◌, through, CxlMemoryAllocator,
}
use cxl_spec_kv.Integration.Methods as Allocator
use cxl_spec_kv.Integration.Methods.{Built, cxl_malloc, cxl_access, prefetch_hint}
use cxl_spec_kv.System.Types.{
  SystemConfig, SystemStatistics, CxlSpecKvSystem, no_statistics, Readings,
}

-- `tokens.back()` of a list that is not empty.
unfoldable pub back : ℕ → List ℕ → ℕ
back t [] = t
back t (u ∷ tokens) = back u tokens

module _ (f : Floats) where
  unfoldable pub initialize :
      Built f → SystemConfig f → CxlSpecKvSystem f → CxlSpecKvSystem f × Bool
  initialize built config s =
      let (allocator, done) =
        Allocator.initialize f built config.l1_size_gb config.l2_size_gb config.l3_size_gb
          (Integration.create f) in
      let configured = record s { config = config; allocator = some allocator } in
      if not done then (configured, false) else (record configured { initialized = true }, true)

  -- K and V.
  unfoldable pub kv_size : SystemConfig f → List ℕ → ℕ
  kv_size config tokens = mul64 (mul64 (mul64 (length tokens) config.hidden_dim) 4) 2

  unfoldable pub hint_next :
      Readings f → List ℕ → ℕ → CxlMemoryAllocator f → Reply (CxlMemoryAllocator f)
  hint_next r tokens layer_id a =
      if ltb 16 (length tokens)
      then prefetch_hint f r.predict_top_k r.request_times r.latency_us (last 16 tokens) layer_id a
      else answer a

  -- One turn: what the allocator becomes, and whether the allocation succeeded.
  unfoldable pub process_layer :
      SystemConfig f
      → Readings f
      → List ℕ
      → ℕ
      → CxlMemoryAllocator f
      → Reply (CxlMemoryAllocator f × Bool)
  unfolding hint_next kv_size
  process_layer config r tokens layer_id a = do
    hinted ← hint_next r tokens layer_id a
    (allocated, kv_ptr) ← cxl_malloc f r.malloc_time (kv_size config tokens) layer_id hinted
    elim (kv_ptr == 0) [
      | true ↦ answer (allocated, false)
      | false ↦ do
        (accessed, _) ← cxl_access f r.access_time kv_ptr 0 allocated
        answer (accessed, true)
    ]

  -- The loop over the layers, from `layer_id` on, a 32-bit counter against a 64-bit bound. It runs on
  -- fuel, and counts as hanging when that is used up.
  unfoldable pub process_layers :
      ℕ
      → SystemConfig f
      → (ℕ → Readings f)
      → List ℕ
      → ℕ
      → CxlMemoryAllocator f
      → Reply (CxlMemoryAllocator f × Bool)
  process_layers zero config r tokens layer_id a = hangs
  process_layers (suc fuel) config r tokens layer_id a = elim (ltb layer_id config.num_layers) [
    | false ↦ answer (a, true)
    | true ↦ do
      (after, done) ← process_layer config (r layer_id) tokens layer_id a
      elim done [
        | false ↦ answer (after, false)
        | true ↦ process_layers fuel config r tokens (inc32 layer_id) after
      ]
  ]

  -- The loop over the batches, from `batch_idx` on.
  unfoldable pub process_batches :
      ℕ
      → SystemConfig f
      → (ℕ → ℕ → Readings f)
      → ℕ
      → List (List ℕ)
      → CxlMemoryAllocator f
      → Reply (CxlMemoryAllocator f × Bool)
  process_batches fuel config r batch_idx [] a = answer (a, true)
  process_batches fuel config r batch_idx (tokens ∷ batches) a = do
    (after, done) ← process_layers fuel config (r batch_idx) tokens 0 a
    elim done [
      | false ↦ answer (after, false)
      | true ↦ process_batches fuel config r (batch_idx + 1) batches after
    ]

  -- The outputs for the KV cache are never written.
  unfoldable pub process_tokens :
      ℕ
      → (ℕ → ℕ → Readings f)
      → List (List ℕ)
      → CxlSpecKvSystem f
      → Reply (CxlSpecKvSystem f × Bool)
  unfolding process_batches
  process_tokens fuel r token_batches s = if not s.initialized then answer (s, false) else do
    a ← through s.allocator
    (after, done) ← process_batches fuel s.config r 0 token_batches a
    answer (record s { allocator = some after }, done)

  unfoldable pub generate_next_token :
      Readings f → List ℕ → ℕ → CxlSpecKvSystem f → Reply (CxlSpecKvSystem f × ℕ)
  generate_next_token r [] layer_id s = answer (s, 0)
  generate_next_token r (t ∷ token_history) layer_id s =
      let history = t ∷ token_history in
      let next_token = (back t token_history + 1) % u32_mod in
      if not s.initialized
      then answer (s, 0)
      else if not (leb 16 (length history))
      then answer (s, next_token)
      else do
        a ← through s.allocator
        hinted ←
            prefetch_hint f r.predict_top_k r.request_times r.latency_us (last 16 history) layer_id
              a
        answer (record s { allocator = some hinted }, next_token)

  unfoldable pub get_statistics : CxlSpecKvSystem f → SystemStatistics f
  get_statistics s = elim s.allocator [
    | none ↦ no_statistics f
    | some a ↦ if not s.initialized then no_statistics f else record (no_statistics f) {
      prefetch = record (no_statistics f).prefetch {
        hit_rate = (Allocator.get_statistics f a).prefetch_hit_rate;
      };
    }
  ]

  -- Nothing is reset yet.
  unfoldable pub reset_statistics : CxlSpecKvSystem f → CxlSpecKvSystem f
  reset_statistics s = s
