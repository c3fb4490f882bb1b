-- ===== src/System/Process.antt =====
-- Serving batches of tokens (`process_tokens` of src/cxl_speckv_system.cpp): that the loops end, and what
-- they leave allocated.
use native.Mathlib.Nat.{add-mul, mul-add}
use cxl_spec_kv.Common.{
  ℕ, zero, suc, ◌+◌, ◌-◌, ◌*◌, ◌^◌, ◌<◌, ◌≤◌, ◌≡◌, refl, Bool, true, false, ◌&&◌, List, [], ◌∷◌,
  some, ltb, length, arith, subst, ◌∙◌, ◌%◌,
}
use cxl_spec_kv.Common.Words.{inc32, u32_mod, u64_mod}
use cxl_spec_kv.Engine.Floats.{Floats}
use cxl_spec_kv.Memory.Types as Memory
use cxl_spec_kv.Memory.Types.{MemoryManager, gigabytes, l3_cxl_pool}
use cxl_spec_kv.Integration.Types.{
  Reply, answer, hangs, ◌>>=◌, AllocationHandle, CxlMemoryAllocator,
}
use cxl_spec_kv.Integration.Types as Integration
use cxl_spec_kv.Integration.Methods as Allocator
use cxl_spec_kv.Integration.Methods.{
  Built, all_built, cxl_malloc, cxl_access, add_handle, count_malloc,
}
use cxl_spec_kv.Integration.Books.{IsBalanced}
use cxl_spec_kv.Integration.Room.{Roomy, Grown}
use cxl_spec_kv.Integration.History.{initialize-IsBalanced}
use cxl_spec_kv.System.Types.{SystemConfig, CxlSpecKvSystem, Readings, create}
use cxl_spec_kv.System.Methods.{
  initialize, kv_size, process_layers, process_batches, process_tokens,
}
use cxl_spec_kv.System.Turn.{Grown-trans, Served, process_layer-Served}

module _ (f : Floats) where
  module _ (config : SystemConfig f) where
    -- The bytes of the keys and values of a batch in one layer: two numbers of four bytes for each token
    -- and hidden unit, in 64 bits.
    abbrev pub batch_bytes : List ℕ → ℕ
    batch_bytes tokens = length tokens * config.hidden_dim * 8 % u64_mod

    -- Every batch needs some room, and all of them so many bytes.
    unfoldable pub all_sized : List (List ℕ) → Bool
    all_sized [] = true
    all_sized (tokens ∷ batches) = ltb 0 (batch_bytes tokens) && all_sized batches

    unfoldable pub kv_bytes : List (List ℕ) → ℕ
    kv_bytes [] = 0
    kv_bytes (tokens ∷ batches) = config.num_layers * batch_bytes tokens + kv_bytes batches

    -- The same as the code computes them.
    unfoldable code_sized : List (List ℕ) → Bool
    code_sized [] = true
    code_sized (tokens ∷ batches) = ltb 0 (kv_size f config tokens) && code_sized batches

    unfoldable code_bytes : List (List ℕ) → ℕ
    code_bytes [] = 0
    code_bytes (tokens ∷ batches) = config.num_layers * kv_size f config tokens + code_bytes batches

    kv_size-batch_bytes : (tokens : List ℕ) → kv_size f config tokens ≡ batch_bytes tokens
    unfolding kv_size
    kv_size-batch_bytes tokens = omega arith

    code_sized-all_sized : (batches : List (List ℕ)) → code_sized batches ≡ all_sized batches
    unfolding code_sized all_sized
    code_sized-all_sized [] = refl
    code_sized-all_sized (tokens ∷ batches) =
        rw (kv_size-batch_bytes tokens, code_sized-all_sized batches) refl

    code_bytes-kv_bytes : (batches : List (List ℕ)) → code_bytes batches ≡ kv_bytes batches
    unfolding code_bytes kv_bytes
    code_bytes-kv_bytes [] = refl
    code_bytes-kv_bytes (tokens ∷ batches) =
        rw (kv_size-batch_bytes tokens, code_bytes-kv_bytes batches) refl

  module _ (config : SystemConfig f) (few : config.num_layers < u32_mod) where
    process_layers-Served :
        (left fuel : ℕ) (r : ℕ → Readings f) (tokens : List ℕ) (layer room k : ℕ)
        (m : MemoryManager) (a : CxlMemoryAllocator f)
        → layer + left ≡ config.num_layers
        → left < fuel
        → 0 < kv_size f config tokens
        → IsBalanced f (left * (kv_size f config tokens + 4096) + room) m a
        → Roomy (left + k) m
        → Served f left
            (left * kv_size f config tokens)
            room
            k
            a
            (process_layers f fuel config r tokens layer a)
    unfolding process_layers
    process_layers-Served left zero r tokens layer room k m a e enough sized b roomy =
        absurd (omega arith)
    process_layers-Served zero (suc fuel) r tokens layer room k m a e enough sized b roomy =
        let ended : ltb layer config.num_layers ≡ false = ground arith in
        (
          a,
          m,
          ground (arith, ended),
          subst (λ x. IsBalanced f x m a) (omega arith) b,
          omega (arith, roomy),
          (omega arith, refl, omega arith),
        )
    process_layers-Served (suc left) (suc fuel) r tokens layer room k m a e enough sized b roomy =
        let size = kv_size f config tokens in
        let goes_on : ltb layer config.num_layers ≡ true = ground arith in
        let counter : inc32 layer ≡ layer + 1 = omega arith in
        let pages = add-mul left 1 (size + 4096) in
        let sizes = add-mul left 1 size in
        let split : suc left * (size + 4096) + room ≡ size + 4096 + (left * (size + 4096) + room) =
          omega (arith, pages) in
        let (c, n, served, balanced, still, grown) =
          process_layer-Served f config (r layer) tokens layer (left * (size + 4096) + room)
            (left + k) m a sized (subst (λ x. IsBalanced f x m a) split b) (omega (arith, roomy)) in
        let (d, o, answered, at_end, remains, more) =
          process_layers-Served left fuel r tokens (layer + 1) room k n c (omega arith)
            (omega arith) sized balanced still in
        (
          d,
          o,
          ground (arith, goes_on, counter, served, answered),
          at_end,
          remains,
          Grown-trans f 1 left (suc left) size (left * size) (suc left * size) a c d (omega arith)
              (omega (arith, sizes)) grown more,
        )

    process_batches-Served :
        (fuel : ℕ) (r : ℕ → ℕ → Readings f) (batch_idx : ℕ) (batches : List (List ℕ)) (k : ℕ)
        (m : MemoryManager) (a : CxlMemoryAllocator f)
        → config.num_layers < fuel
        → code_sized config batches ≡ true
        → IsBalanced f (code_bytes config batches + length batches * config.num_layers * 4096) m a
        → Roomy (length batches * config.num_layers + k) m
        → Served f
            (length batches * config.num_layers)
            (code_bytes config batches)
            0
            k
            a
            (process_batches f fuel config r batch_idx batches a)
    unfolding process_batches code_sized code_bytes
    process_batches-Served fuel r batch_idx [] k m a enough sized b roomy = (
      a,
      m,
      refl,
      subst (λ x. IsBalanced f x m a) (omega arith) b,
      omega (arith, roomy),
      (omega arith, refl, omega arith),
    )
    process_batches-Served fuel r batch_idx (tokens ∷ batches) k m a enough sized b roomy =
        let size = kv_size f config tokens in
        let layers = config.num_layers in
        let count = add-mul (length batches) 1 layers in
        let pages = mul-add layers size 4096 in
        let later = code_bytes config batches + length batches * layers * 4096 in
        let split : layers * size + code_bytes config batches + suc (length batches) * layers * 4096
            ≡ layers * (size + 4096) + later =
          omega (arith, count, pages) in
        let here : 0 < size = ground arith in
        let (c, n, served, balanced, still, grown) =
          process_layers-Served layers fuel (r batch_idx) tokens 0 later
            (length batches * layers + k) m a (omega arith) enough here
            (subst (λ x. IsBalanced f x m a) split b) (omega (arith, roomy, count)) in
        let (d, o, answered, at_end, remains, more) =
          process_batches-Served fuel r (batch_idx + 1) batches k n c enough (ground arith) balanced
            still in
        (
          d,
          o,
          ground (arith, served, answered),
          at_end,
          remains,
          Grown-trans f layers (length batches * layers) (suc (length batches) * layers)
              (layers * size) (code_bytes config batches)
              (layers * size + code_bytes config batches) a c d (omega (arith, count)) refl grown
              more,
        )

  module _ (config : SystemConfig f) (fuel : ℕ) (r : ℕ → ℕ → Readings f) (batches : List (List ℕ))
      (few : config.num_layers < u32_mod) (enough : config.num_layers < fuel)
      (sized : all_sized config batches ≡ true)
      (fits : kv_bytes config batches + length batches * config.num_layers * 4096
        ≤ u64_mod - 2 ^ 32)
      (room : length batches * config.num_layers * 4096 ≤ gigabytes config.l1_size_gb) where
    -- The system that is initialised, and the allocator that it starts with.
    abbrev pub started : CxlSpecKvSystem f
    started = (initialize f all_built config (create f)).0

    abbrev pub first_allocator : CxlMemoryAllocator f
    first_allocator =
        (Allocator.initialize f all_built config.l1_size_gb config.l2_size_gb config.l3_size_gb
          (Integration.create f)).0

    pub process_tokens-Served :
        (a : CxlMemoryAllocator f) × (m : MemoryManager) × (process_tokens f fuel r batches started
          ≡ answer (record started { allocator = some a }, true))
        × IsBalanced f 0 m a
        × Grown f (length batches * config.num_layers) (kv_bytes config batches) first_allocator a
    unfolding process_tokens initialize Allocator.initialize Integration.create Memory.create
    process_tokens-Served =
        let m = Memory.create config.l1_size_gb config.l2_size_gb config.l3_size_gb 4096 in
        let same = code_bytes-kv_bytes config batches in
        let (b, n, served, balanced, left, grown) =
          process_batches-Served config few fuel r 0 batches 0 m first_allocator enough
            (code_sized-all_sized config batches ∙ sized)
            (initialize-IsBalanced f config.l1_size_gb config.l2_size_gb config.l3_size_gb
              (code_bytes config batches + length batches * config.num_layers * 4096)
              (omega (arith, fits, same)))
            (omega (arith, room)) in
        let layers = length batches * config.num_layers in
        (
          b,
          n,
          ground (arith, served),
          balanced,
          subst (λ (bytes : ℕ). Grown f layers bytes first_allocator b) same grown,
        )

  -- A newly initialised system with fewer than 2^32 layers, and batches of tokens of which each needs
  -- some room, when neither the virtual addresses nor the pages of L1 run out: the loops end, with more
  -- fuel than layers, and report success; there is one allocation for each batch and layer, none of
  -- them was released, and the bytes in use are those of all keys and values: for each batch and layer
  -- 8 for each token and hidden unit, modulo 2^64.
  pub process_tokens-serves :
      (config : SystemConfig f) (fuel : ℕ) (r : ℕ → ℕ → Readings f) (batches : List (List ℕ))
      → config.num_layers < u32_mod
      → config.num_layers < fuel
      → all_sized config batches ≡ true
      → kv_bytes config batches + length batches * config.num_layers * 4096 ≤ u64_mod - 2 ^ 32
      → length batches * config.num_layers * 4096 ≤ gigabytes config.l1_size_gb
      → (s : CxlSpecKvSystem f) × (a : CxlMemoryAllocator f) × (process_tokens f fuel r batches
            (initialize f all_built config (create f)).0
          ≡ answer (s, true))
        × (s.allocator ≡ some a)
        × (a.stats.total_allocations ≡ length batches * config.num_layers)
        × (a.stats.total_deallocations ≡ 0)
        × (a.stats.current_allocated_bytes ≡ kv_bytes config batches)
  unfolding Allocator.initialize Integration.create
  process_tokens-serves config fuel r batches few enough sized fits room =
      let (b, n, served, balanced, grown) =
        process_tokens-Served config fuel r batches few enough sized fits room in
      (_, b, served, refl, omega (arith, grown.0), grown.1, omega (arith, grown.2))
