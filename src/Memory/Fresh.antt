-- ===== src/Memory/Fresh.antt =====
-- An allocation of `CXLMemoryManager` (src/cxl_memory/cxl_memory_manager.cpp) takes addresses,
-- virtual and physical, that nothing else has.
use cxl_spec_kv.Common.{
  ℕ, ◌+◌, ◌-◌, ◌*◌, ◌<◌, ◌≤◌, ◌≡◌, ◌≢◌, ◌⊎◌, inl, inr, refl, arith, ◌∙◌, sym, Bool-cases, ltb,
}
use native.Mathlib.Nat.{add-mul}
use cxl_spec_kv.Common.Words.{mul64, u64_mod}
use cxl_spec_kv.Memory.Types.{MemoryTier, l1_gpu_local, l2_prefetch, l3_cxl_pool, MemoryManager}
use cxl_spec_kv.Memory.Pages.{translate_virtual_to_physical, allocate, reserve, pages_for}
use cxl_spec_kv.Memory.Allocate.{
  next_physical, physical_base, tier_for, pages_for_fits, translate-allocate_page,
  translate-allocate_earlier, translate-allocate_later,
}
use cxl_spec_kv.Memory.Separate.{Placed, IsSeparate, less-IsSeparate}

-- By how much the bump pointer of a tier moves when `r` bytes of the first tier are taken.
abbrev extra : MemoryTier → MemoryTier → ℕ → ℕ
extra l1_gpu_local l1_gpu_local r = r
extra l2_prefetch l2_prefetch r = r
extra l3_cxl_pool l3_cxl_pool r = r
extra _ _ r = 0

extra_le : (t u : MemoryTier) (r : ℕ) → extra t u r ≤ r
extra_le l1_gpu_local l1_gpu_local r = omega arith
extra_le l1_gpu_local l2_prefetch r = omega arith
extra_le l1_gpu_local l3_cxl_pool r = omega arith
extra_le l2_prefetch l1_gpu_local r = omega arith
extra_le l2_prefetch l2_prefetch r = omega arith
extra_le l2_prefetch l3_cxl_pool r = omega arith
extra_le l3_cxl_pool l1_gpu_local r = omega arith
extra_le l3_cxl_pool l2_prefetch r = omega arith
extra_le l3_cxl_pool l3_cxl_pool r = omega arith

-- The counters after `r` bytes of a tier were taken.
pub record Bumped (t : MemoryTier) (r : ℕ) (m n : MemoryManager) : Type 0 where
  pub same_page_size : n.page_size ≡ m.page_size
  pub same_lock : n.page_table_locked ≡ m.page_table_locked
  pub next : n.next_virtual_addr ≡ m.next_virtual_addr + r
  pub next_l1 : n.next_physical_addr_l1 ≡ m.next_physical_addr_l1 + extra t l1_gpu_local r
  pub next_l2 : n.next_physical_addr_l2 ≡ m.next_physical_addr_l2 + extra t l2_prefetch r
  pub next_l3 : n.next_physical_addr_l3 ≡ m.next_physical_addr_l3 + extra t l3_cxl_pool r

module _ (room r : ℕ) (m : MemoryManager) (s : IsSeparate room m) (lt : r ≤ room) where
  -- The bump pointers after a reservation.
  reserve-pointers :
      (t : MemoryTier)
      → ((reserve t r m).0.next_physical_addr_l1 ≡ m.next_physical_addr_l1 + extra t l1_gpu_local r)
        × ((reserve t r m).0.next_physical_addr_l2
            ≡ m.next_physical_addr_l2 + extra t l2_prefetch r)
        × ((reserve t r m).0.next_physical_addr_l3
            ≡ m.next_physical_addr_l3 + extra t l3_cxl_pool r)
        × ((reserve t r m).0.page_table_locked ≡ m.page_table_locked)
        × ((reserve t r m).0.page_size ≡ m.page_size)
  unfolding reserve
  reserve-pointers l1_gpu_local = (omega (arith, s.l1_to), omega arith, omega arith, refl, refl)
  reserve-pointers l2_prefetch = (omega arith, omega (arith, s.l2_to), omega arith, refl, refl)
  reserve-pointers l3_cxl_pool = (omega arith, omega arith, omega (arith, s.l3_to), refl, refl)

  -- A byte that is taken next in a tier is not one that was taken before.
  fresh-physical : (t : MemoryTier) (k p : ℕ) → k < r → Placed p m → next_physical t m + k ≢ p
  unfolding next_physical
  fresh-physical l1_gpu_local k p small h e =
      ground (arith, s.l1_from, s.l1_to, s.l2_from, s.l2_to, s.l3_from, s.l3_to)
  fresh-physical l2_prefetch k p small h e =
      ground (arith, s.l1_from, s.l1_to, s.l2_from, s.l2_to, s.l3_from, s.l3_to)
  fresh-physical l3_cxl_pool k p small h e =
      ground (arith, s.l1_from, s.l1_to, s.l2_from, s.l2_to, s.l3_from, s.l3_to)

  new-Placed :
      (t : MemoryTier) (k : ℕ) (n : MemoryManager)
      → Bumped t r m n
      → k < r
      → Placed (next_physical t m + k) n
  unfolding next_physical
  new-Placed l1_gpu_local k n b small = inl (omega (arith, s.l1_from), omega (arith, b.next_l1))
  new-Placed l2_prefetch k n b small =
      inr (inl (omega (arith, s.l2_from), omega (arith, b.next_l2)))
  new-Placed l3_cxl_pool k n b small =
      inr (inr (omega (arith, s.l3_from), omega (arith, b.next_l3)))

  old-Placed :
      (t : MemoryTier) (p : ℕ) (n : MemoryManager) → Bumped t r m n → Placed p m → Placed p n
  old-Placed t p n b (inl h) = inl (h.0, omega (arith, h.1, b.next_l1))
  old-Placed t p n b (inr (inl h)) = inr (inl (h.0, omega (arith, h.1, b.next_l2)))
  old-Placed t p n b (inr (inr h)) = inr (inr (h.0, omega (arith, h.1, b.next_l3)))

  physical_to : (t : MemoryTier) → next_physical t m + r ≤ u64_mod
  unfolding next_physical
  physical_to l1_gpu_local = omega (arith, s.l1_to)
  physical_to l2_prefetch = omega (arith, s.l2_to)
  physical_to l3_cxl_pool = omega (arith, s.l3_to)

-- Where an address stands after `r` bytes from `base` were mapped at the next virtual addresses.
abbrev Image : ℕ → ℕ → MemoryManager → MemoryManager → ℕ → Type 0
Image r base m n a =
    ((a < m.next_virtual_addr)
      × (translate_virtual_to_physical a n ≡ translate_virtual_to_physical a m))
    ⊎ (((m.next_virtual_addr ≤ a)
          × (a < m.next_virtual_addr + r)
          × (translate_virtual_to_physical a n ≡ base + (a - m.next_virtual_addr)))
        ⊎ ((m.next_virtual_addr + r ≤ a) × (translate_virtual_to_physical a n ≡ 0)))

module _ (room r : ℕ) (t : MemoryTier) (m n : MemoryManager) (s : IsSeparate (r + room) m)
    (b : Bumped t r m n) (image : (a : ℕ) → Image r (next_physical t m) m n a) where
  extended-Placed :
      (a : ℕ) → translate_virtual_to_physical a n ≢ 0 → Placed (translate_virtual_to_physical a n) n
  extended-Placed a mapped = elim (image a) [
    | inl h ↦ rw (h.1) (
        old-Placed (r + room) r m s (omega arith) t (translate_virtual_to_physical a m) n b
          (s.placed a (λ e. mapped (h.1 ∙ e))))
    | inr (inl h) ↦
        rw (h.2)
          (new-Placed (r + room) r m s (omega arith) t (a - m.next_virtual_addr) n b (omega arith))
    | inr (inr h) ↦ absurd (mapped (h.1))
  ]

  -- Two addresses, the first of which was mapped before.
  old-apart :
      (a c : ℕ)
      → translate_virtual_to_physical a m ≢ 0
      → translate_virtual_to_physical a m ≡ translate_virtual_to_physical c n
      → a ≡ c
  old-apart a c mapped e = elim (image c) [
    | inl h ↦ s.injective a c mapped (e ∙ h.1)
    | inr (inl h) ↦ absurd (
        fresh-physical (r + room) r m s (omega arith) t (c - m.next_virtual_addr)
          (translate_virtual_to_physical a m) (omega arith) (s.placed a mapped) (sym (e ∙ h.2)))
    | inr (inr h) ↦ absurd (mapped (e ∙ h.1))
  ]

  extended-injective :
      (a c : ℕ)
      → translate_virtual_to_physical a n ≢ 0
      → translate_virtual_to_physical a n ≡ translate_virtual_to_physical c n
      → a ≡ c
  extended-injective a c mapped e = elim (image a) [
    | inl h ↦ old-apart a c (λ z. mapped (h.1 ∙ z)) (sym (h.1) ∙ e)
    | inr (inr h) ↦ absurd (mapped (h.1))
    | inr (inl h) ↦ elim (image c) [
      | inl g ↦ sym (old-apart c a (λ z. mapped (e ∙ (g.1 ∙ z))) (sym (e ∙ g.1)))
      | inr (inr g) ↦ absurd (mapped (e ∙ g.1))
      | inr (inl g) ↦ omega (arith, h, g, e)
    ]
  ]

  extended-IsSeparate : (q : ℕ) → r ≡ q * m.page_size → IsSeparate room n
  extended-IsSeparate q whole =
      let l1_le = extra_le t l1_gpu_local r in
      let l2_le = extra_le t l2_prefetch r in
      let l3_le = extra_le t l3_cxl_pool r in
      record {
        positive = omega (arith, b.same_page_size, s.positive);
        page_number = s.page_number + q;
        aligned =
            rw (b.same_page_size, b.next, s.aligned, whole)
              (sym (add-mul s.page_number q m.page_size));
        free_lock = b.same_lock ∙ s.free_lock;
        fits = omega (arith, b.next, s.fits);
        l1_from = omega (arith, b.next_l1, s.l1_from);
        l1_to = omega (arith, b.next_l1, s.l1_to);
        l2_from = omega (arith, b.next_l2, s.l2_from);
        l2_to = omega (arith, b.next_l2, s.l2_to);
        l3_from = omega (arith, b.next_l3, s.l3_from);
        l3_to = omega (arith, b.next_l3, s.l3_to);
        unmapped = λ a lo. elim (image a) [
          | inl h ↦ absurd (omega (arith, h.0, b.next))
          | inr (inl h) ↦ absurd (omega (arith, h.1, b.next))
          | inr (inr h) ↦ h.1
        ];
        placed = extended-Placed;
        injective = extended-injective;
      }

-- The bytes that an allocation takes.
abbrev required : ℕ → MemoryManager → ℕ
required size m = mul64 (pages_for size m) m.page_size

module _ (now size layer room : ℕ) (t : MemoryTier) (m : MemoryManager) where
  allocate-Bumped :
      IsSeparate (required size m + room) m
      → Bumped (tier_for size t m) (required size m) m (allocate now size layer t m).0
  unfolding allocate
  allocate-Bumped s =
      let pointers =
        reserve-pointers (required size m + room) (required size m) m s (omega arith)
          (tier_for size t m) in
      record {
        same_page_size = pointers.4;
        same_lock = pointers.3;
        next = omega (arith, s.fits, s.l3_to, s.l3_from);
        next_l1 = pointers.0;
        next_l2 = pointers.1;
        next_l3 = pointers.2;
      }

  allocate-Image :
      (s : IsSeparate (size + m.page_size + room) m)
      → required size m ≡ pages_for size m * m.page_size
      → (a : ℕ)
      → Image (required size m) (physical_base size t m) m (allocate now size layer t m).0 a
  allocate-Image s whole a =
      let fits : m.next_virtual_addr + size + m.page_size ≤ u64_mod = omega (arith, s.fits) in
      let physical =
        physical_to (size + m.page_size + room) (size + m.page_size) m s (omega arith)
          (tier_for size t m) in
      elim (Bool-cases (ltb a m.next_virtual_addr)) [
        | inl lo ↦ inl (
          ground arith,
          translate-allocate_earlier now size layer t m a s.positive fits (ground arith),
        )
        | inr hi ↦
            let off = a - m.next_virtual_addr in
            let from : m.next_virtual_addr ≤ a = ground arith in
            let at : a ≡ m.next_virtual_addr + off = omega arith in
            elim (Bool-cases (ltb off (required size m))) [
              | inl inside ↦
                  let mapped =
                    translate-allocate_page now size layer t m s.page_number off s.positive
                      s.aligned fits (omega (arith, physical)) (ground (arith, whole)) in
                  inr (inl (from, ground arith, rw (sym at) at mapped))
              | inr outside ↦
                  let later =
                    translate-allocate_later now size layer t m s.page_number off s.positive
                      s.aligned fits (ground (arith, whole)) in
                  inr (inr (ground arith, rw (sym at) at later ∙ s.unmapped a from))
            ]
      ]

  -- An allocation keeps the invariant.
  pub allocate-IsSeparate :
      IsSeparate (size + m.page_size + room) m → IsSeparate room (allocate now size layer t m).0
  allocate-IsSeparate s =
      let small = pages_for_fits size m s.positive (omega (arith, s.fits, s.l3_from)) in
      let whole : required size m ≡ pages_for size m * m.page_size = omega (arith, s.fits, small) in
      let less =
        less-IsSeparate (size + m.page_size + room) (required size m + room) m (omega arith) s in
      extended-IsSeparate room (required size m) (tier_for size t m) m
        (allocate now size layer t m).0 less (allocate-Bumped less) (allocate-Image s whole)
        (pages_for size m) whole

  pub allocate-later :
      IsSeparate (size + m.page_size + room) m
      → ((allocate now size layer t m).0.page_size ≡ m.page_size)
        × (m.next_virtual_addr ≤ (allocate now size layer t m).0.next_virtual_addr)
  allocate-later s =
      let small = pages_for_fits size m s.positive (omega (arith, s.fits, s.l3_from)) in
      let bumped = allocate-Bumped (
        less-IsSeparate (size + m.page_size + room) (required size m + room) m
          (omega (arith, s.fits, small)) s) in
      (bumped.same_page_size, omega (arith, bumped.next))
