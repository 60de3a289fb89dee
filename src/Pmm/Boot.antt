-- ===== src/Pmm/Boot.antt =====
-- The page stack after `init_pmm` has run on the boot state over one memory region.
use mathlib.Core.List.{append-nil}
use bit_simple_kernel.Prelude.{
  ℕ, zero, suc, ◌+◌, ◌-◌, ◌*◌, ◌%◌, ◌^◌, ◌≤◌, ◌<◌, ◌≡◌, ◌∙◌, ap, ◌≢◌, u32, List, [], ◌∷◌, Returns,
  Returns-mono, arith, All, get_elem?, some,
}
use bit_simple_kernel.Pmm.{Pmm, MmapEntry, page_max_size, pmm_max_size, pmm_page_size, init_pmm}
use bit_simple_kernel.Pmm.Stack.{free_pages}
use bit_simple_kernel.Pmm.Init.{
  frames, frame_count, first_frame, entry_count, total_count, init_pmm-Initialised,
}

-- The zeroed static data.
abbrev pub boot_pmm : Pmm
boot_pmm = record { stack = λ _. 0; stack_top = 0; phy_page_count = 0 }

-- No page stands in the list twice.
abbrev pub Distinct : List ℕ → Type 0
Distinct [] = Unit
Distinct (x ∷ xs) = All (λ y. x ≢ y) xs × Distinct xs

-- A page that lies past the kernel image, starts in the region and is not past the limit.
abbrev pub IsUsable : ℕ → MmapEntry → ℕ → Type 0
IsUsable kern_size e q =
    (first_frame kern_size ≤ q) × (q < u32 (0x100000 + e.length_low)) × (q ≤ pmm_max_size)

frames-ne : (p n x : ℕ) → p + n * pmm_page_size ≤ x → All (λ q. x ≢ q) (frames p n)
frames-ne p zero x h = tt
frames-ne p (suc n) x h = (omega arith, frames-ne p n x (omega arith))

frames-Distinct : (p n : ℕ) → Distinct (frames p n)
frames-Distinct p zero = tt
frames-Distinct p (suc n) = (frames-ne p n _ (omega arith), frames-Distinct p n)

frames_in_range :
    (p end n : ℕ)
    → n ≤ frame_count p end
    → All (λ q. (p ≤ q) × (q < end) × (q ≤ pmm_max_size)) (frames p n)
frames_in_range p end zero h = tt
frames_in_range p end (suc n) h = (omega arith, frames_in_range p end n (omega arith))

region-IsUsable :
    (kern_size : ℕ) (e : MmapEntry)
    → All (IsUsable kern_size e) (frames (first_frame kern_size) (entry_count kern_size e))
region-IsUsable kern_size e =
    frames_in_range (first_frame kern_size) (u32 (0x100000 + e.length_low))
      (entry_count kern_size e) (ground arith)

pub entry_fits :
    (kern_size : ℕ) (e : MmapEntry) → 0 + total_count kern_size (e ∷ []) ≤ page_max_size
entry_fits kern_size e = ground arith

-- After `init_pmm` over one region no page is on the stack twice, and every page on it is past
-- the kernel image, starts inside the region and is not above `PMM_MAX_SIZE`.
pub init_pmm-Distinct :
    (kern_size : ℕ) (e : MmapEntry)
    → first_frame kern_size < 2 ^ 32
    → Returns
        (λ _ t. Distinct (free_pages t) × All (IsUsable kern_size e) (free_pages t))
        (init_pmm kern_size (e ∷ []) boot_pmm)
init_pmm-Distinct kern_size e fits =
    Returns-mono (init_pmm kern_size (e ∷ []) boot_pmm)
      (λ _ t h.
        let same : free_pages t ≡ frames (first_frame kern_size) (entry_count kern_size e) =
          h.0 ∙ append-nil _ in
        (rw same (frames-Distinct _ _), rw same (region-IsUsable kern_size e)))
      (init_pmm-Initialised kern_size (e ∷ []) boot_pmm fits (entry_fits kern_size e) (omega arith))

frames-head : (p n : ℕ) → 0 < n → get_elem? (frames p n) 0 ≡ some (p + (n - 1) * pmm_page_size)
frames-head p zero h = elim h [ ]
frames-head p (suc n) h = ap some (omega arith)

usable_count :
    (kern_size : ℕ) (e : MmapEntry)
    → e.kind ≡ 1
    → e.base_addr_low ≡ 0x100000
    → entry_count kern_size e ≡ frame_count (first_frame kern_size) (u32 (0x100000 + e.length_low))
usable_count kern_size e k b = ground arith

-- When the region reaches past `PMM_MAX_SIZE` and the kernel image is a whole number of pages, the
-- first page that will be given out is the one at `PMM_MAX_SIZE` itself, which lies outside the
-- memory that the kernel supports.
pub init_pmm-above_limit :
    (kern_size : ℕ) (e : MmapEntry)
    → e.kind ≡ 1
    → e.base_addr_low ≡ 0x100000
    → kern_size % pmm_page_size ≡ 0
    → first_frame kern_size ≤ pmm_max_size
    → pmm_max_size < 0x100000 + e.length_low
    → 0x100000 + e.length_low < 2 ^ 32
    → Returns
        (λ _ t. get_elem? (free_pages t) 0 ≡ some pmm_max_size)
        (init_pmm kern_size (e ∷ []) boot_pmm)
init_pmm-above_limit kern_size e k b whole low past small =
    Returns-mono (init_pmm kern_size (e ∷ []) boot_pmm)
      (λ _ t h. rw (h.0 ∙ append-nil _) (frames-head _ _ many ∙ ap some last))
      (init_pmm-Initialised kern_size (e ∷ []) boot_pmm (omega arith) (entry_fits kern_size e)
        (omega arith))
  where
    many : 0 < entry_count kern_size e
    many = omega (arith, usable_count kern_size e k b)

    last : first_frame kern_size + (entry_count kern_size e - 1) * pmm_page_size ≡ pmm_max_size
    last = omega (arith, usable_count kern_size e k b)
