-- ===== src/Pmm/Init.antt =====
-- Which pages `init_pmm` puts on the stack.
use Prim.Native.Nat.{min}
use bit_simple_kernel.Prelude.{
  ℕ, zero, suc, ◌+◌, ◌-◌, ◌*◌, ◌/◌, ◌^◌, ◌≤◌, ◌<◌, ◌≡◌, ◌∙◌, refl, ap, ap₂, ◌≢◌, inl, inr, ◌==◌,
  ◌&&◌, Bool-cases, u32, if◌then◌else◌, List, [], ◌∷◌, ◌++◌, ◌⊎◌, All, Returns, Returns-mono,
  Returns-bind, arith,
}
use bit_simple_kernel.Pmm.{
  Pmm, MmapEntry, page_max_size, pmm_max_size, pmm_page_size, add_pages_fuel, count_page, add_pages,
  add_entry, init_pmm,
}
use bit_simple_kernel.Pmm.Stack.{free_pages, pushed, free_page-ok, entries-push}

-- The `n` frames from `p` on, highest first.
abbrev pub frames : ℕ → ℕ → List ℕ
frames p zero = []
frames p (suc n) = (p + n * pmm_page_size) ∷ frames p n

-- How many frames start at or after `p`, below `end` and at or below `PMM_MAX_SIZE`.
abbrev pub frame_count : ℕ → ℕ → ℕ
frame_count p end = (min end (pmm_max_size + 1) + 0xfff - p) / pmm_page_size

-- What the loop leaves: the frames on top of the earlier pages, each of them counted.
abbrev pub Added : ℕ → ℕ → Pmm → Unit {0} → Pmm → Type 0
Added p n s _ t =
    (free_pages t ≡ frames p n ++ free_pages s)
    × (t.stack_top ≡ s.stack_top + n)
    × (t.phy_page_count ≡ u32 (s.phy_page_count + n))

frames-front :
    (p n : ℕ) (l : List ℕ) → frames (p + pmm_page_size) n ++ (p ∷ l) ≡ frames p (suc n) ++ l
frames-front p zero l = ap (λ (k : ℕ). k ∷ l) (omega arith)
frames-front p (suc n) l = ap₂ ◌∷◌ (omega arith) (frames-front p n l)

abbrev counted : ℕ → Pmm → Pmm
counted p s = record (pushed p s) { phy_page_count = u32 (s.phy_page_count + 1) }

add_pages-more :
    (fuel p end : ℕ) (s : Pmm)
    → p < end
    → p ≤ pmm_max_size
    → s.stack_top ≢ page_max_size
    → add_pages (suc fuel) p end s ≡ add_pages fuel (p + pmm_page_size) end (counted p s)
unfolding add_pages count_page
add_pages-more fuel p end s h k ne =
    let e : u32 (p + pmm_page_size) ≡ p + pmm_page_size = omega arith in
    rw (free_page-ok p s ne, e) (ground arith)

Added-cons :
    (p n : ℕ) (s t : Pmm) → Added (p + pmm_page_size) n (counted p s) tt t → Added p (suc n) s tt t
Added-cons p n s t h = (
  h.0
      ∙ ap (λ l. frames (p + pmm_page_size) n ++ l) (entries-push s.stack s.stack_top p)
      ∙ frames-front p n (free_pages s),
  omega (arith, h.1),
  omega (arith, h.2),
)

add_pages-Added :
    (fuel p end n : ℕ) (s : Pmm)
    → n ≡ frame_count p end
    → n < fuel
    → s.stack_top + n ≤ page_max_size
    → s.phy_page_count < 2 ^ 32
    → Returns (Added p n s) (add_pages fuel p end s)
add_pages-Added zero p end n s e f room c = absurd (omega arith)
add_pages-Added (suc fuel) p end zero s e f room c = unfold add_pages in ground arith
add_pages-Added (suc fuel) p end (suc n) s e f room c =
    rw (add_pages-more fuel p end s (omega arith) (omega arith) (omega arith)) (
      Returns-mono (add_pages fuel (p + pmm_page_size) end (counted p s))
        (λ _ t. Added-cons p n s t)
        (add_pages-Added fuel (p + pmm_page_size) end n (counted p s) (omega arith) (omega arith)
          (omega arith) (omega arith)))

-- The frames that an entry stands for; the kernel image lies at their start.
abbrev pub first_frame : ℕ → ℕ
first_frame kern_size = 0x100000 + kern_size

abbrev pub entry_count : ℕ → MmapEntry → ℕ
entry_count kern_size e =
    if e.kind == 1 && (e.base_addr_low == 0x100000)
    then frame_count (first_frame kern_size) (u32 (0x100000 + e.length_low))
    else 0

abbrev pub total_count : ℕ → List MmapEntry → ℕ
total_count kern_size [] = 0
total_count kern_size (e ∷ es) = entry_count kern_size e + total_count kern_size es

abbrev pub init_frames : ℕ → List MmapEntry → List ℕ → List ℕ
init_frames kern_size [] l = l
init_frames kern_size (e ∷ es) l =
    init_frames kern_size es (frames (first_frame kern_size) (entry_count kern_size e) ++ l)

add_usable :
    (kern_size end n : ℕ) (s : Pmm)
    → n ≡ frame_count (first_frame kern_size) (u32 end)
    → s.stack_top + n ≤ page_max_size
    → s.phy_page_count < 2 ^ 32
    → Returns
        (Added (first_frame kern_size) n s)
        (add_pages add_pages_fuel (first_frame kern_size) (u32 end) s)
add_usable kern_size end n s e room c =
    add_pages-Added add_pages_fuel (first_frame kern_size) (u32 end) n s e (omega arith) room c

add_entry-Added :
    (kern_size : ℕ) (e : MmapEntry) (s : Pmm)
    → first_frame kern_size < 2 ^ 32
    → s.stack_top + entry_count kern_size e ≤ page_max_size
    → s.phy_page_count < 2 ^ 32
    → Returns (Added (first_frame kern_size) (entry_count kern_size e) s) (add_entry kern_size e s)
unfolding add_entry
add_entry-Added kern_size e s fits room c =
    elim (Bool-cases (e.kind == 1 && (e.base_addr_low == 0x100000))) [
      | inl use_it ↦
          let base : e.base_addr_low ≡ 0x100000 = ground arith in
          let first : u32 (e.base_addr_low + kern_size) ≡ first_frame kern_size = omega arith in
          rw (use_it, first, base)
            (add_usable kern_size (0x100000 + e.length_low) _ s refl (rw use_it at room) c)
      | inr skip ↦ rw skip (refl, omega arith, omega arith)
    ]

-- What `init_pmm` leaves of a list of entries.
abbrev pub Initialised : ℕ → List MmapEntry → Pmm → Unit {0} → Pmm → Type 0
Initialised kern_size es s _ t =
    (free_pages t ≡ init_frames kern_size es (free_pages s))
    × (t.stack_top ≡ s.stack_top + total_count kern_size es)
    × (t.phy_page_count ≡ u32 (s.phy_page_count + total_count kern_size es))

-- `init_pmm` ends without a panic if the frames of the usable entries fit the stack. It then has
-- pushed, entry by entry, the frames from the end of the kernel image on that start below the end
-- of the entry and not above `PMM_MAX_SIZE`, and has counted each of them.
pub init_pmm-Initialised :
    (kern_size : ℕ) (es : List MmapEntry) (s : Pmm)
    → first_frame kern_size < 2 ^ 32
    → s.stack_top + total_count kern_size es ≤ page_max_size
    → s.phy_page_count < 2 ^ 32
    → Returns (Initialised kern_size es s) (init_pmm kern_size es s)
unfolding init_pmm
init_pmm-Initialised kern_size [] s fits room c = (refl, omega arith, omega arith)
init_pmm-Initialised kern_size (e ∷ es) s fits room c =
    Returns-bind (Initialised kern_size (e ∷ es) s) (add_entry kern_size e s) _
      (λ _ t a.
        Returns-mono (init_pmm kern_size es t)
          (λ _ u h. (
            h.0 ∙ ap (init_frames kern_size es) a.0,
            omega (arith, a.1, h.1),
            omega (arith, a.2, h.2),
          ))
          (init_pmm-Initialised kern_size es t fits (omega (arith, a.1)) (omega (arith, a.2))))
      (add_entry-Added kern_size e s fits (omega arith) c)

-- Nothing of the entry is taken.
abbrev pub IsSkipped : ℕ → MmapEntry → Type 0
IsSkipped kern_size e = entry_count kern_size e ≡ 0

-- `e` is the only entry of the map of which something may be taken.
abbrev pub OneRegion : ℕ → MmapEntry → List MmapEntry → Type 0
OneRegion kern_size e [] = ⊥
OneRegion kern_size e (a ∷ es) =
    ((a ≡ e) × All (IsSkipped kern_size) es) ⊎ (IsSkipped kern_size a × OneRegion kern_size e es)

skipped-frames :
    (kern_size : ℕ) (es : List MmapEntry) (l : List ℕ)
    → All (IsSkipped kern_size) es
    → (init_frames kern_size es l ≡ l) × (total_count kern_size es ≡ 0)
skipped-frames kern_size [] l all = (refl, refl)
skipped-frames kern_size (e ∷ es) l all =
    let rest = skipped-frames kern_size es l all.1 in rw all.0 (rest.0, omega (arith, rest.1))

pub OneRegion-frames :
    (kern_size : ℕ) (e : MmapEntry) (es : List MmapEntry) (l : List ℕ)
    → OneRegion kern_size e es
    → (init_frames kern_size es l ≡ frames (first_frame kern_size) (entry_count kern_size e) ++ l)
      × (total_count kern_size es ≡ entry_count kern_size e)
OneRegion-frames kern_size e [] l h = absurd h
OneRegion-frames kern_size e (a ∷ es) l (inl (same, all)) =
    let rest =
      skipped-frames kern_size es (frames (first_frame kern_size) (entry_count kern_size e) ++ l)
        all in
    rw same (rest.0, omega (arith, rest.1))
OneRegion-frames kern_size e (a ∷ es) l (inr (skip, h)) =
    let rest = OneRegion-frames kern_size e es l h in rw skip (rest.0, omega (arith, rest.1))
