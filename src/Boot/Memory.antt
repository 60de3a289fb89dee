-- ===== src/Boot/Memory.antt =====
-- The memory that `kern_init` of src/init/entry.c sets up: free pages, page tables and an empty heap
-- that fit together.
use mathlib.Core.List.{append-nil}
use bit_simple_kernel.Prelude.{
  true, false, some, ltb, ◌/◌, ℕ, zero, suc, ◌+◌, ◌-◌, ◌*◌, ◌%◌, ◌^◌, ◌≤◌, ◌<◌, ◌≡◌, ◌∙◌, ap, sym,
  refl, arith, ◌⊎◌, inl, inr, List, [], Returns, Returns-ok, zoom-ok, u32,
}
use bit_simple_kernel.Pmm.{Pmm, MmapEntry, init_pmm, pmm_max_size, page_max_size, pmm_page_size}
use bit_simple_kernel.Pmm.Stack.{free_pages, entries}
use bit_simple_kernel.Pmm.Init.{
  frames, frame_count, first_frame, entry_count, OneRegion, OneRegion-frames, init_pmm-Initialised,
}
use bit_simple_kernel.Pmm.Boot.{boot_pmm, entry_fits}
use bit_simple_kernel.Vmm.{page_size, get_mapping, Machine, page_offset, init_vmm, on_pmm}
use bit_simple_kernel.Vmm.Table.{IsFresh}
use bit_simple_kernel.Vmm.Map.{IsStocked}
use bit_simple_kernel.Vmm.Linear.{IsPlaced, init_vmm-get_mapping}
use bit_simple_kernel.Vmm.Directory.{IsEmpty, table-cases, booted-IsSpace}
use bit_simple_kernel.Heap.{Header, Heap, heap_start, init_heap}
use bit_simple_kernel.Heap.Blocks.{IsHeap}
use bit_simple_kernel.Heap.Backing.{IsBacked}
use bit_simple_kernel.Boot.{init_memory}

-- A stack that holds frames, lowest at the bottom.
entry-frames :
    (stack : ℕ → ℕ) (n p k : ℕ)
    → entries stack n ≡ frames p n
    → 0 < k
    → k ≤ n
    → stack k ≡ p + (k - 1) * pmm_page_size
entry-frames stack zero p k e pos h = absurd (omega arith)
entry-frames stack (suc n) p k e pos h =
    let top_is : stack (suc n) ≡ p + n * pmm_page_size = cc in
    let rest_is : entries stack n ≡ frames p n = cc in
    elim last_or_below [
      | inl top ↦ rw top (omega (arith, top_is))
      | inr below ↦ entry-frames stack n p k rest_is pos below
    ]
  where
    last_or_below : (k ≡ suc n) ⊎ (k ≤ n)
    last_or_below = omega (arith, h)

-- What the linker and the boot loader provide: where the directory and the tables are, inside the
-- kernel image, which is a whole number of pages; and zeroed static data.
pub record IsImage (pgd pte kern_size : ℕ) (m : ℕ → ℕ) : Type 0 where
  pub placed : IsPlaced pgd pte
  pub start : IsEmpty m pgd
  pub first_empty : m pte ≡ 0
  pub whole : kern_size % 2 ^ 12 ≡ 0
  pub low : first_frame kern_size ≤ pmm_max_size
  pub pgd_inside : pgd < page_offset + first_frame kern_size
  pub pte_inside : pte + 2 ^ 19 ≤ page_offset + first_frame kern_size

-- The state that `kern_init` starts from.
abbrev pub boot_heap : (ℕ → ℕ) → (ℕ → Header) → Heap
boot_heap m headers = record {
  machine = record { pmm = boot_pmm; mem = m };
  headers = headers;
  heap_max = heap_start;
  heap_first = 0;
}

module _ (pgd pte kern_size : ℕ) (e : MmapEntry) (m : ℕ → ℕ)
    (image : IsImage pgd pte kern_size m) where
  module _ (pmm : Pmm)
      (pages : free_pages pmm ≡ frames (first_frame kern_size) (entry_count kern_size e))
      (count : pmm.stack_top ≡ entry_count kern_size e) where
    abbrev loaded : Machine
    loaded = record { pmm = pmm; mem = m }

    abbrev ready : Machine
    ready = init_vmm pgd pte loaded

    frame_at :
        (k : ℕ)
        → 0 < k
        → k ≤ pmm.stack_top
        → pmm.stack k ≡ first_frame kern_size + (k - 1) * pmm_page_size
    frame_at k pos h =
        entry-frames pmm.stack pmm.stack_top (first_frame kern_size) k
          (pages ∙ ap (λ (n : ℕ). frames (first_frame kern_size) n) (sym count)) pos h

    few : pmm.stack_top ≤ page_max_size
    few = omega (arith, count, entry_fits kern_size e)

    frame_within : (k : ℕ) → 0 < k → k ≤ pmm.stack_top → pmm.stack k ≤ pmm_max_size
    frame_within k pos h =
        let counted : entry_count kern_size e
            ≤ frame_count (first_frame kern_size) (u32 (0x100000 + e.length_low)) =
          ground arith in
        omega (arith, frame_at k pos h, counted, count, pos, h)

    frame-IsFresh : (k : ℕ) → 0 < k → k ≤ pmm.stack_top → IsFresh ready.mem pgd (pmm.stack k)
    frame-IsFresh k pos h =
        let at = frame_at k pos h in
        let within = frame_within k pos h in
        record {
          aligned = omega (arith, at, image.whole);
          small = omega (arith, within);
          ne_zero = omega (arith, at);
          off_dir = λ f. omega (arith, f, at, within, image.pgd_inside);
          unused = λ i l f. elim (table-cases pgd pte image.placed loaded image.start i l) [
            | inl none ↦ omega (arith, sym none ∙ f, at)
            | inr t ↦
                omega (arith, sym t.2 ∙ f, t.0, t.1, at, image.pte_inside, image.placed.pte_above)
          ];
        }

    ready-IsStocked : IsStocked ready pgd
    unfolding init_vmm
    ready-IsStocked = record {
      space = booted-IsSpace pgd pte image.placed loaded image.start;
      linear_tables = λ i l. elim (table-cases pgd pte image.placed loaded image.start i l) [
        | inl none ↦ omega (arith, none)
        | inr t ↦ omega (arith, t.2, t.0, t.1, image.pte_inside, image.placed.pte_above, image.low)
      ];
      fresh = frame-IsFresh;
      distinct = λ j k pos lt h f.
          omega (arith, frame_at j pos (omega (arith, lt, h)), frame_at k (omega arith) h, f, lt);
    }

    ready-IsBacked : IsBacked pgd ready heap_start
    unfolding init_vmm
    ready-IsBacked = record {
      ready = ready-IsStocked;
      linear_pages = λ k pos h below. omega (
        arith,
        frame_at k pos h,
        frame_at pmm.stack_top (omega arith) (omega arith),
        frame_within pmm.stack_top (omega arith) (omega arith),
        below,
      );
      linear_frames = λ v h. absurd (omega (arith, h.above, h.below));
      whole = refl;
      above = omega arith;
      below = omega arith;
      present = λ v h. absurd (omega (arith, h.above, h.below));
      fresh = λ v h. absurd (omega (arith, h.above, h.below));
      distinct = λ v w h. absurd (omega (arith, h.above, h.below));
      off_stack = λ v k h. absurd (omega (arith, h.above, h.below));
      room = omega (arith, few);
    }

    ready-IsLinear :
        (x : ℕ)
        → page_size ≤ x
        → x < 2 ^ 29
        → get_mapping pgd (page_offset + x) true ready
          ≡ record { ret = some 1; pa = some (x / 2 ^ 12 * 2 ^ 12) }
    ready-IsLinear x low h =
        let later : ltb x page_size ≡ false = ground (arith, low) in
        init_vmm-get_mapping pgd pte image.placed loaded x h image.first_empty ∙ rw later refl

-- The physical memory below 512 MB is mapped from `PAGE_OFFSET` on, each page but the first to its
-- own frame.
abbrev pub IsLinear : ℕ → Machine → Type 0
IsLinear pgd s =
    (x : ℕ)
    → page_size ≤ x
    → x < 2 ^ 29
    → get_mapping pgd (page_offset + x) true s
      ≡ record { ret = some 1; pa = some (x / 2 ^ 12 * 2 ^ 12) }

-- What the first allocation finds: an empty heap at its start, whose conditions hold, and as many
-- free pages as the memory region has frames behind the kernel image.
pub record IsBooted (pgd kern_size : ℕ) (e : MmapEntry) (s : Heap) : Type 0 where
  pub heap : IsHeap s []
  pub backed : IsBacked pgd s.machine s.heap_max
  pub at_start : s.heap_max ≡ heap_start
  pub pages : s.machine.pmm.stack_top ≡ entry_count kern_size e
  pub counted : s.machine.pmm.phy_page_count ≡ entry_count kern_size e
  pub linear : IsLinear pgd s.machine

pub init_memory-IsBooted :
    (pgd pte kern_size : ℕ) (e : MmapEntry) (es : List MmapEntry) (m : ℕ → ℕ) (headers : ℕ → Header)
    → IsImage pgd pte kern_size m
    → OneRegion kern_size e es
    → Returns
        (λ _ t. IsBooted pgd kern_size e t)
        (init_memory pgd pte kern_size es (boot_heap m headers))
unfolding init_memory init_vmm init_heap
init_memory-IsBooted pgd pte kern_size e es m headers image one =
    let taken = OneRegion-frames kern_size e es [] one in
    let fill = Returns-ok (init_pmm kern_size es boot_pmm) (
      init_pmm-Initialised kern_size es boot_pmm (omega (arith, image.low))
        (omega (arith, entry_fits kern_size e, taken.1)) (omega arith)) in
    let pmm = fill.1 in
    let pages : free_pages pmm ≡ frames (first_frame kern_size) (entry_count kern_size e) =
      fill.3.0 ∙ taken.0 ∙ append-nil (frames (first_frame kern_size) (entry_count kern_size e)) in
    let count : pmm.stack_top ≡ entry_count kern_size e = omega (arith, fill.3.1, taken.1) in
    let s = boot_heap m headers in
    let run =
      zoom-ok (λ (h : Heap). h.machine) (λ k h. record h { machine = k })
        (on_pmm (init_pmm kern_size es)) s
        (zoom-ok (λ (k : Machine). k.pmm) (λ q k. record k { pmm = q }) (init_pmm kern_size es)
          s.machine fill.2) in
    rw run (record {
      heap = record { first = refl; chain = tt; inside = omega arith; max_small = omega arith };
      backed = ready-IsBacked pgd pte kern_size e m image pmm pages count;
      at_start = refl;
      pages = count;
      counted = omega (arith, fill.3.2, taken.1, entry_fits kern_size e);
      linear = ready-IsLinear pgd pte kern_size e m image pmm pages count;
    })
