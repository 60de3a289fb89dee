-- ===== src/Heap/Backing.antt =====
-- The pages behind the heap: which frame each page of it has, and how the heap grows.
use bit_simple_kernel.Prelude.{
  ℕ, zero, suc, ◌+◌, ◌-◌, ◌*◌, ◌/◌, ◌%◌, ◌^◌, ◌≤◌, ◌<◌, ◌≡◌, ◌≢◌, ◌∙◌, sym, ap, refl, ◌⊎◌, inl, inr,
  u32, arith, ok, and_then, zoom-ok, Returns, Returns-ok, Returns-mono, Returns-bind, ltb-cases,
  ltb, lt→ltb, false,
}
use native.Mathlib.Decide.{ℕ_discrete}
use bit_simple_kernel.Pmm.{page_max_size, pmm_alloc_page}
use bit_simple_kernel.Pmm.Stack.{popped, alloc_page-ok}
use bit_simple_kernel.Vmm.{Machine, linear_size, map, on_pmm}
use bit_simple_kernel.Vmm.Space.{entry_at}
use bit_simple_kernel.Vmm.Table.{IsFresh}
use bit_simple_kernel.Vmm.Map.{IsStocked, IsReady, Maps, map-Maps}
use bit_simple_kernel.Vmm.Ready.{keeps-IsFresh, stack_kept, top_falls, top-le, Maps-IsReady}
use bit_simple_kernel.Heap.{Heap, heap_start, add_page, alloc_chunk, on_machine}

-- A page of the heap that ends at `top`.
pub record IsHeapPage (top v : ℕ) : Type 0 where
  pub whole : v % 2 ^ 12 ≡ 0
  pub above : heap_start ≤ v
  pub below : v < top

abbrev pub frame : Machine → ℕ → ℕ → ℕ
frame m pgd v = entry_at m.mem pgd v / 2 ^ 12 * 2 ^ 12

-- Each page of the heap is present and writable in the page tables, and has a frame of its own,
-- which is neither a table nor a free page; and all of them would fit on the page stack.
-- A page at the end of the linear map, which the map does not reach, is used first, and for the first
-- page of the heap.
pub record IsBacked (pgd : ℕ) (m : Machine) (top : ℕ) : Type 0 where
  pub ready : IsStocked m pgd
  pub linear_pages :
      (k : ℕ)
      → 0 < k
      → k ≤ m.pmm.stack_top
      → (k < m.pmm.stack_top) ⊎ (heap_start < top)
      → m.pmm.stack k < linear_size
  pub linear_frames : (v : ℕ) → IsHeapPage top v → heap_start < v → frame m pgd v < linear_size
  pub whole : top % 2 ^ 12 ≡ 0
  pub above : heap_start ≤ top
  pub below : top < 2 ^ 32
  pub present : (v : ℕ) → IsHeapPage top v → entry_at m.mem pgd v % 4 ≡ 3
  pub fresh : (v : ℕ) → IsHeapPage top v → IsFresh m.mem pgd (frame m pgd v)
  pub distinct :
      (v w : ℕ) → IsHeapPage top v → IsHeapPage top w → v ≢ w → frame m pgd v ≢ frame m pgd w
  pub off_stack :
      (v k : ℕ) → IsHeapPage top v → 0 < k → k ≤ m.pmm.stack_top → frame m pgd v ≢ m.pmm.stack k
  pub room : m.pmm.stack_top + (top - heap_start) / 2 ^ 12 ≤ page_max_size

ready-IsStocked : {s : Machine} {pgd : ℕ} → IsReady s pgd → IsStocked s pgd
ready-IsStocked r = record {
  space = r.space;
  linear_tables = r.linear_tables;
  fresh = r.fresh;
  distinct = r.distinct;
}

-- The two steps of `add_page` on the machine: the page at the top of the stack is mapped at `top`.
module _ (pgd : ℕ) (m : Machine) (top : ℕ) (b : IsBacked pgd m top) (pages : 2 ≤ m.pmm.stack_top)
    (space : top + 2 ^ 12 < 2 ^ 32) where
  abbrev taken_page : ℕ
  taken_page = m.pmm.stack m.pmm.stack_top

  abbrev after_alloc : Machine
  after_alloc = record m { pmm = popped m.pmm }

  page-IsFresh : IsFresh m.mem pgd taken_page
  page-IsFresh = b.ready.fresh m.pmm.stack_top (omega arith) (omega arith)

  after_alloc-IsReady : IsReady after_alloc pgd
  after_alloc-IsReady = record {
    space = b.ready.space;
    linear_tables = b.ready.linear_tables;
    linear_pages = λ k pos h. b.linear_pages k pos (omega arith) (inl (omega arith));
    fresh = λ k pos h. b.ready.fresh k pos (omega arith);
    distinct = λ j k pos lt h. b.ready.distinct j k pos lt (omega arith);
  }

  module _ (t : Machine) (maps : Maps after_alloc pgd top taken_page 3 t) where
    -- The new page has the frame that was taken.
    new_frame : frame t pgd top ≡ taken_page
    new_frame = ap (λ (x : ℕ). x / 2 ^ 12 * 2 ^ 12) maps.here ∙ omega (arith, page-IsFresh.aligned)

    old_frame : (v : ℕ) → IsHeapPage top v → frame t pgd v ≡ frame m pgd v
    old_frame v h =
        ap (λ (x : ℕ). x / 2 ^ 12 * 2 ^ 12)
          (maps.others v (omega (arith, h.below, b.below))
            (λ e. omega (arith, h.below, h.whole, b.whole)))

    page-cases : (v : ℕ) → IsHeapPage (top + 2 ^ 12) v → (v ≡ top) ⊎ IsHeapPage top v
    page-cases v h = elim (ℕ_discrete v top) [
      | yes e ↦ inl e
      | no ne ↦ inr (record {
        whole = h.whole;
        above = h.above;
        below = omega (arith, h.below, h.whole, b.whole);
      })
    ]

    grown-present : (v : ℕ) → IsHeapPage (top + 2 ^ 12) v → entry_at t.mem pgd v % 4 ≡ 3
    grown-present v h = elim (page-cases v h) [
      | inl e ↦ rw e (omega (arith, maps.here, page-IsFresh.aligned))
      | inr old ↦
          let kept =
            maps.others v (omega (arith, old.below, b.below))
              (λ e. omega (arith, old.below, old.whole, b.whole)) in
          rw kept (b.present v old)
    ]

    grown-linear :
        (v : ℕ) → IsHeapPage (top + 2 ^ 12) v → heap_start < v → frame t pgd v < linear_size
    grown-linear v h later = elim (page-cases v h) [
      | inl e ↦
          let grown : heap_start < top = omega (arith, e, later) in
          rw (e, new_frame) (b.linear_pages m.pmm.stack_top (omega arith) (omega arith) (inr grown))
      | inr old ↦ rw (old_frame v old) (b.linear_frames v old later)
    ]

    grown-IsFresh : (v : ℕ) → IsHeapPage (top + 2 ^ 12) v → IsFresh t.mem pgd (frame t pgd v)
    grown-IsFresh v h = elim (page-cases v h) [
      | inl e ↦
          rw (e, new_frame)
            (keeps-IsFresh after_alloc pgd top taken_page 3 t after_alloc-IsReady maps taken_page
              page-IsFresh
              (λ pos.
                b.ready.distinct (m.pmm.stack_top - 1) m.pmm.stack_top (omega arith) (omega arith)
                  (omega arith)))
      | inr old ↦ rw (old_frame v old) (
          keeps-IsFresh after_alloc pgd top taken_page 3 t after_alloc-IsReady maps _
            (b.fresh v old)
            (λ pos e. b.off_stack v (m.pmm.stack_top - 1) old (omega arith) (omega arith) (sym e)))
    ]

    same_stack : t.pmm.stack ≡ m.pmm.stack
    same_stack = stack_kept after_alloc pgd top taken_page 3 t after_alloc-IsReady maps

    fewer : t.pmm.stack_top ≤ m.pmm.stack_top - 1
    fewer = top_falls after_alloc pgd top taken_page 3 t after_alloc-IsReady maps

    taken-ne-old : (v : ℕ) → IsHeapPage top v → frame m pgd v ≢ taken_page
    taken-ne-old v old = b.off_stack v m.pmm.stack_top old (omega arith) (omega arith)

    grown-distinct :
        (v w : ℕ)
        → IsHeapPage (top + 2 ^ 12) v
        → IsHeapPage (top + 2 ^ 12) w
        → v ≢ w
        → frame t pgd v ≢ frame t pgd w
    grown-distinct v w h k ne = elim (page-cases v h) [
      | inl e ↦ elim (page-cases w k) [
        | inl f ↦ absurd (ne (e ∙ sym f))
        | inr old ↦ rw (e, new_frame, old_frame w old) (λ q. taken-ne-old w old (sym q))
      ]
      | inr old ↦ elim (page-cases w k) [
        | inl f ↦ rw (f, new_frame, old_frame v old) (taken-ne-old v old)
        | inr old' ↦ rw (old_frame v old, old_frame w old') (b.distinct v w old old' ne)
      ]
    ]

    grown-off_stack :
        (v k : ℕ)
        → IsHeapPage (top + 2 ^ 12) v
        → 0 < k
        → k ≤ t.pmm.stack_top
        → frame t pgd v ≢ t.pmm.stack k
    grown-off_stack v k h pos l = rw same_stack (elim (page-cases v h) [
      | inl e ↦
          rw (e, new_frame)
            (λ q.
              b.ready.distinct k m.pmm.stack_top pos (omega (arith, fewer)) (omega arith) (sym q))
      | inr old ↦ rw (old_frame v old) (b.off_stack v k old pos (omega (arith, fewer)))
    ])

    pub grown-IsBacked : IsBacked pgd t (top + 2 ^ 12)
    grown-IsBacked = record {
      ready =
          ready-IsStocked
            (Maps-IsReady after_alloc pgd top taken_page 3 t after_alloc-IsReady maps);
      linear_pages = λ k pos h _.
          rw same_stack
            (b.linear_pages k pos (omega (arith, h, fewer)) (inl (omega (arith, h, fewer))));
      linear_frames = grown-linear;
      whole = omega (arith, b.whole);
      above = omega (arith, b.above);
      below = space;
      present = grown-present;
      fresh = grown-IsFresh;
      distinct = grown-distinct;
      off_stack = grown-off_stack;
      room = omega (arith, fewer, b.room, b.above, b.whole);
    }

    pub grown-pages : m.pmm.stack_top ≤ t.pmm.stack_top + 2
    grown-pages = omega (arith, top-le after_alloc pgd top taken_page 3 t after_alloc-IsReady maps)

  pub map-taken :
      Returns
        (λ _ t. Maps after_alloc pgd top taken_page 3 t)
        (map pgd top taken_page 3 after_alloc)
  map-taken =
      map-Maps pgd top taken_page 3 b.below page-IsFresh.small (omega arith) after_alloc
        after_alloc-IsReady (inr (omega arith))

-- What a growing step leaves of the heap.
pub record Grows (pgd : ℕ) (s : Heap) (t : Heap) : Type 0 where
  pub headers : t.headers ≡ s.headers
  pub first : t.heap_first ≡ s.heap_first
  pub max : t.heap_max ≡ s.heap_max + 2 ^ 12
  pub backed : IsBacked pgd t.machine (s.heap_max + 2 ^ 12)
  pub pages : s.machine.pmm.stack_top ≤ t.machine.pmm.stack_top + 2

-- With two free pages and room in the address space a page is added.
pub add_page-Grows :
    (pgd : ℕ) (s : Heap)
    → IsBacked pgd s.machine s.heap_max
    → 2 ≤ s.machine.pmm.stack_top
    → s.heap_max + 2 ^ 12 < 2 ^ 32
    → Returns (λ _ t. Grows pgd s t) (add_page pgd s)
unfolding add_page
add_page-Grows pgd s b pages space = rw alloc (
    rw (mapped.2, and_then)
      (record {
        headers = refl;
        first = refl;
        max = omega arith;
        backed = grown-IsBacked pgd m s.heap_max b pages space mapped.1 mapped.3;
        pages = grown-pages pgd m s.heap_max b pages space mapped.1 mapped.3;
      }))
  where
    m : Machine
    m = s.machine

    m₁ : Machine
    m₁ = record m { pmm = popped m.pmm }

    alloc :
        on_machine (on_pmm pmm_alloc_page) s
        ≡ ok (m.pmm.stack m.pmm.stack_top) (record s { machine = m₁ })
    alloc =
        zoom-ok (λ h. h.machine) (λ k h. record h { machine = k }) (on_pmm pmm_alloc_page) s
          (zoom-ok (λ k. k.pmm) (λ q k. record k { pmm = q }) pmm_alloc_page m
            (alloc_page-ok m.pmm (omega arith)))

    mapped :
        (u : Unit {0}) × (t : Machine) × (map pgd s.heap_max (m.pmm.stack m.pmm.stack_top) 3 m₁
          ≡ ok u t)
        × Maps m₁ pgd s.heap_max (m.pmm.stack m.pmm.stack_top) 3 t
    mapped = Returns-ok _ (map-taken pgd m s.heap_max b pages space)

-- What `alloc_chunk` leaves: the lists of chunks as they were, and the pages up to `goal`.
pub record Covers (pgd : ℕ) (s : Heap) (goal : ℕ) (t : Heap) : Type 0 where
  pub headers : t.headers ≡ s.headers
  pub first : t.heap_first ≡ s.heap_first
  pub covers : goal ≤ t.heap_max
  pub grows : s.heap_max ≤ t.heap_max
  pub tight : (t.heap_max ≡ s.heap_max) ⊎ (t.heap_max < goal + 2 ^ 12)
  pub spent :
      s.machine.pmm.stack_top + 2 * (s.heap_max / 2 ^ 12)
      ≤ t.machine.pmm.stack_top + 2 * (t.heap_max / 2 ^ 12)
  pub backed : IsBacked pgd t.machine t.heap_max

abbrev pub pages_for : ℕ → ℕ → ℕ
pages_for top goal = (goal + 0xfff - top) / 2 ^ 12

-- `alloc_chunk` returns, and the chunk is mapped, if there are two free pages for each page that is
-- missing and the chunk ends in the address space.
pub alloc_chunk-Covers :
    (pgd fuel start len : ℕ) (s : Heap)
    → pages_for s.heap_max (start + len) < fuel
    → IsBacked pgd s.machine s.heap_max
    → 2 * pages_for s.heap_max (start + len) ≤ s.machine.pmm.stack_top
    → start + len ≤ 2 ^ 32 - 2 ^ 12
    → Returns (λ _ t. Covers pgd s (start + len) t) (alloc_chunk pgd fuel start len s)
unfolding alloc_chunk
alloc_chunk-Covers pgd zero start len s f b pages space = absurd (omega arith)
alloc_chunk-Covers pgd (suc fuel) start len s f b pages space =
    let sum : u32 (start + len) ≡ start + len = omega arith in
    rw sum (elim (ltb-cases s.heap_max (start + len)) [
      | inl more ↦ rw (lt→ltb s.heap_max (start + len) more) (
          Returns-bind (λ _ t. Covers pgd s (start + len) t) (add_page pgd s) _
            (λ _ t g.
              Returns-mono (alloc_chunk pgd fuel start len t)
                (λ _ u c. record {
                  headers = c.headers ∙ g.headers;
                  first = c.first ∙ g.first;
                  covers = c.covers;
                  grows = omega (arith, c.grows, g.max);
                  tight = omega (arith, c.tight, g.max, more);
                  spent = omega (arith, c.spent, g.max, g.pages);
                  backed = c.backed;
                })
                (alloc_chunk-Covers pgd fuel start len t (omega (arith, g.max)) (rw g.max g.backed)
                  (omega (arith, g.max, g.pages)) space))
            (add_page-Grows pgd s b (omega arith) (omega (arith, b.whole))))
      | inr enough ↦
          let no_more : ltb s.heap_max (start + len) ≡ false = ground arith in
          rw no_more (record {
            headers = refl;
            first = refl;
            covers = enough;
            grows = omega arith;
            tight = inl refl;
            spent = omega arith;
            backed = b;
          })
    ])
