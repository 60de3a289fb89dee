-- ===== src/Heap/Shrink.antt =====
-- How the heap gives pages back: the loop of `free_chunk`.
use bit_simple_kernel.Prelude.{
  ℕ, zero, suc, ◌+◌, ◌-◌, ◌*◌, ◌/◌, ◌^◌, ◌≤◌, ◌<◌, ◌≡◌, ◌≢◌, ◌∙◌, sym, ap, refl, ◌⊎◌, inl, inr,
  ◌==◌, sub32, arith, ok, zoom-ok, Returns, Returns-mono, ltb-cases, some, true, leb, false,
  write_self, write_ne,
}
use native.Mathlib.Decide.{ℕ_discrete}
use bit_simple_kernel.Pmm.{pmm_free_page}
use bit_simple_kernel.Pmm.Stack.{pushed, free_page-ok}
use bit_simple_kernel.Vmm.{Machine, get_mapping, on_pmm, pgd_index, table_of, store}
use bit_simple_kernel.Vmm.Space.{
  entry_at, entry_address, stored-table, stored_other, stored-IsSpace,
}
use bit_simple_kernel.Vmm.Table.{IsFresh}
use bit_simple_kernel.Vmm.Map.{IsStocked}
use bit_simple_kernel.Vmm.Lookup.{get_mapping-pa, unmap-store}
use bit_simple_kernel.Heap.{Heap, heap_start, give_back, drop_page, drop_pages}
use bit_simple_kernel.Heap.Backing.{IsHeapPage, IsBacked, frame}

-- The last page of the heap is unmapped, and its frame goes to the page stack.
module _ (pgd : ℕ) (m : Machine) (top : ℕ) (b : IsBacked pgd m top)
    (some_page : heap_start < top) where
  abbrev last : ℕ
  last = top - 2 ^ 12

  last-IsHeapPage : IsHeapPage top last
  last-IsHeapPage = record {
    whole = omega (arith, b.whole);
    above = omega (arith, b.whole);
    below = omega arith;
  }

  last_small : last < 2 ^ 32
  last_small = omega (arith, b.below)

  abbrev freed : ℕ
  freed = frame m pgd last

  freed-IsFresh : IsFresh m.mem pgd freed
  freed-IsFresh = b.fresh last last-IsHeapPage

  has_entry : entry_at m.mem pgd last ≢ 0
  has_entry e = freed-IsFresh.ne_zero (ap (λ (x : ℕ). x / 2 ^ 12 * 2 ^ 12) e)

  has_table : table_of m.mem pgd (pgd_index last) ≢ 0
  has_table e = has_entry (ground arith)

  abbrev after_unmap : Machine
  after_unmap = store (entry_address m.mem pgd last) 0 m

  abbrev after_free : Machine
  after_free = record after_unmap { pmm = pushed freed m.pmm }

  earlier-IsHeapPage : (v : ℕ) → IsHeapPage last v → IsHeapPage top v
  earlier-IsHeapPage v h = record {
    whole = h.whole;
    above = h.above;
    below = omega (arith, h.below);
  }

  earlier-entry : (v : ℕ) → IsHeapPage last v → entry_at after_free.mem pgd v ≡ entry_at m.mem pgd v
  earlier-entry v h =
      stored_other m.mem pgd b.ready.space last last_small has_table 0 v
        (omega (arith, h.below, b.below)) (λ e. omega (arith, h.below, h.whole, b.whole))

  earlier-frame : (v : ℕ) → IsHeapPage last v → frame after_free pgd v ≡ frame m pgd v
  earlier-frame v h = ap (λ (x : ℕ). x / 2 ^ 12 * 2 ^ 12) (earlier-entry v h)

  kept-IsFresh : (q : ℕ) → IsFresh m.mem pgd q → IsFresh after_free.mem pgd q
  kept-IsFresh q f = record {
    aligned = f.aligned;
    small = f.small;
    ne_zero = f.ne_zero;
    off_dir = f.off_dir;
    unused = λ i h.
        rw (stored-table m.mem pgd b.ready.space last last_small has_table 0 i h) (f.unused i h);
  }

  -- An entry of the page stack is one from before, or the new one.
  stack-cases :
      (k : ℕ)
      → k ≤ after_free.pmm.stack_top
      → ((k ≤ m.pmm.stack_top) × (after_free.pmm.stack k ≡ m.pmm.stack k))
        ⊎ ((k ≡ suc m.pmm.stack_top) × (after_free.pmm.stack k ≡ freed))
  stack-cases k h = elim (ℕ_discrete k (suc m.pmm.stack_top)) [
    | yes e ↦ inr (e, rw e (write_self m.pmm.stack (suc m.pmm.stack_top) freed))
    | no ne ↦ inl (omega (arith, h, ne), write_ne m.pmm.stack (suc m.pmm.stack_top) freed k ne)
  ]

  shrunk-IsStocked : IsStocked after_free pgd
  shrunk-IsStocked = record {
    linear_tables = λ i h.
        rw (stored-table m.mem pgd b.ready.space last last_small has_table 0 i h)
          (b.ready.linear_tables i h);
    space = stored-IsSpace m.mem pgd b.ready.space last last_small has_table 0 (omega arith);
    fresh = λ k pos h. elim (stack-cases k h) [
      | inl old ↦ rw old.1 (kept-IsFresh (m.pmm.stack k) (b.ready.fresh k pos old.0))
      | inr new ↦ rw new.1 (kept-IsFresh freed freed-IsFresh)
    ];
    distinct = λ j k pos lt h. elim (stack-cases j (omega (arith, h, lt))) [
      | inl old ↦ elim (stack-cases k h) [
        | inl old' ↦ rw (old.1, old'.1) (b.ready.distinct j k pos lt old'.0)
        | inr new ↦ rw (old.1, new.1) (λ e. b.off_stack last j last-IsHeapPage pos old.0 (sym e))
      ]
      | inr new ↦ absurd (omega (arith, h, lt, new.0))
    ];
  }

  shrunk-IsBacked : IsBacked pgd after_free last
  shrunk-IsBacked = record {
    ready = shrunk-IsStocked;
    linear_pages = λ k pos h some_below. elim (stack-cases k h) [
      | inl old ↦ rw old.1 (b.linear_pages k pos old.0 (inr some_page))
      | inr new ↦
          let later : heap_start < last = omega (arith, some_below, new.0) in
          rw new.1 (b.linear_frames last last-IsHeapPage later)
    ];
    linear_frames =
        λ v h later. rw (earlier-frame v h) (b.linear_frames v (earlier-IsHeapPage v h) later);
    whole = omega (arith, b.whole);
    above = omega (arith, b.whole);
    below = last_small;
    present = λ v h. rw (earlier-entry v h) (b.present v (earlier-IsHeapPage v h));
    fresh = λ v h.
        rw (earlier-frame v h) (kept-IsFresh (frame m pgd v) (b.fresh v (earlier-IsHeapPage v h)));
    distinct = λ v w h k ne.
        rw (earlier-frame v h, earlier-frame w k)
          (b.distinct v w (earlier-IsHeapPage v h) (earlier-IsHeapPage w k) ne);
    off_stack = λ v k h pos l. elim (stack-cases k l) [
      | inl old ↦ rw (earlier-frame v h, old.1) (b.off_stack v k (earlier-IsHeapPage v h) pos old.0)
      | inr new ↦
          rw (earlier-frame v h, new.1)
            (b.distinct v last (earlier-IsHeapPage v h) last-IsHeapPage
              (λ e. omega (arith, e, h.below)))
    ];
    room = omega (arith, b.room, b.whole, some_page);
  }

-- What the loop leaves of the heap: the lists of chunks as they were, and the pages up to an end
-- that is not above the old one, and not above `chunk` by a page; as many pages as are gone are
-- free again.
pub record Shrinks (pgd : ℕ) (s : Heap) (chunk : ℕ) (t : Heap) : Type 0 where
  pub headers : t.headers ≡ s.headers
  pub first : t.heap_first ≡ s.heap_first
  pub falls : t.heap_max ≤ s.heap_max
  pub tight : t.heap_max < chunk + 2 ^ 12
  pub enough : chunk ≤ t.heap_max
  pub balance :
      t.machine.pmm.stack_top + t.heap_max / 2 ^ 12 ≡ s.machine.pmm.stack_top + s.heap_max / 2 ^ 12
  pub backed : IsBacked pgd t.machine t.heap_max

drop_page-ok :
    (pgd : ℕ) (s : Heap) (b : IsBacked pgd s.machine s.heap_max)
    (some_page : heap_start < s.heap_max)
    → drop_page pgd s
      ≡ ok tt (record s {
        machine = after_free pgd s.machine s.heap_max b some_page;
        heap_max = last pgd s.machine s.heap_max b some_page;
      })
unfolding drop_page give_back
drop_page-ok pgd s b some_page =
    let m = s.machine in
    let top = s.heap_max in
    let end : sub32 top 4096 ≡ last pgd m top b some_page = omega (arith, b.below, b.whole) in
    let entry : (entry_at m.mem pgd (top - 4096) == 0) ≡ false =
      ground (arith, has_entry pgd m top b some_page) in
    let found : (get_mapping pgd (top - 4096) true m).pa ≡ some (freed pgd m top b some_page) =
      get_mapping-pa pgd (top - 4096) m b.ready.space ∙ rw entry refl in
    let cleared = unmap-store pgd (top - 4096) m (has_table pgd m top b some_page) in
    let free =
      zoom-ok (λ (k : Machine). k.pmm) (λ q k. record k { pmm = q })
        (pmm_free_page (freed pgd m top b some_page)) (after_unmap pgd m top b some_page)
        (free_page-ok (freed pgd m top b some_page) m.pmm
          (λ e. omega (arith, e, b.room, b.whole, some_page))) in
    let s₁ : Heap = record s {
      machine = after_unmap pgd m top b some_page;
      heap_max = top - 4096;
    } in
    rw (end, found, cleared)
      (zoom-ok (λ (h : Heap). h.machine) (λ k h. record h { machine = k })
        (on_pmm (pmm_free_page (freed pgd m top b some_page))) s₁ free)

-- The loop of `free_chunk` returns, and gives back all pages from the start of the chunk on, up to
-- the one in which the chunk starts.
pub drop_pages-Shrinks :
    (pgd fuel chunk : ℕ) (s : Heap)
    → (s.heap_max - chunk) / 2 ^ 12 < fuel
    → heap_start ≤ chunk
    → chunk ≤ s.heap_max
    → IsBacked pgd s.machine s.heap_max
    → Returns (λ _ t. Shrinks pgd s chunk t) (drop_pages pgd fuel chunk s)
unfolding drop_pages
drop_pages-Shrinks pgd zero chunk s f low high b = absurd (omega arith)
drop_pages-Shrinks pgd (suc fuel) chunk s f low high b =
    let end : sub32 s.heap_max 4096 ≡ s.heap_max - 4096 = omega (arith, b.below, low, high) in
    elim (ltb-cases s.heap_max (chunk + 2 ^ 12)) [
      | inl enough ↦
          let stop : leb chunk (sub32 s.heap_max 4096) ≡ false = ground (arith, end, enough, low) in
          rw stop (record {
            headers = refl;
            first = refl;
            falls = omega arith;
            tight = enough;
            enough = high;
            balance = refl;
            backed = b;
          })
      | inr more ↦
          let some_page : heap_start < s.heap_max = omega arith in
          let go : leb chunk (sub32 s.heap_max 4096) ≡ true = ground (arith, end, more) in
          rw (go, drop_page-ok pgd s b some_page)
            (Returns-mono
              (drop_pages pgd fuel chunk (record s {
                machine = after_free pgd s.machine s.heap_max b some_page;
                heap_max = last pgd s.machine s.heap_max b some_page;
              }))
              (λ _ t g. record {
                headers = g.headers;
                first = g.first;
                falls = omega (arith, g.falls);
                tight = g.tight;
                enough = g.enough;
                balance = omega (arith, g.balance, b.whole, some_page);
                backed = g.backed;
              })
              (drop_pages-Shrinks pgd fuel chunk
                (record s {
                  machine = after_free pgd s.machine s.heap_max b some_page;
                  heap_max = last pgd s.machine s.heap_max b some_page;
                })
                (omega arith) low (omega arith)
                (shrunk-IsBacked pgd s.machine s.heap_max b some_page)))
    ]
