-- ===== src/Heap.antt =====
-- The kernel heap: src/mm/heap.c and src/include/heap.h. The headers of the chunks are records at
-- their addresses; a header is reached only inside the mapped part of the heap.
pub mod Blocks
pub mod Access
pub mod Find
pub mod Take
pub mod Links
pub mod Backing
pub mod Shrink
pub mod Zip
pub mod Glue
pub mod Absorb
pub mod Merge
pub mod Release
pub mod Kfree
pub mod Freed
pub mod Used
pub mod History
pub mod Compact
pub mod Emptied
pub mod Pages
pub mod Appended
pub mod Append
pub mod Kmalloc
pub mod Regions
pub mod BackLinks
mod Tests
mod HistoryTests
use bit_simple_kernel.Prelude.{
  ℕ, zero, suc, ◌+◌, ◌-◌, ◌*◌, ◌/◌, ◌%◌, ◌^◌, ◌==◌, ◌&&◌, not, Bool, true, false, u32, sub32, ltb,
  leb, write, if◌then◌else◌, Option, none, some, Run, ok, fault, out_of_fuel, Cmd, and_then, ◌>>=◌,
  ◌>>◌, pure, zoom,
}
use bit_simple_kernel.Pmm.{pmm_alloc_page, pmm_free_page}
use bit_simple_kernel.Vmm.{Machine, map, unmap, get_mapping, on_pmm, page_size}

-- `HEAP_START` and `sizeof(header_t)`.
abbrev pub heap_start : ℕ
heap_start = 0xE0000000

abbrev pub header_size : ℕ
header_size = 16

-- `header_t`; `length` has 31 bits.
pub record Header : Type 0 where
  pub prev : ℕ
  pub next : ℕ
  pub allocated : Bool
  pub length : ℕ

abbrev pub u31 : ℕ → ℕ
u31 n = n % 2 ^ 31

pub record Heap : Type 0 where
  pub machine : Machine
  pub headers : ℕ → Header
  pub heap_max : ℕ
  pub heap_first : ℕ

-- A header at `p` lies below the end of the heap. Those pages are present and writable in the page
-- tables, which is a part of `IsBacked` in Heap/Backing.antt.
abbrev pub is_mapped : ℕ → Heap → Bool
is_mapped p s = leb heap_start p && leb (p + header_size) s.heap_max

-- `*p`; any other address faults.
unfoldable pub load : ℕ → Cmd Heap Header
load p s = if is_mapped p s then ok (s.headers p) s else fault

unfoldable pub store : ℕ → Header → Cmd Heap (Unit {0})
store p h s = if is_mapped p s then ok tt (record s { headers = write s.headers p h }) else fault

-- `p->field = …`.
unfoldable pub update : ℕ → (Header → Header) → Cmd Heap (Unit {0})
update p f = do h ← load p; store p (f h)

abbrev pub on_machine : {A : Type 0} → Cmd Machine A → Cmd Heap A
on_machine = zoom (λ s. s.machine) (λ m s. record s { machine = m })

abbrev pub set_first : ℕ → Cmd Heap (Unit {0})
set_first p s = ok tt (record s { heap_first = p })

abbrev pub set_max : ℕ → Cmd Heap (Unit {0})
set_max a s = ok tt (record s { heap_max = a })

-- `init_heap`; `heap_max` has its static value until then.
unfoldable pub init_heap : Heap → Heap
init_heap s = record s { heap_first = 0 }

-- No list of chunks and no run of pages in 32 bits is longer.
abbrev pub heap_fuel : ℕ
heap_fuel = 2 ^ 28 + 1

-- `split_chunk`: cut the rest off `chunk` if it is larger than a header.
unfoldable pub split_chunk : ℕ → ℕ → Cmd Heap (Unit {0})
split_chunk chunk len = do
  h ← load chunk
  if ltb header_size (sub32 h.length len)
      then (do
        store (u32 (chunk + len)) (record {
          prev = chunk;
          next = h.next;
          allocated = false;
          length = u31 (sub32 h.length len);
        })
        update chunk (λ g. record g { next = u32 (chunk + len); length = u31 len }))
      else pure tt

-- What the search of `kmalloc` ends with: a free chunk that is long enough, or the last chunk (0
-- where there is none).
pub data Found : Type 0 where
  fits : ℕ → Found
  at_end : ℕ → Found

-- The `while` loop of `kmalloc` over `cur_header` and `prev_header`.
unfoldable pub find_chunk : ℕ → ℕ → ℕ → ℕ → Cmd Heap Found
find_chunk zero len cur prev s = out_of_fuel
find_chunk (suc fuel) len cur prev s =
    let visit = and_then (load cur s) λ h.
      let rest = find_chunk fuel len h.next cur in
      if not h.allocated && leb len h.length then pure (fits cur) else rest in
    if cur == 0 then ok (at_end prev) s else visit

-- Where a new chunk starts.
pub new_start : ℕ → Cmd Heap ℕ
new_start prev =
    if prev == 0
    then set_first heap_start >> pure heap_start
    else (do h ← load prev; pure (u32 (prev + h.length)))

-- The branch of `kmalloc` that has found a chunk.
unfoldable pub take_chunk : ℕ → ℕ → Cmd Heap ℕ
take_chunk len cur = do
  split_chunk cur len
  update cur (λ g. record g { allocated = true })
  pure (u32 (cur + header_size))

module _ (pgd_kern : ℕ) where
  -- One round of the loop of `alloc_chunk`: a page for the end of the heap.
  pub add_page : Cmd Heap (Unit {0})
  add_page s = and_then (on_machine (on_pmm pmm_alloc_page) s) λ page s₁.
      and_then (on_machine (map pgd_kern s₁.heap_max page 3) s₁)
        λ _ s₂. set_max (u32 (s₂.heap_max + page_size)) s₂

  pub alloc_chunk : ℕ → ℕ → ℕ → Cmd Heap (Unit {0})
  alloc_chunk zero start len s = out_of_fuel
  alloc_chunk (suc fuel) start len s =
      let rest = and_then (add_page s) λ _. alloc_chunk fuel start len in
      if ltb s.heap_max (u32 (start + len)) then rest else ok tt s

  -- The end of `kmalloc`: a new chunk behind the last one.
  pub append_chunk : ℕ → ℕ → Cmd Heap ℕ
  append_chunk len prev = do
    chunk_start ← new_start prev
    alloc_chunk heap_fuel chunk_start len
    store chunk_start (record { prev = prev; next = 0; allocated = true; length = u31 len })
    (if prev == 0 then pure tt else update prev (λ g. record g { next = chunk_start }))
    pure (u32 (chunk_start + header_size))

  -- What `kmalloc` does with the result of its search.
  unfoldable pub use_found : ℕ → Found → Cmd Heap ℕ
  use_found len (fits cur) = take_chunk len cur
  use_found len (at_end prev) = append_chunk len prev

  unfoldable pub kmalloc : ℕ → Cmd Heap ℕ
  kmalloc size s =
      let len = u32 (size + header_size) in
      and_then (find_chunk heap_fuel len s.heap_first 0 s) (use_found len)

  -- The rest of a round of the loop of `free_chunk`, for what `get_mapping` has put into `page`.
  -- Without a mapping the variable has no value.
  pub give_back : ℕ → Option ℕ → Cmd Heap (Unit {0})
  give_back last none s = fault
  give_back last (some page) s =
      on_machine (on_pmm (pmm_free_page page))
        (record s { machine = unmap pgd_kern last s.machine; heap_max = last })

  pub drop_page : Cmd Heap (Unit {0})
  drop_page s =
      let last = sub32 s.heap_max page_size in
      give_back last (get_mapping pgd_kern last true s.machine).pa s

  pub drop_pages : ℕ → ℕ → Cmd Heap (Unit {0})
  drop_pages zero chunk s = out_of_fuel
  drop_pages (suc fuel) chunk s =
      let rest = and_then (drop_page s) λ _. drop_pages fuel chunk in
      if leb chunk (sub32 s.heap_max page_size) then rest else ok tt s

  pub free_chunk : ℕ → Cmd Heap (Unit {0})
  free_chunk chunk = do
    h ← load chunk
    (if h.prev == 0 then set_first 0 else update h.prev (λ g. record g { next = 0 }))
    drop_pages heap_fuel chunk

  -- The first part of `glue_chunk`: take in the next chunk if it is free.
  pub glue_next : ℕ → Cmd Heap (Unit {0})
  glue_next chunk = do
    h ← load chunk
    if h.next == 0 then pure tt else (do
      n ← load h.next
      if n.allocated then pure tt else (do
        update chunk (λ g. record g { length = u31 (g.length + n.length) })
        (if n.next == 0 then pure tt else update n.next (λ g. record g { prev = chunk }))
        update chunk (λ g. record g { next = n.next })))

  -- The second part: be taken in by the previous chunk if it is free. The result is `chunk`.
  pub glue_prev : ℕ → Cmd Heap ℕ
  glue_prev chunk = do
    h ← load chunk
    if h.prev == 0 then pure chunk else (do
      p ← load h.prev
      if p.allocated then pure chunk else (do
        update h.prev (λ g. record g { length = u31 (g.length + h.length) })
        update h.prev (λ g. record g { next = h.next })
        (if h.next == 0 then pure tt else update h.next (λ g. record g { prev = h.prev }))
        pure h.prev))

  pub glue_chunk : ℕ → Cmd Heap (Unit {0})
  glue_chunk chunk = do
    glue_next chunk
    merged ← glue_prev chunk
    h ← load merged
    if h.next == 0 then free_chunk merged else pure tt

  pub kfree : ℕ → Cmd Heap (Unit {0})
  kfree p = do
    update (sub32 p header_size) (λ g. record g { allocated = false })
    glue_chunk (sub32 p header_size)
