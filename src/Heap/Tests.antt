-- ===== src/Heap/Tests.antt =====
-- The heap at small states, and a run that gives out the same bytes twice.
use bit_simple_kernel.Prelude.{
  ℕ, ◌+◌, ◌*◌, ◌==◌, ◌≡◌, refl, true, false, List, [], ◌∷◌, arith, ok, panic, fault, out_of_fuel,
  Returns, Run, Cmd, ◌>>=◌, ◌>>◌, pure, if◌then◌else◌, write, Option, some, none,
}
use bit_simple_kernel.Pmm.{pmm_alloc_page}
use bit_simple_kernel.Vmm.{Machine, map, set_entry, new_table, clear_words}
use bit_simple_kernel.Vmm.Map.{IsStocked}
use bit_simple_kernel.Heap.{
  Header, Heap, heap_start, kmalloc, kfree, load, store, update, split_chunk, find_chunk, new_start,
  take_chunk, append_chunk, add_page, alloc_chunk, use_found, drop_page, give_back, drop_pages,
  free_chunk, glue_next, glue_prev, glue_chunk,
}
use bit_simple_kernel.Heap.Blocks.{Block, block, IsHeap, IsLinked}
use bit_simple_kernel.Heap.Backing.{IsBacked, Covers, alloc_chunk-Covers}
use bit_simple_kernel.Heap.Append.{Placed}
use bit_simple_kernel.Heap.Kmalloc.{kmalloc-Placed}
use bit_simple_kernel.Heap.Regions.{Fresh, kmalloc-Fresh}
use bit_simple_kernel.Heap.Release.{Releases}
use bit_simple_kernel.Heap.Kfree.{kfree-Releases}
use bit_simple_kernel.Heap.Freed.{Freed, kfree-Freed}
use bit_simple_kernel.Heap.BackLinks.{IsStale, kmalloc-IsStale}

abbrev pub directory : ℕ
directory = 0xC0200000

abbrev no_header : Header
no_header = record { prev = 0; next = 0; allocated = false; length = 0 }

-- A machine with 40 free pages, and its heap before the first allocation.
abbrev machine : Machine
machine = record {
  pmm = record { stack = λ k. k * 0x1000; stack_top = 40; phy_page_count = 40 };
  mem = λ _. 0;
}

abbrev pub empty_heap : Heap
empty_heap = record {
  machine = machine;
  headers = λ _. no_header;
  heap_max = heap_start;
  heap_first = 0;
}

pub empty-IsHeap : IsHeap empty_heap []
empty-IsHeap = record { first = refl; chain = tt; inside = omega arith; max_small = omega arith }

machine-IsStocked : IsStocked machine directory
machine-IsStocked = record {
  space = record {
    words = λ a. omega arith;
    aligned = refl;
    off_dir = λ i h ne. absurd (ne refl);
    apart = λ i j h k ne. absurd (ne refl);
  };
  linear_tables = λ i h. omega arith;
  fresh = λ k pos h. record {
    aligned = omega arith;
    small = omega arith;
    ne_zero = omega arith;
    off_dir = omega arith;
    unused = λ i l. omega arith;
  };
  distinct = λ j k pos lt h. omega arith;
}

pub empty-IsBacked : IsBacked directory machine heap_start
empty-IsBacked = record {
  ready = machine-IsStocked;
  linear_pages = λ k pos h below. omega arith;
  linear_frames = λ v h. absurd (omega (arith, h.above, h.below));
  whole = refl;
  above = omega arith;
  below = omega arith;
  present = λ v h. absurd (omega (arith, h.above, h.below));
  fresh = λ v h. absurd (omega (arith, h.above, h.below));
  distinct = λ v w h. absurd (omega (arith, h.above, h.below));
  off_stack = λ v k h. absurd (omega (arith, h.above, h.below));
  room = omega arith;
}

-- A free chunk of 116 bytes with a used one behind it.
abbrev two_chunks : Heap
two_chunks = record empty_heap {
  headers = λ a.
      if a == heap_start
      then record { prev = 0; next = heap_start + 116; allocated = false; length = 116 }
      else if a == heap_start + 116
      then record { prev = heap_start; next = 0; allocated = true; length = 116 }
      else no_header;
  heap_max = heap_start + 4096;
  heap_first = heap_start;
}

abbrev two_blocks : List Block
two_blocks = block false 116 ∷ block true 116 ∷ []

two-IsLinked : IsLinked two_chunks two_blocks
two-IsLinked = record {
  heap = record {
    first = refl;
    chain = (refl, refl, refl, omega arith, (refl, refl, refl, omega arith, tt));
    inside = omega arith;
    max_small = omega arith;
  };
  backs = (refl, (refl, tt));
}

kmalloc-Placed_example :
    Returns (λ p t. Placed directory 5016 [] p t) (kmalloc directory 5000 empty_heap)
kmalloc-Placed_example =
    kmalloc-Placed directory 5000 empty_heap [] (omega arith) empty-IsHeap empty-IsBacked
      (omega arith) (omega arith)

kmalloc-Fresh_example :
    Returns
      (λ p t. Fresh directory 5000 [] (block true 5016 ∷ []) p t)
      (kmalloc directory 5000 empty_heap)
kmalloc-Fresh_example =
    kmalloc-Fresh directory 5000 empty_heap [] (omega arith) empty-IsHeap empty-IsBacked
      (omega arith) (omega arith)

kmalloc-IsStale_example :
    Returns (λ _ t. IsStale heap_start 26 (heap_start + 116) t) (kmalloc directory 10 two_chunks)
kmalloc-IsStale_example =
    kmalloc-IsStale directory 10 two_chunks two_blocks heap_start (omega arith) two-IsLinked refl
      (omega arith) (omega arith)

-- The results of the last two allocations of a run, `n` of 74 bytes and `x` of 126.
double_use : Cmd Heap (ℕ × ℕ)
double_use = do
  a ← kmalloc directory 100
  b ← kmalloc directory 100
  c ← kmalloc directory 100
  kfree directory a
  a' ← kmalloc directory 10
  n ← kmalloc directory 74
  kfree directory a'
  kfree directory b
  x ← kmalloc directory 126
  pure (n, x)

abbrev result_of : Run Heap (ℕ × ℕ) → Option (ℕ × ℕ)
result_of (ok r s) = some r
result_of _ = none

-- The 126 bytes from 0xE0000010 on contain the bytes from 0xE000002A on, which are still in use.
double_use_overlaps : result_of (double_use empty_heap) ≡ some (0xE000002A, 0xE0000010)
unfolding double_use kmalloc kfree load store update split_chunk find_chunk new_start take_chunk
    append_chunk add_page alloc_chunk use_found drop_page give_back drop_pages free_chunk glue_next
    glue_prev glue_chunk pmm_alloc_page map set_entry new_table clear_words write
double_use_overlaps = refl

-- The state that a run ends in.
abbrev state_of : Run Heap (Unit {0}) → Heap
state_of (ok _ s) = s
state_of _ = empty_heap

-- The heap with one page.
abbrev grown_heap : Heap
grown_heap = state_of (alloc_chunk directory 2 heap_start 4096 empty_heap)

state_of-IsBacked :
    (r : Run Heap (Unit {0}))
    → Returns (λ _ t. Covers directory empty_heap (heap_start + 4096) t) r
    → IsBacked directory (state_of r).machine (state_of r).heap_max
state_of-IsBacked (ok _ s) h = h.backed
state_of-IsBacked (panic p) h = absurd h
state_of-IsBacked fault h = absurd h
state_of-IsBacked out_of_fuel h = absurd h

grown-IsBacked : IsBacked directory grown_heap.machine grown_heap.heap_max
grown-IsBacked = state_of-IsBacked (alloc_chunk directory 2 heap_start 4096 empty_heap) (
    alloc_chunk-Covers directory 2 heap_start 4096 empty_heap (omega arith) empty-IsBacked
      (omega arith) (omega arith))

grown_max : grown_heap.heap_max ≡ heap_start + 4096
unfolding add_page alloc_chunk pmm_alloc_page map set_entry new_table clear_words write
grown_max = refl

-- A free chunk and two used ones on that page.
abbrev three_chunks : Heap
three_chunks = record grown_heap {
  headers = λ a.
      if a == heap_start
      then record { prev = 0; next = heap_start + 116; allocated = false; length = 116 }
      else if a == heap_start + 116
      then record { prev = heap_start; next = heap_start + 216; allocated = true; length = 100 }
      else if a == heap_start + 216
      then record { prev = heap_start + 116; next = 0; allocated = true; length = 50 }
      else no_header;
  heap_first = heap_start;
}

three-IsLinked : IsLinked three_chunks (block false 116 ∷ block true 100 ∷ block true 50 ∷ [])
three-IsLinked = record {
  heap = record {
    first = refl;
    chain = (
      refl,
      refl,
      refl,
      omega arith,
      (refl, refl, refl, omega arith, (refl, refl, refl, omega arith, tt)),
    );
    inside = omega (arith, grown_max);
    max_small = omega (arith, grown_max);
  };
  backs = (refl, (refl, (refl, tt)));
}

kfree-Releases_example :
    Returns
      (λ _ t.
        Releases directory three_chunks.heap_max three_chunks.machine.pmm.stack_top
          (heap_start + 266)
          (block false 216 ∷ block true 50 ∷ [])
          t)
      (kfree directory (heap_start + 132) three_chunks)
kfree-Releases_example =
    kfree-Releases directory three_chunks (block false 116 ∷ []) (block true 100)
      (block true 50 ∷ []) three-IsLinked grown-IsBacked

kfree-Freed_example :
    Returns
      (λ _ t.
        Freed directory
          (block false 116 ∷ [])
          (block true 100)
          (block true 50 ∷ [])
          (block false 216 ∷ block true 50 ∷ [])
          t)
      (kfree directory (heap_start + 132) three_chunks)
kfree-Freed_example =
    kfree-Freed directory three_chunks (block false 116 ∷ []) (block true 100) (block true 50 ∷ [])
      three-IsLinked grown-IsBacked
