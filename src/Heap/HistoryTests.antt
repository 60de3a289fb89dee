-- ===== src/Heap/HistoryTests.antt =====
-- A history of two allocations of which the first one is freed.
use bit_simple_kernel.Prelude.{
  ◌+◌, ◌≡◌, refl, true, List, [], ◌∷◌, arith, ok, Run, Returns, All, write,
}
use bit_simple_kernel.Pmm.{pmm_alloc_page, pmm_free_page}
use bit_simple_kernel.Vmm.{map, unmap, get_mapping, set_entry, new_table, clear_words}
use bit_simple_kernel.Heap.{
  Heap, heap_start, kmalloc, kfree, load, store, update, split_chunk, find_chunk, new_start,
  take_chunk, append_chunk, add_page, alloc_chunk, use_found, drop_page, give_back, drop_pages,
  free_chunk, glue_next, glue_prev, glue_chunk,
}
use bit_simple_kernel.Heap.Blocks.{Block, block}
use bit_simple_kernel.Heap.Release.{Holds}
use bit_simple_kernel.Heap.History.{
  Alloc, AllApart, Reach, start, malloc, free, IsInside, Reach-AllApart, Reach-kfree,
}
use bit_simple_kernel.Heap.Emptied.{Reach-emptied}
use bit_simple_kernel.Heap.Tests.{directory, empty_heap, empty-IsHeap, empty-IsBacked}

abbrev after : {A : Type 0} → Run Heap A → Heap
after (ok _ s) = s
after _ = empty_heap

-- The heap with 100 bytes, and with 50 bytes behind them.
abbrev one_heap : Heap
one_heap = after (kmalloc directory 100 empty_heap)

abbrev two_heap : Heap
two_heap = after (kmalloc directory 50 one_heap)

abbrev one : Alloc
one = record { at = heap_start + 16; size = 100 }

abbrev two : Alloc
two = record { at = heap_start + 132; size = 50 }

first_call : kmalloc directory 100 empty_heap ≡ ok (heap_start + 16) one_heap
unfolding kmalloc load store update split_chunk find_chunk new_start take_chunk append_chunk
    add_page alloc_chunk use_found pmm_alloc_page map set_entry new_table clear_words write
first_call = refl

second_call : kmalloc directory 50 one_heap ≡ ok (heap_start + 132) two_heap
unfolding kmalloc load store update split_chunk find_chunk new_start take_chunk append_chunk
    add_page alloc_chunk use_found pmm_alloc_page map set_entry new_table clear_words write
second_call = refl

-- What is left of the pages.
one_pages : (one_heap.heap_max ≡ heap_start + 4096) × (one_heap.machine.pmm.stack_top ≡ 38)
unfolding kmalloc load store update split_chunk find_chunk new_start take_chunk append_chunk
    add_page alloc_chunk use_found pmm_alloc_page map set_entry new_table clear_words write
one_pages = (refl, refl)

empty-Holds : Holds directory [] empty_heap
empty-Holds = record {
  linked = record { heap = empty-IsHeap; backs = tt };
  backed = empty-IsBacked;
}

two-Reach :
    Reach directory empty_heap two_heap (block true 116 ∷ block true 66 ∷ []) (two ∷ one ∷ [])
two-Reach =
    malloc 50
      (malloc 100 start
        (record { small = omega arith; pages = omega arith; space = omega arith; links = refl })
        first_call)
      (record {
        small = omega arith;
        pages = omega (arith, one_pages.0, one_pages.1);
        space = omega arith;
        links = refl;
      })
      second_call

Reach-AllApart_example : AllApart (two ∷ one ∷ []) × All (IsInside two_heap) (two ∷ one ∷ [])
Reach-AllApart_example =
    Reach-AllApart directory empty_heap two_heap (block true 116 ∷ block true 66 ∷ [])
      (two ∷ one ∷ []) empty-Holds two-Reach

Reach-kfree_example :
    Returns
      (λ _ t. (ys : List Block) × Reach directory empty_heap t ys (two ∷ []))
      (kfree directory (heap_start + 16) two_heap)
Reach-kfree_example =
    Reach-kfree directory empty_heap two_heap (block true 116 ∷ block true 66 ∷ []) (two ∷ []) one
      [] empty-Holds two-Reach

-- The history in which the 100 bytes are freed again.
one-Reach : Reach directory empty_heap one_heap (block true 116 ∷ []) (one ∷ [])
one-Reach =
    malloc 100 start
      (record { small = omega arith; pages = omega arith; space = omega arith; links = refl })
      first_call

abbrev freed_heap : Heap
freed_heap = after (kfree directory (heap_start + 16) one_heap)

free_call : kfree directory (heap_start + 16) one_heap ≡ ok tt freed_heap
unfolding kmalloc kfree load store update split_chunk find_chunk new_start take_chunk append_chunk
    add_page alloc_chunk use_found drop_page give_back drop_pages free_chunk glue_next glue_prev
    glue_chunk pmm_alloc_page pmm_free_page map unmap get_mapping set_entry new_table clear_words
    write
free_call = refl

abbrev no_blocks : List Block
no_blocks = []

Reach-emptied_example :
    (no_blocks ≡ []) × (freed_heap.heap_first ≡ 0) × (freed_heap.heap_max ≡ heap_start)
Reach-emptied_example =
    Reach-emptied directory empty_heap freed_heap [] empty-Holds refl
      (free [] one [] [] (block true 116) [] one-Reach refl free_call)
