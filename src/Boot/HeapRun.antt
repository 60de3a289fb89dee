-- ===== src/Boot/HeapRun.antt =====
-- The calls of `kmalloc` and `kfree` in `test_heap` of src/mm/heap.c, on an empty heap.
use bit_simple_kernel.Prelude.{
  ℕ, ◌+◌, ◌*◌, ◌/◌, ◌^◌, ◌≤◌, ◌<◌, ◌≡◌, refl, true, false, List, [], ◌∷◌, ◌++◌, arith, ok,
  Returns-ok, ◌⊎◌,
}
use bit_simple_kernel.Heap.{Heap, heap_start, header_size, kmalloc, kfree}
use bit_simple_kernel.Heap.Blocks.{Block, block, end}
use bit_simple_kernel.Heap.Take.{place, placed_at}
use bit_simple_kernel.Heap.Kmalloc.{kmalloc-Places}
use bit_simple_kernel.Heap.Release.{Holds}
use bit_simple_kernel.Heap.Kfree.{released, kfree-Holds}
use bit_simple_kernel.Heap.Pages.{kfree-pages}
use bit_simple_kernel.Heap.History.{Allows}

-- A call of `kmalloc` that returns, and what it leaves.
pub record Allocates (pgd size : ℕ) (xs : List Block) (s : Heap) : Type 0 where
  pub after : Heap
  pub run :
      kmalloc pgd size s ≡ ok (placed_at (size + header_size) heap_start xs + header_size) after
  pub holds : Holds pgd (place (size + header_size) xs) after
  pub spent :
      s.machine.pmm.stack_top + 2 * (s.heap_max / 2 ^ 12)
      ≤ after.machine.pmm.stack_top + 2 * (after.heap_max / 2 ^ 12)
  pub tight :
      (after.heap_max ≡ s.heap_max)
      ⊎ (after.heap_max < end heap_start (place (size + header_size) xs) + 2 ^ 12)

pub allocate :
    (pgd size : ℕ) (xs : List Block) (s : Heap)
    → Holds pgd xs s
    → Allows (size + header_size) xs s
    → Allocates pgd size xs s
allocate pgd size xs s h w =
    let (p, t, run, r) =
      Returns-ok (kmalloc pgd size s)
        (kmalloc-Places pgd size s xs w.small h.linked.heap h.backed w.pages w.space) in
    record {
      after = t;
      run = rw (← r.placed.result) run;
      holds = record {
        linked = record { heap = r.placed.heap; backs = r.backs h.linked.backs w.links };
        backed = r.placed.backed;
      };
      spent = r.spent;
      tight = r.tight;
    }

-- A call of `kfree` that returns.
pub record Releases (pgd : ℕ) (xs : List Block) (b : Block) (ys : List Block) (s : Heap)
    : Type 0 where
  pub after : Heap
  pub run : kfree pgd (end heap_start xs + header_size) s ≡ ok tt after
  pub holds : Holds pgd (released xs b ys) after
  pub pages : s.machine.pmm.stack_top ≤ after.machine.pmm.stack_top

pub release :
    (pgd : ℕ) (xs : List Block) (b : Block) (ys : List Block) (s : Heap)
    → Holds pgd (xs ++ b ∷ ys) s
    → Releases pgd xs b ys s
release pgd xs b ys s h =
    let p = end heap_start xs + header_size in
    let (u, t, run, k) = Returns-ok (kfree pgd p s) (kfree-Holds pgd s xs b ys h.linked h.backed) in
    record { after = t; run = run; holds = k; pages = kfree-pages pgd p s t run }

-- The eight calls.
module _ (pgd : ℕ) (s : Heap) (h : Holds pgd [] s) (e : s.heap_max ≡ heap_start)
    (pages : 36 ≤ s.machine.pmm.stack_top) where
  pub first : Allocates pgd 50 [] s
  first =
      allocate pgd 50 [] s h (record {
        small = omega arith;
        pages = omega (arith, e);
        space = omega arith;
        links = refl;
      })

  pub second : Allocates pgd 500 (block true 66 ∷ []) first.after
  second = allocate pgd 500 (block true 66 ∷ []) first.after first.holds (record {
    small = omega arith;
    pages = omega (arith, e, first.spent, first.tight);
    space = omega arith;
    links = refl;
  })

  pub third : Allocates pgd 5000 (block true 66 ∷ block true 516 ∷ []) second.after
  third =
      allocate pgd 5000 (block true 66 ∷ block true 516 ∷ []) second.after second.holds (record {
        small = omega arith;
        pages = omega (arith, e, first.spent, first.tight, second.spent, second.tight);
        space = omega arith;
        links = refl;
      })

  pub fourth :
      Allocates pgd 50000 (block true 66 ∷ block true 516 ∷ block true 5016 ∷ []) third.after
  fourth =
      allocate pgd 50000 (block true 66 ∷ block true 516 ∷ block true 5016 ∷ []) third.after
        third.holds
        (record {
          small = omega arith;
          pages = omega (
            arith, e, first.spent, first.tight, second.spent, second.tight, third.spent,
            third.tight,
          );
          space = omega arith;
          links = refl;
        })

  pub free_first :
      Releases pgd []
        (block true 66)
        (block true 516 ∷ block true 5016 ∷ block true 50016 ∷ [])
        fourth.after
  free_first =
      release pgd [] (block true 66) (block true 516 ∷ block true 5016 ∷ block true 50016 ∷ [])
        fourth.after fourth.holds

  pub free_second :
      Releases pgd
        (block false 66 ∷ [])
        (block true 516)
        (block true 5016 ∷ block true 50016 ∷ [])
        free_first.after
  free_second =
      release pgd (block false 66 ∷ []) (block true 516) (block true 5016 ∷ block true 50016 ∷ [])
        free_first.after free_first.holds

  pub free_third :
      Releases pgd
        (block false 582 ∷ [])
        (block true 5016)
        (block true 50016 ∷ [])
        free_second.after
  free_third =
      release pgd (block false 582 ∷ []) (block true 5016) (block true 50016 ∷ []) free_second.after
        free_second.holds

  pub free_fourth : Releases pgd (block false 5598 ∷ []) (block true 50016) [] free_third.after
  free_fourth =
      release pgd (block false 5598 ∷ []) (block true 50016) [] free_third.after free_third.holds

  -- The heap is empty again, and there are pages left.
  pub emptied : Holds pgd [] free_fourth.after
  emptied = free_fourth.holds

  pub pages_left : 8 ≤ free_fourth.after.machine.pmm.stack_top
  pages_left = omega (
    arith, e, first.spent, first.tight, second.spent, second.tight, third.spent, third.tight,
    fourth.spent, fourth.tight, free_first.pages, free_second.pages, free_third.pages,
    free_fourth.pages,
  )
