-- ===== src/Heap/Regions.antt =====
-- Which bytes the used blocks own, and that `kmalloc` hands out bytes that no block owned.
use bit_simple_kernel.Prelude.{
  ℕ, ◌+◌, ◌-◌, ◌*◌, ◌/◌, ◌%◌, ◌^◌, ◌≤◌, ◌<◌, ◌≡◌, refl, inl, inr, Bool, true, false, ◌||◌, ◌&&◌,
  List, [], ◌∷◌, leb, ltb, arith, Returns, Returns-mono, Bool-cases,
}
use bit_simple_kernel.Vmm.Space.{entry_at}
use bit_simple_kernel.Heap.{Heap, heap_start, header_size, kmalloc}
use bit_simple_kernel.Heap.Blocks.{Block, end, end-ge, IsHeap}
use bit_simple_kernel.Heap.Find.{is_fit}
use bit_simple_kernel.Heap.Take.{place, placed_at}
use bit_simple_kernel.Heap.Backing.{IsHeapPage, IsBacked, pages_for}
use bit_simple_kernel.Heap.Kmalloc.{kmalloc-Placed}

abbrev pub is_in : ℕ → ℕ → ℕ → Bool
is_in p n a = leb p a && ltb a (p + n)

-- Byte `a` belongs to a used block of a list at `p`, its header included.
abbrev pub owned : ℕ → List Block → ℕ → Bool
owned p [] a = false
owned p (b ∷ bs) a = (b.used && is_in p b.size a) || owned (p + b.size) bs a

pub owned-ge : (p : ℕ) (xs : List Block) (a : ℕ) → owned p xs a ≡ true → p ≤ a
owned-ge p [] a h = absurd (cc)
owned-ge p (b ∷ xs) a h = ground (arith, owned-ge (p + b.size) xs a)

placed_at-ge : (len p : ℕ) (xs : List Block) → p ≤ placed_at len p xs
placed_at-ge len p [] = omega arith
placed_at-ge len p (b ∷ xs) = ground (arith, placed_at-ge len (p + b.size) xs)

-- The bytes of the placed block, of which there are at least `len`, had no owner; and after the
-- placing all the bytes that had one still have one.
place-owned :
    (len p : ℕ) (xs : List Block) (a : ℕ)
    → (is_in (placed_at len p xs) len a ≡ true
        → (owned p xs a ≡ false) × (owned p (place len xs) a ≡ true))
      × (owned p xs a ≡ true → owned p (place len xs) a ≡ true)
place-owned len p [] a = (λ h. (refl, ground arith), λ h. absurd (cc))
place-owned len p (b ∷ xs) a = elim (Bool-cases (is_fit len b)) [
  | inl hit ↦ rw hit (elim (Bool-cases (ltb header_size (b.size - len))) [
    | inl cut ↦
        let same : p + len + (b.size - len) ≡ p + b.size = ground arith in
        rw (cut, same) (ground (arith, owned-ge (p + b.size) xs a))
    | inr whole ↦ rw whole (ground (arith, owned-ge (p + b.size) xs a))
  ])
  | inr miss ↦
      rw miss (ground (arith, place-owned len (p + b.size) xs a, placed_at-ge len (p + b.size) xs))
]

-- The blocks that a heap holds after `kmalloc`, and the bytes at the result: the page of each is
-- present and writable.
pub record Fresh (pgd size : ℕ) (xs ys : List Block) (p : ℕ) (t : Heap) : Type 0 where
  pub heap : IsHeap t ys
  pub inside : p + size ≤ t.heap_max
  pub mapped :
      (a : ℕ) → is_in p size a ≡ true → entry_at t.machine.mem pgd (a / 2 ^ 12 * 2 ^ 12) % 4 ≡ 3
  pub unowned : (a : ℕ) → is_in p size a ≡ true → owned heap_start xs a ≡ false
  pub given : (a : ℕ) → is_in p size a ≡ true → owned heap_start ys a ≡ true
  pub kept : (a : ℕ) → owned heap_start xs a ≡ true → owned heap_start ys a ≡ true

page-IsHeapPage :
    (size p top a : ℕ)
    → is_in p size a ≡ true
    → heap_start ≤ p
    → p + size ≤ top
    → IsHeapPage top (a / 2 ^ 12 * 2 ^ 12)
page-IsHeapPage size p top a h low high =
    let inside : (p ≤ a) × (a < p + size) = ground arith in
    record {
      whole = omega arith;
      above = omega (arith, inside.0, low);
      below = omega (arith, inside.1, high);
    }

placed-le : (len p : ℕ) (xs : List Block) → placed_at len p xs + len ≤ end p (place len xs)
placed-le len p [] = omega arith
placed-le len p (b ∷ xs) = elim (Bool-cases (is_fit len b)) [
  | inl hit ↦ rw hit (elim (Bool-cases (ltb header_size (b.size - len))) [
    | inl cut ↦ rw cut (omega (arith, end-ge (p + len + (b.size - len)) xs))
    | inr whole ↦
        let fit : len ≤ b.size = ground arith in rw whole (omega (arith, end-ge (p + b.size) xs))
  ])
  | inr miss ↦ rw miss (placed-le len (p + b.size) xs)
]

-- The bytes that `kmalloc` hands out lie in pages that the page tables have as present and
-- writable, belonged to no used block and belong to one
-- afterwards, and every byte of a used block still belongs to one: two blocks in use never overlap.
-- The conditions are those of `kmalloc-Placed`.
pub kmalloc-Fresh :
    (pgd size : ℕ) (s : Heap) (xs : List Block)
    → size + header_size < 2 ^ 31
    → IsHeap s xs
    → IsBacked pgd s.machine s.heap_max
    → 2 * pages_for s.heap_max (end heap_start (place (size + header_size) xs))
      ≤ s.machine.pmm.stack_top
    → end heap_start (place (size + header_size) xs) ≤ 2 ^ 32 - 2 ^ 12
    → Returns (λ p t. Fresh pgd size xs (place (size + header_size) xs) p t) (kmalloc pgd size s)
kmalloc-Fresh pgd size s xs small heap back pages space =
    let len = size + header_size in
    Returns-mono (kmalloc pgd size s)
      (λ p t d.
        let bytes : (a : ℕ)
            → is_in p size a ≡ true
            → is_in (placed_at len heap_start xs) len a ≡ true =
          λ a h. ground (arith, d.result) in
        record {
          heap = d.heap;
          inside = omega (arith, d.result, placed-le len heap_start xs, d.heap.inside);
          mapped = λ a h. d.backed.present (a / 2 ^ 12 * 2 ^ 12) (
              page-IsHeapPage size p t.heap_max a h
                (omega (arith, d.result, placed_at-ge len heap_start xs))
                (omega (arith, d.result, placed-le len heap_start xs, d.heap.inside)));
          unowned = λ a h. ((place-owned len heap_start xs a).0 (bytes a h)).0;
          given = λ a h. ((place-owned len heap_start xs a).0 (bytes a h)).1;
          kept = λ a h. (place-owned len heap_start xs a).1 h;
        })
      (kmalloc-Placed pgd size s xs small heap back pages space)
