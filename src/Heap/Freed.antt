-- ===== src/Heap/Freed.antt =====
-- Which bytes the used blocks own after `kfree` of src/mm/heap.c.
use bit_simple_kernel.Prelude.{
  ℕ, ◌+◌, ◌<◌, ◌≡◌, ◌∙◌, ap, refl, inl, inr, Bool, true, false, not, ◌||◌, ◌&&◌, List, [], ◌∷◌,
  ◌++◌, arith, Returns, Returns-mono, Bool-cases,
}
use bit_simple_kernel.Heap.{Heap, heap_start, header_size, kfree}
use bit_simple_kernel.Heap.Blocks.{Block, end, end-ge, IsLinked}
use bit_simple_kernel.Heap.Backing.{IsBacked}
use bit_simple_kernel.Heap.Regions.{is_in, owned, owned-ge}
use bit_simple_kernel.Heap.Glue.{free, absorbed, absorbed_rest}
use bit_simple_kernel.Heap.Release.{seal}
use bit_simple_kernel.Heap.Kfree.{join, released, kfree-Holds}

owned-lt : (p : ℕ) (xs : List Block) (a : ℕ) → owned p xs a ≡ true → a < end p xs
owned-lt p [] a h = absurd (cc)
owned-lt p (b ∷ xs) a h = ground (arith, owned-lt (p + b.size) xs a, end-ge (p + b.size) xs)

or_assoc : (a b c : Bool) → a || (b || c) ≡ (a || b) || c
or_assoc true b c = refl
or_assoc false b c = refl

owned-append :
    (p : ℕ) (xs ys : List Block) (a : ℕ)
    → owned p (xs ++ ys) a ≡ owned p xs a || owned (end p xs) ys a
owned-append p [] ys a = refl
owned-append p (x ∷ xs) ys a =
    ap (λ r. (x.used && is_in p x.size a) || r) (owned-append (p + x.size) xs ys a)
    ∙ or_assoc (x.used && is_in p x.size a) (owned (p + x.size) xs a)
        (owned (end (p + x.size) xs) ys a)

-- A free block owns nothing, whether it is kept or not.
owned-seal :
    (p : ℕ) (b : Block) (ys : List Block) (a : ℕ)
    → b.used ≡ false
    → owned p (seal b ys) a ≡ owned (p + b.size) ys a
owned-seal p b [] a u = refl
owned-seal p b (c ∷ cs) a u = simp u refl

owned-join :
    (p : ℕ) (xs : List Block) (b : Block) (ys : List Block) (a : ℕ)
    → b.used ≡ false
    → owned p (join xs b ys) a ≡ owned p xs a || owned (end p xs + b.size) ys a
owned-join p [] b ys a u = owned-seal p b ys a u
owned-join p (x ∷ []) b ys a u = elim (Bool-cases x.used) [
  | inl v ↦ simp v (
      ap (λ r. is_in p x.size a || r) (owned-seal (p + x.size) b ys a u)
      ∙ or_assoc (is_in p x.size a) false (owned (p + x.size + b.size) ys a))
  | inr v ↦ simp v (
      owned-seal p (record { used = false; size = x.size + b.size }) ys a refl
      ∙ ap (λ (q : ℕ). owned q ys a) (omega arith))
]
owned-join p (x ∷ y ∷ xs) b ys a u =
    ap (λ r. (x.used && is_in p x.size a) || r) (owned-join (p + x.size) (y ∷ xs) b ys a u)
    ∙ or_assoc (x.used && is_in p x.size a) (owned (p + x.size) (y ∷ xs) a)
        (owned (end (p + x.size) (y ∷ xs) + b.size) ys a)

pub absorbed-free : (b : Block) (ys : List Block) → b.used ≡ false → (absorbed b ys).used ≡ false
absorbed-free b [] u = u
absorbed-free b (c ∷ cs) u = elim (Bool-cases c.used) [ inl v ↦ simp v u | inr v ↦ simp v u ]

owned-absorbed_rest :
    (p : ℕ) (b : Block) (ys : List Block) (a : ℕ)
    → owned (p + (absorbed b ys).size) (absorbed_rest ys) a ≡ owned (p + b.size) ys a
owned-absorbed_rest p b [] a = refl
owned-absorbed_rest p b (c ∷ cs) a = elim (Bool-cases c.used) [
  | inl v ↦ simp v refl
  | inr v ↦ simp v (ap (λ (q : ℕ). owned q cs a) (omega arith))
]

owned-released :
    (p : ℕ) (xs : List Block) (b : Block) (ys : List Block) (a : ℕ)
    → owned p (released xs b ys) a ≡ owned p (xs ++ b ∷ ys) a && not (is_in (end p xs) b.size a)
owned-released p xs b ys a =
    let q = end p xs in
    let joined =
      owned-join p xs (absorbed (free b) ys) (absorbed_rest ys) a (absorbed-free (free b) ys refl)
      ∙ ap (λ r. owned p xs a || r) (owned-absorbed_rest q (free b) ys a) in
    rw (joined, owned-append p xs (b ∷ ys) a)
      (ground (arith, owned-lt p xs a, owned-ge (q + b.size) ys a))

-- What `kfree` of block `b` leaves: a list `zs` with right links in which just the bytes of `b` have
-- lost their owner.
pub record Freed (pgd : ℕ) (xs : List Block) (b : Block) (ys zs : List Block) (t : Heap)
    : Type 0 where
  pub linked : IsLinked t zs
  pub backed : IsBacked pgd t.machine t.heap_max
  pub bytes :
      (a : ℕ)
      → owned heap_start zs a
        ≡ owned heap_start (xs ++ b ∷ ys) a && not (is_in (end heap_start xs) b.size a)

-- `kfree` on the address of a block returns, and takes the bytes of that block from the used blocks,
-- its header included, and no other byte: every other block in use keeps all of its bytes. The heap
-- held a list with right links both ways, its pages were in order, and it is so again.
pub kfree-Freed :
    (pgd : ℕ) (s : Heap) (xs : List Block) (b : Block) (ys : List Block)
    → IsLinked s (xs ++ b ∷ ys)
    → IsBacked pgd s.machine s.heap_max
    → Returns
        (λ _ t. Freed pgd xs b ys (released xs b ys) t)
        (kfree pgd (end heap_start xs + header_size) s)
kfree-Freed pgd s xs b ys l k =
    Returns-mono (kfree pgd (end heap_start xs + header_size) s)
      (λ _ t h. record {
        linked = h.linked;
        backed = h.backed;
        bytes = λ a. owned-released heap_start xs b ys a;
      })
      (kfree-Holds pgd s xs b ys l k)
