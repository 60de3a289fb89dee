-- ===== src/Heap/Blocks.antt =====
-- The heap as a list of blocks that follow one another from `HEAP_START` on, and how the headers
-- hold it.
use bit_simple_kernel.Prelude.{
  ℕ, ◌+◌, ◌^◌, ◌≤◌, ◌<◌, ◌≡◌, ◌∙◌, ap, refl, Bool, List, [], ◌∷◌, ◌++◌, arith,
}
use bit_simple_kernel.Heap.{Header, Heap, heap_start, header_size}

pub record Block : Type 0 where
  pub used : Bool
  pub size : ℕ

abbrev pub block : Bool → ℕ → Block
block u n = record { used = u; size = n }

-- The address of the first block of a list at `p`; 0 for the empty list.
abbrev pub link : ℕ → List Block → ℕ
link p [] = 0
link p (_ ∷ _) = p

-- Where a list at `p` ends.
abbrev pub end : ℕ → List Block → ℕ
end p [] = p
end p (b ∷ bs) = end (p + b.size) bs

-- The header of the last block of a list at `p`, behind the block at `q`.
abbrev pub last_of : ℕ → ℕ → List Block → ℕ
last_of q p [] = q
last_of q p (b ∷ bs) = last_of p (p + b.size) bs

-- The headers hold the blocks: each says whether it is used, how long it is, and where the next one
-- starts, which is where it ends itself.
abbrev pub Chain : (ℕ → Header) → ℕ → List Block → Type 0
Chain h p [] = Unit
Chain h p (b ∷ bs) =
    ((h p).allocated ≡ b.used)
    × ((h p).length ≡ b.size)
    × ((h p).next ≡ link (p + b.size) bs)
    × (header_size ≤ b.size)
    × Chain h (p + b.size) bs

-- The links back agree as well: each block but the first names the one before it.
abbrev pub Backs : (ℕ → Header) → ℕ → ℕ → List Block → Type 0
Backs h q p [] = Unit
Backs h q p (b ∷ bs) = ((h p).prev ≡ q) × Backs h p (p + b.size) bs

pub end-append : (p : ℕ) (xs ys : List Block) → end p (xs ++ ys) ≡ end (end p xs) ys
end-append p [] ys = refl
end-append p (b ∷ xs) ys = end-append (p + b.size) xs ys

pub end-ge : (p : ℕ) (xs : List Block) → p ≤ end p xs
end-ge p [] = omega arith
end-ge p (b ∷ xs) = omega (arith, end-ge (p + b.size) xs)

pub end-le : (h : ℕ → Header) (p : ℕ) (xs : List Block) → Chain h p xs → p ≤ end p xs
end-le h p [] c = omega arith
end-le h p (b ∷ xs) c = omega (arith, end-le h (p + b.size) xs c.4)

-- Headers that agree from `p` up to the end of the list hold the same list.
pub Chain-frame :
    (h g : ℕ → Header) (p : ℕ) (xs : List Block)
    → Chain h p xs
    → ((a : ℕ) → p ≤ a → a < end p xs → g a ≡ h a)
    → Chain g p xs
Chain-frame h g p [] c same = tt
Chain-frame h g p (b ∷ xs) c same =
    let here : g p ≡ h p = same p (omega arith) (omega (arith, end-le h (p + b.size) xs c.4)) in
    (
      ap (λ r. r.allocated) here ∙ c.0,
      ap (λ r. r.length) here ∙ c.1,
      ap (λ r. r.next) here ∙ c.2,
      c.3,
      Chain-frame h g (p + b.size) xs c.4 (λ a l. same a (omega (arith, c.3))),
    )

pub Backs-frame :
    (h g : ℕ → Header) (q p : ℕ) (xs : List Block)
    → Chain h p xs
    → Backs h q p xs
    → ((a : ℕ) → p ≤ a → a < end p xs → g a ≡ h a)
    → Backs g q p xs
Backs-frame h g q p [] c d same = tt
Backs-frame h g q p (b ∷ xs) c d same =
    let here : g p ≡ h p = same p (omega arith) (omega (arith, end-le h (p + b.size) xs c.4)) in
    (
      ap (λ r. r.prev) here ∙ d.0,
      Backs-frame h g p (p + b.size) xs c.4 d.1 (λ a l. same a (omega (arith, c.3))),
    )

-- The list state of a heap: it starts at `HEAP_START`, and its end is mapped.
pub record IsHeap (s : Heap) (xs : List Block) : Type 0 where
  pub first : s.heap_first ≡ link heap_start xs
  pub chain : Chain s.headers heap_start xs
  pub inside : end heap_start xs ≤ s.heap_max
  pub max_small : s.heap_max < 2 ^ 32

-- Its links back are right too.
pub record IsLinked (s : Heap) (xs : List Block) : Type 0 where
  pub heap : IsHeap s xs
  pub backs : Backs s.headers 0 heap_start xs
