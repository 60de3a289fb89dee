-- ===== src/Heap/Zip.antt =====
-- A block of the heap with the blocks before and behind it.
use mathlib.Core.List.{append_assoc}
use bit_simple_kernel.Prelude.{
  ℕ, ◌+◌, ◌≤◌, ◌<◌, ◌≡◌, ◌∙◌, sym, ap, refl, List, [], ◌∷◌, ◌++◌, arith,
}
use bit_simple_kernel.Heap.{Header, heap_start, header_size}
use bit_simple_kernel.Heap.Blocks.{Block, link, end, last_of, Chain, Backs, end-ge}

-- Where a list at `p` starts, or what follows it.
abbrev pub link_to : ℕ → List Block → ℕ → ℕ
link_to p [] z = z
link_to p (_ ∷ _) z = p

-- Blocks whose last one leads to `z`.
abbrev pub ChainTo : (ℕ → Header) → ℕ → List Block → ℕ → Type 0
ChainTo h p [] z = Unit
ChainTo h p (b ∷ bs) z =
    ((h p).allocated ≡ b.used)
    × ((h p).length ≡ b.size)
    × ((h p).next ≡ link_to (p + b.size) bs z)
    × (header_size ≤ b.size)
    × ChainTo h (p + b.size) bs z

link-append : (p : ℕ) (xs ys : List Block) → link p (xs ++ ys) ≡ link_to p xs (link (end p xs) ys)
link-append p [] ys = refl
link-append p (x ∷ xs) ys = refl

pub Chain-split :
    (h : ℕ → Header) (p : ℕ) (xs ys : List Block)
    → Chain h p (xs ++ ys)
    → ChainTo h p xs (link (end p xs) ys) × Chain h (end p xs) ys
Chain-split h p [] ys c = (tt, c)
Chain-split h p (x ∷ xs) ys c =
    let rest = Chain-split h (p + x.size) xs ys c.4 in
    ((c.0, c.1, c.2 ∙ link-append (p + x.size) xs ys, c.3, rest.0), rest.1)

pub Chain-join :
    (h : ℕ → Header) (p : ℕ) (xs ys : List Block)
    → ChainTo h p xs (link (end p xs) ys)
    → Chain h (end p xs) ys
    → Chain h p (xs ++ ys)
Chain-join h p [] ys c d = d
Chain-join h p (x ∷ xs) ys c d = (
  c.0,
  c.1,
  c.2 ∙ sym (link-append (p + x.size) xs ys),
  c.3,
  Chain-join h (p + x.size) xs ys c.4 d,
)

pub Backs-split :
    (h : ℕ → Header) (q p : ℕ) (xs ys : List Block)
    → Backs h q p (xs ++ ys)
    → Backs h q p xs × Backs h (last_of q p xs) (end p xs) ys
Backs-split h q p [] ys c = (tt, c)
Backs-split h q p (x ∷ xs) ys c =
    let rest = Backs-split h p (p + x.size) xs ys c.1 in ((c.0, rest.0), rest.1)

pub Backs-join :
    (h : ℕ → Header) (q p : ℕ) (xs ys : List Block)
    → Backs h q p xs
    → Backs h (last_of q p xs) (end p xs) ys
    → Backs h q p (xs ++ ys)
Backs-join h q p [] ys c d = d
Backs-join h q p (x ∷ xs) ys c d = (c.0, Backs-join h p (p + x.size) xs ys c.1 d)

-- Headers that agree below the end of the list hold it too.
pub ChainTo-frame :
    (h g : ℕ → Header) (p : ℕ) (xs : List Block) (z : ℕ)
    → ChainTo h p xs z
    → ((a : ℕ) → a < end p xs → g a ≡ h a)
    → ChainTo g p xs z
ChainTo-frame h g p [] z c same = tt
ChainTo-frame h g p (x ∷ xs) z c same =
    let here : g p ≡ h p = same p (omega (arith, c.3, end-ge (p + x.size) xs)) in
    (
      ap (λ r. r.allocated) here ∙ c.0,
      ap (λ r. r.length) here ∙ c.1,
      ap (λ r. r.next) here ∙ c.2,
      c.3,
      ChainTo-frame h g (p + x.size) xs z c.4 same,
    )

pub Backs-frame_below :
    (h g : ℕ → Header) (q p : ℕ) (xs : List Block) (z : ℕ)
    → ChainTo h p xs z
    → Backs h q p xs
    → ((a : ℕ) → a < end p xs → g a ≡ h a)
    → Backs g q p xs
Backs-frame_below h g q p [] z c d same = tt
Backs-frame_below h g q p (x ∷ xs) z c d same =
    let here : g p ≡ h p = same p (omega (arith, c.3, end-ge (p + x.size) xs)) in
    (ap (λ r. r.prev) here ∙ d.0, Backs-frame_below h g p (p + x.size) xs z c.4 d.1 same)

-- The header of block `b`, which lies between `xs` and `ys`, and those around it.
pub record IsZip (h : ℕ → Header) (xs : List Block) (b : Block) (ys : List Block) : Type 0 where
  pub before : ChainTo h heap_start xs (end heap_start xs)
  pub before_backs : Backs h 0 heap_start xs
  pub allocated : (h (end heap_start xs)).allocated ≡ b.used
  pub length : (h (end heap_start xs)).length ≡ b.size
  pub next : (h (end heap_start xs)).next ≡ link (end heap_start xs + b.size) ys
  pub prev : (h (end heap_start xs)).prev ≡ last_of 0 heap_start xs
  pub long : header_size ≤ b.size
  pub after : Chain h (end heap_start xs + b.size) ys
  pub after_backs : Backs h (end heap_start xs) (end heap_start xs + b.size) ys

pub to-IsZip :
    (h : ℕ → Header) (xs : List Block) (b : Block) (ys : List Block)
    → Chain h heap_start (xs ++ b ∷ ys)
    → Backs h 0 heap_start (xs ++ b ∷ ys)
    → IsZip h xs b ys
to-IsZip h xs b ys c d =
    let chain = Chain-split h heap_start xs (b ∷ ys) c in
    let backs = Backs-split h 0 heap_start xs (b ∷ ys) d in
    record {
      before = chain.0;
      before_backs = backs.0;
      allocated = chain.1.0;
      length = chain.1.1;
      next = chain.1.2;
      prev = backs.1.0;
      long = chain.1.3;
      after = chain.1.4;
      after_backs = backs.1.1;
    }

pub IsZip-Chain :
    (h : ℕ → Header) (xs : List Block) (b : Block) (ys : List Block)
    → IsZip h xs b ys
    → Chain h heap_start (xs ++ b ∷ ys) × Backs h 0 heap_start (xs ++ b ∷ ys)
IsZip-Chain h xs b ys z = (
  Chain-join h heap_start xs (b ∷ ys) z.before (z.allocated, z.length, z.next, z.long, z.after),
  Backs-join h 0 heap_start xs (b ∷ ys) z.before_backs (z.prev, z.after_backs),
)

-- The same heap seen from the block before.
pub IsZip-back :
    (h : ℕ → Header) (xs : List Block) (a b : Block) (ys : List Block)
    → IsZip h (xs ++ a ∷ []) b ys
    → IsZip h xs a (b ∷ ys)
IsZip-back h xs a b ys z =
    let whole = IsZip-Chain h (xs ++ a ∷ []) b ys z in
    let same = append_assoc xs (a ∷ []) (b ∷ ys) in
    to-IsZip h xs a (b ∷ ys) (rw (← same) whole.0) (rw (← same) whole.1)

pub last_of-snoc : (q p : ℕ) (xs : List Block) (a : Block) → last_of q p (xs ++ a ∷ []) ≡ end p xs
last_of-snoc q p [] a = refl
last_of-snoc q p (x ∷ xs) a = last_of-snoc p (p + x.size) xs a
