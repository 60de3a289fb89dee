-- ===== src/Heap/Find.antt =====
-- First fit: which chunk the search of `kmalloc` ends with.
use bit_simple_kernel.Prelude.{
  ℕ, zero, suc, ◌+◌, ◌≤◌, ◌<◌, ◌≡◌, refl, Bool, false, not, List, [], ◌∷◌, leb, ◌&&◌, ◌==◌,
  if◌then◌else◌, arith, ok, length, Bool-cases, inl, inr,
}
use bit_simple_kernel.Heap.{Heap, heap_start, header_size, Found, fits, at_end, find_chunk}
use bit_simple_kernel.Heap.Blocks.{Block, link, end, end-le, Chain}
use bit_simple_kernel.Heap.Access.{load-ok}

abbrev pub is_fit : ℕ → Block → Bool
is_fit len b = not b.used && leb len b.size

-- The search through a list at `p`, behind the block at `q`.
abbrev pub found_at : ℕ → ℕ → ℕ → List Block → Found
found_at len q p [] = at_end q
found_at len q p (b ∷ bs) = if is_fit len b then fits p else found_at len p (p + b.size) bs

pub find_chunk-found_at :
    (fuel len q p : ℕ) (xs : List Block) (s : Heap)
    → length xs < fuel
    → heap_start ≤ p
    → end p xs ≤ s.heap_max
    → Chain s.headers p xs
    → find_chunk fuel len (link p xs) q s ≡ ok (found_at len q p xs) s
unfolding find_chunk
find_chunk-found_at zero len q p xs s f a e c = absurd (omega arith)
find_chunk-found_at (suc fuel) len q p [] s f a e c = refl
find_chunk-found_at (suc fuel) len q p (b ∷ bs) s f a e c =
    let room : p + header_size ≤ s.heap_max =
      omega (arith, end-le s.headers (p + b.size) bs c.4, c.3) in
    let nonzero : (p == 0) ≡ false = ground arith in
    rw (nonzero, load-ok p s a room, c.0, c.1, c.2)
      (elim (Bool-cases (is_fit len b)) [
        | inl hit ↦ rw hit refl
        | inr miss ↦
            rw miss
              (find_chunk-found_at fuel len p (p + b.size) bs s (omega arith) (omega arith) e c.4)
      ])
