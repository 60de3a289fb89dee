-- ===== src/Heap/Links.antt =====
-- The links back after `kmalloc` of src/mm/heap.c.
use bit_simple_kernel.Prelude.{
  ℕ, ◌+◌, ◌-◌, ◌≤◌, ◌≡◌, refl, Bool, true, false, not, ◌||◌, List, [], ◌∷◌, ltb, if◌then◌else◌,
  arith, Bool-cases, inl, inr, ltb→lt,
}
use bit_simple_kernel.Heap.{Header, header_size, fits}
use bit_simple_kernel.Heap.Blocks.{Block, block, Chain, Backs, Backs-frame}
use bit_simple_kernel.Heap.Find.{is_fit, found_at}
use bit_simple_kernel.Heap.Take.{place, taken, taken_self, taken_rest, taken_other, found-IsHit}

abbrev is_empty : List Block → Bool
is_empty [] = true
is_empty (_ ∷ _) = false

-- The search finds no block that would be cut in front of another one.
abbrev pub keeps_links : ℕ → List Block → Bool
keeps_links len [] = true
keeps_links len (b ∷ bs) =
    if is_fit len b then not (ltb header_size (b.size - len)) || is_empty bs else keeps_links len bs

module _ (h : ℕ → Header) (len : ℕ) (big : header_size ≤ len) where
  -- The chunk that is found.
  hit-Backs :
      (q p : ℕ) (b : Block) (xs : List Block)
      → Chain h p (b ∷ xs)
      → Backs h q p (b ∷ xs)
      → len ≤ b.size
      → ltb header_size (b.size - len) ≡ false
      → Backs (taken h len p) q p (block true b.size ∷ xs)
  hit-Backs q p b xs c d fit whole =
      let short : ltb header_size ((h p).length - len) ≡ false = rw c.1 whole in
      rw (taken_self h len p big, short)
        (
          d.0,
          Backs-frame h (taken h len p) p (p + b.size) xs c.4 d.1 (λ a lo hi.
              taken_other h len p a (omega (arith, c.3))
                (λ cut. omega (arith, ltb→lt _ _ cut, c.1))),
        )

  -- The last chunk, with a rest.
  last-Backs :
      (q p : ℕ) (b : Block)
      → Chain h p (b ∷ [])
      → Backs h q p (b ∷ [])
      → ltb header_size (b.size - len) ≡ true
      → Backs (taken h len p) q p (block true len ∷ block false (b.size - len) ∷ [])
  last-Backs q p b c d cut =
      let long : ltb header_size ((h p).length - len) ≡ true = rw c.1 cut in
      rw (taken_self h len p big, long, taken_rest h len p big long) (d.0, (refl, tt))

  pub taken-Backs :
      (q p : ℕ) (xs : List Block) (cur : ℕ)
      → Chain h p xs
      → Backs h q p xs
      → found_at len q p xs ≡ fits cur
      → keeps_links len xs ≡ true
      → Backs (taken h len cur) q p (place len xs)
  taken-Backs q p [] cur c d e k = absurd (cc)
  taken-Backs q p (b ∷ xs) cur c d e k = elim (Bool-cases (is_fit len b)) [
    | inl hit ↦
        let first : fits p ≡ fits cur = rw hit at e in
        let same : p ≡ cur = cc in
        let fit : len ≤ b.size = ground arith in
        rw (← same, hit)
          (elim (Bool-cases (ltb header_size (b.size - len))) [
            | inl cut ↦ rw cut (only q p b xs c d cut (rw (hit, cut) at k))
            | inr whole ↦ rw whole (hit-Backs q p b xs c d fit whole)
          ])
    | inr miss ↦
        let rest : found_at len p (p + b.size) xs ≡ fits cur = rw miss at e in
        let i = found-IsHit h len big p (p + b.size) xs cur c.4 rest in
        let here : taken h len cur p ≡ h p =
          taken_other h len cur p (omega (arith, i.after, c.3))
            (λ _. omega (arith, i.after, c.3)) in
        rw (miss, here) (d.0, taken-Backs p (p + b.size) xs cur c.4 d.1 rest (rw miss at k))
  ]
    where
      only :
          (q p : ℕ) (b : Block) (xs : List Block)
          → Chain h p (b ∷ xs)
          → Backs h q p (b ∷ xs)
          → ltb header_size (b.size - len) ≡ true
          → is_empty xs ≡ true
          → Backs (taken h len p) q p (block true len ∷ block false (b.size - len) ∷ xs)
      only q p b [] c d cut k = last-Backs q p b c d cut
      only q p b (x ∷ xs) c d cut k = absurd (cc)
