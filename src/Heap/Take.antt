-- ===== src/Heap/Take.antt =====
-- The branch of `kmalloc` that reuses a free chunk: `split_chunk` and the mark.
use bit_simple_kernel.Prelude.{
  ℕ, ◌+◌, ◌-◌, ◌^◌, ◌≤◌, ◌<◌, ◌≡◌, ◌≢◌, ◌∙◌, ap, refl, true, false, List, [], ◌∷◌, ltb,
  if◌then◌else◌, arith, ok, Bool-cases, inl, inr, ltb→lt, u32, sub32, write,
}
use bit_simple_kernel.Heap.{
  Header, Heap, heap_start, header_size, u31, fits, split_chunk, take_chunk,
}
use bit_simple_kernel.Heap.Blocks.{Block, block, link, end, end-le, Chain, Chain-frame}
use bit_simple_kernel.Heap.Access.{upd, with_headers, load-ok, store-ok, update-ok}
use bit_simple_kernel.Heap.Find.{is_fit, found_at}

-- The blocks after `kmalloc` of a chunk of `len` bytes: first fit, or a new block at the end.
abbrev pub place : ℕ → List Block → List Block
place len [] = block true len ∷ []
place len (b ∷ bs) =
    if is_fit len b
    then (if ltb header_size (b.size - len)
        then block true len ∷ block false (b.size - len) ∷ bs
        else block true b.size ∷ bs)
    else b ∷ place len bs

-- Where that block starts.
abbrev pub placed_at : ℕ → ℕ → List Block → ℕ
placed_at len p [] = p
placed_at len p (b ∷ bs) = if is_fit len b then p else placed_at len (p + b.size) bs

-- The header that `split_chunk` writes behind the chunk.
abbrev pub rest_header : (ℕ → Header) → ℕ → ℕ → Header
rest_header h len cur = record {
  prev = cur;
  next = (h cur).next;
  allocated = false;
  length = (h cur).length - len;
}

-- The headers after the branch has run.
pub taken : (ℕ → Header) → ℕ → ℕ → ℕ → Header
taken h len cur =
    if ltb header_size ((h cur).length - len)
    then upd
        (upd (write h (cur + len) (rest_header h len cur)) cur
          (λ g. record g { next = cur + len; length = len }))
        cur (λ g. record g { allocated = true })
    else upd h cur (λ g. record g { allocated = true })

pub take_chunk-ok :
    (len cur : ℕ) (s : Heap)
    → heap_start ≤ cur
    → header_size ≤ len
    → len ≤ (s.headers cur).length
    → (s.headers cur).length < 2 ^ 31
    → cur + (s.headers cur).length ≤ s.heap_max
    → s.heap_max < 2 ^ 32
    → take_chunk len cur s ≡ ok (cur + header_size) (with_headers s (taken s.headers len cur))
unfolding take_chunk split_chunk taken
take_chunk-ok len cur s above big fit small inside top =
    let n = (s.headers cur).length in
    let room : cur + header_size ≤ s.heap_max = omega arith in
    let result : u32 (cur + header_size) ≡ cur + header_size = omega arith in
    let rest : sub32 n len ≡ n - len = omega arith in
    let next : u32 (cur + len) ≡ cur + len = omega arith in
    let rest31 : u31 (n - len) ≡ n - len = omega arith in
    let len31 : u31 len ≡ len = omega arith in
    rw (load-ok cur s above room, rest, next, rest31, len31, result)
      (elim (Bool-cases (ltb header_size (n - len))) [
        | inl cut ↦
            let behind : cur + len + header_size ≤ s.heap_max = omega (arith, ltb→lt _ _ cut) in
            let s₁ = with_headers s (write s.headers (cur + len) (rest_header s.headers len cur)) in
            let f : Header → Header = λ g. record g { next = cur + len; length = len } in
            let s₂ = with_headers s₁ (upd s₁.headers cur f) in
            rw cut (
              rw
                (
                  store-ok (cur + len) s (omega arith) behind (rest_header s.headers len cur),
                  update-ok cur s₁ above room f,
                  update-ok cur s₂ above room (λ g. record g { allocated = true }),
                )
                refl)
        | inr whole ↦
            rw whole (rw (update-ok cur s above room (λ g. record g { allocated = true })) refl)
      ])

-- What the branch leaves at the chunk, behind it, and elsewhere.
pub taken_self :
    (h : ℕ → Header) (len cur : ℕ)
    → header_size ≤ len
    → taken h len cur cur ≡ (
        if ltb header_size ((h cur).length - len)
        then record { prev = (h cur).prev; next = cur + len; allocated = true; length = len }
        else record (h cur) { allocated = true })
unfolding taken write
taken_self h len cur big = ground arith

pub taken_rest :
    (h : ℕ → Header) (len cur : ℕ)
    → header_size ≤ len
    → ltb header_size ((h cur).length - len) ≡ true
    → taken h len cur (cur + len) ≡ rest_header h len cur
unfolding taken write
taken_rest h len cur big cut = ground arith

pub taken_other :
    (h : ℕ → Header) (len cur a : ℕ)
    → a ≢ cur
    → (ltb header_size ((h cur).length - len) ≡ true → a ≢ cur + len)
    → taken h len cur a ≡ h a
unfolding taken write
taken_other h len cur a ne behind = ground arith

-- Placing a block does not move the start of a list that has blocks.
pub link-place : (len p : ℕ) (b : Block) (xs : List Block) → p ≡ link p (place len (b ∷ xs))
link-place len p b xs = elim (Bool-cases (is_fit len b)) [
  | inl hit ↦ rw hit (elim (Bool-cases (ltb header_size (b.size - len))) [
    | inl cut ↦ rw cut refl
    | inr whole ↦ rw whole refl
  ])
  | inr miss ↦ rw miss refl
]

pub link-place_hit :
    (len q p : ℕ) (xs : List Block) {cur : ℕ}
    → found_at len q p xs ≡ fits cur
    → link p xs ≡ link p (place len xs)
link-place_hit len q p [] e = absurd (cc)
link-place_hit len q p (b ∷ xs) e = link-place len p b xs

-- Nor does it move the end of a list that has a fit.
pub end-place :
    (len q p : ℕ) (xs : List Block) {cur : ℕ}
    → found_at len q p xs ≡ fits cur
    → end p (place len xs) ≡ end p xs
end-place len q p [] e = absurd (cc)
end-place len q p (b ∷ xs) e = elim (Bool-cases (is_fit len b)) [
  | inl hit ↦ rw hit (elim (Bool-cases (ltb header_size (b.size - len))) [
    | inl cut ↦ rw cut (let fit : len ≤ b.size = ground arith in ap (λ a. end a xs) (omega arith))
    | inr whole ↦ rw whole refl
  ])
  | inr miss ↦ rw miss (end-place len p (p + b.size) xs (rw miss at e))
]

-- Facts about the chunk that the search found in a list at `p`.
pub record IsHit (h : ℕ → Header) (len p : ℕ) (xs : List Block) (cur : ℕ) : Type 0 where
  pub after : p ≤ cur
  pub within : cur + (h cur).length ≤ end p xs
  pub long : len ≤ (h cur).length
  pub place_eq : placed_at len p xs ≡ cur

module _ (h : ℕ → Header) (len : ℕ) (big : header_size ≤ len) where
  pub found-IsHit :
      (q p : ℕ) (xs : List Block) (cur : ℕ)
      → Chain h p xs
      → found_at len q p xs ≡ fits cur
      → IsHit h len p xs cur
  found-IsHit q p [] cur c e = cc
  found-IsHit q p (b ∷ xs) cur c e = elim (Bool-cases (is_fit len b)) [
    | inl hit ↦
        let first : fits p ≡ fits cur = rw hit at e in
        let same : p ≡ cur = cc in
        let long : len ≤ b.size = ground arith in
        rw (← same) (record {
          after = omega arith;
          within = omega (arith, end-le h (p + b.size) xs c.4, c.1);
          long = omega (arith, c.1);
          place_eq = rw hit refl;
        })
    | inr miss ↦
        let i = found-IsHit p (p + b.size) xs cur c.4 (rw miss at e) in
        record {
          after = omega (arith, i.after);
          within = i.within;
          long = i.long;
          place_eq = rw miss i.place_eq;
        }
  ]

  taken_tail :
      (p : ℕ) (b : Block) (xs : List Block)
      → Chain h p (b ∷ xs)
      → len ≤ b.size
      → Chain (taken h len p) (p + b.size) xs
  taken_tail p b xs c fit = Chain-frame h (taken h len p) (p + b.size) xs c.4 (λ a lo hi.
      taken_other h len p a (omega (arith, c.3)) (λ cut. omega (arith, ltb→lt _ _ cut, c.1)))

  -- The chunk that is found, with and without a rest.
  cut-Chain :
      (p : ℕ) (b : Block) (xs : List Block)
      → Chain h p (b ∷ xs)
      → len ≤ b.size
      → ltb header_size (b.size - len) ≡ true
      → Chain (taken h len p) p (block true len ∷ block false (b.size - len) ∷ xs)
  cut-Chain p b xs c fit cut =
      let long : ltb header_size ((h p).length - len) ≡ true = rw c.1 cut in
      let next : p + len + (b.size - len) ≡ p + b.size = omega arith in
      rw (taken_self h len p big, long, taken_rest h len p big long, next)
        (
          refl,
          refl,
          refl,
          big,
          (
            refl,
            ap (λ (n : ℕ). n - len) c.1,
            c.2,
            omega (arith, ltb→lt _ _ cut),
            taken_tail p b xs c fit,
          ),
        )

  whole-Chain :
      (p : ℕ) (b : Block) (xs : List Block)
      → Chain h p (b ∷ xs)
      → len ≤ b.size
      → ltb header_size (b.size - len) ≡ false
      → Chain (taken h len p) p (block true b.size ∷ xs)
  whole-Chain p b xs c fit whole =
      let short : ltb header_size ((h p).length - len) ≡ false = rw c.1 whole in
      rw (taken_self h len p big, short) (refl, c.1, c.2, c.3, taken_tail p b xs c fit)

  -- The headers hold the list with the block placed.
  pub taken-Chain :
      (q p : ℕ) (xs : List Block) (cur : ℕ)
      → Chain h p xs
      → found_at len q p xs ≡ fits cur
      → Chain (taken h len cur) p (place len xs)
  taken-Chain q p [] cur c e = absurd (cc)
  taken-Chain q p (b ∷ xs) cur c e = elim (Bool-cases (is_fit len b)) [
    | inl hit ↦
        let first : fits p ≡ fits cur = rw hit at e in
        let same : p ≡ cur = cc in
        let fit : len ≤ b.size = ground arith in
        rw (← same, hit)
          (elim (Bool-cases (ltb header_size (b.size - len))) [
            | inl cut ↦ rw cut (cut-Chain p b xs c fit cut)
            | inr whole ↦ rw whole (whole-Chain p b xs c fit whole)
          ])
    | inr miss ↦
        let rest : found_at len p (p + b.size) xs ≡ fits cur = rw miss at e in
        let k = found-IsHit p (p + b.size) xs cur c.4 rest in
        let here : taken h len cur p ≡ h p =
          taken_other h len cur p (omega (arith, k.after, c.3))
            (λ _. omega (arith, k.after, c.3)) in
        rw (miss, here)
          (
            c.0,
            c.1,
            c.2 ∙ link-place_hit len p (p + b.size) xs rest,
            c.3,
            taken-Chain p (p + b.size) xs cur c.4 rest,
          )
  ]
