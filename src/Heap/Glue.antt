-- ===== src/Heap/Glue.antt =====
-- What `glue_chunk` of src/mm/heap.c does to the list of blocks.
use bit_simple_kernel.Prelude.{
  ℕ, ◌+◌, ◌^◌, ◌≤◌, ◌<◌, ◌==◌, ◌≡◌, ◌≢◌, ◌∙◌, sym, ap, refl, Bool, true, false, List, [], ◌∷◌,
  arith, ok, if◌then◌else◌, write_self, write_ne,
}
use bit_simple_kernel.Heap.{Header, Heap, heap_start, header_size, glue_next, u31}
use bit_simple_kernel.Heap.Blocks.{Block, link, end, Chain, Backs, end-ge, Chain-frame, Backs-frame}
use bit_simple_kernel.Heap.Access.{upd, upd_self, upd_ne, with_headers, load-ok, update-ok}
use bit_simple_kernel.Heap.Zip.{IsZip, ChainTo-frame, Backs-frame_below}

-- New headers from `p` on, for a block in place of `b` and what is behind it.
pub IsZip-write :
    (h g : ℕ → Header) (xs : List Block) (b c : Block) (ys zs : List Block)
    → IsZip h xs b ys
    → ((a : ℕ) → a < end heap_start xs → g a ≡ h a)
    → (g (end heap_start xs) ≡ record (h (end heap_start xs)) {
      allocated = c.used;
      length = c.size;
      next = link (end heap_start xs + c.size) zs;
    })
    → header_size ≤ c.size
    → Chain g (end heap_start xs + c.size) zs
    → Backs g (end heap_start xs) (end heap_start xs + c.size) zs
    → IsZip g xs c zs
IsZip-write h g xs b c ys zs z below here long chain backs = record {
  before = ChainTo-frame h g heap_start xs (end heap_start xs) z.before below;
  before_backs =
      Backs-frame_below h g 0 heap_start xs (end heap_start xs) z.before z.before_backs below;
  allocated = ap (λ (r : Header). r.allocated) here;
  length = ap (λ (r : Header). r.length) here;
  next = ap (λ (r : Header). r.next) here;
  prev = ap (λ (r : Header). r.prev) here ∙ z.prev;
  long = long;
  after = chain;
  after_backs = backs;
}

-- The block is marked free.
abbrev pub free : Block → Block
free b = record b { used = false }

pub mark-IsZip :
    (h : ℕ → Header) (xs : List Block) (b : Block) (ys : List Block)
    → IsZip h xs b ys
    → IsZip (upd h (end heap_start xs) (λ r. record r { allocated = false })) xs (free b) ys
mark-IsZip h xs b ys z =
    let p = end heap_start xs in
    let g = upd h p (λ r. record r { allocated = false }) in
    let away : (a : ℕ) → a ≢ p → g a ≡ h a = λ a ne. write_ne h p _ a ne in
    IsZip-write h g xs b (free b) ys ys z (λ a l. away a (λ e. omega arith))
      (write_self h p _ ∙ rw (z.length, z.next) refl) z.long
      (Chain-frame h g (p + b.size) ys z.after (λ a l k. away a (λ e. omega (arith, z.long))))
      (Backs-frame h g p (p + b.size) ys z.after z.after_backs
        (λ a l k. away a (λ e. omega (arith, z.long))))

-- A free block takes in the one behind it if that is free.
abbrev pub absorbed : Block → List Block → Block
absorbed b [] = b
absorbed b (c ∷ cs) = if c.used then b else record b { size = b.size + c.size }

abbrev pub absorbed_rest : List Block → List Block
absorbed_rest [] = []
absorbed_rest (c ∷ cs) = if c.used then c ∷ cs else cs

-- An address at which a header is mapped.
pub record IsMapped (s : Heap) (p : ℕ) : Type 0 where
  pub above : heap_start ≤ p
  pub below : p + header_size ≤ s.heap_max

-- `glue_next` on a chunk that is followed by a free one.
module _ (pgd : ℕ) (s : Heap) (p : ℕ) where
  abbrev pub behind : ℕ
  behind = (s.headers p).next

  abbrev pub far : ℕ
  far = (s.headers behind).next

  abbrev pub grow : Header → Header
  grow r = record r { length = u31 (r.length + (s.headers behind).length) }

  abbrev pub point_back : Header → Header
  point_back r = record r { prev = p }

  abbrev pub skip : Header → Header
  skip r = record r { next = far }

  abbrev pub longer : (ℕ → Header) → ℕ → Header
  longer h = upd h p grow

  abbrev pub linked_back : (ℕ → Header) → ℕ → Header
  linked_back h = upd h far point_back

  abbrev pub linked : (ℕ → Header) → ℕ → Header
  linked h = upd h p skip

  module _ (here : IsMapped s p) (there : IsMapped s behind)
      (unused : (s.headers behind).allocated ≡ false) where
    not_null : (behind == 0) ≡ false
    not_null = ground (arith, there.above)

    pub glue_next-last :
        far ≡ 0 → glue_next pgd p s ≡ ok tt (with_headers s (linked (longer s.headers)))
    unfolding glue_next
    glue_next-last e =
        let null : (far == 0) ≡ true = ground (arith, e) in
        rw
          (
            load-ok p s here.above here.below,
            not_null,
            load-ok behind s there.above there.below,
            unused,
            update-ok p s here.above here.below,
            null,
            update-ok p (with_headers s (longer s.headers)) here.above here.below,
          )
          refl

    pub glue_next-inner :
        IsMapped s far
        → glue_next pgd p s ≡ ok tt (with_headers s (linked (linked_back (longer s.headers))))
    unfolding glue_next
    glue_next-inner m =
        let more : (far == 0) ≡ false = ground (arith, m.above) in
        rw
          (
            load-ok p s here.above here.below,
            not_null,
            load-ok behind s there.above there.below,
            unused,
            update-ok p s here.above here.below,
            more,
            update-ok far (with_headers s (longer s.headers)) m.above m.below,
            update-ok p (with_headers s (linked_back (longer s.headers))) here.above here.below,
          )
          refl

-- A header with three of its fields set.
changed :
    (r : Header) (u : Bool) (n m l k : ℕ)
    → r.allocated ≡ u
    → n ≡ m
    → l ≡ k
    → record r { length = n; next = l } ≡ record r { allocated = u; length = m; next = k }
changed r u n m l k e f g = rw (← e, f, g) refl

-- What the headers are then.
module _ (s : Heap) (xs : List Block) (b c : Block) where
  abbrev pub at : ℕ
  at = end heap_start xs

  abbrev pub joined : Block
  joined = record b { size = b.size + c.size }

  module _ (ys : List Block) (z : IsZip s.headers xs b (c ∷ ys))
      (mapped : end (at + b.size + c.size) ys ≤ s.heap_max) (small : s.heap_max < 2 ^ 32) where
    sum_small :
        u31 ((s.headers at).length + (s.headers (s.headers at).next).length) ≡ b.size + c.size
    sum_small =
        rw (z.next, z.length, z.after.1)
          (omega (arith, mapped, small, end-ge heap_start xs, end-ge (at + b.size + c.size) ys))

    pub far_link : (s.headers (s.headers at).next).next ≡ link (at + joined.size) ys
    far_link = rw z.next (z.after.2 ∙ ap (λ (k : ℕ). link k ys) (omega arith))

  pub last-IsZip :
      IsZip s.headers xs b (c ∷ [])
      → at + b.size + c.size ≤ s.heap_max
      → s.heap_max < 2 ^ 32
      → IsZip (linked 0 s at (longer 0 s at s.headers)) xs joined []
  last-IsZip z mapped small =
      let h₁ = longer 0 s at s.headers in
      let here =
        upd_self h₁ at (skip 0 s at)
        ∙ ap (λ (r : Header). record r { next = far 0 s at }) (upd_self s.headers at (grow 0 s at))
        ∙ changed (s.headers at) b.used
            (u31 ((s.headers at).length + (s.headers (s.headers at).next).length)) joined.size
            (far 0 s at) 0 z.allocated (sum_small [] z mapped small) (far_link [] z mapped small) in
      IsZip-write s.headers (linked 0 s at h₁) xs b joined (c ∷ []) [] z
        (λ a l.
          upd_ne h₁ at (skip 0 s at) a (λ e. omega arith)
          ∙ upd_ne s.headers at (grow 0 s at) a (λ e. omega arith))
        here (omega (arith, z.long)) tt tt

  pub inner-IsZip :
      (e : Block) (es : List Block)
      → IsZip s.headers xs b (c ∷ e ∷ es)
      → end (at + b.size + c.size + e.size) es ≤ s.heap_max
      → s.heap_max < 2 ^ 32
      → IsZip (linked 0 s at (linked_back 0 s at (longer 0 s at s.headers))) xs joined (e ∷ es)
  inner-IsZip e es z mapped small =
      let ys = e ∷ es in
      let h₁ = longer 0 s at s.headers in
      let h₂ = linked_back 0 s at h₁ in
      let g = linked 0 s at h₂ in
      let d = at + joined.size in
      let link_is : far 0 s at ≡ d = far_link ys z mapped small in
      let apart : at ≢ far 0 s at = λ q. omega (arith, link_is, z.long, q) in
      let other : (a : ℕ) → a ≢ at → a ≢ far 0 s at → g a ≡ s.headers a = λ a q r.
        upd_ne h₂ at (skip 0 s at) a q
        ∙ upd_ne h₁ (far 0 s at) (point_back 0 s at) a r
        ∙ upd_ne s.headers at (grow 0 s at) a q in
      let here =
        upd_self h₂ at (skip 0 s at)
        ∙ ap (λ (r : Header). record r { next = far 0 s at })
            (upd_ne h₁ (far 0 s at) (point_back 0 s at) at apart
              ∙ upd_self s.headers at (grow 0 s at))
        ∙ changed (s.headers at) b.used
            (u31 ((s.headers at).length + (s.headers (s.headers at).next).length)) joined.size
            (far 0 s at) d z.allocated (sum_small ys z mapped small) link_is in
      let there : g d ≡ record (s.headers d) { prev = at } = rw (← link_is) (
        upd_ne h₂ at (skip 0 s at) (far 0 s at) (λ q. apart (sym q))
        ∙ upd_self h₁ (far 0 s at) (point_back 0 s at)
        ∙ ap (λ (r : Header). record r { prev = at })
            (upd_ne s.headers at (grow 0 s at) (far 0 s at) (λ q. apart (sym q)))) in
      let place : at + b.size + c.size ≡ d = omega arith in
      let chain : Chain s.headers d ys = rw (← place) z.after.4 in
      let backs : Backs s.headers (at + b.size) d ys = rw (← place) z.after_backs.1 in
      let beyond : (a : ℕ) → d < a → g a ≡ s.headers a =
        λ a l. other a (λ q. omega (arith, z.long)) (λ q. omega (arith, link_is)) in
      IsZip-write s.headers g xs b joined (c ∷ ys) ys z
        (λ a l. other a (λ q. omega arith) (λ q. omega (arith, link_is))) here
        (omega (arith, z.long))
        (
          ap (λ (r : Header). r.allocated) there ∙ chain.0,
          ap (λ (r : Header). r.length) there ∙ chain.1,
          ap (λ (r : Header). r.next) there ∙ chain.2,
          chain.3,
          Chain-frame s.headers g (d + e.size) es chain.4
              (λ a l k. beyond a (omega (arith, chain.3))),
        )
        (
          ap (λ (r : Header). r.prev) there,
          Backs-frame s.headers g d (d + e.size) es chain.4 backs.1
              (λ a l k. beyond a (omega (arith, chain.3))),
        )
