-- ===== src/Heap/Merge.antt =====
-- The second part of `glue_chunk` of src/mm/heap.c: a block is taken in by the free block before it.
use bit_simple_kernel.Prelude.{
  ℕ, ◌+◌, ◌^◌, ◌≤◌, ◌<◌, ◌==◌, ◌≡◌, ◌≢◌, ◌∙◌, sym, ap, true, false, List, [], ◌∷◌, arith, ok, Run,
}
use native.Mathlib.Decide.{ℕ_discrete}
use bit_simple_kernel.Heap.{Header, Heap, heap_start, glue_prev, u31}
use bit_simple_kernel.Heap.Blocks.{Block, end}
use bit_simple_kernel.Heap.Access.{upd, upd_self, upd_ne, with_headers, load-ok, update-ok}
use bit_simple_kernel.Heap.Zip.{IsZip}
use bit_simple_kernel.Heap.Glue.{
  IsMapped, last-IsZip, inner-IsZip, longer, linked, linked_back, far, skip, point_back, far_link,
}
use bit_simple_kernel.Heap.Absorb.{Leaves, here-IsMapped, next-IsMapped, far-IsMapped}

-- Changes of two headers in either order.
upd_comm :
    (h : ℕ → Header) (p q : ℕ) (f g : Header → Header)
    → p ≢ q
    → upd (upd h p f) q g ≡ upd (upd h q g) p f
upd_comm h p q f g ne = λ i a. same a i
  where
    same : (a : ℕ) → upd (upd h p f) q g a ≡ upd (upd h q g) p f a
    same a = elim (ℕ_discrete a p) [
      | yes e ↦ rw e (
          upd_ne (upd h p f) q g p ne
          ∙ upd_self h p f
          ∙ ap f (sym (upd_ne h q g p ne))
          ∙ sym (upd_self (upd h q g) p f))
      | no ap' ↦ elim (ℕ_discrete a q) [
        | yes e ↦ rw e (
            upd_self (upd h p f) q g
            ∙ ap g (upd_ne h p f q (λ r. ne (sym r)))
            ∙ sym (upd_self h q g)
            ∙ sym (upd_ne (upd h q g) p f q (λ r. ne (sym r))))
        | no aq ↦
            upd_ne (upd h p f) q g a aq
            ∙ upd_ne h p f a ap'
            ∙ sym (upd_ne h q g a aq)
            ∙ sym (upd_ne (upd h q g) p f a ap')
      ]
    ]

-- `glue_prev` on a chunk at `q` behind a free one at `p`.
module _ (pgd : ℕ) (s : Heap) (p q : ℕ) where
  abbrev grown : (ℕ → Header) → ℕ → Header
  grown h = upd h p (λ r. record r { length = u31 (r.length + (s.headers q).length) })

  abbrev skipped : (ℕ → Header) → ℕ → Header
  skipped h = upd h p (λ r. record r { next = (s.headers q).next })

  grown-linked :
      (s.headers p).next ≡ q → linked 0 s p (longer 0 s p s.headers) ≡ skipped (grown s.headers)
  grown-linked e =
      ap
        (λ (k : ℕ).
          upd (upd s.headers p (λ r. record r { length = u31 (r.length + (s.headers k).length) })) p
            (λ r. record r { next = (s.headers k).next }))
        e

  module _ (here : IsMapped s q) (there : IsMapped s p) (back : (s.headers q).prev ≡ p)
      (unused : (s.headers p).allocated ≡ false) where
    not_null : (p == 0) ≡ false
    not_null = ground (arith, there.above)

    glue_prev-last :
        (r : Run Heap ℕ)
        → (s.headers q).next ≡ 0
        → ok p (with_headers s (skipped (grown s.headers))) ≡ r
        → glue_prev pgd q s ≡ r
    unfolding glue_prev
    glue_prev-last r e result =
        let null : ((s.headers q).next == 0) ≡ true = ground (arith, e) in
        rw
          (
            load-ok q s here.above here.below,
            back,
            not_null,
            load-ok p s there.above there.below,
            unused,
            update-ok p s there.above there.below,
            update-ok p (with_headers s (grown s.headers)) there.above there.below,
            null,
          )
          result

    glue_prev-inner :
        (r : Run Heap ℕ)
        → IsMapped s (s.headers q).next
        → ok p (
            with_headers s
              (upd (skipped (grown s.headers)) (s.headers q).next (λ g. record g { prev = p })))
          ≡ r
        → glue_prev pgd q s ≡ r
    unfolding glue_prev
    glue_prev-inner r m result =
        let more : ((s.headers q).next == 0) ≡ false = ground (arith, m.above) in
        rw
          (
            load-ok q s here.above here.below,
            back,
            not_null,
            load-ok p s there.above there.below,
            unused,
            update-ok p s there.above there.below,
            update-ok p (with_headers s (grown s.headers)) there.above there.below,
            more,
            update-ok (s.headers q).next (with_headers s (skipped (grown s.headers))) m.above
                m.below,
          )
          result

-- The same, for a block of the list behind a free one.
module _ (pgd : ℕ) (s : Heap) (xs : List Block) (a b : Block) (small : s.heap_max < 2 ^ 32) where
  abbrev at_prev : ℕ
  at_prev = end heap_start xs

  abbrev at_this : ℕ
  at_this = at_prev + a.size

  pub prev-free :
      (ys : List Block)
      → IsZip s.headers xs a (b ∷ ys)
      → (s.headers at_this).prev ≡ at_prev
      → end (at_this + b.size) ys ≤ s.heap_max
      → a.used ≡ false
      → Leaves (glue_prev pgd at_this s) at_prev s xs (record a { size = a.size + b.size }) ys
  prev-free [] z back inside u =
      let this : IsMapped s at_this = rw (← z.next) (next-IsMapped s xs a b [] z inside) in
      (
        linked 0 s at_prev (longer 0 s at_prev s.headers),
        glue_prev-last pgd s at_prev at_this this (here-IsMapped s xs a (b ∷ []) z inside) back
            (z.allocated ∙ u) _ z.after.2
            (ap (λ (h : ℕ → Header). ok at_prev (with_headers s h))
              (sym (grown-linked pgd s at_prev at_this z.next))),
        last-IsZip s xs a b z inside small,
      )
  prev-free (e ∷ es) z back inside u =
      let ys = e ∷ es in
      let this : IsMapped s at_this = rw (← z.next) (next-IsMapped s xs a b ys z inside) in
      let p = at_prev in
      let h₁ = longer 0 s p s.headers in
      let follows : (s.headers (s.headers p).next).next ≡ (s.headers at_this).next =
        ap (λ (k : ℕ). (s.headers k).next) z.next in
      let apart : p ≢ far 0 s p =
        λ q. omega (arith, q, far_link s xs a b ys z inside small, z.long) in
      (
        linked 0 s p (linked_back 0 s p h₁),
        glue_prev-inner pgd s p at_this this (here-IsMapped s xs a (b ∷ ys) z inside) back
            (z.allocated ∙ u) _ (rw (← follows) (far-IsMapped s xs a b e es z inside small))
            (ap (λ (h : ℕ → Header). ok p (with_headers s h))
              (ap (λ (h : ℕ → Header). upd h (s.headers at_this).next (point_back 0 s p))
                  (sym (grown-linked pgd s p at_this z.next))
                ∙ ap (λ (k : ℕ). upd (linked 0 s p h₁) k (point_back 0 s p)) (sym follows)
                ∙ upd_comm h₁ p (far 0 s p) (skip 0 s p) (point_back 0 s p) apart)),
        inner-IsZip s xs a b e es z inside small,
      )
