-- ===== src/Heap/Access.antt =====
-- Reads and writes of headers that lie in the mapped part of the heap.
use bit_simple_kernel.Prelude.{
  ℕ, ◌+◌, ◌≤◌, ◌≡◌, refl, true, write, write_self, write_ne, ◌≢◌, arith, ok,
}
use bit_simple_kernel.Heap.{Header, Heap, heap_start, header_size, is_mapped, load, store, update}

abbrev pub upd : (ℕ → Header) → ℕ → (Header → Header) → ℕ → Header
upd h p f = write h p (f (h p))

pub upd_self : (h : ℕ → Header) (p : ℕ) (f : Header → Header) → upd h p f p ≡ f (h p)
upd_self h p f = write_self h p (f (h p))

pub upd_ne : (h : ℕ → Header) (p : ℕ) (f : Header → Header) (a : ℕ) → a ≢ p → upd h p f a ≡ h a
upd_ne h p f a ne = write_ne h p (f (h p)) a ne

abbrev pub with_headers : Heap → (ℕ → Header) → Heap
with_headers s h = record s { headers = h }

pub mapped :
    (p : ℕ) (s : Heap) → heap_start ≤ p → p + header_size ≤ s.heap_max → is_mapped p s ≡ true
mapped p s a b = ground arith

module _ (p : ℕ) (s : Heap) (above : heap_start ≤ p) (below : p + header_size ≤ s.heap_max) where
  pub load-ok : load p s ≡ ok (s.headers p) s
  unfolding load
  load-ok = rw (mapped p s above below) refl

  pub store-ok : (h : Header) → store p h s ≡ ok tt (with_headers s (write s.headers p h))
  unfolding store
  store-ok h = rw (mapped p s above below) refl

  pub update-ok : (f : Header → Header) → update p f s ≡ ok tt (with_headers s (upd s.headers p f))
  unfolding update
  update-ok f = rw load-ok (store-ok (f (s.headers p)))
