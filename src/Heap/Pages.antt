-- ===== src/Heap/Pages.antt =====
-- `kfree` of src/mm/heap.c gives pages back and takes none.
use bit_simple_kernel.Prelude.{
  ℕ, zero, suc, ◌+◌, ◌≤◌, ◌==◌, ◌≡◌, refl, inl, inr, Bool, true, false, arith, sub32, leb,
  Bool-cases, if◌then◌else◌, Run, ok, panic, fault, out_of_fuel, Cmd, and_then, ◌>>=◌, pure, Option,
  none, some, write, pmm_stack_full, zoom-ok, zoom-panic,
}
use bit_simple_kernel.Pmm.{Pmm, page_max_size, pmm_free_page}
use bit_simple_kernel.Vmm.{Machine, on_pmm, unmap, get_mapping, page_size}
use bit_simple_kernel.Heap.{
  Header, Heap, u31, is_mapped, load, store, update, on_machine, set_first, heap_fuel, header_size,
  give_back, drop_page, drop_pages, free_chunk, glue_next, glue_prev, glue_chunk, kfree,
}

-- A run that ends without an error leaves as many free pages as there were, or more.
abbrev Rises : {A : Type 0} → Heap → Run Heap A → Type 0
Rises s (ok _ t) = s.machine.pmm.stack_top ≤ t.machine.pmm.stack_top
Rises s _ = Unit {0}

abbrev Keeps : {A : Type 0} → Cmd Heap A → Type 0
Keeps m = (s : Heap) → Rises s (m s)

Rises-from :
    {B : Type 0} (s t : Heap) (r : Run Heap B)
    → s.machine.pmm.stack_top ≤ t.machine.pmm.stack_top
    → Rises t r
    → Rises s r
Rises-from s t (ok b u) h k = omega (arith, h, k)
Rises-from s t (panic p) h k = tt
Rises-from s t fault h k = tt
Rises-from s t out_of_fuel h k = tt

Rises-bind :
    {A B : Type 0} (s : Heap) (r : Run Heap A) (k : A → Cmd Heap B)
    → Rises s r
    → ((a : A) → Keeps (k a))
    → Rises s (and_then r k)
Rises-bind s (ok a t) k h f = Rises-from s t (k a t) h (f a t)
Rises-bind s (panic p) k h f = tt
Rises-bind s fault k h f = tt
Rises-bind s out_of_fuel k h f = tt

Rises-if :
    {A : Type 0} (s : Heap) (b : Bool) (l r : Run Heap A)
    → Rises s l
    → Rises s r
    → Rises s (if b then l else r)
Rises-if s true l r h k = h
Rises-if s false l r h k = k

Keeps-bind :
    {A B : Type 0} (m : Cmd Heap A) (k : A → Cmd Heap B)
    → Keeps m
    → ((a : A) → Keeps (k a))
    → Keeps (m >>= k)
Keeps-bind m k h f s = Rises-bind s (m s) k (h s) f

Keeps-if :
    {A : Type 0} (b : Bool) (l r : Cmd Heap A) → Keeps l → Keeps r → Keeps (if b then l else r)
Keeps-if true l r h k = h
Keeps-if false l r h k = k

load-Keeps : (p : ℕ) → Keeps (load p)
unfolding load
load-Keeps p s = Rises-if s (is_mapped p s) (ok (s.headers p) s) fault (omega arith) tt

store-Keeps : (p : ℕ) (h : Header) → Keeps (store p h)
unfolding store
store-Keeps p h s = Rises-if s (is_mapped p s) _ fault (omega arith) tt

update-Keeps : (p : ℕ) (f : Header → Header) → Keeps (update p f)
unfolding update
update-Keeps p f =
    Keeps-bind (load p) (λ h. store p (f h)) (load-Keeps p) (λ h. store-Keeps p (f h))

pure-Keeps : {A : Type 0} (a : A) → Keeps (pure a)
pure-Keeps a s = omega arith

unmap-pages : (pgd va : ℕ) (m : Machine) → (unmap pgd va m).pmm.stack_top ≡ m.pmm.stack_top
unfolding unmap
unmap-pages pgd va m = ground arith

on_pages-Keeps : (page : ℕ) → Keeps (on_machine (on_pmm (pmm_free_page page)))
on_pages-Keeps page s =
    let m = s.machine in
    let to_heap : Machine → Heap → Heap = λ k h. record h { machine = k } in
    let to_machine : Pmm → Machine → Machine = λ q k. record k { pmm = q } in
    elim (Bool-cases (m.pmm.stack_top == page_max_size)) [
      | inl full ↦
          let stop : pmm_free_page page m.pmm ≡ panic pmm_stack_full =
            unfold pmm_free_page in rw full refl in
          rw
            (zoom-panic (λ (h : Heap). h.machine) to_heap (on_pmm (pmm_free_page page)) s
              (zoom-panic (λ (k : Machine). k.pmm) to_machine (pmm_free_page page) m stop))
            tt
      | inr space ↦
          let more : Pmm = record m.pmm {
            stack = write m.pmm.stack (m.pmm.stack_top + 1) page;
            stack_top = m.pmm.stack_top + 1;
          } in
          let run : pmm_free_page page m.pmm ≡ ok tt more = unfold pmm_free_page in rw space refl in
          rw
            (zoom-ok (λ (h : Heap). h.machine) to_heap (on_pmm (pmm_free_page page)) s
              (zoom-ok (λ (k : Machine). k.pmm) to_machine (pmm_free_page page) m run))
            (omega arith)
    ]

give_back-Keeps : (pgd last : ℕ) (page : Option ℕ) → Keeps (give_back pgd last page)
unfolding give_back
give_back-Keeps pgd last none s = tt
give_back-Keeps pgd last (some page) s =
    let t : Heap = record s { machine = unmap pgd last s.machine; heap_max = last } in
    Rises-from s t (on_machine (on_pmm (pmm_free_page page)) t)
      (omega (arith, unmap-pages pgd last s.machine)) (on_pages-Keeps page t)

drop_pages-Keeps : (pgd fuel chunk : ℕ) → Keeps (drop_pages pgd fuel chunk)
unfolding drop_pages drop_page
drop_pages-Keeps pgd zero chunk s = tt
drop_pages-Keeps pgd (suc fuel) chunk s =
    let last = sub32 s.heap_max page_size in
    Rises-if s (leb chunk last) (and_then (drop_page pgd s) λ _. drop_pages pgd fuel chunk)
      (ok tt s)
      (Rises-bind s (drop_page pgd s) (λ _. drop_pages pgd fuel chunk)
        (give_back-Keeps pgd last (get_mapping pgd last true s.machine).pa s)
        (λ _. drop_pages-Keeps pgd fuel chunk))
      (omega arith)

free_chunk-Keeps : (pgd chunk : ℕ) → Keeps (free_chunk pgd chunk)
unfolding free_chunk
free_chunk-Keeps pgd chunk = Keeps-bind (load chunk) _ (load-Keeps chunk) (λ h.
    Keeps-bind (if h.prev == 0 then set_first 0 else update h.prev (λ g. record g { next = 0 })) _
      (Keeps-if (h.prev == 0) (set_first 0) (update h.prev (λ g. record g { next = 0 }))
        (λ s. omega arith) (update-Keeps h.prev (λ g. record g { next = 0 })))
      (λ _. drop_pages-Keeps pgd heap_fuel chunk))

glue_next-Keeps : (pgd chunk : ℕ) → Keeps (glue_next pgd chunk)
unfolding glue_next
glue_next-Keeps pgd chunk = Keeps-bind (load chunk) _ (load-Keeps chunk) (λ h.
    Keeps-if (h.next == 0) (pure tt) _ (pure-Keeps tt) (
      Keeps-bind (load h.next) _ (load-Keeps h.next) (λ n.
        Keeps-if n.allocated (pure tt) _ (pure-Keeps tt) (
          Keeps-bind (update chunk (λ g. record g { length = u31 (g.length + n.length) })) _
            (update-Keeps chunk (λ g. record g { length = u31 (g.length + n.length) }))
            (λ _.
              Keeps-bind
                (if n.next == 0 then pure tt else update n.next (λ g. record g { prev = chunk })) _
                (Keeps-if (n.next == 0) (pure tt) (update n.next (λ g. record g { prev = chunk }))
                  (pure-Keeps tt) (update-Keeps n.next (λ g. record g { prev = chunk })))
                (λ _. update-Keeps chunk (λ g. record g { next = n.next })))))))

glue_prev-Keeps : (pgd chunk : ℕ) → Keeps (glue_prev pgd chunk)
unfolding glue_prev
glue_prev-Keeps pgd chunk = Keeps-bind (load chunk) _ (load-Keeps chunk) (λ h.
    Keeps-if (h.prev == 0) (pure chunk) _ (pure-Keeps chunk) (
      Keeps-bind (load h.prev) _ (load-Keeps h.prev) (λ p.
        Keeps-if p.allocated (pure chunk) _ (pure-Keeps chunk) (
          Keeps-bind (update h.prev (λ g. record g { length = u31 (g.length + h.length) })) _
            (update-Keeps h.prev (λ g. record g { length = u31 (g.length + h.length) }))
            (λ _.
              Keeps-bind (update h.prev (λ g. record g { next = h.next })) _
                (update-Keeps h.prev (λ g. record g { next = h.next }))
                (λ _.
                  Keeps-bind
                    (if h.next == 0
                      then pure tt
                      else update h.next (λ g. record g { prev = h.prev }))
                    _
                    (Keeps-if (h.next == 0) (pure tt)
                      (update h.next (λ g. record g { prev = h.prev })) (pure-Keeps tt)
                      (update-Keeps h.next (λ g. record g { prev = h.prev })))
                    (λ _. pure-Keeps h.prev)))))))

kfree-Keeps : (pgd p : ℕ) → Keeps (kfree pgd p)
unfolding kfree glue_chunk
kfree-Keeps pgd p =
    let chunk = sub32 p header_size in
    Keeps-bind (update chunk (λ g. record g { allocated = false })) _
      (update-Keeps chunk (λ g. record g { allocated = false }))
      (λ _. Keeps-bind (glue_next pgd chunk) _ (glue_next-Keeps pgd chunk) (λ _.
        Keeps-bind (glue_prev pgd chunk) _ (glue_prev-Keeps pgd chunk) (λ merged.
          Keeps-bind (load merged) _ (load-Keeps merged) (λ h.
            Keeps-if (h.next == 0) (free_chunk pgd merged) (pure tt) (free_chunk-Keeps pgd merged)
              (pure-Keeps tt)))))

-- `kfree` never leaves fewer free pages than there were.
pub kfree-pages :
    (pgd p : ℕ) (s t : Heap)
    → kfree pgd p s ≡ ok tt t
    → s.machine.pmm.stack_top ≤ t.machine.pmm.stack_top
kfree-pages pgd p s t e = let h : Rises s (kfree pgd p s) = kfree-Keeps pgd p s in rw e at h
