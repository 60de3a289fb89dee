-- ===== src/Task/Ring.antt =====
-- The circular list of tasks of src/kernel/task/task.c.
use bit_simple_kernel.Prelude.{
  ℕ, zero, suc, ◌<◌, ◌≡◌, ◌≢◌, sym, ◌∙◌, ap, arith, List, [], ◌∷◌, ◌++◌, length, All, ok,
}
use bit_simple_kernel.Task.{Sched, find_tail}

-- `next` leads from `a` through `bs` to `z`.
abbrev pub Linked : (ℕ → ℕ) → ℕ → List ℕ → ℕ → Type 0
Linked next a [] z = next a ≡ z
Linked next a (b ∷ bs) z = (next a ≡ b) × Linked next b bs z

abbrev pub next_of : Sched → ℕ → ℕ
next_of s a = (s.tasks a).next

-- The tasks are the head of the list and `rest`, in this order, and the last leads to the head.
pub record IsRing (s : Sched) (rest : List ℕ) : Type 0 where
  pub linked : Linked (next_of s) s.running_proc_head rest s.running_proc_head
  pub others : All (λ t. t ≢ s.running_proc_head) rest

abbrev pub last : ℕ → List ℕ → ℕ
last a [] = a
last a (b ∷ bs) = last b bs

-- The tail is found.
pub find_tail-last :
    (fuel : ℕ) (a : ℕ) (bs : List ℕ) (s : Sched)
    → length bs < fuel
    → Linked (next_of s) a bs s.running_proc_head
    → All (λ t. t ≢ s.running_proc_head) bs
    → find_tail fuel a s ≡ ok (last a bs) s
unfolding find_tail
find_tail-last zero a bs s h l o = absurd (omega arith)
find_tail-last (suc fuel) a [] s h l o = rw l (ground arith)
find_tail-last (suc fuel) a (b ∷ bs) s h l o =
    rw l.0 (ground (arith, o.0, find_tail-last fuel b bs s (omega arith) l.1 o.1))

-- Links that agree on the elements.
pub Linked-cong :
    (f g : ℕ → ℕ) (a : ℕ) (bs : List ℕ) (z : ℕ)
    → All (λ t. f t ≡ g t) (a ∷ bs)
    → Linked f a bs z
    → Linked g a bs z
Linked-cong f g a [] z e l = sym e.0 ∙ l
Linked-cong f g a (b ∷ bs) z e l = (sym e.0 ∙ l.0, Linked-cong f g b bs z e.1 l.1)

pub Linked-last : (f : ℕ → ℕ) (a : ℕ) (bs : List ℕ) (z : ℕ) → Linked f a bs z → f (last a bs) ≡ z
Linked-last f a [] z l = l
Linked-last f a (b ∷ bs) z l = Linked-last f b bs z l.1

-- A predicate on all elements holds of the last one.
pub All-last : (P : ℕ → Type 0) (a : ℕ) (bs : List ℕ) → All P (a ∷ bs) → P (last a bs)
All-last P a [] h = h.0
All-last P a (b ∷ bs) h = All-last P b bs h.1

-- A new element `p` behind the last one, for links `g` that lead from the last to `p`, from `p` to
-- `z`, and are `f` elsewhere.
pub Linked-append :
    (f g : ℕ → ℕ) (a : ℕ) (bs : List ℕ) (p z : ℕ)
    → ((t : ℕ) → t ≢ p → t ≢ last a bs → g t ≡ f t)
    → g (last a bs) ≡ p
    → g p ≡ z
    → All (λ t. t ≢ p) (a ∷ bs)
    → All (λ t. t ≢ z) bs
    → Linked f a bs z
    → Linked g a (bs ++ p ∷ []) z
Linked-append f g a [] p z same to_new to_head new others l = (to_new, to_head)
Linked-append f g a (b ∷ bs) p z same to_new to_head new others l = (
  same a new.0 (λ e. others.0 (sym l.0 ∙ ap f e ∙ Linked-last f b bs z l.1)) ∙ l.0,
  Linked-append f g b bs p z same to_new to_head new.1 others.1 l.1,
)
