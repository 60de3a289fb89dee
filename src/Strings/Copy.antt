-- ===== src/Strings/Copy.antt =====
-- Copying and filling blocks by src/libs/mstring.c, and what `strcat` leaves.
use bit_simple_kernel.Prelude.{
  ℕ, zero, suc, ◌+◌, ◌-◌, ◌<◌, ◌≤◌, ◌&&◌, ◌≡◌, ◌⊎◌, refl, ap, sym, ◌∙◌, arith, List, [], ◌∷◌, ◌++◌,
  length, if◌then◌else◌, some, ltb, leb, write, ◌↔◌, ◌↔◌,
}
use bit_simple_kernel.Strings.{memcpy, memset, strcat}
use bit_simple_kernel.Strings.Texts.{IsText, strlen-length}

-- `memcpy` between blocks that do not overlap, or whose destination comes first: each byte of the
-- destination is what the source had there, and all other memory is as before.
pub memcpy_lem :
    (dest src len : ℕ) (m : ℕ → ℕ) (a : ℕ)
    → (dest ≤ src) ⊎ (src + len ≤ dest)
    → memcpy dest src len m a
      ≡ (if leb dest a && ltb a (dest + len) then m (src + (a - dest)) else m a)
unfolding memcpy write
memcpy_lem dest src zero m a h = ground arith
memcpy_lem dest src (suc len) m a h =
    ground (arith, memcpy_lem (dest + 1) (src + 1) len (write m dest (m src)) a (omega arith))

-- `memset` sets the bytes of the block, and all other memory is as before.
pub memset_lem :
    (dest val len : ℕ) (m : ℕ → ℕ) (a : ℕ)
    → memset dest val len m a ≡ (if leb dest a && ltb a (dest + len) then val else m a)
unfolding memset write
memset_lem dest val zero m a = ground arith
memset_lem dest val (suc len) m a =
    ground (arith, memset_lem (dest + 1) val len (write m dest val) a)

-- A text whose bytes are elsewhere too, with a zero behind them.
IsText-copy :
    (m m' : ℕ → ℕ) (a b : ℕ) (ys : List ℕ)
    → ((i : ℕ) → i < length ys → m' (b + i) ≡ m (a + i))
    → m' (b + length ys) ≡ 0
    → IsText m a ys
    → IsText m' b ys
IsText-copy m m' a b [] same end t = ap m' (omega arith) ∙ end
IsText-copy m m' a b (y ∷ ys) same end t = (
  ap m' (omega arith) ∙ same 0 (omega arith) ∙ ap m (omega arith) ∙ t.0,
  t.1,
  t.2,
  IsText-copy m m' (a + 1) (b + 1) ys
      (λ i h. ap m' (omega arith) ∙ same (i + 1) (omega arith) ∙ ap m (omega arith))
      (ap m' (omega arith) ∙ end) t.3,
)

-- A text whose bytes are still there, with another text in place of its end.
IsText-append :
    (m m' : ℕ → ℕ) (a : ℕ) (xs ys : List ℕ)
    → ((i : ℕ) → i < length xs → m' (a + i) ≡ m (a + i))
    → IsText m' (a + length xs) ys
    → IsText m a xs
    → IsText m' a (xs ++ ys)
IsText-append m m' a [] ys same u t = let start : a + 0 ≡ a = omega arith in rw (← start) u
IsText-append m m' a (x ∷ xs) ys same u t =
    let start : a + 1 + length xs ≡ a + suc (length xs) = omega arith in
    (
      ap m' (omega arith) ∙ same 0 (omega arith) ∙ ap m (omega arith) ∙ t.0,
      t.1,
      t.2,
      IsText-append m m' (a + 1) xs ys
          (λ i h. ap m' (omega arith) ∙ same (i + 1) (omega arith) ∙ ap m (omega arith))
          (rw start u) t.3,
    )

IsText-end :
    (m : ℕ → ℕ) (a : ℕ) (xs ys : List ℕ) → IsText m a (xs ++ ys) → m (a + length xs + length ys) ≡ 0
IsText-end m a [] [] t = ap m (omega arith) ∙ t
IsText-end m a [] (y ∷ ys) t = ap m (omega arith) ∙ IsText-end m (a + 1) [] ys t.3
IsText-end m a (x ∷ xs) ys t = ap m (omega arith) ∙ IsText-end m (a + 1) xs ys t.3

-- `strcat` on two texts returns with enough fuel, when the bytes that it reads are not those that
-- it has written before. What it leaves is the joined text exactly if the byte behind it was zero
-- already: `strcat` does not write the terminating zero.
pub strcat-IsText :
    (m : ℕ → ℕ) (fuel dest src : ℕ) (xs ys : List ℕ)
    → length xs < fuel
    → length ys < fuel
    → IsText m dest xs
    → IsText m src ys
    → (dest + length xs ≤ src) ⊎ (src + length ys ≤ dest + length xs)
    → (n : ℕ → ℕ) × (strcat fuel dest src m ≡ some n)
      × (IsText n dest (xs ++ ys) ↔ (m (dest + length xs + length ys) ≡ 0))
unfolding strcat
strcat-IsText m fuel dest src xs ys h k t u o =
    let n = memcpy (dest + length xs) src (length ys) m in
    let at = λ (a : ℕ). memcpy_lem (dest + length xs) src (length ys) m a o in
    let behind : n (dest + length xs + length ys) ≡ m (dest + length xs + length ys) =
      ground (arith, at (dest + length xs + length ys)) in
    (
      n,
      rw (strlen-length m fuel dest xs h t, strlen-length m fuel src ys k u) refl,
      (
        λ v. sym behind ∙ IsText-end n dest xs ys v,
        λ z.
            IsText-append m n dest xs ys (λ i l. ground (arith, at (dest + i)))
              (IsText-copy m n src (dest + length xs) ys
                (λ i l.
                  let read : dest + length xs + i - (dest + length xs) ≡ i = omega arith in
                  ground (arith, read, at (dest + length xs + i)))
                (behind ∙ z) u)
              t,
      ),
    )
