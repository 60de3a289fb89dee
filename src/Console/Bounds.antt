-- ===== src/Console/Bounds.antt =====
-- The cursor stays on the screen, and the port writes tell the hardware where it is.
use bit_simple_kernel.Prelude.{
  ℕ, ◌+◌, ◌*◌, ◌/◌, ◌^◌, ◌≤◌, ◌<◌, ◌≡◌, ◌∙◌, refl, ◌==◌, ◌&&◌, bit_and, if◌then◌else◌, List, [],
  ◌∷◌, arith,
}
use bit_simple_kernel.Prelude.Bits.{bit_and_high}
use bit_simple_kernel.Console.{
  Console, Outb, move_cursor, scroll, put_char, wrap_line, console_putc_color, console_write_color,
}

-- The cursor is on the screen of 25 rows of 80 characters.
pub record IsOnScreen (c : Console) : Type 0 where
  pub column : c.cursor_x < 80
  pub row : c.cursor_y < 25

-- `x & ~7` for a coordinate.
pub align_tab : (x : ℕ) → x < 2 ^ 32 → bit_and x 0xfffffff8 ≡ x / 8 * 8
align_tab x h = bit_and_high 3 29 x (omega arith)

-- After the tests on the character the column is at most 80 and the row at most 25.
pub put_char-cursor :
    (ch back fore : ℕ) (c : Console)
    → IsOnScreen c
    → ((put_char ch back fore c).cursor_x ≤ 80)
      × ((put_char ch back fore c).cursor_y ≤ 25)
      × (80 * (put_char ch back fore c).cursor_y + (put_char ch back fore c).cursor_x ≤ 2000)
unfolding put_char
put_char-cursor ch back fore c v = ground (arith, align_tab (c.cursor_x + 8))

wrap_line-cursor :
    (c : Console)
    → c.cursor_x ≤ 80
    → 80 * c.cursor_y + c.cursor_x ≤ 2000
    → ((wrap_line c).cursor_x < 80) × ((wrap_line c).cursor_y ≤ 25)
unfolding wrap_line
wrap_line-cursor c x p = ground arith

scroll-IsOnScreen : (c : Console) → c.cursor_x < 80 → c.cursor_y ≤ 25 → IsOnScreen (scroll c)
unfolding scroll
scroll-IsOnScreen c x y = ground arith

move_cursor-IsOnScreen : {c : Console} → IsOnScreen c → IsOnScreen (move_cursor c)
unfolding move_cursor
move_cursor-IsOnScreen v = record { column = v.column; row = v.row }

-- Every character leaves the cursor on the screen.
pub console_putc_color-IsOnScreen :
    (ch back fore : ℕ) {c : Console} → IsOnScreen c → IsOnScreen (console_putc_color ch back fore c)
unfolding console_putc_color
console_putc_color-IsOnScreen ch back fore {c} v =
    let put = put_char ch back fore c in
    let p = put_char-cursor ch back fore c v in
    let w = wrap_line-cursor put p.0 p.2 in
    move_cursor-IsOnScreen (scroll-IsOnScreen (wrap_line put) w.0 w.1)

-- And so does every text.
pub console_write_color-IsOnScreen :
    (text : List ℕ) (back fore : ℕ) {c : Console}
    → IsOnScreen c
    → IsOnScreen (console_write_color text back fore c)
unfolding console_write_color
console_write_color-IsOnScreen [] back fore v = v
console_write_color-IsOnScreen (ch ∷ text) back fore v =
    console_write_color-IsOnScreen text back fore (console_putc_color-IsOnScreen ch back fore v)

-- What the display controller holds after port writes, latest first: the data port 0x3D5 goes to
-- the register that the last write to the index port 0x3D4 chose.
abbrev pub register_of : List Outb → ℕ
register_of [] = 0
register_of (o ∷ os) = if o.port == 0x3D4 then o.value else register_of os

abbrev pub register : ℕ → List Outb → ℕ
register r [] = 0
register r (o ∷ os) = if o.port == 0x3D5 && (register_of os == r) then o.value else register r os

-- `move_cursor` leaves in the registers 14 and 15 the high and the low byte of the position of the
-- cursor, if the cursor is on the screen.
pub move_cursor-registers :
    {c : Console}
    → IsOnScreen c
    → register 14 (move_cursor c).ports * 256 + register 15 (move_cursor c).ports
      ≡ c.cursor_y * 80 + c.cursor_x
unfolding move_cursor
move_cursor-registers v = ground arith

-- After every character the registers 14 and 15 of the display controller hold the position of
-- the cursor, if the cursor was on the screen before.
pub console_putc_color-registers :
    (ch back fore : ℕ) {c : Console}
    → IsOnScreen c
    → let d = console_putc_color ch back fore c in
      register 14 d.ports * 256 + register 15 d.ports ≡ d.cursor_y * 80 + d.cursor_x
unfolding console_putc_color
console_putc_color-registers ch back fore {c} v =
    let put = put_char ch back fore c in
    let p = put_char-cursor ch back fore c v in
    let w = wrap_line-cursor put p.0 p.2 in
    move_cursor-registers (scroll-IsOnScreen (wrap_line put) w.0 w.1)
    ∙ same_cursor (scroll (wrap_line put))
  where
    same_cursor :
        (d : Console)
        → d.cursor_y * 80 + d.cursor_x ≡ (move_cursor d).cursor_y * 80 + (move_cursor d).cursor_x
    same_cursor d = unfold move_cursor in refl
