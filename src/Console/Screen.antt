-- ===== src/Console/Screen.antt =====
-- What stands on the screen after an operation.
use bit_simple_kernel.Prelude.{
  ℕ, zero, suc, ◌+◌, ◌-◌, ◌*◌, ◌/◌, ◌%◌, ◌^◌, ◌≤◌, ◌<◌, ◌≡◌, ◌∙◌, refl, ap, ap₂, ◌==◌, ◌&&◌, ltb,
  leb, bit_or, if◌then◌else◌, arith, write, true, false,
}
use bit_simple_kernel.Prelude.Bits.{bit_and_low, bit_or_fields, bit_or_fields_swapped}
use bit_simple_kernel.Console.{
  Console, blank, fill, move_up, move_cursor, scroll, put_char, wrap_line, console_putc_color,
  console_clear, is_printable, attribute,
}
use bit_simple_kernel.Console.Bounds.{IsOnScreen, align_tab, put_char-cursor}

pub fill_lem :
    (n i v : ℕ) (m : ℕ → ℕ) (j : ℕ) → fill n i v m j ≡ (if leb i j && ltb j (i + n) then v else m j)
unfolding fill write
fill_lem zero i v m j = ground arith
fill_lem (suc n) i v m j = ground (arith, fill_lem n (i + 1) v (write m i v) j)

-- Moving upwards reads each cell before it is overwritten.
pub move_up_lem :
    (n i : ℕ) (m : ℕ → ℕ) (j : ℕ)
    → move_up n i m j ≡ (if leb i j && ltb j (i + n) then m (j + 80) else m j)
unfolding move_up write
move_up_lem zero i m j = ground arith
move_up_lem (suc n) i m j = ground (arith, move_up_lem n (i + 1) (write m i (m (i + 80))) j)

-- The video memory one row up, with a blank last row; cells off the screen stay.
abbrev pub scrolled : (ℕ → ℕ) → ℕ → ℕ
scrolled m j = if ltb j 1920 then m (j + 80) else (if ltb j 2000 then blank else m j)

scroll-memory :
    (c : Console) (j : ℕ)
    → (scroll c).video_memory j
      ≡ (if leb 25 c.cursor_y then scrolled c.video_memory j else c.video_memory j)
unfolding scroll
scroll-memory c j = ground (
  arith,
  fill_lem 80 1920 blank (move_up 1920 0 c.video_memory) j,
  move_up_lem 1920 0 c.video_memory j,
)

-- `console_clear` blanks every cell of the screen and no other, and homes the cursor.
pub console_clear_lem :
    (c : Console) (j : ℕ)
    → let d = console_clear c in
      (d.video_memory j ≡ (if ltb j 2000 then blank else c.video_memory j))
      × (d.cursor_x ≡ 0)
      × (d.cursor_y ≡ 0)
unfolding console_clear move_cursor
console_clear_lem c j = (ground (arith, fill_lem 2000 0 blank c.video_memory j), refl, refl)

-- The colour byte has the background in its high and the foreground in its low four bits, and the
-- character is the low byte of the cell.
cell_fields :
    (ch back fore : ℕ)
    → ch < 2 ^ 8
    → bit_or ch (attribute back fore) ≡ (back % 16 * 16 + fore % 16) * 256 + ch
unfolding attribute
cell_fields ch back fore h = ground (
  arith,
  bit_and_low 4 (fore % 256),
  bit_or_fields 4 (back % 256) (fore % 16),
  bit_or_fields_swapped 8 (back % 16 * 16 + fore % 16) ch,
)

abbrev pub position : Console → ℕ
position c = c.cursor_y * 80 + c.cursor_x

-- The cell of a character in its colours.
abbrev pub cell : ℕ → ℕ → ℕ → ℕ
cell ch back fore = (back % 16 * 16 + fore % 16) * 256 + ch

-- A printable character goes to the cell at the cursor, and the cursor one on. At the last cell of
-- the screen everything then moves one row up, and the cursor to the start of the last row.
put_char-printable :
    (ch back fore : ℕ) (c : Console)
    → is_printable ch ≡ true
    → IsOnScreen c
    → put_char ch back fore c ≡ record c {
      video_memory = write c.video_memory (position c) (cell ch back fore);
      cursor_x = c.cursor_x + 1;
    }
unfolding put_char
put_char-printable ch back fore c pr v = ground (arith, cell_fields ch back fore)

scroll-position :
    (c : Console)
    → c.cursor_x < 80
    → position c ≤ 2000
    → position (scroll c) ≡ (if position c == 2000 then 1920 else position c)
unfolding scroll
scroll-position c x p = ground arith

settle : Console → Console
settle c = move_cursor (scroll (wrap_line c))

-- What the steps after the character do to the cursor and the video memory.
settle_lem :
    (c : Console) (j : ℕ)
    → c.cursor_x ≤ 80
    → position c ≤ 2000
    → (position (settle c) ≡ (if position c == 2000 then 1920 else position c))
      × ((settle c).video_memory j
          ≡ (if position c == 2000 then scrolled c.video_memory j else c.video_memory j))
unfolding settle move_cursor wrap_line
settle_lem c j x y = ground (arith, scroll-position (wrap_line c), scroll-memory (wrap_line c) j)

-- A printable character with its colours is stored at the cursor, and the cursor goes one on. After
-- the last cell of the screen the screen moves one row up with a blank last row, and the cursor
-- goes to its start. No other cell changes.
pub console_putc_color-printable :
    (ch back fore : ℕ) (c : Console) (j : ℕ)
    → is_printable ch ≡ true
    → IsOnScreen c
    → let d = console_putc_color ch back fore c in
      let m = write c.video_memory (position c) (cell ch back fore) in
      (position d ≡ (if position c == 1999 then 1920 else position c + 1))
      × (d.video_memory j ≡ (if position c == 1999 then scrolled m j else m j))
unfolding console_putc_color settle
console_putc_color-printable ch back fore c j pr v =
    let put : Console = record c {
      video_memory = write c.video_memory (position c) (cell ch back fore);
      cursor_x = c.cursor_x + 1;
    } in
    rw (put_char-printable ch back fore c pr v)
      (ground (arith, settle_lem put j (omega arith) (omega arith)))

-- The characters that only move the cursor: backspace, tab, carriage return and newline.
abbrev pub moved : ℕ → ℕ → ℕ
moved ch p =
    if ch == 0x08
    then (if p % 80 == 0 then p else p - 1)
    else if ch == 0x09
    then (p % 80 / 8 + 1) * 8 + p / 80 * 80
    else if ch == 0x0d
    then p / 80 * 80
    else if ch == 0x0a
    then (p / 80 + 1) * 80
    else p

put_char-control :
    (ch back fore : ℕ) (c : Console)
    → is_printable ch ≡ false
    → IsOnScreen c
    → (position (put_char ch back fore c) ≡ moved ch (position c))
      × ((put_char ch back fore c).video_memory ≡ c.video_memory)
unfolding put_char
put_char-control ch back fore c pr v = ground (arith, align_tab (c.cursor_x + 8))

-- A character that is not printable stores nothing. Backspace goes one column back but not past
-- the start of the row, tab to the next multiple of 8, carriage return to the start of the row and
-- newline to the start of the next; any other one leaves the cursor. Where the cursor would leave
-- the screen, the screen moves one row up instead.
pub console_putc_color-control :
    (ch back fore : ℕ) (c : Console) (j : ℕ)
    → is_printable ch ≡ false
    → IsOnScreen c
    → let d = console_putc_color ch back fore c in
      let p = moved ch (position c) in
      (position d ≡ (if p == 2000 then 1920 else p))
      × (d.video_memory j ≡ (if p == 2000 then scrolled c.video_memory j else c.video_memory j))
unfolding console_putc_color settle
console_putc_color-control ch back fore c j pr v =
    let put = put_char ch back fore c in
    let b = put_char-cursor ch back fore c v in
    let e = put_char-control ch back fore c pr v in
    let s = settle_lem put j b.0 (omega (arith, b.2)) in
    (
      s.0 ∙ ap (λ (k : ℕ). if k == 2000 then 1920 else k) e.0,
      s.1 ∙ ap₂ (λ (k : ℕ) (m : ℕ → ℕ). if k == 2000 then scrolled m j else m j) e.0 e.1,
    )
