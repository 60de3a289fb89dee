-- ===== src/Console.antt =====
-- The text screen: src/drivers/console.c and src/include/console.h.
pub mod Bounds
pub mod Screen
mod Tests
use bit_simple_kernel.Prelude.{
  ℕ, zero, suc, ◌+◌, ◌-◌, ◌*◌, ◌<◌, ◌==◌, ◌&&◌, not, ltb, leb, u8, u16, shr, shl, write, bit_and,
  bit_or, if◌then◌else◌, Bool, List, [], ◌∷◌, ◌++◌,
}

-- A write of a byte to an I/O port.
pub record Outb : Type 0 where
  pub port : ℕ
  pub value : ℕ

abbrev pub outb : ℕ → ℕ → Outb
outb p v = record { port = p; value = v }

-- `video_memory`, `cursor_x`, `cursor_y`, and the port writes so far, latest first.
pub record Console : Type 0 where
  pub video_memory : ℕ → ℕ
  pub cursor_x : ℕ
  pub cursor_y : ℕ
  pub ports : List Outb

pub move_cursor : Console → Console
move_cursor c =
    let cursor_location = u16 (c.cursor_y * 80 + c.cursor_x) in
    record c {
      ports =
          outb 0x3D5 (u8 cursor_location)
          ∷ outb 0x3D4 15
          ∷ outb 0x3D5 (u8 (shr cursor_location 8))
          ∷ outb 0x3D4 14
          ∷ c.ports;
    }

-- A blank in white on black: `0x20 | (attribute_byte << 8)` with `(0 << 4) | (15 & 0x0F)`.
abbrev pub blank : ℕ
blank = u16 (bit_or 0x20 (shl (u8 (bit_or (shl 0 4) (bit_and 15 0x0F))) 8))

-- `for (i = from; i < from + n; ++i) video_memory[i] = v`.
pub fill : ℕ → ℕ → ℕ → (ℕ → ℕ) → ℕ → ℕ
fill zero i v m = m
fill (suc n) i v m = fill n (i + 1) v (write m i v)

-- `for (i = from; i < from + n; ++i) video_memory[i] = video_memory[i + 80]`.
pub move_up : ℕ → ℕ → (ℕ → ℕ) → ℕ → ℕ
move_up zero i m = m
move_up (suc n) i m = move_up n (i + 1) (write m i (m (i + 80)))

pub console_clear : Console → Console
console_clear c =
    move_cursor (record c {
      video_memory = fill (80 * 25) 0 blank c.video_memory;
      cursor_x = 0;
      cursor_y = 0;
    })

pub scroll : Console → Console
scroll c =
    if leb 25 c.cursor_y
    then record c {
      video_memory = fill 80 (24 * 80) blank (move_up (24 * 80) 0 c.video_memory);
      cursor_y = 24;
    }
    else c

-- `real_color`, and its values.
pub data RealColor : Type 0 where
  rc_black rc_blue rc_green rc_cyan rc_red rc_magenta rc_brown rc_light_grey rc_dark_grey
        rc_light_blue rc_light_green rc_light_cyan rc_light_red rc_light_magenta rc_light_brown
        rc_white :
      RealColor

abbrev pub color : RealColor → ℕ
color rc_black = 0
color rc_blue = 1
color rc_green = 2
color rc_cyan = 3
color rc_red = 4
color rc_magenta = 5
color rc_brown = 6
color rc_light_grey = 7
color rc_dark_grey = 8
color rc_light_blue = 9
color rc_light_green = 10
color rc_light_cyan = 11
color rc_light_red = 12
color rc_light_magenta = 13
color rc_light_brown = 14
color rc_white = 15

-- `((back << 4) | (fore & 0x0F)) << 8`.
pub attribute : ℕ → ℕ → ℕ
attribute back fore = u16 (shl (u8 (bit_or (shl (u8 back) 4) (bit_and (u8 fore) 0x0F))) 8)

-- `char` is signed on this target: a byte from 128 on is negative and fails `c >= ' '`.
abbrev pub is_printable : ℕ → Bool
is_printable ch = leb 0x20 ch && ltb ch 0x80

-- The chain of tests on the character. Only the branch of printable characters stores.
pub put_char : ℕ → ℕ → ℕ → Console → Console
put_char ch back fore c =
    if ch == 0x08 && not (c.cursor_x == 0)
    then record c { cursor_x = c.cursor_x - 1 }
    else if ch == 0x09
    then record c { cursor_x = u8 (bit_and (c.cursor_x + 8) 0xfffffff8) }
    else if ch == 0x0d
    then record c { cursor_x = 0 }
    else if ch == 0x0a
    then record c { cursor_x = 0; cursor_y = u8 (c.cursor_y + 1) }
    else if is_printable ch
    then record c {
      video_memory =
          write c.video_memory (c.cursor_y * 80 + c.cursor_x) (bit_or ch (attribute back fore));
      cursor_x = u8 (c.cursor_x + 1);
    }
    else c

pub wrap_line : Console → Console
wrap_line c =
    if leb 80 c.cursor_x then record c { cursor_x = 0; cursor_y = u8 (c.cursor_y + 1) } else c

pub console_putc_color : ℕ → ℕ → ℕ → Console → Console
console_putc_color ch back fore c = move_cursor (scroll (wrap_line (put_char ch back fore c)))

-- The text up to its terminating zero.
unfoldable pub console_write_color : List ℕ → ℕ → ℕ → Console → Console
console_write_color [] back fore c = c
console_write_color (ch ∷ text) back fore c =
    console_write_color text back fore (console_putc_color ch back fore c)

-- `rc_black` and `rc_white`.
unfoldable pub console_write : List ℕ → Console → Console
console_write [] c = c
console_write (ch ∷ text) c = console_write text (console_putc_color ch 0 15 c)
