-- ===== src/Console/Tests.antt =====
-- The screen at a few positions.
use bit_simple_kernel.Prelude.{ℕ, ◌+◌, ◌*◌, ◌≡◌, refl, [], ◌∷◌, arith, write}
use bit_simple_kernel.Console.{
  Console, move_cursor, scroll, put_char, wrap_line, console_putc_color, console_write,
}
use bit_simple_kernel.Console.Bounds.{IsOnScreen, console_putc_color-IsOnScreen}
use bit_simple_kernel.Console.Screen.{position, console_putc_color-printable}

-- A screen whose cells hold their own indices, with the cursor at a row and column.
abbrev screen_at : ℕ → ℕ → Console
screen_at y x = record { video_memory = λ i. i; cursor_x = x; cursor_y = y; ports = [] }

writes_text : (console_write (b'O' ∷ b'K' ∷ 0x0a ∷ []) (screen_at 3 10)).cursor_y ≡ 4
unfolding console_write console_putc_color move_cursor scroll put_char wrap_line
writes_text = refl

last-IsOnScreen : IsOnScreen (screen_at 24 79)
last-IsOnScreen = omega arith

console_putc_color-IsOnScreen_example : IsOnScreen (console_putc_color b'A' 0 15 (screen_at 24 79))
console_putc_color-IsOnScreen_example = console_putc_color-IsOnScreen b'A' 0 15 last-IsOnScreen

console_putc_color-printable_example :
    let d = console_putc_color b'A' 0 15 (screen_at 24 79) in
    (position d ≡ 1920) × (d.video_memory 1919 ≡ 15 * 256 + 65)
unfolding write
console_putc_color-printable_example =
    console_putc_color-printable b'A' 0 15 (screen_at 24 79) 1919 refl last-IsOnScreen
