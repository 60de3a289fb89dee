-- ===== src/PageFault/Tests.antt =====
-- A write to a page that is not present.
use bit_simple_kernel.Prelude.{◌≡◌, [], ◌∷◌, ok, chars}
use bit_simple_kernel.Idt.{PtRegs}
use bit_simple_kernel.Printk.Output.{Tty, with_lines}
use bit_simple_kernel.Console.{rc_black, rc_red, color}
use bit_simple_kernel.PageFault.{page_fault}
use bit_simple_kernel.PageFault.Report.{place_line, code_line, page_fault-reasons}

abbrev saved : PtRegs
saved = record {
  ds = 0x10;
  edi = 0;
  esi = 0;
  ebp = 0;
  esp = 0;
  ebx = 0;
  edx = 0;
  ecx = 0;
  eax = 0;
  int_no = 14;
  err_code = 2;
  eip = 0xC0100000;
  cs = 8;
  eflags = 0x202;
  user_esp = 0;
  ss = 0x10;
}

abbrev screen : Tty
screen = record {
  console = record { video_memory = λ _. 0; cursor_x = 0; cursor_y = 0; ports = [] };
  mem = λ _. 0;
}

page_fault-reasons_example :
    page_fault saved 0xE0001000 screen
    ≡ ok tt (
        with_lines
          (color rc_black)
          (color rc_red)
          (chars "Because the page wasn't present.\n"
            ∷ chars "Write error.\n"
            ∷ chars "In kernel mode.\n"
            ∷ [])
          (with_lines 0 15 (place_line 0xC0100000 0xE0001000 ∷ code_line 2 ∷ []) screen))
page_fault-reasons_example = page_fault-reasons saved 0xE0001000 screen
