-- ===== src/Shell/Tests.antt =====
-- kernel/src/main.rs: a shell on a small screen, with a line on it that sets the sector.
use forward_os_kernel_base.Base.{◌≡◌, refl, arith, ◌==◌, if◌then◌else◌, false, none, some, inr}
use forward_os_kernel_base.Base.{ltb, ret, [], ◌∷◌, ◌++◌, get_or}
use forward_os_kernel_base.Base.Text.{text, decimal, upper_hex, split_whitespace}
use forward_os_kernel_base.Disk.{Machine}
use forward_os_kernel_base.Draw.{DoubleBuffer, FrameBufferConfig, Font, get_font_info}
use forward_os_kernel_base.Draw.Shapes.{IsShadow}
use forward_os_kernel_base.Shell.{Shell, command_line}
use forward_os_kernel_base.Shell.Command.{parse_lba, enter}
use forward_os_kernel_base.Shell.Enter.{enter_lem}
use forward_os_kernel_base.Shell.Key.{on_key}
use forward_os_kernel_base.Shell.Lba.{parse_lba_lem}
use forward_os_kernel_base.Shell.Edit.{IsShell, Edited, edited, moved}
use forward_os_kernel_base.Shell.Text.{get_or-lt}
use forward_os_kernel_base.Shell.Line.{on_key_lem}

abbrev shadow : DoubleBuffer
shadow = record { vram_shadow = λ i. 0; size = 400; width = 18; height = 20; scanline = 20 }

shadow-IsShadow : IsShadow 18 20 20 shadow
shadow-IsShadow = record {
  width = refl;
  height = refl;
  scanline = refl;
  size = refl;
  line = omega arith;
  small = omega arith;
}

abbrev frame : FrameBufferConfig
frame = record {
  frame_buffer = λ i. 0;
  pixels_per_scan_line = 20;
  horizontal_resolution = 18;
  vertical_resolution = 20;
}

abbrev two_rows : Font
two_rows = record {
  bytes = λ i. if i == 0 then 0x36 else if i == 1 then 0x04 else if i == 3 then 2 else 0x81;
  len = 516;
}

two_rows_info : get_font_info two_rows ≡ some (some (4, 2, 2))
unfolding get_font_info
two_rows_info = refl

abbrev no_disk : Machine
no_disk = record {
  drive = record {
    port = none;
    sector = λ l i. 0;
    read_fault = λ l. none;
    write_fault = λ l. none;
  };
  buffer = λ i. 0;
  running = none;
}

abbrev typed : Shell
typed = record {
  is_shift = false;
  current_dir_cluster = 0;
  input_buf = λ i. get_or (text "set lba 0x1F") i 0;
  input_len = 12;
  debug_lba = 0;
  console = record { current_y = 220; line_height = 20 };
  db = shadow;
  fb = frame;
  machine = no_disk;
}

typed-IsShell : IsShell typed
typed-IsShell = record { room = omega arith; ascii = λ i h. get_or-lt (text "set lba 0x1F") i refl }

typed_words : split_whitespace (command_line typed) ≡ text "set" ∷ text "lba" ∷ text "0x1F" ∷ []
unfolding split_whitespace
typed_words = refl

number : text "0x1F" ≡ text "0x" ++ upper_hex 31
unfolding upper_hex
number = refl

parse_lba_example :
    (parse_lba (decimal 40000) ≡ 40000) × (parse_lba (text "0x" ++ upper_hex 40000) ≡ 40000)
parse_lba_example = parse_lba_lem 40000 (omega arith)

-- The key of `a`.
on_key_example :
    (t : Shell) × (on_key two_rows 9 0x1E typed ≡ ret (some t))
    × Edited typed t (edited false 0x1E (command_line typed)) (moved 0x1E 0)
on_key_example = on_key_lem two_rows 9 0x1E typed typed-IsShell (omega arith) (λ e. omega arith)

enter_example :
    (t : Shell) × (enter two_rows 9 typed ≡ ret (some t))
    × (t.debug_lba ≡ 31)
    × (command_line t ≡ [])
    × (t.console.current_y ≡ (if ltb 440 260 then 220 else 260))
    × IsShadow 18 20 20 t.db
enter_example =
    enter_lem 18 20 20 two_rows 4 2 2 two_rows_info 9 31 (text "0x1F") [] typed typed_words
      (inr number) (omega arith) refl (omega arith) shadow-IsShadow
