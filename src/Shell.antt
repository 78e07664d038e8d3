-- ===== src/Shell.antt =====
-- kernel/src/main.rs: the debug shell of `kmain`, the screen that it writes on and the line that it
-- edits. The commands are in Shell/Command.antt. `&input_buf[..input_len]` is the command line.
pub mod Listing
pub mod Command
pub mod Key
pub mod Text
pub mod Edit
pub mod Line
pub mod Enter
pub mod Lba
mod Tests
use forward_os_kernel_base.Base.{ℕ, ◌+◌, ◌%◌, ◌^◌, Bool, true, false, ◌||◌, ltb, ◌==◌}
use forward_os_kernel_base.Base.{if◌then◌else◌, Option, none, some, List, ◌++◌, Bytes, u32, bit_and}
use forward_os_kernel_base.Base.{Outcome, ret, and_then, or_panic}
use forward_os_kernel_base.Base.Text.{text, decimal, upper_hex}
use forward_os_kernel_base.Disk.{Machine, has_port, read_sector}
use forward_os_kernel_base.Draw.{
  FrameBufferConfig, DoubleBuffer, Font, flip, draw_string_db, fill_rect_db,
}
use forward_os_kernel_base.Draw.Digits.{draw_hex_dump}
use forward_os_kernel_base.Directory.{slice}
use forward_os_kernel_base.Keys.{KeyBuffer, get_key_from_buffer}
use forward_os_kernel_base.Async.{Poll, ready, pending, Cpu, Future}

pub record Console : Type 0 where
  pub current_y : ℕ
  pub line_height : ℕ

unfoldable pub new : Console
new = record { current_y = 220; line_height = 20 }

-- The statics and the variables of the loop. `machine` is the disk's: AHCI_PORT and AHCI_DATA_PTR.
pub record Shell : Type 0 where
  pub is_shift : Bool
  pub current_dir_cluster : ℕ
  pub input_buf : Bytes
  pub input_len : ℕ
  pub debug_lba : ℕ
  pub console : Console
  pub db : DoubleBuffer
  pub fb : FrameBufferConfig
  pub machine : Machine

abbrev pub command_line : Shell → List ℕ
command_line s = slice s.input_buf 0 s.input_len

unfoldable pub write_line : Font → List ℕ → ℕ → Shell → Outcome Shell
write_line font line color s =
    let y = u32 (s.console.current_y + s.console.line_height) in
    and_then (or_panic (draw_string_db font 10 s.console.current_y line color s.db)) λ drawn.
      if ltb 440 y
      then and_then (or_panic (fill_rect_db 0 220 800 260 0x000000 drawn)) (λ cleared.
        ret (record s { console = record s.console { current_y = 220 }; db = cleared }))
      else ret (record s { console = record s.console { current_y = y }; db = drawn })

-- `{} (0x{:X})`.
unfoldable pub both_bases : ℕ → List ℕ
both_bases n = decimal n ++ (text " (0x" ++ (upper_hex n ++ text ")"))

-- `if active_port != -1 { … }`, without the wait for the command to end, which `read_sector` has
-- waited for.
unfoldable pub draw_sector : Font → Shell → Outcome Shell
draw_sector font s =
    let m = read_sector s.debug_lba s.machine in
    if has_port s.machine
    then and_then (or_panic (draw_hex_dump font 10 30 m.buffer 128 0x00FFFF s.db))
        (λ db. ret (record s { db = db; machine = m }))
    else ret s

-- What the loop draws before it waits for a key.
unfoldable pub draw_prompt : Font → Shell → Outcome Shell
unfolding both_bases draw_sector
draw_prompt font s =
    let wide = s.fb.horizontal_resolution in
    and_then (or_panic (fill_rect_db 0 0 wide 130 0x111111 s.db)) λ db₁.
      and_then
        (or_panic (draw_string_db font 10 10 (text "LBA: " ++ both_bases s.debug_lba) 0xFFFF00 db₁))
        λ db₂. and_then (draw_sector font (record s { db = db₂ })) λ t.
          and_then (or_panic (fill_rect_db 0 t.console.current_y wide 20 0x000000 t.db)) λ db₃.
            and_then
              (or_panic
                (draw_string_db font 10 t.console.current_y (text "forward@os:~$ ") 0x00FF00 db₃))
              λ db₄.
                and_then
                  (or_panic
                    (draw_string_db font 130 t.console.current_y (command_line t) 0xFFFFFF db₄))
                  λ db₅. ret (record t { db = db₅; fb = flip db₅ t.fb })

-- What a scan code does to IS_SHIFT.
unfoldable pub note_shift : ℕ → Bool → Bool
note_shift sc is_shift =
    if (sc == 0xAA) || (sc == 0xB6)
    then false
    else if (sc == 0x2A) || (sc == 0x36)
    then true
    else is_shift

-- `KeyboardFuture` of the shell: its state is IS_SHIFT. The ring first, then the controller's port.
module _ {E : Type 0} (register_keyboard_waker : E → E) (keys : E → KeyBuffer)
    (set_keys : KeyBuffer → E → E) (in_port : ℕ → E → ℕ × E) where
  unfoldable pub poll : Future E Bool ℕ
  unfolding note_shift get_key_from_buffer
  poll is_shift c =
      let e₀ = register_keyboard_waker c.env in
      let (key, rest) = get_key_from_buffer (keys e₀) in
      let (status, e₁) = in_port 0x64 e₀ in
      let (scancode, e₂) = in_port 0x60 e₁ in
      elim key [
        | some sc ↦ (ready sc, note_shift sc is_shift, record c { env = set_keys rest e₀ })
        | none ↦
            if bit_and status 0x01 == 0
            then (pending, is_shift, record c { env = e₁ })
            else (ready scancode, note_shift scancode is_shift, record c { env = e₂ })
      ]
