-- ===== src/Syscall/Tests.antt =====
-- kernel/src/interrupts.rs: the calls on a machine of ten pages and no disk.
use forward_os_kernel_base.Base.{
  ℕ, ◌+◌, ◌-◌, ◌*◌, ◌≡◌, arith, ◌==◌, in_range, if◌then◌else◌, false, none, List, length, take,
  get_or, Bytes, IsBytes, ret,
}
use forward_os_kernel_base.Base.Text.{text}
use forward_os_kernel_base.Directory.{syscall_open}
use forward_os_kernel_base.Draw.{Font}
use forward_os_kernel_base.Ram.{RamManager}
use forward_os_kernel_base.Syscall.{System}
use forward_os_kernel_base.Syscall.Calls.{call_open, call_mget, call_mmap}
use forward_os_kernel_base.Syscall.Idt.{new, IsGate, is_handled, init_idt, init_idt_lem}
use forward_os_kernel_base.Syscall.Pages.{Served, call_mget_lem}
use forward_os_kernel_base.Syscall.Path.{until_zero, opened, call_open_lem}

abbrev Ports : Type 0
Ports = Unit {0}

abbrev no_key : ℕ → Ports → ℕ × Ports
no_key p e = (0, e)

abbrev empty_font : Font
empty_font = record { bytes = λ i. 0; len = 0 }

abbrev same_text : List ℕ → List ℕ
same_text l = l

abbrev four_free : RamManager
four_free = record { bitmap = λ i. if i == 0 then 0b11000011 else 0xff; total_sectors = 10 }

four_free-IsBytes : IsBytes four_free.bitmap
four_free-IsBytes i = ground arith

abbrev booted : System Ports
booted = record {
  kernel = record {
    machine = record {
      drive = record {
        port = none;
        sector = λ l i. 0;
        read_fault = λ l. none;
        write_fault = λ l. none;
      };
      buffer = λ i. 0;
      running = none;
    };
    fds = λ fd. none;
    memory = λ i. 0;
  };
  ram = four_free;
  screen = record {
    has_frame = false;
    frame_buffer = λ i. 0;
    stride = 0;
    width = 0;
    height = 0;
    back_buffer = λ i. 0;
    debug_x = 10;
    debug_y = 560;
    debug_line_count = 0;
  };
  cpu = record { woken = false; env = tt };
  syscall_ret = 7;
}

call_mget_example :
    (t : System Ports) × (call_mget empty_font same_text no_key 1 2 4096 0x100 booted ≡ ret t)
    × (call_mmap empty_font same_text no_key 1 2 65536 0x100 booted ≡ ret t)
    × (t.syscall_ret ≡ 0)
    × Served empty_font same_text no_key 1 2 0x100 booted t
call_mget_example =
    call_mget_lem empty_font same_text no_key 1 2 4096 65536 0x100 booted four_free-IsBytes
      (omega arith) (omega arith)

call_open_example :
    (memory : Bytes) × (call_open empty_font same_text no_key 1 0x200 (text "a.txt") booted
      ≡ opened empty_font same_text no_key 1 memory booted (
          syscall_open 1
            (until_zero (take 127 (text "a.txt")))
            booted.kernel.fds
            booted.kernel.machine))
    × ((x : ℕ)
        → memory x ≡ (
            if in_range 0x200 (length (take 127 (text "a.txt")) + 1) x
            then get_or (take 127 (text "a.txt")) (x - 0x200) 0
            else booted.kernel.memory x))
call_open_example = call_open_lem empty_font same_text no_key 1 0x200 (text "a.txt") booted

init_idt_example :
    let t = init_idt 0xFFFF80001234 0x2000 0x3000 0x8000 (λ i. new) in
    IsGate (t.0 14) 0xFFFF80001234
    × IsGate (t.0 0x21) 0x2000
    × IsGate (t.0 0x80) 0x3000
    × (t.0 5 ≡ (if is_handled 5 then t.0 5 else new))
    × (t.1.limit + 1 ≡ 256 * 16)
    × (t.1.base ≡ 0x8000)
init_idt_example =
    init_idt_lem 0xFFFF80001234 0x2000 0x3000 0x8000 5 (λ i. new) (omega arith) (omega arith)
      (omega arith)
