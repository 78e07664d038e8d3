-- ===== src/App/Tests.antt =====
-- app/src/fscc.rs: two pages of a machine of ten, of which four are free.
use forward_os_kernel_base.Base.{
  ℕ, ◌≡◌, arith, ◌⊎◌, ◌==◌, if◌then◌else◌, false, Option, none, some, List, IsBytes, ret,
}
use forward_os_kernel_base.App.{mget, mmap}
use forward_os_kernel_base.App.Pages.{mget_lem}
use forward_os_kernel_base.Draw.{Font}
use forward_os_kernel_base.Ram.{RamManager}
use forward_os_kernel_base.Ram.Allocate.{Takes, Refuses}
use forward_os_kernel_base.Syscall.{System, minus_one}

abbrev Ports : Type 0
Ports = Unit {0}

abbrev no_key : ℕ → Ports → ℕ × Ports
no_key p e = (0, e)

abbrev empty_font : Font
empty_font = record { bytes = λ i. 0; len = 0 }

abbrev same_text : List ℕ → List ℕ
same_text l = l

-- The convention that restores every register.
abbrev restored : Option ℕ → ℕ → ℕ
restored rax n = n

abbrev four_free : RamManager
four_free = record { bitmap = λ i. if i == 0 then 0b11000011 else 0xff; total_sectors = 10 }

four_free-IsBytes : IsBytes four_free.bitmap
four_free-IsBytes i = ground arith

abbrev machine : System Ports
machine = record {
  kernel = record {
    machine = record {
      drive = record {
        port = none;
        sector = λ l i. 0;
        read_fault = λ l. none;
        write_fault = λ l. none;
      };
      buffer = λ i. 0;
      running = none;
    };
    fds = λ fd. none;
    memory = λ i. 0;
  };
  ram = four_free;
  screen = record {
    has_frame = false;
    frame_buffer = λ i. 0;
    stride = 0;
    width = 0;
    height = 0;
    back_buffer = λ i. 0;
    debug_x = 10;
    debug_y = 560;
    debug_line_count = 0;
  };
  cpu = record { woken = false; env = tt };
  syscall_ret = 7;
}

mget_example :
    (a : ℕ) × (t : System Ports) × (mget empty_font same_text no_key 1 restored 0x500 2 machine
      ≡ ret (a, t))
    × (mmap empty_font same_text no_key 1 restored 0x500 2 65536 machine ≡ ret (a, t))
    × (Takes four_free 2 (some a, t.ram) ⊎ ((a ≡ minus_one) × Refuses four_free 2 (none, t.ram)))
mget_example =
    mget_lem empty_font same_text no_key 1 restored 0x500 2 65536 machine four_free-IsBytes
      (omega arith) (omega arith)
