-- ===== src/App.antt =====
-- app/src/fscc.rs: the library of the applications. Each call raises the interrupt of
-- `syscall_int80_handler` and returns what it then finds in rax. That is up to the calling convention
-- of an interrupt handler, the compiler's: `epilogue` gives it, from what the handler's own
-- instructions left in rax and from the number. A slice is its address and length; an `i32` is its
-- 32-bit pattern.
pub mod Pages
mod Tests
use forward_os_kernel_base.Base.{
  ℕ, zero, suc, ◌+◌, ◌-◌, ◌%◌, ◌^◌, leb, ◌==◌, if◌then◌else◌, Option, none, some, List, Bytes, u32,
  bit_and, read_u64, write_u64, Outcome, ret, panic, stuck, and_then, true, false,
}
use forward_os_kernel_base.Draw.{Font}
use forward_os_kernel_base.Syscall.{System, Registers, syscall_int80_handler}
use forward_os_kernel_base.Syscall.Calls.{registers}

-- `fd as u64` of an `i32`.
abbrev pub sign_extended : ℕ → ℕ
sign_extended n = if leb (2 ^ 31) n then n + (2 ^ 64 - 2 ^ 32) else n

-- The keyboard's ports, read by the application.
module _ {E : Type 0} (in_port : ℕ → E → ℕ × E) where
  unfoldable pub read_key : E → Option ℕ × E
  read_key e =
      let (status, e₁) = in_port 0x64 e in
      let (sc, e₂) = in_port 0x60 e₁ in
      if bit_and status 0x01 == 0 then (none, e₁) else (some sc, e₂)

  unfoldable pub wait_key : ℕ → E → Option (ℕ × E)
  unfolding read_key
  wait_key zero e = none
  wait_key (suc fuel) e =
      let (key, e') = read_key e in elim key [ some k ↦ some (k, e') | none ↦ wait_key fuel e' ]

module _ {E : Type 0} (font : Font) (error_text : List ℕ → List ℕ) (in_port : ℕ → E → ℕ × E)
    (fuel : ℕ) (epilogue : Option ℕ → ℕ → ℕ) where
  unfoldable pub int80 : ℕ → Registers → System E → Outcome (ℕ × System E)
  unfolding syscall_int80_handler
  int80 n r s =
      and_then (syscall_int80_handler font error_text in_port fuel n r s)
        (λ (rax, t). ret (epilogue rax n, t))

  abbrev as_i32 : Outcome (ℕ × System E) → Outcome (ℕ × System E)
  as_i32 o = and_then o (λ (n, t). ret (u32 n, t))

  abbrev without_result : Outcome (ℕ × System E) → Outcome (System E)
  without_result o = and_then o (λ (n, t). ret t)

  unfoldable pub draw_text : ℕ → ℕ → ℕ → ℕ → System E → Outcome (System E)
  unfolding int80
  draw_text x y ptr len s =
      without_result (int80 15 (record { rdi = u32 x; rsi = u32 y; rdx = ptr; rcx = len }) s)

  -- The state in which it loops for ever; `exec` has a number that the kernel does not know.
  unfoldable pub exit : ℕ → System E → Outcome (System E)
  unfolding int80
  exit code s = without_result (int80 2 (registers (sign_extended code) 0 0) s)

  unfoldable pub exec : ℕ → System E → Outcome (System E)
  unfolding int80
  exec path s = without_result (int80 7 (registers path 0 0) s)

  unfoldable pub open_path : ℕ → System E → Outcome (ℕ × System E)
  unfolding int80
  open_path path s = as_i32 (int80 3 (registers path 0 0) s)

  unfoldable pub close : ℕ → System E → Outcome (ℕ × System E)
  unfolding int80
  close fd s = as_i32 (int80 4 (registers (sign_extended fd) 0 0) s)

  unfoldable pub lseek : ℕ → ℕ → ℕ → System E → Outcome (ℕ × System E)
  unfolding int80
  lseek fd offset whence s = int80 5 (registers (sign_extended fd) offset whence) s

  unfoldable pub fstat : ℕ → ℕ → System E → Outcome (ℕ × System E)
  unfolding int80
  fstat fd stat s = as_i32 (int80 6 (registers (sign_extended fd) stat 0) s)

  unfoldable pub yield_now : System E → Outcome (System E)
  unfolding int80
  yield_now s = without_result (int80 8 (registers 0 0 0) s)

  unfoldable pub read_file : ℕ → ℕ → ℕ → System E → Outcome (ℕ × System E)
  unfolding int80
  read_file fd ptr len s = int80 9 (registers (sign_extended fd) ptr len) s

  unfoldable pub write_file : ℕ → ℕ → ℕ → System E → Outcome (ℕ × System E)
  unfolding int80
  write_file fd ptr len s = int80 10 (registers (sign_extended fd) ptr len) s

  unfoldable pub seek : ℕ → ℕ → System E → Outcome (ℕ × System E)
  unfolding int80
  seek fd pos s = int80 11 (registers (sign_extended fd) pos 0) s

  -- `let mut addr: u64 = 0`, at the address `at`, then the call and the variable's value.
  abbrev with_addr : ℕ → ℕ → ℕ → ℕ → System E → Outcome (ℕ × System E)
  with_addr n at pages align s =
      and_then
        (int80 n (registers pages align at)
          (record s { kernel = record s.kernel { memory = write_u64 s.kernel.memory at 0 } }))
        (λ (rax, t). ret (read_u64 t.kernel.memory at, t))

  unfoldable pub mget : ℕ → ℕ → System E → Outcome (ℕ × System E)
  unfolding int80
  mget at pages s = with_addr 13 at pages 0 s

  unfoldable pub mmap : ℕ → ℕ → ℕ → System E → Outcome (ℕ × System E)
  unfolding int80
  mmap at pages align s = with_addr 14 at pages align s
