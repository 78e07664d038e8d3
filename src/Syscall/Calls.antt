-- ===== src/Syscall/Calls.antt =====
-- kernel/src/boot/mod.rs: the functions that raise the interrupt. A slice is its address and length.
-- The results are SYSCALL_RET, but for `sys_read`'s, which is rax; an `i32` is its 32-bit pattern.
-- `path_buf` is the address of PATH_BUF.
use forward_os_kernel_base.Base.{
  ℕ, ◌+◌, min, ◌||◌, ◌==◌, if◌then◌else◌, Option, List, [], ◌∷◌, length, take, Bytes, set_byte, u32,
  Outcome, ret, and_then,
}
use forward_os_kernel_base.Draw.{Font}
use forward_os_kernel_base.Draw.Screen.{flip}
use forward_os_kernel_base.Syscall.{System, Registers, minus_one, syscall_int80_handler}

abbrev pub registers : ℕ → ℕ → ℕ → Registers
registers rdi rsi rdx = record { rdi = rdi; rsi = rsi; rdx = rdx; rcx = 0 }

-- `copy_from_slice` of a text to an address.
unfoldable pub store : ℕ → List ℕ → Bytes → Bytes
store a [] m = m
store a (c ∷ cs) m = store (a + 1) cs (set_byte m a c)

module _ {E : Type 0} (font : Font) (error_text : List ℕ → List ℕ) (in_port : ℕ → E → ℕ × E)
    (fuel : ℕ) where
  -- The interrupt, and the same with SYSCALL_RET for its result.
  abbrev pub int80 : ℕ → Registers → System E → Outcome (Option ℕ × System E)
  int80 = syscall_int80_handler font error_text in_port fuel

  unfoldable pub call : ℕ → Registers → System E → Outcome (ℕ × System E)
  call n r s = and_then (int80 n r s) (λ (rax, t). ret (t.syscall_ret, t))

  abbrev as_i32 : Outcome (ℕ × System E) → Outcome (ℕ × System E)
  as_i32 o = and_then o (λ (n, t). ret (u32 n, t))

  unfoldable pub call_write : ℕ → ℕ → System E → Outcome (System E)
  unfolding syscall_int80_handler flip
  call_write ptr len s =
      and_then (int80 0 (registers ptr len 0) s)
        (λ (rax, t). ret (record t { screen = flip t.screen }))

  unfoldable pub call_read : ℕ → ℕ → System E → Outcome (Option ℕ × System E)
  unfolding syscall_int80_handler
  call_read ptr len s = int80 1 (registers ptr len 0) s

  -- The state in which it loops for ever.
  unfoldable pub call_exit : ℕ → System E → Outcome (System E)
  unfolding syscall_int80_handler
  call_exit code s = and_then (int80 2 (registers code 0 0) s) (λ (rax, t). ret t)

  unfoldable pub call_open : ℕ → List ℕ → System E → Outcome (ℕ × System E)
  unfolding call store
  call_open path_buf path s =
      let len = min (length path) 127 in
      let memory = set_byte (store path_buf (take len path) s.kernel.memory) (path_buf + len) 0 in
      as_i32 (
        call 3 (registers path_buf 0 0) (record s { kernel = record s.kernel { memory = memory } }))

  unfoldable pub call_read_file : ℕ → ℕ → ℕ → System E → Outcome (ℕ × System E)
  unfolding call
  call_read_file fd ptr len s = call 9 (registers (u32 fd) ptr len) s

  unfoldable pub call_close : ℕ → System E → Outcome (ℕ × System E)
  unfolding call
  call_close fd s = as_i32 (call 4 (registers (u32 fd) 0 0) s)

  unfoldable pub call_lseek : ℕ → ℕ → ℕ → System E → Outcome (ℕ × System E)
  unfolding call
  call_lseek fd offset whence s = call 5 (registers (u32 fd) offset (u32 whence)) s

  unfoldable pub call_fstat : ℕ → ℕ → System E → Outcome (ℕ × System E)
  unfolding call
  call_fstat fd stat_ptr s = as_i32 (call 6 (registers (u32 fd) stat_ptr 0) s)

  unfoldable pub call_write_file : ℕ → ℕ → ℕ → System E → Outcome (ℕ × System E)
  unfolding call
  call_write_file fd buf_ptr buf_len s =
      if (buf_ptr == 0) || (buf_len == 0)
      then ret (minus_one, s)
      else call 10 (registers (u32 fd) buf_ptr buf_len) s

  unfoldable pub call_seek : ℕ → ℕ → System E → Outcome (ℕ × System E)
  unfolding call
  call_seek fd pos s = call 11 (registers (u32 fd) pos 0) s

  unfoldable pub call_mget : ℕ → ℕ → ℕ → System E → Outcome (System E)
  unfolding syscall_int80_handler
  call_mget pages alignment result_ptr s =
      and_then (int80 13 (registers pages alignment result_ptr) s) (λ (rax, t). ret t)

  unfoldable pub call_mmap : ℕ → ℕ → ℕ → System E → Outcome (System E)
  unfolding syscall_int80_handler
  call_mmap pages alignment result_ptr s =
      and_then (int80 14 (registers pages alignment result_ptr) s) (λ (rax, t). ret t)

  unfoldable pub call_yield : System E → Outcome (System E)
  unfolding syscall_int80_handler
  call_yield s = and_then (int80 8 (registers 0 0 0) s) (λ (rax, t). ret t)

  unfoldable pub call_munmap : ℕ → ℕ → System E → Outcome (ℕ × System E)
  unfolding call
  call_munmap addr pages s = call 33 (registers addr pages 0) s
