-- ===== src/Syscall.antt =====
-- kernel/src/interrupts.rs: `syscall_int80_handler`, the system calls on the state that they share.
-- The debug messages of the functions that it calls are left out, as in the models of those; its own
-- are not. `error_text` is the text of the library's UTF-8 error for these bytes.
pub mod Utf8
pub mod Calls
pub mod Pages
pub mod Path
pub mod Idt
mod Tests
use forward_os_kernel_base.Base.{ℕ, zero, suc, ◌+◌, ◌-◌, ◌%◌, ◌^◌, min, bit_and, write_u64}
use forward_os_kernel_base.Base.{
  Bool, true, false, not, ◌&&◌, ◌||◌, ltb, ◌==◌, if◌then◌else◌, Option, none, some, List, [], ◌∷◌,
  ◌++◌, take, set_byte, u32, Bytes, Outcome, ret, panic, stuck, and_then, or_panic,
}
use forward_os_kernel_base.Base.Text.{text, decimal, upper_hex, hex_byte}
use forward_os_kernel_base.Async.{Cpu, wake}
use forward_os_kernel_base.Directory.{slice, syscall_open}
use forward_os_kernel_base.Draw.{Font}
use forward_os_kernel_base.Draw.Screen.{Screen, draw_string, flip, debug_print}
use forward_os_kernel_base.File.{Kernel, sys_read_file}
use forward_os_kernel_base.File.Seek.{sys_lseek, sys_seek, sys_fstat}
use forward_os_kernel_base.File.Table.{close_fd}
use forward_os_kernel_base.Ram.{RamManager, allocate_sectors_direct, sys_munmap}
use forward_os_kernel_base.Write.{sys_write_file}
use Utf8.{from_utf8}

-- What the calls share; `env` is what the ports read.
pub record System (E : Type 0) : Type 0 where
  pub kernel : Kernel
  pub ram : RamManager
  pub screen : Screen
  pub cpu : Cpu E
  pub syscall_ret : ℕ

pub record Registers : Type 0 where
  pub rdi : ℕ
  pub rsi : ℕ
  pub rdx : ℕ
  pub rcx : ℕ

-- -1 as 64 bits, and a result whose `none` is -1.
abbrev pub minus_one : ℕ
minus_one = 2 ^ 64 - 1

abbrev pub or_minus_one : Option ℕ → ℕ
or_minus_one none = minus_one
or_minus_one (some n) = n

-- What a call leaves in rax, if it does, and the state.
abbrev pub Result : Type 0 → Type 0
Result E = Outcome (Option ℕ × System E)

-- SYS_OPEN's path: the bytes before the first zero, `left` of them at most.
unfoldable pub path_at : Bytes → ℕ → ℕ → List ℕ
path_at mem p zero = []
path_at mem p (suc left) =
    let rest = path_at mem (p + 1) left in if mem p == 0 then [] else mem p ∷ rest

-- `hex` of SYS_WRITE_AT.
unfoldable pub hex_bytes : List ℕ → List ℕ
hex_bytes [] = []
hex_bytes (b ∷ bs) = hex_byte b ++ (text " " ++ hex_bytes bs)

module _ {E : Type 0} where
  -- `SYSCALL_RET = …`
  abbrev pub returns : ℕ → System E → Result E
  returns n s = ret (none, record s { syscall_ret = n })

  abbrev on_screen : (Screen → Option Screen) → System E → Outcome (System E)
  on_screen f s = and_then (or_panic (f s.screen)) (λ screen. ret (record s { screen = screen }))

  -- 0
  unfoldable pub write : Font → ℕ → ℕ → System E → Result E
  unfolding draw_string flip
  write font ptr len s =
      let msg = slice s.kernel.memory ptr len in
      and_then (on_screen (draw_string font 10 400 msg 0x00FFFFFF) s)
        (λ t. ret (some 0, record t { screen = flip t.screen }))

  -- The loop of 1: until the key that is read is pressed, not released.
  unfoldable pub wait_key : (ℕ → E → ℕ × E) → ℕ → E → Option (ℕ × E)
  wait_key in_port zero e = none
  wait_key in_port (suc fuel) e =
      let (status, e₁) = in_port 0x64 e in
      let (sc, e₂) = in_port 0x60 e₁ in
      elim (bit_and status 0x01 == 0) [
        | true ↦ wait_key in_port fuel e₁
        | false ↦ elim (ltb sc 0x80 && not (sc == 0)) [
          | true ↦ some (sc, e₂)
          | false ↦ wait_key in_port fuel e₂
        ]
      ]

  unfoldable pub read : (ℕ → E → ℕ × E) → ℕ → ℕ → ℕ → System E → Result E
  unfolding wait_key
  read in_port fuel buf_ptr buf_len s = elim (wait_key in_port fuel s.cpu.env) [
    | none ↦ stuck
    | some (sc, e) ↦
        let t = record s { cpu = record s.cpu { env = e } } in
        if ltb 0 buf_len && not (buf_ptr == 0)
        then ret (
          some 1,
          record t { kernel = record t.kernel { memory = set_byte t.kernel.memory buf_ptr sc } },
        )
        else ret (some minus_one, t)
  ]

  -- 2
  unfoldable pub exit : Font → System E → Result E
  unfolding draw_string flip
  exit font s =
      and_then (on_screen (draw_string font 10 600 (text "Program exited.") 0x00FF0000) s)
        (λ t. returns 0 (record t { screen = flip t.screen }))

  unfoldable pub open_path : ℕ → ℕ → System E → Result E
  unfolding path_at syscall_open
  open_path fuel path_ptr s =
      and_then
        (syscall_open fuel (path_at s.kernel.memory path_ptr 128) s.kernel.fds s.kernel.machine)
        (λ (fd, fds, machine).
          returns (or_minus_one fd)
            (record s { kernel = record s.kernel { fds = fds; machine = machine } }))

  unfoldable pub close : ℕ → System E → Result E
  unfolding close_fd
  close fd s =
      let (closed, fds) = close_fd s.kernel.fds (u32 fd) in
      returns (if closed then 0 else minus_one)
        (record s { kernel = record s.kernel { fds = fds } })

  unfoldable pub lseek : ℕ → ℕ → ℕ → System E → Result E
  unfolding sys_lseek
  lseek fd off w s =
      let (at, fds) = sys_lseek s.kernel.fds (u32 fd) off (u32 w) in
      returns (or_minus_one at) (record s { kernel = record s.kernel { fds = fds } })

  unfoldable pub fstat : ℕ → ℕ → System E → Result E
  unfolding sys_fstat
  fstat fd buf s =
      let (known, memory) = sys_fstat s.kernel.fds (u32 fd) buf s.kernel.memory in
      if buf == 0
      then returns minus_one s
      else returns (if known then 0 else minus_one)
          (record s { kernel = record s.kernel { memory = memory } })

  abbrev on_kernel : Outcome (Option ℕ × Kernel) → System E → Result E
  on_kernel o s = and_then o (λ (n, k). returns (or_minus_one n) (record s { kernel = k }))

  unfoldable pub read_file : ℕ → ℕ → ℕ → System E → Result E
  read_file fd buf len s =
      if not (buf == 0) && ltb 0 len
      then on_kernel (sys_read_file (u32 fd) buf len s.kernel) s
      else returns minus_one s

  unfoldable pub write_file : ℕ → ℕ → ℕ → ℕ → System E → Result E
  unfolding sys_write_file
  write_file fuel fd buf len s = on_kernel (sys_write_file fuel (u32 fd) buf len s.kernel) s

  unfoldable pub seek : ℕ → ℕ → System E → Result E
  unfolding sys_seek
  seek fd pos s =
      let (at, fds) = sys_seek s.kernel.fds (u32 fd) pos in
      returns at (record s { kernel = record s.kernel { fds = fds } })

  -- 13; the alignment is not used. 14 raises the same interrupt again, for 13.
  unfoldable pub mget : ℕ → ℕ → System E → Result E
  mget pages res s =
      let (addr, ram) = allocate_sectors_direct s.ram pages in
      returns 0 (record s {
        ram = ram;
        kernel = record s.kernel { memory = write_u64 s.kernel.memory res addr };
      })

  unfoldable pub write_at : Font → (List ℕ → List ℕ) → ℕ → ℕ → ℕ → ℕ → System E → Result E
  unfolding draw_string flip debug_print hex_bytes from_utf8
  write_at font error_text x y ptr len s =
      let msg = slice s.kernel.memory ptr len in
      and_then
        (on_screen
          (debug_print font (
            text "[SYS_WRITE_AT] x="
            ++ (decimal x
                ++ (text ", y="
                    ++ (decimal y
                        ++ (text ", ptr=0x"
                            ++ (upper_hex ptr ++ (text ", len=" ++ decimal len))))))))
          s)
        λ s₁.
          if (ptr == 0) || (len == 0)
          then and_then (on_screen (debug_print font (text "[SYS_WRITE_AT] invalid ptr or len")) s₁)
              (λ t. ret (some minus_one, t))
          else and_then
              (on_screen
                (debug_print font
                  (text "[SYS_WRITE_AT] data: " ++ hex_bytes (take (min len 16) msg)))
                s₁)
              λ s₂.
                if from_utf8 msg
                then and_then
                    (on_screen (debug_print font (text "[SYS_WRITE_AT] as utf8: " ++ msg)) s₂)
                    (λ s₃.
                      and_then (on_screen (draw_string font (u32 x) (u32 y) msg 0x00FFFFFF) s₃)
                        (λ t. ret (some 0, record t { screen = flip t.screen })))
                else and_then
                    (on_screen
                      (debug_print font (text "[SYS_WRITE_AT] invalid utf8: " ++ error_text msg))
                      s₂)
                    (λ t. ret (some minus_one, t))

  unfoldable pub munmap : ℕ → ℕ → System E → Result E
  munmap addr pages s = returns 0 (record s { ram = sys_munmap s.ram addr pages })

  -- The handler, by the number in rax. `fuel` bounds the clusters of the root directory and the
  -- reads of the keyboard's port.
  unfoldable pub syscall_int80_handler :
      Font → (List ℕ → List ℕ) → (ℕ → E → ℕ × E) → ℕ → ℕ → Registers → System E → Result E
  unfolding write read exit open_path close lseek fstat read_file write_file seek mget write_at
      munmap
  syscall_int80_handler font error_text in_port fuel n r s =
      if n == 0
      then write font r.rdi r.rsi s
      else if n == 1
      then read in_port fuel r.rdi r.rsi s
      else if n == 2
      then exit font s
      else if n == 3
      then open_path fuel r.rdi s
      else if n == 4
      then close r.rdi s
      else if n == 5
      then lseek r.rdi r.rsi r.rdx s
      else if n == 6
      then fstat r.rdi r.rsi s
      else if n == 8
      then returns 0 (record s { cpu = wake s.cpu })
      else if n == 9
      then read_file r.rdi r.rsi r.rdx s
      else if n == 10
      then write_file fuel r.rdi r.rsi r.rdx s
      else if n == 11
      then seek r.rdi r.rsi s
      else if (n == 13) || (n == 14)
      then mget r.rdi r.rdx s
      else if n == 15
      then write_at font error_text r.rdi r.rsi r.rdx r.rcx s
      else if n == 33
      then munmap r.rdi r.rsi s
      else ret (some minus_one, s)
