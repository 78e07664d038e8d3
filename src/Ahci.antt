-- ===== src/Ahci.antt =====
-- kernel/src/ahci.rs, `write_sector` of kernel/src/boot/sys_write_file.rs, and the choice of a port in
-- `kmain` of kernel/src/main.rs. The state is the registers from the base address on, and the memory.
-- The controller is a parameter: what it does while the driver waits one turn of a loop, and what a
-- write to one of its registers does. What is drawn on the screen is left out.
pub mod Wait
pub mod Command
mod Tests
use forward_os_kernel_base.Base.{
  ℕ, zero, suc, ◌+◌, ◌-◌, ◌*◌, ◌/◌, ◌%◌, ◌^◌, bit_and, bit_or, ◌<<◌, ◌>>◌,
}
use forward_os_kernel_base.Base.{
  Bool, true, false, not, ◌&&◌, ◌==◌, if◌then◌else◌, in_range, Option, none, some,
}
use forward_os_kernel_base.Base.{leb, Outcome, ret, panic}
use forward_os_kernel_base.Base.{Bytes, set_byte, write_u32, u32, u8}

pub record Hba : Type 0 where
  pub reg : ℕ → ℕ
  pub mem : Bytes

pub record Controller : Type 0 where
  pub turn : Hba → Hba
  pub store : ℕ → ℕ → Hba → Hba

abbrev pub px_cmd_st : ℕ
px_cmd_st = 0x0001

abbrev pub px_cmd_fre : ℕ
px_cmd_fre = 0x0010

abbrev pub px_cmd_fr : ℕ
px_cmd_fr = 0x4000

abbrev pub px_cmd_cr : ℕ
px_cmd_cr = 0x8000

abbrev pub px_is_tfes : ℕ
px_is_tfes = 1 << 30

-- The registers of a port, from the base address.
abbrev pub port_reg : ℕ → ℕ → ℕ
port_reg port_idx offset = 0x100 + port_idx * 0x80 + offset

abbrev pub is_set : ℕ → ℕ → Bool
is_set value bits = not (bit_and value bits == 0)

-- `while busy && timeout > 0 { .. timeout -= 1; }`: the timeout that is left, and the state.
unfoldable pub poll : Controller → (Hba → Bool) → ℕ → Hba → ℕ × Hba
poll c busy zero h = (0, h)
poll c busy (suc timeout) h =
    let rest = poll c busy timeout (c.turn h) in if busy h then rest else (suc timeout, h)

-- Such a loop, and `if timeout == 0 { return false; }`.
unfoldable pub require : Controller → (Hba → Bool) → ℕ → (Hba → Bool × Hba) → Hba → Bool × Hba
unfolding poll
require c busy timeout next h =
    let r = poll c busy timeout h in if r.0 == 0 then (false, r.1) else next r.1

unfoldable pub get_implemented_ports : Hba → ℕ
get_implemented_ports h = h.reg 0x0C

unfoldable pub get_port_status : ℕ → Hba → ℕ × ℕ
get_port_status port_idx h = (h.reg (port_reg port_idx 0x28), h.reg (port_reg port_idx 0x24))

-- `if (val & 0x80000000) == 0 { write_volatile(ghc, val | 0x80000000); }`
abbrev enable_ahci : Controller → Hba → Hba
enable_ahci c h =
    let val = h.reg 0x04 in
    if is_set val 0x80000000 then h else c.store 0x04 (bit_or val 0x80000000) h

unfoldable pub reset_hba : Controller → Hba → Bool × Hba
unfolding require
reset_hba c h =
    let val = h.reg 0x04 in
    let h₁ = (if is_set val 0x80000000 then h else c.turn (enable_ahci c h)) in
    let val₁ = h₁.reg 0x04 in
    if is_set val₁ 0x00000001
    then (true, h₁)
    else require c (λ h'. is_set (h'.reg 0x04) 0x00000001) 1000000
        (λ h'. (true, enable_ahci c (c.turn h'))) (c.store 0x04 (bit_or val₁ 0x00000001) h₁)

-- `write_bytes(a, 0, n)`
abbrev pub zero_bytes : ℕ → ℕ → Bytes → Bytes
zero_bytes a n m i = if in_range a n i then 0 else m i

-- `init_port` up to the wait for a device: the engine stopped, and COMRESET.
unfoldable pub start_comreset : Controller → ℕ → Hba → Hba
start_comreset c port_idx h =
    let cmd = h.reg (port_reg port_idx 0x18) in
    let h₁ =
      (if is_set cmd px_cmd_st
        then c.turn (c.store (port_reg port_idx 0x18) (bit_and cmd 0xFFFFFFFE) h)
        else h) in
    let sctl = bit_or (bit_and (h₁.reg (port_reg port_idx 0x2C)) 0xFFFFFFF0) 0x01 in
    let h₂ = c.turn (c.store (port_reg port_idx 0x2C) sctl h₁) in
    c.store (port_reg port_idx 0x2C) (bit_and sctl 0xFFFFFFF0) h₂

-- The structures cleared, the interrupts acknowledged, and the engine told to stop.
unfoldable pub clear_port : Controller → ℕ → ℕ → ℕ → ℕ → Hba → Hba
clear_port c port_idx cl_phys fb_phys ct_phys h =
    let h₁ = record h {
      mem = zero_bytes ct_phys 256 (zero_bytes fb_phys 256 (zero_bytes cl_phys 1024 h.mem));
    } in
    let h₂ = c.store (port_reg port_idx 0x14) 0 (
      c.store (port_reg port_idx 0x30) 0xFFFFFFFF
        (c.store (port_reg port_idx 0x10) 0xFFFFFFFF h₁)) in
    let cmd = bit_and (bit_and (h₂.reg (port_reg port_idx 0x18)) 0xFFFFFFEE) 0xFFFFFFDF in
    c.store (port_reg port_idx 0x18) cmd h₂

-- The addresses, the command header, and the receive engine.
unfoldable pub program_port : Controller → ℕ → ℕ → ℕ → ℕ → Hba → Hba
program_port c port_idx cl_phys fb_phys ct_phys h =
    let h₁ = c.store (port_reg port_idx 0x0C) (fb_phys >> 32) (
      c.store (port_reg port_idx 0x08) (u32 fb_phys) (
        c.store (port_reg port_idx 0x04) (cl_phys >> 32)
          (c.store (port_reg port_idx 0x00) (u32 cl_phys) h))) in
    let m =
      write_u32 (write_u32 h₁.mem (cl_phys + 8) (u32 ct_phys)) (cl_phys + 12) (ct_phys >> 32) in
    let m' = write_u32 (set_byte (set_byte m (cl_phys + 2) 1) (cl_phys + 3) 0) (cl_phys + 4) 0 in
    let h₂ = record h₁ { mem = set_byte (set_byte m' cl_phys 0x05) (cl_phys + 1) 0 } in
    c.store (port_reg port_idx 0x18) (bit_or (h₂.reg (port_reg port_idx 0x18)) px_cmd_fre) h₂

-- A device that stays busy is reported, and the start goes on.
unfoldable pub start_port : Controller → ℕ → Hba → Bool × Hba
unfolding poll require
start_port c port_idx h =
    let h₁ = (poll c (λ h'. is_set (h'.reg (port_reg port_idx 0x20)) 0x88) 10000000 h).1 in
    require c (λ h'. not (is_set (h'.reg (port_reg port_idx 0x18)) px_cmd_cr)) 1000000
      (λ h'. (true, h'))
      (c.store (port_reg port_idx 0x18) (bit_or (h₁.reg (port_reg port_idx 0x18)) px_cmd_st) h₁)

unfoldable pub init_port : Controller → ℕ → ℕ → ℕ → ℕ → Hba → Bool × Hba
unfolding require start_comreset clear_port program_port start_port
init_port c port_idx cl_phys fb_phys ct_phys h =
    require c (λ h'. not (bit_and (h'.reg (port_reg port_idx 0x28)) 0x0F == 0x03)) 5000000
      (λ h₁.
        if h₁.reg (port_reg port_idx 0x24) == 0xEB140101
        then (false, h₁)
        else require c (λ h'. is_set (h'.reg (port_reg port_idx 0x18)) px_cmd_cr) 1000000
            (λ h₂.
              require c (λ h'. is_set (h'.reg (port_reg port_idx 0x18)) px_cmd_fr) 1000000
                (λ h₃.
                  require c (λ h'. not (is_set (h'.reg (port_reg port_idx 0x18)) px_cmd_fr)) 1000000
                    (start_port c port_idx) (program_port c port_idx cl_phys fb_phys ct_phys h₃))
                h₂)
            (clear_port c port_idx cl_phys fb_phys ct_phys h₁))
      (start_comreset c port_idx h)

-- The command FIS, Register H2D, of a read or a write of one sector, written over what is there.
unfoldable pub set_fis : ℕ → ℕ → ℕ → Bytes → Bytes
set_fis ct command lba m =
    let m₁ = set_byte (set_byte (set_byte m ct 0x27) (ct + 1) 0x80) (ct + 2) command in
    let m₂ =
      set_byte (set_byte (set_byte m₁ (ct + 4) (u8 lba)) (ct + 5) (u8 (lba >> 8))) (ct + 6)
        (u8 (lba >> 16)) in
    let m₃ =
      set_byte
        (set_byte (set_byte (set_byte m₂ (ct + 7) 0x40) (ct + 8) (u8 (lba >> 24))) (ct + 9)
          (u8 (lba >> 32)))
        (ct + 10) (u8 (lba >> 40)) in
    set_byte m₃ (ct + 12) 1

-- One descriptor of 512 bytes; the top bit of its last word asks for an interrupt.
unfoldable pub set_prdt : ℕ → ℕ → Bytes → Bytes
set_prdt ct dest m =
    write_u32 (write_u32 (write_u32 m (ct + 128) (u32 dest)) (ct + 132) (dest >> 32)) (ct + 140)
      (bit_or 511 (1 << 31))

-- `read_sector` up to the command's start.
unfoldable pub issue_read : Controller → ℕ → ℕ → ℕ → ℕ → Hba → Hba
unfolding set_fis set_prdt
issue_read c port_idx lba ct dest h =
    let h₁ =
      c.store (port_reg port_idx 0x30) 0xFFFFFFFF (c.store (port_reg port_idx 0x10) 0xFFFFFFFF h) in
    c.store (port_reg port_idx 0x38) 1
      (record h₁ { mem = set_prdt ct dest (set_fis ct 0x25 lba (zero_bytes ct 256 h₁.mem)) })

-- The wait for a command: the timeout that is left, whether an error was seen, and the state.
unfoldable pub wait_command : Controller → ℕ → ℕ → Hba → ℕ × Bool × Hba
wait_command c port_idx zero h = (0, false, h)
wait_command c port_idx (suc timeout) h =
    let rest = wait_command c port_idx timeout (c.turn h) in
    let is = h.reg (port_reg port_idx 0x10) in
    if not (is_set (h.reg (port_reg port_idx 0x38)) 1)
    then (suc timeout, false, h)
    else if is_set is px_is_tfes
    then (suc timeout, true, c.store (port_reg port_idx 0x10) is h)
    else rest

-- `if timeout == 0 { return false; }` and `if tfes_detected { .. return false; }`
abbrev pub verdict : ℕ × Bool × Hba → Bool × Hba
verdict (timeout, tfes_detected, h) =
    if timeout == 0 then (false, h) else if tfes_detected then (false, h) else (true, h)

unfoldable pub finish_read : Controller → ℕ → ℕ → Hba → Bool × Hba
unfolding wait_command
finish_read c port_idx timeout h = verdict (wait_command c port_idx timeout h)

-- `read_sector` for one of the ports.
unfoldable pub read_at_port : Controller → ℕ → ℕ → ℕ → ℕ → Hba → Bool × Hba
unfolding require issue_read finish_read
read_at_port c port_idx lba ct dest h =
    require c (λ h'. is_set (h'.reg (port_reg port_idx 0x20)) 0x88) 1000000
      (λ h₁. finish_read c port_idx 10000000 (issue_read c port_idx lba ct dest h₁)) h

-- `hba.ports` has 32 elements.
unfoldable pub read_sector : Controller → ℕ → ℕ → ℕ → ℕ → Hba → Outcome (Bool × Hba)
unfolding read_at_port
read_sector c port_idx lba ct dest h =
    if leb 32 port_idx then panic else ret (read_at_port c port_idx lba ct dest h)

-- `write_sector` up to the command's start.
unfoldable pub issue_write : Controller → ℕ → ℕ → ℕ → ℕ → Hba → Hba
unfolding set_fis set_prdt
issue_write c port lba ct_ptr data_ptr h = c.store (port_reg port 0x38) 1 (record h {
  mem = set_prdt ct_ptr data_ptr (set_fis ct_ptr 0x35 lba (zero_bytes ct_ptr 64 h.mem));
})

-- The loop after it reads the word at `port_ptr`; `none` when the fuel is used up.
unfoldable pub wait_write : Controller → ℕ → ℕ → Hba → Option Hba
wait_write c port zero h = none
wait_write c port (suc fuel) h =
    let rest = wait_write c port fuel (c.turn h) in
    if not (is_set (h.reg (port_reg port 0)) 1)
    then some h
    else if is_set (h.reg (port_reg port 0x10)) 0xFD800000
    then some h
    else rest

-- `AHCI_PORT` is `none` for -1.
unfoldable pub write_sector : Controller → ℕ → Option ℕ → ℕ → ℕ → ℕ → Hba → Option Hba
unfolding issue_write wait_write
write_sector c fuel none lba ct_ptr data_ptr h = some h
write_sector c fuel (some port) lba ct_ptr data_ptr h =
    elim (wait_write c port fuel (issue_write c port lba ct_ptr data_ptr h)) [
      | none ↦ none
      | some h' ↦ some (c.turn h')
    ]

-- `for i in i..i + n` of `kmain`: the first port that can be started.
unfoldable pub select_port : Controller → ℕ → ℕ → ℕ → ℕ → ℕ → ℕ → Hba → Option ℕ × Hba
unfolding init_port
select_port c pi cl_base fb_base ct_base i zero h = (none, h)
select_port c pi cl_base fb_base ct_base i (suc n) h =
    let r = init_port c i cl_base fb_base ct_base h in
    let rest = select_port c pi cl_base fb_base ct_base (suc i) n in
    if is_set pi (1 << i) then (if r.0 then (some i, r.1) else rest r.1) else rest h

-- Where a controller is found: the two resets before the choice of a port. What the controller does
-- in the waits between them is a turn each.
unfoldable pub bring_up : Controller → ℕ → ℕ → ℕ → Hba → Option ℕ × Hba
unfolding reset_hba get_implemented_ports select_port
bring_up c cl_base fb_base ct_base h =
    let h₁ = c.turn (c.store 0x04 0x80000000 (c.turn (reset_hba c h).1)) in
    let h₂ = c.turn (reset_hba c h₁).1 in
    select_port c (get_implemented_ports h₂) cl_base fb_base ct_base 0 32 h₂
