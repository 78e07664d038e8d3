-- ===== src/Apic.antt =====
-- kernel/src/apic.rs: the interrupt controllers; and `keyboard_handler` of kernel/src/interrupts.rs,
-- which acknowledges its interrupt there. The registers and the ports are parameters: functions on
-- the environment `E`, which also say how it moves on.
pub mod Redirection
pub mod Handler
mod Tests
use forward_os_kernel_base.Base.{ℕ, ◌+◌, ◌*◌, ◌/◌, ◌%◌, ◌^◌, bit_and, bit_or, ◌<<◌}
use forward_os_kernel_base.Base.{Bool, true, false, if◌then◌else◌, u32}
use forward_os_kernel_base.Async.{Cpu, wake}
use forward_os_kernel_base.Keys.{KeyBuffer, put_key}

-- APIC_BASE, KEYBOARD_WAKER and EOI_CALLBACK: whether a waker has been registered, and whether the
-- callback, which is always `apic_eoi`, has been set.
pub record Apic : Type 0 where
  pub apic_base : ℕ
  pub keyboard_waker : Bool
  pub eoi_callback : Bool

unfoldable pub register_keyboard_waker : Apic → Apic
register_keyboard_waker a = record a { keyboard_waker = true }

-- The waker is the executor's, whose `wake_by_ref` is `wake`.
unfoldable pub wake_keyboard : {E : Type 0} → Apic → Cpu E → Cpu E
wake_keyboard a c = if a.keyboard_waker then wake c else c

module _ {E : Type 0} (write_volatile : ℕ → ℕ → E → E) where
  -- The value of the model-specific register 0x1B is an argument.
  unfoldable pub init : ℕ → (ℕ → E → ℕ × E) → Apic → E → Apic × E
  init msr read_volatile a e =
      let low = u32 msr in
      let high = msr / 2 ^ 32 in
      let base = bit_and (bit_or (high << 32) low) 0xFFFFF000 in
      let (val, e₁) = read_volatile (base + 0xF0) e in
      let e₂ = write_volatile (base + 0xF0) (bit_or val 0x1FF) e₁ in
      (record a { apic_base = base; eoi_callback = true }, write_volatile (base + 0x320) 0x10000 e₂)

  unfoldable pub apic_eoi : Apic → E → E
  apic_eoi a e = write_volatile (a.apic_base + 0xB0) 0 e

  unfoldable pub write_io_apic : ℕ → ℕ → ℕ → E → E
  write_io_apic base reg value e = write_volatile (base + 0x10) value (write_volatile base reg e)

  unfoldable pub init_io_apic : E → E
  unfolding write_io_apic
  init_io_apic e =
      write_io_apic 0xFEC00000 0x13 0 (write_io_apic 0xFEC00000 0x12 (bit_or 0x21 (1 << 16)) e)

  -- The ring and what the handler wakes.
  unfoldable pub keyboard_handler : (ℕ → E → ℕ × E) → Apic → KeyBuffer → Cpu E → KeyBuffer × Cpu E
  unfolding put_key wake_keyboard apic_eoi
  keyboard_handler in_port a k c =
      let (sc, e) = in_port 0x60 c.env in
      let c' = wake (wake_keyboard a (record c { env = e })) in
      (put_key k sc, if a.eoi_callback then record c' { env = apic_eoi a c'.env } else c')
