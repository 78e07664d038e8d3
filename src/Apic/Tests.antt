-- ===== src/Apic/Tests.antt =====
-- kernel/src/apic.rs: a code that comes while another waits, with the acknowledgement counted.
use forward_os_kernel_base.Base.{
  ℕ, ◌+◌, ◌≡◌, arith, ltb, ◌==◌, if◌then◌else◌, true, false, [], ◌∷◌, ◌++◌, length,
}
use forward_os_kernel_base.Async.{Cpu}
use forward_os_kernel_base.Apic.{Apic, keyboard_handler}
use forward_os_kernel_base.Apic.Handler.{keyboard_handler_lem}
use forward_os_kernel_base.Apic.Redirection.{IoApic}
use forward_os_kernel_base.Keys.{KeyBuffer}
use forward_os_kernel_base.Keys.Queue.{IsRing, contents}

abbrev one_key : KeyBuffer
one_key = record { keys = λ i. 16; head = 3; tail = 2 }

one_key-IsRing : IsRing one_key
one_key-IsRing = record { head = omega arith; tail = omega arith }

abbrev ready_apic : Apic
ready_apic = record { apic_base = 0xFEE00000; keyboard_waker = true; eoi_callback = true }

abbrev asleep : Cpu ℕ
asleep = record { woken = false; env = 0 }

-- The environment counts the acknowledgements.
abbrev count_eoi : ℕ → ℕ → ℕ → ℕ
count_eoi addr value e = if addr == 0xFEE000B0 then e + 1 else e

abbrev key_a : ℕ → ℕ → ℕ × ℕ
key_a p e = (30, e)

keyboard_handler_example :
    (contents (keyboard_handler count_eoi key_a ready_apic one_key asleep).0 ≡ (
      if ltb (length (contents one_key)) 15
      then contents one_key ++ (30 ∷ [])
      else contents one_key))
    × IsRing (keyboard_handler count_eoi key_a ready_apic one_key asleep).0
    × ((keyboard_handler count_eoi key_a ready_apic one_key asleep).1.woken ≡ true)
    × ((keyboard_handler count_eoi key_a ready_apic one_key asleep).1.env ≡ 1)
keyboard_handler_example =
    keyboard_handler_lem count_eoi key_a ready_apic one_key asleep one_key-IsRing

abbrev reset_state : IoApic
reset_state = record { selected = 0; registers = λ r. 0x10000 }
