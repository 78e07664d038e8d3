-- ===== src/Apic/Redirection.antt =====
-- The keyboard's entry in the table of the I/O controller. A write to the window at 0xFEC00000 selects
-- a register, one to 0xFEC00010 sets the one that is selected, as the controller's manual has it.
use forward_os_kernel_base.Base.{
  ℕ, ◌+◌, ◌*◌, ◌/◌, ◌%◌, ◌^◌, ◌≡◌, refl, ◌==◌, if◌then◌else◌, Bool, true, not,
}
use forward_os_kernel_base.Apic.{init_io_apic}

pub record IoApic : Type 0 where
  pub selected : ℕ
  pub registers : ℕ → ℕ

pub write_window : ℕ → ℕ → IoApic → IoApic
write_window addr value d =
    if addr == 0xFEC00000
    then record d { selected = value % 2 ^ 8 }
    else if addr == 0xFEC00010
    then record d { registers = λ r. if d.selected == r then value else d.registers r }
    else d

-- The entry of the interrupt line `n`: two registers.
abbrev pub entry : IoApic → ℕ → ℕ
entry d n = d.registers (0x10 + 2 * n) + 2 ^ 32 * d.registers (0x11 + 2 * n)

abbrev pub vector : ℕ → ℕ
vector e = e % 2 ^ 8

abbrev pub is_masked : ℕ → Bool
is_masked e = not (e / 2 ^ 16 % 2 == 0)

-- `init_io_apic` gives the keyboard's line, 1, the vector 0x21 of its handler and the first processor,
-- but masks it; the other registers stay, whatever they were.
pub init_io_apic_lem :
    (d : IoApic) (r : ℕ)
    → let d' = init_io_apic write_window d in
      (vector (entry d' 1) ≡ 0x21)
      × (entry d' 1 / 2 ^ 56 ≡ 0)
      × (is_masked (entry d' 1) ≡ true)
      × (d'.registers r ≡ (if 0x13 == r then 0 else if 0x12 == r then 0x10021 else d.registers r))
unfolding init_io_apic write_window
init_io_apic_lem d r = (refl, refl, refl, refl)
