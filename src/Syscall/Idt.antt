-- ===== src/Syscall/Idt.antt =====
-- kernel/src/interrupts.rs: the table of interrupt handlers. The handlers' addresses are the
-- linker's, so parameters; `idt_base` is the address of the table.
use forward_os_kernel_base.Base.{
  ℕ, ◌+◌, ◌-◌, ◌*◌, ◌^◌, ◌<◌, ◌≡◌, refl, arith, ◌==◌, if◌then◌else◌, ◌>>◌, u16, u32, Bool-cases,
  inl, inr, Bool, false, ◌||◌, if-eq_true, if-eq_false, sym, ◌∙◌,
}

pub record IdtEntry : Type 0 where
  pub offset_low : ℕ
  pub selector : ℕ
  pub ist : ℕ
  pub flags : ℕ
  pub offset_mid : ℕ
  pub offset_high : ℕ
  pub reserved : ℕ

unfoldable pub new : IdtEntry
new = record {
  offset_low = 0;
  selector = 0;
  ist = 0;
  flags = 0;
  offset_mid = 0;
  offset_high = 0;
  reserved = 0;
}

unfoldable pub set_handler : IdtEntry → ℕ → IdtEntry
set_handler e handler = record e {
  offset_low = u16 handler;
  selector = 0x38;
  ist = 0;
  flags = 0x8E;
  offset_mid = u16 (handler >> 16);
  offset_high = u32 (handler >> 32);
  reserved = 0;
}

abbrev pub Idt : Type 0
Idt = ℕ → IdtEntry

abbrev pub set_entry : Idt → ℕ → ℕ → Idt
set_entry t v handler i = if v == i then set_handler (t i) handler else t i

pub record Idtr : Type 0 where
  pub limit : ℕ
  pub base : ℕ

-- The table, and what `lidt` loads. An entry takes 16 bytes.
unfoldable pub init_idt : ℕ → ℕ → ℕ → ℕ → Idt → Idt × Idtr
unfolding set_handler
init_idt page_fault keyboard syscall idt_base t = (
  set_entry (set_entry (set_entry t 14 page_fault) 0x21 keyboard) 0x80 syscall,
  record { limit = u16 (256 * 16 - 1); base = idt_base },
)

-- How the processor reads a gate: the address that it enters, and whether the gate is present.
abbrev pub gate_offset : IdtEntry → ℕ
gate_offset e = e.offset_low + 2 ^ 16 * e.offset_mid + 2 ^ 32 * e.offset_high

-- The vectors that have a handler.
abbrev pub is_handled : ℕ → Bool
is_handled v = (14 == v) || ((0x21 == v) || (0x80 == v))

-- A present interrupt gate of the kernel's code segment to this address, and no stack of its own.
pub record IsGate (e : IdtEntry) (handler : ℕ) : Type 0 where
  pub offset : gate_offset e ≡ handler
  pub selector : e.selector ≡ 0x38
  pub ist : e.ist ≡ 0
  pub flags : e.flags ≡ 0x8E
  pub reserved : e.reserved ≡ 0

set_handler-IsGate :
    (e : IdtEntry) (handler : ℕ) → handler < 2 ^ 64 → IsGate (set_handler e handler) handler
unfolding set_handler
set_handler-IsGate e handler h = record {
  offset = omega arith;
  selector = refl;
  ist = refl;
  flags = refl;
  reserved = refl;
}

-- At the vectors 14, 0x21 and 0x80 stands a present interrupt gate of the segment 0x38 to the
-- handler that is meant for it, by an address of 64 bits; every other entry is as it was. `lidt`
-- loads the table's address, and the last byte of the 256 entries as the limit.
pub init_idt_lem :
    (page_fault keyboard syscall idt_base v : ℕ) (t : Idt)
    → page_fault < 2 ^ 64
    → keyboard < 2 ^ 64
    → syscall < 2 ^ 64
    → let (t', idtr) = init_idt page_fault keyboard syscall idt_base t in
      IsGate (t' 14) page_fault
      × IsGate (t' 0x21) keyboard
      × IsGate (t' 0x80) syscall
      × (t' v ≡ (if is_handled v then t' v else t v))
      × (idtr.limit + 1 ≡ 256 * 16)
      × (idtr.base ≡ idt_base)
unfolding init_idt
init_idt_lem page_fault keyboard syscall idt_base v t a b c = (
  set_handler-IsGate (t 14) page_fault a,
  set_handler-IsGate (t 0x21) keyboard b,
  set_handler-IsGate (t 0x80) syscall c,
  elim (Bool-cases (is_handled v)) [
    | inl handled ↦ sym (if-eq_true _ handled)
    | inr other ↦
        let e : (14 == v) ≡ false = ground (arith, other) in
        let f : (0x21 == v) ≡ false = ground (arith, other) in
        let g : (0x80 == v) ≡ false = ground (arith, other) in
        if-eq_false _ g ∙ if-eq_false _ f ∙ if-eq_false _ e ∙ sym (if-eq_false _ other)
  ],
  refl,
  refl,
)
