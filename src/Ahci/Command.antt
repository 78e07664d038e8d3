-- ===== src/Ahci/Command.antt =====
-- The commands that the driver builds, read the way the controller reads them.
use forward_os_kernel_base.Base.{
  ℕ, suc, ◌+◌, ◌*◌, ◌/◌, ◌%◌, ◌^◌, ◌≤◌, ◌<◌, ◌≡◌, refl, ap, ap₂, ◌∙◌, arith,
}
use forward_os_kernel_base.Base.{false, Bytes, read_u32, write_u32, u32, ◌>>◌, some}
use forward_os_kernel_base.Base.Bits.{bit_and_mask}
use forward_os_kernel_base.Base.Memory.{read_u32-write_u32, write_u32_outside, read_u32_ext}
use forward_os_kernel_base.Ahci.{
  Hba, Controller, zero_bytes, set_fis, set_prdt, issue_read, issue_write, port_reg, is_set,
  wait_write, write_sector,
}

-- A Register H2D FIS with a 48-bit address, and the first entry of its table.
pub record Command : Type 0 where
  pub fis_type : ℕ
  pub flags : ℕ
  pub command : ℕ
  pub lba : ℕ
  pub device : ℕ
  pub count : ℕ
  pub address : ℕ
  pub bytes : ℕ

pub decode : Bytes → ℕ → Command
decode m ct = record {
  fis_type = m ct;
  flags = m (ct + 1);
  command = m (ct + 2);
  lba =
      m (ct + 4)
      + 2 ^ 8 * m (ct + 5)
      + 2 ^ 16 * m (ct + 6)
      + 2 ^ 24 * m (ct + 8)
      + 2 ^ 32 * m (ct + 9)
      + 2 ^ 40 * m (ct + 10);
  device = m (ct + 7);
  count = m (ct + 12) + 2 ^ 8 * m (ct + 13);
  address = read_u32 m (ct + 128) + 2 ^ 32 * read_u32 m (ct + 132);
  bytes = read_u32 m (ct + 140) % 2 ^ 22 + 1;
}

-- A command on one sector.
abbrev pub one_sector : ℕ → ℕ → ℕ → Command
one_sector command lba dest = record {
  fis_type = 0x27;
  flags = 0x80;
  command = command;
  lba = lba;
  device = 0x40;
  count = 1;
  address = dest;
  bytes = 512;
}

set_prdt-low :
    (ct dest : ℕ) (m : Bytes) (i : ℕ) → i < 128 → set_prdt ct dest m (ct + i) ≡ m (ct + i)
unfolding set_prdt
set_prdt-low ct dest m i h = ground arith

module _ (ct command lba : ℕ) (m : Bytes) where
  fis-head :
      (set_fis ct command lba m ct ≡ 0x27)
      × (set_fis ct command lba m (ct + 1) ≡ 0x80)
      × (set_fis ct command lba m (ct + 2) ≡ command)
      × (set_fis ct command lba m (ct + 7) ≡ 0x40)
      × (set_fis ct command lba m (ct + 12) ≡ 1)
      × (set_fis ct command lba m (ct + 13) ≡ m (ct + 13))
  unfolding set_fis
  fis-head = (ground arith, ground arith, ground arith, ground arith, ground arith, ground arith)

  fis-lba :
      (set_fis ct command lba m (ct + 4) ≡ lba % 2 ^ 8)
      × (set_fis ct command lba m (ct + 5) ≡ lba / 2 ^ 8 % 2 ^ 8)
      × (set_fis ct command lba m (ct + 6) ≡ lba / 2 ^ 16 % 2 ^ 8)
      × (set_fis ct command lba m (ct + 8) ≡ lba / 2 ^ 24 % 2 ^ 8)
      × (set_fis ct command lba m (ct + 9) ≡ lba / 2 ^ 32 % 2 ^ 8)
      × (set_fis ct command lba m (ct + 10) ≡ lba / 2 ^ 40 % 2 ^ 8)
  unfolding set_fis
  fis-lba = (ground arith, ground arith, ground arith, ground arith, ground arith, ground arith)

write_u32_before : (m : Bytes) (a v b : ℕ) → b + 4 ≤ a → read_u32 (write_u32 m a v) b ≡ read_u32 m b
write_u32_before m a v b apart =
    read_u32_ext (write_u32 m a v) m b
      (λ x from to. write_u32_outside m a v x (ground (arith, from, to, apart)))

prdt-address :
    (ct dest : ℕ) (m : Bytes)
    → dest < 2 ^ 64
    → read_u32 (set_prdt ct dest m) (ct + 128) + 2 ^ 32 * read_u32 (set_prdt ct dest m) (ct + 132)
      ≡ dest
unfolding set_prdt
prdt-address ct dest m h =
    let m₁ = write_u32 m (ct + 128) (u32 dest) in
    let m₂ = write_u32 m₁ (ct + 132) (dest >> 32) in
    let last = 2 ^ 31 + 511 in
    ap₂ (λ (lo hi : ℕ). lo + 2 ^ 32 * hi)
      (write_u32_before m₂ (ct + 140) last (ct + 128) (omega arith)
        ∙ write_u32_before m₁ (ct + 132) (dest >> 32) (ct + 128) (omega arith)
        ∙ read_u32-write_u32 m (ct + 128) (u32 dest) (omega arith))
      (write_u32_before m₂ (ct + 140) last (ct + 132) (omega arith)
        ∙ read_u32-write_u32 m₁ (ct + 132) (dest >> 32) (omega arith))
    ∙ omega arith

prdt-bytes : (ct dest : ℕ) (m : Bytes) → read_u32 (set_prdt ct dest m) (ct + 140) ≡ 2 ^ 31 + 511
unfolding set_prdt
prdt-bytes ct dest m =
    read_u32-write_u32 (write_u32 (write_u32 m (ct + 128) (u32 dest)) (ct + 132) (dest >> 32))
      (ct + 140) (2 ^ 31 + 511) (omega arith)

module _ (ct command lba dest : ℕ) (m : Bytes) where
  abbrev built : Bytes
  built = set_prdt ct dest (set_fis ct command lba m)

  low : (i : ℕ) → i < 128 → built (ct + i) ≡ set_fis ct command lba m (ct + i)
  low i h = set_prdt-low ct dest (set_fis ct command lba m) i h

  first_byte : built ct ≡ 0x27
  first_byte =
      ap built (omega arith)
      ∙ low 0 (omega arith)
      ∙ ap (set_fis ct command lba m) (omega arith)
      ∙ (fis-head ct command lba m).0

  built-lba :
      lba < 2 ^ 48
      → built (ct + 4)
          + 2 ^ 8 * built (ct + 5)
          + 2 ^ 16 * built (ct + 6)
          + 2 ^ 24 * built (ct + 8)
          + 2 ^ 32 * built (ct + 9)
          + 2 ^ 40 * built (ct + 10)
        ≡ lba
  built-lba fits =
      let (b4, b5, b6, b8, b9, b10) = fis-lba ct command lba m in
      omega (
        arith,
        low 4 (omega arith) ∙ b4,
        low 5 (omega arith) ∙ b5,
        low 6 (omega arith) ∙ b6,
        low 8 (omega arith) ∙ b8,
        low 9 (omega arith) ∙ b9,
        low 10 (omega arith) ∙ b10,
      )

  -- What the driver builds is read back as the command that is meant.
  decode-built :
      lba < 2 ^ 48 → dest < 2 ^ 64 → m (ct + 13) ≡ 0 → decode built ct ≡ one_sector command lba dest
  unfolding decode
  decode-built fits room empty =
      let (b0, b1, b2, b7, b12, b13) = fis-head ct command lba m in
      let count : built (ct + 12) + 2 ^ 8 * built (ct + 13) ≡ 1 =
        omega (arith, low 12 (omega arith) ∙ b12, low 13 (omega arith) ∙ b13 ∙ empty) in
      let flags = low 1 (omega arith) ∙ b1 in
      let name = low 2 (omega arith) ∙ b2 in
      let device = low 7 (omega arith) ∙ b7 in
      let address = prdt-address ct dest (set_fis ct command lba m) room in
      let bytes = ap (λ (w : ℕ). w % 2 ^ 22 + 1) (prdt-bytes ct dest (set_fis ct command lba m)) in
      λ i. record {
        fis_type = first_byte i;
        flags = flags i;
        command = name i;
        lba = built-lba fits i;
        device = device i;
        count = count i;
        address = address i;
        bytes = bytes i;
      }

-- A read starts its command with the memory holding, for the controller, READ DMA EXT (0x25) of one
-- sector at the address, to the buffer, of 512 bytes.
pub issue_read_lem :
    (c : Controller) (port lba ct dest : ℕ) (h : Hba)
    → lba < 2 ^ 48
    → dest < 2 ^ 64
    → (h' : Hba) × (issue_read c port lba ct dest h ≡ c.store (port_reg port 0x38) 1 h')
      × (decode h'.mem ct ≡ one_sector 0x25 lba dest)
unfolding issue_read
issue_read_lem c port lba ct dest h fits room =
    let h₁ = c.store (port_reg port 0x30) 0xFFFFFFFF (c.store (port_reg port 0x10) 0xFFFFFFFF h) in
    (
      record h₁ { mem = set_prdt ct dest (set_fis ct 0x25 lba (zero_bytes ct 256 h₁.mem)) },
      refl,
      decode-built ct 0x25 lba dest (zero_bytes ct 256 h₁.mem) fits room (ground arith),
    )

-- A write starts its command with the memory holding, for the controller, WRITE DMA EXT (0x35) of
-- one sector at the address, from the buffer, of 512 bytes.
pub issue_write_lem :
    (c : Controller) (port lba ct dest : ℕ) (h : Hba)
    → lba < 2 ^ 48
    → dest < 2 ^ 64
    → (h' : Hba) × (issue_write c port lba ct dest h ≡ c.store (port_reg port 0x38) 1 h')
      × (decode h'.mem ct ≡ one_sector 0x35 lba dest)
unfolding issue_write
issue_write_lem c port lba ct dest h fits room = (
  record h { mem = set_prdt ct dest (set_fis ct 0x35 lba (zero_bytes ct 64 h.mem)) },
  refl,
  decode-built ct 0x35 lba dest (zero_bytes ct 64 h.mem) fits room (ground arith),
)

-- The loop after a write looks at PxCLB instead of PxCI: with a command list at an even address, as
-- all are, it ends at once, whatever the command's state.
pub write_sector-no_wait :
    (c : Controller) (fuel port lba ct dest : ℕ) (h : Hba)
    → (issue_write c port lba ct dest h).reg (port_reg port 0) % 2 ≡ 0
    → write_sector c (suc fuel) (some port) lba ct dest h
      ≡ some (c.turn (issue_write c port lba ct dest h))
unfolding write_sector wait_write
write_sector-no_wait c fuel port lba ct dest h even =
    let s = issue_write c port lba ct dest h in
    let unset : is_set (s.reg (port_reg port 0)) 1 ≡ false =
      ground (arith, bit_and_mask 1 (s.reg (port_reg port 0)), even) in
    rw (unset, write_sector, wait_write) refl
