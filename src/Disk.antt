-- ===== src/Disk.antt =====
-- What the file code sees of the disk driver: one 512-byte sector buffer at AHCI_DATA_PTR, filled by
-- `read_sector` (kernel/src/ahci.rs) and written out by `write_sector`
-- (kernel/src/boot/sys_write_file.rs). The drive is hardware, so it is a parameter: what its sectors
-- hold, and which commands fail. The callers ignore the result of `read_sector`, so after a failed
-- command they go on with what it left in the buffer.
--
-- `write_sector` looks at the wrong register and does not wait for its command
-- (Ahci.Command.write_sector-no_wait), so the command is still running when it returns: the
-- controller takes what the buffer holds by the time that it comes to it. `read_sector` begins by
-- waiting for the port, and where it succeeds the command before it is done.
use forward_os_kernel_base.Base.{refl, arith}
use forward_os_kernel_base.Base.{ℕ, ◌<◌, ◌≡◌, Option, none, some, Bool, true, false, not}
use forward_os_kernel_base.Base.{Bytes, ◌==◌, if◌then◌else◌}

pub record Drive : Type 0 where
  -- AHCI_PORT: `none` for -1, no usable port.
  pub port : Option ℕ
  -- What the disk holds when the running command is done, with the buffer as it is.
  pub sector : ℕ → Bytes
  -- `some b`: the command on this sector fails, and leaves `b` in the buffer or on the disk.
  pub read_fault : ℕ → Option Bytes
  pub write_fault : ℕ → Option Bytes

pub record Machine : Type 0 where
  pub drive : Drive
  pub buffer : Bytes
  -- The sector whose write is still running.
  pub running : Option ℕ

abbrev pub has_port : Machine → Bool
has_port m = elim m.drive.port [ none ↦ false | some p ↦ true ]

unfoldable pub read_sector : ℕ → Machine → Machine
read_sector lba m = record m {
  buffer = elim (m.drive.read_fault lba) [ none ↦ m.drive.sector lba | some b ↦ b ];
  running = elim (m.drive.read_fault lba) [ none ↦ none | some b ↦ m.running ];
}

abbrev pub set_sector : (ℕ → Bytes) → ℕ → Bytes → ℕ → Bytes
set_sector f lba b l = if lba == l then b else f l

unfoldable pub write_sector : ℕ → Machine → Machine
write_sector lba m = if not (has_port m) then m else record m {
  drive = record m.drive {
    sector =
        set_sector m.drive.sector lba
          (elim (m.drive.write_fault lba) [ none ↦ m.buffer | some b ↦ b ]);
  };
  running = some lba;
}

-- The processor stores into the buffer: a write that is running takes the new bytes to the disk.
abbrev pub store_buffer : Bytes → Machine → Machine
store_buffer b m = record m {
  drive = elim m.running [
    | none ↦ m.drive
    | some lba ↦ record m.drive {
      sector =
          set_sector m.drive.sector lba (elim (m.drive.write_fault lba) [ none ↦ b | some f ↦ f ]);
    }
  ];
  buffer = b;
}

-- A drive whose commands all succeed, with bytes on it.
pub record IsSound (d : Drive) : Type 0 where
  pub present : (p : ℕ) × (d.port ≡ some p)
  pub reads : (l : ℕ) → d.read_fault l ≡ none
  pub writes : (l : ℕ) → d.write_fault l ≡ none
  pub bytes : (l i : ℕ) → d.sector l i < 256

-- On a sound drive a read brings the sector, and leaves the drive.
pub read_sector-buffer :
    (lba : ℕ) (m : Machine) (d : Drive)
    → IsSound d
    → m.drive ≡ d
    → (read_sector lba m).buffer ≡ d.sector lba
unfolding read_sector
read_sector-buffer lba m d sound e = ground (arith, sound.reads lba)

-- After a read that succeeds no write is running, and a store changes the buffer only.
pub store_buffer-read_sector :
    (lba : ℕ) (m : Machine) (b : Bytes)
    → m.drive.read_fault lba ≡ none
    → store_buffer b (read_sector lba m) ≡ record (read_sector lba m) { buffer = b }
unfolding read_sector
store_buffer-read_sector lba m b h = rw h refl

pub running-read_sector :
    (lba : ℕ) (m : Machine) → m.drive.read_fault lba ≡ none → (read_sector lba m).running ≡ none
unfolding read_sector
running-read_sector lba m h = rw h refl

pub drive-read_sector : (lba : ℕ) (m : Machine) → (read_sector lba m).drive ≡ m.drive
unfolding read_sector
drive-read_sector lba m = refl
