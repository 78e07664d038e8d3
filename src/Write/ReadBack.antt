-- ===== src/Write/ReadBack.antt =====
-- `sys_write_file`, then `sys_lseek` back, then `sys_read_file`.
use forward_os_kernel_base.Base.{
  ℕ, ◌+◌, ◌-◌, ◌*◌, ◌^◌, ◌≤◌, ◌<◌, min, ◌≡◌, refl, sym, ap, subst, ◌∙◌, arith,
}
use forward_os_kernel_base.Base.{
  Bytes, u64, not, ◌==◌, none, true, false, in_range, if◌then◌else◌, if-eq_false, if-eq_true,
  Option, some, Outcome, ret, and_then,
}
use forward_os_kernel_base.Disk.{Machine, IsSound, read_sector, read_sector-buffer}
use forward_os_kernel_base.Fat.{SimpleFileSystem, init, partition_lba, read_bpb}
use forward_os_kernel_base.Fat.Chain.{nth}
use forward_os_kernel_base.File.{Kernel, sys_read_file}
use forward_os_kernel_base.File.Read.{file_byte}
use forward_os_kernel_base.File.Seek.{is_negative, sys_lseek, new_position}
use forward_os_kernel_base.File.Syscall.{IsReadable, ReadsFile, sys_read_file_lem}
use forward_os_kernel_base.File.Table.{FileDescriptor, FdTable, get_fd, update_fd}
use forward_os_kernel_base.Write.{sys_write_file}
use forward_os_kernel_base.Write.InPlace.{IsOff}
use forward_os_kernel_base.Write.Syscall.{IsWritable, WritesFile, sys_write_file_lem}

-- What `init` makes of the two boot sectors.
abbrev boot_volume : Bytes → Bytes → Option SimpleFileSystem
boot_volume mbr sector =
    let vbr = read_bpb sector in
    if not (vbr.bytes_per_sec == 512)
    then none
    else some (record {
      cluster_begin_lba = u64 (partition_lba mbr + vbr.reserved_secs + vbr.num_fats * vbr.fat_sz32);
      sectors_per_clus = vbr.sectors_per_clus;
      root_cluster = vbr.root_cluster;
      reserved_secs = vbr.reserved_secs;
      fat_sz32 = vbr.fat_sz32;
      num_fats = vbr.num_fats;
      part_lba = partition_lba mbr;
    })

pub boot_volume_lem :
    (m : Machine)
    → IsSound m.drive
    → (init m).0
      ≡ boot_volume (m.drive.sector 0) (m.drive.sector (partition_lba (m.drive.sector 0)))
unfolding init read_sector
boot_volume_lem m s =
    let master : (read_sector 0 m).buffer ≡ m.drive.sector 0 =
      read_sector-buffer 0 m m.drive s refl in
    ground (arith, s.reads 0, s.reads (partition_lba (m.drive.sector 0)))

-- The volume mounts as before while the boot sectors stay.
pub init_same :
    (m m' : Machine)
    → IsSound m.drive
    → IsSound m'.drive
    → ((b : ℕ) → m'.drive.sector 0 b ≡ m.drive.sector 0 b)
    → ((b : ℕ)
        → m'.drive.sector (partition_lba (m.drive.sector 0)) b
          ≡ m.drive.sector (partition_lba (m.drive.sector 0)) b)
    → (init m').0 ≡ (init m).0
init_same m m' s s' master boot =
    let same : m'.drive.sector 0 ≡ m.drive.sector 0 = λ i b. master b i in
    let same_boot : m'.drive.sector (partition_lba (m'.drive.sector 0))
        ≡ m.drive.sector (partition_lba (m.drive.sector 0)) =
      ap (λ (b : Bytes). m'.drive.sector (partition_lba b)) same ∙ (λ i b. boot b i) in
    boot_volume_lem m' s' ∙ (λ i. boot_volume (same i) (same_boot i)) ∙ sym (boot_volume_lem m s)

pub get_fd-update_fd :
    (t : FdTable) (fd : ℕ) {f : FileDescriptor} (g : FileDescriptor) (u : FdTable)
    → get_fd t fd ≡ some f
    → u fd ≡ update_fd t fd g fd
    → get_fd u fd ≡ some g
unfolding get_fd
get_fd-update_fd t fd g u h e = ground (arith, e)

rewind :
    (t : FdTable) (fd p : ℕ) (g : FileDescriptor)
    → get_fd t fd ≡ some g
    → p < 2 ^ 63
    → sys_lseek t fd p 0 ≡ (some p, update_fd t fd (record g { position = p }))
unfolding sys_lseek new_position
rewind t fd p g h small =
    let forward : is_negative p ≡ false = ground arith in rw (h, forward, sys_lseek) refl

abbrev pub rewound : ℕ → ℕ → Kernel → Kernel
rewound fd position k = record k { fds = (sys_lseek k.fds fd position 0).1 }

-- A write, a seek to `position`, and a read of as many bytes.
abbrev pub write_and_read : ℕ → ℕ → ℕ → ℕ → ℕ → ℕ → Kernel → Outcome (Option ℕ × Kernel)
write_and_read fuel fd buf out len position k =
    and_then (sys_write_file fuel fd buf len k)
      (λ r. sys_read_file fd out len (rewound fd position r.1))

pub record ReadsBack (k : Kernel) (buf len out : ℕ) (o : Outcome (Option ℕ × Kernel)) : Type 0 where
  pub after : Kernel
  pub returns : o ≡ ret (some len, after)
  pub back : (i : ℕ) → i < len → after.memory (out + i) ≡ k.memory (buf + i)
  pub kept : (x : ℕ) → in_range out len x ≡ false → after.memory x ≡ k.memory x

rewound-IsReadable :
    (k : Kernel) (fd buf len : ℕ) (f : FileDescriptor) (fs : SimpleFileSystem)
    {o : Outcome (Option ℕ × Kernel)}
    → IsReadable k fd f fs
    → IsOff fs (nth fs k.machine.drive f.cluster) 0
    → IsOff fs (nth fs k.machine.drive f.cluster) (partition_lba (k.machine.drive.sector 0))
    → f.position + len ≤ f.file_size
    → (w : WritesFile fs k fd f buf len o) → IsReadable (rewound fd f.position w.after) fd f fs
rewound-IsReadable k fd buf len f fs h master boot within w =
    let g = record f { position = f.position + len } in
    let k₁ = w.after in
    let opened = get_fd-update_fd k.fds fd g k₁.fds h.opened (w.moved fd) in
    let back = rewind k₁.fds fd f.position g opened (omega (arith, h.fits)) in
    record {
      opened =
          get_fd-update_fd k₁.fds fd f (sys_lseek k₁.fds fd f.position 0).1 opened
            (ap (λ x. x.1 fd) back);
      file = h.file;
      sound = w.sound;
      mounts =
          init_same k.machine k₁.machine h.sound w.sound (λ b. w.outside 0 b master)
            (λ b. w.outside (partition_lba (k.machine.drive.sector 0)) b boot)
          ∙ h.mounts;
      sectors = h.sectors;
      covers = λ j below. let (c, e) = h.covers j below in (c, w.chain j ∙ e);
      fits = h.fits;
    }

read_back :
    (k k₁ : Kernel) (fd buf len out : ℕ) (f : FileDescriptor) (fs : SimpleFileSystem)
    {o : Outcome (Option ℕ × Kernel)}
    → f.position + len ≤ f.file_size
    → k₁.memory ≡ k.memory
    → ((p : ℕ)
        → in_range f.position len p ≡ true
        → file_byte fs k₁.machine.drive f.cluster p ≡ k.memory (buf + (p - f.position)))
    → ReadsFile fs k₁ fd f out (min len (f.file_size - f.position)) o
    → ReadsBack k buf len out o
read_back k k₁ fd buf len out f fs within same stands r =
    let all : min len (f.file_size - f.position) ≡ len = ground (arith, within) in
    record {
      after = r.after;
      returns = r.returns ∙ ap (λ (n : ℕ). ret (some n, r.after)) all;
      back = λ i lt.
          let read : in_range out (min len (f.file_size - f.position)) (out + i) ≡ true =
            ground (arith, all, lt) in
          let inside : in_range f.position len (f.position + (out + i - out)) ≡ true =
            ground (arith, lt) in
          let place : buf + (f.position + (out + i - out) - f.position) ≡ buf + i = omega arith in
          r.arrived (out + i)
          ∙ if-eq_true _ read
          ∙ stands (f.position + (out + i - out)) inside
          ∙ ap k.memory place;
      kept = λ x off.
          let unread : in_range out (min len (f.file_size - f.position)) x ≡ false =
            ap (λ (n : ℕ). in_range out n x) all ∙ off in
          r.arrived x ∙ if-eq_false _ unread ∙ ap (λ (b : ℕ → ℕ). b x) same;
    }

-- On a sound drive whose volume mounts, for an open file whose chain covers its size and whose
-- clusters are apart from each other, from the FAT and from the two boot sectors, buffers that are
-- not null, the first one of bytes, and a write within the file: after `sys_write_file` of `len`
-- bytes and a seek back to where it began, `sys_read_file` of `len` bytes returns `len` and brings
-- the bytes that were written; the memory outside its buffer is as before. The write commands are
-- still running when `write_sector` returns; each is done in the wait of the read behind it.
pub sys_read_file-sys_write_file :
    (fuel fd buf out len : ℕ) (k : Kernel) (f : FileDescriptor) (fs : SimpleFileSystem)
    → IsWritable k fd f fs
    → IsOff fs (nth fs k.machine.drive f.cluster) 0
    → IsOff fs (nth fs k.machine.drive f.cluster) (partition_lba (k.machine.drive.sector 0))
    → 0 < buf
    → 0 < out
    → 0 < len
    → f.position + len ≤ f.file_size
    → ReadsBack k buf len out (write_and_read fuel fd buf out len f.position k)
sys_read_file-sys_write_file fuel fd buf out len k f fs h master boot pb po pl within =
    let w = sys_write_file_lem fuel fd buf len k f fs h pb pl within in
    let k₂ = rewound fd f.position w.after in
    let readable = rewound-IsReadable k fd buf len f fs h.readable master boot within w in
    let r = sys_read_file_lem fd out len k₂ f fs readable po pl in
    subst
      (λ (o : Outcome (Option ℕ × Kernel)).
        ReadsBack k buf len out
          (and_then o (λ x. sys_read_file fd out len (rewound fd f.position x.1))))
      (sym w.returns)
      (read_back k k₂ fd buf len out f fs within w.memory
        (λ p inside. w.bytes p ∙ if-eq_true _ inside) r)
