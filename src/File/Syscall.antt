-- ===== src/File/Syscall.antt =====
-- `sys_read_file` on every branch.
use forward_os_kernel_base.Base.{ℕ, ◌+◌, ◌-◌, ◌*◌, ◌^◌, ◌<◌, min, arith}
use forward_os_kernel_base.Base.{false, not, ◌||◌, ◌==◌, if◌then◌else◌}
use forward_os_kernel_base.Base.{
  Bytes, u64, in_range, ◌≡◌, refl, ◌∙◌, inl, inr, Bool-cases, ap, if-eq_false,
}
use forward_os_kernel_base.Base.{Option, some}
use forward_os_kernel_base.Disk.{Machine, Drive, IsSound, has_port}
use forward_os_kernel_base.Fat.{SimpleFileSystem, init}
use forward_os_kernel_base.Fat.Chain.{nth-zero, init_lem}
use forward_os_kernel_base.Base.{Outcome, ret}
use forward_os_kernel_base.File.{ReadResult, Kernel, cluster_size}
use forward_os_kernel_base.File.{read_from, sys_read_file}
use forward_os_kernel_base.File.Table.{FileDescriptor, FdTable, get_fd, update_fd}
use forward_os_kernel_base.File.Read.{file_byte, Covers, IsUsable, walk_chain_lem, read_chunks_lem}

-- A read that brings `size` bytes of the file at the descriptor's position to `buf`.
pub record ReadsFile (fs : SimpleFileSystem) (k : Kernel) (fd : ℕ) (f : FileDescriptor)
    (buf size : ℕ) (o : Outcome (Option ℕ × Kernel)) : Type 0 where
  pub after : Kernel
  pub returns : o ≡ ret (some size, after)
  pub drive : after.machine.drive ≡ k.machine.drive
  pub arrived :
      (x : ℕ)
      → after.memory x ≡ (
          if in_range buf size x
          then file_byte fs k.machine.drive f.cluster (f.position + (x - buf))
          else k.memory x)
  pub moved :
      (i : ℕ) → after.fds i ≡ update_fd k.fds fd (record f { position = f.position + size }) i

get_fd-some : (t : FdTable) (fd : ℕ) {f : FileDescriptor} → get_fd t fd ≡ some f → t fd ≡ some f
unfolding get_fd
get_fd-some t fd h = ground arith

read_from_lem :
    (fs : SimpleFileSystem) (d : Drive) (f : FileDescriptor) (buf size : ℕ) (memory : Bytes)
    (m : Machine)
    → IsSound d
    → IsUsable fs
    → 0 < size
    → Covers fs d f.cluster (f.position + size)
    → m.drive ≡ d
    → (r : ReadResult) × (read_from fs f buf size memory m ≡ ret r)
      × (r.machine.drive ≡ d)
      × (r.count ≡ size)
      × ((x : ℕ)
          → r.out x ≡ (
              if in_range buf size x
              then file_byte fs d f.cluster (f.position + (x - buf))
              else memory x))
unfolding read_from
read_from_lem fs d f buf size memory m sound usable pos covers e =
    let w =
      walk_chain_lem fs d f.cluster f.position (f.position + 1) 0
        (record { cluster = f.cluster; start = 0; machine = m }) sound usable
        (λ j below. covers j (omega arith)) e (nth-zero fs d f.cluster) (omega arith) (omega arith)
        (omega arith) in
    let p = w.place in
    let at : w.k * cluster_size fs + (f.position - p.start) ≡ f.position =
      omega (arith, w.start, w.before) in
    let r : ReadResult = record { count = 0; out = memory; machine = p.machine } in
    let c =
      read_chunks_lem fs d f.cluster buf (size + 1) size w.k p.cluster (f.position - p.start) r
        sound usable (λ j below. covers j (omega (arith, at))) w.drive w.reached
        (omega (arith, w.before, w.within)) (omega arith) in
    (
      c.result,
      rw (w.returns, read_from) c.returns,
      c.drive,
      c.count ∙ omega arith,
      λ x. ground (arith, c.filled x, ap (λ (p : ℕ). file_byte fs d f.cluster (p + (x - buf))) at),
    )

-- A file is being read through `fd`: the descriptor is open, the volume mounts, and the chain has a
-- cluster for every byte of the file.
pub record IsReadable (k : Kernel) (fd : ℕ) (f : FileDescriptor) (fs : SimpleFileSystem)
    : Type 0 where
  pub opened : get_fd k.fds fd ≡ some f
  pub file : f.is_dir ≡ false
  pub sound : IsSound k.machine.drive
  pub mounts : (init k.machine).0 ≡ some fs
  pub sectors : 0 < fs.sectors_per_clus
  pub covers : Covers fs k.machine.drive f.cluster f.file_size
  pub fits : f.file_size < 2 ^ 32

abbrev read_done : Kernel → ℕ → FileDescriptor → ReadResult → ℕ → ℕ → Outcome (Option ℕ × Kernel)
read_done k fd f r n position = ret (
  some n,
  record {
    machine = r.machine;
    fds = update_fd k.fds fd (record f { position = position });
    memory = r.out;
  },
)

sys_read_file_returns :
    (fd buf len : ℕ) (k : Kernel) (f : FileDescriptor) (fs : SimpleFileSystem)
    → IsReadable k fd f fs
    → (buf == 0 || len == 0) ≡ false
    → (min len (f.file_size - f.position) == 0) ≡ false
    → (r : ReadResult)
    → read_from fs f buf (min len (f.file_size - f.position)) k.memory (init k.machine).1 ≡ ret r
    → sys_read_file fd buf len k ≡ read_done k fd f r r.count (u64 (f.position + r.count))
unfolding sys_read_file
sys_read_file_returns fd buf len k f fs h given wanted r returns =
    let port : not (has_port k.machine) ≡ false = ground (arith, h.sound.present.1) in
    rw (given, h.opened, sys_read_file)
      (if-eq_false _ h.file ∙ rw (wanted, port, h.mounts, returns))

-- For a buffer that is not null, `sys_read_file` returns the number of bytes from the position to
-- the end of the file, or the buffer's length if that is less; so many bytes of the file stand in
-- the buffer, the rest of the memory, the drive and the other descriptors are as before, and the
-- position has moved behind what was read.
pub sys_read_file_lem :
    (fd buf len : ℕ) (k : Kernel) (f : FileDescriptor) (fs : SimpleFileSystem)
    → IsReadable k fd f fs
    → 0 < buf
    → 0 < len
    → ReadsFile fs k fd f buf (min len (f.file_size - f.position)) (sys_read_file fd buf len k)
unfolding sys_read_file
sys_read_file_lem fd buf len k f fs h pb pl =
    elim (Bool-cases (min len (f.file_size - f.position) == 0)) [
      | inl empty ↦ record {
        after = k;
        returns = ground (arith, h.opened, h.file);
        drive = refl;
        arrived = λ x. ground arith;
        moved = λ i. ground (arith, get_fd-some k.fds fd h.opened, f);
      }
      | inr wanted ↦
          let size = min len (f.file_size - f.position) in
          let i = init_lem k.machine h.sound h.mounts in
          let (r, returns, drive, count, arrived) =
            read_from_lem fs k.machine.drive f buf size k.memory (init k.machine).1 h.sound
              (h.sectors, i.1) (ground arith) (λ j below. h.covers j (ground arith)) i.0 in
          let given : (buf == 0 || len == 0) ≡ false = ground arith in
          let moved : u64 (f.position + size) ≡ f.position + size = ground (arith, h.fits) in
          record {
            after = record {
              machine = r.machine;
              fds = update_fd k.fds fd (record f { position = f.position + size });
              memory = r.out;
            };
            returns =
                sys_read_file_returns fd buf len k f fs h given wanted r returns
                ∙ ap (λ (n : ℕ). read_done k fd f r n (u64 (f.position + n))) count
                ∙ ap (read_done k fd f r size) moved;
            drive = drive;
            arrived = arrived;
            moved = λ i. refl;
          }
    ]
