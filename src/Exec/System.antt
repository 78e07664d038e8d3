-- ===== src/Exec/System.antt =====
-- The calls of `load_elf` as the kernel of this repository answers them: kernel/src/boot/fd.rs on the
-- files, kernel/src/ram.rs on the pages. A call that would stop the machine leaves the state.
use forward_os_kernel_base.Base.{ℕ, ◌+◌, ◌-◌, ◌^◌, ◌<◌, ◌≡◌, refl, sym, ap, subst, ◌∙◌, arith, min}
use forward_os_kernel_base.Base.{
  in_range, if◌then◌else◌, Option, none, some, Outcome, ret, panic, stuck, List,
}
use forward_os_kernel_base.Disk.{Drive, Machine, IsSound}
use forward_os_kernel_base.Directory.{syscall_open}
use forward_os_kernel_base.Fat.{SimpleFileSystem}
use forward_os_kernel_base.File.{Kernel, sys_read_file}
use forward_os_kernel_base.File.Read.{file_byte, Covers}
use forward_os_kernel_base.File.Seek.{sys_seek, seek}
use forward_os_kernel_base.File.Syscall.{IsReadable, ReadsFile, sys_read_file_lem}
use forward_os_kernel_base.File.Table.{FileDescriptor, FdTable, close_fd}
use forward_os_kernel_base.Ram.{RamManager, allocate_sectors_direct}
use forward_os_kernel_base.Write.ReadBack.{get_fd-update_fd, init_same}
use forward_os_kernel_base.Exec.{Calls, load_program}
use forward_os_kernel_base.Exec.Program.{IsSystem, IsProgram, LoadsProgram, load_program_lem}
use forward_os_kernel_base.Exec.Segments.{IsFile}

-- The state that the calls share.
pub record Loader : Type 0 where
  pub kernel : Kernel
  pub ram : RamManager

abbrev kernel_after : Kernel → Outcome (Option ℕ × Kernel) → Kernel
kernel_after k (ret r) = r.1
kernel_after k panic = k
kernel_after k stuck = k

abbrev count_of : Outcome (Option ℕ × Kernel) → ℕ
count_of (ret (some n, k)) = n
count_of (ret (none, k)) = 2 ^ 64 - 1
count_of panic = 0
count_of stuck = 0

abbrev opened_by : Loader → Outcome (Option ℕ × FdTable × Machine) → Option ℕ × Loader
opened_by s (ret (fd, fds, m)) =
    (fd, record s { kernel = record s.kernel { fds = fds; machine = m } })
opened_by s panic = (none, s)
opened_by s stuck = (none, s)

-- `fuel` bounds the clusters of the root directory. The variable that SYS_MMAP's address is returned
-- in is not in the memory of the model.
abbrev pub kernel_calls : ℕ → Calls Loader
kernel_calls fuel = record {
  mem = λ s. s.kernel.memory;
  set_mem = λ m s. record s { kernel = record s.kernel { memory = m } };
  sys_open = λ path s. opened_by s (syscall_open fuel path s.kernel.fds s.kernel.machine);
  sys_seek = λ fd offset s. record s {
    kernel = record s.kernel { fds = (sys_seek s.kernel.fds fd offset).1 };
  };
  sys_read_file = λ fd dest len s. (
    count_of (sys_read_file fd dest len s.kernel),
    record s { kernel = kernel_after s.kernel (sys_read_file fd dest len s.kernel) },
  );
  sys_close = λ fd s. record s { kernel = record s.kernel { fds = (close_fd s.kernel.fds fd).1 } };
  sys_mmap = λ pages s.
      let (addr, ram) = allocate_sectors_direct s.ram pages in (addr, record s { ram = ram });
}

module _ (fs : SimpleFileSystem) (d : Drive) (first size fd : ℕ) where
  -- The file that begins at cluster `first` of the drive is open through `fd`.
  pub record IsOpen (s : Loader) : Type 0 where
    pub f : FileDescriptor
    pub readable : IsReadable s.kernel fd f fs
    pub drive : s.kernel.machine.drive ≡ d
    pub cluster : f.cluster ≡ first
    pub whole : f.file_size ≡ size

  sought-IsReadable :
      (k : Kernel) (offset : ℕ) (f : FileDescriptor)
      → IsReadable k fd f fs
      → IsReadable
          (record k { fds = (sys_seek k.fds fd offset).1 })
          fd
          (record f { position = offset })
          fs
  unfolding sys_seek seek
  sought-IsReadable k offset f h = record {
    opened =
        get_fd-update_fd k.fds fd (record f { position = offset }) (sys_seek k.fds fd offset).1
          h.opened (rw (h.opened, sys_seek) refl);
    file = h.file;
    sound = h.sound;
    mounts = h.mounts;
    sectors = h.sectors;
    covers = h.covers;
    fits = h.fits;
  }

  read-IsReadable :
      (k : Kernel) (f : FileDescriptor) (dest len : ℕ) {o : Outcome (Option ℕ × Kernel)}
      → IsReadable k fd f fs
      → (r : ReadsFile fs k fd f dest len o)
      → IsReadable r.after fd (record f { position = f.position + len }) fs
  read-IsReadable k f dest len h r =
      let sound : IsSound r.after.machine.drive = subst IsSound (sym r.drive) h.sound in
      record {
        opened =
            get_fd-update_fd k.fds fd (record f { position = f.position + len }) r.after.fds
              h.opened (r.moved fd);
        file = h.file;
        sound = sound;
        mounts =
            init_same k.machine r.after.machine h.sound sound
              (λ b. ap (λ (x : Drive). x.sector 0 b) r.drive)
              (λ b. ap (λ (x : Drive). x.sector _ b) r.drive)
            ∙ h.mounts;
        sectors = h.sectors;
        covers = subst (λ (x : Drive). Covers fs x f.cluster f.file_size) (sym r.drive) h.covers;
        fits = h.fits;
      }

  module _ (fuel : ℕ) where
    abbrev calls : Calls Loader
    calls = kernel_calls fuel

    -- What a seek and a read do to the kernel of a state in which the file is open.
    read_at :
        (s : Loader) (offset dest len : ℕ) (o : IsOpen s)
        → 0 < dest
        → 0 < len
        → let k = record s.kernel { fds = (sys_seek s.kernel.fds fd offset).1 } in
          let f : FileDescriptor = record o.f { position = offset } in
          ReadsFile fs k fd f dest (min len (f.file_size - offset)) (sys_read_file fd dest len k)
    read_at s offset dest len o pd pl =
        sys_read_file_lem fd dest len
          (record s.kernel { fds = (sys_seek s.kernel.fds fd offset).1 })
          (record o.f { position = offset }) fs (sought-IsReadable s.kernel offset o.f o.readable)
          pd pl

    calls-IsFile : IsFile calls fd (file_byte fs d first) size IsOpen
    calls-IsFile = record {
      loads = λ s offset dest len x o pd pl fits.
          let k = record s.kernel { fds = (sys_seek s.kernel.fds fd offset).1 } in
          let r = read_at s offset dest len o pd pl in
          let all : min len (o.f.file_size - offset) ≡ len = omega (arith, o.whole) in
          ap (λ (y : Outcome (Option ℕ × Kernel)). (kernel_after k y).memory x) r.returns
          ∙ r.arrived x
          ∙ (λ i.
              if in_range dest (all i) x
              then file_byte fs (o.drive i) (o.cluster i) (offset + (x - dest))
              else s.kernel.memory x);
      stays = λ s offset dest len o pd pl fits.
          let k = record s.kernel { fds = (sys_seek s.kernel.fds fd offset).1 } in
          let f : FileDescriptor = record o.f { position = offset } in
          let r = read_at s offset dest len o pd pl in
          subst
            (λ (y : Outcome (Option ℕ × Kernel)). IsOpen (record s { kernel = kernel_after k y }))
            (sym r.returns)
            (record {
              f = record f { position = offset + min len (f.file_size - offset) };
              readable =
                  read-IsReadable k f dest (min len (f.file_size - offset))
                    (sought-IsReadable s.kernel offset o.f o.readable) r;
              drive = r.drive ∙ o.drive;
              cluster = o.cluster;
              whole = o.whole;
            });
    }

    -- The kernel's own calls are those that the theorem on `load_elf` asks for.
    pub calls-IsSystem : IsSystem calls fd (file_byte fs d first) size IsOpen
    calls-IsSystem = record {
      file = calls-IsFile;
      mapped = λ n x s. refl;
      mapped-Open = λ n s o. record {
        f = o.f;
        readable = o.readable;
        drive = o.drive;
        cluster = o.cluster;
        whole = o.whole;
      };
      closed = λ x s. refl;
      stored = λ m x s. refl;
      stored-Open = λ m s o. record {
        f = o.f;
        readable = record {
          opened = o.readable.opened;
          file = o.readable.file;
          sound = o.readable.sound;
          mounts = o.readable.mounts;
          sectors = o.readable.sectors;
          covers = o.readable.covers;
          fits = o.readable.fits;
        };
        drive = o.drive;
        cluster = o.cluster;
        whole = o.whole;
      };
    }

    -- For an open, readable file with a program, whose segments do not wrap, are no longer in the
    -- file than in memory and are all in the file, on a sound drive, and where the allocator gives
    -- two regions that do not wrap, are not at 0 and are apart: with the calls as the kernel
    -- answers them, `load_program` loads the program. A byte in one segment only holds the file's, a
    -- byte of the region in no segment holds 0, and the entry is moved as the segments are.
    pub load_program-kernel_calls :
        (header : ℕ) (s : Loader) (path : List ℕ)
        → IsProgram calls fd (file_byte fs d first) size header IsOpen s
        → LoadsProgram calls fd
            (file_byte fs d first)
            size
            header
            IsOpen
            s
            path
            (load_program calls path fd header s)
    load_program-kernel_calls header s path p =
        load_program_lem calls fd (file_byte fs d first) size header IsOpen s path calls-IsSystem p
