-- ===== src/Write/Syscall.antt =====
-- `sys_write_file` on a file that is long enough already.
use forward_os_kernel_base.Base.{
  ℕ, ◌+◌, ◌-◌, ◌*◌, ◌^◌, ◌≤◌, ◌<◌, ◌≡◌, refl, sym, ap, subst, ◌∙◌, arith,
}
use forward_os_kernel_base.Base.{
  false, not, ◌||◌, ltb, ◌==◌, in_range, if◌then◌else◌, if-eq_false, Option, none, some, Bytes,
  IsBytes, u64, Outcome, ret,
}
use forward_os_kernel_base.Disk.{
  Drive, Machine, IsSound, has_port, read_sector, drive-read_sector, running-read_sector,
}
use forward_os_kernel_base.Fat.{SimpleFileSystem, init}
use forward_os_kernel_base.Fat.Chain.{nth, nth-zero, init_lem}
use forward_os_kernel_base.File.{Kernel, Place, cluster_size}
use forward_os_kernel_base.File.Read.{file_byte, Covers, IsUsable}
use forward_os_kernel_base.File.Syscall.{IsReadable}
use forward_os_kernel_base.File.Table.{FileDescriptor, FdTable, update_fd}
use forward_os_kernel_base.Write.{seek_cluster, write_chunks, finish, sys_write_file}
use forward_os_kernel_base.Write.Chunks.{write_chunks_lem}
use forward_os_kernel_base.Write.InPlace.{IsApart, IsOff, IsOn, if_cong}
use forward_os_kernel_base.Write.Seek.{Seeks, seek_cluster_lem}

-- The file of a descriptor can be written over: it is readable, and its clusters are apart.
pub record IsWritable (k : Kernel) (fd : ℕ) (f : FileDescriptor) (fs : SimpleFileSystem)
    : Type 0 where
  pub readable : IsReadable k fd f fs
  pub apart : IsApart fs (nth fs k.machine.drive f.cluster)
  pub memory : IsBytes k.memory

-- A write of `len` bytes from `buf` at the descriptor's position.
pub record WritesFile (fs : SimpleFileSystem) (k : Kernel) (fd : ℕ) (f : FileDescriptor)
    (buf len : ℕ) (o : Outcome (Option ℕ × Kernel)) : Type 0 where
  pub after : Kernel
  pub returns : o ≡ ret (some len, after)
  pub sound : IsSound after.machine.drive
  pub done : after.machine.running ≡ none
  pub chain : (j : ℕ) → nth fs after.machine.drive f.cluster j ≡ nth fs k.machine.drive f.cluster j
  pub bytes :
      (p : ℕ)
      → file_byte fs after.machine.drive f.cluster p ≡ (
          if in_range f.position len p
          then k.memory (buf + (p - f.position))
          else file_byte fs k.machine.drive f.cluster p)
  pub outside :
      (l b : ℕ)
      → IsOff fs (nth fs k.machine.drive f.cluster) l
      → after.machine.drive.sector l b ≡ k.machine.drive.sector l b
  pub memory : after.memory ≡ k.memory
  pub moved :
      (i : ℕ) → after.fds i ≡ update_fd k.fds fd (record f { position = f.position + len }) i

finish_lem :
    (fuel : ℕ) (fs : SimpleFileSystem) (fd : ℕ) (f : FileDescriptor) (len : ℕ) (m : Machine)
    (fds : FdTable)
    → f.position + len ≤ f.file_size
    → f.file_size < 2 ^ 32
    → finish fuel fs fd f len m fds
      ≡ ret (read_sector 2048 m, update_fd fds fd (record f { position = u64 (f.position + len) }))
unfolding finish
finish_lem fuel fs fd f len m fds within small =
    let stays : ltb f.file_size (u64 (f.position + len)) ≡ false = ground (arith, within, small) in
    if-eq_false _ stays

sys_write_file_returns :
    (fuel fd buf len written : ℕ) (k : Kernel) (f : FileDescriptor) (fs : SimpleFileSystem)
    (p : Place) (m m' : Machine) (fds : FdTable)
    → IsReadable k fd f fs
    → (buf == 0 || len == 0) ≡ false
    → seek_cluster fs f.position
        (f.position + 1)
        (record { cluster = f.cluster; start = 0; machine = (init k.machine).1 })
      ≡ ret (some p, p.machine)
    → write_chunks fs k.memory buf (len + 1) len 0 p.cluster (f.position - p.start) p.machine
      ≡ ret (written, m)
    → finish fuel fs fd f written m k.fds ≡ ret (m', fds)
    → sys_write_file fuel fd buf len k ≡ ret (some written, record k { machine = m'; fds = fds })
unfolding sys_write_file
sys_write_file_returns fuel fd buf len written k f fs p m m' fds h given sought wrote ended =
    let port : not (has_port k.machine) ≡ false = ground (arith, h.sound.present.1) in
    rw (given, h.opened, sys_write_file)
      (if-eq_false _ h.file ∙ rw (port, h.mounts, sought, wrote, ended))

-- The chunks from the place that the walk found, for a position of the file.
record Places (fs : SimpleFileSystem) (d : Drive) (f : FileDescriptor) (source : Bytes)
    (buf len : ℕ) (m : Machine) : Type 0 where
  place : Place
  final : Machine
  sought :
      seek_cluster fs f.position
        (f.position + 1)
        (record { cluster = f.cluster; start = 0; machine = m })
      ≡ ret (some place, place.machine)
  wrote :
      write_chunks fs source buf
        (len + 1)
        len
        0
        place.cluster
        (f.position - place.start)
        place.machine
      ≡ ret (len, final)
  on : IsOn fs f.cluster (nth fs d f.cluster) final.drive
  bytes :
      (q : ℕ)
      → file_byte fs final.drive f.cluster q ≡ (
          if in_range f.position len q
          then source (buf + (q - f.position))
          else file_byte fs d f.cluster q)
  outside : (l b : ℕ) → IsOff fs (nth fs d f.cluster) l → final.drive.sector l b ≡ d.sector l b

module _ (fs : SimpleFileSystem) (d : Drive) (f : FileDescriptor) (source : Bytes) (buf len : ℕ)
    (sound : IsSound d) (usable : IsUsable fs) (fits : Covers fs d f.cluster (f.position + len))
    (apart : IsApart fs (nth fs d f.cluster)) (memory : IsBytes source) where
  written_from :
      (from : ℕ) (p : Place) (w : Machine) (final : Machine) (written : ℕ)
      → from ≡ f.position
      → written ≡ 0
      → w.drive ≡ d
      → ((q : ℕ)
          → file_byte fs final.drive f.cluster q ≡ (
              if in_range from len q
              then source (buf + written + (q - from))
              else file_byte fs w.drive f.cluster q))
      → (q : ℕ)
      → file_byte fs final.drive f.cluster q ≡ (
          if in_range f.position len q
          then source (buf + (q - f.position))
          else file_byte fs d f.cluster q)
  written_from from p w final written e z same h q =
      let place : buf + written + (q - from) ≡ buf + (q - f.position) = omega arith in
      h q
      ∙ if_cong (ap (λ (n : ℕ). in_range n len q) e) (ap source place)
          (ap (λ (x : Drive). file_byte fs x f.cluster q) same)

  places :
      (m : Machine)
      → Seeks fs d f.cluster f.position (
          seek_cluster fs f.position
            (f.position + 1)
            (record { cluster = f.cluster; start = 0; machine = m }))
      → Places fs d f source buf len m
  places m sk =
      let p = sk.place in
      let at : sk.k * cluster_size fs + (f.position - p.start) ≡ f.position =
        omega (arith, sk.start, sk.before) in
      let on : IsOn fs f.cluster (nth fs d f.cluster) p.machine.drive =
        subst (IsOn fs f.cluster (nth fs d f.cluster)) (sym sk.drive)
          (record { sound = sound; chained = λ j. refl }) in
      let w =
        write_chunks_lem fs f.cluster (nth fs d f.cluster) usable apart source buf (len + 1) len 0
          sk.k p.cluster (f.position - p.start) p.machine memory on
          (λ j below. fits j (omega (arith, at))) sk.reached (omega (arith, sk.before, sk.within))
          (omega arith) in
      record {
        place = p;
        final = w.final;
        sought = sk.returns;
        wrote =
            w.returns
            ∙ ap (λ (n : ℕ). ret (n, w.final)) (let all : 0 + len ≡ len = omega arith in all);
        on = w.on;
        bytes =
            written_from (sk.k * cluster_size fs + (f.position - p.start)) p p.machine w.final 0 at
              refl sk.drive w.bytes;
        outside = λ l b off. w.outside l b off ∙ ap (λ (x : Drive). x.sector l b) sk.drive;
      }

written_file :
    (fuel fd buf len : ℕ) (k : Kernel) (f : FileDescriptor) (fs : SimpleFileSystem)
    → IsReadable k fd f fs
    → 0 < buf
    → 0 < len
    → f.position + len ≤ f.file_size
    → Places fs k.machine.drive f k.memory buf len (init k.machine).1
    → WritesFile fs k fd f buf len (sys_write_file fuel fd buf len k)
written_file fuel fd buf len k f fs h pb pl within w =
    let given : (buf == 0 || len == 0) ≡ false = ground (arith, pb, pl) in
    let settled : (read_sector 2048 w.final).drive ≡ w.final.drive =
      drive-read_sector 2048 w.final in
    let position : u64 (f.position + len) ≡ f.position + len = omega (arith, h.fits) in
    record {
      after = record k {
        machine = read_sector 2048 w.final;
        fds = update_fd k.fds fd (record f { position = u64 (f.position + len) });
      };
      returns =
          sys_write_file_returns fuel fd buf len len k f fs w.place w.final
            (read_sector 2048 w.final)
            (update_fd k.fds fd (record f { position = u64 (f.position + len) })) h given w.sought
            w.wrote (finish_lem fuel fs fd f len w.final k.fds within h.fits);
      sound = subst IsSound (sym settled) w.on.sound;
      done = running-read_sector 2048 w.final (w.on.sound.reads 2048);
      chain = λ j. ap (λ (e : Drive). nth fs e f.cluster j) settled ∙ w.on.chained j;
      bytes = λ q. ap (λ (e : Drive). file_byte fs e f.cluster q) settled ∙ w.bytes q;
      outside = λ l b off. ap (λ (e : Drive). e.sector l b) settled ∙ w.outside l b off;
      memory = refl;
      moved = λ j. ap (λ (n : ℕ). update_fd k.fds fd (record f { position = n }) j) position;
    }

-- On a sound drive whose volume mounts, for an open file whose chain covers its size and whose
-- clusters are apart from each other and from the FAT, a buffer of bytes that is not null and a
-- write within the file: `sys_write_file` returns the length; the bytes of the buffer stand in the
-- file from the position on, the other bytes of the file, its chain, the sectors of no cluster of
-- it, the memory and the other descriptors are as before, the drive stays sound, and the position
-- has moved behind what was written. No write is still running at the end: `write_sector` does not
-- wait for its command, but the read that follows each does.
pub sys_write_file_lem :
    (fuel fd buf len : ℕ) (k : Kernel) (f : FileDescriptor) (fs : SimpleFileSystem)
    → IsWritable k fd f fs
    → 0 < buf
    → 0 < len
    → f.position + len ≤ f.file_size
    → WritesFile fs k fd f buf len (sys_write_file fuel fd buf len k)
sys_write_file_lem fuel fd buf len k f fs h pb pl within =
    let d = k.machine.drive in
    let i = init_lem k.machine h.readable.sound h.readable.mounts in
    let usable : IsUsable fs = (h.readable.sectors, i.1) in
    let w =
      places fs d f k.memory buf len h.readable.sound usable
        (λ j below. h.readable.covers j (omega arith)) h.apart h.memory (init k.machine).1
        (seek_cluster_lem fs d f.cluster f.position (f.position + 1) 0
          (record { cluster = f.cluster; start = 0; machine = (init k.machine).1 }) h.readable.sound
          usable (λ j below. h.readable.covers j (omega arith)) i.0 (nth-zero fs d f.cluster)
          (omega arith) (omega arith) (omega arith)) in
    written_file fuel fd buf len k f fs h.readable pb pl within w
