-- ===== src/File.antt =====
-- kernel/src/boot/fd.rs: reading a file through its descriptor.
pub mod Table
pub mod Cluster
pub mod Read
pub mod Syscall
pub mod Seek
mod Tests
use forward_os_kernel_base.Base.{ℕ, zero, suc, ◌+◌, ◌-◌, ◌*◌, ◌/◌, ◌%◌, ◌^◌, min}
use forward_os_kernel_base.Base.{Bool, true, false, not, ◌&&◌, ◌||◌, ltb, leb, ◌==◌, if◌then◌else◌}
use forward_os_kernel_base.Base.{Outcome, ret, panic, stuck, Option, none, some, Bytes, u64, copy}
use forward_os_kernel_base.Disk.{Machine, has_port, read_sector}
use forward_os_kernel_base.Fat.{SimpleFileSystem, init, get_lba_of_cluster, next_cluster}
use Table.{FdTable, FileDescriptor, get_fd, update_fd}

abbrev pub cluster_size : SimpleFileSystem → ℕ
cluster_size fs = fs.sectors_per_clus * 512

-- What `read_cluster` leaves: the count of bytes, the destination, the machine.
pub record ReadResult : Type 0 where
  pub count : ℕ
  pub out : Bytes
  pub machine : Machine

-- The body of the loop over the sectors of a cluster; the destination begins at `pos`.
pub read_one : ℕ → ℕ → ℕ → ℕ → ℕ → ReadResult → ReadResult
read_one lba coff size pos i r =
    let m = read_sector (u64 (lba + i)) r.machine in
    let first = i * 512 in
    let last = first + 512 in
    let from = if ltb coff first then first else coff in
    let to = if ltb last (coff + size) then last else coff + size in
    if ltb coff last && ltb first (coff + size)
    then record {
      count = r.count + (to - from);
      out = copy m.buffer (from - first) (to - from) r.out (pos + (from - coff));
      machine = m;
    }
    else record r { machine = m }

pub read_sectors : ℕ → ℕ → ℕ → ℕ → ℕ → ℕ → ReadResult → ReadResult
unfolding read_one
read_sectors lba coff size pos zero i r = r
read_sectors lba coff size pos (suc left) i r =
    read_sectors lba coff size pos left (i + 1) (read_one lba coff size pos i r)

-- `buf` is the slice of `len` bytes at `pos` of `out`.
pub read_cluster : SimpleFileSystem → ℕ → Bytes → ℕ → ℕ → ℕ → Machine → ReadResult
unfolding read_sectors
read_cluster fs cluster out pos len offset m =
    if not (has_port m)
    then record { count = 0; out = out; machine = m }
    else let coff = offset % cluster_size fs in
      let size = min len (cluster_size fs - coff) in
      read_sectors (get_lba_of_cluster fs cluster) coff size pos fs.sectors_per_clus 0
        (record { count = 0; out = out; machine = m })

-- Where the walk along the chain stopped: a cluster, and the file offset of its first byte.
pub record Place : Type 0 where
  pub cluster : ℕ
  pub start : ℕ
  pub machine : Machine

-- `while cluster_start_offset + cluster_size <= offset { … }`
pub walk_chain : SimpleFileSystem → ℕ → ℕ → Place → Outcome Place
walk_chain fs offset zero p = stuck
walk_chain fs offset (suc fuel) p =
    let (found, m) = next_cluster fs p.cluster p.machine in
    elim (leb (p.start + cluster_size fs) offset) [
      | false ↦ ret p
      | true ↦ elim found [
        | none ↦ ret (record p { machine = m })
        | some next ↦
            walk_chain fs offset fuel
              (record { cluster = next; start = p.start + cluster_size fs; machine = m })
      ]
    ]

-- One chunk; `r.count` is `total_read`, which is also `buf_pos`. The chunk's bound wraps where the
-- walk ended early.
pub read_chunk : SimpleFileSystem → ℕ → ℕ → ℕ → ℕ → ReadResult → ReadResult
unfolding read_cluster
read_chunk fs buf remaining cluster offset r =
    let chunk = min remaining (u64 (cluster_size fs + 2 ^ 64 - offset)) in
    read_cluster fs cluster r.out (buf + r.count) chunk offset r.machine

-- `while remaining > 0 { … }`. A cluster of no sectors divides by zero.
pub read_chunks : SimpleFileSystem → ℕ → ℕ → ℕ → ℕ → ℕ → ReadResult → Outcome ReadResult
unfolding read_chunk
read_chunks fs buf zero remaining cluster offset r = stuck
read_chunks fs buf (suc fuel) remaining cluster offset r =
    let s = read_chunk fs buf remaining cluster offset r in
    let rest = remaining - s.count in
    let (found, m) = next_cluster fs cluster s.machine in
    elim (remaining == 0) [
      | true ↦ ret r
      | false ↦ elim (cluster_size fs == 0) [
        | true ↦ panic
        | false ↦ elim (s.count == 0) [
          | true ↦ ret (record s { count = r.count })
          | false ↦ elim (rest == 0) [
            | true ↦ ret (record s { count = r.count + s.count })
            | false ↦ elim found [
              | none ↦ ret (record { count = r.count + s.count; out = s.out; machine = m })
              | some next ↦
                  read_chunks fs buf fuel rest next 0
                    (record { count = r.count + s.count; out = s.out; machine = m })
            ]
          ]
        ]
      ]
    ]

-- The kernel's state that the file calls share: the drive and its buffer, the table of
-- descriptors, and the memory that a call's pointers lead to.
pub record Kernel : Type 0 where
  pub machine : Machine
  pub fds : FdTable
  pub memory : Bytes

-- From the first byte wanted to the last: the walk, then the chunks.
pub read_from : SimpleFileSystem → FileDescriptor → ℕ → ℕ → Bytes → Machine → Outcome ReadResult
read_from fs f buf max_read memory m =
    elim (walk_chain fs f.position (f.position + 1)
      (record { cluster = f.cluster; start = 0; machine = m })) [
        | panic ↦ panic
        | stuck ↦ stuck
        | ret p ↦
            read_chunks fs buf (max_read + 1) max_read p.cluster (f.position - p.start)
              (record { count = 0; out = memory; machine = p.machine })
      ]

-- `none` is the result -1. With no port the mount indexes the controller's ports out of range.
pub sys_read_file : ℕ → ℕ → ℕ → Kernel → Outcome (Option ℕ × Kernel)
unfolding read_from
sys_read_file fd buf len k =
    if buf == 0 || len == 0 then ret (none, k) else elim (get_fd k.fds fd) [
      | none ↦ ret (none, k)
      | some f ↦
          let max_read = min len (f.file_size - f.position) in
          if f.is_dir
          then ret (none, k)
          else if max_read == 0
          then ret (some 0, k)
          else if not (has_port k.machine)
          then panic
          else let (mounted, m) = init k.machine in
            elim mounted [
              | none ↦ ret (none, record k { machine = m })
              | some fs ↦ elim (read_from fs f buf max_read k.memory m) [
                | panic ↦ panic
                | stuck ↦ stuck
                | ret r ↦ ret (
                  some r.count,
                  record {
                    machine = r.machine;
                    fds = update_fd k.fds fd (record f { position = u64 (f.position + r.count) });
                    memory = r.out;
                  },
                )
              ]
            ]
    ]
