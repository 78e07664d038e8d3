-- ===== src/Exec/Tests.antt =====
-- The theorems applied to a program of two segments, with a note between them, and to one that is
-- loaded from a file.
use forward_os_kernel_base.Base.{
  ℕ, ◌+◌, ◌-◌, ◌*◌, ◌≤◌, ◌<◌, ◌^◌, ◌≡◌, refl, ◌==◌, if◌then◌else◌, arith,
}
use forward_os_kernel_base.Base.{zero, suc, ◌||◌, some, [], Bytes}
use forward_os_kernel_base.Exec.{Elf64Phdr, phdr_at, find_span, relocate, load_program}
use forward_os_kernel_base.Base.{none, false, ◌&&◌, leb, ltb}
use forward_os_kernel_base.Disk.{Drive, read_sector}
use forward_os_kernel_base.Fat.{SimpleFileSystem, init, read_bpb, partition_lba, get_lba_of_cluster}
use forward_os_kernel_base.Fat.Chain.{nth}
use forward_os_kernel_base.File.Cluster.{cluster_byte, run_byte}
use forward_os_kernel_base.File.Read.{file_byte, Covers}
use forward_os_kernel_base.File.Table.{FileDescriptor, get_fd}
use forward_os_kernel_base.Ram.{
  allocate_sectors_direct, allocate_sectors, allocate_scan, is_used, mark_used_run, mark_used,
}
use forward_os_kernel_base.Exec.Program.{IsProgram, LoadsProgram}
use forward_os_kernel_base.Exec.System.{Loader, kernel_calls, IsOpen, load_program-kernel_calls}
use forward_os_kernel_base.Exec.Span.{lowest, highest, segment_fits}

abbrev headers : ℕ → Elf64Phdr
headers i =
    if i == 1
    then record { p_type = 4; p_offset = 64; p_vaddr = 0; p_filesz = 8; p_memsz = 8 }
    else record {
      p_type = 1;
      p_offset = 0x1000;
      p_vaddr = 0x400000 + i * 0x1000;
      p_filesz = 0x800;
      p_memsz = 0x900;
    }

headers_room : 0x7000000 + (highest headers 3 - lowest headers 3) < 2 ^ 64
unfolding find_span
headers_room = omega arith

segment_example :
    (relocate 0x7000000 (lowest headers 3) (headers 2).p_vaddr
      ≡ 0x7000000 + ((headers 2).p_vaddr - lowest headers 3))
    × (relocate 0x7000000 (lowest headers 3) (headers 2).p_vaddr + (headers 2).p_filesz
        ≤ 0x7000000 + (highest headers 3 - lowest headers 3))
segment_example =
    segment_fits headers 3 0x7000000 2 (omega arith) refl (omega arith) (omega arith) headers_room

-- A file with two program headers from 64 on, which is its own data, and a memory that holds it.
abbrev memory : Bytes
memory x =
    if (x == 64) || (x == 120) || (x == 137)
    then 1
    else if (x == 96) || (x == 104) || (x == 152) || (x == 160)
    then 16
    else if x == 128
    then 32
    else if x == 32
    then 64
    else if x == 54
    then 56
    else if x == 56
    then 2
    else 0

-- Sector 0 says where the partition begins, sector 1 is its boot record, sector 2 the FAT, in which
-- cluster 2 ends its chain; sector 3 holds the file.
abbrev volume : ℕ → Bytes
volume zero i = if i == 454 then 1 else 0
volume (suc zero) i =
    if i == 12
    then 2
    else if i == 13 || i == 14 || i == 16 || i == 36
    then 1
    else if i == 44
    then 2
    else 0
volume (suc (suc zero)) i = if leb 8 i && ltb i 11 then 0xff else if i == 11 then 0x0f else 0
volume (suc (suc (suc l))) i = memory i

abbrev disk : Drive
disk = record { port = some 0; sector = volume; read_fault = λ l. none; write_fault = λ l. none }

disk-IsBytes : (l i : ℕ) → volume l i < 256
disk-IsBytes zero i = ground arith
disk-IsBytes (suc zero) i = ground arith
disk-IsBytes (suc (suc zero)) i = ground arith
disk-IsBytes (suc (suc (suc l))) i = ground arith

abbrev geometry : SimpleFileSystem
geometry = record {
  cluster_begin_lba = 3;
  sectors_per_clus = 1;
  root_cluster = 2;
  reserved_secs = 1;
  fat_sz32 = 1;
  num_fats = 1;
  part_lba = 1;
}

abbrev file : FileDescriptor
file = record { cluster = 2; position = 64; is_dir = false; file_size = 176 }

-- Pages 2 to 5 are free.
abbrev started : Loader
started = record {
  kernel = record {
    machine = record { drive = disk; buffer = λ i. 0; running = none };
    fds = λ fd. if fd == 3 then some file else none;
    memory = memory;
  };
  ram = record { bitmap = λ i. if i == 0 then 0b11000011 else 0xff; total_sectors = 10 };
}

started_mounts : (init started.kernel.machine).0 ≡ some geometry
unfolding init read_bpb partition_lba read_sector
started_mounts = refl

started_covered : Covers geometry disk 2 176
unfolding nth
started_covered zero h = (2, refl)
started_covered (suc k) h = absurd (omega arith)

started_file : get_fd started.kernel.fds 3 ≡ some file
unfolding get_fd
started_file = refl

started-IsOpen : IsOpen geometry disk 2 176 3 started
started-IsOpen = record {
  f = file;
  readable = record {
    opened = started_file;
    file = refl;
    sound = record {
      present = (0, refl);
      reads = λ l. refl;
      writes = λ l. refl;
      bytes = disk-IsBytes;
    };
    mounts = started_mounts;
    sectors = omega arith;
    covers = started_covered;
    fits = omega arith;
  };
  drive = refl;
  cluster = refl;
  whole = refl;
}

abbrev content : Bytes
content = file_byte geometry disk 2

abbrev header_at : ℕ → Elf64Phdr
header_at i = phdr_at content (64 + i * 56)

segments_whole :
    (j : ℕ)
    → j < 2
    → ((header_at j).p_vaddr + (header_at j).p_memsz < 2 ^ 64)
      × ((header_at j).p_filesz ≤ (header_at j).p_memsz)
      × ((header_at j).p_offset + (header_at j).p_filesz ≤ 176)
unfolding file_byte nth cluster_byte run_byte get_lba_of_cluster
segments_whole zero a = (omega arith, omega arith, omega arith)
segments_whole (suc zero) a = (omega arith, omega arith, omega arith)
segments_whole (suc (suc j)) a = absurd (omega arith)

started-IsProgram :
    IsProgram (kernel_calls 9) 3 content 176 0 (IsOpen geometry disk 2 176 3) started
unfolding find_span file_byte nth cluster_byte run_byte get_lba_of_cluster allocate_sectors_direct
    allocate_sectors allocate_scan is_used mark_used_run mark_used
started-IsProgram = record {
  table_fits = omega arith;
  table_room = omega arith;
  entries = omega arith;
  opened = started-IsOpen;
  regions = (omega arith, omega arith, omega arith);
  segments = λ j a load. segments_whole j a;
  some_load = refl;
  room = omega arith;
  apart = λ x inside. ground arith;
}

load_program_example :
    LoadsProgram
      (kernel_calls 9)
      3
      content
      176
      0
      (IsOpen geometry disk 2 176 3)
      started
      []
      (load_program (kernel_calls 9) [] 3 0 started)
load_program_example =
    load_program-kernel_calls geometry disk 2 176 3 9 0 started [] started-IsProgram
