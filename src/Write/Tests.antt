-- ===== src/Write/Tests.antt =====
-- kernel/src/boot/sys_write_file.rs: the FAT of a blank disk.
use mathlib.Core.Option.{some-injective, none-ne-some}
use forward_os_kernel_base.Base.{ℕ, zero, suc, ◌+◌, ◌<◌, ◌||◌, ltb, leb, sym, Bytes, IsBytes, false}
use forward_os_kernel_base.Fat.{read_bpb, partition_lba, init, get_lba_of_cluster}
use forward_os_kernel_base.Fat.Chain.{successor, nth}
use forward_os_kernel_base.Disk.{read_sector}
use forward_os_kernel_base.File.{Kernel}
use forward_os_kernel_base.File.Read.{Covers}
use forward_os_kernel_base.File.Syscall.{IsReadable}
use forward_os_kernel_base.File.Table.{FileDescriptor, get_fd}
use forward_os_kernel_base.Write.{sys_write_file}
use forward_os_kernel_base.Write.InPlace.{IsApart, IsOff}
use forward_os_kernel_base.Write.ReadBack.{ReadsBack, write_and_read, sys_read_file-sys_write_file}
use forward_os_kernel_base.Write.Syscall.{IsWritable, WritesFile, sys_write_file_lem}
use forward_os_kernel_base.Base.{◌%◌, ◌≡◌, refl, arith, ◌&&◌, ◌==◌, in_range}
use forward_os_kernel_base.Base.{false, if◌then◌else◌, none, some}
use forward_os_kernel_base.Disk.{Drive, Machine, IsSound}
use forward_os_kernel_base.Fat.{get_fat_lba, SimpleFileSystem, fat_sector}
use forward_os_kernel_base.Fat.Chain.{entry}
use forward_os_kernel_base.Write.{extend, alloc_cluster}
use forward_os_kernel_base.Write.Alloc.{First, is_free, alloc_cluster_lem}
use forward_os_kernel_base.Write.Extend.{Extends, extend_lem}

abbrev blank : Drive
blank = record { port = some 0; sector = λ l i. 0; read_fault = λ l. none; write_fault = λ l. none }

blank-IsSound : IsSound blank
blank-IsSound = record {
  present = (0, refl);
  reads = λ l. refl;
  writes = λ l. refl;
  bytes = λ l i. omega arith;
}

abbrev layout : SimpleFileSystem
layout = record {
  cluster_begin_lba = 3;
  sectors_per_clus = 1;
  root_cluster = 2;
  reserved_secs = 1;
  fat_sz32 = 1;
  num_fats = 1;
  part_lba = 1;
}

abbrev idle : Machine
idle = record { drive = blank; buffer = λ i. 0; running = none }

alloc_cluster_example :
    First (is_free layout blank) 0 128 (alloc_cluster layout idle).0
    × ((alloc_cluster layout idle).1.drive ≡ blank)
alloc_cluster_example = alloc_cluster_lem layout blank idle blank-IsSound refl (omega arith)

-- A blank disk but for the entry of cluster 5, which ends a chain.
abbrev one_file : Drive
one_file = record {
  port = some 0;
  sector = λ l i. if (l == 2) && in_range 20 4 i then 0xFF else 0;
  read_fault = λ l. none;
  write_fault = λ l. none;
}

one_file-IsSound : IsSound one_file
one_file-IsSound = record {
  present = (0, refl);
  reads = λ l. refl;
  writes = λ l. refl;
  bytes = λ l i. ground arith;
}

abbrev with_file : Machine
with_file = record { drive = one_file; buffer = λ i. 0; running = none }

five_is_used : is_free layout one_file 5 ≡ false
unfolding is_free entry get_fat_lba
five_is_used = refl

extend_example : Extends layout 5 one_file (extend layout 5 with_file)
extend_example =
    extend_lem layout 5 with_file one_file-IsSound (omega arith) (omega arith) five_is_used

-- Sector 0 says where the partition begins, sector 1 is its boot record, sector 2 the FAT: the
-- chain of cluster 2 goes on with cluster 3 and ends there. The data are all 7.
abbrev volume : ℕ → Bytes
volume zero i = if i == 454 then 1 else 0
volume (suc zero) i =
    if i == 12
    then 2
    else if i == 13 || i == 14 || i == 16 || i == 36
    then 1
    else if i == 44
    then 2
    else 0
volume (suc (suc zero)) i =
    if i == 8 then 3 else if leb 12 i && ltb i 15 then 0xff else if i == 15 then 0x0f else 0
volume (suc (suc (suc l))) i = 7

abbrev disk : Drive
disk = record { port = some 0; sector = volume; read_fault = λ l. none; write_fault = λ l. none }

disk-IsBytes : (l i : ℕ) → volume l i < 256
disk-IsBytes zero i = ground arith
disk-IsBytes (suc zero) i = ground arith
disk-IsBytes (suc (suc zero)) i = ground arith
disk-IsBytes (suc (suc (suc l))) i = omega arith

disk-IsSound : IsSound disk
disk-IsSound = record {
  present = (0, refl);
  reads = λ l. refl;
  writes = λ l. refl;
  bytes = disk-IsBytes;
}

abbrev geometry : SimpleFileSystem
geometry = record {
  cluster_begin_lba = 3;
  sectors_per_clus = 1;
  root_cluster = 2;
  reserved_secs = 1;
  fat_sz32 = 1;
  num_fats = 1;
  part_lba = 1;
}

abbrev machine : Machine
machine = record { drive = disk; buffer = λ i. 0; running = none }

abbrev file : FileDescriptor
file = record { cluster = 2; position = 510; is_dir = false; file_size = 600 }

abbrev kernel : Kernel
kernel = record {
  machine = machine;
  fds = λ fd. if fd == 3 then some file else none;
  memory = λ i. i % 256;
}

file_covered : Covers geometry disk 2 600
unfolding nth successor entry get_fat_lba
file_covered zero h = (2, refl)
file_covered (suc zero) h = (3, refl)
file_covered (suc (suc k)) h = absurd (omega arith)

disk_mounts : (init machine).0 ≡ some geometry
unfolding init read_bpb partition_lba read_sector
disk_mounts = refl

file_open : get_fd kernel.fds 3 ≡ some file
unfolding get_fd
file_open = refl

kernel-IsReadable : IsReadable kernel 3 file geometry
kernel-IsReadable = record {
  opened = file_open;
  file = refl;
  sound = disk-IsSound;
  mounts = disk_mounts;
  sectors = omega arith;
  covers = file_covered;
  fits = omega arith;
}

kernel-IsBytes : IsBytes kernel.memory
kernel-IsBytes i = omega arith

-- The clusters of the file, and where they stand.
place_of : (j c : ℕ) → nth geometry disk 2 j ≡ some c → (c ≡ j + 2) × (j < 2)
unfolding nth successor entry get_fat_lba
place_of zero c h = (sym (some-injective 2 c h), omega arith)
place_of (suc zero) c h = (sym (some-injective 3 c h), omega arith)
place_of (suc (suc j)) c h = absurd (none-ne-some c h)

lba_of : (j c : ℕ) → c ≡ j + 2 → j < 2 → get_lba_of_cluster geometry c ≡ j + 3
unfolding get_lba_of_cluster
lba_of j c e h = omega arith

sector_of : (j c : ℕ) → c ≡ j + 2 → j < 2 → fat_sector geometry c ≡ 2
unfolding get_fat_lba
sector_of j c e h = omega arith

kernel-IsApart : IsApart geometry (nth geometry disk 2)
kernel-IsApart = record {
  clusters = λ j k a b s t there here other hs ht.
      let (e, f) = place_of j a there in
      let (g, h) = place_of k b here in
      let x = lba_of j a e f in let y = lba_of k b g h in ground (arith, other);
  fat = λ j k a c s there here hs.
      let (e, f) = place_of j c there in
      let (g, h) = place_of k a here in
      let x = sector_of j c e f in let y = lba_of k a g h in ground arith;
}

kernel-IsWritable : IsWritable kernel 3 file geometry
kernel-IsWritable = record {
  readable = kernel-IsReadable;
  apart = kernel-IsApart;
  memory = kernel-IsBytes;
}

-- 80 bytes over the end of the first cluster.
sys_write_file_example :
    WritesFile geometry kernel 3 file 4096 80 (sys_write_file 9 3 4096 80 kernel)
sys_write_file_example =
    sys_write_file_lem 9 3 4096 80 kernel file geometry kernel-IsWritable (omega arith)
      (omega arith) (omega arith)

master-IsOff : IsOff geometry (nth geometry disk 2) 0
master-IsOff j c s there h =
    let (e, f) = place_of j c there in let x = lba_of j c e f in ground arith

-- The partition begins at sector 1.
boot-IsOff : IsOff geometry (nth geometry disk 2) 1
boot-IsOff j c s there h = let (e, f) = place_of j c there in let x = lba_of j c e f in ground arith

sys_read_file-sys_write_file_example :
    ReadsBack kernel 4096 80 8192 (write_and_read 9 3 4096 8192 80 510 kernel)
unfolding partition_lba
sys_read_file-sys_write_file_example =
    sys_read_file-sys_write_file 9 3 4096 8192 80 kernel file geometry kernel-IsWritable
      master-IsOff boot-IsOff (omega arith) (omega arith) (omega arith) (omega arith)
