-- ===== src/File/Tests.antt =====
-- kernel/src/boot/fd.rs: the file calls on a small volume with one file of two clusters.
use forward_os_kernel_base.Base.{ℕ, zero, suc, ◌<◌}
use forward_os_kernel_base.Base.{◌≡◌, refl, ◌⊎◌, arith, false, ◌&&◌, ◌||◌}
use forward_os_kernel_base.Base.{ltb, leb, ◌==◌, if◌then◌else◌, none, some}
use forward_os_kernel_base.Base.{Bytes}
use forward_os_kernel_base.Disk.{Drive, Machine, IsSound, read_sector}
use forward_os_kernel_base.Fat.{SimpleFileSystem, read_bpb, partition_lba, init, get_fat_lba}
use forward_os_kernel_base.Fat.Chain.{entry, successor, nth}
use forward_os_kernel_base.File.{Kernel, sys_read_file}
use forward_os_kernel_base.File.Table.{FileDescriptor, first_fd, max_fds, fresh_fd}
use forward_os_kernel_base.File.Table.{allocate_fd, allocate_from, get_fd}
use forward_os_kernel_base.File.Table.Laws.{Opens, IsFull, allocate_fd_lem}
use forward_os_kernel_base.File.Read.{Covers}
use forward_os_kernel_base.File.Syscall.{IsReadable, ReadsFile, sys_read_file_lem}
use forward_os_kernel_base.File.Seek.{new_position, sys_lseek}

-- Sector 0 says where the partition begins, sector 1 is its boot record, sector 2 the FAT: the
-- chain of cluster 2 goes on with cluster 3 and ends there. The data are all 7.
abbrev volume : ℕ → Bytes
volume zero i = if i == 454 then 1 else 0
volume (suc zero) i =
    if i == 12
    then 2
    else if i == 13 || i == 14 || i == 16 || i == 36
    then 1
    else if i == 44
    then 2
    else 0
volume (suc (suc zero)) i =
    if i == 8 then 3 else if leb 12 i && ltb i 15 then 0xff else if i == 15 then 0x0f else 0
volume (suc (suc (suc l))) i = 7

abbrev disk : Drive
disk = record { port = some 0; sector = volume; read_fault = λ l. none; write_fault = λ l. none }

disk-IsBytes : (l i : ℕ) → volume l i < 256
disk-IsBytes zero i = ground arith
disk-IsBytes (suc zero) i = ground arith
disk-IsBytes (suc (suc zero)) i = ground arith
disk-IsBytes (suc (suc (suc l))) i = omega arith

disk-IsSound : IsSound disk
disk-IsSound = record {
  present = (0, refl);
  reads = λ l. refl;
  writes = λ l. refl;
  bytes = disk-IsBytes;
}

abbrev fs : SimpleFileSystem
fs = record {
  cluster_begin_lba = 3;
  sectors_per_clus = 1;
  root_cluster = 2;
  reserved_secs = 1;
  fat_sz32 = 1;
  num_fats = 1;
  part_lba = 1;
}

abbrev machine : Machine
machine = record { drive = disk; buffer = λ i. 0; running = none }

abbrev file : FileDescriptor
file = record { cluster = 2; position = 510; is_dir = false; file_size = 600 }

abbrev kernel : Kernel
kernel = record {
  machine = machine;
  fds = λ fd. if fd == 3 then some file else none;
  memory = λ i. 0;
}

file_covered : Covers fs disk 2 600
unfolding nth successor entry get_fat_lba
file_covered zero h = (2, refl)
file_covered (suc zero) h = (3, refl)
file_covered (suc (suc k)) h = absurd (omega arith)

disk_mounts : (init machine).0 ≡ some fs
unfolding init read_bpb partition_lba read_sector
disk_mounts = refl

file_open : get_fd kernel.fds 3 ≡ some file
unfolding get_fd
file_open = refl

kernel-IsReadable : IsReadable kernel 3 file fs
kernel-IsReadable = record {
  opened = file_open;
  file = refl;
  sound = disk-IsSound;
  mounts = disk_mounts;
  sectors = omega arith;
  covers = file_covered;
  fits = omega arith;
}

sys_read_file_example : ReadsFile fs kernel 3 file 4096 90 (sys_read_file 3 4096 100 kernel)
sys_read_file_example =
    sys_read_file_lem 3 4096 100 kernel file fs kernel-IsReadable (omega arith) (omega arith)

allocate_fd_example :
    Opens kernel.fds (fresh_fd 5 false 9) first_fd max_fds (allocate_fd kernel.fds 5 false 9)
    ⊎ IsFull kernel.fds first_fd max_fds (allocate_fd kernel.fds 5 false 9)
allocate_fd_example = allocate_fd_lem kernel.fds 5 false 9

fourth : (allocate_fd kernel.fds 5 false 9).0 ≡ some 4
unfolding allocate_fd allocate_from
fourth = refl

sought : (sys_lseek kernel.fds 3 20 0).0 ≡ some 20
unfolding sys_lseek new_position get_fd
sought = refl
