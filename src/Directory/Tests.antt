-- ===== src/Directory/Tests.antt =====
-- kernel/src/file.rs: a volume whose root directory has one entry, the file A.TXT.
use forward_os_kernel_base.Base.{ℕ, zero, suc, ◌<◌, ◌≡◌, refl, arith}
use forward_os_kernel_base.Base.{◌&&◌, ◌||◌, ltb, leb, ◌==◌, if◌then◌else◌, none, some, Option}
use forward_os_kernel_base.Base.{List, [], ◌∷◌, Bytes, ret}
use forward_os_kernel_base.Disk.{Drive, Machine, IsSound, read_sector}
use forward_os_kernel_base.Fat.{
  SimpleFileSystem, read_bpb, partition_lba, init, get_fat_lba, get_lba_of_cluster,
}
use forward_os_kernel_base.Fat.Chain.{entry}
use forward_os_kernel_base.File.Table.{FdTable}
use forward_os_kernel_base.Directory.{find_entry, find_directory, syscall_open}
use forward_os_kernel_base.Directory.Search.{
  IsChain, slots, search, result, slots_of_run, sector_slots, slots_of_sector,
}
use forward_os_kernel_base.Directory.Open.{
  Opened, find_entry_lem, find_directory_lem, syscall_open_lem,
}
use forward_os_kernel_base.Directory.Meaning.{named, directory_named}

-- Sector 0 says where the partition begins, sector 1 is its boot record, sector 2 the FAT, sector 3
-- the root directory.
abbrev volume : ℕ → Bytes
volume zero i = if i == 454 then 1 else 0
volume (suc zero) i =
    if i == 12
    then 2
    else if i == 13 || i == 14 || i == 16 || i == 36
    then 1
    else if i == 44
    then 2
    else 0
volume (suc (suc zero)) i = if leb 8 i && ltb i 11 then 0xff else if i == 11 then 0x0f else 0
volume (suc (suc (suc l))) i =
    if i == 0
    then 65
    else if ltb i 8
    then 32
    else if i == 9
    then 88
    else if leb i 10
    then 84
    else if i == 26
    then 5
    else 0

abbrev root_only : Drive
root_only = record {
  port = some 0;
  sector = volume;
  read_fault = λ l. none;
  write_fault = λ l. none;
}

volume-IsBytes : (l i : ℕ) → volume l i < 256
volume-IsBytes zero i = ground arith
volume-IsBytes (suc zero) i = ground arith
volume-IsBytes (suc (suc zero)) i = ground arith
volume-IsBytes (suc (suc (suc l))) i = ground arith

root_only-IsSound : IsSound root_only
root_only-IsSound = record {
  present = (0, refl);
  reads = λ l. refl;
  writes = λ l. refl;
  bytes = volume-IsBytes;
}

abbrev geometry : SimpleFileSystem
geometry = record {
  cluster_begin_lba = 3;
  sectors_per_clus = 1;
  root_cluster = 2;
  reserved_secs = 1;
  fat_sz32 = 1;
  num_fats = 1;
  part_lba = 1;
}

abbrev booted : Machine
booted = record { drive = root_only; buffer = λ i. 0; running = none }

root_mounts : (init booted).0 ≡ some geometry
unfolding init read_bpb partition_lba read_sector
root_mounts = refl

root-IsChain : IsChain geometry root_only 2 (2 ∷ [])
unfolding IsChain entry get_fat_lba
root-IsChain = (refl, refl, refl)

abbrev none_open : FdTable
none_open fd = none

-- "a.txt"
abbrev a_txt : List ℕ
a_txt = 97 ∷ 46 ∷ 116 ∷ 120 ∷ 116 ∷ []

find_entry_example :
    (m' : Machine) × (find_entry 2 geometry 2 a_txt booted
      ≡ ret (result (named a_txt) (search (named a_txt) (slots geometry root_only (2 ∷ []))), m'))
    × (m'.drive ≡ root_only)
find_entry_example =
    find_entry_lem geometry 2 2 (2 ∷ []) a_txt booted root_only-IsSound root-IsChain (omega arith)

find_directory_example :
    (m' : Machine) × (find_directory 2 geometry 2 a_txt booted
      ≡ ret (
        result
            (directory_named a_txt)
            (search (directory_named a_txt) (slots geometry root_only (2 ∷ []))),
        m',
      ))
    × (m'.drive ≡ root_only)
find_directory_example =
    find_directory_lem geometry 2 2 (2 ∷ []) a_txt booted root_only-IsSound root-IsChain
      (omega arith)

syscall_open_example :
    (m' : Machine) × (r : Option ℕ × FdTable) × (syscall_open 2 a_txt none_open booted
      ≡ ret (r.0, r.1, m'))
    × Opened none_open
        (result (named a_txt) (search (named a_txt) (slots geometry root_only (2 ∷ []))))
        r
    × (m'.drive ≡ root_only)
syscall_open_example =
    syscall_open_lem geometry 2 (2 ∷ []) a_txt none_open booted root_only-IsSound root_mounts
      root-IsChain (omega arith)

-- The entry A.TXT is found: cluster 5, of no bytes.
a_txt_found :
    result (named a_txt) (search (named a_txt) (slots geometry root_only (2 ∷ []))) ≡ some (5, 0)
unfolding search slots slots_of_run sector_slots slots_of_sector get_lba_of_cluster
a_txt_found = refl
