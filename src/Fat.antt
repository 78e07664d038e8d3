-- ===== src/Fat.antt =====
-- kernel/src/file.rs and the FAT chain code of kernel/src/boot/fd.rs: mounting a FAT32 volume, the
-- place of a cluster on the disk, and the step along a file's cluster chain.
pub mod Chain
use forward_os_kernel_base.Base.{ℕ, ◌+◌, ◌-◌, ◌*◌, ◌/◌, ◌%◌, ◌^◌, bit_and, bit_or}
use forward_os_kernel_base.Base.{Bool, true, false, not, ◌&&◌, ltb, leb, ◌==◌, if◌then◌else◌}
use forward_os_kernel_base.Base.{Option, none, some, Bytes, u64, read_u16, read_u32, ◌<<◌}
use forward_os_kernel_base.Disk.{Machine, has_port, read_sector}

-- The fields that say which controller to talk to (`abar`, `port`, `cl_base`) are left out: the
-- model has one drive.
pub record SimpleFileSystem : Type 0 where
  pub cluster_begin_lba : ℕ
  pub sectors_per_clus : ℕ
  pub root_cluster : ℕ
  pub reserved_secs : ℕ
  pub fat_sz32 : ℕ
  pub num_fats : ℕ
  pub part_lba : ℕ

-- The volume boot record at its offsets in `Fat32Bpb`.
pub record Fat32Bpb : Type 0 where
  pub bytes_per_sec : ℕ
  pub sectors_per_clus : ℕ
  pub reserved_secs : ℕ
  pub num_fats : ℕ
  pub fat_sz32 : ℕ
  pub root_cluster : ℕ

unfoldable pub read_bpb : Bytes → Fat32Bpb
read_bpb b = record {
  bytes_per_sec = read_u16 b 11;
  sectors_per_clus = b 13;
  reserved_secs = read_u16 b 14;
  num_fats = b 16;
  fat_sz32 = read_u32 b 36;
  root_cluster = read_u32 b 44;
}

-- The first partition's start, a little-endian word of the master boot record.
unfoldable pub partition_lba : Bytes → ℕ
partition_lba mbr =
    bit_or (bit_or (bit_or (mbr 454) (mbr 455 << 8)) (mbr 456 << 16)) (mbr 457 << 24)

unfoldable pub init : Machine → Option SimpleFileSystem × Machine
unfolding read_bpb partition_lba read_sector
init m =
    let m₁ = read_sector 0 m in
    let part = partition_lba m₁.buffer in
    let m₂ = read_sector part m₁ in
    let vbr = read_bpb m₂.buffer in
    if not (vbr.bytes_per_sec == 512) then (none, m₂) else (
      some (record {
        cluster_begin_lba = u64 (part + vbr.reserved_secs + vbr.num_fats * vbr.fat_sz32);
        sectors_per_clus = vbr.sectors_per_clus;
        root_cluster = vbr.root_cluster;
        reserved_secs = vbr.reserved_secs;
        fat_sz32 = vbr.fat_sz32;
        num_fats = vbr.num_fats;
        part_lba = part;
      }),
      m₂,
    )

-- `(cluster as u64 - 2) * spc` wraps for clusters 0 and 1.
unfoldable pub get_lba_of_cluster : SimpleFileSystem → ℕ → ℕ
get_lba_of_cluster fs cluster =
    u64 (fs.cluster_begin_lba + u64 (u64 (cluster + 2 ^ 64 - 2) * fs.sectors_per_clus))

unfoldable pub get_fat_lba : SimpleFileSystem → ℕ
get_fat_lba fs = u64 (fs.part_lba + fs.reserved_secs)

-- Where the FAT entry of a cluster stands: sector, and offset in it.
abbrev pub fat_sector : SimpleFileSystem → ℕ → ℕ
fat_sector fs cluster = u64 (get_fat_lba fs + cluster * 4 / 512)

abbrev pub fat_offset : ℕ → ℕ
fat_offset cluster = cluster * 4 % 512

abbrev pub entry_mask : ℕ
entry_mask = 0x0FFFFFFF

abbrev pub end_of_chain : ℕ
end_of_chain = 0x0FFFFFF8

-- The successor of a cluster in its chain; `none` at the end, at a free entry and with no drive.
unfoldable pub next_cluster : SimpleFileSystem → ℕ → Machine → Option ℕ × Machine
unfolding read_sector
next_cluster fs cluster m =
    if not (has_port m)
    then (none, m)
    else let m' = read_sector (fat_sector fs cluster) m in
      let next = bit_and (read_u32 m'.buffer (fat_offset cluster)) entry_mask in
      if ltb next end_of_chain && not (next == 0) then (some next, m') else (none, m')
