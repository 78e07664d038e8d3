-- ===== src/Write.antt =====
-- kernel/src/boot/sys_write_file.rs: writing a file through its descriptor, growing its chain where
-- it ends. `write_sector` is the interface's of Disk.antt.
pub mod Alloc
pub mod Entry
pub mod Cluster
pub mod Extend
pub mod InPlace
pub mod Chunks
pub mod Seek
pub mod Syscall
pub mod ReadBack
mod Tests
use forward_os_kernel_base.Base.{ℕ, zero, suc, ◌+◌, ◌-◌, ◌*◌, ◌/◌, ◌%◌, ◌^◌, min, bit_and, bit_or}
use forward_os_kernel_base.Base.{Bool, true, false, not, ◌&&◌, ◌||◌, ltb, leb, ◌==◌, if◌then◌else◌}
use forward_os_kernel_base.Base.{Option, none, some, Bytes, u32, u64, read_u32, write_u32, copy}
use forward_os_kernel_base.Base.{Outcome, ret, panic, stuck}
use forward_os_kernel_base.Disk.{Machine, has_port, read_sector, write_sector, store_buffer}
use forward_os_kernel_base.Fat.{
  SimpleFileSystem, init, get_lba_of_cluster, get_fat_lba, fat_sector, fat_offset,
}
use forward_os_kernel_base.Fat.{entry_mask, end_of_chain, next_cluster}
use forward_os_kernel_base.File.{Kernel, Place, cluster_size}
use forward_os_kernel_base.File.Table.{FileDescriptor, FdTable, get_fd, update_fd}
use forward_os_kernel_base.Directory.{Scan, found, ended, onward, attr, entry_cluster}

-- The search of one sector of the FAT, at entry `i` with `left` to go.
unfoldable pub scan_fat : Bytes → ℕ → ℕ → ℕ → Option ℕ
scan_fat b sector_off zero i = none
scan_fat b sector_off (suc left) i =
    let cluster = u32 (sector_off * 128 + i) in
    let rest = scan_fat b sector_off left (i + 1) in
    if (bit_and (read_u32 b (i * 4)) entry_mask == 0) && leb 2 cluster then some cluster else rest

unfoldable pub scan_fat_sector : Bytes → ℕ → Option ℕ
unfolding scan_fat
scan_fat_sector b sector_off = scan_fat b sector_off 128 0

unfoldable pub scan_fats : SimpleFileSystem → ℕ → ℕ → Machine → Option ℕ × Machine
unfolding scan_fat_sector
scan_fats fs zero sector_off m = (none, m)
scan_fats fs (suc left) sector_off m =
    let m' = read_sector (u64 (get_fat_lba fs + sector_off)) m in
    let rest = scan_fats fs left (sector_off + 1) m' in
    elim (scan_fat_sector m'.buffer sector_off) [ some c ↦ (some c, m') | none ↦ rest ]

unfoldable pub alloc_cluster : SimpleFileSystem → Machine → Option ℕ × Machine
unfolding scan_fats
alloc_cluster fs m = if not (has_port m) then (none, m) else scan_fats fs fs.fat_sz32 0 m

-- The upper four bits of the entry stay.
unfoldable pub set_fat_entry : SimpleFileSystem → ℕ → ℕ → Machine → Machine
set_fat_entry fs cluster value m =
    if not (has_port m)
    then m
    else let m' = read_sector (fat_sector fs cluster) m in
      let current = read_u32 m'.buffer (fat_offset cluster) in
      let new_val = bit_or (bit_and current 0xF0000000) (bit_and value entry_mask) in
      write_sector (fat_sector fs cluster)
        (store_buffer (write_u32 m'.buffer (fat_offset cluster) new_val) m')

-- The body of the loop over the sectors of a cluster; the source begins at `pos`.
unfoldable pub write_one : ℕ → ℕ → ℕ → Bytes → ℕ → ℕ → Machine → Machine
write_one lba coff size source pos i m =
    let m' = read_sector (u64 (lba + i)) m in
    let first = i * 512 in
    let last = first + 512 in
    let from = if ltb coff first then first else coff in
    let to = if ltb last (coff + size) then last else coff + size in
    write_sector (u64 (lba + i)) (
      if ltb coff last && ltb first (coff + size)
      then store_buffer (copy source (pos + (from - coff)) (to - from) m'.buffer (from - first)) m'
      else m')

unfoldable pub write_sectors : ℕ → ℕ → ℕ → Bytes → ℕ → ℕ → ℕ → Machine → Machine
unfolding write_one
write_sectors lba coff size source pos zero i m = m
write_sectors lba coff size source pos (suc left) i m =
    write_sectors lba coff size source pos left (i + 1) (write_one lba coff size source pos i m)

-- The source is the slice of `len` bytes at `pos` of `source`. The count of bytes, and the machine.
unfoldable pub write_cluster : SimpleFileSystem → ℕ → Bytes → ℕ → ℕ → ℕ → Machine → ℕ × Machine
unfolding write_sectors
write_cluster fs cluster source pos len offset m =
    if not (has_port m)
    then (0, m)
    else let coff = offset % cluster_size fs in
      let size = min len (cluster_size fs - coff) in
      (
        size,
        write_sectors (get_lba_of_cluster fs cluster) coff size source pos fs.sectors_per_clus 0 m,
      )

-- The next cluster of the chain, a new one where it ends.
unfoldable pub extend : SimpleFileSystem → ℕ → Machine → Option ℕ × Machine
unfolding alloc_cluster set_fat_entry
extend fs cluster m =
    let (next, m₁) = next_cluster fs cluster m in
    elim next [
      | some c ↦ (some c, m₁)
      | none ↦
          let (fresh, m₂) = alloc_cluster fs m₁ in
          elim fresh [
            | none ↦ (none, m₂)
            | some c ↦ (some c, set_fat_entry fs c entry_mask (set_fat_entry fs cluster c m₂))
          ]
    ]

-- `while cluster_start + cluster_size <= offset { … }`. `none` is the result -1 on a full volume.
unfoldable pub seek_cluster : SimpleFileSystem → ℕ → ℕ → Place → Outcome (Option Place × Machine)
unfolding extend
seek_cluster fs offset zero p = stuck
seek_cluster fs offset (suc fuel) p =
    let (next, m) = extend fs p.cluster p.machine in
    elim (leb (p.start + cluster_size fs) offset) [
      | false ↦ ret (some p, p.machine)
      | true ↦ elim next [
        | none ↦ ret (none, m)
        | some c ↦
            seek_cluster fs offset fuel
              (record { cluster = c; start = p.start + cluster_size fs; machine = m })
      ]
    ]

-- `while remaining > 0 { … }`. A cluster of no sectors divides by zero.
unfoldable pub write_chunks :
    SimpleFileSystem → Bytes → ℕ → ℕ → ℕ → ℕ → ℕ → ℕ → Machine → Outcome (ℕ × Machine)
unfolding write_cluster extend
write_chunks fs source buf zero remaining written cluster offset m = stuck
write_chunks fs source buf (suc fuel) remaining written cluster offset m =
    let (n, m₁) = write_cluster fs cluster source (buf + written) remaining offset m in
    let (next, m₂) = extend fs cluster m₁ in
    elim (remaining == 0) [
      | true ↦ ret (written, m)
      | false ↦ elim (cluster_size fs == 0) [
        | true ↦ panic
        | false ↦ elim (n == 0) [
          | true ↦ ret (written, m₁)
          | false ↦ elim (remaining - n == 0) [
            | true ↦ ret (written + n, m₁)
            | false ↦ elim next [
              | none ↦ ret (written + n, m₂)
              | some c ↦ write_chunks fs source buf fuel (remaining - n) (written + n) c 0 m₂
            ]
          ]
        ]
      ]
    ]

-- `update_dir_entry`: the first entry of the root directory in use that has the file's cluster. The
-- result of the search of a sector is the entry's offset in it.
unfoldable pub find_slot : Bytes → ℕ → ℕ → ℕ → Scan ℕ
find_slot b target zero j = onward
find_slot b target (suc left) j =
    let rest = find_slot b target left (j + 1) in
    let o = j * 32 in
    elim (b o == 0x00) [
      | true ↦ ended
      | false ↦ elim ((b o == 0xE5) || (attr b o == 0x0F)) [
        | true ↦ rest
        | false ↦ elim (entry_cluster b o == target) [ true ↦ found o | false ↦ rest ]
      ]
    ]

-- `true`: the function has returned.
unfoldable pub update_sectors : ℕ → ℕ → ℕ → ℕ → ℕ → Machine → Bool × Machine
unfolding find_slot
update_sectors lba target new_size zero i m = (false, m)
update_sectors lba target new_size (suc left) i m =
    let m' = read_sector (u64 (lba + i)) m in
    let rest = update_sectors lba target new_size left (i + 1) m' in
    elim (find_slot m'.buffer target 16 0) [
      | found o ↦ (
        true,
        write_sector (u64 (lba + i)) (store_buffer (write_u32 m'.buffer (o + 28) new_size) m'),
      )
      | ended ↦ (true, m')
      | onward ↦ rest
    ]

unfoldable pub update_clusters : SimpleFileSystem → ℕ → ℕ → ℕ → ℕ → Machine → Outcome Machine
unfolding update_sectors
update_clusters fs target new_size zero current m = stuck
update_clusters fs target new_size (suc fuel) current m =
    let (done, m₁) =
      update_sectors (get_lba_of_cluster fs current) target new_size fs.sectors_per_clus 0 m in
    let m₂ = read_sector (fat_sector fs current) m₁ in
    let next = bit_and (read_u32 m₂.buffer (fat_offset current)) entry_mask in
    let rest = update_clusters fs target new_size fuel next m₂ in
    if not (ltb current end_of_chain && not (current == 0))
    then ret m
    else if done
    then ret m₁
    else rest

unfoldable pub update_dir_entry : ℕ → SimpleFileSystem → ℕ → ℕ → Machine → Outcome Machine
unfolding update_clusters
update_dir_entry fuel fs target new_size m =
    if not (has_port m) then ret m else update_clusters fs target new_size fuel fs.root_cluster m

-- The end of `sys_write_file`: the descriptor moves on, and the directory learns of a larger size.
unfoldable pub finish :
    ℕ → SimpleFileSystem → ℕ → FileDescriptor → ℕ → Machine → FdTable → Outcome (Machine × FdTable)
unfolding update_dir_entry
finish fuel fs fd f written m fds =
    let position = u64 (f.position + written) in
    if ltb f.file_size position
    then elim (update_dir_entry fuel fs f.cluster (u32 position) m) [
      | panic ↦ panic
      | stuck ↦ stuck
      | ret m' ↦ ret (
        read_sector 2048 m',
        update_fd fds fd (record f { position = position; file_size = u32 position }),
      )
    ]
    else ret (read_sector 2048 m, update_fd fds fd (record f { position = position }))

-- `none` is the result -1. `fuel` bounds the clusters of the root directory. With no port the mount
-- indexes the controller's ports out of range.
unfoldable pub sys_write_file : ℕ → ℕ → ℕ → ℕ → Kernel → Outcome (Option ℕ × Kernel)
unfolding seek_cluster write_chunks finish
sys_write_file fuel fd buf len k =
    if buf == 0 || len == 0 then ret (none, k) else elim (get_fd k.fds fd) [
      | none ↦ ret (none, k)
      | some f ↦
          if f.is_dir
          then ret (none, k)
          else if not (has_port k.machine)
          then panic
          else let (mounted, m) = init k.machine in
            elim mounted [
              | none ↦ ret (none, record k { machine = m })
              | some fs ↦
                  elim (seek_cluster fs f.position (f.position + 1)
                    (record { cluster = f.cluster; start = 0; machine = m })) [
                      | panic ↦ panic
                      | stuck ↦ stuck
                      | ret (none, m₁) ↦ ret (none, record k { machine = m₁ })
                      | ret (some p, m₁) ↦
                          elim (write_chunks fs k.memory buf (len + 1) len 0 p.cluster
                            (f.position - p.start) p.machine) [
                              | panic ↦ panic
                              | stuck ↦ stuck
                              | ret (written, m₂) ↦ elim (finish fuel fs fd f written m₂ k.fds) [
                                | panic ↦ panic
                                | stuck ↦ stuck
                                | ret (m₃, fds) ↦
                                    ret (some written, record k { machine = m₃; fds = fds })
                              ]
                            ]
                    ]
            ]
    ]
