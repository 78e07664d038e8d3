-- ===== src/Directory.antt =====
-- kernel/src/file.rs: `find_entry` and `find_directory`, the search of a directory; and
-- `syscall_open` of kernel/src/boot/fd.rs. The callers have made sure that there is a port.
pub mod Search
pub mod Meaning
pub mod Open
mod Tests
use forward_os_kernel_base.Base.{ℕ, zero, suc, ◌+◌, ◌*◌, ◌/◌, ◌%◌, ◌^◌, bit_and, bit_or, ◌<<◌}
use forward_os_kernel_base.Base.{Bool, true, false, not, ◌&&◌, ◌||◌, ltb, leb, ◌==◌, if◌then◌else◌}
use forward_os_kernel_base.Base.{
  Option, none, some, List, [], ◌∷◌, ◌++◌, Bytes, u64, read_u16, read_u32,
}
use forward_os_kernel_base.Base.{Outcome, ret, panic, stuck}
use forward_os_kernel_base.Disk.{Machine, has_port, read_sector}
use forward_os_kernel_base.Fat.{
  SimpleFileSystem, init, get_lba_of_cluster, fat_sector, fat_offset, entry_mask,
}
use forward_os_kernel_base.Fat.{end_of_chain}
use forward_os_kernel_base.File.Table.{FdTable, allocate_fd}

abbrev pub slice : Bytes → ℕ → ℕ → List ℕ
slice b o zero = []
slice b o (suc n) = b o ∷ slice b (o + 1) n

-- The fields of the `DirectoryEntry` at an offset of a sector.
abbrev pub attr : Bytes → ℕ → ℕ
attr b o = b (o + 11)

abbrev pub entry_cluster : Bytes → ℕ → ℕ
entry_cluster b o = bit_or (read_u16 b (o + 20) << 16) (read_u16 b (o + 26))

abbrev pub file_size : Bytes → ℕ → ℕ
file_size b o = read_u32 b (o + 28)

abbrev pub without_spaces : List ℕ → List ℕ
without_spaces [] = []
without_spaces (c ∷ l) = if c == 0x20 then without_spaces l else c ∷ without_spaces l

-- `NAME.EXT`, or `NAME` where there is no extension.
unfoldable pub display_name : Bytes → ℕ → List ℕ
display_name b o =
    without_spaces (slice b o 8)
    ++ (if b (o + 8) == 0x20 then [] else 0x2E ∷ without_spaces (slice b (o + 8) 3))

-- `str::eq_ignore_ascii_case` and `str::starts_with`, on bytes.
abbrev pub to_lower : ℕ → ℕ
to_lower c = if leb 65 c && leb c 90 then c + 32 else c

unfoldable pub eq_ignore_ascii_case : List ℕ → List ℕ → Bool
eq_ignore_ascii_case [] [] = true
eq_ignore_ascii_case [] (c ∷ l) = false
eq_ignore_ascii_case (c ∷ l) [] = false
eq_ignore_ascii_case (c ∷ l) (d ∷ k) = (to_lower c == to_lower d) && eq_ignore_ascii_case l k

unfoldable pub starts_with : List ℕ → List ℕ → Bool
starts_with l [] = true
starts_with [] (d ∷ k) = false
starts_with (c ∷ l) (d ∷ k) = (c == d) && starts_with l k

-- How a loop over entries ends: at a hit, at the mark of the directory's end, or behind the last.
pub data Scan {ℓ} (A : Type ℓ) : Type ℓ where
  found : A → Scan A
  ended onward : Scan A

-- The loops, for a test `pick` of an entry in use.
module _ {A : Type 0} (pick : Bytes → ℕ → Option A) where
  pub scan_entries : Bytes → ℕ → ℕ → Scan A
  scan_entries b zero j = onward
  scan_entries b (suc left) j =
      let rest = scan_entries b left (j + 1) in
      let o = j * 32 in
      elim (b o == 0x00) [
        | true ↦ ended
        | false ↦ elim ((b o == 0xE5) || (attr b o == 0x0F)) [
          | true ↦ rest
          | false ↦ elim (pick b o) [ none ↦ rest | some a ↦ found a ]
        ]
      ]

  pub scan_sector : Bytes → Scan A
  unfolding scan_entries
  scan_sector b = scan_entries b 16 0

  pub scan_sectors : ℕ → ℕ → ℕ → Machine → Scan A × Machine
  unfolding scan_sector
  scan_sectors lba zero i m = (onward, m)
  scan_sectors lba (suc left) i m =
      let m' = read_sector (u64 (lba + i)) m in
      let rest = scan_sectors lba left (i + 1) m' in
      elim (scan_sector m'.buffer) [ found a ↦ (found a, m') | ended ↦ (ended, m') | onward ↦ rest ]

  -- `while current < 0x0FFFFFF8 && current != 0 { … }`
  pub scan_clusters : SimpleFileSystem → ℕ → ℕ → Machine → Outcome (Option A × Machine)
  unfolding scan_sectors
  scan_clusters fs zero current m = stuck
  scan_clusters fs (suc fuel) current m =
      let (scan, m₁) = scan_sectors (get_lba_of_cluster fs current) fs.sectors_per_clus 0 m in
      let m₂ = read_sector (fat_sector fs current) m₁ in
      let next = bit_and (read_u32 m₂.buffer (fat_offset current)) entry_mask in
      let rest = scan_clusters fs fuel next m₂ in
      if not (ltb current end_of_chain && not (current == 0))
      then ret (none, m)
      else elim scan [ found a ↦ ret (some a, m₁) | ended ↦ ret (none, m₁) | onward ↦ rest ]

abbrev pub pick_entry : List ℕ → Bytes → ℕ → Option (ℕ × ℕ)
pick_entry name b o =
    if eq_ignore_ascii_case (display_name b o) name
    then some (entry_cluster b o, file_size b o)
    else none

abbrev pub pick_directory : List ℕ → Bytes → ℕ → Option ℕ
pick_directory name b o =
    if not (bit_and (attr b o) 0x10 == 0) && starts_with (slice b o 11) name
    then some (entry_cluster b o)
    else none

-- The first number is the fuel, in clusters.
unfoldable pub find_entry :
    ℕ → SimpleFileSystem → ℕ → List ℕ → Machine → Outcome (Option (ℕ × ℕ) × Machine)
unfolding scan_clusters
find_entry fuel fs cluster name m = scan_clusters (pick_entry name) fs fuel cluster m

unfoldable pub find_directory :
    ℕ → SimpleFileSystem → ℕ → List ℕ → Machine → Outcome (Option ℕ × Machine)
unfolding scan_clusters
find_directory fuel fs cluster name m = scan_clusters (pick_directory name) fs fuel cluster m

-- `none` is the result -1.
unfoldable pub syscall_open :
    ℕ → List ℕ → FdTable → Machine → Outcome (Option ℕ × FdTable × Machine)
unfolding find_entry
syscall_open fuel path t m =
    let (mounted, m₁) = init m in
    if not (has_port m) then ret (none, t, m) else elim mounted [
      | none ↦ ret (none, t, m₁)
      | some fs ↦ elim (find_entry fuel fs fs.root_cluster path m₁) [
        | panic ↦ panic
        | stuck ↦ stuck
        | ret r ↦ elim r.0 [
          | none ↦ ret (none, t, r.1)
          | some e ↦ let (fd, t') = allocate_fd t e.0 false e.1 in ret (fd, t', r.1)
        ]
      ]
    ]
