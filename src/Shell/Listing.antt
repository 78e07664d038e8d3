-- ===== src/Shell/Listing.antt =====
-- kernel/src/main.rs: `list_directory` and the shell's own `find_directory`, after the volume has been
-- mounted, so with a port. `fuel` bounds the clusters of the directory.
use forward_os_kernel_base.Base.{ℕ, zero, suc, ◌+◌, ◌*◌, bit_and, read_u32, u64}
use forward_os_kernel_base.Base.{
  Bool, true, false, not, ◌&&◌, ◌||◌, ltb, ◌==◌, if◌then◌else◌, Option, List, [], ◌∷◌, ◌++◌, Bytes,
}
use forward_os_kernel_base.Base.{Outcome, ret, stuck, and_then}
use forward_os_kernel_base.Disk.{Machine, read_sector}
use forward_os_kernel_base.Draw.{Font}
use forward_os_kernel_base.Fat.{
  SimpleFileSystem, get_lba_of_cluster, fat_sector, fat_offset, entry_mask, end_of_chain,
}
use forward_os_kernel_base.Directory.{display_name, attr, scan_clusters, pick_directory}
use forward_os_kernel_base.Shell.{Shell, write_line}

unfoldable pub listed_name : Bytes → ℕ → List ℕ
unfolding display_name
listed_name b o = display_name b o ++ (if bit_and (attr b o) 0x10 == 0 then [] else 0x2F ∷ [])

-- `true`: the mark of the directory's end, which ends the outer loop.
unfoldable pub list_entries : Font → ℕ → ℕ → Shell → Outcome (Bool × Shell)
unfolding listed_name write_line
list_entries font zero j s = ret (false, s)
list_entries font (suc left) j s =
    let b = s.machine.buffer in
    let o = j * 32 in
    elim (b o == 0x00) [
      | true ↦ ret (true, s)
      | false ↦ elim ((b o == 0xE5) || (attr b o == 0x0F)) [
        | true ↦ list_entries font left (j + 1) s
        | false ↦
            and_then (write_line font (listed_name b o) 0xFFFFFF s)
              (λ t. list_entries font left (j + 1) t)
      ]
    ]

unfoldable pub list_sectors : Font → ℕ → ℕ → ℕ → Shell → Outcome (Bool × Shell)
unfolding list_entries
list_sectors font lba zero i s = ret (false, s)
list_sectors font lba (suc left) i s =
    and_then (list_entries font 16 0 (record s { machine = read_sector (u64 (lba + i)) s.machine }))
      (λ (done, t). elim done [
        | true ↦ ret (true, t)
        | false ↦ list_sectors font lba left (i + 1) t
      ])

unfoldable pub list_directory : Font → SimpleFileSystem → ℕ → ℕ → Shell → Outcome Shell
unfolding list_sectors
list_directory font fs zero current s = stuck
list_directory font fs (suc fuel) current s =
    elim (ltb current end_of_chain && not (current == 0)) [
      | false ↦ ret s
      | true ↦
          and_then (list_sectors font (get_lba_of_cluster fs current) fs.sectors_per_clus 0 s)
            (λ (done, t). elim done [
              | true ↦ ret t
              | false ↦
                  let m = read_sector (fat_sector fs current) t.machine in
                  list_directory font fs fuel
                    (bit_and (read_u32 m.buffer (fat_offset current)) entry_mask)
                    (record t { machine = m })
            ])
    ]

unfoldable pub find_directory :
    ℕ → SimpleFileSystem → ℕ → List ℕ → Machine → Outcome (Option ℕ × Machine)
find_directory fuel fs cluster name m = scan_clusters (pick_directory name) fs fuel cluster m
