-- ===== src/Directory/Open.antt =====
-- kernel/src/boot/fd.rs, `syscall_open`: a search of the root directory, then a descriptor.
use forward_os_kernel_base.Base.{◌<◌, ◌≡◌, refl, arith, ◌∙◌, sym, subst, false, not, if-eq_false}
use forward_os_kernel_base.Base.{
  ap, ◌⊎◌, Option, ℕ, none, some, List, length, ret, Option-cases, inl, inr,
}
use forward_os_kernel_base.Disk.{Machine, IsSound, has_port}
use forward_os_kernel_base.Fat.{SimpleFileSystem, init}
use forward_os_kernel_base.Fat.Chain.{init_lem}
use forward_os_kernel_base.File.Table.{FdTable, allocate_fd}
use forward_os_kernel_base.Directory.{
  pick_entry, find_entry, find_directory, pick_directory, syscall_open,
}
use forward_os_kernel_base.Directory.Meaning.{
  named, directory_named, search-named, search-directory_named,
}
use forward_os_kernel_base.File.Table.Laws.{Opens, IsFull, allocate_fd_lem}
use forward_os_kernel_base.Directory.Search.{IsChain, slots, search, result, scan_clusters-search}

-- On a sound drive, where the chain `cs` of a directory ends within the fuel, `find_entry` gives
-- the first cluster and the size, as the entry's bytes tell them, of the first entry in use whose
-- short name is the one sought, the case of letters apart; the drive is as before.
pub find_entry_lem :
    (fs : SimpleFileSystem) (fuel c : ℕ) (cs name : List ℕ) (m : Machine)
    → IsSound m.drive
    → IsChain fs m.drive c cs
    → length cs < fuel
    → (m' : Machine) × (find_entry fuel fs c name m
        ≡ ret (result (named name) (search (named name) (slots fs m.drive cs)), m'))
      × (m'.drive ≡ m.drive)
unfolding find_entry
find_entry_lem fs fuel c cs name m sound chain enough =
    let (m', e, drive) =
      scan_clusters-search (pick_entry name) fs fuel c cs m m.drive sound refl chain enough in
    (
      m',
      e ∙ ap (λ s. ret (result (named name) s, m')) (search-named name fs m.drive cs sound),
      drive,
    )

-- On a sound drive, where the chain `cs` of a directory ends within the fuel, `find_directory`
-- gives the first cluster of the first entry in use that has the directory's attribute and whose 11
-- bytes of name begin with the name sought; the drive is as before.
pub find_directory_lem :
    (fs : SimpleFileSystem) (fuel c : ℕ) (cs name : List ℕ) (m : Machine)
    → IsSound m.drive
    → IsChain fs m.drive c cs
    → length cs < fuel
    → (m' : Machine) × (find_directory fuel fs c name m
        ≡ ret (
          result (directory_named name) (search (directory_named name) (slots fs m.drive cs)),
          m',
        ))
      × (m'.drive ≡ m.drive)
unfolding find_directory
find_directory_lem fs fuel c cs name m sound chain enough =
    let (m', e, drive) =
      scan_clusters-search (pick_directory name) fs fuel c cs m m.drive sound refl chain enough in
    (
      m',
      e
          ∙ ap (λ s. ret (result (directory_named name) s, m'))
              (search-directory_named name fs m.drive cs sound),
      drive,
    )

-- What an opening of the entry that was found makes of the table.
abbrev pub Opened : FdTable → Option (ℕ × ℕ) → Option ℕ × FdTable → Type 0
Opened t none r = r ≡ (none, t)
Opened t (some (cluster, size)) r =
    Opens t (record { cluster = cluster; position = 0; is_dir = false; file_size = size }) 3 256 r
    ⊎ IsFull t 3 256 r

Opened-allocate_fd : (t : FdTable) (e : ℕ × ℕ) → Opened t (some e) (allocate_fd t e.0 false e.1)
Opened-allocate_fd t (cluster, size) = allocate_fd_lem t cluster false size

-- On a sound drive with a volume that mounts and a root directory whose chain `cs` ends within the
-- fuel, `syscall_open` opens the first entry in use whose short name is the path, the case of
-- letters apart: the lowest free descriptor from 3 to 255 gets its first cluster and its size, as
-- the entry's bytes tell them, at position 0, and the others stay; or it returns -1 and opens
-- nothing, when no entry has the name or no descriptor is free. The drive is as before.
pub syscall_open_lem :
    (fs : SimpleFileSystem) (fuel : ℕ) (cs path : List ℕ) (t : FdTable) (m : Machine)
    → IsSound m.drive
    → (init m).0 ≡ some fs
    → IsChain fs m.drive fs.root_cluster cs
    → length cs < fuel
    → (m' : Machine) × (r : Option ℕ × FdTable) × (syscall_open fuel path t m ≡ ret (r.0, r.1, m'))
      × Opened t (result (named path) (search (named path) (slots fs m.drive cs))) r
      × (m'.drive ≡ m.drive)
unfolding syscall_open
syscall_open_lem fs fuel cs path t m sound mounts chain enough =
    let port : not (has_port m) ≡ false = ground (arith, sound.present.1) in
    let e = (init_lem m sound mounts).0 in
    let m₁ = (init m).1 in
    let d : IsSound m₁.drive = subst IsSound (sym e) sound in
    let here = subst (λ x. IsChain fs x fs.root_cluster cs) (sym e) chain in
    let (m', returns, drive) = find_entry_lem fs fuel fs.root_cluster cs path m₁ d here enough in
    let hit = result (named path) (search (named path) (slots fs m₁.drive cs)) in
    let same : hit ≡ result (named path) (search (named path) (slots fs m.drive cs)) =
      ap (λ x. result (named path) (search (named path) (slots fs x cs))) e in
    let opens = if-eq_false _ port in
    elim (Option-cases hit) [
      | inl missing ↦ (
        m',
        (none, t),
        opens ∙ rw (mounts, returns, missing) refl,
        subst (λ o. Opened t o (none, t)) (sym missing ∙ same) refl,
        drive ∙ e,
      )
      | inr (entry, there) ↦ (
        m',
        allocate_fd t entry.0 false entry.1,
        opens ∙ rw (mounts, returns, there) refl,
        subst (λ o. Opened t o (allocate_fd t entry.0 false entry.1)) (sym there ∙ same)
            (Opened-allocate_fd t entry),
        drive ∙ e,
      )
    ]
