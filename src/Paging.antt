-- ===== src/Paging.antt =====
-- kernel/src/paging.rs: the page tables of the kernel, in pages of the bitmap of Ram.antt. Memory is a
-- function from the address of a 64-bit word to the word.
pub mod Tables
pub mod Grow
pub mod Walk
mod Tests
use forward_os_kernel_base.Base.{ℕ, zero, suc, ◌+◌, ◌*◌, bit_and, bit_or, ◌<<◌}
use forward_os_kernel_base.Base.{Option, none, some, in_range, ◌==◌, if◌then◌else◌}
use forward_os_kernel_base.Ram.{RamManager, allocate_sectors}

abbrev pub page_present : ℕ
page_present = 1 << 0

abbrev pub page_writable : ℕ
page_writable = 1 << 1

abbrev pub page_user : ℕ
page_user = 1 << 2

abbrev pub page_huge : ℕ
page_huge = 1 << 7

abbrev pub mask : ℕ
mask = 0x000FFFFFFFFFF000

abbrev pub Words : Type 0
Words = ℕ → ℕ

-- `(*table).clear()`
unfoldable pub clear : ℕ → Words → Words
clear table mem a = if in_range table 4096 a then 0 else mem a

-- `(*table).entries[i] = value`
unfoldable pub set_entry : ℕ → ℕ → ℕ → Words → Words
set_entry table i value mem a = if table + i * 8 == a then value else mem a

abbrev pub table_entry : ℕ → ℕ
table_entry phys = bit_or (bit_or (bit_or (bit_and phys mask) page_present) page_writable) page_user

-- The entry of 2 MiB; bits 3 and 4 switch the cache off.
abbrev pub huge_entry : ℕ → ℕ → ℕ
huge_entry j i =
    let addr = j * 1024 * 1024 * 1024 + i * 2 * 1024 * 1024 in
    let flags = bit_or (bit_or (bit_or page_present page_writable) page_huge) page_user in
    bit_or (bit_and addr mask) (bit_or flags (bit_or (1 << 3) (1 << 4)))

-- `for i in i..i + n` over the entries of a directory.
unfoldable pub fill_directory : ℕ → ℕ → ℕ → ℕ → Words → Words
unfolding set_entry
fill_directory pd j i zero mem = mem
fill_directory pd j i (suc n) mem =
    fill_directory pd j (suc i) n (set_entry pd i (huge_entry j i) mem)

-- `for j in j..j + n`; `none` is the panic of `expect`.
unfoldable pub map_gibs : ℕ → ℕ → ℕ → RamManager × Words → Option (RamManager × Words)
unfolding clear set_entry fill_directory
map_gibs pdpt j zero s = some s
map_gibs pdpt j (suc n) (mgr, mem) =
    let (found, mgr') = allocate_sectors mgr 1 in
    elim found [
      | none ↦ none
      | some pd ↦
          map_gibs pdpt (suc j) n
            (mgr', fill_directory pd j 0 512 (set_entry pdpt j (table_entry pd) (clear pd mem)))
    ]

unfoldable pub init_os_paging : RamManager × Words → Option (ℕ × RamManager × Words)
unfolding clear set_entry map_gibs
init_os_paging (mgr, mem) =
    let (first, mgr₁) = allocate_sectors mgr 1 in
    let (second, mgr₂) = allocate_sectors mgr₁ 1 in
    elim first [
      | none ↦ none
      | some pml4 ↦ elim second [
        | none ↦ none
        | some pdpt ↦
            elim (map_gibs pdpt 0 64
              (mgr₂, set_entry pml4 0 (table_entry pdpt) (clear pdpt (clear pml4 mem)))) [
                | none ↦ none
                | some (mgr₃, mem₃) ↦ some (bit_and pml4 mask, mgr₃, mem₃)
              ]
      ]
    ]
