-- ===== src/Ram.antt =====
-- kernel/src/ram.rs: the page bitmap and its first-fit allocators; and the two places outside it
-- that hand pages over, the memory-map loop of `kmain` (kernel/src/main.rs) and the system call
-- SYS_MUNMAP (kernel/src/interrupts.rs).
pub mod Marks
pub mod Allocate
pub mod Boot
pub mod Aligned
pub mod Munmap
mod Tests
use forward_os_kernel_base.Base.{ℕ, zero, suc, ◌+◌, ◌-◌, ◌*◌, ◌/◌, ◌%◌, ◌^◌, bit_and, bit_or}
use forward_os_kernel_base.Base.{Bool, true, false, not, ◌&&◌, ltb, leb, ◌==◌, if◌then◌else◌}
use forward_os_kernel_base.Base.{Option, none, some, List, [], ◌∷◌}
use forward_os_kernel_base.Base.{Bytes, set_byte, u64, ◌<<◌}

abbrev pub page_size : ℕ
page_size = 4096

-- `bitmap` is the memory at the bitmap's address, a set bit for a used page.
pub record RamManager : Type 0 where
  pub bitmap : Bytes
  pub total_sectors : ℕ

-- All pages are used at first. `old` is what the memory held.
pub new : Bytes → ℕ → RamManager
new old total_ram =
    let total = total_ram / page_size in
    record { bitmap = λ i. if ltb i ((total + 7) / 8) then 0xff else old i; total_sectors = total }

unfoldable pub mark_used : RamManager → ℕ → RamManager
mark_used m idx = if leb m.total_sectors idx then m else record m {
  bitmap = set_byte m.bitmap (idx / 8) (bit_or (m.bitmap (idx / 8)) (1 << idx % 8));
}

-- `!x` on a byte is `255 - x`.
pub mark_free : RamManager → ℕ → RamManager
mark_free m idx = if leb m.total_sectors idx then m else record m {
  bitmap = set_byte m.bitmap (idx / 8) (bit_and (m.bitmap (idx / 8)) (255 - (1 << idx % 8)));
}

unfoldable pub is_used : RamManager → ℕ → Bool
is_used m idx =
    if leb m.total_sectors idx then true else not (bit_and (m.bitmap (idx / 8)) (1 << idx % 8) == 0)

-- `for j in 0..n { self.mark_used(start + j); }`, and the same with `mark_free`.
unfoldable pub mark_used_run : RamManager → ℕ → ℕ → RamManager
mark_used_run m start zero = m
mark_used_run m start (suc n) = mark_used_run (mark_used m start) (start + 1) n

-- `start_sector + i` is a `usize`.
pub mark_free_run : RamManager → ℕ → ℕ → RamManager
mark_free_run m start zero = m
mark_free_run m start (suc n) = mark_free_run (mark_free m (u64 start)) (start + 1) n

-- The scan of `allocate_sectors` at page `i`, with `left` pages to go.
unfoldable pub allocate_scan : RamManager → ℕ → ℕ → ℕ → ℕ → ℕ → Option ℕ × RamManager
allocate_scan m n zero i consecutive start = (none, m)
allocate_scan m n (suc left) i consecutive start =
    let start' = if consecutive == 0 then i else start in
    elim (is_used m i) [
      | true ↦ allocate_scan m n left (i + 1) 0 start
      | false ↦ elim (consecutive + 1 == n) [
        | true ↦ (some (u64 (start' * page_size)), mark_used_run m start' n)
        | false ↦ allocate_scan m n left (i + 1) (consecutive + 1) start'
      ]
    ]

unfoldable pub allocate_sectors : RamManager → ℕ → Option ℕ × RamManager
unfolding allocate_scan
allocate_sectors m n = allocate_scan m n m.total_sectors 0 0 0

-- `for j in 0..n { if self.is_used(i + j) { fit = false; break; } }`
unfoldable pub fits : RamManager → ℕ → ℕ → Bool
fits m i zero = true
fits m i (suc n) = if is_used m i then false else fits m (i + 1) n

-- The scan of `allocate_aligned` at page `i`. An alignment of 0 divides by zero in the source, as
-- soon as a page is free.
unfoldable pub aligned_scan : RamManager → ℕ → ℕ → ℕ → ℕ → Option ℕ × RamManager
unfolding fits mark_used_run
aligned_scan m n alignment zero i = (none, m)
aligned_scan m n alignment (suc left) i =
    let addr = u64 (i * page_size) in
    let rest = aligned_scan m n alignment left (i + 1) in
    if not (is_used m i) && (addr % alignment == 0) && fits m i n
    then (some addr, mark_used_run m i n)
    else rest

unfoldable pub allocate_aligned : RamManager → ℕ → ℕ → Option ℕ × RamManager
unfolding aligned_scan
allocate_aligned m n alignment = aligned_scan m n alignment m.total_sectors 0

-- The failure value is the largest `u64`.
unfoldable pub allocate_sectors_direct : RamManager → ℕ → ℕ × RamManager
unfolding allocate_sectors
allocate_sectors_direct m n =
    let (found, m') = allocate_sectors m n in
    (elim found [ some addr ↦ addr | none ↦ 2 ^ 64 - 1 ], m')

-- SYS_MUNMAP: the loop frees `pages` pages from the page of `addr`.
pub sys_munmap : RamManager → ℕ → ℕ → RamManager
unfolding mark_free_run
sys_munmap m addr pages = mark_free_run m (addr / 4096) pages
