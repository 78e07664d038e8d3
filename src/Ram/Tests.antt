-- ===== src/Ram/Tests.antt =====
-- kernel/src/ram.rs: the page allocator on concrete bitmaps and a concrete memory map.
use forward_os_kernel_base.Base.{◌/◌, ◌≡◌, refl, ◌↔◌, ◌⊎◌, arith}
use forward_os_kernel_base.Base.{false, ◌&&◌, ltb, ◌==◌, if◌then◌else◌, in_range}
use forward_os_kernel_base.Base.{some, Bytes, IsBytes}
use forward_os_kernel_base.Ram.{RamManager, mark_used, is_used, mark_used_run}
use forward_os_kernel_base.Ram.{allocate_scan, allocate_sectors, sys_munmap}
use forward_os_kernel_base.Ram.Marks.{AfterRun}
use forward_os_kernel_base.Ram.Allocate.{Takes, Refuses, allocate_sectors_lem}
use forward_os_kernel_base.Ram.{allocate_aligned}
use forward_os_kernel_base.Ram.Aligned.{TakesAligned, RefusesAligned, allocate_aligned_lem}
use forward_os_kernel_base.Ram.Boot.{MemoryMap, IsConventional, init_ram, init_ram_lem}
use forward_os_kernel_base.Ram.Munmap.{sys_munmap_lem}

-- Ten pages, of which 2 to 5 are free.
abbrev four_free : RamManager
four_free = record { bitmap = λ i. if i == 0 then 0b11000011 else 0xff; total_sectors = 10 }

four_free-IsBytes : IsBytes four_free.bitmap
four_free-IsBytes i = ground arith

first_two : (allocate_sectors four_free 2).0 ≡ some 0x2000
unfolding allocate_sectors allocate_scan is_used mark_used_run mark_used
first_two = refl

next_two : (allocate_sectors (allocate_sectors four_free 2).1 2).0 ≡ some 0x4000
unfolding allocate_sectors allocate_scan is_used mark_used_run mark_used
next_two = refl

allocate_sectors_example :
    Takes four_free 3 (allocate_sectors four_free 3)
    ⊎ Refuses four_free 3 (allocate_sectors four_free 3)
allocate_sectors_example = allocate_sectors_lem four_free 3 four_free-IsBytes (omega arith)

sys_munmap_example :
    AfterRun four_free
      (sys_munmap four_free 0x6000 2)
      (λ j. if in_range (0x6000 / 4096) 2 j && ltb j 10 then false else is_used four_free j)
sys_munmap_example = sys_munmap_lem four_free 0x6000 2 four_free-IsBytes (omega arith)

-- One entry: 0x4001 pages of conventional memory from 0x4000000 on.
abbrev one_region : MemoryMap
one_region = record {
  bytes = λ i.
      if i == 0
      then 7
      else if i == 11
      then 4
      else if i == 24
      then 1
      else if i == 25
      then 0x40
      else 0;
  len = 48;
  desc_size = 48;
}

abbrev no_bytes : Bytes
no_bytes i = 0

init_ram_example :
    (is_used (init_ram no_bytes one_region) 0x4000 ≡ false) ↔ IsConventional one_region 1 0x4000
init_ram_example = init_ram_lem no_bytes one_region 0x4000 (λ i. omega arith) (omega arith)

allocate_aligned_example :
    TakesAligned four_free 2 0x4000 0 (allocate_aligned four_free 2 0x4000)
    ⊎ RefusesAligned four_free 2 0x4000 0 10 (allocate_aligned four_free 2 0x4000)
allocate_aligned_example = allocate_aligned_lem four_free 2 0x4000 four_free-IsBytes (omega arith)
