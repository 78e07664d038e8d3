-- ===== src/Paging/Tests.antt =====
-- The theorem applied to a machine with 2000 pages, the first hundred of them used.
use forward_os_kernel_base.Base.{
  ℕ, ◌+◌, ◌*◌, ◌≤◌, ◌<◌, ◌^◌, ◌≡◌, ltb, leb, ◌/◌, false, refl, if◌then◌else◌, arith, some, IsBytes,
}
use Prim.Native.Nat.{bit_and, bit_and-bitwise, ◌%◌}
use forward_os_kernel_base.Ram.{RamManager, is_used}
use forward_os_kernel_base.Ram.Allocate.{IsFreeRun}
use forward_os_kernel_base.Paging.{Words, init_os_paging}
use forward_os_kernel_base.Paging.Walk.{walk, init_os_paging_lem}

abbrev machine : RamManager
machine = record { bitmap = λ i. if ltb i 13 then 255 else 0; total_sectors = 2000 }

machine-IsBytes : IsBytes machine.bitmap
machine-IsBytes i = ground arith

free_byte : (j : ℕ) → 104 ≤ j → j < 104 + 66 → is_used machine j ≡ false
unfolding is_used
free_byte j from to =
    let byte : machine.bitmap (j / 8) ≡ 0 = ground arith in
    let some_page : leb 2000 j ≡ false = ground arith in
    let empty : bit_and 0 (1 * 2 ^ (j % 8)) ≡ 0 = simp bit_and-bitwise refl in
    rw (some_page, byte, empty, is_used) refl

machine-IsFreeRun : IsFreeRun machine 104 66
machine-IsFreeRun = record { fits = omega arith; free = λ j from to. free_byte j from to }

paging_example :
    (root : ℕ) × (mgr' : RamManager) × (mem' : Words) × (init_os_paging (machine, λ a. 1)
      ≡ some (root, mgr', mem'))
    × ((v : ℕ) → v < 2 ^ 36 → walk mem' root v ≡ some v)
paging_example =
    init_os_paging_lem machine (λ a. 1) 104 machine-IsBytes (omega arith) machine-IsFreeRun
