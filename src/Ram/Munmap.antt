-- ===== src/Ram/Munmap.antt =====
-- SYS_MUNMAP against `allocate_sectors`: who owns a page after the calls.
use forward_os_kernel_base.Base.{ℕ, ◌+◌, ◌*◌, ◌/◌, ◌^◌, ◌≤◌, ◌<◌}
use forward_os_kernel_base.Base.{◌≡◌, ◌⊎◌, inl, inr, arith, some}
use forward_os_kernel_base.Base.{false, ◌&&◌, ltb, if◌then◌else◌}
use forward_os_kernel_base.Base.{IsBytes, in_range, Bool-cases}
use native.Mathlib.Decide.{dec_lt}
use forward_os_kernel_base.Ram.{RamManager, is_used, page_size, allocate_sectors, sys_munmap}
use forward_os_kernel_base.Ram.Marks.{AfterRun, mark_free_run_lem}
use forward_os_kernel_base.Ram.Allocate.{allocate_sectors_lem}

-- Every page number times the page size is an address of 64 bits.
abbrev pub FitsAddress : RamManager → Type 0
FitsAddress m = m.total_sectors * page_size ≤ 2 ^ 64

-- Where the page numbers do not wrap at 2^64, SYS_MUNMAP frees the pages from the one of the address
-- on, as far as the bitmap goes, and no other page changes, whoever had them.
pub sys_munmap_lem :
    (m : RamManager) (addr pages : ℕ)
    → IsBytes m.bitmap
    → addr / 4096 + pages ≤ 2 ^ 64
    → AfterRun m (sys_munmap m addr pages) (λ j.
      if in_range (addr / 4096) pages j && ltb j m.total_sectors then false else is_used m j)
unfolding sys_munmap
sys_munmap_lem m addr pages b room = mark_free_run_lem m (addr / 4096) pages b room

-- Giving back a fresh allocation restores what the bitmap says of every page.
pub sys_munmap-allocate_sectors :
    (m : RamManager) (n addr j : ℕ)
    → IsBytes m.bitmap
    → FitsAddress m
    → 0 < n
    → (allocate_sectors m n).0 ≡ some addr
    → is_used (sys_munmap (allocate_sectors m n).1 addr n) j ≡ is_used m j
sys_munmap-allocate_sectors m n addr j b fits pos got = elim (allocate_sectors_lem m n b pos) [
  | inr refused ↦ ground (arith, refused.nothing)
  | inl t ↦
      let at : addr / 4096 ≡ t.s = ground (arith, t.address, t.run.fits) in
      let m' = (allocate_sectors m n).1 in
      let freed =
        (sys_munmap_lem m' addr n t.after.bytes (omega (arith, at, t.run.fits))).reads j in
      elim (Bool-cases (in_range t.s n j)) [
        | inl inside ↦
            ground (arith, freed, t.after.reads j, t.after.total, t.run.free j, t.run.fits)
        | inr outside ↦ ground (arith, freed, t.after.reads j)
      ]
]

-- Two allocations in a row have no page in common.
allocate_sectors_disjoint :
    (m : RamManager) (n k a b : ℕ)
    → IsBytes m.bitmap
    → FitsAddress m
    → 0 < n
    → 0 < k
    → (allocate_sectors m n).0 ≡ some a
    → (allocate_sectors (allocate_sectors m n).1 k).0 ≡ some b
    → (a + n * page_size ≤ b) ⊎ (b + k * page_size ≤ a)
allocate_sectors_disjoint m n k a b bytes fits pn pk ha hb =
    elim (allocate_sectors_lem m n bytes pn) [
      | inr refused ↦ ground (arith, refused.nothing)
      | inl s ↦ elim (allocate_sectors_lem (allocate_sectors m n).1 k s.after.bytes pk) [
        | inr refused ↦ ground (arith, refused.nothing)
        | inl t ↦
            let a_is : a ≡ s.s * page_size = ground (arith, s.address, s.run.fits) in
            let b_is : b ≡ t.s * page_size = ground (arith, t.address, t.run.fits, s.after.total) in
            elim (dec_lt t.s (s.s + n)) [
              | no after ↦ inl (omega arith)
              | yes below ↦ elim (dec_lt s.s (t.s + k)) [
                | no before ↦ inr (omega arith)
                | yes meets ↦ elim (dec_lt s.s t.s) [
                  | yes first ↦ ground (arith, t.run.free t.s, s.after.reads t.s)
                  | no second ↦ ground (arith, t.run.free s.s, s.after.reads s.s)
                ]
              ]
            ]
      ]
    ]
