-- ===== src/Fat/Chain.antt =====
-- Chains as the FAT on the disk gives them, apart from the code that walks them.
use forward_os_kernel_base.Base.{ℕ, zero, suc, ◌%◌, ◌^◌, ◌<◌, ◌≡◌, refl, arith}
use forward_os_kernel_base.Base.{not, ◌&&◌, ltb, ◌==◌, if◌then◌else◌}
use forward_os_kernel_base.Base.{Option, none, some, read_u32, Option-cases, inl, inr}
use forward_os_kernel_base.Base.Bits.{bit_and_mask}
use forward_os_kernel_base.Disk.{Machine, Drive, IsSound, read_sector}
use forward_os_kernel_base.Fat.{
  SimpleFileSystem, fat_sector, fat_offset, end_of_chain, next_cluster, init, read_bpb,
  partition_lba,
}

-- The 28 bits of a cluster's entry.
unfoldable pub entry : SimpleFileSystem → Drive → ℕ → ℕ
entry fs d cluster = read_u32 (d.sector (fat_sector fs cluster)) (fat_offset cluster) % 2 ^ 28

unfoldable pub successor : SimpleFileSystem → Drive → ℕ → Option ℕ
successor fs d cluster =
    let e = entry fs d cluster in if ltb e end_of_chain && not (e == 0) then some e else none

-- The `k`-th cluster of the chain that begins at `cluster`.
unfoldable pub nth : SimpleFileSystem → Drive → ℕ → ℕ → Option ℕ
nth fs d cluster zero = some cluster
nth fs d cluster (suc k) = elim (successor fs d cluster) [ none ↦ none | some c ↦ nth fs d c k ]

-- On a sound drive `next_cluster` steps along the chain, and fills the buffer only.
pub next_cluster-successor :
    (fs : SimpleFileSystem) (cluster : ℕ) (m : Machine) (d : Drive)
    → IsSound d
    → m.drive ≡ d
    → ((next_cluster fs cluster m).0 ≡ successor fs d cluster)
      × ((next_cluster fs cluster m).1.drive ≡ d)
unfolding next_cluster read_sector successor entry
next_cluster-successor fs cluster m d s e = (
  ground (
    arith,
    s.present.1,
    s.reads (fat_sector fs cluster),
    bit_and_mask 28 (read_u32 (d.sector (fat_sector fs cluster)) (fat_offset cluster)),
  ),
  ground arith,
)

-- Whatever the drive does, only the buffer changes.
pub drive-next_cluster :
    (fs : SimpleFileSystem) (cluster : ℕ) (m : Machine)
    → (next_cluster fs cluster m).1.drive ≡ m.drive
unfolding next_cluster
drive-next_cluster fs cluster m = ground arith

pub nth-suc :
    (fs : SimpleFileSystem) (d : Drive) (k first : ℕ) {c : ℕ}
    → nth fs d first k ≡ some c
    → nth fs d first (suc k) ≡ successor fs d c
unfolding nth
nth-suc fs d zero first h = ground arith
nth-suc fs d (suc k) first {c} h = elim (Option-cases (successor fs d first)) [
  | inl e ↦ ground arith
  | inr (b, e) ↦
      let h' : nth fs d b k ≡ some c = ground arith in ground (arith, nth-suc fs d k b h')
]

-- Mounting leaves the drive alone, and on a drive of bytes the sectors of a cluster are a byte.
pub init_lem :
    (m : Machine) {fs : SimpleFileSystem}
    → IsSound m.drive
    → (init m).0 ≡ some fs
    → ((init m).1.drive ≡ m.drive) × (fs.sectors_per_clus < 256)
unfolding init read_sector read_bpb
init_lem m s e = (
  ground arith,
  ground (
    arith,
    s.reads 0,
    s.reads (partition_lba (m.drive.sector 0)),
    s.bytes (partition_lba (m.drive.sector 0)) 13,
  ),
)

pub nth-zero : (fs : SimpleFileSystem) (d : Drive) (first : ℕ) → nth fs d first 0 ≡ some first
unfolding nth
nth-zero fs d first = refl
