-- ===== src/Paging/Walk.antt =====
-- What the processor reads in the tables: the identity on the first 64 GiB.
use forward_os_kernel_base.Base.{
  ℕ, zero, suc, ◌+◌, ◌*◌, ◌/◌, ◌%◌, ◌^◌, ◌≤◌, ◌<◌, ◌≡◌, refl, ap, subst, ◌∙◌, arith, IsBytes,
}
use forward_os_kernel_base.Base.{◌==◌, if◌then◌else◌, Option, none, some, bit_and}
use forward_os_kernel_base.Ram.{RamManager, allocate_sectors}
use forward_os_kernel_base.Ram.Allocate.{IsFreeRun}
use forward_os_kernel_base.Paging.{
  Words, clear, set_entry, table_entry, mask, map_gibs, init_os_paging,
}
use forward_os_kernel_base.Paging.Tables.{table_entry_lem, set_entry-at, bit_and-mask}
use forward_os_kernel_base.Paging.Grow.{after, fresh, Mapped, used≢free, with_directory, map-Mapped}

-- The walk of the processor through four levels, whose third entry is a 2 MiB page; `none` is a page
-- fault. An entry's bit 0 says that it is present, bit 7 that it is a page.
abbrev resolve : ℕ → ℕ → ℕ → ℕ → Option ℕ
resolve e₄ e₃ e₂ v =
    if e₄ % 2 == 0
    then none
    else if e₃ % 2 == 0
    then none
    else if e₂ % 2 == 0
    then none
    else if e₂ / 2 ^ 7 % 2 == 0
    then none
    else some (e₂ / 2 ^ 21 % 2 ^ 31 * 2 ^ 21 + v % 2 ^ 21)

abbrev entry_at : Words → ℕ → ℕ → ℕ
entry_at mem table i = mem (table / 2 ^ 12 % 2 ^ 40 * 2 ^ 12 + i * 8)

pub walk : Words → ℕ → ℕ → Option ℕ
walk mem root v =
    let e₄ = entry_at mem root (v / 2 ^ 39 % 512) in
    let e₃ = entry_at mem e₄ (v / 2 ^ 30 % 512) in
    resolve e₄ e₃ (entry_at mem e₃ (v / 2 ^ 21 % 512)) v

map_gibs-Mapped :
    (P₄ P₃ j n s : ℕ) (mgr : RamManager) (mem : Words)
    → Mapped mgr mem P₄ P₃ j
    → IsBytes mgr.bitmap
    → mgr.total_sectors ≤ 2 ^ 40
    → IsFreeRun mgr s n
    → j + n ≡ 64
    → (mgr' : RamManager) × (mem' : Words) × (map_gibs (P₃ * 4096) j n (mgr, mem)
        ≡ some (mgr', mem'))
      × Mapped mgr' mem' P₄ P₃ 64
unfolding map_gibs
map_gibs-Mapped P₄ P₃ j zero s mgr mem b bytes total run fits =
    (mgr, mem, refl, subst (Mapped mgr mem P₄ P₃) (omega arith) b)
map_gibs-Mapped P₄ P₃ j (suc n) s mgr mem b bytes total run fits =
    let f = fresh mgr s n bytes total run in
    let (mgr', mem', e, b') =
      map_gibs-Mapped P₄ P₃ (suc j) n (s + 1) (after mgr) (with_directory P₃ j f.page mem)
        (map-Mapped mgr mem P₄ P₃ j s n b (omega arith) f) f.bytes f.total f.run (omega arith) in
    (mgr', mem', rw (f.found, map_gibs) e, b')

resolve_lem :
    (p d j i v : ℕ)
    → j ≡ v / 2 ^ 30
    → i ≡ v / 2 ^ 21 % 512
    → v < 2 ^ 36
    → resolve (p * 4096 + 7) (d * 4096 + 7) (j * 2 ^ 30 + i * 2 ^ 21 + 0x9F) v ≡ some v
resolve_lem p d j i v jv iv small = ground arith

walk-Mapped :
    (mgr : RamManager) (mem : Words) (P₄ P₃ v : ℕ)
    → Mapped mgr mem P₄ P₃ 64
    → P₄ < 2 ^ 40
    → v < 2 ^ 36
    → walk mem (P₄ * 4096) v ≡ some v
unfolding walk
walk-Mapped mgr mem P₄ P₃ v b small₄ small =
    let g = b.gib (v / 2 ^ 30) (omega arith) in
    let e₄ : entry_at mem (P₄ * 4096) (v / 2 ^ 39 % 512) ≡ P₃ * 4096 + 7 =
      ap mem (omega arith) ∙ b.root in
    let e₃ : entry_at mem (P₃ * 4096 + 7) (v / 2 ^ 30 % 512) ≡ g.pd * 4096 + 7 =
      ap mem (omega (arith, b.small₃)) ∙ g.entry in
    let e₂ : entry_at mem (g.pd * 4096 + 7) (v / 2 ^ 21 % 512)
        ≡ v / 2 ^ 30 * 2 ^ 30 + v / 2 ^ 21 % 512 * 2 ^ 21 + 0x9F =
      ap mem (omega (arith, g.small)) ∙ g.pages (v / 2 ^ 21 % 512) (omega arith) in
    ap
      (λ e.
        resolve e (entry_at mem e (v / 2 ^ 30 % 512))
          (entry_at mem (entry_at mem e (v / 2 ^ 30 % 512)) (v / 2 ^ 21 % 512)) v)
      e₄
    ∙ ap (λ e. resolve (P₃ * 4096 + 7) e (entry_at mem e (v / 2 ^ 21 % 512)) v) e₃
    ∙ ap (λ e. resolve (P₃ * 4096 + 7) (g.pd * 4096 + 7) e v) e₂
    ∙ resolve_lem P₃ g.pd (v / 2 ^ 30) (v / 2 ^ 21 % 512) v refl refl small

init_some :
    (mgr : RamManager) (mem : Words) (pml4 pdpt : ℕ) (mgr' : RamManager) (mem' : Words)
    → (allocate_sectors mgr 1).0 ≡ some pml4
    → (allocate_sectors (after mgr) 1).0 ≡ some pdpt
    → map_gibs pdpt 0 64
        (after (after mgr), set_entry pml4 0 (table_entry pdpt) (clear pdpt (clear pml4 mem)))
      ≡ some (mgr', mem')
    → init_os_paging (mgr, mem) ≡ some (bit_and pml4 mask, mgr', mem')
unfolding init_os_paging
init_some mgr mem pml4 pdpt mgr' mem' one two rest = rw (one, two, rest, init_os_paging) refl

-- With a run of 66 free pages below the limit of physical addresses the tables are built, and the
-- processor's walk from the address that is returned gives every address below 64 GiB for itself.
pub init_os_paging_lem :
    (mgr : RamManager) (mem : Words) (s : ℕ)
    → IsBytes mgr.bitmap
    → mgr.total_sectors ≤ 2 ^ 40
    → IsFreeRun mgr s 66
    → (root : ℕ) × (mgr' : RamManager) × (mem' : Words) × (init_os_paging (mgr, mem)
        ≡ some (root, mgr', mem'))
      × ((v : ℕ) → v < 2 ^ 36 → walk mem' root v ≡ some v)
init_os_paging_lem mgr mem s bytes total run =
    let f = fresh mgr s 65 bytes total run in
    let f' = fresh (after mgr) (s + 1) 64 f.bytes f.total f.run in
    let start : Words =
      set_entry (f.page * 4096) 0 (table_entry (f'.page * 4096))
        (clear (f'.page * 4096) (clear (f.page * 4096) mem)) in
    let b : Mapped (after (after mgr)) start f.page f'.page 0 = record {
      used₄ = f'.keeps f.page f.used;
      used₃ = f'.used;
      apart = used≢free (after mgr) f.page f'.page f.used f'.free;
      small₃ = f'.small;
      root =
          set_entry-at (f.page * 4096) 0 (table_entry (f'.page * 4096)) (f.page * 4096)
            (clear (f'.page * 4096) (clear (f.page * 4096) mem)) (omega arith)
          ∙ table_entry_lem f'.page f'.small;
      gib = λ j below. absurd (omega arith);
    } in
    let (mgr', mem', e, b') =
      map_gibs-Mapped f.page f'.page 0 64 (s + 1 + 1) (after (after mgr)) start b f'.bytes f'.total
        f'.run (omega arith) in
    (
      f.page * 4096,
      mgr',
      mem',
      init_some mgr mem (f.page * 4096) (f'.page * 4096) mgr' mem' f.found f'.found e
          ∙ ap (λ r. some (r, mgr', mem'))
              (bit_and-mask (f.page * 4096) (omega (arith, f.small)) (omega arith)),
      λ v small. walk-Mapped mgr' mem' f.page f'.page v b' f.small small,
    )
