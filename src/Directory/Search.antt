-- ===== src/Directory/Search.antt =====
-- The nested loops of a search are one search of the flat list of a directory's entries.
use forward_os_kernel_base.Base.{ℕ, zero, suc, ◌+◌, ◌*◌, ◌<◌, ◌≡◌, refl, arith, bit_and}
use forward_os_kernel_base.Base.{
  Bool, true, false, not, ◌&&◌, ◌||◌, ltb, ◌==◌, Bool-cases, inl, inr,
}
use forward_os_kernel_base.Base.{
  Option, none, some, List, [], ◌∷◌, ◌++◌, length, Bytes, u64, read_u32,
}
use forward_os_kernel_base.Base.{ret, Option-cases, ap, sym, subst, ◌∙◌}
use forward_os_kernel_base.Base.Bits.{bit_and_mask}
use forward_os_kernel_base.Disk.{
  Drive, Machine, IsSound, read_sector, read_sector-buffer, drive-read_sector,
}
use forward_os_kernel_base.Fat.{
  SimpleFileSystem, get_lba_of_cluster, fat_sector, fat_offset, end_of_chain, entry_mask,
}
use forward_os_kernel_base.Fat.Chain.{entry}
use forward_os_kernel_base.Directory.{
  attr, Scan, found, ended, onward, scan_entries, scan_sector, scan_sectors,
}
use forward_os_kernel_base.Directory.{scan_clusters}

-- An entry's place: the sector that holds it, and its offset there.
abbrev pub Slot : Type 0
Slot = Bytes × ℕ

unfoldable pub slots_of_sector : Bytes → ℕ → ℕ → List Slot
slots_of_sector b zero j = []
slots_of_sector b (suc left) j = (b, j * 32) ∷ slots_of_sector b left (j + 1)

unfoldable pub sector_slots : Bytes → List Slot
unfolding slots_of_sector
sector_slots b = slots_of_sector b 16 0

unfoldable pub slots_of_run : Drive → ℕ → ℕ → ℕ → List Slot
slots_of_run d lba zero i = []
slots_of_run d lba (suc left) i =
    sector_slots (d.sector (u64 (lba + i))) ++ slots_of_run d lba left (i + 1)

-- The entries of a directory that has the clusters `cs`, in order.
unfoldable pub slots : SimpleFileSystem → Drive → List ℕ → List Slot
slots fs d [] = []
slots fs d (c ∷ cs) =
    slots_of_run d (get_lba_of_cluster fs c) fs.sectors_per_clus 0 ++ slots fs d cs

abbrev pub is_cluster : ℕ → Bool
is_cluster c = ltb c end_of_chain && not (c == 0)

-- `cs` is the chain that begins with `c`, as the FAT on the disk says.
unfoldable pub IsChain : SimpleFileSystem → Drive → ℕ → List ℕ → Type 0
IsChain fs d c [] = is_cluster c ≡ false
IsChain fs d c (x ∷ cs) = (c ≡ x) × (is_cluster x ≡ true) × IsChain fs d (entry fs d x) cs

module _ {A : Type 0} (pick : Bytes → ℕ → Option A) where
  -- The first entry in use that `pick` takes, before the mark of the end.
  unfoldable pub search : List Slot → Scan A
  search [] = onward
  search (s ∷ l) =
      let rest = search l in
      elim (s.0 s.1 == 0x00) [
        | true ↦ ended
        | false ↦ elim ((s.0 s.1 == 0xE5) || (attr s.0 s.1 == 0x0F)) [
          | true ↦ rest
          | false ↦ elim (pick s.0 s.1) [ none ↦ rest | some a ↦ found a ]
        ]
      ]

  abbrev pub and_then : Scan A → Scan A → Scan A
  and_then (found a) y = found a
  and_then ended y = ended
  and_then onward y = y

  abbrev pub result : Scan A → Option A
  result (found a) = some a
  result ended = none
  result onward = none

  search-append : (l k : List Slot) → search (l ++ k) ≡ and_then (search l) (search k)
  unfolding search
  search-append [] k = refl
  search-append (s ∷ l) k = elim (Bool-cases (s.0 s.1 == 0x00)) [
    | inl e ↦ rw (e, search)
    | inr e ↦ elim (Bool-cases ((s.0 s.1 == 0xE5) || (attr s.0 s.1 == 0x0F))) [
      | inl f ↦ rw (e, f, search) (search-append l k)
      | inr f ↦ elim (Option-cases (pick s.0 s.1)) [
        | inl g ↦ rw (e, f, g, search) (search-append l k)
        | inr (a, g) ↦ rw (e, f, g, search)
      ]
    ]
  ]

  search-nil : search [] ≡ onward
  unfolding search
  search-nil = refl

  data Cases (s : Scan A) : Type 0 where
    is_found : (a : A) → s ≡ found a → Cases s
    is_ended : s ≡ ended → Cases s
    is_onward : s ≡ onward → Cases s

  cases : (s : Scan A) → Cases s
  cases (found a) = is_found a refl
  cases ended = is_ended refl
  cases onward = is_onward refl

  scan_entries-search :
      (b : Bytes) (left j : ℕ) → scan_entries pick b left j ≡ search (slots_of_sector b left j)
  unfolding scan_entries search slots_of_sector
  scan_entries-search b zero j = refl
  scan_entries-search b (suc left) j =
      let o = j * 32 in
      ap
        (λ r. elim (b o == 0x00) as (λ y. Scan A) [
          | true ↦ ended
          | false ↦ elim ((b o == 0xE5) || (attr b o == 0x0F)) as (λ y. Scan A) [
            | true ↦ r
            | false ↦ elim (pick b o) as (λ y. Scan A) [ none ↦ r | some a ↦ found a ]
          ]
        ])
        (scan_entries-search b left (j + 1))

  scan_sector-search : (b : Bytes) → scan_sector pick b ≡ search (sector_slots b)
  unfolding scan_sector sector_slots
  scan_sector-search b = scan_entries-search b 16 0

  scan_sectors-search :
      (lba left i : ℕ) (m : Machine) (d : Drive)
      → IsSound d
      → m.drive ≡ d
      → ((scan_sectors pick lba left i m).0 ≡ search (slots_of_run d lba left i))
        × ((scan_sectors pick lba left i m).1.drive ≡ d)
  unfolding scan_sectors slots_of_run
  scan_sectors-search lba zero i m d sound e = (sym search-nil, e)
  scan_sectors-search lba (suc left) i m d sound e =
      let l = u64 (lba + i) in
      let there = sector_slots (d.sector l) in
      let h : scan_sector pick (read_sector l m).buffer ≡ search there =
        ap (scan_sector pick) (read_sector-buffer l m d sound e)
        ∙ scan_sector-search (d.sector l) in
      let drive = drive-read_sector l m ∙ e in
      let rest = scan_sectors-search lba left (i + 1) (read_sector l m) d sound drive in
      elim (cases (search there)) [
        | is_found a f ↦ rw (h, search-append there, f, scan_sectors) (refl, drive)
        | is_ended f ↦ rw (h, search-append there, f, scan_sectors) (refl, drive)
        | is_onward f ↦ rw (h, search-append there, f, scan_sectors) rest
      ]

  next_is :
      (fs : SimpleFileSystem) (x : ℕ) (m : Machine) (d : Drive)
      → IsSound d
      → m.drive ≡ d
      → bit_and (read_u32 (read_sector (fat_sector fs x) m).buffer (fat_offset x)) entry_mask
        ≡ entry fs d x
  unfolding entry
  next_is fs x m d sound e =
      rw (read_sector-buffer (fat_sector fs x) m d sound e) (bit_and_mask 28 _)

  -- A search of a directory whose chain ends within the fuel comes to an end, with what a search of
  -- its list of entries gives.
  pub scan_clusters-search :
      (fs : SimpleFileSystem) (fuel c : ℕ) (cs : List ℕ) (m : Machine) (d : Drive)
      → IsSound d
      → m.drive ≡ d
      → IsChain fs d c cs
      → length cs < fuel
      → (m' : Machine) × (scan_clusters pick fs fuel c m
          ≡ ret (result (search (slots fs d cs)), m'))
        × (m'.drive ≡ d)
  unfolding scan_clusters IsChain slots search
  scan_clusters-search fs zero c cs m d sound e chain enough = absurd (omega arith)
  scan_clusters-search fs (suc fuel) c [] m d sound e chain enough = (m, rw chain, e)
  scan_clusters-search fs (suc fuel) c (x ∷ cs) m d sound e chain enough =
      let run = slots_of_run d (get_lba_of_cluster fs x) fs.sectors_per_clus 0 in
      let s = scan_sectors-search (get_lba_of_cluster fs x) fs.sectors_per_clus 0 m d sound e in
      let m₁ = (scan_sectors pick (get_lba_of_cluster fs x) fs.sectors_per_clus 0 m).1 in
      let next = next_is fs x m₁ d sound s.1 in
      let rest =
        scan_clusters-search fs fuel (entry fs d x) cs (read_sector (fat_sector fs x) m₁) d sound
          (drive-read_sector (fat_sector fs x) m₁ ∙ s.1) chain.2 (omega arith) in
      subst
        (λ (c : ℕ).
          (m' : Machine) × (scan_clusters pick fs (suc fuel) c m
            ≡ ret (result (search (run ++ slots fs d cs)), m'))
          × (m'.drive ≡ d))
        (sym chain.0)
        (rw (search-append run (slots fs d cs)) (elim (cases (search run)) [
          | is_found a f ↦ (m₁, rw (chain.1, s.0, f, scan_clusters), s.1)
          | is_ended f ↦ (m₁, rw (chain.1, s.0, f, scan_clusters), s.1)
          | is_onward f ↦ (rest.0, rw (chain.1, s.0, f, next, scan_clusters) rest.1, rest.2)
        ]))
