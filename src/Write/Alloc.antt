-- ===== src/Write/Alloc.antt =====
-- `alloc_cluster` finds the first free cluster.
use forward_os_kernel_base.Base.{ℕ, zero, suc, ◌+◌, ◌*◌, ◌/◌, ◌%◌, ◌^◌, ◌≤◌, ◌<◌, ◌≡◌, refl, arith}
use forward_os_kernel_base.Base.{
  ap, ap₂, ◌∙◌, sym, subst, bit_and, Bool, true, false, not, ◌&&◌, leb, ◌==◌,
}
use forward_os_kernel_base.Base.{Bool-cases, inl, inr, Option, none, some}
use forward_os_kernel_base.Base.{Bytes, u32, u64, read_u32}
use native.Mathlib.Decide.{dec_lt}
use forward_os_kernel_base.Base.Bits.{bit_and_mask}
use forward_os_kernel_base.Disk.{
  Drive, Machine, IsSound, has_port, read_sector, read_sector-buffer, drive-read_sector,
}
use forward_os_kernel_base.Fat.{SimpleFileSystem, get_fat_lba, entry_mask}
use forward_os_kernel_base.Fat.Chain.{entry}
use forward_os_kernel_base.Write.{scan_fat, scan_fat_sector, scan_fats, alloc_cluster}

-- What a search from `lo` up to `hi` for a number with `p` gives.
pub data First (p : ℕ → Bool) (lo hi : ℕ) (r : Option ℕ) : Type 0 where
  hit :
      (c : ℕ)
      → r ≡ some c
      → lo ≤ c
      → c < hi
      → p c ≡ true
      → ((j : ℕ) → lo ≤ j → j < c → p j ≡ false)
      → First p lo hi r
  miss : r ≡ none → ((j : ℕ) → lo ≤ j → j < hi → p j ≡ false) → First p lo hi r

-- One more number below, which has not `p`.
First-cons :
    {p : ℕ → Bool} {lo hi : ℕ} {r : Option ℕ}
    → p lo ≡ false
    → First p (lo + 1) hi r
    → First p lo hi r
First-cons {p} {lo} h (hit c e above below found before) =
    hit c e (omega arith) below found (λ j a b. elim (Bool-cases (lo == j)) [
      | inl same ↦ subst (λ i. p i ≡ false) (ground arith) h
      | inr other ↦ before j (ground arith) b
    ])
First-cons {p} {lo} h (miss e nothing) = miss e (λ j a b. elim (Bool-cases (lo == j)) [
  | inl same ↦ subst (λ i. p i ≡ false) (ground arith) h
  | inr other ↦ nothing j (ground arith) b
])

-- A stretch without `p` below.
First-behind :
    {p : ℕ → Bool} {lo mid mid' hi hi' : ℕ} {r : Option ℕ}
    → ((j : ℕ) → lo ≤ j → j < mid → p j ≡ false)
    → mid ≡ mid'
    → hi ≡ hi'
    → lo ≤ mid
    → First p mid' hi' r
    → First p lo hi r
First-behind {mid} h same end le (hit c e above below found before) =
    hit c e (omega arith) (omega arith) found
      (λ j a b. elim (dec_lt j mid) [ yes low ↦ h j a low | no high ↦ before j (omega arith) b ])
First-behind {mid} h same end le (miss e nothing) = miss e (λ j a b. elim (dec_lt j mid) [
  | yes low ↦ h j a low
  | no high ↦ nothing j (omega arith) (omega arith)
])

-- A cluster that may be given out: its entry is 0, and it is not one of the first two.
unfoldable pub is_free : SimpleFileSystem → Drive → ℕ → Bool
is_free fs d c = (entry fs d c == 0) && leb 2 c

-- The `i`-th entry of the `s`-th sector of the FAT.
pub entry_at :
    (fs : SimpleFileSystem) (d : Drive) (s i : ℕ)
    → i < 128
    → read_u32 (d.sector (u64 (get_fat_lba fs + s))) (i * 4) % 2 ^ 28 ≡ entry fs d (s * 128 + i)
unfolding entry
entry_at fs d s i h =
    let a : s ≡ (s * 128 + i) * 4 / 512 = omega arith in
    let b : i * 4 ≡ (s * 128 + i) * 4 % 512 = omega arith in
    ap₂ (λ (x y : ℕ). read_u32 (d.sector (u64 (get_fat_lba fs + x))) y % 2 ^ 28) a b

module _ (fs : SimpleFileSystem) (d : Drive) where
  scan_fat_lem :
      (s left i : ℕ)
      → i + left ≡ 128
      → s * 128 + 128 ≤ 2 ^ 32
      → First
          (is_free fs d)
          (s * 128 + i)
          (s * 128 + 128)
          (scan_fat (d.sector (u64 (get_fat_lba fs + s))) s left i)
  unfolding scan_fat is_free
  scan_fat_lem s zero i e fits = miss refl (λ j a b. absurd (omega arith))
  scan_fat_lem s (suc left) i e fits =
      let b = d.sector (u64 (get_fat_lba fs + s)) in
      let c = u32 (s * 128 + i) in
      let c_is : c ≡ s * 128 + i = omega arith in
      let test = (bit_and (read_u32 b (i * 4)) entry_mask == 0) && leb 2 c in
      let test_is : test ≡ is_free fs d (s * 128 + i) =
        ap₂ (λ (x y : ℕ). (x == 0) && leb 2 y)
          (bit_and_mask 28 (read_u32 b (i * 4)) ∙ entry_at fs d s i (omega arith)) c_is in
      elim (Bool-cases test) [
        | inl free ↦
            rw (free, scan_fat)
              (hit (s * 128 + i) (ap some c_is) (omega arith) (omega arith) (sym test_is ∙ free)
                (λ j a b. absurd (omega arith)))
        | inr used ↦
            rw (used, scan_fat)
              (First-cons (sym test_is ∙ used) (
                subst
                  (λ (n : ℕ). First (is_free fs d) n (s * 128 + 128) (scan_fat b s left (i + 1)))
                  (omega arith) (scan_fat_lem s left (i + 1) (omega arith) fits)))
      ]

  scan_fat_sector_lem :
      (s : ℕ) (b : Bytes)
      → b ≡ d.sector (u64 (get_fat_lba fs + s))
      → s * 128 + 128 ≤ 2 ^ 32
      → First (is_free fs d) (s * 128) (s * 128 + 128) (scan_fat_sector b s)
  unfolding scan_fat_sector
  scan_fat_sector_lem s b e fits =
      subst (λ b. First (is_free fs d) (s * 128) (s * 128 + 128) (scan_fat b s 128 0)) (sym e)
        (subst
          (λ (n : ℕ).
            First (is_free fs d) n (s * 128 + 128)
              (scan_fat (d.sector (u64 (get_fat_lba fs + s))) s 128 0))
          (omega arith) (scan_fat_lem s 128 0 refl fits))

  scan_fats_lem :
      (left s : ℕ) (m : Machine)
      → IsSound d
      → m.drive ≡ d
      → (s + left) * 128 ≤ 2 ^ 32
      → First (is_free fs d) (s * 128) ((s + left) * 128) (scan_fats fs left s m).0
        × ((scan_fats fs left s m).1.drive ≡ d)
  unfolding scan_fats
  scan_fats_lem zero s m sound e fits = (miss refl (λ j a b. absurd (omega arith)), e)
  scan_fats_lem (suc left) s m sound e fits =
      let l = u64 (get_fat_lba fs + s) in
      let m' = read_sector l m in
      let drive = drive-read_sector l m ∙ e in
      let here : First (is_free fs d) (s * 128) (s * 128 + 128) (scan_fat_sector m'.buffer s) =
        scan_fat_sector_lem s m'.buffer (read_sector-buffer l m d sound e) (omega arith) in
      let rest = scan_fats_lem left (s + 1) m' sound drive (omega arith) in
      elim here [
        | hit c f above below found before ↦
            rw (f, scan_fats) (hit c refl above (omega arith) found before, drive)
        | miss f nothing ↦
            rw (f, scan_fats)
              (First-behind nothing (omega arith) (omega arith) (omega arith) rest.0, rest.1)
      ]

  -- On a sound drive `alloc_cluster` gives the first cluster from 2 on whose entry in the FAT is 0,
  -- or there is none in the whole FAT; it writes nothing. The clusters' numbers fit 32 bits.
  pub alloc_cluster_lem :
      (m : Machine)
      → IsSound d
      → m.drive ≡ d
      → fs.fat_sz32 * 128 ≤ 2 ^ 32
      → First (is_free fs d) 0 (fs.fat_sz32 * 128) (alloc_cluster fs m).0
        × ((alloc_cluster fs m).1.drive ≡ d)
  unfolding alloc_cluster
  alloc_cluster_lem m sound e fits =
      let port : not (has_port m) ≡ false = ground (arith, sound.present.1) in
      let r = scan_fats_lem fs.fat_sz32 0 m sound e (omega arith) in
      rw port (
        First-behind {mid = 0} (λ j a b. absurd (omega arith)) (omega arith) (omega arith)
            (omega arith) r.0,
        r.1,
      )
