-- ===== src/Write/InPlace.antt =====
-- A file whose clusters are written over, and a write of some of its bytes.
use forward_os_kernel_base.Base.{
  ℕ, zero, suc, ◌+◌, ◌-◌, ◌*◌, ◌/◌, ◌%◌, ◌^◌, ◌≤◌, ◌<◌, ◌≡◌, refl, ap, ◌∙◌, arith,
}
use forward_os_kernel_base.Base.{
  Bool, false, ◌==◌, in_range, if◌then◌else◌, if-eq_false, Option-cases, inl, inr, Option, none,
  some, Bytes, u64, Outcome, ret,
}
use native.Mathlib.Decide.{dec_lt}
use forward_os_kernel_base.Base.Memory.{read_u32_ext}
use forward_os_kernel_base.Disk.{Drive, Machine, IsSound}
use forward_os_kernel_base.Fat.{SimpleFileSystem, get_lba_of_cluster, fat_sector, fat_offset}
use forward_os_kernel_base.Fat.Chain.{entry, successor, nth, nth-zero}
use forward_os_kernel_base.File.{cluster_size}
use forward_os_kernel_base.File.Read.{file_byte}
use forward_os_kernel_base.Write.Extend.{successor-entry}

-- The sectors of the clusters of a chain are apart, and apart from those of
-- the FAT that have its entries.
pub record IsApart (fs : SimpleFileSystem) (chain : ℕ → Option ℕ) : Type 0 where
  pub clusters :
      (j k a b s t : ℕ)
      → chain j ≡ some a
      → chain k ≡ some b
      → (j == k) ≡ false
      → s < fs.sectors_per_clus
      → t < fs.sectors_per_clus
      → (u64 (get_lba_of_cluster fs a + s) == u64 (get_lba_of_cluster fs b + t)) ≡ false
  pub fat :
      (j k a c s : ℕ)
      → chain j ≡ some c
      → chain k ≡ some a
      → s < fs.sectors_per_clus
      → (u64 (get_lba_of_cluster fs a + s) == fat_sector fs c) ≡ false

-- Sector `l` is in none of the chain's clusters.
abbrev pub IsOff : SimpleFileSystem → (ℕ → Option ℕ) → ℕ → Type 0
IsOff fs chain l =
    (j c s : ℕ)
    → chain j ≡ some c
    → s < fs.sectors_per_clus
    → (u64 (get_lba_of_cluster fs c + s) == l) ≡ false

entry_same :
    (fs : SimpleFileSystem) (d d' : Drive) (c : ℕ)
    → ((b : ℕ) → d'.sector (fat_sector fs c) b ≡ d.sector (fat_sector fs c) b)
    → entry fs d' c ≡ entry fs d c
unfolding entry
entry_same fs d d' c h =
    ap (λ (n : ℕ). n % 2 ^ 28) (read_u32_ext _ _ (fat_offset c) (λ x lo hi. h x))

nth-front :
    (fs : SimpleFileSystem) (d : Drive) (j c b : ℕ)
    → successor fs d c ≡ some b
    → nth fs d c (suc j) ≡ nth fs d b j
unfolding nth
nth-front fs d j c b e = rw (e, nth) refl

-- A chain stays where its entries stay.
pub nth_same :
    (fs : SimpleFileSystem) (d d' : Drive) (k c : ℕ)
    → ((j a b : ℕ)
        → nth fs d c j ≡ some a
        → d'.sector (fat_sector fs a) b ≡ d.sector (fat_sector fs a) b)
    → nth fs d' c k ≡ nth fs d c k
unfolding nth
nth_same fs d d' zero c h = refl
nth_same fs d d' (suc k) c h =
    let e : successor fs d' c ≡ successor fs d c =
      successor-entry fs d d' c (entry_same fs d d' c (λ b. h 0 c b (nth-zero fs d c))) in
    elim (Option-cases (successor fs d c)) [
      | inl end ↦ rw (e ∙ end, end, nth) refl
      | inr (b, on) ↦
          rw (e ∙ on, on, nth)
            (nth_same fs d d' k b (λ j a x there. h (suc j) a x (nth-front fs d j c b on ∙ there)))
    ]

pub shifted_range :
    (base offset size q : ℕ) → in_range (base + offset) size (base + q) ≡ in_range offset size q
shifted_range base offset size q = ground arith

pub shifted_place : (base offset q : ℕ) → q - offset ≡ base + q - (base + offset)
shifted_place base offset q = omega arith

pub if_cong :
    {a b : Bool} {x y u v : ℕ} → a ≡ b → x ≡ y → u ≡ v → (if a then x else u) ≡ (if b then y else v)
if_cong e f g i = if e i then f i else g i

pub file_byte-none :
    (fs : SimpleFileSystem) (d : Drive) (first k q : ℕ)
    → nth fs d first k ≡ none
    → q < cluster_size fs
    → file_byte fs d first (k * cluster_size fs + q) ≡ 0
unfolding file_byte
file_byte-none fs d first k q h lt =
    let e : (k * cluster_size fs + q) / cluster_size fs ≡ k = grind arith in
    rw (e, h, file_byte) refl

-- Two stretches, one behind the other, as one.
pub joined :
    (source : Bytes) (buf from size written n p : ℕ)
    → n ≤ size
    → (near old : ℕ)
    → near ≡ (if in_range from n p then source (buf + written + (p - from)) else old)
    → (if in_range (from + n) (size - n) p
        then source (buf + (written + n) + (p - (from + n)))
        else near)
      ≡ (if in_range from size p then source (buf + written + (p - from)) else old)
joined source buf from size written n p le near old e = elim (dec_lt p (from + n)) [
  | yes first_part ↦
      let out : in_range (from + n) (size - n) p ≡ false = ground (arith, first_part) in
      let same : in_range from n p ≡ in_range from size p = ground (arith, first_part) in
      if-eq_false _ out ∙ (e ∙ if_cong same refl refl)
  | no later ↦
      let out : in_range from n p ≡ false = ground (arith, later) in
      let same : in_range (from + n) (size - n) p ≡ in_range from size p = ground (arith, later) in
      let place : buf + (written + n) + (p - (from + n)) ≡ buf + written + (p - from) =
        omega arith in
      if_cong same (ap source place) (e ∙ if-eq_false _ out)
]

-- A sound drive on which the file has this chain.
pub record IsOn (fs : SimpleFileSystem) (first : ℕ) (chain : ℕ → Option ℕ) (d : Drive)
    : Type 0 where
  pub sound : IsSound d
  pub chained : (k : ℕ) → nth fs d first k ≡ chain k

-- `size` bytes of the source have been written from position `from` of the file on, after those
-- that `written` counts; its other bytes, its chain, and the sectors of no cluster of it are as
-- on `d`.
pub record Written (fs : SimpleFileSystem) (first : ℕ) (chain : ℕ → Option ℕ) (source : Bytes)
    (buf from size written : ℕ) (d : Drive) (o : Outcome (ℕ × Machine)) : Type 0 where
  pub final : Machine
  pub returns : o ≡ ret (written + size, final)
  pub on : IsOn fs first chain final.drive
  pub bytes :
      (p : ℕ)
      → file_byte fs final.drive first p ≡ (
          if in_range from size p
          then source (buf + written + (p - from))
          else file_byte fs d first p)
  pub outside : (l b : ℕ) → IsOff fs chain l → final.drive.sector l b ≡ d.sector l b
