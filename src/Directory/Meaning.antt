-- ===== src/Directory/Meaning.antt =====
-- What the two searches of kernel/src/file.rs look for, after the layout of a FAT32 directory entry.
use forward_os_kernel_base.Base.{
  ℕ, zero, suc, ◌+◌, ◌-◌, ◌*◌, ◌/◌, ◌%◌, ◌^◌, ◌≡◌, refl, ap, ap₂, ◌∙◌, arith,
}
use forward_os_kernel_base.Base.{
  Bool, true, false, not, ◌&&◌, ◌||◌, leb, ◌==◌, if◌then◌else◌, Bool-cases, inl, inr, Option, none,
  some, List, [], ◌∷◌, ◌++◌, Bytes, IsBytes, bit_and, u64, read_u16, read_u32,
}
use forward_os_kernel_base.Base.Bits.{bit_and_mask, bit_and_shifted, bit_or_fields}
use forward_os_kernel_base.Disk.{Drive, IsSound}
use forward_os_kernel_base.Fat.{SimpleFileSystem, get_lba_of_cluster}
use forward_os_kernel_base.Directory.{
  slice, without_spaces, display_name, eq_ignore_ascii_case, starts_with, to_lower, entry_cluster,
  pick_entry, pick_directory, attr, Scan, found, ended,
}
use forward_os_kernel_base.Directory.Search.{
  Slot, slots_of_sector, sector_slots, slots_of_run, slots, search,
}

-- The letters of a name of `n` bytes, which is filled up with spaces.
abbrev pub letters : Bytes → ℕ → ℕ → List ℕ
letters b o zero = []
letters b o (suc n) = if b o == 32 then letters b (o + 1) n else b o ∷ letters b (o + 1) n

-- The short name, of 8 bytes and an extension of 3; the extension begins with a space where there is
-- none.
abbrev pub short_name : Bytes → ℕ → List ℕ
short_name b o = letters b o 8 ++ (if b (o + 8) == 32 then [] else 46 ∷ letters b (o + 8) 3)

-- A letter a to z as a capital.
abbrev pub capital : ℕ → ℕ
capital c = if leb 97 c && leb c 122 then c - 32 else c

abbrev pub same_name : List ℕ → List ℕ → Bool
same_name [] [] = true
same_name [] (d ∷ k) = false
same_name (c ∷ l) [] = false
same_name (c ∷ l) (d ∷ k) = (capital c == capital d) && same_name l k

-- The first cluster of an entry: the high half at 20, the low half at 26. The size at 28.
abbrev pub first_cluster : Bytes → ℕ → ℕ
first_cluster b o = b (o + 26) + 2 ^ 8 * b (o + 27) + 2 ^ 16 * b (o + 20) + 2 ^ 24 * b (o + 21)

abbrev pub size_of : Bytes → ℕ → ℕ
size_of b o = b (o + 28) + 2 ^ 8 * b (o + 29) + 2 ^ 16 * b (o + 30) + 2 ^ 24 * b (o + 31)

-- The cluster and the size of an entry with this name, the case of letters apart.
abbrev pub named : List ℕ → Bytes → ℕ → Option (ℕ × ℕ)
named name b o =
    if same_name (short_name b o) name then some (first_cluster b o, size_of b o) else none

-- The bytes of a name before `n` others, one by one.
abbrev pub begins : Bytes → ℕ → ℕ → List ℕ → Bool
begins b o n [] = true
begins b o zero (c ∷ name) = false
begins b o (suc n) (c ∷ name) = (b o == c) && begins b (o + 1) n name

-- The cluster of an entry with the directory's attribute, bit 4, whose 11 bytes begin with a name.
abbrev pub directory_named : List ℕ → Bytes → ℕ → Option ℕ
directory_named name b o =
    if (b (o + 11) / 2 ^ 4 % 2 == 1) && begins b o 11 name then some (first_cluster b o) else none

letters-slice : (b : Bytes) (o n : ℕ) → without_spaces (slice b o n) ≡ letters b o n
letters-slice b o zero = refl
letters-slice b o (suc n) = elim (Bool-cases (b o == 32)) [
  | inl space ↦ rw (space) (letters-slice b (o + 1) n)
  | inr letter ↦ rw (letter) (ap (λ (l : List ℕ). b o ∷ l) (letters-slice b (o + 1) n))
]

display_name-short_name : (b : Bytes) (o : ℕ) → display_name b o ≡ short_name b o
unfolding display_name
display_name-short_name b o =
    ap₂ (λ (l k : List ℕ). l ++ (if b (o + 8) == 32 then [] else 46 ∷ k)) (letters-slice b o 8)
      (letters-slice b (o + 8) 3)

capital_lem : (c d : ℕ) → (to_lower c == to_lower d) ≡ (capital c == capital d)
capital_lem c d = ground arith

same_name_lem : (l k : List ℕ) → eq_ignore_ascii_case l k ≡ same_name l k
unfolding eq_ignore_ascii_case
same_name_lem [] [] = refl
same_name_lem [] (d ∷ k) = refl
same_name_lem (c ∷ l) [] = refl
same_name_lem (c ∷ l) (d ∷ k) = ap₂ (λ (a b : Bool). a && b) (capital_lem c d) (same_name_lem l k)

begins_lem :
    (b : Bytes) (o n : ℕ) (name : List ℕ) → starts_with (slice b o n) name ≡ begins b o n name
unfolding starts_with
begins_lem b o zero [] = refl
begins_lem b o zero (c ∷ name) = refl
begins_lem b o (suc n) [] = refl
begins_lem b o (suc n) (c ∷ name) = ap (λ (x : Bool). (b o == c) && x) (begins_lem b (o + 1) n name)

-- The bytes of a word, each by its own offset.
read_u16_lem : (b : Bytes) (o : ℕ) → read_u16 b o ≡ b o + 2 ^ 8 * b (o + 1)
read_u16_lem b o = omega arith

after : (b : Bytes) (o m n : ℕ) → b (o + m + n) ≡ b (o + (m + n))
after b o m n = ap b (omega arith)

cluster_lem : (b : Bytes) (o : ℕ) → IsBytes b → entry_cluster b o ≡ first_cluster b o
cluster_lem b o bytes = omega (
  arith,
  bit_or_fields 16 (read_u16 b (o + 20)) (read_u16 b (o + 26))
      (omega (arith, bytes (o + 26), bytes (o + 26 + 1))),
  after b o 20 1,
  after b o 26 1,
)

size_lem : (b : Bytes) (o : ℕ) → read_u32 b (o + 28) ≡ size_of b o
size_lem b o = omega (arith, after b o 28 1, after b o 28 2, after b o 28 3)

named_lem : (name : List ℕ) (b : Bytes) (o : ℕ) → IsBytes b → pick_entry name b o ≡ named name b o
named_lem name b o bytes = λ i.
    if (ap (λ (l : List ℕ). eq_ignore_ascii_case l name) (display_name-short_name b o)
        ∙ same_name_lem (short_name b o) name)
      i
    then some (cluster_lem b o bytes i, size_lem b o i)
    else none

directory_named_lem :
    (name : List ℕ) (b : Bytes) (o : ℕ)
    → IsBytes b
    → pick_directory name b o ≡ directory_named name b o
directory_named_lem name b o bytes =
    let bit : bit_and (b (o + 11)) 0x10 ≡ b (o + 11) / 2 ^ 4 % 2 * 2 ^ 4 =
      omega
        (arith, bit_and_shifted 4 (b (o + 11)) (2 ^ 1 - 1), bit_and_mask 1 (b (o + 11) / 2 ^ 4)) in
    let set : not (bit_and (b (o + 11)) 0x10 == 0) ≡ (b (o + 11) / 2 ^ 4 % 2 == 1) =
      ground (arith, bit) in
    λ i. if set i && begins_lem b o 11 name i then some (cluster_lem b o bytes i) else none

-- Every byte of the sectors that a list of entries stands in is a byte.
abbrev AllBytes : List Slot → Type 0
AllBytes [] = Unit
AllBytes (s ∷ l) = IsBytes s.0 × AllBytes l

AllBytes-append : (l k : List Slot) → AllBytes l → AllBytes k → AllBytes (l ++ k)
AllBytes-append [] k a b = b
AllBytes-append (s ∷ l) k (x, a) b = (x, AllBytes-append l k a b)

AllBytes-sector : (b : Bytes) (left j : ℕ) → IsBytes b → AllBytes (slots_of_sector b left j)
unfolding slots_of_sector
AllBytes-sector b zero j bytes = tt
AllBytes-sector b (suc left) j bytes = (bytes, AllBytes-sector b left (j + 1) bytes)

AllBytes-run : (d : Drive) (lba left i : ℕ) → IsSound d → AllBytes (slots_of_run d lba left i)
unfolding slots_of_run sector_slots
AllBytes-run d lba zero i sound = tt
AllBytes-run d lba (suc left) i sound =
    AllBytes-append (sector_slots (d.sector (u64 (lba + i)))) (slots_of_run d lba left (i + 1))
      (AllBytes-sector (d.sector (u64 (lba + i))) 16 0 (sound.bytes (u64 (lba + i))))
      (AllBytes-run d lba left (i + 1) sound)

AllBytes-slots :
    (fs : SimpleFileSystem) (d : Drive) (cs : List ℕ) → IsSound d → AllBytes (slots fs d cs)
unfolding slots
AllBytes-slots fs d [] sound = tt
AllBytes-slots fs d (c ∷ cs) sound =
    AllBytes-append (slots_of_run d (get_lba_of_cluster fs c) fs.sectors_per_clus 0) (slots fs d cs)
      (AllBytes-run d (get_lba_of_cluster fs c) fs.sectors_per_clus 0 sound)
      (AllBytes-slots fs d cs sound)

-- Two tests that agree on bytes find the same.
search_ext :
    {A : Type 0} (p q : Bytes → ℕ → Option A) (l : List Slot)
    → ((b : Bytes) (o : ℕ) → IsBytes b → p b o ≡ q b o)
    → AllBytes l
    → search p l ≡ search q l
unfolding search
search_ext {A} p q [] same all = refl
search_ext {A} p q (s ∷ l) same (bytes, all) =
    ap₂
      (λ (x : Option A) (r : Scan A). elim (s.0 s.1 == 0x00) as (λ y. Scan A) [
        | true ↦ ended
        | false ↦ elim ((s.0 s.1 == 0xE5) || (attr s.0 s.1 == 0x0F)) as (λ y. Scan A) [
          | true ↦ r
          | false ↦ elim x as (λ y. Scan A) [ none ↦ r | some a ↦ found a ]
        ]
      ])
      (same s.0 s.1 bytes) (search_ext p q l same all)

pub search-named :
    (name : List ℕ) (fs : SimpleFileSystem) (d : Drive) (cs : List ℕ)
    → IsSound d
    → search (pick_entry name) (slots fs d cs) ≡ search (named name) (slots fs d cs)
search-named name fs d cs sound =
    search_ext (pick_entry name) (named name) (slots fs d cs) (named_lem name)
      (AllBytes-slots fs d cs sound)

pub search-directory_named :
    (name : List ℕ) (fs : SimpleFileSystem) (d : Drive) (cs : List ℕ)
    → IsSound d
    → search (pick_directory name) (slots fs d cs) ≡ search (directory_named name) (slots fs d cs)
search-directory_named name fs d cs sound =
    search_ext (pick_directory name) (directory_named name) (slots fs d cs)
      (directory_named_lem name) (AllBytes-slots fs d cs sound)
