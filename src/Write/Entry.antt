-- ===== src/Write/Entry.antt =====
-- `set_fat_entry` changes the one entry of the FAT and nothing else on the disk.
use forward_os_kernel_base.Base.{ℕ, ◌+◌, ◌*◌, ◌/◌, ◌%◌, ◌^◌, ◌≤◌, ◌<◌, ◌≡◌, ◌≢◌, refl, arith}
use forward_os_kernel_base.Base.{
  ◌⊎◌, ==→≡, ==→≢, ap, ap₂, subst, ◌∙◌, sym, bit_and, bit_or, Bool, false, not, ◌&&◌, ◌==◌,
}
use forward_os_kernel_base.Base.{
  if◌then◌else◌, if-eq_true, if-eq_false, in_range, Bool-cases, inl, inr,
}
use forward_os_kernel_base.Base.{Bytes, IsBytes, u64, read_u32, write_u32}
use native.Mathlib.Decide.{dec_lt}
use forward_os_kernel_base.Base.Bits.{bit_and_mask, bit_and_shifted, bit_or_fields}
use forward_os_kernel_base.Base.Memory.{read_u32-write_u32, write_u32_outside, read_u32_ext}
use forward_os_kernel_base.Disk.{
  Drive, Machine, IsSound, has_port, read_sector, read_sector-buffer, drive-read_sector,
  write_sector, store_buffer-read_sector,
}
use forward_os_kernel_base.Fat.{SimpleFileSystem, get_fat_lba, fat_sector, fat_offset, entry_mask}
use forward_os_kernel_base.Fat.Chain.{entry}
use forward_os_kernel_base.Write.{set_fat_entry}

-- The new word: the upper four bits of the old one, the lower 28 of the value.
new_word :
    (current value : ℕ)
    → current < 2 ^ 32
    → bit_or (bit_and current 0xF0000000) (bit_and value entry_mask)
      ≡ current / 2 ^ 28 * 2 ^ 28 + value % 2 ^ 28
new_word current value h =
    let high : bit_and current 0xF0000000 ≡ current / 2 ^ 28 % 16 * 2 ^ 28 =
      bit_and_shifted 28 current 15
      ∙ ap (λ (n : ℕ). n * 2 ^ 28) (bit_and_mask 4 (current / 2 ^ 28)) in
    rw (high, bit_and_mask 28 value)
      (bit_or_fields 28 (current / 2 ^ 28 % 16) (value % 2 ^ 28) (omega arith) ∙ omega arith)

read_u32-lt : (b : Bytes) (a : ℕ) → IsBytes b → read_u32 b a < 2 ^ 32
read_u32-lt b a h = omega (arith, h a, h (a + 1), h (a + 2), h (a + 3))

-- The disk after a write of one sector.
pub record Wrote (d d' : Drive) (l : ℕ) (b : Bytes) : Type 0 where
  pub sector : (k i : ℕ) → d'.sector k i ≡ (if l == k then b i else d.sector k i)
  pub sound : IsSound d'

write_u32-lt : (b : Bytes) (a v x : ℕ) → IsBytes b → write_u32 b a v x < 256
write_u32-lt b a v x h = ground (arith, h x)

pub write_sector-Wrote :
    (l : ℕ) (m : Machine)
    → IsSound m.drive
    → IsBytes m.buffer
    → Wrote m.drive (write_sector l m).drive l m.buffer
unfolding write_sector
write_sector-Wrote l m sound b = record {
  sector = λ k i. ground (arith, sound.writes l, sound.present.1);
  sound = record {
    present = (sound.present.0, ground (arith, sound.present.1));
    reads = λ k. ground (arith, sound.reads k);
    writes = λ k. ground (arith, sound.writes k);
    bytes = λ k i. ground (arith, sound.writes l, sound.present.1, sound.bytes k i, b i);
  };
}

if_Wrote :
    {d : Drive} {l : ℕ} {b : Bytes} {t : Bool} (x y : Machine)
    → t ≡ false
    → Wrote d y.drive l b
    → Wrote d (if t then x else y).drive l b
if_Wrote {d} {l} {b} x y e w =
    subst (λ (t : Bool). Wrote d (if t then x else y).drive l b) (sym e) w

set_fat_entry-Wrote :
    (fs : SimpleFileSystem) (cluster value : ℕ) (m : Machine)
    → IsSound m.drive
    → let b = m.drive.sector (fat_sector fs cluster) in
      let o = fat_offset cluster in
      Wrote m.drive
        (set_fat_entry fs cluster value m).drive
        (fat_sector fs cluster)
        (write_u32 b o (read_u32 b o / 2 ^ 28 * 2 ^ 28 + value % 2 ^ 28))
unfolding set_fat_entry
set_fat_entry-Wrote fs cluster value m sound =
    let l = fat_sector fs cluster in
    let o = fat_offset cluster in
    let old = m.drive.sector l in
    let port : not (has_port m) ≡ false = ground (arith, sound.present.1) in
    let m' = read_sector l m in
    let word = bit_or (bit_and (read_u32 m'.buffer o) 0xF0000000) (bit_and value entry_mask) in
    let new = write_u32 m'.buffer o word in
    let read : m'.buffer ≡ old = read_sector-buffer l m m.drive sound refl in
    let word_is : word ≡ read_u32 old o / 2 ^ 28 * 2 ^ 28 + value % 2 ^ 28 =
      ap (λ (b : Bytes). bit_or (bit_and (read_u32 b o) 0xF0000000) (bit_and value entry_mask)) read
      ∙ new_word (read_u32 old o) value (read_u32-lt old o (sound.bytes l)) in
    let new_is : new ≡ write_u32 old o (read_u32 old o / 2 ^ 28 * 2 ^ 28 + value % 2 ^ 28) =
      ap₂ (λ (b : Bytes) (v : ℕ). write_u32 b o v) read word_is in
    let drive : m'.drive ≡ m.drive = drive-read_sector l m in
    let fine : IsBytes new =
      λ x. write_u32-lt m'.buffer o word x (subst IsBytes (sym read) (sound.bytes l)) in
    let w =
      write_sector-Wrote l (record m' { buffer = new }) (subst IsSound (sym drive) sound) fine in
    let stored = store_buffer-read_sector l m new (sound.reads l) in
    if_Wrote m _ port (
      subst
        (λ (n : Machine).
          Wrote m.drive (write_sector l n).drive l
            (write_u32 old o (read_u32 old o / 2 ^ 28 * 2 ^ 28 + value % 2 ^ 28)))
        (sym stored)
        (subst
          (λ (b : Bytes). Wrote m.drive (write_sector l (record m' { buffer = new })).drive l b)
          new_is
          (subst (λ (d : Drive). Wrote d (write_sector l (record m' { buffer = new })).drive l new)
            drive w)))

-- Two entries in one sector of the FAT stand apart.
apart :
    (lba c k : ℕ)
    → c < 2 ^ 32
    → k < 2 ^ 32
    → c ≢ k
    → u64 (lba + c * 4 / 512) ≡ u64 (lba + k * 4 / 512)
    → (fat_offset c + 4 ≤ fat_offset k) ⊎ (fat_offset k + 4 ≤ fat_offset c)
apart lba c k hc hk other same = elim (dec_lt c k) [
  | yes below ↦ inl (omega arith)
  | no above ↦ inr (omega arith)
]

entry_ext :
    (fs : SimpleFileSystem) (d d' : Drive) (k : ℕ)
    → ((x : ℕ)
        → fat_offset k ≤ x
        → x < fat_offset k + 4
        → d'.sector (fat_sector fs k) x ≡ d.sector (fat_sector fs k) x)
    → entry fs d' k ≡ entry fs d k
unfolding entry
entry_ext fs d d' k h = ap (λ (n : ℕ). n % 2 ^ 28) (read_u32_ext _ _ (fat_offset k) h)

Wrote-outside :
    (d d' : Drive) (l k i o v : ℕ)
    → Wrote d d' l (write_u32 (d.sector l) o v)
    → ((l == k) && in_range o 4 i) ≡ false
    → d'.sector k i ≡ d.sector k i
Wrote-outside d d' l k i o v w away = elim (Bool-cases (l == k)) [
  | inr other ↦ w.sector k i ∙ if-eq_false _ other
  | inl same ↦
      w.sector k i
      ∙ (if-eq_true _ same
          ∙ (write_u32_outside (d.sector l) o v i (ground arith)
              ∙ ap (λ (n : ℕ). d.sector n i) (==→≡ l k same)))
]

Wrote-entry :
    (fs : SimpleFileSystem) (d d' : Drive) (c k v : ℕ)
    → c < 2 ^ 32
    → k < 2 ^ 32
    → v < 2 ^ 32
    → Wrote d d' (fat_sector fs c) (write_u32 (d.sector (fat_sector fs c)) (fat_offset c) v)
    → entry fs d' k ≡ (if c == k then v % 2 ^ 28 else entry fs d k)
unfolding entry
Wrote-entry fs d d' c k v hc hk hv w = elim (Bool-cases (c == k)) [
  | inl same ↦
      let b = d.sector (fat_sector fs c) in
      rw same (
        subst (λ (n : ℕ). entry fs d' n ≡ v % 2 ^ 28) (==→≡ c k same)
          (ap (λ (n : ℕ). n % 2 ^ 28)
            (read_u32_ext (d'.sector (fat_sector fs c)) (write_u32 b (fat_offset c) v)
                (fat_offset c) (λ x lo hi. ground (arith, w.sector (fat_sector fs c) x))
              ∙ read_u32-write_u32 b (fat_offset c) v hv)))
  | inr other ↦ rw other (
      entry_ext fs d d' k λ x lo hi.
        let away : ((fat_sector fs c == fat_sector fs k) && in_range (fat_offset c) 4 x) ≡ false =
          elim (Bool-cases (fat_sector fs c == fat_sector fs k)) [
            | inr elsewhere ↦ ground (arith, elsewhere)
            | inl here ↦
                let far =
                  apart (get_fat_lba fs) c k hc hk (==→≢ c k other)
                    (==→≡ (fat_sector fs c) (fat_sector fs k) here) in
                ground arith
          ] in
        Wrote-outside d d' (fat_sector fs c) (fat_sector fs k) x (fat_offset c) v w away)
]

-- On a sound drive `set_fat_entry` gives the entry of the cluster the lower 28 bits of the value; the
-- entry of no other cluster changes, nor does a byte of the disk outside those four; and the drive
-- stays sound.
pub set_fat_entry_lem :
    (fs : SimpleFileSystem) (cluster value k l i : ℕ) (m : Machine)
    → IsSound m.drive
    → cluster < 2 ^ 32
    → k < 2 ^ 32
    → let d' = (set_fat_entry fs cluster value m).drive in
      IsSound d'
      × (entry fs d' k ≡ (if cluster == k then value % 2 ^ 28 else entry fs m.drive k))
      × (d'.sector l i ≡ (
          if (fat_sector fs cluster == l) && in_range (fat_offset cluster) 4 i
          then d'.sector l i
          else m.drive.sector l i))
set_fat_entry_lem fs cluster value k l i m sound hc hk =
    let d = m.drive in
    let b = d.sector (fat_sector fs cluster) in
    let o = fat_offset cluster in
    let old = read_u32 b o in
    let v = old / 2 ^ 28 * 2 ^ 28 + value % 2 ^ 28 in
    let hv : v < 2 ^ 32 = omega (arith, read_u32-lt b o (sound.bytes (fat_sector fs cluster))) in
    let w = set_fat_entry-Wrote fs cluster value m sound in
    let low : v % 2 ^ 28 ≡ value % 2 ^ 28 = omega arith in
    let d' = (set_fat_entry fs cluster value m).drive in
    (
      w.sound,
      Wrote-entry fs d d' cluster k v hc hk hv w
          ∙ ap (λ (n : ℕ). if cluster == k then n else entry fs d k) low,
      elim (Bool-cases ((fat_sector fs cluster == l) && in_range o 4 i)) [
        | inl there ↦ sym (if-eq_true _ there)
        | inr not_there ↦
            Wrote-outside d d' (fat_sector fs cluster) l i o v w not_there
            ∙ sym (if-eq_false _ not_there)
      ],
    )
