-- ===== src/Paging/Tables.antt =====
-- The entries of the tables, and what writing a table leaves in memory.
use forward_os_kernel_base.Base.{
  ℕ, zero, suc, ◌+◌, ◌-◌, ◌*◌, ◌/◌, ◌%◌, ◌^◌, ◌≤◌, ◌<◌, ◌≡◌, ◌≢◌, refl, ap, ap₂, ◌∙◌, arith,
}
use forward_os_kernel_base.Base.{
  false, ◌==◌, if-eq_false, in_range, bit_and, bit_or, Bool-cases, inl, inr, ==→≡, ==→≢,
}
use forward_os_kernel_base.Base.Bits.{bit_and_mask, bit_and_shifted, bit_or_fields, bit_or_low}
use Prim.Native.Nat.{max}
use forward_os_kernel_base.Paging.{
  Words, clear, set_entry, table_entry, huge_entry, mask, fill_directory,
}

pub bit_and-mask : (a : ℕ) → a < 2 ^ 52 → a % 4096 ≡ 0 → bit_and a mask ≡ a
bit_and-mask a small whole =
    omega (arith, bit_and_shifted 12 a (2 ^ 40 - 1), bit_and_mask 40 (a / 2 ^ 12))

-- Bits 0, 1 and 2 of a multiple of 8.
or_1 : (q : ℕ) → bit_or (q * 8) 1 ≡ q * 8 + 1
or_1 q = bit_or_fields 3 q 1 (omega arith)

or_step : (a b x y : ℕ) → a / 2 ≡ x → b / 2 ≡ y → b % 2 ≡ 0 → bit_or a b ≡ bit_or x y * 2 + a % 2
or_step a b x y ax bx even =
    bit_or_low a b ∙ ap₂ (λ u v. bit_or u v * 2 + max (a % 2) (b % 2)) ax bx ∙ omega (arith, even)

or_2 : (q : ℕ) → bit_or (q * 8 + 1) 2 ≡ q * 8 + 3
or_2 q =
    or_step (q * 8 + 1) 2 (q * 4) 1 (omega arith) refl refl
    ∙ ap (λ x. x * 2 + (q * 8 + 1) % 2) (bit_or_fields 2 q 1 (omega arith))
    ∙ omega arith

or_4 : (q : ℕ) → bit_or (q * 8 + 3) 4 ≡ q * 8 + 7
or_4 q =
    or_step (q * 8 + 3) 4 (q * 4 + 1) 2 (omega arith) refl refl
    ∙ ap (λ x. x * 2 + (q * 8 + 3) % 2)
        (or_step (q * 4 + 1) 2 (q * 2) 1 (omega arith) refl refl
          ∙ ap (λ x. x * 2 + (q * 4 + 1) % 2) (bit_or_fields 1 q 1 (omega arith)))
    ∙ omega arith

pub table_entry_lem : (p : ℕ) → p < 2 ^ 40 → table_entry (p * 4096) ≡ p * 4096 + 7
table_entry_lem p small =
    ap (λ x. bit_or (bit_or (bit_or x 1) 2) 4)
      (bit_and-mask (p * 4096) (omega arith) (omega arith) ∙ whole)
    ∙ ap (λ x. bit_or (bit_or x 2) 4) (or_1 (p * 512))
    ∙ ap (λ x. bit_or x 4) (or_2 (p * 512))
    ∙ or_4 (p * 512)
    ∙ omega arith
  where
    whole : p * 4096 ≡ p * 512 * 8
    whole = omega arith

pub huge_entry_lem : (j i : ℕ) → j < 64 → i < 512 → huge_entry j i ≡ j * 2 ^ 30 + i * 2 ^ 21 + 0x9F
huge_entry_lem j i jh ih =
    let addr : ℕ = j * 1024 * 1024 * 1024 + i * 2 * 1024 * 1024 in
    let whole : addr ≡ (j * 512 + i) * 2 ^ 21 = omega arith in
    ap (λ x. bit_or x 0x9F) (bit_and-mask addr (omega arith) (omega arith) ∙ whole)
    ∙ bit_or_fields 21 (j * 512 + i) 0x9F (omega arith)
    ∙ omega arith

pub set_entry-at :
    (table i v a : ℕ) (mem : Words) → a ≡ table + i * 8 → set_entry table i v mem a ≡ v
unfolding set_entry
set_entry-at table i v a mem e = ground (arith, e)

pub set_entry-other :
    (table i v a : ℕ) (mem : Words) → a ≢ table + i * 8 → set_entry table i v mem a ≡ mem a
unfolding set_entry
set_entry-other table i v a mem ne = ground (arith, ne)

pub clear-other : (p a : ℕ) (mem : Words) → in_range p 4096 a ≡ false → clear p mem a ≡ mem a
unfolding clear
clear-other p a mem out = if-eq_false _ out

-- The words outside a directory that was filled, and its entries.
pub fill_directory-out :
    (pd j i n a : ℕ) (mem : Words)
    → ((k : ℕ) → i ≤ k → k < i + n → a ≢ pd + k * 8)
    → fill_directory pd j i n mem a ≡ mem a
unfolding fill_directory
fill_directory-out pd j i zero a mem out = refl
fill_directory-out pd j i (suc n) a mem out =
    fill_directory-out pd j (suc i) n a (set_entry pd i (huge_entry j i) mem)
      (λ k from to. out k (omega arith) (omega arith))
    ∙ set_entry-other pd i (huge_entry j i) a mem (out i (omega arith) (omega arith))

pub fill_directory-in :
    (pd j i n k : ℕ) (mem : Words)
    → i ≤ k
    → k < i + n
    → fill_directory pd j i n mem (pd + k * 8) ≡ huge_entry j k
unfolding fill_directory
fill_directory-in pd j i zero k mem from to = absurd (omega arith)
fill_directory-in pd j i (suc n) k mem from to = elim (Bool-cases (i == k)) [
  | inl same ↦
      let e : i ≡ k = ==→≡ i k same in
      fill_directory-out pd j (suc i) n (pd + k * 8) (set_entry pd i (huge_entry j i) mem)
        (λ k' from' to' meets. omega arith)
      ∙ set_entry-at pd i (huge_entry j i) (pd + k * 8) mem (omega arith)
      ∙ ap (huge_entry j) e
  | inr other ↦
      fill_directory-in pd j (suc i) n k (set_entry pd i (huge_entry j i) mem)
        (omega (arith, ==→≢ i k other)) (omega arith)
]
