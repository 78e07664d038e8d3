-- ===== src/Exec/Table.antt =====
-- kernel/src/boot/exec.rs: the table of program headers, at two places in memory.
use forward_os_kernel_base.Base.{
  ℕ, zero, suc, ◌+◌, ◌*◌, ◌^◌, ◌≤◌, ◌<◌, ◌≡◌, refl, ap, ap₂, ◌∙◌, arith,
}
use forward_os_kernel_base.Base.{◌&&◌, ltb, ◌==◌, if◌then◌else◌, Bytes, u64, read_u32, read_u64}
use forward_os_kernel_base.Exec.{Elf64Phdr, phdr_at, find_span}

-- The same bytes at two places are the same header.
pub phdr_at_shift :
    (m n : Bytes) (a b : ℕ) → ((x : ℕ) → x < 56 → m (a + x) ≡ n (b + x)) → phdr_at m a ≡ phdr_at n b
phdr_at_shift m n a b h =
    let word : (o : ℕ) → o + 4 ≤ 56 → read_u32 m (a + o) ≡ read_u32 n (b + o) =
      λ o fits. ground (arith, h o, h (o + 1), h (o + 2), h (o + 3)) in
    let double : (o : ℕ) → o + 8 ≤ 56 → read_u64 m (a + o) ≡ read_u64 n (b + o) = λ o fits.
      let high : read_u32 m (a + o + 4) ≡ read_u32 n (b + o + 4) =
        ap (read_u32 m) (omega arith)
        ∙ word (o + 4) (omega arith)
        ∙ ap (read_u32 n) (omega arith) in
      ap₂ (λ (x y : ℕ). x + 2 ^ 32 * y) (word o (omega arith)) high in
    let first : read_u32 m a ≡ read_u32 n b =
      ap (read_u32 m) (omega arith) ∙ word 0 (omega arith) ∙ ap (read_u32 n) (omega arith) in
    λ i. record {
      p_type = first i;
      p_offset = double 8 (omega arith) i;
      p_vaddr = double 16 (omega arith) i;
      p_filesz = double 32 (omega arith) i;
      p_memsz = double 40 (omega arith) i;
    }

pub find_span_ext :
    (h h' : ℕ → Elf64Phdr) (i n lo hi : ℕ)
    → ((j : ℕ) → i ≤ j → j < i + n → h' j ≡ h j)
    → find_span h' i n lo hi ≡ find_span h i n lo hi
unfolding find_span
find_span_ext h h' i zero lo hi same = refl
find_span_ext h h' i (suc n) lo hi same =
    let e : h' i ≡ h i = same i (omega arith) (omega arith) in
    let next : Elf64Phdr → ℕ × ℕ = λ p.
      find_span h (suc i) n (if (p.p_type == 1) && ltb p.p_vaddr lo then p.p_vaddr else lo) (
        if (p.p_type == 1) && ltb hi (u64 (p.p_vaddr + p.p_memsz))
        then u64 (p.p_vaddr + p.p_memsz)
        else hi) in
    find_span_ext h h' (suc i) n _ _ (λ j a b. same j (omega arith) (omega arith)) ∙ ap next e
