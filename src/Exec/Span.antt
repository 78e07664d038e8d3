-- ===== src/Exec/Span.antt =====
-- Where the loader puts the segments of a program.
use forward_os_kernel_base.Base.{
  ℕ, zero, suc, ◌+◌, ◌-◌, ◌^◌, ◌≤◌, ◌<◌, ◌≡◌, sym, ap, subst, ◌∙◌, arith,
}
use forward_os_kernel_base.Base.{
  ◌&&◌, ltb, ◌==◌, if◌then◌else◌, Bool-cases, inl, inr, ==→≡, ==→≢, u64,
}
use forward_os_kernel_base.Exec.{Elf64Phdr, find_span, relocate}

-- The span of the headers covers what the loop started with.
find_span-grows :
    (phdr : ℕ → Elf64Phdr) (i n lo hi : ℕ)
    → ((find_span phdr i n lo hi).0 ≤ lo) × (hi ≤ (find_span phdr i n lo hi).1)
unfolding find_span
find_span-grows phdr i zero lo hi = (omega arith, omega arith)
find_span-grows phdr i (suc n) lo hi =
    let p = phdr i in
    let end = u64 (p.p_vaddr + p.p_memsz) in
    let loads = p.p_type == 1 in
    let lo' = if loads && ltb p.p_vaddr lo then p.p_vaddr else lo in
    let hi' = if loads && ltb hi end then end else hi in
    let (below, above) = find_span-grows phdr (suc i) n lo' hi' in
    let down : lo' ≤ lo = ground arith in
    let up : hi ≤ hi' = ground arith in (omega (arith, below, down), omega (arith, above, up))

first_in :
    (p : Elf64Phdr) (lo hi : ℕ)
    → p.p_type ≡ 1
    → p.p_vaddr + p.p_memsz < 2 ^ 64
    → let loads = p.p_type == 1 in
      let end = u64 (p.p_vaddr + p.p_memsz) in
      ((if loads && ltb p.p_vaddr lo then p.p_vaddr else lo) ≤ p.p_vaddr)
      × (p.p_vaddr + p.p_memsz ≤ (if loads && ltb hi end then end else hi))
first_in p lo hi load fits = (ground (arith, load), ground (arith, load, fits))

pub find_span-covers :
    (phdr : ℕ → Elf64Phdr) (i n lo hi j : ℕ)
    → i ≤ j
    → j < i + n
    → (phdr j).p_type ≡ 1
    → (phdr j).p_vaddr + (phdr j).p_memsz < 2 ^ 64
    → ((find_span phdr i n lo hi).0 ≤ (phdr j).p_vaddr)
      × ((phdr j).p_vaddr + (phdr j).p_memsz ≤ (find_span phdr i n lo hi).1)
unfolding find_span
find_span-covers phdr i zero lo hi j from to load fits = absurd (omega arith)
find_span-covers phdr i (suc n) lo hi j from to load fits =
    let p = phdr i in
    let end = u64 (p.p_vaddr + p.p_memsz) in
    let loads = p.p_type == 1 in
    let lo' = if loads && ltb p.p_vaddr lo then p.p_vaddr else lo in
    let hi' = if loads && ltb hi end then end else hi in
    elim (Bool-cases (i == j)) [
      | inr later ↦
          find_span-covers phdr (suc i) n lo' hi' j (omega (arith, ==→≢ i j later)) (omega arith)
            load fits
      | inl here ↦
          let e : i ≡ j = ==→≡ i j here in
          let (below, above) = find_span-grows phdr (suc i) n lo' hi' in
          let (low, high) =
            first_in p lo hi (ap (λ k. (phdr k).p_type) e ∙ load)
              (subst (λ k. (phdr k).p_vaddr + (phdr k).p_memsz < 2 ^ 64) (sym e) fits) in
          let v : p.p_vaddr ≡ (phdr j).p_vaddr = ap (λ k. (phdr k).p_vaddr) e in
          let w : p.p_memsz ≡ (phdr j).p_memsz = ap (λ k. (phdr k).p_memsz) e in
          (omega (arith, below, low, v), omega (arith, above, high, v, w))
    ]

-- What the loop finds in all the headers.
abbrev pub lowest : (ℕ → Elf64Phdr) → ℕ → ℕ
lowest phdr n = (find_span phdr 0 n (2 ^ 64 - 1) 0).0

abbrev pub highest : (ℕ → Elf64Phdr) → ℕ → ℕ
highest phdr n = (find_span phdr 0 n (2 ^ 64 - 1) 0).1

-- Each segment is put into the region that was mapped, at its distance from the lowest address, and
-- what is read of it from the file stays in that region; for a region that does not leave 64 bits,
-- and a segment that does not and is no longer in the file than in memory.
pub segment_fits :
    (phdr : ℕ → Elf64Phdr) (n base j : ℕ)
    → j < n
    → (phdr j).p_type ≡ 1
    → (phdr j).p_vaddr + (phdr j).p_memsz < 2 ^ 64
    → (phdr j).p_filesz ≤ (phdr j).p_memsz
    → base + (highest phdr n - lowest phdr n) < 2 ^ 64
    → (relocate base (lowest phdr n) (phdr j).p_vaddr ≡ base + ((phdr j).p_vaddr - lowest phdr n))
      × (relocate base (lowest phdr n) (phdr j).p_vaddr + (phdr j).p_filesz
          ≤ base + (highest phdr n - lowest phdr n))
segment_fits phdr n base j below load fits short room =
    let (lo_is, hi_is) =
      find_span-covers phdr 0 n (2 ^ 64 - 1) 0 j (omega arith) (omega arith) load fits in
    (omega (arith, lo_is, hi_is), omega (arith, lo_is, hi_is))
