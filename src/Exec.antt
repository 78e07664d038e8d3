-- ===== src/Exec.antt =====
-- kernel/src/boot/exec.rs: the loading of an ELF file. The system calls that it makes are the
-- interface `Calls`, which System.antt fills with the models of what handles them. Signed sums wrap,
-- as the sums of the addresses that they are cast from do.
pub mod Span
pub mod Segments
pub mod Table
pub mod Program
pub mod System
mod Tests
use forward_os_kernel_base.Base.{ℕ, zero, suc, ◌+◌, ◌-◌, ◌*◌, ◌/◌, ◌%◌, ◌^◌}
use forward_os_kernel_base.Base.{
  Bool, true, false, not, ◌&&◌, ◌||◌, ltb, ◌==◌, if◌then◌else◌, in_range, Option, none, some, List,
}
use forward_os_kernel_base.Base.{Bytes, read_u16, read_u32, read_u64, u64}

-- The calls that `load_elf` makes, on a state with a memory: `sys_open` (`none` for a negative
-- descriptor), `sys_seek`, `sys_read_file`, `sys_close` and `sys_mmap`.
pub record Calls (S : Type 0) : Type 0 where
  pub mem : S → Bytes
  pub set_mem : Bytes → S → S
  pub sys_open : List ℕ → S → Option ℕ × S
  pub sys_seek : ℕ → ℕ → S → S
  pub sys_read_file : ℕ → ℕ → ℕ → S → ℕ × S
  pub sys_close : ℕ → S → S
  pub sys_mmap : ℕ → S → ℕ × S

pub record LoadedElf : Type 0 where
  pub entry : ℕ
  pub base_addr : ℕ
  pub size : ℕ
  pub path : List ℕ

-- A program header in memory: the fields that the loader uses.
pub record Elf64Phdr : Type 0 where
  pub p_type : ℕ
  pub p_offset : ℕ
  pub p_vaddr : ℕ
  pub p_filesz : ℕ
  pub p_memsz : ℕ

abbrev pub phdr_at : Bytes → ℕ → Elf64Phdr
phdr_at m a = record {
  p_type = read_u32 m a;
  p_offset = read_u64 m (a + 8);
  p_vaddr = read_u64 m (a + 16);
  p_filesz = read_u64 m (a + 32);
  p_memsz = read_u64 m (a + 40);
}

-- The loop that finds the lowest and the highest address, over the headers from number `i` on.
unfoldable pub find_span : (ℕ → Elf64Phdr) → ℕ → ℕ → ℕ → ℕ → ℕ × ℕ
find_span phdr i zero min_vaddr max_vaddr = (min_vaddr, max_vaddr)
find_span phdr i (suc n) min_vaddr max_vaddr =
    let p = phdr i in
    let end = u64 (p.p_vaddr + p.p_memsz) in
    let loads = p.p_type == 1 in
    find_span phdr (suc i) n (if loads && ltb p.p_vaddr min_vaddr then p.p_vaddr else min_vaddr)
      (if loads && ltb max_vaddr end then end else max_vaddr)

-- `(vaddr as i64 + base_offset) as u64`
abbrev pub relocate : ℕ → ℕ → ℕ → ℕ
relocate base_addr min_vaddr vaddr = u64 (vaddr + base_addr + 2 ^ 64 - min_vaddr)

module _ {S : Type 0} (c : Calls S) where
  -- The loop that reads the segments; the headers are read again each time.
  unfoldable pub load_segments : ℕ → ℕ → ℕ → ℕ → ℕ → ℕ → ℕ → S → S
  load_segments fd phdr_mem phdr_size base_addr min_vaddr i zero s = s
  load_segments fd phdr_mem phdr_size base_addr min_vaddr i (suc n) s =
      let p = phdr_at (c.mem s) (u64 (phdr_mem + i * phdr_size)) in
      let loaded =
        (c.sys_read_file fd (relocate base_addr min_vaddr p.p_vaddr) p.p_filesz
          (c.sys_seek fd p.p_offset s)).1 in
      load_segments fd phdr_mem phdr_size base_addr min_vaddr (suc i) n
        (if (p.p_type == 1) && ltb 0 p.p_filesz then loaded else s)

  -- The magic number, and a type of 2 or 3.
  abbrev pub is_loadable : Bytes → ℕ → Bool
  is_loadable m header =
      (((m header == 0x7F) && (m (header + 1) == 0x45))
        && ((m (header + 2) == 0x4C) && (m (header + 3) == 0x46)))
      && ((read_u16 m (header + 16) == 2) || (read_u16 m (header + 16) == 3))

  -- From the program headers on; `header` is where the file's header stands.
  unfoldable pub load_program : List ℕ → ℕ → ℕ → S → Option LoadedElf × S
  unfolding find_span load_segments
  load_program path fd header s =
      let m = c.mem s in
      let phdr_count = read_u16 m (header + 56) in
      let phdr_size = read_u16 m (header + 54) in
      let total_phdr_size = phdr_count * phdr_size in
      let (phdr_mem, s₁) = c.sys_mmap ((total_phdr_size + 4095) / 4096) s in
      let s₂ =
        (c.sys_read_file fd phdr_mem total_phdr_size
          (c.sys_seek fd (read_u64 m (header + 32)) s₁)).1 in
      let (min_vaddr, max_vaddr) =
        find_span (λ i. phdr_at (c.mem s₂) (u64 (phdr_mem + i * phdr_size))) 0 phdr_count
          (2 ^ 64 - 1) 0 in
      let total_size = u64 (max_vaddr + 2 ^ 64 - min_vaddr) in
      let (base_addr, s₃) = c.sys_mmap (u64 (total_size + 4095) / 4096) s₂ in
      let s₄ = c.set_mem (λ a. if in_range base_addr total_size a then 0 else c.mem s₃ a) s₃ in
      let s₅ =
        c.sys_close fd (load_segments fd phdr_mem phdr_size base_addr min_vaddr 0 phdr_count s₄) in
      if min_vaddr == 2 ^ 64 - 1 then (none, c.sys_close fd s₂) else (
        some (record {
          entry = relocate base_addr min_vaddr (read_u64 m (header + 24));
          base_addr = base_addr;
          size = total_size;
          path = path;
        }),
        s₅,
      )

  unfoldable pub load_elf : List ℕ → ℕ → S → Option LoadedElf × S
  unfolding load_program
  load_elf path header s =
      let (fd, s₁) = c.sys_open path s in
      elim fd [
        | none ↦ (none, s₁)
        | some fd ↦
            let zeroed = c.set_mem (λ a. if in_range header 64 a then 0 else c.mem s₁ a) s₁ in
            let (count, s₂) = c.sys_read_file fd header 64 (c.sys_seek fd 0 zeroed) in
            if not (count == 64)
            then (none, c.sys_close fd s₂)
            else if not (is_loadable (c.mem s₂) header)
            then (none, c.sys_close fd s₂)
            else load_program path fd header s₂
      ]

  -- `entry` is what the program at an address leaves when it comes back. The result is whether the
  -- file was loaded: 0 or -1.
  unfoldable pub load_and_run_container : (ℕ → S → S) → List ℕ → ℕ → S → Bool × S
  unfolding load_elf
  load_and_run_container entry path header s =
      let (elf, s₁) = load_elf path header s in
      elim elf [ none ↦ (false, s₁) | some e ↦ (true, entry e.entry s₁) ]

  -- `app_main` has the type of a function that does not come back: the result is where the machine
  -- goes on, or `none` for -1.
  unfoldable pub load_and_run : List ℕ → ℕ → S → Option ℕ × S
  unfolding load_elf
  load_and_run path header s =
      let (elf, s₁) = load_elf path header s in
      elim elf [ none ↦ (none, s₁) | some e ↦ (some e.entry, s₁) ]
