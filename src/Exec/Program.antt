-- ===== src/Exec/Program.antt =====
-- kernel/src/boot/exec.rs: `load_elf` from the program headers on.
use forward_os_kernel_base.Base.{
  ℕ, suc, ◌+◌, ◌-◌, ◌*◌, ◌/◌, ◌^◌, ◌≤◌, ◌<◌, ◌≡◌, refl, sym, ap, ◌∙◌, arith,
}
use forward_os_kernel_base.Base.{
  true, false, ◌==◌, if◌then◌else◌, in_range, Bool-cases, if-eq_false, if-eq_true, inl, inr, Bytes,
  u64, read_u16, read_u64, List, Option, some,
}
use native.Mathlib.Nat.{mul-le-mul_right}
use forward_os_kernel_base.Exec.{
  Calls, LoadedElf, Elf64Phdr, phdr_at, find_span, relocate, load_segments, load_program,
}
use forward_os_kernel_base.Exec.Segments.{covers, IsFile, IsLoadable, load_segments_lem}
use forward_os_kernel_base.Exec.Span.{lowest, highest, find_span-covers, segment_fits}
use forward_os_kernel_base.Exec.Table.{phdr_at_shift, find_span_ext}

-- What the calls do to the memory where the file `fd`, of `size` bytes, is open; and that it stays so.
pub record IsSystem {S : Type 0} (c : Calls S) (fd : ℕ) (content : Bytes) (size : ℕ)
    (Open : S → Type 0) : Type 0 where
  pub file : IsFile c fd content size Open
  pub mapped : (n x : ℕ) (s : S) → c.mem (c.sys_mmap n s).1 x ≡ c.mem s x
  pub mapped-Open : (n : ℕ) (s : S) → Open s → Open (c.sys_mmap n s).1
  pub closed : (x : ℕ) (s : S) → c.mem (c.sys_close fd s) x ≡ c.mem s x
  pub stored : (m : Bytes) (x : ℕ) (s : S) → c.mem (c.set_mem m s) x ≡ m x
  pub stored-Open : (m : Bytes) (s : S) → Open s → Open (c.set_mem m s)

module _ {S : Type 0} (c : Calls S) (fd : ℕ) (content : Bytes) (size header : ℕ) (Open : S → Type 0)
    (s : S) where
  abbrev count : ℕ
  count = read_u16 (c.mem s) (header + 56)

  abbrev entry_size : ℕ
  entry_size = read_u16 (c.mem s) (header + 54)

  abbrev table_offset : ℕ
  table_offset = read_u64 (c.mem s) (header + 32)

  abbrev table : ℕ
  table = (c.sys_mmap ((count * entry_size + 4095) / 4096) s).0

  -- The headers as they are in the file.
  abbrev in_file : ℕ → Elf64Phdr
  in_file i = phdr_at content (table_offset + i * entry_size)

  abbrev with_table : S
  with_table =
      (c.sys_read_file fd table (count * entry_size)
        (c.sys_seek fd table_offset (c.sys_mmap ((count * entry_size + 4095) / 4096) s).1)).1

  abbrev span : ℕ
  span = u64 (highest in_file count + 2 ^ 64 - lowest in_file count)

  abbrev base : ℕ
  base = (c.sys_mmap (u64 (span + 4095) / 4096) with_table).0

  abbrev zeroed : S
  zeroed =
      let s₃ = (c.sys_mmap (u64 (span + 4095) / 4096) with_table).1 in
      c.set_mem (λ a. if in_range base span a then 0 else c.mem s₃ a) s₃

  -- A file with a program, and regions of memory for it and for its table of headers.
  pub record IsProgram : Type 0 where
    pub table_fits : table_offset + count * entry_size ≤ size
    pub table_room : table + count * entry_size ≤ 2 ^ 64
    pub entries : 56 ≤ entry_size
    pub opened : Open s
    pub regions : (0 < count) × (0 < table) × (0 < base)
    pub segments :
        (j : ℕ)
        → j < count
        → (in_file j).p_type ≡ 1
        → ((in_file j).p_vaddr + (in_file j).p_memsz < 2 ^ 64)
          × ((in_file j).p_filesz ≤ (in_file j).p_memsz)
          × ((in_file j).p_offset + (in_file j).p_filesz ≤ size)
    pub some_load : (lowest in_file count == 2 ^ 64 - 1) ≡ false
    pub room : base + (highest in_file count - lowest in_file count) < 2 ^ 64
    pub apart :
        (x : ℕ) → in_range table (count * entry_size) x ≡ true → in_range base span x ≡ false

  module _ (sys : IsSystem c fd content size Open) (p : IsProgram) where
    -- The table in a memory that agrees with the file's where the table stands.
    header_at :
        (mem : Bytes) (j : ℕ)
        → ((x : ℕ) → in_range table (count * entry_size) x ≡ true → mem x ≡ c.mem with_table x)
        → j < count
        → phdr_at mem (u64 (table + j * entry_size)) ≡ in_file j
    header_at mem j same lt =
        let inside : suc j * entry_size ≤ count * entry_size = mul-le-mul_right entry_size lt in
        let next : j * entry_size + entry_size ≤ count * entry_size = grind arith in
        let whole : u64 (table + j * entry_size) ≡ table + j * entry_size =
          omega (arith, p.table_room, p.entries) in
        ap (phdr_at mem) whole
        ∙ phdr_at_shift mem content (table + j * entry_size) (table_offset + j * entry_size)
            (λ x below.
              let there : in_range table (count * entry_size) (table + j * entry_size + x) ≡ true =
                ground (arith, next, p.entries) in
              let place : table_offset + (table + j * entry_size + x - table)
                  ≡ table_offset + j * entry_size + x =
                omega arith in
              same (table + j * entry_size + x) there
              ∙ sys.file.loads _ table_offset table (count * entry_size)
                  (table + j * entry_size + x) (sys.mapped-Open _ s p.opened) p.regions.1
                  (omega (arith, next, p.entries)) p.table_fits
              ∙ if-eq_true _ there
              ∙ ap content place)

    spans :
        find_span
          (λ i. phdr_at (c.mem with_table) (u64 (table + i * entry_size)))
          0
          count
          (2 ^ 64 - 1)
          0
        ≡ find_span in_file 0 count (2 ^ 64 - 1) 0
    spans =
        find_span_ext in_file (λ i. phdr_at (c.mem with_table) (u64 (table + i * entry_size))) 0
          count (2 ^ 64 - 1) 0
          (λ j a b. header_at (c.mem with_table) j (λ x inside. refl) (omega arith))

    zeroed_lem : (x : ℕ) → c.mem zeroed x ≡ (if in_range base span x then 0 else c.mem with_table x)
    zeroed_lem x = elim (Bool-cases (in_range base span x)) [
      | inl inside ↦ sys.stored _ x _ ∙ if-eq_true _ inside ∙ sym (if-eq_true _ inside)
      | inr outside ↦
          sys.stored _ x _ ∙ if-eq_false _ outside ∙ sys.mapped _ x _ ∙ sym (if-eq_false _ outside)
    ]

    -- A segment stays in the region for the program.
    in_region :
        (j x : ℕ)
        → j < count
        → covers base (lowest in_file count) (in_file j) x ≡ true
        → in_range base span x ≡ true
    in_region j x lt here =
        let load : (in_file j).p_type ≡ 1 = ground (arith, here) in
        let seg = p.segments j lt load in
        let (place, below) = segment_fits in_file count base j lt load seg.0 seg.1 p.room in
        let (lo_is, hi_is) =
          find_span-covers in_file 0 count (2 ^ 64 - 1) 0 j (omega arith) (omega arith) load
            seg.0 in
        let whole : span ≡ highest in_file count - lowest in_file count =
          omega (arith, p.room, lo_is, hi_is) in
        let there : in_range (relocate base (lowest in_file count) (in_file j).p_vaddr)
              (in_file j).p_filesz x
            ≡ true =
          ground (arith, here) in
        ground (arith, there, place, below, whole)

    apart_from :
        (j k x : ℕ)
        → j < count
        → k < count
        → in_range (u64 (table + k * entry_size)) 56 x ≡ true
        → covers base (lowest in_file count) (in_file j) x ≡ false
    apart_from j k x lj lk inside =
        let above : suc k * entry_size ≤ count * entry_size = mul-le-mul_right entry_size lk in
        let next : k * entry_size + entry_size ≤ count * entry_size = grind arith in
        let whole : u64 (table + k * entry_size) ≡ table + k * entry_size =
          omega (arith, p.table_room, p.entries) in
        let there : in_range table (count * entry_size) x ≡ true =
          ground (arith, inside, whole, next, p.entries) in
        elim (Bool-cases (covers base (lowest in_file count) (in_file j) x)) [
          | inr out ↦ out
          | inl here ↦ ground (arith, in_region j x lj here, p.apart x there)
        ]

    zeroed-Open : Open zeroed
    zeroed-Open =
        let first : 1 * entry_size ≤ count * entry_size = mul-le-mul_right entry_size p.regions.0 in
        sys.stored-Open _ _ (
          sys.mapped-Open _ with_table (
            sys.file.stays _ table_offset table (count * entry_size) (sys.mapped-Open _ s p.opened)
              p.regions.1 (omega (arith, first, p.entries)) p.table_fits))

    -- A segment does not begin at address 0.
    not_null :
        (j : ℕ)
        → j < count
        → (in_file j).p_type ≡ 1
        → 0 < relocate base (lowest in_file count) (in_file j).p_vaddr
    not_null j lt load =
        let seg = p.segments j lt load in
        let (place, below) = segment_fits in_file count base j lt load seg.0 seg.1 p.room in
        omega (arith, place, p.regions.2)

    zeroed-IsLoadable :
        IsLoadable (c.mem zeroed) in_file table entry_size base (lowest in_file count) 0 count size
    zeroed-IsLoadable = record {
      headers = λ j a b.
          header_at (c.mem zeroed) j (λ x inside. zeroed_lem x ∙ if-eq_false _ (p.apart x inside))
            (omega arith);
      apart = λ j k x a b d e inside. apart_from j k x (omega arith) (omega arith) inside;
      placed = λ j a b load. not_null j (omega arith) load;
      fits = λ j a b load. (p.segments j (omega arith) load).2;
    }

  -- The program has been loaded: where it begins, and what its region of the memory holds.
  pub record LoadsProgram (path : List ℕ) (o : Option LoadedElf × S) : Type 0 where
    pub elf : LoadedElf
    pub final : S
    pub returns : o ≡ (some elf, final)
    pub begin : elf.entry ≡ relocate base (lowest in_file count) (read_u64 (c.mem s) (header + 24))
    pub region : (elf.base_addr ≡ base) × (elf.size ≡ span) × (elf.path ≡ path)
    pub placed :
        (j x : ℕ)
        → j < count
        → covers base (lowest in_file count) (in_file j) x ≡ true
        → ((k : ℕ)
            → k < count
            → (k == j) ≡ false
            → covers base (lowest in_file count) (in_file k) x ≡ false)
        → c.mem final x
          ≡ content (
              (in_file j).p_offset + (x - relocate base (lowest in_file count) (in_file j).p_vaddr))
    pub zero :
        (x : ℕ)
        → in_range base span x ≡ true
        → ((k : ℕ) → k < count → covers base (lowest in_file count) (in_file k) x ≡ false)
        → c.mem final x ≡ 0

  -- For a file with a program whose segments do not wrap, are no longer in the file than in memory
  -- and are all in the file, and a region of memory apart from the table of headers:
  -- `load_program` loads it. A byte in one segment only holds the file's, a byte of the region in no
  -- segment holds 0, and the entry is moved as the segments are.
  pub load_program_lem :
      (path : List ℕ)
      → IsSystem c fd content size Open
      → IsProgram
      → LoadsProgram path (load_program c path fd header s)
  unfolding load_program
  load_program_lem path sys p =
      let lo = lowest in_file count in
      let loaded = load_segments c fd table entry_size base lo 0 count zeroed in
      let l =
        load_segments_lem c fd content size Open sys.file in_file table entry_size base lo 0 count
          zeroed (zeroed-Open sys p) (zeroed-IsLoadable sys p) in
      let elf : LoadedElf = record {
        entry = relocate base lo (read_u64 (c.mem s) (header + 24));
        base_addr = base;
        size = span;
        path = path;
      } in
      record {
        elf = elf;
        final = c.sys_close fd loaded;
        returns = rw (spans sys p, p.some_load, load_program) refl;
        begin = refl;
        region = (refl, refl, refl);
        placed = λ j x lt here others.
            sys.closed x loaded
            ∙ l.placed j x (omega arith) (omega arith) here (λ k a b d. others k (omega arith) d);
        zero = λ x inside outside.
            sys.closed x loaded
            ∙ l.kept x (λ k a b. outside k (omega arith))
            ∙ zeroed_lem sys p x
            ∙ if-eq_true _ inside;
      }
