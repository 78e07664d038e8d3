-- ===== src/Exec/Segments.antt =====
-- kernel/src/boot/exec.rs: the loop of `load_elf` that reads the segments.
use forward_os_kernel_base.Base.{
  ℕ, zero, suc, ◌+◌, ◌-◌, ◌*◌, ◌^◌, ◌≤◌, ◌<◌, ◌≡◌, refl, sym, ap, ap₂, subst, ◌∙◌, arith,
}
use forward_os_kernel_base.Base.{
  Bool, true, false, ◌&&◌, ltb, ◌==◌, if◌then◌else◌, in_range, Bool-cases, if-eq_false, if-eq_true,
  inl, inr, ==→≡, ==→≢, Bytes, u64, read_u32, read_u64,
}
use forward_os_kernel_base.Base.Memory.{read_u32_ext}
use forward_os_kernel_base.Exec.{Calls, Elf64Phdr, phdr_at, relocate, load_segments}

-- The memory at `x` is in segment `p` of the file.
abbrev pub covers : ℕ → ℕ → Elf64Phdr → ℕ → Bool
covers base_addr min_vaddr p x =
    (p.p_type == 1) && in_range (relocate base_addr min_vaddr p.p_vaddr) p.p_filesz x

-- The file is open in a state that is `Open`. A read behind a seek, to a buffer that is not null and
-- of bytes that the file has, brings the bytes of the file from there on, changes no other memory, and
-- leaves the file open.
pub record IsFile {S : Type 0} (c : Calls S) (fd : ℕ) (content : Bytes) (size : ℕ)
    (Open : S → Type 0) : Type 0 where
  pub loads :
      (s : S) (offset dest len x : ℕ)
      → Open s
      → 0 < dest
      → 0 < len
      → offset + len ≤ size
      → c.mem (c.sys_read_file fd dest len (c.sys_seek fd offset s)).1 x
        ≡ (if in_range dest len x then content (offset + (x - dest)) else c.mem s x)
  pub stays :
      (s : S) (offset dest len : ℕ)
      → Open s
      → 0 < dest
      → 0 < len
      → offset + len ≤ size
      → Open (c.sys_read_file fd dest len (c.sys_seek fd offset s)).1

-- The headers from number `i` on stand in the memory, where no segment is loaded, and the file has
-- the bytes of each segment.
pub record IsLoadable (mem : Bytes) (h : ℕ → Elf64Phdr)
    (phdr_mem phdr_size base_addr min_vaddr i n size : ℕ) : Type 0 where
  pub headers : (j : ℕ) → i ≤ j → j < i + n → phdr_at mem (u64 (phdr_mem + j * phdr_size)) ≡ h j
  pub apart :
      (j k x : ℕ)
      → i ≤ j
      → j < i + n
      → i ≤ k
      → k < i + n
      → in_range (u64 (phdr_mem + k * phdr_size)) 56 x ≡ true
      → covers base_addr min_vaddr (h j) x ≡ false
  pub placed :
      (j : ℕ)
      → i ≤ j
      → j < i + n
      → (h j).p_type ≡ 1
      → 0 < relocate base_addr min_vaddr (h j).p_vaddr
  pub fits : (j : ℕ) → i ≤ j → j < i + n → (h j).p_type ≡ 1 → (h j).p_offset + (h j).p_filesz ≤ size

pub phdr_at_ext :
    (m m' : Bytes) (a : ℕ)
    → ((x : ℕ) → in_range a 56 x ≡ true → m' x ≡ m x)
    → phdr_at m' a ≡ phdr_at m a
phdr_at_ext m m' a h =
    let word : (b : ℕ) → a ≤ b → b + 4 ≤ a + 56 → read_u32 m' b ≡ read_u32 m b =
      λ b lo hi. read_u32_ext m' m b (λ x from to. h x (ground arith)) in
    let double : (b : ℕ) → a ≤ b → b + 8 ≤ a + 56 → read_u64 m' b ≡ read_u64 m b = λ b lo hi.
      ap₂ (λ (x y : ℕ). x + 2 ^ 32 * y) (word b lo (omega arith))
        (word (b + 4) (omega arith) (omega arith)) in
    λ i. record {
      p_type = word a (omega arith) (omega arith) i;
      p_offset = double (a + 8) (omega arith) (omega arith) i;
      p_vaddr = double (a + 16) (omega arith) (omega arith) i;
      p_filesz = double (a + 32) (omega arith) (omega arith) i;
      p_memsz = double (a + 40) (omega arith) (omega arith) i;
    }

-- After the loop the memory holds each segment where no other one is, and outside of them what it
-- held before.
pub record Loads (mem after content : Bytes) (h : ℕ → Elf64Phdr) (base_addr min_vaddr i n : ℕ)
    : Type 0 where
  pub placed :
      (j x : ℕ)
      → i ≤ j
      → j < i + n
      → covers base_addr min_vaddr (h j) x ≡ true
      → ((k : ℕ)
          → i ≤ k
          → k < i + n
          → (k == j) ≡ false
          → covers base_addr min_vaddr (h k) x ≡ false)
      → after x ≡ content ((h j).p_offset + (x - relocate base_addr min_vaddr (h j).p_vaddr))
  pub kept :
      (x : ℕ)
      → ((k : ℕ) → i ≤ k → k < i + n → covers base_addr min_vaddr (h k) x ≡ false)
      → after x ≡ mem x

module _ {S : Type 0} (c : Calls S) (fd : ℕ) (content : Bytes) (size : ℕ) (Open : S → Type 0)
    (file : IsFile c fd content size Open) (h : ℕ → Elf64Phdr)
    (phdr_mem phdr_size base_addr min_vaddr : ℕ) where
  -- The state behind one turn, for a header.
  abbrev turn : Elf64Phdr → S → S
  turn p s =
      let loaded =
        (c.sys_read_file fd (relocate base_addr min_vaddr p.p_vaddr) p.p_filesz
          (c.sys_seek fd p.p_offset s)).1 in
      if (p.p_type == 1) && ltb 0 p.p_filesz then loaded else s

  turn_lem :
      (p : Elf64Phdr) (s : S) (x : ℕ)
      → Open s
      → (p.p_type ≡ 1 → 0 < relocate base_addr min_vaddr p.p_vaddr)
      → (p.p_type ≡ 1 → p.p_offset + p.p_filesz ≤ size)
      → c.mem (turn p s) x ≡ (
          if covers base_addr min_vaddr p x
          then content (p.p_offset + (x - relocate base_addr min_vaddr p.p_vaddr))
          else c.mem s x)
  turn_lem p s x ready to fits = elim (Bool-cases (p.p_type == 1)) [
    | inr other ↦ rw (other) refl
    | inl load ↦ elim (Bool-cases (ltb 0 p.p_filesz)) [
      | inl some_bytes ↦
          rw (load, some_bytes)
            (file.loads s p.p_offset (relocate base_addr min_vaddr p.p_vaddr) p.p_filesz x ready
              (to (==→≡ _ _ load)) (ground (arith, some_bytes)) (fits (==→≡ _ _ load)))
      | inr nothing ↦
          let out : in_range (relocate base_addr min_vaddr p.p_vaddr) p.p_filesz x ≡ false =
            ground (arith, nothing) in
          rw (load, nothing, out) refl
    ]
  ]

  turn-Open :
      (p : Elf64Phdr) (s : S)
      → Open s
      → (p.p_type ≡ 1 → 0 < relocate base_addr min_vaddr p.p_vaddr)
      → (p.p_type ≡ 1 → p.p_offset + p.p_filesz ≤ size)
      → Open (turn p s)
  turn-Open p s ready to fits = elim (Bool-cases (p.p_type == 1)) [
    | inr other ↦ rw (other) ready
    | inl load ↦ elim (Bool-cases (ltb 0 p.p_filesz)) [
      | inr nothing ↦ rw (load, nothing) ready
      | inl some_bytes ↦
          rw (load, some_bytes)
            (file.stays s p.p_offset (relocate base_addr min_vaddr p.p_vaddr) p.p_filesz ready
              (to (==→≡ _ _ load)) (ground (arith, some_bytes)) (fits (==→≡ _ _ load)))
    ]
  ]

  turn-IsLoadable :
      (i n : ℕ) (s : S)
      → Open s
      → IsLoadable (c.mem s) h phdr_mem phdr_size base_addr min_vaddr i (suc n) size
      → IsLoadable (c.mem (turn (h i) s)) h phdr_mem phdr_size base_addr min_vaddr (suc i) n size
  turn-IsLoadable i n s ready l = record {
    headers = λ j lo hi.
        phdr_at_ext (c.mem s) (c.mem (turn (h i) s)) (u64 (phdr_mem + j * phdr_size)) (λ x inside.
          turn_lem (h i) s x ready (l.placed i (omega arith) (omega arith))
            (l.fits i (omega arith) (omega arith))
          ∙ if-eq_false _
              (l.apart i j x (omega arith) (omega arith) (omega arith) (omega arith) inside))
        ∙ l.headers j (omega arith) (omega arith);
    apart = λ j k x a b d e. l.apart j k x (omega arith) (omega arith) (omega arith) (omega arith);
    placed = λ j a b. l.placed j (omega arith) (omega arith);
    fits = λ j a b. l.fits j (omega arith) (omega arith);
  }

  Loads-suc :
      (i n : ℕ) (s : S) (after : Bytes)
      → Open s
      → ((h i).p_type ≡ 1 → 0 < relocate base_addr min_vaddr (h i).p_vaddr)
      → ((h i).p_type ≡ 1 → (h i).p_offset + (h i).p_filesz ≤ size)
      → Loads (c.mem (turn (h i) s)) after content h base_addr min_vaddr (suc i) n
      → Loads (c.mem s) after content h base_addr min_vaddr i (suc n)
  Loads-suc i n s after ready to fits rest = record {
    placed = λ j x lo hi here others. elim (Bool-cases (i == j)) [
      | inl same ↦
          let e : i ≡ j = ==→≡ i j same in
          subst
            (λ (k : ℕ).
              after x ≡ content ((h k).p_offset + (x - relocate base_addr min_vaddr (h k).p_vaddr)))
            e
            (rest.kept x (λ k a b. others k (omega arith) (omega arith) (ground (arith, e)))
              ∙ turn_lem (h i) s x ready to fits
              ∙ if-eq_true _ (ap (λ (k : ℕ). covers base_addr min_vaddr (h k) x) e ∙ here))
      | inr other ↦
          let apart = ==→≢ i j other in
          rest.placed j x (omega (arith, apart)) (omega arith) here
            (λ k a b d. others k (omega arith) (omega arith) d)
    ];
    kept = λ x outside.
        rest.kept x (λ k a b. outside k (omega arith) (omega arith))
        ∙ turn_lem (h i) s x ready to fits
        ∙ if-eq_false _ (outside i (omega arith) (omega arith));
  }

  -- Where the headers stand in memory that no segment is loaded to, and the file holds all that they
  -- promise, the loop loads every segment to its relocated address: a byte of memory that is in one
  -- segment only holds the file's byte, and one in no segment is as before.
  pub load_segments_lem :
      (i n : ℕ) (s : S)
      → Open s
      → IsLoadable (c.mem s) h phdr_mem phdr_size base_addr min_vaddr i n size
      → Loads
          (c.mem s)
          (c.mem (load_segments c fd phdr_mem phdr_size base_addr min_vaddr i n s))
          content
          h
          base_addr
          min_vaddr
          i
          n
  unfolding load_segments
  load_segments_lem i zero s ready l = record {
    placed = λ j x lo hi. absurd (omega arith);
    kept = λ x outside. refl;
  }
  load_segments_lem i (suc n) s ready l =
      let now : phdr_at (c.mem s) (u64 (phdr_mem + i * phdr_size)) ≡ h i =
        l.headers i (omega arith) (omega arith) in
      Loads-suc i n s _ ready (l.placed i (omega arith) (omega arith))
        (l.fits i (omega arith) (omega arith))
        (subst
          (λ (p : Elf64Phdr).
            Loads (c.mem (turn (h i) s))
              (c.mem
                (load_segments c fd phdr_mem phdr_size base_addr min_vaddr (suc i) n (turn p s)))
              content h base_addr min_vaddr (suc i) n)
          (sym now)
          (load_segments_lem (suc i) n (turn (h i) s)
            (turn-Open (h i) s ready (l.placed i (omega arith) (omega arith))
              (l.fits i (omega arith) (omega arith)))
            (turn-IsLoadable i n s ready l)))
