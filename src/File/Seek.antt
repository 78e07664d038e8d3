-- ===== src/File/Seek.antt =====
-- kernel/src/boot/fd.rs: `sys_lseek`, `sys_seek` and `sys_fstat`. An `i64` is its bit pattern, below
-- 2^64; `none` is the result -1.
use forward_os_kernel_base.Base.{ℕ, ◌+◌, ◌-◌, ◌/◌, ◌%◌, ◌^◌, ◌≤◌, ◌<◌, arith, ◌≡◌, refl}
use forward_os_kernel_base.Base.{
  Bool, true, false, leb, ◌==◌, if◌then◌else◌, Option, none, some, Option-cases, Bool-cases, inl,
  inr,
}
use forward_os_kernel_base.Base.{
  Bytes, u64, set_byte, write_u32, write_u64, read_u32, read_u64, in_range,
}
use forward_os_kernel_base.Base.{◌∙◌}
use forward_os_kernel_base.Base.Memory.{read_u32-write_u32, read_u32_ext}
use forward_os_kernel_base.File.Table.{FileDescriptor, FdTable, get_fd, update_fd}

abbrev pub is_negative : ℕ → Bool
is_negative x = leb (2 ^ 63) x

-- The three origins; `none` for another `whence`.
unfoldable pub new_position : FileDescriptor → ℕ → ℕ → Option ℕ
new_position f offset whence =
    if whence == 0
    then some offset
    else if whence == 1
    then some (u64 (f.position + offset))
    else if whence == 2
    then some (u64 (f.file_size + offset))
    else none

unfoldable pub sys_lseek : FdTable → ℕ → ℕ → ℕ → Option ℕ × FdTable
unfolding new_position get_fd
sys_lseek t fd offset whence = elim (get_fd t fd) [
  | none ↦ (none, t)
  | some f ↦ elim (new_position f offset whence) [
    | none ↦ (none, t)
    | some p ↦
        if is_negative p then (none, t) else (some p, update_fd t fd (record f { position = p }))
  ]
]

-- The method `FileDescriptor::seek`.
unfoldable pub seek : FileDescriptor → ℕ → FileDescriptor
seek f pos = record f { position = pos }

-- The result is the position's bit pattern.
unfoldable pub sys_seek : FdTable → ℕ → ℕ → ℕ × FdTable
unfolding seek get_fd
sys_seek t fd pos = elim (get_fd t fd) [
  | none ↦ (2 ^ 64 - 1, t)
  | some f ↦ (pos, update_fd t fd (seek f pos))
]

-- The fields of `FileStat` at their offsets; the padding keeps what the memory held.
unfoldable pub write_stat : Bytes → ℕ → FileDescriptor → Bytes
write_stat mem at f =
    let a = write_u32 mem at f.file_size in
    let b = write_u32 a (at + 4) f.cluster in
    let c = write_u64 b (at + 8) f.position in set_byte c (at + 16) (if f.is_dir then 1 else 0)

unfoldable pub sys_fstat : FdTable → ℕ → ℕ → Bytes → Bool × Bytes
unfolding write_stat get_fd
sys_fstat t fd buf mem = elim (get_fd t fd) [
  | none ↦ (false, mem)
  | some f ↦ (true, write_stat mem buf f)
]

-- The origin of a valid `whence`.
abbrev origin : FileDescriptor → ℕ → ℕ
origin f whence = if whence == 0 then 0 else if whence == 1 then f.position else f.file_size

abbrev moved_to : FdTable → ℕ → FileDescriptor → ℕ → Option ℕ × FdTable
moved_to t fd f p = (some p, update_fd t fd (record f { position = p }))

new_position_lem :
    (f : FileDescriptor) (offset whence : ℕ)
    → whence ≤ 2
    → offset < 2 ^ 64
    → new_position f offset whence ≡ some (u64 (origin f whence + offset))
unfolding new_position
new_position_lem f offset whence valid ho = ground arith

lands :
    (t : FdTable) (fd : ℕ) (f : FileDescriptor) (base offset : ℕ)
    → base < 2 ^ 63
    → offset < 2 ^ 64
    → (is_negative offset ≡ false → base + offset < 2 ^ 63)
    → (if is_negative (u64 (base + offset))
        then (none, t)
        else moved_to t fd f (u64 (base + offset)))
      ≡ (let back = 2 ^ 64 - offset in
          if is_negative offset
          then if leb back base then moved_to t fd f (base - back) else (none, t)
          else moved_to t fd f (base + offset))
lands t fd f base offset hb ho small = elim (Bool-cases (is_negative offset)) [
  | inr forward ↦
      let e : u64 (base + offset) ≡ base + offset = ground (arith, small forward) in
      let p : is_negative (base + offset) ≡ false = ground (arith, small forward) in
      rw (e, forward, p)
  | inl backward ↦ elim (Bool-cases (leb (2 ^ 64 - offset) base)) [
    | inl inside ↦
        let e : u64 (base + offset) ≡ base - (2 ^ 64 - offset) = ground arith in
        let p : is_negative (base - (2 ^ 64 - offset)) ≡ false = ground arith in
        rw (e, backward, inside, p)
    | inr before ↦
        let p : is_negative (u64 (base + offset)) ≡ true = ground arith in rw (backward, before, p)
  ]
]

-- For an open descriptor and a valid `whence`, where the sum does not leave the range of `i64`:
-- `sys_lseek` moves to the origin plus the signed offset, and refuses with -1 and no change what
-- would lie before the file's begin.
sys_lseek_lem :
    (t : FdTable) (fd offset whence : ℕ) (f : FileDescriptor)
    → get_fd t fd ≡ some f
    → whence ≤ 2
    → f.position < 2 ^ 63
    → f.file_size < 2 ^ 32
    → offset < 2 ^ 64
    → (is_negative offset ≡ false → origin f whence + offset < 2 ^ 63)
    → sys_lseek t fd offset whence ≡ (
        let back = 2 ^ 64 - offset in
        if is_negative offset
        then if leb back (origin f whence)
          then moved_to t fd f (origin f whence - back)
          else (none, t)
        else moved_to t fd f (origin f whence + offset))
unfolding sys_lseek
sys_lseek_lem t fd offset whence f opened valid hp hs ho small =
    rw (opened, new_position_lem f offset whence valid ho, sys_lseek)
      (lands t fd f (origin f whence) offset (ground arith) ho small)

new_position_valid :
    (f : FileDescriptor) (offset whence : ℕ) {p : ℕ}
    → new_position f offset whence ≡ some p
    → whence ≤ 2
unfolding new_position
new_position_valid f offset whence h = ground arith

get_fd-lt : (t : FdTable) (fd : ℕ) {f : FileDescriptor} → get_fd t fd ≡ some f → fd < 256
unfolding get_fd
get_fd-lt t fd h = ground arith

-- `sys_lseek` returns -1 and changes nothing for a descriptor that is not open, and for an unknown
-- `whence`; otherwise what it returns is the position that it stored, and it is below 2^63.
pub sys_lseek_result :
    (t : FdTable) (fd offset whence p : ℕ)
    → (sys_lseek t fd offset whence).0 ≡ some p
    → (p < 2 ^ 63)
      × (whence ≤ 2)
      × (fd < 256)
      × ((f : FileDescriptor) × (get_fd t fd ≡ some f)
          × ((sys_lseek t fd offset whence).1 ≡ update_fd t fd (record f { position = p })))
unfolding sys_lseek
sys_lseek_result t fd offset whence p h = elim (Option-cases (get_fd t fd)) [
  | inl closed ↦ ground arith
  | inr (f, opened) ↦ elim (Option-cases (new_position f offset whence)) [
    | inl unknown ↦ ground arith
    | inr (q, found) ↦ elim (Bool-cases (is_negative q)) [
      | inl negative ↦ ground arith
      | inr fine ↦
          let same : q ≡ p = ground arith in
          (
            ground arith,
            new_position_valid f offset whence found,
            get_fd-lt t fd opened,
            (f, opened, rw (opened, found, fine, sys_lseek) (rw same)),
          )
    ]
  ]
]

module _ (buf : ℕ) (mem : Bytes) (f : FileDescriptor) where
  abbrev with_size : Bytes
  with_size = write_u32 mem buf f.file_size

  abbrev with_cluster : Bytes
  with_cluster = write_u32 with_size (buf + 4) f.cluster

  abbrev with_low : Bytes
  with_low = write_u32 with_cluster (buf + 8) (f.position % 2 ^ 32)

  abbrev with_high : Bytes
  with_high = write_u32 with_low (buf + 8 + 4) (f.position / 2 ^ 32)

  write_stat_size : read_u32 (write_stat mem buf f) buf ≡ read_u32 with_size buf
  unfolding write_stat
  write_stat_size = read_u32_ext (write_stat mem buf f) with_size buf (λ x p q. ground arith)

  write_stat_cluster : read_u32 (write_stat mem buf f) (buf + 4) ≡ read_u32 with_cluster (buf + 4)
  unfolding write_stat
  write_stat_cluster =
      read_u32_ext (write_stat mem buf f) with_cluster (buf + 4) (λ x p q. ground arith)

  write_stat_position : f.position < 2 ^ 64 → read_u64 (write_stat mem buf f) (buf + 8) ≡ f.position
  unfolding write_stat
  write_stat_position h = omega (
    arith,
    read_u32_ext (write_stat mem buf f) with_low (buf + 8) (λ x p q. ground arith),
    read_u32_ext (write_stat mem buf f) with_high (buf + 8 + 4) (λ x p q. ground arith),
    read_u32-write_u32 with_cluster (buf + 8) (f.position % 2 ^ 32) (omega arith),
    read_u32-write_u32 with_low (buf + 8 + 4) (f.position / 2 ^ 32) (omega arith),
  )

  write_stat_kind : write_stat mem buf f (buf + 16) ≡ (if f.is_dir then 1 else 0)
  unfolding write_stat
  write_stat_kind = ground arith

  write_stat_outside : (x : ℕ) → in_range buf 17 x ≡ false → write_stat mem buf f x ≡ mem x
  unfolding write_stat
  write_stat_outside x h = ground arith

-- For an open descriptor whose fields are in their ranges, what `sys_fstat` writes can be read back:
-- size, cluster, position and kind of the file; the memory outside those 17 bytes is as before.
pub sys_fstat_lem :
    (t : FdTable) (fd buf : ℕ) (mem : Bytes) (f : FileDescriptor)
    → get_fd t fd ≡ some f
    → f.file_size < 2 ^ 32
    → f.cluster < 2 ^ 32
    → f.position < 2 ^ 64
    → let out = (sys_fstat t fd buf mem).1 in
      ((sys_fstat t fd buf mem).0 ≡ true)
      × (read_u32 out buf ≡ f.file_size)
      × (read_u32 out (buf + 4) ≡ f.cluster)
      × (read_u64 out (buf + 8) ≡ f.position)
      × (out (buf + 16) ≡ (if f.is_dir then 1 else 0))
      × ((x : ℕ) → out x ≡ (if in_range buf 17 x then out x else mem x))
unfolding sys_fstat
sys_fstat_lem t fd buf mem f opened hs hc hp =
    rw (opened, sys_fstat)
      (
        refl,
        write_stat_size buf mem f ∙ read_u32-write_u32 mem buf f.file_size hs,
        write_stat_cluster buf mem f
            ∙ read_u32-write_u32 (with_size buf mem f) (buf + 4) f.cluster hc,
        write_stat_position buf mem f hp,
        write_stat_kind buf mem f,
        λ x. ground (arith, write_stat_outside buf mem f x),
      )
