-- ===== src/File/Table/Laws.antt =====
-- The descriptor table: which number `allocate_fd` gives, and what the calls leave of the others.
use forward_os_kernel_base.Base.{
  ℕ, zero, suc, ◌+◌, ◌-◌, ◌≤◌, ◌<◌, arith, ◌≡◌, ◌≢◌, refl, ◌⊎◌, inl, inr,
}
use forward_os_kernel_base.Base.{Bool, true, false, ltb, leb, ◌==◌, if◌then◌else◌, ◌&&◌, Bool-cases}
use forward_os_kernel_base.Base.{Option, none, some}
use native.Mathlib.Decide.{ℕ_discrete}
use forward_os_kernel_base.File.Table.{
  FileDescriptor, FdTable, update_fd, fresh_fd, is_none, allocate_from,
}
use forward_os_kernel_base.File.Table.{allocate_fd, get_fd, close_fd, first_fd, max_fds}

-- The lowest free number from `lo` up is given out, or all those below `hi` are taken.
pub record Opens (t : FdTable) (f : FileDescriptor) (lo hi : ℕ) (r : Option ℕ × FdTable)
    : Type 0 where
  pub fd : ℕ
  pub result : r.0 ≡ some fd
  pub lower : lo ≤ fd
  pub upper : fd < hi
  pub was_free : t fd ≡ none
  pub lowest : (i : ℕ) → lo ≤ i → i < fd → t i ≢ none
  pub entries : (i : ℕ) → r.1 i ≡ update_fd t fd f i

pub record IsFull (t : FdTable) (lo hi : ℕ) (r : Option ℕ × FdTable) : Type 0 where
  pub result : r ≡ (none, t)
  pub taken : (i : ℕ) → lo ≤ i → i < hi → t i ≢ none

is_none→≡ : (o : Option FileDescriptor) → is_none o ≡ true → o ≡ none
is_none→≡ none h = refl
is_none→≡ (some f) h = ground arith

is_none→≢ : (o : Option FileDescriptor) → is_none o ≡ false → o ≢ none
is_none→≢ none h = ground arith
is_none→≢ (some f) h = λ e. ground arith

allocate_from_lem :
    (t : FdTable) (f : FileDescriptor) (left i : ℕ)
    → Opens t f i (i + left) (allocate_from t f left i)
      ⊎ IsFull t i (i + left) (allocate_from t f left i)
unfolding allocate_from
allocate_from_lem t f zero i = inr (record { result = refl; taken = λ j p q. absurd (omega arith) })
allocate_from_lem t f (suc left) i = elim (Bool-cases (is_none (t i))) [
  | inl free ↦
      rw (free, allocate_from)
        (inl (record {
          fd = i;
          result = refl;
          lower = omega arith;
          upper = omega arith;
          was_free = is_none→≡ (t i) free;
          lowest = λ j p q. absurd (omega arith);
          entries = λ j. refl;
        }))
  | inr used ↦
      rw (used, allocate_from)
        (elim (allocate_from_lem t f left (i + 1)) [
          | inl o ↦ inl (record {
            fd = o.fd;
            result = o.result;
            lower = omega (arith, o.lower);
            upper = omega (arith, o.upper);
            was_free = o.was_free;
            lowest = λ j p q. elim (ℕ_discrete j i) [
              | yes e ↦ rw e (is_none→≢ (t i) used)
              | no ne ↦ o.lowest j (omega arith) q
            ];
            entries = o.entries;
          })
          | inr full ↦ inr (record {
            result = full.result;
            taken = λ j p q. elim (ℕ_discrete j i) [
              | yes e ↦ rw e (is_none→≢ (t i) used)
              | no ne ↦ full.taken j (omega arith) (omega arith)
            ];
          })
        ])
]

-- `allocate_fd` gives the lowest free descriptor from 3 to 255 to a file at position 0, and leaves
-- the other entries; or all of those are taken, it returns -1, and the table is as before.
pub allocate_fd_lem :
    (t : FdTable) (cluster : ℕ) (is_dir : Bool) (file_size : ℕ)
    → let f : FileDescriptor = record {
      cluster = cluster;
      position = 0;
      is_dir = is_dir;
      file_size = file_size;
    } in
      Opens t f 3 256 (allocate_fd t cluster is_dir file_size)
      ⊎ IsFull t 3 256 (allocate_fd t cluster is_dir file_size)
unfolding allocate_fd
allocate_fd_lem t cluster is_dir file_size = allocate_from_lem t _ (max_fds - first_fd) first_fd

-- Opening and closing again gives the table back, and the descriptor reads as the file opened.
pub close_fd-allocate_fd :
    (t : FdTable) (cluster : ℕ) (is_dir : Bool) (file_size fd : ℕ)
    → (allocate_fd t cluster is_dir file_size).0 ≡ some fd
    → let t' = (allocate_fd t cluster is_dir file_size).1 in
      (get_fd t' fd ≡ some (fresh_fd cluster is_dir file_size))
      × ((close_fd t' fd).0 ≡ true)
      × ((i : ℕ) → (close_fd t' fd).1 i ≡ t i)
unfolding get_fd close_fd
close_fd-allocate_fd t cluster is_dir file_size fd h =
    elim (allocate_fd_lem t cluster is_dir file_size) [
      | inr full ↦ ground (arith, full.result)
      | inl o ↦
          let same : o.fd ≡ fd = ground (arith, o.result) in
          (
            ground (arith, o.entries fd, o.upper),
            ground (arith, o.lower, o.upper),
            λ i. ground (arith, o.entries i, o.was_free, o.lower, o.upper),
          )
    ]

-- Only descriptors 3 to 255 can be closed; afterwards they are free, and no other entry changes.
pub close_fd_lem :
    (t : FdTable) (fd i : ℕ)
    → let allowed = leb first_fd fd && ltb fd max_fds in
      ((close_fd t fd).0 ≡ allowed)
      × ((close_fd t fd).1 i ≡ (if allowed && (fd == i) then none else t i))
unfolding close_fd
close_fd_lem t fd i = (ground arith, ground arith)
