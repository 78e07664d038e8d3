-- ===== src/File/Table.antt =====
-- kernel/src/boot/fd.rs: the table of 256 file descriptors. The first three are never given out.
pub mod Laws
use forward_os_kernel_base.Base.{ℕ, zero, suc, ◌+◌, ◌-◌, ◌*◌, ◌/◌, ◌%◌, ◌^◌, ◌≤◌, ◌<◌, arith}
use forward_os_kernel_base.Base.{Bool, true, false, not, ◌&&◌, ◌||◌, ltb, leb, ◌==◌, if◌then◌else◌}
use forward_os_kernel_base.Base.{Option, none, some, u64, u32, ◌≡◌, refl, ◌⊎◌, inl, inr, ◌≢◌}
use forward_os_kernel_base.Base.{Bool-cases, Option-cases}

pub record FileDescriptor : Type 0 where
  pub cluster : ℕ
  pub position : ℕ
  pub is_dir : Bool
  pub file_size : ℕ

abbrev pub FdTable : Type 0
FdTable = ℕ → Option FileDescriptor

abbrev pub first_fd : ℕ
first_fd = 3

abbrev pub max_fds : ℕ
max_fds = 256

-- A write of entry `fd`, as through the reference that `get_fd_mut` gives.
abbrev pub update_fd : FdTable → ℕ → FileDescriptor → FdTable
update_fd t fd f i = if fd == i then some f else t i

abbrev pub is_none : Option FileDescriptor → Bool
is_none none = true
is_none (some f) = false

-- What `allocate_fd` stores.
abbrev pub fresh_fd : ℕ → Bool → ℕ → FileDescriptor
fresh_fd cluster is_dir file_size = record {
  cluster = cluster;
  position = 0;
  is_dir = is_dir;
  file_size = file_size;
}

-- The search of `allocate_fd` at entry `i`, with `left` to go. `none` is the result -1.
unfoldable pub allocate_from : FdTable → FileDescriptor → ℕ → ℕ → Option ℕ × FdTable
allocate_from t f zero i = (none, t)
allocate_from t f (suc left) i = elim (is_none (t i)) [
  | true ↦ (some i, update_fd t i f)
  | false ↦ allocate_from t f left (i + 1)
]

unfoldable pub allocate_fd : FdTable → ℕ → Bool → ℕ → Option ℕ × FdTable
unfolding allocate_from
allocate_fd t cluster is_dir file_size =
    allocate_from t (fresh_fd cluster is_dir file_size) (max_fds - first_fd) first_fd

-- Also `get_fd_mut`: the caller writes the entry back by `update_fd`.
unfoldable pub get_fd : FdTable → ℕ → Option FileDescriptor
get_fd t fd = if ltb fd max_fds then t fd else none

unfoldable pub close_fd : FdTable → ℕ → Bool × FdTable
close_fd t fd =
    if leb first_fd fd && ltb fd max_fds
    then (true, λ i. if fd == i then none else t i)
    else (false, t)
