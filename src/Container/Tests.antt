-- ===== src/Container/Tests.antt =====
-- kernel/src/boot/container.rs: a table with one container.
use forward_os_kernel_base.Base.{ℕ, ◌≡◌, refl, arith, Bool, true, ◌==◌, if◌then◌else◌}
use forward_os_kernel_base.Base.{none, some, [], ◌∷◌}
use forward_os_kernel_base.Container.{running, Container, Containers, create_container}
use forward_os_kernel_base.Container.{
  stop_container, find, find_in, get_container_state, get_container_mem,
}
use forward_os_kernel_base.Container.{run_in_container, poll}
use forward_os_kernel_base.Container.Laws.{IsTable, create_container_lem}
use forward_os_kernel_base.Container.Laws.{poll-stop_container}

abbrev shell : Container
shell = record { id = 1; state = running; memory_region = (0x8000, 0x2000); name = [] }

abbrev one : Containers
one = record { list = some (shell ∷ []); next_id = 2 }

one-IsTable : IsTable one
one-IsTable = record { l = shell ∷ []; list = refl; below = omega arith }

create_container_example :
    let (id, t') = create_container one 0x10000 4 [] in
    IsTable t'
    × (find_in one id ≡ none)
    × (get_container_state t' 1 ≡ (if id == 1 then some running else get_container_state one 1))
    × (get_container_mem t' 1 ≡ (if id == 1 then some 0x10000 else get_container_mem one 1))
create_container_example = create_container_lem one 0x10000 4 1 [] one-IsTable (omega arith)

shell_runs : get_container_state one 1 ≡ some running
unfolding get_container_state find_in find
shell_runs = refl

-- The future counts its polls down.
abbrev countdown : ℕ → Containers → Bool × ℕ × Containers
countdown n t = (n == 0, n, t)

poll_example :
    poll countdown (run_in_container 1 5) (stop_container one 1)
    ≡ (true, run_in_container 1 5, stop_container one 1)
poll_example = poll-stop_container countdown one 5 1 one-IsTable shell_runs
