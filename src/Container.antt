-- ===== src/Container.antt =====
-- kernel/src/boot/container.rs: the table of containers, and the futures that run in one.
pub mod Laws
mod Tests
use forward_os_kernel_base.Base.{ℕ, ◌+◌, ◌*◌, ◌%◌, ◌^◌, Bool, true, false, ◌&&◌, ltb, leb, ◌==◌}
use forward_os_kernel_base.Base.{if◌then◌else◌, Option, none, some, List, [], ◌∷◌, ◌++◌, u32, u64}

pub data ContainerState : Type 0 where
  running stopped : ContainerState

-- `memory_region` is the first address and the size. `name` is a string's bytes.
pub record Container : Type 0 where
  pub id : ℕ
  pub state : ContainerState
  pub memory_region : ℕ × ℕ
  pub name : List ℕ

-- CONTAINERS and NEXT_CONTAINER_ID.
pub record Containers : Type 0 where
  pub list : Option (List Container)
  pub next_id : ℕ

abbrev pub initial : Containers
initial = record { list = some []; next_id = 1 }

unfoldable pub create_container : Containers → ℕ → ℕ → List ℕ → ℕ × Containers
create_container t mem_start mem_pages name =
    let id = t.next_id in
    let container : Container = record {
      id = id;
      state = running;
      memory_region = (mem_start, u64 (mem_pages * 4096));
      name = name;
    } in
    (
      id,
      record {
        list = elim t.list [ none ↦ none | some l ↦ some (l ++ (container ∷ [])) ];
        next_id = u32 (id + 1);
      },
    )

-- `find(|c| c.id == id)`.
unfoldable pub find : List Container → ℕ → Option Container
find [] id = none
find (c ∷ l) id = if c.id == id then some c else find l id

-- The first container with the number gets the state `stopped`.
unfoldable pub stop_first : List Container → ℕ → List Container
stop_first [] id = []
stop_first (c ∷ l) id = if c.id == id then record c { state = stopped } ∷ l else c ∷ stop_first l id

unfoldable pub stop_container : Containers → ℕ → Containers
unfolding stop_first
stop_container t id = record t {
  list = elim t.list [ none ↦ none | some l ↦ some (stop_first l id) ];
}

unfoldable pub find_in : Containers → ℕ → Option Container
unfolding find
find_in t id = elim t.list [ none ↦ none | some l ↦ find l id ]

unfoldable pub get_container_state : Containers → ℕ → Option ContainerState
unfolding find_in
get_container_state t id = elim (find_in t id) [ none ↦ none | some c ↦ some c.state ]

unfoldable pub get_container_mem : Containers → ℕ → Option ℕ
unfolding find_in
get_container_mem t id = elim (find_in t id) [ none ↦ none | some c ↦ some c.memory_region.0 ]

-- `addr >= start && addr < end`, where the end wraps.
abbrev pub has_addr : Container → ℕ → Bool
has_addr c addr =
    leb c.memory_region.0 addr && ltb addr (u64 (c.memory_region.0 + c.memory_region.1))

unfoldable pub any_has : List Container → ℕ → Bool
any_has [] addr = false
any_has (c ∷ l) addr = if has_addr c addr then true else any_has l addr

unfoldable pub is_in_container_memory : Containers → ℕ → Bool
unfolding any_has
is_in_container_memory t addr = elim t.list [ none ↦ false | some l ↦ any_has l addr ]

unfoldable pub first_with : List Container → ℕ → Option ℕ
first_with [] addr = none
first_with (c ∷ l) addr = if has_addr c addr then some c.id else first_with l addr

unfoldable pub find_container_by_addr : Containers → ℕ → Option ℕ
unfolding first_with
find_container_by_addr t addr = elim t.list [ none ↦ none | some l ↦ first_with l addr ]

-- The future that runs is any state with a poll of its own, which may also use the table. `true`
-- is `Poll::Ready(())`.
pub record ContainerFuture (F : Type 0) : Type 0 where
  pub future : F
  pub container_id : ℕ

abbrev pub run_in_container : {F : Type 0} → ℕ → F → ContainerFuture F
run_in_container container_id future = record { future = future; container_id = container_id }

module _ {F : Type 0} (poll_future : F → Containers → Bool × F × Containers) where
  unfoldable pub poll : ContainerFuture F → Containers → Bool × ContainerFuture F × Containers
  unfolding get_container_state
  poll s t =
      let (ready, future, t') = poll_future s.future t in
      let polled : Bool × ContainerFuture F × Containers =
        (ready, record s { future = future }, t') in
      elim (get_container_state t s.container_id) [
        | some stopped ↦ (true, s, t)
        | some running ↦ polled
        | none ↦ polled
      ]
