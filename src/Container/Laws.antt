-- ===== src/Container/Laws.antt =====
-- The numbers of containers are never given twice, and what each operation does to the others.
use forward_os_kernel_base.Base.{ℕ, ◌+◌, ◌*◌, ◌^◌, ◌<◌, ◌≤◌, ◌≡◌, refl, arith, inl, inr}
use forward_os_kernel_base.Base.{
  subst, in_range, ◌||◌, Bool, true, false, ◌==◌, if◌then◌else◌, Bool-cases, Option-cases,
}
use forward_os_kernel_base.Base.{none, some, List, [], ◌∷◌, ◌++◌, u64, All, All-append}
use forward_os_kernel_base.Container.{
  ContainerState, running, stopped, Container, Containers, create_container,
}
use forward_os_kernel_base.Container.{
  find, stop_first, stop_container, find_in, get_container_state,
}
use forward_os_kernel_base.Container.{
  get_container_mem, has_addr, any_has, is_in_container_memory, first_with,
}
use forward_os_kernel_base.Container.{find_container_by_addr, run_in_container, poll}

abbrev pub IsBelow : ℕ → List Container → Type 0
IsBelow n = All (λ c. c.id < n)

-- The table is set up, and every number in it is below the next one.
pub record IsTable (t : Containers) : Type 0 where
  pub l : List Container
  pub list : t.list ≡ some l
  pub below : IsBelow t.next_id l

IsBelow-weaken : (n k : ℕ) (l : List Container) → n ≤ k → IsBelow n l → IsBelow k l
IsBelow-weaken n k [] h b = b
IsBelow-weaken n k (c ∷ l) h b = (omega (arith, b.0), IsBelow-weaken n k l h b.1)

find-append :
    (l : List Container) (c : Container) (i : ℕ)
    → IsBelow c.id l
    → find (l ++ (c ∷ [])) i ≡ (if c.id == i then some c else find l i)
unfolding find
find-append [] c i b = refl
find-append (d ∷ l) c i b = ground (arith, find-append l c i b.1, b.0)

find-stop_first :
    (l : List Container) (id i : ℕ)
    → find (stop_first l id) i ≡ elim (find l i) [
      | none ↦ none
      | some c ↦ some (if id == i then record c { state = stopped } else c)
    ]
unfolding find stop_first
find-stop_first [] id i = refl
find-stop_first (c ∷ l) id i = ground (arith, find-stop_first l id i)

IsBelow-stop_first : (n id : ℕ) (l : List Container) → IsBelow n l → IsBelow n (stop_first l id)
unfolding stop_first
IsBelow-stop_first n id [] b = b
IsBelow-stop_first n id (c ∷ l) b = elim (Bool-cases (c.id == id)) [
  | inl e ↦ rw e b
  | inr ne ↦ rw ne (b.0, IsBelow-stop_first n id l b.1)
]

find-next : (n : ℕ) (l : List Container) → IsBelow n l → find l n ≡ none
unfolding find
find-next n [] b = refl
find-next n (c ∷ l) b = ground (arith, find-next n l b.1, b.0)

abbrev created : ℕ → ℕ → ℕ → List ℕ → Container
created id mem_start mem_pages name = record {
  id = id;
  state = running;
  memory_region = (mem_start, u64 (mem_pages * 4096));
  name = name;
}

-- While numbers last, a created container is running at its address under a number that no other
-- has, the others are as before, and the table stays well-formed.
pub create_container_lem :
    (t : Containers) (mem_start mem_pages i : ℕ) (name : List ℕ)
    → IsTable t
    → t.next_id + 1 < 2 ^ 32
    → let (id, t') = create_container t mem_start mem_pages name in
      IsTable t'
      × (find_in t id ≡ none)
      × (get_container_state t' i ≡ (if id == i then some running else get_container_state t i))
      × (get_container_mem t' i ≡ (if id == i then some mem_start else get_container_mem t i))
unfolding create_container find_in get_container_state get_container_mem
create_container_lem t mem_start mem_pages i name w room =
    let c = created t.next_id mem_start mem_pages name in
    let found = find-append w.l c i w.below in
    (
      record {
        l = w.l ++ (c ∷ []);
        list = rw w.list;
        below =
            subst (λ n. IsBelow n (w.l ++ (c ∷ []))) (omega arith)
              (All-append _ w.l (c ∷ [])
                (IsBelow-weaken t.next_id (t.next_id + 1) w.l (omega arith) w.below) (omega arith));
      },
      rw w.list (find-next t.next_id w.l w.below),
      ground (arith, w.list, found),
      ground (arith, w.list, found),
    )

-- Stopping keeps the table well-formed, and changes the state of the container with that number,
-- if there is one, and of no other; every address stays.
pub stop_container_lem :
    (t : Containers) (id i : ℕ)
    → IsTable t
    → let t' = stop_container t id in
      IsTable t'
      × (get_container_state t' i ≡ elim (get_container_state t i) [
        | none ↦ none
        | some s ↦ some (if id == i then stopped else s)
      ])
      × (get_container_mem t' i ≡ get_container_mem t i)
unfolding stop_container find_in get_container_state get_container_mem
stop_container_lem t id i w =
    let found = find-stop_first w.l id i in
    (
      record {
        l = stop_first w.l id;
        list = rw w.list;
        below = IsBelow-stop_first t.next_id id w.l w.below;
      },
      ground (arith, w.list, found),
      ground (arith, w.list, found),
    )

any_has-append :
    (l : List Container) (c : Container) (addr : ℕ)
    → any_has (l ++ (c ∷ [])) addr ≡ (any_has l addr || has_addr c addr)
unfolding any_has
any_has-append [] c addr = ground arith
any_has-append (d ∷ l) c addr = ground (arith, any_has-append l c addr)

-- Creating a container whose region does not wrap adds the addresses of its pages to the memory of
-- the containers, and no others.
pub create_container-is_in :
    (t : Containers) (mem_start mem_pages addr : ℕ) (name : List ℕ)
    → IsTable t
    → mem_start + mem_pages * 4096 < 2 ^ 64
    → is_in_container_memory (create_container t mem_start mem_pages name).1 addr
      ≡ (is_in_container_memory t addr || in_range mem_start (mem_pages * 4096) addr)
unfolding create_container is_in_container_memory
create_container-is_in t mem_start mem_pages addr name w fits =
    ground (arith, w.list, any_has-append w.l (created t.next_id mem_start mem_pages name) addr)

first_with_lem :
    (l : List Container) (addr : ℕ)
    → (elim (first_with l addr) [ none ↦ false | some id ↦ true ]) ≡ any_has l addr
unfolding first_with any_has
first_with_lem [] addr = refl
first_with_lem (c ∷ l) addr = ground (arith, first_with_lem l addr)

-- An address leads to a container exactly when it is in the memory of the containers.
pub find_container_by_addr_lem :
    (t : Containers) (addr : ℕ)
    → (elim (find_container_by_addr t addr) [ none ↦ false | some id ↦ true ])
      ≡ is_in_container_memory t addr
unfolding find_container_by_addr is_in_container_memory
find_container_by_addr_lem t addr = elim (Option-cases t.list) [
  | inl e ↦ rw e
  | inr (l, e) ↦ rw e (first_with_lem l addr)
]

-- A future in a container that was stopped is ready at its next poll, and neither it nor the table
-- changes.
pub poll-stop_container :
    {F : Type 0} (poll_future : F → Containers → Bool × F × Containers) (t : Containers)
    (future : F) (id : ℕ) {s : ContainerState}
    → IsTable t
    → get_container_state t id ≡ some s
    → poll poll_future (run_in_container id future) (stop_container t id)
      ≡ (true, run_in_container id future, stop_container t id)
unfolding poll stop_container
poll-stop_container poll_future t future id {s} w there =
    let e : get_container_state (stop_container t id) id ≡ some stopped =
      ground (arith, (stop_container_lem t id id w).1, there) in
    rw e
