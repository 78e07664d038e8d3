-- ===== src/Syscall/Pages.antt =====
-- The calls for pages: SYS_MGET, SYS_MMAP and SYS_MUNMAP, through the memory that their pointer
-- leads to.
use forward_os_kernel_base.Base.{
  ℕ, ◌-◌, ◌*◌, ◌^◌, ◌<◌, ◌≡◌, refl, sym, ap, subst, ◌∙◌, arith, inl, inr, Option, none, some, List,
  IsBytes, u64, read_u64, write_u64, ret,
}
use forward_os_kernel_base.Base.Memory.{read_u64-write_u64}
use forward_os_kernel_base.Draw.{Font}
use forward_os_kernel_base.Ram.{
  RamManager, is_used, page_size, allocate_sectors, allocate_sectors_direct, sys_munmap,
}
use forward_os_kernel_base.Ram.Allocate.{Takes, Refuses, allocate_sectors_lem}
use forward_os_kernel_base.Ram.Munmap.{FitsAddress, sys_munmap-allocate_sectors}
use forward_os_kernel_base.Syscall.{System, minus_one, syscall_int80_handler, mget, munmap}
use forward_os_kernel_base.Syscall.Calls.{call, call_mget, call_mmap, call_munmap}

direct_some :
    (m : RamManager) (n a : ℕ)
    → (allocate_sectors m n).0 ≡ some a
    → (allocate_sectors_direct m n).0 ≡ a
unfolding allocate_sectors_direct
direct_some m n a e = ap (λ (o : Option ℕ). elim o [ some addr ↦ addr | none ↦ 2 ^ 64 - 1 ]) e

direct_none :
    (m : RamManager) (n : ℕ)
    → allocate_sectors m n ≡ (none, m)
    → allocate_sectors_direct m n ≡ (minus_one, m)
unfolding allocate_sectors_direct
direct_none m n e =
    ap
      (λ (r : Option ℕ × RamManager).
        let (found, m') = r in (elim found [ some addr ↦ addr | none ↦ 2 ^ 64 - 1 ], m'))
      e

module _ {E : Type 0} (font : Font) (error_text : List ℕ → List ℕ) (in_port : ℕ → E → ℕ × E)
    (fuel : ℕ) where
  -- The state behind a request for pages that puts this number at the pointer.
  abbrev handed : ℕ → ℕ → RamManager → System E → System E
  handed res value ram s = record s {
    ram = ram;
    kernel = record s.kernel { memory = write_u64 s.kernel.memory res value };
    syscall_ret = 0;
  }

  -- What a request has done: the first run of free pages is the caller's, and giving it back restores
  -- the bitmap; or there is no such run, and the number is that of failure.
  pub data Served (pages res : ℕ) (s t : System E) : Type 0 where
    served :
        Takes s.ram pages (some (read_u64 t.kernel.memory res), t.ram)
        → (u : System E)
        → call_munmap font error_text in_port fuel (read_u64 t.kernel.memory res) pages t
          ≡ ret (0, u)
        → ((j : ℕ) → is_used u.ram j ≡ is_used s.ram j)
        → Served pages res s t
    refused :
        read_u64 t.kernel.memory res ≡ minus_one
        → Refuses s.ram pages (none, t.ram)
        → Served pages res s t

  call_munmap_ret :
      (addr pages : ℕ) (s : System E)
      → call_munmap font error_text in_port fuel addr pages s
        ≡ ret (0, record s { ram = sys_munmap s.ram addr pages; syscall_ret = 0 })
  unfolding call_munmap call syscall_int80_handler munmap
  call_munmap_ret addr pages s = refl

  call_mget_ret :
      (pages alignment res : ℕ) (s : System E)
      → call_mget font error_text in_port fuel pages alignment res s
        ≡ ret (
            handed res
              (allocate_sectors_direct s.ram pages).0
              (allocate_sectors_direct s.ram pages).1
              s)
  unfolding call_mget syscall_int80_handler mget
  call_mget_ret pages alignment res s = refl

  call_mmap_ret :
      (pages alignment res : ℕ) (s : System E)
      → call_mmap font error_text in_port fuel pages alignment res s
        ≡ ret (
            handed res
              (allocate_sectors_direct s.ram pages).0
              (allocate_sectors_direct s.ram pages).1
              s)
  unfolding call_mmap syscall_int80_handler mget
  call_mmap_ret pages alignment res s = refl

  -- SYS_MGET, and SYS_MMAP for any alignment, return with SYSCALL_RET 0. They put the address of the
  -- first run of free pages that is long enough at the pointer and mark the run, and SYS_MUNMAP of
  -- that address restores what the bitmap says of every page; or there is no such run, they put the
  -- largest number there, and no page changes.
  pub call_mget_lem :
      (pages alignment alignment' res : ℕ) (s : System E)
      → IsBytes s.ram.bitmap
      → FitsAddress s.ram
      → 0 < pages
      → (t : System E) × (call_mget font error_text in_port fuel pages alignment res s ≡ ret t)
        × (call_mmap font error_text in_port fuel pages alignment' res s ≡ ret t)
        × (t.syscall_ret ≡ 0)
        × Served pages res s t
  unfolding allocate_sectors_direct
  call_mget_lem pages alignment alignment' res s bytes fits pos =
      let r = allocate_sectors_direct s.ram pages in
      let t = handed res r.0 r.1 s in
      let m = s.kernel.memory in
      (
        t,
        call_mget_ret pages alignment res s,
        call_mmap_ret pages alignment' res s,
        refl,
        elim (allocate_sectors_lem s.ram pages bytes pos) [
          | inl got ↦
              let addr = u64 (got.s * page_size) in
              let value : read_u64 (write_u64 m res r.0) res ≡ addr =
                ap (λ (n : ℕ). read_u64 (write_u64 m res n) res)
                  (direct_some s.ram pages addr got.address)
                ∙ read_u64-write_u64 m res addr (omega arith) in
              let takes : Takes s.ram pages (some addr, r.1) = record {
                s = got.s;
                address = refl;
                run = got.run;
                first = got.first;
                after = got.after;
              } in
              served (subst (λ (a : ℕ). Takes s.ram pages (some a, r.1)) (sym value) takes)
                (record t {
                  ram = sys_munmap r.1 (read_u64 t.kernel.memory res) pages;
                  syscall_ret = 0;
                })
                (call_munmap_ret (read_u64 t.kernel.memory res) pages t)
                (λ j.
                  ap (λ (a : ℕ). is_used (sys_munmap r.1 a pages) j) value
                  ∙ sys_munmap-allocate_sectors s.ram pages addr j bytes fits pos got.address)
          | inr none_left ↦
              let failed = direct_none s.ram pages none_left.nothing in
              refused
                (ap (λ (q : ℕ × RamManager). read_u64 (write_u64 m res q.0) res) failed
                  ∙ read_u64-write_u64 m res minus_one (omega arith))
                (record {
                  nothing = ap (λ (q : ℕ × RamManager). (none, q.1)) failed;
                  full = none_left.full;
                })
        ],
      )
