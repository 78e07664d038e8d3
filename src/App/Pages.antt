-- ===== src/App/Pages.antt =====
-- The pages that an application gets.
use forward_os_kernel_base.Base.{
  ℕ, ◌<◌, ◌≡◌, ap, ◌⊎◌, inl, inr, Option, none, some, List, IsBytes, read_u64, write_u64, Outcome,
  ret, and_then,
}
use forward_os_kernel_base.App.{int80, mget, mmap}
use forward_os_kernel_base.Draw.{Font}
use forward_os_kernel_base.Ram.Allocate.{Takes, Refuses}
use forward_os_kernel_base.Ram.Munmap.{FitsAddress}
use forward_os_kernel_base.Syscall.{System, minus_one}
use forward_os_kernel_base.Syscall.Calls.{call_mget, call_mmap}
use forward_os_kernel_base.Syscall.Pages.{served, refused, call_mget_lem}

module _ {E : Type 0} (font : Font) (error_text : List ℕ → List ℕ) (in_port : ℕ → E → ℕ × E)
    (fuel : ℕ) (epilogue : Option ℕ → ℕ → ℕ) where
  -- Whatever the calling convention leaves in rax, `mget` and `mmap` return the address of the first
  -- run of free pages that is long enough, which is the caller's from then on, or the largest number
  -- where there is none; the answer comes through the variable on the caller's stack.
  pub mget_lem :
      (at pages align : ℕ) (s : System E)
      → IsBytes s.ram.bitmap
      → FitsAddress s.ram
      → 0 < pages
      → (a : ℕ) × (t : System E) × (mget font error_text in_port fuel epilogue at pages s
          ≡ ret (a, t))
        × (mmap font error_text in_port fuel epilogue at pages align s ≡ ret (a, t))
        × (Takes s.ram pages (some a, t.ram)
            ⊎ ((a ≡ minus_one) × Refuses s.ram pages (none, t.ram)))
  unfolding mget mmap int80 call_mget call_mmap
  mget_lem at pages align s bytes fits pos =
      let s₀ = record s { kernel = record s.kernel { memory = write_u64 s.kernel.memory at 0 } } in
      let (t, got, mapped, zero_ret, served_pages) =
        call_mget_lem font error_text in_port fuel pages 0 align at s₀ bytes fits pos in
      let answer =
        λ (o : Outcome (System E)). and_then o (λ u. ret (read_u64 u.kernel.memory at, u)) in
      (
        read_u64 t.kernel.memory at,
        t,
        ap answer got,
        ap answer mapped,
        elim served_pages [
          | served takes u back restored ↦ inl takes
          | refused failed nothing ↦ inr (failed, nothing)
        ],
      )
