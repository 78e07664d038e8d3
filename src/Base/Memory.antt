-- ===== src/Base/Memory.antt =====
-- Words that are written to memory and read back, and the bytes around them.
use Prim.Native.Nat.{ℕ, ◌+◌, ◌*◌, ◌/◌, ◌%◌, ◌^◌, ◌<◌, ◌≤◌}
use mathlib.Core.Path.{◌≡◌, ap₂, ◌∙◌}
use mathlib.Core.Bool.{false}
use native.Mathlib.Omega.{arith}
use forward_os_kernel_base.Base.Tests.{in_range}
use forward_os_kernel_base.Base.Words.{Bytes, read_u32, write_u32, read_u64, write_u64}

pub read_u32-write_u32 : (m : Bytes) (a v : ℕ) → v < 2 ^ 32 → read_u32 (write_u32 m a v) a ≡ v
read_u32-write_u32 m a v h = ground arith

pub write_u32_outside : (m : Bytes) (a v x : ℕ) → in_range a 4 x ≡ false → write_u32 m a v x ≡ m x
write_u32_outside m a v x h = ground arith

pub read_u32_ext :
    (m n : Bytes) (a : ℕ) → ((x : ℕ) → a ≤ x → x < a + 4 → m x ≡ n x) → read_u32 m a ≡ read_u32 n a
read_u32_ext m n a h = ground (arith, h a, h (a + 1), h (a + 2), h (a + 3))

pub read_u64-write_u64 : (m : Bytes) (a v : ℕ) → v < 2 ^ 64 → read_u64 (write_u64 m a v) a ≡ v
read_u64-write_u64 m a v h =
    let low : read_u32 (write_u64 m a v) a ≡ v % 2 ^ 32 =
      read_u32_ext (write_u64 m a v) (write_u32 m a (v % 2 ^ 32)) a (λ x lo hi.
        write_u32_outside (write_u32 m a (v % 2 ^ 32)) (a + 4) (v / 2 ^ 32) x (ground arith))
      ∙ read_u32-write_u32 m a (v % 2 ^ 32) (omega arith) in
    let high : read_u32 (write_u64 m a v) (a + 4) ≡ v / 2 ^ 32 =
      read_u32-write_u32 (write_u32 m a (v % 2 ^ 32)) (a + 4) (v / 2 ^ 32) (omega arith) in
    ap₂ (λ (x y : ℕ). x + 2 ^ 32 * y) low high ∙ omega arith
