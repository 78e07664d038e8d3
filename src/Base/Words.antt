-- ===== src/Base/Words.antt =====
-- Byte-addressed memory as a function from offsets to bytes, little-endian words in it, and the
-- fixed widths of Rust's integers. A release build wraps.
use Prim.Native.Nat.{ℕ, ◌+◌, ◌-◌, ◌*◌, ◌/◌, ◌%◌, ◌^◌, ◌<◌}
use forward_os_kernel_base.Base.Tests.{◌==◌, in_range, if◌then◌else◌}

abbrev pub u8 : ℕ → ℕ
u8 n = n % 2 ^ 8

abbrev pub u16 : ℕ → ℕ
u16 n = n % 2 ^ 16

abbrev pub u32 : ℕ → ℕ
u32 n = n % 2 ^ 32

abbrev pub u64 : ℕ → ℕ
u64 n = n % 2 ^ 64

infixl 60 ◌<<◌ ◌>>◌
abbrev pub ◌<<◌ : ℕ → ℕ → ℕ
x << k = x * 2 ^ k

abbrev pub ◌>>◌ : ℕ → ℕ → ℕ
x >> k = x / 2 ^ k

abbrev pub Bytes : Type 0
Bytes = ℕ → ℕ

abbrev pub IsBytes : Bytes → Type 0
IsBytes m = (i : ℕ) → m i < 256

abbrev pub set_byte : Bytes → ℕ → ℕ → Bytes
set_byte m a v i = if a == i then v else m i

-- `ptr::copy_nonoverlapping(src + from, dst + to, n)` and `copy_from_slice`.
abbrev pub copy : Bytes → ℕ → ℕ → Bytes → ℕ → Bytes
copy src from n dst to i = if in_range to n i then src (from + (i - to)) else dst i

-- A little-endian `u16`, `u32` at an offset.
abbrev pub read_u16 : Bytes → ℕ → ℕ
read_u16 m a = m a + 2 ^ 8 * m (a + 1)

abbrev pub read_u32 : Bytes → ℕ → ℕ
read_u32 m a = m a + 2 ^ 8 * m (a + 1) + 2 ^ 16 * m (a + 2) + 2 ^ 24 * m (a + 3)

abbrev pub write_u32 : Bytes → ℕ → ℕ → Bytes
write_u32 m a v =
    set_byte
      (set_byte (set_byte (set_byte m a (v % 256)) (a + 1) (v / 2 ^ 8 % 256)) (a + 2)
        (v / 2 ^ 16 % 256))
      (a + 3) (v / 2 ^ 24 % 256)

abbrev pub read_u64 : Bytes → ℕ → ℕ
read_u64 m a = read_u32 m a + 2 ^ 32 * read_u32 m (a + 4)

abbrev pub write_u64 : Bytes → ℕ → ℕ → Bytes
write_u64 m a v = write_u32 (write_u32 m a (v % 2 ^ 32)) (a + 4) (v / 2 ^ 32)
