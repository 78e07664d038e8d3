-- ===== src/Ram/Marks.antt =====
-- What `is_used` reads after a mark, page by page, and that the bitmap's bytes stay bytes.
use forward_os_kernel_base.Base.{◌^◌, u64}
use forward_os_kernel_base.Base.{ℕ, zero, suc, ◌+◌, ◌-◌, ◌/◌, ◌%◌, ◌≤◌, ◌<◌}
use forward_os_kernel_base.Base.{bit_and, bit_or, ◌≡◌, refl, ◌∙◌, arith}
use forward_os_kernel_base.Base.{Bool, true, false, not, ◌&&◌, ◌||◌, ltb, ◌==◌, if◌then◌else◌}
use forward_os_kernel_base.Base.{IsBytes, in_range, ◌<<◌}
use forward_os_kernel_base.Base.Bits.{holds_below, holds_below_at}
use forward_os_kernel_base.Ram.{RamManager, mark_used, mark_free, is_used}
use forward_os_kernel_base.Ram.{mark_used_run, mark_free_run}

-- A bit of a byte, as `is_used` tests it.
abbrev has_bit : ℕ → ℕ → Bool
has_bit v b = not (bit_and v (1 << b) == 0)

abbrev same : Bool → Bool → Bool
same true b = b
same false b = not b

same→≡ : (a b : Bool) → same a b ≡ true → a ≡ b
same→≡ true b h = ground arith
same→≡ false b h = ground arith

abbrev or_ok : ℕ → ℕ → ℕ → Bool
or_ok v b c = same (has_bit (bit_or v (1 << b)) c) ((b == c) || has_bit v c)

abbrev and_ok : ℕ → ℕ → ℕ → Bool
and_ok v b c = same (has_bit (bit_and v (255 - (1 << b))) c) (not (b == c) && has_bit v c)

or_table : holds_below 256 (λ v. holds_below 8 (λ b. holds_below 8 (or_ok v b))) ≡ true
unfolding holds_below
or_table = refl

and_table : holds_below 256 (λ v. holds_below 8 (λ b. holds_below 8 (and_ok v b))) ≡ true
unfolding holds_below
and_table = refl

has_bit-or :
    (v b c : ℕ)
    → v < 256
    → b < 8
    → c < 8
    → has_bit (bit_or v (1 << b)) c ≡ ((b == c) || has_bit v c)
has_bit-or v b c hv hb hc = same→≡ _ _ (
    holds_below_at 8 (or_ok v b) c
      (holds_below_at 8 (λ b. holds_below 8 (or_ok v b)) b
        (holds_below_at 256 (λ v. holds_below 8 (λ b. holds_below 8 (or_ok v b))) v or_table hv) hb)
      hc)

has_bit-and :
    (v b c : ℕ)
    → v < 256
    → b < 8
    → c < 8
    → has_bit (bit_and v (255 - (1 << b))) c ≡ (not (b == c) && has_bit v c)
has_bit-and v b c hv hb hc = same→≡ _ _ (
    holds_below_at 8 (and_ok v b) c
      (holds_below_at 8 (λ b. holds_below 8 (and_ok v b)) b
        (holds_below_at 256 (λ v. holds_below 8 (λ b. holds_below 8 (and_ok v b))) v and_table hv)
        hb)
      hc)

same_page : (i j : ℕ) → i / 8 ≡ j / 8 → (i % 8 == j % 8) ≡ (i == j)
same_page i j h = ground arith

other_page : (i j : ℕ) → (i / 8 == j / 8) ≡ false → (i == j) ≡ false
other_page i j h = ground arith

-- Reading page `j` after page `i` was marked: a mark out of range changes nothing, and page `j`
-- is then used already.
pub is_used-mark_used :
    (m : RamManager) (i j : ℕ)
    → IsBytes m.bitmap
    → is_used (mark_used m i) j ≡ ((i == j) || is_used m j)
unfolding is_used mark_used
is_used-mark_used m i j bytes = ground (
  arith,
  has_bit-or (m.bitmap (i / 8)) (i % 8) (j % 8) (bytes (i / 8)),
  same_page i j,
  other_page i j,
)

-- Reading page `j` after page `i` was marked free: a page outside the bitmap stays used, and no page
-- but `i` changes.
pub is_used-mark_free :
    (m : RamManager) (i j : ℕ)
    → IsBytes m.bitmap
    → is_used (mark_free m i) j ≡ (if (i == j) && ltb i m.total_sectors then false else is_used m j)
unfolding is_used mark_free
is_used-mark_free m i j bytes = ground (
  arith,
  has_bit-and (m.bitmap (i / 8)) (i % 8) (j % 8) (bytes (i / 8)),
  same_page i j,
  other_page i j,
)

byte_table :
    holds_below 256 (λ v.
      holds_below 8 (λ b. ltb (bit_or v (1 << b)) 256 && ltb (bit_and v (255 - (1 << b))) 256))
    ≡ true
unfolding holds_below
byte_table = refl

byte_ops :
    (v b : ℕ)
    → v < 256
    → b < 8
    → (ltb (bit_or v (1 << b)) 256 && ltb (bit_and v (255 - (1 << b))) 256) ≡ true
byte_ops v b hv hb =
    holds_below_at 8 (λ b. ltb (bit_or v (1 << b)) 256 && ltb (bit_and v (255 - (1 << b))) 256) b
      (holds_below_at 256
        (λ v.
          holds_below 8 (λ b. ltb (bit_or v (1 << b)) 256 && ltb (bit_and v (255 - (1 << b))) 256))
        v byte_table hv)
      hb

pub mark_used-IsBytes : (m : RamManager) (i : ℕ) → IsBytes m.bitmap → IsBytes (mark_used m i).bitmap
unfolding mark_used
mark_used-IsBytes m i bytes a =
    ground (arith, bytes a, bytes (i / 8), byte_ops (m.bitmap (i / 8)) (i % 8))

pub mark_free-IsBytes : (m : RamManager) (i : ℕ) → IsBytes m.bitmap → IsBytes (mark_free m i).bitmap
unfolding mark_free
mark_free-IsBytes m i bytes a =
    ground (arith, bytes a, bytes (i / 8), byte_ops (m.bitmap (i / 8)) (i % 8))

pub total-mark_used : (m : RamManager) (i : ℕ) → (mark_used m i).total_sectors ≡ m.total_sectors
unfolding mark_used
total-mark_used m i = ground arith

pub total-mark_free : (m : RamManager) (i : ℕ) → (mark_free m i).total_sectors ≡ m.total_sectors
unfolding mark_free
total-mark_free m i = ground arith

-- The manager after marking the run `s .. s + n`, as `used` says of each page.
pub record AfterRun (m m' : RamManager) (used : ℕ → Bool) : Type 0 where
  pub reads : (j : ℕ) → is_used m' j ≡ used j
  pub bytes : IsBytes m'.bitmap
  pub total : m'.total_sectors ≡ m.total_sectors

pub mark_used_run_lem :
    (m : RamManager) (s n : ℕ)
    → IsBytes m.bitmap
    → AfterRun m (mark_used_run m s n) (λ j. in_range s n j || is_used m j)
unfolding mark_used_run
mark_used_run_lem m s zero b = record { reads = λ j. ground arith; bytes = b; total = refl }
mark_used_run_lem m s (suc n) b =
    let rest = mark_used_run_lem (mark_used m s) (s + 1) n (mark_used-IsBytes m s b) in
    record {
      reads = λ j. ground (arith, rest.reads j, is_used-mark_used m s j b);
      bytes = rest.bytes;
      total = rest.total ∙ total-mark_used m s;
    }

pub mark_free_run_lem :
    (m : RamManager) (s n : ℕ)
    → IsBytes m.bitmap
    → s + n ≤ 2 ^ 64
    → AfterRun m
        (mark_free_run m s n)
        (λ j. if in_range s n j && ltb j m.total_sectors then false else is_used m j)
unfolding mark_free_run
mark_free_run_lem m s zero b room = record { reads = λ j. ground arith; bytes = b; total = refl }
mark_free_run_lem m s (suc n) b room =
    let e : u64 s ≡ s = omega arith in
    let m₁ = mark_free m (u64 s) in
    let rest = mark_free_run_lem m₁ (s + 1) n (mark_free-IsBytes m (u64 s) b) (omega arith) in
    record {
      reads = λ j.
          ground
            (arith, e, rest.reads j, is_used-mark_free m (u64 s) j b, total-mark_free m (u64 s));
      bytes = rest.bytes;
      total = rest.total ∙ total-mark_free m (u64 s);
    }

pub is_used_outside : (m : RamManager) (j : ℕ) → m.total_sectors ≤ j → is_used m j ≡ true
unfolding is_used
is_used_outside m j h = ground arith
