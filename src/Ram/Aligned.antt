-- ===== src/Ram/Aligned.antt =====
-- `allocate_aligned` takes the first aligned run of free pages.
use Prim.Native.Nat.{max}
use forward_os_kernel_base.Base.{◌^◌}
use forward_os_kernel_base.Base.{
  ℕ, zero, suc, ◌+◌, ◌*◌, ◌%◌, ◌≤◌, ◌<◌, ◌≡◌, ◌≢◌, refl, ◌⊎◌, ==→≢, inl, inr, arith,
}
use forward_os_kernel_base.Base.{Bool, true, false, not, ◌&&◌, ◌||◌, ◌==◌, Bool-cases, in_range}
use forward_os_kernel_base.Base.{IsBytes, Option, none, some, u64, subst}
use forward_os_kernel_base.Ram.{
  RamManager, page_size, is_used, fits, aligned_scan, allocate_aligned,
}
use forward_os_kernel_base.Ram.Marks.{AfterRun, mark_used_run_lem}

-- What the code asks of a page.
unfoldable is_start : RamManager → ℕ → ℕ → ℕ → Bool
is_start m n alignment i = not (is_used m i) && (u64 (i * page_size) % alignment == 0) && fits m i n

-- A run that fits is free throughout.
pub fits_lem :
    (m : RamManager) (i n j : ℕ) → fits m i n ≡ true → i ≤ j → j < i + n → is_used m j ≡ false
unfolding fits
fits_lem m i zero j h lo hi = absurd (omega arith)
fits_lem m i (suc n) j h lo hi = elim (Bool-cases (is_used m i)) [
  | inl used ↦ ground (arith, used)
  | inr free ↦ elim (Bool-cases (i == j)) [
    | inl same ↦ subst (λ (k : ℕ). is_used m k ≡ false) (ground arith) free
    | inr other ↦ fits_lem m (i + 1) n j (ground (arith, free)) (ground arith) (omega arith)
  ]
]

fits-some_used :
    (m : RamManager) (i n : ℕ)
    → fits m i n ≡ false
    → (j : ℕ) × (i ≤ j) × (j < i + n) × (is_used m j ≡ true)
unfolding fits
fits-some_used m i zero h = ground arith
fits-some_used m i (suc n) h = elim (Bool-cases (is_used m i)) [
  | inl used ↦ (i, omega arith, omega arith, used)
  | inr free ↦
      let (j, lo, hi, used) = fits-some_used m (i + 1) n (ground (arith, free)) in
      (j, omega arith, omega arith, used)
]

-- No run of `n` pages, or of one where `n` is 0, can begin at page `t`: its address is not aligned,
-- or one of the pages is used.
abbrev pub IsBlocked : RamManager → ℕ → ℕ → ℕ → Type 0
IsBlocked m n alignment t =
    (t * 4096 % 2 ^ 64 % alignment ≢ 0)
    ⊎ ((j : ℕ) × (t ≤ j) × (j < t + max n 1) × (is_used m j ≡ true))

is_start-IsBlocked :
    (m : RamManager) (n alignment t : ℕ)
    → is_start m n alignment t ≡ false
    → IsBlocked m n alignment t
unfolding is_start
is_start-IsBlocked m n alignment t h = elim (Bool-cases (is_used m t)) [
  | inl used ↦ inr (t, omega arith, omega arith, used)
  | inr free ↦ elim (Bool-cases (u64 (t * page_size) % alignment == 0)) [
    | inr off ↦ inl (==→≢ _ _ off)
    | inl at ↦
        let (j, lo, hi, used) = fits-some_used m t n (ground (arith, h, free, at)) in
        inr (j, lo, omega arith, used)
  ]
]

-- The first page from `lo` on that can begin the run is `s`: its address is handed out, aligned,
-- the run was free, and exactly its pages are used afterwards.
pub record TakesAligned (m : RamManager) (n alignment lo : ℕ) (r : Option ℕ × RamManager)
    : Type 0 where
  pub s : ℕ
  pub above : lo ≤ s
  pub address : r.0 ≡ some (u64 (s * page_size))
  pub aligned : u64 (s * page_size) % alignment ≡ 0
  pub free : (j : ℕ) → s ≤ j → j < s + n → is_used m j ≡ false
  pub first : (t : ℕ) → lo ≤ t → t < s → IsBlocked m n alignment t
  pub after : AfterRun m r.1 (λ j. in_range s n j || is_used m j)

pub record RefusesAligned (m : RamManager) (n alignment lo hi : ℕ) (r : Option ℕ × RamManager)
    : Type 0 where
  pub nothing : r ≡ (none, m)
  pub full : (t : ℕ) → lo ≤ t → t < hi → IsBlocked m n alignment t

aligned_scan_lem :
    (m : RamManager) (n alignment left i : ℕ)
    → IsBytes m.bitmap
    → TakesAligned m n alignment i (aligned_scan m n alignment left i)
      ⊎ RefusesAligned m n alignment i (i + left) (aligned_scan m n alignment left i)
unfolding aligned_scan is_start
aligned_scan_lem m n alignment zero i b =
    inr (record { nothing = refl; full = λ t lo hi. absurd (omega arith) })
aligned_scan_lem m n alignment (suc left) i b =
    elim (Bool-cases (not (is_used m i) && (u64 (i * page_size) % alignment == 0) && fits m i n)) [
      | inl yes_it ↦
          rw (yes_it, aligned_scan)
            (inl (record {
              s = i;
              above = omega arith;
              address = refl;
              aligned = ground arith;
              free = λ j lo hi. fits_lem m i n j (ground arith) lo hi;
              first = λ t lo hi. absurd (omega arith);
              after = mark_used_run_lem m i n b;
            }))
      | inr not_it ↦
          rw (not_it, aligned_scan)
            (elim (aligned_scan_lem m n alignment left (i + 1) b) [
              | inl t ↦ inl (record {
                s = t.s;
                above = omega (arith, t.above);
                address = t.address;
                aligned = t.aligned;
                free = t.free;
                first = λ k lo hi. elim (Bool-cases (i == k)) [
                  | inl same ↦
                      subst (λ (k : ℕ). IsBlocked m n alignment k) (ground arith)
                        (is_start-IsBlocked m n alignment i not_it)
                  | inr other ↦ t.first k (ground arith) hi
                ];
                after = t.after;
              })
              | inr f ↦ inr (record {
                nothing = f.nothing;
                full = λ k lo hi. elim (Bool-cases (i == k)) [
                  | inl same ↦
                      subst (λ (k : ℕ). IsBlocked m n alignment k) (ground arith)
                        (is_start-IsBlocked m n alignment i not_it)
                  | inr other ↦ f.full k (ground arith) (omega arith)
                ];
              })
            ])
    ]

-- `allocate_aligned` takes the first page at an aligned address that begins a run of `n` free pages, and marks exactly that run used; or there is none, and nothing changes. The
-- alignment is not 0.
pub allocate_aligned_lem :
    (m : RamManager) (n alignment : ℕ)
    → IsBytes m.bitmap
    → 0 < alignment
    → TakesAligned m n alignment 0 (allocate_aligned m n alignment)
      ⊎ RefusesAligned m n alignment 0 (0 + m.total_sectors) (allocate_aligned m n alignment)
unfolding allocate_aligned
allocate_aligned_lem m n alignment b pos = aligned_scan_lem m n alignment m.total_sectors 0 b
