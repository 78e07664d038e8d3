-- ===== src/Ram/Allocate.antt =====
-- `allocate_sectors` takes the first run of free pages that is long enough.
use forward_os_kernel_base.Base.{ℕ, zero, suc, ◌+◌, ◌*◌, ◌≤◌, ◌<◌}
use forward_os_kernel_base.Base.{◌≡◌, refl, ◌⊎◌, inl, inr, arith}
use forward_os_kernel_base.Base.{true, false, ◌||◌, ◌==◌, if◌then◌else◌}
use forward_os_kernel_base.Base.{IsBytes, in_range, Bool-cases, ==→≡, Option, none, some, u64}
use native.Mathlib.Decide.{dec_lt, ℕ_discrete}
use forward_os_kernel_base.Ram.{
  RamManager, is_used, mark_used_run, page_size, allocate_scan, allocate_sectors,
}
use forward_os_kernel_base.Ram.Marks.{AfterRun, mark_used_run_lem}

-- The pages `s .. s + n` exist and are free.
pub record IsFreeRun (m : RamManager) (s n : ℕ) : Type 0 where
  pub fits : s + n ≤ m.total_sectors
  pub free : (j : ℕ) → s ≤ j → j < s + n → is_used m j ≡ false

-- The first run of `n` free pages is `s`: it is handed out, and those pages are used afterwards.
pub record Takes (m : RamManager) (n : ℕ) (r : Option ℕ × RamManager) : Type 0 where
  pub s : ℕ
  pub address : r.0 ≡ some (u64 (s * page_size))
  pub run : IsFreeRun m s n
  pub first : (t : ℕ) → t < s → ¬ IsFreeRun m t n
  pub after : AfterRun m r.1 (λ j. in_range s n j || is_used m j)

-- There is no run of `n` free pages: nothing is handed out or marked.
pub record Refuses (m : RamManager) (n : ℕ) (r : Option ℕ × RamManager) : Type 0 where
  pub nothing : r ≡ (none, m)
  pub full : (t : ℕ) → ¬ IsFreeRun m t n

-- The scan stands at page `i` after `c` free pages in a row; no run begins before those.
record Scan (m : RamManager) (n i c start : ℕ) : Type 0 where
  short : c < n
  begins : (if c == 0 then i else start) + c ≡ i
  streak : (j : ℕ) → i ≤ j + c → j < i → is_used m j ≡ false
  early : (t : ℕ) → t + c < i → ¬ IsFreeRun m t n

module _ (m : RamManager) (n : ℕ) where
  Scan-used : {i c start : ℕ} → Scan m n i c start → is_used m i ≡ true → Scan m n (i + 1) 0 start
  Scan-used {i} {c} v used = record {
    short = omega (arith, v.short);
    begins = ground arith;
    streak = λ j p q. absurd (omega arith);
    early = λ t p r. elim (dec_lt (t + c) i) [
      | yes before ↦ v.early t before r
      | no after ↦ ground (arith, used, v.short, r.free i (omega arith) (omega (arith, v.short)))
    ];
  }

  Scan-free :
      {i c start : ℕ}
      → Scan m n i c start
      → is_used m i ≡ false
      → (c + 1 == n) ≡ false
      → Scan m n (i + 1) (c + 1) (if c == 0 then i else start)
  Scan-free {i} {c} v free more = record {
    short = ground (arith, v.short);
    begins = ground (arith, v.begins);
    streak = λ j p q. elim (ℕ_discrete j i) [
      | yes e ↦ rw e free
      | no ne ↦ v.streak j (omega arith) (omega arith)
    ];
    early = λ t p. v.early t (omega arith);
  }

  Scan-found :
      {i c start : ℕ}
      → Scan m n i c start
      → IsBytes m.bitmap
      → i < m.total_sectors
      → is_used m i ≡ false
      → (c + 1 == n) ≡ true
      → let s = if c == 0 then i else start in
        Takes m n (some (u64 (s * page_size)), mark_used_run m s n)
  Scan-found {i} {c} {start} v bytes below free enough = record {
    s = s;
    address = refl;
    run = record {
      fits = omega (arith, v.begins, ==→≡ (c + 1) n enough);
      free = λ j p q. elim (ℕ_discrete j i) [
        | yes e ↦ rw e free
        | no ne ↦
            v.streak j (omega (arith, v.begins, ==→≡ (c + 1) n enough))
              (omega (arith, v.begins, ==→≡ (c + 1) n enough))
      ];
    };
    first = λ t p. v.early t (omega (arith, v.begins));
    after = mark_used_run_lem m s n bytes;
  }
    where
      s : ℕ
      s = if c == 0 then i else start

  allocate_scan_lem :
      (left i c start : ℕ)
      → IsBytes m.bitmap
      → i + left ≡ m.total_sectors
      → Scan m n i c start
      → Takes m n (allocate_scan m n left i c start)
        ⊎ Refuses m n (allocate_scan m n left i c start)
  unfolding allocate_scan
  allocate_scan_lem zero i c start bytes e v = inr (record {
    nothing = refl;
    full = λ t r. elim (dec_lt (t + c) i) [
      | yes before ↦ v.early t before r
      | no after ↦ omega (arith, v.short, r.fits)
    ];
  })
  allocate_scan_lem (suc left) i c start bytes e v = elim (Bool-cases (is_used m i)) [
    | inl used ↦
        rw (used, allocate_scan)
          (allocate_scan_lem left (i + 1) 0 start bytes (omega arith) (Scan-used v used))
    | inr free ↦ elim (Bool-cases (c + 1 == n)) [
      | inl enough ↦
          rw (free, enough, allocate_scan) (inl (Scan-found v bytes (omega arith) free enough))
      | inr more ↦
          rw (free, more, allocate_scan)
            (allocate_scan_lem left (i + 1) (c + 1) (if c == 0 then i else start) bytes
              (omega arith) (Scan-free v free more))
    ]
  ]

-- For a request of at least one page, `allocate_sectors` takes the first run of free pages that is
-- long enough, and marks exactly that run used; or there is no such run, and nothing changes.
pub allocate_sectors_lem :
    (m : RamManager) (n : ℕ)
    → IsBytes m.bitmap
    → 0 < n
    → Takes m n (allocate_sectors m n) ⊎ Refuses m n (allocate_sectors m n)
unfolding allocate_sectors
allocate_sectors_lem m n bytes pos =
    allocate_scan_lem m n m.total_sectors 0 0 0 bytes (omega arith) (record {
      short = pos;
      begins = refl;
      streak = λ j p q. absurd (omega arith);
      early = λ t p. absurd (omega arith);
    })
