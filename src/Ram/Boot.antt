-- ===== src/Ram/Boot.antt =====
-- kernel/src/main.rs, `kmain`: the bitmap is built from the firmware's memory map. Its entries are
-- `desc_size` bytes apart; the type stands at offset 0, the first address at 8, the pages at 24.
-- A `desc_size` of 0 divides by zero in the source; here it gives no entry.
use forward_os_kernel_base.Base.{◌^◌}
use forward_os_kernel_base.Base.{ℕ, zero, suc, ◌+◌, ◌↔◌, ◌*◌, ◌/◌, ◌%◌, ◌≤◌, ◌<◌}
use forward_os_kernel_base.Base.{bit_and, ◌≡◌, refl, ◌∙◌, ap, subst, ◌⊎◌, inl, inr, arith}
use forward_os_kernel_base.Base.{Bool, true, false, not, ◌&&◌, ltb, leb, ◌==◌, if◌then◌else◌}
use forward_os_kernel_base.Base.{Bytes, IsBytes, ◌<<◌, Bool-cases, ==→≡, u64, read_u32, read_u64}
use native.Mathlib.Decide.{ℕ_discrete, dec_lt}
use forward_os_kernel_base.Base.Bits.{holds_below, holds_below_at}
use forward_os_kernel_base.Ram
use forward_os_kernel_base.Ram.{RamManager, is_used, mark_free}
use forward_os_kernel_base.Ram.Marks.{is_used-mark_free, mark_free-IsBytes, total-mark_free}

pub record MemoryMap : Type 0 where
  pub bytes : Bytes
  pub len : ℕ
  pub desc_size : ℕ

abbrev pub conventional : ℕ
conventional = 7

-- Pages below this address are kept for the kernel.
abbrev pub reserved_end : ℕ
reserved_end = 0x4000000

unfoldable pub kind : MemoryMap → ℕ → ℕ
kind mmap i = read_u32 mmap.bytes (i * mmap.desc_size)

unfoldable pub start : MemoryMap → ℕ → ℕ
start mmap i = read_u64 mmap.bytes (i * mmap.desc_size + 8)

unfoldable pub pages : MemoryMap → ℕ → ℕ
pages mmap i = read_u64 mmap.bytes (i * mmap.desc_size + 24)

-- The two loops over the entries, at entry `i` with `left` to go.
unfoldable pub sum_ram : MemoryMap → ℕ → ℕ → ℕ → ℕ
sum_ram mmap zero i total = total
sum_ram mmap (suc left) i total =
    sum_ram mmap left (i + 1)
      (if kind mmap i == conventional then u64 (total + u64 (pages mmap i * 4096)) else total)

abbrev pub page_addr : ℕ → ℕ → ℕ
page_addr first j = u64 (first + u64 (j * 4096))

pub release_pages : RamManager → ℕ → ℕ → ℕ → RamManager
release_pages m first zero j = m
release_pages m first (suc left) j =
    let addr = page_addr first j in
    release_pages (if leb reserved_end addr then mark_free m (addr / 4096) else m) first left
      (j + 1)

pub release_map : RamManager → MemoryMap → ℕ → ℕ → RamManager
unfolding release_pages
release_map m mmap zero i = m
release_map m mmap (suc left) i =
    release_map
      (if kind mmap i == conventional then release_pages m (start mmap i) (pages mmap i) 0 else m)
      mmap left (i + 1)

pub init_ram : Bytes → MemoryMap → RamManager
unfolding sum_ram release_map
init_ram old mmap =
    let count = mmap.len / mmap.desc_size in
    release_map (Ram.new old (sum_ram mmap count 0 0)) mmap count 0

-- Page `p` is page `k` of the region, and lies behind the reserved part.
pub record IsPageOf (first k p : ℕ) : Type 0 where
  pub behind : reserved_end ≤ page_addr first k
  pub page : page_addr first k / 4096 ≡ p

release_one :
    (m : RamManager) (addr p : ℕ)
    → IsBytes m.bitmap
    → is_used (if leb reserved_end addr then mark_free m (addr / 4096) else m) p ≡ (
        if leb reserved_end addr && (addr / 4096 == p) && ltb p m.total_sectors
        then false
        else is_used m p)
release_one m addr p bytes = ground (arith, is_used-mark_free m (addr / 4096) p bytes)

-- What a stage of the boot did to the bitmap, `Covered p` saying which pages it was to free.
pub record Released (m m' : RamManager) (Covered : ℕ → Type 0) : Type 0 where
  pub bytes : IsBytes m'.bitmap
  pub total : m'.total_sectors ≡ m.total_sectors
  pub stays : (p : ℕ) → is_used m p ≡ false → is_used m' p ≡ false
  pub frees : (p : ℕ) → Covered p → p < m.total_sectors → is_used m' p ≡ false
  pub only : (p : ℕ) → is_used m' p ≡ false → (is_used m p ≡ false) ⊎ Covered p

-- Two stages in a row, where `C` is what either covers.
Released-then :
    {m m₁ m₂ : RamManager} {A B : ℕ → Type 0} (C : ℕ → Type 0)
    → Released m m₁ A
    → Released m₁ m₂ B
    → ((p : ℕ) → C p → A p ⊎ B p)
    → ((p : ℕ) → A p ⊎ B p → C p)
    → Released m m₂ C
Released-then C a b split join = record {
  bytes = b.bytes;
  total = b.total ∙ a.total;
  stays = λ p h. b.stays p (a.stays p h);
  frees = λ p c below. elim (split p c) [
    | inl x ↦ b.stays p (a.frees p x below)
    | inr y ↦ b.frees p y (omega (arith, a.total))
  ];
  only = λ p h. elim (b.only p h) [
    | inl before ↦ elim (a.only p before) [ inl old ↦ inl old | inr x ↦ inr (join p (inl x)) ]
    | inr y ↦ inr (join p (inr y))
  ];
}

Released-nothing :
    {m : RamManager} (C : ℕ → Type 0) → IsBytes m.bitmap → ((p : ℕ) → ¬ C p) → Released m m C
Released-nothing C b empty = record {
  bytes = b;
  total = refl;
  stays = λ p h. h;
  frees = λ p c below. absurd (empty p c);
  only = λ p h. inl h;
}

release_page_lem :
    (m : RamManager) (first j : ℕ)
    → IsBytes m.bitmap
    → let addr = page_addr first j in
      Released m (if leb reserved_end addr then mark_free m (addr / 4096) else m) (IsPageOf first j)
release_page_lem m first j b = record {
  bytes = elim (Bool-cases (leb reserved_end addr)) [
    | inl h ↦ rw h (mark_free-IsBytes m (addr / 4096) b)
    | inr h ↦ rw h b
  ];
  total = ground (arith, total-mark_free m (addr / 4096));
  stays = λ p h. ground (arith, release_one m addr p b);
  frees = λ p c below. ground (arith, release_one m addr p b, c.behind, c.page);
  only = λ p h. elim (Bool-cases (leb reserved_end addr && (addr / 4096 == p))) [
    | inl here ↦ inr (record { behind = ground arith; page = ground arith })
    | inr other ↦ inl (ground (arith, release_one m addr p b))
  ];
}
  where
    addr : ℕ
    addr = page_addr first j

abbrev pub InRegion : ℕ → ℕ → ℕ → ℕ → Type 0
InRegion first j left p = (k : ℕ) × (j ≤ k) × (k < j + left) × IsPageOf first k p

release_pages_lem :
    (m : RamManager) (first left j : ℕ)
    → IsBytes m.bitmap
    → Released m (release_pages m first left j) (InRegion first j left)
unfolding release_pages
release_pages_lem m first zero j b = Released-nothing _ b (λ p (k, lo, hi, h). omega arith)
release_pages_lem m first (suc left) j b =
    let one = release_page_lem m first j b in
    Released-then (InRegion first j (suc left)) one
      (release_pages_lem
        (if leb reserved_end (page_addr first j) then mark_free m (page_addr first j / 4096) else m)
        first left (j + 1) one.bytes)
      (λ p (k, lo, hi, h). elim (ℕ_discrete k j) [
        | yes e ↦ inl (rw e at h)
        | no ne ↦ inr (k, omega arith, omega arith, h)
      ])
      (λ p. elim [
        | inl h ↦ (j, omega arith, omega arith, h)
        | inr (k, lo, hi, h) ↦ (k, omega arith, omega arith, h)
      ])

-- Page `p` lies in a region of conventional memory that the map's entries `i .. i + left` tell of.
abbrev pub InMap : MemoryMap → ℕ → ℕ → ℕ → Type 0
InMap mmap i left p =
    (e : ℕ) × (i ≤ e)
    × (e < i + left)
    × (kind mmap e ≡ conventional)
    × InRegion (start mmap e) 0 (pages mmap e) p

Released-map :
    {m m' : RamManager} {A : ℕ → Type 0} (C : ℕ → Type 0)
    → Released m m' A
    → ((p : ℕ) → C p → A p)
    → ((p : ℕ) → A p → C p)
    → Released m m' C
Released-map C a from to = record {
  bytes = a.bytes;
  total = a.total;
  stays = a.stays;
  frees = λ p c below. a.frees p (from p c) below;
  only = λ p h. elim (a.only p h) [ inl old ↦ inl old | inr x ↦ inr (to p x) ];
}

release_entry_lem :
    (m : RamManager) (mmap : MemoryMap) (i : ℕ)
    → IsBytes m.bitmap
    → Released m
        (if kind mmap i == conventional then release_pages m (start mmap i) (pages mmap i) 0 else m)
        (InMap mmap i 1)
release_entry_lem m mmap i b = elim (Bool-cases (kind mmap i == conventional)) [
  | inl e ↦ rw e (
      Released-map (InMap mmap i 1) (release_pages_lem m (start mmap i) (pages mmap i) 0 b)
        (λ p (x, lo, hi, k, h).
          subst (λ x. InRegion (start mmap x) 0 (pages mmap x) p) (omega arith) h)
        (λ p h. (i, omega arith, omega arith, ==→≡ _ _ e, h)))
  | inr ne ↦ rw ne (
      Released-nothing (InMap mmap i 1) b
        λ p (x, lo, hi, k, h). let e : x ≡ i = omega arith in ground (arith, ap (kind mmap) e))
]

release_map_lem :
    (m : RamManager) (mmap : MemoryMap) (left i : ℕ)
    → IsBytes m.bitmap
    → Released m (release_map m mmap left i) (InMap mmap i left)
unfolding release_map
release_map_lem m mmap zero i b = Released-nothing _ b (λ p (x, lo, hi, k, h). omega arith)
release_map_lem m mmap (suc left) i b =
    let one = release_entry_lem m mmap i b in
    Released-then (InMap mmap i (suc left)) one
      (release_map_lem
        (if kind mmap i == conventional then release_pages m (start mmap i) (pages mmap i) 0 else m)
        mmap left (i + 1) one.bytes)
      (λ p (x, lo, hi, k, h). elim (dec_lt i x) [
        | yes later ↦ inr (x, omega arith, omega arith, k, h)
        | no here ↦ inl (x, omega arith, omega arith, k, h)
      ])
      (λ p. elim [
        | inl (x, lo, hi, k, h) ↦ (x, omega arith, omega arith, k, h)
        | inr (x, lo, hi, k, h) ↦ (x, omega arith, omega arith, k, h)
      ])

full_byte : (b : ℕ) → b < 8 → (bit_and 0xff (1 << b) == 0) ≡ false
unfolding holds_below
full_byte b h = ==-not (holds_below_at 8 (λ b. not (bit_and 0xff (1 << b) == 0)) b refl h)
  where
    ==-not : {x : Bool} → not x ≡ true → x ≡ false
    ==-not h = ground arith

new-is_used : (old : Bytes) (total p : ℕ) → is_used (Ram.new old total) p ≡ true
unfolding is_used Ram.new
new-is_used old total p = elim (Bool-cases (leb (total / 4096) p)) [
  | inl off ↦ ground arith
  | inr on ↦ ground (arith, full_byte (p % 8) (omega arith))
]

new-IsBytes : (old : Bytes) (total : ℕ) → IsBytes old → IsBytes (Ram.new old total).bitmap
unfolding Ram.new
new-IsBytes old total b i = ground (arith, b i)

-- The bytes of conventional memory that `left` entries from `i` on tell of.
abbrev pub conventional_bytes : MemoryMap → ℕ → ℕ → ℕ
conventional_bytes mmap zero i = 0
conventional_bytes mmap (suc left) i =
    (if read_u32 mmap.bytes (i * mmap.desc_size) == 7
      then read_u64 mmap.bytes (i * mmap.desc_size + 24) * 4096
      else 0)
    + conventional_bytes mmap left (i + 1)

sum_wraps : (t n r : ℕ) → u64 (u64 (t + u64 n) + r) ≡ u64 (t + (n + r))
sum_wraps t n r = omega arith

sum_ram_lem :
    (mmap : MemoryMap) (left i total : ℕ)
    → total < 2 ^ 64
    → sum_ram mmap left i total ≡ u64 (total + conventional_bytes mmap left i)
unfolding sum_ram kind pages
sum_ram_lem mmap zero i total small = omega arith
sum_ram_lem mmap (suc left) i total small =
    elim (Bool-cases (read_u32 mmap.bytes (i * mmap.desc_size) == 7)) [
      | inl counts ↦
          let n = read_u64 mmap.bytes (i * mmap.desc_size + 24) * 4096 in
          rw (counts, sum_ram)
            (sum_ram_lem mmap left (i + 1) (u64 (total + u64 n)) (omega arith)
              ∙ sum_wraps total n (conventional_bytes mmap left (i + 1)))
      | inr other ↦ rw (other, sum_ram) (sum_ram_lem mmap left (i + 1) total small ∙ omega arith)
    ]

-- Page `p` is one of the pages of an entry of type 7 among the first `count`, and its address, which
-- may wrap, is not below 64 MiB.
abbrev pub IsConventional : MemoryMap → ℕ → ℕ → Type 0
IsConventional mmap count p =
    (e : ℕ) × (k : ℕ) × (e < count)
    × (read_u32 mmap.bytes (e * mmap.desc_size) ≡ 7)
    × (k < read_u64 mmap.bytes (e * mmap.desc_size + 24))
    × (2 ^ 26 ≤ (read_u64 mmap.bytes (e * mmap.desc_size + 8) + k * 2 ^ 12) % 2 ^ 64)
    × ((read_u64 mmap.bytes (e * mmap.desc_size + 8) + k * 2 ^ 12) % 2 ^ 64 / 2 ^ 12 ≡ p)

InMap-IsConventional :
    (mmap : MemoryMap) (count p : ℕ) → InMap mmap 0 count p ↔ IsConventional mmap count p
unfolding kind start pages
InMap-IsConventional mmap count p = (
  λ (e, lo, hi, seven, (k, low, high, page)).
      (e, k, omega arith, seven, omega arith, omega (arith, page.behind), omega (arith, page.page)),
  λ (e, k, hi, seven, high, behind, place). (
    e,
    omega arith,
    omega arith,
    seven,
    (
      k,
      omega arith,
      omega arith,
      record { behind = omega (arith, behind); page = omega (arith, place) },
    ),
  ),
)

-- After the boot, a page whose number is below the amount of conventional memory (in pages, the sum
-- in 64 bits of what the map's entries of type 7 tell) is free exactly when it is a page of such an
-- entry and lies at 64 MiB or above.
pub init_ram_lem :
    (old : Bytes) (mmap : MemoryMap) (p : ℕ)
    → IsBytes old
    → p < conventional_bytes mmap (mmap.len / mmap.desc_size) 0 % 2 ^ 64 / 4096
    → (is_used (init_ram old mmap) p ≡ false) ↔ IsConventional mmap (mmap.len / mmap.desc_size) p
unfolding init_ram Ram.new
init_ram_lem old mmap p b below =
    let count = mmap.len / mmap.desc_size in
    let ram = sum_ram mmap count 0 0 in
    let ram_is : ram ≡ conventional_bytes mmap count 0 % 2 ^ 64 =
      sum_ram_lem mmap count 0 0 (omega arith) ∙ omega arith in
    let (to, from) = InMap-IsConventional mmap count p in
    let r = release_map_lem (Ram.new old ram) mmap count 0 (new-IsBytes old _ b) in
    (
      λ h. elim (r.only p h) [
        | inl old_free ↦ ground (arith, new-is_used old ram p)
        | inr c ↦ to c
      ],
      λ c. r.frees p (from c) (omega (arith, below, ram_is)),
    )
