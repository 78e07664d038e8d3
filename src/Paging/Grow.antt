-- ===== src/Paging/Grow.antt =====
-- The tables grow by one directory for each GiB, in pages that were free.
use forward_os_kernel_base.Base.{
  ℕ, suc, ◌+◌, ◌*◌, ◌^◌, ◌≤◌, ◌<◌, ◌≡◌, ◌≢◌, refl, sym, ap, subst, ◌∙◌, arith, IsBytes,
}
use forward_os_kernel_base.Base.{true, false, ◌==◌, Bool-cases, inl, inr, ==→≡, ==→≢, some}
use mathlib.Core.Bool.{false≢true}
use native.Mathlib.Decide.{dec_lt}
use forward_os_kernel_base.Ram.{RamManager, allocate_sectors, is_used}
use forward_os_kernel_base.Ram.Allocate.{IsFreeRun, allocate_sectors_lem}
use forward_os_kernel_base.Paging.{Words, clear, set_entry, table_entry, fill_directory}
use forward_os_kernel_base.Paging.Tables.{
  table_entry_lem, huge_entry_lem, set_entry-at, set_entry-other, clear-other, fill_directory-out,
  fill_directory-in,
}

abbrev pub after : RamManager → RamManager
after m = (allocate_sectors m 1).1

-- An allocation of one page, while there is a run of free ones.
pub record Fresh (m : RamManager) (s k : ℕ) : Type 0 where
  pub page : ℕ
  pub found : (allocate_sectors m 1).0 ≡ some (page * 4096)
  pub small : page < 2 ^ 40
  pub free : is_used m page ≡ false
  pub used : is_used (after m) page ≡ true
  pub keeps : (p : ℕ) → is_used m p ≡ true → is_used (after m) p ≡ true
  pub bytes : IsBytes (after m).bitmap
  pub total : (after m).total_sectors ≤ 2 ^ 40
  pub run : IsFreeRun (after m) (s + 1) k

pub fresh :
    (m : RamManager) (s k : ℕ)
    → IsBytes m.bitmap
    → m.total_sectors ≤ 2 ^ 40
    → IsFreeRun m s (suc k)
    → Fresh m s k
fresh m s k bytes total run =
    let one : IsFreeRun m s 1 = record {
      fits = omega (arith, run.fits);
      free = λ j from to. run.free j from (omega arith);
    } in
    elim (allocate_sectors_lem m 1 bytes (omega arith)) [
      | inr refused ↦ absurd (refused.full s one)
      | inl t ↦
          let room : t.s + 1 ≤ m.total_sectors = t.run.fits in
          let low : t.s ≤ s = elim (dec_lt s t.s) [
            | yes earlier ↦ absurd (t.first s earlier one)
            | no late ↦ omega arith
          ] in
          record {
            page = t.s;
            found = t.address ∙ ap some (omega (arith, room, total));
            small = omega (arith, room, total);
            free = t.run.free t.s (omega arith) (omega arith);
            used = ground (arith, t.after.reads t.s);
            keeps = λ p u. ground (arith, t.after.reads p, u);
            bytes = t.after.bytes;
            total = omega (arith, t.after.total, total);
            run = record {
              fits = omega (arith, t.after.total, run.fits);
              free = λ j from to. ground (arith, t.after.reads j, run.free j, low);
            };
          }
    ]

-- The directory of one GiB, in a page of its own.
pub record Gib (mgr : RamManager) (mem : Words) (P₄ P₃ j : ℕ) : Type 0 where
  pub pd : ℕ
  pub small : pd < 2 ^ 40
  pub used : is_used mgr pd ≡ true
  pub not_pml4 : pd ≢ P₄
  pub not_pdpt : pd ≢ P₃
  pub entry : mem (P₃ * 4096 + j * 8) ≡ pd * 4096 + 7
  pub pages : (i : ℕ) → i < 512 → mem (pd * 4096 + i * 8) ≡ j * 2 ^ 30 + i * 2 ^ 21 + 0x9F

-- The first `n` GiB are mapped, by tables in the pages `P₄` and `P₃`.
pub record Mapped (mgr : RamManager) (mem : Words) (P₄ P₃ n : ℕ) : Type 0 where
  pub used₄ : is_used mgr P₄ ≡ true
  pub used₃ : is_used mgr P₃ ≡ true
  pub apart : P₄ ≢ P₃
  pub small₃ : P₃ < 2 ^ 40
  pub root : mem (P₄ * 4096) ≡ P₃ * 4096 + 7
  pub gib : (j : ℕ) → j < n → Gib mgr mem P₄ P₃ j

pub used≢free : (m : RamManager) (p q : ℕ) → is_used m p ≡ true → is_used m q ≡ false → p ≢ q
used≢free m p q u f e = false≢true (sym f ∙ ap (is_used m) (sym e) ∙ u)

abbrev pub with_directory : ℕ → ℕ → ℕ → Words → Words
with_directory P₃ j q mem =
    fill_directory (q * 4096) j 0 512
      (set_entry (P₃ * 4096) j (table_entry (q * 4096)) (clear (q * 4096) mem))

-- The words that a new directory leaves.
with_directory-other :
    (P₃ j q p i : ℕ) (mem : Words)
    → i < 512
    → j < 512
    → p ≢ q
    → (p ≡ P₃ → i ≢ j)
    → with_directory P₃ j q mem (p * 4096 + i * 8) ≡ mem (p * 4096 + i * 8)
with_directory-other P₃ j q p i mem ih jh pq other =
    fill_directory-out (q * 4096) j 0 512 (p * 4096 + i * 8)
      (set_entry (P₃ * 4096) j (table_entry (q * 4096)) (clear (q * 4096) mem))
      (λ k from to meets. pq (omega arith))
    ∙ set_entry-other (P₃ * 4096) j (table_entry (q * 4096)) (p * 4096 + i * 8)
        (clear (q * 4096) mem) (λ meets. other (omega arith) (omega arith))
    ∙ clear-other (q * 4096) (p * 4096 + i * 8) mem (ground (arith, pq))

module _ (mgr : RamManager) (mem : Words) (P₄ P₃ j s k : ℕ) (b : Mapped mgr mem P₄ P₃ j)
    (small : j < 64) (f : Fresh mgr s k) where
  abbrev mem' : Words
  mem' = with_directory P₃ j f.page mem

  kept-Gib : (j' : ℕ) → j' < j → Gib (after mgr) mem' P₄ P₃ j'
  kept-Gib j' below =
      let g = b.gib j' below in
      record {
        pd = g.pd;
        small = g.small;
        used = f.keeps g.pd g.used;
        not_pml4 = g.not_pml4;
        not_pdpt = g.not_pdpt;
        entry =
            with_directory-other P₃ j f.page P₃ j' mem (omega arith) (omega arith)
              (used≢free mgr P₃ f.page b.used₃ f.free) (λ e same. omega arith)
            ∙ g.entry;
        pages = λ i ih.
            with_directory-other P₃ j f.page g.pd i mem ih (omega arith)
              (used≢free mgr g.pd f.page g.used f.free) (λ e. absurd (g.not_pdpt e))
            ∙ g.pages i ih;
      }

  new-Gib : Gib (after mgr) mem' P₄ P₃ j
  new-Gib = record {
    pd = f.page;
    small = f.small;
    used = f.used;
    not_pml4 = λ e. used≢free mgr P₄ f.page b.used₄ f.free (sym e);
    not_pdpt = λ e. used≢free mgr P₃ f.page b.used₃ f.free (sym e);
    entry =
        fill_directory-out (f.page * 4096) j 0 512 (P₃ * 4096 + j * 8)
          (set_entry (P₃ * 4096) j (table_entry (f.page * 4096)) (clear (f.page * 4096) mem))
          (λ i from to meets. used≢free mgr P₃ f.page b.used₃ f.free (omega arith))
        ∙ set_entry-at (P₃ * 4096) j (table_entry (f.page * 4096)) (P₃ * 4096 + j * 8)
            (clear (f.page * 4096) mem) refl
        ∙ table_entry_lem f.page f.small;
    pages = λ i ih.
        fill_directory-in (f.page * 4096) j 0 512 i
          (set_entry (P₃ * 4096) j (table_entry (f.page * 4096)) (clear (f.page * 4096) mem))
          (omega arith) (omega arith)
        ∙ huge_entry_lem j i small ih;
  }

  pub map-Mapped : Mapped (after mgr) mem' P₄ P₃ (suc j)
  map-Mapped = record {
    used₄ = f.keeps P₄ b.used₄;
    used₃ = f.keeps P₃ b.used₃;
    apart = b.apart;
    small₃ = b.small₃;
    root =
        ap mem' (omega arith)
        ∙ with_directory-other P₃ j f.page P₄ 0 mem (omega arith) (omega arith)
            (used≢free mgr P₄ f.page b.used₄ f.free) (λ e. absurd (b.apart e))
        ∙ ap mem (omega arith)
        ∙ b.root;
    gib = λ j' below. elim (Bool-cases (j' == j)) [
      | inl same ↦ subst (Gib (after mgr) mem' P₄ P₃) (sym (==→≡ j' j same)) new-Gib
      | inr other ↦ kept-Gib j' (omega (arith, ==→≢ j' j other))
    ];
  }
