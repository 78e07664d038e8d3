-- ===== src/Write/Extend.antt =====
-- `sys_write_file` goes on along a chain, and makes it longer where it ends.
use forward_os_kernel_base.Base.{ℕ, ◌*◌, ◌%◌, ◌^◌, ◌≤◌, ◌<◌, ◌≡◌, refl, sym, ap, subst, ◌∙◌, arith}
use forward_os_kernel_base.Base.{
  Bool, true, false, not, ◌&&◌, ◌||◌, ltb, ◌==◌, ==→≡, in_range, if◌then◌else◌, if-eq_true,
  if-eq_false, Bool-cases, Option-cases, inl, inr, Option, none, some,
}
use mathlib.Core.Bool.{false≢true}
use forward_os_kernel_base.Disk.{Drive, Machine, IsSound}
use forward_os_kernel_base.Fat.{
  SimpleFileSystem, fat_sector, fat_offset, entry_mask, end_of_chain, next_cluster,
}
use forward_os_kernel_base.Fat.Chain.{entry, successor, next_cluster-successor}
use forward_os_kernel_base.Write.{alloc_cluster, set_fat_entry, extend}
use forward_os_kernel_base.Write.Alloc.{hit, miss, is_free, alloc_cluster_lem}
use forward_os_kernel_base.Write.Entry.{set_fat_entry_lem}

-- Whether a byte of the disk is one of a cluster's entry.
abbrev pub in_entry : SimpleFileSystem → ℕ → ℕ → ℕ → Bool
in_entry fs cluster l i = (fat_sector fs cluster == l) && in_range (fat_offset cluster) 4 i

-- The drive `d'` is `d` with the chain that ended at `cluster` one longer, by the cluster `c`.
pub record Grown (fs : SimpleFileSystem) (cluster c : ℕ) (d d' : Drive) : Type 0 where
  pub sound : IsSound d'
  pub free : is_free fs d c ≡ true
  pub first : (j : ℕ) → j < c → is_free fs d j ≡ false
  pub link : successor fs d' cluster ≡ some c
  pub last : successor fs d' c ≡ none
  pub others :
      (k : ℕ)
      → k < 2 ^ 32
      → ((cluster == k) || (c == k)) ≡ false
      → successor fs d' k ≡ successor fs d k
  pub elsewhere :
      (l i : ℕ)
      → (in_entry fs cluster l i || in_entry fs c l i) ≡ false
      → d'.sector l i ≡ d.sector l i

-- What `extend` comes to at a cluster.
pub data Extends (fs : SimpleFileSystem) (cluster : ℕ) (d : Drive) (r : Option ℕ × Machine)
    : Type 0 where
  onward :
      (c : ℕ)
      → successor fs d cluster ≡ some c
      → r.0 ≡ some c
      → r.1.drive ≡ d
      → Extends fs cluster d r
  grown :
      (c : ℕ)
      → successor fs d cluster ≡ none
      → r.0 ≡ some c
      → Grown fs cluster c d r.1.drive
      → Extends fs cluster d r
  full :
      successor fs d cluster ≡ none
      → ((j : ℕ) → j < fs.fat_sz32 * 128 → is_free fs d j ≡ false)
      → r.0 ≡ none
      → r.1.drive ≡ d
      → Extends fs cluster d r

or_left : (a b : Bool) → (a || b) ≡ false → a ≡ false
or_left a b h = ground arith

or_right : (a b : Bool) → (a || b) ≡ false → b ≡ false
or_right a b h = ground arith

successor_of :
    (fs : SimpleFileSystem) (d : Drive) (k e : ℕ)
    → entry fs d k ≡ e
    → successor fs d k ≡ (if ltb e end_of_chain && not (e == 0) then some e else none)
unfolding successor
successor_of fs d k e h =
    ap (λ (x : ℕ). if ltb x end_of_chain && not (x == 0) then some x else none) h

pub successor-entry :
    (fs : SimpleFileSystem) (d d' : Drive) (k : ℕ)
    → entry fs d' k ≡ entry fs d k
    → successor fs d' k ≡ successor fs d k
unfolding successor
successor-entry fs d d' k h =
    ap (λ (x : ℕ). if ltb x end_of_chain && not (x == 0) then some x else none) h

-- The machine behind the first write of an entry, and behind the second.
abbrev with_link : SimpleFileSystem → ℕ → ℕ → Machine → Machine
with_link fs cluster c m = set_fat_entry fs cluster c m

abbrev with_end : SimpleFileSystem → ℕ → ℕ → Machine → Machine
with_end fs cluster c m = set_fat_entry fs c entry_mask (with_link fs cluster c m)

module _ (fs : SimpleFileSystem) (cluster c : ℕ) (m : Machine) (sound : IsSound m.drive)
    (hk : cluster < 2 ^ 32) (small : c < end_of_chain) (distinct : (cluster == c) ≡ false)
    (two : 2 ≤ c) where
  abbrev linked : Machine
  linked = with_link fs cluster c m

  abbrev ended : Machine
  ended = with_end fs cluster c m

  linked-IsSound : IsSound linked.drive
  linked-IsSound = (set_fat_entry_lem fs cluster c cluster 0 0 m sound hk hk).0

  -- The entries behind both writes.
  entry_after :
      (k : ℕ)
      → k < 2 ^ 32
      → entry fs ended.drive k ≡ (
          if c == k
          then entry_mask % 2 ^ 28
          else if cluster == k
          then c % 2 ^ 28
          else entry fs m.drive k)
  entry_after k h =
      (set_fat_entry_lem fs c entry_mask k 0 0 linked linked-IsSound (omega arith) h).1
      ∙ ap (λ (n : ℕ). if c == k then entry_mask % 2 ^ 28 else n)
          (set_fat_entry_lem fs cluster c k 0 0 m sound hk h).1

  outside :
      (l i : ℕ)
      → (in_entry fs cluster l i || in_entry fs c l i) ≡ false
      → ended.drive.sector l i ≡ m.drive.sector l i
  outside l i h =
      let a = or_left (in_entry fs cluster l i) (in_entry fs c l i) h in
      let b = or_right (in_entry fs cluster l i) (in_entry fs c l i) h in
      (set_fat_entry_lem fs c entry_mask c l i linked linked-IsSound (omega arith) (omega arith)).2
      ∙ if-eq_false _ b
      ∙ (set_fat_entry_lem fs cluster c cluster l i m sound hk hk).2
      ∙ if-eq_false _ a

  link_to_new : successor fs ended.drive cluster ≡ some c
  link_to_new =
      let other : (c == cluster) ≡ false = ground (arith, distinct) in
      let same : (cluster == cluster) ≡ true = ground arith in
      let e : entry fs ended.drive cluster ≡ c =
        entry_after cluster hk ∙ (if-eq_false _ other ∙ (if-eq_true _ same ∙ omega arith)) in
      let good : (ltb c end_of_chain && not (c == 0)) ≡ true = ground (arith, small, two) in
      successor_of fs ended.drive cluster c e ∙ if-eq_true _ good

  end_at_new : successor fs ended.drive c ≡ none
  end_at_new =
      let same : (c == c) ≡ true = ground arith in
      successor_of fs ended.drive c (entry_mask % 2 ^ 28)
        (entry_after c (omega arith) ∙ if-eq_true _ same)

  others_stay :
      (k : ℕ)
      → k < 2 ^ 32
      → ((cluster == k) || (c == k)) ≡ false
      → successor fs ended.drive k ≡ successor fs m.drive k
  others_stay k h away = successor-entry fs m.drive ended.drive k (
      entry_after k h
      ∙ (if-eq_false _ (or_right (cluster == k) (c == k) away)
          ∙ if-eq_false _ (or_left (cluster == k) (c == k) away)))

  ended-Grown :
      is_free fs m.drive c ≡ true
      → ((j : ℕ) → j < c → is_free fs m.drive j ≡ false)
      → Grown fs cluster c m.drive ended.drive
  ended-Grown free first = record {
    sound =
        (set_fat_entry_lem fs c entry_mask c 0 0 linked linked-IsSound (omega arith)
          (omega arith)).0;
    free = free;
    first = first;
    link = link_to_new;
    last = end_at_new;
    others = others_stay;
    elsewhere = outside;
  }

module _ (fs : SimpleFileSystem) (cluster : ℕ) (m : Machine) where
  pub extend_onward :
      (c : ℕ)
      → (next_cluster fs cluster m).0 ≡ some c
      → extend fs cluster m ≡ (some c, (next_cluster fs cluster m).1)
  unfolding extend
  extend_onward c e = rw (e, extend) refl

  abbrev after_search : Option ℕ × Machine
  after_search = alloc_cluster fs (next_cluster fs cluster m).1

  extend_full :
      (next_cluster fs cluster m).0 ≡ none
      → after_search.0 ≡ none
      → extend fs cluster m ≡ (none, after_search.1)
  unfolding extend
  extend_full e f = rw (e, f, extend) refl

  extend_fresh :
      (c : ℕ)
      → (next_cluster fs cluster m).0 ≡ none
      → after_search.0 ≡ some c
      → extend fs cluster m
        ≡ (some c, set_fat_entry fs c entry_mask (set_fat_entry fs cluster c after_search.1))
  unfolding extend
  extend_fresh c e f = rw (e, f, extend) refl

used_apart :
    (fs : SimpleFileSystem) (d : Drive) (k c : ℕ)
    → is_free fs d k ≡ false
    → is_free fs d c ≡ true
    → (k == c) ≡ false
used_apart fs d k c used free = elim (Bool-cases (k == c)) [
  | inr other ↦ other
  | inl same ↦ absurd (false≢true (sym used ∙ (ap (is_free fs d) (==→≡ k c same) ∙ free)))
]

two_at_least : (fs : SimpleFileSystem) (d : Drive) (c : ℕ) → is_free fs d c ≡ true → 2 ≤ c
unfolding is_free
two_at_least fs d c h = ground (arith, h)

-- Where `write_file` wants the cluster behind one that is in use, on a sound drive, it gets the
-- successor, and nothing changes; or the cluster ends its chain and gets the first free cluster for
-- its successor, which ends the chain from then on, while no other cluster's successor changes and
-- no byte of the disk but those of the two entries; or there is no free cluster, and nothing
-- changes. The clusters' numbers are below that of the end of a chain. The disk is what it is when
-- the last write command is done, which `write_sector` does not wait for; each of the commands before
-- it is done in the wait of the read that follows.
pub extend_lem :
    (fs : SimpleFileSystem) (cluster : ℕ) (m : Machine)
    → IsSound m.drive
    → cluster < 2 ^ 32
    → fs.fat_sz32 * 128 ≤ end_of_chain
    → is_free fs m.drive cluster ≡ false
    → Extends fs cluster m.drive (extend fs cluster m)
extend_lem fs cluster m sound hk fits used =
    let (next, drive) = next_cluster-successor fs cluster m m.drive sound refl in
    let search =
      alloc_cluster_lem fs m.drive (next_cluster fs cluster m).1 sound drive (omega arith) in
    elim (Option-cases (successor fs m.drive cluster)) [
      | inr (c, e) ↦
          let r = extend_onward fs cluster m c (next ∙ e) in
          onward c e (ap (λ x. x.0) r) (ap (λ x. x.1.drive) r ∙ drive)
      | inl e ↦ elim search.0 [
        | miss f nothing ↦
            let r = extend_full fs cluster m (next ∙ e) f in
            full e (λ j h. nothing j (omega arith) h) (ap (λ x. x.0) r)
              (ap (λ x. x.1.drive) r ∙ search.1)
        | hit c f above below free before ↦
            let r = extend_fresh fs cluster m c (next ∙ e) f in
            let m₂ = (after_search fs cluster m).1 in
            let distinct : (cluster == c) ≡ false = used_apart fs m.drive cluster c used free in
            let here = sym search.1 in
            grown c e (ap (λ x. x.0) r) (
              subst (λ (x : Option ℕ × Machine). Grown fs cluster c m.drive x.1.drive) (sym r)
                (subst (λ (d : Drive). Grown fs cluster c d (with_end fs cluster c m₂).drive)
                  search.1
                  (ended-Grown fs cluster c m₂ (subst IsSound here sound) hk (omega arith) distinct
                    (two_at_least fs m.drive c free)
                    (subst (λ (d : Drive). is_free fs d c ≡ true) here free)
                    (λ j h.
                      subst (λ (d : Drive). is_free fs d j ≡ false) here
                        (before j (omega arith) h)))))
      ]
    ]
