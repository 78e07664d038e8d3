-- ===== src/Write/Chunks.antt =====
-- `write_chunks` over the clusters that a file has already.
use forward_os_kernel_base.Base.{
  ℕ, zero, suc, ◌+◌, ◌-◌, ◌*◌, ◌/◌, ◌%◌, ◌≤◌, ◌<◌, min, ◌≡◌, refl, sym, ap, subst, ◌∙◌, arith,
}
use forward_os_kernel_base.Base.{
  false, ◌==◌, ==→≡, ==→≢, in_range, if◌then◌else◌, if-eq_false, Bool-cases, Option-cases, inl, inr,
  Option, some, Bytes, IsBytes, u64, Outcome, ret,
}
use native.Mathlib.Nat.{mod-eq_of_lt, mod-lt, mul-le-mul_right, div-add-mod'}
use native.Mathlib.Decide.{dec_lt}
use forward_os_kernel_base.Disk.{Drive, Machine}
use forward_os_kernel_base.Fat.{SimpleFileSystem, get_lba_of_cluster, fat_sector}
use forward_os_kernel_base.Fat.Chain.{nth-suc, next_cluster-successor}
use forward_os_kernel_base.File.{cluster_size}
use forward_os_kernel_base.File.Cluster.{run_byte, cluster_byte}
use forward_os_kernel_base.File.Read.{file_byte, file_byte_lem, IsUsable}
use forward_os_kernel_base.Write.{write_cluster, extend, write_chunks}
use forward_os_kernel_base.Write.Cluster.{WritesCluster, write_cluster_lem}
use forward_os_kernel_base.Write.Extend.{extend_onward}
use forward_os_kernel_base.Write.InPlace.{
  IsApart, IsOff, IsOn, Written, nth_same, shifted_range, shifted_place, if_cong, file_byte-none,
  joined,
}

module _ (fs : SimpleFileSystem) (first : ℕ) (chain : ℕ → Option ℕ) (usable : IsUsable fs)
    (away : IsApart fs chain) where
  abbrev cs : ℕ
  cs = cluster_size fs

  -- Where a position stands: in which cluster, and where in it.
  record Split (p : ℕ) : Type 0 where
    whole : p / cs * cs + p % cs ≡ p
    below : p % cs < cs

  split : (p : ℕ) → Split p
  split p = record { whole = div-add-mod' p cs; below = mod-lt p (omega (arith, usable.0)) }

  module _ (cluster k : ℕ) (source : Bytes) (pos size offset : ℕ) (d : Drive) (r : ℕ × Machine)
      (at : chain k ≡ some cluster) (on : IsOn fs first chain d) (fits : offset + size ≤ cs)
      (w : WritesCluster fs cluster source pos size offset d r) where
    chunk-IsOn : IsOn fs first chain r.1.drive
    chunk-IsOn = record {
      sound = w.sound;
      chained = λ j.
          nth_same fs d r.1.drive j first (λ i a b e.
            w.outside (fat_sector fs a) b
              (λ s h. away.fat i k cluster a s (sym (on.chained i) ∙ e) at h))
          ∙ on.chained j;
    }

    -- A position in another cluster is not among those that are written.
    elsewhere :
        (j q : ℕ) → (k == j) ≡ false → q < cs → in_range (k * cs + offset) size (j * cs + q) ≡ false
    elsewhere j q other below = elim (dec_lt j k) [
      | yes low ↦
          let g : suc j * cs ≤ k * cs = mul-le-mul_right cs low in
          let gap : j * cs + cs ≤ k * cs = grind arith in ground (arith, gap, below, fits)
      | no high ↦
          let above : suc k ≤ j = ground (arith, high, other) in
          let g : suc k * cs ≤ j * cs = mul-le-mul_right cs above in
          let gap : k * cs + cs ≤ j * cs = grind arith in ground (arith, gap, below, fits)
    ]

    -- The bytes of the cluster itself, and of the others.
    chunk_here :
        (q : ℕ)
        → q < cs
        → file_byte fs r.1.drive first (k * cs + q) ≡ (
            if in_range (k * cs + offset) size (k * cs + q)
            then source (pos + (k * cs + q - (k * cs + offset)))
            else file_byte fs d first (k * cs + q))
    chunk_here q below =
        let new = file_byte_lem fs r.1.drive first k cluster q (chunk-IsOn.chained k ∙ at) below in
        let old = file_byte_lem fs d first k cluster q (on.chained k ∙ at) below in
        let same : in_range (k * cs + offset) size (k * cs + q) ≡ in_range offset size q =
          shifted_range (k * cs) offset size q in
        let place : q - offset ≡ k * cs + q - (k * cs + offset) = shifted_place (k * cs) offset q in
        new
        ∙ w.inside q below
        ∙ if_cong (sym same) (ap (λ (x : ℕ). source (pos + x)) place) (sym old)

    chunk_there :
        (j q : ℕ)
        → (k == j) ≡ false
        → q < cs
        → file_byte fs r.1.drive first (j * cs + q) ≡ file_byte fs d first (j * cs + q)
    unfolding cluster_byte run_byte
    chunk_there j q other below = elim (Option-cases (chain j)) [
      | inl none_there ↦
          file_byte-none fs r.1.drive first j q (chunk-IsOn.chained j ∙ none_there) below
          ∙ sym (file_byte-none fs d first j q (on.chained j ∙ none_there) below)
      | inr (c, there) ↦
          file_byte_lem fs r.1.drive first j c q (chunk-IsOn.chained j ∙ there) below
          ∙ w.outside (u64 (get_lba_of_cluster fs c + q / 512)) (q % 512)
              (λ s h. away.clusters k j cluster c s (q / 512) at there other h (omega arith))
          ∙ sym (file_byte_lem fs d first j c q (on.chained j ∙ there) below)
    ]

    chunk_bytes :
        (p : ℕ)
        → file_byte fs r.1.drive first p ≡ (
            if in_range (k * cs + offset) size p
            then source (pos + (p - (k * cs + offset)))
            else file_byte fs d first p)
    chunk_bytes p =
        let q = p % cs in
        let sp = split p in
        let P = λ (n : ℕ). file_byte fs r.1.drive first n ≡ (
          if in_range (k * cs + offset) size n
          then source (pos + (n - (k * cs + offset)))
          else file_byte fs d first n) in
        subst P sp.whole (elim (Bool-cases (k == p / cs)) [
          | inl same ↦
              subst (λ (j : ℕ). P (j * cs + q)) (==→≡ k (p / cs) same) (chunk_here q sp.below)
          | inr other ↦
              chunk_there (p / cs) q other sp.below
              ∙ sym (if-eq_false _ (elsewhere (p / cs) q other sp.below))
        ])

    chunk_outside : (l b : ℕ) → IsOff fs chain l → r.1.drive.sector l b ≡ d.sector l b
    chunk_outside l b off = w.outside l b (λ s h. off k cluster s at h)

    -- The chain goes on behind the cluster, so it is not made longer.
    chunk_follows :
        (b : ℕ)
        → chain (suc k) ≡ some b
        → ((extend fs cluster r.1).0 ≡ some b) × ((extend fs cluster r.1).1.drive ≡ r.1.drive)
    chunk_follows b there =
        let step = next_cluster-successor fs cluster r.1 r.1.drive w.sound refl in
        let follows =
          step.0
          ∙ (sym (nth-suc fs r.1.drive k first (chunk-IsOn.chained k ∙ at))
              ∙ (chunk-IsOn.chained (suc k) ∙ there)) in
        let longer = extend_onward fs cluster r.1 b follows in
        (ap (λ x. x.0) longer, ap (λ x. x.1.drive) longer ∙ step.1)

  Written-nothing :
      {source : Bytes} {buf from written size : ℕ} (m : Machine)
      → size ≡ 0
      → IsOn fs first chain m.drive
      → Written fs first chain source buf from size written m.drive (ret (written, m))
  Written-nothing {source} {buf} {from} {written} {size} m e on = record {
    final = m;
    returns = ap (λ (n : ℕ). ret (n, m)) (omega arith);
    on = on;
    bytes =
        λ p. let out : in_range from size p ≡ false = ground (arith, e) in sym (if-eq_false _ out);
    outside = λ l b off. refl;
  }

  Written-then :
      {source : Bytes} {buf from size written n : ℕ} {d : Drive} {o : Outcome (ℕ × Machine)}
      (d₁ : Drive)
      → n ≤ size
      → ((p : ℕ)
          → file_byte fs d₁ first p ≡ (
              if in_range from n p
              then source (buf + written + (p - from))
              else file_byte fs d first p))
      → ((l b : ℕ) → IsOff fs chain l → d₁.sector l b ≡ d.sector l b)
      → Written fs first chain source buf (from + n) (size - n) (written + n) d₁ o
      → Written fs first chain source buf from size written d o
  Written-then {source} {buf} {from} {size} {written} {n} d₁ le here away₁ rest = record {
    final = rest.final;
    returns = rest.returns ∙ ap (λ (k : ℕ). ret (k, rest.final)) (omega arith);
    on = rest.on;
    bytes = λ p. rest.bytes p ∙ joined source buf from size written n p le _ _ (here p);
    outside = λ l b off. rest.outside l b off ∙ away₁ l b off;
  }

  chunk_written :
      (cluster : ℕ) (source : Bytes) (pos remaining offset : ℕ) (m : Machine)
      → IsBytes source
      → IsOn fs first chain m.drive
      → offset < cs
      → let r = write_cluster fs cluster source pos remaining offset m in
        (r.0 ≡ min remaining (cs - offset))
        × WritesCluster fs cluster source pos r.0 offset m.drive r
  chunk_written cluster source pos remaining offset m sb on lt =
      let r = write_cluster fs cluster source pos remaining offset m in
      let w =
        subst (λ (o : ℕ). WritesCluster fs cluster source pos (min remaining (cs - o)) o m.drive r)
          (mod-eq_of_lt lt)
          (write_cluster_lem fs cluster source pos remaining offset m sb on.sound usable.0
            usable.1) in
      (
        w.count,
        subst (λ (n : ℕ). WritesCluster fs cluster source pos n offset m.drive r) (sym w.count) w,
      )

  -- Over clusters that the file has, the loop returns the count of bytes that it was given: they
  -- stand in the file from the position on; its other bytes, its chain and the sectors of no
  -- cluster of it are as before.
  pub write_chunks_lem :
      (source : Bytes) (buf fuel remaining written k cluster offset : ℕ) (m : Machine)
      → IsBytes source
      → IsOn fs first chain m.drive
      → ((j : ℕ) → j * cs < k * cs + offset + remaining → (c : ℕ) × (chain j ≡ some c))
      → chain k ≡ some cluster
      → offset < cs
      → remaining < fuel
      → Written fs first chain source buf
          (k * cs + offset)
          remaining
          written
          m.drive
          (write_chunks fs source buf fuel remaining written cluster offset m)
  unfolding write_chunks
  write_chunks_lem source buf zero remaining written k cluster offset m sb on covers at lt enough =
      absurd (omega arith)
  write_chunks_lem source buf (suc fuel) remaining written k cluster offset m sb on covers at lt
        enough =
      elim (Bool-cases (remaining == 0)) [
        | inl nothing ↦ rw (nothing, write_chunks) (Written-nothing m (==→≡ _ _ nothing) on)
        | inr wanted ↦
            let r = write_cluster fs cluster source (buf + written) remaining offset m in
            let (count, w) =
              chunk_written cluster source (buf + written) remaining offset m sb on lt in
            let fits : offset + r.0 ≤ cs = omega (arith, count) in
            let on₁ =
              chunk-IsOn cluster k source (buf + written) r.0 offset m.drive r at on fits w in
            let bytes₁ =
              chunk_bytes cluster k source (buf + written) r.0 offset m.drive r at on fits w in
            let outside₁ =
              chunk_outside cluster k source (buf + written) r.0 offset m.drive r at on fits w in
            let some_written : (r.0 == 0) ≡ false = ground (arith, count) in
            let sized : (cs == 0) ≡ false = ground (arith, usable.0) in
            elim (Bool-cases (remaining - r.0 == 0)) [
              | inl done ↦
                  rw (wanted, sized, some_written, done, write_chunks)
                    (Written-then r.1.drive (omega (arith, count)) bytes₁ outside₁
                      (Written-nothing r.1 (==→≡ _ _ done) on₁))
              | inr more ↦
                  let whole : r.0 ≡ cs - offset = ground (arith, count) in
                  let next : suc k * cs + 0 ≡ k * cs + offset + r.0 = grind arith in
                  let (b, there) = covers (suc k) (ground (arith, count)) in
                  let (found, same) =
                    chunk_follows cluster k source (buf + written) r.0 offset m.drive r at on fits w
                      b there in
                  let m₂ = (extend fs cluster r.1).1 in
                  rw (wanted, sized, some_written, more, found, write_chunks)
                    (Written-then m₂.drive (omega (arith, count))
                      (λ p. ap (λ (d : Drive). file_byte fs d first p) same ∙ bytes₁ p)
                      (λ l b off. ap (λ (d : Drive). d.sector l b) same ∙ outside₁ l b off)
                      (subst
                        (λ (f : ℕ).
                          Written fs first chain source buf f (remaining - r.0) (written + r.0)
                            m₂.drive
                            (write_chunks fs source buf fuel (remaining - r.0) (written + r.0) b 0
                              m₂))
                        next
                        (write_chunks_lem source buf fuel (remaining - r.0) (written + r.0) (suc k)
                          b 0 m₂ sb (subst (IsOn fs first chain) (sym same) on₁)
                          (λ j below. covers j (omega (arith, next, count))) there
                          (omega (arith, lt)) (omega (arith, ==→≢ _ _ some_written)))))
            ]
      ]
