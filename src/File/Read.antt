-- ===== src/File/Read.antt =====
-- `sys_read_file` against the file that the chain on the disk spells out.
use forward_os_kernel_base.Base.{ℕ, zero, suc, ◌+◌, ◌-◌, ◌*◌, ◌/◌, ◌%◌, ◌^◌, ◌≤◌, ◌<◌, min, arith}
use forward_os_kernel_base.Base.{false, leb, ◌==◌, if◌then◌else◌}
use forward_os_kernel_base.Base.{
  u64, in_range, ◌≡◌, refl, ◌∙◌, sym, inl, inr, Bool-cases, ap, ==→≡, ==→≢,
}
use forward_os_kernel_base.Base.{none, some, subst}
use native.Mathlib.Nat.{mod-eq_of_lt}
use native.Mathlib.Decide.{dec_lt}
use forward_os_kernel_base.Disk.{Drive, IsSound}
use forward_os_kernel_base.Fat.{SimpleFileSystem, next_cluster}
use forward_os_kernel_base.Fat.Chain.{nth, nth-suc, next_cluster-successor}
use forward_os_kernel_base.Base.{Outcome, ret}
use forward_os_kernel_base.File.{ReadResult, Place, cluster_size}
use forward_os_kernel_base.File.{walk_chain, read_chunk, read_chunks}
use forward_os_kernel_base.File.Cluster.{cluster_byte, read_cluster_lem}

-- The byte at position `p` of the file whose chain begins at `first`.
unfoldable pub file_byte : SimpleFileSystem → Drive → ℕ → ℕ → ℕ
file_byte fs d first p = elim (nth fs d first (p / cluster_size fs)) [
  | none ↦ 0
  | some c ↦ cluster_byte fs d c (p % cluster_size fs)
]

-- The chain has a cluster for each of the first `size` bytes.
abbrev pub Covers : SimpleFileSystem → Drive → ℕ → ℕ → Type 0
Covers fs d first size =
    (k : ℕ) → k * cluster_size fs < size → (c : ℕ) × (nth fs d first k ≡ some c)

-- A cluster has sectors, and their count is a byte.
abbrev pub IsUsable : SimpleFileSystem → Type 0
IsUsable fs = (0 < fs.sectors_per_clus) × (fs.sectors_per_clus < 256)

module _ (fs : SimpleFileSystem) (d : Drive) (first : ℕ) where
  pub file_byte_lem :
      (k c q : ℕ)
      → nth fs d first k ≡ some c
      → q < cluster_size fs
      → file_byte fs d first (k * cluster_size fs + q) ≡ cluster_byte fs d c q
  unfolding file_byte
  file_byte_lem k c q h lt =
      let e : (k * cluster_size fs + q) / cluster_size fs ≡ k = grind arith in
      let f : (k * cluster_size fs + q) % cluster_size fs ≡ q = grind arith in
      rw (e, h, f, file_byte)

  -- The walk stops at the cluster that holds position `offset`.
  pub record Walks (offset : ℕ) (o : Outcome Place) : Type 0 where
    pub place : Place
    pub returns : o ≡ ret place
    pub drive : place.machine.drive ≡ d
    pub k : ℕ
    pub reached : nth fs d first k ≡ some place.cluster
    pub start : place.start ≡ k * cluster_size fs
    pub before : place.start ≤ offset
    pub within : offset < place.start + cluster_size fs

  pub walk_chain_lem :
      (offset fuel k : ℕ) (p : Place)
      → IsSound d
      → IsUsable fs
      → Covers fs d first (offset + 1)
      → p.machine.drive ≡ d
      → nth fs d first k ≡ some p.cluster
      → p.start ≡ k * cluster_size fs
      → p.start ≤ offset
      → offset < p.start + fuel
      → Walks offset (walk_chain fs offset fuel p)
  unfolding walk_chain
  walk_chain_lem offset zero k p sound spc covers e h at le fuel = absurd (omega arith)
  walk_chain_lem offset (suc fuel) k p sound spc covers e h at le enough =
      elim (Bool-cases (leb (p.start + cluster_size fs) offset)) [
        | inr last ↦
            rw (last, walk_chain)
              (record {
                place = p;
                returns = refl;
                drive = e;
                k = k;
                reached = h;
                start = at;
                before = le;
                within = ground arith;
              })
        | inl more ↦
            let (c, there) = covers (suc k) (ground arith) in
            let step = next_cluster-successor fs p.cluster p.machine d sound e in
            let found = step.0 ∙ sym (nth-suc fs d k first h) ∙ there in
            rw (more, found, walk_chain)
              (walk_chain_lem offset fuel (suc k) _ sound spc covers step.1 there
                (omega (arith, at)) (ground arith) (omega arith))
      ]

  -- `size` bytes of the file from position `from` on have arrived at `buf`, after those that `r`
  -- counts; the rest of the memory is as before.
  pub record Arrives (buf from size : ℕ) (r : ReadResult) (o : Outcome ReadResult) : Type 0 where
    pub result : ReadResult
    pub returns : o ≡ ret result
    pub drive : result.machine.drive ≡ d
    pub count : result.count ≡ r.count + size
    pub filled :
        (x : ℕ)
        → result.out x ≡ (
            if in_range (buf + r.count) size x
            then file_byte fs d first (from + (x - (buf + r.count)))
            else r.out x)

  Arrives-then :
      {buf from size n : ℕ} {r s : ReadResult} {o : Outcome ReadResult}
      → n ≤ size
      → s.count ≡ r.count + n
      → ((x : ℕ)
          → s.out x ≡ (
              if in_range (buf + r.count) n x
              then file_byte fs d first (from + (x - (buf + r.count)))
              else r.out x))
      → Arrives buf (from + n) (size - n) s o
      → Arrives buf from size r o
  Arrives-then {buf} {from} {size} {n} {r} {s} le counted here rest = record {
    result = rest.result;
    returns = rest.returns;
    drive = rest.drive;
    count = omega (arith, rest.count);
    filled = λ x.
        let same : buf + s.count ≡ buf + r.count + n = omega arith in
        let far = rest.filled x in
        elim (dec_lt x (buf + r.count + n)) [
          | yes near ↦ ground (arith, far, here x)
          | no beyond ↦
              let shifted : from + n + (x - (buf + s.count)) ≡ from + (x - (buf + r.count)) =
                omega arith in
              ground (arith, far, here x, ap (file_byte fs d first) shifted)
        ];
  }

  Arrives-nothing :
      {buf from size : ℕ} {r : ReadResult}
      → size ≡ 0
      → r.machine.drive ≡ d
      → Arrives buf from size r (ret r)
  Arrives-nothing {r} empty e = record {
    result = r;
    returns = refl;
    drive = e;
    count = omega arith;
    filled = λ x. ground arith;
  }

  -- One chunk: what is wanted of the cluster at hand.
  chunk_lem :
      (buf remaining k cluster offset : ℕ) (r : ReadResult)
      → IsSound d
      → IsUsable fs
      → r.machine.drive ≡ d
      → nth fs d first k ≡ some cluster
      → offset < cluster_size fs
      → let n = min remaining (cluster_size fs - offset) in
        let s = read_chunk fs buf remaining cluster offset r in
        (s.machine.drive ≡ d)
        × (s.count ≡ n)
        × ((x : ℕ)
            → s.out x ≡ (
                if in_range (buf + r.count) s.count x
                then file_byte fs d first (k * cluster_size fs + offset + (x - (buf + r.count)))
                else r.out x))
  unfolding read_chunk
  chunk_lem buf remaining k cluster offset r sound spc e h lt =
      let wrap : u64 (cluster_size fs + 2 ^ 64 - offset) ≡ cluster_size fs - offset = omega arith in
      let small : offset % cluster_size fs ≡ offset = mod-eq_of_lt lt in
      let chunk = min remaining (u64 (cluster_size fs + 2 ^ 64 - offset)) in
      let c =
        read_cluster_lem fs cluster r.out (buf + r.count) chunk offset r.machine d sound e spc.0 in
      let same : min chunk (cluster_size fs - offset % cluster_size fs)
          ≡ min remaining (cluster_size fs - offset) =
        omega arith in
      (
        c.drive,
        c.count ∙ same,
        λ x.
            let q = offset + (x - (buf + r.count)) in
            let place : k * cluster_size fs + q
                ≡ k * cluster_size fs + offset + (x - (buf + r.count)) =
              omega arith in
            ground (
              arith,
              c.filled x,
              c.count ∙ same,
              small,
              file_byte_lem k cluster q h,
              ap (file_byte fs d first) place,
            ),
      )

  pub read_chunks_lem :
      (buf fuel remaining k cluster offset : ℕ) (r : ReadResult)
      → IsSound d
      → IsUsable fs
      → Covers fs d first (k * cluster_size fs + offset + remaining)
      → r.machine.drive ≡ d
      → nth fs d first k ≡ some cluster
      → offset < cluster_size fs
      → remaining < fuel
      → Arrives buf
          (k * cluster_size fs + offset)
          remaining
          r
          (read_chunks fs buf fuel remaining cluster offset r)
  unfolding read_chunks
  read_chunks_lem buf zero remaining k cluster offset r sound spc covers e h lt enough =
      absurd (omega arith)
  read_chunks_lem buf (suc fuel) remaining k cluster offset r sound spc covers e h lt enough =
      elim (Bool-cases (remaining == 0)) [
        | inl none_left ↦ rw (none_left, read_chunks) (Arrives-nothing (==→≡ _ _ none_left) e)
        | inr wanted ↦
            let n = min remaining (cluster_size fs - offset) in
            let s = read_chunk fs buf remaining cluster offset r in
            let c = chunk_lem buf remaining k cluster offset r sound spc e h lt in
            let some_read : (s.count == 0) ≡ false = ground (arith, c.1) in
            let sized : (cluster_size fs == 0) ≡ false = ground (arith, spc.0) in
            let (found, m) = next_cluster fs cluster s.machine in
            let step = next_cluster-successor fs cluster s.machine d sound c.0 in
            let count = r.count + s.count in
            elim (Bool-cases (remaining - s.count == 0)) [
              | inl done ↦
                  rw (wanted, sized, some_read, done, read_chunks)
                    (Arrives-then {s = record s { count = count }} (omega (arith, c.1)) refl c.2
                      (Arrives-nothing (==→≡ _ _ done) c.0))
              | inr more ↦
                  let whole : s.count ≡ cluster_size fs - offset = ground (arith, c.1) in
                  let at : suc k * cluster_size fs + 0 ≡ k * cluster_size fs + offset + s.count =
                    grind arith in
                  let (b, there) = covers (suc k) (ground (arith, c.1)) in
                  let follows = step.0 ∙ sym (nth-suc fs d k first h) ∙ there in
                  let t : ReadResult = record { count = count; out = s.out; machine = m } in
                  rw (wanted, sized, some_read, more, follows, read_chunks)
                    (Arrives-then {s = t} (omega (arith, c.1)) refl c.2 (
                      subst
                        (λ p.
                          Arrives buf p (remaining - s.count) t
                            (read_chunks fs buf fuel (remaining - s.count) b 0 t))
                        at
                        (read_chunks_lem buf fuel (remaining - s.count) (suc k) b 0 t sound spc
                          (λ j below. covers j (omega (arith, at, c.1))) step.1 there (omega arith)
                          (omega (arith, ==→≢ _ _ some_read)))))
            ]
      ]
