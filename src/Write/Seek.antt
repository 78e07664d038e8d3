-- ===== src/Write/Seek.antt =====
-- `sys_write_file`: the walk to the cluster that holds the position.
use forward_os_kernel_base.Base.{ℕ, zero, suc, ◌+◌, ◌*◌, ◌≤◌, ◌<◌, ◌≡◌, refl, sym, ap, ◌∙◌, arith}
use forward_os_kernel_base.Base.{leb, Bool-cases, inl, inr, Option, some, Outcome, ret}
use forward_os_kernel_base.Disk.{Drive, Machine, IsSound}
use forward_os_kernel_base.Fat.{SimpleFileSystem}
use forward_os_kernel_base.Fat.Chain.{nth, nth-suc, next_cluster-successor}
use forward_os_kernel_base.File.{Place, cluster_size}
use forward_os_kernel_base.File.Read.{Covers, IsUsable}
use forward_os_kernel_base.Write.{extend, seek_cluster}
use forward_os_kernel_base.Write.Extend.{extend_onward}

module _ (fs : SimpleFileSystem) (d : Drive) (first : ℕ) where
  -- The walk stops at the cluster that holds position `offset`, and writes nothing.
  pub record Seeks (offset : ℕ) (o : Outcome (Option Place × Machine)) : Type 0 where
    pub place : Place
    pub returns : o ≡ ret (some place, place.machine)
    pub drive : place.machine.drive ≡ d
    pub k : ℕ
    pub reached : nth fs d first k ≡ some place.cluster
    pub start : place.start ≡ k * cluster_size fs
    pub before : place.start ≤ offset
    pub within : offset < place.start + cluster_size fs

  pub seek_cluster_lem :
      (offset fuel k : ℕ) (p : Place)
      → IsSound d
      → IsUsable fs
      → Covers fs d first (offset + 1)
      → p.machine.drive ≡ d
      → nth fs d first k ≡ some p.cluster
      → p.start ≡ k * cluster_size fs
      → p.start ≤ offset
      → offset < p.start + fuel
      → Seeks offset (seek_cluster fs offset fuel p)
  unfolding seek_cluster
  seek_cluster_lem offset zero k p sound spc covers e h at le fuel = absurd (omega arith)
  seek_cluster_lem offset (suc fuel) k p sound spc covers e h at le enough =
      elim (Bool-cases (leb (p.start + cluster_size fs) offset)) [
        | inr last ↦
            rw (last, seek_cluster)
              (record {
                place = p;
                returns = refl;
                drive = e;
                k = k;
                reached = h;
                start = at;
                before = le;
                within = ground arith;
              })
        | inl more ↦
            let (c, there) = covers (suc k) (ground arith) in
            let step = next_cluster-successor fs p.cluster p.machine d sound e in
            let onward =
              extend_onward fs p.cluster p.machine c
                (step.0 ∙ (sym (nth-suc fs d k first h) ∙ there)) in
            let found : (extend fs p.cluster p.machine).0 ≡ some c = ap (λ x. x.0) onward in
            let same : (extend fs p.cluster p.machine).1.drive ≡ d =
              ap (λ x. x.1.drive) onward ∙ step.1 in
            rw (more, found, seek_cluster)
              (seek_cluster_lem offset fuel (suc k) _ sound spc covers same there
                (omega (arith, at)) (ground arith) (omega arith))
      ]
