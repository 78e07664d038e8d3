-- ===== src/Write/Cluster.antt =====
-- `write_cluster` puts the bytes of the slice in their place in the cluster, and no others.
use forward_os_kernel_base.Base.{
  ℕ, zero, suc, ◌+◌, ◌-◌, ◌*◌, ◌/◌, ◌%◌, ◌^◌, ◌≤◌, ◌<◌, min, ◌≡◌, refl, arith,
}
use forward_os_kernel_base.Base.{
  ap, subst, sym, ◌∙◌, Bool, true, false, not, ◌&&◌, ltb, ◌==◌, if◌then◌else◌,
}
use forward_os_kernel_base.Base.{
  in_range, Bool-cases, ==→≡, ==_refl, inl, inr, if-eq_false, if-eq_true, Bytes, IsBytes, u64, copy,
}
use forward_os_kernel_base.Disk.{
  Drive, Machine, IsSound, has_port, read_sector, read_sector-buffer, drive-read_sector,
  write_sector, store_buffer-read_sector,
}
use forward_os_kernel_base.Fat.{SimpleFileSystem, get_lba_of_cluster}
use forward_os_kernel_base.File.{cluster_size, read_cluster}
use forward_os_kernel_base.File.Cluster.{run_byte, cluster_byte, read_cluster_lem}
use forward_os_kernel_base.Write.{write_one, write_sectors, write_cluster}
use forward_os_kernel_base.Write.Entry.{Wrote, write_sector-Wrote}

copy-lt :
    (src : Bytes) (from n : ℕ) (dst : Bytes) (to x : ℕ)
    → IsBytes src
    → IsBytes dst
    → copy src from n dst to x < 256
copy-lt src from n dst to x h k = elim (Bool-cases (in_range to n x)) [
  | inl inside ↦ rw inside (h (from + (x - to)))
  | inr outside ↦ rw outside (k x)
]

if-buffer :
    (t : Bool) (m : Machine) (b : Bytes)
    → (if t then record m { buffer = b } else m) ≡ record m { buffer = if t then b else m.buffer }
if-buffer true m b = refl
if-buffer false m b = refl

module _ (lba coff size pos : ℕ) (source : Bytes) (source_bytes : IsBytes source) where
  -- What should stand at byte `b` of the `s`-th sector, which held `old`.
  abbrev pub wanted : ℕ → ℕ → ℕ → ℕ
  wanted s b old =
      if in_range coff size (s * 512 + b) then source (pos + (s * 512 + b - coff)) else old

  -- The part of the slice that sector `i` takes, put into a buffer.
  abbrev filled : ℕ → Bytes → Bytes
  filled i b =
      let first = i * 512 in
      let last = first + 512 in
      let from = if ltb coff first then first else coff in
      let to = if ltb last (coff + size) then last else coff + size in
      if ltb coff last && ltb first (coff + size)
      then copy source (pos + (from - coff)) (to - from) b (from - first)
      else b

  filled_lem : (i x : ℕ) (b : Bytes) → x < 512 → filled i b x ≡ wanted i x (b x)
  filled_lem i x b h = ground arith

  filled-IsBytes : (i : ℕ) (b : Bytes) → IsBytes b → IsBytes (filled i b)
  filled-IsBytes i b h x =
      let first = i * 512 in
      let last = first + 512 in
      let from = if ltb coff first then first else coff in
      let to = if ltb last (coff + size) then last else coff + size in
      elim (Bool-cases (ltb coff last && ltb first (coff + size))) [
        | inl meets ↦
            rw meets
              (copy-lt source (pos + (from - coff)) (to - from) b (from - first) x source_bytes h)
        | inr apart ↦ rw apart (h x)
      ]

  write_one-Wrote :
      (i : ℕ) (m : Machine)
      → IsSound m.drive
      → Wrote m.drive
          (write_one lba coff size source pos i m).drive
          (u64 (lba + i))
          (filled i (m.drive.sector (u64 (lba + i))))
  unfolding write_one
  write_one-Wrote i m sound =
      let l = u64 (lba + i) in
      let m' = read_sector l m in
      let read : m'.buffer ≡ m.drive.sector l = read_sector-buffer l m m.drive sound refl in
      let drive : m'.drive ≡ m.drive = drive-read_sector l m in
      let fine : IsBytes (filled i m'.buffer) =
        filled-IsBytes i m'.buffer (subst IsBytes (sym read) (sound.bytes l)) in
      let w =
        write_sector-Wrote l (record m' { buffer = filled i m'.buffer })
          (subst IsSound (sym drive) sound) fine in
      let first = i * 512 in
      let last = first + 512 in
      let from = if ltb coff first then first else coff in
      let to = if ltb last (coff + size) then last else coff + size in
      let copied = copy source (pos + (from - coff)) (to - from) m'.buffer (from - first) in
      let same =
        ap (λ (n : Machine). if ltb coff last && ltb first (coff + size) then n else m')
          (store_buffer-read_sector l m copied (sound.reads l))
        ∙ if-buffer (ltb coff last && ltb first (coff + size)) m' copied in
      subst
        (λ (n : Machine). Wrote m.drive (write_sector l n).drive l (filled i (m.drive.sector l)))
        (sym same)
        (subst
          (λ (b : Bytes).
            Wrote m.drive (write_sector l (record m' { buffer = filled i m'.buffer })).drive l
              (filled i b))
          read
          (subst
            (λ (d : Drive).
              Wrote d (write_sector l (record m' { buffer = filled i m'.buffer })).drive l
                (filled i m'.buffer))
            drive w))

  -- After the sectors from `i` on, `left` of them.
  pub record WritesRun (i left : ℕ) (d d' : Drive) : Type 0 where
    pub sound : IsSound d'
    pub inside :
        (s b : ℕ)
        → i ≤ s
        → s < i + left
        → b < 512
        → d'.sector (u64 (lba + s)) b ≡ wanted s b (d.sector (u64 (lba + s)) b)
    pub outside :
        (l b : ℕ)
        → ((s : ℕ) → i ≤ s → s < i + left → (u64 (lba + s) == l) ≡ false)
        → d'.sector l b ≡ d.sector l b

  write_sectors_lem :
      (left i : ℕ) (m : Machine)
      → IsSound m.drive
      → i + left < 2 ^ 32
      → WritesRun i left m.drive (write_sectors lba coff size source pos left i m).drive
  unfolding write_sectors
  write_sectors_lem zero i m sound few = record {
    sound = sound;
    inside = λ s b lo hi h. absurd (omega arith);
    outside = λ l b away. refl;
  }
  write_sectors_lem (suc left) i m sound few =
      let one = write_one-Wrote i m sound in
      let m₁ = write_one lba coff size source pos i m in
      let rest = write_sectors_lem left (i + 1) m₁ one.sound (omega arith) in
      record {
        sound = rest.sound;
        inside = λ s b lo hi h. elim (Bool-cases (i == s)) [
          | inl same ↦
              let e : i ≡ s = ==→≡ i s same in
              subst
                (λ (n : ℕ).
                  (write_sectors lba coff size source pos left (i + 1) m₁).drive.sector
                    (u64 (lba + n)) b
                  ≡ wanted n b (m.drive.sector (u64 (lba + n)) b))
                e
                (rest.outside (u64 (lba + i)) b (λ k lo hi. ground arith)
                  ∙ (one.sector (u64 (lba + i)) b
                      ∙ (if-eq_true _ (==_refl (u64 (lba + i)))
                          ∙ filled_lem i b (m.drive.sector (u64 (lba + i))) h)))
          | inr other ↦
              let apart : (u64 (lba + i) == u64 (lba + s)) ≡ false = ground arith in
              rest.inside s b (ground arith) (omega arith) h
              ∙ ap (wanted s b) (one.sector (u64 (lba + s)) b ∙ if-eq_false _ apart)
        ];
        outside = λ l b away.
            rest.outside l b (λ s lo hi. away s (omega arith) (omega arith))
            ∙ (one.sector l b ∙ if-eq_false _ (away i (omega arith) (omega arith)));
      }

-- What `write_cluster` leaves of a drive: `size` bytes of the slice stand in the cluster from `coff`
-- on, its other bytes and the sectors of other clusters are as before.
pub record WritesCluster (fs : SimpleFileSystem) (cluster : ℕ) (source : Bytes) (pos size coff : ℕ)
    (d : Drive) (r : ℕ × Machine) : Type 0 where
  pub count : r.0 ≡ size
  pub sound : IsSound r.1.drive
  pub inside :
      (q : ℕ)
      → q < cluster_size fs
      → cluster_byte fs r.1.drive cluster q
        ≡ (if in_range coff size q then source (pos + (q - coff)) else cluster_byte fs d cluster q)
  pub outside :
      (l b : ℕ)
      → ((s : ℕ) → s < fs.sectors_per_clus → (u64 (get_lba_of_cluster fs cluster + s) == l) ≡ false)
      → r.1.drive.sector l b ≡ d.sector l b

-- On a sound drive, for a slice of bytes and a cluster of 1 to 255 sectors, `write_cluster` puts the bytes of
-- the slice from the offset on into the cluster, as many as the slice and the cluster hold, and
-- returns their number; its other bytes, and all other sectors, are as before.
pub write_cluster_lem :
    (fs : SimpleFileSystem) (cluster : ℕ) (source : Bytes) (pos len offset : ℕ) (m : Machine)
    → IsBytes source
    → IsSound m.drive
    → 0 < fs.sectors_per_clus
    → fs.sectors_per_clus < 256
    → let coff = offset % cluster_size fs in
      WritesCluster fs cluster source pos
        (min len (cluster_size fs - coff))
        coff
        m.drive
        (write_cluster fs cluster source pos len offset m)
unfolding write_cluster cluster_byte run_byte
write_cluster_lem fs cluster source pos len offset m sb sound some_sectors few =
    let lba = get_lba_of_cluster fs cluster in
    let coff = offset % cluster_size fs in
    let size = min len (cluster_size fs - coff) in
    let port : not (has_port m) ≡ false = ground (arith, sound.present.1) in
    let w =
      write_sectors_lem lba coff size pos source sb fs.sectors_per_clus 0 m sound (omega arith) in
    rw port (record {
      count = refl;
      sound = w.sound;
      inside = λ q h.
          let at : q / 512 * 512 + q % 512 ≡ q = omega arith in
          w.inside (q / 512) (q % 512) (omega arith) (omega arith) (omega arith)
          ∙ ap
              (λ (n : ℕ).
                if in_range coff size n
                then source (pos + (n - coff))
                else m.drive.sector (u64 (lba + q / 512)) (q % 512))
              at;
      outside = λ l b away. w.outside l b (λ s lo hi. away s (omega arith));
    })

-- What was written to a cluster of a sound drive is read back: into `out` from `to` on, and nothing
-- else of `out` changes. The slice holds bytes, and a cluster has 1 to 255 sectors.
read_cluster-write_cluster :
    (fs : SimpleFileSystem) (cluster : ℕ) (source : Bytes) (pos len offset : ℕ) (m : Machine)
    (out : Bytes) (to x : ℕ)
    → IsBytes source
    → IsSound m.drive
    → 0 < fs.sectors_per_clus
    → fs.sectors_per_clus < 256
    → let size = min len (cluster_size fs - offset % cluster_size fs) in
      let r =
        read_cluster fs cluster out to len offset
          (write_cluster fs cluster source pos len offset m).1 in
      (r.count ≡ (write_cluster fs cluster source pos len offset m).0)
      × (r.out x ≡ (if in_range to size x then source (pos + (x - to)) else out x))
read_cluster-write_cluster fs cluster source pos len offset m out to x sb sound some_sectors few =
    let w = write_cluster_lem fs cluster source pos len offset m sb sound some_sectors few in
    let m' = (write_cluster fs cluster source pos len offset m).1 in
    let r = read_cluster_lem fs cluster out to len offset m' m'.drive w.sound refl some_sectors in
    let coff = offset % cluster_size fs in
    (r.count ∙ sym w.count, ground (arith, r.filled x, w.inside (coff + (x - to))))
