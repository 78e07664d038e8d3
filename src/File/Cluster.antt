-- ===== src/File/Cluster.antt =====
-- `read_cluster` copies the bytes of one cluster, sector by sector, and nothing else.
use forward_os_kernel_base.Base.{ℕ, zero, suc, ◌+◌, ◌-◌, ◌*◌, ◌/◌, ◌%◌, ◌≤◌, ◌<◌, min, arith}
use forward_os_kernel_base.Base.{◌&&◌, ltb, leb, if◌then◌else◌}
use forward_os_kernel_base.Base.{Bytes, u64, in_range, ◌≡◌, ap₂}
use forward_os_kernel_base.Disk.{Machine, Drive, IsSound, read_sector}
use forward_os_kernel_base.Fat.{SimpleFileSystem, get_lba_of_cluster}
use forward_os_kernel_base.File.{ReadResult, cluster_size, read_one, read_sectors, read_cluster}

-- Byte `q` of a run of sectors that begins at `lba`, and of a cluster.
unfoldable pub run_byte : Drive → ℕ → ℕ → ℕ
run_byte d lba q = d.sector (u64 (lba + q / 512)) (q % 512)

unfoldable pub cluster_byte : SimpleFileSystem → Drive → ℕ → ℕ → ℕ
unfolding run_byte
cluster_byte fs d cluster q = run_byte d (get_lba_of_cluster fs cluster) q

module _ (lba coff size pos : ℕ) (d : Drive) (sound : IsSound d) where
  -- The sectors from `i` on have been read: their part of the run is in place.
  record Copied (i : ℕ) (r r' : ReadResult) : Type 0 where
    drive : r'.machine.drive ≡ d
    count : r'.count ≡ r.count + (coff + size - (if ltb coff (i * 512) then i * 512 else coff))
    out :
        (x : ℕ)
        → r'.out x ≡ (
            if in_range pos size x && leb (i * 512) (coff + (x - pos))
            then run_byte d lba (coff + (x - pos))
            else r.out x)

  -- Sector `i` alone.
  record CopiedOne (i : ℕ) (r r' : ReadResult) : Type 0 where
    drive : r'.machine.drive ≡ d
    count :
        r'.count + (coff + size - (if ltb coff (i * 512 + 512) then i * 512 + 512 else coff))
        ≡ r.count + (coff + size - (if ltb coff (i * 512) then i * 512 else coff))
    out :
        (x : ℕ)
        → r'.out x ≡ (
            if in_range pos size x
              && leb (i * 512) (coff + (x - pos))
              && ltb (coff + (x - pos)) (i * 512 + 512)
            then run_byte d lba (coff + (x - pos))
            else r.out x)

  sector_byte :
      (i q : ℕ)
      → i * 512 ≤ q
      → q < i * 512 + 512
      → run_byte d lba q ≡ d.sector (u64 (lba + i)) (q - i * 512)
  unfolding run_byte
  sector_byte i q lo hi =
      let e : q / 512 ≡ i = omega arith in
      let f : q % 512 ≡ q - i * 512 = omega arith in ap₂ (λ a b. d.sector (u64 (lba + a)) b) e f

  read_one_lem :
      (i : ℕ) (r : ReadResult)
      → r.machine.drive ≡ d
      → CopiedOne i r (read_one lba coff size pos i r)
  unfolding read_one read_sector
  read_one_lem i r e = record {
    drive = ground arith;
    count = ground arith;
    out = λ x. ground (arith, sound.reads (u64 (lba + i)), sector_byte i (coff + (x - pos)));
  }

  Copied-cons :
      {i : ℕ} {r r₁ r₂ : ReadResult} → CopiedOne i r r₁ → Copied (i + 1) r₁ r₂ → Copied i r r₂
  Copied-cons one rest = record {
    drive = rest.drive;
    count = ground (arith, rest.count, one.count);
    out = λ x. ground (arith, rest.out x, one.out x);
  }

  read_sectors_lem :
      (left i : ℕ) (r : ReadResult)
      → r.machine.drive ≡ d
      → coff + size ≤ (i + left) * 512
      → Copied i r (read_sectors lba coff size pos left i r)
  unfolding read_sectors
  read_sectors_lem zero i r e fits = record {
    drive = e;
    count = ground arith;
    out = λ x. ground arith;
  }
  read_sectors_lem (suc left) i r e fits =
      let one = read_one_lem i r e in
      Copied-cons one
        (read_sectors_lem left (i + 1) (read_one lba coff size pos i r) one.drive (omega arith))

-- What reading `len` bytes of a cluster from `offset` should do: `size` bytes arrive, the whole
-- slice or what is left of the cluster.
pub record ReadsCluster (fs : SimpleFileSystem) (d : Drive) (cluster : ℕ) (out : Bytes)
    (pos size coff : ℕ) (r : ReadResult) : Type 0 where
  pub drive : r.machine.drive ≡ d
  pub count : r.count ≡ size
  pub filled :
      (x : ℕ)
      → r.out x
        ≡ (if in_range pos size x then cluster_byte fs d cluster (coff + (x - pos)) else out x)

-- On a sound drive, with sectors in a cluster, `read_cluster` copies the bytes of the cluster from
-- the offset on, as many as fit the slice and the cluster hold, to the slice and nothing elsewhere,
-- and returns their number.
pub read_cluster_lem :
    (fs : SimpleFileSystem) (cluster : ℕ) (out : Bytes) (pos len offset : ℕ) (m : Machine)
    (d : Drive)
    → IsSound d
    → m.drive ≡ d
    → 0 < fs.sectors_per_clus
    → let coff = offset % cluster_size fs in
      ReadsCluster fs d cluster out pos
        (min len (cluster_size fs - coff))
        coff
        (read_cluster fs cluster out pos len offset m)
unfolding read_cluster cluster_byte
read_cluster_lem fs cluster out pos len offset m d sound e spc =
    let coff = offset % cluster_size fs in
    let size = min len (cluster_size fs - coff) in
    let start : ReadResult = record { count = 0; out = out; machine = m } in
    let c =
      read_sectors_lem (get_lba_of_cluster fs cluster) coff size pos d sound fs.sectors_per_clus 0
        start e (omega arith) in
    record {
      drive = ground (arith, c.drive, sound.present.1);
      count = ground (arith, c.count, sound.present.1);
      filled = λ x. ground (arith, c.out x, sound.present.1);
    }
