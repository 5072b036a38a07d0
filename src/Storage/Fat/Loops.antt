-- ===== src/Storage/Fat/Loops.antt =====
-- The walk of `read_dir_entries` along the chain of a directory: when it ends, and when it does not
-- (fs/fat16/impls.rs of pkg/storage/src).
use operating_system_experim.Prelude.{
  ℕ, zero, suc, ◌+◌, ◌*◌, ◌/◌, ◌%◌, ◌^◌, ◌<◌, ◌≡◌, refl, ◌≢◌, true, false, ◌||◌, none, some, List,
  [], ◌∷◌, arith, leb, ◌==◌, if◌then◌else◌, length, get_or, take, drop,
}
use operating_system_experim.Storage.Outcome.{
  ok, panic, unfinished, slice, Ends, Ends-bind, Ends-branch, Ends-known,
}
use operating_system_experim.Storage.ShortName.{Text}
use operating_system_experim.Storage.DirEntry.{DirEntry, root_dir}
use operating_system_experim.Storage.Bpb.{sectors_per_cluster, bytes_per_sector}
use operating_system_experim.Storage.Fat.{
  Fat16Impl, scan_block, scan_sectors, scan_clusters, root_dir_size, cluster_to_sector, next_or_end,
  get_next_cluster,
}

slice-Ends : (bytes : List ℕ) (start len : ℕ) → Ends (slice bytes start len)
slice-Ends bytes start len =
    elim (leb (start + len) (length bytes))
      as (λ b. Ends (if b then ok (take len (drop start bytes)) else panic)) [
        | true ↦ tt
        | false ↦ tt
      ]

-- `cs` follows `c` in the table to the end of the chain.
abbrev pub Links : Fat16Impl → ℕ → List ℕ → Type 0
Links fs c [] = next_or_end (get_next_cluster fs (c % 2 ^ 16)) ≡ ok none
Links fs c (next ∷ cs) =
    (next_or_end (get_next_cluster fs (c % 2 ^ 16)) ≡ ok (some next)) × Links fs next cs

module _ {t : Text} where
  scan_block-Ends :
      (count j : ℕ) (block : List ℕ) (entries : List (DirEntry t))
      → Ends (scan_block count j block entries)
  unfolding scan_block
  scan_block-Ends zero j block entries = tt
  scan_block-Ends (suc count) j block entries =
      Ends-bind (slice block (j * 32) 32) _ (slice-Ends block (j * 32) 32) (λ bytes.
        Ends-branch (get_or bytes 0 0 == 0x00) _ _ tt (scan_block-Ends count (j + 1) block _))

  scan_sectors-Ends :
      (fs : Fat16Impl) (count sector : ℕ) (entries : List (DirEntry t))
      → ((s : ℕ) → Ends (fs.inner s))
      → Ends (scan_sectors fs count sector entries)
  unfolding scan_sectors
  scan_sectors-Ends fs zero sector entries device = tt
  scan_sectors-Ends fs (suc count) sector entries device =
      Ends-bind (fs.inner sector) _ (device sector) (λ block.
        Ends-bind (scan_block (bytes_per_sector fs.bpb / 32) 0 block entries) _
          (scan_block-Ends (bytes_per_sector fs.bpb / 32) 0 block entries)
          (λ (done, es).
            Ends-branch done _ _ tt (scan_sectors-Ends fs count (sector + 1) es device)))

  -- The listing of a directory ends, whatever its clusters hold, if the reads of the device do and
  -- the chain has an end: fuel for one cluster more than the chain has links is enough.
  pub read_dir_entries-Ends :
      (fuel : ℕ) (fs : Fat16Impl) (cluster : ℕ) (cs : List ℕ) (entries : List (DirEntry t))
      → ((s : ℕ) → Ends (fs.inner s))
      → Links fs cluster cs
      → length cs < fuel
      → Ends (scan_clusters fuel fs cluster entries)
  unfolding scan_clusters
  read_dir_entries-Ends zero fs cluster cs entries device links enough = absurd (omega arith)
  read_dir_entries-Ends (suc fuel) fs cluster [] entries device link enough =
      let count =
        if cluster == root_dir then root_dir_size fs.bpb else sectors_per_cluster fs.bpb in
      let sector = cluster_to_sector fs cluster in
      Ends-bind (scan_sectors fs count sector entries) _
        (scan_sectors-Ends fs count sector entries device)
        (λ (done, es).
          Ends-branch (done || cluster == root_dir) _ _ tt
            (Ends-known (next_or_end (get_next_cluster fs (cluster % 2 ^ 16))) none _ link tt))
  read_dir_entries-Ends (suc fuel) fs cluster (next ∷ cs) entries device (link, links) enough =
      let count =
        if cluster == root_dir then root_dir_size fs.bpb else sectors_per_cluster fs.bpb in
      let sector = cluster_to_sector fs cluster in
      Ends-bind (scan_sectors fs count sector entries) _
        (scan_sectors-Ends fs count sector entries device)
        (λ (done, es). Ends-branch (done || cluster == root_dir) _ _ tt (
          Ends-known (next_or_end (get_next_cluster fs (cluster % 2 ^ 16))) (some next) _ link
            (read_dir_entries-Ends fuel fs next cs es device links (omega arith))))

  -- A cluster, not the root directory, that the table links to itself and whose sectors can be
  -- scanned without meeting the end of the directory is listed for ever: no fuel is enough.
  pub circle-unfinished :
      (fuel : ℕ) (fs : Fat16Impl) (cluster : ℕ) (entries : List (DirEntry t))
      → cluster ≢ root_dir
      → get_next_cluster fs (cluster % 2 ^ 16) ≡ ok (some cluster)
      → ((so_far : List (DirEntry t))
          → (es : List (DirEntry t)) × (scan_sectors fs
                (sectors_per_cluster fs.bpb)
                (cluster_to_sector fs cluster)
                so_far
              ≡ ok (false, es)))
      → scan_clusters fuel fs cluster entries ≡ unfinished
  unfolding scan_clusters
  circle-unfinished zero fs cluster entries other link endless = refl
  circle-unfinished (suc fuel) fs cluster entries other link endless =
      let (es, e) = endless entries in
      ground (arith, circle-unfinished fuel fs cluster es other link endless)
