-- ===== src/Storage/File.antt =====
-- Reading the bytes of a file: fs/fat16/file.rs, `read_file_data` of fs/fat16/impls.rs and
-- `read_all` of common/io.rs (pkg/storage/src). What a call copies to its buffer is the list of the
-- bytes copied, which stand at the start of the buffer.
pub mod Content
pub mod Rounds
pub mod Loop
pub mod Reading
pub mod Whole
use operating_system_experim.Prelude.{
  ℕ, zero, suc, ◌+◌, ◌-◌, ◌*◌, ◌/◌, ◌%◌, ◌^◌, min, Bool, true, false, ◌&&◌, Option, none, some,
  List, [], ◌++◌, ltb, leb, ◌==◌, if◌then◌else◌, length,
}
use operating_system_experim.Storage.Outcome.{
  Outcome, ok, err, panic, unfinished, ◌>>=◌, invalid_operation, slice,
}
use operating_system_experim.Storage.ShortName.{Text}
use operating_system_experim.Storage.DirEntry.{DirEntry}
use operating_system_experim.Storage.Bpb.{bytes_per_sector, sectors_per_cluster}
use operating_system_experim.Storage.Fat.{
  Fat16Impl, cluster_to_sector, get_next_cluster, next_or_end,
}

pub record File (t : Text) : Type 0 where
  pub offset : ℕ
  pub current_cluster : ℕ
  pub entry : DirEntry t
  pub handle : Fat16Impl

abbrev pub cluster_size : Fat16Impl → ℕ
cluster_size fs = sectors_per_cluster fs.bpb * bytes_per_sector fs.bpb

-- The walk of `ensure_correct_cluster` along `count` entries of the chain.
unfoldable pub follow : Fat16Impl → ℕ → ℕ → Outcome ℕ
unfolding get_next_cluster
follow fs zero cluster = ok cluster
follow fs (suc count) cluster = elim (cluster == 0) [
  | true ↦ err invalid_operation
  | false ↦ do
    next ← get_next_cluster fs (cluster % 2 ^ 16)
    elim next [ none ↦ err invalid_operation | some cluster' ↦ follow fs count cluster' ]
]

-- The loop of `read_from_current_cluster` over the sectors `index`, ... of the cluster, of which
-- `count` are left: the first is read from `start` on. `want` bytes are still to be copied.
unfoldable pub read_sectors : Fat16Impl → ℕ → ℕ → ℕ → ℕ → Outcome (List ℕ)
read_sectors fs zero sector start want = ok []
read_sectors fs (suc count) sector start zero = ok []
read_sectors fs (suc count) sector start (suc n) = do
  block ← fs.inner sector
  let here = min (suc n) (bytes_per_sector fs.bpb - start)
  bytes ← slice block start here
  rest ← read_sectors fs count (sector + 1) 0 (suc n - here)
  ok (bytes ++ rest)

unfoldable pub read_from_cluster : Fat16Impl → ℕ → ℕ → ℕ → Outcome (List ℕ)
unfolding read_sectors cluster_to_sector
read_from_cluster fs cluster offset want =
    let first = offset / bytes_per_sector fs.bpb in
    read_sectors fs (sectors_per_cluster fs.bpb - first) (cluster_to_sector fs cluster + first)
      (offset % bytes_per_sector fs.bpb) want

-- The file as the call leaves it, the bytes copied, and the answer: the number of them.
abbrev pub Reading : Text → Type 0
Reading t = File t × List ℕ × Outcome ℕ

module _ {t : Text} where
  abbrev pub new : Fat16Impl → DirEntry t → File t
  new handle entry = record {
    offset = 0;
    current_cluster = entry.cluster;
    entry = entry;
    handle = handle;
  }

  abbrev pub file_length : File t → ℕ
  file_length f = f.entry.size

  -- A cluster of no bytes makes the division panic.
  unfoldable pub ensure_correct_cluster : File t → Outcome (File t)
  unfolding follow
  ensure_correct_cluster f = elim (cluster_size f.handle == 0) [
    | true ↦ panic
    | false ↦ elim (f.offset / cluster_size f.handle == 0) [
      | true ↦ ok (record f { current_cluster = f.entry.cluster })
      | false ↦ do
        cluster ← follow f.handle (f.offset / cluster_size f.handle) f.entry.cluster
        ok (record f { current_cluster = cluster })
    ]
  ]

  unfoldable pub move_to_next_cluster : File t → Outcome (Bool × File t)
  unfolding get_next_cluster
  move_to_next_cluster f = elim (f.current_cluster == 0) [
    | true ↦ ok (false, f)
    | false ↦ do
      next ← get_next_cluster f.handle (f.current_cluster % 2 ^ 16)
      elim next [
        | none ↦ ok (false, f)
        | some cluster ↦ ok (true, record f { current_cluster = cluster })
      ]
  ]

  -- What is left to do after the bytes so far and the answer of a step.
  abbrev pub then_read : {A : Type 0} → File t → List ℕ → Outcome A → (A → Reading t) → Reading t
  then_read f bytes (ok a) k = k a
  then_read f bytes (err e) k = (f, bytes, err e)
  then_read f bytes panic k = (f, bytes, panic)
  then_read f bytes unfinished k = (f, bytes, unfinished)

  -- The loop of `read` with the bytes so far, `want` in all. Each round but the last copies a byte
  -- or more.
  unfoldable pub read_loop : ℕ → File t → ℕ → List ℕ → Reading t
  unfolding read_from_cluster move_to_next_cluster
  read_loop zero f want bytes =
      (f, bytes, if ltb (length bytes) want then unfinished else ok (length bytes))
  read_loop (suc fuel) f want bytes = elim (ltb (length bytes) want) [
    | false ↦ (f, bytes, ok (length bytes))
    | true ↦
        let size = cluster_size f.handle in
        let here = f.offset % size in
        let chunk = min (want - length bytes) (size - here) in
        then_read f bytes (read_from_cluster f.handle f.current_cluster here chunk) (λ more.
          let bytes' = bytes ++ more in
          let f' = record f { offset = f.offset + length more } in
          elim (ltb (length more) chunk) [
            | true ↦ (f', bytes', ok (length bytes'))
            | false ↦ elim (ltb (length bytes') want && f'.offset % size == 0) [
              | false ↦ read_loop fuel f' want bytes'
              | true ↦ then_read f' bytes' (move_to_next_cluster f') (λ (moved, f''). elim moved [
                | false ↦ (f'', bytes', ok (length bytes'))
                | true ↦ read_loop fuel f'' want bytes'
              ])
            ]
          ])
  ]

  -- `read` into a buffer of `n` bytes.
  unfoldable pub read : File t → ℕ → Reading t
  unfolding ensure_correct_cluster read_loop
  read f n = elim (leb f.entry.size f.offset) [
    | true ↦ (f, [], ok 0)
    | false ↦
        let want = min n (f.entry.size - f.offset) in
        elim (want == 0) [
          | true ↦ (f, [], ok 0)
          | false ↦ then_read f [] (ensure_correct_cluster f) (λ f'. read_loop want f' want [])
        ]
  ]

  -- `read_all` in pieces of 1024 bytes: the file, the bytes added to the vector, and the answer.
  unfoldable pub read_all : ℕ → File t → List ℕ → Reading t
  unfolding read
  read_all zero f bytes = (f, bytes, unfinished)
  read_all (suc fuel) f bytes =
      let (f', piece, answer) = read f 1024 in
      then_read f' bytes answer (λ n. elim (n == 0) [
        | true ↦ (f', bytes, ok (length bytes))
        | false ↦ read_all fuel f' (bytes ++ piece)
      ])

-- `read_file_data`: the loop that leaves out the clusters before `offset`, with the cluster and the
-- offset of its first byte; `none` at the end of the chain.
unfoldable pub skip_clusters : ℕ → Fat16Impl → ℕ → ℕ → ℕ → Outcome (Option (ℕ × ℕ))
unfolding get_next_cluster
skip_clusters zero fs offset cluster file_offset = unfinished
skip_clusters (suc fuel) fs offset cluster file_offset =
    elim (leb (file_offset + cluster_size fs) offset) [
      | false ↦ ok (some (cluster, file_offset))
      | true ↦ do
        next ← next_or_end (get_next_cluster fs cluster)
        elim next [
          | none ↦ ok none
          | some cluster' ↦ skip_clusters fuel fs offset cluster' (file_offset + cluster_size fs)
        ]
    ]

-- The loop over the `count` sectors of a cluster that are left: the next one starts at `position`
-- of the file. Where `offset` is past its end, the subtraction panics.
unfoldable pub data_sectors : Fat16Impl → ℕ → ℕ → ℕ → ℕ → ℕ → Outcome (List ℕ)
data_sectors fs offset zero sector position want = ok []
data_sectors fs offset (suc count) sector position zero = ok []
data_sectors fs offset (suc count) sector position (suc n) = do
  block ← fs.inner sector
  elim (ltb (bytes_per_sector fs.bpb) (offset - position)) [
    | true ↦ panic
    | false ↦ do
      let here = min (bytes_per_sector fs.bpb - (offset - position)) (suc n)
      bytes ← if here == 0 then ok [] else slice block (offset - position) here
      rest ←
          data_sectors fs offset count (sector + 1) (position + bytes_per_sector fs.bpb)
            (suc n - here)
      ok (bytes ++ rest)
  ]

-- The loop over the clusters, until `want` bytes are copied.
unfoldable pub data_clusters : ℕ → Fat16Impl → ℕ → ℕ → ℕ → ℕ → Outcome (List ℕ)
unfolding data_sectors get_next_cluster cluster_to_sector
data_clusters fuel fs offset cluster file_offset zero = ok []
data_clusters zero fs offset cluster file_offset (suc n) = unfinished
data_clusters (suc fuel) fs offset cluster file_offset (suc n) = do
  bytes ←
      data_sectors fs offset (sectors_per_cluster fs.bpb) (cluster_to_sector fs cluster) file_offset
        (suc n)
  next ← next_or_end (get_next_cluster fs cluster)
  elim next [
    | none ↦ ok bytes
    | some cluster' ↦ do
      rest ←
          data_clusters fuel fs offset cluster' (file_offset + cluster_size fs)
            (suc n - length bytes)
      ok (bytes ++ rest)
  ]

unfoldable pub read_file_data : ℕ → Fat16Impl → ℕ → ℕ → ℕ → Outcome (List ℕ)
unfolding skip_clusters data_clusters
read_file_data fuel fs start_cluster offset want = do
  found ← skip_clusters fuel fs offset start_cluster 0
  elim found [
    | none ↦ ok []
    | some (cluster, file_offset) ↦ data_clusters fuel fs offset cluster file_offset want
  ]
