-- ===== src/Storage/Device/Isolation.antt =====
-- Several partitions of one device, partition/mod.rs of pkg/storage/src.
use operating_system_experim.Prelude.{ℕ, ◌+◌, ◌≡◌, ◌≢◌, List, arith}
use operating_system_experim.Storage.Outcome.{ok}
use operating_system_experim.Storage.Device.{
  BlockDevice, Partition, partition_read, partition_write, partition_device,
}

-- A write to one block leaves the other blocks as they are.
abbrev pub Local : {S : Type 0} → BlockDevice S → Type 0
Local {S} d =
    (s : S) (i j : ℕ) (block : List ℕ)
    → i ≢ j
    → d.read_block (d.write_block s i block).0 j ≡ d.read_block s j

-- A block that was written is read back, where the write succeeds.
abbrev pub Faithful : {S : Type 0} → BlockDevice S → Type 0
Faithful {S} d =
    (s : S) (i : ℕ) (block : List ℕ)
    → (d.write_block s i block).1 ≡ ok tt
    → d.read_block (d.write_block s i block).0 i ≡ ok block

module _ {S : Type 0} where
  -- If a write to the device changes no other block and is read back where it succeeds, the same
  -- holds of a partition of it, as a device.
  pub partition_device-laws :
      (p : Partition S)
      → Local p.inner
      → Faithful p.inner
      → Local (partition_device p) × Faithful (partition_device p)
  unfolding partition_read partition_write
  partition_device-laws p law read = (
    λ s i j block h. ground (arith, law s (p.offset + i) (p.offset + j) block),
    λ s i block h. ground (arith, read s (p.offset + i) block),
  )
