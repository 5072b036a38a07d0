-- ===== src/Storage/Device.antt =====
-- Block devices and partitions: common/device.rs, common/block.rs and partition/mod.rs of
-- pkg/storage/src. A block is the list of its 512 bytes.
pub mod Isolation
use operating_system_experim.Prelude.{ℕ, ◌+◌, List, leb, if◌then◌else◌, replicate}
use operating_system_experim.Storage.Outcome.{Outcome, err, invalid_offset}

abbrev pub block_size : ℕ
block_size = 512

abbrev pub default_block : List ℕ
default_block = replicate block_size 0

-- The trait, with the state `S` of the device behind it: a read does not change it.
pub record BlockDevice (S : Type 0) : Type 0 where
  pub block_count : S → Outcome ℕ
  pub read_block : S → ℕ → Outcome (List ℕ)
  pub write_block : S → ℕ → List ℕ → S × Outcome Unit

pub record Partition (S : Type 0) : Type 0 where
  pub inner : BlockDevice S
  pub offset : ℕ
  pub size : ℕ

module _ {S : Type 0} where
  abbrev pub partition_block_count : Partition S → S → Outcome ℕ
  partition_block_count part s = part.inner.block_count s

  unfoldable pub partition_read : Partition S → S → ℕ → Outcome (List ℕ)
  partition_read part s offset =
      if leb part.size offset
      then err invalid_offset
      else part.inner.read_block s (part.offset + offset)

  unfoldable pub partition_write : Partition S → S → ℕ → List ℕ → S × Outcome Unit
  partition_write part s offset block =
      if leb part.size offset
      then (s, err invalid_offset)
      else part.inner.write_block s (part.offset + offset) block

  -- A partition is a block device again.
  abbrev pub partition_device : Partition S → BlockDevice S
  partition_device part = record {
    block_count = partition_block_count part;
    read_block = partition_read part;
    write_block = partition_write part;
  }
