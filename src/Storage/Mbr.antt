-- ===== src/Storage/Mbr.antt =====
-- The master boot record: partition/mbr/entry.rs and partition/mbr/mod.rs of pkg/storage/src.
-- Messages to the log are left out.
pub mod Entry
pub mod Table
use operating_system_experim.Prelude.{ℕ, zero, suc, ◌+◌, ◌*◌, List, [], ◌∷◌, if◌then◌else◌}
use operating_system_experim.Storage.Outcome.{Outcome, ok, ◌>>=◌, slice}
use operating_system_experim.Storage.Mbr.Entry.{is_active, begin_lba, total_lba}
use operating_system_experim.Storage.Device.{BlockDevice, Partition}

pub record MbrTable (S : Type 0) : Type 0 where
  pub inner : BlockDevice S
  pub partitions : List (List ℕ)

-- The loop of `parse` over the entries from number `i` on.
unfoldable pub parse_entries : ℕ → ℕ → List ℕ → Outcome (List (List ℕ))
parse_entries zero i buffer = ok []
parse_entries (suc count) i buffer = do
  part ← slice buffer (0x1BE + i * 16) 16
  rest ← parse_entries count (i + 1) buffer
  ok (part ∷ rest)

module _ {S : Type 0} where
  unfoldable pub parse : BlockDevice S → S → Outcome (MbrTable S)
  unfolding parse_entries
  parse device s = do
    buffer ← device.read_block s 0
    parts ← parse_entries 4 0 buffer
    ok (record { inner = device; partitions = parts })

  -- The loop of `partitions`.
  unfoldable pub active_partitions : BlockDevice S → List (List ℕ) → List (Partition S)
  active_partitions device [] = []
  active_partitions device (part ∷ parts) =
      let rest = active_partitions device parts in
      if is_active part
      then record { inner = device; offset = begin_lba part; size = total_lba part } ∷ rest
      else rest

  unfoldable pub partitions : MbrTable S → List (Partition S)
  unfolding active_partitions
  partitions table = active_partitions table.inner table.partitions
