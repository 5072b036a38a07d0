-- ===== src/Tests/Drivers.antt =====
-- Runs of the drivers on a device with the same bytes in every sector.
use operating_system_experim.Prelude.{
  ℕ, zero, suc, ◌<◌, ◌≡◌, refl, ◌↔◌, true, some, List, [], ◌∷◌, ◌++◌, arith, ◌==◌, get_or,
  replicate, All, All-append,
}
use operating_system_experim.Storage.Outcome.{ok, u32_field}
use operating_system_experim.Drivers.Ata.Disk.{Disk, idle, disk_ports, disk_bus, disk_ports-Shows}
use operating_system_experim.Drivers.Ata.Transfers.{IsSector}
use operating_system_experim.Drivers.Ata.Drive.{AtaDrive, buses, write_block, open_drive}
use operating_system_experim.Drivers.Ata.Commands.{settled}
use operating_system_experim.Drivers.Ata.Identity.{open_drive-blocks}

-- A drive of 0x140 sectors.
abbrev card : List ℕ
card = replicate 120 0 ++ (0x40 ∷ 1 ∷ 0 ∷ 0 ∷ replicate 388 0)

abbrev disk : Disk
disk = record {
  sector = λ drive lba. replicate 512 7;
  identity = λ drive. card;
  present = λ drive. true;
  bad = λ drive lba. lba == 9;
  delay = 2;
  sectors = 0;
  low = 0;
  mid = 0;
  high = 0;
  select = 0;
  waiting = 0;
  phase = idle;
}

abbrev drive : AtaDrive
drive = record { bus = 0; drive = 0; blocks = 320; model = []; serial = [] }

small-replicate : (n b : ℕ) → b < 256 → All (λ x. x < 256) (replicate n b)
small-replicate zero b h = tt
small-replicate (suc n) b h = (h, small-replicate n b h)

card-IsSector : IsSector card
card-IsSector = record {
  size = refl;
  small =
      All-append (λ x. x < 256) (replicate 120 0) (0x40 ∷ 1 ∷ 0 ∷ 0 ∷ replicate 388 0)
        (small-replicate 120 0 (omega arith))
        (
          omega arith,
          (omega arith, (omega arith, (omega arith, small-replicate 388 0 (omega arith)))),
        );
}

wired : buses 0 ≡ some disk_bus
unfolding buses
wired = refl

-- The device when it has written the sector.
abbrev rested : Disk
rested = settled (write_block disk_ports 5 drive 3 (replicate 512 1) disk).0

open_drive-blocks_example :
    (a : AtaDrive) × ((open_drive disk_ports 5 (λ text. text) 0 0 disk).1 ≡ ok (some a))
    × ((a.blocks ≡ u32_field card 120)
        ↔ ((get_or card 120 0 ≡ get_or card 121 0) × (get_or card 122 0 ≡ get_or card 123 0)))
open_drive-blocks_example =
    open_drive-blocks disk_ports-Shows 5 0 0 wired (λ text. text) disk refl (omega arith)
      card-IsSector
