-- ===== src/Drivers/Ata/Blocks.antt =====
-- A drive as an array of sectors: `read_block` and `write_block` of pkg/kernel/src/drivers/ata/mod.rs
-- on hardware that shows a device at its ports.
use operating_system_experim.Prelude.{
  ℕ, ◌%◌, ◌^◌, ◌<◌, ◌≡◌, refl, ◌∙◌, Bool, true, false, some, List, arith, if◌then◌else◌,
}
use operating_system_experim.Storage.Outcome.{
  Outcome, ok, err, device_error, device_invalid_operation,
}
use operating_system_experim.Drivers.Ata.{Ports, AtaBus, write_pio}
use operating_system_experim.Drivers.Ata.Disk.{Disk, Shows, seen, disk_ports, disk_bus}
use operating_system_experim.Drivers.Ata.Commands.{settled}
use operating_system_experim.Drivers.Ata.Simulation.{write_pio-Sim}
use operating_system_experim.Drivers.Ata.Transfers.{
  IsSector, served, unserved, written, lba28, write_pio-good, write_pio-bad,
}
use operating_system_experim.Drivers.Ata.Drive.{AtaDrive, buses, write_block}

-- A drive that answers within the fuel, with whole sectors.
pub record Ready (fuel drive : ℕ) (d : Disk) : Type 0 where
  pub there : d.present (drive % 2) ≡ true
  pub patient : d.delay < fuel
  pub whole : (lba : ℕ) → IsSector (d.sector (drive % 2) lba)

-- The sector behind a block number, of which 28 bits reach the drive.
offset_lba : (offset : ℕ) → lba28 (offset % 2 ^ 32) ≡ offset % 2 ^ 28
offset_lba offset = omega arith

-- What a read makes of the device and answers.
abbrev pub reading : AtaDrive → ℕ → Disk → Disk × Outcome (List ℕ)
reading a offset d =
    if d.bad (a.drive % 2) (offset % 2 ^ 28)
    then (unserved a.drive (offset % 2 ^ 32) d, err (device_error device_invalid_operation))
    else (served a.drive (offset % 2 ^ 32) d, ok (d.sector (a.drive % 2) (offset % 2 ^ 28)))

-- What a write makes of it.
abbrev pub writing : AtaDrive → ℕ → List ℕ → Disk → Disk × Outcome (Unit {0})
writing a offset bytes d =
    if d.bad (a.drive % 2) (offset % 2 ^ 28)
    then (unserved a.drive (offset % 2 ^ 32) d, err (device_error device_invalid_operation))
    else (written (a.drive % 2) (offset % 2 ^ 28) bytes (served a.drive (offset % 2 ^ 32) d), ok tt)

module _ {S : Type 0} {ports : Ports S} {bus : AtaBus} {view : S → Disk}
    (shows : Shows ports bus view) (fuel : ℕ) (a : AtaDrive) (wired : buses a.bus ≡ some bus) where
  write_cases :
      (offset : ℕ) (bytes : List ℕ) (d : Disk) (b : Bool)
      → d.bad (a.drive % 2) (offset % 2 ^ 28) ≡ b
      → Ready fuel a.drive d
      → IsSector bytes
      → write_pio disk_ports disk_bus fuel a.drive (offset % 2 ^ 32) bytes d
        ≡ writing a offset bytes d
  write_cases offset bytes d true e h k = rw e (
      write_pio-bad fuel a.drive (offset % 2 ^ 32) d h.there h.patient bytes
        (rw (offset_lba offset) e))
  write_cases offset bytes d false e h k = rw e (
      write_pio-good fuel a.drive (offset % 2 ^ 32) d h.there h.patient bytes
        (rw (offset_lba offset) e) k
      ∙ λ i. (
        written (a.drive % 2) (offset_lba offset i) bytes (served a.drive (offset % 2 ^ 32) d),
        ok tt,
      ))

  pub write_block-sector :
      (offset : ℕ) (bytes : List ℕ) (s : S)
      → Ready fuel a.drive (view s)
      → IsSector bytes
      → seen view (write_block ports fuel a offset bytes s) ≡ writing a offset bytes (view s)
  unfolding write_block
  write_block-sector offset bytes s h k = rw wired (
      (write_pio-Sim view shows fuel a.drive (offset % 2 ^ 32) bytes k.small).run s
      ∙ write_cases offset bytes (view s) ((view s).bad (a.drive % 2) (offset % 2 ^ 28)) refl h k)

  -- The device once it has written the sector.
  abbrev finished : ℕ → List ℕ → Disk → Disk
  finished offset bytes d =
      settled (written (a.drive % 2) (offset % 2 ^ 28) bytes (served a.drive (offset % 2 ^ 32) d))
