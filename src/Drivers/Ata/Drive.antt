-- ===== src/Drivers/Ata/Drive.antt =====
-- Drives and their blocks, pkg/kernel/src/drivers/ata/mod.rs, with the root file system's disk of
-- pkg/kernel/src/drivers/filesystem.rs behind them.
use operating_system_experim.Prelude.{
  ℕ, zero, suc, ◌+◌, ◌*◌, ◌/◌, ◌%◌, ◌^◌, Option, none, some, List, [], ◌∷◌, get_or, take, drop,
}
use operating_system_experim.Storage.Outcome.{Outcome, ok, err, panic, unfinished}
use operating_system_experim.Storage.Device.{block_size}
use operating_system_experim.Drivers.Ata.{
  Ports, AtaBus, Io, AtaDeviceType, pata, pata_pi, sata, sata_pi, no_device, identify_drive,
  read_pio, write_pio,
}

pub record AtaDrive : Type 0 where
  pub bus : ℕ
  pub drive : ℕ
  pub blocks : ℕ
  pub model : List ℕ
  pub serial : List ℕ

-- The bus behind a number; another number is out of range of the array.
unfoldable pub buses : ℕ → Option AtaBus
buses zero = some (record { id = 0; irq = 14; io_base = 0x1F0; ctrl_base = 0x3F6 })
buses (suc zero) = some (record { id = 1; irq = 15; io_base = 0x170; ctrl_base = 0x376 })
buses (suc (suc n)) = none

-- The bytes of the words, each with its high byte first.
unfoldable pub to_be_bytes : List ℕ → List ℕ
to_be_bytes [] = []
to_be_bytes (word ∷ words) = word / 256 % 256 ∷ word % 256 ∷ to_be_bytes words

-- `u32::from_le_bytes` of the four bytes at 120.
unfoldable pub block_number : List ℕ → ℕ
block_number buf =
    get_or buf 120 0
    + (256 * get_or buf 121 0 + (2 ^ 16 * get_or buf 122 0 + 2 ^ 24 * get_or buf 123 0))

module _ {S : Type 0} (ports : Ports S) (fuel : ℕ) where
  -- `trimmed` is `from_utf8_lossy` with `trim`.
  unfoldable pub opened :
      (List ℕ → List ℕ) → ℕ → ℕ → S × Outcome AtaDeviceType → S × Outcome (Option AtaDrive)
  opened trimmed bus drive (s, ok (pata words)) =
      let buf = to_be_bytes words in
      (
        s,
        ok (
            some record {
              bus = bus;
              drive = drive;
              blocks = block_number buf;
              model = trimmed (take 40 (drop 54 buf));
              serial = trimmed (take 20 (drop 20 buf));
            }),
      )
  opened trimmed bus drive (s, ok pata_pi) = (s, ok none)
  opened trimmed bus drive (s, ok sata) = (s, ok none)
  opened trimmed bus drive (s, ok sata_pi) = (s, ok none)
  opened trimmed bus drive (s, ok no_device) = (s, ok none)
  opened trimmed bus drive (s, err _) = (s, ok none)
  opened trimmed bus drive (s, panic) = (s, panic)
  opened trimmed bus drive (s, unfinished) = (s, unfinished)

  abbrev pub on_bus : {A : Type 0} → Option AtaBus → (AtaBus → Io S A) → Io S A
  on_bus none f s = (s, panic)
  on_bus (some b) f s = f b s

  unfoldable pub open_drive : (List ℕ → List ℕ) → ℕ → ℕ → Io S (Option AtaDrive)
  unfolding opened
  open_drive trimmed bus drive s =
      opened trimmed bus drive (on_bus (buses bus) (λ b. identify_drive ports b fuel drive) s)

  -- `offset as u32`
  unfoldable pub read_block : AtaDrive → ℕ → Io S (List ℕ)
  read_block d offset =
      on_bus (buses d.bus) (λ b. read_pio ports b fuel d.drive (offset % 2 ^ 32) block_size)

  unfoldable pub write_block : AtaDrive → ℕ → List ℕ → Io S (Unit {0})
  write_block d offset block =
      on_bus (buses d.bus) (λ b. write_pio ports b fuel d.drive (offset % 2 ^ 32) block)
