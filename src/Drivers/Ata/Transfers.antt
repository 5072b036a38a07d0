-- ===== src/Drivers/Ata/Transfers.antt =====
-- The words of a sector between the device and a buffer.
use operating_system_experim.Prelude.{
  ℕ, zero, suc, ◌+◌, ◌-◌, ◌*◌, ◌/◌, ◌%◌, ◌^◌, ◌<◌, ◌≡◌, refl, sym, ap, ◌∙◌, true, false, List, [],
  ◌∷◌, ◌++◌, append_assoc, arith, if◌then◌else◌, length, All,
}
use operating_system_experim.Storage.Outcome.{ok, err, device_error, device_invalid_operation}
use operating_system_experim.Drivers.Ata.{
  after, give, done, read_data, write_data, read_chunks, read_pio, write_chunks, write_pio,
  read_pio_command, write_pio_command,
}
use operating_system_experim.Drivers.Ata.Disk.{
  Disk, idle, refused, sending, receiving, remain, selected, started, put_sector, disk_ports,
  disk_bus,
}
use operating_system_experim.Drivers.Ata.Commands.{
  addressed, settled, selected-addressed, address-addressed, is_error-settled, is_error-idle,
  write_command-data, write_command-refused,
}

-- Bytes in pairs, which make words.
abbrev pub Words : List ℕ → Type 0
Words [] = Unit
Words (a ∷ []) = ⊥
Words (a ∷ b ∷ rest) = (a < 256) × (b < 256) × Words rest

Words-even : (bytes : List ℕ) → All (λ b. b < 256) bytes → length bytes % 2 ≡ 0 → Words bytes
Words-even [] h e = tt
Words-even (a ∷ []) h e = absurd (omega arith)
Words-even (a ∷ b ∷ rest) h e = (h.0, h.1.0, Words-even rest h.1.1 (omega arith))

pub low_byte : (a b : ℕ) → a < 256 → (a + 256 * b) % 256 ≡ a
low_byte a b h = omega arith

pub high_byte : (a b : ℕ) → a < 256 → b < 256 → (a + 256 * b) / 256 % 256 ≡ b
high_byte a b h k = omega arith

high_byte_word : (a b : ℕ) → a < 256 → (a + 256 * b) / 256 ≡ b
high_byte_word a b h = omega arith

read_chunks-disk :
    (bytes : List ℕ) (d : Disk)
    → Words bytes
    → read_chunks disk_ports disk_bus (length bytes) (record d { phase = remain bytes })
      ≡ (record d { phase = idle }, ok bytes)
unfolding read_chunks read_data
read_chunks-disk [] d h = refl
read_chunks-disk (a ∷ []) d h = absurd h
read_chunks-disk (a ∷ b ∷ rest) d h =
    ap (λ r. after r (λ rest. give ((a + 256 * b) % 256 ∷ (a + 256 * b) / 256 % 256 ∷ rest)))
      (read_chunks-disk rest d h.2)
    ∙ λ i. (record d { phase = idle }, ok (low_byte a b h.0 i ∷ high_byte a b h.0 h.1 i ∷ rest))

-- The words of a buffer make up the sector.
write_chunks-disk :
    (bytes acc : List ℕ) (drive lba left : ℕ) (d : Disk)
    → Words bytes
    → length bytes ≡ 2 * suc left
    → write_chunks disk_ports disk_bus bytes
        (record d { phase = receiving drive lba (suc left) acc })
      ≡ done (put_sector drive lba (acc ++ bytes) d)
unfolding write_chunks write_data
write_chunks-disk [] acc drive lba left d h e = absurd (omega arith)
write_chunks-disk (a ∷ []) acc drive lba left d h e = absurd h
write_chunks-disk (a ∷ b ∷ []) acc drive lba zero d h e =
    λ i. done (put_sector drive lba (acc ++ low_byte a b h.0 i ∷ high_byte_word a b h.0 i ∷ []) d)
write_chunks-disk (a ∷ b ∷ c ∷ rest) acc drive lba zero d h e = absurd (omega arith)
write_chunks-disk (a ∷ b ∷ rest) acc drive lba (suc left) d h e =
    (λ i. write_chunks disk_ports disk_bus rest (record d {
      phase =
          receiving drive lba (suc left)
            (acc ++ low_byte a b h.0 i ∷ high_byte_word a b h.0 i ∷ []);
    }))
    ∙ write_chunks-disk rest (acc ++ a ∷ b ∷ []) drive lba left d h.2 (omega arith)
    ∙ ap (λ l. done (put_sector drive lba l d)) (append_assoc acc (a ∷ b ∷ []) rest)

-- A sector is 512 bytes.
pub record IsSector (bytes : List ℕ) : Type 0 where
  pub size : length bytes ≡ 512
  pub small : All (λ b. b < 256) bytes

pub IsSector-Words : {bytes : List ℕ} → IsSector bytes → Words bytes
IsSector-Words {bytes} h = Words-even bytes h.small (omega (arith, h.size))

pub sending-remain : (bytes : List ℕ) → 0 < length bytes → sending bytes ≡ remain bytes
sending-remain [] h = absurd (omega arith)
sending-remain (b ∷ bytes) h = refl

pub sector_size : {bytes : List ℕ} → IsSector bytes → 0 < length bytes
sector_size h = omega (arith, h.size)

read_chunks-sector :
    (bytes : List ℕ) (d : Disk)
    → IsSector bytes
    → read_chunks disk_ports disk_bus 512 (record d { phase = sending bytes })
      ≡ (record d { phase = idle }, ok bytes)
read_chunks-sector bytes d h =
    (λ i.
      read_chunks disk_ports disk_bus (sym h.size i)
        (record d { phase = sending-remain bytes (sector_size h) i }))
    ∙ read_chunks-disk bytes d (IsSector-Words h)

write_chunks-sector :
    (bytes : List ℕ) (drive lba : ℕ) (d : Disk)
    → IsSector bytes
    → write_chunks disk_ports disk_bus bytes (record d { phase = receiving drive lba 256 [] })
      ≡ done (put_sector drive lba bytes d)
write_chunks-sector bytes drive lba d h =
    write_chunks-disk bytes [] drive lba 255 d (IsSector-Words h) (omega (arith, h.size))

-- The device when it has served a command.
abbrev pub served : ℕ → ℕ → Disk → Disk
served drive block d = record (addressed drive block d) { waiting = 0; phase = idle }

-- The device when it has refused one.
abbrev pub unserved : ℕ → ℕ → Disk → Disk
unserved drive block d = record (addressed drive block d) { waiting = 0; phase = refused }

-- The device when the words of a write are over and its status has been read once.
abbrev pub written : ℕ → ℕ → List ℕ → Disk → Disk
written drive lba bytes d = record (put_sector drive lba bytes d) { waiting = d.delay - 1 }

abbrev pub lba28 : ℕ → ℕ
lba28 block = block % 2 ^ 28

module _ (fuel drive block : ℕ) (d : Disk) (there : d.present (drive % 2) ≡ true)
    (patient : d.delay < fuel) where
  abbrev chosen : Disk
  chosen = addressed drive block d

  here : d.present (selected chosen) ≡ true
  here = rw (selected-addressed drive block d) there

  started-read : started (selected chosen) read_pio_command chosen ≡ (
      if d.bad (drive % 2) (lba28 block)
      then refused
      else sending (d.sector (drive % 2) (lba28 block)))
  started-read = rw (selected-addressed drive block d) (rw (address-addressed drive block d))

  started-write : started (selected chosen) write_pio_command chosen ≡ (
      if d.bad (drive % 2) (lba28 block)
      then refused
      else receiving (drive % 2) (lba28 block) 256 [])
  started-write = rw (selected-addressed drive block d) (rw (address-addressed drive block d))

  pub read_pio-good :
      (bytes : List ℕ)
      → d.sector (drive % 2) (lba28 block) ≡ bytes
      → d.bad (drive % 2) (lba28 block) ≡ false
      → IsSector bytes
      → read_pio disk_ports disk_bus fuel drive block 512 d ≡ (served drive block d, ok bytes)
  unfolding read_pio
  read_pio-good bytes e good h =
      rw
        (write_command-data fuel drive block read_pio_command d (sending bytes) there patient
          (started-read ∙ rw good (ap sending e)) refl)
        (rw (read_chunks-sector bytes (settled chosen) h)
          (rw (is_error-settled (record chosen { phase = idle }) here)))

  pub read_pio-bad :
      d.bad (drive % 2) (lba28 block) ≡ true
      → read_pio disk_ports disk_bus fuel drive block 512 d
        ≡ (unserved drive block d, err (device_error device_invalid_operation))
  unfolding read_pio
  read_pio-bad bad = rw (
      write_command-refused fuel drive block read_pio_command d refused there patient
        (started-read ∙ rw bad) refl)

  pub write_pio-good :
      (bytes : List ℕ)
      → d.bad (drive % 2) (lba28 block) ≡ false
      → IsSector bytes
      → write_pio disk_ports disk_bus fuel drive block bytes d
        ≡ done (written (drive % 2) (lba28 block) bytes (served drive block d))
  unfolding write_pio
  write_pio-good bytes good h =
      rw
        (write_command-data fuel drive block write_pio_command d
          (receiving (drive % 2) (lba28 block) 256 []) there patient (started-write ∙ rw good) refl)
        (rw (write_chunks-sector bytes (drive % 2) (lba28 block) (settled chosen) h) (
          rw (
            is_error-idle (put_sector (drive % 2) (lba28 block) bytes (settled chosen)) here refl)))

  pub write_pio-bad :
      (bytes : List ℕ)
      → d.bad (drive % 2) (lba28 block) ≡ true
      → write_pio disk_ports disk_bus fuel drive block bytes d
        ≡ (unserved drive block d, err (device_error device_invalid_operation))
  unfolding write_pio
  write_pio-bad bytes bad = rw (
      write_command-refused fuel drive block write_pio_command d refused there patient
        (started-write ∙ rw bad) refl)
