-- ===== src/Drivers/Ata/Disk.antt =====
-- The hardware that the driver of pkg/kernel/src/drivers/ata relies on, as the ATA standard documents
-- it: two drives behind one bus, with the commands that the driver gives, in 28-bit LBA mode. The
-- ports of a bus are assumed to show such a device, by the laws of `Shows`. A command that is given
-- while the device is busy, for which the standard has no rule, is taken like any other.
use operating_system_experim.Prelude.{
  ℕ, zero, suc, ◌+◌, ◌-◌, ◌*◌, ◌/◌, ◌%◌, ◌^◌, ◌≤◌, ◌<◌, ◌≡◌, refl, ap, Bool, List, [], ◌∷◌, ◌++◌,
  arith, ◌==◌, if◌then◌else◌, update,
}
use operating_system_experim.Drivers.Ata.{
  Ports, AtaBus, read_pio_command, write_pio_command, identify_device,
}

-- What the device does: nothing, or it has bytes for the host, or it waits for words of a sector, or
-- it has refused a command.
pub data Phase : Type 0 where
  idle refused : Phase
  sending : List ℕ → Phase
  receiving : (drive lba left : ℕ) → List ℕ → Phase

-- The contents are by drive and sector. `delay` is the number of reads of the status for which a
-- command, and the sector of a write, keep the device busy, `waiting` those that are left.
pub record Disk : Type 0 where
  pub sector : ℕ → ℕ → List ℕ
  pub identity : ℕ → List ℕ
  pub present : ℕ → Bool
  pub bad : ℕ → ℕ → Bool
  pub delay : ℕ
  pub sectors : ℕ
  pub low : ℕ
  pub mid : ℕ
  pub high : ℕ
  pub select : ℕ
  pub waiting : ℕ
  pub phase : Phase

abbrev pub selected : Disk → ℕ
selected d = d.select / 16 % 2

abbrev pub address : Disk → ℕ
address d = d.low + 2 ^ 8 * d.mid + 2 ^ 16 * d.high + 2 ^ 24 * (d.select % 16)

abbrev pub phase_status : Phase → ℕ
phase_status idle = 0x40
phase_status refused = 0x41
phase_status (sending _) = 0x48
phase_status (receiving _ _ _ _) = 0x48

abbrev pub waiting_status : ℕ → Phase → ℕ
waiting_status zero p = phase_status p
waiting_status (suc n) p = 0xC0

-- The status of an absent drive has no bit set.
abbrev pub status_value : Disk → ℕ
status_value d = if d.present (selected d) then waiting_status d.waiting d.phase else 0

abbrev pub see_status : Disk → Disk × ℕ
see_status d = (record d { waiting = d.waiting - 1 }, status_value d)

-- The alternate status does not end a wait.
abbrev pub see_alternate : Disk → Disk × ℕ
see_alternate d = (d, status_value d)

abbrev pub see_error : Disk → Disk × ℕ
see_error d = (d, 0)

abbrev pub remain : List ℕ → Phase
remain [] = idle
remain (b ∷ bs) = sending (b ∷ bs)

abbrev pub send_word : Disk → Phase → Disk × ℕ
send_word d (sending (a ∷ b ∷ rest)) = (record d { phase = remain rest }, a + 256 * b)
send_word d p = (d, 0)

abbrev pub see_data : Disk → Disk × ℕ
see_data d = send_word d d.phase

abbrev pub put_sector : ℕ → ℕ → List ℕ → Disk → Disk
put_sector drive lba bytes d = record d {
  sector = update d.sector drive (update (d.sector drive) lba bytes);
  waiting = d.delay;
  phase = idle;
}

-- A word for the sector; with the last one the sector is kept, and the device is busy again until it
-- has written it.
abbrev pub take_word : ℕ → Disk → Phase → Disk
take_word word d (receiving drive lba (suc zero) bytes) =
    put_sector drive lba (bytes ++ word % 256 ∷ word / 256 ∷ []) d
take_word word d (receiving drive lba (suc (suc left)) bytes) = record d {
  phase = receiving drive lba (suc left) (bytes ++ word % 256 ∷ word / 256 ∷ []);
}
take_word word d p = d

abbrev pub get_data : ℕ → Disk → Disk
get_data word d = take_word word d d.phase

-- A command on the drive that is selected, where there is one.
abbrev pub started : ℕ → ℕ → Disk → Phase
started drive command d =
    if command == read_pio_command
    then (if d.bad drive (address d) then refused else sending (d.sector drive (address d)))
    else (if command == write_pio_command
        then (if d.bad drive (address d) then refused else receiving drive (address d) 256 [])
        else (if command == identify_device then sending (d.identity drive) else refused))

-- The signature of an ATA drive stands in the registers after it is identified.
abbrev pub signature : ℕ → ℕ → ℕ
signature command n = if command == identify_device then 0 else n

abbrev pub get_command : ℕ → Disk → Disk
get_command command d =
    if d.present (selected d)
    then record d {
      waiting = d.delay;
      phase = started (selected d) command d;
      mid = signature command d.mid;
      high = signature command d.high;
    }
    else d

abbrev pub get_register : ℕ → ℕ → Disk → Disk
get_register index value d =
    if index == 2
    then record d { sectors = value }
    else (if index == 3
        then record d { low = value }
        else (if index == 4
            then record d { mid = value }
            else (if index == 5
                then record d { high = value }
                else (if index == 6 then record d { select = value } else get_command value d))))

module _ {S : Type 0} where
  abbrev pub seen : {A : Type 0} → (S → Disk) → S × A → Disk × A
  seen view (s, a) = (view s, a)

  -- What the driver sees and does at the ports is what such a device shows and takes.
  pub record Shows (ports : Ports S) (bus : AtaBus) (view : S → Disk) : Type 0 where
    pub status : (s : S) → seen view (ports.read_u8 (bus.io_base + 7) s) ≡ see_status (view s)
    pub alternate : (s : S) → seen view (ports.read_u8 bus.ctrl_base s) ≡ see_alternate (view s)
    pub error : (s : S) → seen view (ports.read_u8 (bus.io_base + 1) s) ≡ see_error (view s)
    pub mid : (s : S) → seen view (ports.read_u8 (bus.io_base + 4) s) ≡ (view s, (view s).mid)
    pub high : (s : S) → seen view (ports.read_u8 (bus.io_base + 5) s) ≡ (view s, (view s).high)
    pub data_in : (s : S) → seen view (ports.read_u16 bus.io_base s) ≡ see_data (view s)
    pub data_out :
        (word : ℕ) (s : S)
        → word < 2 ^ 16
        → view (ports.write_u16 bus.io_base word s) ≡ get_data word (view s)
    pub registers :
        (index value : ℕ) (s : S)
        → 2 ≤ index
        → index ≤ 7
        → view (ports.write_u8 (bus.io_base + index) value s) ≡ get_register index value (view s)

-- The device itself at the ports of a bus.
abbrev pub disk_bus : AtaBus
disk_bus = record { id = 0; irq = 14; io_base = 0x1F0; ctrl_base = 0x3F6 }

abbrev pub disk_read_u8 : ℕ → Disk → Disk × ℕ
disk_read_u8 port d =
    if port == 0x1F7
    then see_status d
    else (if port == 0x3F6
        then see_alternate d
        else (if port == 0x1F4
            then (d, d.mid)
            else (if port == 0x1F5 then (d, d.high) else (d, 0))))

abbrev pub disk_ports : Ports Disk
disk_ports = record {
  read_u8 = disk_read_u8;
  read_u16 = λ port d. see_data d;
  write_u8 = λ port value d. get_register (port - 0x1F0) value d;
  write_u16 = λ port word d. get_data word d;
}

port_index : (index : ℕ) → 0x1F0 + index - 0x1F0 ≡ index
port_index index = omega arith

pub disk_ports-Shows : Shows disk_ports disk_bus (λ d. d)
disk_ports-Shows = record {
  status = λ s. refl;
  alternate = λ s. refl;
  error = λ s. refl;
  mid = λ s. refl;
  high = λ s. refl;
  data_in = λ s. refl;
  data_out = λ word s _. refl;
  registers = λ index value s _ _. ap (λ i. get_register i value s) (port_index index);
}
