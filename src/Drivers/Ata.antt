-- ===== src/Drivers/Ata.antt =====
-- The bus and the drives of pkg/kernel/src/drivers/ata: bus.rs, consts.rs and mod.rs. The ports are
-- those of the crate x86_64, with the state `S` of the hardware behind them. What is logged is left
-- out, but for the registers that are read for it.
pub mod Blocks
pub mod Commands
pub mod Disk
pub mod Drive
pub mod Identity
pub mod Simulation
pub mod Transfers
use operating_system_experim.Prelude.{
  ℕ, zero, suc, ◌+◌, ◌*◌, ◌/◌, ◌%◌, ◌^◌, Bool, true, false, not, ◌&&◌, List, [], ◌∷◌, ◌==◌,
  if◌then◌else◌,
}
use operating_system_experim.Storage.Outcome.{
  Outcome, ok, err, panic, unfinished, device_error, DeviceError, unknown_device,
  device_invalid_operation, read_error, write_error,
}

pub record Ports (S : Type 0) : Type 0 where
  pub read_u8 : ℕ → S → S × ℕ
  pub read_u16 : ℕ → S → S × ℕ
  pub write_u8 : ℕ → ℕ → S → S
  pub write_u16 : ℕ → ℕ → S → S

-- A bus by its first ports: `data` is at `io_base`, and `command` and `status` are at `io_base + 7`.
pub record AtaBus : Type 0 where
  pub id : ℕ
  pub irq : ℕ
  pub io_base : ℕ
  pub ctrl_base : ℕ

-- An access to the hardware, which changes its state whatever it answers.
abbrev pub Io : Type 0 → Type 0 → Type 0
Io S A = S → S × Outcome A

abbrev pub after : {S A B : Type 0} → S × Outcome A → (A → Io S B) → S × Outcome B
after (s, ok a) f = f a s
after (s, err e) f = (s, err e)
after (s, panic) f = (s, panic)
after (s, unfinished) f = (s, unfinished)

infixl 5 ◌>>=◌ ◌>>◌
abbrev pub ◌>>=◌ : {S A B : Type 0} → Io S A → (A → Io S B) → Io S B
(m >>= f) s = after (m s) f

abbrev pub ◌>>◌ : {S B : Type 0} → Io S (Unit {0}) → Io S B → Io S B
(m >> k) s = after (m s) (λ _. k)

abbrev pub give : {S A : Type 0} → A → Io S A
give a s = (s, ok a)

abbrev pub fail : {S A : Type 0} → DeviceError → Io S A
fail e s = (s, err (device_error e))

abbrev pub unended : {S A : Type 0} → Io S A
unended s = (s, unfinished)

-- What a port answers, and that a port was written.
abbrev pub answer : {S A : Type 0} → S × A → S × Outcome A
answer (s, a) = (s, ok a)

abbrev pub done : {S : Type 0} → S → S × Outcome (Unit {0})
done s = (s, ok tt)

-- `AtaStatus`, by the places of its bits
abbrev pub busy : ℕ
busy = 128

abbrev pub data_request_ready : ℕ
data_request_ready = 8

abbrev pub error_bit : ℕ
error_bit = 1

abbrev pub intersects : ℕ → ℕ → Bool
intersects status bit = status / bit % 2 == 1

-- `AtaCommand`, as far as it is used
abbrev pub read_pio_command : ℕ
read_pio_command = 0x20

abbrev pub write_pio_command : ℕ
write_pio_command = 0x30

abbrev pub identify_device : ℕ
identify_device = 0xEC

pub data AtaDeviceType : Type 0 where
  pata : List ℕ → AtaDeviceType
  pata_pi sata sata_pi no_device : AtaDeviceType

-- `==` of the Booleans
abbrev pub same : Bool → Bool → Bool
same true b = b
same false b = not b

-- The drive register: LBA mode, the number of the drive, and bits 24 to 27 of the block.
abbrev pub drive_register : ℕ → ℕ → ℕ
drive_register drive block = 0xE0 + (drive % 2 * 16 + block / 2 ^ 24 % 16)

module _ {S : Type 0} (ports : Ports S) (bus : AtaBus) where
  unfoldable pub read_data : Io S ℕ
  read_data s = answer (ports.read_u16 bus.io_base s)

  unfoldable pub write_data : ℕ → Io S (Unit {0})
  write_data word s = done (ports.write_u16 bus.io_base word s)

  unfoldable pub cylinder_low : Io S ℕ
  cylinder_low s = answer (ports.read_u8 (bus.io_base + 4) s)

  unfoldable pub cylinder_high : Io S ℕ
  cylinder_high s = answer (ports.read_u8 (bus.io_base + 5) s)

  unfoldable pub alternate_status : Io S ℕ
  alternate_status s = answer (ports.read_u8 bus.ctrl_base s)

  unfoldable pub read_status : Io S ℕ
  read_status s = answer (ports.read_u8 (bus.io_base + 7) s)

  unfoldable pub status : Io S ℕ
  status = do
    _ ← alternate_status
    _ ← alternate_status
    _ ← alternate_status
    _ ← alternate_status
    read_status

  unfoldable pub error : Io S ℕ
  error s = answer (ports.read_u8 (bus.io_base + 1) s)

  unfoldable pub is_error : Io S Bool
  is_error = do now ← status; give (intersects now error_bit)

  unfoldable pub debug : Io S (Unit {0})
  debug = do _ ← error; _ ← status; give tt

  -- The errors that the loop meets are shown, and it goes on.
  unfoldable pub debug_if : Bool → Io S (Unit {0})
  debug_if true = debug
  debug_if false = give tt

  -- The rounds of `poll` from the status that was read last; each reads the status again.
  unfoldable pub poll_loop : ℕ → ℕ → Bool → ℕ → Io S (Unit {0})
  poll_loop zero bit val now = unended
  poll_loop (suc fuel) bit val now =
      if same (intersects now bit) val
      then give tt
      else (debug_if (intersects now error_bit) >>= λ _. status >>= poll_loop fuel bit val)

  unfoldable pub poll : ℕ → ℕ → Bool → Io S (Unit {0})
  poll fuel bit val = do now ← status; poll_loop fuel bit val now

  -- The ports at which a command is given: the sectors, 28 bits of the block, the drive, the command.
  unfoldable pub write_register : ℕ → ℕ → Io S (Unit {0})
  write_register index value s = done (ports.write_u8 (bus.io_base + index) value s)

  unfoldable pub issue : ℕ → ℕ → ℕ → Io S (Unit {0})
  issue drive block command = do
    write_register 2 1
    write_register 3 (block % 256)
    write_register 4 (block / 2 ^ 8 % 256)
    write_register 5 (block / 2 ^ 16 % 256)
    write_register 6 (drive_register drive block)
    write_register 7 command

  -- What `write_command` does once the status is known not to be empty.
  unfoldable pub data_ready : ℕ → Bool → Io S (Unit {0})
  data_ready fuel true = do debug; fail device_invalid_operation
  data_ready fuel false = do poll fuel busy false; poll fuel data_request_ready true

  unfoldable pub command_ready : ℕ → Io S (Unit {0})
  command_ready fuel = do poll fuel busy false; failed ← is_error; data_ready fuel failed

  unfoldable pub write_command : ℕ → ℕ → ℕ → ℕ → Io S (Unit {0})
  write_command fuel drive block command = do
    issue drive block command
    now ← status
    if now == 0 then fail unknown_device else command_ready fuel

  -- `count` words from the data port, in their order.
  unfoldable pub read_words : ℕ → Io S (List ℕ)
  read_words zero = give []
  read_words (suc count) = do word ← read_data; words ← read_words count; give (word ∷ words)

  -- The type of the drive by its signature.
  unfoldable pub device_type : ℕ → ℕ → Io S AtaDeviceType
  device_type low high =
      if low == 0x00 && high == 0x00
      then (read_words 256 >>= λ words. give (pata words))
      else (if low == 0x14 && high == 0xEB
          then give pata_pi
          else (if low == 0x3C && high == 0xC3
              then give sata
              else (if low == 0x69 && high == 0x96 then give sata_pi else give no_device)))

  -- What `identify_drive` makes of a command that failed.
  unfoldable pub unidentified : Io S AtaDeviceType
  unidentified = do now ← status; if now == 0 then give no_device else fail unknown_device

  abbrev pub on_error : {A B : Type 0} → S × Outcome A → Io S B → (A → Io S B) → S × Outcome B
  on_error (s, ok a) h f = f a s
  on_error (s, err e) h f = h s
  on_error (s, panic) h f = (s, panic)
  on_error (s, unfinished) h f = (s, unfinished)

  -- And what it makes of one that succeeded.
  unfoldable pub identified : ℕ → Io S AtaDeviceType
  identified fuel = do
    poll fuel busy false
    low ← cylinder_low
    high ← cylinder_high
    device_type low high

  unfoldable pub identify_drive : ℕ → ℕ → Io S AtaDeviceType
  identify_drive fuel drive s =
      on_error (write_command fuel drive 0 identify_device s) unidentified (λ _. identified fuel)

  -- A buffer of `count` bytes, filled by words in little-endian order; the last word of an odd buffer
  -- gives its low byte only.
  unfoldable pub read_chunks : ℕ → Io S (List ℕ)
  read_chunks zero = give []
  read_chunks (suc zero) = do word ← read_data; give (word % 256 ∷ [])
  read_chunks (suc (suc count)) = do
    word ← read_data
    rest ← read_chunks count
    give (word % 256 ∷ word / 256 % 256 ∷ rest)

  unfoldable pub read_pio : ℕ → ℕ → ℕ → ℕ → Io S (List ℕ)
  read_pio fuel drive block count = do
    write_command fuel drive block read_pio_command
    bytes ← read_chunks count
    failed ← is_error
    if failed then (debug >> fail read_error) else give bytes

  unfoldable pub write_chunks : List ℕ → Io S (Unit {0})
  write_chunks [] = give tt
  write_chunks (low ∷ []) = write_data low
  write_chunks (low ∷ high ∷ rest) = do write_data (low + 256 * high); write_chunks rest

  unfoldable pub write_pio : ℕ → ℕ → ℕ → List ℕ → Io S (Unit {0})
  write_pio fuel drive block buf = do
    write_command fuel drive block write_pio_command
    write_chunks buf
    failed ← is_error
    if failed then (debug >> fail write_error) else give tt
