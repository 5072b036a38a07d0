-- ===== src/Drivers/Ata/Identity.antt =====
-- What `AtaDrive::open` of pkg/kernel/src/drivers/ata/mod.rs makes of the identity of a drive.
use operating_system_experim.Prelude.{
  ℕ, zero, suc, ◌+◌, ◌*◌, ◌%◌, ◌^◌, ◌<◌, ◌≡◌, refl, sym, ap, subst, ◌∙◌, ◌↔◌, true, some, List, [],
  ◌∷◌, arith, length, get_or, take, drop, All,
}
use operating_system_experim.Storage.Outcome.{Outcome, ok, u32_field}
use operating_system_experim.Drivers.Ata.{
  Ports, AtaBus, after, give, AtaDeviceType, pata, identify_device, read_data, read_words,
  device_type, cylinder_low, cylinder_high, identify_drive, identified,
}
use operating_system_experim.Drivers.Ata.Disk.{
  Disk, Phase, idle, sending, remain, started, selected, Shows, disk_ports, disk_bus,
}
use operating_system_experim.Drivers.Ata.Simulation.{identify_drive-Sim}
use operating_system_experim.Drivers.Ata.Commands.{
  addressed, accepted, settled, selected-addressed, write_command-data, poll-busy,
}
use operating_system_experim.Drivers.Ata.Transfers.{
  Words, IsSector, IsSector-Words, sending-remain, sector_size, low_byte, high_byte,
}
use operating_system_experim.Drivers.Ata.Drive.{
  AtaDrive, buses, to_be_bytes, block_number, opened, on_bus, open_drive,
}

-- The words of the data port.
words_of : List ℕ → List ℕ
words_of [] = []
words_of (a ∷ []) = []
words_of (a ∷ b ∷ rest) = (a + 256 * b) ∷ words_of rest

-- The bytes of each word in the other order.
swapped : List ℕ → List ℕ
swapped [] = []
swapped (a ∷ []) = []
swapped (a ∷ b ∷ rest) = b ∷ a ∷ swapped rest

read_words-disk :
    (count : ℕ) (bytes : List ℕ) (d : Disk)
    → Words bytes
    → length bytes ≡ 2 * count
    → read_words disk_ports disk_bus count (record d { phase = remain bytes })
      ≡ (record d { phase = idle }, ok (words_of bytes))
unfolding read_words read_data words_of
read_words-disk zero [] d h e = refl
read_words-disk zero (a ∷ rest) d h e = absurd (omega arith)
read_words-disk (suc count) [] d h e = absurd (omega arith)
read_words-disk (suc count) (a ∷ []) d h e = absurd (omega arith)
read_words-disk (suc count) (a ∷ b ∷ rest) d h e =
    ap (λ r. after r (λ words. give ((a + 256 * b) ∷ words)))
      (read_words-disk count rest d h.2 (omega arith))

to_be_bytes-words_of : (bytes : List ℕ) → Words bytes → to_be_bytes (words_of bytes) ≡ swapped bytes
unfolding to_be_bytes words_of swapped
to_be_bytes-words_of [] h = refl
to_be_bytes-words_of (a ∷ []) h = refl
to_be_bytes-words_of (a ∷ b ∷ rest) h =
    λ i. high_byte a b h.0 h.1 i ∷ low_byte a b h.0 i ∷ to_be_bytes-words_of rest h.2 i

twice : ℕ → ℕ
twice zero = 0
twice (suc k) = suc (suc (twice k))

swapped-even :
    (k : ℕ) (bytes : List ℕ)
    → Words bytes
    → get_or (swapped bytes) (twice k) 0 ≡ get_or bytes (suc (twice k)) 0
unfolding swapped twice
swapped-even k [] h = refl
swapped-even k (a ∷ []) h = absurd h
swapped-even zero (a ∷ b ∷ rest) h = refl
swapped-even (suc k) (a ∷ b ∷ rest) h = swapped-even k rest h.2

swapped-odd :
    (k : ℕ) (bytes : List ℕ)
    → Words bytes
    → get_or (swapped bytes) (suc (twice k)) 0 ≡ get_or bytes (twice k) 0
unfolding swapped twice
swapped-odd k [] h = refl
swapped-odd k (a ∷ []) h = absurd h
swapped-odd zero (a ∷ b ∷ rest) h = refl
swapped-odd (suc k) (a ∷ b ∷ rest) h = swapped-odd k rest h.2

-- The count of sectors with the bytes of each word in the other order.
swapped_count : List ℕ → ℕ
swapped_count id =
    get_or id 121 0
    + (256 * get_or id 120 0 + (2 ^ 16 * get_or id 123 0 + 2 ^ 24 * get_or id 122 0))

block_number-swapped : (id : List ℕ) → Words id → block_number (swapped id) ≡ swapped_count id
unfolding block_number swapped_count twice
block_number-swapped id h =
    omega
      (arith, swapped-even 60 id h, swapped-odd 60 id h, swapped-even 61 id h, swapped-odd 61 id h)

-- The drive that is opened.
drive_of : (List ℕ → List ℕ) → ℕ → ℕ → List ℕ → AtaDrive
drive_of trimmed bus drive id = record {
  bus = bus;
  drive = drive;
  blocks = swapped_count id;
  model = trimmed (take 40 (drop 54 (swapped id)));
  serial = trimmed (take 20 (drop 20 (swapped id)));
}

module _ (fuel drive : ℕ) (d : Disk) (there : d.present (drive % 2) ≡ true)
    (patient : d.delay < fuel) (whole : IsSector (d.identity (drive % 2))) where
  abbrev id : List ℕ
  id = d.identity (drive % 2)

  started-identify :
      started (selected (addressed drive 0 d)) identify_device (addressed drive 0 d) ≡ sending id
  started-identify = rw (selected-addressed drive 0 d)

  abbrev known : Phase → Disk
  known p = settled (accepted identify_device p (addressed drive 0 d))

  here : d.present (selected (addressed drive 0 d)) ≡ true
  here = rw (selected-addressed drive 0 d) there

  read_identity :
      read_words disk_ports disk_bus 256 (known (sending id)) ≡ (known idle, ok (words_of id))
  read_identity =
      (λ i. read_words disk_ports disk_bus 256 (known (sending-remain id (sector_size whole) i)))
      ∙ read_words-disk 256 id (known idle) (IsSector-Words whole) (omega (arith, whole.size))

  identify_drive-disk :
      identify_drive disk_ports disk_bus fuel drive d ≡ (known idle, ok (pata (words_of id)))
  unfolding identify_drive identified cylinder_low cylinder_high device_type
  identify_drive-disk =
      rw
        (write_command-data fuel drive 0 identify_device d (sending id) there patient
          started-identify refl)
        (rw (poll-busy fuel (known (sending id)) here (omega arith)) (rw read_identity))

get_or-small : (bytes : List ℕ) (i : ℕ) → All (λ b. b < 256) bytes → get_or bytes i 0 < 256
get_or-small [] i h = omega arith
get_or-small (b ∷ bytes) zero h = h.0
get_or-small (b ∷ bytes) (suc i) h = get_or-small bytes i h.1

-- The two counts are equal only where the bytes of each word are.
swapped_count-eq :
    (id : List ℕ)
    → All (λ b. b < 256) id
    → (swapped_count id ≡ u32_field id 120)
      ↔ ((get_or id 120 0 ≡ get_or id 121 0) × (get_or id 122 0 ≡ get_or id 123 0))
unfolding swapped_count
swapped_count-eq id h =
    let a = get_or-small id 120 h in
    let b = get_or-small id 121 h in
    let c = get_or-small id 122 h in
    let e = get_or-small id 123 h in (λ k. (omega arith, omega arith), λ k. omega arith)

-- What is opened depends on the answer of the drive alone.
opened-answer :
    {S : Type 0} (ports : Ports S) (fuel : ℕ) (trimmed : List ℕ → List ℕ) (bus drive : ℕ)
    (r : S × Outcome AtaDeviceType) (id : List ℕ)
    → Words id
    → r.1 ≡ ok (pata (words_of id))
    → (opened ports fuel trimmed bus drive r).1 ≡ ok (some (drive_of trimmed bus drive id))
unfolding opened drive_of
opened-answer ports fuel trimmed bus drive (s, o) id h e =
    let p : to_be_bytes (words_of id) ≡ swapped id = to_be_bytes-words_of id h in
    let q : block_number (to_be_bytes (words_of id)) ≡ swapped_count id =
      ap block_number p ∙ block_number-swapped id h in
    subst
      (λ o.
        (opened ports fuel trimmed bus drive (s, o)).1 ≡ ok (some (drive_of trimmed bus drive id)))
      (sym e)
      (λ i. ok (
        some record {
          bus = bus;
          drive = drive;
          blocks = q i;
          model = trimmed (take 40 (drop 54 (p i)));
          serial = trimmed (take 20 (drop 20 (p i)));
        }))

module _ {S : Type 0} {ports : Ports S} {b : AtaBus} {view : S → Disk} (shows : Shows ports b view)
    (fuel bus drive : ℕ) (wired : buses bus ≡ some b) where
  open_drive-drive_of :
      (trimmed : List ℕ → List ℕ) (s : S)
      → (view s).present (drive % 2) ≡ true
      → (view s).delay < fuel
      → IsSector ((view s).identity (drive % 2))
      → (open_drive ports fuel trimmed bus drive s).1
        ≡ ok (some (drive_of trimmed bus drive ((view s).identity (drive % 2))))
  unfolding open_drive
  open_drive-drive_of trimmed s there patient whole =
      opened-answer ports fuel trimmed bus drive
        (on_bus ports fuel (buses bus) (λ c. identify_drive ports c fuel drive) s)
        ((view s).identity (drive % 2)) (IsSector-Words whole)
        (rw wired (
          ap (λ r. r.1)
            ((identify_drive-Sim view shows fuel drive).run s
              ∙ identify_drive-disk fuel drive (view s) there patient whole)))

  -- On hardware that shows an ATA device, where the drive answers within the fuel and identifies
  -- itself by 512 bytes: it is opened, and the number of its blocks is the count of sectors, which the
  -- standard puts in little-endian order at byte 120, if and only if each of the two words of the
  -- count has two equal bytes.
  pub open_drive-blocks :
      (trimmed : List ℕ → List ℕ) (s : S)
      → (view s).present (drive % 2) ≡ true
      → (view s).delay < fuel
      → IsSector ((view s).identity (drive % 2))
      → (a : AtaDrive) × ((open_drive ports fuel trimmed bus drive s).1 ≡ ok (some a))
        × ((a.blocks ≡ u32_field ((view s).identity (drive % 2)) 120) ↔ (
            (get_or ((view s).identity (drive % 2)) 120 0
              ≡ get_or ((view s).identity (drive % 2)) 121 0)
            × (get_or ((view s).identity (drive % 2)) 122 0
                ≡ get_or ((view s).identity (drive % 2)) 123 0)))
  unfolding drive_of
  open_drive-blocks trimmed s there patient whole = (
    drive_of trimmed bus drive ((view s).identity (drive % 2)),
    open_drive-drive_of trimmed s there patient whole,
    swapped_count-eq ((view s).identity (drive % 2)) whole.small,
  )
