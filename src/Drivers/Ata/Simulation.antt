-- ===== src/Drivers/Ata/Simulation.antt =====
-- The driver does to hardware that shows a device what it does to the device itself.
use operating_system_experim.Prelude.{
  ℕ, zero, suc, ◌+◌, ◌*◌, ◌/◌, ◌%◌, ◌^◌, ◌≤◌, ◌<◌, ◌≡◌, refl, sym, ap, ◌∙◌, Bool, true, false, ◌&&◌,
  List, [], ◌∷◌, arith, ◌==◌, if◌then◌else◌, All,
}
use operating_system_experim.Storage.Outcome.{Outcome, ok, err, panic, unfinished, DeviceError}
use operating_system_experim.Drivers.Ata.{
  Ports, AtaBus, Io, after, ◌>>=◌, give, fail, answer, done, intersects, busy, data_request_ready,
  error_bit, same, read_data, write_data, cylinder_low, cylinder_high, alternate_status,
  read_status, status, error, is_error, debug, debug_if, poll_loop, poll, write_register, issue,
  data_ready, command_ready, write_command, read_words, device_type, unidentified, identified,
  identify_drive, read_chunks, read_pio, write_chunks, write_pio, on_error, read_pio_command,
  write_pio_command, identify_device, pata, pata_pi, sata, sata_pi, no_device,
  device_invalid_operation, unknown_device, read_error, write_error,
}
use operating_system_experim.Drivers.Ata.Disk.{
  Disk, Shows, seen, disk_ports, disk_bus, disk_ports-Shows,
}

module _ {S : Type 0} (view : S → Disk) where
  -- A driver on the hardware and one on the device answer the same and leave the same device.
  pub record Sim {A : Type 0} (m : Io S A) (n : Io Disk A) : Type 0 where
    pub run : (s : S) → seen view (m s) ≡ n (view s)

  after-Sim :
      {A B : Type 0} (r : S × Outcome A) (f : A → Io S B) (g : A → Io Disk B)
      → ((a : A) → Sim (f a) (g a))
      → seen view (after r f) ≡ after (seen view r) g
  after-Sim (s, ok a) f g h = (h a).run s
  after-Sim (s, err e) f g h = refl
  after-Sim (s, panic) f g h = refl
  after-Sim (s, unfinished) f g h = refl

  bind-Sim :
      {A B : Type 0} {m : Io S A} {n : Io Disk A} {f : A → Io S B} {g : A → Io Disk B}
      → Sim m n
      → ((a : A) → Sim (f a) (g a))
      → Sim (m >>= f) (n >>= g)
  bind-Sim {m} {n} {f} {g} h k = record {
    run = λ s. after-Sim (m s) f g k ∙ ap (λ r. after r g) (h.run s);
  }

  give-Sim : {A : Type 0} (a : A) → Sim (give a) (give a)
  give-Sim a = record { run = λ s. refl }

  fail-Sim : {A : Type 0} (e : DeviceError) → Sim {A = A} (fail e) (fail e)
  fail-Sim e = record { run = λ s. refl }

  branch-Sim :
      {A : Type 0} (b : Bool) {m m' : Io S A} {n n' : Io Disk A}
      → Sim m n
      → Sim m' n'
      → Sim (if b then m else m') (if b then n else n')
  branch-Sim true h h' = h
  branch-Sim false h h' = h'

  module _ {ports : Ports S} {bus : AtaBus} (shows : Shows ports bus view) where
    read_data-Sim : Sim (read_data ports bus) (read_data disk_ports disk_bus)
    unfolding read_data
    read_data-Sim = record { run = λ s. ap answer (shows.data_in s) }

    write_data-Sim :
        (word : ℕ)
        → word < 2 ^ 16
        → Sim (write_data ports bus word) (write_data disk_ports disk_bus word)
    unfolding write_data
    write_data-Sim word h = record { run = λ s. ap done (shows.data_out word s h) }

    cylinder_low-Sim : Sim (cylinder_low ports bus) (cylinder_low disk_ports disk_bus)
    unfolding cylinder_low
    cylinder_low-Sim = record { run = λ s. ap answer (shows.mid s) }

    cylinder_high-Sim : Sim (cylinder_high ports bus) (cylinder_high disk_ports disk_bus)
    unfolding cylinder_high
    cylinder_high-Sim = record { run = λ s. ap answer (shows.high s) }

    alternate_status-Sim : Sim (alternate_status ports bus) (alternate_status disk_ports disk_bus)
    unfolding alternate_status
    alternate_status-Sim = record { run = λ s. ap answer (shows.alternate s) }

    read_status-Sim : Sim (read_status ports bus) (read_status disk_ports disk_bus)
    unfolding read_status
    read_status-Sim = record { run = λ s. ap answer (shows.status s) }

    error-Sim : Sim (error ports bus) (error disk_ports disk_bus)
    unfolding error
    error-Sim = record { run = λ s. ap answer (shows.error s) }

    write_register-Sim :
        (index value : ℕ)
        → 2 ≤ index
        → index ≤ 7
        → Sim
            (write_register ports bus index value)
            (write_register disk_ports disk_bus index value)
    unfolding write_register
    write_register-Sim index value lo hi = record {
      run = λ s. ap done (
          shows.registers index value s lo hi
          ∙ sym (disk_ports-Shows.registers index value (view s) lo hi));
    }

    status-Sim : Sim (status ports bus) (status disk_ports disk_bus)
    unfolding status
    status-Sim = bind-Sim alternate_status-Sim λ _.
        bind-Sim alternate_status-Sim
          λ _. bind-Sim alternate_status-Sim λ _. bind-Sim alternate_status-Sim λ _. read_status-Sim

    is_error-Sim : Sim (is_error ports bus) (is_error disk_ports disk_bus)
    unfolding is_error
    is_error-Sim = bind-Sim status-Sim λ now. give-Sim (intersects now error_bit)

    debug-Sim : Sim (debug ports bus) (debug disk_ports disk_bus)
    unfolding debug
    debug-Sim = bind-Sim error-Sim λ _. bind-Sim status-Sim λ _. give-Sim tt

    debug_if-Sim : (b : Bool) → Sim (debug_if ports bus b) (debug_if disk_ports disk_bus b)
    unfolding debug_if
    debug_if-Sim true = debug-Sim
    debug_if-Sim false = give-Sim tt

    poll_loop-Sim :
        (fuel bit : ℕ) (val : Bool) (now : ℕ)
        → Sim
            (poll_loop ports bus fuel bit val now)
            (poll_loop disk_ports disk_bus fuel bit val now)
    unfolding poll_loop
    poll_loop-Sim zero bit val now = record { run = λ s. refl }
    poll_loop-Sim (suc fuel) bit val now =
        branch-Sim (same (intersects now bit) val) (give-Sim tt) (
          bind-Sim (debug_if-Sim (intersects now error_bit))
            λ _. bind-Sim status-Sim λ next. poll_loop-Sim fuel bit val next)

    poll-Sim :
        (fuel bit : ℕ) (val : Bool)
        → Sim (poll ports bus fuel bit val) (poll disk_ports disk_bus fuel bit val)
    unfolding poll
    poll-Sim fuel bit val = bind-Sim status-Sim λ now. poll_loop-Sim fuel bit val now

    issue-Sim :
        (drive block command : ℕ)
        → Sim (issue ports bus drive block command) (issue disk_ports disk_bus drive block command)
    unfolding issue
    issue-Sim drive block command =
        bind-Sim (write_register-Sim 2 1 (omega arith) (omega arith)) λ _.
          bind-Sim (write_register-Sim 3 _ (omega arith) (omega arith)) λ _.
            bind-Sim (write_register-Sim 4 _ (omega arith) (omega arith)) λ _.
              bind-Sim (write_register-Sim 5 _ (omega arith) (omega arith)) λ _.
                bind-Sim (write_register-Sim 6 _ (omega arith) (omega arith))
                  λ _. write_register-Sim 7 command (omega arith) (omega arith)

    data_ready-Sim :
        (fuel : ℕ) (failed : Bool)
        → Sim (data_ready ports bus fuel failed) (data_ready disk_ports disk_bus fuel failed)
    unfolding data_ready
    data_ready-Sim fuel true = bind-Sim debug-Sim λ _. fail-Sim device_invalid_operation
    data_ready-Sim fuel false =
        bind-Sim (poll-Sim fuel busy false) λ _. poll-Sim fuel data_request_ready true

    command_ready-Sim :
        (fuel : ℕ) → Sim (command_ready ports bus fuel) (command_ready disk_ports disk_bus fuel)
    unfolding command_ready
    command_ready-Sim fuel =
        bind-Sim (poll-Sim fuel busy false)
          λ _. bind-Sim is_error-Sim λ failed. data_ready-Sim fuel failed

    write_command-Sim :
        (fuel drive block command : ℕ)
        → Sim
            (write_command ports bus fuel drive block command)
            (write_command disk_ports disk_bus fuel drive block command)
    unfolding write_command
    write_command-Sim fuel drive block command = bind-Sim (issue-Sim drive block command) λ _.
        bind-Sim status-Sim
          λ now. branch-Sim (now == 0) (fail-Sim unknown_device) (command_ready-Sim fuel)

    read_chunks-Sim :
        (count : ℕ) → Sim (read_chunks ports bus count) (read_chunks disk_ports disk_bus count)
    unfolding read_chunks
    read_chunks-Sim zero = give-Sim []
    read_chunks-Sim (suc zero) = bind-Sim read_data-Sim λ word. give-Sim (word % 256 ∷ [])
    read_chunks-Sim (suc (suc count)) = bind-Sim read_data-Sim λ word.
        bind-Sim (read_chunks-Sim count) λ rest. give-Sim (word % 256 ∷ word / 256 % 256 ∷ rest)

    pub read_pio-Sim :
        (fuel drive block count : ℕ)
        → Sim
            (read_pio ports bus fuel drive block count)
            (read_pio disk_ports disk_bus fuel drive block count)
    unfolding read_pio
    read_pio-Sim fuel drive block count =
        bind-Sim (write_command-Sim fuel drive block read_pio_command) λ _.
          bind-Sim (read_chunks-Sim count) λ bytes. bind-Sim is_error-Sim λ failed.
            branch-Sim failed (bind-Sim debug-Sim λ _. fail-Sim read_error) (give-Sim bytes)

    write_chunks-Sim :
        (bytes : List ℕ)
        → All (λ b. b < 256) bytes
        → Sim (write_chunks ports bus bytes) (write_chunks disk_ports disk_bus bytes)
    unfolding write_chunks
    write_chunks-Sim [] h = give-Sim tt
    write_chunks-Sim (low ∷ []) h = write_data-Sim low (omega arith)
    write_chunks-Sim (low ∷ high ∷ rest) h =
        bind-Sim (write_data-Sim (low + 256 * high) (omega arith)) λ _. write_chunks-Sim rest h.1.1

    read_words-Sim :
        (count : ℕ) → Sim (read_words ports bus count) (read_words disk_ports disk_bus count)
    unfolding read_words
    read_words-Sim zero = give-Sim []
    read_words-Sim (suc count) =
        bind-Sim read_data-Sim
          λ word. bind-Sim (read_words-Sim count) λ words. give-Sim (word ∷ words)

    device_type-Sim :
        (low high : ℕ)
        → Sim (device_type ports bus low high) (device_type disk_ports disk_bus low high)
    unfolding device_type
    device_type-Sim low high =
        branch-Sim (low == 0x00 && high == 0x00)
          (bind-Sim (read_words-Sim 256) λ words. give-Sim (pata words))
          (branch-Sim (low == 0x14 && high == 0xEB) (give-Sim pata_pi) (
            branch-Sim (low == 0x3C && high == 0xC3) (give-Sim sata)
              (branch-Sim (low == 0x69 && high == 0x96) (give-Sim sata_pi) (give-Sim no_device))))

    unidentified-Sim : Sim (unidentified ports bus) (unidentified disk_ports disk_bus)
    unfolding unidentified
    unidentified-Sim =
        bind-Sim status-Sim
          λ now. branch-Sim (now == 0) (give-Sim no_device) (fail-Sim unknown_device)

    pub write_pio-Sim :
        (fuel drive block : ℕ) (bytes : List ℕ)
        → All (λ b. b < 256) bytes
        → Sim
            (write_pio ports bus fuel drive block bytes)
            (write_pio disk_ports disk_bus fuel drive block bytes)
    unfolding write_pio
    write_pio-Sim fuel drive block bytes h =
        bind-Sim (write_command-Sim fuel drive block write_pio_command) λ _.
          bind-Sim (write_chunks-Sim bytes h) λ _.
            bind-Sim is_error-Sim λ failed.
              branch-Sim failed (bind-Sim debug-Sim λ _. fail-Sim write_error) (give-Sim tt)

    on_error-Sim :
        {A B : Type 0} (r : S × Outcome A) {h : Io S B} {h' : Io Disk B} {f : A → Io S B}
        {f' : A → Io Disk B}
        → Sim h h'
        → ((a : A) → Sim (f a) (f' a))
        → seen view (on_error ports bus r h f) ≡ on_error disk_ports disk_bus (seen view r) h' f'
    on_error-Sim (s, ok a) h f = (f a).run s
    on_error-Sim (s, err e) h f = h.run s
    on_error-Sim (s, panic) h f = refl
    on_error-Sim (s, unfinished) h f = refl

    identified-Sim :
        (fuel : ℕ) → Sim (identified ports bus fuel) (identified disk_ports disk_bus fuel)
    unfolding identified
    identified-Sim fuel = bind-Sim (poll-Sim fuel busy false) λ _.
        bind-Sim cylinder_low-Sim λ low. bind-Sim cylinder_high-Sim λ high. device_type-Sim low high

    pub identify_drive-Sim :
        (fuel drive : ℕ)
        → Sim (identify_drive ports bus fuel drive) (identify_drive disk_ports disk_bus fuel drive)
    unfolding identify_drive
    identify_drive-Sim fuel drive = record {
      run = λ s.
          on_error-Sim (write_command ports bus fuel drive 0 identify_device s) unidentified-Sim
            (λ _. identified-Sim fuel)
          ∙ ap
              (λ r.
                on_error disk_ports disk_bus r (unidentified disk_ports disk_bus)
                  (λ _. identified disk_ports disk_bus fuel))
              ((write_command-Sim fuel drive 0 identify_device).run s);
    }
