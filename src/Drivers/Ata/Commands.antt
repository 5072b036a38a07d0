-- ===== src/Drivers/Ata/Commands.antt =====
-- Commands on a device that is present, from the registers to the first word of the data.
use operating_system_experim.Prelude.{
  ℕ, zero, suc, ◌-◌, ◌/◌, ◌%◌, ◌^◌, ◌<◌, ◌≡◌, refl, ap, subst, ◌∙◌, Bool, true, false, arith, ◌==◌,
  if◌then◌else◌,
}
use operating_system_experim.Storage.Outcome.{
  Outcome, ok, err, device_error, device_invalid_operation, unknown_device,
}
use operating_system_experim.Drivers.Ata.{
  Io, after, fail, answer, done, intersects, busy, data_request_ready, error_bit, alternate_status,
  read_status, status, error, is_error, debug, debug_if, poll_loop, poll, write_register, issue,
  data_ready, command_ready, write_command, drive_register,
}
use operating_system_experim.Drivers.Ata.Disk.{
  Disk, Phase, idle, refused, sending, receiving, phase_status, waiting_status, status_value,
  see_status, selected, address, started, get_command, signature, disk_ports, disk_bus,
}

-- The device with the registers of a command.
abbrev pub addressed : ℕ → ℕ → Disk → Disk
addressed drive block d = record d {
  sectors = 1;
  low = block % 256;
  mid = block / 2 ^ 8 % 256;
  high = block / 2 ^ 16 % 256;
  select = drive_register drive block;
}

pub selected-addressed :
    (drive block : ℕ) (d : Disk) → selected (addressed drive block d) ≡ drive % 2
selected-addressed drive block d = omega arith

pub address-addressed :
    (drive block : ℕ) (d : Disk) → address (addressed drive block d) ≡ block % 2 ^ 28
address-addressed drive block d = omega arith

issue-disk :
    (drive block command : ℕ) (d : Disk)
    → issue disk_ports disk_bus drive block command d
      ≡ done (get_command command (addressed drive block d))
unfolding issue write_register
issue-disk drive block command d = refl

pub status-disk : (d : Disk) → status disk_ports disk_bus d ≡ answer (see_status d)
unfolding status alternate_status read_status
status-disk d = refl

not_busy : (p : Phase) → intersects (phase_status p) busy ≡ false
not_busy idle = refl
not_busy refused = refl
not_busy (sending _) = refl
not_busy (receiving _ _ _ _) = refl

not_empty : (n : ℕ) (p : Phase) → (waiting_status n p == 0) ≡ false
not_empty (suc n) p = refl
not_empty zero idle = refl
not_empty zero refused = refl
not_empty zero (sending _) = refl
not_empty zero (receiving _ _ _ _) = refl

status_present :
    (d : Disk) → d.present (selected d) ≡ true → status_value d ≡ waiting_status d.waiting d.phase
status_present d h = rw h

-- The device once it is no longer busy.
abbrev pub settled : Disk → Disk
settled d = record d { waiting = 0 }

pub is_error-settled :
    (d : Disk)
    → d.present (selected d) ≡ true
    → is_error disk_ports disk_bus (settled d)
      ≡ (settled d, ok (intersects (phase_status d.phase) error_bit))
unfolding is_error
is_error-settled d h = rw (status-disk (settled d)) (rw (status_present (settled d) h))

idle_no_error : (n : ℕ) → intersects (waiting_status n idle) error_bit ≡ false
idle_no_error zero = refl
idle_no_error (suc n) = refl

-- A device that is still busy shows no error.
pub is_error-idle :
    (d : Disk)
    → d.present (selected d) ≡ true
    → d.phase ≡ idle
    → is_error disk_ports disk_bus d ≡ (record d { waiting = d.waiting - 1 }, ok false)
unfolding is_error
is_error-idle d h e =
    rw (status-disk d) (rw (status_present d h) (rw e (rw (idle_no_error d.waiting))))

pred_suc : (w : ℕ) → w ≡ suc w - 1
pred_suc w = omega arith

poll_loop-busy :
    (fuel w : ℕ) (d : Disk)
    → d.present (selected d) ≡ true
    → w < fuel
    → poll_loop disk_ports disk_bus fuel busy false
        (waiting_status w d.phase)
        (record d { waiting = w - 1 })
      ≡ done (settled d)
unfolding poll_loop debug_if
poll_loop-busy zero w d h lt = absurd (omega arith)
poll_loop-busy (suc fuel) zero d h lt = rw (not_busy d.phase)
poll_loop-busy (suc fuel) (suc w) d h lt = rw (status-disk (record d { waiting = suc w - 1 })) (
    rw (status_present (record d { waiting = suc w - 1 }) h) (
      subst
        (λ n.
          poll_loop disk_ports disk_bus fuel busy false (waiting_status n d.phase)
            (record d { waiting = n - 1 })
          ≡ done (record d { waiting = 0 }))
        (pred_suc w) (poll_loop-busy fuel w d h (omega arith))))

pub poll-busy :
    (fuel : ℕ) (d : Disk)
    → d.present (selected d) ≡ true
    → d.waiting < fuel
    → poll disk_ports disk_bus fuel busy false d ≡ done (settled d)
unfolding poll
poll-busy fuel d h lt =
    rw (status-disk d) (rw (status_present d h) (poll_loop-busy fuel d.waiting d h lt))

abbrev has_data : Phase → Bool
has_data p = intersects (phase_status p) data_request_ready

poll-request :
    (fuel : ℕ) (d : Disk)
    → d.present (selected d) ≡ true
    → has_data d.phase ≡ true
    → 0 < fuel
    → poll disk_ports disk_bus fuel data_request_ready true (settled d) ≡ done (settled d)
unfolding poll poll_loop
poll-request zero d h q lt = absurd (omega arith)
poll-request (suc fuel) d h q lt =
    rw (status-disk (settled d)) (rw (status_present (settled d) h) (rw q))

data_error : (p : Phase) → has_data p ≡ true → intersects (phase_status p) error_bit ≡ false
data_error idle h = refl
data_error refused h = cc
data_error (sending _) h = refl
data_error (receiving _ _ _ _) h = refl

-- After a command that has data, the driver waits until the device is no longer busy.
command_ready-data :
    (fuel : ℕ) (d : Disk)
    → d.present (selected d) ≡ true
    → d.waiting < fuel
    → has_data d.phase ≡ true
    → command_ready disk_ports disk_bus fuel d ≡ done (settled d)
unfolding command_ready data_ready
command_ready-data fuel d h lt q = rw (poll-busy fuel d h lt) (
    rw (is_error-settled d h) (
      rw (data_error d.phase q)
        (rw (poll-busy fuel (settled d) h (omega arith)) (poll-request fuel d h q (omega arith)))))

refused_error : (p : Phase) → p ≡ refused → intersects (phase_status p) error_bit ≡ true
refused_error p h = rw h

command_ready-refused :
    (fuel : ℕ) (d : Disk)
    → d.present (selected d) ≡ true
    → d.waiting < fuel
    → d.phase ≡ refused
    → command_ready disk_ports disk_bus fuel d
      ≡ (settled d, err (device_error device_invalid_operation))
unfolding command_ready data_ready debug error
command_ready-refused fuel d h lt q =
    rw (poll-busy fuel d h lt)
      (rw (is_error-settled d h) (rw (refused_error d.phase q) (rw (status-disk (settled d)))))

-- What `write_command` does behind the registers, where a drive answers.
abbrev answered : ℕ → Io Disk (Unit {0})
answered fuel d =
    after (status disk_ports disk_bus d)
      λ now. if now == 0 then fail unknown_device else command_ready disk_ports disk_bus fuel

answered-ready :
    (fuel : ℕ) (d : Disk) (r : Disk × Outcome (Unit {0}))
    → d.present (selected d) ≡ true
    → command_ready disk_ports disk_bus fuel (record d { waiting = d.waiting - 1 }) ≡ r
    → answered fuel d ≡ r
answered-ready fuel d r h e =
    rw (status-disk d) (rw (status_present d h) (rw (not_empty d.waiting d.phase) e))

-- The device that has accepted a command, which leads to the phase `p`.
abbrev pub accepted : ℕ → Phase → Disk → Disk
accepted command p d = record d {
  waiting = d.delay;
  phase = p;
  mid = signature command d.mid;
  high = signature command d.high;
}

get_command-accepted :
    (command : ℕ) (d : Disk)
    → d.present (selected d) ≡ true
    → get_command command d ≡ accepted command (started (selected d) command d) d
get_command-accepted command d h = rw h

module _ (fuel drive block command : ℕ) (d : Disk) (p : Phase)
    (there : d.present (drive % 2) ≡ true) (patient : d.delay < fuel)
    (starts : started (selected (addressed drive block d)) command (addressed drive block d)
      ≡ p) where
  abbrev begun : Disk
  begun = accepted command p (addressed drive block d)

  found : d.present (selected (addressed drive block d)) ≡ true
  found = rw (selected-addressed drive block d) there

  write_command-answered :
      (r : Disk × Outcome (Unit {0}))
      → answered fuel begun ≡ r
      → write_command disk_ports disk_bus fuel drive block command d ≡ r
  unfolding write_command
  write_command-answered r e = rw (issue-disk drive block command d) (
      ap (answered fuel) (
        get_command-accepted command (addressed drive block d) found
        ∙ ap (λ q. accepted command q (addressed drive block d)) starts)
      ∙ e)

  -- A command with data leaves the device settled, with the data.
  pub write_command-data :
      has_data p ≡ true
      → write_command disk_ports disk_bus fuel drive block command d ≡ done (settled begun)
  write_command-data q = write_command-answered (done (settled begun)) (
      answered-ready fuel begun (done (settled begun)) found
        (command_ready-data fuel (record begun { waiting = d.delay - 1 }) found (omega arith) q))

  -- A command that the device refuses is an invalid operation.
  pub write_command-refused :
      p ≡ refused
      → write_command disk_ports disk_bus fuel drive block command d
        ≡ (settled begun, err (device_error device_invalid_operation))
  write_command-refused q =
      write_command-answered (settled begun, err (device_error device_invalid_operation))
        (answered-ready fuel begun (settled begun, err (device_error device_invalid_operation))
          found
          (command_ready-refused fuel (record begun { waiting = d.delay - 1 }) found (omega arith)
            q))
