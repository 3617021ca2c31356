-- ===== src/Mmio/Examples.antt =====
-- Tests of the MMIO transport in front of a device with one queue, and its theorems at concrete
-- inputs.
use firecracker.Base.{ℕ, ◌≡◌, refl, true, false, Bool, none, some, List, [], ◌∷◌, arith}
use firecracker.Base.Bits.{bit}
use firecracker.Queue.Flat.{Bytes, flat}
use firecracker.Queue.Rings.{
  Queue, Outcome, returns, is_valid, is_placed, out_of_range, actual_size, len, avail_idx, and_then,
  unwrap,
}
use firecracker.Mmio.{
  VirtioDevice, IsDevice, MmioTransport, new, all_valid, are_queues_valid, activated, set_driver_ok,
  set_device_status, update_queue_field, check_device_status,
}
use firecracker.Mmio.Registers.{write, write_register, write_queue_register}
use firecracker.Mmio.Active.{OnWrite, write-OnWrite}
use firecracker.Mmio.History.{Reach, here, then_write, active, then_active, active_frozen}
use firecracker.Mmio.Failed.{HasFailed, set_device_status-HasFailed}

pub record Dummy : Type 0 where
  pub all : List Queue
  pub on : Bool

-- A device that can be activated and not reset.
abbrev dummy : VirtioDevice Bytes Dummy
dummy = record {
  device_type = λ d. 1;
  queues = λ d. d.all;
  set_queues = λ d qs. record d { all = qs };
  is_activated = λ d. d.on;
  activate = λ d m. some (record d { on = true });
  reset = λ d. none;
  avail_features_by_page = λ d p. 0;
  ack_features_by_page = λ d p v. d;
  read_config = λ d o bs. bs;
  write_config = λ d o bs. d;
}

dummy-IsDevice : IsDevice dummy
dummy-IsDevice = record {
  queues-set_queues = λ d qs. refl;
  is_activated-set_queues = λ d qs. refl;
  queues-ack = λ d p v. refl;
  is_activated-ack = λ d p v. refl;
  queues-write_config = λ d o bs. refl;
  is_activated-write_config = λ d o bs. refl;
  reset_inactive = λ e. cc;
}

abbrev queue : Queue
queue = record {
  max_size = 256;
  size = 4;
  ready = true;
  desc_table = 0;
  avail_ring = 256;
  used_ring = 512;
  next_avail = 0;
  next_used = 0;
  uses_notif_suppression = false;
  num_added = 0;
}

abbrev idle : Dummy
idle = record { all = queue ∷ []; on = false }

abbrev memory : Bytes
memory = λ _. 0

abbrev at_status : ℕ → Bool → MmioTransport Dummy
at_status status on = record {
  device = record idle { on = on };
  features_select = 0;
  acked_features_select = 0;
  queue_select = 0;
  device_status = status;
  config_generation = 0;
  interrupt_status = 0;
}

abbrev write_status : ℕ → MmioTransport Dummy → Outcome (MmioTransport Dummy)
write_status status = write flat dummy memory 0x70 (status ∷ 0 ∷ 0 ∷ 0 ∷ [])

acknowledge_test : write_status 1 (at_status 0 false) ≡ returns (at_status 1 false)
unfolding write write_register set_device_status
acknowledge_test = refl

driver_test : write_status 3 (at_status 1 false) ≡ returns (at_status 3 false)
unfolding write write_register set_device_status
driver_test = refl

features_ok_test : write_status 11 (at_status 3 false) ≡ returns (at_status 11 false)
unfolding write write_register set_device_status
features_ok_test = refl

driver_ok_test : write_status 15 (at_status 11 false) ≡ returns (at_status 15 true)
unfolding write write_register set_device_status set_driver_ok activated are_queues_valid all_valid
    is_valid is_placed out_of_range actual_size len avail_idx and_then unwrap
driver_ok_test = refl

-- A driver that tries to move the descriptor table of the running device.
move_test :
    write flat dummy memory 0x80 (0 ∷ 1 ∷ 0 ∷ 0 ∷ []) (at_status 15 true)
    ≡ returns (at_status 15 true)
unfolding write write_register write_queue_register update_queue_field check_device_status
move_test = refl

write-OnWrite_example :
    OnWrite flat dummy memory
      (at_status 11 false)
      (write flat dummy memory 0x70 (15 ∷ 0 ∷ 0 ∷ 0 ∷ []) (at_status 11 false))
write-OnWrite_example =
    write-OnWrite flat dummy dummy-IsDevice memory (at_status 11 false) (λ e. cc) 0x70
      (15 ∷ 0 ∷ 0 ∷ 0 ∷ [])

running : Reach flat dummy (at_status 0 false) (at_status 15 true)
running =
    then_write memory 0x70 (15 ∷ 0 ∷ 0 ∷ 0 ∷ [])
      (then_write memory 0x70 (11 ∷ 0 ∷ 0 ∷ 0 ∷ [])
        (then_write memory 0x70 (3 ∷ 0 ∷ 0 ∷ 0 ∷ [])
          (then_write memory 0x70 (1 ∷ 0 ∷ 0 ∷ 0 ∷ []) here acknowledge_test) driver_test)
        features_ok_test)
      driver_ok_test

active_frozen_example :
    (dummy.queues (at_status 15 true).device ≡ dummy.queues (at_status 15 true).device)
    × (bit (at_status 15 true).device_status 2 ≡ 1)
unfolding new
active_frozen_example =
    active_frozen flat dummy dummy-IsDevice idle 0 refl running
      (then_active memory 0x80 (0 ∷ 1 ∷ 0 ∷ 0 ∷ []) (active refl) move_test refl)

set_device_status-HasFailed_example :
    HasFailed (set_device_status flat dummy memory 0 (at_status 143 true))
set_device_status-HasFailed_example =
    set_device_status-HasFailed flat dummy (at_status 143 true) (omega arith) memory 0
