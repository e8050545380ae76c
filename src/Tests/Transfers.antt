-- ===== src/Tests/Transfers.antt =====
-- The theorems about the wiring of SLAVE_READY and about the slave's transfer, at concrete inputs.
use bramka_setup.Base.{◌≡◌, refl, ap, arith, Bool, true, false, if◌then◌else◌, leb}
use bramka_setup.Spi.Master.Irq.{at_start, setup_slave_ready_irq}
use bramka_setup.Spi.Master.Irq.Resources.{IsSound, setup_slave_ready_irq-IsSound}
use bramka_setup.Spi.Slave.Port.{SpiDriver, Port, slave_do_transfer}
use bramka_setup.Spi.Slave.Port.Recovery.{IsDriver, IsIdle, slave_do_transfer-IsIdle}

-- the outputs from 6 on are granted
setup_slave_ready_irq-IsSound_example :
    IsSound (λ n. leb 6 n) (λ n. true) (setup_slave_ready_irq (λ n. leb 6 n) (λ n. true) at_start)
setup_slave_ready_irq-IsSound_example = setup_slave_ready_irq-IsSound (λ n. leb 6 n) (λ n. true)

-- whether a transfer is armed, and whether the master clocks
abbrev Chip : Type 0
Chip = Bool × Bool

-- A cancel of an armed transfer calls the callback.
abbrev driver : SpiDriver Chip
driver = record {
  cancel = λ d. (d.0, (false, d.1));
  transfer = λ d. (if d.0 then false else true, (true, d.1));
  clock = λ d. (d.1, (if d.1 then false else d.0, d.1));
}

clocked_ends : (t p : Bool) → t ≡ true → (if t then false else p) ≡ false
clocked_ends true p e = refl
clocked_ends false p e = absurd (ground arith)

driver-IsDriver : IsDriver Chip driver
driver-IsDriver = record {
  pending = λ d. d.0;
  cancels = λ d. refl;
  arms = λ d h. ap (λ t. if t then false else true) h;
  ends = λ d h. clocked_ends d.1 d.0 h;
}

-- a transfer left armed, with its event
abbrev stuck : Port Chip
stuck = record { driver = (true, false); spi_done = true; slave_ready = false }

slave_do_transfer-IsIdle_example :
    (true ≡ true)
    × ((slave_do_transfer driver stuck).0 ≡ false)
    × IsIdle Chip driver driver-IsDriver (slave_do_transfer driver stuck).1
slave_do_transfer-IsIdle_example = slave_do_transfer-IsIdle driver driver-IsDriver stuck
