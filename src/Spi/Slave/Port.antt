-- ===== src/Spi/Slave/Port.antt =====
-- Gateway/Firmware/CC1310/spi_slave_task.c: one transfer of the slave. The SPI driver is a
-- parameter; the event SPI_DONE and the SLAVE_READY line are the state.
pub mod Recovery
use bramka_setup.Base.{ℕ, Bool, true, false, not, if◌then◌else◌}

-- `SPI_transferCancel`, and whether it calls the callback; `SPI_transfer`, and whether it arms the
-- transfer; and SPI_TIMEOUT_TICKS with SLAVE_READY low, and whether the callback comes by then.
pub record SpiDriver (D : Type 0) : Type 0 where
  pub cancel : D → Bool × D
  pub transfer : D → Bool × D
  pub clock : D → Bool × D

-- the driver, EVENT_SPI_DONE, and whether SLAVE_READY is low
pub record Port (D : Type 0) : Type 0 where
  pub driver : D
  pub spi_done : Bool
  pub slave_ready : Bool

module _ {D : Type 0} (spi : SpiDriver D) where
  -- `SPI_transferCancel`, whose callback may post the event
  abbrev pub transfer_cancel : Port D → Port D
  transfer_cancel s =
      let r = spi.cancel s.driver in
      record s { driver = r.1; spi_done = if r.0 then true else s.spi_done }

  -- `Event_pend` without waiting, which takes the event when it is posted
  abbrev pub take_event : Port D → Port D
  take_event s = record s { spi_done = false }

  -- `Event_pend` with the timeout: at once with the event posted, else when the callback posts it
  abbrev pub wait_event : Port D → Bool × Port D
  wait_event s =
      let r = spi.clock s.driver in
      if s.spi_done then (true, record s { spi_done = false }) else (r.0, record s { driver = r.1 })

  -- after the wait
  abbrev pub timed : Bool × Port D → Bool × Port D
  timed (true, s) = (true, s)
  timed (false, s) = (false, take_event (transfer_cancel s))

  -- armed, or not
  abbrev pub armed : Bool × D → Port D → Bool × Port D
  armed (false, d) s = (false, record s { driver = d })
  armed (true, d) s =
      let r = wait_event (record s { driver = d; slave_ready = true }) in
      timed (r.0, record r.1 { slave_ready = false })

  -- `slave_do_transfer`
  unfoldable pub slave_do_transfer : Port D → Bool × Port D
  slave_do_transfer s = let s1 = take_event (transfer_cancel s) in armed (spi.transfer s1.driver) s1
