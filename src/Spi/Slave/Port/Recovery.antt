-- ===== src/Spi/Slave/Port/Recovery.antt =====
-- The slave's transfer leaves nothing behind, and recovers from what was left.
use bramka_setup.Base.{◌≡◌, refl, arith, Bool, true, false}
use bramka_setup.Spi.Slave.Port.{SpiDriver, Port, armed, timed, slave_do_transfer}

-- The driver: after a cancel no transfer is armed; `SPI_transfer` arms one when none is; a transfer
-- that the callback has reported is over.
pub record IsDriver (D : Type 0) (spi : SpiDriver D) : Type 0 where
  pub pending : D → Bool
  pub cancels : (d : D) → pending (spi.cancel d).1 ≡ false
  pub arms : (d : D) → pending d ≡ false → (spi.transfer d).0 ≡ true
  pub ends : (d : D) → (spi.clock d).0 ≡ true → pending (spi.clock d).1 ≡ false

-- Nothing is left of a transfer.
pub record IsIdle (D : Type 0) (spi : SpiDriver D) (h : IsDriver D spi) (s : Port D) : Type 0 where
  pub pending : h.pending s.driver ≡ false
  pub spi_done : s.spi_done ≡ false
  pub slave_ready : s.slave_ready ≡ false

module _ {D : Type 0} (spi : SpiDriver D) (h : IsDriver D spi) where
  timed-IsIdle :
      (r : Bool × Port D)
      → r.1.slave_ready ≡ false
      → r.1.spi_done ≡ false
      → (r.0 ≡ true → h.pending r.1.driver ≡ false)
      → ((timed spi r).0 ≡ r.0) × IsIdle D spi h (timed spi r).1
  timed-IsIdle (true, s) l e p = (refl, record { pending = p refl; spi_done = e; slave_ready = l })
  timed-IsIdle (false, s) l e p =
      (refl, record { pending = h.cancels s.driver; spi_done = refl; slave_ready = l })

  armed-IsIdle :
      (r : Bool × D) (x : D) (y : Bool)
      → r.0 ≡ true
      → let t = armed spi r (record { driver = x; spi_done = false; slave_ready = y }) in
        (t.0 ≡ (spi.clock r.1).0) × IsIdle D spi h t.1
  armed-IsIdle (true, d) x y e =
      let c = spi.clock d in
      timed-IsIdle (c.0, record { driver = c.1; spi_done = false; slave_ready = false }) refl refl
        (h.ends d)
  armed-IsIdle (false, d) x y e = absurd (ground arith)

  -- With a driver that behaves as `IsDriver` says, whatever was left of an earlier transfer (one
  -- still armed, an event not taken): `slave_do_transfer` arms its transfer, returns true exactly
  -- when the master clocks that one in time, and leaves no transfer armed, no event and SLAVE_READY
  -- released.
  pub slave_do_transfer-IsIdle :
      (s : Port D)
      → let d = spi.transfer (spi.cancel s.driver).1 in
        (d.0 ≡ true)
        × ((slave_do_transfer spi s).0 ≡ (spi.clock d.1).0)
        × IsIdle D spi h (slave_do_transfer spi s).1
  unfolding slave_do_transfer
  slave_do_transfer-IsIdle s =
      let e = h.arms _ (h.cancels s.driver) in
      let (a, b) = armed-IsIdle (spi.transfer (spi.cancel s.driver).1) _ s.slave_ready e in
      (e, a, b)
