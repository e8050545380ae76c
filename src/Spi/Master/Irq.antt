-- ===== src/Spi/Master/Irq.antt =====
-- Gateway/Firmware/M4F/spi_master.c: the wiring of the SLAVE_READY interrupt, its handler, and the
-- end of the SPI task. What the drivers are told is a list of calls; what they answer is an input.
pub mod Resources
use bramka_setup.Base.{
  ℕ, zero, suc, ◌+◌, ◌-◌, Bool, true, false, Option, none, some, List, [], ◌∷◌, ◌++◌, if◌then◌else◌,
  leb, u32,
}

abbrev pub sr_outp_first : ℕ
sr_outp_first = 4

abbrev pub sr_outp_last : ℕ
sr_outp_last = 7

-- The calls: `Sciclient_rmIrqSetRaw` of an output and whether it is granted, its release, the
-- trigger type (falling edge or none), the bank's pending status and its interrupt, `HwiP_construct`
-- of an interrupt number and whether it succeeds, and `HwiP_destruct`.
pub data Call : Type 0 where
  route_set : ℕ → Bool → Call
  route_release : ℕ → Call
  trig_type : Bool → Call
  clear_status : Call
  intr_enable : Call
  intr_disable : Call
  hwi_construct : ℕ → Bool → Call
  hwi_destruct : Call

-- gIrqActive and gIrqOutp (none is -1)
pub record Wiring : Type 0 where
  pub irq_active : Bool
  pub irq_outp : Option ℕ

abbrev pub at_start : Wiring
at_start = record { irq_active = false; irq_outp = none }

-- the outputs from `outp` on, until one is granted
unfoldable pub claim : (ℕ → Bool) → ℕ → ℕ → List Call × Option ℕ
claim grants outp zero = ([], none)
claim grants outp (suc left) =
    let rest = claim grants (suc outp) left in
    if grants outp
    then (route_set outp true ∷ [], some outp)
    else (route_set outp false ∷ rest.0, rest.1)

-- the rest of `spi_setup_slave_ready_irq`; the answer of `HwiP_construct` depends on the number
abbrev pub wire : (ℕ → Bool) → List Call × Option ℕ → Wiring → List Call × Wiring
wire constructs (tried, none) w = (tried, record w { irq_active = false })
wire constructs (tried, some routed) w =
    let num = routed - sr_outp_first + 16 in
    let calls =
      tried
      ++ (trig_type true ∷ clear_status ∷ intr_enable ∷ hwi_construct num (constructs num) ∷ []) in
    if constructs num then (calls, record { irq_active = true; irq_outp = some routed }) else (
      calls ++ (intr_disable ∷ trig_type false ∷ route_release routed ∷ []),
      record w { irq_active = false },
    )

-- `spi_setup_slave_ready_irq`
unfoldable pub setup_slave_ready_irq : (ℕ → Bool) → (ℕ → Bool) → Wiring → List Call × Wiring
setup_slave_ready_irq grants constructs w =
    wire constructs (claim grants sr_outp_first (suc (sr_outp_last - sr_outp_first))) w

abbrev pub releases : Option ℕ → List Call
releases none = []
releases (some outp) = route_release outp ∷ []

-- the end of `spiTask`
unfoldable pub teardown : Wiring → List Call × Wiring
teardown w =
    if w.irq_active
    then (
      intr_disable ∷ trig_type false ∷ hwi_destruct ∷ releases w.irq_outp,
      record w { irq_active = false },
    )
    else ([], w)
