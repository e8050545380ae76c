-- ===== src/Comms/Loop/Shutdown.antt =====
-- Gateway/Firmware/M4F/ipc_rpmsg_echo.c, `doShutdown`, with `spi_master_shutdown` of spi_master.c:
-- what follows the COMMS loop. When the SPI task has stopped is an input.
use bramka_setup.Base.{
  ℕ, zero, suc, ◌+◌, ◌*◌, ◌<◌, ◌≤◌, ◌≡◌, ◌⊎◌, inl, inr, refl, ap, ◌∙◌, arith, Bool, Bool-cases,
  true, false, ◌&&◌, not, Option, none, some, List, [], ◌∷◌, ◌++◌, ◌>>=◌, if◌then◌else◌, ltb,
  ltb→lt, ◌==◌,
}
use bramka_setup.Comms.Loop.{Board}

-- the post of gSrSem, a delay of 10 ms, the SHUTDOWN_ACK to a core, and the halt
pub data Act : Type 0 where
  wake_spi : Act
  delay : Act
  shutdown_ack : ℕ → Act
  halt : Act

-- the wait for gSpiStopped, read the k-th time, on fuel; none when the fuel is used up
unfoldable pub wait_stopped : (ℕ → Bool) → ℕ → ℕ → ℕ → ℕ → Option (List Act)
wait_stopped stops timeout zero k waited = none
wait_stopped stops timeout (suc fuel) k waited =
    let rest = wait_stopped stops timeout fuel (suc k) (waited + 10) in
    if not (stops k) && ltb waited timeout then (rest >>= λ acts. some (delay ∷ acts)) else some []

-- `spi_master_shutdown`; `idle` when there is no SPI task or it has stopped already. The fuel is
-- for delays of 10 ms.
abbrev pub spi_master_shutdown : Bool → (ℕ → Bool) → ℕ → Option (List Act)
spi_master_shutdown true stops timeout = some []
spi_master_shutdown false stops timeout =
    wait_stopped stops timeout (suc timeout) 0 0 >>= λ acts. some (wake_spi ∷ acts)

abbrev pub shutdown_timeout : ℕ
shutdown_timeout = 1000

-- the ACK, when a core has asked, and the halt
abbrev pub ending : Board → List Act
ending b = (if b.shutdown_core == 0 then [] else shutdown_ack b.shutdown_core ∷ []) ++ (halt ∷ [])

-- `doShutdown`
unfoldable pub do_shutdown : Bool → (ℕ → Bool) → Board → Option (List Act)
do_shutdown idle stops b =
    spi_master_shutdown idle stops shutdown_timeout >>= λ acts. some (acts ++ ending b)

abbrev delays : ℕ → List Act
delays zero = []
delays (suc n) = delay ∷ delays n

last_delay :
    (waited timeout n : ℕ)
    → waited < timeout
    → (n ≡ 0) ⊎ (waited + 10 + 10 * n < timeout + 10)
    → waited + 10 * suc n < timeout + 10
last_delay waited timeout n l (inl z) = omega (arith, l, z)
last_delay waited timeout n l (inr q) = omega (arith, q)

at_most : (n : ℕ) → (n ≡ 0) ⊎ (0 + 10 * n < 1000 + 10) → n ≤ 100
at_most n (inl z) = omega (arith, z)
at_most n (inr q) = omega (arith, q)

wait_stopped_lem :
    (stops : ℕ → Bool) (timeout fuel k waited : ℕ)
    → 0 < fuel
    → timeout + 10 ≤ waited + 10 * fuel
    → (n : ℕ) × (wait_stopped stops timeout fuel k waited ≡ some (delays n))
      × ((n ≡ 0) ⊎ (waited + 10 * n < timeout + 10))
      × ((stops (k + n) ≡ true) ⊎ (timeout ≤ waited + 10 * n))
unfolding wait_stopped
wait_stopped_lem stops timeout zero k waited p h = absurd (omega arith)
wait_stopped_lem stops timeout (suc fuel) k waited p h = elim (Bool-cases (stops k)) [
  | inl y ↦ (0, ground (arith, y), inl refl, inl (ap stops {x = k + 0} {y = k} (omega arith) ∙ y))
  | inr w ↦ elim (Bool-cases (ltb waited timeout)) [
    | inl t ↦
        let l = ltb→lt waited timeout t in
        let (n, e, b, s) =
          wait_stopped_lem stops timeout fuel (suc k) (waited + 10) (omega (arith, l, h))
            (omega (arith, h)) in
        (
          suc n,
          ground (arith, w, t, e),
          inr (last_delay waited timeout n l b),
          elim s [
            | inl y ↦ inl (ap stops {x = k + suc n} {y = suc k + n} (omega arith) ∙ y)
            | inr q ↦ inr (omega (arith, q))
          ],
        )
    | inr g ↦ (0, ground (arith, w, g), inl refl, inr (ground (arith, g)))
  ]
]

asked : (b : Board) → 0 < b.shutdown_core → ending b ≡ shutdown_ack b.shutdown_core ∷ halt ∷ []
asked b c = ground (arith, c)

-- After a SHUTDOWN notification of a core other than 0, however long the SPI task goes on:
-- `doShutdown` comes to an end with one SHUTDOWN_ACK, to that core, and the halt, after at most
-- hundred delays of 10 ms and then only when the SPI task has stopped or all of them are over.
pub do_shutdown_lem :
    (stops : ℕ → Bool) (b : Board)
    → 0 < b.shutdown_core
    → (n : ℕ) × (n ≤ 100)
      × ((stops n ≡ true) ⊎ (n ≡ 100))
      × (do_shutdown false stops b
          ≡ some (wake_spi ∷ (delays n ++ (shutdown_ack b.shutdown_core ∷ halt ∷ []))))
unfolding do_shutdown
do_shutdown_lem stops b c =
    let (n, e, l, s) = wait_stopped_lem stops 1000 1001 0 0 (omega arith) (omega arith) in
    let m = at_most n l in
    (
      n,
      m,
      elim s [
        | inl y ↦ inl (ap stops {x = n} {y = 0 + n} (omega arith) ∙ y)
        | inr q ↦ inr (omega (arith, m, q))
      ],
      ap (λ o. (o >>= λ acts. some (wake_spi ∷ acts)) >>= λ acts. some (acts ++ ending b)) e
          ∙ ap (λ acts. some (wake_spi ∷ (delays n ++ acts))) (asked b c),
    )
