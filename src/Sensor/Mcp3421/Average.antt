-- ===== src/Sensor/Mcp3421/Average.antt =====
-- The average of mcp3421.c on a converter that behaves as its manual says.
use bramka_setup.Base.{
  ◌*◌, ◌-◌, ltb, ltb→lt, Bool-cases, ℕ, zero, suc, inl, inr, ◌⊎◌, ◌+◌, ◌<◌, ◌≤◌, ◌≡◌, refl, ap, ◌∙◌,
  arith, Bool, true, false, some, none, [], ◌∷◌, Bytes, u64,
}
use bramka_setup.Sensor.Gauge.{I2c}
use bramka_setup.Sensor.Mcp3421.{
  is_ready, raw_of, widened, clamped, poll_ready, once_started, convert, accumulate,
  mcp3421_read_batt_mv, formula,
}

-- The converter: the conversions started so far, and the milliseconds that the last one still
-- takes. A start is taken, and its conversion takes at most `time`; only time that passes brings a
-- conversion on; a poll reads bytes with RDY set before its end, and then the conversion's bytes.
pub record IsCell (D : Type 0) (bus : I2c D) (result : ℕ → Bytes) (time : ℕ) : Type 0 where
  pub started : D → ℕ
  pub left : D → ℕ
  pub starts :
      (d : D)
      → (got : Bytes) × (d' : D) × (bus.transfer 0x68 (0x8c ∷ []) 0 d ≡ (some got, d'))
        × (started d' ≡ suc (started d))
        × (left d' ≤ time)
  pub sleeps :
      (n : ℕ) (d : D) → (started (bus.sleep n d) ≡ started d) × (left (bus.sleep n d) ≡ left d - n)
  pub working :
      (d : D)
      → 0 < left d
      → (rd : Bytes) × (d' : D) × (bus.transfer 0x68 [] 4 d ≡ (some rd, d'))
        × (is_ready rd ≡ false)
        × (started d' ≡ started d)
        × (left d' ≡ left d)
  pub done :
      (d : D)
      → left d ≡ 0
      → (d' : D) × (bus.transfer 0x68 [] 4 d ≡ (some (result (started d)), d'))
        × (started d' ≡ started d)
  pub ready : (n : ℕ) → is_ready (result n) ≡ true

-- the sum in 64 bits of the conversions after the first `k`
unfoldable pub sum_from : (ℕ → ℕ) → ℕ → ℕ → ℕ → ℕ
sum_from value k zero acc = acc
sum_from value k (suc n) acc = sum_from value (suc k) n (u64 (acc + widened (value (suc k))))

zero_or : (n : ℕ) → (n ≡ 0) ⊎ (0 < n)
zero_or zero = inl refl
zero_or (suc n) = inr (omega arith)

sampled : (n : ℕ) → (clamped n ≡ n) ⊎ (n ≡ 0) ⊎ (16 < n)
sampled n = elim (zero_or n) [
  | inl z ↦ inr (inl z)
  | inr p ↦ elim (Bool-cases (ltb 16 n)) [
    | inl y ↦ inr (inr (ltb→lt 16 n y))
    | inr l ↦ inl (ground arith)
  ]
]

module _ {D : Type 0} (bus : I2c D) where
  -- a poll that reads `rd`
  polled :
      (n : ℕ) {d d' : D} {rd : Bytes} {t : Bool}
      → bus.transfer 0x68 [] 4 (bus.sleep 10 d) ≡ (some rd, d')
      → is_ready rd ≡ t
      → poll_ready bus (suc n) d
        ≡ elim t [ true ↦ (some (raw_of rd), d') | false ↦ poll_ready bus n d' ]
  unfolding poll_ready
  polled n {d} {d'} {rd} {t} e r =
      ap
        (λ t. elim t.0 [
          | none ↦ (none, t.1)
          | some b ↦ elim (is_ready b) [
            | true ↦ (some (raw_of b), t.1)
            | false ↦ poll_ready bus n t.1
          ]
        ])
        e
      ∙ ap (λ c. elim c [ true ↦ (some (raw_of rd), d') | false ↦ poll_ready bus n d' ]) r

module _ {D : Type 0} (bus : I2c D) (result : ℕ → Bytes) (time : ℕ)
    (h : IsCell D bus result time) where
  -- the polls of a conversion
  poll_ready_lem :
      (n : ℕ) (d : D)
      → 0 < n
      → h.left d ≤ 10 * n
      → (d' : D) × (poll_ready bus n d ≡ (some (raw_of (result (h.started d))), d'))
        × (h.started d' ≡ h.started d)
  poll_ready_lem zero d p l = absurd (omega arith)
  poll_ready_lem (suc n) d p l =
      let (ss, sl) = h.sleeps 10 d in
      elim (zero_or (h.left (bus.sleep 10 d))) [
        | inl z ↦
            let (d', e, k) = h.done (bus.sleep 10 d) z in
            (d', polled bus n e (h.ready _) ∙ ap (λ m. (some (raw_of (result m)), d')) ss, k ∙ ss)
        | inr q ↦
            let (rd, d1, e, r, k, w) = h.working (bus.sleep 10 d) q in
            let (d', f, k') =
              poll_ready_lem n d1 (omega (arith, l, q, sl)) (omega (arith, l, w, sl)) in
            (
              d',
              polled bus n e r ∙ f ∙ ap (λ m. (some (raw_of (result m)), d')) (k ∙ ss),
              k' ∙ k ∙ ss,
            )
      ]

  convert_lem :
      (d : D)
      → time ≤ 400
      → (d' : D) × (convert bus d ≡ (some (raw_of (result (suc (h.started d)))), d'))
        × (h.started d' ≡ suc (h.started d))
  unfolding convert
  convert_lem d b =
      let (got, d1, e, s, l) = h.starts d in
      let (d', f, k) = poll_ready_lem 40 d1 (omega arith) (omega (arith, l)) in
      (d', ap (once_started bus) e ∙ f ∙ ap (λ m. (some (raw_of (result m)), d')) s, k ∙ s)

  accumulate_lem :
      (uv : ℕ → ℕ) (n acc : ℕ) (d : D)
      → time ≤ 400
      → (d' : D) × (accumulate bus uv true n acc d
          ≡ (some (sum_from (λ i. uv (raw_of (result i))) (h.started d) n acc), d'))
        × (h.started d' ≡ h.started d + n)
  unfolding accumulate sum_from
  accumulate_lem uv zero acc d b = (d, refl, omega arith)
  accumulate_lem uv (suc n) acc d b =
      let (d1, e, k) = convert_lem d b in
      let x : ℕ = uv (raw_of (result (suc (h.started d)))) in
      let (d', f, k') = accumulate_lem uv n (u64 (acc + widened x)) d1 b in
      (
        d',
        ap
              (λ r. elim (formula bus uv r).0 [
                | none ↦ (none, (formula bus uv r).1)
                | some y ↦ accumulate bus uv true n (u64 (acc + widened y)) (formula bus uv r).1
              ])
              e
            ∙ f
            ∙ ap
                (λ m.
                  (some (sum_from (λ i. uv (raw_of (result i))) m n (u64 (acc + widened x))), d'))
                k,
        omega (arith, k, k'),
      )

  -- On a converter that behaves as `IsCell` says, with conversions of at most 400 ms,
  -- `mcp3421_read_batt_mv` returns the formula of the sum of as many fresh conversions as the
  -- samples asked for, at least one and at most sixteen, and starts no others.
  pub mcp3421_read_batt_mv_lem :
      (uv : ℕ → ℕ) (mv : ℕ → ℕ → ℕ) (samples : ℕ) (d : D)
      → time ≤ 400
      → (n : ℕ) × (d' : D) × (1 ≤ n)
        × (n ≤ 16)
        × ((n ≡ samples) ⊎ (samples ≡ 0) ⊎ (16 < samples))
        × (mcp3421_read_batt_mv bus uv mv true samples d
            ≡ (some (mv (sum_from (λ i. uv (raw_of (result i))) (h.started d) n 0) n), d'))
        × (h.started d' ≡ h.started d + n)
  unfolding mcp3421_read_batt_mv
  mcp3421_read_batt_mv_lem uv mv samples d b =
      let n : ℕ = clamped samples in
      let (d', e, k) = accumulate_lem uv n 0 d b in
      (n, d', ground arith, ground arith, sampled samples, ap (formula bus (λ acc. mv acc n)) e, k)
