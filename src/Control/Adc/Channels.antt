-- ===== src/Control/Adc/Channels.antt =====
-- The converter's eight channels, on a device that behaves as its data sheet says while the inputs
-- hold still.
use bramka_setup.Base.{
  ℕ, zero, suc, ◌+◌, ◌*◌, ◌-◌, ◌/◌, ◌%◌, ◌<◌, ◌≤◌, ◌^◌, ◌≡◌, refl, ap, ◌∙◌, arith, Bool, Bool-cases,
  inl, inr, true, false, Option, none, some, List, [], ◌∷◌, ◌++◌, ◌>>=◌, if◌then◌else◌, Bytes, byte,
  drop, leb,
}
use bramka_setup.Control.Adc.{
  Device, Adc, answered, send, usleep, write_cmd, wait_drdy, set_channel, extended, read_adc_data,
  wait_low, convert, get_channel_value, get_from, each_channel, read_temperature, drdy_rounds,
  cmd_sync, cmd_wakeup, cmd_rdata,
}

-- n waits of a microsecond
abbrev pub waits : {D : Type 0} → Device D → ℕ → D → D
waits dev zero d = d
waits dev (suc n) d = waits dev n (dev.wait 1 d)

-- What the driver relies on. The views: the selected channel; whether SYNC has stopped the
-- conversions; whether they have been started anew, by WAKEUP after SYNC, on the channel that was
-- selected then and still is; and the channel of the result that RDATA has fetched. While the
-- conversions are not stopped DRDY gets low within `rounds` microseconds; a write of MUX selects;
-- waits change none of the views; RDATA with DRDY low and the conversions started anew fetches the
-- result of the selected channel; and the next three bytes are its code, the high byte first.
pub record IsConverter (D : Type 0) (dev : Device D) (code : ℕ → ℕ) (rounds : ℕ) : Type 0 where
  pub mux : D → ℕ
  pub stopped : D → Bool
  pub anew : D → Bool
  pub fetched : D → Option ℕ
  pub ready_soon :
      (d : D) → stopped d ≡ false → (n : ℕ) × (n < rounds) × (dev.ready (waits dev n d) ≡ true)
  pub wait_keeps :
      (n : ℕ) (d : D)
      → (mux (dev.wait n d) ≡ mux d)
        × (stopped (dev.wait n d) ≡ stopped d)
        × (anew (dev.wait n d) ≡ anew d)
        × (fetched (dev.wait n d) ≡ fetched d)
  pub selects : (c : ℕ) (d : D) → c < 8 → mux (dev.transfer (0x51 ∷ 0 ∷ (c * 16 + 8) ∷ []) d).1 ≡ c
  pub stops :
      (d : D) → let d' = (dev.transfer (0xfc ∷ []) d).1 in (mux d' ≡ mux d) × (stopped d' ≡ true)
  pub restarts :
      (d : D)
      → stopped d ≡ true
      → let d' = (dev.transfer (0x00 ∷ []) d).1 in
        (mux d' ≡ mux d) × (stopped d' ≡ false) × (anew d' ≡ true)
  pub fetches :
      (d : D)
      → dev.ready d ≡ true
      → stopped d ≡ false
      → anew d ≡ true
      → let d' = (dev.transfer (0x01 ∷ []) d).1 in
        (fetched d' ≡ some (mux d)) × (stopped d' ≡ false)
  pub answers :
      (c : ℕ) (d : D)
      → fetched d ≡ some c
      → let r = dev.transfer (0xff ∷ 0xff ∷ 0xff ∷ []) d in
        (r.0 ≡ some (code c / 65536 ∷ (code c / 256) % 256 ∷ code c % 256 ∷ []))
        × (stopped r.1 ≡ stopped d)

-- the 32-bit two's complement of a 24-bit one
abbrev pub signed : ℕ → ℕ
signed code = if leb (2 ^ 23) code then code + (2 ^ 32 - 2 ^ 24) else code

extended-signed : (n : ℕ) → n < 2 ^ 24 → extended (n / 65536) ((n / 256) % 256) (n % 256) ≡ signed n
extended-signed n h = ground arith

-- f at c, c + 1, ...
abbrev pub values_from : (ℕ → ℕ) → ℕ → ℕ → List ℕ
values_from f c zero = []
values_from f c (suc n) = f c ∷ values_from f (suc c) n

each_channel-values :
    (poly : ℕ → ℕ → ℕ) (f : ℕ → ℕ) (c n : ℕ)
    → each_channel poly c (values_from f c n) ≡ values_from (λ i. poly i (f i)) c n
each_channel-values poly f c zero = refl
each_channel-values poly f c (suc n) =
    ap (λ vs. poly c (f c) ∷ vs) (each_channel-values poly f (suc c) n)

module _ {D : Type 0} (dev : Device D) (code : ℕ → ℕ) (rounds : ℕ)
    (h : IsConverter D dev code rounds) where
  -- a transfer's effect on the device
  device-send :
      (n : ℕ) (out : Bytes) (s : Adc D) → (send dev n out s).device ≡ (dev.transfer out s.device).1
  unfolding send
  device-send n out s = after (dev.transfer out s.device)
    where
      after :
          (r : Option Bytes × D)
          → (answered dev (record s { tx = out ++ drop n s.tx }) n r).device ≡ r.1
      after (none, d) = refl
      after (some got, d) = refl

  -- The views are the same.
  Same : D → D → Type 0
  Same d d' =
      (h.mux d' ≡ h.mux d)
      × (h.stopped d' ≡ h.stopped d)
      × (h.anew d' ≡ h.anew d)
      × (h.fetched d' ≡ h.fetched d)

  wait_drdy-Same : (n : ℕ) (s : Adc D) → Same s.device (wait_drdy dev n s).device
  unfolding wait_drdy usleep Same
  wait_drdy-Same zero s = (refl, refl, refl, refl)
  wait_drdy-Same (suc n) s =
      pick (dev.ready s.device) (wait_drdy-Same n (record s { device = dev.wait 1 s.device }))
    where
      pick :
          (t : Bool)
          → (let s1 : Adc D = record s { device = dev.wait 1 s.device } in
              Same s1.device (wait_drdy dev n s1).device)
          → let next : Adc D = elim t [
            | true ↦ s
            | false ↦ wait_drdy dev n (record s { device = dev.wait 1 s.device })
          ] in
            Same s.device next.device
      pick true rest = (refl, refl, refl, refl)
      pick false (a, b, c, e) =
          let (a', b', c', e') = h.wait_keeps 1 s.device in (a ∙ a', b ∙ b', c ∙ c', e ∙ e')

  -- DRDY is low after the wait for it.
  wait_drdy-ready :
      (fuel n : ℕ) (s : Adc D)
      → n < fuel
      → dev.ready (waits dev n s.device) ≡ true
      → dev.ready (wait_drdy dev fuel s).device ≡ true
  unfolding wait_drdy usleep
  wait_drdy-ready zero n s lt r = absurd (omega arith)
  wait_drdy-ready (suc fuel) zero s lt r = ground (arith, r)
  wait_drdy-ready (suc fuel) (suc n) s lt r = elim (Bool-cases (dev.ready s.device)) [
    | inl y ↦ ground (arith, y)
    | inr n' ↦ ground (
      arith,
      n',
      wait_drdy-ready fuel n (record s { device = dev.wait 1 s.device }) (omega arith) r,
    )
  ]

  usleep-Same : (n : ℕ) (s : Adc D) → Same s.device (usleep dev n s).device
  unfolding usleep Same
  usleep-Same n s = h.wait_keeps n s.device

  set_channel-mux : (c : ℕ) (s : Adc D) → c < 8 → h.mux (set_channel dev c s).device ≡ c
  unfolding set_channel
  set_channel-mux c s lt =
      ground (arith, device-send 3 (0x51 ∷ 0 ∷ (c * 16 + 8) ∷ []) s, h.selects c s.device lt)

  -- the bytes that come back, put together
  read_back :
      (c : ℕ) (s : Adc D)
      → h.fetched s.device ≡ some c
      → code c < 2 ^ 24
      → let s' = send dev 3 (0xff ∷ 0xff ∷ 0xff ∷ []) s in
        extended (byte s'.rx 0) (byte s'.rx 1) (byte s'.rx 2) ≡ signed (code c)
  unfolding send
  read_back c s a top =
      let n : ℕ = code c in
      back (dev.transfer (0xff ∷ 0xff ∷ 0xff ∷ []) s.device) (n / 65536) ((n / 256) % 256) (n % 256)
        (h.answers c s.device a).0
      ∙ extended-signed n top
    where
      bytes_of : Option Bytes → Bytes
      bytes_of none = []
      bytes_of (some bs) = bs

      back :
          (r : Option Bytes × D) (x y z : ℕ)
          → r.0 ≡ some (x ∷ y ∷ z ∷ [])
          → let s' = answered dev (record s { tx = 0xff ∷ 0xff ∷ 0xff ∷ drop 3 s.tx }) 3 r in
            extended (byte s'.rx 0) (byte s'.rx 1) (byte s'.rx 2) ≡ extended x y z
      back (none, d) x y z e = absurd (ground arith)
      back (some got, d) x y z e =
          ap
            (λ o.
              let bs = bytes_of o ++ drop 3 s.rx in extended (byte bs 0) (byte bs 1) (byte bs 2))
            e

  wait_low-some :
      (fuel n : ℕ) (s : Adc D)
      → n < fuel
      → dev.ready (waits dev n s.device) ≡ true
      → (s' : Adc D) × (wait_low dev fuel s ≡ some s')
  unfolding wait_low usleep
  wait_low-some zero n s lt r = absurd (omega arith)
  wait_low-some (suc fuel) zero s lt r = (s, ground arith)
  wait_low-some (suc fuel) (suc n) s lt r = elim (Bool-cases (dev.ready s.device)) [
    | inl y ↦ (s, ground arith)
    | inr n' ↦
        let (s', e) =
          wait_low-some fuel n (record s { device = dev.wait 1 s.device }) (omega arith) r in
        (s', ground (arith, e))
  ]

  -- SYNC and WAKEUP on the channel, and then the wait for DRDY
  restarted : ℕ → Adc D → Adc D
  restarted c s = wait_drdy dev drdy_rounds (
      usleep dev 25 (
        write_cmd dev cmd_wakeup
          (usleep dev 5 (write_cmd dev cmd_sync (usleep dev 5 (set_channel dev c s))))))

  restarted_lem :
      (c : ℕ) (s : Adc D)
      → rounds ≤ drdy_rounds
      → c < 8
      → let d = (restarted c s).device in
        (h.mux d ≡ c) × (h.stopped d ≡ false) × (h.anew d ≡ true) × (dev.ready d ≡ true)
  unfolding restarted Same
  restarted_lem c s hr lt =
      let s1 : Adc D = usleep dev 5 (set_channel dev c s) in
      let s2 : Adc D = usleep dev 5 (write_cmd dev cmd_sync s1) in
      let s3 : Adc D = usleep dev 25 (write_cmd dev cmd_wakeup s2) in
      let (a1, b1, c1, e1) = usleep-Same 5 (set_channel dev c s) in
      let (a2, b2, c2, e2) = usleep-Same 5 (write_cmd dev cmd_sync s1) in
      let (a3, b3, c3, e3) = usleep-Same 25 (write_cmd dev cmd_wakeup s2) in
      let (a4, b4, c4, e4) = wait_drdy-Same drdy_rounds s3 in
      let x2 = device-send 1 (cmd_sync ∷ []) s1 in
      let x3 = device-send 1 (cmd_wakeup ∷ []) s2 in
      let (m2, t2) = h.stops s1.device in
      let (m3, t3, n3) = h.restarts s2.device (b2 ∙ ap h.stopped x2 ∙ t2) in
      let stopped3 : h.stopped s3.device ≡ false = b3 ∙ ap h.stopped x3 ∙ t3 in
      let (n, below, r) = h.ready_soon s3.device stopped3 in
      (
        a4 ∙ a3 ∙ ap h.mux x3 ∙ m3 ∙ a2 ∙ ap h.mux x2 ∙ m2 ∙ a1 ∙ set_channel-mux c s lt,
        b4 ∙ stopped3,
        c4 ∙ c3 ∙ ap h.anew x3 ∙ n3,
        wait_drdy-ready drdy_rounds n s3 (omega (arith, below, hr)) r,
      )

  -- one conversion
  convert-signed :
      (c : ℕ) (s : Adc D)
      → rounds ≤ drdy_rounds
      → c < 8
      → code c < 2 ^ 24
      → ((convert dev c s).0 ≡ signed (code c)) × (h.stopped (convert dev c s).1.device ≡ false)
  unfolding read_adc_data restarted Same
  convert-signed c s hr lt top =
      let s4 : Adc D = restarted c s in
      let s5 : Adc D = usleep dev 1 (write_cmd dev cmd_rdata s4) in
      let s6 : Adc D = wait_drdy dev drdy_rounds s5 in
      let (m4, t4, n4, r4) = restarted_lem c s hr lt in
      let (f, t) = h.fetches s4.device r4 t4 n4 in
      let x = device-send 1 (cmd_rdata ∷ []) s4 in
      let (a5, b5, c5, e5) = usleep-Same 1 (write_cmd dev cmd_rdata s4) in
      let (a6, b6, c6, e6) = wait_drdy-Same drdy_rounds s5 in
      let f6 : h.fetched s6.device ≡ some c = e6 ∙ e5 ∙ ap h.fetched x ∙ f ∙ ap (λ k. some k) m4 in
      (
        read_back c s6 f6 top,
        ap h.stopped (device-send 3 (0xff ∷ 0xff ∷ 0xff ∷ []) s6)
            ∙ (h.answers c s6.device f6).1
            ∙ b6
            ∙ b5
            ∙ ap h.stopped x
            ∙ t,
      )

  get_channel_value-signed :
      (fuel c : ℕ) (s : Adc D)
      → rounds ≤ fuel
      → rounds ≤ drdy_rounds
      → c < 8
      → code c < 2 ^ 24
      → h.stopped s.device ≡ false
      → (s' : Adc D) × (get_channel_value dev fuel c s ≡ some (signed (code c), s'))
        × (h.stopped s'.device ≡ false)
  unfolding get_channel_value
  get_channel_value-signed fuel c s hf hr lt top st =
      let (n, below, r) = h.ready_soon s.device st in
      let (s', e) = wait_low-some fuel n s (omega arith) r in
      let (v, t) = convert-signed c s' hr lt top in ((convert dev c s').1, ground (arith, e, v), t)

  get_from-signed :
      (fuel c n : ℕ) (s : Adc D)
      → rounds ≤ fuel
      → rounds ≤ drdy_rounds
      → c + n ≤ 8
      → ((i : ℕ) → i < 8 → code i < 2 ^ 24)
      → h.stopped s.device ≡ false
      → (s' : Adc D) × (get_from dev fuel c n s ≡ some (values_from (λ i. signed (code i)) c n, s'))
  unfolding get_from
  get_from-signed fuel c zero s hf hr hc top st = (s, refl)
  get_from-signed fuel c (suc n) s hf hr hc top st =
      let (s1, e1, st1) =
        get_channel_value-signed fuel c s hf hr (omega arith) (top c (omega arith)) st in
      let (s2, e2) = get_from-signed fuel (suc c) n s1 hf hr (omega arith) top st1 in
      (s2, simp (e1, e2))

  -- On a converter that behaves as `IsConverter` says while its inputs hold still, with its
  -- conversions not stopped at the start, DRDY low within `rounds` microseconds, which are no more
  -- than the 4000000 of ADS1256_WaitDRDY, and codes of 24 bits: with fuel for that many rounds
  -- ADS1256_ReadTemperature comes to an end and gives, for each of the eight channels in order, the
  -- channel's polynomial of the channel's own code, extended to a signed 32-bit value.
  pub read_temperature_lem :
      (poly : ℕ → ℕ → ℕ) (fuel : ℕ) (s : Adc D)
      → rounds ≤ fuel
      → rounds ≤ drdy_rounds
      → ((i : ℕ) → i < 8 → code i < 2 ^ 24)
      → h.stopped s.device ≡ false
      → (s' : Adc D) × (read_temperature dev poly fuel s
          ≡ some (values_from (λ i. poly i (signed (code i))) 0 8, s'))
  unfolding read_temperature
  read_temperature_lem poly fuel s hf hr top st =
      let (s', e) = get_from-signed fuel 0 8 s hf hr (omega arith) top st in
      (
        s',
        ap (λ o. o >>= λ r. some (each_channel poly 0 r.0, r.1)) e
            ∙ ap (λ vs. some (vs, s')) (each_channel-values poly (λ i. signed (code i)) 0 8),
      )
