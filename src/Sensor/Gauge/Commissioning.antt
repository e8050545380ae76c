-- ===== src/Sensor/Gauge/Commissioning.antt =====
-- sensors.c: commissioning, on a gauge that behaves as its manual says.
use bramka_setup.Base.{
  ℕ, ◌+◌, ◌*◌, ◌-◌, ◌/◌, ◌%◌, ◌<◌, ◌≡◌, refl, sym, subst, ap, ap₂, ◌∙◌, arith, Bool, Bool-cases,
  inl, inr, true, false, ◌&&◌, Option, none, some, [], ◌∷◌, if◌then◌else◌, Bytes, ◌==◌, u8,
}
use bramka_setup.Sensor.Gauge.Manual.{View, Keeps, IsGauge}
use bramka_setup.Sensor.Gauge.{
  I2c, size, bq_cmd_mac_data_sum, bq_cmd_mac_data_len, design_cap_mah, block_sum, u16_of, proceed,
  flash_ok, cap_ok, mode_ok, is_sealed, bq_cmd_write, bq_cmd_read, bq_read_u16, bq_df_write,
  bq_df_read, read_after, configured, unseal, set_mode, sensors_commission, bq_cmd_design_cap,
  bq_cmd_control, bq_cmd_mac, bq_cmd_mac_data, bq_df_opconfig_a, bq_df_design_cap,
}

-- The settings are the same, and the gauge is unsealed.
pub record Opened (D : Type 0) (v : View D) (d d' : D) : Type 0 where
  pub cap : v.cap d' ≡ v.cap d
  pub op : v.op d' ≡ v.op d
  pub open_ : v.sealed d' ≡ false

flash_ok_lem :
    {D : Type 0} (o : Option ℕ) (d : D) (n : ℕ)
    → o ≡ some n
    → n < 0x8000
    → ((flash_ok (o, d)).0 ≡ true) × ((flash_ok (o, d)).1 ≡ d)
flash_ok_lem none d n e h = absurd (ground arith)
flash_ok_lem (some st) d n e h = (ground (arith, e), refl)

proceed-true : {D : Type 0} (r : Bool × D) (f : D → Bool × D) → r.0 ≡ true → proceed r f ≡ f r.1
proceed-true (true, d) f h = refl
proceed-true (false, d) f h = absurd (ground arith)

module _ {D : Type 0} (bus : I2c D) (v : View D) (h : IsGauge D bus v) where
  Keeps-both : (a b c : D) → Keeps D v a b → Keeps D v b c → Keeps D v a c
  Keeps-both a b c p q = record {
    cap = q.cap ∙ p.cap;
    op = q.op ∙ p.op;
    unsealed = λ u. q.unsealed (p.unsealed u);
  }

  -- the design capacity and the status
  read_cap :
      (d : D)
      → let r = bq_read_u16 bus bq_cmd_design_cap d in (r.0 ≡ some (v.cap d)) × Keeps D v d r.1
  unfolding bq_read_u16 bq_cmd_read
  read_cap d =
      (ap u16_of (h.cap_read d) ∙ ap some {x = _} {y = v.cap d} (omega arith), h.cap_keeps d)

  read_after-true :
      (r : Bool × D) (len : ℕ)
      → r.0 ≡ true
      → read_after bus r len ≡ bq_cmd_read bus bq_cmd_mac_data len (bus.sleep 5 r.1)
  read_after-true (true, d) len e = refl
  read_after-true (false, d) len e = absurd (ground arith)

  read_op :
      (d : D)
      → let r = bq_df_read bus bq_df_opconfig_a 1 d in (r.0 ≡ some (v.op d ∷ [])) × Keeps D v d r.1
  unfolding bq_df_read bq_cmd_write bq_cmd_read
  read_op d =
      let blk : Bytes = 0xb1 ∷ 0x41 ∷ [] in
      let d1 : D = (bus.transfer 0x55 (0x3e ∷ blk) 0 d).1 in
      let d2 : D = bus.sleep 5 d1 in
      let e = read_after-true (bq_cmd_write bus bq_cmd_mac blk d) 1 (h.mac_taken blk d) in
      let s = h.sleep_keeps 5 d1 in
      let k = Keeps-both d d1 d2 (h.flash_keeps 0xb1 [] d) s.0 in
      (
        ap (λ r. r.0) e ∙ h.op_read d2 (s.1 ∙ h.mac_heard blk d) ∙ ap (λ n. some (n ∷ [])) k.op,
        subst (λ r. Keeps D v d r.1) (sym e) (Keeps-both d d2 _ k (h.op_keeps d2)),
      )

  -- the checks of `configured`
  configured_lem :
      (d : D)
      → let r = configured bus d in
        (r.0 ≡ (v.cap d == design_cap_mah && v.op d % 4 == 0)) × Keeps D v d r.1
  unfolding configured
  configured_lem d =
      let d1 : D = (bq_read_u16 bus bq_cmd_design_cap d).1 in
      let c = read_cap d in
      let m = read_op d1 in
      (
        ap₂ (λ x y. cap_ok x && mode_ok y) c.0 (m.0 ∙ ap (λ n. some (n ∷ [])) c.1.op),
        Keeps-both d d1 _ c.1 m.1,
      )

  status_lem :
      (d : D)
      → let r = bq_read_u16 bus bq_cmd_control d in
        (v.sealed d ≡ true → is_sealed r.0 ≡ true)
        × ((flash_ok r).0 ≡ true)
        × ((flash_ok r).1 ≡ r.1)
        × Keeps D v d r.1
  unfolding bq_read_u16 bq_cmd_read
  status_lem d =
      let (lo, hi, e, hl, hh, hs) = h.status_read d in
      let u = ap u16_of e in
      let f = flash_ok_lem _ (bq_read_u16 bus bq_cmd_control d).1 (hi * 256 + lo) u (omega arith) in
      (λ s. ap is_sealed u ∙ ground (arith, hs s), f.0, f.1, h.status_keeps d)

  -- the keys, and what follows them
  keyed :
      (d d0 : D)
      → Keeps D v d0 d
      → Opened D v d0 (
          bus.sleep 20
            (bus.transfer 0x55
              (0x3e ∷ 0x36 ∷ 0x72 ∷ [])
              0
              (bus.transfer 0x55 (0x3e ∷ 0x04 ∷ 0x14 ∷ []) 0 d).1).1)
  keyed d d0 k =
      let d1 : D = (bus.transfer 0x55 (0x3e ∷ 0x04 ∷ 0x14 ∷ []) 0 d).1 in
      let d2 : D = (bus.transfer 0x55 (0x3e ∷ 0x36 ∷ 0x72 ∷ []) 0 d1).1 in
      let k1 = h.key1_keeps d in
      let k2 = h.key2_keeps d1 in
      let k3 = (h.sleep_keeps 20 d2).0 in
      record {
        cap = k3.cap ∙ k2.cap ∙ k1.cap ∙ k.cap;
        op = k3.op ∙ k2.op ∙ k1.op ∙ k.op;
        open_ = k3.unsealed (h.keys d1 (h.mac_heard (0x04 ∷ 0x14 ∷ []) d));
      }

  -- after `unseal` the gauge is unsealed
  unseal-Opened : (d : D) → Opened D v d (unseal bus d)
  unfolding unseal bq_cmd_write
  unseal-Opened d =
      let (seals, f, g, k) = status_lem d in
      pick (is_sealed (bq_read_u16 bus bq_cmd_control d).0) (bq_read_u16 bus bq_cmd_control d).1 k
        (λ t. elim (Bool-cases (v.sealed d)) [
          | inl y ↦ absurd (ground (arith, seals y, t))
          | inr n ↦ n
        ])
    where
      pick :
          (t : Bool) (d1 : D)
          → Keeps D v d d1
          → (t ≡ false → v.sealed d ≡ false)
          → Opened D v d (
              if t
              then bus.sleep 20
                  (bus.transfer 0x55
                    (0x3e ∷ 0x36 ∷ 0x72 ∷ [])
                    0
                    (bus.transfer 0x55 (0x3e ∷ 0x04 ∷ 0x14 ∷ []) 0 d1).1).1
              else d1)
      pick true d1 k u = keyed d1 d k
      pick false d1 k u = record { cap = k.cap; op = k.op; open_ = k.unsealed (u refl) }

  -- the writes of a block, its checksum and its length, and what follows them
  stored : (blk : Bytes) (cks n : ℕ) → D → D
  stored blk cks n d =
      (bus.transfer 0x55 (0x61 ∷ n ∷ []) 0
        (bus.transfer 0x55 (0x60 ∷ cks ∷ []) 0 (bus.transfer 0x55 (0x3e ∷ blk) 0 d).1).1).1

  before_len :
      (lo : ℕ) (data_ : Bytes) (cks : ℕ) (d : D)
      → v.sealed d ≡ false
      → let blk = lo ∷ 0x41 ∷ data_ in
        let d2 = (bus.transfer 0x55 (0x60 ∷ cks ∷ []) 0 (bus.transfer 0x55 (0x3e ∷ blk) 0 d).1).1 in
        Keeps D v d d2 × (v.sealed d2 ≡ false) × (v.mac d2 ≡ blk) × (v.sum d2 ≡ cks)
  before_len lo data_ cks d u =
      let blk : Bytes = lo ∷ 0x41 ∷ data_ in
      let d1 : D = (bus.transfer 0x55 (0x3e ∷ blk) 0 d).1 in
      let k = Keeps-both d d1 _ (h.flash_keeps lo data_ d) (h.sum_keeps cks d1) in
      let s = h.sum_heard cks d1 in (k, k.unsealed u, s.1 ∙ h.mac_heard blk d, s.0)

  -- the end of a data-flash write
  bq_df_write-stored :
      (addr : ℕ) (data_ : Bytes) (d : D)
      → let blk = addr % 256 ∷ addr / 256 ∷ data_ in
        let d3 = stored blk (0xff - block_sum 0 blk) (u8 (4 + size data_)) d in
        Keeps D v d3 (bq_df_write bus addr data_ d).1
  unfolding bq_df_write bq_cmd_write stored
  bq_df_write-stored addr data_ d =
      let blk : Bytes = addr % 256 ∷ addr / 256 ∷ data_ in
      let cks : ℕ = 0xff - block_sum 0 blk in
      let n : ℕ = u8 (4 + size data_) in
      let d1 : D = (bus.transfer 0x55 (0x3e ∷ blk) 0 d).1 in
      let d2 : D = (bus.transfer 0x55 (0x60 ∷ cks ∷ []) 0 d1).1 in
      let d3 : D = (bus.transfer 0x55 (0x61 ∷ n ∷ []) 0 d2).1 in
      let d4 : D = bus.sleep 20 d3 in
      let (seals, f, g, k) = status_lem d4 in
      let e =
        proceed-true (bq_cmd_write bus bq_cmd_mac blk d) _ (h.mac_taken blk d)
        ∙ proceed-true (bq_cmd_write bus bq_cmd_mac_data_sum (cks ∷ []) d1) _ (h.sum_taken cks d1)
        ∙ proceed-true (bq_cmd_write bus bq_cmd_mac_data_len (n ∷ []) d2) _ (h.len_taken n d2) in
      subst (λ r. Keeps D v d3 r.1) (sym e)
        (subst (Keeps D v d3) (sym g) (Keeps-both d3 d4 _ (h.sleep_keeps 20 d3).0 k))

  -- a data-flash write of Operation Config A, and of the design capacity
  op-stored :
      (x : ℕ) (d : D)
      → v.sealed d ≡ false
      → let d' = (bq_df_write bus bq_df_opconfig_a (x ∷ []) d).1 in
        (v.op d' ≡ x) × (v.cap d' ≡ v.cap d) × (v.sealed d' ≡ false)
  unfolding stored block_sum
  op-stored x d u =
      let blk : Bytes = 0xb1 ∷ 0x41 ∷ x ∷ [] in
      let cks : ℕ = 0xff - block_sum 0 blk in
      let (k, s, m, c) = before_len 0xb1 (x ∷ []) cks d u in
      let (o, p, q) = h.stores_op x _ s m (omega (arith, c)) in
      let e = bq_df_write-stored bq_df_opconfig_a (x ∷ []) d in
      (e.op ∙ o, e.cap ∙ p ∙ k.cap, e.unsealed q)

  cap-stored :
      (d : D)
      → v.sealed d ≡ false
      → let d' = (bq_df_write bus bq_df_design_cap (5 ∷ 220 ∷ []) d).1 in
        (v.cap d' ≡ design_cap_mah) × (v.op d' ≡ v.op d)
  unfolding stored block_sum
  cap-stored d u =
      let blk : Bytes = 0xfe ∷ 0x41 ∷ 5 ∷ 220 ∷ [] in
      let cks : ℕ = 0xff - block_sum 0 blk in
      let (k, s, m, c) = before_len 0xfe (5 ∷ 220 ∷ []) cks d u in
      let (o, p, q) = h.stores_cap 5 220 _ s m (omega (arith, c)) in
      let e = bq_df_write-stored bq_df_design_cap (5 ∷ 220 ∷ []) d in (e.cap ∙ o, e.op ∙ p ∙ k.op)

  -- the mode's bits cleared
  set_mode_lem :
      (d : D)
      → v.sealed d ≡ false
      → let d' = set_mode bus (bq_df_read bus bq_df_opconfig_a 1 d) in
        (v.op d' ≡ v.op d - v.op d % 4) × (v.cap d' ≡ v.cap d) × (v.sealed d' ≡ false)
  set_mode_lem d u =
      let r = read_op d in
      let (o, c, q) = op-stored (v.op d - v.op d % 4) _ (r.1.unsealed u) in
      subst
        (λ p.
          let d' = set_mode bus (p, (bq_df_read bus bq_df_opconfig_a 1 d).1) in
          (v.op d' ≡ v.op d - v.op d % 4) × (v.cap d' ≡ v.cap d) × (v.sealed d' ≡ false))
        (sym r.0) (o, c ∙ r.1.cap, q)

  -- On a gauge that behaves as `IsGauge` says, whatever its settings and sealed or not,
  -- `sensors_commission` returns true, and leaves the gauge with the design capacity and in the
  -- accumulator mode, the other bits of Operation Config A kept.
  pub commission_lem :
      (d : D)
      → let r = sensors_commission bus d in
        (r.0 ≡ true) × (v.cap r.1 ≡ design_cap_mah) × (v.op r.1 ≡ v.op d - v.op d % 4)
  unfolding sensors_commission
  commission_lem d =
      let c = configured_lem d in
      let f = configured bus d in
      let o = unseal-Opened f.1 in
      let d1 : D = set_mode bus (bq_df_read bus bq_df_opconfig_a 1 (unseal bus f.1)) in
      let (m, k, q) = set_mode_lem (unseal bus f.1) o.open_ in
      let (w, y) = cap-stored d1 q in
      finish f.0 f.1 d1 c.0 c.1 (m ∙ ap (λ x. x - x % 4) (o.op ∙ c.1.op)) w y
    where
      finish :
          (t : Bool) (e d1 : D)
          → t ≡ (v.cap d == design_cap_mah && v.op d % 4 == 0)
          → Keeps D v d e
          → v.op d1 ≡ v.op d - v.op d % 4
          → let d2 = (bq_df_write bus bq_df_design_cap (5 ∷ 220 ∷ []) d1).1 in
            v.cap d2 ≡ design_cap_mah
            → v.op d2 ≡ v.op d1
            → let r = if t then (true, e) else configured bus d2 in
              (r.0 ≡ true) × (v.cap r.1 ≡ design_cap_mah) × (v.op r.1 ≡ v.op d - v.op d % 4)
      finish true e d1 t k m w y = (refl, k.cap ∙ ground (arith, t), k.op ∙ ground (arith, t))
      finish false e d1 t k m w y =
          let d2 : D = (bq_df_write bus bq_df_design_cap (5 ∷ 220 ∷ []) d1).1 in
          let g = configured_lem d2 in (g.0 ∙ ground (arith, w, y, m), g.1.cap ∙ w, g.1.op ∙ y ∙ m)
