-- ===== src/Sensor/Life/Settled.antt =====
-- Steps of the node's life leave it settled.
use bramka_setup.Base.{
  ℕ, ◌+◌, ◌%◌, ◌≡◌, refl, arith, ap, sym, ◌∙◌, ◌||◌, ◌==◌, Option, none, some, Bytes, Option-cases,
  inl, inr, Bool-cases, subst, u8,
}
use bramka_setup.Shared.NodeProtocol.{addr_unprovisioned, cmd_remove, cmd_unregistered}
use bramka_setup.Sensor.Radio.{Accepted, first_accept}
use bramka_setup.Sensor.Life.{
  nvs_load_address, written, nvs_save_address, Base, Join, Cycle, Phase, shelf, streaming, Sensor,
  enter, battery_of, report, obey, sleep, stream_cycle, shelf_join, telemetry, confirmation,
  node_batt_every,
}
use bramka_setup.Sensor.Life.Address.{
  send_returns, Joined, provision_join-Joined, InPool, Stores, Settled, stored, enter-Settled,
}

-- A join whose write succeeds, and in which only addresses of the pool are assigned.
pub record IsSafe (fid : Bytes) (j : Join) : Type 0 where
  pub writes : j.write ≡ written
  pub pooled :
      (i : ℕ) (a : Accepted) → first_accept fid (j.accept.heard i) ≡ some a → InPool a.address

-- ... and a cycle in which the button, when pressed, starts such a join.
abbrev pub IsSafeCycle : Bytes → Cycle → Type 0
IsSafeCycle fid c = (j : Join) → c.join ≡ some j → IsSafe fid j

-- where a join leaves a node that was in phase `p`, and streams with `mv` and `counter` after it
abbrev after_join : Phase → ℕ → ℕ → Option ℕ → Phase
after_join p mv counter o = elim o [ none ↦ p | some a ↦ streaming a mv counter ]

Joined-Stores :
    (fid : Bytes) (j : Join) (b : Base) (p : Phase) (mv counter : ℕ) (r : Option ℕ × Base)
    → IsSafe fid j
    → Stores b.flash p
    → Joined fid j b r
    → Stores r.1.flash (after_join p mv counter r.0)
Joined-Stores fid j b p mv counter r safe h (inl (no_one, same)) =
    subst (λ o. Stores r.1.flash (after_join p mv counter o)) (sym no_one)
      (subst (λ f. Stores f p) (sym same) h)
Joined-Stores fid j b p mv counter r safe h (inr (a, i, heard, it, saved)) =
    let pool = safe.pooled i a heard in
    subst (λ o. Stores r.1.flash (after_join p mv counter o)) (sym it)
      (subst (λ f. Stores f (streaming a.address mv counter))
        (sym (saved ∙ ap (λ w. nvs_save_address w a.address b.flash) safe.writes))
        (stored a.address b.flash pool, pool))

-- A safe join on the shelf comes to an end and leaves the node settled.
pub shelf_join-Settled :
    (fid : Bytes) (j : Join) (b : Base)
    → IsSafe fid j
    → nvs_load_address b.flash ≡ addr_unprovisioned
    → (s : Sensor) × (shelf_join fid j b ≡ some s) × Settled s
unfolding shelf_join
shelf_join-Settled fid j b safe h =
    let r = provision_join-Joined fid j b in
    (
      record { phase = after_join shelf 0 0 r.0.0; base = r.0.1 },
      simp r.1,
      Joined-Stores fid j b shelf 0 0 r.0 safe h r.2,
    )

sleep-Settled :
    (fid : Bytes) (c : Cycle) (addr mv counter : ℕ) (b : Base)
    → IsSafeCycle fid c
    → Stores b.flash (streaming addr mv counter)
    → (s : Sensor) × (sleep fid c addr mv counter b ≡ some s) × Settled s
sleep-Settled fid c addr mv counter b safe h = elim (Option-cases c.join) [
  | inl quiet ↦ (record { phase = streaming addr mv counter; base = b }, ground arith, h)
  | inr (j, e) ↦
      let r = provision_join-Joined fid j b in
      let p : Phase = streaming addr mv counter in
      (
        record { phase = after_join p mv counter r.0.0; base = r.0.1 },
        ground (arith, r.1),
        Joined-Stores fid j b p mv counter r.0 (safe j e) h r.2,
      )
]

report_returns :
    (fid : Bytes) (c : Cycle) (addr mv : ℕ) (b : Base)
    → (r : ℕ × Base) × (report fid c addr mv b ≡ some r) × (r.1.flash ≡ b.flash)
report_returns fid c addr mv b = elim (Option-cases c.reading) [
  | inl e ↦ ((0, b), ground arith, refl)
  | inr (rd, e) ↦
      let s = send_returns c.window (telemetry addr rd mv) (some fid) b (omega arith) in
      (s.0, ground (arith, s.1), s.2)
]

obey-Settled :
    (fid : Bytes) (c : Cycle) (addr cmd : ℕ) (b : Base)
    → (s : Sensor) × (obey fid c addr cmd b ≡ some s) × Settled s
obey-Settled fid c addr cmd b =
    let s = send_returns c.confirm (confirmation addr cmd) (some fid) b (omega arith) in
    let b' : Base = record s.0.1 {
      flash = nvs_save_address c.write addr_unprovisioned s.0.1.flash;
    } in
    (enter b', simp s.1, enter-Settled b')

-- A cycle in which the joins are safe comes to an end and leaves the node settled.
pub stream_cycle-Settled :
    (fid : Bytes) (c : Cycle) (addr mv counter : ℕ) (b : Base)
    → IsSafeCycle fid c
    → Stores b.flash (streaming addr mv counter)
    → (s : Sensor) × (stream_cycle fid c addr mv counter b ≡ some s) × Settled s
unfolding stream_cycle
stream_cycle-Settled fid c addr mv counter b safe h =
    let mv' : ℕ = battery_of c.battery mv counter in
    let counter' : ℕ = u8 ((counter + 1) % node_batt_every) in
    let r = report_returns fid c addr mv' b in
    let o = obey-Settled fid c addr r.0.0 r.0.1 in
    let s =
      sleep-Settled fid c addr mv' counter' r.0.1 safe
        (subst (λ f. Stores f (streaming addr mv' counter')) (sym r.2) h) in
    elim (Bool-cases (r.0.0 == cmd_unregistered || r.0.0 == cmd_remove)) [
      | inl told ↦ (o.0, simp (r.1, told) o.1, o.2)
      | inr free ↦ (s.0, simp (r.1, free) s.1, s.2)
    ]
