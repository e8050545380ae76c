-- ===== src/Sensor/Life/Address.antt =====
-- The address the node uses and the one it has stored.
use bramka_setup.Base.{
  ℕ, ◌≤◌, ◌≡◌, ◌⊎◌, refl, arith, ap, sym, ◌∙◌, Bool, Option, none, some, ◌++◌, Bytes, inl, inr,
  replicate, Bool-cases, subst, ◌==◌, ◌&&◌, leb,
}
use bramka_setup.Shared.NodeProtocol.{
  MessageStruct, msg_length, addr_gateway, addr_unprovisioned, addr_pool_first, addr_pool_last,
}
use bramka_setup.Sensor.Radio.{Accepted, first_accept}
use bramka_setup.Sensor.Radio.Sends.{send_bounded}
use bramka_setup.Sensor.Radio.Wait.{scan-cases, wait_returns}
use bramka_setup.Sensor.Life.{
  th_ident_magic, ThIdentRec, nvs_load_address, written, nvs_save_address, Base, Window, send, Join,
  join_request, adopt, provision_join, join_window_ms, join_fuel, Phase, shelf, streaming, Sensor,
  enter,
}

-- A send comes to an end, and leaves the flash as it was.
pub send_returns :
    (w : Window) (m : MessageStruct) (fid : Option Bytes) (b : Base)
    → msg_length m ≤ 44
    → (r : ℕ × Base) × (send w m fid b ≡ some r) × (r.1.flash ≡ b.flash)
unfolding send
send_returns w m fid b h =
    let s = send_bounded w.heard m addr_gateway fid b.tx_seq h in
    let after : ℕ × Base = (
      s.0.reply.nack,
      record b { tx_seq = s.0.tx_seq; air = b.air ++ replicate s.0.sends s.0.frame },
    ) in
    elim (Bool-cases w.opens) [
      | inl up ↦ (after, simp (up, s.1), refl)
      | inr down ↦ ((0, b), simp down, refl)
    ]

-- What a join comes to: nothing, or an accept that was heard, with its address stored.
abbrev pub Joined : Bytes → Join → Base → Option ℕ × Base → Type 0
Joined fid j b r =
    ((r.0 ≡ none) × (r.1.flash ≡ b.flash))
    ⊎ ((a : Accepted) × (i : ℕ) × (first_accept fid (j.accept.heard i) ≡ some a)
        × (r.0 ≡ some a.address)
        × (r.1.flash ≡ nvs_save_address j.write a.address b.flash))

pub provision_join-Joined :
    (fid : Bytes) (j : Join) (b : Base)
    → (r : Option ℕ × Base) × (provision_join fid j b ≡ some r) × Joined fid j b r
unfolding provision_join
provision_join-Joined fid j b =
    let s = send_returns j.request (join_request fid) none b (omega arith) in
    let w = wait_returns fid j.accept.heard join_window_ms join_fuel (omega arith) (omega arith) in
    elim (Bool-cases j.accept.opens) [
      | inr down ↦ ((none, s.0.1), simp (s.1, down), inl (refl, s.2))
      | inl up ↦ elim (scan-cases fid j.accept.heard 0 180) [
        | inl (k, e) ↦ ((none, s.0.1), simp (s.1, up, w ∙ ap some e), inl (refl, s.2))
        | inr (k, a, i, e, h) ↦ (
          adopt j.write s.0.1 (k, some a),
          simp (s.1, up, w ∙ ap some e),
          inr (a, i, h, refl, ap (nvs_save_address j.write a.address) s.2),
        )
      ]
    ]

-- An address from the pool.
abbrev pub InPool : ℕ → Type 0
InPool a = (addr_pool_first ≤ a) × (a ≤ addr_pool_last)

-- What is stored in the flash of a node that has address `a`, and of one that has none.
abbrev pub Stores : Option ThIdentRec → Phase → Type 0
Stores flash shelf = nvs_load_address flash ≡ addr_unprovisioned
Stores flash (streaming a mv counter) = (nvs_load_address flash ≡ a) × InPool a

-- The node would come back from a reset as it is.
abbrev pub Settled : Sensor → Type 0
Settled s = Stores s.base.flash s.phase

-- the test of `nvs_load_address`
abbrev is_pooled : ThIdentRec → Bool
is_pooled rec =
    rec.magic == th_ident_magic && (leb addr_pool_first rec.addr && leb rec.addr addr_pool_last)

pub stored :
    (a : ℕ) (flash : Option ThIdentRec)
    → InPool a
    → nvs_load_address (nvs_save_address written a flash) ≡ a
unfolding nvs_load_address nvs_save_address
stored a flash h = ground (arith, h.0, h.1)

pub cleared :
    (flash : Option ThIdentRec)
    → nvs_load_address (nvs_save_address written addr_unprovisioned flash) ≡ addr_unprovisioned
unfolding nvs_load_address nvs_save_address
cleared flash = refl

load-cases :
    (flash : Option ThIdentRec)
    → (nvs_load_address flash ≡ addr_unprovisioned) ⊎ InPool (nvs_load_address flash)
unfolding nvs_load_address
load-cases none = inl refl
load-cases (some rec) = elim (Bool-cases (is_pooled rec)) [
  | inl h ↦ inr (ground (arith, h), ground (arith, h))
  | inr h ↦ inl (ground (arith, h))
]

-- A start finds the node settled, whatever the flash holds.
pub enter-Settled : (b : Base) → Settled (enter b)
unfolding enter
enter-Settled b = elim (load-cases b.flash) [
  | inl e ↦ subst (Stores b.flash) (sym (phase_at e)) e
  | inr h ↦ subst (Stores b.flash) (sym (phase_in h)) (refl, h)
]
  where
    phase_at : nvs_load_address b.flash ≡ addr_unprovisioned → (enter b).phase ≡ shelf
    phase_at e = simp e

    phase_in :
        InPool (nvs_load_address b.flash)
        → (enter b).phase ≡ streaming (nvs_load_address b.flash) 0 0
    phase_in h = ground (arith, h.0, h.1)
