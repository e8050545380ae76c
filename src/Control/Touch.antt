-- ===== src/Control/Touch.antt =====
-- Nodes/LightSwitchNode/Firmware/gpiointerrupt.c: the touch pad, polled every 20 ms, and the pairing
-- light. The pad's raw state and whether the node has an address are inputs.
pub mod Polls
pub mod Gestures
use bramka_setup.Base.{
  ℕ, ◌+◌, ◌%◌, Bool, true, false, not, ◌&&◌, List, [], ◌∷◌, ◌++◌, if◌then◌else◌, ltb, leb, ◌==◌,
  u32,
}

abbrev pub poll_ms : ℕ
poll_ms = 20

abbrev pub hold_join_ms : ℕ
hold_join_ms = 4000

abbrev pub touch_min_ms : ℕ
touch_min_ms = 60

abbrev pub debounce_ms : ℕ
debounce_ms = 80

abbrev pub pairing_window_ms : ℕ
pairing_window_ms = 60000

abbrev pub pairing_blink_ms : ℕ
pairing_blink_ms = 240

-- What a poll calls: rf_send_join or app_relay_toggle.
pub data Act : Type 0 where
  send_join relay_toggle : Act

-- prev, rawPrev, dbState, stableMs, heldMs, pairingArmed
pub record Pad : Type 0 where
  pub prev : ℕ
  pub raw_prev : ℕ
  pub db_state : ℕ
  pub stable_ms : ℕ
  pub held_ms : ℕ
  pub pairing_armed : Bool

-- pairing, pairingMs, and the red light
pub record Pairing : Type 0 where
  pub pairing : Bool
  pub pairing_ms : ℕ
  pub red : Bool

-- the debounced state
unfoldable pub debounce : ℕ → Pad → Pad
debounce raw p =
    let stable = if raw == p.raw_prev then u32 (p.stable_ms + poll_ms) else 0 in
    record p {
      raw_prev = raw;
      stable_ms = stable;
      db_state = if leb debounce_ms stable then raw else p.db_state;
    }

-- the start of a touch
unfoldable pub touch_start : Pad → Pad
touch_start p =
    if not (p.db_state == 0) && p.prev == 0
    then record p { held_ms = 0; pairing_armed = false }
    else p

-- the time held, and the join after 4 s
unfoldable pub hold : Pad → List Act × Pad
hold p =
    let held = u32 (p.held_ms + poll_ms) in
    if p.db_state == 0
    then ([], p)
    else if leb hold_join_ms held && not p.pairing_armed
    then (send_join ∷ [], record p { held_ms = held; pairing_armed = true })
    else ([], record p { held_ms = held })

-- the end of a touch
unfoldable pub release : Pad → List Act × Pad
release p =
    if p.db_state == 0 && not (p.prev == 0)
    then if not p.pairing_armed && (leb touch_min_ms p.held_ms && ltb p.held_ms hold_join_ms)
      then (relay_toggle ∷ [], record p { held_ms = 0 })
      else ([], record p { held_ms = 0 })
    else ([], p)

-- one poll of the pad
unfoldable pub poll_pad : ℕ → Pad → List Act × Pad
poll_pad raw p =
    let h = hold (touch_start (debounce raw p)) in
    let r = release h.1 in (h.0 ++ r.0, record r.1 { prev = r.1.db_state })

-- the pairing light, after the pad's part of the poll
unfoldable pub pairing_step : Bool → Pairing → Pairing
pairing_step provisioned p =
    let ms = u32 (p.pairing_ms + poll_ms) in
    if p.pairing
    then if provisioned
      then record { pairing = false; pairing_ms = ms; red = false }
      else if leb pairing_window_ms ms
      then record { pairing = false; pairing_ms = ms; red = false }
      else if ms % pairing_blink_ms == 0
      then record p { pairing_ms = ms; red = not p.red }
      else record p { pairing_ms = ms }
    else p

-- a join starts the pairing
abbrev pub started : List Act → Pairing → Pairing
started [] p = p
started (send_join ∷ as_) p = record (started as_ p) { pairing = true; pairing_ms = 0 }
started (relay_toggle ∷ as_) p = started as_ p

-- One round of the loop of `mainThread`.
unfoldable pub poll_touch : ℕ → Bool → Pad × Pairing → List Act × (Pad × Pairing)
poll_touch raw provisioned (p, q) =
    let r = poll_pad raw p in (r.0, (r.1, pairing_step provisioned (started r.0 q)))
