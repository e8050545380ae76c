-- ===== src/Sensor/Life/Task.antt =====
-- The task of rfWsnNode.c as a run over what happens to the node, resets included.
use bramka_setup.Base.{ℕ, ◌≡◌, refl, sym, ◌∙◌, Option, some, List, [], ◌∷◌, Bytes, ◌>>=◌}
use bramka_setup.Shared.NodeProtocol.{addr_unprovisioned}
use bramka_setup.Sensor.Life.{
  ThIdentRec, nvs_load_address, Base, Join, Cycle, Phase, shelf, streaming, Sensor, enter,
  stream_cycle, shelf_join,
}
use bramka_setup.Sensor.Life.Address.{Stores, Settled, enter-Settled}
use bramka_setup.Sensor.Life.Settled.{IsSafe, IsSafeCycle, shelf_join-Settled, stream_cycle-Settled}

-- The JOIN button on the shelf, a cycle of a streaming node, and a reset, which keeps the flash only.
pub data Event : Type 0 where
  press : Join → Event
  cycle : Cycle → Event
  reset : Event

-- `nodeTaskFunction` at one event. On the shelf the node sleeps until the button; while it streams,
-- the button is part of a cycle.
unfoldable pub on_event : Bytes → Event → Sensor → Option Sensor
on_event fid reset s = some (enter (record s.base { tx_seq = 0 }))
on_event fid (press j) s = elim s.phase [
  | shelf ↦ shelf_join fid j s.base
  | streaming addr mv counter ↦ some s
]
on_event fid (cycle c) s = elim s.phase [
  | shelf ↦ some s
  | streaming addr mv counter ↦ stream_cycle fid c addr mv counter s.base
]

unfoldable pub run : Bytes → List Event → Sensor → Option Sensor
run fid [] s = some s
run fid (e ∷ es) s = do s' ← on_event fid e s; run fid es s'

-- An event whose joins are safe.
abbrev pub IsSafeEvent : Bytes → Event → Type 0
IsSafeEvent fid (press j) = IsSafe fid j
IsSafeEvent fid (cycle c) = IsSafeCycle fid c
IsSafeEvent fid reset = Unit

abbrev pub AreSafe : Bytes → List Event → Type 0
AreSafe fid [] = Unit
AreSafe fid (e ∷ es) = IsSafeEvent fid e × AreSafe fid es

on_event-Settled :
    (fid : Bytes) (e : Event) (p : Phase) (b : Base)
    → IsSafeEvent fid e
    → Stores b.flash p
    → (s' : Sensor) × (on_event fid e (record { phase = p; base = b }) ≡ some s') × Settled s'
unfolding on_event
on_event-Settled fid reset p b safe h =
    (enter (record b { tx_seq = 0 }), refl, enter-Settled (record b { tx_seq = 0 }))
on_event-Settled fid (press j) shelf b safe h = shelf_join-Settled fid j b safe h
on_event-Settled fid (press j) (streaming addr mv counter) b safe h = (_, refl, h)
on_event-Settled fid (cycle c) shelf b safe h = (_, refl, h)
on_event-Settled fid (cycle c) (streaming addr mv counter) b safe h =
    stream_cycle-Settled fid c addr mv counter b safe h

-- the address that a node in this phase uses
abbrev pub address_of : Phase → ℕ
address_of shelf = addr_unprovisioned
address_of (streaming addr mv counter) = addr

run-Settled :
    (fid : Bytes) (es : List Event) (s : Sensor)
    → AreSafe fid es
    → Settled s
    → (s' : Sensor) × (run fid es s ≡ some s') × Settled s'
unfolding run
run-Settled fid [] s safe h = (s, refl, h)
run-Settled fid (e ∷ es) s (safe, rest) h =
    let a = on_event-Settled fid e s.phase s.base safe h in
    let r = run-Settled fid es a.0 rest a.2 in (r.0, simp a.1 r.1, r.2)

Settled-address :
    (flash : Option ThIdentRec) (p : Phase) → Stores flash p → address_of p ≡ nvs_load_address flash
Settled-address flash shelf h = sym h
Settled-address flash (streaming addr mv counter) h = sym h.0

address-enter : (b : Base) → address_of (enter b).phase ≡ nvs_load_address b.flash
unfolding enter
address-enter b = Settled-address b.flash (enter b).phase (enter-Settled b)

-- From a start on any flash, through any sequence of button presses, cycles and resets in which
-- the writes of accepted addresses succeed and JOIN_ACCEPTs assign addresses of the pool, every
-- step comes to an end, and a reset at the end of it finds the node with the address it was using,
-- or without one if it had none.
pub run_resumes :
    (fid : Bytes) (es : List Event) (b : Base)
    → AreSafe fid es
    → (s : Sensor) × (run fid es (enter b) ≡ some s)
      × (address_of (enter s.base).phase ≡ address_of s.phase)
run_resumes fid es b safe =
    let r = run-Settled fid es (enter b) safe (enter-Settled b) in
    (r.0, r.1, address-enter r.0.base ∙ sym (Settled-address r.0.base.flash r.0.phase r.2))
