-- ===== src/Control/Light/Backlight.antt =====
-- The backlight of the light switch follows its relay.
use bramka_setup.Base.{◌≡◌, refl, arith, List, [], ◌∷◌, ◌++◌, ◌<◌, length}
use bramka_setup.Shared.NodeProtocol.{MessageStruct}
use bramka_setup.Control.Identity.{Write}
use bramka_setup.Control.Light.{
  Gpio, Light, sync_backlight, report_relay_state, app_relay_toggle, with_address, on_command,
  relay_report, radio_depth,
}

-- A command, a touch, or the radio task taking the queue.
pub data Event : Type 0 where
  command : Write → MessageStruct → Event
  touch : Event
  drained : Event

unfoldable pub on_event : Gpio → Event → Light → Light
on_event g (command w m) s = on_command g w m s
on_event g touch s = app_relay_toggle g s
on_event g drained s = record s { radio_queue = [] }

unfoldable pub run_light : Gpio → List Event → Light → Light
run_light g [] s = s
run_light g (e ∷ es) s = run_light g es (on_event g e s)

on_event-follows :
    (g : Gpio) (e : Event) (s : Light)
    → s.backlight ≡ g.level s.relay
    → (on_event g e s).backlight ≡ g.level (on_event g e s).relay
unfolding on_event on_command app_relay_toggle sync_backlight report_relay_state with_address
on_event-follows g (command w m) s h = ground (arith, h)
on_event-follows g touch s h = refl
on_event-follows g drained s h = h

-- From a start at which the backlight shows the relay's level, it does so after every sequence of
-- commands and touches.
pub run_light-follows :
    (g : Gpio) (es : List Event) (s : Light)
    → s.backlight ≡ g.level s.relay
    → (run_light g es s).backlight ≡ g.level (run_light g es s).relay
unfolding run_light
run_light-follows g [] s h = h
run_light-follows g (e ∷ es) s h =
    run_light-follows g es (on_event g e s) (on_event-follows g e s h)

-- A touch reports the relay's new level, while the radio queue has room.
pub app_relay_toggle-report :
    (g : Gpio) (s : Light)
    → length s.radio_queue < radio_depth
    → (app_relay_toggle g s).radio_queue
      ≡ s.radio_queue ++ relay_report s.address (g.toggled s.relay) ∷ []
unfolding app_relay_toggle report_relay_state sync_backlight
app_relay_toggle-report g s h = ground arith
