-- ===== src/Tests/SensorNode.antt =====
-- The sensor node's theorems at concrete inputs.
use bramka_setup.Base.{
  ap, sym, ℕ, ◌≤◌, ◌≡◌, refl, arith, true, false, none, some, List, [], ◌∷◌, ◌++◌, Bytes, inl,
  replicate,
}
use bramka_setup.Shared.NodeProtocol.{addr_unprovisioned}
use bramka_setup.Concentrator.Pending.{lookup, arm, find_index}
use bramka_setup.Concentrator.Pending.Unique.{TableCall, run_table}
use bramka_setup.Concentrator.Pending.{Table, empty}
use bramka_setup.Concentrator.Receive.{Uplink, gateway_receive}
use bramka_setup.Rf.{Reception, bytes_eq}
use bramka_setup.Sensor.Radio.{first_accept, wait_join_accept}
use bramka_setup.Sensor.Radio.Wait.{wait_returns, scan, windows}
use bramka_setup.Sensor.Life.{
  nvs_load_address, Base, Window, Join, Cycle, Sensor, shelf, enter, written, stream_cycle,
}
use bramka_setup.Sensor.Life.Settled.{IsSafe}
use bramka_setup.Sensor.Life.Task.{press, cycle, reset, run, run_resumes, address_of}
use bramka_setup.Sensor.Removal.{nack_for}
use bramka_setup.Sensor.Removal.Unregistered.{stream_cycle_removes}
use bramka_setup.Control.Identity.{succeeded}
use bramka_setup.Battery.{battery_soc_pct}
use bramka_setup.Sensor.Events
use bramka_setup.Sensor.Events.{Reading, Command, Events, th_report, handle_command, run_events}
use bramka_setup.Sensor.Events.Quiet.{silent_until_join, NoAccepts, NoJoins}
use bramka_setup.Tests.Data.{chip}
use TableCall.{arming}

abbrev silence : ℕ → List Bytes
silence k = []

wait_returns_example :
    wait_join_accept chip silence 90000 181 ≡ some (scan chip silence 0 (windows 90000))
wait_returns_example = wait_returns chip silence 90000 181 (omega arith) (omega arith)

abbrev deaf : Window
deaf = record { opens = true; heard = silence }

-- the gateway's NACK with REMOVE, for address 0x11
abbrev told_to_go : Window
told_to_go = record { opens = true; heard = λ k. nack_for 0x11 6 ∷ [] }

abbrev last_cycle : Cycle
last_cycle = record {
  reading = some (0x41a80000, 0x42340000);
  battery = some 3300;
  window = told_to_go;
  confirm = deaf;
  write = written;
  join = none;
}

abbrev start : Base
start = record { tx_seq = 7; flash = some (record { magic = 0x54484e31; addr = 0x11 }); air = [] }

abbrev table : Table
table = run_table empty (arming chip 6 ∷ [])

table_pending : lookup chip table ≡ 6
unfolding lookup find_index arm bytes_eq
table_pending = refl

stream_cycle_removes_example :
    (f : Bytes) × (f' : Bytes) × (n : ℕ) × (s : Sensor) × (g : Uplink) × (g' : Uplink)
    × (stream_cycle chip last_cycle 0x11 3300 1 start ≡ some s)
    × (s.base.air ≡ (f ∷ []) ++ replicate n f')
    × (1 ≤ n)
    × (gateway_receive table (replicate 70 0) f ≡ Reception.received g)
    × (g.reply ≡ some (nack_for 0x11 (lookup chip table)))
    × (gateway_receive g.table (replicate 70 1) f' ≡ Reception.received g')
    × (lookup chip g'.table ≡ 0)
    × (s.phase ≡ shelf)
    × (nvs_load_address s.base.flash ≡ addr_unprovisioned)
stream_cycle_removes_example =
    stream_cycle_removes (arming chip 6 ∷ []) (replicate 70 0) (replicate 70 1) chip last_cycle
      (0x41a80000, 0x42340000) 0x11 3300 1 start refl (inl table_pending) refl refl
      (ap (λ n. nack_for 0x11 n ∷ []) (sym table_pending)) refl refl

-- the button, with nobody there to accept
abbrev lonely : Join
lonely = record { request = deaf; accept = deaf; write = written }

lonely-IsSafe : IsSafe chip lonely
unfolding first_accept
lonely-IsSafe = record { writes = refl; pooled = λ i a h. absurd (ground arith) }

run_resumes_example :
    (s : Sensor) × (run chip (press lonely ∷ reset ∷ cycle last_cycle ∷ []) (enter start) ≡ some s)
    × (address_of (enter s.base).phase ≡ address_of s.phase)
run_resumes_example =
    run_resumes chip (press lonely ∷ reset ∷ cycle last_cycle ∷ []) start
      (lonely-IsSafe, (tt, ((λ j h. absurd (ground arith)), tt)))

-- the second revision: a removal, a round with a measurement and an unknown command, and a join
abbrev good_reading : Reading
good_reading = record { th = some (0x41a80000, 0x42340000); batt = some 3300 }

abbrev told : ℕ → Command
told cmd = record {
  write = succeeded;
  reading = good_reading;
  msg = 0x11 ∷ 6 ∷ cmd ∷ 13 ∷ replicate 8 7 ++ 0x12 ∷ [];
}

abbrev streaming_task : Events.Task
streaming_task = record {
  address = 0x11;
  flash = none;
  batt_mv = 3250;
  soc_pct = 40;
  batt_ctr = 3;
  periph = false;
  radio_queue = [];
}

abbrev busy_round : Events
busy_round = record { measured = some good_reading; commands = told 2 ∷ [] }

silent_until_join_example :
    let t = run_events (busy_round ∷ []) (handle_command (told 6) streaming_task) in
    (t.address ≡ addr_unprovisioned)
    × (t.radio_queue ≡ [])
    × ((handle_command (told 5) t).radio_queue
        ≡ th_report 0x12 (0x41a80000, 0x42340000) 3300 (battery_soc_pct 3300) ∷ [])
silent_until_join_example =
    silent_until_join (told 6) (told 5) streaming_task (busy_round ∷ []) (0x41a80000, 0x42340000)
      3300 (inl refl)
      (NoJoins.round busy_round []
        (NoAccepts.one_more (told 2) [] (λ h. absurd (ground arith)) NoAccepts.none_left)
        NoJoins.over)
      refl (λ h. absurd (ground arith)) refl refl (omega arith)
