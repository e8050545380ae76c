-- ===== src/Tests/Joins.antt =====
-- The theorems on joining at concrete inputs.
use bramka_setup.Base.{
  ℕ, zero, suc, ◌-◌, ◌≤◌, ◌≡◌, refl, arith, true, false, Option, none, some, List, [], ◌∷◌, ◌++◌,
  Bytes, replicate, inl, inr,
}
use bramka_setup.Shared.Protocol.{msg_node_cmd, msg_node_telemetry, decode, Decoded}
use bramka_setup.Shared.NodeProtocol.{MessageStruct, NodeFrame, message, node_solar_controller}
use bramka_setup.Rpmsg.{Glue, Effect, dispatch}
use bramka_setup.Rf.{Reception}
use bramka_setup.Concentrator.Pending.{empty}
use bramka_setup.Concentrator.Receive.{Uplink, gateway_receive}
use bramka_setup.Concentrator.Transmit.{frame_of}
use bramka_setup.Comms.Tasks.{engine_iteration, drain_engine_outbox}
use bramka_setup.Comms.Session.Replies.{linux_bytes}
use bramka_setup.Spi.Master.{Bus, timed_out, post_cmd, spi_iteration}
use bramka_setup.Spi.Master.Steps.{at_start}
use bramka_setup.Spi.Slave.{Slave, job_of, slave_iteration}
use bramka_setup.Spi.Slave.Uplinks.{master_receives}
use bramka_setup.Spi.Exchange.{answering, receive_all}
use bramka_setup.Control.Identity.{succeeded, identity_init}
use bramka_setup.Control.Light.{Gpio}
use bramka_setup.Control.Solar.{Solar, at_boot, solar_magic, on_command, pump_report}
use bramka_setup.Node.Task.{RadioTask, Wake, join_message, press_button, radio_round}
use bramka_setup.Uplink.{frame_of_chip}
use bramka_setup.Joining.{join_requested, join_accepted}
use bramka_setup.Tests.Data.{whole, chip, node, open_link, core, with_rule}
use bramka_setup.Tests.Data
use Effect.{reply, tx_node}

abbrev wired : Glue
wired = record { has_tx_event = true; has_reply = true; has_tx_node = true; has_tx_ctrl = true }

abbrev silent : Bus
silent = record { slave_ready = λ k. false; transfer = timed_out }

abbrev slave : Slave
slave = record { spi_queue = []; radio_queue = []; table = empty; tx_seq = 1 }

-- a chip without an address
abbrev new_chip : RadioTask
new_chip = record { node = record node { address = 0xff }; radio_queue = []; commands = [] }

abbrev second_try : ℕ → ℕ → Option Bytes
second_try i zero = none
second_try i (suc k) = some (replicate 128 0)

join_requested_example :
    let frame = frame_of_chip chip (join_message chip) in
    (f : Bytes) × (sends : ℕ) × (n' : RadioTask) × (g : Uplink) × (wire : Bytes) × (rest : List
      Bytes)
    × (radio_round (Wake.send_packet (λ i k. [])) (press_button new_chip)
        ≡ some (replicate sends f ++ [], n'))
    × (1 ≤ sends)
    × (sends ≤ 3)
    × (gateway_receive empty (replicate 70 0) f ≡ Reception.received g)
    × ((master_receives
          (slave_iteration false second_try (record slave { spi_queue = g.frame ∷ [] })).0
          at_start).node_in
        ≡ frame ∷ [])
    × (linux_bytes
          (drain_engine_outbox open_link 50
            (engine_iteration whole Data.at_start (some frame) core)).0
        ≡ wire ∷ rest)
    × (decode wire ≡ Decoded.ok (record { type = msg_node_telemetry; seq = 1; payload = frame }))
join_requested_example =
    join_requested (λ i k. []) new_chip empty (replicate 70 0) false second_try slave at_start whole
      Data.at_start open_link 50 core refl refl (λ j. inr (inl (λ e. absurd (ground arith)))) refl
      refl (λ w. refl) (λ e. absurd (omega (arith, e))) refl

-- the address 0x12 for the chip
abbrev accept_frame : NodeFrame
accept_frame = chip ++ message 0xff node_solar_controller 5 13 (chip ++ 0x12 ∷ [])

abbrev pins : Gpio
pins = record { level = λ n. n; toggled = λ n. 1 - n }

abbrev controller : Solar
controller = at_boot pins 0xff none (λ i. 0) (replicate 3 0)

join_accepted_example :
    (f : Bytes) × (r : Bytes) × (cmd : MessageStruct) × (n' : RadioTask) × (dispatch wired with_rule
        0 msg_node_cmd 7 accept_frame
      ≡ (true, with_rule, tx_node accept_frame ∷ reply 17 7 ∷ []))
    × ((receive_all
          (spi_iteration false
            (λ i. answering (replicate 128 0))
            silent
            (post_cmd accept_frame at_start).0).0
          slave).radio_queue
        ≡ job_of accept_frame ∷ [])
    × (frame_of 4 accept_frame ≡ some f)
    × (radio_round (Wake.radio_rx (f ∷ [])) new_chip ≡ some (r ∷ [], n'))
    × (n'.commands ≡ cmd ∷ [])
    × (let c' = on_command pins succeeded cmd controller in
        (c'.address ≡ 0x12)
        × (identity_init solar_magic c'.flash ≡ 0x12)
        × (c'.radio_queue ≡ [] ++ pump_report 0x12 0 ∷ []))
join_accepted_example =
    join_accepted wired with_rule 0 7 accept_frame at_start false (λ i. replicate 128 0) silent
      slave 4 new_chip pins controller refl refl (omega arith) (omega arith) refl refl refl refl
      (omega arith) (omega arith) refl refl refl refl (omega arith)
