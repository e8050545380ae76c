-- ===== src/Tests/Radio.antt =====
-- The radio's theorems at concrete inputs.
use bramka_setup.Shared.NodeProtocol.{msg_id, frame_msg}
use bramka_setup.Base.{
  ◌⊎◌, if◌then◌else◌, ◌+◌, ◌-◌, ◌≤◌, ◌≡◌, ◌≢◌, refl, arith, true, false, some, List, [], ◌∷◌, ◌++◌,
  ◌||◌, ◌==◌, Bytes, byte, take, replicate, length,
}
use bramka_setup.Shared.NodeProtocol.{addr_gateway}
use bramka_setup.Rf.{bytes_eq, Reception, message_of, is_ack, load_nul}
use bramka_setup.Node.{node_receive, uplink_of}
use bramka_setup.Node.Exchange.{downlink_lem}
use bramka_setup.Concentrator.Pending.{Table, empty, lookup}
use bramka_setup.Concentrator.Receive.{gateway_receive}
use bramka_setup.Concentrator.Exchange.{uplink_lem, reply_for}
use bramka_setup.Concentrator.Transmit.{Job, Sender, frame_of, drain_queue}
use bramka_setup.Concentrator.Transmit.Retries.{AreJobs, sends_left, drain_queue_lem}
use bramka_setup.Concentrator.Pending.{disarm}
use bramka_setup.Concentrator.Pending.Unique.{TableCall, run_table, lookup-disarm}
use TableCall.{arming}
use bramka_setup.Tests.Data.{other_chip, chip, pump_frame, pump_message, node}

-- the table with REMOVE pending for the chip
abbrev pending_remove : Table
pending_remove =
    record { fid = chip; cmd = 6; used = true }
    ∷ replicate 7 (record { fid = replicate 8 0; cmd = 0; used = false })

uplink_lem_example :
    (f : Bytes) × (uplink_of chip 9 pump_message ≡ some f)
    × (gateway_receive pending_remove (replicate 70 0xaa) f
        ≡ Reception.received (record {
          reply = some (reply_for pending_remove chip pump_message (byte f (length f - 1))).0;
          frame = chip ++ message_of (take 5 pump_message);
          table = (reply_for pending_remove chip pump_message (byte f (length f - 1))).1;
        }))
    × ((rx : Bytes)
        → is_ack 0x10
            (byte f 0)
            (byte f (length f - 1))
            (load_nul (reply_for pending_remove chip pump_message (byte f (length f - 1))).0 rx)
          ≡ (lookup chip pending_remove == 0 || 1 == lookup chip pending_remove))
uplink_lem_example =
    uplink_lem pending_remove (replicate 70 0xaa) 9 chip pump_message refl refl (omega arith)
      (omega arith)

downlink_lem_example :
    (f : Bytes) × (frame_of 4 pump_frame ≡ some f)
    × (node.address ≡ msg_id (frame_msg pump_frame)
        → chip ≡ chip
        → (r : Bytes) × (node_receive node f
            ≡ Reception.received (record { reply = r; message = message_of (take 5 pump_message) }))
          × ((buf : Bytes)
              → is_ack addr_gateway (byte f 0) (byte f (length f - 1)) (load_nul r buf) ≡ true))
    × ((node.address ≢ msg_id (frame_msg pump_frame)) ⊎ (chip ≢ chip)
        → node_receive node f ≡ Reception.ignored)
downlink_lem_example = downlink_lem 4 pump_frame node refl (omega arith) refl

abbrev jobs : List Job
jobs =
    record { frame = pump_frame; retry_counter = 0 }
    ∷ record { frame = pump_frame; retry_counter = 3 }
    ∷ []

abbrev sender : Sender
sender = record { sequence = 0; rx = replicate 70 0; queue = []; timer = false }

drain_queue_lem_example :
    (fs : List Bytes) × (s' : Sender) × (drain_queue (λ f. []) jobs sender ≡ some (fs, s'))
    × AreJobs s'.queue
    × (length fs + sends_left s'.queue ≤ sends_left jobs)
    × (1 ≤ length jobs → 1 ≤ length fs)
    × (s'.timer ≡ false → s'.queue ≡ [])
drain_queue_lem_example =
    drain_queue_lem (λ f. []) jobs sender (omega arith, omega arith, (omega arith, omega arith, tt))
      refl

lookup-disarm_example :
    lookup other_chip (disarm chip (run_table empty (arming chip 6 ∷ arming other_chip 7 ∷ []))) ≡ (
      if bytes_eq chip other_chip
      then 0
      else lookup other_chip (run_table empty (arming chip 6 ∷ arming other_chip 7 ∷ [])))
lookup-disarm_example = lookup-disarm (arming chip 6 ∷ arming other_chip 7 ∷ []) chip other_chip
