-- ===== src/Tests/Linux.antt =====
-- The theorems on the link to Linux at concrete inputs.
use bramka_setup.Base.{
  ℕ, ◌≤◌, ◌<◌, ◌≡◌, ◌≢◌, refl, arith, true, some, none, List, [], ◌∷◌, ◌++◌, Bytes, length,
}
use bramka_setup.Shared.Protocol.{
  encode, decode, Decoded, Message, msg_data, msg_error, msg_node_telemetry, msg_rule_begin, crc16,
  crc16_loop, crc16_rounds, crc16_round,
}
use bramka_setup.Shared.Protocol.RoundTrip.{decode-encode, encode-decode}
use bramka_setup.Rpmsg.Replies.{replies}
use bramka_setup.Rpmsg.{dispatch}
use bramka_setup.Comms.Slots.{send_ack, PendingAck}
use bramka_setup.Comms.Slots.Retry.{passes, passes-give_up, none_in_use}
use bramka_setup.Comms.Ring.{Ring, linux_msg_callback, has_message, front}
use bramka_setup.Comms.Ring.Queue.{IsRing, messages, linux_msg_callback_lem}
use bramka_setup.Comms.Session.{Core, Out, Outcome, handle_message, glue, to_linux_all}
use bramka_setup.Comms.Session.Replies.{IsReply, linux_bytes, handle_message_replies}
use bramka_setup.Comms.Tasks.{engine_iteration, drain_engine_outbox}
use bramka_setup.Comms.Tasks.Delivery.{telemetry_delivered}
use bramka_setup.Tests.Data.{whole, fresh, at_start, core, linked, open_link, pump_frame}

decode-encode_example :
    (wire : Bytes) × (encode [] msg_data 42 (some (104 ∷ 105 ∷ [])) 2 ≡ some wire)
    × (decode wire ≡ Decoded.ok (record { type = msg_data; seq = 42; payload = 104 ∷ 105 ∷ [] }))
decode-encode_example = decode-encode [] msg_data 42 (104 ∷ 105 ∷ []) (omega arith) (omega arith)

-- a PING with sequence number 5
abbrev ping_wire : Bytes
ping_wire = 3 ∷ 0 ∷ 5 ∷ 0 ∷ 0 ∷ 20 ∷ 46 ∷ []

ping_decodes : decode ping_wire ≡ Decoded.ok (record { type = 3; seq = 5; payload = [] })
unfolding decode crc16 crc16_loop crc16_rounds crc16_round
ping_decodes = refl

encode-decode_example : encode [] 3 5 (some []) 0 ≡ some ping_wire
encode-decode_example =
    encode-decode [] ping_wire
      (
        omega arith,
        (
          omega arith,
          (omega arith, (omega arith, (omega arith, (omega arith, (omega arith, tt))))),
        ),
      )
      ping_decodes

abbrev data_message : Message
data_message = record { type = msg_data; seq = 42; payload = 104 ∷ 105 ∷ [] }

too_short : replies (dispatch glue fresh 0 msg_rule_begin 3 (7 ∷ [])).2 ≡ (msg_error, 3) ∷ []
unfolding dispatch replies
too_short = refl

-- an event sent at time 100, resent once
abbrev waiting : PendingAck
waiting = record {
  in_use = true;
  seq = 1;
  msg_type = 0x20;
  retry_count = 1;
  sent_at_us = 100;
  payload = 7 ∷ [];
}

abbrev frequent : List ℕ
frequent =
    600100 ∷ 1200100 ∷ 1800100 ∷ 2400100 ∷ 3000100 ∷ 3600100 ∷ 4200100 ∷ 4800100 ∷ 5400100 ∷ 6000100
    ∷ 6600100 ∷ 7200100 ∷ []

passes-give_up_example : none_in_use (passes open_link 9 frequent (waiting ∷ [])).1 ≡ true
passes-give_up_example =
    passes-give_up open_link 9 100 frequent (waiting ∷ []) ((λ u. (omega arith, omega arith)), tt)
      (
        omega arith,
        omega arith,
        omega arith,
        (
          omega arith,
          omega arith,
          omega arith,
          (
            omega arith,
            omega arith,
            omega arith,
            (
              omega arith,
              omega arith,
              omega arith,
              (
                omega arith,
                omega arith,
                omega arith,
                (
                  omega arith,
                  omega arith,
                  omega arith,
                  (
                    omega arith,
                    omega arith,
                    omega arith,
                    (
                      omega arith,
                      omega arith,
                      omega arith,
                      (
                        omega arith,
                        omega arith,
                        omega arith,
                        (
                          omega arith,
                          omega arith,
                          omega arith,
                          (
                            omega arith,
                            omega arith,
                            omega arith,
                            (omega arith, omega arith, omega arith, tt),
                          ),
                        ),
                      ),
                    ),
                  ),
                ),
              ),
            ),
          ),
        ),
      )
      (omega arith)

-- one message waits in slot 3, and the next goes to slot 0
abbrev ring : Ring
ring = record { slot = λ j. j ∷ []; head = 0; tail = 3 }

linux_msg_callback_lem_example :
    (length (messages ring) < 3
      → (r' : Ring) × (linux_msg_callback (1 ∷ 2 ∷ []) 1024 ring ≡ some (r', 1024))
        × IsRing r'
        × (messages r' ≡ messages ring ++ (1 ∷ 2 ∷ []) ∷ [])
        × (has_message ring ≡ true → front r' ≡ front ring))
    × (3 ≤ length (messages ring) → linux_msg_callback (1 ∷ 2 ∷ []) 1024 ring ≡ none)
linux_msg_callback_lem_example =
    linux_msg_callback_lem (1 ∷ 2 ∷ []) 1024 ring (omega arith, omega arith)

linked_endpoint : linked.endpoint ≢ 0
linked_endpoint e = absurd (omega (arith, e))

handle_message_replies_example :
    (outs : List Out) × (k' : Core) × (handle_message open_link 50 data_message core
      ≡ Outcome.running outs k')
    × IsReply 42 (linux_bytes outs)
handle_message_replies_example =
    handle_message_replies open_link 50 data_message core (λ w. refl) linked_endpoint (omega arith)
      refl

abbrev core_after : Core
core_after = record core { comms = record linked { their_last_seq = 42 } }

abbrev outs_after : List Out
outs_after = to_linux_all (send_ack open_link linked 42)

data_handled : handle_message open_link 50 data_message core ≡ Outcome.running outs_after core_after
unfolding handle_message
data_handled = refl

telemetry_delivered_example :
    (wire : Bytes) × (rest : List Bytes) × (linux_bytes
        (drain_engine_outbox open_link 50
          (engine_iteration whole at_start (some pump_frame) core)).0
      ≡ wire ∷ rest)
    × (decode wire
        ≡ Decoded.ok (record { type = msg_node_telemetry; seq = 1; payload = pump_frame }))
telemetry_delivered_example =
    telemetry_delivered whole at_start open_link 50 pump_frame core refl refl (λ w. refl)
      linked_endpoint (omega arith) refl
