-- ===== src/Sensor/Events/Quiet.antt =====
-- The task of the second revision of the sensor node between a removal and the next JOIN_ACCEPT.
use bramka_setup.Base.{
  ℕ, ◌<◌, ◌≡◌, ◌≢◌, ◌⊎◌, inl, inr, arith, ap, ◌∙◌, Option, none, some, List, [], ◌∷◌, ◌++◌, length,
}
use bramka_setup.Shared.NodeProtocol.{
  MessageStruct, msg_cmd, assigned_addr, addr_unprovisioned, cmd_join_accept, cmd_remove,
  cmd_unregistered,
}
use bramka_setup.Control.Light.{radio_depth}
use bramka_setup.Battery.{battery_soc_pct}
use bramka_setup.Sensor.Events.{
  Reading, Task, Command, Events, th_report, th_sense_read_batt, refresh_batt, measure_and_send,
  with_address, handle_command, handle_commands, task_round, run_events,
}

-- No command is a JOIN_ACCEPT.
pub data NoAccepts : List Command → Type 0 where
  none_left : NoAccepts []
  one_more :
      (c : Command) (cs : List Command)
      → msg_cmd c.msg ≢ cmd_join_accept
      → NoAccepts cs
      → NoAccepts (c ∷ cs)

pub data NoJoins : List Events → Type 0 where
  over : NoJoins []
  round : (e : Events) (es : List Events) → NoAccepts e.commands → NoJoins es → NoJoins (e ∷ es)

-- Without an address, and with this radio queue.
pub record IsSilent (q : List MessageStruct) (s : Task) : Type 0 where
  pub unaddressed : s.address ≡ addr_unprovisioned
  pub unsent : s.radio_queue ≡ q

module _ (q : List MessageStruct) where
  measure_and_send-IsSilent :
      (r : Reading) (s : Task) → IsSilent q s → IsSilent q (measure_and_send r s)
  unfolding measure_and_send refresh_batt th_sense_read_batt
  measure_and_send-IsSilent r s h = record {
    unaddressed = ground (arith, h.unaddressed);
    unsent = ground (arith, h.unaddressed, h.unsent);
  }

  handle_command-IsSilent :
      (c : Command) (s : Task)
      → msg_cmd c.msg ≢ cmd_join_accept
      → IsSilent q s
      → IsSilent q (handle_command c s)
  unfolding handle_command with_address
  handle_command-IsSilent c s n h = record {
    unaddressed = ground (arith, h.unaddressed);
    unsent = ground (arith, h.unsent);
  }

  handle_commands-IsSilent :
      (cs : List Command) (s : Task)
      → NoAccepts cs
      → IsSilent q s
      → IsSilent q (handle_commands cs s)
  unfolding handle_commands
  handle_commands-IsSilent [] s n h = h
  handle_commands-IsSilent (c ∷ cs) s (one_more _ _ k n) h =
      handle_commands-IsSilent cs (handle_command c s) n (handle_command-IsSilent c s k h)

  measured-IsSilent :
      (o : Option Reading) (s : Task)
      → IsSilent q s
      → IsSilent q (elim o [ none ↦ s | some r ↦ measure_and_send r s ])
  measured-IsSilent none s h = h
  measured-IsSilent (some r) s h = measure_and_send-IsSilent r s h

  run_events-IsSilent :
      (es : List Events) (s : Task) → NoJoins es → IsSilent q s → IsSilent q (run_events es s)
  unfolding run_events task_round
  run_events-IsSilent [] s n h = h
  run_events-IsSilent (e ∷ es) s (round _ _ k n) h =
      run_events-IsSilent es (task_round e s) n
        (handle_commands-IsSilent e.commands _ k (measured-IsSilent e.measured s h))

removed-IsSilent :
    (c : Command) (s : Task)
    → (msg_cmd c.msg ≡ cmd_remove) ⊎ (msg_cmd c.msg ≡ cmd_unregistered)
    → IsSilent s.radio_queue (handle_command c s)
unfolding handle_command with_address
removed-IsSilent c s (inl h) = record { unaddressed = ground arith; unsent = ground arith }
removed-IsSilent c s (inr h) = record { unaddressed = ground arith; unsent = ground arith }

-- what a JOIN_ACCEPT sends
accepted_report :
    (c : Command) (s : Task) (th : ℕ × ℕ) (mv : ℕ)
    → msg_cmd c.msg ≡ cmd_join_accept
    → assigned_addr c.msg ≢ addr_unprovisioned
    → c.reading.th ≡ some th
    → c.reading.batt ≡ some mv
    → length s.radio_queue < radio_depth
    → (handle_command c s).radio_queue
      ≡ s.radio_queue ++ th_report (assigned_addr c.msg) th mv (battery_soc_pct mv) ∷ []
unfolding handle_command with_address measure_and_send refresh_batt th_sense_read_batt
accepted_report c s th mv hc ha ht hb room = ground arith

-- After REMOVE or UNREGISTERED, in whatever state it comes, the task of the second revision of the
-- sensor node has no address and queues nothing for the radio through any rounds of its loop,
-- whatever is measured and commanded, without a JOIN_ACCEPT; and a JOIN_ACCEPT after them that
-- assigns an address, when the sensors are read and the radio queue had room before the removal,
-- queues exactly one message: the telemetry under that address, with the battery as it is read
-- then and its state of charge.
pub silent_until_join :
    (c a : Command) (s : Task) (es : List Events) (th : ℕ × ℕ) (mv : ℕ)
    → (msg_cmd c.msg ≡ cmd_remove) ⊎ (msg_cmd c.msg ≡ cmd_unregistered)
    → NoJoins es
    → msg_cmd a.msg ≡ cmd_join_accept
    → assigned_addr a.msg ≢ addr_unprovisioned
    → a.reading.th ≡ some th
    → a.reading.batt ≡ some mv
    → length s.radio_queue < radio_depth
    → let t = run_events es (handle_command c s) in
      (t.address ≡ addr_unprovisioned)
      × (t.radio_queue ≡ s.radio_queue)
      × ((handle_command a t).radio_queue
          ≡ s.radio_queue ++ th_report (assigned_addr a.msg) th mv (battery_soc_pct mv) ∷ [])
silent_until_join c a s es th mv hc n ja ha ht hb room =
    let t : Task = run_events es (handle_command c s) in
    let h : IsSilent s.radio_queue t =
      run_events-IsSilent s.radio_queue es _ n (removed-IsSilent c s hc) in
    (
      h.unaddressed,
      h.unsent,
      accepted_report a t th mv ja ha ht hb (omega (arith, room, ap length h.unsent))
          ∙ ap (λ q. q ++ th_report (assigned_addr a.msg) th mv (battery_soc_pct mv) ∷ []) h.unsent,
    )
