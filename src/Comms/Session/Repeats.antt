-- ===== src/Comms/Session/Repeats.antt =====
-- DATA messages that Linux sends again.
use bramka_setup.Base.{ℕ, ◌≡◌, arith, true, List, ◌==◌}
use bramka_setup.Shared.Protocol.{Message, msg_data}
use bramka_setup.Comms.Slots.{Link}
use bramka_setup.Comms.Session.{Core, Out, Outcome, handle_message}

-- When the handler has ended on a DATA message, handling a second copy of it at any later time
-- leaves the state that the first one left and sends the same bytes; and neither changes the
-- engine, the queues or the pending messages.
handle_message_twice :
    (link : Link) (now later : ℕ) (m : Message) (k k' : Core) (outs : List Out)
    → (m.type == msg_data) ≡ true
    → handle_message link now m k ≡ Outcome.running outs k'
    → (handle_message link later m k' ≡ Outcome.running outs k')
      × (k'.engine ≡ k.engine)
      × (k'.outbox ≡ k.outbox)
      × (k'.node_in ≡ k.node_in)
      × ((k'.comms).pending ≡ (k.comms).pending)
unfolding handle_message
handle_message_twice link now later m k k' outs t h =
    (ground arith, ground arith, ground arith, ground arith, ground arith)
