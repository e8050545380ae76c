-- ===== src/Rpmsg/Replies.antt =====
-- Every message that engine_rpmsg.c handles is answered once, and a rejected one changes nothing.
use bramka_setup.Base.{ℕ, ◌≡◌, true, false, Bool, List, [], ◌∷◌, arith, Bytes, ◌==◌, ◌||◌, ◌&&◌}
use bramka_setup.Shared.Protocol.{
  msg_ack, msg_error, msg_rule_begin, msg_rule_item, msg_rule_commit, msg_node_cmd, msg_time_sync,
  msg_arm_pending,
}
use bramka_setup.Engine.State.{Engine}
use bramka_setup.Engine.Ruleset.{rules_begin, rules_item, rules_commit}
use bramka_setup.Engine.Ruleset.Atomic.{SameLive}
use bramka_setup.Rpmsg.{Glue, Effect, reply, tx_node, tx_ctrl, tx_event, dispatch}

-- the replies among the effects, as type and sequence number
unfoldable pub replies : List Effect → List (ℕ × ℕ)
replies [] = []
replies (reply t s ∷ fx) = (t, s) ∷ replies fx
replies (tx_node f ∷ fx) = replies fx
replies (tx_ctrl c ∷ fx) = replies fx
replies (tx_event t p ∷ fx) = replies fx

-- one reply, MSG_ACK or MSG_ERROR, with the given sequence number
abbrev pub is_one_reply : ℕ → List (ℕ × ℕ) → Bool
is_one_reply seq ((t, s) ∷ []) = (t == msg_ack || t == msg_error) && s == seq
is_one_reply seq _ = false

-- The message types of the engine's interface.
abbrev pub is_engine_message : ℕ → Bool
is_engine_message t =
    t == msg_rule_begin
    || (t == msg_rule_item
        || (t == msg_rule_commit
            || (t == msg_node_cmd || (t == msg_time_sync || t == msg_arm_pending))))

-- With a reply callback, the dispatcher takes exactly the six message types of the engine's
-- interface. It answers each of those by one reply, MSG_ACK or MSG_ERROR, with the message's
-- sequence number; for any other type it calls no callback and keeps the engine.
dispatch-replies :
    (g : Glue) (e : Engine) (now type seq : ℕ) (p : Bytes)
    → g.has_reply ≡ true
    → let (ours, e', fx) = dispatch g e now type seq p in
      (ours ≡ is_engine_message type)
      × (ours ≡ true → is_one_reply seq (replies fx) ≡ true)
      × (ours ≡ false → (e' ≡ e) × (fx ≡ []))
unfolding dispatch replies
dispatch-replies g e now type seq p r = (ground arith, λ h. ground arith, λ h. ground arith)

-- A message whose replies are one MSG_ERROR has no other effect: nothing is relayed to a node or
-- to the radio, and the live ruleset, the node records and the wall clock stay as they were.
dispatch_rejects :
    (g : Glue) (e : Engine) (now type seq : ℕ) (p : Bytes)
    → let (ours, e', fx) = dispatch g e now type seq p in
      replies fx ≡ (msg_error, seq) ∷ []
      → (fx ≡ reply msg_error seq ∷ []) × SameLive e e' × (e'.node ≡ e.node) × (e'.wall ≡ e.wall)
unfolding dispatch replies rules_begin rules_item rules_commit
dispatch_rejects g e now type seq p h = (
  ground arith,
  record { same_active = ground arith; same_count = ground arith; same_rules = λ i. ground arith },
  ground arith,
  ground arith,
)
