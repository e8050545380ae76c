-- ===== src/Tests/Data.antt =====
-- Concrete states and inputs for the examples.
use bramka_setup.Base.{true, false, none, [], ◌∷◌, ◌++◌, Bytes, replicate, ltb, leb, ◌-◌, arith}
use bramka_setup.Shared.NodeProtocol.{MessageStruct, NodeFrame, message}
use bramka_setup.Shared.Automation.{AutomationRule}
use bramka_setup.Engine.State.{Engine, NodeUnion, NodeRec}
use bramka_setup.Engine.Nodes.{Float32}
use bramka_setup.Engine.Evaluate.{Readings}
use bramka_setup.Engine.Ruleset.Atomic.{IsConsistent}
use bramka_setup.Comms.Slots.{Comms, Link, start}
use bramka_setup.Comms.Session.{Core}
use bramka_setup.Node.{Node}

-- whole numbers in place of the floats
abbrev pub whole : Float32
whole = record { lt = ltb; le = leb; sub = λ a b. a - b; of_i32 = λ n. n }

abbrev pub zero_union : NodeUnion
zero_union = record { w0 = 0; w1 = 0; w2 = 0; w3 = 0; w4 = 0; w5 = 0; w6 = 0; w7 = 0 }

abbrev pub zero_node : NodeRec
zero_node = record { in_use = 0; type = 0; d = zero_union }

-- the engine at start-up, with a sink and a clock
abbrev pub fresh : Engine
fresh = record {
  node = λ _. zero_node;
  sink = true;
  clock = true;
  wall = record { base_secs = 0; anchor_us = 0; valid = false };
  rules = λ _ _. [];
  count = λ _. 0;
  active = 0;
  last_time_min = none;
  building = false;
  shadow = 0;
  shadow_expected = 0;
  shadow_filled = 0;
}

pub fresh-IsConsistent : IsConsistent fresh
fresh-IsConsistent = record {
  active_slot = omega arith;
  apart = λ b. absurd (ground arith);
  expected_le = omega arith;
  count_le = omega arith;
}

-- a rule without conditions that switches relay 0x10 on
abbrev pub relay_on : AutomationRule
relay_on = replicate 128 0 ++ 0 ∷ 0x10 ∷ 0 ∷ 0 ∷ 0 ∷ 0 ∷ 0x80 ∷ 0x3f ∷ replicate 60 0

-- the rule, with one condition on T1 of node 0x20
abbrev pub on_t1 : AutomationRule
on_t1 =
    replicate 64 0
    ++ 1 ∷ 0 ∷ 0 ∷ 0 ∷ 1 ∷ 0 ∷ 0 ∷ 0 ∷ 0x20 ∷ replicate 55 0
    ++ 0 ∷ 0x10 ∷ 0 ∷ 0 ∷ 0 ∷ 0 ∷ 0x80 ∷ 0x3f ∷ replicate 60 0

-- with one live rule
abbrev pub with_rule : Engine
with_rule = record fresh { rules = λ _ _. relay_on; count = λ _. 1 }

-- with the clock set to 12:30:00 at microsecond 0
abbrev pub at_half_past : Engine
at_half_past = record with_rule { wall = record { base_secs = 45000; anchor_us = 0; valid = true } }

abbrev pub at_start : Readings
at_start = record { tick = 0; at = λ _ _. 0 }

-- a solar controller's reading and pump status from address 0x10
abbrev pub solar_message : MessageStruct
solar_message = message 0x10 0 0 41 (replicate 37 7)

abbrev pub pump_message : MessageStruct
pump_message = message 0x10 0 1 5 (1 ∷ [])

abbrev pub th_message : MessageStruct
th_message = message 0x11 6 0 14 (replicate 10 3)

abbrev pub chip : Bytes
chip = 1 ∷ 2 ∷ 3 ∷ 4 ∷ 5 ∷ 6 ∷ 7 ∷ 8 ∷ []

abbrev pub other_chip : Bytes
other_chip = 9 ∷ 2 ∷ 3 ∷ 4 ∷ 5 ∷ 6 ∷ 7 ∷ 8 ∷ []

abbrev pub pump_frame : NodeFrame
pump_frame = chip ++ pump_message

abbrev pub node : Node
node = record { factory_id = chip; address = 0x10; sequence = 3; rx = replicate 70 0 }

-- the COMMS state once Linux has spoken, on a link that takes everything
abbrev pub linked : Comms
linked = record start { endpoint = 1024 }

abbrev pub open_link : Link
open_link w = true

abbrev pub core : Core
core = record { comms = linked; engine = with_rule; node_in = []; outbox = [] }
