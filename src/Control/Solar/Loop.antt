-- ===== src/Control/Solar/Loop.antt =====
-- The relay's loop: a rule of the engine, the solar controller's command, and its status.
use bramka_setup.Base.{ℕ, ◌<◌, ◌≡◌, refl, arith, ap, ◌∙◌, none, some, [], ◌∷◌, ◌++◌, length}
use bramka_setup.Shared.Automation.{
  AutomationRule, action, action_type, action_addr, action_set_relay,
}
use bramka_setup.Shared.NodeProtocol.{
  MessageStruct, message, node_solar_controller, cmd_turn_pump_on_off,
}
use bramka_setup.Rf.{message_of}
use bramka_setup.Engine.State.{Engine, Fired}
use bramka_setup.Engine.Nodes.{Float32, update_node}
use bramka_setup.Engine.Evaluate.{EvalScope, evaluate_rule, build_action, wanted_state}
use bramka_setup.Engine.Evaluate.Dedup.{evaluate_rule-update_node}
use bramka_setup.Control.Identity.{Write}
use bramka_setup.Control.Light.{Gpio, radio_depth}
use bramka_setup.Control.Solar.{Solar, on_command, send_pump_status, pump_report}

-- the message of a relay rule that fires
fired_message :
    (fl : Float32) (e : Engine) (scope : EvalScope) (now : ℕ → ℕ) (i : ℕ) (r : AutomationRule)
    (f : Fired)
    → action_type (action r) ≡ action_set_relay
    → evaluate_rule fl e scope now i r ≡ some f
    → let a = action_addr (action r) in
      f.msg ≡ message a (e.node a).type cmd_turn_pump_on_off 5 (wanted_state fl (action r) ∷ [])
unfolding evaluate_rule build_action
fired_message fl e scope now i r f t h = ground arith

-- what the solar controller does with it
on_command-turn :
    (g : Gpio) (w : Write) (a want : ℕ) (s : Solar)
    → length s.radio_queue < radio_depth
    → g.level want ≡ want
    → let s' =
        on_command g w (message a node_solar_controller cmd_turn_pump_on_off 5 (want ∷ [])) s in
      (s'.relay1 ≡ want) × (s'.radio_queue ≡ s.radio_queue ++ pump_report s.address want ∷ [])
unfolding on_command send_pump_status
on_command-turn g w a want s room lv = (lv, ground arith)

-- When a relay rule fires for a node that the engine knows as a solar controller, the controller
-- with that address, with room in its radio queue and pins that read back what the rule wants,
-- sets its relay to the wanted state and queues one status; and after the engine has folded this
-- status, in whatever state it is by then, the rule does not fire.
pub relay_loop :
    (fl : Float32) (e e' : Engine) (scope scope' : EvalScope) (now now' : ℕ → ℕ) (i i' : ℕ)
    (r : AutomationRule) (f : Fired) (g : Gpio) (w : Write) (s : Solar)
    → action_type (action r) ≡ action_set_relay
    → evaluate_rule fl e scope now i r ≡ some f
    → (e.node (action_addr (action r))).type ≡ node_solar_controller
    → s.address ≡ action_addr (action r)
    → length s.radio_queue < radio_depth
    → g.level (wanted_state fl (action r)) ≡ wanted_state fl (action r)
    → let s' = on_command g w f.msg s in
      (st : MessageStruct) × (s'.relay1 ≡ wanted_state fl (action r))
      × (s'.radio_queue ≡ s.radio_queue ++ st ∷ [])
      × (evaluate_rule fl (update_node e' (message_of st)).0 scope' now' i' r ≡ none)
relay_loop fl e e' scope scope' now now' i i' r f g w s t h ty addr room lv =
    let a : ℕ = action_addr (action r) in
    let want : ℕ = wanted_state fl (action r) in
    let m =
      fired_message fl e scope now i r f t h
      ∙ ap (λ x. message a x cmd_turn_pump_on_off 5 (want ∷ [])) ty in
    let done = on_command-turn g w a want s room lv in
    (
      pump_report s.address want,
      ap (λ x. (on_command g w x s).relay1) m ∙ done.0,
      ap (λ x. (on_command g w x s).radio_queue) m ∙ done.1,
      evaluate_rule-update_node fl e' scope' now' i' r (message_of (pump_report s.address want)) t
          addr refl refl refl,
    )
