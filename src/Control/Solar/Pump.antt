-- ===== src/Control/Solar/Pump.antt =====
-- The pump's duty, its relay and the flow agree, whatever is measured and commanded.
use bramka_setup.Base.{
  ℕ, suc, ◌+◌, ◌*◌, ◌≤◌, ◌≡◌, refl, arith, Bool, true, false, Option, none, some, List, [], ◌∷◌,
  Bytes, ltb, leb, ◌==◌, if◌then◌else◌, ◌++◌, ◌-◌, ◌&&◌, sym, ap, ◌∙◌,
}
use bramka_setup.Shared.NodeProtocol.{MessageStruct}
use bramka_setup.Control.Identity.{IdentityRec, Write}
use bramka_setup.Control.Light.{Gpio}
use bramka_setup.Control.Solar.{
  Temps, Floats, Solar, at_boot, pump_control, update_pump, send_data, measure, on_command,
  on_commands, task_round, with_address, send_pump_status,
}

-- The duty and the relay of a flow: off, or 18 % and 4.5 % more with each step above the first.
abbrev pub duty_of : ℕ → ℕ
duty_of flow = if flow == 0 then 0 else 180 + 9 * flow

abbrev pub relay_of : Gpio → ℕ → ℕ
relay_of g flow = if flow == 0 then g.level 0 else g.level 1

-- The flow is a multiple of 6 up to 84, and the duty and the relay are those of the flow.
pub record IsRunning (g : Gpio) (s : Solar) : Type 0 where
  pub step : (k : ℕ) × (s.flow_value ≡ 6 * k)
  pub bound : s.flow_value ≤ 84
  pub duty : s.pwm_duty ≡ duty_of s.flow_value
  pub relay : s.relay3 ≡ relay_of g s.flow_value

if-IsRunning :
    (g : Gpio) (b : Bool) (s t : Solar)
    → (b ≡ true → IsRunning g s)
    → (b ≡ false → IsRunning g t)
    → IsRunning g (if b then s else t)
if-IsRunning g true s t hs ht = hs refl
if-IsRunning g false s t hs ht = ht refl

module _ (g : Gpio) (s : Solar) (h : IsRunning g s) where
  switched_on : IsRunning g (record s { flow_value = 6; pwm_duty = 234; relay3 = g.level 1 })
  switched_on = record { step = (1, refl); bound = omega arith; duty = refl; relay = refl }

  switched_off : IsRunning g (record s { flow_value = 0; pwm_duty = 0; relay3 = g.level 0 })
  switched_off = record { step = (0, refl); bound = omega arith; duty = refl; relay = refl }

  stepped_up :
      6 ≤ s.flow_value
      → s.flow_value ≤ 78
      → IsRunning g (record s { flow_value = s.flow_value + 6; pwm_duty = s.pwm_duty + 54 })
  stepped_up lo hi = record {
    step = (suc h.step.0, omega (arith, h.step.1));
    bound = omega arith;
    duty = ground (arith, h.duty);
    relay = ground (arith, h.relay);
  }

  stepped_down :
      12 ≤ s.flow_value
      → IsRunning g (record s { flow_value = s.flow_value - 6; pwm_duty = s.pwm_duty - 54 })
  stepped_down lo = record {
    step = (h.step.0 - 1, omega (arith, h.step.1));
    bound = omega (arith, h.bound);
    duty = ground (arith, h.duty);
    relay = ground (arith, h.relay);
  }

pump_control-IsRunning :
    (fl : Floats) (g : Gpio) (t : Temps) (s : Solar)
    → IsRunning g s
    → IsRunning g (pump_control fl g t s)
unfolding pump_control
pump_control-IsRunning fl g t s h =
    if-IsRunning g (fl.above_7 t && ltb s.flow_value 6) _ _ (λ c. switched_on g s h)
      (λ c.
        if-IsRunning g (fl.wants_more t s.flow_value && (leb 6 s.flow_value && leb s.flow_value 78))
          _ _ (λ b. stepped_up g s h (ground (arith, b)) (ground (arith, b)))
          (λ b.
            if-IsRunning g (fl.wants_less t s.flow_value && leb 12 s.flow_value) _ _
              (λ d. stepped_down g s h (ground (arith, d)))
              (λ d.
                if-IsRunning g (fl.below_6 t && s.flow_value == 6) _ _ (λ e. switched_off g s h)
                  (λ e. h))))

-- Nothing else that the task does touches the pump.
same-IsRunning :
    (g : Gpio) (s t : Solar)
    → IsRunning g s
    → t.flow_value ≡ s.flow_value
    → t.pwm_duty ≡ s.pwm_duty
    → t.relay3 ≡ s.relay3
    → IsRunning g t
same-IsRunning g s t h f d r = record {
  step = (h.step.0, f ∙ h.step.1);
  bound = omega (arith, h.bound);
  duty = d ∙ h.duty ∙ ap duty_of (sym f);
  relay = r ∙ h.relay ∙ ap (relay_of g) (sym f);
}

update_pump-IsRunning :
    (fl : Floats) (g : Gpio) (t : Temps) (s : Solar)
    → IsRunning g s
    → IsRunning g (update_pump fl g t s)
unfolding update_pump
update_pump-IsRunning fl g t s h =
    let p : Solar = pump_control fl g t s in
    if-IsRunning g (s.update_pwm == 1) _ _
      (λ c. same-IsRunning g p _ (pump_control-IsRunning fl g t s h) refl refl refl)
      (λ c. same-IsRunning g s _ h refl refl refl)

send_data-IsRunning :
    (fl : Floats) (g : Gpio) (t : Temps) (s : Solar)
    → IsRunning g s
    → IsRunning g (send_data fl t s)
unfolding send_data
send_data-IsRunning fl g t s h =
    if-IsRunning g (leb 11 s.send_flag) _ _ (λ c. same-IsRunning g s _ h refl refl refl)
      (λ c. same-IsRunning g s _ h refl refl refl)

measure-IsRunning :
    (fl : Floats) (g : Gpio) (t : Temps) (s : Solar)
    → IsRunning g s
    → IsRunning g (measure fl g t s)
unfolding measure
measure-IsRunning fl g t s h =
    let s0 : Solar = record s { temps = t } in
    let h0 = same-IsRunning g s s0 h refl refl refl in
    let s1 : Solar = update_pump fl g t s0 in
    send_data-IsRunning fl g t _
      (same-IsRunning g s1 _ (update_pump-IsRunning fl g t s0 h0) refl refl refl)

on_command-IsRunning :
    (g : Gpio) (w : Write) (cmd : MessageStruct) (s : Solar)
    → IsRunning g s
    → IsRunning g (on_command g w cmd s)
unfolding on_command with_address send_pump_status
on_command-IsRunning g w cmd s h =
    same-IsRunning g s _ h (ground arith) (ground arith) (ground arith)

on_commands-IsRunning :
    (g : Gpio) (cmds : List (Write × MessageStruct)) (s : Solar)
    → IsRunning g s
    → IsRunning g (on_commands g cmds s)
unfolding on_commands
on_commands-IsRunning g [] s h = h
on_commands-IsRunning g ((w, cmd) ∷ cmds) s h =
    on_commands-IsRunning g cmds (on_command g w cmd s) (on_command-IsRunning g w cmd s h)

-- What wakes the task: a measurement, the event of a command, and the commands that have come.
pub record Wake : Type 0 where
  pub measured : Option Temps
  pub received : Bool
  pub arrived : List (Write × MessageStruct)

-- The task over a sequence of wakes, from the commands left in its queue.
unfoldable pub run_task : Floats → Gpio → List Wake → List (Write × MessageStruct) → Solar → Solar
run_task fl g [] cmds s = s
run_task fl g (w ∷ ws) cmds s =
    let r = task_round fl g w.measured w.received (cmds ++ w.arrived) s in run_task fl g ws r.1 r.0

task_round-IsRunning :
    (fl : Floats) (g : Gpio) (m : Option Temps) (received : Bool)
    (cmds : List (Write × MessageStruct)) (s : Solar)
    → IsRunning g s
    → IsRunning g (task_round fl g m received cmds s).0
unfolding task_round
task_round-IsRunning fl g (some t) received cmds s h = measure-IsRunning fl g t s h
task_round-IsRunning fl g none true cmds s h = on_commands-IsRunning g cmds s h
task_round-IsRunning fl g none false cmds s h = h

run_task-runs :
    (fl : Floats) (g : Gpio) (ws : List Wake) (cmds : List (Write × MessageStruct)) (s : Solar)
    → IsRunning g s
    → IsRunning g (run_task fl g ws cmds s)
unfolding run_task
run_task-runs fl g [] cmds s h = h
run_task-runs fl g (w ∷ ws) cmds s h =
    run_task-runs fl g ws _ _
      (task_round-IsRunning fl g w.measured w.received (cmds ++ w.arrived) s h)

-- From the start of the solar controller's task, after any sequence of measurements and commands,
-- whatever the float expressions give: the flow is a multiple of 6 up to 84, the PWM duty is 0 at
-- flow 0 and 180 + 9 * flow otherwise, and the pump's relay 3 is on exactly when the flow is not
-- 0.
pub run_task-IsRunning :
    (fl : Floats) (g : Gpio) (ws : List Wake) (addr : ℕ) (flash : Option IdentityRec)
    (temps : Temps) (padding : Bytes)
    → IsRunning g (run_task fl g ws [] (at_boot g addr flash temps padding))
run_task-IsRunning fl g ws addr flash temps padding =
    run_task-runs fl g ws [] _
      (record { step = (0, refl); bound = omega arith; duty = refl; relay = refl })
