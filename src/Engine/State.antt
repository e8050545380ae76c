-- ===== src/Engine/State.antt =====
-- engine.c, the file's static state and `engine_init`.
use bramka_setup.Base.{ℕ, Bool, false, Option, none, if◌then◌else◌, ◌==◌}
use bramka_setup.Shared.Automation.{AutomationRule, RuleAction}
use bramka_setup.Shared.NodeProtocol.{MessageStruct}

-- `NodeRec.d`, the 32-byte union, as its eight little-endian words:
--   solar: T1 T2 T3 T4 Tcol energyGain flowRate, and pumpState as the low byte of `w7`;
--   bufor: sBuforTemp is `w0`;  th: temperature `w0`, humidity `w1`, batt_mv the low half of `w2`.
pub record NodeUnion : Type 0 where
  pub w0 : ℕ
  pub w1 : ℕ
  pub w2 : ℕ
  pub w3 : ℕ
  pub w4 : ℕ
  pub w5 : ℕ
  pub w6 : ℕ
  pub w7 : ℕ

pub record NodeRec : Type 0 where
  pub in_use : ℕ
  pub type : ℕ
  pub d : NodeUnion

-- `g_wall`
pub record Wall : Type 0 where
  pub base_secs : ℕ  -- uint32_t
  pub anchor_us : ℕ  -- uint64_t
  pub valid : Bool

-- The static variables. `sink` and `clock` say whether a callback is installed; the calls of the
-- action callback are the evaluator's output, and the clock's readings its input.
pub record Engine : Type 0 where
  pub node : ℕ → NodeRec  -- g_node, by address
  pub sink : Bool  -- g_action_fn != NULL
  pub clock : Bool  -- g_clock_fn != NULL
  pub wall : Wall
  pub rules : ℕ → ℕ → AutomationRule  -- g_rules[slot][index]
  pub count : ℕ → ℕ  -- g_count[slot]
  pub active : ℕ
  pub last_time_min : Option ℕ  -- none for -1
  pub building : Bool
  pub shadow : ℕ
  pub shadow_expected : ℕ
  pub shadow_filled : ℕ

-- One call of the action callback.
pub record Fired : Type 0 where
  pub msg : MessageStruct
  pub rule_index : ℕ
  pub action : RuleAction

-- a write `a[i] = v` to an array that is a function
abbrev pub update {ℓ} : {A : Type ℓ} → (ℕ → A) → ℕ → A → ℕ → A
update a i v j = if j == i then v else a j

-- `g_node`, `g_rules` and `g_shadow` keep their values.
unfoldable pub init : Bool → Bool → Engine → Engine
init action_fn clock_fn e = record e {
  sink = action_fn;
  clock = clock_fn;
  wall = record e.wall { valid = false };
  last_time_min = none;
  active = 0;
  count = λ _. 0;
  building = false;
  shadow_expected = 0;
  shadow_filled = 0;
}
