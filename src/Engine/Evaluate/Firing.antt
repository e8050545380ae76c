-- ===== src/Engine/Evaluate/Firing.antt =====
-- Which rules `engine_evaluate` fires, against a description of a rule that is due.
use bramka_setup.Base.{
  ℕ, zero, suc, ◌+◌, ◌≤◌, ◌<◌, ◌≡◌, ◌↔◌, ◌⊎◌, inl, inr, refl, true, false, none, some, Option, List,
  [], ◌∷◌, arith, Option-cases, sym, ap,
}
use mathlib.Core.Path.{subst}
use native.Mathlib.Decide.{dec_le}
use bramka_setup.Shared.Automation.{
  AutomationRule, condition_count, condition, action, condition_type, union_u, cond_parameter,
  node_addr,
}
use bramka_setup.Engine.State.{Engine, Fired}
use bramka_setup.Engine.Nodes.{Float32}
use bramka_setup.Engine.Conditions.{condition_ok, parameter_ok}
use bramka_setup.Engine.Evaluate.{
  EvalScope, Readings, rule_matches_scope, relay_satisfied, conditions_met, build_action,
  evaluate_rule, evaluate_from, run_rules, cons_some,
}

-- Every condition of the rule holds, each at the clock's reading for it.
abbrev pub AllConditions : Float32 → Engine → (ℕ → ℕ) → AutomationRule → Type 0
AllConditions fl e now r =
    (c : ℕ) → c < condition_count r → condition_ok fl e (now c) (condition r c) ≡ true

-- A rule is due, and `f` is what it asks for.
pub record IsDue (fl : Float32) (e : Engine) (scope : EvalScope) (now : ℕ → ℕ) (i : ℕ)
    (r : AutomationRule) (f : Fired) : Type 0 where
  pub sink : e.sink ≡ true
  pub scoped : rule_matches_scope r scope ≡ true
  pub wanted : relay_satisfied fl e.node (action r) ≡ false
  pub met : AllConditions fl e now r
  pub built : build_action fl e.node (action r) ≡ some f.msg
  pub index : f.rule_index ≡ i
  pub source : f.action ≡ action r

split_le : (c j : ℕ) → c ≤ j → (c ≡ j) ⊎ (suc c ≤ j)
split_le c j h = elim (dec_le (suc c) j) [ yes p ↦ inr p | no p ↦ inl (omega arith) ]

conditions_met-all :
    (fl : Float32) (e : Engine) (now : ℕ → ℕ) (r : AutomationRule) (c k : ℕ)
    → conditions_met fl e now r c k ≡ true
    → (j : ℕ) → c ≤ j
    → j < c + k
    → condition_ok fl e (now j) (condition r j) ≡ true
unfolding conditions_met
conditions_met-all fl e now r c zero h j le lt = absurd (omega arith)
conditions_met-all fl e now r c (suc k) h j le lt = elim (split_le c j le) [
  | inl p ↦ subst (λ t. condition_ok fl e (now t) (condition r t) ≡ true) p (ground arith)
  | inr q ↦ conditions_met-all fl e now r (suc c) k (ground arith) j q (omega arith)
]

all-conditions_met :
    (fl : Float32) (e : Engine) (now : ℕ → ℕ) (r : AutomationRule) (c k : ℕ)
    → ((j : ℕ) → c ≤ j → j < c + k → condition_ok fl e (now j) (condition r j) ≡ true)
    → conditions_met fl e now r c k ≡ true
unfolding conditions_met
all-conditions_met fl e now r c zero h = refl
all-conditions_met fl e now r c (suc k) h = rw (
  h c (omega arith) (omega arith),
  all-conditions_met fl e now r (suc c) k (λ j le lt. h j (omega arith) (omega arith)),
)

-- One round of the rule loop fires `f` exactly if the rule is due and asks for `f`.
pub evaluate_rule-IsDue :
    (fl : Float32) (e : Engine) (scope : EvalScope) (now : ℕ → ℕ) (i : ℕ) (r : AutomationRule)
    (f : Fired)
    → (evaluate_rule fl e scope now i r ≡ some f) ↔ IsDue fl e scope now i r f
unfolding evaluate_rule
evaluate_rule-IsDue fl e scope now i r f = (
  λ h. record {
    sink = ground arith;
    scoped = ground arith;
    wanted = ground arith;
    met = λ c lt.
        conditions_met-all fl e now r 0 (condition_count r) (ground arith) c (omega arith)
          (omega arith);
    built = ground arith;
    index = ground arith;
    source = ground arith;
  },
  λ d. ground (
    arith,
    all-conditions_met fl e now r 0 (condition_count r) (λ j le lt. d.met j (omega arith)),
    d.scoped,
    d.wanted,
    d.built,
    d.index,
    d.source,
    d.sink,
  ),
)

abbrev pub In : {A : Type 0} → A → List A → Type 0
In x [] = ⊥
In x (y ∷ ys) = (x ≡ y) ⊎ In x ys

In-cons_some :
    (o : Option Fired) (f : Fired) (xs : List Fired)
    → In f (cons_some o xs) ↔ ((o ≡ some f) ⊎ In f xs)
In-cons_some none f xs = (λ h. inr h, λ s. elim s [ inl p ↦ cc | inr q ↦ q ])
In-cons_some (some g) f xs = (
  λ h. elim h [ inl p ↦ inl (ap some (sym p)) | inr q ↦ inr q ],
  λ s. elim s [ inl p ↦ inl (cc) | inr q ↦ inr q ],
)

-- `f` is what the rule at index `i` of the live ruleset asks for, and the rule is due.
abbrev pub Due : Float32 → Engine → EvalScope → Readings → Fired → ℕ → Type 0
Due fl e scope rd f i = IsDue fl e scope (rd.at i) i (e.rules e.active i) f

evaluate_from-Due :
    (fl : Float32) (e : Engine) (scope : EvalScope) (rd : Readings) (i k : ℕ) (f : Fired)
    → In f (evaluate_from fl e scope rd i k)
    → (j : ℕ) × (i ≤ j) × (j < i + k) × Due fl e scope rd f j
unfolding evaluate_from
evaluate_from-Due fl e scope rd i zero f h = elim h [ ]
evaluate_from-Due fl e scope rd i (suc k) f h = elim ((In-cons_some _ f _).0 h) [
  | inl p ↦ (i, omega arith, omega arith, (evaluate_rule-IsDue fl e scope (rd.at i) i _ f).0 p)
  | inr q ↦
      let (j, le, lt, due) = evaluate_from-Due fl e scope rd (suc i) k f q in
      (j, omega arith, omega arith, due)
]

Due-evaluate_from :
    (fl : Float32) (e : Engine) (scope : EvalScope) (rd : Readings) (i k : ℕ) (f : Fired) (j : ℕ)
    → i ≤ j
    → j < i + k
    → Due fl e scope rd f j
    → In f (evaluate_from fl e scope rd i k)
unfolding evaluate_from
Due-evaluate_from fl e scope rd i zero f j le lt d = absurd (omega arith)
Due-evaluate_from fl e scope rd i (suc k) f j le lt d =
    (In-cons_some _ f _).1 (elim (split_le i j le) [
      | inl p ↦ inl (
          (evaluate_rule-IsDue fl e scope (rd.at i) i _ f).1
            (subst (λ t. Due fl e scope rd f t) (sym p) d))
      | inr q ↦ inr (Due-evaluate_from fl e scope rd (suc i) k f j q (omega arith) d)
    ])

-- A pass calls the action callback exactly for the rules of the live ruleset that are due: of the
-- scope's bucket, with every condition met at its reading of the clock, a known action, a relay
-- that is not yet in the wanted state, and a callback that is installed.
pub run_rules-In :
    (fl : Float32) (e : Engine) (scope : EvalScope) (rd : Readings) (f : Fired)
    → In f (run_rules fl e scope rd) ↔ ((i : ℕ) × (i < e.count e.active) × Due fl e scope rd f i)
run_rules-In fl e scope rd f = (
  λ h.
      let (j, le, lt, d) = evaluate_from-Due fl e scope rd 0 (e.count e.active) f h in
      (j, omega arith, d),
  λ p. Due-evaluate_from fl e scope rd 0 (e.count e.active) f p.0 (omega arith) (omega arith) p.2,
)

-- A rule one of whose conditions compares a parameter of a node without a record in use does not
-- fire.
pub evaluate_rule-absent_node :
    (fl : Float32) (e : Engine) (scope : EvalScope) (now : ℕ → ℕ) (i : ℕ) (r : AutomationRule)
    (c : ℕ)
    → c < condition_count r
    → condition_type (condition r c) ≡ cond_parameter
    → (e.node (node_addr (union_u (condition r c)))).in_use ≡ 0
    → evaluate_rule fl e scope now i r ≡ none
unfolding condition_ok parameter_ok
evaluate_rule-absent_node fl e scope now i r c lt t a =
    elim (Option-cases (evaluate_rule fl e scope now i r)) [
      | inl n ↦ n
      | inr (f, s) ↦
          let due = (evaluate_rule-IsDue fl e scope now i r f).0 s in
          absurd (not_met (due.met c lt))
    ]
  where
    not_met : condition_ok fl e (now c) (condition r c) ≡ true → ⊥
    not_met h = ground arith
