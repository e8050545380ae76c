-- ===== src/Engine/Ruleset/Atomic.antt =====
-- The live ruleset of engine.c changes in one step, at a commit that succeeds.
use bramka_setup.Base.{
  ℕ, zero, suc, ◌-◌, ◌≤◌, ◌<◌, ◌≡◌, refl, true, false, Bool, none, arith, bit_xor, u8, ◌==◌, ◌&&◌,
  ◌||◌, List, [], ◌∷◌, ◌∙◌,
}
use bramka_setup.Shared.Automation.{AutomationRule, max_rules}
use bramka_setup.Engine.State.{Engine, init}
use bramka_setup.Engine.Ruleset.{
  rules_begin, rules_item, rules_commit, rules_active_count, active_rule, crc32_calc, rules_bytes,
}

-- The slots are the two of the double buffer, a build goes into the slot that is not live, and no
-- count passes the array.
pub record IsConsistent (e : Engine) : Type 0 where
  pub active_slot : e.active < 2
  pub apart : e.building ≡ true → e.shadow ≡ 1 - e.active
  pub expected_le : e.shadow_expected ≤ max_rules
  pub count_le : e.count e.active ≤ max_rules

other_slot : (a : ℕ) → a < 2 → u8 (bit_xor a 1) ≡ 1 - a
other_slot zero h = refl
other_slot (suc zero) h = refl
other_slot (suc (suc a)) h = absurd (omega arith)

-- An initialised engine is consistent.
pub init-IsConsistent : (sink clock : Bool) (e : Engine) → IsConsistent (init sink clock e)
unfolding init
init-IsConsistent sink clock e = ground arith

pub rules_begin-IsConsistent :
    (e : Engine) (count : ℕ) → IsConsistent e → IsConsistent (rules_begin e count).0
unfolding rules_begin
rules_begin-IsConsistent e count v = ground (arith, other_slot e.active v.active_slot)

pub rules_item-IsConsistent :
    (e : Engine) (index : ℕ) (rule : AutomationRule)
    → IsConsistent e
    → IsConsistent (rules_item e index rule).0
unfolding rules_item
rules_item-IsConsistent e index rule v = ground arith

pub rules_commit-IsConsistent :
    (e : Engine) (expected crc : ℕ) → IsConsistent e → IsConsistent (rules_commit e expected crc).0
unfolding rules_commit
rules_commit-IsConsistent e expected crc v = ground arith

-- The evaluator sees the same rules in both states.
pub record SameLive (e e' : Engine) : Type 0 where
  pub same_active : e'.active ≡ e.active
  pub same_count : e'.count e'.active ≡ e.count e.active
  pub same_rules : (i : ℕ) → active_rule e' i ≡ active_rule e i

-- `engine_rules_begin` leaves the live ruleset alone.
pub rules_begin-SameLive : (e : Engine) (count : ℕ) → SameLive e (rules_begin e count).0
unfolding rules_begin
rules_begin-SameLive e count = record {
  same_active = ground arith;
  same_count = ground arith;
  same_rules = λ i. ground arith;
}

-- `engine_rules_item` leaves the live ruleset alone.
pub rules_item-SameLive :
    (e : Engine) (index : ℕ) (rule : AutomationRule)
    → IsConsistent e
    → SameLive e (rules_item e index rule).0
unfolding rules_item
rules_item-SameLive e index rule v = record {
  same_active = ground arith;
  same_count = ground arith;
  same_rules = λ i. ground arith;
}

-- A commit that returns false leaves the live ruleset alone.
pub rules_commit-SameLive :
    (e : Engine) (expected crc : ℕ)
    → (rules_commit e expected crc).1 ≡ false
    → SameLive e (rules_commit e expected crc).0
unfolding rules_commit
rules_commit-SameLive e expected crc h = record {
  same_active = ground arith;
  same_count = ground arith;
  same_rules = λ i. ground arith;
}

-- A commit returns true exactly if a build is under way, the announced and the filled number are
-- the expected one, and the checksum of the shadow rules is the given one.
pub rules_commit_accepts :
    (e : Engine) (expected crc : ℕ)
    → (rules_commit e expected crc).1 ≡ (
        e.building
        && (expected == e.shadow_expected
            && (e.shadow_filled == expected
                && crc32_calc (rules_bytes (e.rules e.shadow) 0 expected) == crc)))
unfolding rules_commit
rules_commit_accepts e expected crc = ground arith

-- After any commit no build is under way; after one that returns true the live ruleset is the
-- shadow with the expected count, and the minute dedup is reset.
pub rules_commit_swaps :
    (e : Engine) (expected crc : ℕ)
    → let (e', ok) = rules_commit e expected crc in
      (e'.building ≡ false)
      × (ok ≡ true
          → (e'.active ≡ e.shadow)
            × (rules_active_count e' ≡ expected)
            × ((i : ℕ) → active_rule e' i ≡ e.rules e.shadow i)
            × (e'.last_time_min ≡ none))
unfolding rules_commit rules_active_count
rules_commit_swaps e expected crc =
    (ground arith, λ h. (ground arith, ground arith, λ i. ground arith, ground arith))

-- The calls of the upload interface, in any order and with any arguments.
pub data UploadCall : Type 0 where
  begin : ℕ → UploadCall
  item : ℕ → AutomationRule → UploadCall
  commit : ℕ → ℕ → UploadCall

unfoldable pub call : Engine → UploadCall → Engine × Bool
call e (begin count) = rules_begin e count
call e (item index rule) = rules_item e index rule
call e (commit expected crc) = rules_commit e expected crc

abbrev pub is_commit : UploadCall → Bool
is_commit (commit expected crc) = true
is_commit _ = false

-- the state after the calls, and whether one of the commits returned true
unfoldable pub run_calls : Engine → List UploadCall → Engine × Bool
run_calls e [] = (e, false)
run_calls e (c ∷ cs) =
    let (e', ok) = call e c in
    let (e'', swapped) = run_calls e' cs in (e'', (is_commit c && ok) || swapped)

call-IsConsistent : (e : Engine) (c : UploadCall) → IsConsistent e → IsConsistent (call e c).0
unfolding call
call-IsConsistent e (begin count) v = rules_begin-IsConsistent e count v
call-IsConsistent e (item index rule) v = rules_item-IsConsistent e index rule v
call-IsConsistent e (commit expected crc) v = rules_commit-IsConsistent e expected crc v

-- Every sequence of upload calls leaves a consistent engine consistent.
pub run_calls-IsConsistent :
    (e : Engine) (cs : List UploadCall) → IsConsistent e → IsConsistent (run_calls e cs).0
unfolding run_calls
run_calls-IsConsistent e [] v = v
run_calls-IsConsistent e (c ∷ cs) v =
    run_calls-IsConsistent (call e c).0 cs (call-IsConsistent e c v)

call-SameLive :
    (e : Engine) (c : UploadCall)
    → IsConsistent e
    → (is_commit c && (call e c).1) ≡ false
    → SameLive e (call e c).0
unfolding call
call-SameLive e (begin count) v h = rules_begin-SameLive e count
call-SameLive e (item index rule) v h = rules_item-SameLive e index rule v
call-SameLive e (commit expected crc) v h = rules_commit-SameLive e expected crc h

SameLive-trans : {e f g : Engine} → SameLive e f → SameLive f g → SameLive e g
SameLive-trans p q = record {
  same_active = q.same_active ∙ p.same_active;
  same_count = q.same_count ∙ p.same_count;
  same_rules = λ i. q.same_rules i ∙ p.same_rules i;
}

-- From a consistent engine, a sequence of upload calls in which no commit returns true leaves the
-- rules that the evaluator sees as they were.
pub run_calls-SameLive :
    (e : Engine) (cs : List UploadCall)
    → IsConsistent e
    → (run_calls e cs).1 ≡ false
    → SameLive e (run_calls e cs).0
unfolding run_calls
run_calls-SameLive e [] v h = record {
  same_active = refl;
  same_count = refl;
  same_rules = λ i. refl;
}
run_calls-SameLive e (c ∷ cs) v h =
    SameLive-trans (call-SameLive e c v (ground arith))
      (run_calls-SameLive (call e c).0 cs (call-IsConsistent e c v) (ground arith))
