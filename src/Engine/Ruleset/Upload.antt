-- ===== src/Engine/Ruleset/Upload.antt =====
-- A whole upload: begin, the items in order, commit.
use bramka_setup.Base.{
  ℕ, zero, suc, ◌+◌, ◌≤◌, ◌<◌, ◌≡◌, refl, ap, ◌∙◌, true, false, Bool, arith, ◌&&◌, List, [], ◌∷◌,
  ◌++◌, length, get_or, Bytes, if◌then◌else◌, u8, bit_xor, ◌==◌,
}
use mathlib.Core.Path.{subst}
use bramka_setup.Shared.Automation.{AutomationRule, max_rules}
use bramka_setup.Engine.State.{Engine}
use bramka_setup.Engine.Ruleset.{
  rules_begin, rules_item, rules_commit, rules_active_count, active_rule, crc32_calc, rules_bytes,
}

-- The bytes of a list of rules, one after the other.
unfoldable pub concat : List AutomationRule → Bytes
concat [] = []
concat (r ∷ rs) = r ++ concat rs

-- `engine_rules_item` for each rule, at rising indices; the state and whether all returned true.
unfoldable pub send_items : Engine → ℕ → List AutomationRule → Engine × Bool
send_items e i [] = (e, true)
send_items e i (r ∷ rs) =
    let (e', ok) = rules_item e i r in let (e'', oks) = send_items e' (suc i) rs in (e'', ok && oks)

-- An upload of the rules with the checksum of their bytes, as the Linux service makes it.
unfoldable pub upload : Engine → List AutomationRule → Engine × Bool
upload e rs =
    let (e1, ok1) = rules_begin e (length rs) in
    let (e2, ok2) = send_items e1 0 rs in
    let (e3, ok3) = rules_commit e2 (length rs) (crc32_calc (concat rs)) in
    (e3, ok1 && (ok2 && ok3))

-- a build of `n` rules of which the first `i` have arrived
record Building (e : Engine) (shadow n i : ℕ) : Type 0 where
  on : e.building ≡ true
  slot : e.shadow ≡ shadow
  expected : e.shadow_expected ≡ n
  filled : e.shadow_filled ≡ i

rules_item-Building :
    (e : Engine) (shadow n i : ℕ) (r : AutomationRule)
    → Building e shadow n i
    → i < n
    → n ≤ max_rules
    → ((rules_item e i r).1 ≡ true)
      × Building (rules_item e i r).0 shadow n (suc i)
      × ((j : ℕ) → (rules_item e i r).0.rules shadow j ≡ (if j == i then r else e.rules shadow j))
unfolding rules_item
rules_item-Building e shadow n i r b lt le = (
  ground (arith, b.on, b.expected),
  record {
    on = ground (arith, b.on, b.expected);
    slot = ground (arith, b.on, b.expected, b.slot);
    expected = ground (arith, b.on, b.expected);
    filled = ground (arith, b.on, b.expected, b.filled);
  },
  λ j. ground (arith, b.on, b.expected, b.slot),
)

-- `f` holds the rules of the list from index `i` on.
Holds : (ℕ → AutomationRule) → ℕ → List AutomationRule → Type 0
Holds f i rs = (k : ℕ) → k < length rs → f (i + k) ≡ get_or rs k []

Holds-cons :
    (f : ℕ → AutomationRule) (i : ℕ) (r : AutomationRule) (rs : List AutomationRule)
    → f i ≡ r
    → Holds f (suc i) rs
    → Holds f i (r ∷ rs)
unfolding Holds
Holds-cons f i r rs p h zero lt = ap f {y = i} (omega arith) ∙ p
Holds-cons f i r rs p h (suc k) lt = ap f {y = suc i + k} (omega arith) ∙ h k (omega arith)

Holds-tail :
    (f : ℕ → AutomationRule) (i : ℕ) (r : AutomationRule) (rs : List AutomationRule)
    → Holds f i (r ∷ rs)
    → (f i ≡ r) × Holds f (suc i) rs
unfolding Holds
Holds-tail f i r rs h = (
  ap f {y = i + 0} (omega arith) ∙ h 0 (omega arith),
  λ k lt. ap f {y = i + suc k} (omega arith) ∙ h (suc k) (omega arith),
)

send_items-Building :
    (rs : List AutomationRule) (e : Engine) (shadow n i : ℕ)
    → Building e shadow n i
    → i + length rs ≤ n
    → n ≤ max_rules
    → ((send_items e i rs).1 ≡ true)
      × Building (send_items e i rs).0 shadow n (i + length rs)
      × ((j : ℕ) → j < i → (send_items e i rs).0.rules shadow j ≡ e.rules shadow j)
      × Holds ((send_items e i rs).0.rules shadow) i rs
unfolding send_items Holds
send_items-Building [] e shadow n i b le ln =
    (refl, subst (Building e shadow n) (omega arith) b, λ j h. refl, λ k h. absurd (omega arith))
send_items-Building (r ∷ rs) e shadow n i b le ln =
    let (ok, b', put) = rules_item-Building e shadow n i r b (omega arith) ln in
    let e' = (rules_item e i r).0 in
    let (oks, b'', low, high) = send_items-Building rs e' shadow n (suc i) b' (omega arith) ln in
    (
      rw (ok, oks) refl,
      subst (Building (send_items e' (suc i) rs).0 shadow n) (omega arith) b'',
      λ j h. low j (omega arith) ∙ (put j ∙ ground arith),
      Holds-cons ((send_items e' (suc i) rs).0.rules shadow) i r rs
          (low i (omega arith) ∙ (put i ∙ ground arith)) high,
    )

rules_bytes-concat :
    (f : ℕ → AutomationRule) (i : ℕ) (rs : List AutomationRule)
    → Holds f i rs
    → rules_bytes f i (length rs) ≡ concat rs
unfolding rules_bytes concat
rules_bytes-concat f i [] h = refl
rules_bytes-concat f i (r ∷ rs) h =
    let (p, q) = Holds-tail f i r rs h in rw (p, rules_bytes-concat f (suc i) rs q)

rules_begin-Building :
    (e : Engine) (n : ℕ)
    → n ≤ max_rules
    → ((rules_begin e n).1 ≡ true) × Building (rules_begin e n).0 (u8 (bit_xor e.active 1)) n 0
unfolding rules_begin
rules_begin-Building e n le = (
  ground arith,
  record { on = ground arith; slot = ground arith; expected = ground arith; filled = ground arith },
)

rules_commit-building :
    (e : Engine) (shadow n : ℕ) (rs : List AutomationRule)
    → length rs ≡ n
    → Building e shadow n n
    → Holds (e.rules shadow) 0 rs
    → let (e', ok) = rules_commit e n (crc32_calc (concat rs)) in
      (ok ≡ true)
      × (rules_active_count e' ≡ n)
      × (e'.building ≡ false)
      × ((i : ℕ) → active_rule e' i ≡ e.rules shadow i)
unfolding rules_commit rules_active_count
rules_commit-building e shadow n rs len b h =
    let bytes : rules_bytes (e.rules e.shadow) 0 n ≡ concat rs =
      rw (b.slot, ← len) (rules_bytes-concat (e.rules shadow) 0 rs h) in
    (
      ground (arith, b.on, b.expected, b.filled, b.slot, bytes),
      ground (arith, b.on, b.expected, b.filled, b.slot, bytes),
      ground (arith, b.on, b.expected, b.filled, b.slot, bytes),
      λ i. ground (arith, b.on, b.expected, b.filled, b.slot, bytes),
    )

-- Whatever the state of the engine, an upload of at most 100 rules is accepted at every step, and
-- makes exactly those rules live, in order.
pub upload_lem :
    (e : Engine) (rs : List AutomationRule)
    → length rs ≤ max_rules
    → let (e', ok) = upload e rs in
      (ok ≡ true)
      × (rules_active_count e' ≡ length rs)
      × (e'.building ≡ false)
      × ((i : ℕ) → i < length rs → active_rule e' i ≡ get_or rs i [])
unfolding upload Holds
upload_lem e rs le =
    let n = length rs in
    let slot = u8 (bit_xor e.active 1) in
    let (ok1, b1) = rules_begin-Building e n le in
    let e1 = (rules_begin e n).0 in
    let (ok2, b2, low, holds) = send_items-Building rs e1 slot n 0 b1 (omega arith) le in
    let e2 = (send_items e1 0 rs).0 in
    let b2' = subst (Building e2 slot n) {y = n} (omega arith) b2 in
    let (ok3, count, off, live) = rules_commit-building e2 slot n rs refl b2' holds in
    (
      rw (ok1, ok2, ok3) refl,
      count,
      off,
      λ i lt. live i ∙ (ap (e2.rules slot) {y = 0 + i} (omega arith) ∙ holds i lt),
    )
