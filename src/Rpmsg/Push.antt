-- ===== src/Rpmsg/Push.antt =====
-- The rule push of the Linux service, message by message, makes the pushed rules live.
use bramka_setup.Base.{
  ℕ, zero, suc, ◌/◌, ◌%◌, ◌^◌, ◌<◌, ◌≡◌, true, Bool, ap, ap₂, ◌∙◌, ◌+◌, ◌≤◌, List, [], ◌∷◌, ◌++◌,
  append-nil, get_or, arith, Bytes, length, take_all,
}
use bramka_setup.Shared.Protocol.{
  msg_ack, msg_rule_begin, msg_rule_item, msg_rule_commit, put_u16_be,
}
use bramka_setup.Shared.Automation.{AutomationRule, max_rules, sizeof_rule}
use bramka_setup.Engine.State.{Engine}
use bramka_setup.Engine.Ruleset.{
  rules_begin, rules_item, rules_commit, crc32_calc, rules_active_count, active_rule,
}
use bramka_setup.Engine.Ruleset.Upload.{concat, send_items, upload, upload_lem}
use bramka_setup.Rpmsg.{Glue, Effect, reply, dispatch, answer, handled}

abbrev pub Sent : Type 0
Sent = ℕ × Bytes

abbrev pub put_u32_be : ℕ → Bytes
put_u32_be v = v / 0x100_0000 ∷ v / 0x1_0000 % 256 ∷ v / 0x100 % 256 ∷ v % 256 ∷ []

abbrev pub items_of : ℕ → List AutomationRule → List Sent
items_of i [] = []
items_of i (r ∷ rs) = (msg_rule_item, put_u16_be i ++ r) ∷ items_of (suc i) rs

-- The messages of one push: RULE_BEGIN, a RULE_ITEM for each rule, RULE_COMMIT.
abbrev pub begin_of : List AutomationRule → Sent
begin_of rs = (msg_rule_begin, put_u16_be (length rs))

abbrev pub commit_of : List AutomationRule → Sent
commit_of rs = (msg_rule_commit, put_u16_be (length rs) ++ put_u32_be (crc32_calc (concat rs)))

-- The messages dispatched one after the other with rising sequence numbers, each at its reading of
-- the clock; the new engine and all effects.
unfoldable pub dispatch_all : Glue → (ℕ → ℕ) → Engine → ℕ → List Sent → Engine × List Effect
dispatch_all g clk e seq [] = (e, [])
dispatch_all g clk e seq ((type, p) ∷ ms) =
    let (ours, e', fx) = dispatch g e (clk seq) type seq p in
    let (e'', fx') = dispatch_all g clk e' (suc seq) ms in (e'', fx ++ fx')

-- MSG_ACK for `k` sequence numbers from `seq` on
unfoldable pub acks : ℕ → ℕ → List Effect
acks seq zero = []
acks seq (suc k) = reply msg_ack seq ∷ acks (suc seq) k

abbrev pub AreRules : List AutomationRule → Type 0
AreRules [] = Unit
AreRules (r ∷ rs) = (length r ≡ sizeof_rule) × AreRules rs

dispatch-begin :
    (g : Glue) (e : Engine) (now seq n : ℕ)
    → n < 65536
    → dispatch g e now msg_rule_begin seq (put_u16_be n) ≡ handled (answer g seq (rules_begin e n))
unfolding dispatch
dispatch-begin g e now seq n h =
    ap (λ k. handled (answer g seq (rules_begin e k))) {y = n} (omega arith)

dispatch-item :
    (g : Glue) (e : Engine) (now seq i : ℕ) (r : AutomationRule)
    → i < 65536
    → length r ≡ sizeof_rule
    → dispatch g e now msg_rule_item seq (put_u16_be i ++ r)
      ≡ handled (answer g seq (rules_item e i r))
unfolding dispatch
dispatch-item g e now seq i r h l =
    rw (l, take_all 196 r (omega arith))
      (ap (λ k. handled (answer g seq (rules_item e k r))) {y = i} (omega arith))

dispatch-commit :
    (g : Glue) (e : Engine) (now seq n crc : ℕ)
    → n < 65536
    → crc < 2 ^ 32
    → dispatch g e now msg_rule_commit seq (put_u16_be n ++ put_u32_be crc)
      ≡ handled (answer g seq (rules_commit e n crc))
unfolding dispatch
dispatch-commit g e now seq n crc h c =
    ap₂ (λ k d. handled (answer g seq (rules_commit e k d))) {y = n} {v = crc} (omega arith)
      (omega arith)

after_acks : ℕ → ℕ → Engine × List Effect → Engine × List Effect
after_acks seq k (e, fx) = (e, acks seq k ++ fx)

dispatch_all-ack :
    (g : Glue) (clk : ℕ → ℕ) (e : Engine) (seq type : ℕ) (p : Bytes) (ms : List Sent)
    (r : Engine × Bool)
    → g.has_reply ≡ true
    → dispatch g e (clk seq) type seq p ≡ handled (answer g seq r)
    → r.1 ≡ true
    → dispatch_all g clk e seq ((type, p) ∷ ms)
      ≡ after_acks seq 1 (dispatch_all g clk r.0 (suc seq) ms)
unfolding dispatch_all acks after_acks
dispatch_all-ack g clk e seq type p ms r hr h ok = rw (h, ok) (simp hr)

dispatch_all-items :
    (g : Glue) (clk : ℕ → ℕ) (rs : List AutomationRule) (e : Engine) (seq i : ℕ) (ms : List Sent)
    → g.has_reply ≡ true
    → AreRules rs
    → i + length rs ≤ 65536
    → (send_items e i rs).1 ≡ true
    → dispatch_all g clk e seq (items_of i rs ++ ms)
      ≡ after_acks seq (length rs) (dispatch_all g clk (send_items e i rs).0 (seq + length rs) ms)
unfolding send_items after_acks acks
dispatch_all-items g clk [] e seq i ms hr v le ok =
    ap (λ k. dispatch_all g clk e k ms) {y = seq + 0} (omega arith)
dispatch_all-items g clk (r ∷ rs) e seq i ms hr v le ok =
    let first : (rules_item e i r).1 ≡ true = ground arith in
    let rest : (send_items (rules_item e i r).0 (suc i) rs).1 ≡ true = ground arith in
    dispatch_all-ack g clk e seq msg_rule_item (put_u16_be i ++ r) (items_of (suc i) rs ++ ms)
      (rules_item e i r) hr (dispatch-item g e (clk seq) seq i r (omega arith) v.0) first
    ∙ ap (after_acks seq 1) (
        dispatch_all-items g clk rs (rules_item e i r).0 (suc seq) (suc i) ms hr v.1 (omega arith)
          rest)
    ∙ ap
        (λ t.
          after_acks seq (suc (length rs))
            (dispatch_all g clk (send_items (rules_item e i r).0 (suc i) rs).0 t ms))
        {x = suc seq + length rs} {y = seq + suc (length rs)} (omega arith)

crc32_calc-lt : (p : Bytes) → crc32_calc p < 2 ^ 32
unfolding crc32_calc
crc32_calc-lt p = omega arith

acks-append : (seq j k : ℕ) → acks seq j ++ acks (seq + j) k ≡ acks seq (j + k)
unfolding acks
acks-append seq zero k = ap₂ acks {y = seq} {v = 0 + k} (omega arith) (omega arith)
acks-append seq (suc j) k =
    ap (λ t. reply msg_ack seq ∷ t)
      (ap (λ t. acks (suc seq) j ++ acks t k) {y = suc seq + j} (omega arith)
        ∙ acks-append (suc seq) j k)
    ∙ ap (acks seq) {x = suc (j + k)} {y = suc j + k} (omega arith)

-- The messages of one push: RULE_BEGIN, a RULE_ITEM for each rule in order, RULE_COMMIT.
abbrev pub push_of : List AutomationRule → List Sent
push_of rs = begin_of rs ∷ (items_of 0 rs ++ commit_of rs ∷ [])

dispatch_all-push :
    (g : Glue) (clk : ℕ → ℕ) (e : Engine) (seq : ℕ) (rs : List AutomationRule)
    → g.has_reply ≡ true
    → AreRules rs
    → length rs ≤ max_rules
    → dispatch_all g clk e seq (push_of rs)
      ≡ after_acks seq 1 (
          after_acks
            (suc seq)
            (length rs)
            (after_acks (suc seq + length rs) 1 ((upload e rs).0, [])))
unfolding upload dispatch_all
dispatch_all-push g clk e seq rs hr v le =
    let ok = (upload_lem e rs le).0 in
    let n = length rs in
    let e1 = (rules_begin e n).0 in
    let e2 = (send_items e1 0 rs).0 in
    let crc = crc32_calc (concat rs) in
    dispatch_all-ack g clk e seq msg_rule_begin (put_u16_be n) (items_of 0 rs ++ commit_of rs ∷ [])
      (rules_begin e n) hr (dispatch-begin g e (clk seq) seq n (omega arith)) (ground arith)
    ∙ ap (after_acks seq 1) (
        dispatch_all-items g clk rs e1 (suc seq) 0 (commit_of rs ∷ []) hr v (omega arith)
          (ground arith)
        ∙ ap (after_acks (suc seq) n) (
            dispatch_all-ack g clk e2 (suc seq + n) msg_rule_commit (put_u16_be n ++ put_u32_be crc)
              [] (rules_commit e2 n crc) hr
              (dispatch-commit g e2 (clk (suc seq + n)) (suc seq + n) n crc (omega arith)
                (crc32_calc-lt (concat rs)))
              (ground arith)))

-- With a reply callback, pushing at most 100 rules of 196 bytes each, whatever was pushed before,
-- answers MSG_ACK to every message in order, and makes exactly those rules live, in order.
pub push_lem :
    (g : Glue) (clk : ℕ → ℕ) (e : Engine) (seq : ℕ) (rs : List AutomationRule)
    → g.has_reply ≡ true
    → AreRules rs
    → length rs ≤ max_rules
    → let (e', fx) = dispatch_all g clk e seq (push_of rs) in
      (fx ≡ acks seq (1 + (length rs + 1)))
      × (rules_active_count e' ≡ length rs)
      × ((i : ℕ) → i < length rs → active_rule e' i ≡ get_or rs i [])
unfolding after_acks
push_lem g clk e seq rs hr v le =
    let h = dispatch_all-push g clk e seq rs hr v le in
    let (ok, count, off, live) = upload_lem e rs le in
    let n = length rs in
    (
      ap (λ t. t.1) h
          ∙ ap (λ t. acks seq 1 ++ t)
              (ap (λ t. acks (suc seq) n ++ t) (append-nil (acks (suc seq + n) 1))
                ∙ acks-append (suc seq) n 1)
          ∙ (ap (λ t. acks seq 1 ++ acks t (n + 1)) {x = suc seq} {y = seq + 1} (omega arith)
              ∙ acks-append seq 1 (n + 1)),
      ap (λ t. rules_active_count t.0) h ∙ count,
      λ i lt. ap (λ t. active_rule t.0 i) h ∙ live i lt,
    )
