-- ===== src/Comms/System/Slots.antt =====
-- The COMMS state of ipc_rpmsg_echo.c under its operations.
use bramka_setup.Base.{
  ℕ, replicate, zero, suc, ◌≤◌, ◌<◌, ◌≡◌, refl, arith, ap, ◌∙◌, Bool, Bool-cases, inl, inr, true,
  false, ◌&&◌, not, Option, none, some, List, [], ◌∷◌, if◌then◌else◌, Bytes, length, ltb, ◌==◌,
}
use bramka_setup.Shared.Protocol.{max_pending_acks, max_retries}
use bramka_setup.Shared.Automation.{action_addr}
use bramka_setup.Rpmsg.{Effect, report_telemetry, report_rule_fired}
use bramka_setup.Comms.Slots.Retry.{InUse}
use bramka_setup.Comms.Slots.{
  Comms, PendingAck, Link, SendStatus, empty_slot, filled, start, fill_free, next_seq, fresh_slot,
  settle, send_reliable, send_protocol_msg, release, retry_slot, retry_slots, process_event_retries,
}
use bramka_setup.Comms.Session.{Out, OutboxItem, perform, perform_all, glue}
use bramka_setup.Comms.Tasks.{drain_item}
use Effect.{reply, tx_node, tx_ctrl, tx_event}
use OutboxItem.{rule_fired, telemetry}

-- A slot in use: its sequence number is one that was given out, it has been resent at most
-- MAX_RETRIES times, and its payload fits the slot.
pub record IsEntry (p : PendingAck) : Type 0 where
  pub seq_pos : 1 ≤ p.seq
  pub seq_top : p.seq < 65536
  pub retries : p.retry_count ≤ max_retries
  pub fits : length p.payload ≤ 128

abbrev pub AllEntries : List PendingAck → Type 0
AllEntries ps = InUse IsEntry ps

pub record IsComms (c : Comms) : Type 0 where
  pub slots : length c.pending ≡ max_pending_acks
  pub entries : AllEntries c.pending
  pub my_seq_top : c.my_seq < 65536

-- With the same table, another endpoint, and other counters.
pub with_counters :
    (c : Comms) (endpoint their my : ℕ)
    → my < 65536
    → IsComms c
    → IsComms (record c { endpoint = endpoint; their_last_seq = their; my_seq = my })
with_counters c endpoint their my top h = record {
  slots = h.slots;
  entries = h.entries;
  my_seq_top = top;
}

free-AllEntries : (n : ℕ) → AllEntries (replicate n empty_slot)
free-AllEntries zero = tt
free-AllEntries (suc n) = (λ t. absurd (ground arith), free-AllEntries n)

pub start-IsComms : IsComms start
start-IsComms = record {
  slots = refl;
  entries = free-AllEntries max_pending_acks;
  my_seq_top = omega arith;
}

-- What holds of the slots after a filling.
abbrev pub Filled : ℕ → Option (List PendingAck) → Type 0
Filled n none = Unit
Filled n (some qs) = AllEntries qs × (length qs ≡ n)

Filled-cons :
    (p : PendingAck) (n : ℕ) (o : Option (List PendingAck))
    → (p.in_use ≡ true → IsEntry p)
    → Filled n o
    → Filled (suc n) (elim o [ none ↦ none | some qs ↦ some (p ∷ qs) ])
Filled-cons p n none hp h = tt
Filled-cons p n (some qs) hp (h, l) = ((hp, h), ap suc l)

Filled-if :
    (b : Bool) (n : ℕ) (x y : Option (List PendingAck))
    → Filled n x
    → Filled n y
    → Filled n (if b then x else y)
Filled-if true n x y hx hy = hx
Filled-if false n x y hx hy = hy

fill_free-Filled :
    (v : PendingAck) (ps : List PendingAck)
    → (v.in_use ≡ true → IsEntry v)
    → AllEntries ps
    → Filled (length ps) (fill_free v ps)
unfolding fill_free
fill_free-Filled v [] hv h = tt
fill_free-Filled v (p ∷ ps) hv (hp, h) =
    Filled-if p.in_use (suc (length ps)) _ _
      (Filled-cons p (length ps) (fill_free v ps) hp (fill_free-Filled v ps hv h)) ((hv, h), refl)

release-entries :
    (seq : ℕ) (ps : List PendingAck)
    → AllEntries ps
    → AllEntries (release seq ps) × (length (release seq ps) ≡ length ps)
unfolding release
release-entries seq [] h = (tt, refl)
release-entries seq (p ∷ ps) (hp, h) =
    let rest = release-entries seq ps h in
    elim (Bool-cases (p.in_use && p.seq == seq)) [
      | inl y ↦ (ground (arith, h), ground arith)
      | inr n ↦ (ground (arith, hp, rest), ground (arith, rest))
    ]

retry_slot-IsEntry :
    (link : Link) (ep now : ℕ) (p : PendingAck)
    → (p.in_use ≡ true → IsEntry p)
    → (let q = (retry_slot link ep now p).1 in q.in_use ≡ true → IsEntry q)
unfolding retry_slot
retry_slot-IsEntry link ep now p h = ground arith

pub retry_slots-entries :
    (link : Link) (ep now : ℕ) (ps : List PendingAck)
    → AllEntries ps
    → (let qs = (retry_slots link ep now ps).1 in AllEntries qs × (length qs ≡ length ps))
unfolding retry_slots
retry_slots-entries link ep now [] h = (tt, refl)
retry_slots-entries link ep now (p ∷ ps) (hp, h) =
    let rest = retry_slots-entries link ep now ps h in
    ((retry_slot-IsEntry link ep now p hp, rest.0), ap suc rest.1)

-- with a table that keeps its length
with_pending :
    (c : Comms) (my : ℕ) (ps : List PendingAck)
    → my < 65536
    → AllEntries ps × (length ps ≡ length c.pending)
    → IsComms c
    → IsComms (record c { my_seq = my; pending = ps })
with_pending c my ps top (e, l) h = record { slots = l ∙ h.slots; entries = e; my_seq_top = top }

next_seq_top : (s : ℕ) → (1 ≤ next_seq s) × (next_seq s < 65536)
next_seq_top s = (ground arith, ground arith)

filled-IsComms :
    (status : SendStatus) (out : List Bytes) (seq : ℕ) (c : Comms) (o : Option (List PendingAck))
    → seq < 65536
    → Filled (length c.pending) o
    → IsComms c
    → IsComms (filled status out seq c o).2
filled-IsComms status out seq c none top f h = h
filled-IsComms status out seq c (some ps) top f h = with_pending c seq ps top f h

settle-IsComms :
    (bytes : Option Bytes) (v : PendingAck) (c : Comms)
    → IsEntry v
    → IsComms c
    → IsComms (settle bytes v c).2
settle-IsComms none v c hv h =
    let w : PendingAck = record v { in_use = false } in
    filled-IsComms SendStatus.failed [] v.seq c (fill_free w c.pending) hv.seq_top
      (fill_free-Filled w c.pending (λ t. absurd (ground arith)) h.entries) h
settle-IsComms (some bytes) v c hv h =
    filled-IsComms SendStatus.sent (bytes ∷ []) v.seq c (fill_free v c.pending) hv.seq_top
      (fill_free-Filled v c.pending (λ t. hv) h.entries) h

-- Either branch of a test.
if-IsComms :
    (b : Bool) (x y : SendStatus × List Bytes × Comms)
    → (b ≡ true → IsComms x.2)
    → (b ≡ false → IsComms y.2)
    → IsComms (if b then x else y).2
if-IsComms true x y hx hy = hx refl
if-IsComms false x y hx hy = hy refl

send_reliable-IsComms :
    (link : Link) (now type : ℕ) (p : Bytes) (c : Comms)
    → IsComms c
    → IsComms (send_reliable link now type p c).2
unfolding send_reliable
send_reliable-IsComms link now type p c h =
    let seq = next_seq c.my_seq in
    let top = next_seq_top c.my_seq in
    let bytes = send_protocol_msg link c.endpoint type seq (some p) (length p) in
    if-IsComms (c.endpoint == 0) _ _ (λ z. h)
      (λ z.
        if-IsComms (ltb 128 (length p)) _ _ (λ l. h)
          (λ l.
            settle-IsComms bytes (fresh_slot seq type now p) c
              (record {
                seq_pos = top.0;
                seq_top = top.1;
                retries = omega arith;
                fits = ground (arith, l);
              })
              h))

perform-IsComms :
    (link : Link) (now : ℕ) (x : Effect) (c : Comms) → IsComms c → IsComms (perform link now x c).1
unfolding perform
perform-IsComms link now (reply type seq) c h = h
perform-IsComms link now (tx_node frame) c h = h
perform-IsComms link now (tx_ctrl ctrl) c h = h
perform-IsComms link now (tx_event type payload) c h =
    send_reliable-IsComms link now type payload c h

pub perform_all-IsComms :
    (link : Link) (now : ℕ) (xs : List Effect) (c : Comms)
    → IsComms c
    → IsComms (perform_all link now xs c).1
unfolding perform_all
perform_all-IsComms link now [] c h = h
perform_all-IsComms link now (x ∷ xs) c h =
    perform_all-IsComms link now xs _ (perform-IsComms link now x c h)

pub drain_item-IsComms :
    (link : Link) (now : ℕ) (x : OutboxItem) (c : Comms)
    → IsComms c
    → IsComms (drain_item link now x c).1
unfolding drain_item
drain_item-IsComms link now (telemetry frame) c h =
    perform_all-IsComms link now (report_telemetry glue frame) c h
drain_item-IsComms link now (rule_fired frame index action) c h =
    let k = perform_all-IsComms link now (report_rule_fired glue index action) c h in
    either (not (action_addr action == 0)) _ _ k k
  where
    either :
        (b : Bool) (x y : List Out × Comms)
        → IsComms x.1
        → IsComms y.1
        → IsComms (if b then x else y).1
    either true x y hx hy = hx
    either false x y hx hy = hy

pub release-IsComms :
    (seq : ℕ) (c : Comms) → IsComms c → IsComms (record c { pending = release seq c.pending })
release-IsComms seq c h =
    with_pending c c.my_seq _ h.my_seq_top (release-entries seq c.pending h.entries) h

pub process_event_retries-IsComms :
    (link : Link) (now : ℕ) (c : Comms) → IsComms c → IsComms (process_event_retries link now c).1
process_event_retries-IsComms link now c h =
    with_pending c c.my_seq _ h.my_seq_top
      (retry_slots-entries link c.endpoint now c.pending h.entries) h
