-- ===== src/Comms/Slots/Retry.antt =====
-- How long a message to Linux stays pending: processEventRetries over a sequence of passes.
use bramka_setup.Base.{
  ◌<◌, ◌*◌, ◌^◌, refl, length-append, ◌&&◌, not, Bool, Bool-cases, inl, inr, ℕ, ◌+◌, ◌-◌, ◌≤◌, ◌≡◌,
  arith, true, List, [], ◌∷◌, ◌++◌, if◌then◌else◌, Bytes, length, Option, none, some,
}
use bramka_setup.Shared.Protocol.{max_retries, ack_timeout_ms}
use bramka_setup.Comms.Slots.{PendingAck, Link, listed, retry_slot, retry_slots, send_protocol_msg}

-- The passes at the given times: what they send, and the slots after them.
unfoldable pub passes : Link → ℕ → List ℕ → List PendingAck → List Bytes × List PendingAck
passes link endpoint [] ps = ([], ps)
passes link endpoint (t ∷ ts) ps =
    let r = retry_slots link endpoint t ps in
    let rest = passes link endpoint ts r.1 in (r.0 ++ rest.0, rest.1)

-- The slots in use satisfy a predicate.
abbrev pub InUse : (PendingAck → Type 0) → List PendingAck → Type 0
InUse P [] = Unit
InUse P (p ∷ ps) = (p.in_use ≡ true → P p) × InUse P ps

-- No slot has been resent more than MAX_RETRIES times.
abbrev pub IsBounded : List PendingAck → Type 0
IsBounded ps = InUse (λ p. p.retry_count ≤ max_retries) ps

-- the retransmissions that the slots in use have left
abbrev pub retries_left : List PendingAck → ℕ
retries_left [] = 0
retries_left (p ∷ ps) = (if p.in_use then max_retries - p.retry_count else 0) + retries_left ps

length-listed : (o : Option Bytes) → length (listed o) ≤ 1
length-listed none = omega arith
length-listed (some b) = omega arith

retry_slot-left :
    (link : Link) (ep t : ℕ) (p : PendingAck)
    → (p.in_use ≡ true → p.retry_count ≤ max_retries)
    → (let r = retry_slot link ep t p in
        ((r.1).in_use ≡ true → (r.1).retry_count ≤ max_retries)
        × (length r.0 + retries_left (r.1 ∷ []) ≤ retries_left (p ∷ [])))
unfolding retry_slot
retry_slot-left link ep t p h =
    let l =
      length-listed
        (send_protocol_msg link ep p.msg_type p.seq (some p.payload) (length p.payload)) in
    (ground arith, ground arith)

retry_slots-left :
    (link : Link) (ep t : ℕ) (ps : List PendingAck)
    → IsBounded ps
    → (let r = retry_slots link ep t ps in
        IsBounded r.1 × (length r.0 + retries_left r.1 ≤ retries_left ps))
unfolding retry_slots
retry_slots-left link ep t [] h = (tt, omega arith)
retry_slots-left link ep t (p ∷ ps) (hp, hps) =
    let one = retry_slot-left link ep t p hp in
    let rest = retry_slots-left link ep t ps hps in
    let r = retry_slot link ep t p in
    let e = length-append r.0 (retry_slots link ep t ps).0 in
    ((one.0, rest.0), omega (arith, one.1, rest.1, e))

-- From slots in use that have been resent at most MAX_RETRIES times, any sequence of retry passes
-- sends, in all, at most the retransmissions that these slots had left (MAX_RETRIES for each, less
-- those made), less what is left at the end, and every slot in use stays within MAX_RETRIES.
passes-left :
    (link : Link) (ep : ℕ) (ts : List ℕ) (ps : List PendingAck)
    → IsBounded ps
    → (let r = passes link ep ts ps in
        IsBounded r.1 × (length r.0 + retries_left r.1 ≤ retries_left ps))
unfolding passes
passes-left link ep [] ps h = (h, omega arith)
passes-left link ep (t ∷ ts) ps h =
    let one = retry_slots-left link ep t ps h in
    let r = retry_slots link ep t ps in
    let rest = passes-left link ep ts r.1 one.0 in
    let e = length-append r.0 (passes link ep ts r.1).0 in (rest.0, omega (arith, one.1, rest.1, e))

-- the ACK timeout in microseconds
abbrev pub ack_timeout_us : ℕ
ack_timeout_us = ack_timeout_ms * 1000

-- The times do not go back, and none comes more than the ACK timeout after the one before, on a
-- 64-bit clock.
abbrev pub IsClose : ℕ → List ℕ → Type 0
IsClose last [] = Unit
IsClose last (t ∷ ts) = (last ≤ t) × (t ≤ last + ack_timeout_us) × (t < 2 ^ 64) × IsClose t ts

-- the last of the times
abbrev pub end_of : ℕ → List ℕ → ℕ
end_of last [] = last
end_of last (t ∷ ts) = end_of t ts

-- Every slot in use was sent at `start` or earlier, and has been resent at most MAX_RETRIES times.
abbrev pub IsSentBy : ℕ → List PendingAck → Type 0
IsSentBy start ps = InUse (λ p. (p.sent_at_us ≤ start) × (p.retry_count ≤ max_retries)) ps

-- At the time `t` a slot that has been resent `retry_count` times was last sent within so many
-- double timeouts of `start`, and waits for at most one timeout more.
abbrev IsTimely : ℕ → ℕ → PendingAck → Type 0
IsTimely start t p =
    (p.sent_at_us ≤ start + p.retry_count * (2 * ack_timeout_us))
    × (p.retry_count ≤ max_retries)
    × (p.sent_at_us ≤ t)
    × (t < start + p.retry_count * (2 * ack_timeout_us) + ack_timeout_us)

retry_slot-IsTimely :
    (link : Link) (ep start t t' : ℕ) (p : PendingAck)
    → t ≤ t'
    → t' ≤ t + ack_timeout_us
    → t' < 2 ^ 64
    → (p.in_use ≡ true → IsTimely start t p)
    → (let q = (retry_slot link ep t' p).1 in q.in_use ≡ true → IsTimely start t' q)
unfolding retry_slot
retry_slot-IsTimely link ep start t t' p order close top h u =
    (ground arith, ground arith, ground arith, ground arith)

retry_slots-IsTimely :
    (link : Link) (ep start t t' : ℕ) (ps : List PendingAck)
    → t ≤ t'
    → t' ≤ t + ack_timeout_us
    → t' < 2 ^ 64
    → InUse (IsTimely start t) ps
    → InUse (IsTimely start t') (retry_slots link ep t' ps).1
unfolding retry_slots
retry_slots-IsTimely link ep start t t' [] order close top h = tt
retry_slots-IsTimely link ep start t t' (p ∷ ps) order close top (hp, hps) = (
  retry_slot-IsTimely link ep start t t' p order close top hp,
  retry_slots-IsTimely link ep start t t' ps order close top hps,
)

passes-IsTimely :
    (link : Link) (ep start t : ℕ) (ts : List ℕ) (ps : List PendingAck)
    → IsClose t ts
    → InUse (IsTimely start t) ps
    → InUse (IsTimely start (end_of t ts)) (passes link ep ts ps).1
unfolding passes
passes-IsTimely link ep start t [] ps c h = h
passes-IsTimely link ep start t (t' ∷ ts) ps (order, close, top, c) h =
    passes-IsTimely link ep start t' ts (retry_slots link ep t' ps).1 c
      (retry_slots-IsTimely link ep start t t' ps order close top h)

IsSentBy-IsTimely :
    (start : ℕ) (ps : List PendingAck) → IsSentBy start ps → InUse (IsTimely start start) ps
IsSentBy-IsTimely start [] h = tt
IsSentBy-IsTimely start (p ∷ ps) (hp, hps) = (
  (λ u. let (s, r) = hp u in (omega (arith, s), r, s, omega arith)),
  IsSentBy-IsTimely start ps hps,
)

abbrev pub none_in_use : List PendingAck → Bool
none_in_use [] = true
none_in_use (p ∷ ps) = not p.in_use && none_in_use ps

none_in_use_lem :
    (start t : ℕ) (ps : List PendingAck)
    → start + (2 * max_retries + 1) * ack_timeout_us ≤ t
    → InUse (IsTimely start t) ps
    → none_in_use ps ≡ true
none_in_use_lem start t [] l h = refl
none_in_use_lem start t (p ∷ ps) l (hp, hps) = elim (Bool-cases p.in_use) [
  | inl u ↦ let (a, r, b, c) = hp u in absurd (omega (arith, l, r, c))
  | inr n ↦ ground (arith, none_in_use_lem start t ps l hps)
]

-- When the slots in use were sent at `start` or earlier and have been resent at most MAX_RETRIES
-- times, retry passes however frequent, none more than the ACK timeout after the one before (the
-- first after `start`) on a 64-bit clock, leave no slot in use once they have gone on for
-- 2 * MAX_RETRIES + 1 ACK timeouts, whether or not the link takes what they send.
pub passes-give_up :
    (link : Link) (ep start : ℕ) (ts : List ℕ) (ps : List PendingAck)
    → IsSentBy start ps
    → IsClose start ts
    → start + (2 * max_retries + 1) * ack_timeout_us ≤ end_of start ts
    → none_in_use (passes link ep ts ps).1 ≡ true
passes-give_up link ep start ts ps h c l =
    none_in_use_lem start (end_of start ts) (passes link ep ts ps).1 l
      (passes-IsTimely link ep start start ts ps c (IsSentBy-IsTimely start ps h))
