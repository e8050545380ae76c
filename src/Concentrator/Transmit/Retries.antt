-- ===== src/Concentrator/Transmit/Retries.antt =====
-- How often the gateway sends a message, over all runs of its queue.
use bramka_setup.Base.{
  ◌≢◌, refl, not, ◌&&◌, leb, byte, ◌-◌, false, true, ◌∙◌, Option-cases, Bool-cases, inl, inr, none,
  u8, ℕ, suc, ◌+◌, ◌-◌, ◌≤◌, ◌≡◌, refl, arith, Bool, true, false, not, ◌&&◌, none, some, List, [],
  ◌∷◌, ◌++◌, Bytes, length, leb, u8, Bool-cases, inl, inr,
}
use bramka_setup.Shared.NodeProtocol.{NodeFrame, frame_msg, msg_length, addr_gateway}
use bramka_setup.Rf.{collect}
use bramka_setup.Concentrator.Transmit.{
  frame_of, Job, Sender, max_retries, frame_of, send_job, drain_queue,
}

-- Every queued message's length field is within the message, and its retry counter within its bound.
abbrev pub AreJobs : List Job → Type 0
AreJobs [] = Unit
AreJobs (j ∷ js) =
    (msg_length (frame_msg j.frame) ≤ 44) × (j.retry_counter ≤ suc max_retries) × AreJobs js

-- the sends that the queued messages have left
abbrev pub sends_left : List Job → ℕ
sends_left [] = 0
sends_left (j ∷ js) = (max_retries + 2 - j.retry_counter) + sends_left js

frame_of-some : (seq : ℕ) (nf : NodeFrame) → msg_length (frame_msg nf) ≤ 44 → frame_of seq nf ≢ none
unfolding frame_of
frame_of-some seq nf h e = ground arith

send_job-total :
    (heard : Bytes → List Bytes) (j : Job) (s : Sender)
    → msg_length (frame_msg j.frame) ≤ 44
    → (f : Bytes) × (a : Bool) × (s' : Sender) × (send_job heard j s ≡ some (f, a, s'))
      × (s'.timer ≡ s.timer)
unfolding send_job
send_job-total heard j s h = elim (Option-cases (frame_of (u8 (s.sequence + 1)) j.frame)) [
  | inl n ↦ absurd (frame_of-some (u8 (s.sequence + 1)) j.frame h n)
  | inr (f, e) ↦
      let r = collect addr_gateway (byte f 0) (byte f (length f - 1)) (heard f) s.rx false in
      (f, r.1, record s { sequence = u8 (s.sequence + 1); rx = r.0 }, ground arith, refl)
]

AreJobs-snoc :
    (js : List Job) (j : Job)
    → AreJobs js
    → msg_length (frame_msg j.frame) ≤ 44
    → j.retry_counter ≤ suc max_retries
    → AreJobs (js ++ j ∷ [])
AreJobs-snoc [] j h a b = (a, b, tt)
AreJobs-snoc (x ∷ js) j (p, q, h) a b = (p, q, AreJobs-snoc js j h a b)

sends_left-snoc :
    (js : List Job) (j : Job)
    → sends_left (js ++ j ∷ []) ≡ sends_left js + (max_retries + 2 - j.retry_counter)
sends_left-snoc [] j = omega arith
sends_left-snoc (x ∷ js) j = omega (arith, sends_left-snoc js j)

-- From queued messages whose length field is at most 44 and whose retry counter is at most
-- MAX_RETRIES + 1, with the retry timer not started, the drain of the queue returns, and its
-- messages are again within these bounds. The frames it sends and the sends the queue has left
-- afterwards (MAX_RETRIES + 2 for each message, less its retry counter) are together at most the
-- sends left before; a queue with a message sends a frame; and when the drain has not started the
-- timer the queue is empty.
pub drain_queue_lem :
    (heard : Bytes → List Bytes) (js : List Job) (s : Sender)
    → AreJobs js
    → s.timer ≡ false
    → (fs : List Bytes) × (s' : Sender) × (drain_queue heard js s ≡ some (fs, s'))
      × AreJobs s'.queue
      × (length fs + sends_left s'.queue ≤ sends_left js)
      × (1 ≤ length js → 1 ≤ length fs)
      × (s'.timer ≡ false → s'.queue ≡ [])
unfolding drain_queue
drain_queue_lem heard [] s h t =
    ([], record s { queue = [] }, refl, tt, omega arith, λ e. omega arith, λ e. refl)
drain_queue_lem heard (j ∷ js) s (hl, hr, h) t =
    let (f, a, s1, e, t1) = send_job-total heard j s hl in
    elim (Bool-cases (not a && leb j.retry_counter max_retries)) [
      | inl again ↦
          let j' : Job = record j { retry_counter = u8 (j.retry_counter + 1) } in
          let bound : j.retry_counter ≤ max_retries = ground arith in
          (
            f ∷ [],
            record s1 { queue = js ++ j' ∷ []; timer = true },
            ground arith,
            AreJobs-snoc js j' h hl (omega arith),
            omega (arith, sends_left-snoc js j'),
            λ n. omega arith,
            λ x. absurd (ground arith),
          )
      | inr done ↦
          let (fs, s2, e2, h2, w, n, d) = drain_queue_lem heard js s1 h (t1 ∙ t) in
          (f ∷ fs, s2, ground arith, h2, omega arith, λ n. omega arith, d)
    ]
