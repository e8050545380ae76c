-- ===== src/Comms/Loop/Stops.antt =====
-- What stops the core: the handling of the messages of the ring, in ipc_rpmsg_echo.c.
use bramka_setup.Base.{
  ℕ, suc, ◌≡◌, ◌⊎◌, inl, inr, refl, arith, Bool, true, false, not, ◌&&◌, leb, List, [], ◌∷◌, Bytes,
  if◌then◌else◌, of_branches, ◌==◌,
}
use bramka_setup.Shared.Protocol.{
  Decoded, Message, decode, msg_hello, msg_data, msg_ack, msg_ping, msg_debug_crash, msg_debug_hang,
}
use bramka_setup.Comms.Slots.{Link}
use bramka_setup.Comms.Session.{
  Core, Out, Outcome, is_control, handle_message, handle_linux_message,
}
use bramka_setup.Comms.Loop.Drain.{sent_first, handled_then, handle_all}

-- The bytes are a message of the type.
abbrev pub IsOf : ℕ → Bytes → Type 0
IsOf t bs = (m : Message) × (decode bs ≡ Decoded.ok m) × (m.type ≡ t)

-- One of them is a message of the type.
abbrev pub HasOf : ℕ → List Bytes → Type 0
HasOf t [] = ⊥
HasOf t (bs ∷ rest) = IsOf t bs ⊎ HasOf t rest

-- When the core crashes or hangs, one of the messages asks for that.
abbrev pub IsStop : List Bytes → Outcome → Type 0
IsStop ms (Outcome.running outs k) = Unit
IsStop ms Outcome.crashed = HasOf msg_debug_crash ms
IsStop ms Outcome.hung = HasOf msg_debug_hang ms

-- ... and one message, the message's type.
abbrev IsStopOf : ℕ → Outcome → Type 0
IsStopOf t (Outcome.running outs k) = Unit
IsStopOf t Outcome.crashed = t ≡ msg_debug_crash
IsStopOf t Outcome.hung = t ≡ msg_debug_hang

when :
    (P : Outcome → Type 0) (t : Bool) (x y : Outcome)
    → (t ≡ true → P x)
    → P y
    → P (if t then x else y)
when P true x y hx hy = hx refl
when P false x y hx hy = hy

handle_message-IsStopOf :
    (link : Link) (now : ℕ) (m : Message) (k : Core) → IsStopOf m.type (handle_message link now m k)
unfolding handle_message
handle_message-IsStopOf link now m k =
    let case = of_branches (IsStopOf m.type) in
    case (m.type == msg_hello) _ _ tt (
      case (m.type == msg_data) _ _
        (case (not (k.comms.their_last_seq == 0) && leb m.seq k.comms.their_last_seq) _ _ tt tt)
        (case (m.type == msg_ack) _ _ tt (
          case (m.type == msg_ping) _ _ tt (
            case (is_control m.type) _ _ tt (
              when (IsStopOf m.type) (m.type == msg_debug_crash) _ _ (λ e. ground (arith, e))
                (when (IsStopOf m.type) (m.type == msg_debug_hang) _ _ (λ e. ground (arith, e))
                  tt))))))

handle_linux_message-IsStop :
    (link : Link) (now : ℕ) (bytes : Bytes) (ms : List Bytes) (k : Core)
    → IsStop (bytes ∷ ms) (handle_linux_message link now bytes k)
unfolding handle_linux_message
handle_linux_message-IsStop link now bytes ms k = decoded (decode bytes) refl
  where
    found :
        (m : Message) (o : Outcome)
        → decode bytes ≡ Decoded.ok m
        → IsStopOf m.type o
        → IsStop (bytes ∷ ms) o
    found m (Outcome.running outs k') e h = tt
    found m Outcome.crashed e h = inl (m, e, h)
    found m Outcome.hung e h = inl (m, e, h)

    decoded :
        (d : Decoded)
        → decode bytes ≡ d
        → IsStop (bytes ∷ ms) (elim d [
          | Decoded.err e ↦ Outcome.running [] k
          | Decoded.ok m ↦ handle_message link now m k
        ])
    decoded (Decoded.err n) e = tt
    decoded (Decoded.ok m) e =
        found m (handle_message link now m k) e (handle_message-IsStopOf link now m k)

sent_first-IsStop :
    (b : Bytes) (ms : List Bytes) (outs : List Out) (o : Outcome)
    → IsStop ms o
    → IsStop (b ∷ ms) (sent_first outs o)
sent_first-IsStop b ms outs (Outcome.running more k) h = tt
sent_first-IsStop b ms outs Outcome.crashed h = inr h
sent_first-IsStop b ms outs Outcome.hung h = inr h

handled_then-IsStop :
    (b : Bytes) (ms : List Bytes) (o : Outcome) (f : Core → Outcome)
    → IsStop (b ∷ ms) o
    → ((k : Core) → IsStop ms (f k))
    → IsStop (b ∷ ms) (handled_then o f)
handled_then-IsStop b ms (Outcome.running outs k) f h g = sent_first-IsStop b ms outs (f k) (g k)
handled_then-IsStop b ms Outcome.crashed f h g = h
handled_then-IsStop b ms Outcome.hung f h g = h

pub handle_all-IsStop :
    (link : Link) (clock : ℕ → ℕ) (k : ℕ) (ms : List Bytes) (c : Core)
    → IsStop ms (handle_all link clock k ms c)
unfolding handle_all
handle_all-IsStop link clock k [] c = tt
handle_all-IsStop link clock k (b ∷ ms) c =
    handled_then-IsStop b ms _ (λ c'. handle_all link clock (suc k) ms c')
      (handle_linux_message-IsStop link (clock k) b ms c)
      (λ c'. handle_all-IsStop link clock (suc k) ms c')
