-- ===== src/Comms/Loop/Drain.antt =====
-- The RX loop of the COMMS task on the abstract queue of its messages.
use bramka_setup.Base.{
  ℕ, zero, suc, ◌<◌, ◌≡◌, refl, ap, ◌∙◌, sym, arith, true, false, List, [], ◌∷◌, ◌++◌, Bytes,
}
use bramka_setup.Comms.Slots.{Link}
use bramka_setup.Comms.Session.{Core, Out, Outcome, handle_linux_message}
use bramka_setup.Comms.Ring.{has_message, front, advance}
use bramka_setup.Comms.Ring.Queue.{IsRing, used, messages, advance_lem}
use bramka_setup.Comms.Loop.{
  Board, Progress, sending, and_then, handled, handle_front, drain_rx, rx_fuel,
}

-- More output after what an outcome has sent.
abbrev pub sent_first : List Out → Outcome → Outcome
sent_first outs (Outcome.running more k) = Outcome.running (outs ++ more) k
sent_first outs Outcome.crashed = Outcome.crashed
sent_first outs Outcome.hung = Outcome.hung

abbrev pub handled_then : Outcome → (Core → Outcome) → Outcome
handled_then (Outcome.running outs k) f = sent_first outs (f k)
handled_then Outcome.crashed f = Outcome.crashed
handled_then Outcome.hung f = Outcome.hung

-- The messages of a list handled in order, the k-th at the time `clock k`; one that stops the core
-- is the last.
unfoldable pub handle_all : Link → (ℕ → ℕ) → ℕ → List Bytes → Core → Outcome
handle_all link clock k [] c = Outcome.running [] c
handle_all link clock k (m ∷ ms) c =
    handled_then (handle_linux_message link (clock k) m c)
      (λ c'. handle_all link clock (suc k) ms c')

-- The board with an empty ring after an outcome.
abbrev pub emptied : Board → Outcome → Progress
emptied b (Outcome.running outs k) =
    Progress.going outs (record b { core = k; ring = record b.ring { tail = b.ring.head } })
emptied b Outcome.crashed = Progress.crashed
emptied b Outcome.hung = Progress.hung

sending-emptied :
    (b : Board) (k : Core) (outs : List Out) (o : Outcome)
    → sending outs (emptied (record b { core = k; ring = advance b.ring }) o)
      ≡ emptied b (sent_first outs o)
sending-emptied b k outs (Outcome.running more k') = refl
sending-emptied b k outs Outcome.crashed = refl
sending-emptied b k outs Outcome.hung = refl

and_then-emptied :
    (b : Board) (o : Outcome) (f : Board → Progress) (g : Core → Outcome)
    → ((k : Core)
        → f (record b { core = k; ring = advance b.ring })
          ≡ emptied (record b { core = k; ring = advance b.ring }) (g k))
    → and_then (handled o b) f ≡ emptied b (handled_then o g)
and_then-emptied b (Outcome.running outs k) f g h =
    ap (sending outs) (h k) ∙ sending-emptied b k outs (g k)
and_then-emptied b Outcome.crashed f g h = refl
and_then-emptied b Outcome.hung f g h = refl

drain_rx-empty :
    (link : Link) (clock : ℕ → ℕ) (fuel k : ℕ) (b : Board)
    → has_message b.ring ≡ false
    → drain_rx link clock (suc fuel) k b ≡ emptied b (Outcome.running [] b.core)
unfolding drain_rx
drain_rx-empty link clock fuel k b h =
    ground arith
    ∙ ap (λ t. Progress.going [] (record b { ring = record b.ring { tail = t } })) {x = b.ring.tail}
        {y = b.ring.head} (ground arith)

drain_rx-next :
    (link : Link) (clock : ℕ → ℕ) (fuel k : ℕ) (b : Board)
    → has_message b.ring ≡ true
    → drain_rx link clock (suc fuel) k b
      ≡ and_then (handle_front link (clock k) b) (λ b'. drain_rx link clock fuel (suc k) b')
unfolding drain_rx
drain_rx-next link clock fuel k b h = ground arith

-- The loop on a ring with valid indices and more fuel than messages.
drain_rx-used :
    (link : Link) (clock : ℕ → ℕ) (n fuel k : ℕ) (b : Board)
    → IsRing b.ring
    → used b.ring ≡ n
    → n < fuel
    → drain_rx link clock fuel k b ≡ emptied b (handle_all link clock k (messages b.ring) b.core)
unfolding handle_all handle_front
drain_rx-used link clock n zero k b h e lt = absurd (omega arith)
drain_rx-used link clock zero (suc fuel) k b (hh, ht) e lt =
    let empty : has_message b.ring ≡ false = ground arith in
    drain_rx-empty link clock fuel k b empty
    ∙ ap (λ ms. emptied b (handle_all link clock k ms b.core))
        (sym ((advance_lem b.ring (hh, ht)).1 empty))
drain_rx-used link clock (suc n) (suc fuel) k b (hh, ht) e lt =
    let more : has_message b.ring ≡ true = ground arith in
    let (valid, split) = (advance_lem b.ring (hh, ht)).0 more in
    let rest : Core → Board = λ c. record b { core = c; ring = advance b.ring } in
    drain_rx-next link clock fuel k b more
    ∙ and_then-emptied b (handle_linux_message link (clock k) (front b.ring) b.core)
        (λ b'. drain_rx link clock fuel (suc k) b')
        (λ c. handle_all link clock (suc k) (messages (advance b.ring)) c)
        (λ c. drain_rx-used link clock n fuel (suc k) (rest c) valid (omega arith) (omega arith))
    ∙ ap (λ ms. emptied b (handle_all link clock k ms b.core)) (sym split)

-- On a ring with valid indices, into which nothing comes meanwhile, the RX loop comes to an end
-- within its fuel: it handles the messages of the ring, oldest first, each once, and leaves the
-- ring empty, unless one of them stops the core, which then handles none after it.
pub drain_rx_lem :
    (link : Link) (clock : ℕ → ℕ) (b : Board)
    → IsRing b.ring
    → drain_rx link clock rx_fuel 0 b ≡ emptied b (handle_all link clock 0 (messages b.ring) b.core)
drain_rx_lem link clock b h =
    drain_rx-used link clock (used b.ring) rx_fuel 0 b h refl (omega arith)
