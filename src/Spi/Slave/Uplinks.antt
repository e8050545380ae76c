-- ===== src/Spi/Slave/Uplinks.antt =====
-- The drain of the uplink queue when the master clocks at least one attempt for each frame: what
-- reaches the master.
use bramka_setup.Base.{
  ℕ, suc, ◌+◌, ◌≡◌, ◌≢◌, ◌⊎◌, inl, inr, refl, ap, ◌∙◌, arith, Bool, true, Option, none, List, [],
  ◌∷◌, if◌then◌else◌, Bytes, u8,
}
use bramka_setup.Shared.NodeProtocol.{NodeFrame}
use bramka_setup.Comms.Session.{queue_send, nodein_depth}
use bramka_setup.Spi.Frame.{SpiFrame, frame_make_node, spi_frame_node_data}
use bramka_setup.Spi.Slave.{
  Slave, spi_crc16, max_retries, try_transfers, drain_uplinks, slave_iteration,
}
use bramka_setup.Spi.Master.{Master}
use bramka_setup.Spi.Master
use bramka_setup.Spi.Delivery.{route_node_data}
use bramka_setup.Spi.Exchange.{Sized, one_more}

module _ (bus : ℕ → Option Bytes) (k left : ℕ) (s : Slave) where
  heard_now : bus k ≢ none → (try_transfers bus k (suc left) s).0 ≡ true
  unfolding try_transfers
  heard_now h = ground arith

  heard_later :
      (try_transfers bus (suc k) left s).0 ≡ true → (try_transfers bus k (suc left) s).0 ≡ true
  unfolding try_transfers
  heard_later h = ground arith

-- One of the attempts is clocked.
abbrev pub Heard : (ℕ → Option Bytes) → Type 0
Heard bus = (bus 0 ≢ none) ⊎ (bus 1 ≢ none) ⊎ (bus 2 ≢ none)

try_transfers-Heard :
    (bus : ℕ → Option Bytes) (s : Slave) → Heard bus → (try_transfers bus 0 max_retries s).0 ≡ true
try_transfers-Heard bus s (inl h) = heard_now bus 0 2 s h
try_transfers-Heard bus s (inr (inl h)) = heard_later bus 0 2 s (heard_now bus 1 1 s h)
try_transfers-Heard bus s (inr (inr h)) =
    heard_later bus 0 2 s (heard_later bus 1 1 s (heard_now bus 2 0 s h))

-- The master receives the frames that were exchanged, in order.
unfoldable pub master_receives : List (SpiFrame × Bool) → Master → Master
master_receives [] m = m
master_receives ((f, b) ∷ fs) m = master_receives fs (if b then Master.route_rx_frame f m else m)

-- Frames queued for the engine in order.
unfoldable pub input_all : List NodeFrame → List NodeFrame → List NodeFrame
input_all [] q = q
input_all (nf ∷ nfs) q = input_all nfs (queue_send nodein_depth nf q)

drain_uplinks-reaches :
    (bus : ℕ → ℕ → Option Bytes) (i : ℕ) (q : List NodeFrame) (s : Slave) (m : Master)
    → ((j : ℕ) → Heard (bus j))
    → Sized 52 q
    → master_receives (drain_uplinks bus i q s).0 m ≡ record m { node_in = input_all q m.node_in }
unfolding drain_uplinks master_receives input_all
drain_uplinks-reaches bus i [] s m heard h = refl
drain_uplinks-reaches bus i (nf ∷ q) s m heard (one_more _ _ hp h) =
    let s' : Slave = record s { tx_seq = u8 (s.tx_seq + 1) } in
    let s'' : Slave = (try_transfers (bus i) 0 max_retries s').1 in
    let f : SpiFrame = frame_make_node spi_crc16 spi_frame_node_data nf s.tx_seq 0 in
    ap (λ t. master_receives (drain_uplinks bus (suc i) q s'').0 t)
      (ap (λ b. if b then Master.route_rx_frame f m else m)
          (try_transfers-Heard (bus i) s' (heard i))
        ∙ route_node_data nf s.tx_seq 0 m hp)
    ∙ drain_uplinks-reaches bus (suc i) q s''
        (record m { node_in = queue_send nodein_depth nf m.node_in }) heard h

drain_uplinks-empties :
    (bus : ℕ → ℕ → Option Bytes) (i : ℕ) (q : List NodeFrame) (s : Slave)
    → (drain_uplinks bus i q s).1.spi_queue ≡ []
unfolding drain_uplinks
drain_uplinks-empties bus i [] s = refl
drain_uplinks-empties bus i (nf ∷ q) s = drain_uplinks-empties bus (suc i) q _

iteration_drains :
    (initiated : Bool) (bus : ℕ → ℕ → Option Bytes) (s : Slave)
    → s.spi_queue ≢ []
    → slave_iteration initiated bus s ≡ drain_uplinks bus 0 s.spi_queue s
unfolding slave_iteration
iteration_drains initiated bus s ne = ground arith

-- When each frame of the CC1310's uplink queue (of 52 bytes each) has one of its attempts clocked
-- by the master, one iteration of the SPI slave task on a queue that is not empty takes all of
-- them to the engine's input queue in order (as far as it has room), changes nothing else of the
-- master's state, and leaves the uplink queue empty.
pub slave_iteration_delivers :
    (initiated : Bool) (bus : ℕ → ℕ → Option Bytes) (s : Slave) (m : Master)
    → s.spi_queue ≢ []
    → ((j : ℕ) → Heard (bus j))
    → Sized 52 s.spi_queue
    → (master_receives (slave_iteration initiated bus s).0 m
        ≡ record m { node_in = input_all s.spi_queue m.node_in })
      × ((slave_iteration initiated bus s).1.spi_queue ≡ [])
unfolding slave_iteration
slave_iteration_delivers initiated bus s m ne heard h =
    let e = iteration_drains initiated bus s ne in
    (
      ap (λ r. master_receives r.0 m) e ∙ drain_uplinks-reaches bus 0 s.spi_queue s m heard h,
      ap (λ r. r.1.spi_queue) e ∙ drain_uplinks-empties bus 0 s.spi_queue s,
    )
