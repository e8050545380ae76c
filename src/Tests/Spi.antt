-- ===== src/Tests/Spi.antt =====
-- The SPI link's theorems at concrete inputs.
use bramka_setup.Base.{
  ℕ, ◌≡◌, refl, arith, zero, suc, inr, true, false, Option, none, some, [], ◌∷◌, Bytes, replicate,
  inl,
}
use bramka_setup.Shared.NodeProtocol.{PendingCtrl}
use bramka_setup.Concentrator.Pending.{empty}
use bramka_setup.Spi.Master.{Master, Bus, timed_out, post_cmd, spi_iteration}
use bramka_setup.Spi.Master.Release.{IsIdle}
use bramka_setup.Spi.Master.Steps.{at_start, Reach, Step, Reach-IsIdle}
use bramka_setup.Spi.Slave.{Slave, slave_iteration}
use bramka_setup.Spi.Slave.Uplinks.{master_receives, input_all, slave_iteration_delivers}
use bramka_setup.Spi.Exchange.{
  none_left, one_more, answering, receive_all, apply_all, queue_all, spi_iteration_delivers,
}
use bramka_setup.Tests.Data.{chip, pump_frame}
use Reach.{start, after}
use Step.{cmd, iterate}

-- arm REMOVE for the chip
abbrev arm_remove : PendingCtrl
arm_remove = 1 ∷ 6 ∷ chip

abbrev silent : Bus
silent = record { slave_ready = λ k. false; transfer = timed_out }

abbrev posted : Master
posted = record at_start { ctrl_queue = arm_remove ∷ []; out_queue = pump_frame ∷ pump_frame ∷ [] }

abbrev slave : Slave
slave = record { spi_queue = pump_frame ∷ []; radio_queue = []; table = empty; tx_seq = 250 }

Reach-IsIdle_example :
    IsIdle (spi_iteration false (λ i. silent) silent (post_cmd pump_frame at_start).0).1
Reach-IsIdle_example =
    Reach-IsIdle
      (after (after start (cmd pump_frame at_start)) (iterate false (λ i. silent) silent _))

spi_iteration_delivers_example :
    let r = spi_iteration true (λ i. answering (replicate 128 0)) silent posted in
    (receive_all r.0 slave ≡ record slave {
      table = apply_all (arm_remove ∷ []) empty;
      radio_queue = queue_all (pump_frame ∷ pump_frame ∷ []) [];
    })
    × (r.1.ctrl_queue ≡ [])
    × (r.1.out_queue ≡ [])
spi_iteration_delivers_example =
    spi_iteration_delivers true (λ i. replicate 128 0) silent posted slave
      (one_more arm_remove [] refl none_left)
      (one_more pump_frame (pump_frame ∷ []) refl (one_more pump_frame [] refl none_left))

abbrev second_try : ℕ → ℕ → Option Bytes
second_try i zero = none
second_try i (suc k) = some (replicate 128 0)

slave_iteration_delivers_example :
    (master_receives (slave_iteration false second_try slave).0 posted
      ≡ record posted { node_in = input_all (pump_frame ∷ []) [] })
    × ((slave_iteration false second_try slave).1.spi_queue ≡ [])
slave_iteration_delivers_example =
    slave_iteration_delivers false second_try slave posted (λ e. absurd (ground arith))
      (λ j. inr (inl (λ e. absurd (ground arith)))) (one_more pump_frame [] refl none_left)
