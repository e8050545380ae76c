-- ===== src/Comms/Ring.antt =====
-- ipc_rpmsg_echo.c, the receive ring between linuxMsgCallback and the COMMS task.
pub mod Queue
use bramka_setup.Base.{
  ℕ, ◌+◌, ◌-◌, ◌%◌, Bool, not, Option, none, some, [], if◌then◌else◌, Bytes, take, ◌==◌,
}

abbrev pub rx_ring_slots : ℕ
rx_ring_slots = 4

-- MAX_MSG_SIZE of ipc_rpmsg_echo.c
abbrev pub max_msg_size : ℕ
max_msg_size = 256

-- gRxRing, gRxHead, gRxTail; a slot's dataLen is the length of its data
pub record Ring : Type 0 where
  pub slot : ℕ → Bytes
  pub head : ℕ
  pub tail : ℕ

abbrev pub next_index : ℕ → ℕ
next_index i = (i + 1) % rx_ring_slots

abbrev pub empty : Ring
empty = record { slot = λ _. []; head = 0; tail = 0 }

-- `linuxMsgCallback`: the ring and the new endpoint; none when the message is dropped
unfoldable pub linux_msg_callback : Bytes → ℕ → Ring → Option (Ring × ℕ)
linux_msg_callback bytes remote r =
    if next_index r.head == r.tail
    then none
    else some (
      record r {
        slot = λ j. if j == r.head then take (max_msg_size - 1) bytes else r.slot j;
        head = next_index r.head;
      },
      remote,
    )

-- the COMMS loop's test, the message it handles, and its advance of gRxTail
abbrev pub has_message : Ring → Bool
has_message r = not (r.tail == r.head)

abbrev pub front : Ring → Bytes
front r = r.slot r.tail

abbrev pub advance : Ring → Ring
advance r = record r { tail = next_index r.tail }
