-- ===== src/Spi/Frame.antt =====
-- Shared/Protocol/spi_frame.h and the frame helpers that spi_master.c and spi_slave_task.c each
-- have: the 128-byte frame as bytes. Each side finalizes and checks with its own CRC routine.
pub mod Fields
use bramka_setup.Base.{
  ℕ, ◌/◌, ◌%◌, Bool, ◌&&◌, [], ◌∷◌, ◌++◌, ◌==◌, Bytes, byte, take, drop, slice, replicate, min, u8,
}

abbrev pub spi_frame_size : ℕ
spi_frame_size = 128

abbrev pub spi_frame_magic : ℕ
spi_frame_magic = 0xa5

abbrev pub spi_frame_payload_max : ℕ
spi_frame_payload_max = 118

abbrev pub spi_frame_crc_offset : ℕ
spi_frame_crc_offset = 126

-- SPI_FRAME_*
abbrev pub spi_frame_nop : ℕ
spi_frame_nop = 0

abbrev pub spi_frame_node_data : ℕ
spi_frame_node_data = 1

abbrev pub spi_frame_node_cmd : ℕ
spi_frame_node_cmd = 2

abbrev pub spi_frame_ctrl : ℕ
spi_frame_ctrl = 4

-- SpiFrame
abbrev pub SpiFrame : Type 0
SpiFrame = Bytes

abbrev pub frame_type : SpiFrame → ℕ
frame_type f = byte f 1

abbrev pub frame_seq : SpiFrame → ℕ
frame_seq f = byte f 2

abbrev pub frame_pending : SpiFrame → ℕ
frame_pending f = byte f 3

abbrev pub frame_len : SpiFrame → ℕ
frame_len f = byte f 4

abbrev pub frame_payload : SpiFrame → Bytes
frame_payload f = slice 8 spi_frame_payload_max f

-- A zeroed frame with its fields and the first `len` payload bytes set, before it is finalized.
abbrev pub blank_frame : ℕ → ℕ → ℕ → ℕ → Bytes → SpiFrame
blank_frame type seq pending len payload =
    (0 ∷ type ∷ seq ∷ pending ∷ len ∷ 0 ∷ 0 ∷ 0 ∷ [])
    ++ take spi_frame_payload_max (take len payload ++ replicate spi_frame_payload_max 0)
    ++ 0 ∷ 0 ∷ []

-- what the CRC covers once the magic byte is set
abbrev pub covered : SpiFrame → Bytes
covered f = spi_frame_magic ∷ drop 1 (take spi_frame_crc_offset f)

-- `frame_finalize`
unfoldable pub frame_finalize : (Bytes → ℕ) → SpiFrame → SpiFrame
frame_finalize crc f = covered f ++ u8 (crc (covered f) / 256) ∷ crc (covered f) % 256 ∷ []

-- `frame_valid`
unfoldable pub frame_valid : (Bytes → ℕ) → SpiFrame → Bool
frame_valid crc f =
    byte f 0 == spi_frame_magic
    && (byte f 126 == u8 (crc (take spi_frame_crc_offset f) / 256)
        && byte f 127 == crc (take spi_frame_crc_offset f) % 256)

-- `frame_make_nop`
unfoldable pub frame_make_nop : (Bytes → ℕ) → SpiFrame
frame_make_nop crc = frame_finalize crc (blank_frame spi_frame_nop 0 0 0 [])

-- `frame_make_node_cmd` of the master, `frame_make_node_data` of the slave: the whole NodeFrame
unfoldable pub frame_make_node : (Bytes → ℕ) → ℕ → Bytes → ℕ → ℕ → SpiFrame
frame_make_node crc type nf seq pending =
    frame_finalize crc (blank_frame type seq pending (min 52 spi_frame_payload_max) nf)

-- `frame_make_ctrl`: the PendingCtrl
unfoldable pub frame_make_ctrl : (Bytes → ℕ) → Bytes → ℕ → ℕ → SpiFrame
frame_make_ctrl crc pc seq pending =
    frame_finalize crc (blank_frame spi_frame_ctrl seq pending 10 pc)
