-- ===== src/Spi/Slave/Crc.antt =====
-- The slave's CRC routine and the master's give the same values.
use bramka_setup.Base.{fun_ext, ◌*◌, ℕ, zero, suc, ◌≡◌, refl, ap, ◌∙◌, [], ◌∷◌, Bytes, u16, bit_xor}
use bramka_setup.Shared.Protocol.{crc16, crc16_loop, crc16_round, crc16_rounds}
use bramka_setup.Spi.Frame.{frame_valid}
use bramka_setup.Spi.Slave.{spi_round, spi_rounds, spi_crc_from, spi_crc16}

spi_round-crc16_round : (c : ℕ) → spi_round c ≡ crc16_round c
unfolding spi_round crc16_round
spi_round-crc16_round c = refl

spi_rounds-crc16_rounds : (b c : ℕ) → spi_rounds b c ≡ crc16_rounds b c
unfolding spi_rounds crc16_rounds
spi_rounds-crc16_rounds zero c = refl
spi_rounds-crc16_rounds (suc b) c =
    ap (spi_rounds b) (spi_round-crc16_round c) ∙ spi_rounds-crc16_rounds b (crc16_round c)

spi_crc_from-crc16_loop : (xs : Bytes) (c : ℕ) → spi_crc_from c xs ≡ crc16_loop c xs
unfolding spi_crc_from crc16_loop
spi_crc_from-crc16_loop [] c = refl
spi_crc_from-crc16_loop (x ∷ xs) c =
    let d : ℕ = u16 (bit_xor c (x * 256)) in
    ap (λ e. spi_crc_from e xs) (spi_rounds-crc16_rounds 8 d)
    ∙ spi_crc_from-crc16_loop xs (crc16_rounds 8 d)

-- The CRC routine of the slave gives the same value as the master's on every byte string.
pub spi_crc16-crc16 : (xs : Bytes) → spi_crc16 xs ≡ crc16 xs
unfolding spi_crc16 crc16
spi_crc16-crc16 xs = spi_crc_from-crc16_loop xs 0xffff

-- A frame that passes the check of one side passes that of the other.
pub frame_valid-sides : (f : Bytes) → frame_valid spi_crc16 f ≡ frame_valid crc16 f
frame_valid-sides f = ap (λ crc. frame_valid crc f) (fun_ext spi_crc16-crc16)
