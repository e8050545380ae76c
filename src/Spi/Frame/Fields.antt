-- ===== src/Spi/Frame/Fields.antt =====
-- What a receiver reads from a finalized frame.
use bramka_setup.Base.{
  Bool, ◌&&◌, ◌==◌, ==_self, ap₂, get_or-append_left, ◌/◌, ◌%◌, true, u8, ℕ, zero, suc, ◌≤◌, ◌≡◌,
  refl, ap, ◌∙◌, arith, [], ◌∷◌, ◌++◌, Bytes, byte, take, length, replicate, length-take,
  length-append, length-replicate, take-append_self, get_or-append_right,
}
use bramka_setup.Spi.Frame.{
  frame_finalize, frame_valid, frame_type, frame_len, frame_payload, blank_frame, covered,
  spi_frame_magic, spi_frame_payload_max,
}

pub take-take : (n m : ℕ) (xs : Bytes) → n ≤ m → take n (take m xs) ≡ take n xs
take-take zero m xs h = refl
take-take (suc n) zero xs h = absurd (omega arith)
take-take (suc n) (suc m) [] h = refl
take-take (suc n) (suc m) (x ∷ xs) h = ap (λ t. x ∷ t) (take-take n m xs (omega arith))

-- the payload area for a payload
abbrev pub area : Bytes → Bytes
area p = take spi_frame_payload_max (p ++ replicate spi_frame_payload_max 0)

length-area : (p : Bytes) → length (area p) ≡ 118
length-area p = omega (
  arith,
  length-take 118 (p ++ replicate 118 0),
  length-append p (replicate 118 0),
  length-replicate {A = ℕ} 118 0,
)

-- the payload comes out of its area
pub take-area : (n : ℕ) (p : Bytes) → length p ≡ n → n ≤ 118 → take n (area p) ≡ p
take-area n p h le =
    take-take n 118 (p ++ replicate 118 0) le ∙ take-append_self n p (replicate 118 0) h

header : ℕ → ℕ → ℕ → ℕ → Bytes → Bytes
header type seq pending len p = spi_frame_magic ∷ type ∷ seq ∷ pending ∷ len ∷ 0 ∷ 0 ∷ 0 ∷ area p

covered-blank_frame :
    (type seq pending len : ℕ) (p : Bytes)
    → covered (blank_frame type seq pending len p) ≡ header type seq pending len (take len p)
unfolding header
covered-blank_frame type seq pending len p =
    ap (λ t. spi_frame_magic ∷ type ∷ seq ∷ pending ∷ len ∷ 0 ∷ 0 ∷ 0 ∷ t)
      (take-append_self 118 (area (take len p)) (0 ∷ 0 ∷ []) (length-area (take len p)))

module _ (crc : Bytes → ℕ) (h : Bytes) (hl : length h ≡ 126) (c1 c0 : ℕ) where
  crc_high : byte (h ++ c1 ∷ c0 ∷ []) 126 ≡ c1
  crc_high = get_or-append_right h (c1 ∷ c0 ∷ []) 126 0 0 hl

  crc_low : byte (h ++ c1 ∷ c0 ∷ []) 127 ≡ c0
  crc_low = get_or-append_right h (c1 ∷ c0 ∷ []) 126 1 0 hl

  crc_covered : take 126 (h ++ c1 ∷ c0 ∷ []) ≡ h
  crc_covered = take-append_self 126 h (c1 ∷ c0 ∷ []) hl

and_intro : {a b : Bool} → a ≡ true → b ≡ true → (a && b) ≡ true
and_intro p q = cc

valid-append :
    (crc : Bytes → ℕ) (h : Bytes)
    → length h ≡ 126
    → byte h 0 ≡ spi_frame_magic
    → frame_valid crc (h ++ u8 (crc h / 256) ∷ crc h % 256 ∷ []) ≡ true
unfolding frame_valid
valid-append crc h hl hm =
    let c1 : ℕ = u8 (crc h / 256) in
    let c0 : ℕ = crc h % 256 in
    let low = crc_covered crc h hl c1 c0 in
    and_intro
      (ap (λ x. x == spi_frame_magic) (get_or-append_left h (c1 ∷ c0 ∷ []) 0 0 (omega arith) ∙ hm))
      (and_intro (ap₂ (λ x t. x == u8 (crc t / 256)) (crc_high crc h hl c1 c0) low ∙ ==_self c1)
        (ap₂ (λ x t. x == crc t % 256) (crc_low crc h hl c1 c0) low ∙ ==_self c0))

length-header :
    (type seq pending len : ℕ) (p : Bytes) → length (header type seq pending len p) ≡ 126
unfolding header
length-header type seq pending len p = omega (arith, length-area p)

finalize-header :
    (crc : Bytes → ℕ) (type seq pending len : ℕ) (p : Bytes)
    → let h = header type seq pending len (take len p) in
      frame_finalize crc (blank_frame type seq pending len p)
      ≡ h ++ u8 (crc h / 256) ∷ crc h % 256 ∷ []
unfolding frame_finalize
finalize-header crc type seq pending len p =
    ap (λ h. h ++ u8 (crc h / 256) ∷ crc h % 256 ∷ []) (covered-blank_frame type seq pending len p)

valid-header :
    (crc : Bytes → ℕ) (type seq pending len : ℕ) (p : Bytes)
    → let h = header type seq pending len p in
      frame_valid crc (h ++ u8 (crc h / 256) ∷ crc h % 256 ∷ []) ≡ true
unfolding header
valid-header crc type seq pending len p =
    valid-append crc (header type seq pending len p) (length-header type seq pending len p) refl

-- A finalized frame passes the check with the same CRC routine, and carries its type, length and
-- payload.
pub finalize_fields :
    (crc : Bytes → ℕ) (type seq pending len : ℕ) (p : Bytes)
    → let f = frame_finalize crc (blank_frame type seq pending len p) in
      (frame_valid crc f ≡ true)
      × (frame_type f ≡ type)
      × (frame_len f ≡ len)
      × (frame_payload f ≡ area (take len p))
unfolding header
finalize_fields crc type seq pending len p =
    let e = finalize-header crc type seq pending len p in
    let h : Bytes = header type seq pending len (take len p) in
    let tail : Bytes = u8 (crc h / 256) ∷ crc h % 256 ∷ [] in
    (
      ap (frame_valid crc) e ∙ valid-header crc type seq pending len (take len p),
      ap frame_type e,
      ap frame_len e,
      ap frame_payload e ∙ take-append_self 118 (area (take len p)) tail (length-area (take len p)),
    )
