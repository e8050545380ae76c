-- ===== src/Rf/Frames.antt =====
-- The layout of an 'E' frame, seen by the code that reads it from a receive buffer.
use bramka_setup.Base.{
  sym, append-nil, suc, ◌<◌, get_or-append_left, ◌-◌, byte, take, drop, slice, take-append_self,
  drop-append_self, get_or-append_right, ◌==◌, ==_self, true, ap₂, refl, ℕ, ◌+◌, ◌≡◌, arith, [],
  ◌∷◌, ◌++◌, Bytes, length, length-append, append_assoc, ap, ◌∙◌,
}
use bramka_setup.Rf.{tag_v2, sealed, checksum, checksum_ok}

-- what the checksum covers: source address, factory id, message bytes, sequence number
abbrev pub body_v2 : ℕ → Bytes → Bytes → ℕ → Bytes
body_v2 src fid m seq = src ∷ fid ++ (m ++ seq ∷ [])

module _ (d src seq : ℕ) (fid m tail : Bytes) (hf : length fid ≡ 8) where
  abbrev pub buffer : Bytes
  buffer = sealed d tag_v2 (body_v2 src fid m seq) ++ tail

  length-body : length (body_v2 src fid m seq) ≡ length m + 10
  length-body = omega (arith, length-append fid (m ++ seq ∷ []), length-append m (seq ∷ []))

  pub length-sealed : length (sealed d tag_v2 (body_v2 src fid m seq)) ≡ length m + 13
  length-sealed = omega (
    arith,
    length-body,
    length-append (body_v2 src fid m seq) (checksum (body_v2 src fid m seq) ∷ []),
  )

  buffer-body :
      buffer ≡ d ∷ tag_v2 ∷ (body_v2 src fid m seq ++ (checksum (body_v2 src fid m seq) ∷ tail))
  buffer-body =
      ap (λ t. d ∷ tag_v2 ∷ t)
        (append_assoc (body_v2 src fid m seq) (checksum (body_v2 src fid m seq) ∷ []) tail)

  buffer-fields :
      buffer ≡ d ∷ tag_v2 ∷ src ∷ (fid ++ (m ++ (seq ∷ checksum (body_v2 src fid m seq) ∷ tail)))
  buffer-fields =
      buffer-body
      ∙ ap (λ t. d ∷ tag_v2 ∷ src ∷ t)
          (append_assoc fid (m ++ seq ∷ []) (checksum (body_v2 src fid m seq) ∷ tail)
            ∙ ap (λ t. fid ++ t)
                (append_assoc m (seq ∷ []) (checksum (body_v2 src fid m seq) ∷ tail)))

  -- The checksum that ends the frame, read at its last byte.
  pub buffer-last : byte buffer (length m + 13 - 1) ≡ checksum (body_v2 src fid m seq)
  buffer-last =
      ap₂ byte {x = buffer} {u = length m + 13 - 1} {v = suc (suc (length m + 10 + 0))} buffer-body
        (omega arith)
      ∙ get_or-append_right (body_v2 src fid m seq) (checksum (body_v2 src fid m seq) ∷ tail)
          (length m + 10) 0 0 length-body

  pub buffer-checksum_ok : checksum_ok (length m + 13) buffer ≡ true
  buffer-checksum_ok =
      ap₂ (λ a b. a == b) buffer-last (ap checksum covered)
      ∙ ==_self (checksum (body_v2 src fid m seq))
    where
      covered : slice 2 (length m + 13 - 3) buffer ≡ body_v2 src fid m seq
      covered =
          ap₂ (λ n t. take n (drop 2 t)) {x = length m + 13 - 3} {y = length m + 10} (omega arith)
            buffer-body
          ∙ take-append_self (length m + 10) (body_v2 src fid m seq)
              (checksum (body_v2 src fid m seq) ∷ tail) length-body

  pub buffer-fid : slice 3 8 buffer ≡ fid
  buffer-fid =
      ap (slice 3 8) buffer-fields
      ∙ take-append_self 8 fid (m ++ (seq ∷ checksum (body_v2 src fid m seq) ∷ tail)) hf

  pub buffer-message : slice 11 (length m + 13 - 13) buffer ≡ m
  buffer-message =
      ap₂ (λ n t. take n (drop 11 t)) {x = length m + 13 - 13} {y = length m} (omega arith)
        buffer-fields
      ∙ ap (take (length m))
          (drop-append_self 8 fid (m ++ (seq ∷ checksum (body_v2 src fid m seq) ∷ tail)) hf)
      ∙ take-append_self (length m) m (seq ∷ checksum (body_v2 src fid m seq) ∷ tail) refl

  -- The i-th byte of the message stands at offset 11 + i.
  pub buffer-byte : (i : ℕ) → i < length m → byte buffer (11 + i) ≡ byte m i
  buffer-byte i h =
      ap₂ byte {x = buffer} {u = 11 + i} {v = suc (suc (suc (8 + i)))} buffer-fields (omega arith)
      ∙ get_or-append_right fid (m ++ (seq ∷ checksum (body_v2 src fid m seq) ∷ tail)) 8 i 0 hf
      ∙ get_or-append_left m (seq ∷ checksum (body_v2 src fid m seq) ∷ tail) i 0 h

pub sealed-last :
    (d src seq : ℕ) (fid m : Bytes)
    → length fid ≡ 8
    → (let f = sealed d tag_v2 (body_v2 src fid m seq) in
        byte f (length f - 1) ≡ checksum (body_v2 src fid m seq))
sealed-last d src seq fid m hf =
    let f : Bytes = sealed d tag_v2 (body_v2 src fid m seq) in
    ap₂ byte {u = length f - 1} {v = length m + 13 - 1} (sym (append-nil f))
      (omega (arith, length-sealed d src seq fid m [] hf))
    ∙ buffer-last d src seq fid m [] hf
