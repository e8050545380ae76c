-- ===== src/Rf/Equality.antt =====
-- `memcmp` as a decision of equality.
use bramka_setup.Base.{
  ◌≡◌, ◌≢◌, refl, true, false, [], ◌∷◌, arith, Bytes, ap₂, Bool-cases, inl, inr,
}
use bramka_setup.Rf.{bytes_eq}

pub bytes_eq_self : (a : Bytes) → bytes_eq a a ≡ true
unfolding bytes_eq
bytes_eq_self [] = refl
bytes_eq_self (x ∷ xs) = ground (arith, bytes_eq_self xs)

pub bytes_eq_sound : (a b : Bytes) → bytes_eq a b ≡ true → a ≡ b
unfolding bytes_eq
bytes_eq_sound [] [] h = refl
bytes_eq_sound [] (y ∷ ys) h = cc
bytes_eq_sound (x ∷ xs) [] h = cc
bytes_eq_sound (x ∷ xs) (y ∷ ys) h =
    ap₂ (λ p q. p ∷ q) (ground arith) (bytes_eq_sound xs ys (ground arith))

pub bytes_eq-eq : (a b : Bytes) → a ≡ b → bytes_eq a b ≡ true
bytes_eq-eq a b e = rw e (bytes_eq_self b)

pub bytes_eq-ne : (a b : Bytes) → a ≢ b → bytes_eq a b ≡ false
bytes_eq-ne a b ne = elim (Bool-cases (bytes_eq a b)) [
  | inl h ↦ absurd (ne (bytes_eq_sound a b h))
  | inr h ↦ h
]
