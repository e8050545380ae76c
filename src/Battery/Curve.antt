-- ===== src/Battery/Curve.antt =====
-- The charge curve of battery_soc.c.
use bramka_setup.Base.{
  ℕ, zero, suc, ◌+◌, ◌-◌, ◌≤◌, ◌<◌, ◌≡◌, refl, arith, Bool, true, ◌&&◌, leb, Bool-cases, inl, inr,
  subst, ◌==◌, ltb,
}
use bramka_setup.Battery.{soc_loop, battery_soc_pct}

-- A test on every number below n.
abbrev all_below : (ℕ → Bool) → ℕ → Bool
all_below p zero = true
all_below p (suc n) = p n && all_below p n

all_below_lem : (p : ℕ → Bool) (n k : ℕ) → all_below p n ≡ true → k < n → p k ≡ true
all_below_lem p zero k h lt = absurd (omega arith)
all_below_lem p (suc n) k h lt = elim (Bool-cases (k == n)) [
  | inl e ↦ subst (λ i. p i ≡ true) {x = n} {y = k} (ground arith) (ground arith)
  | inr ne ↦ all_below_lem p n k (ground arith) (ground arith)
]

abbrev rises : ℕ → Bool
rises mv = leb (battery_soc_pct mv) (battery_soc_pct (mv + 1)) && leb (battery_soc_pct mv) 100

rises_below : all_below rises 3400 ≡ true
unfolding battery_soc_pct soc_loop
rises_below = refl

battery_soc_pct_full : (mv : ℕ) → 3400 ≤ mv → battery_soc_pct mv ≡ 100
unfolding battery_soc_pct
battery_soc_pct_full mv h = ground arith

rises_lem : (mv : ℕ) → rises mv ≡ true
rises_lem mv = elim (Bool-cases (ltb mv 3400)) [
  | inl lt ↦ all_below_lem rises 3400 mv rises_below (ground arith)
  | inr ge ↦
      ground (
        arith,
        battery_soc_pct_full mv (ground arith),
        battery_soc_pct_full (mv + 1) (ground arith),
      )
]

battery_soc_pct_rise : (a d : ℕ) → battery_soc_pct a ≤ battery_soc_pct (a + d)
battery_soc_pct_rise a zero =
    subst (λ b. battery_soc_pct a ≤ battery_soc_pct b) {x = a} {y = a + 0} (omega arith)
      (omega arith)
battery_soc_pct_rise a (suc d) =
    let step : battery_soc_pct (a + d) ≤ battery_soc_pct (a + d + 1) =
      ground (arith, rises_lem (a + d)) in
    let e : battery_soc_pct a ≤ battery_soc_pct (a + d + 1) =
      omega (arith, battery_soc_pct_rise a d, step) in
    subst (λ b. battery_soc_pct a ≤ battery_soc_pct b) {x = a + d + 1} {y = a + suc d} (omega arith)
      e

-- The charge of a higher voltage is at least that of a lower one, and no charge is above 100 %.
pub battery_soc_pct_lem :
    (a b : ℕ) → a ≤ b → (battery_soc_pct a ≤ battery_soc_pct b) × (battery_soc_pct b ≤ 100)
battery_soc_pct_lem a b h = (
  subst (λ c. battery_soc_pct a ≤ battery_soc_pct c) {x = a + (b - a)} {y = b} (omega arith)
      (battery_soc_pct_rise a (b - a)),
  ground (arith, rises_lem b),
)
