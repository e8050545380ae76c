-- ===== src/Battery.antt =====
-- Nodes/TempHumNode/Firmware/rev2/battery_soc.c: the state of charge from the battery voltage.
pub mod Curve
use bramka_setup.Base.{
  ℕ, ◌-◌, ◌+◌, ◌*◌, ◌/◌, Bool, not, ◌&&◌, List, [], ◌∷◌, if◌then◌else◌, leb, ltb, ◌==◌, u8,
}

-- SocKnee: millivolts and per cent
abbrev pub SocKnee : Type 0
SocKnee = ℕ × ℕ

-- SOC_LUT
abbrev pub soc_lut : List SocKnee
soc_lut =
    (3400, 100)
    ∷ (3350, 98)
    ∷ (3320, 90)
    ∷ (3300, 80)
    ∷ (3280, 65)
    ∷ (3260, 50)
    ∷ (3240, 35)
    ∷ (3220, 22)
    ∷ (3200, 15)
    ∷ (3150, 10)
    ∷ (3100, 6)
    ∷ (3000, 3)
    ∷ (2900, 1)
    ∷ (2500, 0)
    ∷ []

-- The loop over the knees, from the one given on. The differences are taken where the voltage is
-- between the two knees, and the table falls, so that none is negative.
unfoldable pub soc_loop : ℕ → SocKnee → List SocKnee → ℕ
soc_loop mv hi [] = 0
soc_loop mv hi (lo ∷ knees) =
    let rest = soc_loop mv lo knees in
    if leb mv hi.0 && leb lo.0 mv
    then u8 (lo.1 + (mv - lo.0) * (hi.1 - lo.1) / (hi.0 - lo.0))
    else rest

abbrev pub soc_table : ℕ → List SocKnee → ℕ
soc_table mv [] = 0
soc_table mv (knee ∷ knees) = soc_loop mv knee knees

unfoldable pub battery_soc_pct : ℕ → ℕ
battery_soc_pct mv = if leb 3400 mv then 100 else if leb mv 2500 then 0 else soc_table mv soc_lut

-- SOC_LOW_MV
abbrev pub soc_low_mv : ℕ
soc_low_mv = 3050

unfoldable pub battery_is_low : ℕ → Bool
battery_is_low mv = not (mv == 0) && ltb mv soc_low_mv
